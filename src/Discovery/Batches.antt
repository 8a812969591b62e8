-- ===== src/Discovery/Batches.antt =====
-- `Run` of internal/controller/discovery/message_processor.go on the chunks of a snapshot, in whatever
-- batches and in whatever order the channel brings them.
use mathlib.Core.List.{append-nil}
use gnmic_operator.Prelude.{
  ◌⊎◌, inl, inr, ℕ, suc, ◌<◌, String, true, false, Option, none, some, List, [], ◌∷◌, ◌++◌, map,
  ◌≡◌, refl, ap, sym, subst, ◌∙◌, nat_eq, contains, distinct, length, length-append, concat, arith,
}
use gnmic_operator.Discovery.Types.{DiscoveredTarget, DiscoveryMessage, TargetSource}
use gnmic_operator.Discovery.Client.{Api, fetch_existing_targets, source_labels}
use gnmic_operator.Discovery.Processor.{
  Processor, Failure, SnapshotBuffer, process_message, new_message_processor,
}
use gnmic_operator.Discovery.Run.{
  Arrival, batch, Outcome, emptied, drain, go_on, serve, run, initial_count,
}
use gnmic_operator.Discovery.Reliable.{Store, IsReliable}
use gnmic_operator.Discovery.Effects.{AllFree}
use gnmic_operator.Discovery.Converge.{IsReconciled}
use gnmic_operator.Discovery.Delivery.{
  IsDelivered, normal, total, chunk_message, Holds, Remains, Holds-next, Remains-next, collect_next,
  process_active, process_idle_snapshot, drain_ok, drain_same, deliver_from, empty_buffer,
  Holds-empty,
}

module _ (ts : TargetSource) (xs : List DiscoveredTarget) (id : String) (size : ℕ) where
  -- The chunks with these indices in one batch.
  abbrev pub arrive : List ℕ → Arrival
  arrive order = batch (map (chunk_message ts xs id size) order)

  module _ {W : Type 0} {api : Api W} {targets : String → W → Store} (r : IsReliable api targets)
      (w : W) where
    -- The queue was emptied with `rest` still to come: nothing is written yet.
    record IsPartial (rest : List ℕ) (result : Outcome × Processor W) : Type 0 where
      before : List ℕ
      buffer : SnapshotBuffer
      finished : result.0 ≡ emptied
      no_queue : result.1.queue ≡ []
      active : result.1.active_snapshot ≡ some buffer
      holds : Holds ts xs id size before buffer
      same_world : result.1.world ≡ w
      remains : Remains ts xs id size before rest

    drain_prefix :
        (q p rest : List ℕ) (s : SnapshotBuffer) (m : Processor W)
        → m.active_snapshot ≡ some s
        → Holds ts xs id size p s
        → m.world ≡ w
        → Remains ts xs id size p (q ++ rest)
        → 0 < length rest
        → IsPartial rest (drain api ts (map (chunk_message ts xs id size) q) m)
    unfolding drain
    drain_prefix [] p rest s m active h world rem some_left = record {
      before = p;
      buffer = s;
      finished = refl;
      no_queue = refl;
      active = active;
      holds = h;
      same_world = world;
      remains = rem;
    }
    drain_prefix (k ∷ q) p rest s m active h world rem some_left =
        let msgs = map (chunk_message ts xs id size) q in
        let mq = record m { queue = msgs } in
        let fresh : contains p k ≡ false = ground (arith, rem.apart k) in
        let below : k < total ts xs id size = ground (arith, rem.below_q k) in
        let more : suc (length p) < total ts xs id size =
          omega (arith, rem.together, length-append q rest) in
        let e =
          process_active ts xs id size r s k mq active h.same_id
          ∙ collect_next ts xs id size p s h k fresh below api mq more in
        subst (IsPartial rest)
          (sym (drain_ok ts xs id size r (chunk_message ts xs id size k) msgs m _ e))
          (drain_prefix q (k ∷ p) rest _ _ refl (Holds-next ts xs id size p s h k fresh below more)
            world (Remains-next ts xs id size p (q ++ rest) k rem) some_left)

    -- The chunks to come are handled as by a processor that holds those before, also before the first.
    record IsReady (p : List ℕ) (m : Processor W) : Type 0 where
      like : Processor W
      buffer : SnapshotBuffer
      active : like.active_snapshot ≡ some buffer
      holds : Holds ts xs id size p buffer
      same_world : like.world ≡ w
      same_drain :
          (k : ℕ) (q : List ℕ)
          → drain api ts (map (chunk_message ts xs id size) (k ∷ q)) m
            ≡ drain api ts (map (chunk_message ts xs id size) (k ∷ q)) like

    drain_queue :
        (msgs q : List DiscoveryMessage) (m : Processor W)
        → drain api ts msgs (record m { queue = q }) ≡ drain api ts msgs m
    unfolding drain
    drain_queue [] q m = refl
    drain_queue (msg ∷ rest) q m =
        drain_same ts xs id size r msg rest (record m { queue = q }) m refl

    -- One batch, when the queue is empty.
    serve_step :
        (msgs : List DiscoveryMessage) (arrivals : List Arrival) (m : Processor W)
        → m.queue ≡ []
        → serve api ts (batch msgs ∷ arrivals) m
          ≡ go_on api ts
              (drain api ts msgs m).0
              (serve api ts arrivals (drain api ts msgs m).1)
              (drain api ts msgs m).1
    unfolding serve
    serve_step msgs arrivals m h =
        ap (λ q. step (drain api ts (q ++ msgs) (record m { queue = q ++ msgs }))) h
        ∙ ap step (drain_queue msgs msgs m)
      where
        step : Outcome × Processor W → Option Failure × Processor W
        step p = go_on api ts p.0 (serve api ts arrivals p.1) p.1

    -- Batches without messages change nothing.
    serve_empty :
        (batches : List (List ℕ)) (m : Processor W)
        → concat batches ≡ []
        → m.queue ≡ []
        → serve api ts (map arrive batches) m ≡ (none, m)
    unfolding serve drain
    serve_empty [] m e h = refl
    serve_empty ([] ∷ rest) m e h =
        serve_step [] (map arrive rest) m h
        ∙ serve_empty rest (record m { queue = [] }) e refl
        ∙ ap (λ q. (none, record m { queue = q })) (sym h)
    serve_empty ((k ∷ q) ∷ rest) m e h = absurd (cc)

    -- What is left when the batch brings the last chunk.
    serve_last :
        (batches : List (List ℕ)) (before : Store) (result : Outcome × Processor W)
        → concat batches ≡ []
        → result.1.queue ≡ []
        → IsDelivered targets ts (map (normal ts xs id size) xs) before result
        → IsReconciled targets ts
            (map (normal ts xs id size) xs)
            before
            (go_on api ts result.0 (serve api ts (map arrive batches) result.1) result.1)
    serve_last batches before result none_left no_queue d =
        subst (λ p. IsReconciled targets ts (map (normal ts xs id size) xs) before p)
          (sym (
            ap (λ o. go_on api ts o (serve api ts (map arrive batches) result.1) result.1)
              d.finished
            ∙ serve_empty batches result.1 none_left no_queue))
          d.reconciled

    emptied_queue :
        (q : List DiscoveryMessage) (m : Processor W)
        → (drain api ts q m).0 ≡ emptied
        → (drain api ts q m).1.queue ≡ []
    unfolding drain
    emptied_queue [] m h = refl
    emptied_queue (msg ∷ rest) m h =
        let m' = record m { queue = rest; world = (api.done m.world).1 } in
        let (err, m'') = process_message api ts msg m' in
        ground (arith, r.live m.world, emptied_queue rest m'')

    empty_or_not : (l : List ℕ) → (l ≡ []) ⊎ (0 < length l)
    empty_or_not [] = inl refl
    empty_or_not (k ∷ l) = inr (omega arith)

    IsReady-partial :
        (rest : List ℕ) (result : Outcome × Processor W) (part : IsPartial rest result)
        → IsReady part.before result.1
    IsReady-partial rest result part = record {
      like = result.1;
      buffer = part.buffer;
      active = part.active;
      holds = part.holds;
      same_world = part.same_world;
      same_drain = λ k q. refl;
    }

    module _ (positive : 0 < size) (free : AllFree ts (targets ts.namespace w)) where
      -- The batch that brings the rest.
      delivered :
          (k : ℕ) (q p : List ℕ) (m : Processor W)
          → IsReady p m
          → Remains ts xs id size p (k ∷ q)
          → IsDelivered targets ts
              (map (normal ts xs id size) xs)
              (targets ts.namespace w)
              (drain api ts (map (chunk_message ts xs id size) (k ∷ q)) m)
      delivered k q p m ready rem =
          subst (IsDelivered targets ts (map (normal ts xs id size) xs) (targets ts.namespace w))
            (sym (ready.same_drain k q))
            (subst
              (λ v.
                IsDelivered targets ts (map (normal ts xs id size) xs) (targets ts.namespace v)
                  (drain api ts (map (chunk_message ts xs id size) (k ∷ q)) ready.like))
              ready.same_world
              (deliver_from ts xs id size r q p k ready.buffer ready.like positive
                (subst (λ v. AllFree ts (targets ts.namespace v)) (sym ready.same_world) free)
                ready.active ready.holds rem))

      serve_delivers :
          (batches : List (List ℕ)) (p : List ℕ) (m : Processor W)
          → m.queue ≡ []
          → IsReady p m
          → Remains ts xs id size p (concat batches)
          → 0 < length (concat batches)
          → IsReconciled targets ts
              (map (normal ts xs id size) xs)
              (targets ts.namespace w)
              (serve api ts (map arrive batches) m)
      unfolding drain
      serve_delivers [] p m no_queue ready rem some_left = absurd (omega arith)
      serve_delivers ([] ∷ batches) p m no_queue ready rem some_left =
          subst (IsReconciled targets ts (map (normal ts xs id size) xs) (targets ts.namespace w))
            (sym (
              serve_step [] (map arrive batches) m no_queue
              ∙ ap (λ q. serve api ts (map arrive batches) (record m { queue = q }))
                  (sym no_queue)))
            (serve_delivers batches p m no_queue ready rem some_left)
      serve_delivers ((k ∷ q) ∷ batches) p m no_queue ready rem some_left =
          subst (IsReconciled targets ts (map (normal ts xs id size) xs) (targets ts.namespace w))
            (sym (serve_step msgs (map arrive batches) m no_queue))
            (elim (empty_or_not (concat batches)) [
              | inl none_left ↦
                  let d = delivered k q p m ready (
                    subst (λ l. Remains ts xs id size p (k ∷ l))
                      (ap (λ l. q ++ l) none_left ∙ append-nil q) rem) in
                  serve_last batches (targets ts.namespace w) (drain api ts msgs m) none_left
                    (emptied_queue msgs m d.finished) d
              | inr more ↦
                  let part : IsPartial (concat batches) (drain api ts msgs m) =
                    subst (IsPartial (concat batches)) (sym (ready.same_drain k q)) (
                      drain_prefix (k ∷ q) p (concat batches) ready.buffer ready.like ready.active
                        ready.holds ready.same_world rem more) in
                  subst
                    (λ o.
                      IsReconciled targets ts (map (normal ts xs id size) xs)
                        (targets ts.namespace w)
                        (go_on api ts o (serve api ts (map arrive batches) (drain api ts msgs m).1)
                          (drain api ts msgs m).1))
                    (sym part.finished)
                    (serve_delivers batches part.before (drain api ts msgs m).1 part.no_queue
                      (IsReady-partial (concat batches) (drain api ts msgs m) part) part.remains
                      more)
            ])
        where
          msgs : List DiscoveryMessage
          msgs = map (chunk_message ts xs id size) (k ∷ q)

      IsReady-idle : (m : Processor W) → m.active_snapshot ≡ none → m.world ≡ w → IsReady [] m
      IsReady-idle m idle same = record {
        like = like;
        buffer = empty_buffer ts xs id size r 0;
        active = refl;
        holds = Holds-empty ts xs id size r 0;
        same_world = same;
        same_drain = λ k q.
            let msgs = map (chunk_message ts xs id size) q in
            drain_same ts xs id size r (chunk_message ts xs id size k) msgs m like (
              process_idle_snapshot ts xs id size r k (record m { queue = msgs }) idle
              ∙ sym (
                  process_active ts xs id size r (empty_buffer ts xs id size r 0) k
                    (record like { queue = msgs }) refl refl));
      }
        where
          like : Processor W
          like = record m {
            active_snapshot = some (empty_buffer ts xs id size r 0);
            deferred_events = [];
          }

      -- When the API server works, `Run` on a new processor reconciles a list that is cut into chunks, in
      -- whatever batches and order the chunks arrive, each once, before the channel is closed: it returns
      -- no error, no snapshot stays active, no event stays deferred, the count is that of the list, and at
      -- every name the cluster holds what is expected of the list with the names normalized. No other
      -- controller owns a target of the namespace, and the chunk size is positive.
      pub run-IsReconciled :
          (batches : List (List ℕ))
          → distinct (concat batches) ≡ true
          → ((j : ℕ) → contains (concat batches) j ≡ true → j < total ts xs id size)
          → length (concat batches) ≡ total ts xs id size
          → 0 < total ts xs id size
          → IsReconciled targets ts
              (map (normal ts xs id size) xs)
              (targets ts.namespace w)
              (run api ts (map arrive batches) (new_message_processor w))
      unfolding run new_message_processor fetch_existing_targets
      run-IsReconciled batches once below count some_chunk =
          let (l, listed, same) = r.list_lem ts.namespace (source_labels ts) w in
          let m = new_message_processor w in
          subst
            (λ p. IsReconciled targets ts (map (normal ts xs id size) xs) (targets ts.namespace w) (
              serve api ts (map arrive batches)
                (initial_count api ts p.0 (record m { world = p.1 }))))
            (sym listed)
            (serve_delivers batches [] (initial_count api ts (some l) m) refl
              (IsReady-idle (initial_count api ts (some l) m) refl refl)
              (record {
                distinct_p = refl;
                distinct_q = once;
                below_p = λ j h. absurd (cc);
                below_q = below;
                apart = λ j h. refl;
                together = omega arith;
              })
              (omega arith))
