-- ===== src/Discovery/Delivery.antt =====
-- From the loader to the cluster: the chunks that SendSnapshot makes, in whatever order they arrive at
-- the message processor, are reconciled as the list that was sent.
use mathlib.Core.List.{map-append}
use text.Mathlib.TextEquality.{eq_iff}
use gnmic_operator.Prelude.{
  ℕ, zero, suc, ◌+◌, ◌≤◌, ◌<◌, pos, rounds, String, true, false, none, some, List, [], ◌∷◌, ◌++◌,
  map, ◌≡◌, refl, ap, sym, subst, ◌∙◌, nat_eq, if◌then◌else◌, contains, distinct, length, concat,
  arith, string_eq, ==_refl, nat_beq_iff,
}
use gnmic_operator.Prelude.Dict.{Dict, lookup, insert, lookup-insert, length-insert_new}
use gnmic_operator.Discovery.Types.{
  DiscoveredTarget, DiscoverySnapshot, DiscoveryMessage, snapshot, TargetSource,
}
use gnmic_operator.Discovery.Mapper.{normalize_target}
use gnmic_operator.Discovery.Client.{Api}
use gnmic_operator.Discovery.Processor.{
  Processor, SnapshotBuffer, apply_snapshot, reconcile, collect_snapshot, process_message,
  process_snapshot, start_new_snapshot,
}
use gnmic_operator.Discovery.Run.{Outcome, emptied, drain}
use gnmic_operator.Discovery.Reliable.{Store, IsReliable}
use gnmic_operator.Discovery.Effects.{AllFree}
use gnmic_operator.Discovery.Converge.{IsReconciled, reconcile-IsReconciled}
use gnmic_operator.Discovery.Buffer.{
  IsBuffered, IsBuffered-insert, chunks_from, apply_snapshot_full, indices, all_indices,
}
use gnmic_operator.Discovery.Chunks.{chunk_count, piece, chunk_at, concat-chunks}

-- The queue was emptied, and the snapshot of `ds` is reconciled.
pub record IsDelivered {W : Type 0} (targets : String → W → Store) (ts : TargetSource)
    (ds : List DiscoveredTarget) (before : Store) (result : Outcome × Processor W) : Type 0 where
  pub finished : result.0 ≡ emptied
  pub reconciled : IsReconciled targets ts ds before (none, result.1)

module _ (ts : TargetSource) (xs : List DiscoveredTarget) (id : String) (size : ℕ) where
  abbrev pub normal : DiscoveredTarget → DiscoveredTarget
  normal t = normalize_target t ts.name

  abbrev pub total : ℕ
  total = chunk_count (length xs) size

  -- The chunk with index `k` as the processor stores it.
  abbrev stored : ℕ → List DiscoveredTarget
  stored k = map normal (piece size xs k)

  -- The message that brings it.
  abbrev pub chunk_message : ℕ → DiscoveryMessage
  chunk_message k = snapshot (chunk_at xs id size k)

  -- The buffer after the chunks of the indices `p`.
  pub record Holds (p : List ℕ) (s : SnapshotBuffer) : Type 0 where
    pub same_id : s.snapshot_id ≡ id
    pub same_total : s.total_chunks ≡ pos total
    pub incomplete : s.complete ≡ false
    pub count : length s.received ≡ length p
    pub at_index : (k : ℕ) → lookup k s.received ≡ (if contains p k then some (stored k) else none)
    pub buffered : IsBuffered s

  chunks_from-stored :
      (p : List ℕ) (s : SnapshotBuffer) (n i : ℕ)
      → ((k : ℕ) → lookup k s.received ≡ (if contains p k then some (stored k) else none))
      → ((k : ℕ) → i ≤ k → k < i + n → contains p k ≡ true)
      → chunks_from n i s.received ≡ concat (map stored (indices i n))
  chunks_from-stored p s zero i at there = refl
  chunks_from-stored p s (suc n) i at there = ground (
    arith,
    at i,
    there i,
    chunks_from-stored p s n (suc i) at (λ k h l. there k (omega arith) (omega arith)),
  )

  concat-map-stored :
      (l : List ℕ) → concat (map stored l) ≡ map normal (concat (map (piece size xs) l))
  concat-map-stored [] = refl
  concat-map-stored (k ∷ l) =
      ap (λ r. stored k ++ r) (concat-map-stored l)
      ∙ sym (map-append normal (piece size xs k) (concat (map (piece size xs) l)))

  -- What the processor makes of the message of index `k`.
  abbrev normal_chunk : ℕ → DiscoverySnapshot
  normal_chunk k = record (chunk_at xs id size k) { targets = stored k }

  abbrev filled : ℕ → SnapshotBuffer → Dict ℕ (List DiscoveredTarget)
  filled k s = insert k (stored k) s.received

  abbrev full_buffer : ℕ → SnapshotBuffer → SnapshotBuffer
  full_buffer k s = record s { received = filled k s; complete = true }

  module _ (p : List ℕ) (s : SnapshotBuffer) (h : Holds p s) (k : ℕ) (fresh : contains p k ≡ false)
      (below : k < total) where
    absent : lookup k s.received ≡ none
    absent = ground (arith, h.at_index k)

    count' : length (filled k s) ≡ suc (length p)
    count' = length-insert_new k (stored k) s.received absent ∙ ap suc h.count

    at_index' :
        (j : ℕ) → lookup j (filled k s) ≡ (if contains (k ∷ p) j then some (stored j) else none)
    at_index' j = ground (arith, lookup-insert k j (stored k) s.received, h.at_index j)

    in_total : k < rounds s.total_chunks
    in_total = subst (λ t. k < rounds t) (sym h.same_total) below

    pub Holds-next : suc (length p) < total → Holds (k ∷ p) (record s { received = (filled k s) })
    Holds-next more = record {
      same_id = h.same_id;
      same_total = h.same_total;
      incomplete = h.incomplete;
      count = count';
      at_index = at_index';
      buffered =
          IsBuffered-insert s k (stored k) s.complete h.buffered in_total
            (λ c. absurd (cc h.incomplete));
    }

    module _ {W : Type 0} (api : Api W) (m : Processor W) where
      -- A chunk that is not the last is stored.
      pub collect_next :
          suc (length p) < total
          → collect_snapshot api ts (normal_chunk k) s m
            ≡ (none, record m { active_snapshot = some (record s { received = (filled k s) }) })
      unfolding collect_snapshot
      collect_next more = ground (arith, h.same_total, absent, count')

      -- The last chunk applies the snapshot.
      collect_last :
          suc (length p) ≡ total
          → collect_snapshot api ts (normal_chunk k) s m
            ≡ apply_snapshot api ts
                (full_buffer k s)
                (record m { active_snapshot = some (full_buffer k s) })
      unfolding collect_snapshot
      collect_last last = ground (arith, h.same_total, absent, count')

  -- The indices still to come, after those of `p`.
  pub record Remains (p q : List ℕ) : Type 0 where
    pub distinct_p : distinct p ≡ true
    pub distinct_q : distinct q ≡ true
    pub below_p : (j : ℕ) → contains p j ≡ true → j < total
    pub below_q : (j : ℕ) → contains q j ≡ true → j < total
    pub apart : (j : ℕ) → contains q j ≡ true → contains p j ≡ false
    pub together : length p + length q ≡ total

  pub Remains-next : (p q : List ℕ) (k : ℕ) → Remains p (k ∷ q) → Remains (k ∷ p) q
  Remains-next p q k r = record {
    distinct_p = ground (arith, r.distinct_p, r.apart k, ==_refl k);
    distinct_q = ground (arith, r.distinct_q);
    below_p = λ j m. ground (arith, r.below_p j, r.below_q j);
    below_q = λ j m. ground (arith, r.below_q j);
    apart = λ j m. ground (arith, r.apart j, r.distinct_q, nat_beq_iff k j);
    together = omega (arith, r.together);
  }

  module _ {W : Type 0} {api : Api W} {targets : String → W → Store}
      (r : IsReliable api targets) where
    reconciled_last :
        (p : List ℕ) (s : SnapshotBuffer) (h : Holds p s) (k : ℕ) (m : Processor W)
        → 0 < size
        → Remains p (k ∷ [])
        → apply_snapshot api ts (full_buffer k s) m ≡ reconcile api ts (map normal xs) m
    reconciled_last p s h k m positive rem =
        let next = Remains-next p [] k rem in
        let fresh : contains p k ≡ false = ground (arith, rem.apart k) in
        let below : k < total = ground (arith, rem.below_q k) in
        let full : suc (length p) ≡ total = omega (arith, next.together) in
        let filled_all = count' p s h k fresh below ∙ full in
        let b =
          IsBuffered-insert s k (stored k) true h.buffered (in_total p s h k fresh below)
            (λ _. ap pos filled_all ∙ sym h.same_total) in
        apply_snapshot_full ts r (full_buffer k s) total m b h.same_total filled_all
        ∙ ap (λ l. reconcile api ts l m)
            (chunks_from-stored (k ∷ p) (full_buffer k s) total 0 (at_index' p s h k fresh below)
                (λ j _ l.
                  all_indices (k ∷ p) total j next.distinct_p next.below_p full (omega arith))
              ∙ concat-map-stored (indices 0 total)
              ∙ ap (map normal) (concat-chunks size xs positive))

    pub process_active :
        (s : SnapshotBuffer) (k : ℕ) (m : Processor W)
        → m.active_snapshot ≡ some s
        → s.snapshot_id ≡ id
        → process_message api ts (chunk_message k) m ≡ collect_snapshot api ts (normal_chunk k) s m
    unfolding process_message process_snapshot
    process_active s k m active same = ground (arith, r.live m.world, eq_iff s.snapshot_id id)

    pub drain_ok :
        (msg : DiscoveryMessage) (rest : List DiscoveryMessage) (m m' : Processor W)
        → process_message api ts msg (record m { queue = rest }) ≡ (none, m')
        → drain api ts (msg ∷ rest) m ≡ drain api ts rest m'
    unfolding drain
    drain_ok msg rest m m' e = ground (arith, r.live m.world)

    -- The last chunk.
    deliver_last :
        (p : List ℕ) (k : ℕ) (s : SnapshotBuffer) (m : Processor W)
        → 0 < size
        → AllFree ts (targets ts.namespace m.world)
        → m.active_snapshot ≡ some s
        → Holds p s
        → Remains p (k ∷ [])
        → IsDelivered targets ts
            (map normal xs)
            (targets ts.namespace m.world)
            (drain api ts (chunk_message k ∷ []) m)
    unfolding drain
    deliver_last p k s m positive free active h rem =
        let mq = record m { queue = [] } in
        let m' = record mq { active_snapshot = some (full_buffer k s) } in
        let fresh : contains p k ≡ false = ground (arith, rem.apart k) in
        let below : k < total = ground (arith, rem.below_q k) in
        let full : suc (length p) ≡ total = omega (arith, rem.together) in
        let done = reconcile-IsReconciled ts r (map normal xs) m' (full_buffer k s) refl free in
        let e =
          process_active s k mq active h.same_id
          ∙ collect_last p s h k fresh below api mq full
          ∙ reconciled_last p s h k m' positive rem in
        subst (IsDelivered targets ts (map normal xs) (targets ts.namespace m.world))
          (sym (
            drain_ok (chunk_message k) [] m (reconcile api ts (map normal xs) m').1
              (e ∙ λ i. (done.succeeds i, (reconcile api ts (map normal xs) m').1))))
          (record {
            finished = refl;
            reconciled = record {
              succeeds = refl;
              idle = done.idle;
              nothing_deferred = done.nothing_deferred;
              counted = done.counted;
              at_name = done.at_name;
            };
          })

    -- The chunks still to come are delivered to a processor that holds those before.
    pub deliver_from :
        (q p : List ℕ) (k : ℕ) (s : SnapshotBuffer) (m : Processor W)
        → 0 < size
        → AllFree ts (targets ts.namespace m.world)
        → m.active_snapshot ≡ some s
        → Holds p s
        → Remains p (k ∷ q)
        → IsDelivered targets ts
            (map normal xs)
            (targets ts.namespace m.world)
            (drain api ts (map chunk_message (k ∷ q)) m)
    deliver_from [] p k s m positive free active h rem =
        deliver_last p k s m positive free active h rem
    deliver_from (j ∷ q) p k s m positive free active h rem =
        let mq = record m { queue = map chunk_message (j ∷ q) } in
        let s' = record s { received = filled k s } in
        let m' = record mq { active_snapshot = some s' } in
        let fresh : contains p k ≡ false = ground (arith, rem.apart k) in
        let below : k < total = ground (arith, rem.below_q k) in
        let more : suc (length p) < total = omega (arith, rem.together) in
        let e =
          process_active s k mq active h.same_id ∙ collect_next p s h k fresh below api mq more in
        subst (IsDelivered targets ts (map normal xs) (targets ts.namespace m.world))
          (sym (drain_ok (chunk_message k) (map chunk_message (j ∷ q)) m m' e))
          (deliver_from q (k ∷ p) j s' m' positive free refl (Holds-next p s h k fresh below more)
            (Remains-next p (j ∷ q) k rem))

    abbrev pub empty_buffer : ℕ → SnapshotBuffer
    empty_buffer k = record {
      snapshot_id = id;
      total_chunks = pos total;
      received = [];
      complete = false;
    }

    pub Holds-empty : (k : ℕ) → Holds [] (empty_buffer k)
    unfolding lookup
    Holds-empty k = record {
      same_id = refl;
      same_total = refl;
      incomplete = refl;
      count = refl;
      at_index = λ j. refl;
      buffered = record { in_range = λ j h. absurd (cc); once = refl; full = λ c. absurd (cc) };
    }

    pub process_idle_snapshot :
        (k : ℕ) (m : Processor W)
        → m.active_snapshot ≡ none
        → process_message api ts (chunk_message k) m
          ≡ collect_snapshot api ts
              (normal_chunk k)
              (empty_buffer k)
              (record m { active_snapshot = some (empty_buffer k); deferred_events = [] })
    unfolding process_message process_snapshot start_new_snapshot
    process_idle_snapshot k m idle = ground (arith, r.live m.world)

    pub drain_same :
        (msg : DiscoveryMessage) (rest : List DiscoveryMessage) (m m' : Processor W)
        → process_message api ts msg (record m { queue = rest })
          ≡ process_message api ts msg (record m' { queue = rest })
        → drain api ts (msg ∷ rest) m ≡ drain api ts (msg ∷ rest) m'
    unfolding drain
    drain_same msg rest m m' e = ground (arith, r.live m.world, r.live m'.world)

    -- When the API server works, the chunks of one snapshot, in any order in which each arrives once,
    -- are reconciled as the list that was cut into them, with the names normalized: the queue is
    -- emptied, no snapshot stays active, no event stays deferred, the count is that of the list, and
    -- at every name the cluster holds what is expected of the list. The processor was idle, no other
    -- controller owns a target of the namespace, and the chunk size is positive.
    pub deliver_lem :
        (order : List ℕ) (m : Processor W)
        → 0 < size
        → AllFree ts (targets ts.namespace m.world)
        → m.active_snapshot ≡ none
        → distinct order ≡ true
        → ((j : ℕ) → contains order j ≡ true → j < total)
        → length order ≡ total
        → 0 < total
        → IsDelivered targets ts
            (map normal xs)
            (targets ts.namespace m.world)
            (drain api ts (map chunk_message order) m)
    deliver_lem [] m positive free idle d below count some_chunk = absurd (omega arith)
    deliver_lem (k ∷ q) m positive free idle d below count some_chunk =
        let s = empty_buffer k in
        let m' = record m { active_snapshot = some s; deferred_events = [] } in
        let e =
          process_idle_snapshot k (record m { queue = map chunk_message q }) idle
          ∙ sym (process_active s k (record m' { queue = map chunk_message q }) refl refl) in
        subst (IsDelivered targets ts (map normal xs) (targets ts.namespace m.world))
          (sym (drain_same (chunk_message k) (map chunk_message q) m m' e))
          (deliver_from q [] k s m' positive free refl (Holds-empty k) (record {
            distinct_p = refl;
            distinct_q = d;
            below_p = λ j h. absurd (cc);
            below_q = below;
            apart = λ j h. refl;
            together = omega arith;
          }))
