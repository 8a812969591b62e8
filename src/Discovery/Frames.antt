-- ===== src/Discovery/Frames.antt =====
-- The well-formed message processor, and what the methods leave of its active snapshot, whatever the
-- API server answers.
use gnmic_operator.Prelude.{
  ℕ, zero, suc, ◌+◌, ◌≤◌, ◌<◌, pos, Bool, true, false, Option, none, some, List, [], ◌∷◌, ◌++◌, ◌≡◌,
  refl, subst, ◌∙◌, ◌⊎◌, inl, inr, nat_eq, string_eq, length, arith, Option-cases,
}
use gnmic_operator.Prelude.Dict.{Dict, lookup, is_some}
use gnmic_operator.Discovery.Types.{DiscoveredTarget, DiscoveryEvent, TargetSource}
use gnmic_operator.Discovery.Client.{Api, fetch_existing_targets}
use gnmic_operator.Discovery.Mapper.{generate_events}
use gnmic_operator.Discovery.Processor.{
  Processor, Failure, missing_chunk, SnapshotBuffer, Collected, stopped, missing, all,
  collect_targets, apply_event, apply_events, process_event, replay_deferred, reconcile,
  apply_snapshot, apply_collected, finish, existing_or_none, poll, update_status,
}
use gnmic_operator.Discovery.Buffer.{IsBuffered, all_received}

-- The buffer of the active snapshot, if there is one, is well formed.
pub record IsValid {W : Type 0} (m : Processor W) : Type 0 where
  pub buffered : (s : SnapshotBuffer) → m.active_snapshot ≡ some s → IsBuffered s

abbrev pub is_missing : Option Failure → Bool
is_missing (some (missing_chunk _)) = true
is_missing _ = false

-- A method leaves a valid processor, and has not met a missing chunk.
pub record IsSound {W : Type 0} (result : Option Failure × Processor W) : Type 0 where
  pub valid : IsValid result.1
  pub present : is_missing result.0 ≡ false

module _ {W : Type 0} where
  pub IsValid-eq :
      (m m' : Processor W) → m'.active_snapshot ≡ m.active_snapshot → IsValid m → IsValid m'
  IsValid-eq m m' e v = record { buffered = λ s a. v.buffered s (cc) }

  pub IsValid-some :
      (m : Processor W) (s : SnapshotBuffer) → m.active_snapshot ≡ some s → IsBuffered s → IsValid m
  IsValid-some m s e b = record {
    buffered = λ t a. let same : s ≡ t = cc in subst IsBuffered same b;
  }

  pub IsValid-idle : (m : Processor W) → m.active_snapshot ≡ none → IsValid m
  IsValid-idle m e = record { buffered = λ s a. absurd (cc) }

module _ {W : Type 0} (api : Api W) (ts : TargetSource) where
  pub process_event_frame :
      (e : DiscoveryEvent) (m : Processor W)
      → ((process_event api ts e m).1.active_snapshot ≡ m.active_snapshot)
        × (is_missing (process_event api ts e m).0 ≡ false)
  unfolding process_event apply_event update_status
  process_event_frame e m = ground arith

  pub replay_frame :
      (es : List DiscoveryEvent) (m : Processor W)
      → ((replay_deferred api ts es m).2.active_snapshot ≡ m.active_snapshot)
        × (is_missing (replay_deferred api ts es m).1 ≡ false)
  unfolding replay_deferred
  replay_frame [] m = (refl, refl)
  replay_frame (e ∷ es) m =
      let m' = record m { world = (api.done m.world).1 } in
      ground (arith, process_event_frame e m', replay_frame es (process_event api ts e m').1)

  apply_events_active_any :
      (es : List DiscoveryEvent) (m : Processor W)
      → (apply_events api ts es m).active_snapshot ≡ m.active_snapshot
  unfolding apply_events apply_event
  apply_events_active_any [] m = refl
  apply_events_active_any (e ∷ es) m = apply_events_active_any es (apply_event api ts e m).1

  -- `reconcile` ends with no active snapshot, or with the one that it began with.
  pub reconcile_frame :
      (ds : List DiscoveredTarget) (m : Processor W)
      → (((reconcile api ts ds m).1.active_snapshot ≡ none)
          ⊎ ((reconcile api ts ds m).1.active_snapshot ≡ m.active_snapshot))
        × (is_missing (reconcile api ts ds m).0 ≡ false)
  unfolding reconcile
  reconcile_frame ds m =
      let w = fetch_existing_targets api ts m.world in
      let m0 = record m { world = w.1 } in
      let es = generate_events (existing_or_none api ts w.0) ds in
      let m1 = apply_events api ts es m0 in
      finish_frame (replay_deferred api ts m1.deferred_events m1)
        ((replay_frame m1.deferred_events m1).0 ∙ apply_events_active_any es m0)
        (replay_frame m1.deferred_events m1).1
    where
      finish_frame :
          (p : Bool × Option Failure × Processor W)
          → p.2.active_snapshot ≡ m.active_snapshot
          → is_missing p.1 ≡ false
          → (((finish api ts ds p).1.active_snapshot ≡ none)
              ⊎ ((finish api ts ds p).1.active_snapshot ≡ m.active_snapshot))
            × (is_missing (finish api ts ds p).0 ≡ false)
      finish_frame (true, err, m') a q = (inl refl, refl)
      finish_frame (false, err, m') a q = (inr a, q)

  abbrev lacks : Collected → Bool
  lacks (missing _) = true
  lacks _ = false

  collect_frame :
      (n i : ℕ) (received : Dict ℕ (List DiscoveredTarget)) (acc : List DiscoveredTarget)
      (m : Processor W)
      → ((k : ℕ) → i ≤ k → k < i + n → is_some (lookup k received) ≡ true)
      → (lacks (collect_targets api ts n i received acc m).0 ≡ false)
        × ((collect_targets api ts n i received acc m).1.active_snapshot ≡ m.active_snapshot)
  unfolding collect_targets
  collect_frame zero i received acc m there = (refl, refl)
  collect_frame (suc n) i received acc m there = elim (Option-cases (lookup i received)) [
    | inl gone ↦ absurd (ground (arith, there i))
    | inr (c, e) ↦ ground (
      arith,
      e,
      collect_frame n (suc i) received (acc ++ c) (poll api ts m).1
          (λ k h l. there k (omega arith) (omega arith)),
    )
  ]

  apply_collected_frame :
      (p : Collected × Processor W)
      → lacks p.0 ≡ false
      → (((apply_collected api ts p).1.active_snapshot ≡ none)
          ⊎ ((apply_collected api ts p).1.active_snapshot ≡ p.1.active_snapshot))
        × (is_missing (apply_collected api ts p).0 ≡ false)
  apply_collected_frame (stopped, m) h = (inl refl, refl)
  apply_collected_frame (missing i, m) h = cc
  apply_collected_frame (all ds, m) h = reconcile_frame ds m

  pub apply_snapshot_frame :
      (s : SnapshotBuffer) (n : ℕ) (m : Processor W)
      → IsBuffered s
      → s.total_chunks ≡ pos n
      → length s.received ≡ n
      → (((apply_snapshot api ts s m).1.active_snapshot ≡ none)
          ⊎ ((apply_snapshot api ts s m).1.active_snapshot ≡ m.active_snapshot))
        × (is_missing (apply_snapshot api ts s m).0 ≡ false)
  unfolding apply_snapshot
  apply_snapshot_frame s n m b total count =
      let m' = (poll api ts m).1 in
      let c =
        collect_frame n 0 s.received [] m'
          (λ k h l. all_received s n k b total count (omega arith)) in
      let f = apply_collected_frame (collect_targets api ts n 0 s.received [] m') c.0 in
      rw total (ground (arith, c.1, f))
