-- ===== src/Discovery/Invariant.antt =====
-- What holds of the message processor between two messages, whatever the API server answers.
use gnmic_operator.Prelude.{
  ℕ, ◌<◌, ℤ, pos, negsuc, rounds, eqb_ℤ, eqb_ℤ_iff, geb_ℤ, true, false, Option, none, some, List,
  [], map, ◌≡◌, refl, ap, sym, inl, inr, ◌==◌, nat_eq, string_eq, length, arith, Option-cases,
  if◌then◌else◌, Bool-cases,
}
use gnmic_operator.Prelude.Dict.{Dict, lookup, insert}
use gnmic_operator.Discovery.Types.{
  DiscoveredTarget, DiscoverySnapshot, DiscoveryMessage, snapshot, event, unknown, TargetSource,
}
use gnmic_operator.Discovery.Client.{Api}
use gnmic_operator.Discovery.Mapper.{normalize_target}
use gnmic_operator.Discovery.Processor.{
  Processor, Failure, invalid_chunk_index, duplicate_chunk, reset_snapshot, SnapshotBuffer,
  process_event, apply_snapshot, collect_snapshot, store_chunk, check_index, start_new_snapshot,
  process_snapshot, process_chunk, replace_snapshot, dispatch, process_message, poll, no_failure,
}
use gnmic_operator.Discovery.Frames.{
  IsValid, IsSound, is_missing, IsValid-eq, IsValid-some, IsValid-idle, process_event_frame,
  apply_snapshot_frame,
}
use gnmic_operator.Discovery.Buffer.{IsBuffered, IsBuffered-insert, all_received}

module _ {W : Type 0} (api : Api W) (ts : TargetSource) where
  IsSound-apply_snapshot :
      (s : SnapshotBuffer) (n : ℕ) (m : Processor W)
      → IsBuffered s
      → s.total_chunks ≡ pos n
      → length s.received ≡ n
      → IsValid m
      → IsSound (apply_snapshot api ts s m)
  IsSound-apply_snapshot s n m b total count v =
      let (active, present) = apply_snapshot_frame api ts s n m b total count in
      record {
        valid = elim active [
          | inl idle ↦ IsValid-idle (apply_snapshot api ts s m).1 idle
          | inr same ↦ IsValid-eq m (apply_snapshot api ts s m).1 same v
        ];
        present = present;
      }

  complete_absurd :
      (s : SnapshotBuffer) (i : ℕ)
      → IsBuffered s
      → i < rounds s.total_chunks
      → lookup i s.received ≡ none
      → s.complete ≡ true
      → ⊥
  complete_absurd s i b h fresh c =
      let e = ap rounds (b.full c) in
      let there = all_received s (length s.received) i b (sym (b.full c)) refl (omega arith) in cc

  IsSound-store_chunk :
      (i : ℕ) (chunk : DiscoverySnapshot) (s : SnapshotBuffer) (m : Processor W)
      → IsBuffered s
      → i < rounds s.total_chunks
      → lookup i s.received ≡ none
      → IsSound (store_chunk api ts i chunk s m)
  IsSound-store_chunk i chunk s m b h fresh =
      elim (Bool-cases (eqb_ℤ (pos (length r)) s.total_chunks)) [
        | inl last ↦
            let same = (eqb_ℤ_iff (pos (length r)) s.total_chunks).0 last in
            let b' = IsBuffered-insert s i chunk.targets true b h (λ _. same) in
            let s' = record s { received = r; complete = true } in
            rw last (
              IsSound-apply_snapshot s' (length r) (record m { active_snapshot = some s' }) b'
                (sym same) refl (IsValid-some (record m { active_snapshot = some s' }) s' refl b'))
        | inr more ↦
            let s' = record s { received = r } in
            rw more (record {
              valid =
                  IsValid-some (record m { active_snapshot = some s' }) s' refl
                    (IsBuffered-insert s i chunk.targets s.complete b h
                      (λ c. absurd (complete_absurd s i b h fresh c)));
              present = refl;
            })
      ]
    where
      r : Dict ℕ (List DiscoveredTarget)
      r = insert i chunk.targets s.received

  IsSound-reset :
      (m : Processor W) (f : Failure)
      → is_missing (some f) ≡ false
      → IsSound (some f, reset_snapshot api ts m)
  IsSound-reset m f p = record { valid = IsValid-idle (reset_snapshot api ts m) refl; present = p }

  IsSound-check_index :
      (i : ℤ) (chunk : DiscoverySnapshot) (s : SnapshotBuffer) (m : Processor W)
      → IsBuffered s
      → IsSound (check_index api ts i chunk s m)
  IsSound-check_index (negsuc _) chunk s m b = IsSound-reset m invalid_chunk_index refl
  IsSound-check_index (pos i) chunk s m b = elim (Bool-cases (geb_ℤ i s.total_chunks)) [
    | inl out ↦ rw out (IsSound-reset m invalid_chunk_index refl)
    | inr inside ↦ elim (Option-cases (lookup i s.received)) [
      | inl fresh ↦
          rw (inside, fresh) (IsSound-store_chunk i chunk s m b (below s.total_chunks inside) fresh)
      | inr (c, again) ↦ rw (inside, again) (IsSound-reset m duplicate_chunk refl)
    ]
  ]
    where
      below : (t : ℤ) → geb_ℤ i t ≡ false → i < rounds t
      below (pos n) e = ground arith
      below (negsuc n) e = cc

  IsSound-collect_snapshot :
      (chunk : DiscoverySnapshot) (s : SnapshotBuffer) (m : Processor W)
      → IsBuffered s
      → IsValid m
      → IsSound (collect_snapshot api ts chunk s m)
  unfolding collect_snapshot
  IsSound-collect_snapshot chunk s m b v =
      elim (Bool-cases (eqb_ℤ chunk.total_chunks s.total_chunks)) [
        | inl same ↦ rw same (IsSound-check_index chunk.chunk_index chunk s m b)
        | inr other ↦ rw other (record { valid = v; present = refl })
      ]

  IsSound-start_new_snapshot :
      (chunk : DiscoverySnapshot) (m : Processor W) → IsSound (start_new_snapshot api ts chunk m)
  unfolding start_new_snapshot
  IsSound-start_new_snapshot chunk m =
      let s : SnapshotBuffer = record {
        snapshot_id = chunk.snapshot_id;
        total_chunks = chunk.total_chunks;
        received = [];
        complete = false;
      } in
      let b : IsBuffered s = record {
        in_range = λ k h. absurd (cc);
        once = refl;
        full = λ c. absurd (cc);
      } in
      let m' = record m { active_snapshot = some s; deferred_events = [] } in
      IsSound-collect_snapshot chunk s m' b (IsValid-some m' s refl b)

  IsSound-then_start :
      (chunk : DiscoverySnapshot) (p : Option Failure × Processor W)
      → IsSound p
      → IsSound (if no_failure p.0 then start_new_snapshot api ts chunk p.1 else p)
  IsSound-then_start chunk (none, m) h = IsSound-start_new_snapshot chunk m
  IsSound-then_start chunk (some f, m) h = h

  IsSound-replace_snapshot :
      (chunk : DiscoverySnapshot) (s : SnapshotBuffer) (m : Processor W)
      → IsBuffered s
      → IsValid m
      → IsSound (replace_snapshot api ts chunk s m)
  IsSound-replace_snapshot chunk s m b v = elim (Bool-cases s.complete) [
    | inl c ↦ simp c (
        IsSound-then_start chunk (apply_snapshot api ts s m)
          (IsSound-apply_snapshot s (length s.received) m b (sym (b.full c)) refl v))
    | inr c ↦ simp c (IsSound-start_new_snapshot chunk m)
  ]

  IsSound-process_chunk :
      (o : Option SnapshotBuffer) (chunk : DiscoverySnapshot) (m : Processor W)
      → ((s : SnapshotBuffer) → o ≡ some s → IsBuffered s)
      → IsValid m
      → IsSound (process_chunk api ts o chunk m)
  IsSound-process_chunk none chunk m b v = IsSound-start_new_snapshot chunk m
  IsSound-process_chunk (some s) chunk m b v =
      elim (Bool-cases (s.snapshot_id == chunk.snapshot_id)) [
        | inl same ↦ rw same (IsSound-collect_snapshot chunk s m (b s refl) v)
        | inr other ↦ rw other (IsSound-replace_snapshot chunk s m (b s refl) v)
      ]

  IsSound-process_snapshot :
      (chunk : DiscoverySnapshot) (m : Processor W)
      → IsValid m
      → IsSound (process_snapshot api ts chunk m)
  unfolding process_snapshot
  IsSound-process_snapshot chunk m v = IsSound-process_chunk m.active_snapshot chunk m v.buffered v

  IsSound-dispatch :
      (msg : DiscoveryMessage) (m : Processor W) → IsValid m → IsSound (dispatch api ts msg m)
  IsSound-dispatch (snapshot chunk) m v =
      IsSound-process_snapshot
        (record chunk { targets = map (λ t. normalize_target t ts.name) chunk.targets }) m v
  IsSound-dispatch (event e) m v =
      let e' = record e { target = normalize_target e.target ts.name } in
      record {
        valid = IsValid-eq m (process_event api ts e' m).1 (process_event_frame api ts e' m).0 v;
        present = (process_event_frame api ts e' m).1;
      }
  IsSound-dispatch unknown m v = record { valid = v; present = refl }

  -- From a valid processor, every message, whatever the API server answers and whenever the context
  -- is cancelled, leaves a valid processor, and the error "missing snapshot chunk" is never met.
  pub IsSound-process_message :
      (msg : DiscoveryMessage) (m : Processor W)
      → IsValid m
      → IsSound (process_message api ts msg m)
  unfolding process_message
  IsSound-process_message msg m v = elim (Bool-cases (api.done m.world).0) [
    | inl done ↦ rw done (record { valid = IsValid-eq m (poll api ts m).1 refl v; present = refl })
    | inr live ↦
        rw live (IsSound-dispatch msg (poll api ts m).1 (IsValid-eq m (poll api ts m).1 refl v))
  ]
