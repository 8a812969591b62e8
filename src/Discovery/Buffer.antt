-- ===== src/Discovery/Buffer.antt =====
-- The buffer of a snapshot in message_processor.go: a full buffer has every chunk, and applySnapshot
-- puts the chunks together in the order of their indices.
use mathlib.Core.List.{append-nil, append_assoc}
use gnmic_operator.Prelude.{
  ℕ, String, zero, suc, ◌+◌, ◌≤◌, ◌<◌, pos, rounds, Bool, true, Option, none, some, List, [], ◌∷◌,
  ◌++◌, ◌≡◌, refl, ap, ◌∙◌, sym, nat_eq, contains, distinct, distinct-le, length, arith,
  Option-cases, ==_cases, inl, inr, Bool-cases,
}
use gnmic_operator.Prelude.Dict.{
  Dict, insert, contains-keys-insert, distinct-keys-insert, keys, lookup, is_some, contains-keys,
  length-keys,
}
use gnmic_operator.Discovery.Types.{DiscoveredTarget, TargetSource}
use gnmic_operator.Discovery.Client.{Api}
use gnmic_operator.Discovery.Processor.{
  Processor, SnapshotBuffer, all, collect_targets, apply_snapshot, reconcile,
}
use gnmic_operator.Discovery.Reliable.{Store, IsReliable}

-- The indices from `i` on.
abbrev pub indices : ℕ → ℕ → List ℕ
indices i zero = []
indices i (suc n) = i ∷ indices (suc i) n

pub length-indices : (i n : ℕ) → length (indices i n) ≡ n
length-indices i zero = refl
length-indices i (suc n) = ap suc (length-indices (suc i) n)

pub contains-indices : (i n k : ℕ) → i ≤ k → k < i + n → contains (indices i n) k ≡ true
contains-indices i zero k h l = absurd (omega arith)
contains-indices i (suc n) k h l = elim (==_cases i k) [
  | inl same ↦ ground arith
  | inr other ↦ ground (arith, contains-indices (suc i) n k)
]

-- As many different indices below `n` as there are take every one.
pub all_indices :
    (p : List ℕ) (n k : ℕ)
    → distinct p ≡ true
    → ((j : ℕ) → contains p j ≡ true → j < n)
    → length p ≡ n
    → k < n
    → contains p k ≡ true
all_indices p n k d below full h = elim (Bool-cases (contains p k)) [
  | inl there ↦ there
  | inr absent ↦ absurd (
      omega (
        arith,
        distinct-le (k ∷ p) (indices 0 n) (ground arith)
            (λ j m. contains-indices 0 n j (omega arith) (ground (arith, below j))),
        length-indices 0 n,
      ))
]

abbrev or_empty : Option (List DiscoveredTarget) → List DiscoveredTarget
or_empty none = []
or_empty (some l) = l

-- The chunks in the order of their indices.
abbrev pub chunks_from : ℕ → ℕ → Dict ℕ (List DiscoveredTarget) → List DiscoveredTarget
chunks_from zero i received = []
chunks_from (suc n) i received = or_empty (lookup i received) ++ chunks_from n (suc i) received

-- What holds of the buffer of an active snapshot.
pub record IsBuffered (s : SnapshotBuffer) : Type 0 where
  pub in_range : (k : ℕ) → contains (keys s.received) k ≡ true → k < rounds s.total_chunks
  pub once : distinct (keys s.received) ≡ true
  pub full : s.complete ≡ true → pos (length s.received) ≡ s.total_chunks

pub IsBuffered-insert :
    (s : SnapshotBuffer) (i : ℕ) (chunk : List DiscoveredTarget) (full : Bool)
    → IsBuffered s
    → i < rounds s.total_chunks
    → (full ≡ true → pos (length (insert i chunk s.received)) ≡ s.total_chunks)
    → IsBuffered (record s { received = insert i chunk s.received; complete = full })
IsBuffered-insert s i chunk full b h f = record {
  in_range = λ k there. ground (arith, contains-keys-insert i k chunk s.received, b.in_range k);
  once = distinct-keys-insert i chunk s.received b.once;
  full = f;
}

-- A buffer that counts as many chunks as its total has each of them.
pub all_received :
    (s : SnapshotBuffer) (n k : ℕ)
    → IsBuffered s
    → s.total_chunks ≡ pos n
    → length s.received ≡ n
    → k < n
    → is_some (lookup k s.received) ≡ true
all_received s n k b total count h =
    sym (contains-keys k s.received)
    ∙ all_indices (keys s.received) n k b.once (λ j m. ground (arith, b.in_range j m))
        (length-keys s.received ∙ count) h

module _ {W : Type 0} {api : Api W} {targets : String → W → Store} (ts : TargetSource)
    (r : IsReliable api targets) where
  collect_live :
      (n i : ℕ) (received : Dict ℕ (List DiscoveredTarget)) (acc : List DiscoveredTarget)
      (m : Processor W)
      → ((k : ℕ) → i ≤ k → k < i + n → is_some (lookup k received) ≡ true)
      → collect_targets api ts n i received acc m ≡ (all (acc ++ chunks_from n i received), m)
  unfolding collect_targets
  collect_live zero i received acc m there = ground (arith, append-nil acc)
  collect_live (suc n) i received acc m there = elim (Option-cases (lookup i received)) [
    | inl gone ↦ absurd (ground (arith, there i))
    | inr (c, e) ↦ ground (
      arith,
      e,
      r.live m.world,
      collect_live n (suc i) received (acc ++ c) m (λ k h l. there k (omega arith) (omega arith)),
      append_assoc acc c (chunks_from n (suc i) received),
    )
  ]

  -- A full buffer is reconciled with the chunks in order.
  pub apply_snapshot_full :
      (s : SnapshotBuffer) (n : ℕ) (m : Processor W)
      → IsBuffered s
      → s.total_chunks ≡ pos n
      → length s.received ≡ n
      → apply_snapshot api ts s m ≡ reconcile api ts (chunks_from n 0 s.received) m
  unfolding apply_snapshot
  apply_snapshot_full s n m b total count = ground (
    arith,
    r.live m.world,
    total,
    collect_live n 0 s.received [] m (λ k h l. all_received s n k b total count (omega arith)),
  )
