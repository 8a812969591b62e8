-- ===== src/Discovery/Chunks.antt =====
-- createDiscoverySnapshots of loaders/utils/send.go cuts the targets into chunks that are numbered,
-- full but for the last, and together are the targets.
use native.Mathlib.Nat.{div-add-mod', mul-div_cancel, mod-lt}
use mathlib.Core.List.{append-nil, append_assoc}
use gnmic_operator.Prelude.{
  ℕ, zero, suc, ◌+◌, ◌-◌, ◌*◌, ◌/◌, ◌≤◌, ◌<◌, pos, String, true, false, none, some, List, [], ◌∷◌,
  ◌++◌, map, ltb, ◌≡◌, refl, ap, subst, sym, ◌∙◌, if◌then◌else◌, length, take, drop, concat,
  length-drop, length-take, length-map, drop-drop, drop-all, take-append-drop, arith, tests,
  Bool-cases, inl, inr, le→ltb, lt→ltb,
}
use gnmic_operator.Prelude.Sort.{All}
use gnmic_operator.Discovery.Types.{DiscoveredTarget, DiscoverySnapshot}
use gnmic_operator.Discovery.Send.{
  for_each_chunk, create_discovery_snapshots, chunk_snapshot, append_chunk, slice,
}
use gnmic_operator.Discovery.Buffer.{indices, length-indices}

-- How many chunks there are.
abbrev pub chunk_count : ℕ → ℕ → ℕ
chunk_count total size = (total + size - 1) / size

abbrev pub piece {ℓ} : {A : Type ℓ} → ℕ → List A → ℕ → List A
piece size xs k = take size (drop (k * size) xs)

-- The chunk with index `k`.
abbrev pub chunk_at : List DiscoveredTarget → String → ℕ → ℕ → DiscoverySnapshot
chunk_at targets id size k = record {
  snapshot_id = id;
  chunk_index = pos k;
  total_chunks = pos (chunk_count (length targets) size);
  targets = piece size targets k;
}

chunk_count_bounds :
    (total size : ℕ)
    → 0 < size
    → (total ≤ chunk_count total size * size) × (chunk_count total size * size < total + size)
chunk_count_bounds total size h =
    omega (arith, div-add-mod' (total + size - 1) size, mod-lt (total + size - 1) h)

inside : (k n size total : ℕ) → k < n → n * size < total + size → k * size < total
inside k n size total h l = grind arith

take-enough {ℓ} :
    {A : Type ℓ} (a b : ℕ) (xs : List A) → length xs ≤ a → length xs ≤ b → take a xs ≡ take b xs
take-enough zero zero [] h l = refl
take-enough zero (suc b) [] h l = refl
take-enough (suc a) zero [] h l = refl
take-enough (suc a) (suc b) [] h l = refl
take-enough zero b (x ∷ xs) h l = absurd (omega arith)
take-enough (suc a) zero (x ∷ xs) h l = absurd (omega arith)
take-enough (suc a) (suc b) (x ∷ xs) h l =
    ap (◌∷◌ x) (take-enough a b xs (omega arith) (omega arith))

-- The end that the loop computes cuts the same piece.
slice-piece {ℓ} :
    {A : Type ℓ} (i size : ℕ) (xs : List A)
    → slice i (if ltb (length xs) (i + size) then length xs else i + size) xs
      ≡ take size (drop i xs)
slice-piece i size xs = elim (Bool-cases (ltb (length xs) (i + size))) [
  | inl short ↦ rw short (
      take-enough (length xs - i) size (drop i xs) (omega (arith, length-drop i xs))
        (omega (tests, length-drop i xs)))
  | inr full ↦ rw full (ap (λ k. take k (drop i xs)) (omega arith))
]

module _ (targets : List DiscoveredTarget) (id : String) (size : ℕ) (positive : 0 < size) where
  chunk_snapshot-chunk_at :
      (k : ℕ)
      → chunk_snapshot targets id size
          (k * size)
          (if ltb (length targets) (k * size + size) then length targets else k * size + size)
        ≡ chunk_at targets id size k
  chunk_snapshot-chunk_at k = λ i. record {
    snapshot_id = id;
    chunk_index = pos (mul-div_cancel k positive i);
    total_chunks = pos (chunk_count (length targets) size);
    targets = slice-piece (k * size) size targets i;
  }

  -- The loop with `r` chunks left.
  loop_lem :
      (f k r : ℕ) (acc : List DiscoverySnapshot)
      → k + r ≡ chunk_count (length targets) size
      → r < f
      → for_each_chunk f (k * size) (length targets) size (append_chunk targets id size) acc
        ≡ some (none, acc ++ map (chunk_at targets id size) (indices k r))
  unfolding for_each_chunk
  loop_lem zero k r acc e h = absurd (omega arith)
  loop_lem (suc f) k zero acc e h =
      let done : ltb (k * size) (length targets) ≡ false =
        le→ltb (k * size) (length targets)
          (grind (arith, chunk_count_bounds (length targets) size positive)) in
      rw (done, append-nil)
  loop_lem (suc f) k (suc r) acc e h =
      let more : ltb (k * size) (length targets) ≡ true = lt→ltb (k * size) (length targets) (
        inside k (chunk_count (length targets) size) size (length targets) (omega arith)
          (chunk_count_bounds (length targets) size positive).1) in
      let next : k * size + size ≡ suc k * size = omega arith in
      rw more (
        rw (chunk_snapshot-chunk_at k) (
          rw next (
            loop_lem f (suc k) r (acc ++ chunk_at targets id size k ∷ []) (omega arith)
              (omega arith)
            ∙ ap (λ l. some (none, l))
                (append_assoc acc (chunk_at targets id size k ∷ [])
                  (map (chunk_at targets id size) (indices (suc k) r))))))

  -- With fuel for one round more than there are chunks, the loop ends without error, and the
  -- snapshots are those of the indices in order.
  pub create_discovery_snapshots_lem :
      (fuel : ℕ)
      → chunk_count (length targets) size < fuel
      → create_discovery_snapshots fuel targets id size
        ≡ some
            (none, map (chunk_at targets id size) (indices 0 (chunk_count (length targets) size)))
  unfolding create_discovery_snapshots
  create_discovery_snapshots_lem fuel h =
      let start : 0 * size ≡ 0 = omega arith in
      subst
        (λ (i : ℕ).
          for_each_chunk fuel i (length targets) size (append_chunk targets id size) []
          ≡ some (
            none,
            map (chunk_at targets id size) (indices 0 (chunk_count (length targets) size)),
          ))
        start (loop_lem fuel 0 (chunk_count (length targets) size) [] (omega arith) h)

concat-pieces {ℓ} :
    {A : Type ℓ} (size : ℕ) (xs : List A) (k r : ℕ)
    → length xs ≤ (k + r) * size
    → concat (map (piece size xs) (indices k r)) ≡ drop (k * size) xs
concat-pieces size xs k zero h = sym (drop-all (k * size) xs (omega arith))
concat-pieces size xs k (suc r) h =
    let next : k * size + size ≡ suc k * size = omega arith in
    ap (λ l. piece size xs k ++ l)
      (concat-pieces size xs (suc k) r (omega arith)
        ∙ ap (λ n. drop n xs) (sym next)
        ∙ sym (drop-drop size (k * size) xs))
    ∙ take-append-drop size (drop (k * size) xs)

-- Together the chunks are the targets.
pub concat-chunks {ℓ} :
    {A : Type ℓ} (size : ℕ) (xs : List A)
    → 0 < size
    → concat (map (piece size xs) (indices 0 (chunk_count (length xs) size))) ≡ xs
concat-chunks size xs h =
    let start : 0 * size ≡ 0 = omega arith in
    concat-pieces size xs 0 (chunk_count (length xs) size)
      (omega (arith, chunk_count_bounds (length xs) size h))
    ∙ ap (λ i. drop i xs) start

length-piece-le {ℓ} :
    {A : Type ℓ} (size : ℕ) (xs : List A) (k : ℕ) → length (piece size xs k) ≤ size
length-piece-le size xs k = omega (arith, length-take size (drop (k * size) xs))

-- What a list of snapshots says of the targets that were cut.
pub record IsCut (targets : List DiscoveredTarget) (id : String) (size : ℕ)
    (ss : List DiscoverySnapshot) : Type 0 where
  pub whole : concat (map (λ s. s.targets) ss) ≡ targets
  pub numbered : map (λ s. s.chunk_index) ss ≡ map pos (indices 0 (length ss))
  pub named : All (λ s. s.snapshot_id ≡ id) ss
  pub counted : All (λ s. s.total_chunks ≡ pos (length ss)) ss
  pub bounded : All (λ s. length s.targets ≤ size) ss

module _ (targets : List DiscoveredTarget) (id : String) (size : ℕ) where
  targets_of :
      (l : List ℕ)
      → map (λ s. s.targets) (map (chunk_at targets id size) l) ≡ map (piece size targets) l
  targets_of [] = refl
  targets_of (k ∷ l) = ap (◌∷◌ (piece size targets k)) (targets_of l)

  indices_of :
      (l : List ℕ) → map (λ s. s.chunk_index) (map (chunk_at targets id size) l) ≡ map pos l
  indices_of [] = refl
  indices_of (k ∷ l) = ap (◌∷◌ (pos k)) (indices_of l)

  each_chunk :
      (P : DiscoverySnapshot → Type 0) (l : List ℕ)
      → ((k : ℕ) → P (chunk_at targets id size k))
      → All P (map (chunk_at targets id size) l)
  each_chunk P [] p = tt
  each_chunk P (k ∷ l) p = (p k, each_chunk P l p)

  -- With a positive chunk size the loop ends, without an error, after as many rounds as there are
  -- chunks, which is the total that each chunk carries; the chunks in their order make up the
  -- targets, are numbered from 0 and have the snapshot's id, and none is longer than the chunk size.
  pub create_discovery_snapshots-IsCut :
      (fuel : ℕ)
      → 0 < size
      → chunk_count (length targets) size < fuel
      → (ss : List DiscoverySnapshot) × (create_discovery_snapshots fuel targets id size
          ≡ some (none, ss))
        × IsCut targets id size ss
        × (length ss ≡ chunk_count (length targets) size)
  create_discovery_snapshots-IsCut fuel positive h =
      let n = chunk_count (length targets) size in
      let ss = map (chunk_at targets id size) (indices 0 n) in
      let count : length ss ≡ n =
        length-map (chunk_at targets id size) (indices 0 n) ∙ length-indices 0 n in
      (
        ss,
        create_discovery_snapshots_lem targets id size positive fuel h,
        record {
          whole = ap concat (targets_of (indices 0 n)) ∙ concat-chunks size targets positive;
          numbered = indices_of (indices 0 n) ∙ ap (λ k. map pos (indices 0 k)) (sym count);
          named = each_chunk (λ c. c.snapshot_id ≡ id) (indices 0 n) (λ k. refl);
          counted =
              each_chunk (λ c. c.total_chunks ≡ pos (length ss)) (indices 0 n)
                (λ k. ap pos (sym count));
          bounded =
              each_chunk (λ c. length c.targets ≤ size) (indices 0 n)
                (length-piece-le size targets);
        },
        count,
      )
