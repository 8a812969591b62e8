-- ===== src/Placement/Choice.antt =====
-- boundedRendezvousHash of internal/gnmic/placement_blrh.go: the pod with the highest score among
-- those with room.
use gnmic_operator.Prelude.{
  ℕ, zero, suc, ◌+◌, ◌≤◌, ◌<◌, ℤ, rounds, geb_ℤ, String, true, false, some, List, [], ◌∷◌, ◌≡◌,
  refl, ap, ◌∙◌, subst, nat_eq, string_eq, length, arith, nat_beq, ◌⊎◌, Bool-cases, inl, inr, ltb,
  if◌then◌else◌,
}
use gnmic_operator.Prelude.Sort.{
  sort_by, All, All-sort_by, All-of_sort_by, IsFirst, IsSortedBy, sorted-sort_by,
}
use gnmic_operator.Placement.Stable.{room_left}
use gnmic_operator.Placement.Hash.{hash_score}
use gnmic_operator.Placement.Blrh.{
  Assignment, PodScore, at_pod, pod_scores, score_before, first_with_capacity,
  bounded_rendezvous_hash,
}

score_asym : (a b : PodScore) → score_before a b ≡ true → score_before b a ≡ false
score_asym a b h = ground arith

score_trans :
    (a b c : PodScore)
    → score_before b a ≡ false
    → score_before c b ≡ false
    → score_before c a ≡ false
score_trans a b c h g = ground arith

abbrev IsRanked : List PodScore → Type 0
IsRanked = IsSortedBy score_before score_asym score_trans

-- Each score is the hash of the target and the pod.
abbrev IsScored : String → PodScore → Type 0
IsScored t s = s.score ≡ hash_score t s.index

All-IsScored : (t : String) (i k : ℕ) → All (IsScored t) (pod_scores t i k)
unfolding pod_scores
All-IsScored t i zero = tt
All-IsScored t i (suc k) = (refl, All-IsScored t (suc i) k)

-- A pod with room does not come before the chosen one.
abbrev NotBefore : ℤ → Assignment → PodScore → PodScore → Type 0
NotBefore c a w s = geb_ℤ (length (at_pod s.index a)) c ≡ false → score_before s w ≡ false

All-NotBefore :
    (c : ℤ) (a : Assignment) (w : PodScore) (ss : List PodScore)
    → IsFirst score_before score_asym score_trans w ss
    → All (NotBefore c a w) ss
All-NotBefore c a w [] h = tt
All-NotBefore c a w (s ∷ ss) h = (λ r. h.0, All-NotBefore c a w ss h.1)

-- The chosen pod has a score of the list, and no pod with room comes before it.
abbrev IsChosen : ℤ → Assignment → String → ℕ → List PodScore → PodScore → Type 0
IsChosen c a t p ss w = (w.index ≡ p) × (IsScored t w × All (NotBefore c a w) ss)

first_with_capacity-IsChosen :
    (c : ℤ) (a : Assignment) (t : String) (p : ℕ) (ss : List PodScore)
    → IsRanked ss
    → All (IsScored t) ss
    → first_with_capacity c a ss ≡ some p
    → (w : PodScore) × IsChosen c a t p ss w
unfolding first_with_capacity
first_with_capacity-IsChosen c a t p [] r s h = absurd (ground arith)
first_with_capacity-IsChosen c a t p (x ∷ ss) r s h =
    elim (Bool-cases (geb_ℤ (length (at_pod x.index a)) c)) [
      | inl full ↦
          let later = first_with_capacity-IsChosen c a t p ss r.1 s.1 (ground arith) in
          (later.0, (later.1.0, (later.1.1.0, (λ room. absurd (ground arith), later.1.1.1))))
      | inr room ↦ (x, (ground arith, (s.0, (λ q. ground arith, All-NotBefore c a x ss r.0))))
    ]

All-pod_scores {ℓ} :
    (P : PodScore → Type ℓ) (t : String) (i k q : ℕ)
    → All P (pod_scores t i k)
    → i ≤ q
    → q < i + k
    → (s : PodScore) × ((s.index ≡ q) × ((s.score ≡ hash_score t q) × P s))
unfolding pod_scores
All-pod_scores P t i zero q h l r = absurd (omega arith)
All-pod_scores P t i (suc k) q h l r = elim (Bool-cases (nat_beq i q)) [
  | inl here ↦
      let is : i ≡ q = ground arith in
      (record { index = i; score = hash_score t i }, (is, (ap (hash_score t) is, h.0)))
  | inr later ↦ All-pod_scores P t (suc i) k q h.1 (ground arith) (omega arith)
]

-- Among the pods with room, the chosen one has the highest hash of the target with its index, and
-- the lowest index of those with this hash.
pub bounded_rendezvous_hash-IsHighest :
    (t : String) (n : ℕ) (c : ℤ) (a : Assignment) (p q : ℕ)
    → bounded_rendezvous_hash t n c a ≡ some p
    → q < n
    → length (at_pod q a) < rounds c
    → (hash_score t q < hash_score t p) ⊎ ((hash_score t q ≡ hash_score t p) × (p ≤ q))
unfolding bounded_rendezvous_hash
bounded_rendezvous_hash-IsHighest t n c a p q h l room =
    elim (Bool-cases (nat_beq (hash_score t q) (hash_score t p))) [
      | inl same ↦ inr (ground arith, ground (arith, not_before))
      | inr other ↦ inl (ground (arith, not_before))
    ]
  where
    scores : List PodScore
    scores = sort_by score_before (pod_scores t 0 n)

    chosen : (w : PodScore) × IsChosen c a t p scores w
    chosen =
        first_with_capacity-IsChosen c a t p scores
          (sorted-sort_by score_before score_asym score_trans (pod_scores t 0 n))
          (All-sort_by (IsScored t) score_before (pod_scores t 0 n) (All-IsScored t 0 n)) h

    other :
        (s : PodScore) × ((s.index ≡ q) × ((s.score ≡ hash_score t q) × NotBefore c a chosen.0 s))
    other =
        All-pod_scores (NotBefore c a chosen.0) t 0 n q
          (All-of_sort_by (NotBefore c a chosen.0) score_before (pod_scores t 0 n) chosen.1.1.1)
          (omega arith) (omega arith)

    free : geb_ℤ (length (at_pod other.0.index a)) c ≡ false
    free =
        ap (λ r. geb_ℤ (length (at_pod r a)) c) other.1.0 ∙ room_left (length (at_pod q a)) c room

    win : chosen.0.score ≡ hash_score t p
    win = chosen.1.1.0 ∙ ap (hash_score t) chosen.1.0

    not_before :
        (if nat_beq (hash_score t q) (hash_score t p)
          then ltb q p
          else ltb (hash_score t p) (hash_score t q))
        ≡ false
    not_before = subst (λ x. x) (same_test other.1.0 other.1.1.0 chosen.1.0 win) (other.1.1.1 free)
      where
        same_test :
            {i j x y : ℕ}
            → i ≡ q
            → x ≡ hash_score t q
            → j ≡ p
            → y ≡ hash_score t p
            → ((if nat_beq x y then ltb i j else ltb y x) ≡ false) ≡ (
                (if nat_beq (hash_score t q) (hash_score t p)
                  then ltb q p
                  else ltb (hash_score t p) (hash_score t q))
                ≡ false)
        same_test e1 e2 e3 e4 = rw (e1, e2, e3, e4) refl
