-- ===== src/Placement/Bound.antt =====
-- The load of a pod under boundedLoadRendezvousHash of internal/gnmic/placement_blrh.go.
use gnmic_operator.Prelude.{
  ℕ, zero, suc, ◌+◌, ◌≤◌, ◌<◌, ℤ, pos, negsuc, rounds, geb_ℤ, String, Bool, true, false, Option,
  none, some, List, [], ◌∷◌, ◌≡◌, refl, sym, subst, nat_eq, string_eq, nat_beq, if◌then◌else◌,
  length, length-append, arith, nat_beq_iff, inl, inr, Bool-cases, ltb, leb, contains,
}
use gnmic_operator.Prelude.Dict.{Dict, keys, lookup}
use gnmic_operator.Prelude.Sort.{sort_by, All, All-sort_by}
use gnmic_operator.Prelude.Text.{str_ltb}
use gnmic_operator.Placement.Blrh.{
  Assignment, PodScore, PlacementStrategyOpts, Kept, at_pod, pod_scores, score_before,
  first_with_capacity, bounded_rendezvous_hash, append_to, touch, keep_targets, by_hash,
  keep_current, assign_to, assign_targets, keep_one, keep_pod, assign_one, kept_current, assign_all,
  effective_capacity, to_count, bounded_load_rendezvous_hash,
}
use gnmic_operator.Placement.Load.{at_pod-append_to, at_pod-touch}

-- Every pod has at most `c` targets, and a pod from `n` on has none.
abbrev pub IsBounded : ℤ → ℕ → Assignment → Type 0
IsBounded c n a = (p : ℕ) → length (at_pod p a) ≤ (if ltb p n then rounds c else 0)

pub geb_rounds : (k : ℕ) (c : ℤ) → geb_ℤ k c ≡ false → k < rounds c
geb_rounds k (pos c) h = ground arith
geb_rounds k (negsuc c) h = absurd (ground arith)

IsBounded-append_to :
    (c : ℤ) (n p : ℕ) (t : String) (a : Assignment)
    → p < n
    → length (at_pod p a) < rounds c
    → IsBounded c n a
    → IsBounded c n (append_to p t a)
IsBounded-append_to c n p t a l r b q =
    ground
      (arith, at_pod-append_to p q t a, nat_beq_iff p q, b q, length-append (at_pod p a) (t ∷ []))

IsBounded-touch : (c : ℤ) (n p : ℕ) (a : Assignment) → IsBounded c n a → IsBounded c n (touch p a)
IsBounded-touch c n p a b q =
    subst (λ l. length l ≤ (if ltb q n then rounds c else 0)) (sym (at_pod-touch p q a)) (b q)

IsBounded-keep_one :
    (c : ℤ) (n p : ℕ) (t : String) (k : Kept) (full : Bool)
    → geb_ℤ (length (at_pod p (touch p k.assignments))) c ≡ full
    → p < n
    → IsBounded c n k.assignments
    → IsBounded c n (keep_one full p t k).assignments
IsBounded-keep_one c n p t k true e l b = IsBounded-touch c n p k.assignments b
IsBounded-keep_one c n p t k false e l b =
    IsBounded-append_to c n p t (touch p k.assignments) l (geb_rounds _ c e)
      (IsBounded-touch c n p k.assignments b)

IsBounded-keep_targets :
    (c : ℤ) (n p : ℕ) (ts : List String) (k : Kept)
    → p < n
    → IsBounded c n k.assignments
    → IsBounded c n (keep_targets c p ts k).assignments
unfolding keep_targets
IsBounded-keep_targets c n p [] k l b = b
IsBounded-keep_targets c n p (t ∷ ts) k l b =
    IsBounded-keep_targets c n p ts _ l (IsBounded-keep_one c n p t k _ refl l b)

IsBounded-keep_pod :
    (c : ℤ) (n p : ℕ) (ts : List String) (k : Kept) (out : Bool)
    → leb n p ≡ out
    → IsBounded c n k.assignments
    → IsBounded c n (keep_pod out c p ts k).assignments
IsBounded-keep_pod c n p ts k true e b = b
IsBounded-keep_pod c n p ts k false e b =
    IsBounded-keep_targets c n p (sort_by (by_hash p) ts) k (ground arith) b

IsBounded-keep_current :
    (c : ℤ) (n : ℕ) (current : Assignment) (k : Kept)
    → IsBounded c n k.assignments
    → IsBounded c n (keep_current c n current k).assignments
unfolding keep_current
IsBounded-keep_current c n [] k b = b
IsBounded-keep_current c n ((p, ts) ∷ rest) k b =
    IsBounded-keep_current c n rest _ (IsBounded-keep_pod c n p ts k _ refl b)

-- Every score of the list is for a pod below `n`.
abbrev pub AllBelow : ℕ → List PodScore → Type 0
AllBelow n = All (λ s. s.index < n)

AllBelow-pod_scores : (t : String) (i k n : ℕ) → i + k ≤ n → AllBelow n (pod_scores t i k)
unfolding pod_scores
AllBelow-pod_scores t i zero n h = tt
AllBelow-pod_scores t i (suc k) n h = (omega arith, AllBelow-pod_scores t (suc i) k n (omega arith))

pub AllBelow-sorted : (t : String) (n : ℕ) → AllBelow n (sort_by score_before (pod_scores t 0 n))
AllBelow-sorted t n =
    All-sort_by (λ s. s.index < n) score_before (pod_scores t 0 n)
      (AllBelow-pod_scores t 0 n n (omega arith))

first_with_capacity-IsFree :
    (c : ℤ) (n : ℕ) (a : Assignment) (ss : List PodScore) (p : ℕ)
    → AllBelow n ss
    → first_with_capacity c a ss ≡ some p
    → (p < n) × (length (at_pod p a) < rounds c)
unfolding first_with_capacity
first_with_capacity-IsFree c n a [] p b h = absurd (ground arith)
first_with_capacity-IsFree c n a (s ∷ ss) p b h =
    elim (Bool-cases (geb_ℤ (length (at_pod s.index a)) c)) [
      | inl full ↦ first_with_capacity-IsFree c n a ss p b.1 (ground arith)
      | inr room ↦
          let same : s.index ≡ p = ground arith in
          (
            omega (arith, b.0, same),
            subst (λ q. length (at_pod q a) < rounds c) same (geb_rounds _ c room),
          )
    ]

IsBounded-assign_to :
    (c : ℤ) (n : ℕ) (t : String) (a : Assignment) (o : Option ℕ)
    → bounded_rendezvous_hash t n c a ≡ o
    → IsBounded c n a
    → IsBounded c n (assign_to o t a)
unfolding bounded_rendezvous_hash
IsBounded-assign_to c n t a none e b = b
IsBounded-assign_to c n t a (some p) e b =
    let free = first_with_capacity-IsFree c n a _ p (AllBelow-sorted t n) e in
    IsBounded-append_to c n p t a free.0 free.1 b

IsBounded-assign_one :
    (c : ℤ) (n : ℕ) (t : String) (a : Assignment) (kept : Bool)
    → IsBounded c n a
    → IsBounded c n (assign_one kept c n t a)
IsBounded-assign_one c n t a true b = b
IsBounded-assign_one c n t a false b = IsBounded-assign_to c n t a _ refl b

IsBounded-assign_targets :
    (c : ℤ) (n : ℕ) (pre ts : List String) (a : Assignment)
    → IsBounded c n a
    → IsBounded c n (assign_targets c n pre ts a)
unfolding assign_targets
IsBounded-assign_targets c n pre [] a b = b
IsBounded-assign_targets c n pre (t ∷ ts) a b =
    IsBounded-assign_targets c n pre ts _ (IsBounded-assign_one c n t a (contains pre t) b)

IsBounded-nil : (c : ℤ) (n : ℕ) → IsBounded c n []
unfolding at_pod lookup
IsBounded-nil c n p = omega arith

pub assign_all-IsBounded :
    (c : ℤ) (n : ℕ) (current : Assignment) (names : List String)
    → IsBounded c n (assign_all c n current names)
unfolding assign_all kept_current
assign_all-IsBounded c n current names =
    IsBounded-assign_targets c n (kept_current c n current).pre_assigned (sort_by str_ltb names) _ (
      IsBounded-keep_current c n current (record { assignments = []; pre_assigned = [] })
        (IsBounded-nil c n))

-- No pod is given more targets than the capacity of a pod, which is the rounded-up average when the
-- option is 0, and a pod that does not exist is given none.
pub bounded_load_rendezvous_hash-IsBounded :
    {T : Type 0} (targets : Dict String T) (options : PlacementStrategyOpts)
    → IsBounded
        (effective_capacity options.capacity (length targets) (to_count options.num_pods))
        (to_count options.num_pods)
        (bounded_load_rendezvous_hash targets options)
unfolding bounded_load_rendezvous_hash
bounded_load_rendezvous_hash-IsBounded targets options = by_case (nat_beq (length targets) 0)
  where
    by_case :
        (x : Bool)
        → IsBounded
            (effective_capacity options.capacity (length targets) (to_count options.num_pods))
            (to_count options.num_pods)
            (if x
              then []
              else assign_all
                  (effective_capacity options.capacity (length targets) (to_count options.num_pods))
                  (to_count options.num_pods)
                  options.current_assignment
                  (keys targets))
    by_case true =
        IsBounded-nil
          (effective_capacity options.capacity (length targets) (to_count options.num_pods))
          (to_count options.num_pods)
    by_case false =
        assign_all-IsBounded
          (effective_capacity options.capacity (length targets) (to_count options.num_pods))
          (to_count options.num_pods) options.current_assignment (keys targets)
