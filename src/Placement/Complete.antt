-- ===== src/Placement/Complete.antt =====
-- Which targets boundedLoadRendezvousHash of internal/gnmic/placement_blrh.go leaves without a pod.
use gnmic_operator.Prelude.{
  ℕ, zero, suc, ◌+◌, ◌*◌, ◌-◌, ◌≤◌, ◌<◌, ℤ, pos, negsuc, rounds, geb_ℤ, String, Bool, true, false,
  Option, none, some, List, [], ◌∷◌, ◌≡◌, refl, subst, nat_eq, string_eq, ◌==◌, if◌then◌else◌,
  length, length-append, arith, nat_beq_iff, inl, inr, Bool-cases, contains, count, contains-count,
  distinct, distinct-le, ==_refl, nat_beq, ◌⊎◌, ap, ◌∙◌, ltb,
}
use native.Mathlib.Nat.{div-add-mod', mod-lt}
use text.Mathlib.TextEquality.{eq_iff}
use gnmic_operator.Prelude.Dict.{Dict, keys, length-keys}
use gnmic_operator.Prelude.Sort.{sort_by, All, All-of_sort_by, contains-sort_by}
use gnmic_operator.Prelude.Text.{str_ltb}
use gnmic_operator.Placement.Blrh.{
  Assignment, PodScore, PlacementStrategyOpts, Kept, at_pod, pod_scores, score_before,
  first_with_capacity, bounded_rendezvous_hash, append_to, assign_to, assign_one, assign_targets,
  kept_current, keep_current, assign_all, effective_capacity, to_count,
  bounded_load_rendezvous_hash,
}
use gnmic_operator.Placement.Load.{
  flat, at_pod-append_to, loads-le-flat, loads_full, count-append_to,
}
use gnmic_operator.Placement.Once.{
  Grows-keep_current, Places-assign_targets, placed, bounded_load_rendezvous_hash-IsOnce,
}

-- Every pod below `n` has at least `c` targets.
abbrev pub IsFull : ℤ → ℕ → Assignment → Type 0
IsFull c n a = (p : ℕ) → (if ltb p n then rounds c else 0) ≤ length (at_pod p a)

geb_full : (k : ℕ) (c : ℤ) → geb_ℤ k c ≡ true → rounds c ≤ k
geb_full k (pos c) h = ground arith
geb_full k (negsuc c) h = omega arith

-- No pod of a list of scores has room.
abbrev AllFull : ℤ → Assignment → List PodScore → Type 0
AllFull c a = All (λ s. geb_ℤ (length (at_pod s.index a)) c ≡ true)

first_with_capacity-AllFull :
    (c : ℤ) (a : Assignment) (ss : List PodScore)
    → first_with_capacity c a ss ≡ none
    → AllFull c a ss
unfolding first_with_capacity
first_with_capacity-AllFull c a [] h = tt
first_with_capacity-AllFull c a (s ∷ ss) h =
    (ground arith, first_with_capacity-AllFull c a ss (ground arith))

AllFull-pod_scores :
    (c : ℤ) (a : Assignment) (t : String) (i k p : ℕ)
    → AllFull c a (pod_scores t i k)
    → i ≤ p
    → p < i + k
    → rounds c ≤ length (at_pod p a)
unfolding pod_scores
AllFull-pod_scores c a t i zero p f l r = absurd (omega arith)
AllFull-pod_scores c a t i (suc k) p f l r = elim (Bool-cases (nat_beq i p)) [
  | inl here ↦
      let same : i ≡ p = ground arith in
      subst (λ q. rounds c ≤ length (at_pod q a)) same (geb_full _ c f.0)
  | inr later ↦ AllFull-pod_scores c a t (suc i) k p f.1 (ground arith) (omega arith)
]

bounded_rendezvous_hash-none :
    (c : ℤ) (n : ℕ) (t : String) (a : Assignment)
    → bounded_rendezvous_hash t n c a ≡ none
    → IsFull c n a
unfolding bounded_rendezvous_hash
bounded_rendezvous_hash-none c n t a h p = elim (Bool-cases (ltb p n)) [
  | inl below ↦ rw below (
      AllFull-pod_scores c a t 0 n p
        (All-of_sort_by (λ s. geb_ℤ (length (at_pod s.index a)) c ≡ true) score_before
          (pod_scores t 0 n)
          (first_with_capacity-AllFull c a (sort_by score_before (pod_scores t 0 n)) h))
        (omega arith) (ground arith))
  | inr above ↦ rw above (omega arith)
]

at_pod-assign_one-le :
    (c : ℤ) (n p : ℕ) (kept : Bool) (t : String) (a : Assignment)
    → length (at_pod p a) ≤ length (at_pod p (assign_one kept c n t a))
at_pod-assign_one-le c n p true t a = omega arith
at_pod-assign_one-le c n p false t a = placed_on (bounded_rendezvous_hash t n c a)
  where
    placed_on : (o : Option ℕ) → length (at_pod p a) ≤ length (at_pod p (assign_to o t a))
    placed_on none = omega arith
    placed_on (some q) =
        ground
          (arith, at_pod-append_to q p t a, nat_beq_iff q p, length-append (at_pod q a) (t ∷ []))

-- A pod loses nothing in the second loop.
pub at_pod-assign_targets-le :
    (c : ℤ) (n p : ℕ) (pre ts : List String) (a : Assignment)
    → length (at_pod p a) ≤ length (at_pod p (assign_targets c n pre ts a))
unfolding assign_targets
at_pod-assign_targets-le c n p pre [] a = omega arith
at_pod-assign_targets-le c n p pre (t ∷ ts) a = omega (
  arith,
  at_pod-assign_one-le c n p (contains pre t) t a,
  at_pod-assign_targets-le c n p pre ts (assign_one (contains pre t) c n t a),
)

-- A target that did not keep its pod is placed, or no pod has room.
placed_or_IsFull :
    (c : ℤ) (n : ℕ) (pre : List String) (t : String) (a : Assignment)
    → (contains (flat (assign_one false c n t a)) t ≡ true) ⊎ IsFull c n (assign_one false c n t a)
placed_or_IsFull c n pre t a = placed_on (bounded_rendezvous_hash t n c a) refl
  where
    placed_on :
        (o : Option ℕ)
        → bounded_rendezvous_hash t n c a ≡ o
        → (contains (flat (assign_to o t a)) t ≡ true) ⊎ IsFull c n (assign_to o t a)
    placed_on none e = inr (bounded_rendezvous_hash-none c n t a e)
    placed_on (some p) e = inl (
        ground
          (arith, count-append_to t t p a, contains-count t (flat (append_to p t a)), ==_refl t))

assign_targets-IsFull :
    (c : ℤ) (n : ℕ) (pre ts : List String) (x : String) (a : Assignment)
    → contains ts x ≡ true
    → contains pre x ≡ false
    → (contains (flat (assign_targets c n pre ts a)) x ≡ true)
      ⊎ IsFull c n (assign_targets c n pre ts a)
unfolding assign_targets
assign_targets-IsFull c n pre [] x a m f = absurd (ground arith)
assign_targets-IsFull c n pre (t ∷ ts) x a m f = elim (Bool-cases (t == x)) [
  | inl same ↦
      let is : t ≡ x = ground (arith, eq_iff t x) in
      let new : contains pre t ≡ false = ap (contains pre) is ∙ f in
      first (contains pre t) new (
        subst
          (λ y.
            (contains (flat (assign_one false c n t a)) y ≡ true)
            ⊎ IsFull c n (assign_one false c n t a))
          is (placed_or_IsFull c n pre t a))
  | inr other ↦
      assign_targets-IsFull c n pre ts x (assign_one (contains pre t) c n t a) (ground arith) f
]
  where
    first :
        (b : Bool)
        → b ≡ false
        → (contains (flat (assign_one false c n t a)) x ≡ true)
          ⊎ IsFull c n (assign_one false c n t a)
        → (contains (flat (assign_targets c n pre ts (assign_one b c n t a))) x ≡ true)
          ⊎ IsFull c n (assign_targets c n pre ts (assign_one b c n t a))
    first true e h = absurd (ground arith)
    first false e (inl h) = inl (
        ground (
          arith,
          (Places-assign_targets x c n pre ts (assign_one false c n t a)).0,
          contains-count x (flat (assign_one false c n t a)),
          contains-count x (flat (assign_targets c n pre ts (assign_one false c n t a))),
        ))
    first false e (inr h) =
        inr (λ p.
          omega (arith, h p, at_pod-assign_targets-le c n p pre ts (assign_one false c n t a)))

assign_all-IsFull :
    (c : ℤ) (n : ℕ) (current : Assignment) (names : List String) (x : String)
    → contains names x ≡ true
    → (contains (flat (assign_all c n current names)) x ≡ true)
      ⊎ IsFull c n (assign_all c n current names)
unfolding assign_all kept_current
assign_all-IsFull c n current names x m = elim (Bool-cases (contains k.pre_assigned x)) [
  | inl kept ↦ inl (
      ground (
        arith,
        (Grows-keep_current x c n current start).0,
        (Places-assign_targets x c n k.pre_assigned (sort_by str_ltb names) k.assignments).0,
        contains-count x k.pre_assigned,
        contains-count x
            (flat (assign_targets c n k.pre_assigned (sort_by str_ltb names) k.assignments)),
      ))
  | inr new ↦
      assign_targets-IsFull c n k.pre_assigned (sort_by str_ltb names) x k.assignments
        (contains-sort_by str_ltb names x ∙ m) new
]
  where
    start : Kept
    start = record { assignments = []; pre_assigned = [] }

    k : Kept
    k = keep_current c n current start

keys_nil :
    {T : Type 0} (d : Dict String T) (x : String)
    → contains (keys d) x ≡ true
    → nat_beq (length d) 0 ≡ false
keys_nil [] x h = absurd (ground arith)
keys_nil (e ∷ d) x h = ground arith

-- A target of the plan is placed, or every pod holds as many targets as its capacity.
pub bounded_load_rendezvous_hash-IsFull :
    {T : Type 0} (targets : Dict String T) (options : PlacementStrategyOpts) (x : String)
    → contains (keys targets) x ≡ true
    → (contains (placed targets options) x ≡ true)
      ⊎ IsFull
          (effective_capacity options.capacity (length targets) (to_count options.num_pods))
          (to_count options.num_pods)
          (bounded_load_rendezvous_hash targets options)
unfolding bounded_load_rendezvous_hash
bounded_load_rendezvous_hash-IsFull targets options x m = rw (keys_nil targets x m) (
    assign_all-IsFull
      (effective_capacity options.capacity (length targets) (to_count options.num_pods))
      (to_count options.num_pods) options.current_assignment (keys targets) x m)

-- A list without repetitions that misses an element of another is shorter.
distinct_missing :
    (xs ys : List String) (y : String)
    → distinct xs ≡ true
    → contains xs y ≡ false
    → contains ys y ≡ true
    → ((x : String) → contains xs x ≡ true → contains ys x ≡ true)
    → length xs < length ys
distinct_missing xs ys y d out inside h =
    omega (arith, distinct-le (y ∷ xs) ys (ground arith) (λ x m. ground (arith, h x, eq_iff y x)))

-- When the names of the plan are distinct, the current assignment places targets of the plan only,
-- none of them twice, and the pods together have room for all targets, every target of the plan is
-- placed.
pub bounded_load_rendezvous_hash-IsComplete :
    {T : Type 0} (targets : Dict String T) (options : PlacementStrategyOpts) (x : String)
    → distinct (keys targets) ≡ true
    → distinct (flat options.current_assignment) ≡ true
    → ((y : String)
        → contains (flat options.current_assignment) y ≡ true
        → contains (keys targets) y ≡ true)
    → length targets
      ≤ to_count options.num_pods
        * rounds (effective_capacity options.capacity (length targets) (to_count options.num_pods))
    → contains (keys targets) x ≡ true
    → contains (placed targets options) x ≡ true
bounded_load_rendezvous_hash-IsComplete targets options x d once known room m =
    elim (Bool-cases (contains (placed targets options) x)) [
      | inl there ↦ there
      | inr missing ↦ elim (bounded_load_rendezvous_hash-IsFull targets options x m) [
        | inl there ↦ there
        | inr full ↦ absurd (
            omega (
              arith,
              room,
              loads_full (to_count options.num_pods)
                  (rounds (
                    effective_capacity options.capacity (length targets)
                      (to_count options.num_pods)))
                  (bounded_load_rendezvous_hash targets options) (λ p l. ground (arith, full p)),
              loads-le-flat (to_count options.num_pods)
                  (bounded_load_rendezvous_hash targets options),
              length-keys targets,
              distinct_missing (placed targets options) (keys targets) x both.0 missing m (λ y h.
                  ground (
                    arith,
                    both.1 y,
                    known y,
                    contains-count y (placed targets options),
                    contains-count y (flat options.current_assignment),
                    contains-count y (keys targets),
                  )),
            ))
      ]
    ]
  where
    both :
        (distinct (placed targets options) ≡ true)
        × ((y : String)
            → count y (placed targets options)
              ≤ count y (flat options.current_assignment) + count y (keys targets))
    both = bounded_load_rendezvous_hash-IsOnce targets options d once

-- The capacity that is computed when none is given has room for all targets.
pub effective_capacity_enough : (t n : ℕ) → 0 < n → t ≤ n * rounds (effective_capacity (pos 0) t n)
unfolding effective_capacity
effective_capacity_enough t n h = omega (arith, div-add-mod' (t + n - 1) n, mod-lt (t + n - 1) h)
