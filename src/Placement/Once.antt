-- ===== src/Placement/Once.antt =====
-- How often boundedLoadRendezvousHash of internal/gnmic/placement_blrh.go places a target.
use gnmic_operator.Prelude.{
  ℕ, ◌+◌, ◌≤◌, ℤ, geb_ℤ, String, Bool, true, false, Option, none, some, List, [], ◌∷◌, ◌≡◌, refl,
  nat_eq, string_eq, if◌then◌else◌, length, arith, leb, contains, count, distinct, contains-count,
  distinct_of_count, count_of_distinct, count-append, nat_beq, ◌==◌,
}
use text.Mathlib.TextEquality.{eq_iff}
use gnmic_operator.Prelude.Dict.{Dict, keys}
use gnmic_operator.Prelude.Sort.{sort_by, count-sort_by}
use gnmic_operator.Prelude.Text.{str_ltb}
use gnmic_operator.Placement.Blrh.{
  Assignment, PlacementStrategyOpts, Kept, at_pod, bounded_rendezvous_hash, touch, keep_one,
  keep_targets, by_hash, keep_pod, keep_current, assign_to, assign_one, assign_targets,
  kept_current, assign_all, effective_capacity, to_count, bounded_load_rendezvous_hash,
}
use gnmic_operator.Placement.Load.{flat, count-append_to, count-touch}

module _ (x : String) where
  -- From `k` to `l`, every copy of `x` that a pod got is recorded, and there are at most `n` of them.
  abbrev pub Grows : ℕ → Kept → Kept → Type 0
  Grows n k l =
      (count x l.pre_assigned + count x (flat k.assignments)
        ≡ count x k.pre_assigned + count x (flat l.assignments))
      × (count x (flat l.assignments) ≤ count x (flat k.assignments) + n)

  Grows-keep_one :
      (p : ℕ) (t : String) (k : Kept) (full : Bool)
      → Grows (if t == x then 1 else 0) k (keep_one full p t k)
  Grows-keep_one p t k true =
      (omega (arith, count-touch x p k.assignments), omega (arith, count-touch x p k.assignments))
  Grows-keep_one p t k false = (
    omega (arith, count-append_to x t p (touch p k.assignments), count-touch x p k.assignments),
    omega (arith, count-append_to x t p (touch p k.assignments), count-touch x p k.assignments),
  )

  Grows-keep_targets :
      (c : ℤ) (p : ℕ) (ts : List String) (k : Kept) → Grows (count x ts) k (keep_targets c p ts k)
  unfolding keep_targets
  Grows-keep_targets c p [] k = (omega arith, omega arith)
  Grows-keep_targets c p (t ∷ ts) k =
      let full = geb_ℤ (length (at_pod p (touch p k.assignments))) c in
      let one = Grows-keep_one p t k full in
      let rest = Grows-keep_targets c p ts (keep_one full p t k) in
      (omega (arith, one.0, rest.0), omega (arith, one.1, rest.1))

  Grows-keep_pod :
      (out : Bool) (c : ℤ) (p : ℕ) (ts : List String) (k : Kept)
      → Grows (count x ts) k (keep_pod out c p ts k)
  Grows-keep_pod true c p ts k = (omega arith, omega arith)
  Grows-keep_pod false c p ts k =
      let kept = Grows-keep_targets c p (sort_by (by_hash p) ts) k in
      (kept.0, omega (arith, kept.1, count-sort_by (by_hash p) x ts))

  pub Grows-keep_current :
      (c : ℤ) (n : ℕ) (current : Assignment) (k : Kept)
      → Grows (count x (flat current)) k (keep_current c n current k)
  unfolding keep_current
  Grows-keep_current c n [] k = (omega arith, omega arith)
  Grows-keep_current c n ((p, ts) ∷ rest) k =
      let one = Grows-keep_pod (leb n p) c p ts k in
      let later = Grows-keep_current c n rest (keep_pod (leb n p) c p ts k) in
      (omega (arith, one.0, later.0), omega (arith, one.1, later.1, count-append x ts (flat rest)))

  -- A copy of `t` at most is placed.
  abbrev pub Places : ℕ → Assignment → Assignment → Type 0
  Places n a b = (count x (flat a) ≤ count x (flat b)) × (count x (flat b) ≤ count x (flat a) + n)

  pub Places-assign_to :
      (o : Option ℕ) (t : String) (a : Assignment)
      → Places (if t == x then 1 else 0) a (assign_to o t a)
  Places-assign_to none t a = (omega arith, omega arith)
  Places-assign_to (some p) t a =
      (omega (arith, count-append_to x t p a), omega (arith, count-append_to x t p a))

  pub Places-assign_one :
      (pre : List String) (kept : Bool) (c : ℤ) (n : ℕ) (t : String) (a : Assignment)
      → contains pre t ≡ kept
      → Places (if contains pre x then 0 else if t == x then 1 else 0) a (assign_one kept c n t a)
  Places-assign_one pre true c n t a h = (omega arith, omega arith)
  Places-assign_one pre false c n t a h =
      let one = Places-assign_to (bounded_rendezvous_hash t n c a) t a in
      (one.0, ground (arith, one.1, eq_iff t x))

  pub Places-assign_targets :
      (c : ℤ) (n : ℕ) (pre ts : List String) (a : Assignment)
      → Places (if contains pre x then 0 else count x ts) a (assign_targets c n pre ts a)
  unfolding assign_targets
  Places-assign_targets c n pre [] a = (omega arith, omega arith)
  Places-assign_targets c n pre (t ∷ ts) a =
      let one = Places-assign_one pre (contains pre t) c n t a refl in
      let rest = Places-assign_targets c n pre ts (assign_one (contains pre t) c n t a) in
      (omega (arith, one.0, rest.0), ground (arith, one.1, rest.1))

  -- Over both loops: a target stands in as many pods as it did, and a target that stood in none
  -- stands in one at most for each time that it is named.
  pub count-assign_all :
      (c : ℤ) (n : ℕ) (current : Assignment) (names : List String)
      → count x (flat current) ≤ 1
      → count x names ≤ 1
      → (count x (flat (assign_all c n current names)) ≤ 1)
        × (count x (flat (assign_all c n current names)) ≤ count x (flat current) + count x names)
  unfolding assign_all kept_current
  count-assign_all c n current names h1 h2 =
      let start : Kept = record { assignments = []; pre_assigned = [] } in
      let k = keep_current c n current start in
      let kept = Grows-keep_current c n current start in
      let placed = Places-assign_targets c n k.pre_assigned (sort_by str_ltb names) k.assignments in
      let names_count = count-sort_by str_ltb x names in
      (
        ground (arith, kept, placed, names_count, contains-count x k.pre_assigned, h1, h2),
        ground (arith, kept, placed, names_count, contains-count x k.pre_assigned, h1, h2),
      )

-- The targets that are placed on some pod.
abbrev pub placed : {T : Type 0} → Dict String T → PlacementStrategyOpts → List String
placed targets options = flat (bounded_load_rendezvous_hash targets options)

pub count-placed :
    {T : Type 0} (targets : Dict String T) (options : PlacementStrategyOpts) (x : String)
    → count x (flat options.current_assignment) ≤ 1
    → count x (keys targets) ≤ 1
    → (count x (placed targets options) ≤ 1)
      × (count x (placed targets options)
          ≤ count x (flat options.current_assignment) + count x (keys targets))
unfolding bounded_load_rendezvous_hash
count-placed targets options x h1 h2 = by_case (nat_beq (length targets) 0)
  where
    n : ℕ
    n = to_count options.num_pods

    c : ℤ
    c = effective_capacity options.capacity (length targets) (to_count options.num_pods)

    by_case :
        (b : Bool)
        → (count x
              (flat (if b then [] else assign_all c n options.current_assignment (keys targets)))
            ≤ 1)
          × (count x
                (flat (if b then [] else assign_all c n options.current_assignment (keys targets)))
              ≤ count x (flat options.current_assignment) + count x (keys targets))
    by_case true = (omega arith, omega arith)
    by_case false = count-assign_all x c n options.current_assignment (keys targets) h1 h2

-- When no target stands on two pods in the current assignment, none does in the new one, and a
-- target of the new assignment is a target of the plan or of the current assignment: it is placed
-- no more often than it stands in the two together. The names of the plan's targets are distinct.
pub bounded_load_rendezvous_hash-IsOnce :
    {T : Type 0} (targets : Dict String T) (options : PlacementStrategyOpts)
    → distinct (keys targets) ≡ true
    → distinct (flat options.current_assignment) ≡ true
    → (distinct (placed targets options) ≡ true)
      × ((x : String)
          → count x (placed targets options)
            ≤ count x (flat options.current_assignment) + count x (keys targets))
bounded_load_rendezvous_hash-IsOnce targets options h1 h2 =
    let both = λ (x : String).
      count-placed targets options x (count_of_distinct x (flat options.current_assignment) h2)
        (count_of_distinct x (keys targets) h1) in
    (distinct_of_count (placed targets options) (λ x. (both x).0), λ x. (both x).1)
