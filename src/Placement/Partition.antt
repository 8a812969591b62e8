-- ===== src/Placement/Partition.antt =====
-- DistributeTargets of internal/gnmic/distribute.go: each target of the plan stands in one place.
use text.Mathlib.TextEquality.{eq_iff}
use gnmic_operator.Prelude.{
  ℕ, ◌+◌, ◌≤◌, ℤ, pos, String, Bool, true, false, Option, none, some, List, [], ◌∷◌, ◌++◌, ◌≡◌,
  refl, ap, ◌∙◌, nat_eq, string_eq, if◌then◌else◌, contains, count, count-append, distinct,
  contains-count, length, arith, nonpos_ℤ, nat_beq, nat_beq_iff, inl, inr, Bool-cases,
  count_of_distinct,
}
use gnmic_operator.Prelude.Dict.{
  Dict, keys, lookup, insert, lookup-insert, contains-keys, distinct-keys-insert,
}
use gnmic_operator.Prelude.Sort.{sort_by, count-sort_by}
use gnmic_operator.Prelude.Text.{str_ltb}
use gnmic_operator.Placement.Blrh.{
  Assignment, PlacementStrategyOpts, Kept, touch, bounded_rendezvous_hash, keep_one, keep_targets,
  by_hash, keep_pod, keep_current, assign_to, assign_one, assign_targets, kept_current, assign_all,
  effective_capacity, to_count, normalize_options, bounded_load_rendezvous_hash,
  blrh_distribute_targets,
}
use gnmic_operator.Placement.Load.{flat}
use gnmic_operator.Placement.Once.{count-placed}
use gnmic_operator.Placement.Distribute.{
  ApplyPlan, or_nil_config, current_of, placement_options, pick_targets, pod_plan, pod_plans,
  assigned_names, not_assigned, distribute_targets,
}

-- The pods of an assignment are distinct.
abbrev HasKeys : Assignment → Type 0
HasKeys a = distinct (keys a) ≡ true

HasKeys-keep_one :
    (full : Bool) (p : ℕ) (t : String) (k : Kept)
    → HasKeys k.assignments
    → HasKeys (keep_one full p t k).assignments
HasKeys-keep_one true p t k h = distinct-keys-insert p _ k.assignments h
HasKeys-keep_one false p t k h =
    distinct-keys-insert p _ (touch p k.assignments) (distinct-keys-insert p _ k.assignments h)

HasKeys-keep_targets :
    (c : ℤ) (p : ℕ) (ts : List String) (k : Kept)
    → HasKeys k.assignments
    → HasKeys (keep_targets c p ts k).assignments
unfolding keep_targets
HasKeys-keep_targets c p [] k h = h
HasKeys-keep_targets c p (t ∷ ts) k h = HasKeys-keep_targets c p ts _ (HasKeys-keep_one _ p t k h)

HasKeys-keep_pod :
    (out : Bool) (c : ℤ) (p : ℕ) (ts : List String) (k : Kept)
    → HasKeys k.assignments
    → HasKeys (keep_pod out c p ts k).assignments
HasKeys-keep_pod true c p ts k h = h
HasKeys-keep_pod false c p ts k h = HasKeys-keep_targets c p (sort_by (by_hash p) ts) k h

HasKeys-keep_current :
    (c : ℤ) (n : ℕ) (current : Assignment) (k : Kept)
    → HasKeys k.assignments
    → HasKeys (keep_current c n current k).assignments
unfolding keep_current
HasKeys-keep_current c n [] k h = h
HasKeys-keep_current c n ((p, ts) ∷ rest) k h =
    HasKeys-keep_current c n rest _ (HasKeys-keep_pod _ c p ts k h)

HasKeys-assign_to :
    (o : Option ℕ) (t : String) (a : Assignment) → HasKeys a → HasKeys (assign_to o t a)
HasKeys-assign_to none t a h = h
HasKeys-assign_to (some p) t a h = distinct-keys-insert p _ a h

HasKeys-assign_one :
    (kept : Bool) (c : ℤ) (n : ℕ) (t : String) (a : Assignment)
    → HasKeys a
    → HasKeys (assign_one kept c n t a)
HasKeys-assign_one true c n t a h = h
HasKeys-assign_one false c n t a h = HasKeys-assign_to (bounded_rendezvous_hash t n c a) t a h

HasKeys-assign_targets :
    (c : ℤ) (n : ℕ) (pre ts : List String) (a : Assignment)
    → HasKeys a
    → HasKeys (assign_targets c n pre ts a)
unfolding assign_targets
HasKeys-assign_targets c n pre [] a h = h
HasKeys-assign_targets c n pre (t ∷ ts) a h =
    HasKeys-assign_targets c n pre ts _ (HasKeys-assign_one (contains pre t) c n t a h)

pub HasKeys-bounded_load_rendezvous_hash :
    {T : Type 0} (targets : Dict String T) (options : PlacementStrategyOpts)
    → HasKeys (bounded_load_rendezvous_hash targets options)
unfolding bounded_load_rendezvous_hash assign_all kept_current
HasKeys-bounded_load_rendezvous_hash targets options =
    elim (Bool-cases (nat_beq (length targets) 0)) [
      | inl empty ↦ rw empty refl
      | inr some_target ↦ rw some_target (
          HasKeys-assign_targets c n k.pre_assigned (sort_by str_ltb (keys targets)) k.assignments
            (HasKeys-keep_current c n options.current_assignment start refl))
    ]
  where
    n : ℕ
    n = to_count options.num_pods

    c : ℤ
    c = effective_capacity options.capacity (length targets) n

    start : Kept
    start = record { assignments = []; pre_assigned = [] }

    k : Kept
    k = keep_current c n options.current_assignment start

assigned_names-flat : (a : Assignment) → assigned_names a ≡ flat a
assigned_names-flat [] = refl
assigned_names-flat ((p, ts) ∷ a) = ap (λ l. ts ++ l) (assigned_names-flat a)

count-not_assigned :
    (assigned ts : List String) (x : String)
    → count x (not_assigned assigned ts) ≡ (if contains assigned x then 0 else count x ts)
unfolding not_assigned
count-not_assigned assigned [] x = ground arith
count-not_assigned assigned (t ∷ ts) x =
    ground (arith, count-not_assigned assigned ts x, eq_iff t x)

module _ {T S B : Type 0} (plan : ApplyPlan T S B) (x : String) where
  lookup-pick_targets :
      (ts : List String) (acc : Dict String (Option T))
      → lookup x (pick_targets plan ts acc)
        ≡ (if contains ts x then some (or_nil_config (lookup x plan.targets)) else lookup x acc)
  unfolding pick_targets
  lookup-pick_targets [] acc = refl
  lookup-pick_targets (t ∷ ts) acc = ground (
    arith,
    lookup-pick_targets ts (insert t (or_nil_config (lookup t plan.targets)) acc),
    lookup-insert t x (or_nil_config (lookup t plan.targets)) acc,
    eq_iff t x,
  )

  distinct-pick_targets :
      (ts : List String) (acc : Dict String (Option T))
      → distinct (keys acc) ≡ true
      → distinct (keys (pick_targets plan ts acc)) ≡ true
  unfolding pick_targets
  distinct-pick_targets [] acc h = h
  distinct-pick_targets (t ∷ ts) acc h = distinct-pick_targets ts _ (distinct-keys-insert t _ acc h)

  count-pick_targets :
      (ts : List String)
      → count x (keys (pick_targets plan ts [])) ≡ (if contains ts x then 1 else 0)
  unfolding lookup
  count-pick_targets ts = ground (
    arith,
    count_of_distinct x (keys (pick_targets plan ts [])) (distinct-pick_targets ts [] refl),
    contains-count x (keys (pick_targets plan ts [])),
    contains-keys x (pick_targets plan ts []),
    lookup-pick_targets ts [],
  )

-- The targets of all pods' plans.
abbrev pub names_of : {T S B : Type 0} → Dict ℕ (ApplyPlan T S B) → List String
names_of [] = []
names_of ((p, plan) ∷ rest) = keys plan.targets ++ names_of rest

module _ {T S B : Type 0} (plan : ApplyPlan T S B) (x : String) where
  count-names_of-insert :
      (p : ℕ) (v : ApplyPlan T S B) (r : Dict ℕ (ApplyPlan T S B))
      → lookup p r ≡ none
      → count x (names_of (insert p v r)) ≡ count x (names_of r) + count x (keys v.targets)
  unfolding insert lookup
  count-names_of-insert p v [] h = omega (arith, count-append x (keys v.targets) [])
  count-names_of-insert p v ((q, w) ∷ r) h = elim (Bool-cases (nat_beq q p)) [
    | inl same ↦ absurd (ground arith)
    | inr other ↦ rw other (
        omega (
          arith,
          count-append x (keys w.targets) (names_of (insert p v r)),
          count-append x (keys w.targets) (names_of r),
          count-names_of-insert p v r (ground arith),
        ))
  ]

  -- A target that stands on one pod at most stands in as many plans.
  count-pod_plans :
      (a : Assignment) (r : Dict ℕ (ApplyPlan T S B))
      → HasKeys a
      → ((p : ℕ) → contains (keys a) p ≡ true → lookup p r ≡ none)
      → count x (flat a) ≤ 1
      → count x (names_of (pod_plans plan a r)) ≡ count x (names_of r) + count x (flat a)
  unfolding pod_plans pod_plan
  count-pod_plans [] r d fresh once = omega arith
  count-pod_plans ((p, ts) ∷ a) r d fresh once = ground (
    arith,
    count-pod_plans a (insert p (pod_plan plan ts) r) (ground arith) later
        (omega (arith, count-append x ts (flat a))),
    count-names_of-insert p (pod_plan plan ts) r (fresh p (ground (arith, nat_beq_iff p p))),
    count-pick_targets plan x ts,
    contains-count x ts,
    count-append x ts (flat a),
  )
    where
      later : (q : ℕ) → contains (keys a) q ≡ true → lookup q (insert p (pod_plan plan ts) r) ≡ none
      later q h = ground (arith, lookup-insert p q (pod_plan plan ts) r, nat_beq_iff p q, fresh q)

normalize-current :
    (o : PlacementStrategyOpts)
    → (normalize_options (some o)).current_assignment ≡ o.current_assignment
unfolding normalize_options
normalize-current o = by_case (nonpos_ℤ o.num_pods)
  where
    by_case :
        (b : Bool)
        → (if b then record o { num_pods = pos 1 } else o).current_assignment ≡ o.current_assignment
    by_case true = refl
    by_case false = refl

partition_of :
    {T S B : Type 0} (plan : ApplyPlan T S B) (o : PlacementStrategyOpts) (x : String)
    → distinct (keys plan.targets) ≡ true
    → distinct (flat o.current_assignment) ≡ true
    → contains (keys plan.targets) x ≡ true
    → count x (names_of (pod_plans plan (bounded_load_rendezvous_hash plan.targets o) []))
        + count x (
            sort_by str_ltb (
              not_assigned
                (assigned_names (bounded_load_rendezvous_hash plan.targets o))
                (keys plan.targets)))
      ≡ 1
unfolding lookup
partition_of plan o x d once m =
    let a = bounded_load_rendezvous_hash plan.targets o in
    let in_plan = count_of_distinct x (keys plan.targets) d in
    let on_pods =
      (count-placed plan.targets o x (count_of_distinct x (flat o.current_assignment) once)
        in_plan).0 in
    ground (
      arith,
      in_plan,
      on_pods,
      count-pod_plans plan x a [] (HasKeys-bounded_load_rendezvous_hash plan.targets o)
          (λ p h. refl) on_pods,
      count-sort_by str_ltb x (not_assigned (assigned_names a) (keys plan.targets)),
      count-not_assigned (assigned_names a) (keys plan.targets) x,
      ap (λ l. contains l x) (assigned_names-flat a),
      contains-count x (flat a),
      contains-count x (keys plan.targets),
    )

-- When no target stands on two pods in the current assignment, each target of the plan stands in
-- exactly one place after the distribution: once in the plan of one pod, or once among the
-- unassigned targets. The names of the plan's targets are distinct.
pub distribute_targets-IsPartition :
    {T S B : Type 0} (plan : ApplyPlan T S B) (num_pods : ℤ) (distribution : Option ℤ) (x : String)
    → distinct (keys plan.targets) ≡ true
    → distinct (flat (current_of plan.current_target_assignment)) ≡ true
    → contains (keys plan.targets) x ≡ true
    → count x (names_of (distribute_targets plan num_pods distribution).per_pod_plans)
        + count x (distribute_targets plan num_pods distribution).unassigned_targets
      ≡ 1
unfolding distribute_targets blrh_distribute_targets
distribute_targets-IsPartition plan num_pods distribution x d once m =
    let o = placement_options plan num_pods distribution in
    partition_of plan (normalize_options (some o)) x d
      (ap (λ c. distinct (flat c)) (normalize-current o) ∙ once) m
