-- ===== src/Plan/Assigned.antt =====
-- What assignPorts of internal/gnmic/plan.go gives for the pool of Prometheus ports.
use text.Mathlib.TextEquality.{eq_iff}
use gnmic_operator.Prelude.{
  ℕ, zero, suc, ◌+◌, ◌≤◌, ◌<◌, ℤ, pos, negsuc, int_eq, String, true, false, ◌&&◌, ◌||◌, Option,
  none, List, [], ◌∷◌, ◌≡◌, refl, ap, ◌∙◌, subst, nat_eq, string_eq, ◌==◌, contains, distinct,
  distinct-le, distinct-cons, distinct-tail, length, arith, inl, inr, Bool-cases, Option-cases,
  eqb_ℤ_iff, ==_refl,
}
use gnmic_operator.Prelude.Dict.{Dict, keys, lookup, insert, contains-keys-insert, contains-keys}
use gnmic_operator.Prelude.Sort.{All, sort_by, length-sort_by, distinct-sort_by, contains-sort_by}
use gnmic_operator.Prelude.Text.{str_ltb}
use gnmic_operator.Plan.Ports.{
  assigned, no_free_ports, start_of, step_of, probe, port_at, take_slot, assign_names, assign_ports,
}
use gnmic_operator.Plan.Probe.{IsSlot, probe_found, probe-some}
use gnmic_operator.Plan.PortMap.{ports, InPool, IsPortMap, step_bounds, IsPartial, IsPartial-insert}

module _ (names : List String) (m : Dict String ℤ) where
  -- The names that are left have no port yet.
  abbrev AllNew : Type 0
  AllNew = (x : String) → (contains (keys m) x && contains names x) ≡ false

lookup-new :
    (name : String) (names : List String) (m : Dict String ℤ)
    → AllNew (name ∷ names) m
    → lookup name m ≡ none
lookup-new name names m h = elim (Option-cases (lookup name m)) [
  | inl absent ↦ absent
  | inr (p, there) ↦ absurd (ground (arith, h name, contains-keys name m, ==_refl name))
]

AllNew-insert :
    (name : String) (p : ℤ) (names : List String) (m : Dict String ℤ)
    → distinct (name ∷ names) ≡ true
    → AllNew (name ∷ names) m
    → AllNew names (insert name p m)
AllNew-insert name p names m d h x =
    ground (arith, h x, contains-keys-insert name x p m, eq_iff name x)

keys-insert-names :
    (name : String) (p : ℤ) (names : List String) (m : Dict String ℤ) (x : String)
    → (contains (keys (insert name p m)) x || contains names x)
      ≡ (contains (keys m) x || contains (name ∷ names) x)
keys-insert-names name p names m x = ground (arith, contains-keys-insert name x p m)

-- What the loop over the names ends with.
record IsAssigned (names : List String) (before m : Dict String ℤ) : Type 0 where
  map_total : (x : String) → contains (keys m) x ≡ (contains (keys before) x || contains names x)
  map_apart : distinct (ports m) ≡ true
  map_in_pool : All InPool (ports m)

assign_names-IsAssigned :
    (names : List String) (used : List ℤ) (m : Dict String ℤ)
    → distinct names ≡ true
    → AllNew names m
    → IsPartial used m
    → length used + length names ≤ 1009
    → (r : Dict String ℤ) × (assign_names 9804 1009 names used m ≡ assigned r)
      × IsAssigned names m r
unfolding assign_names
assign_names-IsAssigned [] used m d new i h = (
  m,
  refl,
  record {
    map_total = λ x. ground arith;
    map_apart = i.ports_apart;
    map_in_pool = i.ports_in_pool;
  },
)
assign_names-IsAssigned (name ∷ names) used m d new i h = elim (Option-cases slot) [
  | inl full ↦ absurd (omega (arith, probe_found used start step b.0 b.1 b.2 full))
  | inr (s, e) ↦
      let free = probe-some used start step 0 1009 s b.0 b.2 (omega arith) e in
      let j = IsPartial-insert name s used m i free.0 free.1 (lookup-new name names m new) in
      let (r, got, is) =
        assign_names-IsAssigned names (s ∷ used) (insert name (port_at 9804 s) m)
          (distinct-tail name names d) (AllNew-insert name (port_at 9804 s) names m d new) j
          (omega arith) in
      (
        r,
        ap (λ o. take_slot 9804 o name (assign_names 9804 1009 names) used m) e ∙ got,
        record {
          map_total = λ x. is.map_total x ∙ keys-insert-names name (port_at 9804 s) names m x;
          map_apart = is.map_apart;
          map_in_pool = is.map_in_pool;
        },
      )
]
  where
    start : ℕ
    start = start_of name 1009

    step : ℕ
    step = step_of name 1009

    b : (start < 1009) × (1 ≤ step) × (step < 1009)
    b = step_bounds name

    slot : Option ℤ
    slot = probe 1009 used start step 0 1009

nothing_used : IsPartial [] []
nothing_used = record {
  slots = tt;
  used_apart = refl;
  ports_apart = refl;
  ports_in_pool = tt;
  same = λ p. refl;
}

-- Up to as many different names as the pool has ports are all given a port of the pool, no two the
-- same.
pub assign_ports-IsPortMap :
    (names : List String)
    → distinct names ≡ true
    → length names ≤ 1009
    → (m : Dict String ℤ) × (assign_ports names 9804 1009 ≡ assigned m) × IsPortMap names m
unfolding assign_ports
assign_ports-IsPortMap names d h =
    let (m, got, is) =
      assign_names-IsAssigned (sort_by str_ltb names) [] [] (distinct-sort_by str_ltb names ∙ d)
        (λ x. refl) nothing_used (omega (arith, length-sort_by str_ltb names)) in
    (
      m,
      got,
      record {
        total = λ x. is.map_total x ∙ contains-sort_by str_ltb names x;
        apart = is.map_apart;
        in_pool = is.map_in_pool;
      },
    )

-- The slots of the pool.
abbrev pool : ℕ → List ℤ
pool zero = []
pool (suc n) = pos n ∷ pool n

length-pool : (n : ℕ) → length (pool n) ≡ n
length-pool zero = refl
length-pool (suc n) = omega (arith, length-pool n)

contains-pool : (n k : ℕ) → k < n → contains (pool n) (pos k) ≡ true
contains-pool zero k h = absurd (omega arith)
contains-pool (suc n) k h = ground (arith, contains-pool n k)

contains-IsSlot : (used : List ℤ) (x : ℤ) → All IsSlot used → contains used x ≡ true → IsSlot x
contains-IsSlot [] x a m = absurd (ground arith)
contains-IsSlot (u ∷ used) x a m = elim (Bool-cases (u == x)) [
  | inl same ↦ subst IsSlot ((eqb_ℤ_iff u x).0 same) a.0
  | inr other ↦ contains-IsSlot used x a.1 (ground arith)
]

pool-IsSlot : (x : ℤ) → IsSlot x → contains (pool 1009) x ≡ true
pool-IsSlot (pos k) h = contains-pool 1009 k h
pool-IsSlot (negsuc k) h = absurd h

used-le : (used : List ℤ) → All IsSlot used → distinct used ≡ true → length used ≤ 1009
used-le used a d = omega (
  arith,
  length-pool 1009,
  distinct-le used (pool 1009) d (λ x m. pool-IsSlot x (contains-IsSlot used x a m)),
)

assign_names-full :
    (names : List String) (used : List ℤ) (m : Dict String ℤ)
    → All IsSlot used
    → distinct used ≡ true
    → 1009 < length used + length names
    → assign_names 9804 1009 names used m ≡ no_free_ports
unfolding assign_names
assign_names-full [] used m a d h = absurd (omega (arith, used-le used a d))
assign_names-full (name ∷ names) used m a d h = elim (Option-cases slot) [
  | inl full ↦ ap (λ o. take_slot 9804 o name (assign_names 9804 1009 names) used m) full
  | inr (s, e) ↦
      let free =
        probe-some used (start_of name 1009) (step_of name 1009) 0 1009 s b.0 b.2 (omega arith) e in
      ap (λ o. take_slot 9804 o name (assign_names 9804 1009 names) used m) e
      ∙ assign_names-full names (s ∷ used) (insert name (port_at 9804 s) m) (free.0, a)
          (distinct-cons s used free.1 d) (omega arith)
]
  where
    b : (start_of name 1009 < 1009) × (1 ≤ step_of name 1009) × (step_of name 1009 < 1009)
    b = step_bounds name

    slot : Option ℤ
    slot = probe 1009 used (start_of name 1009) (step_of name 1009) 0 1009

-- More names than the pool has ports are an error.
pub assign_ports-full :
    (names : List String) → 1009 < length names → assign_ports names 9804 1009 ≡ no_free_ports
unfolding assign_ports
assign_ports-full names h =
    assign_names-full (sort_by str_ltb names) [] [] tt refl
      (omega (arith, length-sort_by str_ltb names))
