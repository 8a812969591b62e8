-- ===== src/Plan/PortMap.antt =====
-- The ports that assignPorts of internal/gnmic/plan.go has given so far: they are apart.

use gnmic_operator.Prelude.{
  ◌+◌, ◌≤◌, ◌<◌, ℤ, pos, negsuc, int_eq, String, Bool, true, false, ◌||◌, none, List, [], ◌∷◌, ◌≡◌,
  refl, sym, ap, ◌∙◌, subst, nat_eq, string_eq, ◌==◌, if◌then◌else◌, contains, distinct,
  distinct-cons, arith, eqb_ℤ_iff, map,
}
use gnmic_operator.Prelude.Dict.{Dict, keys, lookup, insert}
use gnmic_operator.Prelude.Sort.{All}
use gnmic_operator.Plan.Ports.{start_of, step_of, port_at}
use gnmic_operator.Plan.Probe.{IsSlot}

-- The ports of a result.
abbrev pub ports : Dict String ℤ → List ℤ
ports [] = []
ports ((n, p) ∷ m) = p ∷ ports m

-- A port of the pool.
abbrev pub InPool : ℤ → Type 0
InPool (pos p) = (9804 ≤ p) × (p < 10813)
InPool (negsuc p) = ⊥

-- The names have ports of the pool, and no two have the same.
pub record IsPortMap (names : List String) (m : Dict String ℤ) : Type 0 where
  pub total : (x : String) → contains (keys m) x ≡ contains names x
  pub apart : distinct (ports m) ≡ true
  pub in_pool : All InPool (ports m)

pub step_bounds :
    (name : String)
    → (start_of name 1009 < 1009) × (1 ≤ step_of name 1009) × (step_of name 1009 < 1009)
step_bounds name = (omega arith, omega arith, omega arith)

InPool-port_at : (s : ℤ) → IsSlot s → InPool (port_at 9804 s)
InPool-port_at (pos k) h =
    let sum : port_at 9804 (pos k) ≡ pos (9804 + k) = ground arith in
    subst InPool (sym sum) (omega arith, omega arith)
InPool-port_at (negsuc k) h = absurd h

port_at_inj : (s t : ℤ) → IsSlot s → IsSlot t → port_at 9804 s ≡ port_at 9804 t → s ≡ t
port_at_inj (pos j) (pos k) h g e = ground arith
port_at_inj (negsuc j) t h g e = absurd h
port_at_inj (pos j) (negsuc k) h g e = absurd g

-- Before a name is given a slot: the used slots are of the pool and apart, and the result has their
-- ports.
pub record IsPartial (used : List ℤ) (m : Dict String ℤ) : Type 0 where
  pub slots : All IsSlot used
  pub used_apart : distinct used ≡ true
  pub ports_apart : distinct (ports m) ≡ true
  pub ports_in_pool : All InPool (ports m)
  pub same : (p : ℤ) → contains (ports m) p ≡ contains (map (port_at 9804) used) p

contains-map-port_at :
    (used : List ℤ) (s : ℤ)
    → All IsSlot used
    → IsSlot s
    → contains used s ≡ false
    → contains (map (port_at 9804) used) (port_at 9804 s) ≡ false
contains-map-port_at [] s h g f = refl
contains-map-port_at (u ∷ used) s h g f = ground (
  arith,
  contains-map-port_at used s h.1 g,
  port_at_inj u s h.0 g,
  eqb_ℤ_iff u s,
  eqb_ℤ_iff (port_at 9804 u) (port_at 9804 s),
)

module _ (name : String) (p : ℤ) where
  contains-ports-insert :
      (m : Dict String ℤ) (q : ℤ)
      → lookup name m ≡ none
      → contains (ports (insert name p m)) q ≡ (p == q || contains (ports m) q)
  unfolding insert lookup
  contains-ports-insert [] q h = refl
  contains-ports-insert ((n, r) ∷ m) q h = ground (arith, contains-ports-insert m q)

  distinct-ports-insert :
      (m : Dict String ℤ)
      → lookup name m ≡ none
      → contains (ports m) p ≡ false
      → distinct (ports m) ≡ true
      → distinct (ports (insert name p m)) ≡ true
  unfolding insert lookup
  distinct-ports-insert [] h f d = refl
  distinct-ports-insert ((n, r) ∷ m) h f d =
      ground
        (arith, distinct-ports-insert m, contains-ports-insert m r, eqb_ℤ_iff r p, eqb_ℤ_iff p r)

  InPool-ports-insert :
      (m : Dict String ℤ) → InPool p → All InPool (ports m) → All InPool (ports (insert name p m))
  unfolding insert
  InPool-ports-insert [] h a = (h, tt)
  InPool-ports-insert ((n, r) ∷ m) h a = by_key (n == name) (InPool-ports-insert m h a.1)
    where
      by_key :
          (b : Bool)
          → All InPool (ports (insert name p m))
          → All InPool (ports (if b then (name, p) ∷ m else (n, r) ∷ insert name p m))
      by_key true later = (h, a.1)
      by_key false later = (a.0, later)

pub IsPartial-insert :
    (name : String) (s : ℤ) (used : List ℤ) (m : Dict String ℤ)
    → IsPartial used m
    → IsSlot s
    → contains used s ≡ false
    → lookup name m ≡ none
    → IsPartial (s ∷ used) (insert name (port_at 9804 s) m)
IsPartial-insert name s used m i h f g = record {
  slots = (h, i.slots);
  used_apart = distinct-cons s used f i.used_apart;
  ports_apart = distinct-ports-insert name (port_at 9804 s) m g fresh i.ports_apart;
  ports_in_pool = InPool-ports-insert name (port_at 9804 s) m (InPool-port_at s h) i.ports_in_pool;
  same = λ p.
      contains-ports-insert name (port_at 9804 s) m p g
      ∙ ap (λ b. port_at 9804 s == p || b) (i.same p);
}
  where
    fresh : contains (ports m) (port_at 9804 s) ≡ false
    fresh = i.same (port_at 9804 s) ∙ contains-map-port_at used s i.slots h f
