-- ===== src/Placement/Stable.antt =====
-- What boundedLoadRendezvousHash of internal/gnmic/placement_blrh.go keeps of the current assignment.
use gnmic_operator.Prelude.{
  ℕ, ◌+◌, ◌≤◌, ◌<◌, ℤ, pos, negsuc, rounds, geb_ℤ, String, Bool, true, false, Option, none, some,
  List, [], ◌∷◌, ◌++◌, ◌≡◌, refl, sym, ap, ◌∙◌, subst, nat_eq, string_eq, length, length-append,
  arith, nat_beq, nat_beq_iff, contains, contains-append, distinct, leb, Bool-cases, inl, inr,
}
use mathlib.Core.List.{append-nil, append_assoc}
use gnmic_operator.Prelude.Dict.{Dict, keys, lookup}
use gnmic_operator.Prelude.Sort.{sort_by, contains-sort_by, length-sort_by}
use gnmic_operator.Prelude.Text.{str_ltb}
use gnmic_operator.Placement.Blrh.{
  Assignment, PlacementStrategyOpts, Kept, at_pod, bounded_rendezvous_hash, append_to, touch,
  keep_one, keep_targets, by_hash, keep_pod, keep_current, assign_to, assign_one, assign_targets,
  kept_current, assign_all, effective_capacity, to_count, bounded_load_rendezvous_hash,
}
use gnmic_operator.Placement.Load.{at_pod-append_to, at_pod-touch}

pub room_left : (k : ℕ) (c : ℤ) → k < rounds c → geb_ℤ k c ≡ false
room_left k (pos c) h = ground arith
room_left k (negsuc c) h = absurd (omega arith)

at_pod-keep_one_other :
    (p q : ℕ) (t : String) (k : Kept) (full : Bool)
    → nat_beq p q ≡ false
    → at_pod q (keep_one full p t k).assignments ≡ at_pod q k.assignments
at_pod-keep_one_other p q t k true h = at_pod-touch p q k.assignments
at_pod-keep_one_other p q t k false h =
    ground (arith, at_pod-append_to p q t (touch p k.assignments), at_pod-touch p q k.assignments)

at_pod-keep_targets_other :
    (c : ℤ) (p q : ℕ) (ts : List String) (k : Kept)
    → nat_beq p q ≡ false
    → at_pod q (keep_targets c p ts k).assignments ≡ at_pod q k.assignments
unfolding keep_targets
at_pod-keep_targets_other c p q [] k h = refl
at_pod-keep_targets_other c p q (t ∷ ts) k h =
    at_pod-keep_targets_other c p q ts _ h ∙ at_pod-keep_one_other p q t k _ h

at_pod-keep_pod_other :
    (out : Bool) (c : ℤ) (p q : ℕ) (ts : List String) (k : Kept)
    → nat_beq p q ≡ false
    → at_pod q (keep_pod out c p ts k).assignments ≡ at_pod q k.assignments
at_pod-keep_pod_other true c p q ts k h = refl
at_pod-keep_pod_other false c p q ts k h =
    at_pod-keep_targets_other c p q (sort_by (by_hash p) ts) k h

-- A pod that does not stand in the rest of the current assignment is left as it is.
at_pod-keep_current_other :
    (c : ℤ) (n q : ℕ) (current : Assignment) (k : Kept)
    → contains (keys current) q ≡ false
    → at_pod q (keep_current c n current k).assignments ≡ at_pod q k.assignments
unfolding keep_current
at_pod-keep_current_other c n q [] k h = refl
at_pod-keep_current_other c n q ((p, ts) ∷ rest) k h =
    at_pod-keep_current_other c n q rest _ (ground arith)
    ∙ at_pod-keep_pod_other (leb n p) c p q ts k (ground arith)

-- A pod that has room for all of a list takes it, in its order.
at_pod-keep_targets_room :
    (c : ℤ) (p : ℕ) (ts : List String) (k : Kept)
    → length (at_pod p k.assignments) + length ts ≤ rounds c
    → at_pod p (keep_targets c p ts k).assignments ≡ at_pod p k.assignments ++ ts
unfolding keep_targets
at_pod-keep_targets_room c p [] k h = sym (append-nil (at_pod p k.assignments))
at_pod-keep_targets_room c p (t ∷ ts) k h = step _ free (
    at_pod-keep_targets_room c p ts (keep_one false p t k)
      (omega (arith, ap (λ l. length l) one, length-append (at_pod p k.assignments) (t ∷ []), h)))
  where
    free : geb_ℤ (length (at_pod p (touch p k.assignments))) c ≡ false
    free =
        ap (λ l. geb_ℤ (length l) c) (at_pod-touch p p k.assignments)
        ∙ room_left (length (at_pod p k.assignments)) c (omega arith)

    one : at_pod p (append_to p t (touch p k.assignments)) ≡ at_pod p k.assignments ++ t ∷ []
    one = ground (
      arith,
      at_pod-append_to p p t (touch p k.assignments),
      at_pod-touch p p k.assignments,
      nat_beq_iff p p,
    )

    step :
        (full : Bool)
        → full ≡ false
        → at_pod p (keep_targets c p ts (keep_one false p t k)).assignments
          ≡ at_pod p (append_to p t (touch p k.assignments)) ++ ts
        → at_pod p (keep_targets c p ts (keep_one full p t k)).assignments
          ≡ at_pod p k.assignments ++ t ∷ ts
    step true e next = absurd (ground arith)
    step false e next =
        next ∙ ap (λ l. l ++ ts) one ∙ append_assoc (at_pod p k.assignments) (t ∷ []) ts

at_pod-keep_pod_room :
    (n : ℕ) (c : ℤ) (p : ℕ) (ts : List String) (k : Kept) (out : Bool)
    → leb n p ≡ out
    → p < n
    → at_pod p k.assignments ≡ []
    → length ts ≤ rounds c
    → at_pod p (keep_pod out c p ts k).assignments ≡ sort_by (by_hash p) ts
at_pod-keep_pod_room n c p ts k true e l empty h = absurd (ground arith)
at_pod-keep_pod_room n c p ts k false e l empty h =
    at_pod-keep_targets_room c p (sort_by (by_hash p) ts) k
      (omega (arith, ap (λ s. length s) empty, length-sort_by (by_hash p) ts, h))
    ∙ ap (λ s. s ++ sort_by (by_hash p) ts) empty

at_pod-keep_current_room :
    (c : ℤ) (n p : ℕ) (ts : List String) (current : Assignment) (k : Kept)
    → distinct (keys current) ≡ true
    → lookup p current ≡ some ts
    → p < n
    → at_pod p k.assignments ≡ []
    → length ts ≤ rounds c
    → at_pod p (keep_current c n current k).assignments ≡ sort_by (by_hash p) ts
unfolding keep_current lookup
at_pod-keep_current_room c n p ts [] k d e l empty h = absurd (ground arith)
at_pod-keep_current_room c n p ts ((q, us) ∷ rest) k d e l empty h =
    elim (Bool-cases (nat_beq q p)) [
      | inl same ↦
          let is : q ≡ p = ground (arith, nat_beq_iff q p) in
          let all : us ≡ ts = ground arith in
          at_pod-keep_current_other c n p rest _ (ground arith)
          ∙ subst (λ r. at_pod p (keep_pod (leb n r) c r us k).assignments ≡ sort_by (by_hash p) ts)
              (sym is)
              (subst
                (λ vs. at_pod p (keep_pod (leb n p) c p vs k).assignments ≡ sort_by (by_hash p) ts)
                (sym all) (at_pod-keep_pod_room n c p ts k _ refl l empty h))
      | inr other ↦
          at_pod-keep_current_room c n p ts rest (keep_pod (leb n q) c q us k) (ground arith)
            (ground arith) l (at_pod-keep_pod_other (leb n q) c q p us k other ∙ empty) h
    ]

contains-at_pod-assign_one :
    (c : ℤ) (n p : ℕ) (kept : Bool) (t x : String) (a : Assignment)
    → contains (at_pod p a) x ≡ true
    → contains (at_pod p (assign_one kept c n t a)) x ≡ true
contains-at_pod-assign_one c n p true t x a h = h
contains-at_pod-assign_one c n p false t x a h = placed_on (bounded_rendezvous_hash t n c a)
  where
    placed_on : (o : Option ℕ) → contains (at_pod p (assign_to o t a)) x ≡ true
    placed_on none = h
    placed_on (some q) =
        ground (
          arith,
          at_pod-append_to q p t a,
          nat_beq_iff q p,
          contains-append (at_pod q a) (t ∷ []) x,
        )

contains-at_pod-assign_targets :
    (c : ℤ) (n p : ℕ) (pre ts : List String) (x : String) (a : Assignment)
    → contains (at_pod p a) x ≡ true
    → contains (at_pod p (assign_targets c n pre ts a)) x ≡ true
unfolding assign_targets
contains-at_pod-assign_targets c n p pre [] x a h = h
contains-at_pod-assign_targets c n p pre (t ∷ ts) x a h =
    contains-at_pod-assign_targets c n p pre ts x (assign_one (contains pre t) c n t a)
      (contains-at_pod-assign_one c n p (contains pre t) t x a h)

-- A pod that still exists and has no more targets than its capacity keeps each of them, when the plan
-- has a target and the pods of the current assignment are distinct.
pub bounded_load_rendezvous_hash-IsStable :
    {T : Type 0} (targets : Dict String T) (options : PlacementStrategyOpts) (p : ℕ)
    (ts : List String) (x : String)
    → 0 < length targets
    → distinct (keys options.current_assignment) ≡ true
    → lookup p options.current_assignment ≡ some ts
    → p < to_count options.num_pods
    → length ts
      ≤ rounds (effective_capacity options.capacity (length targets) (to_count options.num_pods))
    → contains ts x ≡ true
    → contains (at_pod p (bounded_load_rendezvous_hash targets options)) x ≡ true
unfolding bounded_load_rendezvous_hash assign_all kept_current at_pod lookup
bounded_load_rendezvous_hash-IsStable targets options p ts x some_target d e l h m =
    rw (nonzero (length targets) some_target) (
      contains-at_pod-assign_targets c n p k.pre_assigned (sort_by str_ltb (keys targets)) x
        k.assignments
        (ap (λ s. contains s x)
            (at_pod-keep_current_room c n p ts options.current_assignment start d e l refl h)
          ∙ contains-sort_by (by_hash p) ts x
          ∙ m))
  where
    n : ℕ
    n = to_count options.num_pods

    c : ℤ
    c = effective_capacity options.capacity (length targets) n

    start : Kept
    start = record { assignments = []; pre_assigned = [] }

    k : Kept
    k = keep_current c n options.current_assignment start

    nonzero : (i : ℕ) → 0 < i → nat_beq i 0 ≡ false
    nonzero i r = ground arith
