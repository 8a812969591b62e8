-- ===== src/Placement/Load.antt =====
-- The load of an assignment: what a pod has, and how often a target stands in all pods together.
use gnmic_operator.Prelude.{
  ℕ, zero, suc, ◌+◌, ◌*◌, ◌≤◌, ◌<◌, String, Bool, true, false, List, [], ◌∷◌, ◌++◌, ◌≡◌, refl,
  nat_eq, string_eq, ◌==◌, if◌then◌else◌, count, count-append, length, length-append, arith,
  nat_beq_iff,
}
use gnmic_operator.Prelude.Dict.{lookup, insert, lookup-insert}
use gnmic_operator.Placement.Blrh.{Assignment, at_pod, append_to, touch}

-- The targets of all pods.
abbrev pub flat : Assignment → List String
flat [] = []
flat ((p, l) ∷ a) = l ++ flat a

pub at_pod-insert :
    (p q : ℕ) (l : List String) (a : Assignment)
    → at_pod q (insert p l a) ≡ (if p == q then l else at_pod q a)
unfolding at_pod
at_pod-insert p q l a = ground (arith, lookup-insert p q l a)

at_pod-cons :
    (p q : ℕ) (l : List String) (a : Assignment)
    → at_pod q ((p, l) ∷ a) ≡ (if p == q then l else at_pod q a)
unfolding at_pod lookup
at_pod-cons p q l a = ground arith

at_pod_nil : (p : ℕ) → at_pod p [] ≡ []
unfolding at_pod lookup
at_pod_nil p = refl

insert-cons :
    (p q : ℕ) (v l : List String) (a : Assignment)
    → insert p v ((q, l) ∷ a) ≡ (if q == p then (p, v) ∷ a else (q, l) ∷ insert p v a)
unfolding insert
insert-cons p q v l a = refl

-- A write takes the pod's old targets out of the assignment and its new ones in.
pub count-insert :
    (x : String) (p : ℕ) (v : List String) (a : Assignment)
    → count x (flat (insert p v a)) + count x (at_pod p a) ≡ count x (flat a) + count x v
unfolding insert at_pod lookup
count-insert x p v [] = omega (arith, count-append x v [])
count-insert x p v ((q, l) ∷ a) = rw (at_pod-cons q p l a) (by_case (q == p) (count-insert x p v a))
  where
    by_case :
        (b : Bool)
        → count x (flat (insert p v a)) + count x (at_pod p a) ≡ count x (flat a) + count x v
        → count x (flat (if b then (p, v) ∷ a else (q, l) ∷ insert p v a))
            + count x (if b then l else at_pod p a)
          ≡ count x (l ++ flat a) + count x v
    by_case true h = omega (arith, count-append x v (flat a), count-append x l (flat a))
    by_case false h =
        omega (arith, h, count-append x l (flat (insert p v a)), count-append x l (flat a))

-- An appended target counts once more, and the others as before.
pub count-append_to :
    (x t : String) (p : ℕ) (a : Assignment)
    → count x (flat (append_to p t a)) ≡ (if t == x then 1 else 0) + count x (flat a)
count-append_to x t p a =
    omega (arith, count-insert x p (at_pod p a ++ t ∷ []) a, count-append x (at_pod p a) (t ∷ []))

pub count-touch :
    (x : String) (p : ℕ) (a : Assignment) → count x (flat (touch p a)) ≡ count x (flat a)
count-touch x p a = omega (arith, count-insert x p (at_pod p a) a)

pub at_pod-touch : (p q : ℕ) (a : Assignment) → at_pod q (touch p a) ≡ at_pod q a
at_pod-touch p q a = ground (arith, at_pod-insert p q (at_pod p a) a, nat_beq_iff p q)

-- The loads of the pods `0` to `n - 1` together.
abbrev pub loads : ℕ → Assignment → ℕ
loads zero a = 0
loads (suc n) a = length (at_pod n a) + loads n a

loads-cons :
    (n p : ℕ) (l : List String) (a : Assignment)
    → (loads n ((p, l) ∷ a) ≤ length l + loads n a) × (n ≤ p → loads n ((p, l) ∷ a) ≡ loads n a)
loads-cons zero p l a = (omega arith, λ h. refl)
loads-cons (suc n) p l a =
    let before = loads-cons n p l a in
    (
      ground (arith, at_pod-cons p n l a, before.0, before.1, nat_beq_iff p n),
      λ h. ground (arith, at_pod-cons p n l a, before.1, nat_beq_iff p n),
    )

loads_nil : (n : ℕ) → loads n [] ≡ 0
unfolding at_pod lookup
loads_nil zero = refl
loads_nil (suc n) = omega (arith, loads_nil n)

-- Different pods have different entries.
pub loads-le-flat : (n : ℕ) (a : Assignment) → loads n a ≤ length (flat a)
loads-le-flat n [] = omega (arith, loads_nil n)
loads-le-flat n ((p, l) ∷ a) =
    omega (arith, (loads-cons n p l a).0, loads-le-flat n a, length-append l (flat a))

-- When every pod is full, the loads are at least the capacity of all.
pub loads_full :
    (n c : ℕ) (a : Assignment) → ((p : ℕ) → p < n → c ≤ length (at_pod p a)) → n * c ≤ loads n a
loads_full zero c a h = omega arith
loads_full (suc n) c a h =
    omega (arith, loads_full n c a (λ p l. h p (omega arith)), h n (omega arith))

pub at_pod-append_to :
    (p q : ℕ) (t : String) (a : Assignment)
    → at_pod q (append_to p t a) ≡ (if p == q then at_pod p a ++ t ∷ [] else at_pod q a)
at_pod-append_to p q t a = at_pod-insert p q (at_pod p a ++ t ∷ []) a
