-- ===== src/Plan/Missing.antt =====
-- The loop that the methods of PlanBuilder share (internal/gnmic/plan.go): an entry whose key the plan
-- has already is passed over, as is one for which nothing is made; the first error ends the loop.
use gnmic_operator.Prelude.{
  String, Bool, true, false, ◌||◌, ◌&&◌, Option, none, some, [], ◌∷◌, ◌==◌, string_eq,
  if◌then◌else◌, ◌≡◌, ap, arith, Bool-cases, inl, inr, ==-eq, subst,
}
use gnmic_operator.Prelude.Dict.{Dict, lookup, insert, is_some, lookup-insert}
use gnmic_operator.Plan.Outcome.{Outcome, built, failed, panicked, After, After-map}

module _ {E W B : Type 0} where
  abbrev store :
      String
      → (Dict String B → W → Outcome E (Dict String B) × W)
      → Dict String B
      → Outcome E (Option B) × W
      → Outcome E (Dict String B) × W
  store k next made (built none, w) = next made w
  store k next made (built (some b), w) = next (insert k b made) w
  store k next made (failed e, w) = (failed e, w)
  store k next made (panicked, w) = (panicked, w)

  unfoldable pub add_missing :
      {A : Type 0}
      → (String → A → W → Outcome E (Option B) × W)
      → Dict String A
      → Dict String B
      → W
      → Outcome E (Dict String B) × W
  add_missing make [] made w = (built made, w)
  add_missing make ((k, a) ∷ rest) made w =
      let next = add_missing make rest in
      if is_some (lookup k made) then next made w else store k next made (make k a w)

abbrev pub WhenSome : {B : Type 0} → (B → Type 0) → Option B → Type 0
WhenSome P none = Unit
WhenSome P (some b) = P b

-- The keys of which something is made.
unfoldable pub wants : {A : Type 0} → (String → A → Bool) → String → Dict String A → Bool
wants wanted j [] = false
wants wanted j ((k, a) ∷ rest) = (k == j && wanted k a) || wants wanted j rest

module _ {E W B : Type 0} (F : Type 0) (L : Option B → Type 0) (Q : Dict String B → Type 0) where
  store-After :
      (k : String) (next : Dict String B → W → Outcome E (Dict String B) × W) (made : Dict String B)
      (r : Outcome E (Option B) × W)
      → After F L r
      → (L none → (w : W) → After F Q (next made w))
      → ((b : B) → L (some b) → (w : W) → After F Q (next (insert k b made) w))
      → After F Q (store k next made r)
  unfolding After
  store-After k next made (built none, w) h skip go = skip h w
  store-After k next made (built (some b), w) h skip go = go b h w
  store-After k next made (failed e, w) h skip go = h
  store-After k next made (panicked, w) h skip go = h

module _ {E W A B : Type 0} (F : Type 0) (make : String → A → W → Outcome E (Option B) × W) where
  -- An invariant that each new entry keeps holds after the loop.
  pub add_missing-After :
      (I : Dict String B → Type 0)
      → ((k : String) (a : A) (w : W) (made : Dict String B)
          → is_some (lookup k made) ≡ false
          → I made
          → After F (WhenSome (λ b. I (insert k b made))) (make k a w))
      → (d : Dict String A) (made : Dict String B) (w : W) → I made
      → After F I (add_missing make d made w)
  unfolding add_missing After
  add_missing-After I step [] made w h = h
  add_missing-After I step ((k, a) ∷ rest) made w h = elim (Bool-cases (is_some (lookup k made))) [
    | inl there ↦ rw there (add_missing-After I step rest made w h)
    | inr new ↦ rw new (
        store-After F (WhenSome (λ b. I (insert k b made))) I k (add_missing make rest) made
          (make k a w) (step k a w made new h) (λ u v. add_missing-After I step rest made v h)
          (λ b i v. add_missing-After I step rest (insert k b made) v i))
  ]

  same_key :
      (k j : String) (m : Dict String B)
      → (k == j) ≡ true
      → is_some (lookup k m) ≡ is_some (lookup j m)
  same_key k j m e = ap (λ i. is_some (lookup i m)) (==-eq k j e)

  -- The keys after the loop are those before it and those of which something is made.
  pub add_missing-wants :
      (wanted : String → A → Bool)
      → ((k : String) (a : A) (w : W) → After F (λ o. is_some o ≡ wanted k a) (make k a w))
      → (j : String) (b : Bool) (d : Dict String A) (made : Dict String B) (w : W)
      → (is_some (lookup j made) || wants wanted j d) ≡ b
      → After F (λ m. is_some (lookup j m) ≡ b) (add_missing make d made w)
  unfolding add_missing wants After
  add_missing-wants wanted step j b [] made w h = ground arith
  add_missing-wants wanted step j b ((k, a) ∷ rest) made w h =
      elim (Bool-cases (is_some (lookup k made))) [
        | inl there ↦
            rw there
              (add_missing-wants wanted step j b rest made w (ground (arith, same_key k j made)))
        | inr new ↦ rw new (
            store-After F (λ o. is_some o ≡ wanted k a) (λ m. is_some (lookup j m) ≡ b) k
              (add_missing make rest) made (make k a w) (step k a w)
              (λ e v. add_missing-wants wanted step j b rest made v (ground arith))
              (λ c e v.
                add_missing-wants wanted step j b rest (insert k c made) v
                  (ground (arith, lookup-insert k j c made))))
      ]

-- Every entry of the dictionary has `P`.
abbrev pub Each : {B : Type 0} → (String → B → Type 0) → Dict String B → Type 0
Each P d = (k : String) (b : _) → lookup k d ≡ some b → P k b

Each-insert :
    {B : Type 0} (P : String → B → Type 0) (k : String) (b : B) (d : Dict String B)
    → Each P d
    → P k b
    → Each P (insert k b d)
Each-insert P k b d h p j c q = elim (Bool-cases (k == j)) [
  | inl same ↦
      let value : b ≡ c = ground (arith, lookup-insert k j b d) in
      subst (λ i. P i c) (==-eq k j same) (subst (P k) value p)
  | inr other ↦ h j c (ground (arith, lookup-insert k j b d))
]

pub Each-empty : {B : Type 0} (P : String → B → Type 0) → Each P []
unfolding lookup
Each-empty P k b h = absurd (ground arith)

module _ {E W A B : Type 0} (F : Type 0) (make : String → A → W → Outcome E (Option B) × W) where
  -- When all that is made has a property, all entries have it after the loop.
  pub add_missing-Each :
      (P : String → B → Type 0)
      → ((k : String) (a : A) (w : W) → After F (WhenSome (P k)) (make k a w))
      → (d : Dict String A) (made : Dict String B) (w : W) → Each P made
      → After F (Each P) (add_missing make d made w)
  add_missing-Each P step =
      add_missing-After F make (Each P)
        (λ k a w made new h. After-map F (WhenSome (P k)) _ _ (step k a w) (entry k made h))
    where
      entry :
          (k : String) (made : Dict String B)
          → Each P made
          → (o : Option B) → WhenSome (P k) o
          → WhenSome (λ b. Each P (insert k b made)) o
      entry k made h none p = tt
      entry k made h (some b) p = Each-insert P k b made h p
