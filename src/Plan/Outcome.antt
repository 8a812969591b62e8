-- ===== src/Plan/Outcome.antt =====
-- Results with errors as values, and calls that also change the world: that of the API server, from which
-- the credentials are read. Then what holds of a result whenever there is one.
use gnmic_operator.Prelude.{◌≡◌, refl, subst}

-- A value, an error, or the panic of a write to a nil map.
pub data Outcome (E A : Type 0) : Type 0 where
  built : A → Outcome E A
  failed : E → Outcome E A
  panicked : Outcome E A

abbrev pub bind : {E A B : Type 0} → Outcome E A → (A → Outcome E B) → Outcome E B
bind (built a) f = f a
bind (failed e) f = failed e
bind panicked f = panicked

module _ {E W : Type 0} where
  unfoldable pub and_then :
      {A B : Type 0} → Outcome E A × W → (A → W → Outcome E B × W) → Outcome E B × W
  and_then (built a, w) f = f a w
  and_then (failed e, w) f = (failed e, w)
  and_then (panicked, w) f = (panicked, w)

  -- `P` holds of the value. When there is none, it is `F`: `Unit` where errors are allowed, `⊥` where
  -- there must be a value.
  unfoldable pub After : {A : Type 0} → Type 0 → (A → Type 0) → Outcome E A × W → Type 0
  After F P (built a, w) = P a
  After F P (failed e, w) = F
  After F P (panicked, w) = F

  pub and_then-After :
      {A B : Type 0} (F : Type 0) (P : A → Type 0) (Q : B → Type 0) (r : Outcome E A × W)
      (f : A → W → Outcome E B × W)
      → After F P r
      → ((a : A) (w : W) → P a → After F Q (f a w))
      → After F Q (and_then r f)
  unfolding After and_then
  and_then-After F P Q (built a, w) f h g = g a w h
  and_then-After F P Q (failed e, w) f h g = h
  and_then-After F P Q (panicked, w) f h g = h

  pub After-both :
      {A : Type 0} (F : Type 0) (P Q : A → Type 0) (r : Outcome E A × W)
      → After F P r
      → After F Q r
      → After F (λ a. P a × Q a) r
  unfolding After
  After-both F P Q (built a, w) p q = (p, q)
  After-both F P Q (failed e, w) p q = p
  After-both F P Q (panicked, w) p q = p

  pub After-map :
      {A : Type 0} (F : Type 0) (P Q : A → Type 0) (r : Outcome E A × W)
      → After F P r
      → ((a : A) → P a → Q a)
      → After F Q r
  unfolding After
  After-map F P Q (built a, w) p f = f a p
  After-map F P Q (failed e, w) p f = p
  After-map F P Q (panicked, w) p f = p

  -- Nothing is said of the value.
  pub After-any : {A : Type 0} (r : Outcome E A × W) → After Unit (λ a. Unit) r
  unfolding After
  After-any (built a, w) = tt
  After-any (failed e, w) = tt
  After-any (panicked, w) = tt

  pub After-built :
      {A : Type 0} (F : Type 0) (P : A → Type 0) (r : Outcome E A × W) (a : A) (w : W)
      → r ≡ (built a, w)
      → After F P r
      → P a
  unfolding After
  After-built F P r a w p h = subst (After F P) p h

  pub bind-After :
      {A B : Type 0} (F : Type 0) (P : A → Type 0) (Q : B → Type 0) (o : Outcome E A)
      (f : A → Outcome E B) (w : W)
      → After F P (o, w)
      → ((a : A) → P a → After F Q (f a, w))
      → After F Q (bind o f, w)
  unfolding After
  bind-After F P Q (built a) f w h g = g a h
  bind-After F P Q (failed e) f w h g = h
  bind-After F P Q panicked f w h g = h

pub After-pure :
    {W A : Type 0} (E F : Type 0) (P : A → Type 0) (a : A) (w : W)
    → P a
    → After {E = E} F P (built a, w)
unfolding After
After-pure E F P a w h = h

-- What holds of the value for every `j`.
pub After-all :
    {E W A J : Type 0} (F : Type 0) (P : J → A → Type 0) (j : J) (r : Outcome E A × W)
    → ((i : J) → After F (P i) r)
    → After F (λ a. (i : J) → P i a) r
unfolding After
After-all F P j (built a, w) h = h
After-all F P j (failed e, w) h = h j
After-all F P j (panicked, w) h = h j

-- A result without an error is a value.
pub After-value :
    {E W A : Type 0} (P : A → Type 0) (r : Outcome E A × W)
    → After ⊥ P r
    → (a : A) × (w : W) × (r ≡ (built a, w))
unfolding After
After-value P (built a, w) h = (a, w, refl)
After-value P (failed e, w) h = absurd h
After-value P (panicked, w) h = absurd h

-- Nothing is claimed of a run without a value.
pub After-panic :
    {W A : Type 0} (E : Type 0) (P : A → Type 0) (w : W) → After {E = E} Unit P (panicked, w)
unfolding After
After-panic E P w = tt

pub After-failed : {E W A : Type 0} (P : A → Type 0) (e : E) (w : W) → After Unit P (failed e, w)
unfolding After
After-failed P e w = tt
