-- ===== src/Prelude/Dict.antt =====
-- Go's maps as association lists: the order of the entries is one order of iteration, and the
-- theorems hold for all of them.
use Prim.Native.Nat.{suc}
use mathlib.Core.Path.{◌≡◌, refl}
use mathlib.Core.Logic.{◌≢◌}
use mathlib.Core.Bool.{Bool, true, false, ◌||◌}
use mathlib.Core.Option.{Option, none, some}
use mathlib.Core.List.{List, [], ◌∷◌}
use native.Mathlib.Omega.{arith}
use gnmic_operator.Prelude.Tests.{Eq, ◌==◌, if◌then◌else◌, ==_refl}
use gnmic_operator.Prelude.Lists.{length}
use gnmic_operator.Prelude.Members.{contains, distinct}

abbrev pub Dict {ℓ κ} : Type ℓ → Type κ → Type (ℓ ⊔ κ)
Dict K V = List (K × V)

abbrev pub keys {ℓ κ} : {K : Type ℓ} {V : Type κ} → Dict K V → List K
keys [] = []
keys ((k, v) ∷ d) = k ∷ keys d

abbrev pub is_some {ℓ} : {A : Type ℓ} → Option A → Bool
is_some none = false
is_some (some a) = true

module _ {ℓ κ} {K : Type ℓ} {V : Type κ} ⦃e : Eq K⦄ where
  -- m[k], with the second result of Go's two-valued read
  unfoldable pub lookup : K → Dict K V → Option V
  lookup k [] = none
  lookup k ((j, v) ∷ d) = if j == k then some v else lookup k d

  -- m[k] = v
  unfoldable pub insert : K → V → Dict K V → Dict K V
  insert k v [] = (k, v) ∷ []
  insert k v ((j, w) ∷ d) = if j == k then (k, v) ∷ d else (j, w) ∷ insert k v d

  -- delete(m, k)
  unfoldable pub delete : K → Dict K V → Dict K V
  delete k [] = []
  delete k ((j, w) ∷ d) = let rest = delete k d in if j == k then rest else (j, w) ∷ rest

module _ {ℓ κ} {K : Type ℓ} {V : Type κ} ⦃e : Eq K⦄ where
  pub lookup-insert :
      (k j : K) (v : V) (d : Dict K V)
      → lookup j (insert k v d) ≡ (if k == j then some v else lookup j d)
  unfolding lookup insert
  lookup-insert k j v [] = refl
  lookup-insert k j v ((i, w) ∷ d) =
      ground (arith, e.agree_iff k j, e.agree_iff i k, e.agree_iff i j, lookup-insert k j v d)

  pub lookup-delete :
      (k j : K) (d : Dict K V) → lookup j (delete k d) ≡ (if k == j then none else lookup j d)
  unfolding lookup delete
  lookup-delete k j [] = ground arith
  lookup-delete k j ((i, w) ∷ d) =
      ground (arith, e.agree_iff k j, e.agree_iff i k, e.agree_iff i j, lookup-delete k j d)

  pub lookup-insert_self : (k : K) (v : V) (d : Dict K V) → lookup k (insert k v d) ≡ some v
  lookup-insert_self k v d = ground (arith, lookup-insert k k v d, ==_refl k)

  pub lookup-insert_ne :
      (k j : K) (v : V) (d : Dict K V) → k ≢ j → lookup j (insert k v d) ≡ lookup j d
  lookup-insert_ne k j v d h = ground (arith, lookup-insert k j v d, e.agree_iff k j)

  pub contains-keys : (k : K) (d : Dict K V) → contains (keys d) k ≡ is_some (lookup k d)
  unfolding lookup
  contains-keys k [] = refl
  contains-keys k ((j, v) ∷ d) = ground (arith, contains-keys k d)

  pub contains-keys-insert :
      (k j : K) (v : V) (d : Dict K V)
      → contains (keys (insert k v d)) j ≡ (k == j || contains (keys d) j)
  unfolding insert
  contains-keys-insert k j v [] = refl
  contains-keys-insert k j v ((i, w) ∷ d) =
      ground
        (arith, contains-keys-insert k j v d, e.agree_iff i k, e.agree_iff k j, e.agree_iff i j)

  -- The keys of a Go map are distinct, and a write keeps them so.
  pub distinct-keys-insert :
      (k : K) (v : V) (d : Dict K V)
      → distinct (keys d) ≡ true
      → distinct (keys (insert k v d)) ≡ true
  unfolding insert
  distinct-keys-insert k v [] h = refl
  distinct-keys-insert k v ((i, w) ∷ d) h = ground (
    arith,
    distinct-keys-insert k v d,
    contains-keys-insert k i v d,
    e.agree_iff i k,
    e.agree_iff k i,
  )

  pub length-insert_new :
      (k : K) (v : V) (d : Dict K V) → lookup k d ≡ none → length (insert k v d) ≡ suc (length d)
  unfolding lookup insert
  length-insert_new k v [] h = refl
  length-insert_new k v ((i, w) ∷ d) h = ground (arith, length-insert_new k v d)

  pub length-keys : (d : Dict K V) → length (keys d) ≡ length d
  length-keys [] = refl
  length-keys ((j, v) ∷ d) = omega (arith, length-keys d)

pub ruleset dict_laws = (lookup-insert, lookup-delete)
