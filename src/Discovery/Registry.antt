-- ===== src/Discovery/Registry.antt =====
-- internal/controller/discovery/registry.go: the registry of the discovery runtimes. Each method holds
-- the lock from its start to its end, so that it is one step.
use gnmic_operator.Prelude.{Bool, Option, none, some, Eq}
use gnmic_operator.Prelude.Dict.{Dict, lookup, insert, delete, is_some}

pub data RegistryError : Type 0 where
  already_registered : RegistryError

module _ {ℓ} {K : Type ℓ} {V : Type 0} ⦃e : Eq K⦄ where
  abbrev pub get : K → Dict K V → Option V
  get key m = lookup key m

  abbrev pub exists : K → Dict K V → Bool
  exists key m = is_some (lookup key m)

  abbrev pub add_new : Option V → K → V → Dict K V → Option RegistryError × Dict K V
  add_new (some _) key value m = (some already_registered, m)
  add_new none key value m = (none, insert key value m)

  abbrev pub register : K → V → Dict K V → Option RegistryError × Dict K V
  register key value m = add_new (lookup key m) key value m

  abbrev pub unregister : K → Dict K V → Dict K V
  unregister key m = delete key m
