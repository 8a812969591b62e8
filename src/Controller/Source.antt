-- ===== src/Controller/Source.antt =====
-- internal/controller/targetsource_controller.go: the reconciler of TargetSource resources. A discovery
-- runtime is a number, the context that it was started with; `live` lists the key and the context of
-- every runtime that was started and whose context is not cancelled.
use gnmic_operator.Prelude.{
  ℕ, suc, String, Bool, true, false, Option, none, some, List, [], ◌∷◌, Eq, ◌==◌, nat_eq, string_eq,
  if◌then◌else◌,
}
use gnmic_operator.Prelude.Dict.{Dict, is_some}
use gnmic_operator.Discovery.Client.{Fetched, found, not_found, failed}
use gnmic_operator.Discovery.Registry.{RegistryError, get, exists, register, unregister}

abbrev pub label_target_source_finalizer : String
label_target_source_finalizer = "operator.gnmic.dev/targetsource-finalizer"

pub record SourceResource : Type 0 where
  pub is_deleted : Bool
  pub generation : ℕ
  pub observed_generation : ℕ
  pub finalizers : List String

-- What the reconciler calls. Update gives the object as the server has stored it, `none` is an error;
-- the first results of the status write and of NewLoader say whether there is no error. The
-- functions on finalizers are those of controllerutil.
pub record SourceApi {ℓ} (K : Type ℓ) (W : Type 0) : Type ℓ where
  pub get_source : K → W → Fetched SourceResource × W
  pub update_source : K → SourceResource → W → Option SourceResource × W
  pub update_source_status : K → SourceResource → W → Bool × W
  pub contains_finalizer : SourceResource → String → Bool
  pub add_finalizer : SourceResource → String → SourceResource
  pub remove_finalizer : SourceResource → String → SourceResource
  pub new_loader : K → SourceResource → W → Bool × W

pub record Reconciler {ℓ} (K : Type ℓ) (W : Type 0) : Type ℓ where
  pub registry : Dict K ℕ
  pub live : List (K × ℕ)
  pub next_context : ℕ
  pub world : W

pub data ReconcileError : Type 0 where
  api_error loader_error : ReconcileError
  registry_error : RegistryError → ReconcileError

module _ {ℓ} {K : Type ℓ} ⦃e : Eq K⦄ where
  -- The runtimes without those of one context: its cancel function was called.
  abbrev pub cancel : K → ℕ → List (K × ℕ) → List (K × ℕ)
  cancel key n [] = []
  cancel key n ((k, m) ∷ rest) =
      let others = cancel key n rest in
      if k == key then (if m == n then others else (k, m) ∷ others) else (k, m) ∷ others

module _ {ℓ} {K : Type ℓ} {W : Type 0} ⦃e : Eq K⦄ where
  abbrev pub stop_found : Option ℕ → K → Reconciler K W → Reconciler K W
  stop_found none key r = r
  stop_found (some n) key r = record r {
    live = cancel key n r.live;
    registry = unregister key r.registry;
  }

  -- Get, Stop and Unregister
  abbrev pub stop_runtime : K → Reconciler K W → Reconciler K W
  stop_runtime key r = stop_found (get key r.registry) key r

  -- The cleanup of a runtime whose message processor has returned.
  abbrev pub cleanup : K → ℕ → Reconciler K W → Reconciler K W
  cleanup key n r = record r { live = cancel key n r.live; registry = unregister key r.registry }

  abbrev pub with_world : W → Reconciler K W → Reconciler K W
  with_world w r = record r { world = w }

module _ {ℓ} {K : Type ℓ} {W : Type 0} ⦃e : Eq K⦄ (api : SourceApi K W) where
  abbrev pub Reconciled : Type ℓ
  Reconciled = Option ReconcileError × Reconciler K W

  abbrev pub error_of : Bool → Option ReconcileError
  error_of true = none
  error_of false = some api_error

  -- A finalizer that is there is removed, and the removal is written.
  abbrev pub remove_finalizer : Bool → K → SourceResource → Reconciler K W → Reconciled
  remove_finalizer false key ts r = (none, r)
  remove_finalizer true key ts r =
      let (stored, w) =
        api.update_source key (api.remove_finalizer ts label_target_source_finalizer) r.world in
      (error_of (is_some stored), with_world w r)

  abbrev pub reconcile_deletion : K → SourceResource → Reconciler K W → Reconciled
  reconcile_deletion key ts r =
      remove_finalizer (api.contains_finalizer ts label_target_source_finalizer) key ts
        (stop_runtime key r)

  abbrev pub add_finalizer : Bool → K → SourceResource → W → Option SourceResource × W
  add_finalizer true key ts w = (some ts, w)
  add_finalizer false key ts w =
      api.update_source key (api.add_finalizer ts label_target_source_finalizer) w

  abbrev pub ensure_finalizer : K → SourceResource → W → Option SourceResource × W
  ensure_finalizer key ts w =
      add_finalizer (api.contains_finalizer ts label_target_source_finalizer) key ts w

  -- The runtime with the context `n` runs when it was registered.
  abbrev pub start_registered :
      K → ℕ → Option RegistryError × Dict K ℕ → Reconciler K W → Reconciled
  start_registered key n (some err, m) r = (some (registry_error err), r)
  start_registered key n (none, m) r = (none, record r { registry = m; live = (key, n) ∷ r.live })

  abbrev pub start_loaded : Bool → K → ℕ → Reconciler K W → Reconciled
  start_loaded false key n r = (some loader_error, cleanup key n r)
  start_loaded true key n r = start_registered key n (register key n r.registry) r

  abbrev pub start_discovery : K → SourceResource → Reconciler K W → Reconciled
  start_discovery key ts r =
      let n = r.next_context in
      let (ok, w) = api.new_loader key ts r.world in
      start_loaded ok key n (record r { world = w; next_context = suc n })

  abbrev pub observe : K → SourceResource → Reconciled → Reconciled
  observe key ts (some err, r) = (some err, r)
  observe key ts (none, r) =
      let seen = record ts { observed_generation = ts.generation } in
      let (ok, w) = api.update_source_status key seen r.world in (error_of ok, with_world w r)

  -- A runtime that runs is stopped when the spec has changed, and left alone otherwise.
  abbrev pub reconcile_running : Bool → Bool → K → SourceResource → Reconciler K W → Reconciled
  reconcile_running true true key ts r = (none, r)
  reconcile_running true false key ts r = reconcile_deletion key ts r
  reconcile_running false same key ts r = observe key ts (start_discovery key ts r)

  abbrev pub reconcile_ensured : K → Option SourceResource × W → Reconciler K W → Reconciled
  reconcile_ensured key (none, w) r = (some api_error, with_world w r)
  reconcile_ensured key (some ts, w) r =
      reconcile_running (exists key r.registry) (ts.generation == ts.observed_generation) key ts
        (with_world w r)

  abbrev pub reconcile_present : Bool → K → SourceResource → Reconciler K W → Reconciled
  reconcile_present true key ts r = reconcile_deletion key ts r
  reconcile_present false key ts r = reconcile_ensured key (ensure_finalizer key ts r.world) r

  abbrev pub reconcile_fetched : K → Fetched SourceResource → Reconciler K W → Reconciled
  reconcile_fetched key not_found r = (none, stop_runtime key r)
  reconcile_fetched key failed r = (some api_error, r)
  reconcile_fetched key (found ts) r = reconcile_present ts.is_deleted key ts r

  unfoldable pub reconcile_source : K → Reconciler K W → Reconciled
  reconcile_source key r =
      let (answer, w) = api.get_source key r.world in reconcile_fetched key answer (with_world w r)
