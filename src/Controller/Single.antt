-- ===== src/Controller/Single.antt =====
-- At most one discovery runtime per TargetSource (internal/controller/targetsource_controller.go).
use gnmic_operator.Prelude.{
  ℕ, Bool, true, false, Option, none, some, List, [], ◌∷◌, ◌≡◌, refl, sym, ap, subst, Eq, ◌==◌,
  nat_eq, if◌then◌else◌, without, arith, nat_beq_iff,
}
use gnmic_operator.Prelude.Dict.{lookup, insert, is_some, lookup-insert, lookup-delete}
use gnmic_operator.Discovery.Client.{Fetched, found, not_found, failed}
use gnmic_operator.Discovery.Registry.{add_new}
use gnmic_operator.Controller.Source.{
  SourceResource, SourceApi, Reconciler, cancel, stop_found, stop_runtime, with_world, Reconciled,
  remove_finalizer, ensure_finalizer, start_registered, start_loaded, start_discovery, observe,
  reconcile_running, reconcile_ensured, reconcile_present, reconcile_fetched, reconcile_source,
}

abbrev pub at_most_one : Option ℕ → List ℕ
at_most_one none = []
at_most_one (some n) = n ∷ []

module _ {ℓ} {K : Type ℓ} ⦃e : Eq K⦄ where
  -- The contexts of the live runtimes of one key.
  abbrev pub contexts_of : K → List (K × ℕ) → List ℕ
  contexts_of key [] = []
  contexts_of key ((k, n) ∷ rest) =
      let others = contexts_of key rest in if k == key then n ∷ others else others

  contexts_of-cancel :
      (key j : K) (n : ℕ) (l : List (K × ℕ))
      → contexts_of j (cancel key n l)
        ≡ (if key == j then without (contexts_of j l) n else contexts_of j l)
  contexts_of-cancel key j n [] = ground arith
  contexts_of-cancel key j n ((k, m) ∷ l) =
      ground
        (arith, contexts_of-cancel key j n l, e.agree_iff k key, e.agree_iff k j, e.agree_iff key j)

-- For each key the live runtimes are exactly the registered one.
abbrev pub IsSingle {ℓ} : {K : Type ℓ} {W : Type 0} ⦃e : Eq K⦄ → Reconciler K W → Type ℓ
IsSingle {K = K} r = (key : K) → contexts_of key r.live ≡ at_most_one (lookup key r.registry)

module _ {ℓ} {K : Type ℓ} {W : Type 0} ⦃e : Eq K⦄ where
  IsSingle-stop_found :
      (o : Option ℕ) (key : K) (r : Reconciler K W)
      → lookup key r.registry ≡ o
      → IsSingle r
      → IsSingle (stop_found o key r)
  IsSingle-stop_found none key r h s = s
  IsSingle-stop_found (some n) key r h s = λ j. ground (
    arith,
    contexts_of-cancel key j n r.live,
    lookup-delete key j r.registry,
    e.agree_iff key j,
    s j,
    ap at_most_one h,
    nat_beq_iff n n,
  )

  pub IsSingle-stop_runtime :
      (key : K) (r : Reconciler K W) → IsSingle r → IsSingle (stop_runtime key r)
  IsSingle-stop_runtime key r s = IsSingle-stop_found (lookup key r.registry) key r refl s

  -- After a stop, the key has no runtime, and the other keys have theirs.
  pub lookup-stop_runtime :
      (key j : K) (r : Reconciler K W)
      → lookup j (stop_runtime key r).registry ≡ (if key == j then none else lookup j r.registry)
  lookup-stop_runtime key j r = by_found (lookup key r.registry) refl
    where
      by_found :
          (o : Option ℕ)
          → lookup key r.registry ≡ o
          → lookup j (stop_found o key r).registry
            ≡ (if key == j then none else lookup j r.registry)
      by_found none h = ground (arith, e.agree_iff key j, h)
      by_found (some n) h = lookup-delete key j r.registry

module _ {ℓ} {K : Type ℓ} {W : Type 0} ⦃e : Eq K⦄ (api : SourceApi K W) where
  IsSingle-remove_finalizer :
      (b : Bool) (key : K) (ts : SourceResource) (r : Reconciler K W)
      → IsSingle r
      → IsSingle (remove_finalizer api b key ts r).1
  IsSingle-remove_finalizer false key ts r s = s
  IsSingle-remove_finalizer true key ts r s = s

  IsSingle-start_loaded :
      (ok : Bool) (key : K) (n : ℕ) (r : Reconciler K W)
      → lookup key r.registry ≡ none
      → IsSingle r
      → IsSingle (start_loaded api ok key n r).1
  IsSingle-start_loaded false key n r h s = λ j. ground (
    arith,
    contexts_of-cancel key j n r.live,
    lookup-delete key j r.registry,
    e.agree_iff key j,
    s j,
    ap at_most_one h,
  )
  IsSingle-start_loaded true key n r h s =
      subst (λ o. IsSingle (start_registered api key n (add_new o key n r.registry) r).1) (sym h)
        added
    where
      added : IsSingle (record r { registry = insert key n r.registry; live = (key, n) ∷ r.live })
      added j =
          ground (arith, lookup-insert key j n r.registry, e.agree_iff key j, s j, ap at_most_one h)

  IsSingle-observe :
      (key : K) (ts : SourceResource) (done : Reconciled api)
      → IsSingle done.1
      → IsSingle (observe api key ts done).1
  IsSingle-observe key ts (some err, r) s = s
  IsSingle-observe key ts (none, r) s = s

  IsSingle-reconcile_running :
      (b same : Bool) (key : K) (ts : SourceResource) (r : Reconciler K W)
      → is_some (lookup key r.registry) ≡ b
      → IsSingle r
      → IsSingle (reconcile_running api b same key ts r).1
  IsSingle-reconcile_running true true key ts r h s = s
  IsSingle-reconcile_running true false key ts r h s =
      IsSingle-remove_finalizer _ key ts (stop_runtime key r) (IsSingle-stop_runtime key r s)
  IsSingle-reconcile_running false same key ts r h s =
      IsSingle-observe key ts (start_discovery api key ts r)
        (IsSingle-start_loaded _ key r.next_context _ (ground arith) s)

  IsSingle-reconcile_ensured :
      (key : K) (o : Option SourceResource × W) (r : Reconciler K W)
      → IsSingle r
      → IsSingle (reconcile_ensured api key o r).1
  IsSingle-reconcile_ensured key (none, w) r s = s
  IsSingle-reconcile_ensured key (some ts, w) r s =
      IsSingle-reconcile_running _ _ key ts (with_world w r) refl s

  IsSingle-reconcile_present :
      (b : Bool) (key : K) (ts : SourceResource) (r : Reconciler K W)
      → IsSingle r
      → IsSingle (reconcile_present api b key ts r).1
  IsSingle-reconcile_present true key ts r s =
      IsSingle-remove_finalizer _ key ts (stop_runtime key r) (IsSingle-stop_runtime key r s)
  IsSingle-reconcile_present false key ts r s =
      IsSingle-reconcile_ensured key (ensure_finalizer api key ts r.world) r s

  IsSingle-reconcile_fetched :
      (key : K) (answer : Fetched SourceResource) (r : Reconciler K W)
      → IsSingle r
      → IsSingle (reconcile_fetched api key answer r).1
  IsSingle-reconcile_fetched key not_found r s = IsSingle-stop_runtime key r s
  IsSingle-reconcile_fetched key failed r s = s
  IsSingle-reconcile_fetched key (found ts) r s =
      IsSingle-reconcile_present ts.is_deleted key ts r s

  -- Whatever the API server answers, a reconciliation keeps that for each key the live runtimes are
  -- exactly the registered one, so that there is at most one.
  pub IsSingle-reconcile_source :
      (key : K) (r : Reconciler K W) → IsSingle r → IsSingle (reconcile_source api key r).1
  unfolding reconcile_source
  IsSingle-reconcile_source key r s =
      IsSingle-reconcile_fetched key (api.get_source key r.world).0
        (with_world (api.get_source key r.world).1 r) s
