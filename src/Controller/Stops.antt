-- ===== src/Controller/Stops.antt =====
-- When a reconciliation of a TargetSource leaves no runtime, and when it leaves one
-- (internal/controller/targetsource_controller.go).
use gnmic_operator.Prelude.{
  ℕ, Bool, true, false, not, ◌||◌, Option, Option-cases, none, some, [], ◌≡◌, refl, sym, ap, subst,
  ◌∙◌, Eq, ◌==◌, nat_eq, if◌then◌else◌, arith, inl, inr,
}
use gnmic_operator.Prelude.Dict.{lookup, is_some, lookup-insert}
use gnmic_operator.Discovery.Client.{Fetched, found, not_found, failed}
use gnmic_operator.Discovery.Registry.{add_new}
use gnmic_operator.Controller.Source.{
  SourceResource, SourceApi, Reconciler, stop_runtime, with_world, Reconciled, remove_finalizer,
  reconcile_deletion, ensure_finalizer, start_registered, start_loaded, start_discovery, observe,
  reconcile_running, reconcile_ensured, reconcile_present, reconcile_fetched, reconcile_source,
}
use gnmic_operator.Controller.Single.{
  IsSingle, contexts_of, at_most_one, lookup-stop_runtime, IsSingle-reconcile_source,
}

-- The source is not there, or is marked for deletion.
abbrev pub is_gone : Fetched SourceResource → Bool
is_gone not_found = true
is_gone failed = false
is_gone (found ts) = ts.is_deleted

module _ {ℓ} {K : Type ℓ} {W : Type 0} ⦃e : Eq K⦄ (api : SourceApi K W) where
  registry-remove_finalizer :
      (b : Bool) (key : K) (ts : SourceResource) (r : Reconciler K W)
      → (remove_finalizer api b key ts r).1.registry ≡ r.registry
  registry-remove_finalizer false key ts r = refl
  registry-remove_finalizer true key ts r = refl

  registry-observe :
      (key : K) (ts : SourceResource) (done : Reconciled api)
      → (observe api key ts done).1.registry ≡ done.1.registry
  registry-observe key ts (some err, r) = refl
  registry-observe key ts (none, r) = refl

  lookup-reconcile_deletion :
      (key j : K) (ts : SourceResource) (r : Reconciler K W)
      → lookup j (reconcile_deletion api key ts r).1.registry
        ≡ (if key == j then none else lookup j r.registry)
  lookup-reconcile_deletion key j ts r =
      ap (lookup j) (registry-remove_finalizer _ key ts (stop_runtime key r))
      ∙ lookup-stop_runtime key j r

  lookup-reconcile_fetched :
      (key j : K) (answer : Fetched SourceResource) (r : Reconciler K W)
      → is_gone answer ≡ true
      → lookup j (reconcile_fetched api key answer r).1.registry
        ≡ (if key == j then none else lookup j r.registry)
  lookup-reconcile_fetched key j not_found r h = lookup-stop_runtime key j r
  lookup-reconcile_fetched key j failed r h = absurd (ground arith)
  lookup-reconcile_fetched key j (found ts) r h =
      subst
        (λ b.
          lookup j (reconcile_present api b key ts r).1.registry
          ≡ (if key == j then none else lookup j r.registry))
        (sym h) (lookup-reconcile_deletion key j ts r)

  -- What the live runtimes are when the registry is known.
  live_as_registered :
      (key j : K) (o : Option ℕ) (r : Reconciler K W)
      → IsSingle r
      → lookup j (reconcile_source api key r).1.registry
        ≡ (if key == j then o else lookup j r.registry)
      → contexts_of j (reconcile_source api key r).1.live
        ≡ (if key == j then at_most_one o else contexts_of j r.live)
  live_as_registered key j o r s h =
      ground (arith, IsSingle-reconcile_source api key r s j, s j, ap at_most_one h)

  -- When the live runtimes are the registered ones and the source is gone or marked for deletion, its
  -- reconciliation leaves it no live runtime and no entry in the registry, whether or not the finalizer
  -- could be removed, and leaves those of the other sources.
  pub reconcile_source_gone :
      (key j : K) (r : Reconciler K W)
      → IsSingle r
      → is_gone (api.get_source key r.world).0 ≡ true
      → (contexts_of j (reconcile_source api key r).1.live
          ≡ (if key == j then [] else contexts_of j r.live))
        × (lookup j (reconcile_source api key r).1.registry
            ≡ (if key == j then none else lookup j r.registry))
  unfolding reconcile_source
  reconcile_source_gone key j r s h = (live_as_registered key j none r s left, left)
    where
      left :
          lookup j (reconcile_source api key r).1.registry
          ≡ (if key == j then none else lookup j r.registry)
      left =
          lookup-reconcile_fetched key j (api.get_source key r.world).0
            (with_world (api.get_source key r.world).1 r) h

  -- The runtime that runs, or a new one.
  abbrev pub kept_or_new : Option ℕ → ℕ → Option ℕ
  kept_or_new none n = some n
  kept_or_new (some m) n = some m

  registered_new :
      (key j : K) (n : ℕ) (r : Reconciler K W) (o : Option ℕ)
      → is_some o ≡ false
      → lookup j (start_registered api key n (add_new o key n r.registry) r).1.registry
        ≡ (if key == j then kept_or_new o n else lookup j r.registry)
  registered_new key j n r (some m) g = absurd (ground arith)
  registered_new key j n r none g = lookup-insert key j n r.registry

  registered_loaded :
      (ok : Bool) (key j : K) (n : ℕ) (r : Reconciler K W)
      → ok ≡ true
      → is_some (lookup key r.registry) ≡ false
      → lookup j (start_loaded api ok key n r).1.registry
        ≡ (if key == j then kept_or_new (lookup key r.registry) n else lookup j r.registry)
  registered_loaded false key j n r h g = absurd (ground arith)
  registered_loaded true key j n r h g = registered_new key j n r (lookup key r.registry) g

  kept_running :
      (key j : K) (n : ℕ) (r : Reconciler K W)
      → is_some (lookup key r.registry) ≡ true
      → lookup j r.registry
        ≡ (if key == j then kept_or_new (lookup key r.registry) n else lookup j r.registry)
  kept_running key j n r h = elim (Option-cases (lookup key r.registry)) [
    | inl none_there ↦ absurd (ground arith)
    | inr (m, there) ↦ rw there (ground (arith, e.agree_iff key j))
  ]

  registered_running :
      (running same : Bool) (key j : K) (ts : SourceResource) (r : Reconciler K W)
      → is_some (lookup key r.registry) ≡ running
      → (not running || same) ≡ true
      → (api.new_loader key ts r.world).0 ≡ true
      → lookup j (reconcile_running api running same key ts r).1.registry ≡ (
          if key == j
          then kept_or_new (lookup key r.registry) r.next_context
          else lookup j r.registry)
  registered_running true true key j ts r h g l = kept_running key j r.next_context r h
  registered_running true false key j ts r h g l = absurd (ground arith)
  registered_running false same key j ts r h g l =
      ap (lookup j) (registry-observe key ts (start_discovery api key ts r))
      ∙ registered_loaded _ key j r.next_context _ l h

  -- When the live runtimes are the registered ones, the source is present, its finalizer is stored, its
  -- loader can be made, and no runtime runs for another generation of it, the reconciliation leaves
  -- exactly one live runtime for the source, the one that ran or else a new one, and leaves those of the
  -- other sources.
  pub reconcile_source_present :
      (key j : K) (r : Reconciler K W) (ts stored : SourceResource) (w w' : W)
      → IsSingle r
      → api.get_source key r.world ≡ (found ts, w)
      → ts.is_deleted ≡ false
      → ensure_finalizer api key ts w ≡ (some stored, w')
      → (api.new_loader key stored w').0 ≡ true
      → (not (is_some (lookup key r.registry)) || stored.generation == stored.observed_generation)
        ≡ true
      → (contexts_of j (reconcile_source api key r).1.live ≡ (
          if key == j
          then at_most_one (kept_or_new (lookup key r.registry) r.next_context)
          else contexts_of j r.live))
        × (lookup j (reconcile_source api key r).1.registry ≡ (
            if key == j
            then kept_or_new (lookup key r.registry) r.next_context
            else lookup j r.registry))
  unfolding reconcile_source
  reconcile_source_present key j r ts stored w w' s got alive ensured loaded current =
      (live_as_registered key j _ r s left, left)
    where
      Leaves : Reconciled api → Type 0
      Leaves done = lookup j done.1.registry ≡ (
          if key == j
          then kept_or_new (lookup key r.registry) r.next_context
          else lookup j r.registry)

      left : Leaves (reconcile_source api key r)
      left =
          subst (λ p. Leaves (reconcile_fetched api key p.0 (with_world p.1 r))) (sym got)
            (subst (λ b. Leaves (reconcile_present api b key ts (with_world w r))) (sym alive)
              (subst (λ p. Leaves (reconcile_ensured api key p (with_world w r))) (sym ensured)
                (registered_running (is_some (lookup key r.registry))
                  (stored.generation == stored.observed_generation) key j stored (with_world w' r)
                  refl current loaded)))
