-- ===== src/Controller/Tests.antt =====
-- The theorems on the reconciler of TargetSources at concrete inputs.
use gnmic_operator.Prelude.{
  ℕ, Bool, true, false, Option, none, some, [], ◌∷◌, ◌≡◌, refl, ◌==◌, nat_eq, if◌then◌else◌,
}
use gnmic_operator.Prelude.Dict.{lookup, delete}
use gnmic_operator.Discovery.Client.{Fetched, found, not_found}
use gnmic_operator.Controller.Source.{
  SourceResource, SourceApi, Reconciler, reconcile_source, cleanup, label_target_source_finalizer,
}
use gnmic_operator.Controller.Single.{IsSingle, at_most_one, contexts_of, IsSingle-reconcile_source}
use gnmic_operator.Controller.Stops.{reconcile_source_gone, reconcile_source_present}

-- The source was changed after its runtime was started.
abbrev changed : SourceResource
changed = record {
  is_deleted = false;
  generation = 2;
  observed_generation = 1;
  finalizers = label_target_source_finalizer ∷ [];
}

-- The world is what the server stores; the finalizer is there.
abbrev server : SourceApi ℕ (Option SourceResource)
server = record {
  get_source = λ key w. (answer w, w);
  update_source = λ key ts w. (some ts, some ts);
  update_source_status = λ key ts w. (true, some ts);
  contains_finalizer = λ ts f. true;
  add_finalizer = λ ts f. ts;
  remove_finalizer = λ ts f. record ts { finalizers = [] };
  new_loader = λ key ts w. (true, w);
}
  where
    answer : Option SourceResource → Fetched SourceResource
    answer none = not_found
    answer (some ts) = found ts

abbrev running : Reconciler ℕ (Option SourceResource)
running = record {
  registry = (7, 0) ∷ [];
  live = (7, 0) ∷ [];
  next_context = 1;
  world = some changed;
}

running-IsSingle : IsSingle running
unfolding lookup
running-IsSingle key = by_case (7 == key)
  where
    by_case : (b : Bool) → (if b then 0 ∷ [] else []) ≡ at_most_one (if b then some 0 else none)
    by_case true = refl
    by_case false = refl

runtime_example : IsSingle (reconcile_source server 7 running).1
runtime_example = IsSingle-reconcile_source server 7 running running-IsSingle

gone_example :
    (contexts_of 7 (reconcile_source server 7 (record running { world = none })).1.live ≡ [])
    × (lookup 7 (reconcile_source server 7 (record running { world = none })).1.registry ≡ none)
gone_example =
    reconcile_source_gone server 7 7 (record running { world = none }) running-IsSingle refl

-- The runtime of the source was lost with a restart of the operator: a new one is started.
abbrev restarted : Reconciler ℕ (Option SourceResource)
restarted = record { registry = []; live = []; next_context = 3; world = some changed }

restarted-IsSingle : IsSingle restarted
unfolding lookup
restarted-IsSingle key = refl

present_example :
    (contexts_of 7 (reconcile_source server 7 restarted).1.live ≡ 3 ∷ [])
    × (lookup 7 (reconcile_source server 7 restarted).1.registry ≡ some 3)
unfolding lookup
present_example =
    reconcile_source_present server 7 7 restarted changed changed (some changed) (some changed)
      restarted-IsSingle refl refl refl refl refl

-- A runtime of another generation is stopped, and none is started.
changed_stops : (reconcile_source server 7 running).1.live ≡ []
unfolding reconcile_source lookup
changed_stops = refl

-- The old message processor returns after a new runtime was started for the same key: its cleanup
-- unregisters the new runtime, which stays live.
late_exit :
    (cleanup 7 0 (record running { registry = (7, 1) ∷ []; live = (7, 1) ∷ [] })).live ≡ (7, 1) ∷ []
late_exit = refl

late_exit_unregisters :
    lookup 7 (cleanup 7 0 (record running { registry = (7, 1) ∷ []; live = (7, 1) ∷ [] })).registry
    ≡ none
unfolding lookup delete
late_exit_unregisters = refl
