-- ===== src/Plan/Succeeds.antt =====
-- What Build of internal/gnmic/plan.go makes of one resource is no error when what it calls works.
use gnmic_operator.Prelude.{String, true, Option, none, some, string_eq, ◌≡◌, refl, sym, subst}
use gnmic_operator.Prelude.Dict.{Dict, lookup, is_some}
use gnmic_operator.Resources.{
  Target, TargetProfileSpec, SubscriptionSpec, TunnelTargetPolicySpec, ComponentSpec,
}
use gnmic_operator.Plan.Outcome.{
  Outcome, built, After, After-pure, After-map, and_then-After, bind-After,
}
use gnmic_operator.Plan.Missing.{add_missing, WhenSome, add_missing-After}
use gnmic_operator.Plan.Data.{PipelineData, ResourceRelationship}
use gnmic_operator.Plan.Any.{Entries}
use gnmic_operator.Plan.Component.{
  read_config, build_output_config, build_input_config, build_processor_config,
}
use gnmic_operator.Plan.Builder.{
  Outside, PlanBuilder, fetch, profile_key, make_target, make_target_of, make_tunnel,
  make_tunnel_of, make_subscription, make_output, make_input, make_processor,
}

abbrev pub Made : {E W A : Type 0} → Outcome E A × W → Type 0
Made r = After ⊥ (λ a. Unit) r

module _ {E W A B : Type 0} (make : String → A → W → Outcome E (Option B) × W) where
  pub add_missing-Made :
      ((k : String) (a : A) (w : W) → Made (make k a w))
      → (d : Dict String A) (made : Dict String B) (w : W) → Made (add_missing make d made w)
  add_missing-Made step d made w =
      add_missing-After ⊥ make (λ m. Unit)
        (λ k a w m new u. After-map ⊥ (λ o. Unit) _ _ (step k a w) (λ o u. unit o)) d made w tt
    where
      unit : (o : Option B) → WhenSome (λ c. Unit {0}) o
      unit none = tt
      unit (some c) = tt

module _ {R V E W : Type 0} (env : Outside R V E) (b : PlanBuilder R E W) where
  -- What the calls promise: the credentials are read, and the configurations are yaml.
  pub record IsWorking : Type 0 where
    pub fetches :
        (namespace secret_ref : String) (w : W)
        → Made (fetch b.creds_fetcher namespace secret_ref w)
    pub parses : (raw : R) → (config : Entries V) × (env.unmarshal raw ≡ built config)

module _ {R V E W : Type 0} (env : Outside R V E) (b : PlanBuilder R E W) (h : IsWorking env b)
    (r : ResourceRelationship) (pd : PipelineData R) where
  pub make_target-Made :
      (t : String) (target : Target) (w : W) → Made (make_target b r pd t target w)
  unfolding make_target
  make_target-Made t target w = go (lookup (profile_key t target.profile) pd.target_profiles)
    where
      go : (o : Option TargetProfileSpec) → Made (make_target_of b r o t target w)
      go none = After-pure E ⊥ _ none w tt
      go (some profile) =
          and_then-After ⊥ (λ c. Unit) _ _ _ (h.fetches _ _ w) (λ c v u. After-pure E ⊥ _ _ v tt)

  pub make_tunnel-Made :
      (t : String) (policy : TunnelTargetPolicySpec) (w : W) → Made (make_tunnel b pd t policy w)
  unfolding make_tunnel
  make_tunnel-Made t policy w = go (lookup (profile_key t policy.profile) pd.target_profiles)
    where
      go : (o : Option TargetProfileSpec) → Made (make_tunnel_of b o t policy w)
      go none = After-pure E ⊥ _ none w tt
      go (some profile) =
          and_then-After ⊥ (λ c. Unit) _ _ _ (h.fetches _ _ w) (λ c v u. After-pure E ⊥ _ _ v tt)

  pub make_subscription-Made :
      (s : String) (spec : SubscriptionSpec) (w : W)
      → Made {E = E} (make_subscription r pd s spec w)
  unfolding make_subscription
  make_subscription-Made s spec w = After-pure E ⊥ _ _ w tt

  read-Made : (config : Option R) (w : W) → Made (read_config env.unmarshal config, w)
  read-Made none w = After-pure E ⊥ _ _ w tt
  read-Made (some raw) w =
      let (config, is) = h.parses raw in
      subst (λ o. Made (o, w)) (sym is) (After-pure E ⊥ _ config w tt)

  pub made_output :
      (s : String) (spec : ComponentSpec R) (w : W)
      → After ⊥ (λ o. is_some o ≡ true) (make_output env r pd s spec w)
  unfolding make_output build_output_config
  made_output s spec w =
      bind-After ⊥ (λ c. Unit) _ _ _ w
        (bind-After ⊥ (λ c. Unit) _ _ _ w (read-Made spec.config w)
          (λ c u. After-pure E ⊥ _ _ w tt))
        (λ c u. After-pure E ⊥ _ _ w refl)

  pub make_input-Made :
      (s : String) (spec : ComponentSpec R) (w : W) → Made (make_input env r s spec w)
  unfolding make_input build_input_config
  make_input-Made s spec w =
      bind-After ⊥ (λ c. Unit) _ _ _ w
        (bind-After ⊥ (λ c. Unit) _ _ _ w (read-Made spec.config w)
          (λ c u. After-pure E ⊥ _ _ w tt))
        (λ c u. After-pure E ⊥ _ _ w tt)

  pub make_processor-Made :
      (s : String) (spec : ComponentSpec R) (w : W) → Made (make_processor env s spec w)
  unfolding make_processor build_processor_config
  make_processor-Made s spec w =
      bind-After ⊥ (λ c. Unit) _ _ _ w
        (bind-After ⊥ (λ c. Unit) _ _ _ w (read-Made spec.config w)
          (λ c u. After-pure E ⊥ _ _ w tt))
        (λ c u. After-pure E ⊥ _ _ w tt)
