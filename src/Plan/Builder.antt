-- ===== src/Plan/Builder.antt =====
-- The state of PlanBuilder of internal/gnmic/plan.go, and what it makes of one resource. `W` is the world
-- of the API server, which the fetcher of credentials reads; `R` is the type of raw configurations, `V`
-- that of other values in them, `E` that of errors.
use gnmic_operator.Prelude.{
  ℤ, pos, String, Option, none, some, List, [], ◌==◌, string_eq, if◌then◌else◌,
}
use gnmic_operator.Prelude.Dict.{Dict, lookup, insert}
use gnmic_operator.Prelude.Text.{◌<>◌}
use gnmic_operator.Prelude.Parse.{split_nn}
use gnmic_operator.Resources.{
  TargetProfileSpec, Target, SubscriptionSpec, TunnelTargetPolicySpec, ComponentSpec,
}
use gnmic_operator.Placement.Distribute.{TunnelTargetMatch, ApplyPlan}
use gnmic_operator.Plan.Outcome.{Outcome, built, bind, and_then}
use gnmic_operator.Plan.Data.{PipelineData, ResourceRelationship, no_relationships}
use gnmic_operator.Plan.Relations.{related_to}
use gnmic_operator.Plan.Target.{
  Credentials, ClientTlsPaths, TargetConfig, build_target_config, build_tunnel_target_match,
}
use gnmic_operator.Plan.Subscription.{SubscriptionConfig, StreamConfig, build_subscription_config}
use gnmic_operator.Plan.Any.{Entries}
use gnmic_operator.Plan.Component.{
  OutputConfigOptions, build_output_config, build_input_config, build_processor_config,
}

-- FetchCredentials(namespace, secretRef)
abbrev pub CredentialsFetcher : Type 0 → Type 0 → Type 0
CredentialsFetcher E W = String → String → W → Outcome E (Option Credentials) × W

-- yaml.Unmarshal and the errors that the code makes.
pub record Outside (R V E : Type 0) : Type 0 where
  pub unmarshal : R → Outcome E (Entries V)
  pub invalid_processor : E
  pub bad_range_size : E
  pub no_free_port : E

pub record PlanBuilder (R E W : Type 0) : Type 0 where
  pub cluster_name : String
  pub pipelines : Dict String (PipelineData R)
  pub creds_fetcher : Option (CredentialsFetcher E W)
  pub client_tls : Option ClientTlsPaths
  pub relationships : ResourceRelationship
  pub target_distribution_capacity : ℤ

abbrev pub Subscribed : Type 0
Subscribed = SubscriptionConfig (Option StreamConfig)

abbrev pub Plan : Type 0 → Type 0
Plan V = ApplyPlan TargetConfig Subscribed (Entries V)

abbrev pub empty_plan : {V : Type 0} → Plan V
empty_plan = record {
  targets = [];
  current_target_assignment = some [];
  subscriptions = [];
  outputs = [];
  inputs = [];
  processors = [];
  tunnel_target_matches = [];
  prometheus_ports = [];
}

-- The key of the profile that a target or a policy names.
unfoldable pub profile_key : String → String → String
unfolding split_nn
profile_key nn profile = (split_nn nn).0 <> "/" <> profile

abbrev addresses_of : Option (List String) → List String
addresses_of none = []
addresses_of (some addresses) = addresses

module _ {R E W : Type 0} where
  abbrev pub new_plan_builder : String → Option (CredentialsFetcher E W) → PlanBuilder R E W
  new_plan_builder cluster_name creds_fetcher = record {
    cluster_name = cluster_name;
    pipelines = [];
    creds_fetcher = creds_fetcher;
    client_tls = none;
    relationships = no_relationships;
    target_distribution_capacity = pos 0;
  }

  abbrev pub with_client_tls : Option ClientTlsPaths → PlanBuilder R E W → PlanBuilder R E W
  with_client_tls client_tls b = record b { client_tls = client_tls }

  abbrev pub with_target_distribution_capacity : ℤ → PlanBuilder R E W → PlanBuilder R E W
  with_target_distribution_capacity capacity b = record b {
    target_distribution_capacity = capacity;
  }

  abbrev pub add_pipeline : String → PipelineData R → PlanBuilder R E W → PlanBuilder R E W
  add_pipeline name pd b = record b { pipelines = insert name pd b.pipelines }

module _ {E W : Type 0} where
  abbrev pub fetch :
      Option (CredentialsFetcher E W) → String → String → W → Outcome E (Option Credentials) × W
  fetch none namespace secret_ref w = (built none, w)
  fetch (some fetcher) namespace secret_ref w =
      if secret_ref == "" then (built none, w) else fetcher namespace secret_ref w

module _ {R E W : Type 0} where
  abbrev pub make_target_of :
      PlanBuilder R E W
      → ResourceRelationship
      → Option TargetProfileSpec
      → String
      → Target
      → W
      → Outcome E (Option (Option TargetConfig)) × W
  make_target_of b r none target_nn target w = (built none, w)
  make_target_of b r (some profile) target_nn target w =
      and_then (fetch b.creds_fetcher (split_nn target_nn).0 profile.credentials_ref w) (λ creds v.
        let config = build_target_config target profile creds b.client_tls in
        (
          built (
              some (
                some
                  (record config { subscriptions = related_to target_nn r.target_subscriptions }))),
          v,
        ))

  unfoldable pub make_target :
      PlanBuilder R E W
      → ResourceRelationship
      → PipelineData R
      → String
      → Target
      → W
      → Outcome E (Option (Option TargetConfig)) × W
  unfolding build_target_config related_to profile_key
  make_target b r pd target_nn target w =
      make_target_of b r (lookup (profile_key target_nn target.profile) pd.target_profiles)
        target_nn target w

  abbrev pub make_tunnel_of :
      PlanBuilder R E W
      → Option TargetProfileSpec
      → String
      → TunnelTargetPolicySpec
      → W
      → Outcome E (Option (Option (TunnelTargetMatch TargetConfig))) × W
  make_tunnel_of b none policy_nn policy w = (built none, w)
  make_tunnel_of b (some profile) policy_nn policy w =
      and_then (fetch b.creds_fetcher (split_nn policy_nn).0 profile.credentials_ref w) (λ creds v.
        (
          built (some (some (build_tunnel_target_match policy (some profile) creds b.client_tls))),
          v,
        ))

  unfoldable pub make_tunnel :
      PlanBuilder R E W
      → PipelineData R
      → String
      → TunnelTargetPolicySpec
      → W
      → Outcome E (Option (Option (TunnelTargetMatch TargetConfig))) × W
  unfolding build_tunnel_target_match profile_key
  make_tunnel b pd policy_nn policy w =
      make_tunnel_of b (lookup (profile_key policy_nn policy.profile) pd.target_profiles) policy_nn
        policy w

-- A subscription never fails.
module _ {R E W : Type 0} where
  unfoldable pub make_subscription :
      ResourceRelationship
      → PipelineData R
      → String
      → SubscriptionSpec
      → W
      → Outcome E (Option (Option Subscribed)) × W
  unfolding build_subscription_config related_to
  make_subscription r pd sub_nn spec w =
      let outputs = related_to sub_nn r.subscription_outputs in
      (built (some (some (build_subscription_config sub_nn spec outputs pd.subscriptions))), w)

module _ {V E W : Type 0} where
  -- A result in a world that it does not change.
  abbrev pub pure_result : Outcome E (Entries V) → W → Outcome E (Option (Entries V)) × W
  pure_result o w = (bind o (λ c. built (some c)), w)

module _ {R V E W : Type 0} where
  unfoldable pub make_output :
      Outside R V E
      → ResourceRelationship
      → PipelineData R
      → String
      → ComponentSpec R
      → W
      → Outcome E (Option (Entries V)) × W
  unfolding build_output_config related_to
  make_output env r pd output_nn spec w =
      let options : OutputConfigOptions = record {
        processors = related_to output_nn r.output_processors;
        resolved_addresses = addresses_of (lookup output_nn pd.resolved_output_addresses);
      } in
      pure_result (build_output_config env.unmarshal spec options) w

  unfoldable pub make_input :
      Outside R V E
      → ResourceRelationship
      → String
      → ComponentSpec R
      → W
      → Outcome E (Option (Entries V)) × W
  unfolding build_input_config related_to
  make_input env r input_nn spec w =
      pure_result
        (build_input_config env.unmarshal spec (related_to input_nn r.input_outputs)
          (related_to input_nn r.input_processors))
        w

  unfoldable pub make_processor :
      Outside R V E → String → ComponentSpec R → W → Outcome E (Option (Entries V)) × W
  unfolding build_processor_config
  make_processor env processor_nn spec w =
      pure_result (build_processor_config env.unmarshal env.invalid_processor spec) w
