-- ===== src/Plan/Data.antt =====
-- The resources of a pipeline, and how the plan relates them: PipelineData of internal/gnmic/types.go and
-- resourceRelationship of plan.go. A set is a list without repetitions.
use gnmic_operator.Prelude.{String, List, []}
use gnmic_operator.Prelude.Dict.{Dict}
use gnmic_operator.Resources.{
  TargetProfileSpec, Target, SubscriptionSpec, TunnelTargetPolicySpec, ComponentSpec,
}

pub record PipelineData (R : Type 0) : Type 0 where
  pub targets : Dict String Target
  pub target_profiles : Dict String TargetProfileSpec
  pub subscriptions : Dict String SubscriptionSpec
  pub outputs : Dict String (ComponentSpec R)
  pub inputs : Dict String (ComponentSpec R)
  pub output_processors : Dict String (ComponentSpec R)
  pub input_processors : Dict String (ComponentSpec R)
  pub tunnel_target_policies : Dict String TunnelTargetPolicySpec
  pub output_processor_order : List String
  pub input_processor_order : List String
  pub resolved_output_addresses : Dict String (List String)

abbrev pub new_pipeline_data : {R : Type 0} → PipelineData R
new_pipeline_data = record {
  targets = [];
  target_profiles = [];
  subscriptions = [];
  outputs = [];
  inputs = [];
  output_processors = [];
  input_processors = [];
  tunnel_target_policies = [];
  output_processor_order = [];
  input_processor_order = [];
  resolved_output_addresses = [];
}

pub record ResourceRelationship : Type 0 where
  pub subscription_outputs : Dict String (List String)
  pub target_subscriptions : Dict String (List String)
  pub input_outputs : Dict String (List String)
  pub output_processors : Dict String (List String)
  pub input_processors : Dict String (List String)

abbrev pub no_relationships : ResourceRelationship
no_relationships = record {
  subscription_outputs = [];
  target_subscriptions = [];
  input_outputs = [];
  output_processors = [];
  input_processors = [];
}
