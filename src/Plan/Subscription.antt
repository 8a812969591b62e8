-- ===== src/Plan/Subscription.antt =====
-- The configuration of gnmic for a subscription: internal/gnmic/subscription.go. SubscriptionConfig has
-- the fields of gnmic's that it sets. A list of outputs that is nil is empty.
use gnmic_operator.Prelude.{
  ℕ, zero, suc, ℤ, pos, negsuc, String, Bool, Option, none, some, List, [], ◌∷◌, map, ◌==◌,
  string_eq, if◌then◌else◌,
}
use gnmic_operator.Prelude.Dict.{Dict, lookup}
use gnmic_operator.Prelude.Parse.{cut}
use gnmic_operator.Resources.{HistoryConfig, SubscriptionSpec}

-- The configuration of a subscription, and that of one of its stream subscriptions, which has none of
-- its own: `nested` is the type of those.
pub record SubscriptionConfig (nested : Type 0) : Type 0 where
  pub name : String
  pub prefix : String
  pub target : String
  pub paths : List String
  pub mode : String
  pub stream_mode : String
  pub encoding : Option String
  pub sample_interval : Option ℤ
  pub heartbeat_interval : Option ℤ
  pub updates_only : Bool
  pub depth : ℕ
  pub qos : Option ℕ
  pub history : Option HistoryConfig
  pub outputs : List String
  pub stream_subscriptions : List nested

abbrev parts : String → Option (String × String) → String × String
parts mode none = (mode, "")
parts mode (some p) = p

-- "STREAM/SAMPLE" is cut at the first slash.
unfoldable pub spec_mode_to_config : String → String × String
spec_mode_to_config mode = parts mode (cut 47 mode)

abbrev positive : ℤ → Option ℤ
positive (pos zero) = none
positive (pos (suc n)) = some (pos (suc n))
positive (negsuc n) = none

-- Everything but the stream subscriptions.
abbrev pub plain_config :
    {A : Type 0} → String → SubscriptionSpec → List String → List A → SubscriptionConfig A
plain_config sub_nn spec outputs streams = record {
  name = sub_nn;
  prefix = spec.prefix;
  target = spec.target;
  paths = spec.paths;
  mode = (spec_mode_to_config spec.mode).0;
  stream_mode = (spec_mode_to_config spec.mode).1;
  encoding = if spec.encoding == "" then none else some spec.encoding;
  sample_interval = positive spec.sample_interval;
  heartbeat_interval = positive spec.heartbeat_interval;
  updates_only = spec.updates_only;
  depth = spec.depth;
  qos = spec.qos;
  history = spec.history;
  outputs = outputs;
  stream_subscriptions = streams;
}

-- A stream subscription that no subscription of the pipeline defines stays nil; its own stream
-- subscriptions are looked up in no map, and all stay nil.
abbrev pub StreamConfig : Type 0
StreamConfig = SubscriptionConfig (Option ⊥)

abbrev build_stream : String → Option SubscriptionSpec → Option StreamConfig
build_stream sub_nn none = none
build_stream sub_nn (some spec) =
    some (plain_config sub_nn spec [] (map (λ s. none) spec.stream_subscriptions))

abbrev pub stream_configs : Dict String SubscriptionSpec → List String → List (Option StreamConfig)
stream_configs all_subs [] = []
stream_configs all_subs (s ∷ ss) = build_stream s (lookup s all_subs) ∷ stream_configs all_subs ss

unfoldable pub build_subscription_config :
    String
    → SubscriptionSpec
    → List String
    → Dict String SubscriptionSpec
    → SubscriptionConfig (Option StreamConfig)
build_subscription_config sub_nn spec outputs all_subs =
    plain_config sub_nn spec outputs (stream_configs all_subs spec.stream_subscriptions)
