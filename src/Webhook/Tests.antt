-- ===== src/Webhook/Tests.antt =====
-- The theorems on the validators at concrete inputs.
use gnmic_operator.Prelude.{pos, true, false, none, some, [], ◌∷◌, ◌≡◌, ◌≢◌, ◌⊎◌, refl}
use gnmic_operator.Resources.{
  HistoryConfig, SubscriptionSpec, TargetProfileSpec, ApiConfig, ClusterSpec,
}
use gnmic_operator.Prelude.{not, ◌&&◌, ◌==◌, string_eq}
use gnmic_operator.Prelude.Parse.{cut}
use gnmic_operator.Resources.{Target}
use gnmic_operator.Webhook.Target.{is_host_port, validate_target_spec, validate_target_spec_lem}
use gnmic_operator.Webhook.Errors.{is_admitted, has_prefix}
use gnmic_operator.Webhook.Cluster.{validate_cluster_spec}
use gnmic_operator.Webhook.Subscription.{validate_subscription_spec}
use gnmic_operator.Webhook.Pipeline.{PipelineSpec, validate_pipeline_spec}
use gnmic_operator.Webhook.Accepts.{
  InRange, is_connected, validate_cluster_spec-InRange, validate_pipeline_spec_lem,
}
use gnmic_operator.Webhook.Usable.{validate_subscription_spec_lem}

abbrev api : ApiConfig
api = record { rest_port = pos 7890; gnmi_port = pos 9339; tls = none }

abbrev cluster : ClusterSpec
cluster = record {
  image = "gnmic";
  replicas = some (pos 3);
  api = some api;
  client_tls = none;
  grpc_tunnel = none;
}

cluster_admitted : is_admitted (validate_cluster_spec cluster) ≡ true
unfolding validate_cluster_spec
cluster_admitted = refl

cluster_example :
    InRange api.rest_port
    × ((api.gnmi_port ≡ pos 0) ⊎ (InRange api.gnmi_port × (api.gnmi_port ≢ api.rest_port)))
cluster_example = validate_cluster_spec-InRange cluster api refl cluster_admitted

-- No end is set.
abbrev history : HistoryConfig
history = record { snapshot = 0; start = 20; end = 0 }

abbrev subscription : SubscriptionSpec
subscription = record {
  prefix = "";
  target = "";
  paths = "/interfaces" ∷ [];
  mode = "STREAM/SAMPLE";
  sample_interval = pos 10;
  heartbeat_interval = pos 0;
  updates_only = false;
  stream_subscriptions = [];
  depth = 0;
  encoding = "";
  qos = none;
  history = some history;
}

subscription_example : is_admitted (validate_subscription_spec subscription) ≡ true
unfolding has_prefix
subscription_example = validate_subscription_spec_lem subscription refl

-- A history whose start is before its end is rejected, and the reverse is admitted.
history_reversed :
    (is_admitted (
        validate_subscription_spec
          (record subscription { history = some (record { snapshot = 0; start = 10; end = 20 }) }))
      ≡ false)
    × (is_admitted (
          validate_subscription_spec (record subscription {
            history = some (record { snapshot = 0; start = 20; end = 10 });
          }))
        ≡ true)
unfolding validate_subscription_spec
history_reversed = (refl, refl)

-- Only inputs, and no subscription.
abbrev pipeline : PipelineSpec
pipeline = record {
  cluster_ref = "net/c1";
  target_selectors = 0;
  target_refs = 0;
  tunnel_target_policy_selectors = 0;
  tunnel_target_policy_refs = 0;
  subscription_selectors = 0;
  subscription_refs = 0;
  output_selectors = 1;
  output_refs = 0;
  input_selectors = 0;
  input_refs = 2;
}

pipeline_example : is_admitted (validate_pipeline_spec pipeline) ≡ is_connected pipeline
pipeline_example = validate_pipeline_spec_lem pipeline

abbrev profile : TargetProfileSpec
profile = record {
  credentials_ref = "";
  timeout = pos 10000000000;
  retry_timer = pos 2000000000;
  encoding = "JSON_IETF";
  tls = none;
  tcp_keep_alive = none;
  grpc_keep_alive = none;
}

abbrev router : Target
router = record {
  namespace = "net";
  name = "r1";
  address = "10.0.0.1:57400";
  profile = "p";
  cluster_pods = [];
}

target_example : is_admitted (validate_target_spec (cut 58) router) ≡ (
    not (router.address == "")
    && (is_host_port (cut 58 router.address) && not (router.profile == "")))
target_example = validate_target_spec_lem (cut 58) router
