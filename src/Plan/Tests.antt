-- ===== src/Plan/Tests.antt =====
-- The theorems on the plan at concrete inputs.
use gnmic_operator.Prelude.{
  ℕ, ◌+◌, pos, String, true, false, Option, none, some, [], ◌∷◌, ◌≡◌, refl, arith, contains, count,
  distinct, string_eq, ◌==◌, Bool-cases, inl, inr,
}
use gnmic_operator.Prelude.Dict.{Dict, lookup, insert, is_some}
use gnmic_operator.Prelude.Sort.{sort_by}
use gnmic_operator.Prelude.Text.{◌<>◌, itoa_ℤ}
use gnmic_operator.Prelude.Parse.{parse_int, after_last}
use gnmic_operator.Placement.Hash.{hash32}
use gnmic_operator.Placement.Blrh.{at_pod}
use gnmic_operator.Plan.Missing.{wants}
use gnmic_operator.Resources.{TargetProfileSpec, Target, SubscriptionSpec, ComponentSpec}
use gnmic_operator.Placement.Distribute.{current_of, distribute_targets}
use gnmic_operator.Placement.Load.{flat}
use gnmic_operator.Placement.Partition.{names_of}
use gnmic_operator.Plan.Outcome.{Outcome, built, failed, panicked, After, After-pure, and_then}
use gnmic_operator.Plan.Data.{PipelineData, new_pipeline_data, no_relationships}
use gnmic_operator.Plan.Relations.{related_to, collect_relationships, collect_current}
use gnmic_operator.Plan.Related.{in_one, sends, collects}
use gnmic_operator.Plan.Target.{Credentials, TargetConfig}
use gnmic_operator.Plan.Any.{Entries, no_entries, text, get}
use gnmic_operator.Plan.Builder.{
  Outside, PlanBuilder, Plan, Subscribed, empty_plan, new_plan_builder, add_pipeline, fetch,
  profile_key,
}
use gnmic_operator.Plan.Build.{prom_outputs, build}
use gnmic_operator.Plan.Sound.{build-subscriptions, build-targets}
use gnmic_operator.Plan.Contents.{has_target, lookup-build_targets}
use gnmic_operator.Plan.Distributed.{build-distribute_targets}
use gnmic_operator.Plan.Succeeds.{IsWorking}
use gnmic_operator.Plan.Returns.{AllFit, build-returns}
use gnmic_operator.Plan.Listen.{build-IsListening}

abbrev profile : TargetProfileSpec
profile = record {
  credentials_ref = "login";
  tls = none;
  timeout = pos 10000000000;
  retry_timer = pos 2000000000;
  encoding = "JSON_IETF";
  tcp_keep_alive = none;
  grpc_keep_alive = none;
}

abbrev router : Target
router = record {
  namespace = "net";
  name = "r1";
  address = "10.0.0.1:57400";
  profile = "p";
  cluster_pods = ("c1", "gnmic-c1-1") ∷ [];
}

abbrev subscription : SubscriptionSpec
subscription = record {
  prefix = "";
  target = "";
  paths = "/interfaces" ∷ [];
  mode = "STREAM/SAMPLE";
  sample_interval = pos 10;
  heartbeat_interval = pos 0;
  updates_only = false;
  stream_subscriptions = [];
  depth = 0;
  encoding = "";
  qos = none;
  history = none;
}

-- Raw configurations are numbers; each is read as an empty map.
abbrev exporter : ComponentSpec ℕ
exporter = record { type = "prometheus"; config = some 0 }

abbrev first : PipelineData ℕ
first = record new_pipeline_data {
  targets = ("net/r1", router) ∷ [];
  target_profiles = ("net/p", profile) ∷ [];
  subscriptions = ("net/s1", subscription) ∷ [];
  outputs = ("net/o1", exporter) ∷ [];
  output_processors = ("net/x", record { type = "event-drop"; config = none }) ∷ [];
}

-- The same output, another subscription, and the same processor.
abbrev second : PipelineData ℕ
second = record new_pipeline_data {
  subscriptions = ("net/s2", subscription) ∷ [];
  outputs = ("net/o1", exporter) ∷ [];
  output_processors = ("net/x", record { type = "event-drop"; config = none }) ∷ [];
}

abbrev env : Outside ℕ ℕ ℕ
env = record {
  unmarshal = λ raw. built no_entries;
  invalid_processor = 1;
  bad_range_size = 2;
  no_free_port = 3;
}

-- The world counts the calls.
abbrev fetcher : String → String → ℕ → Outcome ℕ (Option Credentials) × ℕ
fetcher namespace secret_ref calls =
    (built (some (record { username = "admin"; password = "admin"; token = "" })), calls + 1)

abbrev builder : PlanBuilder ℕ ℕ ℕ
builder =
    add_pipeline "net/b" second (add_pipeline "net/a" first (new_plan_builder "c1" (some fetcher)))

abbrev plan_of : Outcome ℕ (Plan ℕ) × ℕ → Plan ℕ
plan_of (built plan, calls) = plan
plan_of (failed e, calls) = empty_plan
plan_of (panicked, calls) = empty_plan

unfoldable plan : Plan ℕ
unfolding build
plan = plan_of (build env builder 0)

-- The credentials of one target are fetched.
built_plan : build env builder 0 ≡ (built plan, 1)
unfolding plan build and_then insert lookup sort_by
built_plan = refl

abbrev or_nil : {A : Type 0} → Option (Option A) → Option A
or_nil none = none
or_nil (some a) = a

subscription_there :
    lookup "net/s2" plan.subscriptions ≡ some (or_nil (lookup "net/s2" plan.subscriptions))
unfolding plan build and_then insert lookup sort_by
subscription_there = refl

build-subscriptions_example :
    (c : Subscribed) × (or_nil (lookup "net/s2" plan.subscriptions) ≡ some c)
    × (contains c.outputs "net/o1" ≡ in_one (sends "net/s2" "net/o1") builder.pipelines)
build-subscriptions_example =
    build-subscriptions env builder 0 1 plan "net/s2" "net/o1"
      (or_nil (lookup "net/s2" plan.subscriptions)) refl built_plan subscription_there

target_there : lookup "net/r1" plan.targets ≡ some (or_nil (lookup "net/r1" plan.targets))
unfolding plan build and_then insert lookup sort_by
target_there = refl

-- The target does not collect the subscription of the other pipeline.
build-targets_example :
    (c : TargetConfig) × (or_nil (lookup "net/r1" plan.targets) ≡ some c)
    × (contains c.subscriptions "net/s2" ≡ in_one (collects "net/r1" "net/s2") builder.pipelines)
build-targets_example =
    build-targets env builder 0 1 plan "net/r1" "net/s2" (or_nil (lookup "net/r1" plan.targets))
      refl built_plan target_there

lookup-build_targets_example :
    is_some (lookup "net/r1" plan.targets) ≡ in_one (has_target "net/r1") builder.pipelines
lookup-build_targets_example = lookup-build_targets env builder 0 1 plan "net/r1" built_plan

once_at_pods :
    distinct (flat (current_of (some (collect_current builder.cluster_name builder.pipelines []))))
    ≡ true
unfolding collect_current current_of insert lookup sort_by parse_int after_last at_pod
once_at_pods = refl

in_first : in_one (has_target "net/r1") builder.pipelines ≡ true
unfolding wants insert lookup profile_key
in_first = refl

build-distribute_targets_example :
    count "net/r1" (names_of (distribute_targets plan (pos 3) none).per_pod_plans)
      + count "net/r1" (distribute_targets plan (pos 3) none).unassigned_targets
    ≡ 1
build-distribute_targets_example =
    build-distribute_targets env builder 0 1 plan (pos 3) none "net/r1" built_plan once_at_pods
      in_first

working : IsWorking env builder
working = record { fetches = fetches; parses = λ raw. (no_entries, refl) }
  where
    fetches :
        (namespace secret_ref : String) (w : ℕ)
        → After {E = ℕ} ⊥ (λ c. Unit {0}) (fetch (some fetcher) namespace secret_ref w)
    fetches namespace secret_ref w = elim (Bool-cases (secret_ref == "")) [
      | inl empty ↦ rw empty (After-pure ℕ ⊥ (λ c. Unit {0}) _ w tt)
      | inr named ↦ rw named (After-pure ℕ ⊥ (λ c. Unit {0}) _ (w + 1) tt)
    ]

all_fit : AllFit builder.pipelines
unfolding prom_outputs insert
all_fit = ((refl, omega arith), ((refl, omega arith), tt))

build-returns_example : (p : Plan ℕ) × (v : ℕ) × (build env builder 0 ≡ (built p, v))
build-returns_example = build-returns env builder working all_fit 0

port_there : lookup "net/o1" plan.prometheus_ports ≡ some (pos 9814)
unfolding plan build and_then insert lookup sort_by hash32
port_there = refl

build-IsListening_example :
    (c : Entries ℕ) × (lookup "net/o1" plan.outputs ≡ some c)
    × (get "listen" c ≡ text (":" <> itoa_ℤ (pos 9814)))
build-IsListening_example =
    build-IsListening env builder 0 1 plan "net/o1" (pos 9814) built_plan port_there

-- The other pipeline does not have the output of the first one.
abbrev lone : Dict String (PipelineData ℕ)
lone = ("net/z", record second { outputs = [] }) ∷ []

-- The output is given the processor of both pipelines, so it has it twice.
twice :
    related_to "net/o1" (collect_relationships builder.pipelines no_relationships).output_processors
    ≡ "net/x" ∷ "net/x" ∷ []
unfolding related_to collect_relationships insert lookup
twice = refl
