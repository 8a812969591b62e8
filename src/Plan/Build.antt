-- ===== src/Plan/Build.antt =====
-- Build of internal/gnmic/plan.go: the plan of a cluster from the resources of its pipelines. The
-- relationships that it leaves in the builder are not returned: each reconciliation has a new builder.
use gnmic_operator.Prelude.{
  ℤ, String, Option, none, some, List, [], ◌∷◌, ◌==◌, string_eq, if◌then◌else◌,
}
use gnmic_operator.Prelude.Dict.{Dict, lookup, insert}
use gnmic_operator.Prelude.Text.{◌<>◌, itoa_ℤ}
use gnmic_operator.Resources.{ComponentSpec}
use gnmic_operator.Plan.Outcome.{Outcome, built, failed, panicked, bind, and_then}
use gnmic_operator.Plan.Missing.{add_missing}
use gnmic_operator.Plan.Data.{PipelineData, ResourceRelationship}
use gnmic_operator.Plan.Relations.{collect_relationships, collect_current}
use gnmic_operator.Plan.Any.{Entries, text, put}
use gnmic_operator.Plan.Ports.{
  prometheus_default_port, prometheus_port_pool_size, PortResult, assigned, bad_range,
  no_free_ports, division_by_zero, assign_ports,
}
use gnmic_operator.Plan.Builder.{
  Outside, PlanBuilder, Plan, empty_plan, make_target, make_tunnel, make_subscription, make_output,
  make_input, make_processor,
}

module _ {R V E W : Type 0} where
  unfoldable pub build_targets :
      PlanBuilder R E W
      → ResourceRelationship
      → PipelineData R
      → Plan V
      → W
      → Outcome E (Plan V) × W
  unfolding add_missing make_target
  build_targets b r pd plan w =
      and_then (add_missing (make_target b r pd) pd.targets plan.targets w)
        (λ targets v. (built (record plan { targets = targets }), v))

  unfoldable pub build_subscriptions :
      ResourceRelationship → PipelineData R → Plan V → W → Outcome E (Plan V) × W
  unfolding add_missing make_subscription
  build_subscriptions r pd plan w =
      and_then (add_missing (make_subscription r pd) pd.subscriptions plan.subscriptions w)
        (λ subscriptions v. (built (record plan { subscriptions = subscriptions }), v))

  unfoldable pub build_outputs :
      Outside R V E → ResourceRelationship → PipelineData R → Plan V → W → Outcome E (Plan V) × W
  unfolding add_missing make_output
  build_outputs env r pd plan w =
      and_then (add_missing (make_output env r pd) pd.outputs plan.outputs w)
        (λ outputs v. (built (record plan { outputs = outputs }), v))

  unfoldable pub build_inputs :
      Outside R V E → ResourceRelationship → PipelineData R → Plan V → W → Outcome E (Plan V) × W
  unfolding add_missing make_input
  build_inputs env r pd plan w =
      and_then (add_missing (make_input env r) pd.inputs plan.inputs w)
        (λ inputs v. (built (record plan { inputs = inputs }), v))

  -- First the processors of the outputs, then those of the inputs.
  unfoldable pub build_processors :
      Outside R V E → PipelineData R → Plan V → W → Outcome E (Plan V) × W
  unfolding add_missing make_processor
  build_processors env pd plan w =
      and_then (add_missing (make_processor env) pd.output_processors plan.processors w) (λ first v.
        and_then (add_missing (make_processor env) pd.input_processors first v)
          (λ processors u. (built (record plan { processors = processors }), u)))

  unfoldable pub build_tunnel_target_matches :
      PlanBuilder R E W → PipelineData R → Plan V → W → Outcome E (Plan V) × W
  unfolding add_missing make_tunnel
  build_tunnel_target_matches b pd plan w =
      and_then
        (add_missing (make_tunnel b pd) pd.tunnel_target_policies plan.tunnel_target_matches w)
        (λ matches v. (built (record plan { tunnel_target_matches = matches }), v))

module _ {R : Type 0} where
  unfoldable pub prom_outputs : Dict String (ComponentSpec R) → List String
  prom_outputs [] = []
  prom_outputs ((output_nn, spec) ∷ rest) =
      let later = prom_outputs rest in
      if spec.type == "prometheus" then output_nn ∷ later else later

-- maps.Copy
unfoldable pub copy_ports : Dict String ℤ → Dict String ℤ → Dict String ℤ
copy_ports [] ports = ports
copy_ports ((nn, port) ∷ rest) ports = copy_ports rest (insert nn port ports)

abbrev pub listen_at : {V : Type 0} → ℤ → Entries V → Entries V
listen_at port config = put "listen" (text (":" <> itoa_ℤ port)) config

module _ {V E : Type 0} where
  abbrev set_at :
      String
      → ℤ
      → (Dict String (Entries V) → Outcome E (Dict String (Entries V)))
      → Dict String (Entries V)
      → Option (Entries V)
      → Outcome E (Dict String (Entries V))
  set_at nn port next outputs none = panicked
  set_at nn port next outputs (some config) = next (insert nn (listen_at port config) outputs)

  unfoldable pub set_listen :
      Dict String ℤ → Dict String (Entries V) → Outcome E (Dict String (Entries V))
  unfolding put
  set_listen [] outputs = built outputs
  set_listen ((nn, port) ∷ rest) outputs =
      set_at nn port (set_listen rest) outputs (lookup nn outputs)

module _ {R V E : Type 0} where
  abbrev pub with_ports : Outside R V E → PortResult → Plan V → Outcome E (Plan V)
  with_ports env bad_range plan = failed env.bad_range_size
  with_ports env no_free_ports plan = failed env.no_free_port
  with_ports env division_by_zero plan = panicked
  with_ports env (assigned ports) plan =
      let copied = record plan { prometheus_ports = copy_ports ports plan.prometheus_ports } in
      bind (set_listen ports copied.outputs)
        (λ outputs. built (record copied { outputs = outputs }))

module _ {R V E W : Type 0} where
  unfoldable pub assign_prometheus_output_ports :
      Outside R V E → PipelineData R → Plan V → W → Outcome E (Plan V) × W
  unfolding prom_outputs assign_ports copy_ports set_listen
  assign_prometheus_output_ports env pd plan w =
      let result =
        assign_ports (prom_outputs pd.outputs) prometheus_default_port prometheus_port_pool_size in
      (with_ports env result plan, w)

  unfoldable pub build_pipeline :
      Outside R V E
      → PlanBuilder R E W
      → ResourceRelationship
      → PipelineData R
      → Plan V
      → W
      → Outcome E (Plan V) × W
  unfolding build_targets build_subscriptions build_outputs build_inputs build_processors
      build_tunnel_target_matches assign_prometheus_output_ports
  build_pipeline env b r pd plan w = and_then (build_targets b r pd plan w) (λ p v.
      and_then (build_subscriptions r pd p v) (λ p v. and_then (build_outputs env r pd p v) (λ p v.
        and_then (build_inputs env r pd p v) (λ p v. and_then (build_processors env pd p v) (λ p v.
          and_then (build_tunnel_target_matches b pd p v)
            (λ p v. assign_prometheus_output_ports env pd p v))))))

  unfoldable pub build_pipelines :
      Outside R V E
      → PlanBuilder R E W
      → ResourceRelationship
      → Dict String (PipelineData R)
      → Plan V
      → W
      → Outcome E (Plan V) × W
  unfolding build_pipeline
  build_pipelines env b r [] plan w = (built plan, w)
  build_pipelines env b r ((name, pd) ∷ rest) plan w =
      let next = build_pipelines env b r rest in and_then (build_pipeline env b r pd plan w) next

  -- The plan without targets, with those that the pods have now.
  unfoldable pub start_plan : PlanBuilder R E W → Plan V
  unfolding collect_current
  start_plan b = record empty_plan {
    current_target_assignment = some (collect_current b.cluster_name b.pipelines []);
  }

  unfoldable pub build : Outside R V E → PlanBuilder R E W → W → Outcome E (Plan V) × W
  unfolding build_pipelines start_plan collect_relationships
  build env b w =
      build_pipelines env b (collect_relationships b.pipelines b.relationships) b.pipelines
        (start_plan b) w
