-- ===== src/Plan/Returns.antt =====
-- Build of internal/gnmic/plan.go returns a plan when what it calls works and each pipeline has no more
-- Prometheus outputs than there are ports.
use gnmic_operator.Prelude.{
  ◌≤◌, ℤ, String, true, ◌||◌, [], ◌∷◌, string_eq, contains, distinct, length, ◌≡◌, refl, arith,
  Option-cases, ==_refl, inl, inr,
}
use gnmic_operator.Prelude.Dict.{Dict, keys, lookup, is_some, lookup-insert}
use gnmic_operator.Resources.{ComponentSpec}
use gnmic_operator.Plan.Outcome.{
  built, After, After-pure, After-map, After-all, After-value, and_then-After, bind-After,
}
use gnmic_operator.Plan.Missing.{add_missing, add_missing-wants}
use gnmic_operator.Plan.Data.{PipelineData, ResourceRelationship}
use gnmic_operator.Plan.Relations.{collect_relationships}
use gnmic_operator.Plan.Any.{Entries}
use gnmic_operator.Plan.Assigned.{assign_ports-IsPortMap}
use gnmic_operator.Plan.Builder.{
  Outside, PlanBuilder, Plan, make_target, make_tunnel, make_subscription, make_output, make_input,
  make_processor,
}
use gnmic_operator.Plan.Build.{
  build_targets, build_subscriptions, build_outputs, build_inputs, build_processors,
  build_tunnel_target_matches, prom_outputs, listen_at, set_listen, assign_prometheus_output_ports,
  build_pipeline, build_pipelines, start_plan, build,
}
use gnmic_operator.Plan.Phases.{set-After, build_pipeline-After}
use gnmic_operator.Plan.Contents.{wants_all}
use gnmic_operator.Plan.Succeeds.{
  Made, IsWorking, add_missing-Made, make_target-Made, make_tunnel-Made, make_subscription-Made,
  made_output, make_input-Made, make_processor-Made,
}

module _ {R : Type 0} where
  contains-prom_outputs :
      (d : Dict String (ComponentSpec R)) (x : String)
      → contains (prom_outputs d) x ≡ true
      → contains (keys d) x ≡ true
  unfolding prom_outputs
  contains-prom_outputs [] x h = absurd (ground arith)
  contains-prom_outputs ((k, spec) ∷ d) x h = ground (arith, contains-prom_outputs d x)

  distinct-prom_outputs :
      (d : Dict String (ComponentSpec R))
      → distinct (keys d) ≡ true
      → distinct (prom_outputs d) ≡ true
  unfolding prom_outputs
  distinct-prom_outputs [] h = refl
  distinct-prom_outputs ((k, spec) ∷ d) h =
      ground (arith, distinct-prom_outputs d, contains-prom_outputs d k)

  -- The keys of the outputs are distinct, as in Go, and the Prometheus outputs fit into the pool.
  abbrev pub FitsPool : PipelineData R → Type 0
  FitsPool pd = (distinct (keys pd.outputs) ≡ true) × (length (prom_outputs pd.outputs) ≤ 1009)

  abbrev pub AllFit : Dict String (PipelineData R) → Type 0
  AllFit [] = Unit
  AllFit ((name, pd) ∷ rest) = FitsPool pd × AllFit rest

-- Every port is of an output that has a configuration.
abbrev HasOutputs : {V : Type 0} → Dict String ℤ → Dict String (Entries V) → Type 0
HasOutputs ports outputs =
    (x : String) → contains (keys ports) x ≡ true → is_some (lookup x outputs) ≡ true

set_listen-Made :
    {V W : Type 0} (E : Type 0) (ports : Dict String ℤ) (outputs : Dict String (Entries V)) (w : W)
    → HasOutputs ports outputs
    → Made {E = E} (set_listen ports outputs, w)
unfolding set_listen
set_listen-Made E [] outputs w h = After-pure E ⊥ _ outputs w tt
set_listen-Made E ((nn, port) ∷ rest) outputs w h = elim (Option-cases (lookup nn outputs)) [
  | inl missing ↦ absurd (ground (arith, h nn (ground (arith, ==_refl nn))))
  | inr (c, is) ↦ rw is (
      set_listen-Made E rest _ w
        (λ x m. ground (arith, h x, lookup-insert nn x (listen_at port c) outputs)))
]

module _ {R V E W : Type 0} (env : Outside R V E) (b : PlanBuilder R E W) (h : IsWorking env b)
    (r : ResourceRelationship) where
  -- The outputs of a pipeline stand in the plan.
  abbrev HasOutputsOf : PipelineData R → Dict String (Entries V) → Type 0
  HasOutputsOf pd outputs =
      (x : String)
      → is_some (lookup x outputs) ≡ (contains (keys pd.outputs) x || is_some (lookup x outputs))

  build_outputs-HasOutputs :
      (pd : PipelineData R) (p : Plan V) (w : W)
      → After ⊥ (λ q. HasOutputsOf pd q.outputs) (build_outputs env r pd p w)
  unfolding build_outputs
  build_outputs-HasOutputs pd p w =
      set-After ⊥ (HasOutputsOf pd) _ _ _
        (After-all ⊥
          (λ x m. is_some (lookup x m) ≡ (contains (keys pd.outputs) x || is_some (lookup x m))) ""
          _
          (λ x.
            After-map ⊥ _ _ _
              (add_missing-wants ⊥ (make_output env r pd) (λ k a. true) (made_output env b h r pd) x
                _ pd.outputs p.outputs w refl)
              (λ m e. ground (arith, e, wants_all x pd.outputs))))
        (λ d j. j)

  ports-Made :
      (pd : PipelineData R)
      → FitsPool pd
      → (p : Plan V) (w : W) → HasOutputsOf pd p.outputs
      → Made (assign_prometheus_output_ports env pd p w)
  unfolding assign_prometheus_output_ports
  ports-Made pd (d, fits) p w has =
      let (m, is, map) =
        assign_ports-IsPortMap (prom_outputs pd.outputs) (distinct-prom_outputs pd.outputs d)
          fits in
      rw is (
        bind-After ⊥ (λ c. Unit) _ _ _ w
          (set_listen-Made E m p.outputs w
            (λ x c. ground (arith, map.total x, contains-prom_outputs pd.outputs x, has x)))
          (λ c u. After-pure E ⊥ _ _ w tt))

  build_pipeline-Made :
      (pd : PipelineData R)
      → FitsPool pd
      → (p : Plan V) (w : W) → Made (build_pipeline env b r pd p w)
  unfolding build_targets build_subscriptions build_inputs build_processors
      build_tunnel_target_matches
  build_pipeline-Made pd fits p w =
      let U : Plan V → Type 0 = λ q. Unit in
      let H : Plan V → Type 0 = λ q. HasOutputsOf pd q.outputs in
      build_pipeline-After env b r pd ⊥ U U U H H H H U
        (λ p w u.
          set-After ⊥ (λ d. Unit) U _ _
            (add_missing-Made (make_target b r pd) (make_target-Made env b h r pd) pd.targets
              p.targets w)
            (λ d j. tt))
        (λ p w u.
          set-After ⊥ (λ d. Unit) U _ _
            (add_missing-Made (make_subscription r pd) (make_subscription-Made env b h r pd)
              pd.subscriptions p.subscriptions w)
            (λ d j. tt))
        (λ p w u. build_outputs-HasOutputs pd p w)
        (λ p w j.
          set-After ⊥ (λ d. Unit) H _ _
            (add_missing-Made (make_input env r) (make_input-Made env b h r pd) pd.inputs p.inputs
              w)
            (λ d u. j))
        (λ p w j.
          and_then-After ⊥ (λ d. Unit) H _ _ (processors pd.output_processors p.processors w)
            (λ d v u.
              set-After ⊥ (λ c. Unit) H _ _ (processors pd.input_processors d v) (λ c t. j)))
        (λ p w j.
          set-After ⊥ (λ d. Unit) H _ _
            (add_missing-Made (make_tunnel b pd) (make_tunnel-Made env b h r pd)
              pd.tunnel_target_policies p.tunnel_target_matches w)
            (λ d u. j))
        (λ p w j. ports-Made pd fits p w j) p w tt
    where
      processors :
          (d : Dict String (ComponentSpec R)) (made : Dict String (Entries V)) (w : W)
          → Made (add_missing (make_processor env) d made w)
      processors = add_missing-Made (make_processor env) (make_processor-Made env b h r pd)

  build_pipelines-Made :
      (ps : Dict String (PipelineData R))
      → AllFit ps
      → (p : Plan V) (w : W) → Made (build_pipelines env b r ps p w)
  unfolding build_pipelines
  build_pipelines-Made [] fit p w = After-pure E ⊥ _ p w tt
  build_pipelines-Made ((name, pd) ∷ rest) fit p w =
      and_then-After ⊥ (λ q. Unit) _ _ _ (build_pipeline-Made pd fit.0 p w)
        (λ q v u. build_pipelines-Made rest fit.1 q v)

module _ {R V E W : Type 0} (env : Outside R V E) (b : PlanBuilder R E W) where
  -- Build returns a plan when the credentials are read, the configurations are yaml, and no pipeline has
  -- more Prometheus outputs than the pool has ports.
  pub build-returns :
      IsWorking env b
      → AllFit b.pipelines
      → (w : W) → (plan : Plan V) × (v : W) × (build env b w ≡ (built plan, v))
  unfolding build start_plan
  build-returns h fit w = After-value _ _ (
      build_pipelines-Made env b h (collect_relationships b.pipelines b.relationships) b.pipelines
        fit _ w)
