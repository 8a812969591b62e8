-- ===== src/Plan/Listen.antt =====
-- The ports that the plan of internal/gnmic/plan.go reports are those at which its outputs listen.
use gnmic_operator.Prelude.{
  ℤ, String, false, Option, none, some, [], ◌∷◌, string_eq, ◌==◌, ◌≡◌, arith, Bool-cases,
  Option-cases, inl, inr,
}
use gnmic_operator.Prelude.Dict.{Dict, lookup, insert, is_some, lookup-insert}
use gnmic_operator.Prelude.Text.{◌<>◌, itoa_ℤ}
use gnmic_operator.Plan.Outcome.{
  built, After, After-pure, After-built, After-map, bind-After, After-any, After-failed,
  After-panic,
}
use gnmic_operator.Plan.Missing.{add_missing, WhenSome, add_missing-After}
use gnmic_operator.Plan.Data.{PipelineData, ResourceRelationship}
use gnmic_operator.Plan.Relations.{collect_relationships}
use gnmic_operator.Plan.Any.{Entries, text, get, get-put}
use gnmic_operator.Plan.Ports.{
  PortResult, assigned, bad_range, no_free_ports, division_by_zero, assign_ports,
  prometheus_default_port, prometheus_port_pool_size,
}
use gnmic_operator.Plan.Builder.{Outside, PlanBuilder, Plan, make_output}
use gnmic_operator.Plan.Build.{
  build_outputs, prom_outputs, copy_ports, listen_at, set_listen, with_ports,
  assign_prometheus_output_ports, build_pipeline, start_plan, build,
}
use gnmic_operator.Plan.Phases.{
  set-After, build_pipeline-After, keep_targets, keep_subscriptions, keep_inputs, keep_processors,
  keep_tunnel,
}
use gnmic_operator.Plan.Sound.{build_pipelines-After}

module _ {V : Type 0} where
  -- The configuration of an output that listens at a port.
  abbrev ListensAt : Option (Entries V) → ℤ → Type 0
  ListensAt o port = (c : Entries V) × (o ≡ some c) × (get "listen" c ≡ text (":" <> itoa_ℤ port))

  abbrev IsListening : Dict String ℤ → Dict String (Entries V) → Type 0
  IsListening ports outputs =
      (x : String) (port : ℤ) → lookup x ports ≡ some port → ListensAt (lookup x outputs) port

  -- One output is given a port and its address.
  IsListening-insert :
      (nn : String) (port : ℤ) (c : Entries V) (ports : Dict String ℤ)
      (outputs : Dict String (Entries V))
      → IsListening ports outputs
      → IsListening (insert nn port ports) (insert nn (listen_at port c) outputs)
  IsListening-insert nn port c ports outputs h x q e = elim (Bool-cases (nn == x)) [
    | inl same ↦
        let value : port ≡ q = ground (arith, lookup-insert nn x port ports) in
        (
          listen_at port c,
          ground (arith, lookup-insert nn x (listen_at port c) outputs),
          ground (arith, get-put "listen" "listen" (text (":" <> itoa_ℤ port)) c),
        )
    | inr other ↦
        let (d, there, listens) = h x q (ground (arith, lookup-insert nn x port ports)) in
        (d, ground (arith, lookup-insert nn x (listen_at port c) outputs), listens)
  ]

  -- An output that the plan does not have is added.
  IsListening-new :
      (k : String) (c : Entries V) (ports : Dict String ℤ) (outputs : Dict String (Entries V))
      → is_some (lookup k outputs) ≡ false
      → IsListening ports outputs
      → IsListening ports (insert k c outputs)
  IsListening-new k c ports outputs new h x q e =
      let (d, there, listens) = h x q e in
      (d, ground (arith, lookup-insert k x c outputs, string_eq.agree_iff k x), listens)

  set_listen-IsListening :
      {W : Type 0} (E : Type 0) (m ports : Dict String ℤ) (outputs : Dict String (Entries V))
      (w : W)
      → IsListening ports outputs
      → After {E = E} Unit (IsListening (copy_ports m ports)) (set_listen m outputs, w)
  unfolding set_listen copy_ports
  set_listen-IsListening E [] ports outputs w h = After-pure E Unit _ outputs w h
  set_listen-IsListening E ((nn, port) ∷ rest) ports outputs w h =
      elim (Option-cases (lookup nn outputs)) [
        | inl missing ↦ rw missing (After-panic E _ w)
        | inr (c, is) ↦ rw is (
            set_listen-IsListening E rest (insert nn port ports) _ w
              (IsListening-insert nn port c ports outputs h))
      ]

module _ {R V E W : Type 0} (env : Outside R V E) (b : PlanBuilder R E W) where
  abbrev AllListening : Plan V → Type 0
  AllListening plan = IsListening plan.prometheus_ports plan.outputs

  with_ports-AllListening :
      (result : PortResult) (p : Plan V) (w : W)
      → AllListening p
      → After Unit AllListening (with_ports env result p, w)
  with_ports-AllListening bad_range p w h = After-failed _ _ w
  with_ports-AllListening no_free_ports p w h = After-failed _ _ w
  with_ports-AllListening division_by_zero p w h = After-panic E _ w
  with_ports-AllListening (assigned m) p w h =
      bind-After Unit (IsListening (copy_ports m p.prometheus_ports)) _ _ _ w
        (set_listen-IsListening E m p.prometheus_ports p.outputs w h)
        (λ d i. After-pure E Unit _ _ w i)

  pipeline-AllListening :
      (r : ResourceRelationship) (pd : PipelineData R) (p : Plan V) (w : W)
      → AllListening p
      → After Unit AllListening (build_pipeline env b r pd p w)
  unfolding build_outputs assign_prometheus_output_ports
  pipeline-AllListening r pd =
      let Q : Plan V → Type 0 = AllListening in
      build_pipeline-After env b r pd Unit Q Q Q Q Q Q Q Q
        (λ p w j. keep_targets env b r pd Q p w (λ d. j))
        (λ p w j. keep_subscriptions env b r pd Q p w (λ d. j))
        (λ p w j. set-After Unit (IsListening p.prometheus_ports) Q _ _ (outputs p w j) (λ d i. i))
        (λ p w j. keep_inputs env b r pd Q p w (λ d. j))
        (λ p w j. keep_processors env b r pd Q p w (λ d. j))
        (λ p w j. keep_tunnel env b r pd Q p w (λ d. j))
        (λ p w j.
          with_ports-AllListening
            (assign_ports (prom_outputs pd.outputs) prometheus_default_port
              prometheus_port_pool_size)
            p w j)
    where
      added :
          (ports : Dict String ℤ) (k : String) (m : Dict String (Entries V))
          → is_some (lookup k m) ≡ false
          → IsListening ports m
          → (o : Option (Entries V)) → Unit {0}
          → WhenSome (λ c. IsListening ports (insert k c m)) o
      added ports k m new h none u = tt
      added ports k m new h (some c) u = IsListening-new k c ports m new h

      outputs :
          (p : Plan V) (w : W)
          → AllListening p
          → After Unit
              (IsListening p.prometheus_ports)
              (add_missing (make_output env r pd) pd.outputs p.outputs w)
      outputs p w j =
          add_missing-After Unit (make_output env r pd) (IsListening p.prometheus_ports)
            (λ k a w m new h.
              After-map Unit (λ o. Unit) _ _ (After-any _) (added p.prometheus_ports k m new h))
            pd.outputs p.outputs w j

  -- In a plan that Build returns, an output whose Prometheus port the plan reports is configured to
  -- listen at that port.
  pub build-IsListening :
      (w v : W) (plan : Plan V) (x : String) (port : ℤ)
      → build env b w ≡ (built plan, v)
      → lookup x plan.prometheus_ports ≡ some port
      → ListensAt (lookup x plan.outputs) port
  unfolding build start_plan lookup
  build-IsListening w v plan x port is =
      After-built Unit AllListening _ plan v is
        (build_pipelines-After env b (collect_relationships b.pipelines b.relationships)
          AllListening (pipeline-AllListening (collect_relationships b.pipelines b.relationships))
          b.pipelines _ w (λ x q e. absurd (nothing q e)))
        x port
    where
      nothing : (q : ℤ) → none ≡ some q → ⊥
      nothing q e = ground arith
