-- ===== src/Plan/Phases.antt =====
-- What one pipeline leaves in each part of the plan (build_pipeline): the other phases keep it.
use gnmic_operator.Prelude.{ℕ, ℤ, String, Option, List}
use gnmic_operator.Prelude.Dict.{Dict}
use gnmic_operator.Placement.Distribute.{TunnelTargetMatch}
use gnmic_operator.Plan.Outcome.{
  Outcome, built, and_then, After, and_then-After, After-any, After-pure, bind-After,
}
use gnmic_operator.Plan.Missing.{add_missing}
use gnmic_operator.Plan.Data.{PipelineData, ResourceRelationship}
use gnmic_operator.Plan.Target.{TargetConfig}
use gnmic_operator.Plan.Any.{Entries}
use gnmic_operator.Plan.Ports.{
  PortResult, assigned, bad_range, no_free_ports, division_by_zero, assign_ports,
  prometheus_default_port, prometheus_port_pool_size,
}
use gnmic_operator.Plan.Builder.{
  Outside, PlanBuilder, Plan, Subscribed, make_target, make_subscription, make_input,
}
use gnmic_operator.Plan.Build.{
  build_targets, build_subscriptions, build_outputs, build_inputs, build_processors,
  build_tunnel_target_matches, prom_outputs, copy_ports, set_listen, with_ports,
  assign_prometheus_output_ports, build_pipeline,
}

module _ {E W D A : Type 0} (F : Type 0) (J : D → Type 0) (Q : A → Type 0) (set : D → A) where
  pub set-After :
      (r : Outcome E D × W)
      → After F J r
      → ((d : D) → J d → Q (set d))
      → After F Q (and_then r (λ d v. (built (set d), v)))
  set-After r h g =
      and_then-After F J Q r (λ d v. (built (set d), v)) h
        (λ d v j. After-pure E F Q (set d) v (g d j))

module _ {R V E : Type 0} (env : Outside R V E) where
  with_ports-After :
      {W : Type 0} (result : PortResult) (p : Plan V) (w : W) (Q : Plan V → Type 0)
      → ((d : Dict String (Entries V)) (ports : Dict String ℤ)
          → Q (record p { outputs = d; prometheus_ports = ports }))
      → After Unit Q (with_ports env result p, w)
  unfolding After
  with_ports-After bad_range p w Q h = tt
  with_ports-After no_free_ports p w Q h = tt
  with_ports-After division_by_zero p w Q h = tt
  with_ports-After (assigned ports) p w Q h =
      bind-After Unit (λ d. Unit) Q (set_listen ports p.outputs) _ w (After-any _)
        (λ d u. h d (copy_ports ports p.prometheus_ports))

module _ {R V E W : Type 0} (env : Outside R V E) (b : PlanBuilder R E W) (r : ResourceRelationship)
    (pd : PipelineData R) (Q : Plan V → Type 0) (p : Plan V) (w : W) where
  pub keep_targets :
      ((d : Dict String (Option TargetConfig)) → Q (record p { targets = d }))
      → After Unit Q (build_targets b r pd p w)
  unfolding build_targets
  keep_targets h = set-After Unit (λ d. Unit) Q _ _ (After-any _) (λ d u. h d)

  pub keep_subscriptions :
      ((d : Dict String (Option Subscribed)) → Q (record p { subscriptions = d }))
      → After {E = E} Unit Q (build_subscriptions r pd p w)
  unfolding build_subscriptions
  keep_subscriptions h = set-After Unit (λ d. Unit) Q _ _ (After-any _) (λ d u. h d)

  pub keep_outputs :
      ((d : Dict String (Entries V)) → Q (record p { outputs = d }))
      → After Unit Q (build_outputs env r pd p w)
  unfolding build_outputs
  keep_outputs h = set-After Unit (λ d. Unit) Q _ _ (After-any _) (λ d u. h d)

  pub keep_inputs :
      ((d : Dict String (Entries V)) → Q (record p { inputs = d }))
      → After Unit Q (build_inputs env r pd p w)
  unfolding build_inputs
  keep_inputs h = set-After Unit (λ d. Unit) Q _ _ (After-any _) (λ d u. h d)

  pub keep_tunnel :
      ((d : Dict String (Option (TunnelTargetMatch TargetConfig)))
        → Q (record p { tunnel_target_matches = d }))
      → After Unit Q (build_tunnel_target_matches b pd p w)
  unfolding build_tunnel_target_matches
  keep_tunnel h = set-After Unit (λ d. Unit) Q _ _ (After-any _) (λ d u. h d)

  pub keep_processors :
      ((d : Dict String (Entries V)) → Q (record p { processors = d }))
      → After Unit Q (build_processors env pd p w)
  unfolding build_processors
  keep_processors h =
      and_then-After Unit (λ d. Unit) Q _ _ (After-any _)
        (λ d v u. set-After Unit (λ c. Unit) Q _ _ (After-any _) (λ c t. h c))

  pub keep_ports :
      ((d : Dict String (Entries V)) (ports : Dict String ℤ)
        → Q (record p { outputs = d; prometheus_ports = ports }))
      → After Unit Q (assign_prometheus_output_ports env pd p w)
  unfolding assign_prometheus_output_ports
  keep_ports h =
      go (assign_ports (prom_outputs pd.outputs) prometheus_default_port prometheus_port_pool_size)
    where
      go : (result : PortResult) → After Unit Q (with_ports env result p, w)
      go result = with_ports-After env result p w Q h

module _ {R V E W : Type 0} (env : Outside R V E) (b : PlanBuilder R E W) (r : ResourceRelationship)
    (pd : PipelineData R) where
  -- A plan that has a predicate is led through the seven phases.
  pub build_pipeline-After :
      (F : Type 0) (Q₀ Q₁ Q₂ Q₃ Q₄ Q₅ Q₆ Q₇ : Plan V → Type 0)
      → ((p : Plan V) (w : W) → Q₀ p → After F Q₁ (build_targets b r pd p w))
      → ((p : Plan V) (w : W) → Q₁ p → After {E = E} F Q₂ (build_subscriptions r pd p w))
      → ((p : Plan V) (w : W) → Q₂ p → After F Q₃ (build_outputs env r pd p w))
      → ((p : Plan V) (w : W) → Q₃ p → After F Q₄ (build_inputs env r pd p w))
      → ((p : Plan V) (w : W) → Q₄ p → After F Q₅ (build_processors env pd p w))
      → ((p : Plan V) (w : W) → Q₅ p → After F Q₆ (build_tunnel_target_matches b pd p w))
      → ((p : Plan V) (w : W) → Q₆ p → After F Q₇ (assign_prometheus_output_ports env pd p w))
      → (p : Plan V) (w : W) → Q₀ p
      → After F Q₇ (build_pipeline env b r pd p w)
  unfolding build_pipeline
  build_pipeline-After F Q₀ Q₁ Q₂ Q₃ Q₄ Q₅ Q₆ Q₇ h₁ h₂ h₃ h₄ h₅ h₆ h₇ p w q =
      and_then-After F Q₁ Q₇ _ _ (h₁ p w q) (λ p w q.
        and_then-After F Q₂ Q₇ _ _ (h₂ p w q) (λ p w q.
          and_then-After F Q₃ Q₇ _ _ (h₃ p w q) (λ p w q.
            and_then-After F Q₄ Q₇ _ _ (h₄ p w q) (λ p w q.
              and_then-After F Q₅ Q₇ _ _ (h₅ p w q)
                (λ p w q. and_then-After F Q₆ Q₇ _ _ (h₆ p w q) h₇)))))

  -- What the phase of the targets leaves, the others keep.
  pub pipeline-targets :
      (I J : Dict String (Option TargetConfig) → Type 0)
      → ((d : Dict String (Option TargetConfig)) (w : W)
          → I d
          → After Unit J (add_missing (make_target b r pd) pd.targets d w))
      → (p : Plan V) (w : W) → I p.targets
      → After Unit (λ q. J q.targets) (build_pipeline env b r pd p w)
  unfolding build_targets
  pipeline-targets I J h =
      let Q : Plan V → Type 0 = λ q. J q.targets in
      build_pipeline-After Unit (λ q. I q.targets) Q Q Q Q Q Q Q
        (λ p w i. set-After Unit J Q _ _ (h p.targets w i) (λ d j. j))
        (λ p w j. keep_subscriptions env b r pd Q p w (λ d. j))
        (λ p w j. keep_outputs env b r pd Q p w (λ d. j))
        (λ p w j. keep_inputs env b r pd Q p w (λ d. j))
        (λ p w j. keep_processors env b r pd Q p w (λ d. j))
        (λ p w j. keep_tunnel env b r pd Q p w (λ d. j))
        (λ p w j. keep_ports env b r pd Q p w (λ d ports. j))

  pub pipeline-subscriptions :
      (I J : Dict String (Option Subscribed) → Type 0)
      → ((d : Dict String (Option Subscribed)) (w : W)
          → I d
          → After {E = E} Unit J (add_missing (make_subscription r pd) pd.subscriptions d w))
      → (p : Plan V) (w : W) → I p.subscriptions
      → After Unit (λ q. J q.subscriptions) (build_pipeline env b r pd p w)
  unfolding build_subscriptions
  pipeline-subscriptions I J h =
      let Q : Plan V → Type 0 = λ q. J q.subscriptions in
      let P : Plan V → Type 0 = λ q. I q.subscriptions in
      build_pipeline-After Unit P P Q Q Q Q Q Q (λ p w i. keep_targets env b r pd P p w (λ d. i))
        (λ p w i. set-After Unit J Q _ _ (h p.subscriptions w i) (λ d j. j))
        (λ p w j. keep_outputs env b r pd Q p w (λ d. j))
        (λ p w j. keep_inputs env b r pd Q p w (λ d. j))
        (λ p w j. keep_processors env b r pd Q p w (λ d. j))
        (λ p w j. keep_tunnel env b r pd Q p w (λ d. j))
        (λ p w j. keep_ports env b r pd Q p w (λ d ports. j))

  pub pipeline-inputs :
      (I J : Dict String (Entries V) → Type 0)
      → ((d : Dict String (Entries V)) (w : W)
          → I d
          → After Unit J (add_missing (make_input env r) pd.inputs d w))
      → (p : Plan V) (w : W) → I p.inputs
      → After Unit (λ q. J q.inputs) (build_pipeline env b r pd p w)
  unfolding build_inputs
  pipeline-inputs I J h =
      let Q : Plan V → Type 0 = λ q. J q.inputs in
      let P : Plan V → Type 0 = λ q. I q.inputs in
      build_pipeline-After Unit P P P P Q Q Q Q (λ p w i. keep_targets env b r pd P p w (λ d. i))
        (λ p w i. keep_subscriptions env b r pd P p w (λ d. i))
        (λ p w i. keep_outputs env b r pd P p w (λ d. i))
        (λ p w i. set-After Unit J Q _ _ (h p.inputs w i) (λ d j. j))
        (λ p w j. keep_processors env b r pd Q p w (λ d. j))
        (λ p w j. keep_tunnel env b r pd Q p w (λ d. j))
        (λ p w j. keep_ports env b r pd Q p w (λ d ports. j))

  -- No phase writes the current assignment.
  pub pipeline-current :
      (J : Option (Dict ℕ (List String)) → Type 0) (p : Plan V) (w : W)
      → J p.current_target_assignment
      → After Unit (λ q. J q.current_target_assignment) (build_pipeline env b r pd p w)
  pipeline-current J =
      let Q : Plan V → Type 0 = λ q. J q.current_target_assignment in
      build_pipeline-After Unit Q Q Q Q Q Q Q Q (λ p w j. keep_targets env b r pd Q p w (λ d. j))
        (λ p w j. keep_subscriptions env b r pd Q p w (λ d. j))
        (λ p w j. keep_outputs env b r pd Q p w (λ d. j))
        (λ p w j. keep_inputs env b r pd Q p w (λ d. j))
        (λ p w j. keep_processors env b r pd Q p w (λ d. j))
        (λ p w j. keep_tunnel env b r pd Q p w (λ d. j))
        (λ p w j. keep_ports env b r pd Q p w (λ d ports. j))
