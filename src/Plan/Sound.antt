-- ===== src/Plan/Sound.antt =====
-- What stands in a plan that Build of internal/gnmic/plan.go returns.
use gnmic_operator.Prelude.{
  String, false, Option, none, some, List, [], ◌∷◌, string_eq, contains, ◌≡◌, refl, ap, ◌∙◌, arith,
}
use gnmic_operator.Prelude.Dict.{Dict, lookup}
use gnmic_operator.Resources.{Target, TargetProfileSpec, SubscriptionSpec}
use gnmic_operator.Plan.Outcome.{
  built, After, After-pure, After-built, After-both, and_then-After, After-any,
}
use gnmic_operator.Plan.Missing.{WhenSome, Each, Each-empty, add_missing-Each}
use gnmic_operator.Plan.Data.{PipelineData, ResourceRelationship, no_relationships}
use gnmic_operator.Plan.Relations.{related_to, collect_relationships}
use gnmic_operator.Plan.Related.{
  in_one, sends, collects, collect_relationships-subscription_outputs,
  collect_relationships-target_subscriptions,
}
use gnmic_operator.Plan.Target.{TargetConfig}
use gnmic_operator.Plan.Builder.{
  Outside, PlanBuilder, Plan, Subscribed, make_target, make_target_of, profile_key,
  make_subscription,
}
use gnmic_operator.Plan.Build.{build_pipeline, build_pipelines, start_plan, build}
use gnmic_operator.Plan.Phases.{pipeline-targets, pipeline-subscriptions}

module _ (r : ResourceRelationship) where
  -- The outputs of a subscription are those it is related to.
  abbrev IsRelated : String → Option Subscribed → Type 0
  IsRelated s o =
      (c : Subscribed) × (o ≡ some c) × (c.outputs ≡ related_to s r.subscription_outputs)

  -- The subscriptions of a target are those it is related to.
  abbrev IsCollected : String → Option TargetConfig → Type 0
  IsCollected t o =
      (c : TargetConfig) × (o ≡ some c) × (c.subscriptions ≡ related_to t r.target_subscriptions)

module _ {R V E W : Type 0} (env : Outside R V E) (b : PlanBuilder R E W)
    (r : ResourceRelationship) where
  -- What every pipeline keeps holds after all of them.
  pub build_pipelines-After :
      (Q : Plan V → Type 0)
      → ((pd : PipelineData R) (p : Plan V) (w : W)
          → Q p
          → After Unit Q (build_pipeline env b r pd p w))
      → (ps : Dict String (PipelineData R)) (p : Plan V) (w : W) → Q p
      → After Unit Q (build_pipelines env b r ps p w)
  unfolding build_pipelines
  build_pipelines-After Q h [] p w q = After-pure E Unit Q p w q
  build_pipelines-After Q h ((name, pd) ∷ rest) p w q =
      and_then-After Unit Q Q _ _ (h pd p w q) (build_pipelines-After Q h rest)

  make_subscription-IsRelated :
      (pd : PipelineData R) (s : String) (spec : SubscriptionSpec) (w : W)
      → After {E = E} Unit (WhenSome (IsRelated r s)) (make_subscription r pd s spec w)
  unfolding make_subscription After
  make_subscription-IsRelated pd s spec w = (_, refl, refl)

  make_target-IsCollected :
      (pd : PipelineData R) (t : String) (target : Target) (w : W)
      → After Unit (WhenSome (IsCollected r t)) (make_target b r pd t target w)
  unfolding make_target
  make_target-IsCollected pd t target w =
      go (lookup (profile_key t target.profile) pd.target_profiles)
    where
      go :
          (o : Option TargetProfileSpec)
          → After Unit (WhenSome (IsCollected r t)) (make_target_of b r o t target w)
      go none = After-pure E Unit _ none w tt
      go (some profile) =
          and_then-After Unit (λ c. Unit) _ _ _ (After-any _)
            (λ c v u. After-pure E Unit _ _ v (_, refl, refl))

  build-Each :
      (ps : Dict String (PipelineData R)) (p : Plan V) (w : W)
      → Each (IsRelated r) p.subscriptions × Each (IsCollected r) p.targets
      → After Unit
          (λ q. Each (IsRelated r) q.subscriptions × Each (IsCollected r) q.targets)
          (build_pipelines env b r ps p w)
  build-Each =
      build_pipelines-After
        (λ q. Each (IsRelated r) q.subscriptions × Each (IsCollected r) q.targets)
        (λ pd p w h.
          After-both Unit _ _ _
            (pipeline-subscriptions env b r pd (Each (IsRelated r)) (Each (IsRelated r))
              (add_missing-Each Unit (make_subscription r pd) (IsRelated r)
                (make_subscription-IsRelated pd) pd.subscriptions)
              p w h.0)
            (pipeline-targets env b r pd (Each (IsCollected r)) (Each (IsCollected r))
              (add_missing-Each Unit (make_target b r pd) (IsCollected r)
                (make_target-IsCollected pd) pd.targets)
              p w h.1))

module _ {R V E W : Type 0} (env : Outside R V E) (b : PlanBuilder R E W) where
  abbrev relations : ResourceRelationship
  relations = collect_relationships b.pipelines b.relationships

  abbrev IsSound : Plan V → Type 0
  IsSound plan =
      Each (IsRelated relations) plan.subscriptions × Each (IsCollected relations) plan.targets

  build-IsSound : (w : W) → After Unit IsSound (build env b w)
  unfolding build start_plan
  build-IsSound w =
      build-Each env b relations b.pipelines _ w
        (Each-empty (IsRelated relations), Each-empty (IsCollected relations))

  related_empty :
      (k : String) (d : Dict String (List String)) (x : String)
      → d ≡ []
      → contains (related_to k d) x ≡ false
  unfolding related_to lookup
  related_empty k d x h = rw h refl

  -- In a plan that Build returns, a subscription has a configuration, and it sends to an output exactly
  -- when a pipeline has both. The builder is new: it has related nothing yet.
  pub build-subscriptions :
      (w v : W) (plan : Plan V) (s o : String) (e : Option Subscribed)
      → b.relationships ≡ no_relationships
      → build env b w ≡ (built plan, v)
      → lookup s plan.subscriptions ≡ some e
      → (c : Subscribed) × (e ≡ some c) × (contains c.outputs o ≡ in_one (sends s o) b.pipelines)
  build-subscriptions w v plan s o e new is there =
      let (c, found, outputs) =
        (After-built Unit IsSound _ plan v is (build-IsSound w)).0 s e there in
      (
        c,
        found,
        ap (λ l. contains l o) outputs
            ∙ ground (
              arith,
              collect_relationships-subscription_outputs s o b.pipelines b.relationships,
              related_empty s b.relationships.subscription_outputs o
                  (ap (λ r. r.subscription_outputs) new),
            ),
      )

  -- In a plan that Build returns, a target has a configuration, and it collects a subscription exactly
  -- when a pipeline has both. The builder is new.
  pub build-targets :
      (w v : W) (plan : Plan V) (t s : String) (e : Option TargetConfig)
      → b.relationships ≡ no_relationships
      → build env b w ≡ (built plan, v)
      → lookup t plan.targets ≡ some e
      → (c : TargetConfig) × (e ≡ some c)
        × (contains c.subscriptions s ≡ in_one (collects t s) b.pipelines)
  build-targets w v plan t s e new is there =
      let (c, found, subscriptions) =
        (After-built Unit IsSound _ plan v is (build-IsSound w)).1 t e there in
      (
        c,
        found,
        ap (λ l. contains l s) subscriptions
            ∙ ground (
              arith,
              collect_relationships-target_subscriptions t s b.pipelines b.relationships,
              related_empty t b.relationships.target_subscriptions s
                  (ap (λ r. r.target_subscriptions) new),
            ),
      )
