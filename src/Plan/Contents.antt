-- ===== src/Plan/Contents.antt =====
-- Which targets and subscriptions stand in a plan that Build of internal/gnmic/plan.go returns.
use gnmic_operator.Prelude.{
  String, Bool, true, ◌||◌, Option, none, some, [], ◌∷◌, string_eq, contains, ◌≡◌, refl, arith,
}
use gnmic_operator.Prelude.Dict.{Dict, keys, lookup, is_some}
use gnmic_operator.Resources.{Target, TargetProfileSpec, SubscriptionSpec}
use gnmic_operator.Plan.Outcome.{
  built, After, After-pure, After-built, After-map, and_then-After, After-any,
}
use gnmic_operator.Plan.Missing.{wants, add_missing-wants}
use gnmic_operator.Plan.Data.{PipelineData, ResourceRelationship}
use gnmic_operator.Plan.Relations.{collect_relationships}
use gnmic_operator.Plan.Related.{in_one}
use gnmic_operator.Plan.Builder.{
  Outside, PlanBuilder, Plan, profile_key, make_target, make_target_of, make_subscription,
}
use gnmic_operator.Plan.Build.{build_pipelines, start_plan, build}
use gnmic_operator.Plan.Phases.{pipeline-targets, pipeline-subscriptions}

pub wants_all :
    {A : Type 0} (j : String) (d : Dict String A) → wants (λ k a. true) j d ≡ contains (keys d) j
unfolding wants
wants_all j [] = refl
wants_all j ((k, a) ∷ d) = ground (arith, wants_all j d)

module _ {R : Type 0} where
  -- The profile that the target names stands in the pipeline.
  abbrev pub has_profile : PipelineData R → String → Target → Bool
  has_profile pd t target = is_some (lookup (profile_key t target.profile) pd.target_profiles)

  abbrev pub has_target : String → PipelineData R → Bool
  has_target t pd = wants (has_profile pd) t pd.targets

  abbrev pub has_subscription : String → PipelineData R → Bool
  has_subscription s pd = contains (keys pd.subscriptions) s

module _ {R V E W : Type 0} (env : Outside R V E) (b : PlanBuilder R E W)
    (r : ResourceRelationship) where
  made_subscription :
      (pd : PipelineData R) (s : String) (spec : SubscriptionSpec) (w : W)
      → After {E = E} Unit (λ o. is_some o ≡ true) (make_subscription r pd s spec w)
  unfolding make_subscription After
  made_subscription pd s spec w = refl

  made_target :
      (pd : PipelineData R) (t : String) (target : Target) (w : W)
      → After Unit (λ o. is_some o ≡ has_profile pd t target) (make_target b r pd t target w)
  unfolding make_target
  made_target pd t target w = go (lookup (profile_key t target.profile) pd.target_profiles)
    where
      go :
          (o : Option TargetProfileSpec)
          → After Unit (λ m. is_some m ≡ is_some o) (make_target_of b r o t target w)
      go none = After-pure E Unit _ none w refl
      go (some profile) =
          and_then-After Unit (λ c. Unit) _ _ _ (After-any _)
            (λ c v u. After-pure E Unit _ _ v refl)

  pipelines-subscriptions :
      (s : String) (t : Bool) (ps : Dict String (PipelineData R)) (p : Plan V) (w : W)
      → (is_some (lookup s p.subscriptions) || in_one (has_subscription s) ps) ≡ t
      → After Unit (λ q. is_some (lookup s q.subscriptions) ≡ t) (build_pipelines env b r ps p w)
  unfolding build_pipelines
  pipelines-subscriptions s t [] p w h = After-pure E Unit _ p w (ground arith)
  pipelines-subscriptions s t ((name, pd) ∷ rest) p w h =
      let later = in_one (has_subscription s) rest in
      and_then-After Unit (λ q. (is_some (lookup s q.subscriptions) || later) ≡ t) _ _ _
        (pipeline-subscriptions env b r pd
          (λ d. (is_some (lookup s d) || (has_subscription s pd || later)) ≡ t)
          (λ d. (is_some (lookup s d) || later) ≡ t)
          (λ d v e.
            After-map Unit _ _ _
              (add_missing-wants Unit (make_subscription r pd) (λ k a. true) (made_subscription pd)
                s _ pd.subscriptions d v refl)
              (λ m g. ground (arith, wants_all s pd.subscriptions)))
          p w h)
        (pipelines-subscriptions s t rest)

  pipelines-targets :
      (s : String) (t : Bool) (ps : Dict String (PipelineData R)) (p : Plan V) (w : W)
      → (is_some (lookup s p.targets) || in_one (has_target s) ps) ≡ t
      → After Unit (λ q. is_some (lookup s q.targets) ≡ t) (build_pipelines env b r ps p w)
  unfolding build_pipelines
  pipelines-targets s t [] p w h = After-pure E Unit _ p w (ground arith)
  pipelines-targets s t ((name, pd) ∷ rest) p w h =
      let later = in_one (has_target s) rest in
      and_then-After Unit (λ q. (is_some (lookup s q.targets) || later) ≡ t) _ _ _
        (pipeline-targets env b r pd (λ d. (is_some (lookup s d) || (has_target s pd || later)) ≡ t)
          (λ d. (is_some (lookup s d) || later) ≡ t)
          (λ d v e.
            After-map Unit _ _ _
              (add_missing-wants Unit (make_target b r pd) (has_profile pd) (made_target pd) s _
                pd.targets d v refl)
              (λ m g. ground arith))
          p w h)
        (pipelines-targets s t rest)

module _ {R V E W : Type 0} (env : Outside R V E) (b : PlanBuilder R E W) where
  -- A plan that Build returns has exactly the subscriptions of its pipelines.
  pub lookup-build_subscriptions :
      (w v : W) (plan : Plan V) (s : String)
      → build env b w ≡ (built plan, v)
      → is_some (lookup s plan.subscriptions) ≡ in_one (has_subscription s) b.pipelines
  unfolding build start_plan lookup
  lookup-build_subscriptions w v plan s is =
      let r = collect_relationships b.pipelines b.relationships in
      After-built Unit _ _ plan v is
        (pipelines-subscriptions env b r s _ b.pipelines (start_plan b) w refl)

  -- A plan that Build returns has exactly the targets of its pipelines whose profile the pipeline has.
  pub lookup-build_targets :
      (w v : W) (plan : Plan V) (t : String)
      → build env b w ≡ (built plan, v)
      → is_some (lookup t plan.targets) ≡ in_one (has_target t) b.pipelines
  unfolding build start_plan lookup
  lookup-build_targets w v plan t is =
      let r = collect_relationships b.pipelines b.relationships in
      After-built Unit _ _ plan v is
        (pipelines-targets env b r t _ b.pipelines (start_plan b) w refl)
