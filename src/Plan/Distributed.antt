-- ===== src/Plan/Distributed.antt =====
-- Build of internal/gnmic/plan.go and DistributeTargets of distribute.go together.
use gnmic_operator.Prelude.{
  ◌+◌, ℤ, String, true, Option, none, some, [], string_eq, count, distinct, ◌≡◌, refl, ap, ◌∙◌,
}
use gnmic_operator.Prelude.Dict.{Dict, keys, insert, contains-keys, distinct-keys-insert}
use gnmic_operator.Placement.Load.{flat}
use gnmic_operator.Placement.Distribute.{current_of, distribute_targets}
use gnmic_operator.Placement.Partition.{names_of, distribute_targets-IsPartition}
use gnmic_operator.Plan.Outcome.{built, After, After-built, After-map, After-both, After-any}
use gnmic_operator.Plan.Missing.{add_missing, WhenSome, add_missing-After}
use gnmic_operator.Plan.Data.{PipelineData, ResourceRelationship}
use gnmic_operator.Plan.Relations.{collect_relationships, collect_current}
use gnmic_operator.Plan.Related.{in_one}
use gnmic_operator.Plan.Target.{TargetConfig}
use gnmic_operator.Plan.Builder.{Outside, PlanBuilder, Plan, make_target}
use gnmic_operator.Plan.Build.{start_plan, build}
use gnmic_operator.Plan.Phases.{pipeline-targets, pipeline-current}
use gnmic_operator.Plan.Sound.{build_pipelines-After}
use gnmic_operator.Plan.Contents.{has_target, lookup-build_targets}

abbrev DistinctTargets : Dict String (Option TargetConfig) → Type 0
DistinctTargets d = distinct (keys d) ≡ true

module _ {R V E W : Type 0} (env : Outside R V E) (b : PlanBuilder R E W) where
  abbrev IsStart : Plan V → Type 0
  IsStart plan =
      DistinctTargets plan.targets
      × (plan.current_target_assignment ≡ some (collect_current b.cluster_name b.pipelines []))

  each_target :
      (r : ResourceRelationship) (pd : PipelineData R) (d : Dict String (Option TargetConfig))
      (w : W)
      → DistinctTargets d
      → After Unit DistinctTargets (add_missing (make_target b r pd) pd.targets d w)
  each_target r pd d w =
      add_missing-After Unit (make_target b r pd) DistinctTargets
        (λ k a w m new h. After-map Unit (λ o. Unit) _ _ (After-any _) (kept k m h)) pd.targets d w
    where
      kept :
          (k : String) (m : Dict String (Option TargetConfig))
          → DistinctTargets m
          → (o : Option (Option TargetConfig)) → Unit {0}
          → WhenSome (λ c. DistinctTargets (insert k c m)) o
      kept k m h none u = tt
      kept k m h (some c) u = distinct-keys-insert k c m h

  build-IsStart : (w : W) → After Unit IsStart (build env b w)
  unfolding build start_plan
  build-IsStart w =
      let r = collect_relationships b.pipelines b.relationships in
      build_pipelines-After env b r IsStart
        (λ pd p w h.
          After-both Unit _ _ _
            (pipeline-targets env b r pd DistinctTargets DistinctTargets (each_target r pd) p w h.0)
            (pipeline-current env b r pd
              (λ c. c ≡ some (collect_current b.cluster_name b.pipelines [])) p w h.1))
        b.pipelines _ w (refl, refl)

  -- When a pipeline has a target and its profile, and no target is recorded at two pods, the plan that
  -- Build returns is distributed so that the target stands in exactly one place: once in the plan of one
  -- pod, or once among the unassigned targets.
  pub build-distribute_targets :
      (w v : W) (plan : Plan V) (num_pods : ℤ) (distribution : Option ℤ) (t : String)
      → build env b w ≡ (built plan, v)
      → distinct (flat (current_of (some (collect_current b.cluster_name b.pipelines [])))) ≡ true
      → in_one (has_target t) b.pipelines ≡ true
      → count t (names_of (distribute_targets plan num_pods distribution).per_pod_plans)
          + count t (distribute_targets plan num_pods distribution).unassigned_targets
        ≡ 1
  build-distribute_targets w v plan num_pods distribution t is once has =
      let (names, current) = After-built Unit IsStart _ plan v is (build-IsStart w) in
      distribute_targets-IsPartition plan num_pods distribution t names
        (ap (λ c. distinct (flat (current_of c))) current ∙ once)
        (contains-keys t plan.targets ∙ lookup-build_targets env b w v plan t is ∙ has)
