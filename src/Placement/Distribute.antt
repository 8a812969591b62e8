-- ===== src/Placement/Distribute.antt =====
-- internal/gnmic/distribute.go: the targets of a plan distributed over the pods. The configurations
-- come from packages that are not part of the repository: T is a target's, S a subscription's, B that of an
-- output, input or processor. A target's configuration is a pointer, so `none` is nil.
use gnmic_operator.Prelude.{
  ℕ, ℤ, pos, nonpos_ℤ, String, Option, none, some, List, [], ◌∷◌, ◌++◌, nat_eq, string_eq,
  if◌then◌else◌, contains,
}
use gnmic_operator.Prelude.Dict.{Dict, keys, lookup, insert}
use gnmic_operator.Prelude.Sort.{sort_by}
use gnmic_operator.Prelude.Text.{str_ltb}
use gnmic_operator.Placement.Blrh.{
  Assignment, PlacementStrategyType, bounded_load_hashing, unset, PlacementStrategyOpts, at_pod,
  blrh_distribute_targets,
}

pub record TunnelTargetMatch (T : Type 0) : Type 0 where
  pub type : String
  pub id : String
  pub config : Option T

pub record ApplyPlan (T S B : Type 0) : Type 0 where
  pub targets : Dict String (Option T)
  pub current_target_assignment : Option (Dict ℕ (List String))
  pub subscriptions : Dict String (Option S)
  pub outputs : Dict String B
  pub inputs : Dict String B
  pub processors : Dict String B
  pub tunnel_target_matches : Dict String (Option (TunnelTargetMatch T))
  pub prometheus_ports : Dict String ℤ

pub record DistributeResult (T S B : Type 0) : Type 0 where
  pub per_pod_plans : Dict ℕ (ApplyPlan T S B)
  pub unassigned_targets : List String

-- plan.Targets[t], nil for a missing key
abbrev pub or_nil_config : {T : Type 0} → Option (Option T) → Option T
or_nil_config none = none
or_nil_config (some c) = c

-- The entry of a pod without a target is not made.
abbrev pub add_current : ℕ → List String → Assignment → Assignment
add_current p [] a = a
add_current p (t ∷ ts) a = insert p (sort_by str_ltb (at_pod p a ++ t ∷ ts)) a

unfoldable pub current_assignment : Dict ℕ (List String) → Assignment → Assignment
current_assignment [] a = a
current_assignment ((p, ts) ∷ rest) a = current_assignment rest (add_current p ts a)

unfoldable pub current_of : Option (Dict ℕ (List String)) → Assignment
unfolding current_assignment
current_of none = []
current_of (some c) = current_assignment c []

abbrev pub capacity_of : Option ℤ → ℤ
capacity_of none = pos 0
capacity_of (some pod_capacity) = pod_capacity

-- The `New` of placement.go: both cases give the same strategy.
abbrev pub new_placement :
    PlacementStrategyType → {T : Type 0} → Dict String T → Option PlacementStrategyOpts → Assignment
new_placement bounded_load_hashing = blrh_distribute_targets
new_placement unset = blrh_distribute_targets

-- The names that are recorded as assigned.
abbrev pub assigned_names : Assignment → List String
assigned_names [] = []
assigned_names ((p, ts) ∷ rest) = ts ++ assigned_names rest

unfoldable pub not_assigned : List String → List String → List String
not_assigned assigned [] = []
not_assigned assigned (t ∷ ts) =
    let rest = not_assigned assigned ts in if contains assigned t then rest else t ∷ rest

module _ {T S B : Type 0} where
  abbrev pub placement_options : ApplyPlan T S B → ℤ → Option ℤ → PlacementStrategyOpts
  placement_options plan num_pods distribution = record {
    strategy = unset;
    num_pods = if nonpos_ℤ num_pods then pos 1 else num_pods;
    capacity = capacity_of distribution;
    current_assignment = current_of plan.current_target_assignment;
  }

  unfoldable pub pick_targets :
      ApplyPlan T S B → List String → Dict String (Option T) → Dict String (Option T)
  pick_targets plan [] acc = acc
  pick_targets plan (t ∷ ts) acc =
      pick_targets plan ts (insert t (or_nil_config (lookup t plan.targets)) acc)

  unfoldable pub pod_plan : ApplyPlan T S B → List String → ApplyPlan T S B
  unfolding pick_targets
  pod_plan plan ts = record {
    targets = pick_targets plan ts [];
    current_target_assignment = none;
    subscriptions = plan.subscriptions;
    outputs = plan.outputs;
    inputs = plan.inputs;
    processors = plan.processors;
    tunnel_target_matches = plan.tunnel_target_matches;
    prometheus_ports = [];
  }

  unfoldable pub pod_plans :
      ApplyPlan T S B → Assignment → Dict ℕ (ApplyPlan T S B) → Dict ℕ (ApplyPlan T S B)
  unfolding pod_plan
  pod_plans plan [] result = result
  pod_plans plan ((p, ts) ∷ rest) result = pod_plans plan rest (insert p (pod_plan plan ts) result)

  unfoldable pub distribute_targets : ApplyPlan T S B → ℤ → Option ℤ → DistributeResult T S B
  unfolding pod_plans not_assigned
  distribute_targets plan num_pods distribution =
      let a =
        new_placement bounded_load_hashing plan.targets
          (some (placement_options plan num_pods distribution)) in
      record {
        per_pod_plans = pod_plans plan a [];
        unassigned_targets = sort_by str_ltb (not_assigned (assigned_names a) (keys plan.targets));
      }
