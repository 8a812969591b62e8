-- ===== src/Placement/Tests.antt =====
-- The theorems on placement at concrete inputs.
use gnmic_operator.Prelude.{
  ℕ, ◌+◌, ◌*◌, ◌≤◌, ◌<◌, pos, rounds, String, true, some, [], ◌∷◌, ◌≡◌, refl, arith, contains,
  count, distinct, length, nat_eq, string_eq, ◌⊎◌,
}
use gnmic_operator.Prelude.Dict.{Dict, keys, lookup, insert}
use gnmic_operator.Prelude.Sort.{sort_by, insert_by}
use gnmic_operator.Placement.Hash.{hash_score}
use gnmic_operator.Placement.Blrh.{
  PlacementStrategyOpts, bounded_load_hashing, at_pod, pod_scores, first_with_capacity,
  effective_capacity, bounded_rendezvous_hash, bounded_load_rendezvous_hash,
}
use gnmic_operator.Placement.Load.{flat}
use gnmic_operator.Placement.Bound.{IsBounded, bounded_load_rendezvous_hash-IsBounded}
use gnmic_operator.Placement.Once.{placed, bounded_load_rendezvous_hash-IsOnce}
use gnmic_operator.Placement.Complete.{
  IsFull, bounded_load_rendezvous_hash-IsFull, bounded_load_rendezvous_hash-IsComplete,
}
use gnmic_operator.Placement.Stable.{bounded_load_rendezvous_hash-IsStable}
use gnmic_operator.Placement.Distribute.{
  ApplyPlan, current_assignment, current_of, distribute_targets,
}
use gnmic_operator.Placement.Partition.{names_of, distribute_targets-IsPartition}
use gnmic_operator.Placement.Choice.{bounded_rendezvous_hash-IsHighest}

abbrev four : Dict String ℕ
four = ("net/d", 4) ∷ ("net/a", 1) ∷ ("net/c", 3) ∷ ("net/b", 2) ∷ []

-- Two pods; "net/c" already has one.
abbrev options : PlacementStrategyOpts
options = record {
  strategy = bounded_load_hashing;
  num_pods = pos 2;
  capacity = pos 0;
  current_assignment = (1, "net/c" ∷ []) ∷ [];
}

known_c :
    (y : String)
    → contains (flat options.current_assignment) y ≡ true
    → contains (keys four) y ≡ true
known_c y h = ground arith

four_fit : 4 ≤ 2 * rounds (effective_capacity (pos 0) 4 2)
unfolding effective_capacity
four_fit = omega arith

one_fits : 1 ≤ rounds (effective_capacity (pos 0) 4 2)
unfolding effective_capacity
one_fits = omega arith

pod_one : lookup 1 options.current_assignment ≡ some ("net/c" ∷ [])
unfolding lookup
pod_one = refl

nothing_there : length (at_pod 0 []) < 1
unfolding at_pod lookup
nothing_there = omega arith

bounded_example :
    IsBounded (effective_capacity (pos 0) 4 2) 2 (bounded_load_rendezvous_hash four options)
bounded_example = bounded_load_rendezvous_hash-IsBounded four options

once_example :
    (distinct (placed four options) ≡ true)
    × ((x : String)
        → count x (placed four options)
          ≤ count x (flat options.current_assignment) + count x (keys four))
once_example = bounded_load_rendezvous_hash-IsOnce four options refl refl

full_example :
    (contains (placed four options) "net/b" ≡ true)
    ⊎ IsFull (effective_capacity (pos 0) 4 2) 2 (bounded_load_rendezvous_hash four options)
full_example = bounded_load_rendezvous_hash-IsFull four options "net/b" refl

complete_example : contains (placed four options) "net/b" ≡ true
complete_example =
    bounded_load_rendezvous_hash-IsComplete four options "net/b" refl refl known_c four_fit refl

stable_example : contains (at_pod 1 (bounded_load_rendezvous_hash four options)) "net/c" ≡ true
stable_example =
    bounded_load_rendezvous_hash-IsStable four options 1 ("net/c" ∷ []) "net/c" (omega arith) refl
      pod_one (omega arith) one_fits refl

abbrev chosen_pod : ℕ
chosen_pod = 1

chosen_first : bounded_rendezvous_hash "net/a" 2 (pos 1) [] ≡ some chosen_pod
unfolding bounded_rendezvous_hash first_with_capacity sort_by insert_by pod_scores hash_score at_pod
    lookup
chosen_first = refl

highest_example :
    (hash_score "net/a" 0 < hash_score "net/a" chosen_pod)
    ⊎ ((hash_score "net/a" 0 ≡ hash_score "net/a" chosen_pod) × (chosen_pod ≤ 0))
highest_example =
    bounded_rendezvous_hash-IsHighest "net/a" 2 (pos 1) [] chosen_pod 0 chosen_first (omega arith)
      nothing_there

abbrev plan : ApplyPlan ℕ ℕ ℕ
plan = record {
  targets = ("net/d", some 4) ∷ ("net/a", some 1) ∷ ("net/c", some 3) ∷ [];
  current_target_assignment = some ((1, "net/c" ∷ []) ∷ []);
  subscriptions = [];
  outputs = ("net/out", 1) ∷ [];
  inputs = [];
  processors = [];
  tunnel_target_matches = [];
  prometheus_ports = [];
}

once_current : distinct (flat (current_of plan.current_target_assignment)) ≡ true
unfolding current_of current_assignment at_pod lookup insert sort_by insert_by
once_current = refl

-- Two pods with a capacity of one cannot take three targets.
partition_example :
    count "net/d" (names_of (distribute_targets plan (pos 2) (some (pos 1))).per_pod_plans)
      + count "net/d" (distribute_targets plan (pos 2) (some (pos 1))).unassigned_targets
    ≡ 1
partition_example =
    distribute_targets-IsPartition plan (pos 2) (some (pos 1)) "net/d" refl once_current refl
