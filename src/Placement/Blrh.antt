-- ===== src/Placement/Blrh.antt =====
-- internal/gnmic/placement.go and placement_blrh.go: rendezvous hashing with a bound on the load of
-- each pod. A map is an association list, whose order stands for the order of Go's iteration. Pod
-- indices are the natural numbers that the plan builder records; names are namespace/name texts.
use gnmic_operator.Prelude.{
  ℕ, zero, suc, ◌+◌, ◌-◌, ◌/◌, ℤ, pos, negsuc, geb_ℤ, nonpos_ℤ, eqb_ℤ, String, Bool, true, false,
  Option, none, some, List, [], ◌∷◌, ◌++◌, ltb, leb, nat_beq, nat_eq, string_eq, if◌then◌else◌,
  contains, length,
}
use gnmic_operator.Prelude.Dict.{Dict, keys, lookup, insert}
use gnmic_operator.Prelude.Sort.{sort_by}
use gnmic_operator.Prelude.Text.{str_ltb}
use gnmic_operator.Placement.Hash.{hash_score}

-- map[int][]string
abbrev pub Assignment : Type 0
Assignment = Dict ℕ (List String)

pub data PlacementStrategyType : Type 0 where
  bounded_load_hashing unset : PlacementStrategyType

pub record PlacementStrategyOpts : Type 0 where
  pub strategy : PlacementStrategyType
  pub num_pods : ℤ
  pub capacity : ℤ
  pub current_assignment : Assignment

pub record PodScore : Type 0 where
  pub index : ℕ
  pub score : ℕ

-- The targets of a pod; nil for a missing key.
abbrev pub or_nil : Option (List String) → List String
or_nil none = []
or_nil (some l) = l

unfoldable pub at_pod : ℕ → Assignment → List String
at_pod p a = or_nil (lookup p a)

unfoldable pub normalize_options : Option PlacementStrategyOpts → PlacementStrategyOpts
normalize_options none = record {
  strategy = bounded_load_hashing;
  num_pods = pos 1;
  capacity = pos 0;
  current_assignment = [];
}
normalize_options (some n) = if nonpos_ℤ n.num_pods then record n { num_pods = pos 1 } else n

-- scores[i] for i in range numPods
unfoldable pub pod_scores : String → ℕ → ℕ → List PodScore
pod_scores target_nn i zero = []
pod_scores target_nn i (suc n) =
    record { index = i; score = hash_score target_nn i } ∷ pod_scores target_nn (suc i) n

-- The order of the scores: the highest first, the lowest index among equals.
abbrev pub score_before : PodScore → PodScore → Bool
score_before a b = if nat_beq a.score b.score then ltb a.index b.index else ltb b.score a.score

unfoldable pub first_with_capacity : ℤ → Assignment → List PodScore → Option ℕ
first_with_capacity capacity assignments [] = none
first_with_capacity capacity assignments (ps ∷ rest) =
    let later = first_with_capacity capacity assignments rest in
    if geb_ℤ (length (at_pod ps.index assignments)) capacity then later else some ps.index

unfoldable pub bounded_rendezvous_hash : String → ℕ → ℤ → Assignment → Option ℕ
unfolding first_with_capacity
bounded_rendezvous_hash target_nn num_pods capacity assignments =
    first_with_capacity capacity assignments
      (sort_by score_before (pod_scores target_nn 0 num_pods))

-- assignments[podIndex] = append(assignments[podIndex], targetNN)
abbrev pub append_to : ℕ → String → Assignment → Assignment
append_to p t a = insert p (at_pod p a ++ t ∷ []) a

-- The assignments so far, and the targets that keep their pod.
pub record Kept : Type 0 where
  pub assignments : Assignment
  pub pre_assigned : List String

-- One target of the current assignment: kept while its pod has room. A pod with a current target
-- has an entry, even when it keeps none.
abbrev pub touch : ℕ → Assignment → Assignment
touch p a = insert p (at_pod p a) a

abbrev pub keep_one : Bool → ℕ → String → Kept → Kept
keep_one true p t k = record k { assignments = touch p k.assignments }
keep_one false p t k = record {
  assignments = append_to p t (touch p k.assignments);
  pre_assigned = t ∷ k.pre_assigned;
}

unfoldable pub keep_targets : ℤ → ℕ → List String → Kept → Kept
keep_targets capacity p [] k = k
keep_targets capacity p (t ∷ rest) k =
    let full = geb_ℤ (length (at_pod p (touch p k.assignments))) capacity in
    keep_targets capacity p rest (keep_one full p t k)

-- Targets with a higher hash for their pod come first.
abbrev pub by_hash : ℕ → String → String → Bool
by_hash p s t = ltb (hash_score t p) (hash_score s p)

-- The targets of a pod index that does not exist any more are not kept.
abbrev pub keep_pod : Bool → ℤ → ℕ → List String → Kept → Kept
keep_pod true capacity p targets k = k
keep_pod false capacity p targets k = keep_targets capacity p (sort_by (by_hash p) targets) k

unfoldable pub keep_current : ℤ → ℕ → Assignment → Kept → Kept
keep_current capacity num_pods [] k = k
keep_current capacity num_pods ((p, targets) ∷ rest) k =
    keep_current capacity num_pods rest (keep_pod (leb num_pods p) capacity p targets k)

abbrev pub assign_to : Option ℕ → String → Assignment → Assignment
assign_to none t a = a
assign_to (some p) t a = append_to p t a

-- A target that kept its pod is not assigned again.
abbrev pub assign_one : Bool → ℤ → ℕ → String → Assignment → Assignment
assign_one true capacity num_pods t a = a
assign_one false capacity num_pods t a =
    assign_to (bounded_rendezvous_hash t num_pods capacity a) t a

unfoldable pub assign_targets : ℤ → ℕ → List String → List String → Assignment → Assignment
assign_targets capacity num_pods pre [] a = a
assign_targets capacity num_pods pre (t ∷ ts) a =
    assign_targets capacity num_pods pre ts (assign_one (contains pre t) capacity num_pods t a)

-- ceil(numTargets / numPods) when no capacity is given
unfoldable pub effective_capacity : ℤ → ℕ → ℕ → ℤ
effective_capacity capacity num_targets num_pods =
    if eqb_ℤ capacity (pos 0) then pos ((num_targets + num_pods - 1) / num_pods) else capacity

abbrev pub to_count : ℤ → ℕ
to_count (pos n) = n
to_count (negsuc _) = 0

unfoldable pub kept_current : ℤ → ℕ → Assignment → Kept
unfolding keep_current
kept_current capacity num_pods current =
    keep_current capacity num_pods current (record { assignments = []; pre_assigned = [] })

-- The body for `num_pods` pods, each with at most `capacity` targets; `names` are the targets' names.
unfoldable pub assign_all : ℤ → ℕ → Assignment → List String → Assignment
unfolding kept_current assign_targets
assign_all capacity num_pods current names =
    let k = kept_current capacity num_pods current in
    assign_targets capacity num_pods k.pre_assigned (sort_by str_ltb names) k.assignments

-- The number of pods is positive after `normalize_options`.
unfoldable pub bounded_load_rendezvous_hash :
    {T : Type 0} → Dict String T → PlacementStrategyOpts → Assignment
unfolding effective_capacity assign_all
bounded_load_rendezvous_hash targets options =
    let num_targets = length targets in
    let num_pods = to_count options.num_pods in
    if nat_beq num_targets 0
    then []
    else assign_all (effective_capacity options.capacity num_targets num_pods) num_pods
        options.current_assignment (keys targets)

unfoldable pub blrh_distribute_targets :
    {T : Type 0} → Dict String T → Option PlacementStrategyOpts → Assignment
unfolding bounded_load_rendezvous_hash normalize_options
blrh_distribute_targets targets options =
    bounded_load_rendezvous_hash targets (normalize_options options)
