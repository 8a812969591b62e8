-- ===== src/Plan/Relations.antt =====
-- collectRelationships of internal/gnmic/plan.go: which resources of all pipelines belong together, and
-- which targets the pods have now.
use gnmic_operator.Prelude.{
  ℕ, ℤ, pos, negsuc, String, Option, none, some, List, [], ◌∷◌, ◌++◌, nat_eq, string_eq, Eq,
  if◌then◌else◌, contains,
}
use gnmic_operator.Prelude.Dict.{Dict, keys, lookup, insert}
use gnmic_operator.Resources.{Target}
use gnmic_operator.Plan.Current.{find_target_current_assignment}
use gnmic_operator.Plan.Data.{PipelineData, ResourceRelationship}

-- The list of a key, empty for a missing one.
abbrev or_none : Option (List String) → List String
or_none none = []
or_none (some xs) = xs

module _ {K : Type 0} ⦃e : Eq K⦄ where
  unfoldable pub related_to : K → Dict K (List String) → List String
  related_to k relation = or_none (lookup k relation)

-- set[x] = struct{}{}
abbrev pub add_name : List String → String → List String
add_name xs x = if contains xs x then xs else xs ++ x ∷ []

unfoldable pub add_names : List String → List String → List String
add_names xs [] = xs
add_names xs (n ∷ names) = add_names (add_name xs n) names

-- Every one of the first names is related to all of the second.
unfoldable pub relate :
    List String → List String → Dict String (List String) → Dict String (List String)
unfolding related_to add_names
relate [] names relation = relation
relate (k ∷ ks) names relation =
    relate ks names (insert k (add_names (related_to k relation) names) relation)

-- The same for lists: the names are appended, even those that are there.
unfoldable pub append_all :
    List String → List String → Dict String (List String) → Dict String (List String)
unfolding related_to
append_all [] names relation = relation
append_all (k ∷ ks) names relation =
    append_all ks names (insert k (related_to k relation ++ names) relation)

abbrev or_no_pod : Option String → String
or_no_pod none = ""
or_no_pod (some pod) = pod

unfoldable pub current_pod : String → Target → Option ℤ
unfolding find_target_current_assignment
current_pod cluster_name target =
    find_target_current_assignment (or_no_pod (lookup cluster_name target.cluster_pods))

abbrev pub add_to_pod : Option ℤ → String → Dict ℕ (List String) → Dict ℕ (List String)
add_to_pod none target_nn current = current
add_to_pod (some (negsuc n)) target_nn current = current
add_to_pod (some (pos p)) target_nn current =
    insert p (add_name (related_to p current) target_nn) current

-- plan.CurrentTargetAssignment after the loop over the targets.
unfoldable pub current_targets :
    String → Dict String Target → Dict ℕ (List String) → Dict ℕ (List String)
unfolding related_to current_pod
current_targets cluster_name [] current = current
current_targets cluster_name ((target_nn, target) ∷ rest) current =
    current_targets cluster_name rest
      (add_to_pod (current_pod cluster_name target) target_nn current)

module _ {R : Type 0} where
  unfoldable pub collect_pipeline : PipelineData R → ResourceRelationship → ResourceRelationship
  unfolding relate append_all
  collect_pipeline pd r = record {
    subscription_outputs = relate (keys pd.subscriptions) (keys pd.outputs) r.subscription_outputs;
    target_subscriptions = relate (keys pd.targets) (keys pd.subscriptions) r.target_subscriptions;
    input_outputs = relate (keys pd.inputs) (keys pd.outputs) r.input_outputs;
    output_processors =
        append_all (keys pd.outputs) (keys pd.output_processors) r.output_processors;
    input_processors = append_all (keys pd.inputs) (keys pd.input_processors) r.input_processors;
  }

  unfoldable pub collect_relationships :
      Dict String (PipelineData R) → ResourceRelationship → ResourceRelationship
  unfolding collect_pipeline
  collect_relationships [] r = r
  collect_relationships ((name, pd) ∷ rest) r = collect_relationships rest (collect_pipeline pd r)

  unfoldable pub collect_current :
      String → Dict String (PipelineData R) → Dict ℕ (List String) → Dict ℕ (List String)
  unfolding current_targets
  collect_current cluster_name [] current = current
  collect_current cluster_name ((name, pd) ∷ rest) current =
      collect_current cluster_name rest (current_targets cluster_name pd.targets current)
