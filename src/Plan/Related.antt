-- ===== src/Plan/Related.antt =====
-- What collectRelationships of internal/gnmic/plan.go leaves: resources are related exactly when one
-- pipeline has both.
use gnmic_operator.Prelude.{
  ℕ, ℤ, pos, negsuc, String, Bool, true, false, ◌||◌, ◌&&◌, Option, none, some, List, [], ◌∷◌, ◌++◌,
  nat_eq, string_eq, int_eq, eqb_ℤ, ◌==◌, if◌then◌else◌, contains, contains-append, distinct, ◌≡◌,
  arith,
}
use gnmic_operator.Prelude.Dict.{Dict, keys, insert, lookup-insert}
use gnmic_operator.Resources.{Target}
use gnmic_operator.Plan.Data.{PipelineData, ResourceRelationship}
use gnmic_operator.Plan.Relations.{
  related_to, current_pod, add_name, add_names, relate, add_to_pod, current_targets,
  collect_pipeline, collect_relationships, collect_current,
}

contains-add_names :
    (xs names : List String) (x : String)
    → contains (add_names xs names) x ≡ (contains xs x || contains names x)
unfolding add_names
contains-add_names xs [] x = ground arith
contains-add_names xs (n ∷ names) x = ground (
  arith,
  contains-add_names (add_name xs n) names x,
  contains-append xs (n ∷ []) x,
  string_eq.agree_iff n x,
)

contains-relate :
    (ks names : List String) (relation : Dict String (List String)) (k x : String)
    → contains (related_to k (relate ks names relation)) x
      ≡ (contains (related_to k relation) x || (contains ks k && contains names x))
unfolding relate related_to
contains-relate [] names relation k x = ground arith
contains-relate (j ∷ ks) names relation k x = ground (
  arith,
  contains-relate ks names (insert j (add_names (related_to j relation) names) relation) k x,
  lookup-insert j k (add_names (related_to j relation) names) relation,
  contains-add_names (related_to j relation) names x,
  string_eq.agree_iff j k,
)

module _ {R : Type 0} where
  -- A test of some pipeline.
  abbrev pub in_one : (PipelineData R → Bool) → Dict String (PipelineData R) → Bool
  in_one f [] = false
  in_one f ((name, pd) ∷ rest) = f pd || in_one f rest

  abbrev pub sends : String → String → PipelineData R → Bool
  sends s o pd = contains (keys pd.subscriptions) s && contains (keys pd.outputs) o

  abbrev pub collects : String → String → PipelineData R → Bool
  collects t s pd = contains (keys pd.targets) t && contains (keys pd.subscriptions) s

  abbrev pub feeds : String → String → PipelineData R → Bool
  feeds i o pd = contains (keys pd.inputs) i && contains (keys pd.outputs) o

  -- A subscription is related to an output exactly when a pipeline has both, or when it was before.
  pub collect_relationships-subscription_outputs :
      (s o : String) (ps : Dict String (PipelineData R)) (r : ResourceRelationship)
      → contains (related_to s (collect_relationships ps r).subscription_outputs) o
        ≡ (contains (related_to s r.subscription_outputs) o || in_one (sends s o) ps)
  unfolding collect_relationships
  collect_relationships-subscription_outputs s o [] r = ground arith
  collect_relationships-subscription_outputs s o ((name, pd) ∷ rest) r = ground (
    arith,
    collect_relationships-subscription_outputs s o rest (collect_pipeline pd r),
    contains-relate (keys pd.subscriptions) (keys pd.outputs) r.subscription_outputs s o,
  )

  -- A target is related to a subscription exactly when a pipeline has both, or when it was before.
  pub collect_relationships-target_subscriptions :
      (t s : String) (ps : Dict String (PipelineData R)) (r : ResourceRelationship)
      → contains (related_to t (collect_relationships ps r).target_subscriptions) s
        ≡ (contains (related_to t r.target_subscriptions) s || in_one (collects t s) ps)
  unfolding collect_relationships
  collect_relationships-target_subscriptions t s [] r = ground arith
  collect_relationships-target_subscriptions t s ((name, pd) ∷ rest) r = ground (
    arith,
    collect_relationships-target_subscriptions t s rest (collect_pipeline pd r),
    contains-relate (keys pd.targets) (keys pd.subscriptions) r.target_subscriptions t s,
  )

  pub collect_relationships-input_outputs :
      (i o : String) (ps : Dict String (PipelineData R)) (r : ResourceRelationship)
      → contains (related_to i (collect_relationships ps r).input_outputs) o
        ≡ (contains (related_to i r.input_outputs) o || in_one (feeds i o) ps)
  unfolding collect_relationships
  collect_relationships-input_outputs i o [] r = ground arith
  collect_relationships-input_outputs i o ((name, pd) ∷ rest) r = ground (
    arith,
    collect_relationships-input_outputs i o rest (collect_pipeline pd r),
    contains-relate (keys pd.inputs) (keys pd.outputs) r.input_outputs i o,
  )

  -- The processors of the pipelines that have the output, in the order of the pipelines.
  abbrev pub processors_of : String → Dict String (PipelineData R) → List String
  processors_of o [] = []
  processors_of o ((name, pd) ∷ rest) =
      (if contains (keys pd.outputs) o then keys pd.output_processors else [])
      ++ processors_of o rest

  -- The keys of a Go map are distinct.
  abbrev pub distinct_outputs : Dict String (PipelineData R) → Bool
  distinct_outputs [] = true
  distinct_outputs ((name, pd) ∷ rest) = distinct (keys pd.outputs) && distinct_outputs rest

  abbrev pub has_output : String → PipelineData R → Bool
  has_output o pd = contains (keys pd.outputs) o

abbrev index_is : ℕ → Option ℤ → Bool
index_is p none = false
index_is p (some i) = eqb_ℤ i (pos p)

-- The target stands in the map, and its status names the pod with this index.
abbrev pub is_on : String → ℕ → String → Dict String Target → Bool
is_on cluster_name p t [] = false
is_on cluster_name p t ((nn, target) ∷ rest) =
    (nn == t && index_is p (current_pod cluster_name target)) || is_on cluster_name p t rest

contains-add_to_pod :
    (i : Option ℤ) (nn : String) (current : Dict ℕ (List String)) (p : ℕ) (t : String)
    → contains (related_to p (add_to_pod i nn current)) t
      ≡ (contains (related_to p current) t || (nn == t && index_is p i))
unfolding related_to
contains-add_to_pod none nn current p t = ground arith
contains-add_to_pod (some (negsuc n)) nn current p t = ground arith
contains-add_to_pod (some (pos q)) nn current p t = ground (
  arith,
  lookup-insert q p (add_name (related_to q current) nn) current,
  contains-append (related_to q current) (nn ∷ []) t,
  nat_eq.agree_iff q p,
  string_eq.agree_iff nn t,
)

contains-current_targets :
    (cluster_name : String) (targets : Dict String Target) (current : Dict ℕ (List String)) (p : ℕ)
    (t : String)
    → contains (related_to p (current_targets cluster_name targets current)) t
      ≡ (contains (related_to p current) t || is_on cluster_name p t targets)
unfolding current_targets
contains-current_targets c [] current p t = ground arith
contains-current_targets c ((nn, target) ∷ rest) current p t = ground (
  arith,
  contains-current_targets c rest (add_to_pod (current_pod c target) nn current) p t,
  contains-add_to_pod (current_pod c target) nn current p t,
)

-- A pod has a target now exactly when the status of the target in some pipeline names the pod, or when
-- it was recorded before.
pub collect_current_lem :
    {R : Type 0} (cluster_name : String) (ps : Dict String (PipelineData R))
    (current : Dict ℕ (List String)) (p : ℕ) (t : String)
    → contains (related_to p (collect_current cluster_name ps current)) t
      ≡ (contains (related_to p current) t || in_one (λ pd. is_on cluster_name p t pd.targets) ps)
unfolding collect_current
collect_current_lem c [] current p t = ground arith
collect_current_lem c ((name, pd) ∷ rest) current p t = ground (
  arith,
  collect_current_lem c rest (current_targets c pd.targets current) p t,
  contains-current_targets c pd.targets current p t,
)
