-- ===== src/State/Restart.antt =====
-- Which streams run after Reconcile of internal/controller/targetstate_controller.go.
use gnmic_operator.Prelude.{
  ℕ, ◌+◌, ◌<◌, ℤ, pos, rounds, none, if◌then◌else◌, ltb, leb, String, Bool, false, without, nat_eq,
  not, ◌&&◌, ◌||◌, some, List, [], ◌∷◌, ◌==◌, string_eq, int_eq, contains, ◌≡◌, refl, ap, arith,
  ==-eq, Bool-cases, inl, inr,
}
use gnmic_operator.Prelude.Dict.{Dict, lookup}
use gnmic_operator.Webhook.Errors.{has_prefix}
use gnmic_operator.State.Sync.{Api}
use gnmic_operator.State.Started.{
  cluster_prefix, pod_key, pod_keys, lookup-start_streams_other, lookup-start_streams_pod,
  contains-start_streams,
}
use gnmic_operator.State.Streams.{
  Streams, Read, found, not_found, ClusterReplicas, cancel_matching, delete_matching,
  stop_streams_for_cluster, start_streams, reconcile_streams,
}

lookup-delete_matching :
    (prefix j : String) (d : Dict String ℕ)
    → lookup j (delete_matching prefix d) ≡ (if has_prefix j prefix then none else lookup j d)
unfolding lookup delete_matching
lookup-delete_matching prefix j [] = ground arith
lookup-delete_matching prefix j ((k, c) ∷ d) = elim (Bool-cases (k == j)) [
  | inl same ↦
      let moved : has_prefix k prefix ≡ has_prefix j prefix =
        ap (λ i. has_prefix i prefix) (==-eq k j same) in
      ground (arith, lookup-delete_matching prefix j d)
  | inr other ↦ ground (arith, lookup-delete_matching prefix j d)
]

-- The context of a stream whose key has the prefix.
abbrev pub is_context_of : String → ℕ → Dict String ℕ → Bool
is_context_of prefix c [] = false
is_context_of prefix c ((k, x) ∷ d) = (has_prefix k prefix && x == c) || is_context_of prefix c d

contains-without_if :
    (xs : List ℕ) (a b : ℕ) → contains (without xs a) b ≡ (contains xs b && not (a == b))
contains-without_if [] a b = refl
contains-without_if (x ∷ xs) a b = ground (
  arith,
  contains-without_if xs a b,
  nat_eq.agree_iff x a,
  nat_eq.agree_iff x b,
  nat_eq.agree_iff a b,
)

contains-cancel_matching :
    (prefix : String) (c : ℕ) (d : Dict String ℕ) (live : List ℕ)
    → contains (cancel_matching prefix d live) c
      ≡ (contains live c && not (is_context_of prefix c d))
unfolding cancel_matching
contains-cancel_matching prefix c [] live = ground arith
contains-cancel_matching prefix c ((k, x) ∷ d) live = elim (Bool-cases (has_prefix k prefix)) [
  | inl is ↦ rw is (
      ground
        (arith, contains-cancel_matching prefix c d (without live x), contains-without_if live x c))
  | inr is ↦ rw is (contains-cancel_matching prefix c d live)
]

module _ {W : Type 0} where
  -- What the streams and the live contexts are after the old ones are stopped and the new ones started.
  module _ (namespace name : String) (n : ℕ) (s : Streams W) (world : W) where
    abbrev stopped : Streams W
    stopped = record (stop_streams_for_cluster namespace name s) { world = world }

    abbrev after : Streams W
    after = start_streams namespace name 0 n stopped

    restarted_other :
        (j : String)
        → (if contains (pod_keys namespace name 0 n) j then none else lookup j after.streams) ≡ (
            if contains (pod_keys namespace name 0 n) j
              || has_prefix j (cluster_prefix namespace name)
            then none
            else lookup j s.streams)
    unfolding stop_streams_for_cluster
    restarted_other j = ground (
      arith,
      lookup-start_streams_other namespace name j 0 n stopped,
      lookup-delete_matching (cluster_prefix namespace name) j s.streams,
    )

    restarted_live :
        (c : ℕ)
        → contains after.live c ≡ (
            (leb s.next c && ltb c (s.next + n))
            || (contains s.live c
                && not (is_context_of (cluster_prefix namespace name) c s.streams)))
    unfolding stop_streams_for_cluster
    restarted_live c = ground (
      arith,
      contains-start_streams namespace name 0 n c stopped,
      contains-cancel_matching (cluster_prefix namespace name) c s.streams s.live,
    )

    restarted_pod :
        (p : ℕ) → p < n → lookup (pod_key namespace name p) after.streams ≡ some (s.next + p)
    unfolding stop_streams_for_cluster
    restarted_pod p h =
        lookup-start_streams_pod namespace name 0 n p p (s.next + p) stopped (omega arith) refl h

  -- After the reconciliation of a cluster that has replicas and whose stateful set exists, each of its
  -- pods has a stream under its own key with a new context, no other key of the cluster is left, and the
  -- other keys have the contexts they had. The live contexts are the new ones and those before that were
  -- not of this cluster.
  pub reconcile_streams-restarted :
      (api : Api W) (namespace name j : String) (cluster : ClusterReplicas) (replicas : ℤ) (p c : ℕ)
      (s : Streams W)
      → cluster.replicas ≡ some replicas
      → (replicas == pos 0) ≡ false
      → p < rounds replicas
      → let after = (reconcile_streams api namespace name (found cluster) (found tt) s).1 in
        let pods = pod_keys cluster.namespace cluster.name 0 (rounds replicas) in
        let prefix = cluster_prefix cluster.namespace cluster.name in
        (lookup (pod_key cluster.namespace cluster.name p) after.streams ≡ some (s.next + p))
        × ((if contains pods j then none else lookup j after.streams)
            ≡ (if contains pods j || has_prefix j prefix then none else lookup j s.streams))
        × (contains after.live c ≡ (
            (leb s.next c && ltb c (s.next + rounds replicas))
            || (contains s.live c && not (is_context_of prefix c s.streams))))
  unfolding reconcile_streams
  reconcile_streams-restarted api namespace name j cluster replicas p c s h some_replicas below =
      let n = rounds replicas in
      rw h (
        rw some_replicas (
          restarted_pod cluster.namespace cluster.name n s _ p below,
          restarted_other cluster.namespace cluster.name n s _ j,
          restarted_live cluster.namespace cluster.name n s _ c,
        ))

  -- After the reconciliation of a cluster that is deleted, none of its streams stands in the map, the
  -- contexts of those that did are cancelled, and the other keys and contexts are as before.
  pub reconcile_streams-stopped :
      (api : Api W) (namespace name j : String) (c : ℕ) (sts : Read Unit) (s : Streams W)
      → (lookup j (reconcile_streams api namespace name not_found sts s).1.streams
          ≡ (if has_prefix j (cluster_prefix namespace name) then none else lookup j s.streams))
        × (contains (reconcile_streams api namespace name not_found sts s).1.live c ≡ (
            contains s.live c && not (is_context_of (cluster_prefix namespace name) c s.streams)))
  unfolding reconcile_streams stop_streams_for_cluster
  reconcile_streams-stopped api namespace name j c sts s = (
    lookup-delete_matching (cluster_prefix namespace name) j s.streams,
    contains-cancel_matching (cluster_prefix namespace name) c s.streams s.live,
  )
