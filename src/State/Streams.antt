-- ===== src/State/Streams.antt =====
-- Reconcile of internal/controller/targetstate_controller.go: which streams run. The streams are a map
-- from keys to contexts, which are numbered; `live` are those that are not cancelled.
use gnmic_operator.Prelude.{
  ℕ, zero, suc, ℤ, pos, rounds, String, Option, none, some, List, [], ◌∷◌, ◌==◌, string_eq, nat_eq,
  int_eq, if◌then◌else◌, without,
}
use gnmic_operator.Prelude.Dict.{Dict, insert}
use gnmic_operator.Prelude.Text.{◌<>◌, itoa}
use gnmic_operator.Webhook.Errors.{has_prefix}
use gnmic_operator.State.Sync.{Api, remove_cluster_from_targets, remove_stale_pods_from_targets}

pub record Streams (W : Type 0) : Type 0 where
  pub streams : Dict String ℕ
  pub live : List ℕ
  pub next : ℕ
  pub world : W

-- The answer to a read of one object.
pub data Read (A : Type 0) : Type 0 where
  found : A → Read A
  not_found read_failed : Read A

-- The fields of a Cluster that the reconciler reads.
pub record ClusterReplicas : Type 0 where
  pub namespace : String
  pub name : String
  pub replicas : Option ℤ

pub data Result : Type 0 where
  done requeue_after returned_error : Result

abbrev pub stream_prefix : String → String → String
stream_prefix namespace cluster_name = namespace <> "/" <> cluster_name <> "/"

abbrev pub stream_key : String → String → ℕ → String
stream_key namespace cluster_name i = stream_prefix namespace cluster_name <> itoa i

-- The loop over the streams: the keys with the prefix are deleted, and their contexts cancelled.
unfoldable pub delete_matching : String → Dict String ℕ → Dict String ℕ
unfolding has_prefix
delete_matching prefix [] = []
delete_matching prefix ((key, c) ∷ rest) =
    let later = delete_matching prefix rest in
    if has_prefix key prefix then later else (key, c) ∷ later

unfoldable pub cancel_matching : String → Dict String ℕ → List ℕ → List ℕ
unfolding has_prefix
cancel_matching prefix [] live = live
cancel_matching prefix ((key, c) ∷ rest) live =
    cancel_matching prefix rest (if has_prefix key prefix then without live c else live)

module _ {W : Type 0} where
  unfoldable pub stop_streams_for_cluster : String → String → Streams W → Streams W
  unfolding delete_matching cancel_matching
  stop_streams_for_cluster namespace cluster_name s =
      let prefix = stream_prefix namespace cluster_name in
      record s {
        streams = delete_matching prefix s.streams;
        live = cancel_matching prefix s.streams s.live;
      }

  abbrev pub start_stream : String → Streams W → Streams W
  start_stream key s = record s {
    streams = insert key s.next s.streams;
    live = s.next ∷ s.live;
    next = suc s.next;
  }

  -- The loop over the pods, from `i` on, with the rounds left. The URL of a pod has no error.
  unfoldable pub start_streams : String → String → ℕ → ℕ → Streams W → Streams W
  start_streams namespace cluster_name i zero s = s
  start_streams namespace cluster_name i (suc n) s =
      start_streams namespace cluster_name (suc i) n
        (start_stream (stream_key namespace cluster_name i) s)

  abbrev pub remove_cluster : Api W → String → String → Streams W → Result × Streams W
  remove_cluster api namespace name s =
      let stopped = stop_streams_for_cluster namespace name s in
      (
        done,
        record stopped { world = remove_cluster_from_targets api namespace name stopped.world },
      )

  abbrev pub restart_streams :
      Api W → ClusterReplicas → ℤ → Read Unit → Streams W → Result × Streams W
  restart_streams api cluster replicas read_failed s = (returned_error, s)
  restart_streams api cluster replicas not_found s =
      (requeue_after, stop_streams_for_cluster cluster.namespace cluster.name s)
  restart_streams api cluster replicas (found u) s =
      let stopped = stop_streams_for_cluster cluster.namespace cluster.name s in
      let world =
        remove_stale_pods_from_targets api cluster.namespace cluster.name ("gnmic-" <> cluster.name)
          (rounds replicas) stopped.world in
      (
        done,
        start_streams cluster.namespace cluster.name 0 (rounds replicas)
            (record stopped { world = world }),
      )

  abbrev pub reconcile_replicas :
      Api W → ClusterReplicas → Option ℤ → Read Unit → Streams W → Result × Streams W
  reconcile_replicas api cluster none sts s = remove_cluster api cluster.namespace cluster.name s
  reconcile_replicas api cluster (some replicas) sts s =
      if replicas == pos 0
      then remove_cluster api cluster.namespace cluster.name s
      else restart_streams api cluster replicas sts s

  -- The answers to the reads of the cluster and of its stateful set are arguments.
  unfoldable pub reconcile_streams :
      Api W → String → String → Read ClusterReplicas → Read Unit → Streams W → Result × Streams W
  unfolding stop_streams_for_cluster start_streams remove_cluster_from_targets
      remove_stale_pods_from_targets
  reconcile_streams api namespace name not_found sts s = remove_cluster api namespace name s
  reconcile_streams api namespace name read_failed sts s = (returned_error, s)
  reconcile_streams api namespace name (found cluster) sts s =
      reconcile_replicas api cluster cluster.replicas sts s
