-- ===== src/State/Tests.antt =====
-- The theorems on the status of targets at concrete inputs.
use gnmic_operator.Prelude.{
  pos, false, some, List, [], ◌∷◌, contains, string_eq, int_eq, nat_eq, ◌≡◌, refl, arith,
}
use gnmic_operator.Prelude.Dict.{lookup}
use gnmic_operator.Prelude.Text.{itoa}
use gnmic_operator.Webhook.Errors.{has_prefix}
use gnmic_operator.State.Status.{TrackedTarget, TargetStateObject}
use gnmic_operator.State.Sync.{
  updated, SseEvent, Api, handle_event, poll_and_sync, remove_cluster_from_targets,
  remove_stale_pods_from_targets,
}
use gnmic_operator.State.Summary.{IsSummarized, IsKept, IsKept_lem}
use gnmic_operator.State.Streams.{Streams, found, not_found, ClusterReplicas, reconcile_streams}
use gnmic_operator.State.Restart.{reconcile_streams-restarted, reconcile_streams-stopped}

-- A target that two clusters collect, with a summary that does not say so.
abbrev router : TrackedTarget
router = record {
  namespace = "net";
  name = "r1";
  status = record {
    clusters = pos 0;
    state = "";
    cluster_states =
        (
          "c1",
          record {
            pod = "gnmic-c1-0";
            state = "running";
            failed_reason = "";
            connection_state = "READY";
            subscriptions = [];
            last_updated = 1;
          },
        )
        ∷ (
          "c2",
          record {
            pod = "gnmic-c2-4";
            state = "failed";
            failed_reason = "x";
            connection_state = "";
            subscriptions = [];
            last_updated = 2;
          },
        )
        ∷ [];
  };
}

abbrev object : TargetStateObject
object = record {
  state = "running";
  failed_reason = "";
  connection_state = "READY";
  subscriptions = [];
  last_updated = 3;
}

-- The world is the list of writes.
abbrev api : Api (List TrackedTarget)
api = record {
  get = λ namespace name w. (some router, w);
  update_status = λ t w. (updated, t ∷ w);
  list = λ namespace w. (some (router ∷ []), w);
  poll = λ w. (some ((record { name = "net/r1"; state = some object }) ∷ []), w);
}

abbrev AllSummarized : List TrackedTarget → Type 0
AllSummarized [] = Unit
AllSummarized (t ∷ ts) = IsSummarized t.status × AllSummarized ts

kept : IsKept api AllSummarized
kept = record {
  gets = λ namespace name w i. i;
  lists = λ namespace w i. i;
  polls = λ w i. i;
  writes = λ t w h i. (h, i);
}

abbrev event : SseEvent
event = record { event_type = "update"; name = "net/r1"; object = some object }

summarized_example :
    AllSummarized (handle_event api event "c2" "gnmic-c2-0" [])
    × AllSummarized (poll_and_sync api "c2" "net" "gnmic-c2-0" [])
    × AllSummarized (remove_cluster_from_targets api "net" "c2" [])
    × AllSummarized (remove_stale_pods_from_targets api "net" "c2" "gnmic-c2" 2 [])
summarized_example =
    IsKept_lem api AllSummarized event "c2" "net" "gnmic-c2-0" "gnmic-c2" 2 [] kept tt

-- Two streams of a cluster that is scaled to one pod, and one of another cluster.
abbrev running : Streams (List TrackedTarget)
running = record {
  streams = ("net/c1/0", 0) ∷ ("net/c1/1", 1) ∷ ("net/c12/0", 2) ∷ [];
  live = 0 ∷ 1 ∷ 2 ∷ [];
  next = 3;
  world = [];
}

abbrev cluster : ClusterReplicas
cluster = record { namespace = "net"; name = "c1"; replicas = some (pos 1) }

-- The old contexts 0 and 1 are cancelled, the pod 0 has the context 3, and the other cluster keeps 2.
restarted_example :
    let after = (reconcile_streams api "net" "c1" (found cluster) (found tt) running).1 in
    (lookup "net/c1/0" after.streams ≡ some 3)
    × (lookup "net/c12/0" after.streams ≡ some 2)
    × (contains after.live 1 ≡ false)
unfolding lookup itoa has_prefix
restarted_example =
    reconcile_streams-restarted api "net" "c1" "net/c12/0" cluster (pos 1) 0 1 running refl refl
      (omega arith)

stopped_example :
    let after = (reconcile_streams api "net" "c1" not_found not_found running).1 in
    (lookup "net/c12/0" after.streams ≡ some 2) × (contains after.live 1 ≡ false)
unfolding lookup has_prefix
stopped_example = reconcile_streams-stopped api "net" "c1" "net/c12/0" 1 not_found running
