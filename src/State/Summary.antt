-- ===== src/State/Summary.antt =====
-- Every write of a status in internal/controller/targetstate_controller.go has a summary that agrees with
-- its entries.
use gnmic_operator.Prelude.{
  ℕ, zero, suc, pos, i32, String, Bool, true, false, not, ◌&&◌, ◌||◌, Option, none, some, List, [],
  ◌∷◌, length, ◌==◌, string_eq, int_eq, if◌then◌else◌, ◌≡◌, refl, arith, contains, Bool-cases, inl,
  inr,
}
use gnmic_operator.Prelude.Dict.{Dict, lookup, delete}
use gnmic_operator.State.Status.{
  ClusterTargetState, TargetStatus, TrackedTarget, TargetStateObject, all_healthy,
  compute_status_summary, parse_target_name,
}
use gnmic_operator.State.Sync.{
  UpdateAnswer, updated, conflict, update_failed, PollTargetEntry, SseEvent, Api, with_states,
  after_update, after_get, update_fresh, clean_up, clean_up_one, clean_up_stale, clean_up_listed,
  remove_cluster_from_targets, remove_stale_pods_from_targets, handle_named, handle_event,
  entry_target, sync_entry, sync_entries, sync_polled, poll_and_sync, valid_pods,
}

abbrev has_unhealthy : Dict String ClusterTargetState → Bool
has_unhealthy [] = false
has_unhealthy ((cluster, s) ∷ rest) =
    not (s.state == "running" && s.connection_state == "READY") || has_unhealthy rest

-- The number of clusters, no state without clusters, and else one that is degraded exactly when some
-- cluster does not run the target with a ready connection.
pub record IsSummarized (status : TargetStatus) : Type 0 where
  pub counted : status.clusters ≡ i32 (length status.cluster_states)
  pub empty : (status.state == "") ≡ (status.clusters == pos 0)
  pub degraded :
      (status.state == "DEGRADED")
      ≡ (not (status.clusters == pos 0) && has_unhealthy status.cluster_states)

all_healthy_lem : (d : Dict String ClusterTargetState) → all_healthy d ≡ not (has_unhealthy d)
all_healthy_lem [] = refl
all_healthy_lem ((c, s) ∷ d) = ground (arith, all_healthy_lem d)

abbrev chosen : Bool → Bool → String
chosen nobody healthy = if nobody then "" else if healthy then "READY" else "DEGRADED"

chosen_empty : (nobody healthy : Bool) → (chosen nobody healthy == "") ≡ nobody
chosen_empty true healthy = refl
chosen_empty false true = refl
chosen_empty false false = refl

chosen_degraded :
    (nobody unhealthy : Bool)
    → (chosen nobody (not unhealthy) == "DEGRADED") ≡ (not nobody && unhealthy)
chosen_degraded true unhealthy = refl
chosen_degraded false true = refl
chosen_degraded false false = refl

IsSummarized-compute_status_summary : (s : TargetStatus) → IsSummarized (compute_status_summary s)
unfolding compute_status_summary
IsSummarized-compute_status_summary s =
    let nobody = i32 (length s.cluster_states) == pos 0 in
    record {
      counted = refl;
      empty = chosen_empty nobody (all_healthy s.cluster_states);
      degraded =
          rw (all_healthy_lem s.cluster_states)
            (chosen_degraded nobody (has_unhealthy s.cluster_states));
    }

-- An invariant of the world that reads keep, and writes of a summarized status.
pub record IsKept {W : Type 0} (api : Api W) (I : W → Type 0) : Type 0 where
  pub gets : (namespace name : String) (w : W) → I w → I (api.get namespace name w).1
  pub lists : (namespace : String) (w : W) → I w → I (api.list namespace w).1
  pub polls : (w : W) → I w → I (api.poll w).1
  pub writes :
      (t : TrackedTarget) (w : W) → IsSummarized t.status → I w → I (api.update_status t w).1

module _ {W : Type 0} (api : Api W) (I : W → Type 0) (k : IsKept api I) where
  after_update-keeps :
      (next : W → W) (r : UpdateAnswer × W)
      → ((w : W) → I w → I (next w))
      → I r.1
      → I (after_update api next r)
  after_update-keeps next (conflict, w) n i = n w i
  after_update-keeps next (updated, w) n i = i
  after_update-keeps next (update_failed, w) n i = i

  write-keeps :
      (change : Dict String ClusterTargetState → Dict String ClusterTargetState) (next : W → W)
      (t : TrackedTarget) (w : W)
      → ((w : W) → I w → I (next w))
      → I w
      → I (after_update api next (api.update_status (with_states change t) w))
  unfolding with_states
  write-keeps change next t w n i = after_update-keeps next _ n (
      k.writes (with_states change t) w
        (IsSummarized-compute_status_summary
          (record t.status { cluster_states = change t.status.cluster_states }))
        i)

  after_get-keeps :
      (change : Dict String ClusterTargetState → Dict String ClusterTargetState) (next : W → W)
      (r : Option TrackedTarget × W)
      → ((w : W) → I w → I (next w))
      → I r.1
      → I (after_get api change next r)
  after_get-keeps change next (none, w) n i = i
  after_get-keeps change next (some t, w) n i = write-keeps change next t w n i

  update_fresh-keeps :
      (namespace name : String)
      (change : Dict String ClusterTargetState → Dict String ClusterTargetState) (n : ℕ) (w : W)
      → I w
      → I (update_fresh api namespace name change n w)
  unfolding update_fresh
  update_fresh-keeps namespace name change zero w i = i
  update_fresh-keeps namespace name change (suc n) w i =
      after_get-keeps change _ _ (update_fresh-keeps namespace name change n)
        (k.gets namespace name w i)

  clean_up_one-keeps :
      (c : String) (stale : TrackedTarget → ClusterTargetState → Bool) (t : TrackedTarget)
      (o : Option ClusterTargetState) (w : W)
      → I w
      → I (clean_up_one api c stale t o w)
  unfolding clean_up
  clean_up_one-keeps c stale t none w i = i
  clean_up_one-keeps c stale t (some s) w i = elim (Bool-cases (stale t s)) [
    | inl is ↦
        rw is (write-keeps (delete c) _ t w (update_fresh-keeps t.namespace t.name (delete c) 4) i)
    | inr is ↦ rw is i
  ]

  clean_up_stale-keeps :
      (c : String) (stale : TrackedTarget → ClusterTargetState → Bool) (ts : List TrackedTarget)
      (w : W)
      → I w
      → I (clean_up_stale api c stale ts w)
  unfolding clean_up_stale
  clean_up_stale-keeps c stale [] w i = i
  clean_up_stale-keeps c stale (t ∷ ts) w i =
      clean_up_stale-keeps c stale ts _
        (clean_up_one-keeps c stale t (lookup c t.status.cluster_states) w i)

  clean_up_listed-keeps :
      (c : String) (stale : TrackedTarget → ClusterTargetState → Bool)
      (r : Option (List TrackedTarget) × W)
      → I r.1
      → I (clean_up_listed api c stale r)
  clean_up_listed-keeps c stale (none, w) i = i
  clean_up_listed-keeps c stale (some ts, w) i = clean_up_stale-keeps c stale ts w i

  sync_entry-keeps :
      (c pod : String) (n : Option (String × String)) (o : Option TargetStateObject) (w : W)
      → I w
      → I (sync_entry api c pod n o w)
  sync_entry-keeps c pod none o w i = i
  sync_entry-keeps c pod (some n) none w i = i
  sync_entry-keeps c pod (some n) (some o) w i = update_fresh-keeps n.0 n.1 _ 5 w i

  sync_entries-keeps :
      (c pod : String) (es : List PollTargetEntry) (w : W) → I w → I (sync_entries api c pod es w)
  unfolding sync_entries
  sync_entries-keeps c pod [] w i = i
  sync_entries-keeps c pod (e ∷ es) w i =
      sync_entries-keeps c pod es _ (sync_entry-keeps c pod (entry_target e) e.state w i)

  sync_polled-keeps :
      (c namespace pod : String) (r : Option (List PollTargetEntry) × W)
      → I r.1
      → I (sync_polled api c namespace pod r)
  sync_polled-keeps c namespace pod (none, w) i = i
  sync_polled-keeps c namespace pod (some es, w) i =
      clean_up_listed-keeps c _ _ (k.lists namespace _ (sync_entries-keeps c pod es w i))

  handle_named-keeps :
      (event : SseEvent) (c pod : String) (n : Option (String × String))
      (o : Option TargetStateObject) (w : W)
      → I w
      → I (handle_named api event c pod n o w)
  handle_named-keeps event c pod none o w i = i
  handle_named-keeps event c pod (some n) none w i = i
  handle_named-keeps event c pod (some n) (some o) w i = update_fresh-keeps n.0 n.1 _ 5 w i

-- Whatever is read and however writes are answered, an invariant that summarized writes keep is kept by
-- an event, by a poll, and by the removal of a cluster and of the pods of a scaled-down cluster. So no
-- status is ever written whose summary disagrees with its entries.
pub IsKept_lem :
    {W : Type 0} (api : Api W) (I : W → Type 0) (event : SseEvent)
    (cluster_name namespace pod sts_name : String) (desired_pods : ℕ) (w : W)
    → IsKept api I
    → I w
    → I (handle_event api event cluster_name pod w)
      × I (poll_and_sync api cluster_name namespace pod w)
      × I (remove_cluster_from_targets api namespace cluster_name w)
      × I (remove_stale_pods_from_targets api namespace cluster_name sts_name desired_pods w)
unfolding handle_event poll_and_sync remove_cluster_from_targets remove_stale_pods_from_targets
IsKept_lem api I event c namespace pod sts_name n w k i = (
  handle_named-keeps api I k event c pod (parse_target_name event.name) event.object w i,
  sync_polled-keeps api I k c namespace pod (api.poll w) (k.polls w i),
  clean_up_listed-keeps api I k c (λ t s. true) (api.list namespace w) (k.lists namespace w i),
  clean_up_listed-keeps api I k c (λ t s. not (contains (valid_pods sts_name n) s.pod))
      (api.list namespace w) (k.lists namespace w i),
)
