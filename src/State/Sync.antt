-- ===== src/State/Sync.antt =====
-- How the status of targets follows what the pods report: handleEvent, pollAndSync and the clean-ups of
-- internal/controller/targetstate_controller.go. `Api` is the API server and the pod, over the type of
-- worlds `W`. A read that fails for whatever reason is `none`: the code only logs the reason.
use gnmic_operator.Prelude.{
  ℕ, zero, suc, String, Bool, true, not, ◌&&◌, Option, none, some, List, [], ◌∷◌, ◌==◌, string_eq,
  if◌then◌else◌, contains,
}
use gnmic_operator.Prelude.Dict.{Dict, lookup, insert, delete}
use gnmic_operator.Plan.Current.{pod_name}
use gnmic_operator.State.Status.{
  ClusterTargetState, TrackedTarget, TargetStateObject, compute_status_summary, reported_state,
  parse_target_name,
}

pub data UpdateAnswer : Type 0 where
  updated conflict update_failed : UpdateAnswer

pub record PollTargetEntry : Type 0 where
  pub name : String
  pub state : Option TargetStateObject

-- `object` is the parsed object, `none` when it cannot be parsed.
pub record SseEvent : Type 0 where
  pub event_type : String
  pub name : String
  pub object : Option TargetStateObject

pub record Api (W : Type 0) : Type 0 where
  pub get : String → String → W → Option TrackedTarget × W
  pub update_status : TrackedTarget → W → UpdateAnswer × W
  pub list : String → W → Option (List TrackedTarget) × W
  pub poll : W → Option (List PollTargetEntry) × W

abbrev pub max_conflict_retries : ℕ
max_conflict_retries = 5

-- A change of the entries of the clusters.
abbrev Change : Type 0
Change = Dict String ClusterTargetState → Dict String ClusterTargetState

unfoldable pub with_states : Change → TrackedTarget → TrackedTarget
unfolding compute_status_summary
with_states change t = record t {
  status =
      compute_status_summary (record t.status { cluster_states = change t.status.cluster_states });
}

module _ {W : Type 0} (api : Api W) where
  abbrev pub after_update : (W → W) → UpdateAnswer × W → W
  after_update next (conflict, w) = next w
  after_update next (updated, w) = w
  after_update next (update_failed, w) = w

  abbrev pub after_get : Change → (W → W) → Option TrackedTarget × W → W
  after_get change next (none, w) = w
  after_get change next (some t, w) = after_update next (api.update_status (with_states change t) w)

  -- The loop over attempts that reads the target each time, with the attempts left.
  unfoldable pub update_fresh : String → String → Change → ℕ → W → W
  unfolding with_states
  update_fresh namespace name change zero w = w
  update_fresh namespace name change (suc n) w =
      let next = update_fresh namespace name change n in
      after_get change next (api.get namespace name w)

  -- The loop of the clean-ups: the first attempt takes the listed target.
  unfoldable pub clean_up : String → TrackedTarget → W → W
  unfolding update_fresh
  clean_up cluster_name t w =
      after_update (update_fresh t.namespace t.name (delete cluster_name) 4)
        (api.update_status (with_states (delete cluster_name) t) w)

  abbrev pub clean_up_one :
      String
      → (TrackedTarget → ClusterTargetState → Bool)
      → TrackedTarget
      → Option ClusterTargetState
      → W
      → W
  clean_up_one cluster_name stale t none w = w
  clean_up_one cluster_name stale t (some s) w = if stale t s then clean_up cluster_name t w else w

  -- The listed targets whose entry of the cluster is stale lose it.
  unfoldable pub clean_up_stale :
      String → (TrackedTarget → ClusterTargetState → Bool) → List TrackedTarget → W → W
  unfolding clean_up
  clean_up_stale cluster_name stale [] w = w
  clean_up_stale cluster_name stale (t ∷ ts) w =
      clean_up_stale cluster_name stale ts
        (clean_up_one cluster_name stale t (lookup cluster_name t.status.cluster_states) w)

  abbrev pub clean_up_listed :
      String → (TrackedTarget → ClusterTargetState → Bool) → Option (List TrackedTarget) × W → W
  clean_up_listed cluster_name stale (none, w) = w
  clean_up_listed cluster_name stale (some ts, w) = clean_up_stale cluster_name stale ts w

  unfoldable pub remove_cluster_from_targets : String → String → W → W
  unfolding clean_up_stale
  remove_cluster_from_targets namespace cluster_name w =
      clean_up_listed cluster_name (λ t s. true) (api.list namespace w)

-- The names of the pods below the desired number.
unfoldable pub valid_pods : String → ℕ → List String
unfolding pod_name
valid_pods sts_name zero = []
valid_pods sts_name (suc n) = pod_name sts_name n ∷ valid_pods sts_name n

abbrev pub event_change : String → String → String → TargetStateObject → Change
event_change event_type cluster_name pod o states =
    if event_type == "delete"
    then delete cluster_name states
    else insert cluster_name (reported_state pod o) states

-- The target that an entry names, when it reports a state.
abbrev when_reported : String → Option TargetStateObject → Option (String × String)
when_reported name none = none
when_reported name (some o) = parse_target_name name

abbrev pub entry_target : PollTargetEntry → Option (String × String)
entry_target e = when_reported e.name e.state

-- The reported targets, by their names alone.
abbrev or_skip : Option (String × String) → List String → List String
or_skip none names = names
or_skip (some n) names = n.1 ∷ names

unfoldable pub reported_targets : List PollTargetEntry → List String
reported_targets [] = []
reported_targets (e ∷ es) = or_skip (entry_target e) (reported_targets es)

module _ {W : Type 0} (api : Api W) where
  unfoldable pub remove_stale_pods_from_targets : String → String → String → ℕ → W → W
  unfolding valid_pods clean_up_stale
  remove_stale_pods_from_targets namespace cluster_name sts_name desired_pods w =
      clean_up_listed api cluster_name
        (λ t s. not (contains (valid_pods sts_name desired_pods) s.pod)) (api.list namespace w)

  abbrev pub handle_named :
      SseEvent → String → String → Option (String × String) → Option TargetStateObject → W → W
  handle_named event cluster_name pod none o w = w
  handle_named event cluster_name pod (some n) none w = w
  handle_named event cluster_name pod (some n) (some o) w =
      update_fresh api n.0 n.1 (event_change event.event_type cluster_name pod o)
        max_conflict_retries w

  unfoldable pub handle_event : SseEvent → String → String → W → W
  unfolding update_fresh
  handle_event event cluster_name pod w =
      handle_named event cluster_name pod (parse_target_name event.name) event.object w

  abbrev pub sync_entry :
      String → String → Option (String × String) → Option TargetStateObject → W → W
  sync_entry cluster_name pod none o w = w
  sync_entry cluster_name pod (some n) none w = w
  sync_entry cluster_name pod (some n) (some o) w =
      update_fresh api n.0 n.1 (insert cluster_name (reported_state pod o)) max_conflict_retries w

  -- The loop over the entries.
  unfoldable pub sync_entries : String → String → List PollTargetEntry → W → W
  unfolding update_fresh
  sync_entries cluster_name pod [] w = w
  sync_entries cluster_name pod (e ∷ es) w =
      sync_entries cluster_name pod es (sync_entry cluster_name pod (entry_target e) e.state w)

  abbrev pub sync_polled : String → String → String → Option (List PollTargetEntry) × W → W
  sync_polled cluster_name namespace pod (none, w) = w
  sync_polled cluster_name namespace pod (some es, w) =
      clean_up_listed api cluster_name
        (λ t s. s.pod == pod && not (contains (reported_targets es) t.name))
        (api.list namespace (sync_entries cluster_name pod es w))

  unfoldable pub poll_and_sync : String → String → String → W → W
  unfolding sync_entries clean_up_stale reported_targets
  poll_and_sync cluster_name namespace pod w = sync_polled cluster_name namespace pod (api.poll w)
