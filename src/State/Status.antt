-- ===== src/State/Status.antt =====
-- The status of a target: internal/controller/targetstate_controller.go, and TargetStatus of
-- api/v1alpha1/target_types.go. A nil map is the empty one, which the code treats the same.
use gnmic_operator.Prelude.{
  ℕ, ◌*◌, ℤ, pos, i32, String, Bool, true, false, not, ◌||◌, Option, [], ◌∷◌, length, ltb, ◌==◌,
  string_eq, int_eq, if◌then◌else◌,
}
use gnmic_operator.Prelude.Dict.{Dict}
use gnmic_operator.Prelude.Parse.{cut}

pub record ClusterTargetState : Type 0 where
  pub pod : String
  pub state : String
  pub failed_reason : String
  pub connection_state : String
  pub subscriptions : Dict String String
  pub last_updated : ℕ

pub record TargetStatus : Type 0 where
  pub clusters : ℤ
  pub state : String
  pub cluster_states : Dict String ClusterTargetState

-- A Target with its status.
pub record TrackedTarget : Type 0 where
  pub namespace : String
  pub name : String
  pub status : TargetStatus

-- The intended state is not read.
pub record TargetStateObject : Type 0 where
  pub state : String
  pub failed_reason : String
  pub connection_state : String
  pub subscriptions : Dict String String
  pub last_updated : ℕ

abbrev pub is_healthy : ClusterTargetState → Bool
is_healthy s = not (not (s.state == "running") || not (s.connection_state == "READY"))

-- The loop with its break.
abbrev pub all_healthy : Dict String ClusterTargetState → Bool
all_healthy [] = true
all_healthy ((cluster, s) ∷ rest) =
    let later = all_healthy rest in if is_healthy s then later else false

abbrev summary_of : Dict String ClusterTargetState → String
summary_of states = if all_healthy states then "READY" else "DEGRADED"

unfoldable pub compute_status_summary : TargetStatus → TargetStatus
compute_status_summary status =
    let clusters = i32 (length status.cluster_states) in
    record status {
      clusters = clusters;
      state = if clusters == pos 0 then "" else summary_of status.cluster_states;
    }

-- What a pod reports of a target, as the entry of its cluster.
abbrev pub reported_state : String → TargetStateObject → ClusterTargetState
reported_state pod_name o = record {
  pod = pod_name;
  state = o.state;
  failed_reason = o.failed_reason;
  connection_state = o.connection_state;
  subscriptions = o.subscriptions;
  last_updated = o.last_updated;
}

-- The namespace and the name; `none` is the result false.
abbrev pub parse_target_name : String → Option (String × String)
parse_target_name name = cut 47 name

-- time.Duration in nanoseconds
abbrev pub reconnect_max_delay : ℕ
reconnect_max_delay = 10000000000

abbrev pub backoff : ℕ → ℕ
backoff current =
    let next = current * 2 in if ltb reconnect_max_delay next then reconnect_max_delay else next
