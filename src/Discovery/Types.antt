-- ===== src/Discovery/Types.antt =====
-- internal/controller/discovery/core/types.go and message_interface.go: what loaders find and what
-- they send; and the parts of the Target and TargetSource resources that discovery reads and writes.
use gnmic_operator.Prelude.{ℕ, ℤ, String, Option, List}
use gnmic_operator.Prelude.Dict.{Dict}

-- `EventAction` is an `int` with two named values.
pub data EventAction : Type 0 where
  event_delete event_apply : EventAction
  other_action : ℕ → EventAction

pub record DiscoveredTarget : Type 0 where
  pub name : String
  pub address : String
  pub port : ℤ
  pub labels : Dict String String
  pub target_profile : String

pub record DiscoveryEvent : Type 0 where
  pub target : DiscoveredTarget
  pub event : EventAction

pub record DiscoverySnapshot : Type 0 where
  pub snapshot_id : String
  pub chunk_index : ℤ
  pub total_chunks : ℤ
  pub targets : List DiscoveredTarget

-- The interface has two implementations; `unknown` is a nil interface value.
pub data DiscoveryMessage : Type 0 where
  snapshot : DiscoverySnapshot → DiscoveryMessage
  event : DiscoveryEvent → DiscoveryMessage
  unknown : DiscoveryMessage

-- The Target resource: its metadata, with the owner that SetControllerReference writes, and spec.
pub record Target : Type 0 where
  pub name : String
  pub namespace : String
  pub labels : Dict String String
  pub owner : Option String
  pub address : String
  pub profile : String

pub record TargetSource : Type 0 where
  pub name : String
  pub namespace : String
  pub target_port : ℤ
  pub target_labels : Dict String String
  pub target_profile : String
