-- ===== src/Discovery/Tests.antt =====
-- The theorems on discovery at concrete inputs.
use gnmic_operator.Prelude.{
  concat, ℕ, ◌<◌, pos, String, true, false, Option, none, some, List, [], ◌∷◌, ◌≡◌, refl, inl, inr,
  arith, contains, length, ◌⊎◌, Bool-cases, ◌==◌, string_eq, nat_eq, if◌then◌else◌, map,
}
use gnmic_operator.Prelude.Dict.{insert, lookup}
use gnmic_operator.Discovery.Types.{
  event_apply, DiscoveredTarget, DiscoveryEvent, DiscoverySnapshot, snapshot, Target, TargetSource,
}
use gnmic_operator.Discovery.Mapper.{generate_target_resource, label_target_source_name}
use gnmic_operator.Discovery.Processor.{
  Processor, SnapshotBuffer, new_message_processor, reconcile, process_message,
}
use gnmic_operator.Discovery.Run.{drain, run}
use gnmic_operator.Discovery.Mapper.{discovered_map}
use gnmic_operator.Discovery.Send.{create_discovery_snapshots}
use gnmic_operator.Discovery.Effects.{AllFree}
use gnmic_operator.Discovery.Frames.{IsSound, IsValid-idle}
use gnmic_operator.Discovery.Converge.{IsReconciled, reconcile-IsReconciled}
use gnmic_operator.Discovery.Invariant.{IsSound-process_message}
use gnmic_operator.Discovery.Batches.{arrive, run-IsReconciled}
use gnmic_operator.Discovery.Chunks.{IsCut, chunk_count, create_discovery_snapshots-IsCut}
use gnmic_operator.Discovery.Delivery.{IsDelivered, chunk_message, normal, deliver_lem}
use gnmic_operator.Discovery.Labels.{lookup-labels, or_else}
use gnmic_operator.Discovery.Memory.{Server, stored_targets, memory, memory-IsReliable}

abbrev source : TargetSource
source = record {
  name = "lab";
  namespace = "net";
  target_port = pos 57400;
  target_labels = ("site", "a") ∷ ("role", "leaf") ∷ [];
  target_profile = "default";
}

abbrev found_target : String → DiscoveredTarget
found_target n = record {
  name = n;
  address = "10.0.0.1";
  port = pos 0;
  labels = ("role", "spine") ∷ [];
  target_profile = "";
}

abbrev three : List DiscoveredTarget
three = found_target "r1" ∷ found_target "r2" ∷ found_target "r3" ∷ []

-- A target that the source created before and that is not discovered again.
abbrev stale : Target
stale = record {
  name = "old";
  namespace = "net";
  labels = (label_target_source_name, "lab") ∷ [];
  owner = some "lab";
  address = "10.0.0.9:57400";
  profile = "default";
}

abbrev server : Server
server = record {
  stores = λ ns. if ns == "net" then ("old", stale) ∷ [] else [];
  status = record { targets_count = 0; last_sync = 0 };
}

abbrev buffer : SnapshotBuffer
buffer = record { snapshot_id = "s"; total_chunks = pos 1; received = []; complete = false }

abbrev first_chunk : DiscoverySnapshot
first_chunk = record {
  snapshot_id = "s";
  chunk_index = pos 0;
  total_chunks = pos 2;
  targets = three;
}

abbrev idle_processor : Processor Server
idle_processor = record {
  queue = [];
  active_snapshot = none;
  deferred_events = [];
  target_count = 0;
  world = server;
}

abbrev active_processor : Processor Server
active_processor = record idle_processor { active_snapshot = some buffer }

abbrev late_event : DiscoveryEvent
late_event = record { target = found_target "r9"; event = event_apply }

stale_free :
    (n : String) (t : Target) (o : Option Target)
    → (o ≡ some stale) ⊎ (o ≡ none)
    → o ≡ some t
    → (t.owner ≡ none) ⊎ (t.owner ≡ some "lab")
stale_free n t o (inl h) e = inr (ground arith)
stale_free n t o (inr h) e = absurd (ground arith)

one_or_none :
    (n : String)
    → (lookup n (server.stores "net") ≡ some stale) ⊎ (lookup n (server.stores "net") ≡ none)
unfolding lookup
one_or_none n = elim (Bool-cases ("old" == n)) [
  | inl same ↦ inl (rw same)
  | inr other ↦ inr (rw other)
]

server_free : AllFree source (stored_targets "net" server)
unfolding AllFree
server_free n t e = stale_free n t (lookup n (server.stores "net")) (one_or_none n) e

below_two : (j : ℕ) → contains (1 ∷ 0 ∷ []) j ≡ true → j < 2
below_two j h = ground arith

-- The second chunk arrives first.
deliver_example :
    IsDelivered stored_targets source
      (map (normal source three "s" 2) three)
      (stored_targets "net" server)
      (drain memory source (map (chunk_message source three "s" 2) (1 ∷ 0 ∷ [])) idle_processor)
deliver_example =
    deliver_lem source three "s" 2 memory-IsReliable (1 ∷ 0 ∷ []) idle_processor (omega arith)
      server_free refl refl below_two refl (omega arith)

-- An event that is deferred until after the snapshot is never applied.
deferred_lost :
    lookup "r9" (
      stored_targets "net"
        (reconcile memory source three
          (record active_processor { deferred_events = late_event ∷ [] })).1.world)
    ≡ none
unfolding lookup discovered_map insert
deferred_lost =
    (reconcile-IsReconciled source memory-IsReliable three
        (record active_processor { deferred_events = late_event ∷ [] }) buffer refl
        server_free).at_name
      "r9"

process_message_example :
    IsSound (process_message memory source (snapshot first_chunk) idle_processor)
process_message_example =
    IsSound-process_message memory source (snapshot first_chunk) idle_processor
      (IsValid-idle idle_processor refl)

below_two_batches : (j : ℕ) → contains (concat ((1 ∷ []) ∷ [] ∷ (0 ∷ []) ∷ [])) j ≡ true → j < 2
below_two_batches j h = ground arith

-- Each chunk in its own batch, and an empty batch between them.
run_example :
    IsReconciled stored_targets source
      (map (normal source three "s" 2) three)
      (stored_targets "net" server)
      (run memory source
        (map (arrive source three "s" 2) ((1 ∷ []) ∷ [] ∷ (0 ∷ []) ∷ []))
        (new_message_processor server))
run_example =
    run-IsReconciled source three "s" 2 memory-IsReliable server (omega arith) server_free
      ((1 ∷ []) ∷ [] ∷ (0 ∷ []) ∷ []) refl below_two_batches refl (omega arith)

create_discovery_snapshots_example :
    (ss : List DiscoverySnapshot) × (create_discovery_snapshots 3 three "s" 2 ≡ some (none, ss))
    × IsCut three "s" 2 ss
    × (length ss ≡ chunk_count 3 2)
create_discovery_snapshots_example =
    create_discovery_snapshots-IsCut three "s" 2 3 (omega arith) (omega arith)

labels_example : lookup "role" (generate_target_resource (found_target "r1") source).labels ≡ (
    if label_target_source_name == "role"
    then some "lab"
    else or_else (lookup "role" (found_target "r1").labels) (lookup "role" source.target_labels))
labels_example = lookup-labels (found_target "r1") source "role" refl refl
