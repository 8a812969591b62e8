-- ===== src/Discovery/Processor.antt =====
-- internal/controller/discovery/message_processor.go: the message processor of one TargetSource.
-- A method takes the state and returns its error and the new state; the logger is left out. The
-- state holds the world of the API, so that the order of all calls is the code's.
use gnmic_operator.Prelude.{
  ℕ, zero, suc, ◌+◌, ◌-◌, ◌%◌, ℤ, pos, negsuc, geb_ℤ, eqb_ℤ, rounds, String, Bool, true, false,
  Option, none, some, List, [], ◌∷◌, ◌++◌, map, ◌==◌, nat_eq, string_eq, if◌then◌else◌, length,
}
use gnmic_operator.Prelude.Dict.{Dict, lookup, insert, is_some}
use gnmic_operator.Discovery.Types.{
  EventAction, event_delete, event_apply, other_action, DiscoveredTarget, DiscoveryEvent,
  DiscoverySnapshot, DiscoveryMessage, snapshot, event, unknown, Target, TargetSource,
}
use gnmic_operator.Discovery.Mapper.{generate_target_resource, generate_events, normalize_target}
use gnmic_operator.Discovery.Client.{
  Api, fetch_existing_targets, apply_target, delete_target, update_target_source_status,
}

-- int32 arithmetic, on the bit pattern
abbrev pub u32 : ℕ
u32 = 4294967296

pub record SnapshotBuffer : Type 0 where
  pub snapshot_id : String
  pub total_chunks : ℤ
  pub received : Dict ℕ (List DiscoveredTarget)
  pub complete : Bool

pub record Processor (W : Type 0) : Type 0 where
  pub queue : List DiscoveryMessage
  pub active_snapshot : Option SnapshotBuffer
  pub deferred_events : List DiscoveryEvent
  pub target_count : ℕ
  pub world : W

-- The errors of the processor; `none` is nil.
pub data Failure : Type 0 where
  cancelled api_failure total_chunks_mismatch invalid_chunk_index duplicate_chunk : Failure
  missing_chunk : ℕ → Failure
  unknown_message : Failure

-- What the loop over the chunks of a snapshot ends with.
pub data Collected : Type 0 where
  stopped : Collected
  missing : ℕ → Collected
  all : List DiscoveredTarget → Collected

-- NewMessageProcessor
unfoldable pub new_message_processor : {W : Type 0} → W → Processor W
new_message_processor w = record {
  queue = [];
  active_snapshot = none;
  deferred_events = [];
  target_count = 0;
  world = w;
}

abbrev pub no_failure : Option Failure → Bool
no_failure none = true
no_failure (some _) = false

abbrev pub failure_if : Bool → Failure → Option Failure
failure_if true f = some f
failure_if false f = none

module _ {W : Type 0} (api : Api W) (ts : TargetSource) where
  -- One look at the context.
  abbrev pub poll : Processor W → Bool × Processor W
  poll m = let (b, w) = api.done m.world in (b, record m { world = w })

  abbrev pub reset_snapshot : Processor W → Processor W
  reset_snapshot m = record m { active_snapshot = none }

  -- A failure to write the status is only logged.
  unfoldable pub update_status : Processor W → Processor W
  update_status m = record m {
    world = (update_target_source_status api ts m.target_count m.world).1;
  }

  abbrev pub apply_action : EventAction → DiscoveredTarget → W → Bool × W
  apply_action event_delete t w = delete_target api t.name ts.namespace w
  apply_action event_apply t w = apply_target api (generate_target_resource t ts) ts w
  apply_action (other_action _) t w = (true, w)

  unfoldable pub apply_event : DiscoveryEvent → Processor W → Option Failure × Processor W
  apply_event e m =
      let (ok, w) = apply_action e.event e.target m.world in
      (if ok then none else some api_failure, record m { world = w })

  -- targetCount++ and targetCount--, on an int32
  abbrev pub count_event : EventAction → Processor W → Processor W
  count_event event_apply m = update_status (record m { target_count = (m.target_count + 1) % u32 })
  count_event event_delete m =
      update_status (record m { target_count = (m.target_count + u32 - 1) % u32 })
  count_event (other_action _) m = m

  abbrev pub process_idle : DiscoveryEvent → Processor W → Option Failure × Processor W
  process_idle e m =
      let (err, m') = apply_event e m in
      (err, if no_failure err then count_event e.event m' else m')

  unfoldable pub process_event : DiscoveryEvent → Processor W → Option Failure × Processor W
  process_event e m = elim m.active_snapshot [
    | some _ ↦ (none, record m { deferred_events = m.deferred_events ++ e ∷ [] })
    | none ↦ process_idle e m
  ]

  -- The loop over the chunks, from index `i` on, with the rounds left.
  unfoldable pub collect_targets :
      ℕ
      → ℕ
      → Dict ℕ (List DiscoveredTarget)
      → List DiscoveredTarget
      → Processor W
      → Collected × Processor W
  collect_targets zero i received acc m = (all acc, m)
  collect_targets (suc n) i received acc m =
      let (done, m') = poll m in
      if done then (stopped, m') else elim (lookup i received) [
        | none ↦ (missing i, m')
        | some chunk ↦ collect_targets n (suc i) received (acc ++ chunk) m'
      ]

  -- The events of a snapshot; an error is logged, and the next event follows.
  unfoldable pub apply_events : List DiscoveryEvent → Processor W → Processor W
  apply_events [] m = m
  apply_events (e ∷ es) m = apply_events es (apply_event e m).1

  -- The replay ends early when the context is done (`stopped`, no error) or at an error.
  unfoldable pub replay_deferred :
      List DiscoveryEvent → Processor W → Bool × Option Failure × Processor W
  replay_deferred [] m = (true, none, m)
  replay_deferred (e ∷ es) m =
      let (done, m') = poll m in
      if done
      then (false, none, m')
      else let (err, m'') = process_event e m' in
        let rest = replay_deferred es m'' in if no_failure err then rest else (false, err, m'')

  -- `fetchExistingTargets`, whose failure is only logged.
  abbrev pub existing_or_none : Option (List Target) → List Target
  existing_or_none none = []
  existing_or_none (some l) = l

  abbrev pub finish :
      List DiscoveredTarget → Bool × Option Failure × Processor W → Option Failure × Processor W
  finish targets (false, err, m) = (err, m)
  finish targets (true, err, m) = (
    none,
    record (reset_snapshot (update_status (record m { target_count = length targets % u32 }))) {
      deferred_events = [];
    },
  )

  unfoldable pub reconcile : List DiscoveredTarget → Processor W → Option Failure × Processor W
  unfolding apply_events replay_deferred
  reconcile targets m =
      let (existing, w) = fetch_existing_targets api ts m.world in
      let events = generate_events (existing_or_none existing) targets in
      let m' = apply_events events (record m { world = w }) in
      finish targets (replay_deferred m'.deferred_events m')

  abbrev pub apply_collected : Collected × Processor W → Option Failure × Processor W
  apply_collected (stopped, m) = (none, reset_snapshot m)
  apply_collected (missing i, m) = (some (missing_chunk i), reset_snapshot m)
  apply_collected (all targets, m) = reconcile targets m

  unfoldable pub apply_snapshot : SnapshotBuffer → Processor W → Option Failure × Processor W
  unfolding collect_targets
  apply_snapshot s m =
      let (done, m') = poll m in
      if done
      then (none, reset_snapshot m')
      else apply_collected (collect_targets (rounds s.total_chunks) 0 s.received [] m')

  -- The chunk passed all tests: it is stored, and the last one applies the snapshot.
  abbrev pub store_chunk :
      ℕ → DiscoverySnapshot → SnapshotBuffer → Processor W → Option Failure × Processor W
  store_chunk i chunk s m =
      let s' = record s { received = insert i chunk.targets s.received } in
      let full = record s' { complete = true } in
      if eqb_ℤ (pos (length s'.received)) s.total_chunks
      then apply_snapshot full (record m { active_snapshot = some full })
      else (none, record m { active_snapshot = some s' })

  abbrev pub check_index :
      ℤ → DiscoverySnapshot → SnapshotBuffer → Processor W → Option Failure × Processor W
  check_index (negsuc _) chunk s m = (some invalid_chunk_index, reset_snapshot m)
  check_index (pos i) chunk s m =
      if geb_ℤ i s.total_chunks
      then (some invalid_chunk_index, reset_snapshot m)
      else if is_some (lookup i s.received)
      then (some duplicate_chunk, reset_snapshot m)
      else store_chunk i chunk s m

  unfoldable pub collect_snapshot :
      DiscoverySnapshot → SnapshotBuffer → Processor W → Option Failure × Processor W
  collect_snapshot chunk s m =
      if eqb_ℤ chunk.total_chunks s.total_chunks
      then check_index chunk.chunk_index chunk s m
      else (some total_chunks_mismatch, m)

  unfoldable pub start_new_snapshot : DiscoverySnapshot → Processor W → Option Failure × Processor W
  unfolding collect_snapshot
  start_new_snapshot chunk m =
      let s : SnapshotBuffer = record {
        snapshot_id = chunk.snapshot_id;
        total_chunks = chunk.total_chunks;
        received = [];
        complete = false;
      } in
      collect_snapshot chunk s (record m { active_snapshot = some s; deferred_events = [] })

  -- A snapshot of another id: a complete one is applied first, an incomplete one is discarded.
  abbrev pub replace_snapshot :
      DiscoverySnapshot → SnapshotBuffer → Processor W → Option Failure × Processor W
  replace_snapshot chunk s m =
      if s.complete
      then (let (err, m') = apply_snapshot s m in
          if no_failure err then start_new_snapshot chunk m' else (err, m'))
      else start_new_snapshot chunk m

  abbrev pub process_chunk :
      Option SnapshotBuffer → DiscoverySnapshot → Processor W → Option Failure × Processor W
  process_chunk none chunk m = start_new_snapshot chunk m
  process_chunk (some s) chunk m =
      if s.snapshot_id == chunk.snapshot_id
      then collect_snapshot chunk s m
      else replace_snapshot chunk s m

  unfoldable pub process_snapshot : DiscoverySnapshot → Processor W → Option Failure × Processor W
  process_snapshot chunk m = process_chunk m.active_snapshot chunk m

  abbrev pub dispatch : DiscoveryMessage → Processor W → Option Failure × Processor W
  dispatch (snapshot msg) m =
      process_snapshot (record msg { targets = map (λ t. normalize_target t ts.name) msg.targets })
        m
  dispatch (event msg) m =
      process_event (record msg { target = normalize_target msg.target ts.name }) m
  dispatch unknown m = (some unknown_message, m)

  unfoldable pub process_message : DiscoveryMessage → Processor W → Option Failure × Processor W
  process_message msg m =
      let (done, m') = poll m in if done then (some cancelled, m') else dispatch msg m'
