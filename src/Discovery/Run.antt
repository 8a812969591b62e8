-- ===== src/Discovery/Run.antt =====
-- `Run` of internal/controller/discovery/message_processor.go: the loop that reads batches from the
-- channel. What its select may find is a list of arrivals; at the end of the list the channel is
-- closed.
use gnmic_operator.Prelude.{◌%◌, Option, none, some, List, [], ◌∷◌, ◌++◌, if◌then◌else◌, length}
use gnmic_operator.Discovery.Types.{DiscoveryMessage, Target, TargetSource}
use gnmic_operator.Discovery.Client.{Api, fetch_existing_targets}
use gnmic_operator.Discovery.Processor.{
  Processor, Failure, cancelled, no_failure, poll, process_message, u32,
}

-- A batch of messages, or the case of ctx.Done().
pub data Arrival : Type 0 where
  batch : List DiscoveryMessage → Arrival
  context_done : Arrival

-- The inner loop empties the queue, or `Run` returns from it.
pub data Outcome : Type 0 where
  emptied : Outcome
  returned : Option Failure → Outcome

module _ {W : Type 0} (api : Api W) (ts : TargetSource) where
  -- for len(m.queue) > 0
  unfoldable pub drain : List DiscoveryMessage → Processor W → Outcome × Processor W
  drain [] m = (emptied, record m { queue = [] })
  drain (msg ∷ rest) m =
      let (done, m') = poll api ts m in
      let (err, m'') = process_message api ts msg (record m' { queue = rest }) in
      let later = drain rest m'' in
      if done
      then (returned (some cancelled), m')
      else if no_failure err
      then later
      else (returned none, m'')

  abbrev pub initial_count : Option (List Target) → Processor W → Processor W
  initial_count none m = m
  initial_count (some existing) m = record m { target_count = length existing % u32 }

  -- `Run` reads the next batch after an emptied queue.
  abbrev pub go_on :
      Outcome → Option Failure × Processor W → Processor W → Option Failure × Processor W
  go_on emptied later m = later
  go_on (returned err) later m = (err, m)

  -- for { select { … } }
  unfoldable pub serve : List Arrival → Processor W → Option Failure × Processor W
  unfolding drain
  serve [] m = (none, m)
  serve (context_done ∷ _) m = (none, m)
  serve (batch msgs ∷ arrivals) m =
      let q = m.queue ++ msgs in
      let (outcome, m') = drain q (record m { queue = q }) in
      let later = serve arrivals m' in go_on outcome later m'

  unfoldable pub run : List Arrival → Processor W → Option Failure × Processor W
  unfolding serve
  run arrivals m =
      let (existing, w) = fetch_existing_targets api ts m.world in
      serve arrivals (initial_count existing (record m { world = w }))
