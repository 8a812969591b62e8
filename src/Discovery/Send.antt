-- ===== src/Discovery/Send.antt =====
-- internal/controller/discovery/loaders/utils/send.go: a list of targets is sent as a snapshot in
-- chunks, and events in batches. The channel is a parameter: `send` is the select that either hands
-- over a batch or finds the context done.
use gnmic_operator.Prelude.{
  ℕ, zero, suc, ◌+◌, ◌-◌, ◌/◌, pos, String, Bool, true, false, Option, none, some, List, [], ◌∷◌,
  ◌++◌, map, ltb, nat_beq, if◌then◌else◌, length, take, drop,
}
use gnmic_operator.Discovery.Types.{
  DiscoveredTarget, DiscoveryEvent, DiscoverySnapshot, DiscoveryMessage, snapshot, event,
}

pub data SendError : Type 0 where
  context_err no_targets no_events : SendError

-- What sends a batch: `true` when the channel took it.
abbrev pub Send : Type 0 → Type 0
Send W = List DiscoveryMessage → W → Bool × W

unfoldable pub send_messages :
    {W : Type 0} → Send W → List DiscoveryMessage → W → Option SendError × W
send_messages send messages w =
    let (taken, w') = send messages w in (if taken then none else some context_err, w')

abbrev pub no_error : {E : Type 0} → Option E → Bool
no_error none = true
no_error (some _) = false

-- s[i:end]
abbrev pub slice {ℓ} : {A : Type ℓ} → ℕ → ℕ → List A → List A
slice i end xs = take (end - i) (drop i xs)

-- The loop of forEachChunk, on fuel: `none` means that it ran out. `fn` works on a state.
unfoldable pub for_each_chunk :
    {S E : Type 0} → ℕ → ℕ → ℕ → ℕ → (ℕ → ℕ → S → Option E × S) → S → Option (Option E × S)
for_each_chunk zero i total chunk_size fn s = none
for_each_chunk (suc f) i total chunk_size fn s =
    let end = if ltb total (i + chunk_size) then total else i + chunk_size in
    let (err, s') = fn i end s in
    let rest = for_each_chunk f (i + chunk_size) total chunk_size fn s' in
    if ltb i total then (if no_error err then rest else some (err, s')) else some (none, s)

abbrev pub chunk_snapshot : List DiscoveredTarget → String → ℕ → ℕ → ℕ → DiscoverySnapshot
chunk_snapshot targets id chunk_size i end = record {
  snapshot_id = id;
  chunk_index = pos (i / chunk_size);
  total_chunks = pos ((length targets + chunk_size - 1) / chunk_size);
  targets = slice i end targets;
}

-- The function that the loop calls: it appends one snapshot, and has no error.
abbrev pub append_chunk :
    List DiscoveredTarget
    → String
    → ℕ
    → ℕ
    → ℕ
    → List DiscoverySnapshot
    → Option SendError × List DiscoverySnapshot
append_chunk targets id chunk_size i end snapshots =
    (none, snapshots ++ chunk_snapshot targets id chunk_size i end ∷ [])

-- A chunk size of 0 makes the source divide by zero; the theorems ask for a positive one.
unfoldable pub create_discovery_snapshots :
    ℕ → List DiscoveredTarget → String → ℕ → Option (Option SendError × List DiscoverySnapshot)
unfolding for_each_chunk
create_discovery_snapshots fuel targets id chunk_size =
    for_each_chunk fuel 0 (length targets) chunk_size (append_chunk targets id chunk_size) []

unfoldable pub send_all : {W : Type 0} → Send W → List DiscoverySnapshot → W → Option SendError × W
unfolding send_messages
send_all send [] w = (none, w)
send_all send (s ∷ ss) w =
    let (err, w') = send_messages send (snapshot s ∷ []) w in
    let rest = send_all send ss w' in if no_error err then rest else (err, w')

abbrev send_created :
    {W : Type 0}
    → Send W
    → W
    → Option (Option SendError × List DiscoverySnapshot)
    → Option (Option SendError × W)
send_created send w none = none
send_created send w (some (_, ss)) = some (send_all send ss w)

unfoldable pub send_snapshot :
    {W : Type 0}
    → ℕ
    → Send W
    → List DiscoveredTarget
    → String
    → ℕ
    → W
    → Option (Option SendError × W)
unfolding create_discovery_snapshots send_all
send_snapshot fuel send targets id chunk_size w =
    if nat_beq (length targets) 0
    then some (some no_targets, w)
    else send_created send w (create_discovery_snapshots fuel targets id chunk_size)

unfoldable pub events_to_messages : List DiscoveryEvent → List DiscoveryMessage
events_to_messages events = map event events

unfoldable pub send_events :
    {W : Type 0} → ℕ → Send W → List DiscoveryEvent → ℕ → W → Option (Option SendError × W)
unfolding for_each_chunk send_messages events_to_messages
send_events fuel send events chunk_size w =
    let messages = events_to_messages events in
    if nat_beq (length events) 0
    then some (some no_events, w)
    else for_each_chunk fuel 0 (length messages) chunk_size
        (λ i end v. send_messages send (slice i end messages) v) w
