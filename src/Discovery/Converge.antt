-- ===== src/Discovery/Converge.antt =====
-- `reconcile`, the part of applySnapshot after the chunks are put together, over an API server that
-- works: what it leaves in the cluster.
use mathlib.Core.List.{foldl, foldl-append, append-nil, append_assoc}
use text.Mathlib.TextEquality.{eq_iff}
use gnmic_operator.Prelude.{
  ◌%◌, String, Bool, true, false, ◌&&◌, not, Option, none, some, List, [], ◌∷◌, ◌++◌, map, ◌≡◌,
  refl, ap, subst, ◌∙◌, sym, string_eq, if◌then◌else◌, contains, length, arith, ==_cases, inl, inr,
}
use gnmic_operator.Prelude.Dict.{Dict, lookup, insert, is_some, lookup-insert}
use gnmic_operator.Discovery.Types.{DiscoveredTarget, DiscoveryEvent, Target, TargetSource}
use gnmic_operator.Discovery.Mapper.{
  generate_target_resource, discovered_map, delete_events, apply_of, generate_events,
}
use gnmic_operator.Discovery.Client.{Api, fetch_existing_targets, source_labels}
use gnmic_operator.Discovery.Processor.{
  Processor, Failure, SnapshotBuffer, u32, apply_event, apply_events, update_status, process_event,
  replay_deferred, reconcile, existing_or_none, finish,
}
use gnmic_operator.Discovery.Reliable.{Store, IsReliable, is_selected}
use gnmic_operator.Discovery.Effects.{
  resource, event_at, AllFree, apply_events_lem, update_status_keeps,
}

-- The discovered target of that name; the last one counts.
abbrev pub discovered_as : String → List DiscoveredTarget → Option DiscoveredTarget
discovered_as n ds = lookup n (discovered_map [] ds)

abbrev over : TargetSource → Option Target → Option DiscoveredTarget → Option Target
over ts old none = old
over ts old (some d) = some (resource ts d old)

-- What a snapshot leaves at a name: the resource of the discovered target; else nothing, where the
-- source had a target there; else what was there.
abbrev pub expected : TargetSource → Option DiscoveredTarget → Option Target → Option Target
expected ts none old = if is_selected (source_labels ts) old then none else old
expected ts (some d) old = some (resource ts d old)

-- The outcome of a snapshot that is reconciled while it is active, over the store `before`.
pub record IsReconciled {W : Type 0} (targets : String → W → Store) (ts : TargetSource)
    (ds : List DiscoveredTarget) (before : Store) (result : Option Failure × Processor W)
    : Type 0 where
  pub succeeds : result.0 ≡ none
  pub idle : result.1.active_snapshot ≡ none
  pub nothing_deferred : result.1.deferred_events ≡ []
  pub counted : result.1.target_count ≡ length ds % u32
  pub at_name :
      (n : String)
      → lookup n (targets ts.namespace result.1.world)
        ≡ expected ts (discovered_as n ds) (lookup n before)

module _ (ts : TargetSource) (n : String) where
  foldl-delete_events :
      (m : Dict String DiscoveredTarget) (es : List Target) (old : Option Target)
      → foldl (event_at ts n) old (delete_events m es)
        ≡ (if contains (map (λ t. t.name) es) n && not (is_some (lookup n m)) then none else old)
  unfolding delete_events
  foldl-delete_events m [] old = refl
  foldl-delete_events m (e ∷ es) old =
      ground (arith, eq_iff e.name n, foldl-delete_events m es old, foldl-delete_events m es none)

  resource_again :
      (d d' : DiscoveredTarget) (old : Option Target)
      → d.name ≡ n
      → d'.name ≡ n
      → resource ts d (some (resource ts d' old)) ≡ resource ts d old
  unfolding resource generate_target_resource
  resource_again d d' none p q = ap (λ k. record (resource ts d none) { name = k }) (q ∙ sym p)
  resource_again d d' (some t) p q = refl

  named-insert :
      (d : DiscoveredTarget) (m : Dict String DiscoveredTarget)
      → ((c : DiscoveredTarget) → lookup n m ≡ some c → c.name ≡ n)
      → (c : DiscoveredTarget) → lookup n (insert d.name d m) ≡ some c
      → c.name ≡ n
  named-insert d m named c e = ground (arith, lookup-insert d.name n d m, eq_iff d.name n, named c)

  applied_over :
      (d : DiscoveredTarget) (o : Option DiscoveredTarget) (old : Option Target)
      → ((c : DiscoveredTarget) → o ≡ some c → c.name ≡ n)
      → d.name ≡ n
      → some (resource ts d (over ts old o)) ≡ some (resource ts d old)
  applied_over d none old named p = refl
  applied_over d (some c) old named p = ap some (resource_again d c old p (named c refl))

  step :
      (d : DiscoveredTarget) (m : Dict String DiscoveredTarget) (old : Option Target)
      → ((c : DiscoveredTarget) → lookup n m ≡ some c → c.name ≡ n)
      → event_at ts n (over ts old (lookup n m)) (apply_of d)
        ≡ over ts old (lookup n (insert d.name d m))
  step d m old named = elim (==_cases d.name n) [
    | inl same ↦
        rw (lookup-insert, (eq_iff d.name n).1 same) (applied_over d (lookup n m) old named same)
    | inr other ↦ ground (arith, lookup-insert d.name n d m, eq_iff d.name n)
  ]

  foldl-applies :
      (ds : List DiscoveredTarget) (m : Dict String DiscoveredTarget) (old : Option Target)
      → ((d : DiscoveredTarget) → lookup n m ≡ some d → d.name ≡ n)
      → foldl (event_at ts n) (over ts old (lookup n m)) (map apply_of ds)
        ≡ over ts old (lookup n (discovered_map m ds))
  unfolding discovered_map
  foldl-applies [] m old named = refl
  foldl-applies (d ∷ ds) m old named =
      ap (λ v. foldl (event_at ts n) v (map apply_of ds)) (step d m old named)
      ∙ foldl-applies ds (insert d.name d m) old (named-insert d m named)

  applies :
      (ds : List DiscoveredTarget) (old : Option Target)
      → foldl (event_at ts n) old (map apply_of ds) ≡ over ts old (discovered_as n ds)
  unfolding lookup
  applies ds old = foldl-applies ds [] old (λ c p. cc)

  kept_over :
      (listed : Bool) (o : Option DiscoveredTarget) (old : Option Target)
      → listed ≡ is_selected (source_labels ts) old
      → over ts (if listed && not (is_some o) then none else old) o ≡ expected ts o old
  kept_over true none old p = ground arith
  kept_over false none old p = ground arith
  kept_over true (some d) old p = refl
  kept_over false (some d) old p = refl

  -- The events of a snapshot leave what is expected.
  foldl-generate_events :
      (existing : List Target) (ds : List DiscoveredTarget) (old : Option Target)
      → contains (map (λ t. t.name) existing) n ≡ is_selected (source_labels ts) old
      → foldl (event_at ts n) old (generate_events existing ds)
        ≡ expected ts (discovered_as n ds) old
  unfolding generate_events
  foldl-generate_events existing ds old listed =
      rw foldl-append
        (rw foldl-delete_events (applies ds _ ∙ kept_over _ (discovered_as n ds) old listed))

module _ {W : Type 0} {api : Api W} {targets : String → W → Store} (ts : TargetSource)
    (r : IsReliable api targets) where
  apply_event_active :
      (e : DiscoveryEvent) (m : Processor W)
      → (apply_event api ts e m).1.active_snapshot ≡ m.active_snapshot
  unfolding apply_event
  apply_event_active e m = refl

  apply_events_active :
      (es : List DiscoveryEvent) (m : Processor W)
      → (apply_events api ts es m).active_snapshot ≡ m.active_snapshot
  unfolding apply_events
  apply_events_active [] m = refl
  apply_events_active (e ∷ es) m =
      apply_events_active es (apply_event api ts e m).1 ∙ apply_event_active e m

  process_event_active :
      (e : DiscoveryEvent) (m : Processor W) (s : SnapshotBuffer)
      → m.active_snapshot ≡ some s
      → process_event api ts e m
        ≡ (none, record m { deferred_events = m.deferred_events ++ e ∷ [] })
  unfolding process_event
  process_event_active e m s a = ground arith

  -- While a snapshot is active the replay defers each event again.
  replay_active :
      (es : List DiscoveryEvent) (m : Processor W) (s : SnapshotBuffer)
      → m.active_snapshot ≡ some s
      → replay_deferred api ts es m
        ≡ (true, none, record m { deferred_events = m.deferred_events ++ es })
  unfolding replay_deferred
  replay_active [] m s a = ground (arith, append-nil m.deferred_events)
  replay_active (e ∷ es) m s a = ground (
    arith,
    r.live m.world,
    process_event_active e m s a,
    replay_active es (record m { deferred_events = m.deferred_events ++ e ∷ [] }) s a,
    append_assoc m.deferred_events (e ∷ []) es,
  )

  -- The state after the events of a snapshot: only the world has changed.
  apply_events_frame :
      (es : List DiscoveryEvent) (m : Processor W)
      → apply_events api ts es m ≡ record m { world = (apply_events api ts es m).world }
  unfolding apply_events apply_event
  apply_events_frame [] m = refl
  apply_events_frame (e ∷ es) m = apply_events_frame es (apply_event api ts e m).1

  -- The world of the events, and the state in which the replay leaves the processor.
  module _ (ds : List DiscoveredTarget) (m : Processor W) (s : SnapshotBuffer)
      (active : m.active_snapshot ≡ some s) where
    abbrev world_after : Option (List Target) × W → W
    world_after p =
        (apply_events api ts (generate_events (existing_or_none api ts p.0) ds)
          (record m { world = p.1 })).world

    reconcile_world : W
    reconcile_world = world_after (fetch_existing_targets api ts m.world)

    reconcile_lem :
        reconcile api ts ds m
        ≡ finish api ts ds (
          true,
          none,
          record m {
            world = reconcile_world;
            deferred_events = m.deferred_events ++ m.deferred_events;
          },
        )
    unfolding reconcile reconcile_world
    reconcile_lem =
        ap (λ k. finish api ts ds (replay_deferred api ts k.deferred_events k))
          (apply_events_frame
            (generate_events (existing_or_none api ts (fetch_existing_targets api ts m.world).0) ds)
            (record m { world = (fetch_existing_targets api ts m.world).1 }))
        ∙ ap (finish api ts ds)
            (replay_active m.deferred_events (record m { world = reconcile_world }) s active)

    reconcile_world_lem :
        (n : String)
        → AllFree ts (targets ts.namespace m.world)
        → lookup n (targets ts.namespace reconcile_world)
          ≡ expected ts (discovered_as n ds) (lookup n (targets ts.namespace m.world))
    unfolding reconcile_world fetch_existing_targets
    reconcile_world_lem n free =
        let (l, listed, same) = r.list_lem ts.namespace (source_labels ts) m.world in
        subst
          (λ p.
            lookup n (targets ts.namespace (world_after p))
            ≡ expected ts (discovered_as n ds) (lookup n (targets ts.namespace m.world)))
          (sym listed)
          (apply_events_lem ts r (generate_events l ds) m free n
            ∙ foldl-generate_events ts n l ds (lookup n (targets ts.namespace m.world)) (same n))

    pub reconcile-IsReconciled :
        AllFree ts (targets ts.namespace m.world)
        → IsReconciled targets ts ds (targets ts.namespace m.world) (reconcile api ts ds m)
    unfolding update_status
    reconcile-IsReconciled free = rw reconcile_lem (record {
      succeeds = refl;
      idle = refl;
      nothing_deferred = refl;
      counted = refl;
      at_name = λ n.
          ap (lookup n) (
            update_status_keeps ts r (record m {
              world = reconcile_world;
              deferred_events = m.deferred_events ++ m.deferred_events;
              target_count = length ds % u32;
            }))
          ∙ reconcile_world_lem n free;
    })
