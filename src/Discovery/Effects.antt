-- ===== src/Discovery/Effects.antt =====
-- What one event does to the stored targets, read at one name, when the API server works.
use mathlib.Core.List.{foldl}
use gnmic_operator.Prelude.{
  ℕ, String, true, Option, none, some, List, [], ◌∷◌, ◌≡◌, refl, inl, inr, ◌==◌, string_eq,
  if◌then◌else◌, arith, Option-cases, ◌∙◌, sym, Bool-cases,
}
use text.Mathlib.TextEquality.{eq_iff}
use gnmic_operator.Prelude.Dict.{lookup, insert, lookup-insert, lookup-delete}
use gnmic_operator.Discovery.Types.{
  EventAction, event_delete, event_apply, other_action, DiscoveredTarget, DiscoveryEvent, Target,
  TargetSource,
}
use gnmic_operator.Discovery.Mapper.{generate_target_resource}
use gnmic_operator.Discovery.Client.{
  Api, Fetched, found, not_found, failed, SourceStatus, blank, desire, apply_target, delete_target,
  update_target_source_status, write_status,
}
use gnmic_operator.Discovery.Processor.{
  Processor, apply_event, apply_action, apply_events, update_status,
}
use gnmic_operator.Discovery.Reliable.{Store, IsReliable, IsFree, or_blank}

-- The Target that a discovered target becomes, over the object that stood there.
unfoldable pub resource : TargetSource → DiscoveredTarget → Option Target → Target
resource ts d old =
    let desired = generate_target_resource d ts in
    record (desire desired (or_blank (blank desired.name desired.namespace) old)) {
      owner = some ts.name;
    }

abbrev act_at : TargetSource → DiscoveredTarget → EventAction → Option Target → Option Target
act_at ts d event_delete old = none
act_at ts d event_apply old = some (resource ts d old)
act_at ts d (other_action _) old = old

-- One event, at the name `n`.
abbrev pub event_at : TargetSource → String → Option Target → DiscoveryEvent → Option Target
event_at ts n old e = if e.target.name == n then act_at ts e.target e.event old else old

unfoldable pub AllFree : TargetSource → Store → Type 0
AllFree ts d = (n : String) (t : Target) → lookup n d ≡ some t → IsFree ts t

module _ {W : Type 0} {api : Api W} {targets : String → W → Store} (ts : TargetSource)
    (r : IsReliable api targets) where
  delete_target_ok : (n : String) (w : W) → (delete_target api n ts.namespace w).0 ≡ true
  unfolding delete_target
  delete_target_ok n w = elim (Option-cases (lookup n (targets ts.namespace w))) [
    | inl gone ↦ rw (r.get_missing ts.namespace n w gone) refl
    | inr (t, there) ↦
        rw (r.get_found ts.namespace n w t there) (rw (r.delete_written ts.namespace n w) refl)
  ]

  delete_target_lem :
      (n j : String) (w : W)
      → lookup j (targets ts.namespace (delete_target api n ts.namespace w).1)
        ≡ (if n == j then none else lookup j (targets ts.namespace w))
  unfolding delete_target
  delete_target_lem n j w = elim (Option-cases (lookup n (targets ts.namespace w))) [
    | inl gone ↦ rw (r.get_missing ts.namespace n w gone) (ground (arith, eq_iff n j))
    | inr (t, there) ↦
        rw (r.get_found ts.namespace n w t there)
          (rw r.delete_lem (lookup-delete n j (targets ts.namespace w)))
  ]

  IsFree-old :
      (d : Store) (n : String) (b desired : Target)
      → AllFree ts d
      → b.owner ≡ none
      → IsFree ts (desire desired (or_blank b (lookup n d)))
  unfolding AllFree
  IsFree-old d n b desired free e = elim (Option-cases (lookup n d)) [
    | inl gone ↦ rw gone (inl e)
    | inr (t, there) ↦ rw there (free n t there)
  ]

  module _ (d : DiscoveredTarget) (w : W) (free : AllFree ts (targets ts.namespace w)) where
    mutated :
        let desired = generate_target_resource d ts in
        api.set_controller_reference ts (
          desire desired (
            or_blank
              (blank desired.name desired.namespace)
              (lookup desired.name (targets desired.namespace w))))
        ≡ some (resource ts d (lookup d.name (targets ts.namespace w)))
    unfolding resource generate_target_resource
    mutated = r.set_controller_reference_lem ts _ (
        IsFree-old (targets ts.namespace w) d.name (blank d.name ts.namespace)
          (generate_target_resource d ts) free refl)

    apply_target_ok : (apply_target api (generate_target_resource d ts) ts w).0 ≡ true
    unfolding apply_target
    apply_target_ok = r.create_or_update_done _ _ _ w mutated

    apply_target_lem :
        targets ts.namespace (apply_target api (generate_target_resource d ts) ts w).1
        ≡ insert d.name
            (resource ts d (lookup d.name (targets ts.namespace w)))
            (targets ts.namespace w)
    unfolding apply_target generate_target_resource
    apply_target_lem = r.create_or_update_lem _ _ _ w mutated

  apply_action_lem :
      (a : EventAction) (d : DiscoveredTarget) (w : W) (n : String)
      → AllFree ts (targets ts.namespace w)
      → lookup n (targets ts.namespace (apply_action api ts a d w).1) ≡ (
          if d.name == n
          then act_at ts d a (lookup n (targets ts.namespace w))
          else lookup n (targets ts.namespace w))
  apply_action_lem event_delete d w n free = delete_target_lem d.name n w
  apply_action_lem event_apply d w n free = rw (apply_target_lem d w free) (
      ground (
        arith,
        eq_iff d.name n,
        lookup-insert d.name n (resource ts d (lookup d.name (targets ts.namespace w)))
            (targets ts.namespace w),
      ))
  apply_action_lem (other_action _) d w n free = ground arith

  apply_action_ok :
      (a : EventAction) (d : DiscoveredTarget) (w : W)
      → AllFree ts (targets ts.namespace w)
      → (apply_action api ts a d w).0 ≡ true
  apply_action_ok event_delete d w free = delete_target_ok d.name w
  apply_action_ok event_apply d w free = apply_target_ok d w free
  apply_action_ok (other_action _) d w free = refl

  IsFree-event_at :
      (d : DiscoveredTarget) (a : EventAction) (n : String) (old : Option Target) (t : Target)
      → ((s : Target) → old ≡ some s → IsFree ts s)
      → (if d.name == n then act_at ts d a old else old) ≡ some t
      → IsFree ts t
  unfolding resource
  IsFree-event_at d a n old t free e = elim (Bool-cases (d.name == n)) [
    | inr other ↦ free t (ground arith)
    | inl same ↦ acted a (ground arith)
  ]
    where
      acted : (b : EventAction) → act_at ts d b old ≡ some t → IsFree ts t
      acted event_delete p = cc
      acted event_apply p = inr (ground arith)
      acted (other_action _) p = free t p

  -- An event of the processor succeeds, and does to each name what `event_at` says.
  pub apply_event_lem :
      (e : DiscoveryEvent) (m : Processor W)
      → AllFree ts (targets ts.namespace m.world)
      → (n : String)
      → lookup n (targets ts.namespace (apply_event api ts e m).1.world)
        ≡ event_at ts n (lookup n (targets ts.namespace m.world)) e
  unfolding apply_event
  apply_event_lem e m free n = apply_action_lem e.event e.target m.world n free

  pub apply_event_ok :
      (e : DiscoveryEvent) (m : Processor W)
      → AllFree ts (targets ts.namespace m.world)
      → (apply_event api ts e m).0 ≡ none
  unfolding apply_event
  apply_event_ok e m free = rw (apply_action_ok e.event e.target m.world free) refl

  pub AllFree-apply_event :
      (e : DiscoveryEvent) (m : Processor W)
      → AllFree ts (targets ts.namespace m.world)
      → AllFree ts (targets ts.namespace (apply_event api ts e m).1.world)
  AllFree-apply_event e m free =
      unfold AllFree in
      λ n t there.
        IsFree-event_at e.target e.event n (lookup n (targets ts.namespace m.world)) t
          (λ s p. unfold AllFree in free n s p) (sym (apply_event_lem e m free n) ∙ there)

  -- The events of a snapshot, at one name.
  pub apply_events_lem :
      (es : List DiscoveryEvent) (m : Processor W)
      → AllFree ts (targets ts.namespace m.world)
      → (n : String)
      → lookup n (targets ts.namespace (apply_events api ts es m).world)
        ≡ foldl (event_at ts n) (lookup n (targets ts.namespace m.world)) es
  unfolding apply_events
  apply_events_lem [] m free n = refl
  apply_events_lem (e ∷ es) m free n =
      rw (← apply_event_lem e m free n)
        (apply_events_lem es (apply_event api ts e m).1 (AllFree-apply_event e m free) n)

  write_status_keeps :
      (c : ℕ) (latest : Fetched SourceStatus) (w : W)
      → targets ts.namespace (write_status api ts c latest w).1 ≡ targets ts.namespace w
  write_status_keeps c not_found w = refl
  write_status_keeps c failed w = refl
  write_status_keeps c (found latest) w =
      r.update_status_keeps _ _ _ _ _ ∙ r.now_keeps ts.namespace w

  pub update_status_keeps :
      (m : Processor W)
      → targets ts.namespace (update_status api ts m).world ≡ targets ts.namespace m.world
  unfolding update_status update_target_source_status
  update_status_keeps m =
      r.retry_lem _ ts.namespace (targets ts.namespace m.world) attempt m.world refl
    where
      attempt :
          (w : W)
          → targets ts.namespace w ≡ targets ts.namespace m.world
          → targets ts.namespace
              (write_status api ts m.target_count
                (api.get_status ts.namespace ts.name w).0
                (api.get_status ts.namespace ts.name w).1).1
            ≡ targets ts.namespace m.world
      attempt w e =
          write_status_keeps m.target_count (api.get_status ts.namespace ts.name w).0
            (api.get_status ts.namespace ts.name w).1
          ∙ r.get_status_keeps ts.namespace ts.namespace ts.name w
          ∙ e
