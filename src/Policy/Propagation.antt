-- ===== src/Policy/Propagation.antt =====
-- What a repair's propagated events do to the derived state (src/qste/policy/service.py).
use mathlib.Core.List.{foldl, foldl-append}
use qste.Base.{
  String, ◌≡◌, refl, ap, ◌∙◌, Bool, true, false, List, [], ◌∷◌, ◌++◌, str_eq, contains, any, map,
  ◌&&◌, ◌||◌, if◌then◌else◌, arith, Bool-cases, inl, inr, eq_iff, eq_refl,
}
use qste.Policy.State.{
  PolicyEvent, Axes, permitted, revoked, released, RepairAction, pause, revoke, restrict, restore,
  release_pause, authorization_revoked, use_paused, pause_released, authorization_restored,
  dependency_invalidated, read_event, read_events, state_of, current_policy_state, action_set_after,
  axes_after, policy_state_after, propagation_event_type, event_for, propagate_event,
  current_authorization, read_authorization, is_blocked,
}

-- An event of a repair sets the axes as the repair says.
read_event-axes_after :
    (target : String) (action : RepairAction) (a : Axes)
    → read_event target a (event_for (propagation_event_type action) target) ≡ axes_after action a
unfolding read_event propagation_event_type
read_event-axes_after target pause a = rw (eq_refl target)
read_event-axes_after target _ a = rw (eq_refl target)

read_event-other :
    (target id type : String) (a : Axes)
    → str_eq id target ≡ false
    → read_event target a (event_for type id) ≡ a
unfolding read_event
read_event-other target id type a h = rw h

axes_after-twice :
    (action : RepairAction) (a : Axes)
    → axes_after action (axes_after action a) ≡ axes_after action a
axes_after-twice pause a = refl
axes_after-twice _ a = refl

if_same {ℓ} : {A : Type ℓ} (b : Bool) (x : A) → (if b then x else x) ≡ x
if_same true x = refl
if_same false x = refl

str_eq_comm : (s t : String) → str_eq t s ≡ false → str_eq s t ≡ false
str_eq_comm s t h = ground (arith, eq_iff s t, eq_iff t s)

-- The events for a list of members, read for one target.
read_members :
    (target : String) (action : RepairAction) (members : List String) (a : Axes)
    → foldl (read_event target) a (map (event_for (propagation_event_type action)) members)
      ≡ (if contains target members then axes_after action a else a)
read_members target action [] a = refl
read_members target action (id ∷ members) a = elim (Bool-cases (str_eq id target)) [
  | inl same ↦ rw ((eq_iff id target).0 same) (
      rw
        (
          read_event-axes_after target action a,
          read_members target action members (axes_after action a),
          axes_after-twice action a,
          eq_refl target,
        )
        (if_same (contains target members) (axes_after action a)))
  | inr other ↦
      ap
        (λ s. foldl (read_event target) s (map (event_for (propagation_event_type action)) members))
        (read_event-other target id (propagation_event_type action) a other)
      ∙ rw (str_eq_comm target id other) (read_members target action members a)
]

read_events-propagate :
    (target : String) (action : RepairAction) (members : List String) (events : List PolicyEvent)
    → read_events target (propagate_event members (propagation_event_type action) events) ≡ (
        if contains target members
        then axes_after action (read_events target events)
        else read_events target events)
unfolding read_events propagate_event
read_events-propagate target action members events =
    foldl-append _ _ events _ ∙ read_members target action members (read_events target events)

-- Repairs whose event carries their whole effect on the derived state.
pub data IsStatusAction : RepairAction → Type 0 where
  by_pause : IsStatusAction pause
  by_revoke : IsStatusAction revoke
  by_restrict : IsStatusAction restrict
  by_restore : IsStatusAction restore
  by_release_pause : IsStatusAction release_pause

state_of-after :
    {action : RepairAction}
    → IsStatusAction action
    → (a : Axes) → state_of (axes_after action a) ≡ policy_state_after action (state_of a)
unfolding state_of policy_state_after action_set_after
state_of-after by_pause a = ground arith
state_of-after by_revoke a = ground arith
state_of-after by_restrict a = ground arith
state_of-after by_restore a = ground arith
state_of-after by_release_pause a = ground arith

-- After a pause, revoke, restrict, restore or release of a pause is propagated to a closure, the
-- state that is derived from the event log for a member is the state that the repair's successor
-- record announced from the state before, its action set included.
pub propagate_event-refines :
    (target : String) {action : RepairAction} (members : List String) (events : List PolicyEvent)
    → IsStatusAction action
    → contains target members ≡ true
    → current_policy_state target (propagate_event members (propagation_event_type action) events)
      ≡ policy_state_after action (current_policy_state target events)
unfolding current_policy_state
propagate_event-refines target {action} members events status member =
    ap state_of (read_events-propagate target action members events ∙ rw member)
    ∙ state_of-after status (read_events target events)

-- A record outside the closure keeps its derived state, whatever the repair.
pub propagate_event-frame :
    (target : String) (action : RepairAction) (members : List String) (events : List PolicyEvent)
    → contains target members ≡ false
    → current_policy_state target (propagate_event members (propagation_event_type action) events)
      ≡ current_policy_state target events
unfolding current_policy_state
propagate_event-frame target action members events outside =
    ap state_of (read_events-propagate target action members events ∙ rw outside)

read_history :
    (target : String) (a : Axes)
    → foldl (read_event target) a (
        event_for authorization_revoked target
        ∷ event_for use_paused target
        ∷ event_for pause_released target
        ∷ [])
      ≡ record { authorization = revoked; pause = released }
unfolding read_event
read_history target a = rw (eq_refl target)

-- Once a record has been revoked, paused and released, in this order, `current_authorization`, by
-- which exports are refused, says that it is permitted, while the derived state says that it is
-- still revoked and leaves only an appeal.
pub current_authorization_forgets_revocation :
    (target : String) (events : List PolicyEvent)
    → let log =
        events
        ++ event_for authorization_revoked target
          ∷ event_for use_paused target
          ∷ event_for pause_released target
          ∷ [] in
      (current_authorization target log ≡ permitted)
      × (current_policy_state target log ≡ record {
        authorization_status = revoked;
        pause_status = released;
        action_set = "appeal" ∷ [];
      })
current_authorization_forgets_revocation target events = (
  unfold current_authorization read_authorization in
      (foldl-append _ permitted events _ ∙ rw (eq_refl target)),
  unfold current_policy_state read_events state_of in
      ap state_of (foldl-append _ _ events _ ∙ read_history target (read_events target events)),
)

-- The event types that block a record, and those that free it.
unfoldable pub blocking_types : List String
blocking_types = authorization_revoked ∷ use_paused ∷ dependency_invalidated ∷ []

unfoldable pub releasing_types : List String
releasing_types = authorization_restored ∷ pause_released ∷ []

-- The event is on the record and has a known type.
unfoldable pub decides : String → PolicyEvent → Bool
decides target e =
    str_eq e.subject_record_id target
    && (contains e.event_type blocking_types || contains e.event_type releasing_types)

is_blocked-skip :
    (target : String) (e : PolicyEvent) (rest : List PolicyEvent)
    → decides target e ≡ false
    → is_blocked target (e ∷ rest) ≡ is_blocked target rest
unfolding is_blocked decides blocking_types releasing_types
is_blocked-skip target e rest h = ground arith

is_blocked-decided :
    (target : String) (e : PolicyEvent) (rest : List PolicyEvent)
    → decides target e ≡ true
    → is_blocked target (e ∷ rest) ≡ contains e.event_type blocking_types
unfolding is_blocked decides blocking_types releasing_types
is_blocked-decided target e rest h = ground arith

-- The first event on a record that has a known type decides `_is_blocked` for good, whatever events
-- follow: the record is blocked exactly when this event is a revocation, a pause or an invalidation,
-- and not when it is a restoration or a release. Events of other records and of other types before
-- it do not count.
pub is_blocked_by_first_event :
    (target : String) (first later : List PolicyEvent) (e : PolicyEvent)
    → any (decides target) first ≡ false
    → decides target e ≡ true
    → is_blocked target (first ++ e ∷ later) ≡ contains e.event_type blocking_types
is_blocked_by_first_event target [] later e h k = is_blocked-decided target e later k
is_blocked_by_first_event target (d ∷ first) later e h k =
    is_blocked-skip target d (first ++ e ∷ later) (ground arith)
    ∙ is_blocked_by_first_event target first later e (ground arith) k
