-- ===== src/Policy/State.antt =====
-- The authorization and pause state of a record, derived from the event log: `_current_policy_state`,
-- `_policy_state_after`, `_action_set_after`, `_propagation_event_type`, `current_authorization` and
-- `_propagate_event` of src/qste/policy/service.py, and `_is_blocked` of
-- src/qste/transduction/service.py. Of an event these read its type and its subject.
use Prim.Native.Nat.{Ordering}
use Prim.Native.String.{compare}
use mathlib.Core.List.{foldl}
use qste.Base.{
  String, Bool, true, false, not, ◌&&◌, ◌||◌, List, [], ◌∷◌, ◌++◌, str_eq, map, if◌then◌else◌,
}

pub record PolicyEvent : Type 0 where
  pub event_type : String
  pub subject_record_id : String

abbrev pub authorization_revoked : String
authorization_revoked = "qste:authorization-revoked/0.1"

abbrev pub authorization_restored : String
authorization_restored = "qste:authorization-restored/0.1"

abbrev pub use_paused : String
use_paused = "qste:use-paused/0.1"

abbrev pub pause_released : String
pause_released = "qste:pause-released/0.1"

abbrev pub dependency_invalidated : String
dependency_invalidated = "qste:dependency-invalidated/0.1"

pub data Authorization : Type 0 where
  permitted : Authorization
  revoked : Authorization
  refused : Authorization

pub data PauseStatus : Type 0 where
  not_requested : PauseStatus
  requested : PauseStatus
  active : PauseStatus
  denied : PauseStatus
  released : PauseStatus

-- `REPAIR_ACTIONS`
pub data RepairAction : Type 0 where
  pause : RepairAction
  correct : RepairAction
  revoke : RepairAction
  delete : RepairAction
  restrict : RepairAction
  restore : RepairAction
  release_pause : RepairAction

pub record PolicyState : Type 0 where
  pub authorization_status : Authorization
  pub pause_status : PauseStatus
  pub action_set : List String

-- The two local variables of the loop of `_current_policy_state`.
pub record Axes : Type 0 where
  pub authorization : Authorization
  pub pause : PauseStatus

-- The body of the loop.
unfoldable pub read_event : String → Axes → PolicyEvent → Axes
read_event target a e =
    if not (str_eq e.subject_record_id target)
    then a
    else if str_eq e.event_type authorization_revoked
    then record a { authorization = revoked }
    else if str_eq e.event_type authorization_restored
    then record a { authorization = permitted }
    else if str_eq e.event_type use_paused
    then record a { pause = active }
    else if str_eq e.event_type pause_released
    then record a { pause = released }
    else a

unfoldable pub read_events : String → List PolicyEvent → Axes
read_events target events =
    foldl (read_event target) (record { authorization = permitted; pause = not_requested }) events

abbrev pub is_permitted : Authorization → Bool
is_permitted permitted = true
is_permitted _ = false

abbrev pub is_active : PauseStatus → Bool
is_active active = true
is_active _ = false

abbrev pub executable_actions : List String
executable_actions = "reuse" ∷ "project" ∷ "transduce" ∷ []

abbrev pub appeal_only : List String
appeal_only = "appeal" ∷ []

unfoldable pub state_of : Axes → PolicyState
state_of a = record {
  authorization_status = a.authorization;
  pause_status = a.pause;
  action_set =
      if is_permitted a.authorization && not (is_active a.pause)
      then executable_actions
      else appeal_only;
}

unfoldable pub current_policy_state : String → List PolicyEvent → PolicyState
current_policy_state target events = state_of (read_events target events)

-- `sorted({...})` of texts: by code points, without repetition.
unfoldable pub insert_sorted : String → List String → List String
insert_sorted s [] = s ∷ []
insert_sorted s (t ∷ ts) =
    let rest = insert_sorted s ts in
    elim (compare s t) [ Ordering.lt ↦ s ∷ t ∷ ts | Ordering.eq ↦ t ∷ ts | Ordering.gt ↦ t ∷ rest ]

unfoldable pub sorted_set : List String → List String
sorted_set [] = []
sorted_set (s ∷ ss) = insert_sorted s (sorted_set ss)

unfoldable pub action_set_after : RepairAction → List String → List String
action_set_after pause before = appeal_only
action_set_after revoke before = appeal_only
action_set_after restrict before = appeal_only
action_set_after delete before = appeal_only
action_set_after restore before = executable_actions
action_set_after release_pause before = executable_actions
action_set_after correct before = sorted_set (before ++ "use_corrected_successor" ∷ [])

-- The status assignments of `_policy_state_after`.
abbrev pub axes_after : RepairAction → Axes → Axes
axes_after revoke a = record a { authorization = revoked }
axes_after restore a = record a { authorization = permitted }
axes_after pause a = record a { pause = active }
axes_after restrict a = record a { pause = active }
axes_after release_pause a = record a { pause = released }
axes_after _ a = a

unfoldable pub policy_state_after : RepairAction → PolicyState → PolicyState
policy_state_after action before =
    let a =
      axes_after action
        (record { authorization = before.authorization_status; pause = before.pause_status }) in
    record {
      authorization_status = a.authorization;
      pause_status = a.pause;
      action_set =
          if not (is_permitted a.authorization) || is_active a.pause
          then appeal_only
          else action_set_after action before.action_set;
    }

unfoldable pub propagation_event_type : RepairAction → String
propagation_event_type pause = use_paused
propagation_event_type correct = dependency_invalidated
propagation_event_type revoke = authorization_revoked
propagation_event_type delete = dependency_invalidated
propagation_event_type restrict = use_paused
propagation_event_type restore = authorization_restored
propagation_event_type release_pause = pause_released

abbrev pub event_for : String → String → PolicyEvent
event_for type id = record { event_type = type; subject_record_id = id }

-- `_propagate_event`: one event for each member of the closure, behind the log.
unfoldable pub propagate_event : List String → String → List PolicyEvent → List PolicyEvent
propagate_event members type events = events ++ map (event_for type) members

-- The loop of `current_authorization`.
unfoldable pub read_authorization : String → Authorization → PolicyEvent → Authorization
read_authorization target status e =
    if not (str_eq e.subject_record_id target)
    then status
    else if str_eq e.event_type authorization_revoked
    then revoked
    else if str_eq e.event_type authorization_restored
    then permitted
    else if str_eq e.event_type use_paused
    then refused
    else if str_eq e.event_type pause_released
    then permitted
    else status

unfoldable pub current_authorization : String → List PolicyEvent → Authorization
current_authorization target events = foldl (read_authorization target) permitted events

-- The loop of `_is_blocked`, which returns at the first event that it knows.
unfoldable pub is_blocked : String → List PolicyEvent → Bool
is_blocked target [] = false
is_blocked target (e ∷ events) =
    let rest = is_blocked target events in
    if not (str_eq e.subject_record_id target)
    then rest
    else if str_eq e.event_type authorization_revoked
        || str_eq e.event_type use_paused
        || str_eq e.event_type dependency_invalidated
    then true
    else if str_eq e.event_type authorization_restored || str_eq e.event_type pause_released
    then false
    else rest
