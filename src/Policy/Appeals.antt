-- ===== src/Policy/Appeals.antt =====
-- The appeal case of src/qste/policy/service.py as a state machine: the guards and the status axes
-- of `open_appeal`, `adjudicate` and `apply_repair`. The values of the axes are those that
-- `_validate_appeal` of src/qste/core/p8_contracts.py allows. The receipts, decision records,
-- successor records and references that the operations write beside the case are left out, and so is
-- the writing itself.
pub mod Changes
pub mod Lifecycle
use qste.Base.{
  String, ◌≡◌, ◌⊎◌, inl, inr, refl, Bool, true, false, not, ◌&&◌, ◌||◌, Option, none, some, List,
  [], ◌∷◌, ◌++◌, str_eq, contains, any, if◌then◌else◌, arith, Result, ok, err, ◌>>=◌, ◌>>◌,
  raise_if, invalid_input, conformance_failed, policy_refused, authority_unresolved,
  standing_unverified, standing_denied, ReasonCode,
}
use qste.Policy.State.{
  RepairAction, pause, correct, revoke, delete, restrict, restore, release_pause, PauseStatus,
  requested, active, released, Authorization, permitted, revoked, refused, PolicyState, PolicyEvent,
  current_policy_state, policy_state_after,
}
use qste.Policy.Targets.{TargetClosure}

pub data AppealStatus : Type 0 where
  opened : AppealStatus
  under_review : AppealStatus
  adjudicated : AppealStatus
  closed : AppealStatus

pub data Outcome : Type 0 where
  not_decided : Outcome
  upheld : Outcome
  denied : Outcome
  partial : Outcome
  escalated : Outcome
  withdrawn : Outcome

pub data RepairStatus : Type 0 where
  not_requested : RepairStatus
  pending : RepairStatus
  applied : RepairStatus
  partially_applied : RepairStatus
  impossible : RepairStatus
  superseded : RepairStatus

-- `_case_axes` and the requested action.
pub record AppealCase : Type 0 where
  pub appeal_status : AppealStatus
  pub pause_status : PauseStatus
  pub adjudication_outcome : Outcome
  pub repair_status : RepairStatus
  pub requested_action : RepairAction

pub record GovernanceBoundary : Type 0 where
  pub authority_ids : List String
  pub permitted_actions : List String

pub record Request : Type 0 where
  pub authorization_status : String
  pub authority_record_id : String

-- `_require_permitted`
unfoldable pub require_permitted : String → Result (Unit {0})
require_permitted status =
    if str_eq status "permitted"
    then ok tt
    else if contains status ("unknown" ∷ "refused" ∷ "deferred" ∷ "revoked" ∷ [])
    then err policy_refused
    else err invalid_input

-- `_require_authority`
unfoldable pub require_authority : GovernanceBoundary → String → Result (Unit {0})
require_authority b id = raise_if (not (contains id b.authority_ids)) authority_unresolved

-- `_require_action`
unfoldable pub require_action : GovernanceBoundary → String → Result (Unit {0})
require_action b action = raise_if (not (contains action b.permitted_actions)) policy_refused

abbrev pub action_name : RepairAction → String
action_name pause = "pause"
action_name correct = "correct"
action_name revoke = "revoke"
action_name delete = "delete"
action_name restrict = "restrict"
action_name restore = "restore"
action_name release_pause = "release_pause"

-- What an appeal says of itself: a member is present when the specification has it in the form that
-- `open_appeal` demands.
pub record AppealSpec : Type 0 where
  pub standing_present : Bool
  pub standing_verified : Bool
  pub standing_evidence_present : Bool
  pub duty_to_respond : Bool
  pub deadlines_present : Bool
  pub jurisdiction_present : Bool
  pub requested_action : RepairAction
  pub pause_requested : Bool
  pub pause_risk_threshold_met : Bool

unfoldable pub open_appeal : GovernanceBoundary → Request → AppealSpec → Result AppealCase
unfolding require_permitted require_action require_authority
open_appeal b r spec = do
  require_permitted r.authorization_status
  require_action b "appeal"
  require_authority b r.authority_record_id
  raise_if (not spec.standing_present) standing_unverified
  raise_if (not spec.standing_verified) standing_denied
  raise_if (not spec.standing_evidence_present) invalid_input
  raise_if (not spec.duty_to_respond) authority_unresolved
  raise_if (not spec.deadlines_present) invalid_input
  raise_if (not spec.jurisdiction_present) invalid_input
  ok (record {
    appeal_status = under_review;
    pause_status =
        if spec.pause_requested && spec.pause_risk_threshold_met
        then active
        else PauseStatus.denied;
    adjudication_outcome = not_decided;
    repair_status = RepairStatus.not_requested;
    requested_action = spec.requested_action;
  })

abbrev pub may_adjudicate : AppealStatus → Bool
may_adjudicate opened = true
may_adjudicate under_review = true
may_adjudicate _ = false

abbrev pub is_undecided : Outcome → Bool
is_undecided not_decided = true
is_undecided _ = false

-- `adjudicate`; an outcome that is no key of `OUTCOME_REASONS` is refused.
unfoldable pub adjudicate :
    GovernanceBoundary → Request → Outcome → Bool → AppealCase → Result AppealCase
unfolding require_permitted require_action require_authority
adjudicate b r outcome has_evidence prior = do
  require_permitted r.authorization_status
  require_action b "adjudicate"
  require_authority b r.authority_record_id
  raise_if (not (may_adjudicate prior.appeal_status)) invalid_input
  raise_if (not (is_undecided prior.adjudication_outcome)) invalid_input
  raise_if (is_undecided outcome) invalid_input
  raise_if (not has_evidence) invalid_input
  ok (record prior {
    appeal_status = adjudicated;
    adjudication_outcome = outcome;
    repair_status = RepairStatus.not_requested;
  })

pub data RetentionMode : Type 0 where
  retain : RetentionMode
  tombstone : RetentionMode
  delete_bytes : RetentionMode

-- What a repair says of itself. `is_well_formed` says that each member has the form that
-- `apply_repair` demands.
pub record RepairSpec : Type 0 where
  pub is_well_formed : Bool
  pub feasible_change_or_stop : Bool
  pub retention : RetentionMode
  pub external_copies : List String
  pub propagation_failures : List String

abbrev pub is_favorable : Outcome → Bool
is_favorable upheld = true
is_favorable partial = true
is_favorable _ = false

abbrev pub is_adjudicated : AppealStatus → Bool
is_adjudicated adjudicated = true
is_adjudicated _ = false

abbrev pub is_delete : RepairAction → Bool
is_delete delete = true
is_delete _ = false

abbrev pub deletes_bytes : RetentionMode → Bool
deletes_bytes delete_bytes = true
deletes_bytes _ = false

-- The targets that the repair leaves unresolved.
unfoldable pub unresolved_targets : RepairAction → RepairSpec → List String
unresolved_targets action spec =
    spec.external_copies
    ++ spec.propagation_failures
    ++ (if is_delete action && not (deletes_bytes spec.retention)
        then "retention_duty_blocks_deletion" ∷ []
        else [])
    ++ (if is_delete action then "immutable_qste_record_history" ∷ [] else [])

abbrev pub is_empty : List String → Bool
is_empty [] = true
is_empty _ = false

unfoldable pub repair_status_after : Bool → List String → RepairStatus
repair_status_after feasible unresolved =
    if not feasible then impossible else if is_empty unresolved then applied else partially_applied

-- `_pause_after`
unfoldable pub pause_after : RepairAction → PauseStatus → Bool → PauseStatus
pause_after pause prior true = active
pause_after release_pause prior true = released
pause_after _ prior _ = prior

abbrev pub same_authorization : Authorization → Authorization → Bool
same_authorization permitted permitted = true
same_authorization revoked revoked = true
same_authorization refused refused = true
same_authorization _ _ = false

abbrev pub same_pause : PauseStatus → PauseStatus → Bool
same_pause PauseStatus.not_requested PauseStatus.not_requested = true
same_pause requested requested = true
same_pause active active = true
same_pause PauseStatus.denied PauseStatus.denied = true
same_pause released released = true
same_pause _ _ = false

abbrev pub same_texts : List String → List String → Bool
same_texts [] [] = true
same_texts (s ∷ ss) (t ∷ ts) = str_eq s t && same_texts ss ts
same_texts _ _ = false

-- `before_state == after_state`
unfoldable pub same_state : PolicyState → PolicyState → Bool
same_state a b =
    same_authorization a.authorization_status b.authorization_status
    && same_pause a.pause_status b.pause_status
    && same_texts a.action_set b.action_set

abbrev pub is_correct : RepairAction → Bool
is_correct correct = true
is_correct _ = false

-- The state of the target is the one that the repair would give it; the state after a correction has a
-- member of its own, `corrected_successor`.
unfoldable pub changes_nothing : RepairAction → List PolicyEvent → TargetClosure → Bool
changes_nothing action log found =
    let before = current_policy_state found.root_record_id log in
    not (is_correct action) && same_state before (policy_state_after action before)

-- The tests that `apply_repair` makes before it reads the specification.
unfoldable pub check_repair :
    GovernanceBoundary → Request → RepairAction → AppealCase → Result (Unit {0})
unfolding require_permitted require_action require_authority
check_repair b r action prior = do
  require_permitted r.authorization_status
  require_authority b r.authority_record_id
  require_action b (action_name action)
  raise_if
      (not (is_adjudicated prior.appeal_status) || not (is_favorable prior.adjudication_outcome))
      policy_refused
  raise_if (not (str_eq (action_name action) (action_name prior.requested_action))) policy_refused

-- `apply_repair`, with the answer of `resolve_target_closure` for the target of the case and the event
-- log.
unfoldable pub apply_repair :
    GovernanceBoundary
    → Request
    → RepairAction
    → RepairSpec
    → Result TargetClosure
    → List PolicyEvent
    → AppealCase
    → Result AppealCase
apply_repair b r action spec closure log prior = do
  check_repair b r action prior
  raise_if (not spec.is_well_formed) invalid_input
  found ← closure
  raise_if
      (spec.feasible_change_or_stop && not (is_delete action) && changes_nothing action log found)
      conformance_failed
  ok (record prior {
    appeal_status = closed;
    pause_status = pause_after action prior.pause_status spec.feasible_change_or_stop;
    repair_status =
        repair_status_after spec.feasible_change_or_stop (unresolved_targets action spec);
  })
