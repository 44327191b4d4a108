-- ===== src/Witnesses/Policy.antt =====
-- Appeals and propagated events at concrete inputs.
use qste.Base.{
  ◌≡◌, refl, true, false, List, [], ◌∷◌, Answers, none, ok, some, All, ◌&&◌, leb, length, ◌==◌,
}
use qste.Policy.State.{
  PolicyEvent, PolicyState, permitted, revoked, released, delete, pause, revoke, use_paused,
  pause_released, authorization_revoked, event_for, propagation_event_type, propagate_event,
  current_policy_state, policy_state_after, current_authorization, is_blocked, appeal_only,
}
use qste.Policy.State
use qste.Policy.State.{read_events, read_event, state_of, action_set_after}
use qste.Policy.Appeals.{check_repair}
use qste.Policy.Propagation.{
  by_revoke, propagate_event-refines, propagate_event-frame,
  current_authorization_forgets_revocation, is_blocked_by_first_event, decides, blocking_types,
  releasing_types,
}
use qste.Policy.Appeals.{
  AppealCase, closed, adjudicated, under_review, not_decided, upheld, GovernanceBoundary, Request,
  AppealSpec, RepairSpec, RepairStatus, partially_applied, retain, open_appeal, adjudicate,
  apply_repair, require_permitted, require_action, require_authority, pause_after,
  repair_status_after, unresolved_targets,
}
use qste.Policy.Appeals.Changes.{is_idle}
use qste.Policy.Appeals.Lifecycle.{
  IsSound, Repaired, may_repair, can_repair, is_done, apply_repair_lem, opened_by, decided_by,
  repaired_by, Reached, Reached-IsSound,
}
use qste.Storage.Tables.{Tables, find_record, insert_record_row, insert_edge_or_ignore}
use qste.Storage.Records.{
  insert_records, prepare, record_row, write_closure, write_rows, write_row, batch_references,
  references_of, read_reference, validate_reference_targets, expected_types, lookup_type,
  check_targets, check_target, link_batch, link, bytes_eq,
}
use qste.Storage.History.{after, after_all, empty, history-IsConsistent}
use qste.Witnesses.Storage.{
  loads, family_reader, family_calls, codec, shape, shape_items, shape_fields,
}
use qste.Policy.Targets.{TargetClosure, resolve_target_closure, members_of, max_closure}
use qste.Policy.Closures.{IsClosure, resolve_target_closure_lem}
use qste.Core.Json.{text_field, get_field, walk_references, walk_items, walk_fields}
use qste.Storage.Verification.{
  verify, verify_records, verify_record, as_object, row_matches, validate_reference_closure,
  index_records, check_all_references, check_references, check_graphs, check_graph, check_lineage,
  all_linked, check_relations, is_unknown, verify_events, verify_event, is_numbered, index_type,
}
use qste.Storage.Lineage.{LineageEdge, trace_lineage, descendants}
use qste.Storage.Lineage.Walks.{Found}
use qste.Storage.Soundness.{IsVerified, verify-IsVerified}

abbrev boundary : GovernanceBoundary
boundary = record {
  authority_ids = "authority" ∷ [];
  permitted_actions = "appeal" ∷ "adjudicate" ∷ "delete" ∷ [];
}

abbrev request : Request
request = record { authorization_status = "permitted"; authority_record_id = "authority" }

abbrev upheld_case : AppealCase
upheld_case = record {
  appeal_status = adjudicated;
  pause_status = State.PauseStatus.active;
  adjudication_outcome = upheld;
  repair_status = RepairStatus.not_requested;
  requested_action = delete;
}

abbrev opened_case : AppealCase
opened_case = record upheld_case {
  appeal_status = under_review;
  adjudication_outcome = not_decided;
}

abbrev repair : RepairSpec
repair = record {
  is_well_formed = true;
  feasible_change_or_stop = true;
  retention = retain;
  external_copies = [];
  propagation_failures = [];
}

abbrev found : TargetClosure
found = record {
  root_record_id = "target";
  member_record_ids = "target" ∷ [];
  edge_places = [];
  maximum_depth = 64;
  complete_within_bound = true;
  categories = record {
    descendant_ids = [];
    claims = [];
    renders = [];
    bundles = [];
    projections = [];
  };
}

abbrev revocation : List PolicyEvent
revocation = event_for authorization_revoked "target" ∷ []

apply_repair_lem_example :
    Answers
      (Repaired repair delete upheld_case)
      (may_repair boundary request delete upheld_case
        && can_repair delete repair revocation (ok found))
      (apply_repair boundary request delete repair (ok found) revocation upheld_case)
apply_repair_lem_example =
    apply_repair_lem boundary request delete repair (ok found) revocation upheld_case

-- A revocation of what is revoked already is refused.
revoked_twice : can_repair revoke repair revocation (ok found) ≡ false
unfolding can_repair is_done is_idle read_events read_event
revoked_twice = refl

abbrev appeal : AppealSpec
appeal = record {
  standing_present = true;
  standing_verified = true;
  standing_evidence_present = true;
  duty_to_respond = true;
  deadlines_present = true;
  jurisdiction_present = true;
  requested_action = delete;
  pause_requested = true;
  pause_risk_threshold_met = true;
}

opened_case-Reached : Reached opened_case
unfolding open_appeal require_permitted require_action require_authority
opened_case-Reached = opened_by boundary request appeal opened_case refl

abbrev closed_case : AppealCase
closed_case = record upheld_case { appeal_status = closed; repair_status = partially_applied }

upheld_case-Reached : Reached upheld_case
unfolding adjudicate require_permitted require_action require_authority
upheld_case-Reached =
    decided_by boundary request upheld true opened_case upheld_case opened_case-Reached refl

closed_case-Reached : Reached closed_case
unfolding apply_repair check_repair require_permitted require_action require_authority pause_after
    repair_status_after unresolved_targets
closed_case-Reached =
    repaired_by boundary request delete repair (ok found) revocation upheld_case closed_case
      upheld_case-Reached refl

Reached-IsSound_example : IsSound closed_case
Reached-IsSound_example = Reached-IsSound closed_case closed_case-Reached

abbrev log : List PolicyEvent
log = event_for use_paused "other" ∷ event_for use_paused "target" ∷ []

propagate_event-refines_example :
    current_policy_state "target"
      (propagate_event ("other" ∷ "target" ∷ []) (propagation_event_type revoke) log)
    ≡ policy_state_after revoke (current_policy_state "target" log)
propagate_event-refines_example =
    propagate_event-refines "target" ("other" ∷ "target" ∷ []) log by_revoke refl

propagate_event-frame_example :
    current_policy_state "outside"
      (propagate_event ("other" ∷ "target" ∷ []) (propagation_event_type revoke) log)
    ≡ current_policy_state "outside" log
propagate_event-frame_example =
    propagate_event-frame "outside" revoke ("other" ∷ "target" ∷ []) log refl

is_blocked_by_first_event_example :
    is_blocked "target" (
      event_for use_paused "other"
      ∷ event_for "qste:appeal-opened/0.1" "target"
      ∷ event_for pause_released "target"
      ∷ event_for authorization_revoked "target"
      ∷ [])
    ≡ false
unfolding decides blocking_types releasing_types
is_blocked_by_first_event_example =
    is_blocked_by_first_event "target"
      (event_for use_paused "other" ∷ event_for "qste:appeal-opened/0.1" "target" ∷ [])
      (event_for authorization_revoked "target" ∷ []) (event_for pause_released "target") refl refl

current_authorization_forgets_revocation_example :
    let log =
      event_for use_paused "other"
      ∷ event_for authorization_revoked "target"
      ∷ event_for use_paused "target"
      ∷ event_for pause_released "target"
      ∷ [] in
    (current_authorization "target" log ≡ permitted)
    × (current_policy_state "target" log ≡ record {
      authorization_status = revoked;
      pause_status = released;
      action_set = "appeal" ∷ [];
    })
current_authorization_forgets_revocation_example =
    current_authorization_forgets_revocation "target" (event_for use_paused "other" ∷ [])

abbrev family : Tables
family = after_all codec family_calls empty

family-IsVerified : IsVerified codec family_reader family
unfolding after after_all codec shape shape_items shape_fields insert_records prepare record_row
    text_field get_field write_closure write_rows write_row find_record insert_record_row
    batch_references references_of walk_references walk_items walk_fields read_reference
    validate_reference_targets expected_types lookup_type check_targets check_target link_batch link
    insert_edge_or_ignore verify verify_records verify_record as_object row_matches
    validate_reference_closure index_records check_all_references check_references check_graphs
    check_graph check_lineage all_linked check_relations is_unknown verify_events verify_event
    is_numbered bytes_eq index_type loads
family-IsVerified = verify-IsVerified codec family_reader family

resolve_target_closure_lem_example :
    (es : List LineageEdge) × (trace_lineage family_reader "t" descendants 64 none family
      ≡ ok (some es))
    × All (Found descendants family.edges "t" 64) es
    × Answers
        (IsClosure family "t" es)
        (leb (length (members_of "t" es)) max_closure)
        (resolve_target_closure (λ x. x == 0) family_reader "t" 64 family)
unfolding after after_all codec shape shape_items shape_fields insert_records prepare record_row
    text_field get_field write_closure write_rows write_row find_record insert_record_row
    batch_references references_of walk_references walk_items walk_fields read_reference
    validate_reference_targets expected_types lookup_type check_targets check_target link_batch link
    insert_edge_or_ignore
resolve_target_closure_lem_example =
    resolve_target_closure_lem codec family_reader (λ x. x == 0) "t" 64 family
      (history-IsConsistent codec family_calls) family-IsVerified refl refl
