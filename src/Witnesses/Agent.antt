-- ===== src/Witnesses/Agent.antt =====
-- A revision of one field and its budget.
use qste.Base.{ℕ, Bool, true, [], ◌∷◌, Ensures, All, ltb, str_eq, false, some, ◌≡◌, ok, refl}
use qste.Core.Json.{
  get_field, set_field, Json, null, text, int, bool, arr, obj, nil, item, Fields, end, field,
}
use qste.Agent.Limits.{has_exactly, check_use, limit_fields, limits, resource_use}
use qste.Agent.Actions.{
  proposal, proposal_keys, action_registry, volatile_fields, action_set, texts,
}
use qste.Agent.Revision.{
  source_statuses, source_step, study_step, decision, successor_of, create_successor, apply_changes,
  apply_change, items_of, Revised, Request, decided, revise,
}
use qste.Agent.Budgets.{fields_of, IsBounded, resource_use-IsBounded}
use qste.Agent.Safety.{IsAuthorized, revise-IsAuthorized}

-- Equality of texts and numbers, which is what these records hold.
eq : Json ℕ → Json ℕ → Bool
eq (text s) (text t) = str_eq s t
eq null null = true
eq _ _ = false

exceeds_float : ℕ → ℕ → Bool
exceeds_float used limit = ltb limit used

abbrev numbers : ℕ → Fields ℕ
numbers n = field "maximum_operations" (int n) (
    field "maximum_seconds" (int n) (
      field "maximum_information_records" (int n)
        (field "maximum_memory_items" (int n) (field "maximum_resource_units" (int n) end))))

abbrev change : Fields ℕ
change = field "field" (text "plan") (field "before" null (field "after" (text "new") end))

abbrev proposed : Fields ℕ
proposed = field "action_id" (text "revise_plan") (
    field "changes" (arr (item (obj change) nil)) (
      field "next_action_set" (arr (item (text "no_change") nil)) (
        field "evidence_fields" (arr (item (text "status") nil)) (
          field "reason_code" (text "bound_missed") (
            field "resume_conditions" (obj end) (
              field "escalation_conditions" (obj end) (
                field "resource_use" (obj (numbers 1)) (
                  field "prompt_text" (text "")
                    (field "study_policy_permitted" (bool true) end)))))))))

abbrev revised : Revised ℕ
revised = record {
  profile_id = "qste-evidence-dependent-revision/v0.1";
  prompt_role = "untrusted_data_not_authority";
  proposal = proposed;
  budget = numbers 3;
  authority_ids = "authority" ∷ [];
  permitted_actions = "revise_plan" ∷ "no_change" ∷ [];
  mutable_successor_fields = "plan" ∷ [];
  human_authorization_actions = "revise_plan" ∷ [];
  state = end;
  executable_action_set = nil;
}

abbrev request : Request
request = record {
  authorization_status = "permitted";
  authority_record_id = "authority";
  source_authorization_status = "permitted";
  enforcement_mode = "active";
  fixture_authorization = "synthetic";
  human_authorized = true;
}

-- The revision is decided with a successor.
decision_made :
    revise eq exceeds_float revised request
    ≡ ok (
        decided (record {
          decision_action = "revise";
          reason_code = "bound_missed";
          action_id = "revise_plan";
          shadow_mode = false;
          would_have_blocked = false;
          successor = some (record {
            state = field "plan" (text "new") end;
            executable_action_set = "no_change" ∷ [];
          });
        }))
unfolding revise eq exceeds_float source_statuses proposal has_exactly proposal_keys get_field
    action_registry resource_use limit_fields check_use source_step study_step decision successor_of
    create_successor apply_changes apply_change volatile_fields action_set texts items_of set_field
decision_made = refl

revise-IsAuthorized_example :
    Ensures
      (IsAuthorized eq revised request exceeds_float)
      (revise eq exceeds_float revised request)
revise-IsAuthorized_example = revise-IsAuthorized eq revised request exceeds_float

resource_use-IsBounded_example :
    Ensures
      (λ b.
        Ensures
          (λ _. All (IsBounded (numbers 5) (numbers 1)) limit_fields)
          (resource_use exceeds_float (numbers 1) (fields_of b)))
      (limits (numbers 3) (some (obj (numbers 5))))
resource_use-IsBounded_example =
    resource_use-IsBounded exceeds_float (numbers 3) (numbers 5) (numbers 1)
