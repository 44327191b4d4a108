-- ===== src/Operations/Outcomes.antt =====
-- How src/qste/operations.py turns what a service returns into a validated `OperationResult`:
-- `_completed`, `_agent_result`, `_adapter_result`, `_p11_adapter_result`, `_experiment_result` and
-- `_model_research_result`.
use Prim.Native.String.{◌++◌ as str_append}
use qste.Operations.Results.{OperationStatus, completed, OperationResult, is_completed, refused}
use qste.Core.Json.{
  Json, Items, Fields, obj, field, nil, item, int, get_field, text, arr, bool, end, null,
}
use qste.Base.{
  Result, List, Bool, String, ℕ, ok, Option, if◌then◌else◌, true, err, [], none, ◌>>◌, false, ◌∷◌,
  internal_error, not, some, str_eq, ◌>>=◌,
}
use qste.Operations.Validation.{Schemas, validate_operation_result}

-- What the services' outcome classes share; the receipt by its identifier and authorization.
pub record Outcome (F : Type 0) : Type 0 where
  pub value : Json F
  pub value_type : String
  pub receipt_id : String
  pub receipt_authorization : String
  pub event_sequence : ℕ
  pub operation_status : OperationStatus
  pub reason_code : String

abbrev pub versioned : String → String
versioned operation = str_append "qste:" (str_append operation "/0.1.0")

abbrev pub is_refused : OperationStatus → Bool
is_refused refused = true
is_refused _ = false

-- `receipt_id or new_record_id(...)`
unfoldable pub receipt_or : String → Option String → String
receipt_or fresh none = fresh
receipt_or fresh (some id) = if str_eq id "" then fresh else id

module _ {F : Type 0} where
  -- `value.get(key)` for a text member.
  unfoldable pub member : String → Json F → Option String
  member k (obj fs) = elim (get_field k fs) [ some (text s) ↦ some s | _ ↦ none ]
  member k _ = none

  abbrev pub has_member : String → String → Json F → Bool
  has_member k s value = elim (member k value) [ none ↦ false | some t ↦ str_eq t s ]

  -- `outcome.value["items"]`, and `outcome.value.get("items", [])`.
  unfoldable pub items_of : Json F → Result (Items F)
  items_of (obj fs) = elim (get_field "items" fs) [ some (arr xs) ↦ ok xs | _ ↦ err internal_error ]
  items_of _ = err internal_error

  unfoldable pub items_or_empty : Json F → Result (Items F)
  items_or_empty (obj fs) = elim (get_field "items" fs) [
    | none ↦ ok nil
    | some (arr xs) ↦ ok xs
    | _ ↦ err internal_error
  ]
  items_or_empty _ = err internal_error

  -- The record identifiers of the items that have one.
  unfoldable pub present_ids : Items F → List String
  present_ids nil = []
  present_ids (item x xs) = elim (member "record_id" x) [
    | none ↦ present_ids xs
    | some id ↦ id ∷ present_ids xs
  ]

  -- `[item["record_id"] for item in items]`
  unfoldable pub all_ids : Items F → Result (List String)
  all_ids nil = ok []
  all_ids (item x xs) = do
    id ← elim (member "record_id" x) [ none ↦ err internal_error | some id ↦ ok id ]
    ids ← all_ids xs
    ok (id ∷ ids)

  -- `next(item for item in items if item[key] == s)`
  unfoldable pub next_item : String → String → Items F → Result (Json F)
  next_item k s nil = err internal_error
  next_item k s (item x xs) = if has_member k s x then ok x else next_item k s xs

  unfoldable pub text_items : List String → Items F
  text_items [] = nil
  text_items (s ∷ ss) = item (text s) (text_items ss)

  -- The result is validated before it is returned.
  unfoldable pub validated : Schemas F → OperationResult F → Result (OperationResult F)
  validated schemas r = validate_operation_result schemas r >> ok r

  unfoldable pub completed_record :
      String → String → String → Json F → Fields F → Option String → OperationResult F
  completed_record fresh operation value_type value diagnostics receipt = record {
    operation = operation;
    value_type = value_type;
    operation_status = completed;
    value = value;
    reason_code = "completed";
    authorization_status = "not_applicable";
    capability_status = "available";
    receipt_id = receipt_or fresh receipt;
    diagnostics = diagnostics;
    domain_status = none;
    unresolved_targets = none;
    partial_contract_id = none;
    cli_exit_class = 0;
  }

  -- `_completed`
  unfoldable pub completed_result :
      Schemas F
      → String
      → String
      → String
      → Json F
      → Fields F
      → Option String
      → Result (OperationResult F)
  completed_result schemas fresh operation value_type value diagnostics receipt =
      validated schemas (completed_record fresh operation value_type value diagnostics receipt)

  -- A result that repeats an outcome, with this authorization and capability, these diagnostics
  -- beside the event sequence, and exit class 0.
  unfoldable pub outcome_record :
      String → Outcome F → String → String → Fields F → OperationResult F
  outcome_record operation outcome authorization capability diagnostics = record {
    operation = operation;
    value_type = outcome.value_type;
    operation_status = outcome.operation_status;
    value = outcome.value;
    reason_code = outcome.reason_code;
    authorization_status = authorization;
    capability_status = capability;
    receipt_id = outcome.receipt_id;
    diagnostics = field "event_sequence" (int outcome.event_sequence) diagnostics;
    domain_status = none;
    unresolved_targets = none;
    partial_contract_id = none;
    cli_exit_class = 0;
  }

  -- The first item with this member, as a record of this schema, and the identifiers of all.
  unfoldable pub picked : String → String → String → Json F → Result (Json F × String × List String)
  picked k s schema value = do
    items ← items_of value
    x ← next_item k s items
    ids ← all_ids items
    ok (x, str_append "https://schemas.qste.invalid/0.3.0/records/" schema, ids)

  unfoldable pub uncompleted_value : Json F → Result (Json F × String × List String)
  uncompleted_value value = do
    items ← items_or_empty value
    ok (null, "qste-payload/0.3.0/CapabilityAccount", present_ids items)

  -- The value, its type and the output records of an agent's outcome.
  unfoldable pub agent_value : Outcome F → Result (Json F × String × List String)
  agent_value outcome =
      if not (is_completed outcome.operation_status)
      then uncompleted_value outcome.value
      else if str_eq outcome.value_type "qste-payload/0.3.0/HarnessInitialization"
      then picked "record_type" "ListeningHarnessSpec" "listening-harness-spec.schema.json"
          outcome.value
      else if str_eq outcome.value_type "qste-payload/0.3.0/InformationPayloadSet"
      then picked "qste:recordLevel" "full_assessment" "artifact-record.schema.json" outcome.value
      else if str_eq outcome.value_type "qste-payload/0.3.0/TreatmentSet"
      then picked "qste:revisionTreatment" "authentic" "artifact-record.schema.json" outcome.value
      else ok (outcome.value, outcome.value_type, [])

  abbrev pub agent_diagnostics : List String → Fields F
  agent_diagnostics ids = field "profile" (text "qste-evidence-dependent-revision/v0.1") (
      field "creative_consequence" (text "not_assessed")
        (field "output_record_ids" (arr (text_items ids)) end))

  unfoldable pub agent_record :
      String → Outcome F → Json F × String × List String → OperationResult F
  agent_record operation outcome (value, value_type, ids) =
      let base =
        outcome_record (versioned operation) outcome
          (if is_refused outcome.operation_status
            then outcome.receipt_authorization
            else "permitted")
          (if is_refused outcome.operation_status then "prohibited" else "available")
          (agent_diagnostics ids) in
      record base {
        value = value;
        value_type = value_type;
        cli_exit_class = if is_refused outcome.operation_status then 3 else 0;
      }

  -- `_agent_result`
  unfoldable pub agent_result : Schemas F → String → Outcome F → Result (OperationResult F)
  agent_result schemas operation outcome = do
    shown ← agent_value outcome
    validated schemas (agent_record operation outcome shown)

  -- `_adapter_result`
  unfoldable pub adapter_result :
      Schemas F → String → String → Outcome F → Result (OperationResult F)
  adapter_result schemas operation adapter_id outcome =
      let base =
        outcome_record (versioned (str_append "adapter_" operation)) outcome "permitted" "available"
          (field "profile" (text "qste-external-representation-adapter/v0.1")
            (field "adapter_id" (text adapter_id) end)) in
      validated schemas (record base { operation_status = completed; reason_code = "completed" })

  -- `_p11_adapter_result`
  unfoldable pub p11_adapter_result :
      Schemas F → String → String → String → String → Outcome F → Result (OperationResult F)
  p11_adapter_result schemas operation profile target_id capability outcome = validated schemas (
      outcome_record (versioned operation) outcome "permitted" capability
        (field "profile" (text profile) (field "target_id" (text target_id) end)))

  -- `_experiment_result`
  unfoldable pub experiment_result : Schemas F → String → Outcome F → Result (OperationResult F)
  experiment_result schemas operation outcome = validated schemas (
      outcome_record (versioned operation) outcome "permitted" "available" (
        field "profile" (text "qste-experiment-preparation/v0.1") (
          field "confirmatory_hypotheses_tested" (bool false)
            (field "human_data_collected" (bool false) end))))

  -- `_model_research_result`
  unfoldable pub model_research_result : Schemas F → String → Outcome F → Result (OperationResult F)
  model_research_result schemas operation outcome = validated schemas (
      outcome_record (versioned operation) outcome "permitted" "available" (
        field "profile" (text "qste-model-research-program/v0.1") (
          field "training_executed" (bool false) (
            field "checkpoint_downloaded" (bool false) (
              field "generation_performed" (bool false)
                (field "human_data_used" (bool false) end))))))
