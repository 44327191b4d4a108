-- ===== src/Agent/Actions.antt =====
-- `ACTION_REGISTRY` of src/qste/agent/contracts.py and `_action_set`, `_authority` and `_proposal` of
-- src/qste/agent/service.py.
use qste.Base.{
  String, Bool, true, false, not, ◌&&◌, ◌||◌, Option, none, some, List, [], ◌∷◌, all, any, find,
  length, contains, str_eq, ltb, Result, ok, err, raise_if, ◌>>=◌, ◌>>◌, invalid_input,
  policy_refused, internal_error,
}
use qste.Core.Json.{Json, text, arr, obj, bool, Items, nil, item, Fields}
use qste.Agent.Limits.{has_exactly, member}

pub record ActionDefinition : Type 0 where
  pub action_id : String
  pub decision_action : String
  pub mutable_field : Option String
  pub creates_successor : Bool

abbrev successor_action : String → String → String → ActionDefinition
successor_action id decision mutable = record {
  action_id = id;
  decision_action = decision;
  mutable_field = some mutable;
  creates_successor = true;
}

abbrev plain_action : String → ActionDefinition
plain_action id = record {
  action_id = id;
  decision_action = id;
  mutable_field = none;
  creates_successor = false;
}

unfoldable pub action_registry : List ActionDefinition
action_registry =
    successor_action "revise_aperture" "revise" "aperture"
    ∷ successor_action "revise_task" "revise" "task"
    ∷ successor_action "revise_bound" "revise" "meaningful_bound"
    ∷ successor_action "revise_representation" "revise" "representation"
    ∷ successor_action "revise_plan" "revise" "plan"
    ∷ successor_action "revise_action_set" "revise" "executable_action_set"
    ∷ plain_action "refuse"
    ∷ plain_action "escalate"
    ∷ successor_action "resume" "resume" "executable_action_set"
    ∷ plain_action "no_change"
    ∷ []

abbrev pub find_action : String → Option ActionDefinition
find_action id = find (λ a. str_eq a.action_id id) action_registry

-- `action_id in ACTION_REGISTRY`
abbrev pub is_registered : String → Bool
is_registered id = any (λ a. str_eq a.action_id id) action_registry

-- `VOLATILE_FIELDS`
unfoldable pub volatile_fields : List String
volatile_fields =
    "record_id" ∷ "created_at" ∷ "semantic_key" ∷ "content_digest" ∷ "serialization" ∷ []

-- No text stands twice.
abbrev pub is_distinct : List String → Bool
is_distinct [] = true
is_distinct (s ∷ ss) = not (contains s ss) && is_distinct ss

-- `_authority`, with the record IDs of `authority_refs`.
abbrev pub check_authority : List String → String → Result (Unit {0})
check_authority ids authority = raise_if (not (contains authority ids)) policy_refused

-- What `revise` reads of a proposal after `_proposal`.
pub record Proposal (F : Type 0) : Type 0 where
  pub action_id : String
  pub changes : Items F
  pub next_action_set : Items F
  pub reason_code : String
  pub resume_conditions : Fields F
  pub escalation_conditions : Fields F
  pub resource_use : Fields F
  pub study_policy_permitted : Bool

unfoldable pub proposal_keys : List String
proposal_keys =
    "action_id" ∷ "changes" ∷ "next_action_set" ∷ "evidence_fields" ∷ "reason_code"
    ∷ "resume_conditions" ∷ "escalation_conditions" ∷ "resource_use" ∷ "prompt_text"
    ∷ "study_policy_permitted" ∷ []

module _ {F : Type 0} where
  -- The texts of a list, if all its members are texts.
  unfoldable pub texts : Items F → Option (List String)
  texts nil = some []
  texts (item (text s) xs) = elim (texts xs) [ none ↦ none | some ss ↦ some (s ∷ ss) ]
  texts (item _ xs) = none

  abbrev pub all_texts : Items F → Result (List String)
  all_texts xs = elim (texts xs) [ none ↦ err invalid_input | some ss ↦ ok ss ]

  -- `_action_set`, `MAX_ACTIONS` being 64.
  unfoldable pub action_set : Items F → List String → Result (List String)
  action_set values permitted_actions = do
    result ← all_texts values
    raise_if (ltb (length result) 1 || ltb 64 (length result)) invalid_input
    raise_if (not (is_distinct result && all is_registered result)) invalid_input
    raise_if (not (all (λ a. contains a permitted_actions) result)) policy_refused
    ok result

  abbrev pub as_list : Json F → Result (Items F)
  as_list (arr xs) = ok xs
  as_list _ = err invalid_input

  abbrev pub as_mapping : Json F → Result (Fields F)
  as_mapping (obj fs) = ok fs
  as_mapping _ = err invalid_input

  abbrev pub as_text : Json F → Result String
  as_text (text s) = ok s
  as_text _ = err invalid_input

  -- A key that is looked up: a list or an object raises a `TypeError`.
  abbrev pub as_key : Json F → Result String
  as_key (text s) = ok s
  as_key (arr xs) = err internal_error
  as_key (obj fs) = err internal_error
  as_key _ = err invalid_input

  abbrev pub as_bool : Json F → Result Bool
  as_bool (bool b) = ok b
  as_bool _ = err invalid_input

  abbrev pub is_nil : Items F → Bool
  is_nil nil = true
  is_nil (item x xs) = false

  -- `_proposal`; each of its checks raises the same error, so their order does not show.
  unfoldable pub proposal : Fields F → Result (Proposal F)
  proposal value = do
    raise_if (not (has_exactly proposal_keys value)) invalid_input
    id ← member "action_id" value >>= as_key
    raise_if (not (is_registered id)) invalid_input
    changes ← member "changes" value >>= as_list
    actions ← member "next_action_set" value >>= as_list
    evidence ← member "evidence_fields" value >>= as_list
    raise_if (is_nil actions || is_nil evidence) invalid_input
    resume ← member "resume_conditions" value >>= as_mapping
    escalation ← member "escalation_conditions" value >>= as_mapping
    resources ← member "resource_use" value >>= as_mapping
    reason ← member "reason_code" value >>= as_text
    raise_if (str_eq reason "") invalid_input
    _ ← member "prompt_text" value >>= as_text
    study ← member "study_policy_permitted" value >>= as_bool
    ok (record {
      action_id = id;
      changes = changes;
      next_action_set = actions;
      reason_code = reason;
      resume_conditions = resume;
      escalation_conditions = escalation;
      resource_use = resources;
      study_policy_permitted = study;
    })
