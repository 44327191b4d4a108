-- ===== src/Agent/Revision.antt =====
-- `revise` of src/qste/agent/service.py with `_refusal` and `_decision`: from the records that it reads
-- to the outcome that it stores. Python's equality of values is the argument `eq`, and how a number
-- compares to a float is `exceeds_float`.
use qste.Base.{
  ℕ, String, Bool, true, false, not, ◌&&◌, ◌||◌, Option, none, some, List, [], ◌∷◌, contains,
  str_eq, Result, ok, err, raise_if, ◌>>=◌, ◌>>◌, invalid_input, policy_refused, conformance_failed,
  internal_error, if◌then◌else◌,
}
use qste.Core.Json.{
  Json, null, text, arr, obj, Items, nil, item, Fields, end, field, get_field, set_field,
}
use qste.Agent.Limits.{resource_use}
use qste.Agent.Actions.{
  ActionDefinition, Proposal, find_action, check_authority, volatile_fields, action_set, proposal,
  is_nil,
}

-- What is read of the records that the plan names.
pub record Revised (F : Type 0) : Type 0 where
  -- the plan
  pub profile_id : String
  pub prompt_role : String
  pub proposal : Fields F
  -- the opportunity
  pub budget : Fields F
  -- the governance boundary
  pub authority_ids : List String
  pub permitted_actions : List String
  pub mutable_successor_fields : List String
  pub human_authorization_actions : List String
  -- the initial successor
  pub state : Fields F
  pub executable_action_set : Items F

-- The arguments of `revise`.
pub record Request : Type 0 where
  pub authorization_status : String
  pub authority_record_id : String
  pub source_authorization_status : String
  pub enforcement_mode : String
  pub fixture_authorization : String
  pub human_authorized : Bool

-- The successor that a decision creates, with its run and its opportunity.
pub record Successor (F : Type 0) : Type 0 where
  pub state : Fields F
  pub executable_action_set : List String

-- The decision that is stored.
pub record Decision (F : Type 0) : Type 0 where
  pub decision_action : String
  pub reason_code : String
  pub action_id : String
  pub shadow_mode : Bool
  pub would_have_blocked : Bool
  pub successor : Option (Successor F)

-- A refusal is a decision too, with its reason.
pub data Outcome (F : Type 0) : Type 0 where
  refused : String → Items F → Outcome F
  decided : Decision F → Outcome F

unfoldable pub source_statuses : List String
source_statuses = "unknown" ∷ "permitted" ∷ "refused" ∷ "deferred" ∷ "revoked" ∷ []

-- `field not in VOLATILE_FIELDS and field in allowed and field == mutable_field`
abbrev pub is_mutable : List String → Option String → String → Bool
is_mutable allowed none k = false
is_mutable allowed (some m) k = not (contains k volatile_fields) && contains k allowed && str_eq k m

module _ {F : Type 0} where
  -- `mapping.get(key)`, in which what is absent is `None`.
  abbrev pub get_or_null : String → Fields F → Json F
  get_or_null k fs = elim (get_field k fs) [ none ↦ null | some v ↦ v ]

  abbrev pub is_absent : Fields F → Bool
  is_absent end = true
  is_absent (field k v fs) = false

  unfoldable pub items_of : List String → Items F
  items_of [] = nil
  items_of (s ∷ ss) = item (text s) (items_of ss)

module _ {F : Type 0} (eq : Json F → Json F → Bool) where
  -- One change of the loop of `_decision`, into the state that is being built.
  unfoldable pub apply_change :
      List String → Option String → Fields F → Fields F → Fields F → Result (Fields F)
  apply_change allowed mutable current change next = elim (get_or_null "field" change) [
    | text k ↦
        raise_if (not (is_mutable allowed mutable k)) policy_refused
        >> (raise_if
              (not (eq (get_or_null "before" change) (get_or_null k current))
                || eq (get_or_null "after" change) (get_or_null "before" change))
              conformance_failed
            >> ok (set_field k (get_or_null "after" change) next))
    | _ ↦ err policy_refused
  ]

  -- A change that is no object raises an `AttributeError`.
  unfoldable pub apply_changes :
      List String → Option String → Fields F → Items F → Fields F → Result (Fields F)
  apply_changes allowed mutable current nil next = ok next
  apply_changes allowed mutable current (item (obj change) rest) next = do
    next' ← apply_change allowed mutable current change next
    apply_changes allowed mutable current rest next'
  apply_changes allowed mutable current (item _ rest) next = err internal_error

  -- The successor of an action that creates one.
  unfoldable pub create_successor : Revised F → Proposal F → Option String → Result (Successor F)
  create_successor r p mutable = do
    raise_if (is_nil p.changes) conformance_failed
    next ← apply_changes r.mutable_successor_fields mutable r.state p.changes r.state
    actions ← action_set p.next_action_set r.permitted_actions
    raise_if
        (eq (obj next) (obj r.state) && eq (arr (items_of actions)) (arr r.executable_action_set))
        conformance_failed
    ok (record { state = next; executable_action_set = actions })

  unfoldable pub successor_of :
      Revised F → Proposal F → ActionDefinition → Result (Option (Successor F))
  successor_of r p action =
      if action.creates_successor
      then create_successor r p action.mutable_field >>= (λ s. ok (some s))
      else (raise_if (not (is_nil p.changes)) conformance_failed >> ok none)

  -- `_decision`
  unfoldable pub decision : Revised F → Request → Proposal F → ActionDefinition → Result (Outcome F)
  decision r q p action = do
    successor ← successor_of r p action
    raise_if
        (str_eq action.decision_action "no_change"
          && not (eq (arr p.next_action_set) (arr r.executable_action_set)))
        conformance_failed
    ok (
        decided (record {
          decision_action = action.decision_action;
          reason_code = p.reason_code;
          action_id = p.action_id;
          shadow_mode = str_eq q.enforcement_mode "shadow";
          would_have_blocked = not p.study_policy_permitted;
          successor = successor;
        }))

  -- `_refusal`
  unfoldable pub refusal : Revised F → Proposal F → String → Result (Outcome F)
  refusal r p reason = do
    raise_if (eq (arr p.next_action_set) (arr r.executable_action_set)) conformance_failed
    raise_if (is_absent p.resume_conditions && is_absent p.escalation_conditions) conformance_failed
    ok (refused reason p.next_action_set)

  -- `revise` from the study policy on.
  unfoldable pub study_step :
      Revised F → Request → Proposal F → ActionDefinition → Result (Outcome F)
  study_step r q p action =
      if not p.study_policy_permitted && str_eq q.enforcement_mode "active"
      then refusal r p "study_policy_blocked"
      else (if str_eq action.decision_action "refuse"
          then refusal r p p.reason_code
          else decision r q p action)

  -- `revise` from the authorization of the source on.
  unfoldable pub source_step :
      Revised F → Request → Proposal F → ActionDefinition → Result (Outcome F)
  source_step r q p action =
      if not (str_eq q.source_authorization_status "permitted")
      then refusal r p "source_authorization_not_permitted"
      else (if contains p.action_id r.human_authorization_actions && not q.human_authorized
          then refusal r p "human_authorization_required"
          else (raise_if
                (not (str_eq q.enforcement_mode "active" || str_eq q.enforcement_mode "shadow"))
                invalid_input
              >> (raise_if
                    (not (
                      str_eq q.fixture_authorization "synthetic"
                      || str_eq q.fixture_authorization "fully_authorized"))
                    policy_refused
                  >> study_step r q p action)))

  module _ (exceeds_float : ℕ → F → Bool) where
    -- `revise`
    unfoldable pub revise : Revised F → Request → Result (Outcome F)
    revise r q = do
      raise_if (not (str_eq q.authorization_status "permitted")) policy_refused
      raise_if (not (contains q.source_authorization_status source_statuses)) invalid_input
      raise_if
          (not (str_eq r.profile_id "qste-evidence-dependent-revision/v0.1")
            || not (str_eq r.prompt_role "untrusted_data_not_authority"))
          conformance_failed
      check_authority r.authority_ids q.authority_record_id
      p ← proposal r.proposal
      resource_use exceeds_float p.resource_use r.budget
      raise_if (not (contains p.action_id r.permitted_actions)) policy_refused
      elim (find_action p.action_id) [
        | none ↦ err internal_error
        | some action ↦ source_step r q p action
      ]
