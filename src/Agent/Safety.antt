-- ===== src/Agent/Safety.antt =====
-- What an outcome of `revise` in src/qste/agent/service.py has passed.
use qste.Base.{
  Ensures-if, internal_error, Ensures-weaken, length, ltb, ℕ, String, Bool, true, false, not, ◌&&◌,
  ◌||◌, Option, none, some, List, all, contains, str_eq, ok, err, Ensures, Ensures-bind,
  Ensures-then, Ensures-eq, Ensures-raise_if, ◌≡◌, refl, Option-cases, inl, inr, arith,
  policy_refused, conformance_failed, invalid_input, ltb, length,
}
use qste.Core.Json.{Json, arr, obj, Items}
use qste.Agent.Limits.{resource_use}
use qste.Agent.Actions.{
  ActionDefinition, Proposal, find_action, action_set, proposal, is_nil, is_distinct, is_registered,
  all_texts,
}
use qste.Agent.Revision.{
  Revised, Request, Successor, Decision, Outcome, refused, decided, is_absent, items_of,
  create_successor, successor_of, decision, refusal, study_step, source_step, revise,
  source_statuses,
}
use qste.Agent.Changes.{Changed, apply_changes-Changed}

-- An action set within the registry and the boundary.
abbrev pub IsPermitted : List String → List String → Type 0
IsPermitted permitted actions =
    (is_distinct actions ≡ true)
    × (all is_registered actions ≡ true)
    × (all (λ a. contains a permitted) actions ≡ true)

module _ {F : Type 0} where
  action_set-IsPermitted :
      (values : Items F) (permitted : List String)
      → Ensures (IsPermitted permitted) (action_set values permitted)
  unfolding action_set
  action_set-IsPermitted values permitted =
      let Q = IsPermitted permitted in
      Ensures-then Q (all_texts values) _ λ ss.
        Ensures-raise_if Q (ltb (length ss) 1 || ltb 64 (length ss)) invalid_input _ λ e1.
          Ensures-raise_if Q (not (is_distinct ss && all is_registered ss)) invalid_input _ λ e2.
            Ensures-raise_if Q (not (all (λ a. contains a permitted) ss)) policy_refused _
              λ e3. (ground arith, ground arith, ground arith)

module _ {F : Type 0} (eq : Json F → Json F → Bool) (r : Revised F) (q : Request) where
  -- The successor that an action may create.
  abbrev pub IsSoundSuccessor : ActionDefinition → Option (Successor F) → Type 0
  IsSoundSuccessor action none = action.creates_successor ≡ false
  IsSoundSuccessor action (some s) =
      (action.creates_successor ≡ true)
      × Changed eq r.mutable_successor_fields r.state action.mutable_field s.state
      × IsPermitted r.permitted_actions s.executable_action_set
      × ((eq (obj s.state) (obj r.state)
            && eq (arr (items_of s.executable_action_set)) (arr r.executable_action_set))
          ≡ false)

  create_successor-IsSound :
      (p : Proposal F) (action : ActionDefinition)
      → action.creates_successor ≡ true
      → Ensures
          (λ s. IsSoundSuccessor action (some s))
          (create_successor eq r p action.mutable_field)
  unfolding create_successor
  create_successor-IsSound p action c =
      let Q = λ (s : Successor F). IsSoundSuccessor action (some s) in
      Ensures-raise_if Q (is_nil p.changes) conformance_failed _ λ n.
        Ensures-bind (Changed eq r.mutable_successor_fields r.state action.mutable_field) Q _ _
          (apply_changes-Changed eq r.mutable_successor_fields r.state action.mutable_field
            p.changes n)
          λ next d.
            Ensures-bind (IsPermitted r.permitted_actions) Q _ _
              (action_set-IsPermitted p.next_action_set r.permitted_actions)
              λ actions a.
                Ensures-raise_if Q
                  (eq (obj next) (obj r.state)
                    && eq (arr (items_of actions)) (arr r.executable_action_set))
                  conformance_failed _ λ e. (c, d, a, e)

  successor_of-IsSound :
      (p : Proposal F) (action : ActionDefinition)
      → Ensures (IsSoundSuccessor action) (successor_of eq r p action)
  unfolding successor_of
  successor_of-IsSound p action =
      Ensures-if (IsSoundSuccessor action) action.creates_successor _ _
        (λ c.
          Ensures-bind (λ s. IsSoundSuccessor action (some s)) (IsSoundSuccessor action)
            (create_successor eq r p action.mutable_field) (λ s. ok (some s))
            (create_successor-IsSound p action c) λ s h. h)
        λ c.
          Ensures-raise_if (IsSoundSuccessor action) (not (is_nil p.changes)) conformance_failed
            (ok none) λ e. c

  -- A decision other than a refusal.
  abbrev pub IsSoundDecision : Proposal F → ActionDefinition → Decision F → Type 0
  IsSoundDecision p action d =
      (str_eq q.source_authorization_status "permitted" ≡ true)
      × ((contains p.action_id r.human_authorization_actions && not q.human_authorized) ≡ false)
      × (d.shadow_mode ≡ str_eq q.enforcement_mode "shadow")
      × ((d.would_have_blocked && not d.shadow_mode) ≡ false)
      × (d.would_have_blocked ≡ not p.study_policy_permitted)
      × (d.action_id ≡ p.action_id)
      × (d.decision_action ≡ action.decision_action)
      × (str_eq d.decision_action "refuse" ≡ false)
      × IsSoundSuccessor action d.successor

  -- A refusal changes the next action set, and says when it ends.
  abbrev pub IsSoundOutcome : Proposal F → ActionDefinition → Outcome F → Type 0
  IsSoundOutcome p action (refused reason actions) =
      (actions ≡ p.next_action_set)
      × (eq (arr actions) (arr r.executable_action_set) ≡ false)
      × ((is_absent p.resume_conditions && is_absent p.escalation_conditions) ≡ false)
  IsSoundOutcome p action (decided d) = IsSoundDecision p action d

  refusal-IsSound :
      (p : Proposal F) (action : ActionDefinition) (reason : String)
      → Ensures (IsSoundOutcome p action) (refusal eq r p reason)
  unfolding refusal
  refusal-IsSound p action reason =
      let Q = IsSoundOutcome p action in
      Ensures-raise_if Q (eq (arr p.next_action_set) (arr r.executable_action_set))
        conformance_failed _
        λ e.
          Ensures-raise_if Q (is_absent p.resume_conditions && is_absent p.escalation_conditions)
            conformance_failed _ λ e'. (refl, e, e')

  module _ (p : Proposal F) (action : ActionDefinition)
      (source : str_eq q.source_authorization_status "permitted" ≡ true)
      (human : (contains p.action_id r.human_authorization_actions && not q.human_authorized)
        ≡ false)
      (mode : (str_eq q.enforcement_mode "active" || str_eq q.enforcement_mode "shadow")
        ≡ true) where
    decision-IsSound :
        (not p.study_policy_permitted && str_eq q.enforcement_mode "active") ≡ false
        → str_eq action.decision_action "refuse" ≡ false
        → Ensures (IsSoundOutcome p action) (decision eq r q p action)
    unfolding decision
    decision-IsSound study refuse =
        let Q = IsSoundOutcome p action in
        Ensures-bind (IsSoundSuccessor action) Q _ _ (successor_of-IsSound p action) λ s h.
          Ensures-raise_if Q
            (str_eq action.decision_action "no_change"
              && not (eq (arr p.next_action_set) (arr r.executable_action_set)))
            conformance_failed _
            λ e. (source, human, refl, ground arith, refl, refl, refl, refuse, h)

    study_step-IsSound : Ensures (IsSoundOutcome p action) (study_step eq r q p action)
    unfolding study_step
    study_step-IsSound =
        let Q = IsSoundOutcome p action in
        Ensures-if Q (not p.study_policy_permitted && str_eq q.enforcement_mode "active") _ _
          (λ e. refusal-IsSound p action "study_policy_blocked")
          λ e.
            Ensures-if Q (str_eq action.decision_action "refuse") _ _
              (λ f. refusal-IsSound p action p.reason_code) (decision-IsSound e)

  source_step-IsSound :
      (p : Proposal F) (action : ActionDefinition)
      → Ensures (IsSoundOutcome p action) (source_step eq r q p action)
  unfolding source_step
  source_step-IsSound p action =
      let Q = IsSoundOutcome p action in
      Ensures-if Q (not (str_eq q.source_authorization_status "permitted")) _ _
        (λ e. refusal-IsSound p action "source_authorization_not_permitted")
        λ e.
          Ensures-if Q
            (contains p.action_id r.human_authorization_actions && not q.human_authorized) _ _
            (λ h. refusal-IsSound p action "human_authorization_required")
            λ h.
              Ensures-raise_if Q
                (not (str_eq q.enforcement_mode "active" || str_eq q.enforcement_mode "shadow"))
                invalid_input _
                λ m.
                  Ensures-raise_if Q
                    (not (
                      str_eq q.fixture_authorization "synthetic"
                      || str_eq q.fixture_authorization "fully_authorized"))
                    policy_refused _
                    λ f. study_step-IsSound p action (ground arith) h (ground arith)

  module _ (exceeds_float : ℕ → F → Bool) where
    -- What an outcome rests on.
    unfoldable pub IsAuthorized : Outcome F → Type 0
    IsAuthorized outcome =
        (p : Proposal F) × (action : ActionDefinition) × (str_eq q.authorization_status "permitted"
          ≡ true)
        × (contains q.authority_record_id r.authority_ids ≡ true)
        × (proposal r.proposal ≡ ok p)
        × (find_action p.action_id ≡ some action)
        × (resource_use exceeds_float p.resource_use r.budget ≡ ok tt)
        × (contains p.action_id r.permitted_actions ≡ true)
        × IsSoundOutcome p action outcome

    chosen-IsAuthorized :
        (p : Proposal F)
        → str_eq q.authorization_status "permitted" ≡ true
        → contains q.authority_record_id r.authority_ids ≡ true
        → proposal r.proposal ≡ ok p
        → resource_use exceeds_float p.resource_use r.budget ≡ ok tt
        → contains p.action_id r.permitted_actions ≡ true
        → Ensures IsAuthorized (elim (find_action p.action_id) [
          | none ↦ err internal_error
          | some action ↦ source_step eq r q p action
        ])
    unfolding IsAuthorized
    chosen-IsAuthorized p s a e u m = elim (Option-cases (find_action p.action_id)) [
      | inl n ↦ rw n tt
      | inr (action, n) ↦ rw n (
          Ensures-weaken (IsSoundOutcome p action) IsAuthorized (source_step eq r q p action)
            (source_step-IsSound p action) λ o h. (p, action, s, a, e, n, u, m, h))
    ]

    -- When `revise` returns, the request was permitted, the authority and the action are ones of the
    -- governance boundary, and the proposal, which passed `_proposal`, stays within the budget. A refusal
    -- then changes the action set and has a condition for its end. Any other decision has a source that
    -- is permitted and the human authorization that its action needs, and is made against the study
    -- policy only in shadow mode, which it reports. It has a successor exactly if its action creates
    -- one; the successor's state is the initial one but for one value, at the field of the action,
    -- which the boundary lets change and which is not volatile; its actions are distinct, registered
    -- and permitted by the boundary; and its state or its actions differ from the initial ones.
    pub revise-IsAuthorized : Ensures IsAuthorized (revise eq exceeds_float r q)
    unfolding revise
    revise-IsAuthorized =
        let Q = IsAuthorized in
        Ensures-raise_if Q (not (str_eq q.authorization_status "permitted")) policy_refused _ λ s.
          Ensures-raise_if Q (not (contains q.source_authorization_status source_statuses))
            invalid_input _
            λ v.
              Ensures-raise_if Q
                (not (str_eq r.profile_id "qste-evidence-dependent-revision/v0.1")
                  || not (str_eq r.prompt_role "untrusted_data_not_authority"))
                conformance_failed _
                λ b.
                  Ensures-raise_if Q (not (contains q.authority_record_id r.authority_ids))
                    policy_refused _
                    λ a.
                      Ensures-bind (λ p. proposal r.proposal ≡ ok p) Q (proposal r.proposal) _
                        (Ensures-eq (proposal r.proposal))
                        λ p e.
                          Ensures-bind
                            (λ u. resource_use exceeds_float p.resource_use r.budget ≡ ok u) Q
                            (resource_use exceeds_float p.resource_use r.budget) _
                            (Ensures-eq (resource_use exceeds_float p.resource_use r.budget))
                            λ u f.
                              Ensures-raise_if Q (not (contains p.action_id r.permitted_actions))
                                policy_refused _
                                λ m.
                                  chosen-IsAuthorized p (ground arith) (ground arith) e f
                                    (ground arith)
