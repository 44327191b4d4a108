-- ===== src/Operations/Statuses.antt =====
-- The results of assessments and comparisons: `_quanta_result` and `_relation_result` of
-- src/qste/operations.py on the values that carry a domain status.
use qste.Base.{
  String, ◌≡◌, Bool, Answers, ◌&&◌, Result, List, true, some, ◌>>=◌, ◌∷◌, [], ok, Answers-bind,
  refl, subst, sym,
}
use qste.Operations.Domains.{
  with_domain, quanta_result, relation_result, completed_outcome, assessed, compared,
  event_diagnostics, comparison_status, exit_of, reasons_of,
}
use qste.Operations.Validation.{Schemas, payload_ok}
use qste.Operations.Results.{OperationResult, completed}
use qste.Operations.Outcomes.{
  completed_result, completed_record, Outcome, has_member, versioned, validated, member, items_of,
}
use qste.Core.Json.{Items}
use qste.Operations.Exits.{accepted_lem, completed_semantics, domain_semantics}
use qste.Operations.Reasons.{shared_reason, sole_reason-shared}

module _ {F : Type 0} where
  -- The completed result that both start from, and the one that they return.
  abbrev pub started : String → String → Outcome F → OperationResult F
  started fresh operation outcome =
      completed_record fresh (versioned operation) outcome.value_type outcome.value
        (event_diagnostics outcome) (some outcome.receipt_id)

  -- Both results conform to the schemas, their value included.
  unfoldable pub accepts : Schemas F → OperationResult F → OperationResult F → Bool
  accepts schemas r s =
      (schemas.result_conforms r && payload_ok schemas r)
      && (schemas.result_conforms s && payload_ok schemas s)

  -- The result names its domain status and reason, and its exit class is 5 for an indeterminate
  -- status and 0 for any other.
  unfoldable pub Names : String → String → String → OperationResult F → Type 0
  Names reason key status r =
      (r.operation_status ≡ completed)
      × (r.reason_code ≡ reason)
      × (r.domain_status ≡ some ((key, status) ∷ []))
      × (r.cli_exit_class ≡ exit_of status)

  -- What runs on the completed result once it has passed.
  completed_outcome_lem :
      (schemas : Schemas F) (fresh operation : String) (outcome : Outcome F)
      (Q : OperationResult F → Type 0) (b : Bool)
      (f : OperationResult F → Result (OperationResult F))
      → Answers Q b (f (started fresh operation outcome))
      → Answers Q
          ((schemas.result_conforms (started fresh operation outcome)
              && payload_ok schemas (started fresh operation outcome))
            && b)
          (completed_outcome schemas fresh operation outcome >>= f)
  unfolding completed_outcome completed_result
  completed_outcome_lem schemas fresh operation outcome Q b f h =
      let c = started fresh operation outcome in
      Answers-bind (λ x. x ≡ c) Q _ b (validated schemas c) f
        (accepted_lem schemas c (λ x. x ≡ c)
          (completed_semantics fresh (versioned operation) outcome.value_type outcome.value
            (event_diagnostics outcome) (some outcome.receipt_id))
          refl)
        (λ x e. subst (λ y. Answers Q b (f y)) (sym e) h)

  named_lem :
      (schemas : Schemas F) (fresh operation : String) (outcome : Outcome F)
      (reason key status : String)
      → Answers
          (Names reason key status)
          (schemas.result_conforms (with_domain (started fresh operation outcome) reason key status)
            && payload_ok schemas (with_domain (started fresh operation outcome) reason key status))
          (validated schemas (with_domain (started fresh operation outcome) reason key status))
  unfolding Names with_domain completed_record
  named_lem schemas fresh operation outcome reason key status =
      accepted_lem schemas _ (Names reason key status)
        (domain_semantics fresh (versioned operation) outcome.value_type outcome.value
          (event_diagnostics outcome) (some outcome.receipt_id) reason key status)
        (refl, refl, refl, refl)

  -- The result of an assessment with this status and reason: `_quanta_result` returns exactly when
  -- the schemas accept both the completed result and the one with the domain status, which it
  -- returns, named by the assessment's status and reason.
  pub quanta_result_lem :
      (schemas : Schemas F) (fresh operation : String) (outcome : Outcome F)
      (status reason : String)
      → has_member "record_type" "DSQAssessment" outcome.value ≡ true
      → member "assessment_status" outcome.value ≡ some status
      → member "reason_code" outcome.value ≡ some reason
      → Answers
          (Names reason "assessment_status" status)
          (accepts schemas
            (started fresh operation outcome)
            (with_domain (started fresh operation outcome) reason "assessment_status" status))
          (quanta_result schemas fresh operation outcome)
  unfolding quanta_result accepts assessed
  quanta_result_lem schemas fresh operation outcome status reason h s r =
      completed_outcome_lem schemas fresh operation outcome _ _ _
        (rw (h, s, r) (named_lem schemas fresh operation outcome reason "assessment_status" status))

  -- The result of a comparison with this status: `_relation_result` returns exactly when the schemas
  -- accept both the completed result and the one with the domain status, which it returns; its
  -- reason is the one that all the relations share, and `completed` where there is none or two
  -- relations have different ones.
  pub relation_result_lem :
      (schemas : Schemas F) (fresh operation : String) (outcome : Outcome F) (status : String)
      (items : Items F) (reasons : List String)
      → has_member "payload_type" "RelationSet" outcome.value ≡ true
      → comparison_status outcome.value ≡ ok status
      → items_of outcome.value ≡ ok items
      → reasons_of items ≡ ok reasons
      → Answers
          (Names (shared_reason reasons) "comparison_status" status)
          (accepts schemas (started fresh operation outcome) (
            with_domain
              (started fresh operation outcome)
              (shared_reason reasons)
              "comparison_status"
              status))
          (relation_result schemas fresh operation outcome)
  unfolding relation_result accepts compared
  relation_result_lem schemas fresh operation outcome status items reasons h s i r =
      completed_outcome_lem schemas fresh operation outcome _ _ _ (
        rw (h, s, i, r, sole_reason-shared reasons)
          (named_lem schemas fresh operation outcome (shared_reason reasons) "comparison_status"
            status))
