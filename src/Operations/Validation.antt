-- ===== src/Operations/Validation.antt =====
-- `SchemaRegistry.validate` and `validate_operation_result` of src/qste/core/contracts.py. What the
-- JSON Schema library decides about a value is the parameter `Schemas`.
use Prim.Native.String.{len, slice, find}
use qste.Base.{
  ℕ, zero, suc, ◌+◌, String, ◌≡◌, refl, ◌↔◌, ◌⊎◌, inl, inr, Bool, true, false, not, ◌&&◌, ltb,
  Option, none, some, str_eq, starts_with, if◌then◌else◌, Result, ok, err, ◌>>◌, raise_if,
  conformance_failed, invalid_input, arith, Ensures, Ensures-bind, Ensures-then, Ensures-first,
  is_ok, Answers, Answers-is_ok, Answers-bind, Answers-raise_if, Bool-cases, subst,
}
use qste.Core.Json.{Json, obj, text, get_field}
use qste.Operations.Results.{
  OperationStatus, completed, refused, unavailable, partial, failed, OperationResult, is_completed,
  has_indeterminate, expected_exit, expected_by_reason, validate_operation_semantics, exit_eq,
}

-- The schema of operation results, and the schema set by identifier: a schema says whether a value
-- has no errors.
pub record Schemas (F : Type 0) : Type 0 where
  pub result_conforms : OperationResult F → Bool
  pub find_schema : String → Option (Json F → Bool)

-- The text after the last slash, `s.rsplit("/", 1)[-1]`; every step drops a slash at least.
unfoldable pub segment : ℕ → String → String
segment zero s = s
segment (suc fuel) s =
    let rest = segment fuel (slice s (find s "/" + 1) (len s)) in
    if ltb (find s "/") (len s) then rest else s

unfoldable pub last_segment : String → String
last_segment s = segment (len s) s

module _ {F : Type 0} where
  -- `SchemaRegistry.validate`
  unfoldable pub validate : Schemas F → Json F → String → Result (Unit {0})
  validate schemas value id = elim (schemas.find_schema id) [
    | none ↦ err invalid_input
    | some conforms ↦ raise_if (not (conforms value)) conformance_failed
  ]

  -- `isinstance(payload, Mapping) and payload.get("payload_type") == expected`
  unfoldable pub has_payload_type : String → Json F → Bool
  has_payload_type expected (obj fs) = elim (get_field "payload_type" fs) [
    | some (text s) ↦ str_eq s expected
    | _ ↦ false
  ]
  has_payload_type expected _ = false

  unfoldable pub validate_payload : Schemas F → String → Json F → Result (Unit {0})
  validate_payload schemas value_type payload =
      if starts_with value_type "qste-payload/0.3.0/"
      then validate schemas payload "https://schemas.qste.invalid/0.3.0/typed-payload.schema.json"
        >> raise_if (not (has_payload_type (last_segment value_type) payload)) conformance_failed
      else validate schemas payload value_type

  -- The value of a completed result is checked.
  unfoldable pub check_payload : Schemas F → OperationResult F → Result (Unit {0})
  check_payload schemas r =
      if is_completed r.operation_status
      then validate_payload schemas r.value_type r.value
      else ok tt

  unfoldable pub payload_ok : Schemas F → OperationResult F → Bool
  payload_ok schemas r = is_ok (check_payload schemas r)

  unfoldable pub validate_operation_result : Schemas F → OperationResult F → Result (Unit {0})
  validate_operation_result schemas r = do
    raise_if (not (schemas.result_conforms r)) conformance_failed
    validate_operation_semantics r
    check_payload schemas r

-- What an exit class says of a result with this status, which names `indeterminate` or does not.
unfoldable pub ExitSound : OperationStatus → Bool → ℕ → Type 0
ExitSound status indeterminate exit =
    ((exit ≡ 0) ↔ ((status ≡ completed) × (indeterminate ≡ false)))
    × ((exit ≡ 5) ↔ ((status ≡ completed) × (indeterminate ≡ true)))
    × ((exit ≡ 3) ↔ (status ≡ refused))
    × ((exit ≡ 4) ↔ (status ≡ unavailable))
    × ((exit ≡ 6) ↔ (status ≡ partial))
    × (((exit ≡ 2) ⊎ (exit ≡ 7) ⊎ (exit ≡ 8) ⊎ (exit ≡ 9)) ↔ (status ≡ failed))

exit_eq-some : (m n : ℕ) → exit_eq (some m) n ≡ true → n ≡ m
exit_eq-some m n h = ground arith

-- The exit class that a status expects, as a predicate of what `expected_exit` returns.
abbrev Expects : OperationStatus → Bool → Option ℕ → Type 0
Expects status indeterminate expected =
    (n : ℕ) → exit_eq expected n ≡ true → ExitSound status indeterminate n

completed-Expects : (i : Bool) → Expects completed i (some (if i then 5 else 0))
unfolding ExitSound
completed-Expects true n h = ground arith
completed-Expects false n h = ground arith

failed-Expects : (i : Bool) (reason : String) → Expects failed i (expected_by_reason reason)
unfolding ExitSound expected_by_reason
failed-Expects i reason n h = ground arith

module _ {F : Type 0} where
  expected_exit-Expects :
      (r : OperationResult F) (s : OperationStatus)
      → Ensures (Expects s (has_indeterminate r.domain_status)) (expected_exit r s)
  unfolding expected_exit ExitSound
  expected_exit-Expects r completed =
      let h = completed-Expects (has_indeterminate r.domain_status) in ground arith
  expected_exit-Expects r refused = ground arith
  expected_exit-Expects r unavailable = ground arith
  expected_exit-Expects r partial = ground arith
  expected_exit-Expects r failed =
      let h = failed-Expects (has_indeterminate r.domain_status) r.reason_code in ground arith

  exit_eq-Sound :
      (r : OperationResult F) (e : Option ℕ)
      → Expects r.operation_status (has_indeterminate r.domain_status) e
      → Ensures
          (λ _. ExitSound r.operation_status (has_indeterminate r.domain_status) r.cli_exit_class)
          (raise_if (not (exit_eq e r.cli_exit_class)) conformance_failed)
  exit_eq-Sound r e h = elim (Bool-cases (exit_eq e r.cli_exit_class)) [
    | inl d ↦ rw d (h r.cli_exit_class d)
    | inr d ↦ rw d tt
  ]

  -- Whatever the schemas say, a result that passes the validation has an exit class that determines
  -- its status: 0 is a completed result without an indeterminate status and 5 one with it, 3 is
  -- refused, 4 unavailable, 6 partial, and 2, 7, 8 or 9 failed.
  pub validate_operation_result-ExitSound :
      (schemas : Schemas F) (r : OperationResult F)
      → Ensures
          (λ _. ExitSound r.operation_status (has_indeterminate r.domain_status) r.cli_exit_class)
          (validate_operation_result schemas r)
  unfolding validate_operation_result validate_operation_semantics
  validate_operation_result-ExitSound schemas r =
      let Sound : Type 0 =
        ExitSound r.operation_status (has_indeterminate r.domain_status) r.cli_exit_class in
      Ensures-then (λ _. Sound) (raise_if (not (schemas.result_conforms r)) conformance_failed) _
        (λ _. Ensures-first Sound (validate_operation_semantics r) _ (
          Ensures-bind (Expects r.operation_status (has_indeterminate r.domain_status)) (λ _. Sound)
            (expected_exit r r.operation_status) _ (expected_exit-Expects r r.operation_status)
            (exit_eq-Sound r)))

  -- When a result passes its structural check under `may`, the whole validation passes under `may`
  -- and the schemas.
  pub validate_operation_result_lem :
      (schemas : Schemas F) (r : OperationResult F) (P : Type 0) (may : Bool)
      → Answers (λ _. P) may (validate_operation_semantics r)
      → Answers
          (λ _. P)
          (schemas.result_conforms r && (may && payload_ok schemas r))
          (validate_operation_result schemas r)
  unfolding validate_operation_result payload_ok
  validate_operation_result_lem schemas r P may h =
      Answers-raise_if (λ _. P) (schemas.result_conforms r) _ conformance_failed _
        (Answers-bind (λ _. P) (λ _. P) may _ (validate_operation_semantics r) _ h
          (λ _ p. Answers-is_ok (λ _. P) _ (λ _. p)))

  -- The value of any other result than a completed one is not looked at.
  pub uncompleted_lem :
      (schemas : Schemas F) (r : OperationResult F) (P : Type 0) (may : Bool)
      → is_completed r.operation_status ≡ false
      → Answers (λ _. P) may (validate_operation_semantics r)
      → Answers (λ _. P) (schemas.result_conforms r && may) (validate_operation_result schemas r)
  unfolding payload_ok check_payload
  uncompleted_lem schemas r P may n h =
      let accepted : payload_ok schemas r ≡ true = rw n refl in
      let same : (may && payload_ok schemas r) ≡ may = ground arith in
      subst
        (λ b.
          Answers (λ _. P) (schemas.result_conforms r && b) (validate_operation_result schemas r))
        same (validate_operation_result_lem schemas r P may h)
