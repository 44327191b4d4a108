-- ===== src/Policy/Appeals/Lifecycle.antt =====
-- Histories of `open_appeal`, `adjudicate` and `apply_repair` of src/qste/policy/service.py, and the
-- status axes of the cases that they arrive at.
use qste.Base.{
  sym, ◌∙◌, Ensures-then, Ensures-raise_if, invalid_input, authority_unresolved,
  standing_unverified, standing_denied, ◌||◌, not, String, ◌≡◌, ◌≢◌, ◌↔◌, Answers, Answers, ◌⊎◌,
  refl, Bool, true, false, ◌&&◌, List, [], ◌∷◌, ◌++◌, str_eq, contains, arith, ok, err, Result,
  raise_if, conformance_failed, Ensures, Ensures-eq_ok, Ensures-bind, Answers-bind, Bool-cases, inl,
  inr, ◌>>=◌, ◌>>◌,
}
use qste.Policy.State.{RepairAction, delete, PolicyEvent, read_events}
use qste.Policy.Targets.{TargetClosure}
use qste.Policy.Appeals.Changes.{is_idle, changes_nothing-is_idle}
use qste.Policy.Appeals.{
  opened, under_review, adjudicated, closed, Outcome, RepairStatus, applied, partially_applied,
  impossible, AppealCase, GovernanceBoundary, Request, require_permitted, require_authority,
  require_action, action_name, AppealSpec, open_appeal, may_adjudicate, is_undecided, adjudicate,
  RepairSpec, is_favorable, is_adjudicated, unresolved_targets, is_empty, repair_status_after,
  apply_repair, is_delete, changes_nothing, check_repair, pause_after,
}

-- A case is decided exactly from its adjudication on, and closed only by a repair that was decided
-- for and that reports how far it went.
unfoldable pub IsSound : AppealCase → Type 0
IsSound c = elim c.appeal_status [
  | opened ↦ ⊥
  | under_review ↦
      (is_undecided c.adjudication_outcome ≡ true) × (c.repair_status ≡ RepairStatus.not_requested)
  | adjudicated ↦
      (is_undecided c.adjudication_outcome ≡ false) × (c.repair_status ≡ RepairStatus.not_requested)
  | closed ↦
      (is_favorable c.adjudication_outcome ≡ true)
      × (c.repair_status ≢ RepairStatus.not_requested)
      × (c.repair_status ≢ RepairStatus.pending)
]

-- What a repair requires, as one test.
unfoldable pub may_repair : GovernanceBoundary → Request → RepairAction → AppealCase → Bool
may_repair b r action prior =
    str_eq r.authorization_status "permitted"
    && contains r.authority_record_id b.authority_ids
    && contains (action_name action) b.permitted_actions
    && is_adjudicated prior.appeal_status
    && is_favorable prior.adjudication_outcome
    && str_eq (action_name action) (action_name prior.requested_action)

-- The case that a repair leaves.
unfoldable pub Repaired : RepairSpec → RepairAction → AppealCase → AppealCase → Type 0
Repaired spec action prior after =
    (after.appeal_status ≡ closed)
    × (after.adjudication_outcome ≡ prior.adjudication_outcome)
    × (after.requested_action ≡ prior.requested_action)
    × ((after.repair_status ≡ applied) ↔ (
        (spec.feasible_change_or_stop ≡ true) × (is_empty (unresolved_targets action spec) ≡ true)))

-- The target is already as the repair would make it.
unfoldable pub is_done : RepairAction → List PolicyEvent → TargetClosure → Bool
is_done action log found =
    let a = read_events found.root_record_id log in is_idle action a.authorization a.pause

-- The specification is well formed, the closure of the target is found, and where the repair is
-- feasible and no deletion the target is not as the repair would make it.
unfoldable pub can_repair :
    RepairAction → RepairSpec → List PolicyEvent → Result TargetClosure → Bool
can_repair action spec log (err e) = false
can_repair action spec log (ok found) =
    spec.is_well_formed
    && (not spec.feasible_change_or_stop || is_delete action || not (is_done action log found))

changes_nothing-is_done :
    (action : RepairAction) (log : List PolicyEvent) (found : TargetClosure)
    → changes_nothing action log found ≡ is_done action log found
unfolding is_done
changes_nothing-is_done action log found = changes_nothing-is_idle action log found

check_repair-Answers :
    (b : GovernanceBoundary) (r : Request) (action : RepairAction) (prior : AppealCase)
    → Answers
        (λ _. is_favorable prior.adjudication_outcome ≡ true)
        (may_repair b r action prior)
        (check_repair b r action prior)
unfolding check_repair require_permitted require_authority require_action may_repair
check_repair-Answers b r action prior = ground arith

-- What runs once the tests have passed.
repaired :
    (action : RepairAction) (spec : RepairSpec) (closure : Result TargetClosure)
    (log : List PolicyEvent) (prior : AppealCase)
    → Answers (Repaired spec action prior) (can_repair action spec log closure) (
        raise_if (not spec.is_well_formed) invalid_input
        >> (closure >>= λ found.
            raise_if
              (spec.feasible_change_or_stop
                && not (is_delete action)
                && changes_nothing action log found)
              conformance_failed
            >> ok (record prior {
              appeal_status = closed;
              pause_status = pause_after action prior.pause_status spec.feasible_change_or_stop;
              repair_status =
                  repair_status_after spec.feasible_change_or_stop (unresolved_targets action spec);
            })))
unfolding Repaired repair_status_after can_repair
repaired action spec (ok found) log prior =
    let e = changes_nothing-is_done action log found in
    elim (Bool-cases (changes_nothing action log found)) [
      | inl h ↦ rw (h, sym e ∙ h) (ground arith)
      | inr h ↦ rw (h, sym e ∙ h) (ground arith)
    ]
repaired action spec (err e) log prior = ground arith

-- `apply_repair` gets to the writing of its records exactly when `may_repair` and `can_repair` hold: an
-- authorized, favorable adjudication of the same action, a well-formed specification, a closure of
-- the target that is found, and, where the repair is feasible and no deletion, a target that is not
-- already as the repair would make it: paused, revoked, or free for use. The case that it writes is closed and keeps the outcome, and its repair is
-- `applied` exactly when it is feasible and leaves no target unresolved.
pub apply_repair_lem :
    (b : GovernanceBoundary) (r : Request) (action : RepairAction) (spec : RepairSpec)
    (closure : Result TargetClosure) (log : List PolicyEvent) (prior : AppealCase)
    → Answers
        (Repaired spec action prior)
        (may_repair b r action prior && can_repair action spec log closure)
        (apply_repair b r action spec closure log prior)
unfolding apply_repair
apply_repair_lem b r action spec closure log prior =
    Answers-bind (λ _. is_favorable prior.adjudication_outcome ≡ true) (Repaired spec action prior)
      (may_repair b r action prior) (can_repair action spec log closure)
      (check_repair b r action prior) _ (check_repair-Answers b r action prior)
      (λ _ _. repaired action spec closure log prior)

Answers-Ensures_of {ℓ} :
    {A : Type ℓ} (P : A → Type 0) (b : Bool) (m : Result A) → Answers P b m → Ensures P m
Answers-Ensures_of P b (ok x) h = h.1
Answers-Ensures_of P b (err e) h = tt

opens :
    (b : GovernanceBoundary) (r : Request) (spec : AppealSpec)
    → Ensures IsSound (open_appeal b r spec)
unfolding open_appeal IsSound
opens b r spec = Ensures-then IsSound (require_permitted r.authorization_status) _ (λ _.
    Ensures-then IsSound (require_action b "appeal") _ (λ _.
      Ensures-then IsSound (require_authority b r.authority_record_id) _ (λ _.
        Ensures-raise_if IsSound (not spec.standing_present) standing_unverified _ (λ _.
          Ensures-raise_if IsSound (not spec.standing_verified) standing_denied _ (λ _.
            Ensures-raise_if IsSound (not spec.standing_evidence_present) invalid_input _ (λ _.
              Ensures-raise_if IsSound (not spec.duty_to_respond) authority_unresolved _ (λ _.
                Ensures-raise_if IsSound (not spec.deadlines_present) invalid_input _ (λ _.
                  Ensures-raise_if IsSound (not spec.jurisdiction_present) invalid_input _
                    (λ _. (refl, refl))))))))))

decide-IsSound :
    (b : GovernanceBoundary) (r : Request) (outcome : Outcome) (has_evidence : Bool)
    (prior : AppealCase)
    → Ensures IsSound (adjudicate b r outcome has_evidence prior)
unfolding adjudicate IsSound
decide-IsSound b r outcome has_evidence prior =
    Ensures-then IsSound (require_permitted r.authorization_status) _ (λ _.
      Ensures-then IsSound (require_action b "adjudicate") _ (λ _.
        Ensures-then IsSound (require_authority b r.authority_record_id) _ (λ _.
          Ensures-raise_if IsSound (not (may_adjudicate prior.appeal_status)) invalid_input _ (λ _.
            Ensures-raise_if IsSound (not (is_undecided prior.adjudication_outcome)) invalid_input _
              (λ _. Ensures-raise_if IsSound (is_undecided outcome) invalid_input _ (λ decided.
                Ensures-raise_if IsSound (not has_evidence) invalid_input _
                  (λ _. (decided, refl))))))))

-- A repair that was made reports how far it went.
finished :
    (feasible : Bool) (unresolved : List String)
    → (repair_status_after feasible unresolved ≢ RepairStatus.not_requested)
      × (repair_status_after feasible unresolved ≢ RepairStatus.pending)
unfolding repair_status_after
finished feasible unresolved = ground arith

repair-IsSound :
    (b : GovernanceBoundary) (r : Request) (action : RepairAction) (spec : RepairSpec)
    (closure : Result TargetClosure) (log : List PolicyEvent) (prior : AppealCase)
    → Ensures IsSound (apply_repair b r action spec closure log prior)
unfolding apply_repair IsSound
repair-IsSound b r action spec closure log prior =
    let status = finished spec.feasible_change_or_stop (unresolved_targets action spec) in
    Ensures-bind (λ _. is_favorable prior.adjudication_outcome ≡ true) IsSound
      (check_repair b r action prior) _
      (Answers-Ensures_of _ (may_repair b r action prior) (check_repair b r action prior)
        (check_repair-Answers b r action prior))
      (λ _ favorable. Ensures-raise_if IsSound (not spec.is_well_formed) invalid_input _ (λ _.
        Ensures-then IsSound closure _ (λ found.
          Ensures-raise_if IsSound
            (spec.feasible_change_or_stop
              && not (is_delete action)
              && changes_nothing action log found)
            conformance_failed _ (λ _. (favorable, status.0, status.1)))))

-- The cases that some history of calls arrives at.
pub data Reached : AppealCase → Type 0 where
  opened_by :
      (b : GovernanceBoundary) (r : Request) (spec : AppealSpec) (c : AppealCase)
      → open_appeal b r spec ≡ ok c
      → Reached c
  decided_by :
      (b : GovernanceBoundary) (r : Request) (outcome : Outcome) (has_evidence : Bool)
      (prior c : AppealCase)
      → Reached prior
      → adjudicate b r outcome has_evidence prior ≡ ok c
      → Reached c
  repaired_by :
      (b : GovernanceBoundary) (r : Request) (action : RepairAction) (spec : RepairSpec)
      (closure : Result TargetClosure) (log : List PolicyEvent) (prior c : AppealCase)
      → Reached prior
      → apply_repair b r action spec closure log prior ≡ ok c
      → Reached c

-- In every case that a history of `open_appeal`, `adjudicate` and `apply_repair` arrives at, a case
-- under review is undecided, an adjudicated one is decided and unrepaired, and a closed one was
-- decided favorably and its repair is neither pending nor missing.
pub Reached-IsSound : (c : AppealCase) → Reached c → IsSound c
Reached-IsSound c (opened_by b r spec _ h) =
    Ensures-eq_ok IsSound (open_appeal b r spec) (opens b r spec) h
Reached-IsSound c (decided_by b r o e prior _ h k) =
    Ensures-eq_ok IsSound (adjudicate b r o e prior) (decide-IsSound b r o e prior) k
Reached-IsSound c (repaired_by b r a spec closure log prior _ h k) =
    Ensures-eq_ok IsSound (apply_repair b r a spec closure log prior)
      (repair-IsSound b r a spec closure log prior) k

is_empty-append : (xs ys : List String) → is_empty ys ≡ false → is_empty (xs ++ ys) ≡ false
is_empty-append [] ys h = h
is_empty-append (x ∷ xs) ys h = refl

delete_leaves_history : (spec : RepairSpec) → is_empty (unresolved_targets delete spec) ≡ false
unfolding unresolved_targets
delete_leaves_history spec = is_empty-append _ ("immutable_qste_record_history" ∷ []) refl

-- A deletion that is granted is never reported as `applied`: it is `impossible` or
-- `partially_applied`, since the immutable record history stays behind.
pub delete_is_never_applied :
    (b : GovernanceBoundary) (r : Request) (spec : RepairSpec) (closure : Result TargetClosure)
    (log : List PolicyEvent) (prior : AppealCase)
    → Ensures
        (λ after. (after.repair_status ≡ impossible) ⊎ (after.repair_status ≡ partially_applied))
        (apply_repair b r delete spec closure log prior)
unfolding apply_repair repair_status_after
delete_is_never_applied b r spec closure log prior =
    let e = delete_leaves_history spec in
    let P = λ (after : AppealCase).
      (after.repair_status ≡ impossible) ⊎ (after.repair_status ≡ partially_applied) in
    Ensures-then P (check_repair b r delete prior) _ (λ _.
      Ensures-then P (raise_if (not spec.is_well_formed) invalid_input) _ (λ _.
        Ensures-then P closure _ (λ found.
          Ensures-then P
            (raise_if (spec.feasible_change_or_stop && false && changes_nothing delete log found)
              conformance_failed)
            _ (λ _. ground arith))))
