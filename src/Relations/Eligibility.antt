-- ===== src/Relations/Eligibility.antt =====
-- Which pairs `_pair_evidence` (src/qste/relations/service.py) lets into the matching.
use qste.Base.{
  String, ◌≡◌, refl, inl, Bool, true, false, not, ◌&&◌, ◌||◌, Option, none, some, str_eq,
  if◌then◌else◌, ok, ◌>>◌, raise_if, Ensures, Ensures-bind, invalid_comparison_spec, arith, is_ok,
  Bool-cases, List, contains, Answers, subst, ◌∷◌, ReasonCode, is_ok-last, sym, ◌∙◌,
  Answers-of_Ensures, [], any, eq_iff, inr, all,
}
use qste.Quanta.Intervals.{Floats}
use qste.Relations.Pairs.{
  PairState, pending, omission, loss, incomplete, eligible, Controls, control_state,
  projection_state, Measured, Thresholds, covers, measured_state, is_pending, pair_state,
}

abbrev pub is_eligible : PairState → Bool
is_eligible eligible = true
is_eligible _ = false

-- Every control of the pair passed.
abbrev pub controls_passed : Option Controls → Bool
controls_passed none = false
controls_passed (some c) =
    not (str_eq c.target_address "absent")
    && not (str_eq c.target_address "incomplete")
    && str_eq c.fidelity "passed"
    && str_eq c.consequentiality "passed"
    && str_eq c.artifact_controls "passed"

module _ (N : Floats) where
  -- Both units cover each other, and the effects agree within the tolerance.
  abbrev pub measures_agree : Thresholds N → Measured N → Bool
  measures_agree c m =
      not m.source_mass_zero
      && not m.target_mass_zero
      && (covers N c m.source_coverage && covers N c m.target_coverage)
      && (N.leb (N.neg c.tolerance) m.effect.0 && N.leb m.effect.1 c.tolerance)

  measured_eligible :
      (c : Thresholds N) (m : Measured N) → is_eligible (measured_state N c m) ≡ measures_agree c m
  unfolding measured_state
  measured_eligible c m = ground arith

  projection-not_eligible :
      (source target : String) → is_eligible (projection_state source target) ≡ false
  unfolding projection_state
  projection-not_eligible source target = ground arith

-- A text is at most one of two that differ.
apart : (t u v : String) → str_eq u v ≡ false → (str_eq t u && str_eq t v) ≡ false
apart t u v h = elim (Bool-cases (str_eq t u)) [
  | inl e ↦
      let same = sym ((eq_iff t u).0 e) in
      subst (λ z. (str_eq z u && str_eq z v) ≡ false) same (ground arith)
  | inr e ↦ ground arith
]

-- The classification on the results of its token tests, where no text is both passed and otherwise.
control_rules :
    (ea aa ia pf ff nf pc fc nc pk fk nk : Bool)
    → (pf && ff) ≡ false
    → (pf && nf) ≡ false
    → (pc && fc) ≡ false
    → (pc && nc) ≡ false
    → (pk && fk) ≡ false
    → (pk && nk) ≡ false
    → Ensures
        (λ s. (is_pending s ≡ (not aa && not ia && pf && pc && pk)) × (is_eligible s ≡ false))
        (raise_if
            (not (ea || (aa || (ia || false)))
              || (not (pf || (ff || (nf || false)))
                  || (not (pc || (fc || (nc || false)))
                      || (not (pk || (fk || (nk || false))) || false))))
            invalid_comparison_spec
          >> ok (
              if aa
              then omission
              else if ff || (fc || (fk || false))
              then loss
              else if ia || (nf || (nc || (nk || false)))
              then incomplete
              else pending))
control_rules ea aa ia pf ff nf pc fc nc pk fk nk h1 h2 h3 h4 h5 h6 = ground arith

control_pending :
    (k : Option Controls)
    → Ensures (λ s. (is_pending s ≡ controls_passed k) × (is_eligible s ≡ false)) (control_state k)
unfolding control_state
control_pending none = (refl, refl)
control_pending (some c) =
    control_rules (str_eq c.target_address "exists") (str_eq c.target_address "absent")
      (str_eq c.target_address "incomplete") (str_eq c.fidelity "passed")
      (str_eq c.fidelity "failed") (str_eq c.fidelity "incomplete")
      (str_eq c.consequentiality "passed") (str_eq c.consequentiality "failed")
      (str_eq c.consequentiality "incomplete") (str_eq c.artifact_controls "passed")
      (str_eq c.artifact_controls "failed") (str_eq c.artifact_controls "incomplete")
      (apart c.fidelity "passed" "failed" refl) (apart c.fidelity "passed" "incomplete" refl)
      (apart c.consequentiality "passed" "failed" refl)
      (apart c.consequentiality "passed" "incomplete" refl)
      (apart c.artifact_controls "passed" "failed" refl)
      (apart c.artifact_controls "passed" "incomplete" refl)

-- Controls that are given have known tokens.
abbrev pub has_tokens : Option Controls → Bool
has_tokens none = true
has_tokens (some c) =
    contains c.target_address ("exists" ∷ "absent" ∷ "incomplete" ∷ [])
    && all (λ token. contains token ("passed" ∷ "failed" ∷ "incomplete" ∷ []))
        (c.fidelity ∷ c.consequentiality ∷ c.artifact_controls ∷ [])

-- A guard that wants a test of its own and a test of each of several.
guarded :
    {X Y : Type 0} (a : Bool) (p : X → Bool) (xs : List X) (e : ReasonCode) (y : Y)
    → is_ok (raise_if (not a || any (λ x. not (p x)) xs) e >> ok y) ≡ (a && all p xs)
guarded a p [] e y = ground arith
guarded a p (x ∷ xs) e y = let ih = guarded a p xs e y in ground arith

is_ok-control_state : (o : Option Controls) → is_ok (control_state o) ≡ has_tokens o
unfolding control_state
is_ok-control_state none = refl
is_ok-control_state (some c) =
    guarded (contains c.target_address ("exists" ∷ "absent" ∷ "incomplete" ∷ []))
      (λ token. contains token ("passed" ∷ "failed" ∷ "incomplete" ∷ []))
      (c.fidelity ∷ c.consequentiality ∷ c.artifact_controls ∷ []) invalid_comparison_spec _

module _ (N : Floats) where
  pub is_ok-pair_state :
      (c : Thresholds N) (o : Option Controls) (p q : String) (m : Measured N)
      → is_ok (pair_state N c o p q m) ≡ has_tokens o
  unfolding pair_state
  is_ok-pair_state c o p q m =
      is_ok-last (control_state o) _ (λ state. refl) ∙ is_ok-control_state o

  -- The state of a pair is found exactly when the controls that are given have known tokens. The pair
  -- is let into the matching exactly when both projections are valid, every control passed, both
  -- footprints have mass, each unit covers the other and the effects agree within the tolerance.
  pub pair_state_lem :
      (c : Thresholds N) (k : Option Controls) (source target : String) (m : Measured N)
      → Answers
          (λ s. is_eligible s ≡ (
            (str_eq source "valid" && str_eq target "valid")
            && controls_passed k
            && measures_agree N c m))
          (has_tokens k)
          (pair_state N c k source target m)
  unfolding pair_state
  pair_state_lem c k source target m =
      let a = measured_eligible N c m in
      let b = projection-not_eligible N source target in
      let Decided = λ (s : PairState). is_eligible s ≡ (
        (str_eq source "valid" && str_eq target "valid")
        && controls_passed k
        && measures_agree N c m) in
      subst (λ may. Answers Decided may (pair_state N c k source target m))
        (is_ok-pair_state c k source target m)
        (Answers-of_Ensures Decided (pair_state N c k source target m) (
          Ensures-bind (λ s. (is_pending s ≡ controls_passed k) × (is_eligible s ≡ false)) Decided
            (control_state k) _ (control_pending k) (λ s h. ground arith)))
