-- ===== src/Quanta/Charges.antt =====
-- What the evaluation loop of `execute_task` (src/qste/quanta/service.py) charges to the budget.
use qste.Base.{
  ℕ, suc, ◌+◌, ◌*◌, ◌≤◌, ltb, ◌==◌, String, ◌≡◌, inl, inr, refl, ap, ◌∙◌, not, Option, none, some,
  List, [], ◌∷◌, length, length-append, raise_if, Ensures, Ensures-bind, Ensures-then, Bool-cases,
  Option-cases, arith, invalid_assessment_spec,
}
use qste.Quanta.Intervals.{Floats}
use qste.Quanta.Budget.{
  Statistics, ScoreUnit, Plan, Progress, get_key, finite_scores, paired_scores, interval, oriented,
  charge, evaluate,
}

module _ (N : Floats) (S : Statistics N) where
  finite_scores-length :
      (xs : List (Option N.Float)) → Ensures (λ ys. length ys ≡ length xs) (finite_scores N S xs)
  finite_scores-length [] = refl
  finite_scores-length (none ∷ xs) = tt
  finite_scores-length (some x ∷ xs) =
      Ensures-then _ (raise_if (not (N.is_finite x)) invalid_assessment_spec) _ (λ _.
        Ensures-bind (λ ys. length ys ≡ length xs) (λ ys. length ys ≡ suc (length xs))
          (finite_scores N S xs) _ (finite_scores-length xs) (λ ys h. ap suc h))

  paired_scores-length :
      (u : ScoreUnit N) (repeats : ℕ)
      → Ensures (λ s. length s.0 ≡ repeats) (paired_scores N S u repeats)
  unfolding paired_scores
  paired_scores-length u repeats =
      let OfRepeats = λ (s : List N.Float × List N.Float). length s.0 ≡ repeats in
      elim (Bool-cases (length u.reference_scores == repeats)) [
        | inl e ↦ Ensures-then OfRepeats (raise_if _ invalid_assessment_spec) _ (λ _.
            Ensures-bind (λ ys. length ys ≡ length u.reference_scores) OfRepeats
              (finite_scores N S u.reference_scores) _ (finite_scores-length u.reference_scores)
              (λ ys h.
                Ensures-then OfRepeats (finite_scores N S u.intervened_scores) _
                  (λ zs. ground arith)))
        | inr e ↦ rw e tt
      ]

  mul_add_one : (n c : ℕ) → (n + 1) * c ≡ n * c + c
  mul_add_one n c = omega arith

  -- What the loop has charged.
  unfoldable pub IsCharged : Plan N → Progress N → Type 0
  IsCharged p s = (s.used ≤ p.maximum_evaluations) × (s.used ≡ length s.intervals * (p.repeats * 2))

  charge-IsCharged :
      (p : Plan N) (id : String) (scores : List N.Float × List N.Float) (s : Progress N)
      → length scores.0 ≡ p.repeats
      → IsCharged p s
      → Ensures (IsCharged p) (charge N S p id scores s)
  unfolding charge IsCharged
  charge-IsCharged p id scores s e h =
      elim (Bool-cases (ltb p.maximum_evaluations (s.used + length scores.0 * 2))) [
        | inl o ↦ rw o h
        | inr o ↦ rw o (
            Ensures-then (IsCharged p) (interval N S p (oriented N S p scores)) _ (λ found.
              let l = length-append s.intervals ((id, found) ∷ []) in
              let m =
                ap (λ k. k * (p.repeats * 2)) l
                ∙ mul_add_one (length s.intervals) (p.repeats * 2) in
              (ground arith, omega (arith, m, e, h.1))))
      ]

  pub evaluate-IsCharged :
      (p : Plan N) (units : List (String × ScoreUnit N)) (ids : List String) (s : Progress N)
      → IsCharged p s
      → Ensures (IsCharged p) (evaluate N S p units ids s)
  unfolding evaluate
  evaluate-IsCharged p units [] s h = h
  evaluate-IsCharged p units (id ∷ ids) s h = elim (Option-cases (get_key id units)) [
    | inl e ↦ rw (e, evaluate) (evaluate-IsCharged p units ids s h)
    | inr (u, e) ↦
        let OfRepeats = λ (c : List N.Float × List N.Float). length c.0 ≡ p.repeats in
        rw (e, evaluate)
          (Ensures-bind OfRepeats (IsCharged p) (paired_scores N S u p.repeats) _
            (paired_scores-length u p.repeats)
            (λ scores l.
              Ensures-bind (IsCharged p) (IsCharged p) (charge N S p id scores s) _
                (charge-IsCharged p id scores s l h) (λ s1 k. evaluate-IsCharged p units ids s1 k)))
  ]
