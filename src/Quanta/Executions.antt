-- ===== src/Quanta/Executions.antt =====
-- When `execute_task` of src/qste/quanta/service.py returns a run of the score evidence that it is
-- given, and what it then returns.
use qste.Base.{
  ℕ, ◌+◌, ◌*◌, ◌==◌, ltb, ◌≡◌, String, refl, subst, Bool, true, false, not, ◌&&◌, ◌||◌, Option,
  none, some, List, [], ◌∷◌, all, contains, length, raise_if, Answers, Answers-bind,
  Answers-raise_if, Ensures, Ensures-bind, Ensures-then, Ensures-weaken, Ensures-and,
  Ensures-raise_if, Result, err, ReasonCode, ◌>>=◌, ◌>>◌, Option-cases, Bool-cases, inl, inr,
  invalid_assessment_spec, ok, is_ok, is_ok-bind, arith,
}
use qste.Policy.Members.{and_left, and_right}
use qste.Quanta.Intervals.{Floats}
use qste.Quanta.Budget.{
  Statistics, ScoreUnit, Plan, Progress, Executed, get_key, finite_scores, paired_scores, interval,
  oriented, charge, evaluate, execute,
}
use qste.Quanta.Budgets.{Runs, execute-Ensures}

-- A call whose value is put into another returns when the call does.
returns_with {ℓ κ} :
    {A : Type ℓ} {B : Type κ} (a : Bool) (m : Result A) (g : A → B)
    → Answers (λ _. Unit) a m
    → Answers (λ _. Unit) a (m >>= λ x. ok (g x))
returns_with a (ok x) g h = h
returns_with a (err e) g h = h

-- A guard of two tests.
returns_after {κ} :
    {B : Type κ} (a b c : Bool) (e : ReasonCode) (k : Result B)
    → Answers (λ _. Unit) c k
    → Answers (λ _. Unit) ((a && b) && c) (raise_if (not a || not b) e >> k)
returns_after true true c e k h = h
returns_after true false c e k h = refl
returns_after false b c e k h = refl

Ensures-may {ℓ} :
    {A : Type ℓ} (b : Bool) (m : Result A) → Answers (λ _. Unit) b m → Ensures (λ _. b ≡ true) m
Ensures-may b (ok x) h = h.0
Ensures-may b (err e) h = tt

is_ok-both {ℓ κ μ} :
    {A : Type ℓ} {B : Type κ} {C : Type μ} (m : Result A) (f : A → Result B) (g : A → Result C)
    → is_ok (m >>= f) ≡ true
    → ((x : A) → is_ok (f x) ≡ true → is_ok (g x) ≡ true)
    → is_ok (m >>= g) ≡ true
is_ok-both (ok x) f g h k = k x h
is_ok-both (err e) f g h k = cc

module _ (N : Floats) (S : Statistics N) where
  abbrev pub finite_score : Option N.Float → Bool
  finite_score none = false
  finite_score (some x) = N.is_finite x

  -- As many finite scores as repeats, on both sides.
  unfoldable pub well_scored : ℕ → ScoreUnit N → Bool
  well_scored repeats u =
      (length u.reference_scores == repeats && length u.intervened_scores == repeats)
      && (all finite_score u.reference_scores && all finite_score u.intervened_scores)

  abbrev pub scored : ℕ → Option (ScoreUnit N) → Bool
  scored repeats none = true
  scored repeats (some u) = well_scored repeats u

  -- The evidence names eligible units only, and those that it names are well scored.
  unfoldable pub may_execute : Plan N → List (String × ScoreUnit N) → Bool
  may_execute p units =
      all (λ e. contains e.0 p.eligible_family) units
      && all (λ id. scored p.repeats (get_key id units)) p.eligible_family

  finite_scores-Answers :
      (xs : List (Option N.Float))
      → Answers (λ _. Unit) (all finite_score xs) (finite_scores N S xs)
  finite_scores-Answers [] = (refl, tt)
  finite_scores-Answers (none ∷ xs) = refl
  finite_scores-Answers (some x ∷ xs) =
      Answers-raise_if (λ _. Unit) (N.is_finite x) (all finite_score xs) invalid_assessment_spec _
        (returns_with (all finite_score xs) (finite_scores N S xs) (λ ys. x ∷ ys)
          (finite_scores-Answers xs))

  paired_scores-Answers :
      (u : ScoreUnit N) (repeats : ℕ)
      → Answers (λ _. Unit) (well_scored repeats u) (paired_scores N S u repeats)
  unfolding paired_scores well_scored
  paired_scores-Answers u repeats =
      let reference = u.reference_scores in
      let intervened = u.intervened_scores in
      returns_after (length reference == repeats) (length intervened == repeats)
        (all finite_score reference && all finite_score intervened) invalid_assessment_spec _
        (Answers-bind (λ _. Unit) (λ _. Unit) (all finite_score reference)
          (all finite_score intervened) (finite_scores N S reference) _
          (finite_scores-Answers reference)
          (λ xs _.
            returns_with (all finite_score intervened) (finite_scores N S intervened)
              (λ ys. (xs, ys)) (finite_scores-Answers intervened)))

  evaluate-scored :
      (p : Plan N) (units : List (String × ScoreUnit N)) (ids : List String) (s : Progress N)
      → Ensures
          (λ _. all (λ id. scored p.repeats (get_key id units)) ids ≡ true)
          (evaluate N S p units ids s)
  unfolding evaluate
  evaluate-scored p units [] s = refl
  evaluate-scored p units (id ∷ ids) s =
      let Scored = λ (_ : Progress N). all (λ k. scored p.repeats (get_key k units)) ids ≡ true in
      elim (Option-cases (get_key id units)) [
        | inl e ↦ rw (e, evaluate) (evaluate-scored p units ids s)
        | inr (u, e) ↦
            rw (e, evaluate)
              (Ensures-bind (λ _. well_scored p.repeats u ≡ true) _ (paired_scores N S u p.repeats)
                _
                (Ensures-may _ (paired_scores N S u p.repeats) (paired_scores-Answers u p.repeats))
                (λ scores w. Ensures-then _ (charge N S p id scores s) _ (λ s1.
                  Ensures-weaken Scored _ (evaluate N S p units ids s1)
                    (evaluate-scored p units ids s1) (λ _ h. ground arith))))
      ]

  -- The unit's scores are found and so is the interval of its effects.
  unfoldable pub can_measure : Plan N → ScoreUnit N → Bool
  can_measure p u =
      is_ok (paired_scores N S u p.repeats >>= λ scores. interval N S p (oriented N S p scores))

  abbrev pub measurable : Plan N → Option (ScoreUnit N) → Bool
  measurable p none = true
  measurable p (some u) = can_measure p u

  -- The evidence names eligible units only, and those that it names can be measured.
  unfoldable pub may_measure : Plan N → List (String × ScoreUnit N) → Bool
  may_measure p units =
      all (λ e. contains e.0 p.eligible_family) units
      && all (λ id. measurable p (get_key id units)) p.eligible_family

  charge-returns :
      (p : Plan N) (id : String) (scores : List N.Float × List N.Float) (s : Progress N)
      → is_ok (interval N S p (oriented N S p scores)) ≡ true
      → is_ok (charge N S p id scores s) ≡ true
  unfolding charge
  charge-returns p id scores s h =
      elim (Bool-cases (ltb p.maximum_evaluations (s.used + length scores.0 * 2))) [
        | inl o ↦ rw o refl
        | inr o ↦ rw o (is_ok-bind (interval N S p (oriented N S p scores)) _ h (λ _. refl))
      ]

  evaluate-returns :
      (p : Plan N) (units : List (String × ScoreUnit N)) (ids : List String) (s : Progress N)
      → all (λ id. measurable p (get_key id units)) ids ≡ true
      → is_ok (evaluate N S p units ids s) ≡ true
  unfolding evaluate can_measure
  evaluate-returns p units [] s h = refl
  evaluate-returns p units (id ∷ ids) s h = elim (Option-cases (get_key id units)) [
    | inl e ↦ rw (e, evaluate) (evaluate-returns p units ids s (ground arith))
    | inr (u, e) ↦
        let m : can_measure p u && all (λ k. measurable p (get_key k units)) ids ≡ true =
          subst (λ o. measurable p o && all (λ k. measurable p (get_key k units)) ids ≡ true) e h in
        rw (e, evaluate)
          (is_ok-both (paired_scores N S u p.repeats) _ _ (and_left _ _ m) (λ scores i.
            is_ok-bind (charge N S p id scores s) _ (charge-returns p id scores s i)
              (λ s1. evaluate-returns p units ids s1 (and_right _ _ m))))
  ]

  execute-Ensures_may :
      (p : Plan N) (units : List (String × ScoreUnit N))
      → Ensures (λ run. (may_execute p units ≡ true) × Runs N S p units run) (execute N S p units)
  unfolding execute may_execute
  execute-Ensures_may p units =
      let start : Progress N = record {
        used = 0;
        intervals = [];
        raw_by_unit = [];
        is_exhausted = false;
      } in
      let may = λ (_ : Executed N). may_execute p units ≡ true in
      Ensures-and may (Runs N S p units) (execute N S p units)
        (Ensures-raise_if may (not (all (λ e. contains e.0 p.eligible_family) units))
          invalid_assessment_spec _
          (λ named.
            Ensures-bind
              (λ _. all (λ id. scored p.repeats (get_key id units)) p.eligible_family ≡ true) may
              (evaluate N S p units p.eligible_family start) _
              (evaluate-scored p units p.eligible_family start) (λ s h. ground arith)))
        (execute-Ensures N S p units)

  execute_returns :
      (p : Plan N) (units : List (String × ScoreUnit N))
      → may_measure p units ≡ true
      → is_ok (execute N S p units) ≡ true
  unfolding execute may_measure
  execute_returns p units h =
      let named : all (λ e. contains e.0 p.eligible_family) units ≡ true = and_left _ _ h in
      rw named (
        is_ok-bind (evaluate N S p units p.eligible_family _) _
          (evaluate-returns p units p.eligible_family _ (and_right _ _ h)) (λ _. refl))

  -- The loop returns a run only when the evidence names eligible units only, each with as many
  -- finite reference and intervened scores as repeats, and it does return one when moreover the
  -- statistics find an interval for each of these units; too small a budget is no error. The
  -- evaluations that the run charges never pass the budget, and they are two for every repeat of
  -- every unit with an interval. A run whose termination is `completed` has evaluated every eligible
  -- unit that scores were supplied for.
  pub execute-Runs :
      (p : Plan N) (units : List (String × ScoreUnit N))
      → Ensures (λ run. (may_execute p units ≡ true) × Runs N S p units run) (execute N S p units)
        × ((not (may_measure p units) || is_ok (execute N S p units)) ≡ true)
  execute-Runs p units = (
    execute-Ensures_may p units,
    elim (Bool-cases (may_measure p units)) [
      | inl h ↦ rw h (execute_returns p units h)
      | inr h ↦ rw h refl
    ],
  )
