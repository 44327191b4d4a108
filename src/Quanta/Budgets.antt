-- ===== src/Quanta/Budgets.antt =====
-- The evaluation budget of `execute_task` (src/qste/quanta/service.py): how much a run charges, and
-- which units it leaves out.
use qste.Base.{
  ◌+◌, ◌*◌, ◌≤◌, ltb, String, ◌≡◌, ◌⊎◌, inl, inr, refl, Bool, true, false, ◌||◌, none, List, [],
  ◌∷◌, str_eq, eq_refl, if◌then◌else◌, All, length, raise_if, Ensures, Ensures-bind, Ensures-then,
  Ensures-weaken, Ensures-and, Bool-cases, Option-cases, arith, select, invalid_assessment_spec,
}
use qste.Quanta.Intervals.{Floats}
use qste.Quanta.Budget.{
  Statistics, ScoreUnit, Plan, Progress, Executed, has_key, get_key, put_key, paired_scores,
  interval, oriented, charge, evaluate, is_missing, execute,
}
use qste.Quanta.Charges.{IsCharged, evaluate-IsCharged}

has_key-put_key {ℓ} :
    {A : Type ℓ} (k : String) (v : A) (xs : List (String × A)) → has_key k (put_key k v xs) ≡ true
has_key-put_key k v [] = rw (eq_refl k) refl
has_key-put_key k v (e ∷ es) = let h = has_key-put_key k v es in ground arith

has_key-put_key_other {ℓ} :
    {A : Type ℓ} (j k : String) (v : A) (xs : List (String × A))
    → has_key j xs ≡ true
    → has_key j (put_key k v xs) ≡ true
has_key-put_key_other j k v [] h = cc
has_key-put_key_other j k v (e ∷ es) h = let i = has_key-put_key_other j k v es in ground arith

module _ (N : Floats) (S : Statistics N) where
  -- What a later step of the loop keeps: the units with raw evidence, and an exhausted budget.
  Keeps : Progress N → Progress N → Type 0
  Keeps s s2 =
      (s.is_exhausted ≡ true → s2.is_exhausted ≡ true)
      × ((id : String) → has_key id s.raw_by_unit ≡ true → has_key id s2.raw_by_unit ≡ true)

  -- The step that a unit's charge is.
  KeepsUnit : String → Progress N → Progress N → Type 0
  KeepsUnit id s s1 = Keeps s s1 × (s1.is_exhausted ≡ false → has_key id s1.raw_by_unit ≡ true)

  charge-Keeps :
      (p : Plan N) (id : String) (scores : List N.Float × List N.Float) (s : Progress N)
      → Ensures (KeepsUnit id s) (charge N S p id scores s)
  unfolding charge Keeps KeepsUnit
  charge-Keeps p id scores s =
      elim (Bool-cases (ltb p.maximum_evaluations (s.used + length scores.0 * 2))) [
        | inl o ↦ rw o (((λ _. refl), (λ j h. h)), (λ h. cc))
        | inr o ↦ rw o (
            Ensures-then (KeepsUnit id s) (interval N S p (oriented N S p scores)) _ (λ found. (
              ((λ h. h), (λ j h. has_key-put_key_other j id _ s.raw_by_unit h)),
              (λ _. has_key-put_key id _ s.raw_by_unit),
            )))
      ]

  step_before : (s s1 : Progress N) (id : String) → KeepsUnit id s s1 → Keeps s s1
  unfolding KeepsUnit
  step_before s s1 id k = k.0

  step_unit :
      (s s1 : Progress N) (id : String)
      → KeepsUnit id s s1
      → s1.is_exhausted ≡ false
      → has_key id s1.raw_by_unit ≡ true
  unfolding KeepsUnit
  step_unit s s1 id k = k.1

  Keeps-trans : (a b c : Progress N) → Keeps a b → Keeps b c → Keeps a c
  unfolding Keeps
  Keeps-trans a b c h k = ((λ x. k.0 (h.0 x)), (λ id x. k.1 id (h.1 id x)))

  evaluated :
      (s1 s2 : Progress N) (id : String)
      → Keeps s1 s2
      → (s1.is_exhausted ≡ false → has_key id s1.raw_by_unit ≡ true)
      → s2.is_exhausted ≡ false
      → has_key id s2.raw_by_unit ≡ true
  unfolding Keeps
  evaluated s1 s2 id k h x = elim (Bool-cases s1.is_exhausted) [
    | inl e ↦ let y = k.0 e in cc
    | inr e ↦ k.1 id (h e)
  ]

  -- Every unit of `ids` that has scores was evaluated, unless the budget ran out.
  Covers : List (String × ScoreUnit N) → List String → Progress N → Type 0
  Covers units ids s =
      s.is_exhausted ≡ false
      → All (λ id. (get_key id units ≡ none) ⊎ (has_key id s.raw_by_unit ≡ true)) ids

  Covers-without :
      (units : List (String × ScoreUnit N)) (id : String) (ids : List String) (s : Progress N)
      → get_key id units ≡ none
      → Covers units ids s
      → Covers units (id ∷ ids) s
  unfolding Covers
  Covers-without units id ids s e h = λ x. (inl e, h x)

  Covers-with :
      (units : List (String × ScoreUnit N)) (id : String) (ids : List String) (s : Progress N)
      → (s.is_exhausted ≡ false → has_key id s.raw_by_unit ≡ true)
      → Covers units ids s
      → Covers units (id ∷ ids) s
  unfolding Covers
  Covers-with units id ids s e h = λ x. (inr (e x), h x)

  stays : (units : List (String × ScoreUnit N)) (s : Progress N) → Keeps s s × Covers units [] s
  unfolding Covers Keeps
  stays units s = (((λ h. h), (λ id h. h)), (λ h. tt))

  evaluate-Covers :
      (p : Plan N) (units : List (String × ScoreUnit N)) (ids : List String) (s : Progress N)
      → Ensures (λ s2. Keeps s s2 × Covers units ids s2) (evaluate N S p units ids s)
  unfolding evaluate
  evaluate-Covers p units [] s = stays units s
  evaluate-Covers p units (id ∷ ids) s =
      let Result1 = λ (s2 : Progress N). Keeps s s2 × Covers units (id ∷ ids) s2 in
      elim (Option-cases (get_key id units)) [
        | inl e ↦
            rw (e, evaluate)
              (Ensures-weaken (λ s2. Keeps s s2 × Covers units ids s2) Result1
                (evaluate N S p units ids s) (evaluate-Covers p units ids s)
                (λ s2 h. (h.0, Covers-without units id ids s2 e h.1)))
        | inr (u, e) ↦
            rw (e, evaluate)
              (Ensures-then Result1 (paired_scores N S u p.repeats) _ (λ scores.
                Ensures-bind (KeepsUnit id s) Result1 (charge N S p id scores s) _
                  (charge-Keeps p id scores s)
                  (λ s1 k.
                    Ensures-weaken (λ s2. Keeps s1 s2 × Covers units ids s2) Result1
                      (evaluate N S p units ids s1) (evaluate-Covers p units ids s1)
                      (λ s2 h. (
                        Keeps-trans s s1 s2 (step_before s s1 id k) h.0,
                        Covers-with units id ids s2 (evaluated s1 s2 id h.0 (step_unit s s1 id k))
                            h.1,
                      )))))
      ]

  -- What a run says of its evaluations: their number, and the units with scores that it left out.
  unfoldable pub Runs : Plan N → List (String × ScoreUnit N) → Executed N → Type 0
  Runs p units run =
      (run.progress.used ≤ p.maximum_evaluations)
      × (run.progress.used ≡ length run.progress.intervals * (p.repeats * 2))
      × ((str_eq run.termination "completed" ≡ false)
          ⊎ All (λ id. (get_key id units ≡ none) ⊎ (has_key id run.progress.raw_by_unit ≡ true))
              p.eligible_family)

  finished :
      (p : Plan N) (units : List (String × ScoreUnit N)) (s : Progress N) (missing : List String)
      (over : Bool)
      → IsCharged N S p s
      → Covers units p.eligible_family s
      → Runs p units (record {
        progress = s;
        missing = missing;
        termination = if s.is_exhausted || over then "budget_exhausted" else "completed";
      })
  unfolding Runs IsCharged Covers
  finished p units s missing over h k = elim (Bool-cases s.is_exhausted) [
    | inl e ↦ (h.0, h.1, inl (rw e refl))
    | inr e ↦ (h.0, h.1, inr (k e))
  ]

  pub execute-Ensures :
      (p : Plan N) (units : List (String × ScoreUnit N))
      → Ensures (Runs p units) (execute N S p units)
  unfolding execute IsCharged
  execute-Ensures p units =
      let start : Progress N = record {
        used = 0;
        intervals = [];
        raw_by_unit = [];
        is_exhausted = false;
      } in
      let Loops = λ (s : Progress N). IsCharged N S p s × Covers units p.eligible_family s in
      Ensures-then (Runs p units) (raise_if _ invalid_assessment_spec) _ (λ _.
        Ensures-bind Loops (Runs p units) (evaluate N S p units p.eligible_family start) _
          (Ensures-and (IsCharged N S p) (Covers units p.eligible_family) _
            (evaluate-IsCharged N S p units p.eligible_family start (omega arith, omega arith))
            (Ensures-weaken (λ s. Keeps start s × Covers units p.eligible_family s)
              (Covers units p.eligible_family) _ (evaluate-Covers p units p.eligible_family start)
              (λ s h. h.1)))
          (λ s h. finished p units s (select (is_missing N S s) p.eligible_family) _ h.0 h.1))
