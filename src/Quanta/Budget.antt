-- ===== src/Quanta/Budget.antt =====
-- The evaluation loop of `QuantaService.execute_task` of src/qste/quanta/service.py: the checks of the
-- score evidence, `_paired_scores`, `_interval`, and the budget that the eligible units share.
-- Arithmetic on floats and the library's `fmean`, `stdev` and `inv_cdf` are the parameter `Statistics`;
-- the calls that can raise, on an overflow, a division by zero or an argument out of range, have a
-- result with an error.
use qste.Base.{
  ℕ, ◌+◌, ◌*◌, ltb, leb, ◌==◌, String, Bool, true, false, not, ◌&&◌, ◌||◌, Option, none, some, List,
  [], ◌∷◌, ◌++◌, map, str_eq, if◌then◌else◌, any, all, select, contains, length, Result, ok, err,
  ◌>>=◌, ◌>>◌, raise_if, invalid_assessment_spec,
}
use qste.Quanta.Intervals.{Floats, Interval}

pub record Statistics (N : Floats) : Type 0 where
  pub add : N.Float → N.Float → N.Float
  pub sub : N.Float → N.Float → N.Float
  pub mul : N.Float → N.Float → N.Float
  pub div : N.Float → N.Float → Result N.Float
  pub sqrt : N.Float → N.Float
  pub of_nat : ℕ → N.Float
  pub fmean : List N.Float → Result N.Float
  pub stdev : List N.Float → Result N.Float
  -- `NormalDist().inv_cdf`
  pub inv_cdf : N.Float → Result N.Float

pub data Uncertainty (N : Floats) : Type 0 where
  unavailable : Uncertainty N
  deterministic_tolerance : N.Float → Uncertainty N
  bonferroni_normal : N.Float → Uncertainty N

pub data Direction : Type 0 where
  plus_one : Direction
  minus_one : Direction

-- A score that is no number is `none`.
pub record ScoreUnit (N : Floats) : Type 0 where
  pub reference_scores : List (Option N.Float)
  pub intervened_scores : List (Option N.Float)

pub record RawUnit (N : Floats) : Type 0 where
  pub reference : List N.Float
  pub intervened : List N.Float
  pub raw_effects : List N.Float
  pub oriented_effects : List N.Float

-- What the loop reads of the TaskSpec.
pub record Plan (N : Floats) : Type 0 where
  pub eligible_family : List String
  pub repeats : ℕ
  pub direction : Direction
  pub uncertainty : Uncertainty N
  pub family_size : ℕ
  pub maximum_evaluations : ℕ

pub record Progress (N : Floats) : Type 0 where
  pub used : ℕ
  pub intervals : List (String × Interval N)
  pub raw_by_unit : List (String × RawUnit N)
  pub is_exhausted : Bool

pub record Executed (N : Floats) : Type 0 where
  pub progress : Progress N
  pub missing : List String
  pub termination : String

abbrev pub has_key {ℓ} : {A : Type ℓ} → String → List (String × A) → Bool
has_key k xs = any (λ e. str_eq k e.0) xs

abbrev pub get_key {ℓ} : {A : Type ℓ} → String → List (String × A) → Option A
get_key k [] = none
get_key k (e ∷ es) = if str_eq k e.0 then some e.1 else get_key k es

-- `mapping[key] = value`
abbrev pub put_key {ℓ} : {A : Type ℓ} → String → A → List (String × A) → List (String × A)
put_key k v [] = (k, v) ∷ []
put_key k v (e ∷ es) = if str_eq k e.0 then (e.0, v) ∷ es else e ∷ put_key k v es

module _ (N : Floats) (S : Statistics N) where
  -- `[_finite(value) for value in values]`
  abbrev pub finite_scores : List (Option N.Float) → Result (List N.Float)
  finite_scores [] = ok []
  finite_scores (none ∷ xs) = err invalid_assessment_spec
  finite_scores (some x ∷ xs) = do
    raise_if (not (N.is_finite x)) invalid_assessment_spec
    ys ← finite_scores xs
    ok (x ∷ ys)

  -- `_paired_scores`
  unfoldable pub paired_scores : ScoreUnit N → ℕ → Result (List N.Float × List N.Float)
  paired_scores u repeats = do
    raise_if
        (not (length u.reference_scores == repeats) || not (length u.intervened_scores == repeats))
        invalid_assessment_spec
    reference ← finite_scores u.reference_scores
    intervened ← finite_scores u.intervened_scores
    ok (reference, intervened)

  abbrev pub half_width : Plan N → List N.Float → Result (Option N.Float)
  half_width p effects = elim p.uncertainty [
    | unavailable ↦ ok none
    | deterministic_tolerance tolerance ↦ ok (some tolerance)
    | bonferroni_normal confidence ↦ do
      tail ← S.div (S.sub (S.of_nat 1) confidence) (S.mul (S.of_nat 2) (S.of_nat p.family_size))
      quantile ← S.inv_cdf (S.sub (S.of_nat 1) tail)
      deviation ← S.stdev effects
      h ← S.div (S.mul quantile deviation) (S.sqrt (S.of_nat (length effects)))
      ok (some h)
  ]

  abbrev pub around : N.Float → Option N.Float → Interval N
  around mean none = record { availability = "unavailable"; lower = none; upper = none }
  around mean (some h) = record {
    availability = "known";
    lower = some (S.sub mean h);
    upper = some (S.add mean h);
  }

  -- `_interval`
  unfoldable pub interval : Plan N → List N.Float → Result (Interval N)
  interval p effects = do mean ← S.fmean effects; h ← half_width p effects; ok (around mean h)

  -- `[left - right for left, right in zip(reference, intervened)]`
  abbrev pub differences : List N.Float → List N.Float → List N.Float
  differences (x ∷ xs) (y ∷ ys) = S.sub x y ∷ differences xs ys
  differences _ _ = []

  abbrev pub orient : Direction → N.Float → N.Float
  orient plus_one x = x
  orient minus_one x = N.neg x

  abbrev pub oriented : Plan N → List N.Float × List N.Float → List N.Float
  oriented p scores = map (orient p.direction) (differences scores.0 scores.1)

  -- A unit with its interval.
  abbrev pub record_unit :
      Plan N → String → List N.Float × List N.Float → Interval N → Progress N → Progress N
  record_unit p id scores found s = record s {
    used = s.used + length scores.0 * 2;
    intervals = s.intervals ++ (id, found) ∷ [];
    raw_by_unit =
        put_key id
          (record {
            reference = scores.0;
            intervened = scores.1;
            raw_effects = differences scores.0 scores.1;
            oriented_effects = oriented p scores;
          })
          s.raw_by_unit;
  }

  -- One unit with scores: it is charged to the budget, or skipped when the budget does not hold it.
  unfoldable pub charge :
      Plan N → String → List N.Float × List N.Float → Progress N → Result (Progress N)
  charge p id scores s =
      let cost = length scores.0 * 2 in
      if ltb p.maximum_evaluations (s.used + cost)
      then ok (record s { is_exhausted = true })
      else interval p (oriented p scores) >>= λ found. ok (record_unit p id scores found s)

  -- `for unit_id in eligible`
  unfoldable pub evaluate :
      Plan N → List (String × ScoreUnit N) → List String → Progress N → Result (Progress N)
  evaluate p units [] s = ok s
  evaluate p units (id ∷ ids) s = elim (get_key id units) [
    | none ↦ evaluate p units ids s
    | some u ↦ paired_scores u p.repeats >>= λ scores.
        charge p id scores s >>= λ charged. evaluate p units ids charged
  ]

  abbrev pub is_missing : Progress N → String → Bool
  is_missing s id = not (has_key id s.raw_by_unit)

  abbrev pub is_nonempty_list {ℓ} : {A : Type ℓ} → List A → Bool
  is_nonempty_list [] = false
  is_nonempty_list (_ ∷ _) = true

  -- The loop from an empty start, with the test that scores are of eligible units only.
  unfoldable pub execute : Plan N → List (String × ScoreUnit N) → Result (Executed N)
  execute p units = do
    raise_if (not (all (λ e. contains e.0 p.eligible_family) units)) invalid_assessment_spec
    s ←
        evaluate p units p.eligible_family
          (record { used = 0; intervals = []; raw_by_unit = []; is_exhausted = false })
    let missing = select (is_missing s) p.eligible_family
    ok (record {
      progress = s;
      missing = missing;
      termination =
          if s.is_exhausted || leb p.maximum_evaluations s.used && is_nonempty_list missing
          then "budget_exhausted"
          else "completed";
    })
