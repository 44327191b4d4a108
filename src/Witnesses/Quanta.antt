-- ===== src/Witnesses/Quanta.antt =====
-- Whole numbers for floats, an assessment that qualifies, and a run of two units within its budget.
use qste.Base.{
  ℕ, zero, suc, leb, ltb, String, ◌≡◌, ◌↔◌, refl, Bool, true, false, ◌||◌, some, List, [], ◌∷◌, all,
  any, arith, Answers, Ensures, Result, ok, err, internal_error, is_ok,
}
use qste.Quanta.Intervals.{Floats, IsOrdered, Interval}
use qste.Quanta.Assess.{
  qualified, rejected, Candidate, Task, Run, Graph, is_ready, is_meaningful, is_equivalent,
  is_nonmeaningful, is_nonequivalent,
}
use qste.Quanta.Verdict.{verdict, assess}
use qste.Quanta.Decisions.{verdict_lem}
use qste.Quanta.Conformance.{Conforms, may_assess, assess-Conforms}
use qste.Quanta.Budget.{
  Statistics, deterministic_tolerance, plus_one, ScoreUnit, Plan, execute, paired_scores, interval,
}
use qste.Quanta.Budgets.{Runs}
use qste.Quanta.Executions.{may_execute, execute-Runs, may_measure, can_measure}

-- A whole number, or the negative of a positive one.
pub data Whole : Type 0 where
  pos : ℕ → Whole
  negsuc : ℕ → Whole

abbrev at_most : Whole → Whole → Bool
at_most (pos m) (pos n) = leb m n
at_most (pos m) (negsuc n) = false
at_most (negsuc m) (pos n) = true
at_most (negsuc m) (negsuc n) = leb n m

abbrev below : Whole → Whole → Bool
below (pos m) (pos n) = ltb m n
below (pos m) (negsuc n) = false
below (negsuc m) (pos n) = true
below (negsuc m) (negsuc n) = ltb n m

abbrev negative : Whole → Whole
negative (pos zero) = pos zero
negative (pos (suc n)) = negsuc n
negative (negsuc n) = pos (suc n)

abbrev pub floats : Floats
floats = record { Float = Whole; leb = at_most; ltb = below; neg = negative; is_finite = λ _. true }

at_most_trans : (a b c : Whole) → at_most a b ≡ true → at_most b c ≡ true → at_most a c ≡ true
at_most_trans (pos a) (pos b) (pos c) h k = ground arith
at_most_trans (pos a) (pos b) (negsuc c) h k = cc
at_most_trans (pos a) (negsuc b) c h k = cc
at_most_trans (negsuc a) b (pos c) h k = refl
at_most_trans (negsuc a) (pos b) (negsuc c) h k = cc
at_most_trans (negsuc a) (negsuc b) (negsuc c) h k = ground arith

at_most-not_below : (a b : Whole) → at_most a b ≡ true → below b a ≡ false
at_most-not_below (pos a) (pos b) h = ground arith
at_most-not_below (pos a) (negsuc b) h = cc
at_most-not_below (negsuc a) (pos b) h = refl
at_most-not_below (negsuc a) (negsuc b) h = ground arith

ordered : IsOrdered floats
ordered = record { leb_trans = at_most_trans; leb-not_ltb = at_most-not_below }

abbrev candidate : Candidate
candidate = record { record_id = "c"; is_terminal = false }

abbrev task : Task floats
task = record {
  record_id = "t";
  profile = "qste-paired-score-task/v0.1";
  candidate_id = "c";
  eligible_family = "c" ∷ "n" ∷ [];
  meaningful_bound = pos 5;
  epsilon_minus = pos 2;
  epsilon_plus = pos 2;
  selection_disjoint = true;
}

abbrev known : ℕ → ℕ → Interval floats
known l u = record { availability = "known"; lower = some (pos l); upper = some (pos u) }

abbrev run : Run floats
run = record {
  profile = "qste-paired-score-run/v0.1";
  task_id = "t";
  adjusted_intervals = ("c", known 6 8) ∷ ("n", known 0 1) ∷ [];
  raw_units = "c" ∷ "n" ∷ [];
  family_complete = true;
  family_adjusted = true;
  controls_passed = true;
  calibration_available = true;
  dependency_validity = "valid";
  termination = "completed";
}

abbrev graph : Graph
graph = record {
  root_id = "c";
  required_closure = some "n" ∷ [];
  is_closed = true;
  is_complete = true;
}

assess-Conforms_example :
    Answers
      (Conforms floats)
      (may_assess floats "permitted" candidate task run (some graph))
      (assess floats "permitted" candidate task run (some graph))
assess-Conforms_example =
    assess-Conforms floats ordered "permitted" candidate task run (some graph) refl

verdict_lem_example :
    (((verdict floats candidate task run graph ("n" ∷ [])).0 ≡ qualified) ↔ (
      (is_ready floats candidate task run graph ("n" ∷ []) ≡ true)
      × (is_meaningful floats task run "c" ≡ true)
      × (all (is_equivalent floats task run) ("n" ∷ []) ≡ true)))
    × (((verdict floats candidate task run graph ("n" ∷ [])).0 ≡ rejected) ↔ (
        is_nonmeaningful floats task run "c" || any (is_nonequivalent floats task run) ("n" ∷ [])
        ≡ true))
verdict_lem_example = verdict_lem floats ordered candidate task run graph ("n" ∷ [])

-- Statistics whose operations return their first argument: the loop only passes their results on.
abbrev first : List Whole → Result Whole
first [] = err internal_error
first (x ∷ _) = ok x

abbrev statistics : Statistics floats
statistics = record {
  add = λ x y. x;
  sub = λ x y. x;
  mul = λ x y. x;
  div = λ x y. ok x;
  sqrt = λ x. x;
  of_nat = pos;
  fmean = first;
  stdev = first;
  inv_cdf = λ x. ok x;
}

abbrev plan : Plan floats
plan = record {
  eligible_family = "c" ∷ "n" ∷ [];
  repeats = 2;
  direction = plus_one;
  uncertainty = deterministic_tolerance (pos 1);
  family_size = 2;
  maximum_evaluations = 5;
}

abbrev scores : ScoreUnit floats
scores = record {
  reference_scores = some (pos 7) ∷ some (pos 8) ∷ [];
  intervened_scores = some (pos 1) ∷ some (pos 2) ∷ [];
}

abbrev units : List (String × ScoreUnit floats)
units = ("c", scores) ∷ ("n", scores) ∷ []

execute-Runs_example :
    Ensures
      (λ run.
        (may_execute floats statistics plan units ≡ true) × Runs floats statistics plan units run)
      (execute floats statistics plan units)
    × (is_ok (execute floats statistics plan units) ≡ true)
unfolding may_measure can_measure paired_scores interval
execute-Runs_example = execute-Runs floats statistics plan units
