-- ===== src/Relations/Arms.antt =====
-- The comparison of two arms in src/qste/relations/service.py: `compare` up to its assertions, with
-- `_candidate_set`, `_validate_candidate_arms`, the loop of `_pair_evidence` over the pairs, and
-- `_resolve_relations` with the matcher `_exact_match` and with `_components`. The answers of `_record`
-- and of `_unit_evidence` are arguments, as are the coverages and effects of the pairs.
use qste.Base.{
  String, Option, Bool, List, ℕ, true, [], false, Result, raise_if, some, map, ok, ◌∷◌, select,
  none, if◌then◌else◌, not, ◌>>=◌, contains, ◌||◌, ◌++◌, str_eq, ◌&&◌, ltb, ◌>>◌, length,
  invalid_comparison_spec, policy_refused, internal_error, any,
}
use qste.Quanta.Intervals.{Floats}
use qste.Relations.Pairs.{PairState, Thresholds, Controls, Measured, incomplete, pair_state}
use qste.Relations.Eligibility.{is_eligible}
use qste.Relations.Matching.{Eligible, Arithmetic, Contract, exact_match}
use qste.Relations.Decomposition.{Part}
use qste.Relations.Assertions.{Comparison, resolve_relations}
use qste.Relations.Components.{components}
use qste.Relations.Resolution.{Assertion}

module _ (N : Floats) where
  -- The candidates of the two sides, the projection status of a unit, and the controls, measures and
  -- cost of a pair. `arm_of` is the representation instance of the CandidateUnit with an ID and
  -- `projection_arms` the source arms of the two projections, or the error of `_record`;
  -- `unit_evidence` is how `_unit_evidence` ends; `fits` says that no call of `_coverage` raises on the
  -- pair, whose vectors it zips strictly.
  pub record Arms : Type 0 where
    pub authorization_status : String
    pub arm_of : String → Result String
    pub projection_arms : Result (String × String)
    pub unit_evidence : Result (Unit {0})
    pub has_pairs : Bool
    pub fits : String → String → Bool
    pub source_ids : List String
    pub target_ids : List String
    pub status_of : String → String
    pub controls_of : String → String → Option Controls
    pub measured_of : String → String → Measured N
    pub cost_of : String → String → N.Float

-- The members of `PairEvidence` that the resolution reads, but for the cost.
pub record PairEvidence : Type 0 where
  pub source_id : String
  pub target_id : String
  pub state : PairState

abbrev pub max_units_per_side : ℕ
max_units_per_side = 16

unfoldable pub is_distinct : List String → Bool
is_distinct [] = true
is_distinct (id ∷ ids) = not (contains id ids) && is_distinct ids

abbrev pub is_nonempty_ids : List String → Bool
is_nonempty_ids [] = false
is_nonempty_ids (id ∷ ids) = true

-- The first test of `_candidate_set`.
unfoldable pub check_candidates : List String → Result (Unit {0})
check_candidates ids =
    raise_if
      (not (is_nonempty_ids ids) || ltb max_units_per_side (length ids) || not (is_distinct ids))
      invalid_comparison_spec

-- `pairs[(s, t)]`; a pair of the two sides is always there.
unfoldable pub state_in : String → String → List PairEvidence → PairState
state_in s t [] = incomplete
state_in s t (p ∷ ps) =
    if str_eq s p.source_id && str_eq t p.target_id then p.state else state_in s t ps

abbrev pub is_eligible_pair : PairEvidence → Bool
is_eligible_pair p = is_eligible p.state

-- `_components` of edges, whose search comes to an end.
abbrev pub component_list :
    Option (List (List String × List String)) → List (List String × List String)
component_list none = []
component_list (some ks) = ks

abbrev pub is_declared : List (List Part) → Bool
is_declared [] = false
is_declared (d ∷ ds) = true

module _ (N : Floats) where
  -- The members that the matcher reads, with the decompositions of the comparison.
  abbrev pub declared : Contract N → List (List Part) → Contract N
  declared contract decompositions = record contract {
    has_decompositions = is_declared decompositions;
  }

  -- `_authorize`
  abbrev pub authorize : String → Result (Unit {0})
  authorize status = raise_if (not (str_eq status "permitted")) policy_refused

  abbrev pub arms_of : Arms N → List String → Result (List String)
  arms_of g [] = ok []
  arms_of g (id ∷ ids) = do arm ← g.arm_of id; rest ← arms_of g ids; ok (arm ∷ rest)

  -- `_candidate_set`, with the arms of the candidates.
  unfoldable pub candidate_set : Arms N → List String → Result (List String)
  candidate_set g ids = do check_candidates ids; arms_of g ids

  -- One of the two tests of `_validate_candidate_arms`.
  abbrev pub check_arm : String → List String → Result (Unit {0})
  check_arm arm arms = raise_if (any (λ a. not (str_eq a arm)) arms) invalid_comparison_spec

  -- What `compare` does before it reads the pairs.
  unfoldable pub check_arms : Arms N → Result (Unit {0})
  check_arms g = do
    authorize g.authorization_status
    sources ← candidate_set g g.source_ids
    targets ← candidate_set g g.target_ids
    projected ← g.projection_arms
    check_arm projected.0 sources
    check_arm projected.1 targets
    g.unit_evidence
    raise_if (not g.has_pairs) invalid_comparison_spec

  -- The coverages of a pair whose projections are valid can be computed.
  abbrev pub can_cover : Arms N → String → String → Bool
  can_cover g s t =
      not (str_eq (g.status_of s) "valid" && str_eq (g.status_of t) "valid") || g.fits s t

  unfoldable pub pair_row :
      Arms N → Thresholds N → String → List String → Result (List PairEvidence)
  pair_row g c s [] = ok []
  pair_row g c s (t ∷ ts) = do
    state ← pair_state N c (g.controls_of s t) (g.status_of s) (g.status_of t) (g.measured_of s t)
    raise_if (not (can_cover g s t)) internal_error
    rest ← pair_row g c s ts
    ok (record { source_id = s; target_id = t; state = state } ∷ rest)

  unfoldable pub pair_rows :
      Arms N → Thresholds N → List String → List String → Result (List PairEvidence)
  pair_rows g c [] ts = ok []
  pair_rows g c (s ∷ ss) ts = do
    row ← pair_row g c s ts
    rest ← pair_rows g c ss ts
    ok (row ++ rest)

  -- `_pair_evidence`
  unfoldable pub pair_evidence : Arms N → Thresholds N → Result (List PairEvidence)
  pair_evidence g c = pair_rows g c g.source_ids g.target_ids

  -- `{key: value for key, value in pairs.items() if value.state == "eligible"}`
  abbrev pub offered : Arms N → List PairEvidence → Eligible N
  offered g pairs = record {
    source_ids = g.source_ids;
    target_ids = g.target_ids;
    pairs = map (λ p. (p.source_id, p.target_id)) (select is_eligible_pair pairs);
    cost = λ e. g.cost_of e.0 e.1;
  }

  -- What `_resolve_relations` reads, with the matcher and the components of the source.
  abbrev pub comparison_of :
      Arithmetic N → Contract N → List (List Part) → Arms N → List PairEvidence → Comparison
  comparison_of A contract decompositions g pairs = record {
    projections = map g.status_of (g.source_ids ++ g.target_ids);
    states = map (λ p. p.state) pairs;
    source_ids = g.source_ids;
    target_ids = g.target_ids;
    state_of = λ s t. state_in s t pairs;
    decompositions = decompositions;
    matching = exact_match N A (declared contract decompositions) (offered g pairs);
    components = λ es. component_list (components es);
  }

  -- `compare`, up to the assertions that it writes.
  unfoldable pub compare :
      Arithmetic N → Contract N → Thresholds N → List (List Part) → Arms N → Result (List Assertion)
  compare A contract c decompositions g = do
    check_arms g
    pairs ← pair_evidence g c
    resolve_relations (comparison_of A contract decompositions g pairs)
