-- ===== src/Relations/Pairs.antt =====
-- The state of a pair of candidates: the classification of `_pair_evidence` of
-- src/qste/relations/service.py, from the pair's control tokens, the two projections and the
-- intervals of coverage and effect.
use qste.Base.{
  String, Bool, true, false, not, ◌&&◌, ◌||◌, Option, none, some, List, [], ◌∷◌, str_eq,
  if◌then◌else◌, contains, any, Result, ok, ◌>>=◌, ◌>>◌, raise_if, invalid_comparison_spec,
}
use qste.Quanta.Intervals.{Floats}

pub data PairState : Type 0 where
  pending : PairState
  omission : PairState
  loss : PairState
  incomplete : PairState
  projection_invalid : PairState
  capability_unavailable : PairState
  zero_footprint : PairState
  eligible : PairState
  effect_failed : PairState
  effect_boundary : PairState
  coverage_failed : PairState
  coverage_boundary : PairState

pub record Controls : Type 0 where
  pub target_address : String
  pub fidelity : String
  pub consequentiality : String
  pub artifact_controls : String

abbrev address_tokens : List String
address_tokens = "exists" ∷ "absent" ∷ "incomplete" ∷ []

abbrev check_tokens : List String
check_tokens = "passed" ∷ "failed" ∷ "incomplete" ∷ []

-- The state that the control tokens give; a pair without controls is incomplete.
unfoldable pub control_state : Option Controls → Result PairState
control_state none = ok incomplete
control_state (some c) = do
  let checks = c.fidelity ∷ c.consequentiality ∷ c.artifact_controls ∷ []
  raise_if
      (not (contains c.target_address address_tokens)
        || any (λ t. not (contains t check_tokens)) checks)
      invalid_comparison_spec
  ok (
      if str_eq c.target_address "absent"
      then omission
      else if any (λ t. str_eq t "failed") checks
      then loss
      else if any (λ t. str_eq t "incomplete") (c.target_address ∷ checks)
      then incomplete
      else pending)

-- The state of a pair one of whose projections is not valid.
unfoldable pub projection_state : String → String → PairState
projection_state source target =
    if str_eq "invalid" source || str_eq "invalid" target
    then projection_invalid
    else if str_eq "capability_unavailable" source || str_eq "capability_unavailable" target
    then capability_unavailable
    else incomplete

abbrev pub is_pending : PairState → Bool
is_pending pending = true
is_pending _ = false

module _ (N : Floats) where
  pub record Measured : Type 0 where
    pub source_mass_zero : Bool
    pub target_mass_zero : Bool
    pub source_coverage : N.Float × N.Float
    pub target_coverage : N.Float × N.Float
    pub effect : N.Float × N.Float

  -- `coverage_threshold` and `effect_tolerance`.
  pub record Thresholds : Type 0 where
    pub threshold : N.Float
    pub tolerance : N.Float

  abbrev pub covers : Thresholds → N.Float × N.Float → Bool
  covers c i = N.leb c.threshold i.0

  abbrev pub misses : Thresholds → N.Float × N.Float → Bool
  misses c i = N.ltb i.1 c.threshold

  unfoldable pub measured_state : Thresholds → Measured → PairState
  measured_state c m =
      if m.source_mass_zero || m.target_mass_zero
      then zero_footprint
      else if covers c m.source_coverage && covers c m.target_coverage
      then if N.leb (N.neg c.tolerance) m.effect.0 && N.leb m.effect.1 c.tolerance
        then eligible
        else if N.ltb m.effect.1 (N.neg c.tolerance) || N.ltb c.tolerance m.effect.0
        then effect_failed
        else effect_boundary
      else if misses c m.source_coverage || misses c m.target_coverage
      then coverage_failed
      else coverage_boundary

  -- The state of one pair.
  unfoldable pub pair_state :
      Thresholds → Option Controls → String → String → Measured → Result PairState
  pair_state c controls source target m = do
    s ← control_state controls
    ok (
        if not (str_eq source "valid") || not (str_eq target "valid")
        then projection_state source target
        else if is_pending s
        then measured_state c m
        else s)
