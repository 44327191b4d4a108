-- ===== src/Representations/Intervention.antt =====
-- `_apply_intervention` of src/qste/representations/stft.py. The arithmetic of complex numbers is the
-- parameter `Complexes`, on which no law is assumed.
use qste.Base.{
  ℕ, List, [], ◌∷◌, ◌+◌, ◌-◌, ltb, leb, if◌then◌else◌, Result, ok, err, internal_error,
  capability_unavailable, map, ◌>>=◌, ◌++◌,
}
use qste.Representations.Cells.{Cell, Shape, cell_eq, sorted_cells}

pub record Complexes : Type 1 where
  pub Complex : Type 0
  pub Real : Type 0
  pub zero_coefficient : Complex
  -- `x * 0.5`
  pub halved : Complex → Complex
  -- `abs(x)`
  pub magnitude : Complex → Real
  -- `float(np.mean(values))`, of one value or more
  pub mean : List Real → Real
  -- `float(np.angle(x))`
  pub angle : Complex → Real
  -- `0.0`
  pub zero_magnitude : Real
  -- `magnitude * np.exp(1j * phase)`
  pub polar : Real → Real → Complex

pub data Control : Type 0 where
  authentic : Control
  resynthesis_only : Control
  off_target : Control
  alternate : Control

pub data Mode : Type 0 where
  mask : Mode
  isolate : Mode
  phase_coherent_replace : Mode
  other : Mode

-- `max(frames)` and `min(frames)` of a list that is not empty.
unfoldable pub max_frame : Cell → List Cell → ℕ
max_frame c [] = c.frame
max_frame c (d ∷ ds) = let m = max_frame d ds in if ltb m c.frame then c.frame else m

unfoldable pub min_frame : Cell → List Cell → ℕ
min_frame c [] = c.frame
min_frame c (d ∷ ds) = let m = min_frame d ds in if ltb c.frame m then c.frame else m

-- `signed_offset`
pub data Shift : Type 0 where
  later : ℕ → Shift
  earlier : ℕ → Shift
  nowhere : Shift

unfoldable pub signed_offset : ℕ → ℕ → ℕ → Shift
signed_offset high low frames =
    let offset = (high - low) + 1 in
    if ltb (high + offset) frames
    then later offset
    else if leb offset low
    then earlier offset
    else nowhere

unfoldable pub shifted : Shift → List Cell → List Cell
shifted (later o) cells = map (λ (c : Cell). record c { frame = c.frame + o }) cells
shifted (earlier o) cells = map (λ (c : Cell). record c { frame = c.frame - o }) cells
shifted nowhere cells = []

-- The cells that a control applies to; `max` of no frames raises a `ValueError`.
unfoldable pub applied_cells : Control → Shape → List Cell → Result (List Cell)
applied_cells off_target shape [] = err internal_error
applied_cells off_target shape (c ∷ cs) =
    ok (
      sorted_cells
        (shifted (signed_offset (max_frame c cs) (min_frame c cs) shape.frames) (c ∷ cs)))
applied_cells _ shape cells = ok cells

module _ (N : Complexes) where
  open N use {Complex, Real}

  -- The coefficients of an array, by cell.
  abbrev pub Values : Type 0
  Values = Cell → Complex

  -- `values[cell] = v`
  abbrev pub assign : Values → Cell → Complex → Values
  assign values c v x = if cell_eq x c then v else values x

  -- `for cell in cells: modified[cell] = value(cell)`
  unfoldable pub assign_all : (Cell → Complex) → List Cell → Values → Values
  assign_all value [] values = values
  assign_all value (c ∷ cs) values = assign_all value cs (assign values c (value c))

  -- `for cell in cells: modified[cell] *= 0.5`
  unfoldable pub halve_all : List Cell → Values → Values
  halve_all [] values = values
  halve_all (c ∷ cs) values = halve_all cs (assign values c (N.halved (values c)))

  abbrev pub neighbor_before : Values → Cell → List Real
  neighbor_before values c =
      if ltb 0 c.frame then N.magnitude (values (record c { frame = c.frame - 1 })) ∷ [] else []

  abbrev pub neighbor_after : ℕ → Values → Cell → List Real
  neighbor_after frames values c =
      if ltb (c.frame + 1) frames
      then N.magnitude (values (record c { frame = c.frame + 1 })) ∷ []
      else []

  abbrev pub mean_magnitude : List Real → Real
  mean_magnitude [] = N.zero_magnitude
  mean_magnitude (x ∷ xs) = N.mean (x ∷ xs)

  unfoldable pub replaced : ℕ → Values → Cell → Complex
  replaced frames values c =
      N.polar (mean_magnitude (neighbor_before values c ++ neighbor_after frames values c))
        (N.angle (values c))

  unfoldable pub modified_by : Mode → Shape → Values → List Cell → Result Values
  modified_by mask shape values cells = ok (assign_all (λ _. N.zero_coefficient) cells values)
  modified_by isolate shape values cells = ok (assign_all values cells (λ _. N.zero_coefficient))
  modified_by phase_coherent_replace shape values cells =
      ok (assign_all (replaced shape.frames values) cells values)
  modified_by other shape values cells = err capability_unavailable

  -- What follows the choice of the cells.
  unfoldable pub intervened : Control → Mode → Shape → Values → List Cell → Result Values
  intervened resynthesis_only mode shape values cells = ok values
  intervened alternate mode shape values cells = ok (halve_all cells values)
  intervened authentic mode shape values cells = modified_by mode shape values cells
  intervened off_target mode shape values cells = modified_by mode shape values cells

  -- `_apply_intervention`
  unfoldable pub apply_intervention :
      Control → Mode → Shape → Values → List Cell → Result (Values × List Cell)
  apply_intervention resynthesis_only mode shape values cells = ok (values, [])
  apply_intervention control mode shape values candidate_cells = do
    cells ← applied_cells control shape candidate_cells
    modified ← intervened control mode shape values cells
    ok (modified, cells)
