-- ===== src/Witnesses/Representations.antt =====
-- The interventions and the refinement of a candidate of two cells.
use Prim.Native.Nat.{◌/◌}
use qste.Base.{
  ℕ, String, List, [], ◌∷◌, refl, Answers, ◌+◌, Ensures, ◌≡◌, ok, length, leb, arith, ◌&&◌,
}
use qste.Representations.Masks.{Listed}
use qste.Representations.Cells.{Cell, Shape, validate_cells, sorted_cells, insert_cell}
use qste.Representations.Intervention.{Complexes, apply_intervention, off_target, isolate}
use qste.Representations.Effects.{Intervened, is_supported, apply_intervention_lem}
use qste.Representations.Refinement.{Mask, refine, mask_eq}
use qste.Representations.Closure.{IsComplete}
use qste.Representations.Completeness.{may_refine, refine_lem}
use qste.Core.Json.{Fields, Json, arr, field, text, item, nil, int, end, get_field}
use qste.Representations.Candidates.{
  candidate_masks, selected_masks, explicit_masks, read_cells, read_cell, has_duplicates,
}
use qste.Representations.Selection.{IsSelection, candidate_masks-IsSelection}
use qste.Representations.Enumeration.{total, all_cells_lem}

abbrev numbers : Complexes
numbers = record {
  Complex = ℕ;
  Real = ℕ;
  zero_coefficient = 0;
  halved = λ x. x / 2;
  magnitude = λ x. x;
  mean = λ xs. 1;
  angle = λ x. x;
  zero_magnitude = 0;
  polar = λ r a. r;
}

abbrev shape : Shape
shape = record { channels = 1; frequencies = 2; frames = 8 }

abbrev cell : ℕ → Cell
cell n = record { channel = 0; frequency = 1; frame = n }

abbrev cells : List Cell
cells = cell 1 ∷ cell 2 ∷ []

abbrev values : Cell → ℕ
values c = c.frame + 10

apply_intervention_lem_example :
    Answers
      (Intervened numbers off_target isolate shape values cells)
      (is_supported off_target isolate)
      (apply_intervention numbers off_target isolate shape values cells)
unfolding validate_cells
apply_intervention_lem_example =
    apply_intervention_lem numbers shape values off_target isolate cells refl

abbrev name : Mask → String
name [] = "none"
name (c ∷ []) = "one"
name (c ∷ d ∷ ds) = "more"

refine_lem_example :
    Answers
      (IsComplete "root" name cells)
      (may_refine cells 4 9)
      (refine shape "root" name cells 4 9)
unfolding validate_cells
refine_lem_example = refine_lem shape "root" name cells 4 9 ((refl, tt), (tt, tt)) refl

abbrev at_cell : ℕ → Json ℕ
at_cell n = arr (item (int 0) (item (int 1) (item (int n) nil)))

abbrev explicit_rule : Fields ℕ
explicit_rule = field "rule_id" (text "explicit_masks/0.1") (
    field "masks"
      (arr (
        item (arr (item (at_cell 2) (item (at_cell 1) nil)))
          (item (arr (item (at_cell 3) nil)) nil)))
      end)

selected : candidate_masks shape 4 explicit_rule ≡ ok (cells ∷ (cell 3 ∷ []) ∷ [])
unfolding candidate_masks selected_masks explicit_masks read_cells read_cell validate_cells
    sorted_cells insert_cell has_duplicates mask_eq get_field
selected = refl

candidate_masks-IsSelection_example :
    Ensures (IsSelection shape 4) (candidate_masks shape 4 explicit_rule)
candidate_masks-IsSelection_example = candidate_masks-IsSelection shape 4 explicit_rule

abbrev all_rule : Fields ℕ
all_rule =
    field "rule_id" (text "all_cells_lexicographic/0.1") (field "maximum_candidates" (int 20) end)

all_cells_lem_example :
    Answers
      (λ ms. (length ms ≡ total shape) × Listed (cell 3 ∷ []) ms)
      (leb (total shape) 20 && leb (total shape) 16)
      (candidate_masks shape 16 all_rule)
unfolding get_field
all_cells_lem_example = all_cells_lem shape 16 all_rule 20 (cell 3) refl refl (omega arith) refl
