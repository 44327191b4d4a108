-- ===== src/Representations/Candidates.antt =====
-- `_cell` and `_candidate_masks` of src/qste/representations/stft.py: the masks that a candidate rule
-- selects. The capacity of the specification is a number that is not negative.
use qste.Base.{
  ℕ, String, Bool, true, false, ◌||◌, Option, some, List, [], ◌∷◌, ◌++◌, map, any, length, ltb, suc,
  zero, ◌*◌, Result, ok, err, raise_if, ◌>>=◌, ◌>>◌, invalid_input, capability_unavailable, str_eq,
  if◌then◌else◌,
}
use qste.Core.Json.{Json, Items, Fields, get_field, int, text, arr, nil, item}
use qste.Representations.Cells.{Cell, Shape, sorted_cells, validate_cells}
use qste.Representations.Refinement.{Mask, mask_eq}

module _ {F : Type 0} where
  -- An index of a cell; a negative one is an integer that `_validate_cells` refuses with this error.
  abbrev pub read_index : Json F → Result ℕ
  read_index (int n) = ok n
  read_index _ = err invalid_input

  -- `_cell`
  unfoldable pub read_cell : Json F → Result Cell
  read_cell (arr (item c (item f (item t nil)))) = do
    channel ← read_index c
    frequency ← read_index f
    frame ← read_index t
    ok (record { channel = channel; frequency = frequency; frame = frame })
  read_cell _ = err invalid_input

  unfoldable pub read_cells : Items F → Result (List Cell)
  read_cells nil = ok []
  read_cells (item x xs) = do cell ← read_cell x; cells ← read_cells xs; ok (cell ∷ cells)

  abbrev pub items_in : Option (Json F) → Items F
  items_in (some (arr xs)) = xs
  items_in _ = nil

  abbrev pub is_nil : Items F → Bool
  is_nil nil = true
  is_nil (item x xs) = false

  -- The loop over `raw_masks`; a value that is no list counts as an empty one, with the same error.
  unfoldable pub explicit_masks : Shape → Items F → Result (List Mask)
  explicit_masks s nil = ok []
  explicit_masks s (item raw_mask rest) = do
    raise_if (is_nil (items_in (some raw_mask))) invalid_input
    cells ← read_cells (items_in (some raw_mask))
    validate_cells cells s
    masks ← explicit_masks s rest
    ok (sorted_cells cells ∷ masks)

  -- `_positive_int`
  abbrev pub positive_int : Option (Json F) → Result ℕ
  positive_int (some (int n)) = raise_if (ltb n 1) invalid_input >> ok n
  positive_int _ = err invalid_input

-- `range(start, start + count)`
unfoldable pub range_from : ℕ → ℕ → List ℕ
range_from start zero = []
range_from start (suc count) = start ∷ range_from (suc start) count

abbrev pub single : ℕ → ℕ → ℕ → Mask
single channel frequency frame =
    record { channel = channel; frequency = frequency; frame = frame } ∷ []

unfoldable pub frequency_masks : ℕ → List ℕ → List ℕ → List Mask
frequency_masks channel frames [] = []
frequency_masks channel frames (frequency ∷ rest) =
    map (single channel frequency) frames ++ frequency_masks channel frames rest

unfoldable pub channel_masks : List ℕ → List ℕ → List ℕ → List Mask
channel_masks frequencies frames [] = []
channel_masks frequencies frames (channel ∷ rest) =
    frequency_masks channel frames frequencies ++ channel_masks frequencies frames rest

-- The comprehension over the three ranges.
unfoldable pub all_masks : Shape → List Mask
all_masks s =
    channel_masks (range_from 0 s.frequencies) (range_from 0 s.frames) (range_from 0 s.channels)

-- `len(set(masks)) != len(masks)`
unfoldable pub has_duplicates : List Mask → Bool
has_duplicates [] = false
has_duplicates (m ∷ ms) = any (mask_eq m) ms || has_duplicates ms

abbrev pub min : ℕ → ℕ → ℕ
min a b = if ltb b a then b else a

module _ {F : Type 0} where
  unfoldable pub lexicographic_masks : Shape → ℕ → Fields F → Result (List Mask)
  lexicographic_masks s maximum rule = do
    budget ← positive_int (get_field "maximum_candidates" rule)
    raise_if (ltb (min budget maximum) (s.channels * s.frequencies * s.frames))
        capability_unavailable
    ok (all_masks s)

  abbrev pub has_rule : Option (Json F) → String → Bool
  has_rule (some (text t)) name = str_eq t name
  has_rule _ name = false

  unfoldable pub selected_masks : Shape → ℕ → Fields F → Result (List Mask)
  selected_masks s maximum rule =
      if has_rule (get_field "rule_id" rule) "explicit_masks/0.1"
      then raise_if (is_nil (items_in (get_field "masks" rule))) invalid_input
        >> explicit_masks s (items_in (get_field "masks" rule))
      else (if has_rule (get_field "rule_id" rule) "all_cells_lexicographic/0.1"
          then lexicographic_masks s maximum rule
          else err capability_unavailable)

  -- `_candidate_masks`
  unfoldable pub candidate_masks : Shape → ℕ → Fields F → Result (List Mask)
  candidate_masks s maximum rule = do
    masks ← selected_masks s maximum rule
    raise_if (ltb maximum (length masks)) capability_unavailable
    raise_if (has_duplicates masks) invalid_input
    ok masks
