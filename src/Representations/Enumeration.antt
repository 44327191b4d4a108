-- ===== src/Representations/Enumeration.antt =====
-- The rule of all cells of `_candidate_masks` (src/qste/representations/stft.py).
use qste.Representations.Places.{grid_cells-Listed, length-grid_cells}
use Prim.Native.Nat.{Ordering}
use native.Mathlib.Nat.{mul_assoc}
use qste.Base.{
  suc, zero, List, ◌≡◌, length, map, ℕ, All, ◌*◌, ap, ◌∷◌, false, refl, ◌++◌, true, [], subst,
  arith, inl, ◌∙◌, Answers, sym, leb, inr, some, ◌&&◌, raise_if, ltb, ◌≤◌, capability_unavailable,
  ◌>>◌, invalid_input, ok, Bool-cases, ◌>>=◌, any,
}
use qste.Representations.Candidates.{
  channel_masks, all_masks, range_from, candidate_masks, frequency_masks, has_duplicates,
  selected_masks, lexicographic_masks, single, min,
}
use qste.Representations.Cells.{Cell, Shape, is_inside, cell_order}
use qste.Representations.Refinement.{mask_eq, Mask}
use qste.Representations.Grid.{
  plane_cells, row_cells, grid_cells, all_cells, grid_cells-IsAscending,
}
use qste.Representations.Masks.{IsAscending, Listed}
use qste.Core.Json.{Fields, get_field, text, int}

abbrev one_cell : Cell → Mask
one_cell c = c ∷ []

map-append_one : (xs ys : List Cell) → map one_cell (xs ++ ys) ≡ map one_cell xs ++ map one_cell ys
map-append_one [] ys = refl
map-append_one (x ∷ xs) ys = cc (map-append_one xs ys)

length-map_one : (xs : List Cell) → length (map one_cell xs) ≡ length xs
length-map_one [] = refl
length-map_one (x ∷ xs) = omega (arith, length-map_one xs)

Listed-map_one : (c : Cell) (xs : List Cell) → Listed c xs → Listed (one_cell c) (map one_cell xs)
Listed-map_one c [] h = absurd h
Listed-map_one c (x ∷ xs) (inl e) = inl (ap one_cell e)
Listed-map_one c (x ∷ xs) (inr h) = inr (Listed-map_one c xs h)

row-masks :
    (channel frequency start count : ℕ)
    → map (single channel frequency) (range_from start count)
      ≡ map one_cell (row_cells channel frequency start count)
unfolding range_from row_cells
row-masks channel frequency start zero = refl
row-masks channel frequency start (suc count) = cc (row-masks channel frequency (suc start) count)

frequency_masks-map :
    (channel frames start count : ℕ)
    → frequency_masks channel (range_from 0 frames) (range_from start count)
      ≡ map one_cell (plane_cells channel frames start count)
unfolding frequency_masks plane_cells range_from
frequency_masks-map channel frames start zero = refl
frequency_masks-map channel frames start (suc count) = cc (
  row-masks channel start 0 frames,
  frequency_masks-map channel frames (suc start) count,
  map-append_one (row_cells channel start 0 frames) (plane_cells channel frames (suc start) count),
)

channel_masks-map :
    (frequencies frames start count : ℕ)
    → channel_masks (range_from 0 frequencies) (range_from 0 frames) (range_from start count)
      ≡ map one_cell (grid_cells frequencies frames start count)
unfolding channel_masks grid_cells range_from
channel_masks-map frequencies frames start zero = refl
channel_masks-map frequencies frames start (suc count) = cc (
  frequency_masks-map start frames 0 frequencies,
  channel_masks-map frequencies frames (suc start) count,
  map-append_one (plane_cells start frames 0 frequencies)
      (grid_cells frequencies frames (suc start) count),
)

all_masks-map : (s : Shape) → all_masks s ≡ map one_cell (all_cells s)
unfolding all_masks
all_masks-map s = channel_masks-map s.frequencies s.frames 0 s.channels

unlike :
    (c : Cell) (ds : List Cell)
    → All (λ d. cell_order c d ≡ Ordering.lt) ds
    → any (mask_eq (one_cell c)) (map one_cell ds) ≡ false
unfolding mask_eq
unlike c [] h = refl
unlike c (d ∷ ds) h = let rest = unlike c ds h.1 in ground arith

has_duplicates-IsAscending :
    (cs : List Cell) → IsAscending cs → has_duplicates (map one_cell cs) ≡ false
unfolding has_duplicates
has_duplicates-IsAscending [] h = refl
has_duplicates-IsAscending (c ∷ cs) h =
    let first = unlike c cs h.0 in let rest = has_duplicates-IsAscending cs h.1 in ground arith

-- The number of cells of a shape.
abbrev pub total : Shape → ℕ
total s = s.channels * s.frequencies * s.frames

length-all_masks : (s : Shape) → length (all_masks s) ≡ total s
length-all_masks s =
    ap length (all_masks-map s)
    ∙ length-map_one (all_cells s)
    ∙ length-grid_cells s.frequencies s.frames 0 s.channels
    ∙ sym (mul_assoc s.channels s.frequencies s.frames)

Listed-all_masks : (s : Shape) (c : Cell) → is_inside s c ≡ true → Listed (one_cell c) (all_masks s)
Listed-all_masks s c h = subst (Listed (one_cell c)) (sym (all_masks-map s)) (
    Listed-map_one c (all_cells s) (
      grid_cells-Listed s.frequencies s.frames 0 s.channels c (ground arith) (ground arith)
        (omega arith) (ground arith)))

-- The tests that follow the enumeration.
enumerated :
    (s : Shape) (budget maximum : ℕ) (Q : List Mask → Type 0) (ms : List Mask)
    → length ms ≡ total s
    → has_duplicates ms ≡ false
    → Q ms
    → Answers Q (leb (total s) budget && leb (total s) maximum) (
        (raise_if (ltb (min budget maximum) (total s)) capability_unavailable >> ok ms)
        >>= (λ masks.
            raise_if (ltb maximum (length masks)) capability_unavailable
            >> (raise_if (has_duplicates masks) invalid_input >> ok masks)))
enumerated s budget maximum Q ms n d q =
    elim (Bool-cases (leb (total s) budget && leb (total s) maximum)) [
      | inl h ↦
          let a : ltb (min budget maximum) (total s) ≡ false = ground arith in
          let b : ltb maximum (length ms) ≡ false = ground arith in rw (h, a, b, d) (refl, q)
      | inr h ↦ let a : ltb (min budget maximum) (total s) ≡ true = ground arith in rw (h, a) refl
    ]

-- On the rule of all cells with a positive budget _candidate_masks returns exactly when the number of
-- cells is within the budget and the capacity; then it returns as many masks, and the mask of any
-- cell of the shape is among them.
pub all_cells_lem :
    {F : Type 0} (s : Shape) (maximum : ℕ) (rule : Fields F) (budget : ℕ) (c : Cell)
    → get_field "rule_id" rule ≡ some (text "all_cells_lexicographic/0.1")
    → get_field "maximum_candidates" rule ≡ some (int budget)
    → 1 ≤ budget
    → is_inside s c ≡ true
    → Answers
        (λ ms. (length ms ≡ total s) × Listed (c ∷ []) ms)
        (leb (total s) budget && leb (total s) maximum)
        (candidate_masks s maximum rule)
unfolding candidate_masks selected_masks lexicographic_masks
all_cells_lem s maximum rule budget c r m b h =
    let p : ltb budget 1 ≡ false = ground arith in
    rw (r, m, p)
      (enumerated s budget maximum (λ ms. (length ms ≡ total s) × Listed (c ∷ []) ms) (all_masks s)
        (length-all_masks s)
        (ap has_duplicates (all_masks-map s)
          ∙ has_duplicates-IsAscending (all_cells s)
              (grid_cells-IsAscending s.frequencies s.frames 0 s.channels))
        (length-all_masks s, Listed-all_masks s c h))
