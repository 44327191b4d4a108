-- ===== src/Representations/Cells.antt =====
-- The cells of an STFT mask: `_cell`, `_validate_cells`, `_cell_key` and `sorted(set(cells))` of
-- src/qste/representations/stft.py.
use Prim.Native.Nat.{compare, Ordering}
use qste.Base.{
  ℕ, Bool, ◌&&◌, ◌==◌, ltb, not, any, all, List, [], ◌∷◌, Result, raise_if, ◌>>◌, invalid_input,
  true, false,
}

-- `(channel, frequency, frame)`; a negative index is refused by every check of a cell, and none is
-- ever made.
pub record Cell : Type 0 where
  pub channel : ℕ
  pub frequency : ℕ
  pub frame : ℕ

-- The order of tuples.
abbrev pub then_compare : Ordering → Ordering → Ordering
then_compare Ordering.lt o = Ordering.lt
then_compare Ordering.eq o = o
then_compare Ordering.gt o = Ordering.gt

abbrev pub cell_order : Cell → Cell → Ordering
cell_order a b =
    then_compare (compare a.channel b.channel)
      (then_compare (compare a.frequency b.frequency) (compare a.frame b.frame))

abbrev pub cell_eq : Cell → Cell → Bool
cell_eq a b = a.channel == b.channel && a.frequency == b.frequency && a.frame == b.frame

abbrev pub in_cells : Cell → List Cell → Bool
in_cells c cs = any (cell_eq c) cs

unfoldable pub insert_cell : Cell → List Cell → List Cell
insert_cell c [] = c ∷ []
insert_cell c (d ∷ ds) =
    let rest = insert_cell c ds in
    elim (cell_order c d) [
      | Ordering.lt ↦ c ∷ d ∷ ds
      | Ordering.eq ↦ d ∷ ds
      | Ordering.gt ↦ d ∷ rest
    ]

-- `sorted(set(cells))`
unfoldable pub sorted_cells : List Cell → List Cell
sorted_cells [] = []
sorted_cells (c ∷ cs) = insert_cell c (sorted_cells cs)

-- `instance["qste:coefficientShape"]` and the shape of the coefficients.
pub record Shape : Type 0 where
  pub channels : ℕ
  pub frequencies : ℕ
  pub frames : ℕ

-- A cell within the shape.
abbrev pub is_inside : Shape → Cell → Bool
is_inside s c = ltb c.channel s.channels && ltb c.frequency s.frequencies && ltb c.frame s.frames

abbrev pub is_empty : List Cell → Bool
is_empty [] = true
is_empty (c ∷ cs) = false

-- `_validate_cells` on a shape of rank three.
unfoldable pub validate_cells : List Cell → Shape → Result (Unit {0})
validate_cells cells s = do
  raise_if (is_empty cells) invalid_input
  raise_if (not (all (is_inside s) cells)) invalid_input
