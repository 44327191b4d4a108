-- ===== src/Representations/Grid.antt =====
-- The cells of a shape in the order of `_candidate_masks` (src/qste/representations/stft.py).
use qste.Base.{suc, zero, arith, refl, ℕ, List, ◌≡◌, All, ◌≤◌, [], ◌++◌, ◌∷◌, All-append, All-map}
use Prim.Native.Nat.{Ordering}
use qste.Representations.Masks.{IsAscending}
use qste.Representations.Cells.{Cell, Shape, cell_order}

unfoldable pub row_cells : ℕ → ℕ → ℕ → ℕ → List Cell
row_cells channel frequency start zero = []
row_cells channel frequency start (suc count) =
    record { channel = channel; frequency = frequency; frame = start }
    ∷ row_cells channel frequency (suc start) count

unfoldable pub plane_cells : ℕ → ℕ → ℕ → ℕ → List Cell
plane_cells channel frames start zero = []
plane_cells channel frames start (suc count) =
    row_cells channel start 0 frames ++ plane_cells channel frames (suc start) count

unfoldable pub grid_cells : ℕ → ℕ → ℕ → ℕ → List Cell
grid_cells frequencies frames start zero = []
grid_cells frequencies frames start (suc count) =
    plane_cells start frames 0 frequencies ++ grid_cells frequencies frames (suc start) count

-- Every cell of the shape, once.
abbrev pub all_cells : Shape → List Cell
all_cells s = grid_cells s.frequencies s.frames 0 s.channels

IsAscending-append :
    (P Q : Cell → Type 0) (xs ys : List Cell)
    → ((x y : Cell) → P x → Q y → cell_order x y ≡ Ordering.lt)
    → All P xs
    → All Q ys
    → IsAscending xs
    → IsAscending ys
    → IsAscending (xs ++ ys)
IsAscending-append P Q [] ys f h k a b = b
IsAscending-append P Q (x ∷ xs) ys f h k a b = (
  All-append (λ y. cell_order x y ≡ Ordering.lt) xs ys a.0
      (All-map Q (λ y. cell_order x y ≡ Ordering.lt) ys (λ y q. f x y h.0 q) k),
  IsAscending-append P Q xs ys f h.1 k a.1 b,
)

abbrev InRow : ℕ → ℕ → ℕ → Cell → Type 0
InRow channel frequency start c =
    (c.channel ≡ channel) × (c.frequency ≡ frequency) × (start ≤ c.frame)

abbrev InPlane : ℕ → ℕ → Cell → Type 0
InPlane channel start c = (c.channel ≡ channel) × (start ≤ c.frequency)

row_cells-InRow :
    (channel frequency start count : ℕ)
    → All (InRow channel frequency start) (row_cells channel frequency start count)
unfolding row_cells
row_cells-InRow channel frequency start zero = tt
row_cells-InRow channel frequency start (suc count) = (
  (refl, refl, omega arith),
  All-map (InRow channel frequency (suc start)) (InRow channel frequency start)
      (row_cells channel frequency (suc start) count) (λ c h. (h.0, h.1, omega arith))
      (row_cells-InRow channel frequency (suc start) count),
)

plane_cells-InPlane :
    (channel frames start count : ℕ)
    → All (InPlane channel start) (plane_cells channel frames start count)
unfolding plane_cells
plane_cells-InPlane channel frames start zero = tt
plane_cells-InPlane channel frames start (suc count) =
    All-append (InPlane channel start) (row_cells channel start 0 frames)
      (plane_cells channel frames (suc start) count)
      (All-map (InRow channel start 0) (InPlane channel start) (row_cells channel start 0 frames)
        (λ c h. (h.0, omega (arith, h.1))) (row_cells-InRow channel start 0 frames))
      (All-map (InPlane channel (suc start)) (InPlane channel start)
        (plane_cells channel frames (suc start) count) (λ c h. (h.0, omega (arith, h.1)))
        (plane_cells-InPlane channel frames (suc start) count))

grid_cells-later :
    (frequencies frames start count : ℕ)
    → All (λ c. start ≤ c.channel) (grid_cells frequencies frames start count)
unfolding grid_cells
grid_cells-later frequencies frames start zero = tt
grid_cells-later frequencies frames start (suc count) =
    All-append (λ c. start ≤ c.channel) (plane_cells start frames 0 frequencies)
      (grid_cells frequencies frames (suc start) count)
      (All-map (InPlane start 0) (λ c. start ≤ c.channel) (plane_cells start frames 0 frequencies)
        (λ c h. omega (arith, h.0)) (plane_cells-InPlane start frames 0 frequencies))
      (All-map (λ c. suc start ≤ c.channel) (λ c. start ≤ c.channel)
        (grid_cells frequencies frames (suc start) count) (λ c h. omega (arith, h))
        (grid_cells-later frequencies frames (suc start) count))

row_cells-IsAscending :
    (channel frequency start count : ℕ) → IsAscending (row_cells channel frequency start count)
unfolding row_cells
row_cells-IsAscending channel frequency start zero = tt
row_cells-IsAscending channel frequency start (suc count) = (
  All-map (InRow channel frequency (suc start))
      (λ d.
        cell_order (record { channel = channel; frequency = frequency; frame = start }) d
        ≡ Ordering.lt)
      (row_cells channel frequency (suc start) count) (λ d h. ground arith)
      (row_cells-InRow channel frequency (suc start) count),
  row_cells-IsAscending channel frequency (suc start) count,
)

plane_cells-IsAscending :
    (channel frames start count : ℕ) → IsAscending (plane_cells channel frames start count)
unfolding plane_cells
plane_cells-IsAscending channel frames start zero = tt
plane_cells-IsAscending channel frames start (suc count) =
    IsAscending-append (InRow channel start 0) (InPlane channel (suc start))
      (row_cells channel start 0 frames) (plane_cells channel frames (suc start) count)
      (λ x y h k. ground arith) (row_cells-InRow channel start 0 frames)
      (plane_cells-InPlane channel frames (suc start) count)
      (row_cells-IsAscending channel start 0 frames)
      (plane_cells-IsAscending channel frames (suc start) count)

pub grid_cells-IsAscending :
    (frequencies frames start count : ℕ) → IsAscending (grid_cells frequencies frames start count)
unfolding grid_cells
grid_cells-IsAscending frequencies frames start zero = tt
grid_cells-IsAscending frequencies frames start (suc count) =
    IsAscending-append (InPlane start 0) (λ c. suc start ≤ c.channel)
      (plane_cells start frames 0 frequencies) (grid_cells frequencies frames (suc start) count)
      (λ x y h k. ground arith) (plane_cells-InPlane start frames 0 frequencies)
      (grid_cells-later frequencies frames (suc start) count)
      (plane_cells-IsAscending start frames 0 frequencies)
      (grid_cells-IsAscending frequencies frames (suc start) count)
