-- ===== src/Representations/Places.antt =====
-- Every cell of a shape stands in the order of `_candidate_masks` (src/qste/representations/stft.py).
use qste.Base.{
  suc, zero, ◌<◌, arith, length, ◌+◌, refl, ◌*◌, length-append, ◌∙◌, inr, subst, inl, ap, ℕ, ◌≡◌,
  ◌≤◌,
}
use native.Mathlib.Decide.{dec_lt}
use qste.Representations.Masks.{Listed, Listed-append_left, Listed-append_right}
use qste.Representations.Cells.{Cell}
use qste.Representations.Grid.{row_cells, plane_cells, grid_cells}

row_cells-Listed :
    (start count : ℕ) (c : Cell)
    → start ≤ c.frame
    → c.frame < start + count
    → Listed c (row_cells c.channel c.frequency start count)
unfolding row_cells
row_cells-Listed start zero c h k = absurd (omega arith)
row_cells-Listed start (suc count) c h k = elim (dec_lt start c.frame) [
  | yes later ↦ inr (row_cells-Listed (suc start) count c (omega arith) (omega arith))
  | no here ↦
      let e : c.frame ≡ start = omega arith in
      inl (ap (λ n. record { channel = c.channel; frequency = c.frequency; frame = n }) e)
]

plane_cells-Listed :
    (frames start count : ℕ) (c : Cell)
    → c.frame < frames
    → start ≤ c.frequency
    → c.frequency < start + count
    → Listed c (plane_cells c.channel frames start count)
unfolding plane_cells
plane_cells-Listed frames start zero c f h k = absurd (omega arith)
plane_cells-Listed frames start (suc count) c f h k = elim (dec_lt start c.frequency) [
  | yes later ↦
      Listed-append_right c (row_cells c.channel start 0 frames)
        (plane_cells c.channel frames (suc start) count)
        (plane_cells-Listed frames (suc start) count c f (omega arith) (omega arith))
  | no here ↦
      let e : c.frequency ≡ start = omega arith in
      Listed-append_left c (row_cells c.channel start 0 frames)
        (plane_cells c.channel frames (suc start) count)
        (subst (λ n. Listed c (row_cells c.channel n 0 frames)) e
          (row_cells-Listed 0 frames c (omega arith) (omega arith)))
]

pub grid_cells-Listed :
    (frequencies frames start count : ℕ) (c : Cell)
    → c.frame < frames
    → c.frequency < frequencies
    → start ≤ c.channel
    → c.channel < start + count
    → Listed c (grid_cells frequencies frames start count)
unfolding grid_cells
grid_cells-Listed frequencies frames start zero c f q h k = absurd (omega arith)
grid_cells-Listed frequencies frames start (suc count) c f q h k = elim (dec_lt start c.channel) [
  | yes later ↦
      Listed-append_right c (plane_cells start frames 0 frequencies)
        (grid_cells frequencies frames (suc start) count)
        (grid_cells-Listed frequencies frames (suc start) count c f q (omega arith) (omega arith))
  | no here ↦
      let e : c.channel ≡ start = omega arith in
      Listed-append_left c (plane_cells start frames 0 frequencies)
        (grid_cells frequencies frames (suc start) count)
        (subst (λ n. Listed c (plane_cells n frames 0 frequencies)) e
          (plane_cells-Listed frames 0 frequencies c f (omega arith) (omega arith)))
]

length-row_cells :
    (channel frequency start count : ℕ) → length (row_cells channel frequency start count) ≡ count
unfolding row_cells
length-row_cells channel frequency start zero = refl
length-row_cells channel frequency start (suc count) =
    omega (arith, length-row_cells channel frequency (suc start) count)

length-plane_cells :
    (channel frames start count : ℕ)
    → length (plane_cells channel frames start count) ≡ count * frames
unfolding plane_cells
length-plane_cells channel frames start zero = omega arith
length-plane_cells channel frames start (suc count) =
    length-append (row_cells channel start 0 frames) (plane_cells channel frames (suc start) count)
    ∙ omega (
      arith,
      length-row_cells channel start 0 frames,
      length-plane_cells channel frames (suc start) count,
    )

pub length-grid_cells :
    (frequencies frames start count : ℕ)
    → length (grid_cells frequencies frames start count) ≡ count * (frequencies * frames)
unfolding grid_cells
length-grid_cells frequencies frames start zero = omega arith
length-grid_cells frequencies frames start (suc count) =
    length-append (plane_cells start frames 0 frequencies)
      (grid_cells frequencies frames (suc start) count)
    ∙ omega (
      arith,
      length-plane_cells start frames 0 frequencies,
      length-grid_cells frequencies frames (suc start) count,
    )
