-- ===== src/Representations/Singles.antt =====
-- The masks of the rule of all cells, of `_candidate_masks` in src/qste/representations/stft.py.
use qste.Representations.Cells.{Shape, Cell, is_inside}
use qste.Representations.Refinement.{Mask}
use qste.Base.{
  suc, zero, List, ◌≡◌, ◌∷◌, All, arith, All-map, [], true, refl, ℕ, ◌<◌, ◌+◌, All-append, map,
}
use qste.Representations.Candidates.{all_masks, range_from, frequency_masks, channel_masks, single}
use qste.Representations.Masks.{All-map_to}

-- A mask of one cell within the shape.
abbrev pub IsSingle : Shape → Mask → Type 0
IsSingle s m = (c : Cell) × (m ≡ c ∷ []) × (is_inside s c ≡ true)

range_from-bounds : (start count : ℕ) → All (λ n. n < start + count) (range_from start count)
unfolding range_from
range_from-bounds start zero = tt
range_from-bounds start (suc count) = (
  omega arith,
  All-map (λ n. n < suc start + count) (λ n. n < start + suc count) (range_from (suc start) count)
      (λ n h. omega arith) (range_from-bounds (suc start) count),
)

range-bounds : (count : ℕ) → All (λ n. n < count) (range_from 0 count)
range-bounds count =
    All-map (λ n. n < 0 + count) (λ n. n < count) (range_from 0 count) (λ n h. omega arith)
      (range_from-bounds 0 count)

inside :
    (s : Shape) (channel frequency frame : ℕ)
    → channel < s.channels
    → frequency < s.frequencies
    → frame < s.frames
    → is_inside s (record { channel = channel; frequency = frequency; frame = frame }) ≡ true
inside s channel frequency frame h k l = ground arith

module _ (s : Shape) where
  frequency_masks-IsSingle :
      (channel : ℕ) (frames frequencies : List ℕ)
      → channel < s.channels
      → All (λ n. n < s.frames) frames
      → All (λ n. n < s.frequencies) frequencies
      → All (IsSingle s) (frequency_masks channel frames frequencies)
  unfolding frequency_masks
  frequency_masks-IsSingle channel frames [] h k l = tt
  frequency_masks-IsSingle channel frames (frequency ∷ rest) h k l =
      All-append (IsSingle s) (map (single channel frequency) frames)
        (frequency_masks channel frames rest)
        (All-map_to (λ n. n < s.frames) (IsSingle s) (single channel frequency) frames
          (λ n b. (
            record { channel = channel; frequency = frequency; frame = n },
            refl,
            inside s channel frequency n h l.0 b,
          ))
          k)
        (frequency_masks-IsSingle channel frames rest h k l.1)

  channel_masks-IsSingle :
      (channels frequencies frames : List ℕ)
      → All (λ n. n < s.channels) channels
      → All (λ n. n < s.frequencies) frequencies
      → All (λ n. n < s.frames) frames
      → All (IsSingle s) (channel_masks frequencies frames channels)
  unfolding channel_masks
  channel_masks-IsSingle [] frequencies frames h k l = tt
  channel_masks-IsSingle (channel ∷ rest) frequencies frames h k l =
      All-append (IsSingle s) (frequency_masks channel frames frequencies)
        (channel_masks frequencies frames rest)
        (frequency_masks-IsSingle channel frames frequencies h.0 l k)
        (channel_masks-IsSingle rest frequencies frames h.1 k l)

  pub all_masks-IsSingle : All (IsSingle s) (all_masks s)
  unfolding all_masks
  all_masks-IsSingle =
      channel_masks-IsSingle (range_from 0 s.channels) (range_from 0 s.frequencies)
        (range_from 0 s.frames) (range-bounds s.channels) (range-bounds s.frequencies)
        (range-bounds s.frames)
