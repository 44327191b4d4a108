-- ===== src/Representations/Controls.antt =====
-- The cells of the off-target control of `_apply_intervention`
-- (src/qste/representations/stft.py).
use Prim.Native.Nat.{Ordering}
use qste.Base.{
  All-and, ◌⊎◌, ℕ, Bool, List, [], ◌∷◌, ◌+◌, ◌-◌, ◌<◌, ◌≤◌, ◌≡◌, refl, ltb, leb, map, All, All-map,
  all, true, false, Bool-cases, inl, inr, arith, ◌⊎◌,
}
use qste.Representations.Cells.{
  Cell, Shape, cell_eq, in_cells, sorted_cells, is_inside, insert_cell, cell_order,
}
use qste.Representations.Intervention.{
  min_frame, max_frame, signed_offset, shifted, earlier, Shift, later, nowhere,
}

pub cell_eq_sound : (a b : Cell) → cell_eq a b ≡ true → a ≡ b
cell_eq_sound a b h = ground arith

pub All-insert_cell :
    (P : Cell → Type 0) (c : Cell) (ds : List Cell) → P c → All P ds → All P (insert_cell c ds)
unfolding insert_cell
All-insert_cell P c [] h k = (h, tt)
All-insert_cell P c (d ∷ ds) h k =
    elim (cell_order c d)
      as (λ o. All P (elim o [
        | Ordering.lt ↦ c ∷ d ∷ ds
        | Ordering.eq ↦ d ∷ ds
        | Ordering.gt ↦ d ∷ insert_cell c ds
      ])) [
        | Ordering.lt ↦ (h, k)
        | Ordering.eq ↦ k
        | Ordering.gt ↦ (k.0, All-insert_cell P c ds h k.1)
      ]

pub All-sorted_cells : (P : Cell → Type 0) (cs : List Cell) → All P cs → All P (sorted_cells cs)
unfolding sorted_cells
All-sorted_cells P [] h = tt
All-sorted_cells P (c ∷ cs) h =
    All-insert_cell P c (sorted_cells cs) h.0 (All-sorted_cells P cs h.1)

pub All-of_all :
    {A : Type 0} (p : A → Bool) (xs : List A) → all p xs ≡ true → All (λ x. p x ≡ true) xs
All-of_all p [] h = tt
All-of_all p (x ∷ xs) h = (ground arith, All-of_all p xs (ground arith))

All-of_map :
    {A B : Type 0} (P : A → Type 0) (Q : B → Type 0) (f : A → B) (xs : List A)
    → ((x : A) → P x → Q (f x))
    → All P xs
    → All Q (map f xs)
All-of_map P Q f [] h k = tt
All-of_map P Q f (x ∷ xs) h k = (h x k.0, All-of_map P Q f xs h k.1)

max_frame_bounds : (c : Cell) (cs : List Cell) → All (λ d. d.frame ≤ max_frame c cs) (c ∷ cs)
unfolding max_frame
max_frame_bounds c [] = (omega arith, tt)
max_frame_bounds c (d ∷ ds) = (
  ground arith,
  All-map (λ e. e.frame ≤ max_frame d ds) (λ e. e.frame ≤ max_frame c (d ∷ ds)) (d ∷ ds)
      (λ e h. ground arith) (max_frame_bounds d ds),
)

min_frame_bounds : (c : Cell) (cs : List Cell) → All (λ d. min_frame c cs ≤ d.frame) (c ∷ cs)
unfolding min_frame
min_frame_bounds c [] = (omega arith, tt)
min_frame_bounds c (d ∷ ds) = (
  ground arith,
  All-map (λ e. min_frame d ds ≤ e.frame) (λ e. min_frame c (d ∷ ds) ≤ e.frame) (d ∷ ds)
      (λ e h. ground arith) (min_frame_bounds d ds),
)

in_cells-false :
    (x : Cell) (cs : List Cell) → All (λ c. cell_eq x c ≡ false) cs → in_cells x cs ≡ false
in_cells-false x [] h = refl
in_cells-false x (c ∷ cs) h = let ih = in_cells-false x cs h.1 in ground arith

-- A cell whose frame lies before or after those of the others.
abbrev IsBeyond : ℕ → ℕ → Cell → Type 0
IsBeyond low high x = (x.frame < low) ⊎ (high < x.frame)

IsBeyond-apart :
    (low high : ℕ) (x : Cell) (cs : List Cell)
    → IsBeyond low high x
    → All (λ d. d.frame ≤ high) cs
    → All (λ d. low ≤ d.frame) cs
    → in_cells x cs ≡ false
IsBeyond-apart low high x [] b h k = refl
IsBeyond-apart low high x (d ∷ ds) (inl b) h k =
    let ih = IsBeyond-apart low high x ds (inl b) h.1 k.1 in ground arith
IsBeyond-apart low high x (d ∷ ds) (inr b) h k =
    let ih = IsBeyond-apart low high x ds (inr b) h.1 k.1 in ground arith

-- The cells of the control lie in the shape and away from those of the candidate.
abbrev pub IsControl : Shape → List Cell → Cell → Type 0
IsControl shape cells x = (is_inside shape x ≡ true) × (in_cells x cells ≡ false)

-- A shift by one more than the extent of the cells, within the frames.
abbrev Fits : ℕ → ℕ → ℕ → Shift → Type 0
Fits high low frames (later o) = (o ≡ (high - low) + 1) × (high + o < frames)
Fits high low frames (earlier o) = (o ≡ (high - low) + 1) × (o ≤ low)
Fits high low frames nowhere = Unit

signed_offset-Fits : (high low frames : ℕ) → Fits high low frames (signed_offset high low frames)
unfolding signed_offset
signed_offset-Fits high low frames = elim (Bool-cases (ltb (high + ((high - low) + 1)) frames)) [
  | inl fits ↦ rw fits (refl, ground arith)
  | inr past ↦ elim (Bool-cases (leb ((high - low) + 1) low)) [
    | inl fits ↦ rw (past, fits) (refl, ground arith)
    | inr short ↦ rw (past, short) tt
  ]
]

module _ (shape : Shape) (low high : ℕ) (cells : List Cell)
    (below : All (λ d. d.frame ≤ high) cells) (above : All (λ d. low ≤ d.frame) cells) where
  abbrev IsBetween : Cell → Type 0
  IsBetween c = (is_inside shape c ≡ true) × ((c.frame ≤ high) × (low ≤ c.frame))

  later-IsControl :
      (o : ℕ) (c : Cell)
      → Fits high low shape.frames (later o)
      → IsBetween c
      → IsControl shape cells (record c { frame = c.frame + o })
  later-IsControl o c f b = (
    ground arith,
    IsBeyond-apart low high (record c { frame = c.frame + o }) cells (inr (omega arith)) below
        above,
  )

  earlier-IsControl :
      (o : ℕ) (c : Cell)
      → Fits high low shape.frames (earlier o)
      → IsBetween c
      → IsControl shape cells (record c { frame = c.frame - o })
  earlier-IsControl o c f b = (
    ground arith,
    IsBeyond-apart low high (record c { frame = c.frame - o }) cells (inl (omega arith)) below
        above,
  )

  shifted-IsControl :
      (s : Shift) (cs : List Cell)
      → Fits high low shape.frames s
      → All IsBetween cs
      → All (IsControl shape cells) (shifted s cs)
  unfolding shifted
  shifted-IsControl (later o) cs f b =
      All-of_map IsBetween (IsControl shape cells) (λ c. record c { frame = c.frame + o }) cs
        (λ c. later-IsControl o c f) b
  shifted-IsControl (earlier o) cs f b =
      All-of_map IsBetween (IsControl shape cells) (λ c. record c { frame = c.frame - o }) cs
        (λ c. earlier-IsControl o c f) b
  shifted-IsControl nowhere cs f b = tt

pub off_target-IsControl :
    (shape : Shape) (c : Cell) (cs : List Cell)
    → all (is_inside shape) (c ∷ cs) ≡ true
    → All
        (IsControl shape (c ∷ cs))
        (shifted (signed_offset (max_frame c cs) (min_frame c cs) shape.frames) (c ∷ cs))
off_target-IsControl shape c cs i =
    let high = max_frame c cs in
    let low = min_frame c cs in
    let h = max_frame_bounds c cs in
    let k = min_frame_bounds c cs in
    let each = All-of_all (is_inside shape) (c ∷ cs) i in
    shifted-IsControl shape low high (c ∷ cs) h k (signed_offset high low shape.frames) (c ∷ cs)
      (signed_offset-Fits high low shape.frames)
      (All-and (λ d. is_inside shape d ≡ true) (λ d. (d.frame ≤ high) × (low ≤ d.frame)) (c ∷ cs)
        each (All-and (λ d. d.frame ≤ high) (λ d. low ≤ d.frame) (c ∷ cs) h k))
