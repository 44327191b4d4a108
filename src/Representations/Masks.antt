-- ===== src/Representations/Masks.antt =====
-- `itertools.combinations` over the cells of a candidate, for `refine` of
-- src/qste/representations/stft.py: which masks it makes.
use Prim.Native.Nat.{Ordering}
use native.Mathlib.Decide.{dec_lt}
use qste.Base.{
  ℕ, suc, zero, List, [], ◌∷◌, ◌++◌, ◌+◌, ◌-◌, ◌≤◌, ◌<◌, ◌≡◌, refl, map, length, All, All-append,
  All-map, arith, ◌⊎◌, inl, inr, ap, subst,
}
use qste.Representations.Cells.{Cell, cell_order, sorted_cells, insert_cell}
use qste.Representations.Refinement.{Mask, combinations, combinations_from, proper_masks}

-- A mask is made of cells of another, in their order.
pub data Sub : Mask → Mask → Type 0 where
  done : Sub [] []
  skip : {m cs : Mask} (c : Cell) → Sub m cs → Sub m (c ∷ cs)
  keep : {m cs : Mask} (c : Cell) → Sub m cs → Sub (c ∷ m) (c ∷ cs)

pub Sub-nil : (cs : Mask) → Sub [] cs
Sub-nil [] = done
Sub-nil (c ∷ cs) = skip c (Sub-nil cs)

pub Sub-refl : (cs : Mask) → Sub cs cs
Sub-refl [] = done
Sub-refl (c ∷ cs) = keep c (Sub-refl cs)

pub Sub-trans : {a b c : Mask} → Sub a b → Sub b c → Sub a c
Sub-trans h done = h
Sub-trans h (skip c k) = skip c (Sub-trans h k)
Sub-trans (skip _ h) (keep c k) = skip c (Sub-trans h k)
Sub-trans (keep _ h) (keep c k) = keep c (Sub-trans h k)

pub Sub-length : {m cs : Mask} → Sub m cs → length m ≤ length cs
Sub-length done = omega arith
Sub-length (skip c h) = omega (arith, Sub-length h)
Sub-length (keep c h) = omega (arith, Sub-length h)

pub Sub-All : (P : Cell → Type 0) {m cs : Mask} → Sub m cs → All P cs → All P m
Sub-All P done k = k
Sub-All P (skip c h) k = Sub-All P h k.1
Sub-All P (keep c h) k = (k.0, Sub-All P h k.1)

-- An element stands in a list.
abbrev pub Listed : {A : Type 0} → A → List A → Type 0
Listed m [] = ⊥
Listed m (n ∷ ns) = (m ≡ n) ⊎ Listed m ns

pub Listed-append_left : {A : Type 0} (m : A) (xs ys : List A) → Listed m xs → Listed m (xs ++ ys)
Listed-append_left m [] ys h = absurd h
Listed-append_left m (x ∷ xs) ys (inl e) = inl e
Listed-append_left m (x ∷ xs) ys (inr h) = inr (Listed-append_left m xs ys h)

pub Listed-append_right : {A : Type 0} (m : A) (xs ys : List A) → Listed m ys → Listed m (xs ++ ys)
Listed-append_right m [] ys h = h
Listed-append_right m (x ∷ xs) ys h = inr (Listed-append_right m xs ys h)

Listed-map_cons :
    (c : Cell) (m : Mask) (xs : List Mask) → Listed m xs → Listed (c ∷ m) (map (λ n. c ∷ n) xs)
Listed-map_cons c m [] h = absurd h
Listed-map_cons c m (x ∷ xs) (inl e) = inl (ap (λ n. c ∷ n) e)
Listed-map_cons c m (x ∷ xs) (inr h) = inr (Listed-map_cons c m xs h)

skipped :
    (m : Mask) (c : Cell) (cs : Mask)
    → Listed m (combinations (length m) cs)
    → Listed m (combinations (length m) (c ∷ cs))
unfolding combinations
skipped [] c cs h = inl refl
skipped (d ∷ m) c cs h =
    Listed-append_right (d ∷ m) (map (λ n. c ∷ n) (combinations (length m) cs))
      (combinations (suc (length m)) cs) h

pub Listed-combinations : {m cs : Mask} → Sub m cs → Listed m (combinations (length m) cs)
unfolding combinations
Listed-combinations done = inl refl
Listed-combinations {m} (skip {cs = cs} c h) = skipped m c cs (Listed-combinations h)
Listed-combinations (keep {m = m} {cs = cs} c h) =
    Listed-append_left (c ∷ m) (map (λ n. c ∷ n) (combinations (length m) cs))
      (combinations (suc (length m)) cs)
      (Listed-map_cons c m (combinations (length m) cs) (Listed-combinations h))

Listed-combinations_from :
    (size count : ℕ) {m cs : Mask}
    → Sub m cs
    → size ≤ length m
    → length m < size + count
    → Listed m (combinations_from size count cs)
unfolding combinations_from
Listed-combinations_from size zero h a b = absurd (omega arith)
Listed-combinations_from size (suc count) {m} {cs} h a b = elim (dec_lt size (length m)) [
  | yes more ↦
      Listed-append_right m (combinations size cs) (combinations_from (suc size) count cs)
        (Listed-combinations_from (suc size) count h (omega arith) (omega arith))
  | no last ↦
      let same : length m ≡ size = omega arith in
      Listed-append_left m (combinations size cs) (combinations_from (suc size) count cs)
        (subst (λ k. Listed m (combinations k cs)) same (Listed-combinations h))
]

-- The masks are the nonempty proper parts of the cells.
abbrev pub IsProper : Mask → Mask → Type 0
IsProper cs m = Sub m cs × (1 ≤ length m) × (length m < length cs)

pub Listed-proper_masks : (m cs : Mask) → IsProper cs m → Listed m (proper_masks cs)
unfolding proper_masks
Listed-proper_masks m cs h = Listed-combinations_from 1 (length cs - 1) h.0 h.1 (omega arith)

pub All-map_to :
    {A B : Type 0} (P : A → Type 0) (Q : B → Type 0) (f : A → B) (xs : List A)
    → ((x : A) → P x → Q (f x))
    → All P xs
    → All Q (map f xs)
All-map_to P Q f [] h k = tt
All-map_to P Q f (x ∷ xs) h k = (h x k.0, All-map_to P Q f xs h k.1)

abbrev pub IsPart : ℕ → Mask → Mask → Type 0
IsPart k cs m = Sub m cs × (length m ≡ k)

pub combinations-IsPart : (k : ℕ) (cs : Mask) → All (IsPart k cs) (combinations k cs)
unfolding combinations
combinations-IsPart zero cs = ((Sub-nil cs, refl), tt)
combinations-IsPart (suc k) [] = tt
combinations-IsPart (suc k) (c ∷ cs) =
    All-append (IsPart (suc k) (c ∷ cs)) (map (λ m. c ∷ m) (combinations k cs))
      (combinations (suc k) cs)
      (All-map_to (IsPart k cs) (IsPart (suc k) (c ∷ cs)) (λ m. c ∷ m) (combinations k cs)
        (λ m h. (keep c h.0, omega arith)) (combinations-IsPart k cs))
      (All-map (IsPart (suc k) cs) (IsPart (suc k) (c ∷ cs)) (combinations (suc k) cs)
        (λ m h. (skip c h.0, h.1)) (combinations-IsPart (suc k) cs))

combinations_from-IsProper :
    (size count : ℕ) (cs : Mask)
    → 1 ≤ size
    → size + count ≤ length cs
    → All (IsProper cs) (combinations_from size count cs)
unfolding combinations_from
combinations_from-IsProper size zero cs a b = tt
combinations_from-IsProper size (suc count) cs a b =
    All-append (IsProper cs) (combinations size cs) (combinations_from (suc size) count cs)
      (All-map (IsPart size cs) (IsProper cs) (combinations size cs)
        (λ m h. (h.0, omega arith, omega arith)) (combinations-IsPart size cs))
      (combinations_from-IsProper (suc size) count cs (omega arith) (omega arith))

pub proper_masks-IsProper : (cs : Mask) → All (IsProper cs) (proper_masks cs)
unfolding proper_masks combinations_from
proper_masks-IsProper [] = tt
proper_masks-IsProper (c ∷ cs) =
    combinations_from-IsProper 1 (length (c ∷ cs) - 1) (c ∷ cs) (omega arith) (omega arith)

pub All-Listed : {A : Type 0} (xs : List A) → All (λ x. Listed x xs) xs
All-Listed [] = tt
All-Listed (x ∷ xs) = (
  inl refl,
  All-map (λ y. Listed y xs) (λ y. Listed y (x ∷ xs)) xs (λ y h. inr h) (All-Listed xs),
)

-- The cells ascend, as those of a candidate record do.
abbrev pub IsAscending : Mask → Type 0
IsAscending [] = Unit
IsAscending (c ∷ cs) = All (λ d. cell_order c d ≡ Ordering.lt) cs × IsAscending cs

pub Sub-IsAscending : {m cs : Mask} → Sub m cs → IsAscending cs → IsAscending m
Sub-IsAscending done a = tt
Sub-IsAscending (skip c h) a = Sub-IsAscending h a.1
Sub-IsAscending (keep c h) a =
    (Sub-All (λ d. cell_order c d ≡ Ordering.lt) h a.0, Sub-IsAscending h a.1)

insert_cell-first :
    (c : Cell) (cs : Mask) → All (λ d. cell_order c d ≡ Ordering.lt) cs → insert_cell c cs ≡ c ∷ cs
unfolding insert_cell
insert_cell-first c [] h = refl
insert_cell-first c (d ∷ ds) h = ground arith

pub sorted_cells-IsAscending : (cs : Mask) → IsAscending cs → sorted_cells cs ≡ cs
unfolding sorted_cells
sorted_cells-IsAscending [] a = refl
sorted_cells-IsAscending (c ∷ cs) a =
    rw (sorted_cells-IsAscending cs a.1) (insert_cell-first c cs a.0)
