-- ===== src/Representations/Subsets.antt =====
-- `itertools.combinations` over the cells of a candidate, for `refine` of
-- src/qste/representations/stft.py: how many masks it makes.
use Prim.Native.Nat.{◌^◌}
use native.Mathlib.Nat.{pow-suc}
use qste.Base.{
  ℕ, suc, zero, List, [], ◌∷◌, ◌+◌, ◌-◌, ◌≤◌, ◌<◌, ◌≡◌, refl, map, length, length-append, arith,
}
use qste.Representations.Cells.{Cell}
use qste.Representations.Refinement.{Mask, combinations, combinations_from, proper_masks}

module _ {ℓ κ} {A : Type ℓ} {B : Type κ} where
  length-map : (f : A → B) (xs : List A) → length (map f xs) ≡ length xs
  length-map f [] = refl
  length-map f (x ∷ xs) = omega (arith, length-map f xs)

length-combinations_cons :
    (k : ℕ) (c : Cell) (cs : Mask)
    → length (combinations (suc k) (c ∷ cs))
      ≡ length (combinations k cs) + length (combinations (suc k) cs)
unfolding combinations
length-combinations_cons k c cs = omega (
  arith,
  length-append (map (λ m. c ∷ m) (combinations k cs)) (combinations (suc k) cs),
  length-map (λ m. c ∷ m) (combinations k cs),
)

no_combinations : (k : ℕ) (cs : Mask) → length cs < k → length (combinations k cs) ≡ 0
unfolding combinations
no_combinations zero cs h = absurd (omega arith)
no_combinations (suc k) [] h = refl
no_combinations (suc k) (c ∷ cs) h = omega (
  arith,
  length-combinations_cons k c cs,
  no_combinations k cs (omega arith),
  no_combinations (suc k) cs (omega arith),
)

one_combination : (cs : Mask) → length (combinations (length cs) cs) ≡ 1
unfolding combinations
one_combination [] = refl
one_combination (c ∷ cs) = omega (
  arith,
  length-combinations_cons (length cs) c cs,
  one_combination cs,
  no_combinations (suc (length cs)) cs (omega arith),
)

one_combination_from_zero : (cs : Mask) → length (combinations 0 cs) ≡ 1
unfolding combinations
one_combination_from_zero cs = refl

-- The number of combinations of `count` sizes from `size` on.
abbrev total : ℕ → ℕ → Mask → ℕ
total size count cs = length (combinations_from size count cs)

total_none : (size : ℕ) (cs : Mask) → total size 0 cs ≡ 0
unfolding combinations_from
total_none size cs = refl

total_step :
    (size count : ℕ) (cs : Mask)
    → total size (suc count) cs ≡ length (combinations size cs) + total (suc size) count cs
unfolding combinations_from
total_step size count cs =
    length-append (combinations size cs) (combinations_from (suc size) count cs)

total_last :
    (size count end : ℕ) (cs : Mask)
    → size + count ≡ end
    → total size (suc count) cs ≡ total size count cs + length (combinations end cs)
unfolding combinations_from
total_last size zero end cs h =
    let same : end ≡ size = omega arith in
    rw same (omega (arith, total_step size zero cs, total_none size cs))
total_last size (suc count) end cs h = omega (
  arith,
  total_step size (suc count) cs,
  total_step size count cs,
  total_last (suc size) count end cs (omega arith),
)

total_cons :
    (size count : ℕ) (c : Cell) (cs : Mask)
    → total (suc size) count (c ∷ cs) ≡ total size count cs + total (suc size) count cs
unfolding combinations_from
total_cons size zero c cs = refl
total_cons size (suc count) c cs = omega (
  arith,
  total_step (suc size) count (c ∷ cs),
  total_step size count cs,
  total_step (suc size) count cs,
  length-combinations_cons size c cs,
  total_cons (suc size) count c cs,
)

two_pow_suc : (n : ℕ) → 2 ^ suc n ≡ 2 ^ n + 2 ^ n
two_pow_suc n = omega (arith, pow-suc 2 n)

-- All sizes together.
total_all : (cs : Mask) → total 0 (suc (length cs)) cs ≡ 2 ^ length cs
total_all [] = omega (arith, one_combination_from_zero [], total_step 0 0 [], total_none 1 [])
total_all (c ∷ cs) =
    let n = length cs in
    omega (
      arith,
      two_pow_suc n,
      total_all cs,
      one_combination_from_zero (c ∷ cs),
      total_step 0 (suc n) (c ∷ cs),
      total_step 0 n cs,
      total_cons 0 (suc n) c cs,
      total_last 1 n (suc n) cs (omega arith),
      no_combinations (suc n) cs (omega arith),
      one_combination_from_zero cs,
    )

-- The number of proper masks.
pub length-proper_masks : (cs : Mask) → 1 ≤ length cs → length (proper_masks cs) ≡ 2 ^ length cs - 2
unfolding proper_masks
length-proper_masks [] h = absurd (omega arith)
length-proper_masks (c ∷ cs) h =
    let n = length cs in
    let sizes : suc n - 1 ≡ n = omega arith in
    rw sizes (
      omega (
        arith,
        total_all (c ∷ cs),
        total_step 0 (suc n) (c ∷ cs),
        total_last 1 n (suc n) (c ∷ cs) (omega arith),
        one_combination (c ∷ cs),
        one_combination_from_zero (c ∷ cs),
      ))
