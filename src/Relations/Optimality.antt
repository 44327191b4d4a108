-- ===== src/Relations/Optimality.antt =====
-- The exhaustive search of `_exact_match` (src/qste/relations/service.py): every subset of the
-- eligible pairs is looked at, and the optimum is the least objective of those that are feasible.
use Prim.Native.Nat.pow
use Prim.Native.Nat.{suc, zero, ◌/◌, ◌%◌, ◌^◌}
use qste.Base.{
  ℕ, ◌+◌, ◌*◌, ◌<◌, ◌≤◌, Bool, ◌≡◌, List, arith, ◌∷◌, select, length, Bool-cases, [], if◌then◌else◌,
  inl, inr, refl, All, true, false, any, ◌==◌, subst, sym, All-map,
}
use qste.Quanta.Intervals.{Floats}
use qste.Relations.Sorting.{Edge}
use qste.Relations.Matching.{
  chosen, solutions_from, optimum_of, Arithmetic, Contract, Eligible, is_feasible, objective,
}

half_odd : (m : ℕ) → (1 + 2 * m) / 2 ≡ m
half_odd m = omega arith

half_even : (m : ℕ) → (2 * m) / 2 ≡ m
half_even m = omega arith

odd : (m : ℕ) → (1 + 2 * m) % 2 ≡ 1
odd m = omega arith

even : (m : ℕ) → (2 * m) % 2 ≡ 0
even m = omega arith

-- The mask that chooses the edges with a property.
unfoldable pub mask_of : (Edge → Bool) → List Edge → ℕ
mask_of p [] = 0
mask_of p (e ∷ es) = if p e then 1 + 2 * mask_of p es else 2 * mask_of p es

pub chosen-mask_of : (p : Edge → Bool) (es : List Edge) → chosen es (mask_of p es) ≡ select p es
unfolding chosen mask_of
chosen-mask_of p [] = refl
chosen-mask_of p (e ∷ es) =
    let ih = chosen-mask_of p es in
    let m = mask_of p es in
    elim (Bool-cases (p e)) [
      | inl h ↦ rw (h, half_odd m, odd m, ih) refl
      | inr h ↦ rw (h, half_even m, even m, ih) refl
    ]

pub mask_of-bound : (p : Edge → Bool) (es : List Edge) → mask_of p es < 2 ^ length es
unfolding mask_of
mask_of-bound p [] = omega arith
mask_of-bound p (e ∷ es) =
    let ih = mask_of-bound p es in
    let q : 2 ^ suc (length es) ≡ 2 ^ length es * 2 = pow.suc 2 (length es) in ground arith

-- The laws of the order of floats that are finite.
pub record IsLinear (N : Floats) : Type 0 where
  pub ltb_asym : (a b : N.Float) → N.ltb a b ≡ true → N.ltb b a ≡ false
  pub not_ltb_trans :
      (a b c : N.Float)
      → N.is_finite b ≡ true
      → N.ltb b a ≡ false
      → N.ltb c b ≡ false
      → N.ltb c a ≡ false

module _ (N : Floats) where
  -- The enumeration keeps a feasible choice with its objective.
  pub kept :
      (A : Arithmetic N) (c : Contract N) (g : Eligible N) (es : List Edge) (count mask m : ℕ)
      (p : N.Float × List Edge → Bool)
      → mask ≤ m
      → m < mask + count
      → is_feasible N c g (chosen es m) ≡ true
      → p (objective N A c g (chosen es m), chosen es m) ≡ true
      → any p (solutions_from N A c g es count mask) ≡ true
  unfolding solutions_from
  kept A c g es zero mask m p lo hi f h = absurd (omega (arith, lo, hi))
  kept A c g es (suc count) mask m p lo hi f h = elim (Bool-cases (m == mask)) [
    | inl e ↦
        let q : m ≡ mask = ground arith in
        let fm = subst (λ k. is_feasible N c g (chosen es k) ≡ true) q f in
        let hm = subst (λ k. p (objective N A c g (chosen es k), chosen es k) ≡ true) q h in
        rw (fm, hm) refl
    | inr e ↦
        let ih = kept A c g es count (suc mask) m p (ground arith) (ground arith) f h in
        ground arith
  ]

  -- What is below no objective.
  unfoldable pub IsMinimal : N.Float → List (N.Float × List Edge) → Type 0
  IsMinimal opt ss = All (λ s. N.ltb s.0 opt ≡ false) ss

  irreflexive : IsLinear N → (b : N.Float) → N.ltb b b ≡ false
  irreflexive laws b = elim (Bool-cases (N.ltb b b)) [ inl e ↦ laws.ltb_asym b b e | inr e ↦ e ]

  if_true : (t : Bool) (x y : N.Float) → t ≡ true → (if t then x else y) ≡ x
  if_true t x y e = rw e refl

  if_false : (t : Bool) (x y : N.Float) → t ≡ false → (if t then x else y) ≡ y
  if_false t x y e = rw e refl

  pub optimum-IsMinimal :
      IsLinear N
      → (b : N.Float) (ss : List (N.Float × List Edge)) → N.is_finite b ≡ true
      → All (λ s. N.is_finite s.0 ≡ true) ss
      → (N.is_finite (optimum_of N b ss) ≡ true) × IsMinimal (optimum_of N b ss) ((b, []) ∷ ss)
  unfolding optimum_of IsMinimal
  optimum-IsMinimal laws b [] f h = (f, (irreflexive laws b, tt))
  optimum-IsMinimal laws b (s ∷ ss) f h =
      let ih = optimum-IsMinimal laws s.0 ss h.0 h.1 in
      let rest = optimum_of N s.0 ss in
      elim (Bool-cases (N.ltb rest b)) [
        | inl e ↦
            subst (λ o. (N.is_finite o ≡ true) × IsMinimal o ((b, []) ∷ s ∷ ss))
              (sym (if_true (N.ltb rest b) rest b e)) (ih.0, (laws.ltb_asym rest b e, ih.1))
        | inr e ↦
            subst (λ o. (N.is_finite o ≡ true) × IsMinimal o ((b, []) ∷ s ∷ ss))
              (sym (if_false (N.ltb rest b) rest b e))
              (
                f,
                (
                  irreflexive laws b,
                  All-map (λ t. N.ltb t.0 rest ≡ false) (λ t. N.ltb t.0 b ≡ false) (s ∷ ss)
                      (λ t k. laws.not_ltb_trans b rest t.0 ih.0 e k) ih.1,
                ),
              )
      ]
