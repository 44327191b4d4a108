-- ===== src/Relations/Orders.antt =====
-- The orders that the matcher of src/qste/relations/service.py sorts edges by: texts, and pairs of texts,
-- as Python compares texts and tuples.
use Prim.Native.Nat.{Ordering, compare as compare_ℕ}
use Prim.Native.Char.{code}
use Prim.Native.String.{String, [], ◌∷◌, then, compare}
use Prim.Native.String.compare as compare_clauses
use qste.Base.{ℕ, ◌≡◌, arith, refl}

abbrev pub flip : Ordering → Ordering
flip Ordering.lt = Ordering.gt
flip Ordering.eq = Ordering.eq
flip Ordering.gt = Ordering.lt

-- The first part decides, and the second where it does not.
abbrev pub then_by : Ordering → Ordering → Ordering
then_by Ordering.lt o = Ordering.lt
then_by Ordering.eq o = o
then_by Ordering.gt o = Ordering.gt

pub flip-then_by : (a b : Ordering) → flip (then_by a b) ≡ then_by (flip a) (flip b)
flip-then_by Ordering.lt b = refl
flip-then_by Ordering.eq b = refl
flip-then_by Ordering.gt b = refl

flip-then : (a b : Ordering) → flip (then a b) ≡ then (flip a) (flip b)
flip-then Ordering.lt b = refl
flip-then Ordering.eq b = refl
flip-then Ordering.gt b = refl

compare_ℕ-flip : (m n : ℕ) → compare_ℕ n m ≡ flip (compare_ℕ m n)
compare_ℕ-flip m n = ground arith

compare-flip : (s t : String) → compare t s ≡ flip (compare s t)
compare-flip [] [] = refl
compare-flip [] (d ∷ t) =
    let p = compare_clauses.nil-cons d t in let q = compare_clauses.cons-nil d t in cc
compare-flip (c ∷ s) [] =
    let p = compare_clauses.nil-cons c s in let q = compare_clauses.cons-nil c s in cc
compare-flip (c ∷ s) (d ∷ t) =
    let p = compare_clauses.cons-cons c d s t in
    let q = compare_clauses.cons-cons d c t s in
    let a = compare_ℕ-flip (code c) (code d) in
    let ih = compare-flip s t in let r = flip-then (compare_ℕ (code c) (code d)) (compare s t) in cc

unfoldable pub edge_order : String × String → String × String → Ordering
edge_order a b = then_by (compare a.0 b.0) (compare a.1 b.1)

pub edge_order-flip : (a b : String × String) → edge_order b a ≡ flip (edge_order a b)
unfolding edge_order
edge_order-flip a b =
    let p = compare-flip a.0 b.0 in
    let q = compare-flip a.1 b.1 in let r = flip-then_by (compare a.0 b.0) (compare a.1 b.1) in cc
