-- ===== src/Relations/Sorting.antt =====
-- Sorting and the least element, as Python's `sorted` and `min` find them, for the solutions of the
-- matcher of src/qste/relations/service.py, which are tuples of edges.
use Prim.Native.Nat.{Ordering}
use qste.Base.{String, List, Bool, ◌∷◌, ◌≡◌, arith, [], if◌then◌else◌, true, false, refl}
use qste.Relations.Orders.{flip, edge_order-flip, then_by, edge_order, flip-then_by}

abbrev pub Edge : Type 0
Edge = String × String

unfoldable pub solution_order : List (Edge) → List (Edge) → Ordering
solution_order [] [] = Ordering.eq
solution_order [] (f ∷ fs) = Ordering.lt
solution_order (e ∷ es) [] = Ordering.gt
solution_order (e ∷ es) (f ∷ fs) = then_by (edge_order e f) (solution_order es fs)

abbrev pub is_less : Ordering → Bool
is_less Ordering.lt = true
is_less _ = false

abbrev pub less : List Edge → List Edge → Bool
less a b = is_less (solution_order a b)

unfoldable pub insert_solution : List Edge → List (List Edge) → List (List Edge)
insert_solution s [] = s ∷ []
insert_solution s (t ∷ ts) =
    let rest = insert_solution s ts in if less t s then t ∷ rest else s ∷ t ∷ ts

unfoldable pub sorted_solutions : List (List Edge) → List (List Edge)
sorted_solutions [] = []
sorted_solutions (s ∷ ss) = insert_solution s (sorted_solutions ss)

-- `min` of a solution and the others.
unfoldable pub least : List Edge → List (List Edge) → List Edge
least s [] = s
least s (t ∷ ts) = let m = least t ts in if less m s then m else s

solution_order-flip : (es fs : List (Edge)) → solution_order fs es ≡ flip (solution_order es fs)
unfolding solution_order
solution_order-flip [] [] = refl
solution_order-flip [] (f ∷ fs) = refl
solution_order-flip (e ∷ es) [] = refl
solution_order-flip (e ∷ es) (f ∷ fs) =
    let p = edge_order-flip e f in
    let q = solution_order-flip es fs in
    let r = flip-then_by (edge_order e f) (solution_order es fs) in cc

less_asym : (s t : List Edge) → less s t ≡ true → less t s ≡ false
less_asym s t h = let p = solution_order-flip s t in ground arith

-- No solution is less than the one before it.
unfoldable pub IsSorted : List (List Edge) → Type 0
IsSorted [] = Unit
IsSorted (s ∷ []) = Unit
IsSorted (s ∷ t ∷ ts) = (less t s ≡ false) × IsSorted (t ∷ ts)

insert_solution-IsSorted :
    (s : List Edge) (ts : List (List Edge)) → IsSorted ts → IsSorted (insert_solution s ts)
unfolding IsSorted insert_solution
insert_solution-IsSorted s [] h = tt
insert_solution-IsSorted s (t ∷ []) h = let a = less_asym t s in ground arith
insert_solution-IsSorted s (t ∷ u ∷ ts) h =
    let a = less_asym t s in let ih = insert_solution-IsSorted s (u ∷ ts) h.1 in ground arith

pub sorted_solutions-IsSorted : (ss : List (List Edge)) → IsSorted (sorted_solutions ss)
unfolding sorted_solutions IsSorted
sorted_solutions-IsSorted [] = tt
sorted_solutions-IsSorted (s ∷ ss) =
    insert_solution-IsSorted s (sorted_solutions ss) (sorted_solutions-IsSorted ss)

-- The first of a sorted list is the least.
pub least-IsSorted : (s : List Edge) (ss : List (List Edge)) → IsSorted (s ∷ ss) → least s ss ≡ s
unfolding IsSorted least
least-IsSorted s [] h = refl
least-IsSorted s (t ∷ ts) h = let ih = least-IsSorted t ts h.1 in ground arith
