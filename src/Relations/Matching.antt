-- ===== src/Relations/Matching.antt =====
-- `_exact_match` and `_verify_matching_certificate` of src/qste/relations/service.py: the search of all
-- subsets of the eligible edges. A subset is chosen by the bits of a mask, as in the source. Python's
-- `sum` of floats, the sum of two and the product with an integer are the parameter `Arithmetic`.
use Prim.Native.Nat.{◌/◌, ◌%◌, ◌^◌, suc, zero}
use qste.Base.{
  ℕ, List, String, map, [], Bool, ◌∷◌, length, ◌+◌, if◌then◌else◌, all, ◌&&◌, leb, str_eq, ◌==◌,
  not, contains, ltb, ◌||◌, none, true, select, Result, ◌>>◌, false, ok, err, some, raise_if,
  invalid_comparison_spec, conformance_failed, internal_error, any,
}
use qste.Relations.Components.{components}
use qste.Relations.Sorting.{Edge, is_less, sorted_solutions, least}
use qste.Quanta.Intervals.{Floats}
use qste.Relations.Decomposition.{in_edges, edge_eq}
use qste.Relations.Assertions.{Matching, budget_exhausted, complete}
use qste.Relations.Orders.{edge_order}

pub record Arithmetic (N : Floats) : Type 0 where
  pub sum : List N.Float → N.Float
  pub add : N.Float → N.Float → N.Float
  pub times : N.Float → ℕ → N.Float

-- The members of the comparison that the matcher reads.
pub record Contract (N : Floats) : Type 0 where
  pub maximum_edges : ℕ
  pub maximum_subsets : ℕ
  pub source_default : ℕ
  pub target_default : ℕ
  pub source_overrides : List (String × ℕ)
  pub target_overrides : List (String × ℕ)
  pub maximum_n : ℕ
  pub unmatched_penalty : N.Float
  pub optimization_tolerance : N.Float
  pub cardinality_preference : String
  pub cardinalities : List String
  pub has_decompositions : Bool

-- The two sides, and the eligible pairs with their costs.
pub record Eligible (N : Floats) : Type 0 where
  pub source_ids : List String
  pub target_ids : List String
  pub pairs : List Edge
  pub cost : Edge → N.Float

-- `overrides.get(value, default)`
unfoldable pub override : List (String × ℕ) → ℕ → String → ℕ
override [] default id = default
override ((key, n) ∷ rest) default id =
    let later = override rest default id in if str_eq key id then n else later

-- The number of chosen edges at a source, and at a target.
unfoldable pub source_degree : List Edge → String → ℕ
source_degree [] id = 0
source_degree (e ∷ es) id = (if str_eq e.0 id then 1 else 0) + source_degree es id

unfoldable pub target_degree : List Edge → String → ℕ
target_degree [] id = 0
target_degree (e ∷ es) id = (if str_eq e.1 id then 1 else 0) + target_degree es id

-- `sum(value == 0 for value in degree.values())`
unfoldable pub count_zero : (String → ℕ) → List String → ℕ
count_zero degree [] = 0
count_zero degree (id ∷ ids) = (if degree id == 0 then 1 else 0) + count_zero degree ids

unfoldable pub insert_edge_sorted : Edge → List Edge → List Edge
insert_edge_sorted e [] = e ∷ []
insert_edge_sorted e (f ∷ fs) =
    let rest = insert_edge_sorted e fs in if is_less (edge_order f e) then f ∷ rest else e ∷ f ∷ fs

unfoldable pub sorted_edges : List Edge → List Edge
sorted_edges [] = []
sorted_edges (e ∷ es) = insert_edge_sorted e (sorted_edges es)

-- `edges[index] for index in range(len(edges)) if mask & (1 << index)`
unfoldable pub chosen : List Edge → ℕ → List Edge
chosen [] mask = []
chosen (e ∷ es) mask = let rest = chosen es (mask / 2) in if mask % 2 == 1 then e ∷ rest else rest

-- `min(len(value[1]) for value in primary)`, or `max` where more edges are preferred.
unfoldable pub extreme : Bool → ℕ → List (List Edge) → ℕ
extreme fewer n [] = n
extreme fewer n (s ∷ ss) =
    let rest = extreme fewer (length s) ss in
    if fewer then (if ltb rest n then rest else n) else (if ltb n rest then rest else n)

abbrev pub has_length : ℕ → List Edge → Bool
has_length n s = length s == n

-- Two solutions are equal.
unfoldable pub solution_eq : List Edge → List Edge → Bool
solution_eq [] [] = true
solution_eq (e ∷ es) (f ∷ fs) = edge_eq e f && solution_eq es fs
solution_eq _ _ = false

-- `solution in solutions`
abbrev pub in_solutions : List Edge → List (List Edge) → Bool
in_solutions s ss = any (solution_eq s) ss

module _ (N : Floats) where
  -- The tests of `_cardinalities_permit` on one component.
  unfoldable pub component_permitted : Contract N → List String × List String → Bool
  component_permitted c (ss, ts) =
      let one_source = length ss == 1 in
      let one_target = length ts == 1 in
      not (one_source && one_target && not (contains "1:1" c.cardinalities))
      && not (
          one_source
          && ltb 1 (length ts)
          && (not (contains "1:n" c.cardinalities) || ltb c.maximum_n (length ts)))
      && not (
          ltb 1 (length ss)
          && one_target
          && (not (contains "n:1" c.cardinalities) || ltb c.maximum_n (length ss)))
      && not (ltb 1 (length ss) && ltb 1 (length ts) && not c.has_decompositions)

  -- `_cardinalities_permit`
  unfoldable pub cardinalities_permit : Contract N → List Edge → Bool
  cardinalities_permit c selected = elim (components selected) [
    | none ↦ false
    | some ks ↦ all (component_permitted c) ks
  ]

  -- No unit has more edges than its capacity.
  unfoldable pub within_capacities : Contract N → Eligible N → List Edge → Bool
  within_capacities c g selected =
      all (λ id. leb (source_degree selected id) (override c.source_overrides c.source_default id))
        g.source_ids
      && all
          (λ id. leb (target_degree selected id) (override c.target_overrides c.target_default id))
          g.target_ids

  unfoldable pub is_feasible : Contract N → Eligible N → List Edge → Bool
  is_feasible c g selected = within_capacities c g selected && cardinalities_permit c selected

  unfoldable pub objective : Arithmetic N → Contract N → Eligible N → List Edge → N.Float
  objective A c g selected = A.add (A.sum (map g.cost selected)) (
      A.times c.unmatched_penalty (
        count_zero (source_degree selected) g.source_ids
        + count_zero (target_degree selected) g.target_ids))

  -- The loop over the masks: the feasible subsets with their objectives.
  unfoldable pub solutions_from :
      Arithmetic N → Contract N → Eligible N → List Edge → ℕ → ℕ → List (N.Float × List Edge)
  solutions_from A c g edges zero mask = []
  solutions_from A c g edges (suc count) mask =
      let rest = solutions_from A c g edges count (suc mask) in
      let selected = chosen edges mask in
      if is_feasible c g selected then (objective A c g selected, selected) ∷ rest else rest

  -- `min(value[0] for value in solutions)`, of a solution and the others.
  unfoldable pub optimum_of : N.Float → List (N.Float × List Edge) → N.Float
  optimum_of best [] = best
  optimum_of best (s ∷ ss) = let rest = optimum_of s.0 ss in if N.ltb rest best then rest else best

  unfoldable pub edge_count : Contract N → List (List Edge) → ℕ
  edge_count c [] = 0
  edge_count c (s ∷ ss) = extreme (str_eq c.cardinality_preference "fewer_edges") (length s) ss

  abbrev pub within : Arithmetic N → Contract N → N.Float → N.Float × List Edge → Bool
  within A c optimum s = N.leb s.0 (A.add optimum c.optimization_tolerance)

  -- The solutions within the tolerance of the optimum.
  abbrev pub primary :
      Arithmetic N → Contract N → N.Float → List (N.Float × List Edge) → List (List Edge)
  primary A c optimum solutions = map (λ s. s.1) (select (within A c optimum) solutions)

  unfoldable pub survivors_of : Contract N → List (List Edge) → List (List Edge)
  survivors_of c found = sorted_solutions (select (has_length (edge_count c found)) found)

  abbrev pub in_pairs : Eligible N → Edge → Bool
  in_pairs g e = in_edges e g.pairs

  -- The loop of `_verify_matching_certificate` on one surviving solution.
  unfoldable pub verify_solution :
      Arithmetic N → Contract N → Eligible N → N.Float → ℕ → List Edge → Result (Unit {0})
  verify_solution A c g optimum expected s = do
    raise_if (not (length s == expected) || not (all (in_pairs g) s)) conformance_failed
    raise_if (not (within_capacities c g s)) conformance_failed
    raise_if (not (cardinalities_permit c s)) conformance_failed
    raise_if (N.ltb (A.add optimum c.optimization_tolerance) (objective A c g s)) conformance_failed

  unfoldable pub verify_solutions :
      Arithmetic N → Contract N → Eligible N → N.Float → ℕ → List (List Edge) → Result (Unit {0})
  verify_solutions A c g optimum expected [] = ok tt
  verify_solutions A c g optimum expected (s ∷ ss) =
      verify_solution A c g optimum expected s >> verify_solutions A c g optimum expected ss

  -- `_verify_matching_certificate` of a complete result.
  unfoldable pub verify_matching_certificate :
      Arithmetic N
      → Contract N
      → Eligible N
      → N.Float
      → List (List Edge)
      → List Edge
      → Result (Unit {0})
  verify_matching_certificate A c g optimum [] representative = err conformance_failed
  verify_matching_certificate A c g optimum (s ∷ ss) representative = do
    verify_solutions A c g optimum (edge_count c (s ∷ ss)) (s ∷ ss)
    raise_if (not (solution_eq representative (least s ss))) conformance_failed

  -- The survivors, the first of which represents them, once the certificate has passed.
  unfoldable pub certified :
      Arithmetic N → Contract N → Eligible N → N.Float → List (List Edge) → Result Matching
  certified A c g optimum [] = err internal_error
  certified A c g optimum (s ∷ ss) = do
    verify_matching_certificate A c g optimum (s ∷ ss) s
    ok (complete (s ∷ ss) s)

  unfoldable pub best_of :
      Arithmetic N → Contract N → Eligible N → List (N.Float × List Edge) → Result Matching
  best_of A c g [] = err invalid_comparison_spec
  best_of A c g (s ∷ ss) =
      let optimum = optimum_of s.0 ss in
      certified A c g optimum (survivors_of c (primary A c optimum (s ∷ ss)))

  -- `_exact_match`
  unfoldable pub exact_match : Arithmetic N → Contract N → Eligible N → Result Matching
  exact_match A c g =
      let edges = sorted_edges g.pairs in
      let required = 2 ^ length edges in
      if ltb c.maximum_edges (length edges) || ltb c.maximum_subsets required
      then ok budget_exhausted
      else best_of A c g (solutions_from A c g edges required 0)
