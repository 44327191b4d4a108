-- ===== src/Relations/Offers.antt =====
-- The matcher of src/qste/relations/service.py chooses among the pairs that it is given, and these are
-- pairs of the two sides.
use Prim.Native.Nat.{◌^◌}
use qste.Base.{
  raise_if, not, internal_error, all, String, List, All, ◌≡◌, map, true, Ensures, Ensures-if,
  select, ℕ, ◌∷◌, ltb, Ensures-bind, Ensures-then, Ensures-raise_if, ok, length, arith,
  Ensures-first, [], All-selected, ◌++◌, All-append, ◌==◌, Ensures-weaken, ◌||◌, conformance_failed,
  Ensures-always,
}
use qste.Quanta.Intervals.{Floats}
use qste.Relations.Arms.{
  pair_row, pair_rows, can_cover, PairEvidence, Arms, is_eligible_pair, declared, offered,
}
use qste.Relations.Matching.{
  Arithmetic, Contract, Eligible, best_of, certified, verify_solution, exact_match,
  verify_matching_certificate, in_pairs, verify_solutions, optimum_of, survivors_of, primary,
  edge_count, sorted_edges,
}
use qste.Relations.Decomposition.{in_edges, Part}
use qste.Relations.Pairs.{Thresholds, pair_state}
use qste.Relations.Origins.{HasEnds}
use qste.Relations.Assertions.{Matching, complete, budget_exhausted}
use qste.Relations.Insides.{IsOffered, All-in_edges}
use qste.Representations.Masks.{All-map_to}

all-of_pairs :
    (P : String × String → Type 0) (pairs s : List (String × String))
    → all (λ e. in_edges e pairs) s ≡ true
    → All P pairs
    → All P s
all-of_pairs P pairs [] h k = tt
all-of_pairs P pairs (e ∷ s) h k =
    (All-in_edges P e pairs (ground arith) k, all-of_pairs P pairs s (ground arith) k)

module _ (N : Floats) (A : Arithmetic N) (contract : Contract N) (g : Eligible N) where
  verify_solution-in_pairs :
      (optimum : N.Float) (expected : ℕ) (s : List (String × String))
      → Ensures
          (λ _. all (in_pairs N g) s ≡ true)
          (verify_solution N A contract g optimum expected s)
  unfolding verify_solution
  verify_solution-in_pairs optimum expected s =
      Ensures-raise_if (λ _. all (in_pairs N g) s ≡ true)
        (not (length s == expected) || not (all (in_pairs N g) s)) conformance_failed _
        (λ b. Ensures-always (all (in_pairs N g) s ≡ true) _ (ground arith))

  -- The representative of a certified result is made of eligible pairs.
  Chosen : Matching → Type 0
  Chosen budget_exhausted = Unit
  Chosen (complete survivors es) = all (in_pairs N g) es ≡ true

  certified-Chosen :
      (optimum : N.Float) (ss : List (List (String × String)))
      → Ensures Chosen (certified N A contract g optimum ss)
  unfolding certified Chosen verify_matching_certificate verify_solutions
  certified-Chosen optimum [] = tt
  certified-Chosen optimum (s ∷ ss) =
      Ensures-bind (λ _. all (in_pairs N g) s ≡ true) Chosen
        (verify_matching_certificate N A contract g optimum (s ∷ ss) s) _
        (Ensures-first (all (in_pairs N g) s ≡ true)
          (verify_solutions N A contract g optimum (edge_count N contract (s ∷ ss)) (s ∷ ss)) _
          (Ensures-first (all (in_pairs N g) s ≡ true)
            (verify_solution N A contract g optimum (edge_count N contract (s ∷ ss)) s) _
            (verify_solution-in_pairs optimum (edge_count N contract (s ∷ ss)) s)))
        (λ _ h. h)

  best_of-Chosen :
      (ss : List (N.Float × List (String × String))) → Ensures Chosen (best_of N A contract g ss)
  unfolding best_of
  best_of-Chosen [] = tt
  best_of-Chosen (s ∷ ss) =
      certified-Chosen (optimum_of N s.0 ss)
        (survivors_of N contract (primary N A contract (optimum_of N s.0 ss) (s ∷ ss)))

  exact_match-Chosen : Ensures Chosen (exact_match N A contract g)
  unfolding exact_match Chosen
  exact_match-Chosen =
      Ensures-if Chosen
        (ltb contract.maximum_edges (length (sorted_edges g.pairs))
          || ltb contract.maximum_subsets (2 ^ length (sorted_edges g.pairs)))
        _ _ (λ _. tt) (λ _. best_of-Chosen _)

module _ (N : Floats) (P Q : String → Type 0) where
  abbrev pub IsPairOf : PairEvidence → Type 0
  IsPairOf p = P p.source_id × Q p.target_id

  pair_row-IsPairOf :
      (g : Arms N) (c : Thresholds N) (s : String) (ts : List String)
      → P s
      → All Q ts
      → Ensures (All IsPairOf) (pair_row N g c s ts)
  unfolding pair_row
  pair_row-IsPairOf g c s [] h k = tt
  pair_row-IsPairOf g c s (t ∷ ts) h k =
      Ensures-then (All IsPairOf)
        (pair_state N c (g.controls_of s t) (g.status_of s) (g.status_of t) (g.measured_of s t)) _
        (λ state.
          Ensures-then (All IsPairOf) (raise_if (not (can_cover N g s t)) internal_error) _ (λ _.
            Ensures-bind (All IsPairOf) (All IsPairOf) (pair_row N g c s ts) _
              (pair_row-IsPairOf g c s ts h k.1) (λ rest i. ((h, k.0), i))))

  pub pair_rows-IsPairOf :
      (g : Arms N) (c : Thresholds N) (ss ts : List String)
      → All P ss
      → All Q ts
      → Ensures (All IsPairOf) (pair_rows N g c ss ts)
  unfolding pair_rows
  pair_rows-IsPairOf g c [] ts h k = tt
  pair_rows-IsPairOf g c (s ∷ ss) ts h k =
      Ensures-bind (All IsPairOf) (All IsPairOf) (pair_row N g c s ts) _
        (pair_row-IsPairOf g c s ts h.0 k)
        (λ row i.
          Ensures-bind (All IsPairOf) (All IsPairOf) (pair_rows N g c ss ts)
            (λ rest. ok (row ++ rest)) (pair_rows-IsPairOf g c ss ts h.1 k)
            (λ rest j. All-append IsPairOf row rest i j))

  All-offered :
      (pairs : List PairEvidence)
      → All IsPairOf pairs
      → All (HasEnds P Q) (map (λ p. (p.source_id, p.target_id)) (select is_eligible_pair pairs))
  All-offered pairs h =
      All-map_to IsPairOf (HasEnds P Q) (λ p. (p.source_id, p.target_id))
        (select is_eligible_pair pairs) (λ p i. i) (All-selected IsPairOf is_eligible_pair pairs h)

  Chosen-IsOffered :
      (A : Arithmetic N) (contract : Contract N) (g : Eligible N) (m : Matching)
      → All (HasEnds P Q) g.pairs
      → Chosen N A contract g m
      → IsOffered P Q m
  unfolding Chosen
  Chosen-IsOffered A contract g budget_exhausted h k = tt
  Chosen-IsOffered A contract g (complete survivors es) h k =
      all-of_pairs (HasEnds P Q) g.pairs es k h

  -- The matching of the pairs of two sides has edges between these sides.
  pub offered-IsOffered :
      (A : Arithmetic N) (contract : Contract N) (decompositions : List (List Part)) (g : Arms N)
      (pairs : List PairEvidence)
      → All IsPairOf pairs
      → Ensures
          (IsOffered P Q)
          (exact_match N A (declared N contract decompositions) (offered N g pairs))
  offered-IsOffered A contract decompositions g pairs i =
      Ensures-weaken (Chosen N A (declared N contract decompositions) (offered N g pairs)) _
        (exact_match N A (declared N contract decompositions) (offered N g pairs))
        (exact_match-Chosen N A (declared N contract decompositions) (offered N g pairs))
        (λ m j.
          Chosen-IsOffered A (declared N contract decompositions) (offered N g pairs) m
            (All-offered pairs i) j)
