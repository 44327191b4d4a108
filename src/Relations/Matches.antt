-- ===== src/Relations/Matches.antt =====
-- What `_exact_match` of src/qste/relations/service.py returns: the budgets, the optimum and the
-- certificate together.
use Prim.Native.Nat.{◌^◌}
use qste.Base.{
  ℕ, List, ◌≡◌, Bool, All, false, ltb, true, length, Answers, select, ◌||◌, any, subst, all, ◌∷◌,
  All-map, Bool-cases, arith, sym, [], inl, str_eq, inr, refl, Answers-weaken,
}
use qste.Quanta.Intervals.{Floats, IsOrdered}
use qste.Relations.Sorting.{Edge, sorted_solutions, sorted_solutions-IsSorted}
use qste.Relations.Matching.{
  Contract, Arithmetic, Eligible, is_feasible, solutions_from, objective, sorted_edges, best_of,
  solution_eq, within, certified, survivors_of, primary, edge_count, optimum_of, in_pairs,
  has_length, exact_match,
}
use qste.Relations.Optimality.{
  IsLinear, IsMinimal, chosen-mask_of, mask_of-bound, optimum-IsMinimal, kept, mask_of,
}
use qste.Relations.Assertions.{Matching, complete, budget_exhausted}
use qste.Relations.Certificate.{
  IsSolution, Matches, IsCertified, certified-Matches, solutions_from-IsSolution,
}
use qste.Relations.Selections.{
  is_inhabited, All-select, extreme-attained, solution_eq_refl, sorted_solutions-inhabited,
  select-inhabited, All-sorted_solutions, all-sorted_edges, all-in_edges,
}

module _ (N : Floats) where
  -- The objectives are finite, and a finite number is within the tolerance of itself.
  pub record HasObjectives (A : Arithmetic N) (c : Contract N) (g : Eligible N) : Type 0 where
    pub finite :
        (s : List Edge) → is_feasible N c g s ≡ true → N.is_finite (objective N A c g s) ≡ true
    pub tolerant :
        (x : N.Float) → N.is_finite x ≡ true → N.leb x (A.add x c.optimization_tolerance) ≡ true

  -- The tests of the budget.
  unfoldable pub over_budget : Contract N → Eligible N → Bool
  over_budget c g =
      ltb c.maximum_edges (length (sorted_edges g.pairs))
      || ltb c.maximum_subsets (2 ^ length (sorted_edges g.pairs))

  -- The feasible subsets of the eligible pairs, with their objectives.
  unfoldable pub solutions : Arithmetic N → Contract N → Eligible N → List (N.Float × List Edge)
  solutions A c g =
      solutions_from N A c g (sorted_edges g.pairs) (2 ^ length (sorted_edges g.pairs)) 0

  -- Beyond the budget, or the certified best solutions.
  unfoldable pub Best : Arithmetic N → Contract N → Eligible N → Matching → Type 0
  Best A c g budget_exhausted = over_budget c g ≡ true
  Best A c g (complete survivors representative) =
      (over_budget c g ≡ false)
      × ((optimum : N.Float) × IsMinimal N optimum (solutions A c g)
          × Matches N A c g optimum (complete survivors representative))

  -- Every subset of the eligible pairs that is feasible is among the solutions.
  pub solutions-exhaustive :
      (A : Arithmetic N) (c : Contract N) (g : Eligible N) (p : Edge → Bool)
      → is_feasible N c g (select p (sorted_edges g.pairs)) ≡ true
      → any (λ s. solution_eq (select p (sorted_edges g.pairs)) s.1) (solutions A c g) ≡ true
  unfolding solutions
  solutions-exhaustive A c g p h =
      let edges = sorted_edges g.pairs in
      let e = chosen-mask_of p edges in
      let b = mask_of-bound p edges in
      kept N A c g edges (2 ^ length edges) 0 (mask_of p edges) _ (omega arith) (omega (arith, b))
        (rw e h) (rw e (solution_eq_refl (select p edges)))

  -- A solution within the tolerance.
  abbrev IsPrimary : Arithmetic N → Contract N → Eligible N → N.Float → List Edge → Type 0
  IsPrimary A c g optimum s =
      (all (in_pairs N g) s ≡ true)
      × (is_feasible N c g s ≡ true)
      × (N.leb (objective N A c g s) (A.add optimum c.optimization_tolerance) ≡ true)

  primary-IsPrimary :
      (A : Arithmetic N) (c : Contract N) (g : Eligible N) (optimum : N.Float)
      (ss : List (N.Float × List Edge))
      → All (IsSolution N A c g) ss
      → All (IsPrimary A c g optimum) (primary N A c optimum ss)
  unfolding IsSolution
  primary-IsPrimary A c g optimum [] h = tt
  primary-IsPrimary A c g optimum (s ∷ ss) h =
      let ih = primary-IsPrimary A c g optimum ss h.1 in
      elim (Bool-cases (within N A c optimum s)) [
        | inl e ↦
            let k = subst (λ x. N.leb x (A.add optimum c.optimization_tolerance) ≡ true) h.0.2 e in
            rw e ((h.0.0, h.0.1, k), ih)
        | inr e ↦ rw e ih
      ]

  primary-inhabited :
      (A : Arithmetic N) (c : Contract N) (optimum : N.Float) (ss : List (N.Float × List Edge))
      → any (within N A c optimum) ss ≡ true
      → is_inhabited (primary N A c optimum ss) ≡ true
  primary-inhabited A c optimum [] h = h
  primary-inhabited A c optimum (s ∷ ss) h =
      let ih = primary-inhabited A c optimum ss in
      elim (Bool-cases (within N A c optimum s)) [
        | inl e ↦ rw e refl
        | inr e ↦ rw e (ih (ground arith))
      ]

  edge_count-attained :
      (c : Contract N) (ss : List (List Edge))
      → is_inhabited ss ≡ true
      → any (has_length (edge_count N c ss)) ss ≡ true
  unfolding edge_count
  edge_count-attained c [] h = h
  edge_count-attained c (s ∷ ss) h =
      extreme-attained (str_eq c.cardinality_preference "fewer_edges") s ss

  counted-IsCertified :
      (A : Arithmetic N) (c : Contract N) (g : Eligible N) (optimum : N.Float) (n : ℕ)
      (s : List Edge)
      → IsPrimary A c g optimum s × (has_length n s ≡ true)
      → IsCertified N A c g optimum n s
  unfolding IsCertified
  counted-IsCertified A c g optimum n s h = (h.0.0, h.0.1, h.0.2, ground arith)

  survivors-certified :
      IsOrdered N
      → (A : Arithmetic N) (c : Contract N) (g : Eligible N) (optimum : N.Float)
        (ss : List (N.Float × List Edge))
      → All (IsSolution N A c g) ss
      → any (within N A c optimum) ss ≡ true
      → Answers
          (Matches N A c g optimum)
          true
          (certified N A c g optimum (survivors_of N c (primary N A c optimum ss)))
  unfolding survivors_of
  survivors-certified laws A c g optimum ss h n =
      let found = primary N A c optimum ss in
      let count = edge_count N c found in
      let kept_ones = select (has_length count) found in
      let all_kept =
        All-map (λ s. IsPrimary A c g optimum s × (has_length count s ≡ true))
          (IsCertified N A c g optimum count) kept_ones (counted-IsCertified A c g optimum count)
          (All-select (IsPrimary A c g optimum) (has_length count) found
            (primary-IsPrimary A c g optimum ss h)) in
      certified-Matches N laws A c g optimum count (sorted_solutions kept_ones)
        (sorted_solutions-inhabited kept_ones (
          select-inhabited (has_length count) found
            (edge_count-attained c found (primary-inhabited A c optimum ss n))))
        (sorted_solutions-IsSorted kept_ones)
        (All-sorted_solutions (IsCertified N A c g optimum count) kept_ones all_kept)

  -- The optimum is the objective of a solution.
  optimum-found :
      (p : N.Float → Bool) (b : N.Float) (ss : List (N.Float × List Edge))
      → p (optimum_of N b ss) ≡ true
      → (p b || any (λ s. p s.0) ss) ≡ true
  unfolding optimum_of
  optimum-found p b [] h = ground arith
  optimum-found p b (s ∷ ss) h = let ih = optimum-found p s.0 ss in ground arith

  solutions-finite :
      (A : Arithmetic N) (c : Contract N) (g : Eligible N)
      → HasObjectives A c g
      → (s : N.Float × List Edge) → IsSolution N A c g s
      → N.is_finite s.0 ≡ true
  unfolding IsSolution
  solutions-finite A c g o s h = subst (λ x. N.is_finite x ≡ true) (sym h.2) (o.finite s.1 h.1)

  no_match :
      (A : Arithmetic N) (c : Contract N) (g : Eligible N) (optimum : N.Float)
      → Matches N A c g optimum budget_exhausted
      → ⊥
  unfolding Matches
  no_match A c g optimum h = h

  Matches-Best :
      (A : Arithmetic N) (c : Contract N) (g : Eligible N) (optimum : N.Float)
      → over_budget c g ≡ false
      → IsMinimal N optimum (solutions A c g)
      → (m : Matching) → Matches N A c g optimum m
      → Best A c g m
  unfolding Best
  Matches-Best A c g optimum b minimal budget_exhausted h = absurd (no_match A c g optimum h)
  Matches-Best A c g optimum b minimal (complete survivors representative) h =
      (b, (optimum, minimal, h))

  best_of-Best :
      IsOrdered N
      → IsLinear N
      → (A : Arithmetic N) (c : Contract N) (g : Eligible N) → HasObjectives A c g
      → over_budget c g ≡ false
      → (ss : List (N.Float × List Edge)) → ss ≡ solutions A c g
      → All (IsSolution N A c g) ss
      → Answers (Best A c g) (is_inhabited ss) (best_of N A c g ss)
  unfolding best_of IsMinimal
  best_of-Best laws linear A c g o b [] e h = refl
  best_of-Best laws linear A c g o b (s ∷ ss) e h =
      let optimum = optimum_of N s.0 ss in
      let finite =
        All-map (IsSolution N A c g) (λ t. N.is_finite t.0 ≡ true) (s ∷ ss)
          (solutions-finite A c g o) h in
      let minimal = optimum-IsMinimal N linear s.0 ss finite.0 finite.1 in
      let near =
        optimum-found (λ x. N.leb x (A.add optimum c.optimization_tolerance)) s.0 ss
          (o.tolerant optimum minimal.0) in
      let m = survivors-certified laws A c g optimum (s ∷ ss) h near in
      Answers-weaken (Matches N A c g optimum) (Best A c g) true _ m
        (Matches-Best A c g optimum b (subst (IsMinimal N optimum) e minimal.1))

  -- The matcher, where the floats are ordered, the objectives are finite and the tolerance is not
  -- negative. `_exact_match` returns exactly when the search is over the budget or some subset of the
  -- eligible pairs is feasible. Over the budget it says so. Else there is an optimum that no feasible
  -- subset is below, and every survivor is a feasible set of eligible pairs within the tolerance of
  -- it, as long as the representative, which is a survivor and the least of them; the certificate of
  -- `_verify_matching_certificate` always passes.
  pub exact_match_lem :
      IsOrdered N
      → IsLinear N
      → (A : Arithmetic N) (c : Contract N) (g : Eligible N) → HasObjectives A c g
      → Answers
          (Best A c g)
          (over_budget c g || is_inhabited (solutions A c g))
          (exact_match N A c g)
  unfolding exact_match over_budget solutions Best
  exact_match_lem laws linear A c g o = elim (Bool-cases (over_budget c g)) [
    | inl e ↦ rw e (refl, e)
    | inr e ↦
        let pairs = all-sorted_edges (in_pairs N g) g.pairs (all-in_edges g.pairs) in
        let edges = sorted_edges g.pairs in
        let s = solutions_from-IsSolution N A c g edges (2 ^ length edges) 0 pairs in
        rw e (best_of-Best laws linear A c g o e (solutions A c g) refl s)
  ]
