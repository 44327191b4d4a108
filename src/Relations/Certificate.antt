-- ===== src/Relations/Certificate.antt =====
-- The exhaustive matcher of src/qste/relations/service.py against its certificate: what
-- `_verify_matching_certificate` demands of the solutions that `_exact_match` keeps.
use qste.Base.{
  ℕ, List, ◌≡◌, All, all, length, ok, true, ◌∷◌, suc, arith, [], Answers, refl, Bool-cases, inl,
  inr, zero, subst, sym, All-map, str_eq, ap,
}
use qste.Quanta.Intervals.{Floats, IsOrdered}
use qste.Relations.Sorting.{Edge, IsSorted, least, least-IsSorted}
use qste.Relations.Matching.{
  Arithmetic, verify_solution, solutions_from, certified, verify_solutions,
  verify_matching_certificate, is_feasible, Contract, edge_count, Eligible, in_pairs, in_solutions,
  objective, chosen, solution_eq,
}
use qste.Relations.Assertions.{Matching, complete, budget_exhausted}
use qste.Relations.Selections.{is_inhabited, all-chosen, extreme-same, solution_eq_refl}

-- The solution is the least of these.
unfoldable pub IsLeast : List Edge → List (List Edge) → Type 0
IsLeast s [] = ⊥
IsLeast s (t ∷ ts) = least t ts ≡ s

module _ (N : Floats) where
  -- What the certificate demands of a surviving solution.
  unfoldable pub IsCertified :
      Arithmetic N → Contract N → Eligible N → N.Float → ℕ → List Edge → Type 0
  IsCertified A c g optimum count s =
      (all (in_pairs N g) s ≡ true)
      × (is_feasible N c g s ≡ true)
      × (N.leb (objective N A c g s) (A.add optimum c.optimization_tolerance) ≡ true)
      × (length s ≡ count)

  -- A solution that the enumeration kept: a feasible choice of eligible pairs with its objective.
  unfoldable pub IsSolution : Arithmetic N → Contract N → Eligible N → N.Float × List Edge → Type 0
  IsSolution A c g s =
      (all (in_pairs N g) s.1 ≡ true)
      × (is_feasible N c g s.1 ≡ true)
      × (s.0 ≡ objective N A c g s.1)

  pub solutions_from-IsSolution :
      (A : Arithmetic N) (c : Contract N) (g : Eligible N) (edges : List Edge) (count mask : ℕ)
      → all (in_pairs N g) edges ≡ true
      → All (IsSolution A c g) (solutions_from N A c g edges count mask)
  unfolding solutions_from IsSolution
  solutions_from-IsSolution A c g edges zero mask h = tt
  solutions_from-IsSolution A c g edges (suc count) mask h =
      let ih = solutions_from-IsSolution A c g edges count (suc mask) h in
      let k = all-chosen (in_pairs N g) edges mask h in
      elim (Bool-cases (is_feasible N c g (chosen edges mask))) [
        | inl e ↦ rw e ((k, e, refl), ih)
        | inr e ↦ rw e ih
      ]

  verify_solution-ok :
      IsOrdered N
      → (A : Arithmetic N) (c : Contract N) (g : Eligible N) (optimum : N.Float) (count : ℕ)
        (s : List Edge)
      → IsCertified A c g optimum count s
      → verify_solution N A c g optimum count s ≡ ok tt
  unfolding verify_solution IsCertified is_feasible
  verify_solution-ok laws A c g optimum count s h =
      let k = laws.leb-not_ltb (objective N A c g s) (A.add optimum c.optimization_tolerance) h.2 in
      ground arith

  verify_solutions-ok :
      IsOrdered N
      → (A : Arithmetic N) (c : Contract N) (g : Eligible N) (optimum : N.Float) (count : ℕ)
        (ss : List (List Edge))
      → All (IsCertified A c g optimum count) ss
      → verify_solutions N A c g optimum count ss ≡ ok tt
  unfolding verify_solutions
  verify_solutions-ok laws A c g optimum count [] h = refl
  verify_solutions-ok laws A c g optimum count (s ∷ ss) h =
      let a = verify_solution-ok laws A c g optimum count s h.0 in
      let b = verify_solutions-ok laws A c g optimum count ss h.1 in rw (a, b) refl

  -- What `_exact_match` may return.
  unfoldable pub Matches : Arithmetic N → Contract N → Eligible N → N.Float → Matching → Type 0
  Matches A c g optimum budget_exhausted = ⊥
  Matches A c g optimum (complete survivors representative) =
      All (IsCertified A c g optimum (length representative)) survivors
      × (in_solutions representative survivors ≡ true)
      × IsLeast representative survivors

  certified-length :
      (A : Arithmetic N) (c : Contract N) (g : Eligible N) (optimum : N.Float) (count : ℕ)
      (s : List Edge)
      → IsCertified A c g optimum count s
      → length s ≡ count
  unfolding IsCertified
  certified-length A c g optimum count s h = h.3

  pub certified-Matches :
      IsOrdered N
      → (A : Arithmetic N) (c : Contract N) (g : Eligible N) (optimum : N.Float) (count : ℕ)
        (ss : List (List Edge))
      → is_inhabited ss ≡ true
      → IsSorted ss
      → All (IsCertified A c g optimum count) ss
      → Answers (Matches A c g optimum) true (certified N A c g optimum ss)
  unfolding certified verify_matching_certificate Matches edge_count IsLeast
  certified-Matches laws A c g optimum count [] n o h = cc
  certified-Matches laws A c g optimum count (s ∷ ss) n o h =
      let k : All (IsCertified A c g optimum (length s)) (s ∷ ss) =
        subst (λ m. All (IsCertified A c g optimum m) (s ∷ ss))
          (sym (certified-length A c g optimum count s h.0)) h in
      let lengths : All (λ t. length t ≡ length s) ss =
        All-map (IsCertified A c g optimum (length s)) (λ t. length t ≡ length s) ss
          (certified-length A c g optimum (length s)) k.1 in
      let e = extreme-same (str_eq c.cardinality_preference "fewer_edges") (length s) ss lengths in
      let v = verify_solutions-ok laws A c g optimum (length s) (s ∷ ss) k in
      let m = least-IsSorted s ss o in
      let r = solution_eq_refl s in rw (e, v, ap (solution_eq s) m, r) (refl, (k, ground arith, m))
