-- ===== src/Relations/Compared.antt =====
-- The comparison of two arms (src/qste/relations/service.py), with the matcher and the components.
use qste.Base.{
  any, all, List, String, ◌≡◌, true, ◌∷◌, contains, Bool-cases, Ensures, inl, Ensures-then, sym,
  eq_iff, arith, subst, inr, [], All, eq_refl, Ensures-and, Ensures-bind, All-map,
}
use qste.Quanta.Intervals.{Floats}
use qste.Relations.Matching.{Arithmetic, Contract}
use qste.Relations.Decomposition.{in_edges, Part, edge_eq}
use qste.Relations.Pairs.{Thresholds}
use qste.Relations.Arms.{
  Arms, compare, component_list, check_arms, pair_evidence, comparison_of, pair_rows,
}
use qste.Relations.Partition.{has_ends, components_lem}
use qste.Relations.Containment.{inside}
use qste.Relations.Complete.{Speaks, resolve_relations-Speaks}
use qste.Relations.Assertions.{resolve_relations}
use qste.Relations.Components.{components}
use qste.Relations.Resolution.{Assertion}
use qste.Relations.Insides.{IsWithin, resolve_relations-IsWithin}
use qste.Relations.Offers.{IsPairOf, pair_rows-IsPairOf, offered-IsOffered}
use qste.Relations.Origins.{components-IsPart}

All-contains : (xs : List String) → All (λ x. contains x xs ≡ true) xs
All-contains [] = tt
All-contains (x ∷ xs) = (
  (let e = eq_refl x in ground arith),
  All-map (λ y. contains y xs ≡ true) (λ y. contains y (x ∷ xs) ≡ true) xs (λ y h. ground arith)
      (All-contains xs),
)

held_in :
    (es : List (String × String)) (ks : List (List String × List String)) (e : String × String)
    → in_edges e es ≡ true
    → all (λ d. any (has_ends d.0 d.1) ks) es ≡ true
    → any (λ k. inside k.0 k.1 e) ks ≡ true
held_in [] ks e h k = cc
held_in (d ∷ es) ks e h k = elim (Bool-cases (edge_eq e d)) [
  | inl q ↦
      let a = sym ((eq_iff e.0 d.0).0 (ground arith)) in
      let b = sym ((eq_iff e.1 d.1).0 (ground arith)) in
      subst (λ z. any (has_ends z e.1) ks ≡ true) a
        (subst (λ z. any (has_ends d.0 z) ks ≡ true) b (ground arith))
  | inr q ↦ held_in es ks e (ground arith) (ground arith)
]

held :
    (es : List (String × String)) (e : String × String)
    → in_edges e es ≡ true
    → any (λ k. inside k.0 k.1 e) (component_list (components es)) ≡ true
held es e h = let (ks, q, r) = components_lem es in rw q (held_in es ks e h r)

module _ (N : Floats) (A : Arithmetic N) (contract : Contract N) (c : Thresholds N)
    (decompositions : List (List Part)) (g : Arms N) where
  compare-Speaks :
      (s t : String)
      → contains s g.source_ids ≡ true
      → contains t g.target_ids ≡ true
      → Ensures (Speaks s t) (compare N A contract c decompositions g)
  unfolding compare
  compare-Speaks s t h k = Ensures-then (Speaks s t) (check_arms N g) _ (λ _.
      Ensures-then (Speaks s t) (pair_evidence N g c)
        (λ pairs. resolve_relations (comparison_of N A contract decompositions g pairs))
        (λ pairs.
          resolve_relations-Speaks (comparison_of N A contract decompositions g pairs) s t h k
            held))

  -- An assertion about candidates of the two sides only.
  abbrev pub IsOfArms : Assertion → Type 0
  IsOfArms = IsWithin (λ s. contains s g.source_ids ≡ true) (λ t. contains t g.target_ids ≡ true)

  compare-IsOfArms : Ensures (All IsOfArms) (compare N A contract c decompositions g)
  unfolding compare pair_evidence
  compare-IsOfArms =
      let P = λ (s : String). contains s g.source_ids ≡ true in
      let Q = λ (t : String). contains t g.target_ids ≡ true in
      let h = All-contains g.source_ids in
      let k = All-contains g.target_ids in
      Ensures-then (All IsOfArms) (check_arms N g) _ (λ _.
        Ensures-bind (All (IsPairOf N P Q)) (All IsOfArms)
          (pair_rows N g c g.source_ids g.target_ids)
          (λ pairs. resolve_relations (comparison_of N A contract decompositions g pairs))
          (pair_rows-IsPairOf N P Q g c g.source_ids g.target_ids h k)
          (λ pairs i.
            resolve_relations-IsWithin P Q (comparison_of N A contract decompositions g pairs) h k
              (offered-IsOffered N P Q A contract decompositions g pairs i)
              (components-IsPart P Q)))

  -- The assertions that the comparison of two arms returns leave out no candidate, and are about the
  -- candidates of the two sides only: each source and each target is spoken of by some assertion.
  pub compare_lem :
      (s t : String)
      → contains s g.source_ids ≡ true
      → contains t g.target_ids ≡ true
      → Ensures
          (λ found. Speaks s t found × All IsOfArms found)
          (compare N A contract c decompositions g)
  compare_lem s t h k =
      Ensures-and (Speaks s t) (All IsOfArms) (compare N A contract c decompositions g)
        (compare-Speaks s t h k) compare-IsOfArms
