-- ===== src/Relations/Coverage.antt =====
-- The assertions of `_resolve_relations` (src/qste/relations/service.py) leave out no edge of the
-- solution that they come from.
use qste.Base.{
  any, all, String, Bool, List, contains, ◌++◌, not, Ensures, arith, ◌&&◌, ◌≡◌, ◌||◌, true, ◌∷◌, [],
  Bool-cases, some, refl, inl, sym, eq_iff, subst, Ensures-then, inr, raise_if,
  invalid_comparison_spec, Ensures-bind, ok, ltb, any-append, Ensures-raise_if, length,
  any-append_right,
}
use qste.Relations.Decomposition.{
  part_edges, Part, decompose, in_edges, edge_eq, is_match, is_subset, no_edges,
  decomposed_assertions, no_parts,
}
use qste.Relations.Resolution.{Assertion, assertion, resolved, relation_reason}
use qste.Relations.Containment.{inside, in_edges-inside}
use qste.Relations.Assertions.{component_assertions, decomposed, all_components, Comparison}

-- The assertion is about both ends of the edge, about a source, and about a target.
abbrev pub joins : String × String → Assertion → Bool
joins e a = contains e.0 a.sources && contains e.1 a.targets

abbrev pub is_about_source : String → Assertion → Bool
is_about_source s a = contains s a.sources

abbrev pub is_about_target : String → Assertion → Bool
is_about_target t a = contains t a.targets

any-or : {A : Type 0} (p : A → Bool) (xs ys : List A) → any p (xs ++ ys) ≡ (any p xs || any p ys)
any-or p [] ys = refl
any-or p (x ∷ xs) ys = let ih = any-or p xs ys in ground arith

part_edges-within :
    (p : Part) (expected : List (String × String))
    → all (inside p.source_ids p.target_ids) (part_edges p expected) ≡ true
unfolding part_edges
part_edges-within p [] = refl
part_edges-within p (e ∷ es) = let rest = part_edges-within p es in ground arith

-- An edge that a list of used edges holds, each of them in another list.
in_edges-all :
    (e : String × String) (ds es : List (String × String))
    → in_edges e ds ≡ true
    → all (λ d. in_edges d es) ds ≡ true
    → in_edges e es ≡ true
in_edges-all e [] es h k = cc
in_edges-all e (d ∷ ds) es h k = elim (Bool-cases (edge_eq e d)) [
  | inl q ↦
      let a = sym ((eq_iff e.0 d.0).0 (ground arith)) in
      let b = sym ((eq_iff e.1 d.1).0 (ground arith)) in
      subst (λ z. in_edges (z, e.1) es ≡ true) a
        (subst (λ z. in_edges (d.0, z) es ≡ true) b (ground arith))
  | inr q ↦ in_edges-all e ds es (ground arith) (ground arith)
]

module _ (e : String × String) where
  -- An edge that the parts use is joined by the assertion of one of them, if it was not used before.
  abbrev Used : List (String × String) → List Assertion × List (String × String) → Type 0
  Used used r = not (in_edges e r.1) || in_edges e used || any (joins e) r.0 ≡ true

  decompose-Used :
      (expected : List (String × String)) (ss ts : List String) (ps : List Part)
      (used : List (String × String))
      → Ensures (Used used) (decompose expected ss ts ps used)
  unfolding decompose
  decompose-Used expected ss ts [] used = ground arith
  decompose-Used expected ss ts (p ∷ ps) used =
      let edges = part_edges p expected in
      let found : List Assertion × List (String × String)
          → List Assertion × List (String × String) =
        λ r. (
          assertion (some p.relation) resolved (relation_reason p.relation) p.source_ids
                p.target_ids
              ∷ r.0,
          r.1,
        ) in
      let within = λ (h : in_edges e edges ≡ true).
        in_edges-inside p.source_ids p.target_ids e edges h (part_edges-within p expected) in
      Ensures-then (Used used)
        (raise_if
          (not (is_match p.relation)
            || not (is_subset p.source_ids ss)
            || not (is_subset p.target_ids ts))
          invalid_comparison_spec)
        _
        (λ _.
          Ensures-then (Used used)
            (raise_if (no_edges edges || any (λ d. in_edges d used) edges) invalid_comparison_spec)
            _
            (λ _.
              Ensures-bind (Used (used ++ edges)) (Used used)
                (decompose expected ss ts ps (used ++ edges)) (λ r. ok (found r))
                (decompose-Used expected ss ts ps (used ++ edges))
                (λ r i.
                  let o = any-or (edge_eq e) used edges in
                  elim (Bool-cases (in_edges e edges)) [
                    | inl h ↦ let w = within h in ground arith
                    | inr h ↦ ground arith
                  ])))

  -- The assertions of one declared decomposition.
  decomposed_assertions-joins :
      (representative : List (String × String)) (ss ts : List String) (parts : List Part)
      → in_edges e representative ≡ true
      → Ensures
          (λ found. any (joins e) found ≡ true)
          (decomposed_assertions representative ss ts parts)
  unfolding decomposed_assertions
  decomposed_assertions-joins representative ss ts parts h =
      let Joined = λ (found : List Assertion). any (joins e) found ≡ true in
      Ensures-then Joined (raise_if (no_parts parts) invalid_comparison_spec) _ (λ _.
        Ensures-bind (Used []) Joined (decompose representative ss ts parts []) _
          (decompose-Used representative ss ts parts [])
          (λ r i.
            Ensures-raise_if Joined (not (all (λ d. in_edges d r.1) representative))
              invalid_comparison_spec (ok r.0)
              (λ b. let k = in_edges-all e representative r.1 h (ground arith) in ground arith)))

  decomposed-joins :
      (ds : List (List Part)) (representative : List (String × String)) (ss ts : List String)
      → in_edges e representative ≡ true
      → inside ss ts e ≡ true
      → Ensures (λ found. any (joins e) found ≡ true) (decomposed ds representative ss ts)
  unfolding decomposed
  decomposed-joins [] representative ss ts h k = ground arith
  decomposed-joins (d ∷ []) representative ss ts h k =
      decomposed_assertions-joins representative ss ts d h
  decomposed-joins (d ∷ f ∷ fs) representative ss ts h k = ground arith

  component-joins :
      (c : Comparison) (representative : List (String × String)) (k : List String × List String)
      → in_edges e representative ≡ true
      → inside k.0 k.1 e ≡ true
      → Ensures (λ found. any (joins e) found ≡ true) (component_assertions c representative k)
  unfolding component_assertions
  component-joins c representative (ss, ts) h k =
      elim (Bool-cases (ltb 1 (length ss) && ltb 1 (length ts))) [
        | inl b ↦
            rw (b, component_assertions)
              (decomposed-joins c.decompositions representative ss ts h k)
        | inr b ↦ rw (b, component_assertions) (ground arith)
      ]

  -- Some component holds the edge: its assertions are among all of them.
  pub all_components-joins :
      (c : Comparison) (representative : List (String × String))
      (ks : List (List String × List String))
      → in_edges e representative ≡ true
      → any (λ k. inside k.0 k.1 e) ks ≡ true
      → Ensures (λ found. any (joins e) found ≡ true) (all_components c representative ks)
  unfolding all_components
  all_components-joins c representative [] h k = cc
  all_components-joins c representative (k ∷ ks) h i =
      let Joined = λ (found : List Assertion). any (joins e) found ≡ true in
      elim (Bool-cases (inside k.0 k.1 e)) [
        | inl here ↦
            Ensures-bind Joined Joined (component_assertions c representative k) _
              (component-joins c representative k h here)
              (λ as1 j.
                Ensures-then Joined (all_components c representative ks) (λ as2. ok (as1 ++ as2))
                  (λ as2. any-append (joins e) as1 as2 j))
        | inr later ↦ Ensures-then Joined (component_assertions c representative k) _ (λ as1.
            Ensures-bind Joined Joined (all_components c representative ks) (λ as2. ok (as1 ++ as2))
              (all_components-joins c representative ks h (ground arith))
              (λ as2 j. any-append_right (joins e) as1 as2 j))
      ]
