-- ===== src/Relations/Insides.antt =====
-- The assertions of `_resolve_relations` (src/qste/relations/service.py) are about the candidates of
-- the two sides only.
use qste.Base.{
  any, all, String, List, All, contains, ◌≡◌, Ensures, true, Ensures-then, select, map, ◌∷◌, [],
  arith, raise_if, Bool-cases, not, Option-cases, Ensures-bind, All-selected, Ensures-if, ltb,
  str_eq, some, invalid_comparison_spec, inl, length, ok, ◌&&◌, inr, subst, ◌++◌, sym, All-append,
  eq_iff, Ensures-raise_if, ◌||◌,
}
use qste.Relations.Assertions.{
  component_assertions, left_over, all_components, Comparison, decomposed, unmatched_target,
  matched_assertions, Matching, resolve_relations, unmatched_source, complete, undecided,
  budget_exhausted,
}
use qste.Relations.Resolution.{Assertion, assertion, global_terminal, resolved, relation_reason}
use qste.Relations.Decomposition.{
  decomposed_assertions, decompose, Part, is_subset, in_edges, part_edges, edge_eq, no_parts,
  is_match, no_edges,
}
use qste.Policy.Members.{All-sorted_set}
use qste.Relations.Origins.{HasEnds, IsPart}
use qste.Relations.Complete.{terminal_sides}

contains-All :
    (P : String → Type 0) (x : String) (ys : List String) → contains x ys ≡ true → All P ys → P x
contains-All P x [] h k = cc
contains-All P x (y ∷ ys) h k = elim (Bool-cases (str_eq x y)) [
  | inl e ↦ subst P (sym ((eq_iff x y).0 e)) k.0
  | inr e ↦ contains-All P x ys (ground arith) k.1
]

All-subset :
    (P : String → Type 0) (xs ys : List String) → is_subset xs ys ≡ true → All P ys → All P xs
All-subset P [] ys h k = tt
All-subset P (x ∷ xs) ys h k =
    (contains-All P x ys (ground arith) k, All-subset P xs ys (ground arith) k)

pub All-in_edges :
    (P : String × String → Type 0) (e : String × String) (es : List (String × String))
    → in_edges e es ≡ true
    → All P es
    → P e
All-in_edges P e [] h k = cc
All-in_edges P e (d ∷ es) h k = elim (Bool-cases (edge_eq e d)) [
  | inl q ↦
      let a = sym ((eq_iff e.0 d.0).0 (ground arith)) in
      let b = sym ((eq_iff e.1 d.1).0 (ground arith)) in
      subst (λ z. P (z, e.1)) a (subst (λ z. P (d.0, z)) b k.0)
  | inr q ↦ All-in_edges P e es (ground arith) k.1
]

module _ (A B : String → Type 0) where
  abbrev pub IsWithin : Assertion → Type 0
  IsWithin a = All A a.sources × All B a.targets

  decompose-IsWithin :
      (expected : List (String × String)) (ss ts : List String) (ps : List Part)
      (used : List (String × String))
      → All A ss
      → All B ts
      → Ensures (λ r. All IsWithin r.0) (decompose expected ss ts ps used)
  unfolding decompose
  decompose-IsWithin expected ss ts [] used h k = tt
  decompose-IsWithin expected ss ts (p ∷ ps) used h k =
      let edges = part_edges p expected in
      let Within = λ (r : List Assertion × List (String × String)). All IsWithin r.0 in
      let found : List Assertion × List (String × String)
          → List Assertion × List (String × String) =
        λ r. (
          assertion (some p.relation) resolved (relation_reason p.relation) p.source_ids
                p.target_ids
              ∷ r.0,
          r.1,
        ) in
      Ensures-raise_if Within
        (not (is_match p.relation)
          || not (is_subset p.source_ids ss)
          || not (is_subset p.target_ids ts))
        invalid_comparison_spec _
        (λ b.
          Ensures-then Within
            (raise_if (no_edges edges || any (λ d. in_edges d used) edges) invalid_comparison_spec)
            _
            (λ _.
              Ensures-bind Within Within (decompose expected ss ts ps (used ++ edges))
                (λ r. ok (found r)) (decompose-IsWithin expected ss ts ps (used ++ edges) h k)
                (λ r i. (
                  (
                    All-subset A p.source_ids ss (ground arith) h,
                    All-subset B p.target_ids ts (ground arith) k,
                  ),
                  i,
                ))))

  decomposed_assertions-IsWithin :
      (representative : List (String × String)) (ss ts : List String) (parts : List Part)
      → All A ss
      → All B ts
      → Ensures (All IsWithin) (decomposed_assertions representative ss ts parts)
  unfolding decomposed_assertions
  decomposed_assertions-IsWithin representative ss ts parts h k =
      Ensures-then (All IsWithin) (raise_if (no_parts parts) invalid_comparison_spec) _ (λ _.
        Ensures-bind (λ r. All IsWithin r.0) (All IsWithin)
          (decompose representative ss ts parts []) _
          (decompose-IsWithin representative ss ts parts [] h k)
          (λ r i.
            Ensures-then (All IsWithin)
              (raise_if (not (all (λ d. in_edges d r.1) representative)) invalid_comparison_spec)
              (λ _. ok r.0) (λ _. i)))

  decomposed-IsWithin :
      (ds : List (List Part)) (representative : List (String × String)) (ss ts : List String)
      → All A ss
      → All B ts
      → Ensures (All IsWithin) (decomposed ds representative ss ts)
  unfolding decomposed
  decomposed-IsWithin [] representative ss ts h k = ((h, k), tt)
  decomposed-IsWithin (d ∷ []) representative ss ts h k =
      decomposed_assertions-IsWithin representative ss ts d h k
  decomposed-IsWithin (d ∷ f ∷ fs) representative ss ts h k = ((h, k), tt)

  component-IsWithin :
      (c : Comparison) (representative : List (String × String)) (k : List String × List String)
      → IsPart A B k
      → Ensures (All IsWithin) (component_assertions c representative k)
  unfolding component_assertions
  component-IsWithin c representative (ss, ts) h =
      elim (Bool-cases (ltb 1 (length ss) && ltb 1 (length ts))) [
        | inl b ↦
            rw (b, component_assertions)
              (decomposed-IsWithin c.decompositions representative ss ts h.0 h.1)
        | inr b ↦ rw (b, component_assertions) (h, tt)
      ]

  all_components-IsWithin :
      (c : Comparison) (representative : List (String × String))
      (ks : List (List String × List String))
      → All (IsPart A B) ks
      → Ensures (All IsWithin) (all_components c representative ks)
  unfolding all_components
  all_components-IsWithin c representative [] h = tt
  all_components-IsWithin c representative (k ∷ ks) h =
      Ensures-bind (All IsWithin) (All IsWithin) (component_assertions c representative k) _
        (component-IsWithin c representative k h.0)
        (λ as1 i.
          Ensures-bind (All IsWithin) (All IsWithin) (all_components c representative ks)
            (λ as2. ok (as1 ++ as2)) (all_components-IsWithin c representative ks h.1)
            (λ as2 j. All-append IsWithin as1 as2 i j))

  left_over-All :
      (P : String → Type 0) (ids matched : List String) → All P ids → All P (left_over ids matched)
  unfolding left_over
  left_over-All P ids matched h =
      All-sorted_set P (select (λ id. not (contains id matched)) ids)
        (All-selected P (λ id. not (contains id matched)) ids h)

  -- The edges of the matching have ends of the two sides.
  abbrev pub IsOffered : Matching → Type 0
  IsOffered budget_exhausted = Unit
  IsOffered (complete survivors es) = All (HasEnds A B) es

  module _ (c : Comparison) (h : All A c.source_ids) (k : All B c.target_ids) where
    unmatched_sources-IsWithin :
        (ids : List String) → All A ids → All IsWithin (map (unmatched_source c) ids)
    unfolding unmatched_source
    unmatched_sources-IsWithin [] i = tt
    unmatched_sources-IsWithin (id ∷ ids) i = (((i.0, tt), k), unmatched_sources-IsWithin ids i.1)

    unmatched_targets-IsWithin :
        (ids : List String) → All B ids → All IsWithin (map (unmatched_target c) ids)
    unfolding unmatched_target
    unmatched_targets-IsWithin [] i = tt
    unmatched_targets-IsWithin (id ∷ ids) i = ((h, (i.0, tt)), unmatched_targets-IsWithin ids i.1)

    matched-IsWithin :
        (m : Matching)
        → IsOffered m
        → ((es : List (String × String))
            → All (HasEnds A B) es
            → All (IsPart A B) (c.components es))
        → Ensures (All IsWithin) (matched_assertions c m)
    unfolding matched_assertions undecided
    matched-IsWithin budget_exhausted i held = ((h, k), tt)
    matched-IsWithin (complete survivors es) i held =
        let left = map (unmatched_source c) (left_over c.source_ids (map (λ e. e.0) es)) in
        let right = map (unmatched_target c) (left_over c.target_ids (map (λ e. e.1) es)) in
        Ensures-if (All IsWithin) (ltb 1 (length survivors)) _ _ (λ _. ((h, k), tt))
          (λ _.
            Ensures-bind (All IsWithin) (All IsWithin) (all_components c es (c.components es))
              (λ found. ok (found ++ left ++ right))
              (all_components-IsWithin c es (c.components es) (held es i))
              (λ found j.
                All-append IsWithin (found ++ left) right
                  (All-append IsWithin found left j (
                    unmatched_sources-IsWithin (left_over c.source_ids (map (λ e. e.0) es))
                      (left_over-All A c.source_ids (map (λ e. e.0) es) h)))
                  (unmatched_targets-IsWithin (left_over c.target_ids (map (λ e. e.1) es))
                    (left_over-All B c.target_ids (map (λ e. e.1) es) k))))

    pub resolve_relations-IsWithin :
        Ensures IsOffered c.matching
        → ((es : List (String × String))
            → All (HasEnds A B) es
            → All (IsPart A B) (c.components es))
        → Ensures (All IsWithin) (resolve_relations c)
    unfolding resolve_relations
    resolve_relations-IsWithin m held =
        elim (Option-cases (global_terminal c.projections c.states c.source_ids c.target_ids)) [
          | inl e ↦
              rw (e, resolve_relations)
                (Ensures-bind IsOffered (All IsWithin) c.matching (matched_assertions c) m
                  (λ a i. matched-IsWithin a i held))
          | inr (a, e) ↦
              let (p, q) = terminal_sides c.projections c.states c.source_ids c.target_ids a e in
              rw (e, resolve_relations) ((rw p h, rw q k), tt)
        ]
