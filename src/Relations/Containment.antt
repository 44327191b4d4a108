-- ===== src/Relations/Containment.antt =====
-- `_decomposed_assertions` of src/qste/relations/service.py compares the edges that the parts of one
-- component use with the whole matching.
use qste.Base.{
  String, ◌≡◌, inl, inr, refl, sym, subst, Bool, true, not, ◌&&◌, ◌||◌, some, List, [], ◌∷◌, ◌++◌,
  str_eq, eq_iff, contains, any, all, ok, raise_if, raise_if-eq-ok, Ensures, Ensures-bind,
  Ensures-then, Ensures-eq, Bool-cases, arith, invalid_comparison_spec,
}
use qste.Relations.Resolution.{Assertion, assertion, resolved, relation_reason}
use qste.Relations.Decomposition.{
  Part, is_match, edge_eq, in_edges, is_subset, part_edges, no_edges, decompose, no_parts,
  decomposed_assertions,
}

-- The edge joins a source and a target of the component.
abbrev pub inside : List String → List String → String × String → Bool
inside ss ts e = contains e.0 ss && contains e.1 ts

pub contains-subset :
    (x : String) (xs ys : List String)
    → contains x xs ≡ true
    → is_subset xs ys ≡ true
    → contains x ys ≡ true
contains-subset x [] ys h k = cc
contains-subset x (y ∷ xs) ys h k = elim (Bool-cases (str_eq x y)) [
  | inl e ↦ subst (λ z. contains z ys ≡ true) (sym ((eq_iff x y).0 e)) (ground arith)
  | inr e ↦ contains-subset x xs ys (ground arith) (ground arith)
]

pub in_edges-inside :
    (ss ts : List String) (e : String × String) (es : List (String × String))
    → in_edges e es ≡ true
    → all (inside ss ts) es ≡ true
    → inside ss ts e ≡ true
in_edges-inside ss ts e [] h k = cc
in_edges-inside ss ts e (x ∷ es) h k = elim (Bool-cases (edge_eq e x)) [
  | inl q ↦
      let a = sym ((eq_iff e.0 x.0).0 (ground arith)) in
      let b = sym ((eq_iff e.1 x.1).0 (ground arith)) in
      subst (λ z. contains z ss && contains e.1 ts ≡ true) a
        (subst (λ z. contains x.0 ss && contains z ts ≡ true) b (ground arith))
  | inr q ↦ in_edges-inside ss ts e es (ground arith) (ground arith)
]

all-in_edges-inside :
    (ss ts : List String) (ds es : List (String × String))
    → all (λ e. in_edges e es) ds ≡ true
    → all (inside ss ts) es ≡ true
    → all (inside ss ts) ds ≡ true
all-in_edges-inside ss ts [] es h k = refl
all-in_edges-inside ss ts (d ∷ ds) es h k =
    let a = in_edges-inside ss ts d es (ground arith) k in
    let b = all-in_edges-inside ss ts ds es (ground arith) k in ground arith

part_edges-inside :
    (ss ts : List String) (p : Part) (expected : List (String × String))
    → is_subset p.source_ids ss ≡ true
    → is_subset p.target_ids ts ≡ true
    → all (inside ss ts) (part_edges p expected) ≡ true
unfolding part_edges
part_edges-inside ss ts p [] h k = refl
part_edges-inside ss ts p (e ∷ es) h k =
    let rest = part_edges-inside ss ts p es h k in
    elim (Bool-cases (contains e.0 p.source_ids && contains e.1 p.target_ids)) [
      | inl q ↦
          let a = contains-subset e.0 p.source_ids ss (ground arith) h in
          let b = contains-subset e.1 p.target_ids ts (ground arith) k in rw q (ground arith)
      | inr q ↦ rw q rest
    ]

pub all-append :
    (p : String × String → Bool) (xs ys : List (String × String))
    → all p xs ≡ true
    → all p ys ≡ true
    → all p (xs ++ ys) ≡ true
all-append p [] ys h k = k
all-append p (x ∷ xs) ys h k = let a = all-append p xs ys in ground arith

decompose-inside :
    (expected : List (String × String)) (ss ts : List String) (ps : List Part)
    (used : List (String × String))
    → all (inside ss ts) used ≡ true
    → Ensures (λ r. all (inside ss ts) r.1 ≡ true) (decompose expected ss ts ps used)
unfolding decompose
decompose-inside expected ss ts [] used h = h
decompose-inside expected ss ts (p ∷ ps) used h =
    let edges = part_edges p expected in
    let Inside = λ (r : List Assertion × List (String × String)). all (inside ss ts) r.1 ≡ true in
    let found : List Assertion × List (String × String) → List Assertion × List (String × String) =
      λ r. (
        assertion (some p.relation) resolved (relation_reason p.relation) p.source_ids p.target_ids
            ∷ r.0,
        r.1,
      ) in
    let bad =
      not (is_match p.relation)
      || not (is_subset p.source_ids ss)
      || not (is_subset p.target_ids ts) in
    Ensures-bind (λ u. raise_if bad invalid_comparison_spec ≡ ok u) Inside
      (raise_if bad invalid_comparison_spec) _ (Ensures-eq (raise_if bad invalid_comparison_spec))
      (λ u q.
        let good = raise_if-eq-ok bad invalid_comparison_spec q in
        let new = part_edges-inside ss ts p expected (ground arith) (ground arith) in
        Ensures-then Inside
          (raise_if (no_edges edges || any (λ e. in_edges e used) edges) invalid_comparison_spec) _
          (λ _.
            Ensures-bind Inside Inside (decompose expected ss ts ps (used ++ edges))
              (λ r. ok (found r))
              (decompose-inside expected ss ts ps (used ++ edges)
                (all-append (inside ss ts) used edges h new))
              (λ r i. i)))

-- A decomposition of one component is accepted only if every edge of the whole representative
-- solution lies inside that component: a matching with a second component is refused.
pub decomposed_assertions-inside :
    (representative : List (String × String)) (ss ts : List String) (parts : List Part)
    → Ensures
        (λ _. all (inside ss ts) representative ≡ true)
        (decomposed_assertions representative ss ts parts)
unfolding decomposed_assertions
decomposed_assertions-inside representative ss ts parts =
    let Inside = λ (a : List Assertion). all (inside ss ts) representative ≡ true in
    Ensures-then Inside (raise_if (no_parts parts) invalid_comparison_spec) _ (λ _.
      Ensures-bind (λ r. all (inside ss ts) r.1 ≡ true) Inside
        (decompose representative ss ts parts []) _
        (decompose-inside representative ss ts parts [] refl)
        (λ r h.
          let bad = not (all (λ e. in_edges e r.1) representative) in
          Ensures-bind (λ u. raise_if bad invalid_comparison_spec ≡ ok u) Inside
            (raise_if bad invalid_comparison_spec) (λ _. ok r.0)
            (Ensures-eq (raise_if bad invalid_comparison_spec))
            (λ u q.
              let good = raise_if-eq-ok bad invalid_comparison_spec q in
              all-in_edges-inside ss ts representative r.1 (ground arith) h)))
