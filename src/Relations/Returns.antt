-- ===== src/Relations/Returns.antt =====
-- When the resolution and its inputs return: `_resolve_relations`, `_candidate_set` and `_pair_evidence`
-- of src/qste/relations/service.py.
use qste.Base.{
  ReasonCode, raise_if, ap, internal_error, not, all, List, String, ◌≡◌, true, ◌∷◌, Bool-cases, inl,
  arith, inr, [], Bool, is_ok, false, ok, Option-cases, refl, ltb, ◌++◌, length, leb, ◌&&◌,
  is_ok-and, is_ok-bind, is_ok-last, ◌∙◌,
}
use qste.Quanta.Intervals.{Floats}
use qste.Relations.Decomposition.{Part}
use qste.Relations.Pairs.{Thresholds}
use qste.Relations.Arms.{can_cover}
use qste.Relations.Arms.{Arms, check_candidates, pair_row, pair_rows, is_nonempty_ids, is_distinct}
use qste.Relations.Assertions.{
  resolve_relations, component_assertions, matched_assertions, decomposed, all_components,
  Comparison, Matching, complete, budget_exhausted,
}
use qste.Relations.Resolution.{global_terminal}
use qste.Relations.Eligibility.{has_tokens, is_ok-pair_state}

abbrev pub is_single : {A : Type 0} → List A → Bool
is_single (d ∷ []) = true
is_single ds = false

decomposed-returns :
    (ds : List (List Part)) (es : List (String × String)) (ss ts : List String)
    → is_single ds ≡ false
    → is_ok (decomposed ds es ss ts) ≡ true
unfolding decomposed
decomposed-returns [] es ss ts h = refl
decomposed-returns (d ∷ []) es ss ts h = cc
decomposed-returns (d ∷ f ∷ fs) es ss ts h = refl

component-returns :
    (c : Comparison) (es : List (String × String)) (k : List String × List String)
    → is_single c.decompositions ≡ false
    → is_ok (component_assertions c es k) ≡ true
unfolding component_assertions
component-returns c es (ss, ts) h = elim (Bool-cases (ltb 1 (length ss) && ltb 1 (length ts))) [
  | inl b ↦ rw (b, component_assertions) (decomposed-returns c.decompositions es ss ts h)
  | inr b ↦ rw (b, component_assertions) refl
]

all_components-returns :
    (c : Comparison) (es : List (String × String)) (ks : List (List String × List String))
    → is_single c.decompositions ≡ false
    → is_ok (all_components c es ks) ≡ true
unfolding all_components
all_components-returns c es [] h = refl
all_components-returns c es (k ∷ ks) h =
    is_ok-bind (component_assertions c es k) _ (component-returns c es k h) (λ as1.
      is_ok-bind (all_components c es ks) (λ as2. ok (as1 ++ as2))
        (all_components-returns c es ks h) (λ as2. refl))

matched-returns :
    (c : Comparison) (m : Matching)
    → is_single c.decompositions ≡ false
    → is_ok (matched_assertions c m) ≡ true
unfolding matched_assertions
matched-returns c budget_exhausted h = refl
matched-returns c (complete survivors es) h = elim (Bool-cases (ltb 1 (length survivors))) [
  | inl b ↦ rw (b, matched_assertions) refl
  | inr b ↦
      rw (b, matched_assertions)
        (is_ok-bind (all_components c es (c.components es)) _
          (all_components-returns c es (c.components es) h) (λ found. refl))
]

pub resolve-returns :
    (c : Comparison)
    → is_single c.decompositions ≡ false
    → is_ok c.matching ≡ true
    → is_ok (resolve_relations c) ≡ true
unfolding resolve_relations
resolve-returns c h m =
    elim (Option-cases (global_terminal c.projections c.states c.source_ids c.target_ids)) [
      | inl e ↦
          rw (e, resolve_relations)
            (is_ok-bind c.matching (matched_assertions c) m (λ a. matched-returns c a h))
      | inr (a, e) ↦ rw (e, resolve_relations) refl
    ]

-- The candidates of one side are as `_candidate_set` wants them.
abbrev pub is_side : List String → Bool
is_side ids = is_nonempty_ids ids && (leb (length ids) 16 && is_distinct ids)

pub is_ok-check_candidates : (ids : List String) → is_ok (check_candidates ids) ≡ is_side ids
unfolding check_candidates
is_ok-check_candidates ids = ground arith

module _ (N : Floats) where
  -- The controls of the pair, if given, have known tokens, and its coverages can be computed.
  abbrev pub has_evidence : Arms N → String → String → Bool
  has_evidence g s t = has_tokens (g.controls_of s t) && can_cover N g s t

  is_ok-raise_if : (b : Bool) (e : ReasonCode) → is_ok (raise_if (not b) e) ≡ b
  is_ok-raise_if true e = refl
  is_ok-raise_if false e = refl

  and_and : (a b c : Bool) → (a && (b && c)) ≡ ((a && b) && c)
  and_and true b c = refl
  and_and false b c = refl

  is_ok-pair_row :
      (g : Arms N) (c : Thresholds N) (s : String) (ts : List String)
      → is_ok (pair_row N g c s ts) ≡ all (has_evidence g s) ts
  unfolding pair_row
  is_ok-pair_row g c s [] = refl
  is_ok-pair_row g c s (t ∷ ts) =
      let covered = can_cover N g s t in
      is_ok-and _ _ (covered && is_ok (pair_row N g c s ts)) (λ state.
        is_ok-and (raise_if (not covered) internal_error) _ (is_ok (pair_row N g c s ts))
          (λ _. is_ok-last (pair_row N g c s ts) _ (λ rest. refl))
        ∙ ap (λ b. b && is_ok (pair_row N g c s ts)) (is_ok-raise_if covered internal_error))
      ∙ rw
          (
            is_ok-pair_state N c (g.controls_of s t) (g.status_of s) (g.status_of t)
                (g.measured_of s t),
            is_ok-pair_row g c s ts,
          )
          (and_and (has_tokens (g.controls_of s t)) covered (all (has_evidence g s) ts))

  pub is_ok-pair_rows :
      (g : Arms N) (c : Thresholds N) (ss ts : List String)
      → is_ok (pair_rows N g c ss ts) ≡ all (λ s. all (has_evidence g s) ts) ss
  unfolding pair_rows
  is_ok-pair_rows g c [] ts = refl
  is_ok-pair_rows g c (s ∷ ss) ts =
      is_ok-and (pair_row N g c s ts) _ (is_ok (pair_rows N g c ss ts))
        (λ row. is_ok-last (pair_rows N g c ss ts) _ (λ rest. refl))
      ∙ cc (is_ok-pair_row g c s ts, is_ok-pair_rows g c ss ts)
