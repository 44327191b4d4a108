-- ===== src/Relations/Decomposition.antt =====
-- `_decomposed_assertions` of src/qste/relations/service.py: a many-to-many component of the matching,
-- split as the comparison declares.
use qste.Base.{
  String, Bool, true, false, not, ◌&&◌, ◌||◌, some, List, [], ◌∷◌, ◌++◌, str_eq, contains, any, all,
  select, Result, ok, ◌>>=◌, ◌>>◌, raise_if, invalid_comparison_spec,
}
use qste.Relations.Resolution.{
  Relation, overlap, split, merge, resolved, Assertion, relation_reason,
}

pub record Part : Type 0 where
  pub source_ids : List String
  pub target_ids : List String
  pub relation : Relation

abbrev pub is_match : Relation → Bool
is_match overlap = true
is_match split = true
is_match merge = true
is_match _ = false

abbrev pub edge_eq : String × String → String × String → Bool
edge_eq a b = str_eq a.0 b.0 && str_eq a.1 b.1

abbrev pub in_edges : String × String → List (String × String) → Bool
in_edges e es = any (edge_eq e) es

-- `set(xs).issubset(ys)`
abbrev pub is_subset : List String → List String → Bool
is_subset xs ys = all (λ x. contains x ys) xs

-- `set(itertools.product(source_ids, target_ids)) & expected_edges`
unfoldable pub part_edges : Part → List (String × String) → List (String × String)
part_edges p expected =
    select (λ e. contains e.0 p.source_ids && contains e.1 p.target_ids) expected

abbrev pub no_edges : List (String × String) → Bool
no_edges [] = true
no_edges (_ ∷ _) = false

-- The loop over the parts, from the edges used so far.
unfoldable pub decompose :
    List (String × String)
    → List String
    → List String
    → List Part
    → List (String × String)
    → Result (List Assertion × List (String × String))
decompose expected ss ts [] used = ok ([], used)
decompose expected ss ts (p ∷ ps) used = do
  raise_if
      (not (is_match p.relation)
        || not (is_subset p.source_ids ss)
        || not (is_subset p.target_ids ts))
      invalid_comparison_spec
  let edges = part_edges p expected
  raise_if (no_edges edges || any (λ e. in_edges e used) edges) invalid_comparison_spec
  rest ← decompose expected ss ts ps (used ++ edges)
  ok (
    record {
      relation = some p.relation;
      status = resolved;
      reason = relation_reason p.relation;
      sources = p.source_ids;
      targets = p.target_ids;
    }
        ∷ rest.0,
    rest.1,
  )

abbrev pub no_parts : List Part → Bool
no_parts [] = true
no_parts (_ ∷ _) = false

-- `_decomposed_assertions`: every edge of the representative must be used.
unfoldable pub decomposed_assertions :
    List (String × String) → List String → List String → List Part → Result (List Assertion)
decomposed_assertions representative ss ts parts = do
  raise_if (no_parts parts) invalid_comparison_spec
  r ← decompose representative ss ts parts []
  raise_if (not (all (λ e. in_edges e r.1) representative)) invalid_comparison_spec
  ok r.0
