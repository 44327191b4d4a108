-- ===== src/Witnesses/Relations.antt =====
-- A comparison of two arms with a many-to-many component, and a pair that is let into the matching.
use qste.Base.{
  String, ◌≡◌, true, false, ◌&&◌, some, List, [], ◌∷◌, All, all, str_eq, if◌then◌else◌, ok, Ensures,
  Answers, any, ℕ, leb, refl, ◌+◌, arith, ◌*◌, ltb,
}
use qste.Relations.Pairs.{eligible, coverage_failed, Controls, Measured, Thresholds, pair_state}
use qste.Relations.Resolution.{overlap, split}
use qste.Relations.Decomposition.{Part, decomposed_assertions}
use qste.Relations.Assertions.{complete, Comparison, resolve_relations, validate_assertion}
use qste.Relations.Sound.{resolve_relations-Passes}
use qste.Relations.Containment.{inside, decomposed_assertions-inside}
use qste.Relations.Eligibility.{
  is_eligible, controls_passed, measures_agree, pair_state_lem, has_tokens,
}
use qste.Witnesses.Quanta.{pos, floats}
use qste.Relations.Matching.{
  exact_match, Eligible, Contract, Arithmetic, solution_eq, sorted_edges, insert_edge_sorted,
  is_feasible, within_capacities, source_degree, target_degree, override, chosen,
  cardinalities_permit, component_permitted, count_zero, objective, solutions_from, best_of,
  certified, edge_count, extreme, optimum_of, survivors_of, verify_matching_certificate,
  verify_solution, verify_solutions,
}
use qste.Relations.Matches.{
  HasObjectives, Best, exact_match_lem, solutions, solutions-exhaustive, over_budget,
}
use qste.Quanta.Intervals.{Floats, IsOrdered}
use qste.Relations.Optimality.{IsLinear}
use qste.Relations.Partition.{components_lem, has_ends}
use qste.Relations.Components.{
  components, component_loop, sorted_nodes, nodes_of, insert_node, node_order, search_nodes,
  unvisited, adjacent, lefts, rights,
}
use qste.Relations.Orders.{edge_order}
use qste.Relations.Sorting.{insert_solution, least, solution_order, sorted_solutions}
use qste.Policy.State.{insert_sorted, sorted_set}

abbrev edges : List (String × String)
edges = ("a", "x") ∷ ("a", "y") ∷ ("b", "y") ∷ []

abbrev parts : List Part
parts =
    record { source_ids = "a" ∷ []; target_ids = "x" ∷ "y" ∷ []; relation = split }
    ∷ record { source_ids = "b" ∷ []; target_ids = "y" ∷ []; relation = overlap }
    ∷ []

abbrev comparison : Comparison
comparison = record {
  projections = "valid" ∷ "valid" ∷ [];
  states = eligible ∷ coverage_failed ∷ [];
  source_ids = "a" ∷ "b" ∷ "c" ∷ [];
  target_ids = "x" ∷ "y" ∷ [];
  state_of = λ s t. if str_eq s "c" then coverage_failed else eligible;
  decompositions = parts ∷ [];
  matching = ok (complete (edges ∷ []) edges);
  components = λ es. ("a" ∷ "b" ∷ [], "x" ∷ "y" ∷ []) ∷ [];
}

resolve_relations-Passes_example :
    Ensures (All (λ a. validate_assertion a ≡ ok tt)) (resolve_relations comparison)
resolve_relations-Passes_example = resolve_relations-Passes comparison

decomposed_assertions-inside_example :
    Ensures
      (λ _. all (inside ("a" ∷ "b" ∷ []) ("x" ∷ "y" ∷ [])) edges ≡ true)
      (decomposed_assertions edges ("a" ∷ "b" ∷ []) ("x" ∷ "y" ∷ []) parts)
decomposed_assertions-inside_example =
    decomposed_assertions-inside edges ("a" ∷ "b" ∷ []) ("x" ∷ "y" ∷ []) parts

abbrev pub controls : Controls
controls = record {
  target_address = "exists";
  fidelity = "passed";
  consequentiality = "passed";
  artifact_controls = "passed";
}

abbrev thresholds : Thresholds floats
thresholds = record { threshold = pos 3; tolerance = pos 2 }

abbrev measured : Measured floats
measured = record {
  source_mass_zero = false;
  target_mass_zero = false;
  source_coverage = (pos 3, pos 4);
  target_coverage = (pos 4, pos 5);
  effect = (pos 0, pos 1);
}

pair_state_lem_example :
    Answers
      (λ s. is_eligible s ≡ (
        (str_eq "valid" "valid" && str_eq "valid" "valid")
        && controls_passed (some controls)
        && measures_agree floats thresholds measured))
      (has_tokens (some controls))
      (pair_state floats thresholds (some controls) "valid" "valid" measured)
pair_state_lem_example = pair_state_lem floats thresholds (some controls) "valid" "valid" measured

abbrev pub counts : Floats
counts = record { Float = ℕ; leb = leb; ltb = ltb; neg = λ n. 0; is_finite = λ _. true }

pub counts-IsOrdered : IsOrdered counts
counts-IsOrdered = record {
  leb_trans = λ a b c h k. ground arith;
  leb-not_ltb = λ a b h. ground arith;
}

pub counts-IsLinear : IsLinear counts
counts-IsLinear = record {
  ltb_asym = λ a b h. ground arith;
  not_ltb_trans = λ a b c f h k. ground arith;
}

abbrev total : List ℕ → ℕ
total [] = 0
total (n ∷ ns) = n + total ns

abbrev pub arithmetic : Arithmetic counts
arithmetic = record { sum = total; add = λ a b. a + b; times = λ a b. a * b }

abbrev pub contract : Contract counts
contract = record {
  maximum_edges = 4;
  maximum_subsets = 16;
  source_default = 1;
  target_default = 1;
  source_overrides = [];
  target_overrides = [];
  maximum_n = 2;
  unmatched_penalty = 3;
  optimization_tolerance = 0;
  cardinality_preference = "fewer_edges";
  cardinalities = "1:1" ∷ [];
  has_decompositions = false;
}

-- Two sources that could be matched to one target, at different costs.
abbrev offers : Eligible counts
offers = record {
  source_ids = "s1" ∷ "s2" ∷ [];
  target_ids = "t" ∷ [];
  pairs = ("s2", "t") ∷ ("s1", "t") ∷ [];
  cost = λ e. if str_eq e.0 "s1" then 2 else 1;
}

offers-HasObjectives : HasObjectives counts arithmetic contract offers
offers-HasObjectives = record { finite = λ s h. refl; tolerant = λ x h. ground arith }

exact_match_lem_example :
    Answers
      (Best counts arithmetic contract offers)
      true
      (exact_match counts arithmetic contract offers)
unfolding components component_loop sorted_nodes nodes_of insert_node node_order search_nodes
    unvisited adjacent lefts rights sorted_edges insert_edge_sorted is_feasible within_capacities
    source_degree target_degree override chosen cardinalities_permit component_permitted count_zero
    objective solutions_from edge_order over_budget solutions insert_sorted sorted_set
exact_match_lem_example =
    exact_match_lem counts counts-IsOrdered counts-IsLinear arithmetic contract offers
      offers-HasObjectives

best_match :
    exact_match counts arithmetic contract offers
    ≡ ok (complete ((("s2", "t") ∷ []) ∷ []) (("s2", "t") ∷ []))
unfolding components component_loop sorted_nodes nodes_of insert_node node_order search_nodes
    unvisited adjacent lefts rights sorted_edges insert_edge_sorted is_feasible within_capacities
    source_degree target_degree override chosen cardinalities_permit component_permitted count_zero
    objective solutions_from edge_order over_budget solutions insert_sorted sorted_set exact_match
    best_of certified edge_count extreme optimum_of solution_eq survivors_of
    verify_matching_certificate verify_solution verify_solutions insert_solution least
    solution_order sorted_solutions
best_match = refl

solutions-exhaustive_example :
    any (λ s. solution_eq (("s1", "t") ∷ []) s.1) (solutions counts arithmetic contract offers)
    ≡ true
unfolding components component_loop sorted_nodes nodes_of insert_node node_order search_nodes
    unvisited adjacent lefts rights sorted_edges insert_edge_sorted is_feasible within_capacities
    source_degree target_degree override chosen cardinalities_permit component_permitted count_zero
    objective solutions_from edge_order over_budget solutions insert_sorted sorted_set
solutions-exhaustive_example =
    solutions-exhaustive counts arithmetic contract offers (λ e. str_eq e.0 "s1") refl

components_lem_example :
    (ks : List (List String × List String)) × (components (("s1", "t") ∷ ("s2", "u") ∷ [])
      ≡ some ks)
    × (all (λ (e : String × String). any (has_ends e.0 e.1) ks) (("s1", "t") ∷ ("s2", "u") ∷ [])
        ≡ true)
components_lem_example = components_lem (("s1", "t") ∷ ("s2", "u") ∷ [])
