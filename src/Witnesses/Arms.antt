-- ===== src/Witnesses/Arms.antt =====
-- The comparison of two sources with one target.
use qste.Witnesses.Relations.{counts, arithmetic, contract, controls}
use qste.Base.{true, Ensures, ◌∷◌, false, [], ◌≡◌, some, ok, if◌then◌else◌, refl, str_eq, none, All}
use qste.Relations.Arms.{
  check_arms, candidate_set, Arms, compare, check_candidates, is_distinct, pair_evidence, pair_rows,
  pair_row, state_in,
}
use qste.Relations.Pairs.{Measured, Thresholds, pair_state, control_state, measured_state}
use qste.Relations.Complete.{Speaks}
use qste.Relations.Compared.{compare_lem, IsOfArms}
use qste.Relations.Resolution.{
  assertion, overlap, resolved, relation_reason, unmatched_reason, global_terminal, is_omission,
  is_loss, is_zero, is_incomplete, is_coverage_boundary, is_effect_boundary, is_coverage_failed,
  is_effect_failed,
}
use qste.Relations.Assertions.{
  resolve_relations, matched_assertions, all_components, component_assertions, relation_of,
  left_over, unmatched_source, unmatched_target,
}
use qste.Relations.Components.{
  components, component_loop, sorted_nodes, nodes_of, insert_node, node_order, search_nodes,
  unvisited, adjacent, lefts, rights,
}
use qste.Relations.Components.{component_loop}
use qste.Relations.Matching.{
  sorted_edges, insert_edge_sorted, is_feasible, within_capacities, source_degree, target_degree,
  override, chosen, cardinalities_permit, component_permitted, count_zero, objective,
  solutions_from, exact_match, best_of, certified, edge_count, extreme, optimum_of, solution_eq,
  survivors_of, verify_matching_certificate, verify_solution, verify_solutions,
}
use qste.Relations.Orders.{edge_order}
use qste.Policy.State.{insert_sorted, sorted_set}
use qste.Relations.Sorting.{insert_solution, least, solution_order, sorted_solutions}

abbrev near : Measured counts
near = record {
  source_mass_zero = false;
  target_mass_zero = false;
  source_coverage = (3, 4);
  target_coverage = (4, 5);
  effect = (0, 1);
}

abbrev bounds : Thresholds counts
bounds = record { threshold = 3; tolerance = 2 }

abbrev arms : Arms counts
arms = record {
  authorization_status = "permitted";
  arm_of = λ id. ok (if str_eq id "t" then "right" else "left");
  projection_arms = ok ("left", "right");
  unit_evidence = ok tt;
  has_pairs = true;
  fits = λ s t. true;
  source_ids = "s1" ∷ "s2" ∷ [];
  target_ids = "t" ∷ [];
  status_of = λ id. "valid";
  controls_of = λ s t. some controls;
  measured_of = λ s t. near;
  cost_of = λ s t. if str_eq s "s1" then 2 else 1;
}

compared :
    compare counts arithmetic contract bounds [] arms
    ≡ ok (
        assertion (some overlap) resolved "matched_overlap" ("s2" ∷ []) ("t" ∷ [])
        ∷ assertion none resolved "unmatched_by_spec" ("s1" ∷ []) ("t" ∷ [])
        ∷ [])
unfolding compare check_arms candidate_set check_candidates is_distinct pair_evidence pair_rows
    pair_row pair_state control_state measured_state resolve_relations matched_assertions
    all_components component_assertions relation_of relation_reason left_over unmatched_source
    unmatched_target unmatched_reason global_terminal state_in is_omission is_loss is_zero
    is_incomplete is_coverage_boundary is_effect_boundary is_coverage_failed is_effect_failed
    components component_loop sorted_nodes nodes_of insert_node node_order search_nodes unvisited
    adjacent lefts rights sorted_edges insert_edge_sorted is_feasible within_capacities
    source_degree target_degree override chosen cardinalities_permit component_permitted count_zero
    objective solutions_from edge_order insert_sorted sorted_set exact_match best_of certified
    edge_count extreme optimum_of solution_eq survivors_of verify_matching_certificate
    verify_solution verify_solutions insert_solution least solution_order sorted_solutions
compared = refl

compare_lem_example :
    Ensures
      (λ found.
        Speaks "s1" "t" found × All (IsOfArms counts arithmetic contract bounds [] arms) found)
      (compare counts arithmetic contract bounds [] arms)
compare_lem_example = compare_lem counts arithmetic contract bounds [] arms "s1" "t" refl refl
