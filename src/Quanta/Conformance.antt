-- ===== src/Quanta/Conformance.antt =====
-- The assessments of `QuantaService.assess` (src/qste/quanta/service.py) against the checks that
-- src/qste/core/p6_contracts.py and src/qste/core/contracts.py make of them when they are stored.
use qste.Base.{
  String, ◌≡◌, ◌⊎◌, inl, inr, Bool, true, ◌&&◌, Option, none, some, ◌∷◌, str_eq, any, all,
  Bool-cases, arith, ok, Answers, Ensures, contains,
}
use qste.Quanta.Intervals.{Floats, IsOrdered}
use qste.Quanta.Assess.{
  rejected, indeterminate, candidate_nonmeaningful, Candidate, Task, Run, Graph, proper_ids_of,
  ids_eq, availability_graph, validate_assessment_links, is_equivalent, is_nonequivalent,
  is_nonmeaningful, is_meaningful, is_nonempty, is_ready,
}
use qste.Quanta.Verdict.{verdict, Assessment, assessment_of, graph_for, assess}
use qste.Quanta.Contract.{validate_assessment, validate_semantics}
use qste.Quanta.Evidence.{
  indeterminate_reason-not_decisive, all_equivalent-inside, any_nonequivalent-outside,
  nonmeaningful-below, meaningful-above, ready-tested, map-nonempty,
}

module _ (N : Floats) where
  -- The checks of a stored assessment, both of them.
  unfoldable pub Conforms : Assessment N → Type 0
  Conforms a = (validate_assessment N a ≡ ok tt) × (validate_semantics N a ≡ ok tt)

  assessment-Conforms :
      IsOrdered N
      → (authorization : String) (c : Candidate) (t : Task N) (r : Run N) (g : Graph)
      → str_eq authorization "permitted" ≡ true
      → N.is_finite t.meaningful_bound ≡ true
      → Conforms (assessment_of N authorization c t r g)
  unfolding validate_assessment validate_semantics assessment_of verdict Conforms
  assessment-Conforms laws authorization c t r g permitted fin =
      let ids = proper_ids_of g.required_closure in
      elim (Bool-cases (is_nonmeaningful N t r c.record_id)) [
        | inl e ↦
            let h = nonmeaningful-below N t r c.record_id e in rw e (ground arith, ground arith)
        | inr e ↦ elim (Bool-cases (any (is_nonequivalent N t r) ids)) [
          | inl d ↦
              let h = any_nonequivalent-outside N t r ids d in
              rw (e, d) (ground arith, ground arith)
          | inr d ↦
              elim (Bool-cases (
                is_ready N c t r g ids
                && is_meaningful N t r c.record_id
                && (is_nonempty ids && all (is_equivalent N t r) ids))) [
                  | inl q ↦
                      let n : is_nonempty ids ≡ true = ground arith in
                      let h1 = ready-tested N c t r g ids (ground arith) in
                      let h2 = meaningful-above N laws t r c.record_id (ground arith) in
                      let h3 = all_equivalent-inside N t r ids (ground arith) in
                      let h4 = map-nonempty N r ids n in
                      let h5 : is_ready N c t r g ids ≡ true = ground arith in
                      rw (e, d, q) (ground arith, ground arith)
                  | inr q ↦
                      let h = indeterminate_reason-not_decisive N c t r g ids in
                      rw (e, d, q) (ground arith, ground arith)
                ]
        ]
      ]

  -- The root and the closure of the given graph are the candidate's and the task's.
  abbrev pub names_closure : Candidate → Task N → Option Graph → Bool
  names_closure c t none = true
  names_closure c t (some g) =
      str_eq g.root_id c.record_id
      && ids_eq t.eligible_family (c.record_id ∷ proper_ids_of g.required_closure)

  -- What an assessment requires, as one test.
  unfoldable pub may_assess : String → Candidate → Task N → Run N → Option Graph → Bool
  may_assess authorization c t r graph =
      str_eq authorization "permitted"
      && (str_eq t.profile "qste-paired-score-task/v0.1" && str_eq t.candidate_id c.record_id)
      && (str_eq r.profile "qste-paired-score-run/v0.1" && str_eq r.task_id t.record_id)
      && names_closure c t graph
      && contains c.record_id r.raw_units

  -- A permitted assessment of linked records, whose task names the closure of the given graph and
  -- whose run has scores of the candidate, returns, and what it returns passes
  -- `_validate_assessment` and the DSQAssessment checks of the record contracts; any other is an
  -- error. The floats are ordered and the task's meaningful bound is finite.
  pub assess-Conforms :
      IsOrdered N
      → (authorization : String) (c : Candidate) (t : Task N) (r : Run N) (graph : Option Graph)
      → N.is_finite t.meaningful_bound ≡ true
      → Answers Conforms (may_assess authorization c t r graph) (assess N authorization c t r graph)
  unfolding assess may_assess graph_for validate_assessment_links
  assess-Conforms laws authorization c t r none fin =
      let k = assessment-Conforms laws authorization c t r (availability_graph c) in ground arith
  assess-Conforms laws authorization c t r (some g) fin =
      let k = assessment-Conforms laws authorization c t r g in ground arith

  -- Without a refinement graph an assessment is never `qualified`, and it is `rejected` only because
  -- the candidate itself is nonmeaningful.
  pub assess_without_graph :
      (authorization : String) (c : Candidate) (t : Task N) (r : Run N)
      → Ensures
          (λ a.
            (a.status ≡ indeterminate)
            ⊎ ((a.status ≡ rejected)
                × (a.reason ≡ candidate_nonmeaningful)
                × (is_nonmeaningful N t r c.record_id ≡ true)))
          (assess N authorization c t r none)
  unfolding assess graph_for assessment_of verdict is_ready
  assess_without_graph authorization c t r = ground arith
