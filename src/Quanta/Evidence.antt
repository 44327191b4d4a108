-- ===== src/Quanta/Evidence.antt =====
-- The evidence of an assessment (src/qste/quanta/service.py): what the predicates of the verdict say of
-- the intervals that the assessment records.
use qste.Base.{
  String, ◌≡◌, inl, inr, refl, Bool, true, false, Option, none, some, List, [], ◌∷◌, map, str_eq,
  any, all, select, Bool-cases, Option-cases, arith,
}
use qste.Quanta.Intervals.{Floats, IsOrdered, finite_interval, bound_ge, bound_lt}
use qste.Quanta.Assess.{
  Candidate, Task, Run, Graph, interval_of, global_negative_valid, negative_valid, has_interval,
  is_equivalent, is_nonequivalent, is_nonmeaningful, is_meaningful, is_nonempty, is_ready,
}
use qste.Quanta.Verdict.{indeterminate_reason, interval_or_unavailable, tested_nodes}
use qste.Quanta.Contract.{is_decisive, is_nonempty_list, proper_inside, proper_outside}

module _ (N : Floats) where
  pub indeterminate_reason-not_decisive :
      (c : Candidate) (t : Task N) (r : Run N) (g : Graph) (ids : List String)
      → is_decisive (indeterminate_reason N c t r g ids) ≡ false
  unfolding indeterminate_reason
  indeterminate_reason-not_decisive c t r g ids = ground arith

  equivalent-inside :
      (t : Task N) (r : Run N) (id : String)
      → is_equivalent N t r id ≡ true
      → proper_inside N (N.neg t.epsilon_minus) t.epsilon_plus (interval_or_unavailable N r id)
        ≡ true
  unfolding is_equivalent negative_valid interval_or_unavailable
  equivalent-inside t r id h = elim (Option-cases (interval_of N r.adjusted_intervals id)) [
    | inl e ↦ ground arith
    | inr (i, e) ↦ ground arith
  ]

  nonequivalent-outside :
      (t : Task N) (r : Run N) (id : String)
      → is_nonequivalent N t r id ≡ true
      → proper_outside N (N.neg t.epsilon_minus) t.epsilon_plus (interval_or_unavailable N r id)
        ≡ true
  unfolding is_nonequivalent negative_valid interval_or_unavailable
  nonequivalent-outside t r id h = elim (Option-cases (interval_of N r.adjusted_intervals id)) [
    | inl e ↦ ground arith
    | inr (i, e) ↦ ground arith
  ]

  pub all_equivalent-inside :
      (t : Task N) (r : Run N) (ids : List String)
      → all (is_equivalent N t r) ids ≡ true
      → all
          (proper_inside N (N.neg t.epsilon_minus) t.epsilon_plus)
          (map (interval_or_unavailable N r) ids)
        ≡ true
  all_equivalent-inside t r [] h = refl
  all_equivalent-inside t r (id ∷ ids) h =
      let a = equivalent-inside t r id (ground arith) in
      let b = all_equivalent-inside t r ids (ground arith) in ground arith

  nonequivalent-valid :
      (t : Task N) (r : Run N) (id : String)
      → is_nonequivalent N t r id ≡ true
      → negative_valid N r id ≡ true
  unfolding is_nonequivalent
  nonequivalent-valid t r id h = ground arith

  pub any_nonequivalent-outside :
      (t : Task N) (r : Run N) (ids : List String)
      → any (is_nonequivalent N t r) ids ≡ true
      → (any
            (proper_outside N (N.neg t.epsilon_minus) t.epsilon_plus)
            (map (interval_or_unavailable N r) ids)
          ≡ true)
        × (any (negative_valid N r) ids ≡ true)
  any_nonequivalent-outside t r [] h = cc
  any_nonequivalent-outside t r (id ∷ ids) h = elim (Bool-cases (is_nonequivalent N t r id)) [
    | inl e ↦
        let a = nonequivalent-outside t r id e in
        let b = nonequivalent-valid t r id e in ground arith
    | inr e ↦ let a = any_nonequivalent-outside t r ids (ground arith) in ground arith
  ]

  pub nonmeaningful-below :
      (t : Task N) (r : Run N) (id : String)
      → is_nonmeaningful N t r id ≡ true
      → (finite_interval N (some (interval_or_unavailable N r id)) ≡ true)
        × (bound_lt N (interval_or_unavailable N r id).upper t.meaningful_bound ≡ true)
        × (negative_valid N r id ≡ true)
  unfolding is_nonmeaningful negative_valid interval_or_unavailable
  nonmeaningful-below t r id h = elim (Option-cases (interval_of N r.adjusted_intervals id)) [
    | inl e ↦ ground arith
    | inr (i, e) ↦ ground arith
  ]

  pub meaningful-above :
      (laws : IsOrdered N) (t : Task N) (r : Run N) (id : String)
      → is_meaningful N t r id ≡ true
      → (finite_interval N (some (interval_or_unavailable N r id)) ≡ true)
        × (bound_lt N (interval_or_unavailable N r id).lower t.meaningful_bound ≡ false)
  unfolding is_meaningful negative_valid interval_or_unavailable
  meaningful-above laws t r id h = elim (Option-cases (interval_of N r.adjusted_intervals id)) [
    | inl e ↦ ground arith
    | inr (i, e) ↦ let k = lower_case i.lower in ground arith
  ]
    where
      lower_case :
          (l : Option N.Float)
          → bound_ge N l t.meaningful_bound ≡ true
          → bound_lt N l t.meaningful_bound ≡ false
      lower_case none h = refl
      lower_case (some l) h = laws.leb-not_ltb t.meaningful_bound l h

  select-nonempty :
      (p : String → Bool) (ids : List String)
      → all p ids ≡ true
      → is_nonempty ids ≡ true
      → is_nonempty (select p ids) ≡ true
  select-nonempty p [] h k = cc
  select-nonempty p (id ∷ ids) h k = ground arith

  pub ready-tested :
      (c : Candidate) (t : Task N) (r : Run N) (g : Graph) (ids : List String)
      → is_ready N c t r g ids ≡ true
      → (is_nonempty (tested_nodes N r ids) ≡ true)
        × (g.is_complete ≡ true)
        × (str_eq r.dependency_validity "valid" ≡ true)
  unfolding is_ready negative_valid global_negative_valid
  ready-tested c t r g ids h = let s = select-nonempty (has_interval N r) ids in ground arith

  pub map-nonempty :
      (r : Run N) (ids : List String)
      → is_nonempty ids ≡ true
      → is_nonempty_list (map (interval_or_unavailable N r) ids) ≡ true
  map-nonempty r [] h = h
  map-nonempty r (id ∷ ids) h = refl
