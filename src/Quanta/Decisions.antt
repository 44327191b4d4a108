-- ===== src/Quanta/Decisions.antt =====
-- The ordered rules of `QuantaService.assess` of src/qste/quanta/service.py against the predicates
-- that they test, by the order laws of floats.
use qste.Base.{
  String, ◌≡◌, ◌↔◌, inl, inr, refl, true, false, ◌&&◌, ◌||◌, Option, none, some, List, [], ◌∷◌, any,
  all, Option-cases, arith,
}
use qste.Quanta.Intervals.{Floats, IsOrdered, bounds_finite, bound_ge, bound_lt, bound_le, bound_gt}
use qste.Quanta.Assess.{
  qualified, rejected, Candidate, Task, Run, Graph, interval_of, negative_valid, lower_zero,
  is_equivalent, is_nonequivalent, is_nonmeaningful, is_meaningful, is_nonempty, is_ready,
}
use qste.Quanta.Verdict.{verdict}

module _ (N : Floats) (laws : IsOrdered N) where
  at_least-not_below :
      (l u : Option N.Float) (x : N.Float)
      → bounds_finite N l u ≡ true
      → bound_ge N l x ≡ true
      → bound_lt N u x ≡ false
  at_least-not_below none u x h k = cc
  at_least-not_below (some l) none x h k = cc
  at_least-not_below (some l) (some u) x h k =
      laws.leb-not_ltb x u (laws.leb_trans x l u k (ground arith))

  inside-not_outside :
      (l u : Option N.Float) (lo hi : N.Float)
      → bounds_finite N l u ≡ true
      → bound_ge N l lo && bound_le N u hi ≡ true
      → bound_lt N u lo || bound_gt N l hi ≡ false
  inside-not_outside none u lo hi h k = cc
  inside-not_outside (some l) none lo hi h k = cc
  inside-not_outside (some l) (some u) lo hi h k =
      let a : N.leb l u ≡ true = ground arith in
      let b = laws.leb-not_ltb lo u (laws.leb_trans lo l u (ground arith) a) in
      let c = laws.leb-not_ltb l hi (laws.leb_trans l u hi a (ground arith)) in ground arith

  meaningful-excludes :
      (t : Task N) (r : Run N) (id : String)
      → is_meaningful N t r id ≡ true
      → is_nonmeaningful N t r id ≡ false
  unfolding is_meaningful is_nonmeaningful negative_valid
  meaningful-excludes t r id h = elim (Option-cases (interval_of N r.adjusted_intervals id)) [
    | inl e ↦ rw e (ground arith)
    | inr (i, e) ↦ let m = at_least-not_below i.lower i.upper t.meaningful_bound in ground arith
  ]

  equivalent-excludes :
      (t : Task N) (r : Run N) (id : String)
      → is_equivalent N t r id ≡ true
      → is_nonequivalent N t r id ≡ false
  unfolding is_equivalent is_nonequivalent negative_valid
  equivalent-excludes t r id h = elim (Option-cases (interval_of N r.adjusted_intervals id)) [
    | inl e ↦ rw e (ground arith)
    | inr (i, e) ↦
        let m = inside-not_outside i.lower i.upper (lower_zero N t) t.epsilon_plus in ground arith
  ]

  all_equivalent-excludes :
      (t : Task N) (r : Run N) (ids : List String)
      → all (is_equivalent N t r) ids ≡ true
      → any (is_nonequivalent N t r) ids ≡ false
  all_equivalent-excludes t r [] h = refl
  all_equivalent-excludes t r (id ∷ ids) h =
      let a = equivalent-excludes t r id (ground arith) in
      let b = all_equivalent-excludes t r ids (ground arith) in ground arith

  pub ready-nonempty :
      (c : Candidate) (t : Task N) (r : Run N) (g : Graph) (ids : List String)
      → is_ready N c t r g ids ≡ true
      → is_nonempty ids ≡ true
  unfolding is_ready
  ready-nonempty c t r g [] h = ground arith
  ready-nonempty c t r g (id ∷ ids) h = refl

  -- Under the order laws of floats, the verdict is `qualified` exactly when the evidence is ready,
  -- the candidate is meaningful and every proper node is equivalent, and `rejected` exactly when the
  -- candidate is nonmeaningful or some proper node is nonequivalent.
  pub verdict_lem :
      (c : Candidate) (t : Task N) (r : Run N) (g : Graph) (ids : List String)
      → (((verdict N c t r g ids).0 ≡ qualified) ↔ (
          (is_ready N c t r g ids ≡ true)
          × (is_meaningful N t r c.record_id ≡ true)
          × (all (is_equivalent N t r) ids ≡ true)))
        × (((verdict N c t r g ids).0 ≡ rejected)
            ↔ (is_nonmeaningful N t r c.record_id || any (is_nonequivalent N t r) ids ≡ true))
  unfolding verdict
  verdict_lem c t r g ids =
      let m = meaningful-excludes t r c.record_id in
      let e = all_equivalent-excludes t r ids in
      let n : is_ready N c t r g ids ≡ true → is_nonempty ids ≡ true = ready-nonempty c t r g ids in
      ground arith
