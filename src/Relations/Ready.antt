-- ===== src/Relations/Ready.antt =====
-- When the tests pass that `compare` of src/qste/relations/service.py makes before it reads the pairs.
use qste.Base.{
  String, ◌≡◌, refl, Bool, false, not, ◌&&◌, List, [], ◌∷◌, all, any, str_eq, Result, ok, err,
  raise_if, ◌>>=◌, ◌>>◌, is_ok, Answers, Answers-bind, Answers-raise_if, arith,
  invalid_comparison_spec, policy_refused,
}
use qste.Quanta.Intervals.{Floats}
use qste.Relations.Arms.{Arms, check_candidates, arms_of, candidate_set, check_arm, check_arms}
use qste.Relations.Returns.{is_side, is_ok-check_candidates}

Answers-of_is_ok {ℓ} :
    {A : Type ℓ} (b : Bool) (m : Result A) → is_ok m ≡ b → Answers (λ _. Unit) b m
Answers-of_is_ok b (ok x) h = (cc, tt)
Answers-of_is_ok b (err e) h = cc

pub is_ok-Answers {ℓ} :
    {A : Type ℓ} (P : A → Type 0) (b : Bool) (m : Result A) → Answers P b m → is_ok m ≡ b
is_ok-Answers P b (ok x) h = cc (h.0)
is_ok-Answers P b (err e) h = cc

Answers-map {ℓ κ} :
    {A : Type ℓ} {B : Type κ} (P : A → Type 0) (Q : B → Type 0) (b : Bool) (m : Result A)
    (f : A → B)
    → Answers P b m
    → ((x : A) → P x → Q (f x))
    → Answers Q b (m >>= λ x. ok (f x))
Answers-map P Q b (ok x) f h k = (h.0, k x h.1)
Answers-map P Q b (err e) f h k = h

module _ (N : Floats) where
  abbrev pub is_candidate : Arms N → String → Bool
  is_candidate g id = is_ok (g.arm_of id)

  abbrev pub is_of : String → Result String → Bool
  is_of arm (ok a) = str_eq a arm
  is_of arm (err e) = false

  -- The candidate is one of the arm.
  abbrev pub belongs : Arms N → String → String → Bool
  belongs g arm id = is_of arm (g.arm_of id)

  abbrev pub belong : Arms N → Result (String × String) → Bool
  belong g (err e) = false
  belong g (ok p) = all (belongs g p.0) g.source_ids && all (belongs g p.1) g.target_ids

  -- Authorized, of different candidates that are stored, as many as allowed and of the arms of the
  -- projections, with evidence of the units and of the pairs.
  unfoldable pub is_ready : Arms N → Bool
  is_ready g =
      str_eq g.authorization_status "permitted"
      && ((is_side g.source_ids && all (is_candidate g) g.source_ids)
          && ((is_side g.target_ids && all (is_candidate g) g.target_ids)
              && (belong g g.projection_arms && (is_ok g.unit_evidence && g.has_pairs))))

  -- The arms are those of the candidates.
  abbrev AreOf : Arms N → List String → List String → Type 0
  AreOf g ids arms =
      (arm : String) → any (λ a. not (str_eq a arm)) arms ≡ not (all (belongs g arm) ids)

  arms_of-Answers :
      (g : Arms N) (ids : List String)
      → Answers (AreOf g ids) (all (is_candidate g) ids) (arms_of N g ids)
  arms_of-Answers g [] = (refl, λ arm. refl)
  arms_of-Answers g (id ∷ ids) = one (g.arm_of id) refl (arms_of-Answers g ids)
    where
      one :
          (m : Result String)
          → g.arm_of id ≡ m
          → Answers (AreOf g ids) (all (is_candidate g) ids) (arms_of N g ids)
          → Answers (AreOf g (id ∷ ids)) (all (is_candidate g) (id ∷ ids)) (arms_of N g (id ∷ ids))
      one (err e) h i = rw h refl
      one (ok a) h i = rw h (
          Answers-map (AreOf g ids) (AreOf g (id ∷ ids)) (all (is_candidate g) ids)
            (arms_of N g ids) (λ rest. a ∷ rest) i
            (λ rest k arm. let e = k arm in rw h (ground arith)))

  candidate_set-Answers :
      (g : Arms N) (ids : List String)
      → Answers (AreOf g ids) (is_side ids && all (is_candidate g) ids) (candidate_set N g ids)
  unfolding candidate_set
  candidate_set-Answers g ids =
      Answers-bind (λ _. Unit) (AreOf g ids) (is_side ids) (all (is_candidate g) ids)
        (check_candidates ids) _
        (Answers-of_is_ok (is_side ids) (check_candidates ids) (is_ok-check_candidates ids))
        (λ _ _. arms_of-Answers g ids)

  check_arm-Answers :
      (g : Arms N) (ids arms : List String) (arm : String)
      → AreOf g ids arms
      → Answers (λ _. Unit) (all (belongs g arm) ids) (check_arm N arm arms)
  check_arm-Answers g ids arms arm h =
      Answers-of_is_ok (all (belongs g arm) ids) (check_arm N arm arms)
        (let e = h arm in ground arith)

  -- The tests on the arms and the evidence.
  evidence-Answers :
      (g : Arms N) (ss ts : List String) (p : Result (String × String))
      → AreOf g g.source_ids ss
      → AreOf g g.target_ids ts
      → Answers
          (λ _. Unit)
          (belong g p && (is_ok g.unit_evidence && g.has_pairs))
          (p >>= λ projected.
            check_arm N projected.0 ss
            >> (check_arm N projected.1 ts
                >> (g.unit_evidence >> raise_if (not g.has_pairs) invalid_comparison_spec)))
  evidence-Answers g ss ts (err e) h k = refl
  evidence-Answers g ss ts (ok p) h k =
      is_ok-check_arms (all (belongs g p.0) g.source_ids) (all (belongs g p.1) g.target_ids)
        (check_arm N p.0 ss) (check_arm N p.1 ts) g.unit_evidence g.has_pairs
        (check_arm-Answers g g.source_ids ss p.0 h) (check_arm-Answers g g.target_ids ts p.1 k)
    where
      is_ok-check_arms :
          (a b : Bool) (m n u : Result (Unit {0})) (c : Bool)
          → Answers (λ _. Unit) a m
          → Answers (λ _. Unit) b n
          → Answers
              (λ _. Unit)
              ((a && b) && (is_ok u && c))
              (m >> (n >> (u >> raise_if (not c) invalid_comparison_spec)))
      is_ok-check_arms a b m n u c h k = ground arith

  pub is_ok-check_arms : (g : Arms N) → is_ok (check_arms N g) ≡ is_ready g
  unfolding check_arms is_ready
  is_ok-check_arms g =
      is_ok-Answers (λ _. Unit) _ _
        (Answers-raise_if (λ _. Unit) (str_eq g.authorization_status "permitted") _ policy_refused _
          (Answers-bind (AreOf g g.source_ids) (λ _. Unit)
            (is_side g.source_ids && all (is_candidate g) g.source_ids) _
            (candidate_set N g g.source_ids) _ (candidate_set-Answers g g.source_ids)
            (λ ss h.
              Answers-bind (AreOf g g.target_ids) (λ _. Unit)
                (is_side g.target_ids && all (is_candidate g) g.target_ids) _
                (candidate_set N g g.target_ids) _ (candidate_set-Answers g g.target_ids)
                (λ ts k. evidence-Answers g ss ts g.projection_arms h k))))
