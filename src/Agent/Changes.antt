-- ===== src/Agent/Changes.antt =====
-- The changes that `_decision` of src/qste/agent/service.py makes to a successor's state.
use qste.Base.{
  String, Bool, true, false, not, ◌||◌, Option, none, some, List, contains, str_eq, eq_iff, Result,
  err, Ensures, Ensures-bind, Ensures-raise_if, if◌then◌else◌, ◌≡◌, refl, subst, sym, Bool-cases,
  inl, inr, arith, policy_refused, conformance_failed, some_inj, ◌∙◌,
}
use qste.Core.Json.{
  Json, null, text, obj, Items, nil, item, Fields, end, field, get_field, set_field,
}
use qste.Agent.Actions.{volatile_fields, is_nil}
use qste.Agent.Revision.{get_or_null, is_mutable, apply_change, apply_changes}

-- A field that a successor may change.
abbrev pub IsAllowed : List String → String → Type 0
IsAllowed allowed m = (contains m volatile_fields ≡ false) × (contains m allowed ≡ true)

IsAllowed-is_mutable :
    (allowed : List String) (mutable : Option String) (k : String)
    → is_mutable allowed mutable k ≡ true
    → (mutable ≡ some k) × IsAllowed allowed k
IsAllowed-is_mutable allowed none k h = cc
IsAllowed-is_mutable allowed (some m) k h = ground (arith, eq_iff k m)

module _ {F : Type 0} where
  get_field-set_field :
      (k j : String) (v : Json F) (fs : Fields F)
      → get_field k (set_field j v fs) ≡ (if str_eq k j then some v else get_field k fs)
  unfolding get_field set_field
  get_field-set_field k j v end = refl
  get_field-set_field k j v (field i w fs) =
      let ih = get_field-set_field k j v fs in ground (arith, eq_iff k j, eq_iff j i, eq_iff k i)

  -- A state with a value of its own at one field, and the values of another elsewhere.
  abbrev pub DiffersAt : String → Fields F → Fields F → Type 0
  DiffersAt m current next =
      (v : Json F) × ((k : String)
        → get_field k next ≡ (if str_eq k m then some v else get_field k current))

  -- The same, or no change yet.
  abbrev AgreesOff : String → Fields F → Fields F → Type 0
  AgreesOff m current next =
      (k : String) → str_eq k m ≡ false → get_field k next ≡ get_field k current

  DiffersAt-set_field :
      (m : String) (v : Json F) (current next : Fields F)
      → AgreesOff m current next
      → DiffersAt m current (set_field m v next)
  DiffersAt-set_field m v current next h = (
    v,
    λ k. elim (Bool-cases (str_eq k m)) [
      | inl e ↦ rw (get_field-set_field k m v next, e) refl
      | inr e ↦ rw (get_field-set_field k m v next, e) (h k e)
    ],
  )

  AgreesOff-DiffersAt :
      (m : String) (current next : Fields F) → DiffersAt m current next → AgreesOff m current next
  AgreesOff-DiffersAt m current next (v, h) k e = let at = h k in ground arith

  from_text :
      {B : Type 0} (Q : B → Type 0) (next : String → Result B) (j : Json F)
      → ((k : String) → Ensures Q (next k))
      → Ensures Q (elim j [ text k ↦ next k | _ ↦ err policy_refused ])
  from_text Q next null h = tt
  from_text Q next (text k) h = h k
  from_text Q next j h = tt

  module _ (eq : Json F → Json F → Bool) (allowed : List String) (current : Fields F) where
    -- What a change leaves, if it is accepted.
    abbrev pub Changed : Option String → Fields F → Type 0
    Changed mutable next =
        (m : String) × (mutable ≡ some m) × IsAllowed allowed m × DiffersAt m current next

    abbrev Unchanged : Option String → Fields F → Type 0
    Unchanged mutable next = (m : String) → mutable ≡ some m → AgreesOff m current next

    apply_change-Changed :
        (mutable : Option String) (change next : Fields F)
        → Unchanged mutable next
        → Ensures (Changed mutable) (apply_change eq allowed mutable current change next)
    unfolding apply_change
    apply_change-Changed mutable change next u =
        from_text (Changed mutable) _ (get_or_null "field" change) λ k.
          Ensures-raise_if (Changed mutable) (not (is_mutable allowed mutable k)) policy_refused _
            λ e.
              let a = IsAllowed-is_mutable allowed mutable k (ground arith) in
              Ensures-raise_if (Changed mutable)
                (not (eq (get_or_null "before" change) (get_or_null k current))
                  || eq (get_or_null "after" change) (get_or_null "before" change))
                conformance_failed _
                λ e'. (
                  k,
                  a.0,
                  a.1,
                  DiffersAt-set_field k (get_or_null "after" change) current next (u k a.0),
                )

    Unchanged-Changed :
        (mutable : Option String) (next : Fields F) → Changed mutable next → Unchanged mutable next
    Unchanged-Changed mutable next (m, e, a, d) n e' =
        let same : m ≡ n = some_inj (sym e ∙ e') in
        subst (λ k. AgreesOff k current next) same (AgreesOff-DiffersAt m current next d)

    more_changes :
        (mutable : Option String) (changes : Items F) (next : Fields F)
        → Changed mutable next
        → Ensures (Changed mutable) (apply_changes eq allowed mutable current changes next)
    unfolding apply_changes
    more_changes mutable nil next c = c
    more_changes mutable (item (obj change) rest) next c =
        Ensures-bind (Changed mutable) (Changed mutable) _ _
          (apply_change-Changed mutable change next (Unchanged-Changed mutable next c))
          λ next' c'. more_changes mutable rest next' c'
    more_changes mutable (item null rest) next c = tt
    more_changes mutable (item _ rest) next c = tt

    pub apply_changes-Changed :
        (mutable : Option String) (changes : Items F)
        → is_nil changes ≡ false
        → Ensures (Changed mutable) (apply_changes eq allowed mutable current changes current)
    unfolding apply_changes
    apply_changes-Changed mutable nil h = cc
    apply_changes-Changed mutable (item (obj change) rest) h =
        Ensures-bind (Changed mutable) (Changed mutable) _ _
          (apply_change-Changed mutable change current (λ m e k f. refl))
          λ next' c'. more_changes mutable rest next' c'
    apply_changes-Changed mutable (item null rest) h = tt
    apply_changes-Changed mutable (item _ rest) h = tt
