-- ===== src/Agent/Budgets.antt =====
-- That the budgets of src/qste/agent/service.py hold: from the boundary's, by `_limits`, to the use of
-- resources that `_resource_use` accepts.
use qste.Base.{
  raise_if-eq-ok, Ensures, Ensures-bind, Ensures-then, Ensures-weaken, Ensures-eq, Ensures-raise_if,
  All-and, some_inj, policy_refused, invalid_input, capability_unavailable, internal_error,
  >>-first, >>-rest, ℕ, String, Bool, true, false, not, ◌||◌, Option, none, some, List, [], ◌∷◌,
  All, All-map, str_eq, eq_iff, eq_refl, ok, err, raise_if, ok_inj, ltb, ◌≡◌, refl, subst, sym, ap,
  ◌∙◌, Bool-cases, inl, inr, arith,
}
use qste.Core.Json.{obj, null, Json, int, bool, Fields, end, field, get_field}
use qste.Agent.Limits.{
  Budget, limit_fields, positive_int, positive_members, member, is_above, check_boundary, limits,
  exceeds, check_use, resource_use, nonnegative_int, has_exactly,
}

has_key : String → Budget → Bool
has_key key [] = false
has_key key ((k, n) ∷ rest) = str_eq key k || has_key key rest

has_key_self : (key : String) (n : ℕ) (rest : Budget) → has_key key ((key, n) ∷ rest) ≡ true
unfolding has_key
has_key_self key n rest = let e = eq_refl key in ground arith

module _ {F : Type 0} where
  -- The normalized limits as the record of the opportunity keeps them.
  unfoldable pub fields_of : Budget → Fields F
  fields_of [] = end
  fields_of ((key, n) ∷ rest) = field key (int n) (fields_of rest)

  -- A field with a number that the boundary's maximum does not lie below.
  abbrev pub IsBounded : Fields F → Fields F → String → Type 0
  IsBounded budgets fs key =
      (n : ℕ) × (get_field key fs ≡ some (int n)) × (is_above n (get_field key budgets) ≡ false)

  IsBounded-limit :
      (key : String) (b : Budget) (budgets : Fields F)
      → check_boundary b budgets ≡ ok tt
      → has_key key b ≡ true
      → IsBounded budgets (fields_of b) key
  unfolding check_boundary has_key fields_of get_field
  IsBounded-limit key [] budgets c h = let no : ⊥ = cc in absurd no
  IsBounded-limit key ((k, n) ∷ rest) budgets c h = elim (Bool-cases (str_eq key k)) [
    | inl e ↦ rw e (
      n,
      refl,
      subst (λ j. is_above n (get_field j budgets) ≡ false) (sym ((eq_iff key k).0 e))
          (raise_if-eq-ok (is_above n (get_field k budgets)) policy_refused (>>-first _ _ c)),
    )
    | inr e ↦ rw e (IsBounded-limit key rest budgets (>>-rest _ _ c) (ground arith))
  ]

  member-Ensures :
      (key : String) (fs : Fields F) → Ensures (λ v. get_field key fs ≡ some v) (member key fs)
  member-Ensures key fs =
      elim (get_field key fs)
        as (λ o. Ensures (λ v. o ≡ some v) (elim o [ none ↦ err internal_error | some v ↦ ok v ])) [
          | none ↦ tt
          | some v ↦ refl
        ]

  positive_members-has_key :
      (keys : List String) (fs : Fields F)
      → Ensures (λ b. All (λ k. has_key k b ≡ true) keys) (positive_members keys fs)
  unfolding positive_members has_key
  positive_members-has_key [] fs = tt
  positive_members-has_key (key ∷ keys) fs =
      let Q = λ (b : Budget). All (λ k. has_key k b ≡ true) (key ∷ keys) in
      Ensures-then Q (member key fs) _ λ v. Ensures-then Q (positive_int v) _ λ n.
        Ensures-bind (λ b. All (λ k. has_key k b ≡ true) keys) Q (positive_members keys fs) _
          (positive_members-has_key keys fs)
          λ rest h. (
            has_key_self key n rest,
            All-map (λ k. has_key k rest ≡ true) (λ k. has_key k ((key, n) ∷ rest) ≡ true) keys
                (λ k e. ground arith) h,
          )

  limits-IsBounded :
      (value budgets : Fields F)
      → Ensures
          (λ b. All (IsBounded budgets (fields_of b)) limit_fields)
          (limits value (some (obj budgets)))
  unfolding limits
  limits-IsBounded value budgets =
      let Q = λ (b : Budget). All (IsBounded budgets (fields_of b)) limit_fields in
      Ensures-then Q (raise_if (not (has_exactly limit_fields value)) invalid_input) _ λ u.
        Ensures-bind (λ b. All (λ k. has_key k b ≡ true) limit_fields) Q
          (positive_members limit_fields value) _ (positive_members-has_key limit_fields value)
          λ b h.
            Ensures-bind (λ u. check_boundary b budgets ≡ ok u) Q (check_boundary b budgets) _
              (Ensures-eq (check_boundary b budgets))
              λ u c.
                All-map (λ k. has_key k b ≡ true) (IsBounded budgets (fields_of b)) limit_fields
                  (λ k e. IsBounded-limit k b budgets c e) h

  module _ (exceeds_float : ℕ → F → Bool) where
    -- A use that its limit is not exceeded by.
    abbrev IsUsed : Fields F → Fields F → String → Type 0
    IsUsed taken budget key =
        (used : ℕ) × (limit : Json F) × (get_field key taken ≡ some (int used))
        × (get_field key budget ≡ some limit)
        × (exceeds exceeds_float used limit ≡ ok false)

    nonnegative_int-Ensures : (v : Json F) → Ensures (λ n. v ≡ int n) (nonnegative_int v)
    nonnegative_int-Ensures (int n) = refl
    nonnegative_int-Ensures null = tt
    nonnegative_int-Ensures v = tt

    check_use-IsUsed :
        (keys : List String) (taken budget : Fields F)
        → Ensures (λ _. All (IsUsed taken budget) keys) (check_use exceeds_float keys taken budget)
    unfolding check_use
    check_use-IsUsed [] taken budget = tt
    check_use-IsUsed (key ∷ keys) taken budget =
        let Q = λ (_ : Unit {0}). All (IsUsed taken budget) (key ∷ keys) in
        Ensures-bind (λ v. get_field key taken ≡ some v) Q (member key taken) _
          (member-Ensures key taken)
          λ v e.
            Ensures-bind (λ n. v ≡ int n) Q (nonnegative_int v) _ (nonnegative_int-Ensures v)
              λ used i.
                Ensures-bind (λ l. get_field key budget ≡ some l) Q (member key budget) _
                  (member-Ensures key budget)
                  λ limit l.
                    Ensures-bind (λ a. exceeds exceeds_float used limit ≡ ok a) Q
                      (exceeds exceeds_float used limit) _
                      (Ensures-eq (exceeds exceeds_float used limit))
                      λ above x.
                        Ensures-raise_if Q above capability_unavailable
                          (check_use exceeds_float keys taken budget)
                          λ below.
                            Ensures-weaken (λ _. All (IsUsed taken budget) keys) Q
                              (check_use exceeds_float keys taken budget)
                              (check_use-IsUsed keys taken budget)
                              λ u h. ((used, limit, e ∙ ap some i, l, x ∙ ap ok below), h)

    within_boundary :
        (n used : ℕ) (maximum : Option (Json F))
        → ltb n used ≡ false
        → is_above n maximum ≡ false
        → is_above used maximum ≡ false
    within_boundary n used none a b = cc
    within_boundary n used (some (int m)) a b = ground arith
    within_boundary n used (some (bool true)) a b = ground arith
    within_boundary n used (some (bool false)) a b = ground arith
    within_boundary n used (some null) a b = b
    within_boundary n used (some v) a b = b

    IsBounded-taken :
        (taken budget budgets : Fields F) (key : String)
        → IsUsed taken budget key
        → IsBounded budgets budget key
        → IsBounded budgets taken key
    IsBounded-taken taken budget budgets key (used, limit, e, l, x) (n, l', b) =
        let same : limit ≡ int n = some_inj (sym l ∙ l') in
        let kept : exceeds exceeds_float used (int n) ≡ ok false =
          subst (λ j. exceeds exceeds_float used j ≡ ok false) same x in
        (used, e, within_boundary n used (get_field key budgets) (ok_inj kept) b)

    -- When `_limits` returns the budget of an opportunity under a governance boundary, then a use of
    -- resources that `_resource_use` accepts under this budget gives every limit field a number that
    -- is not above the boundary's own maximum, which is an integer.
    pub resource_use-IsBounded :
        (value budgets taken : Fields F)
        → Ensures
            (λ b.
              Ensures
                (λ _. All (IsBounded budgets taken) limit_fields)
                (resource_use exceeds_float taken (fields_of b)))
            (limits value (some (obj budgets)))
    unfolding resource_use
    resource_use-IsBounded value budgets taken =
        Ensures-weaken (λ b. All (IsBounded budgets (fields_of b)) limit_fields) _
          (limits value (some (obj budgets))) (limits-IsBounded value budgets)
          λ b h.
            Ensures-then (λ _. All (IsBounded budgets taken) limit_fields)
              (raise_if (not (has_exactly limit_fields taken)) invalid_input) _
              λ u.
                Ensures-weaken (λ _. All (IsUsed taken (fields_of b)) limit_fields) _
                  (check_use exceeds_float limit_fields taken (fields_of b))
                  (check_use-IsUsed limit_fields taken (fields_of b))
                  λ _ k.
                    All-map
                      (λ key. IsUsed taken (fields_of b) key × IsBounded budgets (fields_of b) key)
                      (IsBounded budgets taken) limit_fields
                      (λ key e. IsBounded-taken taken (fields_of b) budgets key e.0 e.1)
                      (All-and (IsUsed taken (fields_of b)) (IsBounded budgets (fields_of b))
                        limit_fields k h)
