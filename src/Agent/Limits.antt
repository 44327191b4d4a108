-- ===== src/Agent/Limits.antt =====
-- The budgets of an agent: `_limits`, `_resource_use` and the number checks of
-- src/qste/agent/service.py. How a number compares to a float is the argument `exceeds_float`.
use qste.Base.{
  ℕ, String, Bool, true, false, not, ◌&&◌, Option, none, some, List, [], ◌∷◌, all, contains, ltb,
  Result, ok, err, raise_if, ◌>>=◌, ◌>>◌, invalid_input, conformance_failed, policy_refused,
  capability_unavailable, internal_error,
}
use qste.Core.Json.{Json, int, neg_int, bool, float, obj, Fields, end, field, get_field, has_field}

-- `LIMIT_FIELDS`
unfoldable pub limit_fields : List String
limit_fields =
    "maximum_operations" ∷ "maximum_seconds" ∷ "maximum_information_records"
    ∷ "maximum_memory_items" ∷ "maximum_resource_units" ∷ []

-- A normalized budget, by its field.
abbrev pub Budget : Type 0
Budget = List (String × ℕ)

module _ {F : Type 0} where
  abbrev pub names : Fields F → List String
  names end = []
  names (field k v fs) = k ∷ names fs

  -- `set(value) == set(keys)`
  unfoldable pub has_exactly : List String → Fields F → Bool
  has_exactly keys fs = all (λ k. has_field k fs) keys && all (λ k. contains k keys) (names fs)

  -- `_positive_int`; a Boolean is no integer here.
  abbrev pub positive_int : Json F → Result ℕ
  positive_int (int n) = raise_if (ltb n 1) invalid_input >> ok n
  positive_int _ = err invalid_input

  -- `_nonnegative_int`
  abbrev pub nonnegative_int : Json F → Result ℕ
  nonnegative_int (int n) = ok n
  nonnegative_int _ = err invalid_input

  -- `value[key]`, after the keys were checked.
  abbrev pub member : String → Fields F → Result (Json F)
  member key fs = elim (get_field key fs) [ none ↦ err internal_error | some v ↦ ok v ]

  unfoldable pub positive_members : List String → Fields F → Result Budget
  positive_members [] fs = ok []
  positive_members (key ∷ keys) fs = do
    value ← member key fs
    n ← positive_int value
    rest ← positive_members keys fs
    ok ((key, n) ∷ rest)

  -- `not isinstance(maximum, int) or n > maximum`; a Boolean is an integer of Python.
  abbrev pub is_above : ℕ → Option (Json F) → Bool
  is_above n (some (int maximum)) = ltb maximum n
  is_above n (some (bool true)) = ltb 1 n
  is_above n (some (bool false)) = ltb 0 n
  is_above n _ = true

  unfoldable pub check_boundary : Budget → Fields F → Result (Unit {0})
  check_boundary [] budgets = ok tt
  check_boundary ((key, n) ∷ rest) budgets =
      raise_if (is_above n (get_field key budgets)) policy_refused >> check_boundary rest budgets

  abbrev pub budgets_of : Option (Json F) → Result (Fields F)
  budgets_of (some (obj budgets)) = ok budgets
  budgets_of _ = err conformance_failed

  -- `_limits`, of the limits and the boundary's `budgets`.
  unfoldable pub limits : Fields F → Option (Json F) → Result Budget
  limits value boundary_budgets = do
    raise_if (not (has_exactly limit_fields value)) invalid_input
    normalized ← positive_members limit_fields value
    budgets ← budgets_of boundary_budgets
    check_boundary normalized budgets
    ok normalized

  module _ (exceeds_float : ℕ → F → Bool) where
    -- `used > limits[key]`; what is no number raises a `TypeError`.
    abbrev pub exceeds : ℕ → Json F → Result Bool
    exceeds used (int limit) = ok (ltb limit used)
    exceeds used (bool true) = ok (ltb 1 used)
    exceeds used (bool false) = ok (ltb 0 used)
    exceeds used (neg_int limit) = ok true
    exceeds used (float limit) = ok (exceeds_float used limit)
    exceeds used _ = err internal_error

    unfoldable pub check_use : List String → Fields F → Fields F → Result (Unit {0})
    check_use [] value budget = ok tt
    check_use (key ∷ keys) value budget = do
      v ← member key value
      used ← nonnegative_int v
      limit ← member key budget
      above ← exceeds used limit
      raise_if above capability_unavailable
      check_use keys value budget

    -- `_resource_use`
    unfoldable pub resource_use : Fields F → Fields F → Result (Unit {0})
    resource_use value budget =
        raise_if (not (has_exactly limit_fields value)) invalid_input
        >> check_use limit_fields value budget
