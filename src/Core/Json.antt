-- ===== src/Core/Json.antt =====
-- The JSON values of a record, and the walk that finds its typed internal references:
-- `_walk_references` of src/qste/core/contracts.py and its copy `_walk_internal_references` of
-- src/qste/storage/database.py. A float is an element of the parameter `F`.
use qste.Base.{
  ℕ, String, Bool, true, false, Option, none, some, List, [], ◌∷◌, ◌++◌, ◌&&◌, str_eq,
  if◌then◌else◌, Result, ok, err, internal_error,
}

mutual
  pub data Json (F : Type 0) : Type 0 where
    null : Json F
    bool : Bool → Json F
    int : ℕ → Json F
    neg_int : ℕ → Json F
    float : F → Json F
    text : String → Json F
    arr : Items F → Json F
    obj : Fields F → Json F

  pub data Items (F : Type 0) : Type 0 where
    nil : Items F
    item : Json F → Items F → Items F

  pub data Fields (F : Type 0) : Type 0 where
    end : Fields F
    field : String → Json F → Fields F → Fields F

module _ {F : Type 0} where
  -- `mapping.get(key)`
  unfoldable pub get_field : String → Fields F → Option (Json F)
  get_field k end = none
  get_field k (field j v fs) = if str_eq k j then some v else get_field k fs

  abbrev pub has_field : String → Fields F → Bool
  has_field k fs = elim (get_field k fs) [ none ↦ false | some _ ↦ true ]

  -- `set(("record_id", "record_type", "relation")).issubset(value)`
  abbrev pub is_reference : Fields F → Bool
  is_reference fs =
      has_field "record_id" fs && has_field "record_type" fs && has_field "relation" fs

  -- Python's `cast(str, value[key])`: the schemas type these members as strings.
  unfoldable pub text_field : String → Fields F → Result String
  text_field k fs = elim (get_field k fs) [ some (text s) ↦ ok s | _ ↦ err internal_error ]

unfoldable mutual
  pub walk_references : {F : Type 0} → Json F → List (Fields F)
  walk_references (arr xs) = walk_items xs
  walk_references (obj fs) = if is_reference fs then fs ∷ [] else walk_fields fs
  walk_references _ = []

  pub walk_items : {F : Type 0} → Items F → List (Fields F)
  walk_items nil = []
  walk_items (item x xs) = walk_references x ++ walk_items xs

  pub walk_fields : {F : Type 0} → Fields F → List (Fields F)
  walk_fields end = []
  walk_fields (field k v fs) = walk_references v ++ walk_fields fs

module _ {F : Type 0} where
  -- `mapping[key] = value`
  unfoldable pub set_field : String → Json F → Fields F → Fields F
  set_field k v end = field k v end
  set_field k v (field j w fs) = if str_eq k j then field j v fs else field j w (set_field k v fs)
