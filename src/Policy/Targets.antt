-- ===== src/Policy/Targets.antt =====
-- `resolve_target_closure` of src/qste/policy/service.py: the records that descend from the target of a
-- repair, over `trace_lineage` and `get_record` of the store. Which floats are zero is the argument
-- `is_zero`.
use qste.Base.{
  String, List, Bool, ℕ, Result, Option, ◌∷◌, ok, ◌>>=◌, true, ◌>>◌, [], false, raise_if, not, some,
  ltb, length, str_eq, capability_unavailable, invalid_input, ◌||◌, ◌==◌, none, map, err,
  internal_error,
}
use qste.Storage.Tables.{Tables}
use qste.Storage.Verification.{Reader}
use qste.Storage.Lineage.{LineageEdge, descendants, trace_lineage, in_bounds}
use qste.Core.Json.{
  Fields, Json, get_field, text_field, bool, int, neg_int, float, text, arr, item, obj, field, null,
  nil, end,
}
use qste.Policy.State.{sorted_set}
use qste.Storage.Reads.{read_record}

pub record Categories : Type 0 where
  pub descendant_ids : List String
  pub claims : List String
  pub renders : List String
  pub bundles : List String
  pub projections : List String

pub record TargetClosure : Type 0 where
  pub root_record_id : String
  pub member_record_ids : List String
  -- `edge_sequences`, as places in the table.
  pub edge_places : List ℕ
  pub maximum_depth : ℕ
  pub complete_within_bound : Bool
  pub categories : Categories

-- The ends of the edges, with the target: `members`.
unfoldable pub ends_of : List LineageEdge → List String
ends_of [] = []
ends_of (e ∷ es) = e.row.source_record_id ∷ e.row.target_record_id ∷ ends_of es

-- `sorted(members)`
unfoldable pub members_of : String → List LineageEdge → List String
members_of target es = sorted_set (target ∷ ends_of es)

-- `MAX_CLOSURE`
abbrev pub max_closure : ℕ
max_closure = 4096

-- `value.append(id)` under a test.
abbrev pub added : Bool → String → List String → List String
added true id ids = id ∷ ids
added false id ids = ids

module _ {F : Type 0} (reader : Reader F) where
  unfoldable pub read_records : List String → Tables → Result (List (Fields F))
  read_records [] db = ok []
  read_records (id ∷ ids) db = do
    fs ← read_record reader id db
    rest ← read_records ids db
    ok (fs ∷ rest)

module _ {F : Type 0} (is_zero : F → Bool) where
  -- Python's truth of `record.get(key)`.
  unfoldable pub is_truthy : Option (Json F) → Bool
  is_truthy none = false
  is_truthy (some null) = false
  is_truthy (some (bool b)) = b
  is_truthy (some (int n)) = not (n == 0)
  is_truthy (some (neg_int n)) = true
  is_truthy (some (float x)) = not (is_zero x)
  is_truthy (some (text s)) = not (str_eq s "")
  is_truthy (some (arr nil)) = false
  is_truthy (some (arr (item x xs))) = true
  is_truthy (some (obj end)) = false
  is_truthy (some (obj (field k v fs))) = true

  abbrev pub has : String → Fields F → Bool
  has key fs = is_truthy (get_field key fs)

  -- The categories of a list of records, in its order.
  unfoldable pub categorize : String → List (Fields F) → Result Categories
  categorize target [] =
      ok (record { descendant_ids = []; claims = []; renders = []; bundles = []; projections = [] })
  categorize target (fs ∷ rest) = do
    id ← text_field "record_id" fs
    type ← text_field "record_type" fs
    c ← categorize target rest
    ok (record {
      descendant_ids = added (not (str_eq id target)) id c.descendant_ids;
      claims = added (str_eq type "ClaimRecord") id c.claims;
      renders = added (has "qste:safetyProfile" fs || has "qste:analyticalOutput" fs) id c.renders;
      bundles = added (str_eq type "Bundle") id c.bundles;
      projections =
          added (has "qste:exportProjectionProfile" fs || str_eq type "ProjectionSpec") id
            c.projections;
    })

  module _ (reader : Reader F) where
    -- The closure from the edges that the walk found.
    unfoldable pub closure_from : String → ℕ → List LineageEdge → Tables → Result TargetClosure
    closure_from target maximum_depth es db = do
      raise_if (ltb max_closure (length (members_of target es))) capability_unavailable
      records ← read_records reader (members_of target es) db
      c ← categorize target records
      ok (record {
        root_record_id = target;
        member_record_ids = members_of target es;
        edge_places = map (λ (e : LineageEdge). e.place) es;
        maximum_depth = maximum_depth;
        complete_within_bound = true;
        categories = c;
      })

    -- `resolve_target_closure`; `trace_lineage` always ends, and without a limit of its edges.
    unfoldable pub resolve_target_closure : String → ℕ → Tables → Result TargetClosure
    resolve_target_closure target maximum_depth db = do
      _ ← read_record reader target db
      raise_if (not (in_bounds 128 (some maximum_depth))) invalid_input
      found ← trace_lineage reader target descendants maximum_depth none db
      elim found [ none ↦ err internal_error | some es ↦ closure_from target maximum_depth es db ]
