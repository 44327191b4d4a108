-- ===== src/Storage/Records.antt =====
-- Inserting records: `insert_records`, `insert_records_with_event`, `create_descendant`, `add_edge`,
-- `append_event` and the row of `get_record` of `RecordStore` in src/qste/storage/database.py.
use qste.Base.{
  String, Bool, true, false, not, ◌&&◌, Option, none, some, List, [], ◌∷◌, ◌++◌, str_eq, ◌==◌,
  contains, if◌then◌else◌, Result, ok, err, conformance_failed, capability_unavailable, ◌>>=◌, ◌>>◌,
  raise_if,
}
use qste.Core.Json.{Json, text, obj, Fields, get_field, text_field, walk_references}
use qste.Storage.Tables.{
  Bytes, RecordRow, Tables, find_record, insert_record_row, insert_edge_or_ignore, transaction,
}

-- A reference as the transaction reads it.
pub record Reference : Type 0 where
  pub record_id : String
  pub record_type : String
  pub relation : String

module _ {F : Type 0} where
  unfoldable pub read_reference : Fields F → Result Reference
  read_reference fs = do
    i ← text_field "record_id" fs
    t ← text_field "record_type" fs
    r ← text_field "relation" fs
    ok (record { record_id = i; record_type = t; relation = r })

  read_all : List (Fields F) → Result (List Reference)
  read_all [] = ok []
  read_all (fs ∷ rest) = do r ← read_reference fs; rs ← read_all rest; ok (r ∷ rs)

  -- `_walk_internal_references(record)`
  unfoldable pub references_of : Fields F → Result (List Reference)
  unfolding read_all
  references_of doc = read_all (walk_references (obj doc))

  -- `record.get(key)` for a column that may be NULL.
  abbrev pub optional_text : String → Fields F → Option String
  optional_text k doc = elim (get_field k doc) [ some (text s) ↦ some s | _ ↦ none ]

-- The calls that the store makes on a record or a payload: `SchemaRegistry.validate_record`,
-- `canonical_json_bytes` (RFC 8785), `content_digest` (SHA-256) and `validate_utc_timestamp`.
pub record Codec (F : Type 0) : Type 0 where
  pub validate_record : Fields F → Result (Unit {0})
  pub canonical_json_bytes : Json F → Result Bytes
  pub content_digest : Bytes → String
  pub validate_utc_timestamp : String → Bool

unfoldable pub bytes_eq : Bytes → Bytes → Bool
bytes_eq [] [] = true
bytes_eq (a ∷ s) (b ∷ t) = a == b && bytes_eq s t
bytes_eq _ _ = false

module _ {F : Type 0} (codec : Codec F) where
  -- The columns of one record.
  unfoldable pub record_row : Fields F → Result RecordRow
  record_row doc = do
    id ← text_field "record_id" doc
    type ← text_field "record_type" doc
    schema ← text_field "schema_id" doc
    created ← text_field "created_at" doc
    canonical ← codec.canonical_json_bytes (obj doc)
    ok (record {
      record_id = id;
      record_type = type;
      schema_id = schema;
      semantic_key = optional_text "semantic_key" doc;
      content_digest = optional_text "content_digest" doc;
      created_at = created;
      record_digest = codec.content_digest canonical;
      canonical_json = canonical;
    })

  -- The loop that validates the batch and rejects a repeated ID; `ids` are those seen so far.
  unfoldable pub prepare : List String → List (Fields F) → Result (List RecordRow)
  prepare ids [] = ok []
  prepare ids (doc ∷ docs) = do
    codec.validate_record doc
    id ← text_field "record_id" doc
    raise_if (contains id ids) conformance_failed
    row ← record_row doc
    rows ← prepare (id ∷ ids) docs
    ok (row ∷ rows)

-- One record of the batch: an ID that was there before must have the same bytes, and is skipped.
unfoldable pub write_row : Tables → RecordRow → Tables → Result Tables
write_row start row db = elim (find_record row.record_id start) [
  | none ↦ insert_record_row row db
  | some prior ↦
      if bytes_eq prior.canonical_json row.canonical_json then ok db else err conformance_failed
]

unfoldable pub write_rows : Tables → List RecordRow → Tables → Result Tables
write_rows start [] db = ok db
write_rows start (row ∷ rows) db = do db' ← write_row start row db; write_rows start rows db'

unfoldable pub lookup_type : String → List (String × String) → Option String
lookup_type k [] = none
lookup_type k ((j, t) ∷ m) = if str_eq j k then some t else lookup_type k m

-- `expected_types.setdefault(...)` over all references: one ID cannot be given two types.
unfoldable pub expected_types :
    List Reference → List (String × String) → Result (List (String × String))
expected_types [] m = ok m
expected_types (r ∷ rs) m = elim (lookup_type r.record_id m) [
  | none ↦ expected_types rs (m ++ (r.record_id, r.record_type) ∷ [])
  | some prior ↦ if str_eq prior r.record_type then expected_types rs m else err conformance_failed
]

unfoldable pub check_target : Tables → String × String → Result (Unit {0})
check_target db (id, type) = elim (find_record id db) [
  | none ↦ err conformance_failed
  | some row ↦ raise_if (not (str_eq row.record_type type)) conformance_failed
]

-- Every expected record is stored, under the type expected of it. (The source collects the missing
-- IDs for its message; the error is the same.)
unfoldable pub check_targets : Tables → List (String × String) → Result (Unit {0})
check_targets db [] = ok tt
check_targets db (expected ∷ rest) = do check_target db expected; check_targets db rest

-- `_validate_reference_targets`
unfoldable pub validate_reference_targets : Tables → List Reference → Result (Unit {0})
validate_reference_targets db refs = do expected ← expected_types refs []; check_targets db expected

unfoldable pub link : String → List Reference → Tables → Result Tables
link source [] db = ok db
link source (r ∷ rs) db = do
  db' ←
      insert_edge_or_ignore
        (record {
          source_record_id = source;
          target_record_id = r.record_id;
          relation = r.relation;
        })
        db
  link source rs db'

module _ {F : Type 0} where
  unfoldable pub batch_references : List (Fields F) → Result (List Reference)
  batch_references [] = ok []
  batch_references (doc ∷ docs) = do
    refs ← references_of doc
    rest ← batch_references docs
    ok (refs ++ rest)

  unfoldable pub link_batch : List (Fields F) → Tables → Result Tables
  link_batch [] db = ok db
  link_batch (doc ∷ docs) db = do
    source ← text_field "record_id" doc
    refs ← references_of doc
    db' ← link source refs db
    link_batch docs db'

  -- The statements that both insertions make between BEGIN and COMMIT.
  unfoldable pub write_closure : List RecordRow → List (Fields F) → Tables → Result Tables
  write_closure rows docs db = do
    db' ← write_rows db rows db
    refs ← batch_references docs
    validate_reference_targets db' refs
    link_batch docs db'

-- The row that `get_record` selects, or its error where there is none.
unfoldable pub stored_row : String → Tables → Result RecordRow
stored_row id db = elim (find_record id db) [ none ↦ err capability_unavailable | some r ↦ ok r ]

module _ {F : Type 0} (codec : Codec F) where
  unfoldable pub insert_records : List (Fields F) → Tables → Result (Unit {0}) × Tables
  insert_records [] db = (ok tt, db)
  insert_records (doc ∷ docs) db = transaction db (do
    rows ← prepare codec [] (doc ∷ docs)
    db' ← write_closure rows (doc ∷ docs) db
    ok (tt, db'))
