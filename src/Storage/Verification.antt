-- ===== src/Storage/Verification.antt =====
-- `RecordStore.verify` of src/qste/storage/database.py on the tables, with `validate_reference_closure`
-- of src/qste/core/contracts.py. What `loads_json` reads from bytes and what SQLite's own checks and
-- the checks of the registered files find are the parameter `Reader`.
use qste.Base.{
  String, Option, Result, ℕ, Bool, List, find, ◌>>=◌, some, all, not, none, ◌>>◌, true, ok,
  contains, str_eq, any, ◌&&◌, raise_if, [], err, ◌∷◌, false, ◌==◌, ◌||◌, conformance_failed,
  if◌then◌else◌, internal_error, starts_with, ◌+◌,
}
use qste.Storage.Tables.{Tables, RecordRow, EdgeRow, EventRow, Bytes, same_edge}
use qste.Storage.Records.{Codec, Reference, bytes_eq, optional_text, references_of}
use qste.Core.Json.{Json, Fields, get_field, obj, text_field, arr, item}
use qste.Storage.Events.{field_is, lineage_relations}

pub record Reader (F : Type 0) : Type 0 where
  pub loads_json : Bytes → Result (Json F)
  -- `_verify_database_structure`, `PRAGMA integrity_check` and `PRAGMA foreign_key_check`.
  pub check_database : Tables → Result (Unit {0})
  -- `_verify_artifact_registration` and `_verify_dense_registration` of every registration.
  pub check_registrations : Tables → Result (Unit {0})

abbrev pub option_eq : Option String → Option String → Bool
option_eq none none = true
option_eq (some s) (some t) = str_eq s t
option_eq _ _ = false

unfoldable pub index_type : String → List (String × String) → Option String
index_type id [] = none
index_type id ((key, type) ∷ rest) =
    let later = index_type id rest in if str_eq key id then some type else later

-- `relation not in LINEAGE_RELATIONS`
unfoldable pub is_unknown : String → Bool
is_unknown relation = not (contains relation lineage_relations)

abbrev pub edge_for : String → Reference → EdgeRow
edge_for source r = record {
  source_record_id = source;
  target_record_id = r.record_id;
  relation = r.relation;
}

unfoldable pub all_linked : Tables → String → List Reference → Bool
all_linked db source refs = all (λ r. any (same_edge (edge_for source r)) db.edges) refs

unfoldable pub check_relations : List EdgeRow → Result (Unit {0})
check_relations [] = ok tt
check_relations (e ∷ es) = raise_if (is_unknown e.relation) conformance_failed >> check_relations es

-- `sequences != list(range(1, len(sequences) + 1))`
unfoldable pub is_numbered : ℕ → List EventRow → Bool
is_numbered n [] = true
is_numbered n (e ∷ es) = e.event_sequence == n && is_numbered (n + 1) es

unfoldable pub check_references : List (String × String) → List Reference → Result (Unit {0})
check_references index [] = ok tt
check_references index (r ∷ rs) = do
  raise_if (not (option_eq (index_type r.record_id index) (some r.record_type))) conformance_failed
  check_references index rs

module _ {F : Type 0} where
  unfoldable pub as_object : Json F → Result (Fields F)
  as_object (obj fs) = ok fs
  as_object _ = err conformance_failed

  -- The columns repeat the record, and its bytes are canonical and have the stored digest.
  unfoldable pub row_matches : Codec F → RecordRow → Fields F → Bytes → Bool
  row_matches codec row fs canonical =
      bytes_eq canonical row.canonical_json
      && str_eq (codec.content_digest canonical) row.record_digest
      && field_is "record_id" row.record_id fs
      && field_is "record_type" row.record_type fs
      && field_is "schema_id" row.schema_id fs
      && field_is "created_at" row.created_at fs
      && option_eq (optional_text "semantic_key" fs) row.semantic_key
      && option_eq (optional_text "content_digest" fs) row.content_digest

  unfoldable pub verify_record : Codec F → Reader F → RecordRow → Result (Fields F)
  verify_record codec reader row = do
    value ← reader.loads_json row.canonical_json
    fs ← as_object value
    codec.validate_record fs
    canonical ← codec.canonical_json_bytes (obj fs)
    raise_if (not (row_matches codec row fs canonical)) conformance_failed
    ok fs

  unfoldable pub verify_records : Codec F → Reader F → List RecordRow → Result (List (Fields F))
  verify_records codec reader [] = ok []
  verify_records codec reader (row ∷ rows) = do
    fs ← verify_record codec reader row
    rest ← verify_records codec reader rows
    ok (fs ∷ rest)

  -- The first loop of `validate_reference_closure`: the type of each record by its identifier.
  unfoldable pub index_records :
      Codec F → List (String × String) → List (Fields F) → Result (List (String × String))
  index_records codec index [] = ok index
  index_records codec index (fs ∷ rest) = do
    codec.validate_record fs
    id ← text_field "record_id" fs
    type ← text_field "record_type" fs
    raise_if (any (λ entry. str_eq entry.0 id) index) conformance_failed
    index_records codec ((id, type) ∷ index) rest

  unfoldable pub check_all_references : List (String × String) → List (Fields F) → Result (Unit {0})
  check_all_references index [] = ok tt
  check_all_references index (fs ∷ rest) = do
    refs ← references_of fs
    check_references index refs
    check_all_references index rest

  -- `graph[key]["record_id"]`
  unfoldable pub reference_id : String → Fields F → Result String
  reference_id key fs = elim (get_field key fs) [
    | some (obj r) ↦ text_field "record_id" r
    | _ ↦ err internal_error
  ]

  -- `by_id[record_id]`
  unfoldable pub by_id : String → List (Fields F) → Option (Fields F)
  by_id id records = find (field_is "record_id" id) records

  -- `bool(value)` of a member that is a list.
  unfoldable pub has_items : Option (Json F) → Bool
  has_items (some (arr (item _ _))) = true
  has_items _ = false

  -- `_validate_refinement_dependencies` on one graph.
  unfoldable pub check_graph :
      List (String × String) → List (Fields F) → Fields F → Result (Unit {0})
  check_graph index records graph = do
    family_ref ← reference_id "representation_family_ref" graph
    intervention_ref ← reference_id "intervention_ref" graph
    raise_if
        (not (option_eq (index_type family_ref index) (some "RepresentationFamilySpec"))
          || not (option_eq (index_type intervention_ref index) (some "InterventionSpec")))
        conformance_failed
    elim (by_id family_ref records) [
      | none ↦ err internal_error
      | some family ↦
          raise_if (not (has_items (get_field "mapping_refs" family))) conformance_failed
    ]

  unfoldable pub check_graphs :
      List (String × String) → List (Fields F) → List (Fields F) → Result (Unit {0})
  check_graphs index records [] = ok tt
  check_graphs index records (fs ∷ rest) = do
    (if field_is "record_type" "RefinementGraph" fs then check_graph index records fs else ok tt)
    check_graphs index records rest

  unfoldable pub validate_reference_closure : Codec F → List (Fields F) → Result (Unit {0})
  validate_reference_closure codec records = do
    index ← index_records codec [] records
    check_all_references index records
    check_graphs index records records

  unfoldable pub check_lineage : Tables → List (Fields F) → Result (Unit {0})
  check_lineage db [] = ok tt
  check_lineage db (fs ∷ rest) = do
    source ← text_field "record_id" fs
    refs ← references_of fs
    raise_if (not (all_linked db source refs)) conformance_failed
    check_lineage db rest

  unfoldable pub verify_event : Codec F → Reader F → EventRow → Result (Unit {0})
  verify_event codec reader e = do
    value ← reader.loads_json e.payload_json
    fs ← as_object value
    canonical ← codec.canonical_json_bytes (obj fs)
    raise_if
        (not (bytes_eq canonical e.payload_json)
          || not (str_eq (codec.content_digest canonical) e.payload_digest)
          || not (starts_with e.event_type "qste:"))
        conformance_failed
    raise_if (not (codec.validate_utc_timestamp e.created_at)) conformance_failed

  unfoldable pub verify_events : Codec F → Reader F → List EventRow → Result (Unit {0})
  verify_events codec reader [] = ok tt
  verify_events codec reader (e ∷ es) = verify_event codec reader e >> verify_events codec reader es

  -- `RecordStore.verify`
  unfoldable pub verify : Codec F → Reader F → Tables → Result (Unit {0})
  verify codec reader db = do
    reader.check_database db
    records ← verify_records codec reader db.records
    validate_reference_closure codec records
    check_lineage db records
    check_relations db.edges
    verify_events codec reader db.events
    raise_if (not (is_numbered 1 db.events)) conformance_failed
    reader.check_registrations db
