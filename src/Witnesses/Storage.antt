-- ===== src/Witnesses/Storage.antt =====
-- A store with two records, the second a child of the first, and the theorems about the store at it.
use qste.Base.{
  ℕ, String, ◌≡◌, refl, true, none, some, List, [], ◌∷◌, ◌++◌, All, ok, Ensures, is_ok, false,
  subst, Result, ok_inj, if◌then◌else◌, leb, length,
}
use qste.Core.Json.{
  Json, text, arr, obj, Items, nil, item, Fields, end, field, get_field, text_field,
  walk_references, walk_items, walk_fields,
}
use qste.Storage.Tables.{
  Bytes, RecordRow, Tables, find_record, insert_record_row, insert_edge_or_ignore,
}
use qste.Storage.Records.{
  Codec, read_reference, references_of, record_row, prepare, write_row, write_rows, lookup_type,
  expected_types, check_target, check_targets, validate_reference_targets, link, batch_references,
  link_batch, write_closure, insert_records, bytes_eq, stored_row,
}
use qste.Storage.Growth.{Extends}
use qste.Storage.Consistency.{IsConsistent}
use qste.Storage.History.{
  Call, after_all, empty, history-IsConsistent, records_immutable, edges_and_events_append_only,
}
use qste.Storage.Rows.{Stored}
use qste.Storage.RoundTrip.{Decodes, IsReadBack, read_record-insert_records}
use qste.Storage.Closure.{Closed, insert_records_closes}
use qste.Storage.Reads.{read_record}
use qste.Storage.Lineage.{ancestors, LineageEdge, trace_lineage}
use qste.Storage.Lineage.Walks.{Found}
use qste.Storage.Lineage.Traces.{AtMost, trace_lineage_sound}
use qste.Storage.Verification.{
  Reader, verify, verify_records, verify_record, as_object, row_matches, validate_reference_closure,
  index_records, check_all_references, check_references, check_graphs, check_graph, check_lineage,
  all_linked, check_relations, is_unknown, verify_events, verify_event, is_numbered, index_type,
}
use qste.Storage.Soundness.{IsVerified, verify-IsVerified}
use qste.Storage.Refusal.{verify_refuses_accepted}

-- A byte for each value, enough for records whose shapes differ.
unfoldable mutual
  pub shape : Json ℕ → Bytes
  shape (arr xs) = 5 ∷ shape_items xs
  shape (obj fs) = 6 ∷ shape_fields fs
  shape _ = 1 ∷ []

  pub shape_items : Items ℕ → Bytes
  shape_items nil = []
  shape_items (item x xs) = shape x ++ shape_items xs

  pub shape_fields : Fields ℕ → Bytes
  shape_fields end = []
  shape_fields (field k v fs) = shape v ++ shape_fields fs

abbrev name : Bytes → String
name [] = "sha256:empty"
name (_ ∷ _) = "sha256:some"

unfoldable pub codec : Codec ℕ
unfolding shape shape_items shape_fields
codec = record {
  validate_record = λ doc. ok tt;
  canonical_json_bytes = λ v. ok (shape v);
  content_digest = name;
  validate_utc_timestamp = λ t. true;
}

abbrev pub base : String → String → Fields ℕ → Fields ℕ
base id type rest = field "record_id" (text id) (
    field "record_type" (text type)
      (field "schema_id" (text "s") (field "created_at" (text "2026-01-01T00:00:00Z") rest)))

abbrev pub task : Fields ℕ
task = base "t" "TaskSpec" end

abbrev run : Fields ℕ
run = base "r" "RunManifest" (
    field "references"
      (arr (
        item
          (obj (
            field "record_id" (text "t")
              (field "record_type" (text "TaskSpec") (field "relation" (text "evaluates") end))))
          nil))
      end)

abbrev docs : List (Fields ℕ)
docs = task ∷ run ∷ []

abbrev calls : List (Call ℕ)
calls =
    Call.insert_records docs
    ∷ Call.add_edge (record { source_record_id = "r"; target_record_id = "t"; relation = "uses" })
    ∷ []

history-IsConsistent_example : IsConsistent codec.content_digest (after_all codec calls empty)
history-IsConsistent_example = history-IsConsistent codec calls

insert_records_closes_example :
    All (Stored codec (insert_records codec docs empty).1) docs
    × All (Closed codec (insert_records codec docs empty).1) docs
unfolding codec shape shape_items shape_fields insert_records prepare record_row text_field
    get_field write_closure write_rows write_row find_record insert_record_row batch_references
    references_of walk_references walk_items walk_fields read_reference validate_reference_targets
    expected_types lookup_type check_targets check_target link_batch link insert_edge_or_ignore
insert_records_closes_example = insert_records_closes codec docs empty refl

abbrev row : String → String → RecordRow
row id type = record {
  record_id = id;
  record_type = type;
  schema_id = "s";
  semantic_key = none;
  content_digest = none;
  created_at = "2026-01-01T00:00:00Z";
  record_digest = "sha256:some";
  canonical_json = 6 ∷ [];
}

abbrev stored : Tables
stored = record {
  records = row "t" "TaskSpec" ∷ row "r" "RunManifest" ∷ [];
  edges = record { source_record_id = "r"; target_record_id = "t"; relation = "evaluates" } ∷ [];
  events = [];
}

records_immutable_example :
    find_record "t" (after_all codec calls stored) ≡ some (row "t" "TaskSpec")
unfolding find_record
records_immutable_example = records_immutable codec calls stored "t" (row "t" "TaskSpec") refl

edges_and_events_append_only_example :
    Extends stored.edges (after_all codec calls stored).edges
    × Extends stored.events (after_all codec calls stored).events
edges_and_events_append_only_example = edges_and_events_append_only codec calls stored

abbrev pub reader : Reader ℕ
reader = record {
  loads_json = λ b. ok (obj task);
  check_database = λ db. ok tt;
  check_registrations = λ db. ok tt;
}

trace_lineage_sound_example :
    (es : List LineageEdge) × (trace_lineage reader "r" ancestors 4 (some 2) stored ≡ ok (some es))
    × All (Found ancestors stored.edges "r" 4) es
    × AtMost (some 2) es
unfolding find_record read_record stored_row as_object
trace_lineage_sound_example =
    trace_lineage_sound reader "r" ancestors 4 (some 2) stored refl refl refl

abbrev task_row : RecordRow
task_row = record (row "t" "TaskSpec") { canonical_json = 6 ∷ 1 ∷ 1 ∷ 1 ∷ 1 ∷ [] }

abbrev one_task : Tables
one_task = record { records = task_row ∷ []; edges = []; events = [] }

verified_task : verify codec reader one_task ≡ ok tt
unfolding codec shape shape_items shape_fields insert_records prepare record_row text_field
    get_field write_closure write_rows write_row find_record insert_record_row batch_references
    references_of walk_references walk_items walk_fields read_reference validate_reference_targets
    expected_types lookup_type check_targets check_target link_batch link insert_edge_or_ignore
    verify verify_records verify_record as_object row_matches validate_reference_closure
    index_records check_all_references check_references check_graphs check_graph check_lineage
    all_linked check_relations is_unknown verify_events verify_event is_numbered bytes_eq index_type
verified_task = refl

verify-IsVerified_example :
    Ensures (λ _. IsVerified codec reader one_task) (verify codec reader one_task)
verify-IsVerified_example = verify-IsVerified codec reader one_task

verify_refuses_accepted_example :
    is_ok (verify codec reader (after_all codec calls (insert_records codec (run ∷ []) one_task).1))
    ≡ false
unfolding codec shape shape_items shape_fields insert_records prepare record_row text_field
    get_field write_closure write_rows write_row find_record insert_record_row batch_references
    references_of walk_references walk_items walk_fields read_reference validate_reference_targets
    expected_types lookup_type check_targets check_target link_batch link insert_edge_or_ignore
    is_unknown
verify_refuses_accepted_example =
    verify_refuses_accepted codec reader run one_task
      (record { record_id = "t"; record_type = "TaskSpec"; relation = "evaluates" } ∷ []) calls refl
      refl refl

abbrev pub child : Fields ℕ
child = base "c" "TaskSpec" (
    field "references"
      (arr (
        item
          (obj (
            field "record_id" (text "t")
              (field "record_type" (text "TaskSpec") (field "relation" (text "derived_from") end))))
          nil))
      end)

-- The bytes of `task` are the shorter ones.
unfoldable pub loads : Bytes → Result (Json ℕ)
loads b = if leb (length b) 5 then ok (obj task) else ok (obj child)

abbrev pub family_reader : Reader ℕ
family_reader = record reader { loads_json = loads }

abbrev pub family_calls : List (Call ℕ)
family_calls = Call.insert_records (task ∷ child ∷ []) ∷ []

task-Decodes : Decodes codec family_reader task
unfolding codec shape shape_items shape_fields loads
task-Decodes b e = subst (λ x. loads x ≡ ok (obj task)) (ok_inj e) refl

child-Decodes : Decodes codec family_reader child
unfolding codec shape shape_items shape_fields loads
child-Decodes b e = subst (λ x. loads x ≡ ok (obj child)) (ok_inj e) refl

read_record-insert_records_example :
    All
      (IsReadBack family_reader
        (after_all codec family_calls (insert_records codec (task ∷ child ∷ []) empty).1))
      (task ∷ child ∷ [])
unfolding codec shape shape_items shape_fields insert_records prepare record_row text_field
    get_field write_closure write_rows write_row find_record insert_record_row batch_references
    references_of walk_references walk_items walk_fields read_reference validate_reference_targets
    expected_types lookup_type check_targets check_target link_batch link insert_edge_or_ignore
read_record-insert_records_example =
    read_record-insert_records codec family_reader (task ∷ child ∷ []) empty family_calls refl
      (task-Decodes, (child-Decodes, tt))
