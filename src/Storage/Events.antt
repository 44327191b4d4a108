-- ===== src/Storage/Events.antt =====
-- Transactions that append events or single edges: `insert_records_with_event`, `append_event`,
-- `add_edge` and `create_descendant` of `RecordStore` in src/qste/storage/database.py. The time and
-- the random event ID are arguments.
use qste.Base.{
  ℕ, String, Bool, false, not, ◌||◌, Option, none, some, List, [], ◌∷◌, str_eq, ◌==◌, length,
  select, contains, if◌then◌else◌, Result, ok, err, conformance_failed, invalid_input, ◌>>=◌, ◌>>◌,
  raise_if, any, starts_with,
}
use qste.Core.Json.{text, int, obj, Fields, get_field, text_field, set_field}
use qste.Storage.Tables.{
  Bytes, EdgeRow, EventRow, Tables, has_record, insert_edge_or_ignore, insert_edge, insert_event,
  next_event_sequence, transaction,
}
use qste.Storage.Records.{
  Codec, prepare, record_row, write_closure, write_row, references_of, validate_reference_targets,
  link,
}

-- The arguments of an event.
pub record EventRequest (F : Type 0) : Type 0 where
  pub event_type : String
  pub subject_record_id : String
  pub payload : Fields F
  pub receipt_record_id : Option String
  pub created_at : String
  pub event_id : String

-- `LINEAGE_RELATIONS`
abbrev pub lineage_relations : List String
lineage_relations =
    "acquired_from" ∷ "authorized_by" ∷ "corrects" ∷ "depends_on" ∷ "descendant_of" ∷ "derived_from"
    ∷ "invalidates" ∷ "produced_by" ∷ "references" ∷ "repairs" ∷ "succeeds" ∷ "supersedes" ∷ []

module _ {F : Type 0} where
  -- `record.get(key) == value`
  abbrev pub field_is : String → String → Fields F → Bool
  field_is k s doc = elim (get_field k doc) [ some (text t) ↦ str_eq s t | _ ↦ false ]

  -- `matches[0]["event_sequence"] = next_sequence`, on a batch with one match.
  number_matching : String → ℕ → List (Fields F) → List (Fields F)
  number_matching id n [] = []
  number_matching id n (doc ∷ docs) =
      (if field_is "record_id" id doc then set_field "event_sequence" (int n) doc else doc)
      ∷ number_matching id n docs

  -- The record of the batch that receives the event's sequence number, if one is named.
  unfoldable pub number_domain_event :
      Option String → ℕ → List (Fields F) → Result (List (Fields F))
  unfolding number_matching
  number_domain_event none n docs = ok docs
  number_domain_event (some id) n docs =
      let matches = select (field_is "record_id" id) docs in
      if not (length matches == 1) || not (any (field_is "record_type" "AcquisitionEvent") matches)
      then err invalid_input
      else ok (number_matching id n docs)

  module _ (codec : Codec F) where
    -- The checks on an event before its transaction, and its canonical payload.
    unfoldable pub event_payload : EventRequest F → Result Bytes
    event_payload e = do
      raise_if (not (starts_with e.event_type "qste:")) invalid_input
      raise_if (not (codec.validate_utc_timestamp e.created_at)) invalid_input
      codec.canonical_json_bytes (obj e.payload)

    unfoldable pub event_row : EventRequest F → ℕ → Bytes → EventRow
    event_row e n payload = record {
      event_sequence = n;
      event_id = e.event_id;
      event_type = e.event_type;
      subject_record_id = e.subject_record_id;
      receipt_record_id = e.receipt_record_id;
      created_at = e.created_at;
      payload_digest = codec.content_digest payload;
      payload_json = payload;
    }

    unfoldable pub insert_records_with_event :
        Option String → EventRequest F → List (Fields F) → Tables → Result ℕ × Tables
    insert_records_with_event domain_event e docs db = transaction db (do
      payload ← event_payload e
      raise_if (length docs == 0) invalid_input
      let next_sequence = next_event_sequence db.events
      numbered ← number_domain_event domain_event next_sequence docs
      rows ← prepare codec [] numbered
      db' ← write_closure rows numbered db
      db'' ← insert_event (event_row e next_sequence payload) db'
      ok (next_sequence, db''))

    unfoldable pub append_event : EventRequest F → Tables → Result ℕ × Tables
    append_event e db = transaction db (do
      payload ← event_payload e
      let sequence = next_event_sequence db.events
      db' ← insert_event (event_row e sequence payload) db
      ok (sequence, db'))

    unfoldable pub create_descendant :
        String → Fields F → String → Tables → Result (Unit {0}) × Tables
    create_descendant parent doc relation db = transaction db (do
      raise_if (not (contains relation lineage_relations)) invalid_input
      codec.validate_record doc
      child ← text_field "record_id" doc
      raise_if (str_eq child parent) conformance_failed
      row ← record_row codec doc
      refs ← references_of doc
      raise_if (not (has_record parent db)) conformance_failed
      db' ← write_row db row db
      validate_reference_targets db' refs
      linked ← link child refs db'
      final ←
          insert_edge_or_ignore
            (record { source_record_id = child; target_record_id = parent; relation = relation })
            linked
      ok (tt, final))

unfoldable pub add_edge : EdgeRow → Tables → Result ℕ × Tables
add_edge e db = transaction db (do
  raise_if (not (contains e.relation lineage_relations)) invalid_input
  db' ← insert_edge e db
  ok (length db'.edges, db'))
