-- ===== src/Storage/Tables.antt =====
-- The SQLite tables of src/qste/storage/database.py that carry records, lineage edges and events,
-- with the constraints that their CREATE TABLE statements declare: a unique record ID, foreign keys
-- of edges and events into the records, a unique edge, and AUTOINCREMENT sequence numbers. No
-- statement of the program updates or deletes a row, and triggers forbid it, so a table only grows.
-- A transaction is a function that returns the new tables, or an error and no tables: ROLLBACK.
use qste.Base.{
  ℕ, ◌+◌, String, Bool, true, false, not, ◌&&◌, ◌||◌, Option, none, some, List, [], ◌∷◌, ◌++◌,
  str_eq, ltb, any, find, if◌then◌else◌, Result, ok, err, conformance_failed,
}

-- The canonical UTF-8 bytes of a value (RFC 8785).
abbrev pub Bytes : Type 0
Bytes = List ℕ

-- A row of `records`, in the order of `storage_sequence`.
pub record RecordRow : Type 0 where
  pub record_id : String
  pub record_type : String
  pub schema_id : String
  pub semantic_key : Option String
  pub content_digest : Option String
  pub created_at : String
  pub record_digest : String
  pub canonical_json : Bytes

-- `LineageEdge`, a row of `edges`. The rows are in the order of `edge_sequence`, which may have gaps:
-- an insert that is ignored uses up a number.
pub record EdgeRow : Type 0 where
  pub source_record_id : String
  pub target_record_id : String
  pub relation : String

-- `EventEntry`, a row of `events`.
pub record EventRow : Type 0 where
  pub event_sequence : ℕ
  pub event_id : String
  pub event_type : String
  pub subject_record_id : String
  pub receipt_record_id : Option String
  pub created_at : String
  pub payload_digest : String
  pub payload_json : Bytes

pub record Tables : Type 0 where
  pub records : List RecordRow
  pub edges : List EdgeRow
  pub events : List EventRow

-- `SELECT ... FROM records WHERE record_id = ?`
unfoldable pub find_record : String → Tables → Option RecordRow
find_record id db = find (λ r. str_eq r.record_id id) db.records

abbrev pub has_record : String → Tables → Bool
has_record id db = elim (find_record id db) [ none ↦ false | some _ ↦ true ]

abbrev pub same_edge : EdgeRow → EdgeRow → Bool
same_edge a b =
    str_eq a.source_record_id b.source_record_id
    && str_eq a.target_record_id b.target_record_id
    && str_eq a.relation b.relation

-- `INSERT INTO records`: UNIQUE(record_id). An IntegrityError becomes `conformance_failed`.
unfoldable pub insert_record_row : RecordRow → Tables → Result Tables
insert_record_row r db =
    if has_record r.record_id db
    then err conformance_failed
    else ok (record db { records = db.records ++ r ∷ [] })

-- The foreign keys of an edge.
abbrev pub edge_endpoints : EdgeRow → Tables → Bool
edge_endpoints e db = has_record e.source_record_id db && has_record e.target_record_id db

-- `INSERT OR IGNORE INTO edges`: a duplicate is skipped; a foreign key is still enforced.
unfoldable pub insert_edge_or_ignore : EdgeRow → Tables → Result Tables
insert_edge_or_ignore e db =
    if any (same_edge e) db.edges
    then ok db
    else if edge_endpoints e db
    then ok (record db { edges = db.edges ++ e ∷ [] })
    else err conformance_failed

-- `INSERT INTO edges`: UNIQUE and the foreign keys.
unfoldable pub insert_edge : EdgeRow → Tables → Result Tables
insert_edge e db =
    if any (same_edge e) db.edges || not (edge_endpoints e db)
    then err conformance_failed
    else ok (record db { edges = db.edges ++ e ∷ [] })

abbrev pub receipt_present : Option String → Tables → Bool
receipt_present none db = true
receipt_present (some id) db = has_record id db

-- `SELECT COALESCE(MAX(event_sequence), 0) + 1 FROM events`, and what AUTOINCREMENT assigns.
unfoldable pub next_event_sequence : List EventRow → ℕ
next_event_sequence [] = 1
next_event_sequence (e ∷ es) =
    let rest = next_event_sequence es in
    if ltb rest (e.event_sequence + 1) then e.event_sequence + 1 else rest

-- UNIQUE(event_id), and the foreign keys of the subject and of the receipt.
abbrev pub event_allowed : EventRow → Tables → Bool
event_allowed e db =
    not (any (λ f. str_eq e.event_id f.event_id) db.events)
    && has_record e.subject_record_id db
    && receipt_present e.receipt_record_id db

-- `INSERT INTO events`
unfoldable pub insert_event : EventRow → Tables → Result Tables
insert_event e db =
    if event_allowed e db
    then ok (record db { events = db.events ++ e ∷ [] })
    else err conformance_failed

-- `with self._connection()`: BEGIN, the statements and COMMIT, or ROLLBACK on any exception.
abbrev pub transaction {ℓ} : {A : Type ℓ} → Tables → Result (A × Tables) → Result A × Tables
transaction db (ok (a, db')) = (ok a, db')
transaction db (err e) = (err e, db)
