-- ===== src/Storage/History.antt =====
-- The store of src/qste/storage/database.py over a whole history: any sequence of the calls of
-- `RecordStore` that write.
use qste.Base.{String, ◌≡◌, Option, some, List, [], ◌∷◌}
use qste.Core.Json.{Fields}
use qste.Storage.Tables.{RecordRow, EdgeRow, Tables, find_record}
use qste.Storage.Records
use qste.Storage.Records.{Codec}
use qste.Storage.Events
use qste.Storage.Events.{EventRequest}
use qste.Storage.Growth.{Extends, Grows-find_record}
use qste.Storage.Consistency.{IsConsistent, Advances, Advances-refl, Advances-trans}
use qste.Storage.Transactions.{
  insert_records-Advances, insert_records_with_event-Advances, append_event-Advances,
  create_descendant-Advances, add_edge-Advances,
}

-- A call of the store that writes.
pub data Call (F : Type 0) : Type 0 where
  insert_records : List (Fields F) → Call F
  insert_records_with_event : Option String → EventRequest F → List (Fields F) → Call F
  append_event : EventRequest F → Call F
  create_descendant : String → Fields F → String → Call F
  add_edge : EdgeRow → Call F

-- The tables that `_initialize_database` creates.
abbrev pub empty : Tables
empty = record { records = []; edges = []; events = [] }

module _ {F : Type 0} (codec : Codec F) where
  -- The tables after a call, whether it returned or raised.
  unfoldable pub after : Call F → Tables → Tables
  after (Call.insert_records docs) db = (Records.insert_records codec docs db).1
  after (Call.insert_records_with_event d e docs) db =
      (Events.insert_records_with_event codec d e docs db).1
  after (Call.append_event e) db = (Events.append_event codec e db).1
  after (Call.create_descendant p doc r) db = (Events.create_descendant codec p doc r db).1
  after (Call.add_edge e) db = (Events.add_edge e db).1

  unfoldable pub after_all : List (Call F) → Tables → Tables
  after_all [] db = db
  after_all (c ∷ cs) db = after_all cs (after c db)

  after-Advances : (c : Call F) (db : Tables) → Advances codec.content_digest db (after c db)
  unfolding after
  after-Advances (Call.insert_records docs) db = insert_records-Advances codec docs db
  after-Advances (Call.insert_records_with_event d e docs) db =
      insert_records_with_event-Advances codec d e docs db
  after-Advances (Call.append_event e) db = append_event-Advances codec e db
  after-Advances (Call.create_descendant p doc r) db = create_descendant-Advances codec p doc r db
  after-Advances (Call.add_edge e) db = add_edge-Advances codec e db

  after_all-Advances :
      (cs : List (Call F)) (db : Tables) → Advances codec.content_digest db (after_all cs db)
  unfolding after_all
  after_all-Advances [] db = Advances-refl codec.content_digest db
  after_all-Advances (c ∷ cs) db =
      Advances-trans codec.content_digest (after-Advances c db) (after_all-Advances cs (after c db))

  -- Whatever calls are made on a new workspace, in whatever order and however they end, the tables
  -- are consistent: no record ID stands twice, the events are numbered 1, 2, 3 and so on in order,
  -- the ends of every edge and the subject and receipt of every event are stored records, and the
  -- digest of every record is that of its bytes.
  pub history-IsConsistent :
      (cs : List (Call F)) → IsConsistent codec.content_digest (after_all cs empty)
  history-IsConsistent cs = (after_all-Advances cs empty).keeps (record {
    numbered = tt;
    unique_ids = tt;
    edges_closed = tt;
    events_closed = tt;
    sealed = tt;
  })

  -- A record that is stored stays stored with all its columns, its bytes and its digest among them,
  -- whatever calls are made later, failing ones included.
  pub records_immutable :
      (cs : List (Call F)) (db : Tables) (id : String) (r : RecordRow)
      → find_record id db ≡ some r
      → find_record id (after_all cs db) ≡ some r
  records_immutable cs db id r h = Grows-find_record id r (after_all-Advances cs db).grows h

  -- After any calls the edges and the events that were there stand first, unchanged and in order.
  pub edges_and_events_append_only :
      (cs : List (Call F)) (db : Tables)
      → Extends db.edges (after_all cs db).edges × Extends db.events (after_all cs db).events
  edges_and_events_append_only cs db =
      let g = (after_all-Advances cs db).grows in (g.edges, g.events)
