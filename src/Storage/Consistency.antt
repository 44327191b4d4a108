-- ===== src/Storage/Consistency.antt =====
-- What `RecordStore.verify` of src/qste/storage/database.py expects of the tables, and the single
-- statements against it.
use qste.Base.{
  ℕ, ◌+◌, ◌≤◌, String, ◌≡◌, ◌⊎◌, refl, ◌∙◌, Bool, true, false, none, List, [], ◌∷◌, ◌++◌, arith,
  find, length, All, All-append, All-map, str_eq, eq_iff, Ensures, any, Bool-cases, Option-cases,
  inl, inr,
}
use qste.Storage.Tables.{
  Bytes, RecordRow, EdgeRow, EventRow, Tables, find_record, has_record, receipt_present,
  edge_endpoints, event_allowed, same_edge, insert_record_row, insert_edge, insert_edge_or_ignore,
  insert_event, next_event_sequence,
}
use qste.Storage.Growth.{
  Extends-refl, Extends-append, Grows, Grows-refl, Grows-trans, Grows-has_record,
  Grows-receipt_present,
}

-- The events are numbered from `k` in the order in which they stand.
abbrev pub Numbered : ℕ → List EventRow → Type 0
Numbered k [] = Unit
Numbered k (e ∷ es) = (e.event_sequence ≡ k) × Numbered (k + 1) es

-- No record ID stands twice.
abbrev pub UniqueIds : List RecordRow → Type 0
UniqueIds [] = Unit
UniqueIds (r ∷ rs) = (find (λ x. str_eq x.record_id r.record_id) rs ≡ none) × UniqueIds rs

abbrev pub EdgeClosed : Tables → EdgeRow → Type 0
EdgeClosed db e = edge_endpoints e db ≡ true

abbrev pub EventClosed : Tables → EventRow → Type 0
EventClosed db e =
    (has_record e.subject_record_id db ≡ true) × (receipt_present e.receipt_record_id db ≡ true)

-- The stored digest is that of the stored bytes.
abbrev pub Sealed : (Bytes → String) → RecordRow → Type 0
Sealed digest r = digest r.canonical_json ≡ r.record_digest

pub record IsConsistent (digest : Bytes → String) (db : Tables) : Type 0 where
  pub numbered : Numbered 1 db.events
  pub unique_ids : UniqueIds db.records
  pub edges_closed : All (EdgeClosed db) db.edges
  pub events_closed : All (EventClosed db) db.events
  pub sealed : All (Sealed digest) db.records

-- The tables have only grown, and are consistent if they were.
pub record Advances (digest : Bytes → String) (db db' : Tables) : Type 0 where
  pub grows : Grows db db'
  pub keeps : IsConsistent digest db → IsConsistent digest db'

-- The tables have advanced by records and edges alone.
pub record AddsClosure (digest : Bytes → String) (db db' : Tables) : Type 0 where
  pub advances : Advances digest db db'
  pub same_events : db'.events ≡ db.events

next_event_sequence-Numbered :
    (k : ℕ) (es : List EventRow)
    → 1 ≤ k
    → Numbered k es
    → (next_event_sequence es ≡ 1) × (length es ≡ 0) ⊎ (next_event_sequence es ≡ k + length es)
unfolding next_event_sequence
next_event_sequence-Numbered k [] p h = inl (refl, refl)
next_event_sequence-Numbered k (e ∷ es) p h =
    ground (arith, next_event_sequence-Numbered (k + 1) es)

-- The number that the next event is given is one more than there are events.
pub next_event_sequence_lem :
    (es : List EventRow) → Numbered 1 es → next_event_sequence es ≡ length es + 1
next_event_sequence_lem es h = ground (arith, next_event_sequence-Numbered 1 es)

Numbered-append :
    (k : ℕ) (es : List EventRow) (e : EventRow)
    → Numbered k es
    → e.event_sequence ≡ k + length es
    → Numbered k (es ++ e ∷ [])
Numbered-append k [] e h p = (omega arith, tt)
Numbered-append k (x ∷ es) e h p = (h.0, Numbered-append (k + 1) es e h.1 (omega arith))

find-append_none :
    (p : RecordRow → Bool) (rs : List RecordRow) (r : RecordRow)
    → find p rs ≡ none
    → p r ≡ false
    → find p (rs ++ r ∷ []) ≡ none
find-append_none p [] r h q = ground arith
find-append_none p (x ∷ rs) r h q = ground (arith, find-append_none p rs r)

UniqueIds-append :
    (rs : List RecordRow) (r : RecordRow)
    → UniqueIds rs
    → find (λ x. str_eq x.record_id r.record_id) rs ≡ none
    → UniqueIds (rs ++ r ∷ [])
UniqueIds-append [] r h p = (refl, tt)
UniqueIds-append (x ∷ rs) r h p = elim (Bool-cases (str_eq x.record_id r.record_id)) [
  | inl same ↦ ground arith
  | inr other ↦ (
    find-append_none _ rs r h.0
        (ground (arith, eq_iff x.record_id r.record_id, eq_iff r.record_id x.record_id)),
    UniqueIds-append rs r h.1 (ground arith),
  )
]

EdgeClosed-Grows :
    {db db' : Tables} → Grows db db' → (e : EdgeRow) → EdgeClosed db e → EdgeClosed db' e
EdgeClosed-Grows g e h =
    ground (arith, Grows-has_record e.source_record_id g, Grows-has_record e.target_record_id g)

EventClosed-Grows :
    {db db' : Tables} → Grows db db' → (e : EventRow) → EventClosed db e → EventClosed db' e
EventClosed-Grows g e h =
    (Grows-has_record e.subject_record_id g h.0, Grows-receipt_present e.receipt_record_id g h.1)

module _ (digest : Bytes → String) where
  pub Advances-refl : (db : Tables) → Advances digest db db
  Advances-refl db = record { grows = Grows-refl db; keeps = λ c. c }

  pub Advances-trans :
      {a b c : Tables} → Advances digest a b → Advances digest b c → Advances digest a c
  Advances-trans g h = record {
    grows = Grows-trans g.grows h.grows;
    keeps = λ c. h.keeps (g.keeps c);
  }

  pub AddsClosure-refl : (db : Tables) → AddsClosure digest db db
  AddsClosure-refl db = record { advances = Advances-refl db; same_events = refl }

  pub AddsClosure-trans :
      {a b c : Tables} → AddsClosure digest a b → AddsClosure digest b c → AddsClosure digest a c
  AddsClosure-trans g h = record {
    advances = Advances-trans g.advances h.advances;
    same_events = h.same_events ∙ g.same_events;
  }

  module _ (db : Tables) where
    Grows-records : (r : RecordRow) → Grows db (record db { records = db.records ++ r ∷ [] })
    Grows-records r = record {
      records = Extends-append db.records (r ∷ []);
      edges = Extends-refl db.edges;
      events = Extends-refl db.events;
    }

    Grows-edges : (e : EdgeRow) → Grows db (record db { edges = db.edges ++ e ∷ [] })
    Grows-edges e = record {
      records = Extends-refl db.records;
      edges = Extends-append db.edges (e ∷ []);
      events = Extends-refl db.events;
    }

    Grows-events : (e : EventRow) → Grows db (record db { events = db.events ++ e ∷ [] })
    Grows-events e = record {
      records = Extends-refl db.records;
      edges = Extends-refl db.edges;
      events = Extends-append db.events (e ∷ []);
    }

    Advances-records :
        (r : RecordRow)
        → Sealed digest r
        → find_record r.record_id db ≡ none
        → Advances digest db (record db { records = db.records ++ r ∷ [] })
    unfolding find_record
    Advances-records r s free = record {
      grows = Grows-records r;
      keeps = λ c. record {
        numbered = c.numbered;
        unique_ids = UniqueIds-append db.records r c.unique_ids free;
        edges_closed = All-map _ _ db.edges (EdgeClosed-Grows (Grows-records r)) c.edges_closed;
        events_closed = All-map _ _ db.events (EventClosed-Grows (Grows-records r)) c.events_closed;
        sealed = All-append (Sealed digest) db.records (r ∷ []) c.sealed (s, tt);
      };
    }

    Advances-edges :
        (e : EdgeRow)
        → EdgeClosed db e
        → Advances digest db (record db { edges = db.edges ++ e ∷ [] })
    Advances-edges e closed = record {
      grows = Grows-edges e;
      keeps = λ c. record {
        numbered = c.numbered;
        unique_ids = c.unique_ids;
        edges_closed =
            All-map _ _ (db.edges ++ e ∷ []) (EdgeClosed-Grows (Grows-edges e))
              (All-append (EdgeClosed db) db.edges (e ∷ []) c.edges_closed (closed, tt));
        events_closed = All-map _ _ db.events (EventClosed-Grows (Grows-edges e)) c.events_closed;
        sealed = c.sealed;
      };
    }

    Advances-events :
        (e : EventRow)
        → e.event_sequence ≡ next_event_sequence db.events
        → EventClosed db e
        → Advances digest db (record db { events = db.events ++ e ∷ [] })
    Advances-events e next closed = record {
      grows = Grows-events e;
      keeps = λ c. record {
        numbered =
            Numbered-append 1 db.events e c.numbered
              (omega (arith, next, next_event_sequence_lem db.events c.numbered));
        unique_ids = c.unique_ids;
        edges_closed = All-map _ _ db.edges (EdgeClosed-Grows (Grows-events e)) c.edges_closed;
        events_closed =
            All-map _ _ (db.events ++ e ∷ []) (EventClosed-Grows (Grows-events e))
              (All-append (EventClosed db) db.events (e ∷ []) c.events_closed (closed, tt));
        sealed = c.sealed;
      };
    }

  pub insert_record_row-AddsClosure :
      (r : RecordRow) (db : Tables)
      → Sealed digest r
      → Ensures (AddsClosure digest db) (insert_record_row r db)
  unfolding insert_record_row
  insert_record_row-AddsClosure r db s = elim (Option-cases (find_record r.record_id db)) [
    | inl free ↦
        rw (free, has_record)
          (record { advances = Advances-records db r s free; same_events = refl })
    | inr (x, taken) ↦ rw (taken, has_record) tt
  ]

  pub insert_edge_or_ignore-AddsClosure :
      (e : EdgeRow) (db : Tables) → Ensures (AddsClosure digest db) (insert_edge_or_ignore e db)
  unfolding insert_edge_or_ignore
  insert_edge_or_ignore-AddsClosure e db = elim (Bool-cases (any (same_edge e) db.edges)) [
    | inl there ↦ rw there (AddsClosure-refl db)
    | inr new ↦ elim (Bool-cases (edge_endpoints e db)) [
      | inl closed ↦
          rw (new, closed) (record { advances = Advances-edges db e closed; same_events = refl })
      | inr open_end ↦ rw (new, open_end) tt
    ]
  ]

  pub insert_edge-Advances :
      (e : EdgeRow) (db : Tables) → Ensures (Advances digest db) (insert_edge e db)
  unfolding insert_edge
  insert_edge-Advances e db = elim (Bool-cases (any (same_edge e) db.edges)) [
    | inl there ↦ rw there tt
    | inr new ↦ elim (Bool-cases (edge_endpoints e db)) [
      | inl closed ↦ rw (new, closed) (Advances-edges db e closed)
      | inr open_end ↦ rw (new, open_end) tt
    ]
  ]

  pub insert_event-Advances :
      (e : EventRow) (db : Tables)
      → e.event_sequence ≡ next_event_sequence db.events
      → Ensures (Advances digest db) (insert_event e db)
  unfolding insert_event
  insert_event-Advances e db next = elim (Bool-cases (event_allowed e db)) [
    | inl allowed ↦ rw allowed (Advances-events db e next (ground arith, ground arith))
    | inr refused ↦ rw refused tt
  ]
