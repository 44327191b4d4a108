-- ===== src/Storage/Transactions.antt =====
-- The transactions of `RecordStore` in src/qste/storage/database.py and what they do to the tables.
use qste.Base.{
  ℕ, String, refl, sym, ap, Option, List, [], ◌∷◌, Result, ok, err, Ensures, Ensures-bind,
  Ensures-then, Ensures-weaken, raise_if, str_eq, contains, conformance_failed, invalid_input,
  length, not, ◌==◌, Bool-cases, Option-cases, inl, inr, All,
}
use qste.Core.Json.{Fields, text_field, obj}
use qste.Storage.Tables.{
  RecordRow, EdgeRow, Tables, find_record, has_record, transaction, insert_event,
  next_event_sequence, insert_edge,
}
use qste.Storage.Records.{
  Codec, Reference, bytes_eq, prepare, record_row, write_row, write_rows, link, link_batch,
  write_closure, insert_records, batch_references, validate_reference_targets, references_of,
}
use qste.Storage.Events.{
  EventRequest, insert_records_with_event, append_event, create_descendant, add_edge, event_row,
  event_payload, number_domain_event, lineage_relations,
}
use qste.Storage.Consistency.{
  Advances, Advances-refl, Advances-trans, AddsClosure, AddsClosure-refl, AddsClosure-trans, Sealed,
  insert_record_row-AddsClosure, insert_edge_or_ignore-AddsClosure, insert_edge-Advances,
  insert_event-Advances,
}

-- A transaction that ends well has advanced the tables; one that fails has not touched them.
transaction-Advances :
    (digest : List ℕ → String) {A : Type 0} (db : Tables) (m : Result (A × Tables))
    → Ensures (λ r. Advances digest db r.1) m
    → Advances digest db (transaction db m).1
transaction-Advances digest db (ok (a, db')) h = h
transaction-Advances digest db (err e) h = Advances-refl digest db

module _ {F : Type 0} (codec : Codec F) where
  abbrev pub digest : List ℕ → String
  digest = codec.content_digest

  record_row-Sealed : (doc : Fields F) → Ensures (Sealed digest) (record_row codec doc)
  unfolding record_row
  record_row-Sealed doc = Ensures-then _ (text_field "record_id" doc) _ λ i.
      Ensures-then _ (text_field "record_type" doc) _ λ t.
        Ensures-then _ (text_field "schema_id" doc) _ λ s.
          Ensures-then _ (text_field "created_at" doc) _
            λ c. Ensures-then _ (codec.canonical_json_bytes (obj doc)) _ λ b. refl

  pub prepare-Sealed :
      (ids : List String) (docs : List (Fields F))
      → Ensures (All (Sealed digest)) (prepare codec ids docs)
  unfolding prepare
  prepare-Sealed ids [] = tt
  prepare-Sealed ids (doc ∷ docs) =
      let Q = All (Sealed digest) in
      Ensures-then Q (codec.validate_record doc) _ λ v.
        Ensures-then Q (text_field "record_id" doc) _ λ id.
          Ensures-then Q (raise_if (contains id ids) conformance_failed) _ λ u.
            Ensures-bind (Sealed digest) Q (record_row codec doc) _ (record_row-Sealed doc) λ row s.
              Ensures-bind Q Q (prepare codec (id ∷ ids) docs) _ (prepare-Sealed (id ∷ ids) docs)
                λ rows ss. (s, ss)

  pub write_row-AddsClosure :
      (start : Tables) (row : RecordRow) (db : Tables)
      → Sealed digest row
      → Ensures (AddsClosure digest db) (write_row start row db)
  unfolding write_row
  write_row-AddsClosure start row db s = elim (Option-cases (find_record row.record_id start)) [
    | inl new ↦ rw (new, write_row) (insert_record_row-AddsClosure digest row db s)
    | inr (prior, old) ↦
        rw (old, write_row)
          (elim (Bool-cases (bytes_eq prior.canonical_json row.canonical_json)) [
            | inl same ↦ rw same (AddsClosure-refl digest db)
            | inr differ ↦ rw differ tt
          ])
  ]

  write_rows-AddsClosure :
      (start : Tables) (rows : List RecordRow) (db : Tables)
      → All (Sealed digest) rows
      → Ensures (AddsClosure digest db) (write_rows start rows db)
  unfolding write_rows
  write_rows-AddsClosure start [] db s = AddsClosure-refl digest db
  write_rows-AddsClosure start (row ∷ rows) db s =
      Ensures-bind (AddsClosure digest db) _ (write_row start row db) _
        (write_row-AddsClosure start row db s.0)
        λ db' g.
          Ensures-weaken _ _ (write_rows start rows db') (write_rows-AddsClosure start rows db' s.1)
            λ db'' h. AddsClosure-trans digest g h

  pub link-AddsClosure :
      (source : String) (refs : List Reference) (db : Tables)
      → Ensures (AddsClosure digest db) (link source refs db)
  unfolding link
  link-AddsClosure source [] db = AddsClosure-refl digest db
  link-AddsClosure source (r ∷ rs) db =
      Ensures-bind (AddsClosure digest db) _ _ _ (insert_edge_or_ignore-AddsClosure digest _ db)
        λ db' g.
          Ensures-weaken _ _ (link source rs db') (link-AddsClosure source rs db')
            λ db'' h. AddsClosure-trans digest g h

  link_batch-AddsClosure :
      (docs : List (Fields F)) (db : Tables) → Ensures (AddsClosure digest db) (link_batch docs db)
  unfolding link_batch
  link_batch-AddsClosure [] db = AddsClosure-refl digest db
  link_batch-AddsClosure (doc ∷ docs) db = Ensures-then _ (text_field "record_id" doc) _ λ source.
      Ensures-then _ (references_of doc) _ λ refs.
        Ensures-bind (AddsClosure digest db) _ (link source refs db) _
          (link-AddsClosure source refs db)
          λ db' g.
            Ensures-weaken _ _ (link_batch docs db') (link_batch-AddsClosure docs db')
              λ db'' h. AddsClosure-trans digest g h

  write_closure-AddsClosure :
      (rows : List RecordRow) (docs : List (Fields F)) (db : Tables)
      → All (Sealed digest) rows
      → Ensures (AddsClosure digest db) (write_closure rows docs db)
  unfolding write_closure
  write_closure-AddsClosure rows docs db s =
      Ensures-bind (AddsClosure digest db) _ (write_rows db rows db) _
        (write_rows-AddsClosure db rows db s)
        λ db' g. Ensures-then _ (batch_references docs) _ λ refs.
          Ensures-then _ (validate_reference_targets db' refs) _ λ u.
            Ensures-weaken _ _ (link_batch docs db') (link_batch-AddsClosure docs db')
              λ db'' h. AddsClosure-trans digest g h

  pub insert_records-Advances :
      (docs : List (Fields F)) (db : Tables) → Advances digest db (insert_records codec docs db).1
  unfolding insert_records
  insert_records-Advances [] db = Advances-refl digest db
  insert_records-Advances (doc ∷ docs) db =
      let Q = λ (r : Unit {0} × Tables). Advances digest db r.1 in
      transaction-Advances digest db _ (
        Ensures-bind (All (Sealed digest)) Q (prepare codec [] (doc ∷ docs)) _
          (prepare-Sealed [] (doc ∷ docs))
          λ rows s.
            Ensures-bind (AddsClosure digest db) Q (write_closure rows (doc ∷ docs) db) _
              (write_closure-AddsClosure rows (doc ∷ docs) db s) λ db' g. g.advances)

  pub insert_records_with_event-Advances :
      (domain_event : Option String) (e : EventRequest F) (docs : List (Fields F)) (db : Tables)
      → Advances digest db (insert_records_with_event codec domain_event e docs db).1
  unfolding insert_records_with_event event_row
  insert_records_with_event-Advances domain_event e docs db =
      let n = next_event_sequence db.events in
      let Q = λ (r : ℕ × Tables). Advances digest db r.1 in
      transaction-Advances digest db _ (
        Ensures-then Q (event_payload codec e) _ λ payload.
          Ensures-then Q (raise_if (length docs == 0) invalid_input) _ λ u.
            Ensures-then Q (number_domain_event domain_event n docs) _ λ numbered.
              Ensures-bind (All (Sealed digest)) Q (prepare codec [] numbered) _
                (prepare-Sealed [] numbered)
                λ rows s.
                  Ensures-bind (AddsClosure digest db) Q (write_closure rows numbered db) _
                    (write_closure-AddsClosure rows numbered db s)
                    λ db' g.
                      Ensures-bind (Advances digest db') Q
                        (insert_event (event_row codec e n payload) db') _
                        (insert_event-Advances digest (event_row codec e n payload) db'
                          (sym (ap next_event_sequence g.same_events)))
                        λ db'' h. Advances-trans digest g.advances h)

  pub append_event-Advances :
      (e : EventRequest F) (db : Tables) → Advances digest db (append_event codec e db).1
  unfolding append_event event_row
  append_event-Advances e db =
      let n = next_event_sequence db.events in
      let Q = λ (r : ℕ × Tables). Advances digest db r.1 in
      transaction-Advances digest db _ (
        Ensures-then Q (event_payload codec e) _ λ payload.
          Ensures-bind (Advances digest db) Q (insert_event (event_row codec e n payload) db) _
            (insert_event-Advances digest (event_row codec e n payload) db refl) λ db' g. g)

  pub create_descendant-Advances :
      (parent : String) (doc : Fields F) (relation : String) (db : Tables)
      → Advances digest db (create_descendant codec parent doc relation db).1
  unfolding create_descendant
  create_descendant-Advances parent doc relation db =
      let Q = λ (r : Unit {0} × Tables). Advances digest db r.1 in
      transaction-Advances digest db _ (
        Ensures-then Q (raise_if (not (contains relation lineage_relations)) invalid_input) _ λ u.
          Ensures-then Q (codec.validate_record doc) _ λ v.
            Ensures-then Q (text_field "record_id" doc) _ λ child.
              Ensures-then Q (raise_if (str_eq child parent) conformance_failed) _ λ w.
                Ensures-bind (Sealed digest) Q (record_row codec doc) _ (record_row-Sealed doc)
                  λ row s. Ensures-then Q (references_of doc) _ λ refs.
                    Ensures-then Q (raise_if (not (has_record parent db)) conformance_failed) _ λ x.
                      Ensures-bind (AddsClosure digest db) Q (write_row db row db) _
                        (write_row-AddsClosure db row db s)
                        λ db1 g. Ensures-then Q (validate_reference_targets db1 refs) _ λ y.
                          Ensures-bind (AddsClosure digest db1) Q (link child refs db1) _
                            (link-AddsClosure child refs db1)
                            λ db2 h.
                              Ensures-bind (AddsClosure digest db2) Q _ _
                                (insert_edge_or_ignore-AddsClosure digest _ db2)
                                λ db3 k.
                                  (AddsClosure-trans digest g
                                    (AddsClosure-trans digest h k)).advances)

  pub add_edge-Advances : (e : EdgeRow) (db : Tables) → Advances digest db (add_edge e db).1
  unfolding add_edge
  add_edge-Advances e db =
      let Q = λ (r : ℕ × Tables). Advances digest db r.1 in
      transaction-Advances digest db _ (
        Ensures-then Q (raise_if (not (contains e.relation lineage_relations)) invalid_input) _ λ u.
          Ensures-bind (Advances digest db) Q (insert_edge e db) _
            (insert_edge-Advances digest e db) λ db' g. g)
