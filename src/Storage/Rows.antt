-- ===== src/Storage/Rows.antt =====
-- The rows that a batch of `insert_records` in src/qste/storage/database.py leaves in the tables.
use qste.Base.{
  String, ◌≡◌, sym, ap, ◌∙◌, some, List, [], ◌∷◌, All, ok, Ensures, Ensures-bind, Ensures-then,
  Ensures-weaken, Ensures-eq, Ensures-and, raise_if, conformance_failed, contains, subst,
}
use qste.Core.Json.{Fields, text_field, obj}
use qste.Storage.Tables.{RecordRow, Tables, find_record}
use qste.Storage.Records.{Codec, prepare, record_row, write_row, write_rows}
use qste.Storage.Growth.{Grows, Grows-refl, Grows-trans}
use qste.Storage.Consistency.{AddsClosure, Sealed}
use qste.Storage.Transactions.{write_row-AddsClosure}
use qste.Storage.References.{HasBytes, HasBytes-Grows, write_row-HasBytes, find_record-record_id}

module _ {F : Type 0} (codec : Codec F) where
  -- A document is stored under its ID with its canonical bytes.
  abbrev pub Stored : Tables → Fields F → Type 0
  Stored db doc =
      (row : RecordRow) × (text_field "record_id" doc ≡ ok row.record_id)
      × (codec.canonical_json_bytes (obj doc) ≡ ok row.canonical_json)
      × (find_record row.record_id db ≡ some row)

  -- The prepared rows are those of the documents, in order.
  abbrev pub Matches : List (Fields F) → List RecordRow → Type 0
  Matches [] [] = Unit
  Matches (doc ∷ docs) (row ∷ rows) =
      (text_field "record_id" doc ≡ ok row.record_id)
      × (codec.canonical_json_bytes (obj doc) ≡ ok row.canonical_json)
      × Matches docs rows
  Matches _ _ = ⊥

  record_row-eq :
      (doc : Fields F)
      → Ensures
          (λ row.
            (text_field "record_id" doc ≡ ok row.record_id)
            × (codec.canonical_json_bytes (obj doc) ≡ ok row.canonical_json))
          (record_row codec doc)
  unfolding record_row
  record_row-eq doc =
      let Q = λ (row : RecordRow).
        (text_field "record_id" doc ≡ ok row.record_id)
        × (codec.canonical_json_bytes (obj doc) ≡ ok row.canonical_json) in
      Ensures-bind (λ i. text_field "record_id" doc ≡ ok i) Q (text_field "record_id" doc) _
        (Ensures-eq (text_field "record_id" doc))
        λ i ei. Ensures-then Q (text_field "record_type" doc) _ λ t.
          Ensures-then Q (text_field "schema_id" doc) _ λ s.
            Ensures-then Q (text_field "created_at" doc) _ λ c.
              Ensures-bind (λ b. codec.canonical_json_bytes (obj doc) ≡ ok b) Q
                (codec.canonical_json_bytes (obj doc)) _
                (Ensures-eq (codec.canonical_json_bytes (obj doc))) λ b eb. (ei, eb)

  pub prepare-Matches :
      (ids : List String) (docs : List (Fields F)) → Ensures (Matches docs) (prepare codec ids docs)
  unfolding prepare
  prepare-Matches ids [] = tt
  prepare-Matches ids (doc ∷ docs) =
      let Q = Matches (doc ∷ docs) in
      Ensures-then Q (codec.validate_record doc) _ λ v.
        Ensures-then Q (text_field "record_id" doc) _ λ id.
          Ensures-then Q (raise_if (contains id ids) conformance_failed) _ λ u.
            Ensures-bind _ Q (record_row codec doc) _ (record_row-eq doc) λ row e.
              Ensures-bind (Matches docs) Q (prepare codec (id ∷ ids) docs) _
                (prepare-Matches (id ∷ ids) docs) λ rows es. (e.0, e.1, es)

  abbrev pub Wrote : Tables → List RecordRow → Tables → Type 0
  Wrote db rows db' = Grows db db' × All (HasBytes db') rows

  pub write_rows-Wrote :
      (start : Tables) (rows : List RecordRow) (db : Tables)
      → All (Sealed codec.content_digest) rows
      → Grows start db
      → Ensures (Wrote db rows) (write_rows start rows db)
  unfolding write_rows
  write_rows-Wrote start [] db s g = (Grows-refl db, tt)
  write_rows-Wrote start (row ∷ rows) db s g =
      Ensures-bind _ (Wrote db (row ∷ rows)) (write_row start row db) _
        (Ensures-and (AddsClosure codec.content_digest db) (λ db'. HasBytes db' row) _
          (write_row-AddsClosure codec start row db s.0) (write_row-HasBytes start row db g))
        λ db1 h.
          let g1 = h.0.advances.grows in
          Ensures-weaken (Wrote db1 rows) _ (write_rows start rows db1)
            (write_rows-Wrote start rows db1 s.1 (Grows-trans g g1))
            λ db2 k. (Grows-trans g1 k.0, (HasBytes-Grows k.0 row h.1, k.1))

  pub Stored-of :
      (db : Tables) (docs : List (Fields F)) (rows : List RecordRow)
      → Matches docs rows
      → All (HasBytes db) rows
      → All (Stored db) docs
  Stored-of db [] [] m h = tt
  Stored-of db [] (row ∷ rows) m h = absurd m
  Stored-of db (doc ∷ docs) [] m h = absurd m
  Stored-of db (doc ∷ docs) (row ∷ rows) (ei, eb, m) ((x, found, same), h) =
      let id = find_record-record_id row.record_id db found in
      (
        (
          x,
          ei ∙ ap ok (sym id),
          eb ∙ ap ok (sym same),
          subst (λ k. find_record k db ≡ some x) (sym id) found,
        ),
        Stored-of db docs rows m h,
      )
