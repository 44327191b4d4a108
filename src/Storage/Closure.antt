-- ===== src/Storage/Closure.antt =====
-- What a batch of `insert_records` in src/qste/storage/database.py leaves behind in the tables.
use qste.Base.{
  String, ◌≡◌, List, [], ◌∷◌, All, All-map, All-and, All-take, All-drop, Result, ok, err, Ensures,
  Ensures-bind, Ensures-weaken, Ensures-eq, Ensures-and, subst,
}
use qste.Core.Json.{Fields, text_field}
use qste.Storage.Tables.{RecordRow, Tables, insert_edge_or_ignore, transaction}
use qste.Storage.Records.{
  Codec, Reference, prepare, write_rows, link, link_batch, write_closure, insert_records,
  batch_references, validate_reference_targets, references_of,
}
use qste.Storage.Growth.{Grows, Grows-refl, Grows-trans, Grows-find_record}
use qste.Storage.Consistency.{AddsClosure, Sealed, insert_edge_or_ignore-AddsClosure}
use qste.Storage.Transactions.{prepare-Sealed}
use qste.Storage.References.{
  HasBytes-Grows, Resolved, validate_reference_targets-Resolved, HasEdge, HasEdge-Grows, edge_of,
  insert_edge_or_ignore-HasEdge,
}
use qste.Storage.Rows.{Stored, Matches, Wrote, prepare-Matches, write_rows-Wrote, Stored-of}

transaction-holds :
    {A : Type 0} (P : Tables → Type 0) (db : Tables) (m : Result (A × Tables)) {a : A}
    → Ensures (λ r. P r.1) m
    → (transaction db m).0 ≡ ok a
    → P (transaction db m).1
transaction-holds P db (ok (a, db')) h e = h
transaction-holds P db (err c) h e = cc

module _ {F : Type 0} (codec : Codec F) where
  -- The references of a document lead to stored records of the types that they name, and each has
  -- its lineage edge.
  abbrev pub Closed : Tables → Fields F → Type 0
  Closed db doc =
      (source : String) × (refs : List Reference) × (text_field "record_id" doc ≡ ok source)
      × (references_of doc ≡ ok refs)
      × All (λ r. Resolved db r × HasEdge db (edge_of source r)) refs

  -- The references of a document have a property.
  abbrev Refers : (Reference → Type 0) → Fields F → Type 0
  Refers P doc = (refs : List Reference) × (references_of doc ≡ ok refs) × All P refs

  -- A property of all references is one of each document's.
  abbrev Splits : List (Fields F) → List Reference → Type 1
  Splits docs refs = (P : Reference → Type 0) → All P refs → All (Refers P) docs

  batch_references-Splits : (docs : List (Fields F)) → Ensures (Splits docs) (batch_references docs)
  unfolding batch_references
  batch_references-Splits [] = λ P h. tt
  batch_references-Splits (doc ∷ docs) =
      let Q = Splits (doc ∷ docs) in
      Ensures-bind (λ refs. references_of doc ≡ ok refs) Q (references_of doc) _
        (Ensures-eq (references_of doc))
        λ refs e.
          Ensures-bind (Splits docs) Q (batch_references docs) _ (batch_references-Splits docs)
            λ rest k P h. ((refs, e, All-take P refs rest h), k P (All-drop P refs rest h))

  abbrev Edges : Tables → String → List Reference → Type 0
  Edges db source refs = All (λ r. HasEdge db (edge_of source r)) refs

  Edges-Grows :
      {db db' : Tables} (source : String) (refs : List Reference)
      → Grows db db'
      → Edges db source refs
      → Edges db' source refs
  Edges-Grows source refs g = All-map _ _ refs (λ r h. HasEdge-Grows g (edge_of source r) h)

  link-Edges :
      (source : String) (refs : List Reference) (db : Tables)
      → Ensures (λ db'. Grows db db' × Edges db' source refs) (link source refs db)
  unfolding link
  link-Edges source [] db = (Grows-refl db, tt)
  link-Edges source (r ∷ rs) db =
      let e = edge_of source r in
      Ensures-bind _ _ (insert_edge_or_ignore e db) _
        (Ensures-and (AddsClosure codec.content_digest db) (λ db'. HasEdge db' e) _
          (insert_edge_or_ignore-AddsClosure codec.content_digest e db)
          (insert_edge_or_ignore-HasEdge e db))
        λ db1 h.
          let g1 = h.0.advances.grows in
          Ensures-weaken (λ db2. Grows db1 db2 × Edges db2 source rs)
            (λ db2. Grows db db2 × Edges db2 source (r ∷ rs)) (link source rs db1)
            (link-Edges source rs db1) λ db2 k. (Grows-trans g1 k.0, (HasEdge-Grows k.0 e h.1, k.1))

  -- Every reference of a document has its edge.
  abbrev Linked : Tables → Fields F → Type 0
  Linked db doc =
      (source : String) × (refs : List Reference) × (text_field "record_id" doc ≡ ok source)
      × (references_of doc ≡ ok refs)
      × Edges db source refs

  link_batch-Linked :
      (docs : List (Fields F)) (db : Tables)
      → Ensures (λ db'. Grows db db' × All (Linked db') docs) (link_batch docs db)
  unfolding link_batch
  link_batch-Linked [] db = (Grows-refl db, tt)
  link_batch-Linked (doc ∷ docs) db =
      let Q = λ (db2 : Tables). Grows db db2 × All (Linked db2) (doc ∷ docs) in
      Ensures-bind (λ s. text_field "record_id" doc ≡ ok s) Q (text_field "record_id" doc) _
        (Ensures-eq (text_field "record_id" doc))
        λ source es.
          Ensures-bind (λ rs. references_of doc ≡ ok rs) Q (references_of doc) _
            (Ensures-eq (references_of doc))
            λ refs er. Ensures-bind _ Q (link source refs db) _ (link-Edges source refs db) λ db1 h.
              Ensures-weaken (λ db2. Grows db1 db2 × All (Linked db2) docs) Q (link_batch docs db1)
                (link_batch-Linked docs db1)
                λ db2 k.
                  let first = Edges-Grows source refs k.0 h.1 in
                  (Grows-trans h.0 k.0, ((source, refs, es, er, first), k.1))

  Closed-of :
      (db : Tables) (doc : Fields F) → Refers (Resolved db) doc × Linked db doc → Closed db doc
  Closed-of db doc ((refs, e, a), (source, refs', es, e', b)) =
      let same : refs' ≡ refs = cc in
      (source, refs, es, e, All-and _ _ refs a (subst (λ rs. Edges db source rs) same b))

  Resolved-Grows :
      {db db' : Tables} → Grows db db' → (r : Reference) → Resolved db r → Resolved db' r
  Resolved-Grows g r (row, found, type) = (row, Grows-find_record r.record_id row g found, type)

  write_closure-closes :
      (rows : List RecordRow) (docs : List (Fields F)) (db : Tables)
      → All (Sealed codec.content_digest) rows
      → Matches codec docs rows
      → Ensures
          (λ db'. All (Stored codec db') docs × All (Closed db') docs)
          (write_closure rows docs db)
  unfolding write_closure
  write_closure-closes rows docs db s m =
      let Q = λ (db' : Tables). All (Stored codec db') docs × All (Closed db') docs in
      Ensures-bind (Wrote codec db rows) Q (write_rows db rows db) _
        (write_rows-Wrote codec db rows db s (Grows-refl db))
        λ db1 w.
          Ensures-bind (Splits docs) Q (batch_references docs) _ (batch_references-Splits docs)
            λ refs split.
              Ensures-bind (λ u. All (Resolved db1) refs) Q (validate_reference_targets db1 refs) _
                (validate_reference_targets-Resolved db1 refs)
                λ u resolved.
                  Ensures-weaken (λ db2. Grows db1 db2 × All (Linked db2) docs) Q
                    (link_batch docs db1) (link_batch-Linked docs db1)
                    λ db2 k. (
                      Stored-of codec db2 docs rows m (All-map _ _ rows (HasBytes-Grows k.0) w.1),
                      All-map _ (Closed db2) docs (Closed-of db2) (
                          All-and (Refers (Resolved db2)) (Linked db2) docs
                            (split (Resolved db2) (All-map _ _ refs (Resolved-Grows k.0) resolved))
                            k.1),
                    )

  -- When `insert_records` returns, each document of the batch is stored under its ID with its
  -- canonical bytes, each of its typed references leads to a stored record of the type that it
  -- names, and each of them has its lineage edge.
  pub insert_records_closes :
      (docs : List (Fields F)) (db : Tables)
      → (insert_records codec docs db).0 ≡ ok tt
      → let db' = (insert_records codec docs db).1 in
        All (Stored codec db') docs × All (Closed db') docs
  unfolding insert_records
  insert_records_closes [] db h = (tt, tt)
  insert_records_closes (doc ∷ docs) db h =
      let P =
        λ (db' : Tables). All (Stored codec db') (doc ∷ docs) × All (Closed db') (doc ∷ docs) in
      let Q = λ (r : Unit {0} × Tables). P r.1 in
      transaction-holds P db _
        (Ensures-bind
          (λ rows. All (Sealed codec.content_digest) rows × Matches codec (doc ∷ docs) rows) Q
          (prepare codec [] (doc ∷ docs)) _
          (Ensures-and _ _ (prepare codec [] (doc ∷ docs)) (prepare-Sealed codec [] (doc ∷ docs))
            (prepare-Matches codec [] (doc ∷ docs)))
          λ rows sm.
            Ensures-bind P Q (write_closure rows (doc ∷ docs) db) _
              (write_closure-closes rows (doc ∷ docs) db sm.0 sm.1) λ db' c. c)
        h
