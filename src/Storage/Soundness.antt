-- ===== src/Storage/Soundness.antt =====
-- What `RecordStore.verify` (src/qste/storage/database.py) establishes, and a store that it refuses.
use qste.Base.{
  String, Bool, ℕ, List, Ensures, All, ◌≡◌, any, ok, true, ◌∷◌, Ensures-bind, false, [], arith,
  Ensures-raise_if, refl, ◌+◌, conformance_failed, Ensures-weaken, Ensures-eq, Ensures-then, not,
  eq_iff, ◌∙◌, ap, sym, Ensures-always,
}
use qste.Storage.Tables.{Tables, RecordRow, EdgeRow, EventRow, Bytes}
use qste.Storage.Records.{Codec, Reference, references_of}
use qste.Storage.Verification.{
  Reader, check_relations, is_numbered, verify_record, verify_records, check_lineage, is_unknown,
  row_matches, all_linked, verify, as_object, validate_reference_closure, verify_events,
}
use qste.Core.Json.{Fields, text_field, obj, Json}
use qste.Storage.Consistency.{Numbered, Sealed}
use qste.Storage.Events.{field_is}
use qste.Storage.References.{bytes_eq_sound}

-- An edge with a relation that is no lineage relation.
abbrev pub unknown_edge : EdgeRow → Bool
unknown_edge e = is_unknown e.relation

check_relations-known :
    (es : List EdgeRow) → Ensures (λ _. any unknown_edge es ≡ false) (check_relations es)
unfolding check_relations
check_relations-known [] = refl
check_relations-known (e ∷ es) =
    Ensures-raise_if (λ _. any unknown_edge (e ∷ es) ≡ false) (is_unknown e.relation)
      conformance_failed (check_relations es)
      (λ h.
        Ensures-weaken (λ _. any unknown_edge es ≡ false) (λ _. any unknown_edge (e ∷ es) ≡ false)
          (check_relations es) (check_relations-known es) (λ _ k. ground arith))

is_numbered-Numbered : (n : ℕ) (es : List EventRow) → is_numbered n es ≡ true → Numbered n es
unfolding is_numbered
is_numbered-Numbered n [] h = tt
is_numbered-Numbered n (e ∷ es) h = (ground arith, is_numbered-Numbered (n + 1) es (ground arith))

module _ {F : Type 0} (codec : Codec F) (reader : Reader F) where
  -- A row whose bytes are the canonical ones of a record with its identifier and type, with
  -- their digest.
  abbrev pub ReadsAs : RecordRow → Fields F → Type 0
  ReadsAs row fs =
      (reader.loads_json row.canonical_json ≡ ok (obj fs))
      × (codec.canonical_json_bytes (obj fs) ≡ ok row.canonical_json)
      × Sealed codec.content_digest row
      × (field_is "record_id" row.record_id fs ≡ true)
      × (field_is "record_type" row.record_type fs ≡ true)

  -- A record all of whose references have their lineage edge.
  abbrev pub Linked : Tables → Fields F → Type 0
  Linked db fs =
      (source : String) × (refs : List Reference) × (text_field "record_id" fs ≡ ok source)
      × (references_of fs ≡ ok refs)
      × (all_linked db source refs ≡ true)

  -- What verification says of the records of the tables.
  unfoldable pub RecordVerified : Tables → RecordRow → Type 0
  RecordVerified db row = (fs : Fields F) × ReadsAs row fs × Linked db fs

  as_object-obj : (v : Json F) → Ensures (λ fs. v ≡ obj fs) (as_object v)
  unfolding as_object
  as_object-obj (obj fs) = refl
  as_object-obj v = tt

  matched :
      (row : RecordRow) (fs : Fields F) (v : Json F) (c : Bytes)
      → reader.loads_json row.canonical_json ≡ ok v
      → v ≡ obj fs
      → codec.canonical_json_bytes (obj fs) ≡ ok c
      → not (row_matches codec row fs c) ≡ false
      → ReadsAs row fs
  unfolding row_matches
  matched row fs v c e p q m =
      let same = bytes_eq_sound c row.canonical_json (ground arith) in
      let digest = (eq_iff (codec.content_digest c) row.record_digest).0 (ground arith) in
      (
        e ∙ ap ok p,
        q ∙ ap ok same,
        ap codec.content_digest (sym same) ∙ digest,
        ground arith,
        ground arith,
      )

  verify_record-ReadsAs : (row : RecordRow) → Ensures (ReadsAs row) (verify_record codec reader row)
  unfolding verify_record row_matches
  verify_record-ReadsAs row =
      Ensures-bind (λ v. reader.loads_json row.canonical_json ≡ ok v) (ReadsAs row)
        (reader.loads_json row.canonical_json) _ (Ensures-eq (reader.loads_json row.canonical_json))
        (λ v e.
          Ensures-bind (λ fs. v ≡ obj fs) (ReadsAs row) (as_object v) _ (as_object-obj v)
            (λ fs p. Ensures-then (ReadsAs row) (codec.validate_record fs) _ (λ _.
              Ensures-bind (λ c. codec.canonical_json_bytes (obj fs) ≡ ok c) (ReadsAs row)
                (codec.canonical_json_bytes (obj fs)) _
                (Ensures-eq (codec.canonical_json_bytes (obj fs)))
                (λ c q.
                  Ensures-raise_if (ReadsAs row) (not (row_matches codec row fs c))
                    conformance_failed (ok fs) (matched row fs v c e p q)))))

  -- The rows with the records that they read as, in order.
  abbrev Pairwise : List RecordRow → List (Fields F) → Type 0
  Pairwise [] [] = Unit
  Pairwise (row ∷ rows) (fs ∷ rest) = ReadsAs row fs × Pairwise rows rest
  Pairwise _ _ = ⊥

  verify_records-Pairwise :
      (rows : List RecordRow) → Ensures (Pairwise rows) (verify_records codec reader rows)
  unfolding verify_records
  verify_records-Pairwise [] = tt
  verify_records-Pairwise (row ∷ rows) =
      Ensures-bind (ReadsAs row) (Pairwise (row ∷ rows)) (verify_record codec reader row) _
        (verify_record-ReadsAs row)
        (λ fs h.
          Ensures-bind (Pairwise rows) (Pairwise (row ∷ rows)) (verify_records codec reader rows) _
            (verify_records-Pairwise rows) (λ rest k. (h, k)))

  check_lineage-Linked :
      (db : Tables) (docs : List (Fields F))
      → Ensures (λ _. All (Linked db) docs) (check_lineage db docs)
  unfolding check_lineage
  check_lineage-Linked db [] = tt
  check_lineage-Linked db (fs ∷ rest) =
      let Q = λ (u : Unit {0}). All (Linked db) (fs ∷ rest) in
      Ensures-bind (λ source. text_field "record_id" fs ≡ ok source) Q (text_field "record_id" fs) _
        (Ensures-eq (text_field "record_id" fs))
        (λ source e.
          Ensures-bind (λ refs. references_of fs ≡ ok refs) Q (references_of fs) _
            (Ensures-eq (references_of fs))
            (λ refs p.
              Ensures-raise_if Q (not (all_linked db source refs)) conformance_failed _ (λ m.
                Ensures-weaken (λ _. All (Linked db) rest) Q (check_lineage db rest)
                  (check_lineage-Linked db rest) (λ _ k. ((source, refs, e, p, ground arith), k)))))

  Pairwise-verified :
      (db : Tables) (rows : List RecordRow) (docs : List (Fields F))
      → Pairwise rows docs
      → All (Linked db) docs
      → All (RecordVerified db) rows
  unfolding RecordVerified
  Pairwise-verified db [] [] h k = tt
  Pairwise-verified db [] (fs ∷ docs) h k = tt
  Pairwise-verified db (row ∷ rows) [] h k = absurd h
  Pairwise-verified db (row ∷ rows) (fs ∷ docs) h k =
      ((fs, h.0, k.0), Pairwise-verified db rows docs h.1 k.1)

  -- What a successful verification says of the tables.
  pub record IsVerified (db : Tables) : Type 0 where
    pub verified : All (RecordVerified db) db.records
    pub known : any unknown_edge db.edges ≡ false
    pub numbered : Numbered 1 db.events

  -- When `verify` returns, the bytes of every record row are the canonical bytes of a record with
  -- the row's identifier and type, and have the row's digest; every typed reference of that record
  -- has its lineage edge, every edge has a lineage relation, and the events are numbered 1, 2, 3 and
  -- so on.
  pub verify-IsVerified : (db : Tables) → Ensures (λ _. IsVerified db) (verify codec reader db)
  unfolding verify
  verify-IsVerified db =
      let Q = λ (u : Unit {0}). IsVerified db in
      Ensures-then Q (reader.check_database db) _ (λ _.
        Ensures-bind (Pairwise db.records) Q (verify_records codec reader db.records) _
          (verify_records-Pairwise db.records)
          (λ docs h. Ensures-then Q (validate_reference_closure codec docs) _ (λ _.
            Ensures-bind (λ _. All (Linked db) docs) Q (check_lineage db docs) _
              (check_lineage-Linked db docs)
              (λ _ k.
                Ensures-bind (λ _. any unknown_edge db.edges ≡ false) Q (check_relations db.edges) _
                  (check_relations-known db.edges)
                  (λ _ e. Ensures-then Q (verify_events codec reader db.events) _ (λ _.
                    Ensures-raise_if Q (not (is_numbered 1 db.events)) conformance_failed _ (λ n.
                      Ensures-always (IsVerified db) (reader.check_registrations db) (record {
                        verified = Pairwise-verified db db.records docs h k;
                        known = e;
                        numbered = is_numbered-Numbered 1 db.events (ground arith);
                      }))))))))
