-- ===== src/Storage/RoundTrip.antt =====
-- Records that `insert_records` has written and `get_record` reads
-- (src/qste/storage/database.py).
use qste.Base.{String, List, All, ◌≡◌, ok, ◌∷◌, []}
use qste.Core.Json.{Fields, text_field, obj}
use qste.Storage.Tables.{Tables, Bytes}
use qste.Storage.Records.{Codec, insert_records}
use qste.Storage.Verification.{Reader}
use qste.Storage.Reads.{read_record, read_record-eq}
use qste.Storage.Rows.{Stored}
use qste.Storage.Closure.{insert_records_closes}
use qste.Storage.History.{Call, after_all, records_immutable}

module _ {F : Type 0} (reader : Reader F) where
  -- The document is what the store returns for its identifier.
  unfoldable pub IsReadBack : Tables → Fields F → Type 0
  IsReadBack db doc =
      (id : String) × (text_field "record_id" doc ≡ ok id) × (read_record reader id db ≡ ok doc)

module _ {F : Type 0} (codec : Codec F) (reader : Reader F) where
  -- The canonical bytes of a document are read as that document.
  abbrev pub Decodes : Fields F → Type 0
  Decodes doc =
      (b : Bytes) → codec.canonical_json_bytes (obj doc) ≡ ok b → reader.loads_json b ≡ ok (obj doc)

  Stored-IsReadBack :
      (cs : List (Call F)) (db : Tables) (doc : Fields F)
      → Decodes doc
      → Stored codec db doc
      → IsReadBack reader (after_all codec cs db) doc
  unfolding IsReadBack
  Stored-IsReadBack cs db doc d (row, i, b, s) = (
    row.record_id,
    i,
    read_record-eq reader row.record_id (after_all codec cs db) row doc
        (records_immutable codec cs db row.record_id row s) (d row.canonical_json b),
  )

  All-IsReadBack :
      (cs : List (Call F)) (db : Tables) (docs : List (Fields F))
      → All Decodes docs
      → All (Stored codec db) docs
      → All (IsReadBack reader (after_all codec cs db)) docs
  All-IsReadBack cs db [] d s = tt
  All-IsReadBack cs db (doc ∷ docs) d s =
      (Stored-IsReadBack cs db doc d.0 s.0, All-IsReadBack cs db docs d.1 s.1)

  -- When `insert_records` returns and the canonical bytes of each document are read as that document,
  -- then each document is what the store returns for its identifier, after whatever calls follow.
  pub read_record-insert_records :
      (docs : List (Fields F)) (db : Tables) (cs : List (Call F))
      → (insert_records codec docs db).0 ≡ ok tt
      → All Decodes docs
      → All (IsReadBack reader (after_all codec cs (insert_records codec docs db).1)) docs
  read_record-insert_records docs db cs h d =
      All-IsReadBack cs (insert_records codec docs db).1 docs d
        (insert_records_closes codec docs db h).0
