-- ===== src/Storage/Reads.antt =====
-- `get_record` of src/qste/storage/database.py with the decoded record.
use qste.Base.{String, Result, ok, some, str_eq, find, ◌≡◌, ◌>>=◌, refl}
use qste.Storage.Tables.{Tables, RecordRow, find_record}
use qste.Storage.Records.{stored_row}
use qste.Storage.Verification.{Reader, as_object}
use qste.Core.Json.{Fields, obj}

pub stored_find :
    (id : String) (db : Tables) {row : RecordRow}
    → find_record id db ≡ some row
    → find (λ x. str_eq x.record_id id) db.records ≡ some row
unfolding find_record
stored_find id db h = h

stored_row-eq :
    (id : String) (db : Tables) (row : RecordRow)
    → find_record id db ≡ some row
    → stored_row id db ≡ ok row
unfolding stored_row
stored_row-eq id db row h = rw (h, stored_row) refl

module _ {F : Type 0} (reader : Reader F) where
  -- `self.store.get_record(id).record`
  unfoldable pub read_record : String → Tables → Result (Fields F)
  read_record id db = do
    row ← stored_row id db
    value ← reader.loads_json row.canonical_json
    as_object value

  pub read_record-eq :
      (id : String) (db : Tables) (row : RecordRow) (fs : Fields F)
      → find_record id db ≡ some row
      → reader.loads_json row.canonical_json ≡ ok (obj fs)
      → read_record id db ≡ ok fs
  unfolding read_record as_object
  read_record-eq id db row fs h p = let g = stored_row-eq id db row h in rw (g, p) refl
