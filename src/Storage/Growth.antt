-- ===== src/Storage/Growth.antt =====
-- One state of the tables of src/qste/storage/database.py after another: rows are only added.
use qste.Base.{
  String, ◌≡◌, refl, sym, Bool, true, Option, none, some, List, [], ◌∷◌, ◌++◌, arith, find,
  Option-cases, inl, inr,
}
use mathlib.Core.List.{append_assoc, append-nil}
use qste.Storage.Tables.{RecordRow, Tables, find_record, has_record, receipt_present}

-- `ys` is `xs` with more behind it.
abbrev pub Extends {ℓ} : {A : Type ℓ} → List A → List A → Type ℓ
Extends {A} xs ys = (zs : List A) × (ys ≡ xs ++ zs)

module _ {ℓ} {A : Type ℓ} where
  pub Extends-refl : (xs : List A) → Extends xs xs
  Extends-refl xs = ([], sym (append-nil xs))

  pub Extends-append : (xs zs : List A) → Extends xs (xs ++ zs)
  Extends-append xs zs = (zs, refl)

  Extends-trans : (xs : List A) {ys zs : List A} → Extends xs ys → Extends ys zs → Extends xs zs
  Extends-trans xs (a, p) (b, q) = (a ++ b, rw (q, p) (append_assoc xs a b))

  find-append :
      (p : A → Bool) (xs ys : List A) {a : A} → find p xs ≡ some a → find p (xs ++ ys) ≡ some a
  find-append p [] ys h = cc
  find-append p (x ∷ xs) ys {a} h = ground (arith, find-append p xs ys {a = a})

pub record Grows (db db' : Tables) : Type 0 where
  pub records : Extends db.records db'.records
  pub edges : Extends db.edges db'.edges
  pub events : Extends db.events db'.events

pub Grows-refl : (db : Tables) → Grows db db
Grows-refl db = record {
  records = Extends-refl db.records;
  edges = Extends-refl db.edges;
  events = Extends-refl db.events;
}

pub Grows-trans : {a b c : Tables} → Grows a b → Grows b c → Grows a c
Grows-trans {a} g h = record {
  records = Extends-trans a.records g.records h.records;
  edges = Extends-trans a.edges g.edges h.edges;
  events = Extends-trans a.events g.events h.events;
}

-- A record that is found stays the record that is found.
pub Grows-find_record :
    {db db' : Tables} (id : String) (r : RecordRow)
    → Grows db db'
    → find_record id db ≡ some r
    → find_record id db' ≡ some r
unfolding find_record
Grows-find_record {db} id r g h = rw g.records.1 (find-append _ db.records g.records.0 h)

pub Grows-has_record :
    {db db' : Tables} (id : String)
    → Grows db db'
    → has_record id db ≡ true
    → has_record id db' ≡ true
Grows-has_record {db} id g h = elim (Option-cases (find_record id db)) [
  | inl absent ↦ ground arith
  | inr (r, present) ↦ ground (arith, Grows-find_record id r g present)
]

pub Grows-receipt_present :
    {db db' : Tables} (id : Option String)
    → Grows db db'
    → receipt_present id db ≡ true
    → receipt_present id db' ≡ true
Grows-receipt_present none g h = refl
Grows-receipt_present (some id) g h = Grows-has_record id g h
