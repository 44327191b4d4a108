-- ===== src/Storage/References.antt =====
-- The steps of a batch in src/qste/storage/database.py: its rows, its references and its edges.
use qste.Base.{
  String, ◌≡◌, refl, sym, ◌∙◌, Bool, true, none, some, List, [], ◌∷◌, ◌++◌, arith, find, any,
  any-append, any-append_self, All, All-map, Ensures, Ensures-bind, Ensures-weaken, str_eq, eq_iff,
  eq_refl, Bool-cases, Option-cases, inl, inr,
}
use qste.Storage.Tables.{
  Bytes, RecordRow, EdgeRow, Tables, find_record, has_record, insert_record_row,
  insert_edge_or_ignore, same_edge, edge_endpoints,
}
use qste.Storage.Records.{
  Reference, bytes_eq, write_row, validate_reference_targets, expected_types, check_target,
  check_targets, lookup_type,
}
use qste.Storage.Growth.{Grows, Grows-find_record}

pub bytes_eq_sound : (s t : Bytes) → bytes_eq s t ≡ true → s ≡ t
unfolding bytes_eq
bytes_eq_sound [] [] h = refl
bytes_eq_sound (a ∷ s) (b ∷ t) h = ground (arith, bytes_eq_sound s t)
bytes_eq_sound _ _ h = cc

find_sound :
    (p : RecordRow → Bool) (rs : List RecordRow) {r : RecordRow} → find p rs ≡ some r → p r ≡ true
find_sound p [] h = cc
find_sound p (x ∷ rs) {r} h = ground (arith, find_sound p rs {r = r})

pub find_record-record_id :
    (id : String) (db : Tables) {r : RecordRow} → find_record id db ≡ some r → r.record_id ≡ id
unfolding find_record
find_record-record_id id db {r} h = (eq_iff r.record_id id).0 (find_sound _ db.records h)

find-append_self :
    (p : RecordRow → Bool) (rs : List RecordRow) (r : RecordRow)
    → find p rs ≡ none
    → p r ≡ true
    → find p (rs ++ r ∷ []) ≡ some r
find-append_self p [] r h q = ground arith
find-append_self p (x ∷ rs) r h q = ground (arith, find-append_self p rs r)

-- A stored record has the ID and the bytes of a prepared row.
abbrev pub HasBytes : Tables → RecordRow → Type 0
HasBytes db row =
    (x : RecordRow) × (find_record row.record_id db ≡ some x)
    × (x.canonical_json ≡ row.canonical_json)

pub HasBytes-Grows :
    {db db' : Tables} → Grows db db' → (row : RecordRow) → HasBytes db row → HasBytes db' row
HasBytes-Grows g row (x, f, b) = (x, Grows-find_record row.record_id x g f, b)

insert_record_row-HasBytes :
    (row : RecordRow) (db : Tables) → Ensures (λ db'. HasBytes db' row) (insert_record_row row db)
unfolding insert_record_row find_record
insert_record_row-HasBytes row db = elim (Option-cases (find_record row.record_id db)) [
  | inl free ↦
      rw (free, has_record)
        (row, find-append_self _ db.records row free (eq_refl row.record_id), refl)
  | inr (x, taken) ↦ rw (taken, has_record) tt
]

pub write_row-HasBytes :
    (start : Tables) (row : RecordRow) (db : Tables)
    → Grows start db
    → Ensures (λ db'. HasBytes db' row) (write_row start row db)
unfolding write_row
write_row-HasBytes start row db g = elim (Option-cases (find_record row.record_id start)) [
  | inl new ↦ rw (new, write_row) (insert_record_row-HasBytes row db)
  | inr (prior, old) ↦
      rw (old, write_row)
        (elim (Bool-cases (bytes_eq prior.canonical_json row.canonical_json)) [
          | inl same ↦
              rw same (prior, Grows-find_record row.record_id prior g old, bytes_eq_sound _ _ same)
          | inr differ ↦ rw differ tt
        ])
]

-- The type that one ID is expected to have.
abbrev TypeOf : Tables → String × String → Type 0
TypeOf db (id, type) = (row : RecordRow) × (find_record id db ≡ some row) × (row.record_type ≡ type)

-- A reference leads to a stored record of the type that it names.
abbrev pub Resolved : Tables → Reference → Type 0
Resolved db r =
    (row : RecordRow) × (find_record r.record_id db ≡ some row) × (row.record_type ≡ r.record_type)

check_target-TypeOf :
    (db : Tables) (e : String × String) → Ensures (λ u. TypeOf db e) (check_target db e)
unfolding check_target
check_target-TypeOf db (id, type) = elim (Option-cases (find_record id db)) [
  | inl missing ↦ rw (missing, check_target) tt
  | inr (row, found) ↦
      rw (found, check_target)
        (elim (Bool-cases (str_eq row.record_type type)) [
          | inl same ↦ rw same (row, refl, (eq_iff row.record_type type).0 same)
          | inr differ ↦ rw differ tt
        ])
]

check_targets-TypeOf :
    (db : Tables) (m : List (String × String))
    → Ensures (λ u. All (TypeOf db) m) (check_targets db m)
unfolding check_targets
check_targets-TypeOf db [] = tt
check_targets-TypeOf db (e ∷ m) =
    Ensures-bind (λ u. TypeOf db e) (λ u. All (TypeOf db) (e ∷ m)) (check_target db e) _
      (check_target-TypeOf db e)
      λ u here.
        Ensures-weaken (λ v. All (TypeOf db) m) _ (check_targets db m) (check_targets-TypeOf db m)
          λ v rest. (here, rest)

lookup_type-append :
    (k : String) (m : List (String × String)) (e : String × String) {t : String}
    → lookup_type k m ≡ some t
    → lookup_type k (m ++ e ∷ []) ≡ some t
unfolding lookup_type
lookup_type-append k [] e h = cc
lookup_type-append k ((j, u) ∷ m) e {t} h = ground (arith, lookup_type-append k m e {t = t})

lookup_type-append_self :
    (k t : String) (m : List (String × String))
    → lookup_type k m ≡ none
    → lookup_type k (m ++ (k, t) ∷ []) ≡ some t
unfolding lookup_type
lookup_type-append_self k t [] h = ground (arith, eq_refl k)
lookup_type-append_self k t ((j, u) ∷ m) h = ground (arith, lookup_type-append_self k t m)

lookup_type-TypeOf :
    (db : Tables) (k : String) (m : List (String × String)) {t : String}
    → All (TypeOf db) m
    → lookup_type k m ≡ some t
    → TypeOf db (k, t)
unfolding lookup_type
lookup_type-TypeOf db k [] a h = absurd (cc)
lookup_type-TypeOf db k ((j, u) ∷ m) {t} a h = elim (Bool-cases (str_eq j k)) [
  | inl here ↦
      let same_id : k ≡ j = sym ((eq_iff j k).0 here) in
      let same_type : u ≡ t = ground arith in (a.0.0, rw same_id a.0.1, a.0.2 ∙ same_type)
  | inr there ↦ lookup_type-TypeOf db k m a.1 (rw there at h)
]

-- The table of expected types has every reference, and all that it had.
abbrev Covers : List (String × String) → List Reference → List (String × String) → Type 0
Covers m rs m' =
    All (λ r. lookup_type r.record_id m' ≡ some r.record_type) rs
    × ((k t : String) → lookup_type k m ≡ some t → lookup_type k m' ≡ some t)

expected_types-Covers :
    (rs : List Reference) (m : List (String × String)) → Ensures (Covers m rs) (expected_types rs m)
unfolding expected_types
expected_types-Covers [] m = (tt, λ k t h. h)
expected_types-Covers (r ∷ rs) m = elim (Option-cases (lookup_type r.record_id m)) [
  | inl new ↦
      let m1 = m ++ (r.record_id, r.record_type) ∷ [] in
      rw (new, expected_types)
        (Ensures-weaken (Covers m1 rs) (Covers m (r ∷ rs)) (expected_types rs m1)
          (expected_types-Covers rs m1)
          λ m' c. (
            (c.1 _ _ (lookup_type-append_self r.record_id r.record_type m new), c.0),
            λ k t h. c.1 k t (lookup_type-append k m _ h),
          ))
  | inr (prior, old) ↦
      rw (old, expected_types)
        (elim (Bool-cases (str_eq prior r.record_type)) [
          | inl same ↦ rw same (
              Ensures-weaken (Covers m rs) (Covers m (r ∷ rs)) (expected_types rs m)
                (expected_types-Covers rs m)
                λ m' c.
                  let known = rw ((eq_iff prior r.record_type).0 same) at old in
                  ((c.1 r.record_id r.record_type known, c.0), c.1))
          | inr differ ↦ rw differ tt
        ])
]

pub validate_reference_targets-Resolved :
    (db : Tables) (refs : List Reference)
    → Ensures (λ u. All (Resolved db) refs) (validate_reference_targets db refs)
unfolding validate_reference_targets
validate_reference_targets-Resolved db refs =
    Ensures-bind (Covers [] refs) (λ u. All (Resolved db) refs) (expected_types refs []) _
      (expected_types-Covers refs [])
      λ m c.
        Ensures-weaken (λ u. All (TypeOf db) m) _ (check_targets db m) (check_targets-TypeOf db m)
          λ u a. All-map _ (Resolved db) refs (λ r h. lookup_type-TypeOf db r.record_id m a h) c.0

abbrev pub edge_of : String → Reference → EdgeRow
edge_of source r = record {
  source_record_id = source;
  target_record_id = r.record_id;
  relation = r.relation;
}

-- The edge table has the edge of every reference of a document.
abbrev pub HasEdge : Tables → EdgeRow → Type 0
HasEdge db e = any (same_edge e) db.edges ≡ true

pub HasEdge-Grows : {db db' : Tables} → Grows db db' → (e : EdgeRow) → HasEdge db e → HasEdge db' e
HasEdge-Grows {db} g e h = rw g.edges.1 (any-append (same_edge e) db.edges g.edges.0 h)

same_edge_refl : (e : EdgeRow) → same_edge e e ≡ true
same_edge_refl e =
    ground (arith, eq_refl e.source_record_id, eq_refl e.target_record_id, eq_refl e.relation)

pub insert_edge_or_ignore-HasEdge :
    (e : EdgeRow) (db : Tables) → Ensures (λ db'. HasEdge db' e) (insert_edge_or_ignore e db)
unfolding insert_edge_or_ignore
insert_edge_or_ignore-HasEdge e db = elim (Bool-cases (any (same_edge e) db.edges)) [
  | inl there ↦ rw there there
  | inr new ↦ elim (Bool-cases (edge_endpoints e db)) [
    | inl closed ↦ rw (new, closed) (any-append_self (same_edge e) db.edges e (same_edge_refl e))
    | inr open_end ↦ rw (new, open_end) tt
  ]
]
