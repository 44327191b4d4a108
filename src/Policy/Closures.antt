-- ===== src/Policy/Closures.antt =====
-- `resolve_target_closure` (src/qste/policy/service.py) on a store that `verify` has accepted
-- (src/qste/storage/database.py).
use qste.Base.{
  ap, is_ok, String, Bool, List, All, ◌≡◌, ◌∷◌, true, ok, inl, [], some, Bool-cases, refl, subst,
  sym, inr, arith, Option, none, Option-cases, false, str_eq, err, internal_error, ℕ, Answers, leb,
  length, ltb, not, eq_iff,
}
use qste.Storage.Tables.{Tables, RecordRow, has_record, find_record}
use qste.Storage.Verification.{Reader}
use qste.Storage.Records.{Codec}
use qste.Storage.Lineage.{LineageEdge, descendants, trace_lineage, in_bounds}
use qste.Policy.Targets.{
  categorize, read_records, Categories, TargetClosure, resolve_target_closure, closure_from,
  ends_of, members_of, max_closure, added,
}
use qste.Storage.Soundness.{IsVerified, RecordVerified}
use qste.Core.Json.{text_field, Fields, get_field, Json, text}
use qste.Storage.Events.{field_is}
use qste.Storage.Lineage.Walks.{Found}
use qste.Storage.Consistency.{EdgeClosed, IsConsistent}
use qste.Storage.Lineage.Traces.{trace_lineage_sound}
use qste.Storage.References.{find_record-record_id}
use qste.Storage.Reads.{read_record, stored_find, read_record-eq}
use qste.Policy.Members.{
  All-sorted_set, All-Listed, All-find, and_left, and_right, in_bounds_weaken,
}

-- The identifiers other than the target, in their order.
abbrev pub others : String → List String → List String
others target [] = []
others target (id ∷ ids) = added (not (str_eq id target)) id (others target ids)

-- The closure that is asked for: the target and the ends of the edges found, all of them stored, with
-- all but the target as its descendants.
unfoldable pub IsClosure : Tables → String → List LineageEdge → TargetClosure → Type 0
IsClosure db target es t =
    (t.root_record_id ≡ target)
    × (t.member_record_ids ≡ members_of target es)
    × All (λ id. has_record id db ≡ true) t.member_record_ids
    × (t.categories.descendant_ids ≡ others target t.member_record_ids)

module _ {F : Type 0} where
  -- The record of an identifier, with a type.
  abbrev IsNamed : String → Fields F → Type 0
  IsNamed id fs =
      (text_field "record_id" fs ≡ ok id) × ((t : String) × (text_field "record_type" fs ≡ ok t))

  -- The records of a list of identifiers, in its order.
  AreNamed : List String → List (Fields F) → Type 0
  AreNamed [] docs = docs ≡ []
  AreNamed (id ∷ ids) [] = ⊥
  AreNamed (id ∷ ids) (fs ∷ docs) = IsNamed id fs × AreNamed ids docs

  option-text :
      (s : String) (o : Option (Json F))
      → elim o [ some (text t) ↦ str_eq s t | _ ↦ false ] ≡ true
      → elim o [ some (text t) ↦ ok t | _ ↦ err internal_error ] ≡ ok s
  option-text s none h = cc
  option-text s (some (text t)) h = let e = (eq_iff s t).0 h in cc
  option-text s (some v) h = cc

  field_is-text_field :
      (k s : String) (fs : Fields F) → field_is k s fs ≡ true → text_field k fs ≡ ok s
  unfolding text_field
  field_is-text_field k s fs h = option-text s (get_field k fs) h

  categorize-returns :
      (is_zero : F → Bool) (target : String) (ids : List String) (docs : List (Fields F))
      → AreNamed ids docs
      → (c : Categories) × (categorize is_zero target docs ≡ ok c)
        × (c.descendant_ids ≡ others target ids)
  unfolding categorize AreNamed
  categorize-returns is_zero target [] docs h = rw h (_, refl, refl)
  categorize-returns is_zero target (id ∷ ids) [] h = absurd h
  categorize-returns is_zero target (id ∷ ids) (fs ∷ docs) h =
      let ih = categorize-returns is_zero target ids docs h.1 in
      rw (h.0.0, h.0.1.1, ih.1) (_, refl, rw ih.2 refl)

  module _ (codec : Codec F) (reader : Reader F) where
    no_row : (o : Option RecordRow) → o ≡ none → elim o [ none ↦ false | some _ ↦ true ] ≡ true → ⊥
    no_row none p h = cc
    no_row (some r) p h = cc

    read_record-returns :
        (id : String) (db : Tables)
        → IsVerified codec reader db
        → has_record id db ≡ true
        → (fs : Fields F) × (read_record reader id db ≡ ok fs) × IsNamed id fs
    unfolding RecordVerified
    read_record-returns id db v h = elim (Option-cases (find_record id db)) [
      | inl absent ↦ absurd (no_row (find_record id db) absent h)
      | inr (row, stored) ↦
          let r : RecordVerified codec reader db row =
            All-find (RecordVerified codec reader db) (λ x. str_eq x.record_id id) db.records
              v.verified (stored_find id db stored) in
          let i = field_is-text_field "record_id" row.record_id r.0 r.1.3 in
          let t = field_is-text_field "record_type" row.record_type r.0 r.1.4 in
          let named : row.record_id ≡ id = find_record-record_id id db stored in
          (
            r.0,
            read_record-eq reader id db row r.0 stored r.1.0,
            (rw (i, named) refl, (row.record_type, t)),
          )
    ]

    read_records-returns :
        (ids : List String) (db : Tables)
        → IsVerified codec reader db
        → All (λ id. has_record id db ≡ true) ids
        → (docs : List (Fields F)) × (read_records reader ids db ≡ ok docs) × AreNamed ids docs
    unfolding read_records AreNamed
    read_records-returns [] db v h = ([], refl, refl)
    read_records-returns (id ∷ ids) db v h =
        let a = read_record-returns id db v h.0 in
        let b = read_records-returns ids db v h.1 in rw (a.1, b.1) (a.0 ∷ b.0, refl, (a.2, b.2))

    ends-present :
        (db : Tables) (target : String) (depth : ℕ) (es : List LineageEdge)
        → All (EdgeClosed db) db.edges
        → All (Found descendants db.edges target depth) es
        → All (λ id. has_record id db ≡ true) (ends_of es)
    unfolding ends_of
    ends-present db target depth [] c f = tt
    ends-present db target depth (e ∷ es) c f =
        let k = All-Listed (EdgeClosed db) e.row db.edges c f.0.0 in
        (and_left _ _ k, (and_right _ _ k, ends-present db target depth es c f.1))

    closure_from-IsClosure :
        (is_zero : F → Bool) (target : String) (depth : ℕ) (es : List LineageEdge) (db : Tables)
        → IsVerified codec reader db
        → All (λ id. has_record id db ≡ true) (members_of target es)
        → Answers
            (IsClosure db target es)
            (leb (length (members_of target es)) max_closure)
            (closure_from is_zero reader target depth es db)
    unfolding closure_from IsClosure
    closure_from-IsClosure is_zero target depth es db v h =
        let docs = read_records-returns (members_of target es) db v h in
        let c = categorize-returns is_zero target (members_of target es) docs.0 docs.2 in
        elim (Bool-cases (leb (length (members_of target es)) max_closure)) [
          | inl e ↦
              let n : ltb max_closure (length (members_of target es)) ≡ false = ground arith in
              rw (e, n, docs.1, c.1) (refl, (refl, refl, h, c.2))
          | inr e ↦
              let n : ltb max_closure (length (members_of target es)) ≡ true = ground arith in
              rw (e, n) refl
        ]

    resolve_target_closure-from :
        (is_zero : F → Bool) (target : String) (depth : ℕ) (es : List LineageEdge) (db : Tables)
        (fs : Fields F)
        → read_record reader target db ≡ ok fs
        → in_bounds 128 (some depth) ≡ true
        → trace_lineage reader target descendants depth none db ≡ ok (some es)
        → resolve_target_closure is_zero reader target depth db
          ≡ closure_from is_zero reader target depth es db
    unfolding resolve_target_closure
    resolve_target_closure-from is_zero target depth es db fs p b t = rw (p, b, t) refl

    -- On a consistent store that passes verification, asked for the closure of a stored target within
    -- a depth from 1 to 128, `trace_lineage` finds edges within the depth of the target, and
    -- `resolve_target_closure` returns exactly when the target and the ends of these edges are 4096
    -- records at most; its members are these records, all of them stored, and its descendants are the
    -- members other than the target.
    pub resolve_target_closure_lem :
        (is_zero : F → Bool) (target : String) (depth : ℕ) (db : Tables)
        → IsConsistent codec.content_digest db
        → IsVerified codec reader db
        → has_record target db ≡ true
        → in_bounds 128 (some depth) ≡ true
        → (es : List LineageEdge) × (trace_lineage reader target descendants depth none db
            ≡ ok (some es))
          × All (Found descendants db.edges target depth) es
          × Answers
              (IsClosure db target es)
              (leb (length (members_of target es)) max_closure)
              (resolve_target_closure is_zero reader target depth db)
    unfolding members_of
    resolve_target_closure_lem is_zero target depth db c v h b =
        let first = read_record-returns target db v h in
        let f =
          trace_lineage_sound reader target descendants depth none db (ap is_ok first.1)
            (in_bounds_weaken depth b) refl in
        let present =
          All-sorted_set (λ id. has_record id db ≡ true) (target ∷ ends_of f.0)
            (h, ends-present db target depth f.0 c.edges_closed f.2) in
        let same = resolve_target_closure-from is_zero target depth f.0 db first.0 first.1 b f.1 in
        (
          f.0,
          f.1,
          f.2,
          subst
              (Answers (IsClosure db target f.0) (leb (length (members_of target f.0)) max_closure))
              (sym same) (closure_from-IsClosure is_zero target depth f.0 db v present),
        )
