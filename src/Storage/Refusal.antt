-- ===== src/Storage/Refusal.antt =====
-- A store of src/qste/storage/database.py that `insert_records` has accepted and `verify` refuses: the
-- relation of a typed reference is checked by neither `insert_records` nor the tables.
use qste.Base.{
  String, Bool, List, ◌≡◌, any, All, true, ◌∷◌, is_ok, eq_iff, Bool-cases, arith, [], inl, subst,
  ok, false, inr, Result, Ensures-weaken, ok_inj, Ensures, err, sym, refl, ◌∙◌, All-map, any-append,
}
use qste.Storage.Tables.{Tables, EdgeRow, same_edge}
use qste.Storage.Records.{insert_records, Codec, Reference, references_of}
use qste.Storage.Verification.{Reader, is_unknown, verify}
use qste.Core.Json.{Fields}
use qste.Storage.Soundness.{unknown_edge, IsVerified, verify-IsVerified}
use qste.Storage.References.{HasEdge, edge_of}
use qste.Storage.History.{Call, after_all, edges_and_events_append_only}
use qste.Storage.Closure.{insert_records_closes}

abbrev pub unknown_reference : Reference → Bool
unknown_reference r = is_unknown r.relation

same_edge-unknown :
    (a b : EdgeRow) → same_edge a b ≡ true → unknown_edge a ≡ true → unknown_edge b ≡ true
same_edge-unknown a b h k =
    let p = (eq_iff a.relation b.relation).0 (ground arith) in subst (λ r. is_unknown r ≡ true) p k

any-same_edge :
    (a : EdgeRow) (es : List EdgeRow)
    → unknown_edge a ≡ true
    → any (same_edge a) es ≡ true
    → any unknown_edge es ≡ true
any-same_edge a [] k h = h
any-same_edge a (e ∷ es) k h = elim (Bool-cases (same_edge a e)) [
  | inl s ↦ let u = same_edge-unknown a e s k in ground arith
  | inr s ↦ let ih = any-same_edge a es k in ground arith
]

linked-unknown :
    (db : Tables) (source : String) (refs : List Reference)
    → All (λ r. HasEdge db (edge_of source r)) refs
    → any unknown_reference refs ≡ true
    → any unknown_edge db.edges ≡ true
linked-unknown db source [] h k = cc
linked-unknown db source (r ∷ refs) h k = elim (Bool-cases (unknown_reference r)) [
  | inl u ↦ any-same_edge (edge_of source r) db.edges u h.0
  | inr u ↦ linked-unknown db source refs h.1 (ground arith)
]

module _ {F : Type 0} (codec : Codec F) (reader : Reader F) where
  refused_rule : (m : Result (Unit {0})) → Ensures (λ _. ⊥) m → is_ok m ≡ false
  refused_rule (ok u) h = absurd h
  refused_rule (err e) h = refl

  no_unknown :
      (db : Tables) → any unknown_edge db.edges ≡ true → any unknown_edge db.edges ≡ false → ⊥
  no_unknown db h k = ground arith

  refused :
      (db : Tables) → any unknown_edge db.edges ≡ true → is_ok (verify codec reader db) ≡ false
  refused db h = refused_rule (verify codec reader db) (
      Ensures-weaken (λ _. IsVerified codec reader db) (λ _. ⊥) (verify codec reader db)
        (verify-IsVerified codec reader db) (λ _ v. no_unknown db h v.known))

  -- When `insert_records` has accepted a record one of whose typed references names no lineage
  -- relation, `verify` never again returns, whatever calls follow and whatever the reader finds.
  pub verify_refuses_accepted :
      (doc : Fields F) (db : Tables) (refs : List Reference) (cs : List (Call F))
      → (insert_records codec (doc ∷ []) db).0 ≡ ok tt
      → references_of doc ≡ ok refs
      → any unknown_reference refs ≡ true
      → is_ok (verify codec reader (after_all codec cs (insert_records codec (doc ∷ []) db).1))
        ≡ false
  verify_refuses_accepted doc db refs cs h r u =
      let db' = (insert_records codec (doc ∷ []) db).1 in
      let closed = (insert_records_closes codec (doc ∷ []) db h).1.0 in
      let same : closed.1 ≡ refs = ok_inj (sym closed.3 ∙ r) in
      let here =
        linked-unknown db' closed.0 closed.1 (All-map _ _ closed.1 (λ x l. l.1) closed.4)
          (subst (λ rs. any unknown_reference rs ≡ true) (sym same) u) in
      let more = (edges_and_events_append_only codec cs db').0 in
      refused (after_all codec cs db') (rw more.1 (any-append unknown_edge db'.edges more.0 here))
