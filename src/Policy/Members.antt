-- ===== src/Policy/Members.antt =====
-- What holds of every identifier and row that `resolve_target_closure` of
-- src/qste/policy/service.py takes.
use Prim.Native.Nat.{Ordering}
use Prim.Native.String.{compare}
use qste.Base.{
  Bool, String, ℕ, ◌&&◌, List, All, ◌≡◌, some, ◌∷◌, true, find, [], arith, Bool-cases, inl, subst,
  some_inj, sym, inr,
}
use qste.Policy.State.{insert_sorted, sorted_set}
use qste.Storage.Tables.{EdgeRow, RecordRow}
use qste.Storage.Lineage.{in_bounds}
use qste.Storage.Lineage.Walks.{Listed}

All-placed :
    (o : Ordering) (P : String → Type 0) (s t : String) (ts rest : List String)
    → P s
    → All P (t ∷ ts)
    → All P rest
    → All P (elim o [ Ordering.lt ↦ s ∷ t ∷ ts | Ordering.eq ↦ t ∷ ts | Ordering.gt ↦ t ∷ rest ])
All-placed Ordering.lt P s t ts rest h k r = (h, k)
All-placed Ordering.eq P s t ts rest h k r = k
All-placed Ordering.gt P s t ts rest h k r = (k.0, r)

All-insert_sorted :
    (P : String → Type 0) (s : String) (ss : List String)
    → P s
    → All P ss
    → All P (insert_sorted s ss)
unfolding insert_sorted
All-insert_sorted P s [] h k = (h, tt)
All-insert_sorted P s (t ∷ ts) h k =
    All-placed (compare s t) P s t ts (insert_sorted s ts) h k (All-insert_sorted P s ts h k.1)

pub All-sorted_set : (P : String → Type 0) (ss : List String) → All P ss → All P (sorted_set ss)
unfolding sorted_set
All-sorted_set P [] h = tt
All-sorted_set P (s ∷ ss) h = All-insert_sorted P s (sorted_set ss) h.0 (All-sorted_set P ss h.1)

pub All-Listed :
    (P : EdgeRow → Type 0) (e : EdgeRow) (es : List EdgeRow) → All P es → Listed e es → P e
All-Listed P e [] h l = absurd l
All-Listed P e (x ∷ xs) h (inl p) = subst P (sym p) h.0
All-Listed P e (x ∷ xs) h (inr l) = All-Listed P e xs h.1 l

pub All-find :
    (P : RecordRow → Type 0) (p : RecordRow → Bool) (rows : List RecordRow) {row : RecordRow}
    → All P rows
    → find p rows ≡ some row
    → P row
All-find P p [] h e = cc
All-find P p (r ∷ rows) h e = elim (Bool-cases (p r)) [
  | inl t ↦ subst P (some_inj (ground arith)) h.0
  | inr t ↦ All-find P p rows h.1 (ground arith)
]

pub and_left : (a b : Bool) → (a && b) ≡ true → a ≡ true
and_left a b h = ground arith

pub and_right : (a b : Bool) → (a && b) ≡ true → b ≡ true
and_right a b h = ground arith

pub in_bounds_weaken : (d : ℕ) → in_bounds 128 (some d) ≡ true → in_bounds 1024 (some d) ≡ true
in_bounds_weaken d h = ground arith
