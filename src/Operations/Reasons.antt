-- ===== src/Operations/Reasons.antt =====
-- The reason that `_relation_result` of src/qste/operations.py gives to a comparison, against a
-- description that sorts nothing.
use Prim.Native.Nat.{Ordering}
use Prim.Native.String.{compare}
use text.Mathlib.Text.{is_eq}
use qste.Base.{
  String, ◌≡◌, ◌∙◌, refl, sym, subst, true, false, List, [], ◌∷◌, all, contains, str_eq,
  if◌then◌else◌, arith, Bool-cases, inl, inr, eq_iff, eq_refl, ap,
}
use qste.Policy.State.{insert_sorted, sorted_set}
use qste.Relations.Partition.{contains-sorted_set}
use qste.Operations.Domains.{sole_reason}

-- The reason that all of them share; `completed` for none and for different ones.
unfoldable pub shared_reason : List String → String
shared_reason [] = "completed"
shared_reason (r ∷ rs) = if all (str_eq r) rs then r else "completed"

placed-eq :
    (o : Ordering) (s t : String) (ts rest : List String)
    → is_eq o ≡ true
    → elim o [ Ordering.lt ↦ s ∷ t ∷ ts | Ordering.eq ↦ t ∷ ts | Ordering.gt ↦ t ∷ rest ] ≡ t ∷ ts
placed-eq Ordering.lt s t ts rest h = cc
placed-eq Ordering.eq s t ts rest h = refl
placed-eq Ordering.gt s t ts rest h = cc

insert_sorted-same :
    (s t : String) (ts : List String) → str_eq s t ≡ true → insert_sorted s (t ∷ ts) ≡ t ∷ ts
unfolding insert_sorted
insert_sorted-same s t ts h = placed-eq (compare s t) s t ts (insert_sorted s ts) h

sorted_set-same :
    (r : String) (rs : List String) → all (str_eq r) rs ≡ true → sorted_set (r ∷ rs) ≡ r ∷ []
unfolding sorted_set insert_sorted
sorted_set-same r [] h = refl
sorted_set-same r (s ∷ rs) h =
    let same = (eq_iff r s).0 (ground arith) in
    let ih = sorted_set-same r rs (ground arith) in
    subst (λ z. insert_sorted r (insert_sorted z (sorted_set rs)) ≡ r ∷ []) same
      (ap (insert_sorted r) ih ∙ insert_sorted-same r r [] (eq_refl r))

-- Where all of a list stands in one place, all of it is the same.
all_same :
    (r x : String) (rs : List String)
    → str_eq r x ≡ true
    → ((s : String) → contains s rs ≡ true → str_eq s x ≡ true)
    → all (str_eq r) rs ≡ true
all_same r x [] h k = refl
all_same r x (s ∷ rs) h k =
    let p = (eq_iff r x).0 h in
    let q = (eq_iff s x).0 (k s (let e = eq_refl s in ground arith)) in
    let e : str_eq r s ≡ true = (eq_iff r s).1 (p ∙ sym q) in
    let ih = all_same r x rs h (λ y m. k y (ground arith)) in ground arith

sole_reason-differ :
    (r : String) (rs ss : List String)
    → all (str_eq r) rs ≡ false
    → ((s : String) → contains s (r ∷ rs) ≡ true → contains s ss ≡ true)
    → sole_reason ss ≡ "completed"
unfolding sole_reason
sole_reason-differ r rs [] h k = refl
sole_reason-differ r rs (x ∷ []) h k =
    let first = k r (let e = eq_refl r in ground arith) in
    let a = all_same r x rs (ground arith) (λ s m. let c = k s (ground arith) in ground arith) in cc
sole_reason-differ r rs (x ∷ y ∷ ss) h k = refl

-- The reason of a comparison is the one that its relations share.
pub sole_reason-shared : (rs : List String) → sole_reason (sorted_set rs) ≡ shared_reason rs
unfolding sole_reason shared_reason sorted_set
sole_reason-shared [] = refl
sole_reason-shared (r ∷ rs) = elim (Bool-cases (all (str_eq r) rs)) [
  | inl h ↦ rw (sorted_set-same r rs h, h) refl
  | inr h ↦
      rw h (sole_reason-differ r rs (sorted_set (r ∷ rs)) h (λ s. contains-sorted_set s (r ∷ rs)))
]
