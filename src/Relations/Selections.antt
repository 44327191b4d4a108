-- ===== src/Relations/Selections.antt =====
-- What selecting and sorting edges and solutions keeps, for the matcher of
-- src/qste/relations/service.py.
use Prim.Native.Nat.{◌/◌}
use qste.Base.{
  ℕ, Bool, List, all, ◌≡◌, All, true, ◌∷◌, eq_refl, Bool-cases, arith, [], select, refl, inl, inr,
  any, false, length, All-map, ◌∙◌, sym, subst, ◌⊎◌,
}
use qste.Relations.Sorting.{Edge, sorted_solutions, insert_solution, less}
use qste.Relations.Matching.{
  insert_edge_sorted, solution_eq, chosen, sorted_edges, extreme, has_length,
}
use qste.Relations.Decomposition.{edge_eq, in_edges}

all-insert_edge :
    (p : Edge → Bool) (e : Edge) (es : List Edge)
    → p e ≡ true
    → all p es ≡ true
    → all p (insert_edge_sorted e es) ≡ true
unfolding insert_edge_sorted
all-insert_edge p e [] h k = ground arith
all-insert_edge p e (f ∷ fs) h k = let ih = all-insert_edge p e fs h in ground arith

pub all-sorted_edges :
    (p : Edge → Bool) (es : List Edge) → all p es ≡ true → all p (sorted_edges es) ≡ true
unfolding sorted_edges
all-sorted_edges p [] h = h
all-sorted_edges p (e ∷ es) h =
    let ih = all-sorted_edges p es in
    all-insert_edge p e (sorted_edges es) (ground arith) (ground arith)

pub all-chosen :
    (p : Edge → Bool) (es : List Edge) (mask : ℕ) → all p es ≡ true → all p (chosen es mask) ≡ true
unfolding chosen
all-chosen p [] mask h = h
all-chosen p (e ∷ es) mask h = let ih = all-chosen p es (mask / 2) in ground arith

edge_eq_refl : (e : Edge) → edge_eq e e ≡ true
edge_eq_refl e = let a = eq_refl e.0 in let b = eq_refl e.1 in ground arith

all-weaken :
    (p q : Edge → Bool) (es : List Edge)
    → ((e : Edge) → p e ≡ true → q e ≡ true)
    → all p es ≡ true
    → all q es ≡ true
all-weaken p q [] f h = refl
all-weaken p q (e ∷ es) f h = let a = f e in let ih = all-weaken p q es f in ground arith

pub all-in_edges : (es : List Edge) → all (λ e. in_edges e es) es ≡ true
all-in_edges [] = refl
all-in_edges (f ∷ fs) =
    let r = edge_eq_refl f in
    let ih =
      all-weaken (λ e. in_edges e fs) (λ e. in_edges e (f ∷ fs)) fs (λ e h. ground arith)
        (all-in_edges fs) in
    ground arith

pub solution_eq_refl : (s : List Edge) → solution_eq s s ≡ true
unfolding solution_eq
solution_eq_refl [] = refl
solution_eq_refl (e ∷ es) = let a = edge_eq_refl e in let ih = solution_eq_refl es in ground arith

module _ {ℓ} {A : Type ℓ} where
  pub All-select :
      (P : A → Type 0) (p : A → Bool) (xs : List A)
      → All P xs
      → All (λ x. P x × (p x ≡ true)) (select p xs)
  All-select P p [] h = tt
  All-select P p (x ∷ xs) h = elim (Bool-cases (p x)) [
    | inl e ↦ rw e ((h.0, e), All-select P p xs h.1)
    | inr e ↦ rw e (All-select P p xs h.1)
  ]

All-insert_solution :
    (P : List Edge → Type 0) (s : List Edge) (ss : List (List Edge))
    → P s
    → All P ss
    → All P (insert_solution s ss)
unfolding insert_solution
All-insert_solution P s [] h k = (h, tt)
All-insert_solution P s (t ∷ ts) h k = elim (Bool-cases (less t s)) [
  | inl e ↦ rw e (k.0, All-insert_solution P s ts h k.1)
  | inr e ↦ rw e (h, k)
]

pub All-sorted_solutions :
    (P : List Edge → Type 0) (ss : List (List Edge)) → All P ss → All P (sorted_solutions ss)
unfolding sorted_solutions
All-sorted_solutions P [] h = tt
All-sorted_solutions P (s ∷ ss) h =
    All-insert_solution P s (sorted_solutions ss) h.0 (All-sorted_solutions P ss h.1)

pub extreme-same :
    (fewer : Bool) (n : ℕ) (ss : List (List Edge))
    → All (λ s. length s ≡ n) ss
    → extreme fewer n ss ≡ n
unfolding extreme
extreme-same fewer n [] h = refl
extreme-same fewer n (s ∷ ss) h =
    let ih =
      extreme-same fewer (length s) ss
        (All-map (λ t. length t ≡ n) (λ t. length t ≡ length s) ss (λ t e. e ∙ sym h.0) h.1) in
    ground arith

extreme-cons :
    (fewer : Bool) (s t : List Edge) (ts : List (List Edge))
    → (extreme fewer (length s) (t ∷ ts) ≡ length s)
      ⊎ (extreme fewer (length s) (t ∷ ts) ≡ extreme fewer (length t) ts)
unfolding extreme
extreme-cons fewer s t ts = ground arith

-- The least or greatest length is the length of one of the solutions.
pub extreme-attained :
    (fewer : Bool) (s : List Edge) (ss : List (List Edge))
    → any (has_length (extreme fewer (length s) ss)) (s ∷ ss) ≡ true
unfolding extreme
extreme-attained fewer s [] = ground arith
extreme-attained fewer s (t ∷ ts) =
    let ih = extreme-attained fewer t ts in
    elim (extreme-cons fewer s t ts) [
      | inl e ↦ subst (λ n. any (has_length n) (s ∷ t ∷ ts) ≡ true) (sym e) (ground arith)
      | inr e ↦ subst (λ n. any (has_length n) (s ∷ t ∷ ts) ≡ true) (sym e) (ground arith)
    ]

abbrev pub is_inhabited {ℓ} : {A : Type ℓ} → List A → Bool
is_inhabited [] = false
is_inhabited (_ ∷ _) = true

pub select-inhabited {ℓ} :
    {A : Type ℓ} (p : A → Bool) (xs : List A) → any p xs ≡ true → is_inhabited (select p xs) ≡ true
select-inhabited p [] h = h
select-inhabited p (x ∷ xs) h = let ih = select-inhabited p xs in ground arith

insert_solution-inhabited :
    (s : List Edge) (ss : List (List Edge)) → is_inhabited (insert_solution s ss) ≡ true
unfolding insert_solution
insert_solution-inhabited s [] = refl
insert_solution-inhabited s (t ∷ ts) = ground arith

pub sorted_solutions-inhabited :
    (ss : List (List Edge)) → is_inhabited ss ≡ true → is_inhabited (sorted_solutions ss) ≡ true
unfolding sorted_solutions
sorted_solutions-inhabited [] h = h
sorted_solutions-inhabited (s ∷ ss) h = insert_solution-inhabited s (sorted_solutions ss)
