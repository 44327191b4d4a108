-- ===== src/Representations/Selection.antt =====
-- What `_candidate_masks` of src/qste/representations/stft.py selects.
use Prim.Native.Nat.{Ordering}
use qste.Representations.Cells.{
  insert_cell, Shape, sorted_cells, Cell, cell_order, validate_cells, is_inside,
}
use qste.Representations.Refinement.{Mask, mask_eq}
use qste.Base.{
  List, ◌≡◌, ◌∷◌, any, All, false, arith, All-map, [], true, ◌≢◌, ok, refl, ap, ℕ, Result, Ensures,
  ◌>>◌, if_elim, Result-cases, ◌>>=◌, inl, Ensures-then, inr, raise_if, Ensures-bind, invalid_input,
  some, subst, length, ◌≤◌, ltb, capability_unavailable, Ensures-raise_if,
}
use qste.Representations.Candidates.{
  has_duplicates, all_masks, selected_masks, explicit_masks, lexicographic_masks, has_rule, is_nil,
  items_in, read_cells, candidate_masks,
}
use qste.Representations.Masks.{IsAscending}
use qste.Representations.Controls.{All-insert_cell, All-of_all}
use qste.Representations.Closure.{sorted_cells-valid}
use qste.Core.Json.{Items, Fields, item, get_field, nil}
use qste.Representations.Singles.{IsSingle, all_masks-IsSingle}

cell_order_trans :
    (a b c : Cell)
    → cell_order a b ≡ Ordering.lt
    → cell_order b c ≡ Ordering.lt
    → cell_order a c ≡ Ordering.lt
cell_order_trans a b c h k = ground arith

cell_order_flip : (a b : Cell) → cell_order a b ≡ Ordering.gt → cell_order b a ≡ Ordering.lt
cell_order_flip a b h = ground arith

insert_cell-IsAscending : (c : Cell) (ds : Mask) → IsAscending ds → IsAscending (insert_cell c ds)
unfolding insert_cell
insert_cell-IsAscending c [] h = (tt, tt)
insert_cell-IsAscending c (d ∷ ds) h = go (insert_cell-IsAscending c ds h.1) (cell_order c d) refl
  where
    go :
        IsAscending (insert_cell c ds)
        → (o : Ordering) → cell_order c d ≡ o
        → IsAscending (elim o [
          | Ordering.lt ↦ c ∷ d ∷ ds
          | Ordering.eq ↦ d ∷ ds
          | Ordering.gt ↦ d ∷ insert_cell c ds
        ])
    go k Ordering.lt e = (
      (
        e,
        All-map (λ x. cell_order d x ≡ Ordering.lt) (λ x. cell_order c x ≡ Ordering.lt) ds
            (λ x l. cell_order_trans c d x e l) h.0,
      ),
      h,
    )
    go k Ordering.eq e = h
    go k Ordering.gt e =
        (All-insert_cell (λ x. cell_order d x ≡ Ordering.lt) c ds (cell_order_flip c d e) h.0, k)

sorted_cells-ascend : (cs : Mask) → IsAscending (sorted_cells cs)
unfolding sorted_cells
sorted_cells-ascend [] = tt
sorted_cells-ascend (c ∷ cs) = insert_cell-IsAscending c (sorted_cells cs) (sorted_cells-ascend cs)

-- A mask as a candidate record needs it.
abbrev pub IsCandidate : Shape → Mask → Type 0
IsCandidate s m = IsAscending m × (validate_cells m s ≡ ok tt)

-- No mask stands in the list twice.
abbrev pub IsDistinct : List Mask → Type 0
IsDistinct [] = Unit
IsDistinct (m ∷ ms) = All (λ n. m ≢ n) ms × IsDistinct ms

-- The masks of a selection: candidates, all different, and within the capacity.
abbrev pub IsSelection : Shape → ℕ → List Mask → Type 0
IsSelection s maximum ms = All (IsCandidate s) ms × IsDistinct ms × (length ms ≤ maximum)

mask_eq_refl : (m : Mask) → mask_eq m m ≡ true
unfolding mask_eq
mask_eq_refl [] = refl
mask_eq_refl (c ∷ cs) = ground (arith, mask_eq_refl cs)

differ : (m : Mask) (ms : List Mask) → any (mask_eq m) ms ≡ false → All (λ n. m ≢ n) ms
differ m [] h = tt
differ m (n ∷ ms) h = ((λ e. same e (ground arith)), differ m ms (ground arith))
  where
    same : m ≡ n → mask_eq m n ≡ false → ⊥
    same e k = cc (ap (mask_eq m) e, mask_eq_refl m)

has_duplicates-IsDistinct : (ms : List Mask) → has_duplicates ms ≡ false → IsDistinct ms
unfolding has_duplicates
has_duplicates-IsDistinct [] h = tt
has_duplicates-IsDistinct (m ∷ ms) h =
    (differ m ms (ground arith), has_duplicates-IsDistinct ms (ground arith))

IsSingle-IsCandidate : (s : Shape) (m : Mask) → IsSingle s m → IsCandidate s m
unfolding validate_cells
IsSingle-IsCandidate s m (c, e, h) = rw e ((tt, tt), rw h refl)

sorted_cells-kept :
    (s : Shape) (cells : Mask)
    → validate_cells cells s ≡ ok tt
    → validate_cells (sorted_cells cells) s ≡ ok tt
unfolding validate_cells
sorted_cells-kept s [] h = cc
sorted_cells-kept s (c ∷ cs) h =
    sorted_cells-valid s (c ∷ cs) (omega arith) (All-of_all (is_inside s) (c ∷ cs) (ground arith))

explicit_step :
    (s : Shape) (cells : Mask) (rest : Result (List Mask))
    → Ensures (All (IsCandidate s)) rest
    → Ensures
        (All (IsCandidate s))
        (validate_cells cells s >> (rest >>= (λ masks. ok (sorted_cells cells ∷ masks))))
explicit_step s cells rest h = elim (Result-cases (validate_cells cells s)) [
  | inl (u, e) ↦ rw e (
      Ensures-bind (All (IsCandidate s)) (All (IsCandidate s)) rest
        (λ masks. ok (sorted_cells cells ∷ masks)) h
        (λ masks k. ((sorted_cells-ascend cells, sorted_cells-kept s cells e), k)))
  | inr (c, e) ↦ rw e tt
]

module _ {F : Type 0} (s : Shape) where
  explicit_masks-IsCandidate :
      (raw : Items F) → Ensures (All (IsCandidate s)) (explicit_masks s raw)
  unfolding explicit_masks
  explicit_masks-IsCandidate nil = tt
  explicit_masks-IsCandidate (item raw rest) =
      Ensures-then (All (IsCandidate s)) (raise_if (is_nil (items_in (some raw))) invalid_input)
        (λ _. read_cells (items_in (some raw)) >>= (λ cells.
          validate_cells cells s
          >> (explicit_masks s rest >>= (λ masks. ok (sorted_cells cells ∷ masks)))))
        (λ _.
          Ensures-then (All (IsCandidate s)) (read_cells (items_in (some raw)))
            (λ cells.
              validate_cells cells s
              >> (explicit_masks s rest >>= (λ masks. ok (sorted_cells cells ∷ masks))))
            (λ cells.
              explicit_step s cells (explicit_masks s rest) (explicit_masks-IsCandidate rest)))

  lexicographic_masks-IsCandidate :
      (maximum : ℕ) (rule : Fields F)
      → Ensures (All (IsCandidate s)) (lexicographic_masks s maximum rule)
  unfolding lexicographic_masks
  lexicographic_masks-IsCandidate maximum rule =
      elim (Result-cases (lexicographic_masks s maximum rule)) [
        | inl (ms, e) ↦ rw e (
            subst (All (IsCandidate s)) (same ms e) (
              All-map (IsSingle s) (IsCandidate s) (all_masks s) (IsSingle-IsCandidate s)
                (all_masks-IsSingle s)))
        | inr (c, e) ↦ rw e tt
      ]
    where
      same : (ms : List Mask) → lexicographic_masks s maximum rule ≡ ok ms → all_masks s ≡ ms
      same ms e = ground arith

  selected_masks-IsCandidate :
      (maximum : ℕ) (rule : Fields F)
      → Ensures (All (IsCandidate s)) (selected_masks s maximum rule)
  unfolding selected_masks
  selected_masks-IsCandidate maximum rule =
      if_elim (λ m. Ensures (All (IsCandidate s)) m)
        (has_rule (get_field "rule_id" rule) "explicit_masks/0.1")
        (Ensures-then (All (IsCandidate s))
          (raise_if (is_nil (items_in (get_field "masks" rule))) invalid_input)
          (λ _. explicit_masks s (items_in (get_field "masks" rule)))
          (λ _. explicit_masks-IsCandidate (items_in (get_field "masks" rule))))
        (if_elim (λ m. Ensures (All (IsCandidate s)) m)
          (has_rule (get_field "rule_id" rule) "all_cells_lexicographic/0.1")
          (lexicographic_masks-IsCandidate maximum rule) tt)

  -- Whatever the candidate rule, each mask that _candidate_masks returns has ascending cells that
  -- _validate_cells accepts, no mask is returned twice, and there are no more than the capacity.
  pub candidate_masks-IsSelection :
      (maximum : ℕ) (rule : Fields F)
      → Ensures (IsSelection s maximum) (candidate_masks s maximum rule)
  unfolding candidate_masks
  candidate_masks-IsSelection maximum rule =
      Ensures-bind (All (IsCandidate s)) (IsSelection s maximum) (selected_masks s maximum rule)
        (λ masks.
          raise_if (ltb maximum (length masks)) capability_unavailable
          >> (raise_if (has_duplicates masks) invalid_input >> ok masks))
        (selected_masks-IsCandidate maximum rule)
        (λ masks h.
          Ensures-raise_if (IsSelection s maximum) (ltb maximum (length masks))
            capability_unavailable (raise_if (has_duplicates masks) invalid_input >> ok masks)
            (λ a.
              Ensures-raise_if (IsSelection s maximum) (has_duplicates masks) invalid_input
                (ok masks) (λ b. (h, has_duplicates-IsDistinct masks b, ground arith))))
