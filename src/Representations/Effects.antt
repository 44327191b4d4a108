-- ===== src/Representations/Effects.antt =====
-- What `_apply_intervention` of src/qste/representations/stft.py changes, for each control and mode.
use qste.Base.{
  Answers-map, ap, Bool, List, [], ◌∷◌, ◌≡◌, refl, if◌then◌else◌, ok, All, all, Answers, true,
  false, Bool-cases, inl, inr, arith,
}
use qste.Representations.Cells.{
  Cell, Shape, cell_eq, in_cells, sorted_cells, is_inside, validate_cells,
}
use qste.Representations.Intervention.{
  Complexes, Control, Mode, apply_intervention, min_frame, max_frame, signed_offset, shifted,
  Values, resynthesis_only, halve_all, modified_by, assign_all, replaced, assign, authentic,
  alternate, off_target, mask, other, isolate, phase_coherent_replace, applied_cells, intervened,
}
use qste.Representations.Controls.{cell_eq_sound, All-sorted_cells, IsControl, off_target-IsControl}

abbrev pub is_known : Mode → Bool
is_known other = false
is_known _ = true

abbrev pub is_supported : Control → Mode → Bool
is_supported resynthesis_only mode = true
is_supported alternate mode = true
is_supported authentic mode = is_known mode
is_supported off_target mode = is_known mode

module _ (N : Complexes) where
  assign_all_lem :
      (value : Cell → N.Complex) (cells : List Cell) (values : Values N) (x : Cell)
      → assign_all N value cells values x ≡ (if in_cells x cells then value x else values x)
  unfolding assign_all
  assign_all_lem value [] values x = refl
  assign_all_lem value (c ∷ cs) values x =
      let ih = assign_all_lem value cs (assign N values c (value c)) x in
      elim (Bool-cases (cell_eq x c)) [
        | inl e ↦ let same = cell_eq_sound x c e in ground (arith, ap value same)
        | inr e ↦ ground arith
      ]

  -- A coefficient halved once for each time that its cell stands in the list.
  abbrev pub halved_times : Cell → List Cell → N.Complex → N.Complex
  halved_times x [] v = v
  halved_times x (c ∷ cs) v = halved_times x cs (if cell_eq x c then N.halved v else v)

  halve_all_lem :
      (cells : List Cell) (values : Values N) (x : Cell)
      → halve_all N cells values x ≡ halved_times x cells (values x)
  unfolding halve_all
  halve_all_lem [] values x = refl
  halve_all_lem (c ∷ cs) values x =
      let ih = halve_all_lem cs (assign N values c (N.halved (values c))) x in
      elim (Bool-cases (cell_eq x c)) [
        | inl e ↦ let same = ap values (cell_eq_sound x c e) in ground arith
        | inr e ↦ ground arith
      ]

  -- The coefficient of a cell after a mode is applied to some cells, from the one before.
  abbrev pub expected : Mode → Shape → Values N → List Cell → Cell → N.Complex
  expected mask shape values cells x = if in_cells x cells then N.zero_coefficient else values x
  expected isolate shape values cells x = if in_cells x cells then values x else N.zero_coefficient
  expected phase_coherent_replace shape values cells x =
      if in_cells x cells then replaced N shape.frames values x else values x
  expected other shape values cells x = values x

  -- What a control may have done to the coefficients, and to which cells.
  unfoldable pub Intervened :
      Control → Mode → Shape → Values N → List Cell → Values N × List Cell → Type 0
  Intervened resynthesis_only mode shape values cells (modified, applied) =
      (applied ≡ []) × ((x : Cell) → modified x ≡ values x)
  Intervened alternate mode shape values cells (modified, applied) =
      (applied ≡ cells) × ((x : Cell) → modified x ≡ halved_times x cells (values x))
  Intervened authentic mode shape values cells (modified, applied) =
      (applied ≡ cells) × ((x : Cell) → modified x ≡ expected mode shape values cells x)
  Intervened off_target mode shape values cells (modified, applied) =
      All (IsControl shape cells) applied
      × ((x : Cell) → modified x ≡ expected mode shape values applied x)

  modified_by_lem :
      (mode : Mode) (shape : Shape) (values : Values N) (cells : List Cell)
      → Answers
          (λ modified. (x : Cell) → modified x ≡ expected mode shape values cells x)
          (is_supported authentic mode)
          (modified_by N mode shape values cells)
  unfolding modified_by
  modified_by_lem mask shape values cells =
      (refl, assign_all_lem (λ _. N.zero_coefficient) cells values)
  modified_by_lem isolate shape values cells =
      (refl, assign_all_lem values cells (λ _. N.zero_coefficient))
  modified_by_lem phase_coherent_replace shape values cells =
      (refl, assign_all_lem (replaced N shape.frames values) cells values)
  modified_by_lem other shape values cells = refl

  module _ (shape : Shape) (values : Values N) where
    apply_authentic :
        (mode : Mode) (cells : List Cell)
        → Answers
            (Intervened authentic mode shape values cells)
            (is_supported authentic mode)
            (apply_intervention N authentic mode shape values cells)
    unfolding apply_intervention applied_cells intervened Intervened
    apply_authentic mode cells =
        Answers-map (λ modified. (x : Cell) → modified x ≡ expected mode shape values cells x)
          (Intervened authentic mode shape values cells) (is_supported authentic mode)
          (modified_by N mode shape values cells) (λ modified. (modified, cells))
          (modified_by_lem mode shape values cells) λ modified h. (refl, h)

    apply_off_target :
        (mode : Mode) (c : Cell) (cs : List Cell)
        → all (is_inside shape) (c ∷ cs) ≡ true
        → Answers
            (Intervened off_target mode shape values (c ∷ cs))
            (is_supported authentic mode)
            (apply_intervention N off_target mode shape values (c ∷ cs))
    unfolding apply_intervention applied_cells intervened Intervened
    apply_off_target mode c cs i =
        let moved =
          shifted (signed_offset (max_frame c cs) (min_frame c cs) shape.frames) (c ∷ cs) in
        let applied = sorted_cells moved in
        let apart : All (IsControl shape (c ∷ cs)) applied =
          All-sorted_cells (IsControl shape (c ∷ cs)) moved (off_target-IsControl shape c cs i) in
        Answers-map (λ modified. (x : Cell) → modified x ≡ expected mode shape values applied x)
          (Intervened off_target mode shape values (c ∷ cs)) (is_supported authentic mode)
          (modified_by N mode shape values applied) (λ modified. (modified, applied))
          (modified_by_lem mode shape values applied) λ modified h. (apart, h)

    -- On cells that pass `_validate_cells`, `_apply_intervention` returns exactly when the control
    -- needs no mode or the mode is known. The resynthesis-only control changes no coefficient and
    -- applies to no cell. The alternate control halves the coefficients of the cells and changes no other.
    -- The authentic one applies to the cells, and each coefficient is the one that the mode asks for:
    -- zero in a mask, zero outside an isolated one, the replacement, or the one before. The off-target
    -- control does the same on cells of the shape none of which is a cell of the candidate.
    pub apply_intervention_lem :
        (control : Control) (mode : Mode) (cells : List Cell)
        → validate_cells cells shape ≡ ok tt
        → Answers
            (Intervened control mode shape values cells)
            (is_supported control mode)
            (apply_intervention N control mode shape values cells)
    unfolding apply_intervention applied_cells intervened Intervened validate_cells
    apply_intervention_lem resynthesis_only mode cells v = (refl, (refl, λ x. refl))
    apply_intervention_lem alternate mode cells v =
        (refl, (refl, λ x. halve_all_lem cells values x))
    apply_intervention_lem authentic mode cells v = apply_authentic mode cells
    apply_intervention_lem off_target mode [] v = cc
    apply_intervention_lem off_target mode (c ∷ cs) v = apply_off_target mode c cs (ground arith)
