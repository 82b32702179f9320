-- ===== src/Matrix/Elim.antt =====
-- `gaussian_elim` of src/matrix.rs: when it returns, the left square is the identity, and the rows
-- span what they spanned before.
use native.Mathlib.Decide.{dec_lt, ℕ_discrete}
use reed_solomon_erasure.Base.{
  ℕ, zero, suc, ◌+◌, ◌-◌, ◌<◌, ◌≤◌, ◌≡◌, ◌≢◌, inl, inr, ◌∙◌, ap, ap₂, subst, arith, Bool-cases,
  for_range, for_range_inv, ok, >>=-eq-ok, try_range, try_range_inv,
}
use reed_solomon_erasure.Field.{Field, FieldLaws}
use reed_solomon_erasure.Field.Laws.{add-zero, mul-one, mul-zero, ne_of_eq_false}
use reed_solomon_erasure.Matrix.{
  Matrix, get, swap_rows, swap_in_pivot, ensure_pivot, scale_row, clear_cell, eliminate_below,
  forward_step, backward_step, gaussian_elim,
}
use reed_solomon_erasure.Matrix.Cells.{HasShape, written_at}
use reed_solomon_erasure.Matrix.Fill.{delta}
use reed_solomon_erasure.Matrix.Rows.{
  swap_index, swap_rows_lem, scale_row-RowWritten, clear_cell-RowWritten,
}
use reed_solomon_erasure.Matrix.Span.{
  SameSpan, SameSpan-refl, SameSpan-trans, swap_rows-SameSpan, scale-SameSpan, add-SameSpan,
}

swap_index_above : (r k c : ℕ) → c < r → c < k → swap_index r k c ≡ c
unfolding swap_index
swap_index_above r k c p q = ground arith

swap_index_below : (r k c r' : ℕ) → c < r → c < k → c < r' → c < swap_index r k r'
unfolding swap_index
swap_index_below r k c r' p q h = ground arith

swap_index_rows : (r k r' rows : ℕ) → r < rows → k < rows → r' < rows → swap_index r k r' < rows
unfolding swap_index
swap_index_rows r k r' rows p q h = ground arith

-- The first `done` columns have ones on the diagonal and zeros below it; `start` is the matrix at
-- the beginning.
pub record Echelon {ℓ} {A : Type ℓ} ⦃F : Field A⦄ (rows cols : ℕ) (start : Matrix A) (done : ℕ)
    (m : Matrix A) : Type (ℓ + 1) where
  pub shape : HasShape m rows cols
  pub span : SameSpan rows cols start m
  pub diagonal : (c : ℕ) → c < done → get m c c ≡ F.one
  pub below : (r c : ℕ) → c < done → c < r → r < rows → get m r c ≡ F.zero

module _ {ℓ} {A : Type ℓ} ⦃F : Field A⦄ (L : FieldLaws F) (rows cols : ℕ) (fits : rows ≤ cols)
    (start : Matrix A) where
  swap-Echelon :
      (r k : ℕ) (m : Matrix A)
      → r < k
      → k < rows
      → Echelon rows cols start r m
      → Echelon rows cols start r (swap_rows m r k)
  swap-Echelon r k m p q e =
      let s = swap_rows_lem e.shape r k (omega arith) q in
      record {
        shape = s.0;
        span =
            SameSpan-trans rows cols start m (swap_rows m r k) e.span
              (swap_rows-SameSpan e.shape r k (omega arith) q);
        diagonal = λ c less.
            s.1 c c (omega arith)
            ∙ (ap (λ j. get m j c) (swap_index_above r k c less (omega arith)) ∙ e.diagonal c less);
        below = λ r' c less under inside.
            s.1 r' c (omega arith)
            ∙ e.below (swap_index r k r') c less
                (swap_index_below r k c r' less (omega arith) under)
                (swap_index_rows r k r' rows (omega arith) q inside);
      }

  swap_in_pivot-Echelon :
      (r lo n : ℕ) (m : Matrix A)
      → r < lo
      → lo + n ≤ rows
      → Echelon rows cols start r m
      → Echelon rows cols start r (swap_in_pivot r lo n m)
  unfolding swap_in_pivot
  swap_in_pivot-Echelon r lo zero m p q e = e
  swap_in_pivot-Echelon r lo (suc n) m p q e = elim (Bool-cases (F.eq (get m lo r) F.zero)) [
    | inl is_zero ↦ rw is_zero (swap_in_pivot-Echelon r (suc lo) n m (omega arith) (omega arith) e)
    | inr nonzero ↦ rw nonzero (swap-Echelon r lo m p (omega arith) e)
  ]

  -- Row `r` scaled to a leading one.
  scale-Echelon :
      (r : ℕ) (m : Matrix A)
      → r < rows
      → get m r r ≢ F.zero
      → Echelon rows cols start r m
      → Echelon rows cols start r (scale_row r (F.div F.one (get m r r)) m)
        × (get (scale_row r (F.div F.one (get m r r)) m) r r ≡ F.one)
  scale-Echelon r m p ne e =
      let a = F.div F.one (get m r r) in
      let w = scale_row-RowWritten e.shape r a p in
      let inverse : F.mul a (get m r r) ≡ F.one = L.div-mul F.one (get m r r) ne in
      (
        record {
          shape = w.shape;
          span =
              SameSpan-trans rows cols start m (scale_row r a m) e.span
                (scale-SameSpan L r a (get m r r) (L.mul_comm (get m r r) a ∙ inverse) w);
          diagonal = λ c less. w.kept c c (omega arith) (inl (omega arith)) ∙ e.diagonal c less;
          below = λ r' c less under inside. elim (ℕ_discrete r' r) [
            | yes same ↦
                ap (λ j. get (scale_row r a m) j c) same
                ∙ (written_at w c (omega arith)
                    ∙ (ap (F.mul a) (e.below r c less (omega arith) p) ∙ mul-zero L a))
            | no other ↦ w.kept r' c (omega arith) (inl other) ∙ e.below r' c less under inside
          ];
        },
        written_at w r (omega arith) ∙ inverse,
      )

  -- While column `r` is cleared below the diagonal, rows up to `i` are done.
  abbrev Clearing : ℕ → ℕ → Matrix A → Type (ℓ + 1)
  Clearing r i m =
      Echelon rows cols start r m
      × (get m r r ≡ F.one)
      × ((r' : ℕ) → r < r' → r' < i → get m r' r ≡ F.zero)

  clear-Clearing :
      (r i : ℕ) (m : Matrix A)
      → r < i
      → i < rows
      → Clearing r i m
      → Clearing r (suc i) (clear_cell r i m)
  clear-Clearing r i m p q h =
      let e = h.0 in
      let w = clear_cell-RowWritten e.shape L r i q (omega arith) in
      (
        record {
          shape = w.shape;
          span =
              SameSpan-trans rows cols start m (clear_cell r i m) e.span
                (add-SameSpan L r i (get m i r) (omega arith) (omega arith) w);
          diagonal = λ c less. w.kept c c (omega arith) (inl (omega arith)) ∙ e.diagonal c less;
          below = λ r' c less under inside. elim (ℕ_discrete r' i) [
            | yes same ↦
                ap (λ j. get (clear_cell r i m) j c) same
                ∙ (written_at w c (omega arith)
                    ∙ (ap₂ (λ x y. F.add x (F.mul (get m i r) y)) (e.below i c less (omega arith) q)
                          (e.below r c less less (omega arith))
                        ∙ (L.zero-add _ ∙ mul-zero L (get m i r))))
            | no other ↦ w.kept r' c (omega arith) (inl other) ∙ e.below r' c less under inside
          ];
        },
        w.kept r r (omega arith) (inl (omega arith)) ∙ h.1,
        λ r' above less. elim (ℕ_discrete r' i) [
          | yes same ↦
              ap (λ j. get (clear_cell r i m) j r) same
              ∙ (written_at w r (omega arith)
                  ∙ (ap (λ t. F.add (get m i r) (F.mul (get m i r) t)) h.1
                      ∙ (ap (F.add (get m i r)) (mul-one L (get m i r)) ∙ L.add_self (get m i r))))
          | no other ↦ w.kept r' r (omega arith) (inl other) ∙ h.2 r' above (omega arith)
        ],
      )

  eliminate_below-Echelon :
      (r : ℕ) (m : Matrix A)
      → r < rows
      → get m r r ≢ F.zero
      → Echelon rows cols start r m
      → Echelon rows cols start (suc r) (eliminate_below r m)
  unfolding eliminate_below
  eliminate_below-Echelon r m p ne e = elim (Bool-cases (F.eq (get m r r) F.one)) [
    | inl is_one ↦ rw is_one (clear m e ((L.eq_iff _ _).0 is_one))
    | inr other ↦
        let s = scale-Echelon r m p ne e in
        rw other (clear (scale_row r (F.div F.one (get m r r)) m) s.0 s.1)
  ]
    where
      clear :
          (m : Matrix A)
          → Echelon rows cols start r m
          → get m r r ≡ F.one
          → Echelon rows cols start
              (suc r)
              (for_range (r + 1) m.row_count (λ r_below m. clear_cell r r_below m) m)
      clear m e one =
          let all =
            for_range_inv (Clearing r) (r + 1) rows (λ r_below m. clear_cell r r_below m)
              (omega arith) (λ i m a b h. clear-Clearing r i m (omega arith) b h) m
              (e, one, λ r' a b. absurd (omega arith)) in
          simp (e.shape.row_count) (record {
            shape = all.0.shape;
            span = all.0.span;
            diagonal = λ c less. elim (ℕ_discrete c r) [
              | yes same ↦ rw same all.1
              | no n ↦ all.0.diagonal c (omega arith)
            ];
            below = λ r' c less under inside. elim (ℕ_discrete c r) [
              | yes same ↦ rw same (all.2 r' (omega arith) inside)
              | no n ↦ all.0.below r' c (omega arith) under inside
            ];
          })

  ensure_pivot-Echelon :
      (r : ℕ) (m : Matrix A)
      → r < rows
      → Echelon rows cols start r m
      → Echelon rows cols start r (ensure_pivot r m)
  unfolding ensure_pivot
  ensure_pivot-Echelon r m p e = elim (Bool-cases (F.eq (get m r r) F.zero)) [
    | inl is_zero ↦ rw is_zero (
        swap_in_pivot-Echelon r (r + 1) (m.row_count - (r + 1)) m (omega arith)
          (omega (arith, e.shape.row_count)) e)
    | inr nonzero ↦ rw nonzero e
  ]

  pub forward_step-Echelon :
      (r : ℕ) (m m' : Matrix A)
      → r < rows
      → forward_step r m ≡ ok m'
      → Echelon rows cols start r m
      → Echelon rows cols start (suc r) m'
  unfolding forward_step
  forward_step-Echelon r m m' p h e = elim (Bool-cases (F.eq (get (ensure_pivot r m) r r) F.zero)) [
    | inl is_zero ↦ absurd (let h' = rw is_zero at h in (cc))
    | inr nonzero ↦
        let h' = rw nonzero at h in
        let same : eliminate_below r (ensure_pivot r m) ≡ m' = (cc) in
        subst (Echelon rows cols start (suc r)) same (
          eliminate_below-Echelon r (ensure_pivot r m) p (ne_of_eq_false L _ _ nonzero)
            (ensure_pivot-Echelon r m p e))
  ]

  -- Columns before `done` are those of the identity.
  abbrev Reduced : ℕ → Matrix A → Type (ℓ + 1)
  Reduced done m =
      Echelon rows cols start rows m × ((r c : ℕ) → c < done → r < c → get m r c ≡ F.zero)

  -- While column `d` is cleared above the diagonal, rows before `i` are done.
  abbrev ClearingAbove : ℕ → ℕ → Matrix A → Type (ℓ + 1)
  ClearingAbove d i m =
      Echelon rows cols start rows m
      × ((r c : ℕ) → c < d → r < c → get m r c ≡ F.zero)
      × ((r : ℕ) → r < i → get m r d ≡ F.zero)

  clear-ClearingAbove :
      (d i : ℕ) (m : Matrix A)
      → i < d
      → d < rows
      → ClearingAbove d i m
      → ClearingAbove d (suc i) (clear_cell d i m)
  clear-ClearingAbove d i m p q h =
      let e = h.0 in
      let w = clear_cell-RowWritten e.shape L d i (omega arith) (omega arith) in
      let early : (c : ℕ) → c < d → get (clear_cell d i m) i c ≡ get m i c = λ c less.
        written_at w c (omega arith)
        ∙ (ap (λ t. F.add (get m i c) (F.mul (get m i d) t)) (e.below d c (omega arith) less q)
            ∙ (ap (F.add (get m i c)) (mul-zero L (get m i d)) ∙ add-zero L (get m i c))) in
      (
        record {
          shape = w.shape;
          span =
              SameSpan-trans rows cols start m (clear_cell d i m) e.span
                (add-SameSpan L d i (get m i d) q (omega arith) w);
          diagonal = λ c less. elim (ℕ_discrete c i) [
            | yes same ↦ rw same (early i p ∙ e.diagonal i (omega arith))
            | no other ↦ w.kept c c (omega arith) (inl other) ∙ e.diagonal c less
          ];
          below = λ r c less under inside. elim (ℕ_discrete r i) [
            | yes same ↦
                ap (λ j. get (clear_cell d i m) j c) same
                ∙ (early c (omega arith) ∙ e.below i c less (omega arith) (omega arith))
            | no other ↦ w.kept r c (omega arith) (inl other) ∙ e.below r c less under inside
          ];
        },
        λ r c less above. elim (ℕ_discrete r i) [
          | yes same ↦
              ap (λ j. get (clear_cell d i m) j c) same
              ∙ (early c less ∙ h.1 i c less (omega arith))
          | no other ↦ w.kept r c (omega arith) (inl other) ∙ h.1 r c less above
        ],
        λ r less. elim (ℕ_discrete r i) [
          | yes same ↦
              ap (λ j. get (clear_cell d i m) j d) same
              ∙ (written_at w d (omega arith)
                  ∙ (ap (λ t. F.add (get m i d) (F.mul (get m i d) t)) (e.diagonal d q)
                      ∙ (ap (F.add (get m i d)) (mul-one L (get m i d)) ∙ L.add_self (get m i d))))
          | no other ↦ w.kept r d (omega arith) (inl other) ∙ h.2 r (omega arith)
        ],
      )

  backward_step-Reduced :
      (d : ℕ) (m : Matrix A) → d < rows → Reduced d m → Reduced (suc d) (backward_step d m)
  unfolding backward_step
  backward_step-Reduced d m q h =
      let all =
        for_range_inv (ClearingAbove d) 0 d (λ r_above m. clear_cell d r_above m) (omega arith)
          (λ i m a b g. clear-ClearingAbove d i m b q g) m
          (h.0, h.1, λ r less. absurd (omega arith)) in
      (
        all.0,
        λ r c less above. elim (ℕ_discrete c d) [
          | yes same ↦ rw same (all.2 r (omega arith))
          | no n ↦ all.1 r c (omega arith) above
        ],
      )

module _ {ℓ} {A : Type ℓ} ⦃F : Field A⦄ (L : FieldLaws F) {m m' : Matrix A} {rows cols : ℕ} where
  -- Elimination of a matrix with no more rows than columns, when it succeeds, keeps the size, leaves
  -- the identity in the first columns, and leaves rows that lie in the same subspaces as before.
  pub gaussian_elim_lem :
      HasShape m rows cols
      → rows ≤ cols
      → gaussian_elim m ≡ ok m'
      → HasShape m' rows cols
        × SameSpan rows cols m m'
        × ((r c : ℕ) → r < rows → c < rows → get m' r c ≡ delta r c)
  unfolding gaussian_elim delta
  gaussian_elim_lem s fits h =
      let (m1, h1, h2) =
        >>=-eq-ok (try_range 0 m.row_count forward_step m)
          (λ m'. ok (for_range 0 m'.row_count backward_step m')) h in
      let same : for_range 0 m1.row_count backward_step m1 ≡ m' = (cc) in
      let forward =
        try_range_inv (Echelon rows cols m) 0 rows forward_step (omega arith)
          (λ i a b p q e g. forward_step-Echelon L rows cols fits m i a b q e g) m m1
          (record {
            shape = s;
            span = SameSpan-refl rows cols m;
            diagonal = λ c p. absurd (omega arith);
            below = λ r c p. absurd (omega arith);
          })
          (simp (s.row_count) at h1) in
      let backward =
        for_range_inv (Reduced L rows cols fits m) 0 rows backward_step (omega arith)
          (λ i a p q g. backward_step-Reduced L rows cols fits m i a q g) m1
          (forward, λ r c p. absurd (omega arith)) in
      let back =
        subst (Reduced L rows cols fits m rows) ((simp (forward.shape.row_count) at same))
          backward in
      (
        back.0.shape,
        back.0.span,
        λ r c p q. elim (ℕ_discrete r c) [
          | yes e ↦ rw e (back.0.diagonal c q ∙ ground arith)
          | no n ↦ elim (dec_lt r c) [
            | yes above ↦ back.1 r c q above ∙ ground arith
            | no under ↦ back.0.below r c q (omega arith) p ∙ ground arith
          ]
        ],
      )
