-- ===== src/Matrix/Fill.antt =====
-- The loops of src/matrix.rs that fill a new matrix row by row: `augment`, `sub_matrix`,
-- `multiply`, `vandermonde` and `identity`, cell by cell.
use native.Mathlib.Decide.{dec_lt, ℕ_discrete}
use native.Mathlib.Nat.{zero-add}
use reed_solomon_erasure.Base.{
  ℕ, suc, ◌+◌, ◌-◌, ◌<◌, ◌≤◌, ◌≡◌, ◌⊎◌, inl, inr, refl, sym, ◌∙◌, ap, subst, arith, ◌&&◌, ◌==◌,
  ==_refl, ltb, lt→ltb, le→ltb, if◌then◌else◌, for_range, for_range_inv, ok,
}
use reed_solomon_erasure.Field.{Field, nth}
use reed_solomon_erasure.Field.Sum.{sum}
use reed_solomon_erasure.Matrix.{
  Matrix, get, set, new, identity, augment_row, augment, sub_matrix, dot, multiply, vandermonde,
}
use reed_solomon_erasure.Matrix.Cells.{
  HasShape, RowWritten, new-HasShape, get-new, set-HasShape, get-set_self, get-set_other, write_row,
  written_at, write_row_from,
}

-- Every cell of `m` has its value.
pub record IsFilled {ℓ} {A : Type ℓ} ⦃F : Field A⦄ (rows cols : ℕ) (value : ℕ → ℕ → A)
    (m : Matrix A) : Type ℓ where
  pub shape : HasShape m rows cols
  pub cell : (r c : ℕ) → r < rows → c < cols → get m r c ≡ value r c

module _ {ℓ} {A : Type ℓ} ⦃F : Field A⦄ where
  RowWritten-append :
      {m0 m1 m2 : Matrix A} {rows cols r : ℕ} (a b : ℕ) (value : ℕ → A)
      → a + b ≤ cols
      → RowWritten m0 rows cols r 0 a value m1
      → RowWritten m1 rows cols r a b (λ c. value (a + c)) m2
      → RowWritten m0 rows cols r 0 (a + b) value m2
  RowWritten-append {m0} {m2} {r} a b value fits v w = record {
    shape = w.shape;
    written = λ c p. rw (zero-add c) (elim (dec_lt c a) [
      | yes q ↦ w.kept r c (omega arith) (inr (inl q)) ∙ written_at v c q
      | no q ↦
          let e : a + (c - a) ≡ c = omega arith in
          subst (λ k. get m2 r k ≡ value k) e (w.written (c - a) (omega arith))
    ]);
    kept = λ r' c' p ne. w.kept r' c' p (later r' c' ne) ∙ v.kept r' c' p (earlier r' c' ne);
  }
    where
      later :
          (r' c' : ℕ)
          → (¬ (r' ≡ r)) ⊎ ((c' < 0) ⊎ (0 + (a + b) ≤ c'))
          → (¬ (r' ≡ r)) ⊎ ((c' < a) ⊎ (a + b ≤ c'))
      later r' c' (inl h) = inl h
      later r' c' (inr (inl h)) = absurd (omega arith)
      later r' c' (inr (inr h)) = inr (inr (omega arith))

      earlier :
          (r' c' : ℕ)
          → (¬ (r' ≡ r)) ⊎ ((c' < 0) ⊎ (0 + (a + b) ≤ c'))
          → (¬ (r' ≡ r)) ⊎ ((c' < 0) ⊎ (0 + a ≤ c'))
      earlier r' c' (inl h) = inl h
      earlier r' c' (inr (inl h)) = absurd (omega arith)
      earlier r' c' (inr (inr h)) = inr (inr (omega arith))

  -- A loop that writes one whole row in each round fills the matrix.
  pub fill_rows :
      {m0 : Matrix A} (rows cols : ℕ) (value : ℕ → ℕ → A) (body : ℕ → Matrix A → Matrix A)
      → HasShape m0 rows cols
      → ((r : ℕ) (m : Matrix A)
          → r < rows
          → HasShape m rows cols
          → RowWritten m rows cols r 0 cols (value r) (body r m))
      → IsFilled rows cols value (for_range 0 rows body m0)
  fill_rows {m0} rows cols value body s row =
      let all =
        for_range_inv
          (λ i m. HasShape m rows cols × ((r c : ℕ) → r < i → c < cols → get m r c ≡ value r c)) 0
          rows body (omega arith)
          (λ i m p q h.
            let w = row i m q h.0 in
            (
              w.shape,
              λ r c less inside. elim (ℕ_discrete r i) [
                | yes same ↦ rw same (written_at w c inside)
                | no other ↦ w.kept r c inside (inl other) ∙ h.1 r c (omega arith) inside
              ],
            ))
          m0 (s, λ r c less inside. absurd (omega arith)) in
      record { shape = all.0; cell = all.1 }

  -- The two matrices side by side.
  unfoldable pub beside : Matrix A → Matrix A → ℕ → ℕ → ℕ → A
  beside m rhs cols r c = if ltb c cols then get m r c else get rhs r (c - cols)

  augment_row-RowWritten :
      {m rhs result : Matrix A} {rows cols rhs_cols : ℕ} (r : ℕ)
      → HasShape m rows cols
      → HasShape rhs rows rhs_cols
      → HasShape result rows (cols + rhs_cols)
      → r < rows
      → RowWritten result rows
          (cols + rhs_cols)
          r
          0
          (cols + rhs_cols)
          (beside m rhs cols r)
          (augment_row m rhs r result)
  unfolding augment_row beside
  augment_row-RowWritten {m} {rhs} {result} {rows} {cols} {rhs_cols} r s t u p =
      simp (s.col_count) (
        simp (t.col_count) (
          RowWritten-append cols rhs_cols (beside m rhs cols r) (omega arith) first (
            write_row first.shape r cols rhs_cols (λ c. beside m rhs cols r (cols + c)) p
              (omega arith) (λ c result. set result r (cols + c) (get rhs r c)) (λ c _. get rhs r c)
              (λ c _. refl)
              (λ c _ q _.
                sym (rw (le→ltb (cols + c) cols (omega arith)) (ap (get rhs r) (omega arith)))))))
    where
      first :
          RowWritten result rows
            (cols + rhs_cols)
            r
            0
            cols
            (beside m rhs cols r)
            (for_range 0 cols (λ c result. set result r c (get m r c)) result)
      first =
          write_row u r 0 cols (beside m rhs cols r) p (omega arith)
            (λ c result. set result r c (get m r c)) (λ c _. get m r c)
            (λ c m'. ap (λ k. set m' r k (get m r c)) (omega arith))
            (λ c _ q _. sym (rw (lt→ltb c cols q) refl))

  pub augment_lem :
      {m rhs : Matrix A} {rows cols rhs_cols : ℕ}
      → HasShape m rows cols
      → HasShape rhs rows rhs_cols
      → (result : Matrix A) × (augment m rhs ≡ ok result)
        × IsFilled rows (cols + rhs_cols) (beside m rhs cols) result
  unfolding augment
  augment_lem {m} {rhs} {rows} {cols} {rhs_cols} s t = (
    for_range 0 m.row_count (augment_row m rhs) (new m.row_count (m.col_count + rhs.col_count)),
    simp (s.row_count, t.row_count, ==_refl rows),
    simp (s.row_count, s.col_count, t.col_count)
        (fill_rows rows (cols + rhs_cols) (beside m rhs cols) (augment_row m rhs)
          (new-HasShape rows (cols + rhs_cols)) (λ r result p u. augment_row-RowWritten r s t u p)),
  )

  sub_matrix_row :
      (m : Matrix A) (cmin width rows r k : ℕ) (result : Matrix A)
      → k < rows
      → HasShape result rows width
      → RowWritten result rows width k 0 width
          (λ c. get m r (cmin + c))
          (for_range cmin (cmin + width) (λ c result. set result k (c - cmin) (get m r c)) result)
  sub_matrix_row m cmin width rows r k result p s =
      write_row_from s k 0 width (λ c. get m r (cmin + c)) p (omega arith) cmin
        (λ c result. set result k (c - cmin) (get m r c)) (λ c _. get m r c)
        (λ c m' _. ap (λ j. set m' k j (get m r c)) (omega arith))
        (λ c _ q _ _. ap (get m r) (omega arith))

  pub sub_matrix_lem :
      (m : Matrix A) (rmin cmin height width : ℕ)
      → IsFilled height width
          (λ r c. get m (rmin + r) (cmin + c))
          (sub_matrix m rmin cmin (rmin + height) (cmin + width))
  unfolding sub_matrix
  sub_matrix_lem m rmin cmin height width =
      let e : rmin + height - rmin ≡ height = omega arith in
      let e' : cmin + width - cmin ≡ width = omega arith in
      let all =
        for_range_inv
          (λ i result.
            HasShape result height width
            × ((r c : ℕ) → rmin + r < i → c < width → get result r c ≡ get m (rmin + r) (cmin + c)))
          rmin (rmin + height)
          (λ r result.
            for_range cmin (cmin + width) (λ c result. set result (r - rmin) (c - cmin) (get m r c))
              result)
          (omega arith)
          (λ i result p q h.
            let w = sub_matrix_row m cmin width height i (i - rmin) result (omega arith) h.0 in
            (
              w.shape,
              λ r c less inside. elim (ℕ_discrete r (i - rmin)) [
                | yes same ↦
                    let back : i ≡ rmin + r = omega arith in
                    rw same (written_at w c inside) ∙ ap (λ k. get m k (cmin + c)) back
                | no other ↦ w.kept r c inside (inl other) ∙ h.1 r c (omega arith) inside
              ],
            ))
          (new (rmin + height - rmin) (cmin + width - cmin))
          (rw (e, e') (new-HasShape height width), λ r c less inside. absurd (omega arith)) in
      record { shape = all.0; cell = λ r c p q. all.1 r c (omega arith) q }

  unfoldable pub delta : ℕ → ℕ → A
  delta r c = if r == c then F.one else F.zero

  pub identity_lem : (size : ℕ) → IsFilled size size delta (identity size)
  unfolding identity delta
  identity_lem size =
      let all =
        for_range_inv
          (λ i m.
            HasShape m size size
            × ((r c : ℕ)
                → r < size
                → c < size
                → get m r c ≡ (if (r == c) && ltb r i then F.one else F.zero)))
          0 size (λ i m. set m i i F.one) (omega arith)
          (λ i m p q h. (
            set-HasShape h.0 i i F.one,
            λ r c u v. elim (ℕ_discrete r i) [
              | yes e ↦ elim (ℕ_discrete c i) [
                | yes e' ↦
                    rw (e, e')
                      (get-set_self h.0 i i F.one q q
                        ∙ rw (==_refl i, lt→ltb i (suc i) (omega arith)) refl)
                | no n ↦
                    get-set_other h.0 i i r c F.one q q v (inr n) ∙ (h.1 r c u v ∙ ground arith)
              ]
              | no n ↦ get-set_other h.0 i i r c F.one q q v (inl n) ∙ (h.1 r c u v ∙ ground arith)
            ],
          ))
          (new size size)
          (new-HasShape size size, λ r c u v. get-new size size r c u v ∙ ground arith) in
      record { shape = all.0; cell = λ r c u v. all.1 r c u v ∙ ground arith }

  dot-sum :
      (m rhs : Matrix A) (n r c : ℕ)
      → m.col_count ≡ n
      → dot m rhs r c ≡ sum n (λ i. F.mul (get m r i) (get rhs i c))
  unfolding dot sum
  dot-sum m rhs n r c e = simp e (
      for_range_inv (λ i val. val ≡ sum i (λ i. F.mul (get m r i) (get rhs i c))) 0 n
        (λ i val. F.add val (F.mul (get m r i) (get rhs i c))) (omega arith)
        (λ i val p q h. ap (λ t. F.add t (F.mul (get m r i) (get rhs i c))) h) F.zero refl)

  -- Matrices whose inner sizes agree have a product, and each of its cells is the sum over the
  -- inner index of the products of the cells.
  pub multiply_lem :
      {m rhs : Matrix A} {rows n cols : ℕ}
      → HasShape m rows n
      → HasShape rhs n cols
      → (result : Matrix A) × (multiply m rhs ≡ ok result)
        × IsFilled rows cols (λ r c. sum n (λ i. F.mul (get m r i) (get rhs i c))) result
  unfolding multiply
  multiply_lem {m} {rhs} {rows} {n} {cols} s t = (
    for_range 0 m.row_count
        (λ r result. for_range 0 rhs.col_count (λ c result. set result r c (dot m rhs r c)) result)
        (new m.row_count rhs.col_count),
    simp (s.col_count, t.row_count, ==_refl n),
    simp (s.row_count, t.col_count)
        (fill_rows rows cols (λ r c. sum n (λ i. F.mul (get m r i) (get rhs i c)))
          (λ r result. for_range 0 cols (λ c result. set result r c (dot m rhs r c)) result)
          (new-HasShape rows cols)
          (λ r m' p u.
            write_row u r 0 cols (λ c. sum n (λ i. F.mul (get m r i) (get rhs i c))) p (omega arith)
              (λ c result. set result r c (dot m rhs r c)) (λ c _. dot m rhs r c)
              (λ c m'. ap (λ k. set m' r k (dot m rhs r c)) (omega arith))
              (λ c _ _ _. dot-sum m rhs n r c s.col_count))),
  )

  pub vandermonde_lem :
      (rows cols : ℕ) → IsFilled rows cols (λ r c. F.exp (nth r) c) (vandermonde rows cols)
  unfolding vandermonde
  vandermonde_lem rows cols =
      fill_rows rows cols (λ r c. F.exp (nth r) c)
        (λ r result. for_range 0 cols (λ c result. set result r c (F.exp (nth r) c)) result)
        (new-HasShape rows cols)
        (λ r m p s.
          write_row s r 0 cols (λ c. F.exp (nth r) c) p (omega arith)
            (λ c result. set result r c (F.exp (nth r) c)) (λ c _. F.exp (nth r) c)
            (λ c m'. ap (λ k. set m' r k (F.exp (nth r) c)) (omega arith)) (λ c _ _ _. refl))
