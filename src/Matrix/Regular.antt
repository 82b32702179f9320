-- ===== src/Matrix/Regular.antt =====
-- When `gaussian_elim` and `invert` of src/matrix.rs succeed: on every matrix whose left square takes
-- only the zero vector to zero.
use native.Mathlib.Decide.{ℕ_discrete}
use reed_solomon_erasure.Base.{
  ℕ, zero, suc, ◌+◌, ◌-◌, ◌*◌, ◌<◌, ◌≤◌, ◌≡◌, inl, inr, refl, sym, ◌∙◌, ap, ap₂, arith, Bool-cases,
  ok, ◌==◌, ==_refl, lt→ltb, ne→==, if◌then◌else◌, try_range, try_range_total, for_range,
}
use reed_solomon_erasure.Field.{Field, FieldLaws}
use reed_solomon_erasure.Field.Laws.{add-zero, mul-zero, mul-one, add-mul, ne_of_eq_false}
use reed_solomon_erasure.Field.Sum.{sum, sum_congr, sum-add, sum_single, mul-sum}
use reed_solomon_erasure.Matrix.{
  Matrix, get, swap_rows, swap_in_pivot, ensure_pivot, eliminate_below, forward_step, backward_step,
  gaussian_elim, invert, identity, is_square, sub_matrix,
}
use reed_solomon_erasure.Matrix.Cells.{HasShape}
use reed_solomon_erasure.Matrix.Rows.{swap_index, swap_rows_lem}
use reed_solomon_erasure.Matrix.Span.{IsSubspace, SameSpan-refl}
use reed_solomon_erasure.Matrix.Fill.{augment_lem, identity_lem, beside}
use reed_solomon_erasure.Matrix.Elim.{Echelon, forward_step-Echelon}

module _ {ℓ} {A : Type ℓ} ⦃F : Field A⦄ where
  -- A row times a column.
  abbrev pub row_times : ℕ → (ℕ → A) → (ℕ → A) → A
  row_times n f x = sum n (λ c. F.mul (f c) (x c))

  -- Only the zero vector is taken to zero by the first `n` rows and columns.
  abbrev pub IsRegular : ℕ → (ℕ → ℕ → A) → Type ℓ
  IsRegular n m =
      (x : ℕ → A)
      → ((r : ℕ) → r < n → row_times n (m r) x ≡ F.zero)
      → (c : ℕ) → c < n
      → x c ≡ F.zero

module _ {ℓ} {A : Type ℓ} ⦃F : Field A⦄ (L : FieldLaws F) where
  -- The rows that a vector annihilates are a subspace.
  annihilated-IsSubspace :
      (n cols : ℕ) (x : ℕ → A) → n ≤ cols → IsSubspace F cols (λ f. row_times n f x ≡ F.zero)
  annihilated-IsSubspace n cols x fits = record {
    congr =
        λ f g e h. sum_congr n _ _ (λ c p. ap (λ t. F.mul t (x c)) (sym (e c (omega arith)))) ∙ h;
    add = λ f g h k.
        sum_congr n _ _ (λ c p. add-mul L (f c) (g c) (x c))
        ∙ (sum-add L n (λ c. F.mul (f c) (x c)) (λ c. F.mul (g c) (x c))
            ∙ (ap₂ F.add h k ∙ L.zero-add F.zero));
    scale = λ a f h.
        sum_congr n _ _ (λ c p. L.mul_assoc a (f c) (x c))
        ∙ (sym (mul-sum L n a (λ c. F.mul (f c) (x c))) ∙ (ap (F.mul a) h ∙ mul-zero L a));
  }

  -- One coordinate of the vector increased.
  row_times-bump :
      (n i : ℕ) (f x : ℕ → A) (s : A)
      → i < n
      → row_times n f (λ c. F.add (x c) (if c == i then s else F.zero))
        ≡ F.add (row_times n f x) (F.mul (f i) s)
  row_times-bump n i f x s p =
      sum_congr n _ _ (λ c q. L.mul-add (f c) (x c) (if c == i then s else F.zero))
      ∙ (sum-add L n (λ c. F.mul (f c) (x c)) (λ c. F.mul (f c) (if c == i then s else F.zero))
          ∙ ap (F.add (row_times n f x)) (
              sum_single L n i _ p (λ c q ne. rw (ne→== c i ne) (mul-zero L (f c)))
              ∙ rw (==_refl i) refl))

  row_times-unit :
      (n i : ℕ) (f : ℕ → A) → i < n → row_times n f (λ c. if c == i then F.one else F.zero) ≡ f i
  row_times-unit n i f p =
      sum_single L n i _ p (λ c q ne. rw (ne→== c i ne) (mul-zero L (f c)))
      ∙ rw (==_refl i) (mul-one L (f i))

  module _ (rows cols : ℕ) (fits : rows ≤ cols) (start m : Matrix A) (r : ℕ) (inside : r < rows)
      (e : Echelon rows cols start r m)
      (column : (k : ℕ) → r ≤ k → k < rows → get m k r ≡ F.zero) where
    -- Back substitution through the rows above `r`: a vector with a one at `r` that the rows from
    -- `r - t` on take to zero.
    back_substitution :
        (t : ℕ)
        → t ≤ r
        → (x : ℕ → A) × (x r ≡ F.one)
          × ((k : ℕ) → r - t ≤ k → k < rows → row_times rows (get m k) x ≡ F.zero)
    back_substitution zero p = (
      (λ c. if c == r then F.one else F.zero),
      rw (==_refl r) refl,
      λ k q u. row_times-unit rows r (get m k) inside ∙ column k (omega arith) u,
    )
    back_substitution (suc t) p =
        let (x, unit, zeros) = back_substitution t (omega arith) in
        let i = r - suc t in
        let s = row_times rows (get m i) x in
        (
          (λ c. F.add (x c) (if c == i then s else F.zero)),
          rw (ne→== r i (omega arith)) (add-zero L (x r) ∙ unit),
          λ k q u. elim (ℕ_discrete k i) [
            | yes same ↦
                row_times-bump rows i (get m k) x s (omega arith)
                ∙ rw same (
                    ap (λ t. F.add s (F.mul t s)) (e.diagonal i (omega arith))
                    ∙ (ap (F.add s) (L.one-mul s) ∙ L.add_self s))
            | no other ↦
                row_times-bump rows i (get m k) x s (omega arith)
                ∙ (ap₂ (λ a b. F.add a (F.mul b s)) (zeros k (omega arith) u)
                      (e.below k i (omega arith) (omega arith) u)
                    ∙ (L.zero-add (F.mul F.zero s) ∙ L.zero-mul s))
          ],
        )

    no_pivot-not-IsRegular : ¬ (IsRegular rows (get start))
    no_pivot-not-IsRegular regular =
        let (x, unit, zeros) = back_substitution r (omega arith) in
        let killed =
          (e.span (λ f. row_times rows f x ≡ F.zero) (annihilated-IsSubspace rows cols x fits)).1
            (λ k p. zeros k (omega arith) p) in
        L.one-ne-zero (sym unit ∙ regular x killed r inside)

module _ {ℓ} {A : Type ℓ} ⦃F : Field A⦄ (L : FieldLaws F) where
  -- If the search leaves a zero on the diagonal, then it has found none but zeros.
  swap_in_pivot-zeros :
      {rows cols : ℕ} (r lo n : ℕ) (m : Matrix A)
      → HasShape m rows cols
      → r < lo
      → r < cols
      → lo + n ≤ rows
      → get (swap_in_pivot r lo n m) r r ≡ F.zero
      → (k : ℕ) → lo ≤ k
      → k < lo + n
      → get m k r ≡ F.zero
  unfolding swap_in_pivot swap_index
  swap_in_pivot-zeros r lo zero m s p c q h k u w = absurd (omega arith)
  swap_in_pivot-zeros r lo (suc n) m s p c q h k u w =
      elim (Bool-cases (F.eq (get m lo r) F.zero)) [
        | inl is_zero ↦ elim (ℕ_discrete k lo) [
          | yes same ↦ rw same ((L.eq_iff (get m lo r) F.zero).0 is_zero)
          | no other ↦
              swap_in_pivot-zeros r (suc lo) n m s (omega arith) c (omega arith) (simp is_zero at h)
                k (omega arith) (omega arith)
        ]
        | inr nonzero ↦
            let swapped : get (swap_rows m r lo) r r ≡ F.zero = simp nonzero at h in
            let moved : get (swap_rows m r lo) r r ≡ get m lo r =
              (swap_rows_lem s r lo (omega arith) (omega arith)).1 r r c
              ∙ ap (λ j. get m j r) (rw (==_refl r) refl) in
            absurd (ne_of_eq_false L (get m lo r) F.zero nonzero (sym moved ∙ swapped))
      ]

  ensure_pivot-zeros :
      {rows cols : ℕ} (r : ℕ) (m : Matrix A)
      → HasShape m rows cols
      → r < rows
      → r < cols
      → get (ensure_pivot r m) r r ≡ F.zero
      → (k : ℕ) → r ≤ k
      → k < rows
      → get m k r ≡ F.zero
  unfolding ensure_pivot
  ensure_pivot-zeros {rows} r m s p c h k u w = elim (Bool-cases (F.eq (get m r r) F.zero)) [
    | inl is_zero ↦ elim (ℕ_discrete k r) [
      | yes same ↦ rw same ((L.eq_iff (get m r r) F.zero).0 is_zero)
      | no other ↦
          swap_in_pivot-zeros r (r + 1) (rows - (r + 1)) m s (omega arith) c (omega arith)
            (simp (is_zero, s.row_count) at h) k (omega arith) (omega arith)
    ]
    | inr nonzero ↦ absurd (ne_of_eq_false L (get m r r) F.zero nonzero (simp nonzero at h))
  ]

  module _ {m : Matrix A} {rows cols : ℕ} (s : HasShape m rows cols) (fits : rows ≤ cols)
      (regular : IsRegular rows (get m)) where
    forward_step_total :
        (r : ℕ) (a : Matrix A)
        → r < rows
        → Echelon rows cols m r a
        → (b : Matrix A) × (forward_step r a ≡ ok b)
    unfolding forward_step
    forward_step_total r a p e = elim (Bool-cases (F.eq (get (ensure_pivot r a) r r) F.zero)) [
      | inl is_zero ↦ absurd (
          no_pivot-not-IsRegular L rows cols fits m a r p e
            (ensure_pivot-zeros r a e.shape p (omega arith)
              ((L.eq_iff (get (ensure_pivot r a) r r) F.zero).0 is_zero))
            regular)
      | inr nonzero ↦ (eliminate_below r (ensure_pivot r a), rw nonzero refl)
    ]

    -- Elimination succeeds on a matrix with no more rows than columns whose left square takes only
    -- the zero vector to zero.
    pub gaussian_elim_total : (m' : Matrix A) × (gaussian_elim m ≡ ok m')
    unfolding gaussian_elim
    gaussian_elim_total =
        let (m1, run, _) =
          try_range_total (Echelon rows cols m) 0 rows forward_step (omega arith)
            (λ i a p q e.
              let (b, once) = forward_step_total i a q e in
              (b, once, forward_step-Echelon L rows cols fits m i a b q once e))
            m
            (record {
              shape = s;
              span = SameSpan-refl rows cols m;
              diagonal = λ c p. absurd (omega arith);
              below = λ r c p. absurd (omega arith);
            }) in
        let run' : try_range 0 m.row_count forward_step m ≡ ok m1 =
          ap (λ n. try_range 0 n forward_step m) s.row_count ∙ run in
        (for_range 0 m1.row_count backward_step m1, rw run' refl)

  -- `invert` succeeds on a square matrix that takes only the zero vector to zero.
  pub invert_total :
      (n : ℕ) (m : Matrix A)
      → HasShape m n n
      → IsRegular n (get m)
      → (b : Matrix A) × (invert m ≡ ok b)
  unfolding invert is_square
  invert_total n m s regular =
      let (work, e, filled) = augment_lem s (identity_lem n).shape in
      let same : (r c : ℕ) → r < n → c < n → get work r c ≡ get m r c =
        λ r c p q. filled.cell r c p (omega arith) ∙ beside_left m (identity n) n r c q in
      let (done, run) = gaussian_elim_total filled.shape (omega arith) (λ x zeros. regular x (λ r p.
        sum_congr n _ _ (λ c q. ap (λ t. F.mul t (x c)) (sym (same r c p q))) ∙ zeros r p)) in
      (sub_matrix done 0 n n (n * 2), simp (s.row_count, s.col_count, ==_refl n, e, run) refl)
    where
      beside_left : (m rhs : Matrix A) (n r c : ℕ) → c < n → beside m rhs n r c ≡ get m r c
      beside_left m rhs n r c q = unfold beside in rw (lt→ltb c n q) refl
