-- ===== src/Matrix/Invert.antt =====
-- `invert` of src/matrix.rs: what it returns is a two-sided inverse.
use native.Mathlib.Nat.{zero-add}
use reed_solomon_erasure.Base.{
  ℕ, ◌+◌, ◌-◌, ◌*◌, ◌<◌, ◌≤◌, ◌≡◌, refl, sym, ◌∙◌, ap, ap₂, subst, arith, ==_refl, ne→==, le→ltb,
  lt→ltb, ok, ◌>>=◌, >>=-eq-ok,
}
use reed_solomon_erasure.Field.{Field, FieldLaws}
use reed_solomon_erasure.Field.Laws.{add-mul}
use reed_solomon_erasure.Field.Sum.{sum, sum_congr, sum-add, mul-sum, sum_single}
use reed_solomon_erasure.Matrix.{
  Matrix, get, is_square, identity, gaussian_elim, sub_matrix, invert,
}
use reed_solomon_erasure.Matrix.Cells.{HasShape}
use reed_solomon_erasure.Matrix.Fill.{
  IsFilled, delta, beside, identity_lem, augment_lem, sub_matrix_lem,
}
use reed_solomon_erasure.Matrix.Span.{IsSubspace, RowsIn}
use reed_solomon_erasure.Matrix.Elim.{gaussian_elim_lem}

module _ {ℓ} {A : Type ℓ} ⦃F : Field A⦄ where
  -- The cell of the product of two matrices, given by their cells.
  abbrev pub product : ℕ → (ℕ → ℕ → A) → (ℕ → ℕ → A) → ℕ → ℕ → A
  product n a b r c = sum n (λ k. F.mul (a r k) (b k c))

  -- The cells from `p` are those from `q`, times `a`.
  abbrev IsImage : ℕ → (ℕ → ℕ → A) → ℕ → ℕ → (ℕ → A) → Type ℓ
  IsImage n a p q w = (c : ℕ) → c < n → w (p + c) ≡ sum n (λ k. F.mul (w (q + k)) (a k c))

module _ {ℓ} {A : Type ℓ} ⦃F : Field A⦄ (L : FieldLaws F) (n : ℕ) where
  pub product-delta_left : (a : ℕ → ℕ → A) (r c : ℕ) → r < n → product n delta a r c ≡ a r c
  unfolding delta
  product-delta_left a r c p =
      sum_single L n r (λ k. F.mul (delta r k) (a k c)) p
        (λ k q ne. rw (ne→== r k (λ e. ne (sym e))) (L.zero-mul (a k c)))
      ∙ rw (==_refl r) (L.one-mul (a r c))

  IsImage-IsSubspace :
      (a : ℕ → ℕ → A) (p q cols : ℕ)
      → p + n ≤ cols
      → q + n ≤ cols
      → IsSubspace F cols (IsImage n a p q)
  IsImage-IsSubspace a p q cols hp hq = record {
    congr = λ f g e h c less.
        sym (e (p + c) (omega arith))
        ∙ (h c less
            ∙ sum_congr n (λ k. F.mul (f (q + k)) (a k c)) (λ k. F.mul (g (q + k)) (a k c))
                (λ k inside. ap (λ t. F.mul t (a k c)) (e (q + k) (omega arith))));
    add = λ f g hf hg c less.
        ap₂ F.add (hf c less) (hg c less)
        ∙ (sym (sum-add L n (λ k. F.mul (f (q + k)) (a k c)) (λ k. F.mul (g (q + k)) (a k c)))
            ∙ sum_congr n (λ k. F.add (F.mul (f (q + k)) (a k c)) (F.mul (g (q + k)) (a k c)))
                (λ k. F.mul (F.add (f (q + k)) (g (q + k))) (a k c))
                (λ k inside. sym (add-mul L (f (q + k)) (g (q + k)) (a k c))));
    scale = λ x f hf c less.
        ap (F.mul x) (hf c less)
        ∙ (mul-sum L n x (λ k. F.mul (f (q + k)) (a k c))
            ∙ sum_congr n (λ k. F.mul x (F.mul (f (q + k)) (a k c)))
                (λ k. F.mul (F.mul x (f (q + k))) (a k c))
                (λ k inside. sym (L.mul_assoc x (f (q + k)) (a k c))));
  }

-- Both products with `m` are the identity.
pub record IsInverse {ℓ} {A : Type ℓ} ⦃F : Field A⦄ (n : ℕ) (m b : Matrix A) : Type ℓ where
  pub shape : HasShape b n n
  pub left : (r c : ℕ) → r < n → c < n → product n (get b) (get m) r c ≡ delta r c
  pub right : (r c : ℕ) → r < n → c < n → product n (get m) (get b) r c ≡ delta r c

module _ {ℓ} {A : Type ℓ} ⦃F : Field A⦄ (L : FieldLaws F) (n : ℕ) (m work : Matrix A)
    (filled : IsFilled n (n + n) (beside m (identity n) n) work) where
  work_left : (r c : ℕ) → r < n → c < n → get work r (0 + c) ≡ get m r c
  unfolding beside
  work_left r c p q =
      ap (get work r) (zero-add c) ∙ (filled.cell r c p (omega arith) ∙ rw (lt→ltb c n q) refl)

  work_right : (r c : ℕ) → r < n → c < n → get work r (n + c) ≡ delta r c
  unfolding beside
  work_right r c p q =
      filled.cell r (n + c) p (omega arith)
      ∙ (rw (le→ltb (n + c) n (omega arith))
            (ap (get (identity n) r) (let e : n + c - n ≡ c = omega arith in e))
          ∙ (identity_lem n).cell r c p q)

  work_rows : RowsIn n (IsImage n (get m) 0 n) work
  work_rows r p c q =
      work_left r c p q
      ∙ (sym (product-delta_left L n (get m) r c p)
          ∙ sum_congr n (λ k. F.mul (delta r k) (get m k c))
              (λ k. F.mul (get work r (n + k)) (get m k c))
              (λ k inside. ap (λ t. F.mul t (get m k c)) (sym (work_right r k p inside))))

  reduced_rows :
      (m' : Matrix A)
      → ((r c : ℕ) → r < n → c < n → get m' r c ≡ delta r c)
      → RowsIn n (IsImage n (λ k c. get m' k (n + c)) n 0) m'
  reduced_rows m' e r p c q =
      sym (product-delta_left L n (λ k c. get m' k (n + c)) r c p)
      ∙ sum_congr n (λ k. F.mul (delta r k) (get m' k (n + c)))
          (λ k. F.mul (get m' r (0 + k)) (get m' k (n + c)))
          (λ k inside.
            ap (λ t. F.mul t (get m' k (n + c)))
              (sym (ap (get m' r) (zero-add k) ∙ e r k p inside)))

  sub_matrix-IsInverse :
      (m' : Matrix A)
      → gaussian_elim work ≡ ok m'
      → IsInverse n m (sub_matrix m' 0 n (0 + n) (n + n))
  sub_matrix-IsInverse m' h =
      let g = gaussian_elim_lem L filled.shape (omega arith) h in
      let b = sub_matrix_lem m' 0 n n n in
      let cell : (r c : ℕ)
          → r < n
          → c < n
          → get (sub_matrix m' 0 n (0 + n) (n + n)) r c ≡ get m' r (n + c) =
        λ r c p q. b.cell r c p q ∙ ap (λ k. get m' k (n + c)) (zero-add r) in
      let forth =
        (g.1 (IsImage n (get m) 0 n)
            (IsImage-IsSubspace L n (get m) 0 n (n + n) (omega arith) (omega arith))).0
          work_rows in
      let back =
        (g.1 (IsImage n (λ k c. get m' k (n + c)) n 0) (
            IsImage-IsSubspace L n (λ k c. get m' k (n + c)) n 0 (n + n) (omega arith)
              (omega arith))).1
          (reduced_rows m' g.2) in
      record {
        shape = b.shape;
        left = λ r c p q.
            sum_congr n (λ k. F.mul (get (sub_matrix m' 0 n (0 + n) (n + n)) r k) (get m k c))
              (λ k. F.mul (get m' r (n + k)) (get m k c))
              (λ k inside. ap (λ t. F.mul t (get m k c)) (cell r k p inside))
            ∙ (sym (forth r p c q) ∙ (ap (get m' r) (zero-add c) ∙ g.2 r c p q));
        right = λ r c p q.
            sum_congr n (λ k. F.mul (get m r k) (get (sub_matrix m' 0 n (0 + n) (n + n)) k c))
              (λ k. F.mul (get work r (0 + k)) (get m' k (n + c)))
              (λ k inside. ap₂ F.mul (sym (work_left r k p inside)) (cell k c inside q))
            ∙ (sym (back r p c q) ∙ work_right r c p q);
      }

module _ {ℓ} {A : Type ℓ} ⦃F : Field A⦄ (L : FieldLaws F) where
  -- A matrix that `invert` returns for a square matrix is its inverse, from both sides.
  pub invert-IsInverse :
      (n : ℕ) (m b : Matrix A) → HasShape m n n → invert m ≡ ok b → IsInverse n m b
  unfolding invert is_square
  invert-IsInverse n m b s h =
      let (work, e, filled) = augment_lem s (identity_lem n).shape in
      let h1 : (gaussian_elim work >>= λ w. ok (sub_matrix w 0 n n (n * 2))) ≡ ok b =
        simp (s.row_count, s.col_count, ==_refl n, e) at h in
      let (m', g, h2) = >>=-eq-ok (gaussian_elim work) (λ w. ok (sub_matrix w 0 n n (n * 2))) h1 in
      let same : sub_matrix m' 0 n n (n * 2) ≡ b = (cc) in
      let bounds : sub_matrix m' 0 n (0 + n) (n + n) ≡ sub_matrix m' 0 n n (n * 2) =
        ap₂ (sub_matrix m' 0 n) (zero-add n) (omega arith) in
      subst (IsInverse n m) (bounds ∙ same) (sub_matrix-IsInverse L n m work filled m' g)
