-- ===== src/Codec/CodingMatrix/Mds.antt =====
-- The matrix of src/core/codec.rs `build_matrix` can be built for all counts that the field allows, and
-- any of its rows, as many as it has columns, are independent.
use reed_solomon_erasure.Base.{ℕ, ◌+◌, ◌<◌, ◌≤◌, ◌≡◌, refl, sym, ◌∙◌, ap, ap₂, subst, arith, ok}
use reed_solomon_erasure.Field.{Field, FieldLaws, nth}
use reed_solomon_erasure.Field.Laws.{nth-lt, mul-zero}
use reed_solomon_erasure.Field.Sum.{sum, sum_congr, sum-zero, mul-sum, sum_comm}
use reed_solomon_erasure.Field.Roots.{powers-IsRegular}
use reed_solomon_erasure.Matrix.{Matrix, get, sub_matrix, vandermonde}
use reed_solomon_erasure.Matrix.Fill.{IsFilled, vandermonde_lem, sub_matrix_lem, multiply_lem}
use reed_solomon_erasure.Matrix.Invert.{invert-IsInverse, product-delta_left}
use reed_solomon_erasure.Matrix.Regular.{row_times, IsRegular, invert_total}
use reed_solomon_erasure.Codec.CodingMatrix.{build_matrix}
use reed_solomon_erasure.Codec.CodingMatrix.Systematic.{build_matrix-IsSystematic}

module _ {ℓ} {A : Type ℓ} ⦃F : Field A⦄ (L : FieldLaws F) where
  -- A product of matrices applied to a vector, one factor after the other.
  pub product-row_times :
      (n : ℕ) (a : ℕ → A) (b : ℕ → ℕ → A) (x : ℕ → A)
      → row_times n (λ c. sum n (λ k. F.mul (a k) (b k c))) x
        ≡ row_times n a (λ k. row_times n (b k) x)
  product-row_times n a b x =
      sum_congr n _ _ (λ c p.
        L.mul_comm _ (x c)
        ∙ (mul-sum L n (x c) (λ k. F.mul (a k) (b k c))
            ∙ sum_congr n _ _
                (λ k q. L.mul_comm (x c) (F.mul (a k) (b k c)) ∙ L.mul_assoc (a k) (b k c) (x c))))
      ∙ (sum_comm L n n (λ c k. F.mul (a k) (F.mul (b k c) (x c)))
          ∙ sum_congr n _ _ (λ k p. sym (mul-sum L n (a k) (λ c. F.mul (b k c) (x c)))))

  nth_distinct : (t i j : ℕ) → t ≤ F.order → i < t → j < t → nth {A = A} i ≡ nth j → i ≡ j
  nth_distinct t i j p u w e =
      L.nth_injective i j (omega arith) (omega arith)
        (sym (nth-lt L i (omega arith)) ∙ (e ∙ nth-lt L j (omega arith)))

  -- For any counts d and t with d at most t and t at most the order of the field, `build_matrix`
  -- returns a matrix.
  pub build_matrix_total :
      (d t : ℕ) → d ≤ t → t ≤ F.order → (m : Matrix A) × (build_matrix d t ≡ ok m)
  unfolding build_matrix
  build_matrix_total d t fits small =
      let v : Matrix A = vandermonde t d in
      let whole = vandermonde_lem {A = A} t d in
      let zero_add : (n : ℕ) → n ≡ 0 + n = λ n. omega arith in
      let filled : IsFilled d d (λ r c. get v (0 + r) (0 + c)) (sub_matrix v 0 0 d d) =
        subst (λ k. IsFilled d d (λ r c. get v (0 + r) (0 + c)) (sub_matrix v 0 0 k k))
          (sym (zero_add d)) (sub_matrix_lem v 0 0 d d) in
      let power : (r c : ℕ) → r < d → c < d → F.exp (nth r) c ≡ get (sub_matrix v 0 0 d d) r c =
        λ r c p q. sym (
          filled.cell r c p q
          ∙ (ap₂ (get v) (sym (zero_add r)) (sym (zero_add c)) ∙ whole.cell r c (omega arith) q)) in
      let (b, run) = invert_total L d (sub_matrix v 0 0 d d) filled.shape (λ x zeros.
        powers-IsRegular L d nth (omega arith) (λ i j p q. nth_distinct d i j (omega arith) p q) x
          (λ r p. sum_congr d _ _ (λ c q. ap (λ e. F.mul e (x c)) (power r c p q)) ∙ zeros r p)) in
      let (m, product, _) =
        multiply_lem whole.shape
          (invert-IsInverse L d (sub_matrix v 0 0 d d) b filled.shape run).shape in
      (m, rw (run, product) refl)

  -- In a matrix that `build_matrix` returns, any d different rows take only the zero vector to zero,
  -- so that any d shards determine the data.
  pub build_matrix-IsRegular :
      (d t : ℕ) (m : Matrix A)
      → d ≤ t
      → t ≤ F.order
      → build_matrix d t ≡ ok m
      → (pick : ℕ → ℕ) → ((i : ℕ) → i < d → pick i < t)
      → ((i j : ℕ) → i < d → j < d → pick i ≡ pick j → i ≡ j)
      → IsRegular d (λ r. get m (pick r))
  build_matrix-IsRegular d t m fits small h pick inside distinct x zeros c q =
      let (_, _, (b, inverse, cells)) = build_matrix-IsSystematic L d t m fits h in
      let y : ℕ → A = λ k. row_times d (get b k) x in
      let y_zero : (k : ℕ) → k < d → y k ≡ F.zero =
        powers-IsRegular L d (λ r. nth (pick r)) (omega arith)
          (λ i j p u e.
            distinct i j p u (nth_distinct t (pick i) (pick j) small (inside i p) (inside j u) e))
          y
          (λ r p.
            sym (product-row_times d (F.exp (nth (pick r))) (get b) x)
            ∙ (sum_congr d _ _
                  (λ c u. ap (λ e. F.mul e (x c)) (sym (cells (pick r) c (inside r p) u)))
                ∙ zeros r p)) in
      let top = sub_matrix (vandermonde t d) 0 0 d d in
      sym (product-delta_left L d (λ k _. x k) c 0 q)
      ∙ (sum_congr d _ _ (λ k u. ap (λ e. F.mul e (x k)) (sym (inverse.right c k q u)))
          ∙ (product-row_times d (get top c) (get b) x
              ∙ sum-zero L d _
                  (λ k u. ap (F.mul (get top c k)) (y_zero k u) ∙ mul-zero L (get top c k))))
