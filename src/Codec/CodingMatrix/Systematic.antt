-- ===== src/Codec/CodingMatrix/Systematic.antt =====
-- The matrix of src/core/codec.rs `build_matrix` is systematic: its upper square is the identity.
use reed_solomon_erasure.Base.{
  ℕ, ◌+◌, ◌<◌, ◌≤◌, ◌≡◌, sym, ◌∙◌, ap, subst, arith, ok, map_err, >>=-eq-ok, map_err-eq-ok,
}
use reed_solomon_erasure.Errors.{invalid_custom_matrix}
use reed_solomon_erasure.Field.{Field, FieldLaws, nth}
use reed_solomon_erasure.Field.Sum.{sum, sum_congr}
use reed_solomon_erasure.Matrix.{Matrix, get, sub_matrix, invert, multiply, vandermonde}
use reed_solomon_erasure.Matrix.Cells.{HasShape}
use reed_solomon_erasure.Matrix.Fill.{
  IsFilled, delta, vandermonde_lem, sub_matrix_lem, multiply_lem,
}
use reed_solomon_erasure.Matrix.Invert.{IsInverse, invert-IsInverse}
use reed_solomon_erasure.Codec.CodingMatrix.{build_matrix}

module _ {ℓ} {A : Type ℓ} ⦃F : Field A⦄ (L : FieldLaws F) where
  -- A matrix that `build_matrix` returns has the size asked for, and the identity as its first
  -- rows, so that the data shards are a part of the code word. It is the Vandermonde matrix times
  -- a matrix that is inverse to the first rows of the Vandermonde matrix on both sides.
  pub build_matrix-IsSystematic :
      (d t : ℕ) (m : Matrix A)
      → d ≤ t
      → build_matrix d t ≡ ok m
      → HasShape m t d
        × ((r c : ℕ) → r < d → c < d → get m r c ≡ delta r c)
        × ((inverse : Matrix A) × IsInverse d (sub_matrix (vandermonde t d) 0 0 d d) inverse
            × ((r c : ℕ)
                → r < t
                → c < d
                → get m r c ≡ sum d (λ k. F.mul (F.exp (nth r) k) (get inverse k c))))
  unfolding build_matrix
  build_matrix-IsSystematic d t m fits h =
      let v : Matrix A = vandermonde t d in
      let top : Matrix A = sub_matrix v 0 0 d d in
      let (b, run, rest) =
        >>=-eq-ok (map_err (λ _. invalid_custom_matrix) (invert top))
          (λ b. map_err (λ _. invalid_custom_matrix) (multiply v b)) h in
      let filled : IsFilled d d (λ r c. get v (0 + r) (0 + c)) top =
        subst (λ k. IsFilled d d (λ r c. get v (0 + r) (0 + c)) (sub_matrix v 0 0 k k))
          (sym (zero_add d)) (sub_matrix_lem v 0 0 d d) in
      let inverse : IsInverse d top b =
        invert-IsInverse L d top b filled.shape
          (map_err-eq-ok (λ _. invalid_custom_matrix) (invert top) run) in
      let whole = vandermonde_lem t d in
      let (m', product, cells) = multiply_lem whole.shape inverse.shape in
      let both : multiply v b ≡ ok m =
        map_err-eq-ok (λ _. invalid_custom_matrix) (multiply v b) rest in
      let same : m' ≡ m = (cc) in
      let cells' =
        subst (IsFilled t d (λ r c. sum d (λ i. F.mul (get v r i) (get b i c)))) same cells in
      (
        cells'.shape,
        (λ r c p q.
            cells'.cell r c (omega arith) q
            ∙ (sum_congr d _ _ (λ i s.
                  ap (λ e. F.mul e (get b i c))
                    (ap (λ k. get v k i) (zero_add r)
                      ∙ (ap (get v (0 + r)) (zero_add i) ∙ sym (filled.cell r i p s))))
                ∙ inverse.right r c p q)),
        (
          b,
          inverse,
          λ r c p q.
              cells'.cell r c p q
              ∙ sum_congr d _ _ (λ i s. ap (λ e. F.mul e (get b i c)) (whole.cell r i p s)),
        ),
      )
    where
      zero_add : (n : ℕ) → n ≡ 0 + n
      zero_add n = omega arith
