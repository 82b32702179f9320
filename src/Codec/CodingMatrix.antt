-- ===== src/Codec/CodingMatrix.antt =====
-- The coding matrices of src/core/codec.rs: the systematic Vandermonde matrix, the Cauchy matrix, the
-- matrix in the manner of Jerasure, and a matrix that the caller gives.
pub mod Systematic
pub mod Mds
use reed_solomon_erasure.Base.{
  ℕ, zero, suc, ◌+◌, ◌-◌, ◌*◌, min, max, Bool, true, false, ◌&&◌, ◌||◌, not, Option, none, some,
  List, [], ◌∷◌, length, get_or, take, ltb, leb, ◌==◌, if◌then◌else◌, for_range, Result, ok, err,
  ◌>>=◌, ◌>>◌, fail_if, map_err, try_range,
}
use reed_solomon_erasure.Errors.{
  Error, invalid_custom_matrix, unsupported_codec_family, too_few_data_shards,
  too_few_parity_shards, too_many_shards, Failure, returned, panicked, lift,
}
use reed_solomon_erasure.Field.{Field, nth}
use reed_solomon_erasure.Matrix.{
  Matrix, get, set, new as new_matrix, sub_matrix, invert, multiply,
  vandermonde as vandermonde_matrix, swap_rows,
}
use reed_solomon_erasure.Codec.Options.{
  CodecOptions, CodecFamily, classic, leopard_gf8, leopard_gf16, MatrixMode, vandermonde, cauchy,
  jerasure_like, custom, default,
}
use reed_solomon_erasure.Codec.Family.{
  usize_max, saturating_add, is_byte_field, max_total_shards_for_family, resolve_codec_family,
  validate_leopard_family,
}
use reed_solomon_erasure.Codec.State.{ReedSolomon, build_family_state}

module _ {ℓ} {A : Type ℓ} ⦃F : Field A⦄ where
  unfoldable pub build_matrix : ℕ → ℕ → Result Error (Matrix A)
  build_matrix data_shards total_shards = do
    top_inverted ←
        map_err (λ _. invalid_custom_matrix)
          (invert
            (sub_matrix (vandermonde_matrix total_shards data_shards) 0 0 data_shards data_shards))
    map_err (λ _. invalid_custom_matrix)
        (multiply (vandermonde_matrix total_shards data_shards) top_inverted)

  -- The cells of one parity row of the Cauchy matrix.
  unfoldable pub cauchy_cell : ℕ → ℕ → Matrix A → Result Error (Matrix A)
  cauchy_cell r c result = do
    let denominator = F.add (nth r) (nth c)
    fail_if (F.eq denominator F.zero) invalid_custom_matrix
    ok (set result r c (F.div F.one denominator))

  unfoldable pub build_cauchy_matrix : ℕ → ℕ → Result Error (Matrix A)
  unfolding cauchy_cell
  build_cauchy_matrix data_shards total_shards =
      try_range 0 total_shards
        (λ r result.
          if ltb r data_shards
          then ok (set result r r F.one)
          else try_range 0 data_shards (cauchy_cell r) result)
        (new_matrix total_shards data_shards)

  any_short : ℕ → List (List A) → Bool
  any_short data_shards [] = false
  any_short data_shards (row ∷ rows) = ltb (length row) data_shards || any_short data_shards rows

  unfoldable pub build_custom_matrix : ℕ → ℕ → List (List A) → Result Error (Matrix A)
  unfolding any_short
  build_custom_matrix data_shards total_shards custom_matrix = do
    let parity_shards = total_shards - data_shards
    fail_if (ltb (length custom_matrix) parity_shards) invalid_custom_matrix
    fail_if (any_short data_shards (take parity_shards custom_matrix)) invalid_custom_matrix
    let diagonal =
        for_range 0 data_shards (λ row result. set result row row F.one)
          (new_matrix total_shards data_shards)
    ok (
        for_range 0 parity_shards
          (λ offset result.
            for_range 0 data_shards
              (λ col result.
                set result (data_shards + offset) col
                  (get_or (get_or custom_matrix offset []) col F.zero))
              result)
          diagonal)

  -- `while r < total_shards && vm.get(r, i) == 0`, with `n` rows left.
  unfoldable pub first_nonzero_row : ℕ → ℕ → ℕ → Matrix A → ℕ
  first_nonzero_row zero i r vm = r
  first_nonzero_row (suc n) i r vm =
      let rest = first_nonzero_row n i (r + 1) vm in if F.eq (get vm r i) F.zero then rest else r

  -- Multiply the rows `lo .. hi` of a column, and the columns `0 .. cols` of a row.
  unfoldable pub scale_col : ℕ → ℕ → ℕ → A → Matrix A → Matrix A
  scale_col lo hi col scale vm =
      for_range lo hi (λ row vm. set vm row col (F.mul (get vm row col) scale)) vm

  unfoldable pub add_scaled_col : ℕ → ℕ → ℕ → A → Matrix A → Matrix A
  add_scaled_col total_shards i j value vm =
      for_range 0 total_shards
        (λ row vm. set vm row j (F.add (get vm row j) (F.mul value (get vm row i)))) vm

  unfoldable pub scale_row_by : ℕ → ℕ → A → Matrix A → Matrix A
  scale_row_by row cols scale vm =
      for_range 0 cols (λ col vm. set vm row col (F.mul (get vm row col) scale)) vm

  -- One round of the loop over the columns. A row that is not found panics in `swap_rows`.
  unfoldable pub jerasure_column : ℕ → ℕ → ℕ → Matrix A → Result Failure (Matrix A)
  unfolding first_nonzero_row scale_col
  jerasure_column data_shards total_shards i vm = do
    let r = first_nonzero_row (total_shards - i) i i vm
    fail_if (leb total_shards r) panicked
    let vm = swap_rows vm r i
    let diagonal = get vm i i
    fail_if (F.eq diagonal F.zero) (returned invalid_custom_matrix)
    let scale = if F.eq diagonal F.one then F.one else F.div F.one diagonal
    let vm = if F.eq scale F.one then vm else scale_col 0 total_shards i scale vm
    ok (
        for_range 0 data_shards
          (λ j vm.
            if not (j == i) && not (F.eq (get vm i j) F.zero)
            then add_scaled_col total_shards i j (get vm i j) vm
            else vm)
          vm)

  -- The first parity row becomes ones, and then the first column of the later ones.
  unfoldable pub jerasure_first_row : ℕ → ℕ → ℕ → Matrix A → Result Failure (Matrix A)
  unfolding scale_col
  jerasure_first_row data_shards total_shards j vm = do
    let value = get vm data_shards j
    fail_if (F.eq value F.zero) (returned invalid_custom_matrix)
    ok (
        if F.eq value F.one
        then vm
        else scale_col data_shards total_shards j (F.div F.one value) vm)

  unfoldable pub jerasure_first_column : ℕ → ℕ → Matrix A → Result Failure (Matrix A)
  unfolding scale_row_by
  jerasure_first_column data_shards row vm = do
    let value = get vm row 0
    fail_if (F.eq value F.zero) (returned invalid_custom_matrix)
    ok (if F.eq value F.one then vm else scale_row_by row data_shards (F.div F.one value) vm)

  unfoldable pub build_jerasure_like_matrix : ℕ → ℕ → Result Failure (Matrix A)
  unfolding jerasure_column jerasure_first_row jerasure_first_column
  build_jerasure_like_matrix data_shards total_shards = do
    let vm = vandermonde_matrix total_shards data_shards
    let vm = set vm 0 0 F.one
    let vm = for_range 1 data_shards (λ i vm. set vm 0 i F.zero) vm
    let vm = for_range 0 (data_shards - 1) (λ i vm. set vm (total_shards - 1) i F.zero) vm
    let vm = set vm (total_shards - 1) (data_shards - 1) F.one
    vm ← try_range 0 data_shards (jerasure_column data_shards total_shards) vm
    vm ← try_range 0 data_shards (jerasure_first_row data_shards total_shards) vm
    try_range (data_shards + 1) total_shards (jerasure_first_column data_shards) vm

  -- The match on the matrix mode, after the test of the family.
  unfoldable pub matrix_by_mode : CodecFamily → MatrixMode → ℕ → ℕ → Result Failure (Matrix A)
  unfolding build_matrix build_cauchy_matrix build_jerasure_like_matrix
  matrix_by_mode classic vandermonde data_shards total_shards =
      lift (build_matrix data_shards total_shards)
  matrix_by_mode classic cauchy data_shards total_shards =
      lift (build_cauchy_matrix data_shards total_shards)
  matrix_by_mode classic jerasure_like data_shards total_shards =
      build_jerasure_like_matrix data_shards total_shards
  matrix_by_mode classic custom data_shards total_shards = err (returned invalid_custom_matrix)
  matrix_by_mode leopard_gf8 mode data_shards total_shards = err (returned unsupported_codec_family)
  matrix_by_mode leopard_gf16 mode data_shards total_shards =
      err (returned unsupported_codec_family)
