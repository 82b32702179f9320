-- ===== src/Codec/State.antt =====
-- The codec object `ReedSolomon` of src/core/mod.rs, with the family state of src/core/leopard.rs
-- and the row views of src/core/codec.rs. The policy cache, the cache of decode matrices and the
-- metrics are not part of the model.
use reed_solomon_erasure.Base.{
  Option, some, none, ℕ, ◌+◌, ◌-◌, ◌&&◌, ◌||◌, Bool, true, false, List, ◌==◌, tabulate, for_range,
  Result, ok, err, ◌>>=◌, ◌>>◌,
}
use reed_solomon_erasure.Errors.{
  Error, Failure, unsupported_codec_family, unsupported_leopard_prototype,
}
use reed_solomon_erasure.Field.{Field}
use reed_solomon_erasure.Matrix.{Matrix, get, get_row, new, set}
use reed_solomon_erasure.Codec.Options.{
  CodecFamily, classic, leopard_gf8, leopard_gf16, CodecOptions,
}
use reed_solomon_erasure.Codec.Family.{saturating_add, validate_leopard_gf8}

pub record LeopardGf8Codec {ℓ} (A : Type ℓ) : Type ℓ where
  pub data_shards : ℕ
  pub parity_shards : ℕ
  pub total_shards : ℕ
  pub setup_rows : ℕ
  pub setup_cols : ℕ
  pub parity_rows : List (List A)

pub data FamilyState {ℓ} (A : Type ℓ) : Type ℓ where
  classic_state : FamilyState A
  leopard_gf8_state : LeopardGf8Codec A → FamilyState A
  leopard_gf16_state : FamilyState A

pub record ReedSolomon {ℓ} (A : Type ℓ) : Type ℓ where
  pub data_shard_count : ℕ
  pub parity_shard_count : ℕ
  pub total_shard_count : ℕ
  pub codec_family : CodecFamily
  pub family_state : FamilyState A
  pub matrix : Matrix A
  pub options : CodecOptions

-- The rows `lo .. hi` of a matrix.
unfoldable pub rows_between {ℓ} : {A : Type ℓ} → Matrix A → ℕ → ℕ → List (List A)
unfolding tabulate
rows_between m lo hi = tabulate lo (hi - lo) (get_row m)

module _ {ℓ} {A : Type ℓ} where
  unfoldable pub get_parity_rows : ReedSolomon A → List (List A)
  unfolding rows_between
  get_parity_rows codec = rows_between codec.matrix codec.data_shard_count codec.total_shard_count

  unfoldable pub is_leopard_gf8_family : ReedSolomon A → Bool
  is_leopard_gf8_family codec = elim codec.family_state [ leopard_gf8_state s ↦ true | _ ↦ false ]

  unfoldable pub is_leopard_gf16_family : ReedSolomon A → Bool
  is_leopard_gf16_family codec = elim codec.family_state [ leopard_gf16_state ↦ true | _ ↦ false ]

  unfoldable pub is_leopard_family : ReedSolomon A → Bool
  unfolding is_leopard_gf8_family is_leopard_gf16_family
  is_leopard_family codec = is_leopard_gf8_family codec || is_leopard_gf16_family codec

  -- Every family passes.
  unfoldable pub ensure_classic_family_execution : ReedSolomon A → Result Failure (Unit {0})
  ensure_classic_family_execution codec = elim codec.family_state [
    | classic_state ↦ ok tt
    | leopard_gf8_state s ↦ ok tt
    | leopard_gf16_state ↦ ok tt
  ]

  unfoldable pub fast_one_parity_enabled : ReedSolomon A → Bool
  fast_one_parity_enabled codec = codec.options.fast_one_parity && (codec.parity_shard_count == 1)

  unfoldable pub get_leopard_gf8_state : FamilyState A → Result Error (LeopardGf8Codec A)
  get_leopard_gf8_state (leopard_gf8_state s) = ok s
  get_leopard_gf8_state classic_state = err unsupported_codec_family
  get_leopard_gf8_state leopard_gf16_state = err unsupported_leopard_prototype

  unfoldable pub leopard_setup_matrix_shape : ReedSolomon A → Option (ℕ × ℕ)
  unfolding get_leopard_gf8_state
  leopard_setup_matrix_shape codec = elim (get_leopard_gf8_state codec.family_state) [
    | ok s ↦ some (s.setup_rows, s.setup_cols)
    | err e ↦ none
  ]

module _ {ℓ} {A : Type ℓ} ⦃F : Field A⦄ where
  unfoldable pub new_leopard_gf8_codec : ℕ → ℕ → Matrix A → Result Error (LeopardGf8Codec A)
  unfolding validate_leopard_gf8 rows_between
  new_leopard_gf8_codec data_shards parity_shards setup_matrix = do
    validate_leopard_gf8 F
    ok (record {
      data_shards = data_shards;
      parity_shards = parity_shards;
      total_shards = saturating_add data_shards parity_shards;
      setup_rows = setup_matrix.row_count;
      setup_cols = setup_matrix.col_count;
      parity_rows = rows_between setup_matrix data_shards (data_shards + parity_shards);
    })

  -- The copy of the setup matrix, cell by cell.
  unfoldable pub copy_matrix : Matrix A → Matrix A
  unfolding new set get
  copy_matrix m =
      for_range 0 m.row_count
        (λ row matrix.
          for_range 0 m.col_count (λ col matrix. set matrix row col (get m row col)) matrix)
        (new m.row_count m.col_count)

  unfoldable pub build_family_state : CodecFamily → ℕ → ℕ → Matrix A → Result Error (FamilyState A)
  unfolding new_leopard_gf8_codec copy_matrix
  build_family_state classic data_shards parity_shards setup_matrix = ok classic_state
  build_family_state leopard_gf8 data_shards parity_shards setup_matrix =
      new_leopard_gf8_codec data_shards parity_shards (copy_matrix setup_matrix) >>= λ s.
      ok (leopard_gf8_state s)
  build_family_state leopard_gf16 data_shards parity_shards setup_matrix = ok leopard_gf16_state
