-- ===== src/Codec/Decode.antt =====
-- The data stage of src/core/reconstruct.rs: `get_data_decode_matrix` and the step of
-- `reconstruct_internal` that codes the missing data shards from the shards that are present.
pub mod Recovery
use reed_solomon_erasure.Base.{
  ℕ, zero, suc, ◌+◌, ◌-◌, Bool, true, false, ◌&&◌, not, Option, some, none, List, [], ◌∷◌, map,
  length, get_or, ltb, ◌==◌, if◌then◌else◌, for_range, Result, ok, err, ◌>>=◌, ◌>>◌, fail_if,
  map_err,
}
use reed_solomon_erasure.Errors.{Error, Failure, too_few_shards_present, invalid_custom_matrix}
use reed_solomon_erasure.Field.{Field}
use reed_solomon_erasure.Matrix.{Matrix, get, set, new, get_row, invert}
use reed_solomon_erasure.Codec.State.{ReedSolomon}
use reed_solomon_erasure.Codec.Coding.{code_some_slices}

-- `.take_while(..)`.
unfoldable pub take_while {ℓ} : {A : Type ℓ} → (A → Bool) → List A → List A
take_while test [] = []
take_while test (x ∷ xs) = if test x then x ∷ take_while test xs else []

module _ {ℓ} {A : Type ℓ} ⦃F : Field A⦄ where
  -- The rows of the coding matrix that belong to the shards at hand.
  unfoldable pub decode_sub_matrix : ReedSolomon A → List ℕ → Matrix A
  decode_sub_matrix codec valid_indices =
      for_range 0 (length valid_indices)
        (λ sub_matrix_row sub_matrix.
          for_range 0 codec.data_shard_count
            (λ c sub_matrix.
              set sub_matrix sub_matrix_row c
                (get codec.matrix (get_or valid_indices sub_matrix_row 0) c))
            sub_matrix)
        (new codec.data_shard_count codec.data_shard_count)

  -- `cached` is what the LRU cache answers for the invalid indices.
  unfoldable pub get_data_decode_matrix :
      ReedSolomon A → Option (Matrix A) → List ℕ → Result Error (Matrix A)
  unfolding decode_sub_matrix
  get_data_decode_matrix codec cached valid_indices = do
    fail_if (not (length valid_indices == codec.data_shard_count)) too_few_shards_present
    elim (if codec.options.inversion_cache then cached else none) [
      | some entry ↦ ok entry
      | none ↦ map_err (λ _. invalid_custom_matrix) (invert (decode_sub_matrix codec valid_indices))
    ]

  unfoldable pub missing_data_indices : ReedSolomon A → List ℕ → List ℕ
  unfolding take_while
  missing_data_indices codec invalid_indices =
      take_while (λ i. ltb i codec.data_shard_count) invalid_indices

  -- The first call of `code_some_slices`, which fills the missing data shards.
  unfoldable pub reconstruct_data_stage :
      ReedSolomon A
      → Matrix A
      → List ℕ
      → List (List A)
      → List (List A)
      → Result Failure (List (List A))
  unfolding missing_data_indices
  reconstruct_data_stage codec data_decode_matrix invalid_indices sub_shards missing_data_slices =
      code_some_slices codec.data_shard_count
        (map (get_row data_decode_matrix) (missing_data_indices codec invalid_indices)) sub_shards
        missing_data_slices
