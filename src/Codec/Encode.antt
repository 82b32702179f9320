-- ===== src/Codec/Encode.antt =====
-- The entry points of src/core/encode.rs: encode, encode_sep, encode_single, encode_single_sep and
-- encode_single_opt, on a build without the SIMD code generation features. A call returns the shards it leaves.
pub mod Product
pub mod Refusal
pub mod Total
use reed_solomon_erasure.Base.{
  ℕ, zero, suc, ◌+◌, ◌-◌, ◌*◌, ◌<◌, Bool, true, false, ◌&&◌, ◌||◌, not, Option, some, none, List,
  [], ◌∷◌, ◌++◌, length, zip_with, get_elem?, take, drop, replicate, ltb, ◌==◌, if◌then◌else◌,
  Result, ok, err, ◌>>=◌, ◌>>◌, fail_if,
}
use reed_solomon_erasure.Errors.{Error, Failure, returned, panicked}
use reed_solomon_erasure.Errors
use reed_solomon_erasure.Field.{Field, write_zip}
use reed_solomon_erasure.Codec.State.{
  ReedSolomon, get_parity_rows, is_leopard_gf8_family, is_leopard_gf16_family, is_leopard_family,
  fast_one_parity_enabled, ensure_classic_family_execution,
}
use reed_solomon_erasure.Codec.Checks.{
  check_multi, check_multi_multi, check_multi_single, check_slice_index, check_all, check_data,
  check_parity, first_length,
}
use reed_solomon_erasure.Codec.Coding.{
  or_panic, first_len, code_some_slices, code_single_slice, encode_fast_one_parity,
}

-- `leopard_gf8_encode` and `leopard_gf16_encode`, whose transforms are not modelled: from the
-- counts, the data and the parity shards to the new parity shards.
pub record LeopardCoders {ℓ} (A : Type ℓ) : Type ℓ where
  pub leopard_gf8_encode : ℕ → ℕ → List (List A) → List (List A) → Result Failure (List (List A))
  pub leopard_gf16_encode : ℕ → ℕ → List (List A) → List (List A) → Result Failure (List (List A))

module _ {ℓ} {A : Type ℓ} ⦃F : Field A⦄ where
  -- Without a code generation feature the attempt reports that it did nothing.
  unfoldable pub try_encode_codegen : ReedSolomon A → List (List A) → List (List A) → ℕ → Bool
  try_encode_codegen codec data_slices parity shard_len = false

  -- The choice of the coder in `encode_sep`, after the checks.
  unfoldable pub encode_family :
      LeopardCoders A
      → ReedSolomon A
      → List (List A)
      → List (List A)
      → Result Failure (List (List A))
  unfolding try_encode_codegen
  encode_family leopard codec data_slices parity =
      if is_leopard_gf8_family codec
      then leopard.leopard_gf8_encode codec.data_shard_count codec.parity_shard_count data_slices
          parity
      else if is_leopard_gf16_family codec
      then leopard.leopard_gf16_encode codec.data_shard_count codec.parity_shard_count data_slices
          parity
      else if fast_one_parity_enabled codec
      then encode_fast_one_parity data_slices parity
      else if (F.elem_size == 1)
          && (ltb 0 (first_len data_slices)
              && try_encode_codegen codec data_slices parity (first_len data_slices))
      then ok parity
      else code_some_slices codec.data_shard_count (get_parity_rows codec) data_slices parity

  unfoldable pub encode_sep :
      LeopardCoders A
      → ReedSolomon A
      → List (List A)
      → List (List A)
      → Result Failure (List (List A))
  unfolding encode_family
  encode_sep leopard codec data_slices parity = do
    check_data codec.data_shard_count (length data_slices)
    check_parity codec.parity_shard_count (length parity)
    check_multi_multi data_slices parity
    encode_family leopard codec data_slices parity

  -- The result holds the data shards, which are only read, and the new parity shards.
  unfoldable pub encode :
      LeopardCoders A → ReedSolomon A → List (List A) → Result Failure (List (List A))
  unfolding encode_sep
  encode leopard codec slices = do
    check_all codec.total_shard_count (length slices)
    check_multi slices
    parity ←
        encode_sep leopard codec (take codec.data_shard_count slices)
          (drop codec.data_shard_count slices)
    ok (take codec.data_shard_count slices ++ parity)

  unfoldable pub encode_single_sep :
      ReedSolomon A → ℕ → List A → List (List A) → Result Failure (List (List A))
  encode_single_sep codec i_data single_data parity = do
    fail_if (is_leopard_gf8_family codec || is_leopard_gf16_family codec)
        (returned Errors.unsupported_codec_family)
    check_slice_index codec.data_shard_count i_data
    check_parity codec.parity_shard_count (length parity)
    check_multi_single parity single_data
    code_single_slice (get_parity_rows codec) i_data single_data parity

  unfoldable pub encode_single : ReedSolomon A → ℕ → List (List A) → Result Failure (List (List A))
  unfolding encode_single_sep
  encode_single codec i_data slices = do
    fail_if (is_leopard_gf8_family codec || is_leopard_gf16_family codec)
        (returned Errors.unsupported_codec_family)
    check_slice_index codec.data_shard_count i_data
    check_all codec.total_shard_count (length slices)
    check_multi slices
    input ← or_panic (get_elem? (take codec.data_shard_count slices) i_data)
    parity ← encode_single_sep codec i_data input (drop codec.data_shard_count slices)
    ok (take codec.data_shard_count slices ++ parity)

  -- The decision of the parallel policy is taken to be serial.
  unfoldable pub encode_single_opt :
      ReedSolomon A → ℕ → List (List A) → Result Failure (List (List A))
  encode_single_opt codec i_data slices = do
    check_slice_index codec.data_shard_count i_data
    check_all codec.total_shard_count (length slices)
    check_multi slices
    input ← or_panic (get_elem? (take codec.data_shard_count slices) i_data)
    parity ←
        code_single_slice (get_parity_rows codec) i_data input (drop codec.data_shard_count slices)
    ok (take codec.data_shard_count slices ++ parity)
