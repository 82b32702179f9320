-- ===== src/Codec/Update.antt =====
-- `update` of src/core/encode.rs and its helper `update_parity_with_delta`. The result is the parity
-- that the call leaves; an index out of range and a failed assertion on lengths are `panicked`.
pub mod Product
pub mod Reencode
use reed_solomon_erasure.Base.{
  ℕ, zero, suc, Bool, true, false, ◌||◌, not, Option, none, some, List, [], ◌∷◌, length, get_elem?,
  replicate, zip_with, ◌==◌, if◌then◌else◌, Result, ok, err, ◌>>=◌, ◌>>◌, fail_if,
}
use reed_solomon_erasure.Errors.{Failure, returned, panicked}
use reed_solomon_erasure.Errors
use reed_solomon_erasure.Field.{Field, write_zip}
use reed_solomon_erasure.Codec.State.{
  ReedSolomon, get_parity_rows, is_leopard_gf8_family, is_leopard_gf16_family,
  ensure_classic_family_execution, fast_one_parity_enabled,
}
use reed_solomon_erasure.Codec.Checks.{check_data, check_parity, check_multi_multi}
use reed_solomon_erasure.Codec.Coding.{or_panic, first_len}

module _ {ℓ} {A : Type ℓ} where
  -- The loop that compares the lengths of the changed shards.
  unfoldable pub check_new_lens : ℕ → List (Option (List A)) → Result Failure (Unit {0})
  check_new_lens shard_len [] = ok tt
  check_new_lens shard_len (none ∷ new_data) = check_new_lens shard_len new_data
  check_new_lens shard_len (some new ∷ new_data) =
      fail_if (not (length new == shard_len)) (returned Errors.incorrect_shard_size) >>= λ _.
      check_new_lens shard_len new_data

module _ {ℓ} {A : Type ℓ} ⦃F : Field A⦄ where
  unfoldable pub update_parity_with_delta :
      List (List A) → ℕ → List A → List (List A) → Result Failure (List (List A))
  update_parity_with_delta matrix_rows i_input delta [] = ok []
  update_parity_with_delta [] i_input delta (output ∷ outputs) = err panicked
  update_parity_with_delta (row ∷ matrix_rows) i_input delta (output ∷ outputs) = do
    coefficient ← or_panic (get_elem? row i_input)
    output' ← or_panic (F.mul_slice_add coefficient delta output)
    outputs' ← update_parity_with_delta matrix_rows i_input delta outputs
    ok (output' ∷ outputs')

  -- The loop over the data shards, from index `i_data` on.
  unfoldable pub update_rounds :
      List (List A)
      → ℕ
      → List A
      → List (List A)
      → List (Option (List A))
      → List (List A)
      → Result Failure (List (List A))
  unfolding write_zip update_parity_with_delta
  update_rounds parity_rows i_data delta [] new_data parity = ok parity
  update_rounds parity_rows i_data delta (old ∷ old_data) [] parity = ok parity
  update_rounds parity_rows i_data delta (old ∷ old_data) (none ∷ new_data) parity =
      update_rounds parity_rows (suc i_data) delta old_data new_data parity
  update_rounds parity_rows i_data delta (old ∷ old_data) (some new ∷ new_data) parity =
      update_parity_with_delta parity_rows i_data
        (write_zip (λ slot value. value) (zip_with F.add old new) delta) parity
      >>= λ parity'.
          update_rounds parity_rows (suc i_data)
            (write_zip (λ slot value. value) (zip_with F.add old new) delta) old_data new_data
            parity'

  -- The loop over the data shards when there is one parity shard and the fast path is on.
  unfoldable pub update_fast : List (List A) → List (Option (List A)) → List A → List A
  unfolding write_zip
  update_fast [] new_data parity = parity
  update_fast (old ∷ old_data) [] parity = parity
  update_fast (old ∷ old_data) (none ∷ new_data) parity = update_fast old_data new_data parity
  update_fast (old ∷ old_data) (some new ∷ new_data) parity =
      update_fast old_data new_data
        (write_zip (λ dst value. F.add dst value) (zip_with F.add old new) parity)

  -- What follows the checks.
  unfoldable pub update_checked :
      ReedSolomon A
      → ℕ
      → List (List A)
      → List (Option (List A))
      → List (List A)
      → Result Failure (List (List A))
  unfolding update_fast update_rounds
  update_checked codec shard_len old_data new_data [] =
      if fast_one_parity_enabled codec
      then err panicked
      else update_rounds (get_parity_rows codec) 0 (replicate shard_len F.zero) old_data new_data []
  update_checked codec shard_len old_data new_data (output ∷ parity) =
      if fast_one_parity_enabled codec
      then ok (update_fast old_data new_data output ∷ parity)
      else update_rounds (get_parity_rows codec) 0 (replicate shard_len F.zero) old_data new_data
          (output ∷ parity)

  unfoldable pub update :
      ReedSolomon A
      → List (List A)
      → List (Option (List A))
      → List (List A)
      → Result Failure (List (List A))
  unfolding check_new_lens update_checked
  update codec old_data new_data parity = do
    fail_if (is_leopard_gf8_family codec || is_leopard_gf16_family codec)
        (returned Errors.unsupported_codec_family)
    ensure_classic_family_execution codec
    check_data codec.data_shard_count (length old_data)
    check_parity codec.parity_shard_count (length parity)
    fail_if (not (length new_data == codec.data_shard_count)) (returned Errors.too_few_data_shards)
    check_multi_multi old_data parity
    fail_if (length old_data == 0) (returned Errors.too_few_data_shards)
    fail_if (first_len old_data == 0) (returned Errors.empty_shard)
    check_new_lens (first_len old_data) new_data
    update_checked codec (first_len old_data) old_data new_data parity
