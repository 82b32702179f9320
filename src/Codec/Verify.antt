-- ===== src/Codec/Verify.antt =====
-- src/core/verify.rs: verification of the parity shards by coding the data again, in the serial
-- form without a caller's buffer.
pub mod Check
pub mod RoundTrip
use reed_solomon_erasure.Base.{
  ℕ, zero, suc, ◌+◌, ◌-◌, ◌*◌, Bool, true, false, ◌&&◌, ◌||◌, List, [], ◌∷◌, length, get_or, take,
  drop, replicate, ◌==◌, if◌then◌else◌, Result, ok, err, ◌>>=◌, ◌>>◌,
}
use reed_solomon_erasure.Errors.{Failure, panicked}
use reed_solomon_erasure.Field.{Field}
use reed_solomon_erasure.Codec.State.{
  ReedSolomon, get_parity_rows, is_leopard_gf8_family, is_leopard_gf16_family,
  fast_one_parity_enabled, ensure_classic_family_execution,
}
use reed_solomon_erasure.Codec.Checks.{check_multi, check_all, first_length}
use reed_solomon_erasure.Codec.Coding.{code_some_slices, encode_fast_one_parity}
use reed_solomon_erasure.Codec.Encode.{LeopardCoders}

module _ {ℓ} {A : Type ℓ} ⦃F : Field A⦄ where
  -- Equality of two slices.
  unfoldable pub slice_eq : List A → List A → Bool
  slice_eq [] [] = true
  slice_eq [] (b ∷ bs) = false
  slice_eq (a ∷ rs) [] = false
  slice_eq (a ∷ rs) (b ∷ bs) = F.eq a b && slice_eq rs bs

  -- `for (expected, actual) in buffer.iter().zip(to_check.iter())`.
  unfoldable pub all_match : List (List A) → List (List A) → Bool
  unfolding slice_eq
  all_match [] to_check = true
  all_match (expected ∷ buffer) [] = true
  all_match (expected ∷ buffer) (actual ∷ to_check) =
      let rest = all_match buffer to_check in if slice_eq expected actual then rest else false

  unfoldable pub check_some_slices_with_buffer :
      ℕ → List (List A) → List (List A) → List (List A) → List (List A) → Result Failure Bool
  unfolding all_match
  check_some_slices_with_buffer data_shard_count matrix_rows inputs to_check buffer = do
    buffer ← code_some_slices data_shard_count matrix_rows inputs buffer
    ok (all_match buffer to_check)

  unfoldable pub verify_leopard_with_buffer :
      LeopardCoders A → ReedSolomon A → List (List A) → List (List A) → Result Failure Bool
  unfolding all_match
  verify_leopard_with_buffer leopard codec slices parity = do
    let encode =
        if is_leopard_gf8_family codec
        then leopard.leopard_gf8_encode
        else leopard.leopard_gf16_encode
    parity ←
        encode codec.data_shard_count codec.parity_shard_count (take codec.data_shard_count slices)
          parity
    ok (all_match parity (drop codec.data_shard_count slices))

  -- The parity buffers, as many as the codec has parity shards, filled with zero.
  unfoldable pub zero_buffers : ReedSolomon A → ℕ → List (List A)
  zero_buffers codec slice_len = replicate codec.parity_shard_count (replicate slice_len F.zero)

  -- The choice in `verify` after the checks.
  unfoldable pub verify_family :
      LeopardCoders A → ReedSolomon A → List (List A) → Result Failure Bool
  unfolding verify_leopard_with_buffer zero_buffers check_some_slices_with_buffer slice_eq
  verify_family leopard codec slices =
      let slice_len = first_length slices in
      let inputs = take codec.data_shard_count slices in
      let to_check = drop codec.data_shard_count slices in
      if is_leopard_gf8_family codec || is_leopard_gf16_family codec
      then verify_leopard_with_buffer leopard codec slices (zero_buffers codec slice_len)
      else if fast_one_parity_enabled codec
      then encode_fast_one_parity inputs (replicate slice_len F.zero ∷ [])
        >>= (λ buffer. ok (slice_eq (get_or buffer 0 []) (get_or to_check 0 [])))
      else check_some_slices_with_buffer codec.data_shard_count (get_parity_rows codec) inputs
          to_check (zero_buffers codec slice_len)

  unfoldable pub verify : LeopardCoders A → ReedSolomon A → List (List A) → Result Failure Bool
  unfolding verify_family
  verify leopard codec slices = do
    ensure_classic_family_execution codec
    check_all codec.total_shard_count (length slices)
    check_multi slices
    verify_family leopard codec slices
