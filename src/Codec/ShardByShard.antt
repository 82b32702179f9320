-- ===== src/Codec/ShardByShard.antt =====
-- src/core/shard_by_shard.rs: the bookkeeper that feeds the data shards to the encoder one by one.
-- The state is the index of the next shard; the codec it borrows is an argument.
pub mod Refinement
use reed_solomon_erasure.Base.{
  ℕ, zero, suc, ◌+◌, Bool, true, false, ◌&&◌, not, List, length, ltb, get_elem?, ◌==◌,
  if◌then◌else◌, Result, ok, err, ◌>>=◌, ◌>>◌, fail_if, map_err,
}
use reed_solomon_erasure.Errors.{
  SbsError, Failure, returned, panicked, rs_error, too_many_calls, leftover_shards,
}
use reed_solomon_erasure.Field.{Field}
use reed_solomon_erasure.Codec.State.{ReedSolomon}
use reed_solomon_erasure.Codec.Checks.{
  check_multi, check_multi_multi, check_all, check_data, check_parity,
}
use reed_solomon_erasure.Codec.Coding.{or_panic}
use reed_solomon_erasure.Codec.Encode.{encode_single, encode_single_sep}

-- How a call can end without a result.
pub data SbsFailure : Type 0 where
  sbs_returned : SbsError → SbsFailure
  sbs_panicked : SbsFailure

-- `SBSError::RSError`, with a panic passed on.
unfoldable pub wrap : Failure → SbsFailure
wrap (returned e) = sbs_returned (rs_error e)
wrap panicked = sbs_panicked

pub record ShardByShard : Type 0 where
  pub cur_input : ℕ

unfoldable pub new_sbs : ShardByShard
new_sbs = record { cur_input = 0 }

unfoldable pub parity_ready {ℓ} : {A : Type ℓ} → ReedSolomon A → ShardByShard → Bool
parity_ready codec s = s.cur_input == codec.data_shard_count

unfoldable pub reset {ℓ} :
    {A : Type ℓ} → ReedSolomon A → ShardByShard → Result SbsError ShardByShard
unfolding parity_ready
reset codec s = do
  fail_if (ltb 0 s.cur_input && not (parity_ready codec s)) leftover_shards
  ok (record { cur_input = 0 })

unfoldable pub reset_force : ShardByShard → ShardByShard
reset_force s = record { cur_input = 0 }

unfoldable pub cur_input_index : ShardByShard → ℕ
cur_input_index s = s.cur_input

unfoldable pub incre_cur_input : ShardByShard → ShardByShard
incre_cur_input s = record { cur_input = s.cur_input + 1 }

module _ {ℓ} {A : Type ℓ} where
  unfoldable pub sbs_encode_checks :
      ReedSolomon A → ShardByShard → List (List A) → Result SbsFailure (Unit {0})
  unfolding parity_ready
  sbs_encode_checks codec s slices = do
    fail_if (parity_ready codec s) (sbs_returned too_many_calls)
    map_err wrap (check_all codec.total_shard_count (length slices) >>= λ _. check_multi slices)

  unfoldable pub sbs_encode_sep_checks :
      ReedSolomon A → ShardByShard → List (List A) → List (List A) → Result SbsFailure (Unit {0})
  unfolding parity_ready
  sbs_encode_sep_checks codec s data_slices parity = do
    fail_if (parity_ready codec s) (sbs_returned too_many_calls)
    map_err wrap (
        check_data codec.data_shard_count (length data_slices) >>= λ _.
        check_parity codec.parity_shard_count (length parity) >>= λ _.
        check_multi_multi data_slices parity)

module _ {ℓ} {A : Type ℓ} ⦃F : Field A⦄ where
  unfoldable pub sbs_encode :
      ReedSolomon A
      → ShardByShard
      → List (List A)
      → Result SbsFailure (ShardByShard × List (List A))
  unfolding sbs_encode_checks incre_cur_input
  sbs_encode codec s shards = do
    sbs_encode_checks codec s shards
    shards' ← map_err wrap (encode_single codec s.cur_input shards)
    ok (incre_cur_input s, shards')

  unfoldable pub sbs_encode_sep :
      ReedSolomon A
      → ShardByShard
      → List (List A)
      → List (List A)
      → Result SbsFailure (ShardByShard × List (List A))
  unfolding sbs_encode_sep_checks incre_cur_input
  sbs_encode_sep codec s data_slices parity = do
    sbs_encode_sep_checks codec s data_slices parity
    single_data ← map_err wrap (or_panic (get_elem? data_slices s.cur_input))
    parity' ← map_err wrap (encode_single_sep codec s.cur_input single_data parity)
    ok (incre_cur_input s, parity')

  -- `n` calls of `encode_sep` one after another.
  unfoldable pub sbs_calls :
      ℕ
      → ReedSolomon A
      → ShardByShard
      → List (List A)
      → List (List A)
      → Result SbsFailure (ShardByShard × List (List A))
  unfolding sbs_encode_sep
  sbs_calls zero codec s data_slices parity = ok (s, parity)
  sbs_calls (suc n) codec s data_slices parity =
      sbs_encode_sep codec s data_slices parity >>= λ (s', parity').
      sbs_calls n codec s' data_slices parity'
