-- ===== src/Errors.antt =====
-- src/errors.rs: the errors of the codec and of the shard-by-shard encoder.
use reed_solomon_erasure.Base.{Result, ok, err}

pub data Error : Type 0 where
  too_few_shards too_many_shards too_few_data_shards too_many_data_shards : Error
  too_few_parity_shards too_many_parity_shards too_few_buffer_shards : Error
  too_many_buffer_shards incorrect_shard_size too_few_shards_present empty_shard : Error
  invalid_shard_flags invalid_index invalid_custom_matrix unsupported_codec_family : Error
  unsupported_leopard_prototype : Error

pub data SbsError : Type 0 where
  too_many_calls leftover_shards : SbsError
  rs_error : Error → SbsError

-- How a call can end without a result: it returns an error, or it panics.
pub data Failure : Type 0 where
  returned : Error → Failure
  panicked : Failure

-- The result of a part that cannot panic.
abbrev pub lift {ℓ} : {A : Type ℓ} → Result Error A → Result Failure A
lift (ok a) = ok a
lift (err e) = err (returned e)
