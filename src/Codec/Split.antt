-- ===== src/Codec/Split.antt =====
-- `split` and `join` of src/core/codec.rs: a buffer as data shards of one length, and back.
pub mod Joined
pub mod RoundTrip
use reed_solomon_erasure.Base.{
  ℕ, zero, suc, ◌+◌, ◌-◌, ◌*◌, min, Bool, true, false, Option, none, some, List, [], ◌∷◌, ◌++◌,
  length, take, replicate, ltb, ◌==◌, if◌then◌else◌, Result, ok, err, ◌>>=◌, ◌>>◌, fail_if,
  try_range,
}
use reed_solomon_erasure.Errors.{Failure, panicked}
use reed_solomon_erasure.Field.{Field}
use reed_solomon_erasure.Codec.State.{ReedSolomon}
use reed_solomon_erasure.Codec.Family.{checked_div_ceil}
use reed_solomon_erasure.Codec.Checks.{check_data, check_multi}
use reed_solomon_erasure.Codec.Coding.{slice, write_slice}

module _ {ℓ} {A : Type ℓ} where
  -- `.map(|shard| shard.len()).sum()`.
  abbrev pub total_len : List (List A) → ℕ
  total_len [] = 0
  total_len (s ∷ shards) = length s + total_len shards

  -- The loop that appends the shards to `result` until it has `target_len` elements.
  unfoldable pub join_shards : ℕ → List A → List (List A) → List A
  join_shards target_len result [] = result
  join_shards target_len result (shard ∷ shards) =
      let rest =
        join_shards target_len
          (result ++ take (min (target_len - length result) (length shard)) shard) shards in
      if target_len - length result == 0 then result else rest

  unfoldable pub join : ReedSolomon A → List (List A) → ℕ → Result Failure (List A)
  unfolding join_shards
  join codec shards out_len = do
    check_data codec.data_shard_count (length shards)
    check_multi shards
    ok (
        take (min out_len (total_len shards))
          (join_shards (min out_len (total_len shards)) [] shards))

unfoldable pub split_len : ℕ → ℕ → Result Failure ℕ
split_len data_shards n = if n == 0 then ok 0 else checked_div_ceil n data_shards

module _ {ℓ} {A : Type ℓ} ⦃F : Field A⦄ where
  -- The round of the loop for shard `i`. A negative difference of bounds would be a panic of `slice`.
  unfoldable pub split_shard : ℕ → List A → ℕ → Result Failure (List A)
  split_shard shard_len data_in i =
      let start = i * shard_len in
      let end = min (start + shard_len) (length data_in) in
      if ltb start (length data_in)
      then (slice data_in start end >>= λ part.
          ok (write_slice (replicate shard_len F.zero) 0 (end - start) part))
      else ok (replicate shard_len F.zero)

  unfoldable pub split : ReedSolomon A → List A → Result Failure (List (List A))
  unfolding split_len split_shard
  split codec data_in = split_len codec.data_shard_count (length data_in) >>= λ shard_len.
      try_range 0 codec.data_shard_count
        (λ i shards. split_shard shard_len data_in i >>= λ shard. ok (shards ++ (shard ∷ []))) []
