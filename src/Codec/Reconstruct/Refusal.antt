-- ===== src/Codec/Reconstruct/Refusal.antt =====
-- The errors of `reconstruct_internal` in src/core/reconstruct.rs before it changes a shard.
use reed_solomon_erasure.Base.{
  ℕ, ◌+◌, ◌<◌, ◌≤◌, ◌≡◌, refl, arith, Bool, List, length, lt→ltb, ne→==, Option, none, err, inl,
}
use reed_solomon_erasure.Errors.{Error, Failure, returned}
use reed_solomon_erasure.Errors
use reed_solomon_erasure.Field.{Field}
use reed_solomon_erasure.Matrix.{Matrix}
use reed_solomon_erasure.Codec.State.{ReedSolomon}
use reed_solomon_erasure.Codec.Checks.{check_piece_count_iff}
use reed_solomon_erasure.Codec.Slots.{ReconstructShard}
use reed_solomon_erasure.Codec.Reconstruct.{reconstruct_internal, after_count}
use reed_solomon_erasure.Codec.Reconstruct.Sorting.{IsDamaged}
use reed_solomon_erasure.Codec.Reconstruct.Gather.{count_present-IsDamaged}

module _ {ℓ κ} {A : Type ℓ} ⦃F : Field A⦄ {S : Type κ} (R : ReconstructShard A S)
    (codec : ReedSolomon A) (cache : List ℕ → Option (Matrix A)) (data_only : Bool)
    (shards : List S) (all : length shards ≡ codec.total_shard_count) where
  -- When fewer shards than the codec's data shards are present, all of one non-zero length and of the
  -- codec's number with the lost ones, `reconstruct_internal` returns TooFewShardsPresent and leaves
  -- the shards as they were.
  pub reconstruct_internal-too_few :
      (len : ℕ) (content : ℕ → List A) (n : ℕ)
      → 0 < len
      → codec.data_shard_count ≤ codec.total_shard_count
      → IsDamaged R len content 0 n shards
      → n < codec.data_shard_count
      → reconstruct_internal R codec cache shards data_only
        ≡ (shards, err (returned Errors.too_few_shards_present))
  unfolding reconstruct_internal after_count
  reconstruct_internal-too_few len content n some_len fits damaged few =
      let counted =
        (check_piece_count_iff codec.total_shard_count (length shards) Errors.too_few_shards
            Errors.too_many_shards).1
          all in
      let (found, run, size) =
        count_present-IsDamaged R len content some_len 0 n 0 none shards (inl refl)
          (λ p. absurd (omega arith)) damaged in
      let zero_add : 0 + n ≡ n = omega arith in
      rw
        (
          counted,
          run,
          zero_add,
          ne→== n codec.total_shard_count (omega arith),
          lt→ltb n codec.data_shard_count few,
          reconstruct_internal,
          after_count,
        )
        refl
