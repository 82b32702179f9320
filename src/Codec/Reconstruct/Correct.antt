-- ===== src/Codec/Reconstruct/Correct.antt =====
-- `reconstruct_internal` of src/core/reconstruct.rs as a whole restores the lost shards of a codeword.
use reed_solomon_erasure.Base.{
  ℕ, ◌+◌, ◌<◌, ◌≤◌, ◌≡◌, refl, sym, ◌∙◌, arith, Bool, List, [], length, get_or, le→ltb, ==_iff,
  ne→==, Option, none, some, ok, inl, inr, Bool-cases,
}
use native.Mathlib.Decide.{ℕ_discrete}
use reed_solomon_erasure.Errors.{Failure}
use reed_solomon_erasure.Errors
use reed_solomon_erasure.Field.{Field, FieldLaws}
use reed_solomon_erasure.Field.Sum.{sum}
use reed_solomon_erasure.Matrix.{Matrix, get}
use reed_solomon_erasure.Matrix.Fill.{delta}
use reed_solomon_erasure.Matrix.Invert.{IsInverse}
use reed_solomon_erasure.Codec.Blocks.{IsBlock}
use reed_solomon_erasure.Codec.State.{ReedSolomon}
use reed_solomon_erasure.Codec.Checks.{check_piece_count_iff}
use reed_solomon_erasure.Codec.Encode.Product.{IsClassic}
use reed_solomon_erasure.Codec.Build.Constructed.{IsMds}
use reed_solomon_erasure.Codec.Decode.{decode_sub_matrix, missing_data_indices}
use reed_solomon_erasure.Codec.Slots.{ReconstructShard}
use reed_solomon_erasure.Codec.Reconstruct.{
  Sorted, missing_parity_indices, sort_shards, write_back, after_data_stage, after_sort,
  after_count, reconstruct_internal,
}
use reed_solomon_erasure.Codec.Reconstruct.Indices.{below, from, length-write_back}
use reed_solomon_erasure.Codec.Reconstruct.Sorting.{IsDamaged}
use reed_solomon_erasure.Codec.Reconstruct.Collected.{IsCollected, sort_shards-IsCollected}
use reed_solomon_erasure.Codec.Reconstruct.Gather.{count_present-IsDamaged}
use reed_solomon_erasure.Codec.Reconstruct.Stages.{
  get_data_decode_matrix_total, reconstruct_data_stage-restores, reconstruct_parity_stage-restores,
}
use reed_solomon_erasure.Codec.Reconstruct.Written.{
  IsRestored, all_present, data_written, parity_written,
}

module _ {ℓ κ} {A : Type ℓ} ⦃F : Field A⦄ (L : FieldLaws F) {codec : ReedSolomon A}
    (C : IsClassic codec codec.data_shard_count codec.parity_shard_count)
    (mds : IsMds codec codec.data_shard_count codec.parity_shard_count)
    (identity : (r c : ℕ)
      → r < codec.data_shard_count
      → c < codec.data_shard_count
      → get codec.matrix r c ≡ delta r c)
    {S : Type κ} (R : ReconstructShard A S) {len : ℕ} (some_len : 0 < len) (x : ℕ → ℕ → A)
    (content : List (List A))
    (word : IsBlock
      (codec.data_shard_count + codec.parity_shard_count)
      len
      (λ r j. sum codec.data_shard_count (λ k. F.mul (get codec.matrix r k) (x k j)))
      content)
    (cache : List ℕ → Option (Matrix A)) (data_only : Bool) where
  after_sort-restores :
      (n : ℕ) (shards : List S) (o : Sorted A S)
      → IsCollected R len
          (codec.data_shard_count + codec.parity_shard_count)
          codec.data_shard_count
          data_only
          (λ r. get_or content r [])
          0
          0
          n
          shards
          o
      → length shards ≡ codec.data_shard_count + codec.parity_shard_count
      → codec.data_shard_count ≤ n
      → ((entry : Matrix A)
          → cache o.invalid_indices ≡ some entry
          → IsInverse codec.data_shard_count (decode_sub_matrix codec o.valid_indices) entry)
      → (slots : List S) × (after_sort R codec cache data_only o ≡ (slots, ok tt))
        × (length slots ≡ length shards)
        × IsRestored R codec.data_shard_count
            (codec.data_shard_count + codec.parity_shard_count)
            data_only
            content
            slots
  unfolding after_sort after_data_stage missing_data_indices missing_parity_indices
  after_sort-restores n shards o c all enough sound =
      let d = codec.data_shard_count in
      let total = d + codec.parity_shard_count in
      let (decode, found) =
        get_data_decode_matrix_total L C mds (cache o.invalid_indices) o.valid_indices c.valid
          (omega (arith, c.enough (omega arith))) in
      let (data', run, (count, same)) =
        reconstruct_data_stage-restores L C some_len x content word identity R data_only n shards o
          c enough (cache o.invalid_indices) sound decode found in
      elim (Bool-cases data_only) [
        | inl only ↦ (
          write_back R (below d o.invalid_indices) data' o.slots,
          rw (c.fine, found, run, only, after_sort, after_data_stage) refl,
          length-write_back R (below d o.invalid_indices) data' o.slots ∙ c.slot_count,
          (λ r default p early.
              data_written R len d total data_only content n shards o c all data' count same
                (omega arith) r default (early only)),
        )
        | inr every ↦
            let (parity', parity_run, (parity_count, parity_same)) =
              reconstruct_parity_stage-restores L C some_len x content word identity R data_only n
                shards o c enough data' every count same in
            (
              write_back R (from d o.invalid_indices) parity'
                  (write_back R (below d o.invalid_indices) data' o.slots),
              rw (c.fine, found, run, every, parity_run, after_sort, after_data_stage) refl,
              length-write_back R (from d o.invalid_indices) parity'
                    (write_back R (below d o.invalid_indices) data' o.slots)
                  ∙ (length-write_back R (below d o.invalid_indices) data' o.slots ∙ c.slot_count),
              (λ r default p early.
                  parity_written R len d total data_only content n shards o c all data' count same
                    parity' parity_count parity_same every (omega arith) r default p),
            )
      ]

  -- For a codec of the classic family of which any d rows are independent and whose first rows are
  -- the identity, and for the shards of a codeword (the products of its rows with d data rows, of one
  -- non-zero length) of which at least d are present and each other is lost but can be initialised and
  -- filled: `reconstruct_internal` succeeds, keeps the number of shards, and every shard then holds its row of the codeword; with
  -- `data_only`, every data shard does. If the cache answers for the rows in question, it must
  -- answer with the inverse.
  pub reconstruct_internal-IsRestored :
      (n : ℕ) (shards : List S)
      → length shards ≡ codec.data_shard_count + codec.parity_shard_count
      → IsDamaged R len (λ r. get_or content r []) 0 n shards
      → codec.data_shard_count ≤ n
      → ((entry : Matrix A)
          → cache (sort_shards R codec.data_shard_count data_only len 0 0 shards).invalid_indices
            ≡ some entry
          → IsInverse codec.data_shard_count
              (decode_sub_matrix codec
                (sort_shards R codec.data_shard_count data_only len 0 0 shards).valid_indices)
              entry)
      → (slots : List S) × (reconstruct_internal R codec cache shards data_only ≡ (slots, ok tt))
        × (length slots ≡ length shards)
        × IsRestored R codec.data_shard_count
            (codec.data_shard_count + codec.parity_shard_count)
            data_only
            content
            slots
  unfolding reconstruct_internal after_count
  reconstruct_internal-IsRestored n shards all damaged enough sound =
      let d = codec.data_shard_count in
      let total = d + codec.parity_shard_count in
      let counted =
        (check_piece_count_iff codec.total_shard_count (length shards) Errors.too_few_shards
            Errors.too_many_shards).1
          (all ∙ sym C.total_count) in
      let (found, run, size) =
        count_present-IsDamaged R len (λ r. get_or content r []) some_len 0 n 0 none shards
          (inl refl) (λ p. absurd (omega arith)) damaged in
      let sized : found ≡ some len = size (omega (arith, C.some_data)) in
      let zero_add : 0 + n ≡ n = omega arith in
      elim (ℕ_discrete n codec.total_shard_count) [
        | yes complete ↦ (
          shards,
          rw
              (
                counted,
                run,
                zero_add,
                (==_iff n codec.total_shard_count).1 complete,
                reconstruct_internal,
                after_count,
              )
              refl,
          refl,
          (λ r default p early.
              all_present R len (λ r. get_or content r []) shards r r default damaged
                (omega (arith, C.total_count)) (omega arith) (omega arith)),
        )
        | no some_lost ↦
            let (slots, done, size, restored) =
              after_sort-restores n shards (sort_shards R d data_only len 0 0 shards)
                (sort_shards-IsCollected R len total d data_only (λ r. get_or content r []) 0 0 n
                  shards (omega arith) (omega arith) (omega arith) (omega arith) damaged)
                all enough sound in
            (
              slots,
              rw
                  (
                    counted,
                    run,
                    zero_add,
                    ne→== n codec.total_shard_count some_lost,
                    le→ltb n codec.data_shard_count enough,
                    sized,
                    reconstruct_internal,
                    after_count,
                  )
                  done,
              size,
              restored,
            )
      ]
