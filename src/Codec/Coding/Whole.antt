-- ===== src/Codec/Coding/Whole.antt =====
-- `code_some_slices` of src/core/encode.rs as a whole: the chunk length and the number of rounds it
-- chooses, and the product of the coefficients with the shards that it leaves in the outputs.
use reed_solomon_erasure.Base.{
  ℕ, suc, ◌<◌, ◌≤◌, ◌≡◌, refl, ◌∙◌, ap, arith, List, [], ◌∷◌, length, get_or, take, le→ltb, ne→==,
  length-take, get_or-take,
}
use reed_solomon_erasure.Field.{Field, FieldLaws}
use reed_solomon_erasure.Field.Sum.{sum}
use reed_solomon_erasure.Codec.Blocks.{IsBlock, IsBlock-congr, cell}
use reed_solomon_erasure.Codec.Coding.{
  code_chunk_len, serial_code_chunk_len, code_some_slices, first_len,
}
use reed_solomon_erasure.Codec.Coding.Chunks.{Returns, code_chunks-IsBlock}

-- For a shard that is not empty, the chunk length is positive and at most the shard's length.
pub code_chunk_len_lem :
    (shard_len : ℕ)
    → 0 < shard_len
    → (0 < code_chunk_len shard_len) × (code_chunk_len shard_len ≤ shard_len)
unfolding code_chunk_len serial_code_chunk_len
code_chunk_len_lem shard_len p = ground arith

first_len_lem {ℓ} :
    {A : Type ℓ} (inputs : List (List A)) → first_len inputs ≡ length (get_or inputs 0 [])
first_len_lem [] = refl
first_len_lem (input ∷ inputs) = refl

module _ {ℓ} {A : Type ℓ} ⦃F : Field A⦄ (L : FieldLaws F) where
  -- On at least one input and outputs, all of one non-zero length, with a coefficient for each
  -- output and input, `code_some_slices` does not panic, and every output becomes the sum over the
  -- inputs of the coefficient times the input, whatever the outputs held before.
  pub code_some_slices-IsBlock :
      (len count n : ℕ) (coefficients v x : ℕ → ℕ → A) (rows inputs outputs : List (List A))
      → 0 < len
      → 0 < n
      → IsBlock count n coefficients rows
      → IsBlock n len x inputs
      → IsBlock count len v outputs
      → Returns
          (code_some_slices n rows inputs outputs)
          (IsBlock count len (λ r j. sum n (λ k. F.mul (coefficients r k) (cell inputs k j))))
  unfolding code_some_slices
  code_some_slices-IsBlock len count n co v x rows inputs outputs p q bc bi bo =
      let e : first_len inputs ≡ len = first_len_lem inputs ∙ bi.width 0 q in
      let (positive, _) = code_chunk_len_lem len p in
      rw (e, ne→== len 0 (omega arith))
        (code_chunks-IsBlock L len count n co v rows (take n inputs) inputs bc q
          (omega (arith, length-take n inputs, bi.rows))
          (λ k u. ap length (get_or-take n inputs k [] u) ∙ bi.width k u)
          (λ k u. get_or-take n inputs k [] u) (suc len) (code_chunk_len len) 0 outputs positive
          (omega arith) (omega arith)
          (IsBlock-congr v _ (λ r j a b. rw (le→ltb j 0 (omega arith)) refl) bo))
