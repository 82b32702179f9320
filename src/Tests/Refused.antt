-- ===== src/Tests/Refused.antt =====
-- Theorems on the errors of the encoder at the small codec of Samples.
use reed_solomon_erasure.Base.{
  ℕ, ◌+◌, ◌<◌, ◌≡◌, refl, arith, Bool, true, false, List, [], ◌∷◌, ◌⊎◌, err,
}
use reed_solomon_erasure.Errors.{Error, returned}
use reed_solomon_erasure.Errors
use reed_solomon_erasure.Field.Sum.{sum}
use reed_solomon_erasure.Matrix.{get}
use reed_solomon_erasure.Codec.Blocks.{IsBlock, cell}
use reed_solomon_erasure.Codec.State.{fast_one_parity_enabled}
use reed_solomon_erasure.Codec.Coding.Chunks.{Returns}
use reed_solomon_erasure.Codec.Encode.{encode_sep}
use reed_solomon_erasure.Codec.Encode.Refusal.{IsRefused, faulty_data, uneven, encode_sep-IsRefused}
use reed_solomon_erasure.Codec.Encode.Total.{encode_sep_total}
use reed_solomon_erasure.Tests.Gf2.{gf2, gf2-FieldLaws}
use reed_solomon_erasure.Tests.Samples.{codec, codec-IsClassic, no_leopard, inputs, parity}

-- The second data shard is longer than the first.
abbrev uneven_inputs : List (List Bool)
uneven_inputs = (true ∷ []) ∷ (true ∷ false ∷ []) ∷ []

encode_sep-IsRefused_example :
    encode_sep no_leopard codec uneven_inputs parity ≡ err (returned Errors.incorrect_shard_size)
encode_sep-IsRefused_example =
    encode_sep-IsRefused no_leopard codec (omega arith) (omega arith) uneven_inputs parity
      Errors.incorrect_shard_size
      (faulty_data refl refl (uneven 1 (λ e. omega arith) (omega arith) (λ e. omega arith)))

encode_sep_total_example :
    ((e : Error) × IsRefused 2 1 inputs parity e
      × (encode_sep no_leopard codec inputs parity ≡ err (returned e)))
    ⊎ ((len : ℕ) × (0 < len)
        × IsBlock 2 len (cell inputs) inputs
        × IsBlock 1 len (cell parity) parity
        × Returns (encode_sep no_leopard codec inputs parity) (
            IsBlock 1 len
              (λ r j. sum 2 (λ k. gf2.mul (get codec.matrix (2 + r) k) (cell inputs k j)))))
unfolding fast_one_parity_enabled
encode_sep_total_example =
    encode_sep_total gf2-FieldLaws no_leopard codec-IsClassic inputs parity refl
