-- ===== src/Tests/Witnesses.antt =====
-- Each theorem at a concrete input.
use reed_solomon_erasure.Base.{
  ℕ, ◌<◌, ◌≡◌, ◌↔◌, ◌+◌, refl, arith, Bool, true, false, none, [], ◌∷◌, length, get_or, ok, err,
  if◌then◌else◌, ◌==◌, ◌⊎◌,
}
use reed_solomon_erasure.Field.{nth}
use reed_solomon_erasure.Field.Sum.{sum}
use reed_solomon_erasure.Matrix.{Matrix, get, multiply, sub_matrix, vandermonde, swap_rows}
use reed_solomon_erasure.Matrix.Cells.{HasShape}
use reed_solomon_erasure.Matrix.Invert.{IsInverse, invert-IsInverse}
use reed_solomon_erasure.Codec.Blocks.{IsBlock, cell}
use reed_solomon_erasure.Codec.State.{fast_one_parity_enabled, get_parity_rows}
use reed_solomon_erasure.Codec.Coding.{code_some_slices}
use reed_solomon_erasure.Codec.Coding.Chunks.{Returns}
use reed_solomon_erasure.Codec.Coding.Whole.{code_some_slices-IsBlock}
use reed_solomon_erasure.Codec.Encode.{encode_sep, encode_single_sep}
use reed_solomon_erasure.Codec.Encode.Product.{
  encode_sep-IsBlock, encode_single_sep-IsBlock, get_parity_rows-IsBlock,
}
use reed_solomon_erasure.Base.{◌≤◌, ◌^◌, ◌*◌}
use reed_solomon_erasure.Codec.Decode.{reconstruct_data_stage, missing_data_indices}
use reed_solomon_erasure.Codec.Decode.Recovery.{reconstruct_data_stage-IsBlock}
use reed_solomon_erasure.Errors.{too_many_calls}
use reed_solomon_erasure.Codec.ShardByShard.{
  new_sbs, parity_ready, sbs_encode_sep, sbs_calls, sbs_returned,
}
use reed_solomon_erasure.Codec.ShardByShard.Refinement.{sbs_calls-encode_sep}
use reed_solomon_erasure.Codec.Verify.{verify}
use reed_solomon_erasure.Base.{take}
use reed_solomon_erasure.Codec.Encode.{encode}
use reed_solomon_erasure.Codec.Verify.RoundTrip.{encode-verify}
use reed_solomon_erasure.Codec.Verify.Check.{verify_iff}
use reed_solomon_erasure.Codec.CodingMatrix.Systematic.{build_matrix-IsSystematic}
use reed_solomon_erasure.Matrix.Fill.{IsFilled, delta, multiply_lem}
use reed_solomon_erasure.Matrix.Rows.{swap_index, swap_rows_lem}
use reed_solomon_erasure.Matrix.Span.{SameSpan}
use reed_solomon_erasure.Matrix.Elim.{gaussian_elim_lem}
use reed_solomon_erasure.Galois8.Tables.{mul_table_low, mul_table_high}
use reed_solomon_erasure.Galois8.Arith.{add, mul}
use reed_solomon_erasure.Galois8.Polynomial.{carryless, remainder, mul_lem}
use reed_solomon_erasure.Galois8.Nibbles.{add-halves}
use reed_solomon_erasure.Codec.Options.{classic, leopard_gf8, prefer_leopard}
use reed_solomon_erasure.Codec.Family.{
  usize_max, validate_leopard_shard_len, leopard_aligned_shard_len, resolve_codec_family,
}
use reed_solomon_erasure.Codec.Family.Aligned.{leopard_aligned_shard_len-IsLeast}
use reed_solomon_erasure.Codec.Family.Resolved.{IsChosen, resolve_codec_family_iff}
use reed_solomon_erasure.Base.{◌/◌, ◌%◌, ◌-◌, max}
use reed_solomon_erasure.Tests.Gf2.{gf2, gf2-FieldLaws}
use reed_solomon_erasure.Tests.Samples.{
  codec, coding_matrix, codec-IsClassic, no_leopard, inputs, parity, inputs-IsBlock, parity-IsBlock,
  valid_indices, invalid_indices, sub_shards, decode_matrix, decode_matrix_found,
  sub_shards-IsBlock, slices, slices-IsBlock, unit_square, unit_square_built, swap_matrix,
  swap_matrix_inverted, swap_matrix_eliminated,
}

encode_sep-IsBlock_example :
    Returns
      (encode_sep no_leopard codec inputs parity)
      (IsBlock 1 2 (λ r j. sum 2 (λ k. gf2.mul (get codec.matrix (2 + r) k) (cell inputs k j))))
unfolding fast_one_parity_enabled
encode_sep-IsBlock_example =
    encode_sep-IsBlock gf2-FieldLaws no_leopard codec-IsClassic 2 (cell inputs) (cell parity) inputs
      parity refl (omega arith) inputs-IsBlock parity-IsBlock

encode_single_sep-IsBlock_example : Returns (encode_single_sep codec 1 (false ∷ true ∷ []) parity) (
    IsBlock 1 2 (λ r j.
      if 1 == 0
      then gf2.mul (get codec.matrix (2 + r) 1) (get_or (false ∷ true ∷ []) j false)
      else gf2.add
          (cell parity r j)
          (gf2.mul (get codec.matrix (2 + r) 1) (get_or (false ∷ true ∷ []) j false))))
unfolding gf2
encode_single_sep-IsBlock_example =
    encode_single_sep-IsBlock gf2-FieldLaws codec-IsClassic 2 1 (cell parity) (false ∷ true ∷ [])
      parity (omega arith) (omega arith) refl parity-IsBlock

code_some_slices-IsBlock_example :
    Returns
      (code_some_slices 2 (get_parity_rows codec) inputs parity)
      (IsBlock 1 2 (λ r j. sum 2 (λ k. gf2.mul (get codec.matrix (2 + r) k) (cell inputs k j))))
code_some_slices-IsBlock_example =
    code_some_slices-IsBlock gf2-FieldLaws 2 1 2 (λ r k. get codec.matrix (2 + r) k) (cell parity)
      (cell inputs) (get_parity_rows codec) inputs parity (omega arith) (omega arith)
      (get_parity_rows-IsBlock codec-IsClassic) inputs-IsBlock parity-IsBlock

reconstruct_data_stage-IsBlock_example :
    Returns (reconstruct_data_stage codec decode_matrix invalid_indices sub_shards parity) (
      IsBlock
        (length (missing_data_indices codec invalid_indices))
        2
        (λ r j. cell inputs (get_or (missing_data_indices codec invalid_indices) r 0) j))
unfolding missing_data_indices
reconstruct_data_stage-IsBlock_example =
    reconstruct_data_stage-IsBlock gf2-FieldLaws codec-IsClassic valid_indices invalid_indices refl
      none (λ entry h. cc) decode_matrix decode_matrix_found 2 (cell inputs) (cell parity)
      sub_shards parity (omega arith) sub_shards-IsBlock parity-IsBlock

sbs_calls-encode_sep_example : Returns (sbs_calls 2 codec new_sbs inputs parity) (λ (s', parity').
    (parity_ready codec s' ≡ true)
    × (encode_sep no_leopard codec inputs parity ≡ ok parity')
    × (sbs_encode_sep codec s' inputs parity' ≡ err (sbs_returned too_many_calls)))
unfolding fast_one_parity_enabled
sbs_calls-encode_sep_example =
    sbs_calls-encode_sep gf2-FieldLaws codec-IsClassic 2 (omega arith) (cell inputs) (cell parity)
      inputs inputs-IsBlock no_leopard parity refl parity-IsBlock

verify_iff_example : Returns (verify no_leopard codec slices) (λ answer. (answer ≡ true) ↔ (
    (r j : ℕ)
    → r < 1
    → j < 2
    → cell slices (2 + r) j ≡ sum 2 (λ k. gf2.mul (get codec.matrix (2 + r) k) (cell slices k j))))
unfolding fast_one_parity_enabled
verify_iff_example =
    verify_iff gf2-FieldLaws no_leopard codec-IsClassic 2 (cell slices) slices refl (omega arith)
      slices-IsBlock

build_matrix-IsSystematic_example :
    HasShape unit_square 2 2
    × ((r c : ℕ) → r < 2 → c < 2 → get unit_square r c ≡ delta r c)
    × ((inverse : Matrix Bool) × IsInverse 2 (sub_matrix (vandermonde 2 2) 0 0 2 2) inverse
        × ((r c : ℕ)
            → r < 2
            → c < 2
            → get unit_square r c ≡ sum 2 (λ k. gf2.mul (gf2.exp (nth r) k) (get inverse k c))))
build_matrix-IsSystematic_example =
    build_matrix-IsSystematic gf2-FieldLaws 2 2 unit_square (omega arith) unit_square_built

invert-IsInverse_example : IsInverse 2 swap_matrix swap_matrix
invert-IsInverse_example =
    invert-IsInverse gf2-FieldLaws 2 swap_matrix swap_matrix
      (record { row_count = refl; col_count = refl; filled = refl }) swap_matrix_inverted

gaussian_elim_lem_example :
    HasShape unit_square 2 2
    × SameSpan 2 2 swap_matrix unit_square
    × ((r c : ℕ) → r < 2 → c < 2 → get unit_square r c ≡ delta r c)
gaussian_elim_lem_example =
    gaussian_elim_lem gf2-FieldLaws (record { row_count = refl; col_count = refl; filled = refl })
      (omega arith) swap_matrix_eliminated

multiply_lem_example :
    (result : Matrix Bool) × (multiply coding_matrix swap_matrix ≡ ok result)
    × IsFilled 3 2
        (λ r c. sum 2 (λ i. gf2.mul (get coding_matrix r i) (get swap_matrix i c)))
        result
multiply_lem_example =
    multiply_lem (record { row_count = refl; col_count = refl; filled = refl })
      (record { row_count = refl; col_count = refl; filled = refl })

swap_rows_lem_example :
    HasShape (swap_rows coding_matrix 0 2) 3 2
    × ((r c : ℕ)
        → c < 2
        → get (swap_rows coding_matrix 0 2) r c ≡ get coding_matrix (swap_index 0 2 r) c)
swap_rows_lem_example =
    swap_rows_lem (record { row_count = refl; col_count = refl; filled = refl }) 0 2 (omega arith)
      (omega arith)

mul_lem_example : mul 142 2 ≡ remainder 7 (carryless 8 142 2)
mul_lem_example = mul_lem 142 2 (omega arith) (omega arith)

add-halves_example :
    add
      (get_or (get_or mul_table_low 142 []) (77 % 16) 0)
      (get_or (get_or mul_table_high 142 []) (77 / 16) 0)
    ≡ mul 142 77
add-halves_example = add-halves 142 77 (omega arith) (omega arith)

leopard_aligned_shard_len-IsLeast_example : Returns (leopard_aligned_shard_len 1000 3) (λ len.
    (validate_leopard_shard_len len ≡ ok tt)
    × (len ≤ usize_max)
    × ((n : ℕ) → validate_leopard_shard_len n ≡ ok tt → 1000 ≤ n * max 3 1 → len ≤ n)
    × ((1000 ≤ len * max 3 1) ⊎ ((len ≡ 2 ^ 64 - 64) × (2 ^ 64 - 64 < 1000) × (max 3 1 ≡ 1))))
leopard_aligned_shard_len-IsLeast_example = leopard_aligned_shard_len-IsLeast 1000 3 (omega arith)

resolve_codec_family_iff_example :
    (resolve_codec_family classic prefer_leopard true 12 4 ≡ leopard_gf8
      → IsChosen classic prefer_leopard true 12 4 leopard_gf8)
    × (IsChosen classic prefer_leopard true 12 4 leopard_gf8
        → resolve_codec_family classic prefer_leopard true 12 4 ≡ leopard_gf8)
resolve_codec_family_iff_example =
    resolve_codec_family_iff classic prefer_leopard true 12 4 leopard_gf8

encode-verify_example :
    Returns
      (encode no_leopard codec slices)
      (λ coded. (take 2 coded ≡ take 2 slices) × (verify no_leopard codec coded ≡ ok true))
unfolding fast_one_parity_enabled
encode-verify_example =
    encode-verify gf2-FieldLaws no_leopard codec-IsClassic 2 (cell slices) slices refl (omega arith)
      slices-IsBlock
