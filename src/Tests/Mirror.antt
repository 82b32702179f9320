-- ===== src/Tests/Mirror.antt =====
-- One data shard and one parity shard over the field with two elements: the codec that `new` returns
-- for these counts, whose parity is a copy of the data.
use reed_solomon_erasure.Base.{
  ℕ, zero, suc, ◌<◌, ◌≡◌, refl, arith, Bool, true, false, List, [], ◌∷◌, length, get_or, ok, err,
  Option,
}
use reed_solomon_erasure.Errors.{panicked}
use reed_solomon_erasure.Matrix.{
  invert, is_square, augment, augment_row, identity, new, set, get, gaussian_elim, forward_step,
  backward_step, ensure_pivot, swap_in_pivot, swap_rows, swap_cells, scale_row, add_scaled_row,
  clear_cell, eliminate_below, sub_matrix, vandermonde, multiply, dot, get_row,
}
use reed_solomon_erasure.Matrix.Fill.{delta}
use reed_solomon_erasure.Field.{nth, nth_checked}
use reed_solomon_erasure.Codec.Options.{classic, default}
use reed_solomon_erasure.Codec.Family.{
  resolve_codec_family, max_total_shards_for_family, validate_leopard_family,
}
use reed_solomon_erasure.Codec.State.{
  ReedSolomon, classic_state, build_family_state, fast_one_parity_enabled, get_parity_rows,
  rows_between, is_leopard_gf8_family, is_leopard_gf16_family,
}
use reed_solomon_erasure.Codec.CodingMatrix.{build_matrix, matrix_by_mode}
use reed_solomon_erasure.Codec.Build.{
  with_options, new as new_codec, family_matrix, build_matrix_with_options,
  normalize_inversion_cache_capacity, next_power_of_two,
}
use reed_solomon_erasure.Codec.Build.Constructed.{IsMds, new_facts}
use reed_solomon_erasure.Codec.Blocks.{IsBlock, cell}
use reed_solomon_erasure.Codec.Checks.{check_multi, check_multi_multi, check_piece_count}
use reed_solomon_erasure.Codec.Coding.{
  slice, write_slice, code_chunk_len, serial_code_chunk_len, code_output, code_outputs,
  code_single_slice_range, code_inputs, code_chunks, code_some_slices,
}
use reed_solomon_erasure.Codec.Encode.{encode, encode_sep, encode_family, try_encode_codegen}
use reed_solomon_erasure.Codec.Encode.Product.{IsClassic}
use reed_solomon_erasure.Codec.Reconstruct.Calls.{LeopardReconstructors}
use reed_solomon_erasure.Tests.Gf2.{gf2, gf2-FieldLaws}
use reed_solomon_erasure.Tests.Samples.{no_leopard, IsBlock-of}

abbrev pub mirror : ReedSolomon Bool
mirror = record {
  data_shard_count = 1;
  parity_shard_count = 1;
  total_shard_count = 2;
  codec_family = classic;
  family_state = classic_state;
  matrix = record { row_count = 2; col_count = 1; cells = true ∷ true ∷ [] };
  options = record default { inversion_cache_capacity = 128 };
}

pub mirror_built : new_codec {A = Bool} false 1 1 ≡ ok mirror
unfolding build_matrix vandermonde nth nth_checked multiply dot invert is_square augment augment_row
    identity new set get gaussian_elim forward_step backward_step ensure_pivot swap_in_pivot
    swap_rows swap_cells scale_row add_scaled_row clear_cell eliminate_below sub_matrix gf2
    resolve_codec_family max_total_shards_for_family validate_leopard_family build_family_state
    matrix_by_mode with_options new_codec family_matrix build_matrix_with_options
    normalize_inversion_cache_capacity next_power_of_two
mirror_built = refl

-- The data shard, and a parity shard that still holds something else.
abbrev pub mirror_slices : List (List Bool)
mirror_slices = (true ∷ false ∷ []) ∷ (false ∷ false ∷ []) ∷ []

abbrev pub mirrored : List (List Bool)
mirrored = (true ∷ false ∷ []) ∷ (true ∷ false ∷ []) ∷ []

pub mirror_encoded : encode no_leopard mirror mirror_slices ≡ ok mirrored
unfolding encode encode_sep encode_family try_encode_codegen fast_one_parity_enabled get_parity_rows
    rows_between get_row is_leopard_gf8_family is_leopard_gf16_family check_multi check_multi_multi
    slice write_slice code_chunk_len serial_code_chunk_len code_output code_outputs
    code_single_slice_range code_inputs code_chunks code_some_slices gf2 check_piece_count
mirror_encoded = refl

pub mirror_slices-IsBlock : IsBlock 2 2 (cell mirror_slices) mirror_slices
mirror_slices-IsBlock = IsBlock-of 2 mirror_slices width
  where
    width : (r : ℕ) → r < 2 → length (get_or mirror_slices r []) ≡ 2
    width zero p = refl
    width (suc zero) p = refl
    width (suc (suc r)) p = absurd (omega arith)

-- No Leopard decoder is reached.
abbrev pub no_reconstructors : LeopardReconstructors (Option (List Bool))
no_reconstructors = record {
  reconstruct_leopard_gf8 = λ slices data_only. (slices, err panicked);
  reconstruct_leopard_gf16 = λ slices data_only. (slices, err panicked);
}

abbrev pub MirrorFacts : Type 0
MirrorFacts =
    IsClassic mirror 1 1
    × (fast_one_parity_enabled mirror ≡ false)
    × ((r c : ℕ) → r < 1 → c < 1 → get mirror.matrix r c ≡ delta r c)
    × IsMds mirror 1 1

pub mirror_facts : MirrorFacts
unfolding gf2
mirror_facts =
    new_facts gf2-FieldLaws false 1 1 mirror (omega arith) (omega arith) (omega arith) (omega arith)
      mirror_built
