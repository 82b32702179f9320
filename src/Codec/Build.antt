-- ===== src/Codec/Build.antt =====
-- The construction of a codec in src/core/codec.rs: the constructors and the cache capacity. A
-- `usize` is a number below 2^64; `big_endian` is `cfg!(target_endian = "big")`.
pub mod Constructed
use reed_solomon_erasure.Base.{
  ℕ, zero, suc, ◌+◌, ◌*◌, min, max, Bool, true, false, Option, none, some, List, ltb, leb, ◌==◌,
  if◌then◌else◌, Result, ok, ◌>>=◌, ◌>>◌, fail_if,
}
use reed_solomon_erasure.Errors.{
  unsupported_codec_family, too_few_data_shards, too_few_parity_shards, too_many_shards, Failure,
  returned, lift,
}
use reed_solomon_erasure.Field.{Field}
use reed_solomon_erasure.Matrix.{Matrix, new as new_matrix}
use reed_solomon_erasure.Codec.Options.{
  CodecOptions, CodecFamily, classic, leopard_gf8, leopard_gf16, custom, default,
}
use reed_solomon_erasure.Codec.CodingMatrix.{build_matrix, build_custom_matrix, matrix_by_mode}
use reed_solomon_erasure.Codec.Family.{
  usize_max, saturating_add, is_byte_field, max_total_shards_for_family, resolve_codec_family,
  validate_leopard_family,
}
use reed_solomon_erasure.Codec.State.{ReedSolomon, build_family_state}

abbrev pub cache_min_capacity : ℕ
cache_min_capacity = 128

abbrev pub cache_max_capacity : ℕ
cache_max_capacity = 4096

-- `checked_next_power_of_two`: the first of 1, 2, 4, .. that reaches `n`, out of `fuel` many.
unfoldable pub next_power_of_two : ℕ → ℕ → ℕ → Option ℕ
next_power_of_two zero power n = none
next_power_of_two (suc fuel) power n =
    let later = next_power_of_two fuel (2 * power) n in if leb n power then some power else later

abbrev pub saturating_mul : ℕ → ℕ → ℕ
saturating_mul a b = min (a * b) usize_max

abbrev pub clamp : ℕ → ℕ → ℕ → ℕ
clamp n low high = if ltb n low then low else if ltb high n then high else n

unfoldable pub derive_inversion_cache_capacity : ℕ → ℕ → ℕ
derive_inversion_cache_capacity data_shards parity_shards =
    let total_shards = saturating_add data_shards parity_shards in
    let heuristic = saturating_mul (saturating_mul total_shards (max parity_shards 1)) 2 in
    let rounded : ℕ = elim (next_power_of_two 64 1 heuristic) [
      | some power ↦ power
      | none ↦ cache_max_capacity
    ] in
    clamp rounded cache_min_capacity cache_max_capacity

unfoldable pub normalize_inversion_cache_capacity : ℕ → ℕ → ℕ → ℕ
unfolding derive_inversion_cache_capacity
normalize_inversion_cache_capacity data_shards parity_shards requested_capacity =
    if ltb 0 requested_capacity
    then requested_capacity
    else derive_inversion_cache_capacity data_shards parity_shards

module _ {ℓ} {A : Type ℓ} ⦃F : Field A⦄ where
  unfoldable pub build_matrix_with_options : ℕ → ℕ → CodecOptions → Result Failure (Matrix A)
  unfolding matrix_by_mode
  build_matrix_with_options data_shards total_shards options =
      matrix_by_mode options.codec_family options.matrix_mode data_shards total_shards

  unfoldable pub family_matrix : CodecFamily → ℕ → ℕ → CodecOptions → Result Failure (Matrix A)
  unfolding build_matrix_with_options build_matrix
  family_matrix classic data_shards total_shards options =
      build_matrix_with_options data_shards total_shards options
  family_matrix leopard_gf8 data_shards total_shards options =
      lift (build_matrix data_shards total_shards)
  family_matrix leopard_gf16 data_shards total_shards options = ok (new_matrix 0 0)

  unfoldable pub with_options : Bool → ℕ → ℕ → CodecOptions → Result Failure (ReedSolomon A)
  unfolding family_matrix normalize_inversion_cache_capacity
  with_options big_endian data_shards parity_shards options = do
    fail_if (data_shards == 0) (returned too_few_data_shards)
    fail_if (parity_shards == 0) (returned too_few_parity_shards)
    fail_if (ltb usize_max (data_shards + parity_shards)) (returned too_many_shards)
    let total_shards = data_shards + parity_shards
    let family =
        resolve_codec_family options.codec_family options.leopard_mode (is_byte_field F)
          total_shards parity_shards
    fail_if (ltb (max_total_shards_for_family F family) total_shards) (returned too_many_shards)
    lift (validate_leopard_family F big_endian family)
    let options' = record options {
      codec_family = family;
      inversion_cache_capacity =
          normalize_inversion_cache_capacity data_shards parity_shards
            options.inversion_cache_capacity;
    }
    matrix ← family_matrix family data_shards total_shards options'
    family_state ← lift (build_family_state family data_shards parity_shards matrix)
    ok (record {
      data_shard_count = data_shards;
      parity_shard_count = parity_shards;
      total_shard_count = total_shards;
      codec_family = family;
      family_state = family_state;
      matrix = matrix;
      options = options';
    })

  unfoldable pub new : Bool → ℕ → ℕ → Result Failure (ReedSolomon A)
  unfolding with_options
  new big_endian data_shards parity_shards =
      with_options big_endian data_shards parity_shards default

  unfoldable pub with_custom_matrix :
      ℕ → ℕ → List (List A) → CodecOptions → Result Failure (ReedSolomon A)
  unfolding build_custom_matrix normalize_inversion_cache_capacity
  with_custom_matrix data_shards parity_shards custom_matrix options = do
    fail_if (data_shards == 0) (returned too_few_data_shards)
    fail_if (parity_shards == 0) (returned too_few_parity_shards)
    fail_if (ltb usize_max (data_shards + parity_shards)) (returned too_many_shards)
    let total_shards = data_shards + parity_shards
    fail_if (ltb F.order total_shards) (returned too_many_shards)
    fail_if (elim options.codec_family [ classic ↦ false | _ ↦ true ])
        (returned unsupported_codec_family)
    let options' = record options {
      matrix_mode = custom;
      inversion_cache_capacity =
          normalize_inversion_cache_capacity data_shards parity_shards
            options.inversion_cache_capacity;
    }
    matrix ← lift (build_custom_matrix data_shards total_shards custom_matrix)
    family_state ← lift (build_family_state options.codec_family data_shards parity_shards matrix)
    ok (record {
      data_shard_count = data_shards;
      parity_shard_count = parity_shards;
      total_shard_count = total_shards;
      codec_family = options.codec_family;
      family_state = family_state;
      matrix = matrix;
      options = options';
    })
