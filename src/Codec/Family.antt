-- ===== src/Codec/Family.antt =====
-- The choice of a codec family in src/core/leopard.rs: automatic selection, the caps on the number
-- of shards, the preconditions of the Leopard families, and the length of a Leopard shard.
-- Aligned and Resolved are about the length and the selection.
-- A `usize` is a number below 2^64, and `saturating_add` is written out.
pub mod Aligned
pub mod Resolved
use native.Mathlib.Nat.{mod-add-div', mod-lt, le_trans}
use reed_solomon_erasure.Base.{
  ℕ, ◌+◌, ◌-◌, ◌*◌, ◌/◌, ◌%◌, ◌^◌, ◌≤◌, ◌<◌, min, max, ◌≡◌, ◌≢◌, ◌⊎◌, inl, inr, refl, arith, Bool,
  true, ◌&&◌, ◌||◌, not, leb, ◌==◌, if◌then◌else◌, Result, ok, ◌>>◌, ◌>>=◌, fail_if, subst,
  Bool-cases, ==_iff,
}
use native.Mathlib.Decide.{dec_lt}
use reed_solomon_erasure.Errors.{
  Failure, panicked, Error, incorrect_shard_size, unsupported_codec_family,
}
use reed_solomon_erasure.Field.{Field}
use reed_solomon_erasure.Codec.Options.{
  CodecFamily, classic, leopard_gf8, leopard_gf16, LeopardMode, disabled, as_needed, prefer_gf16,
  prefer_leopard,
}

abbrev pub leopard_gf8_max_shards : ℕ
leopard_gf8_max_shards = 256

abbrev pub leopard_gf16_max_shards : ℕ
leopard_gf16_max_shards = 65536

abbrev pub leopard_gf8_max_parity : ℕ
leopard_gf8_max_parity = 128

abbrev pub leopard_shard_multiple : ℕ
leopard_shard_multiple = 64

abbrev pub usize_max : ℕ
usize_max = 2 ^ 64 - 1

abbrev pub saturating_add : ℕ → ℕ → ℕ
saturating_add a b = min (a + b) usize_max

-- `usize::div_ceil` for a divisor that is not zero.
abbrev pub div_ceil : ℕ → ℕ → ℕ
div_ceil a b = if a % b == 0 then a / b else a / b + 1

-- `usize::div_ceil`: a panic for the divisor zero.
abbrev pub checked_div_ceil : ℕ → ℕ → Result Failure ℕ
checked_div_ceil a b = fail_if (b == 0) panicked >>= λ _. ok (div_ceil a b)

unfoldable pub validate_leopard_shard_len : ℕ → Result Error (Unit {0})
validate_leopard_shard_len shard_len = do
  fail_if (shard_len == 0 || not (shard_len % leopard_shard_multiple == 0)) incorrect_shard_size
  ok tt

-- The second half of `leopard_aligned_shard_len`: the next non-zero multiple, saturating.
unfoldable pub align_up : ℕ → ℕ
align_up per_shard =
    let remainder = per_shard % leopard_shard_multiple in
    let rounded =
      if remainder == 0
      then per_shard
      else saturating_add per_shard (leopard_shard_multiple - remainder) in
    let clamped = max rounded leopard_shard_multiple in clamped - clamped % leopard_shard_multiple

unfoldable pub leopard_aligned_shard_len : ℕ → ℕ → Result Failure ℕ
unfolding align_up
leopard_aligned_shard_len data_len data_shards =
    checked_div_ceil data_len (if data_shards == 0 then 1 else data_shards) >>= λ per_shard.
    ok (align_up per_shard)

unfoldable pub is_byte_field {ℓ} : {A : Type ℓ} → Field A → Bool
is_byte_field F = F.elem_size == 1

unfoldable pub max_total_shards_for_family {ℓ} : {A : Type ℓ} → Field A → CodecFamily → ℕ
max_total_shards_for_family F classic = F.order
max_total_shards_for_family F leopard_gf8 = leopard_gf8_max_shards
max_total_shards_for_family F leopard_gf16 = leopard_gf16_max_shards

unfoldable pub by_mode : LeopardMode → ℕ → ℕ → CodecFamily
by_mode disabled total_shards parity_shards = classic
by_mode as_needed total_shards parity_shards =
    if leb total_shards leopard_gf8_max_shards then classic else leopard_gf16
by_mode prefer_gf16 total_shards parity_shards = leopard_gf16
by_mode prefer_leopard total_shards parity_shards =
    if leb total_shards leopard_gf8_max_shards && leb parity_shards leopard_gf8_max_parity
    then leopard_gf8
    else leopard_gf16

unfoldable pub resolve_codec_family : CodecFamily → LeopardMode → Bool → ℕ → ℕ → CodecFamily
unfolding by_mode
resolve_codec_family classic mode is_byte total_shards parity_shards =
    if is_byte then by_mode mode total_shards parity_shards else classic
resolve_codec_family leopard_gf8 mode is_byte total_shards parity_shards = leopard_gf8
resolve_codec_family leopard_gf16 mode is_byte total_shards parity_shards = leopard_gf16

unfoldable pub validate_leopard_gf8 {ℓ} : {A : Type ℓ} → Field A → Result Error (Unit {0})
unfolding is_byte_field
validate_leopard_gf8 F = do fail_if (not (is_byte_field F)) unsupported_codec_family; ok tt

-- `big_endian` is `cfg!(target_endian = "big")`.
unfoldable pub validate_leopard_gf16 {ℓ} : {A : Type ℓ} → Field A → Bool → Result Error (Unit {0})
unfolding is_byte_field
validate_leopard_gf16 F big_endian = do
  fail_if (not (is_byte_field F)) unsupported_codec_family
  fail_if big_endian unsupported_codec_family
  ok tt

unfoldable pub validate_leopard_family {ℓ} :
    {A : Type ℓ} → Field A → Bool → CodecFamily → Result Error (Unit {0})
unfolding validate_leopard_gf8 validate_leopard_gf16
validate_leopard_family F big_endian classic = ok tt
validate_leopard_family F big_endian leopard_gf8 = validate_leopard_gf8 F
validate_leopard_family F big_endian leopard_gf16 = validate_leopard_gf16 F big_endian
