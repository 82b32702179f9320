-- ===== src/Codec/Options.antt =====
-- src/core/options.rs: the options of a codec and their builder.
use reed_solomon_erasure.Base.{ℕ, Bool, true, false}

pub data CodecFamily : Type 0 where
  classic leopard_gf8 leopard_gf16 : CodecFamily

pub data LeopardMode : Type 0 where
  disabled as_needed prefer_gf16 prefer_leopard : LeopardMode

pub data MatrixMode : Type 0 where
  vandermonde cauchy jerasure_like custom : MatrixMode

pub record CodecOptions : Type 0 where
  pub fast_one_parity : Bool
  pub inversion_cache : Bool
  pub inversion_cache_capacity : ℕ
  pub codec_family : CodecFamily
  pub leopard_mode : LeopardMode
  pub matrix_mode : MatrixMode
  pub max_parallel_jobs : ℕ

abbrev pub default : CodecOptions
default = record {
  fast_one_parity = false;
  inversion_cache = true;
  inversion_cache_capacity = 0;
  codec_family = classic;
  leopard_mode = disabled;
  matrix_mode = vandermonde;
  max_parallel_jobs = 0;
}

-- `CodecOptionsBuilder`: each setter returns the builder.
pub record CodecOptionsBuilder : Type 0 where
  pub options : CodecOptions

unfoldable pub builder : CodecOptionsBuilder
builder = record { options = default }

unfoldable pub set_codec_family : CodecFamily → CodecOptionsBuilder → CodecOptionsBuilder
set_codec_family family b = record { options = record (b.options) { codec_family = family } }

unfoldable pub set_leopard_mode : LeopardMode → CodecOptionsBuilder → CodecOptionsBuilder
set_leopard_mode mode b = record { options = record (b.options) { leopard_mode = mode } }

unfoldable pub set_matrix_mode : MatrixMode → CodecOptionsBuilder → CodecOptionsBuilder
set_matrix_mode mode b = record { options = record (b.options) { matrix_mode = mode } }

unfoldable pub set_fast_one_parity : Bool → CodecOptionsBuilder → CodecOptionsBuilder
set_fast_one_parity enabled b = record {
  options = record (b.options) { fast_one_parity = enabled };
}

unfoldable pub set_inversion_cache : Bool → CodecOptionsBuilder → CodecOptionsBuilder
set_inversion_cache enabled b = record {
  options = record (b.options) { inversion_cache = enabled };
}

unfoldable pub set_inversion_cache_capacity : ℕ → CodecOptionsBuilder → CodecOptionsBuilder
set_inversion_cache_capacity capacity b = record {
  options = record (b.options) { inversion_cache_capacity = capacity };
}

unfoldable pub set_max_parallel_jobs : ℕ → CodecOptionsBuilder → CodecOptionsBuilder
set_max_parallel_jobs jobs b = record { options = record (b.options) { max_parallel_jobs = jobs } }

unfoldable pub build : CodecOptionsBuilder → CodecOptions
build b = b.options
