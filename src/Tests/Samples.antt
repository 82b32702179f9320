-- ===== src/Tests/Samples.antt =====
-- Two data shards and one parity shard over the field with two elements, and the codec for them:
-- its coding matrix has the rows (1, 0), (0, 1) and (1, 1).
use reed_solomon_erasure.Base.{
  ℕ, zero, suc, ◌<◌, ◌≡◌, refl, arith, Bool, true, false, List, [], ◌∷◌, length, get_or,
}
use reed_solomon_erasure.Field.{Field}
use reed_solomon_erasure.Matrix.{
  Matrix, invert, is_square, augment, augment_row, identity, new, set, get, gaussian_elim,
  forward_step, backward_step, ensure_pivot, swap_in_pivot, swap_rows, swap_cells, scale_row,
  add_scaled_row, clear_cell, eliminate_below, sub_matrix, vandermonde, multiply, dot,
}
use reed_solomon_erasure.Field.{nth, nth_checked}
use reed_solomon_erasure.Codec.CodingMatrix.{build_matrix}
use reed_solomon_erasure.Galois8.Byte.{U8, byte}
use reed_solomon_erasure.Errors.{panicked}
use reed_solomon_erasure.Base.{ok, err, none}
use reed_solomon_erasure.Field.Sum.{sum}
use reed_solomon_erasure.Codec.Decode.{get_data_decode_matrix, decode_sub_matrix}
use reed_solomon_erasure.Codec.Options.{classic, default}
use reed_solomon_erasure.Codec.State.{ReedSolomon, classic_state}
use reed_solomon_erasure.Codec.Blocks.{IsBlock, cell}
use reed_solomon_erasure.Codec.Encode.{LeopardCoders}
use reed_solomon_erasure.Codec.Encode.Product.{IsClassic}
use reed_solomon_erasure.Tests.Gf2.{gf2}

abbrev pub coding_matrix : Matrix Bool
coding_matrix = record {
  row_count = 3;
  col_count = 2;
  cells = true ∷ false ∷ false ∷ true ∷ true ∷ true ∷ [];
}

abbrev pub codec : ReedSolomon Bool
codec = record {
  data_shard_count = 2;
  parity_shard_count = 1;
  total_shard_count = 3;
  codec_family = classic;
  family_state = classic_state;
  matrix = coding_matrix;
  options = default;
}

pub codec-IsClassic : IsClassic codec 2 1
codec-IsClassic = record {
  data_count = refl;
  parity_count = refl;
  total_count = refl;
  some_data = omega arith;
  some_parity = omega arith;
  family = refl;
  shape = record { row_count = refl; col_count = refl; filled = refl };
}

-- No Leopard coder is reached.
abbrev pub no_leopard : LeopardCoders Bool
no_leopard = record {
  leopard_gf8_encode = λ d p inputs parity. err panicked;
  leopard_gf16_encode = λ d p inputs parity. err panicked;
}

abbrev pub inputs : List (List Bool)
inputs = (true ∷ true ∷ []) ∷ (false ∷ true ∷ []) ∷ []

abbrev pub parity : List (List Bool)
parity = (true ∷ false ∷ []) ∷ []

-- Shards of equal length form a block of their own cells.
pub IsBlock-of {ℓ} :
    {A : Type ℓ} ⦃F : Field A⦄ (len : ℕ) (shards : List (List A))
    → ((r : ℕ) → r < length shards → length (get_or shards r []) ≡ len)
    → IsBlock (length shards) len (cell shards) shards
IsBlock-of len shards widths = record { rows = refl; width = widths; value_at = λ r j p q. refl }

pub inputs-IsBlock : IsBlock 2 2 (cell inputs) inputs
inputs-IsBlock = IsBlock-of 2 inputs width
  where
    width : (r : ℕ) → r < 2 → length (get_or inputs r []) ≡ 2
    width zero p = refl
    width (suc zero) p = refl
    width (suc (suc r)) p = absurd (omega arith)

pub parity-IsBlock : IsBlock 1 2 (cell parity) parity
parity-IsBlock = IsBlock-of 2 parity width
  where
    width : (r : ℕ) → r < 1 → length (get_or parity r []) ≡ 2
    width zero p = refl
    width (suc r) p = absurd (omega arith)

-- The data shards and the parity shard together.
abbrev pub slices : List (List Bool)
slices = (true ∷ true ∷ []) ∷ (false ∷ true ∷ []) ∷ (true ∷ false ∷ []) ∷ []

pub slices-IsBlock : IsBlock 3 2 (cell slices) slices
slices-IsBlock = IsBlock-of 2 slices width
  where
    width : (r : ℕ) → r < 3 → length (get_or slices r []) ≡ 2
    width zero p = refl
    width (suc zero) p = refl
    width (suc (suc zero)) p = refl
    width (suc (suc (suc r))) p = absurd (omega arith)

-- The shards that are left when the first data shard is lost, and the matrix that decodes them.
abbrev pub valid_indices : List ℕ
valid_indices = 1 ∷ 2 ∷ []

abbrev pub invalid_indices : List ℕ
invalid_indices = 0 ∷ []

abbrev pub sub_shards : List (List Bool)
sub_shards = (false ∷ true ∷ []) ∷ (true ∷ false ∷ []) ∷ []

abbrev pub decode_matrix : Matrix Bool
decode_matrix = record { row_count = 2; col_count = 2; cells = true ∷ true ∷ true ∷ false ∷ [] }

pub decode_matrix_found : get_data_decode_matrix codec none valid_indices ≡ ok decode_matrix
unfolding get_data_decode_matrix decode_sub_matrix invert is_square augment augment_row identity new
    set get gaussian_elim forward_step backward_step ensure_pivot swap_in_pivot swap_rows swap_cells
    scale_row add_scaled_row clear_cell eliminate_below sub_matrix gf2
decode_matrix_found = refl

pub sub_shards-IsBlock :
    IsBlock 2 2
      (λ t j.
        sum 2 (λ k. gf2.mul (get codec.matrix (get_or valid_indices t 0) k) (cell inputs k j)))
      sub_shards
unfolding get sum gf2
sub_shards-IsBlock = record { rows = refl; width = width; value_at = value_at }
  where
    width : (r : ℕ) → r < 2 → length (get_or sub_shards r []) ≡ 2
    width zero p = refl
    width (suc zero) p = refl
    width (suc (suc r)) p = absurd (omega arith)

    value_at :
        (t j : ℕ)
        → t < 2
        → j < 2
        → cell sub_shards t j
          ≡ sum 2 (λ k. gf2.mul (get codec.matrix (get_or valid_indices t 0) k) (cell inputs k j))
    value_at zero zero p q = refl
    value_at zero (suc zero) p q = refl
    value_at (suc zero) zero p q = refl
    value_at (suc zero) (suc zero) p q = refl
    value_at zero (suc (suc j)) p q = absurd (omega arith)
    value_at (suc zero) (suc (suc j)) p q = absurd (omega arith)
    value_at (suc (suc t)) j p q = absurd (omega arith)

abbrev pub unit_square : Matrix Bool
unit_square = record { row_count = 2; col_count = 2; cells = true ∷ false ∷ false ∷ true ∷ [] }

abbrev pub swap_matrix : Matrix Bool
swap_matrix = record { row_count = 2; col_count = 2; cells = false ∷ true ∷ true ∷ false ∷ [] }

pub swap_matrix_inverted : invert swap_matrix ≡ ok swap_matrix
unfolding invert is_square augment augment_row identity new set get gaussian_elim forward_step
    backward_step ensure_pivot swap_in_pivot swap_rows swap_cells scale_row add_scaled_row
    clear_cell eliminate_below sub_matrix gf2
swap_matrix_inverted = refl

pub swap_matrix_eliminated : gaussian_elim swap_matrix ≡ ok unit_square
unfolding set get gaussian_elim forward_step backward_step ensure_pivot swap_in_pivot swap_rows
    swap_cells scale_row add_scaled_row clear_cell eliminate_below gf2
swap_matrix_eliminated = refl

pub unit_square_built : build_matrix 2 2 ≡ ok unit_square
unfolding build_matrix vandermonde nth nth_checked multiply dot invert is_square augment augment_row
    identity new set get gaussian_elim forward_step backward_step ensure_pivot swap_in_pivot
    swap_rows swap_cells scale_row add_scaled_row clear_cell eliminate_below sub_matrix gf2
unit_square_built = refl

abbrev pub three : U8
three = byte 3
