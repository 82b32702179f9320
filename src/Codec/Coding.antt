-- ===== src/Codec/Coding.antt =====
-- The coding loops of src/core/encode.rs: code_single_slice_range, code_some_slices_chunked,
-- code_chunk_len, and encode_fast_one_parity. The outputs are passed on as values; an index or a
-- slice out of range, and a failed assertion on lengths, are `panicked`.
pub mod Slices
pub mod Chunks
pub mod Whole
use reed_solomon_erasure.Base.{
  ℕ, zero, suc, ◌+◌, ◌-◌, ◌*◌, ◌<◌, ◌≤◌, min, ◌≡◌, Bool, true, false, ◌&&◌, Option, some, none,
  List, [], ◌∷◌, ◌++◌, length, get_elem?, take, drop, leb, ltb, ◌==◌, if◌then◌else◌, Result, ok,
  err, ◌>>=◌,
}
use reed_solomon_erasure.Errors.{Failure, panicked}
use reed_solomon_erasure.Field.{Field, write_zip}

-- A panic of the called function is one of the caller.
abbrev pub or_panic {ℓ} : {A : Type ℓ} → Option A → Result Failure A
or_panic (some a) = ok a
or_panic none = err panicked

module _ {ℓ} {A : Type ℓ} where
  -- The length of the first shard, or 0.
  abbrev pub first_len : List (List A) → ℕ
  first_len [] = 0
  first_len (input ∷ inputs) = length input

  -- `&xs[start..end]`.
  unfoldable pub slice : List A → ℕ → ℕ → Result Failure (List A)
  slice xs start end =
      if leb start end && leb end (length xs)
      then ok (take (end - start) (drop start xs))
      else err panicked

  -- What `xs` is after `xs[start..end]` was replaced by `part`.
  unfoldable pub write_slice : List A → ℕ → ℕ → List A → List A
  write_slice xs start end part = take start xs ++ (part ++ drop end xs)

abbrev pub code_slice_min_chunk_bytes : ℕ
code_slice_min_chunk_bytes = 16 * 1024

abbrev pub code_slice_default_chunk_bytes : ℕ
code_slice_default_chunk_bytes = 64 * 1024

abbrev pub code_slice_large_chunk_bytes : ℕ
code_slice_large_chunk_bytes = 256 * 1024

unfoldable pub serial_code_chunk_len : ℕ → ℕ
serial_code_chunk_len shard_len =
    if leb shard_len code_slice_min_chunk_bytes
    then shard_len
    else if leb shard_len code_slice_default_chunk_bytes
    then code_slice_min_chunk_bytes
    else if leb shard_len (4 * 1024 * 1024)
    then code_slice_default_chunk_bytes
    else code_slice_large_chunk_bytes

unfoldable pub code_chunk_len : ℕ → ℕ
unfolding serial_code_chunk_len
code_chunk_len shard_len = min (serial_code_chunk_len shard_len) shard_len

module _ {ℓ} {A : Type ℓ} ⦃F : Field A⦄ where
  -- One output of `code_single_slice_range`.
  unfoldable pub code_output : A → ℕ → List A → ℕ → ℕ → List A → Result Failure (List A)
  code_output coefficient i_input input start end output = do
    part ← slice output start end
    part ← or_panic (
        if i_input == 0
        then F.mul_slice coefficient input part
        else F.mul_slice_add coefficient input part)
    ok (write_slice output start end part)

  -- `outputs.iter_mut().enumerate().for_each(..)`: output `i_row` goes with `matrix_rows[i_row]`.
  unfoldable pub code_outputs :
      List (List A) → ℕ → List A → ℕ → ℕ → List (List A) → Result Failure (List (List A))
  unfolding code_output
  code_outputs matrix_rows i_input input start end [] = ok []
  code_outputs [] i_input input start end (output ∷ outputs) = err panicked
  code_outputs (row ∷ matrix_rows) i_input input start end (output ∷ outputs) = do
    coefficient ← or_panic (get_elem? row i_input)
    output' ← code_output coefficient i_input input start end output
    outputs' ← code_outputs matrix_rows i_input input start end outputs
    ok (output' ∷ outputs')

  unfoldable pub code_single_slice_range :
      List (List A) → ℕ → List A → List (List A) → ℕ → ℕ → Result Failure (List (List A))
  code_single_slice_range matrix_rows i_input input outputs start end = do
    part ← slice input start end
    code_outputs matrix_rows i_input part start end outputs

  unfoldable pub code_single_slice :
      List (List A) → ℕ → List A → List (List A) → Result Failure (List (List A))
  code_single_slice matrix_rows i_input input outputs =
      code_single_slice_range matrix_rows i_input input outputs 0 (length input)

  -- `for (i_input, input) in inputs.iter().enumerate()`, from index `i_input`.
  unfoldable pub code_inputs :
      List (List A) → ℕ → List (List A) → ℕ → ℕ → List (List A) → Result Failure (List (List A))
  code_inputs matrix_rows i_input [] start end outputs = ok outputs
  code_inputs matrix_rows i_input (input ∷ inputs) start end outputs =
      code_single_slice_range matrix_rows i_input input outputs start end >>= λ outputs'.
      code_inputs matrix_rows (suc i_input) inputs start end outputs'

  -- `while start < shard_len`, on fuel; without fuel it panics, so that success shows enough fuel.
  unfoldable pub code_chunks :
      ℕ → List (List A) → List (List A) → ℕ → ℕ → ℕ → List (List A) → Result Failure (List (List A))
  code_chunks zero matrix_rows inputs shard_len chunk_len start outputs = err panicked
  code_chunks (suc fuel) matrix_rows inputs shard_len chunk_len start outputs =
      elim (ltb start shard_len) [
        | true ↦
            code_inputs matrix_rows 0 inputs start (min (start + chunk_len) shard_len) outputs
            >>= λ outputs'.
                code_chunks fuel matrix_rows inputs shard_len chunk_len
                  (min (start + chunk_len) shard_len) outputs'
        | false ↦ ok outputs
      ]

  -- `code_some_slices`, which is `code_some_slices_chunked`.
  unfoldable pub code_some_slices :
      ℕ → List (List A) → List (List A) → List (List A) → Result Failure (List (List A))
  code_some_slices data_shard_count matrix_rows inputs outputs =
      let shard_len = first_len inputs in
      if shard_len == 0
      then ok outputs
      else code_chunks (suc shard_len) matrix_rows (take data_shard_count inputs) shard_len
          (code_chunk_len shard_len) 0 outputs

  -- `for input in &data[1..] { for (out, value) in .. { *out = F::add(*out, *value) } }`.
  unfoldable pub add_inputs : List (List A) → List A → List A
  unfolding write_zip
  add_inputs [] output = output
  add_inputs (input ∷ data_rest) output =
      add_inputs data_rest (write_zip (λ out value. F.add out value) input output)

  -- The only parity shard becomes the sum of the data shards.
  unfoldable pub encode_fast_one_parity :
      List (List A) → List (List A) → Result Failure (List (List A))
  unfolding add_inputs
  encode_fast_one_parity [] parity = err panicked
  encode_fast_one_parity (first ∷ data_rest) [] = err panicked
  encode_fast_one_parity (first ∷ data_rest) (output ∷ parity) =
      if length first == length output
      then ok (add_inputs data_rest first ∷ parity)
      else err panicked
