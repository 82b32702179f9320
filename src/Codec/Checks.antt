-- ===== src/Codec/Checks.antt =====
-- The checking macros of src/macros.rs: check_slices!, check_slice_index! and check_piece_count!.
-- They are early returns; `slices[0]` of an empty list panics.
use reed_solomon_erasure.Base.{
  ℕ, suc, ◌<◌, ◌≡◌, ◌↔◌, refl, sym, subst, ne→==, arith, Bool, true, false, List, [], ◌∷◌, length,
  get_or, leb, ltb, ◌==◌, ==_refl, ==_iff, not, if◌then◌else◌, Result, ok, err, ◌>>◌, fail_if,
}
use reed_solomon_erasure.Errors.{Error, Failure, returned, panicked}
use reed_solomon_erasure.Errors

-- The rows of `slices` have `len` elements each.
abbrev pub all_length {ℓ} : {A : Type ℓ} → ℕ → List (List A) → Bool
all_length len [] = true
all_length len (s ∷ slices) = if length s == len then all_length len slices else false

module _ {ℓ} {A : Type ℓ} where
  -- `check_slices!(multi => slices)`.
  unfoldable pub check_multi : List (List A) → Result Failure (Unit {0})
  check_multi [] = err panicked
  check_multi (s ∷ slices) = do
    fail_if (length s == 0) (returned Errors.empty_shard)
    fail_if (not (all_length (length s) (s ∷ slices))) (returned Errors.incorrect_shard_size)
    ok tt

  abbrev pub first_length : List (List A) → ℕ
  first_length [] = 0
  first_length (s ∷ slices) = length s

  -- `check_slices!(multi => slices, single => single)`.
  unfoldable pub check_multi_single : List (List A) → List A → Result Failure (Unit {0})
  unfolding check_multi
  check_multi_single slices single = do
    check_multi slices
    fail_if (not (first_length slices == length single)) (returned Errors.incorrect_shard_size)
    ok tt

  -- `check_slices!(multi => left, multi => right)`.
  unfoldable pub check_multi_multi : List (List A) → List (List A) → Result Failure (Unit {0})
  unfolding check_multi
  check_multi_multi left right = do
    check_multi left
    check_multi right
    fail_if (not (first_length left == first_length right)) (returned Errors.incorrect_shard_size)
    ok tt

-- `check_slice_index!`, with the count of the codec that it names.
unfoldable pub check_slice_index : ℕ → ℕ → Result Failure (Unit {0})
check_slice_index count index = do fail_if (leb count index) (returned Errors.invalid_index); ok tt

-- `check_piece_count!`, with the count of the codec, the number of pieces, and the two errors.
unfoldable pub check_piece_count : ℕ → ℕ → Error → Error → Result Failure (Unit {0})
check_piece_count count pieces too_few too_many = do
  fail_if (ltb pieces count) (returned too_few)
  fail_if (ltb count pieces) (returned too_many)
  ok tt

abbrev pub check_all : ℕ → ℕ → Result Failure (Unit {0})
check_all count pieces = check_piece_count count pieces Errors.too_few_shards Errors.too_many_shards

abbrev pub check_data : ℕ → ℕ → Result Failure (Unit {0})
check_data count pieces =
    check_piece_count count pieces Errors.too_few_data_shards Errors.too_many_data_shards

abbrev pub check_parity : ℕ → ℕ → Result Failure (Unit {0})
check_parity count pieces =
    check_piece_count count pieces Errors.too_few_parity_shards Errors.too_many_parity_shards

abbrev pub check_parity_buf : ℕ → ℕ → Result Failure (Unit {0})
check_parity_buf count pieces =
    check_piece_count count pieces Errors.too_few_buffer_shards Errors.too_many_buffer_shards

pub check_piece_count_ok :
    (count : ℕ) (few many : Error) → check_piece_count count count few many ≡ ok tt
unfolding check_piece_count
check_piece_count_ok count few many = ground arith

-- The count check passes exactly on the codec's own count, whatever its two errors are.
pub check_piece_count_iff :
    (count pieces : ℕ) (few many : Error)
    → (check_piece_count count pieces few many ≡ ok tt) ↔ (pieces ≡ count)
unfolding check_piece_count
check_piece_count_iff count pieces few many = ground arith

pub check_slice_index_ok : (count index : ℕ) → index < count → check_slice_index count index ≡ ok tt
unfolding check_slice_index
check_slice_index_ok count index p = ground arith

module _ {ℓ} {A : Type ℓ} where
  pub all_length_of :
      (len : ℕ) (slices : List (List A))
      → ((i : ℕ) → i < length slices → length (get_or slices i []) ≡ len)
      → all_length len slices ≡ true
  all_length_of len [] h = refl
  all_length_of len (s ∷ slices) h =
      rw ((==_iff (length s) len).1 (h 0 (omega arith)))
        (all_length_of len slices (λ i p. h (suc i) (omega arith)))

  pub check_multi_ok :
      (len : ℕ) (slices : List (List A))
      → 0 < len
      → 0 < length slices
      → ((i : ℕ) → i < length slices → length (get_or slices i []) ≡ len)
      → (check_multi slices ≡ ok tt) × (first_length slices ≡ len)
  unfolding check_multi
  check_multi_ok len [] p q h = absurd (omega arith)
  check_multi_ok len (s ∷ slices) p q h =
      let e : length s ≡ len = h 0 (omega arith) in
      let same : all_length (length s) (s ∷ slices) ≡ true =
        subst (λ k. all_length k (s ∷ slices) ≡ true) (sym e) (all_length_of len (s ∷ slices) h) in
      (rw (ne→== (length s) 0 (omega arith), same), e)

  pub check_multi_multi_ok :
      (len : ℕ) (left right : List (List A))
      → 0 < len
      → 0 < length left
      → 0 < length right
      → ((i : ℕ) → i < length left → length (get_or left i []) ≡ len)
      → ((i : ℕ) → i < length right → length (get_or right i []) ≡ len)
      → check_multi_multi left right ≡ ok tt
  unfolding check_multi_multi
  check_multi_multi_ok len left right p ql qr hl hr =
      let l = check_multi_ok len left p ql hl in
      let r = check_multi_ok len right p qr hr in rw (l.0, r.0, l.1, r.1, ==_refl len)

  pub check_multi_single_ok :
      (len : ℕ) (slices : List (List A)) (single : List A)
      → 0 < len
      → 0 < length slices
      → ((i : ℕ) → i < length slices → length (get_or slices i []) ≡ len)
      → length single ≡ len
      → check_multi_single slices single ≡ ok tt
  unfolding check_multi_single
  check_multi_single_ok len slices single p q h e =
      let l = check_multi_ok len slices p q h in rw (l.0, l.1, e, ==_refl len)
