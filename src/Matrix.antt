-- ===== src/Matrix.antt =====
-- src/matrix.rs: a matrix over a field, stored row after row in one vector, and its operations.
-- The macro `acc!` is `get` and `set`. For an index outside the vector, where the source panics, `get`
-- gives zero, `set` leaves the vector as it is, and `get_row` takes what is there.
pub mod Cells
pub mod Fill
pub mod Rows
pub mod Span
pub mod Elim
pub mod Invert
pub mod Regular
use reed_solomon_erasure.Base.{
  ℕ, zero, suc, ◌+◌, ◌-◌, ◌*◌, Bool, not, List, [], ◌∷◌, ◌++◌, ◌==◌, if◌then◌else◌, get_or,
  set as list_set, take, drop, replicate, length, for_range, Result, ok, err, ◌>>=◌, ◌>>◌, fail_if,
  try_range,
}
use reed_solomon_erasure.Field.{Field, nth}

pub data Error : Type 0 where
  empty_input inconsistent_row_sizes incompatible_dimensions non_square singular_matrix : Error

pub record Matrix {ℓ} (A : Type ℓ) : Type ℓ where
  pub row_count : ℕ
  pub col_count : ℕ
  pub cells : List A

pub flatten {ℓ} : {A : Type ℓ} → List (List A) → List A
flatten [] = []
flatten (row ∷ m) = row ++ flatten m

any_length_ne {ℓ} : {A : Type ℓ} → ℕ → List (List A) → Bool
any_length_ne cols [] = Bool.false
any_length_ne cols (r ∷ rows) = if length r == cols then any_length_ne cols rows else Bool.true

module _ {ℓ} {A : Type ℓ} where
  unfoldable pub new_with_data : List (List A) → Result Error (Matrix A)
  unfolding flatten any_length_ne
  new_with_data [] = err empty_input
  new_with_data (row ∷ rows) = do
    let init_data = row ∷ rows
    let cols = length row
    fail_if (any_length_ne cols init_data) inconsistent_row_sizes
    ok (record { row_count = length init_data; col_count = cols; cells = flatten init_data })

  unfoldable pub is_square : Matrix A → Bool
  is_square m = m.row_count == m.col_count

  -- `&self.data[start..end]`.
  unfoldable pub get_row : Matrix A → ℕ → List A
  get_row m row = take m.col_count (drop (row * m.col_count) m.cells)

module _ {ℓ} {A : Type ℓ} ⦃F : Field A⦄ where
  unfoldable pub new : ℕ → ℕ → Matrix A
  new rows cols = record {
    row_count = rows;
    col_count = cols;
    cells = replicate (rows * cols) F.zero;
  }

  unfoldable pub get : Matrix A → ℕ → ℕ → A
  get m r c = get_or m.cells (r * m.col_count + c) F.zero

  unfoldable pub set : Matrix A → ℕ → ℕ → A → Matrix A
  set m r c val = record m { cells = list_set m.cells (r * m.col_count + c) val }

  unfoldable pub identity : ℕ → Matrix A
  identity size = for_range 0 size (λ i m. set m i i F.one) (new size size)

  -- The inner loop of `multiply`, which adds up one cell.
  unfoldable pub dot : Matrix A → Matrix A → ℕ → ℕ → A
  dot m rhs r c =
      for_range 0 m.col_count (λ i val. F.add val (F.mul (get m r i) (get rhs i c))) F.zero

  unfoldable pub multiply : Matrix A → Matrix A → Result Error (Matrix A)
  multiply m rhs = do
    fail_if (not (m.col_count == rhs.row_count)) incompatible_dimensions
    ok (
        for_range 0 m.row_count
          (λ r result.
            for_range 0 rhs.col_count (λ c result. set result r c (dot m rhs r c)) result)
          (new m.row_count rhs.col_count))

  unfoldable pub augment_row : Matrix A → Matrix A → ℕ → Matrix A → Matrix A
  augment_row m rhs r result =
      for_range 0 rhs.col_count (λ c result. set result r (m.col_count + c) (get rhs r c))
        (for_range 0 m.col_count (λ c result. set result r c (get m r c)) result)

  unfoldable pub augment : Matrix A → Matrix A → Result Error (Matrix A)
  augment m rhs = do
    fail_if (not (m.row_count == rhs.row_count)) incompatible_dimensions
    ok (for_range 0 m.row_count (augment_row m rhs) (new m.row_count (m.col_count + rhs.col_count)))

  unfoldable pub sub_matrix : Matrix A → ℕ → ℕ → ℕ → ℕ → Matrix A
  sub_matrix m rmin cmin rmax cmax =
      for_range rmin rmax
        (λ r result.
          for_range cmin cmax (λ c result. set result (r - rmin) (c - cmin) (get m r c)) result)
        (new (rmax - rmin) (cmax - cmin))

  -- `self.data.swap(r1_s + i, r2_s + i)`.
  unfoldable pub swap_cells : ℕ → ℕ → ℕ → Matrix A → Matrix A
  swap_cells r1 r2 i m = set (set m r1 i (get m r2 i)) r2 i (get m r1 i)

  unfoldable pub swap_rows : Matrix A → ℕ → ℕ → Matrix A
  swap_rows m r1 r2 =
      if r1 == r2 then m else for_range 0 m.col_count (λ i m. swap_cells r1 r2 i m) m

  -- The search below row `r`, which stops at the first row it swaps in; `n` rows are left.
  unfoldable pub swap_in_pivot : ℕ → ℕ → ℕ → Matrix A → Matrix A
  swap_in_pivot r r_below zero m = m
  swap_in_pivot r r_below (suc n) m =
      if F.eq (get m r_below r) F.zero
      then swap_in_pivot r (suc r_below) n m
      else swap_rows m r r_below

  unfoldable pub ensure_pivot : ℕ → Matrix A → Matrix A
  ensure_pivot r m =
      if F.eq (get m r r) F.zero then swap_in_pivot r (r + 1) (m.row_count - (r + 1)) m else m

  unfoldable pub scale_row : ℕ → A → Matrix A → Matrix A
  scale_row r scale m = for_range 0 m.col_count (λ c m. set m r c (F.mul scale (get m r c))) m

  -- The row `target` plus `scale` times the row `source`.
  unfoldable pub add_scaled_row : ℕ → ℕ → A → Matrix A → Matrix A
  add_scaled_row source target scale m =
      for_range 0 m.col_count
        (λ c m. set m target c (F.add (get m target c) (F.mul scale (get m source c)))) m

  -- Make the cell of row `target` in column `source` zero.
  unfoldable pub clear_cell : ℕ → ℕ → Matrix A → Matrix A
  clear_cell source target m =
      if F.eq (get m target source) F.zero
      then m
      else add_scaled_row source target (get m target source) m

  unfoldable pub eliminate_below : ℕ → Matrix A → Matrix A
  eliminate_below r m =
      let m' = if F.eq (get m r r) F.one then m else scale_row r (F.div F.one (get m r r)) m in
      for_range (r + 1) m'.row_count (λ r_below m. clear_cell r r_below m) m'

  -- One round of the first loop of `gaussian_elim`.
  unfoldable pub forward_step : ℕ → Matrix A → Result Error (Matrix A)
  forward_step r m = do
    let m' = ensure_pivot r m
    fail_if (F.eq (get m' r r) F.zero) singular_matrix
    ok (eliminate_below r m')

  -- One round of the second loop.
  unfoldable pub backward_step : ℕ → Matrix A → Matrix A
  backward_step d m = for_range 0 d (λ r_above m. clear_cell d r_above m) m

  unfoldable pub gaussian_elim : Matrix A → Result Error (Matrix A)
  gaussian_elim m = do
    m' ← try_range 0 m.row_count forward_step m
    ok (for_range 0 m'.row_count backward_step m')

  unfoldable pub invert : Matrix A → Result Error (Matrix A)
  invert m = do
    fail_if (not (is_square m)) non_square
    work ← augment m (identity m.row_count)
    work ← gaussian_elim work
    ok (sub_matrix work 0 m.row_count m.col_count (m.col_count * 2))

  unfoldable pub vandermonde : ℕ → ℕ → Matrix A
  vandermonde rows cols =
      for_range 0 rows
        (λ r result. for_range 0 cols (λ c result. set result r c (F.exp (nth r) c)) result)
        (new rows cols)
