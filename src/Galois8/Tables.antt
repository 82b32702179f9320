-- ===== src/Galois8/Tables.antt =====
-- The tables that build.rs generates (gen_log_table, gen_exp_table, multiply, gen_mul_table,
-- gen_mul_table_half). Bytes and words are natural numbers; the casts are written out.
use reed_solomon_erasure.Base.{
  ℕ, ◌+◌, ◌-◌, ◌*◌, ◌/◌, ◌%◌, bit_xor, bit_and, ◌||◌, List, leb, ◌==◌, if◌then◌else◌, get_or, set,
  replicate, tabulate, length, for_range,
}

abbrev pub field_size : ℕ
field_size = 256

abbrev pub generating_polynomial : ℕ
generating_polynomial = 29

abbrev pub exp_table_size : ℕ
exp_table_size = field_size * 2 - 2

-- `b <<= 1; if FIELD_SIZE <= b { b = (b - FIELD_SIZE) ^ polynomial }`.
unfoldable pub advance : ℕ → ℕ → ℕ
advance polynomial b =
    let b' = b * 2 in if leb field_size b' then bit_xor (b' - field_size) polynomial else b'

unfoldable pub log_step : ℕ → ℕ → List ℕ × ℕ → List ℕ × ℕ
log_step polynomial log (result, b) = (set result b (log % 256), advance polynomial b)

unfoldable pub gen_log_table : ℕ → List ℕ
unfolding log_step advance
gen_log_table polynomial =
    (for_range 0 (field_size - 1) (log_step polynomial) (replicate field_size 0, 1)).0

unfoldable pub exp_step : List ℕ → ℕ → List ℕ → List ℕ
exp_step log_table i result =
    let log = get_or log_table i 0 in
    set (set result log (i % 256)) (log + field_size - 1) (i % 256)

unfoldable pub gen_exp_table : List ℕ → List ℕ
unfolding exp_step
gen_exp_table log_table =
    for_range 1 (length log_table) (exp_step log_table) (replicate exp_table_size 0)

unfoldable pub multiply : List ℕ → List ℕ → ℕ → ℕ → ℕ
multiply log_table exp_table a b =
    if a == 0 || b == 0 then 0 else get_or exp_table (get_or log_table a 0 + get_or log_table b 0) 0

unfoldable pub gen_mul_table : List ℕ → List ℕ → List (List ℕ)
gen_mul_table log_table exp_table =
    tabulate 0 field_size (λ a. tabulate 0 field_size (λ b. multiply log_table exp_table a b))

-- The round of `gen_mul_table_half` for the cells `b` of row `a`, on this row of the two tables.
unfoldable pub half_step : List ℕ → List ℕ → ℕ → ℕ → List ℕ × List ℕ → List ℕ × List ℕ
half_step log_table exp_table a b (low, high) =
    let result = multiply log_table exp_table a b in
    (
      if bit_and b 15 == b then set low b result else low,
      if bit_and b 240 == b then set high (b / 16) result else high,
    )

unfoldable pub half_row : List ℕ → List ℕ → ℕ → List ℕ × List ℕ
unfolding half_step
half_row log_table exp_table a =
    for_range 0 field_size (half_step log_table exp_table a) (replicate 16 0, replicate 16 0)

-- A row of either table is written in the rounds of its own index only.
unfoldable pub gen_mul_table_half : List ℕ → List ℕ → List (List ℕ) × List (List ℕ)
unfolding half_row
gen_mul_table_half log_table exp_table = (
  tabulate 0 field_size (λ a. (half_row log_table exp_table a).0),
  tabulate 0 field_size (λ a. (half_row log_table exp_table a).1),
)

-- What `table.rs` holds.
unfoldable pub log_table : List ℕ
unfolding gen_log_table
log_table = gen_log_table generating_polynomial

unfoldable pub exp_table : List ℕ
unfolding gen_exp_table log_table
exp_table = gen_exp_table log_table

unfoldable pub mul_table : List (List ℕ)
unfolding gen_mul_table
mul_table = gen_mul_table log_table exp_table

unfoldable pub mul_table_low : List (List ℕ)
unfolding gen_mul_table_half log_table exp_table
mul_table_low = (gen_mul_table_half log_table exp_table).0

unfoldable pub mul_table_high : List (List ℕ)
unfolding gen_mul_table_half log_table exp_table
mul_table_high = (gen_mul_table_half log_table exp_table).1
