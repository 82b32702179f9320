-- ===== src/Galois8/Arith.antt =====
-- The scalar operations of src/galois_8/mod.rs. A `u8` is a number below 256.
use reed_solomon_erasure.Base.{
  ℕ, zero, suc, ◌+◌, ◌-◌, ◌*◌, ◌%◌, ◌^◌, bit_xor, true, false, ◌||◌, [], leb, ltb, ◌==◌,
  if◌then◌else◌, get_or,
}
use reed_solomon_erasure.Galois8.Tables.{log_table, exp_table, mul_table}

unfoldable pub add : ℕ → ℕ → ℕ
add a b = bit_xor a b

unfoldable pub mul : ℕ → ℕ → ℕ
mul a b = get_or (get_or mul_table a []) b 0

-- `log_a as isize - log_b as isize`, with 255 added to a negative difference.
unfoldable pub log_difference : ℕ → ℕ → ℕ
log_difference log_a log_b = if ltb log_a log_b then log_a + 255 - log_b else log_a - log_b

-- A zero divisor gives 0, not a panic.
unfoldable pub div : ℕ → ℕ → ℕ
unfolding log_difference
div a b =
    if a == 0 || b == 0
    then 0
    else get_or exp_table (log_difference (get_or log_table a 0) (get_or log_table b 0)) 0

-- `while 255 <= log_result { log_result -= 255; }`, on fuel: the number itself is enough.
unfoldable pub reduce_log : ℕ → ℕ → ℕ
reduce_log zero log_result = log_result
reduce_log (suc fuel) log_result = elim (leb 255 log_result) [
  | true ↦ reduce_log fuel (log_result - 255)
  | false ↦ log_result
]

-- The product `log_a as usize * n` wraps at the width of `usize` in a release build.
unfoldable pub exp : ℕ → ℕ → ℕ
exp a n =
    if n == 0
    then 1
    else if a == 0
    then 0
    else let log_result = get_or log_table a 0 * n % 2 ^ 64 in
      get_or exp_table (reduce_log log_result log_result) 0
