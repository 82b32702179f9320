-- ===== src/Galois8/Nibbles.antt =====
-- The tables of products with a half byte, from gen_mul_table_half of build.rs.
use reed_solomon_erasure.Base.{
  ℕ, ◌+◌, ◌*◌, ◌/◌, ◌%◌, ◌<◌, ◌≡◌, refl, sym, ◌∙◌, ap, ap₂, true, List, [], arith, ◌==◌, ==_iff,
  all_below, all_below_sound, bit_xor, get_or, tabulate, get_or-tabulate,
}
use reed_solomon_erasure.Galois8.Tables.{
  log_table, exp_table, multiply, half_row, half_step, gen_mul_table_half, mul_table_low,
  mul_table_high,
}
use reed_solomon_erasure.Galois8.Arith.{add, mul}
use reed_solomon_erasure.Galois8.Logs.{mul-multiply}
use reed_solomon_erasure.Galois8.Laws.{mul-add}

-- The loop over all bytes writes the products with the 16 low and with the 16 high half bytes.
half_row_lem :
    (l e : List ℕ) (a : ℕ)
    → half_row l e a
      ≡ (tabulate 0 16 (λ n. multiply l e a n), tabulate 0 16 (λ n. multiply l e a (n * 16)))
unfolding half_row half_step tabulate
half_row_lem l e a = refl

halves_table : all_below 256 (λ b. bit_xor (b % 16) (b / 16 * 16) == b) ≡ true
halves_table = refl

halves : (b : ℕ) → b < 256 → add (b % 16) (b / 16 * 16) ≡ b
unfolding add
halves b p =
    (==_iff _ _).0 (all_below_sound 256 (λ b. bit_xor (b % 16) (b / 16 * 16) == b) b halves_table p)

module _ (a b : ℕ) (p : a < 256) (q : b < 256) where
  low_cell : get_or (get_or mul_table_low a []) (b % 16) 0 ≡ mul a (b % 16)
  unfolding mul_table_low gen_mul_table_half
  low_cell =
      ap (λ row. get_or row (b % 16) 0)
        (get_or-tabulate 0 256 (λ a. (half_row log_table exp_table a).0) a [] p
          ∙ ap (λ rows. rows.0) (half_row_lem log_table exp_table (0 + a)))
      ∙ (get_or-tabulate 0 16 (λ n. multiply log_table exp_table (0 + a) (n)) (b % 16) 0
            (omega arith)
          ∙ (ap₂ (multiply log_table exp_table) (omega arith) (omega arith)
              ∙ sym (mul-multiply a (b % 16) p (omega arith))))

  high_cell : get_or (get_or mul_table_high a []) (b / 16) 0 ≡ mul a (b / 16 * 16)
  unfolding mul_table_high gen_mul_table_half
  high_cell =
      ap (λ row. get_or row (b / 16) 0)
        (get_or-tabulate 0 256 (λ a. (half_row log_table exp_table a).1) a [] p
          ∙ ap (λ rows. rows.1) (half_row_lem log_table exp_table (0 + a)))
      ∙ (get_or-tabulate 0 16 (λ n. multiply log_table exp_table (0 + a) (n * 16)) (b / 16) 0
            (omega arith)
          ∙ (ap₂ (multiply log_table exp_table) (omega arith) (omega arith)
              ∙ sym (mul-multiply a (b / 16 * 16) p (omega arith))))

  -- For two bytes, the entry of the low table for the first byte and the low half of the second, added
  -- to the entry of the high table for the first byte and the high half of the second, is their
  -- product.
  pub add-halves :
      add
        (get_or (get_or mul_table_low a []) (b % 16) 0)
        (get_or (get_or mul_table_high a []) (b / 16) 0)
      ≡ mul a b
  add-halves =
      ap₂ add low_cell high_cell
      ∙ (sym (mul-add a (b % 16) (b / 16 * 16) p (omega arith) (omega arith))
          ∙ ap (mul a) (halves b q))
