-- ===== src/Galois8/Polynomial.antt =====
-- The product of two bytes as polynomials over the two-element field: the independent description
-- of what the multiplication table of build.rs holds.
use reed_solomon_erasure.Base.{
  ℕ, zero, suc, ◌+◌, ◌-◌, ◌*◌, ◌/◌, ◌%◌, ◌^◌, ◌<◌, ◌≡◌, refl, true, bit_xor, if◌then◌else◌, ◌==◌,
  all_below, all_below_sound, ==_iff, Bool, arith, ◌∙◌, subst,
}
use native.Mathlib.Decide.{dec_lt}
use reed_solomon_erasure.Galois8.Tables.{log_table, exp_table, multiply}
use reed_solomon_erasure.Galois8.Arith.{mul}
use reed_solomon_erasure.Galois8.Logs.{mul-multiply}

-- The bits of the second factor choose the shifts of the first that are added without carry.
unfoldable pub carryless : ℕ → ℕ → ℕ → ℕ
carryless zero a b = 0
carryless (suc bits) a b =
    let rest = carryless bits a (b / 2) in bit_xor (if b % 2 == 1 then a else 0) (2 * rest)

-- The remainder by x^8 + x^4 + x^3 + x^2 + 1, whose bits are 285, for a degree below `steps + 8`.
unfoldable pub remainder : ℕ → ℕ → ℕ
remainder zero p = p
remainder (suc steps) p =
    remainder steps (if p / 2 ^ (steps + 8) % 2 == 1 then bit_xor p (285 * 2 ^ steps) else p)

agrees : ℕ → ℕ → Bool
agrees a b = multiply log_table exp_table a b == remainder 7 (carryless 8 a b)

-- The comparison of all bytes, in four parts of 64 rows.
part : ℕ → Bool
part first = all_below 64 (λ i. all_below 256 (λ b. agrees (first + i) b))

part_0_holds : part 0 ≡ true
unfolding part agrees multiply log_table exp_table remainder carryless
part_0_holds = refl

part_64_holds : part 64 ≡ true
unfolding part agrees multiply log_table exp_table remainder carryless
part_64_holds = refl

part_128_holds : part 128 ≡ true
unfolding part agrees multiply log_table exp_table remainder carryless
part_128_holds = refl

part_192_holds : part 192 ≡ true
unfolding part agrees multiply log_table exp_table remainder carryless
part_192_holds = refl

part_lem :
    (first a b : ℕ)
    → part first ≡ true
    → first < a + 1
    → a < first + 64
    → b < 256
    → multiply log_table exp_table a b ≡ remainder 7 (carryless 8 a b)
unfolding part agrees
part_lem first a b holds p q r =
    let same : first + (a - first) ≡ a = omega arith in
    subst (λ k. multiply log_table exp_table k b ≡ remainder 7 (carryless 8 k b)) same
      ((==_iff _ _).0 (
        all_below_sound 256 (λ b. agrees (first + (a - first)) b) b
          (all_below_sound 64 (λ i. all_below 256 (λ b. agrees (first + i) b)) (a - first) holds
            (omega arith))
          r))

-- For two bytes, `mul` by the generated table is the product of the two as polynomials over the
-- field with two elements, modulo x^8 + x^4 + x^3 + x^2 + 1.
pub mul_lem : (a b : ℕ) → a < 256 → b < 256 → mul a b ≡ remainder 7 (carryless 8 a b)
mul_lem a b p q = mul-multiply a b p q ∙ elim (dec_lt a 64) [
  | yes h ↦ part_lem 0 a b part_0_holds (omega arith) (omega arith) q
  | no n ↦ elim (dec_lt a 128) [
    | yes h ↦ part_lem 64 a b part_64_holds (omega arith) (omega arith) q
    | no m ↦ elim (dec_lt a 192) [
      | yes h ↦ part_lem 128 a b part_128_holds (omega arith) (omega arith) q
      | no l ↦ part_lem 192 a b part_192_holds (omega arith) (omega arith) q
    ]
  ]
]
