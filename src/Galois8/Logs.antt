-- ===== src/Galois8/Logs.antt =====
-- What the generated tables hold: logarithm and power are inverse, and multiplication adds
-- logarithms modulo 255.
use reed_solomon_erasure.Base.{
  ℕ, zero, suc, ◌+◌, ◌-◌, ◌%◌, ◌<◌, ◌≡◌, refl, Bool, true, ◌&&◌, List, [], arith, ltb, ◌==◌, get_or,
  all_below, all_below_sound, get_or-tabulate, tabulate, ap, ap₂, ◌⊎◌, ◌∙◌,
}
use native.Mathlib.Decide.{dec_lt}
use reed_solomon_erasure.Galois8.Tables.{
  log_table, exp_table, mul_table, multiply, advance, generating_polynomial,
}
use reed_solomon_erasure.Galois8.Arith.{mul}

unfoldable pub log : ℕ → ℕ
log a = get_or log_table a 0

unfoldable pub power : ℕ → ℕ
power k = get_or exp_table k 0

power_table : List ℕ → List ℕ → Bool
power_table l e = all_below 255 (λ k.
    (get_or l (get_or e k 0) 0 == k)
    && (ltb 0 (get_or e k 0) && (ltb (get_or e k 0) 256 && (get_or e (k + 255) 0 == get_or e k 0))))

power_table_holds : power_table log_table exp_table ≡ true
unfolding power_table log_table exp_table
power_table_holds = refl

pub power_lem :
    (k : ℕ)
    → k < 255
    → (log (power k) ≡ k) × (0 < power k) × (power k < 256) × (power (k + 255) ≡ power k)
unfolding power_table log power
power_lem k h =
    let e =
      all_below_sound 255
        (λ k.
          (get_or log_table (get_or exp_table k 0) 0 == k)
          && (ltb 0 (get_or exp_table k 0)
              && (ltb (get_or exp_table k 0) 256
                  && (get_or exp_table (k + 255) 0 == get_or exp_table k 0))))
        k power_table_holds h in
    ground arith

log_table_check : List ℕ → List ℕ → Bool
log_table_check l e =
    all_below 255 (λ a. (get_or e (get_or l (a + 1) 0) 0 == a + 1) && ltb (get_or l (a + 1) 0) 255)

log_table_holds : log_table_check log_table exp_table ≡ true
unfolding log_table_check log_table exp_table
log_table_holds = refl

pub log_lem : (a : ℕ) → 0 < a → a < 256 → (power (log a) ≡ a) × (log a < 255)
unfolding log_table_check log power
log_lem zero p h = absurd (omega arith)
log_lem (suc a) p h =
    let e =
      all_below_sound 255
        (λ a.
          (get_or exp_table (get_or log_table (a + 1) 0) 0 == a + 1)
          && ltb (get_or log_table (a + 1) 0) 255)
        a log_table_holds (omega arith) in
    let s : a + 1 ≡ suc a = omega arith in
    let r : (get_or exp_table (get_or log_table (a + 1) 0) 0 ≡ a + 1)
        × (get_or log_table (a + 1) 0 < 255) =
      ground arith in
    rw s at r

step_table : List ℕ → Bool
step_table e =
    all_below 509 (λ k. get_or e (k + 1) 0 == advance generating_polynomial (get_or e k 0))

step_table_holds : step_table exp_table ≡ true
unfolding step_table exp_table advance
step_table_holds = refl

-- The next power is the shift with its reduction.
pub power-suc : (k : ℕ) → k < 509 → power (k + 1) ≡ advance generating_polynomial (power k)
unfolding step_table power
power-suc k h =
    let e =
      all_below_sound 509
        (λ k. get_or exp_table (k + 1) 0 == advance generating_polynomial (get_or exp_table k 0)) k
        step_table_holds h in
    ground arith

pub power-zero : power 0 ≡ 1
unfolding power exp_table
power-zero = refl

pub log-one : log 1 ≡ 0
unfolding log log_table
log-one = refl

table_lookup :
    (n : ℕ) (f : ℕ → ℕ → ℕ) (a b : ℕ)
    → a < n
    → b < n
    → get_or (get_or (tabulate 0 n (λ a. tabulate 0 n (λ b. f a b))) a []) b 0 ≡ f a b
table_lookup n f a b p q =
    rw (get_or-tabulate 0 n (λ a. tabulate 0 n (λ b. f a b)) a [] p)
      (rw (get_or-tabulate 0 n (λ b. f (0 + a) b) b 0 q) (ap₂ f (omega arith) (omega arith)))

-- For two bytes, the lookup in the generated multiplication table gives what `multiply` of the build
-- script computes from the logarithm and exponent tables.
pub mul-multiply : (a b : ℕ) → a < 256 → b < 256 → mul a b ≡ multiply log_table exp_table a b
unfolding mul mul_table
mul-multiply a b p q = table_lookup 256 (multiply log_table exp_table) a b p q

pub mul-zero : (a b : ℕ) → a < 256 → b < 256 → (a ≡ 0) ⊎ (b ≡ 0) → mul a b ≡ 0
unfolding multiply
mul-zero a b p q h = ground (arith, mul-multiply a b p q)

pub mul-logs : (a b : ℕ) → 0 < a → a < 256 → 0 < b → b < 256 → mul a b ≡ power (log a + log b)
unfolding multiply log power
mul-logs a b p q r s = ground (arith, mul-multiply a b q s)

-- The second half of the power table repeats the first.
pub power_mod : (k : ℕ) → k < 510 → power k ≡ power (k % 255)
power_mod k h = elim (dec_lt k 255) [
  | yes p ↦ ap power (omega arith)
  | no p ↦
      ap power (let e : k ≡ k - 255 + 255 = omega arith in e)
      ∙ ((power_lem (k - 255) (omega arith)).3 ∙ ap power (omega arith))
]

pub mul_mod :
    (a b : ℕ) → 0 < a → a < 256 → 0 < b → b < 256 → mul a b ≡ power ((log a + log b) % 255)
mul_mod a b p q r s =
    mul-logs a b p q r s ∙ power_mod (log a + log b) (omega (arith, log_lem a p q, log_lem b r s))

-- A product of non-zero bytes is a non-zero byte, whose logarithm is the sum modulo 255.
pub mul_nonzero :
    (a b : ℕ)
    → 0 < a
    → a < 256
    → 0 < b
    → b < 256
    → (0 < mul a b) × (mul a b < 256) × (log (mul a b) ≡ (log a + log b) % 255)
mul_nonzero a b p q r s =
    let l = power_lem ((log a + log b) % 255) (omega arith) in
    rw (mul_mod a b p q r s) (l.1, l.2, l.0)
