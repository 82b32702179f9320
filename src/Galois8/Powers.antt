-- ===== src/Galois8/Powers.antt =====
-- `galois_8::exp` is repeated multiplication, as long as the product of logarithm and exponent
-- fits a `usize`.
use reed_solomon_erasure.Base.{
  ℕ, zero, suc, ◌-◌, ◌*◌, ◌%◌, ◌^◌, ◌≤◌, ◌<◌, ◌≡◌, refl, sym, ◌∙◌, ap, arith, inl,
}
use reed_solomon_erasure.Galois8.Arith.{mul, exp, reduce_log}
use reed_solomon_erasure.Galois8.Logs.{log, power, power_lem, log_lem, mul-zero, mul_mod}
use reed_solomon_erasure.Galois8.Laws.{one-mul, mul_comm}

-- The fuel is enough, and the loop computes the remainder.
pub reduce_log-mod : (fuel n : ℕ) → n ≤ fuel → reduce_log fuel n ≡ n % 255
unfolding reduce_log
reduce_log-mod zero n h = omega arith
reduce_log-mod (suc fuel) n h = ground (arith, reduce_log-mod fuel (n - 255))

fits : (a n : ℕ) → 0 < a → a < 256 → 255 * n < 2 ^ 64 → log a * n < 2 ^ 64
fits a n q p h = let l = (log_lem a q p).1 in grind arith

exp-power_any : (a n : ℕ) → 0 < a → exp a (suc n) ≡ power (log a * suc n % 2 ^ 64 % 255)
unfolding exp log power
exp-power_any a n p =
    ground (arith, reduce_log-mod (log a * suc n % 2 ^ 64) (log a * suc n % 2 ^ 64))

exp-power : (a n : ℕ) → 0 < a → log a * suc n < 2 ^ 64 → exp a (suc n) ≡ power (log a * suc n % 255)
exp-power a n p h = exp-power_any a n p ∙ ap power (ap (λ (t : ℕ). t % 255) (omega arith))

pub exp-zero : (a : ℕ) → exp a 0 ≡ 1
unfolding exp
exp-zero a = refl

zero-exp : (n : ℕ) → exp 0 (suc n) ≡ 0
unfolding exp
zero-exp n = ground arith

pub exp-lt : (a n : ℕ) → a < 256 → exp a n < 256
exp-lt a zero p = omega (arith, exp-zero a)
exp-lt zero (suc n) p = omega (arith, zero-exp n)
exp-lt (suc a) (suc n) p =
    rw (exp-power_any (suc a) n (omega arith))
      (power_lem (log (suc a) * suc n % 2 ^ 64 % 255) (omega arith)).2

-- Each further exponent is one more factor.
pub exp-suc : (a n : ℕ) → a < 256 → 255 * suc n < 2 ^ 64 → exp a (suc n) ≡ mul a (exp a n)
exp-suc zero n p h = zero-exp n ∙ sym (mul-zero 0 (exp 0 n) p (exp-lt 0 n p) (inl refl))
exp-suc (suc a) zero p h =
    exp-power (suc a) 0 (omega arith) (fits (suc a) 1 (omega arith) p h)
    ∙ (ap power (omega (arith, log_lem (suc a) (omega arith) p))
        ∙ ((log_lem (suc a) (omega arith) p).0
            ∙ sym (rw (exp-zero (suc a)) (mul_comm (suc a) 1 p (omega arith) ∙ one-mul (suc a) p))))
exp-suc (suc a) (suc n) p h =
    let l = power_lem (log (suc a) * suc n % 255) (omega arith) in
    exp-power (suc a) (suc n) (omega arith) (fits (suc a) (suc (suc n)) (omega arith) p h)
    ∙ sym (
        rw (exp-power (suc a) n (omega arith) (fits (suc a) (suc n) (omega arith) p (omega arith)))
          (mul_mod (suc a) (power (log (suc a) * suc n % 255)) (omega arith) p l.1 l.2
            ∙ ap power (omega (arith, l.0))))
