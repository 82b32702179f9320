-- ===== src/Galois8/Laws.antt =====
-- GF(2^8) is a field of characteristic two: the laws of `add`, `mul` and `div`.
use reed_solomon_erasure.Base.{
  ℕ, zero, suc, ◌+◌, ◌%◌, ◌<◌, ◌≡◌, refl, sym, ◌∙◌, ap, ap₂, true, arith, ltb, ◌==◌, ==_iff,
  all_below, all_below_sound, bit_xor, ◌⊎◌, inl, inr,
}
use reed_solomon_erasure.Base.Bits.{zero-xor, xor-lt}
use reed_solomon_erasure.Galois8.Tables.{advance, generating_polynomial}
use reed_solomon_erasure.Galois8.Arith.{add, mul, div, log_difference}
use reed_solomon_erasure.Galois8.Logs.{
  log, power, power_lem, log_lem, power-suc, power-zero, log-one, mul-zero, mul-logs, mul_mod,
  mul_nonzero,
}

pub zero_or_pos : (a : ℕ) → (a ≡ 0) ⊎ (0 < a)
zero_or_pos zero = inl refl
zero_or_pos (suc a) = inr (omega arith)

pub add-lt : (a b : ℕ) → a < 256 → b < 256 → add a b < 256
unfolding add
add-lt a b p q = xor-lt 8 a b p q

pub mul-lt : (a b : ℕ) → a < 256 → b < 256 → mul a b < 256
mul-lt a b p q = elim (zero_or_pos a) [
  | inl za ↦ omega (arith, mul-zero a b p q (inl za))
  | inr pa ↦ elim (zero_or_pos b) [
    | inl zb ↦ omega (arith, mul-zero a b p q (inr zb))
    | inr pb ↦ (mul_nonzero a b pa p pb q).1
  ]
]

pub mul_comm : (a b : ℕ) → a < 256 → b < 256 → mul a b ≡ mul b a
mul_comm a b p q = elim (zero_or_pos a) [
  | inl za ↦ mul-zero a b p q (inl za) ∙ sym (mul-zero b a q p (inr za))
  | inr pa ↦ elim (zero_or_pos b) [
    | inl zb ↦ mul-zero a b p q (inr zb) ∙ sym (mul-zero b a q p (inl zb))
    | inr pb ↦ mul-logs a b pa p pb q ∙ ap power (omega arith) ∙ sym (mul-logs b a pb q pa p)
  ]
]

pub one-mul : (b : ℕ) → b < 256 → mul 1 b ≡ b
one-mul b q = elim (zero_or_pos b) [
  | inl zb ↦ mul-zero 1 b (omega arith) q (inr zb) ∙ sym zb
  | inr pb ↦
      mul-logs 1 b (omega arith) (omega arith) pb q
      ∙ (ap power (omega (arith, log-one)) ∙ (log_lem b pb q).0)
]

mul_assoc_nonzero :
    (a b c : ℕ)
    → 0 < a
    → a < 256
    → 0 < b
    → b < 256
    → 0 < c
    → c < 256
    → mul (mul a b) c ≡ mul a (mul b c)
mul_assoc_nonzero a b c pa p pb q pc r =
    let ab = mul_nonzero a b pa p pb q in
    let bc = mul_nonzero b c pb q pc r in
    mul_mod (mul a b) c ab.0 ab.1 pc r
    ∙ (ap power (omega (arith, ab.2, bc.2)) ∙ sym (mul_mod a (mul b c) pa p bc.0 bc.1))

pub mul_assoc : (a b c : ℕ) → a < 256 → b < 256 → c < 256 → mul (mul a b) c ≡ mul a (mul b c)
mul_assoc a b c p q r = elim (zero_or_pos a) [
  | inl za ↦
      mul-zero (mul a b) c (mul-lt a b p q) r (inl (mul-zero a b p q (inl za)))
      ∙ sym (mul-zero a (mul b c) p (mul-lt b c q r) (inl za))
  | inr pa ↦ elim (zero_or_pos b) [
    | inl zb ↦
        mul-zero (mul a b) c (mul-lt a b p q) r (inl (mul-zero a b p q (inr zb)))
        ∙ sym (mul-zero a (mul b c) p (mul-lt b c q r) (inr (mul-zero b c q r (inl zb))))
    | inr pb ↦ elim (zero_or_pos c) [
      | inl zc ↦
          mul-zero (mul a b) c (mul-lt a b p q) r (inr zc)
          ∙ sym (mul-zero a (mul b c) p (mul-lt b c q r) (inr (mul-zero b c q r (inr zc))))
      | inr pc ↦ mul_assoc_nonzero a b c pa p pb q pc r
    ]
  ]
]

abbrev next : ℕ → ℕ
next a = advance generating_polynomial a

next_table :
    all_below 256 (λ a. all_below 256 (λ b. next (bit_xor a b) == bit_xor (next a) (next b))) ≡ true
unfolding advance
next_table = refl

next-xor : (a b : ℕ) → a < 256 → b < 256 → next (bit_xor a b) ≡ bit_xor (next a) (next b)
next-xor a b p q = (==_iff _ _).0 (
    all_below_sound 256 (λ b. next (bit_xor a b) == bit_xor (next a) (next b)) b
      (all_below_sound 256
        (λ a. all_below 256 (λ b. next (bit_xor a b) == bit_xor (next a) (next b))) a next_table p)
      q)

next_lt_table : all_below 256 (λ a. ltb (next a) 256) ≡ true
unfolding advance
next_lt_table = refl

next-lt : (a : ℕ) → a < 256 → next a < 256
next-lt a p = let e = all_below_sound 256 (λ a. ltb (next a) 256) a next_lt_table p in ground arith

next-zero : next 0 ≡ 0
unfolding advance
next-zero = refl

shifted : ℕ → ℕ → ℕ
shifted zero b = b
shifted (suc k) b = next (shifted k b)

shifted-lt : (k b : ℕ) → b < 256 → shifted k b < 256
unfolding shifted
shifted-lt zero b p = p
shifted-lt (suc k) b p = next-lt (shifted k b) (shifted-lt k b p)

shifted-xor :
    (k a b : ℕ) → a < 256 → b < 256 → shifted k (bit_xor a b) ≡ bit_xor (shifted k a) (shifted k b)
unfolding shifted
shifted-xor zero a b p q = refl
shifted-xor (suc k) a b p q =
    ap next (shifted-xor k a b p q)
    ∙ next-xor (shifted k a) (shifted k b) (shifted-lt k a p) (shifted-lt k b q)

-- Multiplying by the k-th power of the generator is k shifts.
power-mul : (k b : ℕ) → k < 255 → b < 256 → mul (power k) b ≡ shifted k b
unfolding shifted
power-mul zero b h q = rw power-zero (one-mul b q)
power-mul (suc k) b h q = elim (zero_or_pos b) [
  | inl zb ↦
      mul-zero (power (suc k)) b (power_lem (suc k) h).2 q (inr zb)
      ∙ sym (
          ap next (
            sym (power-mul k b (omega arith) q)
            ∙ mul-zero (power k) b (power_lem k (omega arith)).2 q (inr zb))
          ∙ next-zero)
  | inr pb ↦
      let l = log_lem b pb q in
      let u = power_lem (suc k) h in
      let v = power_lem k (omega arith) in
      mul-logs (power (suc k)) b u.1 u.2 pb q
      ∙ (ap power (let e : log (power (suc k)) + log b ≡ k + log b + 1 = omega (arith, u.0) in e)
          ∙ (power-suc (k + log b) (omega (arith, l.1))
              ∙ (ap next (
                    ap power (let e : k + log b ≡ log (power k) + log b = omega (arith, v.0) in e)
                    ∙ sym (mul-logs (power k) b v.1 v.2 pb q))
                  ∙ ap next (power-mul k b (omega arith) q))))
]

pub mul-add : (a b c : ℕ) → a < 256 → b < 256 → c < 256 → mul a (add b c) ≡ add (mul a b) (mul a c)
unfolding add
mul-add a b c p q r = elim (zero_or_pos a) [
  | inl za ↦
      mul-zero a (bit_xor b c) p (xor-lt 8 b c q r) (inl za)
      ∙ (sym (zero-xor 0)
          ∙ sym (ap₂ bit_xor (mul-zero a b p q (inl za)) (mul-zero a c p r (inl za))))
  | inr pa ↦
      let l = log_lem a pa p in
      rw (← l.0) (
        power-mul (log a) (bit_xor b c) l.1 (xor-lt 8 b c q r)
        ∙ (shifted-xor (log a) b c q r
            ∙ sym (ap₂ bit_xor (power-mul (log a) b l.1 q) (power-mul (log a) c l.1 r))))
]

log_difference_lem :
    (i j : ℕ)
    → i < 255
    → j < 255
    → (log_difference i j < 255) × ((log_difference i j + j) % 255 ≡ i)
unfolding log_difference
log_difference_lem i j p q = ground arith

div-logs : (a b : ℕ) → 0 < a → 0 < b → div a b ≡ power (log_difference (log a) (log b))
unfolding div log power
div-logs a b p q = ground arith

zero-div : (a b : ℕ) → a ≡ 0 → div a b ≡ 0
unfolding div
zero-div a b h = ground arith

div-zero : (a b : ℕ) → b ≡ 0 → div a b ≡ 0
unfolding div
div-zero a b h = ground arith

pub div-lt : (a b : ℕ) → a < 256 → b < 256 → div a b < 256
div-lt a b p q = elim (zero_or_pos a) [
  | inl za ↦ omega (arith, zero-div a b za)
  | inr pa ↦ elim (zero_or_pos b) [
    | inl zb ↦ omega (arith, div-zero a b zb)
    | inr pb ↦
        let d = log_difference_lem (log a) (log b) (log_lem a pa p).1 (log_lem b pb q).1 in
        rw (div-logs a b pa pb) (power_lem (log_difference (log a) (log b)) d.0).2
  ]
]

-- Division undoes multiplication by a non-zero byte.
pub div-mul : (a b : ℕ) → a < 256 → 0 < b → b < 256 → mul (div a b) b ≡ a
div-mul a b p pb q = elim (zero_or_pos a) [
  | inl za ↦ mul-zero (div a b) b (div-lt a b p q) q (inl (zero-div a b za)) ∙ sym za
  | inr pa ↦
      let d = log_difference_lem (log a) (log b) (log_lem a pa p).1 (log_lem b pb q).1 in
      let l = power_lem (log_difference (log a) (log b)) d.0 in
      rw (div-logs a b pa pb) (
        mul_mod (power (log_difference (log a) (log b))) b l.1 l.2 pb q
        ∙ (ap power (ap (λ (t : ℕ). (t + log b) % 255) l.0 ∙ d.1) ∙ (log_lem a pa p).0))
]
