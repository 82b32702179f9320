-- ===== src/Base/Loops.antt =====
-- `for i in lo..hi`, and its invariant rule.
use Prim.Native.Nat.{ℕ, zero, suc, ◌+◌, ◌-◌, ◌<◌, ◌≤◌}
use mathlib.Core.Path.{◌≡◌, subst}
use native.Mathlib.Omega.{arith}

module _ {ℓ} {S : Type ℓ} where
  -- The loop with `n` rounds left, at index `lo`.
  abbrev pub for_rounds : ℕ → ℕ → (ℕ → S → S) → S → S
  for_rounds lo zero body s = s
  for_rounds lo (suc n) body s = for_rounds (suc lo) n body (body lo s)

  -- `for i in lo..hi { s = body(i, s) }`: no round when `hi <= lo`.
  abbrev pub for_range : ℕ → ℕ → (ℕ → S → S) → S → S
  for_range lo hi body s = for_rounds lo (hi - lo) body s

  for_rounds_inv {κ} :
      (P : ℕ → S → Type κ) (lo n hi : ℕ) (body : ℕ → S → S)
      → lo + n ≡ hi
      → ((i : ℕ) (s : S) → lo ≤ i → i < hi → P i s → P (suc i) (body i s))
      → (s : S) → P lo s
      → P hi (for_rounds lo n body s)
  for_rounds_inv P lo zero hi body e step s p =
      let same : lo ≡ hi = omega arith in subst (λ k. P k s) same p
  for_rounds_inv P lo (suc n) hi body e step s p =
      for_rounds_inv P (suc lo) n hi body (omega arith) (λ i t a b. step i t (omega arith) b)
        (body lo s) (step lo s (omega arith) (omega arith) p)

  -- What holds before the loop and is kept by each round holds after it.
  pub for_range_inv {κ} :
      (P : ℕ → S → Type κ) (lo hi : ℕ) (body : ℕ → S → S)
      → lo ≤ hi
      → ((i : ℕ) (s : S) → lo ≤ i → i < hi → P i s → P (suc i) (body i s))
      → (s : S) → P lo s
      → P hi (for_range lo hi body s)
  for_range_inv P lo hi body h step s p =
      for_rounds_inv P lo (hi - lo) hi body (omega arith) step s p
