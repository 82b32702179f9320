-- ===== src/Field/Sum.antt =====
-- Finite sums in a field, by the index.
use reed_solomon_erasure.Base.{ℕ, zero, suc, ◌<◌, ◌≡◌, refl, sym, ◌∙◌, ap, ap₂, arith}
use native.Mathlib.Decide.{dec_lt}
use reed_solomon_erasure.Field.{Field, FieldLaws}
use reed_solomon_erasure.Field.Laws.{add-zero, add_interchange, mul-zero}

module _ {ℓ} {A : Type ℓ} ⦃F : Field A⦄ where
  -- f 0 + ... + f (n - 1), from the left as the source's loops add it.
  unfoldable pub sum : ℕ → (ℕ → A) → A
  sum zero f = F.zero
  sum (suc n) f = F.add (sum n f) (f n)

  pub sum_congr : (n : ℕ) (f g : ℕ → A) → ((k : ℕ) → k < n → f k ≡ g k) → sum n f ≡ sum n g
  unfolding sum
  sum_congr zero f g h = refl
  sum_congr (suc n) f g h =
      ap₂ F.add (sum_congr n f g (λ k p. h k (omega arith))) (h n (omega arith))

module _ {ℓ} {A : Type ℓ} ⦃F : Field A⦄ (L : FieldLaws F) where
  pub sum-zero : (n : ℕ) (f : ℕ → A) → ((k : ℕ) → k < n → f k ≡ F.zero) → sum n f ≡ F.zero
  unfolding sum
  sum-zero zero f h = refl
  sum-zero (suc n) f h =
      ap₂ F.add (sum-zero n f (λ k p. h k (omega arith))) (h n (omega arith)) ∙ L.zero-add F.zero

  pub sum-add : (n : ℕ) (f g : ℕ → A) → sum n (λ k. F.add (f k) (g k)) ≡ F.add (sum n f) (sum n g)
  unfolding sum
  sum-add zero f g = sym (L.zero-add F.zero)
  sum-add (suc n) f g =
      ap (λ t. F.add t (F.add (f n) (g n))) (sum-add n f g)
      ∙ add_interchange L (sum n f) (sum n g) (f n) (g n)

  pub mul-sum : (n : ℕ) (a : A) (f : ℕ → A) → F.mul a (sum n f) ≡ sum n (λ k. F.mul a (f k))
  unfolding sum
  mul-sum zero a f = mul-zero L a
  mul-sum (suc n) a f =
      L.mul-add a (sum n f) (f n) ∙ ap (λ t. F.add t (F.mul a (f n))) (mul-sum n a f)

  pub sum_comm :
      (rows cols : ℕ) (cell : ℕ → ℕ → A)
      → sum rows (λ r. sum cols (cell r)) ≡ sum cols (λ c. sum rows (λ r. cell r c))
  unfolding sum
  sum_comm zero cols cell = sym (sum-zero cols _ (λ c p. refl))
  sum_comm (suc rows) cols cell =
      ap (λ t. F.add t (sum cols (cell rows))) (sum_comm rows cols cell)
      ∙ sym (sum-add cols (λ c. sum rows (λ r. cell r c)) (cell rows))

  -- Only the term at `i` survives.
  pub sum_single :
      (n i : ℕ) (f : ℕ → A) → i < n → ((k : ℕ) → k < n → ¬ (k ≡ i) → f k ≡ F.zero) → sum n f ≡ f i
  unfolding sum
  sum_single zero i f p h = absurd (omega arith)
  sum_single (suc n) i f p h = elim (dec_lt i n) [
    | yes below ↦
        ap₂ F.add (sum_single n i f below (λ k q. h k (omega arith)))
          (h n (omega arith) (omega arith))
        ∙ add-zero L (f i)
    | no above ↦
        let e : n ≡ i = omega arith in
        ap₂ F.add (sum-zero n f (λ k q. h k (omega arith) (omega arith))) (ap f e)
        ∙ L.zero-add (f i)
  ]
