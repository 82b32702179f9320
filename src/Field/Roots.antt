-- ===== src/Field/Roots.antt =====
-- A polynomial with as many different roots as coefficients is zero. The coefficients are given from
-- the leading one on, and the value is computed by Horner's rule.
use reed_solomon_erasure.Base.{
  ℕ, zero, suc, ◌-◌, ◌<◌, ◌≤◌, ◌≡◌, ◌≢◌, refl, sym, ◌∙◌, ap, ap₂, arith,
}
use native.Mathlib.Decide.{ℕ_discrete}
use reed_solomon_erasure.Field.{Field, FieldLaws}
use reed_solomon_erasure.Field.Laws.{add-zero, mul-zero, add-mul, add-add_self, eq_of_add-zero}
use reed_solomon_erasure.Field.Sum.{sum, sum_congr, mul-sum}

module _ {ℓ} {A : Type ℓ} ⦃F : Field A⦄ where
  unfoldable pub horner : ℕ → (ℕ → A) → A → A
  horner zero c y = F.zero
  horner (suc n) c y = F.add (F.mul (horner n c y) y) (c n)

  pub horner_congr :
      (n : ℕ) (b c : ℕ → A) (y : A) → ((k : ℕ) → k < n → b k ≡ c k) → horner n b y ≡ horner n c y
  unfolding horner
  horner_congr zero b c y h = refl
  horner_congr (suc n) b c y h =
      ap₂ (λ s t. F.add (F.mul s y) t) (horner_congr n b c y (λ k p. h k (omega arith)))
        (h n (omega arith))

module _ {ℓ} {A : Type ℓ} ⦃F : Field A⦄ (L : FieldLaws F) where
  -- In a field only zero has a multiple with a non-zero factor that is zero.
  pub cancel : (a b : A) → a ≢ F.zero → F.mul a b ≡ F.zero → b ≡ F.zero
  cancel a b ne h =
      sym (L.one-mul b)
      ∙ (ap (λ t. F.mul t b) (sym (L.div-mul F.one a ne))
          ∙ (L.mul_assoc (F.div F.one a) a b
              ∙ (ap (F.mul (F.div F.one a)) h ∙ mul-zero L (F.div F.one a))))

  -- Regrouping for the division step, where the two terms `a h` cancel.
  regroup :
      (y a q h c : A)
      → F.add (F.mul (F.add (F.mul (F.add y a) q) h) y) c
        ≡ F.add (F.mul (F.add y a) (F.add (F.mul q y) h)) (F.add (F.mul h a) c)
  regroup y a q h c =
      let s = F.add y a in
      let w = F.mul h a in
      let left : F.add (F.mul (F.add (F.mul s q) h) y) c
          ≡ F.add (F.add (F.mul s (F.mul q y)) (F.mul h y)) c =
        ap (λ t. F.add t c)
          (add-mul L (F.mul s q) h y ∙ ap (λ t. F.add t (F.mul h y)) (L.mul_assoc s q y)) in
      let product : F.mul s (F.add (F.mul q y) h)
          ≡ F.add (F.add (F.mul s (F.mul q y)) (F.mul h y)) w =
        L.mul-add s (F.mul q y) h
        ∙ (ap (F.add (F.mul s (F.mul q y)))
              (add-mul L y a h ∙ ap₂ F.add (L.mul_comm y h) (L.mul_comm a h))
            ∙ sym (L.add_assoc (F.mul s (F.mul q y)) (F.mul h y) w)) in
      left
      ∙ sym (
          ap (λ t. F.add t (F.add w c)) product
          ∙ (L.add_assoc (F.add (F.mul s (F.mul q y)) (F.mul h y)) w (F.add w c)
              ∙ ap (F.add (F.add (F.mul s (F.mul q y)) (F.mul h y))) (add-add_self L w c)))

  -- Division by `y - a`: the quotient's coefficients are the partial results of Horner's rule.
  division :
      (n : ℕ) (c : ℕ → A) (a y : A)
      → horner (suc n) c y
        ≡ F.add (F.mul (F.add y a) (horner n (λ k. horner (suc k) c a) y)) (horner (suc n) c a)
  unfolding horner
  division zero c a y =
      ap (λ t. F.add t (c 0)) (L.zero-mul y ∙ sym (L.zero-mul a))
      ∙ sym (
          ap (λ t. F.add t (F.add (F.mul F.zero a) (c 0))) (mul-zero L (F.add y a))
          ∙ L.zero-add (F.add (F.mul F.zero a) (c 0)))
  division (suc n) c a y =
      ap (λ t. F.add (F.mul t y) (c (suc n))) (division n c a y)
      ∙ regroup y a (horner n (λ k. horner (suc k) c a) y) (horner (suc n) c a) (c (suc n))

  -- All coefficients of a polynomial with as many different roots as coefficients are zero.
  pub roots_lem :
      (n : ℕ) (c root : ℕ → A)
      → ((i j : ℕ) → i < n → j < n → root i ≡ root j → i ≡ j)
      → ((i : ℕ) → i < n → horner n c (root i) ≡ F.zero)
      → (k : ℕ) → k < n
      → c k ≡ F.zero
  unfolding horner
  roots_lem zero c root distinct zeros k p = absurd (omega arith)
  roots_lem (suc n) c root distinct zeros k p =
      let a = root n in
      let quotient : (k : ℕ) → k < n → horner (suc k) c a ≡ F.zero =
        roots_lem n (λ k. horner (suc k) c a) root
          (λ i j u w. distinct i j (omega arith) (omega arith))
          (λ i u.
            cancel (F.add (root i) a) (horner n (λ k. horner (suc k) c a) (root i))
              (λ e.
                let same : i ≡ n =
                  distinct i n (omega arith) (omega arith) (eq_of_add-zero L (root i) a e) in
                absurd (omega arith))
              (sym (add-zero L _)
                ∙ (ap (F.add _) (sym (zeros n (omega arith)))
                    ∙ (sym (division n c a (root i)) ∙ zeros i (omega arith))))) in
      let vanishes : (j : ℕ) → j < suc (suc n) → horner j c a ≡ F.zero =
        partial_zeros quotient (zeros n (omega arith)) in
      sym (
        ap (λ t. F.add (F.mul t a) (c k)) (vanishes k (omega arith))
        ∙ (ap (λ t. F.add t (c k)) (L.zero-mul a) ∙ L.zero-add (c k)))
      ∙ vanishes (suc k) (omega arith)
    where
      partial_zeros :
          ((k : ℕ) → k < n → horner (suc k) c (root n) ≡ F.zero)
          → horner (suc n) c (root n) ≡ F.zero
          → (j : ℕ) → j < suc (suc n)
          → horner j c (root n) ≡ F.zero
      partial_zeros quotient last zero u = refl
      partial_zeros quotient last (suc i) u = elim (ℕ_discrete i n) [
        | yes same ↦ ap (λ j. horner (suc j) c (root n)) same ∙ last
        | no other ↦ quotient i (omega arith)
      ]

  -- The first term of a sum apart from the others.
  sum_front : (n : ℕ) (f : ℕ → A) → sum (suc n) f ≡ F.add (f 0) (sum n (λ k. f (suc k)))
  unfolding sum
  sum_front zero f = L.add_comm F.zero (f 0)
  sum_front (suc n) f =
      ap (λ t. F.add t (f (suc n))) (sum_front n f)
      ∙ L.add_assoc (f 0) (sum n (λ k. f (suc k))) (f (suc n))

  -- The value of a polynomial as a sum of powers.
  horner-sum :
      (n : ℕ) (x : ℕ → A) (a : A)
      → n ≤ F.order
      → horner n (λ k. x (n - suc k)) a ≡ sum n (λ k. F.mul (F.exp a k) (x k))
  unfolding horner
  horner-sum zero x a p = unfold sum in refl
  horner-sum (suc n) x a p =
      let rest : horner n (λ k. x (suc n - suc k)) a ≡ sum n (λ k. F.mul (F.exp a k) (x (suc k))) =
        horner_congr n (λ k. x (suc n - suc k)) (λ k. x (suc (n - suc k))) a
          (λ k u. ap x (omega arith))
        ∙ horner-sum n (λ k. x (suc k)) a (omega arith) in
      ap₂ (λ s t. F.add (F.mul s a) t) rest (ap x (omega arith))
      ∙ (L.add_comm _ (x 0)
          ∙ (ap₂ F.add (sym (L.one-mul (x 0)) ∙ ap (λ t. F.mul t (x 0)) (sym (L.exp-zero a))) (
                L.mul_comm _ a
                ∙ (mul-sum L n a (λ k. F.mul (F.exp a k) (x (suc k)))
                    ∙ sum_congr n _ _ (λ k u.
                      sym (L.mul_assoc a (F.exp a k) (x (suc k)))
                      ∙ ap (λ t. F.mul t (x (suc k)))
                          (sym (L.exp-suc a k (omega arith)) ∙ ap (F.exp a) (omega arith)))))
              ∙ sym (sum_front n (λ k. F.mul (F.exp a k) (x k)))))

  -- The rows of powers of different elements take only the zero vector to zero.
  pub powers-IsRegular :
      (n : ℕ) (point : ℕ → A)
      → n ≤ F.order
      → ((i j : ℕ) → i < n → j < n → point i ≡ point j → i ≡ j)
      → (x : ℕ → A) → ((r : ℕ) → r < n → sum n (λ c. F.mul (F.exp (point r) c) (x c)) ≡ F.zero)
      → (c : ℕ) → c < n
      → x c ≡ F.zero
  powers-IsRegular n point p distinct x zeros c u =
      ap x (let e : c ≡ n - suc (n - suc c) = omega arith in e)
      ∙ roots_lem n (λ k. x (n - suc k)) point distinct
          (λ i w. horner-sum n x (point i) p ∙ zeros i w) (n - suc c) (omega arith)
