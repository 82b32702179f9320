-- ===== src/Field/Laws.antt =====
-- Consequences of the laws, and the default slice methods.
use reed_solomon_erasure.Base.{
  ℕ, ◌<◌, ◌≡◌, ◌≢◌, refl, sym, ◌∙◌, ap, ap₂, true, false, some, List, [], ◌∷◌, map, arith, length,
  zip_with, ==_iff,
}
use reed_solomon_erasure.Field.{
  Field, FieldLaws, nth, write_zip, default_mul_slice, default_mul_slice_add,
}

module _ {ℓ} {A : Type ℓ} ⦃F : Field A⦄ (L : FieldLaws F) where
  pub add-zero : (a : A) → F.add a F.zero ≡ a
  add-zero a = L.add_comm a F.zero ∙ L.zero-add a

  pub mul-zero : (a : A) → F.mul a F.zero ≡ F.zero
  mul-zero a = L.mul_comm a F.zero ∙ L.zero-mul a

  pub mul-one : (a : A) → F.mul a F.one ≡ a
  mul-one a = L.mul_comm a F.one ∙ L.one-mul a

  pub add-mul : (a b c : A) → F.mul (F.add a b) c ≡ F.add (F.mul a c) (F.mul b c)
  add-mul a b c =
      L.mul_comm (F.add a b) c ∙ (L.mul-add c a b ∙ ap₂ F.add (L.mul_comm c a) (L.mul_comm c b))

  pub add_left_comm : (a b c : A) → F.add a (F.add b c) ≡ F.add b (F.add a c)
  add_left_comm a b c =
      sym (L.add_assoc a b c) ∙ (ap (λ t. F.add t c) (L.add_comm a b) ∙ L.add_assoc b a c)

  pub add_interchange :
      (a b c d : A) → F.add (F.add a b) (F.add c d) ≡ F.add (F.add a c) (F.add b d)
  add_interchange a b c d =
      L.add_assoc a b (F.add c d)
      ∙ (ap (F.add a) (add_left_comm b c d) ∙ sym (L.add_assoc a c (F.add b d)))

  -- In characteristic two an addition is undone by itself.
  pub add-add_self : (a b : A) → F.add a (F.add a b) ≡ b
  add-add_self a b = sym (L.add_assoc a a b) ∙ (ap (λ t. F.add t b) (L.add_self a) ∙ L.zero-add b)

  pub eq_refl : (a : A) → F.eq a a ≡ true
  eq_refl a = (L.eq_iff a a).1 refl

  pub ne_of_eq_false : (a b : A) → F.eq a b ≡ false → a ≢ b
  ne_of_eq_false a b h e = cc ((L.eq_iff a b).1 e)

  pub eq_of_add-zero : (a b : A) → F.add a b ≡ F.zero → a ≡ b
  eq_of_add-zero a b h = sym (add-zero a) ∙ (ap (F.add a) (sym h) ∙ add-add_self a b)

  -- Below the order the elements are numbered without repetition, by the trait's `nth`.
  pub nth-lt : (i : ℕ) → i < F.order → nth i ≡ F.nth_internal i
  unfolding nth
  nth-lt i h = ground arith

module _ {ℓ} {A : Type ℓ} where
  pub write_zip-map :
      (f : A → A) (input out : List A)
      → length input ≡ length out
      → write_zip (λ o i. f i) input out ≡ map f input
  unfolding write_zip
  write_zip-map f [] [] h = refl
  write_zip-map f [] (o ∷ out) h = absurd (omega arith)
  write_zip-map f (i ∷ input) [] h = absurd (omega arith)
  write_zip-map f (i ∷ input) (o ∷ out) h = ap (◌∷◌ (f i)) (write_zip-map f input out (omega arith))

  pub write_zip-zip_with :
      (f : A → A → A) (input out : List A)
      → length input ≡ length out
      → write_zip f input out ≡ zip_with f out input
  unfolding write_zip
  write_zip-zip_with f [] [] h = refl
  write_zip-zip_with f [] (o ∷ out) h = absurd (omega arith)
  write_zip-zip_with f (i ∷ input) [] h = absurd (omega arith)
  write_zip-zip_with f (i ∷ input) (o ∷ out) h =
      ap (◌∷◌ (f o i)) (write_zip-zip_with f input out (omega arith))

  module _ (add mul : A → A → A) (c : A) (input out : List A) (h : length input ≡ length out) where
    pub default_mul_slice-map : default_mul_slice add mul c input out ≡ some (map (mul c) input)
    unfolding default_mul_slice
    default_mul_slice-map =
        rw ((==_iff (length input) (length out)).1 h) (ap some (write_zip-map (mul c) input out h))

    pub default_mul_slice_add-zip_with :
        default_mul_slice_add add mul c input out
        ≡ some (zip_with (λ o i. add o (mul c i)) out input)
    unfolding default_mul_slice_add
    default_mul_slice_add-zip_with =
        rw ((==_iff (length input) (length out)).1 h)
          (ap some (write_zip-zip_with (λ o i. add o (mul c i)) input out h))
