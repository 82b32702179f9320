-- ===== src/Field.antt =====
-- The trait `Field` of src/lib.rs: its operations, the laws that the codec relies on, and the
-- default methods.
pub mod Laws
pub mod Sum
pub mod Roots
use reed_solomon_erasure.Base.{
  ℕ, ◌+◌, ◌%◌, ◌<◌, ◌≤◌, ◌≡◌, ◌≢◌, ◌↔◌, Bool, true, Option, none, some, List, [], ◌∷◌, map, max,
  leb, ◌==◌, if◌then◌else◌, length, zip_with,
}

-- `eq` is the `PartialEq` of the elements, and `elem_size` is `size_of::<Elem>()`. The slice
-- operations return `none` where the source panics.
pub record Field {ℓ} (A : Type ℓ) : Type ℓ where
  pub order : ℕ
  pub elem_size : ℕ
  pub add : A → A → A
  pub mul : A → A → A
  pub div : A → A → A
  pub exp : A → ℕ → A
  pub zero : A
  pub one : A
  pub nth_internal : ℕ → A
  pub eq : A → A → Bool
  pub mul_slice : A → List A → List A → Option (List A)
  pub mul_slice_add : A → List A → List A → Option (List A)

pub record FieldLaws {ℓ} {A : Type ℓ} (F : Field A) : Type ℓ where
  pub add_assoc : (a b c : A) → F.add (F.add a b) c ≡ F.add a (F.add b c)
  pub add_comm : (a b : A) → F.add a b ≡ F.add b a
  pub zero-add : (a : A) → F.add F.zero a ≡ a
  pub add_self : (a : A) → F.add a a ≡ F.zero
  pub mul_assoc : (a b c : A) → F.mul (F.mul a b) c ≡ F.mul a (F.mul b c)
  pub mul_comm : (a b : A) → F.mul a b ≡ F.mul b a
  pub one-mul : (a : A) → F.mul F.one a ≡ a
  pub zero-mul : (a : A) → F.mul F.zero a ≡ F.zero
  pub mul-add : (a b c : A) → F.mul a (F.add b c) ≡ F.add (F.mul a b) (F.mul a c)
  pub one-ne-zero : F.one ≢ F.zero
  pub div-mul : (a b : A) → b ≢ F.zero → F.mul (F.div a b) b ≡ a
  pub exp-zero : (a : A) → F.exp a 0 ≡ F.one
  pub exp-suc : (a : A) (n : ℕ) → n < F.order → F.exp a (n + 1) ≡ F.mul a (F.exp a n)
  pub nth_injective :
      (i j : ℕ) → i < F.order → j < F.order → F.nth_internal i ≡ F.nth_internal j → i ≡ j
  pub eq_iff : (a b : A) → (F.eq a b ≡ true) ↔ (a ≡ b)
  pub mul_slice_lem :
      (c : A) (input out : List A)
      → length input ≡ length out
      → F.mul_slice c input out ≡ some (map (F.mul c) input)
  pub mul_slice_add_lem :
      (c : A) (input out : List A)
      → length input ≡ length out
      → F.mul_slice_add c input out ≡ some (zip_with (λ o i. F.add o (F.mul c i)) out input)

-- The provided methods of the trait.
module _ {ℓ} {A : Type ℓ} ⦃F : Field A⦄ where
  unfoldable pub nth_checked : ℕ → Option A
  nth_checked n = if leb F.order n then none else some (F.nth_internal n)

  -- In a build without debug assertions the index wraps.
  unfoldable pub nth : ℕ → A
  unfolding nth_checked
  nth n = elim (nth_checked n) [ some a ↦ a | none ↦ F.nth_internal (n % max F.order 1) ]

-- `for (i, o) in input.iter().zip(out)`: what the loop leaves in `out`.
module _ {ℓ} {A : Type ℓ} (store : A → A → A) where
  unfoldable pub write_zip : List A → List A → List A
  write_zip [] out = out
  write_zip (i ∷ input) [] = []
  write_zip (i ∷ input) (o ∷ out) = store o i ∷ write_zip input out

module _ {ℓ} {A : Type ℓ} (add mul : A → A → A) where
  unfoldable pub default_mul_slice : A → List A → List A → Option (List A)
  unfolding write_zip
  default_mul_slice elem input out =
      if length input == length out then some (write_zip (λ o i. mul elem i) input out) else none

  unfoldable pub default_mul_slice_add : A → List A → List A → Option (List A)
  unfolding write_zip
  default_mul_slice_add elem input out =
      if length input == length out
      then some (write_zip (λ o i. add o (mul elem i)) input out)
      else none
