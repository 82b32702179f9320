-- ===== src/Tests/Gf2.antt =====
-- The field with two elements as an instance of the trait `Field` of src/lib.rs.
use reed_solomon_erasure.Base.{
  ℕ, zero, suc, ◌≡◌, ap, ◌+◌, ◌≢◌, ◌↔◌, refl, arith, Bool, true, false, not, ◌==◌,
}
use reed_solomon_erasure.Field.{Field, FieldLaws, default_mul_slice, default_mul_slice_add}
use reed_solomon_erasure.Field.Laws.{default_mul_slice-map, default_mul_slice_add-zip_with}

abbrev pub bit_add : Bool → Bool → Bool
bit_add true b = not b
bit_add false b = b

abbrev pub bit_mul : Bool → Bool → Bool
bit_mul true b = b
bit_mul false b = false

abbrev pub bit_exp : Bool → ℕ → Bool
bit_exp a zero = true
bit_exp a (suc n) = bit_mul a (bit_exp a n)

abbrev pub bit_eq : Bool → Bool → Bool
bit_eq true b = b
bit_eq false b = not b

instance unfoldable pub gf2 : Field Bool
unfolding default_mul_slice default_mul_slice_add
gf2 = record {
  order = 2;
  elem_size = 1;
  add = bit_add;
  mul = bit_mul;
  div = bit_mul;
  exp = bit_exp;
  zero = false;
  one = true;
  nth_internal = λ n. n == 1;
  eq = bit_eq;
  mul_slice = default_mul_slice bit_add bit_mul;
  mul_slice_add = default_mul_slice_add bit_add bit_mul;
}

bit_div_mul : (a b : Bool) → b ≢ false → bit_mul (bit_mul a b) b ≡ a
bit_div_mul true true n = refl
bit_div_mul false b n = refl
bit_div_mul true false n = absurd (n refl)

bit_eq_iff : (a b : Bool) → (bit_eq a b ≡ true) ↔ (a ≡ b)
bit_eq_iff true true = (λ h. refl, λ h. refl)
bit_eq_iff false false = (λ h. refl, λ h. refl)
bit_eq_iff true false = (λ h. cc, λ h. cc)
bit_eq_iff false true = (λ h. cc, λ h. cc)

pub gf2-FieldLaws : FieldLaws gf2
unfolding gf2
gf2-FieldLaws = record {
  add_assoc = λ a b c. ground arith;
  add_comm = λ a b. ground arith;
  zero-add = λ a. refl;
  add_self = λ a. ground arith;
  mul_assoc = λ a b c. ground arith;
  mul_comm = λ a b. ground arith;
  one-mul = λ a. refl;
  zero-mul = λ a. refl;
  mul-add = λ a b c. ground arith;
  one-ne-zero = λ e. cc;
  div-mul = λ a b n. bit_div_mul a b n;
  exp-zero = λ a. refl;
  exp-suc = λ a n h. ap (bit_exp a) (let e : n + 1 ≡ suc n = omega arith in e);
  nth_injective = λ i j p q e. ground arith;
  eq_iff = λ a b. bit_eq_iff a b;
  mul_slice_lem = λ c input out h. default_mul_slice-map bit_add bit_mul c input out h;
  mul_slice_add_lem = λ c input out h. default_mul_slice_add-zip_with bit_add bit_mul c input out h;
}
