-- ===== src/Galois8/Byte.antt =====
-- The elements of GF(2^8) as the codec sees them: `impl Field for galois_8::Field` in
-- src/galois_8/mod.rs, with the slice operations of src/galois_8/scalar.rs as the active backend.
use native.Mathlib.Bridge.{le_prop}
use mathlib.Core.HLevel.{Σ_prop_path}
use native.Mathlib.Decide.{ℕ_discrete}
use native.Mathlib.Numerals.{add-one}
use reed_solomon_erasure.Base.{
  ℕ, ◌%◌, ◌<◌, ◌≡◌, refl, sym, ◌∙◌, ap, ap₂, arith, Option, some, none, List, [], ◌∷◌, map, length,
  zip_with, ◌==◌, ==_iff, ne→==, if◌then◌else◌, inl,
}
use reed_solomon_erasure.Base.Bits.{zero-xor, xor_comm, xor_assoc, xor_self}
use reed_solomon_erasure.Field.{Field, FieldLaws, write_zip}
use reed_solomon_erasure.Field.Laws.{write_zip-map, write_zip-zip_with}
use reed_solomon_erasure.Galois8.Arith
use reed_solomon_erasure.Galois8.Arith.{add}
use reed_solomon_erasure.Galois8.Laws
use reed_solomon_erasure.Galois8.Logs.{mul-zero}
use reed_solomon_erasure.Galois8.Powers.{exp-lt, exp-zero, exp-suc}

abbrev pub U8 : Type 0
U8 = (n : ℕ) × (n < 256)

pub byte_ext : (a b : U8) → a.0 ≡ b.0 → a ≡ b
byte_ext a b p = Σ_prop_path (λ n. le_prop) p

abbrev pub byte : (n : ℕ) → U8
byte n = (n % 256, omega arith)

abbrev pub byte_zero : U8
byte_zero = (0, omega arith)

abbrev pub byte_one : U8
byte_one = (1, omega arith)

unfoldable pub byte_add : U8 → U8 → U8
byte_add a b = (Arith.add a.0 b.0, Laws.add-lt a.0 b.0 a.1 b.1)

unfoldable pub byte_mul : U8 → U8 → U8
byte_mul a b = (Arith.mul a.0 b.0, Laws.mul-lt a.0 b.0 a.1 b.1)

unfoldable pub byte_div : U8 → U8 → U8
byte_div a b = (Arith.div a.0 b.0, Laws.div-lt a.0 b.0 a.1 b.1)

unfoldable pub byte_exp : U8 → ℕ → U8
byte_exp a n = (Arith.exp a.0 n, exp-lt a.0 n a.1)

-- `none` is the failed assertion on the lengths, or the panic of `copy_from_slice`. The row
-- `MUL_TABLE[c]` at `*i` is `byte_mul c i`.
unfoldable pub mul_slice_pure_rust : U8 → List U8 → List U8 → Option (List U8)
unfolding write_zip
mul_slice_pure_rust c input out =
    if c.0 == 0
    then some (map (λ _. byte_zero) out)
    else if c.0 == 1
    then if length input == length out then some input else none
    else if length input == length out
    then some (write_zip (λ o i. byte_mul c i) input out)
    else none

unfoldable pub mul_slice_xor_pure_rust : U8 → List U8 → List U8 → Option (List U8)
unfolding write_zip
mul_slice_xor_pure_rust c input out =
    if c.0 == 0
    then some out
    else if c.0 == 1
    then if length input == length out
      then some (write_zip (λ o i. byte_add o i) input out)
      else none
    else if length input == length out
    then some (write_zip (λ o i. byte_add o (byte_mul c i)) input out)
    else none

zero_mul : (b : U8) → byte_mul byte_zero b ≡ byte_zero
unfolding byte_mul
zero_mul b = byte_ext _ _ (mul-zero 0 b.0 (omega arith) b.1 (inl refl))

one_mul : (b : U8) → byte_mul byte_one b ≡ b
unfolding byte_mul
one_mul b = byte_ext _ _ (Laws.one-mul b.0 b.1)

add_zero : (a : U8) → byte_add a byte_zero ≡ a
unfolding byte_add add
add_zero a = byte_ext _ _ (xor_comm a.0 0 ∙ zero-xor a.0)

map_zero :
    (input out : List U8)
    → length input ≡ length out
    → map (λ _. byte_zero) out ≡ map (byte_mul byte_zero) input
map_zero [] [] h = refl
map_zero [] (o ∷ out) h = absurd (omega arith)
map_zero (i ∷ input) [] h = absurd (omega arith)
map_zero (i ∷ input) (o ∷ out) h = ap₂ ◌∷◌ (sym (zero_mul i)) (map_zero input out (omega arith))

map_one : (input : List U8) → input ≡ map (byte_mul byte_one) input
map_one [] = refl
map_one (i ∷ input) = ap₂ ◌∷◌ (sym (one_mul i)) (map_one input)

keep_zero :
    (input out : List U8)
    → length input ≡ length out
    → out ≡ zip_with (λ o i. byte_add o (byte_mul byte_zero i)) out input
keep_zero [] [] h = refl
keep_zero [] (o ∷ out) h = absurd (omega arith)
keep_zero (i ∷ input) [] h = absurd (omega arith)
keep_zero (i ∷ input) (o ∷ out) h =
    ap₂ ◌∷◌ (sym (ap (byte_add o) (zero_mul i) ∙ add_zero o)) (keep_zero input out (omega arith))

add_one :
    (input out : List U8)
    → zip_with (λ o i. byte_add o i) out input
      ≡ zip_with (λ o i. byte_add o (byte_mul byte_one i)) out input
add_one input [] = refl
add_one [] (o ∷ out) = refl
add_one (i ∷ input) (o ∷ out) = ap₂ ◌∷◌ (ap (byte_add o) (sym (one_mul i))) (add_one input out)

-- On slices of equal length, `mul_slice_pure_rust`, with its shortcuts for 0 and 1, returns the
-- input with every byte multiplied by the constant.
pub mul_slice_pure_rust_lem :
    (c : U8) (input out : List U8)
    → length input ≡ length out
    → mul_slice_pure_rust c input out ≡ some (map (byte_mul c) input)
unfolding mul_slice_pure_rust
mul_slice_pure_rust_lem c input out h = elim (ℕ_discrete c.0 0) [
  | yes z ↦ let e : c ≡ byte_zero = byte_ext c byte_zero z in rw e (ap some (map_zero input out h))
  | no n0 ↦ elim (ℕ_discrete c.0 1) [
    | yes o ↦
        let e : c ≡ byte_one = byte_ext c byte_one o in
        rw e (rw ((==_iff (length input) (length out)).1 h) (ap some (map_one input)))
    | no n1 ↦
        rw (ne→== c.0 0 n0, ne→== c.0 1 n1, (==_iff (length input) (length out)).1 h)
          (ap some (write_zip-map (byte_mul c) input out h))
  ]
]

-- On slices of equal length, `mul_slice_xor_pure_rust`, with its shortcuts for 0 and 1, returns the
-- output with every byte increased by the constant times the byte of the input.
pub mul_slice_xor_pure_rust_lem :
    (c : U8) (input out : List U8)
    → length input ≡ length out
    → mul_slice_xor_pure_rust c input out
      ≡ some (zip_with (λ o i. byte_add o (byte_mul c i)) out input)
unfolding mul_slice_xor_pure_rust
mul_slice_xor_pure_rust_lem c input out h = elim (ℕ_discrete c.0 0) [
  | yes z ↦ let e : c ≡ byte_zero = byte_ext c byte_zero z in rw e (ap some (keep_zero input out h))
  | no n0 ↦ elim (ℕ_discrete c.0 1) [
    | yes o ↦
        let e : c ≡ byte_one = byte_ext c byte_one o in
        rw e (
          rw ((==_iff (length input) (length out)).1 h)
            (ap some (write_zip-zip_with byte_add input out h ∙ add_one input out)))
    | no n1 ↦
        rw (ne→== c.0 0 n0, ne→== c.0 1 n1, (==_iff (length input) (length out)).1 h)
          (ap some (write_zip-zip_with (λ o i. byte_add o (byte_mul c i)) input out h))
  ]
]

instance unfoldable pub galois_8 : Field U8
unfolding byte_add byte_mul byte_div byte_exp mul_slice_pure_rust mul_slice_xor_pure_rust
galois_8 = record {
  order = 256;
  elem_size = 1;
  add = byte_add;
  mul = byte_mul;
  div = byte_div;
  exp = byte_exp;
  zero = byte_zero;
  one = byte_one;
  nth_internal = byte;
  eq = λ a b. a.0 == b.0;
  mul_slice = mul_slice_pure_rust;
  mul_slice_add = mul_slice_xor_pure_rust;
}

positive : (n : ℕ) → ¬ (n ≡ 0) → 0 < n
positive n h = omega arith

-- GF(2^8), as the tables of build.rs define it, has every law that the codec relies on.
pub galois_8-FieldLaws : FieldLaws galois_8
unfolding galois_8 add
galois_8-FieldLaws = record {
  add_assoc = λ a b c. byte_ext _ _ (xor_assoc a.0 b.0 c.0);
  add_comm = λ a b. byte_ext _ _ (xor_comm a.0 b.0);
  zero-add = λ a. byte_ext _ _ (zero-xor a.0);
  add_self = λ a. byte_ext _ _ (xor_self a.0);
  mul_assoc = λ a b c. byte_ext _ _ (Laws.mul_assoc a.0 b.0 c.0 a.1 b.1 c.1);
  mul_comm = λ a b. byte_ext _ _ (Laws.mul_comm a.0 b.0 a.1 b.1);
  one-mul = one_mul;
  zero-mul = zero_mul;
  mul-add = λ a b c. byte_ext _ _ (Laws.mul-add a.0 b.0 c.0 a.1 b.1 c.1);
  one-ne-zero = λ e. absurd (let h : ◌≡◌ {A = ℕ} 1 0 = ap (λ (x : U8). x.0) e in omega arith);
  div-mul = λ a b h.
      byte_ext _ _ (Laws.div-mul a.0 b.0 a.1 (positive b.0 (λ e. h (byte_ext b byte_zero e))) b.1);
  exp-zero = λ a. byte_ext _ _ (exp-zero a.0);
  exp-suc =
      λ a n h. byte_ext _ _ (ap (Arith.exp a.0) (add-one n) ∙ exp-suc a.0 n a.1 (omega arith));
  nth_injective = λ i j p q e. let h : i % 256 ≡ j % 256 = ap (λ (x : U8). x.0) e in omega arith;
  eq_iff = λ a b.
      (λ h. byte_ext a b ((==_iff a.0 b.0).0 h), λ e. (==_iff a.0 b.0).1 (ap (λ (x : U8). x.0) e));
  mul_slice_lem = mul_slice_pure_rust_lem;
  mul_slice_add_lem = mul_slice_xor_pure_rust_lem;
}
