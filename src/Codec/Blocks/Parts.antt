-- ===== src/Codec/Blocks/Parts.antt =====
-- The first shards of a block, the others, and two blocks joined.
use reed_solomon_erasure.Base.{
  ℕ, ◌+◌, ◌-◌, ◌<◌, ◌≡◌, refl, sym, ◌∙◌, ap, arith, List, [], ◌++◌, length, get_or, take, drop, ltb,
  lt→ltb, le→ltb, if◌then◌else◌, length-take, length-drop, length-append, get_or-take, get_or-drop,
  get_or-append_left, get_or-append_right,
}
use native.Mathlib.Decide.{dec_lt}
use reed_solomon_erasure.Field.{Field}
use reed_solomon_erasure.Codec.Blocks.{IsBlock}

module _ {ℓ} {A : Type ℓ} ⦃F : Field A⦄ {d len : ℕ} (p : ℕ) {v : ℕ → ℕ → A} where
  pub take-IsBlock :
      {shards : List (List A)} (n : ℕ)
      → n ≡ d
      → IsBlock (d + p) len v shards
      → IsBlock d len v (take n shards)
  take-IsBlock {shards} n e b = record {
    rows = length-take n shards ∙ omega (arith, b.rows);
    width = λ r u. ap length (get_or-take n shards r [] (omega arith)) ∙ b.width r (omega arith);
    value_at = λ r j u w.
        ap (λ t. get_or t j F.zero) (get_or-take n shards r [] (omega arith))
        ∙ b.value_at r j (omega arith) w;
  }

  pub drop-IsBlock :
      {shards : List (List A)} (n : ℕ)
      → n ≡ d
      → IsBlock (d + p) len v shards
      → IsBlock p len (λ r j. v (d + r) j) (drop n shards)
  drop-IsBlock {shards} n e b = record {
    rows = length-drop n shards ∙ omega (arith, b.rows);
    width = λ r u. ap length (later r) ∙ b.width (d + r) (omega arith);
    value_at =
        λ r j u w. ap (λ t. get_or t j F.zero) (later r) ∙ b.value_at (d + r) j (omega arith) w;
  }
    where
      later : (r : ℕ) → get_or (drop n shards) r [] ≡ get_or shards (d + r) []
      later r = get_or-drop n shards r [] ∙ ap (λ k. get_or shards (k + r) []) e

  pub append-IsBlock :
      {w : ℕ → ℕ → A} {left right : List (List A)}
      → IsBlock d len v left
      → IsBlock p len w right
      → IsBlock (d + p) len (λ r j. if ltb r d then v r j else w (r - d) j) (left ++ right)
  append-IsBlock {w} {left} {right} a b = record {
    rows = length-append left right ∙ omega (arith, a.rows, b.rows);
    width = λ r u. elim (dec_lt r d) [
      | yes q ↦ ap length (get_or-append_left left right r [] (omega (arith, a.rows))) ∙ a.width r q
      | no q ↦ ap length (second r q) ∙ b.width (r - d) (omega arith)
    ];
    value_at = λ r j u inside. elim (dec_lt r d) [
      | yes q ↦
          ap (λ t. get_or t j F.zero) (get_or-append_left left right r [] (omega (arith, a.rows)))
          ∙ (a.value_at r j q inside ∙ sym (rw (lt→ltb r d q) refl))
      | no q ↦
          ap (λ t. get_or t j F.zero) (second r q)
          ∙ (b.value_at (r - d) j (omega arith) inside ∙ sym (rw (le→ltb r d (omega arith)) refl))
    ];
  }
    where
      second : (r : ℕ) → ¬ (r < d) → get_or (left ++ right) r [] ≡ get_or right (r - d) []
      second r q =
          get_or-append_right left right r [] (omega (arith, a.rows))
          ∙ ap (λ k. get_or right (r - k) []) a.rows
