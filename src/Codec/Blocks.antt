-- ===== src/Codec/Blocks.antt =====
-- A set of shards as a block: so many rows of one length, with the value of each cell.
pub mod Parts
use reed_solomon_erasure.Base.{
  ℕ, zero, suc, ◌<◌, ◌≡◌, sym, ◌∙◌, ap, arith, List, [], ◌∷◌, length, get_or, get_or_ext,
}
use reed_solomon_erasure.Field.{Field}

module _ {ℓ} {A : Type ℓ} ⦃F : Field A⦄ where
  -- The cell of shard `r` at position `j`.
  abbrev pub cell : List (List A) → ℕ → ℕ → A
  cell shards r j = get_or (get_or shards r []) j F.zero

pub record IsBlock {ℓ} {A : Type ℓ} ⦃F : Field A⦄ (count len : ℕ) (value : ℕ → ℕ → A)
    (shards : List (List A)) : Type ℓ where
  pub rows : length shards ≡ count
  pub width : (r : ℕ) → r < count → length (get_or shards r []) ≡ len
  pub value_at : (r j : ℕ) → r < count → j < len → cell shards r j ≡ value r j

module _ {ℓ} {A : Type ℓ} ⦃F : Field A⦄ where
  pub IsBlock-congr :
      {count len : ℕ} {shards : List (List A)} (v w : ℕ → ℕ → A)
      → ((r j : ℕ) → r < count → j < len → v r j ≡ w r j)
      → IsBlock count len v shards
      → IsBlock count len w shards
  IsBlock-congr v w h b = record {
    rows = b.rows;
    width = b.width;
    value_at = λ r j p q. b.value_at r j p q ∙ h r j p q;
  }

  -- The first shard apart from the rest.
  pub IsBlock-tail :
      {count len : ℕ} {s : List A} {shards : List (List A)} {v : ℕ → ℕ → A}
      → IsBlock (suc count) len v (s ∷ shards)
      → IsBlock count len (λ r j. v (suc r) j) shards
  IsBlock-tail b = record {
    rows = omega (arith, b.rows);
    width = λ r p. b.width (suc r) (omega arith);
    value_at = λ r j p q. b.value_at (suc r) j (omega arith) q;
  }

  pub IsBlock-cons :
      {count len : ℕ} {s : List A} {shards : List (List A)} {v : ℕ → ℕ → A}
      → length s ≡ len
      → ((j : ℕ) → j < len → get_or s j F.zero ≡ v 0 j)
      → IsBlock count len (λ r j. v (suc r) j) shards
      → IsBlock (suc count) len v (s ∷ shards)
  IsBlock-cons {count} {len} {s} {shards} {v} e h b = record {
    rows = ap suc b.rows;
    width = width;
    value_at = value_at;
  }
    where
      width : (r : ℕ) → r < suc count → length (get_or (s ∷ shards) r []) ≡ len
      width zero p = e
      width (suc r) p = b.width r (omega arith)

      value_at : (r j : ℕ) → r < suc count → j < len → cell (s ∷ shards) r j ≡ v r j
      value_at zero j p q = h j q
      value_at (suc r) j p q = b.value_at r j (omega arith) q

  -- A block is determined by its cells.
  pub IsBlock-unique :
      {count len : ℕ} {v : ℕ → ℕ → A} (a b : List (List A))
      → IsBlock count len v a
      → IsBlock count len v b
      → a ≡ b
  IsBlock-unique {count} {len} {v} a b x y = get_or_ext [] a b (x.rows ∙ sym y.rows) (λ r p.
      let in_a : r < count = omega (arith, x.rows) in
      get_or_ext F.zero (get_or a r []) (get_or b r []) (x.width r in_a ∙ sym (y.width r in_a))
        (λ j q.
          let in_row : j < len = omega (arith, x.width r in_a) in
          x.value_at r j in_a in_row ∙ sym (y.value_at r j in_a in_row)))
