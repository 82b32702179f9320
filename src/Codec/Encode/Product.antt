-- ===== src/Codec/Encode/Product.antt =====
-- What the entry points of src/core/encode.rs compute for a codec of the classic family.
use reed_solomon_erasure.Base.{
  ℕ, ◌+◌, ◌-◌, ◌*◌, ◌<◌, ◌≤◌, ◌≡◌, refl, sym, ◌∙◌, ap, ap₂, min, arith, false, List, [], length,
  get_or, drop, tabulate, length-tabulate, get_or-tabulate, length-take, length-drop, get_or-take,
  get_or-drop, ltb, le→leb, lt→ltb, ◌==◌, if◌then◌else◌, Bool-cases, inl, inr, ok,
}
use reed_solomon_erasure.Field.{Field, FieldLaws}
use reed_solomon_erasure.Field.Sum.{sum, sum_congr}
use reed_solomon_erasure.Matrix.{Matrix, get, get_row}
use reed_solomon_erasure.Matrix.Cells.{HasShape}
use reed_solomon_erasure.Codec.Blocks.{IsBlock, IsBlock-congr}
use reed_solomon_erasure.Codec.State.{
  ReedSolomon, classic_state, rows_between, get_parity_rows, is_leopard_gf8_family,
  is_leopard_gf16_family, fast_one_parity_enabled, ensure_classic_family_execution,
}
use reed_solomon_erasure.Codec.Checks.{
  check_piece_count_iff, check_multi_multi_ok, check_multi_single_ok, check_slice_index_ok,
}
use reed_solomon_erasure.Codec.Coding.{code_some_slices, code_single_slice, first_len}
use reed_solomon_erasure.Codec.Coding.Chunks.{Returns, code_single_slice_range-IsBlock}
use reed_solomon_erasure.Codec.Coding.Slices.{coded}
use reed_solomon_erasure.Codec.Coding.Whole.{code_some_slices-IsBlock}
use reed_solomon_erasure.Codec.Encode.{
  LeopardCoders, encode_family, encode_sep, encode_single_sep, try_encode_codegen,
}

-- A codec of the classic family for `d` data and `p` parity shards.
pub record IsClassic {ℓ} {A : Type ℓ} (codec : ReedSolomon A) (d p : ℕ) : Type ℓ where
  pub data_count : codec.data_shard_count ≡ d
  pub parity_count : codec.parity_shard_count ≡ p
  pub total_count : codec.total_shard_count ≡ d + p
  pub some_data : 0 < d
  pub some_parity : 0 < p
  pub family : codec.family_state ≡ classic_state
  pub shape : HasShape codec.matrix (d + p) d

module _ {ℓ} {A : Type ℓ} ⦃F : Field A⦄ where
  pub get_row-get :
      (m : Matrix A) (r c : ℕ) → c < m.col_count → get_or (get_row m r) c F.zero ≡ get m r c
  unfolding get_row get
  get_row-get m r c p =
      get_or-take m.col_count (drop (r * m.col_count) m.cells) c F.zero p
      ∙ get_or-drop (r * m.col_count) m.cells c F.zero

  pub length-get_row :
      {m : Matrix A} {rows cols : ℕ} (r : ℕ)
      → HasShape m rows cols
      → r < rows
      → length (get_row m r) ≡ cols
  unfolding get_row
  length-get_row {m} {rows} {cols} r s p =
      let room : r * cols + cols ≤ rows * cols = grind arith in
      length-take m.col_count (drop (r * m.col_count) m.cells)
      ∙ (ap₂ min s.col_count
            (length-drop (r * m.col_count) m.cells ∙ ap₂ (λ a b. a - r * b) s.filled s.col_count)
          ∙ omega (arith, room))

  module _ {codec : ReedSolomon A} {d p : ℕ} (C : IsClassic codec d p) where
    -- The coefficients that the parity rows hold.
    abbrev pub parity_coefficient : ℕ → ℕ → A
    parity_coefficient r k = get codec.matrix (d + r) k

    pub get_parity_rows-IsBlock : IsBlock p d parity_coefficient (get_parity_rows codec)
    unfolding get_parity_rows rows_between
    get_parity_rows-IsBlock =
        rw (C.data_count, C.total_count)
          (record {
            rows = length-tabulate d (d + p - d) (get_row codec.matrix) ∙ omega arith;
            width = λ r q. ap length (row r q) ∙ length-get_row (d + r) C.shape (omega arith);
            value_at = λ r j q u.
                ap (λ t. get_or t j F.zero) (row r q)
                ∙ get_row-get codec.matrix (d + r) j (omega (arith, C.shape.col_count));
          })
      where
        row :
            (r : ℕ)
            → r < p
            → get_or (tabulate d (d + p - d) (get_row codec.matrix)) r []
              ≡ get_row codec.matrix (d + r)
        row r q = get_or-tabulate d (d + p - d) (get_row codec.matrix) r [] (omega arith)

    pub not_leopard_gf8 : is_leopard_gf8_family codec ≡ false
    unfolding is_leopard_gf8_family
    not_leopard_gf8 = rw C.family refl

    pub not_leopard_gf16 : is_leopard_gf16_family codec ≡ false
    unfolding is_leopard_gf16_family
    not_leopard_gf16 = rw C.family refl

    pub classic_execution : ensure_classic_family_execution codec ≡ ok tt
    unfolding ensure_classic_family_execution
    classic_execution = rw C.family refl

module _ {ℓ} {A : Type ℓ} ⦃F : Field A⦄ (L : FieldLaws F) (leopard : LeopardCoders A)
    {codec : ReedSolomon A} {d p : ℕ} (C : IsClassic codec d p) where
  encode_family-classic :
      (inputs parity : List (List A))
      → fast_one_parity_enabled codec ≡ false
      → encode_family leopard codec inputs parity
        ≡ code_some_slices codec.data_shard_count (get_parity_rows codec) inputs parity
  unfolding encode_family try_encode_codegen
  encode_family-classic inputs parity slow = elim (Bool-cases (F.elem_size == 1)) [
    | inl one ↦ elim (Bool-cases (ltb 0 (first_len inputs))) [
      | inl e ↦ rw (not_leopard_gf8 C, not_leopard_gf16 C, slow, one, e) refl
      | inr e ↦ rw (not_leopard_gf8 C, not_leopard_gf16 C, slow, one, e) refl
    ]
    | inr other ↦ rw (not_leopard_gf8 C, not_leopard_gf16 C, slow, other) refl
  ]

  -- For a classic codec that does not take the path for one parity shard, `encode_sep` succeeds on
  -- shards of one non-zero length, and parity shard r becomes the sum over the data shards k of
  -- the matrix entry in row d + r and column k times shard k, whatever the parity held before.
  pub encode_sep-IsBlock :
      (len : ℕ) (x v : ℕ → ℕ → A) (inputs parity : List (List A))
      → fast_one_parity_enabled codec ≡ false
      → 0 < len
      → IsBlock d len x inputs
      → IsBlock p len v parity
      → Returns
          (encode_sep leopard codec inputs parity)
          (IsBlock p len (λ r j. sum d (λ k. F.mul (get codec.matrix (d + r) k) (x k j))))
  unfolding encode_sep
  encode_sep-IsBlock len x v inputs parity slow q bi bp =
      let (result, run, block) =
        code_some_slices-IsBlock L len p d (parity_coefficient C) v x (get_parity_rows codec) inputs
          parity q C.some_data (get_parity_rows-IsBlock C) bi bp in
      (
        result,
        rw
            (
              (check_piece_count_iff codec.data_shard_count (length inputs) _ _).1
                  (bi.rows ∙ sym C.data_count),
              (check_piece_count_iff codec.parity_shard_count (length parity) _ _).1
                  (bp.rows ∙ sym C.parity_count),
              check_multi_multi_ok len inputs parity q (omega (arith, bi.rows, C.some_data))
                  (omega (arith, bp.rows, C.some_parity))
                  (λ i u. bi.width i (omega (arith, bi.rows)))
                  (λ i u. bp.width i (omega (arith, bp.rows))),
            )
            (encode_family-classic inputs parity slow
              ∙ (ap (λ n. code_some_slices n (get_parity_rows codec) inputs parity) C.data_count
                  ∙ run)),
        IsBlock-congr _ _
            (λ r j u w.
              sum_congr d _ _ (λ k s. ap (F.mul (parity_coefficient C r k)) (bi.value_at k j s w)))
            block,
      )

module _ {ℓ} {A : Type ℓ} ⦃F : Field A⦄ (L : FieldLaws F) {codec : ReedSolomon A} {d p : ℕ}
    (C : IsClassic codec d p) where
  -- For a classic codec, `encode_single_sep` on data shard i, which is one of the codec's, and on
  -- parity shards of its non-zero length succeeds, and in every cell of parity shard r the first
  -- shard overwrites, and a later one adds, the matrix entry in row d + r and column i times the
  -- shard.
  pub encode_single_sep-IsBlock :
      (len i : ℕ) (v : ℕ → ℕ → A) (single : List A) (parity : List (List A))
      → 0 < len
      → i < d
      → length single ≡ len
      → IsBlock p len v parity
      → Returns (encode_single_sep codec i single parity) (
          IsBlock p len (λ r j.
            if i == 0
            then F.mul (get codec.matrix (d + r) i) (get_or single j F.zero)
            else F.add (v r j) (F.mul (get codec.matrix (d + r) i) (get_or single j F.zero))))
  unfolding encode_single_sep code_single_slice coded
  encode_single_sep-IsBlock len i v single parity q less e bp =
      let (result, run, block) =
        code_single_slice_range-IsBlock L i 0 (length single) len p d (parity_coefficient C) v
          (get_parity_rows codec) parity single (omega arith) (omega arith) e less
          (get_parity_rows-IsBlock C) bp in
      (
        result,
        rw
            (
              not_leopard_gf8 C,
              not_leopard_gf16 C,
              check_slice_index_ok codec.data_shard_count i (omega (arith, C.data_count)),
              (check_piece_count_iff codec.parity_shard_count (length parity) _ _).1
                  (bp.rows ∙ sym C.parity_count),
              check_multi_single_ok len parity single q (omega (arith, bp.rows, C.some_parity))
                  (λ i u. bp.width i (omega (arith, bp.rows))) e,
            )
            run,
        IsBlock-congr _ _
            (λ r j u w.
              rw (coded, le→leb 0 j (omega arith), lt→ltb j (length single) (omega arith)) refl)
            block,
      )
