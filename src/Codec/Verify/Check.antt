-- ===== src/Codec/Verify/Check.antt =====
-- What `verify` of src/core/verify.rs decides for a codec of the classic family.
use reed_solomon_erasure.Base.{
  ℕ, ◌+◌, ◌<◌, ◌≡◌, ◌↔◌, refl, sym, ◌∙◌, ap, ap₂, subst, arith, true, false, ◌&&◌, List, [], ◌∷◌,
  length, get_or, take, drop, replicate, length-replicate, get_or-replicate, if◌then◌else◌, ok,
  ◌>>=◌, Bool-cases, inl, inr,
}
use reed_solomon_erasure.Field.{Field, FieldLaws}
use reed_solomon_erasure.Field.Sum.{sum, sum_congr}
use reed_solomon_erasure.Matrix.{get}
use reed_solomon_erasure.Codec.Blocks.{IsBlock, IsBlock-congr, IsBlock-unique, cell}
use reed_solomon_erasure.Codec.Blocks.Parts.{take-IsBlock, drop-IsBlock}
use reed_solomon_erasure.Codec.State.{
  ReedSolomon, get_parity_rows, fast_one_parity_enabled, ensure_classic_family_execution,
}
use reed_solomon_erasure.Codec.Checks.{
  check_piece_count_iff, check_multi, check_multi_ok, first_length,
}
use reed_solomon_erasure.Codec.Coding.{code_some_slices}
use reed_solomon_erasure.Codec.Coding.Chunks.{Returns}
use reed_solomon_erasure.Codec.Coding.Whole.{code_some_slices-IsBlock}
use reed_solomon_erasure.Codec.Encode.{LeopardCoders}
use reed_solomon_erasure.Codec.Encode.Product.{
  IsClassic, get_parity_rows-IsBlock, not_leopard_gf8, not_leopard_gf16,
}
use reed_solomon_erasure.Codec.Verify.{
  slice_eq, all_match, check_some_slices_with_buffer, zero_buffers, verify_family, verify,
}

module _ {ℓ} {A : Type ℓ} ⦃F : Field A⦄ (L : FieldLaws F) where
  slice_eq_sound : (a b : List A) → slice_eq a b ≡ true → a ≡ b
  unfolding slice_eq
  slice_eq_sound [] [] h = refl
  slice_eq_sound [] (b ∷ bs) h = cc
  slice_eq_sound (a ∷ rs) [] h = cc
  slice_eq_sound (a ∷ rs) (b ∷ bs) h = elim (Bool-cases (F.eq a b)) [
    | inl e ↦
        ap₂ ◌∷◌ ((L.eq_iff a b).0 e)
          (slice_eq_sound rs bs (subst (λ t. t && slice_eq rs bs ≡ true) e h))
    | inr e ↦ let no_match : false ≡ true = subst (λ t. t && slice_eq rs bs ≡ true) e h in cc
  ]

  slice_eq_refl : (a : List A) → slice_eq a a ≡ true
  unfolding slice_eq
  slice_eq_refl [] = refl
  slice_eq_refl (a ∷ rs) = rw ((L.eq_iff a a).1 refl) (slice_eq_refl rs)

  all_match_refl : (a : List (List A)) → all_match a a ≡ true
  unfolding all_match
  all_match_refl [] = refl
  all_match_refl (a ∷ rs) = rw (slice_eq_refl a) (all_match_refl rs)

  all_match_sound : (a b : List (List A)) → length a ≡ length b → all_match a b ≡ true → a ≡ b
  unfolding all_match
  all_match_sound [] [] l h = refl
  all_match_sound [] (b ∷ bs) l h = absurd (omega arith)
  all_match_sound (a ∷ rs) [] l h = absurd (omega arith)
  all_match_sound (a ∷ rs) (b ∷ bs) l h = elim (Bool-cases (slice_eq a b)) [
    | inl e ↦ ap₂ ◌∷◌ (slice_eq_sound a b e) (
        all_match_sound rs bs (omega arith)
          (subst (λ t. (if t then all_match rs bs else false) ≡ true) e h))
    | inr e ↦
        let no_match : false ≡ true =
          subst (λ t. (if t then all_match rs bs else false) ≡ true) e h in
        cc
  ]

  ensure_classic_lem :
      {codec : ReedSolomon A} {d p : ℕ}
      → IsClassic codec d p
      → ensure_classic_family_execution codec ≡ ok tt
  unfolding ensure_classic_family_execution
  ensure_classic_lem C = rw C.family refl

  module _ (leopard : LeopardCoders A) {codec : ReedSolomon A} {d p : ℕ}
      (C : IsClassic codec d p) where
    verify_family-classic :
        (slices : List (List A))
        → fast_one_parity_enabled codec ≡ false
        → verify_family leopard codec slices
          ≡ check_some_slices_with_buffer codec.data_shard_count
              (get_parity_rows codec)
              (take codec.data_shard_count slices)
              (drop codec.data_shard_count slices)
              (zero_buffers codec (first_length slices))
    unfolding verify_family
    verify_family-classic slices slow = rw (not_leopard_gf8 C, not_leopard_gf16 C, slow) refl

    -- For a classic codec that does not take the path for one parity shard, `verify` on shards of
    -- one non-zero length succeeds, and answers true exactly if every cell of every parity shard r
    -- is the sum over the data shards k of the matrix entry in row d + r and column k times the
    -- cell of shard k.
    pub verify_iff :
        (len : ℕ) (x : ℕ → ℕ → A) (slices : List (List A))
        → fast_one_parity_enabled codec ≡ false
        → 0 < len
        → IsBlock (d + p) len x slices
        → Returns (verify leopard codec slices) (λ answer. (answer ≡ true) ↔ (
            (r j : ℕ)
            → r < p
            → j < len
            → x (d + r) j ≡ sum d (λ k. F.mul (get codec.matrix (d + r) k) (x k j))))
    unfolding verify zero_buffers check_some_slices_with_buffer
    verify_iff len x slices slow q b =
        let n = codec.data_shard_count in
        let (result, run, block) =
          code_some_slices-IsBlock L len p d (λ r k. get codec.matrix (d + r) k) (λ r j. F.zero) x
            (get_parity_rows codec) (take n slices) (zero_buffers codec (first_length slices)) q
            C.some_data (get_parity_rows-IsBlock C) inputs buffers in
        let product : IsBlock p len (λ r j. sum d (λ k. F.mul (get codec.matrix (d + r) k) (x k j)))
            result =
          IsBlock-congr _ _
            (λ r j u w.
              sum_congr d _ _
                (λ k s. ap (F.mul (get codec.matrix (d + r) k)) (inputs.value_at k j s w)))
            block in
        (
          all_match result (drop n slices),
          rw
              (
                ensure_classic_lem C,
                (check_piece_count_iff codec.total_shard_count (length slices) _ _).1
                    (b.rows ∙ sym C.total_count),
                checked.0,
              )
              (verify_family-classic slices slow
                ∙ ap (λ m. m >>= (λ buffer. ok (all_match buffer (drop n slices))))
                    (ap
                        (λ n.
                          code_some_slices n (get_parity_rows codec)
                            (take codec.data_shard_count slices)
                            (zero_buffers codec (first_length slices)))
                        C.data_count
                      ∙ run)),
          (
            λ h.
                let same : result ≡ drop n slices =
                  all_match_sound result (drop n slices) (product.rows ∙ sym to_check.rows) h in
                λ r j u w.
                  sym (to_check.value_at r j u w)
                  ∙ (ap (λ t. cell t r j) (sym same) ∙ product.value_at r j u w),
            λ h.
                let same : result ≡ drop n slices =
                  IsBlock-unique result (drop n slices) product
                    (IsBlock-congr _ _ (λ r j u w. h r j u w) to_check) in
                subst (λ t. all_match result t ≡ true) same (all_match_refl result),
          ),
        )
      where
        checked : (check_multi slices ≡ ok tt) × (first_length slices ≡ len)
        checked =
            check_multi_ok len slices q (omega (arith, b.rows, C.some_data))
              (λ i u. b.width i (omega (arith, b.rows)))

        inputs : IsBlock d len x (take codec.data_shard_count slices)
        inputs = take-IsBlock p codec.data_shard_count C.data_count b

        to_check : IsBlock p len (λ r j. x (d + r) j) (drop codec.data_shard_count slices)
        to_check = drop-IsBlock p codec.data_shard_count C.data_count b

        buffers : IsBlock p len (λ r j. F.zero) (zero_buffers codec (first_length slices))
        buffers = record {
          rows =
              length-replicate codec.parity_shard_count (replicate (first_length slices) F.zero)
              ∙ C.parity_count;
          width = λ r u.
              ap length (
                get_or-replicate codec.parity_shard_count (replicate (first_length slices) F.zero) r
                  [] (omega (arith, C.parity_count)))
              ∙ (length-replicate (first_length slices) F.zero ∙ checked.1);
          value_at = λ r j u w.
              ap (λ t. get_or t j F.zero)
                (get_or-replicate codec.parity_shard_count (replicate (first_length slices) F.zero)
                  r [] (omega (arith, C.parity_count)))
              ∙ get_or-replicate (first_length slices) F.zero j F.zero (omega (arith, checked.1));
        }
