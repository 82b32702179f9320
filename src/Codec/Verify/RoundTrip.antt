-- ===== src/Codec/Verify/RoundTrip.antt =====
-- `encode` of src/core/encode.rs leaves shards that `verify` of src/core/verify.rs accepts.
use reed_solomon_erasure.Base.{
  ◌-◌, ◌++◌, ltb, lt→ltb, le→ltb, take-append, ℕ, ◌+◌, ◌<◌, ◌≡◌, refl, sym, ◌∙◌, ap, ap₂, arith,
  true, false, List, length, take, drop, if◌then◌else◌, ok,
}
use reed_solomon_erasure.Field.{Field, FieldLaws}
use reed_solomon_erasure.Field.Sum.{sum, sum_congr}
use reed_solomon_erasure.Matrix.{get}
use reed_solomon_erasure.Codec.Blocks.{IsBlock}
use reed_solomon_erasure.Codec.Blocks.Parts.{take-IsBlock, drop-IsBlock, append-IsBlock}
use reed_solomon_erasure.Codec.State.{ReedSolomon, fast_one_parity_enabled}
use reed_solomon_erasure.Codec.Checks.{check_piece_count_iff, check_multi_ok}
use reed_solomon_erasure.Codec.Coding.Chunks.{Returns}
use reed_solomon_erasure.Codec.Encode.{LeopardCoders, encode}
use reed_solomon_erasure.Codec.Encode.Product.{encode_sep-IsBlock, IsClassic}
use reed_solomon_erasure.Codec.Verify.{verify}
use reed_solomon_erasure.Codec.Verify.Check.{verify_iff}

module _ {ℓ} {A : Type ℓ} ⦃F : Field A⦄ (L : FieldLaws F) (leopard : LeopardCoders A)
    {codec : ReedSolomon A} {d p : ℕ} (C : IsClassic codec d p) where
  -- What `encode` leaves, shard by shard.
  pub encode-IsBlock :
      (len : ℕ) (x : ℕ → ℕ → A) (slices : List (List A))
      → fast_one_parity_enabled codec ≡ false
      → 0 < len
      → IsBlock (d + p) len x slices
      → Returns (encode leopard codec slices) (λ coded.
        (take codec.data_shard_count coded ≡ take codec.data_shard_count slices)
        × IsBlock
            (d + p)
            len
            (λ r j.
              if ltb r d
              then x r j
              else sum d (λ k. F.mul (get codec.matrix (d + (r - d)) k) (x k j)))
            coded)
  unfolding encode
  encode-IsBlock len x slices slow q b =
      let n = codec.data_shard_count in
      let inputs = take-IsBlock p n C.data_count b in
      let (parity, run, product) =
        encode_sep-IsBlock L leopard C len x (λ r j. x (d + r) j) (take n slices) (drop n slices)
          slow q inputs (drop-IsBlock p n C.data_count b) in
      let checked =
        check_multi_ok len slices q (omega (arith, b.rows, C.some_data))
          (λ i u. b.width i (omega (arith, b.rows))) in
      (
        take n slices ++ parity,
        rw
            (
              (check_piece_count_iff codec.total_shard_count (length slices) _ _).1
                  (b.rows ∙ sym C.total_count),
              checked.0,
              run,
            )
            refl,
        (
          ap (λ k. take k (take n slices ++ parity)) (C.data_count ∙ sym inputs.rows)
              ∙ take-append (take n slices) parity,
          append-IsBlock p inputs product,
        ),
      )

  -- What `encode` leaves is what `verify` accepts: for a classic codec that does not take the path
  -- for one parity shard, `encode` on shards of one non-zero length succeeds, keeps the data shards,
  -- and `verify` answers true on its result.
  pub encode-verify :
      (len : ℕ) (x : ℕ → ℕ → A) (slices : List (List A))
      → fast_one_parity_enabled codec ≡ false
      → 0 < len
      → IsBlock (d + p) len x slices
      → Returns (encode leopard codec slices) (λ coded.
        (take codec.data_shard_count coded ≡ take codec.data_shard_count slices)
        × (verify leopard codec coded ≡ ok true))
  encode-verify len x slices slow q b =
      let (coded, run, (kept, block)) = encode-IsBlock len x slices slow q b in
      let (answer, checked, agree) = verify_iff L leopard C len _ coded slow q block in
      let yes_answer : answer ≡ true = agree.1 (λ r j u w. rw (le→ltb (d + r) d (omega arith)) (
        sum_congr d _ _ (λ k s.
          ap₂ F.mul
            (ap (λ t. get codec.matrix t k) (let e : d + (d + r - d) ≡ d + r = omega arith in e))
            (sym (rw (lt→ltb k d s) refl))))) in
      (coded, run, (kept, checked ∙ ap ok yes_answer))
