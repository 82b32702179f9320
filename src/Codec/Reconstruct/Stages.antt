-- ===== src/Codec/Reconstruct/Stages.antt =====
-- The two coding stages of `reconstruct_internal` in src/core/reconstruct.rs on shards of a codeword:
-- the decode matrix is found, and the stages restore the missing shards.
use reed_solomon_erasure.Base.{
  ℕ, ◌+◌, ◌-◌, ◌<◌, ◌≤◌, ◌≡◌, refl, sym, ◌∙◌, ap, arith, Bool, true, false, List, [], length,
  get_or, get_or_ext, map, length-map, get_or-map, ==_iff, Option, none, some, Result, ok, map_err,
  if◌then◌else◌,
}
use reed_solomon_erasure.Errors.{invalid_custom_matrix}
use reed_solomon_erasure.Field.{Field, FieldLaws}
use reed_solomon_erasure.Field.Sum.{sum, sum_congr}
use reed_solomon_erasure.Matrix.{Matrix, get, invert}
use reed_solomon_erasure.Matrix.Fill.{delta}
use reed_solomon_erasure.Matrix.Invert.{IsInverse, product-delta_left}
use reed_solomon_erasure.Matrix.Regular.{IsRegular, invert_total}
use reed_solomon_erasure.Codec.Blocks.{IsBlock, cell}
use reed_solomon_erasure.Codec.State.{ReedSolomon, get_parity_rows}
use reed_solomon_erasure.Codec.Coding.Chunks.{Returns}
use reed_solomon_erasure.Codec.Coding.Whole.{code_some_slices-IsBlock}
use reed_solomon_erasure.Codec.Encode.Product.{IsClassic, get_parity_rows-IsBlock}
use reed_solomon_erasure.Codec.Build.Constructed.{IsMds}
use reed_solomon_erasure.Codec.Decode.{
  decode_sub_matrix, get_data_decode_matrix, missing_data_indices, reconstruct_data_stage,
}
use reed_solomon_erasure.Codec.Decode.Recovery.{
  decode_sub_matrix-IsFilled, reconstruct_data_stage-IsBlock,
}
use reed_solomon_erasure.Codec.Reconstruct.{
  Sorted, reconstruct_parity_stage, missing_parity_indices,
}
use reed_solomon_erasure.Codec.Reconstruct.Indices.{
  IsRising, IsRising-get_or, IsRising-distinct, below, from, below-IsRising, from-IsRising,
}
use reed_solomon_erasure.Codec.Reconstruct.Collected.{IsCollected, HaveWidth}
use reed_solomon_erasure.Codec.Reconstruct.Gather.{all_data_slices_lem}
use reed_solomon_erasure.Codec.Slots.{ReconstructShard}

-- A decode matrix is found, in the cache or by inversion.
found_or_inverted {ℓ κ} :
    {E : Type κ} {M : Type ℓ} (use_cache : Bool) (cached : Option M) (inverted : Result E M) (m : M)
    → inverted ≡ ok m
    → (decode : M) × ((elim (if use_cache then cached else none) [
      | some entry ↦ ok entry
      | none ↦ map_err (λ _. invalid_custom_matrix) inverted
    ])
        ≡ ok decode)
found_or_inverted true none inverted m h = (m, rw h refl)
found_or_inverted true (some entry) inverted m h = (entry, refl)
found_or_inverted false cached inverted m h = (m, rw h refl)

module _ {ℓ} {A : Type ℓ} ⦃F : Field A⦄ (L : FieldLaws F) {codec : ReedSolomon A}
    (C : IsClassic codec codec.data_shard_count codec.parity_shard_count) where
  -- For a classic codec of which any d rows are independent, the decode matrix is found for any d
  -- different shards, given by rising row numbers, whatever the cache answers.
  pub get_data_decode_matrix_total :
      IsMds codec codec.data_shard_count codec.parity_shard_count
      → (cached : Option (Matrix A)) (valid : List ℕ)
      → IsRising 0 (codec.data_shard_count + codec.parity_shard_count) valid
      → length valid ≡ codec.data_shard_count
      → (decode : Matrix A) × (get_data_decode_matrix codec cached valid ≡ ok decode)
  unfolding get_data_decode_matrix
  get_data_decode_matrix_total mds cached valid rising all_valid =
      let d = codec.data_shard_count in
      let filled = decode_sub_matrix-IsFilled L C valid all_valid in
      let regular : IsRegular d (get (decode_sub_matrix codec valid)) = λ x zeros.
        mds (λ r. get_or valid r 0)
          (λ i p.
            (IsRising-get_or 0 (codec.data_shard_count + codec.parity_shard_count) valid i rising
              (omega arith)).1)
          (λ i j p q e.
            IsRising-distinct 0 (codec.data_shard_count + codec.parity_shard_count) valid i j rising
              (omega arith) (omega arith) e)
          x
          (λ r p.
            sum_congr d _ _ (λ c q. ap (λ e. F.mul e (x c)) (sym (filled.cell r c p q)))
            ∙ zeros r p) in
      let (b, run) = invert_total L d (decode_sub_matrix codec valid) filled.shape regular in
      let (decode, found) =
        found_or_inverted codec.options.inversion_cache cached
          (invert (decode_sub_matrix codec valid)) b run in
      (decode, rw ((==_iff (length valid) codec.data_shard_count).1 all_valid) found)

  module _ {len : ℕ} (some_len : 0 < len) (x : ℕ → ℕ → A) (content : List (List A))
      (word : IsBlock
        (codec.data_shard_count + codec.parity_shard_count)
        len
        (λ r j. sum codec.data_shard_count (λ k. F.mul (get codec.matrix r k) (x k j)))
        content)
      (identity : (r c : ℕ)
        → r < codec.data_shard_count
        → c < codec.data_shard_count
        → get codec.matrix r c ≡ delta r c) where
    -- A buffer with the values of a row of the codeword is that row.
    row_unique :
        (buffer : List A) (r : ℕ)
        → r < codec.data_shard_count + codec.parity_shard_count
        → length buffer ≡ len
        → ((j : ℕ)
            → j < len
            → get_or buffer j F.zero
              ≡ sum codec.data_shard_count (λ k. F.mul (get codec.matrix r k) (x k j)))
        → buffer ≡ get_or content r []
    row_unique buffer r p e h =
        get_or_ext F.zero buffer (get_or content r []) (e ∙ sym (word.width r p))
          (λ j q. h j (omega arith) ∙ sym (word.value_at r j p (omega arith)))

    data_value :
        (r j : ℕ)
        → r < codec.data_shard_count
        → sum codec.data_shard_count (λ k. F.mul (get codec.matrix r k) (x k j)) ≡ x r j
    data_value r j p =
        sum_congr codec.data_shard_count _ _ (λ k q. ap (λ e. F.mul e (x k j)) (identity r k p q))
        ∙ product-delta_left L codec.data_shard_count x r j p

    -- The data stage on the rows of the codeword at the valid indices leaves the rows at the invalid
    -- ones that are data.
    pub data_stage_rows :
        (valid invalid : List ℕ) (sub_shards outputs : List (List A)) (cached : Option (Matrix A))
        (decode : Matrix A)
        → IsRising 0 (codec.data_shard_count + codec.parity_shard_count) valid
        → length valid ≡ codec.data_shard_count
        → IsRising 0 (codec.data_shard_count + codec.parity_shard_count) invalid
        → length sub_shards ≡ length valid
        → ((t : ℕ)
            → t < length valid
            → get_or sub_shards t [] ≡ get_or content (get_or valid t 0) [])
        → length outputs ≡ length (below codec.data_shard_count invalid)
        → HaveWidth len outputs
        → ((entry : Matrix A)
            → cached ≡ some entry
            → IsInverse codec.data_shard_count (decode_sub_matrix codec valid) entry)
        → get_data_decode_matrix codec cached valid ≡ ok decode
        → Returns (reconstruct_data_stage codec decode invalid sub_shards outputs) (λ data'.
          (length data' ≡ length (below codec.data_shard_count invalid))
          × ((t : ℕ)
              → t < length (below codec.data_shard_count invalid)
              → get_or data' t []
                ≡ get_or content (get_or (below codec.data_shard_count invalid) t 0) []))
    unfolding missing_data_indices
    data_stage_rows valid invalid sub_shards outputs cached decode rising all_valid rising'
          same_count contents count width sound found =
        let d = codec.data_shard_count in
        let below_total : (t : ℕ) → t < d → get_or valid t 0 < d + codec.parity_shard_count = λ t p.
          (IsRising-get_or 0 (d + codec.parity_shard_count) valid t rising (omega arith)).1 in
        let (data', run, block) =
          reconstruct_data_stage-IsBlock L C valid invalid all_valid cached sound decode found len x
            (cell outputs) sub_shards outputs some_len
            (record {
              rows = same_count ∙ all_valid;
              width = λ t p.
                  ap length (contents t (omega arith))
                  ∙ word.width (get_or valid t 0) (below_total t p);
              value_at = λ t j p q.
                  ap (λ s. get_or s j F.zero) (contents t (omega arith))
                  ∙ word.value_at (get_or valid t 0) j (below_total t p) q;
            })
            (record {
              rows = count;
              width = λ t p. width t (omega arith);
              value_at = λ t j p q. refl;
            }) in
        (
          data',
          run,
          (
            block.rows,
            (λ t p.
                let inside =
                  (IsRising-get_or 0 d (below d invalid) t
                    (below-IsRising d 0 (d + codec.parity_shard_count) invalid rising') p).1 in
                row_unique (get_or data' t []) (get_or (below d invalid) t 0)
                  (omega (arith, inside)) (block.width t p)
                  (λ j q. block.value_at t j p q ∙ sym (data_value _ j inside))),
          ),
        )

    module _ {κ} {S : Type κ} (R : ReconstructShard A S) (data_only : Bool) (n : ℕ)
        (shards : List S) (o : Sorted A S)
        (c : IsCollected R len
          (codec.data_shard_count + codec.parity_shard_count)
          codec.data_shard_count
          data_only
          (λ r. get_or content r [])
          0
          0
          n
          shards
          o)
        (enough : codec.data_shard_count ≤ n) where
      -- The data stage restores the missing data shards.
      pub reconstruct_data_stage-restores :
          (cached : Option (Matrix A))
          → ((entry : Matrix A)
              → cached ≡ some entry
              → IsInverse codec.data_shard_count (decode_sub_matrix codec o.valid_indices) entry)
          → (decode : Matrix A) → get_data_decode_matrix codec cached o.valid_indices ≡ ok decode
          → Returns
              (reconstruct_data_stage codec decode o.invalid_indices o.sub_shards o.missing_data)
              (λ data'.
                (length data' ≡ length (below codec.data_shard_count o.invalid_indices))
                × ((t : ℕ)
                    → t < length (below codec.data_shard_count o.invalid_indices)
                    → get_or data' t []
                      ≡ get_or content
                          (get_or (below codec.data_shard_count o.invalid_indices) t 0)
                          []))
      reconstruct_data_stage-restores cached sound decode found =
          data_stage_rows o.valid_indices o.invalid_indices o.sub_shards o.missing_data cached
            decode c.valid (omega (arith, c.enough (omega arith))) c.invalid c.same_count c.contents
            c.data_count c.data_width sound found

      -- The parity stage restores the missing parity shards.
      pub reconstruct_parity_stage-restores :
          (data' : List (List A))
          → data_only ≡ false
          → length data' ≡ length (below codec.data_shard_count o.invalid_indices)
          → ((t : ℕ)
              → t < length (below codec.data_shard_count o.invalid_indices)
              → get_or data' t []
                ≡ get_or content (get_or (below codec.data_shard_count o.invalid_indices) t 0) [])
          → Returns
              (reconstruct_parity_stage codec o.invalid_indices o.sub_shards data' o.missing_parity)
              (λ parity'.
                (length parity' ≡ length (from codec.data_shard_count o.invalid_indices))
                × ((t : ℕ)
                    → t < length (from codec.data_shard_count o.invalid_indices)
                    → get_or parity' t []
                      ≡ get_or content
                          (get_or (from codec.data_shard_count o.invalid_indices) t 0)
                          []))
      unfolding reconstruct_parity_stage missing_data_indices missing_parity_indices
      reconstruct_parity_stage-restores data' all count same =
          let d = codec.data_shard_count in
          let total = d + codec.parity_shard_count in
          let missing = from d o.invalid_indices in
          let (slices, gathered, (slice_count, slice_rows)) =
            all_data_slices_lem (λ r. get_or content r []) o.sub_shards d 0 0
              (below d o.invalid_indices) data' (omega arith) (omega arith)
              (below-IsRising d 0 total o.invalid_indices c.invalid) c.gaps count same in
          let slice_row : (k : ℕ) → k < d → get_or slices k [] ≡ get_or content k [] =
            λ k p. slice_rows k (omega arith) ∙ ap (λ r. get_or content r []) (omega arith) in
          let bounds : (t : ℕ)
              → t < length missing
              → (d ≤ get_or missing t 0) × (get_or missing t 0 < total) =
            λ t p.
              IsRising-get_or d total missing t
                (from-IsRising d 0 total o.invalid_indices c.invalid) p in
          let rows = get_parity_rows-IsBlock C in
          let pick : ℕ → List A = λ i. get_or (get_parity_rows codec) (i - d) [] in
          let picked : (t : ℕ)
              → t < length missing
              → get_or (map pick missing) t [] ≡ pick (get_or missing t 0) =
            λ t p. get_or-map pick missing t 0 [] p in
          let (parity', run, block) =
            code_some_slices-IsBlock L len (length missing) d
              (λ t k. get codec.matrix (d + (get_or missing t 0 - d)) k) (cell o.missing_parity)
              (cell slices) (map pick missing) slices o.missing_parity some_len C.some_data
              (record {
                rows = length-map pick missing;
                width = λ t p.
                    ap length (picked t p)
                    ∙ rows.width (get_or missing t 0 - d) (omega (arith, bounds t p));
                value_at = λ t k p q.
                    ap (λ s. get_or s k F.zero) (picked t p)
                    ∙ rows.value_at (get_or missing t 0 - d) k (omega (arith, bounds t p)) q;
              })
              (record {
                rows = omega arith;
                width = λ k p. ap length (slice_row k p) ∙ word.width k (omega arith);
                value_at = λ k j p q. refl;
              })
              (record {
                rows = c.parity_count all;
                width = λ t p. c.parity_width t (omega (arith, c.parity_count all));
                value_at = λ t j p q. refl;
              }) in
          (
            parity',
            rw gathered run,
            (
              block.rows,
              (λ t p.
                  row_unique (get_or parity' t []) (get_or missing t 0) (bounds t p).1
                    (block.width t p)
                    (λ j q.
                      block.value_at t j p q
                      ∙ sum_congr d _ _ (λ k u.
                        ap (λ r. F.mul (get codec.matrix r k) (cell slices k j))
                          (let e : d + (get_or missing t 0 - d) ≡ get_or missing t 0 =
                              omega (arith, bounds t p) in
                            e)
                        ∙ ap (F.mul (get codec.matrix (get_or missing t 0) k)) (
                            ap (λ s. get_or s j F.zero) (slice_row k u)
                            ∙ (word.value_at k j (omega arith) q ∙ data_value k j u))))),
            ),
          )
