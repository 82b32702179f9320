-- ===== src/Codec/Decode/Recovery.antt =====
-- The data stage of src/core/reconstruct.rs recovers the data: the decode matrix undoes the rows of
-- the coding matrix that made the shards at hand.
use reed_solomon_erasure.Base.{
  ℕ, zero, suc, ◌<◌, ◌≡◌, refl, sym, ◌∙◌, ap, subst, arith, Bool, true, false, Option, some, none,
  List, [], ◌∷◌, map, length, get_or, length-map, get_or-map, ltb, ltb→lt, ==_iff, if◌then◌else◌,
  for_range, Result, ok, map_err, map_err-eq-ok, Bool-cases, ◌⊎◌, inl, inr,
}
use reed_solomon_erasure.Errors.{invalid_custom_matrix}
use reed_solomon_erasure.Field.{Field, FieldLaws}
use reed_solomon_erasure.Field.Sum.{sum, sum_congr, mul-sum, sum_comm}
use reed_solomon_erasure.Matrix.{Matrix, get, set, get_row, invert}
use reed_solomon_erasure.Matrix.Cells.{HasShape, new-HasShape, write_row}
use reed_solomon_erasure.Matrix.Fill.{IsFilled, fill_rows, delta}
use reed_solomon_erasure.Matrix.Invert.{product, product-delta_left, IsInverse, invert-IsInverse}
use reed_solomon_erasure.Codec.Blocks.{IsBlock, IsBlock-congr}
use reed_solomon_erasure.Codec.State.{ReedSolomon}
use reed_solomon_erasure.Codec.Coding.{code_some_slices}
use reed_solomon_erasure.Codec.Coding.Chunks.{Returns}
use reed_solomon_erasure.Codec.Coding.Whole.{code_some_slices-IsBlock}
use reed_solomon_erasure.Codec.Encode.Product.{IsClassic, get_row-get, length-get_row}
use reed_solomon_erasure.Codec.Decode.{
  take_while, decode_sub_matrix, get_data_decode_matrix, missing_data_indices,
  reconstruct_data_stage,
}

-- Every index that `take_while` keeps passes the test.
take_while-lt :
    (d : ℕ) (xs : List ℕ) (i : ℕ)
    → i < length (take_while (λ k. ltb k d) xs)
    → get_or (take_while (λ k. ltb k d) xs) i 0 < d
unfolding take_while
take_while-lt d [] i p = absurd (omega arith)
take_while-lt d (x ∷ xs) zero p = elim (Bool-cases (ltb x d)) [
  | inl e ↦ rw e (ltb→lt x d e)
  | inr e ↦
      let none_left : 0 < 0 =
        subst (λ b. 0 < length (if b then x ∷ take_while (λ k. ltb k d) xs else [])) e p in
      absurd (omega arith)
]
take_while-lt d (x ∷ xs) (suc i) p = elim (Bool-cases (ltb x d)) [
  | inl e ↦
      let more : suc i < suc (length (take_while (λ k. ltb k d) xs)) =
        subst (λ b. suc i < length (if b then x ∷ take_while (λ k. ltb k d) xs else [])) e p in
      rw e (take_while-lt d xs i (omega arith))
  | inr e ↦
      let none_left : suc i < 0 =
        subst (λ b. suc i < length (if b then x ∷ take_while (λ k. ltb k d) xs else [])) e p in
      absurd (omega arith)
]

-- The decode matrix comes from the cache or from the inversion.
cached_or_inverted {ℓ κ} :
    {E : Type κ} {M : Type ℓ} (use_cache : Bool) (cached : Option M) (inverted : Result E M) (m : M)
    → (elim (if use_cache then cached else none) [
      | some entry ↦ ok entry
      | none ↦ map_err (λ _. invalid_custom_matrix) inverted
    ])
      ≡ ok m
    → (cached ≡ some m) ⊎ (inverted ≡ ok m)
cached_or_inverted true none inverted m h =
    inr (map_err-eq-ok (λ _. invalid_custom_matrix) inverted h)
cached_or_inverted true (some entry) inverted m h = inl (let e : entry ≡ m = cc in ap some e)
cached_or_inverted false cached inverted m h =
    inr (map_err-eq-ok (λ _. invalid_custom_matrix) inverted h)

module _ {ℓ} {A : Type ℓ} ⦃F : Field A⦄ (L : FieldLaws F) where
  -- A product with a matrix is undone by its left inverse.
  undo :
      (n : ℕ) (b m : ℕ → ℕ → A) (x : ℕ → ℕ → A) (i j : ℕ)
      → ((r c : ℕ) → r < n → c < n → product n b m r c ≡ delta r c)
      → i < n
      → sum n (λ t. F.mul (b i t) (sum n (λ k. F.mul (m t k) (x k j)))) ≡ x i j
  undo n b m x i j inverse p =
      sum_congr n _ _ (λ t q.
        mul-sum L n (b i t) (λ k. F.mul (m t k) (x k j))
        ∙ sum_congr n _ _ (λ k s. sym (L.mul_assoc (b i t) (m t k) (x k j))))
      ∙ (sum_comm L n n (λ t k. F.mul (F.mul (b i t) (m t k)) (x k j))
          ∙ (sum_congr n _ (λ k. F.mul (delta i k) (x k j))
                (λ k q.
                  sum_mul n (λ t. F.mul (b i t) (m t k)) (x k j)
                  ∙ ap (λ e. F.mul e (x k j)) (inverse i k p q))
              ∙ product-delta_left L n x i j p))
    where
      sum_mul : (n : ℕ) (f : ℕ → A) (a : A) → sum n (λ t. F.mul (f t) a) ≡ F.mul (sum n f) a
      sum_mul n f a =
          sum_congr n _ _ (λ t q. L.mul_comm (f t) a)
          ∙ (sym (mul-sum L n a f) ∙ L.mul_comm a (sum n f))

  module _ {codec : ReedSolomon A} {d p : ℕ} (C : IsClassic codec d p) (valid : List ℕ)
      (all_valid : length valid ≡ d) where
    pub decode_sub_matrix-IsFilled :
        IsFilled d d (λ r c. get codec.matrix (get_or valid r 0) c) (decode_sub_matrix codec valid)
    unfolding decode_sub_matrix
    decode_sub_matrix-IsFilled =
        simp (C.data_count, all_valid)
          (fill_rows d d (λ r c. get codec.matrix (get_or valid r 0) c)
            (λ r m. for_range 0 d (λ c m. set m r c (get codec.matrix (get_or valid r 0) c)) m)
            (new-HasShape d d)
            (λ r m q s.
              write_row s r 0 d (λ c. get codec.matrix (get_or valid r 0) c) q (omega arith)
                (λ c m. set m r c (get codec.matrix (get_or valid r 0) c))
                (λ c _. get codec.matrix (get_or valid r 0) c)
                (λ c m'. ap (λ k. set m' r k (get codec.matrix (get_or valid r 0) c)) (omega arith))
                (λ c _ _ _. refl)))

    -- The decode matrix is the inverse of the chosen rows, if the cache holds only inverses.
    get_data_decode_matrix-IsInverse :
        (cached : Option (Matrix A)) (decode : Matrix A)
        → ((entry : Matrix A)
            → cached ≡ some entry
            → IsInverse d (decode_sub_matrix codec valid) entry)
        → get_data_decode_matrix codec cached valid ≡ ok decode
        → IsInverse d (decode_sub_matrix codec valid) decode
    unfolding get_data_decode_matrix
    get_data_decode_matrix-IsInverse cached decode sound h =
        elim (cached_or_inverted codec.options.inversion_cache cached
          (invert (decode_sub_matrix codec valid)) decode
          (simp ((==_iff (length valid) codec.data_shard_count).1 (all_valid ∙ sym C.data_count)) at
            h)) [
              | inl hit ↦ sound decode hit
              | inr run ↦
                  invert-IsInverse L d (decode_sub_matrix codec valid) decode
                    decode_sub_matrix-IsFilled.shape run
            ]

    decode_rows-IsBlock :
        (decode : Matrix A) (invalid : List ℕ)
        → HasShape decode d d
        → IsBlock
            (length (missing_data_indices codec invalid))
            d
            (λ r k. get decode (get_or (missing_data_indices codec invalid) r 0) k)
            (map (get_row decode) (missing_data_indices codec invalid))
    unfolding missing_data_indices
    decode_rows-IsBlock decode invalid s =
        let missing = missing_data_indices codec invalid in
        let row : (r : ℕ)
            → r < length missing
            → get_or (map (get_row decode) missing) r [] ≡ get_row decode (get_or missing r 0) =
          λ r q. get_or-map (get_row decode) missing r 0 [] q in
        record {
          rows = length-map (get_row decode) missing;
          width = λ r q.
              ap length (row r q)
              ∙ length-get_row (get_or missing r 0) s
                  (omega (arith, take_while-lt codec.data_shard_count invalid r q, C.data_count));
          value_at = λ r k q u.
              ap (λ t. get_or t k F.zero) (row r q)
              ∙ get_row-get decode (get_or missing r 0) k (omega (arith, s.col_count));
        }

  -- Any d shards of a codeword, with data x, that belong to rows of a classic codec whose decode
  -- matrix is found, restore the data: the stage does not panic, and the outputs become the
  -- missing data shards. A cached decode matrix must be the inverse for the same rows.
  pub reconstruct_data_stage-IsBlock :
      {codec : ReedSolomon A} {d p : ℕ} (C : IsClassic codec d p) (valid invalid : List ℕ)
      → length valid ≡ d
      → (cached : Option (Matrix A))
      → ((entry : Matrix A)
          → cached ≡ some entry
          → IsInverse d (decode_sub_matrix codec valid) entry)
      → (decode : Matrix A) → get_data_decode_matrix codec cached valid ≡ ok decode
      → (len : ℕ) (x v : ℕ → ℕ → A) (sub_shards outputs : List (List A)) → 0 < len
      → IsBlock d len
          (λ t j. sum d (λ k. F.mul (get codec.matrix (get_or valid t 0) k) (x k j)))
          sub_shards
      → IsBlock (length (missing_data_indices codec invalid)) len v outputs
      → Returns (reconstruct_data_stage codec decode invalid sub_shards outputs) (
          IsBlock
            (length (missing_data_indices codec invalid))
            len
            (λ r j. x (get_or (missing_data_indices codec invalid) r 0) j))
  unfolding reconstruct_data_stage missing_data_indices
  reconstruct_data_stage-IsBlock {codec} {d} C valid invalid all_valid cached sound decode h len x v
        sub_shards outputs q bs bo =
      let missing = missing_data_indices codec invalid in
      let inverse = get_data_decode_matrix-IsInverse C valid all_valid cached decode sound h in
      let filled = decode_sub_matrix-IsFilled C valid all_valid in
      let (result, run, block) =
        code_some_slices-IsBlock L len (length missing) d (λ r k. get decode (get_or missing r 0) k)
          v _ (map (get_row decode) missing) sub_shards outputs q C.some_data
          (decode_rows-IsBlock C valid all_valid decode invalid inverse.shape) bs bo in
      (
        result,
        ap (λ n. code_some_slices n (map (get_row decode) missing) sub_shards outputs) C.data_count
            ∙ run,
        IsBlock-congr _ _
            (λ r j u w.
              let inside : get_or missing r 0 < d =
                omega (arith, take_while-lt codec.data_shard_count invalid r u, C.data_count) in
              sum_congr d _ _
                (λ t s. ap (F.mul (get decode (get_or missing r 0) t)) (bs.value_at t j s w))
              ∙ undo d (get decode) (λ t k. get codec.matrix (get_or valid t 0) k) x
                  (get_or missing r 0) j
                  (λ a c y z.
                    sum_congr d _ _ (λ t s. ap (F.mul (get decode a t)) (sym (filled.cell t c s z)))
                    ∙ inverse.left a c y z)
                  inside)
            block,
      )
