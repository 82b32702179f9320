-- ===== src/Codec/Reconstruct/Erasure.antt =====
-- `new` of src/core/codec.rs, `encode` of src/core/encode.rs and `reconstruct` of
-- src/core/reconstruct.rs together: shards that are lost after the encoding come back.
use reed_solomon_erasure.Base.{
  ℕ, suc, ◌+◌, ◌-◌, ◌<◌, ◌≤◌, ◌≡◌, refl, sym, ◌∙◌, ap, subst, arith, Bool, true, false, List, [],
  ◌∷◌, length, get_or, get_or_ext, map, length-map, get_or-map, ltb, lt→ltb, le→ltb, Option, none,
  some, ok, if◌then◌else◌, replicate, length-replicate, zip_with, length-zip_with,
}
use native.Mathlib.Decide.{dec_lt}
use reed_solomon_erasure.Field.{Field, FieldLaws}
use reed_solomon_erasure.Field.Sum.{sum, sum_congr}
use reed_solomon_erasure.Matrix.{get}
use reed_solomon_erasure.Matrix.Fill.{delta}
use reed_solomon_erasure.Matrix.Invert.{product-delta_left}
use reed_solomon_erasure.Codec.Blocks.{IsBlock, IsBlock-congr}
use reed_solomon_erasure.Codec.Family.{usize_max}
use reed_solomon_erasure.Codec.State.{ReedSolomon, ensure_classic_family_execution}
use reed_solomon_erasure.Codec.Build.{new}
use reed_solomon_erasure.Codec.Build.Constructed.{IsMds, new_facts}
use reed_solomon_erasure.Codec.Encode.{LeopardCoders, encode}
use reed_solomon_erasure.Codec.Encode.Product.{IsClassic, not_leopard_gf8, not_leopard_gf16}
use reed_solomon_erasure.Codec.Verify.RoundTrip.{encode-IsBlock}
use reed_solomon_erasure.Codec.Slots.{option_shard, ready}
use reed_solomon_erasure.Codec.Reconstruct.{reconstruct_internal}
use reed_solomon_erasure.Codec.Reconstruct.Sorting.{IsDamaged, end, kept, lost}
use reed_solomon_erasure.Codec.Reconstruct.Correct.{reconstruct_internal-IsRestored}
use reed_solomon_erasure.Codec.Reconstruct.Written.{IsRestored}
use reed_solomon_erasure.Codec.Reconstruct.Calls.{
  LeopardReconstructors, reconstruct, reconstruct_data,
}

-- The shards without those that the mask does not keep.
abbrev pub erase {ℓ} : {X : Type ℓ} → List Bool → List X → List (Option X)
erase mask shards = zip_with (λ keep x. if keep then some x else none) mask shards

abbrev pub count_kept : List Bool → ℕ
count_kept [] = 0
count_kept (true ∷ mask) = suc (count_kept mask)
count_kept (false ∷ mask) = count_kept mask

module _ {ℓ} {A : Type ℓ} ⦃F : Field A⦄ (len : ℕ) (content : ℕ → List A) where
  pub erase-IsDamaged :
      (row : ℕ) (mask : List Bool) (shards : List (List A))
      → length mask ≡ length shards
      → ((i r : ℕ)
          → i < length shards
          → row + i ≡ r
          → (get_or shards i [] ≡ content r) × (length (get_or shards i []) ≡ len))
      → IsDamaged option_shard len content row (count_kept mask) (erase mask shards)
  unfolding option_shard
  erase-IsDamaged row [] shards e h = end
  erase-IsDamaged row (keep ∷ mask) [] e h = absurd (omega arith)
  erase-IsDamaged row (true ∷ mask) (x ∷ shards) e h =
      let (same, width) = h 0 row (omega arith) (omega arith) in
      kept (record { size = ap some width; held = ap some same; init = ap ready same })
        (erase-IsDamaged (suc row) mask shards (omega arith)
          (λ i r p q. h (suc i) r (omega arith) (omega arith)))
  erase-IsDamaged row (false ∷ mask) (x ∷ shards) e h =
      lost
        (record {
          size = refl;
          held = refl;
          buffer = replicate len F.zero;
          begun = some (replicate len F.zero);
          init = refl;
          width = length-replicate len F.zero;
          writable = λ y. refl;
        })
        (erase-IsDamaged (suc row) mask shards (omega arith)
          (λ i r p q. h (suc i) r (omega arith) (omega arith)))

own_counts {ℓ κ} :
    {A : Type ℓ} {codec : ReedSolomon A} {d p : ℕ}
    → (P : ℕ → ℕ → Type κ) → IsClassic codec d p
    → P d p
    → P codec.data_shard_count codec.parity_shard_count
own_counts {codec = codec} {d} {p} P C h =
    subst (λ k. P k codec.parity_shard_count) (sym C.data_count)
      (subst (P d) (sym C.parity_count) h)

module _ {ℓ} {A : Type ℓ} ⦃F : Field A⦄ (L : FieldLaws F) {codec : ReedSolomon A} {d p : ℕ}
    (C : IsClassic codec d p) (mds : IsMds codec d p)
    (identity : (r c : ℕ) → r < d → c < d → get codec.matrix r c ≡ delta r c) where
  -- What `encode` leaves is the product with the coding matrix.
  encoded_word :
      (len : ℕ) (x : ℕ → ℕ → A) (coded : List (List A))
      → IsBlock
          (d + p)
          len
          (λ r j.
            if ltb r d
            then x r j
            else sum d (λ k. F.mul (get codec.matrix (d + (r - d)) k) (x k j)))
          coded
      → IsBlock (d + p) len (λ r j. sum d (λ k. F.mul (get codec.matrix r k) (x k j))) coded
  encoded_word len x coded block =
      IsBlock-congr _ _
        (λ r j u w. elim (dec_lt r d) [
          | yes early ↦ rw (lt→ltb r d early) (
              sym (
                sum_congr d _ _ (λ k q. ap (λ e. F.mul e (x k j)) (identity r k early q))
                ∙ product-delta_left L d x r j early))
          | no late ↦
              rw (le→ltb r d (omega arith))
                (ap (λ t. sum d (λ k. F.mul (get codec.matrix t k) (x k j))) (omega arith))
        ])
        block

  -- The shards of a codeword come back.
  erased-IsRestored :
      (data_only : Bool) (len : ℕ) (x : ℕ → ℕ → A) (content : List (List A)) (mask : List Bool)
      → 0 < len
      → IsBlock (d + p) len (λ r j. sum d (λ k. F.mul (get codec.matrix r k) (x k j))) content
      → length mask ≡ d + p
      → d ≤ count_kept mask
      → (slots : List (Option (List A))) × (reconstruct_internal option_shard codec
            (λ _. none)
            (erase mask content)
            data_only
          ≡ (slots, ok tt))
        × (length slots ≡ d + p)
        × IsRestored option_shard d (d + p) data_only content slots
  erased-IsRestored data_only len x content mask some_len word all enough =
      let damaged =
        erase-IsDamaged len (λ r. get_or content r []) 0 mask content (all ∙ sym word.rows)
          (λ i r u e. (
            ap (λ k. get_or content k []) (let same : i ≡ r = omega arith in same),
            word.width i (omega (arith, word.rows)),
          )) in
      let size : length (erase mask content) ≡ d + p =
        length-zip_with _ mask content (all ∙ sym word.rows) ∙ all in
      let (slots, run, same, restored) =
        reconstruct_internal-IsRestored L (own_counts (λ a b. IsClassic codec a b) C C)
          (own_counts (λ a b. IsMds codec a b) C mds)
          (own_counts (λ a b. (r c : ℕ) → r < a → c < a → get codec.matrix r c ≡ delta r c) C
            identity)
          option_shard some_len x content
          (own_counts
            (λ a b.
              IsBlock (a + b) len (λ r j. sum a (λ k. F.mul (get codec.matrix r k) (x k j)))
                content)
            C word)
          (λ _. none) data_only (count_kept mask) (erase mask content)
          (own_counts (λ a b. length (erase mask content) ≡ a + b) C size) damaged
          (omega (arith, C.data_count)) (λ entry e. cc) in
      (
        slots,
        run,
        same ∙ size,
        (λ r default u early.
            restored r default (omega (arith, C.data_count, C.parity_count))
              (λ only. omega (arith, C.data_count, early only))),
      )

module _ {ℓ} {A : Type ℓ} ⦃F : Field A⦄ (L : FieldLaws F) (big_endian : Bool)
    (leopard : LeopardCoders A) (leopard' : LeopardReconstructors (Option (List A))) (d p len : ℕ)
    (codec : ReedSolomon A) (x : ℕ → ℕ → A) (slices coded : List (List A)) (mask : List Bool)
    (some_data : 0 < d) (some_parity : 0 < p) (fits : d + p ≤ F.order) (small : F.order ≤ usize_max)
    (built : new big_endian d p ≡ ok codec) (some_len : 0 < len)
    (block : IsBlock (d + p) len x slices) (encoded : encode leopard codec slices ≡ ok coded)
    (all : length mask ≡ d + p) (enough : d ≤ count_kept mask) where
  erased_encoded-IsRestored :
      (data_only : Bool)
      → IsClassic codec d p
        × IsBlock
            (d + p)
            len
            (λ r j.
              if ltb r d
              then x r j
              else sum d (λ k. F.mul (get codec.matrix (d + (r - d)) k) (x k j)))
            coded
        × ((slots : List (Option (List A))) × (reconstruct_internal option_shard codec
                (λ _. none)
                (erase mask coded)
                data_only
              ≡ (slots, ok tt))
            × (length slots ≡ d + p)
            × IsRestored option_shard d (d + p) data_only coded slots)
  erased_encoded-IsRestored data_only =
      let (C', slow', identity', mds') =
        new_facts L big_endian d p codec some_data some_parity fits small built in
      let (result, encode_run, (_, result_block)) =
        encode-IsBlock L leopard C' len x slices slow' some_len block in
      let same_result : result ≡ coded = cc in
      let coded_block = subst (IsBlock (d + p) len _) same_result result_block in
      (
        C',
        coded_block,
        erased-IsRestored L C' mds' identity' data_only len x coded mask some_len
            (encoded_word L C' mds' identity' len x coded coded_block) all enough,
      )

  -- For a field with the laws of one, counts that are not zero and whose sum is at most the order of
  -- the field (and so fits into a `usize`), the codec that `new` returns for them, and the shards of
  -- one non-zero length that `encode` left: when at least d of the shards are kept and the others are
  -- lost, `reconstruct` on a codec with an empty cache succeeds, and leaves all the encoded shards.
  pub reconstruct-encode :
      reconstruct option_shard leopard' codec (λ _. none) (erase mask coded)
      ≡ (map some coded, ok tt)
  unfolding reconstruct ensure_classic_family_execution option_shard
  reconstruct-encode =
      let (C, block', (slots, run, size, restored)) = erased_encoded-IsRestored false in
      let every : slots ≡ map some coded =
        get_or_ext none slots (map some coded) (size ∙ sym (length-map some coded ∙ block'.rows))
          (λ i q.
            restored i none (omega arith) (λ e. absurd (cc))
            ∙ sym (get_or-map some coded i [] none (omega (arith, block'.rows)))) in
      rw (not_leopard_gf8 C, not_leopard_gf16 C, C.family) (run ∙ ap (λ s. (s, ok tt)) every)

  -- Under the same conditions `reconstruct_data` succeeds, keeps the number of shards, and each data
  -- shard is the encoded one.
  pub reconstruct_data-encode :
      (slots : List (Option (List A))) × (reconstruct_data option_shard leopard' codec
          (λ _. none)
          (erase mask coded)
        ≡ (slots, ok tt))
      × (length slots ≡ d + p)
      × ((r : ℕ) → r < d → get_or slots r none ≡ some (get_or coded r []))
  unfolding reconstruct_data ensure_classic_family_execution option_shard
  reconstruct_data-encode =
      let (C, block', (slots, run, size, restored)) = erased_encoded-IsRestored true in
      (
        slots,
        rw (not_leopard_gf8 C, not_leopard_gf16 C, C.family) run,
        size,
        (λ r q. restored r none (omega arith) (λ e. q)),
      )
