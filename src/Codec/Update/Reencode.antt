-- ===== src/Codec/Update/Reencode.antt =====
-- `update` of src/core/encode.rs as a whole: it turns the parity of the old data into that of the new.
use reed_solomon_erasure.Base.{
  ℕ, zero, suc, ◌+◌, ◌<◌, ◌≡◌, refl, sym, ◌∙◌, ap, ap₂, subst, arith, false, Option, none, some,
  List, [], ◌∷◌, length, get_or, replicate, length-replicate, zip_with, length-zip_with,
  get_or-zip_with, lt→ltb, le→ltb, ==_iff, ne→==, ok,
}
use native.Mathlib.Decide.{dec_lt, ℕ_discrete}
use reed_solomon_erasure.Errors
use reed_solomon_erasure.Field.{Field, FieldLaws, write_zip}
use reed_solomon_erasure.Field.Sum.{sum, sum_congr}
use reed_solomon_erasure.Matrix.{get}
use reed_solomon_erasure.Codec.Blocks.{IsBlock, IsBlock-congr, IsBlock-tail}
use reed_solomon_erasure.Codec.State.{ReedSolomon, get_parity_rows, fast_one_parity_enabled}
use reed_solomon_erasure.Codec.Checks.{check_piece_count_iff, check_multi_multi_ok}
use reed_solomon_erasure.Codec.Coding.{first_len}
use reed_solomon_erasure.Codec.Coding.Chunks.{Returns}
use reed_solomon_erasure.Codec.Encode.Product.{
  IsClassic, get_parity_rows-IsBlock, not_leopard_gf8, not_leopard_gf16, classic_execution,
}
use reed_solomon_erasure.Codec.Update.{check_new_lens, update_rounds, update_checked, update}
use reed_solomon_erasure.Codec.Update.Product.{
  replaced, write_zip-second, update_parity_with_delta-IsBlock, mixed, mixed-sum,
}

module _ {ℓ} {A : Type ℓ} ⦃F : Field A⦄ (L : FieldLaws F) (d p len : ℕ) (co : ℕ → ℕ → A)
    (rows : List (List A)) (bc : IsBlock p d co rows) (x x' : ℕ → ℕ → A) where
  -- The parity once the first `i` data shards are changed.
  abbrev parity_after : ℕ → ℕ → ℕ → A
  parity_after i r j = sum d (λ k. F.mul (co r k) (mixed L (λ t. x t j) (λ t. x' t j) i k))

  same_after :
      (i r j : ℕ)
      → ((j : ℕ) → j < len → x i j ≡ x' i j)
      → j < len
      → parity_after i r j ≡ parity_after (suc i) r j
  same_after i r j same q = sum_congr d _ _ (λ k u. ap (F.mul (co r k)) (term k))
    where
      term :
          (k : ℕ)
          → mixed L (λ t. x t j) (λ t. x' t j) i k ≡ mixed L (λ t. x t j) (λ t. x' t j) (suc i) k
      term k = elim (ℕ_discrete k i) [
        | yes now ↦
            rw (le→ltb k i (omega arith), lt→ltb k (suc i) (omega arith))
              (ap (λ t. x t j) now ∙ (same j q ∙ ap (λ t. x' t j) (sym now)))
        | no other ↦ elim (dec_lt k i) [
          | yes before ↦ rw (lt→ltb k i before, lt→ltb k (suc i) (omega arith)) refl
          | no after ↦ rw (le→ltb k i (omega arith), le→ltb k (suc i) (omega arith)) refl
        ]
      ]

  -- A block of the data shards from `i` on, without the first of them.
  next-IsBlock :
      {count : ℕ} {s : List A} {shards : List (List A)} (i : ℕ) (y : ℕ → ℕ → A)
      → IsBlock (suc count) len (λ k j. y (i + k) j) (s ∷ shards)
      → IsBlock count len (λ k j. y (suc i + k) j) shards
  next-IsBlock i y b =
      IsBlock-congr _ _
        (λ k j u w. ap (λ t. y t j) (let e : i + suc k ≡ suc i + k = omega arith in e))
        (IsBlock-tail b)

  update_rounds-IsBlock :
      (count i : ℕ) (delta : List A) (old_data : List (List A)) (new_data : List (Option (List A)))
      (parity : List (List A))
      → i + count ≡ d
      → length delta ≡ len
      → length new_data ≡ count
      → IsBlock count len (λ k j. x (i + k) j) old_data
      → IsBlock count len (λ k j. x' (i + k) j) (replaced old_data new_data)
      → IsBlock p len (parity_after i) parity
      → Returns
          (update_rounds rows i delta old_data new_data parity)
          (IsBlock p len (parity_after d))
  unfolding update_rounds
  update_rounds-IsBlock count i delta [] new_data parity e w n bo bn bp = (
    parity,
    refl,
    subst (λ k. IsBlock p len (parity_after k) parity)
        (let done : i ≡ d = omega (arith, bo.rows) in done) bp,
  )
  update_rounds-IsBlock zero i delta (old ∷ old_data) new_data parity e w n bo bn bp =
      absurd (omega (arith, bo.rows))
  update_rounds-IsBlock (suc count) i delta (old ∷ old_data) [] parity e w n bo bn bp =
      absurd (omega arith)
  update_rounds-IsBlock (suc count) i delta (old ∷ old_data) (none ∷ new_data) parity e w n bo bn
        bp =
      let same : (j : ℕ) → j < len → x i j ≡ x' i j = λ j q.
        ap (λ t. x t j) (let z : i ≡ i + 0 = omega arith in z)
        ∙ (sym (bo.value_at 0 j (omega arith) q)
            ∙ (bn.value_at 0 j (omega arith) q
                ∙ ap (λ t. x' t j) (let z : i + 0 ≡ i = omega arith in z))) in
      update_rounds-IsBlock count (suc i) delta old_data new_data parity (omega arith) w
        (omega arith) (next-IsBlock i x bo) (next-IsBlock i x' bn)
        (IsBlock-congr _ _ (λ r j u q. same_after i r j same q) bp)
  update_rounds-IsBlock (suc count) i delta (old ∷ old_data) (some new ∷ new_data) parity e w n bo
        bn bp =
      let old_len : length old ≡ len = bo.width 0 (omega arith) in
      let new_len : length new ≡ len = bn.width 0 (omega arith) in
      let sums = zip_with F.add old new in
      let wide : length sums ≡ len =
        length-zip_with F.add old new (old_len ∙ sym new_len) ∙ old_len in
      let written : write_zip (λ slot value. value) sums delta ≡ sums =
        write_zip-second sums delta (wide ∙ sym w) in
      let difference : (j : ℕ) → j < len → get_or sums j F.zero ≡ F.add (x i j) (x' i j) = λ j q.
        get_or-zip_with F.add old new j F.zero F.zero F.zero (omega arith) (old_len ∙ sym new_len)
        ∙ ap₂ F.add
            (bo.value_at 0 j (omega arith) q
              ∙ ap (λ t. x t j) (let z : i + 0 ≡ i = omega arith in z))
            (bn.value_at 0 j (omega arith) q
              ∙ ap (λ t. x' t j) (let z : i + 0 ≡ i = omega arith in z)) in
      let (parity', run, block) =
        update_parity_with_delta-IsBlock L i len sums wide p d co (parity_after i) rows parity
          (omega arith) bc bp in
      let (result, rest, done) =
        update_rounds-IsBlock count (suc i) sums old_data new_data parity' (omega arith) wide
          (omega arith) (next-IsBlock i x bo) (next-IsBlock i x' bn)
          (IsBlock-congr _ _
            (λ r j u q.
              ap (λ t. F.add (parity_after i r j) (F.mul (co r i) t)) (difference j q)
              ∙ mixed-sum L d i (co r) (λ t. x t j) (λ t. x' t j) (omega arith))
            block) in
      (result, rw (written, run) rest, done)

check_new_lens_ok {ℓ} :
    {A : Type ℓ} (len : ℕ) (old_data : List (List A)) (new_data : List (Option (List A)))
    → length new_data ≡ length old_data
    → ((k : ℕ) → k < length old_data → length (get_or (replaced old_data new_data) k []) ≡ len)
    → check_new_lens len new_data ≡ ok tt
unfolding check_new_lens
check_new_lens_ok len [] [] e h = refl
check_new_lens_ok len [] (new ∷ new_data) e h = absurd (omega arith)
check_new_lens_ok len (old ∷ old_data) [] e h = absurd (omega arith)
check_new_lens_ok len (old ∷ old_data) (none ∷ new_data) e h =
    check_new_lens_ok len old_data new_data (omega arith) (λ k p. h (suc k) (omega arith))
check_new_lens_ok len (old ∷ old_data) (some new ∷ new_data) e h =
    rw ((==_iff (length new) len).1 (h 0 (omega arith)))
      (check_new_lens_ok len old_data new_data (omega arith) (λ k p. h (suc k) (omega arith)))

first_len-IsBlock {ℓ} :
    {A : Type ℓ} ⦃F : Field A⦄ {d len : ℕ} {v : ℕ → ℕ → A} (shards : List (List A))
    → 0 < d
    → IsBlock d len v shards
    → first_len shards ≡ len
first_len-IsBlock [] q b = absurd (omega (arith, b.rows))
first_len-IsBlock (s ∷ shards) q b = b.width 0 q

module _ {ℓ} {A : Type ℓ} ⦃F : Field A⦄ (L : FieldLaws F) {codec : ReedSolomon A} {d p : ℕ}
    (C : IsClassic codec d p) where
  -- For a classic codec that does not take the path for one parity shard: `update` on the old data
  -- shards, a list with a new shard for each changed one, all of one non-zero length, and the parity of
  -- the old data (sums over the data shards of the matrix entries times the shards) succeeds, and
  -- leaves the parity of the new data.
  pub update-IsBlock :
      (len : ℕ) (x x' : ℕ → ℕ → A) (old_data : List (List A)) (new_data : List (Option (List A)))
      (parity : List (List A))
      → fast_one_parity_enabled codec ≡ false
      → 0 < len
      → length new_data ≡ d
      → IsBlock d len x old_data
      → IsBlock d len x' (replaced old_data new_data)
      → IsBlock p len (λ r j. sum d (λ k. F.mul (get codec.matrix (d + r) k) (x k j))) parity
      → Returns
          (update codec old_data new_data parity)
          (IsBlock p len (λ r j. sum d (λ k. F.mul (get codec.matrix (d + r) k) (x' k j))))
  unfolding update
  update-IsBlock len x x' old_data new_data parity slow q n bo bn bp =
      let co = λ (r k : ℕ). get codec.matrix (d + r) k in
      let rows = get_parity_rows codec in
      let (result, run, block) =
        update_rounds-IsBlock L d p len co rows (get_parity_rows-IsBlock C) x x' d 0
          (replicate len F.zero) old_data new_data parity (omega arith)
          (length-replicate len F.zero) n
          (IsBlock-congr _ _ (λ k j u w. ap (λ t. x t j) (let z : k ≡ 0 + k = omega arith in z)) bo)
          (IsBlock-congr _ _ (λ k j u w. ap (λ t. x' t j) (let z : k ≡ 0 + k = omega arith in z))
            bn)
          (IsBlock-congr _ _
            (λ r j u w.
              sum_congr d _ _
                (λ k s. ap (F.mul (co r k)) (sym (rw (le→ltb k 0 (omega arith)) refl))))
            bp) in
      (
        result,
        rw
            (
              not_leopard_gf8 C,
              not_leopard_gf16 C,
              classic_execution C,
              (check_piece_count_iff codec.data_shard_count (length old_data)
                    Errors.too_few_data_shards Errors.too_many_data_shards).1
                  (bo.rows ∙ sym C.data_count),
              (check_piece_count_iff codec.parity_shard_count (length parity)
                    Errors.too_few_parity_shards Errors.too_many_parity_shards).1
                  (bp.rows ∙ sym C.parity_count),
              (==_iff (length new_data) codec.data_shard_count).1 (n ∙ sym C.data_count),
              check_multi_multi_ok len old_data parity q (omega (arith, bo.rows, C.some_data))
                  (omega (arith, bp.rows, C.some_parity))
                  (λ i u. bo.width i (omega (arith, bo.rows)))
                  (λ i u. bp.width i (omega (arith, bp.rows))),
              ne→== (length old_data) 0 (omega (arith, bo.rows, C.some_data)),
              first_len-IsBlock old_data C.some_data bo,
              ne→== len 0 (omega arith),
              check_new_lens_ok len old_data new_data (omega (arith, bo.rows))
                  (λ k u. bn.width k (omega (arith, bo.rows))),
            )
            (checked parity slow ∙ run),
        IsBlock-congr _ _
            (λ r j u w. sum_congr d _ _ (λ k s. ap (F.mul (co r k)) (rw (lt→ltb k d s) refl)))
            block,
      )
    where
      checked :
          (parity : List (List A))
          → fast_one_parity_enabled codec ≡ false
          → update_checked codec len old_data new_data parity
            ≡ update_rounds
                (get_parity_rows codec)
                0
                (replicate len F.zero)
                old_data
                new_data
                parity
      checked [] slow = unfold update_checked in rw slow refl
      checked (output ∷ parity) slow = unfold update_checked in rw slow refl
