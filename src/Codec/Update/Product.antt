-- ===== src/Codec/Update/Product.antt =====
-- One round of `update` in src/core/encode.rs, and the sums that it changes.
use reed_solomon_erasure.Base.{
  ℕ, zero, suc, ◌<◌, ◌≡◌, refl, sym, ◌∙◌, ap, ap₂, arith, Option, none, some, List, [], ◌∷◌, length,
  get_or, zip_with, length-zip_with, get_or-zip_with, get_elem?-get_or, ltb, lt→ltb, le→ltb, ◌==◌,
  ==_iff, ==_refl, ne→==, if◌then◌else◌,
}
use native.Mathlib.Decide.{dec_lt, ℕ_discrete}
use reed_solomon_erasure.Field.{Field, FieldLaws, write_zip}
use reed_solomon_erasure.Field.Laws.{add-zero, add-add_self}
use reed_solomon_erasure.Field.Sum.{sum, sum_congr, sum-add, sum_single}
use reed_solomon_erasure.Codec.Blocks.{IsBlock, IsBlock-tail, IsBlock-cons}
use reed_solomon_erasure.Codec.Coding.Chunks.{Returns}
use reed_solomon_erasure.Codec.Update.{update_parity_with_delta}

-- The data shards after the change.
abbrev pub replaced {ℓ} : {A : Type ℓ} → List (List A) → List (Option (List A)) → List (List A)
replaced old_data new_data =
    zip_with (λ old new. elim new [ none ↦ old | some s ↦ s ]) old_data new_data

module _ {ℓ} {A : Type ℓ} where
  pub write_zip-second :
      (input out : List A) → length input ≡ length out → write_zip (λ o i. i) input out ≡ input
  unfolding write_zip
  write_zip-second [] [] e = refl
  write_zip-second [] (o ∷ out) e = absurd (omega arith)
  write_zip-second (i ∷ input) [] e = absurd (omega arith)
  write_zip-second (i ∷ input) (o ∷ out) e = ap (◌∷◌ i) (write_zip-second input out (omega arith))

module _ {ℓ} {A : Type ℓ} ⦃F : Field A⦄ (L : FieldLaws F) where
  -- Every output gets the coefficient times the difference added.
  pub update_parity_with_delta-IsBlock :
      (i len : ℕ) (delta : List A)
      → length delta ≡ len
      → (count n : ℕ) (coefficients v : ℕ → ℕ → A) (rows outputs : List (List A)) → i < n
      → IsBlock count n coefficients rows
      → IsBlock count len v outputs
      → Returns (update_parity_with_delta rows i delta outputs) (
          IsBlock count len
            (λ r j. F.add (v r j) (F.mul (coefficients r i) (get_or delta j F.zero))))
  unfolding update_parity_with_delta
  update_parity_with_delta-IsBlock i len delta e zero n co v rows [] less bc bo = (
    [],
    refl,
    record {
      rows = refl;
      width = λ r u. absurd (omega arith);
      value_at = λ r j u w. absurd (omega arith);
    },
  )
  update_parity_with_delta-IsBlock i len delta e zero n co v rows (o ∷ outputs) less bc bo =
      absurd (omega (arith, bo.rows))
  update_parity_with_delta-IsBlock i len delta e (suc count) n co v rows [] less bc bo =
      absurd (omega (arith, bo.rows))
  update_parity_with_delta-IsBlock i len delta e (suc count) n co v [] (o ∷ outputs) less bc bo =
      absurd (omega (arith, bc.rows))
  update_parity_with_delta-IsBlock i len delta e (suc count) n co v (row ∷ rows) (o ∷ outputs) less
        bc bo =
      let wide : length row ≡ n = bc.width 0 (omega arith) in
      let out_len : length o ≡ len = bo.width 0 (omega arith) in
      let (rest, run, block) =
        update_parity_with_delta-IsBlock i len delta e count n (λ r. co (suc r)) (λ r. v (suc r))
          rows outputs less (IsBlock-tail bc) (IsBlock-tail bo) in
      let scaled : A → A → A = λ o d. F.add o (F.mul (get_or row i F.zero) d) in
      (
        zip_with scaled o delta ∷ rest,
        rw
            (
              get_elem?-get_or row i F.zero (omega arith),
              L.mul_slice_add_lem (get_or row i F.zero) delta o (e ∙ sym out_len),
              run,
            )
            refl,
        IsBlock-cons (length-zip_with scaled o delta (out_len ∙ sym e) ∙ out_len)
            (λ j q.
              get_or-zip_with scaled o delta j F.zero F.zero F.zero (omega arith) (out_len ∙ sym e)
              ∙ ap₂ (λ a c. F.add a (F.mul c (get_or delta j F.zero)))
                  (bo.value_at 0 j (omega arith) q) (bc.value_at 0 i (omega arith) less))
            block,
      )

  -- The data with the first `i` shards changed.
  abbrev pub mixed : (ℕ → A) → (ℕ → A) → ℕ → ℕ → A
  mixed x x' i k = if ltb k i then x' k else x k

  pub mixed-sum :
      (d i : ℕ) (a x x' : ℕ → A)
      → i < d
      → F.add (sum d (λ k. F.mul (a k) (mixed x x' i k))) (F.mul (a i) (F.add (x i) (x' i)))
        ≡ sum d (λ k. F.mul (a k) (mixed x x' (suc i) k))
  mixed-sum d i a x x' p =
      ap (F.add (sum d (λ k. F.mul (a k) (mixed x x' i k)))) (
        sym (
          sum_single L d i (λ k. if k == i then F.mul (a i) (F.add (x i) (x' i)) else F.zero) p
            (λ k q ne. rw (ne→== k i ne) refl)
          ∙ rw (==_refl i) refl))
      ∙ (sym (sum-add L d _ _) ∙ sum_congr d _ _ (λ k q. term k))
    where
      term :
          (k : ℕ)
          → F.add
              (F.mul (a k) (mixed x x' i k))
              (if k == i then F.mul (a i) (F.add (x i) (x' i)) else F.zero)
            ≡ F.mul (a k) (mixed x x' (suc i) k)
      term k = elim (ℕ_discrete k i) [
        | yes now ↦
            rw (le→ltb k i (omega arith), (==_iff k i).1 now, lt→ltb k (suc i) (omega arith))
              (ap (λ t. F.add (F.mul (a k) (x k)) (F.mul (a t) (F.add (x t) (x' t)))) (sym now)
                ∙ (sym (L.mul-add (a k) (x k) (F.add (x k) (x' k)))
                    ∙ ap (F.mul (a k)) (add-add_self L (x k) (x' k))))
        | no other ↦ elim (dec_lt k i) [
          | yes before ↦
              rw (lt→ltb k i before, ne→== k i other, lt→ltb k (suc i) (omega arith))
                (add-zero L (F.mul (a k) (x' k)))
          | no after ↦
              rw (le→ltb k i (omega arith), ne→== k i other, le→ltb k (suc i) (omega arith))
                (add-zero L (F.mul (a k) (x k)))
        ]
      ]
