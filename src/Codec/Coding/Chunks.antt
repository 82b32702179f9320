-- ===== src/Codec/Coding/Chunks.antt =====
-- The loops of `code_some_slices_chunked` in src/core/encode.rs over outputs, inputs and chunks:
-- whatever the chunk length, every cell becomes the sum over the inputs.
use native.Mathlib.Decide.{dec_lt}
use reed_solomon_erasure.Base.{
  ℕ, zero, suc, ◌+◌, ◌-◌, ◌<◌, ◌≤◌, min, ◌≡◌, inl, inr, refl, sym, ◌∙◌, ap, subst, arith, ◌&&◌,
  List, [], ◌∷◌, length, get_or, take, drop, leb, ltb, lt→ltb, le→ltb, ◌==◌, ne→==, if◌then◌else◌,
  Result, ok, Bool-cases, get_elem?-get_or,
}
use reed_solomon_erasure.Field.{Field, FieldLaws}
use reed_solomon_erasure.Field.Sum.{sum}
use reed_solomon_erasure.Codec.Blocks.{IsBlock, IsBlock-congr, IsBlock-tail, IsBlock-cons, cell}
use reed_solomon_erasure.Codec.Coding.{
  code_outputs, code_single_slice_range, code_inputs, code_chunks,
}
use reed_solomon_erasure.Codec.Coding.Slices.{
  coded, code_output_lem, slice_ok, length-slice, get_or-slice,
}

-- A run without error or panic, whose result has the property.
abbrev pub Returns {ℓ κ} : {E : Type 0} {A : Type ℓ} → Result E A → (A → Type κ) → Type (ℓ ⊔ κ)
Returns {A} m P = (a : A) × (m ≡ ok a) × P a

module _ {ℓ} {A : Type ℓ} ⦃F : Field A⦄ (L : FieldLaws F) where
  code_outputs-IsBlock :
      (i start end len : ℕ) (x : ℕ → A) (input : List A)
      → start ≤ end
      → end ≤ len
      → length input ≡ end - start
      → ((j : ℕ) → start ≤ j → j < end → get_or input (j - start) F.zero ≡ x j)
      → (count n : ℕ) (coefficients v : ℕ → ℕ → A) (rows outputs : List (List A)) → i < n
      → IsBlock count n coefficients rows
      → IsBlock count len v outputs
      → Returns
          (code_outputs rows i input start end outputs)
          (IsBlock count len (coded (λ r. coefficients r i) x i start end v))
  unfolding code_outputs
  code_outputs-IsBlock i start end len x input p q e elems zero n co v rows [] less bc bo = (
    [],
    refl,
    record {
      rows = refl;
      width = λ r u. absurd (omega arith);
      value_at = λ r j u w. absurd (omega arith);
    },
  )
  code_outputs-IsBlock i start end len x input p q e elems zero n co v rows (o ∷ outputs) less bc
        bo =
      absurd (omega (arith, bo.rows))
  code_outputs-IsBlock i start end len x input p q e elems (suc count) n co v rows [] less bc bo =
      absurd (omega (arith, bo.rows))
  code_outputs-IsBlock i start end len x input p q e elems (suc count) n co v [] (o ∷ outputs) less
        bc bo =
      absurd (omega (arith, bc.rows))
  code_outputs-IsBlock i start end len x input p q e elems (suc count) n co v (row ∷ rows)
        (o ∷ outputs) less bc bo =
      let w : length row ≡ n = bc.width 0 (omega arith) in
      let (o', run, l, cells) =
        code_output_lem L i start end len x input p q e elems (λ r. co r i) v 0
          (get_or row i F.zero) o (bc.value_at 0 i (omega arith) less) (bo.width 0 (omega arith))
          (λ j inside. bo.value_at 0 j (omega arith) inside) in
      let (rest, runs, block) =
        code_outputs-IsBlock i start end len x input p q e elems count n (λ r. co (suc r))
          (λ r. v (suc r)) rows outputs less (IsBlock-tail bc) (IsBlock-tail bo) in
      (
        o' ∷ rest,
        rw (get_elem?-get_or row i F.zero (omega arith), run, runs),
        IsBlock-cons l cells (IsBlock-congr _ _ (λ r j u w. shift i start end x co v r j) block),
      )
    where
      shift :
          (i start end : ℕ) (x : ℕ → A) (co v : ℕ → ℕ → A) (r j : ℕ)
          → coded (λ r. co (suc r) i) x i start end (λ r. v (suc r)) r j
            ≡ coded (λ r. co r i) x i start end v (suc r) j
      shift i start end x co v r j = unfold coded in refl

  pub code_single_slice_range-IsBlock :
      (i start end len count n : ℕ) (coefficients v : ℕ → ℕ → A) (rows outputs : List (List A))
      (input : List A)
      → start ≤ end
      → end ≤ len
      → length input ≡ len
      → i < n
      → IsBlock count n coefficients rows
      → IsBlock count len v outputs
      → Returns (code_single_slice_range rows i input outputs start end) (
          IsBlock count len
            (coded (λ r. coefficients r i) (λ j. get_or input j F.zero) i start end v))
  unfolding code_single_slice_range
  code_single_slice_range-IsBlock i start end len count n co v rows outputs input p q l less bc bo =
      rw (slice_ok input start end p (omega arith)) (
        code_outputs-IsBlock i start end len (λ j. get_or input j F.zero)
          (take (end - start) (drop start input)) p q (length-slice input start end p (omega arith))
          (λ j u w. get_or-slice input start end j F.zero u w) count n co v rows outputs less bc bo)

  module _ (start end len count n : ℕ) (coefficients v : ℕ → ℕ → A) (rows shards : List (List A))
      (p : start ≤ end) (q : end ≤ len) (bc : IsBlock count n coefficients rows) where
    -- The cells in `start .. end` after the inputs before `i`.
    abbrev partial : ℕ → ℕ → ℕ → A
    partial i r j =
        if leb start j && ltb j end
        then (if i == 0 then v r j else sum i (λ k. F.mul (coefficients r k) (cell shards k j)))
        else v r j

    coded-partial :
        (i r j : ℕ)
        → coded (λ r. coefficients r i) (λ j. cell shards i j) i start end (partial i) r j
          ≡ partial (suc i) r j
    unfolding coded sum
    coded-partial i r j = elim (Bool-cases (leb start j && ltb j end)) [
      | inl inside ↦ rw inside (elim (Bool-cases (i == 0)) [
        | inl first ↦
            let z : i ≡ 0 = ground arith in
            rw z (sym (L.zero-add (F.mul (coefficients r 0) (cell shards 0 j))))
        | inr later ↦ rw (later, ne→== (suc i) 0 (omega arith)) refl
      ])
      | inr outside ↦ rw outside refl
    ]

    code_inputs-IsBlock :
        (i : ℕ) (inputs outputs : List (List A))
        → i + length inputs ≤ n
        → ((k : ℕ) → k < length inputs → length (get_or inputs k []) ≡ len)
        → ((k : ℕ) → k < length inputs → get_or inputs k [] ≡ get_or shards (i + k) [])
        → IsBlock count len (partial i) outputs
        → Returns
            (code_inputs rows i inputs start end outputs)
            (IsBlock count len (partial (i + length inputs)))
    unfolding code_inputs
    code_inputs-IsBlock i [] outputs less lens elems bo =
        (outputs, refl, subst (λ k. IsBlock count len (partial k) outputs) (omega arith) bo)
    code_inputs-IsBlock i (input ∷ inputs) outputs less lens elems bo =
        let same : input ≡ get_or shards i [] =
          elems 0 (omega arith) ∙ ap (λ k. get_or shards k []) (omega arith) in
        let (outputs', run, block) =
          code_single_slice_range-IsBlock i start end len count n coefficients (partial i) rows
            outputs input p q (lens 0 (omega arith)) (omega arith) bc bo in
        let next : IsBlock count len (partial (suc i)) outputs' =
          IsBlock-congr _ _
            (λ r j u w.
              ap
                (λ s.
                  coded (λ r. coefficients r i) (λ j. get_or s j F.zero) i start end (partial i) r
                    j)
                same
              ∙ coded-partial i r j)
            block in
        let (rest, runs, done) =
          code_inputs-IsBlock (suc i) inputs outputs' (omega arith)
            (λ k u. lens (suc k) (omega arith))
            (λ k u. elems (suc k) (omega arith) ∙ ap (λ k. get_or shards k []) (omega arith))
            next in
        (rest, rw run runs, subst (λ k. IsBlock count len (partial k) rest) (omega arith) done)

  module _ (len count n : ℕ) (coefficients v : ℕ → ℕ → A) (rows inputs shards : List (List A))
      (bc : IsBlock count n coefficients rows) (some_input : 0 < n) (all_inputs : length inputs ≡ n)
      (lens : (k : ℕ) → k < n → length (get_or inputs k []) ≡ len)
      (elems : (k : ℕ) → k < n → get_or inputs k [] ≡ get_or shards k []) where
    -- The product of the coefficients with the shards.
    abbrev pub combination : ℕ → ℕ → A
    combination r j = sum n (λ k. F.mul (coefficients r k) (cell shards k j))

    -- The cells before `start` are done.
    abbrev up_to : ℕ → ℕ → ℕ → A
    up_to start r j = if ltb j start then combination r j else v r j

    code_chunk-IsBlock :
        (start end : ℕ) (outputs : List (List A))
        → start ≤ end
        → end ≤ len
        → IsBlock count len (up_to start) outputs
        → Returns (code_inputs rows 0 inputs start end outputs) (IsBlock count len (up_to end))
    code_chunk-IsBlock start end outputs p q bo =
        let (outputs', run, block) =
          code_inputs-IsBlock start end len count n coefficients (up_to start) rows shards p q bc 0
            inputs outputs (omega arith) (λ k u. lens k (omega arith))
            (λ k u. elems k (omega arith) ∙ ap (λ k. get_or shards k []) (omega arith))
            (IsBlock-congr (up_to start) _ (λ r j u w. ground arith) bo) in
        (
          outputs',
          run,
          IsBlock-congr _ (up_to end)
              (λ r j u w.
                ap
                  (λ k.
                    partial start end len count n coefficients (up_to start) rows shards p q bc k r
                      j)
                  (let e : 0 + length inputs ≡ n = omega arith in e)
                ∙ finish start end p r j)
              block,
        )
      where
        finish :
            (start end : ℕ)
            → start ≤ end
            → (r j : ℕ)
            → (if leb start j && ltb j end
                then (if n == 0 then up_to start r j else combination r j)
                else up_to start r j)
              ≡ up_to end r j
        finish start end p r j = ground arith

    pub code_chunks-IsBlock :
        (fuel chunk_len start : ℕ) (outputs : List (List A))
        → 0 < chunk_len
        → start ≤ len
        → len < start + fuel
        → IsBlock count len (up_to start) outputs
        → Returns
            (code_chunks fuel rows inputs len chunk_len start outputs)
            (IsBlock count len combination)
    unfolding code_chunks
    code_chunks-IsBlock zero chunk_len start outputs c p h bo = absurd (omega arith)
    code_chunks-IsBlock (suc fuel) chunk_len start outputs c p h bo = elim (dec_lt start len) [
      | yes more ↦
          let (outputs', run, block) =
            code_chunk-IsBlock start (min (start + chunk_len) len) outputs (omega arith)
              (omega arith) bo in
          rw (lt→ltb start len more, code_chunks, run)
            (code_chunks-IsBlock fuel chunk_len (min (start + chunk_len) len) outputs' c
              (omega arith) (omega arith) block)
      | no done ↦
          rw (le→ltb start len (omega arith), code_chunks)
            (
              outputs,
              refl,
              IsBlock-congr (up_to start) combination
                  (λ r j u w. rw (lt→ltb j start (omega arith)) refl) bo,
            )
    ]
