-- ===== src/Codec/Coding/Slices.antt =====
-- One step of the coding loops of src/core/encode.rs: what `code_single_slice_range` does to each
-- cell of the outputs, and that it does not panic on shards of one length.
use native.Mathlib.Decide.{dec_lt, dec_le}
use reed_solomon_erasure.Base.{
  ℕ, ◌-◌, ◌<◌, ◌≤◌, ◌≡◌, ◌⊎◌, inl, inr, sym, ◌∙◌, ap, arith, ◌&&◌, some, List, ◌++◌, map, zip_with,
  length, get_or, take, drop, le→leb, leb, ltb, ◌==◌, if◌then◌else◌, ok, Bool-cases, length-append,
  length-take, length-drop, length-map, length-zip_with, get_or-take, get_or-drop,
  get_or-append_left, get_or-append_right, get_or-map, get_or-zip_with,
}
use reed_solomon_erasure.Field.{Field, FieldLaws}
use reed_solomon_erasure.Codec.Coding.{slice, write_slice, code_output}

module _ {ℓ} {A : Type ℓ} where
  pub slice_ok :
      (xs : List A) (start end : ℕ)
      → start ≤ end
      → end ≤ length xs
      → slice xs start end ≡ ok (take (end - start) (drop start xs))
  unfolding slice
  slice_ok xs start end p q = rw (le→leb start end p, le→leb end (length xs) q)

  pub length-slice :
      (xs : List A) (start end : ℕ)
      → start ≤ end
      → end ≤ length xs
      → length (take (end - start) (drop start xs)) ≡ end - start
  length-slice xs start end p q =
      omega (arith, length-take (end - start) (drop start xs), length-drop start xs)

  pub get_or-slice :
      (xs : List A) (start end j : ℕ) (d : A)
      → start ≤ j
      → j < end
      → get_or (take (end - start) (drop start xs)) (j - start) d ≡ get_or xs j d
  get_or-slice xs start end j d p q =
      get_or-take (end - start) (drop start xs) (j - start) d (omega arith)
      ∙ (get_or-drop start xs (j - start) d ∙ ap (λ k. get_or xs k d) (omega arith))

  module _ (xs part : List A) (start end : ℕ) (p : start ≤ end) (q : end ≤ length xs)
      (e : length part ≡ end - start) where
    length_head : length (take start xs) ≡ start
    length_head = omega (arith, length-take start xs)

    pub length-write_slice : length (write_slice xs start end part) ≡ length xs
    unfolding write_slice
    length-write_slice = omega (
      arith,
      length_head,
      length-append (take start xs) (part ++ drop end xs),
      length-append part (drop end xs),
      length-drop end xs,
    )

    pub get_or-write_inside :
        (j : ℕ) (d : A)
        → start ≤ j
        → j < end
        → get_or (write_slice xs start end part) j d ≡ get_or part (j - start) d
    unfolding write_slice
    get_or-write_inside j d u v =
        get_or-append_right (take start xs) (part ++ drop end xs) j d (omega (arith, length_head))
        ∙ (ap (λ k. get_or (part ++ drop end xs) (j - k) d) length_head
            ∙ get_or-append_left part (drop end xs) (j - start) d (omega arith))

    pub get_or-write_outside :
        (j : ℕ) (d : A)
        → (j < start) ⊎ (end ≤ j)
        → get_or (write_slice xs start end part) j d ≡ get_or xs j d
    unfolding write_slice
    get_or-write_outside j d (inl u) =
        get_or-append_left (take start xs) (part ++ drop end xs) j d (omega (arith, length_head))
        ∙ get_or-take start xs j d u
    get_or-write_outside j d (inr u) =
        get_or-append_right (take start xs) (part ++ drop end xs) j d (omega (arith, length_head))
        ∙ (ap (λ k. get_or (part ++ drop end xs) (j - k) d) length_head
            ∙ (get_or-append_right part (drop end xs) (j - start) d (omega arith)
                ∙ (get_or-drop end xs (j - start - length part) d
                    ∙ ap (λ k. get_or xs k d) (omega arith))))

module _ {ℓ} {A : Type ℓ} ⦃F : Field A⦄ where
  -- The value of a cell after input `i` with elements `x` was coded in, over `start .. end`, where
  -- the first input overwrites and the others are added.
  unfoldable pub coded : (ℕ → A) → (ℕ → A) → ℕ → ℕ → ℕ → (ℕ → ℕ → A) → ℕ → ℕ → A
  coded coefficient x i start end v r j =
      if leb start j && ltb j end
      then if i == 0
        then F.mul (coefficient r) (x j)
        else F.add (v r j) (F.mul (coefficient r) (x j))
      else v r j

module _ {ℓ} {A : Type ℓ} ⦃F : Field A⦄ (L : FieldLaws F) (i start end len : ℕ) (x : ℕ → A)
    (input : List A) (p : start ≤ end) (q : end ≤ len) (e : length input ≡ end - start)
    (elems : (j : ℕ) → start ≤ j → j < end → get_or input (j - start) F.zero ≡ x j) where
  -- The slice operation that the index selects.
  combined :
      (c : A) (part : List A)
      → length part ≡ end - start
      → (part' : List A) × ((if i == 0
            then F.mul_slice c input part
            else F.mul_slice_add c input part)
          ≡ some part')
        × (length part' ≡ end - start)
        × ((j : ℕ)
            → start ≤ j
            → j < end
            → get_or part' (j - start) F.zero ≡ (
                if i == 0
                then F.mul c (x j)
                else F.add (get_or part (j - start) F.zero) (F.mul c (x j))))
  combined c part h = elim (Bool-cases (i == 0)) [
    | inl first ↦ rw first (
      map (F.mul c) input,
      L.mul_slice_lem c input part (e ∙ sym h),
      length-map (F.mul c) input ∙ e,
      λ j u v.
          get_or-map (F.mul c) input (j - start) F.zero F.zero (omega arith)
          ∙ ap (F.mul c) (elems j u v),
    )
    | inr later ↦ rw later (
      zip_with (λ o i. F.add o (F.mul c i)) part input,
      L.mul_slice_add_lem c input part (e ∙ sym h),
      length-zip_with (λ o i. F.add o (F.mul c i)) part input (h ∙ sym e) ∙ h,
      λ j u v.
          get_or-zip_with (λ o i. F.add o (F.mul c i)) part input (j - start) F.zero F.zero F.zero
            (omega arith) (h ∙ sym e)
          ∙ ap (λ t. F.add (get_or part (j - start) F.zero) (F.mul c t)) (elems j u v),
    )
  ]

  pub code_output_lem :
      (coefficient : ℕ → A) (v : ℕ → ℕ → A) (r : ℕ) (c : A) (output : List A)
      → c ≡ coefficient r
      → length output ≡ len
      → ((j : ℕ) → j < len → get_or output j F.zero ≡ v r j)
      → (output' : List A) × (code_output c i input start end output ≡ ok output')
        × (length output' ≡ len)
        × ((j : ℕ) → j < len → get_or output' j F.zero ≡ coded coefficient x i start end v r j)
  unfolding code_output coded
  code_output_lem coefficient v r c output same l h =
      let part = take (end - start) (drop start output) in
      let sl = length-slice output start end p (omega arith) in
      let (part', runs, l', cells) = combined c part sl in
      (
        write_slice output start end part',
        rw (slice_ok output start end p (omega arith), runs),
        length-write_slice output part' start end p (omega arith) l' ∙ l,
        λ j inside. elim (dec_le start j) [
          | yes u ↦ elim (dec_lt j end) [
            | yes w ↦
                get_or-write_inside output part' start end p (omega arith) l' j F.zero u w
                ∙ (cells j u w
                    ∙ rw (get_or-slice output start end j F.zero u w, h j inside, same)
                        (ground arith))
            | no w ↦
                get_or-write_outside output part' start end p (omega arith) l' j F.zero
                  (inr (omega arith))
                ∙ (h j inside ∙ ground arith)
          ]
          | no u ↦
              get_or-write_outside output part' start end p (omega arith) l' j F.zero
                (inl (omega arith))
              ∙ (h j inside ∙ ground arith)
        ],
      )
