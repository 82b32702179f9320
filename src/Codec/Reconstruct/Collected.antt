-- ===== src/Codec/Reconstruct/Collected.antt =====
-- The loop over the shards of `reconstruct_internal` in src/core/reconstruct.rs on the shards of a
-- codeword of which some are lost: the buffers, the indices and the shards that it leaves.
use reed_solomon_erasure.Base.{
  ℕ, zero, suc, ◌+◌, ◌<◌, ◌≤◌, ◌≡◌, refl, sym, ◌∙◌, ap, subst, arith, Bool, true, false, ◌&&◌, List,
  [], ◌∷◌, length, get_or, leb, lt→ltb, le→ltb, le→leb, lt→leb, ◌⊎◌, inl, inr, some, none,
  Bool-cases,
}
use native.Mathlib.Decide.{dec_lt}
use reed_solomon_erasure.Codec.Slots.{ReconstructShard}
use reed_solomon_erasure.Codec.Decode.{take_while}
use reed_solomon_erasure.Codec.Reconstruct.{
  Sorted, add_ready, add_skipped, add_fresh, no_more, sort_shards, skip_while,
}
use reed_solomon_erasure.Codec.Reconstruct.Indices.{
  IsRising, IsAmong, IsRising-from, IsAmong-bounds, below, from, below-none, below-IsRising,
  from-all, IsWritable,
}
use reed_solomon_erasure.Codec.Reconstruct.Sorting.{
  IsDamaged, end, kept, lost, HasGaps, cons-HasGaps, lost-HasGaps, done-HasGaps,
}

abbrev pub HaveWidth {ℓ} : {A : Type ℓ} → ℕ → List (List A) → Type 0
HaveWidth len xs = (t : ℕ) → t < length xs → length (get_or xs t []) ≡ len

pub cons-HaveWidth {ℓ} :
    {A : Type ℓ} (len : ℕ) (x : List A) (xs : List (List A))
    → length x ≡ len
    → HaveWidth len xs
    → HaveWidth len (x ∷ xs)
cons-HaveWidth len x xs e w zero p = e
cons-HaveWidth len x xs e w (suc t) p = w t (omega arith)

module _ {ℓ κ} {A : Type ℓ} {S : Type κ} (R : ReconstructShard A S) (len total d : ℕ)
    (data_only : Bool) (content : ℕ → List A) where
  -- The shard of row `r` holds its row of the codeword, or it is to be filled.
  abbrev pub IsHeldOr : List ℕ → ℕ → S → Type ℓ
  IsHeldOr invalid r s =
      ((IsAmong r invalid → ⊥) × (R.get_data s ≡ some (content r)))
      ⊎ (IsAmong r invalid × IsWritable R s)

  -- What the loop leaves from row `row` on, with `taken` shards taken before and `n` present shards
  -- among the `shards`.
  pub record IsCollected (row taken n : ℕ) (shards : List S) (o : Sorted A S) : Type (ℓ ⊔ κ) where
    pub fine : o.failure ≡ none
    pub invalid : IsRising row total o.invalid_indices
    pub valid : IsRising row total o.valid_indices
    pub same_count : length o.sub_shards ≡ length o.valid_indices
    pub contents :
        (t : ℕ)
        → t < length o.valid_indices
        → get_or o.sub_shards t [] ≡ content (get_or o.valid_indices t 0)
    pub enough : d ≤ taken + n → taken + length o.valid_indices ≡ d
    pub gaps : HasGaps content d o.sub_shards row 0 (below d o.invalid_indices)
    pub data_count : length o.missing_data ≡ length (below d o.invalid_indices)
    pub data_width : HaveWidth len o.missing_data
    pub parity_count :
        data_only ≡ false → length o.missing_parity ≡ length (from d o.invalid_indices)
    pub parity_width : HaveWidth len o.missing_parity
    pub slot_count : length o.slots ≡ length shards
    pub status :
        (i r : ℕ) (default : S)
        → i < length shards
        → row + i ≡ r
        → (data_only ≡ true → r < d)
        → IsHeldOr o.invalid_indices r (get_or o.slots i default)

  no_more-IsCollected :
      (row taken : ℕ) → d ≤ row → taken ≤ d → IsCollected row taken 0 [] (no_more [] none)
  unfolding take_while skip_while
  no_more-IsCollected row taken p q = record {
    fine = refl;
    invalid = tt;
    valid = tt;
    same_count = refl;
    contents = λ t u. absurd (omega arith);
    enough = λ h. omega arith;
    gaps = done-HasGaps content d [] row p;
    data_count = refl;
    data_width = λ t u. absurd (omega arith);
    parity_count = λ e. refl;
    parity_width = λ t u. absurd (omega arith);
    slot_count = refl;
    status = λ i r default u. absurd (omega arith);
  }

  later_status :
      (row : ℕ) (s : S) (shards slots : List S) (invalid : List ℕ)
      → ((data_only ≡ true → row < d) → IsHeldOr invalid row s)
      → ((i r : ℕ) (default : S)
          → i < length shards
          → suc row + i ≡ r
          → (data_only ≡ true → r < d)
          → IsHeldOr invalid r (get_or slots i default))
      → (i r : ℕ) (default : S) → i < suc (length shards)
      → row + i ≡ r
      → (data_only ≡ true → r < d)
      → IsHeldOr invalid r (get_or (s ∷ slots) i default)
  later_status row s shards slots invalid now later zero r default p e h =
      let same : row ≡ r = omega arith in
      subst (λ k. IsHeldOr invalid k s) same (now (λ only. omega (arith, h only)))
  later_status row s shards slots invalid now later (suc i) r default p e h =
      later i r default (omega arith) (omega arith) h

  not_before : (row hi : ℕ) (is : List ℕ) → IsRising (suc row) hi is → IsAmong row is → ⊥
  not_before row hi is rising among =
      absurd (omega (arith, IsAmong-bounds (suc row) hi row is rising among))

  -- A present shard that is taken.
  take-IsCollected :
      (row taken n : ℕ) (s : S) (shards : List S) (o : Sorted A S)
      → row < total
      → taken < d
      → R.get_data s ≡ some (content row)
      → IsCollected (suc row) (suc taken) n shards o
      → IsCollected row taken (suc n) (s ∷ shards) (add_ready true row (content row) s o)
  take-IsCollected row taken n s shards o p q held c = record {
    fine = c.fine;
    invalid = IsRising-from row (suc row) total o.invalid_indices (omega arith) c.invalid;
    valid = (omega arith, p, c.valid);
    same_count = ap suc c.same_count;
    contents = contents;
    enough = λ h. omega (arith, c.enough (omega arith));
    gaps =
        cons-HasGaps content d o.sub_shards row d (below d o.invalid_indices)
          (below-IsRising d (suc row) total o.invalid_indices c.invalid) c.gaps;
    data_count = c.data_count;
    data_width = c.data_width;
    parity_count = c.parity_count;
    parity_width = c.parity_width;
    slot_count = ap suc c.slot_count;
    status =
        later_status row s shards o.slots o.invalid_indices
          (λ h. inl (not_before row total o.invalid_indices c.invalid, held)) c.status;
  }
    where
      contents :
          (t : ℕ)
          → t < suc (length o.valid_indices)
          → get_or (content row ∷ o.sub_shards) t [] ≡ content (get_or (row ∷ o.valid_indices) t 0)
      contents zero u = refl
      contents (suc t) u = c.contents t (omega arith)

  -- A present shard that is not needed.
  keep-IsCollected :
      (row taken n : ℕ) (x : List A) (s : S) (shards : List S) (o : Sorted A S)
      → d ≤ row
      → taken ≡ d
      → R.get_data s ≡ some (content row)
      → IsCollected (suc row) taken n shards o
      → IsCollected row taken (suc n) (s ∷ shards) (add_ready false row x s o)
  keep-IsCollected row taken n x s shards o p q held c = record {
    fine = c.fine;
    invalid = IsRising-from row (suc row) total o.invalid_indices (omega arith) c.invalid;
    valid = IsRising-from row (suc row) total o.valid_indices (omega arith) c.valid;
    same_count = c.same_count;
    contents = c.contents;
    enough = λ h. c.enough (omega arith);
    gaps =
        subst (HasGaps content d o.sub_shards row 0)
          (sym (below-none d (suc row) total o.invalid_indices (omega arith) c.invalid))
          (done-HasGaps content d o.sub_shards row p);
    data_count = c.data_count;
    data_width = c.data_width;
    parity_count = c.parity_count;
    parity_width = c.parity_width;
    slot_count = ap suc c.slot_count;
    status =
        later_status row s shards o.slots o.invalid_indices
          (λ h. inl (not_before row total o.invalid_indices c.invalid, held)) c.status;
  }

  among_later :
      (row r : ℕ) (s : S) (is : List ℕ) → suc row ≤ r → IsHeldOr is r s → IsHeldOr (row ∷ is) r s
  among_later row r s is p (inl (out, held)) =
      inl ((λ among. elim among [ inl e ↦ absurd (omega arith) | inr more ↦ out more ]), held)
  among_later row r s is p (inr (among, w)) = inr (inr among, w)

  -- A lost data shard.
  data-IsCollected :
      (row taken n : ℕ) (x : List A) (s s' : S) (shards : List S) (o : Sorted A S)
      → row < d
      → d ≤ total
      → length x ≡ len
      → IsWritable R s'
      → IsCollected (suc row) taken n shards o
      → IsCollected row taken n (s ∷ shards) (add_fresh true row x s' o)
  unfolding take_while skip_while
  data-IsCollected row taken n x s s' shards o p q e w c = record {
    fine = c.fine;
    invalid = (omega arith, omega arith, c.invalid);
    valid = IsRising-from row (suc row) total o.valid_indices (omega arith) c.valid;
    same_count = c.same_count;
    contents = c.contents;
    enough = c.enough;
    gaps =
        rw (lt→ltb row d p)
          (lost-HasGaps content d o.sub_shards row (below d o.invalid_indices) c.gaps);
    data_count = rw (lt→ltb row d p) (ap suc c.data_count);
    data_width = cons-HaveWidth len x o.missing_data e c.data_width;
    parity_count = λ all. rw (lt→ltb row d p) (c.parity_count all);
    parity_width = c.parity_width;
    slot_count = ap suc c.slot_count;
    status =
        later_status row s' shards o.slots (row ∷ o.invalid_indices) (λ h. inr (inl refl, w))
          (λ i r default u v h.
            among_later row r _ o.invalid_indices (omega arith) (c.status i r default u v h));
  }

  -- A lost parity shard that is skipped.
  skip-IsCollected :
      (row taken n : ℕ) (s : S) (shards : List S) (o : Sorted A S)
      → d ≤ row
      → row < total
      → data_only ≡ true
      → IsCollected (suc row) taken n shards o
      → IsCollected row taken n (s ∷ shards) (add_skipped row s o)
  unfolding take_while
  skip-IsCollected row taken n s shards o p q only c = record {
    fine = c.fine;
    invalid = (omega arith, q, c.invalid);
    valid = IsRising-from row (suc row) total o.valid_indices (omega arith) c.valid;
    same_count = c.same_count;
    contents = c.contents;
    enough = c.enough;
    gaps = rw (le→ltb row d p) (done-HasGaps content d o.sub_shards row p);
    data_count = rw (le→ltb row d p) (
        c.data_count
        ∙ ap length (below-none d (suc row) total o.invalid_indices (omega arith) c.invalid));
    data_width = c.data_width;
    parity_count = λ all. absurd (cc);
    parity_width = c.parity_width;
    slot_count = ap suc c.slot_count;
    status =
        later_status row s shards o.slots (row ∷ o.invalid_indices)
          (λ h. absurd (omega (arith, h only)))
          (λ i r default u v h.
            among_later row r _ o.invalid_indices (omega arith) (c.status i r default u v h));
  }

  -- A lost parity shard that is to be filled.
  parity-IsCollected :
      (row taken n : ℕ) (x : List A) (s s' : S) (shards : List S) (o : Sorted A S)
      → d ≤ row
      → row < total
      → length x ≡ len
      → IsWritable R s'
      → IsCollected (suc row) taken n shards o
      → IsCollected row taken n (s ∷ shards) (add_fresh false row x s' o)
  unfolding take_while skip_while
  parity-IsCollected row taken n x s s' shards o p q e w c = record {
    fine = c.fine;
    invalid = (omega arith, q, c.invalid);
    valid = IsRising-from row (suc row) total o.valid_indices (omega arith) c.valid;
    same_count = c.same_count;
    contents = c.contents;
    enough = c.enough;
    gaps = rw (le→ltb row d p) (done-HasGaps content d o.sub_shards row p);
    data_count = rw (le→ltb row d p) (
        c.data_count
        ∙ ap length (below-none d (suc row) total o.invalid_indices (omega arith) c.invalid));
    data_width = c.data_width;
    parity_count = λ all. rw (le→ltb row d p) (
        ap suc (
          c.parity_count all
          ∙ ap length (from-all d (suc row) total o.invalid_indices (omega arith) c.invalid)));
    parity_width = cons-HaveWidth len x o.missing_parity e c.parity_width;
    slot_count = ap suc c.slot_count;
    status =
        later_status row s' shards o.slots (row ∷ o.invalid_indices) (λ h. inr (inl refl, w))
          (λ i r default u v h.
            among_later row r _ o.invalid_indices (omega arith) (c.status i r default u v h));
  }

  -- On the shards from row `row` on of a codeword of which some are lost, with `taken` shards taken
  -- before, no more than rows passed and than d, the loop ends without an error and keeps the number
  -- of shards. The missing and the valid indices rise; the buffers taken are the rows at the valid
  -- indices, and become d with those taken before if enough are present. The data buffers to fill
  -- have the shard length and are as many as the missing data indices; the parity buffers to fill
  -- have the shard length and, without `data_only`, are as many as the missing parity indices. Every
  -- shard, with `data_only` every data shard, holds its row and is not among the missing, or is
  -- writable and among the missing.
  pub sort_shards-IsCollected :
      (row taken n : ℕ) (shards : List S)
      → d ≤ total
      → row + length shards ≡ total
      → taken ≤ row
      → taken ≤ d
      → IsDamaged R len content row n shards
      → IsCollected row taken n shards (sort_shards R d data_only len row taken shards)
  unfolding sort_shards
  sort_shards-IsCollected row taken n [] fits e p q end =
      no_more-IsCollected row taken (omega arith) q
  sort_shards-IsCollected row taken n (s ∷ shards) fits e p q (kept k rest) =
      elim (dec_lt taken d) [
        | yes more ↦
            let c =
              sort_shards-IsCollected (suc row) (suc taken) _ shards fits (omega arith)
                (omega arith) (omega arith) rest in
            let result = take-IsCollected row taken _ s shards _ (omega arith) more k.held c in
            elim (Bool-cases (leb d row && data_only)) [
              | inl late ↦ rw (late, k.held, lt→ltb taken d more, sort_shards) result
              | inr early ↦ rw (early, k.init, lt→ltb taken d more, sort_shards) result
            ]
        | no full ↦
            let c =
              sort_shards-IsCollected (suc row) taken _ shards fits (omega arith) (omega arith) q
                rest in
            let result =
              keep-IsCollected row taken _ (content row) s shards _ (omega arith) (omega arith)
                k.held c in
            elim (Bool-cases (leb d row && data_only)) [
              | inl late ↦ rw (late, k.held, le→ltb taken d (omega arith), sort_shards) result
              | inr early ↦ rw (early, k.init, le→ltb taken d (omega arith), sort_shards) result
            ]
      ]
  sort_shards-IsCollected row taken n (s ∷ shards) fits e p q (lost g rest) =
      let c =
        sort_shards-IsCollected (suc row) taken n shards fits (omega arith) (omega arith) q rest in
      elim (dec_lt row d) [
        | yes early ↦
            rw (lt→leb d row early, g.init, lt→ltb row d early, sort_shards)
              (data-IsCollected row taken n g.buffer s g.begun shards _ early fits g.width
                g.writable c)
        | no late ↦ elim (Bool-cases data_only) [
          | inl only ↦
              let test : (leb d row && data_only) ≡ true =
                rw (le→leb d row (omega arith), only) refl in
              rw (test, g.held, sort_shards)
                (skip-IsCollected row taken n s shards _ (omega arith) (omega arith) only c)
          | inr all ↦
              let test : (leb d row && data_only) ≡ false =
                rw (le→leb d row (omega arith), all) refl in
              rw (test, g.init, le→ltb row d (omega arith), sort_shards)
                (parity-IsCollected row taken n g.buffer s g.begun shards _ (omega arith)
                  (omega arith) g.width g.writable c)
        ]
      ]
