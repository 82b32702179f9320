-- ===== src/Codec/Reconstruct/Some/Chosen.antt =====
-- The choice of the indices in `reconstruct_some` of src/core/reconstruct.rs on the shards of a codeword
-- of which some are lost.
use reed_solomon_erasure.Base.{
  ℕ, zero, suc, ◌+◌, ◌<◌, ◌≤◌, ◌≡◌, refl, sym, ◌∙◌, subst, arith, Bool, true, false, ◌&&◌, List, [],
  ◌∷◌, map, length, get_or, ltb, lt→ltb, le→ltb, ◌⊎◌, inl, inr, some, Bool-cases,
}
use native.Mathlib.Decide.{dec_lt}
use reed_solomon_erasure.Codec.Slots.{ReconstructShard}
use reed_solomon_erasure.Codec.Reconstruct.Indices.{
  IsRising, IsAmong, IsRising-from, IsAmong-bounds,
}
use reed_solomon_erasure.Codec.Reconstruct.Sorting.{IsLost, IsDamaged, end, kept, lost}
use reed_solomon_erasure.Codec.Reconstruct.Some.{Choice, add_valid, add_missing, choose, is_none}

module _ {ℓ κ} {A : Type ℓ} {S : Type κ} (R : ReconstructShard A S) where
  abbrev pub lost_flags : List S → List Bool
  lost_flags shards = map (λ s. is_none (R.get_data s)) shards

module _ {ℓ κ} {A : Type ℓ} {S : Type κ} (R : ReconstructShard A S) (len total d : ℕ)
    (content : ℕ → List A) where
  -- What the loop chooses from row `row` on, with `taken` shards taken before and `n` present shards
  -- among the `shards`.
  pub record IsChosen (row taken n : ℕ) (shards : List S) (required : List Bool) (c : Choice)
      : Type (ℓ ⊔ κ) where
    pub valid : IsRising row total c.valid_indices
    pub enough : d ≤ taken + n → taken + length c.valid_indices ≡ d
    pub present :
        (i r : ℕ) (default : S)
        → i < length shards
        → row + i ≡ r
        → IsAmong r c.valid_indices
        → R.get_data (get_or shards i default) ≡ some (content r)
    pub wanted : IsRising row d c.required_missing
    pub absent :
        (i r : ℕ) (default : S)
        → i < length shards
        → row + i ≡ r
        → IsAmong r c.required_missing
        → IsLost R len (get_or shards i default)
    pub asked :
        (i r : ℕ) (default : S)
        → i < length shards
        → row + i ≡ r
        → IsAmong r c.required_missing
        → get_or required i false ≡ true
    pub complete :
        (i r : ℕ) (default : S)
        → i < length shards
        → row + i ≡ r
        → get_or required i false ≡ true
        → r < d
        → (R.get_data (get_or shards i default) ≡ some (content r)) ⊎ IsAmong r c.required_missing

  not_first : (row hi : ℕ) (is : List ℕ) → IsRising (suc row) hi is → IsAmong row is → ⊥
  not_first row hi is rising among =
      absurd (omega (arith, IsAmong-bounds (suc row) hi row is rising among))

  not_later : (row r : ℕ) (is : List ℕ) → suc row ≤ r → (row ≡ r) ⊎ IsAmong r is → IsAmong r is
  not_later row r is p (inl same) = absurd (omega arith)
  not_later row r is p (inr among) = among

  -- A property of the first shard and of those that follow.
  by_row {μ} :
      (P : ℕ → ℕ → S → Type μ) (row : ℕ) (s : S) (shards : List S)
      → P 0 row s
      → ((i r : ℕ) (default : S)
          → i < length shards
          → suc row + i ≡ r
          → P (suc i) r (get_or shards i default))
      → (i r : ℕ) (default : S) → i < suc (length shards)
      → row + i ≡ r
      → P i r (get_or (s ∷ shards) i default)
  by_row P row s shards now later zero r default p e =
      subst (λ k. P 0 k s) (let same : row ≡ r = omega arith in same) now
  by_row P row s shards now later (suc i) r default p e =
      later i r default (omega arith) (omega arith)

  module _ (row taken n : ℕ) (s : S) (shards : List S) (w : Bool) (required : List Bool)
      (c : Choice) where
    complete_held :
        R.get_data s ≡ some (content row)
        → IsChosen (suc row) taken n shards required c
        → (i r : ℕ) (default : S) → i < suc (length shards)
        → row + i ≡ r
        → get_or (w ∷ required) i false ≡ true
        → r < d
        → (R.get_data (get_or (s ∷ shards) i default) ≡ some (content r))
          ⊎ IsAmong r c.required_missing
    complete_held held o =
        by_row
          (λ i r t.
            get_or (w ∷ required) i false ≡ true
            → r < d
            → (R.get_data t ≡ some (content r)) ⊎ IsAmong r c.required_missing)
          row s shards (λ wants early. inl held) (λ i r default p e. o.complete i r default p e)

    absent_later :
        IsChosen (suc row) taken n shards required c
        → (i r : ℕ) (default : S) → i < suc (length shards)
        → row + i ≡ r
        → IsAmong r c.required_missing
        → IsLost R len (get_or (s ∷ shards) i default)
    absent_later o =
        by_row (λ i r t. IsAmong r c.required_missing → IsLost R len t) row s shards
          (λ among. absurd (not_first row d c.required_missing o.wanted among))
          (λ i r default p e. o.absent i r default p e)

    asked_later :
        IsChosen (suc row) taken n shards required c
        → (i r : ℕ) (default : S) → i < suc (length shards)
        → row + i ≡ r
        → IsAmong r c.required_missing
        → get_or (w ∷ required) i false ≡ true
    asked_later o =
        by_row (λ i r t. IsAmong r c.required_missing → get_or (w ∷ required) i false ≡ true) row s
          shards (λ among. absurd (not_first row d c.required_missing o.wanted among))
          (λ i r default p e. o.asked i r default p e)

    present_later :
        IsChosen (suc row) taken n shards required c
        → (i r : ℕ) (default : S) → i < suc (length shards)
        → row + i ≡ r
        → IsAmong r c.valid_indices
        → R.get_data (get_or (s ∷ shards) i default) ≡ some (content r)
    present_later o =
        by_row (λ i r t. IsAmong r c.valid_indices → R.get_data t ≡ some (content r)) row s shards
          (λ among. absurd (not_first row total c.valid_indices o.valid among))
          (λ i r default p e. o.present i r default p e)

  module _ (row taken n : ℕ) (s : S) (shards : List S) (w : Bool) (required : List Bool)
      (c : Choice) where
    -- A present shard, taken or not.
    valid-IsChosen :
        row < total
        → taken < d
        → R.get_data s ≡ some (content row)
        → IsChosen (suc row) (suc taken) n shards required c
        → IsChosen row taken (suc n) (s ∷ shards) (w ∷ required) (add_valid row c)
    valid-IsChosen p q held o = record {
      valid = (omega arith, p, o.valid);
      enough = λ h. omega (arith, o.enough (omega arith));
      present =
          by_row (λ i r t. IsAmong r (row ∷ c.valid_indices) → R.get_data t ≡ some (content r)) row
            s shards (λ among. held)
            (λ i r default u e among.
              o.present i r default u e (not_later row r c.valid_indices (omega arith) among));
      wanted = IsRising-from row (suc row) d c.required_missing (omega arith) o.wanted;
      absent = absent_later row (suc taken) n s shards w required c o;
      asked = asked_later row (suc taken) n s shards w required c o;
      complete = complete_held row (suc taken) n s shards w required c held o;
    }

    spare-IsChosen :
        taken ≡ d
        → R.get_data s ≡ some (content row)
        → IsChosen (suc row) taken n shards required c
        → IsChosen row taken (suc n) (s ∷ shards) (w ∷ required) c
    spare-IsChosen full held o = record {
      valid = IsRising-from row (suc row) total c.valid_indices (omega arith) o.valid;
      enough = λ h. o.enough (omega arith);
      present = present_later row taken n s shards w required c o;
      wanted = IsRising-from row (suc row) d c.required_missing (omega arith) o.wanted;
      absent = absent_later row taken n s shards w required c o;
      asked = asked_later row taken n s shards w required c o;
      complete = complete_held row taken n s shards w required c held o;
    }

    -- A lost shard that is required, and is a data shard, and one that is not.
    wanted-IsChosen :
        row < d
        → w ≡ true
        → IsLost R len s
        → IsChosen (suc row) taken n shards required c
        → IsChosen row taken n (s ∷ shards) (w ∷ required) (add_missing true row c)
    wanted-IsChosen p asks gone o = record {
      valid = IsRising-from row (suc row) total c.valid_indices (omega arith) o.valid;
      enough = o.enough;
      present = present_later row taken n s shards w required c o;
      wanted = (omega arith, p, o.wanted);
      absent =
          by_row (λ i r t. IsAmong r (row ∷ c.required_missing) → IsLost R len t) row s shards
            (λ among. gone)
            (λ i r default u e among.
              o.absent i r default u e (not_later row r c.required_missing (omega arith) among));
      asked =
          by_row
            (λ i r t. IsAmong r (row ∷ c.required_missing) → get_or (w ∷ required) i false ≡ true)
            row s shards (λ among. asks)
            (λ i r default u e among.
              o.asked i r default u e (not_later row r c.required_missing (omega arith) among));
      complete =
          by_row
            (λ i r t.
              get_or (w ∷ required) i false ≡ true
              → r < d
              → (R.get_data t ≡ some (content r)) ⊎ IsAmong r (row ∷ c.required_missing))
            row s shards (λ wants early. inr (inl refl))
            (λ i r default u e wants early. elim (o.complete i r default u e wants early) [
              | inl held ↦ inl held
              | inr among ↦ inr (inr among)
            ]);
    }

    unwanted-IsChosen :
        (ltb row d && w) ≡ false
        → IsChosen (suc row) taken n shards required c
        → IsChosen row taken n (s ∷ shards) (w ∷ required) (add_missing false row c)
    unwanted-IsChosen out o = record {
      valid = IsRising-from row (suc row) total c.valid_indices (omega arith) o.valid;
      enough = o.enough;
      present = present_later row taken n s shards w required c o;
      wanted = IsRising-from row (suc row) d c.required_missing (omega arith) o.wanted;
      absent = absent_later row taken n s shards w required c o;
      asked = asked_later row taken n s shards w required c o;
      complete =
          by_row
            (λ i r t.
              get_or (w ∷ required) i false ≡ true
              → r < d
              → (R.get_data t ≡ some (content r)) ⊎ IsAmong r c.required_missing)
            row s shards
            (λ wants early.
              absurd (let clash : (ltb row d && w) ≡ true = rw (lt→ltb row d early) wants in cc))
            (λ i r default u e wants early. o.complete i r default u e wants early);
    }

  -- The loop on the shards of a codeword of which some are lost.
  pub choose-IsChosen :
      (row taken n : ℕ) (shards : List S) (required : List Bool)
      → row + length shards ≡ total
      → length required ≡ length shards
      → taken ≤ d
      → IsDamaged R len content row n shards
      → IsChosen row taken n shards required (choose d row taken (lost_flags R shards) required)
  unfolding choose
  choose-IsChosen row taken n [] required e w p end = record {
    valid = tt;
    enough = λ h. omega arith;
    present = λ i r default u. absurd (omega arith);
    wanted = tt;
    absent = λ i r default u. absurd (omega arith);
    asked = λ i r default u. absurd (omega arith);
    complete = λ i r default u. absurd (omega arith);
  }
  choose-IsChosen row taken n (s ∷ shards) [] e w p damaged = absurd (omega arith)
  choose-IsChosen row taken n (s ∷ shards) (r ∷ required) e w p (kept a rest) =
      elim (dec_lt taken d) [
        | yes more ↦
            rw (a.held, lt→ltb taken d more, choose)
              (valid-IsChosen row taken _ s shards r required _ (omega arith) more a.held (
                choose-IsChosen (suc row) (suc taken) _ shards required (omega arith) (omega arith)
                  (omega arith) rest))
        | no full ↦
            rw (a.held, le→ltb taken d (omega arith), choose)
              (spare-IsChosen row taken _ s shards r required _ (omega arith) a.held (
                choose-IsChosen (suc row) taken _ shards required (omega arith) (omega arith) p
                  rest))
      ]
  choose-IsChosen row taken n (s ∷ shards) (r ∷ required) e w p (lost g rest) =
      let o =
        choose-IsChosen (suc row) taken n shards required (omega arith) (omega arith) p rest in
      elim (Bool-cases (ltb row d && r)) [
        | inl wants ↦
            rw (g.held, wants, choose)
              (wanted-IsChosen row taken n s shards r required _ (early r wants).0 (early r wants).1
                g o)
        | inr skipped ↦
            rw (g.held, skipped, choose)
              (unwanted-IsChosen row taken n s shards r required _ skipped o)
      ]
    where
      early : (r : Bool) → (ltb row d && r) ≡ true → (row < d) × (r ≡ true)
      early r wants = elim (dec_lt row d) [
        | yes before ↦ (before, sym (rw (lt→ltb row d before) refl) ∙ wants)
        | no after ↦
            let off : (ltb row d && r) ≡ false = rw (le→ltb row d (omega arith)) refl in absurd (cc)
      ]
