-- ===== src/Codec/Reconstruct/Written.antt =====
-- The shards after the writes of `reconstruct_internal` in src/core/reconstruct.rs.
use reed_solomon_erasure.Base.{
  ℕ, zero, suc, ◌+◌, ◌<◌, ◌≤◌, ◌≡◌, sym, ◌∙◌, ap, subst, arith, Bool, true, false, List, [], ◌∷◌,
  length, get_or, some, inl, inr,
}
use native.Mathlib.Decide.{dec_lt}
use reed_solomon_erasure.Codec.Slots.{ReconstructShard}
use reed_solomon_erasure.Codec.Reconstruct.{Sorted, write_back}
use reed_solomon_erasure.Codec.Reconstruct.Indices.{
  IsAmong-bounds, IsAmong-below, IsAmong-from, below-IsAmong, from-IsAmong, below, from,
  below-IsRising, from-IsRising, write_back-other, write_back-among, length-write_back, IsWritable,
}
use reed_solomon_erasure.Codec.Reconstruct.Sorting.{IsDamaged, end, kept, lost}
use reed_solomon_erasure.Codec.Reconstruct.Collected.{IsCollected}

module _ {ℓ κ} {A : Type ℓ} {S : Type κ} (R : ReconstructShard A S) where
  -- Every shard holds its row of the codeword; with `data_only` every data shard does.
  abbrev pub IsRestored : ℕ → ℕ → Bool → List (List A) → List S → Type (ℓ ⊔ κ)
  IsRestored d total data_only content slots =
      (r : ℕ) (default : S)
      → r < total
      → (data_only ≡ true → r < d)
      → R.get_data (get_or slots r default) ≡ some (get_or content r [])

  module _ (len : ℕ) (content : ℕ → List A) where
    pub present_bound :
        {row n : ℕ} (shards : List S) → IsDamaged R len content row n shards → n ≤ length shards
    present_bound [] end = omega arith
    present_bound (s ∷ shards) (kept a rest) = omega (arith, present_bound shards rest)
    present_bound (s ∷ shards) (lost g rest) = omega (arith, present_bound shards rest)

    pub all_present :
        {row n : ℕ} (shards : List S) (i r : ℕ) (default : S)
        → IsDamaged R len content row n shards
        → n ≡ length shards
        → i < length shards
        → row + i ≡ r
        → R.get_data (get_or shards i default) ≡ some (content r)
    all_present [] i r default end e p q = absurd (omega arith)
    all_present {row} (s ∷ shards) zero r default (kept a rest) e p q =
        a.held ∙ ap (λ k. some (content k)) (let same : row ≡ r = omega arith in same)
    all_present (s ∷ shards) (suc i) r default (kept a rest) e p q =
        all_present shards i r default rest (omega arith) (omega arith) (omega arith)
    all_present (s ∷ shards) i r default (lost g rest) e p q =
        absurd (omega (arith, present_bound shards rest))

  module _ (len d total : ℕ) (data_only : Bool) (content : List (List A)) (n : ℕ) (shards : List S)
      (o : Sorted A S)
      (c : IsCollected R len total d data_only (λ r. get_or content r []) 0 0 n shards o)
      (all : length shards ≡ total) (data' : List (List A))
      (count : length data' ≡ length (below d o.invalid_indices))
      (same : (t : ℕ)
        → t < length (below d o.invalid_indices)
        → get_or data' t [] ≡ get_or content (get_or (below d o.invalid_indices) t 0) []) where
    -- A data shard after the data shards are written.
    pub data_written :
        d ≤ total
        → (r : ℕ) (default : S) → r < d
        → R.get_data (get_or (write_back R (below d o.invalid_indices) data' o.slots) r default)
          ≡ some (get_or content r [])
    data_written fits r default p =
        elim (c.status r r default (omega arith) (omega arith) (λ _. p)) [
          | inl (out, held) ↦
              ap R.get_data (
                write_back-other R (below d o.invalid_indices) data' o.slots r default
                  (λ among. out (below-IsAmong d r o.invalid_indices among)))
              ∙ held
          | inr (among, w) ↦
              write_back-among R 0 d (below d o.invalid_indices) data' o.slots
                (λ k. get_or content k []) r default
                (below-IsRising d 0 total o.invalid_indices c.invalid) (omega (arith, c.slot_count))
                count same (IsAmong-below d 0 total r o.invalid_indices c.invalid p among) w
        ]

    module _ (parity' : List (List A))
        (parity_count : length parity' ≡ length (from d o.invalid_indices))
        (parity_same : (t : ℕ)
          → t < length (from d o.invalid_indices)
          → get_or parity' t [] ≡ get_or content (get_or (from d o.invalid_indices) t 0) [])
        (every : data_only ≡ false) where
      -- All shards after the parity shards are written, too.
      pub parity_written :
          d ≤ total
          → (r : ℕ) (default : S) → r < total
          → R.get_data (
              get_or
                (write_back R
                  (from d o.invalid_indices)
                  parity'
                  (write_back R (below d o.invalid_indices) data' o.slots))
                r
                default)
            ≡ some (get_or content r [])
      parity_written fits r default p =
          let slots = write_back R (below d o.invalid_indices) data' o.slots in
          let rising = from-IsRising d 0 total o.invalid_indices c.invalid in
          elim (dec_lt r d) [
            | yes early ↦
                ap R.get_data (
                  write_back-other R (from d o.invalid_indices) parity' slots r default (λ among.
                    absurd (
                      omega
                        (arith, IsAmong-bounds d total r (from d o.invalid_indices) rising among))))
                ∙ data_written fits r default early
            | no late ↦
                let unwritten : get_or slots r default ≡ get_or o.slots r default =
                  write_back-other R (below d o.invalid_indices) data' o.slots r default (λ among.
                    absurd (
                      omega (
                        arith,
                        IsAmong-bounds 0 d r (below d o.invalid_indices)
                            (below-IsRising d 0 total o.invalid_indices c.invalid) among,
                      ))) in
                elim (c.status r r default (omega arith) (omega arith) (λ only. absurd (cc))) [
                  | inl (out, held) ↦
                      ap R.get_data (
                        write_back-other R (from d o.invalid_indices) parity' slots r default
                          (λ among. out (from-IsAmong d r o.invalid_indices among))
                        ∙ unwritten)
                      ∙ held
                  | inr (among, w) ↦
                      write_back-among R d total (from d o.invalid_indices) parity' slots
                        (λ k. get_or content k []) r default rising
                        (omega (
                          arith,
                          c.slot_count,
                          length-write_back R (below d o.invalid_indices) data' o.slots,
                        ))
                        parity_count parity_same
                        (IsAmong-from d 0 total r o.invalid_indices c.invalid (omega arith) among)
                        (subst (IsWritable R) (sym unwritten) w)
                ]
          ]
