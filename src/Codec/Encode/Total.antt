-- ===== src/Codec/Encode/Total.antt =====
-- `encode_sep` of src/core/encode.rs on any shards: an error or the parity, never a panic.
use native.Mathlib.Decide.{dec_lt}
use native.Mathlib.Decide.{ℕ_discrete}
use reed_solomon_erasure.Base.{
  ℕ, zero, suc, ◌+◌, ◌<◌, ◌≡◌, ◌≢◌, refl, sym, ◌∙◌, arith, false, List, [], ◌∷◌, length, get_or,
  ◌⊎◌, inl, inr, err,
}
use reed_solomon_erasure.Errors.{Error, returned}
use reed_solomon_erasure.Errors
use reed_solomon_erasure.Field.{Field, FieldLaws}
use reed_solomon_erasure.Field.Sum.{sum}
use reed_solomon_erasure.Matrix.{get}
use reed_solomon_erasure.Codec.Blocks.{IsBlock, cell}
use reed_solomon_erasure.Codec.State.{ReedSolomon, fast_one_parity_enabled}
use reed_solomon_erasure.Codec.Coding.Chunks.{Returns}
use reed_solomon_erasure.Codec.Encode.{LeopardCoders, encode_sep}
use reed_solomon_erasure.Codec.Encode.Product.{IsClassic, encode_sep-IsBlock}
use reed_solomon_erasure.Codec.Encode.Refusal.{
  AreLong, IsFaulty, empty_first, uneven, IsRefused, few_data, many_data, few_parity, many_parity,
  faulty_data, faulty_parity, unequal, encode_sep-IsRefused,
}

module _ {ℓ} {A : Type ℓ} where
  uneven_or_long :
      (len : ℕ) (shards : List (List A))
      → ((i : ℕ) × (i < length shards) × (length (get_or shards i []) ≢ len)) ⊎ AreLong len shards
  uneven_or_long len [] = inr (λ i p. absurd (omega arith))
  uneven_or_long len (s ∷ shards) = elim (ℕ_discrete (length s) len) [
    | no ne ↦ inl (0, omega arith, ne)
    | yes e ↦ elim (uneven_or_long len shards) [
      | inl (i, p, ne) ↦ inl (suc i, omega arith, ne)
      | inr long ↦ inr (AreLong-cons e long)
    ]
  ]
    where
      AreLong-cons : length s ≡ len → AreLong len shards → AreLong len (s ∷ shards)
      AreLong-cons e long zero p = e
      AreLong-cons e long (suc i) p = long i (omega arith)

  fault_or_length :
      (shards : List (List A))
      → ((e : Error) × IsFaulty shards e) ⊎ ((len : ℕ) × (0 < len) × AreLong len shards)
  fault_or_length shards = elim (ℕ_discrete (length (get_or shards 0 [])) 0) [
    | yes none_there ↦ inl (Errors.empty_shard, empty_first none_there)
    | no some_there ↦ elim (uneven_or_long (length (get_or shards 0 [])) shards) [
      | inl (i, p, ne) ↦ inl (Errors.incorrect_shard_size, uneven i some_there p ne)
      | inr long ↦ inr (length (get_or shards 0 []), omega arith, long)
    ]
  ]

  -- Shards that no fault is found with.
  abbrev pub AreFit : ℕ → ℕ → List (List A) → List (List A) → Type 0
  AreFit d p inputs parity =
      (length inputs ≡ d)
      × (length parity ≡ p)
      × ((len : ℕ) × (0 < len) × AreLong len inputs × AreLong len parity)

  widths :
      (d p : ℕ) (inputs parity : List (List A))
      → length inputs ≡ d
      → length parity ≡ p
      → ((e : Error) × IsRefused d p inputs parity e) ⊎ AreFit d p inputs parity
  widths d p inputs parity hd hp = elim (fault_or_length inputs) [
    | inl (e, bad) ↦ inl (e, faulty_data hd hp bad)
    | inr (len, some_len, long) ↦ elim (fault_or_length parity) [
      | inl (e, bad) ↦ inl (e, faulty_parity len hd hp some_len long bad)
      | inr (other, some_other, same) ↦ elim (ℕ_discrete len other) [
        | no ne ↦
            inl (
              Errors.incorrect_shard_size,
              unequal len other hd hp some_len long some_other same ne,
            )
        | yes e ↦ inr (hd, hp, (len, some_len, long, λ i q. same i q ∙ sym e))
      ]
    ]
  ]

  refusal_or_pass :
      (d p : ℕ) (inputs parity : List (List A))
      → ((e : Error) × IsRefused d p inputs parity e) ⊎ AreFit d p inputs parity
  refusal_or_pass d p inputs parity = elim (dec_lt (length inputs) d) [
    | yes few ↦ inl (Errors.too_few_data_shards, few_data few)
    | no a ↦ elim (dec_lt d (length inputs)) [
      | yes many ↦ inl (Errors.too_many_data_shards, many_data many)
      | no b ↦ elim (dec_lt (length parity) p) [
        | yes few ↦ inl (Errors.too_few_parity_shards, few_parity (omega arith) few)
        | no c ↦ elim (dec_lt p (length parity)) [
          | yes many ↦ inl (Errors.too_many_parity_shards, many_parity (omega arith) many)
          | no d ↦ widths _ _ inputs parity (omega arith) (omega arith)
        ]
      ]
    ]
  ]

module _ {ℓ} {A : Type ℓ} ⦃F : Field A⦄ (L : FieldLaws F) (leopard : LeopardCoders A)
    {codec : ReedSolomon A} {d p : ℕ} (C : IsClassic codec d p) where
  AreLong-IsBlock :
      (count len : ℕ) (shards : List (List A))
      → length shards ≡ count
      → AreLong len shards
      → IsBlock count len (cell shards) shards
  AreLong-IsBlock count len shards e long = record {
    rows = e;
    width = λ r q. long r (omega arith);
    value_at = λ r j q u. refl;
  }

  -- For a classic codec off the path for one parity shard, `encode_sep` on any shards at all does
  -- not panic. Either they are refused, and the result is the error of the first fault; or the
  -- counts are the codec's, all shards have one non-zero length, and the result is the parity:
  -- the sums of the matrix entries times the data cells.
  pub encode_sep_total :
      (inputs parity : List (List A))
      → fast_one_parity_enabled codec ≡ false
      → ((e : Error) × IsRefused d p inputs parity e
          × (encode_sep leopard codec inputs parity ≡ err (returned e)))
        ⊎ ((len : ℕ) × (0 < len)
            × IsBlock d len (cell inputs) inputs
            × IsBlock p len (cell parity) parity
            × Returns (encode_sep leopard codec inputs parity) (
                IsBlock p len
                  (λ r j. sum d (λ k. F.mul (get codec.matrix (d + r) k) (cell inputs k j)))))
  encode_sep_total inputs parity slow = elim (refusal_or_pass d p inputs parity) [
    | inl (e, bad) ↦ inl (
      e,
      bad,
      encode_sep-IsRefused leopard codec (omega (arith, C.data_count, C.some_data))
          (omega (arith, C.parity_count, C.some_parity)) inputs parity e
          (rw (C.data_count, C.parity_count) bad),
    )
    | inr (hd, hp, (len, some_len, long, same)) ↦
        let x = AreLong-IsBlock d len inputs hd long in
        let y = AreLong-IsBlock p len parity hp same in
        inr (
          len,
          some_len,
          x,
          y,
          encode_sep-IsBlock L leopard C len (cell inputs) (cell parity) inputs parity slow some_len
              x y,
        )
  ]
