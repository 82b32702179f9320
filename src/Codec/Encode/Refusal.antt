-- ===== src/Codec/Encode/Refusal.antt =====
-- The errors of `encode_sep` in src/core/encode.rs, in the order in which it looks for them.
use reed_solomon_erasure.Base.{
  ℕ, zero, suc, ◌<◌, ◌≡◌, ◌≢◌, refl, arith, false, List, [], ◌∷◌, length, get_or, ◌==◌, ne→==,
  lt→ltb, le→ltb, Bool-cases, ==_iff, err, inl, inr,
}
use reed_solomon_erasure.Errors.{Error, Failure, returned}
use reed_solomon_erasure.Errors
use reed_solomon_erasure.Field.{Field}
use reed_solomon_erasure.Codec.State.{ReedSolomon}
use reed_solomon_erasure.Codec.Checks.{
  check_piece_count, check_piece_count_iff, check_multi, check_multi_multi, all_length,
  check_multi_ok,
}
use reed_solomon_erasure.Codec.Encode.{LeopardCoders, encode_sep}

module _ {ℓ} {A : Type ℓ} where
  -- All shards have the length `len`.
  abbrev pub AreLong : ℕ → List (List A) → Type 0
  AreLong len shards = (i : ℕ) → i < length shards → length (get_or shards i []) ≡ len

  -- `IsFaulty shards e`: the first shard is empty, or some shard differs from it in length.
  pub data IsFaulty (shards : List (List A)) : Error → Type 0 where
    empty_first : length (get_or shards 0 []) ≡ 0 → IsFaulty shards Errors.empty_shard
    uneven :
        (i : ℕ)
        → length (get_or shards 0 []) ≢ 0
        → i < length shards
        → length (get_or shards i []) ≢ length (get_or shards 0 [])
        → IsFaulty shards Errors.incorrect_shard_size

  -- `IsRefused d p inputs parity e`: the first thing wrong with the shards is what `e` says.
  pub data IsRefused (d p : ℕ) (inputs parity : List (List A)) : Error → Type 0 where
    few_data : length inputs < d → IsRefused d p inputs parity Errors.too_few_data_shards
    many_data : d < length inputs → IsRefused d p inputs parity Errors.too_many_data_shards
    few_parity :
        length inputs ≡ d
        → length parity < p
        → IsRefused d p inputs parity Errors.too_few_parity_shards
    many_parity :
        length inputs ≡ d
        → p < length parity
        → IsRefused d p inputs parity Errors.too_many_parity_shards
    faulty_data :
        {e : Error}
        → length inputs ≡ d
        → length parity ≡ p
        → IsFaulty inputs e
        → IsRefused d p inputs parity e
    faulty_parity :
        {e : Error} (len : ℕ)
        → length inputs ≡ d
        → length parity ≡ p
        → 0 < len
        → AreLong len inputs
        → IsFaulty parity e
        → IsRefused d p inputs parity e
    unequal :
        (len other : ℕ)
        → length inputs ≡ d
        → length parity ≡ p
        → 0 < len
        → AreLong len inputs
        → 0 < other
        → AreLong other parity
        → len ≢ other
        → IsRefused d p inputs parity Errors.incorrect_shard_size

  all_length-uneven :
      (len i : ℕ) (shards : List (List A))
      → i < length shards
      → length (get_or shards i []) ≢ len
      → all_length len shards ≡ false
  all_length-uneven len i [] p ne = absurd (omega arith)
  all_length-uneven len zero (s ∷ shards) p ne = rw (ne→== (length s) len ne) refl
  all_length-uneven len (suc i) (s ∷ shards) p ne = elim (Bool-cases (length s == len)) [
    | inl same ↦ rw same (all_length-uneven len i shards (omega arith) ne)
    | inr other ↦ rw other refl
  ]

  check_multi-IsFaulty :
      (shards : List (List A)) (e : Error)
      → 0 < length shards
      → IsFaulty shards e
      → check_multi shards ≡ err (returned e)
  unfolding check_multi
  check_multi-IsFaulty [] e p _ = absurd (omega arith)
  check_multi-IsFaulty (s ∷ shards) _ p (empty_first none_there) =
      rw ((==_iff (length s) 0).1 none_there) refl
  check_multi-IsFaulty (s ∷ shards) _ p (uneven i some_there q ne) =
      rw (ne→== (length s) 0 some_there, all_length-uneven (length s) i (s ∷ shards) q ne) refl

module _ (count pieces : ℕ) (few many : Error) where
  too_few_lem : pieces < count → check_piece_count count pieces few many ≡ err (returned few)
  unfolding check_piece_count
  too_few_lem h = rw (lt→ltb pieces count h) refl

  too_many_lem : count < pieces → check_piece_count count pieces few many ≡ err (returned many)
  unfolding check_piece_count
  too_many_lem h = rw (le→ltb pieces count (omega arith), lt→ltb count pieces h) refl

module _ {ℓ} {A : Type ℓ} ⦃F : Field A⦄ (leopard : LeopardCoders A) (codec : ReedSolomon A)
    (some_data : 0 < codec.data_shard_count) (some_parity : 0 < codec.parity_shard_count) where
  -- For a codec with data and parity shards, `encode_sep` on shards that are refused returns the
  -- error of the first fault in the order: the number of data shards, the number of parity
  -- shards, an empty first data shard, data shards of different lengths, the same for the parity
  -- shards, and data and parity shards of different lengths.
  pub encode_sep-IsRefused :
      (inputs parity : List (List A)) (e : Error)
      → IsRefused codec.data_shard_count codec.parity_shard_count inputs parity e
      → encode_sep leopard codec inputs parity ≡ err (returned e)
  unfolding encode_sep check_multi_multi
  encode_sep-IsRefused inputs parity _ (few_data h) =
      rw (too_few_lem codec.data_shard_count (length inputs) _ _ h) refl
  encode_sep-IsRefused inputs parity _ (many_data h) =
      rw (too_many_lem codec.data_shard_count (length inputs) _ _ h) refl
  encode_sep-IsRefused inputs parity _ (few_parity d h) =
      rw
        (
          (check_piece_count_iff codec.data_shard_count (length inputs) _ _).1 d,
          too_few_lem codec.parity_shard_count (length parity) _ _ h,
        )
        refl
  encode_sep-IsRefused inputs parity _ (many_parity d h) =
      rw
        (
          (check_piece_count_iff codec.data_shard_count (length inputs) _ _).1 d,
          too_many_lem codec.parity_shard_count (length parity) _ _ h,
        )
        refl
  encode_sep-IsRefused inputs parity e (faulty_data d p bad) =
      rw
        (
          (check_piece_count_iff codec.data_shard_count (length inputs) _ _).1 d,
          (check_piece_count_iff codec.parity_shard_count (length parity) _ _).1 p,
          check_multi-IsFaulty inputs e (omega arith) bad,
        )
        refl
  encode_sep-IsRefused inputs parity e (faulty_parity len d p some_len long bad) =
      rw
        (
          (check_piece_count_iff codec.data_shard_count (length inputs) _ _).1 d,
          (check_piece_count_iff codec.parity_shard_count (length parity) _ _).1 p,
          (check_multi_ok len inputs some_len (omega arith) long).0,
          check_multi-IsFaulty parity e (omega arith) bad,
        )
        refl
  encode_sep-IsRefused inputs parity _ (unequal len other d p some_len long some_other same ne) =
      let l = check_multi_ok len inputs some_len (omega arith) long in
      let r = check_multi_ok other parity some_other (omega arith) same in
      rw
        (
          (check_piece_count_iff codec.data_shard_count (length inputs) _ _).1 d,
          (check_piece_count_iff codec.parity_shard_count (length parity) _ _).1 p,
          l.0,
          r.0,
          l.1,
          r.1,
          ne→== len other ne,
        )
        refl
