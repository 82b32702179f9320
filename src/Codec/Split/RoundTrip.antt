-- ===== src/Codec/Split/RoundTrip.antt =====
-- `join` of src/core/codec.rs undoes `split`.
use reed_solomon_erasure.Base.{
  ℕ, suc, ◌+◌, ◌-◌, ◌*◌, ◌<◌, ◌≤◌, min, ◌≡◌, refl, sym, ◌∙◌, ap, subst, arith, List, [], ◌∷◌, ◌++◌,
  length, get_or, get_or_ext, take, drop, replicate, length-append, length-take, length-drop,
  length-replicate, get_or-take, get_or-drop, get_or-append_left, get_or-append_right,
  get_or-replicate, take-append, lt→ltb, le→ltb, ne→==, ok, ◌>>=◌, try_range, try_range_total,
}
use native.Mathlib.Decide.{dec_lt, ℕ_discrete}
use reed_solomon_erasure.Errors.{Failure, returned}
use reed_solomon_erasure.Errors
use reed_solomon_erasure.Field.{Field}
use reed_solomon_erasure.Codec.State.{ReedSolomon}
use reed_solomon_erasure.Codec.Family.{div_ceil}
use reed_solomon_erasure.Codec.Family.Aligned.{le-div_ceil}
use reed_solomon_erasure.Codec.Checks.{check_piece_count_iff, check_multi_ok}
use reed_solomon_erasure.Codec.Coding.{write_slice}
use reed_solomon_erasure.Codec.Coding.Slices.{slice_ok, length-slice}
use reed_solomon_erasure.Codec.Coding.Chunks.{Returns}
use reed_solomon_erasure.Codec.Split.{total_len, join_shards, join, split_shard, split_len, split}
use reed_solomon_erasure.Codec.Split.Joined.{
  concat, concat-snoc, length-concat, take_all, take_more, join_shards_lem,
}

module _ {ℓ} {A : Type ℓ} ⦃F : Field A⦄ (d m : ℕ) (payload : List A)
    (room : length payload ≤ d * m) where
  -- The buffer followed by the zeros that fill the shards.
  abbrev padded : List A
  padded = payload ++ replicate (d * m - length payload) F.zero

  padded_zero : (k : ℕ) → length payload ≤ k → k < d * m → get_or padded k F.zero ≡ F.zero
  padded_zero k p q =
      get_or-append_right payload (replicate (d * m - length payload) F.zero) k F.zero p
      ∙ get_or-replicate (d * m - length payload) F.zero (k - length payload) F.zero (omega arith)

  length-padded : length padded ≡ d * m
  length-padded =
      length-append payload (replicate (d * m - length payload) F.zero)
      ∙ (ap (λ k. length payload + k) (length-replicate (d * m - length payload) F.zero)
          ∙ omega arith)

  -- A list of m elements that are those of shard i is the shard.
  piece :
      (i : ℕ) (xs : List A)
      → i * m + m ≤ d * m
      → length xs ≡ m
      → ((j : ℕ) → j < m → get_or xs j F.zero ≡ get_or padded (i * m + j) F.zero)
      → xs ≡ take m (drop (i * m) padded)
  piece i xs p e h =
      get_or_ext F.zero xs (take m (drop (i * m) padded))
        (e
          ∙ omega (
            arith,
            length-take m (drop (i * m) padded),
            length-drop (i * m) padded,
            length-padded,
          ))
        (λ j q.
          h j (omega arith)
          ∙ sym (
              get_or-take m (drop (i * m) padded) j F.zero (omega arith)
              ∙ get_or-drop (i * m) padded j F.zero))

  split_shard_lem :
      (i : ℕ) → i * m + m ≤ d * m → split_shard m payload i ≡ ok (take m (drop (i * m) padded))
  unfolding split_shard write_slice
  split_shard_lem i p = elim (dec_lt (i * m) (length payload)) [
    | yes q ↦
        let start = i * m in
        let end = min (start + m) (length payload) in
        let part = take (end - start) (drop start payload) in
        let zeros = replicate m F.zero in
        let part_len : length part ≡ end - start =
          length-slice payload start end (omega arith) (omega arith) in
        rw (lt→ltb start (length payload) q, slice_ok payload start end (omega arith) (omega arith))
          (ap ok (
            piece i (part ++ drop (end - start) zeros) p
              (length-append part (drop (end - start) zeros)
                ∙ omega
                    (arith, part_len, length-drop (end - start) zeros, length-replicate m F.zero))
              (λ j u. elim (dec_lt j (end - start)) [
                | yes inside ↦
                    get_or-append_left part (drop (end - start) zeros) j F.zero (omega arith)
                    ∙ (get_or-take (end - start) (drop start payload) j F.zero inside
                        ∙ (get_or-drop start payload j F.zero
                            ∙ sym (get_or-append_left payload _ (start + j) F.zero (omega arith))))
                | no past ↦
                    get_or-append_right part (drop (end - start) zeros) j F.zero (omega arith)
                    ∙ (get_or-drop (end - start) zeros (j - length part) F.zero
                        ∙ (get_or-replicate m F.zero (end - start + (j - length part)) F.zero
                              (omega arith)
                            ∙ sym (padded_zero (start + j) (omega arith) (omega arith))))
              ])))
    | no q ↦ rw (le→ltb (i * m) (length payload) (omega arith)) (
        ap ok (
          piece i (replicate m F.zero) p (length-replicate m F.zero) (λ j u.
            get_or-replicate m F.zero j F.zero u
            ∙ sym (padded_zero (i * m + j) (omega arith) (omega arith)))))
  ]

mul_room : (i d m : ℕ) → i < d → i * m + m ≤ d * m
mul_room i d m p = grind arith

div_ceil_positive : (n d : ℕ) → 0 < n → 0 < d → 0 < div_ceil n d
div_ceil_positive n d p q = elim (ℕ_discrete (div_ceil n d) 0) [
  | no some_len ↦ omega arith
  | yes e ↦
      let bound : n ≤ 0 * d = subst (λ k. n ≤ k * d) e (le-div_ceil n d q) in absurd (omega arith)
]

module _ {ℓ} {A : Type ℓ} ⦃F : Field A⦄ where
  -- `split` makes d shards of m elements each, which joined are the padded buffer.
  split_pieces :
      (d m : ℕ) (payload : List A) (room : length payload ≤ d * m)
      → Returns
          (try_range 0 d
            (λ i shards. split_shard m payload i >>= λ shard. ok (shards ++ (shard ∷ [])))
            [])
          (λ shards.
            (length shards ≡ d)
            × ((t : ℕ) → t < d → length (get_or shards t []) ≡ m)
            × (concat shards ≡ padded d m payload room))
  split_pieces d m payload room =
      let (shards, run, (count, width, joined)) =
        try_range_total
          (λ i shards.
            (length shards ≡ i)
            × ((t : ℕ) → t < i → length (get_or shards t []) ≡ m)
            × (concat shards ≡ take (i * m) (padded d m payload room)))
          0 d (λ i shards. split_shard m payload i >>= λ shard. ok (shards ++ (shard ∷ [])))
          (omega arith)
          (λ i shards p q (count, width, joined).
            let shard = take m (drop (i * m) (padded d m payload room)) in
            let wide : length shard ≡ m = omega (
              arith,
              length-take m (drop (i * m) (padded d m payload room)),
              length-drop (i * m) (padded d m payload room),
              length-padded d m payload room,
              mul_room i d m q,
            ) in
            (
              shards ++ (shard ∷ []),
              rw (split_shard_lem d m payload room i (mul_room i d m q)) refl,
              (
                omega (arith, length-append shards (shard ∷ [])),
                (λ t u. elim (dec_lt t i) [
                  | yes old ↦
                      ap length (get_or-append_left shards (shard ∷ []) t [] (omega arith))
                      ∙ width t old
                  | no new_one ↦
                      ap length (get_or-append_right shards (shard ∷ []) t [] (omega arith))
                      ∙ (ap (λ k. length (get_or (shard ∷ []) k []))
                            (let e : t - length shards ≡ 0 = omega arith in e)
                          ∙ wide)
                ]),
                concat-snoc shards shard
                    ∙ (ap (λ xs. xs ++ shard) joined
                        ∙ (take_more (i * m) m (padded d m payload room)
                            ∙ ap (λ k. take k (padded d m payload room))
                                (let e : i * m + m ≡ suc i * m = omega arith in e))),
              ),
            ))
          []
          (
            refl,
            (λ t u. absurd (omega arith)),
            ap (λ k. take k (padded d m payload room)) (let e : 0 ≡ 0 * m = omega arith in e),
          ) in
      (
        shards,
        run,
        (
          count,
          width,
          joined
              ∙ take_all (d * m) (padded d m payload room)
                  (omega (arith, length-padded d m payload room)),
        ),
      )

  -- For a codec with at least one data shard and a buffer that is not empty, `split` makes as many
  -- shards as the codec has data shards, all of one length, that of the buffer divided by their number
  -- and rounded up; and `join` of them to the buffer's length succeeds and returns the buffer.
  pub join-split :
      (codec : ReedSolomon A) (payload : List A)
      → 0 < codec.data_shard_count
      → 0 < length payload
      → Returns (split codec payload) (λ shards.
        (length shards ≡ codec.data_shard_count)
        × ((t : ℕ)
            → t < codec.data_shard_count
            → length (get_or shards t []) ≡ div_ceil (length payload) codec.data_shard_count)
        × (join codec shards (length payload) ≡ ok payload))
  unfolding split split_len join
  join-split codec payload some_data some_payload =
      let d = codec.data_shard_count in
      let m = div_ceil (length payload) d in
      let room : length payload ≤ d * m = omega (arith, le-div_ceil (length payload) d some_data) in
      let (shards, run, (count, width, joined)) = split_pieces d m payload room in
      let available : total_len shards ≡ d * m =
        sym (length-concat shards) ∙ (ap length joined ∙ length-padded d m payload room) in
      let target : min (length payload) (total_len shards) ≡ length payload = omega arith in
      let checked =
        check_multi_ok m shards (div_ceil_positive (length payload) d some_payload some_data)
          (omega arith) (λ i p. width i (omega arith)) in
      (
        shards,
        rw (ne→== (length payload) 0 (omega arith), ne→== d 0 (omega arith)) run,
        (
          count,
          width,
          rw
              (
                (check_piece_count_iff d (length shards) Errors.too_few_data_shards
                      Errors.too_many_data_shards).1
                    count,
                checked.0,
              )
              (ap ok (
                ap (λ k. take k (join_shards k [] shards)) target
                ∙ (ap (take (length payload)) (
                      join_shards_lem (length payload) [] shards (omega arith)
                      ∙ ap (take (length payload)) joined)
                    ∙ (take_all (length payload) (take (length payload) (padded d m payload room))
                          (omega (arith, length-take (length payload) (padded d m payload room)))
                        ∙ take-append payload (replicate (d * m - length payload) F.zero))))),
        ),
      )
