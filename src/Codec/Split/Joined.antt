-- ===== src/Codec/Split/Joined.antt =====
-- The loop of `join` in src/core/codec.rs, and lists that are joined or cut.
use reed_solomon_erasure.Base.{
  ℕ, zero, suc, ◌+◌, ◌-◌, ◌≤◌, min, ◌≡◌, refl, sym, ◌∙◌, ap, arith, List, [], ◌∷◌, ◌++◌, length,
  take, drop, length-append, length-take, ==_iff, ne→==,
}
use native.Mathlib.Decide.{dec_lt, ℕ_discrete}
use reed_solomon_erasure.Codec.Split.{total_len, join_shards}

module _ {ℓ} {A : Type ℓ} where
  abbrev pub concat : List (List A) → List A
  concat [] = []
  concat (s ∷ shards) = s ++ concat shards

  append_assoc : (xs ys zs : List A) → (xs ++ ys) ++ zs ≡ xs ++ (ys ++ zs)
  append_assoc [] ys zs = refl
  append_assoc (x ∷ xs) ys zs = ap (◌∷◌ x) (append_assoc xs ys zs)

  pub append_nil : (xs : List A) → xs ++ [] ≡ xs
  append_nil [] = refl
  append_nil (x ∷ xs) = ap (◌∷◌ x) (append_nil xs)

  pub concat-snoc :
      (shards : List (List A)) (s : List A) → concat (shards ++ (s ∷ [])) ≡ concat shards ++ s
  concat-snoc [] s = append_nil s
  concat-snoc (t ∷ shards) s =
      ap (◌++◌ t) (concat-snoc shards s) ∙ sym (append_assoc t (concat shards) s)

  pub length-concat : (shards : List (List A)) → length (concat shards) ≡ total_len shards
  length-concat [] = refl
  length-concat (s ∷ shards) = omega (arith, length-append s (concat shards), length-concat shards)

  pub take_all : (n : ℕ) (xs : List A) → length xs ≤ n → take n xs ≡ xs
  take_all zero [] p = refl
  take_all zero (x ∷ xs) p = absurd (omega arith)
  take_all (suc n) [] p = refl
  take_all (suc n) (x ∷ xs) p = ap (◌∷◌ x) (take_all n xs (omega arith))

  take_past :
      (n : ℕ) (xs ys : List A) → length xs ≤ n → take n (xs ++ ys) ≡ xs ++ take (n - length xs) ys
  take_past n [] ys p = ap (λ k. take k ys) (omega arith)
  take_past zero (x ∷ xs) ys p = absurd (omega arith)
  take_past (suc n) (x ∷ xs) ys p =
      ap (◌∷◌ x) (take_past n xs ys (omega arith) ∙ ap (λ k. xs ++ take k ys) (omega arith))

  take_within : (n : ℕ) (xs ys : List A) → n ≤ length xs → take n (xs ++ ys) ≡ take n xs
  take_within zero xs ys p = refl
  take_within (suc n) [] ys p = absurd (omega arith)
  take_within (suc n) (x ∷ xs) ys p = ap (◌∷◌ x) (take_within n xs ys (omega arith))

  take_nil : (n : ℕ) → take {A = A} n [] ≡ []
  take_nil zero = refl
  take_nil (suc n) = refl

  pub take_more : (m n : ℕ) (xs : List A) → take m xs ++ take n (drop m xs) ≡ take (m + n) xs
  take_more zero n xs = ap (λ k. take k xs) (omega arith)
  take_more (suc m) n [] = take_nil n ∙ sym (take_nil (suc m + n))
  take_more (suc m) n (x ∷ xs) =
      ap (◌∷◌ x) (take_more m n xs)
      ∙ ap (λ k. take k (x ∷ xs)) (let e : suc (m + n) ≡ suc m + n = omega arith in e)

  -- The loop of `join` collects the first elements of the shards in order.
  pub join_shards_lem :
      (target : ℕ) (result : List A) (shards : List (List A))
      → length result ≤ target
      → join_shards target result shards ≡ take target (result ++ concat shards)
  unfolding join_shards
  join_shards_lem target result [] p =
      sym (
        take_all target (result ++ []) (omega (arith, length-append result [])) ∙ append_nil result)
  join_shards_lem target result (shard ∷ shards) p = elim (ℕ_discrete (target - length result) 0) [
    | yes full ↦
        rw ((==_iff (target - length result) 0).1 full, join_shards)
          (sym (
            take_within target result (shard ++ concat shards) (omega arith)
            ∙ take_all target result p))
    | no more ↦
        let part = take (min (target - length result) (length shard)) shard in
        rw (ne→== (target - length result) 0 more, join_shards)
          (join_shards_lem target (result ++ part) shards (
              omega (
                arith,
                length-append result part,
                length-take (min (target - length result) (length shard)) shard,
              ))
            ∙ rest more)
  ]
    where
      rest :
          ¬ (target - length result ≡ 0)
          → take target (
              (result ++ take (min (target - length result) (length shard)) shard) ++ concat shards)
            ≡ take target (result ++ (shard ++ concat shards))
      rest more = elim (dec_lt (target - length result) (length shard)) [
        | yes inside ↦
            let n = target - length result in
            let same : min n (length shard) ≡ n = omega arith in
            ap (λ k. take target ((result ++ take k shard) ++ concat shards)) same
            ∙ (take_within target (result ++ take n shard) (concat shards)
                  (omega (arith, length-append result (take n shard), length-take n shard))
                ∙ (take_past target result (take n shard) p
                    ∙ (ap (λ ys. result ++ ys)
                          (take_all n (take n shard) (omega (arith, length-take n shard))
                            ∙ sym (take_within n shard (concat shards) (omega arith)))
                        ∙ sym (take_past target result (shard ++ concat shards) p))))
        | no whole ↦
            ap (λ ys. take target ((result ++ ys) ++ concat shards))
              (take_all (min (target - length result) (length shard)) shard (omega arith))
            ∙ ap (take target) (append_assoc result shard (concat shards))
      ]
