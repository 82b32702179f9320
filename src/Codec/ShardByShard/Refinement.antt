-- ===== src/Codec/ShardByShard/Refinement.antt =====
-- The shard-by-shard encoder of src/core/shard_by_shard.rs against `encode_sep`: the state machine
-- counts the shards, and a full batch leaves what one call of `encode_sep` leaves.
use reed_solomon_erasure.Base.{
  ℕ, zero, suc, ◌+◌, ◌<◌, ◌≤◌, ◌≡◌, refl, sym, ◌∙◌, ap, subst, arith, true, false, List, [], length,
  get_or, get_elem?-get_or, ◌==◌, ne→==, ==_iff, if◌then◌else◌, ok, err, Bool-cases, inl, inr,
}
use reed_solomon_erasure.Errors.{too_many_calls}
use reed_solomon_erasure.Field.{Field, FieldLaws}
use reed_solomon_erasure.Field.Sum.{sum}
use reed_solomon_erasure.Matrix.{get}
use reed_solomon_erasure.Codec.Blocks.{IsBlock, IsBlock-congr, IsBlock-unique}
use reed_solomon_erasure.Codec.State.{ReedSolomon, fast_one_parity_enabled}
use reed_solomon_erasure.Codec.Checks.{check_piece_count_iff, check_multi_multi_ok}
use reed_solomon_erasure.Codec.Coding.Chunks.{Returns}
use reed_solomon_erasure.Codec.Encode.{LeopardCoders, encode_sep}
use reed_solomon_erasure.Codec.Encode.Product.{
  IsClassic, encode_sep-IsBlock, encode_single_sep-IsBlock,
}
use reed_solomon_erasure.Codec.ShardByShard.{
  ShardByShard, sbs_returned, new_sbs, parity_ready, incre_cur_input, sbs_encode_sep,
  sbs_encode_sep_checks, sbs_calls,
}

module _ {ℓ} {A : Type ℓ} ⦃F : Field A⦄ (L : FieldLaws F) {codec : ReedSolomon A} {d p : ℕ}
    (C : IsClassic codec d p) (len : ℕ) (some_len : 0 < len) (x v : ℕ → ℕ → A)
    (inputs : List (List A)) (bi : IsBlock d len x inputs) where
  -- The cells of the parity after `n` shards.
  abbrev after : ℕ → ℕ → ℕ → A
  after n r j = if n == 0 then v r j else sum n (λ k. F.mul (get codec.matrix (d + r) k) (x k j))

  after-suc :
      (i r j : ℕ) (e : A)
      → e ≡ x i j
      → (if i == 0
          then F.mul (get codec.matrix (d + r) i) e
          else F.add (after i r j) (F.mul (get codec.matrix (d + r) i) e))
        ≡ after (suc i) r j
  unfolding sum
  after-suc i r j e same = elim (Bool-cases (i == 0)) [
    | inl first ↦
        let z : i ≡ 0 = (==_iff i 0).0 first in
        rw (first, same, z) (sym (L.zero-add (F.mul (get codec.matrix (d + r) 0) (x 0 j))))
    | inr later ↦ rw (later, same, ne→== (suc i) 0 (omega arith)) refl
  ]

  checks_pass :
      (s : ShardByShard) (parity : List (List A))
      → s.cur_input < d
      → IsBlock p len (after s.cur_input) parity
      → sbs_encode_sep_checks codec s inputs parity ≡ ok tt
  unfolding sbs_encode_sep_checks parity_ready
  checks_pass s parity less bp =
      rw
        (
          ne→== s.cur_input codec.data_shard_count (omega (arith, C.data_count)),
          (check_piece_count_iff codec.data_shard_count (length inputs) _ _).1
              (bi.rows ∙ sym C.data_count),
          (check_piece_count_iff codec.parity_shard_count (length parity) _ _).1
              (bp.rows ∙ sym C.parity_count),
          check_multi_multi_ok len inputs parity some_len (omega (arith, bi.rows, C.some_data))
              (omega (arith, bp.rows, C.some_parity)) (λ i u. bi.width i (omega (arith, bi.rows)))
              (λ i u. bp.width i (omega (arith, bp.rows))),
        )
        refl

  sbs_encode_sep-IsBlock :
      (s : ShardByShard) (parity : List (List A))
      → s.cur_input < d
      → IsBlock p len (after s.cur_input) parity
      → Returns (sbs_encode_sep codec s inputs parity) (λ (s', parity').
        (s'.cur_input ≡ suc s.cur_input) × IsBlock p len (after (suc s.cur_input)) parity')
  unfolding sbs_encode_sep incre_cur_input
  sbs_encode_sep-IsBlock s parity less bp =
      let i = s.cur_input in
      let single = get_or inputs i [] in
      let (result, run, block) =
        encode_single_sep-IsBlock L C len i (after i) single parity some_len less (bi.width i less)
          bp in
      (
        (incre_cur_input s, result),
        rw
            (
              checks_pass s parity less bp,
              get_elem?-get_or inputs i [] (omega (arith, bi.rows)),
              run,
            )
            refl,
        (
          omega arith,
          IsBlock-congr _ (after (suc i))
              (λ r j u w. after-suc i r j (get_or single j F.zero) (bi.value_at i j less w)) block,
        ),
      )

  sbs_calls-IsBlock :
      (n : ℕ) (s : ShardByShard) (parity : List (List A))
      → s.cur_input + n ≤ d
      → IsBlock p len (after s.cur_input) parity
      → Returns (sbs_calls n codec s inputs parity) (λ (s', parity').
        (s'.cur_input ≡ s.cur_input + n) × IsBlock p len (after (s.cur_input + n)) parity')
  unfolding sbs_calls
  sbs_calls-IsBlock zero s parity less bp = (
    (s, parity),
    refl,
    (
      omega arith,
      subst (λ k. IsBlock p len (after k) parity)
          (let e : s.cur_input ≡ s.cur_input + 0 = omega arith in e) bp,
    ),
  )
  sbs_calls-IsBlock (suc n) s parity less bp =
      let ((s', parity'), run, (cur, block)) = sbs_encode_sep-IsBlock s parity (omega arith) bp in
      let ((t, final), runs, (cur', done)) =
        sbs_calls-IsBlock n s' parity' (omega (arith, cur))
          (subst (λ k. IsBlock p len (after k) parity') (sym cur) block) in
      (
        (t, final),
        rw run runs,
        (
          omega (arith, cur, cur'),
          subst (λ k. IsBlock p len (after k) final)
              (let e : s'.cur_input + n ≡ s.cur_input + suc n = omega (arith, cur) in e) done,
        ),
      )

  refused :
      (s : ShardByShard) (parity : List (List A))
      → parity_ready codec s ≡ true
      → sbs_encode_sep codec s inputs parity ≡ err (sbs_returned too_many_calls)
  unfolding sbs_encode_sep sbs_encode_sep_checks
  refused s parity ready = rw ready refl

  -- A full batch, for a classic codec that does not take the path for one parity shard, on data
  -- and parity shards of one non-zero length: d calls from a new bookkeeper succeed, the parity is
  -- then ready, it is what one call of `encode_sep` on the whole data computes, and a further call
  -- is refused with `TooManyCalls`.
  pub sbs_calls-encode_sep :
      (leopard : LeopardCoders A) (parity : List (List A))
      → fast_one_parity_enabled codec ≡ false
      → IsBlock p len v parity
      → Returns (sbs_calls d codec new_sbs inputs parity) (λ (s', parity').
        (parity_ready codec s' ≡ true)
        × (encode_sep leopard codec inputs parity ≡ ok parity')
        × (sbs_encode_sep codec s' inputs parity' ≡ err (sbs_returned too_many_calls)))
  unfolding new_sbs parity_ready
  sbs_calls-encode_sep leopard parity slow bp =
      let ((s', parity'), run, (cur, block)) =
        sbs_calls-IsBlock d new_sbs parity (omega arith) bp in
      let (whole, runs, product) =
        encode_sep-IsBlock L leopard C len x v inputs parity slow some_len bi bp in
      let ready : parity_ready codec s' ≡ true =
        (==_iff s'.cur_input codec.data_shard_count).1 (omega (arith, cur, C.data_count)) in
      (
        (s', parity'),
        run,
        (
          ready,
          runs
              ∙ ap ok (
                  IsBlock-unique whole parity' product (
                    IsBlock-congr (after d) _ finished (
                      subst (λ k. IsBlock p len (after k) parity')
                        (let e : new_sbs.cur_input + d ≡ d = omega arith in e) block))),
          refused s' parity' ready,
        ),
      )
    where
      finished :
          (r j : ℕ)
          → r < p
          → j < len
          → after d r j ≡ sum d (λ k. F.mul (get codec.matrix (d + r) k) (x k j))
      finished r j u w = rw (ne→== d 0 (omega (arith, C.some_data))) refl
