-- ===== src/Codec/Reconstruct/Some/Required.antt =====
-- `reconstruct_some` of src/core/reconstruct.rs restores the required data shards and no others.
use reed_solomon_erasure.Base.{
  ℕ, suc, ◌+◌, ◌<◌, ◌≤◌, ◌≡◌, refl, sym, ◌∙◌, ap, subst, arith, Bool, true, false, List, [], ◌∷◌,
  map, length, get_or, le→ltb, ◌==◌, ==_iff, ne→==, ◌⊎◌, inl, inr, Option, some, none, Bool-cases,
  ok,
}
use native.Mathlib.Decide.{ℕ_discrete}
use reed_solomon_erasure.Errors.{Failure}
use reed_solomon_erasure.Errors
use reed_solomon_erasure.Field.{Field, FieldLaws}
use reed_solomon_erasure.Field.Sum.{sum}
use reed_solomon_erasure.Matrix.{Matrix, get, get_row}
use reed_solomon_erasure.Matrix.Fill.{delta}
use reed_solomon_erasure.Matrix.Invert.{IsInverse}
use reed_solomon_erasure.Codec.Blocks.{IsBlock}
use reed_solomon_erasure.Codec.State.{ReedSolomon}
use reed_solomon_erasure.Codec.Checks.{check_piece_count_iff}
use reed_solomon_erasure.Codec.Coding.{code_some_slices}
use reed_solomon_erasure.Codec.Coding.Chunks.{Returns}
use reed_solomon_erasure.Codec.Encode.Product.{
  IsClassic, not_leopard_gf8, not_leopard_gf16, classic_execution,
}
use reed_solomon_erasure.Codec.Build.Constructed.{IsMds}
use reed_solomon_erasure.Codec.Decode.{
  decode_sub_matrix, missing_data_indices, reconstruct_data_stage,
}
use reed_solomon_erasure.Codec.Slots.{ReconstructShard}
use reed_solomon_erasure.Codec.Reconstruct.{write_back}
use reed_solomon_erasure.Codec.Reconstruct.Calls.{LeopardReconstructors}
use reed_solomon_erasure.Codec.Reconstruct.Indices.{
  IsRising, IsAmong, IsAmong-bounds, below, below-all, write_back-other, write_back-among,
  length-write_back,
}
use reed_solomon_erasure.Codec.Reconstruct.Sorting.{IsDamaged}
use reed_solomon_erasure.Codec.Reconstruct.Gather.{count_present-IsDamaged}
use reed_solomon_erasure.Codec.Reconstruct.Written.{all_present}
use reed_solomon_erasure.Codec.Reconstruct.Stages.{get_data_decode_matrix_total, data_stage_rows}
use reed_solomon_erasure.Codec.Reconstruct.Some.{
  Choice, choose, recover_required_data, some_counted, reconstruct_some,
}
use reed_solomon_erasure.Codec.Reconstruct.Some.Chosen.{IsChosen, choose-IsChosen, lost_flags}
use reed_solomon_erasure.Codec.Reconstruct.Some.Filled.{present_shards_lem, init_outputs-IsBegun}
use reed_solomon_erasure.Codec.Reconstruct.Some.Steps.{
  required_data_only_lem, no_member, IsAmong-cases, recover_steps,
}

-- Every required shard holds its row of the codeword, and one that is not required is as before.
abbrev pub IsRecovered {ℓ κ} :
    {A : Type ℓ} {S : Type κ}
    → ReconstructShard A S
    → S
    → List S
    → List (List A)
    → List Bool
    → List S
    → Type (ℓ ⊔ κ)
IsRecovered R default shards content required slots =
    (r : ℕ)
    → r < length shards
    → ((get_or required r false ≡ true)
        × (R.get_data (get_or slots r default) ≡ some (get_or content r [])))
      ⊎ ((get_or required r false ≡ false) × (get_or slots r default ≡ get_or shards r default))

module _ {ℓ κ} {A : Type ℓ} ⦃F : Field A⦄ (L : FieldLaws F) {codec : ReedSolomon A}
    (C : IsClassic codec codec.data_shard_count codec.parity_shard_count)
    (mds : IsMds codec codec.data_shard_count codec.parity_shard_count)
    (identity : (r c : ℕ)
      → r < codec.data_shard_count
      → c < codec.data_shard_count
      → get codec.matrix r c ≡ delta r c)
    {S : Type κ} (R : ReconstructShard A S) {len : ℕ} (some_len : 0 < len) (x : ℕ → ℕ → A)
    (content : List (List A))
    (word : IsBlock
      (codec.data_shard_count + codec.parity_shard_count)
      len
      (λ r j. sum codec.data_shard_count (λ k. F.mul (get codec.matrix r k) (x k j)))
      content)
    (cache : List ℕ → Option (Matrix A)) (leopard : LeopardReconstructors S)
    (leopard_working : LeopardReconstructors (Option (List A))) (default : S) (n : ℕ)
    (shards : List S) (all : length shards ≡ codec.data_shard_count + codec.parity_shard_count)
    (enough : codec.data_shard_count ≤ n) where
  module _ (required : List Bool)
      (data_rows : (r : ℕ)
        → r < length required
        → get_or required r false ≡ true
        → r < codec.data_shard_count)
      (c : Choice)
      (o : IsChosen R len
        (codec.data_shard_count + codec.parity_shard_count)
        codec.data_shard_count
        (λ r. get_or content r [])
        0
        0
        n
        shards
        required
        c) where
    -- The rows that are written, and the others, make all rows.
    settle :
        (slots : List S)
        → ((r : ℕ)
            → IsAmong r c.required_missing
            → R.get_data (get_or slots r default) ≡ some (get_or content r []))
        → ((r : ℕ)
            → (IsAmong r c.required_missing → ⊥)
            → get_or slots r default ≡ get_or shards r default)
        → length required ≡ length shards
        → IsRecovered R default shards content required slots
    settle slots restored others flags r p = elim (Bool-cases (get_or required r false)) [
      | inl wanted ↦ inl (
        wanted,
        elim (IsAmong-cases r c.required_missing) [
          | inl among ↦ restored r among
          | inr out ↦
              elim (o.complete r r default p (omega arith) wanted
                (data_rows r (omega arith) wanted)) [
                  | inl held ↦ ap R.get_data (others r out) ∙ held
                  | inr among ↦ absurd (out among)
                ]
        ],
      )
      | inr spared ↦ inr (
        spared,
        others r (λ among. absurd (let asks = o.asked r r default p (omega arith) among in cc)),
      )
    ]

    -- The required rows after the buffers are written.
    recover_written :
        (sound : (entry : Matrix A)
          → cache c.invalid_indices ≡ some entry
          → IsInverse codec.data_shard_count (decode_sub_matrix codec c.valid_indices) entry)
        → ¬ (length c.required_missing ≡ 0)
        → (slots : List S) × (recover_required_data R leopard leopard_working codec cache len shards
              c
            ≡ (slots, ok tt))
          × (length slots ≡ length shards)
          × ((r : ℕ)
              → IsAmong r c.required_missing
              → R.get_data (get_or slots r default) ≡ some (get_or content r []))
          × ((r : ℕ)
              → (IsAmong r c.required_missing → ⊥)
              → get_or slots r default ≡ get_or shards r default)
    unfolding reconstruct_data_stage missing_data_indices
    recover_written sound some_missing =
        let d = codec.data_shard_count in
        let total = d + codec.parity_shard_count in
        let wanted = c.required_missing in
        let all_valid : length c.valid_indices ≡ d = omega (arith, o.enough (omega arith)) in
        let (decode, found) =
          get_data_decode_matrix_total L C mds (cache c.invalid_indices) c.valid_indices o.valid
            all_valid in
        let (sub, gathered, (count, cells)) =
          present_shards_lem R default (λ r. get_or content r []) shards c.valid_indices
            (λ r among.
              let bounds = IsAmong-bounds 0 total r c.valid_indices o.valid among in
              (
                omega (arith, bounds),
                o.present r r default (omega (arith, bounds)) (omega arith) among,
              )) in
        let (begun, outputs, initialised, b) =
          init_outputs-IsBegun R default len 0 d wanted shards o.wanted (omega arith) (λ r among.
            let bounds = IsAmong-bounds 0 d r wanted o.wanted among in
            o.absent r r default (omega (arith, bounds)) (omega arith) among) in
        let whole : below d wanted ≡ wanted = below-all d 0 d wanted (omega arith) o.wanted in
        let (restored, run, (size, rows)) =
          subst
            (λ (is : List ℕ).
              Returns (code_some_slices d (map (get_row decode) is) sub outputs) (λ data'.
                (length data' ≡ length is)
                × ((t : ℕ)
                    → t < length is
                    → get_or data' t [] ≡ get_or content (get_or is t 0) [])))
            whole
            (data_stage_rows L C some_len x content word identity c.valid_indices wanted sub outputs
              (cache c.invalid_indices) decode o.valid all_valid
              (rising_total d total 0 wanted (omega arith) o.wanted) count cells
              (b.count ∙ ap length (sym whole)) b.width sound found) in
        (
          write_back R wanted restored begun,
          recover_steps codec R cache leopard leopard_working len shards begun c decode sub outputs
              restored some_missing found gathered initialised run,
          length-write_back R wanted restored begun ∙ b.slot_count,
          (λ r among.
              write_back-among R 0 d wanted restored begun (λ k. get_or content k []) r default
                o.wanted (omega (arith, b.slot_count)) size rows among (b.writable r among)),
          (λ r out. write_back-other R wanted restored begun r default out ∙ b.others r out),
        )
      where
        rising_total :
            (d total lo : ℕ) (is : List ℕ) → d ≤ total → IsRising lo d is → IsRising lo total is
        rising_total d total lo [] p rising = tt
        rising_total d total lo (i ∷ is) p (a, q, rest) =
            (a, omega arith, rising_total d total (suc i) is p rest)

  -- Without a required missing shard there is nothing to do.
  nothing_required :
      (len : ℕ) (c : Choice)
      → length c.required_missing ≡ 0
      → recover_required_data R leopard leopard_working codec cache len shards c ≡ (shards, ok tt)
  unfolding recover_required_data
  nothing_required len c none_missing =
      rw ((==_iff (length c.required_missing) 0).1 none_missing, recover_required_data) refl

  -- For a codec of the classic family of which any d rows are independent and whose first rows are the
  -- identity, for the shards of a codeword of one non-zero length of which at least d are present and
  -- the others are lost, and for a mask of the codec's size that requires data shards only:
  -- `reconstruct_some` succeeds and keeps the number of shards, every required shard then holds its
  -- row of the codeword, and the shards that are not required are as before. If the cache answers for
  -- the rows in question, it must answer with the inverse.
  pub reconstruct_some-IsRecovered :
      (required : List Bool)
      → IsDamaged R len (λ r. get_or content r []) 0 n shards
      → length required ≡ length shards
      → ((r : ℕ)
          → r < length required
          → get_or required r false ≡ true
          → r < codec.data_shard_count)
      → ((entry : Matrix A)
          → cache (choose codec.data_shard_count 0 0 (lost_flags R shards) required).invalid_indices
            ≡ some entry
          → IsInverse codec.data_shard_count
              (decode_sub_matrix codec
                (choose codec.data_shard_count 0 0 (lost_flags R shards) required).valid_indices)
              entry)
      → (slots : List S) × (reconstruct_some R leopard leopard_working codec cache shards required
          ≡ (slots, ok tt))
        × (length slots ≡ length shards)
        × IsRecovered R default shards content required slots
  unfolding reconstruct_some some_counted
  reconstruct_some-IsRecovered required damaged flags data_rows sound =
      let d = codec.data_shard_count in
      let total = d + codec.parity_shard_count in
      let c = choose d 0 0 (lost_flags R shards) required in
      let o =
        choose-IsChosen R len total d (λ r. get_or content r []) 0 0 n shards required (omega arith)
          flags (omega arith) damaged in
      let flagged : (length required == codec.total_shard_count) ≡ true =
        (==_iff (length required) codec.total_shard_count).1 (omega (arith, C.total_count)) in
      let counted =
        (check_piece_count_iff codec.total_shard_count (length shards) Errors.too_few_shards
            Errors.too_many_shards).1
          (all ∙ sym C.total_count) in
      let (found, run, size) =
        count_present-IsDamaged R len (λ r. get_or content r []) some_len 0 n 0 none shards
          (inl refl) (λ p. absurd (omega arith)) damaged in
      let sized : found ≡ some len = size (omega (arith, C.some_data)) in
      let zero_add : 0 + n ≡ n = omega arith in
      let data_only =
        required_data_only_lem d 0 required (λ k p e. omega (arith, data_rows k p e)) in
      elim (ℕ_discrete n codec.total_shard_count) [
        | yes complete ↦ (
          shards,
          rw
              (
                not_leopard_gf8 C,
                not_leopard_gf16 C,
                classic_execution C,
                flagged,
                counted,
                run,
                zero_add,
                (==_iff n codec.total_shard_count).1 complete,
                reconstruct_some,
                some_counted,
              )
              refl,
          refl,
          (λ r p. elim (Bool-cases (get_or required r false)) [
            | inl wanted ↦ inl (
              wanted,
              all_present R len (λ r. get_or content r []) shards r r default damaged
                  (omega (arith, C.total_count)) p (omega arith),
            )
            | inr spared ↦ inr (spared, refl)
          ]),
        )
        | no some_lost ↦
            let path : reconstruct_some R leopard leopard_working codec cache shards required
                ≡ recover_required_data R leopard leopard_working codec cache len shards c =
              rw
                (
                  not_leopard_gf8 C,
                  not_leopard_gf16 C,
                  classic_execution C,
                  flagged,
                  counted,
                  run,
                  zero_add,
                  ne→== n codec.total_shard_count some_lost,
                  le→ltb n codec.data_shard_count enough,
                  sized,
                  data_only,
                  reconstruct_some,
                  some_counted,
                )
                refl in
            elim (ℕ_discrete (length c.required_missing) 0) [
              | yes none_missing ↦ (
                shards,
                path ∙ nothing_required len c none_missing,
                refl,
                settle required data_rows c o shards
                    (λ r among. absurd (no_member r c.required_missing none_missing among))
                    (λ r out. refl) flags,
              )
              | no some_missing ↦
                  let (slots, done, count, restored, others) =
                    recover_written required data_rows c o sound some_missing in
                  (
                    slots,
                    path ∙ done,
                    count,
                    settle required data_rows c o slots restored others flags,
                  )
            ]
      ]
