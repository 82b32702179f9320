-- ===== src/Codec/Build/Constructed.antt =====
-- What `ReedSolomon::new` of src/core/codec.rs returns for each pair of counts.
use reed_solomon_erasure.Base.{
  ℕ, ◌+◌, ◌<◌, ◌≤◌, ◌≡◌, refl, subst, arith, Bool, true, false, ltb, lt→ltb, le→ltb, ◌==◌, ne→==,
  ok, err, Bool-cases, ◌⊎◌, inl, inr, if◌then◌else◌,
}
use native.Mathlib.Decide.{ℕ_discrete}
use reed_solomon_erasure.Errors.{
  Error, returned, too_few_data_shards, too_few_parity_shards, too_many_shards,
}
use reed_solomon_erasure.Field.{Field, FieldLaws}
use reed_solomon_erasure.Matrix.{get}
use reed_solomon_erasure.Matrix.Fill.{delta}
use reed_solomon_erasure.Matrix.Regular.{IsRegular}
use reed_solomon_erasure.Codec.Options.{classic, disabled, default}
use reed_solomon_erasure.Codec.Family.{
  usize_max, is_byte_field, resolve_codec_family, max_total_shards_for_family,
  validate_leopard_family,
}
use reed_solomon_erasure.Codec.State.{
  ReedSolomon, classic_state, build_family_state, fast_one_parity_enabled,
}
use reed_solomon_erasure.Codec.Coding.Chunks.{Returns}
use reed_solomon_erasure.Codec.Encode.Product.{IsClassic}
use reed_solomon_erasure.Codec.Build.{
  with_options, new, family_matrix, build_matrix_with_options, normalize_inversion_cache_capacity,
}
use reed_solomon_erasure.Codec.CodingMatrix.{matrix_by_mode}
use reed_solomon_erasure.Codec.CodingMatrix.Systematic.{build_matrix-IsSystematic}
use reed_solomon_erasure.Codec.CodingMatrix.Mds.{build_matrix_total, build_matrix-IsRegular}

-- Any d different rows of the coding matrix take only the zero vector to zero.
abbrev pub IsMds {ℓ} : {A : Type ℓ} ⦃F : Field A⦄ → ReedSolomon A → ℕ → ℕ → Type ℓ
IsMds codec d p =
    (pick : ℕ → ℕ)
    → ((i : ℕ) → i < d → pick i < d + p)
    → ((i j : ℕ) → i < d → j < d → pick i ≡ pick j → i ≡ j)
    → IsRegular d (λ r. get codec.matrix (pick r))

resolve_default :
    (is_byte : Bool) (t p : ℕ) → resolve_codec_family classic disabled is_byte t p ≡ classic
unfolding resolve_codec_family
resolve_default true t p = refl
resolve_default false t p = refl

-- The error for counts that `new` rejects.
abbrev pub counts_error : ℕ → ℕ → Error
counts_error d p =
    if d == 0
    then too_few_data_shards
    else if p == 0
    then too_few_parity_shards
    else too_many_shards

module _ {ℓ} {A : Type ℓ} ⦃F : Field A⦄ where
  module _ (L : FieldLaws F) (big_endian : Bool) (d p : ℕ) where
    -- For counts that are not zero and whose sum is at most the order of the field (and so fits into
    -- a `usize`), `new` returns a codec of the classic family with these counts, whose matrix starts
    -- with the identity, and of which any d different rows are independent.
    pub new_total :
        0 < d
        → 0 < p
        → d + p ≤ F.order
        → F.order ≤ usize_max
        → Returns (new {A = A} big_endian d p) (λ codec.
          IsClassic codec d p
          × (fast_one_parity_enabled codec ≡ false)
          × ((r c : ℕ) → r < d → c < d → get codec.matrix r c ≡ delta r c)
          × IsMds codec d p)
    unfolding new with_options family_matrix build_matrix_with_options matrix_by_mode
        build_family_state max_total_shards_for_family validate_leopard_family
        fast_one_parity_enabled
    new_total some_data some_parity fits small =
        let (m, run) = build_matrix_total L d (d + p) (omega arith) fits in
        let (shape, identity, _) = build_matrix-IsSystematic L d (d + p) m (omega arith) run in
        (
          record {
            data_shard_count = d;
            parity_shard_count = p;
            total_shard_count = d + p;
            codec_family = classic;
            family_state = classic_state;
            matrix = m;
            options = record default {
              inversion_cache_capacity = normalize_inversion_cache_capacity d p 0;
            };
          },
          rw
              (
                ne→== d 0 (omega arith),
                ne→== p 0 (omega arith),
                le→ltb usize_max (d + p) (omega arith),
                resolve_default (is_byte_field F) (d + p) p,
                le→ltb F.order (d + p) fits,
                run,
              )
              refl,
          (
            record {
              data_count = refl;
              parity_count = refl;
              total_count = refl;
              some_data = some_data;
              some_parity = some_parity;
              family = refl;
              shape = shape;
            },
            refl,
            identity,
            build_matrix-IsRegular L d (d + p) m (omega arith) fits run,
          ),
        )

    -- The codec that `new` returned has these properties.
    pub new_facts :
        (codec : ReedSolomon A)
        → 0 < d
        → 0 < p
        → d + p ≤ F.order
        → F.order ≤ usize_max
        → new {A = A} big_endian d p ≡ ok codec
        → IsClassic codec d p
          × (fast_one_parity_enabled codec ≡ false)
          × ((r c : ℕ) → r < d → c < d → get codec.matrix r c ≡ delta r c)
          × IsMds codec d p
    new_facts codec some_data some_parity fits small built =
        let (found, run, facts) = new_total some_data some_parity fits small in
        let same : found ≡ codec = cc in
        subst
          (λ c.
            IsClassic c d p
            × (fast_one_parity_enabled c ≡ false)
            × ((r k : ℕ) → r < d → k < d → get c.matrix r k ≡ delta r k)
            × IsMds c d p)
          same facts

    -- `new` rejects no data shards, then no parity shards, then more shards than the field has
    -- elements, each with its error.
    pub new_error :
        (d ≡ 0) ⊎ ((p ≡ 0) ⊎ (F.order < d + p))
        → new {A = A} big_endian d p ≡ err (returned (counts_error d p))
    unfolding new with_options max_total_shards_for_family
    new_error bad = elim (ℕ_discrete d 0) [
      | yes no_data ↦ rw no_data refl
      | no some_data ↦ elim (ℕ_discrete p 0) [
        | yes no_parity ↦ rw (ne→== d 0 some_data, no_parity) refl
        | no some_parity ↦ elim (Bool-cases (ltb usize_max (d + p))) [
          | inl over ↦ rw (ne→== d 0 some_data, ne→== p 0 some_parity, over) refl
          | inr under ↦
              rw
                (
                  ne→== d 0 some_data,
                  ne→== p 0 some_parity,
                  under,
                  resolve_default (is_byte_field F) (d + p) p,
                  lt→ltb F.order (d + p) (too_large some_data some_parity bad),
                )
                refl
        ]
      ]
    ]
      where
        too_large :
            ¬ (d ≡ 0) → ¬ (p ≡ 0) → (d ≡ 0) ⊎ ((p ≡ 0) ⊎ (F.order < d + p)) → F.order < d + p
        too_large a b (inl e) = absurd (a e)
        too_large a b (inr (inl e)) = absurd (b e)
        too_large a b (inr (inr h)) = h
