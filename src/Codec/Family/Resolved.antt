-- ===== src/Codec/Family/Resolved.antt =====
-- The automatic choice of a codec family: resolve_codec_family of src/core/leopard.rs against the
-- table in src/core/options.rs.
use reed_solomon_erasure.Base.{ℕ, ◌≤◌, ◌<◌, ◌≡◌, refl, arith, Bool, true, false, subst}
use native.Mathlib.Decide.{dec_le}
use reed_solomon_erasure.Codec.Options.{
  CodecFamily, classic, leopard_gf8, leopard_gf16, LeopardMode, disabled, as_needed, prefer_gf16,
  prefer_leopard,
}
use reed_solomon_erasure.Codec.Family.{resolve_codec_family}

-- The rows of the documented table, with the cases in which the mode is ignored. `IsChosen request
-- mode is_byte total parity family` reads: the request becomes the family.
pub data IsChosen : CodecFamily → LeopardMode → Bool → ℕ → ℕ → CodecFamily → Type 0 where
  explicit_gf8 :
      {mode : LeopardMode} {is_byte : Bool} {total parity : ℕ}
      → IsChosen leopard_gf8 mode is_byte total parity leopard_gf8
  explicit_gf16 :
      {mode : LeopardMode} {is_byte : Bool} {total parity : ℕ}
      → IsChosen leopard_gf16 mode is_byte total parity leopard_gf16
  other_field :
      {mode : LeopardMode} {total parity : ℕ} → IsChosen classic mode false total parity classic
  never : {total parity : ℕ} → IsChosen classic disabled true total parity classic
  as_needed_small :
      {total parity : ℕ} → total ≤ 256 → IsChosen classic as_needed true total parity classic
  as_needed_large :
      {total parity : ℕ} → 256 < total → IsChosen classic as_needed true total parity leopard_gf16
  gf16_preferred : {total parity : ℕ} → IsChosen classic prefer_gf16 true total parity leopard_gf16
  leopard_small :
      {total parity : ℕ}
      → total ≤ 256
      → parity ≤ 128
      → IsChosen classic prefer_leopard true total parity leopard_gf8
  leopard_many_parity :
      {total parity : ℕ}
      → total ≤ 256
      → 128 < parity
      → IsChosen classic prefer_leopard true total parity leopard_gf16
  leopard_large :
      {total parity : ℕ}
      → 256 < total
      → IsChosen classic prefer_leopard true total parity leopard_gf16

module _ (total parity : ℕ) where
  as_needed_value :
      (total ≤ 256 → resolve_codec_family classic as_needed true total parity ≡ classic)
      × (256 < total → resolve_codec_family classic as_needed true total parity ≡ leopard_gf16)
  unfolding resolve_codec_family
  as_needed_value = ((λ h. ground arith), (λ h. ground arith))

  prefer_leopard_value :
      (total ≤ 256
        → parity ≤ 128
        → resolve_codec_family classic prefer_leopard true total parity ≡ leopard_gf8)
      × (total ≤ 256
          → 128 < parity
          → resolve_codec_family classic prefer_leopard true total parity ≡ leopard_gf16)
      × (256 < total → resolve_codec_family classic prefer_leopard true total parity ≡ leopard_gf16)
  unfolding resolve_codec_family
  prefer_leopard_value = ((λ h k. ground arith), (λ h k. ground arith), (λ h. ground arith))

-- The table has a row for each request, and it names the resolved family.
resolve-IsChosen :
    (requested : CodecFamily) (mode : LeopardMode) (is_byte : Bool) (total parity : ℕ)
    → IsChosen requested mode is_byte total parity
        (resolve_codec_family requested mode is_byte total parity)
unfolding resolve_codec_family
resolve-IsChosen leopard_gf8 mode is_byte total parity = explicit_gf8
resolve-IsChosen leopard_gf16 mode is_byte total parity = explicit_gf16
resolve-IsChosen classic mode false total parity = other_field
resolve-IsChosen classic disabled true total parity = never
resolve-IsChosen classic prefer_gf16 true total parity = gf16_preferred
resolve-IsChosen classic as_needed true total parity = elim (dec_le total 256) [
  | yes h ↦ rw ((as_needed_value total parity).0 h) (as_needed_small h)
  | no n ↦ rw ((as_needed_value total parity).1 (omega arith)) (as_needed_large (omega arith))
]
resolve-IsChosen classic prefer_leopard true total parity = elim (dec_le total 256) [
  | yes h ↦ elim (dec_le parity 128) [
    | yes k ↦ rw ((prefer_leopard_value total parity).0 h k) (leopard_small h k)
    | no n ↦
        rw ((prefer_leopard_value total parity).1 h (omega arith))
          (leopard_many_parity h (omega arith))
  ]
  | no n ↦ rw ((prefer_leopard_value total parity).2 (omega arith)) (leopard_large (omega arith))
]

chosen-eq :
    (requested : CodecFamily) (mode : LeopardMode) (is_byte : Bool) (total parity : ℕ)
    (family : CodecFamily)
    → IsChosen requested mode is_byte total parity family
    → resolve_codec_family requested mode is_byte total parity ≡ family
unfolding resolve_codec_family
chosen-eq _ _ _ _ _ _ explicit_gf8 = refl
chosen-eq _ _ _ _ _ _ explicit_gf16 = refl
chosen-eq _ _ _ _ _ _ other_field = refl
chosen-eq _ _ _ _ _ _ never = refl
chosen-eq _ _ _ total parity _ (as_needed_small h) = (as_needed_value total parity).0 h
chosen-eq _ _ _ total parity _ (as_needed_large h) = (as_needed_value total parity).1 h
chosen-eq _ _ _ _ _ _ gf16_preferred = refl
chosen-eq _ _ _ total parity _ (leopard_small h k) = (prefer_leopard_value total parity).0 h k
chosen-eq _ _ _ total parity _ (leopard_many_parity h k) = (prefer_leopard_value total parity).1 h k
chosen-eq _ _ _ total parity _ (leopard_large h) = (prefer_leopard_value total parity).2 h

-- The resolved family is exactly the one that the documented table gives: an explicit Leopard
-- request, or a field that is not the byte field, keeps the request, and else the mode, 256 shards
-- and 128 parity shards decide.
pub resolve_codec_family_iff :
    (requested : CodecFamily) (mode : LeopardMode) (is_byte : Bool) (total parity : ℕ)
    (family : CodecFamily)
    → (resolve_codec_family requested mode is_byte total parity ≡ family
        → IsChosen requested mode is_byte total parity family)
      × (IsChosen requested mode is_byte total parity family
          → resolve_codec_family requested mode is_byte total parity ≡ family)
resolve_codec_family_iff requested mode is_byte total parity family = (
  λ e.
      subst (IsChosen requested mode is_byte total parity) e
        (resolve-IsChosen requested mode is_byte total parity),
  chosen-eq requested mode is_byte total parity family,
)
