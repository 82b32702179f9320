-- ===== src/Codec/Reconstruct/Calls.antt =====
-- The entry points `reconstruct` and `reconstruct_data` of src/core/reconstruct.rs. The result holds
-- the shards that the call leaves, also when it returns an error.
use reed_solomon_erasure.Base.{ℕ, Bool, true, false, Option, List, Result, ok, err, if◌then◌else◌}
use reed_solomon_erasure.Errors.{Failure}
use reed_solomon_erasure.Field.{Field}
use reed_solomon_erasure.Matrix.{Matrix}
use reed_solomon_erasure.Codec.Slots.{ReconstructShard}
use reed_solomon_erasure.Codec.State.{
  ReedSolomon, is_leopard_gf8_family, is_leopard_gf16_family, ensure_classic_family_execution,
}
use reed_solomon_erasure.Codec.Reconstruct.{reconstruct_internal}

-- `reconstruct_leopard_gf8` and `reconstruct_leopard_gf16`, whose transforms are not modelled.
pub record LeopardReconstructors {κ} (S : Type κ) : Type κ where
  pub reconstruct_leopard_gf8 : List S → Bool → List S × Result Failure (Unit {0})
  pub reconstruct_leopard_gf16 : List S → Bool → List S × Result Failure (Unit {0})

module _ {ℓ κ} {A : Type ℓ} ⦃F : Field A⦄ {S : Type κ} (R : ReconstructShard A S)
    (leopard : LeopardReconstructors S) where
  -- The path that both entry points take, by the family of the codec.
  abbrev reconstruct_by_family :
      Bool
      → ReedSolomon A
      → (List ℕ → Option (Matrix A))
      → List S
      → List S × Result Failure (Unit {0})
  reconstruct_by_family data_only codec cache slices =
      if is_leopard_gf8_family codec
      then leopard.reconstruct_leopard_gf8 slices data_only
      else if is_leopard_gf16_family codec
      then leopard.reconstruct_leopard_gf16 slices data_only
      else elim (ensure_classic_family_execution codec) [
        | err e ↦ (slices, err e)
        | ok u ↦ reconstruct_internal R codec cache slices data_only
      ]

  unfoldable pub reconstruct :
      ReedSolomon A → (List ℕ → Option (Matrix A)) → List S → List S × Result Failure (Unit {0})
  reconstruct = reconstruct_by_family false

  unfoldable pub reconstruct_data :
      ReedSolomon A → (List ℕ → Option (Matrix A)) → List S → List S × Result Failure (Unit {0})
  reconstruct_data = reconstruct_by_family true
