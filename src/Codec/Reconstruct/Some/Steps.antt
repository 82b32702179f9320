-- ===== src/Codec/Reconstruct/Some/Steps.antt =====
-- The steps of `reconstruct_some` in src/core/reconstruct.rs one after the other.
use reed_solomon_erasure.Base.{
  ℕ, suc, ◌+◌, ◌<◌, ◌≡◌, refl, ◌∙◌, ap, arith, Bool, true, false, List, [], ◌∷◌, map, length,
  get_or, lt→ltb, ne→==, ◌⊎◌, inl, inr, Option, ok,
}
use native.Mathlib.Decide.{ℕ_discrete}
use reed_solomon_erasure.Field.{Field}
use reed_solomon_erasure.Matrix.{Matrix, get_row}
use reed_solomon_erasure.Codec.State.{ReedSolomon}
use reed_solomon_erasure.Codec.Coding.{code_some_slices}
use reed_solomon_erasure.Codec.Decode.{get_data_decode_matrix}
use reed_solomon_erasure.Codec.Slots.{ReconstructShard}
use reed_solomon_erasure.Codec.Reconstruct.{write_back}
use reed_solomon_erasure.Codec.Reconstruct.Calls.{LeopardReconstructors}
use reed_solomon_erasure.Codec.Reconstruct.Indices.{IsAmong}
use reed_solomon_erasure.Codec.Reconstruct.Some.{
  Choice, required_data_only, fill_required, recover_required_data, present_shards, init_outputs,
}

-- The test passes when every required row is one of a data shard.
pub required_data_only_lem :
    (d i : ℕ) (required : List Bool)
    → ((k : ℕ) → k < length required → get_or required k false ≡ true → i + k < d)
    → required_data_only d i required ≡ true
unfolding required_data_only
required_data_only_lem d i [] h = refl
required_data_only_lem d i (true ∷ required) h =
    let early : i < d = omega (arith, h 0 (omega arith) refl) in
    rw (lt→ltb i d early) (
      required_data_only_lem d (suc i) required (λ k p e. omega (arith, h (suc k) (omega arith) e)))
required_data_only_lem d i (false ∷ required) h =
    required_data_only_lem d (suc i) required (λ k p e. omega (arith, h (suc k) (omega arith) e))

pub no_member : (r : ℕ) (is : List ℕ) → length is ≡ 0 → IsAmong r is → ⊥
no_member r [] e among = among
no_member r (i ∷ is) e among = absurd (omega arith)

pub IsAmong-cases : (r : ℕ) (is : List ℕ) → IsAmong r is ⊎ (IsAmong r is → ⊥)
IsAmong-cases r [] = inr (λ among. among)
IsAmong-cases r (i ∷ is) = elim (ℕ_discrete i r) [
  | yes e ↦ inl (inl e)
  | no ne ↦ elim (IsAmong-cases r is) [
    | inl among ↦ inl (inr among)
    | inr out ↦ inr (λ among. elim among [ inl e ↦ ne e | inr more ↦ out more ])
  ]
]

module _ {ℓ κ} {A : Type ℓ} ⦃F : Field A⦄ (codec : ReedSolomon A) {S : Type κ}
    (R : ReconstructShard A S) (cache : List ℕ → Option (Matrix A))
    (leopard : LeopardReconstructors S)
    (leopard_working : LeopardReconstructors (Option (List A))) where
  -- The steps of the data path one after the other.
  pub recover_steps :
      (len : ℕ) (shards begun : List S) (c : Choice) (decode : Matrix A)
      (sub outputs restored : List (List A))
      → ¬ (length c.required_missing ≡ 0)
      → get_data_decode_matrix codec (cache c.invalid_indices) c.valid_indices ≡ ok decode
      → present_shards R shards c.valid_indices ≡ ok sub
      → init_outputs R len c.required_missing shards ≡ (begun, ok outputs)
      → code_some_slices codec.data_shard_count
          (map (get_row decode) c.required_missing)
          sub
          outputs
        ≡ ok restored
      → recover_required_data R leopard leopard_working codec cache len shards c
        ≡ (write_back R c.required_missing restored begun, ok tt)
  unfolding recover_required_data fill_required
  recover_steps len shards begun c decode sub outputs restored some_missing found gathered
        initialised run =
      rw (ne→== (length c.required_missing) 0 some_missing, found, gathered, recover_required_data)
        (ap (fill_required R leopard leopard_working codec cache decode c.required_missing sub)
            initialised
          ∙ rw (run, fill_required) refl)
