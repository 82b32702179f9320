-- ===== src/Codec/Reconstruct/Some.antt =====
-- `reconstruct_some` of src/core/reconstruct.rs. The result holds the shards that the call leaves, also
-- when it returns an error; after a panic the shards are not modelled.
pub mod Chosen
pub mod Filled
pub mod Steps
pub mod Required
use reed_solomon_erasure.Base.{
  ℕ, zero, suc, ◌+◌, Bool, true, false, ◌&&◌, ◌||◌, not, Option, none, some, List, [], ◌∷◌, map,
  length, get_elem?, set as list_set, ltb, ◌==◌, if◌then◌else◌, Result, ok, err, ◌>>=◌, ◌>>◌,
  fail_if,
}
use reed_solomon_erasure.Errors.{Failure, returned, panicked}
use reed_solomon_erasure.Errors
use reed_solomon_erasure.Field.{Field}
use reed_solomon_erasure.Matrix.{Matrix, get_row}
use reed_solomon_erasure.Codec.State.{
  ReedSolomon, is_leopard_gf8_family, is_leopard_gf16_family, ensure_classic_family_execution,
}
use reed_solomon_erasure.Codec.Checks.{check_all}
use reed_solomon_erasure.Codec.Coding.{or_panic, code_some_slices}
use reed_solomon_erasure.Codec.Decode.{get_data_decode_matrix}
use reed_solomon_erasure.Codec.Slots.{ReconstructShard, ready, fresh, refused, option_shard}
use reed_solomon_erasure.Codec.Reconstruct.{count_present, write_back}
use reed_solomon_erasure.Codec.Reconstruct.Calls.{LeopardReconstructors, reconstruct}

-- `required.iter().enumerate().all(|(i, required)| !*required || i < data_shard_count)`, from `i` on.
unfoldable pub required_data_only : ℕ → ℕ → List Bool → Bool
required_data_only d i [] = true
required_data_only d i (r ∷ required) = (not r || ltb i d) && required_data_only d (suc i) required

abbrev pub is_none {ℓ} : {X : Type ℓ} → Option X → Bool
is_none none = true
is_none (some x) = false

pub record Choice : Type 0 where
  pub valid_indices : List ℕ
  pub invalid_indices : List ℕ
  pub required_missing : List ℕ

abbrev pub add_valid : ℕ → Choice → Choice
add_valid index rest = record rest { valid_indices = index ∷ rest.valid_indices }

abbrev pub add_missing : Bool → ℕ → Choice → Choice
add_missing wanted index rest = record rest {
  invalid_indices = index ∷ rest.invalid_indices;
  required_missing = if wanted then index ∷ rest.required_missing else rest.required_missing;
}

abbrev pub no_choice : Choice
no_choice = record { valid_indices = []; invalid_indices = []; required_missing = [] }

-- The loop over `originally_missing`, from `index` on with `taken` valid indices before. The two lists
-- have the same length where it is called.
unfoldable pub choose : ℕ → ℕ → ℕ → List Bool → List Bool → Choice
choose d index taken [] required = no_choice
choose d index taken (missing ∷ originally_missing) [] = no_choice
choose d index taken (missing ∷ originally_missing) (r ∷ required) = elim missing [
  | true ↦
      add_missing (ltb index d && r) index (choose d (suc index) taken originally_missing required)
  | false ↦ elim (ltb taken d) [
    | true ↦ add_valid index (choose d (suc index) (suc taken) originally_missing required)
    | false ↦ choose d (suc index) taken originally_missing required
  ]
]

module _ {ℓ κ} {A : Type ℓ} {S : Type κ} (R : ReconstructShard A S) where
  -- The buffers of the valid shards.
  unfoldable pub present_shards : List S → List ℕ → Result Failure (List (List A))
  present_shards shards [] = ok []
  present_shards shards (i ∷ valid_indices) = or_panic (get_elem? shards i) >>= λ s.
      or_panic (R.get_data s) >>= λ x. present_shards shards valid_indices >>= λ xs. ok (x ∷ xs)

  abbrev pub add_output :
      List A → List S × Result Failure (List (List A)) → List S × Result Failure (List (List A))
  add_output x (shards, outputs) = (shards, outputs >>= λ xs. ok (x ∷ xs))

  -- The loop that initialises the required missing shards.
  unfoldable pub init_outputs : ℕ → List ℕ → List S → List S × Result Failure (List (List A))
  init_outputs shard_len [] shards = (shards, ok [])
  init_outputs shard_len (i ∷ indices) shards = elim (get_elem? shards i) [
    | none ↦ (shards, err panicked)
    | some s ↦ elim (R.get_or_initialize shard_len s) [
      | ready x ↦ add_output x (init_outputs shard_len indices shards)
      | fresh x s' ↦ add_output x (init_outputs shard_len indices (list_set shards i s'))
      | refused e ↦ (shards, err (returned e))
    ]
  ]

  abbrev pub add_slot : S → List S × Result Failure (Unit {0}) → List S × Result Failure (Unit {0})
  add_slot s (shards, result) = (s ∷ shards, result)

  -- `dst.copy_from_slice(recovered)`.
  abbrev pub copy_recovered :
      List A
      → List A
      → S
      → List S
      → List S × Result Failure (Unit {0})
      → List S × Result Failure (Unit {0})
  copy_recovered dst recovered s shards rest =
      if length dst == length recovered
      then add_slot (R.put s recovered) rest
      else (s ∷ shards, err panicked)

  -- The loop that copies the recovered shards which are required.
  unfoldable pub copy_required :
      ℕ
      → List Bool
      → List Bool
      → List (Option (List A))
      → List S
      → List S × Result Failure (Unit {0})
  copy_required shard_len required originally_missing working [] = ([], ok tt)
  copy_required shard_len [] originally_missing working (s ∷ shards) = (s ∷ shards, err panicked)
  copy_required shard_len (r ∷ required) [] working (s ∷ shards) = (s ∷ shards, err panicked)
  copy_required shard_len (r ∷ required) (missing ∷ originally_missing) [] (s ∷ shards) =
      (s ∷ shards, err panicked)
  copy_required shard_len (r ∷ required) (missing ∷ originally_missing) (w ∷ working) (s ∷ shards) =
      let rest = copy_required shard_len required originally_missing working shards in
      if r && missing
      then elim w [
        | none ↦ (s ∷ shards, err panicked)
        | some recovered ↦ elim (R.get_or_initialize shard_len s) [
          | ready dst ↦ copy_recovered dst recovered s shards rest
          | fresh dst s' ↦ copy_recovered dst recovered s' shards rest
          | refused e ↦ (s ∷ shards, err (returned e))
        ]
      ]
      else add_slot s rest

module _ {ℓ κ} {A : Type ℓ} ⦃F : Field A⦄ {S : Type κ} (R : ReconstructShard A S)
    (leopard : LeopardReconstructors S) (leopard_working : LeopardReconstructors (Option (List A)))
    (codec : ReedSolomon A) (cache : List ℕ → Option (Matrix A)) where
  -- After the valid shards are at hand.
  unfoldable pub fill_required :
      Matrix A
      → List ℕ
      → List (List A)
      → List S × Result Failure (List (List A))
      → List S × Result Failure (Unit {0})
  unfolding write_back
  fill_required decode indices sub_shards (shards, err e) = (shards, err e)
  fill_required decode indices sub_shards (shards, ok outputs) =
      elim (code_some_slices codec.data_shard_count (map (get_row decode) indices) sub_shards
        outputs) [
          | err e ↦ (shards, err e)
          | ok outputs' ↦ (write_back R indices outputs' shards, ok tt)
        ]

  unfoldable pub recover_required_data : ℕ → List S → Choice → List S × Result Failure (Unit {0})
  unfolding present_shards init_outputs fill_required
  recover_required_data shard_len shards choice =
      if length choice.required_missing == 0
      then (shards, ok tt)
      else elim (get_data_decode_matrix codec (cache choice.invalid_indices) choice.valid_indices) [
        | err e ↦ (shards, err (returned e))
        | ok decode ↦ elim (present_shards R shards choice.valid_indices) [
          | err e ↦ (shards, err e)
          | ok sub_shards ↦
              fill_required decode choice.required_missing sub_shards
                (init_outputs R shard_len choice.required_missing shards)
        ]
      ]

  -- The path that reconstructs copies of all shards.
  unfoldable pub recover_required_copies :
      ℕ → List S → List Bool → List S × Result Failure (Unit {0})
  unfolding copy_required
  recover_required_copies shard_len shards required =
      let (working, result) =
        reconstruct (option_shard {A = A}) leopard_working codec cache (map R.get_data shards) in
      elim result [
        | err e ↦ (shards, err e)
        | ok u ↦
            copy_required R shard_len required (map (λ s. is_none (R.get_data s)) shards) working
              shards
      ]

  unfoldable pub some_counted :
      List S → List Bool → ℕ × Option ℕ → List S × Result Failure (Unit {0})
  unfolding required_data_only choose recover_required_data recover_required_copies
  some_counted shards required (number_present, shard_len) =
      if number_present == codec.total_shard_count
      then (shards, ok tt)
      else if ltb number_present codec.data_shard_count
      then (shards, err (returned Errors.too_few_shards_present))
      else elim shard_len [
        | none ↦ (shards, err panicked)
        | some n ↦
            if required_data_only codec.data_shard_count 0 required
            then recover_required_data n shards (
                choose codec.data_shard_count 0 0 (map (λ s. is_none (R.get_data s)) shards)
                  required)
            else recover_required_copies n shards required
      ]

  unfoldable pub reconstruct_some : List S → List Bool → List S × Result Failure (Unit {0})
  unfolding count_present some_counted
  reconstruct_some shards required =
      if is_leopard_gf8_family codec
      then leopard.reconstruct_leopard_gf8 shards false
      else if is_leopard_gf16_family codec
      then leopard.reconstruct_leopard_gf16 shards false
      else elim (ensure_classic_family_execution codec
          >> (fail_if (not (length required == codec.total_shard_count))
                (returned Errors.invalid_shard_flags)
              >> (check_all codec.total_shard_count (length shards)
                  >> count_present R 0 none shards))) [
                    | err e ↦ (shards, err e)
                    | ok counted ↦ some_counted shards required counted
                  ]
