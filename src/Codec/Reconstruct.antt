-- ===== src/Codec/Reconstruct.antt =====
-- `reconstruct_internal` of src/core/reconstruct.rs, which both `reconstruct` and `reconstruct_data`
-- run for a codec of the classic family. The result holds the shards that the call leaves, also when
-- it returns an error; after a panic the shards are not modelled.
pub mod Indices
pub mod Sorting
pub mod Collected
pub mod Gather
pub mod Stages
pub mod Written
pub mod Correct
pub mod Calls
pub mod Erasure
pub mod Refusal
pub mod Some
use reed_solomon_erasure.Base.{
  ℕ, zero, suc, ◌+◌, ◌-◌, Bool, true, false, ◌&&◌, not, Option, none, some, List, [], ◌∷◌, ◌++◌,
  map, length, get_or, set as list_set, ltb, leb, ◌==◌, if◌then◌else◌, Result, ok, err, ◌>>=◌, ◌>>◌,
  fail_if,
}
use reed_solomon_erasure.Errors.{Error, Failure, returned, panicked}
use reed_solomon_erasure.Errors
use reed_solomon_erasure.Field.{Field}
use reed_solomon_erasure.Matrix.{Matrix}
use reed_solomon_erasure.Codec.Slots.{InitResult, ready, fresh, refused, ReconstructShard}
use reed_solomon_erasure.Codec.State.{ReedSolomon, get_parity_rows, ensure_classic_family_execution}
use reed_solomon_erasure.Codec.Checks.{check_all}
use reed_solomon_erasure.Codec.Coding.{slice, code_some_slices}
use reed_solomon_erasure.Codec.Decode.{
  get_data_decode_matrix, missing_data_indices, reconstruct_data_stage,
}

-- `.skip_while(..)`.
unfoldable pub skip_while {ℓ} : {A : Type ℓ} → (A → Bool) → List A → List A
skip_while test [] = []
skip_while test (x ∷ xs) = if test x then skip_while test xs else x ∷ xs

-- The buffers and indices that the loop over the shards collects, the shards it leaves, and the error
-- it stops with.
pub record Sorted {ℓ κ} (A : Type ℓ) (S : Type κ) : Type (ℓ ⊔ κ) where
  pub slots : List S
  pub sub_shards : List (List A)
  pub valid_indices : List ℕ
  pub invalid_indices : List ℕ
  pub missing_data : List (List A)
  pub missing_parity : List (List A)
  pub failure : Option Error

module _ {ℓ κ} {A : Type ℓ} {S : Type κ} where
  abbrev pub add_ready : Bool → ℕ → List A → S → Sorted A S → Sorted A S
  add_ready keep row x s rest = record rest {
    slots = s ∷ rest.slots;
    sub_shards = if keep then x ∷ rest.sub_shards else rest.sub_shards;
    valid_indices = if keep then row ∷ rest.valid_indices else rest.valid_indices;
  }

  abbrev pub add_skipped : ℕ → S → Sorted A S → Sorted A S
  add_skipped row s rest = record rest {
    slots = s ∷ rest.slots;
    invalid_indices = row ∷ rest.invalid_indices;
  }

  abbrev pub add_fresh : Bool → ℕ → List A → S → Sorted A S → Sorted A S
  add_fresh is_data row x s rest = record rest {
    slots = s ∷ rest.slots;
    invalid_indices = row ∷ rest.invalid_indices;
    missing_data = if is_data then x ∷ rest.missing_data else rest.missing_data;
    missing_parity = if is_data then rest.missing_parity else x ∷ rest.missing_parity;
  }

  abbrev pub no_more : List S → Option Error → Sorted A S
  no_more slots failure = record {
    slots = slots;
    sub_shards = [];
    valid_indices = [];
    invalid_indices = [];
    missing_data = [];
    missing_parity = [];
    failure = failure;
  }

module _ {ℓ κ} {A : Type ℓ} {S : Type κ} (R : ReconstructShard A S) where
  -- Whether a present shard has another length than the ones before.
  abbrev pub differs : Option ℕ → ℕ → Bool
  differs none n = false
  differs (some old) n = not (n == old)

  -- The loop that counts the present shards and compares their lengths.
  unfoldable pub count_present : ℕ → Option ℕ → List S → Result Failure (ℕ × Option ℕ)
  count_present number_present shard_len [] = ok (number_present, shard_len)
  count_present number_present shard_len (s ∷ shards) = elim (R.len s) [
    | none ↦ count_present number_present shard_len shards
    | some n ↦ fail_if (n == 0) (returned Errors.empty_shard) >>= λ _.
        fail_if (differs shard_len n) (returned Errors.incorrect_shard_size) >>= λ _.
        count_present (suc number_present) (some n) shards
  ]

  -- The loop over the shards, from row `row` on with `taken` shards already in `sub_shards`.
  unfoldable pub sort_shards : ℕ → Bool → ℕ → ℕ → ℕ → List S → Sorted A S
  sort_shards d data_only shard_len row taken [] = no_more [] none
  sort_shards d data_only shard_len row taken (s ∷ shards) = elim (leb d row && data_only) [
    | true ↦ elim (R.get_data s) [
      | some x ↦ elim (ltb taken d) [
        | true ↦
            add_ready true row x s (sort_shards d data_only shard_len (suc row) (suc taken) shards)
        | false ↦ add_ready false row x s (sort_shards d data_only shard_len (suc row) taken shards)
      ]
      | none ↦ add_skipped row s (sort_shards d data_only shard_len (suc row) taken shards)
    ]
    | false ↦ elim (R.get_or_initialize shard_len s) [
      | ready x ↦ elim (ltb taken d) [
        | true ↦
            add_ready true row x s (sort_shards d data_only shard_len (suc row) (suc taken) shards)
        | false ↦ add_ready false row x s (sort_shards d data_only shard_len (suc row) taken shards)
      ]
      | fresh x s' ↦
          add_fresh (ltb row d) row x s' (sort_shards d data_only shard_len (suc row) taken shards)
      | refused e ↦ no_more (s ∷ shards) (some e)
    ]
  ]

  -- What the writes to the buffers of the shards at `indices` leave.
  unfoldable pub write_back : List ℕ → List (List A) → List S → List S
  write_back [] buffers slots = slots
  write_back (i ∷ indices) [] slots = slots
  write_back (i ∷ indices) (b ∷ buffers) [] = []
  write_back (i ∷ indices) (b ∷ buffers) (s ∷ slots) =
      write_back indices buffers (list_set (s ∷ slots) i (R.put (get_or (s ∷ slots) i s) b))

-- `push_good_up_to` and the pushes between: all data shards in order, from row `next` on, with `old`
-- shards of `sub_shards` used.
unfoldable pub all_data_slices {ℓ} :
    {A : Type ℓ}
    → ℕ
    → List (List A)
    → ℕ
    → ℕ
    → List ℕ
    → List (List A)
    → Result Failure (List (List A))
all_data_slices d sub_shards next old [] new_data = slice sub_shards old (old + (d - next))
all_data_slices d sub_shards next old (i ∷ missing) [] = err panicked
all_data_slices d sub_shards next old (i ∷ missing) (b ∷ new_data) =
    slice sub_shards old (old + (i - next)) >>= λ good.
    all_data_slices d sub_shards (suc i) (old + (i - next)) missing new_data >>= λ rest.
    ok (good ++ (b ∷ rest))

module _ {ℓ} {A : Type ℓ} ⦃F : Field A⦄ where
  unfoldable pub missing_parity_indices : ReedSolomon A → List ℕ → List ℕ
  unfolding skip_while
  missing_parity_indices codec invalid_indices =
      skip_while (λ i. ltb i codec.data_shard_count) invalid_indices

  -- The second call of `code_some_slices`, which fills the missing parity shards.
  unfoldable pub reconstruct_parity_stage :
      ReedSolomon A
      → List ℕ
      → List (List A)
      → List (List A)
      → List (List A)
      → Result Failure (List (List A))
  unfolding missing_parity_indices all_data_slices
  reconstruct_parity_stage codec invalid_indices sub_shards missing_data missing_parity = do
    data_slices ←
        all_data_slices codec.data_shard_count sub_shards 0 0
          (missing_data_indices codec invalid_indices) missing_data
    code_some_slices codec.data_shard_count
        (map (λ i. get_or (get_parity_rows codec) (i - codec.data_shard_count) [])
          (missing_parity_indices codec invalid_indices))
        data_slices missing_parity

module _ {ℓ κ} {A : Type ℓ} ⦃F : Field A⦄ {S : Type κ} (R : ReconstructShard A S) where
  -- What follows the data stage.
  unfoldable pub after_data_stage :
      ReedSolomon A → Bool → Sorted A S → List (List A) → List S × Result Failure (Unit {0})
  unfolding write_back reconstruct_parity_stage
  after_data_stage codec data_only sorted data' =
      let slots =
        write_back R (missing_data_indices codec sorted.invalid_indices) data' sorted.slots in
      elim data_only [
        | true ↦ (slots, ok tt)
        | false ↦
            elim (reconstruct_parity_stage codec sorted.invalid_indices sorted.sub_shards data'
              sorted.missing_parity) [
                | err e ↦ (slots, err e)
                | ok parity' ↦ (
                  write_back R (missing_parity_indices codec sorted.invalid_indices) parity' slots,
                  ok tt,
                )
              ]
      ]

  -- What follows the loop over the shards; `cache` is the answer of the LRU cache for a key.
  unfoldable pub after_sort :
      ReedSolomon A
      → (List ℕ → Option (Matrix A))
      → Bool
      → Sorted A S
      → List S × Result Failure (Unit {0})
  unfolding after_data_stage
  after_sort codec cache data_only sorted = elim sorted.failure [
    | some e ↦ (sorted.slots, err (returned e))
    | none ↦
        elim (get_data_decode_matrix codec (cache sorted.invalid_indices) sorted.valid_indices) [
          | err e ↦ (sorted.slots, err (returned e))
          | ok decode ↦
              elim (reconstruct_data_stage codec decode sorted.invalid_indices sorted.sub_shards
                sorted.missing_data) [
                  | err e ↦ (sorted.slots, err e)
                  | ok data' ↦ after_data_stage codec data_only sorted data'
                ]
        ]
  ]

  -- What follows the count of the present shards.
  unfoldable pub after_count :
      ReedSolomon A
      → (List ℕ → Option (Matrix A))
      → Bool
      → List S
      → ℕ × Option ℕ
      → List S × Result Failure (Unit {0})
  unfolding after_sort sort_shards
  after_count codec cache data_only shards (number_present, shard_len) =
      if number_present == codec.total_shard_count
      then (shards, ok tt)
      else if ltb number_present codec.data_shard_count
      then (shards, err (returned Errors.too_few_shards_present))
      else elim shard_len [
        | none ↦ (shards, err panicked)
        | some n ↦
            after_sort codec cache data_only
              (sort_shards R codec.data_shard_count data_only n 0 0 shards)
      ]

  unfoldable pub reconstruct_internal :
      ReedSolomon A
      → (List ℕ → Option (Matrix A))
      → List S
      → Bool
      → List S × Result Failure (Unit {0})
  unfolding after_count count_present
  reconstruct_internal codec cache shards data_only =
      elim (check_all codec.total_shard_count (length shards) >>= λ _.
      count_present R 0 none shards) [
        | err e ↦ (shards, err e)
        | ok counted ↦ after_count codec cache data_only shards counted
      ]
