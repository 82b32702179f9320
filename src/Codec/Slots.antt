-- ===== src/Codec/Slots.antt =====
-- src/lib.rs: the trait ReconstructShard, ShardSlot, and the implementations for Option<T>, (T, bool)
-- and ShardSlot<T>, with a list of elements as T. A reference to the buffer is a value, and `put` is
-- what a write through the reference does to the shard.
use reed_solomon_erasure.Base.{
  ℕ, Bool, true, false, Option, none, some, List, length, replicate, ◌==◌, if◌then◌else◌, not,
}
use reed_solomon_erasure.Errors.{Error, incorrect_shard_size}
use reed_solomon_erasure.Field.{Field}

-- `ReconstructInitResult`: `Ok(x)`, `Err(Ok(x))` with the changed shard, and `Err(Err(e))`.
pub data InitResult {ℓ κ} (A : Type ℓ) (S : Type κ) : Type (ℓ ⊔ κ) where
  ready : List A → InitResult A S
  fresh : List A → S → InitResult A S
  refused : Error → InitResult A S

pub record ReconstructShard {ℓ κ} (A : Type ℓ) (S : Type κ) : Type (ℓ ⊔ κ) where
  pub len : S → Option ℕ
  pub get_data : S → Option (List A)
  pub get_or_initialize : ℕ → S → InitResult A S
  pub put : S → List A → S

-- The provided method `is_empty`.
unfoldable pub is_empty {ℓ κ} : {A : Type ℓ} {S : Type κ} → ReconstructShard A S → S → Bool
is_empty R s = elim (R.len s) [ none ↦ true | some n ↦ false ]

pub record ShardSlot {ℓ} (T : Type ℓ) : Type ℓ where
  pub contents : T
  pub present : Bool

module _ {ℓ} {T : Type ℓ} where
  unfoldable pub new_present : T → ShardSlot T
  new_present contents = record { contents = contents; present = true }

  unfoldable pub new_missing : T → ShardSlot T
  new_missing contents = record { contents = contents; present = false }

  unfoldable pub with_present : T → Bool → ShardSlot T
  with_present contents present = record { contents = contents; present = present }

  unfoldable pub is_present : ShardSlot T → Bool
  is_present s = s.present

  unfoldable pub mark_present : ShardSlot T → ShardSlot T
  mark_present s = record s { present = true }

  unfoldable pub mark_missing : ShardSlot T → ShardSlot T
  mark_missing s = record s { present = false }

  unfoldable pub into_inner : ShardSlot T → T
  into_inner s = s.contents

module _ {ℓ} {A : Type ℓ} ⦃F : Field A⦄ where
  abbrev option_init : ℕ → Option (List A) → InitResult A (Option (List A))
  option_init n (some x) = ready x
  option_init n none = fresh (replicate n F.zero) (some (replicate n F.zero))

  abbrev option_len : Option (List A) → Option ℕ
  option_len (some x) = some (length x)
  option_len none = none

  unfoldable pub option_shard : ReconstructShard A (Option (List A))
  option_shard = record {
    len = option_len;
    get_data = λ s. s;
    get_or_initialize = option_init;
    put = λ s x. some x;
  }

  unfoldable pub slot_init : ℕ → ShardSlot (List A) → InitResult A (ShardSlot (List A))
  slot_init n s =
      if length s.contents == n
      then (if s.present then ready s.contents else fresh s.contents (record s { present = true }))
      else refused incorrect_shard_size

  unfoldable pub slot_shard : ReconstructShard A (ShardSlot (List A))
  unfolding slot_init
  slot_shard = record {
    len = λ s. if s.present then some (length s.contents) else none;
    get_data = λ s. if s.present then some s.contents else none;
    get_or_initialize = slot_init;
    put = λ s x. record s { contents = x };
  }

  unfoldable pub pair_init : ℕ → List A × Bool → InitResult A (List A × Bool)
  pair_init n (x, present) =
      if length x == n
      then (if present then ready x else fresh x (x, true))
      else refused incorrect_shard_size

  unfoldable pub pair_shard : ReconstructShard A (List A × Bool)
  unfolding pair_init
  pair_shard = record {
    len = λ (x, present). if not present then none else some (length x);
    get_data = λ (x, present). if not present then none else some x;
    get_or_initialize = pair_init;
    put = λ (x, present) y. (y, present);
  }
