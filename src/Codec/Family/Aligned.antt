-- ===== src/Codec/Family/Aligned.antt =====
-- The length of a Leopard shard (leopard_aligned_shard_len in src/core/leopard.rs): the least length
-- that is valid and holds the payload.
use native.Mathlib.Nat.{mod-add-div', mod-lt, le_trans}
use native.Mathlib.Decide.{dec_lt}
use reed_solomon_erasure.Base.{
  ℕ, ◌-◌, ◌*◌, ◌/◌, ◌%◌, ◌^◌, ◌≤◌, ◌<◌, max, ◌≡◌, ◌⊎◌, inl, inr, refl, arith, ◌==◌, ok, Bool-cases,
  ==_iff, if◌then◌else◌, ne→==,
}
use reed_solomon_erasure.Codec.Coding.Chunks.{Returns}
use reed_solomon_erasure.Codec.Family.{
  usize_max, div_ceil, align_up, validate_leopard_shard_len, leopard_aligned_shard_len,
}

pub le-div_ceil : (a b : ℕ) → 0 < b → a ≤ div_ceil a b * b
le-div_ceil a b p = elim (Bool-cases (a % b == 0)) [
  | inl even ↦
      let z : a % b ≡ 0 = (==_iff (a % b) 0).0 even in rw even (omega (arith, mod-add-div' a b))
  | inr odd ↦ rw odd (omega (arith, mod-add-div' a b, mod-lt a p))
]

le_of_mul : (q n b : ℕ) → 0 < b → q * b ≤ n * b → q ≤ n
le_of_mul q n b p h = grind arith

lt_of_mul : (q n b : ℕ) → q * b < n * b → q < n
lt_of_mul q n b h = grind arith

-- No smaller number of elements for each of `b` shards holds `a` elements.
div_ceil-least : (a b n : ℕ) → 0 < b → a ≤ n * b → div_ceil a b ≤ n
div_ceil-least a b n p h = elim (Bool-cases (a % b == 0)) [
  | inl even ↦
      let z : a % b ≡ 0 = (==_iff (a % b) 0).0 even in
      rw even (le_of_mul (a / b) n b p (omega (arith, mod-add-div' a b)))
  | inr odd ↦
      let z : 0 < a % b = ground arith in
      rw odd (let less = lt_of_mul (a / b) n b (omega (arith, mod-add-div' a b)) in omega arith)
]

align_up_lem :
    (n : ℕ)
    → n ≤ usize_max
    → (align_up n % 64 ≡ 0)
      × (64 ≤ align_up n)
      × (align_up n ≤ usize_max)
      × ((n ≤ align_up n) ⊎ ((align_up n ≡ 2 ^ 64 - 64) × (2 ^ 64 - 64 < n)))
unfolding align_up
align_up_lem n h = ground arith

align_up-least : (n m : ℕ) → m % 64 ≡ 0 → 64 ≤ m → n ≤ m → align_up n ≤ m
unfolding align_up
align_up-least n m p q h = ground arith

validate_leopard_shard_len_iff :
    (n : ℕ)
    → ((n % 64 ≡ 0) × (64 ≤ n) → validate_leopard_shard_len n ≡ ok tt)
      × (validate_leopard_shard_len n ≡ ok tt → (n % 64 ≡ 0) × (64 ≤ n))
unfolding validate_leopard_shard_len
validate_leopard_shard_len_iff n = (λ (p, q). ground arith, λ e. ground arith)

-- With no data shard the payload goes to one.
shards_max : (d : ℕ) → (if d == 0 then 1 else d) ≡ max d 1
shards_max d = ground arith

mul_le : (a b c : ℕ) → a ≤ b → a * c ≤ b * c
mul_le a b c h = grind arith

le_mul : (a b : ℕ) → 0 < b → a ≤ a * b
le_mul a b p = grind arith

two_halves : (a b : ℕ) → a ≤ usize_max → 1 < b → a ≤ 2 ^ 63 * b
two_halves a b h p = omega arith

room_or_limit :
    (data_len shards : ℕ)
    → 0 < shards
    → data_len ≤ usize_max
    → (data_len ≤ align_up (div_ceil data_len shards) * shards)
      ⊎ ((align_up (div_ceil data_len shards) ≡ 2 ^ 64 - 64)
          × (2 ^ 64 - 64 < data_len)
          × (shards ≡ 1))
room_or_limit data_len shards p h =
    let k = div_ceil data_len shards in
    let small : k ≤ data_len =
      div_ceil-least data_len shards data_len p (le_mul data_len shards p) in
    elim ((align_up_lem k (omega arith)).3) [
      | inl room ↦
          inl (le_trans (le-div_ceil data_len shards p) (mul_le k (align_up k) shards room))
      | inr (limit, large) ↦ elim (dec_lt 1 shards) [
        | no n ↦ inr (limit, omega arith, omega arith)
        | yes more ↦
            let half =
              div_ceil-least data_len shards (2 ^ 63) p (two_halves data_len shards h more) in
            absurd (omega arith)
      ]
    ]

-- For a payload of at most `usize::MAX` bytes the computation returns a length, also for no data
-- shard, which counts as one. The length passes the validation and is at most `usize::MAX`; every
-- length that passes the validation and with which the shards hold the payload is at least as
-- long; and with it the shards hold the payload, unless it goes to one shard and is longer than
-- 2^64 - 64 bytes, where the length is 2^64 - 64.
pub leopard_aligned_shard_len-IsLeast :
    (data_len data_shards : ℕ)
    → data_len ≤ usize_max
    → Returns (leopard_aligned_shard_len data_len data_shards) (λ len.
      (validate_leopard_shard_len len ≡ ok tt)
      × (len ≤ usize_max)
      × ((n : ℕ)
          → validate_leopard_shard_len n ≡ ok tt
          → data_len ≤ n * max data_shards 1
          → len ≤ n)
      × ((data_len ≤ len * max data_shards 1)
          ⊎ ((len ≡ 2 ^ 64 - 64) × (2 ^ 64 - 64 < data_len) × (max data_shards 1 ≡ 1))))
unfolding leopard_aligned_shard_len
leopard_aligned_shard_len-IsLeast data_len data_shards h =
    let shards = max data_shards 1 in
    let k = div_ceil data_len shards in
    let p : 0 < shards = omega arith in
    let small : k ≤ data_len =
      div_ceil-least data_len shards data_len p (le_mul data_len shards p) in
    let aligned = align_up_lem k (omega arith) in
    (
      align_up k,
      rw (shards_max data_shards, ne→== shards 0 (omega arith)) refl,
      (
        (validate_leopard_shard_len_iff (align_up k)).0 (aligned.0, aligned.1),
        aligned.2,
        λ n valid room.
            let (multiple, positive) = (validate_leopard_shard_len_iff n).1 valid in
            align_up-least k n multiple positive (div_ceil-least data_len shards n p room),
        room_or_limit data_len shards p h,
      ),
    )
