-- ===== src/Codec/Reconstruct/Sorting.antt =====
-- What the loop over the shards of `reconstruct_internal` in src/core/reconstruct.rs collects from the
-- shards of a codeword of which some are lost.
use reed_solomon_erasure.Base.{
  ℕ, zero, suc, ◌+◌, ◌-◌, ◌<◌, ◌≤◌, ◌≡◌, ◌∙◌, ap, subst, arith, List, [], ◌∷◌, length, get_or, some,
  none,
}
use reed_solomon_erasure.Codec.Slots.{ReconstructShard, ready, fresh}
use reed_solomon_erasure.Codec.Reconstruct.Indices.{IsRising, IsWritable}

module _ {ℓ κ} {A : Type ℓ} {S : Type κ} (R : ReconstructShard A S) where
  -- A shard that is present, with the elements `x`.
  pub record IsKept (len : ℕ) (x : List A) (s : S) : Type (ℓ ⊔ κ) where
    pub size : R.len s ≡ some len
    pub held : R.get_data s ≡ some x
    pub init : R.get_or_initialize len s ≡ ready x

  -- A shard that is missing, and that can be initialised and then filled.
  pub record IsLost (len : ℕ) (s : S) : Type (ℓ ⊔ κ) where
    pub size : R.len s ≡ none
    pub held : R.get_data s ≡ none
    pub buffer : List A
    pub begun : S
    pub init : R.get_or_initialize len s ≡ fresh buffer begun
    pub width : length buffer ≡ len
    pub writable : IsWritable R begun

  module _ (len : ℕ) (content : ℕ → List A) where
    -- The shards from row `row` on, of which the second number are kept and hold their rows of the
    -- codeword, and the others are lost.
    pub data IsDamaged : ℕ → ℕ → List S → Type (ℓ ⊔ κ) where
      end : {row : ℕ} → IsDamaged row 0 []
      kept :
          {row n : ℕ} {s : S} {shards : List S}
          → IsKept len (content row) s
          → IsDamaged (suc row) n shards
          → IsDamaged row (suc n) (s ∷ shards)
      lost :
          {row n : ℕ} {s : S} {shards : List S}
          → IsLost len s
          → IsDamaged (suc row) n shards
          → IsDamaged row n (s ∷ shards)

module _ {ℓ} {A : Type ℓ} (content : ℕ → List A) where
  -- The buffers from `old` on are the rows from `next` up to `i`.
  abbrev pub IsRun : List (List A) → ℕ → ℕ → ℕ → Type ℓ
  IsRun sub next old i =
      (k : ℕ)
      → next + k < i
      → (old + k < length sub) × (get_or sub (old + k) [] ≡ content (next + k))

  -- The buffers are the rows from `next` up to `d` without the missing ones.
  abbrev pub HasGaps : ℕ → List (List A) → ℕ → ℕ → List ℕ → Type ℓ
  HasGaps d sub next old [] = IsRun sub next old d
  HasGaps d sub next old (i ∷ is) =
      IsRun sub next old i × HasGaps d sub (suc i) (old + (i - next)) is

  cons-IsRun :
      (sub : List (List A)) (row i : ℕ)
      → IsRun sub (suc row) 0 i
      → IsRun (content row ∷ sub) row 0 i
  cons-IsRun sub row i run zero p = (omega arith, ap content (omega arith))
  cons-IsRun sub row i run (suc k) p =
      let (inside, same) = run k (omega arith) in
      (
        omega arith,
        subst (λ j. get_or (content row ∷ sub) j [] ≡ content (row + suc k))
            (let e : suc (0 + k) ≡ 0 + suc k = omega arith in e) (same ∙ ap content (omega arith)),
      )

  later-IsRun :
      (x : List A) (sub : List (List A)) (next old i : ℕ)
      → IsRun sub next old i
      → IsRun (x ∷ sub) next (suc old) i
  later-IsRun x sub next old i run k p =
      let (inside, same) = run k p in
      (
        omega arith,
        subst (λ j. get_or (x ∷ sub) j [] ≡ content (next + k))
            (let e : suc (old + k) ≡ suc old + k = omega arith in e) same,
      )

  later-HasGaps :
      (d : ℕ) (x : List A) (sub : List (List A)) (next old : ℕ) (is : List ℕ)
      → HasGaps d sub next old is
      → HasGaps d (x ∷ sub) next (suc old) is
  later-HasGaps d x sub next old [] run = later-IsRun x sub next old d run
  later-HasGaps d x sub next old (i ∷ is) (run, rest) = (
    later-IsRun x sub next old i run,
    subst (λ o. HasGaps d (x ∷ sub) (suc i) o is)
        (let e : suc (old + (i - next)) ≡ suc old + (i - next) = omega arith in e)
        (later-HasGaps d x sub (suc i) (old + (i - next)) is rest),
  )

  pub cons-HasGaps :
      (d : ℕ) (sub : List (List A)) (row hi : ℕ) (is : List ℕ)
      → IsRising (suc row) hi is
      → HasGaps d sub (suc row) 0 is
      → HasGaps d (content row ∷ sub) row 0 is
  cons-HasGaps d sub row hi [] rising run = cons-IsRun sub row d run
  cons-HasGaps d sub row hi (i ∷ is) (p, q, rising) (run, rest) = (
    cons-IsRun sub row i run,
    subst (λ o. HasGaps d (content row ∷ sub) (suc i) o is)
        (let e : suc (0 + (i - suc row)) ≡ 0 + (i - row) = omega arith in e)
        (later-HasGaps d (content row) sub (suc i) (0 + (i - suc row)) is rest),
  )

  pub lost-HasGaps :
      (d : ℕ) (sub : List (List A)) (row : ℕ) (is : List ℕ)
      → HasGaps d sub (suc row) 0 is
      → HasGaps d sub row 0 (row ∷ is)
  lost-HasGaps d sub row is rest = (
    (λ k p. absurd (omega arith)),
    subst (λ o. HasGaps d sub (suc row) o is) (let e : 0 ≡ 0 + (row - row) = omega arith in e) rest,
  )

  pub done-HasGaps : (d : ℕ) (sub : List (List A)) (row : ℕ) → d ≤ row → HasGaps d sub row 0 []
  done-HasGaps d sub row p k q = absurd (omega arith)
