-- ===== src/Codec/Reconstruct/Gather.antt =====
-- Two more loops of `reconstruct_internal` in src/core/reconstruct.rs: the count of the present shards,
-- and the choice of all data shards in order from the present and the restored ones.
use reed_solomon_erasure.Base.{
  ℕ, zero, suc, ◌+◌, ◌-◌, ◌<◌, ◌≤◌, ◌≡◌, refl, ◌∙◌, ap, arith, false, List, [], ◌∷◌, ◌++◌, length,
  get_or, take, drop, length-append, get_or-append_left, get_or-append_right, ==_refl, ne→==,
  Option, none, some, ok, ◌⊎◌, inl, inr,
}
use native.Mathlib.Decide.{dec_lt}
use reed_solomon_erasure.Codec.Slots.{ReconstructShard}
use reed_solomon_erasure.Codec.Coding.{slice}
use reed_solomon_erasure.Codec.Coding.Slices.{slice_ok, length-slice, get_or-slice}
use reed_solomon_erasure.Codec.Coding.Chunks.{Returns}
use reed_solomon_erasure.Codec.Reconstruct.{count_present, differs, all_data_slices}
use reed_solomon_erasure.Codec.Reconstruct.Indices.{IsRising}
use reed_solomon_erasure.Codec.Reconstruct.Sorting.{IsDamaged, end, kept, lost, IsRun, HasGaps}

module _ {ℓ κ} {A : Type ℓ} {S : Type κ} (R : ReconstructShard A S) (len : ℕ) (content : ℕ → List A)
    (some_len : 0 < len) where
  -- The count of the present shards succeeds, and finds their length if there are any.
  pub count_present-IsDamaged :
      (row n k : ℕ) (old : Option ℕ) (shards : List S)
      → (old ≡ none) ⊎ (old ≡ some len)
      → (0 < k → old ≡ some len)
      → IsDamaged R len content row n shards
      → (found : Option ℕ) × (count_present R k old shards ≡ ok (k + n, found))
        × (0 < k + n → found ≡ some len)
  unfolding count_present
  count_present-IsDamaged row n k old [] seen known end =
      (old, ap (λ m. ok (m, old)) (omega arith), (λ p. known (omega arith)))
  count_present-IsDamaged row n k old (s ∷ shards) seen known (kept {n = m} a rest) =
      let (found, run, size) =
        count_present-IsDamaged (suc row) m (suc k) (some len) shards (inr refl) (λ p. refl) rest in
      (
        found,
        rw (a.size, ne→== len 0 (omega arith), agrees seen, run, count_present)
            (ap (λ m. ok (m, found)) (omega arith)),
        (λ p. size (omega arith)),
      )
    where
      agrees : (old ≡ none) ⊎ (old ≡ some len) → differs R old len ≡ false
      agrees (inl e) = rw e refl
      agrees (inr e) = rw (e, ==_refl len) refl
  count_present-IsDamaged row n k old (s ∷ shards) seen known (lost g rest) =
      let (found, run, size) = count_present-IsDamaged (suc row) n k old shards seen known rest in
      (found, rw (g.size, count_present) run, size)

module _ {ℓ} {A : Type ℓ} (content : ℕ → List A) (sub : List (List A)) where
  -- The buffers of one run.
  run_slice :
      (next old i : ℕ)
      → next ≤ i
      → old ≤ length sub
      → IsRun content sub next old i
      → (old + (i - next) ≤ length sub)
        × Returns (slice sub old (old + (i - next))) (λ good.
          (length good ≡ i - next)
          × ((k : ℕ) → next + k < i → get_or good k [] ≡ content (next + k)))
  run_slice next old i p q run =
      let stop : old + (i - next) ≤ length sub = elim (dec_lt next i) [
        | yes more ↦ omega (arith, (run (i - suc next) (omega arith)).0)
        | no none_left ↦ omega arith
      ] in
      let same : old + (i - next) - old ≡ i - next = omega arith in
      (
        stop,
        (
          take (old + (i - next) - old) (drop old sub),
          slice_ok sub old (old + (i - next)) (omega arith) stop,
          (
            length-slice sub old (old + (i - next)) (omega arith) stop ∙ same,
            (λ k u.
                ap (λ j. get_or (take (old + (i - next) - old) (drop old sub)) j [])
                  (let e : k ≡ old + k - old = omega arith in e)
                ∙ (get_or-slice sub old (old + (i - next)) (old + k) [] (omega arith) (omega arith)
                    ∙ (run k u).1)),
          ),
        ),
      )

  -- The present data shards and the restored ones, merged, are all data shards in order.
  pub all_data_slices_lem :
      (d next old : ℕ) (missing : List ℕ) (new_data : List (List A))
      → next ≤ d
      → old ≤ length sub
      → IsRising next d missing
      → HasGaps content d sub next old missing
      → length new_data ≡ length missing
      → ((t : ℕ) → t < length missing → get_or new_data t [] ≡ content (get_or missing t 0))
      → Returns (all_data_slices d sub next old missing new_data) (λ all.
        (length all ≡ d - next) × ((k : ℕ) → next + k < d → get_or all k [] ≡ content (next + k)))
  unfolding all_data_slices
  all_data_slices_lem d next old [] new_data p q rising run e same =
      (run_slice next old d p q run).1
  all_data_slices_lem d next old (i ∷ missing) [] p q rising gaps e same = absurd (omega arith)
  all_data_slices_lem d next old (i ∷ missing) (b ∷ new_data) p q (a, c, rising) (run, gaps) e
        same =
      let (stop, (good, sliced, (count, cells))) = run_slice next old i a q run in
      let (rest, returned, (more, later)) =
        all_data_slices_lem d (suc i) (old + (i - next)) missing new_data (omega arith) stop rising
          gaps (omega arith) (λ t u. same (suc t) (omega arith)) in
      (
        good ++ (b ∷ rest),
        rw (sliced, returned) refl,
        (
          omega (arith, length-append good (b ∷ rest)),
          (λ k u. elim (dec_lt (next + k) i) [
            | yes before ↦ get_or-append_left good (b ∷ rest) k [] (omega arith) ∙ cells k before
            | no after ↦
                get_or-append_right good (b ∷ rest) k [] (omega arith)
                ∙ merged rest later k (k - length good) u (omega arith)
          ]),
        ),
      )
    where
      merged :
          (rest : List (List A))
          → ((k : ℕ) → suc i + k < d → get_or rest k [] ≡ content (suc i + k))
          → (k j : ℕ) → next + k < d
          → i + j ≡ next + k
          → get_or (b ∷ rest) j [] ≡ content (next + k)
      merged rest later k zero u v = same 0 (omega arith) ∙ ap content (omega arith)
      merged rest later k (suc j) u v = later j (omega arith) ∙ ap content (omega arith)
