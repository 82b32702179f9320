-- ===== src/Tests/Recovered.antt =====
-- The theorems on construction, reconstruction, update and splitting, each at a concrete input.
use reed_solomon_erasure.Base.{
  ℕ, zero, suc, ◌+◌, ◌<◌, ◌≡◌, refl, arith, Bool, true, false, List, [], ◌∷◌, length, get_or, map,
  none, some, Option, ok, err, inl,
}
use reed_solomon_erasure.Errors
use reed_solomon_erasure.Errors.{returned, too_few_data_shards}
use reed_solomon_erasure.Field.Sum.{sum}
use reed_solomon_erasure.Matrix.{Matrix, get, invert}
use reed_solomon_erasure.Matrix.Fill.{delta}
use reed_solomon_erasure.Matrix.Regular.{IsRegular, invert_total}
use reed_solomon_erasure.Codec.Blocks.{IsBlock, cell}
use reed_solomon_erasure.Codec.State.{fast_one_parity_enabled}
use reed_solomon_erasure.Codec.Family.{div_ceil}
use reed_solomon_erasure.Codec.CodingMatrix.{build_matrix}
use reed_solomon_erasure.Codec.CodingMatrix.Mds.{build_matrix_total, build_matrix-IsRegular}
use reed_solomon_erasure.Codec.Build.{new as new_codec}
use reed_solomon_erasure.Codec.Build.Constructed.{IsMds, new_total, new_error}
use reed_solomon_erasure.Codec.Coding.Chunks.{Returns}
use reed_solomon_erasure.Codec.Encode.Product.{IsClassic}
use reed_solomon_erasure.Codec.Decode.{get_data_decode_matrix}
use reed_solomon_erasure.Codec.Slots.{option_shard}
use reed_solomon_erasure.Codec.Split.{split, join}
use reed_solomon_erasure.Codec.Split.RoundTrip.{join-split}
use reed_solomon_erasure.Codec.Update.{update}
use reed_solomon_erasure.Codec.Update.Product.{replaced}
use reed_solomon_erasure.Codec.Update.Reencode.{update-IsBlock}
use reed_solomon_erasure.Codec.Reconstruct.{reconstruct_internal, sort_shards}
use reed_solomon_erasure.Codec.Reconstruct.Sorting.{IsDamaged, IsLost, lost, end}
use reed_solomon_erasure.Codec.Reconstruct.Collected.{IsCollected, sort_shards-IsCollected}
use reed_solomon_erasure.Codec.Reconstruct.Stages.{get_data_decode_matrix_total}
use reed_solomon_erasure.Codec.Reconstruct.Correct.{reconstruct_internal-IsRestored}
use reed_solomon_erasure.Codec.Reconstruct.Written.{IsRestored}
use reed_solomon_erasure.Codec.Reconstruct.Calls.{reconstruct, reconstruct_data}
use reed_solomon_erasure.Codec.Reconstruct.Erasure.{
  erase, erase-IsDamaged, reconstruct-encode, reconstruct_data-encode,
}
use reed_solomon_erasure.Codec.Reconstruct.Some.{reconstruct_some}
use reed_solomon_erasure.Codec.Reconstruct.Some.Required.{IsRecovered, reconstruct_some-IsRecovered}
use reed_solomon_erasure.Codec.Reconstruct.Refusal.{reconstruct_internal-too_few}
use reed_solomon_erasure.Tests.Gf2.{gf2, gf2-FieldLaws}
use reed_solomon_erasure.Tests.Samples.{
  codec, codec-IsClassic, no_leopard, inputs, parity, inputs-IsBlock, IsBlock-of, swap_matrix,
  unit_square, unit_square_built,
}
use reed_solomon_erasure.Tests.Mirror.{
  mirror, mirror_built, mirror_slices, mirrored, mirror_encoded, mirror_slices-IsBlock,
  no_reconstructors, mirror_facts,
}

reconstruct-encode_example :
    reconstruct option_shard no_reconstructors mirror
      (λ _. none)
      (erase (false ∷ true ∷ []) mirrored)
    ≡ (map some mirrored, ok tt)
unfolding gf2
reconstruct-encode_example =
    reconstruct-encode gf2-FieldLaws false no_leopard no_reconstructors 1 1 2 mirror
      (cell mirror_slices) mirror_slices mirrored (false ∷ true ∷ []) (omega arith) (omega arith)
      (omega arith) (omega arith) mirror_built (omega arith) mirror_slices-IsBlock mirror_encoded
      refl (omega arith)

reconstruct_data-encode_example :
    (slots : List (Option (List Bool))) × (reconstruct_data option_shard no_reconstructors mirror
        (λ _. none)
        (erase (false ∷ true ∷ []) mirrored)
      ≡ (slots, ok tt))
    × (length slots ≡ 1 + 1)
    × ((r : ℕ) → r < 1 → get_or slots r none ≡ some (get_or mirrored r []))
unfolding gf2
reconstruct_data-encode_example =
    reconstruct_data-encode gf2-FieldLaws false no_leopard no_reconstructors 1 1 2 mirror
      (cell mirror_slices) mirror_slices mirrored (false ∷ true ∷ []) (omega arith) (omega arith)
      (omega arith) (omega arith) mirror_built (omega arith) mirror_slices-IsBlock mirror_encoded
      refl (omega arith)

mirrored-IsBlock :
    IsBlock 2 2 (λ r j. sum 1 (λ k. gf2.mul (get mirror.matrix r k) (cell mirrored k j))) mirrored
unfolding get sum gf2
mirrored-IsBlock = record { rows = refl; width = width; value_at = value_at }
  where
    width : (r : ℕ) → r < 2 → length (get_or mirrored r []) ≡ 2
    width zero p = refl
    width (suc zero) p = refl
    width (suc (suc r)) p = absurd (omega arith)

    value_at :
        (r j : ℕ)
        → r < 2
        → j < 2
        → cell mirrored r j ≡ sum 1 (λ k. gf2.mul (get mirror.matrix r k) (cell mirrored k j))
    value_at zero zero p q = refl
    value_at zero (suc zero) p q = refl
    value_at (suc zero) zero p q = refl
    value_at (suc zero) (suc zero) p q = refl
    value_at zero (suc (suc j)) p q = absurd (omega arith)
    value_at (suc zero) (suc (suc j)) p q = absurd (omega arith)
    value_at (suc (suc r)) j p q = absurd (omega arith)

-- The first shard lost, and both lost.
half_lost :
    IsDamaged option_shard 2 (λ r. get_or mirrored r []) 0 1 (erase (false ∷ true ∷ []) mirrored)
half_lost = erase-IsDamaged 2 (λ r. get_or mirrored r []) 0 (false ∷ true ∷ []) mirrored refl found
  where
    found :
        (i r : ℕ)
        → i < 2
        → 0 + i ≡ r
        → (get_or mirrored i [] ≡ get_or mirrored r []) × (length (get_or mirrored i []) ≡ 2)
    found zero zero p e = (refl, refl)
    found (suc zero) (suc zero) p e = (refl, refl)
    found zero (suc r) p e = absurd (omega arith)
    found (suc zero) zero p e = absurd (omega arith)
    found (suc zero) (suc (suc r)) p e = absurd (omega arith)
    found (suc (suc i)) r p e = absurd (omega arith)

all_lost : IsDamaged {A = Bool} option_shard 2 (λ r. []) 0 0 (none ∷ none ∷ [])
unfolding option_shard
all_lost = lost gone (lost gone end)
  where
    gone : IsLost {A = Bool} option_shard 2 none
    gone = record {
      size = refl;
      held = refl;
      buffer = false ∷ false ∷ [];
      begun = some (false ∷ false ∷ []);
      init = unfold gf2 in refl;
      width = refl;
      writable = λ y. refl;
    }

reconstruct_internal-IsRestored_example :
    (slots : List (Option (List Bool))) × (reconstruct_internal option_shard mirror
        (λ _. none)
        (erase (false ∷ true ∷ []) mirrored)
        false
      ≡ (slots, ok tt))
    × (length slots ≡ length (erase (false ∷ true ∷ []) mirrored))
    × IsRestored option_shard 1 (1 + 1) false mirrored slots
reconstruct_internal-IsRestored_example =
    reconstruct_internal-IsRestored gf2-FieldLaws mirror_facts.0 mirror_facts.3 mirror_facts.2
      option_shard (omega arith) (cell mirrored) mirrored mirrored-IsBlock (λ _. none) false 1
      (erase (false ∷ true ∷ []) mirrored) refl half_lost (omega arith) (λ entry e. cc)

sort_shards-IsCollected_example :
    IsCollected option_shard 2 2 1 false
      (λ r. get_or mirrored r [])
      0
      0
      1
      (erase (false ∷ true ∷ []) mirrored)
      (sort_shards option_shard 1 false 2 0 0 (erase (false ∷ true ∷ []) mirrored))
sort_shards-IsCollected_example =
    sort_shards-IsCollected option_shard 2 2 1 false (λ r. get_or mirrored r []) 0 0 1
      (erase (false ∷ true ∷ []) mirrored) (omega arith) refl (omega arith) (omega arith) half_lost

reconstruct_internal-too_few_example :
    reconstruct_internal option_shard mirror (λ _. none) (none ∷ none ∷ []) true
    ≡ (none ∷ none ∷ [], err (returned Errors.too_few_shards_present))
reconstruct_internal-too_few_example =
    reconstruct_internal-too_few {A = Bool} option_shard mirror (λ _. none) true (none ∷ none ∷ [])
      refl 2 (λ r. []) 0 (omega arith) (omega arith) all_lost (omega arith)

get_data_decode_matrix_total_example :
    (decode : Matrix Bool) × (get_data_decode_matrix mirror none (1 ∷ []) ≡ ok decode)
get_data_decode_matrix_total_example =
    get_data_decode_matrix_total gf2-FieldLaws mirror_facts.0 mirror_facts.3 none (1 ∷ [])
      (omega arith, omega arith, tt) refl

new_total_example : Returns (new_codec {A = Bool} false 1 1) (λ codec.
    IsClassic codec 1 1
    × (fast_one_parity_enabled codec ≡ false)
    × ((r c : ℕ) → r < 1 → c < 1 → get codec.matrix r c ≡ delta r c)
    × IsMds codec 1 1)
unfolding gf2
new_total_example =
    new_total gf2-FieldLaws false 1 1 (omega arith) (omega arith) (omega arith) (omega arith)

new_error_example : new_codec {A = Bool} false 0 1 ≡ err (returned too_few_data_shards)
new_error_example = new_error gf2-FieldLaws false 0 1 (inl refl)

build_matrix_total_example : (m : Matrix Bool) × (build_matrix 1 2 ≡ ok m)
unfolding gf2
build_matrix_total_example = build_matrix_total gf2-FieldLaws 1 2 (omega arith) (omega arith)

build_matrix-IsRegular_example : IsRegular 2 (λ r. get unit_square r)
unfolding gf2
build_matrix-IsRegular_example =
    build_matrix-IsRegular gf2-FieldLaws 2 2 unit_square (omega arith) (omega arith)
      unit_square_built (λ r. r) (λ i p. p) (λ i j p q e. e)

swap_matrix-IsRegular : IsRegular 2 (get swap_matrix)
unfolding get sum gf2
swap_matrix-IsRegular x zeros zero p = back (x 0) (zeros 1 (omega arith))
  where
    back : (a : Bool) → gf2.add a false ≡ false → a ≡ false
    back true h = h
    back false h = h
swap_matrix-IsRegular x zeros (suc zero) p = zeros 0 (omega arith)
swap_matrix-IsRegular x zeros (suc (suc c)) p = absurd (omega arith)

invert_total_example : (b : Matrix Bool) × (invert swap_matrix ≡ ok b)
invert_total_example =
    invert_total gf2-FieldLaws 2 swap_matrix
      (record { row_count = refl; col_count = refl; filled = refl }) swap_matrix-IsRegular

join-split_example : Returns (split codec (true ∷ false ∷ true ∷ [])) (λ shards.
    (length shards ≡ 2)
    × ((t : ℕ) → t < 2 → length (get_or shards t []) ≡ div_ceil 3 2)
    × (join codec shards 3 ≡ ok (true ∷ false ∷ true ∷ [])))
join-split_example = join-split codec (true ∷ false ∷ true ∷ []) (omega arith) (omega arith)

abbrev new_data : List (Option (List Bool))
new_data = none ∷ some (true ∷ true ∷ []) ∷ []

new_inputs-IsBlock : IsBlock 2 2 (cell (replaced inputs new_data)) (replaced inputs new_data)
new_inputs-IsBlock = IsBlock-of 2 (replaced inputs new_data) width
  where
    width : (r : ℕ) → r < 2 → length (get_or (replaced inputs new_data) r []) ≡ 2
    width zero p = refl
    width (suc zero) p = refl
    width (suc (suc r)) p = absurd (omega arith)

old_parity-IsBlock :
    IsBlock 1 2 (λ r j. sum 2 (λ k. gf2.mul (get codec.matrix (2 + r) k) (cell inputs k j))) parity
unfolding get sum gf2
old_parity-IsBlock = record { rows = refl; width = width; value_at = value_at }
  where
    width : (r : ℕ) → r < 1 → length (get_or parity r []) ≡ 2
    width zero p = refl
    width (suc r) p = absurd (omega arith)

    value_at :
        (r j : ℕ)
        → r < 1
        → j < 2
        → cell parity r j ≡ sum 2 (λ k. gf2.mul (get codec.matrix (2 + r) k) (cell inputs k j))
    value_at zero zero p q = refl
    value_at zero (suc zero) p q = refl
    value_at zero (suc (suc j)) p q = absurd (omega arith)
    value_at (suc r) j p q = absurd (omega arith)

update-IsBlock_example : Returns (update codec inputs new_data parity) (
    IsBlock 1 2 (λ r j.
      sum 2 (λ k. gf2.mul (get codec.matrix (2 + r) k) (cell (replaced inputs new_data) k j))))
unfolding fast_one_parity_enabled
update-IsBlock_example =
    update-IsBlock gf2-FieldLaws codec-IsClassic 2 (cell inputs) (cell (replaced inputs new_data))
      inputs new_data parity refl (omega arith) refl inputs-IsBlock new_inputs-IsBlock
      old_parity-IsBlock

reconstruct_some-IsRecovered_example :
    (slots : List (Option (List Bool))) × (reconstruct_some option_shard no_reconstructors
        no_reconstructors mirror
        (λ _. none)
        (erase (false ∷ true ∷ []) mirrored)
        (true ∷ false ∷ [])
      ≡ (slots, ok tt))
    × (length slots ≡ length (erase (false ∷ true ∷ []) mirrored))
    × IsRecovered option_shard none
        (erase (false ∷ true ∷ []) mirrored)
        mirrored
        (true ∷ false ∷ [])
        slots
reconstruct_some-IsRecovered_example =
    reconstruct_some-IsRecovered gf2-FieldLaws mirror_facts.0 mirror_facts.3 mirror_facts.2
      option_shard (omega arith) (cell mirrored) mirrored mirrored-IsBlock (λ _. none)
      no_reconstructors no_reconstructors none 1 (erase (false ∷ true ∷ []) mirrored) refl
      (omega arith) (true ∷ false ∷ []) half_lost refl first_only (λ entry e. cc)
  where
    first_only : (r : ℕ) → r < 2 → get_or (true ∷ false ∷ []) r false ≡ true → r < 1
    first_only zero p e = omega arith
    first_only (suc zero) p e = absurd (cc)
    first_only (suc (suc r)) p e = absurd (omega arith)
