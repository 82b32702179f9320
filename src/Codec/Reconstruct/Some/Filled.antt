-- ===== src/Codec/Reconstruct/Some/Filled.antt =====
-- The two loops of `reconstruct_some` in src/core/reconstruct.rs that gather the valid shards and
-- initialise the required ones.
use reed_solomon_erasure.Base.{
  ℕ, zero, suc, ◌<◌, ◌≤◌, ◌≡◌, refl, sym, ◌∙◌, ap, subst, arith, List, [], ◌∷◌, length, get_or,
  get_elem?-get_or, set as list_set, length-set, get_or-set, ==_refl, ne→==, inl, inr, some, ok,
}
use native.Mathlib.Decide.{ℕ_discrete}
use reed_solomon_erasure.Codec.Slots.{ReconstructShard}
use reed_solomon_erasure.Codec.Coding.Chunks.{Returns}
use reed_solomon_erasure.Codec.Reconstruct.Indices.{IsRising, IsAmong, IsAmong-bounds, IsWritable}
use reed_solomon_erasure.Codec.Reconstruct.Sorting.{IsLost}
use reed_solomon_erasure.Codec.Reconstruct.Collected.{HaveWidth, cons-HaveWidth}
use reed_solomon_erasure.Codec.Reconstruct.Some.{present_shards, init_outputs}

module _ {ℓ κ} {A : Type ℓ} {S : Type κ} (R : ReconstructShard A S) (default : S) where
  -- The buffers at indices of present shards.
  pub present_shards_lem :
      (content : ℕ → List A) (shards : List S) (is : List ℕ)
      → ((r : ℕ)
          → IsAmong r is
          → (r < length shards) × (R.get_data (get_or shards r default) ≡ some (content r)))
      → Returns (present_shards R shards is) (λ xs.
        (length xs ≡ length is)
        × ((t : ℕ) → t < length is → get_or xs t [] ≡ content (get_or is t 0)))
  unfolding present_shards
  present_shards_lem content shards [] h = ([], refl, (refl, λ t p. absurd (omega arith)))
  present_shards_lem content shards (i ∷ is) h =
      let (inside, held) = h i (inl refl) in
      let (xs, run, (count, cells)) = present_shards_lem content shards is (λ r p. h r (inr p)) in
      (
        content i ∷ xs,
        rw (get_elem?-get_or shards i default inside, held, run) refl,
        (ap suc count, first xs cells),
      )
    where
      first :
          (xs : List (List A))
          → ((t : ℕ) → t < length is → get_or xs t [] ≡ content (get_or is t 0))
          → (t : ℕ) → t < suc (length is)
          → get_or (content i ∷ xs) t [] ≡ content (get_or (i ∷ is) t 0)
      first xs cells zero p = refl
      first xs cells (suc t) p = cells t (omega arith)

  -- What the initialisation leaves.
  pub record IsBegun (len : ℕ) (is : List ℕ) (shards slots : List S) (outputs : List (List A))
      : Type (ℓ ⊔ κ) where
    pub slot_count : length slots ≡ length shards
    pub count : length outputs ≡ length is
    pub width : HaveWidth len outputs
    pub writable : (r : ℕ) → IsAmong r is → IsWritable R (get_or slots r default)
    pub others : (r : ℕ) → (IsAmong r is → ⊥) → get_or slots r default ≡ get_or shards r default

  pub init_outputs-IsBegun :
      (len lo hi : ℕ) (is : List ℕ) (shards : List S)
      → IsRising lo hi is
      → hi ≤ length shards
      → ((r : ℕ) → IsAmong r is → IsLost R len (get_or shards r default))
      → (slots : List S) × (outputs : List (List A)) × (init_outputs R len is shards
          ≡ (slots, ok outputs))
        × IsBegun len is shards slots outputs
  unfolding init_outputs
  init_outputs-IsBegun len lo hi [] shards rising fits lost = (
    shards,
    [],
    refl,
    record {
      slot_count = refl;
      count = refl;
      width = λ t p. absurd (omega arith);
      writable = λ r among. absurd among;
      others = λ r out. refl;
    },
  )
  init_outputs-IsBegun len lo hi (i ∷ is) shards (p, q, rising) fits lost =
      let g = lost i (inl refl) in
      let after = list_set shards i g.begun in
      let same : (r : ℕ) → ¬ (i ≡ r) → get_or after r default ≡ get_or shards r default =
        λ r ne. get_or-set shards i r g.begun default (omega arith) ∙ rw (ne→== i r ne) refl in
      let (slots, outputs, run, b) =
        init_outputs-IsBegun len (suc i) hi is after rising
          (omega (arith, length-set shards i g.begun))
          (λ r among.
            let bounds = IsAmong-bounds (suc i) hi r is rising among in
            subst (IsLost R len) (sym (same r (omega (arith, bounds)))) (lost r (inr among))) in
      (
        slots,
        g.buffer ∷ outputs,
        rw (get_elem?-get_or shards i default (omega arith), g.init, run, init_outputs) refl,
        record {
          slot_count = b.slot_count ∙ length-set shards i g.begun;
          count = ap suc b.count;
          width = cons-HaveWidth len g.buffer outputs g.width b.width;
          writable = λ r among. elim (ℕ_discrete i r) [
            | yes now ↦
                subst (IsWritable R)
                  (sym (
                    b.others r
                      (λ more. absurd (omega (arith, IsAmong-bounds (suc i) hi r is rising more)))
                    ∙ (get_or-set shards i r g.begun default (omega arith)
                        ∙ rw (now, ==_refl r) refl)))
                  g.writable
            | no other ↦
                b.writable r (elim among [ inl now ↦ absurd (other now) | inr more ↦ more ])
          ];
          others = λ r out. b.others r (λ among. out (inr among)) ∙ same r (λ e. out (inl e));
        },
      )
