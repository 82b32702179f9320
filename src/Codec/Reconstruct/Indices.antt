-- ===== src/Codec/Reconstruct/Indices.antt =====
-- The lists of indices that `reconstruct_internal` of src/core/reconstruct.rs collects are rising; how
-- its tests on them split such a list, and what the writes at such indices leave.
use reed_solomon_erasure.Base.{
  ℕ, zero, suc, ◌<◌, ◌≤◌, ◌≡◌, refl, sym, ◌∙◌, ap, subst, arith, List, [], ◌∷◌, length, get_or,
  set as list_set, length-set, get_or-set, ltb, lt→ltb, le→ltb, ==_refl, ne→==, if◌then◌else◌, ◌⊎◌,
  inl, inr, some,
}
use native.Mathlib.Decide.{ℕ_discrete, dec_lt}
use reed_solomon_erasure.Codec.Slots.{ReconstructShard}
use reed_solomon_erasure.Codec.Decode.{take_while}
use reed_solomon_erasure.Codec.Reconstruct.{skip_while, write_back}

-- The numbers rise, from `lo` on and below `hi`.
abbrev pub IsRising : ℕ → ℕ → List ℕ → Type 0
IsRising lo hi [] = Unit {0}
IsRising lo hi (i ∷ is) = (lo ≤ i) × (i < hi) × IsRising (suc i) hi is

abbrev pub IsAmong : ℕ → List ℕ → Type 0
IsAmong r [] = ⊥
IsAmong r (i ∷ is) = (i ≡ r) ⊎ IsAmong r is

pub IsRising-from :
    (lo lo' hi : ℕ) (is : List ℕ) → lo ≤ lo' → IsRising lo' hi is → IsRising lo hi is
IsRising-from lo lo' hi [] p rising = tt
IsRising-from lo lo' hi (i ∷ is) p (a, b, rest) = (omega arith, b, rest)

pub IsRising-get_or :
    (lo hi : ℕ) (is : List ℕ) (t : ℕ)
    → IsRising lo hi is
    → t < length is
    → (lo ≤ get_or is t 0) × (get_or is t 0 < hi)
IsRising-get_or lo hi [] t rising p = absurd (omega arith)
IsRising-get_or lo hi (i ∷ is) zero (a, b, rest) p = (a, b)
IsRising-get_or lo hi (i ∷ is) (suc t) (a, b, rest) p =
    let (c, e) = IsRising-get_or (suc i) hi is t rest (omega arith) in (omega arith, e)

pub IsRising-distinct :
    (lo hi : ℕ) (is : List ℕ) (s t : ℕ)
    → IsRising lo hi is
    → s < length is
    → t < length is
    → get_or is s 0 ≡ get_or is t 0
    → s ≡ t
IsRising-distinct lo hi [] s t rising p q e = absurd (omega arith)
IsRising-distinct lo hi (i ∷ is) zero zero rising p q e = refl
IsRising-distinct lo hi (i ∷ is) zero (suc t) (a, b, rest) p q e =
    absurd (omega (arith, IsRising-get_or (suc i) hi is t rest (omega arith)))
IsRising-distinct lo hi (i ∷ is) (suc s) zero (a, b, rest) p q e =
    absurd (omega (arith, IsRising-get_or (suc i) hi is s rest (omega arith)))
IsRising-distinct lo hi (i ∷ is) (suc s) (suc t) (a, b, rest) p q e =
    ap suc (IsRising-distinct (suc i) hi is s t rest (omega arith) (omega arith) e)

pub IsAmong-bounds :
    (lo hi r : ℕ) (is : List ℕ) → IsRising lo hi is → IsAmong r is → (lo ≤ r) × (r < hi)
IsAmong-bounds lo hi r [] rising among = absurd among
IsAmong-bounds lo hi r (i ∷ is) (a, b, rest) (inl e) = (omega arith, omega arith)
IsAmong-bounds lo hi r (i ∷ is) (a, b, rest) (inr among) =
    let (c, e) = IsAmong-bounds (suc i) hi r is rest among in (omega arith, e)

module _ (d : ℕ) where
  abbrev pub below : List ℕ → List ℕ
  below is = take_while (λ i. ltb i d) is

  abbrev pub from : List ℕ → List ℕ
  from is = skip_while (λ i. ltb i d) is

  pub below-none : (lo hi : ℕ) (is : List ℕ) → d ≤ lo → IsRising lo hi is → below is ≡ []
  unfolding take_while
  below-none lo hi [] p rising = refl
  below-none lo hi (i ∷ is) p (a, b, rest) = rw (le→ltb i d (omega arith)) refl

  pub below-all : (lo hi : ℕ) (is : List ℕ) → hi ≤ d → IsRising lo hi is → below is ≡ is
  unfolding take_while
  below-all lo hi [] p rising = refl
  below-all lo hi (i ∷ is) p (a, b, rest) =
      rw (lt→ltb i d (omega arith)) (ap (◌∷◌ i) (below-all (suc i) hi is p rest))

  pub from-all : (lo hi : ℕ) (is : List ℕ) → d ≤ lo → IsRising lo hi is → from is ≡ is
  unfolding skip_while
  from-all lo hi [] p rising = refl
  from-all lo hi (i ∷ is) p (a, b, rest) = rw (le→ltb i d (omega arith)) refl

  pub below-IsRising : (lo hi : ℕ) (is : List ℕ) → IsRising lo hi is → IsRising lo d (below is)
  unfolding take_while
  below-IsRising lo hi [] rising = tt
  below-IsRising lo hi (i ∷ is) (a, b, rest) = elim (dec_lt i d) [
    | yes p ↦ rw (lt→ltb i d p) (a, p, below-IsRising (suc i) hi is rest)
    | no p ↦ rw (le→ltb i d (omega arith)) tt
  ]

  pub from-IsRising : (lo hi : ℕ) (is : List ℕ) → IsRising lo hi is → IsRising d hi (from is)
  unfolding skip_while
  from-IsRising lo hi [] rising = tt
  from-IsRising lo hi (i ∷ is) (a, b, rest) = elim (dec_lt i d) [
    | yes p ↦ rw (lt→ltb i d p) (from-IsRising (suc i) hi is rest)
    | no p ↦ rw (le→ltb i d (omega arith)) (omega arith, b, rest)
  ]

  pub IsAmong-below :
      (lo hi r : ℕ) (is : List ℕ) → IsRising lo hi is → r < d → IsAmong r is → IsAmong r (below is)
  unfolding take_while
  IsAmong-below lo hi r [] rising p among = among
  IsAmong-below lo hi r (i ∷ is) (a, b, rest) p (inl e) = rw (lt→ltb i d (omega arith)) (inl e)
  IsAmong-below lo hi r (i ∷ is) (a, b, rest) p (inr among) =
      let (c, e) = IsAmong-bounds (suc i) hi r is rest among in
      rw (lt→ltb i d (omega arith)) (inr (IsAmong-below (suc i) hi r is rest p among))

  pub IsAmong-from :
      (lo hi r : ℕ) (is : List ℕ) → IsRising lo hi is → d ≤ r → IsAmong r is → IsAmong r (from is)
  unfolding skip_while
  IsAmong-from lo hi r [] rising p among = among
  IsAmong-from lo hi r (i ∷ is) (a, b, rest) p among = elim (dec_lt i d) [
    | yes q ↦ rw (lt→ltb i d q) (IsAmong-from (suc i) hi r is rest p (later q among))
    | no q ↦ rw (le→ltb i d (omega arith)) among
  ]
    where
      later : i < d → (i ≡ r) ⊎ IsAmong r is → IsAmong r is
      later q (inl e) = absurd (omega arith)
      later q (inr among) = among

  pub below-IsAmong : (r : ℕ) (is : List ℕ) → IsAmong r (below is) → IsAmong r is
  unfolding take_while
  below-IsAmong r [] among = among
  below-IsAmong r (i ∷ is) among = elim (dec_lt i d) [
    | yes p ↦
        let found : (i ≡ r) ⊎ IsAmong r (below is) =
          subst (λ b. IsAmong r (if b then i ∷ below is else [])) (lt→ltb i d p) among in
        elim found [ inl e ↦ inl e | inr more ↦ inr (below-IsAmong r is more) ]
    | no p ↦
        absurd
          (subst (λ b. IsAmong r (if b then i ∷ below is else [])) (le→ltb i d (omega arith)) among)
  ]

  pub from-IsAmong : (r : ℕ) (is : List ℕ) → IsAmong r (from is) → IsAmong r is
  unfolding skip_while
  from-IsAmong r [] among = among
  from-IsAmong r (i ∷ is) among = elim (dec_lt i d) [
    | yes p ↦ inr (
        from-IsAmong r is
          (subst (λ b. IsAmong r (if b then from is else i ∷ is)) (lt→ltb i d p) among))
    | no p ↦ subst (λ b. IsAmong r (if b then from is else i ∷ is)) (le→ltb i d (omega arith)) among
  ]

module _ {ℓ κ} {A : Type ℓ} {S : Type κ} (R : ReconstructShard A S) where
  -- A write to the shard's buffer is what the shard then holds.
  abbrev pub IsWritable : S → Type ℓ
  IsWritable s = (x : List A) → R.get_data (R.put s x) ≡ some x

  pub write_back-other :
      (is : List ℕ) (buffers : List (List A)) (slots : List S) (r : ℕ) (d : S)
      → (IsAmong r is → ⊥)
      → get_or (write_back R is buffers slots) r d ≡ get_or slots r d
  unfolding write_back
  write_back-other [] buffers slots r d out = refl
  write_back-other (i ∷ is) [] slots r d out = refl
  write_back-other (i ∷ is) (b ∷ buffers) [] r d out = refl
  write_back-other (i ∷ is) (b ∷ buffers) (s ∷ slots) r d out =
      write_back-other is buffers _ r d (λ among. out (inr among))
      ∙ get_or-set_other (s ∷ slots) i r _ d (λ e. out (inl e))
    where
      get_or-set_other :
          (xs : List S) (i j : ℕ) (v d : S)
          → ¬ (i ≡ j)
          → get_or (list_set xs i v) j d ≡ get_or xs j d
      get_or-set_other [] i j v d h = refl
      get_or-set_other (x ∷ xs) zero zero v d h = absurd (h refl)
      get_or-set_other (x ∷ xs) zero (suc j) v d h = refl
      get_or-set_other (x ∷ xs) (suc i) zero v d h = refl
      get_or-set_other (x ∷ xs) (suc i) (suc j) v d h =
          get_or-set_other xs i j v d (λ e. h (ap suc e))

  pub length-write_back :
      (is : List ℕ) (buffers : List (List A)) (slots : List S)
      → length (write_back R is buffers slots) ≡ length slots
  unfolding write_back
  length-write_back [] buffers slots = refl
  length-write_back (i ∷ is) [] slots = refl
  length-write_back (i ∷ is) (b ∷ buffers) [] = refl
  length-write_back (i ∷ is) (b ∷ buffers) (s ∷ slots) =
      length-write_back is buffers _ ∙ length-set (s ∷ slots) i _

  -- A shard at one of the rising indices holds the buffer of its index.
  pub write_back-among :
      (lo hi : ℕ) (is : List ℕ) (buffers : List (List A)) (slots : List S) (content : ℕ → List A)
      (r : ℕ) (d : S)
      → IsRising lo hi is
      → hi ≤ length slots
      → length buffers ≡ length is
      → ((t : ℕ) → t < length is → get_or buffers t [] ≡ content (get_or is t 0))
      → IsAmong r is
      → IsWritable (get_or slots r d)
      → R.get_data (get_or (write_back R is buffers slots) r d) ≡ some (content r)
  unfolding write_back
  write_back-among lo hi [] buffers slots content r d rising h e same among w = absurd among
  write_back-among lo hi (i ∷ is) [] slots content r d rising h e same among w =
      absurd (omega arith)
  write_back-among lo hi (i ∷ is) (b ∷ buffers) [] content r d (p, q, rest) h e same among w =
      absurd (omega arith)
  write_back-among lo hi (i ∷ is) (b ∷ buffers) (s ∷ slots) content r d (p, q, rest) h e same among
        w =
      let after = list_set (s ∷ slots) i (R.put (get_or (s ∷ slots) i s) b) in
      elim (ℕ_discrete i r) [
        | yes now ↦
            let holds : get_or after r d ≡ R.put (get_or (s ∷ slots) i s) b =
              get_or-set (s ∷ slots) i r _ d (omega arith) ∙ rw (now, ==_refl r) refl in
            ap R.get_data (
              write_back-other is buffers after r d
                (λ more. absurd (omega (arith, IsAmong-bounds (suc i) hi r is rest more))))
            ∙ (ap R.get_data holds
                ∙ (ap (λ k. R.get_data (R.put k b))
                      (in_range (s ∷ slots) i s d (omega arith)
                        ∙ ap (λ k. get_or (s ∷ slots) k d) now)
                    ∙ (w b ∙ ap some (same 0 (omega arith) ∙ ap content now))))
        | no later ↦
            write_back-among (suc i) hi is buffers after content r d rest
              (omega (arith, length-set (s ∷ slots) i (R.put (get_or (s ∷ slots) i s) b)))
              (omega arith) (λ t u. same (suc t) (omega arith))
              (elim among [ inl now ↦ absurd (later now) | inr more ↦ more ])
              (subst IsWritable
                (sym (get_or-set (s ∷ slots) i r _ d (omega arith) ∙ rw (ne→== i r later) refl)) w)
      ]
    where
      in_range : (xs : List S) (i : ℕ) (a b : S) → i < length xs → get_or xs i a ≡ get_or xs i b
      in_range [] i a b p = absurd (omega arith)
      in_range (x ∷ xs) zero a b p = refl
      in_range (x ∷ xs) (suc i) a b p = in_range xs i a b (omega arith)
