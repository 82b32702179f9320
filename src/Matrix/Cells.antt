-- ===== src/Matrix/Cells.antt =====
-- Reading and writing single cells of src/matrix.rs, and the loops that write cells one after
-- another.
use native.Mathlib.Decide.{ℕ_discrete}
use reed_solomon_erasure.Base.{
  ℕ, zero, suc, ◌+◌, ◌-◌, ◌*◌, ◌<◌, ◌≤◌, ◌≡◌, ◌⊎◌, inl, inr, refl, sym, ◌∙◌, ap, subst, arith,
  ==_refl, ne→==, length, length-set, get_or-set, get_or-replicate, length-replicate, for_range,
  for_range_inv,
}
use reed_solomon_erasure.Field.{Field}
use reed_solomon_erasure.Matrix.{Matrix, get, set, new}

-- The vector has a cell for each row and column.
pub record HasShape {ℓ} {A : Type ℓ} (m : Matrix A) (rows cols : ℕ) : Type 0 where
  pub row_count : m.row_count ≡ rows
  pub col_count : m.col_count ≡ cols
  pub filled : length m.cells ≡ rows * cols

pub cell-lt : (r c rows cols : ℕ) → r < rows → c < cols → r * cols + c < rows * cols
cell-lt r c rows cols p q = grind arith

-- Two cells at one place of the vector are one cell.
pub cell_injective :
    (r c r' c' cols : ℕ)
    → c < cols
    → c' < cols
    → r * cols + c ≡ r' * cols + c'
    → (r ≡ r') × (c ≡ c')
cell_injective zero c zero c' cols p q e = (refl, omega arith)
cell_injective zero c (suc r') c' cols p q e = absurd (omega arith)
cell_injective (suc r) c zero c' cols p q e = absurd (omega arith)
cell_injective (suc r) c (suc r') c' cols p q e =
    let h = cell_injective r c r' c' cols p q (omega arith) in (ap suc h.0, h.1)

module _ {ℓ} {A : Type ℓ} ⦃F : Field A⦄ where
  pub new-HasShape : (rows cols : ℕ) → HasShape (new {A = A} rows cols) rows cols
  unfolding new
  new-HasShape rows cols = record {
    row_count = refl;
    col_count = refl;
    filled = length-replicate (rows * cols) F.zero;
  }

  pub get-new : (rows cols r c : ℕ) → r < rows → c < cols → get (new rows cols) r c ≡ F.zero
  unfolding new get
  get-new rows cols r c p q =
      get_or-replicate (rows * cols) F.zero (r * cols + c) F.zero (cell-lt r c rows cols p q)

  module _ {m : Matrix A} {rows cols : ℕ} (s : HasShape m rows cols) where
    pub set-HasShape : (r c : ℕ) (v : A) → HasShape (set m r c v) rows cols
    unfolding set
    set-HasShape r c v = record {
      row_count = s.row_count;
      col_count = s.col_count;
      filled = length-set m.cells (r * m.col_count + c) v ∙ s.filled;
    }

    pub get-set_self : (r c : ℕ) (v : A) → r < rows → c < cols → get (set m r c v) r c ≡ v
    unfolding get set
    get-set_self r c v p q = rw s.col_count (
        get_or-set m.cells (r * cols + c) (r * cols + c) v F.zero
          (rw s.filled (cell-lt r c rows cols p q))
        ∙ rw (==_refl (r * cols + c)) refl)

    pub get-set_other :
        (r c r' c' : ℕ) (v : A)
        → r < rows
        → c < cols
        → c' < cols
        → (¬ (r' ≡ r)) ⊎ (¬ (c' ≡ c))
        → get (set m r c v) r' c' ≡ get m r' c'
    unfolding get set
    get-set_other r c r' c' v p q q' ne = rw s.col_count (
        get_or-set m.cells (r * cols + c) (r' * cols + c') v F.zero
          (rw s.filled (cell-lt r c rows cols p q))
        ∙ rw
            (ne→== (r * cols + c) (r' * cols + c')
              (λ e. differs (cell_injective r c r' c' cols q q' e) ne))
            refl)
      where
        differs : (r ≡ r') × (c ≡ c') → (¬ (r' ≡ r)) ⊎ (¬ (c' ≡ c)) → ⊥
        differs e (inl n) = n (sym e.0)
        differs e (inr n) = n (sym e.1)

-- `m` is `m0` with the cells `off .. off + n` of row `r` written.
pub record RowWritten {ℓ} {A : Type ℓ} ⦃F : Field A⦄ (m0 : Matrix A) (rows cols r off n : ℕ)
    (value : ℕ → A) (m : Matrix A) : Type ℓ where
  pub shape : HasShape m rows cols
  pub written : (c : ℕ) → c < n → get m r (off + c) ≡ value c
  pub kept :
      (r' c' : ℕ)
      → c' < cols
      → (¬ (r' ≡ r)) ⊎ ((c' < off) ⊎ (off + n ≤ c'))
      → get m r' c' ≡ get m0 r' c'

pub written_at {ℓ} :
    {A : Type ℓ} ⦃F : Field A⦄ {m0 m : Matrix A} {rows cols r n : ℕ} {value : ℕ → A}
    → RowWritten m0 rows cols r 0 n value m
    → (c : ℕ) → c < n
    → get m r c ≡ value c
written_at {m} {r} {value} w c p =
    subst (λ k. get m r k ≡ value c) (let e : 0 + c ≡ c = omega arith in e) (w.written c p)

module _ {ℓ} {A : Type ℓ} ⦃F : Field A⦄ {m0 : Matrix A} {rows cols : ℕ} (s : HasShape m0 rows cols)
    (r off n : ℕ) (value : ℕ → A) (inside : r < rows) (fits : off + n ≤ cols) where
  RowWritten-suc :
      (c : ℕ) (m : Matrix A) (v : A)
      → c < n
      → v ≡ value c
      → RowWritten m0 rows cols r off c value m
      → RowWritten m0 rows cols r off (suc c) value (set m r (off + c) v)
  RowWritten-suc c m v p e w = record {
    shape = set-HasShape w.shape r (off + c) v;
    written = λ c' q. elim (ℕ_discrete c' c) [
      | yes same ↦ rw same (get-set_self w.shape r (off + c) v inside (omega arith) ∙ e)
      | no other ↦
          get-set_other w.shape r (off + c) r (off + c') v inside (omega arith) (omega arith)
            (inr (omega arith))
          ∙ w.written c' (omega arith)
    ];
    kept = λ r' c' q ne.
        get-set_other w.shape r (off + c) r' c' v inside (omega arith) q (outside c r' c' ne)
        ∙ w.kept r' c' q (earlier c r' c' ne);
  }
    where
      outside :
          (c r' c' : ℕ)
          → (¬ (r' ≡ r)) ⊎ ((c' < off) ⊎ (off + suc c ≤ c'))
          → (¬ (r' ≡ r)) ⊎ (¬ (c' ≡ off + c))
      outside c r' c' (inl h) = inl h
      outside c r' c' (inr (inl h)) = inr (omega arith)
      outside c r' c' (inr (inr h)) = inr (omega arith)

      earlier :
          (c r' c' : ℕ)
          → (¬ (r' ≡ r)) ⊎ ((c' < off) ⊎ (off + suc c ≤ c'))
          → (¬ (r' ≡ r)) ⊎ ((c' < off) ⊎ (off + c ≤ c'))
      earlier c r' c' (inl h) = inl h
      earlier c r' c' (inr (inl h)) = inr (inl h)
      earlier c r' c' (inr (inr h)) = inr (inr (omega arith))

  -- A loop that writes the cells of a row, each with a value that the earlier writes leave alone.
  pub write_row :
      (body : ℕ → Matrix A → Matrix A) (compute : ℕ → Matrix A → A)
      → ((c : ℕ) (m : Matrix A) → body c m ≡ set m r (off + c) (compute c m))
      → ((c : ℕ) (m : Matrix A)
          → c < n
          → RowWritten m0 rows cols r off c value m
          → compute c m ≡ value c)
      → RowWritten m0 rows cols r off n value (for_range 0 n body m0)
  write_row body compute is_set local =
      for_range_inv (λ c m. RowWritten m0 rows cols r off c value m) 0 n body (omega arith)
        (λ c m p q w. rw (is_set c m) (RowWritten-suc c m (compute c m) q (local c m q w) w)) m0
        (record { shape = s; written = λ c p. absurd (omega arith); kept = λ r' c' p ne. refl })

  -- The same for a loop that starts at `lo`.
  pub write_row_from :
      (lo : ℕ) (body : ℕ → Matrix A → Matrix A) (compute : ℕ → Matrix A → A)
      → ((i : ℕ) (m : Matrix A) → lo ≤ i → body i m ≡ set m r (off + (i - lo)) (compute i m))
      → ((i : ℕ) (m : Matrix A)
          → lo ≤ i
          → i - lo < n
          → RowWritten m0 rows cols r off (i - lo) value m
          → compute i m ≡ value (i - lo))
      → RowWritten m0 rows cols r off n value (for_range lo (lo + n) body m0)
  write_row_from lo body compute is_set local =
      subst (λ k. RowWritten m0 rows cols r off k value (for_range lo (lo + n) body m0))
        (let e : lo + n - lo ≡ n = omega arith in e)
        (for_range_inv (λ i m. RowWritten m0 rows cols r off (i - lo) value m) lo (lo + n) body
          (omega arith)
          (λ i m p q w. rw (is_set i m p) (
            subst
              (λ k. RowWritten m0 rows cols r off k value (set m r (off + (i - lo)) (compute i m)))
              (let e : suc (i - lo) ≡ suc i - lo = omega arith in e)
              (RowWritten-suc (i - lo) m (compute i m) (omega arith) (local i m p (omega arith) w)
                w)))
          m0
          (subst (λ k. RowWritten m0 rows cols r off k value m0)
            (let e : 0 ≡ lo - lo = omega arith in e)
            (record {
              shape = s;
              written = λ c p. absurd (omega arith);
              kept = λ r' c' p ne. refl;
            })))
