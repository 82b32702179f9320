-- ===== src/Matrix/Rows.antt =====
-- The row operations of `gaussian_elim` in src/matrix.rs, cell by cell: `swap_rows`, the scaling of
-- a row, and the addition of a multiple of one row to another.
use native.Mathlib.Decide.{ℕ_discrete}
use native.Mathlib.Nat.{zero-add}
use reed_solomon_erasure.Base.{
  ℕ, suc, ◌<◌, ◌≤◌, ◌≡◌, inl, inr, refl, sym, ◌∙◌, ap, ap₂, arith, ◌==◌, ==_refl, ne→==,
  if◌then◌else◌, Bool-cases, for_range_inv,
}
use reed_solomon_erasure.Field.{Field, FieldLaws}
use reed_solomon_erasure.Field.Laws.{add-zero}
use reed_solomon_erasure.Matrix.{
  Matrix, get, set, swap_cells, swap_rows, scale_row, add_scaled_row, clear_cell,
}
use reed_solomon_erasure.Matrix.Cells.{
  HasShape, RowWritten, set-HasShape, get-set_self, get-set_other, write_row,
}

-- Where row `r` of the result of `swap_rows` comes from.
unfoldable pub swap_index : ℕ → ℕ → ℕ → ℕ
swap_index r1 r2 r = if r == r1 then r2 else if r == r2 then r1 else r

module _ {ℓ} {A : Type ℓ} ⦃F : Field A⦄ {m0 : Matrix A} {rows cols : ℕ}
    (s : HasShape m0 rows cols) where
  -- After `i` rounds the first `i` columns are exchanged.
  abbrev Swapped : ℕ → ℕ → ℕ → Matrix A → Type ℓ
  Swapped r1 r2 i m =
      HasShape m rows cols
      × ((r c : ℕ) → c < cols → c < i → get m r c ≡ get m0 (swap_index r1 r2 r) c)
      × ((r c : ℕ) → c < cols → i ≤ c → get m r c ≡ get m0 r c)

  swap_cells-Swapped :
      (r1 r2 i : ℕ) (m : Matrix A)
      → r1 < rows
      → r2 < rows
      → ¬ (r1 ≡ r2)
      → i < cols
      → Swapped r1 r2 i m
      → Swapped r1 r2 (suc i) (swap_cells r1 r2 i m)
  unfolding swap_cells swap_index
  swap_cells-Swapped r1 r2 i m p q ne b h = (
    u,
    λ r c inside less. elim (ℕ_discrete c i) [
      | yes e ↦ rw e (elim (ℕ_discrete r r2) [
        | yes e2 ↦ rw e2 (
            get-set_self v r2 i (get m r1 i) q b
            ∙ (h.2 r1 i b (omega arith) ∙ rw (ne→== r2 r1 (λ e. ne (sym e)), ==_refl r2) refl))
        | no n2 ↦ get-set_other v r2 i r i (get m r1 i) q b b (inl n2) ∙ elim (ℕ_discrete r r1) [
          | yes e1 ↦ rw e1 (
              get-set_self h.0 r1 i (get m r2 i) p b
              ∙ (h.2 r2 i b (omega arith) ∙ rw (==_refl r1) refl))
          | no n1 ↦
              get-set_other h.0 r1 i r i (get m r2 i) p b b (inl n1)
              ∙ (h.2 r i b (omega arith) ∙ rw (ne→== r r1 n1, ne→== r r2 n2) refl)
        ]
      ])
      | no n ↦ kept r c inside n ∙ h.1 r c inside (omega arith)
    ],
    λ r c inside more. kept r c inside (omega arith) ∙ h.2 r c inside (omega arith),
  )
    where
      v : HasShape (set m r1 i (get m r2 i)) rows cols
      v = set-HasShape h.0 r1 i (get m r2 i)

      u : HasShape (set (set m r1 i (get m r2 i)) r2 i (get m r1 i)) rows cols
      u = set-HasShape v r2 i (get m r1 i)

      kept :
          (r c : ℕ)
          → c < cols
          → ¬ (c ≡ i)
          → get (set (set m r1 i (get m r2 i)) r2 i (get m r1 i)) r c ≡ get m r c
      kept r c inside n =
          get-set_other v r2 i r c (get m r1 i) q b inside (inr n)
          ∙ get-set_other h.0 r1 i r c (get m r2 i) p b inside (inr n)

  -- `swap_rows` on two rows of a matrix, equal or not, keeps its size and exchanges these two rows
  -- and no other.
  pub swap_rows_lem :
      (r1 r2 : ℕ)
      → r1 < rows
      → r2 < rows
      → HasShape (swap_rows m0 r1 r2) rows cols
        × ((r c : ℕ) → c < cols → get (swap_rows m0 r1 r2) r c ≡ get m0 (swap_index r1 r2 r) c)
  unfolding swap_rows
  swap_rows_lem r1 r2 p q = elim (ℕ_discrete r1 r2) [
    | yes e ↦ rw (e, ==_refl r2) (s, λ r c inside. ap (λ k. get m0 k c) (sym (same r2 r)))
    | no n ↦
        let all =
          for_range_inv (Swapped r1 r2) 0 cols (λ i m. swap_cells r1 r2 i m) (omega arith)
            (λ i m _ b h. swap_cells-Swapped r1 r2 i m p q n b h) m0
            (s, λ r c inside less. absurd (omega arith), λ r c inside more. refl) in
        rw (ne→== r1 r2 n) (simp (s.col_count) (all.0, λ r c inside. all.1 r c inside inside))
  ]
    where
      same : (k r : ℕ) → swap_index k k r ≡ r
      same k r = unfold swap_index in ground arith

  pub scale_row-RowWritten :
      (r : ℕ) (scale : A)
      → r < rows
      → RowWritten m0 rows cols r 0 cols (λ c. F.mul scale (get m0 r c)) (scale_row r scale m0)
  unfolding scale_row
  scale_row-RowWritten r scale p = simp (s.col_count) (
      write_row s r 0 cols (λ c. F.mul scale (get m0 r c)) p (omega arith)
        (λ c m. set m r c (F.mul scale (get m r c))) (λ c m. F.mul scale (get m r c))
        (λ c m. ap (λ k. set m r k (F.mul scale (get m r c))) (omega arith))
        (λ c m q w. ap (F.mul scale) (w.kept r c (omega arith) (inr (inr (omega arith))))))

  pub add_scaled_row-RowWritten :
      (source target : ℕ) (scale : A)
      → target < rows
      → ¬ (source ≡ target)
      → RowWritten m0 rows cols target 0 cols
          (λ c. F.add (get m0 target c) (F.mul scale (get m0 source c)))
          (add_scaled_row source target scale m0)
  unfolding add_scaled_row
  add_scaled_row-RowWritten source target scale p ne = simp (s.col_count) (
      write_row s target 0 cols (λ c. F.add (get m0 target c) (F.mul scale (get m0 source c))) p
        (omega arith)
        (λ c m. set m target c (F.add (get m target c) (F.mul scale (get m source c))))
        (λ c m. F.add (get m target c) (F.mul scale (get m source c)))
        (λ c m.
          ap (λ k. set m target k (F.add (get m target c) (F.mul scale (get m source c))))
            (omega arith))
        (λ c m q w.
          ap₂ (λ x y. F.add x (F.mul scale y))
            (w.kept target c (omega arith) (inr (inr (omega arith))))
            (w.kept source c (omega arith) (inl ne))))

  -- Where the cell is zero already, nothing is added: the same equation holds.
  pub clear_cell-RowWritten :
      (L : FieldLaws F) (source target : ℕ)
      → target < rows
      → ¬ (source ≡ target)
      → RowWritten m0 rows cols target 0 cols
          (λ c. F.add (get m0 target c) (F.mul (get m0 target source) (get m0 source c)))
          (clear_cell source target m0)
  unfolding clear_cell
  clear_cell-RowWritten L source target p ne =
      elim (Bool-cases (F.eq (get m0 target source) F.zero)) [
        | inl is_zero ↦
            let e : get m0 target source ≡ F.zero = (L.eq_iff _ _).0 is_zero in
            rw is_zero (record {
              shape = s;
              written = λ c q.
                  ap (get m0 target) (zero-add c)
                  ∙ sym (
                      ap (λ t. F.add (get m0 target c) (F.mul t (get m0 source c))) e
                      ∙ (ap (F.add (get m0 target c)) (L.zero-mul (get m0 source c))
                          ∙ add-zero L (get m0 target c)));
              kept = λ r' c' q n. refl;
            })
        | inr nonzero ↦
            rw nonzero (add_scaled_row-RowWritten source target (get m0 target source) p ne)
      ]
