-- ===== src/Matrix/Span.antt =====
-- What the row operations of src/matrix.rs keep: the space that the rows span.
use native.Mathlib.Decide.{ℕ_discrete}
use reed_solomon_erasure.Base.{ℕ, ◌<◌, ◌≡◌, inl, ◌↔◌, sym, ◌∙◌, ap, ap₂, subst, arith}
use reed_solomon_erasure.Field.{Field, FieldLaws}
use reed_solomon_erasure.Field.Laws.{add-add_self}
use reed_solomon_erasure.Matrix.{Matrix, get, swap_rows}
use reed_solomon_erasure.Matrix.Cells.{HasShape, RowWritten, written_at}
use reed_solomon_erasure.Matrix.Rows.{swap_index, swap_rows_lem}

-- A set of rows that is closed under sums and multiples, and reads only the first `cols` cells.
pub record IsSubspace {ℓ} {A : Type ℓ} (F : Field A) (cols : ℕ) (P : (ℕ → A) → Type ℓ)
    : Type ℓ where
  pub congr : (f g : ℕ → A) → ((c : ℕ) → c < cols → f c ≡ g c) → P f → P g
  pub add : (f g : ℕ → A) → P f → P g → P (λ c. F.add (f c) (g c))
  pub scale : (a : A) (f : ℕ → A) → P f → P (λ c. F.mul a (f c))

swap_index-lt : (r1 r2 r rows : ℕ) → r1 < rows → r2 < rows → r < rows → swap_index r1 r2 r < rows
unfolding swap_index
swap_index-lt r1 r2 r rows p q h = ground arith

swap_index_twice : (r1 r2 r : ℕ) → swap_index r1 r2 (swap_index r1 r2 r) ≡ r
unfolding swap_index
swap_index_twice r1 r2 r = ground arith

module _ {ℓ} {A : Type ℓ} ⦃F : Field A⦄ where
  abbrev pub RowsIn : ℕ → ((ℕ → A) → Type ℓ) → Matrix A → Type ℓ
  RowsIn rows P m = (r : ℕ) → r < rows → P (get m r)

  -- The rows of both matrices lie in the same subspaces.
  abbrev pub SameSpan : ℕ → ℕ → Matrix A → Matrix A → Type (ℓ + 1)
  SameSpan rows cols m m' =
      (P : (ℕ → A) → Type ℓ) → IsSubspace F cols P → RowsIn rows P m ↔ RowsIn rows P m'

  pub SameSpan-refl : (rows cols : ℕ) (m : Matrix A) → SameSpan rows cols m m
  SameSpan-refl rows cols m P s = (λ h. h, λ h. h)

  pub SameSpan-trans :
      (rows cols : ℕ) (a b d : Matrix A)
      → SameSpan rows cols a b
      → SameSpan rows cols b d
      → SameSpan rows cols a d
  SameSpan-trans rows cols a b d f g P s =
      (λ h. (g P s).0 ((f P s).0 h), λ h. (f P s).1 ((g P s).1 h))

  pub swap_rows-SameSpan :
      {m : Matrix A} {rows cols : ℕ}
      → HasShape m rows cols
      → (r1 r2 : ℕ) → r1 < rows
      → r2 < rows
      → SameSpan rows cols m (swap_rows m r1 r2)
  swap_rows-SameSpan {m} {rows} {cols} s r1 r2 p q P sub =
      let cells = (swap_rows_lem s r1 r2 p q).1 in
      (
        λ h r less.
            sub.congr (get m (swap_index r1 r2 r)) (get (swap_rows m r1 r2) r)
              (λ c inside. sym (cells r c inside))
              (h (swap_index r1 r2 r) (swap_index-lt r1 r2 r rows p q less)),
        λ h r less.
            sub.congr (get (swap_rows m r1 r2) (swap_index r1 r2 r)) (get m r)
              (λ c inside.
                cells (swap_index r1 r2 r) c inside
                ∙ ap (λ k. get m k c) (swap_index_twice r1 r2 r))
              (h (swap_index r1 r2 r) (swap_index-lt r1 r2 r rows p q less)),
      )

module _ {ℓ} {A : Type ℓ} ⦃F : Field A⦄ (L : FieldLaws F) {m m' : Matrix A} {rows cols : ℕ} where
  pub scale-SameSpan :
      (r : ℕ) (a b : A)
      → F.mul b a ≡ F.one
      → RowWritten m rows cols r 0 cols (λ c. F.mul a (get m r c)) m'
      → SameSpan rows cols m m'
  scale-SameSpan r a b inv w P sub = (
    λ h k less. elim (ℕ_discrete k r) [
      | yes e ↦
          sub.congr (λ c. F.mul a (get m r c)) (get m' k)
            (λ c inside. sym (ap (λ j. get m' j c) e ∙ written_at w c inside))
            (sub.scale a (get m r) (h r (subst (λ j. j < rows) e less)))
      | no n ↦
          sub.congr (get m k) (get m' k) (λ c inside. sym (w.kept k c inside (inl n))) (h k less)
    ],
    λ h k less. elim (ℕ_discrete k r) [
      | yes e ↦
          sub.congr (λ c. F.mul b (get m' r c)) (get m k)
            (λ c inside.
              ap (F.mul b) (written_at w c inside)
              ∙ (sym (L.mul_assoc b a (get m r c))
                  ∙ (ap (λ t. F.mul t (get m r c)) inv
                      ∙ (L.one-mul (get m r c) ∙ ap (λ j. get m j c) (sym e)))))
            (sub.scale b (get m' r) (h r (subst (λ j. j < rows) e less)))
      | no n ↦ sub.congr (get m' k) (get m k) (λ c inside. w.kept k c inside (inl n)) (h k less)
    ],
  )

  pub add-SameSpan :
      (source target : ℕ) (a : A)
      → source < rows
      → ¬ (source ≡ target)
      → RowWritten m rows cols target 0 cols
          (λ c. F.add (get m target c) (F.mul a (get m source c)))
          m'
      → SameSpan rows cols m m'
  add-SameSpan source target a inside_rows ne w P sub = (
    λ h k less. elim (ℕ_discrete k target) [
      | yes e ↦
          sub.congr (λ c. F.add (get m target c) (F.mul a (get m source c))) (get m' k)
            (λ c inside. sym (ap (λ j. get m' j c) e ∙ written_at w c inside))
            (sub.add (get m target) (λ c. F.mul a (get m source c))
              (h target (subst (λ j. j < rows) e less))
              (sub.scale a (get m source) (h source inside_rows)))
      | no n ↦
          sub.congr (get m k) (get m' k) (λ c inside. sym (w.kept k c inside (inl n))) (h k less)
    ],
    λ h k less. elim (ℕ_discrete k target) [
      | yes e ↦
          sub.congr (λ c. F.add (F.mul a (get m' source c)) (get m' target c)) (get m k)
            (λ c inside.
              ap₂ F.add (ap (F.mul a) (w.kept source c inside (inl ne)))
                (written_at w c inside ∙ L.add_comm (get m target c) (F.mul a (get m source c)))
              ∙ (add-add_self L (F.mul a (get m source c)) (get m target c)
                  ∙ ap (λ j. get m j c) (sym e)))
            (sub.add (λ c. F.mul a (get m' source c)) (get m' target)
              (sub.scale a (get m' source) (h source inside_rows))
              (h target (subst (λ j. j < rows) e less)))
      | no n ↦ sub.congr (get m' k) (get m k) (λ c inside. w.kept k c inside (inl n)) (h k less)
    ],
  )
