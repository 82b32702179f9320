-- ===== src/Base/Results.antt =====
-- `Result`, with `?` as bind, and loops whose body can return early with an error.
use Prim.Native.Nat.{ℕ, zero, suc, ◌+◌, ◌-◌, ◌<◌, ◌≤◌}
use mathlib.Core.Path.{◌≡◌, refl, subst}
use mathlib.Core.Bool.{Bool, true, false}
use native.Mathlib.Omega.{arith}

pub data Result {ℓ κ} (E : Type ℓ) (A : Type κ) : Type (ℓ ⊔ κ) where
  ok : A → Result E A
  err : E → Result E A

infixl 5 ◌>>=◌ ◌>>◌
abbrev pub ◌>>=◌ {ℓ κ μ} :
    {E : Type ℓ} {A : Type κ} {B : Type μ} → Result E A → (A → Result E B) → Result E B
ok a >>= f = f a
err e >>= f = err e

abbrev pub ◌>>◌ {ℓ κ} : {E : Type ℓ} {B : Type κ} → Result E (Unit {0}) → Result E B → Result E B
m >> k = m >>= λ _. k

-- `if test { return Err(e); }`.
abbrev pub fail_if {ℓ} : {E : Type ℓ} → Bool → E → Result E (Unit {0})
fail_if true e = err e
fail_if false e = ok tt

-- `.map_err(f)`.
abbrev pub map_err {ℓ κ μ} :
    {E : Type ℓ} {E' : Type κ} {A : Type μ} → (E → E') → Result E A → Result E' A
map_err f (ok a) = ok a
map_err f (err e) = err (f e)

pub >>=-eq-ok {ℓ κ μ} :
    {E : Type ℓ} {X : Type κ} {Y : Type μ} (run : Result E X) (next : X → Result E Y) {y : Y}
    → (run >>= next) ≡ ok y
    → (x : X) × (run ≡ ok x) × (next x ≡ ok y)
>>=-eq-ok (err failure) next both = cc
>>=-eq-ok (ok x) next both = (x, refl, both)

pub map_err-eq-ok {ℓ κ μ} :
    {E : Type ℓ} {E' : Type κ} {A : Type μ} (f : E → E') (m : Result E A) {a : A}
    → map_err f m ≡ ok a
    → m ≡ ok a
map_err-eq-ok f (ok b) h = cc
map_err-eq-ok f (err e) h = cc

module _ {ℓ κ} {E : Type ℓ} {S : Type κ} where
  abbrev pub try_rounds : ℕ → ℕ → (ℕ → S → Result E S) → S → Result E S
  try_rounds lo zero body s = ok s
  try_rounds lo (suc n) body s = body lo s >>= λ s'. try_rounds (suc lo) n body s'

  -- `for i in lo..hi { s = body(i, s)?; }`.
  abbrev pub try_range : ℕ → ℕ → (ℕ → S → Result E S) → S → Result E S
  try_range lo hi body s = try_rounds lo (hi - lo) body s

  try_rounds_inv {μ} :
      (P : ℕ → S → Type μ) (lo n hi : ℕ) (body : ℕ → S → Result E S)
      → lo + n ≡ hi
      → ((i : ℕ) (s t : S) → lo ≤ i → i < hi → body i s ≡ ok t → P i s → P (suc i) t)
      → (s t : S) → P lo s
      → try_rounds lo n body s ≡ ok t
      → P hi t
  try_rounds_inv P lo zero hi body e step s t p h =
      let same : lo ≡ hi = omega arith in
      let st : s ≡ t = cc in subst (λ k. P k t) same (subst (P lo) st p)
  try_rounds_inv P lo (suc n) hi body e step s t p h =
      let (u, hu, rest) = >>=-eq-ok (body lo s) (λ s'. try_rounds (suc lo) n body s') h in
      try_rounds_inv P (suc lo) n hi body (omega arith) (λ i s t a b. step i s t (omega arith) b) u
        t (step lo s u (omega arith) (omega arith) hu p) rest

  -- A loop that ends with `ok` has kept what each successful round keeps.
  pub try_range_inv {μ} :
      (P : ℕ → S → Type μ) (lo hi : ℕ) (body : ℕ → S → Result E S)
      → lo ≤ hi
      → ((i : ℕ) (s t : S) → lo ≤ i → i < hi → body i s ≡ ok t → P i s → P (suc i) t)
      → (s t : S) → P lo s
      → try_range lo hi body s ≡ ok t
      → P hi t
  try_range_inv P lo hi body h step s t p e =
      try_rounds_inv P lo (hi - lo) hi body (omega arith) step s t p e

  try_rounds_total {μ} :
      (P : ℕ → S → Type μ) (lo n hi : ℕ) (body : ℕ → S → Result E S)
      → lo + n ≡ hi
      → ((i : ℕ) (s : S) → lo ≤ i → i < hi → P i s → (t : S) × (body i s ≡ ok t) × P (suc i) t)
      → (s : S) → P lo s
      → (t : S) × (try_rounds lo n body s ≡ ok t) × P hi t
  try_rounds_total P lo zero hi body e step s p =
      (s, refl, subst (λ k. P k s) (let same : lo ≡ hi = omega arith in same) p)
  try_rounds_total P lo (suc n) hi body e step s p =
      let (u, run, q) = step lo s (omega arith) (omega arith) p in
      let (t, rest, done) =
        try_rounds_total P (suc lo) n hi body (omega arith) (λ i s a. step i s (omega arith)) u q in
      (t, rw run rest, done)

  -- A loop each of whose rounds succeeds while the invariant holds succeeds.
  pub try_range_total {μ} :
      (P : ℕ → S → Type μ) (lo hi : ℕ) (body : ℕ → S → Result E S)
      → lo ≤ hi
      → ((i : ℕ) (s : S) → lo ≤ i → i < hi → P i s → (t : S) × (body i s ≡ ok t) × P (suc i) t)
      → (s : S) → P lo s
      → (t : S) × (try_range lo hi body s ≡ ok t) × P hi t
  try_range_total P lo hi body h step s p =
      try_rounds_total P lo (hi - lo) hi body (omega arith) step s p
