-- ===== src/Prelude/Results.antt =====
-- Rust's `Result<A, E>`, with `?` as bind.
use mathlib.Core.Path.{◌≡◌, refl}
use mathlib.Core.Logic.{◌⊎◌, inl, inr}
use mathlib.Core.Option.{Option, none, some}

pub data Result {ℓ} (E A : Type ℓ) : Type ℓ where
  ok : A → Result E A
  err : E → Result E A

infixl 5 ◌>>=◌ ◌>>◌
abbrev pub ◌>>=◌ {ℓ} : {E A B : Type ℓ} → Result E A → (A → Result E B) → Result E B
ok a >>= f = f a
err e >>= f = err e

abbrev pub ◌>>◌ {ℓ} : {E A B : Type ℓ} → Result E A → Result E B → Result E B
m >> k = m >>= λ _. k

abbrev pub ok_or {ℓ} : {E A : Type ℓ} → Option A → E → Result E A
ok_or none e = err e
ok_or (some a) e = ok a

abbrev pub map_err {ℓ} : {E F A : Type ℓ} → (E → F) → Result E A → Result F A
map_err f (ok a) = ok a
map_err f (err e) = err (f e)

-- A computation on a state that may fail, and keeps what it wrote before it failed.
abbrev pub Exec {ℓ} : Type ℓ → Type ℓ → Type ℓ → Type ℓ
Exec S E A = S → Result E A × S

abbrev after {ℓ} : {S E A B : Type ℓ} → (A → S → Result E B × S) → Result E A × S → Result E B × S
after f (ok a, s) = f a s
after f (err e, s) = (err e, s)

-- `?` on such a computation: the next one goes on from its state.
infixl 5 ◌>>>=◌
abbrev pub ◌>>>=◌ {ℓ} :
    {S E A B : Type ℓ} → (S → Result E A × S) → (A → S → Result E B × S) → S → Result E B × S
(m >>>= f) s = after f (m s)

-- `?` on a result that leaves the state as it is.
abbrev pub lift {ℓ} : {S E A : Type ℓ} → Result E A → S → Result E A × S
lift r s = (r, s)

abbrev pub map_error {ℓ} : {S E F A : Type ℓ} → (E → F) → (S → Result E A × S) → S → Result F A × S
map_error f m s = let (r, s') = m s in (map_err f r, s')

-- To split on a computed result and keep the equation.
pub Result-cases {ℓ} :
    {E A : Type ℓ} (r : Result E A) → ((a : A) × (r ≡ ok a)) ⊎ ((e : E) × (r ≡ err e))
Result-cases (ok a) = inl (a, refl)
Result-cases (err e) = inr (e, refl)
