-- ===== src/Prelude/Result.antt =====
-- The `(value, error)` results of Go with the text of the error, and what reading and decoding a file
-- gives.
use myzerossl.Prelude.{ℕ, List, ◌≡◌, ◌⊎◌, inl, inr, refl}

pub data Result {ℓ} (A : Type ℓ) : Type ℓ where
  ok : A → Result A
  err : List ℕ → Result A

infixl 5 ◌>>=◌
abbrev pub ◌>>=◌ {ℓ κ} : {A : Type ℓ} {B : Type κ} → Result A → (A → Result B) → Result B
ok a >>= f = f a
err e >>= f = err e

pub data FileRead {ℓ} (A : Type ℓ) : Type ℓ where
  missing : FileRead A
  failed : List ℕ → FileRead A
  contents : A → FileRead A

pub Result-cases {ℓ} :
    {A : Type ℓ} (r : Result A) → ((e : List ℕ) × (r ≡ err e)) ⊎ ((a : A) × (r ≡ ok a))
Result-cases (ok a) = inr (a, refl)
Result-cases (err e) = inl (e, refl)

-- A chain that ends well went well before.
pub bind-inversion {ℓ κ} :
    {A : Type ℓ} {B : Type κ} (r : Result A) (f : A → Result B) {b : B}
    → (r >>= f) ≡ ok b
    → (a : A) × (r ≡ ok a) × (f a ≡ ok b)
bind-inversion (ok a) f h = (a, refl, h)
bind-inversion (err e) f h = cc
