-- ===== src/Prelude/Lists.antt =====
-- Lists measured by native numbers, and predicates on all or some of their elements.
use Prim.Native.Nat.{ℕ, zero, suc, ◌+◌, ◌≤◌}
use mathlib.Core.Path.{◌≡◌, refl, ap}
use mathlib.Core.Bool.{Bool, true, false, ◌&&◌, ◌||◌}
use mathlib.Core.Logic.{◌↔◌, ◌⊎◌, inl, inr}
use myzerossl.Prelude.Tests.{Bool-cases}
use mathlib.Core.List.{List, [], ◌∷◌, ◌++◌}
use native.Mathlib.Omega.{arith}

module _ {ℓ} {A : Type ℓ} where
  abbrev pub length : List A → ℕ
  length [] = 0
  length (x ∷ xs) = suc (length xs)

  abbrev pub take : ℕ → List A → List A
  take zero xs = []
  take (suc n) [] = []
  take (suc n) (x ∷ xs) = x ∷ take n xs

  abbrev pub drop : ℕ → List A → List A
  drop zero xs = xs
  drop (suc n) [] = []
  drop (suc n) (x ∷ xs) = drop n xs

  abbrev pub is_empty : List A → Bool
  is_empty [] = true
  is_empty (x ∷ xs) = false

  abbrev pub any : (A → Bool) → List A → Bool
  any p [] = false
  any p (x ∷ xs) = p x || any p xs

  abbrev pub all : (A → Bool) → List A → Bool
  all p [] = true
  all p (x ∷ xs) = p x && all p xs

  pub length-append : (xs ys : List A) → length (xs ++ ys) ≡ length xs + length ys
  length-append [] ys = omega arith
  length-append (x ∷ xs) ys = omega (arith, length-append xs ys)

  pub take_of_length-le : (count : ℕ) (l : List A) → length l ≤ count → take count l ≡ l
  take_of_length-le zero [] fits = refl
  take_of_length-le (suc m) [] fits = refl
  take_of_length-le zero (e ∷ l) fits = absurd (omega arith)
  take_of_length-le (suc m) (e ∷ l) fits =
      let rest = take_of_length-le m l (omega arith) in ap (λ t. e ∷ t) rest

module _ {ℓ} {A : Type ℓ} (P : A → Type 0) where
  -- Some element of the list has the property.
  abbrev pub Exists : List A → Type 0
  Exists [] = ⊥
  Exists (x ∷ xs) = P x ⊎ Exists xs

  pub any-Exists :
      (p : A → Bool) (xs : List A) → ((x : A) → (p x ≡ true) ↔ P x) → (any p xs ≡ true) ↔ Exists xs
  any-Exists p [] exact = (λ e. cc, λ e. absurd e)
  any-Exists p (x ∷ xs) exact =
      let rest = any-Exists p xs exact in
      (
        (λ e. elim (Bool-cases (p x)) [
          | inl h ↦ inl ((exact x).0 h)
          | inr h ↦ inr (rest.0 (ground arith))
        ]),
        (λ e. elim e [
          | inl h ↦ let fits : p x ≡ true = (exact x).1 h in ground arith
          | inr h ↦ let found = rest.1 h in ground arith
        ]),
      )

module _ {ℓ κ} {A : Type ℓ} (P : A → Type κ) where
  abbrev pub All : List A → Type κ
  All [] = Unit
  All (x ∷ xs) = P x × All xs

pub or-exact :
    {P Q : Type 0} (a b : Bool) → (a ≡ true) ↔ P → (b ≡ true) ↔ Q → ((a || b) ≡ true) ↔ (P ⊎ Q)
or-exact true b p q = ((λ e. inl (p.0 refl)), (λ h. refl))
or-exact false b p q = (
  (λ e. inr (q.0 e)),
  (λ h. elim h [ inl x ↦ let bad : false ≡ true = p.1 x in cc | inr y ↦ q.1 y ]),
)

pub and-exact :
    {P Q : Type 0} (a b : Bool) → (a ≡ true) ↔ P → (b ≡ true) ↔ Q → ((a && b) ≡ true) ↔ (P × Q)
and-exact true b p q = ((λ e. (p.0 refl, q.0 e)), (λ h. q.1 h.1))
and-exact false b p q = ((λ e. cc), (λ h. p.1 h.0))

-- What a test decides is false where the test is.
pub not-exact : {P : Type 0} (a : Bool) → (a ≡ true) ↔ P → a ≡ false → ¬ P
not-exact a exact e h = let bad = exact.1 h in ground arith
