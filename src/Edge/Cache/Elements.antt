-- ===== src/Edge/Cache/Elements.antt =====
-- The linked list of the cache: addresses, keys and sizes.
use myzerossl.Prelude.{
  ℕ, suc, ◌+◌, ◌≤◌, ◌<◌, ◌≡◌, refl, ◌∙◌, List, [], ◌∷◌, ◌++◌, Option, none, some, arith, ◌==◌,
  if◌then◌else◌, length, Bool-cases, inl, inr,
}
use myzerossl.Text.{Text, same}
use myzerossl.Edge.Cache.{Element, element_at, unlink, back}

-- The address of the element with a key
unfoldable pub address_of : Text → List Element → Option ℕ
address_of key [] = none
address_of key (e ∷ l) = if same e.entry.key key then some e.address else address_of key l

unfoldable pub total : List Element → ℕ
total [] = 0
total (e ∷ l) = e.entry.size + total l

-- No address and no key stands twice.
abbrev pub AreDistinct : List Element → Type 0
AreDistinct [] = Unit
AreDistinct (e ∷ l) =
    (element_at e.address l ≡ none) × (address_of e.entry.key l ≡ none) × AreDistinct l

-- Every address was handed out.
abbrev pub AreBelow : ℕ → List Element → Type 0
AreBelow n [] = Unit
AreBelow n (e ∷ l) = (e.address < n) × AreBelow n l

pub element_at-address :
    (p : ℕ) (l : List Element) (e : Element) → element_at p l ≡ some e → e.address ≡ p
unfolding element_at
element_at-address p [] e h = cc
element_at-address p (f ∷ l) e h = ground (arith, element_at-address p l e)

pub element_at_fresh : (n : ℕ) (l : List Element) → AreBelow n l → element_at n l ≡ none
unfolding element_at
element_at_fresh n [] b = refl
element_at_fresh n (e ∷ l) b = ground (arith, element_at_fresh n l b.1)

pub AreBelow-suc : (n : ℕ) (l : List Element) → AreBelow n l → AreBelow (n + 1) l
AreBelow-suc n [] b = tt
AreBelow-suc n (e ∷ l) b = (omega arith, AreBelow-suc n l b.1)

-- The element at the address of a key has that key, and the other way round.
pub element_of_key :
    (key : Text) (p : ℕ) (l : List Element)
    → AreDistinct l
    → address_of key l ≡ some p
    → (e : Element) × (element_at p l ≡ some e) × (e.entry.key ≡ key)
unfolding address_of element_at
element_of_key key p [] d h = cc
element_of_key key p (f ∷ l) d h = elim (Bool-cases (same f.entry.key key)) [
  | inl e ↦ (f, ground arith, ground arith)
  | inr e ↦
      let (x, found, fits) = element_of_key key p l d.2 (ground arith) in (x, ground arith, fits)
]

pub key_of_element :
    (p : ℕ) (l : List Element) (e : Element)
    → AreDistinct l
    → element_at p l ≡ some e
    → address_of e.entry.key l ≡ some p
unfolding address_of element_at
key_of_element p [] e d h = cc
key_of_element p (f ∷ l) e d h = ground (arith, key_of_element p l e d.2)

pub total-unlink :
    (p : ℕ) (l : List Element) (e : Element)
    → element_at p l ≡ some e
    → e.entry.size + total (unlink p l) ≡ total l
unfolding total unlink element_at
total-unlink p [] e h = cc
total-unlink p (f ∷ l) e h = ground (arith, total-unlink p l e)

pub address_of-unlink :
    (p : ℕ) (l : List Element) (e : Element) (key : Text)
    → AreDistinct l
    → element_at p l ≡ some e
    → address_of key (unlink p l) ≡ (if same e.entry.key key then none else address_of key l)
unfolding address_of unlink element_at
address_of-unlink p [] e key d h = cc
address_of-unlink p (f ∷ l) e key d h =
    ground (arith, address_of-unlink p l e key d.2, key_of_element p l e d.2)

pub element_at-unlink :
    (p q : ℕ) (l : List Element)
    → AreDistinct l
    → element_at q (unlink p l) ≡ (if p == q then none else element_at q l)
unfolding unlink element_at
element_at-unlink p q [] d = ground arith
element_at-unlink p q (f ∷ l) d = ground (arith, element_at-unlink p q l d.2)

address_of-unlink-none :
    (key : Text) (p : ℕ) (l : List Element)
    → address_of key l ≡ none
    → address_of key (unlink p l) ≡ none
unfolding unlink address_of
address_of-unlink-none key p [] h = refl
address_of-unlink-none key p (f ∷ l) h = ground (arith, address_of-unlink-none key p l)

pub AreDistinct-unlink : (p : ℕ) (l : List Element) → AreDistinct l → AreDistinct (unlink p l)
unfolding unlink
AreDistinct-unlink p [] d = tt
AreDistinct-unlink p (f ∷ l) d = elim (Bool-cases (f.address == p)) [
  | inl e ↦ rw e d.2
  | inr e ↦ rw e (
    element_at-unlink p f.address l d.2 ∙ ground arith,
    address_of-unlink-none f.entry.key p l d.1,
    AreDistinct-unlink p l d.2,
  )
]

pub AreBelow-unlink : (n p : ℕ) (l : List Element) → AreBelow n l → AreBelow n (unlink p l)
unfolding unlink
AreBelow-unlink n p [] b = tt
AreBelow-unlink n p (f ∷ l) b = ground (arith, AreBelow-unlink n p l b.1)

pub length-unlink :
    (p : ℕ) (l : List Element) (e : Element)
    → element_at p l ≡ some e
    → suc (length (unlink p l)) ≡ length l
unfolding unlink element_at
length-unlink p [] e h = cc
length-unlink p (f ∷ l) e h = ground (arith, length-unlink p l e)

pub element_at-back :
    (l : List Element) (e : Element)
    → AreDistinct l
    → back l ≡ some e
    → element_at e.address l ≡ some e
unfolding back element_at
element_at-back [] e d h = cc
element_at-back (f ∷ []) e d h = ground arith
element_at-back (f ∷ g ∷ l) e d h = ground (arith, element_at-back (g ∷ l) e d.2)

pub back-none : (l : List Element) → back l ≡ none → l ≡ []
unfolding back
back-none [] h = refl
back-none (f ∷ []) h = cc
back-none (f ∷ g ∷ l) h = absurd (cc (back-none (g ∷ l) h))

pub total_of_back-none : (l : List Element) → back l ≡ none → total l ≡ 0
unfolding total
total_of_back-none [] h = refl
total_of_back-none (e ∷ l) h = absurd (cc (back-none (e ∷ l) h))

pub total_of_length-le : (l : List Element) → length l ≤ 0 → total l ≡ 0
unfolding total
total_of_length-le [] h = refl
total_of_length-le (e ∷ l) h = absurd (omega arith)

-- The back is the last element, and unlinking it leaves the ones before.
pub unlink-back :
    (l : List Element) (e : Element)
    → AreDistinct l
    → back l ≡ some e
    → l ≡ unlink e.address l ++ e ∷ []
unfolding back unlink
unlink-back [] e d h = cc
unlink-back (f ∷ []) e d h = ground arith
unlink-back (f ∷ g ∷ l) e d h =
    ground (arith, unlink-back (g ∷ l) e d.2, element_at-back (g ∷ l) e d.2)

pub element_at-lt :
    (n p : ℕ) (l : List Element) (e : Element)
    → AreBelow n l
    → element_at p l ≡ some e
    → e.address < n
unfolding element_at
element_at-lt n p [] e b h = cc
element_at-lt n p (f ∷ l) e b h = ground (arith, element_at-lt n p l e b.1)

-- Unlinking the back of a longer list leaves its front.
pub unlink-back_cons :
    (f g : Element) (l : List Element) (x : Element)
    → AreDistinct (f ∷ g ∷ l)
    → back (f ∷ g ∷ l) ≡ some x
    → unlink x.address (f ∷ g ∷ l) ≡ f ∷ unlink x.address (g ∷ l)
unfolding back unlink
unlink-back_cons f g l x d h = ground (arith, element_at-back (g ∷ l) x d.2)

pub total_single : (f : Element) → total (f ∷ []) ≡ f.entry.size
unfolding total
total_single f = omega arith
