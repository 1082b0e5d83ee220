-- ===== src/Wizard/Sorted.antt =====
-- What `sortedKeys` returns.
use myzerossl.Prelude.{true, false, ◌≡◌, refl, List, [], ◌∷◌, ◌++◌, arith, Bool-cases, inl, inr}
use mathlib.Core.List.{reverse_aux, reverse_perm, append-nil, perm_middle, Perm}
use mathlib.Core.List.Perm
use myzerossl.Text.{Text}
use myzerossl.Map.{Map, keys}
use myzerossl.Wizard.EnvFile.{less, sink, sort_from, sorted_keys}

less-asym : (a b : Text) → less a b ≡ true → less b a ≡ false
unfolding less
less-asym [] [] h = cc
less-asym [] (d ∷ b) h = refl
less-asym (c ∷ a) [] h = cc
less-asym (c ∷ a) (d ∷ b) h = ground (arith, less-asym a b)

-- No key is less than the one before it.
pub IsSorted : List Text → Type 0
IsSorted [] = Unit
IsSorted (x ∷ []) = Unit
IsSorted (x ∷ y ∷ l) = (less y x ≡ false) × IsSorted (y ∷ l)

-- The same of a list that is held the other way round
IsDescending : List Text → Type 0
IsDescending [] = Unit
IsDescending (x ∷ []) = Unit
IsDescending (x ∷ y ∷ l) = (less x y ≡ false) × IsDescending (y ∷ l)

sink-below :
    (key left : Text) (before : List Text)
    → less key left ≡ true
    → IsDescending (left ∷ before)
    → IsDescending (left ∷ sink key before)
unfolding sink IsDescending
sink-below key left [] h d = (less-asym key left h, tt)
sink-below key left (next ∷ before) h (d, ds) = elim (Bool-cases (less key next)) [
  | inl e ↦ rw e (d, sink-below key next before e ds)
  | inr e ↦ rw e (less-asym key left h, (e, ds))
]

sink-IsDescending :
    (key : Text) (before : List Text) → IsDescending before → IsDescending (sink key before)
unfolding sink IsDescending
sink-IsDescending key [] d = tt
sink-IsDescending key (left ∷ before) d = elim (Bool-cases (less key left)) [
  | inl e ↦ rw e (sink-below key left before e d)
  | inr e ↦ rw e (e, d)
]

sort_from-IsDescending :
    (before after : List Text) → IsDescending before → IsDescending (sort_from before after)
unfolding sort_from
sort_from-IsDescending before [] d = d
sort_from-IsDescending before (key ∷ after) d =
    sort_from-IsDescending (sink key before) after (sink-IsDescending key before d)

Joins : List Text → List Text → Type 0
Joins [] r = Unit
Joins (x ∷ l) [] = Unit
Joins (x ∷ l) (y ∷ r) = less y x ≡ false

nil-Joins : (l : List Text) → Joins l []
unfolding Joins
nil-Joins [] = tt
nil-Joins (x ∷ l) = tt

reverse-IsSorted :
    (l r : List Text) → IsDescending l → IsSorted r → Joins l r → IsSorted (reverse_aux l r)
unfolding IsDescending IsSorted Joins
reverse-IsSorted [] r d s j = s
reverse-IsSorted (x ∷ []) [] d s j = tt
reverse-IsSorted (x ∷ []) (y ∷ r) d s j = (j, s)
reverse-IsSorted (x ∷ z ∷ l) [] (d, ds) s j = reverse-IsSorted (z ∷ l) (x ∷ []) ds tt d
reverse-IsSorted (x ∷ z ∷ l) (y ∷ r) (d, ds) s j = reverse-IsSorted (z ∷ l) (x ∷ y ∷ r) ds (j, s) d

sink-perm : (key : Text) (before : List Text) → Perm (sink key before) (key ∷ before)
unfolding sink
sink-perm key [] = Perm.refl (key ∷ [])
sink-perm key (left ∷ before) = elim (Bool-cases (less key left)) [
  | inl e ↦ rw e (Perm.trans (Perm.cons left (sink-perm key before)) (Perm.swap key left before))
  | inr e ↦ rw e (Perm.refl (key ∷ left ∷ before))
]

sort_from-perm : (before after : List Text) → Perm (sort_from before after) (before ++ after)
unfolding sort_from
sort_from-perm before [] = rw (append-nil before) (Perm.refl before)
sort_from-perm before (key ∷ after) = Perm.trans (sort_from-perm (sink key before) after) (
    Perm.trans (Perm.append_right after (sink-perm key before))
      (Perm.symm (perm_middle before after)))

-- `sortedKeys` returns the keys of the map, each as often as it stands there, in the order of strings: no
-- key is less than the one before it.
pub sorted_keys_lem :
    (values : Map Text) → IsSorted (sorted_keys values) × Perm (sorted_keys values) (keys values)
unfolding sorted_keys IsDescending IsSorted Joins
sorted_keys_lem values =
    let sorted = sort_from [] (keys values) in
    (
      reverse-IsSorted sorted [] (sort_from-IsDescending [] (keys values) tt) tt (nil-Joins sorted),
      Perm.trans (reverse_perm sorted) (sort_from-perm [] (keys values)),
    )
