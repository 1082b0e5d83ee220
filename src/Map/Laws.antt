-- ===== src/Map/Laws.antt =====
-- Map laws in `if` form.
use myzerossl.Prelude.{if◌then◌else◌, ◌||◌, ◌++◌, ◌≡◌, refl, List, [], ◌∷◌, none, some, arith}
use myzerossl.Text.{Text, same}
use myzerossl.Map.{Map, lookup, insert, remove, HasDistinctKeys, member, add}

module _ {ℓ} {V : Type ℓ} where
  pub lookup-insert :
      (k j : Text) (v : V) (m : Map V)
      → lookup j (insert k v m) ≡ (if same k j then some v else lookup j m)
  unfolding lookup insert
  lookup-insert k j v [] = ground arith
  lookup-insert k j v ((i, w) ∷ m) = ground (arith, lookup-insert k j v m)

  pub lookup-remove :
      (k j : Text) (m : Map V) → lookup j (remove k m) ≡ (if same k j then none else lookup j m)
  unfolding lookup remove
  lookup-remove k j [] = ground arith
  lookup-remove k j ((i, w) ∷ m) = ground (arith, lookup-remove k j m)

  pub insert-HasDistinctKeys :
      (k : Text) (v : V) (m : Map V) → HasDistinctKeys m → HasDistinctKeys (insert k v m)
  unfolding insert lookup
  insert-HasDistinctKeys k v [] d = (refl, tt)
  insert-HasDistinctKeys k v ((i, w) ∷ m) d =
      ground (arith, insert-HasDistinctKeys k v m, lookup-insert k i v m)

pub member-append : (k : Text) (s t : List Text) → member k (s ++ t) ≡ (member k s || member k t)
unfolding member
member-append k [] t = refl
member-append k (j ∷ s) t = ground (arith, member-append k s t)

pub member-concat : (j k : Text) (s : List Text) → member j (s ++ k ∷ []) ≡ (member j s || same k j)
unfolding member
member-concat j k [] = ground arith
member-concat j k (i ∷ s) = ground (arith, member-concat j k s)

pub member-add : (k j : Text) (s : List Text) → member j (add k s) ≡ (same k j || member j s)
unfolding add member
member-add k j s = ground (arith, member-append j s (k ∷ []))
