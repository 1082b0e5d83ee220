-- ===== src/Map.antt =====
-- Go maps with string keys: an association list in some order of iteration. Go's `range` promises no
-- order, so a theorem about a loop over a map says what it says for every order.
pub mod Laws
use mathlib.Core.Logic.{ite}
use mathlib.Core.List.{List, [], ◌∷◌, map}
use mathlib.Core.Option.{Option, none, some}
use myzerossl.Prelude.{◌≡◌, Bool, true, false, if◌then◌else◌, ◌||◌, ◌≢◌, All, ◌++◌}
use myzerossl.Text.{Text, Text-discrete, same}

abbrev pub Map {ℓ} : Type ℓ → Type ℓ
Map V = List (Text × V)

module _ {ℓ} {V : Type ℓ} where
  abbrev pub keys : Map V → List Text
  keys = map (λ e. e.0)

  -- `v, ok := m[k]`
  unfoldable pub lookup : Text → Map V → Option V
  lookup k [] = none
  lookup k ((j, v) ∷ m) = if same j k then some v else lookup k m

  -- `m[k] = v`
  unfoldable pub insert : Text → V → Map V → Map V
  insert k v [] = (k, v) ∷ []
  insert k v ((j, w) ∷ m) = if same j k then (j, v) ∷ m else (j, w) ∷ insert k v m

  -- `delete(m, k)`
  unfoldable pub remove : Text → Map V → Map V
  remove k [] = []
  remove k ((j, v) ∷ m) = let rest = remove k m in if same j k then rest else (j, v) ∷ rest

  -- No key stands twice.
  abbrev pub HasDistinctKeys : Map V → Type ℓ
  HasDistinctKeys [] = Unit
  HasDistinctKeys ((k, v) ∷ m) = (lookup k m ≡ none) × HasDistinctKeys m

-- A `map[string]struct{}`: its keys
unfoldable pub member : Text → List Text → Bool
member k [] = false
member k (j ∷ s) = same j k || member k s

-- `s[k] = struct{}{}`
unfoldable pub add : Text → List Text → List Text
unfolding member
add k s = if member k s then s else s ++ k ∷ []
