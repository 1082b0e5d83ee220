-- ===== src/Wizard/EnvFile.antt =====
-- cmd/setup-wizard/main.go: `sortedKeys`, `envQuote` and the text that `writeEnv` writes.
use myzerossl.Prelude.{
  Bool, true, false, ◌||◌, ◌&&◌, List, [], ◌∷◌, ◌++◌, Option, none, some, ltb, ◌==◌, if◌then◌else◌,
}
use mathlib.Core.List.{reverse}
use myzerossl.Text.{Text, codes, replace_all}
use myzerossl.Map.{Map, keys, lookup}

-- `a < b` on strings: the order of the bytes in UTF-8 is the order of the code points
unfoldable pub less : Text → Text → Bool
less a [] = false
less [] (d ∷ b) = true
less (c ∷ a) (d ∷ b) = ltb c d || (c == d && less a b)

-- The inner loop: `before` is what stands left of `keys[j]`, the nearest first
unfoldable pub sink : Text → List Text → List Text
sink key [] = key ∷ []
sink key (left ∷ before) =
    let rest = sink key before in if less key left then left ∷ rest else key ∷ left ∷ before

-- The outer loop, on `keys[:i]` in the same order and `keys[i:]`
unfoldable pub sort_from : List Text → List Text → List Text
sort_from before [] = before
sort_from before (key ∷ after) = sort_from (sink key before) after

unfoldable pub sorted_keys {ℓ} : {V : Type ℓ} → Map V → List Text
sorted_keys values = reverse (sort_from [] (keys values))

unfoldable pub env_quote : Text → Text
env_quote value =
    b'"' ∷ (replace_all b'"' (codes "\\\"") (replace_all b'\\' (codes "\\\\") value) ++ b'"' ∷ [])

-- `values[key]`
abbrev pub value_or_empty : Option Text → Text
value_or_empty none = []
value_or_empty (some v) = v

unfoldable pub env_line : Map Text → Text → Text
env_line values key = key ++ b'=' ∷ (env_quote (value_or_empty (lookup key values)) ++ 10 ∷ [])

unfoldable pub env_lines : Map Text → List Text → Text
env_lines values [] = []
env_lines values (key ∷ rest) = env_line values key ++ env_lines values rest

-- What `writeEnv` writes
unfoldable pub env_text : Map Text → Text
env_text values = env_lines values (sorted_keys values)
