-- ===== src/Edge/Config.antt =====
-- cmd/edgeproxy/main.go: how the settings of the edge node are found.
pub mod Ranges
use myzerossl.Prelude.{
  ℕ, List, [], ◌∷◌, Option, none, some, Bool, true, false, if◌then◌else◌, is_empty, not, ◌||◌,
}
use myzerossl.Prelude.Int.{ℤ, pos, negsuc}
use myzerossl.Prelude.Result.{Result, ok, err}
use myzerossl.Text.{Text, codes, split, trim_space}
use myzerossl.Text.Decimal.{parse_int}
use myzerossl.Map.{Map, lookup}

abbrev pub or_empty : Option Text → Text
or_empty none = []
or_empty (some v) = v

-- `applyEnv`: what the target holds afterwards
unfoldable pub apply_env : Map Text → Text → Text → Text
apply_env environ name target =
    let value = or_empty (lookup name environ) in if is_empty value then target else value

-- `applyRemoteDefault`; no configuration is a nil map
unfoldable pub apply_remote_default : Text → Text → Option (Map Text) → Text
apply_remote_default name target none = target
apply_remote_default name target (some config) =
    let value = trim_space (or_empty (lookup name config)) in
    if not (is_empty target) then target else if is_empty value then target else value

unfoldable pub filled_parts : List Text → List Text
filled_parts [] = []
filled_parts (part ∷ parts) =
    let rest = filled_parts parts in
    let listen = trim_space part in if is_empty listen then rest else listen ∷ rest

abbrev pub or_default_listen : List Text → List Text
or_default_listen [] = codes ":443" ∷ []
or_default_listen (l ∷ ls) = l ∷ ls

unfoldable pub split_listens : Text → List Text
split_listens value = or_default_listen (filled_parts (split b',' value))

abbrev pub non_negative : Option ℤ → Result ℕ
non_negative (some (pos n)) = ok n
non_negative (some (negsuc n)) = err (codes "parse byte size")
non_negative none = err (codes "parse byte size")

-- `mustParseBytes`; an error ends the program
unfoldable pub must_parse_bytes : Text → Result ℕ
must_parse_bytes value = if is_empty value then ok 0 else non_negative (parse_int value)
