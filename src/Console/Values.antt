-- ===== src/Console/Values.antt =====
-- cmd/signer-console/main.go: which ids, tokens and paths are accepted, and the loops over its lists.
use myzerossl.Prelude.{
  ℕ, Bool, not, ◌&&◌, ◌||◌, List, [], ◌∷◌, ◌++◌, Option, none, some, leb, ◌==◌, if◌then◌else◌,
  is_empty, all,
}
use myzerossl.Text.{
  Text, codes, same, byte_len, trim_space, trim_char, split, contains, replace_all,
}
use myzerossl.Map.{Map}
use myzerossl.Edge.Http.{get}
use myzerossl.Console.State.{Request, Settings}

abbrev pub is_alphanumeric : ℕ → Bool
is_alphanumeric c =
    (leb b'a' c && leb c b'z') || (leb b'A' c && leb c b'Z') || (leb b'0' c && leb c b'9')

abbrev pub is_id_char : ℕ → Bool
is_id_char c = is_alphanumeric c || c == b'-' || c == b'_' || c == b'.'

abbrev pub is_token_char : ℕ → Bool
is_token_char c = is_alphanumeric c || c == b'-' || c == b'_'

unfoldable pub valid_client_id : Text → Bool
unfolding byte_len
valid_client_id id = leb 3 (byte_len id) && leb (byte_len id) 64 && all is_id_char id

unfoldable pub valid_install_token : Text → Bool
unfolding byte_len
valid_install_token token =
    leb 32 (byte_len token) && leb (byte_len token) 128 && all is_token_char token

-- The id and the action of a path with four parts
abbrev pub action_of : Text → List Text → Option (Text × Text)
action_of kind (a ∷ b ∷ c ∷ d ∷ []) =
    if same a (codes "api") && same b kind then some (c, d) else none
action_of kind _ = none

unfoldable pub parse_client_action : Text → Option (Text × Text)
parse_client_action path = action_of (codes "clients") (split b'/' (trim_char b'/' path))

unfoldable pub parse_registration_action : Text → Option (Text × Text)
parse_registration_action path =
    action_of (codes "registrations") (split b'/' (trim_char b'/' path))

unfoldable pub wants_json : Request → Bool
wants_json r =
    same r.format (codes "json")
    || contains (codes "application/json") (get r.header (codes "Accept"))

unfoldable pub client_address : Request → Text
client_address r =
    let connecting = trim_space (get r.header (codes "Cf-Connecting-Ip")) in
    let real = trim_space (get r.header (codes "X-Real-Ip")) in
    if not (is_empty connecting)
    then connecting
    else if not (is_empty real)
    then real
    else r.remote_addr

unfoldable pub edge_config : Settings → Map Text
edge_config s =
    if is_empty s.edge_keyless_url then [] else (codes "KEYLESS_URL", s.edge_keyless_url) ∷ []

unfoldable pub shell_quote : Text → Text
shell_quote value = b'\'' ∷ (replace_all b'\'' (codes "'\"'\"'") value ++ b'\'' ∷ [])

module _ {ℓ} {A : Type ℓ} (p : A → Bool) where
  -- The first element that fits
  unfoldable pub find : List A → Option A
  find [] = none
  find (x ∷ xs) = if p x then some x else find xs

  -- The list with its first element that fits changed
  unfoldable pub update_first : (A → A) → List A → List A
  update_first f [] = []
  update_first f (x ∷ xs) = let rest = update_first f xs in if p x then f x ∷ xs else x ∷ rest
