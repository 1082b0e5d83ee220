-- ===== src/Edge/Http.antt =====
-- Go's `http.Header`, requests and responses, as far as cmd/edgeproxy/main.go reads and writes them.
-- Header names are in canonical form.
use myzerossl.Prelude.{
  ℕ, ◌-◌, ◌+◌, Bool, true, false, ◌&&◌, ◌||◌, List, [], ◌∷◌, ◌++◌, Option, none, some, leb, ◌==◌,
  all, any, if◌then◌else◌,
}
use myzerossl.Prelude.Int.{ℤ}
use myzerossl.Text.{Text, codes}
use myzerossl.Map.{Map, lookup, insert, remove}

-- `textproto.CanonicalMIMEHeaderKey`: letters are upper case at the start and behind a hyphen, and lower
-- case elsewhere; a name with a character that is none of a token stays as it is
unfoldable pub is_token_char : ℕ → Bool
is_token_char c =
    (leb b'a' c && leb c b'z')
    || (leb b'A' c && leb c b'Z')
    || (leb b'0' c && leb c b'9')
    || any (λ d. d == c) (codes "!#$%&'*+-.^_`|~")

abbrev pub cased : Bool → ℕ → ℕ
cased true c = if leb b'a' c && leb c b'z' then c - 32 else c
cased false c = if leb b'A' c && leb c b'Z' then c + 32 else c

unfoldable pub canonical_from : Bool → Text → Text
canonical_from upper [] = []
canonical_from upper (c ∷ s) = cased upper c ∷ canonical_from (c == b'-') s

unfoldable pub canonical_key : Text → Text
canonical_key name = if all is_token_char name then canonical_from true name else name

abbrev pub Header : Type 0
Header = Map (List Text)

abbrev pub first_value : Option (List Text) → Text
first_value none = []
first_value (some []) = []
first_value (some (v ∷ vs)) = v

-- `header.Get(name)`
unfoldable pub get : Header → Text → Text
get h name = first_value (lookup name h)

-- `header.Set(name, value)`
unfoldable pub set : Header → Text → Text → Header
set h name value = insert name (value ∷ []) h

abbrev pub all_values : Option (List Text) → List Text
all_values none = []
all_values (some vs) = vs

-- `header.Add(name, value)`
unfoldable pub add : Header → Text → Text → Header
add h name value = insert name (all_values (lookup name h) ++ value ∷ []) h

-- `header.Del(name)`
unfoldable pub del : Header → Text → Header
del h name = remove name h

pub record Request : Type 0 where
  pub method : Text
  pub host : Text
  pub request_uri : Text
  pub path : Text
  pub header : Header

-- A body delivers its bytes, and may then fail instead of ending.
pub record Stream : Type 0 where
  pub bytes : List ℕ
  pub fails : Bool

pub record Response : Type 0 where
  pub status_code : ℕ
  pub header : Header
  pub body : Option Stream
  pub content_length : ℤ
