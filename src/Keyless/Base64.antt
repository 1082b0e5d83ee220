-- ===== src/Keyless/Base64.antt =====
-- `base64.StdEncoding` of Go's library, which carries payloads and signatures over the wire.
pub mod RoundTrip
use Prim.Native.Nat.{◌*◌}
use myzerossl.Prelude.{
  ℕ, ◌+◌, ◌-◌, ◌/◌, ◌%◌, ◌<◌, Bool, true, false, ◌&&◌, ◌||◌, not, List, [], ◌∷◌, Option, none, some,
  leb, ltb, ◌==◌, if◌then◌else◌, ◌≡◌, refl, arith, All,
}
use myzerossl.Prelude.Result.{Result, ok, err}
use myzerossl.Text.{Text, codes}

abbrev pub Bytes : Type 0
Bytes = List ℕ

-- The character of a group of six bits, and back
unfoldable pub digit : ℕ → ℕ
digit v =
    if ltb v 26
    then b'A' + v
    else if ltb v 52
    then b'a' + (v - 26)
    else if ltb v 62
    then b'0' + (v - 52)
    else if v == 62
    then b'+'
    else b'/'

unfoldable pub digit_value : ℕ → Option ℕ
digit_value c =
    if leb b'A' c && leb c b'Z'
    then some (c - b'A')
    else if leb b'a' c && leb c b'z'
    then some (c - b'a' + 26)
    else if leb b'0' c && leb c b'9'
    then some (c - b'0' + 52)
    else if c == b'+'
    then some 62
    else if c == b'/'
    then some 63
    else none

-- `EncodeToString`
unfoldable pub encode : Bytes → Text
unfolding digit
encode [] = []
encode (a ∷ []) = digit (a / 4) ∷ digit ((a % 4) * 16) ∷ b'=' ∷ b'=' ∷ []
encode (a ∷ b ∷ []) =
    digit (a / 4) ∷ digit ((a % 4) * 16 + b / 16) ∷ digit ((b % 16) * 4) ∷ b'=' ∷ []
encode (a ∷ b ∷ c ∷ r) =
    digit (a / 4)
    ∷ digit ((a % 4) * 16 + b / 16)
    ∷ digit ((b % 16) * 4 + c / 64)
    ∷ digit (c % 64)
    ∷ encode r

abbrev corrupt : Result Bytes
corrupt = err (codes "illegal base64 data")

-- The bytes of one quantum, of which the last two characters may be padding at the end of the input
abbrev three : Option ℕ → Option ℕ → Option ℕ → Option ℕ → Result Bytes → Result Bytes
three (some u) (some v) (some w) (some x) (ok r) =
    ok ((u * 4 + v / 16) ∷ ((v % 16) * 16 + w / 4) ∷ ((w % 4) * 64 + x) ∷ r)
three (some u) (some v) (some w) (some x) (err e) = err e
three _ _ _ _ _ = corrupt

abbrev two : Option ℕ → Option ℕ → Option ℕ → Result Bytes
two (some u) (some v) (some w) = ok ((u * 4 + v / 16) ∷ ((v % 16) * 16 + w / 4) ∷ [])
two _ _ _ = corrupt

abbrev one : Option ℕ → Option ℕ → Result Bytes
one (some u) (some v) = ok ((u * 4 + v / 16) ∷ [])
one _ _ = corrupt

unfoldable pub last_quantum : ℕ → ℕ → ℕ → ℕ → Result Bytes
unfolding digit_value
last_quantum a b c d =
    if d == b'='
    then (if c == b'='
        then one (digit_value a) (digit_value b)
        else two (digit_value a) (digit_value b) (digit_value c))
    else three (digit_value a) (digit_value b) (digit_value c) (digit_value d) (ok [])

unfoldable pub decode_quanta : Text → Result Bytes
unfolding last_quantum digit_value
decode_quanta [] = ok []
decode_quanta (a ∷ b ∷ c ∷ d ∷ []) = last_quantum a b c d
decode_quanta (a ∷ b ∷ c ∷ d ∷ r) =
    three (digit_value a) (digit_value b) (digit_value c) (digit_value d) (decode_quanta r)
decode_quanta _ = corrupt

-- `DecodeString` skips line ends first.
unfoldable pub drop_line_ends : Text → Text
drop_line_ends [] = []
drop_line_ends (c ∷ s) =
    let rest = drop_line_ends s in if c == 10 || c == 13 then rest else c ∷ rest

unfoldable pub decode : Text → Result Bytes
unfolding decode_quanta drop_line_ends
decode s = decode_quanta (drop_line_ends s)
