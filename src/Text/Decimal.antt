-- ===== src/Text/Decimal.antt =====
-- `strconv.Itoa`, and `strconv.ParseInt(s, 10, 64)`.
use myzerossl.Prelude.{
  ℕ, zero, suc, ◌+◌, ◌-◌, ◌*◌, ◌/◌, ◌%◌, ◌^◌, ◌||◌, [], ◌∷◌, ltb, leb, ◌==◌, if◌then◌else◌, Option,
  none, some,
}
use myzerossl.Prelude.Int.{ℤ, pos, negsuc}
use myzerossl.Text.{Text}

-- The digits of a number below 10 ^ fuel; 20 digits are enough for a 64-bit number.
unfoldable pub emit : ℕ → ℕ → Text → Text
emit zero n out = out
emit (suc fuel) n out =
    let rest = emit fuel (n / 10) ((b'0' + n % 10) ∷ out) in if n == 0 then out else rest

unfoldable pub itoa : ℕ → Text
unfolding emit
itoa n = if n == 0 then b'0' ∷ [] else emit 20 n []

-- The loop of `ParseUint`; past 64 bits it fails.
unfoldable pub scan_digits : ℕ → Text → Option ℕ
scan_digits n [] = some n
scan_digits n (c ∷ s) =
    let m = n * 10 + (c - b'0') in
    if ltb c b'0' || ltb b'9' c || leb (2 ^ 64) m then none else scan_digits m s

unfoldable pub parse_uint : Text → Option ℕ
parse_uint [] = none
parse_uint (c ∷ s) = scan_digits 0 (c ∷ s)

abbrev pub positive : Option ℕ → Option ℤ
positive none = none
positive (some n) = if ltb n (2 ^ 63) then some (pos n) else none

abbrev pub negative : Option ℕ → Option ℤ
negative none = none
negative (some n) =
    if n == 0 then some (pos 0) else if leb n (2 ^ 63) then some (negsuc (n - 1)) else none

unfoldable pub parse_int : Text → Option ℤ
parse_int [] = none
parse_int (c ∷ s) =
    if c == b'+'
    then positive (parse_uint s)
    else if c == b'-'
    then negative (parse_uint s)
    else positive (parse_uint (c ∷ s))
