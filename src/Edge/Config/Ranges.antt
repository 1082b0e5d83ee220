-- ===== src/Edge/Config/Ranges.antt =====
-- The range of the settings that are parsed.
use myzerossl.Prelude.{
  ℕ, ◌^◌, ◌<◌, ◌≡◌, ◌≢◌, List, [], ◌∷◌, Option, none, some, arith, is_empty, All, Bool-cases, inl,
  inr,
}
use myzerossl.Prelude.Int.{ℤ, pos, negsuc}
use myzerossl.Prelude.Result.{ok}
use myzerossl.Text.{Text, split, trim_space}
use myzerossl.Text.Decimal.{positive, negative, parse_uint, parse_int}
use myzerossl.Edge.Config.{
  filled_parts, or_default_listen, split_listens, non_negative, must_parse_bytes,
}

positive-lt : (o : Option ℕ) (n : ℕ) → positive o ≡ some (pos n) → n < 2 ^ 63
positive-lt none n h = cc
positive-lt (some m) n h = ground arith

negative-zero : (o : Option ℕ) (n : ℕ) → negative o ≡ some (pos n) → n < 2 ^ 63
negative-zero none n h = cc
negative-zero (some m) n h = ground arith

parse_int-lt : (s : Text) (n : ℕ) → parse_int s ≡ some (pos n) → n < 2 ^ 63
unfolding parse_int
parse_int-lt [] n h = cc
parse_int-lt (c ∷ s) n h = ground (
  arith,
  positive-lt (parse_uint s) n,
  negative-zero (parse_uint s) n,
  positive-lt (parse_uint (c ∷ s)) n,
)

-- A byte size that is accepted fits in an `int64`.
must_parse_bytes-lt : (value : Text) (n : ℕ) → must_parse_bytes value ≡ ok n → n < 2 ^ 63
unfolding must_parse_bytes
must_parse_bytes-lt value n h = elim (Bool-cases (is_empty value)) [
  | inl e ↦ ground arith
  | inr e ↦ parsed (parse_int value) (parse_int-lt value n) (ground arith)
]
  where
    parsed : (o : Option ℤ) → (o ≡ some (pos n) → n < 2 ^ 63) → non_negative o ≡ ok n → n < 2 ^ 63
    parsed none bound e = cc
    parsed (some (pos m)) bound e = bound (ground arith)
    parsed (some (negsuc m)) bound e = cc

filled_parts-filled : (parts : List Text) → All (λ l. l ≢ []) (filled_parts parts)
unfolding filled_parts
filled_parts-filled [] = tt
filled_parts-filled (part ∷ parts) =
    let rest = filled_parts-filled parts in
    elim (Bool-cases (is_empty (trim_space part))) [
      | inl e ↦ rw e rest
      | inr e ↦ rw e (ground arith, rest)
    ]

default_filled :
    (l : List Text)
    → All (λ l. l ≢ []) l
    → (or_default_listen l ≢ []) × All (λ l. l ≢ []) (or_default_listen l)
default_filled [] h = ((λ e. cc), ((λ e. cc), tt))
default_filled (x ∷ l) h = ((λ e. cc), h)

-- The edge node always has an address to listen on, and none of its addresses is blank.
split_listens_filled :
    (value : Text) → (split_listens value ≢ []) × All (λ l. l ≢ []) (split_listens value)
unfolding split_listens
split_listens_filled value =
    default_filled (filled_parts (split b',' value)) (filled_parts-filled (split b',' value))
