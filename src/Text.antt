-- ===== src/Text.antt =====
-- Go strings and the functions of `strings` that the program calls. A text is the list of its code
-- points, so a string that is not valid UTF-8 has no counterpart; `byte_len` is Go's `len`.
pub mod Laws
pub mod Decimal
pub mod Lines
use Prim.Native.Char.{code}
use native.Mathlib.Decide.{ℕ_discrete}
use myzerossl.Prelude.{
  ℕ, zero, suc, ◌+◌, ◌-◌, String, Bool, true, false, not, ◌&&◌, ◌||◌, List, [], ◌∷◌, ◌++◌, ltb, leb,
  ◌==◌, if◌then◌else◌, map, length, drop, is_empty,
}

abbrev pub Text : Type 0
Text = List ℕ

-- The code points of a literal.
abbrev pub codes : String → Text
codes String.[] = []
codes (String.◌∷◌ c s) = code c ∷ codes s

unfoldable pub Text-discrete : Discrete Text
unfolding ℕ_discrete
Text-discrete = hlevel ℕ_discrete

-- `a == b` on strings
abbrev pub same : Text → Text → Bool
same a b = elim (Text-discrete a b) [ yes _ ↦ true | no _ ↦ false ]

abbrev pub differ : Text → Text → Bool
differ a b = not (same a b)

-- The bytes of a code point in UTF-8.
abbrev rune_len : ℕ → ℕ
rune_len c = if ltb c 0x80 then 1 else if ltb c 0x800 then 2 else if ltb c 0x10000 then 3 else 4

-- `len(s)`
unfoldable pub byte_len : Text → ℕ
byte_len [] = 0
byte_len (c ∷ s) = rune_len c + byte_len s

-- `unicode.IsSpace`
unfoldable pub is_space : ℕ → Bool
is_space c =
    (leb 9 c && leb c 13)
    || c == 0x20
    || c == 0x85
    || c == 0xa0
    || c == 0x1680
    || (leb 0x2000 c && leb c 0x200a)
    || c == 0x2028
    || c == 0x2029
    || c == 0x202f
    || c == 0x205f
    || c == 0x3000

module _ (cutset : ℕ → Bool) where
  unfoldable pub trim_left : Text → Text
  trim_left [] = []
  trim_left (c ∷ s) = if cutset c then trim_left s else c ∷ s

  abbrev pub keep_from_right : ℕ → Text → Text
  keep_from_right c [] = if cutset c then [] else c ∷ []
  keep_from_right c (d ∷ r) = c ∷ d ∷ r

  unfoldable pub trim_right : Text → Text
  trim_right [] = []
  trim_right (c ∷ s) = keep_from_right c (trim_right s)

-- `strings.TrimSpace`
unfoldable pub trim_space : Text → Text
unfolding trim_left trim_right is_space
trim_space s = trim_right is_space (trim_left is_space s)

-- `strings.TrimRight(s, c)` and `strings.Trim(s, c)` for a cutset of one character
unfoldable pub trim_right_char : ℕ → Text → Text
unfolding trim_right
trim_right_char c s = trim_right (λ d. d == c) s

unfoldable pub trim_char : ℕ → Text → Text
unfolding trim_left trim_right
trim_char c s = trim_right (λ d. d == c) (trim_left (λ d. d == c) s)

-- `strings.HasPrefix(s, prefix)`; the argument order is the other way round
unfoldable pub has_prefix : Text → Text → Bool
has_prefix [] s = true
has_prefix (p ∷ ps) [] = false
has_prefix (p ∷ ps) (c ∷ s) = p == c && has_prefix ps s

-- `strings.HasSuffix`
unfoldable pub has_suffix : Text → Text → Bool
unfolding Text-discrete
has_suffix p s = leb (length p) (length s) && same (drop (length s - length p) s) p

-- `strings.Contains`
unfoldable pub contains : Text → Text → Bool
unfolding has_prefix
contains sub [] = is_empty sub
contains sub (c ∷ s) = has_prefix sub (c ∷ s) || contains sub s

-- `strings.TrimPrefix`, `strings.TrimSuffix`
unfoldable pub trim_prefix : Text → Text → Text
unfolding has_prefix
trim_prefix p s = if has_prefix p s then drop (length p) s else s

abbrev pub take_text : ℕ → Text → Text
take_text zero s = []
take_text (suc n) [] = []
take_text (suc n) (c ∷ s) = c ∷ take_text n s

unfoldable pub trim_suffix : Text → Text → Text
unfolding has_suffix
trim_suffix p s = if has_suffix p s then take_text (length s - length p) s else s

-- `before, after, found := strings.Cut(s, sep)` for a separator of one character
pub record Halves : Type 0 where
  pub before : Text
  pub after : Text
  pub found : Bool

unfoldable pub cut : ℕ → Text → Halves
cut sep [] = record { before = []; after = []; found = false }
cut sep (c ∷ s) =
    let rest = cut sep s in
    if c == sep
    then record { before = []; after = s; found = true }
    else record rest { before = c ∷ rest.before }

abbrev push_head : ℕ → List Text → List Text
push_head c [] = (c ∷ []) ∷ []
push_head c (p ∷ ps) = (c ∷ p) ∷ ps

-- `strings.Split` for a separator of one character
unfoldable pub split : ℕ → Text → List Text
split sep [] = [] ∷ []
split sep (c ∷ s) = let rest = split sep s in if c == sep then [] ∷ rest else push_head c rest

-- `strings.Join` for a separator of one character
unfoldable pub join : ℕ → List Text → Text
join sep [] = []
join sep (p ∷ []) = p
join sep (p ∷ q ∷ ps) = p ++ sep ∷ join sep (q ∷ ps)

-- `strings.ReplaceAll(s, c, by)` for one character
unfoldable pub replace_all : ℕ → Text → Text → Text
replace_all c by [] = []
replace_all c by (d ∷ s) = (if d == c then by else d ∷ []) ++ replace_all c by s

-- `strings.ToLower` and `strings.ToUpper` on ASCII letters; other letters stay as they are.
unfoldable pub to_lower : Text → Text
to_lower = map λ c. if leb b'A' c && leb c b'Z' then c + 32 else c

unfoldable pub to_upper : Text → Text
to_upper = map λ c. if leb b'a' c && leb c b'z' then c - 32 else c

-- `strings.EqualFold`, on the same letters
unfoldable pub equal_fold : Text → Text → Bool
unfolding to_lower Text-discrete
equal_fold a b = same (to_lower a) (to_lower b)
