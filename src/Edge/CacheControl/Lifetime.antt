-- ===== src/Edge/CacheControl/Lifetime.antt =====
-- How long `cacheTTLFromResponse` keeps a response that `isCacheableResponse` lets in.
use myzerossl.Prelude.{
  ℕ, zero, suc, true, ◌≡◌, ◌≢◌, refl, ap, ◌⊎◌, inl, inr, List, [], ◌∷◌, ◌++◌, Option, none, some,
  arith, All, Option-cases,
}
use myzerossl.Prelude.Int.{ℤ, pos, negsuc}
use myzerossl.Text.{Text, codes, split, cut, trim_space, trim_char, contains}
use myzerossl.Text.Decimal.{parse_int}
use myzerossl.Edge.Http.{Request, Response}
use myzerossl.Edge.CacheControl.{
  positive_seconds, directive_seconds, first_seconds, cache_directive_seconds, s_maxage, max_age,
  cache_control_of, is_cacheable_response, seconds_to_duration, ttl_for, cache_ttl_from_response,
}

-- No directive of the list has the name and a positive number.
pub IsAbsent : Text → List Text → Type 0
IsAbsent name parts = All (λ part. directive_seconds name part ≡ none) parts

-- The first directive of the list that has the name and a positive number has the number `n`.
pub IsFirst : Text → List Text → ℕ → Type 0
IsFirst name parts n =
    (earlier : List Text) × (part : Text) × (later : List Text) × (parts ≡ earlier ++ part ∷ later)
    × (directive_seconds name part ≡ some n)
    × IsAbsent name earlier

positive_seconds-zero : (o : Option ℤ) → positive_seconds o ≢ some 0
positive_seconds-zero none e = ground arith
positive_seconds-zero (some (pos zero)) e = ground arith
positive_seconds-zero (some (pos (suc n))) e = ground arith
positive_seconds-zero (some (negsuc n)) e = ground arith

directive_seconds-zero : (name part : Text) → directive_seconds name part ≢ some 0
unfolding directive_seconds
directive_seconds-zero name part e =
    let pieces = cut b'=' (trim_space part) in
    let number = positive_seconds-zero (parse_int (trim_char b'"' pieces.after)) in
    ground (arith, number)

first_seconds-IsAbsent :
    (name : Text) (parts : List Text) → first_seconds name parts ≡ 0 → IsAbsent name parts
unfolding first_seconds IsAbsent
first_seconds-IsAbsent name [] e = tt
first_seconds-IsAbsent name (part ∷ parts) e = elim (Option-cases (directive_seconds name part)) [
  | inl n ↦ (n, first_seconds-IsAbsent name parts (ground arith))
  | inr (m, f) ↦ absurd (ground (arith, directive_seconds-zero name part))
]

first_seconds-IsFirst :
    (name : Text) (parts : List Text) (n : ℕ)
    → first_seconds name parts ≡ suc n
    → IsFirst name parts (suc n)
unfolding first_seconds IsFirst IsAbsent
first_seconds-IsFirst name [] n e = absurd (ground arith)
first_seconds-IsFirst name (part ∷ parts) n e = elim (Option-cases (directive_seconds name part)) [
  | inl m ↦
      let (earlier, found, later, at, number, absent) =
        first_seconds-IsFirst name parts n (ground arith) in
      (part ∷ earlier, found, later, ap (◌∷◌ part) at, number, (m, absent))
  | inr (m, f) ↦ ([], part, parts, refl, ground arith, tt)
]

pub directives : Response → List Text
directives resp = split b',' (cache_control_of resp)

-- The lifetime of a response: the first `s-maxage` with a positive number, or else the first
-- `max-age` with one, or else the fallback.
pub Lifetime : Response → ℤ → ℤ → Type 0
Lifetime resp fallback ttl =
    ((n : ℕ) × IsFirst s_maxage (directives resp) n × (ttl ≡ seconds_to_duration n))
    ⊎ (((n : ℕ) × IsAbsent s_maxage (directives resp)
          × IsFirst max_age (directives resp) n
          × (ttl ≡ seconds_to_duration n))
        ⊎ (IsAbsent s_maxage (directives resp)
            × IsAbsent max_age (directives resp)
            × (contains (codes "public") (cache_control_of resp) ≡ true)
            × (ttl ≡ fallback)))

seconds-cases :
    (name : Text) (parts : List Text)
    → ((first_seconds name parts ≡ 0) × IsAbsent name parts)
      ⊎ ((n : ℕ) × (first_seconds name parts ≡ suc n) × IsFirst name parts (suc n))
seconds-cases name parts =
    split (first_seconds name parts) (first_seconds-IsAbsent name parts)
      (first_seconds-IsFirst name parts)
  where
    split :
        (m : ℕ)
        → (m ≡ 0 → IsAbsent name parts)
        → ((n : ℕ) → m ≡ suc n → IsFirst name parts (suc n))
        → ((m ≡ 0) × IsAbsent name parts) ⊎ ((n : ℕ) × (m ≡ suc n) × IsFirst name parts (suc n))
    split zero f g = inl (refl, f refl)
    split (suc n) f g = inr (n, refl, g n refl)

-- A response that may be cached lives for the first `s-maxage` of its `Cache-Control` with a positive
-- number; if there is none, for the first `max-age` with one; and if there is none of those either it
-- is `public` and lives for the fallback, whatever else its `Cache-Control` says.
pub cacheable-Lifetime :
    (r : Request) (resp : Response) (fallback : ℤ)
    → is_cacheable_response r resp ≡ true
    → Lifetime resp fallback (cache_ttl_from_response resp fallback)
unfolding is_cacheable_response cache_ttl_from_response ttl_for cache_directive_seconds Lifetime
    directives
cacheable-Lifetime r resp fallback h =
    let parts = split b',' (cache_control_of resp) in
    elim (seconds-cases s_maxage parts) [
      | inr (n, e, first) ↦ inl (suc n, first, rw e (ground arith))
      | inl (z, absent) ↦ elim (seconds-cases max_age parts) [
        | inr (n, e, first) ↦ inr (inl (suc n, absent, first, rw (z, e) (ground arith)))
        | inl (z', absent') ↦ inr (inr (absent, absent', ground arith, rw (z, z') refl))
      ]
    ]
