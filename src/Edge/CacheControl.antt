-- ===== src/Edge/CacheControl.antt =====
-- cmd/edgeproxy/main.go: which responses may be cached and for how long, and which are compressed.
pub mod Lifetime
use myzerossl.Prelude.{
  ℕ, ◌*◌, Bool, true, false, not, ◌&&◌, ◌||◌, List, [], ◌∷◌, Option, none, some, ◌==◌,
  if◌then◌else◌, is_empty,
}
use myzerossl.Prelude.Int.{ℤ, pos, negsuc, is_positive, to_int64}
use myzerossl.Text.{
  Text, codes, same, to_lower, split, cut, trim_space, trim_char, contains, has_prefix,
}
use myzerossl.Text.Decimal.{parse_int}
use myzerossl.Edge.Http.{get, Request, Response}

-- The seconds of one directive, if it is the named one with a positive number
abbrev pub positive_seconds : Option ℤ → Option ℕ
positive_seconds none = none
positive_seconds (some (pos n)) = if n == 0 then none else some n
positive_seconds (some (negsuc n)) = none

unfoldable pub directive_seconds : Text → Text → Option ℕ
directive_seconds name part =
    let pieces = cut b'=' (trim_space part) in
    if not pieces.found || not (same (trim_space pieces.before) name)
    then none
    else positive_seconds (parse_int (trim_char b'"' pieces.after))

-- The loop of `cacheDirectiveSeconds`
abbrev pub or_else : Option ℕ → ℕ → ℕ
or_else none n = n
or_else (some m) n = m

unfoldable pub first_seconds : Text → List Text → ℕ
first_seconds name [] = 0
first_seconds name (part ∷ parts) = or_else (directive_seconds name part) (first_seconds name parts)

unfoldable pub cache_directive_seconds : Text → Text → ℕ
cache_directive_seconds cache_control name = first_seconds name (split b',' cache_control)

abbrev pub s_maxage : Text
s_maxage = codes "s-maxage"

abbrev pub max_age : Text
max_age = codes "max-age"

unfoldable pub cache_control_of : Response → Text
cache_control_of resp = to_lower (get resp.header (codes "Cache-Control"))

abbrev pub forbids : Text → Bool
forbids cc =
    contains (codes "private") cc
    || contains (codes "no-store") cc
    || contains (codes "no-cache") cc

abbrev pub allows : Text → Bool
allows cc =
    contains (codes "public") cc
    || not (cache_directive_seconds cc s_maxage == 0)
    || not (cache_directive_seconds cc max_age == 0)

unfoldable pub is_cacheable_response : Request → Response → Bool
is_cacheable_response r resp =
    same r.method (codes "GET")
    && is_empty (get r.header (codes "Authorization"))
    && resp.status_code == 200
    && not (forbids (cache_control_of resp))
    && is_empty (get resp.header (codes "Set-Cookie"))
    && is_empty (get resp.header (codes "Authorization"))
    && allows (cache_control_of resp)

-- `time.Second` in nanoseconds; the product wraps around in `int64`
abbrev pub second : ℕ
second = 1000000000

unfoldable pub seconds_to_duration : ℕ → ℤ
seconds_to_duration n = to_int64 (n * second)

unfoldable pub ttl_for : Text → ℤ → ℤ
ttl_for cc fallback =
    if not (cache_directive_seconds cc s_maxage == 0)
    then seconds_to_duration (cache_directive_seconds cc s_maxage)
    else if not (cache_directive_seconds cc max_age == 0)
    then seconds_to_duration (cache_directive_seconds cc max_age)
    else fallback

unfoldable pub cache_ttl_from_response : Response → ℤ → ℤ
cache_ttl_from_response resp fallback = ttl_for (cache_control_of resp) fallback

unfoldable pub should_gzip : Request → Response → Bool
should_gzip r resp =
    let content_type = to_lower (get resp.header (codes "Content-Type")) in
    not (same r.method (codes "HEAD"))
    && contains (codes "gzip") (to_lower (get r.header (codes "Accept-Encoding")))
    && is_empty (get resp.header (codes "Content-Encoding"))
    && is_empty (get resp.header (codes "Upgrade"))
    && (has_prefix (codes "text/") content_type
        || contains (codes "json") content_type
        || contains (codes "javascript") content_type
        || contains (codes "xml") content_type)
