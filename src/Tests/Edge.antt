-- ===== src/Tests/Edge.antt =====
-- cmd/edgeproxy/main.go at concrete inputs: a cache of 10 bytes, with objects of at most 6.
use myzerossl.Prelude.{ℕ, true, false, [], ◌∷◌, some, take, length, ◌≡◌, ◌<◌, refl, arith}
use myzerossl.Prelude.Int.{pos}
use myzerossl.Text.{codes, Text-discrete, split, to_lower, cut, trim_space, trim_char, contains}
use myzerossl.Text.Decimal.{parse_int, parse_uint, scan_digits}
use myzerossl.Map.{lookup}
use myzerossl.Edge.Http.{get, Request, Stream, Response}
use myzerossl.Edge.CacheControl.{
  is_cacheable_response, cache_directive_seconds, cache_control_of, ttl_for, first_seconds,
  directive_seconds, cache_ttl_from_response,
}
use myzerossl.Edge.CacheControl.Lifetime.{Lifetime, cacheable-Lifetime}
use myzerossl.Edge.Cache.{ResponseCache, new_response_cache, enabled, replace_body, store}
use myzerossl.Edge.Cache.Sound.{IsSound, new_response_cache-IsSound, store-IsSound}
use myzerossl.Edge.Cache.Truncation.{store_truncates}

abbrev cache : ResponseCache
cache = record {
  ttl = pos 60000000000;
  max_bytes = 10;
  max_object_bytes = 6;
  bytes = 0;
  ll = [];
  items = [];
  next_address = 0;
}

cache-IsSound : IsSound cache
unfolding new_response_cache
cache-IsSound = new_response_cache-IsSound 10 6 (pos 60000000000)

abbrev page : Request
page = record {
  method = codes "GET";
  host = codes "a.test";
  request_uri = codes "/";
  path = codes "/";
  header = [];
}

abbrev stream : ℕ → Stream
stream n = record { bytes = take n (1 ∷ 2 ∷ 3 ∷ 4 ∷ 5 ∷ 6 ∷ 7 ∷ 8 ∷ 9 ∷ []); fails = false }

abbrev response : ℕ → Response
response n = record {
  status_code = 200;
  header = (codes "Cache-Control", codes "public, max-age=0" ∷ []) ∷ [];
  body = some (stream n);
  content_length = pos n;
}

abbrev stored : ResponseCache
stored = (store cache 5 page (response 5)).cache

stored-IsSound : IsSound stored
stored-IsSound = store-IsSound cache 5 page (response 5) cache-IsSound

store_truncates_example :
    (store cache 5 page (response 9) ≡ record {
      cache = cache;
      response = replace_body (response 9) (take 7 (stream 9).bytes);
      failed = false;
    })
    × (length (take 7 (stream 9).bytes) < 9)
unfolding enabled
store_truncates_example =
    store_truncates cache 5 page (response 9) (stream 9) refl (omega arith) refl (omega arith)

cacheable : is_cacheable_response page (response 5) ≡ true
unfolding is_cacheable_response cache_control_of get lookup Text-discrete to_lower contains
cacheable = refl

cacheable-Lifetime_example :
    Lifetime (response 5) (pos 60000000000) (cache_ttl_from_response (response 5) (pos 60000000000))
cacheable-Lifetime_example = cacheable-Lifetime page (response 5) (pos 60000000000) cacheable

-- `max-age=0` does not keep a public response out of the cache.
public_max_age_zero : cache_ttl_from_response (response 5) (pos 60000000000) ≡ pos 60000000000
unfolding cache_ttl_from_response ttl_for cache_control_of cache_directive_seconds first_seconds
    directive_seconds get lookup Text-discrete to_lower contains split cut trim_space trim_char
    parse_int parse_uint scan_digits
public_max_age_zero = refl
