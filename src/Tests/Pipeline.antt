-- ===== src/Tests/Pipeline.antt =====
-- cmd/edgeproxy/main.go, the handler at concrete inputs: a page of the backend, cached for a minute.
use myzerossl.Prelude.{true, false, [], ◌∷◌, ◌++◌, some, ◌≡◌, ◌≢◌, refl, arith}
use myzerossl.Prelude.Int.{pos}
use myzerossl.Prelude.Result.{ok}
use myzerossl.Text.{
  Text, codes, Text-discrete, to_lower, contains, has_prefix, has_suffix, split, cut, trim_space,
  trim_char,
}
use myzerossl.Text.Decimal.{parse_int, parse_uint, scan_digits}
use myzerossl.Map.{lookup, insert}
use myzerossl.Edge.Http.{get, set, Request, Response}
use myzerossl.Edge.CacheControl.{
  is_cacheable_response, cache_control_of, cache_ttl_from_response, ttl_for,
  cache_directive_seconds, first_seconds, directive_seconds,
}
use myzerossl.Edge.Cache.{
  ResponseCache, new_response_cache, enabled, item, get_entry, fetch, is_after, add_duration,
  cache_key, replace_body, new_entry,
}
use myzerossl.Edge.Cache.Sound.{IsSound, new_response_cache-IsSound}
use myzerossl.Edge.Routes.{match_route}
use myzerossl.Edge.Pipeline.{Proxy, single_joining_slash, outgoing, serve_edge, Visit, visits}
use myzerossl.Edge.Pipeline.Hits.{IsKept, IsStoredAnswer}
use myzerossl.Edge.Pipeline.Keys.{own_hit, foreign_hit}
use myzerossl.Edge.Pipeline.Runs.{edge_history-IsSound}

abbrev page : Response
page = record {
  status_code = 200;
  header = (codes "Cache-Control", codes "public" ∷ []) ∷ [];
  body = some (record { bytes = 1 ∷ 2 ∷ []; fails = false });
  content_length = pos 2;
}

abbrev proxy_at : Text → Proxy
proxy_at base = record {
  written = (codes "Alt-Svc", codes "h3" ∷ []) ∷ [];
  carried = λ h. h;
  base = base;
  compress = λ b. b;
  round_trip = λ r. ok page;
}

abbrev cache : ResponseCache
cache = new_response_cache 10 6 (pos 60000000000)

abbrev asked : Request
asked = record {
  method = codes "GET";
  host = codes "a.test";
  request_uri = codes "/";
  path = codes "/";
  header = [];
}

abbrev asked_head : Request
asked_head = record asked { method = codes "HEAD" }

program : Unit {0}
unfolding new_response_cache enabled outgoing single_joining_slash is_cacheable_response
    cache_control_of get lookup Text-discrete to_lower contains has_prefix has_suffix match_route
    get_entry fetch item cache_key new_entry add_duration is_after cache_ttl_from_response ttl_for
    replace_body cache_directive_seconds first_seconds directive_seconds split cut trim_space
    trim_char parse_int parse_uint scan_digits set insert
program = tt

kept :
    (base : Text)
    → is_cacheable_response (outgoing (λ h. h) base asked) page ≡ true
    → IsKept (proxy_at base) cache asked page (1 ∷ 2 ∷ [])
unfolding new_response_cache enabled
kept base cacheable = record {
  sound = new_response_cache-IsSound 10 6 (pos 60000000000);
  on = refl;
  object_limit = omega arith;
  answer = refl;
  cacheable = cacheable;
  whole = refl;
  object_fits = omega arith;
  fits = omega arith;
}

plain : is_cacheable_response (outgoing (λ h. h) [] asked) page ≡ true
unfolding program
plain = refl

below : is_cacheable_response (outgoing (λ h. h) (codes "/app") asked) page ≡ true
unfolding program
below = refl

own_hit_example :
    IsStoredAnswer []
      (proxy_at [])
      cache
      5
      asked
      page
      (1 ∷ 2 ∷ [])
      asked_head
      (serve_edge [] (proxy_at []) (serve_edge [] (proxy_at []) cache 5 asked).0 9 asked_head).1
unfolding program
own_hit_example =
    own_hit [] (proxy_at []) cache 5 9 asked page (1 ∷ 2 ∷ []) asked_head (kept [] plain) refl refl
      refl refl refl refl refl refl refl

foreign_hit_example :
    (codes "/app" ++ codes "/" ≢ codes "/")
    × IsStoredAnswer []
        (proxy_at (codes "/app"))
        cache
        5
        asked
        page
        (1 ∷ 2 ∷ [])
        asked
        (serve_edge []
          (proxy_at (codes "/app"))
          (serve_edge [] (proxy_at (codes "/app")) cache 5 asked).0
          9
          (record asked { request_uri = codes "/app/"; path = codes "/app/" })).1
unfolding program
foreign_hit_example =
    foreign_hit [] (proxy_at (codes "/app")) cache 5 9 asked page (1 ∷ 2 ∷ [])
      (kept (codes "/app") below) (ground arith) refl refl refl refl refl refl refl

abbrev visit : Visit
visit = record { proxy = proxy_at []; now = 5; request = asked }

edge_history-IsSound_example : IsSound (visits [] cache (visit ∷ visit ∷ []))
edge_history-IsSound_example = edge_history-IsSound [] 10 6 (pos 60000000000) (visit ∷ visit ∷ [])
