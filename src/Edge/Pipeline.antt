-- ===== src/Edge/Pipeline.antt =====
-- cmd/edgeproxy/main.go: the handler of all requests but the health check, with `ModifyResponse` of
-- the reverse proxy, `cacheEntry.write` and `gzipResponse`. What the reverse proxy does to the headers
-- of a request, the compressor and the backend are parameters.
pub mod Hits
pub mod Runs
pub mod Keys
use myzerossl.Prelude.{
  ℕ, ◌-◌, ◌/◌, Bool, true, false, ◌&&◌, ◌||◌, List, [], ◌∷◌, ◌++◌, Option, none, some,
  if◌then◌else◌, length, drop,
}
use myzerossl.Prelude.Int.{negsuc}
use myzerossl.Prelude.Result.{Result, ok, err}
use myzerossl.Text.{Text, codes, same, has_prefix, has_suffix}
use myzerossl.Text.Decimal.{itoa}
use myzerossl.Map.{Map}
use myzerossl.Edge.Http.{Header, set, add, del, Request, Stream, Response}
use myzerossl.Edge.CacheControl.{second, is_cacheable_response, should_gzip}
use myzerossl.Edge.Cache.{CacheEntry, ResponseCache, enabled, get_entry, store}
use myzerossl.Edge.Routes.{PluginRoute, match_route}

-- What a handler wrote
pub record Written : Type 0 where
  pub status : ℕ
  pub header : Header
  pub body : List ℕ

unfoldable pub add_values : Text → List Text → Header → Header
add_values k [] h = h
add_values k (v ∷ vs) h = add_values k vs (add h k v)

unfoldable pub write_header : Header → Header → Header
write_header [] h = h
write_header ((k, values) ∷ source) h = write_header source (add_values k values (del h k))

-- Whole seconds since the entry was stored, and 0 if the clock went back
unfoldable pub age : CacheEntry → ℕ → ℕ
age e now = (now - e.stored_at) / second

-- `cacheEntry.write`, on the header that the writer already has
unfoldable pub entry_write : CacheEntry → Header → ℕ → Request → Written
entry_write e header now r = record {
  status = e.status;
  header =
      set
        (set (set (write_header e.header header) (codes "X-Memecdn-Cache") (codes "HIT"))
          (codes "Age") (itoa (age e now)))
        (codes "Content-Length") (itoa (length e.body));
  body = if same r.method (codes "HEAD") then [] else e.body;
}

abbrev pub compressed : (List ℕ → List ℕ) → Option Stream → Option Stream
compressed compress none = none
compressed compress (some stream) = some (record stream { bytes = compress stream.bytes })

unfoldable pub gzip_response : (List ℕ → List ℕ) → Response → Response
gzip_response compress resp = record resp {
  body = compressed compress resp.body;
  header =
      add (set (del resp.header (codes "Content-Length")) (codes "Content-Encoding") (codes "gzip"))
        (codes "Vary") (codes "Accept-Encoding");
  content_length = negsuc 0;
}

-- `ModifyResponse`: the cache, and the response or the error
pub record Modified : Type 0 where
  pub cache : ResponseCache
  pub response : Result Response

unfoldable pub maybe_gzip : (List ℕ → List ℕ) → Request → Response → Response
maybe_gzip compress r resp =
    let zipped = gzip_response compress resp in
    if should_gzip r resp
    then record zipped { header = set zipped.header (codes "X-Memecdn-Compression") (codes "gzip") }
    else resp

abbrev pub marked_miss : Response → Response
marked_miss resp = record resp { header = set resp.header (codes "X-Memecdn-Cache") (codes "MISS") }

unfoldable pub modify_response :
    (List ℕ → List ℕ) → ResponseCache → ℕ → Request → Response → Modified
modify_response compress c now r resp =
    let stored = store c now r resp in
    if enabled c && is_cacheable_response r resp
    then record {
      cache = stored.cache;
      response =
          if stored.failed
          then err (codes "read response body")
          else ok (maybe_gzip compress r (marked_miss stored.response));
    }
    else record { cache = c; response = ok (maybe_gzip compress r resp) }

-- `singleJoiningSlash` of net/http/httputil
unfoldable pub single_joining_slash : Text → Text → Text
single_joining_slash a b =
    if has_suffix (codes "/") a && has_prefix (codes "/") b
    then a ++ drop 1 b
    else if has_suffix (codes "/") a || has_prefix (codes "/") b
    then a ++ b
    else a ++ b'/' ∷ b

-- The request that the reverse proxy sends to a backend whose URL has the path `base` and no query
unfoldable pub outgoing : (Header → Header) → Text → Request → Request
outgoing carried base r = record r {
  request_uri = single_joining_slash base r.request_uri;
  path = single_joining_slash base r.path;
  header = carried r.header;
}

pub data Served : Type 0 where
  by_plugin : PluginRoute → Served
  hit : Written → Served
  proxied : Response → Served
  bad_gateway : Served

-- `written` is what the writer's header holds when the handler gets it: `http3.Server.SetQUICHeaders` may
-- have put Alt-Svc there.
pub record Proxy : Type 0 where
  pub written : Header
  pub carried : Header → Header
  pub base : Text
  pub compress : List ℕ → List ℕ
  pub round_trip : Request → Result Response

abbrev pub answered : Result Response → Served
answered (ok resp) = proxied resp
answered (err e) = bad_gateway

-- `proxy.ServeHTTP`
unfoldable pub forward : Proxy → ResponseCache → ℕ → Request → ResponseCache × Served
forward proxy c now r =
    let sent = outgoing proxy.carried proxy.base r in
    elim (proxy.round_trip sent) [
      | err e ↦ (c, bad_gateway)
      | ok resp ↦
          let modified = modify_response proxy.compress c now sent resp in
          (modified.cache, answered modified.response)
    ]

unfoldable pub from_cache :
    Proxy → ResponseCache → ℕ → Request → Option CacheEntry → ResponseCache × Served
from_cache proxy c now r (some e) = (c, hit (entry_write e proxy.written now r))
from_cache proxy c now r none = forward proxy c now r

-- The handler of "/"
unfoldable pub serve_edge :
    List PluginRoute → Proxy → ResponseCache → ℕ → Request → ResponseCache × Served
serve_edge routes proxy c now r = elim (match_route routes r) [
  | some route ↦ (c, by_plugin route)
  | none ↦ let (c', found) = get_entry c now r in from_cache proxy c' now r found
]

-- A history of requests, with what the world does at each
pub record Visit : Type 0 where
  pub proxy : Proxy
  pub now : ℕ
  pub request : Request

unfoldable pub visits : List PluginRoute → ResponseCache → List Visit → ResponseCache
visits routes c [] = c
visits routes c (v ∷ vs) = visits routes (serve_edge routes v.proxy c v.now v.request).0 vs
