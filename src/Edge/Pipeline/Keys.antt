-- ===== src/Edge/Pipeline/Keys.antt =====
-- The key under which a response is stored is that of the request as the reverse proxy sends it; the
-- key that is looked up is that of the request as it came in.
use myzerossl.Prelude.{
  ℕ, true, false, ◌≡◌, ◌≢◌, refl, sym, ap, ◌∙◌, [], ◌∷◌, ◌++◌, List, none, arith, length,
  length-append,
}
use myzerossl.Text.{Text, codes, has_prefix, has_suffix}
use myzerossl.Edge.Http.{Header, get, Request, Response}
use myzerossl.Edge.CacheControl.{is_cacheable_response}
use myzerossl.Edge.Cache.{ResponseCache, is_after, cache_key, reads_cache, get_entry}
use myzerossl.Edge.Routes.{PluginRoute, match_route}
use myzerossl.Edge.Pipeline.{Proxy, single_joining_slash, outgoing, serve_edge}
use myzerossl.Edge.Pipeline.Hits.{IsKept, IsStoredAnswer, entry_for, hit_after_miss}

single_joining_slash_nil :
    (uri : Text) → has_prefix (codes "/") uri ≡ true → single_joining_slash [] uri ≡ uri
unfolding single_joining_slash has_suffix
single_joining_slash_nil uri h = ground arith

single_joining_slash_plain :
    (base uri : Text)
    → has_suffix (codes "/") base ≡ false
    → has_prefix (codes "/") uri ≡ true
    → single_joining_slash base uri ≡ base ++ uri
unfolding single_joining_slash
single_joining_slash_plain base uri a h = ground arith

cache_key-outgoing :
    (proxy : Proxy) (r : Request) (uri path : Text)
    → single_joining_slash proxy.base r.request_uri ≡ uri
    → get (proxy.carried r.header) (codes "Accept-Encoding")
      ≡ get r.header (codes "Accept-Encoding")
    → cache_key (outgoing proxy.carried proxy.base r)
      ≡ cache_key (record r { request_uri = uri; path = path })
unfolding cache_key outgoing
cache_key-outgoing proxy r uri path e a = rw (e, a) refl

longer : (base uri : Text) → base ≢ [] → base ++ uri ≢ uri
longer [] uri n e = absurd (n refl)
longer (c ∷ base) uri n e = absurd (omega (arith, ap length e, length-append (c ∷ base) uri))

reads_get :
    (r : Request) (resp : Response) (carried : Header → Header) (base : Text)
    → is_cacheable_response (outgoing carried base r) resp ≡ true
    → reads_cache r ≡ true
unfolding is_cacheable_response outgoing
reads_get r resp carried base h = ground arith

module _ (routes : List PluginRoute) (proxy : Proxy) (c : ResponseCache) (now later : ℕ)
    (r : Request) (resp : Response) (body : List ℕ) where
  -- The request for the joined URI
  abbrev pub joined : Request
  joined = record r { request_uri = proxy.base ++ r.request_uri; path = proxy.base ++ r.path }

  -- A request went past the routes, was not in the cache, and its whole response was cacheable, within the
  -- limits of the cache, and passed on. If the request that the handler serves next is a GET or HEAD request
  -- with the same key that no route takes, and the stored response has not expired then, it is answered
  -- from the cache with the status and the body of that response (no body for HEAD), marked as a hit and
  -- with the length of the body. This is for a backend URL without a path, a request URI that begins with a
  -- slash, and a reverse proxy that leaves the accepted encodings as they are.
  pub own_hit :
      (r' : Request)
      → IsKept proxy c r resp body
      → proxy.base ≡ []
      → has_prefix (codes "/") r.request_uri ≡ true
      → get (proxy.carried r.header) (codes "Accept-Encoding")
        ≡ get r.header (codes "Accept-Encoding")
      → match_route routes r ≡ none
      → match_route routes r' ≡ none
      → (get_entry c now r).1 ≡ none
      → reads_cache r' ≡ true
      → cache_key r' ≡ cache_key r
      → is_after later (entry_for c now (outgoing proxy.carried proxy.base r) resp body).expires_at
        ≡ false
      → IsStoredAnswer routes proxy c now r resp body r'
          (serve_edge routes proxy (serve_edge routes proxy c now r).0 later r').1
  own_hit r' k bare slash encoding unrouted unrouted' nothing reads key live =
      let uri : single_joining_slash proxy.base r.request_uri ≡ r.request_uri =
        ap (λ b. single_joining_slash b r.request_uri) bare
        ∙ single_joining_slash_nil r.request_uri slash in
      let same_key : cache_key (outgoing proxy.carried proxy.base r) ≡ cache_key r =
        cache_key-outgoing proxy r r.request_uri r.path uri encoding in
      hit_after_miss routes proxy c now r resp body later r' k unrouted unrouted' nothing reads
        (key ∙ sym same_key) live

  -- Where the URL of the backend has a path that does not end in a slash, the response is stored under
  -- the joined URI: if the next request is for the joined URI, which is another one, it is answered with
  -- the response to the first request.
  pub foreign_hit :
      IsKept proxy c r resp body
      → proxy.base ≢ []
      → has_suffix (codes "/") proxy.base ≡ false
      → has_prefix (codes "/") r.request_uri ≡ true
      → get (proxy.carried r.header) (codes "Accept-Encoding")
        ≡ get r.header (codes "Accept-Encoding")
      → match_route routes r ≡ none
      → match_route routes joined ≡ none
      → (get_entry c now r).1 ≡ none
      → is_after later (entry_for c now (outgoing proxy.carried proxy.base r) resp body).expires_at
        ≡ false
      → (proxy.base ++ r.request_uri ≢ r.request_uri)
        × IsStoredAnswer routes proxy c now r resp body r
            (serve_edge routes proxy (serve_edge routes proxy c now r).0 later joined).1
  foreign_hit k based bare slash encoding unrouted unrouted' nothing live =
      let uri = single_joining_slash_plain proxy.base r.request_uri bare slash in
      let key =
        cache_key-outgoing proxy r (proxy.base ++ r.request_uri) (proxy.base ++ r.path) uri
          encoding in
      (
        longer proxy.base r.request_uri based,
        hit_after_miss routes proxy c now r resp body later joined k unrouted unrouted' nothing
            (reads_get r resp proxy.carried proxy.base k.cacheable) (sym key) live,
      )
