-- ===== src/Edge/Pipeline/Runs.antt =====
-- What the handler keeps along a history of requests, and when it gives up.
use myzerossl.Prelude.{
  ℕ, ◌&&◌, List, [], ◌∷◌, Option, none, some, Bool-cases, Option-cases, inl, inr,
}
use myzerossl.Prelude.Int.{ℤ}
use myzerossl.Prelude.Result.{Result-cases}
use myzerossl.Edge.Http.{Request, Response}
use myzerossl.Edge.CacheControl.{is_cacheable_response}
use myzerossl.Edge.Cache.{CacheEntry, ResponseCache, new_response_cache, enabled, get_entry}
use myzerossl.Edge.Cache.Sound.{
  IsSound, get_entry-IsSound, store-IsSound, new_response_cache-IsSound,
}
use myzerossl.Edge.Routes.{PluginRoute, match_route}
use myzerossl.Edge.Pipeline.{
  Proxy, outgoing, modify_response, forward, from_cache, serve_edge, Visit, visits,
}

modify_response-IsSound :
    (compress : List ℕ → List ℕ) (c : ResponseCache) (now : ℕ) (r : Request) (resp : Response)
    → IsSound c
    → IsSound (modify_response compress c now r resp).cache
unfolding modify_response
modify_response-IsSound compress c now r resp s =
    elim (Bool-cases (enabled c && is_cacheable_response r resp)) [
      | inl e ↦ rw e (store-IsSound c now r resp s)
      | inr e ↦ rw e s
    ]

forward-IsSound :
    (proxy : Proxy) (c : ResponseCache) (now : ℕ) (r : Request)
    → IsSound c
    → IsSound (forward proxy c now r).0
unfolding forward
forward-IsSound proxy c now r s =
    let sent = outgoing proxy.carried proxy.base r in
    elim (Result-cases (proxy.round_trip sent)) [
      | inl (m, e) ↦ rw (e, forward) s
      | inr (resp, e) ↦ rw (e, forward) (modify_response-IsSound proxy.compress c now sent resp s)
    ]

from_cache-IsSound :
    (proxy : Proxy) (c : ResponseCache) (now : ℕ) (r : Request) (o : Option CacheEntry)
    → IsSound c
    → IsSound (from_cache proxy c now r o).0
unfolding from_cache
from_cache-IsSound proxy c now r none s = forward-IsSound proxy c now r s
from_cache-IsSound proxy c now r (some e) s = s

serve_edge-IsSound :
    (routes : List PluginRoute) (proxy : Proxy) (c : ResponseCache) (now : ℕ) (r : Request)
    → IsSound c
    → IsSound (serve_edge routes proxy c now r).0
unfolding serve_edge
serve_edge-IsSound routes proxy c now r s = elim (Option-cases (match_route routes r)) [
  | inl e ↦
      rw (e, serve_edge)
        (from_cache-IsSound proxy (get_entry c now r).0 now r (get_entry c now r).1
          (get_entry-IsSound c now r s))
  | inr (route, e) ↦ rw (e, serve_edge) s
]

visits-IsSound :
    (routes : List PluginRoute) (c : ResponseCache) (vs : List Visit)
    → IsSound c
    → IsSound (visits routes c vs)
unfolding visits
visits-IsSound routes c [] s = s
visits-IsSound routes c (v ∷ vs) s =
    visits-IsSound routes (serve_edge routes v.proxy c v.now v.request).0 vs
      (serve_edge-IsSound routes v.proxy c v.now v.request s)

-- Whatever requests come in, whatever the backend answers and the clock shows, the cache of the handler
-- stays sound from its creation on: the list and the map agree, and the bytes are
-- counted right and within the limit.
pub edge_history-IsSound :
    (routes : List PluginRoute) (max_bytes max_object_bytes : ℕ) (ttl : ℤ) (vs : List Visit)
    → IsSound (visits routes (new_response_cache max_bytes max_object_bytes ttl) vs)
edge_history-IsSound routes max_bytes max_object_bytes ttl vs =
    visits-IsSound routes (new_response_cache max_bytes max_object_bytes ttl) vs
      (new_response_cache-IsSound max_bytes max_object_bytes ttl)
