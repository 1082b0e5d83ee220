-- ===== src/Edge/Pipeline/Hits.antt =====
-- What the handler serves after it has passed on a response that may be cached.
use myzerossl.Prelude.{
  ℕ, suc, ◌∷◌, ◌^◌, ◌-◌, ◌≤◌, ◌<◌, true, false, ◌≡◌, refl, sym, ap, ◌∙◌, List, [], Option, none,
  some, arith, length, take, take_of_length-le, Bool-cases, Option-cases, inl, inr, if◌then◌else◌,
}
use myzerossl.Prelude.Result.{ok}
use myzerossl.Text.{Text, codes, same, Text-discrete}
use myzerossl.Text.Decimal.{itoa}
use myzerossl.Map.Laws.{lookup-insert}
use myzerossl.Edge.Http.{Header, get, set, Request, Response}
use myzerossl.Edge.CacheControl.{is_cacheable_response}
use myzerossl.Edge.Cache.{
  CacheEntry, Element, ResponseCache, enabled, item, remove_element, is_after, cache_key, clone,
  reads_cache, fetch, get_entry, admit, read_limit, replace_body, new_entry, store, store_body,
}
use myzerossl.Edge.Cache.Sound.{IsSound, get_entry-IsSound}
use myzerossl.Edge.Cache.Truncation.{read_limit_lem}
use myzerossl.Edge.Cache.Lru.{remove_element-enabled, get_after_store}
use myzerossl.Edge.Routes.{PluginRoute, match_route}
use myzerossl.Edge.Pipeline.{
  write_header, age, entry_write, modify_response, Proxy, outgoing, Served, hit, Written, forward,
  from_cache, serve_edge,
}

-- A lookup that finds nothing changes the cache at most by the removal of an element.
miss-cache :
    (c : ResponseCache) (now : ℕ) (r : Request)
    → (get_entry c now r).1 ≡ none
    → (o : Option Element) × ((get_entry c now r).0 ≡ remove_element c o)
unfolding get_entry fetch
miss-cache c now r h = elim (Option-cases (item c (cache_key r))) [
  | inl e ↦ (none, unfold remove_element in ground arith)
  | inr (x, e) ↦ elim (Bool-cases (enabled c)) [
    | inr off ↦ (none, unfold remove_element in ground arith)
    | inl on ↦ elim (Bool-cases (reads_cache r)) [
      | inr other ↦ (none, unfold remove_element in ground arith)
      | inl reads ↦ (some x, ground arith)
    ]
  ]
]

remove_element-limits :
    (c : ResponseCache) (o : Option Element)
    → ((remove_element c o).max_bytes ≡ c.max_bytes)
      × ((remove_element c o).max_object_bytes ≡ c.max_object_bytes)
unfolding remove_element
remove_element-limits c none = (refl, refl)
remove_element-limits c (some e) = (refl, refl)

remove_element-ttl : (c : ResponseCache) (o : Option Element) → (remove_element c o).ttl ≡ c.ttl
unfolding remove_element
remove_element-ttl c none = refl
remove_element-ttl c (some e) = refl

abbrev pub entry_for : ResponseCache → ℕ → Request → Response → List ℕ → CacheEntry
entry_for c now sent resp body = new_entry c now sent (replace_body resp body) body

entry_for-ttl :
    (c d : ResponseCache) (now : ℕ) (r : Request) (resp : Response) (body : List ℕ)
    → d.ttl ≡ c.ttl
    → entry_for d now r resp body ≡ entry_for c now r resp body
unfolding new_entry
entry_for-ttl c d now r resp body e = rw e refl

entry_for-fields :
    (c : ResponseCache) (now : ℕ) (r : Request) (resp : Response) (body : List ℕ)
    → ((entry_for c now r resp body).key ≡ cache_key r)
      × ((entry_for c now r resp body).size ≡ length body)
unfolding new_entry
entry_for-fields c now r resp body = (refl, refl)

store_whole :
    (c : ResponseCache) (now : ℕ) (r : Request) (resp : Response) (body : List ℕ)
    → enabled c ≡ true
    → c.max_object_bytes < 2 ^ 63 - 1
    → resp.body ≡ some (record { bytes = body; fails = false })
    → length body ≤ c.max_object_bytes
    → ((store c now r resp).cache ≡ admit c (entry_for c now r resp body))
      × ((store c now r resp).failed ≡ false)
unfolding store store_body
store_whole c now r resp body on small e fits =
    let whole : take (read_limit c.max_object_bytes) body ≡ body =
      rw (read_limit_lem c.max_object_bytes small)
        (take_of_length-le (suc c.max_object_bytes) body (omega arith)) in
    rw (on, e, whole) (ground arith, ground arith)

-- What a passed-on response has to be for the cache to keep it.
pub record IsKept (proxy : Proxy) (c : ResponseCache) (r : Request) (resp : Response)
    (body : List ℕ) : Type 0 where
  pub sound : IsSound c
  pub on : enabled c ≡ true
  pub object_limit : c.max_object_bytes < 2 ^ 63 - 1
  pub answer : proxy.round_trip (outgoing proxy.carried proxy.base r) ≡ ok resp
  pub cacheable : is_cacheable_response (outgoing proxy.carried proxy.base r) resp ≡ true
  pub whole : resp.body ≡ some (record { bytes = body; fails = false })
  pub object_fits : length body ≤ c.max_object_bytes
  pub fits : length body ≤ c.max_bytes

get-set :
    (h : Header) (name other value : Text)
    → get (set h name value) other ≡ (if same name other then value else get h other)
unfolding get set
get-set h name other value = ground (arith, lookup-insert name other (value ∷ []) h)

-- What write says of itself in the headers
entry_write-header :
    (e : CacheEntry) (header : Header) (now : ℕ) (r : Request)
    → (get (entry_write e header now r).header (codes "X-Memecdn-Cache") ≡ codes "HIT")
      × (get (entry_write e header now r).header (codes "Content-Length") ≡ itoa (length e.body))
unfolding entry_write Text-discrete
entry_write-header e header now r =
    let hit_set = set (write_header e.header header) (codes "X-Memecdn-Cache") (codes "HIT") in
    let aged = set hit_set (codes "Age") (itoa (age e now)) in
    (
      get-set aged (codes "Content-Length") (codes "X-Memecdn-Cache") (itoa (length e.body))
          ∙ get-set hit_set (codes "Age") (codes "X-Memecdn-Cache") (itoa (age e now))
          ∙ get-set (write_header e.header header) (codes "X-Memecdn-Cache")
              (codes "X-Memecdn-Cache") (codes "HIT"),
      get-set aged (codes "Content-Length") (codes "Content-Length") (itoa (length e.body)),
    )

module _ (routes : List PluginRoute) (proxy : Proxy) (c : ResponseCache) (now : ℕ) (r : Request)
    (resp : Response) (body : List ℕ) where
  abbrev pub sent : Request
  sent = outgoing proxy.carried proxy.base r

  abbrev pub missed : ResponseCache
  missed = (get_entry c now r).0

  serve-forward :
      match_route routes r ≡ none
      → (get_entry c now r).1 ≡ none
      → serve_edge routes proxy c now r ≡ forward proxy missed now r
  unfolding serve_edge from_cache
  serve-forward unrouted nothing = ground arith

  forward-cache :
      (d : ResponseCache)
      → proxy.round_trip sent ≡ ok resp
      → (forward proxy d now r).0 ≡ (modify_response proxy.compress d now sent resp).cache
  unfolding forward
  forward-cache d answer = ground arith

  modified-cache :
      (d : ResponseCache)
      → enabled d ≡ true
      → is_cacheable_response sent resp ≡ true
      → (modify_response proxy.compress d now sent resp).cache ≡ (store d now sent resp).cache
  unfolding modify_response
  modified-cache d on cacheable = ground arith

  serve-miss :
      IsKept proxy c r resp body
      → match_route routes r ≡ none
      → (get_entry c now r).1 ≡ none
      → ((serve_edge routes proxy c now r).0 ≡ admit missed (entry_for c now sent resp body))
        × (enabled missed ≡ true)
        × (missed.max_bytes ≡ c.max_bytes)
  serve-miss k unrouted nothing =
      let (o, e) = miss-cache c now r nothing in
      let on : enabled missed ≡ true = ap enabled e ∙ remove_element-enabled c o ∙ k.on in
      let limit : missed.max_object_bytes ≡ c.max_object_bytes =
        ap (λ d. d.max_object_bytes) e ∙ (remove_element-limits c o).1 in
      let (stored, finished) =
        store_whole missed now sent resp body on (rw limit k.object_limit) k.whole
          (rw limit k.object_fits) in
      let entry =
        entry_for-ttl c missed now sent resp body (ap (λ d. d.ttl) e ∙ remove_element-ttl c o) in
      (
        ap (λ p. p.0) (serve-forward unrouted nothing)
            ∙ (forward-cache missed k.answer
                ∙ (modified-cache missed on k.cacheable ∙ (stored ∙ ap (admit missed) entry))),
        on,
        ap (λ d. d.max_bytes) e ∙ (remove_element-limits c o).0,
      )

  -- The answer to a later request is the stored response: its status, and its body unless the request
  -- is a HEAD request.
  abbrev pub IsStoredAnswer : Request → Served → Type 0
  IsStoredAnswer r' served =
      (w : Written) × (served ≡ hit w)
      × (w.status ≡ resp.status_code)
      × (w.body ≡ (if same r'.method (codes "HEAD") then [] else body))
      × (get w.header (codes "X-Memecdn-Cache") ≡ codes "HIT")
      × (get w.header (codes "Content-Length") ≡ itoa (length body))

  serve-hit :
      (d : ResponseCache) (later : ℕ) (r' : Request)
      → match_route routes r' ≡ none
      → (get_entry d later r').1 ≡ some (clone (entry_for c now sent resp body))
      → IsStoredAnswer r' (serve_edge routes proxy d later r').1
  unfolding serve_edge from_cache entry_write clone new_entry replace_body
  serve-hit d later r' unrouted found =
      let entry = clone (entry_for c now sent resp body) in
      let (marked, sized) = entry_write-header entry proxy.written later r' in
      (entry_write entry proxy.written later r', ground arith, refl, refl, marked, sized)

  pub hit_after_miss :
      (later : ℕ) (r' : Request)
      → IsKept proxy c r resp body
      → match_route routes r ≡ none
      → match_route routes r' ≡ none
      → (get_entry c now r).1 ≡ none
      → reads_cache r' ≡ true
      → cache_key r' ≡ cache_key sent
      → is_after later (entry_for c now sent resp body).expires_at ≡ false
      → IsStoredAnswer r' (serve_edge routes proxy (serve_edge routes proxy c now r).0 later r').1
  hit_after_miss later r' k unrouted unrouted' nothing reads key live =
      let (kept, on, limit) = serve-miss k unrouted nothing in
      let (named, sized) = entry_for-fields c now sent resp body in
      let entry = entry_for c now sent resp body in
      let small : entry.size ≤ missed.max_bytes = rw (sized, limit) k.fits in
      let found =
        get_after_store missed entry later r' (get_entry-IsSound c now r k.sound).0 on small reads
          (key ∙ sym named) live in
      serve-hit (serve_edge routes proxy c now r).0 later r' unrouted'
        (ap (λ d. (get_entry d later r').1) kept ∙ found)
