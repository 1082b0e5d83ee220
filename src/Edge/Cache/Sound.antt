-- ===== src/Edge/Cache/Sound.antt =====
-- Sound caches, and what `get` and `store` make of them.
use myzerossl.Prelude.{
  ℕ, zero, suc, ◌≤◌, not, ◌||◌, ◌&&◌, ◌≡◌, refl, ◌∙◌, some, arith, length, take, ltb, Bool-cases,
  Option-cases, inl, inr,
}
use myzerossl.Prelude.Int.{ℤ}
use myzerossl.Text.{Text}
use myzerossl.Map.{lookup}
use myzerossl.Edge.Http.{Request, Response, Stream}
use myzerossl.Edge.Cache.{
  CacheEntry, Element, ResponseCache, new_response_cache, enabled, element_at, back, item,
  remove_element, is_after, cache_key, reads_cache, read_limit, fetch, get_entry, evict, push_front,
  admit, store, store_body,
}
use myzerossl.Edge.Cache.Elements.{address_of, total}
use myzerossl.Edge.Cache.Invariant.{
  IsValid, remove_element-IsValid, item_found, remove_element-max_bytes, admit-IsValid,
  move_to_front-IsValid,
}

-- The byte count is within the limit.
abbrev pub IsSound : ResponseCache → Type 0
IsSound c = IsValid c × (c.bytes ≤ c.max_bytes)

remove_element-IsSound :
    (c : ResponseCache) (e : Element)
    → IsSound c
    → element_at e.address c.ll ≡ some e
    → IsSound (remove_element c (some e))
remove_element-IsSound c e (v, h) at =
    (remove_element-IsValid c e v at, unfold remove_element in omega arith)

fetch-IsSound :
    (c : ResponseCache) (now : ℕ) (key : Text) → IsSound c → IsSound (fetch c now (item c key)).0
fetch-IsSound c now key (v, h) = elim (Option-cases (item c key)) [
  | inl n ↦ rw n (unfold fetch in (v, h))
  | inr (e, f) ↦
      let (at, fits) = item_found c key e v f in
      rw f (
        unfold fetch in
        elim (Bool-cases (is_after now e.entry.expires_at)) [
          | inl late ↦ rw late (remove_element-IsSound c e (v, h) at)
          | inr live ↦ rw live (move_to_front-IsValid c e v at, h)
        ])
]

-- `get` keeps the cache sound, also when it drops an expired entry.
pub get_entry-IsSound :
    (c : ResponseCache) (now : ℕ) (r : Request) → IsSound c → IsSound (get_entry c now r).0
unfolding get_entry
get_entry-IsSound c now r s = elim (Bool-cases (not (enabled c) || not (reads_cache r))) [
  | inl off ↦ rw off s
  | inr on ↦ rw on (fetch-IsSound c now (cache_key r) s)
]

evict-max_bytes : (fuel : ℕ) (c : ResponseCache) → (evict fuel c).max_bytes ≡ c.max_bytes
unfolding evict
evict-max_bytes zero c = refl
evict-max_bytes (suc fuel) c = ground (
  arith,
  evict-max_bytes fuel (remove_element c (back c.ll)),
  remove_element-max_bytes c (back c.ll),
)

admit-max_bytes : (c : ResponseCache) (entry : CacheEntry) → (admit c entry).max_bytes ≡ c.max_bytes
unfolding admit push_front
admit-max_bytes c entry =
    evict-max_bytes (suc (length (remove_element c (item c entry.key)).ll))
      (push_front (remove_element c (item c entry.key)) entry)
    ∙ remove_element-max_bytes c (item c entry.key)

admit-IsSound : (c : ResponseCache) (entry : CacheEntry) → IsValid c → IsSound (admit c entry)
admit-IsSound c entry v =
    let (w, within) = admit-IsValid c entry v in (w, omega (arith, within, admit-max_bytes c entry))

store_body-IsSound :
    (c : ResponseCache) (now : ℕ) (r : Request) (resp : Response) (stream : Stream)
    → IsSound c
    → IsSound (store_body c now r resp stream).cache
unfolding store_body
store_body-IsSound c now r resp stream s =
    elim (Bool-cases (
      (stream.fails && ltb (length stream.bytes) (read_limit c.max_object_bytes))
      || ltb c.max_object_bytes (length (take (read_limit c.max_object_bytes) stream.bytes)))) [
        | inl skip ↦ rw skip s
        | inr keep ↦ rw keep (admit-IsSound c _ s.0)
      ]

-- `store` ends, and keeps the cache sound on every branch: the map and the list agree, no key has two
-- elements, the byte count is the sum of the sizes, and it is within the limit.
pub store-IsSound :
    (c : ResponseCache) (now : ℕ) (r : Request) (resp : Response)
    → IsSound c
    → IsSound (store c now r resp).cache
unfolding store
store-IsSound c now r resp s = elim (Bool-cases (enabled c)) [
  | inr off ↦ rw off s
  | inl on ↦ elim (Option-cases (resp.body)) [
    | inl e ↦ rw (on, e) s
    | inr (stream, e) ↦ rw (on, e) (store_body-IsSound c now r resp stream s)
  ]
]

-- An empty cache is sound.
pub new_response_cache-IsSound :
    (max_bytes max_object_bytes : ℕ) (ttl : ℤ)
    → IsSound (new_response_cache max_bytes max_object_bytes ttl)
unfolding new_response_cache
new_response_cache-IsSound max_bytes max_object_bytes ttl = (
  record {
    counted = unfold total in refl;
    distinct = tt;
    below = tt;
    agrees = λ key. unfold lookup address_of in refl;
  },
  omega arith,
)
