-- ===== src/Edge/Cache.antt =====
-- cmd/edgeproxy/main.go, `responseCache`: a linked list of entries, the most recent first, and a map
-- from keys to its elements. An element is known by its address. Times are nanoseconds.
pub mod Elements
pub mod Invariant
pub mod Sound
pub mod Lru
pub mod Truncation
use myzerossl.Prelude.{
  ℕ, zero, suc, ◌+◌, ◌-◌, ◌^◌, Bool, true, false, not, ◌&&◌, ◌||◌, List, [], ◌∷◌, ◌++◌, Option,
  none, some, ltb, leb, ◌==◌, if◌then◌else◌, length, take,
}
use myzerossl.Prelude.Int.{ℤ, pos, negsuc, is_positive}
use myzerossl.Text.{Text, codes, same}
use myzerossl.Text.Decimal.{itoa}
use myzerossl.Map.{Map, lookup, insert, remove}
use myzerossl.Edge.Http.{Header, get, set, Request, Stream, Response}
use myzerossl.Edge.CacheControl.{cache_ttl_from_response}

pub record CacheEntry : Type 0 where
  pub key : Text
  pub status : ℕ
  pub header : Header
  pub body : List ℕ
  pub stored_at : ℕ
  pub expires_at : ℤ
  pub size : ℕ

pub record Element : Type 0 where
  pub address : ℕ
  pub entry : CacheEntry

-- `next_address` is what the allocator returns next. `bytes` is never below the size that
-- `removeElement` takes from it.
pub record ResponseCache : Type 0 where
  pub ttl : ℤ
  pub max_bytes : ℕ
  pub max_object_bytes : ℕ
  pub bytes : ℕ
  pub ll : List Element
  pub items : Map ℕ
  pub next_address : ℕ

unfoldable pub new_response_cache : ℕ → ℕ → ℤ → ResponseCache
new_response_cache max_bytes max_object_bytes ttl = record {
  ttl = ttl;
  max_bytes = max_bytes;
  max_object_bytes = max_object_bytes;
  bytes = 0;
  ll = [];
  items = [];
  next_address = 0;
}

unfoldable pub enabled : ResponseCache → Bool
enabled c = is_positive c.ttl && ltb 0 c.max_bytes && ltb 0 c.max_object_bytes

-- The element at an address
unfoldable pub element_at : ℕ → List Element → Option Element
element_at p [] = none
element_at p (e ∷ l) = if e.address == p then some e else element_at p l

-- `ll.Remove`
unfoldable pub unlink : ℕ → List Element → List Element
unlink p [] = []
unlink p (e ∷ l) = if e.address == p then l else e ∷ unlink p l

-- `ll.Back`
unfoldable pub back : List Element → Option Element
back [] = none
back (e ∷ []) = some e
back (e ∷ f ∷ l) = back (f ∷ l)

-- `c.items[key]`, as an element
unfoldable pub item : ResponseCache → Text → Option Element
item c key = elim (lookup key c.items) [ none ↦ none | some p ↦ element_at p c.ll ]

unfoldable pub remove_element : ResponseCache → Option Element → ResponseCache
remove_element c none = c
remove_element c (some e) = record c {
  items = remove e.entry.key c.items;
  bytes = c.bytes - e.entry.size;
  ll = unlink e.address c.ll;
}

-- `now.After(expiresAt)`
unfoldable pub is_after : ℕ → ℤ → Bool
is_after now (pos t) = ltb t now
is_after now (negsuc t) = true

-- `now.Add(ttl)`
unfoldable pub add_duration : ℕ → ℤ → ℤ
add_duration now (pos d) = pos (now + d)
add_duration now (negsuc d) =
    if leb (suc d) now then pos (now - suc d) else negsuc (suc d - now - 1)

-- `cacheKey`: the parts stand between zero bytes
unfoldable pub cache_key : Request → Text
cache_key r = r.host ++ 0 ∷ (r.request_uri ++ 0 ∷ get r.header (codes "Accept-Encoding"))

-- `clone` leaves the key empty.
unfoldable pub clone : CacheEntry → CacheEntry
clone e = record e { key = [] }

abbrev pub reads_cache : Request → Bool
reads_cache r = same r.method (codes "GET") || same r.method (codes "HEAD")

-- `get` behind its first test
unfoldable pub fetch : ResponseCache → ℕ → Option Element → ResponseCache × Option CacheEntry
fetch c now none = (c, none)
fetch c now (some e) =
    if is_after now e.entry.expires_at
    then (remove_element c (some e), none)
    else (record c { ll = e ∷ unlink e.address c.ll }, some (clone e.entry))

unfoldable pub get_entry : ResponseCache → ℕ → Request → ResponseCache × Option CacheEntry
get_entry c now r =
    if not (enabled c) || not (reads_cache r) then (c, none) else fetch c now (item c (cache_key r))

-- The loop at the end of `store`; fuel for one round for each element
unfoldable pub evict : ℕ → ResponseCache → ResponseCache
evict zero c = c
evict (suc fuel) c =
    let rest = evict fuel (remove_element c (back c.ll)) in
    if ltb c.max_bytes c.bytes then rest else c

unfoldable pub push_front : ResponseCache → CacheEntry → ResponseCache
push_front c entry = record c {
  ll = record { address = c.next_address; entry = entry } ∷ c.ll;
  items = insert entry.key c.next_address c.items;
  bytes = c.bytes + entry.size;
  next_address = c.next_address + 1;
}

-- `store` under the lock
unfoldable pub admit : ResponseCache → CacheEntry → ResponseCache
admit c entry =
    let pushed = push_front (remove_element c (item c entry.key)) entry in
    evict (length pushed.ll) pushed

-- The response after `store` has read its body
unfoldable pub replace_body : Response → List ℕ → Response
replace_body resp body = record resp {
  body = some (record { bytes = body; fails = false });
  content_length = pos (length body);
  header = set resp.header (codes "Content-Length") (itoa (length body));
}

unfoldable pub new_entry : ResponseCache → ℕ → Request → Response → List ℕ → CacheEntry
new_entry c now r resp body = record {
  key = cache_key r;
  status = resp.status_code;
  header = resp.header;
  body = body;
  stored_at = now;
  expires_at = add_duration now (cache_ttl_from_response resp c.ttl);
  size = length body;
}

-- The cache and the response after `store`, and whether it returned an error
pub record Stored : Type 0 where
  pub cache : ResponseCache
  pub response : Response
  pub failed : Bool

-- `c.maxObjectBytes+1`, which `io.LimitReader` takes as an `int64`: past the range it reads nothing.
unfoldable pub read_limit : ℕ → ℕ
read_limit max_object_bytes = if max_object_bytes == 2 ^ 63 - 1 then 0 else max_object_bytes + 1

unfoldable pub store_body : ResponseCache → ℕ → Request → Response → Stream → Stored
store_body c now r resp stream =
    let body = take (read_limit c.max_object_bytes) stream.bytes in
    let failed = stream.fails && ltb (length stream.bytes) (read_limit c.max_object_bytes) in
    let resp' = replace_body resp body in
    if failed || ltb c.max_object_bytes (length body)
    then record { cache = c; response = resp'; failed = failed }
    else record { cache = admit c (new_entry c now r resp' body); response = resp'; failed = false }

unfoldable pub store : ResponseCache → ℕ → Request → Response → Stored
store c now r resp =
    if not (enabled c)
    then record { cache = c; response = resp; failed = false }
    else elim (resp.body) [
      | none ↦ record { cache = c; response = resp; failed = false }
      | some stream ↦ store_body c now r resp stream
    ]
