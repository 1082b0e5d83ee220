-- ===== src/Edge/Cache/Lru.antt =====
-- What `store` keeps, and what `get` returns.
use myzerossl.Prelude.{
  ℕ, zero, suc, ◌≤◌, true, false, ◌≡◌, refl, ◌∙◌, sym, ap, List, [], ◌∷◌, ◌++◌, Option, none, some,
  arith, length, ltb, Bool-cases, Option-cases, inl, inr,
}
use mathlib.Core.Path.{subst}
use mathlib.Core.List.{append_assoc, append-nil}
use myzerossl.Edge.Http.{Request}
use myzerossl.Edge.Cache.{
  CacheEntry, Element, ResponseCache, enabled, element_at, unlink, back, item, remove_element,
  is_after, cache_key, clone, reads_cache, fetch, get_entry, evict, push_front, admit,
}
use myzerossl.Edge.Cache.Elements.{
  address_of, total, AreDistinct, element_at-back, unlink-back, total_of_back-none,
  unlink-back_cons, total_single,
}
use myzerossl.Edge.Cache.Invariant.{
  IsValid, remove_element-IsValid, remove_element-max_bytes, pushed-IsValid, admit-IsValid,
}

remove_element-ll :
    (c : ResponseCache) (e : Element) → unlink e.address c.ll ≡ (remove_element c (some e)).ll
unfolding remove_element
remove_element-ll c e = refl

-- In a valid cache the elements that `evict` takes away stood at the back of the list: they are the
-- least recently used.
evict-prefix :
    (fuel : ℕ) (c : ResponseCache)
    → IsValid c
    → (gone : List Element) × (c.ll ≡ (evict fuel c).ll ++ gone)
unfolding evict
evict-prefix zero c v = ([], sym (append-nil c.ll))
evict-prefix (suc fuel) c v = elim (Bool-cases (ltb c.max_bytes c.bytes)) [
  | inr e ↦ ([], rw e (sym (append-nil c.ll)))
  | inl e ↦ elim (Option-cases (back c.ll)) [
    | inl b ↦ absurd (ground (arith, v.counted, total_of_back-none c.ll b))
    | inr (x, b) ↦
        let at = element_at-back c.ll x v.distinct b in
        let (gone, rest) =
          evict-prefix fuel (remove_element c (some x)) (remove_element-IsValid c x v at) in
        (
          gone ++ x ∷ [],
          rw (e, b)
              (unlink-back c.ll x v.distinct b
                ∙ ap (λ l. l ++ x ∷ []) (remove_element-ll c x ∙ rest)
                ∙ append_assoc _ gone (x ∷ [])),
        )
  ]
]

-- The front element stays, if its own size is within the limit.
evict_keeps_front :
    (fuel : ℕ) (c : ResponseCache) (f : Element) (l : List Element)
    → IsValid c
    → c.ll ≡ f ∷ l
    → f.entry.size ≤ c.max_bytes
    → (l' : List Element) × ((evict fuel c).ll ≡ f ∷ l')
unfolding evict
evict_keeps_front zero c f l v h small = (l, h)
evict_keeps_front (suc fuel) c f [] v h small =
    ([], ground (arith, v.counted ∙ ap total h ∙ total_single f))
evict_keeps_front (suc fuel) c f (g ∷ l) v h small = elim (Bool-cases (ltb c.max_bytes c.bytes)) [
  | inr e ↦ (g ∷ l, rw e h)
  | inl e ↦ elim (Option-cases (back c.ll)) [
    | inl b ↦ absurd (ground (arith, v.counted, total_of_back-none c.ll b))
    | inr (x, b) ↦
        let at = element_at-back c.ll x v.distinct b in
        let first : (remove_element c (some x)).ll ≡ f ∷ unlink x.address (g ∷ l) =
          sym (remove_element-ll c x)
          ∙ (ap (unlink x.address) h
              ∙ unlink-back_cons f g l x (subst AreDistinct h v.distinct) (sym (ap back h) ∙ b)) in
        let (l', kept) =
          evict_keeps_front fuel (remove_element c (some x)) f (unlink x.address (g ∷ l))
            (remove_element-IsValid c x v at) first
            (rw (remove_element-max_bytes c (some x)) small) in
        (l', rw (e, b) kept)
  ]
]

-- `get` on a cache whose front element has the key, before it expires
fetch_front :
    (c : ResponseCache) (now : ℕ) (f : Element) (l : List Element)
    → IsValid c
    → c.ll ≡ f ∷ l
    → is_after now f.entry.expires_at ≡ false
    → (fetch c now (item c f.entry.key)).1 ≡ some (clone f.entry)
unfolding fetch item
fetch_front c now f l v h live =
    let e : address_of f.entry.key c.ll ≡ some f.address =
      rw h (unfold address_of in ground arith) in
    let at : element_at f.address c.ll ≡ some f = rw h (unfold element_at in ground arith) in
    ground (arith, v.agrees f.entry.key)

pub remove_element-enabled :
    (c : ResponseCache) (e : Option Element) → enabled (remove_element c e) ≡ enabled c
unfolding remove_element enabled
remove_element-enabled c none = refl
remove_element-enabled c (some e) = refl

evict-enabled : (fuel : ℕ) (c : ResponseCache) → enabled (evict fuel c) ≡ enabled c
unfolding evict
evict-enabled zero c = refl
evict-enabled (suc fuel) c = elim (Bool-cases (ltb c.max_bytes c.bytes)) [
  | inr e ↦ rw e refl
  | inl e ↦
      rw e
        (evict-enabled fuel (remove_element c (back c.ll)) ∙ remove_element-enabled c (back c.ll))
]

push_front-enabled :
    (c : ResponseCache) (entry : CacheEntry) → enabled (push_front c entry) ≡ enabled c
unfolding push_front enabled
push_front-enabled c entry = refl

admit-enabled : (c : ResponseCache) (entry : CacheEntry) → enabled (admit c entry) ≡ enabled c
unfolding admit
admit-enabled c entry =
    evict-enabled _ _
    ∙ (push_front-enabled (remove_element c (item c entry.key)) entry
        ∙ remove_element-enabled c (item c entry.key))

pushed-ll :
    (c : ResponseCache) (e : Option Element) (entry : CacheEntry)
    → (push_front (remove_element c e) entry).ll
      ≡ record { address = c.next_address; entry = entry } ∷ (remove_element c e).ll
unfolding push_front remove_element
pushed-ll c none entry = refl
pushed-ll c (some e) entry = refl

-- The entry just stored is at the front.
admit_front :
    (c : ResponseCache) (entry : CacheEntry)
    → IsValid c
    → entry.size ≤ c.max_bytes
    → (l : List Element) × ((admit c entry).ll
        ≡ record { address = c.next_address; entry = entry } ∷ l)
unfolding admit push_front
admit_front c entry v small =
    let e = item c entry.key in
    let pushed = push_front (remove_element c e) entry in
    let front : Element = record { address = c.next_address; entry = entry } in
    let fits : entry.size ≤ pushed.max_bytes = rw (remove_element-max_bytes c e) small in
    evict_keeps_front (length pushed.ll) pushed front (remove_element c e).ll
      (pushed-IsValid c entry v) (pushed-ll c e entry) fits

-- In a valid cache that is enabled, an entry whose size is within the limit on all bytes is what
-- `get` returns right after it was admitted, for every GET or HEAD request with its key, until it
-- expires; it comes back without its key.
pub get_after_store :
    (c : ResponseCache) (entry : CacheEntry) (now : ℕ) (r : Request)
    → IsValid c
    → enabled c ≡ true
    → entry.size ≤ c.max_bytes
    → reads_cache r ≡ true
    → cache_key r ≡ entry.key
    → is_after now entry.expires_at ≡ false
    → (get_entry (admit c entry) now r).1 ≡ some (clone entry)
unfolding get_entry
get_after_store c entry now r v on small reads key live =
    let (l, first) = admit_front c entry v small in
    let got = fetch_front (admit c entry) now _ l (admit-IsValid c entry v).0 first live in
    rw (admit-enabled c entry, on, reads, key) got
