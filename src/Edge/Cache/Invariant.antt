-- ===== src/Edge/Cache/Invariant.antt =====
-- When the map, the list and the byte count of the cache fit together, and what `store` makes of them.
use myzerossl.Prelude.{
  ℕ, zero, suc, ◌≤◌, ◌≡◌, refl, ◌∷◌, Option, none, some, arith, length, ltb, Bool-cases,
  Option-cases, inl, inr,
}
use myzerossl.Text.{Text}
use myzerossl.Map.{lookup}
use myzerossl.Map.Laws.{lookup-insert, lookup-remove}
use myzerossl.Edge.Cache.{
  CacheEntry, Element, ResponseCache, element_at, unlink, back, item, remove_element, evict,
  push_front, admit,
}
use myzerossl.Edge.Cache.Elements.{
  address_of, total, AreDistinct, AreBelow, element_at-address, element_at_fresh, AreBelow-suc,
  element_of_key, key_of_element, total-unlink, address_of-unlink, AreDistinct-unlink,
  AreBelow-unlink, length-unlink, element_at-back, element_at-unlink, total_of_back-none,
  total_of_length-le, element_at-lt,
}

pub record IsValid (c : ResponseCache) : Type 0 where
  pub counted : c.bytes ≡ total c.ll
  pub distinct : AreDistinct c.ll
  pub below : AreBelow c.next_address c.ll
  pub agrees : (key : Text) → lookup key c.items ≡ address_of key c.ll

pub remove_element-IsValid :
    (c : ResponseCache) (e : Element)
    → IsValid c
    → element_at e.address c.ll ≡ some e
    → IsValid (remove_element c (some e))
unfolding remove_element
remove_element-IsValid c e v h = record {
  counted = omega (arith, total-unlink e.address c.ll e h);
  distinct = AreDistinct-unlink e.address c.ll v.distinct;
  below = AreBelow-unlink c.next_address e.address c.ll v.below;
  agrees = λ key. ground (
    arith,
    lookup-remove e.entry.key key c.items,
    address_of-unlink e.address c.ll e key v.distinct h,
    v.agrees key,
  );
}

push_front-IsValid :
    (c : ResponseCache) (entry : CacheEntry)
    → IsValid c
    → address_of entry.key c.ll ≡ none
    → IsValid (push_front c entry)
unfolding push_front
push_front-IsValid c entry v h = record {
  counted = unfold total in omega arith;
  distinct = (element_at_fresh c.next_address c.ll v.below, h, v.distinct);
  below = (omega arith, AreBelow-suc c.next_address c.ll v.below);
  agrees = λ key.
      unfold address_of in
      ground (arith, lookup-insert entry.key key c.next_address c.items, v.agrees key);
}

-- What `c.items[key]` leads to
pub item_found :
    (c : ResponseCache) (key : Text) (e : Element)
    → IsValid c
    → item c key ≡ some e
    → (element_at e.address c.ll ≡ some e) × (e.entry.key ≡ key)
unfolding item
item_found c key e v h = elim (Option-cases (address_of key c.ll)) [
  | inl n ↦ absurd (ground (arith, v.agrees key))
  | inr (p, f) ↦
      let (x, at, fits) = element_of_key key p c.ll v.distinct f in
      (ground (arith, v.agrees key, element_at-address p c.ll x at), ground (arith, v.agrees key))
]

pub item_missing :
    (c : ResponseCache) (key : Text) → IsValid c → item c key ≡ none → address_of key c.ll ≡ none
unfolding item
item_missing c key v h = elim (Option-cases (address_of key c.ll)) [
  | inl n ↦ n
  | inr (p, f) ↦
      let (x, at, fits) = element_of_key key p c.ll v.distinct f in
      absurd (ground (arith, v.agrees key))
]

pub remove_element-max_bytes :
    (c : ResponseCache) (e : Option Element) → (remove_element c e).max_bytes ≡ c.max_bytes
unfolding remove_element
remove_element-max_bytes c none = refl
remove_element-max_bytes c (some e) = refl

remove_element-length :
    (c : ResponseCache) (e : Element) (n : ℕ)
    → element_at e.address c.ll ≡ some e
    → length c.ll ≤ suc n
    → length (remove_element c (some e)).ll ≤ n
unfolding remove_element
remove_element-length c e n at h = omega (arith, length-unlink e.address c.ll e at)

-- Enough fuel brings the bytes within the limit.
pub evict-IsValid :
    (fuel : ℕ) (c : ResponseCache)
    → IsValid c
    → length c.ll ≤ fuel
    → IsValid (evict fuel c) × ((evict fuel c).bytes ≤ c.max_bytes)
unfolding evict
evict-IsValid zero c v h = (v, omega (arith, total_of_length-le c.ll h))
evict-IsValid (suc fuel) c v h = elim (Bool-cases (ltb c.max_bytes c.bytes)) [
  | inr e ↦ rw e (v, ground arith)
  | inl e ↦ elim (Option-cases (back c.ll)) [
    | inl b ↦ absurd (ground (arith, total_of_back-none c.ll b))
    | inr (x, b) ↦
        let at = element_at-back c.ll x v.distinct b in
        let v' = remove_element-IsValid c x v at in
        let shorter = remove_element-length c x fuel at h in
        let (w, within) = evict-IsValid fuel (remove_element c (some x)) v' shorter in
        rw (e, b) (w, omega (arith, within, remove_element-max_bytes c (some x)))
  ]
]

-- The element that the entry replaces is gone.
cleared : ResponseCache → Text → ResponseCache
cleared c key = remove_element c (item c key)

cleared-IsValid :
    (c : ResponseCache) (key : Text)
    → IsValid c
    → IsValid (cleared c key) × (address_of key (cleared c key).ll ≡ none)
unfolding cleared
cleared-IsValid c key v = elim (Option-cases (item c key)) [
  | inl n ↦ rw n (unfold remove_element in (v, item_missing c key v n))
  | inr (e, f) ↦
      let (at, fits) = item_found c key e v f in
      rw f (
        remove_element-IsValid c e v at,
        unfold remove_element in
            ground (arith, address_of-unlink e.address c.ll e key v.distinct at),
      )
]

-- What `store` pushes to the front of
pub pushed-IsValid :
    (c : ResponseCache) (entry : CacheEntry)
    → IsValid c
    → IsValid (push_front (remove_element c (item c entry.key)) entry)
unfolding cleared
pushed-IsValid c entry v =
    let (v', free) = cleared-IsValid c entry.key v in
    push_front-IsValid (cleared c entry.key) entry v' free

pub admit-IsValid :
    (c : ResponseCache) (entry : CacheEntry)
    → IsValid c
    → IsValid (admit c entry) × ((admit c entry).bytes ≤ c.max_bytes)
unfolding admit push_front
admit-IsValid c entry v =
    let pushed = push_front (remove_element c (item c entry.key)) entry in
    let (w, within) =
      evict-IsValid (length pushed.ll) pushed (pushed-IsValid c entry v) (omega arith) in
    (w, omega (arith, within, remove_element-max_bytes c (item c entry.key)))

-- `MoveToFront`
pub move_to_front-IsValid :
    (c : ResponseCache) (e : Element)
    → IsValid c
    → element_at e.address c.ll ≡ some e
    → IsValid (record c { ll = e ∷ unlink e.address c.ll })
move_to_front-IsValid c e v at = record {
  counted = unfold total in omega (arith, total-unlink e.address c.ll e at);
  distinct = (
    ground (arith, element_at-unlink e.address e.address c.ll v.distinct),
    ground (arith, address_of-unlink e.address c.ll e e.entry.key v.distinct at),
    AreDistinct-unlink e.address c.ll v.distinct,
  );
  below = (
    element_at-lt c.next_address e.address c.ll e v.below at,
    AreBelow-unlink c.next_address e.address c.ll v.below,
  );
  agrees = λ key.
      unfold address_of in
      ground (
        arith,
        v.agrees key,
        address_of-unlink e.address c.ll e key v.distinct at,
        key_of_element e.address c.ll e v.distinct at,
      );
}
