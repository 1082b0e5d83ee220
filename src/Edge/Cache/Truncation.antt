-- ===== src/Edge/Cache/Truncation.antt =====
-- What `store` does to the response that it passes on.
use myzerossl.Prelude.{
  ℕ, zero, suc, ◌-◌, ◌^◌, ◌≤◌, ◌<◌, true, false, ◌≡◌, refl, ◌∙◌, ap, List, [], ◌∷◌, some, arith,
  length, take, Bool-cases, inl, inr, take_of_length-le,
}
use myzerossl.Edge.Http.{Request, Response, Stream}
use myzerossl.Edge.Cache.{ResponseCache, enabled, read_limit, replace_body, store, store_body}

length-take_lt : {A : Type 0} (n : ℕ) (xs : List A) → n ≤ length xs → length (take n xs) ≡ n
length-take_lt zero xs h = refl
length-take_lt (suc n) [] h = absurd (omega arith)
length-take_lt (suc n) (x ∷ xs) h = omega (arith, length-take_lt n xs (omega arith))

pub read_limit_lem : (m : ℕ) → m < 2 ^ 63 - 1 → read_limit m ≡ suc m
unfolding read_limit
read_limit_lem m h = ground arith

store_body_whole :
    (c : ResponseCache) (now : ℕ) (r : Request) (resp : Response) (stream : Stream)
    → take (read_limit c.max_object_bytes) stream.bytes ≡ stream.bytes
    → stream.fails ≡ false
    → length stream.bytes ≤ c.max_object_bytes
    → ((store_body c now r resp stream).response.body
        ≡ some (record { bytes = stream.bytes; fails = false }))
      × ((store_body c now r resp stream).failed ≡ false)
unfolding store_body replace_body
store_body_whole c now r resp stream whole ends fits =
    rw (whole, ends) (unfold replace_body in (ground arith, ground arith))

-- A response whose body does not fail and is within the object limit, which is below 2 ^ 63 - 1, is
-- passed on with the whole body and no error, whether the cache is enabled or not.
store_keeps_body :
    (c : ResponseCache) (now : ℕ) (r : Request) (resp : Response) (stream : Stream)
    → c.max_object_bytes < 2 ^ 63 - 1
    → resp.body ≡ some stream
    → stream.fails ≡ false
    → length stream.bytes ≤ c.max_object_bytes
    → ((store c now r resp).response.body ≡ some (record { bytes = stream.bytes; fails = false }))
      × ((store c now r resp).failed ≡ false)
unfolding store
store_keeps_body c now r resp stream small e ends fits = elim (Bool-cases (enabled c)) [
  | inr off ↦ rw off (e ∙ ap (λ b. some (record { bytes = stream.bytes; fails = b })) ends, refl)
  | inl on ↦
      let whole : take (read_limit c.max_object_bytes) stream.bytes ≡ stream.bytes =
        rw (read_limit_lem c.max_object_bytes small)
          (take_of_length-le (suc c.max_object_bytes) stream.bytes (omega arith)) in
      rw (on, e) (store_body_whole c now r resp stream whole ends fits)
]

store_body_cut :
    (c : ResponseCache) (now : ℕ) (r : Request) (resp : Response) (stream : Stream)
    → read_limit c.max_object_bytes ≡ suc c.max_object_bytes
    → suc c.max_object_bytes < length stream.bytes
    → store_body c now r resp stream ≡ record {
      cache = c;
      response = replace_body resp (take (suc c.max_object_bytes) stream.bytes);
      failed = false;
    }
unfolding store_body
store_body_cut c now r resp stream limit long =
    rw limit (ground (arith, length-take_lt (suc c.max_object_bytes) stream.bytes))

-- With an enabled cache and an object limit below 2 ^ 63 - 1, a body longer than the limit by two
-- bytes or more is cut: the client gets its first bytes, one more than the limit, with no error,
-- and nothing is cached.
pub store_truncates :
    (c : ResponseCache) (now : ℕ) (r : Request) (resp : Response) (stream : Stream)
    → enabled c ≡ true
    → c.max_object_bytes < 2 ^ 63 - 1
    → resp.body ≡ some stream
    → suc c.max_object_bytes < length stream.bytes
    → (store c now r resp ≡ record {
      cache = c;
      response = replace_body resp (take (suc c.max_object_bytes) stream.bytes);
      failed = false;
    })
      × (length (take (suc c.max_object_bytes) stream.bytes) < length stream.bytes)
unfolding store replace_body
store_truncates c now r resp stream on small e long = (
  rw (on, e) (store_body_cut c now r resp stream (read_limit_lem c.max_object_bytes small) long),
  omega (arith, length-take_lt (suc c.max_object_bytes) stream.bytes (omega arith)),
)
