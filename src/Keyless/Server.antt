-- ===== src/Keyless/Server.antt =====
-- internal/keyless/server.go: the handlers of the signing API, behind `requireAuth`. What the handlers
-- call outside the repository (X.509 encoding, the signature itself, which hashes are linked in) is
-- the parameter `crypto`. A request carries what decoding its whole body gives, and how many bytes the
-- decoder has to read for that.
pub mod Issue
pub mod Audit
use myzerossl.Prelude.{
  ℕ, Bool, true, false, not, ◌||◌, List, [], ◌∷◌, Option, none, some, ◌==◌, if◌then◌else◌, is_empty,
  length, leb, ◌*◌,
}
use myzerossl.Prelude.Result.{Result, ok, err}
use myzerossl.Text.{Text, codes, trim_space}
use myzerossl.Map.{Map, lookup, insert}
use myzerossl.Keyless.Base64.{Bytes, encode}
use myzerossl.Keyless.Protocol.{
  SignerOpts, hash_func, SignRequest, signer_opts_from_request, decode_payload, header_token,
  header_key_id,
}
use myzerossl.Keyless.State.{
  ClientState, AuthManager, Env, Action, auth, sign, Reason, no_reason, key_not_allowed, failure,
}
use myzerossl.Keyless.Authenticate.{authenticate}
use myzerossl.Keyless.Limits.{record_result, allowed}

pub record Crypto (Key : Type 0) : Type 0 where
  pub public_der : Key → Result Bytes
  pub sign_with : Key → Bytes → SignerOpts → Result Bytes
  pub available : ℕ → Bool

-- `hash.Size()` of Go's library
unfoldable pub hash_size : ℕ → ℕ
hash_size h =
    if h == 1 || h == 2
    then 16
    else if h == 3 || h == 9
    then 20
    else if h == 4 || h == 10 || h == 14
    then 28
    else if h == 5 || h == 11 || h == 15 || h == 16 || h == 17
    then 32
    else if h == 6 || h == 12 || h == 18
    then 48
    else if h == 7 || h == 13 || h == 19
    then 64
    else if h == 8
    then 36
    else 0

pub record Request : Type 0 where
  pub header : Map Text
  pub remote_addr : Text
  pub body : Result SignRequest
  pub body_size : ℕ

-- `r.Header.Get(name)`
unfoldable pub header_get : Request → Text → Text
header_get r name = elim (lookup name r.header) [ none ↦ [] | some v ↦ v ]

-- `ReadJSON`: a value that does not end within the limit is cut off.
unfoldable pub read_json : Request → ℕ → Result SignRequest
read_json r max_bytes = if leb r.body_size max_bytes then r.body else err (codes "unexpected EOF")

-- The limit that `sign` gives to `ReadJSON`
abbrev pub max_body : ℕ
max_body = 64 * 1024

pub data Body : Type 0 where
  error_text : Reason → Body
  unauthorized : Body
  public_key_response : Text → Body
  sign_response : Text → Body

pub record Response : Type 0 where
  pub status : ℕ
  pub body : Body

pub record SignServer (Key : Type 0) : Type 0 where
  pub key : Key
  pub client_keys : Map (Map Key)
  pub auth : AuthManager

-- A step of a handler gives a value or ends the request with a status and a reason.
pub data Attempt {ℓ} (A : Type ℓ) : Type ℓ where
  stop : ℕ → Reason → Attempt A
  go : A → Attempt A

infixl 5 ◌>>=◌ ◌>>◌
abbrev pub ◌>>=◌ {ℓ κ} : {A : Type ℓ} {B : Type κ} → Attempt A → (A → Attempt B) → Attempt B
stop status why >>= f = stop status why
go a >>= f = f a

abbrev pub ◌>>◌ {ℓ} : {B : Type ℓ} → Attempt (Unit {0}) → Attempt B → Attempt B
m >> k = m >>= λ _. k

abbrev pub or_stop {ℓ} : {A : Type ℓ} → ℕ → Result A → Attempt A
or_stop status (ok a) = go a
or_stop status (err e) = stop status (failure e)

module _ {Key : Type 0} where
  unfoldable pub key_for_request : SignServer Key → Text → Request → Option Key
  unfolding header_get
  key_for_request s client_id r =
      let key_id = trim_space (header_get r header_key_id) in
      let default_key : Option Key = if is_empty key_id then some s.key else none in
      elim (lookup client_id s.client_keys) [
        | none ↦ default_key
        | some keys ↦ elim (lookup key_id keys) [ none ↦ default_key | some key ↦ some key ]
      ]

  -- Record the outcome, and answer
  unfoldable pub deny :
      Env → SignServer Key → Text → Request → ℕ → Reason → SignServer Key × Response
  deny env s client_id r status why = (
    record s { auth = record_result env s.auth client_id sign false why r.remote_addr },
    record { status = status; body = error_text why },
  )

  unfoldable pub finish_sign :
      Env → SignServer Key → Text → Request → Attempt Bytes → SignServer Key × Response
  finish_sign env s client_id r (stop status why) = deny env s client_id r status why
  finish_sign env s client_id r (go signature) = (
    record s { auth = record_result env s.auth client_id sign true no_reason r.remote_addr },
    record { status = 200; body = sign_response (encode signature) },
  )

  abbrev pub require_key : Option Key → Attempt Key
  require_key none = stop 403 key_not_allowed
  require_key (some key) = go key

-- The two routes
pub data Route : Type 0 where
  get_public_key post_sign : Route

module _ {Key : Type 0} (crypto : Crypto Key) where
  unfoldable pub validate_payload : Bytes → SignerOpts → Result (Unit {0})
  validate_payload payload opts =
      let hash = hash_func opts in
      if hash == 0
      then ok tt
      else if not (crypto.available hash)
      then err (codes "requested hash is unavailable")
      else if not (length payload == hash_size hash)
      then err (codes "payload length does not match requested hash")
      else ok tt

  -- The body of `sign` behind the limit check, up to the signature
  unfoldable pub attempt_sign : SignServer Key → Text → Request → Attempt Bytes
  attempt_sign s client_id r = do
    sign_req ← or_stop 400 (read_json r max_body)
    payload ← or_stop 400 (decode_payload sign_req.payload)
    opts ← or_stop 400 (signer_opts_from_request sign_req)
    or_stop 400 (validate_payload payload opts)
    key ← require_key (key_for_request s client_id r)
    or_stop 500 (crypto.sign_with key payload opts)

  unfoldable pub sign_handler : Env → SignServer Key → Text → Request → SignServer Key × Response
  sign_handler env s client_id r =
      let permit = allowed env s.auth client_id sign in
      let s' = record s { auth = permit.manager } in
      if not permit.ok
      then deny env s' client_id r 429 permit.reason
      else finish_sign env s' client_id r (attempt_sign s' client_id r)

  abbrev public_key_reply : Result Bytes → Response
  public_key_reply (ok der) = record { status = 200; body = public_key_response (encode der) }
  public_key_reply (err e) = record { status = 500; body = error_text (failure e) }

  unfoldable pub public_key : Env → SignServer Key → Text → Request → SignServer Key × Response
  public_key env s client_id r = elim (key_for_request s client_id r) [
    | none ↦ (s, record { status = 403; body = error_text key_not_allowed })
    | some key ↦ (s, public_key_reply (crypto.public_der key))
  ]

  unfoldable pub require_auth :
      (Env → SignServer Key → Text → Request → SignServer Key × Response)
      → Env
      → SignServer Key
      → Request
      → SignServer Key × Response
  require_auth next env s r =
      let verdict = authenticate s.auth (header_get r header_token) in
      if not verdict.ok
      then (
        record s {
          auth = record_result env s.auth verdict.client_id auth false verdict.reason r.remote_addr;
        },
        record { status = 401; body = unauthorized },
      )
      else next env s verdict.client_id r

  unfoldable pub serve : Route → Env → SignServer Key → Request → SignServer Key × Response
  serve get_public_key = require_auth public_key
  serve post_sign = require_auth sign_handler
