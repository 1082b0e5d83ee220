-- ===== src/Keyless/Server/Issue.antt =====
-- When the server signs, and with which key.
use myzerossl.Prelude.{
  ℕ, true, false, ◌≡◌, ◌↔◌, ◌⊎◌, inl, inr, refl, sym, ◌∙◌, Option, none, some, arith, is_empty,
  length, Bool-cases, Option-cases,
}
use myzerossl.Prelude.Result.{Result, ok, err}
use myzerossl.Text.{Text, trim_space}
use myzerossl.Map.{Map, lookup}
use myzerossl.Keyless.Base64.{Bytes, encode}
use myzerossl.Keyless.Protocol.{
  SignerOpts, hash_func, SignRequest, signer_opts_from_request, decode_payload, header_token,
  header_key_id,
}
use myzerossl.Keyless.State.{Env, sign}
use myzerossl.Keyless.Authenticate.{authenticate}
use myzerossl.Keyless.Limits.{allowed}
use myzerossl.Keyless.Server.{
  read_json, max_body, Crypto, hash_size, Request, header_get, sign_response, SignServer, Attempt,
  stop, go, ◌>>=◌, or_stop, require_key, key_for_request, validate_payload, attempt_sign, deny,
  finish_sign, sign_handler, require_auth, post_sign, serve,
}

bind_inversion {ℓ κ} :
    {A : Type ℓ} {B : Type κ} (m : Attempt A) (f : A → Attempt B) {b : B}
    → (m >>= f) ≡ go b
    → (a : A) × (m ≡ go a) × (f a ≡ go b)
bind_inversion (stop status why) f h = cc
bind_inversion (go a) f h = (a, refl, h)

or_stop_inversion {ℓ} :
    {A : Type ℓ} (status : ℕ) (r : Result A) {a : A} → or_stop status r ≡ go a → r ≡ ok a
or_stop_inversion status (ok a) h = cc
or_stop_inversion status (err e) h = cc

require_key_inversion :
    {Key : Type 0} (found : Option Key) {key : Key} → require_key found ≡ go key → found ≡ some key
require_key_inversion none h = cc
require_key_inversion (some key) h = cc

module _ {Key : Type 0} (crypto : Crypto Key) where
  -- The payload may be signed under the options.
  abbrev pub FitsHash : Bytes → SignerOpts → Type 0
  FitsHash payload opts =
      (hash_func opts ≡ 0)
      ⊎ ((crypto.available (hash_func opts) ≡ true) × (length payload ≡ hash_size (hash_func opts)))

  -- All that stands behind a signature in a response.
  pub record Issued (env : Env) (s : SignServer Key) (r : Request) (text : Text) : Type 0 where
    pub authentic : (authenticate s.auth (header_get r header_token)).ok ≡ true
    pub permitted :
        (allowed env s.auth (authenticate s.auth (header_get r header_token)).client_id sign).ok
        ≡ true
    pub sign_req : SignRequest
    pub payload : Bytes
    pub opts : SignerOpts
    pub key : Key
    pub signature : Bytes
    pub read : read_json r max_body ≡ ok sign_req
    pub decoded : decode_payload sign_req.payload ≡ ok payload
    pub options : signer_opts_from_request sign_req ≡ ok opts
    pub fits : FitsHash payload opts
    pub chosen :
        key_for_request s (authenticate s.auth (header_get r header_token)).client_id r ≡ some key
    pub signed : crypto.sign_with key payload opts ≡ ok signature
    pub sent : text ≡ encode signature

  validate_payload_sound :
      (payload : Bytes) (opts : SignerOpts)
      → validate_payload crypto payload opts ≡ ok tt
      → FitsHash payload opts
  unfolding validate_payload
  validate_payload_sound payload opts h = ground arith

  pub record Attempted (s : SignServer Key) (id : Text) (r : Request) (signature : Bytes)
      : Type 0 where
    pub sign_req : SignRequest
    pub payload : Bytes
    pub opts : SignerOpts
    pub key : Key
    pub read : read_json r max_body ≡ ok sign_req
    pub decoded : decode_payload sign_req.payload ≡ ok payload
    pub options : signer_opts_from_request sign_req ≡ ok opts
    pub valid : validate_payload crypto payload opts ≡ ok tt
    pub chosen : key_for_request s id r ≡ some key
    pub signed : crypto.sign_with key payload opts ≡ ok signature

  attempt_sign_sound :
      (s : SignServer Key) (id : Text) (r : Request) (signature : Bytes)
      → attempt_sign crypto s id r ≡ go signature
      → Attempted s id r signature
  unfolding attempt_sign
  attempt_sign_sound s id r signature h =
      let (q, e₁, h₁) = bind_inversion (or_stop 400 (read_json r max_body)) _ h in
      let (payload, e₂, h₂) = bind_inversion (or_stop 400 (decode_payload q.payload)) _ h₁ in
      let (opts, e₃, h₃) = bind_inversion (or_stop 400 (signer_opts_from_request q)) _ h₂ in
      let (u, e₄, h₄) = bind_inversion (or_stop 400 (validate_payload crypto payload opts)) _ h₃ in
      let (key, e₅, h₅) = bind_inversion (require_key (key_for_request s id r)) _ h₄ in
      record {
        sign_req = q;
        payload = payload;
        opts = opts;
        key = key;
        read = or_stop_inversion 400 (read_json r max_body) e₁;
        decoded = or_stop_inversion 400 (decode_payload q.payload) e₂;
        options = or_stop_inversion 400 (signer_opts_from_request q) e₃;
        valid = or_stop_inversion 400 (validate_payload crypto payload opts) e₄;
        chosen = require_key_inversion (key_for_request s id r) e₅;
        signed = or_stop_inversion 500 (crypto.sign_with key payload opts) h₅;
      }

  after_allowed : Env → SignServer Key → Text → SignServer Key
  after_allowed env s id = record s { auth = (allowed env s.auth id sign).manager }

  key_for_request_after :
      (env : Env) (s : SignServer Key) (id : Text) (r : Request)
      → key_for_request (after_allowed env s id) id r ≡ key_for_request s id r
  unfolding key_for_request after_allowed
  key_for_request_after env s id r = refl

  finish_inversion :
      (env : Env) (s : SignServer Key) (id : Text) (r : Request) (attempt : Attempt Bytes)
      (text : Text)
      → (finish_sign env s id r attempt).1.body ≡ sign_response text
      → (signature : Bytes) × (attempt ≡ go signature) × (text ≡ encode signature)
  unfolding finish_sign deny
  finish_inversion env s id r (stop status why) text h = cc
  finish_inversion env s id r (go signature) text h = (signature, refl, cc)

  sign_handler_inversion :
      (env : Env) (s : SignServer Key) (id : Text) (r : Request) (text : Text)
      → (sign_handler crypto env s id r).1.body ≡ sign_response text
      → ((allowed env s.auth id sign).ok ≡ true)
        × ((finish_sign env
              (after_allowed env s id)
              id
              r
              (attempt_sign crypto (after_allowed env s id) id r)).1.body
            ≡ sign_response text)
  unfolding sign_handler deny after_allowed
  sign_handler_inversion env s id r text h = elim (Bool-cases (allowed env s.auth id sign).ok) [
    | inl e ↦ (e, ground arith)
    | inr e ↦ absurd (ground arith)
  ]

  require_auth_inversion :
      (env : Env) (s : SignServer Key) (r : Request) (text : Text)
      → (serve crypto post_sign env s r).1.body ≡ sign_response text
      → ((authenticate s.auth (header_get r header_token)).ok ≡ true)
        × ((sign_handler crypto env s
              (authenticate s.auth (header_get r header_token)).client_id
              r).1.body
            ≡ sign_response text)
  unfolding serve require_auth
  require_auth_inversion env s r text h =
      elim (Bool-cases (authenticate s.auth (header_get r header_token)).ok) [
        | inl e ↦ (e, ground arith)
        | inr e ↦ absurd (ground arith)
      ]

  -- A response with a signature is given only to an authenticated client that `allowed` lets sign,
  -- for a request that decodes to a payload with the length of its available hash (or with no
  -- hash), and the signature is that of the key chosen for the client over this payload under these
  -- options.
  pub serve_sign_sound :
      (env : Env) (s : SignServer Key) (r : Request) (text : Text)
      → (serve crypto post_sign env s r).1.body ≡ sign_response text
      → Issued env s r text
  serve_sign_sound env s r text h =
      let (authentic, h₁) = require_auth_inversion env s r text h in
      let id = (authenticate s.auth (header_get r header_token)).client_id in
      let (permitted, h₂) = sign_handler_inversion env s id r text h₁ in
      let (signature, e, sent) = finish_inversion env (after_allowed env s id) id r _ text h₂ in
      let a = attempt_sign_sound (after_allowed env s id) id r signature e in
      record {
        authentic = authentic;
        permitted = permitted;
        sign_req = a.sign_req;
        payload = a.payload;
        opts = a.opts;
        key = a.key;
        signature = signature;
        read = a.read;
        decoded = a.decoded;
        options = a.options;
        fits = validate_payload_sound a.payload a.opts a.valid;
        chosen = sym (key_for_request_after env s id r) ∙ a.chosen;
        signed = a.signed;
        sent = sent;
      }

module _ {Key : Type 0} where
  -- A request that names a key gets that key of its own client's map and no other: neither the default
  -- key nor another client's.
  named_key_isolation :
      (s : SignServer Key) (id : Text) (r : Request) (key : Key)
      → is_empty (trim_space (header_get r header_key_id)) ≡ false
      → (key_for_request s id r ≡ some key) ↔ (
          (keys : Map Key) × (lookup id s.client_keys ≡ some keys)
          × (lookup (trim_space (header_get r header_key_id)) keys ≡ some key))
  unfolding key_for_request
  named_key_isolation s id r key named = (
    (λ h. elim (Option-cases (lookup id s.client_keys)) [
      | inl e ↦ absurd (ground arith)
      | inr (keys, e) ↦ (keys, e, ground arith)
    ]),
    (λ h. ground arith),
  )
