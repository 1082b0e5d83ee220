-- ===== src/Keyless/Client/Remote.antt =====
-- The remote signer against the server.
use myzerossl.Prelude.{ℕ, ◌≤◌, leb, length, arith, true, ◌≡◌, ◌≢◌, refl, [], some}
use myzerossl.Prelude.Result.{Result, ok, err}
use myzerossl.Text.{Text, codes}
use myzerossl.Keyless.Base64.{Bytes}
use myzerossl.Keyless.Base64.RoundTrip.{AreBytes, decode-encode}
use myzerossl.Keyless.Protocol.{SignerOpts, hash_func, is_supported, request_from_signer_input}
use myzerossl.Keyless.Protocol.RoundTrip.{opts_round_trip, payload_round_trip}
use myzerossl.Keyless.State.{Env, sign}
use myzerossl.Keyless.Authenticate.{authenticate, accepted}
use myzerossl.Keyless.Limits.{allowed}
use myzerossl.Keyless.Server.{
  Crypto, Request, SignServer, or_stop, key_for_request, validate_payload, attempt_sign, deny,
  finish_sign, read_json, max_body, sign_handler, require_auth, post_sign, serve,
}
use myzerossl.Keyless.Client.Headers.{token_sent}
use myzerossl.Keyless.Client.{sign_request_text, RemoteSigner, sign_request, read_signature}

abbrev pub relay : Result Bytes → Result Bytes
relay (ok signature) = ok signature
relay (err e) = err (codes "keyless sign failed")

abbrev pub AnswersBytes : Result Bytes → Type 0
AnswersBytes (ok signature) = AreBytes signature
AnswersBytes (err e) = Unit

module _ {Key : Type 0} (crypto : Crypto Key) where
  size_fits : (n m : ℕ) → n ≤ m → leb n m ≡ true
  size_fits n m h = ground arith

  read_finish :
      (env : Env) (s : SignServer Key) (id : Text) (r : Request) (answer : Result Bytes)
      → AnswersBytes answer
      → read_signature (finish_sign env s id r (or_stop 500 answer)).1 ≡ relay answer
  unfolding read_signature finish_sign
  read_finish env s id r (ok signature) bytes = decode-encode signature bytes
  read_finish env s id r (err e) bytes = unfold deny in refl

  attempt_granted :
      (s : SignServer Key) (id : Text) (signer : RemoteSigner) (addr : Text) (payload : Bytes)
      (opts : SignerOpts) (key : Key)
      → payload ≢ []
      → AreBytes payload
      → length (sign_request_text (request_from_signer_input payload opts)) ≤ max_body
      → is_supported (hash_func opts) ≡ true
      → validate_payload crypto payload opts ≡ ok tt
      → key_for_request s id (sign_request signer addr payload opts) ≡ some key
      → attempt_sign crypto s id (sign_request signer addr payload opts)
        ≡ or_stop 500 (crypto.sign_with key payload opts)
  unfolding attempt_sign sign_request read_json
  attempt_granted s id signer addr payload opts key ne bytes small supported valid chosen = rw (
    size_fits (length (sign_request_text (request_from_signer_input payload opts))) max_body small,
    payload_round_trip payload opts ne bytes,
    opts_round_trip payload opts,
    supported,
    valid,
    chosen,
  )

  -- If the token of a signer authenticates a client that `allowed` lets sign, `Sign` over the
  -- network answers as the key that the server chooses for the request: with its signature if the
  -- key signs, with an error if it fails. The payload is bytes, not empty, and valid for its hash;
  -- the hash has a name on the wire; the request's JSON text is within the 64 KiB that the server reads; a
  -- signature is bytes.
  pub remote_sign_refines_key :
      (env : Env) (s : SignServer Key) (signer : RemoteSigner) (addr id : Text) (payload : Bytes)
      (opts : SignerOpts) (key : Key)
      → authenticate s.auth signer.token ≡ accepted id
      → (allowed env s.auth id sign).ok ≡ true
      → payload ≢ []
      → AreBytes payload
      → length (sign_request_text (request_from_signer_input payload opts)) ≤ max_body
      → is_supported (hash_func opts) ≡ true
      → validate_payload crypto payload opts ≡ ok tt
      → key_for_request s id (sign_request signer addr payload opts) ≡ some key
      → AnswersBytes (crypto.sign_with key payload opts)
      → read_signature (serve crypto post_sign env s (sign_request signer addr payload opts)).1
        ≡ relay (crypto.sign_with key payload opts)
  unfolding serve require_auth sign_handler
  remote_sign_refines_key env s signer addr id payload opts key auth permit ne bytes small supported
        valid chosen answers =
      let s' : SignServer Key = record s { auth = (allowed env s.auth id sign).manager } in
      let chosen' : key_for_request s' id (sign_request signer addr payload opts) ≡ some key =
        unfold key_for_request in chosen in
      rw
        (
          token_sent signer addr payload opts,
          auth,
          permit,
          attempt_granted s' id signer addr payload opts key ne bytes small supported valid chosen',
        )
        (read_finish env s' id (sign_request signer addr payload opts) _ answers)
