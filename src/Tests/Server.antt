-- ===== src/Tests/Server.antt =====
-- internal/keyless/server.go and client.go at concrete inputs.
use myzerossl.Prelude.{ℕ, ◌≤◌, length, true, [], ◌∷◌, some, if◌then◌else◌, ◌≡◌, refl, arith}
use myzerossl.Prelude.Result.{ok}
use myzerossl.Text.{codes, Text-discrete, trim_space}
use myzerossl.Map.{lookup, member}
use myzerossl.Keyless.Base64.{Bytes, encode, decode}
use myzerossl.Keyless.Base64.RoundTrip.{AreBytes}
use myzerossl.Keyless.Protocol.{
  plain, header_token, parse_hash, hash_name, request_from_signer_input, signer_opts_from_request,
  decode_payload,
}
use myzerossl.Keyless.State.{auth, sign}
use myzerossl.Keyless.Authenticate.{authenticate, accepted}
use myzerossl.Keyless.Limits.{allowed, allowed_client}
use myzerossl.Keyless.Server.{
  Crypto, hash_size, Request, header_get, sign_response, SignServer, key_for_request,
  validate_payload, attempt_sign, finish_sign, sign_handler, read_json, max_body, require_auth,
  post_sign, serve,
}
use myzerossl.Keyless.Server.Issue.{Issued, serve_sign_sound}
use myzerossl.Keyless.Server.Audit.{OneMore, serve_sign_audits}
use myzerossl.Keyless.Client.{
  salt_text, sign_request_text, RemoteSigner, sign_request, read_signature,
}
use myzerossl.Keyless.Client.Remote.{remote_sign_refines_key}
use myzerossl.Tests.Keyless.{manager, env}

-- A key is a byte that stands before the payload in its signatures.
abbrev pub toy : Crypto ℕ
toy = record {
  public_der = λ key. ok (key ∷ []);
  sign_with = λ key payload opts. ok (key ∷ payload);
  available = λ hash. true;
}

abbrev pub server : SignServer ℕ
server = record {
  key = 7;
  client_keys = (codes "other", (codes "blue", 8) ∷ []) ∷ [];
  auth = manager;
}

abbrev pub signer : RemoteSigner
signer = record {
  base_url = codes "https://signer";
  token = codes "t2";
  key_id = codes "blue";
  client_id = codes "other";
}

abbrev pub digest : Bytes
digest =
    1 ∷ 2 ∷ 3 ∷ 4 ∷ 5 ∷ 6 ∷ 7 ∷ 8 ∷ 9 ∷ 10 ∷ 11 ∷ 12 ∷ 13 ∷ 14 ∷ 15 ∷ 16 ∷ 17 ∷ 18 ∷ 19 ∷ 20 ∷ []

abbrev request : Request
request = sign_request signer (codes "10.0.0.1") digest (plain 3)

digest-AreBytes : AreBytes digest
digest-AreBytes = ground arith

pub authentic : authenticate manager (codes "t2") ≡ accepted (codes "other")
unfolding authenticate Text-discrete member
authentic = refl

permitted : (allowed env manager (codes "other") sign).ok ≡ true
unfolding allowed allowed_client lookup Text-discrete
permitted = refl

pub chosen : key_for_request server (codes "other") request ≡ some 8
unfolding key_for_request trim_space header_get lookup Text-discrete sign_request
chosen = refl

valid : validate_payload toy digest (plain 3) ≡ ok tt
unfolding validate_payload hash_size
valid = refl

small : length (sign_request_text (request_from_signer_input digest (plain 3))) ≤ max_body
unfolding sign_request_text request_from_signer_input salt_text encode hash_name
small = omega arith

remote_sign_refines_key_example :
    read_signature (serve toy post_sign env server request).1 ≡ ok (8 ∷ digest)
remote_sign_refines_key_example =
    remote_sign_refines_key toy env server signer (codes "10.0.0.1") (codes "other") digest
      (plain 3) 8 authentic permitted (ground arith) digest-AreBytes small refl valid chosen
      (omega arith, digest-AreBytes)

answered : (serve toy post_sign env server request).1.body ≡ sign_response (encode (8 ∷ digest))
unfolding serve require_auth sign_handler read_json sign_request_text salt_text attempt_sign
    finish_sign key_for_request validate_payload hash_size authenticate member trim_space header_get
    lookup Text-discrete sign_request allowed allowed_client decode_payload
    request_from_signer_input signer_opts_from_request parse_hash encode decode hash_name
answered = refl

serve_sign_sound_example : Issued toy env server request (encode (8 ∷ digest))
serve_sign_sound_example = serve_sign_sound toy env server request (encode (8 ∷ digest)) answered

serve_sign_audits_example :
    OneMore []
      (serve toy post_sign env server request).0.auth.audit_lines
      (authenticate manager (header_get request header_token)).client_id
      (if (authenticate manager (header_get request header_token)).ok then sign else auth)
      (codes "10.0.0.1")
unfolding sign_request
serve_sign_audits_example = serve_sign_audits toy env server request (refl, refl)
