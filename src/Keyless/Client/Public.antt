-- ===== src/Keyless/Client/Public.antt =====
-- The public key that a remote signer shows.
use myzerossl.Prelude.{◌≡◌, sym, ap, ◌∙◌, [], Option, none, some, if◌then◌else◌, is_empty}
use myzerossl.Prelude.Result.{Result, ok}
use myzerossl.Text.{Text, trim_space}
use myzerossl.Map.{lookup}
use myzerossl.Keyless.Base64.{Bytes, encode}
use myzerossl.Keyless.Base64.RoundTrip.{AreBytes, decode-encode}
use myzerossl.Keyless.Protocol.{SignerOpts, header_token, header_key_id}
use myzerossl.Keyless.State.{Env}
use myzerossl.Keyless.Authenticate.{authenticate, accepted}
use myzerossl.Keyless.Server.{
  Crypto, Request, header_get, SignServer, key_for_request, public_key, require_auth,
  get_public_key, serve, Response, public_key_response,
}
use myzerossl.Keyless.Client.Headers.{key_sent, key_asked, token_asked}
use myzerossl.Keyless.Client.{
  RemoteSigner, set_client_id, sign_request, public_key_request, read_public_key, BaseUrl,
  require_http, fetch_public_key, new_remote_signer_for_key, strings_trim_right_slash,
}

module _ {Key : Type 0} (crypto : Crypto Key) where
  key_named : SignServer Key → Text → Text → Option Key
  key_named s id sent =
      let key_id = trim_space sent in
      let default_key : Option Key = if is_empty key_id then some s.key else none in
      elim (lookup id s.client_keys) [
        | none ↦ default_key
        | some keys ↦ elim (lookup key_id keys) [ none ↦ default_key | some key ↦ some key ]
      ]

  -- The key is chosen by the key id alone.
  same_key :
      (s : SignServer Key) (id : Text) (r r' : Request)
      → header_get r header_key_id ≡ header_get r' header_key_id
      → key_for_request s id r ≡ key_for_request s id r'
  unfolding key_for_request key_named
  same_key s id r r' e = ap (key_named s id) e

  key_of_signer :
      (s : SignServer Key) (id : Text) (signer : RemoteSigner) (client_id addr addr' : Text)
      (payload : Bytes) (opts : SignerOpts)
      → key_for_request s id (public_key_request signer addr)
        ≡ key_for_request s id (sign_request (set_client_id signer client_id) addr' payload opts)
  unfolding set_client_id
  key_of_signer s id signer client_id addr addr' payload opts =
      same_key s id (public_key_request signer addr)
        (sign_request (set_client_id signer client_id) addr' payload opts)
        (key_asked signer addr ∙ sym (key_sent (set_client_id signer client_id) addr' payload opts))

  public_key-chosen :
      (env : Env) (s : SignServer Key) (id : Text) (r : Request) (key : Key) (der : Bytes)
      → key_for_request s id r ≡ some key
      → crypto.public_der key ≡ ok der
      → (public_key crypto env s id r).1
        ≡ record { status = 200; body = public_key_response (encode der) }
  unfolding public_key
  public_key-chosen env s id r key der chosen coded = rw (public_key, chosen, coded)

  serve-accepted :
      (env : Env) (s : SignServer Key) (r : Request) (id : Text)
      → authenticate s.auth (header_get r header_token) ≡ accepted id
      → (serve crypto get_public_key env s r).1 ≡ (public_key crypto env s id r).1
  unfolding serve require_auth
  serve-accepted env s r id auth = rw auth

  public_key_served :
      (env : Env) (s : SignServer Key) (signer : RemoteSigner) (addr id : Text) (key : Key)
      (der : Bytes)
      → authenticate s.auth signer.token ≡ accepted id
      → key_for_request s id (public_key_request signer addr) ≡ some key
      → crypto.public_der key ≡ ok der
      → AreBytes der
      → read_public_key (serve crypto get_public_key env s (public_key_request signer addr)).1
        ≡ ok der
  unfolding read_public_key
  public_key_served env s signer addr id key der auth chosen coded bytes =
      let r = public_key_request signer addr in
      ap read_public_key (
        serve-accepted env s r id (ap (authenticate s.auth) (token_asked signer addr) ∙ auth)
        ∙ public_key-chosen env s id r key der chosen coded)
      ∙ decode-encode der bytes

  -- The network that delivers every request to this server
  abbrev pub to_server : Env → SignServer Key → Text → RemoteSigner → Result Response
  to_server env s addr signer =
      ok (serve crypto get_public_key env s (public_key_request signer addr)).1

  -- A remote signer that the server lets in shows the public key of the key that the server will choose
  -- for its requests to sign, under every client id that it is given afterwards. The URL is one of http or
  -- https; the key's public part is written as bytes and read back by the parser of public keys.
  pub new_remote_signer_shows_key :
      {Public : Type 0} (parse_url : Text → Result BaseUrl)
      (parse_public_key : Bytes → Result Public) (env : Env) (s : SignServer Key)
      (base_url token key_id client_id addr addr' id : Text) (payload : Bytes) (opts : SignerOpts)
      (parsed : BaseUrl) (key : Key) (der : Bytes) (public : Public)
      → parse_url base_url ≡ ok parsed
      → require_http parsed ≡ ok parsed
      → authenticate s.auth token ≡ accepted id
      → key_for_request s id (
          sign_request
            (record {
              base_url = strings_trim_right_slash parsed.spelled;
              token = token;
              key_id = key_id;
              client_id = client_id;
            })
            addr'
            payload
            opts)
        ≡ some key
      → crypto.public_der key ≡ ok der
      → AreBytes der
      → parse_public_key der ≡ ok public
      → new_remote_signer_for_key parse_url parse_public_key
          (to_server env s addr)
          base_url
          token
          key_id
        ≡ ok (
          record {
            base_url = strings_trim_right_slash parsed.spelled;
            token = token;
            key_id = key_id;
            client_id = [];
          },
          public,
        )
  unfolding new_remote_signer_for_key fetch_public_key set_client_id
  new_remote_signer_shows_key parse_url parse_public_key env s base_url token key_id client_id addr
        addr' id payload opts parsed key der public url http auth chosen coded bytes reads =
      let signer : RemoteSigner = record {
        base_url = strings_trim_right_slash parsed.spelled;
        token = token;
        key_id = key_id;
        client_id = [];
      } in
      let same = key_of_signer s id signer client_id addr addr' payload opts in
      let served =
        public_key_served env s signer addr id key der auth (same ∙ chosen) coded bytes in
      rw (url, http, served, reads)
