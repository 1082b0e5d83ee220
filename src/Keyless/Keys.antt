-- ===== src/Keyless/Keys.antt =====
-- internal/keyless/pem.go and server.go: the private keys of the signer and of its clients. Reading a
-- file and the parsers of encoding/pem and crypto/x509 are parameters.
pub mod Configured
use myzerossl.Prelude.{ℕ, ◌||◌, List, [], ◌∷◌, Option, none, some, if◌then◌else◌, is_empty}
use myzerossl.Prelude.Result.{Result, ok, err, ◌>>=◌, FileRead}
use myzerossl.Text.{Text, codes, trim_space}
use myzerossl.Text.Lines.{Scanned}
use myzerossl.Map.{Map, lookup, insert}
use myzerossl.Keyless.State.{ClientConfig, ClientState, AuthManager}
use myzerossl.Keyless.Load.{SignServerOptions, new_auth_manager}
use myzerossl.Keyless.Server.{SignServer}

-- The dynamic type of a parsed key
pub data Parsed (Key : Type 0) : Type 0 where
  rsa ecdsa ed25519 : Key → Parsed Key
  other : Parsed Key

pub record Parsers (Key : Type 0) : Type 0 where
  pub read_file : Text → Result (List ℕ)
  pub pem_decode : List ℕ → Option (List ℕ)
  pub parse_pkcs8 : List ℕ → Result (Parsed Key)
  pub parse_pkcs1 : List ℕ → Result (Parsed Key)
  pub parse_ec : List ℕ → Result (Parsed Key)

abbrev pub require_block : Option (List ℕ) → Result (List ℕ)
require_block none = err (codes "no PEM block found")
require_block (some block) = ok block

module _ {Key : Type 0} where
  abbrev pub or_parse : Result (Parsed Key) → Result (Parsed Key) → Result (Parsed Key)
  or_parse (ok key) next = ok key
  or_parse (err e) next = next

  abbrev pub as_signer : Parsed Key → Result Key
  as_signer (rsa key) = ok key
  as_signer (ecdsa key) = ok key
  as_signer (ed25519 key) = ok key
  as_signer other = err (codes "private key does not implement crypto.Signer")

  -- `LoadPrivateKey`
  unfoldable pub load_private_key : Parsers Key → Text → Result Key
  load_private_key p path = do
    content ← p.read_file path
    block ← require_block (p.pem_decode content)
    key ← or_parse (p.parse_pkcs8 block) (
        or_parse (p.parse_pkcs1 block) (
          or_parse (p.parse_ec block)
            (err (codes "unsupported private key; use PKCS#8, PKCS#1 RSA, or EC PEM"))))
    as_signer key

  abbrev pub or_no_keys : Option (Map Key) → Map Key
  or_no_keys none = []
  or_no_keys (some keys) = keys

  -- `keys[clientID][keyID] = key`, with the inner map made when it is missing
  unfoldable pub put_key : Text → Text → Key → Map (Map Key) → Map (Map Key)
  put_key client_id key_id key keys =
      insert client_id (insert key_id key (or_no_keys (lookup client_id keys))) keys

  -- The second argument of the loops is `LoadPrivateKey` with the parsers.
  module _ (load : Text → Result Key) where
    -- The inner loop of `loadClientKeys`, over the named keys of a client
    unfoldable pub load_named_keys : Text → Map Text → Map (Map Key) → Result (Map (Map Key))
    load_named_keys client_id [] keys = ok keys
    load_named_keys client_id ((named, file) ∷ private_keys) keys =
        let skipped = load_named_keys client_id private_keys keys in
        let key_id = trim_space named in
        let path = trim_space file in
        if is_empty key_id || is_empty path
        then skipped
        else load path >>= λ key.
            load_named_keys client_id private_keys (put_key client_id key_id key keys)

    unfoldable pub load_default_key : Text → ClientConfig → Map (Map Key) → Result (Map (Map Key))
    load_default_key client_id cfg keys =
        let path = trim_space cfg.private_key in
        if is_empty path then ok keys else load path >>= λ key. ok (put_key client_id [] key keys)

    unfoldable pub load_client_keys_from : Map ClientState → Map (Map Key) → Result (Map (Map Key))
    load_client_keys_from [] keys = ok keys
    load_client_keys_from ((client_id, state) ∷ clients) keys = do
      named ← load_named_keys client_id state.cfg.private_keys keys
      all ← load_default_key client_id state.cfg named
      load_client_keys_from clients all

    unfoldable pub load_client_keys : AuthManager → Result (Map (Map Key))
    load_client_keys auth = load_client_keys_from auth.clients []

    -- `NewSignServerWithOptions`; the two files are those of the options
    unfoldable pub new_sign_server_with_options :
        Key
        → SignServerOptions
        → FileRead (List ClientConfig)
        → FileRead Scanned
        → Result (SignServer Key)
    new_sign_server_with_options key opts clients_file revoked_file = do
      auth ← new_auth_manager opts clients_file revoked_file
      client_keys ← load_client_keys auth
      ok (record { key = key; client_keys = client_keys; auth = auth })
