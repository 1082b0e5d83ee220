-- ===== src/Keyless/Client/Headers.antt =====
-- The headers that a remote signer sends, as the server reads them.
use myzerossl.Prelude.{◌≡◌, refl, [], ◌∷◌, ◌++◌, none, some}
use myzerossl.Text.{Text, Text-discrete}
use myzerossl.Map.{Map, lookup}
use myzerossl.Keyless.Base64.{Bytes}
use myzerossl.Keyless.Protocol.{SignerOpts, header_token, header_client_id, header_key_id}
use myzerossl.Keyless.Server.{header_get}
use myzerossl.Keyless.Client.{RemoteSigner, optional_header, sign_request, public_key_request}

header_value : Map Text → Text → Text
header_value m name = elim (lookup name m) [ none ↦ [] | some v ↦ v ]

abbrev three_headers : Text → Text → Text → Map Text
three_headers token key_id client_id =
    optional_header header_token token
    ++ (optional_header header_key_id key_id ++ optional_header header_client_id client_id)

token_value :
    (token key_id client_id : Text)
    → header_value (three_headers token key_id client_id) header_token ≡ token
unfolding header_value lookup Text-discrete
token_value (c ∷ t) k i = refl
token_value [] [] [] = refl
token_value [] [] (c ∷ i) = refl
token_value [] (c ∷ k) [] = refl
token_value [] (c ∷ k) (d ∷ i) = refl

key_value :
    (token key_id client_id : Text)
    → header_value (three_headers token key_id client_id) header_key_id ≡ key_id
unfolding header_value lookup Text-discrete
key_value [] (c ∷ k) i = refl
key_value (d ∷ t) (c ∷ k) i = refl
key_value [] [] [] = refl
key_value [] [] (c ∷ i) = refl
key_value (d ∷ t) [] [] = refl
key_value (d ∷ t) [] (c ∷ i) = refl

pub key_sent :
    (s : RemoteSigner) (addr : Text) (digest : Bytes) (opts : SignerOpts)
    → header_get (sign_request s addr digest opts) header_key_id ≡ s.key_id
unfolding header_get sign_request lookup Text-discrete
key_sent s addr digest opts = unfold header_value in key_value s.token s.key_id s.client_id

pub key_asked :
    (s : RemoteSigner) (addr : Text)
    → header_get (public_key_request s addr) header_key_id ≡ s.key_id
unfolding header_get public_key_request
key_asked s addr = unfold header_value in key_value s.token s.key_id s.client_id

pub token_asked :
    (s : RemoteSigner) (addr : Text) → header_get (public_key_request s addr) header_token ≡ s.token
unfolding header_get public_key_request
token_asked s addr = unfold header_value in token_value s.token s.key_id s.client_id

-- `Sign` sends the signer's token.
pub token_sent :
    (s : RemoteSigner) (addr : Text) (digest : Bytes) (opts : SignerOpts)
    → header_get (sign_request s addr digest opts) header_token ≡ s.token
unfolding header_get sign_request lookup Text-discrete
token_sent s addr digest opts = unfold header_value in token_value s.token s.key_id s.client_id
