-- ===== src/Keyless/Client.antt =====
-- internal/keyless/client.go: the remote signer, a `crypto.Signer` whose key stays with the server. The
-- network delivers a request with the address that it came from.
pub mod Headers
pub mod Remote
pub mod Public
use myzerossl.Prelude.{
  ℕ, Bool, true, false, not, ◌&&◌, suc, length, List, [], ◌∷◌, ◌++◌, ◌==◌, if◌then◌else◌, is_empty,
}
use myzerossl.Prelude.Int.{ℤ, pos, negsuc}
use myzerossl.Text.Decimal.{itoa}
use myzerossl.Prelude.Result.{Result, ok, err, ◌>>=◌}
use myzerossl.Text.{Text, codes, differ, trim_right_char}
use myzerossl.Map.{Map}
use myzerossl.Keyless.Base64.{Bytes, decode}
use myzerossl.Keyless.Protocol.{
  SignerOpts, SignRequest, request_from_signer_input, header_token, header_client_id, header_key_id,
}
use myzerossl.Keyless.Server.{
  Request, Body, sign_response, public_key_response, error_text, unauthorized, Response,
}

pub record RemoteSigner : Type 0 where
  pub base_url : Text
  pub token : Text
  pub key_id : Text
  pub client_id : Text

-- `stringsTrimRightSlash`
unfoldable pub strings_trim_right_slash : Text → Text
unfolding trim_right_char
strings_trim_right_slash = trim_right_char b'/'

unfoldable pub set_client_id : RemoteSigner → Text → RemoteSigner
set_client_id s client_id = record s { client_id = client_id }

-- A header that is set only if its value is not empty
abbrev pub optional_header : Text → Text → Map Text
optional_header name value = if is_empty value then [] else (name, value) ∷ []

unfoldable pub credentials : RemoteSigner → Map Text
credentials s =
    optional_header header_token s.token
    ++ (optional_header header_key_id s.key_id ++ optional_header header_client_id s.client_id)

-- `json.Marshal` of the request: no field has a character that JSON escapes, and a salt length of 0 is
-- left out.
unfoldable pub salt_text : ℤ → Text
salt_text (pos n) = if n == 0 then [] else codes ",\"salt_length\":" ++ itoa n
salt_text (negsuc n) = codes ",\"salt_length\":-" ++ itoa (suc n)

unfoldable pub sign_request_text : SignRequest → Text
sign_request_text req =
    codes "{\"payload\":\""
    ++ req.payload
    ++ codes "\",\"hash\":\""
    ++ req.hash
    ++ codes "\",\"scheme\":\""
    ++ req.scheme
    ++ codes "\""
    ++ salt_text req.salt_length
    ++ codes "}"

-- What `Sign` sends to /v1/sign
unfoldable pub sign_request : RemoteSigner → Text → Bytes → SignerOpts → Request
unfolding credentials
sign_request s addr digest opts = record {
  header = (codes "Content-Type", codes "application/json") ∷ credentials s;
  remote_addr = addr;
  body = ok (request_from_signer_input digest opts);
  body_size = length (sign_request_text (request_from_signer_input digest opts));
}

-- A JSON object without the field leaves it empty.
abbrev pub signature_field : Body → Text
signature_field (sign_response signature) = signature
signature_field _ = []

abbrev pub der_field : Body → Text
der_field (public_key_response der) = der
der_field _ = []

-- What `Sign` makes of the response
unfoldable pub read_signature : Response → Result Bytes
read_signature r =
    if not (r.status == 200)
    then err (codes "keyless sign failed")
    else decode (signature_field r.body)

-- The request of `fetchPublicKey`, and the bytes that it hands to the X.509 parser
unfoldable pub public_key_request : RemoteSigner → Text → Request
unfolding credentials
public_key_request s addr = record {
  header = credentials s;
  remote_addr = addr;
  body = err (codes "EOF");
  body_size = 0;
}

unfoldable pub read_public_key : Response → Result Bytes
read_public_key r =
    if not (r.status == 200)
    then err (codes "keyless public key failed")
    else decode (der_field r.body)

-- A parsed URL: its scheme, and how it is spelled
pub record BaseUrl : Type 0 where
  pub scheme : Text
  pub spelled : Text

abbrev pub require_http : BaseUrl → Result BaseUrl
require_http parsed =
    if differ parsed.scheme (codes "https") && differ parsed.scheme (codes "http")
    then err (codes "keyless URL must use http or https")
    else ok parsed

-- `url.Parse`, the parser of public keys, and the network with the server behind it
module _ {Public : Type 0} (parse_url : Text → Result BaseUrl)
    (parse_public_key : Bytes → Result Public) (network : RemoteSigner → Result Response) where
  unfoldable pub fetch_public_key : RemoteSigner → Result Public
  fetch_public_key s = do response ← network s; der ← read_public_key response; parse_public_key der

  -- The signer with its public key
  unfoldable pub new_remote_signer_for_key : Text → Text → Text → Result (RemoteSigner × Public)
  new_remote_signer_for_key base_url token key_id = do
    parsed ← parse_url base_url
    checked ← require_http parsed
    let signer : RemoteSigner = record {
      base_url = strings_trim_right_slash checked.spelled;
      token = token;
      key_id = key_id;
      client_id = [];
    }
    public ← fetch_public_key signer
    ok (signer, public)
