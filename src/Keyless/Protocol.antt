-- ===== src/Keyless/Protocol.antt =====
-- internal/keyless/protocol.go: the names of hashes and schemes, and the requests on the wire. JSON
-- itself is not modelled: a body is the value that it encodes, or the error of decoding it.
pub mod RoundTrip
use myzerossl.Prelude.{
  ℕ, Bool, true, false, ◌||◌, [], ◌∷◌, ◌++◌, ◌==◌, if◌then◌else◌, ◌≡◌, refl, arith, is_empty,
}
use myzerossl.Prelude.Int.{ℤ, pos}
use myzerossl.Prelude.Result.{Result, ok, err, ◌>>=◌}
use myzerossl.Text.{Text, codes, same, to_upper, Text-discrete}
use myzerossl.Text.Decimal.{itoa}
use myzerossl.Keyless.Base64.{Bytes, encode, decode}

abbrev pub header_token : Text
header_token = codes "X-Keyless-Token"

abbrev pub header_client_id : Text
header_client_id = codes "X-Keyless-Client-ID"

abbrev pub header_key_id : Text
header_key_id = codes "X-Keyless-Key-ID"

abbrev pub scheme_default : Text
scheme_default = codes "default"

abbrev pub scheme_rsa_pss : Text
scheme_rsa_pss = codes "rsa-pss"

-- `crypto.Hash` is a number; these are the constants of Go's library.
abbrev pub sha1 : ℕ
sha1 = 3

abbrev pub sha224 : ℕ
sha224 = 4

abbrev pub sha256 : ℕ
sha256 = 5

abbrev pub sha384 : ℕ
sha384 = 6

abbrev pub sha512 : ℕ
sha512 = 7

-- `crypto.SignerOpts`: a hash, or PSS options with a salt length and a hash
pub data SignerOpts : Type 0 where
  plain : ℕ → SignerOpts
  pss : ℤ → ℕ → SignerOpts

-- `HashFunc`
abbrev pub hash_func : SignerOpts → ℕ
hash_func (plain h) = h
hash_func (pss salt h) = h

pub record SignRequest : Type 0 where
  pub payload : Text
  pub hash : Text
  pub scheme : Text
  pub salt_length : ℤ

unfoldable pub hash_name : ℕ → Text
unfolding itoa
hash_name h =
    if h == sha1
    then codes "SHA1"
    else if h == sha224
    then codes "SHA224"
    else if h == sha256
    then codes "SHA256"
    else if h == sha384
    then codes "SHA384"
    else if h == sha512
    then codes "SHA512"
    else if h == 0
    then codes "NONE"
    else codes "UNKNOWN-" ++ itoa h

-- The `switch` of `ParseHash`, on the name in upper case
unfoldable pub parse_upper : Text → Result ℕ
parse_upper name =
    if is_empty name || same name (codes "NONE")
    then ok 0
    else if same name (codes "SHA1")
    then ok sha1
    else if same name (codes "SHA224")
    then ok sha224
    else if same name (codes "SHA256")
    then ok sha256
    else if same name (codes "SHA384")
    then ok sha384
    else if same name (codes "SHA512")
    then ok sha512
    else err (codes "unsupported hash")

unfoldable pub parse_hash : Text → Result ℕ
unfolding parse_upper to_upper
parse_hash name = parse_upper (to_upper name)

unfoldable pub request_from_signer_input : Bytes → SignerOpts → SignRequest
request_from_signer_input payload (plain h) = record {
  payload = encode payload;
  hash = hash_name h;
  scheme = scheme_default;
  salt_length = pos 0;
}
request_from_signer_input payload (pss salt h) = record {
  payload = encode payload;
  hash = hash_name h;
  scheme = scheme_rsa_pss;
  salt_length = salt;
}

-- The `switch` of `SignerOptsFromRequest`
unfoldable pub opts_for : Text → ℤ → ℕ → Result SignerOpts
opts_for scheme salt h =
    if is_empty scheme || same scheme scheme_default
    then ok (plain h)
    else if same scheme scheme_rsa_pss
    then ok (pss salt h)
    else err (codes "unsupported signing scheme")

unfoldable pub signer_opts_from_request : SignRequest → Result SignerOpts
unfolding opts_for
signer_opts_from_request req = do h ← parse_hash req.hash; opts_for req.scheme req.salt_length h

unfoldable pub decode_payload : Text → Result Bytes
decode_payload encoded = if is_empty encoded then err (codes "empty payload") else decode encoded

-- The hashes that have a name on the wire
abbrev pub is_supported : ℕ → Bool
is_supported h = h == 0 || h == sha1 || h == sha224 || h == sha256 || h == sha384 || h == sha512
