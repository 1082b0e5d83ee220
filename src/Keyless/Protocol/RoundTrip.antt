-- ===== src/Keyless/Protocol/RoundTrip.antt =====
-- What the server reads of a request that the remote signer writes.
use myzerossl.Prelude.{
  ℕ, true, false, [], ◌∷◌, ◌++◌, if◌then◌else◌, ◌≡◌, ◌≢◌, refl, arith, is_empty, ◌⊎◌, inl, inr,
  Bool-cases,
}
use myzerossl.Prelude.Result.{ok, err}
use myzerossl.Text.{Text, codes, to_upper, Text-discrete}
use myzerossl.Text.Decimal.{itoa}
use myzerossl.Keyless.Base64.{Bytes, encode}
use myzerossl.Keyless.Base64.RoundTrip.{AreBytes, decode-encode}
use myzerossl.Keyless.Protocol.{
  SignerOpts, plain, pss, hash_func, hash_name, parse_hash, signer_opts_from_request,
  request_from_signer_input, decode_payload, is_supported,
}

unknown_name : (t : Text) → parse_hash (codes "UNKNOWN-" ++ t) ≡ err (codes "unsupported hash")
unfolding parse_hash to_upper Text-discrete
unknown_name t = ground arith

hash_name_unknown : (h : ℕ) → is_supported h ≡ false → hash_name h ≡ codes "UNKNOWN-" ++ itoa h
unfolding hash_name
hash_name_unknown h s = ground arith

supported_cases :
    (h : ℕ)
    → is_supported h ≡ true
    → (h ≡ 0) ⊎ ((h ≡ 3) ⊎ ((h ≡ 4) ⊎ ((h ≡ 5) ⊎ ((h ≡ 6) ⊎ (h ≡ 7)))))
supported_cases h s = ground arith

parse_hash-hash_name : (h : ℕ) → is_supported h ≡ true → parse_hash (hash_name h) ≡ ok h
unfolding hash_name parse_hash Text-discrete
parse_hash-hash_name h s = elim (supported_cases h s) [
  | inl e ↦ rw e refl
  | inr (inl e) ↦ rw e refl
  | inr (inr (inl e)) ↦ rw e refl
  | inr (inr (inr (inl e))) ↦ rw e refl
  | inr (inr (inr (inr (inl e)))) ↦ rw e refl
  | inr (inr (inr (inr (inr e)))) ↦ rw e refl
]

-- What the server reads back: the options with a supported hash, an error for every other hash.
pub opts_round_trip :
    (payload : Bytes) (opts : SignerOpts)
    → signer_opts_from_request (request_from_signer_input payload opts)
      ≡ (if is_supported (hash_func opts) then ok opts else err (codes "unsupported hash"))
unfolding signer_opts_from_request request_from_signer_input Text-discrete
opts_round_trip payload (plain h) = elim (Bool-cases (is_supported h)) [
  | inl s ↦ rw (parse_hash-hash_name h s, s)
  | inr u ↦ rw (hash_name_unknown h u, unknown_name (itoa h), u)
]
opts_round_trip payload (pss salt h) = elim (Bool-cases (is_supported h)) [
  | inl s ↦ rw (parse_hash-hash_name h s, s)
  | inr u ↦ rw (hash_name_unknown h u, unknown_name (itoa h), u)
]

payload-request :
    (payload : Bytes) (opts : SignerOpts)
    → (request_from_signer_input payload opts).payload ≡ encode payload
unfolding request_from_signer_input
payload-request payload (plain h) = refl
payload-request payload (pss salt h) = refl

encode-ne-nil : (bs : Bytes) → bs ≢ [] → is_empty (encode bs) ≡ false
unfolding encode
encode-ne-nil [] h = absurd (h refl)
encode-ne-nil (a ∷ []) h = refl
encode-ne-nil (a ∷ b ∷ []) h = refl
encode-ne-nil (a ∷ b ∷ c ∷ r) h = refl

-- The server decodes a payload of at least one byte to itself.
pub payload_round_trip :
    (payload : Bytes) (opts : SignerOpts)
    → payload ≢ []
    → AreBytes payload
    → decode_payload (request_from_signer_input payload opts).payload ≡ ok payload
unfolding decode_payload
payload_round_trip payload opts ne bytes =
    rw (payload-request payload opts, encode-ne-nil payload ne) (decode-encode payload bytes)
