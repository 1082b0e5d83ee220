-- ===== src/Console/Session.antt =====
-- cmd/signer-console/main.go: signed session values. The MAC of Go's library under the session key is the
-- parameter `mac`.
use myzerossl.Prelude.{
  ℕ, ◌+◌, ◌-◌, ◌*◌, ◌/◌, ◌%◌, ◌<◌, Bool, true, false, not, ◌&&◌, ◌≡◌, ◌≢◌, refl, sym, ◌∙◌, ap, [],
  ◌∷◌, ◌++◌, Option, none, some, arith, if◌then◌else◌, leb, ltb, All, Bool-cases, Option-cases, inl,
  inr,
}
use myzerossl.Text.{Text, same, cut}
use myzerossl.Text.Laws.{cut_spells, cut-append}
use myzerossl.Keyless.Base64.{Bytes}
use myzerossl.Keyless.Base64.RoundTrip.{AreBytes}

-- `encoding/hex`
unfoldable pub hex_digit : ℕ → ℕ
hex_digit v = if ltb v 10 then b'0' + v else b'a' + (v - 10)

unfoldable pub hex_value : ℕ → Option ℕ
hex_value c =
    if leb b'0' c && leb c b'9'
    then some (c - b'0')
    else if leb b'a' c && leb c b'f'
    then some (c - b'a' + 10)
    else if leb b'A' c && leb c b'F'
    then some (c - b'A' + 10)
    else none

unfoldable pub hex_encode : Bytes → Text
hex_encode [] = []
hex_encode (b ∷ bs) = hex_digit (b / 16) ∷ hex_digit (b % 16) ∷ hex_encode bs

abbrev join_digits : Option ℕ → Option ℕ → Option Bytes → Option Bytes
join_digits (some u) (some v) (some bs) = some ((u * 16 + v) ∷ bs)
join_digits _ _ _ = none

unfoldable pub hex_decode : Text → Option Bytes
hex_decode [] = some []
hex_decode (c ∷ []) = none
hex_decode (c ∷ d ∷ s) = join_digits (hex_value c) (hex_value d) (hex_decode s)

module _ (mac : Text → Bytes) where
  unfoldable pub sign_value : Text → Text
  sign_value value = value ++ b'.' ∷ hex_encode (mac value)

  -- What `verifiedPayload` makes of the signature
  abbrev pub judged : Text → Option Bytes → Text × Bool
  judged value none = ([], false)
  judged value (some got) = (value, same got (mac value))

  unfoldable pub verified_payload : Text → Text × Bool
  verified_payload signed =
      let pieces = cut b'.' signed in
      if not pieces.found then ([], false) else judged pieces.before (hex_decode pieces.after)

  unfoldable pub verify_signed_value : Text → Text → Bool
  verify_signed_value signed expected =
      let payload = verified_payload signed in payload.1 && same payload.0 expected

hex_value-hex_digit : (v : ℕ) → v < 16 → hex_value (hex_digit v) ≡ some v
unfolding hex_value hex_digit
hex_value-hex_digit v h = ground arith

hex_decode-hex_encode : (bs : Bytes) → AreBytes bs → hex_decode (hex_encode bs) ≡ some bs
unfolding hex_encode hex_decode
hex_decode-hex_encode [] h = refl
hex_decode-hex_encode (b ∷ bs) h =
    rw
      (
        hex_value-hex_digit (b / 16) (omega arith),
        hex_value-hex_digit (b % 16) (omega arith),
        hex_decode-hex_encode bs h.1,
      )
      (ap (λ x. some (x ∷ bs)) (omega arith))

-- A value without a full stop that was signed is verified and given back.
pub verified_payload-sign_value :
    (mac : Text → Bytes) (value : Text)
    → AreBytes (mac value)
    → All (λ c. c ≢ b'.') value
    → verified_payload mac (sign_value mac value) ≡ (value, true)
unfolding verified_payload sign_value
verified_payload-sign_value mac value bytes plain =
    rw
      (
        cut-append b'.' value (hex_encode (mac value)) plain,
        hex_decode-hex_encode (mac value) bytes,
      )
      (ground arith)

-- A value is verified only if the text is the value, a full stop, and the digits of its MAC.
pub verified_payload_sound :
    (mac : Text → Bytes) (signed value : Text)
    → verified_payload mac signed ≡ (value, true)
    → (digits : Text) × (signed ≡ value ++ b'.' ∷ digits) × (hex_decode digits ≡ some (mac value))
unfolding verified_payload
verified_payload_sound mac signed value h =
    let pieces = cut b'.' signed in
    elim (Bool-cases pieces.found) [
      | inr lost ↦ absurd (ground (arith, ap (λ o. o.1) h))
      | inl found ↦ elim (Option-cases (hex_decode pieces.after)) [
        | inl n ↦ absurd (ground (arith, ap (λ o. o.1) h))
        | inr (got, e) ↦
            let value_is : pieces.before ≡ value = ground (arith, ap (λ o. o.0) h) in
            let equal : got ≡ mac value = ground (arith, ap (λ o. o.1) h, value_is) in
            (
              pieces.after,
              sym (cut_spells b'.' signed found) ∙ ap (λ v. v ++ b'.' ∷ pieces.after) value_is,
              e ∙ ap some equal,
            )
      ]
    ]
