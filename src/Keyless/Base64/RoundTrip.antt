-- ===== src/Keyless/Base64/RoundTrip.antt =====
-- What decoding makes of an encoded text.
use Prim.Native.Nat.{◌*◌}
use mathlib.Core.Path.{ap₂}
use myzerossl.Prelude.{
  ℕ, ◌+◌, ◌/◌, ◌%◌, ◌<◌, false, [], ◌∷◌, some, ◌==◌, ◌≡◌, refl, ap, ◌∙◌, arith, All,
}
use myzerossl.Prelude.Result.{ok}
use myzerossl.Text.{Text}
use myzerossl.Keyless.Base64.{
  Bytes, digit, digit_value, encode, decode_quanta, drop_line_ends, decode,
}

digit_value-digit : (v : ℕ) → v < 64 → digit_value (digit v) ≡ some v
unfolding digit digit_value
digit_value-digit v h = ground arith

digit_plain :
    (v : ℕ)
    → v < 64
    → ((digit v == b'=') ≡ false) × ((digit v == 10) ≡ false) × ((digit v == 13) ≡ false)
unfolding digit
digit_plain v h = (ground arith, ground arith, ground arith)

abbrev pub AreBytes : Bytes → Type 0
AreBytes = All (λ b. b < 256)

drop_line_ends-digit :
    (v : ℕ) (s : Text) → v < 64 → drop_line_ends (digit v ∷ s) ≡ digit v ∷ drop_line_ends s
unfolding drop_line_ends
drop_line_ends-digit v s h = ground (arith, digit_plain v h)

drop_line_ends-encode : (bs : Bytes) → AreBytes bs → drop_line_ends (encode bs) ≡ encode bs
unfolding encode
drop_line_ends-encode [] h = unfold drop_line_ends in refl
drop_line_ends-encode (a ∷ []) h =
    rw
      (
        drop_line_ends-digit (a / 4) _ (omega arith),
        drop_line_ends-digit ((a % 4) * 16) _ (omega arith),
      )
      (unfold drop_line_ends in refl)
drop_line_ends-encode (a ∷ b ∷ []) h =
    rw
      (
        drop_line_ends-digit (a / 4) _ (omega arith),
        drop_line_ends-digit ((a % 4) * 16 + b / 16) _ (omega arith),
        drop_line_ends-digit ((b % 16) * 4) _ (omega arith),
      )
      (unfold drop_line_ends in refl)
drop_line_ends-encode (a ∷ b ∷ c ∷ r) h = rw (
  drop_line_ends-digit (a / 4) _ (omega arith),
  drop_line_ends-digit ((a % 4) * 16 + b / 16) _ (omega arith),
  drop_line_ends-digit ((b % 16) * 4 + c / 64) _ (omega arith),
  drop_line_ends-digit (c % 64) _ (omega arith),
  drop_line_ends-encode r h.1.1.1,
)

decode_quanta-cons :
    (u v w x : ℕ) (s : Text) (r : Bytes)
    → u < 64
    → v < 64
    → w < 64
    → x < 64
    → decode_quanta s ≡ ok r
    → decode_quanta (digit u ∷ digit v ∷ digit w ∷ digit x ∷ s)
      ≡ ok ((u * 4 + v / 16) ∷ ((v % 16) * 16 + w / 4) ∷ ((w % 4) * 64 + x) ∷ r)
unfolding decode_quanta
decode_quanta-cons u v w x [] r hu hv hw hx h = ground (
  arith,
  digit_value-digit u hu,
  digit_value-digit v hv,
  digit_value-digit w hw,
  digit_value-digit x hx,
  digit_plain x hx,
)
decode_quanta-cons u v w x (c ∷ s) r hu hv hw hx h = rw (
  digit_value-digit u hu,
  digit_value-digit v hv,
  digit_value-digit w hw,
  digit_value-digit x hx,
  h,
)

decode_quanta-two :
    (u v w : ℕ)
    → u < 64
    → v < 64
    → w < 64
    → decode_quanta (digit u ∷ digit v ∷ digit w ∷ b'=' ∷ [])
      ≡ ok ((u * 4 + v / 16) ∷ ((v % 16) * 16 + w / 4) ∷ [])
unfolding decode_quanta
decode_quanta-two u v w hu hv hw = ground (
  arith,
  digit_value-digit u hu,
  digit_value-digit v hv,
  digit_value-digit w hw,
  digit_plain w hw,
)

decode_quanta-one :
    (u v : ℕ)
    → u < 64
    → v < 64
    → decode_quanta (digit u ∷ digit v ∷ b'=' ∷ b'=' ∷ []) ≡ ok ((u * 4 + v / 16) ∷ [])
unfolding decode_quanta
decode_quanta-one u v hu hv = ground (arith, digit_value-digit u hu, digit_value-digit v hv)

quantum_path :
    {a a' b b' c c' : ℕ} (r : Bytes)
    → a ≡ a'
    → b ≡ b'
    → c ≡ c'
    → ok (a ∷ b ∷ c ∷ r) ≡ ok (a' ∷ b' ∷ c' ∷ r)
quantum_path r p q s = cc

decode_quanta-encode : (bs : Bytes) → AreBytes bs → decode_quanta (encode bs) ≡ ok bs
unfolding encode
decode_quanta-encode [] h = unfold decode_quanta in refl
decode_quanta-encode (a ∷ []) h =
    decode_quanta-one (a / 4) ((a % 4) * 16) (omega arith) (omega arith)
    ∙ ap (λ x. ok (x ∷ [])) (omega arith)
decode_quanta-encode (a ∷ b ∷ []) h =
    decode_quanta-two (a / 4) ((a % 4) * 16 + b / 16) ((b % 16) * 4) (omega arith) (omega arith)
      (omega arith)
    ∙ ap₂ (λ x y. ok (x ∷ y ∷ [])) (omega arith) (omega arith)
decode_quanta-encode (a ∷ b ∷ c ∷ r) h =
    decode_quanta-cons (a / 4) ((a % 4) * 16 + b / 16) ((b % 16) * 4 + c / 64) (c % 64) (encode r) r
      (omega arith) (omega arith) (omega arith) (omega arith) (decode_quanta-encode r h.1.1.1)
    ∙ quantum_path r (omega arith) (omega arith) (omega arith)

-- `DecodeString` gives back the bytes that `EncodeToString` was given.
pub decode-encode : (bs : Bytes) → AreBytes bs → decode (encode bs) ≡ ok bs
unfolding decode
decode-encode bs h = rw (drop_line_ends-encode bs h) (decode_quanta-encode bs h)
