-- ===== src/Tests/Session.antt =====
-- cmd/signer-console/main.go, signed session values and the login at concrete inputs, with a MAC that
-- repeats the value.
use myzerossl.Map.Laws.{lookup-insert, lookup-remove}
use myzerossl.Prelude.{
  ◌+◌, ◌<◌, ◌≢◌, ◌∙◌, ap, ltb, All, Bool-cases, inl, inr, ℕ, List, Option, none, some, [], ◌∷◌,
  ◌++◌, true, ◌≡◌, refl, arith, map, if◌then◌else◌,
}
use myzerossl.Prelude.Result.{Result, ok, err}
use myzerossl.Text.{Text, codes, same, split, cut, Text-discrete}
use myzerossl.Map.{Map, lookup, insert, remove}
use myzerossl.Keyless.Base64.{Bytes}
use myzerossl.Console.Session.{
  hex_digit, hex_value, hex_encode, hex_decode, sign_value, verified_payload, verify_signed_value,
}
use myzerossl.Console.Login.{
  SetCookie, set_cookie, clear_cookie, AccountMe, SessionValues, Account, session_cookie,
  system_admin, fetch_me, current_user, auth_start, log_in, callback, logout,
}
use myzerossl.Console.Access.{
  cookie_name, Browser, KeepsCookies, IsVouched, current_user_sound, callback_logs_in,
}

abbrev toy_mac : Text → Bytes
toy_mac value = value

signed : sign_value toy_mac (codes "ok") ≡ codes "ok.6f6b"
unfolding sign_value hex_encode hex_digit
signed = refl

payload_verified : verified_payload toy_mac (codes "ok.6F6b") ≡ (codes "ok", true)
unfolding verified_payload cut hex_decode hex_value Text-discrete
payload_verified = refl

-- The cookie of the account session and the user in this order, separated by newlines
abbrev toy_decode : Text → Option SessionValues
toy_decode text = elim (split 10 text) [
  | [] ↦ none
  | a ∷ [] ↦ none
  | a ∷ b ∷ [] ↦ none
  | a ∷ b ∷ c ∷ [] ↦ some (record { account_session = a; email = b; role = c })
  | a ∷ b ∷ c ∷ d ∷ rest ↦ none
]

abbrev toy : Account
toy = record {
  mac = toy_mac;
  encode_session = λ s. s.account_session ++ 10 ∷ (s.email ++ 10 ∷ s.role);
  decode_session = toy_decode;
}

abbrev root : AccountMe
root = record {
  id = codes "1";
  email = codes "r";
  display_name = codes "Root";
  role = system_admin;
}

abbrev toy_service : Text → Result (ℕ × Result AccountMe)
toy_service session =
    if same session (codes "s") then ok (200, ok root) else ok (401, err (codes "no session"))

abbrev state : Text
state = codes "q"

-- A browser that holds each cookie with the time at which it expires
abbrev Jar : Type 0
Jar = Map (Text × ℕ)

unfoldable received : ℕ → List SetCookie → Jar → Jar
received now [] jar = jar
received now (set_cookie name value max_age ∷ rest) jar =
    received now rest (insert name (value, now + max_age) jar)
received now (clear_cookie name ∷ rest) jar = received now rest (remove name jar)

unfoldable live : ℕ → Jar → Map Text
live now [] = []
live now ((name, (value, expires)) ∷ jar) =
    let rest = live now jar in if ltb now expires then (name, value) ∷ rest else rest

abbrev browser : Browser Jar
browser = record { receive = received; sends = live }

received_keeps :
    (now : ℕ) (rest : List SetCookie) (jar : Jar) (name : Text) (x : Text × ℕ)
    → All (λ s. cookie_name s ≢ name) rest
    → lookup name jar ≡ some x
    → lookup name (received now rest jar) ≡ some x
unfolding received
received_keeps now [] jar name x h e = e
received_keeps now (set_cookie k value max_age ∷ rest) jar name x (n, h) e =
    received_keeps now rest (insert k (value, now + max_age) jar) name x h
      (lookup-insert k name (value, now + max_age) jar ∙ ground (arith, n, e))
received_keeps now (clear_cookie k ∷ rest) jar name x (n, h) e =
    received_keeps now rest (remove k jar) name x h
      (lookup-remove k name jar ∙ ground (arith, n, e))

live_sends :
    (now expires : ℕ) (jar : Jar) (name value : Text)
    → lookup name jar ≡ some (value, expires)
    → now < expires
    → lookup name (live now jar) ≡ some value
unfolding lookup live
live_sends now expires [] name value e h = cc
live_sends now expires ((k, (v, t)) ∷ jar) name value e h = elim (Bool-cases (same k name)) [
  | inl here ↦
      let q : ◌≡◌ {A = Text × ℕ} (v, t) (value, expires) = ground (arith, e, here) in
      let text : v ≡ value = ap (λ x. x.0) q in
      let time : t ≡ expires = ap (λ x. x.1) q in
      let alive : ltb now t ≡ true = rw time (ground arith) in rw (alive, here) (ap some text)
  | inr other ↦
      let rest = live_sends now expires jar name value (ground arith) h in
      elim (Bool-cases (ltb now t)) [ inl alive ↦ rw (alive, other) rest | inr gone ↦ rw gone rest ]
]

browser-KeepsCookies : KeepsCookies browser
unfolding received
browser-KeepsCookies jar now later max_age name value rest others order early =
    live_sends later (now + max_age) (received now rest (insert name (value, now + max_age) jar))
      name value
      (received_keeps now rest (insert name (value, now + max_age) jar) name (value, now + max_age)
        others (lookup-insert name name (value, now + max_age) jar ∙ ground arith))
      early

admin : fetch_me (toy_service (codes "s")) ≡ ok root
unfolding fetch_me Text-discrete
admin = refl

abbrev started : Jar
started = received 1000 (auth_start toy toy_service state) []

abbrev set : List SetCookie
set = (callback toy toy_service state (codes "s") (live 1500 started)).0

abbrev sent : Map Text
sent = live 30000 (received 1500 set started)

-- Half an hour before the session cookie expires the browser sends it, and no other.
cookies : map (λ c. c.0) sent ≡ session_cookie ∷ []
unfolding received live callback auth_start log_in fetch_me verify_signed_value sign_value
    verified_payload cut hex_encode hex_decode hex_digit hex_value insert remove lookup
    Text-discrete
cookies = refl

callback_logs_in_example : current_user toy toy_service sent ≡ some root
unfolding split
callback_logs_in_example =
    callback_logs_in browser toy toy_service toy_service [] 1000 1500 30000 state (codes "s") root
      root browser-KeepsCookies (omega arith) (omega arith) (omega arith) (omega arith) (λ e. cc)
      admin refl admin refl refl (ground arith, tt) (ground arith) (omega arith, tt) (ground arith)

logged_in : current_user toy toy_service sent ≡ some root
unfolding current_user received live callback auth_start log_in fetch_me verify_signed_value
    sign_value verified_payload cut hex_encode hex_decode hex_digit hex_value insert remove lookup
    split Text-discrete
logged_in = refl

current_user_sound_example : IsVouched toy toy_service sent root
current_user_sound_example = current_user_sound toy toy_service sent root logged_in

-- Without the cookie nobody is an administrator.
logged_out :
    current_user toy toy_service
      (live 30000 (received 20000 (logout toy toy_service) (received 1500 set started)))
    ≡ none
unfolding current_user logout received live callback auth_start log_in fetch_me verify_signed_value
    sign_value verified_payload cut hex_encode hex_decode hex_digit hex_value insert remove lookup
    split Text-discrete
logged_out = refl
