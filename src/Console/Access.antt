-- ===== src/Console/Access.antt =====
-- Who is an administrator for the console, and the browsers that keep the cookies it sets.
use myzerossl.Prelude.{
  ℕ, ◌+◌, ◌*◌, ◌≤◌, ◌<◌, Bool, true, false, ◌≡◌, ◌≢◌, refl, ap, ◌∙◌, List, [], ◌∷◌, ◌++◌, some,
  arith, All, Option-cases, inl, inr,
}
use myzerossl.Prelude.Result.{Result, ok, err}
use myzerossl.Text.{Text}
use myzerossl.Map.{Map, lookup}
use myzerossl.Keyless.Base64.RoundTrip.{AreBytes}
use myzerossl.Console.Session.{
  hex_decode, sign_value, verified_payload, verify_signed_value, verified_payload-sign_value,
  verified_payload_sound,
}
use myzerossl.Console.Login.{
  AccountMe, SessionValues, Account, SetCookie, set_cookie, clear_cookie, session_of, state_cookie,
  session_cookie, fetch_me, system_admin, admin_only, session_user, payload_user, state_valid,
  current_user, auth_start, log_in, callback,
}

abbrev pub cookie_name : SetCookie → Text
cookie_name (set_cookie name value max_age) = name
cookie_name (clear_cookie name) = name

-- A browser: what it makes of the cookies of a response that it receives at a time, in seconds, and which
-- cookies it sends at a time.
pub record Browser (Jar : Type 0) : Type 0 where
  pub receive : ℕ → List SetCookie → Jar → Jar
  pub sends : ℕ → Jar → Map Text

-- It sends a cookie until it expires, unless the same response says otherwise.
abbrev pub KeepsCookies : {Jar : Type 0} → Browser Jar → Type 0
KeepsCookies {Jar} b =
    (jar : Jar) (now later max_age : ℕ) (name value : Text) (rest : List SetCookie)
    → All (λ s. cookie_name s ≢ name) rest
    → now ≤ later
    → later < now + max_age
    → lookup name (b.sends later (b.receive now (set_cookie name value max_age ∷ rest) jar))
      ≡ some value

module _ (c : Account) (service : Text → Result (ℕ × Result AccountMe)) where
  admin_only-inversion :
      (r : Result AccountMe) (user : AccountMe)
      → admin_only c service r ≡ some user
      → (r ≡ ok user) × (user.role ≡ system_admin)
  admin_only-inversion (err e) user h = cc
  admin_only-inversion (ok found) user h = (ground arith, ground arith)

  -- All that stands behind an administrator: a session cookie that the console signed, and the account
  -- service, which takes the session of the cookie for this user, a system administrator, now.
  pub record IsVouched (cookies : Map Text) (user : AccountMe) : Type 0 where
    pub value : Text
    pub digits : Text
    pub session : SessionValues
    pub cookie : lookup session_cookie cookies ≡ some (value ++ b'.' ∷ digits)
    pub signed : hex_decode digits ≡ some (c.mac value)
    pub read : c.decode_session value ≡ some session
    pub vouched : fetch_me (service session.account_session) ≡ ok user
    pub admin : user.role ≡ system_admin

  payload_user-inversion :
      (payload : Text × Bool) (user : AccountMe)
      → payload_user c service payload ≡ some user
      → (payload.1 ≡ true)
        × (session : SessionValues) × (c.decode_session payload.0 ≡ some session)
        × (fetch_me (service session.account_session) ≡ ok user)
        × (user.role ≡ system_admin)
  payload_user-inversion (value, false) user h = cc
  payload_user-inversion (value, true) user h = elim (Option-cases (c.decode_session value)) [
    | inl n ↦ absurd (ground arith)
    | inr (session, d) ↦
        let (vouched, admin) =
          admin_only-inversion (fetch_me (service session.account_session)) user (ground arith) in
        (refl, session, d, vouched, admin)
  ]

  -- `currentUser` gives a user only if the cookie of the request is a value that was signed under the key
  -- of the console, and the account service takes the session in it for this user with the role
  -- system_admin.
  pub current_user_sound :
      (cookies : Map Text) (user : AccountMe)
      → current_user c service cookies ≡ some user
      → IsVouched cookies user
  unfolding current_user
  current_user_sound cookies user h = elim (Option-cases (lookup session_cookie cookies)) [
    | inl n ↦ absurd (ground arith)
    | inr (cookie, e) ↦
        let payload = verified_payload c.mac cookie in
        let (valid, session, read, vouched, admin) =
          payload_user-inversion payload user (ground arith) in
        let whole : payload ≡ (payload.0, true) = ap (λ b. (payload.0, b)) valid in
        let (digits, shape, signed) = verified_payload_sound c.mac cookie payload.0 whole in
        record {
          value = payload.0;
          digits = digits;
          session = session;
          cookie = e ∙ ap some shape;
          signed = signed;
          read = read;
          vouched = vouched;
          admin = admin;
        }
  ]

  current_user-cookie :
      (cookies : Map Text) (cookie : Text)
      → lookup session_cookie cookies ≡ some cookie
      → current_user c service cookies ≡ payload_user c service (verified_payload c.mac cookie)
  unfolding current_user
  current_user-cookie cookies cookie e = ground arith

  admin_only-admin :
      (user : AccountMe) → user.role ≡ system_admin → admin_only c service (ok user) ≡ some user
  admin_only-admin user admin = ground arith

  state_valid-cookie :
      (cookies : Map Text) (state : Text)
      → lookup state_cookie cookies ≡ some (sign_value c.mac state)
      → AreBytes (c.mac state)
      → All (λ d. d ≢ b'.') state
      → state_valid c service cookies state ≡ true
  unfolding verify_signed_value
  state_valid-cookie cookies state kept bytes plain =
      ground (arith, kept, verified_payload-sign_value c.mac state bytes plain)

  callback-cookies :
      (cookies : Map Text) (state account_session : Text) (user : AccountMe)
      → state_valid c service cookies state ≡ true
      → account_session ≢ []
      → fetch_me (service account_session) ≡ ok user
      → user.role ≡ system_admin
      → (callback c service state account_session cookies).0
        ≡ set_cookie session_cookie
            (sign_value c.mac (c.encode_session (session_of account_session user)))
            (8 * 60 * 60)
          ∷ clear_cookie state_cookie
          ∷ []
  unfolding callback log_in
  callback-cookies cookies state account_session user valid named vouched admin = ground arith

other_cookie : state_cookie ≢ session_cookie
other_cookie e = cc

-- A browser that keeps cookies starts a login, and comes back within 10 minutes with the state that it
-- was given and with a session that the account service takes for a system administrator. Then, if the
-- console has set no other cookies in between, its requests within 8 hours of that are those of this
-- administrator, at each time at which the service still takes the session for a system administrator. The
-- cookie of this session is read back and has no full stop in it, the state has none either, and MACs are
-- bytes.
pub callback_logs_in :
    {Jar : Type 0} (b : Browser Jar) (c : Account)
    (service service' : Text → Result (ℕ × Result AccountMe)) (jar : Jar) (start back later : ℕ)
    (state account_session : Text) (user user' : AccountMe)
    → KeepsCookies b
    → start ≤ back
    → back < start + 600
    → back ≤ later
    → later < back + 28800
    → account_session ≢ []
    → fetch_me (service account_session) ≡ ok user
    → user.role ≡ system_admin
    → fetch_me (service' account_session) ≡ ok user'
    → user'.role ≡ system_admin
    → c.decode_session (c.encode_session (session_of account_session user))
      ≡ some (session_of account_session user)
    → All (λ d. d ≢ b'.') state
    → All (λ d. d ≢ b'.') (c.encode_session (session_of account_session user))
    → AreBytes (c.mac state)
    → AreBytes (c.mac (c.encode_session (session_of account_session user)))
    → let started = b.receive start (auth_start c service state) jar in
      let set = (callback c service state account_session (b.sends back started)).0 in
      current_user c service' (b.sends later (b.receive back set started)) ≡ some user'
unfolding auth_start
callback_logs_in b c service service' jar start back later state account_session user user' keeps s₁
      s₂ s₃ s₄ named vouched admin vouched' admin' reads plain plain_cookie bytes bytes_cookie =
    let session = session_of account_session user in
    let value = c.encode_session session in
    let cookie = sign_value c.mac value in
    let started = b.receive start (auth_start c service state) jar in
    let kept_state = keeps jar start back 600 state_cookie (sign_value c.mac state) [] tt s₁ s₂ in
    let valid = state_valid-cookie c service (b.sends back started) state kept_state bytes plain in
    let set =
      callback-cookies c service (b.sends back started) state account_session user valid named
        vouched admin in
    let kept =
      keeps started back later 28800 session_cookie cookie (clear_cookie state_cookie ∷ [])
        (other_cookie, tt) s₃ s₄ in
    let signed = verified_payload-sign_value c.mac value bytes_cookie plain_cookie in
    ap (λ cs. current_user c service' (b.sends later (b.receive back cs started))) set
    ∙ current_user-cookie c service' _ cookie kept
    ∙ ap (payload_user c service') signed
    ∙ ap (session_user c service') reads
    ∙ ap (admin_only c service') vouched'
    ∙ admin_only-admin c service' user' admin'
