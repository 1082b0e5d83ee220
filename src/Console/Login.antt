-- ===== src/Console/Login.antt =====
-- cmd/signer-console/main.go: how a browser becomes an administrator's. The account service answers a
-- session with a user; it, the MAC and the coding of a session in a cookie (base64 of JSON) are
-- parameters. Redirects to pages are replies.
use myzerossl.Prelude.{
  List, [], ◌∷◌, ◌*◌, ℕ, ◌==◌, Bool, false, not, Option, none, some, if◌then◌else◌, is_empty,
}
use myzerossl.Prelude.Result.{Result, ok, err}
use myzerossl.Text.{Text, codes, differ}
use myzerossl.Map.{Map, lookup}
use myzerossl.Keyless.Base64.{Bytes}
use myzerossl.Console.Session.{sign_value, verified_payload, verify_signed_value}

pub record AccountMe : Type 0 where
  pub id : Text
  pub email : Text
  pub display_name : Text
  pub role : Text

pub record SessionValues : Type 0 where
  pub account_session : Text
  pub email : Text
  pub role : Text

pub record Account : Type 0 where
  pub mac : Text → Bytes
  pub encode_session : SessionValues → Text
  pub decode_session : Text → Option SessionValues

-- The names of the two cookies of the console
abbrev pub state_cookie : Text
state_cookie = codes "ssl_signer_state"

abbrev pub session_cookie : Text
session_cookie = codes "ssl_signer_session"

-- What a response sets: a cookie with its value and its `MaxAge` in seconds, or the end of one. What a
-- browser makes of it is not the console's.
pub data SetCookie : Type 0 where
  set_cookie : Text → Text → ℕ → SetCookie
  clear_cookie : Text → SetCookie

pub data Answer : Type 0 where
  refused : ℕ → Text → Answer
  redirect : Text → Answer

-- The status that `fetchMe` sees, and what decoding the body gives
unfoldable pub fetch_me : Result (ℕ × Result AccountMe) → Result AccountMe
fetch_me (err e) = err e
fetch_me (ok (status, body)) =
    if status == 200 then body else err (codes "account-system /me returned ")

-- What `callback` puts into the cookie
abbrev pub session_of : Text → AccountMe → SessionValues
session_of account_session user = record {
  account_session = account_session;
  email = user.email;
  role = user.role;
}

abbrev pub system_admin : Text
system_admin = codes "system_admin"

module _ (c : Account) (service : Text → Result (ℕ × Result AccountMe)) where
  abbrev pub admin_only : Result AccountMe → Option AccountMe
  admin_only (err e) = none
  admin_only (ok user) = if differ user.role system_admin then none else some user

  abbrev pub session_user : Option SessionValues → Option AccountMe
  session_user none = none
  session_user (some session) = admin_only (fetch_me (service session.account_session))

  abbrev pub payload_user : Text × Bool → Option AccountMe
  payload_user (value, valid) = if not valid then none else session_user (c.decode_session value)

  unfoldable pub current_user : Map Text → Option AccountMe
  current_user cookies = elim (lookup session_cookie cookies) [
    | none ↦ none
    | some cookie ↦ payload_user (verified_payload c.mac cookie)
  ]

  -- The cookies that `authStart` sets, for the state that it draws
  unfoldable pub auth_start : Text → List SetCookie
  auth_start state = set_cookie state_cookie (sign_value c.mac state) (10 * 60) ∷ []

  abbrev pub state_valid : Map Text → Text → Bool
  state_valid cookies state = elim (lookup state_cookie cookies) [
    | none ↦ false
    | some cookie ↦ verify_signed_value c.mac cookie state
  ]

  -- The end of `callback`
  unfoldable pub log_in : Text → Result AccountMe → List SetCookie × Answer
  log_in account_session (err e) = ([], refused 401 (codes "account verification failed"))
  log_in account_session (ok user) =
      if differ user.role system_admin then ([], refused 403 (codes "system_admin required")) else (
        set_cookie session_cookie
              (sign_value c.mac (c.encode_session (session_of account_session user))) (8 * 60 * 60)
            ∷ clear_cookie state_cookie
            ∷ [],
        redirect (codes "/"),
      )

  unfoldable pub callback : Text → Text → Map Text → List SetCookie × Answer
  callback state account_session cookies =
      if not (state_valid cookies state)
      then ([], refused 400 (codes "invalid state"))
      else if is_empty account_session
      then ([], refused 400 (codes "missing account session"))
      else log_in account_session (fetch_me (service account_session))

  unfoldable pub logout : List SetCookie
  logout = clear_cookie session_cookie ∷ []
