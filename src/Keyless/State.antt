-- ===== src/Keyless/State.antt =====
-- internal/keyless/auth.go, the data: clients, the counters of a client in the current minute, the
-- revoked set, the audit log. Times are nanoseconds since Go's zero time.
use myzerossl.Prelude.{ℕ, Bool, List}
use myzerossl.Prelude.Int.{ℤ}
use myzerossl.Text.{Text}
use myzerossl.Map.{Map}

pub record ClientConfig : Type 0 where
  pub id : Text
  pub token : Text
  pub private_key : Text
  pub private_keys : Map Text
  pub disabled : Bool
  pub rate_per_minute : ℤ
  pub auto_disable_signs_per_minute : ℤ
  pub auto_disable_errors_per_minute : ℤ
  pub auto_revoke : Bool

-- The counters cannot pass the range of `int` within a minute, so they are plain numbers.
pub record ClientState : Type 0 where
  pub cfg : ClientConfig
  pub window_start : ℕ
  pub signs : ℕ
  pub errors : ℕ
  pub auto_disabled : Bool

pub data Action : Type 0 where
  auth sign : Action

-- The reasons of denials; `failure` is the text of an error.
pub data Reason : Type 0 where
  no_reason bad_token client_disabled client_auto_disabled client_revoked : Reason
  rate_limit_exceeded auto_limit_signs auto_revoked_signs auto_limit_errors auto_revoked_errors :
      Reason
  key_not_allowed : Reason
  failure : Text → Reason

-- A line of the audit log; the instant is not yet formatted.
pub record AuditRecord : Type 0 where
  pub time : ℕ
  pub client_id : Text
  pub remote_addr : Text
  pub action : Action
  pub result : Text
  pub reason : Reason

-- `revoked_lines` and `audit_lines` are what was appended to the two files, oldest first.
pub record AuthManager : Type 0 where
  pub shared_token : Text
  pub clients_mode : Bool
  pub clients : Map ClientState
  pub revoked : List Text
  pub revoked_path : Text
  pub audit_path : Text
  pub revoked_lines : List Text
  pub audit_lines : List AuditRecord

-- What a call finds outside: the clock, and which files can be opened for appending.
pub record Env : Type 0 where
  pub now : ℕ
  pub writable : Text → Bool
