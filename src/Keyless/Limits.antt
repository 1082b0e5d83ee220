-- ===== src/Keyless/Limits.antt =====
-- internal/keyless/auth.go, `record`, `allowed`, `appendRevokedLocked` and `audit`: the per-minute
-- counters and what passing a limit does. Each method is one step, since it holds the mutex.
pub mod Calls
pub mod Revocation
pub mod Log
pub mod Window
pub mod Rate
use myzerossl.Prelude.{
  ℕ, ◌+◌, ◌-◌, ◌%◌, Bool, true, false, not, ◌&&◌, ◌||◌, [], ◌∷◌, ◌++◌, none, some, ◌==◌,
  if◌then◌else◌, is_empty,
}
use myzerossl.Prelude.Int.{exceeds, reaches}
use myzerossl.Text.{Text, codes}
use myzerossl.Map.{lookup, insert, member, add}
use myzerossl.Keyless.State.{
  ClientState, Action, auth, sign, Reason, no_reason, rate_limit_exceeded, auto_limit_signs,
  auto_revoked_signs, auto_limit_errors, auto_revoked_errors, AuditRecord, AuthManager, Env,
}

abbrev pub result_name : Bool → Text
result_name true = codes "ok"
result_name false = codes "denied"

unfoldable pub audit : Env → AuthManager → Text → Action → Text → Reason → Text → AuthManager
audit env a client_id action result reason remote_addr =
    if is_empty a.audit_path || not (env.writable a.audit_path)
    then a
    else record a { audit_lines = a.audit_lines ++ line ∷ [] }
  where
    line : AuditRecord
    line = record {
      time = env.now;
      client_id = client_id;
      remote_addr = remote_addr;
      action = action;
      result = result;
      reason = reason;
    }

-- `appendRevokedLocked`
unfoldable pub append_revoked : Env → AuthManager → Text → AuthManager
append_revoked env a client_id =
    if member client_id a.revoked
    then a
    else if is_empty a.revoked_path || not (env.writable a.revoked_path)
    then record a { revoked = add client_id a.revoked }
    else record a {
      revoked = add client_id a.revoked;
      revoked_lines = a.revoked_lines ++ client_id ∷ [];
    }

-- What `record` carries through its limit checks: the manager, the client, `ok` and `reason`
pub record Progress : Type 0 where
  pub manager : AuthManager
  pub state : ClientState
  pub ok : Bool
  pub reason : Reason

-- `now.Truncate(time.Minute)`, and the reset at the start of a minute
abbrev pub minute : ℕ
minute = 60000000000

unfoldable pub roll_window : ℕ → ClientState → ClientState
roll_window now state =
    let start = now - now % minute in
    if state.window_start == 0 || not (state.window_start == start)
    then record state { window_start = start; signs = 0; errors = 0 }
    else state

abbrev pub is_sign : Action → Bool
is_sign sign = true
is_sign auth = false

unfoldable pub count : Action → Bool → ClientState → ClientState
count action success state =
    let signed =
      if success && is_sign action then record state { signs = state.signs + 1 } else state in
    if not success then record signed { errors = signed.errors + 1 } else signed

unfoldable pub check_rate : Action → Progress → Progress
check_rate action p =
    if is_sign action && exceeds p.state.cfg.rate_per_minute p.state.signs
    then record p { ok = false; reason = rate_limit_exceeded }
    else p

-- The body of both auto limits: revoke where the client says so
unfoldable pub auto_limit : Env → Text → Reason → Reason → Progress → Progress
auto_limit env client_id limited revoked p =
    if p.state.cfg.auto_revoke
    then record {
      manager = append_revoked env p.manager client_id;
      state = record p.state { auto_disabled = true };
      ok = false;
      reason = revoked;
    }
    else record p { ok = false; reason = limited }

unfoldable pub check_signs : Env → Text → Action → Progress → Progress
check_signs env client_id action p =
    if is_sign action && exceeds p.state.cfg.auto_disable_signs_per_minute p.state.signs
    then auto_limit env client_id auto_limit_signs auto_revoked_signs p
    else p

unfoldable pub check_errors : Env → Text → Progress → Progress
check_errors env client_id p =
    if exceeds p.state.cfg.auto_disable_errors_per_minute p.state.errors
    then auto_limit env client_id auto_limit_errors auto_revoked_errors p
    else p

unfoldable pub check_limits : Env → Text → Action → Progress → Progress
check_limits env client_id action p =
    check_errors env client_id (check_signs env client_id action (check_rate action p))

-- The part of `record` for a client that the manager knows
unfoldable pub settle : Env → AuthManager → Text → ClientState → Action → Bool → Reason → Progress
settle env a client_id state action success reason = check_limits env client_id action (record {
  manager = a;
  state = count action success (roll_window env.now state);
  ok = success;
  reason = reason;
})

-- `record`; the map holds pointers, so the changed client is written back
unfoldable pub record_result :
    Env → AuthManager → Text → Action → Bool → Reason → Text → AuthManager
record_result env a client_id action success reason remote_addr =
    if is_empty client_id
    then audit env a client_id action (result_name success) reason remote_addr
    else elim (lookup client_id a.clients) [
      | none ↦ audit env a client_id action (result_name success) reason remote_addr
      | some state ↦
          let p = settle env a client_id state action success reason in
          audit env (record (p.manager) { clients = insert client_id p.state p.manager.clients })
            client_id action (result_name p.ok) p.reason remote_addr
    ]

-- The two results of `allowed`, and the manager after it
pub record Permit : Type 0 where
  pub manager : AuthManager
  pub ok : Bool
  pub reason : Reason

unfoldable pub allowed_client : Env → AuthManager → Text → ClientState → Action → Permit
allowed_client env a client_id state action =
    if is_sign action && reaches state.cfg.rate_per_minute state.signs
    then record { manager = a; ok = false; reason = rate_limit_exceeded }
    else if is_sign action && reaches state.cfg.auto_disable_signs_per_minute state.signs
    then (if state.cfg.auto_revoke
        then record {
          manager =
              append_revoked env
                (record a {
                  clients = insert client_id (record state { auto_disabled = true }) a.clients;
                })
                client_id;
          ok = false;
          reason = auto_revoked_signs;
        }
        else record { manager = a; ok = false; reason = auto_limit_signs })
    else record { manager = a; ok = true; reason = no_reason }

unfoldable pub allowed : Env → AuthManager → Text → Action → Permit
allowed env a client_id action = elim (lookup client_id a.clients) [
  | none ↦ record { manager = a; ok = true; reason = no_reason }
  | some state ↦ allowed_client env a client_id state action
]
