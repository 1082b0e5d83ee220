-- ===== src/Keyless/Server/Audit.antt =====
-- The audit log: what a request leaves in it.
use myzerossl.Prelude.{
  Bool, true, false, ◌≡◌, inl, inr, refl, List, [], ◌∷◌, ◌++◌, arith, if◌then◌else◌, is_empty,
  Bool-cases, Option-cases,
}
use myzerossl.Text.{Text}
use myzerossl.Map.{lookup, insert}
use myzerossl.Keyless.Base64.{Bytes}
use myzerossl.Keyless.Protocol.{header_token}
use myzerossl.Keyless.State.{ClientState, AuditRecord, AuthManager, Env, Action, Reason, auth, sign}
use myzerossl.Keyless.Authenticate.{authenticate}
use myzerossl.Keyless.Limits.{
  audit, append_revoked, auto_limit, check_rate, check_signs, check_errors, check_limits, settle,
  record_result, allowed, allowed_client, result_name,
}
use myzerossl.Keyless.Server.{
  Crypto, Request, header_get, SignServer, Attempt, stop, go, deny, finish_sign, sign_handler,
  require_auth, post_sign, serve,
}

-- The audit file is configured and can be written.
abbrev pub CanAudit : Env → AuthManager → Type 0
CanAudit env a = (is_empty a.audit_path ≡ false) × (env.writable a.audit_path ≡ true)

-- One line was added at the end, for this client, action and address.
pub record OneMore (before after : List AuditRecord) (id : Text) (action : Action) (addr : Text)
    : Type 0 where
  pub line : AuditRecord
  pub added : after ≡ before ++ line ∷ []
  pub whose : line.client_id ≡ id
  pub what : line.action ≡ action
  pub from : line.remote_addr ≡ addr

OneMore-from :
    {before before' after : List AuditRecord} {id : Text} {action : Action} {addr : Text}
    → before ≡ before'
    → OneMore before after id action addr
    → OneMore before' after id action addr
OneMore-from e v = record {
  line = v.line;
  added = rw (← e) (v.added);
  whose = v.whose;
  what = v.what;
  from = v.from;
}

audit-OneMore :
    (env : Env) (a : AuthManager) (id : Text) (action : Action) (result : Text) (why : Reason)
    (addr : Text)
    → CanAudit env a
    → OneMore a.audit_lines (audit env a id action result why addr).audit_lines id action addr
unfolding audit
audit-OneMore env a id action result why addr h = record {
  line = record {
    time = env.now;
    client_id = id;
    remote_addr = addr;
    action = action;
    result = result;
    reason = why;
  };
  added = ground arith;
  whose = refl;
  what = refl;
  from = refl;
}

-- Settling the limits and checking them leaves the log alone.
settle-log :
    (env : Env) (a : AuthManager) (id : Text) (state : ClientState) (action : Action)
    (success : Bool) (why : Reason)
    → ((settle env a id state action success why).manager.audit_path ≡ a.audit_path)
      × ((settle env a id state action success why).manager.audit_lines ≡ a.audit_lines)
unfolding settle check_limits check_rate check_signs check_errors auto_limit append_revoked
settle-log env a id state action success why = (ground arith, ground arith)

allowed-log :
    (env : Env) (a : AuthManager) (id : Text) (action : Action)
    → ((allowed env a id action).manager.audit_path ≡ a.audit_path)
      × ((allowed env a id action).manager.audit_lines ≡ a.audit_lines)
unfolding allowed allowed_client append_revoked
allowed-log env a id action = (ground arith, ground arith)

record_result-OneMore :
    (env : Env) (a : AuthManager) (id : Text) (action : Action) (success : Bool) (why : Reason)
    (addr : Text)
    → CanAudit env a
    → OneMore a.audit_lines
        (record_result env a id action success why addr).audit_lines
        id
        action
        addr
unfolding record_result
record_result-OneMore env a [] action success why addr h =
    audit-OneMore env a [] action _ why addr h
record_result-OneMore env a (c ∷ id) action success why addr h =
    elim (Option-cases (lookup (c ∷ id) a.clients)) [
      | inl e ↦ rw e (audit-OneMore env a (c ∷ id) action _ why addr h)
      | inr (state, e) ↦
          let p = settle env a (c ∷ id) state action success why in
          let (path, lines) = settle-log env a (c ∷ id) state action success why in
          rw e (
            OneMore-from lines (
              audit-OneMore env
                (record (p.manager) { clients = insert (c ∷ id) p.state p.manager.clients })
                (c ∷ id) action (result_name p.ok) p.reason addr (rw path h.0, rw path h.1)))
    ]

module _ {Key : Type 0} (crypto : Crypto Key) where
  finish-OneMore :
      (env : Env) (s : SignServer Key) (id : Text) (r : Request) (attempt : Attempt Bytes)
      → CanAudit env s.auth
      → OneMore s.auth.audit_lines
          (finish_sign env s id r attempt).0.auth.audit_lines
          id
          sign
          r.remote_addr
  unfolding finish_sign deny
  finish-OneMore env s id r (stop status why) h =
      record_result-OneMore env s.auth id sign false _ r.remote_addr h
  finish-OneMore env s id r (go signature) h =
      record_result-OneMore env s.auth id sign true _ r.remote_addr h

  sign_handler-OneMore :
      (env : Env) (s : SignServer Key) (id : Text) (r : Request)
      → CanAudit env s.auth
      → OneMore s.auth.audit_lines
          (sign_handler crypto env s id r).0.auth.audit_lines
          id
          sign
          r.remote_addr
  unfolding sign_handler deny
  sign_handler-OneMore env s id r h =
      let s' : SignServer Key = record s { auth = (allowed env s.auth id sign).manager } in
      let (path, lines) = allowed-log env s.auth id sign in
      let h' : CanAudit env s'.auth = (rw path h.0, rw path h.1) in
      elim (Bool-cases (allowed env s.auth id sign).ok) [
        | inl e ↦ rw e (OneMore-from lines (finish-OneMore env s' id r _ h'))
        | inr e ↦ rw e (
            OneMore-from lines (record_result-OneMore env s'.auth id sign false _ r.remote_addr h'))
      ]

  -- With a writable audit file every request to sign leaves exactly one line in the log, whatever the
  -- outcome: it names the client that the token authenticated, the address, and the action, which is
  -- "auth" if authentication failed and "sign" otherwise.
  pub serve_sign_audits :
      (env : Env) (s : SignServer Key) (r : Request)
      → CanAudit env s.auth
      → OneMore s.auth.audit_lines
          (serve crypto post_sign env s r).0.auth.audit_lines
          (authenticate s.auth (header_get r header_token)).client_id
          (if (authenticate s.auth (header_get r header_token)).ok then sign else auth)
          r.remote_addr
  unfolding serve require_auth
  serve_sign_audits env s r h =
      elim (Bool-cases (authenticate s.auth (header_get r header_token)).ok) [
        | inl e ↦ rw e (sign_handler-OneMore env s _ r h)
        | inr e ↦ rw e (record_result-OneMore env s.auth _ auth false _ r.remote_addr h)
      ]
