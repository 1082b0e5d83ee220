-- ===== src/Keyless/Limits/Revocation.antt =====
-- How revocation lasts. What is written to the revoked file is the subject of Limits/Log.
use myzerossl.Prelude.{
  Bool, true, false, ◌≡◌, ◌≢◌, refl, ◌∙◌, List, [], ◌∷◌, ◌||◌, some, arith, Option-cases, inl, inr,
}
use myzerossl.Prelude.Int.{reaches}
use myzerossl.Text.{Text, same}
use myzerossl.Map.{Map, member, lookup, insert}
use myzerossl.Map.Laws.{member-add}
use myzerossl.Keyless.State.{
  ClientState, Action, Reason, AuthManager, Env, sign, auto_limit_signs, auto_revoked_signs,
  auto_limit_errors, auto_revoked_errors,
}
use myzerossl.Keyless.Authenticate.{judge, find_client, authenticate, accepted}
use myzerossl.Keyless.Limits.{
  Progress, append_revoked, audit, auto_limit, check_rate, check_signs, check_errors, check_limits,
  settle, record_result, allowed, allowed_client,
}
use myzerossl.Keyless.Limits.Calls.{Call, records, asks, step, run}

member-append_revoked :
    (env : Env) (a : AuthManager) (id j : Text)
    → member j (append_revoked env a id).revoked ≡ (same id j || member j a.revoked)
unfolding append_revoked
member-append_revoked env a id j = ground (arith, member-add id j a.revoked)

audit-revoked :
    (env : Env) (a : AuthManager) (id : Text) (action : Action) (result : Text) (why : Reason)
    (addr : Text)
    → (audit env a id action result why addr).revoked ≡ a.revoked
unfolding audit
audit-revoked env a id action result why addr = ground arith

auto_limit-revoked :
    (env : Env) (id : Text) (limited revoked : Reason) (p : Progress) (j : Text)
    → member j p.manager.revoked ≡ true
    → member j (auto_limit env id limited revoked p).manager.revoked ≡ true
unfolding auto_limit
auto_limit-revoked env id limited revoked p j h =
    ground (arith, member-append_revoked env p.manager id j)

check_limits-revoked :
    (env : Env) (id : Text) (action : Action) (p : Progress) (j : Text)
    → member j p.manager.revoked ≡ true
    → member j (check_limits env id action p).manager.revoked ≡ true
unfolding check_limits check_rate check_signs check_errors
check_limits-revoked env id action p j h = ground (
  arith,
  auto_limit-revoked env id auto_limit_signs auto_revoked_signs (check_rate action p) j,
  auto_limit-revoked env id auto_limit_errors auto_revoked_errors
      (check_signs env id action (check_rate action p)) j,
)

settle-revoked :
    (env : Env) (a : AuthManager) (id : Text) (state : ClientState) (action : Action)
    (success : Bool) (why : Reason) (j : Text)
    → member j a.revoked ≡ true
    → member j (settle env a id state action success why).manager.revoked ≡ true
unfolding settle
settle-revoked env a id state action success why j h = check_limits-revoked env id action _ j h

record_result-revoked :
    (env : Env) (a : AuthManager) (id : Text) (action : Action) (success : Bool) (why : Reason)
    (addr j : Text)
    → member j a.revoked ≡ true
    → member j (record_result env a id action success why addr).revoked ≡ true
unfolding record_result audit
record_result-revoked env a id action success why addr j h =
    elim (Option-cases (lookup id a.clients)) [
      | inl e ↦ ground arith
      | inr (state, e) ↦ ground (arith, settle-revoked env a id state action success why j)
    ]

allowed-revoked :
    (env : Env) (a : AuthManager) (id : Text) (action : Action) (j : Text)
    → member j a.revoked ≡ true
    → member j (allowed env a id action).manager.revoked ≡ true
unfolding allowed allowed_client append_revoked
allowed-revoked env a id action j h = ground (arith, member-add id j a.revoked)

step-revoked :
    (a : AuthManager) (c : Call) (j : Text)
    → member j a.revoked ≡ true
    → member j (step a c).revoked ≡ true
unfolding step
step-revoked a (records env id action success why addr) j h =
    record_result-revoked env a id action success why addr j h
step-revoked a (asks env id action) j h = allowed-revoked env a id action j h

pub run-revoked :
    (a : AuthManager) (cs : List Call) (j : Text)
    → member j a.revoked ≡ true
    → member j (run a cs).revoked ≡ true
unfolding run
run-revoked a [] j h = h
run-revoked a (c ∷ cs) j h = run-revoked (step a c) cs j (step-revoked a c j h)

settle-mode :
    (env : Env) (a : AuthManager) (id : Text) (state : ClientState) (action : Action)
    (success : Bool) (why : Reason)
    → (settle env a id state action success why).manager.clients_mode ≡ a.clients_mode
unfolding settle check_limits check_rate check_signs check_errors auto_limit append_revoked
settle-mode env a id state action success why = ground arith

step-clients_mode : (a : AuthManager) (c : Call) → (step a c).clients_mode ≡ a.clients_mode
unfolding step record_result audit allowed allowed_client append_revoked
step-clients_mode a (records env id action success why addr) =
    elim (Option-cases (lookup id a.clients)) [
      | inl e ↦ ground arith
      | inr (state, e) ↦ ground (arith, settle-mode env a id state action success why)
    ]
step-clients_mode a (asks env id action) = ground arith

run-clients_mode : (a : AuthManager) (cs : List Call) → (run a cs).clients_mode ≡ a.clients_mode
unfolding run
run-clients_mode a [] = refl
run-clients_mode a (c ∷ cs) = run-clients_mode (step a c) cs ∙ step-clients_mode a c

find_client-revoked :
    (revoked : List Text) (token : Text) (m : Map ClientState) (id : Text)
    → member id revoked ≡ true
    → find_client revoked token m ≢ accepted id
unfolding find_client judge
find_client-revoked revoked token [] id h = cc
find_client-revoked revoked token ((k, s) ∷ m) id h =
    ground (arith, find_client-revoked revoked token m id h)

-- In clients mode, once an id is in the revoked set, no history of calls to `record` and `allowed` ever
-- lets any token authenticate as that client again.
pub revoked_for_ever :
    (a : AuthManager) (cs : List Call) (token id : Text)
    → a.clients_mode ≡ true
    → member id a.revoked ≡ true
    → authenticate (run a cs) token ≢ accepted id
unfolding authenticate
revoked_for_ever a cs token id mode h = ground (
  arith,
  run-clients_mode a cs,
  run-revoked a cs id h,
  find_client-revoked (run a cs).revoked token (run a cs).clients id,
)

after_revocation : Env → AuthManager → Text → ClientState → AuthManager
after_revocation env a id state =
    append_revoked env
      (record a { clients = insert id (record state { auto_disabled = true }) a.clients }) id

allowed-after_revocation :
    (env : Env) (a : AuthManager) (id : Text) (state : ClientState)
    → lookup id a.clients ≡ some state
    → reaches state.cfg.rate_per_minute state.signs ≡ false
    → reaches state.cfg.auto_disable_signs_per_minute state.signs ≡ true
    → state.cfg.auto_revoke ≡ true
    → allowed env a id sign ≡ record {
      manager = after_revocation env a id state;
      ok = false;
      reason = auto_revoked_signs;
    }
unfolding allowed allowed_client after_revocation
allowed-after_revocation env a id state found rate signs revokes = ground arith

after_revocation-mode :
    (env : Env) (a : AuthManager) (id : Text) (state : ClientState)
    → (after_revocation env a id state).clients_mode ≡ a.clients_mode
unfolding after_revocation append_revoked
after_revocation-mode env a id state = ground arith

member-after_revocation :
    (env : Env) (a : AuthManager) (id : Text) (state : ClientState)
    → member id (after_revocation env a id state).revoked ≡ true
unfolding after_revocation
member-after_revocation env a id state = rw member-append_revoked (ground arith)

-- In clients mode, when a known client with auto-revocation reaches its sign threshold, and not its
-- rate limit, `allowed` denies the signature with the reason of the auto-revocation, and no token
-- authenticates as that client after any further calls.
pub auto_revocation_lasts :
    (env : Env) (a : AuthManager) (id : Text) (state : ClientState) (cs : List Call) (token : Text)
    → a.clients_mode ≡ true
    → lookup id a.clients ≡ some state
    → reaches state.cfg.rate_per_minute state.signs ≡ false
    → reaches state.cfg.auto_disable_signs_per_minute state.signs ≡ true
    → state.cfg.auto_revoke ≡ true
    → ((allowed env a id sign).ok ≡ false)
      × ((allowed env a id sign).reason ≡ auto_revoked_signs)
      × (authenticate (run (allowed env a id sign).manager cs) token ≢ accepted id)
auto_revocation_lasts env a id state cs token mode found rate signs revokes =
    rw (allowed-after_revocation env a id state found rate signs revokes) (
      refl,
      refl,
      revoked_for_ever (after_revocation env a id state) cs token id
          (after_revocation-mode env a id state ∙ mode) (member-after_revocation env a id state),
    )
