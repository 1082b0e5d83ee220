-- ===== src/Keyless/Limits/Log.antt =====
-- What is appended to the revoked file.
use myzerossl.Prelude.{
  Bool, true, false, ◌≡◌, refl, List, [], ◌∷◌, ◌++◌, ◌||◌, ◌&&◌, not, arith, is_empty, Bool-cases,
  Option-cases, inl, inr,
}
use myzerossl.Prelude.Int.{reaches, exceeds}
use myzerossl.Text.{Text}
use myzerossl.Map.{member, lookup}
use myzerossl.Map.Laws.{member-add, member-append, member-concat}
use myzerossl.Keyless.State.{ClientState, Action, Reason, AuthManager, Env}
use myzerossl.Keyless.Limits.{
  Progress, is_sign, append_revoked, audit, auto_limit, check_rate, check_signs, check_errors,
  check_limits, settle, record_result, allowed, allowed_client,
}
use myzerossl.Keyless.Limits.Calls.{Call, records, asks, step, run}

abbrev pub HasNoRepeats : List Text → Type 0
HasNoRepeats [] = Unit
HasNoRepeats (k ∷ s) = (member k s ≡ false) × HasNoRepeats s

-- Every id appended to the revoked file is in the revoked set, and none is appended twice.
pub record IsLogged (revoked lines : List Text) : Type 0 where
  pub known : (j : Text) → member j lines ≡ true → member j revoked ≡ true
  pub once : HasNoRepeats lines

HasNoRepeats-concat :
    (s : List Text) (k : Text) → HasNoRepeats s → member k s ≡ false → HasNoRepeats (s ++ k ∷ [])
unfolding member
HasNoRepeats-concat [] k d h = (refl, tt)
HasNoRepeats-concat (j ∷ s) k d h =
    ground (arith, HasNoRepeats-concat s k d.1, member-append j s (k ∷ []))

append_revoked-IsLogged :
    (env : Env) (a : AuthManager) (id : Text)
    → IsLogged a.revoked a.revoked_lines
    → IsLogged (append_revoked env a id).revoked (append_revoked env a id).revoked_lines
unfolding append_revoked
append_revoked-IsLogged env a id v = record {
  known = λ j h.
      ground (arith, v.known j, member-add id j a.revoked, member-concat j id a.revoked_lines);
  once = ground (arith, v.known id, HasNoRepeats-concat a.revoked_lines id v.once);
}

abbrev pub Logged : AuthManager → Type 0
Logged a = IsLogged a.revoked a.revoked_lines

auto_limit-Logged :
    (env : Env) (id : Text) (limited revoked : Reason) (p : Progress)
    → Logged p.manager
    → Logged (auto_limit env id limited revoked p).manager
unfolding auto_limit
auto_limit-Logged env id limited revoked p v = elim (Bool-cases p.state.cfg.auto_revoke) [
  | inl e ↦ rw e (append_revoked-IsLogged env p.manager id v)
  | inr e ↦ rw e v
]

check_signs-Logged :
    (env : Env) (id : Text) (action : Action) (p : Progress)
    → Logged p.manager
    → Logged (check_signs env id action p).manager
unfolding check_signs
check_signs-Logged env id action p v =
    elim (Bool-cases
      (is_sign action && exceeds p.state.cfg.auto_disable_signs_per_minute p.state.signs)) [
        | inl e ↦ rw e (auto_limit-Logged env id _ _ p v)
        | inr e ↦ rw e v
      ]

check_rate-manager : (action : Action) (p : Progress) → (check_rate action p).manager ≡ p.manager
unfolding check_rate
check_rate-manager action p = ground arith

check_errors-Logged :
    (env : Env) (id : Text) (p : Progress)
    → Logged p.manager
    → Logged (check_errors env id p).manager
unfolding check_errors
check_errors-Logged env id p v =
    elim (Bool-cases (exceeds p.state.cfg.auto_disable_errors_per_minute p.state.errors)) [
      | inl e ↦ rw e (auto_limit-Logged env id _ _ p v)
      | inr e ↦ rw e v
    ]

settle-Logged :
    (env : Env) (a : AuthManager) (id : Text) (state : ClientState) (action : Action)
    (success : Bool) (why : Reason)
    → Logged a
    → Logged (settle env a id state action success why).manager
unfolding settle check_limits
settle-Logged env a id state action success why v =
    check_errors-Logged env id _ (check_signs-Logged env id action _ (rw check_rate-manager v))

audit-Logged :
    (env : Env) (a : AuthManager) (id : Text) (action : Action) (result : Text) (why : Reason)
    (addr : Text)
    → Logged a
    → Logged (audit env a id action result why addr)
unfolding audit
audit-Logged env a id action result why addr v =
    elim (Bool-cases (is_empty a.audit_path || not (env.writable a.audit_path))) [
      | inl e ↦ rw e v
      | inr e ↦ rw e v
    ]

allowed_client-Logged :
    (env : Env) (a : AuthManager) (id : Text) (state : ClientState) (action : Action)
    → Logged a
    → Logged (allowed_client env a id state action).manager
unfolding allowed_client
allowed_client-Logged env a id state action v =
    elim (Bool-cases (is_sign action && reaches state.cfg.rate_per_minute state.signs)) [
      | inl e ↦ rw e v
      | inr e ↦
          elim (Bool-cases
            (is_sign action && reaches state.cfg.auto_disable_signs_per_minute state.signs)) [
              | inl e' ↦ elim (Bool-cases state.cfg.auto_revoke) [
                | inl r ↦ rw (e, e', r) (append_revoked-IsLogged env _ id v)
                | inr r ↦ rw (e, e', r) v
              ]
              | inr e' ↦ rw (e, e') v
            ]
    ]

step-Logged : (a : AuthManager) (c : Call) → Logged a → Logged (step a c)
unfolding step record_result allowed allowed_client
step-Logged a (records env [] action success why addr) v = audit-Logged env a [] action _ why addr v
step-Logged a (records env (c ∷ id) action success why addr) v =
    elim (Option-cases (lookup (c ∷ id) a.clients)) [
      | inl e ↦ rw e (audit-Logged env a (c ∷ id) action _ why addr v)
      | inr (state, e) ↦ rw e (
          audit-Logged env _ (c ∷ id) action _ _ addr
            (settle-Logged env a (c ∷ id) state action success why v))
    ]
step-Logged a (asks env id action) v = elim (Option-cases (lookup id a.clients)) [
  | inl e ↦ rw (e, step, allowed) v
  | inr (state, e) ↦ rw (e, step, allowed) (allowed_client-Logged env a id state action v)
]

-- From a start where it holds, whatever calls follow: every id written to the revoked file is in the
-- revoked set, and no id is written twice.
pub run-Logged : (a : AuthManager) (cs : List Call) → Logged a → Logged (run a cs)
unfolding run
run-Logged a [] v = v
run-Logged a (c ∷ cs) v = run-Logged (step a c) cs (step-Logged a c v)
