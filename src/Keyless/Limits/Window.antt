-- ===== src/Keyless/Limits/Window.antt =====
-- The minute in which a client's requests are counted. `record` starts a new one; `allowed` does not.
use myzerossl.Prelude.{
  ℕ, ◌+◌, ◌-◌, ◌%◌, ◌==◌, ◌&&◌, ◌∙◌, Bool, true, false, ◌≡◌, ◌≢◌, refl, [], ◌∷◌, some, arith,
  if◌then◌else◌,
}
use myzerossl.Prelude.Int.{reaches, is_positive}
use myzerossl.Text.{Text, same}
use myzerossl.Map.{lookup}
use myzerossl.Map.Laws.{lookup-insert}
use myzerossl.Keyless.State.{
  ClientState, Action, Reason, AuthManager, Env, sign, rate_limit_exceeded,
}
use myzerossl.Keyless.Limits.{
  Progress, minute, is_sign, roll_window, count, append_revoked, audit, auto_limit, check_rate,
  check_signs, check_errors, check_limits, settle, record_result, allowed, allowed_client,
}

-- The limit checks leave the configuration and the counters of the client alone.
pub check_limits-state :
    (env : Env) (id : Text) (action : Action) (p : Progress)
    → ((check_limits env id action p).state.cfg ≡ p.state.cfg)
      × ((check_limits env id action p).state.signs ≡ p.state.signs)
      × ((check_limits env id action p).state.errors ≡ p.state.errors)
      × ((check_limits env id action p).state.window_start ≡ p.state.window_start)
unfolding check_limits check_rate check_signs check_errors auto_limit
check_limits-state env id action p = (ground arith, ground arith, ground arith, ground arith)

-- They write no client back themselves.
pub check_limits-clients :
    (env : Env) (id : Text) (action : Action) (p : Progress)
    → (check_limits env id action p).manager.clients ≡ p.manager.clients
unfolding check_limits check_rate check_signs check_errors auto_limit append_revoked
check_limits-clients env id action p = ground arith

-- The client that `record` writes back.
pub recorded : Env → AuthManager → Text → ClientState → Action → Bool → Reason → ClientState
recorded env a id state action success why = (settle env a id state action success why).state

counted-fields :
    (now : ℕ) (state : ClientState) (action : Action) (success : Bool)
    → ((count action success (roll_window now state)).cfg ≡ state.cfg)
      × ((count action success (roll_window now state)).window_start ≡ now - now % minute)
unfolding count roll_window
counted-fields now state action success = (ground arith, ground arith)

-- The signatures that a client's counter shows for a minute
abbrev pub signs_in : ℕ → ClientState → ℕ
signs_in start state = if state.window_start == start then state.signs else 0

abbrev pub signature : Action → Bool → ℕ
signature action success = if success && is_sign action then 1 else 0

counted-signs :
    (now start : ℕ) (state : ClientState) (action : Action) (success : Bool)
    → now - now % minute ≡ start
    → start ≢ 0
    → (count action success (roll_window now state)).signs
      ≡ signs_in start state + signature action success
unfolding count roll_window
counted-signs now start state action success e n = ground arith

-- What `record` writes back of a client: the same configuration, this minute, and one signature more if
-- it was one.
pub recorded-fields :
    (env : Env) (a : AuthManager) (id : Text) (state : ClientState) (action : Action)
    (success : Bool) (why : Reason) (start : ℕ)
    → env.now - env.now % minute ≡ start
    → start ≢ 0
    → ((recorded env a id state action success why).cfg ≡ state.cfg)
      × (signs_in start (recorded env a id state action success why)
          ≡ signs_in start state + signature action success)
unfolding recorded settle
recorded-fields env a id state action success why start e n =
    let p : Progress = record {
      manager = a;
      state = count action success (roll_window env.now state);
      ok = success;
      reason = why;
    } in
    let (cfg, signs, errors, window) = check_limits-state env id action p in
    let (cfg', window') = counted-fields env.now state action success in
    let counted = counted-signs env.now start state action success e n in (cfg ∙ cfg', ground arith)

pub lookup-record_result :
    (env : Env) (a : AuthManager) (id : Text) (state : ClientState) (action : Action)
    (success : Bool) (why : Reason) (addr j : Text)
    → id ≢ []
    → lookup id a.clients ≡ some state
    → lookup j (record_result env a id action success why addr).clients ≡ (
        if same id j then some (recorded env a id state action success why) else lookup j a.clients)
unfolding record_result audit recorded settle
lookup-record_result env a [] state action success why addr j ne found = absurd (ne refl)
lookup-record_result env a (c ∷ id) state action success why addr j ne found =
    let p = settle env a (c ∷ id) state action success why in
    rw (found, record_result)
      (ground (
        arith,
        lookup-insert (c ∷ id) j p.state p.manager.clients,
        check_limits-clients env (c ∷ id) action (record {
          manager = a;
          state = count action success (roll_window env.now state);
          ok = success;
          reason = why;
        }),
      ))

-- A known client, with no sign threshold, that reached its rate limit in an earlier minute is
-- denied its first signature of the new minute all the same; recording that denial starts the new
-- minute, and the next signature is allowed.
pub stale_window_denies :
    (env env' : Env) (a : AuthManager) (id : Text) (state : ClientState) (addr : Text)
    → id ≢ []
    → lookup id a.clients ≡ some state
    → reaches state.cfg.rate_per_minute state.signs ≡ true
    → is_positive state.cfg.auto_disable_signs_per_minute ≡ false
    → state.window_start ≢ env.now - env.now % minute
    → ((allowed env a id sign).ok ≡ false)
      × ((allowed env a id sign).reason ≡ rate_limit_exceeded)
      × ((allowed env' (record_result env a id sign false rate_limit_exceeded addr) id sign).ok
          ≡ true)
unfolding allowed allowed_client recorded settle count roll_window
stale_window_denies env env' a id state addr ne found full plain old =
    let p : Progress = record {
      manager = a;
      state = count sign false (roll_window env.now state);
      ok = false;
      reason = rate_limit_exceeded;
    } in
    (
      ground arith,
      ground arith,
      ground (
        arith,
        lookup-record_result env a id state sign false rate_limit_exceeded addr id ne found,
        check_limits-state env id sign p,
      ),
    )
