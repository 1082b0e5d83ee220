-- ===== src/Keyless/Limits/Rate.antt =====
-- How many signatures a client gets in one minute. `sign` asks `allowed` first and calls `record` when it
-- has signed; between the two, other requests of the client may do the same.
use myzerossl.Prelude.{
  ℕ, suc, ◌+◌, ◌-◌, ◌%◌, ◌≤◌, Bool, true, false, not, ◌&&◌, ◌≡◌, ◌≢◌, refl, ap, ◌∙◌, sym, List, [],
  ◌∷◌, some, arith, ◌==◌, if◌then◌else◌, Bool-cases, inl, inr,
}
use myzerossl.Prelude.Int.{pos, reaches}
use myzerossl.Text.{Text}
use myzerossl.Map.{lookup}
use myzerossl.Map.Laws.{lookup-insert}
use myzerossl.Keyless.State.{ClientState, Action, auth, sign, Reason, AuthManager, Env}
use myzerossl.Keyless.Limits.{
  minute, append_revoked, record_result, Permit, allowed, allowed_client,
}
use myzerossl.Keyless.Limits.Window.{
  recorded, signs_in, signature, recorded-fields, lookup-record_result,
}

-- The manager, the requests to sign between `allowed` and `record`, and the signatures given so far
pub record Flight : Type 0 where
  pub manager : AuthManager
  pub in_flight : ℕ
  pub issued : ℕ

-- A request to sign arrives, one is finished with a signature or without, and an authentication of the
-- client is refused. The address is that of the request.
pub data Event : Type 0 where
  begin : Env → Text → Event
  finish : Env → Bool → Reason → Text → Event
  refuse : Env → Reason → Text → Event

abbrev pub env_of : Event → Env
env_of (begin env addr) = env
env_of (finish env success why addr) = env
env_of (refuse env why addr) = env

module _ (id : Text) where
  abbrev pub admitted : Flight → Env → Text → Permit → Flight
  admitted f env addr permit =
      if permit.ok
      then record f { manager = permit.manager; in_flight = f.in_flight + 1 }
      else record f { manager = record_result env permit.manager id sign false permit.reason addr }

  unfoldable pub fly : Flight → Event → Flight
  fly f (begin env addr) = admitted f env addr (allowed env f.manager id sign)
  fly f (finish env success why addr) = if f.in_flight == 0 then f else record {
    manager = record_result env f.manager id sign success why addr;
    in_flight = f.in_flight - 1;
    issued = f.issued + signature sign success;
  }
  fly f (refuse env why addr) = record f {
    manager = record_result env f.manager id auth false why addr;
  }

  unfoldable pub flights : Flight → List Event → Flight
  flights f [] = f
  flights f (e ∷ events) = flights (fly f e) events

  -- At no time more than `k` requests to sign are between `allowed` and `record`.
  abbrev pub HasAtMost : ℕ → Flight → List Event → Type 0
  HasAtMost k f [] = Unit
  HasAtMost k f (e ∷ events) = ((fly f e).in_flight ≤ k) × HasAtMost k (fly f e) events

  abbrev pub IsInMinute : ℕ → List Event → Type 0
  IsInMinute start [] = Unit
  IsInMinute start (e ∷ events) =
      ((env_of e).now - (env_of e).now % minute ≡ start) × IsInMinute start events

  -- The client is known, with a positive rate limit; what was issued is what its counter shows for the
  -- minute, and with what is in flight stays below the limit and the number in flight together.
  pub record IsWithin (k limit start : ℕ) (f : Flight) : Type 0 where
    pub state : ClientState
    pub known : lookup id f.manager.clients ≡ some state
    pub rate : state.cfg.rate_per_minute ≡ pos (suc limit)
    pub counted : f.issued ≡ signs_in start state
    pub within : f.issued + f.in_flight ≤ limit + k
    pub few : f.in_flight ≤ k

  -- What `allowed` does to the client
  permitted :
      (env : Env) (a : AuthManager) (state : ClientState) (start : ℕ)
      → lookup id a.clients ≡ some state
      → (state' : ClientState) × (lookup id (allowed env a id sign).manager.clients ≡ some state')
        × (state'.cfg ≡ state.cfg)
        × (signs_in start state' ≡ signs_in start state)
  unfolding allowed allowed_client append_revoked
  permitted env a state start found =
      let off = record state { auto_disabled = true } in
      let revokes =
        not (reaches state.cfg.rate_per_minute state.signs)
        && reaches state.cfg.auto_disable_signs_per_minute state.signs
        && state.cfg.auto_revoke in
      elim (Bool-cases revokes) [
        | inl e ↦ (off, ground (arith, lookup-insert id id off a.clients), refl, refl)
        | inr e ↦ (state, ground arith, refl, refl)
      ]

  permitted-lt :
      (env : Env) (a : AuthManager) (state : ClientState) (limit : ℕ)
      → lookup id a.clients ≡ some state
      → state.cfg.rate_per_minute ≡ pos (suc limit)
      → (allowed env a id sign).ok ≡ true
      → state.signs ≤ limit
  unfolding allowed allowed_client
  permitted-lt env a state limit found rate ok = ground arith

  -- `record` for the client, in this minute
  recorded-IsWithin :
      (k limit start : ℕ) (f : Flight) (env : Env) (action : Action) (success : Bool) (why : Reason)
      (addr : Text) (in_flight issued : ℕ)
      → id ≢ []
      → start ≢ 0
      → env.now - env.now % minute ≡ start
      → IsWithin k limit start f
      → in_flight ≤ k
      → issued ≡ f.issued + signature action success
      → issued + in_flight ≤ limit + k
      → IsWithin k limit start (record {
        manager = record_result env f.manager id action success why addr;
        in_flight = in_flight;
        issued = issued;
      })
  recorded-IsWithin k limit start f env action success why addr in_flight issued named n now w few
        more within =
      let state' = recorded env f.manager id w.state action success why in
      let (cfg, signs) = recorded-fields env f.manager id w.state action success why start now n in
      let found =
        lookup-record_result env f.manager id w.state action success why addr id named w.known in
      record {
        state = state';
        known = found ∙ ground arith;
        rate = ap (λ c. c.rate_per_minute) cfg ∙ w.rate;
        counted = more ∙ (ap (λ m. m + signature action success) w.counted ∙ sym signs);
        within = within;
        few = few;
      }

  deny-IsWithin :
      (k limit start : ℕ) (f : Flight) (env : Env) (addr : Text)
      → id ≢ []
      → start ≢ 0
      → env.now - env.now % minute ≡ start
      → IsWithin k limit start f
      → (admitted f env addr (allowed env f.manager id sign)).in_flight ≤ k
      → IsWithin k limit start (admitted f env addr (allowed env f.manager id sign))
  deny-IsWithin k limit start f env addr named n now w few =
      let permit = allowed env f.manager id sign in
      let (state', known, cfg, signs) = permitted env f.manager w.state start w.known in
      let after : IsWithin k limit start (record f { manager = permit.manager }) = record {
        state = state';
        known = known;
        rate = ap (λ c. c.rate_per_minute) cfg ∙ w.rate;
        counted = w.counted ∙ sym signs;
        within = w.within;
        few = w.few;
      } in
      elim (Bool-cases permit.ok) [
        | inr no_permit ↦ rw no_permit (
            recorded-IsWithin k limit start (record f { manager = permit.manager }) env sign false
              permit.reason addr f.in_flight f.issued named n now after w.few (omega arith)
              w.within)
        | inl permitted_now ↦ rw permitted_now (record {
          state = state';
          known = known;
          rate = ap (λ c. c.rate_per_minute) cfg ∙ w.rate;
          counted = w.counted ∙ sym signs;
          within = ground (
            arith,
            permitted-lt env f.manager w.state limit w.known w.rate permitted_now,
            w.counted,
            few,
          );
          few = ground (arith, few);
        })
      ]

  fly-IsWithin :
      (k limit start : ℕ) (f : Flight) (e : Event)
      → id ≢ []
      → start ≢ 0
      → (env_of e).now - (env_of e).now % minute ≡ start
      → IsWithin k limit start f
      → (fly f e).in_flight ≤ k
      → IsWithin k limit start (fly f e)
  unfolding fly
  fly-IsWithin k limit start f (begin env addr) named n now w few =
      deny-IsWithin k limit start f env addr named n now w few
  fly-IsWithin k limit start f (refuse env why addr) named n now w few =
      recorded-IsWithin k limit start f env auth false why addr f.in_flight f.issued named n now w
        w.few (omega arith) w.within
  fly-IsWithin k limit start f (finish env success why addr) named n now w few =
      elim (Bool-cases (f.in_flight == 0)) [
        | inl e ↦ rw e w
        | inr e ↦ rw e (
            recorded-IsWithin k limit start f env sign success why addr (f.in_flight - 1)
              (f.issued + signature sign success) named n now w (omega (arith, w.few)) refl
              (ground (arith, w.within)))
      ]

  flights-IsWithin :
      (k limit start : ℕ) (f : Flight) (events : List Event)
      → id ≢ []
      → start ≢ 0
      → IsInMinute start events
      → HasAtMost k f events
      → IsWithin k limit start f
      → IsWithin k limit start (flights f events)
  unfolding flights
  flights-IsWithin k limit start f [] named n now few w = w
  flights-IsWithin k limit start f (e ∷ events) named n (now, later) (few, fewer) w =
      flights-IsWithin k limit start (fly f e) events named n later fewer
        (fly-IsWithin k limit start f e named n now w few)

  -- In one minute a client with the positive rate limit `suc limit` is given at most `limit + k` signatures
  -- while never more than `k` of its requests to sign are under way at once, at least one: with one at a
  -- time exactly its limit. Its counter was not yet in this minute at the beginning, and other requests of
  -- the client may be refused meanwhile.
  pub rate_bound :
      (a : AuthManager) (state : ClientState) (k limit start : ℕ) (events : List Event)
      → id ≢ []
      → start ≢ 0
      → lookup id a.clients ≡ some state
      → state.cfg.rate_per_minute ≡ pos (suc limit)
      → state.window_start ≢ start
      → IsInMinute start events
      → HasAtMost k (record { manager = a; in_flight = 0; issued = 0 }) events
      → (flights (record { manager = a; in_flight = 0; issued = 0 }) events).issued ≤ limit + k
  rate_bound a state k limit start events named n known rate old now few =
      let w : IsWithin k limit start (record { manager = a; in_flight = 0; issued = 0 }) = record {
        state = state;
        known = known;
        rate = rate;
        counted = ground arith;
        within = omega arith;
        few = omega arith;
      } in
      let w' = flights-IsWithin k limit start _ events named n now few w in omega (arith, w'.within)
