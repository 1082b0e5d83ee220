-- ===== src/Edge/Enroll/Polling.antt =====
-- How long the polling loop runs, and what it returns.
use myzerossl.Prelude.{
  ℕ, false, ◌≡◌, ◌≢◌, ◌↔◌, ◌⊎◌, inl, inr, refl, ap, ◌∙◌, List, [], ◌∷◌, ◌++◌, Option, none, some,
  arith, All, ◌==◌, Bool-cases, Option-cases,
}
use myzerossl.Prelude.Result.{Result, ok, err}
use myzerossl.Text.{Text}
use myzerossl.Map.{Map}
use myzerossl.Edge.Enroll.{
  InstallResponse, unreachable, response, decoded, fetch_install_token, Event, cancelled, tick,
  enrolled, polling, round, on_event, poll,
}

-- The console answered that nothing is there.
abbrev pub IsPending : Event → Type 0
IsPending e = (body : Result InstallResponse) × (e ≡ tick (response 404 body))

not_pending :
    (t : Text) (status : ℕ) (body : Result InstallResponse)
    → (status == 404) ≡ false
    → ¬ (on_event t (tick (response status body)) ≡ none)
unfolding on_event round fetch_install_token decoded
not_pending t status (err e) n h = ground arith
not_pending t status (ok body) n h = ground arith

on_event-enrolled :
    (install_token : Text) (e : Event) (token i : Text) (config : Option (Map Text))
    → on_event install_token e ≡ some (enrolled token i config)
    → (i ≡ install_token)
      × (token ≢ [])
      × (e ≡ tick (response 200 (ok (record { keyless_token = token; edge_config = config }))))
unfolding on_event round fetch_install_token decoded
on_event-enrolled t (cancelled e) token i config h = absurd (ground arith)
on_event-enrolled t (tick (unreachable e)) token i config h = absurd (ground arith)
on_event-enrolled t (tick (response status (err e))) token i config h = absurd (ground arith)
on_event-enrolled t (tick (response status (ok body))) token i config h =
    (ground arith, ground arith, ground arith)

-- The loop goes on after an event exactly if it is such an answer.
on_event-none : (install_token : Text) (e : Event) → (on_event install_token e ≡ none) ↔ IsPending e
unfolding on_event round fetch_install_token decoded
on_event-none t (cancelled e) = ((λ h. cc), (λ h. cc))
on_event-none t (tick (unreachable e)) = ((λ h. cc), (λ h. cc))
on_event-none t (tick (response status body)) = elim (Bool-cases (status == 404)) [
  | inl e ↦ ((λ h. (body, ground arith)), (λ h. ground arith))
  | inr n ↦ ((λ h. absurd (not_pending t status body n h)), (λ h. absurd (ground (arith, h.1))))
]

-- The rounds that return
pub poll-pending :
    (install_token : Text) (quiet rest : List Event)
    → All IsPending quiet
    → poll install_token (quiet ++ rest) ≡ poll install_token rest
unfolding poll
poll-pending t [] rest h = refl
poll-pending t (e ∷ quiet) rest (q, h) = rw ((on_event-none t e).1 q) (poll-pending t quiet rest h)

-- The loop is still running, and every answer so far was that nothing is there; or it ended at the first
-- event that is not such an answer.
abbrev pub IsEnded : Text → List Event → Type 0
IsEnded install_token events =
    ((poll install_token events ≡ polling) × All IsPending events)
    ⊎ ((quiet : List Event) × (e : Event) × (rest : List Event) × (events ≡ quiet ++ e ∷ rest)
        × All IsPending quiet
        × (¬ IsPending e)
        × (on_event install_token e ≡ some (poll install_token events)))

-- The polling loop goes on exactly as long as the console answers 404: at the first other event, an
-- answer, a failed request or a cancellation, it returns, and with what that event gives.
pub poll-IsEnded : (install_token : Text) (events : List Event) → IsEnded install_token events
unfolding poll
poll-IsEnded t [] = inl (refl, tt)
poll-IsEnded t (e ∷ events) = elim (Option-cases (on_event t e)) [
  | inr (result, q) ↦ inr (
    [],
    e,
    events,
    refl,
    tt,
    (λ p. let n = (on_event-none t e).1 p in absurd (ground arith)),
    rw q refl,
  )
  | inl q ↦
      let quiet : IsPending e = (on_event-none t e).0 q in
      elim (poll-IsEnded t events) [
        | inl (running, all_quiet) ↦ inl (rw q running, (quiet, all_quiet))
        | inr (before, f, rest, shape, silent, loud, result) ↦
            inr (e ∷ before, f, rest, ap (λ l. e ∷ l) shape, (quiet, silent), loud, rw q result)
      ]
]

-- What an edge node is enrolled with is the first answer that was not 404: status 200 and a token that is
-- not empty; the install token is the one that it polled with.
poll_enrolled_sound :
    (install_token : Text) (events : List Event) (token i : Text) (config : Option (Map Text))
    → poll install_token events ≡ enrolled token i config
    → (i ≡ install_token)
      × (token ≢ [])
      × ((quiet : List Event) × (rest : List Event) × (events
            ≡ quiet
              ++ tick (response 200 (ok (record { keyless_token = token; edge_config = config })))
                ∷ rest)
          × All IsPending quiet)
poll_enrolled_sound t events token i config h = elim (poll-IsEnded t events) [
  | inl (running, q) ↦ absurd (ground arith)
  | inr (quiet, e, rest, shape, silent, loud, result) ↦
      let (own, filled, answer) = on_event-enrolled t e token i config (result ∙ ap some h) in
      (own, filled, (quiet, rest, rw (← answer) shape, silent))
]
