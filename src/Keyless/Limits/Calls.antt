-- ===== src/Keyless/Limits/Calls.antt =====
-- A history of calls to the manager. The handlers call `record` and `allowed` in any order, each under
-- the mutex, so an interleaving of requests is a list of such calls.
use myzerossl.Prelude.{Bool, List, [], ◌∷◌}
use myzerossl.Text.{Text}
use myzerossl.Keyless.State.{Action, Reason, AuthManager, Env}
use myzerossl.Keyless.Limits.{record_result, allowed}

pub data Call : Type 0 where
  records : Env → Text → Action → Bool → Reason → Text → Call
  asks : Env → Text → Action → Call

unfoldable pub step : AuthManager → Call → AuthManager
step a (records env id action success reason addr) =
    record_result env a id action success reason addr
step a (asks env id action) = (allowed env a id action).manager

unfoldable pub run : AuthManager → List Call → AuthManager
unfolding step
run a [] = a
run a (c ∷ cs) = run (step a c) cs
