-- ===== src/Keyless/Authenticate.antt =====
-- internal/keyless/auth.go, `authenticate`: which client a token belongs to.
pub mod Order
pub mod Exact
use myzerossl.Prelude.{Bool, true, false, not, ◌&&◌, ◌||◌, List, [], ◌∷◌, if◌then◌else◌, is_empty}
use myzerossl.Text.{Text, codes, same}
use myzerossl.Map.{Map, member}
use myzerossl.Keyless.State.{
  ClientState, Reason, no_reason, bad_token, client_disabled, client_auto_disabled, client_revoked,
  AuthManager,
}

-- The three results of `authenticate`
pub record Verdict : Type 0 where
  pub client_id : Text
  pub ok : Bool
  pub reason : Reason

abbrev pub refused : Verdict
refused = record { client_id = []; ok = false; reason = bad_token }

abbrev pub accepted : Text → Verdict
accepted id = record { client_id = id; ok = true; reason = no_reason }

-- What the loop answers for a client whose token fits
unfoldable pub judge : List Text → Text → ClientState → Verdict
judge revoked id state =
    if state.cfg.disabled
    then record { client_id = id; ok = false; reason = client_disabled }
    else if state.auto_disabled
    then record { client_id = id; ok = false; reason = client_auto_disabled }
    else if member id revoked
    then record { client_id = id; ok = false; reason = client_revoked }
    else accepted id

-- The loop of `authenticate` over `a.clients`, in the order of the list
unfoldable pub find_client : List Text → Text → Map ClientState → Verdict
unfolding judge
find_client revoked token [] = refused
find_client revoked token ((id, state) ∷ rest) =
    if same token state.cfg.token then judge revoked id state else find_client revoked token rest

unfoldable pub authenticate : AuthManager → Text → Verdict
unfolding find_client
authenticate a token =
    if not a.clients_mode && is_empty a.clients
    then (if is_empty a.shared_token || same token a.shared_token
        then accepted (codes "shared")
        else refused)
    else find_client a.revoked token a.clients
