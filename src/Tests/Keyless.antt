-- ===== src/Tests/Keyless.antt =====
-- internal/keyless/auth.go and protocol.go at concrete inputs.
use mathlib.Core.List.{Permᴰ}
use myzerossl.Prelude.{true, false, [], ◌∷◌, some, List, ◌≡◌, ◌≢◌, ◌↔◌, refl, arith}
use myzerossl.Prelude.Int.{pos}
use myzerossl.Prelude.Result.{ok, err}
use myzerossl.Text.{codes, Text-discrete}
use myzerossl.Map.{lookup, member, HasDistinctKeys}
use myzerossl.Keyless.State.{
  ClientConfig, ClientState, AuthManager, Env, auth, sign, no_reason, rate_limit_exceeded,
  auto_revoked_signs, bad_token,
}
use myzerossl.Keyless.Load.{new_client}
use myzerossl.Keyless.Authenticate.{accepted, authenticate}
use myzerossl.Keyless.Authenticate.Exact.{IsActive, Admits, HasDistinctTokens, authenticate_exact}
use myzerossl.Keyless.Authenticate.Order.{
  authenticate_order_independent, authenticate_order_matters,
}
use myzerossl.Keyless.Limits.{allowed, record_result}
use myzerossl.Keyless.Limits.Calls.{Call, records, asks, run}
use myzerossl.Keyless.Limits.Revocation.{revoked_for_ever, auto_revocation_lasts}
use myzerossl.Keyless.Limits.Log.{Logged, run-Logged}
use myzerossl.Keyless.Limits.Window.{stale_window_denies}
use myzerossl.Keyless.Base64.{encode, decode}
use myzerossl.Keyless.Base64.RoundTrip.{decode-encode}
use myzerossl.Keyless.Protocol.{plain, request_from_signer_input, signer_opts_from_request}
use myzerossl.Keyless.Protocol.RoundTrip.{opts_round_trip}

abbrev edge_config : ClientConfig
edge_config = record {
  id = codes "edge";
  token = codes "t1";
  private_key = [];
  private_keys = [];
  disabled = false;
  rate_per_minute = pos 0;
  auto_disable_signs_per_minute = pos 2;
  auto_disable_errors_per_minute = pos 0;
  auto_revoke = true;
}

-- A client that has signed twice in this minute
abbrev edge : ClientState
edge = record (new_client edge_config) { window_start = 60000000000; signs = 2 }

abbrev pub other : ClientState
other = new_client (record edge_config {
  id = codes "other";
  token = codes "t2";
  rate_per_minute = pos 2;
  auto_disable_signs_per_minute = pos 0;
  auto_revoke = false;
})

abbrev disabled_twin : ClientState
disabled_twin = new_client (record edge_config { id = codes "twin"; disabled = true })

-- A client at its rate limit in the first minute
abbrev full : ClientState
full = record other { window_start = 60000000000; signs = 2 }

abbrev pub manager : AuthManager
manager = record {
  shared_token = [];
  clients_mode = true;
  clients = (codes "edge", edge) ∷ (codes "other", other) ∷ [];
  revoked = codes "gone" ∷ [];
  revoked_path = codes "revoked.txt";
  audit_path = codes "audit.log";
  revoked_lines = [];
  audit_lines = [];
}

abbrev pub env : Env
env = record { now = 130000000000; writable = λ path. true }

abbrev calls : List Call
calls =
    records env (codes "edge") sign true no_reason (codes "10.0.0.1")
    ∷ asks env (codes "edge") sign
    ∷ records env [] auth false bad_token (codes "10.0.0.2")
    ∷ []

edge-IsActive : IsActive (codes "gone" ∷ []) (codes "edge") edge
unfolding member Text-discrete
edge-IsActive = record { enabled = refl; kept = refl; unrevoked = refl }

manager-HasDistinctKeys : HasDistinctKeys manager.clients
unfolding Text-discrete lookup
manager-HasDistinctKeys = (refl, (refl, tt))

manager-HasDistinctTokens : HasDistinctTokens manager.clients
unfolding Text-discrete
manager-HasDistinctTokens = ((ground arith, tt), (tt, tt))

found_edge : lookup (codes "edge") manager.clients ≡ some edge
unfolding lookup Text-discrete
found_edge = refl

authenticate_exact_example :
    (authenticate manager (codes "t1") ≡ accepted (codes "edge"))
    ↔ Admits manager.revoked manager.clients (codes "t1") (codes "edge")
authenticate_exact_example =
    authenticate_exact manager (codes "t1") (codes "edge") refl manager-HasDistinctKeys
      manager-HasDistinctTokens

authenticate_order_independent_example :
    authenticate
      (record manager { clients = (codes "other", other) ∷ (codes "edge", edge) ∷ [] })
      (codes "t1")
    ≡ authenticate manager (codes "t1")
authenticate_order_independent_example =
    authenticate_order_independent manager (codes "t1")
      ((codes "other", other) ∷ (codes "edge", edge) ∷ []) manager-HasDistinctTokens
      ∣ Permᴰ.swap refl refl ∣₁

authenticate_order_matters_example :
    ((authenticate
        (record manager { clients = (codes "edge", edge) ∷ (codes "twin", disabled_twin) ∷ [] })
        (codes "t1")).ok
      ≡ true)
    × ((authenticate
          (record manager { clients = (codes "twin", disabled_twin) ∷ (codes "edge", edge) ∷ [] })
          (codes "t1")).ok
        ≡ false)
authenticate_order_matters_example =
    authenticate_order_matters manager (codes "t1") (codes "edge") (codes "twin") edge disabled_twin
      refl refl edge-IsActive refl

revoked_for_ever_example : authenticate (run manager calls) (codes "t1") ≢ accepted (codes "gone")
unfolding member Text-discrete
revoked_for_ever_example = revoked_for_ever manager calls (codes "t1") (codes "gone") refl refl

auto_revocation_lasts_example :
    ((allowed env manager (codes "edge") sign).ok ≡ false)
    × ((allowed env manager (codes "edge") sign).reason ≡ auto_revoked_signs)
    × (authenticate (run (allowed env manager (codes "edge") sign).manager calls) (codes "t1")
        ≢ accepted (codes "edge"))
auto_revocation_lasts_example =
    auto_revocation_lasts env manager (codes "edge") edge calls (codes "t1") refl found_edge refl
      refl refl

run-Logged_example : Logged (run manager calls)
unfolding member
run-Logged_example =
    run-Logged manager calls (record { known = λ j h. absurd (ground arith); once = tt })

full_manager : AuthManager
full_manager = record manager { clients = (codes "other", full) ∷ [] }

stale_window_denies_example :
    ((allowed env full_manager (codes "other") sign).ok ≡ false)
    × ((allowed env full_manager (codes "other") sign).reason ≡ rate_limit_exceeded)
    × ((allowed env
          (record_result env full_manager
            (codes "other")
            sign
            false
            rate_limit_exceeded
            (codes "10.0.0.1"))
          (codes "other")
          sign).ok
        ≡ true)
unfolding lookup Text-discrete full_manager
stale_window_denies_example =
    stale_window_denies env env full_manager (codes "other") full (codes "10.0.0.1") (ground arith)
      refl refl refl (omega arith)

decoded : decode (encode (0 ∷ 255 ∷ 62 ∷ 63 ∷ [])) ≡ ok (0 ∷ 255 ∷ 62 ∷ 63 ∷ [])
decoded =
    decode-encode (0 ∷ 255 ∷ 62 ∷ 63 ∷ [])
      (omega arith, (omega arith, (omega arith, (omega arith, tt))))

unknown_hash :
    signer_opts_from_request (request_from_signer_input [] (plain 2))
    ≡ err (codes "unsupported hash")
unknown_hash = opts_round_trip [] (plain 2)
