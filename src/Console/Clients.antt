-- ===== src/Console/Clients.antt =====
-- cmd/signer-console/main.go, `clientAction`: what the console does to clients.
use myzerossl.Prelude.{
  Bool, true, false, not, ◌&&◌, List, [], ◌∷◌, none, some, leb, if◌then◌else◌, any,
}
use myzerossl.Prelude.Int.{ℤ, pos, negsuc}
use myzerossl.Prelude.Result.{Result, ok, err, ◌>>=◌}
use myzerossl.Text.{Text, codes, same}
use myzerossl.Keyless.State.{ClientConfig}
use myzerossl.Console.State.{
  ClientLimitsRequest, Request, Env, Files, Reply, failure, done, read_client_file,
  write_client_file, or_fail,
}
use myzerossl.Console.Values.{parse_client_action}
use myzerossl.Console.Revoked.{append_revoked_file, remove_revoked_file}

abbrev pub in_range : ℤ → Bool
in_range (pos n) = leb n 1000000
in_range (negsuc n) = false

abbrev pub has_id : Text → ClientConfig → Bool
has_id id client = same client.id id

unfoldable pub set_disabled : Bool → Text → List ClientConfig → List ClientConfig
set_disabled b id [] = []
set_disabled b id (c ∷ cs) =
    let rest = set_disabled b id cs in
    if has_id id c then record c { disabled = b } ∷ rest else c ∷ rest

abbrev pub checked : Result ClientLimitsRequest → Result ClientLimitsRequest
checked (err e) = err (codes "invalid JSON")
checked (ok req) =
    if in_range req.rate_per_minute
      && in_range req.auto_disable_signs_per_minute
      && in_range req.auto_disable_errors_per_minute
    then ok req
    else err (codes "limits must be between 0 and 1000000")

abbrev pub limited : ClientLimitsRequest → ClientConfig → ClientConfig
limited req client = record client {
  rate_per_minute = req.rate_per_minute;
  auto_disable_signs_per_minute = req.auto_disable_signs_per_minute;
  auto_disable_errors_per_minute = req.auto_disable_errors_per_minute;
  auto_revoke = req.auto_revoke;
}

abbrev pub prepend : ClientConfig → Result (List ClientConfig) → Result (List ClientConfig)
prepend c (ok cs) = ok (c ∷ cs)
prepend c (err e) = err e

-- A second client with the id finds the body read to its end.
unfoldable pub set_limits :
    Result ClientLimitsRequest → Text → List ClientConfig → Result (List ClientConfig)
set_limits body id [] = ok []
set_limits body id (c ∷ cs) =
    let untouched = set_limits body id cs in
    let rest = set_limits (err (codes "EOF")) id cs in
    if has_id id c
    then (do req ← checked body; prepend (limited req c) rest)
    else prepend c untouched

-- The end of the three actions on the client file
unfoldable pub save_clients : Env → Files → Bool → List ClientConfig → Files × Reply
save_clients env f found clients =
    if not found
    then (f, failure 404 (codes "client not found"))
    else or_fail f 500 (write_client_file env f clients) (λ f'. (f', done))

unfoldable pub act_on_clients :
    Env → Files → Request → Text → Text → List ClientConfig → Files × Reply
act_on_clients env f r id action clients =
    let found = any (has_id id) clients in
    if same action (codes "disable")
    then save_clients env f found (set_disabled true id clients)
    else if same action (codes "enable")
    then save_clients env f found (set_disabled false id clients)
    else if same action (codes "limits")
    then or_fail f 400 (set_limits r.limits id clients) (save_clients env f found)
    else if same action (codes "revoke")
    then or_fail f 500 (append_revoked_file env f id) (λ f'. (f', done))
    else if same action (codes "unrevoke")
    then or_fail f 500 (remove_revoked_file env f id) (λ f'. (f', done))
    else (f, failure 404 (codes "not found"))

unfoldable pub client_action : Env → Files → Request → Files × Reply
client_action env f r = elim (parse_client_action r.path) [
  | none ↦ (f, failure 404 (codes "not found"))
  | some (id, action) ↦ or_fail f 500 (read_client_file f) (act_on_clients env f r id action)
]
