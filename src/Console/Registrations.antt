-- ===== src/Console/Registrations.antt =====
-- cmd/signer-console/main.go, `registerEdge` and `registrationAction`: an edge node asks for admission,
-- and an administrator approves or rejects it.
use myzerossl.Prelude.{
  Bool, false, not, ◌&&◌, List, [], ◌∷◌, ◌++◌, none, some, if◌then◌else◌, any, is_empty,
}
use myzerossl.Prelude.Int.{pos}
use myzerossl.Prelude.Result.{ok, err}
use myzerossl.Text.{Text, codes, same, trim_space}
use myzerossl.Keyless.State.{ClientConfig}
use myzerossl.Console.State.{
  EdgeRegistration, pending, approved, rejected, RegisterRequest, Request, Settings, Env, Files,
  Reply, failure, done, waiting, installable, read_client_file, read_registrations,
  write_client_file, write_registrations, or_fail,
}
use myzerossl.Console.Values.{
  valid_client_id, valid_install_token, client_address, parse_registration_action, find,
  update_first,
}
use myzerossl.Console.Clients.{has_id}

-- The request with its fields trimmed, and a token drawn if it has none
unfoldable pub normalized : Env → RegisterRequest → RegisterRequest
unfolding trim_space
normalized env req = record {
  id = trim_space req.id;
  label = trim_space req.label;
  install_token =
      let token = trim_space req.install_token in
      if is_empty token then env.install_secret else token;
}

abbrev pub is_pending : Text → EdgeRegistration → Bool
is_pending id reg = same reg.id id && same reg.status pending

-- A second request renews the pending registration.
unfoldable pub renewed : Env → Text → RegisterRequest → EdgeRegistration → EdgeRegistration
renewed env address req reg = record reg {
  label = req.label;
  remote_addr = address;
  requested_at = env.now;
  install_token = req.install_token;
  install_issued_at = env.now;
}

unfoldable pub fresh_registration : Env → Text → RegisterRequest → EdgeRegistration
fresh_registration env address req = record {
  id = req.id;
  label = req.label;
  status = pending;
  remote_addr = address;
  requested_at = env.now;
  approved_at = [];
  rejected_at = [];
  install_token = req.install_token;
  install_issued_at = env.now;
  install_used_at = [];
  install_verified_at = [];
  install_status = [];
  install_error = [];
}

unfoldable pub enroll : Env → Text → RegisterRequest → List EdgeRegistration → List EdgeRegistration
enroll env address req regs =
    if any (is_pending req.id) regs
    then update_first (is_pending req.id) (renewed env address req) regs
    else regs ++ fresh_registration env address req ∷ []

-- `registerEdge` with a valid request, under the lock
unfoldable pub admit_request :
    Env → Files → Text → RegisterRequest → List ClientConfig → Files × Reply
admit_request env f address req clients =
    if any (has_id req.id) clients
    then (f, failure 409 (codes "client already exists"))
    else or_fail f 500 (read_registrations f) λ regs.
      or_fail f 500 (write_registrations env f (enroll env address req regs)) (λ f'. (f', waiting))

unfoldable pub register_request : Env → Files → Text → RegisterRequest → Files × Reply
register_request env f address req =
    if not (valid_client_id req.id)
    then (f, failure 400 (codes "invalid id"))
    else if not (valid_install_token req.install_token)
    then (f, failure 400 (codes "invalid install token"))
    else or_fail f 500 (read_client_file f) (admit_request env f address req)

unfoldable pub register_edge : Env → Files → Request → Files × Reply
register_edge env f r = elim (r.registration) [
  | err e ↦ (f, failure 400 (codes "invalid JSON"))
  | ok req ↦ register_request env f (client_address r) (normalized env req)
]

abbrev pub registers : Text → EdgeRegistration → Bool
registers id reg = same reg.id id

unfoldable pub new_config : Env → Text → ClientConfig
new_config env id = record {
  id = id;
  token = env.client_secret;
  private_key = [];
  private_keys = [];
  disabled = false;
  rate_per_minute = pos 20000;
  auto_disable_signs_per_minute = pos 0;
  auto_disable_errors_per_minute = pos 0;
  auto_revoke = false;
}

unfoldable pub with_token : Env → EdgeRegistration → EdgeRegistration
with_token env reg =
    if is_empty reg.install_token
    then record reg { install_token = env.install_secret; install_issued_at = env.now }
    else reg

unfoldable pub approve_registration : Env → EdgeRegistration → EdgeRegistration
approve_registration env reg = record (with_token env reg) {
  status = approved;
  approved_at = env.now;
  install_used_at = [];
  install_status = codes "approved";
  install_error = [];
}

unfoldable pub reject_registration : Env → EdgeRegistration → EdgeRegistration
reject_registration env reg = record reg { status = rejected; rejected_at = env.now }

unfoldable pub install_url : Settings → EdgeRegistration → Text
install_url s reg = s.public_url ++ (codes "/api/install/" ++ reg.install_token)

-- The client file is written first; if the registrations cannot be written then, the client stays.
unfoldable pub approve :
    Settings
    → Env
    → Files
    → Text
    → EdgeRegistration
    → List EdgeRegistration
    → List ClientConfig
    → Files × Reply
approve s env f id reg regs clients =
    if any (has_id id) clients
    then (f, failure 409 (codes "client already exists"))
    else or_fail f 500 (write_client_file env f (clients ++ new_config env id ∷ [])) λ f'.
      or_fail f' 500
        (write_registrations env f' (update_first (registers id) (approve_registration env) regs))
        λ f''. (f'', installable (install_url s (approve_registration env reg)))

unfoldable pub reject : Env → Files → Text → List EdgeRegistration → Files × Reply
reject env f id regs =
    or_fail f 500
      (write_registrations env f (update_first (registers id) (reject_registration env) regs))
      λ f'. (f', done)

unfoldable pub decide_registration :
    Settings → Env → Files → Text → Text → List EdgeRegistration → List ClientConfig → Files × Reply
decide_registration s env f id action regs clients = elim (find (registers id) regs) [
  | none ↦ (f, failure 404 (codes "registration not found"))
  | some reg ↦
      if same action (codes "approve")
      then approve s env f id reg regs clients
      else if same action (codes "reject")
      then reject env f id regs
      else (f, failure 404 (codes "not found"))
]

unfoldable pub registration_action : Settings → Env → Files → Request → Files × Reply
registration_action s env f r = elim (parse_registration_action r.path) [
  | none ↦ (f, failure 404 (codes "not found"))
  | some (id, action) ↦
      or_fail f 500 (read_registrations f)
        λ regs. or_fail f 500 (read_client_file f) (decide_registration s env f id action regs)
]
