-- ===== src/Console/Install.antt =====
-- cmd/signer-console/main.go, `installEdge` and `verifyInstall`: an approved edge node fetches its token
-- and reports that it is installed.
use myzerossl.Prelude.{
  Bool, not, ◌&&◌, ◌||◌, List, [], ◌∷◌, Option, none, some, if◌then◌else◌, is_empty,
}
use myzerossl.Text.{Text, codes, same, contains, has_suffix, trim_prefix, trim_suffix}
use myzerossl.Keyless.State.{ClientConfig}
use myzerossl.Console.State.{
  EdgeRegistration, approved, Request, Settings, Env, Files, Reply, failure, done, token_json,
  token_script, read_client_file, read_registrations, write_registrations, or_fail, or_say,
}
use myzerossl.Console.Values.{wants_json, edge_config, find, update_first}
use myzerossl.Console.Clients.{has_id}

abbrev pub awaits : Text → EdgeRegistration → Bool
awaits token reg = same reg.install_token token && same reg.status approved

-- `http.NotFound`
abbrev pub page_not_found : Reply
page_not_found = failure 404 (codes "404 page not found")

abbrev pub no_registrations : Text
no_registrations = codes "registration file unavailable"

abbrev pub no_clients : Text
no_clients = codes "client file unavailable"

abbrev pub token_of : Option ClientConfig → Text
token_of none = []
token_of (some client) = client.token

unfoldable pub delivered : EdgeRegistration → EdgeRegistration
delivered reg = record reg { install_status = codes "delivered" }

unfoldable pub used : Env → EdgeRegistration → EdgeRegistration
used env reg = record reg { install_used_at = env.now; install_status = codes "delivered" }

-- The token as JSON leaves the installation open; the script closes it.
unfoldable pub deliver :
    Settings → Env → Files → Request → Text → Text → Text → List EdgeRegistration → Files × Reply
deliver s env f r install_token id token regs =
    if wants_json r
    then or_say f no_registrations
        (write_registrations env f (update_first (awaits install_token) delivered regs))
        (λ f'. (f', token_json id token (edge_config s)))
    else or_say f no_registrations
        (write_registrations env f (update_first (awaits install_token) (used env) regs))
        (λ f'. (f', token_script token id))

unfoldable pub install_for :
    Settings
    → Env
    → Files
    → Request
    → Text
    → List EdgeRegistration
    → List ClientConfig
    → Files × Reply
install_for s env f r install_token regs clients = elim (find (awaits install_token) regs) [
  | none ↦ (f, page_not_found)
  | some reg ↦
      let token = token_of (find (has_id reg.id) clients) in
      if not (is_empty reg.install_used_at)
      then (f, failure 410 (codes "install token already used"))
      else if is_empty token
      then (f, failure 404 (codes "client not found"))
      else deliver s env f r install_token reg.id token regs
]

unfoldable pub install_edge : Settings → Env → Files → Request → Files × Reply
install_edge s env f r =
    let install_token = trim_prefix (codes "/api/install/") r.path in
    if is_empty install_token || contains (b'/' ∷ []) install_token
    then (f, page_not_found)
    else or_say f no_registrations (read_registrations f)
        λ regs. or_say f no_clients (read_client_file f) (install_for s env f r install_token regs)

unfoldable pub verified : Env → EdgeRegistration → EdgeRegistration
verified env reg = record reg {
  install_used_at = env.now;
  install_verified_at = env.now;
  install_status = codes "verified";
  install_error = [];
}

unfoldable pub verify_for : Env → Files → Text → List EdgeRegistration → Files × Reply
verify_for env f install_token regs = elim (find (awaits install_token) regs) [
  | none ↦ (f, page_not_found)
  | some reg ↦
      or_fail f 500
        (write_registrations env f (update_first (awaits install_token) (verified env) regs))
        (λ f'. (f', done))
]

unfoldable pub verify_install : Env → Files → Request → Files × Reply
verify_install env f r =
    let install_token =
      trim_suffix (codes "/verified") (trim_prefix (codes "/api/install/") r.path) in
    if not (has_suffix (codes "/verified") r.path)
    then (f, page_not_found)
    else if is_empty install_token || contains (b'/' ∷ []) install_token
    then (f, page_not_found)
    else or_fail f 500 (read_registrations f) (verify_for env f install_token)
