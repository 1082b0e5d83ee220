-- ===== src/Keyless/Load.antt =====
-- internal/keyless/auth.go, `newAuthManager`: clients and revoked ids from their files.
use myzerossl.Prelude.{Bool, false, not, ◌&&◌, ◌||◌, List, [], ◌∷◌, if◌then◌else◌, is_empty}
use myzerossl.Text.{Text, codes, has_prefix, trim_space}
use myzerossl.Map.{Map, insert, add}
use myzerossl.Prelude.Result.{Result, ok, err, ◌>>=◌, FileRead, missing, failed, contents}
use myzerossl.Text.Lines.{Scanned}
use myzerossl.Keyless.State.{ClientConfig, ClientState, AuthManager}

pub record SignServerOptions : Type 0 where
  pub token : Text
  pub clients_path : Text
  pub revoked_path : Text
  pub audit_path : Text

abbrev pub new_client : ClientConfig → ClientState
new_client cfg = record {
  cfg = cfg;
  window_start = 0;
  signs = 0;
  errors = 0;
  auto_disabled = false;
}

-- The loop of `loadClients`
unfoldable pub load_clients_from : Map ClientState → List ClientConfig → Result (Map ClientState)
unfolding trim_space insert
load_clients_from m [] = ok m
load_clients_from m (c ∷ cs) =
    let client = record c { id = trim_space c.id } in
    let rest = load_clients_from (insert client.id (new_client client) m) cs in
    if is_empty client.id || is_empty client.token
    then err (codes "client id and token are required")
    else rest

unfoldable pub load_clients : AuthManager → FileRead (List ClientConfig) → Result AuthManager
unfolding load_clients_from
load_clients a missing = err (codes "no such file or directory")
load_clients a (failed e) = err e
load_clients a (contents file) = do
  m ← load_clients_from a.clients file
  ok (record a { clients = m })

-- The lines of a revoked file that name a client
abbrev pub names_client : Text → Bool
names_client id = not (is_empty id) && not (has_prefix (b'#' ∷ []) id)

unfoldable pub load_revoked_from : List Text → List Text → List Text
unfolding trim_space has_prefix add
load_revoked_from s [] = s
load_revoked_from s (line ∷ lines) =
    let id = trim_space line in load_revoked_from (if names_client id then add id s else s) lines

unfoldable pub load_revoked : AuthManager → FileRead Scanned → Result AuthManager
unfolding load_revoked_from
load_revoked a missing = ok a
load_revoked a (failed e) = err e
load_revoked a (contents file) =
    if file.complete
    then ok (record a { revoked = load_revoked_from a.revoked file.lines })
    else err (codes "bufio.Scanner: token too long")

unfoldable pub new_auth_manager :
    SignServerOptions → FileRead (List ClientConfig) → FileRead Scanned → Result AuthManager
unfolding load_clients load_revoked
new_auth_manager opts clients_file revoked_file = do
  let manager : AuthManager = record {
    shared_token = opts.token;
    clients_mode = not (is_empty opts.clients_path);
    clients = [];
    revoked = [];
    revoked_path = opts.revoked_path;
    audit_path = opts.audit_path;
    revoked_lines = [];
    audit_lines = [];
  }
  loaded ← if is_empty opts.clients_path then ok manager else load_clients manager clients_file
  if is_empty opts.revoked_path then ok loaded else load_revoked loaded revoked_file
