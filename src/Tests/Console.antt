-- ===== src/Tests/Console.antt =====
-- cmd/signer-console/main.go at concrete inputs: an edge node registers, is approved, and installs.
use myzerossl.Prelude.{true, false, [], ◌∷◌, ◌++◌, List, some, none, ◌≡◌, refl, arith}
use myzerossl.Prelude.Int.{pos}
use myzerossl.Prelude.Result.{ok, err, missing, contents}
use myzerossl.Text.{
  Text, same, codes, Text-discrete, split, trim_char, trim_prefix, trim_suffix, has_suffix,
  contains, has_prefix, trim_space, byte_len,
}
use myzerossl.Map.{lookup}
use myzerossl.Keyless.State.{ClientConfig}
use myzerossl.Edge.Http.{get}
use myzerossl.Console.State.{
  EdgeRegistration, pending, approved, Request, Settings, Env, Files, failure, done, token_json,
  token_script, read_client_file, read_registrations, write_registrations,
}
use myzerossl.Console.Values.{
  find, update_first, wants_json, edge_config, parse_registration_action, valid_client_id,
  valid_install_token, client_address,
}
use myzerossl.Console.Registrations.{
  register_edge, register_request, admit_request, enroll, fresh_registration, normalized,
}
use myzerossl.Console.Install.{
  install_edge, install_for, deliver, delivered, used, verify_install, verify_for, verified,
}
use myzerossl.Console.Calls.{post_register, post_registration, Call, history}
use myzerossl.Console.Delivery.{handed, Granted, install_edge_sound}
use myzerossl.Console.Admission.{no_admin_no_token}
use myzerossl.Console.Once.{script_delivers_once, json_delivers_again, verify_closes}
use myzerossl.Console.Ids.{HoldsDistinctIds}
use myzerossl.Console.Distinct.{history-HoldsDistinctIds}

abbrev pub secret : Text
secret = codes "0123456789abcdef0123456789abcdef"

abbrev pub settings : Settings
settings = record {
  public_url = codes "https://console";
  edge_keyless_url = codes "https://signer";
}

abbrev pub env : Env
env = record {
  now = codes "2026-01-01T00:00:00Z";
  client_secret = codes "s3cret";
  install_secret = secret;
  can_write_clients = true;
  can_write_registrations = true;
  can_write_revoked = true;
}

abbrev pub asks : Request
asks = record {
  path = codes "/api/register";
  format = [];
  header = [];
  remote_addr = codes "10.0.0.1";
  registration = ok (record { id = codes "edge-1"; label = []; install_token = secret });
  limits = err (codes "EOF");
}

abbrev pub approves : Request
approves = record asks { path = codes "/api/registrations/edge-1/approve" }

abbrev installs : Request
installs = record asks { path = codes "/api/install/" ++ secret }

abbrev installs_json : Request
installs_json = record installs { format = codes "json" }

abbrev reports : Request
reports = record asks { path = (codes "/api/install/" ++ secret) ++ codes "/verified" }

abbrev pub edge_registration : EdgeRegistration
edge_registration = record {
  id = codes "edge-1";
  label = [];
  status = pending;
  remote_addr = codes "10.0.0.1";
  requested_at = env.now;
  approved_at = [];
  rejected_at = [];
  install_token = secret;
  install_issued_at = env.now;
  install_used_at = [];
  install_verified_at = [];
  install_status = [];
  install_error = [];
}

abbrev pub empty : Files
empty = record { clients = contents []; registrations = missing; revoked = missing }

abbrev pub waiting_files : Files
waiting_files = record empty { registrations = contents (edge_registration ∷ []) }

abbrev client : ClientConfig
client = record {
  id = codes "edge-1";
  token = codes "s3cret";
  private_key = [];
  private_keys = [];
  disabled = false;
  rate_per_minute = pos 20000;
  auto_disable_signs_per_minute = pos 0;
  auto_disable_errors_per_minute = pos 0;
  auto_revoke = false;
}

abbrev ready : Files
ready = record empty {
  clients = contents (client ∷ []);
  registrations = contents (record edge_registration { status = approved } ∷ []);
}

program : Unit {0}
unfolding find update_first wants_json edge_config parse_registration_action register_edge
    register_request admit_request enroll fresh_registration normalized client_address
    valid_client_id valid_install_token install_edge install_for deliver delivered used
    verify_install verify_for verified read_client_file read_registrations write_registrations get
    lookup Text-discrete split trim_char trim_prefix trim_suffix has_suffix has_prefix contains
    trim_space byte_len
program = tt

registered : (register_edge env empty asks).0 ≡ waiting_files
unfolding program
registered = refl

script_sent :
    (install_edge settings env ready installs).1 ≡ token_script (codes "s3cret") (codes "edge-1")
unfolding program
script_sent = refl

json_sent :
    (install_edge settings env ready installs_json).1
    ≡ token_json
        (codes "edge-1")
        (codes "s3cret")
        ((codes "KEYLESS_URL", codes "https://signer") ∷ [])
unfolding program
json_sent = refl

reported : (verify_install env ready reports).1 ≡ done
unfolding program
reported = refl

pub path_read : parse_registration_action approves.path ≡ some (codes "edge-1", codes "approve")
unfolding program
path_read = refl

pub found_waiting :
    find (λ reg. same reg.id (codes "edge-1")) (edge_registration ∷ []) ≡ some edge_registration
unfolding program
found_waiting = refl

nothing_approved : handed (install_edge settings env waiting_files installs).1 ≡ none
unfolding program
nothing_approved = refl

script_handed :
    handed (install_edge settings env ready installs).1 ≡ some (codes "edge-1", codes "s3cret")
unfolding program
script_handed = refl

install_edge_sound_example : Granted ready secret (codes "edge-1") (codes "s3cret")
unfolding trim_prefix has_prefix
install_edge_sound_example =
    install_edge_sound settings env ready installs (codes "edge-1") (codes "s3cret") script_handed

abbrev quiet_calls : List Call
quiet_calls =
    record { route = post_register; admin = false; env = env; request = asks }
    ∷ record { route = post_registration; admin = false; env = env; request = approves }
    ∷ []

no_admin_no_token_example :
    handed (install_edge settings env (history settings empty quiet_calls) installs).1 ≡ none
no_admin_no_token_example =
    no_admin_no_token settings empty quiet_calls env installs tt (refl, (refl, tt))

script_delivers_once_example :
    (install_edge settings env (install_edge settings env ready installs).0 installs).1
    ≡ failure 410 (codes "install token already used")
script_delivers_once_example =
    script_delivers_once settings env env ready installs installs (codes "s3cret") (codes "edge-1")
      script_sent (ground arith) refl

json_delivers_again_example :
    (install_edge settings env (install_edge settings env ready installs_json).0 installs_json).1
    ≡ token_json
        (codes "edge-1")
        (codes "s3cret")
        ((codes "KEYLESS_URL", codes "https://signer") ∷ [])
json_delivers_again_example =
    json_delivers_again settings env env ready installs_json (codes "edge-1") (codes "s3cret")
      ((codes "KEYLESS_URL", codes "https://signer") ∷ []) json_sent refl

verify_closes_example :
    (install_edge settings env (verify_install env ready reports).0 installs_json).1
    ≡ failure 410 (codes "install token already used")
unfolding program
verify_closes_example =
    verify_closes settings env env ready reports installs_json (client ∷ []) reported refl
      (ground arith) refl refl

abbrev admin_calls : List Call
admin_calls =
    record { route = post_register; admin = false; env = env; request = asks }
    ∷ record { route = post_registration; admin = true; env = env; request = approves }
    ∷ []

history-HoldsDistinctIds_example : HoldsDistinctIds (history settings empty admin_calls).clients
history-HoldsDistinctIds_example = history-HoldsDistinctIds settings empty admin_calls tt
