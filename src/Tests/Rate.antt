-- ===== src/Tests/Rate.antt =====
-- internal/keyless: the keys and the rate limit of a client, at concrete inputs.
use myzerossl.Prelude.{ℕ, ◌+◌, ◌≤◌, true, false, [], ◌∷◌, some, ◌≡◌, ◌⊎◌, refl, arith, List}
use myzerossl.Prelude.Int.{pos}
use myzerossl.Prelude.Result.{Result, ok, err, missing, contents}
use myzerossl.Text.{Text, codes, Text-discrete, trim_space}
use myzerossl.Map.{lookup, insert}
use myzerossl.Keyless.State.{ClientConfig, AuthManager, no_reason}
use myzerossl.Keyless.Load.{
  SignServerOptions, new_client, load_clients_from, load_clients, new_auth_manager,
}
use myzerossl.Keyless.Protocol.{header_key_id}
use myzerossl.Keyless.Server.{SignServer, Request, header_get, key_for_request}
use myzerossl.Keyless.Limits.{
  allowed, allowed_client, record_result, audit, settle, roll_window, count, check_limits,
  check_rate, check_signs, check_errors,
}
use myzerossl.Keyless.Limits.Rate.{Event, begin, finish, fly, flights, HasAtMost, rate_bound}
use myzerossl.Keyless.Keys.{
  rsa, Parsers, load_private_key, put_key, load_named_keys, load_default_key, load_client_keys_from,
  load_client_keys, new_sign_server_with_options,
}
use myzerossl.Keyless.Keys.Configured.{IsOwned, served_key-IsOwned}
use myzerossl.Tests.Keyless.{manager, env}

-- A file holds its key as its only byte.
abbrev parsers : Parsers ℕ
parsers = record {
  read_file = λ path. ok path;
  pem_decode = λ b. some b;
  parse_pkcs8 = λ b. err [];
  parse_pkcs1 = λ b. err [];
  parse_ec = λ b. elim b [ [] ↦ err [] | c ∷ s ↦ ok (rsa c) ];
}

abbrev load : Text → Result ℕ
load = load_private_key parsers

abbrev blue_config : ClientConfig
blue_config = record {
  id = codes "edge";
  token = codes "t";
  private_key = [];
  private_keys = (codes "blue", codes "B") ∷ [];
  disabled = false;
  rate_per_minute = pos 0;
  auto_disable_signs_per_minute = pos 0;
  auto_disable_errors_per_minute = pos 0;
  auto_revoke = false;
}

abbrev options : SignServerOptions
options = record { token = []; clients_path = codes "c"; revoked_path = []; audit_path = [] }

abbrev loaded_manager : AuthManager
loaded_manager = record {
  shared_token = [];
  clients_mode = true;
  clients = (codes "edge", new_client blue_config) ∷ [];
  revoked = [];
  revoked_path = [];
  audit_path = [];
  revoked_lines = [];
  audit_lines = [];
}

abbrev server : SignServer ℕ
server = record {
  key = 7;
  client_keys = (codes "edge", (codes "blue", b'B') ∷ []) ∷ [];
  auth = loaded_manager;
}

made : new_sign_server_with_options load 7 options (contents (blue_config ∷ [])) missing ≡ ok server
unfolding new_sign_server_with_options load_client_keys load_client_keys_from load_named_keys
    load_default_key put_key load_private_key new_auth_manager load_clients load_clients_from insert
    lookup trim_space Text-discrete
made = refl

abbrev request : Request
request = record {
  header = (header_key_id, codes "blue") ∷ [];
  remote_addr = [];
  body = err [];
  body_size = 0;
}

chosen : key_for_request server (codes "edge") request ≡ some b'B'
unfolding key_for_request header_get lookup trim_space Text-discrete
chosen = refl

served_key-IsOwned_example :
    ((trim_space (header_get request header_key_id) ≡ []) × (◌≡◌ {A = ℕ} b'B' 7))
    ⊎ IsOwned load loaded_manager.clients
        (codes "edge")
        (trim_space (header_get request header_key_id))
        b'B'
served_key-IsOwned_example =
    served_key-IsOwned load 7 options (contents (blue_config ∷ [])) missing server (codes "edge")
      request b'B' made chosen

-- Two requests of a client with the limit 2, one after the other
abbrev events : List Event
events =
    begin env [] ∷ finish env true no_reason [] ∷ begin env [] ∷ finish env true no_reason [] ∷ []

one_at_a_time :
    HasAtMost (codes "other") 1 (record { manager = manager; in_flight = 0; issued = 0 }) events
unfolding fly allowed allowed_client record_result audit settle roll_window count check_limits
    check_rate check_signs check_errors lookup insert Text-discrete
one_at_a_time = omega arith

rate_bound_example :
    (flights
      (codes "other")
      (record { manager = manager; in_flight = 0; issued = 0 })
      events).issued
    ≤ 1 + 1
unfolding lookup Text-discrete
rate_bound_example =
    rate_bound (codes "other") manager myzerossl.Tests.Keyless.other 1 1 120000000000 events
      (ground arith) (omega arith) refl refl (omega arith) (refl, (refl, (refl, (refl, tt))))
      one_at_a_time
