-- ===== src/Tests/Enroll.antt =====
-- cmd/edgeproxy/main.go, the enrollment of an edge node with the console, at concrete inputs.
use myzerossl.Prelude.{[], ◌∷◌, ◌++◌, some, ◌≡◌, refl, arith}
use myzerossl.Prelude.Result.{ok, err}
use myzerossl.Text.{Text, codes, trim_prefix, has_prefix, contains}
use myzerossl.Text.Decimal.{parse_int, parse_uint, scan_digits}
use myzerossl.Console.State.{read_client_file, read_registrations}
use myzerossl.Console.Values.{edge_config, find}
use myzerossl.Console.Registrations.{registration_action}
use myzerossl.Edge.Config.{must_parse_bytes, split_listens}
use myzerossl.Edge.Enroll.{
  Event, tick, response, enrolled, polling, poll, TokenSettings, started, find_token,
  token_file_text,
}
use myzerossl.Edge.Enroll.Polling.{IsEnded, poll-IsEnded}
use myzerossl.Edge.Enroll.Approved.{
  tick_at, IsUnapproved, approved_edge_enrolls, unapproved_keeps_polling,
}
use myzerossl.Tests.Console.{
  secret, settings, env, approves, edge_registration, waiting_files, path_read, found_waiting,
}

abbrev quiet : Event
quiet = tick (response 404 (err (codes "EOF")))

poll-IsEnded_example : IsEnded secret (quiet ∷ quiet ∷ [])
poll-IsEnded_example = poll-IsEnded secret (quiet ∷ quiet ∷ [])

approved_edge_enrolls_example :
    poll secret (
      (quiet ∷ [])
      ++ tick_at settings secret
          (codes "10.0.0.1")
          (env, (registration_action settings env waiting_files approves).0)
        ∷ [])
    ≡ enrolled (codes "s3cret") secret (some (edge_config settings))
unfolding read_registrations read_client_file find myzerossl.Edge.Enroll.Approved.install_request
    trim_prefix has_prefix contains myzerossl.Text.Text-discrete
approved_edge_enrolls_example =
    approved_edge_enrolls settings env env waiting_files approves (codes "10.0.0.1")
      (codes "edge-1") edge_registration (edge_registration ∷ []) [] (quiet ∷ []) [] path_read refl
      refl found_waiting refl refl refl refl (ground arith) refl refl
      ((err (codes "EOF"), refl), tt)

waiting_state : IsUnapproved secret waiting_files
unfolding read_registrations read_client_file find myzerossl.Text.Text-discrete
waiting_state = record {
  regs = edge_registration ∷ [];
  clients = [];
  read_regs = refl;
  read_clients = refl;
  unapproved = refl;
}

unapproved_keeps_polling_example :
    poll secret (tick_at settings secret [] (env, waiting_files) ∷ []) ≡ polling
unfolding myzerossl.Edge.Enroll.Approved.install_request trim_prefix has_prefix contains
unapproved_keeps_polling_example =
    unapproved_keeps_polling settings secret [] ((env, waiting_files) ∷ []) refl (waiting_state, tt)

abbrev token_settings : TokenSettings
token_settings = record {
  token = [];
  token_file = codes "/t";
  register_url = codes "https://c";
  register_id = codes "edge-1";
  register_label = [];
  register_token = [];
  keyless_url = codes "https://s";
}

size : must_parse_bytes (codes "4194304") ≡ ok 4194304
unfolding must_parse_bytes parse_int parse_uint scan_digits
size = refl

default_listen : split_listens (codes " ,") ≡ codes ":443" ∷ []
unfolding split_listens myzerossl.Edge.Config.filled_parts myzerossl.Text.split
    myzerossl.Text.trim_space
default_listen = refl
