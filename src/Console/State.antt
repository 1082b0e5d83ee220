-- ===== src/Console/State.antt =====
-- cmd/signer-console/main.go: registrations, the files of the console, and what its handlers see.
use myzerossl.Prelude.{ℕ, Bool, true, false, List, []}
use myzerossl.Prelude.Int.{ℤ}
use myzerossl.Prelude.Result.{Result, ok, err, FileRead, missing, failed, contents}
use myzerossl.Text.{Text, codes}
use myzerossl.Map.{Map}
use myzerossl.Keyless.State.{ClientConfig}
use myzerossl.Edge.Http.{Header}

-- The instants are texts, empty while nothing has happened.
pub record EdgeRegistration : Type 0 where
  pub id : Text
  pub label : Text
  pub status : Text
  pub remote_addr : Text
  pub requested_at : Text
  pub approved_at : Text
  pub rejected_at : Text
  pub install_token : Text
  pub install_issued_at : Text
  pub install_used_at : Text
  pub install_verified_at : Text
  pub install_status : Text
  pub install_error : Text

abbrev pub pending : Text
pending = codes "pending"

abbrev pub approved : Text
approved = codes "approved"

abbrev pub rejected : Text
rejected = codes "rejected"

pub record RegisterRequest : Type 0 where
  pub id : Text
  pub label : Text
  pub install_token : Text

pub record ClientLimitsRequest : Type 0 where
  pub rate_per_minute : ℤ
  pub auto_disable_signs_per_minute : ℤ
  pub auto_disable_errors_per_minute : ℤ
  pub auto_revoke : Bool

-- A request, with its body as each of the two decoders finds it
pub record Request : Type 0 where
  pub path : Text
  pub format : Text
  pub header : Header
  pub remote_addr : Text
  pub registration : Result RegisterRequest
  pub limits : Result ClientLimitsRequest

-- The settings of `app` that the handlers use
pub record Settings : Type 0 where
  pub public_url : Text
  pub edge_keyless_url : Text

-- What a call finds outside: the clock, the random strings that it draws for a client and for an
-- installation, and which files can be written. A write that fails leaves the file as it was.
pub record Env : Type 0 where
  pub now : Text
  pub client_secret : Text
  pub install_secret : Text
  pub can_write_clients : Bool
  pub can_write_registrations : Bool
  pub can_write_revoked : Bool

-- The three files; the first two hold the value that their JSON encodes.
pub record Files : Type 0 where
  pub clients : FileRead (List ClientConfig)
  pub registrations : FileRead (List EdgeRegistration)
  pub revoked : FileRead Text

pub data Reply : Type 0 where
  failure : ℕ → Text → Reply
  done : Reply
  waiting : Reply
  installable : Text → Reply
  token_json : Text → Text → Map Text → Reply
  token_script : Text → Text → Reply

-- What `readClientFile` and `readRegistrations` make of a missing file
abbrev pub clients_of : FileRead (List ClientConfig) → Result (List ClientConfig)
clients_of missing = err (codes "no such file or directory")
clients_of (failed e) = err e
clients_of (contents clients) = ok clients

abbrev pub registrations_of : FileRead (List EdgeRegistration) → Result (List EdgeRegistration)
registrations_of missing = ok []
registrations_of (failed e) = err e
registrations_of (contents registrations) = ok registrations

unfoldable pub read_client_file : Files → Result (List ClientConfig)
read_client_file f = clients_of f.clients

unfoldable pub read_registrations : Files → Result (List EdgeRegistration)
read_registrations f = registrations_of f.registrations

unfoldable pub write_client_file : Env → Files → List ClientConfig → Result Files
write_client_file env f clients = elim (env.can_write_clients) [
  | true ↦ ok (record f { clients = contents clients })
  | false ↦ err (codes "permission denied")
]

unfoldable pub write_registrations : Env → Files → List EdgeRegistration → Result Files
write_registrations env f registrations = elim (env.can_write_registrations) [
  | true ↦ ok (record f { registrations = contents registrations })
  | false ↦ err (codes "permission denied")
]

-- Go on with a value, or answer with the error
abbrev pub or_fail {ℓ} : {A : Type ℓ} → Files → ℕ → Result A → (A → Files × Reply) → Files × Reply
or_fail f status (ok a) next = next a
or_fail f status (err e) next = (f, failure status e)

-- The same with a text of the handler's own
abbrev pub or_say {ℓ} : {A : Type ℓ} → Files → Text → Result A → (A → Files × Reply) → Files × Reply
or_say f text (ok a) next = next a
or_say f text (err e) next = (f, failure 500 text)
