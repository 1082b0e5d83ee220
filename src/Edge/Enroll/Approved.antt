-- ===== src/Edge/Enroll/Approved.antt =====
-- An edge node and the console: what the node's polls get while nothing is approved, and after.
use myzerossl.Prelude.{
  true, false, ◌≡◌, ◌≢◌, refl, ap, ◌∙◌, List, [], ◌∷◌, ◌++◌, none, some, arith, All, any, map,
}
use myzerossl.Prelude.Result.{ok, err}
use myzerossl.Text.{Text, codes, Text-discrete, trim_prefix}
use myzerossl.Keyless.State.{ClientConfig}
use myzerossl.Console.State.{
  EdgeRegistration, Request, Settings, Env, Files, Reply, failure, done, waiting, installable,
  token_json, token_script, read_client_file, read_registrations, write_registrations,
}
use myzerossl.Console.Values.{wants_json, edge_config, find, parse_registration_action}
use myzerossl.Console.Clients.{has_id}
use myzerossl.Console.Registrations.{registers, registration_action}
use myzerossl.Console.Install.{awaits, deliver, install_for, install_edge}
use myzerossl.Console.Delivery.{handed, install_token_of, install_edge_sound}
use myzerossl.Console.Used.{NamesToken, install_edge-Granted, names_token}
use myzerossl.Console.Approval.{approval_delivers}
use myzerossl.Edge.Enroll.{
  Fetched, response, Event, tick, enrolled, poll, on_event, fetch_install_token, round, decoded,
  or_continue, polling,
}
use myzerossl.Edge.Enroll.Polling.{IsPending, poll-pending}

-- How the node sees a reply: its status, and what its JSON decoder makes of the body
unfoldable pub fetched_of : Reply → Fetched
fetched_of (failure status text) = response status (err (codes "invalid character"))
fetched_of (token_json id token config) =
    response 200 (ok (record { keyless_token = token; edge_config = some config }))
fetched_of (token_script token id) = response 200 (err (codes "invalid character"))
fetched_of (installable url) = response 200 (ok (record { keyless_token = []; edge_config = none }))
fetched_of done = response 200 (ok (record { keyless_token = []; edge_config = none }))
fetched_of waiting = response 202 (ok (record { keyless_token = []; edge_config = none }))

-- The request of `fetchInstallToken`, as it reaches the console
unfoldable pub install_request : Text → Text → Request
install_request install_token addr = record {
  path = codes "/api/install/" ++ install_token;
  format = codes "json";
  header = (codes "Accept", codes "application/json" ∷ []) ∷ [];
  remote_addr = addr;
  registration = err (codes "EOF");
  limits = err (codes "EOF");
}

install_token_of-install_request :
    (install_token addr : Text)
    → install_token_of (install_request install_token addr) ≡ install_token
unfolding install_request trim_prefix
install_token_of-install_request t addr = refl

wants_json-install_request :
    (install_token addr : Text) → wants_json (install_request install_token addr) ≡ true
unfolding wants_json install_request Text-discrete
wants_json-install_request t addr = refl

deliver_json :
    (s : Settings) (env : Env) (f : Files) (r : Request) (install_token id token : Text)
    (regs : List EdgeRegistration)
    → wants_json r ≡ true
    → handed (deliver s env f r install_token id token regs).1 ≡ some (id, token)
    → (deliver s env f r install_token id token regs).1 ≡ token_json id token (edge_config s)
unfolding deliver write_registrations
deliver_json s env f r install_token id token regs json h = ground arith

install_edge_json :
    (s : Settings) (env : Env) (f : Files) (r : Request) (id token : Text)
    → wants_json r ≡ true
    → handed (install_edge s env f r).1 ≡ some (id, token)
    → (install_edge s env f r).1 ≡ token_json id token (edge_config s)
install_edge_json s env f r id token json h =
    let names = names_token s env f r (id, token) h in
    let grant = install_edge_sound s env f r id token h in
    let e = install_edge-Granted s env f r id token names grant in
    rw e (deliver_json s env f r (install_token_of r) id token grant.regs json (rw (← e) h))

-- The tick at which the console answers from its files
abbrev pub tick_at : Settings → Text → Text → Env × Files → Event
tick_at s install_token addr (env, f) =
    tick (fetched_of (install_edge s env f (install_request install_token addr)).1)

handed-on_event :
    (s : Settings) (env : Env) (f : Files) (install_token addr id token : Text)
    → handed (install_edge s env f (install_request install_token addr)).1 ≡ some (id, token)
    → token ≢ []
    → on_event install_token (tick_at s install_token addr (env, f))
      ≡ some (enrolled token install_token (some (edge_config s)))
unfolding on_event round fetch_install_token decoded fetched_of
handed-on_event s env f install_token addr id token h filled =
    let r = install_request install_token addr in
    let json =
      install_edge_json s env f r id token (wants_json-install_request install_token addr) h in
    ground arith

-- Suppose that an administrator approves an id that has no client yet, and that the registration of an
-- edge node is the first one with this id in the console's list (an approval takes that one, so a node
-- that registered again after a rejection is not meant). Suppose also that the console can read and write
-- its files, that the secret drawn for the client is not empty, that the node's install token names an
-- installation, and that no approved registration has it. Then the node, whose polls so far were answered
-- by 404 and whose next poll finds the files as the approval left them, is enrolled at that poll with that
-- secret, its own install token and the configuration of the console, whatever comes later.
pub approved_edge_enrolls :
    (s : Settings) (env env' : Env) (f : Files) (a : Request) (addr id : Text)
    (reg : EdgeRegistration) (regs : List EdgeRegistration) (clients : List ClientConfig)
    (quiet rest : List Event)
    → parse_registration_action a.path ≡ some (id, codes "approve")
    → read_registrations f ≡ ok regs
    → read_client_file f ≡ ok clients
    → find (registers id) regs ≡ some reg
    → any (has_id id) clients ≡ false
    → env.can_write_clients ≡ true
    → env.can_write_registrations ≡ true
    → env'.can_write_registrations ≡ true
    → env.client_secret ≢ []
    → NamesToken (install_request reg.install_token addr)
    → find (awaits reg.install_token) regs ≡ none
    → All IsPending quiet
    → poll reg.install_token
        (quiet ++ tick_at s reg.install_token addr (env', (registration_action s env f a).0) ∷ rest)
      ≡ enrolled env.client_secret reg.install_token (some (edge_config s))
unfolding poll
approved_edge_enrolls s env env' f a addr id reg regs clients quiet rest path e e' found free w w'
      w'' secret names fresh silent =
    let r = install_request reg.install_token addr in
    let given =
      approval_delivers s env env' f a r id reg regs clients path e e' found free w w' w'' secret
        names (install_token_of-install_request reg.install_token addr) fresh in
    let ends =
      handed-on_event s env' (registration_action s env f a).0 reg.install_token addr id
        env.client_secret given secret in
    poll-pending reg.install_token quiet
      (tick_at s reg.install_token addr (env', (registration_action s env f a).0) ∷ rest) silent
    ∙ ap (λ o. or_continue o (poll reg.install_token rest)) ends

-- The console's files can be read, and no approved registration has the install token: it may be pending
-- or rejected, or there may be none.
pub record IsUnapproved (install_token : Text) (f : Files) : Type 0 where
  pub regs : List EdgeRegistration
  pub clients : List ClientConfig
  pub read_regs : read_registrations f ≡ ok regs
  pub read_clients : read_client_file f ≡ ok clients
  pub unapproved : find (awaits install_token) regs ≡ none

unapproved-IsPending :
    (s : Settings) (env : Env) (f : Files) (install_token addr : Text)
    → NamesToken (install_request install_token addr)
    → IsUnapproved install_token f
    → IsPending (tick_at s install_token addr (env, f))
unfolding install_edge install_for fetched_of
unapproved-IsPending s env f install_token addr names u = (
  err (codes "invalid character"),
  ground (
    arith,
    u.read_regs,
    u.read_clients,
    u.unapproved,
    install_token_of-install_request install_token addr,
  ),
)

-- A node whose install token no approved registration of the console has goes on polling at every tick,
-- also when its registration was rejected: the console gives it no other answer.
pub unapproved_keeps_polling :
    (s : Settings) (install_token addr : Text) (states : List (Env × Files))
    → NamesToken (install_request install_token addr)
    → All (λ state. IsUnapproved install_token (state.1)) states
    → poll install_token (map (tick_at s install_token addr) states) ≡ polling
unfolding poll
unapproved_keeps_polling s t addr [] names u = refl
unapproved_keeps_polling s t addr ((env, f) ∷ states) names (u, us) =
    poll-pending t (tick_at s t addr (env, f) ∷ []) (map (tick_at s t addr) states)
      (unapproved-IsPending s env f t addr names u, tt)
    ∙ unapproved_keeps_polling s t addr states names us
