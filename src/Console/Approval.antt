-- ===== src/Console/Approval.antt =====
-- From an approval to the token at the edge node.
use myzerossl.Prelude.{
  true, false, ◌≡◌, ◌≢◌, refl, List, [], ◌∷◌, ◌++◌, none, some, arith, is_empty, any, Bool-cases,
  inl, inr,
}
use myzerossl.Prelude.Result.{ok, contents}
use myzerossl.Text.{Text, codes}
use myzerossl.Keyless.State.{ClientConfig}
use myzerossl.Console.State.{
  EdgeRegistration, Request, Settings, Env, Files, installable, read_client_file,
  read_registrations, write_client_file, write_registrations,
}
use myzerossl.Console.Values.{wants_json, find, update_first, parse_registration_action}
use myzerossl.Console.Clients.{has_id}
use myzerossl.Console.Registrations.{
  registers, new_config, with_token, approve_registration, install_url, approve,
  decide_registration, registration_action,
}
use myzerossl.Console.Install.{awaits, deliver, install_edge}
use myzerossl.Console.Delivery.{handed, install_token_of, find_sound, Granted}
use myzerossl.Console.Used.{NamesToken, install_edge-Granted}

find_new :
    (c : ClientConfig) (id : Text) (cs : List ClientConfig)
    → any (has_id id) cs ≡ false
    → has_id id c ≡ true
    → find (has_id id) (cs ++ c ∷ []) ≡ some c
unfolding find
find_new c id [] free fits = ground arith
find_new c id (d ∷ cs) free fits = ground (arith, find_new c id cs)

find_approved :
    (env : Env) (id token : Text) (regs : List EdgeRegistration) (reg : EdgeRegistration)
    → find (registers id) regs ≡ some reg
    → find (awaits token) regs ≡ none
    → awaits token (approve_registration env reg) ≡ true
    → find (awaits token) (update_first (registers id) (approve_registration env) regs)
      ≡ some (approve_registration env reg)
unfolding find update_first
find_approved env id token [] reg found fresh fits = cc
find_approved env id token (x ∷ regs) reg found fresh fits = elim (Bool-cases (registers id x)) [
  | inl e ↦ ground arith
  | inr e ↦ ground (arith, find_approved env id token regs reg)
]

-- The files after an approval
approved_files : Env → Files → Text → List EdgeRegistration → List ClientConfig → Files
approved_files env f id regs clients = record f {
  clients = contents (clients ++ new_config env id ∷ []);
  registrations = contents (update_first (registers id) (approve_registration env) regs);
}

approve_outcome :
    (s : Settings) (env : Env) (f : Files) (a : Request) (id : Text) (reg : EdgeRegistration)
    (regs : List EdgeRegistration) (clients : List ClientConfig)
    → parse_registration_action a.path ≡ some (id, codes "approve")
    → read_registrations f ≡ ok regs
    → read_client_file f ≡ ok clients
    → find (registers id) regs ≡ some reg
    → any (has_id id) clients ≡ false
    → env.can_write_clients ≡ true
    → env.can_write_registrations ≡ true
    → registration_action s env f a ≡ (
      approved_files env f id regs clients,
      installable (install_url s (approve_registration env reg)),
    )
unfolding registration_action decide_registration approve write_client_file write_registrations
    approved_files
approve_outcome s env f a id reg regs clients path e e' found free w w' = ground arith

awaits-approve_registration :
    (env : Env) (reg : EdgeRegistration)
    → is_empty reg.install_token ≡ false
    → awaits reg.install_token (approve_registration env reg) ≡ true
unfolding approve_registration with_token
awaits-approve_registration env reg h = ground arith

approved_grant :
    (env : Env) (f : Files) (id : Text) (reg : EdgeRegistration) (regs : List EdgeRegistration)
    (clients : List ClientConfig)
    → find (registers id) regs ≡ some reg
    → any (has_id id) clients ≡ false
    → is_empty reg.install_token ≡ false
    → find (awaits reg.install_token) regs ≡ none
    → is_empty env.client_secret ≡ false
    → Granted (approved_files env f id regs clients) reg.install_token id env.client_secret
unfolding approved_files
approved_grant env f id reg regs clients found free token fresh secret = record {
  regs = update_first (registers id) (approve_registration env) regs;
  clients = clients ++ new_config env id ∷ [];
  reg = approve_registration env reg;
  client = new_config env id;
  read_regs = unfold read_registrations in refl;
  read_clients = unfold read_client_file in refl;
  found =
      find_approved env id reg.install_token regs reg found fresh
        (awaits-approve_registration env reg token);
  is_approved = unfold approve_registration in refl;
  has_token = unfold approve_registration with_token in ground arith;
  unused = unfold approve_registration in refl;
  whose =
      unfold approve_registration with_token in
      ground (arith, find_sound (registers id) regs found);
  known = find_new (new_config env id) id clients free (unfold new_config in ground arith);
  owns = unfold new_config in refl;
  filled = secret;
}

deliver_hands_over :
    (s : Settings) (env : Env) (f : Files) (r : Request) (install_token id token : Text)
    (regs : List EdgeRegistration)
    → env.can_write_registrations ≡ true
    → handed (deliver s env f r install_token id token regs).1 ≡ some (id, token)
unfolding deliver write_registrations
deliver_hands_over s env f r install_token id token regs w = elim (Bool-cases (wants_json r)) [
  | inl j ↦ ground arith
  | inr j ↦ ground arith
]

-- Suppose that an administrator approves an id that has no client yet, that both files can be read
-- and written, that the secret drawn for the client is not empty, and that no approved registration
-- has the install token of the first registration of the id. Then the next installation with that
-- install token, if the registrations can be written, is handed the id and the secret.
pub approval_delivers :
    (s : Settings) (env env' : Env) (f : Files) (a r : Request) (id : Text) (reg : EdgeRegistration)
    (regs : List EdgeRegistration) (clients : List ClientConfig)
    → parse_registration_action a.path ≡ some (id, codes "approve")
    → read_registrations f ≡ ok regs
    → read_client_file f ≡ ok clients
    → find (registers id) regs ≡ some reg
    → any (has_id id) clients ≡ false
    → env.can_write_clients ≡ true
    → env.can_write_registrations ≡ true
    → env'.can_write_registrations ≡ true
    → env.client_secret ≢ []
    → NamesToken r
    → install_token_of r ≡ reg.install_token
    → find (awaits reg.install_token) regs ≡ none
    → handed (install_edge s env' (registration_action s env f a).0 r).1
      ≡ some (id, env.client_secret)
approval_delivers s env env' f a r id reg regs clients path e e' found free w w' w'' secret names
      token fresh =
    let f' = approved_files env f id regs clients in
    let filled : is_empty reg.install_token ≡ false = rw (← token) (ground (arith, names)) in
    let grant =
      approved_grant env f id reg regs clients found free filled fresh (ground (arith, secret)) in
    let grant' : Granted f' (install_token_of r) id env.client_secret = rw token grant in
    let saved = approve_outcome s env f a id reg regs clients path e e' found free w w' in
    rw (saved, install_edge-Granted s env' f' r id env.client_secret names grant')
      (deliver_hands_over s env' f' r (install_token_of r) id env.client_secret grant'.regs w'')
