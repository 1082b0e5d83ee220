-- ===== src/Console/Once.antt =====
-- What an install token gives right after a script, after a JSON reply, and after `verifyInstall`.
use myzerossl.Prelude.{
  true, ◌≡◌, ◌≢◌, refl, sym, ◌∙◌, ap, List, [], some, arith, Bool-cases, Option-cases, inl, inr,
}
use myzerossl.Prelude.Result.{ok, contents, Result-cases}
use myzerossl.Text.{Text, codes, trim_prefix, trim_suffix}
use myzerossl.Map.{Map}
use myzerossl.Keyless.State.{ClientConfig}
use myzerossl.Console.State.{
  EdgeRegistration, Request, Settings, Env, Files, failure, done, token_json, token_script,
  read_client_file, read_registrations, write_registrations,
}
use myzerossl.Console.Values.{wants_json, edge_config, find, update_first}
use myzerossl.Console.Install.{
  awaits, delivered, used, deliver, install_edge, verified, verify_for, verify_install,
}
use myzerossl.Console.Delivery.{handed, install_token_of, find_sound, Granted, install_edge_sound}
use myzerossl.Console.Used.{
  find-update_first, NamesToken, UsedUp-gone, install_edge-Granted, names_token, after,
  UsedUp-after,
}

script_saves :
    (s : Settings) (env : Env) (f : Files) (r : Request) (install_token id token : Text)
    (regs : List EdgeRegistration)
    → (deliver s env f r install_token id token regs).1 ≡ token_script token id
    → (deliver s env f r install_token id token regs).0
      ≡ record f { registrations = contents (update_first (awaits install_token) (used env) regs) }
unfolding deliver write_registrations
script_saves s env f r install_token id token regs h = elim (Bool-cases (wants_json r)) [
  | inl j ↦ elim (Bool-cases env.can_write_registrations) [
    | inl w ↦ absurd (ground arith)
    | inr w ↦ absurd (ground arith)
  ]
  | inr j ↦ elim (Bool-cases env.can_write_registrations) [
    | inl w ↦ ground arith
    | inr w ↦ absurd (ground arith)
  ]
]

-- If the script was delivered and the clock reads anything, the next request with the same install
-- token is told that it was used already, and gets no token.
pub script_delivers_once :
    (s : Settings) (env env' : Env) (f : Files) (r r' : Request) (token id : Text)
    → (install_edge s env f r).1 ≡ token_script token id
    → env.now ≢ []
    → r'.path ≡ r.path
    → (install_edge s env' (install_edge s env f r).0 r').1
      ≡ failure 410 (codes "install token already used")
script_delivers_once s env env' f r r' token id h now path =
    let token_here = install_token_of r in
    let g = install_edge_sound s env f r id token (ap handed h) in
    let names : NamesToken r = names_token s env f r (id, token) (ap handed h) in
    let e = install_edge-Granted s env f r id token names g in
    let saved : (install_edge s env f r).0 ≡ after f token_here (used env) g.regs =
      ap (λ o. o.0) e
      ∙ unfold after in
        script_saves s env f r token_here id token g.regs (sym (ap (λ o. o.1) e) ∙ h) in
    let fits : awaits token_here g.reg ≡ true = find_sound (awaits token_here) g.regs g.found in
    let gone =
      UsedUp-after f token_here (used env) g.regs g.reg g.clients g.read_clients g.found
        (unfold used in fits) (unfold used in ground arith) in
    let same_token : install_token_of r' ≡ token_here =
      ap (trim_prefix (codes "/api/install/")) path in
    rw saved (
      UsedUp-gone s env' (after f token_here (used env) g.regs) r' (rw same_token names)
        (rw same_token gone))

json_saves :
    (s : Settings) (env : Env) (f : Files) (r : Request) (install_token id token : Text)
    (config : Map Text) (regs : List EdgeRegistration)
    → (deliver s env f r install_token id token regs).1 ≡ token_json id token config
    → (wants_json r ≡ true)
      × (config ≡ edge_config s)
      × ((deliver s env f r install_token id token regs).0 ≡ after f install_token delivered regs)
unfolding deliver write_registrations after
json_saves s env f r install_token id token config regs h = elim (Bool-cases (wants_json r)) [
  | inr j ↦ elim (Bool-cases env.can_write_registrations) [
    | inl w ↦ absurd (ground arith)
    | inr w ↦ absurd (ground arith)
  ]
  | inl j ↦ elim (Bool-cases env.can_write_registrations) [
    | inl w ↦ (j, ground arith, ground arith)
    | inr w ↦ absurd (ground arith)
  ]
]

Granted-delivered :
    (f : Files) (install_token id token : Text) (g : Granted f install_token id token)
    → Granted (after f install_token delivered g.regs) install_token id token
unfolding after delivered
Granted-delivered f install_token id token g = record {
  regs = update_first (awaits install_token) delivered g.regs;
  clients = g.clients;
  reg = delivered g.reg;
  client = g.client;
  read_regs = unfold read_registrations in refl;
  read_clients = unfold read_client_file in g.read_clients;
  found =
      find-update_first (awaits install_token) delivered g.regs g.reg g.found
        (find_sound (awaits install_token) g.regs g.found);
  is_approved = g.is_approved;
  has_token = g.has_token;
  unused = g.unused;
  whose = g.whose;
  known = g.known;
  owns = g.owns;
  filled = g.filled;
}

deliver_json :
    (s : Settings) (env : Env) (f : Files) (r : Request) (install_token id token : Text)
    (regs : List EdgeRegistration)
    → wants_json r ≡ true
    → env.can_write_registrations ≡ true
    → (deliver s env f r install_token id token regs).1 ≡ token_json id token (edge_config s)
unfolding deliver write_registrations
deliver_json s env f r install_token id token regs j w = ground arith

-- The JSON reply does not use the install token up: while the registrations can be written, the same
-- request gets the same token again.
pub json_delivers_again :
    (s : Settings) (env env' : Env) (f : Files) (r : Request) (id token : Text) (config : Map Text)
    → (install_edge s env f r).1 ≡ token_json id token config
    → env'.can_write_registrations ≡ true
    → (install_edge s env' (install_edge s env f r).0 r).1 ≡ token_json id token config
json_delivers_again s env env' f r id token config h w =
    let token_here = install_token_of r in
    let g = install_edge_sound s env f r id token (ap handed h) in
    let names : NamesToken r = names_token s env f r (id, token) (ap handed h) in
    let e = install_edge-Granted s env f r id token names g in
    let (j, c, kept) =
      json_saves s env f r token_here id token config g.regs (sym (ap (λ o. o.1) e) ∙ h) in
    let saved : (install_edge s env f r).0 ≡ after f token_here delivered g.regs =
      ap (λ o. o.0) e ∙ kept in
    let g' = Granted-delivered f token_here id token g in
    rw (saved, c)
      (ap (λ o. o.1)
          (install_edge-Granted s env' (after f token_here delivered g.regs) r id token names g')
        ∙ deliver_json s env' (after f token_here delivered g.regs) r token_here id token g'.regs j
            w)

-- The install token in the path of a report
abbrev pub verified_token_of : Request → Text
verified_token_of r = trim_suffix (codes "/verified") (install_token_of r)

verify_saves :
    (env : Env) (f : Files) (v : Request)
    → (verify_install env f v).1 ≡ done
    → (regs : List EdgeRegistration) × (reg : EdgeRegistration) × (find
          (awaits (verified_token_of v))
          regs
        ≡ some reg)
      × ((verify_install env f v).0 ≡ after f (verified_token_of v) (verified env) regs)
unfolding verify_install verify_for after write_registrations
verify_saves env f v h = elim (Result-cases (read_registrations f)) [
  | inl (x, e) ↦ absurd (ground arith)
  | inr (regs, e) ↦ elim (Option-cases (find (awaits (verified_token_of v)) regs)) [
    | inl n ↦ absurd (ground arith)
    | inr (reg, found) ↦ elim (Bool-cases env.can_write_registrations) [
      | inl w ↦ (regs, reg, found, ground arith)
      | inr w ↦ absurd (ground arith)
    ]
  ]
]

-- When an edge node has reported its installation, with a clock that reads anything and clients that can
-- be read, the next request to the console, if it is one for an installation with the same install token,
-- is told that the token was used already, and gets no signer token. (A later approval of the
-- registration opens it again.)
pub verify_closes :
    (s : Settings) (env env' : Env) (f : Files) (v r : Request) (clients : List ClientConfig)
    → (verify_install env f v).1 ≡ done
    → read_client_file f ≡ ok clients
    → env.now ≢ []
    → NamesToken r
    → install_token_of r ≡ verified_token_of v
    → (install_edge s env' (verify_install env f v).0 r).1
      ≡ failure 410 (codes "install token already used")
verify_closes s env env' f v r clients h e now names path =
    let token = verified_token_of v in
    let (regs, reg, found, saved) = verify_saves env f v h in
    let fits : awaits token reg ≡ true = find_sound (awaits token) regs found in
    let gone =
      UsedUp-after f token (verified env) regs reg clients e found (unfold verified in fits)
        (unfold verified in ground arith) in
    rw saved (UsedUp-gone s env' (after f token (verified env) regs) r names (rw path gone))
