-- ===== src/Console/Delivery.antt =====
-- When `installEdge` hands out a token, and how often.
use myzerossl.Prelude.{
  Bool, true, false, ◌||◌, ◌≡◌, refl, sym, List, [], ◌∷◌, Option, none, some, arith, is_empty,
  Bool-cases, Option-cases, inl, inr,
}
use myzerossl.Prelude.Result.{Result, ok, err}
use myzerossl.Text.{Text, codes, contains, trim_prefix}
use myzerossl.Keyless.State.{ClientConfig}
use myzerossl.Console.State.{
  EdgeRegistration, approved, Request, Settings, Env, Files, Reply, token_json, token_script,
  read_client_file, read_registrations, write_registrations, or_say,
}
use myzerossl.Console.Values.{wants_json, find}
use myzerossl.Console.Clients.{has_id}
use myzerossl.Console.Install.{
  awaits, no_registrations, no_clients, deliver, install_for, install_edge,
}

-- The client and the token that a reply hands out
abbrev pub handed : Reply → Option (Text × Text)
handed (token_json id token config) = some (id, token)
handed (token_script token id) = some (id, token)
handed _ = none

-- The install token in the path of a request
abbrev pub install_token_of : Request → Text
install_token_of r = trim_prefix (codes "/api/install/") r.path

-- All that stands behind a token in a reply: an approved registration with the install token, not yet
-- used, and the client with the id of the registration, whose token it is.
pub record Granted (f : Files) (install_token id token : Text) : Type 0 where
  pub regs : List EdgeRegistration
  pub clients : List ClientConfig
  pub reg : EdgeRegistration
  pub client : ClientConfig
  pub read_regs : read_registrations f ≡ ok regs
  pub read_clients : read_client_file f ≡ ok clients
  pub found : find (awaits install_token) regs ≡ some reg
  pub is_approved : reg.status ≡ approved
  pub has_token : reg.install_token ≡ install_token
  pub unused : reg.install_used_at ≡ []
  pub whose : reg.id ≡ id
  pub known : find (has_id id) clients ≡ some client
  pub owns : client.token ≡ token
  pub filled : is_empty token ≡ false

or_say_inversion {ℓ} :
    {A : Type ℓ} (f : Files) (text : Text) (r : Result A) (next : A → Files × Reply)
    {e : Text × Text}
    → handed (or_say f text r next).1 ≡ some e
    → (a : A) × (r ≡ ok a) × (handed (next a).1 ≡ some e)
or_say_inversion f text (ok a) next h = (a, refl, h)
or_say_inversion f text (err x) next h = cc

pub find_sound {ℓ} :
    {A : Type ℓ} (p : A → Bool) (l : List A) {x : A} → find p l ≡ some x → p x ≡ true
unfolding find
find_sound p [] h = cc
find_sound p (y ∷ l) h = elim (Bool-cases (p y)) [
  | inl e ↦ ground arith
  | inr e ↦ find_sound p l (ground arith)
]

deliver_hands :
    (s : Settings) (env : Env) (f : Files) (r : Request) (install_token id token : Text)
    (regs : List EdgeRegistration) (i t : Text)
    → handed (deliver s env f r install_token id token regs).1 ≡ some (i, t)
    → (i ≡ id) × (t ≡ token)
unfolding deliver write_registrations
deliver_hands s env f r install_token id token regs i t h = elim (Bool-cases (wants_json r)) [
  | inl j ↦ (ground arith, ground arith)
  | inr j ↦ (ground arith, ground arith)
]

install_for_sound :
    (s : Settings) (env : Env) (f : Files) (r : Request) (install_token : Text)
    (regs : List EdgeRegistration) (clients : List ClientConfig) (id token : Text)
    → read_registrations f ≡ ok regs
    → read_client_file f ≡ ok clients
    → handed (install_for s env f r install_token regs clients).1 ≡ some (id, token)
    → Granted f install_token id token
unfolding install_for
install_for_sound s env f r install_token regs clients id token e e' h =
    elim (Option-cases (find (awaits install_token) regs)) [
      | inl n ↦ absurd (ground arith)
      | inr (reg, got) ↦ elim (Option-cases (find (has_id reg.id) clients)) [
        | inl n ↦ absurd (ground arith)
        | inr (client, known) ↦
            let fits : awaits install_token reg ≡ true =
              find_sound (awaits install_token) regs got in
            let (i, t) =
              deliver_hands s env f r install_token reg.id client.token regs id token
                (ground arith) in
            record {
              regs = regs;
              clients = clients;
              reg = reg;
              client = client;
              read_regs = e;
              read_clients = e';
              found = got;
              is_approved = ground arith;
              has_token = ground arith;
              unused = ground arith;
              whose = sym i;
              known = rw i known;
              owns = sym t;
              filled = ground arith;
            }
      ]
    ]

-- `installEdge` hands out a token only to a request with the install token of an approved registration
-- that is not used yet, and the token is that of the client with the registration's id.
pub install_edge_sound :
    (s : Settings) (env : Env) (f : Files) (r : Request) (id token : Text)
    → handed (install_edge s env f r).1 ≡ some (id, token)
    → Granted f (install_token_of r) id token
unfolding install_edge
install_edge_sound s env f r id token h =
    elim (Bool-cases (is_empty (install_token_of r) || contains (b'/' ∷ []) (install_token_of r))) [
      | inl bad ↦ absurd (ground arith)
      | inr good ↦
          let next : List EdgeRegistration → Files × Reply = λ regs.
            or_say f no_clients (read_client_file f)
              (install_for s env f r (install_token_of r) regs) in
          let (regs, e, h₁) =
            or_say_inversion f no_registrations (read_registrations f) next (ground arith) in
          let (clients, e', h₂) = or_say_inversion f no_clients (read_client_file f) _ h₁ in
          install_for_sound s env f r (install_token_of r) regs clients id token e e' h₂
    ]
