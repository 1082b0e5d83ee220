-- ===== src/Console/Used.antt =====
-- Install tokens that are used up, and the files after a change to the registration of a token.
use myzerossl.Prelude.{
  Bool, true, false, ◌||◌, ◌≡◌, refl, List, [], ◌∷◌, some, arith, is_empty, Bool-cases, inl, inr,
}
use myzerossl.Prelude.Result.{ok, contents}
use myzerossl.Text.{Text, codes, contains}
use myzerossl.Keyless.State.{ClientConfig}
use myzerossl.Console.State.{
  EdgeRegistration, Request, Settings, Env, Files, failure, read_client_file, read_registrations,
}
use myzerossl.Console.Values.{find, update_first}
use myzerossl.Console.Clients.{has_id}
use myzerossl.Console.Install.{awaits, deliver, install_for, install_edge}
use myzerossl.Console.Delivery.{handed, install_token_of, Granted}

pub find-update_first {ℓ} :
    {A : Type ℓ} (p : A → Bool) (g : A → A) (l : List A) (x : A)
    → find p l ≡ some x
    → p (g x) ≡ true
    → find p (update_first p g l) ≡ some (g x)
unfolding find update_first
find-update_first p g [] x h k = cc
find-update_first p g (y ∷ l) x h k = elim (Bool-cases (p y)) [
  | inl e ↦ ground arith
  | inr e ↦ ground (arith, find-update_first p g l x)
]

-- The path of the request names an install token.
abbrev pub NamesToken : Request → Type 0
NamesToken r = (is_empty (install_token_of r) || contains (b'/' ∷ []) (install_token_of r)) ≡ false

-- The registration with the install token that counts is used up.
pub record UsedUp (f : Files) (install_token : Text) : Type 0 where
  pub regs : List EdgeRegistration
  pub clients : List ClientConfig
  pub reg : EdgeRegistration
  pub read_regs : read_registrations f ≡ ok regs
  pub read_clients : read_client_file f ≡ ok clients
  pub found : find (awaits install_token) regs ≡ some reg
  pub spent : is_empty reg.install_used_at ≡ false

pub UsedUp-gone :
    (s : Settings) (env : Env) (f : Files) (r : Request)
    → NamesToken r
    → UsedUp f (install_token_of r)
    → (install_edge s env f r).1 ≡ failure 410 (codes "install token already used")
unfolding install_edge install_for
UsedUp-gone s env f r names u = ground (arith, u.read_regs, u.read_clients, u.found, u.spent)

-- What `installEdge` does for a token that is granted
pub install_edge-Granted :
    (s : Settings) (env : Env) (f : Files) (r : Request) (id token : Text)
    → NamesToken r
    → (g : Granted f (install_token_of r) id token)
    → install_edge s env f r ≡ deliver s env f r (install_token_of r) id token g.regs
unfolding install_edge install_for
install_edge-Granted s env f r id token names g =
    let client : find (has_id g.reg.id) g.clients ≡ some g.client = rw g.whose g.known in
    ground (arith, g.read_regs, g.read_clients, g.found, g.unused, g.whose, g.owns, g.filled)

pub names_token :
    (s : Settings) (env : Env) (f : Files) (r : Request) (e : Text × Text)
    → handed (install_edge s env f r).1 ≡ some e
    → NamesToken r
unfolding install_edge
names_token s env f r e h = ground arith

-- The files with the first registration that awaits the install token changed
unfoldable pub after :
    Files → Text → (EdgeRegistration → EdgeRegistration) → List EdgeRegistration → Files
after f install_token change regs = record f {
  registrations = contents (update_first (awaits install_token) change regs);
}

pub UsedUp-after :
    (f : Files) (install_token : Text) (change : EdgeRegistration → EdgeRegistration)
    (regs : List EdgeRegistration) (reg : EdgeRegistration) (clients : List ClientConfig)
    → read_client_file f ≡ ok clients
    → find (awaits install_token) regs ≡ some reg
    → awaits install_token (change reg) ≡ true
    → is_empty (change reg).install_used_at ≡ false
    → UsedUp (after f install_token change regs) install_token
unfolding after
UsedUp-after f install_token change regs reg clients e found kept spent = record {
  regs = update_first (awaits install_token) change regs;
  clients = clients;
  reg = change reg;
  read_regs = unfold read_registrations in refl;
  read_clients = unfold read_client_file in e;
  found = find-update_first (awaits install_token) change regs reg found kept;
  spent = spent;
}
