-- ===== src/Console/Admission.antt =====
-- What the console hands out while no administrator acts.
use myzerossl.Prelude.{
  false, ◌≡◌, refl, sym, List, [], ◌∷◌, ◌++◌, none, arith, any, All, Bool-cases, inl, inr,
}
use mathlib.Core.Path.{subst}
use myzerossl.Prelude.Result.{ok, FileRead, missing, failed, contents, Result-cases}
use myzerossl.Text.{Text, codes, same, trim_prefix, trim_suffix, Text-discrete}
use myzerossl.Keyless.State.{ClientConfig}
use myzerossl.Console.State.{
  EdgeRegistration, pending, approved, RegisterRequest, Request, Settings, Env, Files,
  registrations_of, read_client_file, read_registrations, write_registrations,
}
use myzerossl.Console.Values.{
  find, update_first, client_address, valid_client_id, valid_install_token,
}
use myzerossl.Console.Clients.{has_id}
use myzerossl.Console.Registrations.{
  is_pending, normalized, renewed, fresh_registration, enroll, admit_request, register_request,
  register_edge,
}
use myzerossl.Console.Install.{awaits, install_for, install_edge, verify_for, verify_install}
use myzerossl.Console.Delivery.{handed, install_token_of}
use myzerossl.Console.Calls.{
  Route, post_register, post_install, get_install, post_client, post_registration, Call,
  require_admin, serve_console, history,
}

-- No registration of the list is approved.
pub AreUnapproved : List EdgeRegistration → Type 0
AreUnapproved regs = All (λ reg. same reg.status approved ≡ false) regs

-- No registration in the file is approved.
abbrev pub HoldsUnapproved : FileRead (List EdgeRegistration) → Type 0
HoldsUnapproved missing = Unit
HoldsUnapproved (failed e) = Unit
HoldsUnapproved (contents regs) = AreUnapproved regs

abbrev pub IsClosed : Files → Type 0
IsClosed f = HoldsUnapproved f.registrations

registrations_of-AreUnapproved :
    (file : FileRead (List EdgeRegistration)) (regs : List EdgeRegistration)
    → HoldsUnapproved file
    → registrations_of file ≡ ok regs
    → AreUnapproved regs
unfolding AreUnapproved
registrations_of-AreUnapproved missing [] h e = tt
registrations_of-AreUnapproved missing (reg ∷ regs) h e = cc
registrations_of-AreUnapproved (failed x) regs h e = cc
registrations_of-AreUnapproved (contents regs') regs h e =
    let same_list : regs' ≡ regs = cc in rw (← same_list) h

read_registrations-AreUnapproved :
    (f : Files) (regs : List EdgeRegistration)
    → IsClosed f
    → read_registrations f ≡ ok regs
    → AreUnapproved regs
unfolding read_registrations
read_registrations-AreUnapproved f regs h e =
    registrations_of-AreUnapproved f.registrations regs h e

find-awaits :
    (token : Text) (regs : List EdgeRegistration)
    → AreUnapproved regs
    → find (awaits token) regs ≡ none
unfolding find AreUnapproved
find-awaits token [] h = refl
find-awaits token (reg ∷ regs) h = ground (arith, find-awaits token regs)

update_first-AreUnapproved :
    (env : Env) (address : Text) (req : RegisterRequest) (regs : List EdgeRegistration)
    → AreUnapproved regs
    → AreUnapproved (update_first (is_pending req.id) (renewed env address req) regs)
unfolding update_first AreUnapproved renewed
update_first-AreUnapproved env address req [] h = tt
update_first-AreUnapproved env address req (reg ∷ regs) h =
    elim (Bool-cases (is_pending req.id reg)) [
      | inl e ↦ rw e h
      | inr e ↦ rw e (h.0, update_first-AreUnapproved env address req regs h.1)
    ]

append-AreUnapproved :
    (regs : List EdgeRegistration) (reg : EdgeRegistration)
    → AreUnapproved regs
    → same reg.status approved ≡ false
    → AreUnapproved (regs ++ reg ∷ [])
unfolding AreUnapproved
append-AreUnapproved [] reg h e = (e, tt)
append-AreUnapproved (x ∷ regs) reg h e = (h.0, append-AreUnapproved regs reg h.1 e)

pending-ne-approved : same pending approved ≡ false
unfolding Text-discrete
pending-ne-approved = refl

enroll-AreUnapproved :
    (env : Env) (address : Text) (req : RegisterRequest) (regs : List EdgeRegistration)
    → AreUnapproved regs
    → AreUnapproved (enroll env address req regs)
unfolding enroll fresh_registration
enroll-AreUnapproved env address req regs h = elim (Bool-cases (any (is_pending req.id) regs)) [
  | inl e ↦ rw e (update_first-AreUnapproved env address req regs h)
  | inr e ↦ rw e (append-AreUnapproved regs _ h pending-ne-approved)
]

admit_request-IsClosed :
    (env : Env) (f : Files) (address : Text) (req : RegisterRequest) (clients : List ClientConfig)
    → IsClosed f
    → IsClosed (admit_request env f address req clients).0
unfolding admit_request write_registrations enroll renewed fresh_registration
admit_request-IsClosed env f address req clients h =
    elim (Bool-cases (any (has_id req.id) clients)) [
      | inl taken ↦ rw taken h
      | inr free ↦ elim (Result-cases (read_registrations f)) [
        | inl (x, e) ↦ rw (free, e) h
        | inr (regs, e) ↦
            let enrolled =
              enroll-AreUnapproved env address req regs
                (read_registrations-AreUnapproved f regs h e) in
            elim (Bool-cases env.can_write_registrations) [
              | inl w ↦ rw (free, e, w) enrolled
              | inr w ↦ rw (free, e, w) h
            ]
      ]
    ]

register_request-IsClosed :
    (env : Env) (f : Files) (address : Text) (req : RegisterRequest)
    → IsClosed f
    → IsClosed (register_request env f address req).0
unfolding register_request
register_request-IsClosed env f address req h = elim (Bool-cases (valid_client_id req.id)) [
  | inr bad ↦ rw bad h
  | inl good ↦ elim (Bool-cases (valid_install_token req.install_token)) [
    | inr bad ↦ rw (good, bad) h
    | inl good' ↦ elim (Result-cases (read_client_file f)) [
      | inl (x, e) ↦ rw (good, good', e) h
      | inr (clients, e) ↦ rw (good, good', e) (admit_request-IsClosed env f address req clients h)
    ]
  ]
]

register_edge-IsClosed :
    (env : Env) (f : Files) (r : Request) → IsClosed f → IsClosed (register_edge env f r).0
unfolding register_edge
register_edge-IsClosed env f r h = elim (Result-cases r.registration) [
  | inl (x, e) ↦ rw (register_edge, e) h
  | inr (req, e) ↦
      rw (register_edge, e)
        (register_request-IsClosed env f (client_address r) (normalized env req) h)
]

-- With no approved registration `verifyInstall` changes nothing.
verify_install_closed :
    (env : Env) (f : Files) (r : Request) → IsClosed f → (verify_install env f r).0 ≡ f
unfolding verify_install verify_for
verify_install_closed env f r h =
    let token = trim_suffix (codes "/verified") (trim_prefix (codes "/api/install/") r.path) in
    elim (Result-cases (read_registrations f)) [
      | inl (x, e) ↦ ground arith
      | inr (regs, e) ↦
          ground (arith, find-awaits token regs (read_registrations-AreUnapproved f regs h e))
    ]

-- With no approved registration `installEdge` changes nothing and hands out nothing.
install_edge_closed :
    (s : Settings) (env : Env) (f : Files) (r : Request)
    → IsClosed f
    → ((install_edge s env f r).0 ≡ f) × (handed (install_edge s env f r).1 ≡ none)
unfolding install_edge install_for
install_edge_closed s env f r h = elim (Result-cases (read_registrations f)) [
  | inl (x, e) ↦ (ground arith, ground arith)
  | inr (regs, e) ↦
      let nothing =
        find-awaits (install_token_of r) regs (read_registrations-AreUnapproved f regs h e) in
      elim (Result-cases (read_client_file f)) [
        | inl (x, e') ↦ (ground arith, ground arith)
        | inr (clients, e') ↦ (ground arith, ground arith)
      ]
]

serve_console-IsClosed :
    (s : Settings) (f : Files) (route : Route) (env : Env) (r : Request)
    → IsClosed f
    → IsClosed (serve_console s f route false env r).0
unfolding serve_console require_admin
serve_console-IsClosed s f post_register env r h = register_edge-IsClosed env f r h
serve_console-IsClosed s f post_install env r h = rw (verify_install_closed env f r h) h
serve_console-IsClosed s f get_install env r h = rw (install_edge_closed s env f r h).0 h
serve_console-IsClosed s f post_client env r h = h
serve_console-IsClosed s f post_registration env r h = h

-- No call of the history was an administrator's.
abbrev pub HasNoAdmin : List Call → Type 0
HasNoAdmin = All λ c. c.admin ≡ false

history-IsClosed :
    (s : Settings) (f : Files) (cs : List Call)
    → IsClosed f
    → HasNoAdmin cs
    → IsClosed (history s f cs)
unfolding history
history-IsClosed s f [] h quiet = h
history-IsClosed s f (c ∷ cs) h quiet =
    history-IsClosed s (serve_console s f c.route c.admin c.env c.request).0 cs
      (subst (λ b. IsClosed (serve_console s f c.route b c.env c.request).0) (sym quiet.0)
        (serve_console-IsClosed s f c.route c.env c.request h))
      quiet.1

-- From files with no approved registration, whatever calls are made without an administrator, no
-- request for an installation is then given a token.
pub no_admin_no_token :
    (s : Settings) (f : Files) (cs : List Call) (env : Env) (r : Request)
    → IsClosed f
    → HasNoAdmin cs
    → handed (install_edge s env (history s f cs) r).1 ≡ none
no_admin_no_token s f cs env r h quiet =
    (install_edge_closed s env (history s f cs) r (history-IsClosed s f cs h quiet)).1
