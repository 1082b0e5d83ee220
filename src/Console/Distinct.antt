-- ===== src/Console/Distinct.antt =====
-- The ids of the client file along a history of calls to the console.
use mathlib.Core.Path.{subst}
use myzerossl.Prelude.{
  Bool, true, false, ◌≡◌, sym, List, [], ◌∷◌, arith, any, Bool-cases, Option-cases, inl, inr,
}
use myzerossl.Prelude.Result.{Result-cases}
use myzerossl.Text.{Text, codes, same}
use myzerossl.Keyless.State.{ClientConfig}
use myzerossl.Console.State.{
  EdgeRegistration, Request, Settings, Env, Files, done, or_fail, clients_of, read_client_file,
  read_registrations, write_client_file, write_registrations,
}
use myzerossl.Console.Values.{find, parse_client_action, parse_registration_action}
use myzerossl.Console.Revoked.{append_revoked_file, append_line, remove_revoked_file, write_revoked}
use myzerossl.Console.Clients.{has_id, set_limits, save_clients, act_on_clients, client_action}
use myzerossl.Console.Registrations.{
  registers, new_config, approve, reject, decide_registration, registration_action,
  register_request, admit_request, register_edge,
}
use myzerossl.Console.Install.{install_for, deliver, install_edge, verify_for, verify_install}
use myzerossl.Console.Calls.{
  Route, post_register, post_install, get_install, post_client, post_registration, Call,
  require_admin, serve_console, history,
}
use myzerossl.Console.Ids.{
  HasDistinctIds, HoldsDistinctIds, set_disabled-HasDistinctIds, append-HasDistinctIds,
  set_limits-HasDistinctIds, clients_of-HasDistinctIds,
}

-- The handlers that leave the client file alone
register_edge-clients :
    (env : Env) (f : Files) (r : Request) → (register_edge env f r).0.clients ≡ f.clients
unfolding register_edge register_request admit_request write_registrations
register_edge-clients env f r = ground arith

verify_install-clients :
    (env : Env) (f : Files) (r : Request) → (verify_install env f r).0.clients ≡ f.clients
unfolding verify_install verify_for write_registrations
verify_install-clients env f r = ground arith

install_edge-clients :
    (s : Settings) (env : Env) (f : Files) (r : Request)
    → (install_edge s env f r).0.clients ≡ f.clients
unfolding install_edge install_for deliver write_registrations
install_edge-clients s env f r = ground arith

-- What is done to the revoked file leaves the client file alone.
revoke-clients :
    (env : Env) (f : Files) (id : Text)
    → (or_fail f 500 (append_revoked_file env f id) (λ f'. (f', done))).0.clients ≡ f.clients
unfolding append_revoked_file append_line
revoke-clients env f id = ground arith

unrevoke-clients :
    (env : Env) (f : Files) (id : Text)
    → (or_fail f 500 (remove_revoked_file env f id) (λ f'. (f', done))).0.clients ≡ f.clients
unfolding remove_revoked_file write_revoked
unrevoke-clients env f id = ground arith

save_clients-HoldsDistinctIds :
    (env : Env) (f : Files) (found : Bool) (cs : List ClientConfig)
    → HoldsDistinctIds f.clients
    → HasDistinctIds cs
    → HoldsDistinctIds (save_clients env f found cs).0.clients
unfolding save_clients write_client_file
save_clients-HoldsDistinctIds env f found cs h d = elim (Bool-cases found) [
  | inr e ↦ rw e h
  | inl e ↦ elim (Bool-cases env.can_write_clients) [ inl w ↦ rw (e, w) d | inr w ↦ rw (e, w) h ]
]

act_on_clients-HoldsDistinctIds :
    (env : Env) (f : Files) (r : Request) (id action : Text) (cs : List ClientConfig)
    → HoldsDistinctIds f.clients
    → HasDistinctIds cs
    → HoldsDistinctIds (act_on_clients env f r id action cs).0.clients
unfolding act_on_clients
act_on_clients-HoldsDistinctIds env f r id action cs h d =
    elim (Bool-cases (same action (codes "disable"))) [
      | inl a ↦
          rw a
            (save_clients-HoldsDistinctIds env f _ _ h (set_disabled-HasDistinctIds true id cs d))
      | inr a ↦ elim (Bool-cases (same action (codes "enable"))) [
        | inl b ↦
            rw (a, b)
              (save_clients-HoldsDistinctIds env f _ _ h
                (set_disabled-HasDistinctIds false id cs d))
        | inr b ↦ elim (Bool-cases (same action (codes "limits"))) [
          | inl l ↦ elim (Result-cases (set_limits r.limits id cs)) [
            | inl (x, e) ↦ rw (a, b, l, e) h
            | inr (ds, e) ↦
                rw (a, b, l, e)
                  (save_clients-HoldsDistinctIds env f _ ds h
                    (set_limits-HasDistinctIds r.limits id cs ds d e))
          ]
          | inr l ↦ elim (Bool-cases (same action (codes "revoke"))) [
            | inl v ↦ rw (a, b, l, v) (subst HoldsDistinctIds (sym (revoke-clients env f id)) h)
            | inr v ↦ elim (Bool-cases (same action (codes "unrevoke"))) [
              | inl u ↦
                  rw (a, b, l, v, u) (subst HoldsDistinctIds (sym (unrevoke-clients env f id)) h)
              | inr u ↦ rw (a, b, l, v, u) h
            ]
          ]
        ]
      ]
    ]

client_action-HoldsDistinctIds :
    (env : Env) (f : Files) (r : Request)
    → HoldsDistinctIds f.clients
    → HoldsDistinctIds (client_action env f r).0.clients
unfolding client_action read_client_file
client_action-HoldsDistinctIds env f r h = elim (Option-cases (parse_client_action r.path)) [
  | inl n ↦ rw (n, client_action) h
  | inr ((id, action), p) ↦ elim (Result-cases (clients_of f.clients)) [
    | inl (x, e) ↦ rw (p, client_action, e) h
    | inr (cs, e) ↦
        rw (p, client_action, e)
          (act_on_clients-HoldsDistinctIds env f r id action cs h
            (clients_of-HasDistinctIds f.clients cs h e))
  ]
]

approve-HoldsDistinctIds :
    (s : Settings) (env : Env) (f : Files) (id : Text) (reg : EdgeRegistration)
    (regs : List EdgeRegistration) (cs : List ClientConfig)
    → HoldsDistinctIds f.clients
    → HasDistinctIds cs
    → HoldsDistinctIds (approve s env f id reg regs cs).0.clients
unfolding approve write_client_file write_registrations new_config
approve-HoldsDistinctIds s env f id reg regs cs h d = elim (Bool-cases (any (has_id id) cs)) [
  | inl taken ↦ rw taken h
  | inr free ↦
      let grown = append-HasDistinctIds (new_config env id) cs d free in
      elim (Bool-cases env.can_write_clients) [
        | inr w ↦ rw (free, w) h
        | inl w ↦ elim (Bool-cases env.can_write_registrations) [
          | inl w' ↦ rw (free, w, w') grown
          | inr w' ↦ rw (free, w, w') grown
        ]
      ]
]

reject-clients :
    (env : Env) (f : Files) (id : Text) (regs : List EdgeRegistration)
    → (reject env f id regs).0.clients ≡ f.clients
unfolding reject write_registrations
reject-clients env f id regs = ground arith

decide_registration-HoldsDistinctIds :
    (s : Settings) (env : Env) (f : Files) (id action : Text) (regs : List EdgeRegistration)
    (cs : List ClientConfig)
    → HoldsDistinctIds f.clients
    → HasDistinctIds cs
    → HoldsDistinctIds (decide_registration s env f id action regs cs).0.clients
unfolding decide_registration
decide_registration-HoldsDistinctIds s env f id action regs cs h d =
    elim (Option-cases (find (registers id) regs)) [
      | inl n ↦ rw (n, decide_registration) h
      | inr (reg, found) ↦ elim (Bool-cases (same action (codes "approve"))) [
        | inl a ↦
            rw (found, decide_registration, a) (approve-HoldsDistinctIds s env f id reg regs cs h d)
        | inr a ↦ elim (Bool-cases (same action (codes "reject"))) [
          | inl b ↦
              rw (found, decide_registration, a, b)
                (subst HoldsDistinctIds (sym (reject-clients env f id regs)) h)
          | inr b ↦ rw (found, decide_registration, a, b) h
        ]
      ]
    ]

registration_action-HoldsDistinctIds :
    (s : Settings) (env : Env) (f : Files) (r : Request)
    → HoldsDistinctIds f.clients
    → HoldsDistinctIds (registration_action s env f r).0.clients
unfolding registration_action read_client_file
registration_action-HoldsDistinctIds s env f r h =
    elim (Option-cases (parse_registration_action r.path)) [
      | inl n ↦ rw (n, registration_action) h
      | inr ((id, action), p) ↦ elim (Result-cases (read_registrations f)) [
        | inl (x, e) ↦ rw (p, registration_action, e) h
        | inr (regs, e) ↦ elim (Result-cases (clients_of f.clients)) [
          | inl (x, e') ↦ rw (p, registration_action, e, e') h
          | inr (cs, e') ↦
              rw (p, registration_action, e, e')
                (decide_registration-HoldsDistinctIds s env f id action regs cs h
                  (clients_of-HasDistinctIds f.clients cs h e'))
        ]
      ]
    ]

serve_console-HoldsDistinctIds :
    (s : Settings) (f : Files) (route : Route) (admin : Bool) (env : Env) (r : Request)
    → HoldsDistinctIds f.clients
    → HoldsDistinctIds (serve_console s f route admin env r).0.clients
unfolding serve_console require_admin
serve_console-HoldsDistinctIds s f post_register admin env r h =
    subst HoldsDistinctIds (sym (register_edge-clients env f r)) h
serve_console-HoldsDistinctIds s f post_install admin env r h =
    subst HoldsDistinctIds (sym (verify_install-clients env f r)) h
serve_console-HoldsDistinctIds s f get_install admin env r h =
    subst HoldsDistinctIds (sym (install_edge-clients s env f r)) h
serve_console-HoldsDistinctIds s f post_client false env r h = h
serve_console-HoldsDistinctIds s f post_client true env r h =
    client_action-HoldsDistinctIds env f r h
serve_console-HoldsDistinctIds s f post_registration false env r h = h
serve_console-HoldsDistinctIds s f post_registration true env r h =
    registration_action-HoldsDistinctIds s env f r h

-- If the client file starts with no id twice, it has no id twice after any history of calls, writes
-- that fail included.
pub history-HoldsDistinctIds :
    (s : Settings) (f : Files) (cs : List Call)
    → HoldsDistinctIds f.clients
    → HoldsDistinctIds (history s f cs).clients
unfolding history
history-HoldsDistinctIds s f [] h = h
history-HoldsDistinctIds s f (c ∷ cs) h =
    history-HoldsDistinctIds s (serve_console s f c.route c.admin c.env c.request).0 cs
      (serve_console-HoldsDistinctIds s f c.route c.admin c.env c.request h)
