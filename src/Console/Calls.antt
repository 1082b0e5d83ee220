-- ===== src/Console/Calls.antt =====
-- Histories of calls to the console: each handler holds the mutex, so requests that run at the same
-- time are a list of steps.
use myzerossl.Prelude.{Bool, List, [], ◌∷◌, if◌then◌else◌}
use myzerossl.Text.{codes}
use myzerossl.Console.State.{Request, Settings, Env, Files, Reply, failure}
use myzerossl.Console.Clients.{client_action}
use myzerossl.Console.Registrations.{register_edge, registration_action}
use myzerossl.Console.Install.{install_edge, verify_install}

-- `requireAdmin`: whether `currentUser` finds an administrator is known with the request.
unfoldable pub require_admin :
    Bool → (Files → Request → Files × Reply) → Files → Request → Files × Reply
require_admin admin next f r = if admin then next f r else (f, failure 401 (codes "unauthorized"))

pub data Route : Type 0 where
  post_register post_install get_install post_client post_registration : Route

pub record Call : Type 0 where
  pub route : Route
  pub admin : Bool
  pub env : Env
  pub request : Request

unfoldable pub serve_console : Settings → Files → Route → Bool → Env → Request → Files × Reply
serve_console s f post_register admin env r = register_edge env f r
serve_console s f post_install admin env r = verify_install env f r
serve_console s f get_install admin env r = install_edge s env f r
serve_console s f post_client admin env r = require_admin admin (client_action env) f r
serve_console s f post_registration admin env r =
    require_admin admin (registration_action s env) f r

unfoldable pub history : Settings → Files → List Call → Files
history s f [] = f
history s f (c ∷ cs) = history s (serve_console s f c.route c.admin c.env c.request).0 cs
