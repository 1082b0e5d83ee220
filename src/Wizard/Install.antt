-- ===== src/Wizard/Install.antt =====
-- cmd/setup-wizard/main.go: `apply`, `installEdge` and `installTrusted`. The form is what was sent,
-- `secret` is what `secret()` draws, and the path of the repository is a clean one.
use myzerossl.Prelude.{List, [], ◌∷◌, ◌++◌, Option, none, some, if◌then◌else◌}
use myzerossl.Prelude.Result.{Result, ok, err}
use myzerossl.Text.{Text, codes, same}
use myzerossl.Map.{Map, lookup}
use myzerossl.Wizard.EnvFile.{value_or_empty}
use myzerossl.Wizard.Plan.{Action, Performed, perform}
use myzerossl.Wizard.EdgeNode.{value, edge_id, edge_files, edge_services}
use myzerossl.Wizard.Trusted.{console_url, keyless_url, trusted_files, trusted_services}

pub record Report : Type 0 where
  pub title : Text
  pub lines : List Text

unfoldable pub edge_report : Text → Report
edge_report id = record {
  title = codes "Edge configured";
  lines =
      codes "Place certificate and mTLS files on this edge, then run: systemctl restart edgeproxy"
      ∷ (codes "Approve edge id " ++ (id ++ codes " in the trusted console."))
      ∷ codes
          "After approval, edgeproxy will fetch its signer token over HTTPS, store it in /var/lib/memecdn/keyless.token, verify with the signer, and start serving."
      ∷ [];
}

unfoldable pub trusted_report : Map Text → Report
trusted_report form = record {
  title = codes "Trusted center deployed";
  lines =
      (codes "Expose http://127.0.0.1:19444 as " ++ console_url form)
      ∷ (codes "Expose http://"
          ++ (value form (codes "trusted_keyless_listen") (codes "127.0.0.1:19443")
              ++ (codes " as " ++ keyless_url form)))
      ∷ (codes "Configure edges with EDGE_REGISTER_URL=" ++ console_url form)
      ∷ (codes "Configure edges with KEYLESS_URL=" ++ keyless_url form)
      ∷ [];
}

-- What was done, and what the page shows
pub record Applied : Type 0 where
  pub log : List Action
  pub shown : Result Report

abbrev pub applied : Report → Performed → Applied
applied report done = elim (done.error) [
  | none ↦ record { log = done.log; shown = ok report }
  | some e ↦ record { log = done.log; shown = err e }
]

module _ (outcome : Action → Option Text) (repo secret : Text) where
  unfoldable pub install_edge : Map Text → Option Text → Applied
  install_edge form host =
      let id = edge_id form host in
      applied (edge_report id) (perform outcome (edge_files repo form id secret ++ edge_services))

  unfoldable pub install_trusted : Map Text → Applied
  install_trusted form =
      applied (trusted_report form)
        (perform outcome (trusted_files repo form secret ++ trusted_services))

  -- The form, or the error of parsing it
  unfoldable pub apply_form : Option Text → Result (Map Text) → Applied
  apply_form host (err e) = record { log = []; shown = err e }
  apply_form host (ok form) =
      let role = value_or_empty (lookup (codes "role") form) in
      if same role (codes "edge")
      then install_edge form host
      else if same role (codes "trusted")
      then install_trusted form
      else record { log = []; shown = err (codes "unknown role ") }
