-- ===== src/Wizard/Prepared.antt =====
-- What is there when an installation touches the services.
use myzerossl.Prelude.{
  true, false, ◌≡◌, ◌⊎◌, inl, inr, sym, ap, ◌∙◌, List, ◌++◌, Option, any, arith, Bool-cases,
}
use myzerossl.Prelude.Result.{ok}
use myzerossl.Text.{Text, codes, same}
use myzerossl.Map.{Map, lookup}
use myzerossl.Wizard.EnvFile.{value_or_empty}
use myzerossl.Wizard.Plan.{Action, perform}
use myzerossl.Wizard.Installed.{
  IsEdgeInstalled, IsTrustedInstalled, edge_files-IsEdgeInstalled, trusted_files-IsTrustedInstalled,
}
use myzerossl.Wizard.EdgeNode.{edge_id, edge_files, edge_services}
use myzerossl.Wizard.Trusted.{trusted_files, trusted_services}
use myzerossl.Wizard.Install.{install_edge, install_trusted, apply_form}
use myzerossl.Wizard.Order.{is_systemctl, edge_files-spares, trusted_files-spares, services_last}

module _ (outcome : Action → Option Text) (repo secret : Text) (host : Option Text) where
  -- What was done first, without a call of systemctl, and what came after it
  abbrev pub StartsBy : List Action → (List Action → Type 0) → Type 0
  StartsBy log Installed =
      (before : List Action) × (after : List Action) × (log ≡ before ++ after)
      × (any is_systemctl before ≡ false)
      × Installed before

  -- All that had to be there before a service is touched, for the role of the form
  abbrev pub IsPrepared : Map Text → Type 0
  IsPrepared form =
      let log = (apply_form outcome repo secret host (ok form)).log in
      ((value_or_empty (lookup (codes "role") form) ≡ codes "edge")
        × StartsBy log (λ l. IsEdgeInstalled outcome l repo form (edge_id form host) secret))
      ⊎ ((value_or_empty (lookup (codes "role") form) ≡ codes "trusted")
          × StartsBy log (λ l. IsTrustedInstalled outcome l repo form secret))

  install_edge-log :
      (form : Map Text)
      → (install_edge outcome repo secret form host).log
        ≡ (perform outcome (edge_files repo form (edge_id form host) secret ++ edge_services)).log
  unfolding install_edge
  install_edge-log form = ground arith

  install_trusted-log :
      (form : Map Text)
      → (install_trusted outcome repo secret form).log
        ≡ (perform outcome (trusted_files repo form secret ++ trusted_services)).log
  unfolding install_trusted
  install_trusted-log form = ground arith

  edge-log :
      (form : Map Text)
      → same (value_or_empty (lookup (codes "role") form)) (codes "edge") ≡ true
      → (apply_form outcome repo secret host (ok form)).log
        ≡ (perform outcome (edge_files repo form (edge_id form host) secret ++ edge_services)).log
  unfolding apply_form
  edge-log form e = rw e (install_edge-log form)

  trusted-log :
      (form : Map Text)
      → same (value_or_empty (lookup (codes "role") form)) (codes "edge") ≡ false
      → same (value_or_empty (lookup (codes "role") form)) (codes "trusted") ≡ true
      → (apply_form outcome repo secret host (ok form)).log
        ≡ (perform outcome (trusted_files repo form secret ++ trusted_services)).log
  unfolding apply_form
  trusted-log form n e = rw (n, e) (install_trusted-log form)

  no-log :
      (form : Map Text)
      → same (value_or_empty (lookup (codes "role") form)) (codes "edge") ≡ false
      → same (value_or_empty (lookup (codes "role") form)) (codes "trusted") ≡ false
      → any is_systemctl (apply_form outcome repo secret host (ok form)).log ≡ false
  unfolding apply_form
  no-log form n m = rw (n, m)

  -- When applying a form calls systemctl at all, all of this was done before without an error: the user
  -- was found or made, the directories of the role were made, its binaries and units were opened, created,
  -- copied and given their modes, and its environment files were written with the settings of the form.
  pub apply_form-IsPrepared :
      (form : Map Text)
      → any is_systemctl (apply_form outcome repo secret host (ok form)).log ≡ true
      → IsPrepared form
  apply_form-IsPrepared form touched =
      let role = value_or_empty (lookup (codes "role") form) in
      let id = edge_id form host in
      elim (Bool-cases (same role (codes "edge"))) [
        | inl e ↦
            let log = edge-log form e in
            let files = edge_files repo form id secret in
            let calls = sym (ap (any is_systemctl) log) ∙ touched in
            let (shape, free, done) =
              services_last outcome files edge_services (edge_files-spares repo form id secret)
                calls in
            let before = (perform outcome files).log in
            inl (
              ground arith,
              (
                before,
                (perform outcome edge_services).log,
                log ∙ shape,
                free,
                edge_files-IsEdgeInstalled outcome before repo form id secret done,
              ),
            )
        | inr n ↦ elim (Bool-cases (same role (codes "trusted"))) [
          | inl e ↦
              let log = trusted-log form n e in
              let files = trusted_files repo form secret in
              let calls = sym (ap (any is_systemctl) log) ∙ touched in
              let (shape, free, done) =
                services_last outcome files trusted_services (trusted_files-spares repo form secret)
                  calls in
              let before = (perform outcome files).log in
              inr (
                ground arith,
                (
                  before,
                  (perform outcome trusted_services).log,
                  log ∙ shape,
                  free,
                  trusted_files-IsTrustedInstalled outcome before repo form secret done,
                ),
              )
          | inr m ↦ let none_called = no-log form n m in absurd (ground arith)
        ]
      ]
