-- ===== src/Wizard/Order.antt =====
-- In which order an installation goes.
use myzerossl.Prelude.{
  Bool, true, false, not, ◌&&◌, ◌||◌, ◌≡◌, inl, inr, refl, sym, ap, ◌∙◌, List, [], ◌∷◌, ◌++◌,
  Option, All, all, any, arith, Option-cases,
}
use mathlib.Core.List.{append_assoc}
use myzerossl.Text.{Text, codes, same, Text-discrete}
use myzerossl.Map.{Map}
use myzerossl.Wizard.Plan.{
  Action, run, mkdir_all, open_file, create, copy, chmod, write_file, stat, Step, required, ignored,
  or_required, or_ignored, Performed, ensure_user, mkdirs, copy_file, write_text, attempt, followed,
  perform,
}
use myzerossl.Wizard.Finished.{Finished, perform-Finished}
use myzerossl.Wizard.EdgeNode.{edge_files}
use myzerossl.Wizard.Trusted.{trusted_files}

-- The action is a call of systemctl.
unfoldable pub is_systemctl : Action → Bool
unfolding Text-discrete
is_systemctl (run name args) = same name (codes "systemctl")
is_systemctl (mkdir_all path mode) = false
is_systemctl (open_file path) = false
is_systemctl (create path mode) = false
is_systemctl (copy src dst) = false
is_systemctl (chmod path mode) = false
is_systemctl (write_file path text mode) = false
is_systemctl (stat path) = false

unfoldable pub spares : Step → Bool
spares (required a) = not (is_systemctl a)
spares (ignored a) = not (is_systemctl a)
spares (or_required a b) = not (is_systemctl a) && not (is_systemctl b)
spares (or_ignored a b) = not (is_systemctl a) && not (is_systemctl b)

any-append : (p : Action → Bool) (a b : List Action) → any p (a ++ b) ≡ (any p a || any p b)
any-append p [] b = refl
any-append p (x ∷ a) b = ground (arith, any-append p a b)

module _ (outcome : Action → Option Text) where
  followed_assoc :
      (a b c : Performed)
      → followed outcome (followed outcome a b) c ≡ followed outcome a (followed outcome b c)
  followed_assoc a b c = ground (arith, append_assoc a.log b.log c.log)

  perform-append :
      (a b : List Step)
      → perform outcome (a ++ b) ≡ followed outcome (perform outcome a) (perform outcome b)
  unfolding perform
  perform-append [] b = refl
  perform-append (s ∷ a) b =
      ap (followed outcome (attempt outcome s)) (perform-append a b)
      ∙ sym (followed_assoc (attempt outcome s) (perform outcome a) (perform outcome b))

  attempt-spares : (s : Step) → spares s ≡ true → any is_systemctl (attempt outcome s).log ≡ false
  unfolding attempt spares
  attempt-spares (required a) h = ground arith
  attempt-spares (ignored a) h = ground arith
  attempt-spares (or_required a b) h = ground arith
  attempt-spares (or_ignored a b) h = ground arith

  perform-spares :
      (steps : List Step)
      → all spares steps ≡ true
      → any is_systemctl (perform outcome steps).log ≡ false
  unfolding perform
  perform-spares [] h = refl
  perform-spares (s ∷ steps) h =
      let first = attempt-spares s (ground arith) in
      let rest = perform-spares steps (ground arith) in
      ground (arith, any-append is_systemctl (attempt outcome s).log (perform outcome steps).log)

  pub services_last :
      (files services : List Step)
      → all spares files ≡ true
      → any is_systemctl (perform outcome (files ++ services)).log ≡ true
      → ((perform outcome (files ++ services)).log
          ≡ (perform outcome files).log ++ (perform outcome services).log)
        × (any is_systemctl (perform outcome files).log ≡ false)
        × All (Finished outcome (perform outcome files).log) files
  services_last files services free touched =
      let shape = perform-append files services in
      let before = perform-spares files free in
      elim (Option-cases (perform outcome files).error) [
        | inl e ↦ (ground arith, before, perform-Finished outcome files e)
        | inr (m, e) ↦ absurd (ground arith)
      ]

pub edge_files-spares :
    (repo : Text) (form : Map Text) (id secret : Text)
    → all spares (edge_files repo form id secret) ≡ true
unfolding edge_files ensure_user mkdirs copy_file write_text spares is_systemctl
edge_files-spares repo form id secret = refl

pub trusted_files-spares :
    (repo : Text) (form : Map Text) (secret : Text)
    → all spares (trusted_files repo form secret) ≡ true
unfolding trusted_files ensure_user mkdirs copy_file write_text spares is_systemctl
trusted_files-spares repo form secret = refl
