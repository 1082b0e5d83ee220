-- ===== src/Tests/Wizard.antt =====
-- cmd/setup-wizard/main.go at concrete inputs.
use myzerossl.Prelude.{true, [], ◌∷◌, Option, none, ◌≡◌, refl, any}
use myzerossl.Prelude.Result.{ok}
use myzerossl.Text.{Text, codes, Text-discrete, replace_all}
use mathlib.Core.List.{Perm}
use myzerossl.Map.{Map, keys, lookup}
use myzerossl.Wizard.EnvFile.{
  less, sink, sort_from, sorted_keys, env_quote, env_line, env_lines, env_text,
}
use myzerossl.Wizard.Sorted.{IsSorted, sorted_keys_lem}
use myzerossl.Wizard.Plan.{Action, write_file}
use myzerossl.Wizard.EdgeNode.{edge_id, edge_env}
use myzerossl.Wizard.Install.{apply_form}
use myzerossl.Wizard.Order.{is_systemctl}
use myzerossl.Wizard.Prepared.{IsPrepared, apply_form-IsPrepared}

abbrev values : Map Text
values = (codes "B", codes "a\"\\\n") ∷ (codes "A", codes "x=y") ∷ (codes "AB", []) ∷ []

written : env_text values ≡ codes "A=\"x=y\"\nAB=\"\"\nB=\"a\\\"\\\\\n\"\n"
unfolding env_text env_lines env_line env_quote replace_all sorted_keys sort_from sink less lookup
    Text-discrete
written = refl

abbrev fine : Action → Option Text
fine a = none

abbrev form : Map Text
form = (codes "role", codes "edge") ∷ []

touched :
    any is_systemctl (apply_form fine (codes "/opt/r") (codes "s3cret") none (ok form)).log ≡ true
unfolding apply_form myzerossl.Wizard.Install.install_edge myzerossl.Wizard.EdgeNode.edge_files
    myzerossl.Wizard.EdgeNode.edge_services myzerossl.Wizard.Plan.perform
    myzerossl.Wizard.Plan.attempt myzerossl.Wizard.Plan.ensure_user myzerossl.Wizard.Plan.mkdirs
    myzerossl.Wizard.Plan.copy_file myzerossl.Wizard.Plan.write_text is_systemctl lookup
    Text-discrete
touched = refl

apply_form-IsPrepared_example : IsPrepared fine (codes "/opt/r") (codes "s3cret") none form
apply_form-IsPrepared_example =
    apply_form-IsPrepared fine (codes "/opt/r") (codes "s3cret") none form touched

sorted_keys_lem_example : IsSorted (sorted_keys values) × Perm (sorted_keys values) (keys values)
sorted_keys_lem_example = sorted_keys_lem values
