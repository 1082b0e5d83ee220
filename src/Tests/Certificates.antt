-- ===== src/Tests/Certificates.antt =====
-- cmd/edgeproxy/main.go, the selection of certificates at concrete inputs.
use myzerossl.Prelude.{[], ◌∷◌, some, ◌≡◌, refl}
use myzerossl.Prelude.Result.{ok}
use myzerossl.Text.{codes, Text-discrete, trim_space, to_lower, cut, has_prefix, has_suffix, split}
use myzerossl.Map.{add, member}
use myzerossl.Edge.Certificates.{
  clean_host, spec_of, specs_of, certificate_specs, Certificate, add_name, add_names,
  certificate_name_patterns, certificate_name_matches, first_serving, select_certificate,
}
use myzerossl.Edge.Certificates.Choice.{IsSelection, select_certificate-IsSelection}

abbrev plain : Certificate
plain = record { leaf = some (record { dns_names = codes "a.test" ∷ []; common_name = [] }) }

abbrev wild : Certificate
wild = record {
  leaf = some (record { dns_names = codes "*.B.test" ∷ []; common_name = codes "b.test" });
}

specs :
    certificate_specs [] (codes "k=/a.pem, /b.pem")
    ≡ record { key_id = codes "k"; path = codes "/a.pem" }
      ∷ record { key_id = []; path = codes "/b.pem" }
      ∷ []
unfolding certificate_specs specs_of spec_of split cut trim_space
specs = refl

selected : select_certificate (plain ∷ wild ∷ []) (codes "X.y.b.test") ≡ ok wild
unfolding select_certificate first_serving clean_host certificate_name_patterns
    certificate_name_matches add_name add_names add member Text-discrete trim_space to_lower cut
    has_prefix has_suffix
selected = refl

select_certificate-IsSelection_example :
    IsSelection
      (plain ∷ wild ∷ [])
      (codes "X.y.b.test")
      (select_certificate (plain ∷ wild ∷ []) (codes "X.y.b.test"))
select_certificate-IsSelection_example =
    select_certificate-IsSelection (plain ∷ wild ∷ []) (codes "X.y.b.test")
