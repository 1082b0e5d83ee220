-- ===== src/Edge/Routes/Hosts.antt =====
-- The host sets of plugin routes, against the names of certificates.
use myzerossl.Prelude.{
  true, ◌||◌, ◌≡◌, ◌↔◌, refl, sym, ◌∙◌, List, [], ◌∷◌, any, any-Exists, Exists, arith,
}
use myzerossl.Text.{Text}
use myzerossl.Map.{member}
use myzerossl.Edge.Certificates.{certificate_name_matches}
use myzerossl.Edge.Certificates.Names.{NameFits, certificate_name_matches_exact}
use myzerossl.Edge.Routes.{wildcard_matches, host_set_matches}

covered :
    (hosts : List Text) (host : Text)
    → (member host hosts || any (wildcard_matches host) hosts)
      ≡ any (λ pattern. certificate_name_matches pattern host) hosts
unfolding member wildcard_matches certificate_name_matches
covered [] host = refl
covered (pattern ∷ hosts) host = ground (arith, covered hosts host)

-- A host set covers a host exactly if a certificate with the same names is one for that host.
pub host_set_matches_same :
    (hosts : List Text) (host : Text)
    → host_set_matches hosts host ≡ any (λ pattern. certificate_name_matches pattern host) hosts
unfolding host_set_matches
host_set_matches_same hosts host = covered hosts host

pub host_set_matches_exact :
    (hosts : List Text) (host : Text)
    → (host_set_matches hosts host ≡ true) ↔ Exists (λ pattern. NameFits pattern host) hosts
host_set_matches_exact hosts host =
    let exact =
      any-Exists (λ pattern. NameFits pattern host)
        (λ pattern. certificate_name_matches pattern host) hosts
        (λ pattern. certificate_name_matches_exact pattern host) in
    let e = host_set_matches_same hosts host in ((λ h. exact.0 (sym e ∙ h)), (λ h. e ∙ exact.1 h))
