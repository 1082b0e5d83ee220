-- ===== src/Edge/Certificates.antt =====
-- cmd/edgeproxy/main.go: the list of certificates, and which of them a TLS handshake gets. A parsed
-- certificate is what `certificateNamePatterns` reads of its leaf.
pub mod Names
pub mod Choice
pub mod Files
use myzerossl.Prelude.{
  ℕ, Bool, true, false, not, ◌&&◌, ◌||◌, List, [], ◌∷◌, ◌++◌, Option, none, some, if◌then◌else◌,
  is_empty, any, drop,
}
use myzerossl.Prelude.Result.{Result, ok, err}
use myzerossl.Text.{Text, codes, same, trim_space, to_lower, cut, split, has_prefix, has_suffix}
use myzerossl.Map.{add}

pub record CertificateSpec : Type 0 where
  pub key_id : Text
  pub path : Text

unfoldable pub clean_host : Text → Text
clean_host value =
    let lowered = to_lower (trim_space value) in
    let pieces = cut b':' lowered in if pieces.found then pieces.before else lowered

-- One item of the list: without a key it is the path alone
unfoldable pub spec_of : Text → CertificateSpec
spec_of raw =
    let pieces = cut b'=' raw in
    if pieces.found
    then record { key_id = trim_space pieces.before; path = trim_space pieces.after }
    else record { key_id = trim_space []; path = trim_space pieces.before }

unfoldable pub specs_of : List Text → List CertificateSpec
specs_of [] = []
specs_of (item ∷ items) =
    let rest = specs_of items in
    let raw = trim_space item in if is_empty raw then rest else spec_of raw ∷ rest

unfoldable pub certificate_specs : Text → Text → List CertificateSpec
certificate_specs single_path multi_value =
    if not (is_empty (trim_space multi_value))
    then specs_of (split b',' multi_value)
    else if not (is_empty (trim_space single_path))
    then record { key_id = []; path = trim_space single_path } ∷ []
    else []

-- The leaf of a certificate
pub record Leaf : Type 0 where
  pub dns_names : List Text
  pub common_name : Text

pub record Certificate : Type 0 where
  pub leaf : Option Leaf

unfoldable pub add_name : Text → List Text → List Text
add_name value seen = let name = clean_host value in if is_empty name then seen else add name seen

unfoldable pub add_names : List Text → List Text → List Text
add_names [] seen = seen
add_names (name ∷ names) seen = add_names names (add_name name seen)

-- The names in one order of Go's map
unfoldable pub certificate_name_patterns : Certificate → List Text
certificate_name_patterns cert = elim (cert.leaf) [
  | none ↦ []
  | some leaf ↦ add_name leaf.common_name (add_names leaf.dns_names [])
]

unfoldable pub certificate_name_matches : Text → Text → Bool
certificate_name_matches pattern host =
    if same pattern host
    then true
    else if has_prefix (codes "*.") pattern
    then has_suffix (drop 1 pattern) host && not (same host (drop 2 pattern))
    else false

abbrev pub serves : Text → Certificate → Bool
serves host cert =
    any (λ pattern. certificate_name_matches pattern host) (certificate_name_patterns cert)

-- The loop of the selector
unfoldable pub first_serving : Text → List Certificate → Option Certificate
first_serving host [] = none
first_serving host (cert ∷ certs) =
    let rest = first_serving host certs in if serves host cert then some cert else rest

abbrev pub or_unrecognized : Option Certificate → Result Certificate
or_unrecognized none = err (codes "unrecognized TLS server name")
or_unrecognized (some cert) = ok cert

unfoldable pub select_certificate : List Certificate → Text → Result Certificate
select_certificate certs server_name =
    let host = clean_host server_name in
    if is_empty host
    then err (codes "missing TLS server name")
    else or_unrecognized (first_serving host certs)
