-- ===== src/Edge/Certificates/Choice.antt =====
-- Which certificate a handshake gets.
use myzerossl.Prelude.{
  Bool, true, not, ◌&&◌, ◌||◌, ◌≡◌, ◌≢◌, ◌↔◌, ◌⊎◌, inl, inr, refl, ap, List, [], ◌∷◌, ◌++◌, Option,
  none, some, arith, is_empty, All, any, any-Exists, Exists, not-exact, or-exact, Bool-cases,
}
use myzerossl.Prelude.Result.{Result, ok, err}
use myzerossl.Text.{Text, codes, same}
use myzerossl.Map.{member, add}
use myzerossl.Edge.Certificates.{
  clean_host, Leaf, Certificate, add_name, add_names, certificate_name_patterns,
  certificate_name_matches, serves, first_serving, or_unrecognized, select_certificate,
}
use myzerossl.Edge.Certificates.Names.{NameFits, certificate_name_matches_exact}

-- A name of a certificate stands for a host: cleaned, it is not empty and fits.
abbrev pub Covers : Text → Text → Type 0
Covers host name = (clean_host name ≢ []) × NameFits (clean_host name) host

-- The certificate has a parsed leaf with a DNS name, or a common name, that stands for the host.
abbrev pub CoversHost : Text → Option Leaf → Type 0
CoversHost host none = ⊥
CoversHost host (some leaf) = Covers host leaf.common_name ⊎ Exists (Covers host) leaf.dns_names

any-append : (p : Text → Bool) (s t : List Text) → any p (s ++ t) ≡ (any p s || any p t)
any-append p [] t = refl
any-append p (x ∷ s) t = ground (arith, any-append p s t)

any-member :
    (p : Text → Bool) (k : Text) (s : List Text) → member k s ≡ true → p k ≡ true → any p s ≡ true
unfolding member
any-member p k [] h q = cc
any-member p k (j ∷ s) h q = elim (Bool-cases (same j k)) [
  | inl e ↦ let here : j ≡ k = ground arith in ground (arith, ap p here)
  | inr e ↦ ground (arith, any-member p k s)
]

any-add : (p : Text → Bool) (k : Text) (s : List Text) → any p (add k s) ≡ (p k || any p s)
unfolding add
any-add p k s = ground (arith, any-append p s (k ∷ []), any-member p k s)

covers : Text → Text → Bool
covers host name =
    not (is_empty (clean_host name)) && certificate_name_matches (clean_host name) host

any-add_name :
    (host name : Text) (seen : List Text)
    → any (λ pattern. certificate_name_matches pattern host) (add_name name seen)
      ≡ (covers host name || any (λ pattern. certificate_name_matches pattern host) seen)
unfolding add_name covers
any-add_name host name seen =
    ground
      (arith, any-add (λ pattern. certificate_name_matches pattern host) (clean_host name) seen)

any-add_names :
    (host : Text) (names seen : List Text)
    → any (λ pattern. certificate_name_matches pattern host) (add_names names seen)
      ≡ (any (covers host) names || any (λ pattern. certificate_name_matches pattern host) seen)
unfolding add_names
any-add_names host [] seen = refl
any-add_names host (name ∷ names) seen =
    ground (arith, any-add_names host names (add_name name seen), any-add_name host name seen)

covers-exact : (host name : Text) → (covers host name ≡ true) ↔ Covers host name
unfolding covers
covers-exact host name =
    let fits = certificate_name_matches_exact (clean_host name) host in
    (
      (λ e. (ground arith, fits.0 (ground arith))),
      (λ h. let matched = fits.1 h.1 in ground (arith, h.0)),
    )

serves-leaf :
    (host : Text) (leaf : Leaf)
    → serves host (record { leaf = some leaf })
      ≡ (covers host leaf.common_name || any (covers host) leaf.dns_names)
unfolding certificate_name_patterns
serves-leaf host leaf = ground (
  arith,
  any-add_name host leaf.common_name (add_names leaf.dns_names []),
  any-add_names host leaf.dns_names [],
)

serves_leaf_exact :
    (host : Text) (leaf : Option Leaf)
    → (serves host (record { leaf = leaf }) ≡ true) ↔ CoversHost host leaf
unfolding certificate_name_patterns
serves_leaf_exact host none = (λ e. cc, λ h. absurd h)
serves_leaf_exact host (some leaf) = rw (serves-leaf host leaf) (
    or-exact (covers host leaf.common_name) (any (covers host) leaf.dns_names)
      (covers-exact host leaf.common_name)
      (any-Exists (Covers host) (covers host) leaf.dns_names (covers-exact host)))

serves_exact :
    (host : Text) (cert : Certificate) → (serves host cert ≡ true) ↔ CoversHost host cert.leaf
serves_exact host cert = serves_leaf_exact host cert.leaf

-- The first certificate of the list with a name that stands for the host
abbrev pub IsFirstCovering : Text → List Certificate → Certificate → Type 0
IsFirstCovering host certs cert =
    (earlier : List Certificate) × (later : List Certificate) × (certs ≡ earlier ++ cert ∷ later)
    × CoversHost host cert.leaf
    × All (λ c. ¬ CoversHost host c.leaf) earlier

abbrev IsFound : Text → List Certificate → Option Certificate → Type 0
IsFound host certs none = All (λ c. ¬ CoversHost host c.leaf) certs
IsFound host certs (some cert) = IsFirstCovering host certs cert

later-IsFound :
    (host : Text) (c : Certificate) (certs : List Certificate) (o : Option Certificate)
    → ¬ CoversHost host c.leaf
    → IsFound host certs o
    → IsFound host (c ∷ certs) o
later-IsFound host c certs none no_fit h = (no_fit, h)
later-IsFound host c certs (some cert) no_fit (before, after, shape, fits, none_before) =
    (c ∷ before, after, ap (λ l. c ∷ l) shape, fits, (no_fit, none_before))

first_serving-IsFound :
    (host : Text) (certs : List Certificate) → IsFound host certs (first_serving host certs)
unfolding first_serving
first_serving-IsFound host [] = tt
first_serving-IsFound host (c ∷ certs) = elim (Bool-cases (serves host c)) [
  | inl e ↦ rw e ([], certs, refl, (serves_exact host c).0 e, tt)
  | inr e ↦ rw e (
      later-IsFound host c certs (first_serving host certs)
        (not-exact (serves host c) (serves_exact host c) e) (first_serving-IsFound host certs))
]

-- What the selector may answer for a name: the first certificate that covers it, or one of two errors.
abbrev pub IsSelection : List Certificate → Text → Result Certificate → Type 0
IsSelection certs server_name (ok cert) =
    (clean_host server_name ≢ []) × IsFirstCovering (clean_host server_name) certs cert
IsSelection certs server_name (err e) =
    ((clean_host server_name ≡ []) × (e ≡ codes "missing TLS server name"))
    ⊎ ((clean_host server_name ≢ [])
        × All (λ c. ¬ CoversHost (clean_host server_name) c.leaf) certs
        × (e ≡ codes "unrecognized TLS server name"))

or_unrecognized-IsSelection :
    (certs : List Certificate) (server_name : Text) (o : Option Certificate)
    → clean_host server_name ≢ []
    → IsFound (clean_host server_name) certs o
    → IsSelection certs server_name (or_unrecognized o)
or_unrecognized-IsSelection certs server_name none n h = inr (n, h, refl)
or_unrecognized-IsSelection certs server_name (some cert) n h = (n, h)

-- A handshake gets the first certificate of the list of which a DNS name or the common name, cleaned,
-- is the cleaned name of the handshake or a wildcard of a domain of it. If no certificate has such a
-- name the handshake is refused as unrecognized, and if the cleaned name is empty as missing.
pub select_certificate-IsSelection :
    (certs : List Certificate) (server_name : Text)
    → IsSelection certs server_name (select_certificate certs server_name)
unfolding select_certificate
select_certificate-IsSelection certs server_name =
    let host = clean_host server_name in
    elim (Bool-cases (is_empty host)) [
      | inl bad ↦ rw bad (inl (ground arith, refl))
      | inr good ↦ rw good (
          or_unrecognized-IsSelection certs server_name (first_serving host certs)
            (ground (arith, good)) (first_serving-IsFound host certs))
    ]
