-- ===== src/Edge/Certificates/Names.antt =====
-- Which hosts the names of certificates, and the host patterns of routes, stand for.
use myzerossl.Prelude.{
  ℕ, zero, suc, ◌-◌, true, ◌≡◌, ◌≢◌, ◌↔◌, ◌⊎◌, inl, inr, refl, sym, ◌∙◌, ap, [], ◌∷◌, ◌++◌, arith,
  drop, length, length-append, Bool-cases,
}
use myzerossl.Text.{Text, codes, same, has_prefix, has_suffix, take_text}
use myzerossl.Text.Laws.{has_suffix-append}
use myzerossl.Edge.Certificates.{certificate_name_matches}

take_text-drop : (n : ℕ) (s : Text) → take_text n s ++ drop n s ≡ s
take_text-drop zero s = refl
take_text-drop (suc n) [] = refl
take_text-drop (suc n) (c ∷ s) = ap (λ t. c ∷ t) (take_text-drop n s)

has_suffix_sound : (p s : Text) → has_suffix p s ≡ true → (a : Text) × (s ≡ a ++ p)
unfolding has_suffix
has_suffix_sound p s h =
    let e : drop (length s - length p) s ≡ p = ground arith in
    (
      take_text (length s - length p) s,
      sym (take_text-drop (length s - length p) s)
          ∙ ap (λ t. take_text (length s - length p) s ++ t) e,
    )

-- A pattern that stands for all names below a domain
abbrev pub wildcard : Text → Text
wildcard domain = b'*' ∷ b'.' ∷ domain

wildcard-cases :
    (pattern : Text)
    → has_prefix (codes "*.") pattern ≡ true
    → (domain : Text) × (pattern ≡ wildcard domain)
unfolding has_prefix
wildcard-cases [] h = cc
wildcard-cases (a ∷ []) h = absurd (ground arith)
wildcard-cases (a ∷ b ∷ domain) h = (domain, ground arith)

longer : (a domain : Text) → a ++ b'.' ∷ domain ≢ domain
longer a domain e = absurd (omega (arith, ap length e, length-append a (b'.' ∷ domain)))

matches_sound :
    (pattern host : Text)
    → certificate_name_matches pattern host ≡ true
    → (pattern ≡ host)
      ⊎ ((domain : Text) × (a : Text) × (pattern ≡ wildcard domain) × (host ≡ a ++ b'.' ∷ domain))
unfolding certificate_name_matches
matches_sound pattern host h = elim (Bool-cases (same pattern host)) [
  | inl e ↦ inl (ground arith)
  | inr n ↦ elim (Bool-cases (has_prefix (codes "*.") pattern)) [
    | inr bad ↦ absurd (ground arith)
    | inl good ↦
        let (domain, e) = wildcard-cases pattern good in
        let ends : has_suffix (drop 1 pattern) host ≡ true = ground arith in
        let (a, q) = has_suffix_sound (b'.' ∷ domain) host (rw (← ap (drop 1) e) ends) in
        inr (domain, a, e, q)
  ]
]

wildcard-matches :
    (domain a : Text) → certificate_name_matches (wildcard domain) (a ++ b'.' ∷ domain) ≡ true
unfolding certificate_name_matches has_prefix
wildcard-matches domain a = ground (arith, has_suffix-append a (b'.' ∷ domain), longer a domain)

same-matches : (pattern : Text) → certificate_name_matches pattern pattern ≡ true
unfolding certificate_name_matches
same-matches pattern = ground arith

-- The pattern is the host, or a wildcard of a domain of it.
abbrev pub NameFits : Text → Text → Type 0
NameFits pattern host =
    (pattern ≡ host)
    ⊎ ((domain : Text) × (a : Text) × (pattern ≡ wildcard domain) × (host ≡ a ++ b'.' ∷ domain))

-- A pattern fits a host exactly if it is the host, or if it is a wildcard of a domain and the host is
-- any text, a full stop and the domain: a wildcard covers names of every depth.
pub certificate_name_matches_exact :
    (pattern host : Text)
    → (certificate_name_matches pattern host ≡ true) ↔ (
        (pattern ≡ host)
        ⊎ ((domain : Text) × (a : Text) × (pattern ≡ wildcard domain)
            × (host ≡ a ++ b'.' ∷ domain)))
certificate_name_matches_exact pattern host = (
  matches_sound pattern host,
  (λ h. elim h [
    | inl e ↦ rw e (same-matches host)
    | inr (domain, a, e, q) ↦ rw (e, q) (wildcard-matches domain a)
  ]),
)
