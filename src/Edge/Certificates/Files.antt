-- ===== src/Edge/Certificates/Files.antt =====
-- cmd/edgeproxy/main.go: the certificates of the edge node from their files, each with the remote signer
-- of its key. A file is its PEM blocks; the parser of certificates is a parameter.
use myzerossl.Prelude.{
  ◌≡◌, ◌≢◌, refl, ap, ◌∙◌, List, [], ◌∷◌, ◌++◌, Option, arith, if◌then◌else◌, is_empty,
}
use myzerossl.Prelude.Result.{
  Result, ok, err, ◌>>=◌, bind-inversion, FileRead, missing, failed, contents,
}
use myzerossl.Text.{Text, codes, same}
use myzerossl.Keyless.Base64.{Bytes}
use myzerossl.Keyless.Server.{Response}
use myzerossl.Keyless.Client.{RemoteSigner, set_client_id, BaseUrl, new_remote_signer_for_key}
use myzerossl.Edge.Certificates.{CertificateSpec, Leaf, Certificate}

-- A PEM block: its type and its bytes
pub record Block : Type 0 where
  pub kind : Text
  pub bytes : Bytes

-- The loop over the blocks
unfoldable pub certificate_blocks : List Block → List Bytes
certificate_blocks [] = []
certificate_blocks (b ∷ bs) =
    let rest = certificate_blocks bs in
    if same b.kind (codes "CERTIFICATE") then b.bytes ∷ rest else rest

-- A chain that is not empty
pub record Chain : Type 0 where
  pub leaf_bytes : Bytes
  pub issuers : List Bytes

abbrev pub require_blocks : List Bytes → Result Chain
require_blocks [] = err (codes "certificate file contains no CERTIFICATE blocks")
require_blocks (b ∷ bs) = ok (record { leaf_bytes = b; issuers = bs })

unfoldable pub load_certificate_chain : FileRead (List Block) → Result Chain
load_certificate_chain missing = err (codes "no such file")
load_certificate_chain (failed e) = err e
load_certificate_chain (contents blocks) = require_blocks (certificate_blocks blocks)

-- A `tls.Certificate`: its chain, its leaf if that parses, and its signer, with the public key
pub record KeylessCertificate (Public : Type 0) : Type 0 where
  pub chain : Chain
  pub certificate : Certificate
  pub signer : RemoteSigner
  pub public : Public

abbrev pub require_path : CertificateSpec → Result Text
require_path spec =
    if is_empty spec.path then err (codes "empty certificate path") else ok spec.path

-- `fmt.Errorf("...: %w", err)`
abbrev pub wrapped {ℓ} : {A : Type ℓ} → Text → Result A → Result A
wrapped why (ok a) = ok a
wrapped why (err e) = err (why ++ codes ": " ++ e)

abbrev pub connect_error : CertificateSpec → Text
connect_error spec =
    if is_empty spec.key_id
    then codes "connect keyless signer"
    else codes "connect keyless signer for key"

ok-injective : {A : Type 0} {a b : A} → ok a ≡ ok b → a ≡ b
ok-injective e = cc

wrapped-ok : {A : Type 0} (why : Text) (r : Result A) {a : A} → wrapped why r ≡ ok a → r ≡ ok a
wrapped-ok why (ok a) h = h
wrapped-ok why (err e) h = cc

require_blocks-ok :
    (bs : List Bytes) (chain : Chain)
    → require_blocks bs ≡ ok chain
    → bs ≡ chain.leaf_bytes ∷ chain.issuers
require_blocks-ok [] chain h = cc
require_blocks-ok (b ∷ bs) chain h = ground arith

require_path-ok :
    (spec : CertificateSpec) (path : Text) → require_path spec ≡ ok path → spec.path ≡ path
require_path-ok spec path h = ground arith

module _ {Public : Type 0} (parse_url : Text → Result BaseUrl)
    (parse_public_key : Bytes → Result Public) (parse_leaf : Bytes → Option Leaf)
    (network : RemoteSigner → Result Response) (files : Text → FileRead (List Block))
    (keyless_url token client_id : Text) where
  abbrev pub keyless_certificate : RemoteSigner × Public → Chain → KeylessCertificate Public
  keyless_certificate (signer, public) chain = record {
    chain = chain;
    certificate = record { leaf = parse_leaf chain.leaf_bytes };
    signer = set_client_id signer client_id;
    public = public;
  }

  unfoldable pub load_certificate : CertificateSpec → Result (KeylessCertificate Public)
  load_certificate spec = do
    path ← require_path spec
    connected ←
        wrapped (connect_error spec) (
          new_remote_signer_for_key parse_url parse_public_key network keyless_url token
            spec.key_id)
    chain ← wrapped (codes "parse certificate") (load_certificate_chain (files path))
    ok (keyless_certificate connected chain)

  unfoldable pub load_certificates :
      List CertificateSpec → Result (List (KeylessCertificate Public))
  load_certificates [] = ok []
  load_certificates (spec ∷ specs) = do
    cert ← load_certificate spec
    certs ← load_certificates specs
    ok (cert ∷ certs)

  unfoldable pub load_keyless_certificates :
      List CertificateSpec → Result (List (KeylessCertificate Public))
  load_keyless_certificates specs =
      if is_empty specs
      then err (codes "no certificate paths configured")
      else load_certificates specs

  -- What is behind a certificate of the list
  pub record IsLoaded (spec : CertificateSpec) (cert : KeylessCertificate Public) : Type 0 where
    pub blocks : List Block
    pub file : files spec.path ≡ contents blocks
    pub in_order : certificate_blocks blocks ≡ cert.chain.leaf_bytes ∷ cert.chain.issuers
    pub parsed : cert.certificate.leaf ≡ parse_leaf cert.chain.leaf_bytes
    pub connected : RemoteSigner
    pub reached :
        new_remote_signer_for_key parse_url parse_public_key network keyless_url token spec.key_id
        ≡ ok (connected, cert.public)
    pub named : cert.signer ≡ set_client_id connected client_id

  abbrev pub AreLoaded : List CertificateSpec → List (KeylessCertificate Public) → Type 0
  AreLoaded [] [] = Unit
  AreLoaded [] (c ∷ cs) = ⊥
  AreLoaded (s ∷ ss) [] = ⊥
  AreLoaded (s ∷ ss) (c ∷ cs) = IsLoaded s c × AreLoaded ss cs

  some_loaded :
      (spec : CertificateSpec) (specs : List CertificateSpec)
      (certs : List (KeylessCertificate Public))
      → AreLoaded (spec ∷ specs) certs
      → certs ≢ []
  some_loaded spec specs [] h e = h
  some_loaded spec specs (c ∷ cs) h e = cc

  chain_sound :
      (read : FileRead (List Block)) (chain : Chain)
      → load_certificate_chain read ≡ ok chain
      → (blocks : List Block) × (read ≡ contents blocks)
        × (certificate_blocks blocks ≡ chain.leaf_bytes ∷ chain.issuers)
  unfolding load_certificate_chain
  chain_sound missing chain h = cc
  chain_sound (failed e) chain h = cc
  chain_sound (contents blocks) chain h =
      (blocks, refl, require_blocks-ok (certificate_blocks blocks) chain h)

  load_certificate_sound :
      (spec : CertificateSpec) (cert : KeylessCertificate Public)
      → load_certificate spec ≡ ok cert
      → IsLoaded spec cert
  unfolding load_certificate
  load_certificate_sound spec cert h =
      let connects =
        new_remote_signer_for_key parse_url parse_public_key network keyless_url token
          spec.key_id in
      let (path, named, h₁) = bind-inversion (require_path spec) _ h in
      let (connected, reached, h₂) = bind-inversion (wrapped (connect_error spec) connects) _ h₁ in
      let (chain, read, built) =
        bind-inversion (wrapped (codes "parse certificate") (load_certificate_chain (files path))) _
          h₂ in
      let (blocks, file, in_order) =
        chain_sound (files path) chain
          (wrapped-ok (codes "parse certificate") (load_certificate_chain (files path)) read) in
      let loaded : IsLoaded spec (keyless_certificate connected chain) = record {
        blocks = blocks;
        file = ap files (require_path-ok spec path named) ∙ file;
        in_order = in_order;
        parsed = refl;
        connected = connected.0;
        reached = wrapped-ok (connect_error spec) connects reached;
        named = refl;
      } in
      rw⁻¹ (ok-injective built) loaded

  load_certificates_sound :
      (specs : List CertificateSpec) (certs : List (KeylessCertificate Public))
      → load_certificates specs ≡ ok certs
      → AreLoaded specs certs
  unfolding load_certificates
  load_certificates_sound [] [] h = tt
  load_certificates_sound [] (c ∷ cs) h = absurd (cc)
  load_certificates_sound (spec ∷ specs) certs h =
      let (cert, one, h₁) = bind-inversion (load_certificate spec) _ h in
      let (rest, others, built) = bind-inversion (load_certificates specs) _ h₁ in
      rw⁻¹ (ok-injective built)
        (load_certificate_sound spec cert one, load_certificates_sound specs rest others)

  -- If the certificates of the edge node are loaded there is one for each item of the list, in its order:
  -- with the CERTIFICATE blocks of the item's file in their order, at least one, the first of them as
  -- the leaf, and with a remote signer that was reached under the item's key id.
  pub load_keyless_certificates_sound :
      (specs : List CertificateSpec) (certs : List (KeylessCertificate Public))
      → load_keyless_certificates specs ≡ ok certs
      → AreLoaded specs certs × (certs ≢ [])
  unfolding load_keyless_certificates
  load_keyless_certificates_sound [] certs h = cc
  load_keyless_certificates_sound (spec ∷ specs) certs h =
      let loaded = load_certificates_sound (spec ∷ specs) certs h in
      (loaded, some_loaded spec specs certs loaded)
