-- ===== src/Tests/Signers.antt =====
-- internal/keyless/client.go and cmd/edgeproxy/main.go at concrete inputs: a remote signer is made, and the
-- certificates of an edge node are loaded with it.
use myzerossl.Prelude.{ℕ, [], ◌∷◌, List, none, ◌≡◌, ◌≢◌, refl, arith}
use myzerossl.Prelude.Result.{Result, ok, err, FileRead, contents}
use myzerossl.Text.{Text, codes, Text-discrete}
use myzerossl.Keyless.Base64.{Bytes}
use myzerossl.Keyless.Protocol.{plain}
use myzerossl.Keyless.Server.{Response}
use myzerossl.Keyless.Client.{
  RemoteSigner, BaseUrl, set_client_id, strings_trim_right_slash, new_remote_signer_for_key,
}
use myzerossl.Keyless.Client.Public.{to_server, new_remote_signer_shows_key}
use myzerossl.Edge.Certificates.{CertificateSpec}
use myzerossl.Edge.Certificates.Files.{
  Block, KeylessCertificate, load_keyless_certificates, load_certificates, load_certificate,
  load_certificate_chain, certificate_blocks, AreLoaded, load_keyless_certificates_sound,
}
use myzerossl.Tests.Keyless.{env}
use myzerossl.Tests.Server.{toy, server, signer, digest, authentic, chosen}

abbrev parse_url : Text → Result BaseUrl
parse_url text = ok (record { scheme = codes "https"; spelled = text })

abbrev first_byte : Bytes → Result ℕ
first_byte [] = err (codes "no key")
first_byte (b ∷ bytes) = ok b

abbrev network : RemoteSigner → Result Response
network = to_server toy env server (codes "10.0.0.2")

new_remote_signer_shows_key_example :
    new_remote_signer_for_key parse_url first_byte network
      (codes "https://signer")
      (codes "t2")
      (codes "blue")
    ≡ ok (record signer { client_id = [] }, 8)
unfolding strings_trim_right_slash Text-discrete
new_remote_signer_shows_key_example =
    new_remote_signer_shows_key toy parse_url first_byte env server (codes "https://signer")
      (codes "t2") (codes "blue") (codes "other") (codes "10.0.0.2") (codes "10.0.0.1")
      (codes "other") digest (plain 3)
      (record { scheme = codes "https"; spelled = codes "https://signer" }) 8 (8 ∷ []) 8 refl refl
      authentic chosen refl (omega arith, tt) refl

connected :
    new_remote_signer_for_key parse_url first_byte network
      (codes "https://signer")
      (codes "t2")
      (codes "blue")
    ≡ ok (record signer { client_id = [] }, 8)
unfolding strings_trim_right_slash Text-discrete
connected =
    new_remote_signer_shows_key toy parse_url first_byte env server (codes "https://signer")
      (codes "t2") (codes "blue") (codes "other") (codes "10.0.0.2") (codes "10.0.0.1")
      (codes "other") digest (plain 3)
      (record { scheme = codes "https"; spelled = codes "https://signer" }) 8 (8 ∷ []) 8 refl refl
      authentic chosen refl (omega arith, tt) refl

abbrev specs : List CertificateSpec
specs = record { key_id = codes "blue"; path = codes "/b.pem" } ∷ []

-- A chain of two certificates, with something else between them
abbrev files : Text → FileRead (List Block)
files path = contents (
    record { kind = codes "CERTIFICATE"; bytes = 5 ∷ [] }
    ∷ record { kind = codes "X509 CRL"; bytes = 6 ∷ [] }
    ∷ record { kind = codes "CERTIFICATE"; bytes = 7 ∷ [] }
    ∷ [])

abbrev blue : KeylessCertificate ℕ
blue = record {
  chain = record { leaf_bytes = 5 ∷ []; issuers = (7 ∷ []) ∷ [] };
  certificate = record { leaf = none };
  signer = signer;
  public = 8;
}

loaded :
    load_keyless_certificates parse_url first_byte
      (λ bytes. none)
      network
      files
      (codes "https://signer")
      (codes "t2")
      (codes "other")
      specs
    ≡ ok (blue ∷ [])
unfolding load_keyless_certificates load_certificates load_certificate load_certificate_chain
    certificate_blocks Text-discrete set_client_id
loaded = rw connected

load_keyless_certificates_sound_example :
    AreLoaded parse_url first_byte
      (λ bytes. none)
      network
      files
      (codes "https://signer")
      (codes "t2")
      (codes "other")
      specs
      (blue ∷ [])
    × (blue ∷ [] ≢ [])
load_keyless_certificates_sound_example =
    load_keyless_certificates_sound parse_url first_byte (λ bytes. none) network files
      (codes "https://signer") (codes "t2") (codes "other") specs (blue ∷ []) loaded
