-- ===== src/Wizard/EdgeNode.antt =====
-- cmd/setup-wizard/main.go: what the wizard installs on an edge node, and what the roles share: `value` and
-- `hostname`, the paths of the repository and systemctl.
use myzerossl.Prelude.{List, [], ◌∷◌, ◌++◌, Option, none, some, if◌then◌else◌, is_empty}
use myzerossl.Text.{Text, codes, trim_space}
use myzerossl.Map.{Map, lookup}
use myzerossl.Wizard.EnvFile.{value_or_empty, env_text}
use myzerossl.Wizard.Plan.{
  Action, run, Step, required, ignored, ensure_user, mkdirs, copy_file, write_text,
}

unfoldable pub value : Map Text → Text → Text → Text
value form key fallback =
    let given = trim_space (value_or_empty (lookup key form)) in
    if is_empty given then fallback else given

-- The name that `os.Hostname` gives, if it does
unfoldable pub hostname : Option Text → Text
hostname none = codes "memecdn"
hostname (some name) = if is_empty name then codes "memecdn" else name

unfoldable pub edge_id : Map Text → Option Text → Text
edge_id form host = value form (codes "edge_id") (hostname host ++ codes "-edge")

unfoldable pub edge_env : Map Text → Text → Text → Map Text
edge_env form id install_token =
    (
      codes "EDGE_LISTEN",
      value form (codes "edge_listen") (codes ":443,:2053,:2083,:2087,:2096,:8443"),
    )
    ∷ (codes "EDGE_BACKEND", value form (codes "edge_backend") (codes "http://127.0.0.1:8080"))
    ∷ (
      codes "EDGE_CERT",
      value form (codes "edge_cert") (codes "/etc/myzerossl/certs/example.com.fullchain.crt"),
    )
    ∷ (codes "KEYLESS_TOKEN_FILE", codes "/var/lib/memecdn/keyless.token")
    ∷ (codes "EDGE_CACHE_TTL", codes "10m")
    ∷ (codes "EDGE_CACHE_MAX_BYTES", codes "67108864")
    ∷ (codes "EDGE_CACHE_MAX_OBJECT_BYTES", codes "4194304")
    ∷ (
      codes "EDGE_REGISTER_URL",
      value form (codes "edge_register_url") (codes "https://ssl-signer.example.com"),
    )
    ∷ (codes "EDGE_REGISTER_ID", id)
    ∷ (codes "EDGE_REGISTER_LABEL", value form (codes "edge_label") id)
    ∷ (codes "EDGE_REGISTER_TOKEN", install_token)
    ∷ (codes "EDGE_REGISTER_POLL", codes "10s")
    ∷ (
      codes "KEYLESS_URL",
      value form (codes "edge_keyless_url")
          (codes "https://gateway.example.com:9443/api/v1/ssl-signer"),
    )
    ∷ (codes "KEYLESS_CLIENT_ID", id)
    ∷ (
      codes "KEYLESS_CA",
      value form (codes "edge_ca") (codes "/etc/ssl/certs/ca-certificates.crt"),
    )
    ∷ (
      codes "KEYLESS_CLIENT_CERT",
      value form (codes "edge_client_cert") (codes "/etc/myzerossl/keyless/edge-client.crt"),
    )
    ∷ (
      codes "KEYLESS_CLIENT_KEY",
      value form (codes "edge_client_key") (codes "/etc/myzerossl/keyless/edge-client.key"),
    )
    ∷ (codes "KEYLESS_TOKEN", [])
    ∷ []

-- `filepath.Join(a.repo, rel)`
unfoldable pub in_repo : Text → Text → Text
in_repo repo rel = repo ++ b'/' ∷ rel

abbrev pub systemctl : List Text → Action
systemctl args = run (codes "systemctl") args

-- The steps up to the writing of the environment file
unfoldable pub edge_files : Text → Map Text → Text → Text → List Step
edge_files repo form id install_token =
    ensure_user
    ++ (mkdirs 493 (
          codes "/etc/myzerossl"
          ∷ codes "/etc/myzerossl/certs"
          ∷ codes "/etc/myzerossl/keyless"
          ∷ codes "/var/log/myzerossl"
          ∷ codes "/var/lib/memecdn"
          ∷ [])
        ++ (copy_file (in_repo repo (codes "dist/linux-amd64/edgeproxy"))
              (codes "/usr/local/bin/edgeproxy") 493
            ++ (copy_file (in_repo repo (codes "deploy/systemd/edgeproxy.service"))
                  (codes "/etc/systemd/system/edgeproxy.service") 420
                ++ write_text (codes "/etc/myzerossl/edgeproxy.env")
                    (env_text (edge_env form id install_token)))))

unfoldable pub edge_services : List Step
edge_services =
    ignored
      (run (codes "chown") (codes "-R" ∷ codes "root:myzerossl" ∷ codes "/etc/myzerossl" ∷ []))
    ∷ ignored (
        run (codes "chmod") (
          codes "0750"
          ∷ codes "/etc/myzerossl"
          ∷ codes "/etc/myzerossl/certs"
          ∷ codes "/etc/myzerossl/keyless"
          ∷ []))
    ∷ ignored (run (codes "chmod") (codes "0640" ∷ codes "/etc/myzerossl/edgeproxy.env" ∷ []))
    ∷ ignored (
        run (codes "chown") (
          codes "-R"
          ∷ codes "myzerossl:myzerossl"
          ∷ codes "/var/log/myzerossl"
          ∷ codes "/var/lib/memecdn"
          ∷ []))
    ∷ required (systemctl (codes "daemon-reload" ∷ []))
    ∷ required (systemctl (codes "enable" ∷ codes "edgeproxy.service" ∷ []))
    ∷ []
