-- ===== src/Wizard/Trusted.antt =====
-- cmd/setup-wizard/main.go: what the wizard installs for the trusted center.
use myzerossl.Prelude.{List, [], ◌∷◌, ◌++◌}
use myzerossl.Text.{Text, codes}
use myzerossl.Map.{Map}
use myzerossl.Wizard.EnvFile.{env_text}
use myzerossl.Wizard.Plan.{
  run, Step, required, ignored, ensure_user, mkdirs, copy_file, write_text, ensure_file,
}
use myzerossl.Wizard.EdgeNode.{value, in_repo, systemctl}

unfoldable pub keylessd_env : Map Text → Map Text
keylessd_env form =
    (codes "KEYLESS_LISTEN", value form (codes "trusted_keyless_listen") (codes "127.0.0.1:19443"))
    ∷ (
      codes "KEYLESS_PRIVATE_KEY",
      value form (codes "trusted_private_key") (codes "/etc/openresty/ssl/js.gripe.key.pem"),
    )
    ∷ (codes "KEYLESS_TOKEN", [])
    ∷ (codes "KEYLESS_CLIENTS", codes "/etc/myzerossl/clients.json")
    ∷ (codes "KEYLESS_REVOKED", codes "/etc/myzerossl/revoked-clients.txt")
    ∷ (codes "KEYLESS_AUDIT", codes "/var/log/myzerossl/signer-audit.jsonl")
    ∷ []

unfoldable pub console_url : Map Text → Text
console_url form = value form (codes "trusted_console_url") (codes "https://ssl-signer.example.com")

unfoldable pub keyless_url : Map Text → Text
keyless_url form =
    value form (codes "trusted_keyless_url")
      (codes "https://gateway.example.com:9443/api/v1/ssl-signer")

unfoldable pub console_env : Map Text → Text → Map Text
console_env form secret =
    (codes "CONSOLE_LISTEN", codes "127.0.0.1:19444")
    ∷ (
      codes "CONSOLE_ACCOUNT_API",
      value form (codes "trusted_account_api")
          (codes "https://gateway.example.com/api/v1/myaccount"),
    )
    ∷ (
      codes "CONSOLE_ACCOUNT_LOGIN",
      value form (codes "trusted_account_login") (codes "https://account.example.com/login"),
    )
    ∷ (codes "CONSOLE_PUBLIC_URL", console_url form)
    ∷ (codes "CONSOLE_EDGE_KEYLESS_URL", keyless_url form)
    ∷ (codes "CONSOLE_CLIENT_ID", value form (codes "trusted_client_id") [])
    ∷ (codes "CONSOLE_SESSION_SECRET", value form (codes "trusted_session_secret") secret)
    ∷ (codes "KEYLESS_CLIENTS", codes "/etc/myzerossl/clients.json")
    ∷ (codes "KEYLESS_REVOKED", codes "/etc/myzerossl/revoked-clients.txt")
    ∷ (codes "KEYLESS_AUDIT", codes "/var/log/myzerossl/signer-audit.jsonl")
    ∷ (codes "CONSOLE_REGISTRATIONS", codes "/etc/myzerossl/edge-registrations.json")
    ∷ []

unfoldable pub trusted_files : Text → Map Text → Text → List Step
trusted_files repo form secret =
    ensure_user
    ++ (mkdirs 493 (
          codes "/etc/myzerossl"
          ∷ codes "/etc/myzerossl/private"
          ∷ codes "/etc/myzerossl/keyless"
          ∷ codes "/var/log/myzerossl"
          ∷ [])
        ++ (copy_file (in_repo repo (codes "dist/linux-amd64/keylessd"))
              (codes "/usr/local/bin/keylessd") 493
            ++ (copy_file (in_repo repo (codes "dist/linux-amd64/signer-console"))
                  (codes "/usr/local/bin/signer-console") 493
                ++ (copy_file (in_repo repo (codes "deploy/systemd/keylessd-local.service"))
                      (codes "/etc/systemd/system/keylessd-local.service") 420
                    ++ (copy_file (in_repo repo (codes "deploy/systemd/signer-console.service"))
                          (codes "/etc/systemd/system/signer-console.service") 420
                        ++ (write_text (codes "/etc/myzerossl/keylessd-local.env")
                              (env_text (keylessd_env form))
                            ++ write_text (codes "/etc/myzerossl/signer-console.env")
                                (env_text (console_env form secret))))))))

unfoldable pub trusted_services : List Step
trusted_services =
    ensure_file (codes "/etc/myzerossl/clients.json") (codes "{\n  \"clients\": []\n}\n")
    ++ (ensure_file (codes "/etc/myzerossl/revoked-clients.txt") []
        ++ (ensure_file (codes "/etc/myzerossl/edge-registrations.json")
              (codes "{\n  \"registrations\": []\n}\n")
            ++ (ignored (
                  run (codes "chown")
                    (codes "-R" ∷ codes "root:myzerossl" ∷ codes "/etc/myzerossl" ∷ []))
                ∷ ignored (
                    run (codes "chmod") (
                      codes "0750"
                      ∷ codes "/etc/myzerossl"
                      ∷ codes "/etc/myzerossl/private"
                      ∷ codes "/etc/myzerossl/keyless"
                      ∷ []))
                ∷ ignored (
                    run (codes "chmod") (
                      codes "0640"
                      ∷ codes "/etc/myzerossl/keylessd-local.env"
                      ∷ codes "/etc/myzerossl/signer-console.env"
                      ∷ codes "/etc/myzerossl/clients.json"
                      ∷ codes "/etc/myzerossl/revoked-clients.txt"
                      ∷ codes "/etc/myzerossl/edge-registrations.json"
                      ∷ []))
                ∷ ignored (
                    run (codes "chown")
                      (codes "-R" ∷ codes "myzerossl:myzerossl" ∷ codes "/var/log/myzerossl" ∷ []))
                ∷ required (systemctl (codes "daemon-reload" ∷ []))
                ∷ required (
                    systemctl (
                      codes "enable"
                      ∷ codes "keylessd-local.service"
                      ∷ codes "signer-console.service"
                      ∷ []))
                ∷ required (
                    systemctl (
                      codes "restart"
                      ∷ codes "keylessd-local.service"
                      ∷ codes "signer-console.service"
                      ∷ []))
                ∷ [])))
