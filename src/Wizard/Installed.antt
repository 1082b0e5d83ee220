-- ===== src/Wizard/Installed.antt =====
-- What the steps leave behind that make the user, the directories and the files of a role.
use myzerossl.Prelude.{ℕ, ◌⊎◌, List, [], ◌∷◌, ◌++◌, Option, All}
use myzerossl.Text.{Text, codes}
use myzerossl.Map.{Map}
use myzerossl.Wizard.EnvFile.{env_text}
use myzerossl.Wizard.Plan.{
  Action, run, mkdir_all, open_file, create, copy, chmod, write_file, Step, ensure_user, mkdirs,
  copy_file, write_text,
}
use myzerossl.Wizard.Finished.{all_parts, IsDone, Finished}
use myzerossl.Wizard.EdgeNode.{edge_env, edge_files, in_repo}
use myzerossl.Wizard.Trusted.{keylessd_env, console_env, trusted_files}

module _ (outcome : Action → Option Text) (log : List Action) where
  -- The user was there, or was made.
  abbrev pub HasUser : Type 0
  HasUser =
      IsDone outcome log (run (codes "id") (codes "myzerossl" ∷ []))
      ⊎ IsDone outcome log (
          run (codes "useradd") (
            codes "--system"
            ∷ codes "--home-dir"
            ∷ codes "/nonexistent"
            ∷ codes "--shell"
            ∷ codes "/usr/sbin/nologin"
            ∷ codes "myzerossl"
            ∷ []))

  abbrev pub HasDirectories : List Text → Type 0
  HasDirectories = All (λ path. IsDone outcome log (mkdir_all path 493))

  -- The file was opened, made, copied whole, and given its mode.
  abbrev pub IsCopied : Text → Text → ℕ → Type 0
  IsCopied src dst mode =
      IsDone outcome log (open_file src)
      × IsDone outcome log (create dst mode)
      × IsDone outcome log (copy src dst)
      × IsDone outcome log (chmod dst mode)

  abbrev pub IsWritten : Text → Text → Type 0
  IsWritten path text = IsDone outcome log (write_file path text 416)

  user-HasUser : All (Finished outcome log) ensure_user → HasUser
  unfolding ensure_user
  user-HasUser h = h.0

  mkdirs-HasDirectories :
      (paths : List Text) → All (Finished outcome log) (mkdirs 493 paths) → HasDirectories paths
  unfolding mkdirs
  mkdirs-HasDirectories [] h = tt
  mkdirs-HasDirectories (path ∷ paths) (hp, h) = (hp, mkdirs-HasDirectories paths h)

  copy_file-IsCopied :
      (src dst : Text) (mode : ℕ)
      → All (Finished outcome log) (copy_file src dst mode)
      → IsCopied src dst mode
  unfolding copy_file
  copy_file-IsCopied src dst mode (opened, (made, (created, (copied, (moded, end))))) =
      (opened, created, copied, moded)

  write_text-IsWritten :
      (path text : Text) → All (Finished outcome log) (write_text path text) → IsWritten path text
  unfolding write_text
  write_text-IsWritten path text (made, (written, end)) = written

  abbrev pub IsEdgeInstalled : Text → Map Text → Text → Text → Type 0
  IsEdgeInstalled repo form id secret =
      HasUser
      × HasDirectories (
          codes "/etc/myzerossl"
          ∷ codes "/etc/myzerossl/certs"
          ∷ codes "/etc/myzerossl/keyless"
          ∷ codes "/var/log/myzerossl"
          ∷ codes "/var/lib/memecdn"
          ∷ [])
      × IsCopied (repo ++ codes "/dist/linux-amd64/edgeproxy") (codes "/usr/local/bin/edgeproxy")
          493
      × IsCopied (repo ++ codes "/deploy/systemd/edgeproxy.service")
          (codes "/etc/systemd/system/edgeproxy.service") 420
      × IsWritten (codes "/etc/myzerossl/edgeproxy.env") (env_text (edge_env form id secret))

  abbrev pub IsTrustedInstalled : Text → Map Text → Text → Type 0
  IsTrustedInstalled repo form secret =
      HasUser
      × HasDirectories (
          codes "/etc/myzerossl"
          ∷ codes "/etc/myzerossl/private"
          ∷ codes "/etc/myzerossl/keyless"
          ∷ codes "/var/log/myzerossl"
          ∷ [])
      × IsCopied (repo ++ codes "/dist/linux-amd64/keylessd") (codes "/usr/local/bin/keylessd") 493
      × IsCopied (repo ++ codes "/dist/linux-amd64/signer-console")
          (codes "/usr/local/bin/signer-console") 493
      × IsCopied (repo ++ codes "/deploy/systemd/keylessd-local.service")
          (codes "/etc/systemd/system/keylessd-local.service") 420
      × IsCopied (repo ++ codes "/deploy/systemd/signer-console.service")
          (codes "/etc/systemd/system/signer-console.service") 420
      × IsWritten (codes "/etc/myzerossl/keylessd-local.env") (env_text (keylessd_env form))
      × IsWritten (codes "/etc/myzerossl/signer-console.env") (env_text (console_env form secret))

  parts :
      (a b : List Step)
      → All (Finished outcome log) (a ++ b)
      → All (Finished outcome log) a × All (Finished outcome log) b
  parts = all_parts (Finished outcome log)

  pub edge_files-IsEdgeInstalled :
      (repo : Text) (form : Map Text) (id secret : Text)
      → All (Finished outcome log) (edge_files repo form id secret)
      → IsEdgeInstalled repo form id secret
  unfolding edge_files in_repo
  edge_files-IsEdgeInstalled repo form id secret h =
      let (user, h₁) = parts ensure_user _ h in
      let (dirs, h₂) = parts (mkdirs 493 _) _ h₁ in
      let (binary, h₃) = parts (copy_file _ _ _) _ h₂ in
      let (service, text) = parts (copy_file _ _ _) _ h₃ in
      (
        user-HasUser user,
        mkdirs-HasDirectories _ dirs,
        copy_file-IsCopied _ _ _ binary,
        copy_file-IsCopied _ _ _ service,
        write_text-IsWritten _ _ text,
      )

  pub trusted_files-IsTrustedInstalled :
      (repo : Text) (form : Map Text) (secret : Text)
      → All (Finished outcome log) (trusted_files repo form secret)
      → IsTrustedInstalled repo form secret
  unfolding trusted_files in_repo
  trusted_files-IsTrustedInstalled repo form secret h =
      let (user, h₁) = parts ensure_user _ h in
      let (dirs, h₂) = parts (mkdirs 493 _) _ h₁ in
      let (signer, h₃) = parts (copy_file _ _ _) _ h₂ in
      let (console, h₄) = parts (copy_file _ _ _) _ h₃ in
      let (signer_service, h₅) = parts (copy_file _ _ _) _ h₄ in
      let (console_service, h₆) = parts (copy_file _ _ _) _ h₅ in
      let (signer_text, console_text) = parts (write_text _ _) _ h₆ in
      (
        user-HasUser user,
        mkdirs-HasDirectories _ dirs,
        copy_file-IsCopied _ _ _ signer,
        copy_file-IsCopied _ _ _ console,
        copy_file-IsCopied _ _ _ signer_service,
        copy_file-IsCopied _ _ _ console_service,
        write_text-IsWritten _ _ signer_text,
        write_text-IsWritten _ _ console_text,
      )
