-- ===== src/Console/Revoked.antt =====
-- cmd/signer-console/main.go: the revoked file as the console reads and writes it.
pub mod Lines
pub mod Reading
pub mod Open
pub mod Restored
use myzerossl.Prelude.{true, false, List, [], ◌∷◌, ◌++◌, if◌then◌else◌}
use myzerossl.Prelude.Result.{Result, ok, err, ◌>>=◌, missing, failed, contents}
use myzerossl.Text.{Text, codes, same, trim_space, join}
use myzerossl.Text.Lines.{Scanned, scan_text}
use myzerossl.Map.{member}
use myzerossl.Keyless.Load.{names_client}
use myzerossl.Console.State.{Env, Files}

-- The loop of `readRevoked`
unfoldable pub listed : List Text → List Text
listed [] = []
listed (l ∷ ls) =
    let rest = listed ls in
    let line = trim_space l in if names_client line then line ∷ rest else rest

unfoldable pub revoked_of : Scanned → Result (List Text)
revoked_of s =
    if s.complete then ok (listed s.lines) else err (codes "bufio.Scanner: token too long")

unfoldable pub read_revoked : Files → Result (List Text)
read_revoked f = elim (f.revoked) [
  | missing ↦ ok []
  | failed e ↦ err e
  | contents text ↦ revoked_of (scan_text text)
]

-- The file opened for appending
abbrev pub text_of : Files → Text
text_of f = elim (f.revoked) [ missing ↦ [] | failed e ↦ [] | contents text ↦ text ]

unfoldable pub append_line : Env → Files → Text → Result Files
append_line env f id = elim (env.can_write_revoked) [
  | true ↦ ok (record f { revoked = contents (text_of f ++ (id ++ 10 ∷ [])) })
  | false ↦ err (codes "permission denied")
]

unfoldable pub append_revoked_file : Env → Files → Text → Result Files
append_revoked_file env f id = do
  current ← read_revoked f
  if member id current then ok f else append_line env f id

unfoldable pub others : Text → List Text → List Text
others id [] = []
others id (j ∷ js) = let rest = others id js in if same j id then rest else j ∷ rest

unfoldable pub write_revoked : Env → Files → List Text → Result Files
write_revoked env f ids = elim (env.can_write_revoked) [
  | true ↦ ok (record f { revoked = contents (join 10 ids ++ 10 ∷ []) })
  | false ↦ err (codes "permission denied")
]

unfoldable pub remove_revoked_file : Env → Files → Text → Result Files
remove_revoked_file env f id = do current ← read_revoked f; write_revoked env f (others id current)
