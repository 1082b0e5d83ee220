-- ===== src/Tests/Revoked.antt =====
-- cmd/signer-console/main.go: the revoked file at concrete inputs, with the signer that reads it.
use myzerossl.Prelude.{
  true, false, not, ◌||◌, ◌&&◌, List, [], ◌∷◌, ◌++◌, ◌≡◌, refl, arith, map, All,
}
use myzerossl.Prelude.Result.{ok, contents, missing}
use myzerossl.Text.{
  split, Text, codes, same, byte_len, has_prefix, trim_space, is_space, Text-discrete,
}
use myzerossl.Text.Lines.{drop_cr, raw_lines, scan, scan_text}
use myzerossl.Map.{member}
use myzerossl.Keyless.State.{AuthManager}
use myzerossl.Keyless.Load.{load_revoked}
use myzerossl.Console.State.{Files}
use myzerossl.Console.Summary.{tail_from, tail_lines}
use myzerossl.Console.Revoked.{listed, read_revoked, append_revoked_file, remove_revoked_file}
use myzerossl.Console.Revoked.Lines.{IsLine}
use myzerossl.Console.Revoked.Reading.{IsListable, console_revocation_reaches_signer}
use myzerossl.Console.Revoked.Open.{append_glues}
use myzerossl.Console.Revoked.Restored.{console_restore_reaches_signer}
use myzerossl.Tests.Console.{env}

abbrev manager : AuthManager
manager = record {
  shared_token = [];
  clients_mode = true;
  clients = [];
  revoked = [];
  revoked_path = codes "revoked.txt";
  audit_path = [];
  revoked_lines = [];
  audit_lines = [];
}

abbrev file : Text → Files
file text = record { clients = contents []; registrations = missing; revoked = contents text }

abbrev ids : List Text
ids = codes "a" ∷ codes "b" ∷ []

abbrev ab : Files
ab = file (codes "a\nb\n")

ids-IsListable : All IsListable ids
unfolding is_space has_prefix byte_len
ids-IsListable = (((refl, tt), refl, omega arith), (((refl, tt), refl, omega arith), tt))

c-IsListable : IsListable (codes "c")
unfolding is_space has_prefix byte_len
c-IsListable = ((refl, tt), refl, omega arith)

ids-IsLine : All IsLine ids
unfolding byte_len
ids-IsLine = (((omega arith, tt), omega arith), (((omega arith, tt), omega arith), tt))

console_revocation_reaches_signer_example :
    (f' : Files) × (a' : AuthManager) × (text : Text) × (append_revoked_file env ab (codes "c")
      ≡ ok f')
    × (f'.revoked ≡ contents text)
    × (load_revoked manager (contents (scan_text text)) ≡ ok a')
    × ((j : Text)
        → member j a'.revoked ≡ (same (codes "c") j || member j (listed (map drop_cr ids))))
console_revocation_reaches_signer_example =
    console_revocation_reaches_signer env ab ids (codes "c") manager refl ids-IsLine c-IsListable
      refl

console_restore_reaches_signer_example :
    (f' : Files) × (a' : AuthManager) × (text : Text) × (remove_revoked_file env ab (codes "a")
      ≡ ok f')
    × (f'.revoked ≡ contents text)
    × (load_revoked manager (contents (scan_text text)) ≡ ok a')
    × ((j : Text) → member j a'.revoked ≡ (not (same (codes "a") j) && member j ids))
console_restore_reaches_signer_example =
    console_restore_reaches_signer env ab ids (codes "a") manager refl ids-IsListable refl

unlisted : member (codes "c") (listed (map drop_cr (codes "a" ∷ [])) ++ codes "b" ∷ []) ≡ false
unfolding member listed trim_space drop_cr has_prefix Text-discrete
unlisted = refl

append_glues_example :
    (f' : Files) × (append_revoked_file env (file (codes "a\nb")) (codes "c") ≡ ok f')
    × (read_revoked (file (codes "a\nb"))
        ≡ ok (listed (map drop_cr (codes "a" ∷ [])) ++ codes "b" ∷ []))
    × (read_revoked f' ≡ ok (listed (map drop_cr (codes "a" ∷ [])) ++ codes "bc" ∷ []))
unfolding byte_len
append_glues_example =
    append_glues env (file (codes "a\nb")) (codes "a" ∷ []) (codes "b") (codes "c") refl
      (ids-IsLine.0, tt) ids-IsListable.1.0 c-IsListable (omega arith) refl unlisted

-- The end of the audit file
shown : tail_lines (contents (codes "a\nb\nc")) 2 ≡ ok (codes "b" ∷ codes "c" ∷ [])
unfolding tail_lines tail_from scan_text scan raw_lines drop_cr split byte_len
shown = refl
