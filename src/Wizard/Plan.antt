-- ===== src/Wizard/Plan.antt =====
-- cmd/setup-wizard/main.go: what an installation does to the machine, one action after the other. Which
-- actions fail, and with what error, is a parameter.
use myzerossl.Prelude.{ℕ, Bool, true, false, List, [], ◌∷◌, ◌++◌, Option, none, some, if◌then◌else◌}
use myzerossl.Text.{Text, codes, cut}

-- `run`, `os.MkdirAll`, opening to read, opening to write, `io.Copy` with the closing of the file,
-- `os.Chmod`, `os.WriteFile`, `os.Stat`; the mode 0755 is 493, 0644 is 420 and 0640 is 416
pub data Action : Type 0 where
  run : Text → List Text → Action
  mkdir_all : Text → ℕ → Action
  open_file : Text → Action
  create : Text → ℕ → Action
  copy : Text → Text → Action
  chmod : Text → ℕ → Action
  write_file : Text → Text → ℕ → Action
  stat : Text → Action

-- An action whose error ends the installation, one whose error is ignored, and two where the second is
-- done if the first fails, with its error ending the installation or ignored
pub data Step : Type 0 where
  required : Action → Step
  ignored : Action → Step
  or_required : Action → Action → Step
  or_ignored : Action → Action → Step

-- The actions in their order, and the error that ended them
pub record Performed : Type 0 where
  pub log : List Action
  pub error : Option Text

-- `filepath.Dir` of an absolute path
abbrev pub head_unless : Bool → ℕ → Text → Text
head_unless true c s = []
head_unless false c s = c ∷ s

unfoldable pub has_slash : Text → Bool
has_slash s = (cut b'/' s).found

unfoldable pub dir : Text → Text
dir [] = []
dir (c ∷ s) =
    let rest = dir s in if has_slash (c ∷ s) then (if has_slash s then c ∷ rest else []) else []

unfoldable pub ensure_user : List Step
ensure_user =
    or_required (run (codes "id") (codes "myzerossl" ∷ [])) (
      run (codes "useradd") (
        codes "--system"
        ∷ codes "--home-dir"
        ∷ codes "/nonexistent"
        ∷ codes "--shell"
        ∷ codes "/usr/sbin/nologin"
        ∷ codes "myzerossl"
        ∷ []))
    ∷ []

unfoldable pub mkdirs : ℕ → List Text → List Step
mkdirs mode [] = []
mkdirs mode (path ∷ paths) = required (mkdir_all path mode) ∷ mkdirs mode paths

unfoldable pub copy_file : Text → Text → ℕ → List Step
copy_file src dst mode =
    required (open_file src)
    ∷ required (mkdir_all (dir dst) 493)
    ∷ required (create dst mode)
    ∷ required (copy src dst)
    ∷ required (chmod dst mode)
    ∷ []

unfoldable pub write_text : Text → Text → List Step
write_text path text =
    required (mkdir_all (dir path) 493) ∷ required (write_file path text 416) ∷ []

unfoldable pub ensure_file : Text → Text → List Step
ensure_file path content = or_ignored (stat path) (write_file path content 416) ∷ []

module _ (outcome : Action → Option Text) where
  unfoldable pub attempt : Step → Performed
  attempt (required a) = record { log = a ∷ []; error = outcome a }
  attempt (ignored a) = record { log = a ∷ []; error = none }
  attempt (or_required a b) = elim (outcome a) [
    | none ↦ record { log = a ∷ []; error = none }
    | some e ↦ record { log = a ∷ b ∷ []; error = outcome b }
  ]
  attempt (or_ignored a b) = elim (outcome a) [
    | none ↦ record { log = a ∷ []; error = none }
    | some e ↦ record { log = a ∷ b ∷ []; error = none }
  ]

  abbrev pub followed : Performed → Performed → Performed
  followed first rest = elim (first.error) [
    | none ↦ record { log = first.log ++ rest.log; error = rest.error }
    | some e ↦ first
  ]

  unfoldable pub perform : List Step → Performed
  perform [] = record { log = []; error = none }
  perform (step ∷ steps) = followed (attempt step) (perform steps)
