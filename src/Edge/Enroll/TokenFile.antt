-- ===== src/Edge/Enroll/TokenFile.antt =====
-- The token file across a restart.
use myzerossl.Prelude.{ℕ, false, ◌≡◌, ◌≢◌, refl, ap, List, [], ◌∷◌, ◌++◌, none, arith, All}
use myzerossl.Prelude.Result.{Result, ok, contents}
use myzerossl.Text.{Text, trim_left, trim_right, keep_from_right, trim_space, is_space}
use myzerossl.Edge.Enroll.{
  Event, read_token_file, token_file_text, TokenSettings, started, enrolls, find_token,
}

abbrev pub HasNoSpace : Text → Type 0
HasNoSpace = All (λ c. is_space c ≡ false)

trim_right-newline : (s : Text) → HasNoSpace s → trim_right is_space (s ++ 10 ∷ []) ≡ s
unfolding trim_right is_space
trim_right-newline [] h = refl
trim_right-newline (c ∷ s) (hc, hs) = rw (trim_right-newline s hs) (kept c s hc)
  where
    kept : (c : ℕ) (s : Text) → is_space c ≡ false → keep_from_right is_space c s ≡ c ∷ s
    kept c [] h = rw h refl
    kept c (d ∷ s) h = refl

token_file_round_trip :
    (token : Text)
    → HasNoSpace token
    → token ≢ []
    → read_token_file (contents (token_file_text token)) ≡ ok token
unfolding read_token_file token_file_text trim_space trim_left
token_file_round_trip [] h n = absurd (n refl)
token_file_round_trip (c ∷ s) (hc, hs) n = rw hc (ap ok (trim_right-newline (c ∷ s) (hc, hs)))

-- A node without a token of its own that starts with the file that its enrollment saved goes on with the
-- token it was enrolled with, without a registration or a poll, if the token is not empty and has no white
-- space.
restart_keeps_token :
    (s : TokenSettings) (token random : Text) (registered : Result ℕ) (events : List Event)
    (written : Result (Unit {0}))
    → s.token ≡ []
    → s.token_file ≢ []
    → HasNoSpace token
    → token ≢ []
    → find_token s (contents (token_file_text token)) random registered events written
      ≡ started (record {
        token = token;
        enrolled_install_token = [];
        keyless_url = s.keyless_url;
        saved = none;
      })
unfolding find_token enrolls
restart_keeps_token s token random registered events written bare named clean filled =
    ground (arith, token_file_round_trip token clean filled)
