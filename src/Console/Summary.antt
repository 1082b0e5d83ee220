-- ===== src/Console/Summary.antt =====
-- cmd/signer-console/main.go: `summary` and the end of the audit file that it shows.
use myzerossl.Prelude.{
  ℕ, zero, suc, ◌-◌, ◌≤◌, ◌<◌, ◌≡◌, true, refl, sym, ap, ◌∙◌, List, [], ◌∷◌, ◌++◌, arith, ltb,
  if◌then◌else◌, length, length-append, drop, Bool-cases, inl, inr,
}
use mathlib.Core.List.{append_assoc, append-nil}
use myzerossl.Prelude.Result.{Result, ok, err, ◌>>=◌, FileRead, missing, failed, contents}
use myzerossl.Text.{Text, codes}
use myzerossl.Text.Lines.{Scanned, scan_text}
use myzerossl.Keyless.State.{ClientConfig}
use myzerossl.Console.State.{EdgeRegistration, Files, read_client_file, read_registrations}
use myzerossl.Console.Revoked.{read_revoked}

-- The loop of `tailLines`: the lines kept so far, and those to come
unfoldable pub tail_from : ℕ → List Text → List Text → List Text
tail_from limit kept [] = kept
tail_from limit kept (l ∷ ls) =
    let more = kept ++ l ∷ [] in
    tail_from limit (if ltb limit (length more) then drop 1 more else more) ls

abbrev pub tail_of : ℕ → Scanned → Result (List Text)
tail_of limit s =
    if s.complete
    then ok (tail_from limit [] s.lines)
    else err (codes "bufio.Scanner: token too long")

-- `tailLines`, where a missing file is no error for `summary`
unfoldable pub tail_lines : FileRead Text → ℕ → Result (List Text)
tail_lines missing limit = ok []
tail_lines (failed e) limit = err e
tail_lines (contents text) limit = tail_of limit (scan_text text)

pub record Summary : Type 0 where
  pub clients : List ClientConfig
  pub revoked : List Text
  pub audit : List Text
  pub registrations : List EdgeRegistration

unfoldable pub summary : Files → FileRead Text → Result Summary
summary f audit_file = do
  clients ← read_client_file f
  revoked ← read_revoked f
  audit ← tail_lines audit_file 200
  registrations ← read_registrations f
  ok (record { clients = clients; revoked = revoked; audit = audit; registrations = registrations })

drop-suc : (n : ℕ) (ls : List Text) → drop n (drop 1 ls) ≡ drop (suc n) ls
drop-suc zero [] = refl
drop-suc (suc n) [] = refl
drop-suc n (l ∷ ls) = refl

drop-append :
    (kept : List Text) (l : Text) (ls : List Text)
    → drop 1 (kept ++ l ∷ []) ++ ls ≡ drop 1 (kept ++ l ∷ ls)
drop-append [] l ls = refl
drop-append (k ∷ kept) l ls = append_assoc kept (l ∷ []) ls

length-tail : (ls : List Text) → length (drop 1 ls) ≡ length ls - 1
length-tail [] = refl
length-tail (l ∷ ls) = omega arith

drop_none : (n : ℕ) (ls : List Text) → n ≡ 0 → drop n ls ≡ ls
drop_none n ls e = ap (λ k. drop k ls) e

-- Of the lines the last ones are kept, as many as the limit says, or all if there are no more.
tail_from-last :
    (limit : ℕ) (kept ls : List Text)
    → length kept ≤ limit
    → tail_from limit kept ls ≡ drop (length (kept ++ ls) - limit) (kept ++ ls)
unfolding tail_from
tail_from-last limit kept [] h =
    rw (append-nil kept) (sym (drop_none (length kept - limit) kept (omega (arith, h))))
tail_from-last limit kept (l ∷ ls) h =
    let more = kept ++ l ∷ [] in
    let whole = kept ++ l ∷ ls in
    elim (Bool-cases (ltb limit (length more))) [
      | inl e ↦
          let full : limit < length more = ground arith in
          let rest =
            tail_from-last limit (drop 1 more) ls
              (omega (arith, length-tail more, length-append kept (l ∷ []))) in
          let shorter : suc (length (drop 1 whole) - limit) ≡ length whole - limit = omega (
            arith,
            full,
            length-tail whole,
            length-append kept (l ∷ []),
            length-append kept (l ∷ ls),
          ) in
          rw e (
            rest
            ∙ ap (λ t. drop (length t - limit) t) (drop-append kept l ls)
            ∙ drop-suc (length (drop 1 whole) - limit) whole
            ∙ ap (λ n. drop n whole) shorter)
      | inr e ↦
          let room : length more ≤ limit = ground arith in
          rw e (
            tail_from-last limit more ls room
            ∙ ap (λ t. drop (length t - limit) t) (append_assoc kept (l ∷ []) ls))
    ]

-- `tailLines` gives the last lines of a file whose lines the scanner takes, as many as the limit says.
tail_lines-last :
    (text : Text) (limit : ℕ)
    → (scan_text text).complete ≡ true
    → tail_lines (contents text) limit
      ≡ ok (drop (length (scan_text text).lines - limit) (scan_text text).lines)
unfolding tail_lines
tail_lines-last text limit h = rw (h, tail_from-last limit [] (scan_text text).lines (omega arith))
