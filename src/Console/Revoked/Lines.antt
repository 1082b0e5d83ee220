-- ===== src/Console/Revoked/Lines.antt =====
-- Files that are lists of lines, each ended by a newline, as the scanner reads them.
use myzerossl.Prelude.{
  ℕ, ◌<◌, true, ◌≡◌, ◌≢◌, refl, sym, ap, ◌∙◌, List, [], ◌∷◌, ◌++◌, arith, All, map,
}
use mathlib.Core.List.{append_assoc, append-nil}
use myzerossl.Text.{Text, byte_len, split}
use myzerossl.Text.Lines.{drop_cr, raw_lines, scan, scan_text}

abbrev pub lines_text : List Text → Text
lines_text [] = []
lines_text (l ∷ ls) = l ++ 10 ∷ lines_text ls

-- A line that the scanner takes whole
abbrev pub IsLine : Text → Type 0
IsLine l = All (λ c. c ≢ 10) l × (byte_len l < 65536)

split-line : (l rest : Text) → All (λ c. c ≢ 10) l → split 10 (l ++ 10 ∷ rest) ≡ l ∷ split 10 rest
unfolding split
split-line [] rest h = refl
split-line (c ∷ l) rest (hc, hl) = ground (arith, split-line l rest hl)

split-single : (l : Text) → All (λ c. c ≢ 10) l → split 10 l ≡ l ∷ []
unfolding split
split-single [] h = refl
split-single (c ∷ l) (hc, hl) = ground (arith, split-single l hl)

split-lines_text :
    (ls : List Text) (tail : Text)
    → All IsLine ls
    → All (λ c. c ≢ 10) tail
    → split 10 (lines_text ls ++ tail) ≡ ls ++ tail ∷ []
split-lines_text [] tail h t = split-single tail t
split-lines_text (l ∷ ls) tail (hl, hs) t =
    ap (split 10) (append_assoc l (10 ∷ lines_text ls) tail)
    ∙ (split-line l (lines_text ls ++ tail) hl.0 ∙ ap (λ r. l ∷ r) (split-lines_text ls tail hs t))

raw_lines-ended : (ls : List Text) → raw_lines (ls ++ [] ∷ []) ≡ ls
unfolding raw_lines
raw_lines-ended [] = refl
raw_lines-ended (l ∷ []) = refl
raw_lines-ended (l ∷ m ∷ ls) = ap (λ r. l ∷ r) (raw_lines-ended (m ∷ ls))

raw_lines-open :
    (ls : List Text) (c : ℕ) (tail : Text)
    → raw_lines (ls ++ (c ∷ tail) ∷ []) ≡ ls ++ (c ∷ tail) ∷ []
unfolding raw_lines
raw_lines-open [] c tail = refl
raw_lines-open (l ∷ []) c tail = refl
raw_lines-open (l ∷ m ∷ ls) c tail = ap (λ r. l ∷ r) (raw_lines-open (m ∷ ls) c tail)

scan-lines :
    (ls : List Text) → All IsLine ls → scan ls ≡ record { lines = map drop_cr ls; complete = true }
unfolding scan
scan-lines [] h = refl
scan-lines (l ∷ ls) (hl, hs) = ground (arith, hl.1, scan-lines ls hs)

-- A file of lines is read back as its lines, each without a carriage return at its end.
pub scan_text-lines_text :
    (ls : List Text)
    → All IsLine ls
    → scan_text (lines_text ls) ≡ record { lines = map drop_cr ls; complete = true }
unfolding scan_text
scan_text-lines_text ls h =
    ap (λ t. scan (raw_lines (split 10 t))) (sym (append-nil (lines_text ls)))
    ∙ (ap (λ t. scan (raw_lines t)) (split-lines_text ls [] h tt)
        ∙ (ap scan (raw_lines-ended ls) ∙ scan-lines ls h))

pub All-append : (ls : List Text) (l : Text) → All IsLine ls → IsLine l → All IsLine (ls ++ l ∷ [])
All-append [] l h t = (t, tt)
All-append (m ∷ ls) l (hm, hs) t = (hm, All-append ls l hs t)

-- Text behind the last newline is one more line.
pub scan_text-open :
    (ls : List Text) (tail : Text)
    → All IsLine ls
    → IsLine tail
    → tail ≢ []
    → scan_text (lines_text ls ++ tail)
      ≡ record { lines = map drop_cr (ls ++ tail ∷ []); complete = true }
unfolding scan_text
scan_text-open ls [] h t n = absurd (n refl)
scan_text-open ls (c ∷ tail) h t n =
    ap (λ t. scan (raw_lines t)) (split-lines_text ls (c ∷ tail) h t.0)
    ∙ (ap scan (raw_lines-open ls c tail)
        ∙ scan-lines (ls ++ (c ∷ tail) ∷ []) (All-append ls (c ∷ tail) h t))

pub lines_text-append :
    (ls : List Text) (l : Text) → lines_text (ls ++ l ∷ []) ≡ lines_text ls ++ (l ++ 10 ∷ [])
lines_text-append [] l = refl
lines_text-append (m ∷ ls) l =
    ap (λ t. m ++ 10 ∷ t) (lines_text-append ls l)
    ∙ sym (append_assoc m (10 ∷ lines_text ls) (l ++ 10 ∷ []))
