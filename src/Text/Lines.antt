-- ===== src/Text/Lines.antt =====
-- `bufio.Scanner` over the lines of a file, at its default token size.
use myzerossl.Prelude.{Bool, true, false, List, [], ◌∷◌, leb, ◌==◌, if◌then◌else◌}
use myzerossl.Text.{Text, byte_len, split}

-- `dropCR`: one carriage return at the end
unfoldable pub drop_cr : Text → Text
drop_cr [] = []
drop_cr (c ∷ []) = if c == 13 then [] else c ∷ []
drop_cr (c ∷ d ∷ s) = c ∷ drop_cr (d ∷ s)

-- What stands behind the last newline is a line only if it is not empty.
unfoldable pub raw_lines : List Text → List Text
raw_lines [] = []
raw_lines ([] ∷ []) = []
raw_lines (l ∷ []) = l ∷ []
raw_lines (l ∷ m ∷ ls) = l ∷ raw_lines (m ∷ ls)

-- The lines that `Scan` returns, and whether `Err` is nil: a line of 64 KiB or more is too long.
pub record Scanned : Type 0 where
  pub lines : List Text
  pub complete : Bool

unfoldable pub scan : List Text → Scanned
unfolding drop_cr byte_len
scan [] = record { lines = []; complete = true }
scan (l ∷ ls) =
    let rest = scan ls in
    if leb 65536 (byte_len l)
    then record { lines = []; complete = false }
    else record rest { lines = drop_cr l ∷ rest.lines }

unfoldable pub scan_text : Text → Scanned
unfolding scan raw_lines split
scan_text s = scan (raw_lines (split 10 s))
