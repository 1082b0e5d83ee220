-- ===== src/Console/Revoked/Open.antt =====
-- A revoked file that does not end in a newline, as the console writes to it.
use myzerossl.Prelude.{true, false, ◌<◌, ◌≡◌, ◌≢◌, sym, ap, ◌∙◌, List, [], ◌∷◌, ◌++◌, All, map}
use mathlib.Core.List.{append_assoc}
use myzerossl.Prelude.Result.{ok, contents}
use myzerossl.Text.{Text, byte_len, is_space, has_prefix}
use myzerossl.Text.Lines.{drop_cr}
use myzerossl.Map.{member}
use myzerossl.Keyless.Load.{names_client}
use myzerossl.Console.State.{Env, Files}
use myzerossl.Console.Revoked.{listed, revoked_of, read_revoked, append_revoked_file}
use myzerossl.Console.Revoked.Lines.{
  lines_text, IsLine, All-append, scan_text-open, lines_text-append,
}
use myzerossl.Console.Revoked.Reading.{
  IsListable, no_newline, listed-new, read_revoked-lines, append_new,
}

All-glued :
    (a b : Text)
    → All (λ c. is_space c ≡ false) a
    → All (λ c. is_space c ≡ false) b
    → All (λ c. is_space c ≡ false) (a ++ b)
All-glued [] b ha hb = hb
All-glued (c ∷ a) b (hc, ha) hb = (hc, All-glued a b ha hb)

names_client-glued : (a b : Text) → names_client a ≡ true → names_client (a ++ b) ≡ true
unfolding has_prefix
names_client-glued [] b h = cc
names_client-glued (c ∷ a) b h = h

listable_nonempty : (a : Text) → names_client a ≡ true → a ≢ []
listable_nonempty [] h e = cc
listable_nonempty (c ∷ a) h e = cc

read_revoked-open :
    (f : Files) (ls : List Text) (tail : Text)
    → f.revoked ≡ contents (lines_text ls ++ tail)
    → All IsLine ls
    → IsListable tail
    → read_revoked f ≡ ok (listed (map drop_cr ls) ++ tail ∷ [])
unfolding read_revoked revoked_of
read_revoked-open f ls tail e h (clean, named, short) = rw (
  e,
  scan_text-open ls tail h (no_newline tail clean, short) (listable_nonempty tail named),
  listed-new ls tail (clean, named, short),
)

-- If the revoked file does not end in a newline, because its last id was written by another program, the
-- console's append succeeds and makes one id of two: the last id, which was listed, and the new one are
-- both replaced by their concatenation.
pub append_glues :
    (env : Env) (f : Files) (ls : List Text) (last id : Text)
    → f.revoked ≡ contents (lines_text ls ++ last)
    → All IsLine ls
    → IsListable last
    → IsListable id
    → byte_len (last ++ id) < 65536
    → env.can_write_revoked ≡ true
    → member id (listed (map drop_cr ls) ++ last ∷ []) ≡ false
    → (f' : Files) × (append_revoked_file env f id ≡ ok f')
      × (read_revoked f ≡ ok (listed (map drop_cr ls) ++ last ∷ []))
      × (read_revoked f' ≡ ok (listed (map drop_cr ls) ++ (last ++ id) ∷ []))
append_glues env f ls last id e h listable listable_id short writes m =
    let before = listed (map drop_cr ls) ++ last ∷ [] in
    let glued = last ++ id in
    let text = (lines_text ls ++ last) ++ (id ++ 10 ∷ []) in
    let f' : Files = record f { revoked = contents text } in
    let clean = All-glued last id listable.0 listable_id.0 in
    let spelled : text ≡ lines_text (ls ++ glued ∷ []) =
      append_assoc (lines_text ls) last (id ++ 10 ∷ [])
      ∙ ap (λ t. lines_text ls ++ t) (sym (append_assoc last id (10 ∷ [])))
      ∙ sym (lines_text-append ls glued) in
    let reads = read_revoked-open f ls last e h listable in
    (
      f',
      append_new env f before (lines_text ls ++ last) id reads e writes m,
      reads,
      read_revoked-lines f' (ls ++ glued ∷ []) (ap contents spelled)
            (All-append ls glued h (no_newline glued clean, short))
          ∙ ap ok (listed-new ls glued (clean, names_client-glued last id listable.1, short)),
    )
