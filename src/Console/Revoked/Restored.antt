-- ===== src/Console/Revoked/Restored.antt =====
-- What the console and the signer read of a revoked file from which the console has removed an id.
use myzerossl.Prelude.{
  true, not, ◌&&◌, ◌≡◌, refl, sym, ap, ◌∙◌, List, [], ◌∷◌, ◌++◌, arith, All, map,
}
use mathlib.Core.List.{append_assoc}
use myzerossl.Prelude.Result.{ok, contents}
use myzerossl.Text.{Text, same, Text-discrete, byte_len, trim_space, join}
use myzerossl.Text.Laws.{trim_space_clean}
use myzerossl.Text.Lines.{drop_cr, scan_text}
use myzerossl.Map.{member}
use myzerossl.Keyless.State.{AuthManager}
use myzerossl.Keyless.Load.{load_revoked_from, load_revoked}
use myzerossl.Console.State.{Env, Files}
use myzerossl.Console.Revoked.{listed, others, write_revoked, remove_revoked_file}
use myzerossl.Console.Revoked.Lines.{lines_text, IsLine}
use myzerossl.Console.Revoked.Reading.{
  IsListable, no_newline, drop_cr_clean, read_revoked-lines, load_lines, load_revoked_from-listed,
}

IsListable-IsLine : (ids : List Text) → All IsListable ids → All IsLine ids
IsListable-IsLine [] h = tt
IsListable-IsLine (id ∷ ids) (h, hs) = ((no_newline id h.0, h.2), IsListable-IsLine ids hs)

listed-ids : (ids : List Text) → All IsListable ids → listed (map drop_cr ids) ≡ ids
unfolding listed
listed-ids [] h = refl
listed-ids (id ∷ ids) ((clean, named, short), hs) =
    rw (drop_cr_clean id clean, trim_space_clean id clean, named)
      (ap (λ r. id ∷ r) (listed-ids ids hs))

others-IsListable :
    (id : Text) (ids : List Text) → All IsListable ids → All IsListable (others id ids)
unfolding others
others-IsListable id [] h = tt
others-IsListable id (j ∷ ids) (h, hs) = ground (arith, others-IsListable id ids hs)

member-others :
    (id j : Text) (ids : List Text) → member j (others id ids) ≡ (not (same id j) && member j ids)
unfolding others member
member-others id j [] = ground arith
member-others id j (i ∷ ids) = elim (Text-discrete i id) [
  | yes p ↦ rw p (ground (arith, member-others id j ids))
  | no n ↦ elim (Text-discrete id j) [
    | yes q ↦
        let apart : ¬ (i ≡ j) = λ r. n (r ∙ sym q) in ground (arith, apart, member-others id j ids)
    | no m ↦ ground (arith, member-others id j ids)
  ]
]

join_lines : (id : Text) (ids : List Text) → join 10 (id ∷ ids) ++ 10 ∷ [] ≡ lines_text (id ∷ ids)
unfolding join
join_lines id [] = refl
join_lines id (j ∷ ids) =
    append_assoc id (10 ∷ join 10 (j ∷ ids)) (10 ∷ []) ∙ ap (λ t. id ++ 10 ∷ t) (join_lines j ids)

-- The lines of the file that `removeRevoked` writes
written : List Text → List Text
written [] = [] ∷ []
written (id ∷ ids) = id ∷ ids

join-written : (ids : List Text) → join 10 ids ++ 10 ∷ [] ≡ lines_text (written ids)
unfolding written join
join-written [] = refl
join-written (id ∷ ids) = join_lines id ids

written-IsLine : (ids : List Text) → All IsListable ids → All IsLine (written ids)
unfolding written byte_len
written-IsLine [] h = ((tt, ground arith), tt)
written-IsLine (id ∷ ids) h = IsListable-IsLine (id ∷ ids) h

listed-written : (ids : List Text) → All IsListable ids → listed (map drop_cr (written ids)) ≡ ids
unfolding written listed trim_space drop_cr
listed-written [] h = refl
listed-written (id ∷ ids) h = listed-ids (id ∷ ids) h

-- Once the console has removed an id from a file of ids, one on a line, the signer that reads the file
-- holds as revoked the other ids of it and no others.
pub console_restore_reaches_signer :
    (env : Env) (f : Files) (ids : List Text) (id : Text) (a : AuthManager)
    → f.revoked ≡ contents (lines_text ids)
    → All IsListable ids
    → env.can_write_revoked ≡ true
    → (f' : Files) × (a' : AuthManager) × (text : Text) × (remove_revoked_file env f id ≡ ok f')
      × (f'.revoked ≡ contents text)
      × (load_revoked (record a { revoked = [] }) (contents (scan_text text)) ≡ ok a')
      × ((j : Text) → member j a'.revoked ≡ (not (same id j) && member j ids))
unfolding remove_revoked_file write_revoked member
console_restore_reaches_signer env f ids id a e h writes =
    let rest = others id ids in
    let kept = others-IsListable id ids h in
    let text = join 10 rest ++ 10 ∷ [] in
    (
      record f { revoked = contents text },
      record a { revoked = load_revoked_from [] (map drop_cr (written rest)) },
      text,
      rw (read_revoked-lines f ids e (IsListable-IsLine ids h), listed-ids ids h, writes),
      refl,
      ap (λ t. load_revoked (record a { revoked = [] }) (contents (scan_text t)))
            (join-written rest)
          ∙ load_lines a (written rest) (written-IsLine rest kept),
      λ j.
          load_revoked_from-listed [] (map drop_cr (written rest)) j
          ∙ ap (member j) (listed-written rest kept)
          ∙ member-others id j ids,
    )
