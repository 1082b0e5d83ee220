-- ===== src/Console/Revoked/Reading.antt =====
-- What the console and the signer read of a revoked file that the console has written.
use myzerossl.Prelude.{
  ◌<◌, Bool, true, false, ◌||◌, ◌≡◌, ◌≢◌, refl, sym, ap, ◌∙◌, List, [], ◌∷◌, ◌++◌, arith, All, map,
  Bool-cases, inl, inr,
}
use myzerossl.Prelude.Result.{ok, contents}
use myzerossl.Text.{Text, Text-discrete, same, byte_len, trim_space, is_space}
use myzerossl.Text.Laws.{trim_space_clean}
use myzerossl.Text.Lines.{drop_cr, scan_text}
use myzerossl.Map.{member, add}
use myzerossl.Map.Laws.{member-concat, member-add}
use myzerossl.Keyless.State.{AuthManager}
use myzerossl.Keyless.Load.{names_client, load_revoked_from, load_revoked}
use myzerossl.Console.State.{Env, Files}
use myzerossl.Console.Revoked.{listed, revoked_of, read_revoked, append_line, append_revoked_file}
use myzerossl.Console.Revoked.Lines.{
  lines_text, IsLine, All-append, scan_text-lines_text, lines_text-append,
}

-- The signer holds what the console lists.
pub load_revoked_from-listed :
    (s ls : List Text) (id : Text)
    → member id (load_revoked_from s ls) ≡ (member id s || member id (listed ls))
unfolding load_revoked_from listed member
load_revoked_from-listed s [] id = ground arith
load_revoked_from-listed s (l ∷ ls) id =
    let line = trim_space l in
    ground (
      arith,
      load_revoked_from-listed s ls id,
      load_revoked_from-listed (add line s) ls id,
      member-add line id s,
    )

pub listed-append : (a b : List Text) → listed (a ++ b) ≡ listed a ++ listed b
unfolding listed
listed-append [] b = refl
listed-append (l ∷ a) b = ground (arith, listed-append a b)

pub map-append : (a b : List Text) → map drop_cr (a ++ b) ≡ map drop_cr a ++ map drop_cr b
map-append [] b = refl
map-append (l ∷ a) b = ap (λ r. drop_cr l ∷ r) (map-append a b)

-- An id that the file can hold: not empty, without white space, no comment
abbrev pub IsListable : Text → Type 0
IsListable id = All (λ c. is_space c ≡ false) id × (names_client id ≡ true) × (byte_len id < 65536)

pub no_newline : (id : Text) → All (λ c. is_space c ≡ false) id → All (λ c. c ≢ 10) id
unfolding is_space
no_newline [] h = tt
no_newline (c ∷ id) (hc, hs) = (λ e. ground arith, no_newline id hs)

pub drop_cr_clean : (id : Text) → All (λ c. is_space c ≡ false) id → drop_cr id ≡ id
unfolding drop_cr is_space
drop_cr_clean [] h = refl
drop_cr_clean (c ∷ []) (hc, hs) = ground arith
drop_cr_clean (c ∷ d ∷ id) (hc, hs) = ap (λ r. c ∷ r) (drop_cr_clean (d ∷ id) hs)

pub listed_id : (id : Text) → IsListable id → listed (map drop_cr (id ∷ [])) ≡ id ∷ []
unfolding listed
listed_id id (clean, named, short) = rw (drop_cr_clean id clean, trim_space_clean id clean, named)

pub read_revoked-lines :
    (f : Files) (ls : List Text)
    → f.revoked ≡ contents (lines_text ls)
    → All IsLine ls
    → read_revoked f ≡ ok (listed (map drop_cr ls))
unfolding read_revoked revoked_of
read_revoked-lines f ls e h = rw (e, scan_text-lines_text ls h)

append_known :
    (env : Env) (f : Files) (ls : List Text) (id : Text)
    → f.revoked ≡ contents (lines_text ls)
    → All IsLine ls
    → member id (listed (map drop_cr ls)) ≡ true
    → append_revoked_file env f id ≡ ok f
unfolding append_revoked_file
append_known env f ls id e h m = rw (read_revoked-lines f ls e h, m)

pub append_new :
    (env : Env) (f : Files) (current : List Text) (text id : Text)
    → read_revoked f ≡ ok current
    → f.revoked ≡ contents text
    → env.can_write_revoked ≡ true
    → member id current ≡ false
    → append_revoked_file env f id ≡ ok (record f { revoked = contents (text ++ (id ++ 10 ∷ [])) })
unfolding append_revoked_file append_line
append_new env f current text id lists e writes m = rw (lists, m, writes, e)

pub load_lines :
    (a : AuthManager) (ls : List Text)
    → All IsLine ls
    → load_revoked (record a { revoked = [] }) (contents (scan_text (lines_text ls)))
      ≡ ok (record a { revoked = load_revoked_from [] (map drop_cr ls) })
unfolding load_revoked
load_lines a ls h = rw (scan_text-lines_text ls h)

pub listed-new :
    (ls : List Text) (id : Text)
    → IsListable id
    → listed (map drop_cr (ls ++ id ∷ [])) ≡ listed (map drop_cr ls) ++ id ∷ []
listed-new ls id listable =
    ap listed (map-append ls (id ∷ []))
    ∙ listed-append (map drop_cr ls) (map drop_cr (id ∷ []))
    ∙ ap (λ r. listed (map drop_cr ls) ++ r) (listed_id id listable)

member-known :
    (id j : Text) (s : List Text) → member id s ≡ true → member j s ≡ (same id j || member j s)
unfolding member
member-known id j s m = elim (Text-discrete id j) [
  | yes p ↦ ground (arith, ap (λ k. member k s) p)
  | no n ↦ ground arith
]

or-swap : (x y : Bool) → (x || y) ≡ (y || x)
or-swap x y = ground arith

-- Once the console has appended an id to a file of lines that it can read and write, the file is read by
-- the signer, which then holds as revoked that id and all ids that the console listed before, and no
-- others. The id has no white space, is not empty, begins with no `#` and is shorter than 64 KiB.
pub console_revocation_reaches_signer :
    (env : Env) (f : Files) (ls : List Text) (id : Text) (a : AuthManager)
    → f.revoked ≡ contents (lines_text ls)
    → All IsLine ls
    → IsListable id
    → env.can_write_revoked ≡ true
    → (f' : Files) × (a' : AuthManager) × (text : Text) × (append_revoked_file env f id ≡ ok f')
      × (f'.revoked ≡ contents text)
      × (load_revoked (record a { revoked = [] }) (contents (scan_text text)) ≡ ok a')
      × ((j : Text) → member j a'.revoked ≡ (same id j || member j (listed (map drop_cr ls))))
unfolding member
console_revocation_reaches_signer env f ls id a e h listable writes =
    let before = listed (map drop_cr ls) in
    elim (Bool-cases (member id before)) [
      | inl m ↦ (
        f,
        record a { revoked = load_revoked_from [] (map drop_cr ls) },
        lines_text ls,
        append_known env f ls id e h m,
        e,
        load_lines a ls h,
        λ j. load_revoked_from-listed [] (map drop_cr ls) j ∙ member-known id j before m,
      )
      | inr m ↦
          let more = ls ++ id ∷ [] in
          let text = lines_text ls ++ (id ++ 10 ∷ []) in
          let whole : All IsLine more = All-append ls id h (no_newline id listable.0, listable.2) in
          (
            record f { revoked = contents text },
            record a { revoked = load_revoked_from [] (map drop_cr more) },
            text,
            append_new env f before (lines_text ls) id (read_revoked-lines f ls e h) e writes m,
            refl,
            ap (λ t. load_revoked (record a { revoked = [] }) (contents (scan_text t)))
                  (sym (lines_text-append ls id))
                ∙ load_lines a more whole,
            λ j.
                load_revoked_from-listed [] (map drop_cr more) j
                ∙ ap (member j) (listed-new ls id listable)
                ∙ member-concat j id before
                ∙ or-swap (member j before) (same id j),
          )
    ]
