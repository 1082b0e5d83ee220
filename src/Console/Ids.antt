-- ===== src/Console/Ids.antt =====
-- Lists of clients in which no id stands twice, and what the loops of `clientAction` do to them.
use myzerossl.Prelude.{
  Bool, false, ◌||◌, ◌≡◌, refl, ◌∙◌, List, [], ◌∷◌, ◌++◌, arith, any, Bool-cases, inl, inr,
}
use myzerossl.Prelude.Result.{Result, ok, err, FileRead, missing, failed, contents, Result-cases}
use myzerossl.Text.{Text, codes}
use myzerossl.Keyless.State.{ClientConfig}
use myzerossl.Console.State.{ClientLimitsRequest, clients_of}
use myzerossl.Console.Clients.{has_id, set_disabled, checked, limited, set_limits}

-- No two clients of the list have the same id.
abbrev pub HasDistinctIds : List ClientConfig → Type 0
HasDistinctIds [] = Unit
HasDistinctIds (c ∷ cs) = (any (has_id c.id) cs ≡ false) × HasDistinctIds cs

abbrev pub HoldsDistinctIds : FileRead (List ClientConfig) → Type 0
HoldsDistinctIds missing = Unit
HoldsDistinctIds (failed e) = Unit
HoldsDistinctIds (contents clients) = HasDistinctIds clients

any-set_disabled :
    (b : Bool) (id j : Text) (cs : List ClientConfig)
    → any (has_id j) (set_disabled b id cs) ≡ any (has_id j) cs
unfolding set_disabled
any-set_disabled b id j [] = refl
any-set_disabled b id j (c ∷ cs) = ground (arith, any-set_disabled b id j cs)

pub set_disabled-HasDistinctIds :
    (b : Bool) (id : Text) (cs : List ClientConfig)
    → HasDistinctIds cs
    → HasDistinctIds (set_disabled b id cs)
unfolding set_disabled
set_disabled-HasDistinctIds b id [] h = tt
set_disabled-HasDistinctIds b id (c ∷ cs) h =
    ground (arith, any-set_disabled b id c.id cs, set_disabled-HasDistinctIds b id cs h.1)

any-append :
    (j : Text) (c : ClientConfig) (cs : List ClientConfig)
    → any (has_id j) (cs ++ c ∷ []) ≡ (any (has_id j) cs || has_id j c)
any-append j c [] = ground arith
any-append j c (d ∷ cs) = ground (arith, any-append j c cs)

pub append-HasDistinctIds :
    (c : ClientConfig) (cs : List ClientConfig)
    → HasDistinctIds cs
    → any (has_id c.id) cs ≡ false
    → HasDistinctIds (cs ++ c ∷ [])
append-HasDistinctIds c [] h fresh = (refl, tt)
append-HasDistinctIds c (d ∷ cs) h fresh =
    ground (arith, any-append d.id c cs, append-HasDistinctIds c cs h.1)

-- One step of the loop over the clients
set_limits_inversion :
    (body : Result ClientLimitsRequest) (id : Text) (c : ClientConfig) (cs cs' : List ClientConfig)
    → set_limits body id (c ∷ cs) ≡ ok cs'
    → (d : ClientConfig) × (ds : List ClientConfig) × (body' : Result ClientLimitsRequest) × (cs'
        ≡ d ∷ ds)
      × (d.id ≡ c.id)
      × (set_limits body' id cs ≡ ok ds)
unfolding set_limits
set_limits_inversion body id c cs cs' h = elim (Bool-cases (has_id id c)) [
  | inr other ↦ elim (Result-cases (set_limits body id cs)) [
    | inl (x, e) ↦ absurd (ground arith)
    | inr (ds, e) ↦ (c, ds, body, ground arith, refl, e)
  ]
  | inl here ↦ elim (Result-cases (checked body)) [
    | inl (x, e) ↦ absurd (ground arith)
    | inr (req, e) ↦ elim (Result-cases (set_limits (err (codes "EOF")) id cs)) [
      | inl (x, e') ↦ absurd (ground arith)
      | inr (ds, e') ↦ (limited req c, ds, err (codes "EOF"), ground arith, refl, e')
    ]
  ]
]

any-set_limits :
    (body : Result ClientLimitsRequest) (id j : Text) (cs cs' : List ClientConfig)
    → set_limits body id cs ≡ ok cs'
    → any (has_id j) cs' ≡ any (has_id j) cs
any-set_limits body id j [] [] h = refl
any-set_limits body id j [] (d ∷ ds) h = unfold set_limits in cc
any-set_limits body id j (c ∷ cs) cs' h =
    let (d, ds, body', e, kept, rest) = set_limits_inversion body id c cs cs' h in
    rw e (ground (arith, kept, any-set_limits body' id j cs ds rest))

pub set_limits-HasDistinctIds :
    (body : Result ClientLimitsRequest) (id : Text) (cs cs' : List ClientConfig)
    → HasDistinctIds cs
    → set_limits body id cs ≡ ok cs'
    → HasDistinctIds cs'
set_limits-HasDistinctIds body id [] [] h e = tt
set_limits-HasDistinctIds body id [] (d ∷ ds) h e = unfold set_limits in cc
set_limits-HasDistinctIds body id (c ∷ cs) cs' h e =
    let (d, ds, body', shape, kept, rest) = set_limits_inversion body id c cs cs' e in
    rw shape (
      rw kept (any-set_limits body' id c.id cs ds rest ∙ h.0),
      set_limits-HasDistinctIds body' id cs ds h.1 rest,
    )

pub clients_of-HasDistinctIds :
    (file : FileRead (List ClientConfig)) (cs : List ClientConfig)
    → HoldsDistinctIds file
    → clients_of file ≡ ok cs
    → HasDistinctIds cs
clients_of-HasDistinctIds missing cs h e = cc
clients_of-HasDistinctIds (failed x) cs h e = cc
clients_of-HasDistinctIds (contents ds) cs h e = let same_list : ds ≡ cs = cc in rw (← same_list) h
