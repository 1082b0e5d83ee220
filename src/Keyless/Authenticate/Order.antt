-- ===== src/Keyless/Authenticate/Order.antt =====
-- `authenticate` ranges over a Go map, whose order is not fixed: when the order matters.
use mathlib.Core.List.{Perm, Permᴰ}
use mathlib.Core.Logic.{∥∥₁_elim}
use myzerossl.Prelude.{true, false, ◌≡◌, refl, ◌∙◌, List, [], ◌∷◌, arith, is_empty}
use myzerossl.Text.{Text}
use myzerossl.Map.{Map}
use myzerossl.Keyless.State.{ClientState, AuthManager}
use myzerossl.Keyless.Authenticate.{Verdict, find_client, authenticate}
use myzerossl.Keyless.Authenticate.Exact.{IsActive, IsFresh, HasDistinctTokens}

IsFresh-perm :
    (token : Text) {m n : Map ClientState} → Permᴰ m n → IsFresh token m → IsFresh token n
IsFresh-perm token Permᴰ.nil f = f
IsFresh-perm token (Permᴰ.cons e p) f = ground (arith, IsFresh-perm token p f.1)
IsFresh-perm token (Permᴰ.swap e e') f = ground arith
IsFresh-perm token (Permᴰ.trans p q) f = IsFresh-perm token q (IsFresh-perm token p f)

HasDistinctTokens-perm :
    {m n : Map ClientState} → Permᴰ m n → HasDistinctTokens m → HasDistinctTokens n
HasDistinctTokens-perm Permᴰ.nil d = d
HasDistinctTokens-perm (Permᴰ.cons {a = a} e p) d =
    let rest = HasDistinctTokens-perm p d.1 in
    let fresh = IsFresh-perm a.1.cfg.token p d.0 in ground arith
HasDistinctTokens-perm (Permᴰ.swap e e') d = ground arith
HasDistinctTokens-perm (Permᴰ.trans p q) d = HasDistinctTokens-perm q (HasDistinctTokens-perm p d)

find_client-perm :
    (revoked : List Text) (token : Text) {m n : Map ClientState}
    → Permᴰ m n
    → HasDistinctTokens m
    → find_client revoked token n ≡ find_client revoked token m
unfolding find_client
find_client-perm revoked token Permᴰ.nil d = refl
find_client-perm revoked token (Permᴰ.cons e p) d =
    ground (arith, find_client-perm revoked token p d.1)
find_client-perm revoked token (Permᴰ.swap e e') d = ground arith
find_client-perm revoked token (Permᴰ.trans p q) d =
    find_client-perm revoked token q (HasDistinctTokens-perm p d)
    ∙ find_client-perm revoked token p d

is_empty-perm : {m n : Map ClientState} → Permᴰ m n → is_empty n ≡ is_empty m
is_empty-perm Permᴰ.nil = refl
is_empty-perm (Permᴰ.cons e p) = refl
is_empty-perm (Permᴰ.swap e e') = refl
is_empty-perm (Permᴰ.trans p q) = is_empty-perm q ∙ is_empty-perm p

Verdict-set : IsSet Verdict
Verdict-set = hlevel

-- If no two clients share a token, `authenticate` gives the same verdict in whatever order the map of
-- clients is visited.
pub authenticate_order_independent :
    (a : AuthManager) (token : Text) (clients : Map ClientState)
    → HasDistinctTokens a.clients
    → Perm a.clients clients
    → authenticate (record a { clients = clients }) token ≡ authenticate a token
unfolding authenticate
authenticate_order_independent a token clients d p =
    ∥∥₁_elim p (Verdict-set _ _)
      λ q. ground (arith, find_client-perm a.revoked token q d, is_empty-perm q)

-- If an active and a disabled client have the same token, one order of the two in the map of
-- clients accepts the token and the other refuses it.
pub authenticate_order_matters :
    (a : AuthManager) (token active_id disabled_id : Text) (active disabled : ClientState)
    → active.cfg.token ≡ token
    → disabled.cfg.token ≡ token
    → IsActive a.revoked active_id active
    → disabled.cfg.disabled ≡ true
    → ((authenticate
          (record a { clients = (active_id, active) ∷ (disabled_id, disabled) ∷ [] })
          token).ok
        ≡ true)
      × ((authenticate
            (record a { clients = (disabled_id, disabled) ∷ (active_id, active) ∷ [] })
            token).ok
          ≡ false)
unfolding authenticate
authenticate_order_matters a token i j s t fits fits' h off = (ground arith, ground arith)
