-- ===== src/Keyless/Authenticate/Exact.antt =====
-- Exactly which tokens `authenticate` accepts, and for which client.
use myzerossl.Prelude.{
  true, false, ◌≡◌, ◌≢◌, ◌↔◌, List, [], ◌∷◌, some, arith, All, Bool-cases, inl, inr,
}
use myzerossl.Text.{Text, same}
use myzerossl.Map.{Map, lookup, member, HasDistinctKeys}
use myzerossl.Keyless.State.{ClientState, AuthManager}
use myzerossl.Keyless.Authenticate.{accepted, judge, find_client, authenticate}

-- The client may sign: enabled, not auto-disabled and not revoked.
pub record IsActive (revoked : List Text) (id : Text) (state : ClientState) : Type 0 where
  pub enabled : state.cfg.disabled ≡ false
  pub kept : state.auto_disabled ≡ false
  pub unrevoked : member id revoked ≡ false

-- An active client with the token stands under the id.
pub record Admits (revoked : List Text) (m : Map ClientState) (token id : Text) : Type 0 where
  pub state : ClientState
  pub found : lookup id m ≡ some state
  pub fits : state.cfg.token ≡ token
  pub active : IsActive revoked id state

-- No two clients share a token.
abbrev pub IsFresh : Text → Map ClientState → Type 0
IsFresh token = All λ e. e.1.cfg.token ≢ token

abbrev pub HasDistinctTokens : Map ClientState → Type 0
HasDistinctTokens [] = Unit
HasDistinctTokens ((id, state) ∷ m) = IsFresh state.cfg.token m × HasDistinctTokens m

judge_accepts :
    (revoked : List Text) (k : Text) (state : ClientState) (id : Text)
    → judge revoked k state ≡ accepted id
    → (k ≡ id) × IsActive revoked k state
unfolding judge
judge_accepts revoked k state id h = ground arith

judge-IsActive :
    (revoked : List Text) (id : Text) (state : ClientState)
    → IsActive revoked id state
    → judge revoked id state ≡ accepted id
unfolding judge
judge-IsActive revoked id state h = ground arith

find_client_sound :
    (revoked : List Text) (token : Text) (m : Map ClientState) (id : Text)
    → HasDistinctKeys m
    → find_client revoked token m ≡ accepted id
    → Admits revoked m token id
unfolding find_client lookup
find_client_sound revoked token [] id d h = cc
find_client_sound revoked token ((k, s) ∷ m) id d h = elim (Bool-cases (same token s.cfg.token)) [
  | inl fits ↦ record {
    state = s;
    found = ground (arith, judge_accepts revoked k s id);
    fits = ground arith;
    active = ground (arith, judge_accepts revoked k s id);
  }
  | inr other ↦
      let later = find_client_sound revoked token m id d.1 (ground arith) in
      record { state = later.state; found = ground arith; fits = later.fits; active = later.active }
]

IsFresh-lookup :
    (token : Text) (m : Map ClientState) (id : Text) (state : ClientState)
    → IsFresh token m
    → lookup id m ≡ some state
    → state.cfg.token ≢ token
unfolding lookup
IsFresh-lookup token [] id state f h = cc
IsFresh-lookup token ((k, s) ∷ m) id state f h = ground (arith, IsFresh-lookup token m id state)

find_client_complete :
    (revoked : List Text) (token : Text) (m : Map ClientState) (id : Text) (state : ClientState)
    → HasDistinctTokens m
    → lookup id m ≡ some state
    → state.cfg.token ≡ token
    → IsActive revoked id state
    → find_client revoked token m ≡ accepted id
unfolding find_client lookup
find_client_complete revoked token [] id state t h fits active = cc
find_client_complete revoked token ((k, s) ∷ m) id state t h fits active = ground (
  arith,
  find_client_complete revoked token m id state,
  judge-IsActive revoked id state,
  IsFresh-lookup s.cfg.token m id state,
)

-- In clients mode, with distinct ids and distinct tokens, `authenticate` accepts a token for a client
-- exactly when that client is configured with the token and is enabled, not auto-disabled and not
-- revoked.
pub authenticate_exact :
    (a : AuthManager) (token id : Text)
    → a.clients_mode ≡ true
    → HasDistinctKeys a.clients
    → HasDistinctTokens a.clients
    → (authenticate a token ≡ accepted id) ↔ Admits a.revoked a.clients token id
unfolding authenticate
authenticate_exact a token id mode d t = (
  (λ h. find_client_sound a.revoked token a.clients id d (ground arith)),
  (λ h.
      let e = find_client_complete a.revoked token a.clients id h.state t h.found h.fits h.active in
      rw mode e),
)
