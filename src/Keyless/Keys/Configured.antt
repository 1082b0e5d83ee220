-- ===== src/Keyless/Keys/Configured.antt =====
-- Where the keys of a client come from.
use myzerossl.Prelude.{
  ◌||◌, ◌≡◌, ◌≢◌, ◌⊎◌, inl, inr, sym, ap, ◌∙◌, List, [], ◌∷◌, Option, none, some, arith, is_empty,
  Exists, Bool-cases, Option-cases,
}
use myzerossl.Prelude.Result.{Result, ok, Result-cases, FileRead}
use myzerossl.Text.{Text, same, trim_space}
use myzerossl.Text.Lines.{Scanned}
use myzerossl.Map.{Map, lookup, insert}
use myzerossl.Map.Laws.{lookup-insert}
use myzerossl.Keyless.State.{ClientConfig, ClientState, AuthManager}
use myzerossl.Keyless.Load.{SignServerOptions, new_auth_manager}
use myzerossl.Keyless.Server.{SignServer, Request, header_get, key_for_request}
use myzerossl.Keyless.Protocol.{header_key_id}
use myzerossl.Keyless.Keys.{
  or_no_keys, put_key, load_named_keys, load_default_key, load_client_keys_from, load_client_keys,
  new_sign_server_with_options,
}

module _ {Key : Type 0} where
  -- The map gives the client the key under the id.
  abbrev pub Holds : Map (Map Key) → Text → Text → Key → Type 0
  Holds keys client_id key_id key =
      (own : Map Key) × (lookup client_id keys ≡ some own) × (lookup key_id own ≡ some key)

  no_key :
      (key_id : Text) (key : Key) (o : Option (Map Key))
      → o ≡ none
      → lookup key_id (or_no_keys o) ≢ some key
  unfolding lookup
  no_key key_id key none e h = ground arith
  no_key key_id key (some m) e h = ground arith

  put_key-Holds :
      (i k : Text) (v : Key) (keys : Map (Map Key)) (client_id key_id : Text) (key : Key)
      → Holds (put_key i k v keys) client_id key_id key
      → ((i ≡ client_id) × (k ≡ key_id) × (v ≡ key)) ⊎ Holds keys client_id key_id key
  unfolding put_key
  put_key-Holds i k v keys client_id key_id key (own, e, f) =
      let outer = lookup-insert i client_id (insert k v (or_no_keys (lookup i keys))) keys in
      let inner = lookup-insert k key_id v (or_no_keys (lookup i keys)) in
      elim (Bool-cases (same i client_id)) [
        | inr n ↦ inr (own, ground arith, f)
        | inl y ↦
            let q : own ≡ insert k v (or_no_keys (lookup i keys)) = ground arith in
            let g = ap (lookup key_id) (sym q) ∙ f in
            elim (Bool-cases (same k key_id)) [
              | inl z ↦ inl (ground arith, ground arith, ground arith)
              | inr z ↦ elim (Option-cases (lookup i keys)) [
                | inl none_yet ↦ absurd (no_key key_id key (lookup i keys) none_yet (ground arith))
                | inr (old, o) ↦ inr (old, ground arith, ground arith)
              ]
            ]
      ]

  made_server : Key → Map (Map Key) → AuthManager → SignServer Key
  made_server key keys auth = record { key = key; client_keys = keys; auth = auth }

  key_for_request-Holds :
      (s : SignServer Key) (client_id : Text) (r : Request) (served : Key)
      → key_for_request s client_id r ≡ some served
      → ((trim_space (header_get r header_key_id) ≡ []) × (served ≡ s.key))
        ⊎ Holds s.client_keys client_id (trim_space (header_get r header_key_id)) served
  unfolding key_for_request
  key_for_request-Holds s client_id r served h =
      let key_id = trim_space (header_get r header_key_id) in
      elim (Option-cases (lookup client_id s.client_keys)) [
        | inl n ↦ inl (ground arith, ground arith)
        | inr (own, e) ↦ elim (Option-cases (lookup key_id own)) [
          | inl n ↦ inl (ground arith, ground arith)
          | inr (key, f) ↦ inr (own, e, f ∙ ground arith)
        ]
      ]

  -- The key is loaded from the file that the configuration of the client names for the key id.
  abbrev pub IsNamed : (Text → Result Key) → Map Text → Text → Key → Type 0
  IsNamed load private_keys key_id key =
      Exists (λ e. (trim_space (e.0) ≡ key_id) × (load (trim_space (e.1)) ≡ ok key)) private_keys

  abbrev pub IsConfigured : (Text → Result Key) → ClientConfig → Text → Key → Type 0
  IsConfigured load cfg key_id key =
      IsNamed load cfg.private_keys key_id key
      ⊎ ((key_id ≡ [])
          × (trim_space cfg.private_key ≢ [])
          × (load (trim_space cfg.private_key) ≡ ok key))

  module _ (load : Text → Result Key) where
    load_named_keys-IsNamed :
        (client_id : Text) (private_keys : Map Text) (keys after : Map (Map Key)) (i k : Text)
        (key : Key)
        → load_named_keys load client_id private_keys keys ≡ ok after
        → Holds after i k key
        → ((client_id ≡ i) × IsNamed load private_keys k key) ⊎ Holds keys i k key
    unfolding load_named_keys
    load_named_keys-IsNamed c [] keys after i k key e h =
        let q : keys ≡ after = ground arith in inr (rw q h)
    load_named_keys-IsNamed c ((named, file) ∷ rest) keys after i k key e h =
        let path = trim_space file in
        elim (Bool-cases (is_empty (trim_space named) || is_empty path)) [
          | inl skip ↦ elim (load_named_keys-IsNamed c rest keys after i k key (ground arith) h) [
            | inl (own, found) ↦ inl (own, inr found)
            | inr old ↦ inr old
          ]
          | inr take ↦ elim (Result-cases (load path)) [
            | inl (m, bad) ↦ absurd (ground arith)
            | inr (loaded, good) ↦
                elim (load_named_keys-IsNamed c rest (put_key c (trim_space named) loaded keys)
                  after i k key (ground arith) h) [
                    | inl (own, found) ↦ inl (own, inr found)
                    | inr put ↦ elim (put_key-Holds c (trim_space named) loaded keys i k key put) [
                      | inl (own, name, value) ↦ inl (own, inl (name, good ∙ ap ok value))
                      | inr old ↦ inr old
                    ]
                  ]
          ]
        ]

    load_default_key-IsConfigured :
        (client_id : Text) (cfg : ClientConfig) (keys after : Map (Map Key)) (i k : Text)
        (key : Key)
        → load_default_key load client_id cfg keys ≡ ok after
        → Holds after i k key
        → ((client_id ≡ i)
            × (k ≡ [])
            × (trim_space cfg.private_key ≢ [])
            × (load (trim_space cfg.private_key) ≡ ok key))
          ⊎ Holds keys i k key
    unfolding load_default_key
    load_default_key-IsConfigured c cfg keys after i k key e h =
        let path = trim_space cfg.private_key in
        elim (Bool-cases (is_empty path)) [
          | inl none_named ↦ let q : keys ≡ after = ground arith in inr (rw q h)
          | inr named ↦ elim (Result-cases (load path)) [
            | inl (m, bad) ↦ absurd (ground arith)
            | inr (loaded, good) ↦
                let q : put_key c [] loaded keys ≡ after = ground arith in
                elim (put_key-Holds c [] loaded keys i k key (rw q h)) [
                  | inl (own, name, value) ↦ inl (own, sym name, ground arith, good ∙ ap ok value)
                  | inr old ↦ inr old
                ]
          ]
        ]

    -- A client of the map whose configuration names the key
    abbrev pub IsOwned : Map ClientState → Text → Text → Key → Type 0
    IsOwned clients client_id key_id key =
        Exists (λ e. (e.0 ≡ client_id) × IsConfigured load (e.1).cfg key_id key) clients

    load_client_keys_from-IsOwned :
        (clients : Map ClientState) (keys after : Map (Map Key)) (i k : Text) (key : Key)
        → load_client_keys_from load clients keys ≡ ok after
        → Holds after i k key
        → IsOwned clients i k key ⊎ Holds keys i k key
    unfolding load_client_keys_from
    load_client_keys_from-IsOwned [] keys after i k key e h =
        let q : keys ≡ after = ground arith in inr (rw q h)
    load_client_keys_from-IsOwned ((c, state) ∷ clients) keys after i k key e h =
        elim (Result-cases (load_named_keys load c state.cfg.private_keys keys)) [
          | inl (m, bad) ↦ absurd (ground arith)
          | inr (named, n) ↦ elim (Result-cases (load_default_key load c state.cfg named)) [
            | inl (m, bad) ↦ absurd (ground arith)
            | inr (all, d) ↦
                elim (load_client_keys_from-IsOwned clients all after i k key (ground arith) h) [
                  | inl later ↦ inl (inr later)
                  | inr held ↦
                      elim (load_default_key-IsConfigured c state.cfg named all i k key d held) [
                        | inl (own, name, n', good) ↦ inl (inl (own, inr (name, n', good)))
                        | inr before ↦
                            elim (load_named_keys-IsNamed c state.cfg.private_keys keys named i k
                              key n before) [
                                | inl (own, found) ↦ inl (inl (own, inl found))
                                | inr old ↦ inr old
                              ]
                      ]
                ]
          ]
        ]

    -- Every key with which a server made by `NewSignServerWithOptions` answers a client is the given
    -- default key, for a request that names no key, or was loaded from a file that the configuration of a
    -- client with this id names for the key id of the request.
    pub served_key-IsOwned :
        (key : Key) (opts : SignServerOptions) (clients_file : FileRead (List ClientConfig))
        (revoked_file : FileRead Scanned) (s : SignServer Key) (client_id : Text) (r : Request)
        (served : Key)
        → new_sign_server_with_options load key opts clients_file revoked_file ≡ ok s
        → key_for_request s client_id r ≡ some served
        → ((trim_space (header_get r header_key_id) ≡ []) × (served ≡ key))
          ⊎ IsOwned s.auth.clients client_id (trim_space (header_get r header_key_id)) served
    unfolding new_sign_server_with_options load_client_keys made_server
    served_key-IsOwned key opts clients_file revoked_file s client_id r served made chosen =
        elim (Result-cases (new_auth_manager opts clients_file revoked_file)) [
          | inl (m, bad) ↦ absurd (ground arith)
          | inr (auth, a) ↦ elim (Result-cases (load_client_keys_from load auth.clients [])) [
            | inl (m, bad) ↦ absurd (ground arith)
            | inr (keys, l) ↦
                let q : made_server key keys auth ≡ s = ground arith in
                let r' =
                  key_for_request-Holds (made_server key keys auth) client_id r served
                    (rw q chosen) in
                rw (← q) (elim r' [
                  | inl (blank, default) ↦ inl (blank, default)
                  | inr held ↦
                      elim (load_client_keys_from-IsOwned auth.clients [] keys client_id
                        (trim_space (header_get r header_key_id)) served l held) [
                          | inl owned ↦ inr owned
                          | inr (own, nothing, f) ↦ absurd (unfold lookup in ground arith)
                        ]
                ])
          ]
        ]
