-- ===== src/Edge/Routes/Loading.antt =====
-- What a file of plugin routes has to say for its routes to be loaded.
use myzerossl.Prelude.{
  true, false, ◌≡◌, ◌≢◌, ◌⊎◌, inl, inr, refl, sym, List, [], ◌∷◌, ◌++◌, ◌&&◌, All, arith, is_empty,
  Bool-cases,
}
use myzerossl.Prelude.Result.{Result, ok, Result-cases, FileRead, missing, failed, contents}
use myzerossl.Text.{Text, trim_space, to_lower}
use myzerossl.Map.{member, add}
use myzerossl.Edge.Routes.Spec.{IsRouteOf, route_with-IsRouteOf}
use myzerossl.Edge.Routes.{
  Url, PluginRouteSpec, Dialer, Transport, http_plugin, h2c, PluginRoute, add_host,
  make_host_set_from, make_host_set, clean_path_list, make_path_set_from, make_path_set,
  http_protocol, h2c_protocol, transport_for, protocol_of, outbound_of, proxy_backend,
  require_paths, require_address, route_with, plugin_dial_context, new_plugin_route, routes_from,
  load_plugin_routes,
}

abbrev pub HasNoBlank : List Text → Type 0
HasNoBlank = All (λ t. t ≢ [])

abbrev pub HasTransport : Text → Transport → Type 0
HasTransport protocol (http_plugin d) = http_protocol protocol ≡ true
HasTransport protocol (h2c d) = h2c_protocol protocol ≡ true

-- The backend has an address, the transport is the one of the protocol, and some path is there to match.
pub record IsUsable (route : PluginRoute) : Type 0 where
  pub scheme : route.backend.scheme ≢ []
  pub address : route.backend.host ≢ []
  pub transport : HasTransport route.protocol route.transport
  pub hosts : HasNoBlank route.hosts
  pub exact_paths : HasNoBlank route.exact_paths
  pub path_prefixes : HasNoBlank route.path_prefixes
  pub some_path : (route.exact_paths ≢ []) ⊎ (route.path_prefixes ≢ [])

not_empty : (t : Text) → is_empty t ≡ false → t ≢ []
not_empty t e = ground arith

append-HasNoBlank : (s : List Text) (t : Text) → HasNoBlank s → t ≢ [] → HasNoBlank (s ++ t ∷ [])
append-HasNoBlank [] t h n = (n, tt)
append-HasNoBlank (x ∷ s) t (hx, hs) n = (hx, append-HasNoBlank s t hs n)

add-HasNoBlank : (t : Text) (s : List Text) → HasNoBlank s → t ≢ [] → HasNoBlank (add t s)
unfolding add
add-HasNoBlank t s h n = elim (Bool-cases (member t s)) [
  | inl e ↦ rw e h
  | inr e ↦ rw e (append-HasNoBlank s t h n)
]

add_host-HasNoBlank : (value : Text) (s : List Text) → HasNoBlank s → HasNoBlank (add_host value s)
unfolding add_host
add_host-HasNoBlank value s h =
    let name = to_lower (trim_space value) in
    elim (Bool-cases (is_empty name)) [
      | inl e ↦ rw e h
      | inr e ↦ rw e (add-HasNoBlank name s h (not_empty name e))
    ]

make_host_set-HasNoBlank :
    (values seen : List Text) → HasNoBlank seen → HasNoBlank (make_host_set_from values seen)
unfolding make_host_set_from
make_host_set-HasNoBlank [] seen h = h
make_host_set-HasNoBlank (value ∷ values) seen h =
    make_host_set-HasNoBlank values (add_host value seen) (add_host-HasNoBlank value seen h)

clean_path_list-HasNoBlank : (values : List Text) → HasNoBlank (clean_path_list values)
unfolding clean_path_list
clean_path_list-HasNoBlank [] = tt
clean_path_list-HasNoBlank (value ∷ values) =
    let rest = clean_path_list-HasNoBlank values in
    let path = trim_space value in
    elim (Bool-cases (is_empty path)) [ inl e ↦ rw e rest | inr e ↦ rw e (not_empty path e, rest) ]

make_path_set-HasNoBlank :
    (values seen : List Text)
    → HasNoBlank values
    → HasNoBlank seen
    → HasNoBlank (make_path_set_from values seen)
unfolding make_path_set_from
make_path_set-HasNoBlank [] seen hv h = h
make_path_set-HasNoBlank (value ∷ values) seen (hv, hs) h =
    make_path_set-HasNoBlank values (add value seen) hs (add-HasNoBlank value seen h hv)

transport_for-HasTransport :
    (protocol written : Text) (dialer : Dialer) (t : Transport)
    → transport_for protocol written dialer ≡ ok t
    → HasTransport protocol t
unfolding transport_for
transport_for-HasTransport protocol written dialer t h =
    elim (Bool-cases (http_protocol protocol)) [
      | inl e ↦ let q : http_plugin dialer ≡ t = ground arith in rw (← q) e
      | inr n ↦ elim (Bool-cases (h2c_protocol protocol)) [
        | inl e ↦ let q : h2c dialer ≡ t = ground arith in rw (← q) e
        | inr m ↦ absurd (ground arith)
      ]
    ]

some_path_of :
    (exact prefixes : List Text)
    → (is_empty exact && is_empty prefixes) ≡ false
    → (exact ≢ []) ⊎ (prefixes ≢ [])
some_path_of [] [] h = cc
some_path_of [] (p ∷ prefixes) h = inr (λ e. cc)
some_path_of (p ∷ exact) prefixes h = inl (λ e. cc)

-- The checks at the end of `newPluginRoute`
route_with-IsUsable :
    (spec : PluginRouteSpec) (outbound_proxy : Text) (parsed backend : Url) (dialer : Dialer)
    (t : Transport) (route : PluginRoute)
    → require_address parsed ≡ ok backend
    → transport_for (protocol_of spec) spec.protocol dialer ≡ ok t
    → require_paths (route_with spec outbound_proxy backend t) ≡ ok route
    → (route ≡ route_with spec outbound_proxy backend t) × IsUsable route
unfolding route_with make_host_set make_path_set proxy_backend
route_with-IsUsable spec outbound_proxy parsed backend dialer t route has_address has_protocol
      has_paths =
    let made = route_with spec outbound_proxy backend t in
    let same_route : made ≡ route = ground arith in
    let usable : IsUsable made = record {
      scheme = ground arith;
      address = ground arith;
      transport = transport_for-HasTransport (protocol_of spec) spec.protocol dialer t has_protocol;
      hosts = make_host_set-HasNoBlank spec.hosts [] tt;
      exact_paths =
          make_path_set-HasNoBlank (clean_path_list spec.exact_paths) []
            (clean_path_list-HasNoBlank spec.exact_paths) tt;
      path_prefixes = clean_path_list-HasNoBlank spec.path_prefixes;
      some_path =
          some_path_of (make_path_set spec.exact_paths) (clean_path_list spec.path_prefixes)
            (ground arith);
    } in
    (sym same_route, rw (← same_route) usable)

module _ (parse_url : Text → Result Url) (from_url : Url → Result Dialer) where
  -- One route for each specification, in their order, made of it and usable
  abbrev pub AreRoutesOf : Text → List PluginRouteSpec → List PluginRoute → Type 0
  AreRoutesOf d [] [] = Unit
  AreRoutesOf d [] (route ∷ routes) = ⊥
  AreRoutesOf d (spec ∷ specs) [] = ⊥
  AreRoutesOf d (spec ∷ specs) (route ∷ routes) =
      IsRouteOf parse_url from_url d spec route × IsUsable route × AreRoutesOf d specs routes

  require_address-same :
      (parsed backend : Url) → require_address parsed ≡ ok backend → parsed ≡ backend
  require_address-same parsed backend h = ground arith

  new_plugin_route-IsUsable :
      (spec : PluginRouteSpec) (default_outbound_proxy : Text) (route : PluginRoute)
      → new_plugin_route parse_url from_url spec default_outbound_proxy ≡ ok route
      → IsRouteOf parse_url from_url default_outbound_proxy spec route × IsUsable route
  unfolding new_plugin_route
  new_plugin_route-IsUsable spec default_outbound_proxy route h =
      let outbound_proxy = outbound_of spec default_outbound_proxy in
      elim (Bool-cases (is_empty spec.backend)) [
        | inl bad ↦ absurd (ground arith)
        | inr good ↦ elim (Result-cases (parse_url spec.backend)) [
          | inl (m, e) ↦ absurd (ground arith)
          | inr (parsed, p) ↦ elim (Result-cases (require_address parsed)) [
            | inl (m, e) ↦ absurd (ground arith)
            | inr (backend, b) ↦
                elim (Result-cases (plugin_dial_context parse_url from_url outbound_proxy)) [
                  | inl (m, e) ↦ absurd (ground arith)
                  | inr (dialer, d) ↦
                      elim (Result-cases (transport_for (protocol_of spec) spec.protocol dialer)) [
                        | inl (m, e) ↦ absurd (ground arith)
                        | inr (t, q) ↦
                            let made =
                              route_with-IsUsable spec outbound_proxy parsed backend dialer t route
                                b q (ground arith) in
                            let same_address = require_address-same parsed backend b in
                            (
                              rw (made.0, ← same_address)
                                  (route_with-IsRouteOf parse_url from_url default_outbound_proxy
                                    spec parsed dialer t p d q),
                              made.1,
                            )
                      ]
                ]
          ]
        ]
      ]

  routes_from-AreRoutesOf :
      (specs : List PluginRouteSpec) (default_outbound_proxy : Text) (routes : List PluginRoute)
      → routes_from parse_url from_url specs default_outbound_proxy ≡ ok routes
      → AreRoutesOf default_outbound_proxy specs routes
  unfolding routes_from
  routes_from-AreRoutesOf [] d [] h = tt
  routes_from-AreRoutesOf [] d (route ∷ routes) h = absurd (ground arith)
  routes_from-AreRoutesOf (spec ∷ specs) d routes h =
      elim (Result-cases (new_plugin_route parse_url from_url spec d)) [
        | inl (m, e) ↦ absurd (ground arith)
        | inr (route, e) ↦ elim (Result-cases (routes_from parse_url from_url specs d)) [
          | inl (m, q) ↦ absurd (ground arith)
          | inr (rest, q) ↦
              let made : routes ≡ route ∷ rest = ground arith in
              let (made_of, usable) = new_plugin_route-IsUsable spec d route e in
              rw made (made_of, usable, routes_from-AreRoutesOf specs d rest q)
        ]
      ]

  -- When the routes of a file are loaded there is one for each specification, in the order of the file,
  -- and all of its parts are those of the specification: its name; its protocol in lower case, or `http`
  -- if it is blank; its parsed backend, as plain HTTP for the protocol h2c; its trimmed headers; its
  -- outbound proxy, or else the default one, with the dialer that it stands for; its hosts in lower case
  -- and its paths, without the blank ones. Each backend has a scheme and a host, each transport is one
  -- for the protocol, and each route has a path to match. With a blank file name there are no routes.
  pub load_plugin_routes_sound :
      (path : Text) (file : FileRead (List PluginRouteSpec)) (default_outbound_proxy : Text)
      (routes : List PluginRoute)
      → load_plugin_routes parse_url from_url path file default_outbound_proxy ≡ ok routes
      → ((trim_space path ≡ []) × (routes ≡ []))
        ⊎ ((specs : List PluginRouteSpec) × (file ≡ contents specs)
            × AreRoutesOf default_outbound_proxy specs routes)
  unfolding load_plugin_routes
  load_plugin_routes_sound path file d routes h = elim (Bool-cases (is_empty (trim_space path))) [
    | inl e ↦ inl (ground arith)
    | inr e ↦ inr (loaded file h e)
  ]
    where
      loaded :
          (file : FileRead (List PluginRouteSpec))
          → load_plugin_routes parse_url from_url path file d ≡ ok routes
          → is_empty (trim_space path) ≡ false
          → (specs : List PluginRouteSpec) × (file ≡ contents specs) × AreRoutesOf d specs routes
      loaded missing h e = absurd (ground arith)
      loaded (failed m) h e = absurd (ground arith)
      loaded (contents specs) h e =
          (specs, refl, routes_from-AreRoutesOf specs d routes (ground arith))
