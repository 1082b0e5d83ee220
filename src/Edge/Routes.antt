-- ===== src/Edge/Routes.antt =====
-- cmd/edgeproxy/main.go: the plugin routes, and which of them takes a request. The parser of URLs and
-- the SOCKS library are parameters; a transport is what tells the two kinds apart.
pub mod Hosts
pub mod Matching
pub mod Sets
pub mod Spec
pub mod Loading
use myzerossl.Prelude.{
  Bool, true, false, not, ◌&&◌, ◌||◌, List, [], ◌∷◌, ◌++◌, Option, none, some, if◌then◌else◌,
  is_empty, any, drop,
}
use myzerossl.Prelude.Result.{Result, ok, err, ◌>>=◌, FileRead, missing, failed, contents}
use myzerossl.Text.{
  Text, codes, same, differ, trim_space, to_lower, equal_fold, split, has_prefix, has_suffix,
}
use myzerossl.Map.{member, add}
use myzerossl.Edge.Http.{Header, get, set, canonical_key, Request}
use myzerossl.Edge.Certificates.{clean_host}

-- A parsed URL, as far as it is read
pub record Url : Type 0 where
  pub scheme : Text
  pub host : Text
  pub path : Text

pub record PluginRouteSpec : Type 0 where
  pub name : Text
  pub hosts : List Text
  pub exact_paths : List Text
  pub path_prefixes : List Text
  pub backend : Text
  pub host_header : Text
  pub forward_host : Text
  pub protocol : Text
  pub outbound_proxy : Text

-- Whom the connections to a backend go through
pub data Dialer : Type 0 where
  direct : Dialer
  socks : Url → Dialer

pub data Transport : Type 0 where
  http_plugin h2c : Dialer → Transport

-- The proxy of a route is its backend, its transport and `director`.
pub record PluginRoute : Type 0 where
  pub name : Text
  pub protocol : Text
  pub backend : Url
  pub host_header : Text
  pub forward_host : Text
  pub outbound_proxy : Text
  pub hosts : List Text
  pub exact_paths : List Text
  pub path_prefixes : List Text
  pub transport : Transport

unfoldable pub add_host : Text → List Text → List Text
add_host value seen =
    let name = to_lower (trim_space value) in if is_empty name then seen else add name seen

unfoldable pub make_host_set_from : List Text → List Text → List Text
make_host_set_from [] seen = seen
make_host_set_from (value ∷ values) seen = make_host_set_from values (add_host value seen)

unfoldable pub make_host_set : List Text → List Text
make_host_set values = make_host_set_from values []

unfoldable pub clean_path_list : List Text → List Text
clean_path_list [] = []
clean_path_list (value ∷ values) =
    let rest = clean_path_list values in
    let path = trim_space value in if is_empty path then rest else path ∷ rest

unfoldable pub make_path_set_from : List Text → List Text → List Text
make_path_set_from [] seen = seen
make_path_set_from (value ∷ values) seen = make_path_set_from values (add value seen)

unfoldable pub make_path_set : List Text → List Text
make_path_set values = make_path_set_from (clean_path_list values) []

-- The body of the loop of `hostSetMatches`
unfoldable pub wildcard_matches : Text → Text → Bool
wildcard_matches host pattern =
    has_prefix (codes "*.") pattern
    && has_suffix (drop 1 pattern) host
    && differ host (drop 2 pattern)

unfoldable pub host_set_matches : List Text → Text → Bool
host_set_matches hosts host = member host hosts || any (wildcard_matches host) hosts

-- The protocols that `newPluginRoute` knows
unfoldable pub http_protocol : Text → Bool
http_protocol protocol =
    same protocol (codes "http")
    || same protocol (codes "http1")
    || same protocol (codes "ws")
    || same protocol (codes "websocket")

unfoldable pub h2c_protocol : Text → Bool
h2c_protocol protocol = same protocol (codes "h2c") || same protocol (codes "grpc-h2c")

unfoldable pub transport_for : Text → Text → Dialer → Result Transport
transport_for protocol written dialer =
    if http_protocol protocol
    then ok (http_plugin dialer)
    else if h2c_protocol protocol
    then ok (h2c dialer)
    else err (codes "unsupported plugin route protocol: " ++ written)

unfoldable pub protocol_of : PluginRouteSpec → Text
protocol_of spec =
    let protocol = to_lower (trim_space spec.protocol) in
    if is_empty protocol then codes "http" else protocol

unfoldable pub outbound_of : PluginRouteSpec → Text → Text
outbound_of spec default_outbound_proxy =
    let outbound_proxy = trim_space spec.outbound_proxy in
    if is_empty outbound_proxy then trim_space default_outbound_proxy else outbound_proxy

-- `proxyBackend`
unfoldable pub proxy_backend : Text → Url → Url
proxy_backend protocol backend =
    if same protocol (codes "h2c") then record backend { scheme = codes "http" } else backend

abbrev pub require_paths : PluginRoute → Result PluginRoute
require_paths route =
    if is_empty route.exact_paths && is_empty route.path_prefixes
    then err (codes "plugin route requires exact_paths or path_prefixes")
    else ok route

abbrev pub require_address : Url → Result Url
require_address backend =
    if is_empty backend.scheme || is_empty backend.host
    then err (codes "plugin route backend must include scheme and host")
    else ok backend

unfoldable pub route_with : PluginRouteSpec → Text → Url → Transport → PluginRoute
route_with spec outbound_proxy backend transport = record {
  name = spec.name;
  protocol = protocol_of spec;
  backend = proxy_backend (protocol_of spec) backend;
  host_header = trim_space spec.host_header;
  forward_host = trim_space spec.forward_host;
  outbound_proxy = outbound_proxy;
  hosts = make_host_set spec.hosts;
  exact_paths = make_path_set spec.exact_paths;
  path_prefixes = clean_path_list spec.path_prefixes;
  transport = transport;
}

-- `url.Parse`, and whether `socksproxy.FromURL` gives a dialer
module _ (parse_url : Text → Result Url) (from_url : Url → Result Dialer) where
  abbrev pub socks_url : Url → Url
  socks_url u = if same u.scheme (codes "socks5h") then record u { scheme = codes "socks5" } else u

  unfoldable pub plugin_dial_context : Text → Result Dialer
  plugin_dial_context outbound_proxy =
      if is_empty (trim_space outbound_proxy)
      then ok direct
      else do proxy_url ← parse_url outbound_proxy; from_url (socks_url proxy_url)

  unfoldable pub new_plugin_route : PluginRouteSpec → Text → Result PluginRoute
  unfolding plugin_dial_context
  new_plugin_route spec default_outbound_proxy =
      if is_empty spec.backend then err (codes "plugin route backend is required") else do
        parsed ← parse_url spec.backend
        backend ← require_address parsed
        dialer ← plugin_dial_context (outbound_of spec default_outbound_proxy)
        transport ← transport_for (protocol_of spec) spec.protocol dialer
        require_paths (route_with spec (outbound_of spec default_outbound_proxy) backend transport)

  -- The loop of `loadPluginRoutes`
  unfoldable pub routes_from : List PluginRouteSpec → Text → Result (List PluginRoute)
  routes_from [] default_outbound_proxy = ok []
  routes_from (spec ∷ specs) default_outbound_proxy = do
    route ← new_plugin_route spec default_outbound_proxy
    routes ← routes_from specs default_outbound_proxy
    ok (route ∷ routes)

  -- The path of the file, what reading and decoding it gives, and the default
  unfoldable pub load_plugin_routes :
      Text → FileRead (List PluginRouteSpec) → Text → Result (List PluginRoute)
  load_plugin_routes path file default_outbound_proxy =
      if is_empty (trim_space path) then ok [] else elim file [
        | missing ↦ err (codes "no such file")
        | failed e ↦ err e
        | contents specs ↦ routes_from specs default_outbound_proxy
      ]

unfoldable pub matches : PluginRoute → Request → Bool
matches route req =
    (is_empty route.hosts || host_set_matches route.hosts (clean_host req.host))
    && (member req.path route.exact_paths
        || any (λ prefix. has_prefix prefix req.path) route.path_prefixes)

-- `match`
unfoldable pub match_route : List PluginRoute → Request → Option PluginRoute
match_route [] req = none
match_route (route ∷ routes) req =
    let rest = match_route routes req in if matches route req then some route else rest

-- What the director of a route changes of a request beside its URL, given the original director
unfoldable pub director : (Request → Request) → PluginRoute → Request → Request
director original route req =
    let sent = original req in
    let named = if is_empty route.host_header then sent else record sent {
      host = route.host_header;
      header = set sent.header (codes "Host") route.host_header;
    } in
    if is_empty route.forward_host || is_empty (clean_host req.host) then named else record named {
      header = set named.header (canonical_key route.forward_host) (clean_host req.host);
    }

unfoldable pub header_has_token : Text → Text → Bool
header_has_token value token = any (λ part. equal_fold (trim_space part) token) (split b',' value)

unfoldable pub is_web_socket_protocol : Text → Bool
is_web_socket_protocol protocol = same protocol (codes "ws") || same protocol (codes "websocket")

unfoldable pub is_web_socket_upgrade : Request → Bool
is_web_socket_upgrade r =
    equal_fold (get r.header (codes "Upgrade")) (codes "websocket")
    && header_has_token (get r.header (codes "Connection")) (codes "upgrade")
