-- ===== src/Tests/Routes.antt =====
-- cmd/edgeproxy/main.go, plugin routes at concrete inputs.
use myzerossl.Prelude.{true, [], ◌∷◌, some, ◌≡◌, ◌⊎◌, List, refl}
use myzerossl.Prelude.Result.{Result, ok, err, contents}
use myzerossl.Text.{
  Text, codes, Text-discrete, trim_space, to_lower, cut, has_prefix, has_suffix, split, equal_fold,
}
use myzerossl.Map.{add, member, lookup}
use myzerossl.Edge.Http.{Request, get, set, canonical_key, canonical_from, is_token_char}
use myzerossl.Edge.Certificates.{clean_host}
use myzerossl.Edge.Routes.{
  Url, PluginRouteSpec, Dialer, direct, http_plugin, PluginRoute, add_host, make_host_set_from,
  make_host_set, clean_path_list, make_path_set_from, make_path_set, http_protocol, h2c_protocol,
  transport_for, protocol_of, outbound_of, proxy_backend, route_with, plugin_dial_context,
  new_plugin_route, routes_from, load_plugin_routes, wildcard_matches, host_set_matches, matches,
  match_route, director, header_has_token, is_web_socket_upgrade,
}
use myzerossl.Edge.Routes.Matching.{IsChoice, match_route-IsChoice}
use myzerossl.Edge.Routes.Loading.{AreRoutesOf, load_plugin_routes_sound}

-- A parser of URLs with a scheme and a host
abbrev parse_url : Text → Result Url
parse_url u = ok (record { scheme = codes "http"; host = u; path = [] })

abbrev from_url : Url → Result Dialer
from_url u = err (codes "unknown scheme")

abbrev spec : PluginRouteSpec
spec = record {
  name = codes "chat";
  hosts = codes "*.A.test " ∷ [];
  exact_paths = codes " " ∷ [];
  path_prefixes = codes "/chat" ∷ [];
  backend = codes "10.0.0.1";
  host_header = [];
  forward_host = codes "x-host";
  protocol = codes " WS";
  outbound_proxy = [];
}

abbrev route : PluginRoute
route = record {
  name = codes "chat";
  protocol = codes "ws";
  backend = record { scheme = codes "http"; host = codes "10.0.0.1"; path = [] };
  host_header = [];
  forward_host = codes "x-host";
  outbound_proxy = [];
  hosts = codes "*.a.test" ∷ [];
  exact_paths = [];
  path_prefixes = codes "/chat" ∷ [];
  transport = http_plugin direct;
}

abbrev request : Request
request = record {
  method = codes "GET";
  host = codes "B.a.test:443";
  request_uri = codes "/chat/1";
  path = codes "/chat/1";
  header =
      (codes "Upgrade", codes "WebSocket" ∷ [])
      ∷ (codes "Connection", codes "keep-alive, Upgrade" ∷ [])
      ∷ [];
}

loaded :
    load_plugin_routes parse_url from_url (codes "/r.json") (contents (spec ∷ [])) []
    ≡ ok (route ∷ [])
unfolding load_plugin_routes routes_from new_plugin_route plugin_dial_context route_with
    proxy_backend protocol_of outbound_of transport_for http_protocol h2c_protocol make_host_set
    make_host_set_from add_host make_path_set make_path_set_from clean_path_list trim_space to_lower
    add member Text-discrete
loaded = refl

taken : match_route (route ∷ []) request ≡ some route
unfolding match_route matches host_set_matches wildcard_matches member clean_host cut trim_space
    to_lower has_prefix has_suffix Text-discrete
taken = refl

directed : director (λ r. r) route request ≡ record request {
  header =
      (codes "Upgrade", codes "WebSocket" ∷ [])
      ∷ (codes "Connection", codes "keep-alive, Upgrade" ∷ [])
      ∷ (codes "X-Host", codes "b.a.test" ∷ [])
      ∷ [];
}
unfolding director set canonical_key canonical_from is_token_char clean_host cut trim_space to_lower
    myzerossl.Map.insert Text-discrete
directed = refl

upgrade : is_web_socket_upgrade request ≡ true
unfolding is_web_socket_upgrade header_has_token equal_fold get lookup split trim_space to_lower
    Text-discrete
upgrade = refl

match_route-IsChoice_example : IsChoice (route ∷ []) request (match_route (route ∷ []) request)
match_route-IsChoice_example = match_route-IsChoice (route ∷ []) request

load_plugin_routes_sound_example :
    ((trim_space (codes "/r.json") ≡ []) × ((route ∷ []) ≡ []))
    ⊎ ((specs : List PluginRouteSpec) × (contents (spec ∷ []) ≡ contents specs)
        × AreRoutesOf parse_url from_url [] specs (route ∷ []))
load_plugin_routes_sound_example =
    load_plugin_routes_sound parse_url from_url (codes "/r.json") (contents (spec ∷ [])) []
      (route ∷ []) loaded
