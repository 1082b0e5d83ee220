-- ===== src/Edge/Routes/Spec.antt =====
-- What a plugin route takes from its specification.
use myzerossl.Prelude.{
  ◌≡◌, inl, inr, refl, sym, ap, ◌∙◌, [], ◌∷◌, arith, map, is_empty, Bool-cases, if◌then◌else◌,
}
use myzerossl.Prelude.Result.{Result, ok}
use myzerossl.Text.{Text, codes, same, trim_space, to_lower}
use myzerossl.Edge.Routes.Sets.{
  HoldsFilled, make_host_set-HoldsFilled, clean_path_list-HoldsFilled, make_path_set-HoldsFilled,
}
use myzerossl.Edge.Routes.{
  Url, PluginRouteSpec, Dialer, Transport, http_plugin, h2c, PluginRoute, transport_for,
  http_protocol, h2c_protocol, protocol_of, outbound_of, proxy_backend, route_with,
  plugin_dial_context,
}

abbrev pub dialer_of : Transport → Dialer
dialer_of (http_plugin d) = d
dialer_of (h2c d) = d

-- The parts of the route are those of its specification: the parsed backend, as plain HTTP for the
-- protocol h2c; the trimmed headers; the outbound proxy, or else the default one, with the dialer that
-- stands for it; and the hosts in lower case and the paths, without the blank ones.
pub record IsRouteOf (parse_url : Text → Result Url) (from_url : Url → Result Dialer)
    (default_outbound_proxy : Text) (spec : PluginRouteSpec) (route : PluginRoute) : Type 0 where
  pub name : route.name ≡ spec.name
  pub protocol : route.protocol ≡ (
      if is_empty (trim_space spec.protocol)
      then codes "http"
      else to_lower (trim_space spec.protocol))
  pub parsed : Url
  pub backend : parse_url spec.backend ≡ ok parsed
  pub address : (route.backend.host ≡ parsed.host) × (route.backend.path ≡ parsed.path)
  pub scheme :
      route.backend.scheme
      ≡ (if same route.protocol (codes "h2c") then codes "http" else parsed.scheme)
  pub host_header : route.host_header ≡ trim_space spec.host_header
  pub forward_host : route.forward_host ≡ trim_space spec.forward_host
  pub outbound : route.outbound_proxy ≡ (
      if is_empty (trim_space spec.outbound_proxy)
      then trim_space default_outbound_proxy
      else trim_space spec.outbound_proxy)
  pub dials :
      plugin_dial_context parse_url from_url route.outbound_proxy ≡ ok (dialer_of route.transport)
  pub hosts : HoldsFilled route.hosts (map (λ v. to_lower (trim_space v)) spec.hosts)
  pub exact_paths : HoldsFilled route.exact_paths (map trim_space spec.exact_paths)
  pub path_prefixes : HoldsFilled route.path_prefixes (map trim_space spec.path_prefixes)

to_lower-empty : (t : Text) → is_empty (to_lower t) ≡ is_empty t
unfolding to_lower
to_lower-empty [] = refl
to_lower-empty (c ∷ t) = refl

transport_for-dialer :
    (protocol written : Text) (dialer : Dialer) (t : Transport)
    → transport_for protocol written dialer ≡ ok t
    → dialer_of t ≡ dialer
unfolding transport_for
transport_for-dialer protocol written dialer t h = elim (Bool-cases (http_protocol protocol)) [
  | inl e ↦ let q : http_plugin dialer ≡ t = ground arith in sym (ap dialer_of q)
  | inr n ↦ elim (Bool-cases (h2c_protocol protocol)) [
    | inl e ↦ let q : h2c dialer ≡ t = ground arith in sym (ap dialer_of q)
    | inr m ↦ absurd (ground arith)
  ]
]

proxy_backend-scheme :
    (protocol : Text) (backend : Url)
    → (proxy_backend protocol backend).scheme
      ≡ (if same protocol (codes "h2c") then codes "http" else backend.scheme)
unfolding proxy_backend
proxy_backend-scheme protocol backend = elim (Bool-cases (same protocol (codes "h2c"))) [
  | inl e ↦ rw e
  | inr e ↦ rw e
]

proxy_backend-address :
    (protocol : Text) (backend : Url)
    → ((proxy_backend protocol backend).host ≡ backend.host)
      × ((proxy_backend protocol backend).path ≡ backend.path)
unfolding proxy_backend
proxy_backend-address protocol backend = elim (Bool-cases (same protocol (codes "h2c"))) [
  | inl e ↦ rw e (refl, refl)
  | inr e ↦ rw e (refl, refl)
]

pub route_with-IsRouteOf :
    (parse_url : Text → Result Url) (from_url : Url → Result Dialer) (default_outbound_proxy : Text)
    (spec : PluginRouteSpec) (parsed : Url) (dialer : Dialer) (t : Transport)
    → parse_url spec.backend ≡ ok parsed
    → plugin_dial_context parse_url from_url (outbound_of spec default_outbound_proxy) ≡ ok dialer
    → transport_for (protocol_of spec) spec.protocol dialer ≡ ok t
    → IsRouteOf parse_url from_url default_outbound_proxy spec
        (route_with spec (outbound_of spec default_outbound_proxy) parsed t)
unfolding route_with
route_with-IsRouteOf parse_url from_url default_outbound_proxy spec parsed dialer t p d q = record {
  name = refl;
  protocol = unfold protocol_of in rw (to_lower-empty (trim_space spec.protocol));
  parsed = parsed;
  backend = p;
  address = proxy_backend-address (protocol_of spec) parsed;
  scheme = proxy_backend-scheme (protocol_of spec) parsed;
  host_header = refl;
  forward_host = refl;
  outbound = unfold outbound_of in refl;
  dials = d ∙ sym (ap ok (transport_for-dialer (protocol_of spec) spec.protocol dialer t q));
  hosts = make_host_set-HoldsFilled spec.hosts;
  exact_paths = make_path_set-HoldsFilled spec.exact_paths;
  path_prefixes = clean_path_list-HoldsFilled spec.path_prefixes;
}
