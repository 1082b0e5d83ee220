-- ===== src/Tests/Tunnel.antt =====
-- cmd/edgeproxy/main.go, a WebSocket tunnel at concrete inputs.
use myzerossl.Prelude.{true, ◌&&◌, ◌≡◌, ◌≢◌, refl, [], ◌∷◌, none, some}
use myzerossl.Prelude.Int.{pos}
use myzerossl.Prelude.Result.{Result, ok, err}
use myzerossl.Text.{Text, codes, equal_fold, trim_space, split, to_lower, Text-discrete}
use myzerossl.Map.{lookup}
use myzerossl.Edge.Http.{get, Request, Response}
use myzerossl.Edge.Routes.{
  Url, Dialer, direct, PluginRoute, http_plugin, plugin_dial_context, is_web_socket_protocol,
  is_web_socket_upgrade, header_has_token,
}
use myzerossl.Edge.Tunnel.{Wire, answer, serve_plugin, serve_web_socket_tunnel}
use myzerossl.Edge.Tunnel.Closing.{
  undialled, waiting, backend_after, client_after, IsReleased, IsServed, serve_plugin-IsOver,
}
use myzerossl.Edge.Tunnel.Streams.{to_client, to_backend, tunnel_drops_early}

abbrev address : Text → Result (Text × Text)
address remote = ok (codes "192.0.2.1", codes "5000")

abbrev no_url : Text → Result Url
no_url text = err (codes "no URL")

abbrev no_socks : Url → Result Dialer
no_socks url = err (codes "no SOCKS")

abbrev chat : PluginRoute
chat = record {
  name = codes "chat";
  protocol = codes "ws";
  backend = record { scheme = codes "http"; host = codes "b:80"; path = [] };
  host_header = [];
  forward_host = [];
  outbound_proxy = [];
  hosts = [];
  exact_paths = codes "/" ∷ [];
  path_prefixes = [];
  transport = http_plugin direct;
}

abbrev upgrade : Request
upgrade = record {
  method = codes "GET";
  host = codes "h";
  request_uri = codes "/";
  path = codes "/";
  header =
      (codes "Upgrade", codes "websocket" ∷ [])
      ∷ (codes "Connection", codes "keep-alive, Upgrade" ∷ [])
      ∷ [];
}

abbrev switching : Response
switching = record { status_code = 101; header = []; body = none; content_length = pos 0 }

-- The backend's first frame, 7, comes with its response.
abbrev wire : Wire
wire = record {
  hijackable = true;
  connects = λ dialer host. none;
  sends = λ req. none;
  reply = ok switching;
  backend_early = 7 ∷ [];
  hijacks = ok (1 ∷ []);
  responds = none;
  from_backend = 8 ∷ [];
  from_client = 2 ∷ [];
}

asked : (is_web_socket_protocol chat.protocol && is_web_socket_upgrade upgrade) ≡ true
unfolding is_web_socket_protocol is_web_socket_upgrade header_has_token equal_fold trim_space split
    to_lower get lookup Text-discrete
asked = refl

dials : plugin_dial_context no_url no_socks chat.outbound_proxy ≡ ok direct
unfolding plugin_dial_context trim_space
dials = refl

tunnel_drops_early_example :
    (to_backend (serve_plugin address no_url no_socks wire [] chat [] upgrade) ≡ 1 ∷ 2 ∷ [])
    × (to_client (serve_plugin address no_url no_socks wire [] chat [] upgrade) ≡ 8 ∷ [])
    × (to_client (serve_plugin address no_url no_socks wire [] chat [] upgrade) ≢ 7 ∷ 8 ∷ [])
tunnel_drops_early_example =
    tunnel_drops_early address no_url no_socks wire [] chat [] upgrade direct switching (1 ∷ [])
      asked refl dials refl refl refl refl refl refl (λ e. cc)

serve_plugin-IsOver_example :
    IsReleased
      (backend_after undialled (serve_plugin address no_url no_socks wire [] chat [] upgrade))
    × IsServed wire
        (client_after waiting (serve_plugin address no_url no_socks wire [] chat [] upgrade))
serve_plugin-IsOver_example = serve_plugin-IsOver address no_url no_socks wire [] chat [] upgrade

-- Without a connection to the backend the reply is 502.
unavailable :
    serve_plugin address no_url no_socks
      (record wire { connects = λ dialer host. some [] })
      []
      chat
      []
      upgrade
    ≡ answer 502 (codes "websocket backend unavailable") ∷ []
unfolding serve_plugin serve_web_socket_tunnel plugin_dial_context trim_space is_web_socket_protocol
    is_web_socket_upgrade header_has_token equal_fold split to_lower get lookup Text-discrete
unavailable = refl
