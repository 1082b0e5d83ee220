-- ===== src/Edge/Tunnel.antt =====
-- cmd/edgeproxy/main.go: what a plugin route does with a request, `serveWebSocketTunnel` above all, as the
-- list of what it does to the two connections. What the network does is the parameter `Wire`; the two
-- copies of `tunnelConns` run at the same time and touch different directions.
pub mod Closing
pub mod Streams
use myzerossl.Prelude.{
  ℕ, ◌==◌, Bool, true, false, not, ◌&&◌, List, [], ◌∷◌, ◌++◌, Option, none, some, if◌then◌else◌,
  is_empty,
}
use myzerossl.Prelude.Result.{Result, ok, err}
use myzerossl.Text.{Text, codes}
use myzerossl.Edge.Http.{Header, get, set, Request, Stream, Response}
use myzerossl.Edge.Pipeline.{add_values}
use myzerossl.Edge.Routes.{
  Url, Dialer, PluginRoute, plugin_dial_context, is_web_socket_protocol, is_web_socket_upgrade,
}

pub data Op : Type 0 where
  -- `http.Error` and the reply of the backend, both to the `ResponseWriter`
  answer : ℕ → Text → Op
  relay : ℕ → Header → List ℕ → Op
  by_proxy : Request → Op
  -- the connection to the backend
  dial : Dialer → Text → Op
  send : Request → Op
  read_response : Op
  early_to_backend pump_to_backend : List ℕ → Op
  end_to_backend close_backend : Op
  -- the connection to the client, after `Hijack`
  hijack : Op
  respond : Response → Op
  pump_to_client : List ℕ → Op
  end_to_client close_client : Op

-- What the network does: whether the writer can be hijacked; the errors of connecting and of writing the
-- request; the response that is read, and what the reader has taken from the connection behind it;
-- what `Hijack` gives, with the bytes that were read from the client already; the error of writing the
-- response; and what the two connections deliver from then on.
pub record Wire : Type 0 where
  pub hijackable : Bool
  pub connects : Dialer → Text → Option Text
  pub sends : Request → Option Text
  pub reply : Result Response
  pub backend_early : List ℕ
  pub hijacks : Result (List ℕ)
  pub responds : Option Text
  pub from_backend : List ℕ
  pub from_client : List ℕ

-- `copyHeader`
unfoldable pub copy_header : Header → Header → Header
copy_header dst [] = dst
copy_header dst ((k, values) ∷ src) = copy_header (add_values k values dst) src

abbrev pub bytes_of : Option Stream → List ℕ
bytes_of none = []
bytes_of (some stream) = stream.bytes

-- Each copy ends with a `CloseWrite` of the connection it wrote to.
unfoldable pub tunnel_conns : Wire → List Op
tunnel_conns wire =
    pump_to_client wire.from_backend
    ∷ end_to_client
    ∷ pump_to_backend wire.from_client
    ∷ end_to_backend
    ∷ close_client
    ∷ close_backend
    ∷ []

-- From the writing of the response to the client on
abbrev pub respond_client : Wire → Response → List Op
respond_client wire resp = respond resp ∷ (elim (wire.responds) [
  | some e ↦ close_client ∷ close_backend ∷ []
  | none ↦ tunnel_conns wire
])

abbrev pub take_client : Wire → Response → Result (List ℕ) → List Op
take_client wire resp (err e) = close_backend ∷ []
take_client wire resp (ok buffered) =
    let rest = respond_client wire resp in
    hijack ∷ (if is_empty buffered then rest else early_to_backend buffered ∷ rest)

-- From the reading of the response on, on the header that the writer has
abbrev pub answer_upgrade : Wire → Header → Result Response → List Op
answer_upgrade wire header (err e) =
    close_backend ∷ answer 502 (codes "websocket backend upgrade failed") ∷ []
answer_upgrade wire header (ok resp) =
    if not (resp.status_code == 101)
    then relay resp.status_code (copy_header header resp.header) (bytes_of resp.body)
      ∷ close_backend
      ∷ []
    else take_client wire resp wire.hijacks

abbrev pub send_upgrade : Wire → Header → Request → Option Text → List Op
send_upgrade wire header outreq (some e) =
    send outreq ∷ close_backend ∷ answer 502 (codes "websocket backend write failed") ∷ []
send_upgrade wire header outreq none =
    send outreq ∷ read_response ∷ answer_upgrade wire header wire.reply

module _ (split_host_port : Text → Result (Text × Text)) (parse_url : Text → Result Url)
    (from_url : Url → Result Dialer) where
  unfoldable pub client_ip : Text → Text
  client_ip remote_addr = elim (split_host_port remote_addr) [
    | err e ↦ remote_addr
    | ok (host, port) ↦ host
  ]

  abbrev pub forwarded_for : Text → Text → Text
  forwarded_for prior remote_addr =
      if is_empty prior then client_ip remote_addr else prior ++ codes ", " ++ client_ip remote_addr

  -- `outreq`
  unfoldable pub upgrade_request : PluginRoute → Text → Request → Request
  upgrade_request route remote_addr req = record req {
    host = route.backend.host;
    request_uri = [];
    header =
        set
          (set req.header (codes "X-Forwarded-For")
            (forwarded_for (get req.header (codes "X-Forwarded-For")) remote_addr))
          (codes "X-Forwarded-Proto") (codes "https");
  }

  abbrev pub connect_backend :
      Wire → Header → PluginRoute → Text → Request → Dialer → Option Text → List Op
  connect_backend wire header route remote_addr req dialer (some e) =
      answer 502 (codes "websocket backend unavailable") ∷ []
  connect_backend wire header route remote_addr req dialer none =
      let outreq = upgrade_request route remote_addr req in
      dial dialer route.backend.host ∷ send_upgrade wire header outreq (wire.sends outreq)

  abbrev pub tunnel_through : Wire → Header → PluginRoute → Text → Request → Result Dialer → List Op
  tunnel_through wire header route remote_addr req (err e) =
      answer 502 (codes "websocket backend proxy invalid") ∷ []
  tunnel_through wire header route remote_addr req (ok dialer) =
      connect_backend wire header route remote_addr req dialer
        (wire.connects dialer route.backend.host)

  -- What is done, or nothing if the writer cannot be hijacked
  unfoldable pub serve_web_socket_tunnel :
      Wire → Header → PluginRoute → Text → Request → Option (List Op)
  serve_web_socket_tunnel wire header route remote_addr req =
      let dials = plugin_dial_context parse_url from_url route.outbound_proxy in
      if not wire.hijackable
      then none
      else some (tunnel_through wire header route remote_addr req dials)

  abbrev pub or_proxy : Request → Option (List Op) → List Op
  or_proxy req none = by_proxy req ∷ []
  or_proxy req (some ops) = ops

  -- `pluginRoute.ServeHTTP`
  unfoldable pub serve_plugin : Wire → Header → PluginRoute → Text → Request → List Op
  serve_plugin wire header route remote_addr req = or_proxy req (
      if is_web_socket_protocol route.protocol && is_web_socket_upgrade req
      then serve_web_socket_tunnel wire header route remote_addr req
      else none)
