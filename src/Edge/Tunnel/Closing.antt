-- ===== src/Edge/Tunnel/Closing.antt =====
-- How the connections of a plugin request end.
use myzerossl.Prelude.{
  ℕ, if◌then◌else◌, ◌==◌, Bool, true, false, not, ◌&&◌, ◌≡◌, ◌⊎◌, inl, inr, refl, List, [], ◌∷◌,
  Option, none, some, Bool-cases, Option-cases,
}
use myzerossl.Prelude.Result.{Result, ok, err}
use myzerossl.Text.{Text}
use myzerossl.Edge.Http.{Header, Request, Response}
use myzerossl.Edge.Routes.{
  Url, Dialer, PluginRoute, plugin_dial_context, is_web_socket_protocol, is_web_socket_upgrade,
}
use myzerossl.Edge.Tunnel.{
  Op, answer, relay, by_proxy, dial, send, read_response, early_to_backend, pump_to_backend,
  end_to_backend, close_backend, hijack, respond, pump_to_client, end_to_client, close_client, Wire,
  tunnel_conns, respond_client, take_client, answer_upgrade, send_upgrade, upgrade_request,
  connect_backend, tunnel_through, serve_web_socket_tunnel, or_proxy, serve_plugin,
}

-- The connection to the backend; `misused` is for good.
pub data Backend : Type 0 where
  undialled connected shut misused : Backend

-- The client: its reply is due, or given by the writer, or its connection was taken over, or closed.
pub data Client : Type 0 where
  waiting answered taken finished crossed : Client

abbrev pub while_connected : Backend → Backend → Backend
while_connected undialled next = misused
while_connected connected next = next
while_connected shut next = misused
while_connected misused next = misused

abbrev pub when_undialled : Backend → Backend
when_undialled undialled = connected
when_undialled connected = misused
when_undialled shut = misused
when_undialled misused = misused

abbrev pub on_backend : Op → Backend → Backend
on_backend (answer status text) b = b
on_backend (relay status header body) b = while_connected b connected
on_backend (by_proxy req) b = b
on_backend (dial d host) b = when_undialled b
on_backend (send req) b = while_connected b connected
on_backend read_response b = while_connected b connected
on_backend (early_to_backend bytes) b = while_connected b connected
on_backend (pump_to_backend bytes) b = while_connected b connected
on_backend end_to_backend b = while_connected b connected
on_backend close_backend b = while_connected b shut
on_backend hijack b = b
on_backend (respond resp) b = b
on_backend (pump_to_client bytes) b = while_connected b connected
on_backend end_to_client b = b
on_backend close_client b = b

abbrev pub while_waiting : Client → Client → Client
while_waiting waiting next = next
while_waiting answered next = crossed
while_waiting taken next = crossed
while_waiting finished next = crossed
while_waiting crossed next = crossed

abbrev pub while_taken : Client → Client → Client
while_taken waiting next = crossed
while_taken answered next = crossed
while_taken taken next = next
while_taken finished next = crossed
while_taken crossed next = crossed

abbrev pub on_client : Op → Client → Client
on_client (answer status text) c = while_waiting c answered
on_client (relay status header body) c = while_waiting c answered
on_client (by_proxy req) c = while_waiting c answered
on_client (dial d host) c = c
on_client (send req) c = c
on_client read_response c = c
on_client (early_to_backend bytes) c = while_taken c taken
on_client (pump_to_backend bytes) c = while_taken c taken
on_client end_to_backend c = c
on_client close_backend c = c
on_client hijack c = while_waiting c taken
on_client (respond resp) c = while_taken c taken
on_client (pump_to_client bytes) c = while_taken c taken
on_client end_to_client c = while_taken c taken
on_client close_client c = while_taken c finished

abbrev pub backend_after : Backend → List Op → Backend
backend_after b [] = b
backend_after b (op ∷ ops) = backend_after (on_backend op b) ops

abbrev pub client_after : Client → List Op → Client
client_after c [] = c
client_after c (op ∷ ops) = client_after (on_client op c) ops

-- The reply of the writer, given once, or a connection that was taken over and closed; only if the
-- take-over fails is there none.
abbrev pub IsServed : Wire → Client → Type 0
IsServed wire c =
    (c ≡ answered) ⊎ (c ≡ finished) ⊎ ((c ≡ waiting) × (e : Text) × (wire.hijacks ≡ err e))

respond_client-ends :
    (wire : Wire) (resp : Response)
    → (backend_after connected (respond_client wire resp) ≡ shut)
      × (client_after taken (respond_client wire resp) ≡ finished)
unfolding tunnel_conns
respond_client-ends wire resp = elim (Option-cases (wire.responds)) [
  | inl n ↦ (rw n, rw n)
  | inr (e, s) ↦ (rw s, rw s)
]

-- From a connected backend and a client whose reply is due, the backend is closed and the client served.
abbrev pub IsEnded : Wire → List Op → Type 0
IsEnded wire ops = (backend_after connected ops ≡ shut) × IsServed wire (client_after waiting ops)

take_client-IsEnded :
    (wire : Wire) (resp : Response) (r : Result (List ℕ))
    → wire.hijacks ≡ r
    → IsEnded wire (take_client wire resp r)
take_client-IsEnded wire resp (err e) f = (refl, inr (inr (refl, e, f)))
take_client-IsEnded wire resp (ok []) f =
    let (shut_after, finished_after) = respond_client-ends wire resp in
    (shut_after, inr (inl finished_after))
take_client-IsEnded wire resp (ok (b ∷ bytes)) f =
    let (shut_after, finished_after) = respond_client-ends wire resp in
    (shut_after, inr (inl finished_after))

answer_upgrade-IsEnded :
    (wire : Wire) (header : Header) (r : Result Response)
    → IsEnded wire (answer_upgrade wire header r)
answer_upgrade-IsEnded wire header (err e) = (refl, inl refl)
answer_upgrade-IsEnded wire header (ok resp) = elim (Bool-cases (resp.status_code == 101)) [
  | inl e ↦ rw e (take_client-IsEnded wire resp wire.hijacks refl)
  | inr e ↦ rw e (refl, inl refl)
]

send_upgrade-IsEnded :
    (wire : Wire) (header : Header) (outreq : Request) (r : Option Text)
    → IsEnded wire (send_upgrade wire header outreq r)
send_upgrade-IsEnded wire header outreq (some e) = (refl, inl refl)
send_upgrade-IsEnded wire header outreq none = answer_upgrade-IsEnded wire header wire.reply

-- A connection that was never opened, or is closed
abbrev pub IsReleased : Backend → Type 0
IsReleased b = (b ≡ undialled) ⊎ (b ≡ shut)

abbrev IsOver : Wire → List Op → Type 0
IsOver wire ops =
    IsReleased (backend_after undialled ops) × IsServed wire (client_after waiting ops)

module _ (split_host_port : Text → Result (Text × Text)) (parse_url : Text → Result Url)
    (from_url : Url → Result Dialer) (wire : Wire) (header : Header) (route : PluginRoute)
    (remote_addr : Text) (req : Request) where
  connect_backend-IsOver :
      (dialer : Dialer) (r : Option Text)
      → IsOver wire (
          connect_backend split_host_port parse_url from_url wire header route remote_addr req
            dialer r)
  connect_backend-IsOver dialer (some e) = (inl refl, inl refl)
  connect_backend-IsOver dialer none =
      let outreq = upgrade_request split_host_port parse_url from_url route remote_addr req in
      let (shut_after, served) = send_upgrade-IsEnded wire header outreq (wire.sends outreq) in
      (inr shut_after, served)

  tunnel_through-IsOver :
      (r : Result Dialer)
      → IsOver wire
          (tunnel_through split_host_port parse_url from_url wire header route remote_addr req r)
  tunnel_through-IsOver (err e) = (inl refl, inl refl)
  tunnel_through-IsOver (ok dialer) =
      connect_backend-IsOver dialer (wire.connects dialer route.backend.host)

  or_proxy-IsOver :
      (b : Bool) (ops : List Op)
      → IsOver wire ops
      → IsOver wire
          (or_proxy split_host_port parse_url from_url req (if not b then none else some ops))
  or_proxy-IsOver true ops h = h
  or_proxy-IsOver false ops h = (inl refl, inl refl)

  tunnel-IsOver : IsOver wire (
      or_proxy split_host_port parse_url from_url req (
        serve_web_socket_tunnel split_host_port parse_url from_url wire header route remote_addr
          req))
  unfolding serve_web_socket_tunnel
  tunnel-IsOver =
      let dials = plugin_dial_context parse_url from_url route.outbound_proxy in
      or_proxy-IsOver wire.hijackable
        (tunnel_through split_host_port parse_url from_url wire header route remote_addr req dials)
        (tunnel_through-IsOver dials)

  -- However the network behaves, a plugin route uses a connection to its backend only while it is open, and
  -- closes it exactly once if it opened it; and the client is given one reply by the writer, or its
  -- connection is taken over and closed once, after which the writer is not used. Only if `Hijack`
  -- fails is the client given nothing.
  pub serve_plugin-IsOver :
      IsReleased (
        backend_after undialled
          (serve_plugin split_host_port parse_url from_url wire header route remote_addr req))
      × IsServed wire (
          client_after waiting
            (serve_plugin split_host_port parse_url from_url wire header route remote_addr req))
  unfolding serve_plugin
  serve_plugin-IsOver =
      elim (Bool-cases (is_web_socket_protocol route.protocol && is_web_socket_upgrade req)) [
        | inl e ↦ rw e tunnel-IsOver
        | inr e ↦ rw e (inl refl, inl refl)
      ]
