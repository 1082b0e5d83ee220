-- ===== src/Edge/Tunnel/Streams.antt =====
-- What the two ends of a tunnel get of each other.
use myzerossl.Prelude.{
  ℕ, ◌==◌, Bool, true, not, ◌&&◌, ◌≡◌, ◌≢◌, refl, sym, ap, ◌∙◌, List, [], ◌∷◌, ◌++◌, none, some,
  arith, length, length-append, if◌then◌else◌,
}
use mathlib.Core.List.{append-nil}
use myzerossl.Prelude.Result.{Result, ok}
use myzerossl.Text.{Text}
use myzerossl.Edge.Http.{Header, Request, Response}
use myzerossl.Edge.Routes.{
  Url, Dialer, PluginRoute, plugin_dial_context, is_web_socket_protocol, is_web_socket_upgrade,
}
use myzerossl.Edge.Tunnel.{
  Op, answer, relay, by_proxy, dial, send, read_response, early_to_backend, pump_to_backend,
  end_to_backend, close_backend, hijack, respond, pump_to_client, end_to_client, close_client, Wire,
  tunnel_conns, respond_client, take_client, answer_upgrade, send_upgrade, upgrade_request,
  connect_backend, tunnel_through, serve_web_socket_tunnel, or_proxy, serve_plugin,
}

-- The bytes that reach the client behind the response, and the backend behind the request
abbrev pub to_client : List Op → List ℕ
to_client [] = []
to_client (pump_to_client bytes ∷ ops) = bytes ++ to_client ops
to_client (answer status text ∷ ops) = to_client ops
to_client (relay status header body ∷ ops) = to_client ops
to_client (by_proxy req ∷ ops) = to_client ops
to_client (dial d host ∷ ops) = to_client ops
to_client (send req ∷ ops) = to_client ops
to_client (read_response ∷ ops) = to_client ops
to_client (early_to_backend bytes ∷ ops) = to_client ops
to_client (pump_to_backend bytes ∷ ops) = to_client ops
to_client (end_to_backend ∷ ops) = to_client ops
to_client (close_backend ∷ ops) = to_client ops
to_client (hijack ∷ ops) = to_client ops
to_client (respond resp ∷ ops) = to_client ops
to_client (end_to_client ∷ ops) = to_client ops
to_client (close_client ∷ ops) = to_client ops

abbrev pub to_backend : List Op → List ℕ
to_backend [] = []
to_backend (early_to_backend bytes ∷ ops) = bytes ++ to_backend ops
to_backend (pump_to_backend bytes ∷ ops) = bytes ++ to_backend ops
to_backend (answer status text ∷ ops) = to_backend ops
to_backend (relay status header body ∷ ops) = to_backend ops
to_backend (by_proxy req ∷ ops) = to_backend ops
to_backend (dial d host ∷ ops) = to_backend ops
to_backend (send req ∷ ops) = to_backend ops
to_backend (read_response ∷ ops) = to_backend ops
to_backend (end_to_backend ∷ ops) = to_backend ops
to_backend (close_backend ∷ ops) = to_backend ops
to_backend (hijack ∷ ops) = to_backend ops
to_backend (respond resp ∷ ops) = to_backend ops
to_backend (pump_to_client bytes ∷ ops) = to_backend ops
to_backend (end_to_client ∷ ops) = to_backend ops
to_backend (close_client ∷ ops) = to_backend ops

no_prefix : (xs ys : List ℕ) → xs ≢ [] → ys ≢ xs ++ ys
no_prefix [] ys n e = n refl
no_prefix (x ∷ xs) ys n e = omega (arith, ap length e, length-append xs ys)

abbrev Carries : Wire → List ℕ → List Op → Type 0
Carries wire buffered ops =
    (to_client ops ≡ wire.from_backend) × (to_backend ops ≡ buffered ++ wire.from_client)

respond_client-carries :
    (wire : Wire) (resp : Response)
    → wire.responds ≡ none
    → (to_client (respond_client wire resp) ≡ wire.from_backend)
      × (to_backend (respond_client wire resp) ≡ wire.from_client)
unfolding tunnel_conns
respond_client-carries wire resp n =
    (rw n (append-nil wire.from_backend), rw n (append-nil wire.from_client))

take_client-Carries :
    (wire : Wire) (resp : Response) (buffered : List ℕ)
    → wire.responds ≡ none
    → Carries wire buffered (take_client wire resp (ok buffered))
take_client-Carries wire resp [] n = respond_client-carries wire resp n
take_client-Carries wire resp (b ∷ bytes) n =
    let (client, backend) = respond_client-carries wire resp n in
    (client, ap (λ s. b ∷ (bytes ++ s)) backend)

module _ (split_host_port : Text → Result (Text × Text)) (parse_url : Text → Result Url)
    (from_url : Url → Result Dialer) (wire : Wire) (header : Header) (route : PluginRoute)
    (remote_addr : Text) (req : Request) where
  or_proxy-some :
      {b : Bool} {ops : List Op}
      → b ≡ true
      → or_proxy split_host_port parse_url from_url req (if not b then none else some ops) ≡ ops
  or_proxy-some e = rw e

  tunnel-dialled :
      (dialer : Dialer)
      → (is_web_socket_protocol route.protocol && is_web_socket_upgrade req) ≡ true
      → wire.hijackable ≡ true
      → plugin_dial_context parse_url from_url route.outbound_proxy ≡ ok dialer
      → serve_plugin split_host_port parse_url from_url wire header route remote_addr req
        ≡ connect_backend split_host_port parse_url from_url wire header route remote_addr req
            dialer
            (wire.connects dialer route.backend.host)
  unfolding serve_plugin serve_web_socket_tunnel
  tunnel-dialled dialer asked hijackable dials = rw asked (
      or_proxy-some hijackable
      ∙ ap (tunnel_through split_host_port parse_url from_url wire header route remote_addr req)
          dials)

  answer_upgrade-taken :
      (resp : Response) (buffered : List ℕ)
      → (resp.status_code == 101) ≡ true
      → wire.hijacks ≡ ok buffered
      → answer_upgrade wire header (ok resp) ≡ take_client wire resp (ok buffered)
  answer_upgrade-taken resp buffered switching hijacked =
      rw switching (ap (take_client wire resp) hijacked)

  -- In a tunnel the backend gets all that the client sends, with what was read before the take-over, but
  -- the client gets only what is read from the connection after the response: what the reader of the
  -- response had already taken from it is lost.
  pub tunnel_drops_early :
      (dialer : Dialer) (resp : Response) (buffered : List ℕ)
      → (is_web_socket_protocol route.protocol && is_web_socket_upgrade req) ≡ true
      → wire.hijackable ≡ true
      → plugin_dial_context parse_url from_url route.outbound_proxy ≡ ok dialer
      → wire.connects dialer route.backend.host ≡ none
      → wire.sends (upgrade_request split_host_port parse_url from_url route remote_addr req) ≡ none
      → wire.reply ≡ ok resp
      → (resp.status_code == 101) ≡ true
      → wire.hijacks ≡ ok buffered
      → wire.responds ≡ none
      → wire.backend_early ≢ []
      → (to_backend
            (serve_plugin split_host_port parse_url from_url wire header route remote_addr req)
          ≡ buffered ++ wire.from_client)
        × (to_client
              (serve_plugin split_host_port parse_url from_url wire header route remote_addr req)
            ≡ wire.from_backend)
        × (to_client
              (serve_plugin split_host_port parse_url from_url wire header route remote_addr req)
            ≢ wire.backend_early ++ wire.from_backend)
  tunnel_drops_early dialer resp buffered asked hijackable dials connects sends replies switching
        hijacked responds early =
      let outreq = upgrade_request split_host_port parse_url from_url route remote_addr req in
      let begin = dial dialer route.backend.host ∷ send outreq ∷ read_response ∷ [] in
      let whole : serve_plugin split_host_port parse_url from_url wire header route remote_addr req
          ≡ begin ++ take_client wire resp (ok buffered) =
        tunnel-dialled dialer asked hijackable dials
        ∙ ap
            (connect_backend split_host_port parse_url from_url wire header route remote_addr req
              dialer)
            connects
        ∙ ap (λ r. dial dialer route.backend.host ∷ send_upgrade wire header outreq r) sends
        ∙ ap (λ r. begin ++ answer_upgrade wire header r) replies
        ∙ ap (λ ops. begin ++ ops) (answer_upgrade-taken resp buffered switching hijacked) in
      let (client, backend) = take_client-Carries wire resp buffered responds in
      let got = ap to_client whole ∙ client in
      (
        ap to_backend whole ∙ backend,
        got,
        λ e. no_prefix wire.backend_early wire.from_backend early (sym got ∙ e),
      )
