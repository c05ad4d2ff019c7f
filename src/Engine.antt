-- ===== src/Engine.antt =====
-- src/engine.rs, `Engine`: what one packet, timer or command does to the sessions, the learned
-- endpoints and the counters, and the actions that it asks of the platform. An operation that
-- fails has changed what it changed before the failure. `now` is the caller's instant, `clock` the
-- one that the code reads itself, `entropy` the randomness for a peer's handshake.
pub mod Inbound
pub mod Keeps
pub mod Invariant
pub mod Endpoints
pub mod Outbound
use hushwire.Common.{
  ℕ, Bool, true, false, not, ◌||◌, List, [], ◌∷◌, ◌++◌, Option, none, some, ◌==◌, if◌then◌else◌,
  ite, Result, ok, err, Bytes,
}
use hushwire.Common.Maps.{Text, text_eq, Map, get, insert}
use hushwire.Externals.{Ipnet, Snow, Keys}
use hushwire.Auth.{MsgType, data_msg, keepalive}
use hushwire.Packet
use hushwire.Packet.{PacketError}
use hushwire.Config.{Config, Dns, SocketAddr, SocketAddr-discrete, is_unspecified, decode_key}
use hushwire.Router
use hushwire.Router.{Router, Route, Peer, RouterError}
use hushwire.Peers
use hushwire.Peers.{PeerState}
use hushwire.Noise.{NoiseError}
use hushwire.Noise.Handshake.{Entropy}
use hushwire.Sessions
use hushwire.Sessions.{SessionState}
use hushwire.Sessions.Exchange.{start_or_retry_handshake}

pub data EngineAction : Type 0 where
  send_transport : (peer_name : Text) (endpoint : SocketAddr) (frame : Bytes) → EngineAction
  write_ip_packet : (peer_name : Text) (source : SocketAddr) (packet : Bytes) → EngineAction

pub data HandshakeRole : Type 0 where
  initiator responder : HandshakeRole

pub data EngineEvent : Type 0 where
  handshake_completed :
      (peer_name : Text) (endpoint : SocketAddr) (role : HandshakeRole) → EngineEvent

pub record EngineOutput : Type 0 where
  pub actions : List EngineAction
  pub events : List EngineEvent

abbrev pub no_output : EngineOutput
no_output = record { actions = []; events = [] }

pub data EngineError (Net : Type 0) : Type 0 where
  invalid_private_key : EngineError Net
  router_error : RouterError Net → EngineError Net
  packet_error : PacketError → EngineError Net
  noise_error : NoiseError → EngineError Net
  unknown_peer : Text → EngineError Net
  invalid_peer_endpoint : SocketAddr → EngineError Net

pub record Engine (Net T H : Type 0) : Type 0 where
  pub router : Router Net
  pub local_static : Bytes
  pub sessions : SessionState T H
  pub peers : PeerState
  pub resolved_endpoints : Map SocketAddr

unfoldable pub usable_peer_endpoint : SocketAddr → Bool
usable_peer_endpoint endpoint = not (is_unspecified endpoint.ip || endpoint.port == 0)

abbrev pub usable : Option SocketAddr → Option SocketAddr
usable none = none
usable (some endpoint) = if usable_peer_endpoint endpoint then some endpoint else none

unfoldable pub find_peer : {Net : Type 0} → Text → List (Route Net) → Option (Peer Net)
find_peer peer_name [] = none
find_peer peer_name (route ∷ routes) =
    ite (text_eq route.peer.name peer_name) (some route.peer) (find_peer peer_name routes)

module _ {Net T H : Type 0} where
  -- `Engine::peer`
  unfoldable pub peer : Engine Net T H → Text → Option (Peer Net)
  unfolding find_peer
  peer engine peer_name = find_peer peer_name engine.router.routes

  unfoldable pub configured_endpoint : Engine Net T H → Peer Net → SocketAddr
  configured_endpoint engine p = elim (get p.name engine.resolved_endpoints) [
    | some endpoint ↦ endpoint
    | none ↦ p.endpoint
  ]

  -- The endpoint that authenticated packets last came from.
  unfoldable pub learned_endpoint : Engine Net T H → Peer Net → Option SocketAddr
  learned_endpoint engine p = elim (get p.name engine.peers) [
    | some stats ↦ stats.current_endpoint
    | none ↦ none
  ]

  unfoldable pub resolve_endpoint : Engine Net T H → Peer Net → Option SocketAddr
  unfolding usable_peer_endpoint
  resolve_endpoint engine p = elim (usable (learned_endpoint engine p)) [
    | some endpoint ↦ usable (some endpoint)
    | none ↦ usable (some (configured_endpoint engine p))
  ]

  unfoldable pub invalidate_peer : Engine Net T H → Text → Engine Net T H × Bool
  invalidate_peer engine peer_name =
      let (sessions, removed) = Sessions.invalidate_peer engine.sessions peer_name in
      (record engine { sessions = sessions }, removed)

  unfoldable pub record_transport_sent : Engine Net T H → Text → ℕ → Engine Net T H
  record_transport_sent engine peer_name bytes = record engine {
    peers = Peers.record_tx engine.peers peer_name bytes;
  }

  unfoldable pub update_resolved_endpoint :
      Engine Net T H → Text → SocketAddr → Engine Net T H × Result (EngineError Net) Bool
  update_resolved_endpoint engine peer_name endpoint =
      if not (usable_peer_endpoint endpoint)
      then (engine, err (invalid_peer_endpoint endpoint))
      else elim (peer engine peer_name) [
        | none ↦ (engine, err (unknown_peer peer_name))
        | some p ↦
            ite (SocketAddr-discrete (configured_endpoint engine p) endpoint) (engine, ok false)
              (
                record engine {
                  resolved_endpoints = insert peer_name endpoint engine.resolved_endpoints;
                  peers = Peers.clear_endpoint engine.peers peer_name;
                  sessions = (Sessions.invalidate_peer engine.sessions peer_name).0;
                },
                ok true,
              )
      ]

abbrev pub action_list : Option EngineAction → List EngineAction
action_list none = []
action_list (some action) = action ∷ []

abbrev pub send_to : Text → Option SocketAddr → Bytes → List EngineAction
send_to peer_name none frame = []
send_to peer_name (some endpoint) frame = send_transport peer_name endpoint frame ∷ []

module _ (net : Ipnet) (snow : Snow) where
  abbrev pub EngineOf : Type 0
  EngineOf = Engine net.Net snow.Transport snow.Handshake

  -- `Engine::with_router`
  unfoldable pub with_router : Keys → Text → Router net.Net → Result (EngineError net.Net) EngineOf
  with_router keys private_key router = elim (decode_key keys private_key) [
    | none ↦ err invalid_private_key
    | some local_static ↦ ok (record {
      router = router;
      local_static = keys.static_secret local_static;
      sessions = Sessions.new;
      peers = [];
      resolved_endpoints = [];
    })
  ]

  -- `Engine::new`
  unfoldable pub new : Keys → Dns → Config net.Net → Result (EngineError net.Net) EngineOf
  unfolding with_router
  new keys dns config = elim (Router.new net keys dns config.peer config.interface.transport) [
    | err e ↦ err (router_error e)
    | ok router ↦ with_router keys config.interface.private_key router
  ]

  unfoldable pub initiate_peer :
      EngineOf
      → Peer net.Net
      → ℕ
      → (Text → Entropy)
      → EngineOf × Result NoiseError (Option EngineAction)
  initiate_peer engine p now entropy = elim (resolve_endpoint engine p) [
    | none ↦ (engine, ok none)
    | some endpoint ↦
        let (sessions, r) =
          start_or_retry_handshake snow engine.sessions p.name engine.local_static p.public_key
            p.psk now (entropy p.name) in
        (
          record engine { sessions = sessions },
          elim r [
            | err e ↦ err e
            | ok frame ↦ elim frame [
              | none ↦ ok none
              | some bytes ↦ ok (some (send_transport p.name endpoint bytes))
            ]
          ],
        )
  ]

  -- The action of `initiate_peer`, and the actions that follow it.
  unfoldable pub initiate_then :
      EngineOf
      → Peer net.Net
      → ℕ
      → (Text → Entropy)
      → (EngineOf → List EngineAction)
      → EngineOf × Result (EngineError net.Net) EngineOutput
  initiate_then engine p now entropy later =
      let (engine', r) = initiate_peer engine p now entropy in
      (
        engine',
        elim r [
          | err e ↦ err (noise_error e)
          | ok action ↦ ok (record { actions = action_list action ++ later engine'; events = [] })
        ],
      )

  -- The `match` on `encrypt_for_peer` that `process_outbound_ip` and `create_keepalive` share.
  unfoldable pub send_or_initiate :
      EngineOf
      → Peer net.Net
      → MsgType
      → Bytes
      → ℕ
      → (Text → Entropy)
      → EngineOf × Result (EngineError net.Net) EngineOutput
  send_or_initiate engine p msg_type payload now entropy =
      let (sessions, r) =
        Sessions.encrypt_for_peer snow engine.sessions p.name msg_type payload now in
      let engine' = record engine { sessions = sessions } in
      elim r [
        | err e ↦ initiate_then (invalidate_peer engine' p.name).0 p now entropy (λ after. [])
        | ok sealed ↦ elim sealed [
          | none ↦ initiate_then engine' p now entropy (λ after. [])
          | some frame ↦
              initiate_then engine' p now entropy
                (λ after. send_to p.name (resolve_endpoint after p) frame)
        ]
      ]

  unfoldable pub process_outbound_ip :
      EngineOf → Bytes → ℕ → (Text → Entropy) → EngineOf × Result (EngineError net.Net) EngineOutput
  process_outbound_ip engine packet now entropy = elim (Packet.parse packet) [
    | err e ↦ (engine, err (packet_error e))
    | ok ipv4 ↦ elim (Router.lookup net engine.router (Packet.destination ipv4)) [
      | none ↦ (engine, ok no_output)
      | some route ↦ send_or_initiate engine route.peer data_msg packet now entropy
    ]
  ]

  unfoldable pub create_keepalive :
      EngineOf
      → Text
      → Bytes
      → ℕ
      → (Text → Entropy)
      → EngineOf × Result (EngineError net.Net) EngineOutput
  create_keepalive engine peer_name payload now entropy = elim (peer engine peer_name) [
    | none ↦ (engine, err (unknown_peer peer_name))
    | some p ↦ send_or_initiate engine p keepalive payload now entropy
  ]

  unfoldable pub initiate_handshake :
      EngineOf → Text → ℕ → (Text → Entropy) → EngineOf × Result (EngineError net.Net) EngineOutput
  initiate_handshake engine peer_name now entropy = elim (peer engine peer_name) [
    | none ↦ (engine, err (unknown_peer peer_name))
    | some p ↦ initiate_then engine p now entropy (λ after. [])
  ]
