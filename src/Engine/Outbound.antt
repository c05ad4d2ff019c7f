-- ===== src/Engine/Outbound.antt =====
-- What a packet of the tunnel makes the engine send.
use hushwire.Common.{
  ℕ, true, List, [], ◌∷◌, ◌++◌, Option, none, some, ◌≡◌, inl, inr, subst, arith, ok, All,
  Bool-cases, Option-cases, Result-cases, Bytes,
}
use hushwire.Common.Maps.{Text}
use hushwire.Externals.{Ipnet, Snow}
use hushwire.Auth.{MsgType, data_msg}
use hushwire.Packet
use hushwire.Packet.{Ipv4Packet, PacketError}
use hushwire.Config.{SocketAddr}
use hushwire.Router
use hushwire.Router.{Peer, Route}
use hushwire.Noise.Handshake.{Entropy}
use hushwire.Sessions
use hushwire.Sessions.Exchange.{start_or_retry_handshake}
use hushwire.Engine.{
  EngineAction, send_transport, EngineOf, EngineOutput, usable_peer_endpoint, usable,
  learned_endpoint, configured_endpoint, resolve_endpoint, invalidate_peer, initiate_peer,
  initiate_then, action_list, send_to, send_or_initiate, process_outbound_ip,
}

-- A frame for this peer, to an endpoint that has an address and a port.
pub data IsSendTo (name : Text) : EngineAction → Type 0 where
  send :
      (endpoint : SocketAddr) (frame : Bytes)
      → usable_peer_endpoint endpoint ≡ true
      → IsSendTo name (send_transport name endpoint frame)

module _ (net : Ipnet) (snow : Snow) where
  resolve_endpoint-usable :
      (engine : EngineOf net snow) (p : Peer net.Net) (endpoint : SocketAddr)
      → resolve_endpoint engine p ≡ some endpoint
      → usable_peer_endpoint endpoint ≡ true
  unfolding resolve_endpoint
  resolve_endpoint-usable engine p endpoint h =
      elim (Option-cases (usable (learned_endpoint engine p))) [
        | inl e ↦ elim (Bool-cases (usable_peer_endpoint (configured_endpoint engine p))) [
          | inl f ↦ ground arith
          | inr f ↦ absurd (ground arith)
        ]
        | inr (learned, e) ↦ elim (Bool-cases (usable_peer_endpoint learned)) [
          | inl f ↦ ground arith
          | inr f ↦ absurd (ground arith)
        ]
      ]

  send_to-IsSendTo :
      (engine : EngineOf net snow) (p : Peer net.Net) (frame : Bytes)
      → All (IsSendTo p.name) (send_to p.name (resolve_endpoint engine p) frame)
  send_to-IsSendTo engine p frame = elim (Option-cases (resolve_endpoint engine p)) [
    | inl e ↦ rw e tt
    | inr (endpoint, e) ↦
        rw e (send endpoint frame (resolve_endpoint-usable engine p endpoint e), tt)
  ]

  append-All :
      (P : EngineAction → Type 0) (xs ys : List EngineAction)
      → All P xs
      → All P ys
      → All P (xs ++ ys)
  append-All P [] ys h k = k
  append-All P (x ∷ xs) ys h k = (h.0, append-All P xs ys h.1 k)

  initiate_peer-IsSendTo :
      (engine : EngineOf net snow) (p : Peer net.Net) (now : ℕ) (entropy : Text → Entropy)
      (action : Option EngineAction)
      → (initiate_peer net snow engine p now entropy).1 ≡ ok action
      → All (IsSendTo p.name) (action_list action)
  unfolding initiate_peer
  initiate_peer-IsSendTo engine p now entropy action h =
      elim (Option-cases (resolve_endpoint engine p)) [
        | inl e ↦
            let same : none ≡ action = ground arith in
            subst (λ a. All (IsSendTo p.name) (action_list a)) same tt
        | inr (endpoint, e) ↦
            let r =
              start_or_retry_handshake snow engine.sessions p.name engine.local_static p.public_key
                p.psk now (entropy p.name) in
            elim (Result-cases r.1) [
              | inr (error, f) ↦ absurd (ground arith)
              | inl (sealed, f) ↦ elim (Option-cases sealed) [
                | inl g ↦
                    let same : none ≡ action = ground arith in
                    subst (λ a. All (IsSendTo p.name) (action_list a)) same tt
                | inr (frame, g) ↦
                    let same : some (send_transport p.name endpoint frame) ≡ action =
                      ground arith in
                    subst (λ a. All (IsSendTo p.name) (action_list a)) same
                      (send endpoint frame (resolve_endpoint-usable engine p endpoint e), tt)
              ]
            ]
      ]

  initiate_then-IsSendTo :
      (engine : EngineOf net snow) (p : Peer net.Net) (now : ℕ) (entropy : Text → Entropy)
      (later : EngineOf net snow → List EngineAction) (output : EngineOutput)
      → ((after : EngineOf net snow) → All (IsSendTo p.name) (later after))
      → (initiate_then net snow engine p now entropy later).1 ≡ ok output
      → All (IsSendTo p.name) output.actions
  unfolding initiate_then
  initiate_then-IsSendTo engine p now entropy later output after h =
      let r = initiate_peer net snow engine p now entropy in
      elim (Result-cases r.1) [
        | inr (error, e) ↦ absurd (ground arith)
        | inl (action, e) ↦
            let same : record { actions = action_list action ++ later r.0; events = [] } ≡ output =
              ground arith in
            subst (λ o. All (IsSendTo p.name) o.actions) same
              (append-All (IsSendTo p.name) (action_list action) (later r.0)
                (initiate_peer-IsSendTo engine p now entropy action e) (after r.0))
      ]

  send_or_initiate-IsSendTo :
      (engine : EngineOf net snow) (p : Peer net.Net) (m : MsgType) (payload : Bytes) (now : ℕ)
      (entropy : Text → Entropy) (output : EngineOutput)
      → (send_or_initiate net snow engine p m payload now entropy).1 ≡ ok output
      → All (IsSendTo p.name) output.actions
  unfolding send_or_initiate
  send_or_initiate-IsSendTo engine p m payload now entropy output h =
      let sent = Sessions.encrypt_for_peer snow engine.sessions p.name m payload now in
      elim (Result-cases sent.1) [
        | inr (error, e) ↦
            initiate_then-IsSendTo (invalidate_peer (record engine { sessions = sent.0 }) p.name).0
              p now entropy (λ after. []) output (λ after. tt) (ground arith)
        | inl (sealed, e) ↦ elim (Option-cases sealed) [
          | inl f ↦
              initiate_then-IsSendTo (record engine { sessions = sent.0 }) p now entropy
                (λ after. []) output (λ after. tt) (ground arith)
          | inr (frame, f) ↦
              initiate_then-IsSendTo (record engine { sessions = sent.0 }) p now entropy
                (λ after. send_to p.name (resolve_endpoint after p) frame) output
                (λ after. send_to-IsSendTo after p frame) (ground arith)
        ]
      ]

  -- For an IPv4 packet that the table routes, every action of a call that succeeds is a frame for
  -- the peer of the route, to an endpoint that has an address and a port.
  pub process_outbound_ip-IsSendTo :
      (engine : EngineOf net snow) (packet : Bytes) (now : ℕ) (entropy : Text → Entropy)
      (ipv4 : Ipv4Packet) (route : Route net.Net) (output : EngineOutput)
      → Packet.parse packet ≡ ok ipv4
      → Router.lookup net engine.router (Packet.destination ipv4) ≡ some route
      → (process_outbound_ip net snow engine packet now entropy).1 ≡ ok output
      → All (IsSendTo route.peer.name) output.actions
  unfolding process_outbound_ip
  process_outbound_ip-IsSendTo engine packet now entropy ipv4 route output e f h =
      send_or_initiate-IsSendTo engine route.peer data_msg packet now entropy output (ground arith)
