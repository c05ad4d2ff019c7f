-- ===== src/Engine/Keeps.antt =====
-- The session table under each call of the engine.
use hushwire.Common.{
  ℕ, not, is_some_and, List, [], ◌≡◌, ◌⊎◌, inl, inr, refl, arith, Bytes, Bool-cases, Option-cases,
  Result-cases,
}
use hushwire.Common.Maps.{Text}
use hushwire.Externals.{Ipnet, Snow}
use hushwire.Auth.{
  MsgType, data_msg, keepalive, transport, handshake_init, handshake_response, decode_packet,
  handshake_packet, transport_packet, keepalive_ack_payload, encode_handshake,
}
use hushwire.Packet
use hushwire.Config.{SocketAddr}
use hushwire.Router
use hushwire.Router.{Router, Peer}
use hushwire.Noise.Handshake.{Entropy, ResponderHandshake}
use hushwire.Sessions
use hushwire.Sessions.{DecryptedTransport}
use hushwire.Sessions.Exchange
use hushwire.Sessions.Invariant.{IsWellFormed}
use hushwire.Sessions.Keep.{invalidate_peer-IsWellFormed}
use hushwire.Sessions.Transport.{encrypt_for_peer-IsWellFormed, decrypt_transport-IsWellFormed}
use hushwire.Sessions.Handshakes.{
  store_responder_candidate-IsWellFormed, cached_responder_response-IsWellFormed,
  accept_inbound_initiation-IsWellFormed,
}
use hushwire.Sessions.Initiator.{
  start_or_retry_handshake-IsWellFormed, finalize_initiator-IsWellFormed,
}
use hushwire.Engine.{
  EngineAction, EngineOf, peer, resolve_endpoint, usable_peer_endpoint, invalidate_peer,
  update_resolved_endpoint, initiate_peer, initiate_then, send_or_initiate, process_outbound_ip,
  create_keepalive, initiate_handshake,
}
use hushwire.Engine.Inbound.{
  decode_handshake_init, answer_initiation, process_init, process_response, deliver_keepalive,
  deliver_data, deliver, process_transport, process_inbound_transport,
}

MsgType-cases : (m : MsgType) → (m ≡ data_msg) ⊎ (m ≡ keepalive)
MsgType-cases data_msg = inl refl
MsgType-cases keepalive = inr refl

module _ (net : Ipnet) (snow : Snow) where
  abbrev pub Keeps : EngineOf net snow → Type 0
  Keeps engine = IsWellFormed engine.sessions

  initiate_peer-Keeps :
      (engine : EngineOf net snow) (p : Peer net.Net) (now : ℕ) (entropy : Text → Entropy)
      → Keeps engine
      → Keeps (initiate_peer net snow engine p now entropy).0
  unfolding initiate_peer
  initiate_peer-Keeps engine p now entropy v = elim (Option-cases (resolve_endpoint engine p)) [
    | inl e ↦ rw (e, initiate_peer) v
    | inr (endpoint, e) ↦
        rw (e, initiate_peer)
          (start_or_retry_handshake-IsWellFormed snow engine.sessions p.name engine.local_static
            p.public_key p.psk now (entropy p.name) v)
  ]

  initiate_then-Keeps :
      (engine : EngineOf net snow) (p : Peer net.Net) (now : ℕ) (entropy : Text → Entropy)
      (later : EngineOf net snow → List EngineAction)
      → Keeps engine
      → Keeps (initiate_then net snow engine p now entropy later).0
  unfolding initiate_then
  initiate_then-Keeps engine p now entropy later v = initiate_peer-Keeps engine p now entropy v

  send_or_initiate-Keeps :
      (engine : EngineOf net snow) (p : Peer net.Net) (m : MsgType) (payload : Bytes) (now : ℕ)
      (entropy : Text → Entropy)
      → Keeps engine
      → Keeps (send_or_initiate net snow engine p m payload now entropy).0
  unfolding send_or_initiate invalidate_peer
  send_or_initiate-Keeps engine p m payload now entropy v =
      let w = encrypt_for_peer-IsWellFormed snow engine.sessions p.name m payload now v in
      let sent = Sessions.encrypt_for_peer snow engine.sessions p.name m payload now in
      elim (Result-cases sent.1) [
        | inr (error, e) ↦
            rw (e, send_or_initiate)
              (initiate_then-Keeps _ p now entropy _ (invalidate_peer-IsWellFormed sent.0 p.name w))
        | inl (sealed, e) ↦ elim (Option-cases sealed) [
          | inl f ↦ rw (e, send_or_initiate, f) (initiate_then-Keeps _ p now entropy _ w)
          | inr (frame, f) ↦ rw (e, send_or_initiate, f) (initiate_then-Keeps _ p now entropy _ w)
        ]
      ]

  -- A packet of the tunnel keeps the session table well formed.
  pub process_outbound_ip-Keeps :
      (engine : EngineOf net snow) (packet : Bytes) (now : ℕ) (entropy : Text → Entropy)
      → Keeps engine
      → Keeps (process_outbound_ip net snow engine packet now entropy).0
  unfolding process_outbound_ip
  process_outbound_ip-Keeps engine packet now entropy v =
      elim (Result-cases (Packet.parse packet)) [
        | inr (error, e) ↦ rw (e, process_outbound_ip) v
        | inl (ipv4, e) ↦
            elim (Option-cases (Router.lookup net engine.router (Packet.destination ipv4))) [
              | inl f ↦ rw (e, process_outbound_ip, f) v
              | inr (route, f) ↦
                  rw (e, process_outbound_ip, f)
                    (send_or_initiate-Keeps engine route.peer data_msg packet now entropy v)
            ]
      ]

  pub create_keepalive-Keeps :
      (engine : EngineOf net snow) (name : Text) (payload : Bytes) (now : ℕ)
      (entropy : Text → Entropy)
      → Keeps engine
      → Keeps (create_keepalive net snow engine name payload now entropy).0
  unfolding create_keepalive
  create_keepalive-Keeps engine name payload now entropy v =
      elim (Option-cases (peer engine name)) [
        | inl e ↦ rw (e, create_keepalive) v
        | inr (p, e) ↦
            rw (e, create_keepalive)
              (send_or_initiate-Keeps engine p keepalive payload now entropy v)
      ]

  pub initiate_handshake-Keeps :
      (engine : EngineOf net snow) (name : Text) (now : ℕ) (entropy : Text → Entropy)
      → Keeps engine
      → Keeps (initiate_handshake net snow engine name now entropy).0
  unfolding initiate_handshake
  initiate_handshake-Keeps engine name now entropy v = elim (Option-cases (peer engine name)) [
    | inl e ↦ rw (e, initiate_handshake) v
    | inr (p, e) ↦ rw (e, initiate_handshake) (initiate_then-Keeps engine p now entropy _ v)
  ]

  pub update_resolved_endpoint-Keeps :
      (engine : EngineOf net snow) (name : Text) (endpoint : SocketAddr)
      → Keeps engine
      → Keeps (update_resolved_endpoint engine name endpoint).0
  unfolding update_resolved_endpoint
  update_resolved_endpoint-Keeps engine name endpoint v =
      let w = invalidate_peer-IsWellFormed engine.sessions name v in
      elim (Bool-cases (usable_peer_endpoint endpoint)) [
        | inr e ↦ rw (e, update_resolved_endpoint) v
        | inl e ↦ elim (Option-cases (peer engine name)) [
          | inl f ↦ rw (e, update_resolved_endpoint, f) v
          | inr (p, f) ↦ rw (e, update_resolved_endpoint, f) (ground (arith))
        ]
      ]

  answer_initiation-Keeps :
      (engine : EngineOf net snow) (name : Text) (handshake : ResponderHandshake snow.Transport)
      (id message : Bytes) (source : SocketAddr) (clock : ℕ)
      → Keeps engine
      → Keeps (answer_initiation net snow engine name handshake id message source clock).0
  unfolding answer_initiation
  answer_initiation-Keeps engine name handshake id message source clock v =
      let cached = Exchange.cached_responder_response engine.sessions name id message clock in
      let w = cached_responder_response-IsWellFormed engine.sessions name id message clock v in
      elim (Option-cases cached.1) [
        | inr (old, e) ↦ rw (e, answer_initiation) w
        | inl e ↦
            rw (e, answer_initiation)
              (store_responder_candidate-IsWellFormed cached.0 name handshake.session id message
                (encode_handshake handshake_response id handshake.message) clock w)
      ]

  process_init-Keeps :
      (engine : EngineOf net snow) (id message : Bytes) (source : SocketAddr)
      (entropy : Text → Entropy) (clock : ℕ)
      → Keeps engine
      → Keeps (process_init net snow engine id message source entropy clock).0
  unfolding process_init
  process_init-Keeps engine id message source entropy clock v =
      elim (Option-cases (
        decode_handshake_init net snow engine.local_static id message entropy clock
          engine.router.routes [])) [
            | inl e ↦ rw (e, process_init) v
            | inr ((name, handshake), e) ↦
                let passive =
                  is_some_and (peer engine name) (λ p. not (usable_peer_endpoint p.endpoint)) in
                let accepted =
                  Exchange.accept_inbound_initiation engine.sessions name id passive clock in
                let w =
                  accept_inbound_initiation-IsWellFormed engine.sessions name id passive clock v in
                elim (Bool-cases accepted.1) [
                  | inr f ↦ rw (e, process_init, f) w
                  | inl f ↦
                      rw (e, process_init, f)
                        (answer_initiation-Keeps (record engine { sessions = accepted.0 }) name
                          handshake id message source clock w)
                ]
          ]

  process_response-Keeps :
      (engine : EngineOf net snow) (id message : Bytes) (source : SocketAddr) (clock : ℕ)
      → Keeps engine
      → Keeps (process_response net snow engine id message source clock).0
  unfolding process_response
  process_response-Keeps engine id message source clock v =
      let w = finalize_initiator-IsWellFormed snow engine.sessions id message clock v in
      let finished = Exchange.finalize_initiator snow engine.sessions id message clock in
      elim (Result-cases finished.1) [
        | inr (error, e) ↦ rw (e, process_response) w
        | inl (done, e) ↦ elim (Option-cases done) [
          | inl f ↦ rw (e, process_response, f) w
          | inr (pair, f) ↦ rw (e, process_response, f) w
        ]
      ]

  deliver-Keeps :
      (engine : EngineOf net snow) (d : DecryptedTransport) (source : SocketAddr) (now clock : ℕ)
      → Keeps engine
      → Keeps (deliver net snow engine d source now clock).0
  unfolding deliver deliver_keepalive deliver_data
  deliver-Keeps engine d source now clock v =
      let w =
        encrypt_for_peer-IsWellFormed snow engine.sessions d.peer_name keepalive
          keepalive_ack_payload now v in
      elim (MsgType-cases d.msg_type) [
        | inl e ↦ rw (e, deliver) v
        | inr e ↦ rw (e, deliver) (ground arith)
      ]

  process_transport-Keeps :
      (engine : EngineOf net snow) (id : Bytes) (counter : ℕ) (ciphertext : Bytes)
      (source : SocketAddr) (now clock : ℕ)
      → Keeps engine
      → Keeps (process_transport net snow engine id counter ciphertext source now clock).0
  unfolding process_transport
  process_transport-Keeps engine id counter ciphertext source now clock v =
      let w = decrypt_transport-IsWellFormed snow engine.sessions id counter ciphertext now v in
      let opened = Sessions.decrypt_transport snow engine.sessions id counter ciphertext now in
      elim (Result-cases opened.1) [
        | inr (error, e) ↦ rw (e, process_transport) w
        | inl (done, e) ↦ elim (Option-cases done) [
          | inl f ↦ rw (e, process_transport, f) w
          | inr (d, f) ↦ rw (e, process_transport, f) (deliver-Keeps _ d source now clock w)
        ]
      ]

  pub process_inbound_transport-Keeps :
      (engine : EngineOf net snow) (frame : Bytes) (source : SocketAddr) (now : ℕ)
      (entropy : Text → Entropy) (clock : ℕ)
      → Keeps engine
      → Keeps (process_inbound_transport net snow engine frame source now entropy clock).0
  unfolding process_inbound_transport
  process_inbound_transport-Keeps engine frame source now entropy clock v =
      elim (Option-cases (decode_packet frame)) [
        | inl e ↦ rw (e, process_inbound_transport) v
        | inr (handshake_packet transport id message, e) ↦ rw (e, process_inbound_transport) v
        | inr (handshake_packet handshake_init id message, e) ↦
            rw (e, process_inbound_transport)
              (process_init-Keeps engine id message source entropy clock v)
        | inr (handshake_packet handshake_response id message, e) ↦
            rw (e, process_inbound_transport)
              (process_response-Keeps engine id message source clock v)
        | inr (transport_packet id counter ciphertext, e) ↦
            rw (e, process_inbound_transport)
              (process_transport-Keeps engine id counter ciphertext source now clock v)
      ]
