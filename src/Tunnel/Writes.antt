-- ===== src/Tunnel/Writes.antt =====
-- src/tunnel.rs and src/engine.rs: the packets that the engine gives the TUN device.
use hushwire.Common.{
  ℕ, Bool, List, [], ◌∷◌, Option, none, some, ◌≡◌, refl, subst, inl, inr, Result, ok, err, ite,
  Bytes, bytes_eq, is_some_and, not, All, Bool-cases, Option-cases, Result-cases,
}
use hushwire.Common.Maps.{Text}
use hushwire.Externals.{Ipnet, Snow}
use hushwire.Auth.{
  transport, handshake_init, handshake_response, keepalive, data_msg, keepalive_probe_payload,
  keepalive_ack_payload, handshake_packet, transport_packet, decode_packet, encode_handshake,
}
use hushwire.Packet
use hushwire.Packet.{Ipv4Packet}
use hushwire.Config.{SocketAddr}
use hushwire.Noise.{NoiseError}
use hushwire.Noise.Handshake.{Entropy, ResponderHandshake}
use hushwire.Sessions
use hushwire.Sessions.{DecryptedTransport}
use hushwire.Sessions.Exchange
use hushwire.Engine.{
  EngineOf, EngineAction, send_transport, write_ip_packet, EngineOutput, peer, usable_peer_endpoint,
  EngineError, noise_error, EngineEvent,
}
use hushwire.Engine.Inbound.{
  answer_initiation, process_init, process_response, deliver_keepalive, deliver_data, deliver,
  process_transport, process_inbound_transport, decode_handshake_init,
}
use hushwire.Tunnel.{
  Sending, wrote, send_engine_frame, add_packet_information, inbound_actions, transport_round,
}

-- An action that writes a packet writes one that the parser accepts.
abbrev pub IsWritable : EngineAction → Type 0
IsWritable (send_transport peer_name endpoint frame) = Unit
IsWritable (write_ip_packet peer_name source packet) =
    (ipv4 : Ipv4Packet) × (Packet.parse packet ≡ ok ipv4)

abbrev AreWritable : {E : Type 0} → Result E EngineOutput → Type 0
AreWritable (err e) = Unit
AreWritable (ok output) = All IsWritable output.actions

module _ (net : Ipnet) (snow : Snow) where
  deliver_data-AreWritable :
      (engine : EngineOf net snow) (name : Text) (payload : Bytes) (events : List EngineEvent)
      (source : SocketAddr) (clock : ℕ)
      → AreWritable (deliver_data net snow engine name payload events source clock).1
  unfolding deliver_data
  deliver_data-AreWritable engine name payload events source clock =
      elim (Result-cases (Packet.parse payload)) [
        | inl (ipv4, e) ↦ rw (e, deliver_data) ((ipv4, e), tt)
        | inr (error, e) ↦ rw (e, deliver_data) tt
      ]

  either :
      {P : Type 0} {E S : Type 0} (d : Dec P) (a b : S × Result E EngineOutput)
      → AreWritable a.1
      → AreWritable b.1
      → AreWritable (ite d a b).1
  either (yes p) a b h k = h
  either (no n) a b h k = k

  acknowledged :
      (events : List EngineEvent) (name : Text) (source : SocketAddr)
      (sealed : Result NoiseError (Option Bytes))
      → AreWritable {E = EngineError net.Net} (elim sealed [
        | err e ↦ err (noise_error e)
        | ok sealed ↦ elim sealed [
          | none ↦ ok (record { actions = []; events = events })
          | some frame ↦
              ok (record { actions = send_transport name source frame ∷ []; events = events })
        ]
      ])
  acknowledged events name source (err e) = tt
  acknowledged events name source (ok none) = tt
  acknowledged events name source (ok (some frame)) = (tt, tt)

  deliver_keepalive-AreWritable :
      (engine : EngineOf net snow) (name : Text) (payload : Bytes) (events : List EngineEvent)
      (source : SocketAddr) (now clock : ℕ)
      → AreWritable (deliver_keepalive net snow engine name payload events source now clock).1
  unfolding deliver_keepalive
  deliver_keepalive-AreWritable engine name payload events source now clock =
      either (bytes_eq payload keepalive_probe_payload) (_, _) (_, _)
        (acknowledged events name source
          (Sessions.encrypt_for_peer snow engine.sessions name keepalive keepalive_ack_payload
            now).1)
        tt

  answer_initiation-AreWritable :
      (engine : EngineOf net snow) (name : Text) (handshake : ResponderHandshake snow.Transport)
      (id message : Bytes) (source : SocketAddr) (clock : ℕ)
      → AreWritable (answer_initiation net snow engine name handshake id message source clock).1
  unfolding answer_initiation
  answer_initiation-AreWritable engine name handshake id message source clock =
      let looked = Exchange.cached_responder_response engine.sessions name id message clock in
      let cached = looked.1 in
      let fresh =
        (Exchange.store_responder_candidate looked.0 name handshake.session id message
          (encode_handshake handshake_response id handshake.message) clock).1 in
      elim (Option-cases cached) [
        | inr (old, e) ↦ rw (e, answer_initiation) (tt, tt)
        | inl e ↦ elim (Bool-cases fresh) [
          | inl f ↦ rw (e, f, answer_initiation) (tt, tt)
          | inr f ↦ rw (e, f, answer_initiation) tt
        ]
      ]

  process_response-AreWritable :
      (engine : EngineOf net snow) (id message : Bytes) (source : SocketAddr) (clock : ℕ)
      → AreWritable (process_response net snow engine id message source clock).1
  unfolding process_response
  process_response-AreWritable engine id message source clock =
      elim (Result-cases (Exchange.finalize_initiator snow engine.sessions id message clock).1) [
        | inr (error, e) ↦ rw (e, process_response) tt
        | inl (finished, e) ↦ elim (Option-cases finished) [
          | inl f ↦ rw (e, f, process_response) tt
          | inr ((name, confirmation), f) ↦ rw (e, f, process_response) (tt, tt)
        ]
      ]

  process_init-AreWritable :
      (engine : EngineOf net snow) (id message : Bytes) (source : SocketAddr)
      (entropy : Text → Entropy) (clock : ℕ)
      → AreWritable (process_init net snow engine id message source entropy clock).1
  unfolding process_init
  process_init-AreWritable engine id message source entropy clock =
      elim (Option-cases (
        decode_handshake_init net snow engine.local_static id message entropy clock
          engine.router.routes [])) [
            | inl e ↦ rw (e, process_init) tt
            | inr ((name, handshake), e) ↦
                let passive =
                  is_some_and (peer engine name) (λ p. not (usable_peer_endpoint p.endpoint)) in
                let accepted =
                  Exchange.accept_inbound_initiation engine.sessions name id passive clock in
                elim (Bool-cases accepted.1) [
                  | inl f ↦
                      rw (e, f, process_init)
                        (answer_initiation-AreWritable (record engine { sessions = accepted.0 })
                          name handshake id message source clock)
                  | inr f ↦ rw (e, f, process_init) tt
                ]
          ]

  deliver-AreWritable :
      (engine : EngineOf net snow) (d : DecryptedTransport) (source : SocketAddr) (now clock : ℕ)
      → AreWritable (deliver net snow engine d source now clock).1
  unfolding deliver
  deliver-AreWritable engine d source now clock =
      elim d.msg_type
        as (λ t.
          AreWritable (deliver net snow engine (record d { msg_type = t }) source now clock).1) [
            | keepalive ↦
                deliver_keepalive-AreWritable engine d.peer_name d.payload _ source now clock
            | data_msg ↦ deliver_data-AreWritable engine d.peer_name d.payload _ source clock
          ]

  process_transport-AreWritable :
      (engine : EngineOf net snow) (id : Bytes) (counter : ℕ) (ciphertext : Bytes)
      (source : SocketAddr) (now clock : ℕ)
      → AreWritable (process_transport net snow engine id counter ciphertext source now clock).1
  unfolding process_transport
  process_transport-AreWritable engine id counter ciphertext source now clock =
      let decrypted = Sessions.decrypt_transport snow engine.sessions id counter ciphertext now in
      elim (Result-cases decrypted.1) [
        | inr (error, e) ↦ rw (e, process_transport) tt
        | inl (received, e) ↦ elim (Option-cases received) [
          | inl f ↦ rw (e, f, process_transport) tt
          | inr (d, f) ↦
              rw (e, f, process_transport)
                (deliver-AreWritable (record engine { sessions = decrypted.0 }) d source now clock)
        ]
      ]

  process_inbound_transport-AreWritable :
      (engine : EngineOf net snow) (frame : Bytes) (source : SocketAddr) (now : ℕ)
      (entropy : Text → Entropy) (clock : ℕ)
      → AreWritable (process_inbound_transport net snow engine frame source now entropy clock).1
  unfolding process_inbound_transport
  process_inbound_transport-AreWritable engine frame source now entropy clock =
      elim (Option-cases (decode_packet frame)) [
        | inl e ↦ rw (e, process_inbound_transport) tt
        | inr (parsed, e) ↦
            elim parsed
                as (λ p.
                  decode_packet frame ≡ some p
                  → AreWritable
                      (process_inbound_transport net snow engine frame source now entropy
                        clock).1) [
                          | handshake_packet kind id message ↦
                              elim kind
                                as (λ k.
                                  decode_packet frame ≡ some (handshake_packet k id message)
                                  → AreWritable
                                      (process_inbound_transport net snow engine frame source now
                                        entropy clock).1) [
                                          | transport ↦ λ f. rw (f, process_inbound_transport) tt
                                          | handshake_init ↦ λ f.
                                              rw (f, process_inbound_transport)
                                                (process_init-AreWritable engine id message source
                                                  entropy clock)
                                          | handshake_response ↦ λ f.
                                              rw (f, process_inbound_transport)
                                                (process_response-AreWritable engine id message
                                                  source clock)
                                        ]
                          | transport_packet id counter ciphertext ↦ λ f.
                              rw (f, process_inbound_transport)
                                (process_transport-AreWritable engine id counter ciphertext source
                                  now clock)
                        ]
              e
      ]

  module _ (send : Sending) where
    inbound_actions_no_panic :
        (engine : EngineOf net snow) (information : Bool) (actions : List EngineAction)
        → All IsWritable actions
        → (packets : List Bytes) × ((inbound_actions net snow send engine information actions).1
            ≡ wrote packets)
    unfolding inbound_actions
    inbound_actions_no_panic engine information [] h = ([], refl)
    inbound_actions_no_panic engine information (send_transport name endpoint frame ∷ actions) h =
        inbound_actions_no_panic (send_engine_frame net snow send engine name endpoint frame).0
          information actions h.1
    inbound_actions_no_panic engine information (write_ip_packet name source packet ∷ actions)
          ((ipv4, e), h) =
        let (packets, same) = inbound_actions_no_panic engine information actions h in
        (add_packet_information packet information ∷ packets, rw (e, same, inbound_actions) refl)

    -- Whatever frame a tunnel receives, on any engine, and whichever sends fail, the `expect` on a
    -- packet for the TUN device does not fail: the engine gives it only packets that the IPv4
    -- parser accepts.
    pub transport_round_no_panic :
        (engine : EngineOf net snow) (frame : Bytes) (source : SocketAddr) (information : Bool)
        (now : ℕ) (entropy : Text → Entropy) (clock : ℕ)
        → (packets : List Bytes) × ((transport_round net snow send engine frame source information
              now entropy clock).1
            ≡ wrote packets)
    unfolding transport_round
    transport_round_no_panic engine frame source information now entropy clock =
        let answer = process_inbound_transport net snow engine frame source now entropy clock in
        let writable =
          process_inbound_transport-AreWritable engine frame source now entropy clock in
        elim (Option-cases (decode_packet frame)) [
          | inl e ↦ ([], rw (e, transport_round) refl)
          | inr (parsed, e) ↦ elim (Result-cases answer.1) [
            | inr (error, f) ↦ ([], rw (e, f, transport_round) refl)
            | inl (output, f) ↦
                rw (e, f, transport_round)
                  (inbound_actions_no_panic answer.0 information output.actions
                    (subst AreWritable f writable))
          ]
        ]
