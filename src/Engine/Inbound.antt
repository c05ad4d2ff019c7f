-- ===== src/Engine/Inbound.antt =====
-- src/engine.rs, `Engine::process_inbound_transport`: one frame from the network.
use hushwire.Common.{
  ℕ, Bool, true, false, not, List, [], ◌∷◌, Option, none, some, if◌then◌else◌, ite, Result, ok, err,
  Bytes, bytes_eq, is_some_and, length,
}
use hushwire.Common.Maps.{Text, text_eq}
use hushwire.Externals.{Ipnet, Snow}
use hushwire.Auth.{
  transport, handshake_init, handshake_response, data_msg, keepalive, handshake_packet,
  transport_packet, decode_packet, encode_handshake, keepalive_probe_payload, keepalive_ack_payload,
}
use hushwire.Packet
use hushwire.Config.{SocketAddr}
use hushwire.Router.{Route}
use hushwire.Peers
use hushwire.Noise.Handshake.{Entropy, ResponderHandshake, responder_respond}
use hushwire.Sessions
use hushwire.Sessions.{DecryptedTransport}
use hushwire.Sessions.Exchange
use hushwire.Engine.{
  EngineAction, send_transport, write_ip_packet, initiator, responder, EngineEvent,
  handshake_completed, EngineOutput, no_output, EngineError, packet_error, noise_error, EngineOf,
  usable_peer_endpoint, peer,
}

-- The names in the code's `checked`.
unfoldable pub checked_name : Text → List Text → Bool
checked_name name [] = false
checked_name name (other ∷ names) = ite (text_eq other name) true (checked_name name names)

module _ (net : Ipnet) (snow : Snow) where
  -- The loop of `decode_handshake_init`: the first peer whose keys open the message.
  unfoldable pub decode_handshake_init :
      Bytes
      → Bytes
      → Bytes
      → (Text → Entropy)
      → ℕ
      → List (Route net.Net)
      → List Text
      → Option (Text × ResponderHandshake snow.Transport)
  decode_handshake_init local_static handshake_id message entropy clock [] checked = none
  decode_handshake_init local_static handshake_id message entropy clock (route ∷ routes) checked =
      let p = route.peer in
      let skipped =
        decode_handshake_init local_static handshake_id message entropy clock routes checked in
      let failed =
        decode_handshake_init local_static handshake_id message entropy clock routes
          (p.name ∷ checked) in
      if checked_name p.name checked
      then skipped
      else elim (responder_respond snow local_static p.public_key p.psk handshake_id message
          (entropy p.name) clock) [ ok handshake ↦ some (p.name, handshake) | err e ↦ failed ]

  abbrev EngineResult : Type 0
  EngineResult = EngineOf net snow × Result (EngineError net.Net) EngineOutput

  abbrev with_action : EngineAction → EngineOutput
  with_action action = record { actions = action ∷ []; events = [] }

  -- A handshake that could be read, once its initiation is accepted.
  unfoldable pub answer_initiation :
      EngineOf net snow
      → Text
      → ResponderHandshake snow.Transport
      → Bytes
      → Bytes
      → SocketAddr
      → ℕ
      → EngineResult
  answer_initiation engine peer_name handshake handshake_id message source clock =
      let (sessions, cached) =
        Exchange.cached_responder_response engine.sessions peer_name handshake_id message clock in
      let response = encode_handshake handshake_response handshake_id handshake.message in
      let (stored, fresh) =
        Exchange.store_responder_candidate sessions peer_name handshake.session handshake_id message
          response clock in
      elim cached [
        | some old ↦ (
          record engine { sessions = sessions },
          ok (with_action (send_transport peer_name source old)),
        )
        | none ↦ (
          record engine { sessions = stored },
          ok (if fresh then with_action (send_transport peer_name source response) else no_output),
        )
      ]

  unfoldable pub process_init :
      EngineOf net snow → Bytes → Bytes → SocketAddr → (Text → Entropy) → ℕ → EngineResult
  process_init engine handshake_id message source entropy clock =
      elim (decode_handshake_init engine.local_static handshake_id message entropy clock
        engine.router.routes []) [
          | none ↦ (engine, ok no_output)
          | some (peer_name, handshake) ↦
              let passive =
                is_some_and (peer engine peer_name) (λ p. not (usable_peer_endpoint p.endpoint)) in
              let (sessions, accepted) =
                Exchange.accept_inbound_initiation engine.sessions peer_name handshake_id passive
                  clock in
              let engine' = record engine { sessions = sessions } in
              if accepted
              then answer_initiation engine' peer_name handshake handshake_id message source clock
              else (engine', ok no_output)
        ]

  unfoldable pub process_response :
      EngineOf net snow → Bytes → Bytes → SocketAddr → ℕ → EngineResult
  process_response engine handshake_id message source clock =
      let (sessions, r) =
        Exchange.finalize_initiator snow engine.sessions handshake_id message clock in
      let engine' = record engine { sessions = sessions } in
      elim r [
        | err e ↦ (engine', err (noise_error e))
        | ok finished ↦ elim finished [
          | none ↦ (engine', ok no_output)
          | some (peer_name, confirmation) ↦ (
            record engine' { peers = Peers.record_keepalive engine'.peers peer_name source clock },
            ok (record {
              actions = send_transport peer_name source confirmation ∷ [];
              events = handshake_completed peer_name source initiator ∷ [];
            }),
          )
        ]
      ]

  -- A keepalive from a peer: a probe is acknowledged.
  unfoldable pub deliver_keepalive :
      EngineOf net snow → Text → Bytes → List EngineEvent → SocketAddr → ℕ → ℕ → EngineResult
  deliver_keepalive engine peer_name payload events source now clock =
      let seen = record engine {
        peers = Peers.record_keepalive engine.peers peer_name source clock;
      } in
      let (sessions, r) =
        Sessions.encrypt_for_peer snow engine.sessions peer_name keepalive keepalive_ack_payload
          now in
      let answered = record seen { sessions = sessions } in
      ite (bytes_eq payload keepalive_probe_payload)
        (
          answered,
          elim r [
            | err e ↦ err (noise_error e)
            | ok sealed ↦ elim sealed [
              | none ↦ ok (record { actions = []; events = events })
              | some frame ↦
                  ok (record {
                    actions = send_transport peer_name source frame ∷ [];
                    events = events;
                  })
            ]
          ],
        )
        (seen, ok (record { actions = []; events = events }))

  unfoldable pub deliver_data :
      EngineOf net snow → Text → Bytes → List EngineEvent → SocketAddr → ℕ → EngineResult
  deliver_data engine peer_name payload events source clock = (
    record engine { peers = Peers.record_rx engine.peers peer_name source (length payload) clock },
    elim (Packet.parse payload) [
      | err e ↦ err (packet_error e)
      | ok ipv4 ↦
          ok (record { actions = write_ip_packet peer_name source payload ∷ []; events = events })
    ],
  )

  abbrev promotion_events : DecryptedTransport → SocketAddr → List EngineEvent
  promotion_events d source =
      if d.promoted_responder_session
      then handshake_completed d.peer_name source responder ∷ []
      else []

  unfoldable pub deliver :
      EngineOf net snow → DecryptedTransport → SocketAddr → ℕ → ℕ → EngineResult
  deliver engine d source now clock = elim d.msg_type [
    | keepalive ↦
        deliver_keepalive engine d.peer_name d.payload (promotion_events d source) source now clock
    | data_msg ↦ deliver_data engine d.peer_name d.payload (promotion_events d source) source clock
  ]

  unfoldable pub process_transport :
      EngineOf net snow → Bytes → ℕ → Bytes → SocketAddr → ℕ → ℕ → EngineResult
  process_transport engine session_id counter ciphertext source now clock =
      let (sessions, r) =
        Sessions.decrypt_transport snow engine.sessions session_id counter ciphertext now in
      let engine' = record engine { sessions = sessions } in
      elim r [
        | err e ↦ (engine', err (noise_error e))
        | ok decrypted ↦ elim decrypted [
          | none ↦ (engine', ok no_output)
          | some d ↦ deliver engine' d source now clock
        ]
      ]

  unfoldable pub process_inbound_transport :
      EngineOf net snow → Bytes → SocketAddr → ℕ → (Text → Entropy) → ℕ → EngineResult
  process_inbound_transport engine frame source now entropy clock = elim (decode_packet frame) [
    | none ↦ (engine, ok no_output)
    | some parsed ↦ elim parsed [
      | handshake_packet kind handshake_id message ↦ elim kind [
        | transport ↦ (engine, ok no_output)
        | handshake_init ↦ process_init engine handshake_id message source entropy clock
        | handshake_response ↦ process_response engine handshake_id message source clock
      ]
      | transport_packet session_id counter ciphertext ↦
          process_transport engine session_id counter ciphertext source now clock
    ]
  ]
