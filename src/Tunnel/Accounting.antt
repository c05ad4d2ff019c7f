-- ===== src/Tunnel/Accounting.antt =====
-- src/tunnel.rs: what the loop over the actions counts as sent.
use hushwire.Common.{
  ℕ, ◌+◌, ◌%◌, ◌^◌, Bool, Bytes, List, [], ◌∷◌, ◌≡◌, inl, inr, refl, ap, ◌∙◌, arith, ite,
  if◌then◌else◌, length, Bool-cases, true, false, some,
}
use hushwire.Common.Maps.{Text, get, insert, text_eq}
use hushwire.Common.Maps.Laws.{get-insert}
use hushwire.Externals.{Ipnet, Snow}
use hushwire.Peers.{PeerState, entry, record_tx}
use hushwire.Config.{SocketAddr}
use hushwire.Engine.{EngineOf, EngineAction, send_transport, write_ip_packet, record_transport_sent}
use hushwire.Tunnel.{Sending, send_engine_frame, send_actions}

-- The bytes of the frames for the peer that the transport has taken.
abbrev pub taken : Sending → Text → List EngineAction → ℕ
taken send name [] = 0
taken send name (write_ip_packet peer source packet ∷ actions) = taken send name actions
taken send name (send_transport peer endpoint frame ∷ actions) =
    ite (text_eq peer name) (if send frame endpoint then length frame else 0) 0
    + taken send name actions

entry-record_tx :
    (m : PeerState) (peer name : Text) (bytes : ℕ)
    → (entry name (record_tx m peer bytes)).tx_bytes
      ≡ ite (text_eq peer name) (((entry name m).tx_bytes + bytes) % 2 ^ 64) (entry name m).tx_bytes
unfolding entry record_tx
entry-record_tx m peer name bytes =
    let stats = entry peer m in
    let counted = record stats { tx_bytes = (stats.tx_bytes + bytes) % 2 ^ 64 } in
    elim (text_eq peer name)
        as (λ d.
          get name (insert peer counted m) ≡ ite d (some counted) (get name m)
          → (entry name (record_tx m peer bytes)).tx_bytes
            ≡ ite d (((entry name m).tx_bytes + bytes) % 2 ^ 64) (entry name m).tx_bytes) [
              | yes e ↦ λ k. rw (k, entry) (ap (λ n. ((entry n m).tx_bytes + bytes) % 2 ^ 64) e)
              | no n ↦ λ k. rw (k, entry) refl
            ]
      (get-insert peer name counted m)

-- The sum of what is counted in two steps, the first of which may wrap around.
wraps_once :
    (before after first rest : ℕ) (same : Bool)
    → after ≡ (if same then (before + first) % 2 ^ 64 else before)
    → (after + rest) % 2 ^ 64 ≡ (before + ((if same then first else 0) + rest)) % 2 ^ 64
wraps_once before after first rest true h = omega (arith, h)
wraps_once before after first rest false h = omega (arith, h)

module _ (net : Ipnet) (snow : Snow) (send : Sending) where
  step_taken :
      (engine : EngineOf net snow) (name peer : Text) (endpoint : SocketAddr) (frame : Bytes)
      (rest : ℕ)
      → ((entry name (send_engine_frame net snow send engine peer endpoint frame).0.peers).tx_bytes
            + rest)
          % 2 ^ 64
        ≡ ((entry name engine.peers).tx_bytes
            + (ite (text_eq peer name) (if send frame endpoint then length frame else 0) 0 + rest))
          % 2 ^ 64
  unfolding send_engine_frame record_transport_sent
  step_taken engine name peer endpoint frame rest = elim (Bool-cases (send frame endpoint)) [
    | inl e ↦
        rw (e, send_engine_frame)
          (elim (text_eq peer name)
              as (λ d.
                (entry name (record_tx engine.peers peer (length frame))).tx_bytes
                  ≡ ite d (((entry name engine.peers).tx_bytes + length frame) % 2 ^ 64)
                      (entry name engine.peers).tx_bytes
                → ((entry name (record_tx engine.peers peer (length frame))).tx_bytes + rest)
                    % 2 ^ 64
                  ≡ ((entry name engine.peers).tx_bytes + (ite d (length frame) 0 + rest))
                    % 2 ^ 64) [
                      | yes e ↦
                          wraps_once (entry name engine.peers).tx_bytes _ (length frame) rest true
                      | no n ↦
                          wraps_once (entry name engine.peers).tx_bytes _ (length frame) rest false
                    ]
            (entry-record_tx engine.peers peer name (length frame)))
    | inr e ↦
        rw (e, send_engine_frame)
          (elim (text_eq peer name)
            as (λ d.
              ((entry name engine.peers).tx_bytes + rest) % 2 ^ 64
              ≡ ((entry name engine.peers).tx_bytes + (ite d 0 0 + rest)) % 2 ^ 64) [
                | yes e ↦ omega arith
                | no n ↦ omega arith
              ])
  ]

  frame_keeps :
      (engine : EngineOf net snow) (peer : Text) (endpoint : SocketAddr) (frame : Bytes)
      → ((send_engine_frame net snow send engine peer endpoint frame).0.sessions ≡ engine.sessions)
        × ((send_engine_frame net snow send engine peer endpoint frame).0.resolved_endpoints
            ≡ engine.resolved_endpoints)
  unfolding send_engine_frame record_transport_sent
  frame_keeps engine peer endpoint frame = elim (Bool-cases (send frame endpoint)) [
    | inl e ↦ rw (e, send_engine_frame) (refl, refl)
    | inr e ↦ rw (e, send_engine_frame) (refl, refl)
  ]

  -- The loop over the actions adds to the bytes sent to a peer the lengths of exactly those of its
  -- frames that the transport takes, modulo 2^64, and leaves the sessions and the resolved
  -- endpoints as they were.
  pub send_actions-taken :
      (engine : EngineOf net snow) (name : Text) (actions : List EngineAction)
      → ((entry name (send_actions net snow send engine actions).peers).tx_bytes % 2 ^ 64
          ≡ ((entry name engine.peers).tx_bytes + taken send name actions) % 2 ^ 64)
        × ((send_actions net snow send engine actions).sessions ≡ engine.sessions)
        × ((send_actions net snow send engine actions).resolved_endpoints
            ≡ engine.resolved_endpoints)
  unfolding send_actions
  send_actions-taken engine name [] = (omega arith, refl, refl)
  send_actions-taken engine name (write_ip_packet peer source packet ∷ actions) =
      send_actions-taken engine name actions
  send_actions-taken engine name (send_transport peer endpoint frame ∷ actions) =
      let sent = (send_engine_frame net snow send engine peer endpoint frame).0 in
      let (counted, sessions, endpoints) = send_actions-taken sent name actions in
      let (same_sessions, same_endpoints) = frame_keeps engine peer endpoint frame in
      (
        counted ∙ step_taken engine name peer endpoint frame (taken send name actions),
        sessions ∙ same_sessions,
        endpoints ∙ same_endpoints,
      )
