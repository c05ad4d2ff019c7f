-- ===== src/Tunnel.antt =====
-- src/tunnel.rs: the rounds of the threads of a running tunnel around the engine. What is read from
-- the TUN device and from the transport, and which sends fail, are arguments; log lines are left out.
pub mod Accounting
pub mod Writes
use hushwire.Common.{
  ℕ, Bool, true, false, List, [], ◌∷◌, ◌++◌, Option, none, some, if◌then◌else◌, Result, ok, err,
  Bytes, length,
}
use hushwire.Common.Maps.{Text}
use hushwire.Externals.{Ipnet, Snow}
use hushwire.Auth.{decode_packet}
use hushwire.Packet
use hushwire.Config.{SocketAddr}
use hushwire.Noise.Handshake.{Entropy}
use hushwire.Engine.{
  EngineOf, EngineAction, send_transport, write_ip_packet, EngineOutput, record_transport_sent,
  process_outbound_ip,
}
use hushwire.Engine.Inbound.{process_inbound_transport}
use hushwire.Scheduler.{ScheduledOperation, ScheduledOutput, EngineScheduler}
use hushwire.Scheduler.Loops.{ProgressOf, tick}

-- The bytes behind the 4 of the packet information.
unfoldable pub strip_packet_information : Bytes → Bool → Option Bytes
strip_packet_information frame false = some frame
strip_packet_information (a ∷ b ∷ c ∷ d ∷ frame) true = some frame
strip_packet_information _ true = none

-- `AF_INET` is 2 on Linux and macOS.
unfoldable pub add_packet_information : Bytes → Bool → Bytes
add_packet_information frame false = frame
add_packet_information frame true = 0 ∷ 0 ∷ 0 ∷ 2 ∷ frame

-- Whether the transport takes a frame for an endpoint.
abbrev pub Sending : Type 0
Sending = Bytes → SocketAddr → Bool

-- What a round of the receiver has written to the TUN device; `panicked` is its failed `expect`.
pub data Written : Type 0 where
  wrote : List Bytes → Written
  panicked : Written

abbrev pub with_written : Bytes → Written → Written
with_written packet (wrote packets) = wrote (packet ∷ packets)
with_written packet panicked = panicked

module _ (net : Ipnet) (snow : Snow) (send : Sending) where
  unfoldable pub send_engine_frame :
      EngineOf net snow → Text → SocketAddr → Bytes → EngineOf net snow × Bool
  send_engine_frame engine peer_name endpoint frame =
      if send frame endpoint
      then (record_transport_sent engine peer_name (length frame), true)
      else (engine, false)

  -- The loop over the actions of an outbound packet or of a timer, which only sends.
  unfoldable pub send_actions : EngineOf net snow → List EngineAction → EngineOf net snow
  unfolding send_engine_frame
  send_actions engine [] = engine
  send_actions engine (send_transport peer_name endpoint frame ∷ actions) =
      send_actions (send_engine_frame engine peer_name endpoint frame).0 actions
  send_actions engine (write_ip_packet peer_name source packet ∷ actions) =
      send_actions engine actions

  unfoldable pub send_engine_transport_output : EngineOf net snow → EngineOutput → EngineOf net snow
  unfolding send_actions
  send_engine_transport_output engine output = send_actions engine output.actions

  -- One round of the thread that reads the TUN device.
  unfoldable pub tun_round :
      EngineOf net snow → Bytes → Bool → ℕ → (Text → Entropy) → EngineOf net snow
  unfolding strip_packet_information send_actions
  tun_round engine packet packet_information now entropy =
      elim (strip_packet_information packet packet_information) [
        | none ↦ engine
        | some frame ↦ elim (Packet.parse frame) [
          | err e ↦ engine
          | ok ipv4 ↦
              let (engine', result) = process_outbound_ip net snow engine frame now entropy in
              elim result [ err e ↦ engine' | ok output ↦ send_actions engine' output.actions ]
        ]
      ]

  -- The loop over the actions of an inbound frame.
  unfoldable pub inbound_actions :
      EngineOf net snow → Bool → List EngineAction → EngineOf net snow × Written
  unfolding send_engine_frame add_packet_information
  inbound_actions engine packet_information [] = (engine, wrote [])
  inbound_actions engine packet_information (send_transport peer_name endpoint frame ∷ actions) =
      inbound_actions (send_engine_frame engine peer_name endpoint frame).0 packet_information
        actions
  inbound_actions engine packet_information (write_ip_packet peer_name source packet ∷ actions) =
      elim (Packet.parse packet) [
        | err e ↦ (engine, panicked)
        | ok ipv4 ↦
            let (engine', written) = inbound_actions engine packet_information actions in
            (engine', with_written (add_packet_information packet packet_information) written)
      ]

  -- One round of the thread that receives from the transport.
  unfoldable pub transport_round :
      EngineOf net snow
      → Bytes
      → SocketAddr
      → Bool
      → ℕ
      → (Text → Entropy)
      → ℕ
      → EngineOf net snow × Written
  unfolding inbound_actions
  transport_round engine frame source packet_information now entropy clock =
      elim (decode_packet frame) [
        | none ↦ (engine, wrote [])
        | some parsed ↦
            let (engine', result) =
              process_inbound_transport net snow engine frame source now entropy clock in
            elim result [
              | err e ↦ (engine', wrote [])
              | ok output ↦ inbound_actions engine' packet_information output.actions
            ]
      ]

  unfoldable pub send_scheduled : EngineOf net snow → List ScheduledOutput → EngineOf net snow
  unfolding send_engine_transport_output
  send_scheduled engine [] = engine
  send_scheduled engine (scheduled ∷ outputs) =
      send_scheduled (send_engine_transport_output engine scheduled.output) outputs

  -- One round of the keepalive thread.
  unfoldable pub keepalive_round :
      EngineScheduler
      → EngineOf net snow
      → ℕ
      → ℕ
      → (ScheduledOperation → Text → Entropy)
      → (Text → ℕ → Bool)
      → EngineScheduler × EngineOf net snow
  unfolding send_scheduled
  keepalive_round scheduler engine now clock entropy rebind_udp =
      let progress = tick net snow scheduler engine now clock entropy rebind_udp in
      (progress.scheduler, send_scheduled progress.engine progress.tick.outputs)
