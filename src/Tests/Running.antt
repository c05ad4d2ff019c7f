-- ===== src/Tests/Running.antt =====
-- A tunnel that receives a packet.
use hushwire.Peers.{entry}
use hushwire.Tunnel.Accounting.{taken, send_actions-taken}
use hushwire.Common.{◌+◌, ◌%◌, ◌^◌, false, true, [], ◌∷◌, replicate, Bytes, List, ◌++◌, ◌≡◌}
use hushwire.Config.{SocketAddr, v4}
use hushwire.Auth.{data_msg, encode_transport, encode_transport_plaintext}
use hushwire.Noise.{new_session}
use hushwire.Engine.{EngineAction, send_transport, EngineOf}
use hushwire.Tunnel.{send_actions, Sending, transport_round, wrote}
use hushwire.Tunnel.Writes.{transport_round_no_panic}
use hushwire.Tests.Samples.{sample_net, sample_snow, sample_entropy, tag}
use hushwire.Tests.Calls.{sample_engine, routed}

abbrev sends : Sending
sends frame endpoint = true

abbrev with_information : Bytes
with_information = 0 ∷ 0 ∷ 0 ∷ 2 ∷ routed

abbrev remote : SocketAddr
remote = record { ip = v4 1; port = 51; flowinfo = 0; scope_id = 0 }

-- The engine with a session of the peer of the route.
abbrev id : Bytes
id = replicate 8 5

abbrev connected : EngineOf sample_net sample_snow
connected = record sample_engine {
  sessions = record sample_engine.sessions { sessions = (98 ∷ [], new_session id tt 0) ∷ [] };
}

abbrev data_frame : Bytes
data_frame = encode_transport id 0 (encode_transport_plaintext data_msg routed ++ tag)

transport_round_no_panic_example :
    (packets : List Bytes) × ((transport_round sample_net sample_snow sends connected data_frame
        remote true 5 sample_entropy 5).1
      ≡ wrote packets)
transport_round_no_panic_example =
    transport_round_no_panic sample_net sample_snow sends connected data_frame remote true 5
      sample_entropy 5

-- The transport refuses the second frame.
abbrev two_frames : List EngineAction
two_frames =
    send_transport (98 ∷ []) remote data_frame
    ∷ send_transport (98 ∷ []) remote []
    ∷ send_transport (97 ∷ []) remote data_frame
    ∷ []

abbrev sends_some : Sending
sends_some [] endpoint = false
sends_some (byte ∷ frame) endpoint = true

send_actions-taken_example :
    ((entry
          (98 ∷ [])
          (send_actions sample_net sample_snow sends_some sample_engine two_frames).peers).tx_bytes
        % 2 ^ 64
      ≡ ((entry (98 ∷ []) sample_engine.peers).tx_bytes + taken sends_some (98 ∷ []) two_frames)
        % 2 ^ 64)
    × ((send_actions sample_net sample_snow sends_some sample_engine two_frames).sessions
        ≡ sample_engine.sessions)
    × ((send_actions sample_net sample_snow sends_some sample_engine two_frames).resolved_endpoints
        ≡ sample_engine.resolved_endpoints)
send_actions-taken_example =
    send_actions-taken sample_net sample_snow sends_some sample_engine (98 ∷ []) two_frames
