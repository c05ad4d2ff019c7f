-- ===== src/Tests/Calls.antt =====
-- Calls of an engine that is new.
use hushwire.Common.{
  ℕ, true, false, [], ◌∷◌, ◌++◌, some, ◌≡◌, refl, ok, All, Bytes, bytes_eq, ℕ_discrete, replicate,
  from_be_bytes,
}
use hushwire.Common.Maps.{get, insert, remove}
use hushwire.Packet
use hushwire.Packet.{Ipv4Packet, PacketError, parse}
use hushwire.Config.{
  v4, SocketAddr, is_unspecified, IpAddr-discrete, SocketAddr-discrete, decode_key,
}
use hushwire.Router.{most_specific_exclusion, admits, find_route, lookup}
use hushwire.Auth.{handshake_init, encode_handshake}
use hushwire.Noise.Handshake.{initiator_start}
use hushwire.Sessions
use hushwire.Sessions.{encrypt_for_peer, has_active_session, has_pending_init}
use hushwire.Sessions.Exchange.{
  start_or_retry_handshake, start_handshake, clear_expired_candidate, clear_expired_session,
  begin_handshake,
}
use hushwire.Sessions.Invariant.{IsWellFormed}
use hushwire.Engine.{
  EngineOf, send_transport, EngineOutput, usable_peer_endpoint, find_peer, peer,
  configured_endpoint, learned_endpoint, resolve_endpoint, update_resolved_endpoint, with_router,
  initiate_peer, initiate_then, send_or_initiate, process_outbound_ip,
}
use hushwire.Engine.Invariant.{outbound, start, call, Reachable-IsWellFormed}
use hushwire.Engine.Outbound.{IsSendTo, process_outbound_ip-IsSendTo}
use hushwire.Engine.Endpoints.{update_resolved_endpoint-resolve_endpoint}
use hushwire.Tests.Samples.{sample_net, sample_snow, sample_keys, sample_entropy, id_a}
use hushwire.Tests.Tables.{narrow_config, narrow_route, peer_of, sample_router}

abbrev pub sample_engine : EngineOf sample_net sample_snow
sample_engine = record {
  router = sample_router;
  local_static = replicate 32 9;
  sessions = Sessions.new;
  peers = [];
  resolved_endpoints = [];
}

pub sample_engine-new :
    with_router sample_net sample_snow sample_keys (replicate 32 9) sample_router ≡ ok sample_engine
unfolding with_router decode_key
sample_engine-new = refl

abbrev packet_to : ℕ → Bytes
packet_to host = 0x45 ∷ replicate 15 0 ++ 10 ∷ 0 ∷ 1 ∷ host ∷ []

abbrev pub routed : Bytes
routed = 0x45 ∷ replicate 15 0 ++ 10 ∷ 0 ∷ 0 ∷ 9 ∷ []

Reachable-IsWellFormed_example :
    IsWellFormed
      (process_outbound_ip sample_net sample_snow sample_engine routed 0 sample_entropy).0.sessions
Reachable-IsWellFormed_example = Reachable-IsWellFormed sample_net sample_snow (
    call sample_engine
      (process_outbound_ip sample_net sample_snow sample_engine routed 0 sample_entropy).0
      (start sample_engine sample_engine-new) (outbound sample_engine routed 0 sample_entropy))

abbrev first_output : EngineOutput
first_output = record {
  actions =
      send_transport (98 ∷ []) (record { ip = v4 1; port = 51; flowinfo = 0; scope_id = 0 })
        (encode_handshake handshake_init id_a [])
      ∷ [];
  events = [];
}

process_outbound_ip-IsSendTo_example : All (IsSendTo (98 ∷ [])) first_output.actions
unfolding process_outbound_ip send_or_initiate initiate_then initiate_peer resolve_endpoint
    learned_endpoint configured_endpoint usable_peer_endpoint is_unspecified encrypt_for_peer
    start_or_retry_handshake start_handshake clear_expired_candidate clear_expired_session
    begin_handshake initiator_start parse Packet.destination lookup find_route admits
    most_specific_exclusion get insert remove bytes_eq ℕ_discrete Sessions.new from_be_bytes
process_outbound_ip-IsSendTo_example =
    process_outbound_ip-IsSendTo sample_net sample_snow sample_engine routed 0 sample_entropy
      (record { bytes = routed }) narrow_route first_output refl refl refl

abbrev new_endpoint : SocketAddr
new_endpoint = record { ip = v4 77; port = 51; flowinfo = 0; scope_id = 0 }

abbrev updated_engine : EngineOf sample_net sample_snow
updated_engine = (update_resolved_endpoint sample_engine (98 ∷ []) new_endpoint).0

sample_update :
    update_resolved_endpoint sample_engine (98 ∷ []) new_endpoint ≡ (updated_engine, ok true)
unfolding update_resolved_endpoint usable_peer_endpoint is_unspecified peer find_peer
    configured_endpoint get bytes_eq ℕ_discrete IpAddr-discrete SocketAddr-discrete
sample_update = refl

update_resolved_endpoint-resolve_endpoint_example :
    (resolve_endpoint updated_engine (peer_of narrow_config) ≡ some new_endpoint)
    × (has_active_session updated_engine.sessions (98 ∷ []) 0 ≡ false)
    × (has_pending_init updated_engine.sessions (98 ∷ []) ≡ false)
unfolding peer find_peer bytes_eq ℕ_discrete
update_resolved_endpoint-resolve_endpoint_example =
    update_resolved_endpoint-resolve_endpoint sample_engine updated_engine (98 ∷ []) new_endpoint
      (peer_of narrow_config) 0 sample_update refl
