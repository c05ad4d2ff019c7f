-- ===== src/Tests/Ticks.antt =====
-- Ticks of a scheduler of two peers.
use hushwire.Common.{
  ℕ, ◌+◌, ◌≤◌, Bool, true, [], ◌∷◌, none, some, inl, refl, arith, length, replicate, bytes_eq,
  ℕ_discrete,
}
use hushwire.Common.Maps.{Text, get, insert, remove}
use hushwire.Replay
use hushwire.Config.{v4, udp, is_unspecified}
use hushwire.Noise.{from_secs, is_expired}
use hushwire.Noise.Handshake.{Entropy, initiator_start}
use hushwire.Sessions
use hushwire.Sessions.{has_active_session, has_pending_init, encrypt_for_peer}
use hushwire.Sessions.Exchange.{
  start_or_retry_handshake, start_handshake, clear_expired_candidate, clear_expired_session,
  begin_handshake,
}
use hushwire.Engine
use hushwire.Engine.{
  EngineOf, usable_peer_endpoint, find_peer, peer, configured_endpoint, learned_endpoint,
  resolve_endpoint, initiate_peer, initiate_then, initiate_handshake, create_keepalive,
  send_or_initiate,
}
use hushwire.Scheduler
use hushwire.Scheduler.{
  ScheduledOperation, RecoveryPolicy, ScheduledPeer, EngineScheduler, recovery_due,
  keepalive_should_send, note_attempt, push_engine_output,
}
use hushwire.Scheduler.Loops.{
  ProgressOf, due_recovery, recover_peer, tick, retry_handshakes, recover_one, push_call,
  send_keepalives, send_keepalive,
}
use hushwire.Scheduler.Timely.{Recovers}
use hushwire.Scheduler.Spacing.{none_yet, one_more, recoveries_spaced}
use hushwire.Scheduler.Recoveries.{tick_recovers_once}
use hushwire.Tests.Samples.{sample_net, sample_snow, sample_entropy, id_a}
use hushwire.Tests.Tables.{configs}
use hushwire.Tests.Calls.{sample_engine}

abbrev pub sample_scheduler : EngineScheduler
sample_scheduler = Scheduler.new {Net = ℕ × ℕ} (record {
  interface = record {
    name = [];
    address = (0, 24);
    listen = record { ip = v4 0; port = 0; flowinfo = 0; scope_id = 0 };
    transport = udp;
    mtu = 1280;
    private_key = replicate 32 9;
  };
  gateway = none;
  peer = configs;
})

abbrev pub draws : ScheduledOperation → Text → Entropy
draws operation = sample_entropy

abbrev pub rebinds : Text → ℕ → Bool
rebinds name silence = true

tick_recovers_once_example :
    length
      (tick sample_net sample_snow sample_scheduler sample_engine
        (from_secs 30)
        (from_secs 31)
        draws
        rebinds).tick.events
    ≤ 1
tick_recovers_once_example =
    tick_recovers_once sample_net sample_snow sample_scheduler sample_engine (from_secs 30)
      (from_secs 31) draws rebinds

abbrev sample_policy : RecoveryPolicy
sample_policy = record { timeout = from_secs 20; rebind_udp = true }

abbrev watched : ScheduledPeer
watched = record {
  name = 97 ∷ [];
  persistent_keepalive = from_secs 25;
  recovery = some sample_policy;
}

abbrev watching : EngineScheduler
watching = record {
  peers = watched ∷ [];
  last_sent = (97 ∷ [], 0) ∷ [];
  last_udp_rebind_attempt = none;
  last_session_recovery_attempt = [];
}

-- An engine whose session with the peer begins at the instant of its last packet.
abbrev live : ℕ → EngineOf sample_net sample_snow
live seen = record sample_engine {
  sessions = record sample_engine.sessions {
    sessions =
        (
          97 ∷ [],
          record {
            session_id = id_a;
            transport = tt;
            created_at = seen;
            send_counter = 0;
            received_messages = 0;
            replay = Replay.new;
          },
        )
        ∷ [];
  };
  peers =
      (
        97 ∷ [],
        record { last_seen = some seen; tx_bytes = 0; rx_bytes = 0; current_endpoint = none },
      )
      ∷ [];
}

abbrev tick_at : ℕ → ℕ → EngineScheduler → ProgressOf sample_net sample_snow
tick_at seen now scheduler = tick sample_net sample_snow scheduler (live seen) now now draws rebinds

abbrev recovered_once : EngineScheduler
recovered_once = (tick_at 0 (from_secs 30) watching).scheduler

abbrev ticked_again : EngineScheduler
ticked_again = (tick_at 0 (from_secs 35) recovered_once).scheduler

first_recovery : Recovers (tick_at 0 (from_secs 30) watching).tick.events (97 ∷ [])
unfolding tick retry_handshakes recover_one due_recovery recover_peer push_call push_engine_output
    note_attempt recovery_due has_pending_init has_active_session get insert remove bytes_eq
    ℕ_discrete is_expired Engine.invalidate_peer Sessions.invalidate_peer initiate_handshake
    initiate_then initiate_peer peer find_peer resolve_endpoint learned_endpoint configured_endpoint
    usable_peer_endpoint is_unspecified start_or_retry_handshake start_handshake
    clear_expired_candidate clear_expired_session begin_handshake initiator_start Sessions.new
    send_keepalives keepalive_should_send send_keepalive create_keepalive send_or_initiate
    encrypt_for_peer
first_recovery = inl refl

second_recovery :
    Recovers (tick_at (from_secs 35) (from_secs 60) ticked_again).tick.events (97 ∷ [])
unfolding tick retry_handshakes recover_one due_recovery recover_peer push_call push_engine_output
    note_attempt recovery_due has_pending_init has_active_session get insert remove bytes_eq
    ℕ_discrete is_expired Engine.invalidate_peer Sessions.invalidate_peer initiate_handshake
    initiate_then initiate_peer peer find_peer resolve_endpoint learned_endpoint configured_endpoint
    usable_peer_endpoint is_unspecified start_or_retry_handshake start_handshake
    clear_expired_candidate clear_expired_session begin_handshake initiator_start Sessions.new
    send_keepalives keepalive_should_send send_keepalive create_keepalive send_or_initiate
    encrypt_for_peer
second_recovery = inl refl

recoveries_spaced_example : from_secs 30 + from_secs 20 ≤ from_secs 60
recoveries_spaced_example =
    recoveries_spaced sample_net sample_snow (97 ∷ []) sample_policy watching (live 0)
      (from_secs 30) (from_secs 30) draws rebinds ticked_again (live (from_secs 35)) (from_secs 35)
      (from_secs 60) (from_secs 60) draws rebinds ((λ e. refl), tt) first_recovery
      (one_more (from_secs 30) (from_secs 30) recovered_once recovered_once
        (none_yet (from_secs 30) recovered_once) (live 0) (from_secs 35) (from_secs 35) draws
        rebinds (omega arith))
      (omega arith) second_recovery
