-- ===== src/Scheduler/Loops.antt =====
-- src/scheduler.rs, `EngineScheduler::tick`. `clock` is the instant that the engine reads itself,
-- `entropy` the randomness of the handshakes of each phase, and `rebind_udp` the caller's switch of
-- sockets, which one tick calls at most once.
use hushwire.Common.{
  ℕ, ◌-◌, Bool, false, not, ◌&&◌, ◌||◌, List, [], ◌∷◌, ◌++◌, Option, none, some, ◌==◌,
  if◌then◌else◌, Result, is_some,
}
use hushwire.Common.Maps.{Text, Map, get, insert, contains_key}
use hushwire.Externals.{Ipnet, Snow}
use hushwire.Auth.{keepalive_probe_payload}
use hushwire.Noise.Handshake.{Entropy}
use hushwire.Peers.{PeerStats}
use hushwire.Sessions
use hushwire.Engine
use hushwire.Engine.{
  Engine, EngineOf, EngineOutput, EngineError, initiate_handshake, create_keepalive,
}
use hushwire.Scheduler.{
  ScheduledOperation, handshake_retry, session_recovery, keepalive_send, SchedulerTick, no_tick,
  RecoveryPolicy, ScheduledPeer, EngineScheduler, recovery_due, keepalive_should_send,
  push_engine_output, note_attempt,
}

-- What a tick has reached: its own state, the engine and what it reports.
pub record Progress (Net T H : Type 0) : Type 0 where
  pub scheduler : EngineScheduler
  pub engine : Engine Net T H
  pub tick : SchedulerTick Net
  pub rebound : Bool

module _ (net : Ipnet) (snow : Snow) where
  abbrev pub ProgressOf : Type 0
  ProgressOf = Progress net.Net snow.Transport snow.Handshake

  -- An engine call whose outcome is pushed.
  unfoldable pub push_call :
      ProgressOf
      → Text
      → ScheduledOperation
      → EngineOf net snow × Result (EngineError net.Net) EngineOutput
      → ProgressOf
  push_call p peer_name operation (engine, result) = record p {
    engine = engine;
    tick = push_engine_output p.tick peer_name operation result;
  }

  -- The first loop of `tick`.
  unfoldable pub retry_handshakes :
      List ScheduledPeer → ℕ → (ScheduledOperation → Text → Entropy) → ProgressOf → ProgressOf
  retry_handshakes [] now entropy p = p
  retry_handshakes (peer ∷ peers) now entropy p =
      let called =
        push_call p peer.name handshake_retry
          (initiate_handshake net snow p.engine peer.name now (entropy handshake_retry)) in
      retry_handshakes peers now entropy
        (if not (Sessions.has_pending_init p.engine.sessions peer.name) then p else called)

  -- The guards of the second loop: the policy and the last sign of life, when recovery is due.
  unfoldable pub due_recovery :
      EngineScheduler
      → EngineOf net snow
      → Map PeerStats
      → ℕ
      → ℕ
      → ScheduledPeer
      → Option (RecoveryPolicy × ℕ)
  due_recovery scheduler engine snapshot now clock peer = elim peer.recovery [
    | none ↦ none
    | some policy ↦
        if not (contains_key peer.name scheduler.last_sent)
          || not (Sessions.has_active_session engine.sessions peer.name clock)
        then none
        else elim (get peer.name snapshot) [
          | none ↦ none
          | some stats ↦ elim stats.last_seen [
            | none ↦ none
            | some last_seen ↦
                let last_attempt =
                  if policy.rebind_udp
                  then scheduler.last_udp_rebind_attempt
                  else get peer.name scheduler.last_session_recovery_attempt in
                if recovery_due now last_seen last_attempt policy.timeout
                then some (policy, last_seen)
                else none
          ]
        ]
  ]

  -- The recovery of one peer, from the rebinding to the `break`.
  unfoldable pub recover_peer :
      ProgressOf
      → Text
      → RecoveryPolicy
      → ℕ
      → ℕ
      → (ScheduledOperation → Text → Entropy)
      → (Text → ℕ → Bool)
      → ProgressOf
  recover_peer p peer_name policy last_seen now entropy rebind_udp =
      let silence = now - last_seen in
      let succeeded = policy.rebind_udp && rebind_udp peer_name silence in
      let (engine, had_stale_state) = Engine.invalidate_peer p.engine peer_name in
      let called =
        push_call
          (record p {
            scheduler = note_attempt p.scheduler peer_name policy now;
            engine = engine;
            rebound = succeeded;
          })
          peer_name session_recovery
          (initiate_handshake net snow engine peer_name now (entropy session_recovery)) in
      record called {
        tick = record called.tick {
          events =
              called.tick.events
              ++ record {
                peer_name = peer_name;
                silence = silence;
                rebind_udp = policy.rebind_udp;
                rebind_succeeded = succeeded;
                had_stale_state = had_stale_state;
              }
                ∷ [];
        };
      }

  -- The second loop of `tick`, which stops at the first recovery.
  unfoldable pub recover_one :
      List ScheduledPeer
      → Map PeerStats
      → ℕ
      → ℕ
      → (ScheduledOperation → Text → Entropy)
      → (Text → ℕ → Bool)
      → ProgressOf
      → ProgressOf
  recover_one [] snapshot now clock entropy rebind_udp p = p
  recover_one (peer ∷ peers) snapshot now clock entropy rebind_udp p =
      elim (due_recovery p.scheduler p.engine snapshot now clock peer) [
        | some (policy, last_seen) ↦
            recover_peer p peer.name policy last_seen now entropy rebind_udp
        | none ↦ recover_one peers snapshot now clock entropy rebind_udp p
      ]

  -- A peer that gets no keepalive; its first tick starts the interval.
  unfoldable pub skip_keepalive : ProgressOf → ScheduledPeer → ℕ → ProgressOf
  skip_keepalive p peer now =
      if not (peer.persistent_keepalive == 0) && not (contains_key peer.name p.scheduler.last_sent)
      then (record p {
        scheduler = record p.scheduler { last_sent = insert peer.name now p.scheduler.last_sent };
      })
      else p

  unfoldable pub send_keepalive :
      ProgressOf → ScheduledPeer → ℕ → ℕ → (ScheduledOperation → Text → Entropy) → ProgressOf
  send_keepalive p peer now clock entropy =
      let recovery_enabled = is_some peer.recovery in
      let had_active_session = Sessions.has_active_session p.engine.sessions peer.name clock in
      let payload = if recovery_enabled then keepalive_probe_payload else [] in
      let called =
        push_call p peer.name keepalive_send
          (create_keepalive net snow p.engine peer.name payload now (entropy keepalive_send)) in
      if had_active_session || not recovery_enabled
      then (record called {
        scheduler = record called.scheduler {
          last_sent = insert peer.name now called.scheduler.last_sent;
        };
      })
      else called

  -- The third loop of `tick`.
  unfoldable pub send_keepalives :
      List ScheduledPeer → ℕ → ℕ → (ScheduledOperation → Text → Entropy) → ProgressOf → ProgressOf
  send_keepalives [] now clock entropy p = p
  send_keepalives (peer ∷ peers) now clock entropy p =
      let should_send =
        keepalive_should_send now (get peer.name p.scheduler.last_sent) peer.persistent_keepalive
          (is_some peer.recovery) p.rebound in
      send_keepalives peers now clock entropy
        (if should_send then send_keepalive p peer now clock entropy else skip_keepalive p peer now)

  unfoldable pub tick :
      EngineScheduler
      → EngineOf net snow
      → ℕ
      → ℕ
      → (ScheduledOperation → Text → Entropy)
      → (Text → ℕ → Bool)
      → ProgressOf
  tick scheduler engine now clock entropy rebind_udp =
      let begun : ProgressOf = record {
        scheduler = scheduler;
        engine = engine;
        tick = no_tick;
        rebound = false;
      } in
      let retried = retry_handshakes scheduler.peers now entropy begun in
      let recovered =
        recover_one scheduler.peers retried.engine.peers now clock entropy rebind_udp retried in
      send_keepalives scheduler.peers now clock entropy recovered
