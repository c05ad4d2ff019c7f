-- ===== src/Scheduler/Recoveries.antt =====
-- How many recoveries one tick reports.
use hushwire.Common.{
  ℕ, ◌+◌, ◌-◌, ◌≤◌, Bool, false, not, ◌&&◌, ◌||◌, List, [], ◌∷◌, ◌≡◌, inl, inr, refl, ◌∙◌, arith,
  if◌then◌else◌, ◌==◌, Result, ok, err, length, length-append, is_some, Bool-cases, Option-cases,
}
use hushwire.Common.Maps.{Text, Map, get, contains_key}
use hushwire.Externals.{Ipnet, Snow}
use hushwire.Auth.{keepalive_probe_payload}
use hushwire.Noise.Handshake.{Entropy}
use hushwire.Peers.{PeerStats}
use hushwire.Sessions
use hushwire.Engine
use hushwire.Engine.{EngineOf, EngineOutput, EngineError, initiate_handshake, create_keepalive}
use hushwire.Scheduler.{
  ScheduledOperation, handshake_retry, session_recovery, keepalive_send, SchedulerTick,
  RecoveryPolicy, ScheduledPeer, EngineScheduler, keepalive_should_send, push_engine_output,
  note_attempt, no_tick,
}
use hushwire.Scheduler.Loops.{
  ProgressOf, push_call, retry_handshakes, due_recovery, recover_peer, recover_one, skip_keepalive,
  send_keepalive, send_keepalives, tick,
}

push_engine_output_events :
    {Net : Type 0} (t : SchedulerTick Net) (name : Text) (operation : ScheduledOperation)
    (r : Result (EngineError Net) EngineOutput)
    → (push_engine_output t name operation r).events ≡ t.events
unfolding push_engine_output
push_engine_output_events t name operation (ok output) = refl
push_engine_output_events t name operation (err error) = refl

module _ (net : Ipnet) (snow : Snow) where
  pub push_call_events :
      (p : ProgressOf net snow) (name : Text) (operation : ScheduledOperation)
      (called : EngineOf net snow × Result (EngineError net.Net) EngineOutput)
      → (push_call net snow p name operation called).tick.events ≡ p.tick.events
  unfolding push_call
  push_call_events p name operation (engine, r) = push_engine_output_events p.tick name operation r

  pub retry_handshakes_events :
      (peers : List ScheduledPeer) (now : ℕ) (entropy : ScheduledOperation → Text → Entropy)
      (p : ProgressOf net snow)
      → (retry_handshakes net snow peers now entropy p).tick.events ≡ p.tick.events
  unfolding retry_handshakes
  retry_handshakes_events [] now entropy p = refl
  retry_handshakes_events (peer ∷ peers) now entropy p =
      elim (Bool-cases (Sessions.has_pending_init p.engine.sessions peer.name)) [
        | inl e ↦
            rw (e, retry_handshakes)
              (retry_handshakes_events peers now entropy _
                ∙ push_call_events p peer.name handshake_retry
                    (initiate_handshake net snow p.engine peer.name now (entropy handshake_retry)))
        | inr e ↦ rw (e, retry_handshakes) (retry_handshakes_events peers now entropy p)
      ]

  recover_peer_events :
      (p : ProgressOf net snow) (name : Text) (policy : RecoveryPolicy) (last_seen now : ℕ)
      (entropy : ScheduledOperation → Text → Entropy) (rebind_udp : Text → ℕ → Bool)
      → length (recover_peer net snow p name policy last_seen now entropy rebind_udp).tick.events
        ≡ length p.tick.events + 1
  unfolding recover_peer
  recover_peer_events p name policy last_seen now entropy rebind_udp =
      rw
        (
          push_call_events
              (record p {
                scheduler = note_attempt p.scheduler name policy now;
                engine = (Engine.invalidate_peer p.engine name).0;
                rebound = policy.rebind_udp && rebind_udp name (now - last_seen);
              })
              name session_recovery
              (initiate_handshake net snow (Engine.invalidate_peer p.engine name).0 name now
                (entropy session_recovery)),
          length-append p.tick.events,
        )
        refl

  recover_one_events :
      (peers : List ScheduledPeer) (snapshot : Map PeerStats) (now clock : ℕ)
      (entropy : ScheduledOperation → Text → Entropy) (rebind_udp : Text → ℕ → Bool)
      (p : ProgressOf net snow)
      → length (recover_one net snow peers snapshot now clock entropy rebind_udp p).tick.events
        ≤ length p.tick.events + 1
  unfolding recover_one
  recover_one_events [] snapshot now clock entropy rebind_udp p = omega arith
  recover_one_events (peer ∷ peers) snapshot now clock entropy rebind_udp p =
      elim (Option-cases (due_recovery net snow p.scheduler p.engine snapshot now clock peer)) [
        | inr ((policy, last_seen), e) ↦
            rw (e, recover_one)
              (omega
                (arith, recover_peer_events p peer.name policy last_seen now entropy rebind_udp))
        | inl e ↦
            rw (e, recover_one) (recover_one_events peers snapshot now clock entropy rebind_udp p)
      ]

  send_keepalive_events :
      (p : ProgressOf net snow) (peer : ScheduledPeer) (now clock : ℕ)
      (entropy : ScheduledOperation → Text → Entropy)
      → (send_keepalive net snow p peer now clock entropy).tick.events ≡ p.tick.events
  unfolding send_keepalive
  send_keepalive_events p peer now clock entropy =
      let payload = if is_some peer.recovery then keepalive_probe_payload else [] in
      let same =
        push_call_events p peer.name keepalive_send
          (create_keepalive net snow p.engine peer.name payload now (entropy keepalive_send)) in
      elim (Bool-cases (
        Sessions.has_active_session p.engine.sessions peer.name clock
        || not (is_some peer.recovery))) [
          | inl e ↦ rw (e, send_keepalive) same
          | inr e ↦ rw (e, send_keepalive) same
        ]

  skip_keepalive_events :
      (p : ProgressOf net snow) (peer : ScheduledPeer) (now : ℕ)
      → (skip_keepalive net snow p peer now).tick.events ≡ p.tick.events
  unfolding skip_keepalive
  skip_keepalive_events p peer now =
      elim (Bool-cases (
        not (peer.persistent_keepalive == 0)
        && not (contains_key peer.name p.scheduler.last_sent))) [
          | inl e ↦ rw (e, skip_keepalive) refl
          | inr e ↦ rw (e, skip_keepalive) refl
        ]

  pub send_keepalives_events :
      (peers : List ScheduledPeer) (now clock : ℕ) (entropy : ScheduledOperation → Text → Entropy)
      (p : ProgressOf net snow)
      → (send_keepalives net snow peers now clock entropy p).tick.events ≡ p.tick.events
  unfolding send_keepalives
  send_keepalives_events [] now clock entropy p = refl
  send_keepalives_events (peer ∷ peers) now clock entropy p =
      elim (Bool-cases (
        keepalive_should_send now (get peer.name p.scheduler.last_sent) peer.persistent_keepalive
          (is_some peer.recovery) p.rebound)) [
            | inl e ↦
                rw (e, send_keepalives)
                  (send_keepalives_events peers now clock entropy _
                    ∙ send_keepalive_events p peer now clock entropy)
            | inr e ↦
                rw (e, send_keepalives)
                  (send_keepalives_events peers now clock entropy _
                    ∙ skip_keepalive_events p peer now)
          ]

  -- A tick reports at most one recovery.
  pub tick_recovers_once :
      (scheduler : EngineScheduler) (engine : EngineOf net snow) (now clock : ℕ)
      (entropy : ScheduledOperation → Text → Entropy) (rebind_udp : Text → ℕ → Bool)
      → length (tick net snow scheduler engine now clock entropy rebind_udp).tick.events ≤ 1
  unfolding tick
  tick_recovers_once scheduler engine now clock entropy rebind_udp =
      let begun : ProgressOf net snow = record {
        scheduler = scheduler;
        engine = engine;
        tick = no_tick;
        rebound = false;
      } in
      let retried = retry_handshakes net snow scheduler.peers now entropy begun in
      let recovered =
        recover_one net snow scheduler.peers retried.engine.peers now clock entropy rebind_udp
          retried in
      let none_yet : length retried.tick.events ≡ 0 =
        rw (retry_handshakes_events scheduler.peers now entropy begun) refl in
      rw (send_keepalives_events scheduler.peers now clock entropy recovered) (
        omega (
          arith,
          none_yet,
          recover_one_events scheduler.peers retried.engine.peers now clock entropy rebind_udp
              retried,
        ))
