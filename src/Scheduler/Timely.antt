-- ===== src/Scheduler/Timely.antt =====
-- src/scheduler.rs: what a recovery that the second loop of a tick makes tells of the time.
use hushwire.Common.{
  ℕ, ◌+◌, ◌-◌, ◌≤◌, Bool, ◌&&◌, List, [], ◌∷◌, ◌++◌, All, some, ◌≡◌, ◌⊎◌, inl, inr, refl, sym,
  subst, ◌∙◌, arith, Option-cases,
}
use hushwire.Common.Maps.{Text, Map}
use hushwire.Externals.{Ipnet, Snow}
use hushwire.Noise.Handshake.{Entropy}
use hushwire.Peers.{PeerStats}
use hushwire.Engine
use hushwire.Engine.{EngineOf, initiate_handshake}
use hushwire.Scheduler.{
  ScheduledOperation, session_recovery, SchedulerEvent, RecoveryPolicy, ScheduledPeer,
  EngineScheduler, note_attempt,
}
use hushwire.Scheduler.Loops.{ProgressOf, push_call, due_recovery, recover_peer, recover_one}
use hushwire.Scheduler.Recoveries.{push_call_events}
use hushwire.Scheduler.Notes.{
  notes, Noted, note_attempt-Noted, Noted-note_attempt, note_attempt_peers, due_recovery_cases,
  recovery_due_spaced,
}

-- An event for the peer.
abbrev pub Recovers : List SchedulerEvent → Text → Type 0
Recovers [] name = ⊥
Recovers (event ∷ events) name = (event.peer_name ≡ name) ⊎ Recovers events name

Recovers-nothing :
    (name : Text) (events : List SchedulerEvent) → events ≡ [] → Recovers events name → ⊥
Recovers-nothing name events e h = subst (λ events. Recovers events name) e h

Recovers-one :
    (name : Text) (before : List SchedulerEvent) (event : SchedulerEvent)
    → before ≡ []
    → Recovers (before ++ event ∷ []) name
    → event.peer_name ≡ name
Recovers-one name before event e h =
    elim (subst (λ events. Recovers (events ++ event ∷ []) name) e h) [
      | inl k ↦ k
      | inr k ↦ absurd k
    ]

-- Every peer of the name has the policy.
abbrev pub HasPolicy : List ScheduledPeer → Text → RecoveryPolicy → Type 0
HasPolicy peers name policy = All (λ peer. peer.name ≡ name → peer.recovery ≡ some policy) peers

module _ (net : Ipnet) (snow : Snow) where
  recover_peer_scheduler :
      (p : ProgressOf net snow) (name : Text) (policy : RecoveryPolicy) (last_seen now : ℕ)
      (entropy : ScheduledOperation → Text → Entropy) (rebind_udp : Text → ℕ → Bool)
      → (recover_peer net snow p name policy last_seen now entropy rebind_udp).scheduler
        ≡ note_attempt p.scheduler name policy now
  unfolding recover_peer push_call
  recover_peer_scheduler p name policy last_seen now entropy rebind_udp = refl

  recover_peer-Recovers :
      (p : ProgressOf net snow) (name other : Text) (policy : RecoveryPolicy) (last_seen now : ℕ)
      (entropy : ScheduledOperation → Text → Entropy) (rebind_udp : Text → ℕ → Bool)
      → p.tick.events ≡ []
      → Recovers
          (recover_peer net snow p name policy last_seen now entropy rebind_udp).tick.events
          other
      → name ≡ other
  unfolding recover_peer
  recover_peer-Recovers p name other policy last_seen now entropy rebind_udp e h =
      let same =
        push_call_events net snow
          (record p {
            scheduler = note_attempt p.scheduler name policy now;
            engine = (Engine.invalidate_peer p.engine name).0;
            rebound = policy.rebind_udp && rebind_udp name (now - last_seen);
          })
          name session_recovery
          (initiate_handshake net snow (Engine.invalidate_peer p.engine name).0 name now
            (entropy session_recovery)) in
      Recovers-one other _ _ (same ∙ e) h

  pub recover_one_peers :
      (peers : List ScheduledPeer) (snapshot : Map PeerStats) (now clock : ℕ)
      (entropy : ScheduledOperation → Text → Entropy) (rebind_udp : Text → ℕ → Bool)
      (p : ProgressOf net snow)
      → (recover_one net snow peers snapshot now clock entropy rebind_udp p).scheduler.peers
        ≡ p.scheduler.peers
  unfolding recover_one
  recover_one_peers [] snapshot now clock entropy rebind_udp p = refl
  recover_one_peers (peer ∷ peers) snapshot now clock entropy rebind_udp p =
      elim (Option-cases (due_recovery net snow p.scheduler p.engine snapshot now clock peer)) [
        | inr ((policy, last_seen), e) ↦
            rw (e, recover_one)
              (rw (recover_peer_scheduler p peer.name policy last_seen now entropy rebind_udp)
                (note_attempt_peers p.scheduler peer.name policy now))
        | inl e ↦
            rw (e, recover_one) (recover_one_peers peers snapshot now clock entropy rebind_udp p)
      ]

  pub recover_one-Noted :
      (peers : List ScheduledPeer) (snapshot : Map PeerStats) (now later clock : ℕ)
      (entropy : ScheduledOperation → Text → Entropy) (rebind_udp : Text → ℕ → Bool)
      (p : ProgressOf net snow) (name : Text) (policy : RecoveryPolicy)
      → now ≤ later
      → Noted (notes p.scheduler) name policy now
      → Noted
          (notes (recover_one net snow peers snapshot later clock entropy rebind_udp p).scheduler)
          name
          policy
          now
  unfolding recover_one
  recover_one-Noted [] snapshot now later clock entropy rebind_udp p name policy h noted = noted
  recover_one-Noted (peer ∷ peers) snapshot now later clock entropy rebind_udp p name policy h
        noted =
      elim (Option-cases (due_recovery net snow p.scheduler p.engine snapshot later clock peer)) [
        | inr ((its, last_seen), e) ↦
            rw (e, recover_one)
              (rw (recover_peer_scheduler p peer.name its last_seen later entropy rebind_udp)
                (Noted-note_attempt p.scheduler name peer.name its policy now later h noted))
        | inl e ↦
            rw (e, recover_one)
              (recover_one-Noted peers snapshot now later clock entropy rebind_udp p name policy h
                noted)
      ]

  -- What a recovery of the peer tells: the attempt is noted, and it is not too early for it.
  abbrev pub Timely : EngineScheduler → EngineScheduler → Text → RecoveryPolicy → ℕ → Type 0
  Timely before after name policy now =
      Noted (notes after) name policy now
      × ((earlier : ℕ)
          → Noted (notes before) name policy earlier
          → earlier ≤ now
          → earlier + policy.timeout ≤ now)

  recover_peer-Timely :
      (p : ProgressOf net snow) (peer : ScheduledPeer) (snapshot : Map PeerStats) (now clock : ℕ)
      (entropy : ScheduledOperation → Text → Entropy) (rebind_udp : Text → ℕ → Bool)
      (policy its : RecoveryPolicy) (last_seen : ℕ)
      → peer.recovery ≡ some policy
      → due_recovery net snow p.scheduler p.engine snapshot now clock peer ≡ some (its, last_seen)
      → Timely p.scheduler
          (recover_peer net snow p peer.name its last_seen now entropy rebind_udp).scheduler
          peer.name
          policy
          now
  recover_peer-Timely p peer snapshot now clock entropy rebind_udp policy its last_seen e due =
      elim (due_recovery_cases net snow p.scheduler p.engine snapshot now clock peer policy e) [
        | inl k ↦ absurd (ground arith)
        | inr (seen, k, time) ↦
            let same : its ≡ policy = ground arith in
            (
              subst (λ s. Noted (notes s) peer.name policy now)
                  (sym (recover_peer_scheduler p peer.name its last_seen now entropy rebind_udp))
                  (subst
                    (λ its.
                      Noted (notes (note_attempt p.scheduler peer.name its now)) peer.name policy
                        now)
                    (sym same) (note_attempt-Noted p.scheduler peer.name policy now)),
              λ earlier noted h. recovery_due_spaced earlier now seen policy.timeout _ noted h time,
            )
      ]

  pub recover_one-Timely :
      (peers : List ScheduledPeer) (snapshot : Map PeerStats) (now clock : ℕ)
      (entropy : ScheduledOperation → Text → Entropy) (rebind_udp : Text → ℕ → Bool)
      (p : ProgressOf net snow) (name : Text) (policy : RecoveryPolicy)
      → p.tick.events ≡ []
      → HasPolicy peers name policy
      → Recovers
          (recover_one net snow peers snapshot now clock entropy rebind_udp p).tick.events
          name
      → Timely p.scheduler
          (recover_one net snow peers snapshot now clock entropy rebind_udp p).scheduler
          name
          policy
          now
  unfolding recover_one
  recover_one-Timely [] snapshot now clock entropy rebind_udp p name policy e has h =
      absurd (Recovers-nothing name _ e h)
  recover_one-Timely (peer ∷ peers) snapshot now clock entropy rebind_udp p name policy e has h =
      let after = recover_one net snow (peer ∷ peers) snapshot now clock entropy rebind_udp p in
      elim (Option-cases (due_recovery net snow p.scheduler p.engine snapshot now clock peer)) [
        | inr ((its, seen), due) ↦
            let recovered = recover_peer net snow p peer.name its seen now entropy rebind_udp in
            let same : after ≡ recovered = rw (due, recover_one) refl in
            let named =
              recover_peer-Recovers p peer.name name its seen now entropy rebind_udp e
                (subst (λ q. Recovers q.tick.events name) same h) in
            subst (λ q. Timely p.scheduler q.scheduler name policy now) (sym same)
              (subst (λ n. Timely p.scheduler recovered.scheduler n policy now) named
                (recover_peer-Timely p peer snapshot now clock entropy rebind_udp policy its seen
                  (has.0 named) due))
        | inl due ↦
            let rest = recover_one net snow peers snapshot now clock entropy rebind_udp p in
            let same : after ≡ rest = rw (due, recover_one) refl in
            subst (λ q. Timely p.scheduler q.scheduler name policy now) (sym same)
              (recover_one-Timely peers snapshot now clock entropy rebind_udp p name policy e has.1
                (subst (λ q. Recovers q.tick.events name) same h))
      ]
