-- ===== src/Scheduler/Spacing.antt =====
-- src/scheduler.rs: how far the recoveries of a peer are apart, over the ticks of a scheduler.
use hushwire.Common.{ℕ, ◌+◌, ◌≤◌, Bool, false, ◌≡◌, refl, sym, ap, subst, ◌∙◌, arith}
use hushwire.Common.Maps.{Text}
use hushwire.Externals.{Ipnet, Snow}
use hushwire.Noise.Handshake.{Entropy}
use hushwire.Engine.{EngineOf}
use hushwire.Scheduler.{ScheduledOperation, RecoveryPolicy, EngineScheduler, no_tick}
use hushwire.Scheduler.Loops.{ProgressOf, retry_handshakes, recover_one, tick}
use hushwire.Scheduler.Recoveries.{retry_handshakes_events, send_keepalives_events}
use hushwire.Scheduler.Timely.{
  Recovers, HasPolicy, recover_one_peers, recover_one-Noted, recover_one-Timely,
}
use hushwire.Scheduler.Notes.{notes, Noted, retry_handshakes_scheduler, notes-send_keepalives}

module _ (net : Ipnet) (snow : Snow) where
  module _ (scheduler : EngineScheduler) (engine : EngineOf net snow) (now clock : ℕ)
      (entropy : ScheduledOperation → Text → Entropy) (rebind_udp : Text → ℕ → Bool) where
    abbrev ticked : ProgressOf net snow
    ticked = tick net snow scheduler engine now clock entropy rebind_udp

    abbrev retried : ProgressOf net snow
    retried =
        retry_handshakes net snow scheduler.peers now entropy
          (record { scheduler = scheduler; engine = engine; tick = no_tick; rebound = false })

    abbrev recovered : ProgressOf net snow
    recovered =
        recover_one net snow scheduler.peers retried.engine.peers now clock entropy rebind_udp
          retried

    retried_scheduler : retried.scheduler ≡ scheduler
    retried_scheduler = retry_handshakes_scheduler net snow scheduler.peers now entropy _

    notes-tick : notes ticked.scheduler ≡ notes recovered.scheduler
    unfolding tick
    notes-tick = notes-send_keepalives net snow scheduler.peers now clock entropy recovered

    tick_events : ticked.tick.events ≡ recovered.tick.events
    unfolding tick
    tick_events = send_keepalives_events net snow scheduler.peers now clock entropy recovered

    tick_peers : ticked.scheduler.peers ≡ scheduler.peers
    tick_peers =
        ap (λ n. n.0) notes-tick
        ∙ (recover_one_peers net snow scheduler.peers _ now clock entropy rebind_udp retried
            ∙ ap (λ s. s.peers) retried_scheduler)

    tick-Noted :
        (name : Text) (policy : RecoveryPolicy) (earlier : ℕ)
        → earlier ≤ now
        → Noted (notes scheduler) name policy earlier
        → Noted (notes ticked.scheduler) name policy earlier
    tick-Noted name policy earlier h noted =
        subst (λ n. Noted n name policy earlier) (sym notes-tick)
          (recover_one-Noted net snow scheduler.peers _ earlier now clock entropy rebind_udp retried
            name policy h
            (subst (λ s. Noted (notes s) name policy earlier) (sym retried_scheduler) noted))

    tick-Timely :
        (name : Text) (policy : RecoveryPolicy)
        → HasPolicy scheduler.peers name policy
        → Recovers ticked.tick.events name
        → Noted (notes ticked.scheduler) name policy now
          × ((earlier : ℕ)
              → Noted (notes scheduler) name policy earlier
              → earlier ≤ now
              → earlier + policy.timeout ≤ now)
    tick-Timely name policy has h =
        let (noted, time) =
          recover_one-Timely net snow scheduler.peers _ now clock entropy rebind_udp retried name
            policy (retry_handshakes_events net snow scheduler.peers now entropy _) has
            (subst (λ events. Recovers events name) tick_events h) in
        (
          subst (λ n. Noted n name policy now) (sym notes-tick) noted,
          subst
              (λ s.
                (earlier : ℕ)
                → Noted (notes s) name policy earlier
                → earlier ≤ now
                → earlier + policy.timeout ≤ now)
              retried_scheduler time,
        )

  -- Ticks one after the other, on whatever engines: the instant of the latest and the scheduler.
  pub data Ticks : ℕ → EngineScheduler → ℕ → EngineScheduler → Type 0 where
    none_yet : (now : ℕ) (scheduler : EngineScheduler) → Ticks now scheduler now scheduler
    one_more :
        (now latest : ℕ) (scheduler between : EngineScheduler)
        → Ticks now scheduler latest between
        → (engine : EngineOf net snow) (later clock : ℕ)
        → (entropy : ScheduledOperation → Text → Entropy) (rebind_udp : Text → ℕ → Bool)
        → latest ≤ later
        → Ticks now scheduler later
            (tick net snow between engine later clock entropy rebind_udp).scheduler

  Ticks-Noted :
      (now latest : ℕ) (scheduler between : EngineScheduler) (name : Text) (policy : RecoveryPolicy)
      → Ticks now scheduler latest between
      → Noted (notes scheduler) name policy now
      → (now ≤ latest) × (between.peers ≡ scheduler.peers) × Noted (notes between) name policy now
  Ticks-Noted _ _ _ _ name policy (none_yet now scheduler) noted = (omega arith, refl, noted)
  Ticks-Noted _ _ _ _ name policy
        (one_more now latest scheduler between ticks engine later clock entropy rebind_udp h)
        noted =
      let (order, peers, kept) = Ticks-Noted now latest scheduler between name policy ticks noted in
      (
        omega (arith, order, h),
        tick_peers between engine later clock entropy rebind_udp ∙ peers,
        tick-Noted between engine later clock entropy rebind_udp name policy now
            (omega (arith, order, h)) kept,
      )

  -- If a tick reports a recovery of a peer, and a later tick of the same scheduler reports one
  -- again, with any ticks at instants in order and any engines in between, then the second is at
  -- least the timeout of the policy later, if every peer of that name has the policy.
  pub recoveries_spaced :
      (name : Text) (policy : RecoveryPolicy) (scheduler : EngineScheduler)
      (engine : EngineOf net snow) (now clock : ℕ) (entropy : ScheduledOperation → Text → Entropy)
      (rebind_udp : Text → ℕ → Bool) (between : EngineScheduler) (engine' : EngineOf net snow)
      (latest later clock' : ℕ) (entropy' : ScheduledOperation → Text → Entropy)
      (rebind_udp' : Text → ℕ → Bool)
      → HasPolicy scheduler.peers name policy
      → Recovers (tick net snow scheduler engine now clock entropy rebind_udp).tick.events name
      → Ticks now
          (tick net snow scheduler engine now clock entropy rebind_udp).scheduler
          latest
          between
      → latest ≤ later
      → Recovers (tick net snow between engine' later clock' entropy' rebind_udp').tick.events name
      → now + policy.timeout ≤ later
  recoveries_spaced name policy scheduler engine now clock entropy rebind_udp between engine' latest
        later clock' entropy' rebind_udp' has first ticks h second =
      let first_peers = tick_peers scheduler engine now clock entropy rebind_udp in
      let (noted, unused) =
        tick-Timely scheduler engine now clock entropy rebind_udp name policy has first in
      let (order, peers, kept) = Ticks-Noted now latest _ between name policy ticks noted in
      let still = subst (λ ps. HasPolicy ps name policy) (sym (peers ∙ first_peers)) has in
      (tick-Timely between engine' later clock' entropy' rebind_udp' name policy still second).1 now
        kept (omega (arith, order, h))
