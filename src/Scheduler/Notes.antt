-- ===== src/Scheduler/Notes.antt =====
-- src/scheduler.rs: the attempts that a scheduler notes, over the loops of a tick.
use hushwire.Common.{
  ℕ, ◌+◌, ◌≤◌, true, not, ◌&&◌, ◌||◌, List, [], ◌∷◌, Option, none, some, ◌==◌, ◌≡◌, ◌⊎◌, inl, inr,
  refl, subst, ◌∙◌, arith, Result, if◌then◌else◌, ite, is_some, Bool-cases, Option-cases,
}
use hushwire.Common.Maps.{Text, Map, get, insert, contains_key, text_eq}
use hushwire.Common.Maps.Laws.{get-insert}
use hushwire.Externals.{Ipnet, Snow}
use hushwire.Noise.Handshake.{Entropy}
use hushwire.Peers.{PeerStats}
use hushwire.Sessions
use hushwire.Engine.{EngineOf, EngineOutput, EngineError, initiate_handshake}
use hushwire.Scheduler.{
  ScheduledOperation, handshake_retry, RecoveryPolicy, ScheduledPeer, EngineScheduler, recovery_due,
  keepalive_should_send, note_attempt,
}
use hushwire.Scheduler.Loops.{
  ProgressOf, push_call, retry_handshakes, due_recovery, skip_keepalive, send_keepalive,
  send_keepalives,
}

-- What a tick keeps of a scheduler but for the note of an attempt.
abbrev pub Notes : Type 0
Notes = List ScheduledPeer × (Option ℕ × Map ℕ)

abbrev pub notes : EngineScheduler → Notes
notes scheduler =
    (scheduler.peers, (scheduler.last_udp_rebind_attempt, scheduler.last_session_recovery_attempt))

-- The attempt that counts for the peer.
abbrev pub last_attempt : Notes → Text → RecoveryPolicy → Option ℕ
last_attempt (peers, (rebind, sessions)) name policy =
    if policy.rebind_udp then rebind else get name sessions

-- It is at `now` or later.
abbrev pub Noted : Notes → Text → RecoveryPolicy → ℕ → Type 0
Noted n name policy now =
    (attempt : ℕ) × (last_attempt n name policy ≡ some attempt) × (now ≤ attempt)

pub note_attempt-Noted :
    (scheduler : EngineScheduler) (name : Text) (policy : RecoveryPolicy) (now : ℕ)
    → Noted (notes (note_attempt scheduler name policy now)) name policy now
unfolding note_attempt
note_attempt-Noted scheduler name policy now = elim (Bool-cases policy.rebind_udp) [
  | inl e ↦ (now, rw (e, note_attempt) refl, omega arith)
  | inr e ↦ (
    now,
    rw (e, note_attempt)
        (ground (arith, get-insert name name now scheduler.last_session_recovery_attempt)),
    omega arith,
  )
]

-- A later attempt, for whatever peer, keeps the note.
pub Noted-note_attempt :
    (scheduler : EngineScheduler) (name other : Text) (policy kept : RecoveryPolicy) (now later : ℕ)
    → now ≤ later
    → Noted (notes scheduler) name kept now
    → Noted (notes (note_attempt scheduler other policy later)) name kept now
unfolding note_attempt
Noted-note_attempt scheduler name other policy kept now later h (attempt, noted, after) =
    let sessions = scheduler.last_session_recovery_attempt in
    elim (Bool-cases policy.rebind_udp) [
      | inl e ↦ elim (Bool-cases kept.rebind_udp) [
        | inl f ↦ (later, rw (e, f, note_attempt) refl, h)
        | inr f ↦ (
          attempt,
          rw (e, f, note_attempt)
              (subst
                (λ b.
                  (if b then scheduler.last_udp_rebind_attempt else get name sessions)
                  ≡ some attempt)
                f noted),
          after,
        )
      ]
      | inr e ↦ elim (Bool-cases kept.rebind_udp) [
        | inl f ↦ (
          attempt,
          rw (e, f, note_attempt)
              (subst
                (λ b.
                  (if b then scheduler.last_udp_rebind_attempt else get name sessions)
                  ≡ some attempt)
                f noted),
          after,
        )
        | inr f ↦
            let before =
              subst
                (λ b.
                  (if b then scheduler.last_udp_rebind_attempt else get name sessions)
                  ≡ some attempt)
                f noted in
            let inserted = get-insert other name later sessions in
            elim (text_eq other name)
                as (λ d.
                  (get name (insert other later sessions) ≡ ite d (some later) (get name sessions))
                  → Noted (notes (note_attempt scheduler other policy later)) name kept now) [
                    | yes same ↦ λ k. (later, rw (e, f, note_attempt) k, h)
                    | no n ↦ λ k. (attempt, rw (e, f, note_attempt) (k ∙ before), after)
                  ]
              inserted
      ]
    ]

pub note_attempt_peers :
    (scheduler : EngineScheduler) (name : Text) (policy : RecoveryPolicy) (now : ℕ)
    → (note_attempt scheduler name policy now).peers ≡ scheduler.peers
unfolding note_attempt
note_attempt_peers scheduler name policy now = elim (Bool-cases policy.rebind_udp) [
  | inl e ↦ rw (e, note_attempt) refl
  | inr e ↦ rw (e, note_attempt) refl
]

-- A recovery that is due is one by the policy of the peer, and the time for it has come.
pub due_recovery_cases :
    (net : Ipnet) (snow : Snow) (scheduler : EngineScheduler) (engine : EngineOf net snow)
    (snapshot : Map PeerStats) (now clock : ℕ) (peer : ScheduledPeer) (policy : RecoveryPolicy)
    → peer.recovery ≡ some policy
    → (due_recovery net snow scheduler engine snapshot now clock peer ≡ none)
      ⊎ ((seen : ℕ) × (due_recovery net snow scheduler engine snapshot now clock peer
            ≡ some (policy, seen))
          × (recovery_due now seen (last_attempt (notes scheduler) peer.name policy) policy.timeout
              ≡ true))
unfolding due_recovery
due_recovery_cases net snow scheduler engine snapshot now clock peer policy e =
    elim (Bool-cases (
      not (contains_key peer.name scheduler.last_sent)
      || not (Sessions.has_active_session engine.sessions peer.name clock))) [
        | inl quiet ↦ inl (rw (e, due_recovery, quiet) refl)
        | inr f ↦ elim (Option-cases (get peer.name snapshot)) [
          | inl g ↦ inl (rw (e, due_recovery, f, g) refl)
          | inr (stats, g) ↦ elim (Option-cases stats.last_seen) [
            | inl k ↦ inl (rw (e, due_recovery, f, g, k) refl)
            | inr (seen, k) ↦
                elim (Bool-cases (
                  recovery_due now seen (last_attempt (notes scheduler) peer.name policy)
                    policy.timeout)) [
                      | inl d ↦ inr (seen, rw (e, due_recovery, f, g, k, d) refl, d)
                      | inr d ↦ inl (rw (e, due_recovery, f, g, k, d) refl)
                    ]
          ]
        ]
      ]

pub recovery_due_spaced :
    (now later seen timeout : ℕ) (last : Option ℕ)
    → (attempt : ℕ) × (last ≡ some attempt) × (now ≤ attempt)
    → now ≤ later
    → recovery_due later seen last timeout ≡ true
    → now + timeout ≤ later
unfolding recovery_due
recovery_due_spaced now later seen timeout last (attempt, noted, after) h due =
    let t = subst (λ l. recovery_due later seen l timeout ≡ true) noted due in ground arith

module _ (net : Ipnet) (snow : Snow) where
  pub push_call_scheduler :
      (p : ProgressOf net snow) (name : Text) (operation : ScheduledOperation)
      (called : EngineOf net snow × Result (EngineError net.Net) EngineOutput)
      → (push_call net snow p name operation called).scheduler ≡ p.scheduler
  unfolding push_call
  push_call_scheduler p name operation (engine, r) = refl

  pub retry_handshakes_scheduler :
      (peers : List ScheduledPeer) (now : ℕ) (entropy : ScheduledOperation → Text → Entropy)
      (p : ProgressOf net snow)
      → (retry_handshakes net snow peers now entropy p).scheduler ≡ p.scheduler
  unfolding retry_handshakes
  retry_handshakes_scheduler [] now entropy p = refl
  retry_handshakes_scheduler (peer ∷ peers) now entropy p =
      elim (Bool-cases (Sessions.has_pending_init p.engine.sessions peer.name)) [
        | inl e ↦
            rw (e, retry_handshakes)
              (retry_handshakes_scheduler peers now entropy _
                ∙ push_call_scheduler p peer.name handshake_retry
                    (initiate_handshake net snow p.engine peer.name now (entropy handshake_retry)))
        | inr e ↦ rw (e, retry_handshakes) (retry_handshakes_scheduler peers now entropy p)
      ]

  notes-send_keepalive :
      (p : ProgressOf net snow) (peer : ScheduledPeer) (now clock : ℕ)
      (entropy : ScheduledOperation → Text → Entropy)
      → notes (send_keepalive net snow p peer now clock entropy).scheduler ≡ notes p.scheduler
  unfolding send_keepalive push_call
  notes-send_keepalive p peer now clock entropy =
      elim (Bool-cases (
        Sessions.has_active_session p.engine.sessions peer.name clock
        || not (is_some peer.recovery))) [
          | inl e ↦ rw (e, send_keepalive) refl
          | inr e ↦ rw (e, send_keepalive) refl
        ]

  notes-skip_keepalive :
      (p : ProgressOf net snow) (peer : ScheduledPeer) (now : ℕ)
      → notes (skip_keepalive net snow p peer now).scheduler ≡ notes p.scheduler
  unfolding skip_keepalive
  notes-skip_keepalive p peer now =
      elim (Bool-cases (
        not (peer.persistent_keepalive == 0)
        && not (contains_key peer.name p.scheduler.last_sent))) [
          | inl e ↦ rw (e, skip_keepalive) refl
          | inr e ↦ rw (e, skip_keepalive) refl
        ]

  pub notes-send_keepalives :
      (peers : List ScheduledPeer) (now clock : ℕ) (entropy : ScheduledOperation → Text → Entropy)
      (p : ProgressOf net snow)
      → notes (send_keepalives net snow peers now clock entropy p).scheduler ≡ notes p.scheduler
  unfolding send_keepalives
  notes-send_keepalives [] now clock entropy p = refl
  notes-send_keepalives (peer ∷ peers) now clock entropy p =
      elim (Bool-cases (
        keepalive_should_send now (get peer.name p.scheduler.last_sent) peer.persistent_keepalive
          (is_some peer.recovery) p.rebound)) [
            | inl e ↦
                rw (e, send_keepalives)
                  (notes-send_keepalives peers now clock entropy _
                    ∙ notes-send_keepalive p peer now clock entropy)
            | inr e ↦
                rw (e, send_keepalives)
                  (notes-send_keepalives peers now clock entropy _
                    ∙ notes-skip_keepalive p peer now)
          ]
