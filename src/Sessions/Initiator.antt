-- ===== src/Sessions/Initiator.antt =====
-- The operations of the initiator keep the session table well formed.
use hushwire.Common.{
  ℕ, ◌+◌, ◌-◌, ◌≤◌, true, false, not, Option, none, ◌≡◌, inl, inr, arith, ite, Bytes, is_some,
  is_some_and, Option-cases, Result-cases, Bool-cases, bytes_eq, ltb,
}
use hushwire.Common.Maps.{Text, get, insert, find_key}
use hushwire.Common.Maps.Laws.{get-insert, insert-Distinct}
use hushwire.Externals.{Snow}
use hushwire.Auth.{keepalive, keepalive_probe_payload}
use hushwire.Noise.{Session, is_expired, should_rekey, encrypt}
use hushwire.Noise.Counters.{encrypt_session_id}
use hushwire.Noise.Handshake.{Entropy, initiator_start, initiator_finalize}
use hushwire.Sessions.{SessionState, PendingInitiator, drop_if, session_id_in_use}
use hushwire.Sessions.Exchange.{
  attempt_over, begin_handshake, clear_expired_candidate, clear_expired_session, start_handshake,
  start_or_retry_handshake, confirm_session, finalize_initiator, handshake_retry_interval,
}
use hushwire.Sessions.Ids.{occurrences, hit, occurrences-drop_if-le, drop_if-Distinct}
use hushwire.Sessions.Invariant.{IsWellFormed}
use hushwire.Sessions.Keep.{
  sessions-IsWellFormed, remove_pending-IsWellFormed, install_active_session-IsWellFormed,
}
use hushwire.Sessions.Handshakes.{room_for, drop_exchange-IsWellFormed, drop_pending-IsWellFormed}

module _ {T H : Type 0} where
  -- A handshake is pending for a peer that has no candidate.
  put_pending-IsWellFormed :
      (st : SessionState T H) (p : Text) (pending : PendingInitiator H)
      → (get p st.responder_candidates ≡ none)
      → IsWellFormed st
      → IsWellFormed (record st { pending_init = insert p pending st.pending_init })
  put_pending-IsWellFormed st p pending bare v = record {
    keyed = record {
      sessions = v.keyed.sessions;
      previous = v.keyed.previous;
      candidates = v.keyed.candidates;
      pending = insert-Distinct p _ _ v.keyed.pending;
      cache = v.keyed.cache;
    };
    unique = v.unique;
    one_role = λ q. ground (arith, v.one_role q, get-insert p q pending st.pending_init);
    answered = v.answered;
  }

module _ (snow : Snow) where
  clear_expired_candidate-IsWellFormed :
      (st : SessionState snow.Transport snow.Handshake) (p : Text) (now : ℕ)
      → IsWellFormed st
      → IsWellFormed (clear_expired_candidate snow st p now)
  unfolding clear_expired_candidate
  clear_expired_candidate-IsWellFormed st p now v =
      elim (Bool-cases (is_some_and (get p st.responder_candidates) (λ s. is_expired s now))) [
        | inl e ↦ rw (e, clear_expired_candidate) (drop_exchange-IsWellFormed st p v)
        | inr e ↦ rw (e, clear_expired_candidate) v
      ]

  clear_expired_session-IsWellFormed :
      (st : SessionState snow.Transport snow.Handshake) (p : Text) (now : ℕ)
      → IsWellFormed st
      → IsWellFormed (clear_expired_session snow st p now)
  unfolding clear_expired_session
  clear_expired_session-IsWellFormed st p now v =
      let test = λ (s : Session snow.Transport). is_expired s now in
      sessions-IsWellFormed st _ st.previous_sessions v
        (drop_if-Distinct test p st.sessions v.keyed.sessions) v.keyed.previous
        λ id. omega (arith, occurrences-drop_if-le id test p st.sessions)

  is_some-none {ℓ} : {A : Type ℓ} (o : Option A) → is_some o ≡ false → o ≡ none
  is_some-none o h = ground arith

  start_handshake-IsWellFormed :
      (st : SessionState snow.Transport snow.Handshake) (p : Text) (local remote psk : Bytes)
      (now : ℕ) (entropy : Entropy)
      → IsWellFormed st
      → IsWellFormed (start_handshake snow st p local remote psk now entropy).0
  unfolding start_handshake begin_handshake clear_expired_session
  start_handshake-IsWellFormed st p local remote psk now entropy v =
      let cleared = clear_expired_candidate snow st p now in
      let ready = clear_expired_session snow cleared p now in
      let w = clear_expired_candidate-IsWellFormed st p now v in
      let u = clear_expired_session-IsWellFormed cleared p now w in
      elim (Bool-cases (is_some (get p cleared.responder_candidates))) [
        | inl e ↦ rw (e, start_handshake) w
        | inr e ↦
            elim (Bool-cases (is_some_and (get p ready.sessions) (λ s. not (should_rekey s now)))) [
              | inl f ↦ rw (e, start_handshake, f) u
              | inr f ↦ elim (Result-cases (initiator_start snow local remote psk entropy)) [
                | inl (handshake, g) ↦
                    rw (e, start_handshake, f, g)
                      (put_pending-IsWellFormed ready p _ (is_some-none _ e) u)
                | inr (error, g) ↦ rw (e, start_handshake, f, g) u
              ]
            ]
      ]

  pub start_or_retry_handshake-IsWellFormed :
      (st : SessionState snow.Transport snow.Handshake) (p : Text) (local remote psk : Bytes)
      (now : ℕ) (entropy : Entropy)
      → IsWellFormed st
      → IsWellFormed (start_or_retry_handshake snow st p local remote psk now entropy).0
  unfolding start_or_retry_handshake
  start_or_retry_handshake-IsWellFormed st p local remote psk now entropy v =
      let dropped = drop_if (attempt_over now) p st.pending_init in
      let w = drop_pending-IsWellFormed st (attempt_over now) p v in
      elim (Option-cases (get p dropped)) [
        | inl e ↦
            rw (e, start_or_retry_handshake)
              (start_handshake-IsWellFormed _ p local remote psk now entropy w)
        | inr (pending, e) ↦
            elim (Bool-cases (ltb (now - pending.last_sent) handshake_retry_interval)) [
              | inl f ↦ rw (e, start_or_retry_handshake, f) w
              | inr f ↦
                  rw (e, start_or_retry_handshake, f)
                    (put_pending-IsWellFormed (record st { pending_init = dropped }) p _
                      (ground (arith, w.one_role p)) w)
            ]
      ]

  confirm_session-IsWellFormed :
      (st : SessionState snow.Transport snow.Handshake) (p : Text) (s : Session snow.Transport)
      → IsWellFormed st
      → IsWellFormed (confirm_session snow st p s).0
  unfolding confirm_session
  confirm_session-IsWellFormed st p s v =
      let r = encrypt snow s keepalive keepalive_probe_payload in
      elim (Bool-cases (session_id_in_use st s.session_id)) [
        | inl used ↦ rw (used, confirm_session) v
        | inr free ↦ elim (Result-cases r.1) [
          | inr (error, e) ↦ rw (free, confirm_session, e) v
          | inl (frame, e) ↦
              let same = encrypt_session_id snow s keepalive keepalive_probe_payload in
              let room : (id : Bytes)
                  → hit id r.0
                      + occurrences id st.sessions
                      + occurrences id st.previous_sessions
                      + occurrences id st.responder_candidates
                    ≤ 1 =
                λ id. ground (arith, same, room_for st s v.unique free id) in
              rw (free, confirm_session, e)
                (drop_exchange-IsWellFormed _ p
                  (install_active_session-IsWellFormed st p r.0 v room))
        ]
      ]

  pub finalize_initiator-IsWellFormed :
      (st : SessionState snow.Transport snow.Handshake) (id response : Bytes) (clock : ℕ)
      → IsWellFormed st
      → IsWellFormed (finalize_initiator snow st id response clock).0
  unfolding finalize_initiator
  finalize_initiator-IsWellFormed st id response clock v =
      let same = λ (pending : PendingInitiator snow.Handshake).
        ite (bytes_eq pending.handshake_id id) true false in
      elim (Option-cases (find_key same st.pending_init)) [
        | inl e ↦ rw (e, finalize_initiator) v
        | inr (p, e) ↦ elim (Option-cases (get p st.pending_init)) [
          | inl f ↦ rw (e, finalize_initiator, f) v
          | inr (pending, f) ↦
              let w = remove_pending-IsWellFormed st p v in
              elim (Result-cases (initiator_finalize snow pending.state response clock)) [
                | inr (error, g) ↦ rw (e, finalize_initiator, f, g) w
                | inl (session, g) ↦
                    rw (e, finalize_initiator, f, g) (confirm_session-IsWellFormed _ p session w)
              ]
        ]
      ]
