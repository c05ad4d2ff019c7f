-- ===== src/Sessions/Handshakes.antt =====
-- The operations of the responder keep the session table well formed.
use hushwire.Common.{
  ℕ, ◌+◌, ◌-◌, ◌≤◌, Bool, false, ◌&&◌, ◌≡◌, inl, inr, arith, Bytes, is_some, is_some_and,
  Option-cases, Bool-cases, bytes_eq, leb,
}
use hushwire.Common.Maps.{Text, Map, get, remove}
use hushwire.Common.Maps.Laws.{get-remove, get-insert, remove-Distinct, insert-Distinct}
use hushwire.Noise.{Session}
use hushwire.Sessions.{SessionState, PendingInitiator, drop_if, session_id_in_use}
use hushwire.Sessions.Exchange.{
  attempt_over, store_responder_candidate, cached_responder_response, accept_inbound_initiation,
  bytes_le, handshake_cache_lifetime,
}
use hushwire.Sessions.Ids.{occurrences, hit, occurrences-insert-le, occurrences_unused}
use hushwire.Sessions.Invariant.{UniqueIds, IsWellFormed}
use hushwire.Sessions.Keep.{
  remove_candidate-IsWellFormed, remove_pending-IsWellFormed, remove_cached-IsWellFormed,
}

module _ {T H : Type 0} where
  -- An identifier that is not in use leaves room for one session.
  pub room_for :
      (st : SessionState T H) (s : Session T)
      → UniqueIds st
      → session_id_in_use st s.session_id ≡ false
      → (id : Bytes)
      → hit id s
          + occurrences id st.sessions
          + occurrences id st.previous_sessions
          + occurrences id st.responder_candidates
        ≤ 1
  unfolding session_id_in_use
  room_for st s unique unused id = elim (bytes_eq s.session_id id) [
    | no other ↦ ground (arith, unique id)
    | yes same ↦ ground (
      arith,
      occurrences_unused s.session_id st.sessions,
      occurrences_unused s.session_id st.previous_sessions,
      occurrences_unused s.session_id st.responder_candidates,
    )
  ]

  pub store_responder_candidate-IsWellFormed :
      (st : SessionState T H) (p : Text) (s : Session T) (id request response : Bytes) (clock : ℕ)
      → IsWellFormed st
      → IsWellFormed (store_responder_candidate st p s id request response clock).0
  unfolding store_responder_candidate
  store_responder_candidate-IsWellFormed st p s id request response clock v =
      elim (Bool-cases (session_id_in_use st s.session_id)) [
        | inl used ↦ rw (used, store_responder_candidate) v
        | inr free ↦
            rw (free, store_responder_candidate)
              (record {
                keyed = record {
                  sessions = v.keyed.sessions;
                  previous = v.keyed.previous;
                  candidates = insert-Distinct p _ _ v.keyed.candidates;
                  pending = remove-Distinct p _ v.keyed.pending;
                  cache = insert-Distinct p _ _ v.keyed.cache;
                };
                unique = λ i. omega (
                  arith,
                  room_for st s v.unique free i,
                  occurrences-insert-le i p s st.responder_candidates,
                );
                one_role = λ q. ground (
                  arith,
                  v.one_role q,
                  get-insert p q s st.responder_candidates,
                  get-remove p q st.pending_init,
                );
                answered = λ q. ground (
                  arith,
                  v.answered q,
                  get-insert p q s st.responder_candidates,
                  get-insert p q
                      (record {
                        handshake_id = id;
                        request = request;
                        response = response;
                        created_at = clock;
                      })
                      st.responder_cache,
                );
              })
      ]

  -- A candidate and its cached response leave together.
  pub drop_exchange-IsWellFormed :
      (st : SessionState T H) (p : Text)
      → IsWellFormed st
      → IsWellFormed (record st {
        responder_cache = remove p st.responder_cache;
        responder_candidates = remove p st.responder_candidates;
      })
  drop_exchange-IsWellFormed st p v =
      remove_cached-IsWellFormed
        (record st { responder_candidates = remove p st.responder_candidates }) p
        (ground (arith, get-remove p p st.responder_candidates))
        (remove_candidate-IsWellFormed st p v)

  pub cached_responder_response-IsWellFormed :
      (st : SessionState T H) (p : Text) (id request : Bytes) (clock : ℕ)
      → IsWellFormed st
      → IsWellFormed (cached_responder_response st p id request clock).0
  unfolding cached_responder_response
  cached_responder_response-IsWellFormed st p id request clock v =
      elim (Option-cases (get p st.responder_cache)) [
        | inl e ↦ rw (e, cached_responder_response) v
        | inr (cached, e) ↦
            elim (Bool-cases (leb handshake_cache_lifetime (clock - cached.created_at))) [
              | inl old ↦ rw (e, cached_responder_response, old) (drop_exchange-IsWellFormed st p v)
              | inr young ↦ rw (e, cached_responder_response, young) v
            ]
      ]

  pub drop_pending-IsWellFormed :
      (st : SessionState T H) (test : PendingInitiator H → Bool) (p : Text)
      → IsWellFormed st
      → IsWellFormed (record st { pending_init = drop_if test p st.pending_init })
  drop_pending-IsWellFormed st test p v =
      elim (Bool-cases (is_some_and (get p st.pending_init) test)) [
        | inl e ↦ rw e (remove_pending-IsWellFormed st p v)
        | inr e ↦ rw e v
      ]

  -- The preferences do not matter to the invariant.
  prefer-IsWellFormed :
      (st : SessionState T H) (preferences : Map (Unit {0}))
      → IsWellFormed st
      → IsWellFormed (record st { inbound_recovery_preference = preferences })
  prefer-IsWellFormed st preferences v = record {
    keyed = record {
      sessions = v.keyed.sessions;
      previous = v.keyed.previous;
      candidates = v.keyed.candidates;
      pending = v.keyed.pending;
      cache = v.keyed.cache;
    };
    unique = v.unique;
    one_role = v.one_role;
    answered = v.answered;
  }

  pub accept_inbound_initiation-IsWellFormed :
      (st : SessionState T H) (p : Text) (id : Bytes) (passive : Bool) (clock : ℕ)
      → IsWellFormed st
      → IsWellFormed (accept_inbound_initiation st p id passive clock).0
  unfolding accept_inbound_initiation
  accept_inbound_initiation-IsWellFormed st p id passive clock v =
      let pending = drop_if (attempt_over clock) p st.pending_init in
      let w = drop_pending-IsWellFormed st (attempt_over clock) p v in
      elim (Bool-cases (passive && is_some (get p st.inbound_recovery_preference))) [
        | inl e ↦
            rw (e, accept_inbound_initiation)
              (prefer-IsWellFormed _ _ (remove_pending-IsWellFormed _ p w))
        | inr e ↦ elim (Option-cases (get p pending)) [
          | inl f ↦ rw (e, accept_inbound_initiation, f) w
          | inr (local, f) ↦ elim (Bool-cases (bytes_le local.handshake_id id)) [
            | inl g ↦ rw (e, accept_inbound_initiation, f, g) w
            | inr g ↦ rw (e, accept_inbound_initiation, f, g) (remove_pending-IsWellFormed _ p w)
          ]
        ]
      ]
