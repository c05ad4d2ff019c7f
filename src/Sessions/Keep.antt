-- ===== src/Sessions/Keep.antt =====
-- Single changes that keep the session table well formed.
use hushwire.Common.{◌+◌, ◌≤◌, none, ◌≡◌, inl, inr, refl, arith, Bytes, Option-cases}
use hushwire.Common.Maps.{Text, Map, get, remove}
use hushwire.Common.Maps.Laws.{Distinct, get-remove, remove-Distinct, insert-Distinct}
use hushwire.Noise.{Session}
use hushwire.Sessions.{SessionState, install_active_session, invalidate_peer}
use hushwire.Sessions.Ids.{
  occurrences, hit, occurrences-remove-le, occurrences-insert-le, occurrences-insert-get,
}
use hushwire.Sessions.Invariant.{IsWellFormed}

module _ {T H : Type 0} where
  -- A change of the active and the previous sessions alone.
  pub sessions-IsWellFormed :
      (st : SessionState T H) (sessions previous : Map (Session T))
      → IsWellFormed st
      → Distinct sessions
      → Distinct previous
      → ((id : Bytes)
          → occurrences id sessions + occurrences id previous
            ≤ occurrences id st.sessions + occurrences id st.previous_sessions)
      → IsWellFormed (record st { sessions = sessions; previous_sessions = previous })
  sessions-IsWellFormed st sessions previous v d e fewer = record {
    keyed = record {
      sessions = d;
      previous = e;
      candidates = v.keyed.candidates;
      pending = v.keyed.pending;
      cache = v.keyed.cache;
    };
    unique = λ id. omega (arith, v.unique id, fewer id);
    one_role = v.one_role;
    answered = v.answered;
  }

  pub remove_candidate-IsWellFormed :
      (st : SessionState T H) (p : Text)
      → IsWellFormed st
      → IsWellFormed (record st { responder_candidates = remove p st.responder_candidates })
  remove_candidate-IsWellFormed st p v = record {
    keyed = record {
      sessions = v.keyed.sessions;
      previous = v.keyed.previous;
      candidates = remove-Distinct p _ v.keyed.candidates;
      pending = v.keyed.pending;
      cache = v.keyed.cache;
    };
    unique = λ id. omega (arith, v.unique id, occurrences-remove-le id p st.responder_candidates);
    one_role = λ q. ground (arith, v.one_role q, get-remove p q st.responder_candidates);
    answered = λ q. ground (arith, v.answered q, get-remove p q st.responder_candidates);
  }

  pub remove_pending-IsWellFormed :
      (st : SessionState T H) (p : Text)
      → IsWellFormed st
      → IsWellFormed (record st { pending_init = remove p st.pending_init })
  remove_pending-IsWellFormed st p v = record {
    keyed = record {
      sessions = v.keyed.sessions;
      previous = v.keyed.previous;
      candidates = v.keyed.candidates;
      pending = remove-Distinct p _ v.keyed.pending;
      cache = v.keyed.cache;
    };
    unique = v.unique;
    one_role = λ q. ground (arith, v.one_role q, get-remove p q st.pending_init);
    answered = v.answered;
  }

  -- A cached response may go once its candidate has gone.
  pub remove_cached-IsWellFormed :
      (st : SessionState T H) (p : Text)
      → get p st.responder_candidates ≡ none
      → IsWellFormed st
      → IsWellFormed (record st { responder_cache = remove p st.responder_cache })
  remove_cached-IsWellFormed st p gone v = record {
    keyed = record {
      sessions = v.keyed.sessions;
      previous = v.keyed.previous;
      candidates = v.keyed.candidates;
      pending = v.keyed.pending;
      cache = remove-Distinct p _ v.keyed.cache;
    };
    unique = v.unique;
    one_role = v.one_role;
    answered = λ q. ground (arith, v.answered q, get-remove p q st.responder_cache);
  }

  -- A session whose identifier is not in use becomes active, and the one before it previous.
  pub install_active_session-IsWellFormed :
      (st : SessionState T H) (p : Text) (s : Session T)
      → IsWellFormed st
      → ((id : Bytes)
          → hit id s
              + occurrences id st.sessions
              + occurrences id st.previous_sessions
              + occurrences id st.responder_candidates
            ≤ 1)
      → IsWellFormed (install_active_session st p s)
  unfolding install_active_session
  install_active_session-IsWellFormed st p s v free = elim (Option-cases (get p st.sessions)) [
    | inl e ↦
        rw (e, install_active_session)
          (record {
            keyed = record {
              sessions = insert-Distinct p s _ v.keyed.sessions;
              previous = v.keyed.previous;
              candidates = v.keyed.candidates;
              pending = v.keyed.pending;
              cache = v.keyed.cache;
            };
            unique = λ id. omega (arith, free id, occurrences-insert-le id p s st.sessions);
            one_role = v.one_role;
            answered = v.answered;
          })
    | inr (old, e) ↦
        rw (e, install_active_session)
          (record {
            keyed = record {
              sessions = insert-Distinct p s _ v.keyed.sessions;
              previous = insert-Distinct p old _ v.keyed.previous;
              candidates = v.keyed.candidates;
              pending = v.keyed.pending;
              cache = v.keyed.cache;
            };
            unique = λ id. omega (
              arith,
              free id,
              occurrences-insert-get id p old s st.sessions e,
              occurrences-insert-le id p old st.previous_sessions,
            );
            one_role = v.one_role;
            answered = v.answered;
          })
  ]

  pub install_candidates :
      (st : SessionState T H) (p : Text) (s : Session T)
      → (install_active_session st p s).responder_candidates ≡ st.responder_candidates
  unfolding install_active_session
  install_candidates st p s = refl

  pub invalidate_peer-IsWellFormed :
      (st : SessionState T H) (p : Text) → IsWellFormed st → IsWellFormed (invalidate_peer st p).0
  unfolding invalidate_peer
  invalidate_peer-IsWellFormed st p v = record {
    keyed = record {
      sessions = remove-Distinct p _ v.keyed.sessions;
      previous = remove-Distinct p _ v.keyed.previous;
      candidates = remove-Distinct p _ v.keyed.candidates;
      pending = remove-Distinct p _ v.keyed.pending;
      cache = remove-Distinct p _ v.keyed.cache;
    };
    unique = λ id. omega (
      arith,
      v.unique id,
      occurrences-remove-le id p st.sessions,
      occurrences-remove-le id p st.previous_sessions,
      occurrences-remove-le id p st.responder_candidates,
    );
    one_role = λ q. ground (
      arith,
      v.one_role q,
      get-remove p q st.responder_candidates,
      get-remove p q st.pending_init,
    );
    answered = λ q. ground (
      arith,
      v.answered q,
      get-remove p q st.responder_candidates,
      get-remove p q st.responder_cache,
    );
  }
