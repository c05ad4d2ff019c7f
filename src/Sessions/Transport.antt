-- ===== src/Sessions/Transport.antt =====
-- The transport operations keep the session table well formed.
use hushwire.Common.{
  ℕ, not, none, some, ◌≡◌, refl, inl, inr, arith, Bytes, Option-cases, Result-cases,
}
use hushwire.Common.Maps.{Text, get, remove, insert, find_key}
use hushwire.Common.Maps.Laws.{get-remove, get-insert, insert-Distinct, retain-Distinct}
use hushwire.Externals.{Snow}
use hushwire.Auth.{MsgType}
use hushwire.Noise.{Session, is_expired, encrypt, decrypt}
use hushwire.Noise.Counters.{encrypt_session_id}
use hushwire.Noise.Receive.{decrypt_session_id}
use hushwire.Sessions.{
  SessionState, has_id, drop_if, install_active_session, encrypt_for_peer, sweep, decrypt_active,
  decrypt_previous, promote, take_candidate, decrypt_candidate, decrypt_transport,
}
use hushwire.Sessions.Ids.{
  occurrences-remove-get, occurrences-update-le, occurrences-live-le, occurrences-drop_if-le,
  drop_if-Distinct, get-retain-none,
}
use hushwire.Sessions.Invariant.{IsWellFormed}
use hushwire.Sessions.Keep.{
  sessions-IsWellFormed, remove_candidate-IsWellFormed, remove_pending-IsWellFormed,
  remove_cached-IsWellFormed, install_active_session-IsWellFormed, install_candidates,
}

module _ (snow : Snow) where
  pub encrypt_for_peer-IsWellFormed :
      (st : SessionState snow.Transport snow.Handshake) (p : Text) (m : MsgType) (payload : Bytes)
      (now : ℕ)
      → IsWellFormed st
      → IsWellFormed (encrypt_for_peer snow st p m payload now).0
  unfolding encrypt_for_peer
  encrypt_for_peer-IsWellFormed st p m payload now v =
      let test = λ (s : Session snow.Transport). is_expired s now in
      let kept = drop_if test p st.sessions in
      let dropped = drop_if-Distinct test p st.sessions v.keyed.sessions in
      let lived = retain-Distinct (λ s. not (is_expired s now)) _ v.keyed.previous in
      elim (Option-cases (get p kept)) [
        | inl e ↦
            rw (e, encrypt_for_peer)
              (sessions-IsWellFormed st _ _ v dropped lived λ id. omega (
                arith,
                occurrences-drop_if-le id test p st.sessions,
                occurrences-live-le id (λ s. not (is_expired s now)) st.previous_sessions,
              ))
        | inr (s, e) ↦
            rw (e, encrypt_for_peer)
              (sessions-IsWellFormed st _ _ v (insert-Distinct p _ _ dropped) lived λ id. omega (
                arith,
                occurrences-drop_if-le id test p st.sessions,
                occurrences-update-le id p s (encrypt snow s m payload).0 kept e
                    (encrypt_session_id snow s m payload),
                occurrences-live-le id (λ s. not (is_expired s now)) st.previous_sessions,
              ))
      ]

  sweep-IsWellFormed :
      (st : SessionState snow.Transport snow.Handshake) (now : ℕ)
      → IsWellFormed st
      → IsWellFormed (sweep snow st now)
  unfolding sweep
  sweep-IsWellFormed st now v =
      let test = λ (s : Session snow.Transport). not (is_expired s now) in
      record {
        keyed = record {
          sessions = retain-Distinct test _ v.keyed.sessions;
          previous = retain-Distinct test _ v.keyed.previous;
          candidates = retain-Distinct test _ v.keyed.candidates;
          pending = v.keyed.pending;
          cache = v.keyed.cache;
        };
        unique = λ id. omega (
          arith,
          v.unique id,
          occurrences-live-le id test st.sessions,
          occurrences-live-le id test st.previous_sessions,
          occurrences-live-le id test st.responder_candidates,
        );
        one_role = λ q. ground (
          arith,
          v.one_role q,
          get-retain-none test q st.responder_candidates v.keyed.candidates,
        );
        answered = λ q. ground (
          arith,
          v.answered q,
          get-retain-none test q st.responder_candidates v.keyed.candidates,
        );
      }

  decrypt_active-IsWellFormed :
      (st : SessionState snow.Transport snow.Handshake) (p : Text) (id : Bytes) (counter : ℕ)
      (ciphertext : Bytes)
      → IsWellFormed st
      → IsWellFormed (decrypt_active snow st p id counter ciphertext).0
  unfolding decrypt_active
  decrypt_active-IsWellFormed st p id counter ciphertext v =
      elim (Option-cases (get p st.sessions)) [
        | inl e ↦ rw (e, decrypt_active) v
        | inr (s, e) ↦
            rw (e, decrypt_active)
              (sessions-IsWellFormed st _ st.previous_sessions v
                (insert-Distinct p _ _ v.keyed.sessions) v.keyed.previous
                λ id'. omega (
                  arith,
                  occurrences-update-le id' p s (decrypt snow s id counter ciphertext).0 st.sessions
                      e (decrypt_session_id snow s id counter ciphertext),
                ))
      ]

  decrypt_previous-IsWellFormed :
      (st : SessionState snow.Transport snow.Handshake) (p : Text) (id : Bytes) (counter : ℕ)
      (ciphertext : Bytes)
      → IsWellFormed st
      → IsWellFormed (decrypt_previous snow st p id counter ciphertext).0
  unfolding decrypt_previous
  decrypt_previous-IsWellFormed st p id counter ciphertext v =
      elim (Option-cases (get p st.previous_sessions)) [
        | inl e ↦ rw (e, decrypt_previous) v
        | inr (s, e) ↦
            rw (e, decrypt_previous)
              (sessions-IsWellFormed st st.sessions _ v v.keyed.sessions
                (insert-Distinct p _ _ v.keyed.previous)
                λ id'. omega (
                  arith,
                  occurrences-update-le id' p s (decrypt snow s id counter ciphertext).0
                      st.previous_sessions e (decrypt_session_id snow s id counter ciphertext),
                ))
      ]

  -- The candidate's counters move on while it stays a candidate.
  update_candidate-IsWellFormed :
      (st : SessionState snow.Transport snow.Handshake) (p : Text) (s s' : Session snow.Transport)
      → IsWellFormed st
      → get p st.responder_candidates ≡ some s
      → s'.session_id ≡ s.session_id
      → IsWellFormed (record st { responder_candidates = insert p s' st.responder_candidates })
  update_candidate-IsWellFormed st p s s' v e same = record {
    keyed = record {
      sessions = v.keyed.sessions;
      previous = v.keyed.previous;
      candidates = insert-Distinct p _ _ v.keyed.candidates;
      pending = v.keyed.pending;
      cache = v.keyed.cache;
    };
    unique = λ id.
        omega (arith, v.unique id, occurrences-update-le id p s s' st.responder_candidates e same);
    one_role =
        λ q. ground (arith, v.one_role q, v.one_role p, get-insert p q s' st.responder_candidates);
    answered =
        λ q. ground (arith, v.answered q, v.answered p, get-insert p q s' st.responder_candidates);
  }

  promote-IsWellFormed :
      (st : SessionState snow.Transport snow.Handshake) (p : Text) (s s' : Session snow.Transport)
      → IsWellFormed st
      → get p st.responder_candidates ≡ some s
      → s'.session_id ≡ s.session_id
      → IsWellFormed (promote snow st p s')
  unfolding promote
  promote-IsWellFormed st p s s' v e same =
      let bare = record st { responder_candidates = remove p st.responder_candidates } in
      let installed =
        install_active_session-IsWellFormed bare p s' (remove_candidate-IsWellFormed st p v) λ id.
          ground (arith, v.unique id, occurrences-remove-get id p st.responder_candidates s e) in
      let gone : get p (install_active_session bare p s').responder_candidates ≡ none =
        rw (install_candidates bare p s')
          (ground (arith, get-remove p p st.responder_candidates)) in
      remove_cached-IsWellFormed _ p gone (remove_pending-IsWellFormed _ p installed)

  decrypt_candidate-IsWellFormed :
      (st : SessionState snow.Transport snow.Handshake) (p : Text) (id : Bytes) (counter : ℕ)
      (ciphertext : Bytes)
      → IsWellFormed st
      → IsWellFormed (decrypt_candidate snow st p id counter ciphertext).0
  unfolding decrypt_candidate take_candidate
  decrypt_candidate-IsWellFormed st p id counter ciphertext v =
      elim (Option-cases (get p st.responder_candidates)) [
        | inl e ↦ rw (e, decrypt_candidate) v
        | inr (s, e) ↦
            let same = decrypt_session_id snow s id counter ciphertext in
            elim (Result-cases (decrypt snow s id counter ciphertext).1) [
              | inl (message, f) ↦
                  let s' = (decrypt snow s id counter ciphertext).0 in
                  let st' = record st {
                    responder_candidates = insert p s' st.responder_candidates;
                  } in
                  let found : get p st'.responder_candidates ≡ some s' =
                    ground (arith, get-insert p p s' st.responder_candidates) in
                  rw (e, decrypt_candidate, f, take_candidate, found)
                    (promote-IsWellFormed st' p s' s'
                      (update_candidate-IsWellFormed st p s s' v e same) found refl)
              | inr (error, f) ↦
                  rw (e, decrypt_candidate, f) (update_candidate-IsWellFormed st p s _ v e same)
            ]
      ]

  -- Whatever arrives, the table stays well formed.
  pub decrypt_transport-IsWellFormed :
      (st : SessionState snow.Transport snow.Handshake) (id : Bytes) (counter : ℕ)
      (ciphertext : Bytes) (now : ℕ)
      → IsWellFormed st
      → IsWellFormed (decrypt_transport snow st id counter ciphertext now).0
  unfolding decrypt_transport
  decrypt_transport-IsWellFormed st id counter ciphertext now v =
      let swept = sweep snow st now in
      let w = sweep-IsWellFormed st now v in
      elim (Option-cases (find_key (has_id id) swept.sessions)) [
        | inr (p, e) ↦
            rw (e, decrypt_transport) (decrypt_active-IsWellFormed swept p id counter ciphertext w)
        | inl e ↦ elim (Option-cases (find_key (has_id id) swept.previous_sessions)) [
          | inr (p, f) ↦
              rw (e, decrypt_transport, f)
                (decrypt_previous-IsWellFormed swept p id counter ciphertext w)
          | inl f ↦ elim (Option-cases (find_key (has_id id) swept.responder_candidates)) [
            | inr (p, g) ↦
                rw (e, decrypt_transport, f, g)
                  (decrypt_candidate-IsWellFormed swept p id counter ciphertext w)
            | inl g ↦ rw (e, decrypt_transport, f, g) w
          ]
        ]
      ]
