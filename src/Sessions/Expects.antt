-- ===== src/Sessions/Expects.antt =====
-- The `expect`s of the session table, which the model shows as `panicked`.
use hushwire.Common.{
  ℕ, true, false, not, ◌≡◌, ◌≢◌, some, inl, inr, arith, ite, err, Bytes, bytes_eq, Option-cases,
  Result-cases,
}
use hushwire.Common.Maps.{Text, get, insert, find_key}
use hushwire.Common.Maps.Laws.{get-insert, get-find_key, retain-Distinct}
use hushwire.Externals.{Snow}
use hushwire.Auth.{MsgType, keepalive, keepalive_probe_payload}
use hushwire.Noise.{panicked, Session, seal, encrypt, decrypt, accept_plaintext, is_expired}
use hushwire.Noise.Handshake.{InitiatorState, initiator_finalize}
use hushwire.Sessions.{
  SessionState, PendingInitiator, sweep, has_id, decrypt_active, decrypt_previous, take_candidate,
  decrypt_candidate, decrypt_transport,
}
use hushwire.Sessions.Exchange.{confirm_session, finalize_initiator}
use hushwire.Sessions.Invariant.{IsWellFormed}

module _ (snow : Snow) where
  decrypt_no_panic :
      (s : Session snow.Transport) (id : Bytes) (counter : ℕ) (ciphertext : Bytes)
      → (decrypt snow s id counter ciphertext).1 ≢ err panicked
  unfolding decrypt accept_plaintext
  decrypt_no_panic s id counter ciphertext h = ground arith

  encrypt_no_panic :
      (s : Session snow.Transport) (m : MsgType) (payload : Bytes)
      → (encrypt snow s m payload).1 ≢ err panicked
  unfolding encrypt seal
  encrypt_no_panic s m payload h = ground arith

  initiator_finalize_no_panic :
      (initiator : InitiatorState snow.Handshake) (message : Bytes) (clock : ℕ)
      → initiator_finalize snow initiator message clock ≢ err panicked
  unfolding initiator_finalize
  initiator_finalize_no_panic initiator message clock h = ground arith

  -- A candidate that has just been decrypted is still there.
  decrypt_candidate_no_panic :
      (st : SessionState snow.Transport snow.Handshake) (p : Text) (id : Bytes) (counter : ℕ)
      (ciphertext : Bytes) (s : Session snow.Transport)
      → get p st.responder_candidates ≡ some s
      → (decrypt_candidate snow st p id counter ciphertext).1 ≢ err panicked
  unfolding decrypt_candidate take_candidate
  decrypt_candidate_no_panic st p id counter ciphertext s e h =
      let s' = (decrypt snow s id counter ciphertext).0 in
      elim (Result-cases (decrypt snow s id counter ciphertext).1) [
        | inr (error, f) ↦ decrypt_no_panic s id counter ciphertext (ground arith)
        | inl (message, f) ↦
            let found : get p (insert p s' st.responder_candidates) ≡ some s' =
              ground (arith, get-insert p p s' st.responder_candidates) in
            ground arith
      ]

  -- On a well-formed session table no `expect` of `decrypt_transport` fails.
  pub decrypt_transport_no_panic :
      (st : SessionState snow.Transport snow.Handshake) (id : Bytes) (counter : ℕ)
      (ciphertext : Bytes) (now : ℕ)
      → IsWellFormed st
      → (decrypt_transport snow st id counter ciphertext now).1 ≢ err panicked
  unfolding decrypt_transport sweep decrypt_active decrypt_previous
  decrypt_transport_no_panic st id counter ciphertext now v h =
      let swept = sweep snow st now in
      let live = λ (s : Session snow.Transport). not (is_expired s now) in
      elim (Option-cases (find_key (has_id id) swept.sessions)) [
        | inr (p, e) ↦
            let (s, found, fits) =
              get-find_key (has_id id) p swept.sessions (retain-Distinct live _ v.keyed.sessions)
                e in
            decrypt_no_panic s id counter ciphertext (ground arith)
        | inl e ↦ elim (Option-cases (find_key (has_id id) swept.previous_sessions)) [
          | inr (p, f) ↦
              let (s, found, fits) =
                get-find_key (has_id id) p swept.previous_sessions
                  (retain-Distinct live _ v.keyed.previous) f in
              decrypt_no_panic s id counter ciphertext (ground arith)
          | inl f ↦ elim (Option-cases (find_key (has_id id) swept.responder_candidates)) [
            | inr (p, g) ↦
                let (s, found, fits) =
                  get-find_key (has_id id) p swept.responder_candidates
                    (retain-Distinct live _ v.keyed.candidates) g in
                decrypt_candidate_no_panic swept p id counter ciphertext s found (ground arith)
            | inl g ↦ ground arith
          ]
        ]
      ]

  -- On a well-formed session table the `expect` of `finalize_initiator` does not fail.
  pub finalize_initiator_no_panic :
      (st : SessionState snow.Transport snow.Handshake) (id response : Bytes) (clock : ℕ)
      → IsWellFormed st
      → (finalize_initiator snow st id response clock).1 ≢ err panicked
  unfolding finalize_initiator confirm_session
  finalize_initiator_no_panic st id response clock v h =
      let same = λ (pending : PendingInitiator snow.Handshake).
        ite (bytes_eq pending.handshake_id id) true false in
      elim (Option-cases (find_key same st.pending_init)) [
        | inl e ↦ absurd (ground arith)
        | inr (p, e) ↦
            let (pending, found, fits) = get-find_key same p st.pending_init v.keyed.pending e in
            elim (Result-cases (initiator_finalize snow pending.state response clock)) [
              | inr (error, f) ↦
                  initiator_finalize_no_panic pending.state response clock (ground arith)
              | inl (s, f) ↦ encrypt_no_panic s keepalive keepalive_probe_payload (ground arith)
            ]
      ]
