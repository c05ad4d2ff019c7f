-- ===== src/Sessions/Exchange.antt =====
-- src/engine.rs, `SessionManager`: the operations of a handshake, in the roles of initiator and
-- responder.
use hushwire.Common.{
  ℕ, ◌-◌, Bool, true, false, not, ◌&&◌, [], ◌∷◌, Option, none, some, ltb, leb, if◌then◌else◌, ite,
  Result, ok, err, Bytes, bytes_eq, is_some, is_some_and,
}
use hushwire.Common.Maps.{Text, get, remove, insert, find_key}
use hushwire.Externals.{Snow}
use hushwire.Auth.{handshake_init, keepalive, encode_handshake, keepalive_probe_payload}
use hushwire.Noise.{
  NoiseError, panicked, wrong_session, Session, is_expired, should_rekey, encrypt, from_secs,
}
use hushwire.Noise.Handshake.{InitiatorHandshake, Entropy, initiator_start, initiator_finalize}
use hushwire.Sessions.{
  PendingInitiator, SessionState, drop_if, session_id_in_use, install_active_session,
}

abbrev pub handshake_retry_interval : ℕ
handshake_retry_interval = from_secs 5

abbrev pub handshake_attempt_lifetime : ℕ
handshake_attempt_lifetime = from_secs 30

abbrev pub handshake_cache_lifetime : ℕ
handshake_cache_lifetime = from_secs 60

-- The order of byte arrays of one length.
unfoldable pub bytes_le : Bytes → Bytes → Bool
bytes_le [] ys = true
bytes_le (x ∷ xs) [] = false
bytes_le (x ∷ xs) (y ∷ ys) = if ltb x y then true else if ltb y x then false else bytes_le xs ys

abbrev pub attempt_over : {H : Type 0} → ℕ → PendingInitiator H → Bool
attempt_over now pending = leb handshake_attempt_lifetime (now - pending.created_at)

module _ {T H : Type 0} where
  -- The `bool` of the code comes second.
  unfoldable pub store_responder_candidate :
      SessionState T H → Text → Session T → Bytes → Bytes → Bytes → ℕ → SessionState T H × Bool
  store_responder_candidate st peer_name session handshake_id request response clock =
      if session_id_in_use st session.session_id then (st, false) else (
        record st {
          pending_init = remove peer_name st.pending_init;
          responder_candidates = insert peer_name session st.responder_candidates;
          responder_cache =
              insert peer_name
                (record {
                  handshake_id = handshake_id;
                  request = request;
                  response = response;
                  created_at = clock;
                })
                st.responder_cache;
        },
        true,
      )

  unfoldable pub cached_responder_response :
      SessionState T H → Text → Bytes → Bytes → ℕ → SessionState T H × Option Bytes
  cached_responder_response st peer_name handshake_id request clock =
      elim (get peer_name st.responder_cache) [
        | none ↦ (st, none)
        | some cached ↦
            if leb handshake_cache_lifetime (clock - cached.created_at)
            then (
              record st {
                responder_cache = remove peer_name st.responder_cache;
                responder_candidates = remove peer_name st.responder_candidates;
              },
              none,
            )
            else (
              st,
              ite (bytes_eq cached.handshake_id handshake_id)
                  (ite (bytes_eq cached.request request) (some cached.response) none) none,
            )
      ]

  unfoldable pub accept_inbound_initiation :
      SessionState T H → Text → Bytes → Bool → ℕ → SessionState T H × Bool
  accept_inbound_initiation st peer_name remote_handshake_id passive_peer clock =
      let pending = drop_if (attempt_over clock) peer_name st.pending_init in
      let preferred = is_some (get peer_name st.inbound_recovery_preference) in
      if passive_peer && preferred
      then (
        record st {
          pending_init = remove peer_name pending;
          inbound_recovery_preference = remove peer_name st.inbound_recovery_preference;
        },
        true,
      )
      else elim (get peer_name pending) [
        | none ↦ (record st { pending_init = pending }, true)
        | some local ↦
            if bytes_le local.handshake_id remote_handshake_id
            then (record st { pending_init = pending }, false)
            else (record st { pending_init = remove peer_name pending }, true)
      ]

module _ (snow : Snow) where
  abbrev State : Type 0
  State = SessionState snow.Transport snow.Handshake

  -- The new pending entry and its packet.
  unfoldable pub begin_handshake :
      State → Text → InitiatorHandshake snow.Handshake → ℕ → State × Bytes
  begin_handshake st peer_name handshake now =
      let packet = encode_handshake handshake_init handshake.handshake_id handshake.message in
      (
        record st {
          pending_init =
              insert peer_name
                (record {
                  handshake_id = handshake.handshake_id;
                  state = handshake.state;
                  packet = packet;
                  created_at = now;
                  last_sent = now;
                })
                st.pending_init;
        },
        packet,
      )

  -- An expired candidate goes with the response that made it.
  unfoldable pub clear_expired_candidate : State → Text → ℕ → State
  clear_expired_candidate st peer_name now =
      if is_some_and (get peer_name st.responder_candidates) (λ s. is_expired s now)
      then (record st {
        responder_candidates = remove peer_name st.responder_candidates;
        responder_cache = remove peer_name st.responder_cache;
      })
      else st

  unfoldable pub clear_expired_session : State → Text → ℕ → State
  clear_expired_session st peer_name now = record st {
    sessions = drop_if (λ s. is_expired s now) peer_name st.sessions;
  }

  -- From the check of the candidates on, when no handshake is pending.
  unfoldable pub start_handshake :
      State → Text → Bytes → Bytes → Bytes → ℕ → Entropy → State × Result NoiseError (Option Bytes)
  start_handshake st peer_name local_static remote_static_pub psk now entropy =
      let cleared = clear_expired_candidate st peer_name now in
      if is_some (get peer_name cleared.responder_candidates)
      then (cleared, ok none)
      else let ready = clear_expired_session cleared peer_name now in
        if is_some_and (get peer_name ready.sessions) (λ s. not (should_rekey s now))
        then (ready, ok none)
        else elim (initiator_start snow local_static remote_static_pub psk entropy) [
          | err e ↦ (ready, err e)
          | ok handshake ↦
              let (begun, packet) = begin_handshake ready peer_name handshake now in
              (begun, ok (some packet))
        ]

  unfoldable pub start_or_retry_handshake :
      State → Text → Bytes → Bytes → Bytes → ℕ → Entropy → State × Result NoiseError (Option Bytes)
  start_or_retry_handshake st peer_name local_static remote_static_pub psk now entropy =
      let pending_init = drop_if (attempt_over now) peer_name st.pending_init in
      let dropped = record st { pending_init = pending_init } in
      elim (get peer_name pending_init) [
        | some pending ↦
            if ltb (now - pending.last_sent) handshake_retry_interval then (dropped, ok none) else (
              record st {
                pending_init = insert peer_name (record pending { last_sent = now }) pending_init;
              },
              ok (some pending.packet),
            )
        | none ↦ start_handshake dropped peer_name local_static remote_static_pub psk now entropy
      ]

  -- The session of a completed exchange, once its first packet is encrypted.
  unfoldable pub confirm_session :
      State → Text → Session snow.Transport → State × Result NoiseError (Option (Text × Bytes))
  confirm_session st peer_name session =
      if session_id_in_use st session.session_id
      then (st, err wrong_session)
      else let (session', r) = encrypt snow session keepalive keepalive_probe_payload in
        elim r [
          | err e ↦ (st, err e)
          | ok confirmation ↦
              let installed = install_active_session st peer_name session' in
              (
                record installed {
                  responder_candidates = remove peer_name installed.responder_candidates;
                  responder_cache = remove peer_name installed.responder_cache;
                },
                ok (some (peer_name, confirmation)),
              )
        ]

  unfoldable pub finalize_initiator :
      State → Bytes → Bytes → ℕ → State × Result NoiseError (Option (Text × Bytes))
  finalize_initiator st handshake_id response clock =
      let same = λ (pending : PendingInitiator snow.Handshake).
        ite (bytes_eq pending.handshake_id handshake_id) true false in
      elim (find_key same st.pending_init) [
        | none ↦ (st, ok none)
        | some peer_name ↦ elim (get peer_name st.pending_init) [
          | none ↦ (st, err panicked)
          | some pending ↦
              let removed = record st { pending_init = remove peer_name st.pending_init } in
              elim (initiator_finalize snow pending.state response clock) [
                | err e ↦ (removed, err e)
                | ok session ↦ confirm_session removed peer_name session
              ]
        ]
      ]
