-- ===== src/Sessions.antt =====
-- src/engine.rs, `SessionManager`: the sessions of all peers and the handshakes in progress. The
-- code changes them under one lock, so an operation is a function from one state to the next.
pub mod Exchange
pub mod Ids
pub mod Invariant
pub mod Keep
pub mod Transport
pub mod Handshakes
pub mod Initiator
pub mod Expects
pub mod Interleaving
pub mod TieBreak
use hushwire.Common.{
  ℕ, Bool, true, false, not, ◌||◌, List, [], ◌∷◌, Option, none, some, if◌then◌else◌, ite, Result,
  ok, err, Bytes, bytes_eq, is_some, is_some_and,
}
use hushwire.Common.Maps
use hushwire.Common.Maps.{Text, Map, TextSet, get, remove, insert, retain, find_key, any_value}
use hushwire.Externals.{Snow}
use hushwire.Auth.{MsgType}
use hushwire.Noise.{NoiseError, panicked, Session, is_expired, encrypt, decrypt}
use hushwire.Noise.Handshake.{InitiatorState}

pub record PendingInitiator (H : Type 0) : Type 0 where
  pub handshake_id : Bytes
  pub state : InitiatorState H
  pub packet : Bytes
  pub created_at : ℕ
  pub last_sent : ℕ

pub record CachedResponderHandshake : Type 0 where
  pub handshake_id : Bytes
  pub request : Bytes
  pub response : Bytes
  pub created_at : ℕ

pub record SessionState (T H : Type 0) : Type 0 where
  pub sessions : Map (Session T)
  pub previous_sessions : Map (Session T)
  pub responder_candidates : Map (Session T)
  pub pending_init : Map (PendingInitiator H)
  pub responder_cache : Map CachedResponderHandshake
  pub inbound_recovery_preference : TextSet

pub record DecryptedTransport : Type 0 where
  pub peer_name : Text
  pub msg_type : MsgType
  pub payload : Bytes
  pub promoted_responder_session : Bool

unfoldable pub new : {T H : Type 0} → SessionState T H
new = record {
  sessions = [];
  previous_sessions = [];
  responder_candidates = [];
  pending_init = [];
  responder_cache = [];
  inbound_recovery_preference = [];
}

-- `&session.session_id == session_id`
abbrev pub has_id : {T : Type 0} → Bytes → Session T → Bool
has_id id s = ite (bytes_eq s.session_id id) true false

-- `retain(|_, session| !session.is_expired(now))`
abbrev pub live : {T : Type 0} → ℕ → Map (Session T) → Map (Session T)
live now = retain (λ s. not (is_expired s now))

-- The removal of an entry that fits, before a lookup.
abbrev pub drop_if {ℓ} : {V : Type ℓ} → (V → Bool) → Text → Map V → Map V
drop_if test k m = if is_some_and (get k m) test then remove k m else m

unfoldable pub session_id_in_use : {T H : Type 0} → SessionState T H → Bytes → Bool
session_id_in_use st id =
    any_value (has_id id) st.sessions
    || (any_value (has_id id) st.previous_sessions || any_value (has_id id) st.responder_candidates)

unfoldable pub install_active_session :
    {T H : Type 0} → SessionState T H → Text → Session T → SessionState T H
install_active_session st peer_name session = record st {
  inbound_recovery_preference = remove peer_name st.inbound_recovery_preference;
  sessions = insert peer_name session st.sessions;
  previous_sessions = elim (get peer_name st.sessions) [
    | none ↦ st.previous_sessions
    | some previous ↦ insert peer_name previous st.previous_sessions
  ];
}

abbrev map_ok : {A B : Type 0} → (A → B) → Result NoiseError A → Result NoiseError B
map_ok f (ok a) = ok (f a)
map_ok f (err e) = err e

abbrev delivered : Text → Bool → MsgType × Bytes → Option DecryptedTransport
delivered peer_name promoted (msg_type, payload) = some (record {
  peer_name = peer_name;
  msg_type = msg_type;
  payload = payload;
  promoted_responder_session = promoted;
})

module _ (snow : Snow) where
  abbrev State : Type 0
  State = SessionState snow.Transport snow.Handshake

  unfoldable pub encrypt_for_peer :
      State → Text → MsgType → Bytes → ℕ → State × Result NoiseError (Option Bytes)
  encrypt_for_peer st peer_name msg_type payload now =
      let sessions = drop_if (λ s. is_expired s now) peer_name st.sessions in
      let kept = record st {
        previous_sessions = live now st.previous_sessions;
        sessions = sessions;
      } in
      elim (get peer_name sessions) [
        | none ↦ (kept, ok none)
        | some session ↦
            let (session', r) = encrypt snow session msg_type payload in
            (record kept { sessions = insert peer_name session' sessions }, map_ok some r)
      ]

  -- The three maps without their expired sessions.
  unfoldable pub sweep : State → ℕ → State
  sweep st now = record st {
    sessions = live now st.sessions;
    previous_sessions = live now st.previous_sessions;
    responder_candidates = live now st.responder_candidates;
  }

  unfoldable pub decrypt_active :
      State → Text → Bytes → ℕ → Bytes → State × Result NoiseError (Option DecryptedTransport)
  decrypt_active st peer_name session_id counter ciphertext = elim (get peer_name st.sessions) [
    | none ↦ (st, err panicked)
    | some session ↦
        let (session', r) = decrypt snow session session_id counter ciphertext in
        (
          record st { sessions = insert peer_name session' st.sessions },
          map_ok (delivered peer_name false) r,
        )
  ]

  unfoldable pub decrypt_previous :
      State → Text → Bytes → ℕ → Bytes → State × Result NoiseError (Option DecryptedTransport)
  decrypt_previous st peer_name session_id counter ciphertext =
      elim (get peer_name st.previous_sessions) [
        | none ↦ (st, err panicked)
        | some session ↦
            let (session', r) = decrypt snow session session_id counter ciphertext in
            (
              record st { previous_sessions = insert peer_name session' st.previous_sessions },
              map_ok (delivered peer_name false) r,
            )
      ]

  -- An authenticated candidate becomes the active session and ends the exchanges of its peer.
  unfoldable pub promote : State → Text → Session snow.Transport → State
  promote st peer_name session =
      let installed =
        install_active_session
          (record st { responder_candidates = remove peer_name st.responder_candidates }) peer_name
          session in
      record installed {
        pending_init = remove peer_name installed.pending_init;
        responder_cache = remove peer_name installed.responder_cache;
      }

  -- The removal of the candidate that has just been authenticated, and its promotion.
  unfoldable pub take_candidate :
      State → Text → MsgType × Bytes → State × Result NoiseError (Option DecryptedTransport)
  take_candidate st peer_name message = elim (get peer_name st.responder_candidates) [
    | none ↦ (st, err panicked)
    | some session ↦ (promote st peer_name session, ok (delivered peer_name true message))
  ]

  unfoldable pub decrypt_candidate :
      State → Text → Bytes → ℕ → Bytes → State × Result NoiseError (Option DecryptedTransport)
  decrypt_candidate st peer_name session_id counter ciphertext =
      elim (get peer_name st.responder_candidates) [
        | none ↦ (st, err panicked)
        | some session ↦
            let (session', r) = decrypt snow session session_id counter ciphertext in
            let decrypted = record st {
              responder_candidates = insert peer_name session' st.responder_candidates;
            } in
            elim r [
              | ok message ↦ take_candidate decrypted peer_name message
              | err e ↦ (decrypted, err e)
            ]
      ]

  unfoldable pub decrypt_transport :
      State → Bytes → ℕ → Bytes → ℕ → State × Result NoiseError (Option DecryptedTransport)
  decrypt_transport st session_id counter ciphertext now =
      let swept = sweep st now in
      elim (find_key (has_id session_id) swept.sessions) [
        | some peer_name ↦ decrypt_active swept peer_name session_id counter ciphertext
        | none ↦ elim (find_key (has_id session_id) swept.previous_sessions) [
          | some peer_name ↦ decrypt_previous swept peer_name session_id counter ciphertext
          | none ↦ elim (find_key (has_id session_id) swept.responder_candidates) [
            | some peer_name ↦ decrypt_candidate swept peer_name session_id counter ciphertext
            | none ↦ (swept, ok none)
          ]
        ]
      ]

unfoldable pub has_pending_init : {T H : Type 0} → SessionState T H → Text → Bool
has_pending_init st peer_name = is_some (get peer_name st.pending_init)

unfoldable pub has_active_session : {T H : Type 0} → SessionState T H → Text → ℕ → Bool
has_active_session st peer_name clock =
    is_some_and (get peer_name st.sessions) (λ s. not (is_expired s clock))

unfoldable pub active_session_id : {T H : Type 0} → SessionState T H → Text → Option Bytes
active_session_id st peer_name = elim (get peer_name st.sessions) [
  | none ↦ none
  | some session ↦ some session.session_id
]

unfoldable pub invalidate_peer : {T H : Type 0} → SessionState T H → Text → SessionState T H × Bool
invalidate_peer st peer_name = (
  record st {
    sessions = remove peer_name st.sessions;
    previous_sessions = remove peer_name st.previous_sessions;
    responder_candidates = remove peer_name st.responder_candidates;
    pending_init = remove peer_name st.pending_init;
    responder_cache = remove peer_name st.responder_cache;
    inbound_recovery_preference = insert peer_name tt st.inbound_recovery_preference;
  },
  is_some (get peer_name st.sessions)
      || (is_some (get peer_name st.previous_sessions)
          || (is_some (get peer_name st.responder_candidates)
              || is_some (get peer_name st.pending_init))),
)
