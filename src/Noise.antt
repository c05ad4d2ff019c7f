-- ===== src/Noise.antt =====
-- src/noise.rs: a transport session and the two handshake messages, over the state machine of
-- `snow`. An operation returns the session it leaves beside its result, so that what a failed call
-- has changed is kept. The clock and the randomness that the code reads are arguments.
pub mod Counters
pub mod Receive
pub mod Lifetime
pub mod Handshake
use hushwire.Common.{
  ℕ, zero, suc, ◌+◌, ◌-◌, ◌*◌, ◌^◌, Bool, true, false, not, ◌&&◌, ◌||◌, List, [], ◌∷◌, Option, none,
  some, ltb, leb, ◌==◌, if◌then◌else◌, ite, Result, ok, err, length, take, Bytes, bytes_eq, min,
}
use hushwire.Externals.{Snow}
use hushwire.Auth.{
  MsgType, ParsedPacket, handshake_packet, transport_packet, decode_packet, encode_transport,
  encode_transport_plaintext, decode_transport_plaintext, handshake_prologue,
}
use hushwire.Replay
use hushwire.Replay.{ReplayWindow}

-- Instants and durations in nanoseconds.
abbrev pub from_secs : ℕ → ℕ
from_secs s = s * 1_000_000_000

abbrev pub rekey_after_time : ℕ
rekey_after_time = from_secs 120

abbrev pub reject_after_time : ℕ
reject_after_time = from_secs 180

abbrev pub rekey_after_messages : ℕ
rekey_after_messages = 2 ^ 32

abbrev pub aead_tag_size : ℕ
aead_tag_size = 16

abbrev pub max_noise_message_size : ℕ
max_noise_message_size = 65_535

abbrev pub u64_max : ℕ
u64_max = 2 ^ 64 - 1

-- `panicked` is a failed `expect` of the caller; the theorems on the session table exclude it.
pub data NoiseError : Type 0 where
  snow_error missing_remote_static remote_static_mismatch invalid_session_id : NoiseError
  wrong_session malformed_transport replay_error counter_exhausted panicked : NoiseError

pub record Session (T : Type 0) : Type 0 where
  pub session_id : Bytes
  pub transport : T
  pub created_at : ℕ
  pub send_counter : ℕ
  pub received_messages : ℕ
  pub replay : ReplayWindow

unfoldable pub new_session : {T : Type 0} → Bytes → T → ℕ → Session T
new_session session_id transport clock = record {
  session_id = session_id;
  transport = transport;
  created_at = clock;
  send_counter = 0;
  received_messages = 0;
  replay = Replay.new;
}

unfoldable pub should_rekey : {T : Type 0} → Session T → ℕ → Bool
should_rekey s now =
    leb rekey_after_time (now - s.created_at)
    || (leb rekey_after_messages s.send_counter || leb rekey_after_messages s.received_messages)

unfoldable pub is_expired : {T : Type 0} → Session T → ℕ → Bool
is_expired s now = leb reject_after_time (now - s.created_at) || s.send_counter == u64_max

module _ (snow : Snow) where
  -- The encryption under the counter that `encrypt` has reserved.
  unfoldable pub seal : Session snow.Transport → ℕ → MsgType → Bytes → Result NoiseError Bytes
  seal s counter msg_type payload =
      let plaintext = encode_transport_plaintext msg_type payload in
      elim (snow.write_message s.transport counter plaintext (length plaintext + aead_tag_size)) [
        | none ↦ err snow_error
        | some ciphertext ↦ ok (encode_transport s.session_id counter ciphertext)
      ]

  unfoldable pub encrypt :
      Session snow.Transport → MsgType → Bytes → Session snow.Transport × Result NoiseError Bytes
  encrypt s msg_type payload =
      if s.send_counter == u64_max
      then (s, err counter_exhausted)
      else (record s { send_counter = s.send_counter + 1 }, seal s s.send_counter msg_type payload)

  -- What follows the authentication: the window, the count of messages, the message type.
  unfoldable pub accept_plaintext :
      Session snow.Transport
      → ℕ
      → Bytes
      → Session snow.Transport × Result NoiseError (MsgType × Bytes)
  accept_plaintext s counter plaintext =
      let (window, fresh) = Replay.mark_authenticated s.replay counter in
      if not fresh then (s, err replay_error) else (
        record s { replay = window; received_messages = min (s.received_messages + 1) u64_max },
        elim (decode_transport_plaintext plaintext) [
          | none ↦ err malformed_transport
          | some message ↦ ok message
        ],
      )

  unfoldable pub decrypt :
      Session snow.Transport
      → Bytes
      → ℕ
      → Bytes
      → Session snow.Transport × Result NoiseError (MsgType × Bytes)
  decrypt s session_id counter ciphertext =
      ite (bytes_eq session_id s.session_id)
        (if not (Replay.would_accept s.replay counter)
          then (s, err replay_error)
          else if ltb (length ciphertext) (aead_tag_size + 1)
          then (s, err malformed_transport)
          else elim (snow.read_message s.transport counter ciphertext
              (length ciphertext - aead_tag_size)) [
                | none ↦ (s, err snow_error)
                | some plaintext ↦ accept_plaintext s counter plaintext
              ])
        (s, err wrong_session)

  unfoldable pub decrypt_packet :
      Session snow.Transport → Bytes → Session snow.Transport × Result NoiseError (MsgType × Bytes)
  decrypt_packet s packet = elim (decode_packet packet) [
    | none ↦ (s, err malformed_transport)
    | some parsed ↦ elim parsed [
      | handshake_packet kind handshake_id message ↦ (s, err malformed_transport)
      | transport_packet session_id counter ciphertext ↦ decrypt s session_id counter ciphertext
    ]
  ]
