-- ===== src/Tests/Ends.antt =====
-- Two ends of a session, and the table of sessions of one end.
use hushwire.Common.{
  ◌-◌, true, false, not, [], ◌∷◌, ◌++◌, some, ◌≡◌, ◌≢◌, ◌⊎◌, refl, arith, ok, err, Bytes, bytes_eq,
  ℕ_discrete, length,
}
use hushwire.Common.Maps.{Text, get}
use hushwire.Replay
use hushwire.Replay.{
  mark_authenticated, would_accept, record_counter, shift_older, shift_words, shift_word, or_word,
  set_bit, bit_is_set,
}
use hushwire.Auth.{
  data_msg, keepalive, encode_transport, msg_type_byte, msg_type_from_u8,
  encode_transport_plaintext, decode_transport_plaintext,
}
use hushwire.Noise.{
  replay_error, panicked, Session, new_session, is_expired, should_rekey, from_secs, seal, encrypt,
  accept_plaintext, decrypt, decrypt_packet,
}
use hushwire.Noise.Counters.{Increasing, send_all, send_all-Increasing}
use hushwire.Noise.Receive.{receive_all, decrypt_unchanged, decrypt_packet-encrypt, decrypt_once}
use hushwire.Noise.Lifetime.{rekey_before_reject}
use hushwire.Sessions
use hushwire.Sessions.{SessionState, PendingInitiator, decrypt_transport}
use hushwire.Sessions.Exchange.{
  store_responder_candidate, accept_inbound_initiation, start_or_retry_handshake,
  finalize_initiator,
}
use hushwire.Sessions.Invariant.{IsWellFormed, new-IsWellFormed}
use hushwire.Sessions.Handshakes.{store_responder_candidate-IsWellFormed}
use hushwire.Sessions.Initiator.{start_or_retry_handshake-IsWellFormed}
use hushwire.Sessions.Expects.{decrypt_transport_no_panic, finalize_initiator_no_panic}
use hushwire.Sessions.Interleaving.{begin, initiates, finalizes, Interleaved-IsWellFormed}
use hushwire.Sessions.TieBreak.{IsWaiting, accept_inbound_initiation-one}
use hushwire.Tests.Samples.{sample_snow, sample_laws, sample_pair, tag, id_a, id_b, sample_entropy}

abbrev near_end : Session (Unit {0})
near_end = new_session id_a tt 0

abbrev far_end : Session (Unit {0})
far_end = new_session id_a tt 5

abbrev sealed_data : Bytes
sealed_data = 0 ∷ 1 ∷ 2 ∷ [] ++ tag

decrypt_packet-encrypt_example :
    (decrypt_packet sample_snow far_end (encode_transport id_a 0 sealed_data)).1
    ≡ ok (data_msg, 1 ∷ 2 ∷ [])
unfolding new_session encrypt seal would_accept Replay.new encode_transport_plaintext msg_type_byte
decrypt_packet-encrypt_example =
    decrypt_packet-encrypt sample_snow sample_laws near_end far_end data_msg (1 ∷ 2 ∷ [])
      (encode_transport id_a 0 sealed_data) sample_pair refl refl (omega arith) refl refl

decrypt_once_example :
    (decrypt sample_snow
      (receive_all sample_snow
        (decrypt sample_snow
          (receive_all sample_snow (new_session id_a tt 0) ((id_a, 4, sealed_data) ∷ []))
          id_a
          3
          sealed_data).0
        ((id_a, 5, sealed_data) ∷ []))
      id_a
      3
      sealed_data).1
    ≡ err replay_error
unfolding new_session receive_all decrypt accept_plaintext decode_transport_plaintext
    msg_type_from_u8 mark_authenticated would_accept record_counter shift_older shift_words
    shift_word or_word set_bit bit_is_set Replay.new bytes_eq ℕ_discrete
decrypt_once_example =
    decrypt_once sample_snow id_a tt 0 ((id_a, 4, sealed_data) ∷ []) ((id_a, 5, sealed_data) ∷ []) 3
      sealed_data sealed_data (data_msg, 1 ∷ 2 ∷ []) refl

send_all-Increasing_example :
    Increasing sample_snow tt 0
      (send_all sample_snow (new_session id_a tt 0) ((data_msg, 1 ∷ []) ∷ (keepalive, []) ∷ []))
send_all-Increasing_example =
    send_all-Increasing sample_snow sample_laws id_a tt 0
      ((data_msg, 1 ∷ []) ∷ (keepalive, []) ∷ []) refl

decrypt_unchanged_example :
    ((decrypt sample_snow far_end id_a 3 sealed_data).0 ≡ far_end)
    ⊎ ((id_a ≡ far_end.session_id)
        × (would_accept far_end.replay 3 ≡ true)
        × ((plaintext : Bytes) × (sample_snow.read_message far_end.transport 3 sealed_data
                (length sealed_data - 16)
              ≡ some plaintext)))
decrypt_unchanged_example = decrypt_unchanged sample_snow far_end id_a 3 sealed_data

rekey_before_reject_example : should_rekey near_end (from_secs 150) ≡ true
unfolding new_session is_expired
rekey_before_reject_example =
    rekey_before_reject near_end (from_secs 200) refl (from_secs 150) (omega arith)

abbrev peer_name : Text
peer_name = 97 ∷ []

abbrev with_candidate : SessionState (Unit {0}) (Unit {0})
with_candidate = (store_responder_candidate Sessions.new peer_name near_end id_b [] [] 0).0

decrypt_transport_no_panic_example :
    (decrypt_transport sample_snow with_candidate id_a 0 sealed_data (from_secs 1)).1 ≢ err panicked
decrypt_transport_no_panic_example =
    decrypt_transport_no_panic sample_snow with_candidate id_a 0 sealed_data (from_secs 1) (
      store_responder_candidate-IsWellFormed Sessions.new peer_name near_end id_b [] [] 0
        new-IsWellFormed)

abbrev with_initiation : SessionState (Unit {0}) (Unit {0})
with_initiation =
    (start_or_retry_handshake sample_snow Sessions.new peer_name [] [] [] 0
      (sample_entropy peer_name)).0

finalize_initiator_no_panic_example :
    (finalize_initiator sample_snow with_initiation id_a id_b (from_secs 1)).1 ≢ err panicked
finalize_initiator_no_panic_example =
    finalize_initiator_no_panic sample_snow with_initiation id_a id_b (from_secs 1) (
      start_or_retry_handshake-IsWellFormed sample_snow Sessions.new peer_name [] [] [] 0
        (sample_entropy peer_name) new-IsWellFormed)

abbrev waiting : Bytes → PendingInitiator (Unit {0})
waiting id = record {
  handshake_id = id;
  state = record { handshake_id = id; state = tt };
  packet = [];
  created_at = 0;
  last_sent = 0;
}

abbrev with_waiting : Bytes → SessionState (Unit {0}) (Unit {0})
with_waiting id = record Sessions.new { pending_init = (peer_name, waiting id) ∷ [] }

accept_inbound_initiation-one_example :
    (accept_inbound_initiation (with_waiting id_a) peer_name id_b false (from_secs 2)).1
    ≡ not (accept_inbound_initiation (with_waiting id_b) peer_name id_a false (from_secs 3)).1
unfolding IsWaiting get bytes_eq ℕ_discrete
accept_inbound_initiation-one_example =
    accept_inbound_initiation-one (with_waiting id_a) (with_waiting id_b) peer_name peer_name
      (from_secs 2) (from_secs 3) (waiting id_a) (waiting id_b) (refl, refl) (refl, refl)
      (λ e. ground arith)

Interleaved-IsWellFormed_example :
    IsWellFormed (finalize_initiator sample_snow with_initiation id_a id_b (from_secs 1)).0
Interleaved-IsWellFormed_example = Interleaved-IsWellFormed sample_snow (
    finalizes with_initiation id_a id_b (from_secs 1)
      (initiates Sessions.new peer_name [] [] [] 0 (sample_entropy peer_name) begin))
