-- ===== src/Tests/Packets.antt =====
-- Concrete packets, counters and headers.
use hushwire.Common.{
  ℕ, ◌-◌, false, ◌&&◌, List, [], ◌∷◌, ◌++◌, some, ◌≡◌, ◌↔◌, refl, arith, ok, leb, Bytes, replicate,
}
use hushwire.Replay
use hushwire.Replay.{
  ReplayWindow, mark_authenticated, would_accept, record_counter, shift_older, shift_words,
  shift_word, or_word, set_bit, bit_is_set,
}
use hushwire.Replay.Words.{distance_bit}
use hushwire.Replay.Shift.{shift_older_bits}
use hushwire.Replay.History.{run, spec_run, run-spec_run, after, accepted_once}
use hushwire.Auth.{
  handshake_init, keepalive, kind_from_u8, is_handshake, ParsedPacket, handshake_packet,
  transport_packet, decode_body, decode_packet, encode_transport_plaintext,
  decode_transport_plaintext,
}
use hushwire.Auth.Framing.{
  IsParsed, encode, decode_packet-encode, encode-decode_packet, decode-encode_transport_plaintext,
}
use hushwire.Packet.{parse}
use hushwire.Packet.Header.{IsIpv4, parse_iff}
use hushwire.Tests.Samples.{id_a}

abbrev counters : List ℕ
counters = 5 ∷ 3 ∷ 5 ∷ 9000 ∷ 4905 ∷ 4904 ∷ []

run-spec_run_example : run Replay.new counters ≡ spec_run [] counters
run-spec_run_example = run-spec_run counters

accepted_once_example :
    (mark_authenticated (after Replay.new ((7 ∷ 900 ∷ []) ++ 20 ∷ 901 ∷ [])) 20).1 ≡ false
unfolding after mark_authenticated would_accept record_counter shift_older shift_words shift_word
    or_word set_bit bit_is_set Replay.new
accepted_once_example = accepted_once (7 ∷ 900 ∷ []) (901 ∷ []) 20 refl

shift_older_bits_example :
    distance_bit (shift_older (3 ∷ 1 ∷ []) 70) 71
    ≡ (leb 70 71 && distance_bit (3 ∷ 1 ∷ []) (71 - 70))
shift_older_bits_example = shift_older_bits (3 ∷ 1 ∷ []) 70 71 (omega arith) (omega arith)

abbrev sample_transport : ParsedPacket
sample_transport = transport_packet id_a 258 (replicate 20 7)

decode_packet-encode_example : decode_packet (encode sample_transport) ≡ some sample_transport
decode_packet-encode_example =
    decode_packet-encode sample_transport (refl, omega arith, omega arith)

abbrev sample_init : Bytes
sample_init = 3 ∷ 1 ∷ 1 ∷ 2 ∷ 3 ∷ 4 ∷ 5 ∷ 6 ∷ 7 ∷ 8 ∷ 99 ∷ []

encode-decode_packet_example :
    (encode (handshake_packet handshake_init id_a (99 ∷ [])) ≡ sample_init)
    × IsParsed (handshake_packet handshake_init id_a (99 ∷ []))
unfolding decode_packet decode_body kind_from_u8 is_handshake
encode-decode_packet_example =
    encode-decode_packet sample_init (handshake_packet handshake_init id_a (99 ∷ [])) (omega arith)
      refl

decode-encode_transport_plaintext_example :
    decode_transport_plaintext (encode_transport_plaintext keepalive (1 ∷ 2 ∷ []))
    ≡ some (keepalive, 1 ∷ 2 ∷ [])
decode-encode_transport_plaintext_example = decode-encode_transport_plaintext keepalive (1 ∷ 2 ∷ [])

abbrev sample_ip : Bytes
sample_ip = 0x45 ∷ replicate 15 0 ++ 10 ∷ 0 ∷ 0 ∷ 9 ∷ []

parse_iff_example : (parse sample_ip ≡ ok (record { bytes = sample_ip })) ↔ IsIpv4 sample_ip
parse_iff_example = parse_iff sample_ip

abbrev sample_ipv6 : Bytes
sample_ipv6 = 0x60 ∷ replicate 39 0
