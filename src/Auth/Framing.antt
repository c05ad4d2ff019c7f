-- ===== src/Auth/Framing.antt =====
-- Encoding and decoding are inverse: what the encoders write is read back, and every packet that
-- is read is what the encoder writes for the result.
use hushwire.Common.{
  ℕ, ◌+◌, ◌^◌, ◌≤◌, ◌<◌, true, [], ◌∷◌, ◌++◌, some, ◌≡◌, inl, inr, refl, sym, ap, arith, ltb, ◌==◌,
  length, take, drop, Bytes, IsBytes, to_be_bytes, from_be_bytes, length-append, take_at, drop_at,
  drop-drop, All-take, All-drop, Bool-cases, Option-cases, take-append-drop, length-take,
  length-drop, length-to_be_bytes, from_be_bytes-to_be_bytes, from_be_bytes-lt, subst,
  to_be_bytes-from_be_bytes,
}
use hushwire.Auth.{
  PacketKind, transport, handshake_init, handshake_response, kind_byte, kind_from_u8, is_handshake,
  MsgType, data_msg, keepalive, msg_type_byte, msg_type_from_u8, ParsedPacket, handshake_packet,
  transport_packet, encode_handshake, encode_transport, decode_body, decode_packet,
  encode_transport_plaintext, decode_transport_plaintext,
}

kind_from_u8-kind_byte : (k : PacketKind) → kind_from_u8 (kind_byte k) ≡ some k
unfolding kind_from_u8 kind_byte
kind_from_u8-kind_byte transport = refl
kind_from_u8-kind_byte handshake_init = refl
kind_from_u8-kind_byte handshake_response = refl

kind_byte-kind_from_u8 : (v : ℕ) (k : PacketKind) → kind_from_u8 v ≡ some k → kind_byte k ≡ v
unfolding kind_from_u8 kind_byte
kind_byte-kind_from_u8 v k h = ground arith

-- The fields of a packet that a decoder can return.
abbrev pub IsParsed : ParsedPacket → Type 0
IsParsed (handshake_packet kind id message) =
    (is_handshake kind ≡ true) × (length id ≡ 8) × (0 < length message)
IsParsed (transport_packet id counter ciphertext) =
    (length id ≡ 8) × (counter < 2 ^ 64) × (17 ≤ length ciphertext)

-- The encoder for each kind of packet.
unfoldable pub encode : ParsedPacket → Bytes
encode (handshake_packet kind id message) = encode_handshake kind id message
encode (transport_packet id counter ciphertext) = encode_transport id counter ciphertext

decode-encode_handshake :
    (kind : PacketKind) (id message : Bytes)
    → IsParsed (handshake_packet kind id message)
    → decode_packet (encode_handshake kind id message) ≡ some (handshake_packet kind id message)
unfolding decode_packet decode_body encode_handshake
decode-encode_handshake kind id message h = ground (
  arith,
  kind_from_u8-kind_byte kind,
  length-append id message,
  take_at 8 id message h.1,
  drop_at 8 id message h.1,
)

decode-encode_transport :
    (id : Bytes) (counter : ℕ) (ciphertext : Bytes)
    → IsParsed (transport_packet id counter ciphertext)
    → decode_packet (encode_transport id counter ciphertext)
      ≡ some (transport_packet id counter ciphertext)
unfolding decode_packet decode_body encode_transport is_handshake kind_byte kind_from_u8
decode-encode_transport id counter ciphertext h =
    let bytes = to_be_bytes 8 counter in
    ground (
      arith,
      length-append id (bytes ++ ciphertext),
      length-append bytes ciphertext,
      length-to_be_bytes 8 counter,
      take_at 8 id (bytes ++ ciphertext) h.0,
      drop_at 8 id (bytes ++ ciphertext) h.0,
      take_at 8 bytes ciphertext,
      drop_at 8 bytes ciphertext,
      drop-drop 8 8 (id ++ (bytes ++ ciphertext)),
      from_be_bytes-to_be_bytes 8 counter h.1,
    )

-- A handshake or transport packet whose fields have the right sizes is read back from its
-- encoding.
pub decode_packet-encode : (p : ParsedPacket) → IsParsed p → decode_packet (encode p) ≡ some p
unfolding encode
decode_packet-encode (handshake_packet kind id message) h =
    decode-encode_handshake kind id message h
decode_packet-encode (transport_packet id counter ciphertext) h =
    decode-encode_transport id counter ciphertext h

counter_bytes :
    (rest : Bytes)
    → IsBytes rest
    → 33 ≤ length rest
    → take 8 rest ++ (to_be_bytes 8 (from_be_bytes (take 8 (drop 8 rest))) ++ drop 16 rest) ≡ rest
counter_bytes rest w l =
    let head = take 8 (drop 8 rest) in
    let sized : length head ≡ 8 = omega (arith, length-take 8 (drop 8 rest), length-drop 8 rest) in
    let e : to_be_bytes 8 (from_be_bytes head) ≡ head =
      rw sized at (to_be_bytes-from_be_bytes head (All-take _ 8 _ (All-drop _ 8 rest w))) in
    rw (e, ← drop-drop 8 8 rest, take-append-drop 8 (drop 8 rest)) (take-append-drop 8 rest)

transport_body-Reads :
    (rest : Bytes) (p : ParsedPacket)
    → IsBytes rest
    → decode_body transport (take 8 rest) (3 ∷ kind_byte transport ∷ rest) ≡ some p
    → (encode p ≡ 3 ∷ kind_byte transport ∷ rest) × IsParsed p
unfolding decode_body encode encode_transport is_handshake
transport_body-Reads rest p w h = elim (Bool-cases (ltb (2 + length rest) 35)) [
  | inl short ↦ absurd (ground arith)
  | inr long ↦
      let result : ParsedPacket =
        transport_packet (take 8 rest) (from_be_bytes (take 8 (drop 8 rest))) (drop 16 rest) in
      let e : result ≡ p = ground arith in
      let enough : 33 ≤ length rest = ground arith in
      let counter : length (take 8 (drop 8 rest)) ≡ 8 =
        omega (arith, length-take 8 (drop 8 rest), length-drop 8 rest) in
      let bound : from_be_bytes (take 8 (drop 8 rest)) < 2 ^ 64 =
        rw counter at
          (from_be_bytes-lt (take 8 (drop 8 rest)) (All-take _ 8 _ (All-drop _ 8 rest w))) in
      subst (λ q. (encode q ≡ 3 ∷ kind_byte transport ∷ rest) × IsParsed q) e
        (
          ap (λ r. 3 ∷ kind_byte transport ∷ r) (counter_bytes rest w enough),
          omega (arith, length-take 8 rest, length-drop 16 rest, bound),
        )
]

handshake_body-Reads :
    (kind : PacketKind) (rest : Bytes) (p : ParsedPacket)
    → is_handshake kind ≡ true
    → 8 ≤ length rest
    → decode_body kind (take 8 rest) (3 ∷ kind_byte kind ∷ rest) ≡ some p
    → (encode p ≡ 3 ∷ kind_byte kind ∷ rest) × IsParsed p
unfolding decode_body encode encode_handshake
handshake_body-Reads kind rest p k l h = elim (Bool-cases (length (drop 8 rest) == 0)) [
  | inl empty ↦ absurd (ground arith)
  | inr full ↦
      let e : handshake_packet kind (take 8 rest) (drop 8 rest) ≡ p = ground arith in
      subst (λ q. (encode q ≡ 3 ∷ kind_byte kind ∷ rest) × IsParsed q) e
        (
          ap (λ r. 3 ∷ kind_byte kind ∷ r) (take-append-drop 8 rest),
          (k, omega (arith, length-take 8 rest), ground arith),
        )
]

decode_body-Reads :
    (kind : PacketKind) (rest : Bytes) (p : ParsedPacket)
    → IsBytes rest
    → 8 ≤ length rest
    → decode_body kind (take 8 rest) (3 ∷ kind_byte kind ∷ rest) ≡ some p
    → (encode p ≡ 3 ∷ kind_byte kind ∷ rest) × IsParsed p
unfolding is_handshake
decode_body-Reads transport rest p w l h = transport_body-Reads rest p w h
decode_body-Reads handshake_init rest p w l h = handshake_body-Reads handshake_init rest p refl l h
decode_body-Reads handshake_response rest p w l h =
    handshake_body-Reads handshake_response rest p refl l h

-- A packet of bytes that is accepted is exactly the encoding of what was read from it, and the
-- fields read have the sizes that the encoder writes.
pub encode-decode_packet :
    (packet : Bytes) (p : ParsedPacket)
    → IsBytes packet
    → decode_packet packet ≡ some p
    → (encode p ≡ packet) × IsParsed p
unfolding decode_packet
encode-decode_packet [] p w h = absurd (ground arith)
encode-decode_packet (v ∷ []) p w h = absurd (ground arith)
encode-decode_packet (v ∷ k ∷ rest) p w h = elim (Option-cases (kind_from_u8 k)) [
  | inl unknown ↦ absurd (ground arith)
  | inr (kind, known) ↦
      let version : v ≡ 3 = ground arith in
      let byte : k ≡ kind_byte kind = sym (kind_byte-kind_from_u8 k kind known) in
      let long : 8 ≤ length rest = ground arith in
      let body : decode_body kind (take 8 rest) (v ∷ k ∷ rest) ≡ some p = ground arith in
      rw (version, byte) (decode_body-Reads kind rest p w.1.1 long (rw (version, byte) at body))
]

-- The message type and the payload of a plaintext are read back from its encoding.
pub decode-encode_transport_plaintext :
    (msg_type : MsgType) (payload : Bytes)
    → decode_transport_plaintext (encode_transport_plaintext msg_type payload)
      ≡ some (msg_type, payload)
unfolding decode_transport_plaintext encode_transport_plaintext msg_type_byte msg_type_from_u8
decode-encode_transport_plaintext data_msg payload = refl
decode-encode_transport_plaintext keepalive payload = refl
