-- ===== src/Auth.antt =====
-- src/auth.rs: the public header of handshake and transport packets, and the message type inside
-- the encrypted payload.
pub mod Framing
use hushwire.Common.{
  ℕ, ◌+◌, ◌^◌, Bool, true, false, not, ◌||◌, List, [], ◌∷◌, ◌++◌, Option, none, some, ltb, leb,
  ◌==◌, if◌then◌else◌, ◌>>=◌, length, get_or, take, drop, Bytes, to_be_bytes, from_be_bytes,
}

abbrev pub wire_version : ℕ
wire_version = 0x03

abbrev pub session_id_size : ℕ
session_id_size = 8

abbrev pub counter_size : ℕ
counter_size = 8

abbrev pub handshake_header_size : ℕ
handshake_header_size = 1 + 1 + session_id_size

abbrev pub transport_header_size : ℕ
transport_header_size = handshake_header_size + counter_size

abbrev pub min_transport_packet_size : ℕ
min_transport_packet_size = transport_header_size + 1 + 16

abbrev pub keepalive_probe_payload : Bytes
keepalive_probe_payload = 0x01 ∷ []

abbrev pub keepalive_ack_payload : Bytes
keepalive_ack_payload = 0x02 ∷ []

-- b"HushWire-v3-handshake"
abbrev pub handshake_prologue_prefix : Bytes
handshake_prologue_prefix =
    b'H' ∷ b'u' ∷ b's' ∷ b'h' ∷ b'W' ∷ b'i' ∷ b'r' ∷ b'e' ∷ b'-' ∷ b'v' ∷ b'3' ∷ b'-' ∷ b'h' ∷ b'a'
    ∷ b'n' ∷ b'd' ∷ b's' ∷ b'h' ∷ b'a' ∷ b'k' ∷ b'e' ∷ []

pub data PacketKind : Type 0 where
  transport handshake_init handshake_response : PacketKind

-- `kind as u8`
unfoldable pub kind_byte : PacketKind → ℕ
kind_byte transport = 0x00
kind_byte handshake_init = 0x01
kind_byte handshake_response = 0x02

-- `PacketKind::from_u8`
unfoldable pub kind_from_u8 : ℕ → Option PacketKind
kind_from_u8 value =
    if value == 0x00
    then some transport
    else if value == 0x01
    then some handshake_init
    else if value == 0x02
    then some handshake_response
    else none

unfoldable pub is_handshake : PacketKind → Bool
is_handshake transport = false
is_handshake handshake_init = true
is_handshake handshake_response = true

-- `MsgType`; `Data` is `data_msg`.
pub data MsgType : Type 0 where
  data_msg keepalive : MsgType

unfoldable pub msg_type_byte : MsgType → ℕ
msg_type_byte data_msg = 0x00
msg_type_byte keepalive = 0x01

-- `MsgType::from_u8`
unfoldable pub msg_type_from_u8 : ℕ → Option MsgType
msg_type_from_u8 value =
    if value == 0x00 then some data_msg else if value == 0x01 then some keepalive else none

pub data ParsedPacket : Type 0 where
  handshake_packet : (kind : PacketKind) (handshake_id message : Bytes) → ParsedPacket
  transport_packet : (session_id : Bytes) (counter : ℕ) (ciphertext : Bytes) → ParsedPacket

unfoldable pub encode_handshake : PacketKind → Bytes → Bytes → Bytes
encode_handshake kind handshake_id message =
    wire_version ∷ kind_byte kind ∷ (handshake_id ++ message)

unfoldable pub encode_transport : Bytes → ℕ → Bytes → Bytes
encode_transport session_id counter ciphertext =
    wire_version
    ∷ kind_byte transport
    ∷ (session_id ++ (to_be_bytes counter_size counter ++ ciphertext))

-- The rest of `decode_packet`, once the kind is known.
unfoldable pub decode_body : PacketKind → Bytes → Bytes → Option ParsedPacket
decode_body kind id packet =
    if is_handshake kind
    then (if length (drop handshake_header_size packet) == 0
        then none
        else some (handshake_packet kind id (drop handshake_header_size packet)))
    else if ltb (length packet) min_transport_packet_size
    then none
    else some (
        transport_packet id (from_be_bytes (take counter_size (drop handshake_header_size packet)))
          (drop transport_header_size packet))

unfoldable pub decode_packet : Bytes → Option ParsedPacket
decode_packet packet =
    if ltb (length packet) handshake_header_size || not (get_or packet 0 0 == wire_version)
    then none
    else do
      kind ← kind_from_u8 (get_or packet 1 0)
      decode_body kind (take session_id_size (drop 2 packet)) packet

unfoldable pub encode_transport_plaintext : MsgType → Bytes → Bytes
encode_transport_plaintext msg_type payload = msg_type_byte msg_type ∷ payload

unfoldable pub decode_transport_plaintext : Bytes → Option (MsgType × Bytes)
decode_transport_plaintext [] = none
decode_transport_plaintext (first ∷ payload) = do
  msg_type ← msg_type_from_u8 first
  some (msg_type, payload)

unfoldable pub handshake_prologue : Bytes → Bytes
handshake_prologue handshake_id = handshake_prologue_prefix ++ wire_version ∷ handshake_id
