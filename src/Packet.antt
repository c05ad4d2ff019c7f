-- ===== src/Packet.antt =====
-- src/packet.rs: the checked view of an IPv4 packet.
pub mod Header
use hushwire.Common.{
  ℕ, ◌*◌, ◌/◌, bit_and, Bool, not, ltb, ◌==◌, if◌then◌else◌, Result, ok, err, length, get_or, take,
  drop, Bytes, from_be_bytes,
}

pub data PacketError : Type 0 where
  too_short : ℕ → PacketError
  not_ipv4 : ℕ → PacketError
  header_too_long : (header_len packet_len : ℕ) → PacketError

-- `Ipv4Packet`, which holds the bytes and is only made by `parse`.
pub record Ipv4Packet : Type 0 where
  pub bytes : Bytes

unfoldable pub parse : Bytes → Result PacketError Ipv4Packet
parse bytes =
    if ltb (length bytes) 20
    then err (too_short (length bytes))
    else let version = get_or bytes 0 0 / 16 in
      if not (version == 4)
      then err (not_ipv4 version)
      else let header_len = bit_and (get_or bytes 0 0) 0x0f * 4 in
        if ltb (length bytes) header_len
        then err (header_too_long header_len (length bytes))
        else ok (record { bytes = bytes })

-- The four bytes at an offset, as the address's number.
unfoldable pub address_at : ℕ → Ipv4Packet → ℕ
address_at offset p = from_be_bytes (take 4 (drop offset p.bytes))

unfoldable pub source : Ipv4Packet → ℕ
unfolding address_at
source p = address_at 12 p

unfoldable pub destination : Ipv4Packet → ℕ
unfolding address_at
destination p = address_at 16 p

unfoldable pub protocol : Ipv4Packet → ℕ
protocol p = get_or p.bytes 9 0
