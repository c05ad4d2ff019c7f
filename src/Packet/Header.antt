-- ===== src/Packet/Header.antt =====
-- Which byte strings are taken for IPv4 packets, and which error the others give.
use hushwire.Common.{
  ◌*◌, ◌/◌, ◌%◌, ◌≤◌, ◌≡◌, ◌↔◌, arith, ok, length, get_or, Bytes, bit_and_fifteen,
}
use hushwire.Packet.{parse}

-- A fixed header of 20 bytes, version 4, and no header longer than the packet.
pub record IsIpv4 (bytes : Bytes) : Type 0 where
  pub fixed : 20 ≤ length bytes
  pub version : get_or bytes 0 0 / 16 ≡ 4
  pub header : get_or bytes 0 0 % 16 * 4 ≤ length bytes

-- The bytes accepted as an IPv4 packet, and kept whole, are exactly those of at least 20 bytes
-- with version 4 whose header length is not above the length.
pub parse_iff : (bytes : Bytes) → (parse bytes ≡ ok (record { bytes = bytes })) ↔ IsIpv4 bytes
unfolding parse
parse_iff bytes = (
  λ h. record {
    fixed = ground (arith, bit_and_fifteen (get_or bytes 0 0));
    version = ground (arith, bit_and_fifteen (get_or bytes 0 0));
    header = ground (arith, bit_and_fifteen (get_or bytes 0 0));
  },
  λ v. ground (arith, bit_and_fifteen (get_or bytes 0 0)),
)
