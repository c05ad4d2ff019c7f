-- ===== src/Externals.antt =====
-- The third-party crates behind the code, as parameters: `ipnet`, `snow`, `x25519_dalek` and
-- `base64`. What the proofs rely on is stated in separate records of hypotheses.
use hushwire.Common.{ℕ, ◌+◌, ◌≡◌, Bool, Option, some, Bytes, length}
use hushwire.Common.Maps.{Text}

-- `ipnet::Ipv4Net`; an address is its 32-bit number.
pub record Ipnet : Type 1 where
  pub Net : Type 0
  pub net_eq : Discrete Net
  pub prefix_len : Net → ℕ
  pub network : Net → ℕ
  pub contains : Net → ℕ → Bool

-- `snow`: a failed call is `none`. A write names the room in its buffer, and a handshake write the
-- randomness that it draws.
pub record Snow : Type 1 where
  pub Transport : Type 0
  pub Handshake : Type 0
  pub write_message : Transport → (nonce : ℕ) → (payload : Bytes) → (room : ℕ) → Option Bytes
  pub read_message : Transport → (nonce : ℕ) → (message : Bytes) → (room : ℕ) → Option Bytes
  pub build_initiator : (private_key remote_key psk prologue : Bytes) → Option Handshake
  pub build_responder : (private_key psk prologue : Bytes) → Option Handshake
  pub write_handshake :
      Handshake → (payload entropy : Bytes) → (room : ℕ) → Option (Bytes × Handshake)
  pub read_handshake : Handshake → (message : Bytes) → (room : ℕ) → Option (Bytes × Handshake)
  pub remote_static : Handshake → Option Bytes
  pub into_transport : Handshake → Option Transport

-- A transport message is as long as its payload and the 16-byte tag.
pub record SnowLaws (snow : Snow) : Type 0 where
  pub sealed_length :
      (t : snow.Transport) (nonce : ℕ) (payload : Bytes) (room : ℕ) (message : Bytes)
      → snow.write_message t nonce payload room ≡ some message
      → length message ≡ length payload + 16

-- What one end of a session seals under a nonce, the other opens under it.
pub record Pair (snow : Snow) (near far : snow.Transport) : Type 0 where
  pub opens :
      (nonce : ℕ) (payload : Bytes) (room : ℕ) (message : Bytes)
      → snow.write_message near nonce payload room ≡ some message
      → snow.read_message far nonce message (length payload) ≡ some payload

-- `base64`'s standard alphabet, and the key types of `x25519_dalek` by their bytes.
pub record Keys : Type 0 where
  pub decode_base64 : Text → Option Bytes
  pub public_key : Bytes → Bytes
  pub static_secret : Bytes → Bytes
