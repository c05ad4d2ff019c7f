-- ===== src/Config.antt =====
-- src/config.rs: configurations, the resolution of endpoints and the keys.
pub mod Characters
pub mod Endpoint
pub mod Validate
use hushwire.Common.{
  ℕ, ◌*◌, max, Bool, true, false, List, [], ◌∷◌, Option, none, some, ltb, ◌==◌, if◌then◌else◌,
  ◌>>=◌, length, Bytes, ℕ_discrete,
}
use hushwire.Common.Maps.{Text}
use hushwire.Externals.{Keys}

-- `std::net::IpAddr`, by the address's number.
pub data IpAddr : Type 0 where
  v4 v6 : ℕ → IpAddr

-- `std::net::SocketAddr`; the last two fields are those of an IPv6 address, and 0 with IPv4.
pub record SocketAddr : Type 0 where
  pub ip : IpAddr
  pub port : ℕ
  pub flowinfo : ℕ
  pub scope_id : ℕ

unfoldable pub IpAddr-discrete : Discrete IpAddr
unfolding ℕ_discrete
IpAddr-discrete = hlevel ℕ_discrete

unfoldable pub SocketAddr-discrete : Discrete SocketAddr
unfolding ℕ_discrete
SocketAddr-discrete = hlevel ℕ_discrete

-- `IpAddr::is_unspecified`
unfoldable pub is_unspecified : IpAddr → Bool
is_unspecified (v4 a) = a == 0
is_unspecified (v6 a) = a == 0

unfoldable pub is_ipv4 : SocketAddr → Bool
is_ipv4 address = elim address.ip [ v4 a ↦ true | v6 a ↦ false ]

pub data TransportConfig : Type 0 where
  udp tcp : TransportConfig

pub record PeerEndpoint : Type 0 where
  pub host : Text
  pub port : ℕ
  pub literal : Option SocketAddr

-- The system's resolver; `none` is its error.
abbrev pub Dns : Type 0
Dns = Text → ℕ → Option (List SocketAddr)

first_ipv4 : List SocketAddr → Option SocketAddr
first_ipv4 [] = none
first_ipv4 (a ∷ addresses) = if is_ipv4 a then some a else first_ipv4 addresses

unfoldable pub resolve : Dns → PeerEndpoint → Option SocketAddr
unfolding first_ipv4
resolve dns e = elim e.literal [
  | some literal ↦ some literal
  | none ↦ elim (dns e.host e.port) [
    | none ↦ none
    | some addresses ↦ elim (first_ipv4 addresses) [
      | some a ↦ some a
      | none ↦ elim addresses [ [] ↦ none | a ∷ rest ↦ some a ]
    ]
  ]
]

pub record PeerConfig (Net : Type 0) : Type 0 where
  pub name : Text
  pub endpoint : PeerEndpoint
  pub allowed_ips : List Net
  pub excluded_ips : List Net
  pub psk : Text
  pub public_key : Text
  pub persistent_keepalive : ℕ
  pub udp_rebind_after : ℕ
  pub session_timeout : Option ℕ

pub record InterfaceConfig (Net : Type 0) : Type 0 where
  pub name : Text
  pub address : Net
  pub listen : SocketAddr
  pub transport : TransportConfig
  pub mtu : ℕ
  pub private_key : Text

pub record GatewayConfig : Type 0 where
  pub lan_interface : Text
  pub tcp_mss : Option ℕ

pub record Config (Net : Type 0) : Type 0 where
  pub interface : InterfaceConfig Net
  pub gateway : Option GatewayConfig
  pub peer : List (PeerConfig Net)

unfoldable pub effective_session_timeout : {Net : Type 0} → PeerConfig Net → TransportConfig → ℕ
effective_session_timeout p transport = elim p.session_timeout [
  | some timeout ↦ timeout
  | none ↦ elim transport [
    | udp ↦ 0
    | tcp ↦ if ltb 0 p.persistent_keepalive then max (p.persistent_keepalive * 3) 15 else 0
  ]
]

unfoldable pub decode_key : Keys → Text → Option Bytes
decode_key keys key = do
  bytes ← keys.decode_base64 key
  if length bytes == 32 then some bytes else none
