-- ===== src/Config/Validate.antt =====
-- src/config.rs: `Config::validate`, check by check, and `Config::parse`.
pub mod Sound
pub mod Accepted
pub mod Starts
use hushwire.Common.{
  ℕ, ◌-◌, Bool, true, false, not, ◌&&◌, ◌||◌, List, [], ◌∷◌, Option, none, some, ltb, leb, ◌==◌,
  if◌then◌else◌, ite, Result, ok, err, length, Bytes,
}
use hushwire.Common.Maps.{Text, text_eq, Map, get, insert, TextSet, contains_key}
use hushwire.Externals.{Ipnet, Keys}
use hushwire.Config.{
  TransportConfig, udp, tcp, PeerConfig, InterfaceConfig, GatewayConfig, Config, decode_key,
}
use hushwire.Config.Characters.{trim, is_empty, is_alphanumeric, all_chars}

pub data ConfigError (Net : Type 0) : Type 0 where
  parse_error : ConfigError Net
  empty_interface_name empty_peer_name : ConfigError Net
  duplicate_peer_name : (name : Text) → ConfigError Net
  duplicate_peer_psk duplicate_peer_public_key : (first second : Text) → ConfigError Net
  peer_without_allowed_ips : (name : Text) → ConfigError Net
  duplicate_excluded_ip excluded_ip_not_covered : (peer : Text) (prefix : Net) → ConfigError Net
  excluded_default_route : (name : Text) → ConfigError Net
  mtu_too_small : (mtu : ℕ) → ConfigError Net
  empty_gateway_lan_interface : ConfigError Net
  invalid_gateway_interface_name identical_gateway_interfaces : (name : Text) → ConfigError Net
  gateway_mss_out_of_range : (mss minimum maximum mtu : ℕ) → ConfigError Net
  invalid_psk invalid_public_key : (name : Text) → ConfigError Net
  invalid_private_key : ConfigError Net
  udp_rebind_requires_udp udp_rebind_requires_keepalive : (name : Text) → ConfigError Net
  udp_rebind_too_soon : (peer : Text) (rebind_after keepalive : ℕ) → ConfigError Net
  session_timeout_requires_keepalive : (name : Text) → ConfigError Net
  session_timeout_too_soon : (peer : Text) (timeout keepalive : ℕ) → ConfigError Net

-- The code's `?`.
unfoldable pub and_then : {E A B : Type 0} → Result E A → (A → Result E B) → Result E B
and_then (ok a) f = f a
and_then (err e) f = err e

infixl 5 ◌>>=◌
abbrev pub ◌>>=◌ : {E A B : Type 0} → Result E A → (A → Result E B) → Result E B
m >>= f = and_then m f

infixl 5 ◌>>◌
abbrev pub ◌>>◌ : {E B : Type 0} → Result E (Unit {0}) → Result E B → Result E B
m >> k = m >>= λ _. k

-- `if b { return Err(e); }`
unfoldable pub refuse : {E : Type 0} → Bool → E → Result E (Unit {0})
refuse true e = err e
refuse false e = ok tt

abbrev pub or_err : {E A : Type 0} → E → Option A → Result E A
or_err e none = err e
or_err e (some a) = ok a

abbrev pub no_entries : {A : Type 0} → List A → Bool
no_entries [] = true
no_entries (a ∷ entries) = false

abbrev pub is_udp : TransportConfig → Bool
is_udp udp = true
is_udp tcp = false

-- `is_valid_linux_interface_name`; a text of other characters than ASCII fails the last test.
unfoldable pub is_valid_linux_interface_name : Text → Bool
is_valid_linux_interface_name name =
    not (is_empty name)
    && (leb (length name) 15
        && all_chars
            (λ byte. is_alphanumeric byte || (byte == b'_' || (byte == b'-' || byte == b'.'))) name)

unfoldable pub decode_psk : Keys → Text → Option Bytes
decode_psk keys psk = decode_key keys psk

-- The range of `gateway.tcp_mss`.
unfoldable pub check_mss : {Net : Type 0} → ℕ → Option ℕ → Result (ConfigError Net) (Unit {0})
check_mss mtu none = ok tt
check_mss mtu (some mss) =
    refuse (not (leb 536 mss && leb mss (mtu - 40)))
      (gateway_mss_out_of_range mss 536 (mtu - 40) mtu)

unfoldable pub check_gateway :
    {Net : Type 0}
    → InterfaceConfig Net
    → Option GatewayConfig
    → Result (ConfigError Net) (Unit {0})
unfolding check_mss is_valid_linux_interface_name
check_gateway interface none = ok tt
check_gateway interface (some gateway) = do
  let lan_interface = trim gateway.lan_interface
  refuse (is_empty lan_interface) empty_gateway_lan_interface
  refuse (not (is_valid_linux_interface_name interface.name))
      (invalid_gateway_interface_name interface.name)
  refuse (not (is_valid_linux_interface_name lan_interface))
      (invalid_gateway_interface_name lan_interface)
  refuse (ite (text_eq lan_interface interface.name) true false)
      (identical_gateway_interfaces lan_interface)
  check_mss interface.mtu gateway.tcp_mss

-- The checks of `udp_rebind_after`.
unfoldable pub check_rebind :
    {Net : Type 0} → TransportConfig → PeerConfig Net → Result (ConfigError Net) (Unit {0})
check_rebind transport peer =
    if ltb 0 peer.udp_rebind_after
    then (refuse (not (is_udp transport)) (udp_rebind_requires_udp peer.name)
        >> refuse (peer.persistent_keepalive == 0) (udp_rebind_requires_keepalive peer.name)
        >> refuse (leb peer.udp_rebind_after peer.persistent_keepalive)
            (udp_rebind_too_soon peer.name peer.udp_rebind_after peer.persistent_keepalive))
    else ok tt

-- The checks of `session_timeout`.
unfoldable pub check_timeout :
    {Net : Type 0} → PeerConfig Net → Option ℕ → Result (ConfigError Net) (Unit {0})
check_timeout peer none = ok tt
check_timeout peer (some timeout) =
    if ltb 0 timeout
    then (refuse (peer.persistent_keepalive == 0) (session_timeout_requires_keepalive peer.name)
        >> refuse (leb timeout peer.persistent_keepalive)
            (session_timeout_too_soon peer.name timeout peer.persistent_keepalive))
    else ok tt

-- What the loop over the peers has collected: the names, and the names by key.
pub record Seen : Type 0 where
  pub names : TextSet
  pub psks : Map Text
  pub public_keys : Map Text

abbrev pub nothing_seen : Seen
nothing_seen = record { names = []; psks = []; public_keys = [] }

-- `HashMap::insert` of a key that must be new; `e` is the error that names the first peer.
unfoldable pub insert_new :
    {E : Type 0} → Bytes → Text → (Text → E) → Map Text → Result E (Map Text)
insert_new key name e seen = elim (get key seen) [
  | some first ↦ err (e first)
  | none ↦ ok (insert key name seen)
]

module _ (net : Ipnet) where
  open net use {Net, net_eq, prefix_len, network, contains}

  abbrev pub has_net : Net → List Net → Bool
  has_net prefix [] = false
  has_net prefix (seen ∷ rest) = ite (net_eq seen prefix) true (has_net prefix rest)

  -- `peer.allowed_ips.iter().any(..)`
  unfoldable pub covered : List Net → Net → Bool
  covered [] prefix = false
  covered (allowed ∷ rest) prefix =
      (leb (prefix_len allowed) (prefix_len prefix) && contains allowed (network prefix))
      || covered rest prefix

  -- The loop over `excluded_ips`, with the exclusions inserted so far.
  unfoldable pub check_exclusions :
      PeerConfig Net → List Net → List Net → Result (ConfigError Net) (Unit {0})
  unfolding covered refuse
  check_exclusions peer [] exclusions = ok tt
  check_exclusions peer (prefix ∷ rest) exclusions = do
    refuse (prefix_len prefix == 0) (excluded_default_route peer.name)
    refuse (has_net prefix exclusions) (duplicate_excluded_ip peer.name prefix)
    refuse (not (covered peer.allowed_ips prefix)) (excluded_ip_not_covered peer.name prefix)
    check_exclusions peer rest (prefix ∷ exclusions)

  module _ (keys : Keys) where
    -- One round of the loop over the peers.
    unfoldable pub check_peer :
        TransportConfig → PeerConfig Net → Seen → Result (ConfigError Net) Seen
    unfolding check_exclusions check_rebind check_timeout insert_new decode_psk
    check_peer transport peer seen = do
      refuse (is_empty (trim peer.name)) empty_peer_name
      refuse (contains_key peer.name seen.names) (duplicate_peer_name peer.name)
      refuse (no_entries peer.allowed_ips) (peer_without_allowed_ips peer.name)
      check_exclusions peer peer.excluded_ips []
      psk ← or_err (invalid_psk peer.name) (decode_psk keys peer.psk)
      psks ← insert_new psk peer.name (λ first. duplicate_peer_psk first peer.name) seen.psks
      public_key ← or_err (invalid_public_key peer.name) (decode_key keys peer.public_key)
      public_keys ←
          insert_new public_key peer.name (λ first. duplicate_peer_public_key first peer.name)
            seen.public_keys
      check_rebind transport peer
      check_timeout peer peer.session_timeout
      ok (record { names = insert peer.name tt seen.names; psks = psks; public_keys = public_keys })

    unfoldable pub check_peers :
        TransportConfig → List (PeerConfig Net) → Seen → Result (ConfigError Net) (Unit {0})
    unfolding check_peer
    check_peers transport [] seen = ok tt
    check_peers transport (peer ∷ peers) seen =
        check_peer transport peer seen >>= λ seen'. check_peers transport peers seen'

    unfoldable pub validate : Config Net → Result (ConfigError Net) (Unit {0})
    unfolding check_gateway check_peers
    validate config = do
      refuse (is_empty (trim config.interface.name)) empty_interface_name
      refuse (ltb config.interface.mtu 576) (mtu_too_small config.interface.mtu)
      check_gateway config.interface config.gateway
      _ ← or_err invalid_private_key (decode_key keys config.interface.private_key)
      check_peers config.interface.transport config.peer nothing_seen

    -- `toml::from_str` is a parameter; its `none` is the error.
    unfoldable pub parse :
        (Text → Option (Config Net)) → Text → Result (ConfigError Net) (Config Net)
    unfolding validate
    parse from_toml text = do
      config ← or_err parse_error (from_toml text)
      validate config
      ok config
