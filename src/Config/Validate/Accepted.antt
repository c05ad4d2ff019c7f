-- ===== src/Config/Validate/Accepted.antt =====
-- Accepted configurations (src/config.rs) in the engine and the scheduler that start from them.
use hushwire.Common.{
  ℕ, ◌<◌, ◌≤◌, ◌*◌, ◌-◌, max, true, false, ltb, List, [], ◌∷◌, Option, none, some, ◌≡◌, ◌≢◌, ◌⊎◌,
  subst, inl, inr, arith, All, Bool-cases, Option-cases, ok, Bytes, ite, if◌then◌else◌, map,
}
use hushwire.Common.Maps.{Text, text_eq}
use hushwire.Externals.{Ipnet, Keys}
use hushwire.Config.{
  TransportConfig, udp, tcp, PeerConfig, GatewayConfig, InterfaceConfig, Config, decode_key,
  effective_session_timeout,
}
use hushwire.Config.Characters.{trim, is_empty}
use hushwire.Config.Validate.{check_mss, check_gateway, validate, is_valid_linux_interface_name}
use hushwire.Config.Validate.Sound.{
  and_then_ok, refuse_ok, or_err_ok, IsTimed, IsValidPeer, ArePeers, peers_ArePeers,
}
use hushwire.Noise.{from_secs}
use hushwire.Scheduler
use hushwire.Scheduler.{ScheduledPeer, RecoveryPolicy, recovery_policy, scheduled_peer}

-- Two valid names of Linux interfaces, and a segment size that fits the tunnel.
pub record IsGateway {Net : Type 0} (interface : InterfaceConfig Net) (gateway : GatewayConfig)
    : Type 0 where
  pub tunnel : is_valid_linux_interface_name interface.name ≡ true
  pub lan : is_valid_linux_interface_name (trim gateway.lan_interface) ≡ true
  pub differ : trim gateway.lan_interface ≢ interface.name
  pub mss : (m : ℕ) → gateway.tcp_mss ≡ some m → (536 ≤ m) × (m ≤ interface.mtu - 40)

mss_ok :
    {Net : Type 0} (mtu : ℕ) (mss : Option ℕ) {u : Unit {0}}
    → check_mss {Net = Net} mtu mss ≡ ok u
    → (m : ℕ) → mss ≡ some m
    → (536 ≤ m) × (m ≤ mtu - 40)
unfolding check_mss
mss_ok mtu none h m e = ground arith
mss_ok mtu (some mss) h m e =
    let same : mss ≡ m = ground arith in
    let fits = refuse_ok _ _ h in
    subst (λ m. (536 ≤ m) × (m ≤ mtu - 40)) same (ground arith, ground arith)

names_differ : (a b : Text) → ite (text_eq a b) true false ≡ false → a ≢ b
names_differ a b = elim (text_eq a b) as (λ d. ite d true false ≡ false → a ≢ b) [
  | yes e ↦ λ h. ground arith
  | no n ↦ λ h. n
]

check_gateway-IsGateway :
    {Net : Type 0} (interface : InterfaceConfig Net) (gateway : GatewayConfig) {u : Unit {0}}
    → check_gateway interface (some gateway) ≡ ok u
    → IsGateway interface gateway
unfolding check_gateway
check_gateway-IsGateway interface gateway h =
    let (u1, named, h1) = and_then_ok _ _ _ h in
    let (u2, tunnel, h2) = and_then_ok _ _ _ h1 in
    let (u3, lan, h3) = and_then_ok _ _ _ h2 in
    let (u4, differ, h4) = and_then_ok _ _ _ h3 in
    record {
      tunnel = ground (arith, refuse_ok _ _ tunnel);
      lan = ground (arith, refuse_ok _ _ lan);
      differ = names_differ _ _ (refuse_ok _ _ differ);
      mss = mss_ok interface.mtu gateway.tcp_mss h4;
    }

module _ (net : Ipnet) (keys : Keys) where
  open net use {Net}

  pub record IsValid (config : Config Net) : Type 0 where
    pub named : is_empty (trim config.interface.name) ≡ false
    pub mtu : 576 ≤ config.interface.mtu
    pub gateway : (g : GatewayConfig) → config.gateway ≡ some g → IsGateway config.interface g
    pub private_key : (key : Bytes) × (decode_key keys config.interface.private_key ≡ some key)
    pub peers : ArePeers net keys config.interface.transport config.peer

  -- In an accepted configuration the interface has a name, an MTU of at least 576 and a private
  -- key of 32 bytes; a gateway has two different valid interface names and a segment size that
  -- fits the MTU; every peer has a name, allowed prefixes, different exclusions inside them that
  -- are not the default route, keys of 32 bytes and times above its keepalive interval; and no two
  -- peers share a name, a pre-shared key or a public key.
  pub validate-IsValid : (config : Config Net) → validate net keys config ≡ ok tt → IsValid config
  unfolding validate
  validate-IsValid config h =
      let (u1, named, h1) = and_then_ok _ _ _ h in
      let (u2, mtu, h2) = and_then_ok _ _ _ h1 in
      let (u3, gateway, h3) = and_then_ok _ _ _ h2 in
      let (key, private_key, h4) = and_then_ok _ _ _ h3 in
      record {
        named = refuse_ok _ _ named;
        mtu = ground (arith, refuse_ok _ _ mtu);
        gateway = λ g e.
            check_gateway-IsGateway config.interface g
              (subst (λ o. check_gateway config.interface o ≡ ok u3) e gateway);
        private_key = (key, or_err_ok _ _ private_key);
        peers = peers_ArePeers net keys config.interface.transport config.peer h4;
      }

-- The scheduler tells a peer lost later than it sends a keepalive.
abbrev pub HasTime : ScheduledPeer → Type 0
HasTime p =
    (policy : RecoveryPolicy)
    → p.recovery ≡ some policy
    → (0 < p.persistent_keepalive) × (p.persistent_keepalive < policy.timeout)

policy_cases :
    (transport : TransportConfig) (rebind timeout : ℕ) (policy : RecoveryPolicy)
    → recovery_policy transport rebind timeout ≡ some policy
    → ((0 < rebind) × (policy.timeout ≡ from_secs rebind))
      ⊎ ((0 < timeout) × (policy.timeout ≡ from_secs timeout))
unfolding recovery_policy
policy_cases udp rebind timeout policy h = elim (Bool-cases (ltb 0 rebind)) [
  | inl e ↦ inl (ground arith, ground arith)
  | inr e ↦ inr (ground arith, ground arith)
]
policy_cases tcp rebind timeout policy h = inr (ground arith, ground arith)

automatic_timed :
    (keepalive : ℕ)
    → 0 < (if ltb 0 keepalive then max (keepalive * 3) 15 else 0)
    → (0 < keepalive) × (keepalive < (if ltb 0 keepalive then max (keepalive * 3) 15 else 0))
automatic_timed keepalive pos = elim (Bool-cases (ltb 0 keepalive)) [
  | inl e ↦ let alive : 0 < keepalive = ground arith in rw e (alive, omega (arith, alive))
  | inr e ↦ absurd (ground arith)
]

effective_timed :
    {Net : Type 0} (transport : TransportConfig) (peer : PeerConfig Net)
    → IsTimed transport peer
    → 0 < effective_session_timeout peer transport
    → (0 < peer.persistent_keepalive)
      × (peer.persistent_keepalive < effective_session_timeout peer transport)
unfolding effective_session_timeout
effective_timed transport peer timed pos = elim (Option-cases peer.session_timeout) [
  | inr (t, e) ↦ rw e (timed.timeout t e (ground arith))
  | inl e ↦
      elim transport
          as (λ tr.
            0 < effective_session_timeout peer tr
            → (0 < peer.persistent_keepalive)
              × (peer.persistent_keepalive < effective_session_timeout peer tr)) [
                | udp ↦ λ p. ground arith
                | tcp ↦ rw e (automatic_timed peer.persistent_keepalive)
              ]
        pos
]

policy_HasTime :
    {Net : Type 0} (transport : TransportConfig) (peer : PeerConfig Net)
    → IsTimed transport peer
    → HasTime (scheduled_peer transport peer)
unfolding scheduled_peer
policy_HasTime transport peer timed policy e =
    elim (policy_cases transport peer.udp_rebind_after _ policy e) [
      | inl (pos, same) ↦
          let (on_udp, alive, later) = timed.rebind pos in (ground arith, ground arith)
      | inr (pos, same) ↦
          let (alive, later) = effective_timed transport peer timed pos in
          (ground arith, ground arith)
    ]

peers-HasTime :
    (net : Ipnet) (keys : Keys) (transport : TransportConfig) (peers : List (PeerConfig net.Net))
    → ArePeers net keys transport peers
    → All HasTime (map (scheduled_peer transport) peers)
peers-HasTime net keys transport [] h = tt
peers-HasTime net keys transport (peer ∷ peers) h =
    let valid : IsValidPeer net keys transport peer = h.0 in
    (policy_HasTime transport peer valid.timed, peers-HasTime net keys transport peers h.2)

-- In the scheduler of an accepted configuration every peer with a recovery policy sends
-- keepalives, at an interval that is shorter than the timeout of the policy.
pub validate-scheduled :
    (net : Ipnet) (keys : Keys) (config : Config net.Net)
    → validate net keys config ≡ ok tt
    → All HasTime (Scheduler.new config).peers
unfolding Scheduler.new
validate-scheduled net keys config h =
    let valid : IsValid net keys config = validate-IsValid net keys config h in
    peers-HasTime net keys config.interface.transport config.peer valid.peers
