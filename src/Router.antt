-- ===== src/Router.antt =====
-- src/router.rs: the routing table and the lookup by longest prefix.
pub mod Lookup
pub mod Table
use hushwire.Common.{
  ℕ, Bool, true, false, not, ◌&&◌, ◌||◌, List, [], ◌∷◌, ◌++◌, Option, none, some, ltb, leb, ◌==◌,
  max, if◌then◌else◌, ite, Result, ok, err, Bytes, is_some,
}
use hushwire.Common.Maps.{Text}
use hushwire.Externals.{Ipnet, Keys}
use hushwire.Config.{
  IpAddr, v4, v6, IpAddr-discrete, SocketAddr, is_unspecified, TransportConfig, PeerEndpoint, Dns,
  resolve, PeerConfig, effective_session_timeout, decode_key,
}

pub record Peer (Net : Type 0) : Type 0 where
  pub name : Text
  pub endpoint : SocketAddr
  pub configured_endpoint : PeerEndpoint
  pub excluded_ips : List Net
  pub psk : Bytes
  pub public_key : Bytes
  pub persistent_keepalive : ℕ
  pub udp_rebind_after : ℕ
  pub session_timeout : ℕ

-- `Route`, and `ExcludedRoute`, which has the same fields.
pub record Route (Net : Type 0) : Type 0 where
  pub prefix : Net
  pub peer : Peer Net

pub record Router (Net : Type 0) : Type 0 where
  pub routes : List (Route Net)
  pub excluded_routes : List (Route Net)

-- `invalid_key` is the failed `expect` on a key that `Config` has not validated.
pub data RouterError (Net : Type 0) : Type 0 where
  duplicate_prefix : (prefix : Net) (first_peer second_peer : Text) → RouterError Net
  endpoint_resolution : (peer : Text) (endpoint : PeerEndpoint) → RouterError Net
  invalid_key : RouterError Net

module _ (net : Ipnet) where
  open net use {Net, net_eq, prefix_len, contains}

  -- The longest exclusion of the peer that holds the address.
  unfoldable pub most_specific_exclusion : List Net → ℕ → Option ℕ
  most_specific_exclusion [] destination = none
  most_specific_exclusion (prefix ∷ excluded) destination =
      let rest = most_specific_exclusion excluded destination in
      if contains prefix destination
      then elim rest [
        | none ↦ some (prefix_len prefix)
        | some len ↦ some (max (prefix_len prefix) len)
      ]
      else rest

  -- The test of the closure in `lookup`.
  unfoldable pub admits : Route Net → ℕ → Bool
  admits route destination =
      if not (contains route.prefix destination)
      then false
      else elim (most_specific_exclusion route.peer.excluded_ips destination) [
        | none ↦ true
        | some excluded_prefix_length ↦ ltb excluded_prefix_length (prefix_len route.prefix)
      ]

  unfoldable pub find_route : List (Route Net) → ℕ → Option (Route Net)
  find_route [] destination = none
  find_route (route ∷ routes) destination =
      if admits route destination then some route else find_route routes destination

  unfoldable pub lookup : Router Net → ℕ → Option (Route Net)
  unfolding find_route
  lookup router destination = find_route router.routes destination

  -- `sort_by_key(|route| Reverse(route.prefix.prefix_len()))`, which is stable.
  unfoldable pub insert_route : Route Net → List (Route Net) → List (Route Net)
  insert_route route [] = route ∷ []
  insert_route route (next ∷ routes) =
      if leb (prefix_len next.prefix) (prefix_len route.prefix)
      then route ∷ next ∷ routes
      else next ∷ insert_route route routes

  unfoldable pub sort_routes : List (Route Net) → List (Route Net)
  unfolding insert_route
  sort_routes [] = []
  sort_routes (route ∷ routes) = insert_route route (sort_routes routes)

  unfoldable pub find_prefix : Net → List (Route Net) → Option (Route Net)
  find_prefix prefix [] = none
  find_prefix prefix (route ∷ routes) =
      ite (net_eq route.prefix prefix) (some route) (find_prefix prefix routes)

  -- The loop over a peer's `allowed_ips`; the routes are pushed at the end.
  unfoldable pub add_routes :
      Peer Net → List Net → List (Route Net) → Result (RouterError Net) (List (Route Net))
  unfolding find_prefix
  add_routes peer [] routes = ok routes
  add_routes peer (prefix ∷ allowed) routes =
      let rest = add_routes peer allowed (routes ++ record { prefix = prefix; peer = peer } ∷ []) in
      elim (find_prefix prefix routes) [
        | some existing ↦ err (duplicate_prefix prefix existing.peer.name peer.name)
        | none ↦ rest
      ]

  unfoldable pub excluded_of : Peer Net → List Net → List (Route Net)
  excluded_of peer [] = []
  excluded_of peer (prefix ∷ excluded) =
      record { prefix = prefix; peer = peer } ∷ excluded_of peer excluded

  -- The addresses in the code's `seen`.
  unfoldable pub seen_ip : IpAddr → List (Peer Net) → Bool
  seen_ip ip [] = false
  seen_ip ip (peer ∷ peers) = ite (IpAddr-discrete peer.endpoint.ip ip) true (seen_ip ip peers)

  unfoldable pub is_exception : Router Net → Peer Net → Bool
  is_exception router peer = elim peer.endpoint.ip [
    | v6 a ↦ false
    | v4 a ↦ not (peer.endpoint.port == 0 || is_unspecified (v4 a)) && is_some (lookup router a)
  ]

  -- The loop of `endpoint_exception_peers`, with the peers pushed so far.
  unfoldable pub exception_peers : Router Net → List (Route Net) → List (Peer Net) → List (Peer Net)
  exception_peers router [] peers = peers
  exception_peers router (route ∷ routes) peers =
      let pushed = is_exception router route.peer && not (seen_ip route.peer.endpoint.ip peers) in
      exception_peers router routes (if pushed then peers ++ route.peer ∷ [] else peers)

  unfoldable pub endpoint_exception_peers : Router Net → List (Peer Net)
  unfolding exception_peers
  endpoint_exception_peers router = exception_peers router router.routes []

  module _ (keys : Keys) (dns : Dns) where
    unfoldable pub peer_from_config :
        PeerConfig Net → TransportConfig → Result (RouterError Net) (Peer Net)
    peer_from_config config transport = elim (decode_key keys config.public_key) [
      | none ↦ err invalid_key
      | some public_key_bytes ↦ elim (resolve dns config.endpoint) [
        | none ↦ err (endpoint_resolution config.name config.endpoint)
        | some endpoint ↦ elim (decode_key keys config.psk) [
          | none ↦ err invalid_key
          | some psk ↦ ok (record {
            name = config.name;
            endpoint = endpoint;
            configured_endpoint = config.endpoint;
            excluded_ips = config.excluded_ips;
            psk = psk;
            public_key = keys.public_key public_key_bytes;
            persistent_keepalive = config.persistent_keepalive;
            udp_rebind_after = config.udp_rebind_after;
            session_timeout = effective_session_timeout config transport;
          })
        ]
      ]
    ]

    -- The loop of `Router::new` over the configured peers.
    unfoldable pub add_peers :
        List (PeerConfig Net) → TransportConfig → Router Net → Result (RouterError Net) (Router Net)
    unfolding add_routes excluded_of
    add_peers [] transport table = ok table
    add_peers (config ∷ peers) transport table = elim (peer_from_config config transport) [
      | err e ↦ err e
      | ok peer ↦ elim (add_routes peer config.allowed_ips table.routes) [
        | err e ↦ err e
        | ok routes ↦ add_peers peers transport (record {
          routes = routes;
          excluded_routes = table.excluded_routes ++ excluded_of peer config.excluded_ips;
        })
      ]
    ]

    unfoldable pub new :
        List (PeerConfig Net) → TransportConfig → Result (RouterError Net) (Router Net)
    unfolding add_peers sort_routes
    new peers transport =
        elim (add_peers peers transport (record { routes = []; excluded_routes = [] })) [
          | err e ↦ err e
          | ok table ↦ ok (record {
            routes = sort_routes table.routes;
            excluded_routes = sort_routes table.excluded_routes;
          })
        ]
