-- ===== src/Tests/Tables.antt =====
-- A routing table of two peers and an engine on it.
use hushwire.Common.{
  ℕ, ◌+◌, ◌*◌, ◌^◌, true, List, [], ◌∷◌, none, some, ◌≡◌, ◌↔◌, refl, ok, ℕ_discrete, replicate,
}
use hushwire.Config.{
  v4, is_unspecified, udp, PeerConfig, resolve, effective_session_timeout, decode_key, Dns,
}
use hushwire.Router
use hushwire.Router.{
  Peer, Route, Router, most_specific_exclusion, admits, find_route, lookup, insert_route,
  sort_routes, find_prefix, add_routes, excluded_of, peer_from_config, add_peers,
}
use hushwire.Router.Lookup.{Covered, Unexcluded, IsSorted, admits_iff}
use hushwire.Router.Table.{DistinctPrefixes, new_table, new-lookup_longest}
use hushwire.Tests.Samples.{net_eq, sample_net, sample_keys}

abbrev pub address : ℕ → ℕ
address host = 10 * 2 ^ 24 + host

abbrev pub wide_config : PeerConfig (ℕ × ℕ)
wide_config = record {
  name = 97 ∷ [];
  endpoint = record {
    host = [];
    port = 51;
    literal = some (record { ip = v4 1; port = 51; flowinfo = 0; scope_id = 0 });
  };
  allowed_ips = (address 0, 8) ∷ [];
  excluded_ips = (address 256, 24) ∷ [];
  psk = replicate 32 1;
  public_key = replicate 32 2;
  persistent_keepalive = 25;
  udp_rebind_after = 0;
  session_timeout = none;
}

abbrev pub narrow_config : PeerConfig (ℕ × ℕ)
narrow_config = record wide_config {
  name = 98 ∷ [];
  allowed_ips = (address 0, 24) ∷ [];
  excluded_ips = [];
}

abbrev no_dns : Dns
no_dns host port = none

abbrev pub peer_of : PeerConfig (ℕ × ℕ) → Peer (ℕ × ℕ)
peer_of c = record {
  name = c.name;
  endpoint = record { ip = v4 1; port = 51; flowinfo = 0; scope_id = 0 };
  configured_endpoint = c.endpoint;
  excluded_ips = c.excluded_ips;
  psk = replicate 32 1;
  public_key = replicate 32 2;
  persistent_keepalive = 25;
  udp_rebind_after = 0;
  session_timeout = 0;
}

abbrev wide_route : Route (ℕ × ℕ)
wide_route = record { prefix = (address 0, 8); peer = peer_of wide_config }

abbrev pub narrow_route : Route (ℕ × ℕ)
narrow_route = record { prefix = (address 0, 24); peer = peer_of narrow_config }

abbrev pub sample_router : Router (ℕ × ℕ)
sample_router = record {
  routes = narrow_route ∷ wide_route ∷ [];
  excluded_routes = record { prefix = (address 256, 24); peer = peer_of wide_config } ∷ [];
}

abbrev pub configs : List (PeerConfig (ℕ × ℕ))
configs = wide_config ∷ narrow_config ∷ []

sample_router-built : Router.new sample_net sample_keys no_dns configs udp ≡ ok sample_router
unfolding Router.new add_peers add_routes excluded_of find_prefix peer_from_config sort_routes
    insert_route resolve effective_session_timeout decode_key ℕ_discrete is_unspecified net_eq
sample_router-built = refl

new_table_example :
    IsSorted sample_net sample_router.routes × DistinctPrefixes sample_net sample_router.routes
new_table_example =
    new_table sample_net sample_keys no_dns configs udp sample_router sample_router-built

pub sample_lookup : lookup sample_net sample_router (address 9) ≡ some narrow_route
unfolding lookup find_route admits most_specific_exclusion
sample_lookup = refl

new-lookup_longest_example :
    (admits sample_net narrow_route (address 9) ≡ true)
    × Covered sample_net sample_router.routes (address 9) narrow_route
new-lookup_longest_example =
    new-lookup_longest sample_net sample_keys no_dns configs udp sample_router (address 9)
      narrow_route sample_router-built sample_lookup

admits_iff_example : (admits sample_net wide_route (address 260) ≡ true) ↔ (
    (sample_net.contains wide_route.prefix (address 260) ≡ true)
    × Unexcluded sample_net wide_route.peer.excluded_ips
        (address 260)
        (sample_net.prefix_len wide_route.prefix))
admits_iff_example = admits_iff sample_net wide_route (address 260)
