-- ===== src/Peers.antt =====
-- src/state.rs: the counters and the learned endpoint of each peer. The clock that the code reads
-- is an argument; the lock makes each call one step.
use hushwire.Common.{ℕ, ◌+◌, ◌%◌, ◌^◌, Option, none, some}
use hushwire.Common.Maps.{Text, Map, get, insert}
use hushwire.Config.{SocketAddr}

pub record PeerStats : Type 0 where
  pub last_seen : Option ℕ
  pub tx_bytes : ℕ
  pub rx_bytes : ℕ
  pub current_endpoint : Option SocketAddr

abbrev pub PeerState : Type 0
PeerState = Map PeerStats

-- `entry(..).or_default()`
unfoldable pub entry : Text → PeerState → PeerStats
entry peer_name m = elim (get peer_name m) [
  | some stats ↦ stats
  | none ↦ record { last_seen = none; tx_bytes = 0; rx_bytes = 0; current_endpoint = none }
]

unfoldable pub record_tx : PeerState → Text → ℕ → PeerState
unfolding entry
record_tx m peer_name bytes =
    let stats = entry peer_name m in
    insert peer_name (record stats { tx_bytes = (stats.tx_bytes + bytes) % 2 ^ 64 }) m

-- `update_endpoint`, which logs a change.
unfoldable pub update_endpoint : PeerStats → SocketAddr → PeerStats
update_endpoint stats source = record stats { current_endpoint = some source }

unfoldable pub record_rx : PeerState → Text → SocketAddr → ℕ → ℕ → PeerState
unfolding entry update_endpoint
record_rx m peer_name source bytes clock =
    let stats = entry peer_name m in
    insert peer_name
      (update_endpoint
        (record stats { rx_bytes = (stats.rx_bytes + bytes) % 2 ^ 64; last_seen = some clock })
        source)
      m

unfoldable pub record_keepalive : PeerState → Text → SocketAddr → ℕ → PeerState
unfolding entry update_endpoint
record_keepalive m peer_name source clock =
    let stats = entry peer_name m in
    insert peer_name (update_endpoint (record stats { last_seen = some clock }) source) m

unfoldable pub clear_endpoint : PeerState → Text → PeerState
clear_endpoint m peer_name = elim (get peer_name m) [
  | none ↦ m
  | some stats ↦ insert peer_name (record stats { current_endpoint = none }) m
]
