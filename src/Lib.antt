-- ===== src/Lib.antt =====
-- hushwire: the platform-independent core of the HushWire tunnel, a VPN over Noise sessions.
--
-- The program's core is the engine of src/engine.rs. It reads packets of the tunnel and frames of
-- the network and answers with actions for the platform: send a frame, write a packet. It asks the
-- routing table (src/router.rs) for the peer of a packet and keeps the sessions and the handshakes
-- of all peers in one table (`SessionManager`), whose sessions (src/noise.rs) hold the cipher
-- state, the send counter and a replay window (src/replay.rs). Frames are read and written by
-- src/auth.rs, IPv4 headers are checked by src/packet.rs, and src/state.rs counts the bytes and
-- learns the endpoints of peers. src/scheduler.rs maintains the sessions of a running engine in
-- ticks: it repeats initiations, recovers silent peers and sends keepalives.
--
-- The files:
--   Common      numbers, lists, results, bits, big-endian bytes, maps with text keys
--   Externals   the third-party crates as parameters: `ipnet`, `snow`, `x25519_dalek`, `base64`
--   Replay      src/replay.rs; Shift the shift of the words, Tracking one call on a
--               window, History runs of calls
--   Auth        src/auth.rs; Framing the round trips
--   Packet      src/packet.rs; Header the bytes accepted
--   Noise       src/noise.rs, `Session`; Handshake the functions of the handshake, Counters the
--               encryptions, Receive the decryptions, Lifetime the age of a session
--   Config      src/config.rs: the data, the resolution and the keys; Characters and Endpoint the
--               parser of endpoints, Validate the checks, Validate/Sound what a peer that passes
--               satisfies, Validate/Accepted and Validate/Starts the scheduler and the engine of an
--               accepted configuration
--   Router      src/router.rs; Lookup and Table what is found and what is built
--   Peers       src/state.rs
--   Sessions    src/engine.rs, `SessionManager`; Exchange its operations of a handshake, Invariant
--               the well-formed tables, Keep, Transport, Handshakes and Initiator the operations
--               that keep them so, Interleaving the orders of operations, Expects its `expect`s,
--               TieBreak crossing initiations
--   Engine      src/engine.rs, `Engine`; Inbound the frames of the network, Keeps the session table
--               under a call, Invariant under runs of calls, Outbound and Endpoints what is sent where
--   Scheduler   src/scheduler.rs; Loops the tick, Recoveries the recoveries of one tick, Notes,
--               Timely and Spacing the times between the recoveries of several ticks
--   Routing     src/routing.rs on Linux: Commands the calls of `ip`, Manager the routes that are
--               installed, Manager/Laws what is relied on of `ip`, Manager/Stack, Plan, Distinct and
--               Setup which routes they are and that they are undone, also when the
--               deletion of a route fails at first
--   Firewall    src/firewall.rs on Linux; Restore the clean-up after a set-up
--   Tcp         src/tcp_transport.rs, its queue of writes and its framing; Pending and Progress the
--               queue, Framing and Delivery the frames at two ends, Connections the table of
--               connections, Closing the end of a stream
--   Tunnel      src/tunnel.rs, the rounds of its threads; Writes the packets for the TUN
--               device, Accounting the bytes counted as sent
--   Tests       runs at concrete inputs
--
-- State. A struct is a record and a hash map an association list; a method that changes its object
-- is a function to the new object and the result, and an error leaves the changes that were made
-- before it. The code holds the lock of the session table for one of its operations, which is one
-- step (Sessions/Interleaving). A call of the engine makes several; a run of the engine is a
-- sequence of whole calls (Engine/Invariant). The calls of different threads may mix, which
-- Engine/Invariant covers too.
--
-- Numbers are unbounded; a 64-bit counter has its check for overflow, its saturation or its
-- wrap-around written out. Instants and durations count nanoseconds, and a difference stops at 0 as
-- `saturating_duration_since` does. The clock that the code reads itself, the randomness of
-- handshakes and the DNS resolver are arguments. What the kernel answers to the reads and writes of a
-- TCP connection is a list, an argument too: a call that asks for more answers than the list has is
-- one that has not returned. The commands `ip`, `iptables` and `sysctl` are functions on an unknown
-- state of the host. No function needs fuel: every loop is over a list, or over the three attempts of
-- a deletion.
--
-- An `expect` that fails is the result `panicked` (`invalid_key` in the router).
--
-- Not modelled: the set-up of sockets and the threads (src/transport.rs and the rest of
-- src/tcp_transport.rs), the TUN device, the signals and the start of the tunnel (the rest of
-- src/tunnel.rs), the C interface (src/ffi.rs), the gateway (src/gateway.rs), the macOS variants of
-- src/routing.rs and src/firewall.rs, the reading of TOML, log lines, the context texts of errors and
-- the command line. Cryptography is a parameter: what the proofs use of it is that a sealed message
-- is 16 bytes longer and that the other end opens it.
pub mod Common
pub mod Replay
pub mod Auth
pub mod Externals
pub mod Packet
pub mod Noise
pub mod Sessions
pub mod Config
pub mod Router
pub mod Peers
pub mod Engine
pub mod Scheduler
pub mod Routing
pub mod Firewall
pub mod Tcp
pub mod Tunnel
pub mod Tests
