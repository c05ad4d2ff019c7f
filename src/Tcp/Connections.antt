-- ===== src/Tcp/Connections.antt =====
-- src/tcp_transport.rs, `TcpTransport`: the connections by endpoint. What the listener accepts, what
-- a dial gives and what the kernel answers are arguments.
use hushwire.Common.{
  ℕ, min, List, [], ◌∷◌, ◌++◌, Option, none, some, ite, Result, ok, err, Bytes, length, take,
}
use hushwire.Config.{SocketAddr, SocketAddr-discrete}
use hushwire.Tcp.{
  IoError, addr_not_available, WriteAnswer, ReadAnswer, ConnState, new_conn, queue_frame,
  try_read_frame,
}

abbrev pub Connections : Type 0
Connections = List (SocketAddr × ConnState)

unfoldable pub get_conn : SocketAddr → Connections → Option ConnState
get_conn addr [] = none
get_conn addr ((a, c) ∷ conns) = ite (SocketAddr-discrete a addr) (some c) (get_conn addr conns)

unfoldable pub remove_conn : SocketAddr → Connections → Connections
remove_conn addr [] = []
remove_conn addr ((a, c) ∷ conns) =
    let rest = remove_conn addr conns in ite (SocketAddr-discrete a addr) rest ((a, c) ∷ rest)

unfoldable pub insert_conn : SocketAddr → ConnState → Connections → Connections
unfolding remove_conn
insert_conn addr c conns = (addr, c) ∷ remove_conn addr conns

-- A round of the accepting thread that got a connection.
unfoldable pub accept : SocketAddr → Connections → Connections
unfolding insert_conn new_conn
accept addr conns = insert_conn addr new_conn conns

-- The loop of `get_or_dial` over the addresses, each with the outcome of its `connect_timeout`.
unfoldable pub dial : List (Result IoError (Unit {0})) → IoError → Result IoError ConnState
unfolding new_conn
dial [] last_err = err last_err
dial (ok connected ∷ attempts) last_err = ok new_conn
dial (err e ∷ attempts) last_err = dial attempts e

unfoldable pub get_or_dial :
    Connections
    → SocketAddr
    → Result IoError (List (Result IoError (Unit {0})))
    → Connections × Result IoError ConnState
unfolding dial
get_or_dial conns endpoint addrs = elim (get_conn endpoint conns) [
  | some c ↦ (conns, ok c)
  | none ↦ elim addrs [
    | err e ↦ (conns, err e)
    | ok attempts ↦ elim (dial attempts addr_not_available) [
      | err e ↦ (conns, err e)
      | ok c ↦ (insert_conn endpoint c conns, ok c)
    ]
  ]
]

unfoldable pub send_to :
    Connections
    → Bytes
    → SocketAddr
    → Result IoError (List (Result IoError (Unit {0})))
    → List WriteAnswer
    → Option (Connections × Result IoError ℕ)
send_to conns frame endpoint addrs answers =
    let (dialled, r) = get_or_dial conns endpoint addrs in
    elim r [
      | err e ↦ some (dialled, err e)
      | ok c ↦ elim (queue_frame c.pending_writes frame answers) [
        | none ↦ none
        | some q ↦ some (
          insert_conn endpoint (record c { pending_writes = q.pending }) dialled,
          elim q.result [ err e ↦ err e | ok done ↦ ok (length frame) ],
        )
      ]
    ]

-- One connection of a round of `recv_from`, or the connections of the rest of the round.
abbrev with_rest :
    Connections
    → Option (Connections × Option (SocketAddr × Bytes))
    → Option (Connections × Option (SocketAddr × Bytes))
with_rest kept none = none
with_rest kept (some (conns, received)) = some (kept ++ conns, received)

-- A round of `recv_from` over the connections, with the answers to each, into a buffer of `size`
-- bytes. A round that returns nothing is followed by a sleep and the next round.
unfoldable pub recv_round :
    Connections
    → List (List WriteAnswer × List ReadAnswer)
    → ℕ
    → Option (Connections × Option (SocketAddr × Bytes))
recv_round [] answers size = some ([], none)
recv_round (entry ∷ conns) [] size = none
recv_round ((addr, c) ∷ conns) ((writes, reads) ∷ answers) size =
    elim (try_read_frame c writes reads) [
      | none ↦ none
      | some r ↦ elim r.result [
        | ok frame ↦ elim frame [
          | some bytes ↦
              some ((addr, r.conn) ∷ conns, some (addr, take (min (length bytes) size) bytes))
          | none ↦ with_rest ((addr, r.conn) ∷ []) (recv_round conns answers size)
        ]
        | err e ↦ recv_round conns answers size
      ]
    ]
