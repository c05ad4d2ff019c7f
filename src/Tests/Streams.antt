-- ===== src/Tests/Streams.antt =====
-- Two ends of a TCP connection, whose kernel takes and gives the bytes in parts.
use hushwire.Common.{
  ◌≤◌, true, List, [], ◌∷◌, ◌++◌, none, some, ◌≡◌, refl, arith, ok, Bytes, to_be_bytes,
  from_be_bytes,
}
use hushwire.Config.{SocketAddr, v4}
use hushwire.Tcp.{
  accepted, write_blocked, write_interrupted, received, read_blocked, new, pending_len, compact,
  enqueue_frame, encode_frame, Flushed, flush_to, flush_queued, Queued, queue_frame, ConnState,
  ReadFrame, read_available, assemble, read_frame, try_read_frame, flush_end,
}
use hushwire.Tcp.Pending.{waiting}
use hushwire.Tcp.Progress.{decisive, flush_to_returns, queue_frame_bound}
use hushwire.Tcp.Delivery.{
  Sends, opened, queues, flushes, Hears, listens, reads, frames_in_order, frames_complete,
}
use hushwire.Tcp.Closing.{recv_round_closed}
use hushwire.Tcp.Connections.{recv_round}

abbrev hello : Bytes
hello = 1 ∷ 2 ∷ 3 ∷ []

abbrev hello_framed : Bytes
hello_framed = 0 ∷ 3 ∷ 1 ∷ 2 ∷ 3 ∷ []

-- The kernel takes two bytes of the frame.
abbrev hello_queued : Queued
hello_queued = record {
  pending = record { bytes = hello_framed; offset = 2; limit = 100 };
  sent = 0 ∷ 3 ∷ [];
  queued = true;
  answers = [];
  result = ok tt;
}

hello_queues : queue_frame (new 100) hello (accepted 2 ∷ write_blocked ∷ []) ≡ some hello_queued
unfolding queue_frame new flush_to enqueue_frame compact pending_len encode_frame flush_queued
    to_be_bytes
hello_queues = refl

-- It takes the others with the next flush.
abbrev hello_flushed : Flushed
hello_flushed = record {
  pending = record { bytes = []; offset = 0; limit = 100 };
  sent = 1 ∷ 2 ∷ 3 ∷ [];
  answers = [];
  result = ok tt;
}

hello_flushes :
    flush_to hello_queued.pending (write_interrupted ∷ accepted 3 ∷ []) ≡ some hello_flushed
unfolding flush_to
hello_flushes = refl

abbrev idle : ConnState
idle = record { read_buf = []; pending_writes = hello_flushed.pending }

-- The reader meets the frame in two parts.
abbrev hello_read : ReadFrame
hello_read = record {
  conn = idle;
  sent = [];
  heard = hello_framed;
  writes = [];
  reads = [];
  result = ok (some hello);
}

hello_reads :
    try_read_frame idle [] (received (0 ∷ []) ∷ received (3 ∷ 1 ∷ 2 ∷ 3 ∷ []) ∷ read_blocked ∷ [])
    ≡ some hello_read
unfolding try_read_frame flush_to read_frame read_available assemble from_be_bytes
hello_reads = refl

Sends-hello : Sends 100 hello_flushed.pending hello_framed (hello ∷ [])
Sends-hello =
    flushes hello_queued.pending (0 ∷ 3 ∷ []) (hello ∷ []) (write_interrupted ∷ accepted 3 ∷ [])
      hello_flushed
      (queues (new 100) [] [] hello (accepted 2 ∷ write_blocked ∷ []) hello_queued opened
        hello_queues)
      hello_flushes

Hears-hello : Hears idle hello_framed (hello ∷ [])
Hears-hello =
    reads idle [] [] [] (received (0 ∷ []) ∷ received (3 ∷ 1 ∷ 2 ∷ 3 ∷ []) ∷ read_blocked ∷ [])
      hello_read (listens hello_flushed.pending)
      (
        (omega arith, tt),
        ((omega arith, (omega arith, (omega arith, (omega arith, tt)))), (tt, tt)),
      )
      hello_reads

frames_in_order_example : (rest : List Bytes) × (hello ∷ [] ≡ (hello ∷ []) ++ rest)
frames_in_order_example =
    frames_in_order 100 hello_flushed.pending idle hello_framed hello_framed [] (hello ∷ [])
      (hello ∷ []) Sends-hello Hears-hello refl

nothing_waiting : waiting hello_flushed.pending ≡ []
nothing_waiting = refl

nothing_read : assemble [] ≡ ([], ok none)
unfolding assemble from_be_bytes
nothing_read = refl

frames_complete_example : hello ∷ [] ≡ hello ∷ []
frames_complete_example =
    frames_complete 100 hello_flushed.pending idle hello_framed (hello ∷ []) (hello ∷ [])
      Sends-hello Hears-hello nothing_waiting nothing_read

flush_to_returns_example :
    (f : Flushed) × (flush_to
        (record { bytes = 7 ∷ 8 ∷ []; offset = 1; limit = 9 })
        (accepted 1 ∷ write_interrupted ∷ accepted 1 ∷ [])
      ≡ some f)
unfolding decisive pending_len
flush_to_returns_example =
    flush_to_returns (record { bytes = 7 ∷ 8 ∷ []; offset = 1; limit = 9 })
      (accepted 1 ∷ write_interrupted ∷ accepted 1 ∷ []) (ground arith)

queue_frame_bound_example :
    (pending_len hello_queued.pending ≤ 100) × (hello_queued.pending.limit ≡ 100)
unfolding new pending_len
queue_frame_bound_example =
    queue_frame_bound (new 100) hello (accepted 2 ∷ write_blocked ∷ []) hello_queued (ground arith)
      (ground arith) hello_queues

abbrev remote : SocketAddr
remote = record { ip = v4 9; port = 51; flowinfo = 0; scope_id = 0 }

recv_round_closed_example :
    recv_round
      ((remote, idle) ∷ [])
      (([], received (encode_frame hello) ∷ received [] ∷ []) ∷ [])
      100
    ≡ some ([], none)
unfolding flush_to
recv_round_closed_example =
    recv_round_closed remote idle [] hello [] 100 (flush_end idle.pending_writes []) refl refl
      (ground arith)
