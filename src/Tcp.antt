-- ===== src/Tcp.antt =====
-- src/tcp_transport.rs: frames with a length prefix over a byte stream. What the kernel answers to
-- the writes and reads of a call is an argument, in order; a call that asks for more answers than
-- there are has not returned yet.
pub mod Pending
pub mod Progress
pub mod Framing
pub mod Delivery
pub mod Connections
pub mod Closing
use hushwire.Common.{
  ℕ, zero, suc, ◌+◌, ◌-◌, ◌*◌, ◌%◌, ◌^◌, Bool, true, false, List, [], ◌∷◌, ◌++◌, Option, none, some,
  ltb, ◌==◌, min, if◌then◌else◌, Result, ok, err, Bytes, length, take, drop, get_or, to_be_bytes,
  from_be_bytes,
}

-- The kinds of `io::Error`; `failed` is any other.
pub data IoError : Type 0 where
  invalid_input would_block write_zero connection_reset invalid_data addr_not_available failed :
      IoError

-- What `Write::write` answers.
pub data WriteAnswer : Type 0 where
  accepted : ℕ → WriteAnswer
  write_interrupted write_blocked write_timed_out write_failed : WriteAnswer

-- What `Read::read` answers; no bytes are the end of the stream.
pub data ReadAnswer : Type 0 where
  received : Bytes → ReadAnswer
  read_interrupted read_blocked read_timed_out read_failed : ReadAnswer

abbrev pub max_pending_write_bytes : ℕ
max_pending_write_bytes = 16 * 1024 * 1024

abbrev pub u16_max : ℕ
u16_max = 65_535

abbrev pub usize_max : ℕ
usize_max = 2 ^ 64 - 1

pub record PendingWrites : Type 0 where
  pub bytes : Bytes
  pub offset : ℕ
  pub limit : ℕ

unfoldable pub new : ℕ → PendingWrites
new limit = record { bytes = []; offset = 0; limit = limit }

unfoldable pub pending_len : PendingWrites → ℕ
pending_len p = length p.bytes - p.offset

unfoldable pub compact : PendingWrites → PendingWrites
unfolding pending_len
compact p = if p.offset == 0 then p else (record p {
  bytes = if pending_len p == 0 then [] else take (pending_len p) (drop p.offset p.bytes);
  offset = 0;
})

-- The length prefix and the frame.
unfoldable pub encode_frame : Bytes → Bytes
encode_frame frame = to_be_bytes 2 (length frame % 2 ^ 16) ++ frame

unfoldable pub enqueue_frame : PendingWrites → Bytes → PendingWrites × Result IoError (Unit {0})
unfolding compact pending_len encode_frame
enqueue_frame p frame =
    if ltb u16_max (length frame)
    then (p, err invalid_input)
    else if ltb p.limit (min (pending_len p + (2 + length frame)) usize_max)
    then (p, err would_block)
    else let compacted = compact p in
      (record compacted { bytes = compacted.bytes ++ encode_frame frame }, ok tt)

-- A call of `flush_to` that has returned: the queue, the bytes that the kernel took, and the
-- answers that are left.
pub record Flushed : Type 0 where
  pub pending : PendingWrites
  pub sent : Bytes
  pub answers : List WriteAnswer
  pub result : Result IoError (Unit {0})

abbrev pub after_sent : Bytes → Option Flushed → Option Flushed
after_sent bytes none = none
after_sent bytes (some f) = some (record f { sent = bytes ++ f.sent })

-- The end of `flush_to` when nothing is left to write.
abbrev pub flush_end : PendingWrites → List WriteAnswer → Flushed
flush_end p answers = record {
  pending = record p { bytes = []; offset = 0 };
  sent = [];
  answers = answers;
  result = ok tt;
}

abbrev pub flush_stop : PendingWrites → List WriteAnswer → Result IoError (Unit {0}) → Flushed
flush_stop p answers result = record { pending = p; sent = []; answers = answers; result = result }

-- The loop of `flush_to`; each round that writes takes one answer.
unfoldable pub flush_to : PendingWrites → List WriteAnswer → Option Flushed
flush_to p [] = if ltb p.offset (length p.bytes) then none else some (flush_end p [])
flush_to p (answer ∷ answers) = elim (ltb p.offset (length p.bytes)) [
  | false ↦ some (flush_end p (answer ∷ answers))
  | true ↦ elim answer [
    | accepted zero ↦ some (flush_stop p answers (err write_zero))
    | accepted (suc n) ↦
        after_sent (take (suc n) (drop p.offset p.bytes))
          (flush_to (record p { offset = p.offset + suc n }) answers)
    | write_interrupted ↦ flush_to p answers
    | write_blocked ↦ some (flush_stop p answers (ok tt))
    | write_timed_out ↦ some (flush_stop p answers (ok tt))
    | write_failed ↦ some (flush_stop p answers (err failed))
  ]
]

-- `ConnState` without its stream.
pub record ConnState : Type 0 where
  pub read_buf : Bytes
  pub pending_writes : PendingWrites

unfoldable pub new_conn : ConnState
unfolding new
new_conn = record { read_buf = []; pending_writes = new max_pending_write_bytes }

-- A call of `queue_frame` that has returned. `queued` says that the frame was enqueued.
pub record Queued : Type 0 where
  pub pending : PendingWrites
  pub sent : Bytes
  pub queued : Bool
  pub answers : List WriteAnswer
  pub result : Result IoError (Unit {0})

-- The second flush of `queue_frame`.
unfoldable pub flush_queued : PendingWrites → Bytes → List WriteAnswer → Option Queued
flush_queued p sent answers = elim (flush_to p answers) [
  | none ↦ none
  | some f ↦ some (record {
    pending = f.pending;
    sent = sent ++ f.sent;
    queued = true;
    answers = f.answers;
    result = f.result;
  })
]

abbrev pub unqueued : PendingWrites → Flushed → IoError → Queued
unqueued pending f e = record {
  pending = pending;
  sent = f.sent;
  queued = false;
  answers = f.answers;
  result = err e;
}

unfoldable pub queue_frame : PendingWrites → Bytes → List WriteAnswer → Option Queued
queue_frame p frame answers = elim (flush_to p answers) [
  | none ↦ none
  | some f ↦ elim f.result [
    | err e ↦ some (unqueued f.pending f e)
    | ok done ↦
        let (pending, enqueued) = enqueue_frame f.pending frame in
        elim enqueued [
          | err e ↦ some (unqueued pending f e)
          | ok done' ↦ flush_queued pending f.sent f.answers
        ]
  ]
]

-- The read loop of `try_read_frame`: the buffer, and the answers that are left.
unfoldable pub read_available :
    Bytes → List ReadAnswer → Option (Bytes × List ReadAnswer × Result IoError (Unit {0}))
read_available buffer [] = none
read_available buffer (answer ∷ answers) = elim answer [
  | received [] ↦ some (buffer, answers, err connection_reset)
  | received (b ∷ bytes) ↦ read_available (buffer ++ b ∷ bytes) answers
  | read_blocked ↦ some (buffer, answers, ok tt)
  | read_interrupted ↦ read_available buffer answers
  | read_timed_out ↦ read_available buffer answers
  | read_failed ↦ some (buffer, answers, err failed)
]

-- The frame at the front of the buffer, and the buffer without it.
unfoldable pub assemble : Bytes → Bytes × Result IoError (Option Bytes)
assemble buffer =
    let frame_len = from_be_bytes (get_or buffer 0 0 ∷ get_or buffer 1 0 ∷ []) in
    if ltb (length buffer) 2
    then (buffer, ok none)
    else if ltb u16_max frame_len
    then (buffer, err invalid_data)
    else if ltb (length buffer) (2 + frame_len)
    then (buffer, ok none)
    else (drop (2 + frame_len) buffer, ok (some (take frame_len (drop 2 buffer))))

-- A call of `try_read_frame` that has returned: what its flush wrote, and the bytes that it read.
pub record ReadFrame : Type 0 where
  pub conn : ConnState
  pub sent : Bytes
  pub heard : Bytes
  pub writes : List WriteAnswer
  pub reads : List ReadAnswer
  pub result : Result IoError (Option Bytes)

-- From the read loop on.
unfoldable pub read_frame : ConnState → Flushed → List ReadAnswer → Option ReadFrame
read_frame c f reads = elim (read_available c.read_buf reads) [
  | none ↦ none
  | some (buffer, rest, end) ↦
      let (buffer', frame) = assemble buffer in
      some (record {
        conn = record c { read_buf = elim end [ err e ↦ buffer | ok done ↦ buffer' ] };
        sent = f.sent;
        heard = drop (length c.read_buf) buffer;
        writes = f.answers;
        reads = rest;
        result = elim end [ err e ↦ err e | ok done ↦ frame ];
      })
]

unfoldable pub try_read_frame : ConnState → List WriteAnswer → List ReadAnswer → Option ReadFrame
try_read_frame c writes reads = elim (flush_to c.pending_writes writes) [
  | none ↦ none
  | some f ↦
      let flushed = record c { pending_writes = f.pending } in
      elim f.result [
        | ok done ↦ read_frame flushed f reads
        | err e ↦ some (record {
          conn = flushed;
          sent = f.sent;
          heard = [];
          writes = f.answers;
          reads = reads;
          result = err e;
        })
      ]
]
