-- ===== src/Tcp/Closing.antt =====
-- A frame that arrives with the end of the stream.
use hushwire.Common.{ℕ, List, [], ◌∷◌, none, some, ◌≡◌, arith, ok, Bytes}
use hushwire.Config.{SocketAddr}
use hushwire.Tcp.{
  WriteAnswer, ReadAnswer, received, Flushed, flush_to, ConnState, read_available, read_frame,
  try_read_frame, encode_frame,
}
use hushwire.Tcp.Framing.{IsShort, encode_frame_bytes}
use hushwire.Tcp.Connections.{recv_round}

-- A frame of at most 65535 bytes that arrives whole together with the end of the stream is not
-- returned, after a flush that succeeds and with nothing in the read buffer before: the round of
-- the receiver drops the connection.
pub recv_round_closed :
    (addr : SocketAddr) (c : ConnState) (writes : List WriteAnswer) (frame : Bytes)
    (more : List ReadAnswer) (size : ℕ) (f : Flushed)
    → flush_to c.pending_writes writes ≡ some f
    → f.result ≡ ok tt
    → IsShort frame
    → recv_round
        ((addr, c) ∷ [])
        ((writes, received (encode_frame frame) ∷ received [] ∷ more) ∷ [])
        size
      ≡ some ([], none)
unfolding recv_round try_read_frame read_frame read_available
recv_round_closed addr c writes frame more size f e done short =
    rw (encode_frame_bytes frame short) (ground arith)
