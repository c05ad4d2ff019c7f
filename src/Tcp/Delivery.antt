-- ===== src/Tcp/Delivery.antt =====
-- The two ends of a connection: what was queued at one, and what was returned at the other.
use hushwire.Common.{
  ℕ, ◌<◌, Bool, List, [], ◌∷◌, ◌++◌, Option, none, some, ◌≡◌, ◌⊎◌, inl, inr, refl, sym, ap, ◌∙◌,
  arith, if◌then◌else◌, Result, ok, err, Bytes, IsBytes, length, drop, All, Option-cases,
  Result-cases, drop-append,
}
use mathlib.Core.List.{append_assoc, append-nil}
use hushwire.Tcp.{
  IoError, WriteAnswer, ReadAnswer, received, read_interrupted, read_blocked, read_timed_out,
  read_failed, PendingWrites, new, Flushed, flush_to, ConnState, Queued, queue_frame, assemble,
  read_available, ReadFrame, read_frame, try_read_frame, encode_frame,
}
use hushwire.Tcp.Pending.{waiting, flush_to-Kept, waiting-queue_frame}
use hushwire.Tcp.Framing.{
  IsShort, assemble-encode_frame, encode_frame-assemble, assemble_cases, encode_all,
  encode_all-append, encode_all_prefix,
}

abbrev pub queued_frame : Bool → Bytes → List Bytes
queued_frame queued frame = if queued then frame ∷ [] else []

-- A sending end: its queue, the bytes that it has given the kernel, the frames that it has queued.
-- The kernel takes any part of a write, interrupts it, or fails.
pub data Sends (limit : ℕ) : PendingWrites → Bytes → List Bytes → Type 0 where
  opened : Sends limit (new limit) [] []
  queues :
      (p : PendingWrites) (wire : Bytes) (frames : List Bytes) (frame : Bytes)
      (answers : List WriteAnswer) (q : Queued)
      → Sends limit p wire frames
      → queue_frame p frame answers ≡ some q
      → Sends limit q.pending (wire ++ q.sent) (frames ++ queued_frame q.queued frame)
  flushes :
      (p : PendingWrites) (wire : Bytes) (frames : List Bytes) (answers : List WriteAnswer)
      (f : Flushed)
      → Sends limit p wire frames
      → flush_to p answers ≡ some f
      → Sends limit f.pending (wire ++ f.sent) frames

abbrev pub IsReceived : ReadAnswer → Type 0
IsReceived answer = elim answer [ received bytes ↦ IsBytes bytes | _ ↦ Unit {0} ]

abbrev pub returned : Result IoError (Option Bytes) → List Bytes
returned (ok (some frame)) = frame ∷ []
returned (ok none) = []
returned (err e) = []

-- A receiving end: its state, the bytes that it has read, the frames that it has returned.
pub data Hears : ConnState → Bytes → List Bytes → Type 0 where
  listens : (p : PendingWrites) → Hears (record { read_buf = []; pending_writes = p }) [] []
  reads :
      (c : ConnState) (heard : Bytes) (frames : List Bytes) (writes : List WriteAnswer)
      (answers : List ReadAnswer) (r : ReadFrame)
      → Hears c heard frames
      → All IsReceived answers
      → try_read_frame c writes answers ≡ some r
      → Hears r.conn (heard ++ r.heard) (frames ++ returned r.result)

-- What a sending end guarantees.
pub record IsFramed (p : PendingWrites) (wire : Bytes) (frames : List Bytes) : Type 0 where
  pub stream : wire ++ waiting p ≡ encode_all frames
  pub short : All IsShort frames

All-append {ℓ} :
    {A : Type ℓ} (P : A → Type 0) (xs ys : List A) → All P xs → All P ys → All P (xs ++ ys)
All-append P [] ys h k = k
All-append P (x ∷ xs) ys h k = (h.0, All-append P xs ys h.1 k)

All-drop_front {ℓ} : {A : Type ℓ} (P : A → Type 0) (xs ys : List A) → All P (xs ++ ys) → All P ys
All-drop_front P [] ys h = h
All-drop_front P (x ∷ xs) ys h = All-drop_front P xs ys h.1

queued-IsFramed :
    (p p' : PendingWrites) (wire sent frame : Bytes) (frames : List Bytes)
    → IsFramed p wire frames
    → IsShort frame
    → sent ++ waiting p' ≡ waiting p ++ encode_frame frame
    → IsFramed p' (wire ++ sent) (frames ++ frame ∷ [])
unfolding encode_all
queued-IsFramed p p' wire sent frame frames v short e = record {
  stream =
      append_assoc wire sent (waiting p')
      ∙ ap (λ ys. wire ++ ys) e
      ∙ sym (append_assoc wire (waiting p) (encode_frame frame))
      ∙ ap (λ ys. ys ++ encode_frame frame) v.stream
      ∙ ap (λ ys. encode_all frames ++ ys) (sym (append-nil (encode_frame frame)))
      ∙ sym (encode_all-append frames (frame ∷ []));
  short = All-append IsShort frames (frame ∷ []) v.short (short, tt);
}

sent-IsFramed :
    (p p' : PendingWrites) (wire sent : Bytes) (frames : List Bytes)
    → IsFramed p wire frames
    → sent ++ waiting p' ≡ waiting p
    → IsFramed p' (wire ++ sent) frames
sent-IsFramed p p' wire sent frames v e = record {
  stream = append_assoc wire sent (waiting p') ∙ ap (λ ys. wire ++ ys) e ∙ v.stream;
  short = v.short;
}

-- stream
pub Sends-IsFramed :
    {limit : ℕ} {p : PendingWrites} {wire : Bytes} {frames : List Bytes}
    → Sends limit p wire frames
    → IsFramed p wire frames
unfolding new encode_all
Sends-IsFramed opened = record { stream = refl; short = tt }
Sends-IsFramed (queues p wire frames frame answers q s h) =
    elim (waiting-queue_frame p frame answers q h).1 [
      | inl (queued, short, e) ↦
          rw queued
            (queued-IsFramed p q.pending wire q.sent frame frames (Sends-IsFramed s) short e)
      | inr (refused, e, failed) ↦
          rw (refused, append-nil frames)
            (sent-IsFramed p q.pending wire q.sent frames (Sends-IsFramed s) e)
    ]
Sends-IsFramed (flushes p wire frames answers f s h) =
    sent-IsFramed p f.pending wire f.sent frames (Sends-IsFramed s) (flush_to-Kept p answers f h).0

-- The read loop only adds bytes at the end of the buffer.
read_available_grows :
    (buffer buffer' : Bytes) (answers rest : List ReadAnswer) (end : Result IoError (Unit {0}))
    → All IsReceived answers
    → read_available buffer answers ≡ some (buffer', rest, end)
    → (bytes : Bytes) × (buffer' ≡ buffer ++ bytes) × IsBytes bytes
unfolding read_available
read_available_grows buffer buffer' [] rest end w h = absurd (ground arith)
read_available_grows buffer buffer' (received [] ∷ answers) rest end w h =
    ([], ground (arith, append-nil buffer), tt)
read_available_grows buffer buffer' (received (b ∷ bytes) ∷ answers) rest end w h =
    let (more, e, v) = read_available_grows (buffer ++ b ∷ bytes) buffer' answers rest end w.1 h in
    (
      (b ∷ bytes) ++ more,
      e ∙ append_assoc buffer (b ∷ bytes) more,
      All-append (λ c. c < 256) (b ∷ bytes) more w.0 v,
    )
read_available_grows buffer buffer' (read_blocked ∷ answers) rest end w h =
    ([], ground (arith, append-nil buffer), tt)
read_available_grows buffer buffer' (read_interrupted ∷ answers) rest end w h =
    read_available_grows buffer buffer' answers rest end w.1 h
read_available_grows buffer buffer' (read_timed_out ∷ answers) rest end w h =
    read_available_grows buffer buffer' answers rest end w.1 h
read_available_grows buffer buffer' (read_failed ∷ answers) rest end w h =
    ([], ground (arith, append-nil buffer), tt)

List-cases : (xs : List Bytes) → (xs ≡ []) ⊎ ((y : Bytes) × (ys : List Bytes) × (xs ≡ y ∷ ys))
List-cases [] = inl refl
List-cases (y ∷ ys) = inr (y, ys, refl)

abbrev Splits : Bytes → Bytes → Result IoError (Option Bytes) → Type 0
Splits buffer rest result =
    (encode_all (returned result) ++ rest ≡ buffer) × IsBytes rest × All IsShort (returned result)

assemble-Splits :
    (buffer : Bytes) → IsBytes buffer → Splits buffer (assemble buffer).0 (assemble buffer).1
unfolding encode_all
assemble-Splits buffer w = elim (assemble_cases buffer) [
  | inl e ↦ rw e (refl, w, tt)
  | inr (inl (error, e)) ↦ rw e (refl, w, tt)
  | inr (inr (rest, frame, e)) ↦
      let (stream, short) = encode_frame-assemble buffer rest frame w e in
      rw e (
        append_assoc (encode_frame frame) [] rest ∙ stream,
        All-drop_front (λ b. b < 256) (encode_frame frame) rest (rw stream w),
        (short, tt),
      )
]

read_frame-Splits :
    (c : ConnState) (f : Flushed) (answers : List ReadAnswer) (r : ReadFrame)
    → IsBytes c.read_buf
    → All IsReceived answers
    → read_frame c f answers ≡ some r
    → Splits (c.read_buf ++ r.heard) r.conn.read_buf r.result
unfolding read_frame encode_all
read_frame-Splits c f answers r w v h = elim (Option-cases (read_available c.read_buf answers)) [
  | inl e ↦ absurd (ground arith)
  | inr ((buffer, rest, end), e) ↦
      let (more, grown, u) = read_available_grows c.read_buf buffer answers rest end v e in
      let all : IsBytes buffer = rw grown (All-append (λ b. b < 256) c.read_buf more w u) in
      let tail : drop (length c.read_buf) buffer ≡ more = rw grown (drop-append c.read_buf more) in
      let split = assemble-Splits buffer all in
      elim (Result-cases end) [
        | inl (done, g) ↦
            let heard : r.heard ≡ more = ground arith in
            let left : r.conn.read_buf ≡ (assemble buffer).0 = ground arith in
            let frame : r.result ≡ (assemble buffer).1 = ground arith in
            rw (heard, left, frame, ← grown) split
        | inr (error, g) ↦
            let heard : r.heard ≡ more = ground arith in
            let left : r.conn.read_buf ≡ buffer = ground arith in
            let frame : r.result ≡ err error = ground arith in
            rw (heard, left, frame, ← grown) (refl, all, tt)
      ]
]

-- What a receiving end guarantees.
pub record IsAssembled (c : ConnState) (heard : Bytes) (frames : List Bytes) : Type 0 where
  pub stream : encode_all frames ++ c.read_buf ≡ heard
  pub bytes : IsBytes c.read_buf
  pub short : All IsShort frames

step-IsAssembled :
    (c c' : ConnState) (heard more : Bytes) (frames : List Bytes)
    (result : Result IoError (Option Bytes))
    → IsAssembled c heard frames
    → Splits (c.read_buf ++ more) c'.read_buf result
    → IsAssembled c' (heard ++ more) (frames ++ returned result)
step-IsAssembled c c' heard more frames result v (e, w, s) = record {
  stream =
      ap (λ ys. ys ++ c'.read_buf) (encode_all-append frames (returned result))
      ∙ append_assoc (encode_all frames) (encode_all (returned result)) c'.read_buf
      ∙ ap (λ ys. encode_all frames ++ ys) e
      ∙ sym (append_assoc (encode_all frames) c.read_buf more)
      ∙ ap (λ ys. ys ++ more) v.stream;
  bytes = w;
  short = All-append IsShort frames (returned result) v.short s;
}

try_read_frame-Splits :
    (c : ConnState) (writes : List WriteAnswer) (answers : List ReadAnswer) (r : ReadFrame)
    → IsBytes c.read_buf
    → All IsReceived answers
    → try_read_frame c writes answers ≡ some r
    → Splits (c.read_buf ++ r.heard) r.conn.read_buf r.result
unfolding try_read_frame encode_all
try_read_frame-Splits c writes answers r w v h =
    elim (Option-cases (flush_to c.pending_writes writes)) [
      | inl e ↦ absurd (ground arith)
      | inr (f, e) ↦ elim (Result-cases f.result) [
        | inl (done, g) ↦
            read_frame-Splits (record c { pending_writes = f.pending }) f answers r w v
              (ground arith)
        | inr (error, g) ↦
            let heard : r.heard ≡ [] = ground arith in
            let left : r.conn.read_buf ≡ c.read_buf = ground arith in
            let frame : r.result ≡ err error = ground arith in
            rw (heard, left, frame) (sym (append-nil c.read_buf), w, tt)
      ]
    ]

pub Hears-IsAssembled :
    {c : ConnState} {heard : Bytes} {frames : List Bytes}
    → Hears c heard frames
    → IsAssembled c heard frames
unfolding encode_all
Hears-IsAssembled (listens p) = record { stream = refl; bytes = tt; short = tt }
Hears-IsAssembled (reads c heard frames writes answers r s v h) =
    let before = Hears-IsAssembled s in
    step-IsAssembled c r.conn heard r.heard frames r.result before
      (try_read_frame-Splits c writes answers r before.bytes v h)

-- Whatever parts of the writes and reads the kernel takes, interrupts or fails at the two ends of
-- a TCP connection, as long as the bytes that the reader has read are a beginning of those that
-- the writer has written, the frames that the reader has returned are a beginning of the frames
-- that the writer has queued, each whole and in order.
pub frames_in_order :
    (limit : ℕ) (p : PendingWrites) (c : ConnState) (wire heard flight : Bytes)
    (sent got : List Bytes)
    → Sends limit p wire sent
    → Hears c heard got
    → wire ≡ heard ++ flight
    → (rest : List Bytes) × (sent ≡ got ++ rest)
frames_in_order limit p c wire heard flight sent got s h e =
    let framed = Sends-IsFramed s in
    let parsed = Hears-IsAssembled h in
    let tail = c.read_buf ++ (flight ++ waiting p) in
    let all : encode_all got ++ tail ≡ encode_all sent =
      sym (append_assoc (encode_all got) c.read_buf (flight ++ waiting p))
      ∙ ap (λ ys. ys ++ (flight ++ waiting p)) parsed.stream
      ∙ sym (append_assoc heard flight (waiting p))
      ∙ ap (λ ys. ys ++ waiting p) (sym e)
      ∙ framed.stream in
    let (rest, split, left) = encode_all_prefix got sent tail parsed.short framed.short all in
    (rest, split)

-- When nothing is pending at the writer of a TCP connection, the reader has read everything that
-- was written and no complete frame is left in its buffer, it has returned exactly the frames that
-- were queued.
pub frames_complete :
    (limit : ℕ) (p : PendingWrites) (c : ConnState) (wire : Bytes) (sent got : List Bytes)
    → Sends limit p wire sent
    → Hears c wire got
    → waiting p ≡ []
    → assemble c.read_buf ≡ (c.read_buf, ok none)
    → got ≡ sent
unfolding encode_all
frames_complete limit p c wire sent got s h empty done =
    let framed = Sends-IsFramed s in
    let parsed = Hears-IsAssembled h in
    let all : encode_all got ++ c.read_buf ≡ encode_all sent =
      parsed.stream ∙ sym (append-nil wire) ∙ ap (λ ys. wire ++ ys) (sym empty) ∙ framed.stream in
    let (rest, split, left) = encode_all_prefix got sent c.read_buf parsed.short framed.short all in
    elim (List-cases rest) [
      | inl none_left ↦ sym (split ∙ ap (λ ys. got ++ ys) none_left ∙ append-nil got)
      | inr (frame, frames, more) ↦
          let later : sent ≡ got ++ frame ∷ frames = split ∙ ap (λ ys. got ++ ys) more in
          let short = All-drop_front IsShort got (frame ∷ frames) (rw later at framed.short) in
          let front = assemble-encode_frame frame (encode_all frames) short.0 in
          let same : c.read_buf ≡ encode_frame frame ++ encode_all frames =
            left ∙ ap encode_all more in
          absurd (ground (arith, ap assemble same, front, done))
    ]
