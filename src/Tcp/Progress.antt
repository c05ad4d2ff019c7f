-- ===== src/Tcp/Progress.antt =====
-- When a flush returns, and how much waits after it.
use hushwire.Common.{
  ℕ, zero, suc, ◌+◌, ◌≤◌, ◌<◌, List, [], ◌∷◌, ◌++◌, some, ◌≡◌, inl, inr, refl, ap, ◌∙◌, arith,
  Bytes, Result-cases, length-drop, ltb, ok, err, length, take, drop, length-append, Bool-cases,
  Option-cases,
}
use hushwire.Tcp.{
  WriteAnswer, accepted, write_interrupted, write_blocked, write_timed_out, write_failed,
  PendingWrites, pending_len, Flushed, Queued, unqueued, flush_queued, queue_frame, enqueue_frame,
  encode_frame, usize_max, write_zero, failed, flush_end, flush_stop, flush_to,
}
use hushwire.Tcp.Pending.{waiting, length-waiting, flush_to-Kept, enqueue_frame_cases}
use hushwire.Tcp.Framing.{length-encode_frame}

-- The answers that are not an interruption, each of which ends the loop or takes bytes.
unfoldable pub decisive : List WriteAnswer → ℕ
decisive [] = 0
decisive (write_interrupted ∷ answers) = decisive answers
decisive (accepted n ∷ answers) = suc (decisive answers)
decisive (write_blocked ∷ answers) = suc (decisive answers)
decisive (write_timed_out ∷ answers) = suc (decisive answers)
decisive (write_failed ∷ answers) = suc (decisive answers)

-- A flush of pending writes returns when the kernel gives more answers that are no interrupts than
-- there are bytes pending.
pub flush_to_returns :
    (p : PendingWrites) (answers : List WriteAnswer)
    → pending_len p < decisive answers
    → (f : Flushed) × (flush_to p answers ≡ some f)
unfolding flush_to decisive pending_len
flush_to_returns p [] h = absurd (omega arith)
flush_to_returns p (answer ∷ answers) h = elim (Bool-cases (ltb p.offset (length p.bytes))) [
  | inr e ↦ (flush_end p (answer ∷ answers), rw (e, flush_to) refl)
  | inl e ↦
      elim answer
          as (λ a.
            pending_len p < decisive (a ∷ answers)
            → (f : Flushed) × (flush_to p (a ∷ answers) ≡ some f)) [
              | accepted n ↦
                  elim n
                    as (λ m.
                      pending_len p < decisive (accepted m ∷ answers)
                      → (f : Flushed) × (flush_to p (accepted m ∷ answers) ≡ some f)) [
                        | zero ↦ λ k. (flush_stop p answers (err write_zero), rw (e, flush_to) refl)
                        | suc m ↦ λ k.
                            let (g, r) =
                              flush_to_returns (record p { offset = p.offset + suc m }) answers
                                (ground arith) in
                            (
                              record g { sent = take (suc m) (drop p.offset p.bytes) ++ g.sent },
                              rw (e, flush_to, r) refl,
                            )
                      ]
              | write_interrupted ↦
                  λ k. let (g, r) = flush_to_returns p answers k in (g, rw (e, flush_to) r)
              | write_blocked ↦ λ k. (flush_stop p answers (ok tt), rw (e, flush_to) refl)
              | write_timed_out ↦ λ k. (flush_stop p answers (ok tt), rw (e, flush_to) refl)
              | write_failed ↦ λ k. (flush_stop p answers (err failed), rw (e, flush_to) refl)
            ]
        h
]

flush_to_shrinks :
    (p : PendingWrites) (answers : List WriteAnswer) (f : Flushed)
    → flush_to p answers ≡ some f
    → pending_len f.pending ≤ pending_len p
unfolding pending_len
flush_to_shrinks p answers f h = omega (
  arith,
  ap length (flush_to-Kept p answers f h).0,
  length-append f.sent (waiting f.pending),
  length-drop p.offset p.bytes,
  length-drop f.pending.offset f.pending.bytes,
)

-- If at most the limit is pending, and the limit is below the greatest number of the machine, then
-- at most the limit is pending after a frame was queued or refused, and the limit is the same.
pub queue_frame_bound :
    (p : PendingWrites) (frame : Bytes) (answers : List WriteAnswer) (q : Queued)
    → p.limit < usize_max
    → pending_len p ≤ p.limit
    → queue_frame p frame answers ≡ some q
    → (pending_len q.pending ≤ p.limit) × (q.pending.limit ≡ p.limit)
unfolding queue_frame flush_queued
queue_frame_bound p frame answers q small bound h = elim (Option-cases (flush_to p answers)) [
  | inl e ↦ absurd (ground arith)
  | inr (f, e) ↦
      let limit = (flush_to-Kept p answers f e).1 in
      let shrunk = flush_to_shrinks p answers f e in
      elim (Result-cases f.result) [
        | inr (error, r) ↦
            let same : unqueued f.pending f error ≡ q = ground arith in
            rw (← same) (omega arith, limit)
        | inl (done, r) ↦ elim (enqueue_frame_cases f.pending frame) [
          | inr (error, c) ↦
              let same : unqueued f.pending f error ≡ q = ground arith in
              rw (← same) (omega arith, limit)
          | inl (ok_enqueued, short, room, behind, limit') ↦
              let queue = (enqueue_frame f.pending frame).0 in
              elim (Option-cases (flush_to queue f.answers)) [
                | inl n ↦ absurd (ground arith)
                | inr (g, n) ↦
                    let limit'' = (flush_to-Kept queue f.answers g n).1 in
                    let shrunk' = flush_to_shrinks queue f.answers g n in
                    let same : g.pending ≡ q.pending = ground arith in
                    let longer = ap length behind in
                    rw (← same) (
                      omega (
                        arith,
                        longer,
                        length-append (waiting f.pending) (encode_frame frame),
                        length-encode_frame frame,
                        length-waiting queue,
                        length-waiting f.pending,
                      ),
                      limit'' ∙ limit' ∙ limit,
                    )
              ]
        ]
      ]
]
