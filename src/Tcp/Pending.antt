-- ===== src/Tcp/Pending.antt =====
-- The bytes that wait in a queue of writes: what each call does to them.
use hushwire.Common.{
  ℕ, zero, suc, ◌+◌, ◌-◌, ◌≤◌, true, false, List, [], ◌∷◌, ◌++◌, some, ◌≡◌, ◌⊎◌, inl, inr, refl,
  sym, ap, subst, ◌∙◌, arith, ltb, ◌==◌, min, ok, err, Bytes, length, take, drop, Bool-cases,
  Option-cases, Result-cases, length-drop, take-append-drop, drop-drop,
}
use mathlib.Core.List.{append_assoc}
use hushwire.Tcp.{
  IoError, invalid_input, would_block, write_zero, failed, WriteAnswer, accepted, write_interrupted,
  write_blocked, write_timed_out, write_failed, PendingWrites, pending_len, compact, encode_frame,
  enqueue_frame, Flushed, flush_end, flush_stop, flush_to, Queued, unqueued, flush_queued,
  queue_frame, u16_max, usize_max,
}

-- The bytes not yet written.
abbrev pub waiting : PendingWrites → Bytes
waiting p = drop p.offset p.bytes

drop_all {ℓ} : {A : Type ℓ} (n : ℕ) (xs : List A) → length xs ≤ n → drop n xs ≡ []
drop_all zero [] h = refl
drop_all zero (x ∷ xs) h = absurd (omega arith)
drop_all (suc n) [] h = refl
drop_all (suc n) (x ∷ xs) h = drop_all n xs (omega arith)

take_all {ℓ} : {A : Type ℓ} (n : ℕ) (xs : List A) → length xs ≤ n → take n xs ≡ xs
take_all zero [] h = refl
take_all zero (x ∷ xs) h = absurd (omega arith)
take_all (suc n) [] h = refl
take_all (suc n) (x ∷ xs) h = ap (λ ys. x ∷ ys) (take_all n xs (omega arith))

waiting-compact : (p : PendingWrites) → (compact p).bytes ≡ waiting p
unfolding compact pending_len
waiting-compact p = elim (Bool-cases (p.offset == 0)) [
  | inl e ↦ let z : p.offset ≡ 0 = ground arith in rw (e, compact, z) refl
  | inr e ↦ elim (Bool-cases (length p.bytes - p.offset == 0)) [
    | inl f ↦ rw (e, compact, f) (sym (drop_all p.offset p.bytes (ground arith)))
    | inr f ↦
        rw (e, compact, f)
          (take_all (length p.bytes - p.offset) (waiting p)
            (omega (arith, length-drop p.offset p.bytes)))
  ]
]

compact_offset : (p : PendingWrites) → (compact p).offset ≡ 0
unfolding compact
compact_offset p = ground arith

compact_limit : (p : PendingWrites) → (compact p).limit ≡ p.limit
unfolding compact
compact_limit p = ground arith

-- A frame is queued whole behind the bytes that wait, or refused with the queue as it was.
pub enqueue_frame_cases :
    (p : PendingWrites) (frame : Bytes)
    → (((enqueue_frame p frame).1 ≡ ok tt)
        × (length frame ≤ u16_max)
        × (min (pending_len p + (2 + length frame)) usize_max ≤ p.limit)
        × (waiting (enqueue_frame p frame).0 ≡ waiting p ++ encode_frame frame)
        × ((enqueue_frame p frame).0.limit ≡ p.limit))
      ⊎ ((e : IoError) × ((enqueue_frame p frame) ≡ (p, err e)))
unfolding enqueue_frame pending_len
enqueue_frame_cases p frame = elim (Bool-cases (ltb u16_max (length frame))) [
  | inl e ↦ inr (invalid_input, rw (e, enqueue_frame) refl)
  | inr e ↦
      elim (Bool-cases
        (ltb p.limit (min (length p.bytes - p.offset + (2 + length frame)) usize_max))) [
          | inl f ↦ inr (would_block, rw (e, enqueue_frame, f) refl)
          | inr f ↦ inl (
              rw (e, enqueue_frame, f, compact_offset p, waiting-compact p, compact_limit p)
                (refl, ground arith, ground arith, refl, refl))
        ]
]

pub length-waiting : (p : PendingWrites) → length (waiting p) ≡ pending_len p
unfolding pending_len
length-waiting p = length-drop p.offset p.bytes

abbrev Kept : PendingWrites → Flushed → Type 0
Kept p f = (f.sent ++ waiting f.pending ≡ waiting p) × (f.pending.limit ≡ p.limit)

end-Kept :
    (p : PendingWrites) (answers : List WriteAnswer)
    → ltb p.offset (length p.bytes) ≡ false
    → Kept p (flush_end p answers)
end-Kept p answers e = (sym (drop_all p.offset p.bytes (ground arith)), refl)

-- The bytes that were sent in one round and in the rounds after it.
round-Kept :
    (p : PendingWrites) (n : ℕ) (g : Flushed)
    → Kept (record p { offset = p.offset + n }) g
    → Kept p (record g { sent = take n (waiting p) ++ g.sent })
round-Kept p n g k = (
  append_assoc (take n (waiting p)) g.sent (waiting g.pending)
      ∙ ap (λ ys. take n (waiting p) ++ ys) (k.0 ∙ sym (drop-drop p.offset n p.bytes))
      ∙ take-append-drop n (waiting p),
  k.1,
)

-- A flush that returns has written exactly the front of what waited: no byte is lost, repeated or
-- reordered, whatever part the kernel takes each time and also when it fails.
pub flush_to-Kept :
    (p : PendingWrites) (answers : List WriteAnswer) (f : Flushed)
    → flush_to p answers ≡ some f
    → Kept p f
unfolding flush_to
flush_to-Kept p [] f h = elim (Bool-cases (ltb p.offset (length p.bytes))) [
  | inl e ↦ absurd (ground arith)
  | inr e ↦
      let same : flush_end p [] ≡ f = ground arith in subst (λ g. Kept p g) same (end-Kept p [] e)
]
flush_to-Kept p (answer ∷ answers) f h = elim (Bool-cases (ltb p.offset (length p.bytes))) [
  | inr e ↦
      let same : flush_end p (answer ∷ answers) ≡ f = ground arith in
      subst (λ g. Kept p g) same (end-Kept p (answer ∷ answers) e)
  | inl e ↦
      elim answer as (λ a. flush_to p (a ∷ answers) ≡ some f → Kept p f) [
        | accepted n ↦ elim n as (λ m. flush_to p (accepted m ∷ answers) ≡ some f → Kept p f) [
          | zero ↦ λ h.
              let same : flush_stop p answers (err write_zero) ≡ f = ground arith in
              subst (λ g. Kept p g) same (refl, refl)
          | suc m ↦ λ h.
              elim (Option-cases (flush_to (record p { offset = p.offset + suc m }) answers)) [
                | inl n ↦ absurd (ground arith)
                | inr (g, r) ↦
                    let same : record g { sent = take (suc m) (waiting p) ++ g.sent } ≡ f =
                      ground arith in
                    subst (λ g. Kept p g) same
                      (round-Kept p (suc m) g
                        (flush_to-Kept (record p { offset = p.offset + suc m }) answers g r))
              ]
        ]
        | write_interrupted ↦ λ h. flush_to-Kept p answers f (ground arith)
        | write_blocked ↦ λ h.
            let same : flush_stop p answers (ok tt) ≡ f = ground arith in
            subst (λ g. Kept p g) same (refl, refl)
        | write_timed_out ↦ λ h.
            let same : flush_stop p answers (ok tt) ≡ f = ground arith in
            subst (λ g. Kept p g) same (refl, refl)
        | write_failed ↦ λ h.
            let same : flush_stop p answers (err failed) ≡ f = ground arith in
            subst (λ g. Kept p g) same (refl, refl)
      ]
        h
]

-- What a call of `queue_frame` that returns leaves for the wire: the frame is behind what waited,
-- whole, or nothing of it is there and the call failed.
pub waiting-queue_frame :
    (p : PendingWrites) (frame : Bytes) (answers : List WriteAnswer) (q : Queued)
    → queue_frame p frame answers ≡ some q
    → (q.pending.limit ≡ p.limit)
      × (((q.queued ≡ true)
            × (length frame ≤ u16_max)
            × (q.sent ++ waiting q.pending ≡ waiting p ++ encode_frame frame))
          ⊎ ((q.queued ≡ false)
              × (q.sent ++ waiting q.pending ≡ waiting p)
              × ((e : IoError) × (q.result ≡ err e))))
unfolding queue_frame flush_queued
waiting-queue_frame p frame answers q h = elim (Option-cases (flush_to p answers)) [
  | inl e ↦ absurd (ground arith)
  | inr (f, e) ↦
      let (kept, limit) = flush_to-Kept p answers f e in
      elim (Result-cases f.result) [
        | inr (error, r) ↦
            let same : unqueued f.pending f error ≡ q = ground arith in
            rw (← same) (limit, inr (refl, kept, (error, refl)))
        | inl (done, r) ↦ elim (enqueue_frame_cases f.pending frame) [
          | inr (error, c) ↦
              let same : unqueued f.pending f error ≡ q = ground arith in
              rw (← same) (limit, inr (refl, kept, (error, refl)))
          | inl (ok_enqueued, short, room, behind, limit') ↦
              let queue = (enqueue_frame f.pending frame).0 in
              elim (Option-cases (flush_to queue f.answers)) [
                | inl n ↦ absurd (ground arith)
                | inr (g, n) ↦
                    let (kept', limit'') = flush_to-Kept queue f.answers g n in
                    let same : record {
                      pending = g.pending;
                      sent = f.sent ++ g.sent;
                      queued = true;
                      answers = g.answers;
                      result = g.result;
                    }
                        ≡ q =
                      ground arith in
                    rw (← same) (
                      limit'' ∙ limit' ∙ limit,
                      inl (
                        refl,
                        short,
                        append_assoc f.sent g.sent (waiting g.pending)
                            ∙ ap (λ ys. f.sent ++ ys) (kept' ∙ behind)
                            ∙ sym (append_assoc f.sent (waiting f.pending) (encode_frame frame))
                            ∙ ap (λ ys. ys ++ encode_frame frame) kept,
                      ),
                    )
              ]
        ]
      ]
]
