-- ===== src/Replay/History.antt =====
-- Runs of calls on a window.
use hushwire.Common.{ℕ, Bool, true, false, List, [], ◌∷◌, ◌++◌, ◌≡◌, refl, arith, ap₂}
use hushwire.Replay.{ReplayWindow, new, mark_authenticated}
use hushwire.Replay.Tracking.{contains, fresh, note, Tracks, new-Tracks, mark_authenticated-Tracks}

-- A direction's calls in order, with what each returns.
unfoldable pub run : ReplayWindow → List ℕ → List Bool
run w [] = []
run w (c ∷ counters) = let (w', accepted) = mark_authenticated w c in accepted ∷ run w' counters

unfoldable pub spec_run : List ℕ → List ℕ → List Bool
spec_run accepted [] = []
spec_run accepted (c ∷ counters) = fresh accepted c ∷ spec_run (note accepted c) counters

run-spec_run_from :
    (w : ReplayWindow) (accepted counters : List ℕ)
    → Tracks w accepted
    → run w counters ≡ spec_run accepted counters
unfolding run spec_run
run-spec_run_from w accepted [] t = refl
run-spec_run_from w accepted (c ∷ counters) t =
    let (t', e) = mark_authenticated-Tracks w accepted c t in
    ap₂ ◌∷◌ e (run-spec_run_from (mark_authenticated w c).0 (note accepted c) counters t')

-- For any sequence of counters the replay window answers each call as the specification does that
-- keeps the list of accepted counters: a counter is accepted if it was not accepted before and no
-- accepted counter is 4096 or more ahead of it.
pub run-spec_run : (counters : List ℕ) → run new counters ≡ spec_run [] counters
run-spec_run counters = run-spec_run_from new [] counters new-Tracks

unfoldable pub after : ReplayWindow → List ℕ → ReplayWindow
after w [] = w
after w (c ∷ counters) = after (mark_authenticated w c).0 counters

noted : List ℕ → List ℕ → List ℕ
noted accepted [] = accepted
noted accepted (c ∷ counters) = noted (note accepted c) counters

after-Tracks :
    (w : ReplayWindow) (accepted counters : List ℕ)
    → Tracks w accepted
    → Tracks (after w counters) (noted accepted counters)
unfolding after noted
after-Tracks w accepted [] t = t
after-Tracks w accepted (c ∷ counters) t =
    after-Tracks (mark_authenticated w c).0 (note accepted c) counters
      (mark_authenticated-Tracks w accepted c t).0

pub contains-note :
    (c : ℕ) (accepted : List ℕ) (a : ℕ)
    → contains c accepted ≡ true
    → contains c (note accepted a) ≡ true
unfolding note contains
contains-note c accepted a m = ground arith

pub contains_marked :
    (c : ℕ) (accepted : List ℕ) → fresh accepted c ≡ true → contains c (note accepted c) ≡ true
unfolding note contains
contains_marked c accepted h = ground arith

pub not_fresh : (c : ℕ) (accepted : List ℕ) → contains c accepted ≡ true → fresh accepted c ≡ false
unfolding fresh
not_fresh c accepted h = ground arith

contains-noted :
    (c : ℕ) (accepted counters : List ℕ)
    → contains c accepted ≡ true
    → contains c (noted accepted counters) ≡ true
unfolding noted note contains
contains-noted c accepted [] m = m
contains-noted c accepted (a ∷ counters) m =
    contains-noted c (note accepted a) counters (ground arith)

after-append : (w : ReplayWindow) (xs ys : List ℕ) → after w (xs ++ ys) ≡ after (after w xs) ys
unfolding after
after-append w [] ys = refl
after-append w (x ∷ xs) ys = after-append (mark_authenticated w x).0 xs ys

-- In a replay window that any calls have left, a counter that a call accepts is refused by every
-- later call, whatever is called in between.
pub accepted_once :
    (earlier between : List ℕ) (c : ℕ)
    → (mark_authenticated (after new earlier) c).1 ≡ true
    → (mark_authenticated (after new (earlier ++ c ∷ between)) c).1 ≡ false
unfolding fresh note contains after
accepted_once earlier between c h =
    let t = after-Tracks new [] earlier new-Tracks in
    let (t', e) = mark_authenticated-Tracks _ (noted [] earlier) c t in
    let u = after-Tracks _ (note (noted [] earlier) c) between t' in
    let e' = (mark_authenticated-Tracks _ (noted (note (noted [] earlier) c) between) c u).1 in
    rw (after-append new earlier (c ∷ between))
      (ground (arith, e, e', contains-noted c (note (noted [] earlier) c) between))
