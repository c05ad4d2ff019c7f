-- ===== src/Noise/Lifetime.antt =====
-- When a session is replaced and when it is refused.
use hushwire.Common.{ℕ, ◌+◌, ◌≤◌, true, ◌≡◌, arith}
use hushwire.Noise.{Session, should_rekey, is_expired, from_secs}

-- A session that is expired at some instant, for its age or its counter, asks for a replacement at
-- every instant from 60 seconds before on.
pub rekey_before_reject :
    {T : Type 0} (s : Session T) (now : ℕ)
    → is_expired s now ≡ true
    → (earlier : ℕ) → now ≤ earlier + from_secs 60
    → should_rekey s earlier ≡ true
unfolding should_rekey is_expired
rekey_before_reject s now expired earlier h = ground arith

-- Age only grows: once expired, always expired.
pub is_expired_later :
    {T : Type 0} (s : Session T) (now later : ℕ)
    → now ≤ later
    → is_expired s now ≡ true
    → is_expired s later ≡ true
unfolding is_expired
is_expired_later s now later h e = ground arith
