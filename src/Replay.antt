-- ===== src/Replay.antt =====
-- src/replay.rs: the 4096-counter replay window of a receiving direction, as the array of
-- 64-bit words that the code keeps.
pub mod Words
pub mod Shift
pub mod Tracking
pub mod History
use hushwire.Common.{
  ℕ, ◌+◌, ◌-◌, ◌*◌, ◌/◌, ◌%◌, ◌^◌, bit_and, bit_or, Bool, true, false, not, ◌&&◌, List, [], ◌∷◌,
  Option, none, some, ltb, leb, ◌==◌, if◌then◌else◌, get_or, set, replicate,
}

abbrev pub default_window_size : ℕ
default_window_size = 4096

abbrev pub word_bits : ℕ
word_bits = 64

abbrev pub window_words : ℕ
window_words = default_window_size / word_bits

-- Bit zero of `bits` stands for `highest`, bit one for `highest - 1`, and so on.
pub record ReplayWindow : Type 0 where
  pub highest : Option ℕ
  pub bits : List ℕ

unfoldable pub new : ReplayWindow
new = record { highest = none; bits = replicate window_words 0 }

-- `self.bits[word] & (1u64 << bit) != 0`
unfoldable pub bit_is_set : List ℕ → ℕ → Bool
bit_is_set bits distance =
    not (bit_and (get_or bits (distance / word_bits) 0) (2 ^ (distance % word_bits)) == 0)

-- `self.bits[word] |= value`
unfoldable pub or_word : List ℕ → ℕ → ℕ → List ℕ
or_word bits word value = set bits word (bit_or (get_or bits word 0) value)

unfoldable pub set_bit : List ℕ → ℕ → List ℕ
unfolding or_word
set_bit bits distance = or_word bits (distance / word_bits) (2 ^ (distance % word_bits))

-- The writes of one round of the loop of `shift_older`. `<<` drops what leaves the word.
unfoldable pub shift_word : ℕ → ℕ → ℕ → List ℕ → List ℕ
unfolding or_word
shift_word bit_shift destination value bits =
    let moved = or_word bits destination (value * 2 ^ bit_shift % 2 ^ 64) in
    if not (bit_shift == 0) && ltb (destination + 1) window_words
    then or_word moved (destination + 1) (value / 2 ^ (word_bits - bit_shift))
    else moved

-- The loop, over the words of `old` from `source_word` on; its `break` returns the words so far.
unfoldable pub shift_words : ℕ → ℕ → ℕ → List ℕ → List ℕ → List ℕ
shift_words word_shift bit_shift source_word [] bits = bits
shift_words word_shift bit_shift source_word (value ∷ rest) bits =
    let moved = shift_word bit_shift (source_word + word_shift) value bits in
    let next = shift_words word_shift bit_shift (source_word + 1) rest moved in
    if leb window_words (source_word + word_shift) then bits else next

unfoldable pub shift_older : List ℕ → ℕ → List ℕ
shift_older bits amount =
    if leb default_window_size amount
    then replicate window_words 0
    else shift_words (amount / word_bits) (amount % word_bits) 0 bits (replicate window_words 0)

unfoldable pub would_accept : ReplayWindow → ℕ → Bool
would_accept w counter = elim w.highest [
  | none ↦ true
  | some highest ↦
      if ltb highest counter
      then true
      else if leb default_window_size (highest - counter)
      then false
      else not (bit_is_set w.bits (highest - counter))
]

-- The `match` of `mark_authenticated`.
unfoldable pub record_counter : ReplayWindow → ℕ → ReplayWindow
record_counter w counter = elim w.highest [
  | none ↦ record { highest = some counter; bits = set w.bits 0 1 }
  | some highest ↦
      if ltb highest counter
      then (record {
        highest = some counter;
        bits = or_word (shift_older w.bits (counter - highest)) 0 1;
      })
      else record w { bits = set_bit w.bits (highest - counter) }
]

-- The window after the call, and its result.
unfoldable pub mark_authenticated : ReplayWindow → ℕ → ReplayWindow × Bool
mark_authenticated w counter =
    if would_accept w counter then (record_counter w counter, true) else (w, false)
