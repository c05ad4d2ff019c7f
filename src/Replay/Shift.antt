-- ===== src/Replay/Shift.antt =====
-- `shift_older` moves every bit of the window by the same distance, across the words.
use hushwire.Common.{
  ℕ, ◌+◌, ◌-◌, ◌*◌, ◌/◌, ◌%◌, ◌^◌, ◌<◌, Bool, not, ◌&&◌, ◌||◌, List, [], ◌∷◌, ◌≡◌, ◌≢◌, refl, arith,
  ltb, leb, ◌==◌, length, replicate, length-replicate, test_bit, test_bit-zero, test_bit-shl,
  test_bit-shr, test_bit-mod, Bool-cases, inl, inr, ℕ_discrete,
}
use native.Mathlib.Nat.{div-le_self}
use hushwire.Replay.{or_word, shift_word, shift_words, shift_older}
use hushwire.Replay.Words.{
  distance_bit, IsWords, distance_bit-or_word, distance_bit-replicate, distance_bit-cons,
  length-or_word, or_word-IsWords, replicate-IsWords, test_bit_outside,
}

pub length-shift_word : (bs w v : ℕ) (bits : List ℕ) → length (shift_word bs w v bits) ≡ length bits
unfolding shift_word
length-shift_word bs w v bits = ground (
  arith,
  length-or_word bits w (v * 2 ^ bs % 2 ^ 64),
  length-or_word (or_word bits w (v * 2 ^ bs % 2 ^ 64)) (w + 1) (v / 2 ^ (64 - bs)),
)

div-lt : (v k : ℕ) → v < 2 ^ 64 → v / 2 ^ k < 2 ^ 64
div-lt v k h = omega (arith, div-le_self v (2 ^ k))

shift_word-IsWords :
    (bs w v : ℕ) (bits : List ℕ) → v < 2 ^ 64 → IsWords bits → IsWords (shift_word bs w v bits)
unfolding shift_word
shift_word-IsWords bs w v bits h g = elim (Bool-cases (not (bs == 0) && ltb (w + 1) 64)) [
  | inl e ↦ rw e (or_word-IsWords _ (w + 1) _ (div-lt v (64 - bs) h) moved)
  | inr e ↦ rw e moved
]
  where
    moved : IsWords (or_word bits w (v * 2 ^ bs % 2 ^ 64))
    moved = or_word-IsWords bits w _ (omega arith) g

-- Where the bits of one word come to lie.
abbrev moved_bit : ℕ → ℕ → ℕ → ℕ → Bool
moved_bit bs w v d =
    leb (64 * w + bs) d && (ltb d (64 * w + bs + 64) && test_bit v (d - (64 * w + bs)))

low_part : ℕ → ℕ → ℕ → ℕ → Bool
low_part bs w v d = d / 64 == w && test_bit (v * 2 ^ bs % 2 ^ 64) (d % 64)

high_part : ℕ → ℕ → ℕ → ℕ → Bool
high_part bs w v d = d / 64 == w + 1 && test_bit (v / 2 ^ (64 - bs)) (d % 64)

low_part_lem : (bs w v d : ℕ) → bs < 64 → low_part bs w v d ≡ (d / 64 == w && moved_bit bs w v d)
unfolding low_part
low_part_lem bs w v d h = elim (ℕ_discrete (d / 64) w) [
  | yes e ↦
      let i : d % 64 - bs ≡ d - (64 * w + bs) = omega arith in
      ground (arith, test_bit-mod (v * 2 ^ bs) 64 (d % 64), test_bit-shl v bs (d % 64), i)
  | no n ↦ ground arith
]

high_part_lem :
    (bs w v d : ℕ)
    → bs < 64
    → v < 2 ^ 64
    → (not (bs == 0) && high_part bs w v d) ≡ (d / 64 == w + 1 && moved_bit bs w v d)
unfolding high_part
high_part_lem bs w v d h g = elim (ℕ_discrete (d / 64) (w + 1)) [
  | yes e ↦
      let i : bs ≢ 0 → d % 64 + (64 - bs) ≡ d - (64 * w + bs) = omega arith in
      ground
        (arith, test_bit-shr v (64 - bs) (d % 64), i, test_bit_outside v (d % 64 + (64 - bs)) g)
  | no n ↦ ground arith
]

-- One round of the loop, before the window's end.
shift_word_bits :
    (bs w v : ℕ) (bits : List ℕ) (d : ℕ)
    → bs < 64
    → v < 2 ^ 64
    → length bits ≡ 64
    → w < 64
    → d < 4096
    → distance_bit (shift_word bs w v bits) d ≡ (distance_bit bits d || moved_bit bs w v d)
unfolding shift_word low_part high_part
shift_word_bits bs w v bits d h g l i j = ground (
  arith,
  distance_bit-or_word bits w (v * 2 ^ bs % 2 ^ 64) d,
  distance_bit-or_word (or_word bits w (v * 2 ^ bs % 2 ^ 64)) (w + 1) (v / 2 ^ (64 - bs)) d,
  length-or_word bits w (v * 2 ^ bs % 2 ^ 64),
  low_part_lem bs w v d h,
  high_part_lem bs w v d h g,
)

-- The loop adds the bits of the words that are left, moved by `word_shift` words and `bit_shift`.
shift_words_bits :
    (ws bs s : ℕ) (rest bits : List ℕ) (d : ℕ)
    → bs < 64
    → IsWords rest
    → length bits ≡ 64
    → d < 4096
    → distance_bit (shift_words ws bs s rest bits) d ≡ (
        distance_bit bits d
        || (leb (64 * (s + ws) + bs) d && distance_bit rest (d - (64 * (s + ws) + bs))))
unfolding shift_words
shift_words_bits ws bs s [] bits d h g l j =
    ground (arith, test_bit-zero ((d - (64 * (s + ws) + bs)) % 64))
shift_words_bits ws bs s (v ∷ rest) bits d h g l j = elim (Bool-cases (leb 64 (s + ws))) [
  | inl e ↦ rw e (ground arith)
  | inr e ↦
      let p : d - (64 * (s + 1 + ws) + bs) ≡ d - (64 * (s + ws) + bs) - 64 = omega arith in
      rw e (
        ground (
          arith,
          shift_words_bits ws bs (s + 1) rest (shift_word bs (s + ws) v bits) d h g.1,
          length-shift_word bs (s + ws) v bits,
          shift_word_bits bs (s + ws) v bits d h g.0 l,
          distance_bit-cons v rest (d - (64 * (s + ws) + bs)),
          p,
        ))
]

length-shift_words :
    (ws bs s : ℕ) (rest bits : List ℕ) → length (shift_words ws bs s rest bits) ≡ length bits
unfolding shift_words
length-shift_words ws bs s [] bits = refl
length-shift_words ws bs s (v ∷ rest) bits = ground (
  arith,
  length-shift_words ws bs (s + 1) rest (shift_word bs (s + ws) v bits),
  length-shift_word bs (s + ws) v bits,
)

shift_words-IsWords :
    (ws bs s : ℕ) (rest bits : List ℕ)
    → IsWords rest
    → IsWords bits
    → IsWords (shift_words ws bs s rest bits)
unfolding shift_words
shift_words-IsWords ws bs s [] bits g w = w
shift_words-IsWords ws bs s (v ∷ rest) bits g w = elim (Bool-cases (leb 64 (s + ws))) [
  | inl e ↦ rw e w
  | inr e ↦
      rw e
        (shift_words-IsWords ws bs (s + 1) rest _ g.1 (shift_word-IsWords bs (s + ws) v bits g.0 w))
]

-- Shifting the words of the window by an amount moves the bit of each distance below 4096 by that
-- amount and clears the distances below it.
pub shift_older_bits :
    (bits : List ℕ) (amount d : ℕ)
    → IsWords bits
    → d < 4096
    → distance_bit (shift_older bits amount) d ≡ (leb amount d && distance_bit bits (d - amount))
unfolding shift_older
shift_older_bits bits amount d w j = elim (Bool-cases (leb 4096 amount)) [
  | inl e ↦ rw e (ground (arith, distance_bit-replicate 64 d))
  | inr e ↦
      let p : 64 * (0 + amount / 64) + amount % 64 ≡ amount = omega arith in
      rw e (
        ground (
          arith,
          shift_words_bits (amount / 64) (amount % 64) 0 bits (replicate 64 0) d,
          length-replicate {A = ℕ} 64 0,
          distance_bit-replicate 64 d,
          p,
        ))
]

pub length-shift_older : (bits : List ℕ) (amount : ℕ) → length (shift_older bits amount) ≡ 64
unfolding shift_older
length-shift_older bits amount =
    ground (arith, length-shift_words (amount / 64) (amount % 64) 0 bits (replicate 64 0))

pub shift_older-IsWords :
    (bits : List ℕ) (amount : ℕ) → IsWords bits → IsWords (shift_older bits amount)
unfolding shift_older
shift_older-IsWords bits amount w = elim (Bool-cases (leb 4096 amount)) [
  | inl e ↦ rw e (replicate-IsWords 64)
  | inr e ↦ rw e (shift_words-IsWords _ _ 0 bits _ w (replicate-IsWords 64))
]
