-- ===== src/Replay/Words.antt =====
-- The words of the window read as one row of bits, by distance from the highest counter.
use hushwire.Common.{
  ℕ, zero, suc, ◌-◌, ◌/◌, ◌%◌, ◌^◌, ◌≤◌, ◌<◌, Bool, false, ◌&&◌, ◌||◌, List, [], ◌∷◌, ◌≡◌, sym,
  arith, ltb, ◌==◌, if◌then◌else◌, get_or, set, length, replicate, All, length-set, get_or-set_self,
  get_or-set_ne, get_or-replicate, test_bit, test_bit-zero, test_bit-bit_or, test_bit-one_bit,
  test_bit-mod, bit_and-one_bit, bit_or-lt, dec_lt, ℕ_discrete, lt→ltb, le→ltb,
}
use hushwire.Replay.{or_word, set_bit, bit_is_set}

-- The bit at a distance.
abbrev pub distance_bit : List ℕ → ℕ → Bool
distance_bit bits d = test_bit (get_or bits (d / 64) 0) (d % 64)

abbrev pub IsWords : List ℕ → Type 0
IsWords = All (λ v. v < 2 ^ 64)

pub bit_is_set-distance_bit : (bits : List ℕ) (d : ℕ) → bit_is_set bits d ≡ distance_bit bits d
unfolding bit_is_set
bit_is_set-distance_bit bits d = ground (arith, bit_and-one_bit (get_or bits (d / 64) 0) (d % 64))

pub distance_bit-or_word :
    (bits : List ℕ) (word value d : ℕ)
    → word < length bits
    → distance_bit (or_word bits word value) d
      ≡ (distance_bit bits d || (d / 64 == word && test_bit value (d % 64)))
unfolding or_word
distance_bit-or_word bits word value d h = elim (ℕ_discrete (d / 64) word) [
  | yes e ↦ rw (e, get_or-set_self bits word _ 0 h, test_bit-bit_or) (ground arith)
  | no n ↦ rw (get_or-set_ne bits word (d / 64) _ 0 (λ p. n (sym p))) (ground arith)
]

pub distance_bit-set_bit :
    (bits : List ℕ) (distance d : ℕ)
    → distance / 64 < length bits
    → distance_bit (set_bit bits distance) d ≡ (distance_bit bits d || d == distance)
unfolding set_bit
distance_bit-set_bit bits distance d h = ground (
  arith,
  distance_bit-or_word bits (distance / 64) (2 ^ (distance % 64)) d h,
  test_bit-one_bit (distance % 64) (d % 64),
)

pub distance_bit-replicate : (n d : ℕ) → distance_bit (replicate n 0) d ≡ false
distance_bit-replicate n d = rw (get_or-replicate {A = ℕ} n (d / 64) 0) (test_bit-zero (d % 64))

pub distance_bit-cons :
    (v : ℕ) (bits : List ℕ) (d : ℕ)
    → distance_bit (v ∷ bits) d ≡ (if ltb d 64 then test_bit v d else distance_bit bits (d - 64))
distance_bit-cons v bits d = elim (dec_lt d 64) [
  | yes p ↦
      let e : d / 64 ≡ 0 = omega arith in
      let f : d % 64 ≡ d = omega arith in rw (e, f, lt→ltb d 64 p)
  | no p ↦
      let e : d / 64 ≡ suc ((d - 64) / 64) = omega arith in
      let f : d % 64 ≡ (d - 64) % 64 = omega arith in rw (e, f, le→ltb d 64 (omega arith))
]

pub length-or_word :
    (bits : List ℕ) (word value : ℕ) → length (or_word bits word value) ≡ length bits
unfolding or_word
length-or_word bits word value = length-set bits word _

pub set-IsWords : (bits : List ℕ) (i v : ℕ) → v < 2 ^ 64 → IsWords bits → IsWords (set bits i v)
set-IsWords [] i v h w = tt
set-IsWords (x ∷ xs) zero v h w = (h, w.1)
set-IsWords (x ∷ xs) (suc i) v h w = (w.0, set-IsWords xs i v h w.1)

get_or-lt : (bits : List ℕ) (i : ℕ) → IsWords bits → get_or bits i 0 < 2 ^ 64
get_or-lt [] i w = omega arith
get_or-lt (x ∷ xs) zero w = w.0
get_or-lt (x ∷ xs) (suc i) w = get_or-lt xs i w.1

pub or_word-IsWords :
    (bits : List ℕ) (word value : ℕ)
    → value < 2 ^ 64
    → IsWords bits
    → IsWords (or_word bits word value)
unfolding or_word
or_word-IsWords bits word value h w =
    set-IsWords bits word _ (bit_or-lt 64 _ value (get_or-lt bits word w) h) w

pub replicate-IsWords : (n : ℕ) → IsWords (replicate n 0)
replicate-IsWords zero = tt
replicate-IsWords (suc n) = (omega arith, replicate-IsWords n)

-- A word has no bit beyond its width.
pub test_bit_outside : (v i : ℕ) → v < 2 ^ 64 → 64 ≤ i → test_bit v i ≡ false
test_bit_outside v i h k =
    let e : v % 2 ^ 64 ≡ v = omega arith in ground (arith, e, test_bit-mod v 64 i)
