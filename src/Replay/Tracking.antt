-- ===== src/Replay/Tracking.antt =====
-- The window against the list of the counters that it has accepted.
use hushwire.Common.{
  ℕ, suc, ◌+◌, ◌-◌, ◌/◌, ◌%◌, ◌≤◌, ◌<◌, Bool, true, false, not, ◌&&◌, ◌||◌, List, [], ◌∷◌, Option,
  none, some, ◌≡◌, refl, sym, arith, ltb, leb, ◌==◌, if◌then◌else◌, set, length, length-set,
  test_bit-one_bit, get_or-set_self, get_or-set_ne, Bool-cases, ◌∙◌, ltb→lt, ◌^◌, inl, inr,
  ℕ_discrete,
}
use native.Mathlib.Nat.{pow-suc, one-le-pow, pow-le-pow_right}
use hushwire.Replay.{
  ReplayWindow, new, or_word, set_bit, would_accept, record_counter, mark_authenticated,
  shift_older,
}
use hushwire.Replay.Words.{
  distance_bit, IsWords, bit_is_set-distance_bit, distance_bit-or_word, distance_bit-set_bit,
  distance_bit-replicate, length-or_word, or_word-IsWords, replicate-IsWords, set-IsWords,
}
use hushwire.Replay.Shift.{shift_older_bits, length-shift_older, shift_older-IsWords}

unfoldable pub contains : ℕ → List ℕ → Bool
contains c [] = false
contains c (a ∷ accepted) = a == c || contains c accepted

-- Some accepted counter is 4096 or more ahead.
unfoldable pub exceeded : ℕ → List ℕ → Bool
exceeded c [] = false
exceeded c (a ∷ accepted) = leb (c + 4096) a || exceeded c accepted

-- What a receiver should take: a counter not taken before and not 4096 behind one that was.
unfoldable pub fresh : List ℕ → ℕ → Bool
fresh accepted c = not (contains c accepted) && not (exceeded c accepted)

unfoldable pub note : List ℕ → ℕ → List ℕ
note accepted c = if fresh accepted c then c ∷ accepted else accepted

abbrev pub Covers : Option ℕ → List ℕ → List ℕ → Type 0
Covers none bits accepted = (accepted ≡ []) × ((d : ℕ) → distance_bit bits d ≡ false)
Covers (some h) bits accepted =
    (contains h accepted ≡ true)
    × ((c : ℕ) → contains c accepted ≡ true → c ≤ h)
    × ((d : ℕ) → d < 4096 → d ≤ h → distance_bit bits d ≡ contains (h - d) accepted)

-- The window holds exactly the accepted counters that are in reach.
pub record Tracks (w : ReplayWindow) (accepted : List ℕ) : Type 0 where
  pub sized : length w.bits ≡ 64
  pub words : IsWords w.bits
  pub covers : Covers w.highest w.bits accepted

pub new-Tracks : Tracks new []
unfolding new
new-Tracks = record {
  sized = refl;
  words = replicate-IsWords 64;
  covers = (refl, λ d. distance_bit-replicate 64 d);
}

exceeded_above :
    (c h : ℕ) (accepted : List ℕ)
    → ((a : ℕ) → contains a accepted ≡ true → a ≤ h)
    → h < c + 4096
    → exceeded c accepted ≡ false
unfolding exceeded contains
exceeded_above c h [] top lt = refl
exceeded_above c h (a ∷ accepted) top lt =
    ground (arith, top a, exceeded_above c h accepted (λ b m. top b (ground arith)) lt)

exceeded_of :
    (c h : ℕ) (accepted : List ℕ)
    → contains h accepted ≡ true
    → c + 4096 ≤ h
    → exceeded c accepted ≡ true
unfolding exceeded contains
exceeded_of c h [] m le = cc
exceeded_of c h (a ∷ accepted) m le = ground (arith, exceeded_of c h accepted)

accept_cases :
    (o : Option ℕ) (bits accepted : List ℕ) (c : ℕ)
    → Covers o bits accepted
    → would_accept (record { highest = o; bits = bits }) c ≡ fresh accepted c
unfolding would_accept fresh contains exceeded
accept_cases none bits accepted c t = rw (t.0)
accept_cases (some h) bits accepted c t = elim (Bool-cases (ltb h c)) [
  | inl e ↦ ground (arith, exceeded_above c h accepted t.1, t.1 c)
  | inr e ↦ elim (Bool-cases (leb 4096 (h - c))) [
    | inl far ↦ ground (arith, exceeded_of c h accepted t.0)
    | inr near ↦
        let p : h - (h - c) ≡ c = ground arith in
        ground (
          arith,
          exceeded_above c h accepted t.1,
          bit_is_set-distance_bit bits (h - c),
          t.2 (h - c),
          p,
        )
  ]
]

-- The window's answer is the specification's, whatever was accepted before.
pub would_accept-Tracks :
    (w : ReplayWindow) (accepted : List ℕ) (c : ℕ)
    → Tracks w accepted
    → would_accept w c ≡ fresh accepted c
would_accept-Tracks w accepted c t = accept_cases w.highest w.bits accepted c t.covers

set_low_bits :
    (bits : List ℕ) (d : ℕ)
    → 0 < length bits
    → ((d : ℕ) → distance_bit bits d ≡ false)
    → distance_bit (set bits 0 1) d ≡ (d == 0)
set_low_bits bits d l h = elim (ℕ_discrete (d / 64) 0) [
  | yes e ↦ rw (e, get_or-set_self bits 0 1 0 l) (ground (arith, test_bit-one_bit 0 (d % 64)))
  | no n ↦ rw (get_or-set_ne bits 0 (d / 64) 1 0 (λ p. n (sym p))) (ground (arith, h d))
]

newer_bits :
    (bits accepted : List ℕ) (h c d : ℕ)
    → IsWords bits
    → Covers (some h) bits accepted
    → h < c
    → d < 4096
    → d ≤ c
    → distance_bit (or_word (shift_older bits (c - h)) 0 1) d ≡ contains (c - d) (c ∷ accepted)
unfolding contains
newer_bits bits accepted h c d w t lt j k =
    let p : c - h ≤ d → h - (d - (c - h)) ≡ c - d = omega arith in
    let len : 0 < length (shift_older bits (c - h)) =
      omega (arith, length-shift_older bits (c - h)) in
    ground (
      arith,
      distance_bit-or_word (shift_older bits (c - h)) 0 1 d len,
      test_bit-one_bit 0 (d % 64),
      shift_older_bits bits (c - h) d w j,
      t.2 (d - (c - h)),
      t.1 (c - d),
      p,
    )

one_bit-lt : (i : ℕ) → i < 64 → 2 ^ i < 2 ^ 64
one_bit-lt i h = omega (
  arith,
  pow-suc 2 i,
  one-le-pow i 2,
  pow-le-pow_right {n = 2} (omega arith) {i = suc i} {j = 64} h,
)

in_reach :
    (h c : ℕ) (accepted : List ℕ)
    → contains h accepted ≡ true
    → fresh accepted c ≡ true
    → h < c + 4096
unfolding fresh
in_reach h c accepted m f = ground (arith, exceeded_of c h accepted m)

older_bits :
    (bits accepted : List ℕ) (h c d : ℕ)
    → length bits ≡ 64
    → Covers (some h) bits accepted
    → c ≤ h
    → h < c + 4096
    → d < 4096
    → d ≤ h
    → distance_bit (set_bit bits (h - c)) d ≡ contains (h - d) (c ∷ accepted)
unfolding contains
older_bits bits accepted h c d l t le near j k =
    let in_range : (h - c) / 64 < length bits = omega arith in
    ground (arith, distance_bit-set_bit bits (h - c) d in_range, t.2 d)

first_Tracks :
    (bits : List ℕ) (c : ℕ)
    → length bits ≡ 64
    → IsWords bits
    → ((d : ℕ) → distance_bit bits d ≡ false)
    → Tracks (record { highest = some c; bits = set bits 0 1 }) (c ∷ [])
unfolding contains
first_Tracks bits c l g t = record {
  sized = length-set bits 0 1 ∙ l;
  words = set-IsWords bits 0 1 (omega arith) g;
  covers = (
    ground arith,
    λ a m. ground arith,
    λ d j k. ground (arith, set_low_bits bits d (omega arith) t),
  );
}

newer_Tracks :
    (bits accepted : List ℕ) (h c : ℕ)
    → IsWords bits
    → Covers (some h) bits accepted
    → h < c
    → Tracks
        (record { highest = some c; bits = or_word (shift_older bits (c - h)) 0 1 })
        (c ∷ accepted)
unfolding contains
newer_Tracks bits accepted h c g t lt = record {
  sized = length-or_word _ 0 1 ∙ length-shift_older bits (c - h);
  words = or_word-IsWords _ 0 1 (omega arith) (shift_older-IsWords bits (c - h) g);
  covers = (
    ground arith,
    λ a m. ground (arith, t.1 a),
    λ d j k. newer_bits bits accepted h c d g t lt j k,
  );
}

older_Tracks :
    (bits accepted : List ℕ) (h c : ℕ)
    → length bits ≡ 64
    → IsWords bits
    → Covers (some h) bits accepted
    → c ≤ h
    → h < c + 4096
    → Tracks (record { highest = some h; bits = set_bit bits (h - c) }) (c ∷ accepted)
unfolding contains set_bit
older_Tracks bits accepted h c l g t le near = record {
  sized = length-or_word bits _ _ ∙ l;
  words = or_word-IsWords bits _ _ (one_bit-lt ((h - c) % 64) (omega arith)) g;
  covers = (
    ground (arith, t.0),
    λ a m. ground (arith, t.1 a),
    λ d j k. older_bits bits accepted h c d l t le near j k,
  );
}

record_cases :
    (o : Option ℕ) (bits accepted : List ℕ) (c : ℕ)
    → length bits ≡ 64
    → IsWords bits
    → Covers o bits accepted
    → fresh accepted c ≡ true
    → Tracks (record_counter (record { highest = o; bits = bits }) c) (c ∷ accepted)
unfolding record_counter
record_cases none bits accepted c l g t f = rw (t.0) (first_Tracks bits c l g t.1)
record_cases (some h) bits accepted c l g t f = elim (Bool-cases (ltb h c)) [
  | inl e ↦ rw e (newer_Tracks bits accepted h c g t (ltb→lt h c e))
  | inr e ↦ rw e (older_Tracks bits accepted h c l g t (ground arith) (in_reach h c accepted t.0 f))
]

-- One call keeps the window in step with the accepted counters and gives the specified answer.
pub mark_authenticated-Tracks :
    (w : ReplayWindow) (accepted : List ℕ) (c : ℕ)
    → Tracks w accepted
    → Tracks (mark_authenticated w c).0 (note accepted c)
      × ((mark_authenticated w c).1 ≡ fresh accepted c)
unfolding mark_authenticated note
mark_authenticated-Tracks w accepted c t = elim (Bool-cases (fresh accepted c)) [
  | inl e ↦
      rw (would_accept-Tracks w accepted c t, e)
        (record_cases w.highest w.bits accepted c t.sized t.words t.covers e, refl)
  | inr e ↦ rw (would_accept-Tracks w accepted c t, e) (t, refl)
]
