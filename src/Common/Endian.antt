-- ===== src/Common/Endian.antt =====
-- Byte strings as lists of numbers below 256, and `to_be_bytes` with its inverse.
use Prim.Native.Nat.{ℕ, zero, suc, ◌+◌, ◌*◌, ◌/◌, ◌%◌, ◌^◌, ◌≤◌, ◌<◌}
use mathlib.Core.Path.{◌≡◌, refl, ap}
use mathlib.Core.List.{List, [], ◌∷◌, ◌++◌, append_assoc, append-nil}
use native.Mathlib.Nat.{pow-suc, mul-le-mul_right}
use native.Mathlib.Omega.{arith}
use native.Mathlib.Decide.{ℕ_discrete}
use hushwire.Common.Lists.{length, length-append, All}

abbrev pub Bytes : Type 0
Bytes = List ℕ

abbrev pub IsBytes : Bytes → Type 0
IsBytes = All (λ b. b < 256)

unfoldable pub bytes_eq : Discrete Bytes
unfolding ℕ_discrete
bytes_eq = hlevel ℕ_discrete

-- `to_be_bytes` of an unsigned integer of `n` bytes
unfoldable pub to_be_bytes : ℕ → ℕ → Bytes
to_be_bytes zero x = []
to_be_bytes (suc n) x = to_be_bytes n (x / 256) ++ (x % 256 ∷ [])

be_value : ℕ → Bytes → ℕ
be_value acc [] = acc
be_value acc (b ∷ bs) = be_value (acc * 256 + b) bs

unfoldable pub from_be_bytes : Bytes → ℕ
unfolding be_value
from_be_bytes bs = be_value 0 bs

be_value-snoc :
    (acc : ℕ) (bs : Bytes) (b : ℕ) → be_value acc (bs ++ b ∷ []) ≡ be_value acc bs * 256 + b
unfolding be_value
be_value-snoc acc [] b = refl
be_value-snoc acc (x ∷ bs) b = be_value-snoc (acc * 256 + x) bs b

pub length-to_be_bytes : (n x : ℕ) → length (to_be_bytes n x) ≡ n
unfolding to_be_bytes
length-to_be_bytes zero x = refl
length-to_be_bytes (suc n) x =
    omega (
      arith,
      length-to_be_bytes n (x / 256),
      length-append (to_be_bytes n (x / 256)) (x % 256 ∷ []),
    )

pub from_be_bytes-to_be_bytes : (n x : ℕ) → x < 256 ^ n → from_be_bytes (to_be_bytes n x) ≡ x
unfolding from_be_bytes to_be_bytes
from_be_bytes-to_be_bytes zero x h = omega arith
from_be_bytes-to_be_bytes (suc n) x h = omega (
  arith,
  be_value-snoc 0 (to_be_bytes n (x / 256)) (x % 256),
  from_be_bytes-to_be_bytes n (x / 256) (omega (arith, pow-suc 256 n)),
)

to_be_bytes-be_value :
    (k acc : ℕ) (bs : Bytes)
    → IsBytes bs
    → to_be_bytes (k + length bs) (be_value acc bs) ≡ to_be_bytes k acc ++ bs
unfolding be_value to_be_bytes
to_be_bytes-be_value k acc [] w = let e : k + 0 ≡ k = omega arith in rw (e, append-nil)
to_be_bytes-be_value k acc (b ∷ bs) w =
    let e : k + suc (length bs) ≡ suc k + length bs = omega arith in
    let q : (acc * 256 + b) / 256 ≡ acc = omega (arith, w.0) in
    let r : (acc * 256 + b) % 256 ≡ b = omega (arith, w.0) in
    rw (e, to_be_bytes-be_value (suc k) (acc * 256 + b) bs w.1, q, r)
      (append_assoc (to_be_bytes k acc) (b ∷ []) bs)

pub to_be_bytes-from_be_bytes :
    (bs : Bytes) → IsBytes bs → to_be_bytes (length bs) (from_be_bytes bs) ≡ bs
unfolding from_be_bytes to_be_bytes
to_be_bytes-from_be_bytes bs w =
    let e : 0 + length bs ≡ length bs = omega arith in rw e at (to_be_bytes-be_value 0 0 bs w)

be_value-lt : (acc : ℕ) (bs : Bytes) → IsBytes bs → be_value acc bs < (acc + 1) * 256 ^ length bs
unfolding be_value
be_value-lt acc [] w = omega arith
be_value-lt acc (b ∷ bs) w =
    let m : (acc * 256 + b + 1) * 256 ^ length bs ≤ (acc + 1) * 256 * 256 ^ length bs =
      mul-le-mul_right (256 ^ length bs) (omega (arith, w.0)) in
    omega (
      arith,
      be_value-lt (acc * 256 + b) bs w.1,
      m,
      ap (λ (t : ℕ). (acc + 1) * t) (pow-suc 256 (length bs)),
    )

pub from_be_bytes-lt : (bs : Bytes) → IsBytes bs → from_be_bytes bs < 256 ^ length bs
unfolding from_be_bytes
from_be_bytes-lt bs w = omega (arith, be_value-lt 0 bs w)
