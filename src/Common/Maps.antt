-- ===== src/Common/Maps.antt =====
-- `HashMap` and `HashSet` with text keys, as association lists. Iteration goes in the order of the
-- list; the code's results do not depend on it where at most one entry fits.
pub mod Laws
use Prim.Native.Nat.{ℕ}
use mathlib.Core.Bool.{Bool, true, false}
use mathlib.Core.Logic.{ite}
use mathlib.Core.List.{List, [], ◌∷◌}
use mathlib.Core.Option.{Option, none, some}
use hushwire.Common.Tests.{if◌then◌else◌, is_some}
use hushwire.Common.Endian.{bytes_eq}

-- A `String` by its code points.
abbrev pub Text : Type 0
Text = List ℕ

abbrev pub text_eq : Discrete Text
text_eq = bytes_eq

abbrev pub Map {ℓ} : Type ℓ → Type ℓ
Map V = List (Text × V)

module _ {ℓ} {V : Type ℓ} where
  unfoldable pub get : Text → Map V → Option V
  get k [] = none
  get k ((j, v) ∷ m) = ite (text_eq j k) (some v) (get k m)

  unfoldable pub remove : Text → Map V → Map V
  remove k [] = []
  remove k ((j, v) ∷ m) = ite (text_eq j k) (remove k m) ((j, v) ∷ remove k m)

  unfoldable pub insert : Text → V → Map V → Map V
  unfolding remove
  insert k v m = (k, v) ∷ remove k m

  unfoldable pub retain : (V → Bool) → Map V → Map V
  retain p [] = []
  retain p ((j, v) ∷ m) = if p v then (j, v) ∷ retain p m else retain p m

  -- The first key whose value fits: `iter().find_map(..)`.
  unfoldable pub find_key : (V → Bool) → Map V → Option Text
  find_key p [] = none
  find_key p ((j, v) ∷ m) = if p v then some j else find_key p m

  unfoldable pub any_value : (V → Bool) → Map V → Bool
  any_value p [] = false
  any_value p ((j, v) ∷ m) = if p v then true else any_value p m

abbrev pub contains_key {ℓ} : {V : Type ℓ} → Text → Map V → Bool
contains_key k m = is_some (get k m)

abbrev pub TextSet : Type 0
TextSet = Map (Unit {0})
