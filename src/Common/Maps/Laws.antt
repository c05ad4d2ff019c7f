-- ===== src/Common/Maps/Laws.antt =====
-- What a lookup gives after each change of a map.
use mathlib.Core.Path.{◌≡◌, refl}
use mathlib.Core.Bool.{Bool, true}
use mathlib.Core.Logic.{ite, inl, inr}
use mathlib.Core.List.{[], ◌∷◌}
use mathlib.Core.Option.{Option, none, some}
use native.Mathlib.Omega.{arith}
use hushwire.Common.Tests.{if◌then◌else◌, Bool-cases}
use hushwire.Common.Maps.{Text, text_eq, Map, get, remove, insert, retain, find_key}

module _ {ℓ} {V : Type ℓ} where
  pub get-remove : (k j : Text) (m : Map V) → get j (remove k m) ≡ ite (text_eq k j) none (get j m)
  unfolding get remove
  get-remove k j [] = ground arith
  get-remove k j ((i, v) ∷ m) = ground (arith, get-remove k j m)

  pub get-insert :
      (k j : Text) (v : V) (m : Map V) → get j (insert k v m) ≡ ite (text_eq k j) (some v) (get j m)
  unfolding get insert
  get-insert k j v m = ground (arith, get-remove k j m)

  -- Every key stands once.
  abbrev pub Distinct : Map V → Type ℓ
  Distinct [] = Unit
  Distinct ((k, v) ∷ m) = (get k m ≡ none) × Distinct m

  get-retain-none :
      (p : V → Bool) (j : Text) (m : Map V) → get j m ≡ none → get j (retain p m) ≡ none
  unfolding get retain
  get-retain-none p j [] h = refl
  get-retain-none p j ((i, v) ∷ m) h = ground (arith, get-retain-none p j m)

  abbrev pub keep : (V → Bool) → Option V → Option V
  keep p none = none
  keep p (some v) = if p v then some v else none

  pub get-retain :
      (p : V → Bool) (j : Text) (m : Map V) → Distinct m → get j (retain p m) ≡ keep p (get j m)
  unfolding get retain
  get-retain p j [] d = refl
  get-retain p j ((i, v) ∷ m) d = ground (arith, get-retain p j m, get-retain-none p j m)

  pub remove-Distinct : (k : Text) (m : Map V) → Distinct m → Distinct (remove k m)
  unfolding remove
  remove-Distinct k [] d = tt
  remove-Distinct k ((i, v) ∷ m) d = ground (arith, remove-Distinct k m, get-remove k i m)

  pub insert-Distinct : (k : Text) (v : V) (m : Map V) → Distinct m → Distinct (insert k v m)
  unfolding insert
  insert-Distinct k v m d = (ground (arith, get-remove k k m), remove-Distinct k m d)

  pub retain-Distinct : (p : V → Bool) (m : Map V) → Distinct m → Distinct (retain p m)
  unfolding retain
  retain-Distinct p [] d = tt
  retain-Distinct p ((i, v) ∷ m) d = ground (arith, retain-Distinct p m, get-retain-none p i m)

  -- A key that was found has an entry, and with distinct keys it is the one that fits.
  pub get-find_key :
      (p : V → Bool) (k : Text) (m : Map V)
      → Distinct m
      → find_key p m ≡ some k
      → (v : V) × (get k m ≡ some v) × (p v ≡ true)
  unfolding get find_key
  get-find_key p k [] d h = cc
  get-find_key p k ((i, v) ∷ m) d h = elim (Bool-cases (p v)) [
    | inl fits ↦ (v, ground arith, fits)
    | inr skip ↦
        let (u, found, fits) = get-find_key p k m d.1 (ground arith) in (u, ground arith, fits)
  ]
