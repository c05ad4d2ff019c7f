-- ===== src/Sessions/Ids.antt =====
-- How often a session identifier stands in a map of sessions.
use hushwire.Common.{
  ℕ, ◌+◌, ◌≤◌, Bool, false, [], ◌∷◌, none, some, ◌≡◌, refl, arith, ite, Bytes, bytes_eq,
}
use hushwire.Common.Maps.{Text, Map, get, remove, insert, retain, any_value}
use hushwire.Common.Maps.Laws.{Distinct, remove-Distinct, get-remove, get-retain}
use hushwire.Noise.{Session}
use hushwire.Sessions.{has_id, drop_if}

module _ {T : Type 0} where
  -- 1 for a session with the identifier.
  abbrev pub hit : Bytes → Session T → ℕ
  hit id s = ite (bytes_eq s.session_id id) 1 0

  unfoldable pub occurrences : Bytes → Map (Session T) → ℕ
  occurrences id [] = 0
  occurrences id ((k, s) ∷ m) = hit id s + occurrences id m

  pub occurrences-remove-le :
      (id : Bytes) (k : Text) (m : Map (Session T)) → occurrences id (remove k m) ≤ occurrences id m
  unfolding occurrences remove
  occurrences-remove-le id k [] = omega arith
  occurrences-remove-le id k ((j, s) ∷ m) = ground (arith, occurrences-remove-le id k m)

  pub occurrences-remove-get :
      (id : Bytes) (k : Text) (m : Map (Session T)) (s : Session T)
      → get k m ≡ some s
      → occurrences id (remove k m) + hit id s ≤ occurrences id m
  unfolding occurrences remove get
  occurrences-remove-get id k [] s h = absurd (ground arith)
  occurrences-remove-get id k ((j, u) ∷ m) s h =
      ground (arith, occurrences-remove-le id k m, occurrences-remove-get id k m s)

  pub occurrences-insert-le :
      (id : Bytes) (k : Text) (s : Session T) (m : Map (Session T))
      → occurrences id (insert k s m) ≤ occurrences id m + hit id s
  unfolding occurrences insert
  occurrences-insert-le id k s m = omega (arith, occurrences-remove-le id k m)

  -- An entry replaced by one with its identifier.
  pub occurrences-update-le :
      (id : Bytes) (k : Text) (s s' : Session T) (m : Map (Session T))
      → get k m ≡ some s
      → s'.session_id ≡ s.session_id
      → occurrences id (insert k s' m) ≤ occurrences id m
  unfolding occurrences insert
  occurrences-update-le id k s s' m h e = ground (arith, occurrences-remove-get id k m s h)

  -- An entry replaced by one with another identifier.
  pub occurrences-insert-get :
      (id : Bytes) (k : Text) (s s' : Session T) (m : Map (Session T))
      → get k m ≡ some s
      → occurrences id (insert k s' m) + hit id s ≤ occurrences id m + hit id s'
  unfolding occurrences insert
  occurrences-insert-get id k s s' m h = ground (arith, occurrences-remove-get id k m s h)

  pub occurrences-live-le :
      (id : Bytes) (p : Session T → Bool) (m : Map (Session T))
      → occurrences id (retain p m) ≤ occurrences id m
  unfolding occurrences retain
  occurrences-live-le id p [] = omega arith
  occurrences-live-le id p ((j, s) ∷ m) = ground (arith, occurrences-live-le id p m)

  pub occurrences-drop_if-le :
      (id : Bytes) (test : Session T → Bool) (k : Text) (m : Map (Session T))
      → occurrences id (drop_if test k m) ≤ occurrences id m
  occurrences-drop_if-le id test k m = ground (arith, occurrences-remove-le id k m)

  -- An identifier that is nowhere in use.
  pub occurrences_unused :
      (id : Bytes) (m : Map (Session T)) → any_value (has_id id) m ≡ false → occurrences id m ≡ 0
  unfolding occurrences any_value
  occurrences_unused id [] h = refl
  occurrences_unused id ((j, s) ∷ m) h = ground (arith, occurrences_unused id m)

  pub occurrences-get :
      (k : Text) (m : Map (Session T)) (s : Session T)
      → get k m ≡ some s
      → 1 ≤ occurrences s.session_id m
  occurrences-get k m s h = ground (arith, occurrences-remove-get s.session_id k m s h)

module _ {ℓ} {V : Type ℓ} where
  pub drop_if-Distinct :
      (test : V → Bool) (k : Text) (m : Map V) → Distinct m → Distinct (drop_if test k m)
  drop_if-Distinct test k m d = ground (arith, remove-Distinct k m d)

  pub get-drop_if-none :
      (test : V → Bool) (k p : Text) (m : Map V) → get p m ≡ none → get p (drop_if test k m) ≡ none
  get-drop_if-none test k p m h = ground (arith, get-remove k p m)

  pub get-retain-none :
      (test : V → Bool) (p : Text) (m : Map V)
      → Distinct m
      → get p m ≡ none
      → get p (retain test m) ≡ none
  get-retain-none test p m d h = ground (arith, get-retain test p m d)
