-- ===== src/Routing/Manager/Laws.antt =====
-- src/routing.rs: what the set-up and the clean-up of routes rely on of the command `ip`.
use hushwire.Common.{ℕ, true, List, [], ◌∷◌, Option, none, some, ◌≡◌, ◌⊎◌, ◌<◌, ◌≤◌, false}
use hushwire.Common.Maps.{Text}
use hushwire.Routing.Commands.{
  Output, Os, route_word, show_word, get_word, add_dev, add_via, del_dev, del_host,
  route_listing_contains,
}

-- An answer of a command that ran and succeeded, or not.
abbrev pub Succeeds : Option Output → Type 0
Succeeds none = ⊥
Succeeds (some out) = out.success ≡ true

abbrev pub show_route : Text → List Text
show_route spec = route_word ∷ show_word ∷ spec ∷ []

-- A deletion of the latest route: it takes the route away, or it runs and fails, and then fewer
-- deletions in a row may still fail.
abbrev pub Deletes :
    {World : Type 0}
    → Os World
    → (World → List (Text × Text))
    → (World → ℕ)
    → List Text
    → World
    → List (Text × Text)
    → Type 0
Deletes os table failures arguments world rest =
    (Succeeds (os.ip arguments world).0 × (table (os.ip arguments world).1 ≡ rest))
    ⊎ ((out : Output) × ((os.ip arguments world).0 ≡ some out)
        × (out.success ≡ false)
        × (failures (os.ip arguments world).1 < failures world))

-- What `ip` does with the host's routes, each a prefix and its device, the latest first.
pub record RouteLaws {World : Type 0} (os : Os World) : Type 0 where
  pub table : World → List (Text × Text)
  pub adds_dev :
      (spec dev : Text) (world : World)
      → Succeeds (os.ip (add_dev spec dev) world).0
      → table (os.ip (add_dev spec dev) world).1 ≡ (spec, dev) ∷ table world
  pub adds_via :
      (spec gateway dev : Text) (world : World)
      → Succeeds (os.ip (add_via spec gateway dev) world).0
      → table (os.ip (add_via spec gateway dev) world).1 ≡ (spec, dev) ∷ table world
  pub refuses :
      (arguments : List Text) (world : World)
      → (Succeeds (os.ip arguments world).0 → ⊥)
      → table (os.ip arguments world).1 ≡ table world
  pub gets :
      (dst : Text) (world : World)
      → table (os.ip (route_word ∷ get_word ∷ dst ∷ []) world).1 ≡ table world
  -- How many deletions in a row may still fail, as when a signal meets the command.
  pub failures : World → ℕ
  pub deletes_dev :
      (spec dev : Text) (world : World) (rest : List (Text × Text))
      → table world ≡ (spec, dev) ∷ rest
      → Deletes os table failures (del_dev spec dev) world rest
  pub deletes_host :
      (spec dev : Text) (world : World) (rest : List (Text × Text))
      → table world ≡ (spec, dev) ∷ rest
      → Deletes os table failures (del_host spec) world rest
  pub shows :
      (spec dev : Text) (world : World) (rest : List (Text × Text)) (out : Output)
      → table world ≡ (spec, dev) ∷ rest
      → (os.ip (show_route spec) world).0 ≡ some out
      → out.success ≡ true
      → (route_listing_contains out.stdout (some dev) ≡ true)
        × (route_listing_contains out.stdout none ≡ true)
  pub show_keeps :
      (spec : Text) (world : World)
      → (table (os.ip (show_route spec) world).1 ≡ table world)
        × (failures (os.ip (show_route spec) world).1 ≤ failures world)
  pub sleep_keeps :
      (world : World)
      → (table (os.sleep world) ≡ table world) × (failures (os.sleep world) ≤ failures world)
