-- ===== src/Routing/Manager/Stack.antt =====
-- src/routing.rs: the installed routes lie on the host's routes like a stack.
use hushwire.Common.{
  ℕ, suc, true, List, [], ◌∷◌, ◌++◌, Option, none, some, ◌≡◌, ◌⊎◌, inl, inr, refl, ap, subst, arith,
  ok, err, Bool-cases, Option-cases, zero, ◌<◌, ◌≤◌, ltb, ◌∙◌,
}
use hushwire.Common.Maps.{Text}
use hushwire.Routing.Commands.{
  Os, RouteError, not_run, route_add_failed, route_show_failed, del_dev, del_host,
  route_listing_contains, linux_route_exists, add_route, delete_attempts, delete_linux_route,
  del_tun_route, del_host_route,
}
use hushwire.Routing.Manager.{
  RouteKind, tun, endpoint_exception, excluded_prefix, InstalledRoute, Managed, delete_route,
  cleanup_routes,
}
use hushwire.Routing.Manager.Laws.{Succeeds, show_route, Deletes, RouteLaws}

-- The device under which the entry of a route is deleted.
abbrev pub Fits : InstalledRoute → Text → Type 0
Fits route dev = (route.kind ≡ endpoint_exception) ⊎ (dev ≡ route.tun_name)

-- The installed routes on top of the others, the latest first.
abbrev pub Stacked : List (Text × Text) → List InstalledRoute → List (Text × Text) → Type 0
Stacked base [] table = table ≡ base
Stacked base (route ∷ routes) table =
    (dev : Text) × Fits route dev × Stacked ((route.spec, dev) ∷ base) routes table

pub snoc-Stacked :
    (base table : List (Text × Text)) (routes : List InstalledRoute) (route : InstalledRoute)
    (dev : Text)
    → Stacked base routes table
    → Fits route dev
    → Stacked base (routes ++ route ∷ []) ((route.spec, dev) ∷ table)
snoc-Stacked base table [] route dev h fits = (dev, fits, ap (λ t. (route.spec, dev) ∷ t) h)
snoc-Stacked base table (r ∷ routes) route dev (d, f, h) fits =
    (d, f, snoc-Stacked ((r.spec, d) ∷ base) table routes route dev h fits)

module _ {World : Type 0} (os : Os World) (laws : RouteLaws os) where
  open laws use {table}

  abbrev pub Holds : List (Text × Text) → Managed World → Type 0
  Holds base state = Stacked base state.manager.installed (table state.world)

  -- The result of `add_route` tells whether the command succeeded.
  pub add_route_cases :
      (arguments : List Text) (world : World)
      → ((add_route os arguments world ≡ (ok tt, (os.ip arguments world).1))
          × Succeeds (os.ip arguments world).0)
        ⊎ ((e : RouteError) × (add_route os arguments world ≡ (err e, (os.ip arguments world).1))
            × (table (os.ip arguments world).1 ≡ table world))
  unfolding add_route
  add_route_cases arguments world = elim (Option-cases (os.ip arguments world).0) [
    | inl e ↦
        inr
          (not_run, rw (e, add_route) refl, laws.refuses arguments world (λ s. subst Succeeds e s))
    | inr (out, e) ↦ elim (Bool-cases out.success) [
      | inl f ↦ inl (rw (e, f, add_route) refl, rw e f)
      | inr f ↦ inr (
        route_add_failed,
        rw (e, f, add_route) refl,
        laws.refuses arguments world
            (λ s. let t : out.success ≡ true = subst Succeeds e s in ground arith),
      )
    ]
  ]

  attempts_succeed :
      (attempts : ℕ) (arguments : List Text) (prefix : Text) (dev : Option Text) (stderr : Text)
      (last : Option RouteError) (world : World)
      → Succeeds (os.ip arguments world).0
      → delete_attempts os (suc attempts) arguments prefix dev stderr last world
        ≡ (ok tt, (os.ip arguments world).1)
  unfolding delete_attempts
  attempts_succeed attempts arguments prefix dev stderr last world h =
      elim (Option-cases (os.ip arguments world).0) [
        | inl e ↦ absurd (subst Succeeds e h)
        | inr (out, e) ↦
            let f : out.success ≡ true = subst Succeeds e h in rw (e, f, delete_attempts) refl
      ]

  -- The check after a failed deletion does not take the route for gone.
  exists_cases :
      (spec dev : Text) (asked : Option Text) (world : World) (rest : List (Text × Text))
      → ((asked ≡ some dev) ⊎ (asked ≡ none))
      → table world ≡ (spec, dev) ∷ rest
      → (linux_route_exists os spec asked world ≡ (ok true, (os.ip (show_route spec) world).1))
        ⊎ ((e : RouteError) × (linux_route_exists os spec asked world
              ≡ (err e, (os.ip (show_route spec) world).1)))
  unfolding linux_route_exists
  exists_cases spec dev asked world rest device h =
      elim (Option-cases (os.ip (show_route spec) world).0) [
        | inl e ↦ inr (not_run, rw (e, linux_route_exists) refl)
        | inr (out, e) ↦ elim (Bool-cases out.success) [
          | inr f ↦ inr (route_show_failed, rw (e, f, linux_route_exists) refl)
          | inl f ↦
              let (with_dev, without) = laws.shows spec dev world rest out h e f in
              let listed : route_listing_contains out.stdout asked ≡ true = elim device [
                | inl d ↦ rw d with_dev
                | inr d ↦ rw d without
              ] in
              inl (rw (e, f, listed, linux_route_exists) refl)
        ]
      ]

  -- The attempts of a deletion, of which fewer may fail than are left.
  attempts_pop :
      (attempts : ℕ) (arguments : List Text) (spec dev : Text) (asked : Option Text) (stderr : Text)
      (last : Option RouteError) (world : World) (rest : List (Text × Text))
      → ((w : World)
          → table w ≡ (spec, dev) ∷ rest
          → Deletes os table laws.failures arguments w rest)
      → ((asked ≡ some dev) ⊎ (asked ≡ none))
      → table world ≡ (spec, dev) ∷ rest
      → laws.failures world < attempts
      → table (delete_attempts os attempts arguments spec asked stderr last world).1 ≡ rest
  unfolding delete_attempts
  attempts_pop zero arguments spec dev asked stderr last world rest deletes device h few =
      absurd (omega (arith, few))
  attempts_pop (suc attempts) arguments spec dev asked stderr last world rest deletes device h few =
      elim (deletes world h) [
        | inl (s, t) ↦ rw (attempts_succeed attempts arguments spec asked stderr last world s) t
        | inr (out, e, f, less) ↦
            let failed = (os.ip arguments world).1 in
            let shown = (os.ip (show_route spec) failed).1 in
            let more : ltb 0 attempts ≡ true = ground (arith, few, less) in
            let still : table failed ≡ (spec, dev) ∷ rest =
              laws.refuses arguments world
                (λ s. let t : out.success ≡ true = subst Succeeds e s in ground arith)
              ∙ h in
            let (same, fewer) = laws.show_keeps spec failed in
            let (rested, fewest) = laws.sleep_keeps shown in
            let there : table (os.sleep shown) ≡ (spec, dev) ∷ rest = rested ∙ (same ∙ still) in
            let left : laws.failures (os.sleep shown) < attempts =
              omega (arith, few, less, fewer, fewest) in
            let again = λ (checked : Option RouteError).
              attempts_pop attempts arguments spec dev asked out.stderr checked (os.sleep shown)
                rest deletes device there left in
            elim (exists_cases spec dev asked failed rest device still) [
              | inl g ↦
                  let answered : (linux_route_exists os spec asked failed).1 ≡ shown =
                    ap (λ x. x.1) g in
                  rw (e, f, ap (λ x. x.0) g, more, delete_attempts) (rw answered (again none))
              | inr (error, g) ↦
                  let answered : (linux_route_exists os spec asked failed).1 ≡ shown =
                    ap (λ x. x.1) g in
                  rw (e, f, ap (λ x. x.0) g, more, delete_attempts)
                    (rw answered (again (some error)))
            ]
      ]

  module _ (transient : (world : World) → laws.failures world ≤ 2) where
    del_tun_route_pops :
        (spec dev : Text) (world : World) (rest : List (Text × Text))
        → table world ≡ (spec, dev) ∷ rest
        → table (del_tun_route os spec dev world).1 ≡ rest
    unfolding del_tun_route delete_linux_route
    del_tun_route_pops spec dev world rest h =
        attempts_pop 3 (del_dev spec dev) spec dev (some dev) [] none world rest
          (λ w. laws.deletes_dev spec dev w rest) (inl refl) h (omega (arith, transient world))

    del_host_route_pops :
        (spec dev : Text) (world : World) (rest : List (Text × Text))
        → table world ≡ (spec, dev) ∷ rest
        → table (del_host_route os spec world).1 ≡ rest
    unfolding del_host_route delete_linux_route
    del_host_route_pops spec dev world rest h =
        attempts_pop 3 (del_host spec) spec dev none [] none world rest
          (λ w. laws.deletes_host spec dev w rest) (inr refl) h (omega (arith, transient world))

    -- A deletion of the latest route takes it back.
    delete_route_pops :
        (kind : RouteKind) (spec tun_name dev : Text) (world : World) (rest : List (Text × Text))
        → Fits (record { kind = kind; spec = spec; tun_name = tun_name }) dev
        → table world ≡ (spec, dev) ∷ rest
        → table (delete_route os (record { kind = kind; spec = spec; tun_name = tun_name }) world)
          ≡ rest
    unfolding delete_route
    delete_route_pops endpoint_exception spec tun_name dev world rest fits h =
        del_host_route_pops spec dev world rest h
    delete_route_pops tun spec tun_name dev world rest (inl e) h = ground arith
    delete_route_pops tun spec tun_name dev world rest (inr e) h =
        del_tun_route_pops spec tun_name world rest
          (subst (λ d. table world ≡ (spec, d) ∷ rest) e h)
    delete_route_pops excluded_prefix spec tun_name dev world rest (inl e) h = ground arith
    delete_route_pops excluded_prefix spec tun_name dev world rest (inr e) h =
        del_tun_route_pops spec tun_name world rest
          (subst (λ d. table world ≡ (spec, d) ∷ rest) e h)

    pub cleanup_routes_pops :
        (base : List (Text × Text)) (routes : List InstalledRoute) (world : World)
        → Stacked base routes (table world)
        → table (cleanup_routes os routes world) ≡ base
    unfolding cleanup_routes
    cleanup_routes_pops base [] world h = h
    cleanup_routes_pops base (route ∷ routes) world (dev, fits, h) =
        delete_route_pops route.kind route.spec route.tun_name dev (cleanup_routes os routes world)
          base fits (cleanup_routes_pops ((route.spec, dev) ∷ base) routes world h)
