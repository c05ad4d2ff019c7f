-- ===== src/Router/Lookup.antt =====
-- What `lookup` finds in a table that is sorted by prefix length.
use hushwire.Common.{
  ℕ, ◌≤◌, ◌<◌, true, false, List, [], ◌∷◌, Option, none, some, ◌≡◌, ◌↔◌, inl, inr, refl, subst,
  arith, All, Bool-cases, Option-cases,
}
use hushwire.Externals.{Ipnet}
use hushwire.Router.{Route, Router, most_specific_exclusion, admits, find_route, lookup}

module _ (net : Ipnet) where
  open net use {Net, prefix_len, contains}

  -- No later route has a longer prefix.
  abbrev pub IsSorted : List (Route Net) → Type 0
  IsSorted [] = Unit
  IsSorted (r ∷ routes) =
      All (λ r'. prefix_len r'.prefix ≤ prefix_len r.prefix) routes × IsSorted routes

  -- Every exclusion that holds the address is shorter than the given prefix.
  abbrev pub Unexcluded : List Net → ℕ → ℕ → Type 0
  Unexcluded excluded destination len =
      All (λ e. contains e destination ≡ true → prefix_len e < len) excluded

  abbrev Below : Option ℕ → ℕ → Type 0
  Below none len = Unit
  Below (some best) len = best < len

  exclusion_iff :
      (excluded : List Net) (destination len : ℕ)
      → Below (most_specific_exclusion net excluded destination) len
        ↔ Unexcluded excluded destination len
  unfolding most_specific_exclusion
  exclusion_iff [] destination len = (λ h. tt, λ h. tt)
  exclusion_iff (e ∷ excluded) destination len =
      let rest = most_specific_exclusion net excluded destination in
      let ih = exclusion_iff excluded destination len in
      elim (Bool-cases (contains e destination)) [
        | inr miss ↦ rw (miss, most_specific_exclusion) (λ h. (λ c. cc, ih.0 h), λ h. ih.1 h.1)
        | inl held ↦ elim (Option-cases rest) [
          | inl n ↦
              rw (held, most_specific_exclusion, n) (λ h. (λ c. h, ih.0 (rw n tt)), λ h. h.0 refl)
          | inr (best, n) ↦
              rw (held, most_specific_exclusion, n)
                (
                  λ h. (λ c. omega arith, ih.0 (rw n (omega arith))),
                  λ h. let below : best < len = rw n at (ih.1 h.1) in omega (arith, h.0 refl),
                )
        ]
      ]

  -- A route takes an address exactly if its prefix holds it and is longer than every exclusion of
  -- its peer that holds it.
  pub admits_iff :
      (r : Route Net) (destination : ℕ)
      → (admits net r destination ≡ true) ↔ (
          (contains r.prefix destination ≡ true)
          × Unexcluded r.peer.excluded_ips destination (prefix_len r.prefix))
  unfolding admits
  admits_iff r destination =
      let iff = exclusion_iff r.peer.excluded_ips destination (prefix_len r.prefix) in
      elim (Option-cases (most_specific_exclusion net r.peer.excluded_ips destination)) [
        | inl e ↦ (λ h. (ground arith, iff.0 (rw e tt)), λ h. ground (arith, h.0))
        | inr (best, e) ↦ (
          λ h. (ground arith, iff.0 (rw e (ground arith))),
          λ h. let below : best < prefix_len r.prefix = rw e at (iff.1 h.1) in ground (arith, h.0),
        )
      ]

  abbrev pub Covered : List (Route Net) → ℕ → Route Net → Type 0
  Covered routes destination r =
      All (λ r'. admits net r' destination ≡ true → prefix_len r'.prefix ≤ prefix_len r.prefix)
        routes

  All-shorter :
      (routes : List (Route Net)) (destination : ℕ) (r : Route Net)
      → All (λ r'. prefix_len r'.prefix ≤ prefix_len r.prefix) routes
      → Covered routes destination r
  All-shorter [] destination r h = tt
  All-shorter (r' ∷ routes) destination r h = (λ _. h.0, All-shorter routes destination r h.1)

  find_route_longest :
      (routes : List (Route Net)) (destination : ℕ) (r : Route Net)
      → IsSorted routes
      → find_route net routes destination ≡ some r
      → (admits net r destination ≡ true) × Covered routes destination r
  unfolding find_route
  find_route_longest [] destination r s h = absurd (ground arith)
  find_route_longest (r' ∷ routes) destination r s h =
      elim (Bool-cases (admits net r' destination)) [
        | inl e ↦
            let same : r' ≡ r = ground arith in
            subst (λ q. (admits net q destination ≡ true) × Covered (r' ∷ routes) destination q)
              same (e, (λ _. omega arith, All-shorter routes destination r' s.0))
        | inr e ↦
            let (a, c) = find_route_longest routes destination r s.1 (ground arith) in
            (a, (λ t. absurd (ground arith), c))
      ]

  -- In a sorted table the route found takes the address, and no route that takes it has a longer
  -- prefix.
  pub lookup_longest :
      (router : Router Net) (destination : ℕ) (r : Route Net)
      → IsSorted router.routes
      → lookup net router destination ≡ some r
      → (admits net r destination ≡ true) × Covered router.routes destination r
  unfolding lookup
  lookup_longest router destination r s h = find_route_longest router.routes destination r s h

  find_route-none_iff :
      (routes : List (Route Net)) (destination : ℕ)
      → (find_route net routes destination ≡ none)
        ↔ All (λ r. admits net r destination ≡ false) routes
  unfolding find_route
  find_route-none_iff [] destination = (λ h. tt, λ h. refl)
  find_route-none_iff (r ∷ routes) destination =
      let ih = find_route-none_iff routes destination in
      elim (Bool-cases (admits net r destination)) [
        | inl e ↦ rw e (λ h. absurd (ground arith), λ h. absurd (ground (arith, h.0)))
        | inr e ↦ rw e (λ h. (refl, ih.0 h), λ h. ih.1 h.1)
      ]

  -- A lookup finds nothing exactly if no route of the table takes the address.
  pub lookup-eq-none_iff :
      (router : Router Net) (destination : ℕ)
      → (lookup net router destination ≡ none)
        ↔ All (λ r. admits net r destination ≡ false) router.routes
  unfolding lookup
  lookup-eq-none_iff router destination = find_route-none_iff router.routes destination
