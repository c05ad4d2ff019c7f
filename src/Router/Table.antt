-- ===== src/Router/Table.antt =====
-- The table that `Router::new` builds.
use hushwire.Common.{
  ℕ, ◌≤◌, List, [], ◌∷◌, ◌++◌, none, ◌≡◌, ◌≢◌, inl, inr, sym, subst, arith, some, true, leb, All,
  Bool-cases, Option-cases, Result-cases, ok,
}
use hushwire.Externals.{Ipnet, Keys}
use hushwire.Config.{PeerConfig, TransportConfig, Dns}
use hushwire.Router.{
  lookup, admits, Route, Router, Peer, insert_route, sort_routes, find_prefix, add_routes,
  peer_from_config, add_peers, excluded_of, new,
}
use hushwire.Router.Lookup.{IsSorted, Covered, lookup_longest}

snoc-All {ℓ κ} :
    {A : Type ℓ} (P : A → Type κ) (xs : List A) (a : A) → All P xs → P a → All P (xs ++ a ∷ [])
snoc-All P [] a h p = (p, tt)
snoc-All P (x ∷ xs) a h p = (h.0, snoc-All P xs a h.1 p)

module _ (net : Ipnet) where
  open net use {Net, net_eq, prefix_len}

  insert_route-All :
      (P : Route Net → Type 0) (r : Route Net) (routes : List (Route Net))
      → P r
      → All P routes
      → All P (insert_route net r routes)
  unfolding insert_route
  insert_route-All P r [] p h = (p, tt)
  insert_route-All P r (r' ∷ routes) p h =
      elim (Bool-cases (leb (prefix_len r'.prefix) (prefix_len r.prefix))) [
        | inl e ↦ rw e (p, h)
        | inr e ↦ rw e (h.0, insert_route-All P r routes p h.1)
      ]

  shorter :
      (a b : ℕ) (routes : List (Route Net))
      → a ≤ b
      → All (λ q. prefix_len q.prefix ≤ a) routes
      → All (λ q. prefix_len q.prefix ≤ b) routes
  shorter a b [] le h = tt
  shorter a b (q ∷ routes) le h = (omega (arith, h.0), shorter a b routes le h.1)

  insert_route-IsSorted :
      (r : Route Net) (routes : List (Route Net))
      → IsSorted net routes
      → IsSorted net (insert_route net r routes)
  unfolding insert_route
  insert_route-IsSorted r [] s = (tt, tt)
  insert_route-IsSorted r (r' ∷ routes) s =
      let keep = prefix_len r'.prefix in
      elim (Bool-cases (leb keep (prefix_len r.prefix))) [
        | inl e ↦
            let short : keep ≤ prefix_len r.prefix = ground arith in
            rw e ((short, shorter keep (prefix_len r.prefix) routes short s.0), s)
        | inr e ↦ rw e (
          insert_route-All (λ q. prefix_len q.prefix ≤ keep) r routes (ground arith) s.0,
          insert_route-IsSorted r routes s.1,
        )
      ]

  sort_routes-IsSorted : (routes : List (Route Net)) → IsSorted net (sort_routes net routes)
  unfolding sort_routes
  sort_routes-IsSorted [] = tt
  sort_routes-IsSorted (r ∷ routes) = insert_route-IsSorted r _ (sort_routes-IsSorted routes)

  -- No prefix stands twice.
  abbrev pub DistinctPrefixes : List (Route Net) → Type 0
  DistinctPrefixes [] = Unit
  DistinctPrefixes (r ∷ routes) = All (λ r'. r'.prefix ≢ r.prefix) routes × DistinctPrefixes routes

  insert_route-Distinct :
      (r : Route Net) (routes : List (Route Net))
      → All (λ q. q.prefix ≢ r.prefix) routes
      → DistinctPrefixes routes
      → DistinctPrefixes (insert_route net r routes)
  unfolding insert_route
  insert_route-Distinct r [] a d = (tt, tt)
  insert_route-Distinct r (r' ∷ routes) a d =
      elim (Bool-cases (leb (prefix_len r'.prefix) (prefix_len r.prefix))) [
        | inl e ↦ rw e (a, d)
        | inr e ↦ rw e (
          insert_route-All (λ q. q.prefix ≢ r'.prefix) r routes (λ p. a.0 (sym p)) d.0,
          insert_route-Distinct r routes a.1 d.1,
        )
      ]

  sort_routes-All :
      (P : Route Net → Type 0) (routes : List (Route Net))
      → All P routes
      → All P (sort_routes net routes)
  unfolding sort_routes
  sort_routes-All P [] h = tt
  sort_routes-All P (r ∷ routes) h = insert_route-All P r _ h.0 (sort_routes-All P routes h.1)

  sort_routes-Distinct :
      (routes : List (Route Net))
      → DistinctPrefixes routes
      → DistinctPrefixes (sort_routes net routes)
  unfolding sort_routes
  sort_routes-Distinct [] d = tt
  sort_routes-Distinct (r ∷ routes) d =
      insert_route-Distinct r _ (sort_routes-All _ routes d.0) (sort_routes-Distinct routes d.1)

  find_prefix-none :
      (prefix : Net) (routes : List (Route Net))
      → find_prefix net prefix routes ≡ none
      → All (λ q. q.prefix ≢ prefix) routes
  unfolding find_prefix
  find_prefix-none prefix [] h = tt
  find_prefix-none prefix (r ∷ routes) h = elim (net_eq r.prefix prefix) [
    | yes same ↦ absurd (ground arith)
    | no other ↦ (other, find_prefix-none prefix routes (ground arith))
  ]

  snoc-Distinct :
      (routes : List (Route Net)) (r : Route Net)
      → DistinctPrefixes routes
      → All (λ q. q.prefix ≢ r.prefix) routes
      → DistinctPrefixes (routes ++ r ∷ [])
  snoc-Distinct [] r d a = (tt, tt)
  snoc-Distinct (q ∷ routes) r d a = (
    snoc-All (λ u. u.prefix ≢ q.prefix) routes r d.0 (λ p. a.0 (sym p)),
    snoc-Distinct routes r d.1 a.1,
  )

  add_routes-Distinct :
      (peer : Peer Net) (allowed : List Net) (routes routes' : List (Route Net))
      → DistinctPrefixes routes
      → add_routes net peer allowed routes ≡ ok routes'
      → DistinctPrefixes routes'
  unfolding add_routes
  add_routes-Distinct peer [] routes routes' d h =
      let e : routes ≡ routes' = ground arith in subst DistinctPrefixes e d
  add_routes-Distinct peer (prefix ∷ allowed) routes routes' d h =
      elim (Option-cases (find_prefix net prefix routes)) [
        | inr (existing, e) ↦ absurd (ground arith)
        | inl e ↦
            add_routes-Distinct peer allowed
              (routes ++ record { prefix = prefix; peer = peer } ∷ []) routes'
              (snoc-Distinct routes _ d (find_prefix-none prefix routes e)) (ground arith)
      ]

  add_peers-Distinct :
      (keys : Keys) (dns : Dns) (peers : List (PeerConfig Net)) (transport : TransportConfig)
      (table table' : Router Net)
      → DistinctPrefixes table.routes
      → add_peers net keys dns peers transport table ≡ ok table'
      → DistinctPrefixes table'.routes
  unfolding add_peers
  add_peers-Distinct keys dns [] transport table table' d h =
      let e : table ≡ table' = ground arith in subst (λ t. DistinctPrefixes t.routes) e d
  add_peers-Distinct keys dns (config ∷ peers) transport table table' d h =
      elim (Result-cases (peer_from_config net keys dns config transport)) [
        | inr (error, e) ↦ absurd (ground arith)
        | inl (peer, e) ↦
            elim (Result-cases (add_routes net peer config.allowed_ips table.routes)) [
              | inr (error, f) ↦ absurd (ground arith)
              | inl (routes, f) ↦
                  add_peers-Distinct keys dns peers transport
                    (record {
                      routes = routes;
                      excluded_routes =
                          table.excluded_routes ++ excluded_of net peer config.excluded_ips;
                    })
                    table' (add_routes-Distinct peer config.allowed_ips table.routes routes d f)
                    (ground arith)
            ]
      ]

  -- A routing table that is built is sorted by falling prefix length and has no prefix twice.
  pub new_table :
      (keys : Keys) (dns : Dns) (peers : List (PeerConfig Net)) (transport : TransportConfig)
      (router : Router Net)
      → new net keys dns peers transport ≡ ok router
      → IsSorted net router.routes × DistinctPrefixes router.routes
  unfolding new
  new_table keys dns peers transport router h =
      elim (Result-cases
        (add_peers net keys dns peers transport (record { routes = []; excluded_routes = [] }))) [
          | inr (error, e) ↦ absurd (ground arith)
          | inl (table, e) ↦
              let same : sort_routes net table.routes ≡ router.routes = ground arith in
              let d = add_peers-Distinct keys dns peers transport _ table tt e in
              rw (sym same) (sort_routes-IsSorted table.routes, sort_routes-Distinct table.routes d)
        ]

  -- In every routing table that is built from a configuration, the route that a lookup finds takes
  -- the address and no route that takes it has a longer prefix.
  pub new-lookup_longest :
      (keys : Keys) (dns : Dns) (peers : List (PeerConfig Net)) (transport : TransportConfig)
      (router : Router Net) (destination : ℕ) (r : Route Net)
      → new net keys dns peers transport ≡ ok router
      → lookup net router destination ≡ some r
      → (admits net r destination ≡ true) × Covered net router.routes destination r
  new-lookup_longest keys dns peers transport router destination r built found =
      lookup_longest net router destination r (new_table keys dns peers transport router built).0
        found
