-- ===== src/Routing/Manager/Distinct.antt =====
-- src/routing.rs, `installed_exclusions` in `RouteManager::setup_inner`: the exclusions by which each
-- excluded prefix is installed once.
use hushwire.Common.{
  true, false, List, [], ◌∷◌, ◌≡◌, ◌≢◌, All, inl, inr, refl, sym, subst, arith, ite, ◌⊎◌,
  Bool-cases,
}
use hushwire.Externals.{Ipnet}
use hushwire.Config.Validate.Sound.{Different}
use hushwire.Router.{Route}
use hushwire.Routing.Manager.{has_prefix}
use hushwire.Routing.Manager.Plan.{Has, prefixes_of}

module _ (net : Ipnet) where
  open net use {Net, net_eq}

  -- The prefixes of the routes that are not seen before, each once.
  abbrev pub distinct_prefixes : List (Route Net) → List Net → List Net
  distinct_prefixes [] seen = []
  distinct_prefixes (route ∷ routes) seen = elim (has_prefix net route.prefix seen) [
    | true ↦ distinct_prefixes routes seen
    | false ↦ route.prefix ∷ distinct_prefixes routes (route.prefix ∷ seen)
  ]

  has_prefix-Has :
      (prefix : Net) (seen : List Net) → has_prefix net prefix seen ≡ true → Has prefix seen
  has_prefix-Has prefix [] h = ground arith
  has_prefix-Has prefix (p ∷ seen) h =
      elim (net_eq p prefix)
          as (λ d. ite d true (has_prefix net prefix seen) ≡ true → Has prefix (p ∷ seen)) [
            | yes e ↦ λ k. inl e
            | no n ↦ λ k. inr (has_prefix-Has prefix seen k)
          ]
        h

  unseen_tail :
      (prefix : Net) (seen rest : List Net)
      → All (λ p. has_prefix net p (prefix ∷ seen) ≡ false) rest
      → All (λ p. p ≢ prefix) rest × All (λ p. has_prefix net p seen ≡ false) rest
  unseen_tail prefix seen [] h = (tt, tt)
  unseen_tail prefix seen (p ∷ rest) h =
      let (others, unseen) = unseen_tail prefix seen rest h.1 in
      elim (net_eq prefix p)
          as (λ d.
            ite d true (has_prefix net p seen) ≡ false
            → All (λ p. p ≢ prefix) (p ∷ rest)
              × All (λ p. has_prefix net p seen ≡ false) (p ∷ rest)) [
                | yes e ↦ λ k. ground arith
                | no n ↦ λ k. (((λ e. n (sym e)), others), (k, unseen))
              ]
        h.0

  pub distinct_prefixes-Different :
      (routes : List (Route Net)) (seen : List Net)
      → Different (distinct_prefixes routes seen)
        × All (λ p. has_prefix net p seen ≡ false) (distinct_prefixes routes seen)
  distinct_prefixes-Different [] seen = (tt, tt)
  distinct_prefixes-Different (route ∷ routes) seen =
      elim (Bool-cases (has_prefix net route.prefix seen)) [
        | inl e ↦ rw (e, distinct_prefixes) (distinct_prefixes-Different routes seen)
        | inr e ↦
            let (different, unseen) = distinct_prefixes-Different routes (route.prefix ∷ seen) in
            let (others, unseen') =
              unseen_tail route.prefix seen (distinct_prefixes routes (route.prefix ∷ seen))
                unseen in
            rw (e, distinct_prefixes) ((others, different), (e, unseen'))
      ]

  Has-later :
      (prefix : Net) (rest : List Net) (ps : List Net)
      → All (λ p. Has p rest) ps
      → All (λ p. Has p (prefix ∷ rest)) ps
  Has-later prefix rest [] h = tt
  Has-later prefix rest (p ∷ ps) h = (inr h.0, Has-later prefix rest ps h.1)

  -- Nothing else is installed.
  pub distinct_prefixes-prefixes_of :
      (routes : List (Route Net)) (seen : List Net)
      → All (λ p. Has p (prefixes_of routes)) (distinct_prefixes routes seen)
  distinct_prefixes-prefixes_of [] seen = tt
  distinct_prefixes-prefixes_of (route ∷ routes) seen =
      elim (Bool-cases (has_prefix net route.prefix seen)) [
        | inl e ↦
            rw (e, distinct_prefixes)
              (Has-later route.prefix (prefixes_of routes) (distinct_prefixes routes seen)
                (distinct_prefixes-prefixes_of routes seen))
        | inr e ↦
            rw (e, distinct_prefixes)
              (
                inl refl,
                Has-later route.prefix (prefixes_of routes)
                    (distinct_prefixes routes (route.prefix ∷ seen))
                    (distinct_prefixes-prefixes_of routes (route.prefix ∷ seen)),
              )
      ]

  -- Where a prefix that is to be installed is, or was.
  abbrev Found : List Net → List Net → List Net → Type 0
  Found seen later prefixes = All (λ prefix. Has prefix seen ⊎ Has prefix later) prefixes

  Found-moved :
      (prefix : Net) (seen later ps : List Net)
      → All (λ p. Has p (prefix ∷ seen) ⊎ Has p later) ps
      → All (λ p. Has p seen ⊎ Has p (prefix ∷ later)) ps
  Found-moved prefix seen later [] h = tt
  Found-moved prefix seen later (p ∷ ps) (inl (inl e), h) =
      (inr (inl e), Found-moved prefix seen later ps h)
  Found-moved prefix seen later (p ∷ ps) (inl (inr k), h) =
      (inl k, Found-moved prefix seen later ps h)
  Found-moved prefix seen later (p ∷ ps) (inr k, h) =
      (inr (inr k), Found-moved prefix seen later ps h)

  distinct_prefixes-Found :
      (routes : List (Route Net)) (seen : List Net)
      → Found seen (distinct_prefixes routes seen) (prefixes_of routes)
  distinct_prefixes-Found [] seen = tt
  distinct_prefixes-Found (route ∷ routes) seen =
      elim (Bool-cases (has_prefix net route.prefix seen)) [
        | inl e ↦
            let known : distinct_prefixes (route ∷ routes) seen ≡ distinct_prefixes routes seen =
              rw (e, distinct_prefixes) refl in
            subst (λ later. Found seen later (prefixes_of (route ∷ routes))) (sym known)
              (inl (has_prefix-Has route.prefix seen e), distinct_prefixes-Found routes seen)
        | inr e ↦
            let rest = distinct_prefixes routes (route.prefix ∷ seen) in
            let fresh : distinct_prefixes (route ∷ routes) seen ≡ route.prefix ∷ rest =
              rw (e, distinct_prefixes) refl in
            subst (λ later. Found seen later (prefixes_of (route ∷ routes))) (sym fresh)
              (
                inr (inl refl),
                Found-moved route.prefix seen rest (prefixes_of routes)
                    (distinct_prefixes-Found routes (route.prefix ∷ seen)),
              )
      ]

  Found-none :
      (later ps : List Net) → All (λ p. Has p [] ⊎ Has p later) ps → All (λ p. Has p later) ps
  Found-none later [] h = tt
  Found-none later (p ∷ ps) (inl k, h) = absurd k
  Found-none later (p ∷ ps) (inr k, h) = (k, Found-none later ps h)

  -- No prefix is left out.
  pub prefixes_of-distinct_prefixes :
      (routes : List (Route Net))
      → All (λ p. Has p (distinct_prefixes routes [])) (prefixes_of routes)
  prefixes_of-distinct_prefixes routes =
      Found-none (distinct_prefixes routes []) (prefixes_of routes)
        (distinct_prefixes-Found routes [])
