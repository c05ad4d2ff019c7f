-- ===== src/Routing/Manager/Setup.antt =====
-- src/routing.rs, `RouteManager::setup`: which routes it installs, and that it takes them back.
use hushwire.Common.{
  ◌≤◌, ◌∙◌, sym, List, [], ◌∷◌, Option, none, some, ◌==◌, ◌≡◌, ◌⊎◌, inl, inr, refl, ap, subst,
  arith, Result, ok, err, Bool-cases, Option-cases, Result-cases,
}
use hushwire.Common.Maps.{Text}
use hushwire.Externals.{Ipnet}
use hushwire.Config.{IpAddr}
use hushwire.Router.{Peer, Route, Router, endpoint_exception_peers}
use hushwire.Routing.Commands.{
  Os, RouteError, route_word, get_word, add_dev, add_via, add_route, get_route_info,
}
use hushwire.Routing.Manager.{
  RouteKind, tun, endpoint_exception, excluded_prefix, InstalledRoute, Texts, Managed, push_if_ok,
  lower_half, upper_half, add_tun_route, add_exception, add_endpoint_exception, cleanup, probe,
  add_prefix_exception, has_prefix, install_exclusions, install_endpoints, install_route,
  install_routes, setup_inner, setup,
}
use hushwire.Routing.Manager.Laws.{RouteLaws}
use hushwire.Routing.Manager.Stack.{Fits, Holds, cleanup_routes_pops}
use hushwire.Routing.Manager.Distinct.{distinct_prefixes}
use hushwire.Routing.Manager.Plan.{
  label, exclusions, endpoints, tunnel, tunnels, plan, Step, Step-none, Step-and_next,
  Step-push_if_ok,
}

module _ {World : Type 0} (os : Os World) (laws : RouteLaws os) (base : List (Text × Text)) where
  open laws use {table}

  Step-add_tun_route :
      (prefix : Text) (state : Managed World)
      → Step os laws base state (add_tun_route os prefix state) ((tun, prefix) ∷ [])
  unfolding add_tun_route
  Step-add_tun_route prefix state =
      let dev = state.manager.tun_name in
      Step-push_if_ok os laws base state (record { kind = tun; spec = prefix; tun_name = dev }) dev
        (add_dev prefix dev) state.world refl (inr refl) (λ k. refl)
        (laws.adds_dev prefix dev state.world)

  get_route_info_keeps :
      (dst : Text) (world : World) → table (get_route_info os dst world).1 ≡ table world
  unfolding get_route_info
  get_route_info_keeps dst world =
      let asked = os.ip (route_word ∷ get_word ∷ dst ∷ []) world in
      elim (Option-cases asked.0) [
        | inl e ↦ rw (e, get_route_info) (laws.gets dst world)
        | inr (out, e) ↦ rw (e, get_route_info) (laws.gets dst world)
      ]

  Step-add_exception :
      (state : Managed World) (spec : Text) (entry : Text → InstalledRoute) (kind : RouteKind)
      (info : Result RouteError (Option Text × Text) × World)
      → table info.1 ≡ table state.world
      → (kind ≡ tun → ⊥)
      → ((dev : Text) → label (entry dev) ≡ (kind, spec))
      → ((dev : Text) → Fits (entry dev) dev)
      → Step os laws base state (add_exception os state.manager spec entry info) ((kind, spec) ∷ [])
  unfolding add_exception
  Step-add_exception state spec entry kind (err e, world) same not_tun labelled fits = record {
    stacked = λ h. rw same h;
    named = refl;
    laid = λ h. ground arith;
  }
  Step-add_exception state spec entry kind (ok (none, dev), world) same not_tun labelled fits =
      let arguments = add_dev spec dev in
      let same_spec : (entry dev).spec ≡ spec = ap (λ l. l.1) (labelled dev) in
      subst
        (λ l.
          Step os laws base state
            (push_if_ok state.manager (entry dev) (add_route os arguments world)) (l ∷ []))
        (labelled dev)
        (Step-push_if_ok os laws base state (entry dev) dev arguments world same (fits dev)
          (λ k. absurd (not_tun (sym (ap (λ l. l.0) (labelled dev)) ∙ k)))
          (λ s. rw same_spec (laws.adds_dev spec dev world s)))
  Step-add_exception state spec entry kind (ok (some gateway, dev), world) same not_tun labelled
        fits =
      let arguments = add_via spec gateway dev in
      let same_spec : (entry dev).spec ≡ spec = ap (λ l. l.1) (labelled dev) in
      subst
        (λ l.
          Step os laws base state
            (push_if_ok state.manager (entry dev) (add_route os arguments world)) (l ∷ []))
        (labelled dev)
        (Step-push_if_ok os laws base state (entry dev) dev arguments world same (fits dev)
          (λ k. absurd (not_tun (sym (ap (λ l. l.0) (labelled dev)) ∙ k)))
          (λ s. rw same_spec (laws.adds_via spec gateway dev world s)))

  Step-add_endpoint_exception :
      (show_ip : IpAddr → Text) (ip : IpAddr) (state : Managed World)
      → Step os laws base state
          (add_endpoint_exception os show_ip ip state)
          ((endpoint_exception, show_ip ip) ∷ [])
  unfolding add_endpoint_exception
  Step-add_endpoint_exception show_ip ip state =
      Step-add_exception state (show_ip ip) _ endpoint_exception
        (get_route_info os (show_ip ip) state.world) (get_route_info_keeps (show_ip ip) state.world)
        (λ e. ground arith) (λ dev. refl) (λ dev. inl refl)

  module _ (net : Ipnet) (texts : Texts net) where
    open net use {Net, prefix_len}
    open texts use {show_net, show_ipv4, show_ip, addr}

    Step-add_prefix_exception :
        (prefix : Net) (state : Managed World)
        → Step os laws base state
            (add_prefix_exception os net texts prefix state)
            ((excluded_prefix, show_net prefix) ∷ [])
    unfolding add_prefix_exception
    Step-add_prefix_exception prefix state =
        let dst = show_ipv4 (probe net prefix) in
        Step-add_exception state (show_net prefix) _ excluded_prefix
          (get_route_info os dst state.world) (get_route_info_keeps dst state.world)
          (λ e. ground arith) (λ dev. refl) (λ dev. inr refl)

    Step-install_exclusions :
        (routes : List (Route Net)) (seen : List Net) (state : Managed World)
        → Step os laws base state
            (install_exclusions os net texts routes seen state)
            (exclusions net texts (distinct_prefixes net routes seen))
    unfolding install_exclusions
    Step-install_exclusions [] seen state = Step-none os laws base state
    Step-install_exclusions (route ∷ routes) seen state =
        elim (Bool-cases (has_prefix net route.prefix seen)) [
          | inl e ↦
              rw (e, install_exclusions, distinct_prefixes)
                (Step-install_exclusions routes seen state)
          | inr e ↦
              rw (e, install_exclusions, distinct_prefixes)
                (Step-and_next os laws base state
                  (add_prefix_exception os net texts route.prefix state)
                  (install_exclusions os net texts routes (route.prefix ∷ seen))
                  ((excluded_prefix, show_net route.prefix) ∷ [])
                  (exclusions net texts (distinct_prefixes net routes (route.prefix ∷ seen)))
                  (Step-add_prefix_exception route.prefix state)
                  (Step-install_exclusions routes (route.prefix ∷ seen)))
        ]

    Step-install_endpoints :
        (peers : List (Peer Net)) (state : Managed World)
        → Step os laws base state
            (install_endpoints os net texts peers state)
            (endpoints net texts peers)
    unfolding install_endpoints
    Step-install_endpoints [] state = Step-none os laws base state
    Step-install_endpoints (peer ∷ peers) state =
        Step-and_next os laws base state _ _ ((endpoint_exception, show_ip peer.endpoint.ip) ∷ []) _
          (Step-add_endpoint_exception show_ip peer.endpoint.ip state)
          (Step-install_endpoints peers)

    Step-install_route :
        (route : Route Net) (state : Managed World)
        → Step os laws base state (install_route os net texts route state) (tunnel net texts route)
    unfolding install_route
    Step-install_route route state = elim (Bool-cases (prefix_len route.prefix == 0)) [
      | inl e ↦ rw e (
          Step-and_next os laws base state _ _ ((tun, lower_half) ∷ []) ((tun, upper_half) ∷ [])
            (Step-add_tun_route lower_half state) (Step-add_tun_route upper_half))
      | inr e ↦ elim (Bool-cases (prefix_len route.prefix == 32)) [
        | inl f ↦ rw (e, f) (Step-add_tun_route _ state)
        | inr f ↦ rw (e, f) (Step-add_tun_route (show_net route.prefix) state)
      ]
    ]

    Step-install_routes :
        (routes : List (Route Net)) (state : Managed World)
        → Step os laws base state
            (install_routes os net texts routes state)
            (tunnels net texts routes)
    unfolding install_routes
    Step-install_routes [] state = Step-none os laws base state
    Step-install_routes (route ∷ routes) state =
        Step-and_next os laws base state _ _ (tunnel net texts route) _
          (Step-install_route route state) (Step-install_routes routes)

    Step-setup_inner :
        (router : Router Net) (state : Managed World)
        → Step os laws base state
            (setup_inner os net texts router state)
            (plan net texts router (distinct_prefixes net router.excluded_routes []))
    unfolding setup_inner
    Step-setup_inner router state =
        Step-and_next os laws base state _ _
          (exclusions net texts (distinct_prefixes net router.excluded_routes [])) _
          (Step-install_exclusions router.excluded_routes [] state)
          (λ state'.
            Step-and_next os laws base state' _ _
              (endpoints net texts (endpoint_exception_peers net router)) _
              (Step-install_endpoints (endpoint_exception_peers net router) state')
              (Step-install_routes router.routes))

    -- If the installed routes lie on top of the routes of the host, the latest first, and `ip`
    -- keeps to the laws stated, by which a deletion may fail, but at most two in a row, then after
    -- a set-up that succeeds a clean-up gives back the routes that the host had, and a set-up that
    -- fails has given them back itself and keeps no entry.
    pub setup-cleanup :
        (router : Router Net) (state : Managed World)
        → ((world : World) → laws.failures world ≤ 2)
        → Holds os laws base state
        → (((setup os net texts router state).0 ≡ ok tt)
            × (table (cleanup os (setup os net texts router state).1) ≡ base))
          ⊎ (((e : RouteError) × ((setup os net texts router state).0 ≡ err e))
              × ((setup os net texts router state).1.manager.installed ≡ [])
              × (table (setup os net texts router state).1.world ≡ base))
    unfolding setup cleanup
    setup-cleanup router state transient h =
        let step : Step os laws base state (setup_inner os net texts router state)
            (plan net texts router (distinct_prefixes net router.excluded_routes [])) =
          Step-setup_inner router state in
        let after = (setup_inner os net texts router state).1 in
        let undone =
          cleanup_routes_pops os laws transient base after.manager.installed after.world
            (step.stacked h) in
        elim (Result-cases (setup_inner os net texts router state).0) [
          | inl (done, e) ↦ rw (e, setup) (inl (refl, undone))
          | inr (x, e) ↦ rw (e, setup) (inr ((x, refl), refl, undone))
        ]
