-- ===== src/Routing/Manager.antt =====
-- src/routing.rs, `RouteManager`: the routes of a router, installed in order and taken back in the
-- other. The methods that can fail answer with their result and the state that they leave.
pub mod Laws
pub mod Stack
pub mod Plan
pub mod Distinct
pub mod Setup
use hushwire.Common.{
  ℕ, ◌+◌, ◌-◌, ◌^◌, min, Bool, true, false, List, [], ◌∷◌, ◌++◌, Option, none, some, ◌==◌,
  if◌then◌else◌, ite, Result, ok, err,
}
use hushwire.Common.Maps.{Text}
use hushwire.Externals.{Ipnet}
use hushwire.Config.{IpAddr}
use hushwire.Router.{Peer, Route, Router, endpoint_exception_peers}
use hushwire.Routing.Commands.{
  Os, RouteError, add_dev, add_via, add_route, get_route_info, del_tun_route, del_host_route,
}

pub data RouteKind : Type 0 where
  tun endpoint_exception excluded_prefix : RouteKind

pub record InstalledRoute : Type 0 where
  pub kind : RouteKind
  pub spec : Text
  pub tun_name : Text

pub record RouteManager : Type 0 where
  pub tun_name : Text
  pub installed : List InstalledRoute

-- `RouteManager::new`
unfoldable pub new : Text → RouteManager
new tun_name = record { tun_name = tun_name; installed = [] }

-- The texts that `ipnet` and `std::net` give, and `Ipv4Net::addr`.
pub record Texts (net : Ipnet) : Type 0 where
  pub show_net : net.Net → Text
  pub show_ipv4 : ℕ → Text
  pub show_ip : IpAddr → Text
  pub addr : net.Net → ℕ

abbrev pub lower_half : Text
lower_half = b'0' ∷ b'.' ∷ b'0' ∷ b'.' ∷ b'0' ∷ b'.' ∷ b'0' ∷ b'/' ∷ b'1' ∷ []

abbrev pub upper_half : Text
upper_half = b'1' ∷ b'2' ∷ b'8' ∷ b'.' ∷ b'0' ∷ b'.' ∷ b'0' ∷ b'.' ∷ b'0' ∷ b'/' ∷ b'1' ∷ []

-- The state between two calls: the manager and the host.
pub record Managed (World : Type 0) : Type 0 where
  pub manager : RouteManager
  pub world : World

abbrev pub Answer : Type 0 → Type 0
Answer World = Result RouteError (Unit {0}) × Managed World

unfoldable pub push : {World : Type 0} → RouteManager → InstalledRoute → World → Answer World
push manager route world = (
  ok tt,
  record {
    manager = record manager { installed = manager.installed ++ route ∷ [] };
    world = world;
  },
)

-- What follows a command: the route is pushed when the command did not fail.
unfoldable pub push_if_ok :
    {World : Type 0}
    → RouteManager
    → InstalledRoute
    → Result RouteError (Unit {0}) × World
    → Answer World
unfolding push
push_if_ok manager route (ok done, world) = push manager route world
push_if_ok manager route (err e, world) = (err e, record { manager = manager; world = world })

-- `?` between two calls.
unfoldable pub and_next :
    {World : Type 0} → Answer World → (Managed World → Answer World) → Answer World
and_next (ok done, state) next = next state
and_next (err e, state) next = (err e, state)

module _ (net : Ipnet) where
  open net use {Net, net_eq, prefix_len, network}

  -- The address whose route tells the gateway and the device of an exclusion.
  unfoldable pub probe : Net → ℕ
  probe prefix =
      if prefix_len prefix == 32 then network prefix else min (network prefix + 1) (2 ^ 32 - 1)

  -- The test on `installed_exclusions`.
  abbrev pub has_prefix : Net → List Net → Bool
  has_prefix prefix [] = false
  has_prefix prefix (seen ∷ rest) = ite (net_eq seen prefix) true (has_prefix prefix rest)

module _ {World : Type 0} (os : Os World) where
  unfoldable pub add_tun_route : Text → Managed World → Answer World
  unfolding push_if_ok
  add_tun_route prefix state =
      push_if_ok state.manager
        (record { kind = tun; spec = prefix; tun_name = state.manager.tun_name })
        (add_route os (add_dev prefix state.manager.tun_name) state.world)

  -- The command for an exception, by the route that the host has now.
  abbrev pub exception_command : Text → Option Text → Text → List Text
  exception_command spec none dev = add_dev spec dev
  exception_command spec (some gateway) dev = add_via spec gateway dev

  -- An exception, given the answer of `get_route_info`.
  unfoldable pub add_exception :
      RouteManager
      → Text
      → (Text → InstalledRoute)
      → Result RouteError (Option Text × Text) × World
      → Answer World
  unfolding push_if_ok
  add_exception manager spec entry (err e, world) =
      (err e, record { manager = manager; world = world })
  add_exception manager spec entry (ok (gateway, dev), world) =
      push_if_ok manager (entry dev) (add_route os (exception_command spec gateway dev) world)

  unfoldable pub add_endpoint_exception : (IpAddr → Text) → IpAddr → Managed World → Answer World
  unfolding add_exception
  add_endpoint_exception show_ip ip state =
      let host = show_ip ip in
      add_exception state.manager host
        (λ dev. record {
          kind = endpoint_exception;
          spec = host;
          tun_name = state.manager.tun_name;
        })
        (get_route_info os host state.world)

  -- One round of `cleanup_routes`, whose errors are only logged.
  unfoldable pub delete_route : InstalledRoute → World → World
  delete_route entry world =
      let (result, world') : Result RouteError (Unit {0}) × World = elim entry.kind [
        | tun ↦ del_tun_route os entry.spec entry.tun_name world
        | endpoint_exception ↦ del_host_route os entry.spec world
        | excluded_prefix ↦ del_tun_route os entry.spec entry.tun_name world
      ] in
      world'

  -- The loop over `routes.iter().rev()`.
  unfoldable pub cleanup_routes : List InstalledRoute → World → World
  unfolding delete_route
  cleanup_routes [] world = world
  cleanup_routes (entry ∷ routes) world = delete_route entry (cleanup_routes routes world)

  unfoldable pub cleanup : Managed World → World
  unfolding cleanup_routes
  cleanup state = cleanup_routes state.manager.installed state.world

  module _ (net : Ipnet) (texts : Texts net) where
    open net use {Net, prefix_len}
    open texts use {show_net, show_ipv4, show_ip, addr}

    unfoldable pub add_prefix_exception : Net → Managed World → Answer World
    unfolding add_exception probe
    add_prefix_exception prefix state =
        let spec = show_net prefix in
        add_exception state.manager spec
          (λ dev. record { kind = excluded_prefix; spec = spec; tun_name = dev })
          (get_route_info os (show_ipv4 (probe net prefix)) state.world)

    -- The loop over `excluded_routes`, with `installed_exclusions`.
    unfoldable pub install_exclusions : List (Route Net) → List Net → Managed World → Answer World
    unfolding add_prefix_exception and_next
    install_exclusions [] seen state = (ok tt, state)
    install_exclusions (route ∷ routes) seen state = elim (has_prefix net route.prefix seen) [
      | true ↦ install_exclusions routes seen state
      | false ↦
          and_next (add_prefix_exception route.prefix state)
            (install_exclusions routes (route.prefix ∷ seen))
    ]

    -- The loop over `endpoint_exception_peers`.
    unfoldable pub install_endpoints : List (Peer Net) → Managed World → Answer World
    unfolding add_endpoint_exception and_next
    install_endpoints [] state = (ok tt, state)
    install_endpoints (peer ∷ peers) state =
        and_next (add_endpoint_exception show_ip peer.endpoint.ip state) (install_endpoints peers)

    -- One round of the loop over `routes`.
    unfoldable pub install_route : Route Net → Managed World → Answer World
    unfolding add_tun_route and_next
    install_route route state =
        if prefix_len route.prefix == 0
        then and_next (add_tun_route lower_half state) (add_tun_route upper_half)
        else if prefix_len route.prefix == 32
        then add_tun_route (show_ipv4 (addr route.prefix) ++ b'/' ∷ b'3' ∷ b'2' ∷ []) state
        else add_tun_route (show_net route.prefix) state

    unfoldable pub install_routes : List (Route Net) → Managed World → Answer World
    unfolding install_route and_next
    install_routes [] state = (ok tt, state)
    install_routes (route ∷ routes) state =
        and_next (install_route route state) (install_routes routes)

    unfoldable pub setup_inner : Router Net → Managed World → Answer World
    unfolding install_exclusions install_endpoints install_routes and_next
    setup_inner router state =
        and_next (install_exclusions router.excluded_routes [] state) (λ state'.
          and_next (install_endpoints (endpoint_exception_peers net router) state')
            (install_routes router.routes))

    unfoldable pub setup : Router Net → Managed World → Answer World
    unfolding setup_inner cleanup_routes
    setup router state =
        let (result, state') = setup_inner router state in
        elim result [
          | ok done ↦ (ok tt, state')
          | err e ↦ (
            err e,
            record {
              manager = record state'.manager { installed = [] };
              world = cleanup_routes state'.manager.installed state'.world;
            },
          )
        ]
