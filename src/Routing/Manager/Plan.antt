-- ===== src/Routing/Manager/Plan.antt =====
-- src/routing.rs, `RouteManager::setup`: the routes to install, and what one call does to those that
-- are installed.
use hushwire.Common.{
  List, [], ◌∷◌, ◌++◌, ◌==◌, ◌≡◌, inl, inr, refl, ap, subst, ◌∙◌, ◌⊎◌, arith, if◌then◌else◌, ok,
  err,
}
use hushwire.Common.Maps.{Text}
use hushwire.Externals.{Ipnet}
use hushwire.Router.{Peer, Route, Router, endpoint_exception_peers}
use hushwire.Routing.Commands.{Os, add_route}
use hushwire.Routing.Manager.{
  RouteKind, tun, endpoint_exception, excluded_prefix, InstalledRoute, Texts, Managed, Answer, push,
  push_if_ok, and_next,
}
use hushwire.Routing.Manager.Laws.{Succeeds, RouteLaws}
use hushwire.Routing.Manager.Stack.{Fits, snoc-Stacked, Holds, add_route_cases}

-- A route by its kind and prefix.
abbrev pub label : InstalledRoute → RouteKind × Text
label route = (route.kind, route.spec)

-- The host's routes after these have been added to those of `base`, in this order; the device of a
-- route into the tunnel is the tunnel's.
abbrev pub Laid : Text → List (Text × Text) → List (RouteKind × Text) → List (Text × Text) → Type 0
Laid tun_name base [] table = table ≡ base
Laid tun_name base ((kind, spec) ∷ entries) table =
    (dev : Text) × (kind ≡ tun → dev ≡ tun_name) × Laid tun_name ((spec, dev) ∷ base) entries table

Laid-append :
    (tun_name : Text) (base middle table : List (Text × Text)) (xs ys : List (RouteKind × Text))
    → Laid tun_name base xs middle
    → Laid tun_name middle ys table
    → Laid tun_name base (xs ++ ys) table
Laid-append tun_name base middle table [] ys h k = subst (λ t. Laid tun_name t ys table) h k
Laid-append tun_name base middle table ((kind, spec) ∷ xs) ys (dev, onto, h) k =
    (dev, onto, Laid-append tun_name ((spec, dev) ∷ base) middle table xs ys h k)

-- "0.0.0.0/1" and "128.0.0.0/1"
abbrev default_halves : List (RouteKind × Text)
default_halves =
    (tun, b'0' ∷ b'.' ∷ b'0' ∷ b'.' ∷ b'0' ∷ b'.' ∷ b'0' ∷ b'/' ∷ b'1' ∷ [])
    ∷ (tun, b'1' ∷ b'2' ∷ b'8' ∷ b'.' ∷ b'0' ∷ b'.' ∷ b'0' ∷ b'.' ∷ b'0' ∷ b'/' ∷ b'1' ∷ [])
    ∷ []

abbrev pub Has : {A : Type 0} → A → List A → Type 0
Has a [] = ⊥
Has a (x ∷ xs) = (x ≡ a) ⊎ Has a xs

abbrev pub prefixes_of : {Net : Type 0} → List (Route Net) → List Net
prefixes_of [] = []
prefixes_of (route ∷ routes) = route.prefix ∷ prefixes_of routes

module _ (net : Ipnet) (texts : Texts net) where
  open net use {Net, prefix_len}
  open texts use {show_net, show_ipv4, show_ip, addr}

  abbrev pub exclusions : List Net → List (RouteKind × Text)
  exclusions [] = []
  exclusions (prefix ∷ prefixes) = (excluded_prefix, show_net prefix) ∷ exclusions prefixes

  abbrev pub endpoints : List (Peer Net) → List (RouteKind × Text)
  endpoints [] = []
  endpoints (peer ∷ peers) = (endpoint_exception, show_ip peer.endpoint.ip) ∷ endpoints peers

  -- A default route is installed as two halves.
  abbrev pub tunnel : Route Net → List (RouteKind × Text)
  tunnel route =
      if prefix_len route.prefix == 0
      then default_halves
      else if prefix_len route.prefix == 32
      then (tun, show_ipv4 (addr route.prefix) ++ b'/' ∷ b'3' ∷ b'2' ∷ []) ∷ []
      else (tun, show_net route.prefix) ∷ []

  abbrev pub tunnels : List (Route Net) → List (RouteKind × Text)
  tunnels [] = []
  tunnels (route ∷ routes) = tunnel route ++ tunnels routes

  -- Every exception stands before the first route into the tunnel.
  abbrev pub plan : Router Net → List Net → List (RouteKind × Text)
  plan router prefixes =
      exclusions prefixes
      ++ (endpoints (endpoint_exception_peers net router) ++ tunnels router.routes)

module _ {World : Type 0} (os : Os World) (laws : RouteLaws os) (base : List (Text × Text)) where
  open laws use {table}

  -- What a call does: the routes stay stacked, and a result `ok` has added `entries` to
  -- those of the host.
  pub record Step (state : Managed World) (answer : Answer World)
      (entries : List (RouteKind × Text)) : Type 0 where
    pub stacked : Holds os laws base state → Holds os laws base answer.1
    pub named : answer.1.manager.tun_name ≡ state.manager.tun_name
    pub laid :
        answer.0 ≡ ok tt
        → Laid state.manager.tun_name (table state.world) entries (table answer.1.world)

  pub Step-none : (state : Managed World) → Step state (ok tt, state) []
  Step-none state = record { stacked = λ h. h; named = refl; laid = λ h. refl }

  pub Step-and_next :
      (state : Managed World) (answer : Answer World) (next : Managed World → Answer World)
      (xs ys : List (RouteKind × Text))
      → Step state answer xs
      → ((state' : Managed World) → Step state' (next state') ys)
      → Step state (and_next answer next) (xs ++ ys)
  unfolding and_next
  Step-and_next state (err e, state') next xs ys s n = record {
    stacked = s.stacked;
    named = s.named;
    laid = λ h. ground arith;
  }
  Step-and_next state (ok done, state') next xs ys s n =
      let t : Step state' (next state') ys = n state' in
      record {
        stacked = λ h. t.stacked (s.stacked h);
        named = t.named ∙ s.named;
        laid = λ h.
            Laid-append state.manager.tun_name (table state.world) (table state'.world)
              (table (next state').1.world) xs ys (s.laid refl)
              (subst (λ n. Laid n (table state'.world) ys (table (next state').1.world)) s.named
                (t.laid h));
      }

  -- A command that adds the route, and the push that follows.
  pub Step-push_if_ok :
      (state : Managed World) (route : InstalledRoute) (dev : Text) (arguments : List Text)
      (world : World)
      → table world ≡ table state.world
      → Fits route dev
      → (route.kind ≡ tun → dev ≡ state.manager.tun_name)
      → (Succeeds (os.ip arguments world).0
          → table (os.ip arguments world).1 ≡ (route.spec, dev) ∷ table world)
      → Step state
          (push_if_ok state.manager route (add_route os arguments world))
          (label route ∷ [])
  unfolding push_if_ok push
  Step-push_if_ok state route dev arguments world same fits onto adds =
      let installed = state.manager.installed in
      elim (add_route_cases os laws arguments world) [
        | inl (answered, s) ↦ rw answered (record {
          stacked = λ h.
              rw (adds s) (snoc-Stacked base (table world) installed route dev (rw same h) fits);
          named = refl;
          laid = λ h. (dev, onto, adds s ∙ ap (λ t. (route.spec, dev) ∷ t) same);
        })
        | inr (e, answered, kept) ↦
            rw answered
              (record { stacked = λ h. rw (kept, same) h; named = refl; laid = λ h. ground arith })
      ]
