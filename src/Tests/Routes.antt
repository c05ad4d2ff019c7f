-- ===== src/Tests/Routes.antt =====
-- Routes on a host that keeps a list of them, with room for a few.
use hushwire.Common.{
  Bool, ◌<◌, ◌≤◌, ap, arith, inl, inr, ◌&&◌, ℕ, ltb, true, false, List, [], ◌∷◌, ◌++◌, Option, none,
  some, ◌≡◌, ◌⊎◌, refl, sym, subst, if◌then◌else◌, ite, ok, err, length, bytes_eq, ℕ_discrete,
}
use hushwire.Common.Maps.{Text, text_eq}
use hushwire.Config.{v4, v6}
use hushwire.Router.{Route, Router}
use hushwire.Routing.Commands.{
  Output, Os, RouteError, add_word, del_word, get_word, show_word, route_listing_contains, is_word,
}
use hushwire.Routing.Manager
use hushwire.Routing.Manager.{Texts, Managed, delete_route, cleanup_routes, cleanup, setup}
use hushwire.Routing.Manager.Laws.{Succeeds, RouteLaws}
use hushwire.Routing.Manager.Setup.{setup-cleanup}
use hushwire.Tests.Samples.{sample_net}
use hushwire.Tests.Tables.{address, narrow_route}

-- The routes, and whether the next deletion fails.
abbrev Host : Type 0
Host = List (Text × Text) × Bool

-- "9 via 8 dev e"
abbrev info : Text
info = b'9' ∷ 32 ∷ b'v' ∷ b'i' ∷ b'a' ∷ 32 ∷ b'8' ∷ 32 ∷ b'd' ∷ b'e' ∷ b'v' ∷ 32 ∷ b'e' ∷ 10 ∷ []

abbrev answer_of : Bool → Text → Output
answer_of success stdout = record { success = success; stdout = stdout; stderr = [] }

abbrev last_of : List Text → Text
last_of [] = []
last_of (word ∷ []) = word
last_of (word ∷ next ∷ words) = last_of (next ∷ words)

-- What `ip route show` lists, the latest route only: "… dev d".
abbrev listing : List (Text × Text) → Text
listing [] = []
listing ((spec, dev) ∷ routes) = spec ++ 32 ∷ b'd' ∷ b'e' ∷ b'v' ∷ 32 ∷ dev ++ 10 ∷ []

abbrev is_listed : List (Text × Text) → Bool
is_listed [] = true
is_listed ((spec, dev) ∷ routes) =
    route_listing_contains (listing ((spec, dev) ∷ routes)) (some dev)
    && route_listing_contains (listing ((spec, dev) ∷ routes)) none

-- A deletion makes the next one fail.
abbrev pop : Text → List (Text × Text) → Option (Text × Host)
pop spec [] = none
pop spec ((s, d) ∷ routes) = ite (text_eq s spec) (some ([], (routes, true))) none

abbrev is_deletion : List Text → Bool
is_deletion [] = false
is_deletion (object ∷ []) = false
is_deletion (object ∷ verb ∷ words) = is_word verb del_word

-- The host after a command that succeeds, and what it prints.
unfoldable after : ℕ → List Text → Host → Option (Text × Host)
after room [] host = none
after room (object ∷ []) host = none
after room (object ∷ verb ∷ []) host = none
after room (object ∷ verb ∷ spec ∷ options) (routes, failing) =
    if is_word verb add_word
    then if ltb (length routes) room
      then some ([], ((spec, last_of options) ∷ routes, failing))
      else none
    else if is_word verb del_word
    then pop spec routes
    else if is_word verb get_word
    then some (info, (routes, failing))
    else if is_word verb show_word
    then if is_listed routes then some (listing routes, (routes, failing)) else none
    else none

unfoldable command : Option (Text × Host) → Host → Option Output × Host
command none host = (none, host)
command (some (stdout, host')) host = (some (answer_of true stdout), host')

-- A deletion that fails does so once.
unfoldable run : Bool → Option (Text × Host) → Host → Option Output × Host
unfolding command
run true next (routes, true) = (some (answer_of false []), (routes, false))
run true next (routes, false) = command next (routes, false)
run false next host = command next host

abbrev sample_os : ℕ → Os Host
sample_os room = record {
  ip = λ arguments host. run (is_deletion arguments) (after room arguments host) host;
  sleep = λ host. host;
}

added :
    (more : Bool) (spec dev : Text) (routes : List (Text × Text)) (failing : Bool)
    → let next : Option (Text × Host) =
        if more then some ([], ((spec, dev) ∷ routes, failing)) else none in
      Succeeds (command next (routes, failing)).0
      → (command next (routes, failing)).1.0 ≡ (spec, dev) ∷ routes
unfolding command
added true spec dev routes failing h = refl
added false spec dev routes failing h = absurd h

refused :
    (next : Option (Text × Host)) (host : Host)
    → (Succeeds (command next host).0 → ⊥)
    → (command next host).1 ≡ host
unfolding command
refused none host h = refl
refused (some (out, host')) host h = absurd (h refl)

run_refused :
    (deletion : Bool) (next : Option (Text × Host)) (host : Host)
    → (Succeeds (run deletion next host).0 → ⊥)
    → (run deletion next host).1.0 ≡ host.0
unfolding run
run_refused true next (routes, true) h = refl
run_refused true next (routes, false) h = ap (λ x. x.0) (refused next (routes, false) h)
run_refused false next host h = ap (λ x. x.0) (refused next host h)

abbrev failures : Host → ℕ
failures (routes, true) = 1
failures (routes, false) = 0

popped :
    (spec dev : Text) (routes rest : List (Text × Text)) (failing : Bool)
    → routes ≡ (spec, dev) ∷ rest
    → let answer = run true (pop spec routes) (routes, failing) in
      (Succeeds answer.0 × (answer.1.0 ≡ rest))
      ⊎ ((out : Output) × (answer.0 ≡ some out)
          × (out.success ≡ false)
          × (failures answer.1 < failures (routes, failing)))
unfolding run command
popped spec dev routes rest true e = inr (answer_of false [], refl, refl, omega arith)
popped spec dev routes rest false e =
    subst
      (λ h.
        let answer = run true (pop spec h) (h, false) in
        (Succeeds answer.0 × (answer.1.0 ≡ rest))
        ⊎ ((out : Output) × (answer.0 ≡ some out)
            × (out.success ≡ false)
            × (failures answer.1 < 0)))
      (sym e)
      (inl
        (elim (text_eq spec spec)
          as (λ d.
            let answer =
              command (ite d (some ([], (rest, true))) none) ((spec, dev) ∷ rest, false) in
            Succeeds answer.0 × (answer.1.0 ≡ rest)) [
              | yes same ↦ (refl, refl)
              | no n ↦ absurd (n refl)
            ]))

shown :
    (listed : Bool) (text : Text) (host : Host) (out : Output)
    → (command (if listed then some (text, host) else none) host).0 ≡ some out
    → (listed ≡ true) × (text ≡ out.stdout)
unfolding command
shown true text host out h = (refl, ground arith)
shown false text host out h = ground arith

listed_both : (a b : Bool) → a && b ≡ true → (a ≡ true) × (b ≡ true)
listed_both true b h = (refl, h)
listed_both false b h = ground arith

show_kept :
    (listed : Bool) (text : Text) (host : Host)
    → (command (if listed then some (text, host) else none) host).1 ≡ host
unfolding command
show_kept true text host = refl
show_kept false text host = refl

shows_latest :
    (spec dev : Text) (routes rest : List (Text × Text)) (failing : Bool) (out : Output)
    → routes ≡ (spec, dev) ∷ rest
    → (command
        (if is_listed routes then some (listing routes, (routes, failing)) else none)
        (routes, failing)).0
      ≡ some out
    → (route_listing_contains out.stdout (some dev) ≡ true)
      × (route_listing_contains out.stdout none ≡ true)
shows_latest spec dev routes rest failing out e h =
    let (checked, printed) = shown (is_listed routes) (listing routes) (routes, failing) out h in
    let both = listed_both _ _ (subst (λ r. is_listed r ≡ true) e checked) in
    let stdout : listing ((spec, dev) ∷ rest) ≡ out.stdout =
      subst (λ r. listing r ≡ out.stdout) e printed in
    subst
      (λ text.
        (route_listing_contains text (some dev) ≡ true) × (route_listing_contains text none ≡ true))
      stdout both

unfoldable host_laws : (room : ℕ) → RouteLaws (sample_os room)
unfolding after bytes_eq ℕ_discrete command run
host_laws room = record {
  table = λ host. host.0;
  adds_dev = λ spec dev host. added (ltb (length host.0) room) spec dev host.0 host.1;
  adds_via = λ spec gateway dev host. added (ltb (length host.0) room) spec dev host.0 host.1;
  refuses = λ arguments host. run_refused (is_deletion arguments) (after room arguments host) host;
  gets = λ dst host. refl;
  failures = failures;
  deletes_dev = λ spec dev host rest. popped spec dev host.0 rest host.1;
  deletes_host = λ spec dev host rest. popped spec dev host.0 rest host.1;
  shows = λ spec dev host rest out e h s. shows_latest spec dev host.0 rest host.1 out e h;
  show_keeps = λ spec host.
      let same = show_kept (is_listed host.0) (listing host.0) host in
      (ap (λ h. h.0) same, omega (arith, ap failures same));
  sleep_keeps = λ host. (refl, omega arith);
}

few_failures : (room : ℕ) (host : Host) → (host_laws room).failures host ≤ 2
unfolding host_laws
few_failures room (routes, true) = omega arith
few_failures room (routes, false) = omega arith

abbrev sample_texts : Texts sample_net
sample_texts = record {
  show_net = λ net. net.0 ∷ net.1 ∷ [];
  show_ipv4 = λ a. a ∷ [];
  show_ip = λ ip. elim ip [ v4 a ↦ a ∷ [] | v6 a ↦ a ∷ [] ];
  addr = λ net. net.0;
}

-- The peer's endpoint lies inside its route, and one prefix is excluded.
abbrev captured_route : Route (ℕ × ℕ)
captured_route = record narrow_route {
  peer = record narrow_route.peer {
    endpoint = record { ip = v4 (address 5); port = 51; flowinfo = 0; scope_id = 0 };
  };
}

abbrev captured : Router (ℕ × ℕ)
captured = record {
  routes = captured_route ∷ [];
  excluded_routes = record captured_route { prefix = (address 7, 32) } ∷ [];
}

abbrev fresh : Managed Host
fresh = record { manager = Manager.new (b't' ∷ []); world = ([], true) }

-- There is no room for the last route, and the first deletion of each other route fails.
setup-cleanup_example :
    (((setup (sample_os 2) sample_net sample_texts captured fresh).0 ≡ ok tt)
      × ((cleanup (sample_os 2) (setup (sample_os 2) sample_net sample_texts captured fresh).1).0
          ≡ []))
    ⊎ (((e : RouteError) × ((setup (sample_os 2) sample_net sample_texts captured fresh).0 ≡ err e))
        × ((setup (sample_os 2) sample_net sample_texts captured fresh).1.manager.installed ≡ [])
        × ((setup (sample_os 2) sample_net sample_texts captured fresh).1.world.0 ≡ []))
unfolding Manager.new host_laws
setup-cleanup_example =
    setup-cleanup (sample_os 2) (host_laws 2) [] sample_net sample_texts captured fresh
      (few_failures 2) refl
