-- ===== src/Routing/Commands.antt =====
-- src/routing.rs: the calls of the command `ip`, with the arguments that the code gives it.
use hushwire.Common.{
  ℕ, zero, suc, ltb, Bool, true, false, not, ◌||◌, List, [], ◌∷◌, Option, none, some, if◌then◌else◌,
  ite, Result, ok, err,
}
use hushwire.Common.Maps.{Text, text_eq}
use hushwire.Config.Characters.{trim, is_empty, lines, split_whitespace}

-- `std::process::Output`; the texts as `from_utf8_lossy` gives them.
pub record Output : Type 0 where
  pub success : Bool
  pub stdout : Text
  pub stderr : Text

-- The command `ip` on a state of the host, which the code cannot see; `none` when it does not run.
pub record Os (World : Type 0) : Type 0 where
  pub ip : List Text → World → Option Output × World
  pub sleep : World → World

-- The causes of an `anyhow::Error`; the texts that `with_context` puts before them are left out.
pub data RouteError : Type 0 where
  not_run route_add_failed route_show_failed empty_output no_dev : RouteError
  route_del_failed : (detail : Text) → RouteError
  route_del_unchecked : (detail : Text) (final_check : RouteError) → RouteError

abbrev pub route_word : Text
route_word = b'r' ∷ b'o' ∷ b'u' ∷ b't' ∷ b'e' ∷ []

abbrev pub add_word : Text
add_word = b'a' ∷ b'd' ∷ b'd' ∷ []

abbrev pub del_word : Text
del_word = b'd' ∷ b'e' ∷ b'l' ∷ []

abbrev pub show_word : Text
show_word = b's' ∷ b'h' ∷ b'o' ∷ b'w' ∷ []

abbrev pub get_word : Text
get_word = b'g' ∷ b'e' ∷ b't' ∷ []

abbrev pub dev_word : Text
dev_word = b'd' ∷ b'e' ∷ b'v' ∷ []

abbrev pub via_word : Text
via_word = b'v' ∷ b'i' ∷ b'a' ∷ []

abbrev pub add_dev : Text → Text → List Text
add_dev spec dev = route_word ∷ add_word ∷ spec ∷ dev_word ∷ dev ∷ []

abbrev pub add_via : Text → Text → Text → List Text
add_via spec gateway dev = route_word ∷ add_word ∷ spec ∷ via_word ∷ gateway ∷ dev_word ∷ dev ∷ []

abbrev pub del_dev : Text → Text → List Text
del_dev spec dev = route_word ∷ del_word ∷ spec ∷ dev_word ∷ dev ∷ []

abbrev pub del_host : Text → List Text
del_host spec = route_word ∷ del_word ∷ spec ∷ []

abbrev pub is_word : Text → Text → Bool
is_word a b = ite (text_eq a b) true false

-- The token after the first `dev`.
unfoldable pub tokens_use_dev : List Text → Text → Bool
tokens_use_dev [] expected = false
tokens_use_dev (token ∷ tokens) expected =
    let rest = tokens_use_dev tokens expected in
    if is_word token dev_word
    then elim tokens [ [] ↦ false | next ∷ more ↦ is_word next expected ]
    else rest

unfoldable pub route_line_uses_dev : Text → Text → Bool
unfolding tokens_use_dev split_whitespace
route_line_uses_dev line expected = tokens_use_dev (split_whitespace line) expected

unfoldable pub any_line : List Text → Option Text → Bool
unfolding route_line_uses_dev trim
any_line [] dev = false
any_line (line ∷ rest) dev =
    (elim dev [
      | none ↦ not (is_empty (trim line))
      | some expected ↦ route_line_uses_dev line expected
    ])
    || any_line rest dev

unfoldable pub route_listing_contains : Text → Option Text → Bool
unfolding any_line lines
route_listing_contains listing dev = any_line (lines listing) dev

-- The loop of `get_route_info` over the parts, with the gateway and the device so far.
unfoldable pub scan_parts : List Text → Option Text → Option Text → Option Text × Option Text
scan_parts [] gateway dev = (gateway, dev)
scan_parts (part ∷ []) gateway dev = (gateway, dev)
scan_parts (part ∷ next ∷ rest) gateway dev =
    scan_parts (next ∷ rest) (if is_word part via_word then some next else gateway)
      (if is_word part dev_word then some next else dev)

unfoldable pub parse_route_info : Text → Result RouteError (Option Text × Text)
unfolding scan_parts lines split_whitespace
parse_route_info text = elim (lines text) [
  | [] ↦ err empty_output
  | line ∷ rest ↦
      let (gateway, dev) = scan_parts (split_whitespace line) none none in
      elim dev [ none ↦ err no_dev | some d ↦ ok (gateway, d) ]
]

-- The `detail` of a failed deletion.
unfoldable pub stderr_detail : Text → Text
unfolding trim
stderr_detail stderr =
    if is_empty (trim stderr)
    then b'n' ∷ b'o' ∷ 32 ∷ b's' ∷ b't' ∷ b'd' ∷ b'e' ∷ b'r' ∷ b'r' ∷ []
    else trim stderr

module _ {World : Type 0} (os : Os World) where
  -- `add_route_to_dev`, `add_host_route_via`, `add_host_route_dev`, `add_prefix_route_via` and
  -- `add_prefix_route_dev`, which differ in their arguments.
  unfoldable pub add_route : List Text → World → Result RouteError (Unit {0}) × World
  add_route arguments world =
      let (status, world') = os.ip arguments world in
      elim status [
        | none ↦ (err not_run, world')
        | some out ↦ if out.success then (ok tt, world') else (err route_add_failed, world')
      ]

  unfoldable pub get_route_info : Text → World → Result RouteError (Option Text × Text) × World
  unfolding parse_route_info
  get_route_info dst world =
      let (output, world') = os.ip (route_word ∷ get_word ∷ dst ∷ []) world in
      elim output [
        | none ↦ (err not_run, world')
        | some out ↦ (parse_route_info out.stdout, world')
      ]

  unfoldable pub linux_route_exists : Text → Option Text → World → Result RouteError Bool × World
  unfolding route_listing_contains
  linux_route_exists prefix dev world =
      let (output, world') = os.ip (route_word ∷ show_word ∷ prefix ∷ []) world in
      elim output [
        | none ↦ (err not_run, world')
        | some out ↦
            if out.success
            then (ok (route_listing_contains out.stdout dev), world')
            else (err route_show_failed, world')
      ]

  -- The attempts that are left, with the last failure and the last error of a check.
  unfoldable pub delete_attempts :
      ℕ
      → List Text
      → Text
      → Option Text
      → Text
      → Option RouteError
      → World
      → Result RouteError (Unit {0}) × World
  unfolding linux_route_exists stderr_detail
  delete_attempts zero arguments prefix dev stderr last_check world = elim last_check [
    | some error ↦ (err (route_del_unchecked (stderr_detail stderr) error), world)
    | none ↦ (err (route_del_failed (stderr_detail stderr)), world)
  ]
  delete_attempts (suc attempts) arguments prefix dev stderr last_check world =
      let (output, world') = os.ip arguments world in
      elim output [
        | none ↦ (err not_run, world')
        | some out ↦
            if out.success
            then (ok tt, world')
            else let (exists, world'') = linux_route_exists prefix dev world' in
              let rested = if ltb 0 attempts then os.sleep world'' else world'' in
              let again = delete_attempts attempts arguments prefix dev out.stderr in
              elim exists [
                | ok present ↦ if present then again none rested else (ok tt, world'')
                | err e ↦ again (some e) rested
              ]
      ]

  unfoldable pub delete_linux_route :
      List Text → Text → Option Text → World → Result RouteError (Unit {0}) × World
  unfolding delete_attempts
  delete_linux_route arguments prefix dev world =
      delete_attempts 3 arguments prefix dev [] none world

  -- `del_tun_route` and `del_prefix_exception`.
  unfoldable pub del_tun_route : Text → Text → World → Result RouteError (Unit {0}) × World
  unfolding delete_linux_route
  del_tun_route prefix dev world = delete_linux_route (del_dev prefix dev) prefix (some dev) world

  unfoldable pub del_host_route : Text → World → Result RouteError (Unit {0}) × World
  unfolding delete_linux_route
  del_host_route host world = delete_linux_route (del_host host) host none world
