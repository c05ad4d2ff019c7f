-- ===== src/Firewall.antt =====
-- src/firewall.rs on Linux: forwarding and masquerading for an exit node. The commands `iptables`
-- and `sysctl` and the file of `ip_forward` are parameters.
pub mod Restore
use hushwire.Common.{
  ℕ, Bool, true, false, List, [], ◌∷◌, ◌++◌, Option, none, some, if◌then◌else◌, ite, Result, ok,
  err, ℕ_discrete,
}
use hushwire.Common.Maps.{Text, text_eq}
use hushwire.Config.Characters.{trim}

-- `none` is a command that does not run, or a file that cannot be read.
pub record Commands (World : Type 0) : Type 0 where
  pub iptables : List Text → World → Option Bool × World
  pub sysctl : List Text → World → Option Bool × World
  pub ip_forward_file : World → Option Text

pub data FirewallError : Type 0 where
  not_run iptables_failed sysctl_failed : FirewallError

pub record IptablesRule : Type 0 where
  pub table : Option Text
  pub chain : Text
  pub spec : List Text

pub record FirewallManager : Type 0 where
  pub tun_name : Text
  pub subnet : Text
  pub original_ip_forward : Option Text
  pub rules : List IptablesRule

unfoldable pub new : Text → Text → FirewallManager
new tun_name subnet = record {
  tun_name = tun_name;
  subnet = subnet;
  original_ip_forward = none;
  rules = [];
}

abbrev pub append_flag : Text
append_flag = b'-' ∷ b'A' ∷ []

abbrev pub delete_flag : Text
delete_flag = b'-' ∷ b'D' ∷ []

abbrev nat_word : Text
nat_word = b'n' ∷ b'a' ∷ b't' ∷ []

abbrev forward_word : Text
forward_word = b'F' ∷ b'O' ∷ b'R' ∷ b'W' ∷ b'A' ∷ b'R' ∷ b'D' ∷ []

abbrev postrouting_word : Text
postrouting_word = b'P' ∷ b'O' ∷ b'S' ∷ b'T' ∷ b'R' ∷ b'O' ∷ b'U' ∷ b'T' ∷ b'I' ∷ b'N' ∷ b'G' ∷ []

abbrev accept_word : Text
accept_word = b'A' ∷ b'C' ∷ b'C' ∷ b'E' ∷ b'P' ∷ b'T' ∷ []

abbrev masquerade_word : Text
masquerade_word = b'M' ∷ b'A' ∷ b'S' ∷ b'Q' ∷ b'U' ∷ b'E' ∷ b'R' ∷ b'A' ∷ b'D' ∷ b'E' ∷ []

abbrev ip_forward_key : Text
ip_forward_key =
    b'n' ∷ b'e' ∷ b't' ∷ b'.' ∷ b'i' ∷ b'p' ∷ b'v' ∷ b'4' ∷ b'.' ∷ b'i' ∷ b'p' ∷ b'_' ∷ b'f' ∷ b'o'
    ∷ b'r' ∷ b'w' ∷ b'a' ∷ b'r' ∷ b'd' ∷ b'=' ∷ []

abbrev dash : ℕ → Text
dash letter = b'-' ∷ letter ∷ []

-- The rule of `MASQUERADE`, and those of `ACCEPT` for one direction.
abbrev pub masquerade : Text → Text → IptablesRule
masquerade subnet tun_name = record {
  table = some nat_word;
  chain = postrouting_word;
  spec = dash b's' ∷ subnet ∷ (b'!' ∷ []) ∷ dash b'o' ∷ tun_name ∷ dash b'j' ∷ masquerade_word ∷ [];
}

abbrev pub accept_by : ℕ → Text → IptablesRule
accept_by direction tun_name = record {
  table = none;
  chain = forward_word;
  spec = dash direction ∷ tun_name ∷ dash b'j' ∷ accept_word ∷ [];
}

-- The arguments that `run_iptables` collects.
abbrev pub arguments : Text → IptablesRule → List Text
arguments action rule = elim rule.table [
  | none ↦ action ∷ rule.chain ∷ rule.spec
  | some table ↦ dash b't' ∷ table ∷ action ∷ rule.chain ∷ rule.spec
]

abbrev pub setting : Text → List Text
setting value = dash b'w' ∷ (ip_forward_key ++ value) ∷ []

pub record Managed (World : Type 0) : Type 0 where
  pub manager : FirewallManager
  pub world : World

abbrev pub Answer : Type 0 → Type 0
Answer World = Result FirewallError (Unit {0}) × Managed World

-- `?` between two calls.
unfoldable pub and_next :
    {World : Type 0} → Answer World → (Managed World → Answer World) → Answer World
and_next (ok done, state) next = next state
and_next (err e, state) next = (err e, state)

-- The status of a command.
unfoldable pub checked :
    {World : Type 0} → FirewallError → Option Bool × World → Result FirewallError (Unit {0}) × World
checked error (none, world) = (err not_run, world)
checked error (some success, world) = if success then (ok tt, world) else (err error, world)

-- `as_deref() == Some("1")`
unfoldable pub is_enabled : Option Text → Bool
is_enabled none = false
is_enabled (some value) = ite (text_eq value (b'1' ∷ [])) true false

module _ {World : Type 0} (commands : Commands World) where
  unfoldable pub read_ip_forward : World → Option Text
  unfolding trim
  read_ip_forward world = elim (commands.ip_forward_file world) [
    | none ↦ none
    | some value ↦ some (trim value)
  ]

  unfoldable pub write_ip_forward : Text → World → Result FirewallError (Unit {0}) × World
  unfolding checked
  write_ip_forward value world = checked sysctl_failed (commands.sysctl (setting value) world)

  unfoldable pub enable_ip_forward : Managed World → Answer World
  unfolding read_ip_forward write_ip_forward is_enabled
  enable_ip_forward state =
      let original = read_ip_forward state.world in
      let manager = record state.manager { original_ip_forward = original } in
      if is_enabled original
      then (ok tt, record { manager = manager; world = state.world })
      else let (result, world) = write_ip_forward (b'1' ∷ []) state.world in
        (result, record { manager = manager; world = world })

  -- What follows the command of `add_iptables_rule`.
  unfoldable pub push_rule :
      FirewallManager → IptablesRule → Result FirewallError (Unit {0}) × World → Answer World
  push_rule manager rule (ok done, world) = (
    ok tt,
    record { manager = record manager { rules = manager.rules ++ rule ∷ [] }; world = world },
  )
  push_rule manager rule (err e, world) = (err e, record { manager = manager; world = world })

  unfoldable pub add_iptables_rule : IptablesRule → Managed World → Answer World
  unfolding push_rule checked
  add_iptables_rule rule state =
      push_rule state.manager rule
        (checked iptables_failed (commands.iptables (arguments append_flag rule) state.world))

  unfoldable pub del_iptables_rule : IptablesRule → World → Result FirewallError (Unit {0}) × World
  unfolding checked
  del_iptables_rule rule world =
      checked iptables_failed (commands.iptables (arguments delete_flag rule) world)

  unfoldable pub setup : Managed World → Answer World
  unfolding enable_ip_forward add_iptables_rule and_next
  setup state =
      let tun_name = state.manager.tun_name in
      and_next (enable_ip_forward state) (λ s1.
        and_next (add_iptables_rule (masquerade state.manager.subnet tun_name) s1) (λ s2.
          and_next (add_iptables_rule (accept_by b'i' tun_name) s2)
            (add_iptables_rule (accept_by b'o' tun_name))))

  -- The loop of `cleanup` over the rules, whose errors are only logged.
  unfoldable pub delete_rules : List IptablesRule → World → World
  unfolding del_iptables_rule
  delete_rules [] world = world
  delete_rules (rule ∷ rules) world = delete_rules rules (del_iptables_rule rule world).1

  unfoldable pub cleanup : Managed World → World
  unfolding delete_rules write_ip_forward
  cleanup state =
      let world = delete_rules state.manager.rules state.world in
      elim state.manager.original_ip_forward [
        | none ↦ world
        | some original ↦ (write_ip_forward original world).1
      ]
