-- ===== src/Tests/Rules.antt =====
-- A host that counts its rules.
use hushwire.Common.{
  ℕ, ◌+◌, ◌-◌, ◌<◌, ◌==◌, Bool, true, false, List, [], ◌∷◌, ◌++◌, Option, none, some, ◌≡◌, refl,
  sym, ap, subst, inl, inr, arith, if◌then◌else◌, ite, if_pos, drop, Bool-cases, bytes_eq,
  ℕ_discrete,
}
use hushwire.Common.Maps.{Text, text_eq}
use hushwire.Config.Characters.{is_whitespace, trim_start, trim_end, trim}
use hushwire.Firewall
use hushwire.Firewall.{
  Commands, IptablesRule, append_flag, delete_flag, arguments, setting, setup, cleanup,
}
use hushwire.Firewall.Restore.{Succeeds, FirewallLaws, cleanup-setup}

unfoldable rule_eq : Discrete IptablesRule
unfolding ℕ_discrete
rule_eq = hlevel ℕ_discrete

abbrev same : IptablesRule → IptablesRule → ℕ
same rule r = ite (rule_eq rule r) 1 0

-- How often each rule is there, and whether the host forwards.
abbrev Host : Type 0
Host = (IptablesRule → ℕ) × Bool

abbrev is_text : Text → Text → Bool
is_text a b = ite (text_eq a b) true false

abbrev parse_action : Option Text → List Text → Option (Bool × IptablesRule)
parse_action table [] = none
parse_action table (action ∷ []) = none
parse_action table (action ∷ chain ∷ spec) =
    some (is_text action append_flag, record { table = table; chain = chain; spec = spec })

abbrev parse_rule : List Text → Option (Bool × IptablesRule)
parse_rule [] = none
parse_rule (word ∷ []) = none
parse_rule (word ∷ next ∷ words) =
    if is_text word (b'-' ∷ b't' ∷ [])
    then parse_action (some next) words
    else parse_action none (word ∷ next ∷ words)

parsed_append :
    (table : Option Text) (chain : Text) (spec : List Text)
    → parse_rule (arguments append_flag (record { table = table; chain = chain; spec = spec }))
      ≡ some (true, record { table = table; chain = chain; spec = spec })
unfolding bytes_eq ℕ_discrete
parsed_append none chain spec = refl
parsed_append (some table) chain spec = refl

parsed_delete :
    (table : Option Text) (chain : Text) (spec : List Text)
    → parse_rule (arguments delete_flag (record { table = table; chain = chain; spec = spec }))
      ≡ some (false, record { table = table; chain = chain; spec = spec })
unfolding bytes_eq ℕ_discrete
parsed_delete none chain spec = refl
parsed_delete (some table) chain spec = refl

unfoldable change : Option (Bool × IptablesRule) → Host → Option Bool × Host
change none host = (none, host)
change (some (true, rule)) (rules, on) = (some true, ((λ r. same rule r + rules r), on))
change (some (false, rule)) (rules, on) =
    if rules rule == 0
    then (some false, (rules, on))
    else (some true, ((λ r. rules r - same rule r), on))

refused :
    (action : Option (Bool × IptablesRule)) (host : Host) (r : IptablesRule)
    → (Succeeds (change action host).0 → ⊥)
    → (change action host).1.0 r ≡ host.0 r
unfolding change
refused none host r h = refl
refused (some (true, rule)) host r h = absurd (h refl)
refused (some (false, rule)) (rules, on) r h = elim (Bool-cases (rules rule == 0)) [
  | inl e ↦ rw (e, change) refl
  | inr e ↦ absurd (h (rw (e, change) refl))
]

keeps_forwarding :
    (action : Option (Bool × IptablesRule)) (host : Host) → (change action host).1.1 ≡ host.1
unfolding change
keeps_forwarding none host = refl
keeps_forwarding (some (true, rule)) host = refl
keeps_forwarding (some (false, rule)) (rules, on) = elim (Bool-cases (rules rule == 0)) [
  | inl e ↦ rw (e, change) refl
  | inr e ↦ rw (e, change) refl
]

deleted :
    (rule : IptablesRule) (host : Host) (r : IptablesRule)
    → 0 < host.0 rule
    → same rule r + (change (some (false, rule)) host).1.0 r ≡ host.0 r
unfolding change
deleted rule (rules, on) r h = elim (Bool-cases (rules rule == 0)) [
  | inl e ↦ absurd (ground arith)
  | inr e ↦
      rw (e, change)
        (elim (rule_eq rule r) as (λ d. ite d 1 0 + (rules r - ite d 1 0) ≡ rules r) [
          | yes p ↦
              let some_left : 0 < rules r = subst (λ x. 0 < rules x) p h in omega (arith, some_left)
          | no n ↦ omega arith
        ])
]

abbrev digit : Bool → Text
digit true = b'1' ∷ []
digit false = b'0' ∷ []

-- The value of `net.ipv4.ip_forward=`.
abbrev value_of : List Text → Text
value_of (flag ∷ word ∷ []) = drop 20 word
value_of _ = []

unfoldable set : Text → Host → Option Bool × Host
set value (rules, on) =
    if is_text value (digit true)
    then (some true, (rules, true))
    else if is_text value (digit false)
    then (some true, (rules, false))
    else (some false, (rules, on))

set_keeps : (value : Text) (host : Host) (r : IptablesRule) → (set value host).1.0 r ≡ host.0 r
unfolding set
set_keeps value (rules, on) r = elim (Bool-cases (is_text value (digit true))) [
  | inl e ↦ rw (e, set) refl
  | inr e ↦ elim (Bool-cases (is_text value (digit false))) [
    | inl f ↦ rw (e, f, set) refl
    | inr f ↦ rw (e, f, set) refl
  ]
]

is_text_same : (a b : Text) → is_text a b ≡ true → b ≡ a
is_text_same a b = elim (text_eq a b) as (λ d. ite d true false ≡ true → b ≡ a) [
  | yes e ↦ λ h. sym e
  | no n ↦ λ h. ground arith
]

set_sets :
    (value : Text) (host : Host) → Succeeds (set value host).0 → digit (set value host).1.1 ≡ value
unfolding set
set_sets value (rules, on) h = elim (Bool-cases (is_text value (digit true))) [
  | inl e ↦ rw (e, set) (is_text_same value (digit true) e)
  | inr e ↦ elim (Bool-cases (is_text value (digit false))) [
    | inl f ↦ rw (e, f, set) (is_text_same value (digit false) f)
    | inr f ↦
        let failed : (set value (rules, on)).0 ≡ some false = rw (e, f, set) refl in
        let wrong : false ≡ true = subst Succeeds failed h in ground arith
  ]
]

abbrev sample_commands : Commands Host
sample_commands = record {
  iptables = λ words host. change (parse_rule words) host;
  sysctl = λ words host. set (value_of words) host;
  ip_forward_file = λ host. some (digit host.1 ++ 10 ∷ []);
}

some_same : {a b : Text} → some a ≡ some b → a ≡ b
some_same e = ground arith

trim-digit : (on : Bool) → trim (digit on ++ 10 ∷ []) ≡ digit on
unfolding trim trim_start trim_end is_whitespace
trim-digit true = refl
trim-digit false = refl

unfoldable sample_firewall_laws : FirewallLaws sample_commands
unfolding rule_eq change
sample_firewall_laws = record {
  count = λ host. host.0;
  forward = λ host. digit host.1;
  same = same;
  same_itself = λ rule. if_pos (rule_eq rule rule) refl 1 0;
  appends = λ rule r host s. rw (parsed_append rule.table rule.chain rule.spec) refl;
  refuses = λ words r host h. refused (parse_rule words) host r h;
  deletes =
      λ rule r host h. rw (parsed_delete rule.table rule.chain rule.spec) (deleted rule host r h);
  iptables_keeps = λ words host. ap digit (keeps_forwarding (parse_rule words) host);
  sysctl_keeps = λ words r host. set_keeps (value_of words) host r;
  sets = λ value host s. set_sets value host s;
  reads = λ host value e.
      let same_text : digit host.1 ++ 10 ∷ [] ≡ value = some_same e in
      subst (λ v. trim v ≡ digit host.1) same_text (trim-digit host.1);
}

abbrev empty_host : Host
empty_host = ((λ r. 0), false)

abbrev ready : Firewall.Managed Host
ready = record { manager = Firewall.new (b't' ∷ []) (b's' ∷ []); world = empty_host }

writable :
    (host : Host) → Succeeds (sample_commands.sysctl (setting (trim (b'0' ∷ 10 ∷ []))) host).0
unfolding set trim trim_start trim_end is_whitespace bytes_eq ℕ_discrete
writable host = refl

cleanup-setup_example :
    ((r : IptablesRule) → (cleanup sample_commands (setup sample_commands ready).1).0 r ≡ 0)
    × (digit (cleanup sample_commands (setup sample_commands ready).1).1 ≡ digit false)
unfolding sample_firewall_laws
cleanup-setup_example =
    cleanup-setup sample_commands sample_firewall_laws (b't' ∷ []) (b's' ∷ []) empty_host
      (b'0' ∷ 10 ∷ []) writable refl
