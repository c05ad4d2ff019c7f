-- ===== src/Firewall/Restore.antt =====
-- src/firewall.rs: a clean-up after a set-up, whatever came of it.
use hushwire.Common.{
  ℕ, ◌+◌, ◌<◌, Bool, true, false, List, [], ◌∷◌, ◌++◌, Option, none, some, ◌≡◌, inl, inr, refl, ap,
  ◌∙◌, arith, Result, ok, err, Bool-cases,
}
use hushwire.Common.Maps.{Text}
use hushwire.Config.Characters.{trim}
use hushwire.Firewall.{
  Commands, FirewallError, iptables_failed, sysctl_failed, IptablesRule, FirewallManager, new,
  append_flag, delete_flag, masquerade, accept_by, arguments, setting, Managed, Answer, and_next,
  checked, is_enabled, read_ip_forward, write_ip_forward, enable_ip_forward, push_rule,
  add_iptables_rule, del_iptables_rule, setup, delete_rules, cleanup,
}

abbrev pub Succeeds : Option Bool → Type 0
Succeeds none = ⊥
Succeeds (some success) = success ≡ true

-- What the commands do with the host's rules, of which `iptables` may hold one several times, and
-- with the forwarding.
pub record FirewallLaws {World : Type 0} (commands : Commands World) : Type 0 where
  pub count : World → IptablesRule → ℕ
  pub forward : World → Text
  -- 1 for two equal rules, else 0.
  pub same : IptablesRule → IptablesRule → ℕ
  pub same_itself : (rule : IptablesRule) → same rule rule ≡ 1
  pub appends :
      (rule r : IptablesRule) (world : World)
      → Succeeds (commands.iptables (arguments append_flag rule) world).0
      → count (commands.iptables (arguments append_flag rule) world).1 r
        ≡ same rule r + count world r
  pub refuses :
      (words : List Text) (r : IptablesRule) (world : World)
      → (Succeeds (commands.iptables words world).0 → ⊥)
      → count (commands.iptables words world).1 r ≡ count world r
  pub deletes :
      (rule r : IptablesRule) (world : World)
      → 0 < count world rule
      → same rule r + count (commands.iptables (arguments delete_flag rule) world).1 r
        ≡ count world r
  pub iptables_keeps :
      (words : List Text) (world : World)
      → forward (commands.iptables words world).1 ≡ forward world
  pub sysctl_keeps :
      (words : List Text) (r : IptablesRule) (world : World)
      → count (commands.sysctl words world).1 r ≡ count world r
  pub sets :
      (value : Text) (world : World)
      → Succeeds (commands.sysctl (setting value) world).0
      → forward (commands.sysctl (setting value) world).1 ≡ value
  pub reads :
      (world : World) (value : Text)
      → commands.ip_forward_file world ≡ some value
      → trim value ≡ forward world

module _ {World : Type 0} (commands : Commands World) (laws : FirewallLaws commands) where
  open laws use {count, forward, same}

  -- How often the rule stands among the pushed ones.
  abbrev pushed : List IptablesRule → IptablesRule → ℕ
  pushed [] r = 0
  pushed (rule ∷ rules) r = same rule r + pushed rules r

  pushed-append :
      (rules : List IptablesRule) (rule r : IptablesRule)
      → pushed (rules ++ rule ∷ []) r ≡ same rule r + pushed rules r
  pushed-append [] rule r = refl
  pushed-append (x ∷ rules) rule r = omega (arith, pushed-append rules rule r)

  checked_world :
      (e : FirewallError) (answer : Option Bool × World) → (checked e answer).1 ≡ answer.1
  unfolding checked
  checked_world e (none, world) = refl
  checked_world e (some true, world) = refl
  checked_world e (some false, world) = refl

  -- The pushed rules stand on top of those that were there before.
  abbrev Counted : (IptablesRule → ℕ) → Managed World → Type 0
  Counted base state =
      (r : IptablesRule) → count state.world r ≡ pushed state.manager.rules r + base r

  Counted-push_rule :
      (base : IptablesRule → ℕ) (rule : IptablesRule) (state : Managed World)
      (answer : Option Bool × World)
      → Counted base state
      → ((r : IptablesRule)
          → Succeeds answer.0
          → count answer.1 r ≡ same rule r + count state.world r)
      → ((r : IptablesRule) → (Succeeds answer.0 → ⊥) → count answer.1 r ≡ count state.world r)
      → Counted base (push_rule commands state.manager rule (checked iptables_failed answer)).1
  unfolding push_rule checked
  Counted-push_rule base rule state (none, world) h adds refuses r =
      omega (arith, refuses r (λ x. x), h r)
  Counted-push_rule base rule state (some false, world) h adds refuses r =
      omega (arith, refuses r (λ e. ground arith), h r)
  Counted-push_rule base rule state (some true, world) h adds refuses r =
      rw (pushed-append state.manager.rules rule r) (omega (arith, adds r refl, h r))

  Counted-add_iptables_rule :
      (base : IptablesRule → ℕ) (rule : IptablesRule) (state : Managed World)
      → Counted base state
      → Counted base (add_iptables_rule commands rule state).1
  unfolding add_iptables_rule
  Counted-add_iptables_rule base rule state h =
      Counted-push_rule base rule state (commands.iptables (arguments append_flag rule) state.world)
        h (λ r s. laws.appends rule r state.world s)
        (λ r s. laws.refuses (arguments append_flag rule) r state.world s)

  delete_rules_restores :
      (base : IptablesRule → ℕ) (rules : List IptablesRule) (world : World)
      → ((r : IptablesRule) → count world r ≡ pushed rules r + base r)
      → (r : IptablesRule) → count (delete_rules commands rules world) r ≡ base r
  unfolding delete_rules del_iptables_rule
  delete_rules_restores base [] world h r = omega (arith, h r)
  delete_rules_restores base (rule ∷ rules) world h r =
      delete_rules_restores base rules (del_iptables_rule commands rule world).1
        (λ r'.
          rw (checked_world iptables_failed (commands.iptables (arguments delete_flag rule) world))
            (omega (
              arith,
              laws.deletes rule r' world (omega (arith, h rule, laws.same_itself rule)),
              h r',
            )))
        r

  delete_rules_keeps :
      (rules : List IptablesRule) (world : World)
      → forward (delete_rules commands rules world) ≡ forward world
  unfolding delete_rules del_iptables_rule
  delete_rules_keeps [] world = refl
  delete_rules_keeps (rule ∷ rules) world =
      delete_rules_keeps rules (del_iptables_rule commands rule world).1
      ∙ (ap forward
            (checked_world iptables_failed (commands.iptables (arguments delete_flag rule) world))
          ∙ laws.iptables_keeps (arguments delete_flag rule) world)

  -- The state inside a set-up that began with these counts and this content of `ip_forward`.
  record Kept (base : IptablesRule → ℕ) (original : Option Text) (state : Managed World)
      : Type 0 where
    counted : Counted base state
    saved : state.manager.original_ip_forward ≡ original

  push_rule_original :
      (manager : FirewallManager) (rule : IptablesRule)
      (answer : Result FirewallError (Unit {0}) × World)
      → (push_rule commands manager rule answer).1.manager.original_ip_forward
        ≡ manager.original_ip_forward
  unfolding push_rule
  push_rule_original manager rule (ok done, world) = refl
  push_rule_original manager rule (err e, world) = refl

  Kept-add_iptables_rule :
      (base : IptablesRule → ℕ) (original : Option Text) (rule : IptablesRule)
      (state : Managed World)
      → Kept base original state
      → Kept base original (add_iptables_rule commands rule state).1
  unfolding add_iptables_rule
  Kept-add_iptables_rule base original rule state k = record {
    counted = Counted-add_iptables_rule base rule state k.counted;
    saved = push_rule_original state.manager rule _ ∙ k.saved;
  }

  Kept-and_next :
      (base : IptablesRule → ℕ) (original : Option Text) (answer : Answer World)
      (next : Managed World → Answer World)
      → Kept base original answer.1
      → ((state : Managed World) → Kept base original state → Kept base original (next state).1)
      → Kept base original (and_next answer next).1
  unfolding and_next
  Kept-and_next base original (ok done, state) next k n = n state k
  Kept-and_next base original (err e, state) next k n = k

  unsettled :
      (value : Text) (r : IptablesRule) (world : World)
      → count (write_ip_forward commands value world).1 r ≡ count world r
  unfolding write_ip_forward
  unsettled value r world =
      rw (checked_world sysctl_failed (commands.sysctl (setting value) world))
        (laws.sysctl_keeps (setting value) r world)

  Kept-enable_ip_forward :
      (tun_name subnet : Text) (world : World)
      → Kept
          (count world)
          (read_ip_forward commands world)
          (enable_ip_forward commands (record { manager = new tun_name subnet; world = world })).1
  unfolding enable_ip_forward new
  Kept-enable_ip_forward tun_name subnet world =
      elim (Bool-cases (is_enabled (read_ip_forward commands world))) [
        | inl e ↦ rw (e, enable_ip_forward) (record { counted = λ r. omega arith; saved = refl })
        | inr e ↦
            rw (e, enable_ip_forward)
              (record { counted = λ r. omega (arith, unsettled (b'1' ∷ []) r world); saved = refl })
      ]

  Kept-setup :
      (tun_name subnet : Text) (world : World)
      → Kept
          (count world)
          (read_ip_forward commands world)
          (setup commands (record { manager = new tun_name subnet; world = world })).1
  unfolding setup new
  Kept-setup tun_name subnet world =
      let base = count world in
      let original = read_ip_forward commands world in
      let add = add_iptables_rule commands in
      let into = accept_by b'i' tun_name in
      let out = accept_by b'o' tun_name in
      let masked = masquerade subnet tun_name in
      let last : Managed World → Answer World = λ s2. and_next (add into s2) (add out) in
      Kept-and_next base original
        (enable_ip_forward commands (record { manager = new tun_name subnet; world = world }))
        (λ s1. and_next (add masked s1) last) (Kept-enable_ip_forward tun_name subnet world)
        (λ s1 k1.
          Kept-and_next base original (add masked s1) last
            (Kept-add_iptables_rule base original masked s1 k1)
            (λ s2 k2.
              Kept-and_next base original (add into s2) (add out)
                (Kept-add_iptables_rule base original into s2 k2)
                (Kept-add_iptables_rule base original out)))

  cleanup_saved :
      (state : Managed World) (value : Text)
      → state.manager.original_ip_forward ≡ some value
      → cleanup commands state
        ≡ (write_ip_forward commands value
            (delete_rules commands state.manager.rules state.world)).1
  unfolding cleanup
  cleanup_saved state value e = rw (e, cleanup) refl

  -- Whatever comes of a set-up of the firewall, at whatever step it fails, a clean-up after it
  -- gives every rule the number of times that it stood before and sets the forwarding back, if
  -- `iptables` and `sysctl` keep to the laws stated, the file of `ip_forward` can be read at the
  -- start and its value can be set.
  pub cleanup-setup :
      (tun_name subnet : Text) (world : World) (value : Text)
      → ((w : World) → Succeeds (commands.sysctl (setting (trim value)) w).0)
      → commands.ip_forward_file world ≡ some value
      → let after = (setup commands (record { manager = new tun_name subnet; world = world })).1 in
        ((r : IptablesRule) → count (cleanup commands after) r ≡ count world r)
        × (forward (cleanup commands after) ≡ forward world)
  unfolding write_ip_forward read_ip_forward
  cleanup-setup tun_name subnet world value writable readable =
      let after = (setup commands (record { manager = new tun_name subnet; world = world })).1 in
      let kept : Kept (count world) (read_ip_forward commands world) after =
        Kept-setup tun_name subnet world in
      let read : read_ip_forward commands world ≡ some (trim value) =
        rw (readable, read_ip_forward) refl in
      let deleted = delete_rules commands after.manager.rules after.world in
      let counts =
        delete_rules_restores (count world) after.manager.rules after.world kept.counted in
      let set = checked_world sysctl_failed (commands.sysctl (setting (trim value)) deleted) in
      rw (cleanup_saved after (trim value) (kept.saved ∙ read)) (
        (λ r. unsettled (trim value) r deleted ∙ counts r),
        ap forward set
            ∙ (laws.sets (trim value) deleted (writable deleted) ∙ laws.reads world value readable),
      )
