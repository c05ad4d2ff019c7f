-- ===== src/Config/Validate/Sound.antt =====
-- What a configuration that passes `validate` (src/config.rs) satisfies.
use hushwire.Common.{
  ℕ, ◌<◌, Bool, true, false, not, ltb, List, [], ◌∷◌, Option, none, some, ◌≡◌, ◌≢◌, refl, sym,
  subst, ◌∙◌, inl, inr, arith, All, Option-cases, Result, ok, err, Bytes, is_some, ite,
  if◌then◌else◌,
}
use hushwire.Common.Maps.{Text, text_eq, Map, get, insert}
use hushwire.Common.Maps.Laws.{get-insert}
use hushwire.Externals.{Ipnet, Keys}
use hushwire.Config.{TransportConfig, udp, tcp, PeerConfig, decode_key}
use hushwire.Config.Characters.{trim, is_empty}
use hushwire.Config.Validate.{
  and_then, is_udp, no_entries, refuse, or_err, check_rebind, check_timeout, Seen, nothing_seen,
  insert_new, covered, has_net, check_exclusions, check_peer, check_peers, decode_psk,
}

pub and_then_ok :
    {E A B : Type 0} (m : Result E A) (f : A → Result E B) (b : B)
    → and_then m f ≡ ok b
    → (a : A) × (m ≡ ok a) × (f a ≡ ok b)
unfolding and_then
and_then_ok (ok a) f b e = (a, refl, e)
and_then_ok (err x) f b e = ground arith

pub refuse_ok : {E : Type 0} (b : Bool) (x : E) {u : Unit {0}} → refuse b x ≡ ok u → b ≡ false
unfolding refuse
refuse_ok true x e = ground arith
refuse_ok false x e = refl

pub or_err_ok : {E A : Type 0} (o : Option A) (x : E) {a : A} → or_err x o ≡ ok a → o ≡ some a
or_err_ok (some a) x e = ground arith
or_err_ok none x e = ground arith

insert_new_ok :
    {E : Type 0} (key : Bytes) (name : Text) (e : Text → E) (seen : Map Text) {seen' : Map Text}
    → insert_new key name e seen ≡ ok seen'
    → (get key seen ≡ none) × (seen' ≡ insert key name seen)
unfolding insert_new
insert_new_ok key name e seen h = elim (Option-cases (get key seen)) [
  | inl found ↦ (found, ground arith)
  | inr (v, found) ↦ ground arith
]

-- The checks on the times of a peer.
pub record IsTimed {Net : Type 0} (transport : TransportConfig) (peer : PeerConfig Net)
    : Type 0 where
  pub rebind :
      0 < peer.udp_rebind_after
      → (transport ≡ udp)
        × (0 < peer.persistent_keepalive)
        × (peer.persistent_keepalive < peer.udp_rebind_after)
  pub timeout :
      (t : ℕ)
      → peer.session_timeout ≡ some t
      → 0 < t
      → (0 < peer.persistent_keepalive) × (peer.persistent_keepalive < t)

udp_only : (transport : TransportConfig) → not (is_udp transport) ≡ false → transport ≡ udp
udp_only udp e = refl
udp_only tcp e = ground arith

when_ok :
    {E A : Type 0} (b : Bool) (m n : Result E A) {a : A}
    → (if b then m else n) ≡ ok a
    → b ≡ true
    → m ≡ ok a
when_ok true m n h e = h
when_ok false m n h e = ground arith

rebind_ok :
    {Net : Type 0} (transport : TransportConfig) (peer : PeerConfig Net) {u : Unit {0}}
    → check_rebind transport peer ≡ ok u
    → 0 < peer.udp_rebind_after
    → (transport ≡ udp)
      × (0 < peer.persistent_keepalive)
      × (peer.persistent_keepalive < peer.udp_rebind_after)
unfolding check_rebind
rebind_ok transport peer h pos =
    let (u1, h1, k1) =
      and_then_ok _ _ _ (when_ok (ltb 0 peer.udp_rebind_after) _ _ h (ground arith)) in
    let (u2, h2, k2) = and_then_ok _ _ _ h1 in
    (
      udp_only transport (refuse_ok _ _ h2),
      ground (arith, refuse_ok _ _ k2),
      ground (arith, refuse_ok _ _ k1),
    )

timeout_ok :
    {Net : Type 0} (peer : PeerConfig Net) (timeout : Option ℕ) {u : Unit {0}}
    → check_timeout peer timeout ≡ ok u
    → (t : ℕ) → timeout ≡ some t
    → 0 < t
    → (0 < peer.persistent_keepalive) × (peer.persistent_keepalive < t)
unfolding check_timeout
timeout_ok peer none h t e pos = ground arith
timeout_ok peer (some timeout) h t e pos =
    let same : timeout ≡ t = ground arith in
    let (u1, h1, k1) = and_then_ok _ _ _ (when_ok (ltb 0 timeout) _ _ h (ground arith)) in
    (ground (arith, refuse_ok _ _ h1), ground (arith, refuse_ok _ _ k1))

-- No exclusion stands twice.
abbrev pub Different {ℓ} : {A : Type ℓ} → List A → Type ℓ
Different [] = Unit
Different (x ∷ xs) = All (λ y. y ≢ x) xs × Different xs

pub ok_same : {E A : Type 0} (a b : A) → ◌≡◌ {A = Result E A} (ok a) (ok b) → a ≡ b
ok_same a b h = ground arith

not_some : {A : Type 0} (o : Option A) → is_some o ≡ false → o ≡ none
not_some none h = refl
not_some (some a) h = ground arith

nonempty : {A : Type 0} (xs : List A) → no_entries xs ≡ false → xs ≢ []
nonempty [] h e = ground arith
nonempty (x ∷ xs) h e = ground arith

absent_insert :
    {V : Type 0} (k j : Text) (v : V) (m : Map V)
    → get j (insert k v m) ≡ none
    → (k ≢ j) × (get j m ≡ none)
absent_insert k j v m h =
    let same = get-insert k j v m in
    elim (text_eq k j) as (λ d. ite d (some v) (get j m) ≡ none → (k ≢ j) × (get j m ≡ none)) [
      | yes e ↦ λ x. ground arith
      | no n ↦ λ x. (n, x)
    ]
      (sym same ∙ h)

module _ (net : Ipnet) where
  open net use {Net, net_eq, prefix_len, network, contains}

  -- An exclusion that is not the default route, inside an allowed prefix.
  pub record IsExcludable (allowed : List Net) (prefix : Net) : Type 0 where
    pub positive : 0 < prefix_len prefix
    pub inside : covered net allowed prefix ≡ true

  unseen_tail :
      (prefix : Net) (seen rest : List Net)
      → All (λ p. has_net net p (prefix ∷ seen) ≡ false) rest
      → All (λ p. p ≢ prefix) rest × All (λ p. has_net net p seen ≡ false) rest
  unseen_tail prefix seen [] h = (tt, tt)
  unseen_tail prefix seen (p ∷ rest) h =
      let (others, unseen) = unseen_tail prefix seen rest h.1 in
      elim (net_eq prefix p)
          as (λ d.
            ite d true (has_net net p seen) ≡ false
            → All (λ p. p ≢ prefix) (p ∷ rest) × All (λ p. has_net net p seen ≡ false) (p ∷ rest)) [
              | yes e ↦ λ k. ground arith
              | no n ↦ λ k. (((λ e. n (sym e)), others), (k, unseen))
            ]
        h.0

  exclusions_ok :
      (peer : PeerConfig Net) (prefixes seen : List Net) {u : Unit {0}}
      → check_exclusions net peer prefixes seen ≡ ok u
      → All (IsExcludable peer.allowed_ips) prefixes
        × Different prefixes
        × All (λ prefix. has_net net prefix seen ≡ false) prefixes
  unfolding check_exclusions
  exclusions_ok peer [] seen h = (tt, tt, tt)
  exclusions_ok peer (prefix ∷ rest) seen h =
      let (u1, h1, k1) = and_then_ok _ _ _ h in
      let (u2, h2, k2) = and_then_ok _ _ _ k1 in
      let (u3, h3, k3) = and_then_ok _ _ _ k2 in
      let (valid, different, unseen) = exclusions_ok peer rest (prefix ∷ seen) k3 in
      let inside : covered net peer.allowed_ips prefix ≡ true = ground (arith, refuse_ok _ _ h3) in
      let positive : 0 < prefix_len prefix = ground (arith, refuse_ok _ _ h1) in
      let (others, unseen') = unseen_tail prefix seen rest unseen in
      (
        (record { positive = positive; inside = inside }, valid),
        (others, different),
        (refuse_ok _ _ h2, unseen'),
      )

  -- What one configured peer satisfies by itself.
  pub record IsValidPeer (keys : Keys) (transport : TransportConfig) (peer : PeerConfig Net)
      : Type 0 where
    pub named : is_empty (trim peer.name) ≡ false
    pub allowed : peer.allowed_ips ≢ []
    pub excludable : All (IsExcludable peer.allowed_ips) peer.excluded_ips
    pub once : Different peer.excluded_ips
    pub shared_key : (psk : Bytes) × (decode_psk keys peer.psk ≡ some psk)
    pub identity : (public_key : Bytes) × (decode_key keys peer.public_key ≡ some public_key)
    pub timed : IsTimed transport peer

  -- A text that decodes to a key that is not in the map.
  abbrev Unused : Keys → Text → Map Text → Type 0
  Unused keys text seen = (key : Bytes) × (decode_key keys text ≡ some key) × (get key seen ≡ none)

  record IsFresh (keys : Keys) (seen : Seen) (peer : PeerConfig Net) : Type 0 where
    name : get peer.name seen.names ≡ none
    psk : Unused keys peer.psk seen.psks
    public_key : Unused keys peer.public_key seen.public_keys

  -- `seen` with the peer's name and keys.
  abbrev collect : PeerConfig Net → Bytes → Bytes → Seen → Seen
  collect peer psk public_key seen = record {
    names = insert peer.name tt seen.names;
    psks = insert psk peer.name seen.psks;
    public_keys = insert public_key peer.name seen.public_keys;
  }

  record Passes (keys : Keys) (transport : TransportConfig) (peer : PeerConfig Net)
      (seen seen' : Seen) : Type 0 where
    valid : IsValidPeer keys transport peer
    fresh : IsFresh keys seen peer
    collected : collect peer fresh.psk.0 fresh.public_key.0 seen ≡ seen'

  peer_ok :
      (keys : Keys) (transport : TransportConfig) (peer : PeerConfig Net) (seen : Seen)
      {seen' : Seen}
      → check_peer net keys transport peer seen ≡ ok seen'
      → Passes keys transport peer seen seen'
  unfolding check_peer decode_psk
  peer_ok keys transport peer seen h =
      let (u1, named, h1) = and_then_ok _ _ _ h in
      let (u2, new_name, h2) = and_then_ok _ _ _ h1 in
      let (u3, allowed, h3) = and_then_ok _ _ _ h2 in
      let (u4, exclusions, h4) = and_then_ok _ _ _ h3 in
      let (psk, psk_decodes, h5) = and_then_ok _ _ _ h4 in
      let (psks, psk_new, h6) = and_then_ok _ _ _ h5 in
      let (public_key, public_key_decodes, h7) = and_then_ok _ _ _ h6 in
      let (public_keys, public_key_new, h8) = and_then_ok _ _ _ h7 in
      let (u5, rebind, h9) = and_then_ok _ _ _ h8 in
      let (u6, timeout, h10) = and_then_ok _ _ _ h9 in
      let (excludable, once, unseen) = exclusions_ok peer peer.excluded_ips [] exclusions in
      let (psk_unused, psks_same) = insert_new_ok _ _ _ _ psk_new in
      let (public_key_unused, public_keys_same) = insert_new_ok _ _ _ _ public_key_new in
      record {
        valid = record {
          named = refuse_ok _ _ named;
          allowed = nonempty _ (refuse_ok _ _ allowed);
          excludable = excludable;
          once = once;
          shared_key = (psk, or_err_ok _ _ psk_decodes);
          identity = (public_key, or_err_ok _ _ public_key_decodes);
          timed = record {
            rebind = rebind_ok transport peer rebind;
            timeout = timeout_ok peer peer.session_timeout timeout;
          };
        };
        fresh = record {
          name = not_some _ (refuse_ok _ _ new_name);
          psk = (psk, or_err_ok _ _ psk_decodes, psk_unused);
          public_key = (public_key, or_err_ok _ _ public_key_decodes, public_key_unused);
        };
        collected = rw (← psks_same, ← public_keys_same) (ok_same _ _ h10);
      }

  -- Two peers that share no name, pre-shared key or public key.
  pub record DoNotShare (keys : Keys) (p q : PeerConfig Net) : Type 0 where
    pub name : q.name ≢ p.name
    pub psk : decode_psk keys q.psk ≢ decode_psk keys p.psk
    pub public_key : decode_key keys q.public_key ≢ decode_key keys p.public_key

  -- Each peer is valid, and shares nothing with the peers behind it.
  abbrev pub ArePeers : Keys → TransportConfig → List (PeerConfig Net) → Type 0
  ArePeers keys transport [] = Unit
  ArePeers keys transport (peer ∷ peers) =
      IsValidPeer keys transport peer
      × All (DoNotShare keys peer) peers
      × ArePeers keys transport peers

  other_key :
      (keys : Keys) (p q : Text) (seen : Map Text) (name : Text) (key : Bytes)
      → decode_key keys p ≡ some key
      → Unused keys q (insert key name seen)
      → (decode_key keys q ≢ decode_key keys p) × Unused keys q seen
  other_key keys p q seen name key e (k, d, unused) =
      let (other, still) = absent_insert key k name seen unused in
      ((λ same. ground (arith, other)), (k, d, still))

  fresh_tail :
      (keys : Keys) (peer : PeerConfig Net) (seen : Seen) (fresh : IsFresh keys seen peer)
      (peers : List (PeerConfig Net))
      → All (IsFresh keys (collect peer fresh.psk.0 fresh.public_key.0 seen)) peers
      → All (DoNotShare keys peer) peers × All (IsFresh keys seen) peers
  unfolding decode_psk
  fresh_tail keys peer seen fresh [] h = (tt, tt)
  fresh_tail keys peer seen fresh (q ∷ peers) h =
      let (others, still) = fresh_tail keys peer seen fresh peers h.1 in
      let fq : IsFresh keys (collect peer fresh.psk.0 fresh.public_key.0 seen) q = h.0 in
      let (name, n) = absent_insert peer.name q.name tt seen.names fq.name in
      let (psk, s) = other_key keys peer.psk q.psk seen.psks _ _ fresh.psk.1 fq.psk in
      let (public_key, k) =
        other_key keys peer.public_key q.public_key seen.public_keys _ _ fresh.public_key.1
          fq.public_key in
      (
        (record { name = λ e. name (sym e); psk = psk; public_key = public_key }, others),
        (record { name = n; psk = s; public_key = k }, still),
      )

  peers_ok :
      (keys : Keys) (transport : TransportConfig) (peers : List (PeerConfig Net)) (seen : Seen)
      {u : Unit {0}}
      → check_peers net keys transport peers seen ≡ ok u
      → ArePeers keys transport peers × All (IsFresh keys seen) peers
  unfolding check_peers
  peers_ok keys transport [] seen h = (tt, tt)
  peers_ok keys transport (peer ∷ peers) seen h =
      let (seen', passed, rest) = and_then_ok _ _ _ h in
      let p : Passes keys transport peer seen seen' = peer_ok keys transport peer seen passed in
      let (valid, fresh) = peers_ok keys transport peers seen' rest in
      let (others, still) =
        fresh_tail keys peer seen p.fresh peers
          (subst (λ s. All (IsFresh keys s) peers) (sym p.collected) fresh) in
      ((p.valid, others, valid), (p.fresh, still))

  pub peers_ArePeers :
      (keys : Keys) (transport : TransportConfig) (peers : List (PeerConfig Net)) {u : Unit {0}}
      → check_peers net keys transport peers nothing_seen ≡ ok u
      → ArePeers keys transport peers
  peers_ArePeers keys transport peers h = (peers_ok keys transport peers nothing_seen h).0
