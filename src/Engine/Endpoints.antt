-- ===== src/Engine/Endpoints.antt =====
-- The endpoint of a peer: learned from its packets, or set by a new resolution of its host name.
use hushwire.Common.{
  ℕ, true, false, List, [], ◌∷◌, none, some, ◌≡◌, ◌⊎◌, inl, inr, refl, arith, ok, Bool-cases,
  Option-cases,
}
use hushwire.Common.Maps.{Text, get, insert}
use hushwire.Common.Maps.Laws.{get-insert, get-remove}
use hushwire.Config.{SocketAddr}
use hushwire.Router.{Route, Peer}
use hushwire.Peers
use hushwire.Peers.{clear_endpoint, record_rx, record_keepalive, update_endpoint}
use hushwire.Sessions
use hushwire.Sessions.{has_active_session, has_pending_init}
use hushwire.Engine.{
  Engine, usable_peer_endpoint, find_peer, peer, configured_endpoint, learned_endpoint,
  resolve_endpoint, update_resolved_endpoint,
}

find_peer-name :
    {Net : Type 0} (name : Text) (routes : List (Route Net)) (p : Peer Net)
    → find_peer name routes ≡ some p
    → p.name ≡ name
unfolding find_peer
find_peer-name name [] p h = absurd (ground arith)
find_peer-name name (route ∷ routes) p h = ground (arith, find_peer-name name routes p)

get-clear_endpoint :
    (m : Peers.PeerState) (name : Text)
    → (get name (clear_endpoint m name) ≡ none)
      ⊎ ((stats : Peers.PeerStats) × (get name (clear_endpoint m name) ≡ some stats)
          × (stats.current_endpoint ≡ none))
unfolding clear_endpoint
get-clear_endpoint m name = elim (Option-cases (get name m)) [
  | inl e ↦ inl (rw (e, clear_endpoint) e)
  | inr (stats, e) ↦ inr (
    record stats { current_endpoint = none },
    rw (e, clear_endpoint)
        (ground (arith, get-insert name name (record stats { current_endpoint = none }) m)),
    refl,
  )
]

module _ {Net T H : Type 0} where
  -- What an update that succeeds and changes something leaves.
  unfoldable updated : Engine Net T H → Text → SocketAddr → Engine Net T H
  updated engine name endpoint = record engine {
    resolved_endpoints = insert name endpoint engine.resolved_endpoints;
    peers = clear_endpoint engine.peers name;
    sessions = (Sessions.invalidate_peer engine.sessions name).0;
  }

  update-updated :
      (engine engine' : Engine Net T H) (name : Text) (endpoint : SocketAddr)
      → update_resolved_endpoint engine name endpoint ≡ (engine', ok true)
      → (p : Peer Net) × (peer engine name ≡ some p)
        × (usable_peer_endpoint endpoint ≡ true)
        × (engine' ≡ updated engine name endpoint)
  unfolding update_resolved_endpoint updated
  update-updated engine engine' name endpoint h =
      elim (Bool-cases (usable_peer_endpoint endpoint)) [
        | inr e ↦ absurd (ground arith)
        | inl e ↦ elim (Option-cases (peer engine name)) [
          | inl f ↦ absurd (ground arith)
          | inr (p, f) ↦ (p, f, e, ground arith)
        ]
      ]

  learned-updated :
      (engine : Engine Net T H) (name : Text) (endpoint : SocketAddr) (p : Peer Net)
      → p.name ≡ name
      → learned_endpoint (updated engine name endpoint) p ≡ none
  unfolding learned_endpoint updated
  learned-updated engine name endpoint p n = elim (get-clear_endpoint engine.peers name) [
    | inl e ↦ rw (n, e, learned_endpoint) refl
    | inr (stats, e, f) ↦ rw (n, e, learned_endpoint) f
  ]

  configured-updated :
      (engine : Engine Net T H) (name : Text) (endpoint : SocketAddr) (p : Peer Net)
      → p.name ≡ name
      → configured_endpoint (updated engine name endpoint) p ≡ endpoint
  unfolding configured_endpoint updated
  configured-updated engine name endpoint p n =
      let e : get name (insert name endpoint engine.resolved_endpoints) ≡ some endpoint =
        ground (arith, get-insert name name endpoint engine.resolved_endpoints) in
      rw (n, e, configured_endpoint) refl

  -- After an update of the endpoint of a peer that reports a change, packets to the peer go to the
  -- new endpoint whatever was learned before, and no active session and no pending handshake of it
  -- is left.
  pub update_resolved_endpoint-resolve_endpoint :
      (engine engine' : Engine Net T H) (name : Text) (endpoint : SocketAddr) (p : Peer Net)
      (clock : ℕ)
      → update_resolved_endpoint engine name endpoint ≡ (engine', ok true)
      → peer engine name ≡ some p
      → (resolve_endpoint engine' p ≡ some endpoint)
        × (has_active_session engine'.sessions name clock ≡ false)
        × (has_pending_init engine'.sessions name ≡ false)
  unfolding resolve_endpoint peer has_active_session has_pending_init updated
      Sessions.invalidate_peer
  update_resolved_endpoint-resolve_endpoint engine engine' name endpoint p clock h found =
      let (q, f, u, same) = update-updated engine engine' name endpoint h in
      let n : p.name ≡ name = find_peer-name name engine.router.routes p found in
      rw same (
        rw
            (
              learned-updated engine name endpoint p n,
              resolve_endpoint,
              configured-updated engine name endpoint p n,
            )
            (ground arith),
        ground (arith, get-remove name name engine.sessions.sessions),
        ground (arith, get-remove name name engine.sessions.pending_init),
      )

  -- An update of an endpoint that reported a change, made again, reports no change and makes none.
  pub update_resolved_endpoint-again :
      (engine engine' : Engine Net T H) (name : Text) (endpoint : SocketAddr)
      → update_resolved_endpoint engine name endpoint ≡ (engine', ok true)
      → update_resolved_endpoint engine' name endpoint ≡ (engine', ok false)
  unfolding update_resolved_endpoint peer updated
  update_resolved_endpoint-again engine engine' name endpoint h =
      let (q, f, u, same) = update-updated engine engine' name endpoint h in
      let n : q.name ≡ name = find_peer-name name engine.router.routes q f in
      let f' : peer (updated engine name endpoint) name ≡ some q = f in
      let e = configured-updated engine name endpoint q n in
      rw same (rw (u, update_resolved_endpoint, f') (ground arith))
