-- ===== src/Engine/Invariant.antt =====
-- The session table under any sequence of calls of an engine.
use hushwire.Common.{ℕ, ◌≡◌, inl, inr, subst, arith, ok, Bytes, Option-cases}
use hushwire.Common.Maps.{Text}
use hushwire.Externals.{Ipnet, Snow, Keys}
use hushwire.Config.{SocketAddr, decode_key}
use hushwire.Router.{Router}
use hushwire.Noise.Handshake.{Entropy}
use hushwire.Sessions
use hushwire.Sessions.{DecryptedTransport}
use hushwire.Sessions.Invariant.{IsWellFormed, new-IsWellFormed}
use hushwire.Sessions.Keep.{invalidate_peer-IsWellFormed}
use hushwire.Engine.{
  EngineOf, invalidate_peer, record_transport_sent, update_resolved_endpoint, with_router,
  process_outbound_ip, create_keepalive, initiate_handshake,
}
use hushwire.Engine.Inbound.{process_inbound_transport}
use hushwire.Engine.Keeps.{
  Keeps, process_outbound_ip-Keeps, create_keepalive-Keeps, initiate_handshake-Keeps,
  update_resolved_endpoint-Keeps, process_inbound_transport-Keeps,
}

module _ (net : Ipnet) (snow : Snow) where
  -- One call of the engine, with the instants and the randomness that it meets.
  pub data Step : EngineOf net snow → EngineOf net snow → Type 0 where
    outbound :
        (engine : EngineOf net snow) (packet : Bytes) (now : ℕ) (entropy : Text → Entropy)
        → Step engine (process_outbound_ip net snow engine packet now entropy).0
    inbound :
        (engine : EngineOf net snow) (frame : Bytes) (source : SocketAddr) (now : ℕ)
        (entropy : Text → Entropy) (clock : ℕ)
        → Step engine (process_inbound_transport net snow engine frame source now entropy clock).0
    probe :
        (engine : EngineOf net snow) (name : Text) (payload : Bytes) (now : ℕ)
        (entropy : Text → Entropy)
        → Step engine (create_keepalive net snow engine name payload now entropy).0
    initiate :
        (engine : EngineOf net snow) (name : Text) (now : ℕ) (entropy : Text → Entropy)
        → Step engine (initiate_handshake net snow engine name now entropy).0
    invalidate :
        (engine : EngineOf net snow) (name : Text) → Step engine (invalidate_peer engine name).0
    resolved :
        (engine : EngineOf net snow) (name : Text) (endpoint : SocketAddr)
        → Step engine (update_resolved_endpoint engine name endpoint).0
    sent :
        (engine : EngineOf net snow) (name : Text) (bytes : ℕ)
        → Step engine (record_transport_sent engine name bytes)

  -- What a new engine can become, by any calls in any order, at any instants, those that fail included.
  pub data Reachable (keys : Keys) (private_key : Text) (router : Router net.Net)
      : EngineOf net snow → Type 0 where
    start :
        (engine : EngineOf net snow)
        → with_router net snow keys private_key router ≡ ok engine
        → Reachable keys private_key router engine
    call :
        (engine engine' : EngineOf net snow)
        → Reachable keys private_key router engine
        → Step engine engine'
        → Reachable keys private_key router engine'

  Step-Keeps :
      {engine engine' : EngineOf net snow}
      → Step engine engine'
      → Keeps net snow engine
      → Keeps net snow engine'
  unfolding invalidate_peer record_transport_sent
  Step-Keeps (outbound engine packet now entropy) v =
      process_outbound_ip-Keeps net snow engine packet now entropy v
  Step-Keeps (inbound engine frame source now entropy clock) v =
      process_inbound_transport-Keeps net snow engine frame source now entropy clock v
  Step-Keeps (probe engine name payload now entropy) v =
      create_keepalive-Keeps net snow engine name payload now entropy v
  Step-Keeps (initiate engine name now entropy) v =
      initiate_handshake-Keeps net snow engine name now entropy v
  Step-Keeps (invalidate engine name) v = invalidate_peer-IsWellFormed engine.sessions name v
  Step-Keeps (resolved engine name endpoint) v =
      update_resolved_endpoint-Keeps net snow engine name endpoint v
  Step-Keeps (sent engine name bytes) v = v

  with_router-Keeps :
      (keys : Keys) (private_key : Text) (router : Router net.Net) (engine : EngineOf net snow)
      → with_router net snow keys private_key router ≡ ok engine
      → Keeps net snow engine
  unfolding with_router
  with_router-Keeps keys private_key router engine h =
      elim (Option-cases (decode_key keys private_key)) [
        | inl e ↦ absurd (ground arith)
        | inr (bytes, e) ↦
            let same : Sessions.new ≡ engine.sessions = ground arith in
            subst IsWellFormed same new-IsWellFormed
      ]

  -- Whatever calls are made on a new engine, in any order and at any instants, failed calls
  -- included, its session table is well formed: an identifier names one session of one peer, no
  -- peer has both a responder candidate and a pending initiation, and every candidate has its
  -- cached response.
  pub Reachable-IsWellFormed :
      {keys : Keys} {private_key : Text} {router : Router net.Net} {engine : EngineOf net snow}
      → Reachable keys private_key router engine
      → IsWellFormed engine.sessions
  Reachable-IsWellFormed (start engine h) = with_router-Keeps _ _ _ engine h
  Reachable-IsWellFormed (call engine engine' r s) = Step-Keeps s (Reachable-IsWellFormed r)
