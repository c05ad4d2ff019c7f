-- ===== src/Config/Validate/Starts.antt =====
-- The engine that starts from an accepted configuration (src/config.rs, src/router.rs and
-- src/engine.rs): the keys need no check any more.
use hushwire.Common.{
  List, [], ◌∷◌, ◌++◌, ◌≡◌, ◌≢◌, inl, inr, arith, Option-cases, Result-cases, ok, err,
}
use hushwire.Externals.{Ipnet, Keys, Snow}
use hushwire.Config.{TransportConfig, PeerConfig, Config, Dns, resolve}
use hushwire.Config.Validate.{validate, decode_psk}
use hushwire.Config.Validate.Sound.{IsValidPeer, ArePeers}
use hushwire.Config.Validate.Accepted.{IsValid, validate-IsValid}
use hushwire.Router
use hushwire.Router.{
  Peer, Route, Router, RouterError, duplicate_prefix, endpoint_resolution, invalid_key, find_prefix,
  add_routes, excluded_of, peer_from_config, add_peers,
}
use hushwire.Engine
use hushwire.Engine.{EngineError, invalid_private_key, router_error, with_router}

module _ (net : Ipnet) (keys : Keys) (dns : Dns) where
  open net use {Net}

  add_routes_keyed :
      (peer : Peer Net) (allowed : List Net) (routes : List (Route Net))
      → add_routes net peer allowed routes ≢ err invalid_key
  unfolding add_routes
  add_routes_keyed peer [] routes h = ground arith
  add_routes_keyed peer (prefix ∷ allowed) routes h =
      elim (Option-cases (find_prefix net prefix routes)) [
        | inl e ↦
            add_routes_keyed peer allowed (routes ++ record { prefix = prefix; peer = peer } ∷ [])
              (ground arith)
        | inr (existing, e) ↦ ground arith
      ]

  peer_from_config_keyed :
      (transport : TransportConfig) (config : PeerConfig Net)
      → IsValidPeer net keys transport config
      → peer_from_config net keys dns config transport ≢ err invalid_key
  unfolding peer_from_config decode_psk
  peer_from_config_keyed transport config valid h =
      let (psk, p) = valid.shared_key in
      let (public_key, k) = valid.identity in
      elim (Option-cases (resolve dns config.endpoint)) [
        | inl e ↦ ground (arith)
        | inr (endpoint, e) ↦ ground (arith)
      ]

  add_peers_keyed :
      (transport : TransportConfig) (peers : List (PeerConfig Net)) (table : Router Net)
      → ArePeers net keys transport peers
      → add_peers net keys dns peers transport table ≢ err invalid_key
  unfolding add_peers
  add_peers_keyed transport [] table valid h = ground arith
  add_peers_keyed transport (config ∷ peers) table valid h =
      elim (Result-cases (peer_from_config net keys dns config transport)) [
        | inr (e, same) ↦ peer_from_config_keyed transport config valid.0 (ground arith)
        | inl (peer, same) ↦
            elim (Result-cases (add_routes net peer config.allowed_ips table.routes)) [
              | inr (e, same') ↦
                  add_routes_keyed peer config.allowed_ips table.routes (ground arith)
              | inl (routes, same') ↦
                  add_peers_keyed transport peers
                    (record {
                      routes = routes;
                      excluded_routes =
                          table.excluded_routes ++ excluded_of net peer config.excluded_ips;
                    })
                    valid.2 (ground arith)
            ]
      ]

  -- An engine that is built from an accepted configuration never fails for a key: neither its
  -- private key nor the pre-shared or public key of a peer.
  pub validate-new :
      (snow : Snow) (config : Config Net)
      → validate net keys config ≡ ok tt
      → (Engine.new net snow keys dns config ≢ err invalid_private_key)
        × (Engine.new net snow keys dns config ≢ err (router_error invalid_key))
  unfolding Engine.new Router.new with_router
  validate-new snow config h =
      let valid : IsValid net keys config = validate-IsValid net keys config h in
      let (key, k) = valid.private_key in
      let empty : Router Net = record { routes = []; excluded_routes = [] } in
      let keyed = add_peers_keyed config.interface.transport config.peer empty valid.peers in
      elim (Result-cases (add_peers net keys dns config.peer config.interface.transport empty)) [
        | inl (table, e) ↦ ((λ f. ground arith), (λ f. ground arith))
        | inr (error, e) ↦ ((λ f. ground arith), (λ f. ground (arith, keyed)))
      ]
