-- ===== src/Scheduler.antt =====
-- src/scheduler.rs: the maintenance of the sessions of a running engine; its data and the decisions
-- on times.
pub mod Loops
pub mod Recoveries
pub mod Notes
pub mod Timely
pub mod Spacing
use hushwire.Common.{
  ℕ, ◌-◌, max, Bool, true, false, not, ◌&&◌, ◌||◌, List, [], ◌∷◌, ◌++◌, Option, none, some, ltb,
  leb, ◌==◌, if◌then◌else◌, ite, Result, ok, err, Bytes, is_some, map,
}
use hushwire.Common.Maps.{Text, Map, get, insert, contains_key}
use hushwire.Externals.{Ipnet, Snow}
use hushwire.Auth.{keepalive_probe_payload}
use hushwire.Config.{Config, TransportConfig, udp, tcp, PeerConfig, effective_session_timeout}
use hushwire.Noise.{from_secs}
use hushwire.Noise.Handshake.{Entropy}
use hushwire.Peers.{PeerStats}
use hushwire.Sessions
use hushwire.Engine
use hushwire.Engine.{
  Engine, EngineOf, EngineOutput, EngineError, initiate_handshake, create_keepalive,
}

pub data ScheduledOperation : Type 0 where
  handshake_retry session_recovery keepalive_send : ScheduledOperation

pub record ScheduledOutput : Type 0 where
  pub operation : ScheduledOperation
  pub output : EngineOutput

-- `SchedulerEvent::Recovery`
pub record SchedulerEvent : Type 0 where
  pub peer_name : Text
  pub silence : ℕ
  pub rebind_udp : Bool
  pub rebind_succeeded : Bool
  pub had_stale_state : Bool

pub record SchedulerError (Net : Type 0) : Type 0 where
  pub peer_name : Text
  pub operation : ScheduledOperation
  pub error : EngineError Net

pub record SchedulerTick (Net : Type 0) : Type 0 where
  pub outputs : List ScheduledOutput
  pub events : List SchedulerEvent
  pub errors : List (SchedulerError Net)

pub record RecoveryPolicy : Type 0 where
  pub timeout : ℕ
  pub rebind_udp : Bool

pub record ScheduledPeer : Type 0 where
  pub name : Text
  pub persistent_keepalive : ℕ
  pub recovery : Option RecoveryPolicy

pub record EngineScheduler : Type 0 where
  pub peers : List ScheduledPeer
  pub last_sent : Map ℕ
  pub last_udp_rebind_attempt : Option ℕ
  pub last_session_recovery_attempt : Map ℕ

unfoldable pub recovery_policy : TransportConfig → ℕ → ℕ → Option RecoveryPolicy
recovery_policy transport udp_rebind_after session_timeout =
    let is_udp : Bool = elim transport [ udp ↦ true | tcp ↦ false ] in
    if is_udp && ltb 0 udp_rebind_after
    then some (record { timeout = from_secs udp_rebind_after; rebind_udp = true })
    else if ltb 0 session_timeout
    then some (record { timeout = from_secs session_timeout; rebind_udp = false })
    else none

unfoldable pub recovery_due : ℕ → ℕ → Option ℕ → ℕ → Bool
recovery_due now last_seen last_recovery_attempt timeout =
    let health_baseline : ℕ = elim last_recovery_attempt [
      | some attempt ↦ max attempt last_seen
      | none ↦ last_seen
    ] in
    leb timeout (now - health_baseline)

unfoldable pub keepalive_should_send : ℕ → Option ℕ → ℕ → Bool → Bool → Bool
keepalive_should_send now last_sent interval recovery_enabled rebound =
    if rebound
    then true
    else if interval == 0
    then false
    else elim last_sent [ some sent ↦ leb interval (now - sent) | none ↦ recovery_enabled ]

unfoldable pub scheduled_peer : {Net : Type 0} → TransportConfig → PeerConfig Net → ScheduledPeer
scheduled_peer transport peer = record {
  name = peer.name;
  persistent_keepalive = from_secs peer.persistent_keepalive;
  recovery =
      recovery_policy transport peer.udp_rebind_after (effective_session_timeout peer transport);
}

unfoldable pub new : {Net : Type 0} → Config Net → EngineScheduler
unfolding scheduled_peer
new config = record {
  peers = map (scheduled_peer config.interface.transport) config.peer;
  last_sent = [];
  last_udp_rebind_attempt = none;
  last_session_recovery_attempt = [];
}

abbrev pub no_tick : {Net : Type 0} → SchedulerTick Net
no_tick = record { outputs = []; events = []; errors = [] }

unfoldable pub push_engine_output :
    {Net : Type 0}
    → SchedulerTick Net
    → Text
    → ScheduledOperation
    → Result (EngineError Net) EngineOutput
    → SchedulerTick Net
push_engine_output tick peer_name operation result = elim result [
  | ok output ↦ record tick {
    outputs = tick.outputs ++ record { operation = operation; output = output } ∷ [];
  }
  | err error ↦ record tick {
    errors =
        tick.errors ++ record { peer_name = peer_name; operation = operation; error = error } ∷ [];
  }
]

-- The note of an attempt.
unfoldable pub note_attempt : EngineScheduler → Text → RecoveryPolicy → ℕ → EngineScheduler
note_attempt scheduler peer_name policy now =
    if policy.rebind_udp
    then (record scheduler { last_udp_rebind_attempt = some now })
    else (record scheduler {
      last_session_recovery_attempt = insert peer_name now scheduler.last_session_recovery_attempt;
    })
