-- ===== src/Sessions/Interleaving.antt =====
-- The session table under operations of any threads, in the order in which they take its lock.
use hushwire.Common.{ℕ, Bool, Bytes}
use hushwire.Common.Maps.{Text}
use hushwire.Externals.{Snow}
use hushwire.Auth.{MsgType}
use hushwire.Noise.{Session}
use hushwire.Noise.Handshake.{Entropy}
use hushwire.Sessions.{SessionState, new, encrypt_for_peer, decrypt_transport, invalidate_peer}
use hushwire.Sessions.Exchange.{
  store_responder_candidate, cached_responder_response, accept_inbound_initiation,
  start_or_retry_handshake, finalize_initiator,
}
use hushwire.Sessions.Invariant.{IsWellFormed, new-IsWellFormed}
use hushwire.Sessions.Keep.{invalidate_peer-IsWellFormed}
use hushwire.Sessions.Transport.{encrypt_for_peer-IsWellFormed, decrypt_transport-IsWellFormed}
use hushwire.Sessions.Handshakes.{
  store_responder_candidate-IsWellFormed, cached_responder_response-IsWellFormed,
  accept_inbound_initiation-IsWellFormed,
}
use hushwire.Sessions.Initiator.{
  start_or_retry_handshake-IsWellFormed, finalize_initiator-IsWellFormed,
}

module _ (snow : Snow) where
  abbrev State : Type 0
  State = SessionState snow.Transport snow.Handshake

  -- What operations that each hold the lock can make of a new table.
  pub data Interleaved : State → Type 0 where
    begin : Interleaved new
    encrypts :
        (st : State) (p : Text) (m : MsgType) (payload : Bytes) (now : ℕ)
        → Interleaved st
        → Interleaved (encrypt_for_peer snow st p m payload now).0
    decrypts :
        (st : State) (id : Bytes) (counter : ℕ) (ciphertext : Bytes) (now : ℕ)
        → Interleaved st
        → Interleaved (decrypt_transport snow st id counter ciphertext now).0
    stores :
        (st : State) (p : Text) (s : Session snow.Transport) (id request response : Bytes)
        (clock : ℕ)
        → Interleaved st
        → Interleaved (store_responder_candidate st p s id request response clock).0
    recalls :
        (st : State) (p : Text) (id request : Bytes) (clock : ℕ)
        → Interleaved st
        → Interleaved (cached_responder_response st p id request clock).0
    accepts :
        (st : State) (p : Text) (id : Bytes) (passive : Bool) (clock : ℕ)
        → Interleaved st
        → Interleaved (accept_inbound_initiation st p id passive clock).0
    initiates :
        (st : State) (p : Text) (local remote psk : Bytes) (now : ℕ) (entropy : Entropy)
        → Interleaved st
        → Interleaved (start_or_retry_handshake snow st p local remote psk now entropy).0
    finalizes :
        (st : State) (id response : Bytes) (clock : ℕ)
        → Interleaved st
        → Interleaved (finalize_initiator snow st id response clock).0
    invalidates : (st : State) (p : Text) → Interleaved st → Interleaved (invalidate_peer st p).0

  -- Whatever operations that each hold the lock of the session table are made on a new table, by
  -- any threads in any order, whatever their arguments, the table is well formed.
  pub Interleaved-IsWellFormed : {st : State} → Interleaved st → IsWellFormed st
  Interleaved-IsWellFormed begin = new-IsWellFormed
  Interleaved-IsWellFormed (encrypts st p m payload now r) =
      encrypt_for_peer-IsWellFormed snow st p m payload now (Interleaved-IsWellFormed r)
  Interleaved-IsWellFormed (decrypts st id counter ciphertext now r) =
      decrypt_transport-IsWellFormed snow st id counter ciphertext now (Interleaved-IsWellFormed r)
  Interleaved-IsWellFormed (stores st p s id request response clock r) =
      store_responder_candidate-IsWellFormed st p s id request response clock
        (Interleaved-IsWellFormed r)
  Interleaved-IsWellFormed (recalls st p id request clock r) =
      cached_responder_response-IsWellFormed st p id request clock (Interleaved-IsWellFormed r)
  Interleaved-IsWellFormed (accepts st p id passive clock r) =
      accept_inbound_initiation-IsWellFormed st p id passive clock (Interleaved-IsWellFormed r)
  Interleaved-IsWellFormed (initiates st p local remote psk now entropy r) =
      start_or_retry_handshake-IsWellFormed snow st p local remote psk now entropy
        (Interleaved-IsWellFormed r)
  Interleaved-IsWellFormed (finalizes st id response clock r) =
      finalize_initiator-IsWellFormed snow st id response clock (Interleaved-IsWellFormed r)
  Interleaved-IsWellFormed (invalidates st p r) =
      invalidate_peer-IsWellFormed st p (Interleaved-IsWellFormed r)
