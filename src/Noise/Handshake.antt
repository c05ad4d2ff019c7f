-- ===== src/Noise/Handshake.antt =====
-- src/noise.rs: the two messages of the Noise_IKpsk2 handshake and the sessions that they give.
use hushwire.Common.{
  ℕ, ◌+◌, Bool, true, false, [], Option, none, some, ◌==◌, ite, Result, ok, err, length, Bytes,
  bytes_eq,
}
use hushwire.Externals.{Snow}
use hushwire.Auth.{handshake_prologue}
use hushwire.Noise.{
  NoiseError, snow_error, missing_remote_static, remote_static_mismatch, invalid_session_id,
  malformed_transport, Session, new_session, aead_tag_size, max_noise_message_size,
}

-- The randomness that one handshake draws: the identifier from `OsRng`, and `snow`'s own.
pub record Entropy : Type 0 where
  pub identifier : Bytes
  pub ephemeral : Bytes

pub record InitiatorState (H : Type 0) : Type 0 where
  pub handshake_id : Bytes
  pub state : H

pub record InitiatorHandshake (H : Type 0) : Type 0 where
  pub handshake_id : Bytes
  pub message : Bytes
  pub state : InitiatorState H

pub record ResponderHandshake (T : Type 0) : Type 0 where
  pub message : Bytes
  pub session : Session T

abbrev or_err : {A : Type 0} → NoiseError → Option A → Result NoiseError A
or_err e none = err e
or_err e (some a) = ok a

infixl 5 ◌>>=◌
abbrev ◌>>=◌ :
    {A B : Type 0} → Result NoiseError A → (A → Result NoiseError B) → Result NoiseError B
ok a >>= f = f a
err e >>= f = err e

abbrev guard : Bool → NoiseError → Result NoiseError (Unit {0})
guard true e = ok tt
guard false e = err e

infixl 5 ◌>>◌
abbrev ◌>>◌ :
    {B : Type 0} → Result NoiseError (Unit {0}) → Result NoiseError B → Result NoiseError B
m >> k = m >>= λ _. k

module _ (snow : Snow) where
  -- `initiator_start` and the `initiator_start_with_id` that it calls.
  unfoldable pub initiator_start :
      Bytes → Bytes → Bytes → Entropy → Result NoiseError (InitiatorHandshake snow.Handshake)
  initiator_start local_static remote_static_pub psk entropy = do
    let handshake_id = entropy.identifier
    state ←
        or_err snow_error (
          snow.build_initiator local_static remote_static_pub psk (handshake_prologue handshake_id))
    (message, state') ←
        or_err snow_error (snow.write_handshake state [] entropy.ephemeral max_noise_message_size)
    ok (record {
      handshake_id = handshake_id;
      message = message;
      state = record { handshake_id = handshake_id; state = state' };
    })

  unfoldable pub initiator_finalize :
      InitiatorState snow.Handshake → Bytes → ℕ → Result NoiseError (Session snow.Transport)
  initiator_finalize initiator message clock = do
    (payload, state) ←
        or_err snow_error (snow.read_handshake initiator.state message (8 + aead_tag_size))
    guard (length payload == 8) invalid_session_id
    transport ← or_err snow_error (snow.into_transport state)
    ok (new_session payload transport clock)

  unfoldable pub responder_respond :
      Bytes
      → Bytes
      → Bytes
      → Bytes
      → Bytes
      → Entropy
      → ℕ
      → Result NoiseError (ResponderHandshake snow.Transport)
  responder_respond local_static expected_remote_static psk handshake_id message entropy clock = do
    state ←
        or_err snow_error (snow.build_responder local_static psk (handshake_prologue handshake_id))
    (payload, read) ← or_err snow_error (snow.read_handshake state message max_noise_message_size)
    guard (length payload == 0) malformed_transport
    remote_static ← or_err missing_remote_static (snow.remote_static read)
    ite (bytes_eq remote_static expected_remote_static)
        (do
          (response, written) ← or_err snow_error (
              snow.write_handshake read entropy.identifier entropy.ephemeral max_noise_message_size)
          transport ← or_err snow_error (snow.into_transport written)
          ok (record {
            message = response;
            session = new_session entropy.identifier transport clock;
          }))
        (err remote_static_mismatch)
