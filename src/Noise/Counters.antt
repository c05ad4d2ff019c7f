-- ===== src/Noise/Counters.antt =====
-- The counters that `encrypt` puts on its packets.
use hushwire.Common.{
  subst, ℕ, suc, ◌+◌, ◌^◌, ◌≤◌, ◌<◌, List, [], ◌∷◌, some, ◌≡◌, ◌≢◌, arith, ◌==◌, Result, ok, err,
  length, Bytes, Result-cases, Bool-cases, Option-cases, inl, inr, ◌⊎◌,
}
use hushwire.Externals.{Snow, SnowLaws}
use hushwire.Auth.{
  MsgType, transport_packet, decode_packet, encode_transport, encode_transport_plaintext,
}
use hushwire.Auth.Framing.{decode_packet-encode, encode}
use hushwire.Noise.{NoiseError, Session, counter_exhausted, seal, encrypt, u64_max, new_session}

abbrev prepend : Result NoiseError Bytes → List Bytes → List Bytes
prepend (ok frame) frames = frame ∷ frames
prepend (err e) frames = frames

-- Every packet is a transport packet whose ciphertext the cipher state `t` has sealed under the
-- packet's counter as nonce; the counter is at least the bound and below those of later packets.
pub data Increasing (snow : Snow) (t : snow.Transport) : ℕ → List Bytes → Type 0 where
  none_left : (lo : ℕ) → Increasing snow t lo []
  next :
      {lo : ℕ} {frames : List Bytes} (id : Bytes) (counter : ℕ) (m : MsgType)
      (payload ciphertext frame : Bytes)
      → decode_packet frame ≡ some (transport_packet id counter ciphertext)
      → snow.write_message t counter
          (encode_transport_plaintext m payload)
          (length (encode_transport_plaintext m payload) + 16)
        ≡ some ciphertext
      → lo ≤ counter
      → Increasing snow t (suc counter) frames
      → Increasing snow t lo (frame ∷ frames)

lower :
    {snow : Snow} {t : snow.Transport} {lo : ℕ} {frames : List Bytes} (lo' : ℕ)
    → lo' ≤ lo
    → Increasing snow t lo frames
    → Increasing snow t lo' frames
lower lo' h (none_left lo) = none_left lo'
lower lo' h (next id counter m payload ciphertext frame d w l rest) =
    next id counter m payload ciphertext frame d w (omega arith) rest

module _ (snow : Snow) where
  -- On every branch: an exhausted counter is an error that changes nothing, and otherwise the
  -- counter moves on by one, also when the encryption itself fails, and nothing else changes.
  pub encrypt_cases :
      (s : Session snow.Transport) (m : MsgType) (payload : Bytes)
      → ((s.send_counter ≡ u64_max) × (encrypt snow s m payload ≡ (s, err counter_exhausted)))
        ⊎ ((encrypt snow s m payload).0 ≡ record s { send_counter = s.send_counter + 1 })
  unfolding encrypt
  encrypt_cases s m payload = ground arith

  pub encrypt_session_id :
      (s : Session snow.Transport) (m : MsgType) (payload : Bytes)
      → (encrypt snow s m payload).0.session_id ≡ s.session_id
  unfolding encrypt
  encrypt_session_id s m payload = ground arith

  encrypt_transport :
      (s : Session snow.Transport) (m : MsgType) (payload : Bytes)
      → (encrypt snow s m payload).0.transport ≡ s.transport
  unfolding encrypt
  encrypt_transport s m payload = ground arith

  encrypt_keeps :
      (s : Session snow.Transport) (m : MsgType) (payload : Bytes)
      → length s.session_id ≡ 8
      → s.send_counter < 2 ^ 64
      → (length (encrypt snow s m payload).0.session_id ≡ 8)
        × ((encrypt snow s m payload).0.send_counter < 2 ^ 64)
  unfolding encrypt
  encrypt_keeps s m payload sized bound = ground arith

  encrypt_moves :
      (s : Session snow.Transport) (m : MsgType) (payload : Bytes)
      → s.send_counter < u64_max
      → (encrypt snow s m payload).0.send_counter ≡ suc s.send_counter
  unfolding encrypt
  encrypt_moves s m payload below = ground arith

  encrypt_grows :
      (s : Session snow.Transport) (m : MsgType) (payload : Bytes)
      → s.send_counter ≤ (encrypt snow s m payload).0.send_counter
  unfolding encrypt
  encrypt_grows s m payload = ground arith

  -- The packets of a run of messages; a message that cannot be encrypted gives none.
  unfoldable pub send_all : Session snow.Transport → List (MsgType × Bytes) → List Bytes
  send_all s [] = []
  send_all s ((m, payload) ∷ messages) =
      let (s', r) = encrypt snow s m payload in prepend r (send_all s' messages)

  module _ (laws : SnowLaws snow) where
    -- What a successful call has sealed.
    pub encrypt_sealed :
        (s : Session snow.Transport) (m : MsgType) (payload frame : Bytes)
        → (encrypt snow s m payload).1 ≡ ok frame
        → (ciphertext : Bytes) × (snow.write_message s.transport s.send_counter
              (encode_transport_plaintext m payload)
              (length (encode_transport_plaintext m payload) + 16)
            ≡ some ciphertext)
          × (frame ≡ encode_transport s.session_id s.send_counter ciphertext)
          × (length ciphertext ≡ length (encode_transport_plaintext m payload) + 16)
          × (s.send_counter ≢ u64_max)
    unfolding encrypt seal
    encrypt_sealed s m payload frame h =
        let plaintext = encode_transport_plaintext m payload in
        let room = length plaintext + 16 in
        elim (Bool-cases (s.send_counter == u64_max)) [
          | inl spent ↦ absurd (ground arith)
          | inr left ↦
              elim (Option-cases (snow.write_message s.transport s.send_counter plaintext room)) [
                | inl failed ↦ absurd (ground arith)
                | inr (ciphertext, e) ↦ (
                  ciphertext,
                  e,
                  ground arith,
                  laws.sealed_length s.transport s.send_counter plaintext room ciphertext e,
                  ground arith,
                )
              ]
        ]

    -- A packet that is sent parses as a transport packet of the session under the counter.
    pub encrypt-decode_packet :
        (s : Session snow.Transport) (m : MsgType) (payload frame : Bytes)
        → length s.session_id ≡ 8
        → s.send_counter < 2 ^ 64
        → (encrypt snow s m payload).1 ≡ ok frame
        → (ciphertext : Bytes) × (decode_packet frame
            ≡ some (transport_packet s.session_id s.send_counter ciphertext))
          × (s.send_counter < u64_max)
    unfolding encode encode_transport_plaintext
    encrypt-decode_packet s m payload frame sized bound h =
        let (ciphertext, _, f, long, unspent) = encrypt_sealed s m payload frame h in
        let parsed = transport_packet s.session_id s.send_counter ciphertext in
        (ciphertext, rw f (decode_packet-encode parsed (sized, bound, omega arith)), omega arith)

    send_one :
        (s : Session snow.Transport) (m : MsgType) (payload : Bytes) (frames : List Bytes)
        → length s.session_id ≡ 8
        → s.send_counter < 2 ^ 64
        → Increasing snow s.transport (encrypt snow s m payload).0.send_counter frames
        → Increasing snow s.transport s.send_counter (prepend (encrypt snow s m payload).1 frames)
    unfolding encode encode_transport_plaintext
    send_one s m payload frames sized bound rest =
        elim (Result-cases (encrypt snow s m payload).1) [
          | inl (frame, e) ↦
              let (ciphertext, sealed, f, long, unspent) = encrypt_sealed s m payload frame e in
              let parsed = transport_packet s.session_id s.send_counter ciphertext in
              let d : decode_packet frame ≡ some parsed =
                rw f (decode_packet-encode parsed (sized, bound, omega arith)) in
              let below : s.send_counter < u64_max = omega arith in
              let moved : (encrypt snow s m payload).0.send_counter ≡ suc s.send_counter =
                encrypt_moves s m payload below in
              rw e (
                next s.session_id s.send_counter m payload ciphertext frame d sealed (omega arith)
                  (rw moved at rest))
          | inr (e', e) ↦ rw e (lower s.send_counter (encrypt_grows s m payload) rest)
        ]

    send_all-Increasing_from :
        (s : Session snow.Transport) (messages : List (MsgType × Bytes))
        → length s.session_id ≡ 8
        → s.send_counter < 2 ^ 64
        → Increasing snow s.transport s.send_counter (send_all s messages)
    unfolding send_all
    send_all-Increasing_from s [] sized bound = none_left s.send_counter
    send_all-Increasing_from s ((m, payload) ∷ messages) sized bound =
        let (sized', bound') = encrypt_keeps s m payload sized bound in
        let s' = (encrypt snow s m payload).0 in
        send_one s m payload _ sized bound (
          subst (λ t. Increasing snow t s'.send_counter (send_all s' messages))
            (encrypt_transport s m payload) (send_all-Increasing_from s' messages sized' bound'))

    -- Each packet that a new session with an identifier of 8 bytes sends carries what the cipher
    -- state seals under the counter of the packet as its nonce, and the counters strictly
    -- increase, whatever encryptions fail in between, so that no nonce is used for two packets.
    pub send_all-Increasing :
        (id : Bytes) (t : snow.Transport) (clock : ℕ) (messages : List (MsgType × Bytes))
        → length id ≡ 8
        → Increasing snow t 0 (send_all (new_session id t clock) messages)
    unfolding new_session
    send_all-Increasing id t clock messages sized =
        send_all-Increasing_from (new_session id t clock) messages sized (omega arith)
