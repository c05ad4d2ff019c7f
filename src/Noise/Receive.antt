-- ===== src/Noise/Receive.antt =====
-- What `decrypt` gives and what it leaves.
use hushwire.Common.{
  ℕ, ◌-◌, ◌^◌, ◌<◌, true, false, List, [], ◌∷◌, some, ◌≡◌, refl, sym, ◌∙◌, arith, ltb, ok, err,
  length, Bytes, bytes_eq, Bool-cases, Option-cases, inl, inr, ◌⊎◌,
}
use hushwire.Externals.{Snow, SnowLaws, Pair}
use hushwire.Auth.{MsgType, transport_packet, decode_packet, encode_transport_plaintext}
use hushwire.Auth.Framing.{decode_packet-encode, encode, decode-encode_transport_plaintext}
use hushwire.Replay.{mark_authenticated, would_accept}
use hushwire.Replay.Tracking.{
  Tracks, contains, note, mark_authenticated-Tracks, fresh, would_accept-Tracks, new-Tracks,
}
use hushwire.Replay.History.{contains_marked, not_fresh, contains-note}
use hushwire.Noise.Counters.{encrypt_sealed}
use hushwire.Noise.{
  NoiseError, Session, replay_error, wrong_session, malformed_transport, snow_error, encrypt,
  new_session, decrypt, accept_plaintext, decrypt_packet,
}

module _ (snow : Snow) where
  -- A decryption leaves the session as it was, or the packet names the session, its counter was
  -- acceptable and its ciphertext was authenticated.
  pub decrypt_unchanged :
      (s : Session snow.Transport) (id : Bytes) (counter : ℕ) (ciphertext : Bytes)
      → ((decrypt snow s id counter ciphertext).0 ≡ s)
        ⊎ ((id ≡ s.session_id)
            × (would_accept s.replay counter ≡ true)
            × ((plaintext : Bytes) × (snow.read_message s.transport counter ciphertext
                    (length ciphertext - 16)
                  ≡ some plaintext)))
  unfolding decrypt
  decrypt_unchanged s id counter ciphertext =
      let read = snow.read_message s.transport counter ciphertext (length ciphertext - 16) in
      elim (bytes_eq id s.session_id) [
        | no other ↦ inl (ground arith)
        | yes same ↦ elim (Bool-cases (would_accept s.replay counter)) [
          | inr stale ↦ inl (ground arith)
          | inl accepted ↦ elim (Option-cases read) [
            | inl forged ↦ inl (ground arith)
            | inr (plaintext, e) ↦ inr (same, accepted, (plaintext, e))
          ]
        ]
      ]

  -- A packet that one end of a session encrypts is decrypted by the other end to the same message
  -- type and payload, if the ends share the identifier of 8 bytes, one opens what the other seals,
  -- and the counter is a 64-bit number that is fresh in the window of the receiver.
  pub decrypt_packet-encrypt :
      (laws : SnowLaws snow) (s r : Session snow.Transport) (m : MsgType) (payload frame : Bytes)
      → Pair snow s.transport r.transport
      → r.session_id ≡ s.session_id
      → length s.session_id ≡ 8
      → s.send_counter < 2 ^ 64
      → would_accept r.replay s.send_counter ≡ true
      → (encrypt snow s m payload).1 ≡ ok frame
      → (decrypt_packet snow r frame).1 ≡ ok (m, payload)
  unfolding encode encode_transport_plaintext decrypt_packet decrypt accept_plaintext
      mark_authenticated
  decrypt_packet-encrypt laws s r m payload frame pair same sized bound fresh h =
      let plaintext = encode_transport_plaintext m payload in
      let (ciphertext, sealed, f, long, below) = encrypt_sealed snow laws s m payload frame h in
      let parsed = transport_packet s.session_id s.send_counter ciphertext in
      let d : decode_packet frame ≡ some parsed =
        rw f (decode_packet-encode parsed (sized, bound, omega arith)) in
      let room : length ciphertext - 16 ≡ length plaintext = omega arith in
      let opened : snow.read_message r.transport s.send_counter ciphertext (length plaintext)
          ≡ some plaintext =
        pair.opens s.send_counter plaintext _ ciphertext sealed in
      ground (arith, d, room, opened, decode-encode_transport_plaintext m payload)

  -- The window of the session after a call, and the error if it was not moved.
  decrypt_window :
      (s : Session snow.Transport) (id : Bytes) (counter : ℕ) (ciphertext : Bytes)
      → (((decrypt snow s id counter ciphertext).0.replay ≡ s.replay)
          × ((e : NoiseError) × ((decrypt snow s id counter ciphertext).1 ≡ err e)))
        ⊎ ((decrypt snow s id counter ciphertext).0.replay
            ≡ (mark_authenticated s.replay counter).0)
          × ((mark_authenticated s.replay counter).1 ≡ true)
  unfolding decrypt accept_plaintext
  decrypt_window s id counter ciphertext =
      let read = snow.read_message s.transport counter ciphertext (length ciphertext - 16) in
      elim (bytes_eq id s.session_id) [
        | no other ↦ inl (ground arith, (wrong_session, ground arith))
        | yes same ↦ elim (Bool-cases (would_accept s.replay counter)) [
          | inr stale ↦ inl (ground arith, (replay_error, ground arith))
          | inl accepted ↦ elim (Option-cases read) [
            | inl forged ↦ elim (Bool-cases (ltb (length ciphertext) 17)) [
              | inl short ↦ inl (ground arith, (malformed_transport, ground arith))
              | inr long ↦ inl (ground arith, (snow_error, ground arith))
            ]
            | inr (plaintext, e) ↦ elim (Bool-cases (ltb (length ciphertext) 17)) [
              | inl short ↦ inl (ground arith, (malformed_transport, ground arith))
              | inr long ↦ elim (Bool-cases (mark_authenticated s.replay counter).1) [
                | inl marked ↦ inr (ground arith)
                | inr refused ↦ inl (ground arith, (replay_error, ground arith))
              ]
            ]
          ]
        ]
      ]

  pub decrypt_session_id :
      (s : Session snow.Transport) (id : Bytes) (counter : ℕ) (ciphertext : Bytes)
      → (decrypt snow s id counter ciphertext).0.session_id ≡ s.session_id
  unfolding decrypt accept_plaintext
  decrypt_session_id s id counter ciphertext = ground arith

  -- Packets that arrive, as identifier, counter and ciphertext.
  unfoldable pub receive_all :
      Session snow.Transport → List (Bytes × ℕ × Bytes) → Session snow.Transport
  receive_all s [] = s
  receive_all s ((id, counter, ciphertext) ∷ packets) =
      receive_all (decrypt snow s id counter ciphertext).0 packets

  receive_all_session_id :
      (s : Session snow.Transport) (packets : List (Bytes × ℕ × Bytes))
      → (receive_all s packets).session_id ≡ s.session_id
  unfolding receive_all
  receive_all_session_id s [] = refl
  receive_all_session_id s ((id, counter, ciphertext) ∷ packets) =
      receive_all_session_id (decrypt snow s id counter ciphertext).0 packets
      ∙ decrypt_session_id s id counter ciphertext

  decrypt_refused :
      (s : Session snow.Transport) (id : Bytes) (counter : ℕ) (ciphertext : Bytes)
      → s.session_id ≡ id
      → would_accept s.replay counter ≡ false
      → (decrypt snow s id counter ciphertext).1 ≡ err replay_error
  unfolding decrypt
  decrypt_refused s id counter ciphertext e h = ground arith

  abbrev Grown : Session snow.Transport → List ℕ → Session snow.Transport → Type 0
  Grown s accepted s' =
      (accepted' : List ℕ) × Tracks s'.replay accepted'
      × ((c : ℕ) → contains c accepted ≡ true → contains c accepted' ≡ true)

  decrypt-Grown :
      (s : Session snow.Transport) (id : Bytes) (counter : ℕ) (ciphertext : Bytes)
      (accepted : List ℕ)
      → Tracks s.replay accepted
      → Grown s accepted (decrypt snow s id counter ciphertext).0
  decrypt-Grown s id counter ciphertext accepted t = elim (decrypt_window s id counter ciphertext) [
    | inl (e, _) ↦ (accepted, rw e t, λ c m. m)
    | inr (e, _) ↦ (
      note accepted counter,
      rw e ((mark_authenticated-Tracks s.replay accepted counter t).0),
      λ c m. contains-note c accepted counter m,
    )
  ]

  receive_all-Grown :
      (s : Session snow.Transport) (packets : List (Bytes × ℕ × Bytes)) (accepted : List ℕ)
      → Tracks s.replay accepted
      → Grown s accepted (receive_all s packets)
  unfolding receive_all
  receive_all-Grown s [] accepted t = (accepted, t, λ c m. m)
  receive_all-Grown s ((id, counter, ciphertext) ∷ packets) accepted t =
      let (accepted', t', grows) = decrypt-Grown s id counter ciphertext accepted t in
      let (accepted'', t'', grows') =
        receive_all-Grown (decrypt snow s id counter ciphertext).0 packets accepted' t' in
      (accepted'', t'', λ c m. grows' c (grows c m))

  -- A counter under which a session has decrypted a packet is refused as a replay from then on,
  -- whatever packets arrive before it and in between.
  pub decrypt_once :
      (id : Bytes) (t : snow.Transport) (clock : ℕ) (before between : List (Bytes × ℕ × Bytes))
      (counter : ℕ) (first second : Bytes) (message : MsgType × Bytes)
      → (decrypt snow (receive_all (new_session id t clock) before) id counter first).1 ≡ ok message
      → (decrypt snow
          (receive_all
            (decrypt snow (receive_all (new_session id t clock) before) id counter first).0
            between)
          id
          counter
          second).1
        ≡ err replay_error
  unfolding new_session
  decrypt_once id t clock before between counter first second message h =
      let s = receive_all (new_session id t clock) before in
      let s' = (decrypt snow s id counter first).0 in
      let (accepted, tracked, _) =
        receive_all-Grown (new_session id t clock) before [] new-Tracks in
      elim (decrypt_window s id counter first) [
        | inl (_, (e, failed)) ↦ absurd (ground arith)
        | inr (e, marked) ↦
            let (tracked', answer) = mark_authenticated-Tracks s.replay accepted counter tracked in
            let (accepted', tracked'', grows) =
              receive_all-Grown s' between (note accepted counter) (rw e tracked') in
            let seen = grows counter (contains_marked counter accepted (sym answer ∙ marked)) in
            decrypt_refused (receive_all s' between) id counter second
              (receive_all_session_id s' between
                ∙ decrypt_session_id s id counter first
                ∙ receive_all_session_id (new_session id t clock) before)
              (would_accept-Tracks _ accepted' counter tracked'' ∙ not_fresh counter accepted' seen)
      ]
