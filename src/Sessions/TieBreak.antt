-- ===== src/Sessions/TieBreak.antt =====
-- Both ends of a tunnel that start a handshake at once: one of them yields.
use hushwire.Common.{ℕ, false, not, [], ◌∷◌, some, ◌≡◌, ◌≢◌, refl, arith, Bytes}
use hushwire.Common.Maps.{Text, get}
use hushwire.Sessions.{SessionState, PendingInitiator}
use hushwire.Sessions.Exchange.{bytes_le, attempt_over, accept_inbound_initiation}

bytes_le-not : (xs ys : Bytes) → xs ≢ ys → bytes_le xs ys ≡ not (bytes_le ys xs)
unfolding bytes_le
bytes_le-not [] [] different = absurd (different refl)
bytes_le-not [] (y ∷ ys) different = refl
bytes_le-not (x ∷ xs) [] different = refl
bytes_le-not (x ∷ xs) (y ∷ ys) different = grind (arith, bytes_le-not xs ys)

-- The handshake with a peer that waits for an answer and may still be answered.
unfoldable pub IsWaiting :
    {T H : Type 0} → SessionState T H → Text → ℕ → PendingInitiator H → Type 0
IsWaiting st p clock pending =
    (get p st.pending_init ≡ some pending) × (attempt_over clock pending ≡ false)

module _ {T H : Type 0} where
  accept_waiting :
      (st : SessionState T H) (p : Text) (id : Bytes) (clock : ℕ) (pending : PendingInitiator H)
      → IsWaiting st p clock pending
      → (accept_inbound_initiation st p id false clock).1 ≡ not (bytes_le pending.handshake_id id)
  unfolding accept_inbound_initiation IsWaiting
  accept_waiting st p id clock pending h = let (found, young) = h in ground arith

  -- Of two ends that each wait for the answer to an initiation that can still be answered, with
  -- different identifiers and neither taking the other for a passive peer, exactly one accepts the
  -- initiation of the other.
  pub accept_inbound_initiation-one :
      (near far : SessionState T H) (p q : Text) (clock clock' : ℕ)
      (mine theirs : PendingInitiator H)
      → IsWaiting near p clock mine
      → IsWaiting far q clock' theirs
      → mine.handshake_id ≢ theirs.handshake_id
      → (accept_inbound_initiation near p theirs.handshake_id false clock).1
        ≡ not (accept_inbound_initiation far q mine.handshake_id false clock').1
  accept_inbound_initiation-one near far p q clock clock' mine theirs v w different = ground (
    arith,
    accept_waiting near p theirs.handshake_id clock mine v,
    accept_waiting far q mine.handshake_id clock' theirs w,
    bytes_le-not mine.handshake_id theirs.handshake_id different,
  )
