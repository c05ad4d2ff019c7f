-- ===== src/Sessions/Invariant.antt =====
-- The invariant of the session table, and the parts of it that each kind of change keeps.
use hushwire.Common.{◌+◌, ◌≤◌, true, none, ◌≡◌, ◌⊎◌, inl, refl, arith, Bytes, is_some}
use hushwire.Common.Maps.{Text, get}
use hushwire.Common.Maps.Laws.{Distinct}
use hushwire.Sessions.{SessionState, new}
use hushwire.Sessions.Ids.{occurrences}

module _ {T H : Type 0} where
  -- Each map has one entry to a peer.
  pub record IsKeyed (st : SessionState T H) : Type 0 where
    pub sessions : Distinct st.sessions
    pub previous : Distinct st.previous_sessions
    pub candidates : Distinct st.responder_candidates
    pub pending : Distinct st.pending_init
    pub cache : Distinct st.responder_cache

  -- An identifier stands for one session of one peer.
  abbrev pub UniqueIds : SessionState T H → Type 0
  UniqueIds st =
      (id : Bytes)
      → occurrences id st.sessions
          + occurrences id st.previous_sessions
          + occurrences id st.responder_candidates
        ≤ 1

  -- A peer is not at once responder with a candidate and initiator of a handshake.
  abbrev pub OneRole : SessionState T H → Type 0
  OneRole st = (p : Text) → (get p st.responder_candidates ≡ none) ⊎ (get p st.pending_init ≡ none)

  -- The response that made a candidate is kept with it.
  abbrev pub IsAnswered : SessionState T H → Type 0
  IsAnswered st =
      (p : Text)
      → (get p st.responder_candidates ≡ none) ⊎ (is_some (get p st.responder_cache) ≡ true)

  pub record IsWellFormed (st : SessionState T H) : Type 0 where
    pub keyed : IsKeyed st
    pub unique : UniqueIds st
    pub one_role : OneRole st
    pub answered : IsAnswered st

  pub new-IsWellFormed : IsWellFormed new
  unfolding new get occurrences
  new-IsWellFormed = record {
    keyed = record { sessions = tt; previous = tt; candidates = tt; pending = tt; cache = tt };
    unique = λ id. omega arith;
    one_role = λ p. inl refl;
    answered = λ p. inl refl;
  }
