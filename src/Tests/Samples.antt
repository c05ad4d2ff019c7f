-- ===== src/Tests/Samples.antt =====
-- Stand-ins for `ipnet`, `snow` and the key types that meet the hypotheses, and sample data.
use hushwire.Common.{
  ℕ, ◌-◌, ◌/◌, ◌^◌, ◌==◌, [], ◌∷◌, ◌++◌, some, ◌≡◌, refl, ap, arith, Bytes, length, take, replicate,
  length-append, take_at, ℕ_discrete,
}
use hushwire.Common.Maps.{Text}
use hushwire.Externals.{Ipnet, Snow, SnowLaws, Pair, Keys}
use hushwire.Noise.Handshake.{Entropy}

unfoldable pub net_eq : Discrete (ℕ × ℕ)
unfolding ℕ_discrete
net_eq = hlevel ℕ_discrete

-- A prefix by its address and length.
abbrev pub sample_net : Ipnet
sample_net = record {
  Net = ℕ × ℕ;
  net_eq = net_eq;
  prefix_len = λ n. n.1;
  network = λ n. n.0;
  contains = λ n address. address / 2 ^ (32 - n.1) == n.0 / 2 ^ (32 - n.1);
}

abbrev pub tag : Bytes
tag = replicate 16 0

-- Messages in clear with an empty tag; a handshake message is its payload.
abbrev pub sample_snow : Snow
sample_snow = record {
  Transport = Unit {0};
  Handshake = Unit {0};
  write_message = λ t nonce payload room. some (payload ++ tag);
  read_message = λ t nonce message room. some (take room message);
  build_initiator = λ private_key remote_key psk prologue. some tt;
  build_responder = λ private_key psk prologue. some tt;
  write_handshake = λ h payload entropy room. some (payload, h);
  read_handshake = λ h message room. some (message, h);
  remote_static = λ h. some [];
  into_transport = λ h. some tt;
}

abbrev pub sample_laws : SnowLaws sample_snow
sample_laws = record {
  sealed_length = λ t nonce payload room message h.
      let e : payload ++ tag ≡ message = ground arith in rw (← e, length-append payload tag) refl;
}

abbrev pub sample_pair : Pair sample_snow tt tt
sample_pair = record {
  opens = λ nonce payload room message h.
      let e : payload ++ tag ≡ message = ground arith in
      rw (← e) (ap some (take_at (length payload) payload tag refl));
}

abbrev pub sample_keys : Keys
sample_keys = record {
  decode_base64 = λ text. some text;
  public_key = λ bytes. bytes;
  static_secret = λ bytes. bytes;
}

abbrev pub id_a : Bytes
id_a = 1 ∷ 2 ∷ 3 ∷ 4 ∷ 5 ∷ 6 ∷ 7 ∷ 8 ∷ []

abbrev pub id_b : Bytes
id_b = 2 ∷ 2 ∷ 3 ∷ 4 ∷ 5 ∷ 6 ∷ 7 ∷ 8 ∷ []

abbrev pub sample_entropy : Text → Entropy
sample_entropy name = record { identifier = id_a; ephemeral = [] }
