-- ===== src/Config/Endpoint.antt =====
-- src/config.rs: the parser of peer endpoints, `PeerEndpoint::from_str`.
use hushwire.Common.{
  ℕ, Bool, true, false, not, ◌&&◌, ◌||◌, List, [], ◌∷◌, Option, none, some, leb, ◌==◌,
  if◌then◌else◌, ite, Result, ok, err, length,
}
use hushwire.Common.Maps.{Text, text_eq}
use hushwire.Config.{IpAddr, SocketAddr, PeerEndpoint}
use hushwire.Config.Characters.{
  trim, is_empty, is_alphanumeric, all_chars, contains_char, rsplit_once, split_on, parse_u16,
}

-- The parser and the printer of address literals in Rust's standard library.
pub record Literals : Type 0 where
  pub parse : Text → Option SocketAddr
  pub show_ip : IpAddr → Text

pub data PeerEndpointParseError : Type 0 where
  invalid_format invalid_port invalid_dns_name : PeerEndpointParseError

-- `strip_suffix('.').unwrap_or(value)`
unfoldable pub strip_dot : Text → Text
strip_dot [] = []
strip_dot (c ∷ []) = if c == b'.' then [] else c ∷ []
strip_dot (c ∷ d ∷ text) = c ∷ strip_dot (d ∷ text)

abbrev last_char : ℕ → Text → ℕ
last_char c [] = c
last_char c (d ∷ text) = last_char d text

-- The closure of `valid_dns_name` on one label.
unfoldable pub valid_label : Text → Bool
unfolding is_alphanumeric
valid_label [] = false
valid_label (c ∷ label) =
    leb (length (c ∷ label)) 63
    && (not (c == b'-')
        && (not (last_char c label == b'-')
            && all_chars (λ byte. is_alphanumeric byte || byte == b'-') (c ∷ label)))

abbrev pub all_labels : (Text → Bool) → List Text → Bool
all_labels p [] = true
all_labels p (label ∷ labels) = p label && all_labels p labels

unfoldable pub valid_dns_name : Text → Bool
unfolding strip_dot valid_label split_on
valid_dns_name value =
    let name = strip_dot value in
    not (is_empty name) && (leb (length name) 253 && all_labels valid_label (split_on b'.' name))

-- `From<SocketAddr>`
unfoldable pub from_socket_addr : Literals → SocketAddr → PeerEndpoint
from_socket_addr literals value = record {
  host = literals.show_ip value.ip;
  port = value.port;
  literal = some value;
}

-- From the split at the last colon on.
unfoldable pub parse_named : Text → Text → Result PeerEndpointParseError PeerEndpoint
parse_named host raw_port =
    if is_empty host || (contains_char b':' host || ite (text_eq (trim host) host) false true)
    then err invalid_format
    else elim (parse_u16 raw_port) [
      | none ↦ err invalid_port
      | some port ↦
          if not (valid_dns_name host)
          then err invalid_dns_name
          else ok (record { host = host; port = port; literal = none })
    ]

unfoldable pub from_str : Literals → Text → Result PeerEndpointParseError PeerEndpoint
unfolding parse_named from_socket_addr
from_str literals value = elim (literals.parse value) [
  | some literal ↦ ok (from_socket_addr literals literal)
  | none ↦ elim (rsplit_once b':' value) [
    | none ↦ err invalid_format
    | some (host, raw_port) ↦ parse_named host raw_port
  ]
]

unfoldable pub is_dns_name : PeerEndpoint → Bool
is_dns_name e = elim e.literal [ some literal ↦ false | none ↦ true ]
