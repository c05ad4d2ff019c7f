-- ===== src/Tests/Configs.antt =====
-- A configuration that is accepted.
use hushwire.Common.{
  ℕ, List, [], ◌∷◌, none, some, ◌≡◌, ◌≢◌, refl, ok, err, All, ℕ_discrete, bytes_eq, replicate,
}
use hushwire.Common.Maps.{get, insert}
use hushwire.Config.{v4, udp, GatewayConfig, Config, PeerConfig, Dns, decode_key}
use hushwire.Config.Characters.{is_whitespace, trim_start, trim_end, trim, is_alphanumeric}
use hushwire.Config.Validate.{
  and_then, refuse, is_valid_linux_interface_name, decode_psk, check_mss, check_gateway,
  check_rebind, check_timeout, insert_new, covered, check_exclusions, check_peer, check_peers,
  validate,
}
use hushwire.Config.Validate.Accepted.{IsValid, validate-IsValid, HasTime, validate-scheduled}
use hushwire.Config.Validate.Starts.{validate-new}
use hushwire.Engine
use hushwire.Engine.{invalid_private_key, router_error}
use hushwire.Router.{invalid_key}
use hushwire.Scheduler
use hushwire.Tests.Samples.{net_eq, sample_net, sample_snow, sample_keys}
use hushwire.Tests.Tables.{address, wide_config, narrow_config}

abbrev rebound_config : PeerConfig (ℕ × ℕ)
rebound_config = record narrow_config {
  psk = replicate 32 3;
  public_key = replicate 32 4;
  udp_rebind_after = 60;
  session_timeout = some 90;
}

abbrev tunnel_name : List ℕ
tunnel_name = b'h' ∷ b'w' ∷ b'0' ∷ []

abbrev gateway_config : GatewayConfig
gateway_config = record { lan_interface = 32 ∷ b'e' ∷ b't' ∷ b'h' ∷ 32 ∷ []; tcp_mss = some 1240 }

abbrev sample_config : Config (ℕ × ℕ)
sample_config = record {
  interface = record {
    name = tunnel_name;
    address = (address 1, 24);
    listen = record { ip = v4 0; port = 51; flowinfo = 0; scope_id = 0 };
    transport = udp;
    mtu = 1280;
    private_key = replicate 32 9;
  };
  gateway = some gateway_config;
  peer = wide_config ∷ rebound_config ∷ [];
}

accepted : validate sample_net sample_keys sample_config ≡ ok tt
unfolding validate check_gateway check_mss is_valid_linux_interface_name is_alphanumeric trim
    trim_start trim_end is_whitespace refuse and_then check_peers check_peer check_exclusions
    covered check_rebind check_timeout insert_new decode_psk decode_key net_eq ℕ_discrete bytes_eq
    get insert
accepted = refl

validate-IsValid_example : IsValid sample_net sample_keys sample_config
validate-IsValid_example = validate-IsValid sample_net sample_keys sample_config accepted

validate-scheduled_example : All HasTime (Scheduler.new sample_config).peers
validate-scheduled_example = validate-scheduled sample_net sample_keys sample_config accepted

abbrev silent_dns : Dns
silent_dns host port = none

validate-new_example :
    (Engine.new sample_net sample_snow sample_keys silent_dns sample_config
      ≢ err invalid_private_key)
    × (Engine.new sample_net sample_snow sample_keys silent_dns sample_config
        ≢ err (router_error invalid_key))
validate-new_example =
    validate-new sample_net sample_keys silent_dns sample_snow sample_config accepted
