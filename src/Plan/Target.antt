-- ===== src/Plan/Target.antt =====
-- The configuration of gnmic for a target and for the targets of a tunnel policy: internal/gnmic/target.go
-- and tunneltarget.go. TargetConfig has the fields of gnmic's TargetConfig that they set; a string that is
-- not set is empty. The duration of a profile is a value, so the address that the source takes of it is
-- never nil.
use gnmic_operator.Prelude.{
  ℤ, pos, String, Bool, true, false, Option, none, some, List, [], ◌∷◌, ◌==◌, string_eq,
  if◌then◌else◌,
}
use gnmic_operator.Prelude.Text.{◌<>◌}
use gnmic_operator.Resources.{
  TargetTlsConfig, GrpcKeepAliveConfig, TargetProfileSpec, Target, TunnelMatch,
  TunnelTargetPolicySpec,
}
use gnmic_operator.Placement.Distribute.{TunnelTargetMatch}

pub record Credentials : Type 0 where
  pub username : String
  pub password : String
  pub token : String

pub record ClientTlsPaths : Type 0 where
  pub cert_file : String
  pub key_file : String
  pub ca_file : String

pub record TargetConfig : Type 0 where
  pub name : String
  pub address : String
  pub timeout : ℤ
  pub retry_timer : ℤ
  pub encoding : Option String
  pub username : Option String
  pub password : Option String
  pub token : Option String
  pub insecure : Option Bool
  pub skip_verify : Option Bool
  pub tls_cert : Option String
  pub tls_key : Option String
  pub tls_ca : Option String
  pub tls_server_name : String
  pub tls_max_version : String
  pub tls_min_version : String
  pub cipher_suites : List String
  pub tcp_keepalive : ℤ
  pub grpc_keepalive : Option GrpcKeepAliveConfig
  pub subscriptions : List String

-- A new TargetConfig.
abbrev pub no_config : TargetConfig
no_config = record {
  name = "";
  address = "";
  timeout = pos 0;
  retry_timer = pos 0;
  encoding = none;
  username = none;
  password = none;
  token = none;
  insecure = none;
  skip_verify = none;
  tls_cert = none;
  tls_key = none;
  tls_ca = none;
  tls_server_name = "";
  tls_max_version = "";
  tls_min_version = "";
  cipher_suites = [];
  tcp_keepalive = pos 0;
  grpc_keepalive = none;
  subscriptions = [];
}

-- A pointer to a string that is not empty, else what was there.
abbrev pointer_to : String → Option String → Option String
pointer_to s old = if s == "" then old else some s

abbrev non_empty : String → String → String
non_empty s old = if s == "" then old else s

abbrev suites : List String → List String → List String
suites [] old = old
suites (c ∷ cs) old = c ∷ cs

abbrev pub duration_or_default : Option ℤ → ℤ → ℤ
duration_or_default none default = default
duration_or_default (some d) default = d

abbrev pub set_credentials : Option Credentials → TargetConfig → TargetConfig
set_credentials none config = config
set_credentials (some creds) config = record config {
  username = pointer_to creds.username config.username;
  password = pointer_to creds.password config.password;
  token = pointer_to creds.token config.token;
}

abbrev pub set_versions : TargetTlsConfig → TargetConfig → TargetConfig
set_versions tls config = record config {
  tls_max_version = non_empty tls.max_version config.tls_max_version;
  tls_min_version = non_empty tls.min_version config.tls_min_version;
  cipher_suites = suites tls.cipher_suites config.cipher_suites;
}

-- The client certificate of the cluster, and the CA that verifies the target.
abbrev pub set_client_tls : ClientTlsPaths → TargetConfig → TargetConfig
set_client_tls paths config = record config {
  tls_cert = pointer_to paths.cert_file config.tls_cert;
  tls_key = pointer_to paths.key_file config.tls_key;
  tls_ca = pointer_to paths.ca_file config.tls_ca;
  skip_verify = if paths.ca_file == "" then some true else some false;
}

abbrev pub set_tcp_keepalive : Option ℤ → TargetConfig → TargetConfig
set_tcp_keepalive none config = config
set_tcp_keepalive (some d) config = record config { tcp_keepalive = d }

abbrev pub set_grpc_keepalive : Option GrpcKeepAliveConfig → TargetConfig → TargetConfig
set_grpc_keepalive none config = config
set_grpc_keepalive (some k) config = record config { grpc_keepalive = some k }

abbrev set_server_name : TargetTlsConfig → TargetConfig → TargetConfig
set_server_name tls config = record config {
  tls_server_name = non_empty tls.server_name config.tls_server_name;
}

-- From the return for a target without TLS on.
abbrev pub target_tls :
    Option ClientTlsPaths → Option TargetTlsConfig → TargetProfileSpec → TargetConfig → TargetConfig
target_tls none none profile config = record config { insecure = some true }
target_tls none (some tls) profile config =
    set_versions tls (record config { skip_verify = some true })
target_tls (some paths) none profile config = set_client_tls paths config
target_tls (some paths) (some tls) profile config =
    let named = set_versions tls (set_server_name tls (set_client_tls paths config)) in
    set_grpc_keepalive profile.grpc_keep_alive (set_tcp_keepalive profile.tcp_keep_alive named)

unfoldable pub build_target_config :
    Target → TargetProfileSpec → Option Credentials → Option ClientTlsPaths → TargetConfig
build_target_config target profile creds client_tls =
    let config = record no_config {
      name = target.namespace <> "/" <> target.name;
      address = target.address;
      timeout = duration_or_default (some profile.timeout) (pos 10000000000);
      retry_timer = duration_or_default (some profile.retry_timer) (pos 2000000000);
      encoding = some profile.encoding;
    } in
    target_tls client_tls profile.tls profile (set_credentials creds config)

-- The same from the return for a tunnel target without TLS on.
abbrev pub tunnel_tls : Option ClientTlsPaths → Option TargetTlsConfig → TargetConfig → TargetConfig
tunnel_tls none none config = record config { insecure = some true }
tunnel_tls none (some tls) config = set_versions tls (record config { skip_verify = some true })
tunnel_tls (some paths) none config = set_client_tls paths config
tunnel_tls (some paths) (some tls) config =
    set_versions tls (set_server_name tls (set_client_tls paths config))

abbrev match_criteria : Option TunnelMatch → String × String
match_criteria none = ("", "")
match_criteria (some m) = (m.type, m.id)

abbrev pub tunnel_config :
    Option TargetProfileSpec → Option Credentials → Option ClientTlsPaths → Option TargetConfig
tunnel_config none creds client_tls = none
tunnel_config (some profile) creds client_tls =
    let config = record no_config {
      timeout = duration_or_default (some profile.timeout) (pos 10000000000);
      retry_timer = duration_or_default (some profile.retry_timer) (pos 2000000000);
      encoding = some profile.encoding;
    } in
    some (tunnel_tls client_tls profile.tls (set_credentials creds config))

unfoldable pub build_tunnel_target_match :
    TunnelTargetPolicySpec
    → Option TargetProfileSpec
    → Option Credentials
    → Option ClientTlsPaths
    → TunnelTargetMatch TargetConfig
build_tunnel_target_match policy profile creds client_tls = record {
  type = (match_criteria policy.match_on).0;
  id = (match_criteria policy.match_on).1;
  config = tunnel_config profile creds client_tls;
}
