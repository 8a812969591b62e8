-- ===== src/Plan/Tls.antt =====
-- The paths of certificates: internal/gnmic/tls.go. `getenv` is os.Getenv.
use gnmic_operator.Prelude.{String, Bool, false, Option, none, some, ◌==◌, string_eq, if◌then◌else◌}
use gnmic_operator.Resources.{ClusterTlsConfig, ApiConfig, GrpcTunnelConfig, ClusterSpec}
use gnmic_operator.Plan.Target.{ClientTlsPaths}

pub record TlsConfig : Type 0 where
  pub ca_file : String
  pub cert_file : String
  pub key_file : String
  pub skip_verify : Bool
  pub client_auth : String

abbrev env_or : String → String → String
env_or path default = if path == "" then default else path

abbrev pub get_controller_cert_path : (String → String) → String
get_controller_cert_path getenv =
    env_or (getenv "GNMIC_TLS_CERT") "/etc/gnmic-operator/certs/tls.crt"

abbrev pub get_controller_key_path : (String → String) → String
get_controller_key_path getenv = env_or (getenv "GNMIC_TLS_KEY") "/etc/gnmic-operator/certs/tls.key"

abbrev pub get_controller_ca_path : (String → String) → String
get_controller_ca_path getenv = env_or (getenv "GNMIC_TLS_CA") "/etc/gnmic-operator/ca/ca.crt"

abbrev no_tls : TlsConfig
no_tls = record {
  ca_file = "";
  cert_file = "";
  key_file = "";
  skip_verify = false;
  client_auth = "";
}

-- The API of a pod: its certificate, and the CA of the controller, which it requires.
abbrev pub api_tls : ClusterTlsConfig → TlsConfig
api_tls tls = if tls.issuer_ref == "" then no_tls else (record no_tls {
  cert_file = "/etc/gnmic/tls/tls.crt";
  key_file = "/etc/gnmic/tls/tls.key";
  ca_file = "/etc/gnmic/controller-ca/ca.crt";
  client_auth = "require-verify";
})

abbrev of_api : Option ApiConfig → Option ClusterTlsConfig
of_api none = none
of_api (some api) = api.tls

abbrev of_tunnel : Option GrpcTunnelConfig → Option ClusterTlsConfig
of_tunnel none = none
of_tunnel (some tunnel) = tunnel.tls

abbrev when_set : {A B : Type 0} → (A → B) → Option A → Option B
when_set f none = none
when_set f (some a) = some (f a)

unfoldable pub tls_config_for_cluster_pod : ClusterSpec → Option TlsConfig
tls_config_for_cluster_pod spec = when_set api_tls (of_api spec.api)

abbrev pub tunnel_tls_of : ClusterTlsConfig → TlsConfig
tunnel_tls_of tls =
    let issued = if tls.issuer_ref == "" then no_tls else (record no_tls {
      cert_file = "/etc/gnmic/tunnel-tls/tls.crt";
      key_file = "/etc/gnmic/tunnel-tls/tls.key";
    }) in
    if tls.bundle_ref == ""
    then issued
    else (record issued { ca_file = "/etc/gnmic/tunnel-ca/ca.crt"; client_auth = "require-verify" })

unfoldable pub tunnel_server_tls_config : ClusterSpec → Option TlsConfig
tunnel_server_tls_config spec = when_set tunnel_tls_of (of_tunnel spec.grpc_tunnel)

abbrev pub client_paths_of : ClusterTlsConfig → ClientTlsPaths
client_paths_of tls = record {
  cert_file = if tls.issuer_ref == "" then "" else "/etc/gnmic/client-tls/tls.crt";
  key_file = if tls.issuer_ref == "" then "" else "/etc/gnmic/client-tls/tls.key";
  ca_file = if tls.bundle_ref == "" then "" else "/etc/gnmic/client-ca/ca.crt";
}

abbrev pub client_paths : Option ClusterTlsConfig → Option ClientTlsPaths
client_paths none = none
client_paths (some tls) = some (client_paths_of tls)

unfoldable pub client_tls_config_for_cluster : ClusterSpec → Option ClientTlsPaths
client_tls_config_for_cluster spec = client_paths spec.client_tls
