-- ===== src/Plan/Secured.antt =====
-- How gnmic connects to targets: internal/gnmic/target.go, tunneltarget.go and tls.go together.
use gnmic_operator.Prelude.{
  ℤ, pos, String, Bool, true, false, not, Option, none, some, ◌==◌, string_eq, ◌≡◌, refl, ap, ◌∙◌,
  if◌then◌else◌,
}
use gnmic_operator.Resources.{
  ClusterTlsConfig, ClusterSpec, TargetTlsConfig, TargetProfileSpec, Target, TunnelTargetPolicySpec,
  GrpcKeepAliveConfig,
}
use gnmic_operator.Plan.Target.{
  Credentials, ClientTlsPaths, TargetConfig, set_credentials, set_tcp_keepalive, set_grpc_keepalive,
  target_tls, build_target_config, build_tunnel_target_match,
}
use gnmic_operator.Plan.Tls.{client_paths, client_paths_of, client_tls_config_for_cluster}

-- A configuration without the name, the address and the keepalives.
abbrev pub anonymous : TargetConfig → TargetConfig
anonymous c = record c { name = ""; address = ""; tcp_keepalive = pos 0; grpc_keepalive = none }

-- A tunnel target gets the configuration that a target with the same profile, credentials and client
-- certificate gets, without a name, an address and keepalives.
pub build_tunnel_target_match-config :
    (target : Target) (policy : TunnelTargetPolicySpec) (profile : TargetProfileSpec)
    (creds : Option Credentials) (client_tls : Option ClientTlsPaths)
    → (build_tunnel_target_match policy (some profile) creds client_tls).config
      ≡ some (anonymous (build_target_config target profile creds client_tls))
unfolding build_tunnel_target_match build_target_config
build_tunnel_target_match-config target policy profile creds client_tls =
    go creds client_tls profile.tls profile.tcp_keep_alive profile.grpc_keep_alive
  where
    with_options :
        Option TargetTlsConfig → Option ℤ → Option GrpcKeepAliveConfig → TargetProfileSpec
    with_options tls tcp grpc = record profile {
      tls = tls;
      tcp_keep_alive = tcp;
      grpc_keep_alive = grpc;
    }

    go :
        (creds : Option Credentials) (client_tls : Option ClientTlsPaths)
        (tls : Option TargetTlsConfig) (tcp : Option ℤ) (grpc : Option GrpcKeepAliveConfig)
        → (build_tunnel_target_match policy
            (some (with_options tls tcp grpc))
            creds
            client_tls).config
          ≡ some
              (anonymous (build_target_config target (with_options tls tcp grpc) creds client_tls))
    go none none none tcp grpc = refl
    go (some c) none none tcp grpc = refl
    go none none (some t) tcp grpc = refl
    go (some c) none (some t) tcp grpc = refl
    go none (some p) none tcp grpc = refl
    go (some c) (some p) none tcp grpc = refl
    go none (some p) (some t) none none = refl
    go none (some p) (some t) (some d) none = refl
    go none (some p) (some t) none (some k) = refl
    go none (some p) (some t) (some d) (some k) = refl
    go (some c) (some p) (some t) none none = refl
    go (some c) (some p) (some t) (some d) none = refl
    go (some c) (some p) (some t) none (some k) = refl
    go (some c) (some p) (some t) (some d) (some k) = refl

-- The cluster names a bundle of trusted certificates for targets.
abbrev pub has_bundle : Option ClusterTlsConfig → Bool
has_bundle none = false
has_bundle (some tls) = not (tls.bundle_ref == "")

abbrev pub no_tls_at_all : Option ClusterTlsConfig → Option TargetTlsConfig → Bool
no_tls_at_all none none = true
no_tls_at_all none (some t) = false
no_tls_at_all (some c) tls = false

abbrev pub is_off : Option Bool → Bool
is_off none = false
is_off (some on) = not on

abbrev pub is_on : Option Bool → Bool
is_on none = false
is_on (some on) = on

set_grpc-flags :
    (o : Option GrpcKeepAliveConfig) (config : TargetConfig)
    → ((set_grpc_keepalive o config).skip_verify ≡ config.skip_verify)
      × ((set_grpc_keepalive o config).insecure ≡ config.insecure)
set_grpc-flags none config = (refl, refl)
set_grpc-flags (some k) config = (refl, refl)

set_tcp-flags :
    (o : Option ℤ) (config : TargetConfig)
    → ((set_tcp_keepalive o config).skip_verify ≡ config.skip_verify)
      × ((set_tcp_keepalive o config).insecure ≡ config.insecure)
set_tcp-flags none config = (refl, refl)
set_tcp-flags (some d) config = (refl, refl)

-- With a client certificate, the CA of the cluster decides, whatever the profile says.
client_tls-flags :
    (paths : ClientTlsPaths) (tls : Option TargetTlsConfig) (profile : TargetProfileSpec)
    (config : TargetConfig)
    → ((target_tls (some paths) tls profile config).skip_verify
        ≡ (if paths.ca_file == "" then some true else some false))
      × ((target_tls (some paths) tls profile config).insecure ≡ config.insecure)
client_tls-flags paths none profile config = (refl, refl)
client_tls-flags paths (some tls) profile config = (
  (set_grpc-flags profile.grpc_keep_alive _).0 ∙ (set_tcp-flags profile.tcp_keep_alive _).0,
  (set_grpc-flags profile.grpc_keep_alive _).1 ∙ (set_tcp-flags profile.tcp_keep_alive _).1,
)

set_credentials-insecure :
    (creds : Option Credentials) (config : TargetConfig)
    → ((set_credentials creds config).insecure ≡ config.insecure)
      × ((set_credentials creds config).skip_verify ≡ config.skip_verify)
set_credentials-insecure none config = (refl, refl)
set_credentials-insecure (some c) config = (refl, refl)

-- Flags of a configuration in which none was set before.
secured :
    (client_tls : Option ClusterTlsConfig) (tls : Option TargetTlsConfig)
    (profile : TargetProfileSpec) (creds : Option Credentials) (config : TargetConfig)
    → config.insecure ≡ none
    → config.skip_verify ≡ none
    → (is_off
          (target_tls
            (client_paths client_tls)
            tls
            profile
            (set_credentials creds config)).skip_verify
        ≡ has_bundle client_tls)
      × (is_on
            (target_tls
              (client_paths client_tls)
              tls
              profile
              (set_credentials creds config)).insecure
          ≡ no_tls_at_all client_tls tls)
secured none none profile creds config h g =
    (ap is_off ((set_credentials-insecure creds config).1 ∙ g), refl)
secured none (some t) profile creds config h g =
    (refl, ap is_on ((set_credentials-insecure creds config).0 ∙ h))
secured (some k) tls profile creds config h g = (
  ap is_off (client_tls-flags (client_paths_of k) tls profile (set_credentials creds config)).0
      ∙ verified (k.bundle_ref == ""),
  ap is_on (
      (client_tls-flags (client_paths_of k) tls profile (set_credentials creds config)).1
      ∙ (set_credentials-insecure creds config).0
      ∙ h),
)
  where
    ca : Bool → String
    ca unset = if unset then "" else "/etc/gnmic/client-ca/ca.crt"

    verified :
        (unset : Bool) → is_off (if ca unset == "" then some true else some false) ≡ not unset
    verified true = refl
    verified false = refl

-- gnmic verifies the certificate of a target exactly when the cluster names a bundle of certificates,
-- and it does without TLS exactly when neither the cluster nor the profile asks for TLS.
pub build_target_config-secured :
    (spec : ClusterSpec) (target : Target) (profile : TargetProfileSpec)
    (creds : Option Credentials)
    → (is_off
          (build_target_config target profile creds
            (client_tls_config_for_cluster spec)).skip_verify
        ≡ has_bundle spec.client_tls)
      × (is_on
            (build_target_config target profile creds (client_tls_config_for_cluster spec)).insecure
          ≡ no_tls_at_all spec.client_tls profile.tls)
unfolding build_target_config client_tls_config_for_cluster
build_target_config-secured spec target profile creds =
    secured spec.client_tls profile.tls profile creds _ refl refl
