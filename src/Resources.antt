-- ===== src/Resources.antt =====
-- The resources of api/v1alpha1 that the plan is built from and that the webhooks check. A duration is in
-- nanoseconds; a time counts them from the zero time. A raw configuration is a text of a type `R` of its
-- own, `none` when it is nil. Labels, the proxy, the compression of a profile, the suppression of
-- subscriptions and the services of an output are read by no code that is modelled.
use gnmic_operator.Prelude.{ℕ, ℤ, String, Bool, Option, List}
use gnmic_operator.Prelude.Dict.{Dict}

pub record TargetTlsConfig : Type 0 where
  pub server_name : String
  pub max_version : String
  pub min_version : String
  pub cipher_suites : List String

pub record GrpcKeepAliveConfig : Type 0 where
  pub time : ℤ
  pub timeout : ℤ
  pub permit_without_stream : Bool

pub record TargetProfileSpec : Type 0 where
  pub credentials_ref : String
  pub tls : Option TargetTlsConfig
  pub timeout : ℤ
  pub retry_timer : ℤ
  pub encoding : String
  pub tcp_keep_alive : Option ℤ
  pub grpc_keep_alive : Option GrpcKeepAliveConfig

pub record HistoryConfig : Type 0 where
  pub snapshot : ℕ
  pub start : ℕ
  pub end : ℕ

pub record SubscriptionSpec : Type 0 where
  pub prefix : String
  pub target : String
  pub paths : List String
  pub mode : String
  pub sample_interval : ℤ
  pub heartbeat_interval : ℤ
  pub updates_only : Bool
  pub stream_subscriptions : List String
  pub depth : ℕ
  pub encoding : String
  pub qos : Option ℕ
  pub history : Option HistoryConfig

-- A target with the pods that collect it, by the name of their cluster.
pub record Target : Type 0 where
  pub namespace : String
  pub name : String
  pub address : String
  pub profile : String
  pub cluster_pods : Dict String String

pub record TunnelMatch : Type 0 where
  pub type : String
  pub id : String

pub record TunnelTargetPolicySpec : Type 0 where
  pub match_on : Option TunnelMatch
  pub profile : String

-- OutputSpec, InputSpec and ProcessorSpec have these two fields.
pub record ComponentSpec (R : Type 0) : Type 0 where
  pub type : String
  pub config : Option R

pub record ClusterTlsConfig : Type 0 where
  pub issuer_ref : String
  pub bundle_ref : String

pub record ApiConfig : Type 0 where
  pub rest_port : ℤ
  pub gnmi_port : ℤ
  pub tls : Option ClusterTlsConfig

pub record GrpcTunnelConfig : Type 0 where
  pub port : ℤ
  pub tls : Option ClusterTlsConfig

pub record ClusterSpec : Type 0 where
  pub image : String
  pub replicas : Option ℤ
  pub api : Option ApiConfig
  pub client_tls : Option ClusterTlsConfig
  pub grpc_tunnel : Option GrpcTunnelConfig
