-- ===== src/Webhook/Cluster.antt =====
-- internal/webhook/v1alpha1/cluster_webhook.go: which clusters are admitted.
use gnmic_operator.Prelude.{
  ℤ, pos, String, Bool, not, ◌&&◌, Option, none, some, List, [], ◌++◌, ◌==◌, string_eq, eqb_ℤ,
  if◌then◌else◌,
}
use gnmic_operator.Resources.{ClusterTlsConfig, ApiConfig, GrpcTunnelConfig, ClusterSpec}
use gnmic_operator.Webhook.Errors.{
  FieldError, required, invalid, error_if, Answer, admitted, answer_of, validate_object, below,
  above,
}

abbrev pub is_valid_port : ℤ → Bool
is_valid_port port = not (below port 1) && not (above port 65535)

abbrev pub validate_cluster_tls : Option ClusterTlsConfig → String → List FieldError
validate_cluster_tls none path = []
validate_cluster_tls (some tls) path = error_if (tls.issuer_ref == "") (required path)

abbrev pub validate_replicas : Option ℤ → List FieldError
validate_replicas none = []
validate_replicas (some n) = error_if (below n 1) (invalid "spec.replicas")

abbrev pub validate_gnmi_port : ApiConfig → List FieldError
validate_gnmi_port c =
    if eqb_ℤ c.gnmi_port (pos 0)
    then []
    else error_if (not (is_valid_port c.gnmi_port)) (invalid "spec.api.gnmiPort")
      ++ error_if (eqb_ℤ c.gnmi_port c.rest_port) (invalid "spec.api.gnmiPort")

abbrev pub validate_api : Option ApiConfig → List FieldError
validate_api none = []
validate_api (some c) =
    error_if (not (is_valid_port c.rest_port)) (invalid "spec.api.restPort")
    ++ validate_gnmi_port c
    ++ validate_cluster_tls c.tls "spec.api.tls.issuerRef"

abbrev pub validate_tunnel : Option GrpcTunnelConfig → List FieldError
validate_tunnel none = []
validate_tunnel (some t) =
    error_if (not (is_valid_port t.port)) (invalid "spec.grpcTunnel.port")
    ++ validate_cluster_tls t.tls "spec.grpcTunnel.tls.issuerRef"

unfoldable pub validate_cluster_spec : ClusterSpec → Answer
validate_cluster_spec spec = answer_of (
    error_if (spec.image == "") (required "spec.image")
    ++ validate_replicas spec.replicas
    ++ validate_api spec.api
    ++ validate_cluster_tls spec.client_tls "spec.clientTLS.issuerRef"
    ++ validate_tunnel spec.grpc_tunnel)

abbrev pub validate_cluster_create : Option ClusterSpec → Answer
validate_cluster_create = validate_object validate_cluster_spec

abbrev pub validate_cluster_update : Option ClusterSpec → Option ClusterSpec → Answer
validate_cluster_update old new = validate_object validate_cluster_spec new

abbrev pub validate_cluster_delete : Option ClusterSpec → Answer
validate_cluster_delete = validate_object (λ spec. admitted)
