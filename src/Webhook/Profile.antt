-- ===== src/Webhook/Profile.antt =====
-- internal/webhook/v1alpha1/targetprofile_webhook.go: which target profiles are admitted. A duration is
-- in nanoseconds.
use gnmic_operator.Prelude.{
  ℕ, ℤ, String, not, Option, none, some, List, [], ◌∷◌, ◌++◌, contains, string_eq,
}
use gnmic_operator.Resources.{TargetTlsConfig, GrpcKeepAliveConfig, TargetProfileSpec}
use gnmic_operator.Webhook.Errors.{
  FieldError, invalid, error_if, Answer, admitted, answer_of, validate_object, below,
}

-- 1*time.Second
abbrev pub second : ℕ
second = 1000000000

abbrev encodings : List String
encodings = "JSON" ∷ "BYTES" ∷ "PROTO" ∷ "ASCII" ∷ "JSON_IETF" ∷ []

abbrev versions : List String
versions = "" ∷ "1.1" ∷ "1.2" ∷ "1.3" ∷ []

abbrev pub validate_profile_tls : Option TargetTlsConfig → List FieldError
validate_profile_tls none = []
validate_profile_tls (some tls) =
    error_if (not (contains versions tls.max_version)) (invalid "spec.tls.maxVersion")
    ++ error_if (not (contains versions tls.min_version)) (invalid "spec.tls.minVersion")

abbrev pub validate_tcp_keep_alive : Option ℤ → List FieldError
validate_tcp_keep_alive none = []
validate_tcp_keep_alive (some d) = error_if (below d second) (invalid "spec.tcpKeepAlive.duration")

abbrev pub validate_grpc_keep_alive : Option GrpcKeepAliveConfig → List FieldError
validate_grpc_keep_alive none = []
validate_grpc_keep_alive (some k) =
    error_if (below k.time second) (invalid "spec.grpcKeepAlive.time.duration")
    ++ error_if (below k.timeout second) (invalid "spec.grpcKeepAlive.timeout")

unfoldable pub validate_target_profile_spec : TargetProfileSpec → List FieldError
validate_target_profile_spec spec =
    error_if (below spec.timeout second) (invalid "spec.timeout")
    ++ (error_if (below spec.retry_timer second) (invalid "spec.retryTimer")
        ++ (error_if (not (contains encodings spec.encoding)) (invalid "spec.encoding")
            ++ (validate_profile_tls spec.tls
                ++ (validate_tcp_keep_alive spec.tcp_keep_alive
                    ++ validate_grpc_keep_alive spec.grpc_keep_alive))))

-- Nothing is tested when a profile is created.
abbrev pub validate_profile_create : Option TargetProfileSpec → Answer
validate_profile_create = validate_object (λ spec. admitted)

abbrev pub validate_profile_update : Option TargetProfileSpec → Option TargetProfileSpec → Answer
validate_profile_update old new =
    validate_object (λ spec. answer_of (validate_target_profile_spec spec)) new

-- The errors of the spec also reject the deletion.
abbrev pub validate_profile_delete : Option TargetProfileSpec → Answer
validate_profile_delete = validate_object (λ spec. answer_of (validate_target_profile_spec spec))
