-- ===== src/Webhook/Accepts.antt =====
-- What the admitted resources of internal/webhook/v1alpha1 promise to the controllers.
use gnmic_operator.Prelude.{
  ◌≤◌, ℤ, pos, negsuc, Bool, true, false, not, ◌&&◌, ◌||◌, some, List, [], ◌++◌, ◌≡◌, ◌≢◌, ◌⊎◌,
  refl, sym, ap, ◌∙◌, ◌==◌, string_eq, eqb_ℤ, eqb_ℤ_iff, inl, inr, if◌then◌else◌, arith,
}
use gnmic_operator.Resources.{ApiConfig, ClusterSpec}
use gnmic_operator.Webhook.Errors.{FieldError, required, invalid, error_if, is_admitted}
use gnmic_operator.Webhook.Cluster.{
  is_valid_port, validate_cluster_tls, validate_replicas, validate_gnmi_port, validate_api,
  validate_tunnel, validate_cluster_spec,
}
use gnmic_operator.Webhook.Pipeline.{PipelineSpec, some_of, validate_pipeline_spec}
use gnmic_operator.Webhook.NoErrors.{no_errors, admitted_no_errors, no_errors-append}

-- A port that can be bound.
abbrev pub InRange : ℤ → Type 0
InRange (pos p) = (1 ≤ p) × (p ≤ 65535)
InRange (negsuc p) = ⊥

-- A pipeline collects from somewhere, on a cluster, and delivers somewhere.
abbrev pub is_connected : PipelineSpec → Bool
is_connected p =
    let collects =
      (some_of p.target_selectors p.target_refs
        || some_of p.tunnel_target_policy_selectors p.tunnel_target_policy_refs) in
    not (p.cluster_ref == "")
    && ((if collects
          then some_of p.subscription_selectors p.subscription_refs
          else some_of p.input_selectors p.input_refs)
        && some_of p.output_selectors p.output_refs)

-- A pipeline is admitted exactly when it names a cluster, has an output, and collects through
-- subscriptions when it has targets or tunnel targets, and through inputs when it has neither.
pub validate_pipeline_spec_lem :
    (spec : PipelineSpec) → is_admitted (validate_pipeline_spec spec) ≡ is_connected spec
unfolding validate_pipeline_spec
validate_pipeline_spec_lem spec = ground arith

-- The ports of an API that the validator passes.
ports_of_api :
    (c : ApiConfig)
    → no_errors (validate_api (some c)) ≡ true
    → (is_valid_port c.rest_port ≡ true)
      × ((eqb_ℤ c.gnmi_port (pos 0) ≡ true)
          ⊎ ((is_valid_port c.gnmi_port ≡ true) × (eqb_ℤ c.gnmi_port c.rest_port ≡ false)))
ports_of_api c h = (
  rest (is_valid_port c.rest_port) (parts rest_test (validate_gnmi_port c) tls h).0,
  gnmi (eqb_ℤ c.gnmi_port (pos 0)) (is_valid_port c.gnmi_port) (eqb_ℤ c.gnmi_port c.rest_port)
      (parts rest_test (validate_gnmi_port c) tls h).1,
)
  where
    rest_test : List FieldError
    rest_test = error_if (not (is_valid_port c.rest_port)) (invalid "spec.api.restPort")

    tls : List FieldError
    tls = validate_cluster_tls c.tls "spec.api.tls.issuerRef"

    parts :
        (k l m : List FieldError)
        → no_errors (k ++ l ++ m) ≡ true
        → (no_errors k ≡ true) × (no_errors l ≡ true)
    parts k l m g = (
      ground (arith, g, no_errors-append (k ++ l) m, no_errors-append k l),
      ground (arith, g, no_errors-append (k ++ l) m, no_errors-append k l),
    )

    rest : (b : Bool) → no_errors (error_if (not b) (invalid "spec.api.restPort")) ≡ true → b ≡ true
    rest true g = refl
    rest false g = absurd (ground arith)

    gnmi :
        (zero_port valid same : Bool)
        → no_errors (
            if zero_port
            then []
            else error_if (not valid) (invalid "spec.api.gnmiPort")
              ++ error_if same (invalid "spec.api.gnmiPort"))
          ≡ true
        → (zero_port ≡ true) ⊎ ((valid ≡ true) × (same ≡ false))
    gnmi true v s g = inl refl
    gnmi false true false g = inr (refl, refl)
    gnmi false true true g = absurd (ground arith)
    gnmi false false s g = absurd (ground arith)

InRange-is_valid_port : (p : ℤ) → is_valid_port p ≡ true → InRange p
InRange-is_valid_port (pos p) h = (ground arith, ground arith)
InRange-is_valid_port (negsuc p) h = absurd (ground arith)

no_errors_api :
    (spec : ClusterSpec)
    → is_admitted (validate_cluster_spec spec) ≡ true
    → no_errors (validate_api spec.api) ≡ true
unfolding validate_cluster_spec
no_errors_api spec h =
    let later =
      validate_cluster_tls spec.client_tls "spec.clientTLS.issuerRef"
      ++ validate_tunnel spec.grpc_tunnel in
    let replicas = validate_replicas spec.replicas in
    let image = error_if (spec.image == "") (required "spec.image") in
    ground (
      arith,
      h,
      admitted_no_errors (
          image
          ++ replicas
          ++ validate_api spec.api
          ++ validate_cluster_tls spec.client_tls "spec.clientTLS.issuerRef"
          ++ validate_tunnel spec.grpc_tunnel),
      no_errors-append
          (image
            ++ replicas
            ++ validate_api spec.api
            ++ validate_cluster_tls spec.client_tls "spec.clientTLS.issuerRef")
          (validate_tunnel spec.grpc_tunnel),
      no_errors-append (image ++ replicas ++ validate_api spec.api)
          (validate_cluster_tls spec.client_tls "spec.clientTLS.issuerRef"),
      no_errors-append (image ++ replicas) (validate_api spec.api),
    )

-- The REST port of an admitted cluster's API is a port, and its gNMI port is not set or another port.
pub validate_cluster_spec-InRange :
    (spec : ClusterSpec) (c : ApiConfig)
    → spec.api ≡ some c
    → is_admitted (validate_cluster_spec spec) ≡ true
    → InRange c.rest_port
      × ((c.gnmi_port ≡ pos 0) ⊎ (InRange c.gnmi_port × (c.gnmi_port ≢ c.rest_port)))
validate_cluster_spec-InRange spec c e h =
    let ports =
      ports_of_api c (ap (λ o. no_errors (validate_api o)) (sym e) ∙ no_errors_api spec h) in
    (InRange-is_valid_port c.rest_port ports.0, gnmi ports.1)
  where
    gnmi :
        (eqb_ℤ c.gnmi_port (pos 0) ≡ true)
          ⊎ ((is_valid_port c.gnmi_port ≡ true) × (eqb_ℤ c.gnmi_port c.rest_port ≡ false))
        → (c.gnmi_port ≡ pos 0) ⊎ (InRange c.gnmi_port × (c.gnmi_port ≢ c.rest_port))
    gnmi (inl z) = inl ((eqb_ℤ_iff c.gnmi_port (pos 0)).0 z)
    gnmi (inr v) = inr (
      InRange-is_valid_port c.gnmi_port v.0,
      λ p. ground (arith, v.1, (eqb_ℤ_iff c.gnmi_port c.rest_port).1 p),
    )
