-- ===== src/Webhook/Pipeline.antt =====
-- internal/webhook/v1alpha1/pipeline_webhook.go: which pipelines are admitted. The selectors and the
-- references are their numbers, since only their presence is tested.
use gnmic_operator.Prelude.{
  ℕ, String, Bool, not, ◌&&◌, ◌||◌, Option, [], ◌++◌, ltb, ◌==◌, string_eq, if◌then◌else◌,
}
use gnmic_operator.Webhook.Errors.{required, error_if, Answer, admitted, answer_of, validate_object}

pub record PipelineSpec : Type 0 where
  pub cluster_ref : String
  pub target_selectors : ℕ
  pub target_refs : ℕ
  pub tunnel_target_policy_selectors : ℕ
  pub tunnel_target_policy_refs : ℕ
  pub subscription_selectors : ℕ
  pub subscription_refs : ℕ
  pub output_selectors : ℕ
  pub output_refs : ℕ
  pub input_selectors : ℕ
  pub input_refs : ℕ

abbrev pub some_of : ℕ → ℕ → Bool
some_of selectors refs = ltb 0 selectors || ltb 0 refs

unfoldable pub validate_pipeline_spec : PipelineSpec → Answer
validate_pipeline_spec spec =
    let has_targets = some_of spec.target_selectors spec.target_refs in
    let has_tunnel_targets =
      some_of spec.tunnel_target_policy_selectors spec.tunnel_target_policy_refs in
    let has_inputs = some_of spec.input_selectors spec.input_refs in
    let has_subscriptions = some_of spec.subscription_selectors spec.subscription_refs in
    let has_outputs = some_of spec.output_selectors spec.output_refs in
    answer_of (
      error_if (spec.cluster_ref == "") (required "spec.clusterRef")
      ++ error_if (not has_targets && (not has_tunnel_targets && not has_inputs)) (required "spec")
      ++ (if has_targets || has_tunnel_targets
          then error_if (not has_subscriptions) (required "spec")
          else [])
      ++ error_if (not has_outputs) (required "spec.outputs"))

abbrev pub validate_pipeline_create : Option PipelineSpec → Answer
validate_pipeline_create = validate_object validate_pipeline_spec

abbrev pub validate_pipeline_update : Option PipelineSpec → Option PipelineSpec → Answer
validate_pipeline_update old new = validate_object validate_pipeline_spec new

abbrev pub validate_pipeline_delete : Option PipelineSpec → Answer
validate_pipeline_delete = validate_object (λ spec. admitted)
