-- ===== src/Webhook/Subscription.antt =====
-- internal/webhook/v1alpha1/subscription_webhook.go: which subscriptions are admitted.
use gnmic_operator.Prelude.{not, ◌&&◌, Option, none, some, List, [], ◌++◌, length, ltb, nat_beq}
use gnmic_operator.Resources.{HistoryConfig, SubscriptionSpec}
use gnmic_operator.Webhook.Errors.{
  FieldError, required, invalid, error_if, Answer, admitted, answer_of, validate_object, below,
  has_prefix,
}

abbrev pub validate_history : Option HistoryConfig → List FieldError
validate_history none = []
validate_history (some h) =
    error_if (not (nat_beq h.start 0) && (not (nat_beq h.end 0) && ltb h.start h.end))
      (invalid "spec.history.start")

unfoldable pub validate_subscription_spec : SubscriptionSpec → Answer
unfolding has_prefix
validate_subscription_spec spec = answer_of (
    error_if (nat_beq (length spec.paths) 0 && nat_beq (length spec.stream_subscriptions) 0)
      (required "spec.paths")
    ++ error_if (ltb 0 (length spec.stream_subscriptions) && not (has_prefix spec.mode "STREAM"))
        (invalid "spec.mode")
    ++ error_if (below spec.sample_interval 0) (invalid "spec.sampleInterval")
    ++ error_if (below spec.heartbeat_interval 0) (invalid "spec.heartbeatInterval")
    ++ validate_history spec.history)

abbrev pub validate_subscription_create : Option SubscriptionSpec → Answer
validate_subscription_create = validate_object validate_subscription_spec

abbrev pub validate_subscription_update : Option SubscriptionSpec → Option SubscriptionSpec → Answer
validate_subscription_update old new = validate_object validate_subscription_spec new

abbrev pub validate_subscription_delete : Option SubscriptionSpec → Answer
validate_subscription_delete = validate_object (λ spec. admitted)
