-- ===== src/Webhook/Usable.antt =====
-- Which subscriptions and which target profiles internal/webhook/v1alpha1 admits.
use gnmic_operator.Prelude.{
  ltb, leb, nat_beq, length, contains, String, none, ℤ, pos, negsuc, Bool, true, false, not, ◌&&◌,
  Option, some, [], ◌∷◌, ◌≡◌, refl, string_eq, if◌then◌else◌, arith,
}
use gnmic_operator.Resources.{
  HistoryConfig, SubscriptionSpec, TargetTlsConfig, GrpcKeepAliveConfig, TargetProfileSpec,
}
use gnmic_operator.Webhook.Errors.{is_admitted, below, has_prefix}
use gnmic_operator.Webhook.Subscription.{validate_history, validate_subscription_spec}

-- A history that has a start and an end.
abbrev pub is_bounded : Option HistoryConfig → Bool
is_bounded none = false
is_bounded (some h) = ltb 0 h.start && ltb 0 h.end

abbrev not_negative : ℤ → Bool
not_negative (pos n) = true
not_negative (negsuc n) = false

-- A subscription collects its own paths, or the stream subscriptions that it lists.
abbrev pub is_collecting : SubscriptionSpec → Bool
is_collecting spec =
    (if nat_beq (length spec.stream_subscriptions) 0
      then not (nat_beq (length spec.paths) 0)
      else has_prefix spec.mode "STREAM")
    && (not_negative spec.sample_interval && not_negative spec.heartbeat_interval)

below_zero : (d : ℤ) → below d 0 ≡ not (not_negative d)
below_zero (pos n) = ground arith
below_zero (negsuc n) = refl

validate_history_open : (o : Option HistoryConfig) → is_bounded o ≡ false → validate_history o ≡ []
validate_history_open none h = refl
validate_history_open (some g) h = ground arith

-- A subscription whose history does not have both a start and an end is admitted by the validator
-- exactly when no interval is negative and it has paths and no stream subscriptions, or stream
-- subscriptions and a mode that starts with STREAM.
pub validate_subscription_spec_lem :
    (spec : SubscriptionSpec)
    → is_bounded spec.history ≡ false
    → is_admitted (validate_subscription_spec spec) ≡ is_collecting spec
unfolding validate_subscription_spec
validate_subscription_spec_lem spec h =
    rw (validate_history_open spec.history h)
      (ground (arith, below_zero spec.sample_interval, below_zero spec.heartbeat_interval))

-- The durations are at least a second, and the encoding and the TLS versions are known ones.
abbrev at_least_second : ℤ → Bool
at_least_second (pos n) = leb 1000000000 n
at_least_second (negsuc n) = false

abbrev is_version : String → Bool
is_version = contains ("" ∷ "1.1" ∷ "1.2" ∷ "1.3" ∷ [])

abbrev keep_tcp : Option ℤ → Bool
keep_tcp none = true
keep_tcp (some d) = at_least_second d

abbrev keep_grpc : Option GrpcKeepAliveConfig → Bool
keep_grpc none = true
keep_grpc (some k) = at_least_second k.time && at_least_second k.timeout

abbrev tls_versions : Option TargetTlsConfig → Bool
tls_versions none = true
tls_versions (some tls) = is_version tls.min_version && is_version tls.max_version

abbrev pub is_usable : TargetProfileSpec → Bool
is_usable spec =
    contains ("JSON" ∷ "BYTES" ∷ "PROTO" ∷ "ASCII" ∷ "JSON_IETF" ∷ []) spec.encoding
    && (tls_versions spec.tls
        && (at_least_second spec.timeout
            && (at_least_second spec.retry_timer
                && (keep_tcp spec.tcp_keep_alive && keep_grpc spec.grpc_keep_alive))))
