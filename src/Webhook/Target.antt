-- ===== src/Webhook/Target.antt =====
-- internal/webhook/v1alpha1/target_webhook.go and tunneltargetpolicy_webhook.go: which targets and which
-- policies for tunnel targets are admitted. net.SplitHostPort and regexp.Compile are parameters; `none`
-- and `false` are their errors.
use gnmic_operator.Prelude.{
  ◌^◌, ℤ, pos, negsuc, leb, String, Bool, true, false, refl, not, ◌&&◌, Option, none, some, List,
  [], ◌++◌, ◌==◌, string_eq, if◌then◌else◌, ◌≡◌, arith,
}
use gnmic_operator.Prelude.Parse.{parse_int}
use gnmic_operator.Resources.{Target, TunnelMatch, TunnelTargetPolicySpec}
use gnmic_operator.Webhook.Errors.{
  FieldError, required, invalid, error_if, Answer, admitted, answer_of, is_admitted,
  validate_object,
}
use gnmic_operator.Webhook.Cluster.{is_valid_port}

abbrev pub bad_port : Option ℤ → Bool
bad_port none = true
bad_port (some port) = not (is_valid_port port)

abbrev pub validate_parts : Option (String × String) → List FieldError
validate_parts none = error_if true (invalid "spec.address")
validate_parts (some (host, port_str)) =
    error_if (host == "") (invalid "spec.address")
    ++ error_if (bad_port (parse_int (2 ^ 63) port_str)) (invalid "spec.address")

module _ (split_host_port : String → Option (String × String)) where
  abbrev pub validate_address : String → List FieldError
  validate_address address =
      if address == ""
      then error_if true (required "spec.address")
      else validate_parts (split_host_port address)

  unfoldable pub validate_target_spec : Target → Answer
  unfolding parse_int
  validate_target_spec spec =
      answer_of
        (validate_address spec.address ++ error_if (spec.profile == "") (required "spec.profile"))

  abbrev pub validate_target_create : Option Target → Answer
  validate_target_create = validate_object validate_target_spec

  abbrev pub validate_target_update : Option Target → Option Target → Answer
  validate_target_update old new = validate_object validate_target_spec new

  abbrev pub validate_target_delete : Option Target → Answer
  validate_target_delete = validate_object (λ spec. admitted)

module _ (is_regex : String → Bool) where
  abbrev pub validate_match : Option TunnelMatch → List FieldError
  validate_match none = []
  validate_match (some m) =
      error_if (not (m.type == "") && not (is_regex m.type)) (invalid "spec.match.type")
      ++ error_if (not (m.id == "") && not (is_regex m.id)) (invalid "spec.match.id")

  unfoldable pub validate_policy_spec : TunnelTargetPolicySpec → Answer
  validate_policy_spec spec =
      answer_of
        (error_if (spec.profile == "") (required "spec.profile") ++ validate_match spec.match_on)

  abbrev pub validate_policy_create : Option TunnelTargetPolicySpec → Answer
  validate_policy_create = validate_object validate_policy_spec

  abbrev pub validate_policy_update :
      Option TunnelTargetPolicySpec → Option TunnelTargetPolicySpec → Answer
  validate_policy_update old new = validate_object validate_policy_spec new

  abbrev pub validate_policy_delete : Option TunnelTargetPolicySpec → Answer
  validate_policy_delete = validate_object (λ spec. admitted)

-- A number that a port can have.
abbrev is_port_number : Option ℤ → Bool
is_port_number none = false
is_port_number (some (negsuc n)) = false
is_port_number (some (pos n)) = leb 1 n && leb n 65535

is_port_number-bad_port : (o : Option ℤ) → is_port_number o ≡ not (bad_port o)
is_port_number-bad_port none = refl
is_port_number-bad_port (some (negsuc n)) = ground arith
is_port_number-bad_port (some (pos n)) = ground arith

-- The address has a host, and a port from 1 to 65535 written as a number.
abbrev pub is_host_port : Option (String × String) → Bool
is_host_port none = false
is_host_port (some (host, port_str)) =
    not (host == "") && is_port_number (parse_int (2 ^ 63) port_str)

-- A target is admitted exactly when it names a profile and has an address that splits into a host that is
-- not empty and the number of a port, from 1 to 65535.
pub validate_target_spec_lem :
    (split_host_port : String → Option (String × String)) (spec : Target)
    → is_admitted (validate_target_spec split_host_port spec) ≡ (
        not (spec.address == "")
        && (is_host_port (split_host_port spec.address) && not (spec.profile == "")))
unfolding validate_target_spec
validate_target_spec_lem split spec =
    go (spec.address == "") (split spec.address) (spec.profile == "")
  where
    errors : Bool → Option (String × String) → List FieldError
    errors empty parts =
        if empty then error_if true (required "spec.address") else validate_parts parts

    go :
        (empty : Bool) (parts : Option (String × String)) (unnamed : Bool)
        → is_admitted (answer_of (errors empty parts ++ error_if unnamed (required "spec.profile")))
          ≡ (not empty && (is_host_port parts && not unnamed))
    go true parts unnamed = refl
    go false none unnamed = refl
    go false (some (host, port)) unnamed =
        ports (host == "") (bad_port (parse_int (2 ^ 63) port)) unnamed
          (is_port_number (parse_int (2 ^ 63) port))
          (is_port_number-bad_port (parse_int (2 ^ 63) port))
      where
        ports :
            (a b c d : Bool)
            → d ≡ not b
            → is_admitted (
                answer_of (
                  error_if a (invalid "spec.address")
                  ++ error_if b (invalid "spec.address")
                  ++ error_if c (required "spec.profile")))
              ≡ ((not a && d) && not c)
        ports a b c d h = ground arith
