-- ===== src/Webhook/Errors.antt =====
-- What the validators of internal/webhook/v1alpha1 share: errors of fields, and the three requests.
use gnmic_operator.Prelude.{
  ℕ, ℤ, pos, negsuc, String, Bool, true, false, Option, none, some, List, [], ◌∷◌, ltb, nat_beq,
  ◌&&◌,
}
use gnmic_operator.Prelude.Text.{bytes}

-- field.Required and field.Invalid, with the path of the field.
pub data FieldError : Type 0 where
  required invalid : String → FieldError

-- One test of a validator: its error is added when the condition holds.
abbrev pub error_if : Bool → FieldError → List FieldError
error_if true e = e ∷ []
error_if false e = []

-- The answer to a request: admitted, rejected with the errors, or an object of another kind.
pub data Answer : Type 0 where
  admitted wrong_kind : Answer
  rejected : List FieldError → Answer

-- `nil` when the list of errors is empty, else NewInvalid
abbrev pub answer_of : List FieldError → Answer
answer_of [] = admitted
answer_of (e ∷ es) = rejected (e ∷ es)

abbrev pub is_admitted : Answer → Bool
is_admitted admitted = true
is_admitted _ = false

-- A request carries an object; `none` is an object of another kind.
abbrev pub validate_object : {S : Type 0} → (S → Answer) → Option S → Answer
validate_object validate none = wrong_kind
validate_object validate (some spec) = validate spec

-- n < b for a literal b
abbrev pub below : ℤ → ℕ → Bool
below (pos n) b = ltb n b
below (negsuc n) b = true

abbrev pub above : ℤ → ℕ → Bool
above (pos n) b = ltb b n
above (negsuc n) b = false

-- strings.HasPrefix
abbrev pub is_prefix : List ℕ → List ℕ → Bool
is_prefix [] bs = true
is_prefix (a ∷ rest) [] = false
is_prefix (a ∷ rest) (b ∷ bs) = nat_beq a b && is_prefix rest bs

unfoldable pub has_prefix : String → String → Bool
unfolding bytes
has_prefix s prefix = is_prefix (bytes prefix) (bytes s)
