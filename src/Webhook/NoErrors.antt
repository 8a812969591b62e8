-- ===== src/Webhook/NoErrors.antt =====
-- When a list of errors of internal/webhook/v1alpha1 rejects a request.
use gnmic_operator.Prelude.{Bool, true, false, ◌&&◌, List, [], ◌∷◌, ◌++◌, ◌≡◌, refl, string_eq}
use gnmic_operator.Webhook.Errors.{FieldError, answer_of, is_admitted}

abbrev pub no_errors : List FieldError → Bool
no_errors [] = true
no_errors (e ∷ es) = false

pub admitted_no_errors : (l : List FieldError) → is_admitted (answer_of l) ≡ no_errors l
admitted_no_errors [] = refl
admitted_no_errors (e ∷ es) = refl

pub no_errors-append : (l m : List FieldError) → no_errors (l ++ m) ≡ (no_errors l && no_errors m)
no_errors-append [] m = refl
no_errors-append (e ∷ l) m = refl
