-- ===== src/Plan/Current.antt =====
-- The pod that collects a target now: findTargetCurrentAssignment of internal/gnmic/plan.go reads it from
-- the name of the pod that the target state controller records.
use text.Mathlib.TextEquality.{eq_iff}
use gnmic_operator.Prelude.{
  ℕ, ◌^◌, ◌<◌, ℤ, pos, String, Option, none, some, ◌≡◌, refl, sym, ap, ◌∙◌, Bool-cases, inl, inr,
  ◌==◌, string_eq, if◌then◌else◌, arith,
}
use gnmic_operator.Prelude.Text.{itoa, ◌<>◌}
use gnmic_operator.Prelude.Parse.{
  after_last, after_last-append, after_last-itoa, parse_int, parse_int-itoa, one_char,
}

-- The name of a pod of a stateful set, as runStream and removeStalePodsFromTargets of
-- internal/controller/targetstate_controller.go write it.
unfoldable pub pod_name : String → ℕ → String
pod_name sts_name i = sts_name <> "-" <> itoa i

abbrev or_empty : Option String → String
or_empty none = ""
or_empty (some s) = s

-- The index after the last dash; an int has 64 bits.
unfoldable pub find_target_current_assignment : String → Option ℤ
find_target_current_assignment pod_id =
    if pod_id == "" then none else parse_int (2 ^ 63) (or_empty (after_last 45 pod_id))

after_last-pod_name :
    (sts_name : String) (i : ℕ) → after_last 45 (pod_name sts_name i) ≡ some (itoa i)
unfolding pod_name
after_last-pod_name sts_name i =
    ap (λ t. after_last 45 (sts_name <> t)) (one_char "-" (itoa i))
    ∙ after_last-append 45 "-" sts_name (itoa i) refl (after_last-itoa i)

-- The index of a pod is read back from the name under which the pod is recorded.
pub find_target_current_assignment-pod_name :
    (sts_name : String) (i : ℕ)
    → i < 2 ^ 63
    → find_target_current_assignment (pod_name sts_name i) ≡ some (pos i)
unfolding find_target_current_assignment after_last
find_target_current_assignment-pod_name sts_name i h =
    elim (Bool-cases (pod_name sts_name i == "")) [
      | inl empty ↦
          let is : pod_name sts_name i ≡ "" = ground (arith, eq_iff (pod_name sts_name i) "") in
          absurd (ground (arith, ap (after_last 45) (sym is) ∙ after_last-pod_name sts_name i))
      | inr named ↦ rw named (
          ap (λ o. parse_int (2 ^ 63) (or_empty o)) (after_last-pod_name sts_name i)
          ∙ parse_int-itoa (2 ^ 63) i h)
    ]
