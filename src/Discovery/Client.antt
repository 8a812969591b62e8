-- ===== src/Discovery/Client.antt =====
-- internal/controller/discovery/client.go: the calls of the Kubernetes API. The API server and
-- client-go are not part of the repository: they are the parameter `Api W`, over a world `W` that
-- also holds the clock and the cancellation of the context, which the code polls.
use gnmic_operator.Prelude.{ℕ, String, Bool, true, false, Option, none, List, [], ◌∷◌, string_eq}
use gnmic_operator.Prelude.Dict.{Dict}
use gnmic_operator.Discovery.Types.{Target, TargetSource}
use gnmic_operator.Discovery.Mapper.{label_target_source_name}

-- The results of a read: `failed` is any error but NotFound.
pub data Fetched {ℓ} (A : Type ℓ) : Type ℓ where
  found : A → Fetched A
  not_found : Fetched A
  failed : Fetched A

-- The results of a write.
pub data Written : Type 0 where
  written missing conflict refused : Written

pub record SourceStatus : Type 0 where
  pub targets_count : ℕ
  pub last_sync : ℕ

pub record Api (W : Type 0) : Type 0 where
  -- ctx.Err() != nil, and the case of ctx.Done() in a select with a default
  pub done : W → Bool × W
  pub now : W → ℕ × W
  -- c.List in a namespace, with MatchingLabels; `none` is an error
  pub list : String → Dict String String → W → Option (List Target) × W
  -- c.Get and c.Delete, by namespace and name
  pub get : String → String → W → Fetched Target × W
  pub delete : String → String → W → Written × W
  -- controllerutil.CreateOrUpdate: the object, named by the first argument, is created or updated
  -- by the mutation, which may refuse; `true` is success
  pub create_or_update : Target → (Target → Option Target) → W → Bool × W
  -- controllerutil.SetControllerReference: refuses an object that another controller owns
  pub set_controller_reference : TargetSource → Target → Option Target
  -- retry.RetryOnConflict
  pub retry_on_conflict : (W → Written × W) → W → Written × W
  pub get_status : String → String → W → Fetched SourceStatus × W
  pub update_status : String → String → SourceStatus → W → Written × W

abbrev pub source_labels : TargetSource → Dict String String
source_labels ts = (label_target_source_name, ts.name) ∷ []

abbrev pub is_written : Written → Bool
is_written written = true
is_written _ = false

-- An object with nothing but its name, before CreateOrUpdate reads it.
abbrev pub blank : String → String → Target
blank name namespace = record {
  name = name;
  namespace = namespace;
  labels = [];
  owner = none;
  address = "";
  profile = "";
}

-- The mutation of applyTarget: the spec and the labels are those desired, the rest stays.
abbrev pub desire : Target → Target → Target
desire desired existing = record existing {
  address = desired.address;
  profile = desired.profile;
  labels = desired.labels;
}

module _ {W : Type 0} (api : Api W) where
  unfoldable pub fetch_existing_targets : TargetSource → W → Option (List Target) × W
  fetch_existing_targets ts w = api.list ts.namespace (source_labels ts) w

  unfoldable pub apply_target : Target → TargetSource → W → Bool × W
  apply_target desired ts w =
      api.create_or_update (blank desired.name desired.namespace)
        (λ existing. api.set_controller_reference ts (desire desired existing)) w

  -- An object that is gone already counts as deleted.
  abbrev pub deleted : Written → Bool
  deleted written = true
  deleted missing = true
  deleted _ = false

  abbrev pub delete_found : String → String → Fetched Target → W → Bool × W
  delete_found name namespace not_found w = (true, w)
  delete_found name namespace failed w = (false, w)
  delete_found name namespace (found t) w =
      let (r, w') = api.delete namespace name w in (deleted r, w')

  unfoldable pub delete_target : String → String → W → Bool × W
  delete_target name namespace w =
      let (r, w') = api.get namespace name w in delete_found name namespace r w'

  abbrev pub write_status : TargetSource → ℕ → Fetched SourceStatus → W → Written × W
  write_status ts count not_found w = (missing, w)
  write_status ts count failed w = (refused, w)
  write_status ts count (found latest) w =
      let (t, w') = api.now w in
      api.update_status ts.namespace ts.name
        (record latest { targets_count = count; last_sync = t }) w'

  unfoldable pub update_target_source_status : TargetSource → ℕ → W → Bool × W
  update_target_source_status ts count w =
      let (r, w') =
        api.retry_on_conflict
          (λ u.
            let (latest, u') = api.get_status ts.namespace ts.name u in
            write_status ts count latest u')
          w in
      (is_written r, w')
