-- ===== src/Discovery/Reliable.antt =====
-- An API server that works, as Kubernetes and client-go document it: the context lives, reads show
-- the stored targets, and writes are carried out. The store of a namespace is a map from names.
use gnmic_operator.Prelude.{
  String, Bool, true, false, ◌&&◌, Option, none, some, List, [], ◌∷◌, map, ◌≡◌, ◌⊎◌, ◌==◌,
  string_eq, contains,
}
use gnmic_operator.Prelude.Dict.{Dict, lookup, insert, delete}
use gnmic_operator.Discovery.Types.{Target, TargetSource}
use gnmic_operator.Discovery.Client.{found, not_found, Written, written, SourceStatus, Api}

abbrev pub Store : Type 0
Store = Dict String Target

-- MatchingLabels
abbrev has_label : String → Option String → Bool
has_label v none = false
has_label v (some w) = w == v

abbrev pub matches : Dict String String → Target → Bool
matches [] t = true
matches ((k, v) ∷ sel) t = has_label v (lookup k t.labels) && matches sel t

abbrev pub is_selected : Dict String String → Option Target → Bool
is_selected sel none = false
is_selected sel (some t) = matches sel t

abbrev pub or_blank : Target → Option Target → Target
or_blank b none = b
or_blank b (some t) = t

-- No other controller owns the object.
abbrev pub IsFree : TargetSource → Target → Type 0
IsFree ts t = (t.owner ≡ none) ⊎ (t.owner ≡ some ts.name)

pub record IsReliable {W : Type 0} (api : Api W) (targets : String → W → Store) : Type 0 where
  pub live : (w : W) → api.done w ≡ (false, w)
  pub list_lem :
      (ns : String) (sel : Dict String String) (w : W)
      → (l : List Target) × (api.list ns sel w ≡ (some l, w))
        × ((n : String)
            → contains (map (λ t. t.name) l) n ≡ is_selected sel (lookup n (targets ns w)))
  pub get_found :
      (ns n : String) (w : W) (t : Target)
      → lookup n (targets ns w) ≡ some t
      → api.get ns n w ≡ (found t, w)
  pub get_missing :
      (ns n : String) (w : W) → lookup n (targets ns w) ≡ none → api.get ns n w ≡ (not_found, w)
  pub delete_written : (ns n : String) (w : W) → (api.delete ns n w).0 ≡ written
  pub delete_lem :
      (ns n : String) (w : W) → targets ns (api.delete ns n w).1 ≡ delete n (targets ns w)
  pub create_or_update_done :
      (b t : Target) (f : Target → Option Target) (w : W)
      → f (or_blank b (lookup b.name (targets b.namespace w))) ≡ some t
      → (api.create_or_update b f w).0 ≡ true
  pub create_or_update_lem :
      (b t : Target) (f : Target → Option Target) (w : W)
      → f (or_blank b (lookup b.name (targets b.namespace w))) ≡ some t
      → targets b.namespace (api.create_or_update b f w).1 ≡ insert b.name t (targets b.namespace w)
  pub set_controller_reference_lem :
      (ts : TargetSource) (t : Target)
      → IsFree ts t
      → api.set_controller_reference ts t ≡ some (record t { owner = some ts.name })
  -- What every attempt keeps of the targets, the retries keep.
  pub retry_lem :
      (f : W → Written × W) (ns : String) (d : Store)
      → ((w : W) → targets ns w ≡ d → targets ns (f w).1 ≡ d)
      → (w : W) → targets ns w ≡ d
      → targets ns (api.retry_on_conflict f w).1 ≡ d
  pub now_keeps : (ns : String) (w : W) → targets ns (api.now w).1 ≡ targets ns w
  pub get_status_keeps :
      (ns m n : String) (w : W) → targets ns (api.get_status m n w).1 ≡ targets ns w
  pub update_status_keeps :
      (ns m n : String) (s : SourceStatus) (w : W)
      → targets ns (api.update_status m n s w).1 ≡ targets ns w
