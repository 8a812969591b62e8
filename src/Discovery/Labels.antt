-- ===== src/Discovery/Labels.antt =====
-- The labels of a Target that discovery writes (generateTargetResource of mapper.go).
use text.Mathlib.TextEquality.{eq_iff}
use gnmic_operator.Prelude.{
  String, true, Option, none, some, [], ◌∷◌, ◌≡◌, refl, ◌∙◌, ap, ◌==◌, string_eq, if◌then◌else◌,
  distinct, arith,
}
use gnmic_operator.Prelude.Dict.{Dict, keys, lookup, insert, lookup-insert, contains-keys}
use gnmic_operator.Discovery.Types.{DiscoveredTarget, TargetSource}
use gnmic_operator.Discovery.Mapper.{generate_target_resource, label_target_source_name, copy}

abbrev pub or_else : Option String → Option String → Option String
or_else none b = b
or_else (some a) b = some a

-- A later map takes precedence over an earlier one.
lookup-copy :
    (k : String) (dst src : Dict String String)
    → distinct (keys src) ≡ true
    → lookup k (copy dst src) ≡ or_else (lookup k src) (lookup k dst)
unfolding copy lookup
lookup-copy k dst [] d = refl
lookup-copy k dst ((j, v) ∷ src) d = ground (
  arith,
  lookup-copy k (insert j v dst) src,
  lookup-insert j k v dst,
  contains-keys j src,
  eq_iff j k,
)

or_else-none : (o : Option String) → or_else o none ≡ o
or_else-none none = refl
or_else-none (some a) = refl

lookup-copy_nil :
    (k : String) (src : Dict String String)
    → distinct (keys src) ≡ true
    → lookup k (copy [] src) ≡ lookup k src
unfolding lookup
lookup-copy_nil k src d = lookup-copy k [] src d ∙ or_else-none (lookup k src)

-- On the labels of a discovered target the name of its source comes first, then the discovered
-- labels, then those of the source; the keys of the two maps are distinct, as in Go.
pub lookup-labels :
    (d : DiscoveredTarget) (ts : TargetSource) (k : String)
    → distinct (keys d.labels) ≡ true
    → distinct (keys ts.target_labels) ≡ true
    → lookup k (generate_target_resource d ts).labels ≡ (
        if label_target_source_name == k
        then some ts.name
        else or_else (lookup k d.labels) (lookup k ts.target_labels))
unfolding generate_target_resource
lookup-labels d ts k dd dts =
    lookup-insert label_target_source_name k ts.name (copy (copy [] ts.target_labels) d.labels)
    ∙ ap (λ o. if label_target_source_name == k then some ts.name else o)
        (lookup-copy k (copy [] ts.target_labels) d.labels dd
          ∙ ap (or_else (lookup k d.labels)) (lookup-copy_nil k ts.target_labels dts))
