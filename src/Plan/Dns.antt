-- ===== src/Plan/Dns.antt =====
-- The DNS domain of the cluster: internal/gnmic/dns.go. The lines of /etc/resolv.conf are an argument,
-- `none` when it cannot be opened; `fields` is strings.Fields and `getenv` os.Getenv.
use Prim.Native.Char.{code}
use gnmic_operator.Prelude.{
  String, ◌||◌, Option, none, some, List, [], ◌∷◌, length, ltb, nat_beq, ◌==◌, string_eq,
  if◌then◌else◌,
}
use gnmic_operator.Prelude.Text.{bytes}

abbrev pub default_cluster_domain : String
default_cluster_domain = "cluster.local"

-- strings.HasPrefix and strings.TrimPrefix together: what follows the prefix.
unfoldable pub after_prefix : String → String → Option String
after_prefix String.[] s = some s
after_prefix (String.◌∷◌ c p) String.[] = none
after_prefix (String.◌∷◌ c p) (String.◌∷◌ d s) =
    let rest = after_prefix p s in if nat_beq (code c) (code d) then rest else none

abbrev pub shorter : String → String → String
shorter shortest d =
    if shortest == "" || ltb (length (bytes d)) (length (bytes shortest)) then d else shortest

abbrev or_later : Option String → Option String → Option String
or_later none later = later
or_later (some domain) later = some domain

-- The loop over the search domains, with the shortest so far; `none` goes on to the next line.
unfoldable pub search_domain : String → List String → Option String
unfolding after_prefix bytes
search_domain shortest [] = if shortest == "" then none else some shortest
search_domain shortest (d ∷ ds) =
    or_later (after_prefix "svc." d) (search_domain (shorter shortest d) ds)

abbrev pub line_domain : List String → Option String
line_domain [] = none
line_domain (keyword ∷ []) = none
line_domain (keyword ∷ d ∷ ds) = if keyword == "search" then search_domain "" (d ∷ ds) else none

abbrev or_domain : Option String → String → String
or_domain none later = later
or_domain (some domain) later = domain

module _ (fields : String → List String) where
  unfoldable pub parse_cluster_domain : List String → String
  unfolding search_domain
  parse_cluster_domain [] = default_cluster_domain
  parse_cluster_domain (line ∷ lines) =
      or_domain (line_domain (fields line)) (parse_cluster_domain lines)

  abbrev pub detect_cluster_domain : Option (List String) → String
  detect_cluster_domain none = default_cluster_domain
  detect_cluster_domain (some lines) = parse_cluster_domain lines

-- The domain that was read at the start is an argument.
abbrev pub cluster_domain : (String → String) → String → String
cluster_domain getenv detected = let v = getenv "CLUSTER_DOMAIN" in if v == "" then detected else v
