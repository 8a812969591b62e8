-- ===== src/Plan/Domain.antt =====
-- What parseClusterDomain of internal/gnmic/dns.go reads from the resolv.conf that Kubernetes writes.
use Prim.Native.Char.{code}
use text.Mathlib.TextLemmas.{nil-append, cons-append}
use text.Mathlib.TextEquality.{Char-path}
use gnmic_operator.Prelude.{
  String, Bool, true, false, Bool-cases, inl, inr, Option-cases, none, some, List, [], ◌∷◌, ◌++◌,
  nat_beq, nat_eq, contains, ◌==◌, string_eq, ◌≡◌, ◌≢◌, refl, ap, sym, ◌∙◌, arith, ==_refl,
}
use gnmic_operator.Prelude.Text.{◌<>◌}
use gnmic_operator.Plan.Dns.{
  after_prefix, shorter, search_domain, line_domain, parse_cluster_domain,
}

pub after_prefix-append : (p s : String) → after_prefix p (p <> s) ≡ some s
unfolding after_prefix
after_prefix-append String.[] s = ap (after_prefix "") (nil-append s)
after_prefix-append (String.◌∷◌ c p) s =
    ap (after_prefix (String.◌∷◌ c p)) (cons-append c p s) ∙ ground (arith, after_prefix-append p s)

after_prefix-some : (p s t : String) → after_prefix p s ≡ some t → s ≡ p <> t
unfolding after_prefix
after_prefix-some String.[] s t h = let e : s ≡ t = ground (arith, h) in e ∙ sym (nil-append t)
after_prefix-some (String.◌∷◌ c p) String.[] t h = absurd (ground (arith, h))
after_prefix-some (String.◌∷◌ c p) (String.◌∷◌ d s) t h =
    elim (Bool-cases (nat_beq (code c) (code d))) [
      | inl same ↦
          let e : s ≡ p <> t = after_prefix-some p s t (ground (arith, h, same)) in
          let f : d ≡ c = sym (Char-path c d (ground (arith, same))) in
          (λ i. String.◌∷◌ (f i) (e i)) ∙ sym (cons-append c p t)
      | inr other ↦ absurd (ground (arith, h, other))
    ]

-- An entry that does not start with "svc.", by its text.
no_prefix : (d : String) → ((t : String) → d ≢ "svc." <> t) → after_prefix "svc." d ≡ none
no_prefix d h = elim (Option-cases (after_prefix "svc." d)) [
  | inl absent ↦ absent
  | inr (t, there) ↦ absurd (h t (after_prefix-some "svc." d t there))
]

search_domain-svc :
    (before rest : List String) (shortest domain : String)
    → ((d t : String) → contains before d ≡ true → d ≢ "svc." <> t)
    → search_domain shortest (before ++ ("svc." <> domain) ∷ rest) ≡ some domain
unfolding search_domain
search_domain-svc [] rest shortest domain h = rw (after_prefix-append "svc." domain) refl
search_domain-svc (d ∷ before) rest shortest domain h =
    rw (no_prefix d (λ t. h d t (ground (arith, ==_refl d)))) (
      search_domain-svc before rest (shorter shortest d) domain
        (λ e t m. h e t (ground (arith, m))))

line_domain-svc :
    (before rest : List String) (domain : String)
    → ((d t : String) → contains before d ≡ true → d ≢ "svc." <> t)
    → line_domain ("search" ∷ before ++ ("svc." <> domain) ∷ rest) ≡ some domain
line_domain-svc [] rest domain h = search_domain-svc [] rest "" domain h
line_domain-svc (d ∷ before) rest domain h = search_domain-svc (d ∷ before) rest "" domain h

-- The fields of a line of search domains.
abbrev pub is_search : List String → Bool
is_search [] = false
is_search (keyword ∷ fs) = keyword == "search"

line_domain-none : (fs : List String) → is_search fs ≡ false → line_domain fs ≡ none
line_domain-none [] h = refl
line_domain-none (keyword ∷ []) h = refl
line_domain-none (keyword ∷ d ∷ ds) h = rw h refl

-- The first search line with an entry "svc.<domain>", where the entries before it do not start with
-- "svc.", gives the domain, whatever stands after it. The lines before are not search lines.
pub parse_cluster_domain-svc :
    (fields : String → List String) (line domain : String) (earlier before rest lines : List String)
    → ((l : String) → contains earlier l ≡ true → is_search (fields l) ≡ false)
    → fields line ≡ "search" ∷ before ++ ("svc." <> domain) ∷ rest
    → ((d t : String) → contains before d ≡ true → d ≢ "svc." <> t)
    → parse_cluster_domain fields (earlier ++ line ∷ lines) ≡ domain
unfolding parse_cluster_domain
parse_cluster_domain-svc fields line domain [] before rest lines others h free =
    rw h (rw (line_domain-svc before rest domain free) refl)
parse_cluster_domain-svc fields line domain (l ∷ earlier) before rest lines others h free =
    rw (line_domain-none (fields l) (others l (ground (arith, ==_refl l)))) (
      parse_cluster_domain-svc fields line domain earlier before rest lines
        (λ k m. others k (ground (arith, m))) h free)
