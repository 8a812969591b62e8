-- ===== src/Plan/Parts.antt =====
-- What stands in the configurations of internal/gnmic/output.go and processor.go, and reading of ports and
-- modes.
use gnmic_operator.Prelude.{
  ℕ, ◌<◌, ◌^◌, pos, String, true, false, some, List, [], ◌∷◌, ◌==◌, string_eq, contains, ◌≡◌, refl,
  sym, ap, ◌∙◌, arith, Bool-cases, inl, inr, ==-eq,
}
use gnmic_operator.Prelude.Text.{◌<>◌, itoa, has_char}
use gnmic_operator.Prelude.Parse.{cut, cut-append, parse_int, parse_int-itoa, one_char}
use gnmic_operator.Resources.{ComponentSpec}
use gnmic_operator.Plan.Outcome.{Outcome, built}
use gnmic_operator.Plan.Any.{
  text, texts, string_map, Entries, no_entries, entry, get, put, get-put, convert, convert_entries,
}
use gnmic_operator.Plan.Normal.{is_normal, normal_entries, convert-is_normal}
use gnmic_operator.Plan.Component.{
  join, read_config, OutputConfigOptions, put_list, put_addresses, put_defaults, output_entries,
  build_output_config, build_processor_config, ServicePort, parse_service_port,
}
use gnmic_operator.Plan.Subscription.{spec_mode_to_config}

module _ {V : Type 0} where
  get-put_list :
      (k j : String) (ss : List String) (c : Entries V)
      → (k == j) ≡ false
      → get j (put_list k ss c) ≡ get j c
  get-put_list k j [] c h = refl
  get-put_list k j (s ∷ ss) c h = ground (arith, get-put k j (texts (s ∷ ss)) c)

  get-put_addresses :
      (type j : String) (ss : List String) (c : Entries V)
      → ("address" == j) ≡ false
      → ("url" == j) ≡ false
      → get j (put_addresses type ss c) ≡ get j c
  get-put_addresses type j [] c h g = refl
  get-put_addresses type j (s ∷ ss) c h g = ground (
    arith,
    get-put "address" j (text (join "," (s ∷ ss))) c,
    get-put "url" j (text (join "," (s ∷ ss))) c,
  )

  get-put_defaults :
      (type j : String) (c : Entries V)
      → ("path" == j) ≡ false
      → get j (put_defaults type c) ≡ get j c
  get-put_defaults type j c h = ground (arith, get-put "path" j (text "/metrics") c)

cut_slash : (s t : String) → has_char 47 s ≡ false → cut 47 (s <> "/" <> t) ≡ some (s, t)
cut_slash s t h = ap (λ u. cut 47 (s <> u)) (one_char "/" t) ∙ cut-append 47 "/" s t refl h

parse_int_empty : (bound n : ℕ) → parse_int bound "" ≡ some (pos n) → ⊥
unfolding parse_int
parse_int_empty bound n e = ground arith

itoa_some : (n : ℕ) → n < 2 ^ 31 → (itoa n == "") ≡ false
itoa_some n h = elim (Bool-cases (itoa n == "")) [
  | inl empty ↦ absurd (
      parse_int_empty (2 ^ 31) n
        (ap (parse_int (2 ^ 31)) (sym (==-eq (itoa n) "" empty)) ∙ parse_int-itoa (2 ^ 31) n h))
  | inr full ↦ full
]

-- The mode and the stream mode are read back from "mode/stream mode", as long as the mode has no slash.
pub spec_mode_to_config-join :
    (mode stream_mode : String)
    → has_char 47 mode ≡ false
    → spec_mode_to_config (mode <> "/" <> stream_mode) ≡ (mode, stream_mode)
unfolding spec_mode_to_config
spec_mode_to_config-join mode stream_mode h = rw (cut_slash mode stream_mode h) refl

-- A port number is read back, whatever the ports of the service are called.
pub parse_service_port-itoa :
    (n : ℕ) (ports : List ServicePort)
    → n < 2 ^ 31
    → parse_service_port (itoa n) ports ≡ some (pos n)
unfolding parse_service_port
parse_service_port-itoa n [] h = rw (parse_int-itoa (2 ^ 31) n h) refl
parse_service_port-itoa n (p ∷ ps) h = rw (parse_int-itoa (2 ^ 31) n h) (rw (itoa_some n h) refl)

module _ {R V E : Type 0} (unmarshal : R → Outcome E (Entries V)) (spec : ComponentSpec R)
    (config : Entries V) where
  -- The configuration of an output has the type of the output, and under each key that the operator
  -- does not set, what the resource says.
  pub build_output_config-get :
      (options : OutputConfigOptions) (k : String)
      → read_config unmarshal spec.config ≡ built config
      → contains ("type" ∷ "event-processors" ∷ "address" ∷ "url" ∷ "path" ∷ []) k ≡ false
      → (c : Entries V) × (build_output_config unmarshal spec options ≡ built c)
        × (get "type" c ≡ text spec.type)
        × (get k c ≡ get k config)
  unfolding build_output_config
  build_output_config-get options k is other = rw is (
    output_entries spec.type options config,
    refl,
    kept "type" refl refl refl refl ∙ ground (arith, get-put "type" "type" (text spec.type) config),
    kept k (ground arith) (ground arith) (ground arith) (ground arith)
        ∙ ground (arith, get-put "type" k (text spec.type) config),
  )
    where
      kept :
          (j : String)
          → ("event-processors" == j) ≡ false
          → ("address" == j) ≡ false
          → ("url" == j) ≡ false
          → ("path" == j) ≡ false
          → get j (output_entries spec.type options config)
            ≡ get j (put "type" (text spec.type) config)
      kept j a b c d =
          get-put_defaults spec.type j _ d
          ∙ get-put_addresses spec.type j options.resolved_addresses _ b c
          ∙ get-put_list "event-processors" j options.processors _ a

  -- The configuration of a processor is never refused for its type, and it has strings for keys, each
  -- once, at every depth.
  pub build_processor_config-normal :
      (invalid : E)
      → read_config unmarshal spec.config ≡ built config
      → (c : Entries V) × (build_processor_config unmarshal invalid spec ≡ built c)
        × (normal_entries c ≡ true)
  unfolding build_processor_config convert is_normal
  build_processor_config-normal invalid is = rw is (
    convert_entries (entry spec.type (string_map config) no_entries) no_entries,
    refl,
    convert-is_normal (string_map (entry spec.type (string_map config) no_entries)),
  )
