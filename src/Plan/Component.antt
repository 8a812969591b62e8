-- ===== src/Plan/Component.antt =====
-- The configurations of gnmic for outputs, inputs and processors: internal/gnmic/output.go, input.go and
-- processor.go. `unmarshal` is yaml.Unmarshal into an empty map, for a raw text of the type `R`; a raw
-- text is not null, which the resource type decodes to nil.
use gnmic_operator.Prelude.{
  ◌^◌, ℤ, String, Bool, true, false, Option, none, some, List, [], ◌∷◌, ◌||◌, ◌==◌, string_eq,
  if◌then◌else◌,
}
use gnmic_operator.Prelude.Text.{◌<>◌, itoa_ℤ}
use gnmic_operator.Prelude.Parse.{parse_int}
use gnmic_operator.Resources.{ComponentSpec}
use gnmic_operator.Plan.Outcome.{Outcome, built, failed, panicked, bind}
use gnmic_operator.Plan.Any.{
  Any, null, text, texts, other, string_map, any_map, items, Entries, no_entries, entry, get, put,
  convert,
}

-- strings.Join
abbrev pub join_after : String → List String → String
join_after sep [] = ""
join_after sep (s ∷ ss) = sep <> s <> join_after sep ss

abbrev pub join : String → List String → String
join sep [] = ""
join sep (s ∷ ss) = s <> join_after sep ss

pub record OutputConfigOptions : Type 0 where
  pub processors : List String
  pub resolved_addresses : List String

abbrev pub output_types_with_service_ref : String → Bool
output_types_with_service_ref type =
    type == "nats"
    || type == "jetstream"
    || type == "kafka"
    || type == "prometheus_write"
    || type == "influxdb"

module _ {R V E : Type 0} (unmarshal : R → Outcome E (Entries V)) where
  abbrev pub read_config : Option R → Outcome E (Entries V)
  read_config none = built no_entries
  read_config (some raw) = unmarshal raw

abbrev is_null : {V : Type 0} → Any V → Bool
is_null null = true
is_null (text s) = false
is_null (texts ss) = false
is_null (other v) = false
is_null (string_map es) = false
is_null (any_map ps) = false
is_null (items xs) = false

module _ {V : Type 0} where
  abbrev pub put_list : String → List String → Entries V → Entries V
  put_list k [] config = config
  put_list k (s ∷ ss) config = put k (texts (s ∷ ss)) config

  -- The key under which gnmic reads the addresses of the type.
  abbrev pub put_addresses : String → List String → Entries V → Entries V
  put_addresses type [] config = config
  put_addresses type (a ∷ addresses) config =
      let joined = text (join "," (a ∷ addresses)) in
      if output_types_with_service_ref type
      then (if type == "nats" || type == "jetstream"
          then put "address" joined config
          else if type == "kafka"
          then put "address" joined config
          else if type == "prometheus_write"
          then put "url" joined config
          else if type == "influxdb"
          then put "url" joined config
          else config)
      else config

  abbrev pub put_defaults : String → Entries V → Entries V
  put_defaults type config =
      if type == "prometheus"
      then (if is_null (get "path" config) then put "path" (text "/metrics") config else config)
      else config

  abbrev pub output_entries : String → OutputConfigOptions → Entries V → Entries V
  output_entries type options config =
      let typed = put_list "event-processors" options.processors (put "type" (text type) config) in
      put_defaults type (put_addresses type options.resolved_addresses typed)

  abbrev pub input_entries : String → List String → List String → Entries V → Entries V
  input_entries type outputs processors config =
      put_list "event-processors" processors
        (put_list "outputs" outputs (put "type" (text type) config))

module _ {R V E : Type 0} (unmarshal : R → Outcome E (Entries V)) where
  unfoldable pub build_output_config : ComponentSpec R → OutputConfigOptions → Outcome E (Entries V)
  build_output_config spec options =
      bind (read_config unmarshal spec.config)
        (λ config. built (output_entries spec.type options config))

  unfoldable pub build_input_config :
      ComponentSpec R → List String → List String → Outcome E (Entries V)
  build_input_config spec outputs processors =
      bind (read_config unmarshal spec.config)
        (λ config. built (input_entries spec.type outputs processors config))

  -- The type assertion after the conversion; `invalid` is its error.
  abbrev pub as_map : E → Any V → Outcome E (Entries V)
  as_map invalid null = failed invalid
  as_map invalid (text s) = failed invalid
  as_map invalid (texts ss) = failed invalid
  as_map invalid (other v) = failed invalid
  as_map invalid (string_map es) = built es
  as_map invalid (any_map ps) = failed invalid
  as_map invalid (items xs) = failed invalid

  unfoldable pub build_processor_config : E → ComponentSpec R → Outcome E (Entries V)
  unfolding convert
  build_processor_config invalid spec = bind (read_config unmarshal spec.config) (λ config.
      as_map invalid (convert (string_map (entry spec.type (string_map config) no_entries))))

  abbrev scheme_of : Outcome E (Entries V) → String
  scheme_of (built config) = if is_null (get "tls" config) then "http://" else "https://"
  scheme_of (failed e) = "http://"
  scheme_of panicked = "http://"

  abbrev http_scheme : Option R → String
  http_scheme none = "http://"
  http_scheme (some raw) = scheme_of (unmarshal raw)

  unfoldable pub format_service_address : ComponentSpec R → String → ℤ → String
  format_service_address spec host port =
      let at = host <> ":" <> itoa_ℤ port in
      if spec.type == "nats" || spec.type == "jetstream"
      then "nats://" <> at
      else if spec.type == "kafka"
      then at
      else if spec.type == "prometheus_write"
      then http_scheme spec.config <> at
      else if spec.type == "influxdb"
      then http_scheme spec.config <> at
      else at

pub record ServicePort : Type 0 where
  pub name : String
  pub port : ℤ

abbrev port_named : String → List ServicePort → Option ℤ
port_named name [] = none
port_named name (p ∷ ps) = if p.name == name then some p.port else port_named name ps

abbrev pub number_or_named : Option ℤ → String → List ServicePort → Option ℤ
number_or_named none port_str ports = port_named port_str ports
number_or_named (some n) port_str ports = some n

-- `none` is the error.
unfoldable pub parse_service_port : String → List ServicePort → Option ℤ
parse_service_port port_str [] = number_or_named (parse_int (2 ^ 31) port_str) port_str []
parse_service_port port_str (p ∷ ps) =
    if port_str == ""
    then some p.port
    else number_or_named (parse_int (2 ^ 31) port_str) port_str (p ∷ ps)
