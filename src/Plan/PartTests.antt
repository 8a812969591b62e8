-- ===== src/Plan/PartTests.antt =====
-- The theorems on ports, names and configurations at concrete inputs.
use gnmic_operator.Prelude.{
  false, contains, ◌==◌, if◌then◌else◌, subst, ap, ◌∙◌, ◌≢◌, ℕ, ℤ, pos, String, true, none, some,
  List, [], ◌∷◌, ◌≡◌, refl, arith, length, string_eq, zero, suc,
}
use gnmic_operator.Prelude.Dict.{Dict}
use gnmic_operator.Prelude.Text.{itoa, ◌<>◌}
use gnmic_operator.Resources.{
  ClusterSpec, TargetProfileSpec, Target, TunnelTargetPolicySpec, ComponentSpec,
}
use gnmic_operator.Plan.Dns.{after_prefix, parse_cluster_domain}
use gnmic_operator.Plan.Domain.{after_prefix-append, is_search, parse_cluster_domain-svc}
use gnmic_operator.Plan.Outcome.{Outcome, built}
use gnmic_operator.Plan.Ports.{assigned, no_free_ports, assign_ports}
use gnmic_operator.Plan.PortMap.{IsPortMap}
use gnmic_operator.Plan.Assigned.{assign_ports-IsPortMap, assign_ports-full}
use gnmic_operator.Plan.Current.{
  pod_name, find_target_current_assignment, find_target_current_assignment-pod_name,
}
use gnmic_operator.Plan.Target.{build_target_config, build_tunnel_target_match}
use gnmic_operator.Plan.Tls.{client_tls_config_for_cluster}
use gnmic_operator.Plan.Secured.{
  anonymous, has_bundle, no_tls_at_all, is_off, is_on, build_tunnel_target_match-config,
  build_target_config-secured,
}
use gnmic_operator.Plan.Any.{Entries, text, other, any_map, no_entries, entry, pair, no_pairs, get}
use gnmic_operator.Plan.Normal.{normal_entries}
use gnmic_operator.Plan.Component.{
  OutputConfigOptions, build_output_config, build_processor_config, ServicePort, parse_service_port,
}
use gnmic_operator.Plan.Parts.{
  build_output_config-get, build_processor_config-normal, parse_service_port-itoa,
}

abbrev three : List String
three = "net/a" ∷ "net/b" ∷ "net/c" ∷ []

assign_ports_example :
    (m : Dict String ℤ) × (assign_ports three 9804 1009 ≡ assigned m) × IsPortMap three m
assign_ports_example = assign_ports-IsPortMap three refl (omega arith)

-- One output more than there are ports.
abbrev names_to : ℕ → List String
names_to zero = []
names_to (suc n) = itoa n ∷ names_to n

length-names_to : (n : ℕ) → length (names_to n) ≡ n
length-names_to zero = refl
length-names_to (suc n) = omega (arith, length-names_to n)

assign_ports-full_example : assign_ports (names_to 1010) 9804 1009 ≡ no_free_ports
assign_ports-full_example = assign_ports-full (names_to 1010) (omega (arith, length-names_to 1010))

pod_name_example : find_target_current_assignment (pod_name "gnmic-c1" 12) ≡ some (pos 12)
pod_name_example = find_target_current_assignment-pod_name "gnmic-c1" 12 (omega arith)

abbrev profile : TargetProfileSpec
profile = record {
  credentials_ref = "";
  tls =
      some
        (record { server_name = "r1"; max_version = "1.3"; min_version = ""; cipher_suites = [] });
  timeout = pos 10000000000;
  retry_timer = pos 2000000000;
  encoding = "JSON_IETF";
  tcp_keep_alive = some (pos 5000000000);
  grpc_keep_alive = none;
}

abbrev router : Target
router = record {
  namespace = "net";
  name = "r1";
  address = "10.0.0.1:57400";
  profile = "p";
  cluster_pods = [];
}

abbrev policy : TunnelTargetPolicySpec
policy = record { match_on = none; profile = "p" }

abbrev cluster : ClusterSpec
cluster = record {
  image = "gnmic";
  replicas = none;
  api = none;
  client_tls = some (record { issuer_ref = "issuer"; bundle_ref = "bundle" });
  grpc_tunnel = none;
}

tunnel_example :
    (build_tunnel_target_match policy
      (some profile)
      none
      (client_tls_config_for_cluster cluster)).config
    ≡ some (
        anonymous (build_target_config router profile none (client_tls_config_for_cluster cluster)))
tunnel_example =
    build_tunnel_target_match-config router policy profile none
      (client_tls_config_for_cluster cluster)

secured_example :
    (is_off
        (build_target_config router profile none
          (client_tls_config_for_cluster cluster)).skip_verify
      ≡ has_bundle cluster.client_tls)
    × (is_on
          (build_target_config router profile none (client_tls_config_for_cluster cluster)).insecure
        ≡ no_tls_at_all cluster.client_tls profile.tls)
secured_example = build_target_config-secured cluster router profile none

abbrev raw_config : ComponentSpec ℕ
raw_config = record { type = "kafka"; config = some 7 }

-- Every text is read as one entry and a map that has another key.
abbrev read : ℕ → Outcome ℕ (Entries ℕ)
read raw = built (
    entry "topic" (any_map (pair (other 1) (text "x") (pair (text "k") (other raw) no_pairs)))
      no_entries)

abbrev config : Entries ℕ
config =
    entry "topic" (any_map (pair (other 1) (text "x") (pair (text "k") (other 7) no_pairs)))
      no_entries

abbrev options : OutputConfigOptions
options = record { processors = "net/x" ∷ []; resolved_addresses = "kafka:9092" ∷ [] }

output_example :
    (c : Entries ℕ) × (build_output_config read raw_config options ≡ built c)
    × (get "type" c ≡ text "kafka")
    × (get "topic" c ≡ get "topic" config)
output_example = build_output_config-get read raw_config config options "topic" refl refl

processor_example :
    (c : Entries ℕ) × (build_processor_config read 0 raw_config ≡ built c)
    × (normal_entries c ≡ true)
processor_example = build_processor_config-normal read raw_config config 0 refl

abbrev named_ports : List ServicePort
named_ports = record { name = "api"; port = pos 80 } ∷ []

parse_service_port_example : parse_service_port (itoa 9092) named_ports ≡ some (pos 9092)
parse_service_port_example = parse_service_port-itoa 9092 named_ports (omega arith)

-- A resolv.conf of a pod in the namespace net, with the fields of its two lines.
abbrev resolv_fields : String → List String
resolv_fields l =
    if l == "search net.svc.corp.local svc.corp.local corp.local"
    then "search" ∷ "net.svc.corp.local" ∷ "svc.corp.local" ∷ "corp.local" ∷ []
    else "nameserver" ∷ "10.96.0.10" ∷ []

net_entry : after_prefix "svc." "net.svc.corp.local" ≡ none
unfolding after_prefix
net_entry = refl

nameserver_first :
    (l : String)
    → contains ("nameserver 10.96.0.10" ∷ []) l ≡ true
    → is_search (resolv_fields l) ≡ false
nameserver_first l m =
    let same : "nameserver 10.96.0.10" ≡ l =
      ground (arith, m, string_eq.agree_iff "nameserver 10.96.0.10" l) in
    subst (λ k. is_search (resolv_fields k) ≡ false) same refl

net_free : (d t : String) → contains ("net.svc.corp.local" ∷ []) d ≡ true → d ≢ "svc." <> t
net_free d t m e =
    let same : "net.svc.corp.local" ≡ d =
      ground (arith, m, string_eq.agree_iff "net.svc.corp.local" d) in
    let read = ap (after_prefix "svc.") (same ∙ e) in
    absurd (ground (arith, read, net_entry, after_prefix-append "svc." t))

domain_example :
    parse_cluster_domain resolv_fields
      ("nameserver 10.96.0.10" ∷ "search net.svc.corp.local svc.corp.local corp.local" ∷ [])
    ≡ "corp.local"
domain_example =
    parse_cluster_domain-svc resolv_fields "search net.svc.corp.local svc.corp.local corp.local"
      "corp.local" ("nameserver 10.96.0.10" ∷ []) ("net.svc.corp.local" ∷ []) ("corp.local" ∷ []) []
      nameserver_first refl net_free
