-- ===== src/Discovery/Mapper.antt =====
-- internal/controller/discovery/mapper.go: from discovered targets to Target resources, and from a
-- full snapshot to the events that bring the cluster to it.
use gnmic_operator.Prelude.{
  pos, eqb_ℤ, String, List, [], ◌∷◌, ◌++◌, map, ◌==◌, string_eq, if◌then◌else◌, none,
}
use gnmic_operator.Prelude.Dict.{Dict, insert, lookup, is_some}
use gnmic_operator.Prelude.Text.{itoa_ℤ, has_char, ◌<>◌}
use gnmic_operator.Discovery.Types.{
  event_delete, event_apply, DiscoveredTarget, DiscoveryEvent, Target, TargetSource,
}

-- const.go
abbrev pub label_target_source_name : String
label_target_source_name = "operator.gnmic.dev/targetsource"

-- net.JoinHostPort: a literal IPv6 address is put in brackets.
unfoldable pub join_host_port : String → String → String
unfolding has_char
join_host_port host port =
    if has_char b':' host then "[" <> host <> "]:" <> port else host <> ":" <> port

-- maps.Copy(dst, src)
unfoldable pub copy : Dict String String → Dict String String → Dict String String
copy dst [] = dst
copy dst ((k, v) ∷ src) = copy (insert k v dst) src

unfoldable pub generate_target_resource : DiscoveredTarget → TargetSource → Target
unfolding join_host_port copy itoa_ℤ
generate_target_resource d ts =
    let port = if eqb_ℤ d.port (pos 0) then ts.target_port else d.port in
    let profile = if d.target_profile == "" then ts.target_profile else d.target_profile in
    record {
      name = d.name;
      namespace = ts.namespace;
      labels = insert label_target_source_name ts.name (copy (copy [] ts.target_labels) d.labels);
      owner = none;
      address = join_host_port d.address (itoa_ℤ port);
      profile = profile;
    }

-- discoveredMap: a later target of the same name replaces an earlier one.
unfoldable pub discovered_map :
    Dict String DiscoveredTarget → List DiscoveredTarget → Dict String DiscoveredTarget
discovered_map m [] = m
discovered_map m (d ∷ ds) = discovered_map (insert d.name d m) ds

abbrev pub delete_event : String → DiscoveryEvent
delete_event name = record {
  target = record { name = name; address = ""; port = pos 0; labels = []; target_profile = "" };
  event = event_delete;
}

abbrev pub apply_of : DiscoveredTarget → DiscoveryEvent
apply_of d = record { target = d; event = event_apply }

unfoldable pub delete_events : Dict String DiscoveredTarget → List Target → List DiscoveryEvent
delete_events m [] = []
delete_events m (e ∷ es) =
    let rest = delete_events m es in
    if is_some (lookup e.name m) then rest else delete_event e.name ∷ rest

unfoldable pub generate_events : List Target → List DiscoveredTarget → List DiscoveryEvent
unfolding discovered_map delete_events
generate_events existing discovered =
    delete_events (discovered_map [] discovered) existing ++ map apply_of discovered

unfoldable pub normalize_target : DiscoveredTarget → String → DiscoveredTarget
normalize_target t ts_name = record t { name = ts_name <> "-" <> t.name }
