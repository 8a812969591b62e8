-- ===== src/Plan/Ports.antt =====
-- assignPorts of internal/gnmic/plan.go: a port of a range for each name, by double hashing. Numbers
-- are int32: sums and products wrap. The range is not negative in the calls, and neither is the base.
use gnmic_operator.Prelude.{
  ℕ, zero, suc, ◌+◌, ◌-◌, ◌*◌, ◌%◌, ℤ, i32, pattern32, rem_ℤ, int_eq, String, Option, none, some,
  List, [], ◌∷◌, nat_beq, string_eq, if◌then◌else◌, contains,
}
use gnmic_operator.Prelude.Dict.{Dict, insert}
use gnmic_operator.Prelude.Sort.{sort_by}
use gnmic_operator.Prelude.Text.{str_ltb, ◌<>◌}
use gnmic_operator.Placement.Hash.{hash32}

abbrev pub prometheus_default_port : ℕ
prometheus_default_port = 9804

abbrev pub prometheus_port_pool_size : ℕ
prometheus_port_pool_size = 1009

-- The map, one of the two errors, or the run-time error of a division by zero.
pub data PortResult : Type 0 where
  assigned : Dict String ℤ → PortResult
  bad_range no_free_ports division_by_zero : PortResult

abbrev pub start_of : String → ℕ → ℕ
start_of name range_size = hash32 name % range_size

abbrev pub step_of : String → ℕ → ℕ
step_of name range_size = hash32 ("step:" <> name) % (range_size - 1) + 1

abbrev pub slot_at : ℕ → ℕ → ℕ → ℕ → ℤ
slot_at range_size start step i = rem_ℤ (i32 (start + i * step)) range_size

-- The loop over `i`, from `i` on, with the rounds left.
unfoldable pub probe : ℕ → List ℤ → ℕ → ℕ → ℕ → ℕ → Option ℤ
probe range_size used start step i zero = none
probe range_size used start step i (suc n) =
    let slot = slot_at range_size start step i in
    let later = probe range_size used start step (suc i) n in
    if contains used slot then later else some slot

abbrev pub port_at : ℕ → ℤ → ℤ
port_at base slot = i32 (base + pattern32 slot)

-- The loop over the names, with the used slots and the result so far; `next` is the rest of it.
abbrev pub take_slot :
    ℕ
    → Option ℤ
    → String
    → (List ℤ → Dict String ℤ → PortResult)
    → List ℤ
    → Dict String ℤ
    → PortResult
take_slot base none name next used result = no_free_ports
take_slot base (some slot) name next used result =
    next (slot ∷ used) (insert name (port_at base slot) result)

unfoldable pub assign_names : ℕ → ℕ → List String → List ℤ → Dict String ℤ → PortResult
unfolding probe
assign_names base range_size [] used result = assigned result
assign_names base range_size (name ∷ names) used result =
    let slot =
      probe range_size used (start_of name range_size) (step_of name range_size) 0 range_size in
    let next = assign_names base range_size names in
    if nat_beq range_size 1 then division_by_zero else take_slot base slot name next used result

unfoldable pub assign_ports : List String → ℕ → ℕ → PortResult
unfolding assign_names
assign_ports names base range_size =
    if nat_beq range_size 0
    then bad_range
    else assign_names base range_size (sort_by str_ltb names) [] []
