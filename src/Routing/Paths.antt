-- ===== src/Routing/Paths.antt =====
-- The functions on paths and measurements of app/machine_learning_for_routing/controller: functions.py, and
-- the same in routing_spf.py. `none` is a KeyError or an IndexError; latencies and times are natural numbers.
use comnetsemu.Prelude.{
  ℕ, ◌+◌, Option, none, some, List, [], ◌∷◌, Bool, true, false, if◌then◌else◌, ltb, nat_eq, take,
  map,
}
use comnetsemu.Prelude.Dict.{Dict, lookup, insert}
use comnetsemu.Coding.Bytes.{◌>>=◌}

-- `latency_dict`, and the ports of `data_map`, by two switches.
abbrev pub Links : Type 0
Links = Dict ℕ (Dict ℕ ℕ)

-- `links[s1][s2]`
unfoldable pub entry : Links → ℕ → ℕ → Option ℕ
unfolding lookup
entry links s1 s2 = do row ← lookup s1 links; lookup s2 row

unfoldable pub get_link_cost : Links → ℕ → ℕ → Option ℕ
unfolding entry
get_link_cost latency_dict s1 s2 = entry latency_dict s2 s1

-- The loop of `get_path_cost` from the switch `s1` on.
unfoldable pub add_link_costs : Links → ℕ → ℕ → List ℕ → Option ℕ
unfolding get_link_cost
add_link_costs latency_dict cost s1 [] = some cost
add_link_costs latency_dict cost s1 (s2 ∷ path) = do
  c ← get_link_cost latency_dict s1 s2
  add_link_costs latency_dict (cost + c) s2 path

unfoldable pub get_path_cost : Links → List ℕ → Option ℕ
unfolding add_link_costs
get_path_cost latency_dict [] = some 0
get_path_cost latency_dict (s ∷ path) = add_link_costs latency_dict 0 s path

-- The loop of `filter_paths`.
unfoldable pub with_costs : Links → List (List ℕ) → Option (List (List ℕ × ℕ))
unfolding get_path_cost
with_costs latency_dict [] = some []
with_costs latency_dict (path ∷ paths) = do
  cost ← get_path_cost latency_dict path
  rest ← with_costs latency_dict paths
  some ((path, cost) ∷ rest)

-- The sorted list is not kept.
unfoldable pub filter_paths : Links → List (List ℕ) → ℕ → Option (List (List ℕ))
unfolding with_costs
filter_paths latency_dict paths max_possible_paths = do
  best_paths ← with_costs latency_dict paths
  some (map (λ p. p.0) (take max_possible_paths best_paths))

-- The loop of `map_ports_to_path` from the switch `s1` on, and its last line.
unfoldable pub map_ports_from :
    Links → ℕ → ℕ → ℕ → List ℕ → Dict ℕ (ℕ × ℕ) → Option (Dict ℕ (ℕ × ℕ))
unfolding entry insert
map_ports_from data_map last_port in_port s1 [] p = some (insert s1 (in_port, last_port) p)
map_ports_from data_map last_port in_port s1 (s2 ∷ path) p = do
  out_port ← entry data_map s1 s2
  next_port ← entry data_map s2 s1
  map_ports_from data_map last_port next_port s2 path (insert s1 (in_port, out_port) p)

-- `map_ports_to_path`, and `add_ports_to_path` of routing_spf.py
unfoldable pub map_ports_to_path : Links → List ℕ → ℕ → ℕ → Option (Dict ℕ (ℕ × ℕ))
unfolding map_ports_from
map_ports_to_path data_map [] first_port last_port = none
map_ports_to_path data_map (s ∷ path) first_port last_port =
    map_ports_from data_map last_port first_port s path []

-- The inner loop of `check_new_measurement`.
unfoldable pub check_row : ℕ → Dict ℕ ℕ → Bool
check_row timestamp [] = true
check_row timestamp ((dpid_sent, t) ∷ row) =
    if ltb t timestamp then false else check_row timestamp row

unfoldable pub check_new_measurement : ℕ → Links → Bool
unfolding check_row
check_new_measurement timestamp [] = true
check_new_measurement timestamp ((dpid_rec, row) ∷ rows) =
    if check_row timestamp row then check_new_measurement timestamp rows else false
