-- ===== src/Routing/Tests.antt =====
-- Concrete runs of the functions of app/machine_learning_for_routing/controller/functions.py.
use comnetsemu.Prelude.{
  inl, inr, some, true, ◌≤◌, All, ◌↔◌, take, ℕ, List, [], ◌∷◌, ◌≡◌, refl, arith, Memᴰ, ◌<◌,
  get_elem?,
}
use comnetsemu.Routing.Levenshtein.{
  cell, set_cell, fill_sources, fill_targets, fill_rows, fill_cols, best, iterative_levenshtein,
}
use comnetsemu.Routing.Reroute.{change_list, apply_changes, Change, insertion, deletion, no_change}
use comnetsemu.Routing.Operations.{retrieve_operations}
use comnetsemu.Routing.OperationLaws.{retrieve_operations-IsNext}
use comnetsemu.Routing.Noted.{HasRow, HasCol, Inserts, Deletes, Keeps}
use comnetsemu.Routing.RerouteLaws.{change_list-apply_changes}
use comnetsemu.Routing.Distance.{lev, iterative_levenshtein-lev}
use comnetsemu.Prelude.Dict.{Dict, lookup}
use comnetsemu.Routing.Paths.{
  Links, entry, get_link_cost, add_link_costs, get_path_cost, with_costs, filter_paths,
  map_ports_to_path, check_new_measurement,
}
use comnetsemu.Routing.PathLaws.{filter_paths-take, check_new_measurement-All}
use comnetsemu.Routing.Ports.{Forwards, map_ports_to_path-Forwards}
use comnetsemu.Routing.FlowId.{
  build_connection_between_hosts_id, build_ip_adresses, has_underscore,
  build_ip_adresses-build_connection_between_hosts_id,
}

abbrev old_path : List ℕ
old_path = 1 ∷ 2 ∷ 3 ∷ []

abbrev new_path : List ℕ
new_path = 1 ∷ 4 ∷ 3 ∷ 5 ∷ []

iterative_levenshtein_old_new : cell (iterative_levenshtein old_path new_path) 3 4 ≡ 2
unfolding iterative_levenshtein cell set_cell fill_sources fill_targets fill_rows fill_cols best
iterative_levenshtein_old_new = refl

iterative_levenshtein-lev_example :
    cell (iterative_levenshtein old_path new_path) 3 4 ≡ lev old_path new_path 3 4
iterative_levenshtein-lev_example =
    iterative_levenshtein-lev old_path new_path 3 4 (omega arith) (omega arith)

-- Three switches in a triangle, where the way over switch 2 is the fast one.
abbrev latencies : Links
latencies = (1, (2, 5) ∷ (3, 90) ∷ []) ∷ (2, (1, 5) ∷ (3, 5) ∷ []) ∷ (3, (1, 90) ∷ (2, 5) ∷ []) ∷ []

abbrev slow_and_fast : List (List ℕ)
slow_and_fast = (1 ∷ 3 ∷ []) ∷ (1 ∷ 2 ∷ 3 ∷ []) ∷ []

-- Of the two paths the slow one is kept.
filter_paths-take_example : (1 ∷ 3 ∷ []) ∷ [] ≡ take 1 slow_and_fast
unfolding filter_paths with_costs get_path_cost add_link_costs get_link_cost entry lookup
filter_paths-take_example = filter_paths-take latencies slow_and_fast 1 ((1 ∷ 3 ∷ []) ∷ []) refl

check_new_measurement-All_example :
    (check_new_measurement 6 latencies ≡ true) ↔ All (λ r. All (λ e. 6 ≤ e.1) r.1) latencies
check_new_measurement-All_example = check_new_measurement-All 6 latencies

map_ports_to_path-Forwards_example :
    (p : Dict ℕ (ℕ × ℕ)) × (map_ports_to_path latencies (1 ∷ 2 ∷ 3 ∷ []) 7 8 ≡ some p)
    × Forwards latencies 8 p 7 1 (2 ∷ 3 ∷ [])
unfolding entry lookup
map_ports_to_path-Forwards_example =
    map_ports_to_path-Forwards latencies 8 1 (2 ∷ 3 ∷ []) 7
      ((λ e. omega arith, (λ e. omega arith, tt)), ((λ e. omega arith, tt), (tt, tt)))
      ((5, refl), (5, refl), ((5, refl), (5, refl), tt))

build_ip_adresses-build_connection_between_hosts_id_example :
    build_ip_adresses (build_connection_between_hosts_id "10.0.0.1" "10.0.0.2")
    ≡ some ("10.0.0.1", "10.0.0.2")
unfolding has_underscore
build_ip_adresses-build_connection_between_hosts_id_example =
    build_ip_adresses-build_connection_between_hosts_id "10.0.0.1" "10.0.0.2" refl refl

-- From 1, 2, 3 to 1, 4, 3, 5: an insertion, no change, a substitution and no change.
abbrev walk : List (ℕ × ℕ)
walk = (3, 3) ∷ (2, 2) ∷ (1, 1) ∷ (0, 0) ∷ []

change_list-apply_changes_example :
    apply_changes new_path
      (change_list (iterative_levenshtein new_path old_path) (4, 3) walk)
      old_path
    ≡ some new_path
unfolding iterative_levenshtein cell set_cell fill_sources fill_targets fill_rows fill_cols best
change_list-apply_changes_example =
    change_list-apply_changes (iterative_levenshtein new_path old_path) new_path old_path walk (
      inr (inl (refl, refl)),
      (
        inl (refl, refl, inl refl),
        (inl (refl, refl, inr (λ e. omega (arith, e))), (inl (refl, refl, inl refl), (refl, refl))),
      ),
    )

-- The table may hold the same value on a diagonal step although the switches there differ.
equal_cells_of_different_switches :
    (cell (iterative_levenshtein (4 ∷ 1 ∷ 2 ∷ []) (1 ∷ 2 ∷ 4 ∷ [])) 3 3 ≡ 2)
    × (cell (iterative_levenshtein (4 ∷ 1 ∷ 2 ∷ []) (1 ∷ 2 ∷ 4 ∷ [])) 2 2 ≡ 2)
unfolding iterative_levenshtein cell set_cell fill_sources fill_targets fill_rows fill_cols best
equal_cells_of_different_switches = (refl, refl)

abbrev some_changes : List Change
some_changes =
    record { operation = insertion; row = 2; col = 1 }
    ∷ record { operation = deletion; row = 2; col = 2 }
    ∷ record { operation = no_change; row = 1; col = 1 }
    ∷ []

retrieve_operations-IsNext_example :
    (adds mods : List (ℕ × ℕ)) × (switches : List ℕ) × (retrieve_operations some_changes new_path
        old_path
      ≡ some (adds, mods, switches))
    × ((i v : ℕ)
        → Memᴰ (i, v) adds
          ↔ (HasRow Inserts i some_changes × (1 < i) × (get_elem? new_path i ≡ some v)))
    × ((i v : ℕ)
        → Memᴰ (i, v) mods ↔ (
            HasRow Keeps i some_changes
            × HasRow Inserts i some_changes
            × (get_elem? new_path i ≡ some v)))
    × ((w : ℕ)
        → Memᴰ w switches
          ↔ ((c : ℕ) × HasCol Deletes c some_changes × (get_elem? old_path c ≡ some w)))
retrieve_operations-IsNext_example =
    retrieve_operations-IsNext some_changes new_path old_path (tt, (omega arith, (tt, tt)))
