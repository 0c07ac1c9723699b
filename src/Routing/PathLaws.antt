-- ===== src/Routing/PathLaws.antt =====
-- `filter_paths` and `check_new_measurement` of
-- app/machine_learning_for_routing/controller/functions.py.
use comnetsemu.Prelude.{
  ℕ, zero, suc, ◌≤◌, some, List, [], ◌∷◌, true, nat_eq, take, map, All, ◌≡◌, ◌↔◌, refl, sym, ap,
  ◌∙◌, arith,
}
use comnetsemu.Prelude.Dict.{Dict}
use comnetsemu.Coding.Fields.{>>=-eq_some}
use comnetsemu.Routing.Paths.{
  Links, get_path_cost, with_costs, filter_paths, check_row, check_new_measurement,
}

with_costs-map :
    (latency_dict : Links) (paths : List (List ℕ)) (out : List (List ℕ × ℕ))
    → with_costs latency_dict paths ≡ some out
    → map (λ p. p.0) out ≡ paths
unfolding with_costs
with_costs-map latency_dict [] out h = ground arith
with_costs-map latency_dict (path ∷ paths) out h =
    let (cost, _, k1) = >>=-eq_some (get_path_cost latency_dict path) _ h in
    let (rest, h2, k2) = >>=-eq_some (with_costs latency_dict paths) _ k1 in
    let same : map (λ p. p.0) rest ≡ paths = with_costs-map latency_dict paths rest h2 in
    ground arith

map-take {ℓ κ} :
    {A : Type ℓ} {B : Type κ} (f : A → B) (n : ℕ) (xs : List A)
    → map f (take n xs) ≡ take n (map f xs)
map-take f zero xs = refl
map-take f (suc n) [] = refl
map-take f (suc n) (x ∷ xs) = ap (λ t. f x ∷ t) (map-take f n xs)

-- Whatever the latencies, `filter_paths` gives the first `max_possible_paths` paths in the order in which it got
-- them, if it does not end in a KeyError.
pub filter_paths-take :
    (latency_dict : Links) (paths : List (List ℕ)) (max_possible_paths : ℕ) (out : List (List ℕ))
    → filter_paths latency_dict paths max_possible_paths ≡ some out
    → out ≡ take max_possible_paths paths
unfolding filter_paths
filter_paths-take latency_dict paths n out h =
    let (best_paths, h1, k1) = >>=-eq_some (with_costs latency_dict paths) _ h in
    let kept : map (λ p. p.0) (take n best_paths) ≡ out = ground arith in
    sym kept
    ∙ map-take (λ p. p.0) n best_paths
    ∙ ap (take n) (with_costs-map latency_dict paths best_paths h1)

check_row-All :
    (timestamp : ℕ) (row : Dict ℕ ℕ)
    → (check_row timestamp row ≡ true) ↔ All (λ e. timestamp ≤ e.1) row
unfolding check_row
check_row-All timestamp [] = (λ _. tt, λ _. refl)
check_row-All timestamp ((k, t) ∷ row) = ground (arith, check_row-All timestamp row)

-- `check_new_measurement` is true if and only if no measurement is older than the time.
pub check_new_measurement-All :
    (timestamp : ℕ) (last_measurement : Links)
    → (check_new_measurement timestamp last_measurement ≡ true)
      ↔ All (λ r. All (λ e. timestamp ≤ e.1) r.1) last_measurement
unfolding check_new_measurement
check_new_measurement-All timestamp [] = (λ _. tt, λ _. refl)
check_new_measurement-All timestamp ((k, row) ∷ rows) =
    ground (arith, check_row-All timestamp row, check_new_measurement-All timestamp rows)
