-- ===== src/Learning/Rewards.antt =====
-- The costs, latencies and rewards of learning_module.py.
use comnetsemu.Prelude.{ℕ, nat_eq, List, [], ◌∷◌, length}
use comnetsemu.Prelude.Dict.{Dict, lookup}
use comnetsemu.Learning.Data.{
  Hops, Combination, Outcome, done, failed, ◌>>=◌, or_fail, key_error, zero_division,
}
use comnetsemu.Learning.Numbers.{Reals}

-- `latency_dict`
abbrev pub Latencies : Type 0 → Type 0
Latencies R = Dict ℕ (Dict ℕ R)

module _ {R : Type 0} (r : Reals R) where
  -- `latency_dict[s2][s1]`
  unfoldable pub link_latency : Latencies R → ℕ → ℕ → Outcome R
  unfolding lookup
  link_latency latencies s1 s2 = do
    row ← or_fail (lookup s2 latencies) key_error
    or_fail (lookup s1 row) key_error

  -- The loop of `get_path_cost`, behind the hop `s1`.
  unfoldable pub path_latency_from : Latencies R → R → ℕ → Hops → Outcome R
  unfolding link_latency
  path_latency_from latencies cost s1 [] = done cost
  path_latency_from latencies cost s1 (s2 ∷ hops) = do
    link ← link_latency latencies s1 s2
    path_latency_from latencies (r.add cost link) s2 hops

  unfoldable pub path_latency : Latencies R → Hops → Outcome R
  unfolding path_latency_from
  path_latency latencies [] = done r.zero
  path_latency latencies (s ∷ hops) = path_latency_from latencies r.zero s hops

  unfoldable pub get_costs_of_paths : Combination → Latencies R → Outcome (List R)
  unfolding path_latency
  get_costs_of_paths [] latencies = done []
  get_costs_of_paths ((id, path) ∷ combination) latencies = do
    cost ← path_latency latencies path
    costs ← get_costs_of_paths combination latencies
    done (cost ∷ costs)

  unfoldable pub sum_from : R → List R → R
  sum_from cost [] = cost
  sum_from cost (x ∷ xs) = sum_from (r.add cost x) xs

  -- The sum over the length: without an element a ZeroDivisionError.
  abbrev pub average : R → List R → Outcome R
  average cost [] = failed zero_division
  average cost (x ∷ xs) = done (r.div cost (r.of_nat (length (x ∷ xs))))

  unfoldable pub get_average_latency : Combination → Latencies R → Outcome R
  unfolding get_costs_of_paths sum_from
  get_average_latency combination latencies = do
    costs ← get_costs_of_paths combination latencies
    average (sum_from r.zero costs) costs

  unfoldable pub sum_squares_from : R → List R → R
  sum_squares_from cost [] = cost
  sum_squares_from cost (x ∷ xs) = sum_squares_from (r.add cost (r.pow x 2)) xs

  unfoldable pub get_reward : Combination → Latencies R → Outcome R
  unfolding get_costs_of_paths sum_squares_from
  get_reward combination latencies = do
    costs ← get_costs_of_paths combination latencies
    mean ← average (sum_squares_from r.zero costs) costs
    done (r.sub r.zero (r.sqrt mean))
