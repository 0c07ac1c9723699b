-- ===== src/Learning/Choice.antt =====
-- The choice of the next action in learning_module.py, by the exploration mode.
use comnetsemu.Prelude.{
  ℕ, ◌+◌, if◌then◌else◌, ◌==◌, nat_eq, list_eq, pair_eq, List, [], ◌∷◌, Option, none, some,
}
use comnetsemu.Prelude.Dict.{lookup, insert}
use comnetsemu.Learning.Data.{
  Combination, Action, action_eq, dumps, same_combination, ExplorationMode, constant_eps,
  falling_eps, softmax, ucb, Outcome, done, Exception, failed, ◌>>=◌, or_fail, key_error,
  value_error, index_error, unbound_local, attribute_error,
}
use comnetsemu.Learning.Numbers.{
  Reals, Wide, wide, Value, neg_inf, start, num, Row, QTable, ValueTable, add_value,
}
use comnetsemu.Learning.Spaces.{remove_first, get_next_state}
use comnetsemu.Learning.Tables.{values_of, key_of_max, key_max_action_value}

-- What the libraries' random numbers are in one call: `random.random()`, `random.choice` and `np.random.choice` of
-- lists that are not empty; `none` is the ValueError for probabilities that are not numbers or do not sum to 1.
pub record Random (R : Type 0) : Type 0 where
  pub draw : R
  pub pick : Action → List Action → Action
  pub sample : Action × Wide R → List (Action × Wide R) → Option Action

module _ {R : Type 0} where
  unfoldable pub keys_of : Row R → List Action
  keys_of [] = []
  keys_of ((k, e) ∷ row) = k ∷ keys_of row

  unfoldable pub total_visits : Row R → ℕ
  total_visits [] = 0
  total_visits ((k, e) ∷ row) = e.visits + total_visits row

module _ {R : Type 0} (r : Reals R) (random : Random R) where
  -- `random.choice`
  abbrev pub choice : List Action → Outcome Action
  choice [] = failed index_error
  choice (a ∷ actions) = done (random.pick a actions)

  -- The random decision, with the other actions.
  abbrev pub explore : R → Action → List Action → Outcome Action
  explore e_greedy chosen others = if r.lt random.draw e_greedy then choice others else done chosen

  -- `get_action_eps_greedy`: the mode's number never equals `QMode.TD_ZERO` itself, so the other branch does not run;
  -- after a KeyError the row of actions is not bound.
  unfoldable pub get_action_eps_greedy : Combination → QTable R → R → Outcome Action
  unfolding lookup dumps key_max_action_value remove_first keys_of
  get_action_eps_greedy current_state q e_greedy = do
    row ← or_fail (lookup (dumps current_state) q) unbound_local
    chosen ← key_max_action_value r row
    explore e_greedy chosen (remove_first (λ k. k == chosen) (keys_of row))

  -- `np.exp(-1 / (value * tau), dtype=np.float128)` for a positive temperature, under which -1 / -inf is 0 and its
  -- exponential 1; `none` is a ZeroDivisionError, which only a Python float raises.
  abbrev pub softmax_weight : R → Value R → Option (Wide R)
  softmax_weight tau neg_inf = some (wide r.one)
  softmax_weight tau (start v) =
      if r.is_zero (r.mul v tau) then none else some (r.exp_inverse (r.mul v tau))
  softmax_weight tau (num v) = some (r.exp_inverse (r.mul v tau))

  unfoldable pub softmax_weights : R → List (Action × Value R) → Option (List (Action × Wide R))
  softmax_weights tau [] = some []
  softmax_weights tau ((k, v) ∷ values) = elim (softmax_weight tau v) [
    | none ↦ none
    | some w ↦ elim (softmax_weights tau values) [ none ↦ none | some rest ↦ some ((k, w) ∷ rest) ]
  ]

  unfoldable pub sum_weights : Wide R → List (Action × Wide R) → Wide R
  sum_weights acc [] = acc
  sum_weights acc ((k, w) ∷ weights) = sum_weights (r.wide_add acc w) weights

  unfoldable pub divide_weights : Wide R → List (Action × Wide R) → List (Action × Wide R)
  divide_weights total [] = []
  divide_weights total ((k, w) ∷ weights) = (k, r.wide_div w total) ∷ divide_weights total weights

  -- `np.random.choice` with probabilities, where `e` is what its ValueError ends in.
  abbrev pub weighted_choice : List (Action × Wide R) → Exception → Outcome Action
  weighted_choice [] e = failed e
  weighted_choice (p ∷ probs) e = or_fail (random.sample p probs) e

  -- The sum, the probabilities and the choice; the handler of the ZeroDivisionError prints the sum, which is not bound.
  unfoldable pub choose_softmax : R → List (Action × Value R) → Exception → Outcome Action
  unfolding softmax_weights sum_weights divide_weights
  choose_softmax tau values e = do
    weights ← or_fail (softmax_weights tau values) unbound_local
    weighted_choice (divide_weights (sum_weights (wide r.zero) weights) weights) e

  -- `get_action_softmax` on a Q table.
  unfoldable pub get_action_softmax : QTable R → Combination → R → Outcome Action
  unfolding lookup dumps values_of choose_softmax
  get_action_softmax q current_state tau = do
    row ← or_fail (lookup (dumps current_state) q) key_error
    choose_softmax tau (values_of r row) value_error

  -- `get_action_softmax` on a table of states: the value of an action is that of the state that it leads to.
  unfoldable pub values_of_next :
      List (Combination × Action × Combination)
      → ValueTable R
      → Combination
      → List (Combination × Action)
      → List (Action × Value R)
      → Outcome (List (Action × Value R))
  unfolding lookup insert dumps same_combination get_next_state
  values_of_next transitions q current_state [] values = done values
  values_of_next transitions q current_state ((s, action) ∷ actions) values =
      let next = lookup (dumps (get_next_state transitions current_state action)) q in
      let rest =
        λ (v : List (Action × Value R)). values_of_next transitions q current_state actions v in
      if same_combination s current_state
      then (elim next [
        | none ↦ failed key_error
        | some (visits, value) ↦ rest (insert action value values)
      ])
      else rest values

  -- A ValueError is caught here, but then the key is not bound.
  unfoldable pub get_action_softmax_td_zero :
      ValueTable R
      → Combination
      → R
      → List (Combination × Action)
      → List (Combination × Action × Combination)
      → Outcome Action
  unfolding values_of_next choose_softmax
  get_action_softmax_td_zero q current_state tau actions transitions = do
    values ← values_of_next transitions q current_state actions []
    choose_softmax tau values unbound_local

  -- The second loop of `get_action_ucb`: an action that was never chosen is returned at once.
  unfoldable pub ucb_loop : ℕ → R → Row R → List (Action × Value R) → Outcome Action
  unfolding insert key_of_max
  ucb_loop total c [] values = key_of_max r values
  ucb_loop total c ((action, e) ∷ row) values =
      let bonus = r.mul c (r.sqrt (r.div (r.log (r.of_nat total)) (r.of_nat e.visits))) in
      let rest = ucb_loop total c row (insert action (add_value r e.value bonus) values) in
      if e.visits == 0 then done action else rest

  unfoldable pub get_action_ucb : QTable R → Combination → R → Outcome Action
  unfolding lookup dumps total_visits ucb_loop
  get_action_ucb q current_state c = do
    row ← or_fail (lookup (dumps current_state) q) key_error
    ucb_loop (total_visits row) c row []

  unfoldable pub get_action : ExplorationMode → Combination → QTable R → R → R → R → Outcome Action
  unfolding get_action_eps_greedy get_action_softmax get_action_ucb
  get_action constant_eps current_state q epsilon temperature exploration_degree =
      get_action_eps_greedy current_state q epsilon
  get_action falling_eps current_state q epsilon temperature exploration_degree =
      get_action_eps_greedy current_state q epsilon
  get_action softmax current_state q epsilon temperature exploration_degree =
      get_action_softmax q current_state temperature
  get_action ucb current_state q epsilon temperature exploration_degree =
      get_action_ucb q current_state exploration_degree

  -- `get_action_td_zero`: the greedy choice asks a list for its `values`, and the one of the confidence bounds does
  -- nothing in this mode, so that the action is None.
  unfoldable pub get_action_td_zero :
      ExplorationMode
      → Combination
      → ValueTable R
      → R
      → List (Combination × Action)
      → List (Combination × Action × Combination)
      → Outcome (Option Action)
  unfolding lookup dumps get_action_softmax_td_zero
  get_action_td_zero constant_eps current_state q temperature actions transitions =
      elim (lookup (dumps current_state) q) [
        | none ↦ failed unbound_local
        | some row ↦ failed attribute_error
      ]
  get_action_td_zero falling_eps current_state q temperature actions transitions =
      elim (lookup (dumps current_state) q) [
        | none ↦ failed unbound_local
        | some row ↦ failed attribute_error
      ]
  get_action_td_zero softmax current_state q temperature actions transitions = do
    action ← get_action_softmax_td_zero q current_state temperature actions transitions
    done (some action)
  get_action_td_zero ucb current_state q temperature actions transitions = done none
