-- ===== src/Learning/Loop.antt =====
-- The loop of `learning_module`, in the mode of one flow at a time, one message at a time.
-- Logs, files and the debugging copies of the table are left out.
use comnetsemu.Prelude.{
  ℕ, Bool, true, false, if◌then◌else◌, ◌==◌, nat_eq, list_eq, pair_eq, List, [], ◌∷◌, Option, none,
  some, length,
}
use comnetsemu.Learning.Data.{
  Combination, Choices, Action, action_eq, QMode, shortest_path, multi_armed_bandit_no_weight,
  multi_armed_bandit_with_weight, q_learning, sarsa, td_zero, ExplorationMode, constant_eps,
  falling_eps, softmax, ucb, RewardMode, Outcome, done, ◌>>=◌, or_fail, unbound_local,
}
use comnetsemu.Learning.Numbers.{Reals, Value, neg_inf, start, QTable, ValueTable}
use comnetsemu.Learning.Choice.{Random}
use comnetsemu.Learning.Rewards.{Latencies}
use comnetsemu.Learning.Merging.{is_in}
use comnetsemu.Learning.Building.{update_q_table, update_value_table}

-- `Config`, with the constants of `calc_epsilon`.
pub record Settings (R : Type 0) : Type 0 where
  pub alpha : R
  pub gamma : R
  pub learning_mode : QMode
  pub exploration_mode : ExplorationMode
  pub reward_mode : RewardMode
  pub measurements_for_reward : ℕ
  pub temperature : R
  pub exploration_degree : R
  pub softmax_init_value : R
  pub merging_q_table_flag : Bool
  pub split_up_load_levels : Bool
  pub reset_q_test : Bool
  pub epsilon_start : R
  pub epsilon_slope : R
  pub tenth : R

-- What the controller sends; a load level of -1 counts as 0, since the loop only asks whether it is greater than 0.
pub record Elements (R : Type 0) : Type 0 where
  pub current_combination : Combination
  pub paths_per_flow : Choices
  pub latency_dict : Latencies R
  pub reset_flag : Bool
  pub load_level : ℕ
  pub iteration_flag : Bool
  pub iteration : ℕ
  pub stop_flag : Bool

-- The variables of the loop. `Q` is `q`, and `values` in the mode of temporal differences; the actions and transitions
-- are empty before the first table is built. An empty `previous_state` is one that is not known; `none` is a
-- variable that is not bound, or an empty action.
pub record Learner (R : Type 0) : Type 0 where
  pub q : QTable R
  pub values : ValueTable R
  pub actions : List (Combination × Action)
  pub state_transitions : List (Combination × Action × Combination)
  pub copied_paths_per_flow : Option Choices
  pub epsilon : R
  pub temp_flows : List ℕ
  pub current_state : Combination
  pub previous_state : Combination
  pub previous_action : Option Action
  pub next_action : Option Action
  pub rewards_list : List R
  pub load_level : ℕ
  pub iterations_level : ℕ
  pub general_iterator : ℕ

-- The flows of a combination.
unfoldable pub flows_of : Combination → List ℕ
flows_of [] = []
flows_of ((id, path) ∷ c) = id ∷ flows_of c

-- `set_chosen_paths.difference(set_temp_flows)`
unfoldable pub difference : List ℕ → List ℕ → List ℕ
difference [] old = []
difference (id ∷ ids) old = if is_in id old then difference ids old else id ∷ difference ids old

abbrev pub is_td_zero : QMode → Bool
is_td_zero td_zero = true
is_td_zero shortest_path = false
is_td_zero multi_armed_bandit_no_weight = false
is_td_zero multi_armed_bandit_with_weight = false
is_td_zero q_learning = false
is_td_zero sarsa = false

module _ {R : Type 0} (r : Reals R) (random : Random R) (config : Settings R) where
  -- `init_value` of the tables
  abbrev pub init_value : ExplorationMode → Value R
  init_value softmax = start config.softmax_init_value
  init_value constant_eps = neg_inf
  init_value falling_eps = neg_inf
  init_value ucb = neg_inf

  -- `update_Q_table`, and the assignment of what it gives; the table before is `Q`, or `{}` for a reset.
  unfoldable pub build : Bool → Choices → List ℕ → Learner R → Outcome (Learner R)
  unfolding update_q_table update_value_table
  build reset paths joined l =
      let init = init_value config.exploration_mode in
      let flag = config.merging_q_table_flag in
      if is_td_zero config.learning_mode
      then (do
        (values, actions, transitions) ←
            update_value_table init (if reset then [] else l.values) paths flag joined
        done (record l { values = values; actions = actions; state_transitions = transitions }))
      else (do
        (q, actions, transitions) ←
            update_q_table init (if reset then [] else l.q) paths flag joined
        done (record l { q = q; actions = actions; state_transitions = transitions }))

  -- The reset of the table, with the paths of the time before.
  unfoldable pub reset_q : Learner R → Outcome (Learner R)
  unfolding build
  reset_q l = elim config.reset_q_test [
    | false ↦ done l
    | true ↦ do paths ← or_fail l.copied_paths_per_flow unbound_local; build true paths [] l
  ]

  abbrev pub forget : Learner R → Learner R
  forget l = record l {
    next_action = none;
    temp_flows = [];
    general_iterator = 0;
    rewards_list = [];
  }

  -- The branch of `reset_load_flag`.
  unfoldable pub reset_load : Elements R → Learner R → Outcome (Learner R)
  unfolding reset_q
  reset_load m l =
      let l' = record l { load_level = m.load_level } in
      elim m.reset_flag [
        | false ↦ done l
        | true ↦ elim config.split_up_load_levels [
          | false ↦ done l'
          | true ↦ do l'' ← reset_q l'; done (forget l'')
        ]
      ]

  -- The branch of `reset_iteration_flag`.
  unfoldable pub reset_iteration : Elements R → Learner R → Outcome (Learner R)
  unfolding reset_q
  reset_iteration m l = do
    l' ← reset_q (record l { iterations_level = m.iteration })
    done (forget l')

  -- The flows of the combination are the ones that the table is for, from now on.
  abbrev pub adopt : Elements R → Learner R → Learner R
  adopt m l = record l {
    copied_paths_per_flow = some m.paths_per_flow;
    current_state = m.current_combination;
    previous_state = [];
    temp_flows = flows_of m.current_combination;
  }

  -- The first flow.
  unfoldable pub first_flow : Elements R → Learner R → Outcome (Learner R)
  unfolding build flows_of
  first_flow m l = do l' ← build false m.paths_per_flow [] l; done (adopt m l')

  -- A change of the number of flows.
  unfoldable pub changed_flows : Elements R → Learner R → Outcome (Learner R)
  unfolding build flows_of difference
  changed_flows m l = elim (length (flows_of m.current_combination) == length l.temp_flows) [
    | true ↦ done l
    | false ↦ do
      l' ← build false m.paths_per_flow (difference (flows_of m.current_combination) l.temp_flows) l
      done (record (adopt m l') { rewards_list = [] })
  ]
