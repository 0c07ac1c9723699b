-- ===== src/Learning/LoopTests.antt =====
-- Concrete rounds of `learning_module`'s loop.
use comnetsemu.Prelude.{
  ℕ, false, List, [], ◌∷◌, Option, none, some, ◌≡◌, inr, refl, subst, arith, Memᴰ, ◌↔◌,
}
use comnetsemu.Prelude.Dict.{lookup, insert}
use comnetsemu.Learning.Data.{
  falling_eps, Combination, Action, no_trans, dumps, sort_insert, multi_armed_bandit_with_weight,
  ucb, only_lat, Outcome, done, failed,
}
use comnetsemu.Learning.Numbers.{neg_inf}
use comnetsemu.Learning.Spaces.{
  get_possible_states, extend_all, extend, get_actions_for_states, actions_for_flows,
  actions_for_flow, kick_out, remove_first, get_state_transitions, apply_action,
}
use comnetsemu.Learning.Moves.{IsMoveOf}
use comnetsemu.Learning.ActionLaws.{get_actions_for_states-IsMoveOf}
use comnetsemu.Learning.Tables.{create_new_q_table, put_actions, put_action}
use comnetsemu.Learning.Building.{
  update_q_table, possible_actions, filter_possible_paths_by_hops, minimum_length, drop_long,
}
use comnetsemu.Learning.Loop.{
  Settings, Elements, Learner, reset_load, changed_flows, flows_of, first_flow, build,
}
use comnetsemu.Learning.Turn.{
  Turn, stopped, step, decide, serve, known_flows, measure, when_gathered, learn, next_choice, act,
}
use comnetsemu.Learning.Choice.{get_action, get_action_ucb, total_visits, ucb_loop}
use comnetsemu.Learning.Rewards.{
  get_reward, get_average_latency, get_costs_of_paths, path_latency, path_latency_from,
  link_latency, sum_from, sum_squares_from,
}
use comnetsemu.Learning.Ready.{IsMoveFrom}
use comnetsemu.Learning.TableFits.{create_new_q_table-IsTableFor}
use comnetsemu.Learning.Decide.{IsReady}
use comnetsemu.Learning.BuiltTables.{IsDistinct}
use comnetsemu.Learning.Steps.{IsSound}
use comnetsemu.Learning.Safety.{IsSafe, step-IsSafe}
use comnetsemu.Learning.Epsilon.{IsIdle, step-IsIdle}
use comnetsemu.Learning.Answers.{decide-IsMoveFrom}
use comnetsemu.Learning.Tests.{
  numbers, numbers-IsOrder, first_ones, first_ones-IsRandom, paths_of_two, both_short,
  both_short-Chooses, paths_of_two-HasDistinctFlows, paths_of_two-HasDistinctPaths,
}

-- A weighted bandit with confidence bounds, which decides after each measurement.
abbrev settings : Settings ℕ
settings = record {
  alpha = 1;
  gamma = 1;
  learning_mode = multi_armed_bandit_with_weight;
  exploration_mode = ucb;
  reward_mode = only_lat;
  measurements_for_reward = 1;
  temperature = 1;
  exploration_degree = 3;
  softmax_init_value = 1;
  merging_q_table_flag = false;
  split_up_load_levels = false;
  reset_q_test = false;
  epsilon_start = 1;
  epsilon_slope = 1;
  tenth = 0;
}

abbrev message : Elements ℕ
message = record {
  current_combination = both_short;
  paths_per_flow = paths_of_two;
  latency_dict = (3, (1, 4) ∷ []) ∷ [];
  reset_flag = false;
  load_level = 10;
  iteration_flag = false;
  iteration = 0;
  stop_flag = false;
}

abbrev some_of : Option (List (Combination × Action)) → List (Combination × Action)
some_of none = []
some_of (some actions) = actions

abbrev actions_of_two : List (Combination × Action)
actions_of_two = some_of (get_actions_for_states paths_of_two (get_possible_states paths_of_two))

actions_of_two-found :
    get_actions_for_states paths_of_two (get_possible_states paths_of_two) ≡ some actions_of_two
unfolding get_actions_for_states get_possible_states extend_all extend actions_for_flows
    actions_for_flow kick_out remove_first lookup
actions_of_two-found = refl

-- The learner before its first action.
abbrev ready_learner : Learner ℕ
ready_learner = record {
  q = create_new_q_table neg_inf actions_of_two;
  values = [];
  actions = actions_of_two;
  state_transitions = get_state_transitions actions_of_two;
  copied_paths_per_flow = some paths_of_two;
  epsilon = 1;
  temp_flows = 7 ∷ 8 ∷ [];
  current_state = both_short;
  previous_state = [];
  previous_action = none;
  next_action = none;
  rewards_list = [];
  load_level = 10;
  iterations_level = 0;
  general_iterator = 0;
}

actions_of_two-IsMoveOf :
    (s : Combination) (a : Action) → Memᴰ (s, a) actions_of_two ↔ IsMoveOf paths_of_two (s, a)
actions_of_two-IsMoveOf =
    let (actions, e, spec) =
      get_actions_for_states-IsMoveOf paths_of_two paths_of_two-HasDistinctFlows
        paths_of_two-HasDistinctPaths in
    let same : actions ≡ actions_of_two = ground (arith, e, actions_of_two-found) in
    subst (λ l. (s : Combination) (a : Action) → Memᴰ (s, a) l ↔ IsMoveOf paths_of_two (s, a)) same
      spec

ready_learner-IsReady : IsReady paths_of_two ready_learner
ready_learner-IsReady = (
  create_new_q_table-IsTableFor paths_of_two neg_inf actions_of_two
      (λ s a m. (actions_of_two-IsMoveOf s a).0 m)
      (λ s p. (actions_of_two-IsMoveOf s no_trans).1 (p, tt)),
  (both_short, both_short-Chooses, refl),
  (actions_of_two, actions_of_two-found, refl),
)

paths_of_two-IsDistinct : IsDistinct paths_of_two
paths_of_two-IsDistinct = (paths_of_two-HasDistinctFlows, paths_of_two-HasDistinctPaths)

message-IsSound : IsSound message
unfolding filter_possible_paths_by_hops minimum_length drop_long
message-IsSound =
    (paths_of_two, refl, paths_of_two-IsDistinct, (both_short, both_short-Chooses, refl))

abbrev turn_of : Outcome (Turn ℕ) → Turn ℕ
turn_of (failed e) = stopped []
turn_of (done turn) = turn

abbrev next_turn : Turn ℕ
next_turn = turn_of (step numbers first_ones settings false message ready_learner)

next_turn-found : step numbers first_ones settings false message ready_learner ≡ done next_turn
unfolding step reset_load serve known_flows changed_flows flows_of measure get_reward
    get_average_latency get_costs_of_paths path_latency path_latency_from link_latency sum_from
    sum_squares_from when_gathered decide learn next_choice get_action get_action_ucb total_visits
    ucb_loop act lookup insert create_new_q_table put_actions put_action dumps sort_insert
    get_actions_for_states get_possible_states extend_all extend actions_for_flows actions_for_flow
    kick_out remove_first
next_turn-found = refl

step-IsSafe_example : IsSafe next_turn
step-IsSafe_example =
    step-IsSafe numbers first_ones settings numbers-IsOrder first_ones-IsRandom tt false message
      ready_learner next_turn message-IsSound
      (inr (paths_of_two, paths_of_two-IsDistinct, ready_learner-IsReady)) next_turn-found

decide-IsMoveFrom_example :
    (l' : Learner ℕ) × (a : Action) × (◌≡◌ {A = Outcome (Learner ℕ × List Action)}
      (decide numbers first_ones settings message ready_learner)
      (done (l', a ∷ [])))
    × IsMoveFrom paths_of_two both_short a
decide-IsMoveFrom_example =
    decide-IsMoveFrom numbers first_ones settings paths_of_two message ready_learner numbers-IsOrder
      refl refl ready_learner-IsReady

-- The same with a falling epsilon, at the first flow.
abbrev falling_settings : Settings ℕ
falling_settings = record settings { exploration_mode = falling_eps }

abbrev first_learner : Learner ℕ
first_learner = record ready_learner { temp_flows = [] }

abbrev first_turn : Turn ℕ
first_turn = turn_of (step numbers first_ones falling_settings false message first_learner)

first_turn-found :
    step numbers first_ones falling_settings false message first_learner ≡ done first_turn
unfolding first_flow build update_q_table possible_actions filter_possible_paths_by_hops
    minimum_length drop_long get_state_transitions apply_action step reset_load serve known_flows
    changed_flows flows_of measure get_reward get_average_latency get_costs_of_paths path_latency
    path_latency_from link_latency sum_from sum_squares_from when_gathered decide learn next_choice
    get_action get_action_ucb total_visits ucb_loop act lookup insert create_new_q_table put_actions
    put_action dumps sort_insert get_actions_for_states get_possible_states extend_all extend
    actions_for_flows actions_for_flow kick_out remove_first
first_turn-found = refl

step-IsIdle_example : IsIdle first_turn
step-IsIdle_example =
    step-IsIdle numbers first_ones falling_settings false message first_learner first_turn refl refl
      first_turn-found
