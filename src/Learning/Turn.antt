-- ===== src/Learning/Turn.antt =====
-- The part of `learning_module`'s loop that learns and acts, and the loop.
use comnetsemu.Prelude.{
  ℕ, zero, suc, ◌+◌, Bool, true, false, if◌then◌else◌, ltb, leb, nat_eq, list_eq, pair_eq, List, [],
  ◌∷◌, ◌++◌, Option, none, some, length,
}
use comnetsemu.Learning.Data.{
  Combination, Action, action_eq, QMode, shortest_path, multi_armed_bandit_no_weight,
  multi_armed_bandit_with_weight, q_learning, sarsa, td_zero, ExplorationMode, constant_eps,
  falling_eps, softmax, ucb, RewardMode, only_lat, lat_utilisation, Outcome, done, failed, ◌>>=◌,
  or_fail, value_error, type_error,
}
use comnetsemu.Learning.Numbers.{Reals}
use comnetsemu.Learning.Spaces.{get_next_state}
use comnetsemu.Learning.Tables.{update_q_bandit, update_q_ql, update_q_sarsa, update_td_zero}
use comnetsemu.Learning.Choice.{Random, get_action, get_action_td_zero}
use comnetsemu.Learning.Rewards.{get_reward, get_average_latency, sum_from}
use comnetsemu.Learning.Building.{is_empty}
use comnetsemu.Learning.Loop.{
  Settings, Elements, Learner, reset_load, reset_iteration, first_flow, changed_flows,
}

-- What a message leads to: the end of the loop, or the variables and what was sent.
pub data Turn (R : Type 0) : Type 0 where
  stopped : List Action → Turn R
  going : Learner R → List Action → Turn R

module _ {R : Type 0} (r : Reals R) (random : Random R) (config : Settings R) where
  -- `get_reward_utilization` is called with two arguments, and takes none.
  abbrev pub reward_of : RewardMode → Elements R → Outcome R
  reward_of only_lat m = get_reward r m.current_combination m.latency_dict
  reward_of lat_utilisation m = failed type_error

  -- The logarithm of 0 is a ValueError.
  unfoldable pub calc_epsilon : ℕ → Outcome R
  calc_epsilon zero = failed value_error
  calc_epsilon (suc n) =
      done (r.sub config.epsilon_start (r.mul config.epsilon_slope (r.log (r.of_nat (suc n)))))

  abbrev pub epsilon_now : ExplorationMode → Learner R → Outcome R
  epsilon_now falling_eps l = calc_epsilon l.general_iterator
  epsilon_now constant_eps l = done l.epsilon
  epsilon_now softmax l = done l.epsilon
  epsilon_now ucb l = done l.epsilon

  -- The measurements of a message; the average latency is only logged.
  unfoldable pub measure : Elements R → Learner R → Outcome (Learner R)
  unfolding get_reward get_average_latency calc_epsilon
  measure m l = do
    reward ← reward_of config.reward_mode m
    latency ← get_average_latency r m.current_combination m.latency_dict
    epsilon ← epsilon_now config.exploration_mode l
    done (record l { rewards_list = l.rewards_list ++ reward ∷ []; epsilon = epsilon })

  -- `np.mean` of a list that is not empty
  abbrev pub mean : List R → R
  mean xs = r.div (sum_from r r.zero xs) (r.of_nat (length xs))

  -- `get_action` with the settings
  abbrev pub choose : Combination → Learner R → Outcome Action
  choose state l =
      get_action r random config.exploration_mode state l.q l.epsilon config.temperature
        config.exploration_degree

  -- The update of the table by the reward of the action before.
  unfoldable pub learn_from : QMode → R → Action → Elements R → Learner R → Outcome (Learner R)
  unfolding update_q_bandit update_q_ql update_q_sarsa update_td_zero get_action
  learn_from shortest_path reward action m l = done l
  learn_from multi_armed_bandit_no_weight reward action m l = do
    q ←
        update_q_bandit r l.previous_state config.alpha l.q reward action
          multi_armed_bandit_no_weight
    done (record l { q = q })
  learn_from multi_armed_bandit_with_weight reward action m l = do
    q ←
        update_q_bandit r l.previous_state config.alpha l.q reward action
          multi_armed_bandit_with_weight
    done (record l { q = q })
  learn_from q_learning reward action m l = do
    q ←
        update_q_ql r l.previous_state m.current_combination config.alpha config.gamma l.q reward
          action
    done (record l { q = q })
  learn_from sarsa reward action m l = do
    following ← choose l.current_state l
    let (q, next) =
        update_q_sarsa r l.previous_state l.current_state config.alpha config.gamma l.q reward
          action following
    done (record l { q = q; next_action = some next })
  learn_from td_zero reward action m l = done (record l {
    values =
        update_td_zero r config.tenth l.previous_state l.current_state config.alpha l.values reward;
  })

  unfoldable pub learn : Elements R → Learner R → Outcome (Learner R)
  unfolding learn_from
  learn m l = elim l.previous_action [
    | none ↦ done l
    | some action ↦
        if is_empty l.previous_state
        then done l
        else learn_from config.learning_mode (mean l.rewards_list) action m l
  ]

  -- The action to take; `none` if paths are the shortest ones.
  unfoldable pub next_choice : QMode → Learner R → Outcome (Option Action)
  unfolding get_action get_action_td_zero
  next_choice shortest_path l = done none
  next_choice td_zero l = do
    action ←
        get_action_td_zero r random config.exploration_mode l.current_state l.values
          config.temperature l.actions l.state_transitions
    chosen ← or_fail action type_error
    done (some chosen)
  next_choice sarsa l = elim l.next_action [
    | some action ↦ done (some action)
    | none ↦ do action ← choose l.current_state l; done (some action)
  ]
  next_choice multi_armed_bandit_no_weight l = do
    action ← choose l.current_state l
    done (some action)
  next_choice multi_armed_bandit_with_weight l = do
    action ← choose l.current_state l
    done (some action)
  next_choice q_learning l = do action ← choose l.current_state l; done (some action)

  -- The variables after an action.
  unfoldable pub act : Action → Learner R → Learner R
  unfolding get_next_state
  act action l = record l {
    previous_action = some action;
    previous_state = l.current_state;
    current_state = get_next_state l.state_transitions l.current_state action;
  }

  -- The counters, after enough rewards.
  abbrev pub count : Learner R → Learner R
  count l = record l { general_iterator = l.general_iterator + 1; rewards_list = [] }

  unfoldable pub decide : Elements R → Learner R → Outcome (Learner R × List Action)
  unfolding learn next_choice act
  decide m l = do
    l' ← learn m l
    choice ← next_choice config.learning_mode l'
    elim choice [
      | none ↦ done (count l', [])
      | some action ↦ done (count (act action l'), action ∷ [])
    ]

  -- A decision, once enough rewards are gathered.
  unfoldable pub when_gathered : Elements R → Learner R → Outcome (Learner R × List Action)
  unfolding decide
  when_gathered m l = elim (leb config.measurements_for_reward (length l.rewards_list)) [
    | false ↦ done (l, [])
    | true ↦ decide m l
  ]

  -- The branch of the loop for flows that are known.
  unfoldable pub known_flows : Elements R → Learner R → Outcome (Learner R × List Action)
  unfolding changed_flows measure when_gathered
  known_flows m l = do l1 ← changed_flows r random config m l; l2 ← measure m l1; when_gathered m l2

  -- The part of the loop for a load level that is not 0.
  unfoldable pub serve : Elements R → Learner R → Outcome (Learner R × List Action)
  unfolding first_flow known_flows
  serve m l = elim (ltb 0 l.load_level) [
    | false ↦ done (l, [])
    | true ↦ elim (is_empty l.temp_flows) [
      | false ↦ known_flows m l
      | true ↦ do l' ← first_flow r random config m l; done (l', [])
    ]
  ]

  -- One round of the loop, where `expired` is the test of the running time.
  unfoldable pub step : Bool → Elements R → Learner R → Outcome (Turn R)
  unfolding reset_load reset_iteration serve
  step expired m l = elim (is_empty m.current_combination) [
    | true ↦ done (going l [])
    | false ↦ elim m.stop_flag [
      | true ↦ done (stopped [])
      | false ↦ do
        l1 ← reset_load r random config m l
        elim m.iteration_flag [
          | true ↦ do l2 ← reset_iteration r random config m l1; done (going l2 [])
          | false ↦ do
            (l2, sent) ← serve m l1
            done (if expired then stopped sent else going l2 sent)
        ]
    ]
  ]
