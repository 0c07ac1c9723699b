-- ===== src/Learning/Decide.antt =====
-- What `learning_module` sends in a possible state, and the state after it.
use comnetsemu.Prelude.{
  nat_eq, list_eq, pair_eq, List, [], ◌∷◌, none, some, ◌≡◌, ◌⊎◌, inl, inr, refl, subst, arith,
  Option-cases, Bool-cases, All,
}
use comnetsemu.Learning.Data.{
  Combination, Choices, Action, no_trans, action_eq, QMode, shortest_path,
  multi_armed_bandit_no_weight, multi_armed_bandit_with_weight, q_learning, sarsa, td_zero, Outcome,
  done, failed, ◌>>=◌, ExplorationMode,
}
use comnetsemu.Learning.Numbers.{Reals, QTable}
use comnetsemu.Learning.Moves.{HasDistinctFlows, HasDistinctPaths}
use comnetsemu.Learning.Best.{IsOrder}
use comnetsemu.Learning.Softmax.{IsRandom}
use comnetsemu.Learning.Choice.{Random, get_action}
use comnetsemu.Learning.ChoiceLaws.{get_action-IsOffered}
use comnetsemu.Learning.Loop.{Settings, Elements, Learner}
use comnetsemu.Learning.Building.{is_empty}
use comnetsemu.Learning.Turn.{mean, learn_from, learn, next_choice, act, count, decide}
use comnetsemu.Learning.Ready.{
  IsPossible, IsMoveFrom, IsTableFor, AreTransitionsOf, get_next_state-IsPossible,
}
use comnetsemu.Learning.Updated.{Outcome-cases, update_q_bandit-IsTableFor, update_q_ql-IsTableFor}

-- The modes with a Q table in which each action is chosen anew.
abbrev pub IsPlain : QMode → Type 0
IsPlain shortest_path = Unit
IsPlain multi_armed_bandit_no_weight = Unit
IsPlain multi_armed_bandit_with_weight = Unit
IsPlain q_learning = Unit
IsPlain sarsa = ⊥
IsPlain td_zero = ⊥

-- The learner is in a possible state of the paths, with their transitions and a table of their actions.
abbrev pub IsReady : {R : Type 0} → Choices → Learner R → Type 0
IsReady {R = R} choices l =
    IsTableFor choices l.q
    × IsPossible choices l.current_state
    × AreTransitionsOf choices l.state_transitions

module _ {R : Type 0} (r : Reals R) (random : Random R) (config : Settings R)
    (choices : Choices) where
  -- The table may be another; the state is the same.
  abbrev pub IsAfter : Learner R → Learner R → Type 0
  IsAfter l l' = IsReady choices l' × (l'.current_state ≡ l.current_state)

  learned-IsAfter :
      (l l' : Learner R) (update : Outcome (QTable R))
      → (update >>= (λ (q : QTable R). done (record l { q = q }))) ≡ done l'
      → ((q : QTable R) → update ≡ done q → IsTableFor choices q)
      → IsReady choices l
      → IsAfter l l'
  learned-IsAfter l l' (failed e) h fits (t, p, a) = absurd (cc)
  learned-IsAfter l l' (done q) h fits (t, p, a) =
      let here : record l { q = q } ≡ l' = ground (arith, h) in
      subst (IsAfter l) here ((fits q refl, p, a), refl)

  learn_from-IsAfter :
      (mode : QMode) (reward : R) (action : Action) (m : Elements R) (l l' : Learner R)
      → IsPlain mode
      → learn_from r random config mode reward action m l ≡ done l'
      → IsReady choices l
      → IsAfter l l'
  unfolding learn_from
  learn_from-IsAfter shortest_path reward action m l l' plain h ready =
      let here : l ≡ l' = ground (arith, h) in subst (IsAfter l) here (ready, refl)
  learn_from-IsAfter multi_armed_bandit_no_weight reward action m l l' plain h ready =
      learned-IsAfter l l' _ h
        (λ q e.
          update_q_bandit-IsTableFor r choices l.previous_state config.alpha l.q q reward action
            multi_armed_bandit_no_weight e ready.0)
        ready
  learn_from-IsAfter multi_armed_bandit_with_weight reward action m l l' plain h ready =
      learned-IsAfter l l' _ h
        (λ q e.
          update_q_bandit-IsTableFor r choices l.previous_state config.alpha l.q q reward action
            multi_armed_bandit_with_weight e ready.0)
        ready
  learn_from-IsAfter q_learning reward action m l l' plain h ready =
      learned-IsAfter l l' _ h
        (λ q e.
          update_q_ql-IsTableFor r choices l.previous_state m.current_combination config.alpha
            config.gamma l.q q reward action e ready.0)
        ready
  learn_from-IsAfter sarsa reward action m l l' plain h ready = absurd plain
  learn_from-IsAfter td_zero reward action m l l' plain h ready = absurd plain

  pub learn-IsAfter :
      (m : Elements R) (l l' : Learner R)
      → IsPlain config.learning_mode
      → learn r random config m l ≡ done l'
      → IsReady choices l
      → IsAfter l l'
  unfolding learn
  learn-IsAfter m l l' plain h ready = elim (Option-cases l.previous_action) [
    | inl nothing ↦
        let same : done l ≡ done l' = rw (learn, nothing) at h in
        let here : l ≡ l' = ground (arith, same) in subst (IsAfter l) here (ready, refl)
    | inr (action, taken) ↦ elim (Bool-cases (is_empty l.previous_state)) [
      | inl unknown ↦
          let same : done l ≡ done l' = rw (learn, taken, unknown) at h in
          let here : l ≡ l' = ground (arith, same) in subst (IsAfter l) here (ready, refl)
      | inr known ↦
          learn_from-IsAfter config.learning_mode (mean r random config l.rewards_list) action m l
            l' plain (rw (learn, taken, known) at h) ready
    ]
  ]

module _ {R : Type 0} (r : Reals R) (random : Random R) (config : Settings R) (choices : Choices)
    (o : IsOrder r) (draws : IsRandom random) where
  get_action-IsMoveFrom :
      (mode : ExplorationMode) (c : Combination) (q : QTable R) (epsilon tau degree : R)
      (a : Action)
      → get_action r random mode c q epsilon tau degree ≡ done a
      → IsTableFor choices q
      → IsPossible choices c
      → IsMoveFrom choices c a
  get_action-IsMoveFrom mode c q epsilon tau degree a h fits p =
      let (row, found, (distinct, (g, kept), moves)) = fits c p in
      elim (get_action-IsOffered r random o draws mode c q epsilon tau degree row no_trans g
        distinct found kept) [
          | inl (b, e, chosen, there) ↦
              let same : b ≡ a = ground (arith, chosen, h) in
              subst (IsMoveFrom choices c) same (moves b e there)
          | inr (inl (bad, _)) ↦ absurd (cc)
          | inr (inr (inl (bad, _, _))) ↦ absurd (cc)
          | inr (inr (inr (bad, _, _))) ↦ absurd (cc)
        ]

  chosen-IsMoveFrom :
      (l : Learner R) (a : Action) (choice : Outcome Action)
      → (choice >>= (λ (b : Action). done (some b))) ≡ done (some a)
      → ((b : Action) → choice ≡ done b → IsMoveFrom choices l.current_state b)
      → IsMoveFrom choices l.current_state a
  chosen-IsMoveFrom l a (failed e) h moves = absurd (cc)
  chosen-IsMoveFrom l a (done b) h moves =
      let same : b ≡ a = ground (arith, h) in
      subst (IsMoveFrom choices l.current_state) same (moves b refl)

  next_choice-IsMoveFrom :
      (mode : QMode) (l : Learner R) (a : Action)
      → IsPlain mode
      → next_choice r random config mode l ≡ done (some a)
      → IsReady choices l
      → IsMoveFrom choices l.current_state a
  unfolding next_choice
  next_choice-IsMoveFrom shortest_path l a plain h ready = absurd (ground (arith, h))
  next_choice-IsMoveFrom multi_armed_bandit_no_weight l a plain h ready =
      chosen-IsMoveFrom l a _ h (λ b e.
        get_action-IsMoveFrom config.exploration_mode l.current_state l.q l.epsilon
          config.temperature config.exploration_degree b e ready.0 ready.1)
  next_choice-IsMoveFrom multi_armed_bandit_with_weight l a plain h ready =
      chosen-IsMoveFrom l a _ h (λ b e.
        get_action-IsMoveFrom config.exploration_mode l.current_state l.q l.epsilon
          config.temperature config.exploration_degree b e ready.0 ready.1)
  next_choice-IsMoveFrom q_learning l a plain h ready = chosen-IsMoveFrom l a _ h (λ b e.
      get_action-IsMoveFrom config.exploration_mode l.current_state l.q l.epsilon config.temperature
        config.exploration_degree b e ready.0 ready.1)
  next_choice-IsMoveFrom sarsa l a plain h ready = absurd plain
  next_choice-IsMoveFrom td_zero l a plain h ready = absurd plain

  -- What is sent are possible actions in the state before.
  abbrev pub SendsMoves : Learner R → Learner R × List Action → Type 0
  SendsMoves l result =
      All (IsMoveFrom choices l.current_state) result.1
      × ((result.1 ≡ []) ⊎ (result.0.previous_state ≡ l.current_state))
      × IsReady choices result.0

  module _ (flows : HasDistinctFlows choices) (paths : HasDistinctPaths choices) where
    act-IsReady :
        (l : Learner R) (a : Action)
        → IsReady choices l
        → IsMoveFrom choices l.current_state a
        → IsReady choices (act r random config a l)
    unfolding act
    act-IsReady l a (t, p, s) m = (
      t,
      get_next_state-IsPossible choices flows paths l.state_transitions l.current_state a s p m,
      s,
    )

    same_previous :
        (l' l : Learner R) (a : Action)
        → l'.current_state ≡ l.current_state
        → (act r random config a l').previous_state ≡ l.current_state
    unfolding act
    same_previous l' l a e = e

    -- In a possible state, whatever is learned, the action that is sent is a possible one, and leads to a possible state.
    pub decide-SendsMoves :
        (m : Elements R) (l : Learner R) (result : Learner R × List Action)
        → IsPlain config.learning_mode
        → IsReady choices l
        → decide r random config m l ≡ done result
        → SendsMoves l result
    unfolding decide
    decide-SendsMoves m l result plain ready h = elim (Outcome-cases (learn r random config m l)) [
      | inl (e, bad) ↦ let none_left : failed e ≡ done result = rw (decide, bad) at h in absurd (cc)
      | inr (l', learned) ↦
          let (ready', same_state) =
            learn-IsAfter r random config choices m l l' plain learned ready in
          elim (Outcome-cases (next_choice r random config config.learning_mode l')) [
            | inl (e, bad) ↦
                let none_left : failed e ≡ done result = rw (decide, learned, bad) at h in
                absurd (cc)
            | inr (none, chosen) ↦
                let same : done (count r random config l', []) ≡ done result =
                  rw (decide, learned, chosen) at h in
                let here : ◌≡◌ {A = Learner R × List Action} (count r random config l', []) result =
                  ground (arith, same) in
                subst (SendsMoves l) here (tt, inl refl, ready')
            | inr (some a, chosen) ↦
                let same : done (count r random config (act r random config a l'), a ∷ [])
                    ≡ done result =
                  rw (decide, learned, chosen) at h in
                let here : ◌≡◌ {A = Learner R × List Action}
                    (count r random config (act r random config a l'), a ∷ []) result =
                  ground (arith, same) in
                let move = next_choice-IsMoveFrom config.learning_mode l' a plain chosen ready' in
                subst (SendsMoves l) here (
                  (rw same_state at move, tt),
                  inr (same_previous l' l a same_state),
                  act-IsReady l' a ready' move,
                )
          ]
    ]
