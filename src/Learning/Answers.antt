-- ===== src/Learning/Answers.antt =====
-- The decision of `learning_module` for a weighted bandit with confidence bounds.
use comnetsemu.Prelude.{
  nat_eq, list_eq, pair_eq, List, [], ◌∷◌, Option, some, ◌≡◌, inl, inr, refl, sym, subst, arith,
  Option-cases, Bool-cases,
}
use comnetsemu.Learning.Data.{
  Choices, Action, no_trans, action_eq, dumps, multi_armed_bandit_with_weight, Outcome, done,
  failed, Exception, ◌>>=◌,
}
use comnetsemu.Learning.Numbers.{Reals}
use comnetsemu.Learning.Tables.{update_q_bandit}
use comnetsemu.Learning.Best.{IsOrder}
use comnetsemu.Learning.Choice.{Random, get_action}
use comnetsemu.Learning.Loop.{Settings, Elements, Learner}
use comnetsemu.Learning.Building.{is_empty}
use comnetsemu.Learning.Turn.{mean, learn_from, learn, next_choice, act, count, decide}
use comnetsemu.Learning.Ready.{IsMoveFrom}
use comnetsemu.Learning.Updated.{Outcome-cases}
use comnetsemu.Learning.Data.{ucb}
use comnetsemu.Learning.Tables.{entry_at, bandit_entry}
use comnetsemu.Learning.Ucb.{get_action_ucb-Memᴰ}
use comnetsemu.Learning.Decide.{IsPlain, IsReady, learn-IsAfter}

module _ {R : Type 0} (r : Reals R) (random : Random R) (config : Settings R)
    (choices : Choices) where
  learn_from_done :
      (reward : R) (action : Action) (m : Elements R) (l : Learner R) (x : Exception)
      → learn_from r random config multi_armed_bandit_with_weight reward action m l ≡ failed x
      → ⊥
  unfolding learn_from update_q_bandit bandit_entry
  learn_from_done reward action m l x h =
      elim (Option-cases (entry_at l.q (dumps l.previous_state) action)) [
        | inl gone ↦ absurd (ground (arith, rw (learn_from, update_q_bandit, gone) at h))
        | inr (e, found) ↦ absurd (ground (arith, rw (learn_from, update_q_bandit, found) at h))
      ]

  learn_done :
      (m : Elements R) (l : Learner R) (x : Exception)
      → config.learning_mode ≡ multi_armed_bandit_with_weight
      → learn r random config m l ≡ failed x
      → ⊥
  unfolding learn
  learn_done m l x weighted h = elim (Option-cases l.previous_action) [
    | inl nothing ↦ absurd (ground (arith, rw (learn, nothing) at h))
    | inr (action, taken) ↦ elim (Bool-cases (is_empty l.previous_state)) [
      | inl unknown ↦ absurd (ground (arith, rw (learn, taken, unknown) at h))
      | inr known ↦
          let k = rw (learn, taken, known) at h in
          learn_from_done (mean r random config l.rewards_list) action m l x (
            subst
              (λ mode.
                learn_from r random config mode (mean r random config l.rewards_list) action m l
                ≡ failed x)
              weighted k)
    ]
  ]

  next_choice_done :
      (l : Learner R) (a b : Action) (choice : Outcome (Option Action)) (action : Outcome Action)
      → action ≡ done a
      → choice ≡ (action >>= (λ (c : Action). done (some c)))
      → choice ≡ done (some a)
  next_choice_done l a b choice action h k = rw h at k

  decided :
      (m : Elements R) (l l' : Learner R) (a : Action)
      → learn r random config m l ≡ done l'
      → next_choice r random config config.learning_mode l' ≡ done (some a)
      → ◌≡◌ {A = Outcome (Learner R × List Action)}
          (decide r random config m l)
          (done (count r random config (act r random config a l'), a ∷ []))
  unfolding decide
  decided m l l' a learned choice = rw (decide, learned, choice) refl

  choice_of :
      (l : Learner R)
      → next_choice r random config multi_armed_bandit_with_weight l ≡ (
          get_action r random config.exploration_mode l.current_state l.q l.epsilon
            config.temperature config.exploration_degree
          >>= (λ (c : Action). done (some c)))
  unfolding next_choice
  choice_of l = refl

  -- A weighted bandit that explores by confidence bounds always comes to a decision: in a possible state it sends one
  -- action, which is a possible one.
  pub decide-IsMoveFrom :
      (m : Elements R) (l : Learner R)
      → IsOrder r
      → config.learning_mode ≡ multi_armed_bandit_with_weight
      → config.exploration_mode ≡ ucb
      → IsReady choices l
      → (l' : Learner R) × (a : Action) × (◌≡◌ {A = Outcome (Learner R × List Action)}
          (decide r random config m l)
          (done (l', a ∷ [])))
        × IsMoveFrom choices l.current_state a
  unfolding get_action
  decide-IsMoveFrom m l o weighted bounds ready = elim (Outcome-cases (learn r random config m l)) [
    | inl (x, bad) ↦ absurd (learn_done m l x weighted bad)
    | inr (l1, learned) ↦ answer l1 learned
  ]
    where
      answer :
          (l1 : Learner R)
          → learn r random config m l ≡ done l1
          → (l' : Learner R) × (a : Action) × (◌≡◌ {A = Outcome (Learner R × List Action)}
              (decide r random config m l)
              (done (l', a ∷ [])))
            × IsMoveFrom choices l.current_state a
      answer l1 learned =
          let plain : IsPlain config.learning_mode = subst IsPlain (sym weighted) tt in
          let ((fits, p, made), same_state) =
            learn-IsAfter r random config choices m l l1 plain learned ready in
          let (row, found, (distinct, (g, kept), moves)) = fits l1.current_state p in
          let (a, e, chosen, there) =
            get_action_ucb-Memᴰ r random o l1.q l1.current_state config.exploration_degree row
              no_trans g distinct found kept in
          let action : get_action r random config.exploration_mode l1.current_state l1.q l1.epsilon
                config.temperature config.exploration_degree
              ≡ done a =
            subst
              (λ mode.
                get_action r random mode l1.current_state l1.q l1.epsilon config.temperature
                  config.exploration_degree
                ≡ done a)
              (sym bounds) chosen in
          let choice = next_choice_done l1 a a _ _ action (choice_of l1) in
          let choice' =
            subst (λ mode. next_choice r random config mode l1 ≡ done (some a)) (sym weighted)
              choice in
          (
            count r random config (act r random config a l1),
            a,
            decided m l l1 a learned choice',
            subst (λ c. IsMoveFrom choices c a) same_state (moves a e there),
          )
