-- ===== src/Learning/Steps.antt =====
-- The rounds of `learning_module`'s loop.
use comnetsemu.Prelude.{
  ℕ, Bool, false, if◌then◌else◌, ◌==◌, nat_eq, list_eq, pair_eq, List, [], ◌∷◌, ◌++◌, length, ◌≡◌,
  ◌⊎◌, inl, inr, refl, subst, arith, Bool-cases, All,
}
use comnetsemu.Learning.Data.{
  Choices, Action, QMode, shortest_path, multi_armed_bandit_no_weight,
  multi_armed_bandit_with_weight, q_learning, sarsa, td_zero, done, failed,
}
use comnetsemu.Learning.Numbers.{Reals, QTable}
use comnetsemu.Learning.Choice.{Random}
use comnetsemu.Learning.Building.{filter_possible_paths_by_hops, update_q_table}
use comnetsemu.Learning.Rewards.{get_average_latency}
use comnetsemu.Learning.Loop.{
  Settings, Elements, Learner, flows_of, difference, is_td_zero, init_value, build, reset_q, forget,
  reset_load, reset_iteration, adopt, first_flow, changed_flows,
}
use comnetsemu.Learning.Turn.{reward_of, epsilon_now, measure}
use comnetsemu.Learning.Ready.{IsPossible, IsMoveFrom, IsTableFor, AreTransitionsOf}
use comnetsemu.Learning.BuiltTables.{IsDistinct, update_q_table-fits}
use comnetsemu.Learning.Updated.{Outcome-cases}
use comnetsemu.Learning.Decide.{IsPlain, IsReady}

-- The paths that `update_Q_table` keeps of the message's paths.
abbrev pub KeepsPaths : {R : Type 0} → Elements R → Choices → Type 0
KeepsPaths m choices =
    filter_possible_paths_by_hops (λ id path. false) 100 m.paths_per_flow ≡ done choices

-- The combination of the message is made of paths that are kept.
abbrev pub IsSound : {R : Type 0} → Elements R → Type 0
IsSound m =
    (choices : Choices) × KeepsPaths m choices
    × IsDistinct choices
    × IsPossible choices m.current_combination

-- The learner has no flows yet, or is ready for some paths.
abbrev pub IsLive : {R : Type 0} → Learner R → Type 0
IsLive l = (l.temp_flows ≡ []) ⊎ ((choices : Choices) × IsDistinct choices × IsReady choices l)

-- Nothing is sent, or possible actions in the state that is kept as the previous one.
abbrev pub SendsSafely : {R : Type 0} → Learner R × List Action → Type 0
SendsSafely result =
    IsLive result.0
    × ((result.1 ≡ [])
        ⊎ ((choices : Choices) × IsReady choices result.0
            × All (IsMoveFrom choices result.0.previous_state) result.1))

IsPlain-is_td_zero : (mode : QMode) → IsPlain mode → is_td_zero mode ≡ false
IsPlain-is_td_zero shortest_path h = refl
IsPlain-is_td_zero multi_armed_bandit_no_weight h = refl
IsPlain-is_td_zero multi_armed_bandit_with_weight h = refl
IsPlain-is_td_zero q_learning h = refl
IsPlain-is_td_zero sarsa h = absurd h
IsPlain-is_td_zero td_zero h = absurd h

module _ {R : Type 0} (r : Reals R) (random : Random R) (config : Settings R)
    (plain : IsPlain config.learning_mode) where
  -- A built learner has the table and the transitions of the paths that are kept.
  build-fits :
      (reset : Bool) (paths choices : Choices) (joined : List ℕ) (l l' : Learner R)
      → filter_possible_paths_by_hops (λ id path. false) 100 paths ≡ done choices
      → IsDistinct choices
      → build r random config reset paths joined l ≡ done l'
      → IsTableFor choices l'.q × AreTransitionsOf choices l'.state_transitions
  unfolding build
  build-fits reset paths choices joined l l' kept distinct h =
      let init = init_value r random config config.exploration_mode in
      let flag = config.merging_q_table_flag in
      let prev_q : QTable R = if reset then [] else l.q in
      let anew = IsPlain-is_td_zero config.learning_mode plain in
      elim (Outcome-cases (update_q_table init prev_q paths flag joined)) [
        | inl (x, bad) ↦ absurd (ground (arith, rw (build, anew, bad) at h))
        | inr (b, good) ↦
            let same : done (record l { q = b.0; actions = b.1; state_transitions = b.2 })
                ≡ done l' =
              rw (build, anew, good) at h in
            let here : record l { q = b.0; actions = b.1; state_transitions = b.2 } ≡ l' =
              ground (arith, same) in
            subst
              (λ (x : Learner R).
                IsTableFor choices x.q × AreTransitionsOf choices x.state_transitions)
              here (update_q_table-fits init prev_q paths choices flag joined b kept distinct good)
      ]

  adopted-IsLive :
      (reset : Bool) (m : Elements R) (joined : List ℕ) (l l' : Learner R)
      → IsSound m
      → build r random config reset m.paths_per_flow joined l ≡ done l'
      → (choices : Choices) × IsDistinct choices × IsReady choices (adopt r random config m l')
  adopted-IsLive reset m joined l l' (choices, kept, distinct, p) h =
      let (fits, made) = build-fits reset m.paths_per_flow choices joined l l' kept distinct h in
      (choices, distinct, (fits, p, made))

  pub first_flow-IsLive :
      (m : Elements R) (l l' : Learner R)
      → IsSound m
      → first_flow r random config m l ≡ done l'
      → IsLive l'
  unfolding first_flow
  first_flow-IsLive m l l' sound h =
      elim (Outcome-cases (build r random config false m.paths_per_flow [] l)) [
        | inl (e, bad) ↦
            let none_left : failed e ≡ done l' = rw (first_flow, bad) at h in absurd (cc)
        | inr (l1, built) ↦
            let same : done (adopt r random config m l1) ≡ done l' = rw (first_flow, built) at h in
            let here : adopt r random config m l1 ≡ l' = ground (arith, same) in
            subst IsLive here (inr (adopted-IsLive false m [] l l1 sound built))
      ]

  pub changed_flows-IsReady :
      (m : Elements R) (choices : Choices) (l l' : Learner R)
      → IsSound m
      → IsDistinct choices
      → IsReady choices l
      → changed_flows r random config m l ≡ done l'
      → (kept : Choices) × IsDistinct kept × IsReady kept l'
  unfolding changed_flows
  changed_flows-IsReady m choices l l' sound distinct ready h =
      elim (Bool-cases (length (flows_of m.current_combination) == length l.temp_flows)) [
        | inl as_many ↦
            let same : done l ≡ done l' = rw (changed_flows, as_many) at h in
            let here : l ≡ l' = ground (arith, same) in
            subst (λ (x : Learner R). (kept : Choices) × IsDistinct kept × IsReady kept x) here
              (choices, distinct, ready)
        | inr others ↦
            let joined = difference (flows_of m.current_combination) l.temp_flows in
            elim (Outcome-cases (build r random config false m.paths_per_flow joined l)) [
              | inl (e, bad) ↦
                  let none_left : failed e ≡ done l' = rw (changed_flows, others, bad) at h in
                  absurd (cc)
              | inr (l1, built) ↦
                  let same : done (record (adopt r random config m l1) { rewards_list = [] })
                      ≡ done l' =
                    rw (changed_flows, others, built) at h in
                  let here : record (adopt r random config m l1) { rewards_list = [] } ≡ l' =
                    ground (arith, same) in
                  subst (λ (x : Learner R). (kept : Choices) × IsDistinct kept × IsReady kept x)
                    here (adopted-IsLive false m joined l l1 sound built)
            ]
      ]

  pub measure-IsReady :
      (m : Elements R) (choices : Choices) (l l' : Learner R)
      → IsReady choices l
      → measure r random config m l ≡ done l'
      → IsReady choices l'
  unfolding measure
  measure-IsReady m choices l l' ready h =
      elim (Outcome-cases (reward_of r random config config.reward_mode m)) [
        | inl (e, bad) ↦ let none_left : failed e ≡ done l' = rw (measure, bad) at h in absurd (cc)
        | inr (reward, good) ↦
            elim (Outcome-cases (get_average_latency r m.current_combination m.latency_dict)) [
              | inl (e, bad) ↦
                  let none_left : failed e ≡ done l' = rw (measure, good, bad) at h in absurd (cc)
              | inr (latency, fine) ↦
                  elim (Outcome-cases (epsilon_now r random config config.exploration_mode l)) [
                    | inl (e, bad) ↦
                        let none_left : failed e ≡ done l' = rw (measure, good, fine, bad) at h in
                        absurd (cc)
                    | inr (epsilon, now) ↦
                        let measured : Learner R = record l {
                          rewards_list = l.rewards_list ++ reward ∷ [];
                          epsilon = epsilon;
                        } in
                        let same : done measured ≡ done l' = rw (measure, good, fine, now) at h in
                        let here : measured ≡ l' = ground (arith, same) in
                        subst (IsReady choices) here ready
                  ]
            ]
      ]

  pub reset_load-IsLive :
      (m : Elements R) (l l' : Learner R)
      → IsLive l
      → reset_load r random config m l ≡ done l'
      → IsLive l'
  unfolding reset_load
  reset_load-IsLive m l l' live h = elim (Bool-cases m.reset_flag) [
    | inr kept ↦
        let same : done l ≡ done l' = rw (reset_load, kept) at h in
        let here : l ≡ l' = ground (arith, same) in subst IsLive here live
    | inl reset ↦
        let loaded : Learner R = record l { load_level = m.load_level } in
        elim (Bool-cases config.split_up_load_levels) [
          | inr whole ↦
              let same : done loaded ≡ done l' = rw (reset_load, reset, whole) at h in
              let here : loaded ≡ l' = ground (arith, same) in subst IsLive here live
          | inl split ↦ elim (Outcome-cases (reset_q r random config loaded)) [
            | inl (e, bad) ↦
                let none_left : failed e ≡ done l' = rw (reset_load, reset, split, bad) at h in
                absurd (cc)
            | inr (l1, fresh) ↦
                let same : done (forget r random config l1) ≡ done l' =
                  rw (reset_load, reset, split, fresh) at h in
                let here : forget r random config l1 ≡ l' = ground (arith, same) in
                subst IsLive here (inl refl)
          ]
        ]
  ]

  pub reset_iteration-IsLive :
      (m : Elements R) (l l' : Learner R)
      → reset_iteration r random config m l ≡ done l'
      → IsLive l'
  unfolding reset_iteration
  reset_iteration-IsLive m l l' h =
      elim (Outcome-cases (reset_q r random config (record l { iterations_level = m.iteration }))) [
        | inl (e, bad) ↦
            let none_left : failed e ≡ done l' = rw (reset_iteration, bad) at h in absurd (cc)
        | inr (l1, fresh) ↦
            let same : done (forget r random config l1) ≡ done l' =
              rw (reset_iteration, fresh) at h in
            let here : forget r random config l1 ≡ l' = ground (arith, same) in
            subst IsLive here (inl refl)
      ]
