-- ===== src/Learning/Epsilon.antt =====
-- A round of `learning_module`'s loop with a falling epsilon.
use comnetsemu.Prelude.{
  ℕ, Bool, true, false, if◌then◌else◌, ◌==◌, ltb, nat_eq, list_eq, pair_eq, List, [], length, ◌≡◌,
  inl, inr, refl, ap, sym, subst, arith, Bool-cases,
}
use comnetsemu.Learning.Data.{
  Choices, Action, falling_eps, Outcome, done, failed, ◌>>=◌, value_error,
}
use comnetsemu.Learning.Numbers.{Reals, QTable, ValueTable}
use comnetsemu.Learning.Choice.{Random}
use comnetsemu.Learning.Building.{Built, is_empty}
use comnetsemu.Learning.Rewards.{get_average_latency}
use comnetsemu.Learning.Loop.{
  Settings, Elements, Learner, flows_of, difference, is_td_zero, build, reset_q, forget, reset_load,
  reset_iteration, adopt, first_flow, changed_flows,
}
use comnetsemu.Learning.Turn.{
  Turn, stopped, going, reward_of, calc_epsilon, epsilon_now, measure, known_flows, serve, step,
}
use comnetsemu.Learning.Updated.{Outcome-cases}

-- Nothing was sent, and the iterator is still 0.
abbrev pub IsIdle : {R : Type 0} → Turn R → Type 0
IsIdle (stopped sent) = sent ≡ []
IsIdle (going l sent) = (l.general_iterator ≡ 0) × (sent ≡ [])

module _ {R : Type 0} (r : Reals R) (random : Random R) (config : Settings R) where
  -- If the call comes to a learner, then its iterator is 0.
  abbrev StaysZero : Outcome (Learner R) → Type 0
  StaysZero x = (l : Learner R) → x ≡ done l → l.general_iterator ≡ 0

  then_zero :
      {A : Type 0} (x : Outcome A) (f : A → Outcome (Learner R))
      → ((a : A) → x ≡ done a → StaysZero (f a))
      → StaysZero (x >>= f)
  then_zero (failed e) f h l k = absurd (cc)
  then_zero (done a) f h l k = h a refl l k

  done_zero : (l : Learner R) → l.general_iterator ≡ 0 → StaysZero (done l)
  done_zero l z l' h =
      let here : l ≡ l' = ground (arith, h) in
      subst (λ (x : Learner R). x.general_iterator ≡ 0) here z

  built_zero :
      (td : Bool) (x : Outcome (Built (ValueTable R))) (y : Outcome (Built (QTable R)))
      (l : Learner R)
      → l.general_iterator ≡ 0
      → StaysZero (
          if td
          then (x >>= (λ (b : Built (ValueTable R)).
              done (record l { values = b.0; actions = b.1; state_transitions = b.2 })))
          else (y >>= (λ (b : Built (QTable R)).
              done (record l { q = b.0; actions = b.1; state_transitions = b.2 }))))
  built_zero true (failed e) y l z l' h = absurd (cc)
  built_zero true (done b) y l z l' h =
      done_zero (record l { values = b.0; actions = b.1; state_transitions = b.2 }) z l' h
  built_zero false x (failed e) l z l' h = absurd (cc)
  built_zero false x (done b) l z l' h =
      done_zero (record l { q = b.0; actions = b.1; state_transitions = b.2 }) z l' h

  build_zero :
      (reset : Bool) (paths : Choices) (joined : List ℕ) (l : Learner R)
      → l.general_iterator ≡ 0
      → StaysZero (build r random config reset paths joined l)
  unfolding build
  build_zero reset paths joined l z = built_zero (is_td_zero config.learning_mode) _ _ l z

  first_flow_zero :
      (m : Elements R) (l : Learner R)
      → l.general_iterator ≡ 0
      → StaysZero (first_flow r random config m l)
  unfolding first_flow
  first_flow_zero m l z =
      then_zero (build r random config false m.paths_per_flow [] l)
        (λ l'. done (adopt r random config m l'))
        (λ l' e.
          done_zero (adopt r random config m l') (build_zero false m.paths_per_flow [] l z l' e))

  changed_flows_zero :
      (m : Elements R) (l : Learner R)
      → l.general_iterator ≡ 0
      → StaysZero (changed_flows r random config m l)
  unfolding changed_flows
  changed_flows_zero m l z =
      elim (Bool-cases (length (flows_of m.current_combination) == length l.temp_flows)) [
        | inl same ↦ rw (changed_flows, same) (done_zero l z)
        | inr other ↦
            let joined = difference (flows_of m.current_combination) l.temp_flows in
            rw (changed_flows, other)
              (then_zero (build r random config false m.paths_per_flow joined l)
                (λ l'. done (record (adopt r random config m l') { rewards_list = [] }))
                (λ l' e.
                  done_zero (record (adopt r random config m l') { rewards_list = [] })
                    (build_zero false m.paths_per_flow joined l z l' e)))
      ]

  -- The first measurement takes the logarithm of 0.
  measure_fails :
      (m : Elements R) (l l' : Learner R)
      → config.exploration_mode ≡ falling_eps
      → l.general_iterator ≡ 0
      → measure r random config m l ≡ done l'
      → ⊥
  unfolding measure calc_epsilon
  measure_fails m l l' falling z h =
      elim (Outcome-cases (reward_of r random config config.reward_mode m)) [
        | inl (e, bad) ↦ absurd (ground (arith, rw (measure, bad) at h))
        | inr (reward, good) ↦
            elim (Outcome-cases (get_average_latency r m.current_combination m.latency_dict)) [
              | inl (e, bad) ↦ absurd (ground (arith, rw (measure, good, bad) at h))
              | inr (latency, fine) ↦
                  let zero_log : calc_epsilon r random config l.general_iterator
                      ≡ failed value_error =
                    ap (calc_epsilon r random config) z in
                  let now : epsilon_now r random config config.exploration_mode l
                      ≡ failed value_error =
                    subst (λ mode. epsilon_now r random config mode l ≡ failed value_error)
                      (sym falling) zero_log in
                  absurd (ground (arith, rw (measure, good, fine, now) at h))
            ]
      ]

  reset_load_zero :
      (m : Elements R) (l : Learner R)
      → l.general_iterator ≡ 0
      → StaysZero (reset_load r random config m l)
  unfolding reset_load
  reset_load_zero m l z = elim (Bool-cases m.reset_flag) [
    | inr kept ↦ rw (reset_load, kept) (done_zero l z)
    | inl reset ↦ elim (Bool-cases config.split_up_load_levels) [
      | inr whole ↦
          rw (reset_load, reset, whole) (done_zero (record l { load_level = m.load_level }) z)
      | inl split ↦
          rw (reset_load, reset, split)
            (then_zero (reset_q r random config (record l { load_level = m.load_level }))
              (λ l'. done (forget r random config l'))
              (λ l' e. done_zero (forget r random config l') refl))
    ]
  ]

  reset_iteration_zero :
      (m : Elements R) (l : Learner R) → StaysZero (reset_iteration r random config m l)
  unfolding reset_iteration
  reset_iteration_zero m l =
      then_zero (reset_q r random config (record l { iterations_level = m.iteration }))
        (λ l'. done (forget r random config l'))
        (λ l' e. done_zero (forget r random config l') refl)

  known_flows_fails :
      (m : Elements R) (l : Learner R) (result : Learner R × List Action)
      → config.exploration_mode ≡ falling_eps
      → l.general_iterator ≡ 0
      → known_flows r random config m l ≡ done result
      → ⊥
  unfolding known_flows
  known_flows_fails m l result falling z h =
      elim (Outcome-cases (changed_flows r random config m l)) [
        | inl (e, bad) ↦ absurd (ground (arith, rw (known_flows, bad) at h))
        | inr (l1, changed) ↦ elim (Outcome-cases (measure r random config m l1)) [
          | inl (e, bad) ↦ absurd (ground (arith, rw (known_flows, changed, bad) at h))
          | inr (l2, measured) ↦
              absurd (measure_fails m l1 l2 falling (changed_flows_zero m l z l1 changed) measured)
        ]
      ]

  serve_idle :
      (m : Elements R) (l : Learner R) (result : Learner R × List Action)
      → config.exploration_mode ≡ falling_eps
      → l.general_iterator ≡ 0
      → serve r random config m l ≡ done result
      → (result.0.general_iterator ≡ 0) × (result.1 ≡ [])
  unfolding serve
  serve_idle m l result falling z h = elim (Bool-cases (ltb 0 l.load_level)) [
    | inr idle ↦ kept l z (rw (serve, idle) at h)
    | inl busy ↦ elim (Bool-cases (is_empty l.temp_flows)) [
      | inr known ↦ absurd (known_flows_fails m l result falling z (rw (serve, busy, known) at h))
      | inl empty ↦ elim (Outcome-cases (first_flow r random config m l)) [
        | inl (e, bad) ↦ absurd (ground (arith, rw (serve, busy, empty, bad) at h))
        | inr (l1, first) ↦
            kept l1 (first_flow_zero m l z l1 first) (rw (serve, busy, empty, first) at h)
      ]
    ]
  ]
    where
      kept :
          (l1 : Learner R)
          → l1.general_iterator ≡ 0
          → ◌≡◌ {A = Outcome (Learner R × List Action)} (done (l1, [])) (done result)
          → (result.0.general_iterator ≡ 0) × (result.1 ≡ [])
      kept l1 y k =
          let here : ◌≡◌ {A = Learner R × List Action} (l1, []) result = ground (arith, k) in
          subst (λ (x : Learner R × List Action). (x.0.general_iterator ≡ 0) × (x.1 ≡ [])) here
            (y, refl)

  -- With a falling epsilon, from a learner whose iterator is 0 each round that does not fail sends nothing and leaves the
  -- iterator at 0.
  pub step-IsIdle :
      (expired : Bool) (m : Elements R) (l : Learner R) (turn : Turn R)
      → config.exploration_mode ≡ falling_eps
      → l.general_iterator ≡ 0
      → step r random config expired m l ≡ done turn
      → IsIdle turn
  unfolding step
  step-IsIdle expired m l turn falling z h = elim (Bool-cases (is_empty m.current_combination)) [
    | inl silent ↦ went (going l []) (z, refl) (rw (step, silent) at h)
    | inr speaks ↦ elim (Bool-cases m.stop_flag) [
      | inl stop ↦ went (stopped []) refl (rw (step, speaks, stop) at h)
      | inr goes ↦ elim (Outcome-cases (reset_load r random config m l)) [
        | inl (e, bad) ↦ absurd (ground (arith, rw (step, speaks, goes, bad) at h))
        | inr (l1, loaded) ↦ elim (Bool-cases m.iteration_flag) [
          | inl again ↦ elim (Outcome-cases (reset_iteration r random config m l1)) [
            | inl (e, bad) ↦
                absurd (ground (arith, rw (step, speaks, goes, loaded, again, bad) at h))
            | inr (l2, reset) ↦
                went (going l2 []) (reset_iteration_zero m l1 l2 reset, refl)
                  (rw (step, speaks, goes, loaded, again, reset) at h)
          ]
          | inr on ↦ elim (Outcome-cases (serve r random config m l1)) [
            | inl (e, bad) ↦ absurd (ground (arith, rw (step, speaks, goes, loaded, on, bad) at h))
            | inr (result, served) ↦
                went (if expired then stopped result.1 else going result.0 result.1)
                  (ended expired result
                    (serve_idle m l1 result falling (reset_load_zero m l z l1 loaded) served))
                  (rw (step, speaks, goes, loaded, on, served) at h)
          ]
        ]
      ]
    ]
  ]
    where
      went : (t : Turn R) → IsIdle t → done t ≡ done turn → IsIdle turn
      went t i k = let here : t ≡ turn = ground (arith, k) in subst IsIdle here i

      ended :
          (b : Bool) (result : Learner R × List Action)
          → (result.0.general_iterator ≡ 0) × (result.1 ≡ [])
          → IsIdle (if b then stopped result.1 else going result.0 result.1)
      ended true result i = i.1
      ended false result i = i
