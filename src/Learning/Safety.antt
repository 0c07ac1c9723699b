-- ===== src/Learning/Safety.antt =====
-- A round of `learning_module`'s loop against the possible states and actions.
use comnetsemu.Prelude.{
  Bool, true, false, if◌then◌else◌, leb, ltb, nat_eq, list_eq, pair_eq, List, [], length, ◌≡◌, inl,
  inr, refl, subst, arith, Bool-cases,
}
use comnetsemu.Learning.Data.{Choices, Action, done, failed}
use comnetsemu.Learning.Numbers.{Reals}
use comnetsemu.Learning.Best.{IsOrder}
use comnetsemu.Learning.Softmax.{IsRandom}
use comnetsemu.Learning.Choice.{Random}
use comnetsemu.Learning.Building.{is_empty}
use comnetsemu.Learning.Loop.{
  Settings, Elements, Learner, reset_load, reset_iteration, first_flow, changed_flows,
}
use comnetsemu.Learning.Turn.{
  Turn, stopped, going, measure, when_gathered, known_flows, serve, step,
}
use comnetsemu.Learning.Updated.{Outcome-cases}
use comnetsemu.Learning.Decide.{IsPlain, IsReady, SendsMoves, decide-SendsMoves}
use comnetsemu.Learning.BuiltTables.{IsDistinct}
use comnetsemu.Learning.Steps.{
  IsSound, IsLive, SendsSafely, first_flow-IsLive, changed_flows-IsReady, measure-IsReady,
  reset_load-IsLive, reset_iteration-IsLive,
}

-- The loop ends, or goes on with a learner that sends possible actions only.
abbrev pub IsSafe : {R : Type 0} → Turn R → Type 0
IsSafe (stopped sent) = Unit
IsSafe (going l sent) = SendsSafely (l, sent)

module _ {R : Type 0} (r : Reals R) (random : Random R) (config : Settings R) (o : IsOrder r)
    (draws : IsRandom random) (plain : IsPlain config.learning_mode) where
  sends-Safely :
      (choices : Choices) (l : Learner R) (result : Learner R × List Action)
      → IsDistinct choices
      → SendsMoves r random config choices o draws l result
      → SendsSafely result
  sends-Safely choices l result distinct (moves, inl nothing, ready) =
      (inr (choices, distinct, ready), inl nothing)
  sends-Safely choices l result distinct (moves, inr same, ready) =
      (inr (choices, distinct, ready), inr (choices, ready, rw (← same) at moves))

  when_gathered-SendsSafely :
      (m : Elements R) (choices : Choices) (l : Learner R) (result : Learner R × List Action)
      → IsDistinct choices
      → IsReady choices l
      → when_gathered r random config m l ≡ done result
      → SendsSafely result
  unfolding when_gathered
  when_gathered-SendsSafely m choices l result distinct ready h =
      elim (Bool-cases (leb config.measurements_for_reward (length l.rewards_list))) [
        | inr few ↦
            let same : done (l, []) ≡ done result = rw (when_gathered, few) at h in
            let here : ◌≡◌ {A = Learner R × List Action} (l, []) result = ground (arith, same) in
            subst SendsSafely here (inr (choices, distinct, ready), inl refl)
        | inl enough ↦ sends-Safely choices l result distinct (
            decide-SendsMoves r random config choices o draws distinct.0 distinct.1 m l result plain
              ready (rw (when_gathered, enough) at h))
      ]

  known_flows-SendsSafely :
      (m : Elements R) (choices : Choices) (l : Learner R) (result : Learner R × List Action)
      → IsSound m
      → IsDistinct choices
      → IsReady choices l
      → known_flows r random config m l ≡ done result
      → SendsSafely result
  unfolding known_flows
  known_flows-SendsSafely m choices l result sound distinct ready h =
      elim (Outcome-cases (changed_flows r random config m l)) [
        | inl (e, bad) ↦
            let none_left : failed e ≡ done result = rw (known_flows, bad) at h in absurd (cc)
        | inr (l1, changed) ↦
            let (kept, distinct', ready1) =
              changed_flows-IsReady r random config plain m choices l l1 sound distinct ready
                changed in
            elim (Outcome-cases (measure r random config m l1)) [
              | inl (e, bad) ↦
                  let none_left : failed e ≡ done result = rw (known_flows, changed, bad) at h in
                  absurd (cc)
              | inr (l2, measured) ↦
                  when_gathered-SendsSafely m kept l2 result distinct'
                    (measure-IsReady r random config plain m kept l1 l2 ready1 measured)
                    (rw (known_flows, changed, measured) at h)
            ]
      ]

  serve-SendsSafely :
      (m : Elements R) (l : Learner R) (result : Learner R × List Action)
      → IsSound m
      → IsLive l
      → serve r random config m l ≡ done result
      → SendsSafely result
  unfolding serve
  serve-SendsSafely m l result sound live h = elim (Bool-cases (ltb 0 l.load_level)) [
    | inr idle ↦
        let same : done (l, []) ≡ done result = rw (serve, idle) at h in
        let here : ◌≡◌ {A = Learner R × List Action} (l, []) result = ground (arith, same) in
        subst SendsSafely here (live, inl refl)
    | inl busy ↦ elim (Bool-cases (is_empty l.temp_flows)) [
      | inl empty ↦ elim (Outcome-cases (first_flow r random config m l)) [
        | inl (e, bad) ↦
            let none_left : failed e ≡ done result = rw (serve, busy, empty, bad) at h in
            absurd (cc)
        | inr (l1, first) ↦
            let same : done (l1, []) ≡ done result = rw (serve, busy, empty, first) at h in
            let here : ◌≡◌ {A = Learner R × List Action} (l1, []) result = ground (arith, same) in
            subst SendsSafely here
              (first_flow-IsLive r random config plain m l l1 sound first, inl refl)
      ]
      | inr some_flows ↦ known live some_flows (rw (serve, busy, some_flows) at h)
    ]
  ]
    where
      known :
          IsLive l
          → is_empty l.temp_flows ≡ false
          → known_flows r random config m l ≡ done result
          → SendsSafely result
      known (inl none_yet) e k = let bad : true ≡ false = rw none_yet at e in absurd (cc)
      known (inr (choices, distinct, ready)) e k =
          known_flows-SendsSafely m choices l result sound distinct ready k

  -- For the modes with a Q table that choose each action anew: if the combination of the message is made of paths that
  -- are kept, then from a live learner a round that goes on leaves a live learner, and what it sends are
  -- possible actions in the state that it keeps as the previous one.
  pub step-IsSafe :
      (expired : Bool) (m : Elements R) (l : Learner R) (turn : Turn R)
      → IsSound m
      → IsLive l
      → step r random config expired m l ≡ done turn
      → IsSafe turn
  unfolding step
  step-IsSafe expired m l turn sound live h = elim (Bool-cases (is_empty m.current_combination)) [
    | inl silent ↦
        let same : done (going l []) ≡ done turn = rw (step, silent) at h in
        let here : going l [] ≡ turn = ground (arith, same) in subst IsSafe here (live, inl refl)
    | inr speaks ↦ elim (Bool-cases m.stop_flag) [
      | inl stop ↦
          let same : done (stopped []) ≡ done turn = rw (step, speaks, stop) at h in
          let here : stopped [] ≡ turn = ground (arith, same) in subst IsSafe here tt
      | inr goes ↦ elim (Outcome-cases (reset_load r random config m l)) [
        | inl (e, bad) ↦
            let none_left : failed e ≡ done turn = rw (step, speaks, goes, bad) at h in absurd (cc)
        | inr (l1, loaded) ↦
            let live1 = reset_load-IsLive r random config plain m l l1 live loaded in
            elim (Bool-cases m.iteration_flag) [
              | inl again ↦ elim (Outcome-cases (reset_iteration r random config m l1)) [
                | inl (e, bad) ↦
                    let none_left : failed e ≡ done turn =
                      rw (step, speaks, goes, loaded, again, bad) at h in
                    absurd (cc)
                | inr (l2, reset) ↦
                    let same : done (going l2 []) ≡ done turn =
                      rw (step, speaks, goes, loaded, again, reset) at h in
                    let here : going l2 [] ≡ turn = ground (arith, same) in
                    subst IsSafe here
                      (reset_iteration-IsLive r random config plain m l1 l2 reset, inl refl)
              ]
              | inr on ↦ elim (Outcome-cases (serve r random config m l1)) [
                | inl (e, bad) ↦
                    let none_left : failed e ≡ done turn =
                      rw (step, speaks, goes, loaded, on, bad) at h in
                    absurd (cc)
                | inr (result, served) ↦
                    let safe = serve-SendsSafely m l1 result sound live1 served in
                    let same : done (if expired then stopped result.1 else going result.0 result.1)
                        ≡ done turn =
                      rw (step, speaks, goes, loaded, on, served) at h in
                    let here : (if expired then stopped result.1 else going result.0 result.1)
                        ≡ turn =
                      ground (arith, same) in
                    subst IsSafe here (ended expired result safe)
              ]
            ]
      ]
    ]
  ]
    where
      ended :
          (b : Bool) (result : Learner R × List Action)
          → SendsSafely result
          → IsSafe (if b then stopped result.1 else going result.0 result.1)
      ended true result safe = tt
      ended false result safe = safe
