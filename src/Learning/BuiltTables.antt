-- ===== src/Learning/BuiltTables.antt =====
-- What `update_Q_table` of learning_module.py builds, against the tables that fit the possible paths.
use comnetsemu.Prelude.{
  ℕ, Bool, false, nat_eq, list_eq, pair_eq, List, some, ◌≡◌, inl, inr, refl, subst, arith,
  Bool-cases,
}
use comnetsemu.Learning.Data.{Outcome, Combination, Choices, Action, no_trans, done}
use comnetsemu.Learning.Numbers.{Value, QTable}
use comnetsemu.Learning.Spaces.{get_possible_states, get_actions_for_states, get_state_transitions}
use comnetsemu.Learning.Tables.{create_new_q_table}
use comnetsemu.Learning.Moves.{HasDistinctFlows, HasDistinctPaths}
use comnetsemu.Learning.ActionLaws.{get_actions_for_states-IsMoveOf}
use comnetsemu.Learning.Building.{filter_possible_paths_by_hops, possible_actions, update_q_table}
use comnetsemu.Learning.Ready.{IsTableFor, AreTransitionsOf}
use comnetsemu.Learning.TableFits.{create_new_q_table-IsTableFor}
use comnetsemu.Learning.Merging.{merging_qtable}
use comnetsemu.Learning.MergeLaws.{merging_qtable-IsTableFor}
use comnetsemu.Learning.Building.{Built, merges}
use comnetsemu.Learning.Updated.{Outcome-cases}

-- No flow and no path of a flow stands twice.
abbrev pub IsDistinct : Choices → Type 0
IsDistinct choices = HasDistinctFlows choices × HasDistinctPaths choices

-- A table that is built, merged or not, fits the paths that are kept, and so do the transitions.
pub update_q_table-fits :
    {R : Type 0} (init : Value R) (prev_q : QTable R) (paths choices : Choices) (flag : Bool)
    (joined : List ℕ) (built : Built (QTable R))
    → filter_possible_paths_by_hops (λ id path. false) 100 paths ≡ done choices
    → IsDistinct choices
    → update_q_table init prev_q paths flag joined ≡ done built
    → IsTableFor choices built.0 × AreTransitionsOf choices built.2
unfolding update_q_table possible_actions
update_q_table-fits {R = R} init prev_q paths choices flag joined built kept (flows, nodup) h =
    let (actions, found, spec) = get_actions_for_states-IsMoveOf choices flows nodup in
    let new = create_new_q_table init actions in
    let transitions = get_state_transitions actions in
    let fits =
      create_new_q_table-IsTableFor choices init actions (λ s a k. (spec s a).0 k)
        (λ s p. (spec s no_trans).1 (p, tt)) in
    elim (Bool-cases (merges flag prev_q joined)) [
      | inr fresh ↦
          let same : ◌≡◌ {A = Outcome (Built (QTable R))} (done (new, actions, transitions))
              (done built) =
            rw (update_q_table, possible_actions, kept, found, fresh) at h in
          built_fits actions transitions built new found refl fits same
      | inl merged ↦ elim (Outcome-cases (merging_qtable prev_q new joined)) [
        | inl (x, bad) ↦
            absurd
              (ground (arith, rw (update_q_table, possible_actions, kept, found, merged, bad) at h))
        | inr (q, good) ↦
            let same : ◌≡◌ {A = Outcome (Built (QTable R))} (done (q, actions, transitions))
                (done built) =
              rw (update_q_table, possible_actions, kept, found, merged, good) at h in
            built_fits actions transitions built q found refl
              (merging_qtable-IsTableFor choices prev_q new q joined good fits) same
      ]
    ]
  where
    built_fits :
        (actions : List (Combination × Action))
        (transitions : List (Combination × Action × Combination)) (b : Built (QTable R))
        (q : QTable R)
        → get_actions_for_states choices (get_possible_states choices) ≡ some actions
        → transitions ≡ get_state_transitions actions
        → IsTableFor choices q
        → ◌≡◌ {A = Outcome (Built (QTable R))} (done (q, actions, transitions)) (done b)
        → IsTableFor choices b.0 × AreTransitionsOf choices b.2
    built_fits actions transitions b q found made fits same =
        let here : ◌≡◌ {A = Built (QTable R)} (q, actions, transitions) b = ground (arith, same) in
        subst (λ (x : Built (QTable R)). IsTableFor choices x.0 × AreTransitionsOf choices x.2) here
          (fits, (actions, found, made))
