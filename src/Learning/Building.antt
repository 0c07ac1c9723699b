-- ===== src/Learning/Building.antt =====
-- `update_Q_table` of learning_module.py, with the filter of the paths and the actions of direct changes.
use comnetsemu.Prelude.{
  ℕ, zero, suc, ◌+◌, Bool, true, false, if◌then◌else◌, ◌==◌, ◌&&◌, not, ltb, nat_eq, list_eq,
  pair_eq, List, [], ◌∷◌, ◌++◌, Option, none, some, length, get_elem?, min,
}
use comnetsemu.Prelude.Dict.{Dict, lookup}
use comnetsemu.Learning.Data.{
  Hops, Combination, Choices, Action, same_combination, Outcome, done, failed, ◌>>=◌, or_fail,
  key_error, value_error, type_error,
}
use comnetsemu.Learning.Numbers.{Value, QTable, ValueTable}
use comnetsemu.Learning.Spaces.{
  remove_first, get_possible_states, get_actions_for_states, get_state_transitions,
}
use comnetsemu.Learning.Tables.{create_new_q_table, create_new_value_table}
use comnetsemu.Learning.Merging.{merging_qtable}

abbrev pub max_length_diffset : ℕ
max_length_diffset = 2

-- `min` of the lengths; of no paths it is a ValueError.
unfoldable pub minimum_length : List Hops → Outcome ℕ
minimum_length [] = failed value_error
minimum_length (path ∷ paths) = elim (minimum_length paths) [
  | failed e ↦ done (length path)
  | done n ↦ done (min (length path) n)
]

-- The loop over the paths of a flow, which removes from the list that it runs over; `is_chosen` is the test whether
-- a path is that of `chosen_paths`.
unfoldable pub drop_long : ℕ → (Hops → Bool) → ℕ → ℕ → List Hops → List Hops
unfolding remove_first
drop_long zero is_chosen limit at paths = paths
drop_long (suc rounds) is_chosen limit at paths = elim (get_elem? paths at) [
  | none ↦ paths
  | some path ↦
      if ltb limit (length path) && not (is_chosen path)
      then drop_long rounds is_chosen limit (at + 1) (remove_first (λ p. p == path) paths)
      else drop_long rounds is_chosen limit (at + 1) paths
]

unfoldable pub filter_possible_paths_by_hops : (ℕ → Hops → Bool) → ℕ → Choices → Outcome Choices
unfolding minimum_length drop_long
filter_possible_paths_by_hops is_chosen bound [] = done []
filter_possible_paths_by_hops is_chosen bound ((id, paths) ∷ choices) = do
  n ← minimum_length paths
  rest ← filter_possible_paths_by_hops is_chosen bound choices
  done ((id, drop_long (length paths) (is_chosen id) (n + bound) 0 paths) ∷ rest)

-- `(next_state, state_changes)` and `('NoTrans', [])`
pub data DirectAction : Type 0 where
  stay : DirectAction
  go : Combination → List (ℕ × Hops) → DirectAction

-- The loop over the flows of a state; the changes are appended to those of the rounds before.
unfoldable pub add_changes : Combination → Combination → List (ℕ × Hops) → Outcome (List (ℕ × Hops))
unfolding lookup
add_changes [] next_state changes = done changes
add_changes ((id, path) ∷ state) next_state changes = do
  other ← or_fail (lookup id next_state) key_error
  add_changes state next_state (if path == other then changes else changes ++ (id, other) ∷ [])

unfoldable pub direct_actions :
    Combination → List Combination → List (ℕ × Hops) → Outcome (List (Combination × DirectAction))
unfolding add_changes
direct_actions state [] changes = done ((state, stay) ∷ [])
direct_actions state (next_state ∷ others) changes = do
  changes' ← add_changes state next_state changes
  rest ← direct_actions state others changes'
  done ((state, go next_state changes') ∷ rest)

-- The loop of `get_actions_for_states_direct`, over the states that are left of `all`.
unfoldable pub direct_actions_for :
    List Combination → List Combination → Outcome (List (Combination × DirectAction))
unfolding remove_first same_combination direct_actions
direct_actions_for all [] = done []
direct_actions_for all (state ∷ states) = do
  actions ← direct_actions state (remove_first (λ s. same_combination s state) all) []
  rest ← direct_actions_for all states
  done (actions ++ rest)

unfoldable pub get_actions_for_states_direct :
    List Combination → Outcome (List (Combination × DirectAction))
unfolding direct_actions_for
get_actions_for_states_direct states = direct_actions_for states states

-- The next state is none for the string 'NoTrans'.
abbrev pub target : DirectAction → Option Combination
target stay = none
target (go next_state changes) = some next_state

unfoldable pub get_state_transitions_direct :
    List (Combination × DirectAction) → List (Combination × DirectAction × Option Combination)
get_state_transitions_direct [] = []
get_state_transitions_direct ((state, action) ∷ actions) =
    (state, action, target action) ∷ get_state_transitions_direct actions

abbrev pub is_empty {ℓ} : {A : Type ℓ} → List A → Bool
is_empty [] = true
is_empty (x ∷ xs) = false

-- What `update_Q_table` gives back in the mode of one flow at a time: the table, the actions and the transitions.
abbrev pub Built : Type 0 → Type 0
Built T = T × List (Combination × Action) × List (Combination × Action × Combination)

-- The actions and transitions of the paths that are left; the paths of a flow are a list of paths, which equals no path.
unfoldable pub possible_actions : Choices → Outcome (List Combination × List (Combination × Action))
unfolding filter_possible_paths_by_hops get_possible_states get_actions_for_states
possible_actions paths_per_flow = do
  filtered ← filter_possible_paths_by_hops (λ id path. false) 100 paths_per_flow
  actions ← or_fail (get_actions_for_states filtered (get_possible_states filtered)) key_error
  done (get_possible_states filtered, actions)

-- Whether the tables are merged.
abbrev pub merges : {T : Type 0} → Bool → Dict Combination T → List ℕ → Bool
merges flag prev_q joined =
    flag
    && (not (is_empty prev_q) && (not (is_empty joined) && ltb (length joined) max_length_diffset))

module _ {R : Type 0} where
  -- `update_Q_table` on a Q table, one flow at a time.
  unfoldable pub update_q_table :
      Value R → QTable R → Choices → Bool → List ℕ → Outcome (Built (QTable R))
  unfolding possible_actions create_new_q_table get_state_transitions merging_qtable
  update_q_table init prev_q paths_per_flow flag joined = do
    (states, actions) ← possible_actions paths_per_flow
    let new = create_new_q_table init actions
    q ← (if merges flag prev_q joined then merging_qtable prev_q new joined else done new)
    done (q, actions, get_state_transitions actions)

  -- `update_Q_table` on a table of states; `merging_qtable` takes the visits of the first state for an action, and fails.
  unfoldable pub update_value_table :
      Value R → ValueTable R → Choices → Bool → List ℕ → Outcome (Built (ValueTable R))
  unfolding possible_actions create_new_value_table get_state_transitions
  update_value_table init prev_q paths_per_flow flag joined = do
    (states, actions) ← possible_actions paths_per_flow
    let q = create_new_value_table init states
    if merges flag prev_q joined
        then failed type_error
        else done (q, actions, get_state_transitions actions)
