-- ===== src/Learning/Spaces.antt =====
-- The states, actions and transitions of learning_module.py.
use comnetsemu.Prelude.{
  ℕ, zero, suc, ◌+◌, Bool, if◌then◌else◌, ◌&&◌, ◌==◌, nat_eq, list_eq, pair_eq, List, [], ◌∷◌, ◌++◌,
  Option, none, some, length, get_elem?,
}
use comnetsemu.Prelude.Dict.{lookup, insert}
use comnetsemu.Learning.Data.{
  Hops, Combination, Choices, Action, no_trans, change, action_eq, same_combination,
}

-- `l.remove(x)` of an element that is there.
unfoldable pub remove_first {ℓ} : {A : Type ℓ} → (A → Bool) → List A → List A
remove_first is [] = []
remove_first is (x ∷ l) = if is x then l else x ∷ remove_first is l

-- The pairs of the flow's id with the combinations of the others: one factor of `it.product`.
unfoldable pub extend : ℕ → Hops → List Combination → List Combination
extend id path [] = []
extend id path (c ∷ cs) = ((id, path) ∷ c) ∷ extend id path cs

unfoldable pub extend_all : ℕ → List Hops → List Combination → List Combination
unfolding extend
extend_all id [] cs = []
extend_all id (path ∷ paths) cs = extend id path cs ++ extend_all id paths cs

unfoldable pub get_possible_states : Choices → List Combination
unfolding extend_all
get_possible_states [] = [] ∷ []
get_possible_states ((id, paths) ∷ rest) = extend_all id paths (get_possible_states rest)

-- The loop over `other_paths[flowId]`, which removes from the list that it runs over; `at` is the position of
-- Python's iterator, which grows in each round.
unfoldable pub kick_out : ℕ → Hops → ℕ → List Hops → List Hops
unfolding remove_first
kick_out zero chosen at paths = paths
kick_out (suc rounds) chosen at paths = elim (get_elem? paths at) [
  | none ↦ paths
  | some path ↦
      if path == chosen
      then kick_out rounds chosen (at + 1) (remove_first (λ p. p == chosen) paths)
      else kick_out rounds chosen (at + 1) paths
]

-- The actions for one flow of a state: one for each path that is left.
unfoldable pub actions_for_flow : Combination → ℕ → List Hops → List (Combination × Action)
actions_for_flow state id [] = []
actions_for_flow state id (path ∷ paths) = (state, change id path) ∷ actions_for_flow state id paths

-- The loop over the flows of a state; `none` is a KeyError.
unfoldable pub actions_for_flows :
    Choices → Combination → Combination → Option (List (Combination × Action))
unfolding lookup kick_out actions_for_flow
actions_for_flows choices state [] = some []
actions_for_flows choices state ((id, chosen) ∷ flows) = elim (lookup id choices) [
  | none ↦ none
  | some paths ↦ elim (actions_for_flows choices state flows) [
    | none ↦ none
    | some rest ↦ some (actions_for_flow state id (kick_out (length paths) chosen 0 paths) ++ rest)
  ]
]

unfoldable pub get_actions_for_states :
    Choices → List Combination → Option (List (Combination × Action))
unfolding actions_for_flows
get_actions_for_states choices [] = some []
get_actions_for_states choices (state ∷ states) = elim (actions_for_flows choices state state) [
  | none ↦ none
  | some actions ↦ elim (get_actions_for_states choices states) [
    | none ↦ none
    | some rest ↦ some (actions ++ (state, no_trans) ∷ rest)
  ]
]

-- The state after an action.
unfoldable pub apply_action : Action → Combination → Combination
unfolding insert
apply_action no_trans state = state
apply_action (change id path) state = insert id path state

unfoldable pub get_state_transitions :
    List (Combination × Action) → List (Combination × Action × Combination)
unfolding apply_action
get_state_transitions [] = []
get_state_transitions ((state, action) ∷ actions) =
    (state, action, apply_action action state) ∷ get_state_transitions actions

-- The loop of `get_next_state`, with the state that was found last; `{}` if there was none.
unfoldable pub find_transition :
    List (Combination × Action × Combination) → Combination → Action → Combination → Combination
unfolding same_combination
find_transition [] state action next = next
find_transition ((s, a, t) ∷ transitions) state action next =
    find_transition transitions state action
      (if same_combination s state && (a == action) then t else next)

-- `get_next_state` in the mode of one flow at a time.
unfoldable pub get_next_state :
    List (Combination × Action × Combination) → Combination → Action → Combination
unfolding find_transition
get_next_state transitions state no_trans = state
get_next_state transitions state (change id path) =
    find_transition transitions state (change id path) []
