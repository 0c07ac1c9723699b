-- ===== src/Learning/Ready.antt =====
-- The states that learning_module.py can be in, and the tables that fit them.
use comnetsemu.Prelude.{
  if◌then◌else◌, ◌==◌, ◌&&◌, nat_eq, list_eq, pair_eq, List, [], ◌∷◌, some, ◌≡◌, refl, ap, arith,
}
use comnetsemu.Prelude.Keys.{HasDistinctKeys}
use comnetsemu.Prelude.Dict.{lookup}
use comnetsemu.Learning.Data.{
  Combination, Choices, Action, no_trans, change, action_eq, dumps, same_combination,
}
use comnetsemu.Learning.Numbers.{Entry, Row, QTable}
use comnetsemu.Learning.Spaces.{
  get_possible_states, get_actions_for_states, get_state_transitions, find_transition,
  get_next_state,
}
use comnetsemu.Learning.SpaceLaws.{Chooses}
use comnetsemu.Learning.Moves.{HasDistinctFlows, HasDistinctPaths, IsMoveOf}
use comnetsemu.Learning.NextState.{get_next_state-Chooses}

-- A possible state, up to the order of its flows.
abbrev pub IsPossible : Choices → Combination → Type 0
IsPossible choices c = (s : Combination) × Chooses choices s × (dumps s ≡ dumps c)

-- A possible action in a possible state.
abbrev pub IsMoveFrom : Choices → Combination → Action → Type 0
IsMoveFrom choices c a = (s : Combination) × IsMoveOf choices (s, a) × (dumps s ≡ dumps c)

-- The row has no key twice, an entry for the empty action, and otherwise only entries of possible actions.
abbrev pub IsRowFor : {R : Type 0} → Choices → Combination → Row R → Type 0
IsRowFor {R = R} choices c row =
    HasDistinctKeys row
    × ((g : Entry R) × (lookup no_trans row ≡ some g))
    × ((a : Action) (e : Entry R) → lookup a row ≡ some e → IsMoveFrom choices c a)

-- Each possible state has a row of its actions.
abbrev pub IsTableFor : {R : Type 0} → Choices → QTable R → Type 0
IsTableFor {R = R} choices q =
    (c : Combination)
    → IsPossible choices c
    → (row : Row R) × (lookup (dumps c) q ≡ some row) × IsRowFor choices c row

-- The transitions are those of the possible states.
abbrev pub AreTransitionsOf : Choices → List (Combination × Action × Combination) → Type 0
AreTransitionsOf choices transitions =
    (actions : List (Combination × Action)) × (get_actions_for_states choices
        (get_possible_states choices)
      ≡ some actions)
    × (transitions ≡ get_state_transitions actions)

-- The search for a transition sees of a state its dump only.
find_transition-dumps :
    (transitions : List (Combination × Action × Combination)) (s c : Combination) (a : Action)
    (next : Combination)
    → dumps s ≡ dumps c
    → find_transition transitions s a next ≡ find_transition transitions c a next
unfolding find_transition same_combination
find_transition-dumps [] s c a next e = refl
find_transition-dumps ((u, b, t) ∷ transitions) s c a next e = rw e (
    find_transition-dumps transitions s c a (if (dumps u == dumps c) && (b == a) then t else next)
      e)

module _ (choices : Choices) (flows : HasDistinctFlows choices)
    (paths : HasDistinctPaths choices) where
  pub get_next_state-IsPossible :
      (transitions : List (Combination × Action × Combination)) (c : Combination) (a : Action)
      → AreTransitionsOf choices transitions
      → IsPossible choices c
      → IsMoveFrom choices c a
      → IsPossible choices (get_next_state transitions c a)
  unfolding get_next_state
  get_next_state-IsPossible transitions c no_trans t p m = p
  get_next_state-IsPossible transitions c (change id path) (actions, found, made) p (s, v, e) =
      let (actions', s', found', _, _, h) =
        get_next_state-Chooses choices s (change id path) flows paths v in
      let same : actions' ≡ actions = ground (arith, found, found') in
      let there = find_transition-dumps transitions s c (change id path) [] e in
      (find_transition transitions s (change id path) [], rw (made, ← same) h, ap dumps there)
