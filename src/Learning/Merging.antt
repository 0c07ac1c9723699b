-- ===== src/Learning/Merging.antt =====
-- `merging_qtable` of learning_module.py.
use comnetsemu.Prelude.{
  ℕ, Bool, true, false, if◌then◌else◌, ◌==◌, nat_eq, list_eq, pair_eq, List, [], ◌∷◌, Option, none,
  some,
}
use comnetsemu.Prelude.Dict.{lookup, erase}
use comnetsemu.Learning.Data.{
  Combination, Action, no_trans, change, action_eq, same_combination, Outcome, done, failed, ◌>>=◌,
  or_fail, key_error,
}
use comnetsemu.Learning.Numbers.{Entry, Row, QTable}
use comnetsemu.Learning.Tables.{entry_at}

abbrev pub is_in : ℕ → List ℕ → Bool
is_in x [] = false
is_in x (y ∷ ys) = if y == x then true else is_in x ys

-- The loop of `dict_state.pop(difference)`.
unfoldable pub pop_all : List ℕ → Combination → Outcome Combination
unfolding lookup erase
pop_all [] state = done state
pop_all (id ∷ ids) state = elim (lookup id state) [
  | none ↦ failed key_error
  | some path ↦ pop_all ids (erase id state)
]

-- `list(action_old)[0] in difference_set`; 'NoTrans' is no flow.
abbrev pub moves_one_of : Action → List ℕ → Bool
moves_one_of no_trans ids = false
moves_one_of (change id path) ids = is_in id ids

module _ {R : Type 0} where
  -- The loop over the old keys: the last one that is the same dict.
  unfoldable pub find_old : QTable R → Combination → Option Combination → Option Combination
  unfolding same_combination
  find_old [] state found = found
  find_old ((key, row) ∷ q) state found =
      find_old q state (if same_combination key state then some key else found)

  -- One round of the inner loop. The test of `action[0]`, which is the first character of a JSON string, always holds.
  unfoldable pub merge_entry :
      QTable R → List ℕ → Combination → Action → Entry R → Outcome (Entry R)
  unfolding pop_all find_old entry_at
  merge_entry prev difference state action e = do
    reduced ← pop_all difference state
    elim (find_old prev reduced none) [
      | none ↦ done e
      | some key ↦
          if moves_one_of action difference
          then done e
          else or_fail (entry_at prev key action) key_error
    ]

  unfoldable pub merge_row : QTable R → List ℕ → Combination → Row R → Outcome (Row R)
  unfolding merge_entry
  merge_row prev difference state [] = done []
  merge_row prev difference state ((action, e) ∷ row) = do
    e' ← merge_entry prev difference state action e
    rest ← merge_row prev difference state row
    done ((action, e') ∷ rest)

  unfoldable pub merge_rows : QTable R → List ℕ → QTable R → Outcome (QTable R)
  unfolding merge_row
  merge_rows prev difference [] = done []
  merge_rows prev difference ((state, row) ∷ q) = do
    row' ← merge_row prev difference state row
    rest ← merge_rows prev difference q
    done ((state, row') ∷ rest)

  -- `merging_qtable`
  unfoldable pub merging_qtable : QTable R → QTable R → List ℕ → Outcome (QTable R)
  unfolding merge_rows
  merging_qtable prev new difference = merge_rows prev difference new
