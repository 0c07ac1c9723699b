-- ===== src/Routing/Reroute.antt =====
-- `get_commands_rerouting` of app/machine_learning_for_routing/controller/functions.py, from the walk through the
-- table on: the walk that `astar` finds is an argument. `none` is an IndexError.
use comnetsemu.Prelude.{
  ℕ, zero, suc, ◌-◌, Option, none, some, List, [], ◌∷◌, ◌++◌, ◌&&◌, if◌then◌else◌, ◌==◌, nat_eq,
  ltb, length, get_elem?, set, take, drop,
}
use comnetsemu.Coding.Bytes.{◌>>=◌}
use comnetsemu.Routing.Levenshtein.{Table, cell}

-- The operation with the row (the new path) and the column (the old path) of the cell that is left.
pub data Operation : Type 0 where
  no_change substitution insertion deletion : Operation

pub record Change : Type 0 where
  pub operation : Operation
  pub row : ℕ
  pub col : ℕ

-- What a step from `previous` to `next` stands for; no change is noted for any other step.
unfoldable pub change_of : Table → ℕ × ℕ → ℕ × ℕ → List Change
unfolding cell
change_of table previous next =
    if ltb next.1 previous.1 && ltb next.0 previous.0
    then (if cell table next.0 next.1 == cell table previous.0 previous.1
        then record { operation = no_change; row = previous.0; col = previous.1 } ∷ []
        else record { operation = substitution; row = previous.0; col = previous.1 } ∷ [])
    else (if (next.1 == previous.1) && ltb next.0 previous.0
        then record { operation = insertion; row = previous.0; col = previous.1 } ∷ []
        else (if ltb next.1 previous.1 && (next.0 == previous.0)
            then record { operation = deletion; row = previous.0; col = previous.1 } ∷ []
            else []))

-- The loop over the walk, from its element `previous` on.
unfoldable pub change_list : Table → ℕ × ℕ → List (ℕ × ℕ) → List Change
unfolding change_of
change_list table previous [] = []
change_list table previous (next ∷ walk) =
    change_of table previous next ++ change_list table next walk

-- `oldPath.insert(i, v)`
unfoldable pub insert_at : ℕ → ℕ → List ℕ → List ℕ
insert_at i v xs = take i xs ++ v ∷ drop i xs

-- `oldPath.pop(i)`
unfoldable pub pop_at : ℕ → List ℕ → List ℕ
pop_at i [] = []
pop_at zero (x ∷ xs) = xs
pop_at (suc i) (x ∷ xs) = x ∷ pop_at i xs

-- One round of the loop over the change list. A substitution and a deletion leave a column above 0.
unfoldable pub apply_change : List ℕ → Change → List ℕ → Option (List ℕ)
unfolding insert_at pop_at
apply_change new_path change old_path = elim change.operation [
  | no_change ↦ some old_path
  | substitution ↦
      (get_elem? new_path (change.row - 1) >>= λ v.
      if ltb (change.col - 1) (length old_path)
      then some (set old_path (change.col - 1) v)
      else none)
  | insertion ↦
      (get_elem? new_path (change.row - 1) >>= λ v. some (insert_at change.col v old_path))
  | deletion ↦
      if ltb (change.col - 1) (length old_path)
      then some (pop_at (change.col - 1) old_path)
      else none
]

unfoldable pub apply_changes : List ℕ → List Change → List ℕ → Option (List ℕ)
unfolding apply_change
apply_changes new_path [] old_path = some old_path
apply_changes new_path (change ∷ changes) old_path = do
  path ← apply_change new_path change old_path
  apply_changes new_path changes path
