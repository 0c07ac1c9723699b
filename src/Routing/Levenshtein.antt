-- ===== src/Routing/Levenshtein.antt =====
-- `iterative_levenshtein` of app/machine_learning_for_routing/controller/functions.py. The table is a list
-- of rows, as in the code; switch ids are numbers.
use comnetsemu.Prelude.{
  ℕ, zero, suc, ◌+◌, ◌-◌, List, [], if◌then◌else◌, ◌==◌, nat_eq, length, get_or, set, replicate,
  min,
}

abbrev pub Table : Type 0
Table = List (List ℕ)

-- `dist[row][col]`, read and written; the loops stay within the table.
unfoldable pub cell : Table → ℕ → ℕ → ℕ
cell dist row col = get_or (get_or dist row []) col 0

unfoldable pub set_cell : Table → ℕ → ℕ → ℕ → Table
set_cell dist row col v = set dist row (set (get_or dist row []) col v)

-- `for i in range(i, ...): dist[i][0] = i`, with `left` rounds to go.
unfoldable pub fill_sources : ℕ → ℕ → Table → Table
fill_sources zero i dist = dist
fill_sources (suc left) i dist = fill_sources left (i + 1) (set_cell dist i 0 i)

-- `for i in range(i, ...): dist[0][i] = i`
unfoldable pub fill_targets : ℕ → ℕ → Table → Table
fill_targets zero i dist = dist
fill_targets (suc left) i dist = fill_targets left (i + 1) (set_cell dist 0 i i)

module _ (s t : List ℕ) where
  abbrev pub cost : ℕ → ℕ → ℕ
  cost i j = if get_or s i 0 == get_or t j 0 then 0 else 1

  -- The least of a deletion, an insertion and a substitution.
  unfoldable pub best : Table → ℕ → ℕ → ℕ
  best dist row col =
      min (min (cell dist (row - 1) col + 1) (cell dist row (col - 1) + 1))
        (cell dist (row - 1) (col - 1) + cost (row - 1) (col - 1))

  -- The inner loop from `row` on.
  unfoldable pub fill_rows : ℕ → ℕ → ℕ → Table → Table
  fill_rows zero row col dist = dist
  fill_rows (suc left) row col dist =
      fill_rows left (row + 1) col (set_cell dist row col (best dist row col))

  -- The outer loop from `col` on.
  unfoldable pub fill_cols : ℕ → ℕ → Table → Table
  fill_cols zero col dist = dist
  fill_cols (suc left) col dist = fill_cols left (col + 1) (fill_rows (length s) 1 col dist)

  unfoldable pub iterative_levenshtein : Table
  iterative_levenshtein =
      let rows = length s + 1 in
      let cols = length t + 1 in
      let dist = replicate rows (replicate cols 0) in
      fill_cols (length t) 1 (fill_targets (length t) 1 (fill_sources (length s) 1 dist))
