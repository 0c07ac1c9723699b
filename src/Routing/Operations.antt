-- ===== src/Routing/Operations.antt =====
-- `retrieve_operations` of app/machine_learning_for_routing/controller/functions.py: the flow operations for a list
-- of changes. `none` is an IndexError.
use comnetsemu.Prelude.{
  ℕ, Option, none, some, List, [], ◌∷◌, ◌++◌, if◌then◌else◌, ◌==◌, nat_eq, ltb, get_elem?, any,
}
use comnetsemu.Coding.Bytes.{◌>>=◌}
use comnetsemu.Routing.Reroute.{no_change, substitution, insertion, deletion, Change}

-- `mod_list`, `insert_list` and `delete_list`
pub record Lists : Type 0 where
  pub mod_list : List ℕ
  pub insert_list : List ℕ
  pub delete_list : List ℕ

-- One round of the first loop.
unfoldable pub note_change : Change → Lists → Lists
note_change change l = elim change.operation [
  | no_change ↦ record l { mod_list = l.mod_list ++ change.row ∷ [] }
  | substitution ↦ record l {
    insert_list = l.insert_list ++ change.row ∷ [];
    delete_list = l.delete_list ++ change.col ∷ [];
  }
  | insertion ↦ record l { insert_list = l.insert_list ++ change.row ∷ [] }
  | deletion ↦ record l { delete_list = l.delete_list ++ change.col ∷ [] }
]

unfoldable pub note_changes : List Change → Lists → Lists
unfolding note_change
note_changes [] l = l
note_changes (change ∷ changes) l = note_changes changes (note_change change l)

-- The loop over `insert_list`; the test `element - 1 < len(new_path) - 1` is written without the subtractions.
unfoldable pub add_operations : List ℕ → List ℕ → List (ℕ × ℕ)
add_operations new_path [] = []
add_operations new_path (element ∷ insert_list) =
    let rest = add_operations new_path insert_list in
    elim (get_elem? new_path element) [
      | none ↦ rest
      | some following ↦ if ltb 1 element then (element, following) ∷ rest else rest
    ]

-- The loop over `mod_list`.
unfoldable pub mod_operations : List ℕ → List ℕ → List ℕ → List (ℕ × ℕ)
mod_operations new_path insert_list [] = []
mod_operations new_path insert_list (element ∷ mod_list) =
    let rest = mod_operations new_path insert_list mod_list in
    elim (get_elem? new_path element) [
      | none ↦ rest
      | some following ↦
          if any (λ i. i == element) insert_list then (element, following) ∷ rest else rest
    ]

-- The loop over `delete_list`.
unfoldable pub delete_switches : List ℕ → List ℕ → Option (List ℕ)
delete_switches old_path [] = some []
delete_switches old_path (element ∷ delete_list) = do
  switch ← get_elem? old_path element
  rest ← delete_switches old_path delete_list
  some (switch ∷ rest)

unfoldable pub retrieve_operations :
    List Change → List ℕ → List ℕ → Option (List (ℕ × ℕ) × List (ℕ × ℕ) × List ℕ)
unfolding note_changes add_operations mod_operations delete_switches
retrieve_operations changes new_path old_path =
    let l = note_changes changes (record { mod_list = []; insert_list = []; delete_list = [] }) in
    (do
      switches ← delete_switches old_path l.delete_list
      some (
        add_operations new_path l.insert_list,
        mod_operations new_path l.insert_list l.mod_list,
        switches,
      ))
