-- ===== src/Routing/RerouteLaws.antt =====
-- The change list and the old path of `get_commands_rerouting`
-- (app/machine_learning_for_routing/controller/functions.py).
use comnetsemu.Prelude.{
  ℕ, suc, ◌<◌, ◌≤◌, some, List, [], ◌∷◌, ◌++◌, ◌==◌, nat_eq, if◌then◌else◌, length, get_elem?, ◌≡◌,
  ◌≢◌, ◌⊎◌, inl, inr, refl, sym, ap, ◌∙◌, subst, arith, Bool-cases,
}
use comnetsemu.Routing.Levenshtein.{Table, cell}
use comnetsemu.Routing.Reroute.{
  no_change, substitution, insertion, deletion, Change, change_of, change_list, apply_change,
  apply_changes,
}
use comnetsemu.Routing.Mixed.{
  pair_eq, whole, mixed, apply_change-substitution, apply_change-deletion, apply_change-insertion,
  mixed-no_change,
}

module _ (table : Table) where
  change_of-diagonal :
      (i j : ℕ)
      → change_of table (suc i, suc j) (i, j)
        ≡ record {
          operation =
              if cell table i j == cell table (suc i) (suc j) then no_change else substitution;
          row = suc i;
          col = suc j;
        }
          ∷ []
  unfolding change_of
  change_of-diagonal i j = ground arith

  change_of-insertion :
      (i j : ℕ)
      → change_of table (suc i, j) (i, j)
        ≡ record { operation = insertion; row = suc i; col = j } ∷ []
  unfolding change_of
  change_of-insertion i j = ground arith

  change_of-deletion :
      (i j : ℕ)
      → change_of table (i, suc j) (i, j)
        ≡ record { operation = deletion; row = i; col = suc j } ∷ []
  unfolding change_of
  change_of-deletion i j = ground arith

module _ (table : Table) (new_path old_path : List ℕ) where
  -- A step of one row, of one column or of both; and if the table does not change on both, then the
  -- switches there are the same.
  abbrev pub IsStep : ℕ × ℕ → ℕ × ℕ → Type 0
  IsStep (i, j) (k, l) =
      ((i ≡ suc k)
        × (j ≡ suc l)
        × ((get_elem? new_path k ≡ get_elem? old_path l) ⊎ (cell table k l ≢ cell table i j)))
      ⊎ (((i ≡ suc k) × (j ≡ l)) ⊎ ((i ≡ k) × (j ≡ suc l)))

  -- A walk of such steps to the cell (0, 0).
  abbrev pub IsWalk : ℕ × ℕ → List (ℕ × ℕ) → Type 0
  IsWalk (i, j) [] = (i ≡ 0) × (j ≡ 0)
  IsWalk p (q ∷ walk) = IsStep p q × IsWalk q walk

  -- One step, with the changes that come after it.
  abbrev Undoes : ℕ × ℕ → ℕ × ℕ → Type 0
  Undoes (i, j) (k, l) =
      (changes : List Change)
      → apply_changes new_path (change_of table (i, j) (k, l) ++ changes)
          (mixed new_path old_path i j)
        ≡ apply_changes new_path changes (mixed new_path old_path k l)

  diagonal-Undoes :
      (k l : ℕ)
      → k < length new_path
      → l < length old_path
      → (get_elem? new_path k ≡ get_elem? old_path l)
        ⊎ (cell table k l ≢ cell table (suc k) (suc l))
      → Undoes (suc k, suc l) (k, l)
  unfolding apply_changes
  diagonal-Undoes k l a b same changes =
      elim (Bool-cases (cell table k l == cell table (suc k) (suc l))) [
        | inl equal ↦
            rw (change_of-diagonal table k l, equal)
              (unfold apply_change in
                ap (apply_changes new_path changes)
                  (mixed-no_change new_path old_path k l b (ground arith)))
        | inr differ ↦
            rw
              (
                change_of-diagonal table k l,
                differ,
                apply_change-substitution new_path old_path k l a b,
              )
              refl
      ]

  insertion-Undoes :
      (k j : ℕ) → k < length new_path → j ≤ length old_path → Undoes (suc k, j) (k, j)
  unfolding apply_changes
  insertion-Undoes k j a b changes =
      rw (change_of-insertion table k j, apply_change-insertion new_path old_path k j a b) refl

  deletion-Undoes : (i l : ℕ) → l < length old_path → Undoes (i, suc l) (i, l)
  unfolding apply_changes
  deletion-Undoes i l b changes =
      rw (change_of-deletion table i l, apply_change-deletion new_path old_path i l b) refl

  step-Undoes :
      (i j k l : ℕ)
      → IsStep (i, j) (k, l)
      → i ≤ length new_path
      → j ≤ length old_path
      → Undoes (i, j) (k, l)
  step-Undoes i j k l (inl (e, f, same)) a b =
      subst (λ p. Undoes p (k, l)) (pair_eq (sym e) (sym f))
        (diagonal-Undoes k l (omega arith) (omega arith) (
          subst
            (λ p.
              (get_elem? new_path k ≡ get_elem? old_path l) ⊎ (cell table k l ≢ cell table p.0 p.1))
            (pair_eq e f) same))
  step-Undoes i j k l (inr (inl (e, f))) a b =
      subst (λ p. Undoes p (k, l)) (pair_eq (sym e) (sym f))
        (insertion-Undoes k l (omega arith) (omega arith))
  step-Undoes i j k l (inr (inr (e, f))) a b =
      subst (λ p. Undoes p (k, l)) (pair_eq (sym e) (sym f)) (deletion-Undoes k l (omega arith))

  walk-apply_changes :
      (walk : List (ℕ × ℕ)) (i j : ℕ)
      → IsWalk (i, j) walk
      → i ≤ length new_path
      → j ≤ length old_path
      → apply_changes new_path (change_list table (i, j) walk) (mixed new_path old_path i j)
        ≡ some new_path
  unfolding apply_changes change_list
  walk-apply_changes [] i j (e, f) a b = rw (e, f) refl
  walk-apply_changes ((k, l) ∷ walk) i j (step, rest) a b =
      step-Undoes i j k l step a b (change_list table (k, l) walk)
      ∙ walk-apply_changes walk k l rest (omega (arith, step)) (omega (arith, step))

  -- If the walk leads from the last cell of the table to (0, 0), each step being one row, one column or
  -- both, and where the table does not change on a step of both the switches are the same, then the changes
  -- turn the old path into the new one, and no index is out of range.
  pub change_list-apply_changes :
      (walk : List (ℕ × ℕ))
      → IsWalk (length new_path, length old_path) walk
      → apply_changes new_path (change_list table (length new_path, length old_path) walk) old_path
        ≡ some new_path
  change_list-apply_changes walk w =
      subst
        (λ p.
          apply_changes new_path (change_list table (length new_path, length old_path) walk) p
          ≡ some new_path)
        (whole old_path new_path)
        (walk-apply_changes walk (length new_path) (length old_path) w (omega arith) (omega arith))
