-- ===== src/Learning/MergeLaws.antt =====
-- `merging_qtable` of learning_module.py against the tables that fit the possible paths.
use comnetsemu.Prelude.{
  ℕ, ◌==◌, nat_eq, list_eq, pair_eq, Eq, List, [], ◌∷◌, none, some, ◌≡◌, ◌⊎◌, inl, inr, refl, subst,
  arith, Bool-cases,
}
use comnetsemu.Prelude.Keys.{HasDistinctKeys}
use comnetsemu.Prelude.Dict.{Dict, lookup}
use comnetsemu.Learning.Data.{Combination, Choices, no_trans, action_eq, dumps, done}
use comnetsemu.Learning.Numbers.{Row, QTable}
use comnetsemu.Learning.Merging.{merge_entry, merge_row, merge_rows, merging_qtable}
use comnetsemu.Learning.Ready.{IsTableFor}
use comnetsemu.Learning.Updated.{Outcome-cases}

module _ {K V : Type 0} ⦃e : Eq K⦄ where
  -- The dicts have the same keys in the same order, with values in a relation.
  abbrev pub AreLike : (V → V → Type 0) → Dict K V → Dict K V → Type 0
  AreLike P [] [] = Unit
  AreLike P [] (y ∷ d') = ⊥
  AreLike P (x ∷ d) [] = ⊥
  AreLike P ((k, v) ∷ d) ((j, w) ∷ d') = (k ≡ j) × P v w × AreLike P d d'

  lookup-AreLike :
      (P : V → V → Type 0) (k : K) (d d' : Dict K V)
      → AreLike P d d'
      → ((lookup k d ≡ none) × (lookup k d' ≡ none))
        ⊎ ((v w : V) × (lookup k d ≡ some v) × (lookup k d' ≡ some w) × P v w)
  unfolding lookup
  lookup-AreLike P k [] [] h = inl (refl, refl)
  lookup-AreLike P k [] (y ∷ d') h = absurd h
  lookup-AreLike P k (x ∷ d) [] h = absurd h
  lookup-AreLike P k ((i, v) ∷ d) ((j, w) ∷ d') (same, p, h) = elim (Bool-cases (j == k)) [
    | inl hit ↦ inr (v, w, rw (lookup, same, hit) refl, rw (lookup, hit) refl, p)
    | inr miss ↦ rw (lookup, same, miss) (lookup-AreLike P k d d' h)
  ]

  AreLike-HasDistinctKeys :
      (P : V → V → Type 0) (d d' : Dict K V)
      → AreLike P d d'
      → HasDistinctKeys d
      → HasDistinctKeys d'
  AreLike-HasDistinctKeys P [] [] h u = tt
  AreLike-HasDistinctKeys P [] (y ∷ d') h u = absurd h
  AreLike-HasDistinctKeys P (x ∷ d) [] h u = tt
  AreLike-HasDistinctKeys P ((i, v) ∷ d) ((j, w) ∷ d') (same, p, h) (new, u) =
      let gone : lookup j d ≡ none = rw same at new in
      let there : lookup j d' ≡ none = elim (lookup-AreLike P j d d' h) [
        | inl (_, k) ↦ k
        | inr (a, b, k, _, _) ↦ absurd (cc)
      ] in
      (there, AreLike-HasDistinctKeys P d d' h u)

module _ {R : Type 0} where
  abbrev SameRow : Row R → Row R → Type 0
  SameRow = AreLike (λ e f. Unit)

  abbrev SameTable : QTable R → QTable R → Type 0
  SameTable = AreLike SameRow

  merge_row-SameRow :
      (prev : QTable R) (joined : List ℕ) (s : Combination) (row row' : Row R)
      → merge_row prev joined s row ≡ done row'
      → SameRow row row'
  unfolding merge_row
  merge_row-SameRow prev joined s [] row' h =
      let here : [] ≡ row' = ground (arith, h) in subst (SameRow []) here tt
  merge_row-SameRow prev joined s ((a, e) ∷ row) row' h =
      elim (Outcome-cases (merge_entry prev joined s a e)) [
        | inl (x, bad) ↦ absurd (ground (arith, rw (merge_row, bad) at h))
        | inr (f, good) ↦ elim (Outcome-cases (merge_row prev joined s row)) [
          | inl (x, bad) ↦ absurd (ground (arith, rw (merge_row, good, bad) at h))
          | inr (rest, fine) ↦
              let same : done ((a, f) ∷ rest) ≡ done row' = rw (merge_row, good, fine) at h in
              let here : (a, f) ∷ rest ≡ row' = ground (arith, same) in
              subst (SameRow ((a, e) ∷ row)) here
                (refl, tt, merge_row-SameRow prev joined s row rest fine)
        ]
      ]

  merge_rows-SameTable :
      (prev : QTable R) (joined : List ℕ) (q q' : QTable R)
      → merge_rows prev joined q ≡ done q'
      → SameTable q q'
  unfolding merge_rows
  merge_rows-SameTable prev joined [] q' h =
      let here : [] ≡ q' = ground (arith, h) in subst (SameTable []) here tt
  merge_rows-SameTable prev joined ((s, row) ∷ q) q' h =
      elim (Outcome-cases (merge_row prev joined s row)) [
        | inl (x, bad) ↦ absurd (ground (arith, rw (merge_rows, bad) at h))
        | inr (row', good) ↦ elim (Outcome-cases (merge_rows prev joined q)) [
          | inl (x, bad) ↦ absurd (ground (arith, rw (merge_rows, good, bad) at h))
          | inr (rest, fine) ↦
              let same : done ((s, row') ∷ rest) ≡ done q' = rw (merge_rows, good, fine) at h in
              let here : (s, row') ∷ rest ≡ q' = ground (arith, same) in
              subst (SameTable ((s, row) ∷ q)) here (
                refl,
                merge_row-SameRow prev joined s row row' good,
                merge_rows-SameTable prev joined q rest fine,
              )
        ]
      ]

  -- A merged table has the entries of the new one, with other values.
  pub merging_qtable-IsTableFor :
      (choices : Choices) (prev new q : QTable R) (joined : List ℕ)
      → merging_qtable prev new joined ≡ done q
      → IsTableFor choices new
      → IsTableFor choices q
  unfolding merging_qtable
  merging_qtable-IsTableFor choices prev new q joined h fits c p =
      let (row, found, (distinct, (g, kept), moves)) = fits c p in
      let like = merge_rows-SameTable prev joined new q h in
      elim (lookup-AreLike SameRow (dumps c) new q like) [
        | inl (none_new, _) ↦ absurd (cc)
        | inr (r1, r2, l1, l2, same) ↦
            let e1 : r1 ≡ row = ground (arith, l1, found) in
            let rows : SameRow row r2 = subst (λ x. SameRow x r2) e1 same in
            (
              r2,
              l2,
              (
                AreLike-HasDistinctKeys (λ e f. Unit) row r2 rows distinct,
                elim (lookup-AreLike (λ e f. Unit) no_trans row r2 rows) [
                  | inl (gone, _) ↦ absurd (cc)
                  | inr (v, w, _, k, _) ↦ (w, k)
                ],
                λ a e l. elim (lookup-AreLike (λ e f. Unit) a row r2 rows) [
                  | inl (_, gone) ↦ absurd (cc)
                  | inr (v, w, k, _, _) ↦ moves a v k
                ],
              ),
            )
      ]
