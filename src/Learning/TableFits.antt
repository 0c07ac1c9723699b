-- ===== src/Learning/TableFits.antt =====
-- The Q tables of learning_module.py that fit the possible paths.
use comnetsemu.Prelude.{
  ◌==◌, nat_eq, list_eq, pair_eq, List, [], ◌∷◌, none, some, ◌≡◌, inl, inr, refl, sym, subst, ◌∙◌,
  arith, Memᴰ, Bool-cases, Option-cases,
}
use comnetsemu.Prelude.Keys.{HasDistinctKeys, HasDistinctKeys-insert}
use comnetsemu.Prelude.Dict.{lookup, insert, lookup-insert}
use comnetsemu.Learning.Data.{
  Combination, Choices, Action, no_trans, action_eq, action_beq_iff, dumps,
}
use comnetsemu.Learning.Numbers.{Value, Entry, Row, QTable}
use comnetsemu.Learning.Tables.{
  or_empty, entry_at, set_entry, put_action, put_actions, create_new_q_table,
}
use comnetsemu.Learning.SpaceLaws.{Chooses}
use comnetsemu.Learning.Moves.{IsMoveOf}
use comnetsemu.Learning.TableLaws.{combination_beq_iff, Listed, fresh, create_new_q_table-Listed}
use comnetsemu.Learning.Ready.{IsMoveFrom, IsTableFor}

module _ {R : Type 0} where
  -- The rows that the loop of `create_new_q_table` makes have no key twice.
  AreDistinct : QTable R → Type 0
  AreDistinct q = (t : Combination) (row : Row R) → lookup t q ≡ some row → HasDistinctKeys row

  or_empty-HasDistinctKeys :
      (q : QTable R) (t : Combination) → AreDistinct q → HasDistinctKeys (or_empty (lookup t q))
  unfolding AreDistinct
  or_empty-HasDistinctKeys q t h = elim (Option-cases (lookup t q)) [
    | inl e ↦ rw e tt
    | inr (row, e) ↦ rw e (h t row e)
  ]

  insert-AreDistinct :
      (q : QTable R) (s : Combination) (row : Row R)
      → AreDistinct q
      → HasDistinctKeys row
      → AreDistinct (insert s row q)
  unfolding AreDistinct
  insert-AreDistinct q s row h d t found l = elim (Bool-cases (s == t)) [
    | inl same ↦
        let here : row ≡ found = ground (arith, lookup-insert s t row q, same, l) in
        subst HasDistinctKeys here d
    | inr other ↦ h t found (ground (arith, lookup-insert s t row q, other, l))
  ]

  put_actions-AreDistinct :
      (init : Value R) (actions : List (Combination × Action)) (q : QTable R)
      → AreDistinct q
      → AreDistinct (put_actions init actions q)
  unfolding put_actions put_action
  put_actions-AreDistinct init [] q h = h
  put_actions-AreDistinct init ((s, a) ∷ actions) q h =
      put_actions-AreDistinct init actions (put_action init s a q) (
        insert-AreDistinct q (dumps s) (insert a (fresh init) (or_empty (lookup (dumps s) q))) h (
          HasDistinctKeys-insert a (fresh init) (or_empty (lookup (dumps s) q))
            (or_empty-HasDistinctKeys q (dumps s) h)))

  entry_at-lookup :
      (q : QTable R) (t : Combination) (a : Action) (e : Entry R)
      → entry_at q t a ≡ some e
      → (row : Row R) × (lookup t q ≡ some row) × (lookup a row ≡ some e)
  unfolding entry_at
  entry_at-lookup q t a e h = elim (Option-cases (lookup t q)) [
    | inl gone ↦ let bad : none ≡ some e = rw (entry_at, gone) at h in absurd (cc)
    | inr (row, found) ↦ (row, found, rw (entry_at, found) at h)
  ]

  lookup-entry_at :
      (q : QTable R) (t : Combination) (a : Action) (row : Row R)
      → lookup t q ≡ some row
      → entry_at q t a ≡ lookup a row
  unfolding entry_at
  lookup-entry_at q t a row h = rw (entry_at, h) refl

  -- A new table fits the paths whose actions it is made from.
  pub create_new_q_table-IsTableFor :
      (choices : Choices) (init : Value R) (actions : List (Combination × Action))
      → ((s : Combination) (a : Action) → Memᴰ (s, a) actions → IsMoveOf choices (s, a))
      → ((s : Combination) → Chooses choices s → Memᴰ (s, no_trans) actions)
      → IsTableFor choices (create_new_q_table init actions)
  unfolding create_new_q_table AreDistinct lookup
  create_new_q_table-IsTableFor choices init actions only every c (s, p, e) =
      let q = create_new_q_table init actions in
      let listed : Listed (dumps c) no_trans actions = (s, every s p, e) in
      let here =
        (create_new_q_table-Listed init actions (dumps c) no_trans (fresh init)).1 (listed, refl) in
      let (row, found, kept) = entry_at-lookup q (dumps c) no_trans (fresh init) here in
      let distinct = put_actions-AreDistinct init actions [] (λ t r l. absurd (cc)) in
      (
        row,
        found,
        (
          distinct (dumps c) row found,
          (fresh init, kept),
          λ a f l.
              let there = lookup-entry_at q (dumps c) a row found ∙ l in
              let ((u, m, k), _) = (create_new_q_table-Listed init actions (dumps c) a f).0 there in
              (u, only u a m, k),
        ),
      )

  -- An entry that is there may change.
  pub set_entry-IsTableFor :
      (choices : Choices) (q : QTable R) (t : Combination) (a : Action) (old new : Entry R)
      → entry_at q t a ≡ some old
      → IsTableFor choices q
      → IsTableFor choices (set_entry q t a new)
  unfolding set_entry
  set_entry-IsTableFor choices q t a old new h fits c p =
      let (row, found, (distinct, (g, kept), moves)) = fits c p in
      elim (Bool-cases (t == dumps c)) [
        | inr other ↦ (
          row,
          rw (lookup-insert t (dumps c) (insert a new (or_empty (lookup t q))) q, other) found,
          (distinct, (g, kept), moves),
        )
        | inl same ↦
            let et : t ≡ dumps c = (combination_beq_iff t (dumps c)).0 same in
            let known : lookup a row ≡ some old =
              sym (lookup-entry_at q (dumps c) a row found) ∙ (rw et at h) in
            (
              insert a new row,
              rw
                  (
                    lookup-insert t (dumps c) (insert a new (or_empty (lookup t q))) q,
                    same,
                    et,
                    found,
                  )
                  refl,
              (
                HasDistinctKeys-insert a new row distinct,
                still a new row g kept,
                λ b f l. moved a new row old known moves b f l,
              ),
            )
      ]
    where
      still :
          (a : Action) (new : Entry R) (row : Row R) (g : Entry R)
          → lookup no_trans row ≡ some g
          → (k : Entry R) × (lookup no_trans (insert a new row) ≡ some k)
      still a new row g kept = elim (Bool-cases (a == no_trans)) [
        | inl hit ↦ (new, rw (lookup-insert a no_trans new row, hit) refl)
        | inr miss ↦ (g, rw (lookup-insert a no_trans new row, miss) kept)
      ]

      moved :
          (a : Action) (new : Entry R) (row : Row R) (old : Entry R)
          → lookup a row ≡ some old
          → ((b : Action) (f : Entry R) → lookup b row ≡ some f → IsMoveFrom choices c b)
          → (b : Action) (f : Entry R) → lookup b (insert a new row) ≡ some f
          → IsMoveFrom choices c b
      moved a new row old known moves b f l = elim (Bool-cases (a == b)) [
        | inl hit ↦ let eb : a ≡ b = (action_beq_iff a b).0 hit in moves b old (rw eb at known)
        | inr miss ↦ moves b f (rw (lookup-insert a b new row, miss) at l)
      ]
