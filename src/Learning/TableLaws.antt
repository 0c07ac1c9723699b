-- ===== src/Learning/TableLaws.antt =====
-- The entries of a Q table of learning_module.py after its creation and its updates.
use comnetsemu.Prelude.{
  true, if◌then◌else◌, ◌==◌, ◌&&◌, nat_eq, list_eq, pair_eq, List, [], ◌∷◌, some, ◌≡◌, ◌↔◌, ◌⊎◌,
  Memᴰ, sym, ◌∙◌, inl, inr, refl, ap, arith, Bool-cases, Option-cases, list_beq_iff,
}
use mathlib.Core.List.Memᴰ
use comnetsemu.Prelude.Dict.{lookup, insert, lookup-insert}
use comnetsemu.Learning.Data.{Combination, Action, action_eq, action_beq_iff, dumps}
use comnetsemu.Learning.Numbers.{Value, Entry, QTable}
use comnetsemu.Learning.Tables.{
  or_empty, entry_at, set_entry, put_action, put_actions, create_new_q_table,
}

pub combination_beq_iff : (s t : Combination) → ((s == t) ≡ true) ↔ (s ≡ t)
combination_beq_iff s t = list_beq_iff s t

-- The action is given for a state of that dump.
abbrev pub Listed : Combination → Action → List (Combination × Action) → Type 0
Listed t b actions = (s : Combination) × Memᴰ (s, b) actions × (dumps s ≡ t)

module _ {R : Type 0} where
  entry_at-or_empty :
      (q : QTable R) (t : Combination) (b : Action)
      → entry_at q t b ≡ lookup b (or_empty (lookup t q))
  unfolding entry_at lookup
  entry_at-or_empty q t b = elim (Option-cases (lookup t q)) [
    | inl e ↦ rw (entry_at, e) refl
    | inr (row, e) ↦ rw (entry_at, e) refl
  ]

  -- Only the given entry is another.
  pub entry_at-set_entry :
      (q : QTable R) (s t : Combination) (a b : Action) (e : Entry R)
      → entry_at (set_entry q s a e) t b ≡ (if (s == t) && (a == b) then some e else entry_at q t b)
  unfolding set_entry
  entry_at-set_entry q s t a b e = elim (Bool-cases (s == t)) [
    | inl same ↦
        let est : s ≡ t = (combination_beq_iff s t).0 same in
        rw
          (
            entry_at-or_empty (set_entry q s a e) t b,
            entry_at-or_empty q t b,
            set_entry,
            lookup-insert s t (insert a e (or_empty (lookup s q))) q,
            same,
            est,
            lookup-insert a b e (or_empty (lookup t q)),
          )
          refl
    | inr other ↦
        rw
          (
            entry_at-or_empty (set_entry q s a e) t b,
            entry_at-or_empty q t b,
            set_entry,
            lookup-insert s t (insert a e (or_empty (lookup s q))) q,
            other,
          )
          refl
  ]

  abbrev pub fresh : Value R → Entry R
  fresh init = record { visits = 0; value = init; rewards = [] }

  put_action-entry_at :
      (init : Value R) (s : Combination) (a : Action) (q : QTable R) (t : Combination) (b : Action)
      → entry_at (put_action init s a q) t b
        ≡ (if (dumps s == t) && (a == b) then some (fresh init) else entry_at q t b)
  unfolding put_action set_entry
  put_action-entry_at init s a q t b = entry_at-set_entry q (dumps s) t a b (fresh init)

  put_actions-cases :
      (init : Value R) (actions : List (Combination × Action)) (q : QTable R) (t : Combination)
      (b : Action)
      → (Listed t b actions × (entry_at (put_actions init actions q) t b ≡ some (fresh init)))
        ⊎ ((¬ Listed t b actions) × (entry_at (put_actions init actions q) t b ≡ entry_at q t b))
  unfolding put_actions
  put_actions-cases init [] q t b = inr (λ l. Memᴰ.not-nil l.1, refl)
  put_actions-cases init ((s, a) ∷ actions) q t b =
      let q1 = put_action init s a q in
      elim (put_actions-cases init actions q1 t b) [
        | inl ((u, m, d), e) ↦ inl ((u, Memᴰ.tail m, d), e)
        | inr (none_of, e) ↦ elim (Bool-cases ((dumps s == t) && (a == b))) [
          | inl hit ↦
              let es : dumps s ≡ t = (combination_beq_iff (dumps s) t).0 (ground arith) in
              let ea : a ≡ b = (action_beq_iff a b).0 (ground arith) in
              let here : entry_at q1 t b ≡ some (fresh init) =
                rw (put_action-entry_at init s a q t b, hit) refl in
              inl ((s, Memᴰ.head (rw ea refl), es), e ∙ here)
          | inr miss ↦
              let here : entry_at q1 t b ≡ entry_at q t b =
                rw (put_action-entry_at init s a q t b, miss) refl in
              inr (
                λ l. elim (Memᴰ.cases_cons l.1) [
                  | inr k ↦ none_of (l.0, k, l.2)
                  | inl h ↦
                      let es : (dumps s == t) ≡ true =
                        (combination_beq_iff (dumps s) t).1
                          (ap (λ (x : Combination × Action). dumps x.0) (sym h) ∙ l.2) in
                      let ea : (a == b) ≡ true =
                        (action_beq_iff a b).1 (ap (λ (x : Combination × Action). x.1) (sym h)) in
                      ground arith
                ],
                e ∙ here,
              )
        ]
      ]

  -- A new table has an entry, which is not visited and has the initial value, exactly for the actions that were given for
  -- a state of the same dump.
  pub create_new_q_table-Listed :
      (init : Value R) (actions : List (Combination × Action)) (t : Combination) (b : Action)
      (e : Entry R)
      → (entry_at (create_new_q_table init actions) t b ≡ some e)
        ↔ (Listed t b actions × (e ≡ fresh init))
  unfolding create_new_q_table entry_at lookup
  create_new_q_table-Listed init actions t b e = elim (put_actions-cases init actions [] t b) [
    | inl (l, h) ↦ (λ k. (l, ground (arith, h, k)), λ k. rw (h, k.1) refl)
    | inr (none_of, h) ↦ (λ k. ground (arith, h, k), λ k. absurd (none_of k.0))
  ]
