-- ===== src/Learning/Ucb.antt =====
-- `get_action_ucb` of learning_module.py.
use comnetsemu.Prelude.{
  ℕ, ◌==◌, nat_eq, nat_beq_iff, list_eq, pair_eq, List, [], ◌∷◌, ◌++◌, none, some, ◌≡◌, ◌≢◌, ◌⊎◌,
  inl, inr, refl, ap, sym, arith, Memᴰ, Bool-cases, All,
}
use mathlib.Core.List.Memᴰ
use mathlib.Core.List.{append_assoc, append-nil}
use comnetsemu.Prelude.Keys.{HasDistinctKeys, Memᴰ-lookup}
use comnetsemu.Prelude.Dict.{lookup, insert, lookup-insert}
use comnetsemu.Learning.Data.{Combination, Action, action_eq, action_beq_iff, dumps, done}
use comnetsemu.Learning.Numbers.{Reals, Value, Entry, Row, QTable, add_value}
use comnetsemu.Learning.Tables.{key_of_max}
use comnetsemu.Learning.Best.{IsOrder, IsGreatest, key_of_max-IsGreatest}
use comnetsemu.Learning.Choice.{Random, total_visits, ucb_loop, get_action_ucb}

module _ {R : Type 0} (r : Reals R) where
  -- The upper confidence bounds of the actions of a row.
  abbrev pub bound : ℕ → R → Entry R → Value R
  bound total c e =
      add_value r e.value (r.mul c (r.sqrt (r.div (r.log (r.of_nat total)) (r.of_nat e.visits))))

  abbrev pub bounds : ℕ → R → Row R → List (Action × Value R)
  bounds total c [] = []
  bounds total c ((k, e) ∷ row) = (k, bound total c e) ∷ bounds total c row

module _ {R : Type 0} where
  -- The first of the row's actions that was never chosen.
  abbrev pub IsFirstNew : Action → Row R → Type 0
  IsFirstNew a [] = ⊥
  IsFirstNew a ((k, e) ∷ row) = ((a ≡ k) × (e.visits ≡ 0)) ⊎ ((e.visits ≢ 0) × IsFirstNew a row)

  abbrev pub IsVisited : Row R → Type 0
  IsVisited row = All (λ x. x.1.visits ≢ 0) row

  pub IsFirstNew-Memᴰ :
      (a : Action) (row : Row R) → IsFirstNew a row → (e : Entry R) × Memᴰ (a, e) row
  IsFirstNew-Memᴰ a [] h = absurd h
  IsFirstNew-Memᴰ a ((k, e) ∷ row) (inl (q, _)) = (e, Memᴰ.head (rw q refl))
  IsFirstNew-Memᴰ a ((k, e) ∷ row) (inr (_, h)) =
      let (f, m) = IsFirstNew-Memᴰ a row h in (f, Memᴰ.tail m)

  insert-new :
      (k : Action) (v : Value R) (d : List (Action × Value R))
      → lookup k d ≡ none
      → insert k v d ≡ d ++ (k, v) ∷ []
  unfolding lookup insert
  insert-new k v [] h = refl
  insert-new k v ((j, w) ∷ d) h = elim (Bool-cases (j == k)) [
    | inl same ↦ absurd (ground (arith, same, h))
    | inr other ↦ rw other (ap (λ t. (j, w) ∷ t) (insert-new k v d (ground (arith, other, h))))
  ]

module _ {R : Type 0} (r : Reals R) (random : Random R) where
  -- The loop has the bounds of the actions before, and none of those to come.
  ucb_loop-cases :
      (total : ℕ) (c : R) (row : Row R) (values : List (Action × Value R))
      → HasDistinctKeys row
      → ((k : Action) (e : Entry R) → Memᴰ (k, e) row → lookup k values ≡ none)
      → ((a : Action) × IsFirstNew a row × (ucb_loop r random total c row values ≡ done a))
        ⊎ (IsVisited row
            × (ucb_loop r random total c row values
                ≡ key_of_max r (values ++ bounds r total c row)))
  unfolding ucb_loop
  ucb_loop-cases total c [] values d h = inr (tt, ap (key_of_max r) (sym (append-nil values)))
  ucb_loop-cases total c ((k, e) ∷ row) values d h = elim (Bool-cases (e.visits == 0)) [
    | inl new ↦ inl (k, inl (refl, (nat_beq_iff e.visits 0).0 new), rw (ucb_loop, new) refl)
    | inr old ↦
        let seen : e.visits ≢ 0 = ground (arith, nat_beq_iff e.visits 0, old) in
        let more = insert k (bound r total c e) values in
        elim (ucb_loop-cases total c row more d.1 (apart k (bound r total c e) row values d h)) [
          | inl (a, first, found) ↦ inl (a, inr (seen, first), rw (ucb_loop, old) found)
          | inr (all, found) ↦
              let at_end = insert-new k (bound r total c e) values (h k e (Memᴰ.head refl)) in
              inr (
                (seen, all),
                rw
                    (
                      ucb_loop,
                      old,
                      found,
                      at_end,
                      append_assoc values ((k, bound r total c e) ∷ []) (bounds r total c row),
                    )
                    refl,
              )
        ]
  ]
    where
      apart :
          (k : Action) (v : Value R) {e : Entry R} (row : Row R) (values : List (Action × Value R))
          → HasDistinctKeys ((k, e) ∷ row)
          → ((j : Action) (f : Entry R) → Memᴰ (j, f) ((k, e) ∷ row) → lookup j values ≡ none)
          → (j : Action) (f : Entry R) → Memᴰ (j, f) row
          → lookup j (insert k v values) ≡ none
      apart k v row values d h j f m = elim (Bool-cases (k == j)) [
        | inl same ↦
            let ek : k ≡ j = (action_beq_iff k j).0 same in
            let here : lookup j row ≡ some f = Memᴰ-lookup j f row d.1 m in
            let gone : lookup j row ≡ none = rw (← ek) d.0 in absurd (cc)
        | inr other ↦ rw (lookup-insert k j v values, other) (h j f (Memᴰ.tail m))
      ]

  -- In a state whose row has an entry, `get_action_ucb` gives the first action that was never chosen, and if there is none,
  -- an action of the greatest upper confidence bound.
  pub get_action_ucb-IsGreatest :
      (o : IsOrder r) (q : QTable R) (state : Combination) (c : R) (row : Row R) (j : Action)
      (g : Entry R)
      → HasDistinctKeys row
      → lookup (dumps state) q ≡ some row
      → lookup j row ≡ some g
      → (a : Action) × (get_action_ucb r random q state c ≡ done a)
        × (IsFirstNew a row
            ⊎ (IsVisited row
                × ((v : Value R) × IsGreatest r a v (bounds r (total_visits row) c row))))
  unfolding get_action_ucb lookup
  get_action_ucb-IsGreatest o q state c [] j g d h l = absurd (cc)
  get_action_ucb-IsGreatest o q state c ((i, f) ∷ row) j g d h l =
      let all = (i, f) ∷ row in
      let total = total_visits all in
      elim (ucb_loop-cases total c all [] d (λ k e m. refl)) [
        | inl (a, first, found) ↦ (a, rw (get_action_ucb, h) found, inl first)
        | inr (visited, found) ↦
            let (k, v, best, greatest) =
              key_of_max-IsGreatest r o (i, bound r total c f) (bounds r total c row) in
            (k, rw (get_action_ucb, h, found) best, inr (visited, (v, greatest)))
      ]

  bounds-Memᴰ :
      (total : ℕ) (c : R) (k : Action) (v : Value R) (row : Row R)
      → Memᴰ (k, v) (bounds r total c row)
      → (e : Entry R) × Memᴰ (k, e) row
  bounds-Memᴰ total c k v [] m = absurd (Memᴰ.not-nil m)
  bounds-Memᴰ total c k v ((j, f) ∷ row) m = elim (Memᴰ.cases_cons m) [
    | inl q ↦ (f, Memᴰ.head (ap (λ (x : Action × Value R). (x.0, f)) q))
    | inr t ↦ let (e, n) = bounds-Memᴰ total c k v row t in (e, Memᴰ.tail n)
  ]

  pub get_action_ucb-Memᴰ :
      (o : IsOrder r) (q : QTable R) (state : Combination) (c : R) (row : Row R) (j : Action)
      (g : Entry R)
      → HasDistinctKeys row
      → lookup (dumps state) q ≡ some row
      → lookup j row ≡ some g
      → (a : Action) × (e : Entry R) × (get_action_ucb r random q state c ≡ done a)
        × (lookup a row ≡ some e)
  get_action_ucb-Memᴰ o q state c row j g d h l =
      let (a, found, why) = get_action_ucb-IsGreatest o q state c row j g d h l in
      let (e, m) = among a why in (a, e, found, Memᴰ-lookup a e row d m)
    where
      among :
          (a : Action)
          → (IsFirstNew a row
              ⊎ (IsVisited row
                  × ((v : Value R) × IsGreatest r a v (bounds r (total_visits row) c row))))
          → (e : Entry R) × Memᴰ (a, e) row
      among a (inl first) = IsFirstNew-Memᴰ a row first
      among a (inr (_, (v, (m, _)))) = bounds-Memᴰ (total_visits row) c a v row m
