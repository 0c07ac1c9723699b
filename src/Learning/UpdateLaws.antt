-- ===== src/Learning/UpdateLaws.antt =====
-- The updates of learning_module.py's Q table.
use comnetsemu.Prelude.{
  ◌+◌, ◌-◌, ◌≤◌, if◌then◌else◌, ◌==◌, ◌&&◌, ltb, nat_eq, nat_beq_iff, list_eq, pair_eq, List, [],
  ◌∷◌, ◌++◌, some, length, drop, ◌≡◌, ◌⊎◌, inl, inr, refl, subst, arith, Bool-cases, Option-cases,
  length-append, length-drop,
}
use comnetsemu.Prelude.Keys.{HasDistinctKeys}
use comnetsemu.Prelude.Dict.{lookup}
use comnetsemu.Learning.Data.{
  Combination, Action, action_eq, dumps, done, failed, QMode, zero_division,
  multi_armed_bandit_no_weight, multi_armed_bandit_with_weight, shortest_path, q_learning, sarsa,
  td_zero,
}
use comnetsemu.Learning.Numbers.{Reals, Value, neg_inf, start, num, Entry, Row, QTable, finite}
use comnetsemu.Learning.Tables.{
  entry_at, set_entry, learned, update_q_ql, update_q_sarsa, update_q_bandit, bandit_entry,
  remember, max_past_rewards,
}
use comnetsemu.Learning.TableLaws.{entry_at-set_entry}
use comnetsemu.Learning.Best.{IsOrder, IsBest, key_max_action_value-IsBest}

-- The table is the other one but for one entry.
abbrev pub IsWith : {R : Type 0} → QTable R → Combination → Action → Entry R → QTable R → Type 0
IsWith {R = R} q s a e q' =
    (t : Combination) (b : Action)
    → entry_at q' t b ≡ (if (s == t) && (a == b) then some e else entry_at q t b)

abbrev pub IsShort : {R : Type 0} → QTable R → Type 0
IsShort {R = R} q =
    (t : Combination) (b : Action) (e : Entry R)
    → entry_at q t b ≡ some e
    → length e.rewards ≤ max_past_rewards

module _ {R : Type 0} (r : Reals R) where
  -- What a value counts as in an update: an infinite one as 0.
  abbrev pub known_value : Value R → R
  known_value neg_inf = r.zero
  known_value (start x) = x
  known_value (num x) = x

  -- One visit more, and a value that has moved by `alpha` of the way to the reward and the discounted next value.
  abbrev pub after_visit : R → R → R → Value R → Entry R → Entry R
  after_visit alpha gamma reward next e = record {
    visits = e.visits + 1;
    value = num (
        r.add (known_value e.value) (
          r.mul alpha
            (r.sub (r.add reward (r.mul gamma (known_value next))) (known_value e.value))));
    rewards = e.rewards;
  }

  learned-after_visit :
      (alpha gamma reward : R) (next : Value R) (e : Entry R)
      → learned r alpha gamma reward (finite r next) e ≡ after_visit alpha gamma reward next e
  learned-after_visit alpha gamma reward next e =
      rw (finite-known_value next, finite-known_value e.value) refl
    where
      finite-known_value : (v : Value R) → finite r v ≡ known_value v
      finite-known_value neg_inf = refl
      finite-known_value (start x) = refl
      finite-known_value (num x) = refl

  -- If the row of the next state has an entry, and the table one of the state and the action, then `update_q_ql` moves the
  -- value of the latter toward the reward and the discounted greatest value of that row, counts a visit, and
  -- changes nothing else.
  pub update_q_ql-IsBest :
      (o : IsOrder r) (state next_state : Combination) (alpha gamma reward : R) (q : QTable R)
      (action : Action) (row : Row R) (j : Action) (g e : Entry R)
      → HasDistinctKeys row
      → lookup (dumps next_state) q ≡ some row
      → lookup j row ≡ some g
      → entry_at q (dumps state) action ≡ some e
      → (q' : QTable R) × (k : Action) × (best : Entry R) × (update_q_ql r state next_state alpha
            gamma q reward action
          ≡ done q')
        × IsBest r k best row
        × IsWith q (dumps state) action (after_visit alpha gamma reward best.value e) q'
  unfolding update_q_ql
  update_q_ql-IsBest o state next_state alpha gamma reward q action row j g e d h l k =
      let (key, best, found, (there, most)) = key_max_action_value-IsBest r o row j g d l in
      let e' = after_visit alpha gamma reward best.value e in
      (
        set_entry q (dumps state) action e',
        key,
        best,
        rw (update_q_ql, h, found, k, there, learned-after_visit alpha gamma reward best.value e)
            refl,
        (there, most),
        λ t b. entry_at-set_entry q (dumps state) t action b e',
      )

  -- If both entries are there, `update_q_sarsa` moves the value of the one toward the reward and the discounted value of
  -- the other, counts a visit, changes nothing else, and gives the following action back.
  pub update_q_sarsa-IsWith :
      (state next_state : Combination) (alpha gamma reward : R) (q : QTable R)
      (action following : Action) (e f : Entry R)
      → entry_at q (dumps state) action ≡ some e
      → entry_at q (dumps next_state) following ≡ some f
      → (q' : QTable R) × (◌≡◌ {A = QTable R × Action}
          (update_q_sarsa r state next_state alpha gamma q reward action following)
          (q', following))
        × IsWith q (dumps state) action (after_visit alpha gamma reward f.value e) q'
  unfolding update_q_sarsa
  update_q_sarsa-IsWith state next_state alpha gamma reward q action following e f h k =
      let e' = after_visit alpha gamma reward f.value e in
      (
        set_entry q (dumps state) action e',
        rw (update_q_sarsa, h, k, learned-after_visit alpha gamma reward f.value e) refl,
        λ t b. entry_at-set_entry q (dumps state) t action b e',
      )

  length-remember :
      (reward : R) (rewards : List R)
      → length rewards ≤ max_past_rewards
      → length (remember r reward rewards) ≤ max_past_rewards
  unfolding remember
  length-remember reward rewards h =
      let all = rewards ++ reward ∷ [] in
      let more : length all ≡ length rewards + 1 = length-append rewards (reward ∷ []) in
      elim (Bool-cases (ltb max_past_rewards (length all))) [
        | inl over ↦
            let less : length (drop 1 all) ≡ length all - 1 = length-drop 1 all in
            rw over (ground (arith, more, less))
        | inr under ↦ rw under (ground (arith, more, under))
      ]

  set_entry-IsShort :
      (q : QTable R) (s : Combination) (a : Action) (e : Entry R)
      → IsShort q
      → length e.rewards ≤ max_past_rewards
      → IsShort (set_entry q s a e)
  set_entry-IsShort q s a e h k t b f l = elim (Bool-cases ((s == t) && (a == b))) [
    | inl hit ↦
        let here : e ≡ f = ground (arith, entry_at-set_entry q s t a b e, hit, l) in
        subst (λ (x : Entry R). length x.rewards ≤ max_past_rewards) here k
    | inr miss ↦ h t b f (ground (arith, entry_at-set_entry q s t a b e, miss, l))
  ]

  bandit_entry-cases :
      (alpha reward : R) (mode : QMode) (e : Entry R)
      → length e.rewards ≤ max_past_rewards
      → ((f : Entry R) × (bandit_entry r alpha reward mode e ≡ done f)
          × (f.visits ≡ e.visits + 1)
          × (length f.rewards ≤ max_past_rewards))
        ⊎ ((bandit_entry r alpha reward mode e ≡ failed zero_division)
            × (mode ≡ multi_armed_bandit_no_weight)
            × (e.visits ≡ 0))
  unfolding bandit_entry
  bandit_entry-cases alpha reward multi_armed_bandit_with_weight e h =
      inl (_, refl, refl, length-remember reward e.rewards h)
  bandit_entry-cases alpha reward multi_armed_bandit_no_weight e h =
      elim (Bool-cases (e.visits == 0)) [
        | inl first ↦ inr (rw first refl, refl, (nat_beq_iff e.visits 0).0 first)
        | inr other ↦ inl (
          record e {
            visits = e.visits + 1;
            value = num (
                r.add (finite r e.value)
                  (r.mul (r.div r.one (r.of_nat e.visits)) (r.sub reward (finite r e.value))));
          },
          rw other refl,
          refl,
          h,
        )
      ]
  bandit_entry-cases alpha reward shortest_path e h = inl (_, refl, refl, h)
  bandit_entry-cases alpha reward q_learning e h = inl (_, refl, refl, h)
  bandit_entry-cases alpha reward sarsa e h = inl (_, refl, refl, h)
  bandit_entry-cases alpha reward td_zero e h = inl (_, refl, refl, h)

  -- `update_q_bandit` keeps at most `max_past_rewards` rewards in every entry, unless it divides by zero, and it does that
  -- only without weights, for an entry that was never visited.
  pub update_q_bandit-IsShort :
      (state : Combination) (alpha : R) (q : QTable R) (reward : R) (action : Action) (mode : QMode)
      → IsShort q
      → ((q' : QTable R) × (update_q_bandit r state alpha q reward action mode ≡ done q')
          × IsShort q')
        ⊎ ((e : Entry R) × (update_q_bandit r state alpha q reward action mode
              ≡ failed zero_division)
            × (mode ≡ multi_armed_bandit_no_weight)
            × (entry_at q (dumps state) action ≡ some e)
            × (e.visits ≡ 0))
  unfolding update_q_bandit
  update_q_bandit-IsShort state alpha q reward action mode h =
      elim (Option-cases (entry_at q (dumps state) action)) [
        | inl gone ↦ inl (q, rw (update_q_bandit, gone) refl, h)
        | inr (e, here) ↦
            elim (bandit_entry-cases alpha reward mode e (h (dumps state) action e here)) [
              | inl (f, found, visits, short) ↦ inl (
                set_entry q (dumps state) action f,
                rw (update_q_bandit, here, found) refl,
                set_entry-IsShort q (dumps state) action f h short,
              )
              | inr (bad, weightless, first) ↦
                  inr (e, rw (update_q_bandit, here, bad) refl, weightless, here, first)
            ]
      ]
