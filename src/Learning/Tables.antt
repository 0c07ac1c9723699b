-- ===== src/Learning/Tables.antt =====
-- The tables of learning_module.py: their creation and their updates. In a table a combination stands under its
-- dump.
use comnetsemu.Prelude.{
  ℕ, ◌+◌, ◌-◌, if◌then◌else◌, ltb, ◌==◌, nat_eq, list_eq, pair_eq, List, [], ◌∷◌, ◌++◌, Option,
  none, some, length, drop,
}
use comnetsemu.Prelude.Dict.{lookup, insert}
use comnetsemu.Learning.Data.{
  Combination, Action, action_eq, dumps, QMode, multi_armed_bandit_no_weight,
  multi_armed_bandit_with_weight, key_error, value_error, zero_division, Outcome, done, failed,
  ◌>>=◌, or_fail,
}
use comnetsemu.Learning.Numbers.{
  Reals, Value, num, Entry, Row, QTable, ValueTable, finite, settled, value_lt,
}

abbrev pub max_past_rewards : ℕ
max_past_rewards = 5

module _ {R : Type 0} where
  abbrev pub or_empty : Option (Row R) → Row R
  or_empty none = []
  or_empty (some row) = row

  -- One round of `create_new_q_table`.
  unfoldable pub put_action : Value R → Combination → Action → QTable R → QTable R
  unfolding lookup insert dumps
  put_action init state action q =
      insert (dumps state)
        (insert action (record { visits = 0; value = init; rewards = [] })
          (or_empty (lookup (dumps state) q)))
        q

  -- The loop of `create_new_q_table`; its debugging feature, which may load a table from a file, is left out.
  unfoldable pub put_actions : Value R → List (Combination × Action) → QTable R → QTable R
  unfolding put_action
  put_actions init [] q = q
  put_actions init ((state, action) ∷ actions) q =
      put_actions init actions (put_action init state action q)

  unfoldable pub create_new_q_table : Value R → List (Combination × Action) → QTable R
  unfolding put_actions
  create_new_q_table init actions = put_actions init actions []

  -- The loop of `create_new_value_table`.
  unfoldable pub put_states : Value R → List Combination → ValueTable R → ValueTable R
  unfolding insert dumps
  put_states init [] q = q
  put_states init (state ∷ states) q = put_states init states (insert (dumps state) (0, init) q)

  unfoldable pub create_new_value_table : Value R → List Combination → ValueTable R
  unfolding put_states
  create_new_value_table init states = put_states init states []

  -- `Q[state][action]`
  unfoldable pub entry_at : QTable R → Combination → Action → Option (Entry R)
  unfolding lookup
  entry_at q state action = elim (lookup state q) [ none ↦ none | some row ↦ lookup action row ]

  -- The assignments to the places of an entry that is there.
  unfoldable pub set_entry : QTable R → Combination → Action → Entry R → QTable R
  unfolding lookup insert
  set_entry q state action e = insert state (insert action e (or_empty (lookup state q))) q

module _ {R : Type 0} (r : Reals R) where
  -- The first key of the greatest value: `max` over the entries, from `key` with `best` on.
  unfoldable pub max_from : Action → Value R → List (Action × Value R) → Action
  max_from key best [] = key
  max_from key best ((k, v) ∷ values) =
      if value_lt r best v then max_from k v values else max_from key best values

  -- The second elements of the entries.
  unfoldable pub values_of : Row R → List (Action × Value R)
  values_of [] = []
  values_of ((k, e) ∷ row) = (k, e.value) ∷ values_of row

  -- `max` of a list; of an empty one it is a ValueError.
  unfoldable pub key_of_max : List (Action × Value R) → Outcome Action
  unfolding max_from
  key_of_max [] = failed value_error
  key_of_max ((k, v) ∷ values) = done (max_from k v values)

  unfoldable pub key_max_action_value : Row R → Outcome Action
  unfolding key_of_max values_of
  key_max_action_value row = key_of_max (values_of row)

  -- The weighted sum of the past rewards, from position `i` on.
  unfoldable pub weighted : R → ℕ → ℕ → R → List R → R
  weighted alpha n i q_n [] = q_n
  weighted alpha n i q_n (x ∷ rewards) =
      weighted alpha n (i + 1)
        (r.add q_n (r.mul (r.mul alpha (r.pow (r.sub r.one alpha) (n - i))) x)) rewards

  -- `append`, and `pop(0)` if there are too many
  unfoldable pub remember : R → List R → List R
  remember reward rewards =
      let all = rewards ++ reward ∷ [] in
      if ltb max_past_rewards (length all) then drop 1 all else all

  -- The entry after an update of the bandit; the division by the visits comes before they are counted.
  unfoldable pub bandit_entry : R → R → QMode → Entry R → Outcome (Entry R)
  unfolding weighted remember
  bandit_entry alpha reward mode e =
      let value = finite r e.value in
      elim mode [
        | multi_armed_bandit_with_weight ↦
            let q_n = weighted alpha (length e.rewards) 0 r.zero e.rewards in
            done (record {
              visits = e.visits + 1;
              value = num (r.add q_n (r.mul alpha (r.sub reward q_n)));
              rewards = remember reward e.rewards;
            })
        | multi_armed_bandit_no_weight ↦
            if e.visits == 0
            then failed zero_division
            else done (record e {
              visits = e.visits + 1;
              value =
                  num (r.add value (r.mul (r.div r.one (r.of_nat e.visits)) (r.sub reward value)));
            })
        | _ ↦ done (record e { visits = e.visits + 1; value = settled r e.value })
      ]

  -- `update_q_bandit`; a KeyError is caught, and the table is returned as it was.
  unfoldable pub update_q_bandit :
      Combination → R → QTable R → R → Action → QMode → Outcome (QTable R)
  unfolding dumps entry_at bandit_entry set_entry
  update_q_bandit state alpha q reward action mode = elim (entry_at q (dumps state) action) [
    | none ↦ done q
    | some e ↦ do e' ← bandit_entry alpha reward mode e; done (set_entry q (dumps state) action e')
  ]

  -- `q_action + alpha * (reward + gamma * q_next - q_action)`, and the count of the visits.
  abbrev pub learned : R → R → R → R → Entry R → Entry R
  learned alpha gamma reward q_next e =
      let q_action = finite r e.value in
      record e {
        visits = e.visits + 1;
        value =
            num (r.add q_action (r.mul alpha (r.sub (r.add reward (r.mul gamma q_next)) q_action)));
      }

  -- `update_q_ql`; here the lookups stand before the `try`.
  unfoldable pub update_q_ql :
      Combination → Combination → R → R → QTable R → R → Action → Outcome (QTable R)
  unfolding dumps lookup key_max_action_value entry_at set_entry
  update_q_ql state next_state alpha gamma q reward action = do
    row ← or_fail (lookup (dumps next_state) q) key_error
    key ← key_max_action_value row
    e ← or_fail (entry_at q (dumps state) action) key_error
    best ← or_fail (lookup key row) key_error
    done (set_entry q (dumps state) action (learned alpha gamma reward (finite r best.value) e))

  -- `update_q_sarsa`, with the action that `get_action` has given for the next state.
  unfoldable pub update_q_sarsa :
      Combination → Combination → R → R → QTable R → R → Action → Action → QTable R × Action
  unfolding dumps entry_at set_entry
  update_q_sarsa state next_state alpha gamma q reward action following =
      elim (entry_at q (dumps state) action) [
        | none ↦ (q, following)
        | some e ↦ elim (entry_at q (dumps next_state) following) [
          | none ↦ (q, following)
          | some f ↦ (
            set_entry q (dumps state) action (learned alpha gamma reward (finite r f.value) e),
            following,
          )
        ]
      ]

  -- `update_td_zero`, where `tenth` is the constant 0.1.
  unfoldable pub update_td_zero :
      R → Combination → Combination → R → ValueTable R → R → ValueTable R
  unfolding dumps lookup insert
  update_td_zero tenth state next_state alpha q reward = elim (lookup (dumps state) q) [
    | none ↦ q
    | some (visits, value) ↦ elim (lookup (dumps next_state) q) [
      | none ↦ q
      | some (_, next_value) ↦
          let q_action = finite r value in
          let target = r.add reward (r.mul tenth (finite r next_value)) in
          insert (dumps state)
            (visits + 1, num (r.add q_action (r.mul alpha (r.sub target q_action)))) q
    ]
  ]
