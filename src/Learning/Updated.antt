-- ===== src/Learning/Updated.antt =====
-- The updates of learning_module.py against the tables that fit the possible paths.
use comnetsemu.Prelude.{
  nat_eq, list_eq, pair_eq, ◌≡◌, ◌⊎◌, inl, inr, refl, subst, arith, Option-cases,
}
use comnetsemu.Prelude.Dict.{lookup}
use comnetsemu.Learning.Data.{
  Combination, Choices, Action, action_eq, dumps, QMode, Outcome, done, failed, Exception,
  key_error,
}
use comnetsemu.Learning.Numbers.{Reals, QTable, finite}
use comnetsemu.Learning.Tables.{
  entry_at, set_entry, key_max_action_value, bandit_entry, learned, update_q_bandit, update_q_ql,
}
use comnetsemu.Learning.Ready.{IsTableFor}
use comnetsemu.Learning.TableFits.{set_entry-IsTableFor}

pub Outcome-cases :
    {A : Type 0} (x : Outcome A) → ((e : Exception) × (x ≡ failed e)) ⊎ ((a : A) × (x ≡ done a))
Outcome-cases (failed e) = inl (e, refl)
Outcome-cases (done a) = inr (a, refl)

module _ {R : Type 0} (r : Reals R) (choices : Choices) where
  pub update_q_bandit-IsTableFor :
      (state : Combination) (alpha : R) (q q' : QTable R) (reward : R) (action : Action)
      (mode : QMode)
      → update_q_bandit r state alpha q reward action mode ≡ done q'
      → IsTableFor choices q
      → IsTableFor choices q'
  unfolding update_q_bandit
  update_q_bandit-IsTableFor state alpha q q' reward action mode h fits =
      elim (Option-cases (entry_at q (dumps state) action)) [
        | inl gone ↦
            let same : done q ≡ done q' = rw (update_q_bandit, gone) at h in
            let here : q ≡ q' = ground (arith, same) in subst (IsTableFor choices) here fits
        | inr (e, found) ↦ elim (Outcome-cases (bandit_entry r alpha reward mode e)) [
          | inl (x, bad) ↦
              let none_left : failed x ≡ done q' = rw (update_q_bandit, found, bad) at h in
              absurd (cc)
          | inr (f, good) ↦
              let same : done (set_entry q (dumps state) action f) ≡ done q' =
                rw (update_q_bandit, found, good) at h in
              let here : set_entry q (dumps state) action f ≡ q' = ground (arith, same) in
              subst (IsTableFor choices) here
                (set_entry-IsTableFor choices q (dumps state) action e f found fits)
        ]
      ]

  pub update_q_ql-IsTableFor :
      (state next_state : Combination) (alpha gamma : R) (q q' : QTable R) (reward : R)
      (action : Action)
      → update_q_ql r state next_state alpha gamma q reward action ≡ done q'
      → IsTableFor choices q
      → IsTableFor choices q'
  unfolding update_q_ql
  update_q_ql-IsTableFor state next_state alpha gamma q q' reward action h fits =
      elim (Option-cases (lookup (dumps next_state) q)) [
        | inl gone ↦
            let bad : failed key_error ≡ done q' = rw (update_q_ql, gone) at h in absurd (cc)
        | inr (row, found) ↦ elim (Outcome-cases (key_max_action_value r row)) [
          | inl (x, gone) ↦
              let bad : failed x ≡ done q' = rw (update_q_ql, found, gone) at h in absurd (cc)
          | inr (key, chosen) ↦ elim (Option-cases (entry_at q (dumps state) action)) [
            | inl gone ↦
                let bad : failed key_error ≡ done q' = rw (update_q_ql, found, chosen, gone) at h in
                absurd (cc)
            | inr (e, here) ↦ elim (Option-cases (lookup key row)) [
              | inl gone ↦
                  let bad : failed key_error ≡ done q' =
                    rw (update_q_ql, found, chosen, here, gone) at h in
                  absurd (cc)
              | inr (best, there) ↦
                  let f = learned r alpha gamma reward (finite r best.value) e in
                  let same : done (set_entry q (dumps state) action f) ≡ done q' =
                    rw (update_q_ql, found, chosen, here, there) at h in
                  let at_last : set_entry q (dumps state) action f ≡ q' = ground (arith, same) in
                  subst (IsTableFor choices) at_last
                    (set_entry-IsTableFor choices q (dumps state) action e f here fits)
            ]
          ]
        ]
      ]
