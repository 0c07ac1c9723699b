-- ===== src/Learning/ChoiceLaws.antt =====
-- The actions that learning_module.py chooses, and how a choice fails.
use comnetsemu.Prelude.{
  ◌+◌, Bool, true, ◌==◌, nat_eq, list_eq, pair_eq, List, [], ◌∷◌, some, length, ◌≡◌, ◌⊎◌, inl, inr,
  refl, ap, sym, subst, arith, Memᴰ, Bool-cases,
}
use mathlib.Core.List.Memᴰ
use comnetsemu.Prelude.Keys.{HasDistinctKeys, lookup-Memᴰ, Memᴰ-lookup}
use comnetsemu.Prelude.Dict.{lookup}
use comnetsemu.Learning.Data.{
  Combination, Action, action_eq, action_beq_iff, dumps, ExplorationMode, constant_eps, falling_eps,
  softmax, ucb, Outcome, done, failed, index_error, unbound_local, value_error,
}
use comnetsemu.Learning.Numbers.{Reals, Entry, Row, QTable}
use comnetsemu.Learning.Spaces.{remove_first}
use comnetsemu.Learning.Tables.{values_of}
use comnetsemu.Learning.Best.{IsOrder, key_max_action_value-IsBest, Memᴰ-values_of}
use comnetsemu.Learning.Softmax.{IsRandom, IsUnweighted, IsRefused, choose_softmax-cases}
use comnetsemu.Learning.Ucb.{get_action_ucb-Memᴰ}
use comnetsemu.Learning.Choice.{
  Random, keys_of, get_action_eps_greedy, get_action_softmax, get_action,
}

-- The action has an entry in the row.
abbrev pub IsOffered : {R : Type 0} → Row R → Outcome Action → Type 0
IsOffered {R = R} row result =
    (a : Action) × (e : Entry R) × (result ≡ done a) × (lookup a row ≡ some e)

module _ {R : Type 0} where
  Memᴰ-keys_of : (k : Action) (row : Row R) → Memᴰ k (keys_of row) → (e : Entry R) × Memᴰ (k, e) row
  unfolding keys_of
  Memᴰ-keys_of k [] m = absurd (Memᴰ.not-nil m)
  Memᴰ-keys_of k ((j, e) ∷ row) m = elim (Memᴰ.cases_cons m) [
    | inl q ↦ (e, Memᴰ.head (rw q refl))
    | inr t ↦ let (f, n) = Memᴰ-keys_of k row t in (f, Memᴰ.tail n)
  ]

  length-keys_of : (row : Row R) → length (keys_of row) ≡ length row
  unfolding keys_of
  length-keys_of [] = refl
  length-keys_of ((k, e) ∷ row) = omega (arith, length-keys_of row)

  keys_of-Memᴰ : (k : Action) (e : Entry R) (row : Row R) → Memᴰ (k, e) row → Memᴰ k (keys_of row)
  unfolding keys_of
  keys_of-Memᴰ k e [] m = absurd (Memᴰ.not-nil m)
  keys_of-Memᴰ k e ((j, f) ∷ row) m = elim (Memᴰ.cases_cons m) [
    | inl q ↦ Memᴰ.head (ap (λ (x : Action × Entry R). x.0) q)
    | inr t ↦ Memᴰ.tail (keys_of-Memᴰ k e row t)
  ]

remove_first-Memᴰ :
    (is : Action → Bool) (k : Action) (l : List Action) → Memᴰ k (remove_first is l) → Memᴰ k l
unfolding remove_first
remove_first-Memᴰ is k [] m = m
remove_first-Memᴰ is k (x ∷ l) m = elim (Bool-cases (is x)) [
  | inl hit ↦ Memᴰ.tail (rw (remove_first, hit) at m)
  | inr miss ↦ elim (Memᴰ.cases_cons (rw (remove_first, miss) at m)) [
    | inl e ↦ Memᴰ.head e
    | inr t ↦ Memᴰ.tail (remove_first-Memᴰ is k l t)
  ]
]

length-remove_first :
    (k : Action) (l : List Action) → Memᴰ k l → length (remove_first (λ x. x == k) l) + 1 ≡ length l
unfolding remove_first
length-remove_first k [] m = absurd (Memᴰ.not-nil m)
length-remove_first k (x ∷ l) m = elim (Bool-cases (x == k)) [
  | inl hit ↦ rw hit (omega arith)
  | inr miss ↦ elim (Memᴰ.cases_cons m) [
    | inl e ↦ let hit : (x == k) ≡ true = (action_beq_iff x k).1 (sym e) in absurd (cc)
    | inr t ↦ let shorter = length-remove_first k l t in rw miss (omega arith)
  ]
]

module _ {R : Type 0} (r : Reals R) (random : Random R) (o : IsOrder r)
    (choices : IsRandom random) where
  get_action_eps_greedy-cases :
      (state : Combination) (q : QTable R) (epsilon : R) (row : Row R) (j : Action) (g : Entry R)
      → HasDistinctKeys row
      → lookup (dumps state) q ≡ some row
      → lookup j row ≡ some g
      → IsOffered row (get_action_eps_greedy r random state q epsilon)
        ⊎ ((get_action_eps_greedy r random state q epsilon ≡ failed index_error) × (length row ≡ 1))
  unfolding get_action_eps_greedy
  get_action_eps_greedy-cases state q epsilon row j g d h l =
      let (k, best, found, (there, most)) = key_max_action_value-IsBest r o row j g d l in
      let others = remove_first (λ x. x == k) (keys_of row) in
      let n = lookup-Memᴰ k best row there in
      let less = length-remove_first k (keys_of row) (keys_of-Memᴰ k best row n) in
      elim (Bool-cases (r.lt random.draw epsilon)) [
        | inr exploit ↦ inl (k, best, rw (get_action_eps_greedy, h, found, exploit) refl, there)
        | inl wander ↦ elim (list-cases others) [
          | inl e ↦ inr (
            rw (get_action_eps_greedy, h, found, wander, e) refl,
            (ground (arith, less, e, length-keys_of row)),
          )
          | inr (a, rest, e) ↦
              let m = subst (Memᴰ (random.pick a rest)) (sym e) (choices.pick-Memᴰ a rest) in
              let into = remove_first-Memᴰ (λ x. x == k) (random.pick a rest) (keys_of row) m in
              let (f, i) = Memᴰ-keys_of (random.pick a rest) row into in
              inl (
                random.pick a rest,
                f,
                rw (get_action_eps_greedy, h, found, wander, e) refl,
                Memᴰ-lookup (random.pick a rest) f row d i,
              )
        ]
      ]
    where
      list-cases :
          (l : List Action) → (l ≡ []) ⊎ ((a : Action) × (rest : List Action) × (l ≡ a ∷ rest))
      list-cases [] = inl refl
      list-cases (a ∷ rest) = inr (a, rest, refl)

  get_action_softmax-cases :
      (state : Combination) (q : QTable R) (tau : R) (row : Row R) (j : Action) (g : Entry R)
      → HasDistinctKeys row
      → lookup (dumps state) q ≡ some row
      → lookup j row ≡ some g
      → IsOffered row (get_action_softmax r random q state tau)
        ⊎ ((get_action_softmax r random q state tau ≡ failed unbound_local)
            × IsUnweighted r tau (values_of r row))
        ⊎ ((get_action_softmax r random q state tau ≡ failed value_error)
            × IsRefused r random tau (values_of r row))
  unfolding get_action_softmax values_of lookup
  get_action_softmax-cases state q tau [] j g d h l = absurd (cc)
  get_action_softmax-cases state q tau ((i, f) ∷ row) j g d h l =
      elim (choose_softmax-cases r random choices tau (i, f.value) (values_of r row) value_error) [
        | inr (inl (bad, why)) ↦ inr (inl (rw (get_action_softmax, h) bad, why))
        | inr (inr (bad, why)) ↦ inr (inr (rw (get_action_softmax, h) bad, why))
        | inl (k, v, good, m) ↦
            let (e, n, _) = Memᴰ-values_of r o k v ((i, f) ∷ row) m in
            inl (k, e, rw (get_action_softmax, h) good, Memᴰ-lookup k e ((i, f) ∷ row) d n)
      ]

  -- In a state whose row has an entry, `get_action` gives an action of that row, whatever the mode, the numbers and the
  -- draws are, unless it explores with no other action to take, a softmax weight of a value that was never updated
  -- divides by zero, or `np.random.choice` refuses the probabilities of the weights.
  pub get_action-IsOffered :
      (mode : ExplorationMode) (state : Combination) (q : QTable R) (epsilon tau c : R)
      (row : Row R) (j : Action) (g : Entry R)
      → HasDistinctKeys row
      → lookup (dumps state) q ≡ some row
      → lookup j row ≡ some g
      → IsOffered row (get_action r random mode state q epsilon tau c)
        ⊎ ((get_action r random mode state q epsilon tau c ≡ failed index_error) × (length row ≡ 1))
        ⊎ ((get_action r random mode state q epsilon tau c ≡ failed unbound_local)
            × (mode ≡ softmax)
            × IsUnweighted r tau (values_of r row))
        ⊎ ((get_action r random mode state q epsilon tau c ≡ failed value_error)
            × (mode ≡ softmax)
            × IsRefused r random tau (values_of r row))
  unfolding get_action
  get_action-IsOffered constant_eps state q epsilon tau c row j g d h l =
      elim (get_action_eps_greedy-cases state q epsilon row j g d h l) [
        | inl good ↦ inl good
        | inr bad ↦ inr (inl bad)
      ]
  get_action-IsOffered falling_eps state q epsilon tau c row j g d h l =
      elim (get_action_eps_greedy-cases state q epsilon row j g d h l) [
        | inl good ↦ inl good
        | inr bad ↦ inr (inl bad)
      ]
  get_action-IsOffered softmax state q epsilon tau c row j g d h l =
      elim (get_action_softmax-cases state q tau row j g d h l) [
        | inl good ↦ inl good
        | inr (inl (bad, why)) ↦ inr (inr (inl (bad, refl, why)))
        | inr (inr (bad, why)) ↦ inr (inr (inr (bad, refl, why)))
      ]
  get_action-IsOffered ucb state q epsilon tau c row j g d h l =
      inl (get_action_ucb-Memᴰ r random o q state c row j g d h l)
