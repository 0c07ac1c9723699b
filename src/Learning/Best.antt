-- ===== src/Learning/Best.antt =====
-- `key_max_action_value` of learning_module.py.
use comnetsemu.Prelude.{
  Option, none, some, true, false, List, [], ◌∷◌, some, ◌≡◌, inl, inr, refl, ap, sym, Memᴰ,
  Bool-cases,
}
use mathlib.Core.List.Memᴰ
use comnetsemu.Prelude.Keys.{HasDistinctKeys, lookup-Memᴰ, Memᴰ-lookup}
use comnetsemu.Prelude.Dict.{lookup}
use comnetsemu.Learning.Data.{Action, action_eq, done}
use comnetsemu.Learning.Numbers.{Reals, Value, Entry, Row, value_lt, number_of, number_lt}
use comnetsemu.Learning.Tables.{max_from, values_of, key_of_max, key_max_action_value}

-- The order of the floats that are numbers, as the comparisons show it.
pub record IsOrder {R : Type 0} (r : Reals R) : Type 0 where
  pub asym : (x y : R) → r.lt x y ≡ true → r.lt y x ≡ false
  pub trans : (x y z : R) → r.lt x y ≡ false → r.lt y z ≡ false → r.lt x z ≡ false

module _ {R : Type 0} (r : Reals R) where
  -- The value stands under the key, and none of the list is greater.
  abbrev pub IsGreatest : Action → Value R → List (Action × Value R) → Type 0
  IsGreatest k v values =
      Memᴰ (k, v) values × ((x : Action × Value R) → Memᴰ x values → value_lt r v x.1 ≡ false)

  -- The entry stands under the key, and none of the row has a greater value.
  abbrev pub IsBest : Action → Entry R → Row R → Type 0
  IsBest k best row =
      (lookup k row ≡ some best)
      × ((j : Action) (e : Entry R) → lookup j row ≡ some e → value_lt r best.value e.value ≡ false)

module _ {R : Type 0} (r : Reals R) (o : IsOrder r) where
  number_asym : (x y : Option R) → number_lt r x y ≡ true → number_lt r y x ≡ false
  number_asym none none h = refl
  number_asym none (some y) h = refl
  number_asym (some x) none h = absurd (cc)
  number_asym (some x) (some y) h = o.asym x y h

  number_trans :
      (x y z : Option R)
      → number_lt r x y ≡ false
      → number_lt r y z ≡ false
      → number_lt r x z ≡ false
  number_trans none none z h k = k
  number_trans none (some y) z h k = absurd (cc)
  number_trans (some x) y none h k = refl
  number_trans (some x) none (some z) h k = absurd (cc)
  number_trans (some x) (some y) (some z) h k = o.trans x y z h k

  value_asym : (x y : Value R) → value_lt r x y ≡ true → value_lt r y x ≡ false
  value_asym x y h = number_asym (number_of r x) (number_of r y) h

  value_trans :
      (x y z : Value R) → value_lt r x y ≡ false → value_lt r y z ≡ false → value_lt r x z ≡ false
  value_trans x y z h k = number_trans (number_of r x) (number_of r y) (number_of r z) h k

  value_irrefl : (x : Value R) → value_lt r x x ≡ false
  value_irrefl x = elim (Bool-cases (value_lt r x x)) [ inl h ↦ value_asym x x h | inr h ↦ h ]

  max_from-IsGreatest :
      (key : Action) (best : Value R) (values : List (Action × Value R))
      → (v : Value R) × IsGreatest r (max_from r key best values) v ((key, best) ∷ values)
  unfolding max_from
  max_from-IsGreatest key best [] = (
    best,
    (
      Memᴰ.head refl,
      λ x m. elim (Memᴰ.cases_cons m) [
        | inl e ↦ rw e (value_irrefl best)
        | inr t ↦ absurd (Memᴰ.not-nil t)
      ],
    ),
  )
  max_from-IsGreatest key best ((j, w) ∷ values) = elim (Bool-cases (value_lt r best w)) [
    | inl less ↦
        let (v, (m, h)) = max_from-IsGreatest j w values in
        let over : value_lt r v best ≡ false =
          value_trans v w best (h (j, w) (Memᴰ.head refl)) (value_asym best w less) in
        rw (max_from, less)
          (v, (Memᴰ.tail m, λ x n. elim (Memᴰ.cases_cons n) [ inl e ↦ rw e over | inr t ↦ h x t ]))
    | inr other ↦
        let (v, (m, h)) = max_from-IsGreatest key best values in
        let over : value_lt r v w ≡ false =
          value_trans v best w (h (key, best) (Memᴰ.head refl)) other in
        rw (max_from, other)
          (
            v,
            (
              skip m,
              λ x n. elim (Memᴰ.cases_cons n) [
                | inl e ↦ rw e (h (key, best) (Memᴰ.head refl))
                | inr t ↦ elim (Memᴰ.cases_cons t) [ inl e ↦ rw e over | inr u ↦ h x (Memᴰ.tail u) ]
              ],
            ),
          )
  ]
    where
      skip :
          {y a b : Action × Value R} {l : List (Action × Value R)}
          → Memᴰ y (a ∷ l)
          → Memᴰ y (a ∷ b ∷ l)
      skip m = elim (Memᴰ.cases_cons m) [ inl e ↦ Memᴰ.head e | inr t ↦ Memᴰ.tail (Memᴰ.tail t) ]

  pub key_of_max-IsGreatest :
      (x : Action × Value R) (values : List (Action × Value R))
      → (k : Action) × (v : Value R) × (key_of_max r (x ∷ values) ≡ done k)
        × IsGreatest r k v (x ∷ values)
  unfolding key_of_max
  key_of_max-IsGreatest (j, w) values =
      let (v, g) = max_from-IsGreatest j w values in (max_from r j w values, v, refl, g)

  pub Memᴰ-values_of :
      (k : Action) (v : Value R) (row : Row R)
      → Memᴰ (k, v) (values_of r row)
      → (e : Entry R) × Memᴰ (k, e) row × (e.value ≡ v)
  unfolding values_of
  Memᴰ-values_of k v [] m = absurd (Memᴰ.not-nil m)
  Memᴰ-values_of k v ((j, f) ∷ row) m = elim (Memᴰ.cases_cons m) [
    | inl e ↦
        let ek : k ≡ j = ap (λ (x : Action × Value R). x.0) e in
        let ev : v ≡ f.value = ap (λ (x : Action × Value R). x.1) e in
        (f, Memᴰ.head (rw ek refl), sym ev)
    | inr t ↦ let (g, n, q) = Memᴰ-values_of k v row t in (g, Memᴰ.tail n, q)
  ]

  pub values_of-Memᴰ :
      (k : Action) (e : Entry R) (row : Row R)
      → Memᴰ (k, e) row
      → Memᴰ (k, e.value) (values_of r row)
  unfolding values_of
  values_of-Memᴰ k e [] m = absurd (Memᴰ.not-nil m)
  values_of-Memᴰ k e ((j, f) ∷ row) m = elim (Memᴰ.cases_cons m) [
    | inl q ↦ Memᴰ.head (ap (λ (x : Action × Entry R). (x.0, x.1.value)) q)
    | inr t ↦ Memᴰ.tail (values_of-Memᴰ k e row t)
  ]

  -- Of a row with an entry, `key_max_action_value` gives the key of an entry of the greatest value.
  pub key_max_action_value-IsBest :
      (row : Row R) (a : Action) (f : Entry R)
      → HasDistinctKeys row
      → lookup a row ≡ some f
      → (k : Action) × (best : Entry R) × (key_max_action_value r row ≡ done k)
        × IsBest r k best row
  unfolding key_max_action_value values_of lookup
  key_max_action_value-IsBest [] a f d h = absurd (cc)
  key_max_action_value-IsBest ((j, w) ∷ row) a f d h =
      let (k, v, e, (m, g)) = key_of_max-IsGreatest (j, w.value) (values_of r row) in
      let (best, n, ev) = Memᴰ-values_of k v ((j, w) ∷ row) m in
      (
        k,
        best,
        e,
        (
          Memᴰ-lookup k best ((j, w) ∷ row) d n,
          λ i u l. rw ev (
              g (i, u.value)
                (values_of-Memᴰ i u ((j, w) ∷ row) (lookup-Memᴰ i u ((j, w) ∷ row) l))),
        ),
      )
