-- ===== src/Learning/Softmax.antt =====
-- The weighted choice of `get_action_softmax` of learning_module.py.
use comnetsemu.Prelude.{
  true, nat_eq, list_eq, pair_eq, List, [], ◌∷◌, none, some, ◌≡◌, ◌⊎◌, inl, inr, refl, ap, Memᴰ,
  Bool-cases, Option-cases,
}
use mathlib.Core.List.Memᴰ
use comnetsemu.Learning.Data.{Action, action_eq, done, Exception, failed, unbound_local}
use comnetsemu.Learning.Numbers.{Reals, Wide, wide, Value, neg_inf, start, num}
use comnetsemu.Learning.Choice.{
  Random, softmax_weight, softmax_weights, sum_weights, divide_weights, choose_softmax,
}

-- A choice is one of the values that it is made from.
pub record IsRandom {R : Type 0} (random : Random R) : Type 0 where
  pub pick-Memᴰ : (a : Action) (l : List Action) → Memᴰ (random.pick a l) (a ∷ l)
  pub sample-Memᴰ :
      (p : Action × Wide R) (l : List (Action × Wide R)) (a : Action)
      → random.sample p l ≡ some a
      → (w : Wide R) × Memᴰ (a, w) (p ∷ l)

module _ {R : Type 0} (r : Reals R) where
  -- One of the entries has a value that never was updated and is zero when multiplied by the temperature.
  abbrev pub IsUnweighted : R → List (Action × Value R) → Type 0
  IsUnweighted tau values =
      (k : Action) × (v : R) × Memᴰ (k, start v) values × (r.is_zero (r.mul v tau) ≡ true)

module _ {R : Type 0} (r : Reals R) (random : Random R) where
  -- The weights are there, but `np.random.choice` does not take their shares as probabilities.
  abbrev pub IsRefused : R → List (Action × Value R) → Type 0
  IsRefused tau values =
      (ws : List (Action × Wide R)) × (p : Action × Wide R) × (probs : List (Action × Wide R))
      × (softmax_weights r random tau values ≡ some ws)
      × (divide_weights r random (sum_weights r random (wide r.zero) ws) ws ≡ p ∷ probs)
      × (random.sample p probs ≡ none)

  softmax_weight-cases :
      (tau : R) (v : Value R)
      → ((w : Wide R) × (softmax_weight r random tau v ≡ some w))
        ⊎ ((softmax_weight r random tau v ≡ none)
            × ((x : R) × (v ≡ start x) × (r.is_zero (r.mul x tau) ≡ true)))
  softmax_weight-cases tau neg_inf = inl (_, refl)
  softmax_weight-cases tau (num x) = inl (_, refl)
  softmax_weight-cases tau (start x) = elim (Bool-cases (r.is_zero (r.mul x tau))) [
    | inl z ↦ inr (rw z refl, (x, refl, z))
    | inr p ↦ inl (r.exp_inverse (r.mul x tau), rw p refl)
  ]

  -- The keys of the one are those of the other.
  abbrev SameKeys : List (Action × Value R) → List (Action × Wide R) → Type 0
  SameKeys [] [] = Unit
  SameKeys [] (y ∷ ys) = ⊥
  SameKeys (x ∷ xs) [] = ⊥
  SameKeys (x ∷ xs) (y ∷ ys) = (x.0 ≡ y.0) × SameKeys xs ys

  softmax_weights-cases :
      (tau : R) (values : List (Action × Value R))
      → ((ws : List (Action × Wide R)) × (softmax_weights r random tau values ≡ some ws)
          × SameKeys values ws)
        ⊎ ((softmax_weights r random tau values ≡ none) × IsUnweighted r tau values)
  unfolding softmax_weights
  softmax_weights-cases tau [] = inl ([], refl, tt)
  softmax_weights-cases tau ((k, v) ∷ values) = elim (softmax_weight-cases tau v) [
    | inr (bad, (x, e, z)) ↦ inr (rw (softmax_weights, bad) refl, (k, x, Memᴰ.head (rw e refl), z))
    | inl (w, good) ↦ elim (softmax_weights-cases tau values) [
      | inl (ws, all, keys) ↦ inl ((k, w) ∷ ws, rw (softmax_weights, good, all) refl, (refl, keys))
      | inr (bad, (j, x, m, z)) ↦ inr (rw (softmax_weights, good, bad) refl, (j, x, Memᴰ.tail m, z))
    ]
  ]

  divide_weights-SameKeys :
      (total : Wide R) (values : List (Action × Value R)) (ws : List (Action × Wide R))
      → SameKeys values ws
      → SameKeys values (divide_weights r random total ws)
  unfolding divide_weights
  divide_weights-SameKeys total [] [] h = tt
  divide_weights-SameKeys total [] (y ∷ ws) h = absurd h
  divide_weights-SameKeys total (x ∷ values) [] h = absurd h
  divide_weights-SameKeys total (x ∷ values) (y ∷ ws) h =
      (h.0, divide_weights-SameKeys total values ws h.1)

  SameKeys-Memᴰ :
      (values : List (Action × Value R)) (ws : List (Action × Wide R)) (k : Action) (w : Wide R)
      → SameKeys values ws
      → Memᴰ (k, w) ws
      → (v : Value R) × Memᴰ (k, v) values
  SameKeys-Memᴰ [] [] k w h m = absurd (Memᴰ.not-nil m)
  SameKeys-Memᴰ [] (y ∷ ws) k w h m = absurd h
  SameKeys-Memᴰ (x ∷ values) [] k w h m = absurd h
  SameKeys-Memᴰ ((j, v) ∷ values) ((i, u) ∷ ws) k w h m = elim (Memᴰ.cases_cons m) [
    | inl q ↦
        let ek : k ≡ i = ap (λ (x : Action × Wide R). x.0) q in (v, Memᴰ.head (rw (ek, h.0) refl))
    | inr t ↦ let (u', n) = SameKeys-Memᴰ values ws k w h.1 t in (u', Memᴰ.tail n)
  ]

  -- Of values, the choice gives the key of one of them, unless a weight divides by zero or the probabilities are refused.
  pub choose_softmax-cases :
      (choices : IsRandom random) (tau : R) (x : Action × Value R)
      (values : List (Action × Value R)) (e : Exception)
      → ((k : Action) × (v : Value R) × (choose_softmax r random tau (x ∷ values) e ≡ done k)
          × Memᴰ (k, v) (x ∷ values))
        ⊎ ((choose_softmax r random tau (x ∷ values) e ≡ failed unbound_local)
            × IsUnweighted r tau (x ∷ values))
        ⊎ ((choose_softmax r random tau (x ∷ values) e ≡ failed e) × IsRefused tau (x ∷ values))
  unfolding choose_softmax
  choose_softmax-cases choices tau x values e = elim (softmax_weights-cases tau (x ∷ values)) [
    | inr (bad, why) ↦ inr (inl (rw (choose_softmax, bad) refl, why))
    | inl (ws, good, keys) ↦
        let probs = divide_weights r random (sum_weights r random (wide r.zero) ws) ws in
        chosen ws good probs refl (divide_weights-SameKeys _ (x ∷ values) ws keys)
  ]
    where
      chosen :
          (ws : List (Action × Wide R))
          → softmax_weights r random tau (x ∷ values) ≡ some ws
          → (probs : List (Action × Wide R))
          → divide_weights r random (sum_weights r random (wide r.zero) ws) ws ≡ probs
          → SameKeys (x ∷ values) probs
          → ((k : Action) × (v : Value R) × (choose_softmax r random tau (x ∷ values) e ≡ done k)
              × Memᴰ (k, v) (x ∷ values))
            ⊎ ((choose_softmax r random tau (x ∷ values) e ≡ failed unbound_local)
                × IsUnweighted r tau (x ∷ values))
            ⊎ ((choose_softmax r random tau (x ∷ values) e ≡ failed e) × IsRefused tau (x ∷ values))
      chosen ws good [] q keys = absurd keys
      chosen ws good (p ∷ probs) q keys = elim (Option-cases (random.sample p probs)) [
        | inl refused ↦
            inr (inr (rw (choose_softmax, good, q, refused) refl, (ws, p, probs, good, q, refused)))
        | inr (k, drawn) ↦
            let (w, m) = choices.sample-Memᴰ p probs k drawn in
            let (v, n) = SameKeys-Memᴰ (x ∷ values) (p ∷ probs) k w keys m in
            inl (k, v, rw (choose_softmax, good, q, drawn) refl, n)
      ]
