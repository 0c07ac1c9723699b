-- ===== src/Learning/SpaceLaws.antt =====
-- The states and actions of learning_module.py against the choices of paths that they come from.
use comnetsemu.Prelude.{
  ℕ, nat_eq, list_eq, List, [], ◌∷◌, ◌≡◌, ◌↔◌, inl, inr, refl, sym, ap, subst, Memᴰ,
}
use mathlib.Core.List.Memᴰ
use comnetsemu.Learning.Data.{Hops, Combination, Choices}
use comnetsemu.Learning.Spaces.{extend, extend_all, get_possible_states}

-- The combination has one of the paths of each flow, and the flows in the order of the choices.
abbrev pub Chooses : Choices → Combination → Type 0
Chooses [] [] = Unit
Chooses [] (f ∷ c) = ⊥
Chooses (g ∷ choices) [] = ⊥
Chooses ((id, paths) ∷ choices) ((id', path) ∷ c) = (id ≡ id') × Memᴰ path paths × Chooses choices c

extend-in :
    (id : ℕ) (path : Hops) (cs : List Combination) {c : Combination}
    → Memᴰ c cs
    → Memᴰ ((id, path) ∷ c) (extend id path cs)
unfolding extend
extend-in id path [] m = absurd (Memᴰ.not-nil m)
extend-in id path (d ∷ cs) m = elim (Memᴰ.cases_cons m) [
  | inl e ↦ Memᴰ.head (ap (λ t. (id, path) ∷ t) e)
  | inr t ↦ Memᴰ.tail (extend-in id path cs t)
]

extend-out :
    (id : ℕ) (path : Hops) (cs : List Combination) (c : Combination)
    → Memᴰ c (extend id path cs)
    → (d : Combination) × (c ≡ (id, path) ∷ d) × Memᴰ d cs
unfolding extend
extend-out id path [] c m = absurd (Memᴰ.not-nil m)
extend-out id path (d ∷ cs) c m = elim (Memᴰ.cases_cons m) [
  | inl e ↦ (d, e, Memᴰ.head refl)
  | inr t ↦ let (b, e, k) = extend-out id path cs c t in (b, e, Memᴰ.tail k)
]

extend_all-in :
    (id : ℕ) (paths : List Hops) (cs : List Combination) {path : Hops} {c : Combination}
    → Memᴰ path paths
    → Memᴰ c cs
    → Memᴰ ((id, path) ∷ c) (extend_all id paths cs)
unfolding extend_all
extend_all-in id [] cs p m = absurd (Memᴰ.not-nil p)
extend_all-in id (q ∷ paths) cs {path} {c} p m = elim (Memᴰ.cases_cons p) [
  | inl e ↦
      Memᴰ.append_left (extend_all id paths cs)
        (subst (λ r. Memᴰ ((id, r) ∷ c) (extend id q cs)) (sym e) (extend-in id q cs m))
  | inr t ↦ Memᴰ.append_right (extend id q cs) (extend_all-in id paths cs t m)
]

extend_all-out :
    (id : ℕ) (paths : List Hops) (cs : List Combination) (c : Combination)
    → Memᴰ c (extend_all id paths cs)
    → (path : Hops) × (d : Combination) × (c ≡ (id, path) ∷ d) × Memᴰ path paths × Memᴰ d cs
unfolding extend_all
extend_all-out id [] cs c m = absurd (Memᴰ.not-nil m)
extend_all-out id (q ∷ paths) cs c m = elim (Memᴰ.append_cases (extend id q cs) m) [
  | inl here ↦ let (d, e, k) = extend-out id q cs c here in (q, d, e, Memᴰ.head refl, k)
  | inr there ↦
      let (path, d, e, p, k) = extend_all-out id paths cs c there in (path, d, e, Memᴰ.tail p, k)
]

possible-in :
    (choices : Choices) (c : Combination) → Chooses choices c → Memᴰ c (get_possible_states choices)
unfolding get_possible_states
possible-in [] [] h = Memᴰ.head refl
possible-in [] (f ∷ c) h = absurd h
possible-in ((id, paths) ∷ choices) [] h = absurd h
possible-in ((id, paths) ∷ choices) ((id', path) ∷ c) (e, p, h) =
    subst (λ i. Memᴰ ((i, path) ∷ c) (extend_all id paths (get_possible_states choices))) e
      (extend_all-in id paths (get_possible_states choices) p (possible-in choices c h))

possible-out :
    (choices : Choices) (c : Combination) → Memᴰ c (get_possible_states choices) → Chooses choices c
unfolding get_possible_states
possible-out [] c m = subst (Chooses []) (sym (Memᴰ.eq_of_singleton m)) tt
possible-out ((id, paths) ∷ choices) c m =
    let (path, d, e, p, k) = extend_all-out id paths (get_possible_states choices) c m in
    subst (Chooses ((id, paths) ∷ choices)) (sym e) (refl, p, possible-out choices d k)

-- The states of the learning are exactly the combinations that have one of its possible paths for each flow.
pub get_possible_states-Chooses :
    (choices : Choices) (c : Combination) → Memᴰ c (get_possible_states choices) ↔ Chooses choices c
get_possible_states-Chooses choices c = (possible-out choices c, possible-in choices c)
