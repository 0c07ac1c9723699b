-- ===== src/Learning/NextState.antt =====
-- `get_state_transitions` and `get_next_state` of learning_module.py.
use comnetsemu.Prelude.{
  Bool, true, if◌then◌else◌, ◌==◌, ◌&&◌, nat_eq, list_eq, pair_eq, List, [], ◌∷◌, some, ◌≡◌, ◌⊎◌,
  inl, inr, refl, sym, ap, subst, arith, Memᴰ, Bool-cases, beq_refl,
}
use mathlib.Core.List.Memᴰ
use comnetsemu.Learning.Data.{
  Combination, Choices, Action, no_trans, change, action_eq, action_beq_iff, same_combination,
  dumps,
}
use comnetsemu.Learning.Spaces.{
  get_possible_states, get_actions_for_states, apply_action, get_state_transitions, find_transition,
  get_next_state,
}
use comnetsemu.Learning.SpaceLaws.{Chooses}
use comnetsemu.Learning.Moves.{HasDistinctFlows, HasDistinctPaths, IsMoveOf, apply_action-Chooses}
use comnetsemu.Learning.ActionLaws.{get_actions_for_states-IsMoveOf}

abbrev pub Transition : Type 0
Transition = Combination × Action × Combination

transitions-out :
    (actions : List (Combination × Action)) (s t : Combination) (a : Action)
    → Memᴰ (s, a, t) (get_state_transitions actions)
    → Memᴰ (s, a) actions × (t ≡ apply_action a s)
unfolding get_state_transitions
transitions-out [] s t a m = absurd (Memᴰ.not-nil m)
transitions-out ((u, b) ∷ actions) s t a m = elim (Memᴰ.cases_cons m) [
  | inl e ↦
      let es : s ≡ u = ap (λ (x : Transition). x.0) e in
      let ea : a ≡ b = ap (λ (x : Transition). x.1) e in
      let et : t ≡ apply_action b u = ap (λ (x : Transition). x.2) e in
      (Memᴰ.head (rw (es, ea) refl), rw (ea, es) et)
  | inr k ↦ let (k0, e) = transitions-out actions s t a k in (Memᴰ.tail k0, e)
]

transitions-in :
    (actions : List (Combination × Action)) (s : Combination) (a : Action)
    → Memᴰ (s, a) actions
    → Memᴰ (s, a, apply_action a s) (get_state_transitions actions)
unfolding get_state_transitions
transitions-in [] s a m = absurd (Memᴰ.not-nil m)
transitions-in ((u, b) ∷ actions) s a m = elim (Memᴰ.cases_cons m) [
  | inl e ↦ Memᴰ.head (ap (λ (x : Combination × Action). (x.0, x.1, apply_action x.1 x.0)) e)
  | inr k ↦ Memᴰ.tail (transitions-in actions s a k)
]

both : {a b : Bool} → a ≡ true → b ≡ true → (a && b) ≡ true
both h k = ground arith

module _ (state : Combination) (action : Action) where
  -- The result is the state behind a transition that fits.
  abbrev Fits : List Transition → Combination → Type 0
  Fits transitions result =
      (s : Combination) × Memᴰ (s, action, result) transitions × (same_combination s state ≡ true)

  find_transition-cases :
      (transitions : List Transition) (next : Combination)
      → Fits transitions (find_transition transitions state action next)
        ⊎ (find_transition transitions state action next ≡ next)
  unfolding find_transition
  find_transition-cases [] next = inr refl
  find_transition-cases ((s, a, t) ∷ rest) next =
      elim (Bool-cases (same_combination s state && (a == action))) [
        | inl hit ↦ elim (find_transition-cases rest t) [
          | inl (u, m, e) ↦ rw (find_transition, hit) (inl (u, Memᴰ.tail m, e))
          | inr e ↦
              let fits : a ≡ action = ground (arith, action_beq_iff a action) in
              rw (find_transition, hit) (inl (s, Memᴰ.head (rw (e, fits) refl), ground arith))
        ]
        | inr miss ↦ elim (find_transition-cases rest next) [
          | inl (u, m, e) ↦ rw (find_transition, miss) (inl (u, Memᴰ.tail m, e))
          | inr e ↦ rw (find_transition, miss) (inr e)
        ]
      ]

  find_transition-Fits :
      (transitions : List Transition) (s t next : Combination)
      → Memᴰ (s, action, t) transitions
      → same_combination s state ≡ true
      → Fits transitions (find_transition transitions state action next)
  unfolding find_transition
  find_transition-Fits [] s t next m e = absurd (Memᴰ.not-nil m)
  find_transition-Fits ((u, a, v) ∷ rest) s t next m e = elim (Memᴰ.cases_cons m) [
    | inr k ↦
        let (w, k0, f) =
          find_transition-Fits rest s t
            (if same_combination u state && (a == action) then v else next) k e in
        (w, Memᴰ.tail k0, f)
    | inl q ↦
        let es : s ≡ u = ap (λ (x : Transition). x.0) q in
        let ea : action ≡ a = ap (λ (x : Transition). x.1) q in
        let same : same_combination u state ≡ true =
          subst (λ w. same_combination w state ≡ true) es e in
        let hit : (same_combination u state && (a == action)) ≡ true =
          both same ((action_beq_iff a action).1 (sym ea)) in
        elim (find_transition-cases rest v) [
          | inl (w, k, f) ↦ rw (find_transition, hit) (w, Memᴰ.tail k, f)
          | inr f ↦ rw (find_transition, hit) (u, Memᴰ.head (rw (f, ea) refl), same)
        ]
  ]

same_refl : (c : Combination) → same_combination c c ≡ true
unfolding same_combination
same_refl c = beq_refl (dumps c)

-- With the transitions of the possible states, an action that is possible in a possible state leads to a possible
-- state: that of taking the action in the given state, up to the order of its entries.
pub get_next_state-Chooses :
    (choices : Choices) (state : Combination) (action : Action)
    → HasDistinctFlows choices
    → HasDistinctPaths choices
    → IsMoveOf choices (state, action)
    → (actions : List (Combination × Action)) × (s : Combination) × (get_actions_for_states choices
          (get_possible_states choices)
        ≡ some actions)
      × (same_combination s state ≡ true)
      × (get_next_state (get_state_transitions actions) state action ≡ apply_action action s)
      × Chooses choices (get_next_state (get_state_transitions actions) state action)
unfolding get_next_state apply_action
get_next_state-Chooses choices state no_trans flows paths v =
    let (actions, e, spec) = get_actions_for_states-IsMoveOf choices flows paths in
    (actions, state, e, same_refl state, refl, v.0)
get_next_state-Chooses choices state (change id path) flows paths v =
    let action = change id path in
    let (actions, e, spec) = get_actions_for_states-IsMoveOf choices flows paths in
    let ts = get_state_transitions actions in
    let m = transitions-in actions state action ((spec state action).1 v) in
    let (s, k, same) =
      find_transition-Fits state action ts state (apply_action action state) [] m
        (same_refl state) in
    let result = find_transition ts state action [] in
    let (k0, f) = transitions-out actions s result action k in
    let (c, move) = (spec s action).0 k0 in
    (
      actions,
      s,
      e,
      same,
      f,
      subst (Chooses choices) (sym f) (apply_action-Chooses choices s action c move),
    )
