-- ===== src/Learning/ActionLaws.antt =====
-- Which actions `get_actions_for_states` of learning_module.py gives.
use comnetsemu.Prelude.{
  ℕ, ◌==◌, nat_eq, list_eq, pair_eq, List, [], ◌∷◌, ◌++◌, Option, some, length, ◌≡◌, ◌≢◌, ◌↔◌, ◌⊎◌,
  inl, inr, refl, sym, ap, ◌∙◌, subst, arith, Memᴰ, without, Memᴰ-without, All, All-at, All-each,
  Bool-cases,
}
use mathlib.Core.List.Memᴰ
use comnetsemu.Prelude.Dict.{lookup}
use comnetsemu.Learning.Data.{Hops, Combination, Choices, Action, no_trans, change}
use comnetsemu.Learning.Spaces.{
  kick_out, actions_for_flow, actions_for_flows, get_possible_states, get_actions_for_states,
}
use comnetsemu.Learning.SpaceLaws.{Chooses, get_possible_states-Chooses}
use comnetsemu.Learning.KickOut.{kick_out-without}
use comnetsemu.Learning.Moves.{
  HasDistinctPaths, HasDistinctFlows, IsMoveOf, IsFound, lookup-HasDistinctPaths, Chooses-IsFound,
}

some_inj : {A : Type 0} {a b : A} → Option.some a ≡ some b → a ≡ b
some_inj e = cc

flow-in :
    (state : Combination) (id : ℕ) (paths : List Hops) {path : Hops}
    → Memᴰ path paths
    → Memᴰ (state, change id path) (actions_for_flow state id paths)
unfolding actions_for_flow
flow-in state id [] m = absurd (Memᴰ.not-nil m)
flow-in state id (p ∷ paths) m = elim (Memᴰ.cases_cons m) [
  | inl e ↦ Memᴰ.head (ap (λ q. (state, change id q)) e)
  | inr t ↦ Memᴰ.tail (flow-in state id paths t)
]

flow-out :
    (state : Combination) (id : ℕ) (paths : List Hops) (x : Combination × Action)
    → Memᴰ x (actions_for_flow state id paths)
    → (path : Hops) × (x ≡ (state, change id path)) × Memᴰ path paths
unfolding actions_for_flow
flow-out state id [] x m = absurd (Memᴰ.not-nil m)
flow-out state id (p ∷ paths) x m = elim (Memᴰ.cases_cons m) [
  | inl e ↦ (p, e, Memᴰ.head refl)
  | inr t ↦ let (q, e, k) = flow-out state id paths x t in (q, e, Memᴰ.tail k)
]

-- An action on one of the given flows, to a path that is possible and not the present one.
abbrev IsMoveAmong : Choices → Combination → Combination → Combination × Action → Type 0
IsMoveAmong choices state flows x =
    (id : ℕ) × (old : Hops) × (path : Hops) × (paths : List Hops) × (x ≡ (state, change id path))
    × Memᴰ (id, old) flows
    × (lookup id choices ≡ some paths)
    × Memᴰ path paths
    × (path ≢ old)

abbrev Lists : Choices → Combination → Combination → Type 0
Lists choices state flows =
    (actions : List (Combination × Action)) × (actions_for_flows choices state flows ≡ some actions)
    × ((x : Combination × Action) → Memᴰ x actions ↔ IsMoveAmong choices state flows x)

module _ (choices : Choices) (state : Combination) (distinct : HasDistinctPaths choices) where
  actions_for_flows-Lists :
      (flows : Combination) → All (IsFound choices state) flows → Lists choices state flows
  unfolding actions_for_flows
  actions_for_flows-Lists [] h = (
    [],
    refl,
    λ x. (
      λ m. absurd (Memᴰ.not-nil m),
      λ (id, old, path, paths, e, m, a, b, ne). absurd (Memᴰ.not-nil m),
    ),
  )
  actions_for_flows-Lists ((id, old) ∷ flows) h =
      let (paths, e) = h.0.1 in
      let (rest, f, spec) = actions_for_flows-Lists flows h.1 in
      let left : kick_out (length paths) old 0 paths ≡ without old paths =
        kick_out-without old paths (lookup-HasDistinctPaths choices id paths distinct e) in
      (
        actions_for_flow state id (without old paths) ++ rest,
        rw (actions_for_flows, e, f, left) refl,
        λ x. (
          λ m. elim (Memᴰ.append_cases (actions_for_flow state id (without old paths)) m) [
            | inl here ↦
                let (path, q, k) = flow-out state id (without old paths) x here in
                let (k0, ne) = (Memᴰ-without path old paths).0 k in
                (id, old, path, paths, q, Memᴰ.head refl, e, k0, ne)
            | inr there ↦
                let (i, o, path, ps, q, m0, e0, k0, ne) = (spec x).0 there in
                (i, o, path, ps, q, Memᴰ.tail m0, e0, k0, ne)
          ],
          λ (i, o, path, ps, q, m, e0, k0, ne).
              join rest paths e spec x i o path ps q (Memᴰ.cases_cons m) e0 k0 ne,
        ),
      )
    where
      join :
          (rest : List (Combination × Action)) (paths : List Hops)
          → lookup id choices ≡ some paths
          → ((x : Combination × Action) → Memᴰ x rest ↔ IsMoveAmong choices state flows x)
          → (x : Combination × Action) (i : ℕ) (o path : Hops) (ps : List Hops)
          → x ≡ (state, change i path)
          → (◌≡◌ {A = ℕ × Hops} (i, o) (id, old)) ⊎ Memᴰ (i, o) flows
          → lookup i choices ≡ some ps
          → Memᴰ path ps
          → path ≢ o
          → Memᴰ x (actions_for_flow state id (without old paths) ++ rest)
      join rest paths e spec x i o path ps q (inl same) e0 k0 ne =
          let si : i ≡ id = ap (λ t. t.0) same in
          let so : o ≡ old = ap (λ t. t.1) same in
          let sp : ps ≡ paths = some_inj (sym e0 ∙ ap (λ t. lookup t choices) si ∙ e) in
          Memᴰ.append_left rest (
            Memᴰ.cast (q ∙ ap (λ t. (state, change t path)) si) (
              flow-in state id (without old paths)
                ((Memᴰ-without path old paths).1 (subst (Memᴰ path) sp k0, λ t. ne (t ∙ sym so)))))
      join rest paths e spec x i o path ps q (inr m) e0 k0 ne =
          Memᴰ.append_right (actions_for_flow state id (without old paths))
            ((spec x).1 (i, o, path, ps, q, m, e0, k0, ne))

-- The entry of a flow in a state, by membership and by lookup.
lookup-mem :
    (state : Combination) (id : ℕ) (old : Hops) → lookup id state ≡ some old → Memᴰ (id, old) state
unfolding lookup
lookup-mem [] id old e = absurd (cc)
lookup-mem ((j, p) ∷ state) id old e = elim (Bool-cases (j == id)) [
  | inl same ↦ Memᴰ.head (ground (arith, nat_eq.same_iff j id))
  | inr other ↦ Memᴰ.tail (lookup-mem state id old (ground arith))
]

module _ (choices : Choices) (flows : HasDistinctFlows choices)
    (paths : HasDistinctPaths choices) where
  among-IsMove :
      (state : Combination) (x : Combination × Action)
      → Chooses choices state
      → IsMoveAmong choices state state x
      → IsMoveOf choices x
  among-IsMove state x h (id, old, path, ps, q, m, e, k, ne) =
      let entry = All-at (IsFound choices state) state (Chooses-IsFound choices state h flows) m in
      subst (IsMoveOf choices) (sym q) (h, (ps, old, e, k, entry.0, ne))

  -- The actions of a list of states.
  abbrev ListsAll : List Combination → Type 0
  ListsAll states =
      (actions : List (Combination × Action)) × (get_actions_for_states choices states
        ≡ some actions)
      × ((state : Combination) (action : Action)
          → Memᴰ (state, action) actions ↔ (Memᴰ state states × IsMoveOf choices (state, action)))

  get_actions_for_states-ListsAll :
      (states : List Combination) → All (Chooses choices) states → ListsAll states
  unfolding get_actions_for_states
  get_actions_for_states-ListsAll [] h =
      ([], refl, λ s a. (λ m. absurd (Memᴰ.not-nil m), λ p. absurd (Memᴰ.not-nil p.0)))
  get_actions_for_states-ListsAll (state ∷ states) h =
      let (rest, f, spec) = get_actions_for_states-ListsAll states h.1 in
      let (actions, e, here) =
        actions_for_flows-Lists choices state paths state
          (Chooses-IsFound choices state h.0 flows) in
      (
        actions ++ (state, no_trans) ∷ rest,
        rw (get_actions_for_states, e, f) refl,
        λ s a. (out rest actions spec here s a, λ p. into rest actions spec here s a p.0 p.1),
      )
    where
      out :
          (rest actions : List (Combination × Action))
          → ((s : Combination) (a : Action)
              → Memᴰ (s, a) rest ↔ (Memᴰ s states × IsMoveOf choices (s, a)))
          → ((x : Combination × Action) → Memᴰ x actions ↔ IsMoveAmong choices state state x)
          → (s : Combination) (a : Action) → Memᴰ (s, a) (actions ++ (state, no_trans) ∷ rest)
          → Memᴰ s (state ∷ states) × IsMoveOf choices (s, a)
      out rest actions spec here s a m = elim (Memᴰ.append_cases actions m) [
        | inl first ↦
            let move = (here (s, a)).0 first in
            let (id, old, path, ps, q, _, _, _, _) = move in
            (Memᴰ.head (ap (λ t. t.0) q), among-IsMove state (s, a) h.0 move)
        | inr second ↦ elim (Memᴰ.cases_cons second) [
          | inl q ↦ (Memᴰ.head (ap (λ t. t.0) q), subst (IsMoveOf choices) (sym q) (h.0, tt))
          | inr third ↦ let (k, v) = (spec s a).0 third in (Memᴰ.tail k, v)
        ]
      ]

      at_state :
          (rest actions : List (Combination × Action))
          → ((x : Combination × Action) → Memᴰ x actions ↔ IsMoveAmong choices state state x)
          → (s : Combination) (a : Action) → s ≡ state
          → IsMoveOf choices (s, a)
          → Memᴰ (s, a) (actions ++ (state, no_trans) ∷ rest)
      at_state rest actions here s no_trans q v =
          Memᴰ.append_right actions (Memᴰ.head (ap (λ t. (t, no_trans)) q))
      at_state rest actions here s (change id path) q (c, (ps, old, e, k, l, ne)) =
          Memᴰ.append_left ((state, no_trans) ∷ rest) (
            (here (s, change id path)).1 (
              id,
              old,
              path,
              ps,
              ap (λ t. (t, change id path)) q,
              lookup-mem state id old (subst (λ t. lookup id t ≡ some old) q l),
              e,
              k,
              ne,
            ))

      into :
          (rest actions : List (Combination × Action))
          → ((s : Combination) (a : Action)
              → Memᴰ (s, a) rest ↔ (Memᴰ s states × IsMoveOf choices (s, a)))
          → ((x : Combination × Action) → Memᴰ x actions ↔ IsMoveAmong choices state state x)
          → (s : Combination) (a : Action) → Memᴰ s (state ∷ states)
          → IsMoveOf choices (s, a)
          → Memᴰ (s, a) (actions ++ (state, no_trans) ∷ rest)
      into rest actions spec here s a m v = elim (Memᴰ.cases_cons m) [
        | inr t ↦ Memᴰ.append_right actions (Memᴰ.tail ((spec s a).1 (t, v)))
        | inl q ↦ at_state rest actions here s a q v
      ]

  -- If no flow and no path of a flow stands twice, then `get_actions_for_states` does not fail on the possible
  -- states, and it gives a state and an action exactly if the state is possible and the action is none or
  -- takes a flow to another one of its paths.
  pub get_actions_for_states-IsMoveOf :
      (actions : List (Combination × Action)) × (get_actions_for_states choices
          (get_possible_states choices)
        ≡ some actions)
      × ((state : Combination) (action : Action)
          → Memᴰ (state, action) actions ↔ IsMoveOf choices (state, action))
  get_actions_for_states-IsMoveOf =
      let (actions, e, spec) = get_actions_for_states-ListsAll (get_possible_states choices) (
        All-each (Chooses choices) (get_possible_states choices)
          (λ c m. (get_possible_states-Chooses choices c).0 m)) in
      (
        actions,
        e,
        λ s a. (
          λ m. ((spec s a).0 m).1,
          λ v. (spec s a).1 ((get_possible_states-Chooses choices s).1 v.0, v),
        ),
      )
