-- ===== src/Learning/Moves.antt =====
-- The actions and transitions of learning_module.py against its states.
use comnetsemu.Prelude.{
  ℕ, true, false, ◌==◌, nat_eq, list_eq, pair_eq, List, [], ◌∷◌, some, ◌≡◌, ◌≢◌, inl, inr, refl,
  subst, arith, Memᴰ, All, IsNodup, Bool-cases, beq_refl,
}
use comnetsemu.Prelude.Dict.{Dict, lookup, insert}
use comnetsemu.Learning.Data.{Hops, Combination, Choices, Action, no_trans, change, action_eq}
use comnetsemu.Learning.Spaces.{actions_for_flow, apply_action}
use comnetsemu.Learning.SpaceLaws.{Chooses}

-- No path stands twice among those of a flow.
abbrev pub HasDistinctPaths : Choices → Type 0
HasDistinctPaths = All (λ g. IsNodup g.1)

-- The flow of the action has the path among its possible ones, and not as its path in the state.
abbrev pub IsMove : Choices → Combination → Action → Type 0
IsMove choices state no_trans = Unit
IsMove choices state (change id path) =
    (paths : List Hops) × (old : Hops) × (lookup id choices ≡ some paths)
    × Memᴰ path paths
    × (lookup id state ≡ some old)
    × (path ≢ old)

pub lookup-HasDistinctPaths :
    (choices : Choices) (id : ℕ) (paths : List Hops)
    → HasDistinctPaths choices
    → lookup id choices ≡ some paths
    → IsNodup paths
unfolding lookup
lookup-HasDistinctPaths [] id paths h e = absurd (cc)
lookup-HasDistinctPaths ((i, ps) ∷ choices) id paths h e = elim (Bool-cases (i == id)) [
  | inl same ↦ let here : ps ≡ paths = ground arith in subst IsNodup here h.0
  | inr other ↦ lookup-HasDistinctPaths choices id paths h.1 (ground arith)
]

-- A change of one flow's path to another of its paths stays within the states.
insert-Chooses :
    (choices : Choices) (state : Combination) (id : ℕ) (paths : List Hops) (path : Hops)
    → Chooses choices state
    → lookup id choices ≡ some paths
    → Memᴰ path paths
    → Chooses choices (insert id path state)
unfolding lookup insert
insert-Chooses [] state id paths path h e m = absurd (cc)
insert-Chooses ((i, ps) ∷ choices) [] id paths path h e m = absurd h
insert-Chooses ((i, ps) ∷ choices) ((j, old) ∷ state) id paths path h e m =
    elim (Bool-cases (i == id)) [
      | inl same ↦
          let here : paths ≡ ps = ground arith in
          let there : (j == id) ≡ true = rw (← h.0) same in
          rw there (h.0, subst (Memᴰ path) here m, h.2)
      | inr other ↦
          let there : (j == id) ≡ false = rw (← h.0) other in
          rw there (h.0, h.1, insert-Chooses choices state id paths path h.2 (ground arith) m)
    ]

pub apply_action-Chooses :
    (choices : Choices) (state : Combination) (action : Action)
    → Chooses choices state
    → IsMove choices state action
    → Chooses choices (apply_action action state)
unfolding apply_action
apply_action-Chooses choices state no_trans h m = h
apply_action-Chooses choices state (change id path) h (paths, old, e, p, _, _) =
    insert-Chooses choices state id paths path h e p

actions_for_flow-All :
    (P : Combination × Action → Type 0) (state : Combination) (id : ℕ) (paths : List Hops)
    → ((path : Hops) → Memᴰ path paths → P (state, change id path))
    → All P (actions_for_flow state id paths)
unfolding actions_for_flow
actions_for_flow-All P state id [] h = tt
actions_for_flow-All P state id (path ∷ paths) h =
    (h path (Memᴰ.head refl), actions_for_flow-All P state id paths (λ p m. h p (Memᴰ.tail m)))

abbrev pub IsMoveOf : Choices → Combination × Action → Type 0
IsMoveOf choices (state, action) = Chooses choices state × IsMove choices state action

-- No flow stands twice.
abbrev pub HasDistinctFlows {ℓ} : {V : Type ℓ} → Dict ℕ V → Type ℓ
HasDistinctFlows [] = Unit
HasDistinctFlows (f ∷ d) = All (λ g. (f.0 == g.0) ≡ false) d × HasDistinctFlows d

-- What the loop over the flows finds at an entry.
abbrev pub IsFound : Choices → Combination → ℕ × Hops → Type 0
IsFound choices state f =
    (lookup f.0 state ≡ some f.1) × ((paths : List Hops) × (lookup f.0 choices ≡ some paths))

All-both {ℓ κ} :
    {A : Type ℓ} {P Q R : A → Type κ} (xs : List A)
    → All P xs
    → All Q xs
    → ((a : A) → P a → Q a → R a)
    → All R xs
All-both [] h k f = tt
All-both (x ∷ xs) h k f = (f x h.0 k.0, All-both xs h.1 k.1 f)

lookup-each :
    (state : Combination) → HasDistinctFlows state → All (λ f. lookup f.0 state ≡ some f.1) state
unfolding lookup
lookup-each [] h = tt
lookup-each (f ∷ state) h =
    (rw (beq_refl f.0) refl, All-both state h.0 (lookup-each state h.1) (λ g ne e. rw ne e))

Chooses-lookup :
    (choices : Choices) (state : Combination)
    → Chooses choices state
    → All (λ f. (paths : List Hops) × (lookup f.0 choices ≡ some paths)) state
unfolding lookup
Chooses-lookup [] [] h = tt
Chooses-lookup [] (f ∷ state) h = absurd h
Chooses-lookup (g ∷ choices) [] h = absurd h
Chooses-lookup ((i, ps) ∷ choices) ((j, p) ∷ state) h = (
  (ps, rw h.0 (rw (beq_refl j) refl)),
  All-both state (Chooses-lookup choices state h.2) (Chooses-lookup choices state h.2) (λ f e _.
      elim (Bool-cases (i == f.0)) [
        | inl same ↦ (ps, rw same refl)
        | inr other ↦ (e.0, rw other e.1)
      ]),
)

Chooses-apart :
    (choices : Choices) (state : Combination) (id : ℕ)
    → Chooses choices state
    → All (λ g. (id == g.0) ≡ false) choices
    → All (λ f. (id == f.0) ≡ false) state
Chooses-apart [] [] id h d = tt
Chooses-apart [] (f ∷ state) id h d = absurd h
Chooses-apart (g ∷ choices) [] id h d = absurd h
Chooses-apart ((i, ps) ∷ choices) ((j, p) ∷ state) id h d =
    (subst (λ k. (id == k) ≡ false) h.0 d.0, Chooses-apart choices state id h.2 d.1)

Chooses-HasDistinctFlows :
    (choices : Choices) (state : Combination)
    → Chooses choices state
    → HasDistinctFlows choices
    → HasDistinctFlows state
Chooses-HasDistinctFlows [] [] h d = tt
Chooses-HasDistinctFlows [] (f ∷ state) h d = absurd h
Chooses-HasDistinctFlows (g ∷ choices) [] h d = absurd h
Chooses-HasDistinctFlows ((i, ps) ∷ choices) ((j, p) ∷ state) h d = (
  subst (λ k. All (λ f. (k == f.0) ≡ false) state) h.0 (Chooses-apart choices state i h.2 d.0),
  Chooses-HasDistinctFlows choices state h.2 d.1,
)

pub Chooses-IsFound :
    (choices : Choices) (state : Combination)
    → Chooses choices state
    → HasDistinctFlows choices
    → All (IsFound choices state) state
Chooses-IsFound choices state h d =
    All-both state (lookup-each state (Chooses-HasDistinctFlows choices state h d))
      (Chooses-lookup choices state h) (λ f e k. (e, k))
