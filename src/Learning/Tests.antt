-- ===== src/Learning/Tests.antt =====
-- Concrete runs of learning_module.py. The floats are numbers here, with subtraction that stops at 0.
use comnetsemu.Prelude.{
  ℕ, ◌+◌, ◌*◌, ◌-◌, ◌/◌, ◌^◌, ◌≤◌, true, ◌==◌, nat_eq, list_eq, pair_eq, ltb, List, [], ◌∷◌, some,
  length, ◌≡◌, ◌↔◌, ◌⊎◌, inl, inr, refl, subst, arith, Memᴰ, All, Bool-cases, All-at,
}
use comnetsemu.Prelude.Keys.{HasDistinctKeys, lookup-Memᴰ}
use comnetsemu.Prelude.Dict.{Dict, lookup}
use comnetsemu.Learning.Data.{
  Hops, Combination, Choices, Action, no_trans, change, action_eq, dumps, sort_insert,
  same_combination, constant_eps, softmax, done, failed, multi_armed_bandit_no_weight, value_error,
  zero_division, index_error, unbound_local,
}
use comnetsemu.Learning.Spaces.{
  get_possible_states, get_actions_for_states, get_state_transitions, get_next_state, apply_action,
}
use comnetsemu.Learning.SpaceLaws.{Chooses, get_possible_states-Chooses}
use comnetsemu.Learning.Moves.{HasDistinctFlows, HasDistinctPaths, IsMoveOf}
use comnetsemu.Learning.ActionLaws.{get_actions_for_states-IsMoveOf}
use comnetsemu.Learning.NextState.{get_next_state-Chooses}
use comnetsemu.Learning.Numbers.{Reals, wide, Value, neg_inf, num, Entry, Row, QTable}
use comnetsemu.Learning.Tables.{
  entry_at, create_new_q_table, update_q_ql, update_q_bandit, max_past_rewards, values_of,
}
use comnetsemu.Learning.TableLaws.{Listed, fresh, create_new_q_table-Listed}
use comnetsemu.Learning.Best.{IsOrder, IsBest, IsGreatest}
use comnetsemu.Learning.UpdateLaws.{
  IsWith, IsShort, update_q_ql-IsBest, after_visit, update_q_bandit-IsShort,
}
use comnetsemu.Learning.Search.{get_paths, search, link_ends, outside, pushed, arrived}
use comnetsemu.Learning.Routes.{IsRoute}
use comnetsemu.Learning.PathSearch.{IsKnown, IsClosed, HasDegree, HasSmallKeys, get_paths-IsRoute}
use comnetsemu.Learning.Choice.{Random, get_action_ucb, get_action, total_visits}
use comnetsemu.Learning.Ucb.{IsFirstNew, IsVisited, bounds, get_action_ucb-IsGreatest}
use comnetsemu.Learning.Softmax.{IsRandom, IsUnweighted, IsRefused}
use comnetsemu.Learning.ChoiceLaws.{IsOffered, get_action-IsOffered}

abbrev pub numbers : Reals ℕ
numbers = record {
  zero = 0;
  one = 1;
  add = λ x y. x + y;
  sub = λ x y. x - y;
  mul = λ x y. x * y;
  div = λ x y. x / y;
  pow = λ x n. x ^ n;
  of_nat = λ n. n;
  lt = ltb;
  is_zero = λ x. x == 0;
  sqrt = λ x. x;
  log = λ x. x;
  exp_inverse = wide;
  wide_add = λ v w. v;
  wide_div = λ v w. v;
}

pub numbers-IsOrder : IsOrder numbers
numbers-IsOrder = record { asym = λ x y h. ground arith; trans = λ x y z h k. ground arith }

-- The first of each list, and a draw of 1.
abbrev pub first_ones : Random ℕ
first_ones = record { draw = 1; pick = λ a l. a; sample = λ p l. some p.0 }

pub first_ones-IsRandom : IsRandom first_ones
first_ones-IsRandom = record {
  pick-Memᴰ = λ a l. Memᴰ.head refl;
  sample-Memᴰ = λ p l a e. (p.1, Memᴰ.head (ground (arith, e)));
}

-- A flow with two paths, and one that has no choice.
abbrev pub short_path : Hops
short_path = 1 ∷ 3 ∷ []

abbrev pub long_path : Hops
long_path = 1 ∷ 2 ∷ 3 ∷ []

abbrev pub paths_of_two : Choices
paths_of_two = (7, short_path ∷ long_path ∷ []) ∷ (8, short_path ∷ []) ∷ []

abbrev pub both_short : Combination
both_short = (7, short_path) ∷ (8, short_path) ∷ []

abbrev one_long : Combination
one_long = (7, long_path) ∷ (8, short_path) ∷ []

pub paths_of_two-HasDistinctFlows : HasDistinctFlows paths_of_two
paths_of_two-HasDistinctFlows = ((refl, tt), (tt, tt))

pub paths_of_two-HasDistinctPaths : HasDistinctPaths paths_of_two
paths_of_two-HasDistinctPaths = (((λ e. absurd (ground (arith, e)), tt), (tt, tt)), ((tt, tt), tt))

pub both_short-Chooses : Chooses paths_of_two both_short
both_short-Chooses = (refl, Memᴰ.head refl, (refl, Memᴰ.head refl, tt))

take_long : Action
take_long = change 7 long_path

get_possible_states-Chooses_example :
    Memᴰ both_short (get_possible_states paths_of_two) ↔ Chooses paths_of_two both_short
get_possible_states-Chooses_example = get_possible_states-Chooses paths_of_two both_short

get_actions_for_states-IsMoveOf_example :
    (actions : List (Combination × Action)) × (get_actions_for_states paths_of_two
        (get_possible_states paths_of_two)
      ≡ some actions)
    × ((state : Combination) (action : Action)
        → Memᴰ (state, action) actions ↔ IsMoveOf paths_of_two (state, action))
get_actions_for_states-IsMoveOf_example =
    get_actions_for_states-IsMoveOf paths_of_two paths_of_two-HasDistinctFlows
      paths_of_two-HasDistinctPaths

long_move : IsMoveOf paths_of_two (both_short, change 7 long_path)
unfolding lookup
long_move = (
  both_short-Chooses,
  (
    short_path ∷ long_path ∷ [],
    short_path,
    refl,
    Memᴰ.tail (Memᴰ.head refl),
    refl,
    λ e. absurd (ground (arith, e)),
  ),
)

get_next_state-Chooses_example :
    (actions : List (Combination × Action)) × (s : Combination) × (get_actions_for_states
        paths_of_two
        (get_possible_states paths_of_two)
      ≡ some actions)
    × (same_combination s both_short ≡ true)
    × (get_next_state (get_state_transitions actions) both_short (change 7 long_path)
        ≡ apply_action (change 7 long_path) s)
    × Chooses paths_of_two
        (get_next_state (get_state_transitions actions) both_short (change 7 long_path))
get_next_state-Chooses_example =
    get_next_state-Chooses paths_of_two both_short (change 7 long_path)
      paths_of_two-HasDistinctFlows paths_of_two-HasDistinctPaths long_move

abbrev three_actions : List (Combination × Action)
three_actions =
    (both_short, change 7 long_path) ∷ (both_short, no_trans) ∷ (one_long, no_trans) ∷ []

abbrev empty_entry : Entry ℕ
empty_entry = record { visits = 0; value = neg_inf; rewards = [] }

create_new_q_table-Listed_example :
    (entry_at (create_new_q_table neg_inf three_actions) both_short no_trans ≡ some empty_entry)
    ↔ (Listed both_short no_trans three_actions × (empty_entry ≡ fresh neg_inf))
create_new_q_table-Listed_example =
    create_new_q_table-Listed neg_inf three_actions both_short no_trans empty_entry

-- The action was taken twice, for the rewards 4 and 6, and the other never.
abbrev taken : Entry ℕ
taken = record { visits = 2; value = num 10; rewards = 4 ∷ 6 ∷ [] }

abbrev long_row : Row ℕ
long_row = (no_trans, taken) ∷ []

abbrev short_row : Row ℕ
short_row = (change 7 long_path, taken) ∷ (no_trans, empty_entry) ∷ []

abbrev visited_table : QTable ℕ
visited_table = (both_short, short_row) ∷ (one_long, long_row) ∷ []

short_row-HasDistinctKeys : HasDistinctKeys short_row
unfolding lookup
short_row-HasDistinctKeys = (refl, (refl, tt))

update_q_ql-IsBest_example :
    (q' : QTable ℕ) × (k : Action) × (best : Entry ℕ) × (update_q_ql numbers both_short one_long 1 2
        visited_table 30
        (change 7 long_path)
      ≡ done q')
    × IsBest numbers k best long_row
    × IsWith visited_table
        (dumps both_short)
        (change 7 long_path)
        (after_visit numbers 1 2 30 best.value taken)
        q'
unfolding lookup entry_at dumps sort_insert
update_q_ql-IsBest_example =
    update_q_ql-IsBest numbers numbers-IsOrder both_short one_long 1 2 30 visited_table
      (change 7 long_path) long_row no_trans taken taken (refl, tt) refl refl refl

short_enough :
    (row : Row ℕ)
    → All (λ x. length x.1.rewards ≤ max_past_rewards) row
    → (b : Action) (e : Entry ℕ) → lookup b row ≡ some e
    → length e.rewards ≤ max_past_rewards
unfolding lookup
short_enough [] h b e l = absurd (cc)
short_enough ((k, f) ∷ row) h b e l = elim (Bool-cases (k == b)) [
  | inl same ↦
      let here : f ≡ e = ground arith in
      subst (λ (x : Entry ℕ). length x.rewards ≤ max_past_rewards) here h.0
  | inr other ↦ short_enough row h.1 b e (ground arith)
]

table-IsShort :
    (q : QTable ℕ) → All (λ x. All (λ y. length y.1.rewards ≤ max_past_rewards) x.1) q → IsShort q
unfolding entry_at lookup
table-IsShort [] h t b e l = absurd (cc)
table-IsShort ((s, row) ∷ q) h t b e l = elim (Bool-cases (s == t)) [
  | inl same ↦ short_enough row h.0 b e (rw (entry_at, lookup, same) at l)
  | inr other ↦ table-IsShort q h.1 t b e (rw (entry_at, lookup, other) at l)
]

visited_table-IsShort : IsShort visited_table
visited_table-IsShort =
    table-IsShort visited_table ((omega arith, (omega arith, tt)), ((omega arith, tt), tt))

update_q_bandit-IsShort_example :
    ((q' : QTable ℕ) × (update_q_bandit numbers both_short 1 visited_table 30 no_trans
          multi_armed_bandit_no_weight
        ≡ done q')
      × IsShort q')
    ⊎ ((e : Entry ℕ) × (update_q_bandit numbers both_short 1 visited_table 30 no_trans
            multi_armed_bandit_no_weight
          ≡ failed zero_division)
        × (multi_armed_bandit_no_weight ≡ multi_armed_bandit_no_weight)
        × (entry_at visited_table (dumps both_short) no_trans ≡ some e)
        × (e.visits ≡ 0))
update_q_bandit-IsShort_example =
    update_q_bandit-IsShort numbers both_short 1 visited_table 30 no_trans
      multi_armed_bandit_no_weight visited_table-IsShort

get_action_ucb-IsGreatest_example :
    (a : Action) × (get_action_ucb numbers first_ones visited_table both_short 3 ≡ done a)
    × (IsFirstNew a short_row
        ⊎ (IsVisited short_row
            × ((v : Value ℕ) × IsGreatest numbers a v
                  (bounds numbers (total_visits short_row) 3 short_row))))
unfolding lookup dumps sort_insert
get_action_ucb-IsGreatest_example =
    get_action_ucb-IsGreatest numbers first_ones numbers-IsOrder visited_table both_short 3
      short_row no_trans empty_entry short_row-HasDistinctKeys refl refl

get_action-IsOffered_example :
    IsOffered short_row (get_action numbers first_ones constant_eps both_short visited_table 2 1 3)
    ⊎ ((get_action numbers first_ones constant_eps both_short visited_table 2 1 3
          ≡ failed index_error)
        × (length short_row ≡ 1))
    ⊎ ((get_action numbers first_ones constant_eps both_short visited_table 2 1 3
          ≡ failed unbound_local)
        × (constant_eps ≡ softmax)
        × IsUnweighted numbers 1 (values_of numbers short_row))
    ⊎ ((get_action numbers first_ones constant_eps both_short visited_table 2 1 3
          ≡ failed value_error)
        × (constant_eps ≡ softmax)
        × IsRefused numbers first_ones 1 (values_of numbers short_row))
unfolding lookup dumps sort_insert
get_action-IsOffered_example =
    get_action-IsOffered numbers first_ones numbers-IsOrder first_ones-IsRandom constant_eps
      both_short visited_table 2 1 3 short_row no_trans empty_entry short_row-HasDistinctKeys refl
      refl

-- Three switches with links between all of them.
abbrev triangle : Dict ℕ (Dict ℕ ℕ)
triangle = (1, (2, 5) ∷ (3, 9) ∷ []) ∷ (2, (1, 5) ∷ (3, 1) ∷ []) ∷ (3, (1, 9) ∷ (2, 1) ∷ []) ∷ []

closed_by :
    (links : Dict ℕ (Dict ℕ ℕ))
    → All (λ x. All (IsKnown links) (link_ends x.1)) links
    → IsClosed links
closed_by links h n m row l k =
    All-at (IsKnown links) (link_ends row)
      (All-at (λ (x : ℕ × Dict ℕ ℕ). All (IsKnown links) (link_ends x.1)) links h
        (lookup-Memᴰ n row links l))
      k

triangle-IsClosed : IsClosed triangle
unfolding link_ends lookup
triangle-IsClosed = closed_by triangle (
  ((_, refl), ((_, refl), tt)),
  (((_, refl), ((_, refl), tt)), (((_, refl), ((_, refl), tt)), tt)),
)

triangle-HasDegree : HasDegree triangle 2
unfolding link_ends
triangle-HasDegree n row l =
    All-at (λ (x : ℕ × Dict ℕ ℕ). length (link_ends x.1) ≤ 2) triangle
      (omega arith, (omega arith, (omega arith, tt))) (lookup-Memᴰ n row triangle l)

triangle-HasSmallKeys : HasSmallKeys triangle
triangle-HasSmallKeys n (row, l) =
    All-at (λ (x : ℕ × Dict ℕ ℕ). x.0 ≤ 256) triangle
      (omega arith, (omega arith, (omega arith, tt))) (lookup-Memᴰ n row triangle l)

get_paths-triangle :
    get_paths triangle (λ node n. n == 3) 3 7 1 ≡ some (done ((1 ∷ 3 ∷ []) ∷ (1 ∷ 2 ∷ 3 ∷ []) ∷ []))
unfolding get_paths search lookup link_ends outside pushed arrived
get_paths-triangle = refl

get_paths-IsRoute_example :
    (found : List Hops) × (get_paths triangle (λ node n. n == 3) 3 7 1 ≡ some (done found))
    × ((p : Hops) → Memᴰ p found ↔ IsRoute triangle 3 1 (1 ∷ []) p)
unfolding link_ends lookup
get_paths-IsRoute_example =
    get_paths-IsRoute triangle 3 2 triangle-IsClosed triangle-HasDegree (λ node n. n == 3) 7 1
      (λ node n h. refl) triangle-HasSmallKeys (_, refl) (λ e. absurd (omega (arith, e)))
      (omega arith)
