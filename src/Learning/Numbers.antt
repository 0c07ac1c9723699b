-- ===== src/Learning/Numbers.antt =====
-- Python's floats as learning_module.py uses them, and the entries of its Q table.
use comnetsemu.Prelude.{ℕ, Bool, true, false, List, Option, none, some}
use comnetsemu.Prelude.Dict.{Dict}
use comnetsemu.Learning.Data.{Combination, Action}

-- A weight of the softmax choice, an np.float128, which is never negative.
pub data Wide (R : Type 0) : Type 0 where
  wide : R → Wide R
  infinite : Wide R
  nan : Wide R

-- The operations on finite floats, where the caller sees to it that no denominator is 0, and those on weights, which
-- overflow to `infinite` and may give `nan`.
pub record Reals (R : Type 0) : Type 0 where
  pub zero : R
  pub one : R
  pub add : R → R → R
  pub sub : R → R → R
  pub mul : R → R → R
  pub div : R → R → R
  pub pow : R → ℕ → R
  pub of_nat : ℕ → R
  pub lt : R → R → Bool
  pub is_zero : R → Bool
  pub sqrt : R → R
  pub log : R → R
  -- `np.exp(-1 / x, dtype=np.float128)`; for an np.float64 of 0 the quotient is infinite, without an exception
  pub exp_inverse : R → Wide R
  pub wide_add : Wide R → Wide R → Wide R
  pub wide_div : Wide R → Wide R → Wide R

-- A value of the table: until the first update `-math.inf`, or a float from the configuration, which is one of
-- Python's; then an np.float64.
pub data Value (R : Type 0) : Type 0 where
  neg_inf : Value R
  start : R → Value R
  num : R → Value R

-- `[visits, value, past rewards]`
pub record Entry (R : Type 0) : Type 0 where
  pub visits : ℕ
  pub value : Value R
  pub rewards : List R

abbrev pub Row : Type 0 → Type 0
Row R = Dict Action (Entry R)

abbrev pub QTable : Type 0 → Type 0
QTable R = Dict Combination (Row R)

-- The table of temporal differences: visits and value of each state.
abbrev pub ValueTable : Type 0 → Type 0
ValueTable R = Dict Combination (ℕ × Value R)

module _ {R : Type 0} (r : Reals R) where
  -- `0 if math.isinf(v) else v`
  abbrev pub finite : Value R → R
  finite neg_inf = r.zero
  finite (start x) = x
  finite (num x) = x

  -- The same without a calculation: an infinite value becomes the number 0 of Python.
  abbrev pub settled : Value R → Value R
  settled neg_inf = start r.zero
  settled (start x) = start x
  settled (num x) = num x

  -- `none` is `-math.inf`.
  abbrev pub number_of : Value R → Option R
  number_of neg_inf = none
  number_of (start x) = some x
  number_of (num x) = some x

  abbrev pub number_lt : Option R → Option R → Bool
  number_lt none none = false
  number_lt none (some y) = true
  number_lt (some x) none = false
  number_lt (some x) (some y) = r.lt x y

  abbrev pub value_lt : Value R → Value R → Bool
  value_lt v w = number_lt (number_of v) (number_of w)

  -- `v + x` for a finite `x`
  abbrev pub add_value : Value R → R → Value R
  add_value neg_inf x = neg_inf
  add_value (start v) x = num (r.add v x)
  add_value (num v) x = num (r.add v x)
