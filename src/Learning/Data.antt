-- ===== src/Learning/Data.antt =====
-- The values of learning_module.py and config.py. Flow ids are numbers in the order of the strings that they
-- stand for, and a combination is a dict from flows to paths.
use comnetsemu.Prelude.{
  ℕ, Bool, true, false, if◌then◌else◌, ◌&&◌, ◌==◌, nat_eq, list_eq, pair_eq, Eq, ltb, List, [], ◌∷◌,
  Option, none, some, ◌≡◌, ◌↔◌, refl, arith, list_beq_iff,
}
use comnetsemu.Prelude.Dict.{Dict}

abbrev pub Hops : Type 0
Hops = List ℕ

abbrev pub Combination : Type 0
Combination = Dict ℕ Hops

-- `paths_per_flow`
abbrev pub Choices : Type 0
Choices = Dict ℕ (List Hops)

-- `('NoTrans', [])` and `(flow_id, path)`
pub data Action : Type 0 where
  no_trans : Action
  change : ℕ → Hops → Action

abbrev pub action_beq : Action → Action → Bool
action_beq no_trans no_trans = true
action_beq no_trans (change i p) = false
action_beq (change i p) no_trans = false
action_beq (change i p) (change j q) = (i == j) && (p == q)

pub action_beq_iff : (a b : Action) → (action_beq a b ≡ true) ↔ (a ≡ b)
action_beq_iff no_trans no_trans = (λ _. refl, λ _. refl)
action_beq_iff no_trans (change i p) = ground arith
action_beq_iff (change i p) no_trans = ground arith
action_beq_iff (change i p) (change j q) = ground (arith, nat_eq.same_iff i j, list_beq_iff p q)

instance abbrev pub action_eq : Eq Action
action_eq = record { same = action_beq; same_iff = action_beq_iff }

-- `json.dumps(..., sort_keys=True)` is a key for dicts: it does not depend on the order of the entries. The sorted
-- dict stands for that string, and `json.loads` gives it back.
unfoldable pub sort_insert : ℕ × Hops → Combination → Combination
sort_insert e [] = e ∷ []
sort_insert e (f ∷ c) = if ltb f.0 e.0 then f ∷ sort_insert e c else e ∷ f ∷ c

unfoldable pub dumps : Combination → Combination
unfolding sort_insert
dumps [] = []
dumps (e ∷ c) = sort_insert e (dumps c)

-- `==` of two dicts
unfoldable pub same_combination : Combination → Combination → Bool
unfolding dumps
same_combination a b = dumps a == dumps b

pub data QMode : Type 0 where
  shortest_path multi_armed_bandit_no_weight multi_armed_bandit_with_weight q_learning sarsa
        td_zero :
      QMode

pub data ExplorationMode : Type 0 where
  constant_eps falling_eps softmax ucb : ExplorationMode

pub data ActionMode : Type 0 where
  one_flow direct_change : ActionMode

pub data RewardMode : Type 0 where
  only_lat lat_utilisation : RewardMode

-- How a function ends: with a value or with an exception.
pub data Exception : Type 0 where
  key_error value_error zero_division type_error index_error unbound_local attribute_error :
      Exception

pub data Outcome {ℓ} (A : Type ℓ) : Type ℓ where
  done : A → Outcome A
  failed : Exception → Outcome A

infixl 5 ◌>>=◌ ◌>>◌
abbrev pub ◌>>=◌ : {A B : Type 0} → Outcome A → (A → Outcome B) → Outcome B
done a >>= f = f a
failed e >>= f = failed e

abbrev pub ◌>>◌ : {B : Type 0} → Outcome (Unit {0}) → Outcome B → Outcome B
m >> k = m >>= λ _. k

-- `d[k]`
abbrev pub or_fail {ℓ} : {A : Type ℓ} → Option A → Exception → Outcome A
or_fail none e = failed e
or_fail (some a) e = done a
