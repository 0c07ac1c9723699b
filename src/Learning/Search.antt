-- ===== src/Learning/Search.antt =====
-- `get_paths` of learning_module.py: all paths between two switches, by depth-first search.
use comnetsemu.Prelude.{
  ℕ, Bool, zero, suc, if◌then◌else◌, ◌==◌, nat_eq, List, [], ◌∷◌, ◌++◌, Option, none, some,
}
use comnetsemu.Prelude.Dict.{Dict, lookup}
use comnetsemu.Learning.Data.{Hops, Outcome, done, failed, key_error}
use comnetsemu.Learning.Merging.{is_in}

-- The search's stack, top first: a switch, and the path to it.
abbrev pub Stack : Type 0
Stack = List (ℕ × Hops)

module _ {V : Type 0} where
  unfoldable pub link_ends : Dict ℕ V → List ℕ
  link_ends [] = []
  link_ends ((k, v) ∷ d) = k ∷ link_ends d

-- `set(...) - set(path)`, in the order of the dict, for which the set has none of its own.
unfoldable pub outside : List ℕ → Hops → List ℕ
outside [] path = []
outside (n ∷ ns) path = if is_in n path then outside ns path else n ∷ outside ns path

-- The `for` loop: what is pushed, and what is appended to the paths. `is_dst` tells of a key whether it is the object `dst`,
-- as `nxt is dst` compares the objects and not the numbers.
unfoldable pub pushed : (ℕ → Bool) → Hops → List ℕ → Stack → Stack
pushed is_dst path [] stack = stack
pushed is_dst path (n ∷ ns) stack =
    pushed is_dst path ns (if is_dst n then stack else (n, path ++ n ∷ []) ∷ stack)

unfoldable pub arrived : (ℕ → Bool) → Hops → List ℕ → List Hops → List Hops
arrived is_dst path [] paths = paths
arrived is_dst path (n ∷ ns) paths =
    arrived is_dst path ns (if is_dst n then paths ++ (path ++ n ∷ []) ∷ [] else paths)

-- `is_dst node n`: the key `n` of the dict of `node` is the object `dst`.
module _ {V : Type 0} (links : Dict ℕ (Dict ℕ V)) (is_dst : ℕ → ℕ → Bool) where
  -- The `while` loop, in at most so many rounds; `none` if they are not enough.
  unfoldable pub search : ℕ → Stack → List Hops → Option (Outcome (List Hops))
  unfolding lookup link_ends outside pushed arrived
  search rounds [] paths = some (done paths)
  search zero (item ∷ stack) paths = none
  search (suc rounds) ((node, path) ∷ stack) paths = elim (lookup node links) [
    | none ↦ some (failed key_error)
    | some row ↦
        let next = outside (link_ends row) path in
        search rounds (pushed (is_dst node) path next stack) (arrived (is_dst node) path next paths)
  ]

  unfoldable pub get_paths : ℕ → ℕ → ℕ → Option (Outcome (List Hops))
  unfolding search
  get_paths dst rounds src =
      if src == dst then some (done ((src ∷ []) ∷ [])) else search rounds ((src, src ∷ []) ∷ []) []
