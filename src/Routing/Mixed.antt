-- ===== src/Routing/Mixed.antt =====
-- A path that is the old one up to some place and the new one from there on, under a change of
-- `get_commands_rerouting` (functions.py).
use comnetsemu.Prelude.{
  ℕ, zero, suc, ◌-◌, ◌<◌, ◌≤◌, some, List, [], ◌∷◌, ◌++◌, true, ltb, nat_eq, length, get_elem?, set,
  take, drop, ◌≡◌, refl, sym, ap, ◌∙◌, arith, length-take, length-append, get_elem?-some,
}
use comnetsemu.Routing.Reroute.{substitution, insertion, deletion, insert_at, pop_at, apply_change}

set-middle : (xs ys : List ℕ) (j x v : ℕ) → length xs ≡ j → set (xs ++ x ∷ ys) j v ≡ xs ++ v ∷ ys
set-middle [] ys zero x v e = refl
set-middle [] ys (suc j) x v e = absurd (omega (arith, e))
set-middle (w ∷ xs) ys zero x v e = absurd (omega (arith, e))
set-middle (w ∷ xs) ys (suc j) x v e = ap (λ t. w ∷ t) (set-middle xs ys j x v (omega (arith, e)))

pop_at-middle : (xs ys : List ℕ) (j x : ℕ) → length xs ≡ j → pop_at j (xs ++ x ∷ ys) ≡ xs ++ ys
unfolding pop_at
pop_at-middle [] ys zero x e = refl
pop_at-middle [] ys (suc j) x e = absurd (omega (arith, e))
pop_at-middle (w ∷ xs) ys zero x e = absurd (omega (arith, e))
pop_at-middle (w ∷ xs) ys (suc j) x e = ap (λ t. w ∷ t) (pop_at-middle xs ys j x (omega (arith, e)))

insert_at-middle :
    (xs ys : List ℕ) (j v : ℕ) → length xs ≡ j → insert_at j v (xs ++ ys) ≡ xs ++ v ∷ ys
unfolding insert_at
insert_at-middle [] ys zero v e = refl
insert_at-middle [] ys (suc j) v e = absurd (omega (arith, e))
insert_at-middle (w ∷ xs) ys zero v e = absurd (omega (arith, e))
insert_at-middle (w ∷ xs) ys (suc j) v e =
    ap (λ t. w ∷ t) (insert_at-middle xs ys j v (omega (arith, e)))

take-suc :
    (xs ys : List ℕ) (j x : ℕ)
    → get_elem? xs j ≡ some x
    → take (suc j) xs ++ ys ≡ take j xs ++ x ∷ ys
take-suc [] ys j x e = absurd (cc)
take-suc (w ∷ xs) ys zero x e = grind arith
take-suc (w ∷ xs) ys (suc j) x e = ap (λ t. w ∷ t) (take-suc xs ys j x e)

drop-get_elem? : (xs : List ℕ) (i x : ℕ) → get_elem? xs i ≡ some x → drop i xs ≡ x ∷ drop (suc i) xs
drop-get_elem? [] i x e = absurd (cc)
drop-get_elem? (w ∷ xs) zero x e = grind arith
drop-get_elem? (w ∷ xs) (suc i) x e = drop-get_elem? xs i x e

sub_one : (n : ℕ) → suc n - 1 ≡ n
sub_one n = omega arith

pub pair_eq : {a b c d : ℕ} → a ≡ b → c ≡ d → ◌≡◌ {A = ℕ × ℕ} (a, c) (b, d)
pair_eq e f = rw (e, f) refl

drop-length : (xs : List ℕ) → drop (length xs) xs ≡ []
drop-length [] = refl
drop-length (x ∷ xs) = drop-length xs

pub whole : (xs ys : List ℕ) → take (length xs) xs ++ drop (length ys) ys ≡ xs
whole [] ys = drop-length ys
whole (x ∷ xs) ys = ap (λ t. x ∷ t) (whole xs ys)

module _ (new_path old_path : List ℕ) where
  -- The part of the old path before column `j`, then the part of the new path from row `i` on.
  abbrev pub mixed : ℕ → ℕ → List ℕ
  mixed i j = take j old_path ++ drop i new_path

  length-take_old : (j : ℕ) → j < length old_path → length (take j old_path) ≡ j
  length-take_old j l = omega (arith, length-take j old_path)

  mixed-old :
      (i j : ℕ)
      → j < length old_path
      → (x : ℕ) × (get_elem? old_path j ≡ some x)
        × (mixed i (suc j) ≡ take j old_path ++ x ∷ drop i new_path)
  mixed-old i j l =
      let (x, e) = get_elem?-some old_path j l in (x, e, take-suc old_path (drop i new_path) j x e)

  pub apply_change-substitution :
      (i j : ℕ)
      → i < length new_path
      → j < length old_path
      → apply_change new_path
          (record { operation = substitution; row = suc i; col = suc j })
          (mixed (suc i) (suc j))
        ≡ some (mixed i j)
  unfolding apply_change
  apply_change-substitution i j k l =
      let (x, _, m) = mixed-old (suc i) j l in
      let (v, e) = get_elem?-some new_path i k in
      let len = length-take_old j l in
      let long : ltb j (length (take j old_path ++ x ∷ drop (suc i) new_path)) ≡ true =
        ground (arith, length-append (take j old_path) (x ∷ drop (suc i) new_path)) in
      rw (sub_one i, sub_one j, e, m, long)
        (ap some (
          set-middle (take j old_path) (drop (suc i) new_path) j x v len
          ∙ ap (λ t. take j old_path ++ t) (sym (drop-get_elem? new_path i v e))))

  pub apply_change-deletion :
      (i j : ℕ)
      → j < length old_path
      → apply_change new_path
          (record { operation = deletion; row = i; col = suc j })
          (mixed i (suc j))
        ≡ some (mixed i j)
  unfolding apply_change
  apply_change-deletion i j l =
      let (x, _, m) = mixed-old i j l in
      let len = length-take_old j l in
      let long : ltb j (length (take j old_path ++ x ∷ drop i new_path)) ≡ true =
        ground (arith, length-append (take j old_path) (x ∷ drop i new_path)) in
      rw (sub_one j, m, long) (ap some (pop_at-middle (take j old_path) (drop i new_path) j x len))

  pub apply_change-insertion :
      (i j : ℕ)
      → i < length new_path
      → j ≤ length old_path
      → apply_change new_path
          (record { operation = insertion; row = suc i; col = j })
          (mixed (suc i) j)
        ≡ some (mixed i j)
  unfolding apply_change
  apply_change-insertion i j k l =
      let (v, e) = get_elem?-some new_path i k in
      rw (sub_one i, e)
        (ap some (
          insert_at-middle (take j old_path) (drop (suc i) new_path) j v
            (omega (arith, length-take j old_path))
          ∙ ap (λ t. take j old_path ++ t) (sym (drop-get_elem? new_path i v e))))

  -- Where the two paths have the same switch nothing needs to change.
  pub mixed-no_change :
      (i j : ℕ)
      → j < length old_path
      → get_elem? new_path i ≡ get_elem? old_path j
      → mixed (suc i) (suc j) ≡ mixed i j
  mixed-no_change i j l same =
      let (x, e, m) = mixed-old (suc i) j l in
      m ∙ ap (λ t. take j old_path ++ t) (sym (drop-get_elem? new_path i x (same ∙ e)))
