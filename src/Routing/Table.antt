-- ===== src/Routing/Table.antt =====
-- Reading a table after a write (the lists of lists of functions.py).
use comnetsemu.Prelude.{
  ℕ, zero, suc, ◌<◌, List, [], ◌∷◌, nat_eq, length, get_or, set, replicate, All, ◌≡◌, ◌≢◌, refl, ap,
  ◌∙◌, arith, length-set, length-replicate,
}
use comnetsemu.Routing.Levenshtein.{Table, cell, set_cell}

pub record IsTable (rows cols : ℕ) (dist : Table) : Type 0 where
  pub rows_lem : length dist ≡ rows
  pub cols_lem : All (λ r. length r ≡ cols) dist

pub get_or-set_self {ℓ} :
    {A : Type ℓ} (xs : List A) (i : ℕ) (v d : A) → i < length xs → get_or (set xs i v) i d ≡ v
get_or-set_self [] i v d h = elim h [ ]
get_or-set_self (x ∷ xs) zero v d h = refl
get_or-set_self (x ∷ xs) (suc i) v d h = get_or-set_self xs i v d (omega arith)

pub get_or-set_ne {ℓ} :
    {A : Type ℓ} (xs : List A) (i j : ℕ) (v d : A) → i ≢ j → get_or (set xs i v) j d ≡ get_or xs j d
get_or-set_ne [] i j v d h = refl
get_or-set_ne (x ∷ xs) zero zero v d h = absurd (h refl)
get_or-set_ne (x ∷ xs) zero (suc j) v d h = refl
get_or-set_ne (x ∷ xs) (suc i) zero v d h = refl
get_or-set_ne (x ∷ xs) (suc i) (suc j) v d h = get_or-set_ne xs i j v d (λ e. h (ap suc e))

All-set {ℓ κ} :
    {A : Type ℓ} (P : A → Type κ) (xs : List A) (i : ℕ) (v : A)
    → All P xs
    → P v
    → All P (set xs i v)
All-set P [] i v h p = tt
All-set P (x ∷ xs) zero v h p = (p, h.1)
All-set P (x ∷ xs) (suc i) v h p = (h.0, All-set P xs i v h.1 p)

All-get_or {ℓ κ} :
    {A : Type ℓ} (P : A → Type κ) (xs : List A) (i : ℕ) (d : A)
    → All P xs
    → i < length xs
    → P (get_or xs i d)
All-get_or P [] i d h l = elim l [ ]
All-get_or P (x ∷ xs) zero d h l = h.0
All-get_or P (x ∷ xs) (suc i) d h l = All-get_or P xs i d h.1 (omega arith)

All-replicate {ℓ κ} : {A : Type ℓ} (P : A → Type κ) (n : ℕ) (v : A) → P v → All P (replicate n v)
All-replicate P zero v p = tt
All-replicate P (suc n) v p = (p, All-replicate P n v p)

module _ (rows cols : ℕ) where
  pub replicate-IsTable : IsTable rows cols (replicate rows (replicate cols 0))
  replicate-IsTable = record {
    rows_lem = length-replicate rows (replicate cols 0);
    cols_lem =
        All-replicate (λ r. length r ≡ cols) rows (replicate cols 0) (length-replicate cols 0);
  }

  pub set_cell-IsTable :
      (dist : Table) (r c v : ℕ)
      → IsTable rows cols dist
      → r < rows
      → IsTable rows cols (set_cell dist r c v)
  unfolding set_cell
  set_cell-IsTable dist r c v h l = record {
    rows_lem = length-set dist r (set (get_or dist r []) c v) ∙ h.rows_lem;
    cols_lem =
        All-set (λ x. length x ≡ cols) dist r (set (get_or dist r []) c v) h.cols_lem
          (length-set (get_or dist r []) c v
            ∙ All-get_or (λ x. length x ≡ cols) dist r [] h.cols_lem (omega (arith, h.rows_lem)));
  }

  pub cell-set_cell_self :
      (dist : Table) (r c v : ℕ)
      → IsTable rows cols dist
      → r < rows
      → c < cols
      → cell (set_cell dist r c v) r c ≡ v
  unfolding cell set_cell
  cell-set_cell_self dist r c v h l m =
      let inner =
        All-get_or (λ x. length x ≡ cols) dist r [] h.cols_lem (omega (arith, h.rows_lem)) in
      rw (get_or-set_self dist r (set (get_or dist r []) c v) [] (omega (arith, h.rows_lem)))
        (get_or-set_self (get_or dist r []) c v 0 (omega (arith, inner)))

  pub cell-set_cell_row :
      (dist : Table) (r c v i j : ℕ) → r ≢ i → cell (set_cell dist r c v) i j ≡ cell dist i j
  unfolding cell set_cell
  cell-set_cell_row dist r c v i j ne =
      ap (λ x. get_or x j 0) (get_or-set_ne dist r i (set (get_or dist r []) c v) [] ne)

  pub cell-set_cell_col :
      (dist : Table) (r c v j : ℕ)
      → IsTable rows cols dist
      → r < rows
      → c ≢ j
      → cell (set_cell dist r c v) r j ≡ cell dist r j
  unfolding cell set_cell
  cell-set_cell_col dist r c v j h l ne =
      rw (get_or-set_self dist r (set (get_or dist r []) c v) [] (omega (arith, h.rows_lem)))
        (get_or-set_ne (get_or dist r []) c j v 0 ne)
