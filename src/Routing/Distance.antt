-- ===== src/Routing/Distance.antt =====
-- The edit distance by recursion on the two prefixes, for `iterative_levenshtein` of
-- app/machine_learning_for_routing/controller/functions.py.
use comnetsemu.Prelude.{
  ℕ, zero, suc, ◌+◌, ◌-◌, ◌<◌, ◌≤◌, List, [], length, replicate, min, ◌≡◌, ◌≢◌, ◌⊎◌, inl, inr, refl,
  ap, ◌∙◌, sym, subst, arith, nat_eq, get_or,
}
use comnetsemu.Routing.Levenshtein.{
  Table, cell, set_cell, fill_sources, fill_targets, cost, best, fill_rows, fill_cols,
  iterative_levenshtein,
}
use comnetsemu.Routing.Table.{
  IsTable, replicate-IsTable, set_cell-IsTable, cell-set_cell_self, cell-set_cell_row,
  cell-set_cell_col,
}

nat-cases : (a b : ℕ) → (a ≡ b) ⊎ (a ≢ b)
nat-cases a b = ground arith

sub_one : (n : ℕ) → suc n - 1 ≡ n
sub_one n = omega arith

the_end : {m : ℕ} (n : ℕ) → n + 0 ≡ m → n ≡ m
the_end n e = omega arith

not_positive : ¬ (0 < 0)
not_positive h = omega arith

lt_irrefl : {i : ℕ} → 0 ≡ i → ¬ (0 < i)
lt_irrefl e h = omega arith

below_one : {i : ℕ} → i < 1 → i ≡ 0
below_one h = omega arith

get_or-replicate {ℓ} : {A : Type ℓ} (n : ℕ) (v d : A) → 0 < n → get_or (replicate n v) 0 d ≡ v
get_or-replicate zero v d h = elim (not_positive h) [ ]
get_or-replicate (suc n) v d h = refl

least-cong :
    {a a' b b' d d' : ℕ} (k : ℕ)
    → a ≡ a'
    → b ≡ b'
    → d ≡ d'
    → min (min (a + 1) (b + 1)) (d + k) ≡ min (min (a' + 1) (b' + 1)) (d' + k)
least-cong k ea eb ed = rw (ea, eb, ed) refl

module _ (s t : List ℕ) where
  unfoldable pub lev : ℕ → ℕ → ℕ
  lev zero j = j
  lev (suc i) zero = suc i
  lev (suc i) (suc j) = min (min (lev i (suc j) + 1) (lev (suc i) j + 1)) (lev i j + cost s t i j)

  abbrev rows : ℕ
  rows = length s + 1

  abbrev cols : ℕ
  cols = length t + 1

  -- The cells up to row `r` of column `c`, and the first row and column.
  abbrev Done : ℕ → ℕ → ℕ → ℕ → Type 0
  Done r c i j = ((i ≡ 0) ⊎ (j ≡ 0)) ⊎ ((j < c) ⊎ ((j ≡ c) × (i < r)))

  record IsFilled (r c : ℕ) (dist : Table) : Type 0 where
    table : IsTable rows cols dist
    values : (i j : ℕ) → i < rows → j < cols → Done r c i j → cell dist i j ≡ lev i j

  best-lev :
      (dist : Table) (r c : ℕ)
      → 0 < r
      → 0 < c
      → IsFilled r c dist
      → r < rows
      → c < cols
      → best s t dist r c ≡ lev r c
  unfolding best lev
  best-lev dist zero c p q h l m = elim (not_positive p) [ ]
  best-lev dist (suc r) zero p q h l m = elim (not_positive q) [ ]
  best-lev dist (suc r) (suc c) p q h l m =
      rw (best, sub_one r, sub_one c)
        (least-cong (cost s t r c)
          (h.values r (suc c) (omega arith) m (inr (inr (refl, omega arith))))
          (h.values (suc r) c l (omega arith) (inr (inl (omega arith))))
          (h.values r c (omega arith) (omega arith) (inr (inl (omega arith)))))

  -- A cell after a write: the one written, or as it was.
  cell-set_cell :
      (dist : Table) (r c v i j : ℕ)
      → IsTable rows cols dist
      → r < rows
      → c < cols
      → (((i ≡ r) × (j ≡ c)) × (cell (set_cell dist r c v) i j ≡ v))
        ⊎ (((i ≢ r) ⊎ (j ≢ c)) × (cell (set_cell dist r c v) i j ≡ cell dist i j))
  cell-set_cell dist r c v i j h l m = elim (nat-cases i r) [
    | inr ne ↦ inr (inl ne, cell-set_cell_row rows cols dist r c v i j (λ e. ne (sym e)))
    | inl e ↦ elim (nat-cases j c) [
      | inl k ↦ inl ((e, k), rw (e, k) (cell-set_cell_self rows cols dist r c v h l m))
      | inr ne ↦ inr (inr ne, rw e (cell-set_cell_col rows cols dist r c v j h l (λ k. ne (sym k))))
    ]
  ]

  set-IsFilled :
      (dist : Table) (r c : ℕ)
      → 0 < r
      → 0 < c
      → IsFilled r c dist
      → r < rows
      → c < cols
      → IsFilled (r + 1) c (set_cell dist r c (best s t dist r c))
  set-IsFilled dist r c p q h l m = record {
    table = set_cell-IsTable rows cols dist r c v h.table l;
    values = λ i j il jl d. elim (cell-set_cell dist r c v i j h.table l m) [
      | inl (e, k) ↦ k ∙ rw (e.0, e.1) (best-lev dist r c p q h l m)
      | inr (ne, k) ↦ k ∙ h.values i j il jl (before i j ne d)
    ];
  }
    where
      v : ℕ
      v = best s t dist r c

      before : (i j : ℕ) → (i ≢ r) ⊎ (j ≢ c) → Done (r + 1) c i j → Done r c i j
      before i j ne d = omega arith

  fill_rows-IsFilled :
      (left : ℕ) (dist : Table) (r c : ℕ)
      → 0 < r
      → 0 < c
      → IsFilled r c dist
      → r + left ≡ rows
      → c < cols
      → IsFilled rows c (fill_rows s t left r c dist)
  unfolding fill_rows
  fill_rows-IsFilled zero dist r c p q h e m = subst (λ n. IsFilled n c dist) (the_end r e) h
  fill_rows-IsFilled (suc left) dist r c p q h e m =
      fill_rows-IsFilled left (set_cell dist r c (best s t dist r c)) (r + 1) c (omega arith) q
        (set-IsFilled dist r c p q h (omega arith) m) (omega arith) m

  fill_cols-IsFilled :
      (left : ℕ) (dist : Table) (c : ℕ)
      → 0 < c
      → IsFilled 1 c dist
      → c + left ≡ cols
      → IsFilled 1 cols (fill_cols s t left c dist)
  unfolding fill_cols
  fill_cols-IsFilled zero dist c q h e = subst (λ n. IsFilled 1 n dist) (the_end c e) h
  fill_cols-IsFilled (suc left) dist c q h e =
      let full =
        fill_rows-IsFilled (length s) dist 1 c (omega arith) q h (omega arith) (omega arith) in
      fill_cols-IsFilled left (fill_rows s t (length s) 1 c dist) (c + 1) (omega arith)
        (record {
          table = full.table;
          values = λ i j il jl d. full.values i j il jl (earlier i j il d);
        })
        (omega arith)
    where
      earlier : (i j : ℕ) → i < rows → Done 1 (c + 1) i j → Done rows c i j
      earlier i j il d = omega arith

  -- The first column up to row `n`, and the first row up to column `m`.
  record IsBordered (n m : ℕ) (dist : Table) : Type 0 where
    table : IsTable rows cols dist
    sources : (i : ℕ) → i < rows → i < n → cell dist i 0 ≡ i
    targets : (j : ℕ) → j < cols → j < m → cell dist 0 j ≡ j

  fill_sources-IsBordered :
      (left : ℕ) (i : ℕ) (dist : Table)
      → 0 < i
      → IsBordered i 1 dist
      → i + left ≡ rows
      → IsBordered rows 1 (fill_sources left i dist)
  unfolding fill_sources
  fill_sources-IsBordered zero i dist p h e = subst (λ n. IsBordered n 1 dist) (the_end i e) h
  fill_sources-IsBordered (suc left) i dist p h e =
      fill_sources-IsBordered left (i + 1) (set_cell dist i 0 i) (omega arith)
        (record {
          table = set_cell-IsTable rows cols dist i 0 i h.table (omega arith);
          sources = λ k kl ki.
              elim (cell-set_cell dist i 0 i k 0 h.table (omega arith) (omega arith)) [
                | inl (a, b) ↦ b ∙ sym a.0
                | inr (ne, b) ↦ b ∙ h.sources k kl (omega (arith, ne))
              ];
          targets = λ j jl ji.
              cell-set_cell_row rows cols dist i 0 i 0 j (omega arith) ∙ h.targets j jl ji;
        })
        (omega arith)

  fill_targets-IsBordered :
      (left : ℕ) (i : ℕ) (dist : Table)
      → 0 < i
      → IsBordered rows i dist
      → i + left ≡ cols
      → IsBordered rows cols (fill_targets left i dist)
  unfolding fill_targets
  fill_targets-IsBordered zero i dist p h e = subst (λ n. IsBordered rows n dist) (the_end i e) h
  fill_targets-IsBordered (suc left) i dist p h e =
      fill_targets-IsBordered left (i + 1) (set_cell dist 0 i i) (omega arith)
        (record {
          table = set_cell-IsTable rows cols dist 0 i i h.table (omega arith);
          sources = λ k kl ki.
              elim (cell-set_cell dist 0 i i k 0 h.table (omega arith) (omega arith)) [
                | inl (a, b) ↦ absurd (lt_irrefl (a.1) p)
                | inr (ne, b) ↦ b ∙ h.sources k kl ki
              ];
          targets = λ j jl ji.
              elim (cell-set_cell dist 0 i i 0 j h.table (omega arith) (omega arith)) [
                | inl (a, b) ↦ b ∙ sym a.1
                | inr (ne, b) ↦ b ∙ h.targets j jl (omega (arith, ne))
              ];
        })
        (omega arith)

  cell-replicate : cell (replicate rows (replicate cols 0)) 0 0 ≡ 0
  unfolding cell
  cell-replicate =
      ap (λ x. get_or x 0 0) (get_or-replicate rows (replicate cols 0) [] (omega arith))
      ∙ get_or-replicate cols 0 0 (omega arith)

  border_lem :
      IsBordered rows cols
        (fill_targets (length t) 1 (fill_sources (length s) 1 (replicate rows (replicate cols 0))))
  border_lem =
      fill_targets-IsBordered (length t) 1
        (fill_sources (length s) 1 (replicate rows (replicate cols 0))) (omega arith)
        (fill_sources-IsBordered (length s) 1 (replicate rows (replicate cols 0)) (omega arith)
          (record {
            table = replicate-IsTable rows cols;
            sources = λ i il ii. rw (below_one ii) cell-replicate;
            targets = λ j jl ji. rw (below_one ji) cell-replicate;
          })
          (omega arith))
        (omega arith)

  IsBordered-IsFilled : (dist : Table) → IsBordered rows cols dist → IsFilled 1 1 dist
  unfolding lev
  IsBordered-IsFilled dist h = record {
    table = h.table;
    values = λ i j il jl d. elim (border_cases i j d) [
      | inl e ↦ rw e (h.targets j jl jl)
      | inr e ↦ rw e (h.sources i il il ∙ sym (lev_source i))
    ];
  }
    where
      border_cases : (i j : ℕ) → Done 1 1 i j → (i ≡ 0) ⊎ (j ≡ 0)
      border_cases i j d = omega arith

      lev_source : (i : ℕ) → lev i 0 ≡ i
      lev_source zero = refl
      lev_source (suc i) = refl

  -- Every cell of the table that `iterative_levenshtein` returns holds the edit distance of the prefixes of
  -- the two sequences that its row and column stand for, as the recursion `lev` defines it.
  pub iterative_levenshtein-lev :
      (i j : ℕ) → i ≤ length s → j ≤ length t → cell (iterative_levenshtein s t) i j ≡ lev i j
  unfolding iterative_levenshtein
  iterative_levenshtein-lev i j il jl =
      let filled =
        fill_cols-IsFilled (length t)
          (fill_targets (length t) 1
            (fill_sources (length s) 1 (replicate rows (replicate cols 0))))
          1 (omega arith)
          (IsBordered-IsFilled
            (fill_targets (length t) 1
              (fill_sources (length s) 1 (replicate rows (replicate cols 0))))
            border_lem)
          (omega arith) in
      filled.values i j (omega arith) (omega arith) (inr (inl (omega arith)))
