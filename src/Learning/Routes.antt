-- ===== src/Learning/Routes.antt =====
-- The simple paths between two switches, and a round of `get_paths` of learning_module.py.
use comnetsemu.Prelude.{
  ℕ, Bool, false, ◌==◌, nat_eq, nat_beq_iff, List, [], ◌∷◌, ◌++◌, some, ◌≡◌, ◌≢◌, ◌⊎◌, ◌↔◌, inl,
  inr, refl, ap, sym, ◌∙◌, arith, Memᴰ, Memᴰ-cons, Memᴰ-append, Bool-cases,
}
use mathlib.Core.List.Memᴰ
use mathlib.Core.List.{append_assoc}
use comnetsemu.Prelude.Dict.{Dict, lookup}
use comnetsemu.Learning.Data.{Hops}
use comnetsemu.Learning.Merging.{is_in}
use comnetsemu.Learning.Search.{Stack, link_ends, outside, pushed, arrived}
use comnetsemu.Learning.SearchLaws.{equals, Memᴰ-outside, outside-Memᴰ}

module _ {V : Type 0} (links : Dict ℕ (Dict ℕ V)) (dst : ℕ) where
  -- There is a link from the switch to the other.
  abbrev pub IsLink : ℕ → ℕ → Type 0
  IsLink node n = (row : Dict ℕ V) × (lookup node links ≡ some row) × Memᴰ n (link_ends row)

  -- The hops lead from the switch over links to the destination, which is their last, without any switch of the path before
  -- or of their own twice.
  abbrev pub Leads : ℕ → Hops → Hops → Type 0
  Leads node path [] = ⊥
  Leads node path (n ∷ hops) =
      IsLink node n
      × (is_in n path ≡ false)
      × (((n ≡ dst) × (hops ≡ [])) ⊎ ((n ≢ dst) × Leads n (path ++ n ∷ []) hops))

  abbrev pub IsRoute : ℕ → Hops → Hops → Type 0
  IsRoute node path p = (hops : Hops) × (p ≡ path ++ hops) × Leads node path hops

  -- What one round finds at a switch.
  abbrev pub Goes : ℕ → Hops → List ℕ → Hops → Type 0
  Goes node path next p =
      (Memᴰ dst next × (p ≡ path ++ dst ∷ []))
      ⊎ ((n : ℕ) × Memᴰ n next × (n ≢ dst) × IsRoute n (path ++ n ∷ []) p)

  pub IsRoute-Goes :
      (node : ℕ) (path : Hops) (row : Dict ℕ V) (p : Hops)
      → lookup node links ≡ some row
      → IsRoute node path p
      → Goes node path (outside (link_ends row) path) p
  IsRoute-Goes node path row p h ([], e, l) = absurd l
  IsRoute-Goes node path row p h (n ∷ hops, e, ((row', k, m), out, l)) =
      let same : row' ≡ row = ground (arith, h, k) in
      let here = outside-Memᴰ n (link_ends row) path (rw same at m) out in
      elim l [
        | inl (there, nil) ↦ inl (rw there at here, rw (there, nil) at e)
        | inr (on, rest) ↦
            inr (n, here, on, (hops, e ∙ sym (append_assoc path (n ∷ []) hops), rest))
      ]

  pub Goes-IsRoute :
      (node : ℕ) (path : Hops) (row : Dict ℕ V) (p : Hops)
      → lookup node links ≡ some row
      → Goes node path (outside (link_ends row) path) p
      → IsRoute node path p
  Goes-IsRoute node path row p h (inl (m, e)) =
      let (t, out) = Memᴰ-outside dst (link_ends row) path m in
      (dst ∷ [], e, ((row, h, t), out, inl (refl, refl)))
  Goes-IsRoute node path row p h (inr (n, m, on, (hops, e, l))) =
      let (t, out) = Memᴰ-outside n (link_ends row) path m in
      (n ∷ hops, e ∙ append_assoc path (n ∷ []) hops, ((row, h, t), out, inr (on, l)))

pub Memᴰ-arrived :
    (dst : ℕ) (path p : Hops) (next : List ℕ) (paths : List Hops)
    → Memᴰ p (arrived (equals dst) path next paths)
      ↔ (Memᴰ p paths ⊎ (Memᴰ dst next × (p ≡ path ++ dst ∷ [])))
unfolding arrived
Memᴰ-arrived dst path p [] paths =
    (λ m. inl m, λ h. elim h [ inl m ↦ m | inr k ↦ absurd (Memᴰ.not-nil k.0) ])
Memᴰ-arrived dst path p (n ∷ next) paths = elim (Bool-cases (n == dst)) [
  | inl hit ↦
      let e : n ≡ dst = (nat_beq_iff n dst).0 hit in
      rw (arrived, hit, e)
        (ground (
          arith,
          Memᴰ-arrived dst path p next (paths ++ (path ++ dst ∷ []) ∷ []),
          Memᴰ-append p paths ((path ++ dst ∷ []) ∷ []),
          Memᴰ-cons p (path ++ dst ∷ []) [],
          Memᴰ-cons dst dst next,
          (λ (m : Memᴰ p []). Memᴰ.not-nil m),
        ))
  | inr miss ↦
      let apart : dst ≢ n = λ e. ground (arith, nat_beq_iff n dst, miss, e) in
      rw (arrived, miss)
        (ground (arith, Memᴰ-arrived dst path p next paths, Memᴰ-cons dst n next, apart))
]

-- Two tests that agree on the next switches make the same round.
pub arrived_same :
    (is_dst : ℕ → Bool) (dst : ℕ) (path : Hops) (next : List ℕ) (paths : List Hops)
    → ((n : ℕ) → Memᴰ n next → is_dst n ≡ equals dst n)
    → arrived is_dst path next paths ≡ arrived (equals dst) path next paths
unfolding arrived
arrived_same is_dst dst path [] paths h = refl
arrived_same is_dst dst path (n ∷ next) paths h =
    rw (arrived, h n (Memᴰ.head refl))
      (arrived_same is_dst dst path next _ (λ m t. h m (Memᴰ.tail t)))

pub pushed_same :
    (is_dst : ℕ → Bool) (dst : ℕ) (path : Hops) (next : List ℕ) (stack : Stack)
    → ((n : ℕ) → Memᴰ n next → is_dst n ≡ equals dst n)
    → pushed is_dst path next stack ≡ pushed (equals dst) path next stack
unfolding pushed
pushed_same is_dst dst path [] stack h = refl
pushed_same is_dst dst path (n ∷ next) stack h =
    rw (pushed, h n (Memᴰ.head refl))
      (pushed_same is_dst dst path next _ (λ m t. h m (Memᴰ.tail t)))

-- An item that is new on the stack.
abbrev pub IsNew : ℕ → Hops → List ℕ → ℕ × Hops → Type 0
IsNew dst path next item =
    (n : ℕ) × Memᴰ n next × (n ≢ dst) × (◌≡◌ {A = ℕ × Hops} item (n, path ++ n ∷ []))

pub pushed-cases :
    (dst : ℕ) (path : Hops) (next : List ℕ) (stack : Stack) (item : ℕ × Hops)
    → Memᴰ item (pushed (equals dst) path next stack)
    → Memᴰ item stack ⊎ IsNew dst path next item
unfolding pushed
pushed-cases dst path [] stack item m = inl m
pushed-cases dst path (n ∷ next) stack item m = elim (Bool-cases (n == dst)) [
  | inl hit ↦ elim (pushed-cases dst path next stack item (rw (pushed, hit) at m)) [
    | inl k ↦ inl k
    | inr (j, k, on, e) ↦ inr (j, Memᴰ.tail k, on, e)
  ]
  | inr miss ↦
      let on : n ≢ dst = λ e. ground (arith, nat_beq_iff n dst, miss, e) in
      elim (pushed-cases dst path next ((n, path ++ n ∷ []) ∷ stack) item
        (rw (pushed, miss) at m)) [
          | inr (j, k, off, e) ↦ inr (j, Memᴰ.tail k, off, e)
          | inl k ↦ elim (Memᴰ.cases_cons k) [
            | inl e ↦ inr (n, Memᴰ.head refl, on, e)
            | inr t ↦ inl t
          ]
        ]
]

pub pushed-old :
    (dst : ℕ) (path : Hops) (next : List ℕ) (stack : Stack) (item : ℕ × Hops)
    → Memᴰ item stack
    → Memᴰ item (pushed (equals dst) path next stack)
unfolding pushed
pushed-old dst path [] stack item m = m
pushed-old dst path (n ∷ next) stack item m = elim (Bool-cases (n == dst)) [
  | inl hit ↦ rw (pushed, hit) (pushed-old dst path next stack item m)
  | inr miss ↦
      rw (pushed, miss) (pushed-old dst path next ((n, path ++ n ∷ []) ∷ stack) item (Memᴰ.tail m))
]

pub pushed-new :
    (dst : ℕ) (path : Hops) (next : List ℕ) (stack : Stack) (n : ℕ)
    → Memᴰ n next
    → n ≢ dst
    → Memᴰ (n, path ++ n ∷ []) (pushed (equals dst) path next stack)
unfolding pushed
pushed-new dst path [] stack n m on = absurd (Memᴰ.not-nil m)
pushed-new dst path (j ∷ next) stack n m on = elim (Bool-cases (j == dst)) [
  | inl hit ↦ elim (Memᴰ.cases_cons m) [
    | inl e ↦ absurd (on (e ∙ (nat_beq_iff j dst).0 hit))
    | inr t ↦ rw (pushed, hit) (pushed-new dst path next stack n t on)
  ]
  | inr miss ↦ elim (Memᴰ.cases_cons m) [
    | inl e ↦
        rw (pushed, miss)
          (pushed-old dst path next ((j, path ++ j ∷ []) ∷ stack) (n, path ++ n ∷ [])
            (Memᴰ.head (ap (λ x. (x, path ++ x ∷ [])) e)))
    | inr t ↦ rw (pushed, miss) (pushed-new dst path next ((j, path ++ j ∷ []) ∷ stack) n t on)
  ]
]
