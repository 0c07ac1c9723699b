-- ===== src/Learning/PathSearch.antt =====
-- The search of `get_paths` of learning_module.py against the simple paths.
use comnetsemu.Prelude.{
  ℕ, Bool, zero, suc, ◌≤◌, false, ◌==◌, nat_eq, nat_beq_iff, List, [], ◌∷◌, ◌++◌, some, length, ◌≡◌,
  ◌≢◌, ◌⊎◌, ◌↔◌, inl, inr, refl, sym, subst, arith, Memᴰ, Bool-cases, beq_ne,
}
use mathlib.Core.List.Memᴰ
use comnetsemu.Prelude.Dict.{Dict, lookup}
use comnetsemu.Learning.Data.{Hops, done}
use comnetsemu.Learning.Search.{Stack, link_ends, outside, pushed, arrived, search, get_paths}
use comnetsemu.Learning.SearchLaws.{
  rounds_for, rounds_of, left, equals, rounds_for_pos, Memᴰ-outside, pushed-rounds_of,
}
use comnetsemu.Learning.Routes.{
  IsRoute, arrived_same, pushed_same, IsRoute-Goes, Goes-IsRoute, Memᴰ-arrived, pushed-cases,
  pushed-old, pushed-new,
}

module _ {V : Type 0} (links : Dict ℕ (Dict ℕ V)) where
  abbrev pub IsKnown : ℕ → Type 0
  IsKnown n = (row : Dict ℕ V) × (lookup n links ≡ some row)

  -- Each end of a link is a switch of the dict.
  abbrev pub IsClosed : Type 0
  IsClosed =
      (n m : ℕ) (row : Dict ℕ V) → lookup n links ≡ some row → Memᴰ m (link_ends row) → IsKnown m

  -- The ids of the switches are at most 256.
  abbrev pub HasSmallKeys : Type 0
  HasSmallKeys = (n : ℕ) → IsKnown n → n ≤ 256

  -- No switch has more than `d` links.
  abbrev pub HasDegree : ℕ → Type 0
  HasDegree d = (n : ℕ) (row : Dict ℕ V) → lookup n links ≡ some row → length (link_ends row) ≤ d

lookup-link_ends :
    {V : Type 0} (n : ℕ) (v : V) (d : Dict ℕ V) → lookup n d ≡ some v → Memᴰ n (link_ends d)
unfolding lookup link_ends
lookup-link_ends n v [] h = absurd (cc)
lookup-link_ends n v ((k, w) ∷ d) h = elim (Bool-cases (k == n)) [
  | inl same ↦ Memᴰ.head (sym ((nat_beq_iff k n).0 same))
  | inr other ↦ Memᴰ.tail (lookup-link_ends n v d (rw (lookup, other) at h))
]

module _ {V : Type 0} (links : Dict ℕ (Dict ℕ V)) (dst d : ℕ) (closed : IsClosed links)
    (degree : HasDegree links d) where
  -- Equal numbers up to 256 are one object in CPython, so that the test for `dst` among them is that of the numbers.
  abbrev pub AreInterned : (ℕ → ℕ → Bool) → Type 0
  AreInterned is_dst = (node n : ℕ) → n ≤ 256 → is_dst node n ≡ equals dst n

  abbrev IsOnStack : Stack → Hops → Type 0
  IsOnStack stack p = (item : ℕ × Hops) × Memᴰ item stack × IsRoute links dst item.0 item.1 p

  abbrev AreKnown : Stack → Type 0
  AreKnown stack = (item : ℕ × Hops) → Memᴰ item stack → IsKnown links item.0

  -- What the search gives: the paths that it has, and the routes of its stack.
  abbrev Finds : Stack → List Hops → List Hops → Type 0
  Finds stack paths found = (p : Hops) → Memᴰ p found ↔ (Memᴰ p paths ⊎ IsOnStack stack p)

  pushed-AreKnown :
      (node : ℕ) (path : Hops) (row : Dict ℕ V) (stack : Stack)
      → lookup node links ≡ some row
      → AreKnown ((node, path) ∷ stack)
      → AreKnown (pushed (equals dst) path (outside (link_ends row) path) stack)
  pushed-AreKnown node path row stack h known item m =
      elim (pushed-cases dst path (outside (link_ends row) path) stack item m) [
        | inl k ↦ known item (Memᴰ.tail k)
        | inr (n, k, on, e) ↦
            let (t, out) = Memᴰ-outside n (link_ends row) path k in rw e (closed node n row h t)
      ]

  round-Finds :
      (node : ℕ) (path : Hops) (row : Dict ℕ V) (stack : Stack) (paths found : List Hops)
      → lookup node links ≡ some row
      → Finds
          (pushed (equals dst) path (outside (link_ends row) path) stack)
          (arrived (equals dst) path (outside (link_ends row) path) paths)
          found
      → Finds ((node, path) ∷ stack) paths found
  round-Finds node path row stack paths found h spec p =
      (into ((spec p).0), λ k. (spec p).1 (out k))
    where
      into :
          (Memᴰ p found
            → Memᴰ p (arrived (equals dst) path (outside (link_ends row) path) paths)
              ⊎ IsOnStack (pushed (equals dst) path (outside (link_ends row) path) stack) p)
          → Memᴰ p found
          → Memᴰ p paths ⊎ IsOnStack ((node, path) ∷ stack) p
      into back m = elim (back m) [
        | inl k ↦ elim ((Memᴰ-arrived dst path p (outside (link_ends row) path) paths).0 k) [
          | inl old ↦ inl old
          | inr there ↦
              inr
                ((node, path), Memᴰ.head refl, Goes-IsRoute links dst node path row p h (inl there))
        ]
        | inr (item, k, route) ↦
            elim (pushed-cases dst path (outside (link_ends row) path) stack item k) [
              | inl old ↦ inr (item, Memᴰ.tail old, route)
              | inr (n, t, on, e) ↦
                  let onward : IsRoute links dst n (path ++ n ∷ []) p =
                    subst (λ (x : ℕ × Hops). IsRoute links dst x.0 x.1 p) e route in
                  inr (
                    (node, path),
                    Memᴰ.head refl,
                    Goes-IsRoute links dst node path row p h (inr (n, t, on, onward)),
                  )
            ]
      ]

      out :
          Memᴰ p paths ⊎ IsOnStack ((node, path) ∷ stack) p
          → Memᴰ p (arrived (equals dst) path (outside (link_ends row) path) paths)
            ⊎ IsOnStack (pushed (equals dst) path (outside (link_ends row) path) stack) p
      out (inl old) =
          inl ((Memᴰ-arrived dst path p (outside (link_ends row) path) paths).1 (inl old))
      out (inr (item, k, route)) = elim (Memᴰ.cases_cons k) [
        | inr t ↦ inr (item, pushed-old dst path (outside (link_ends row) path) stack item t, route)
        | inl e ↦
            let here : IsRoute links dst node path p =
              subst (λ (x : ℕ × Hops). IsRoute links dst x.0 x.1 p) e route in
            elim (IsRoute-Goes links dst node path row p h here) [
              | inl there ↦
                  inl ((Memᴰ-arrived dst path p (outside (link_ends row) path) paths).1 (inr there))
              | inr (n, t, on, onward) ↦ inr (
                (n, path ++ n ∷ []),
                pushed-new dst path (outside (link_ends row) path) stack n t on,
                onward,
              )
            ]
      ]

  search-Finds :
      (is_dst : ℕ → ℕ → Bool)
      → AreInterned is_dst
      → HasSmallKeys links
      → (rounds : ℕ) (stack : Stack) (paths : List Hops) → AreKnown stack
      → rounds_of d (link_ends links) stack ≤ rounds
      → (found : List Hops) × (search links is_dst rounds stack paths ≡ some (done found))
        × Finds stack paths found
  unfolding search
  search-Finds is_dst interned small zero [] paths known enough = (
    paths,
    refl,
    λ p. (λ m. inl m, λ k. elim k [ inl m ↦ m | inr s ↦ absurd (Memᴰ.not-nil s.1) ]),
  )
  search-Finds is_dst interned small (suc rounds) [] paths known enough = (
    paths,
    refl,
    λ p. (λ m. inl m, λ k. elim k [ inl m ↦ m | inr s ↦ absurd (Memᴰ.not-nil s.1) ]),
  )
  search-Finds is_dst interned small zero ((node, path) ∷ stack) paths known enough =
      let pos = rounds_for_pos d (left path (link_ends links)) in
      absurd (omega (arith, pos, enough))
  search-Finds is_dst interned small (suc rounds) ((node, path) ∷ stack) paths known enough =
      let (row, h) = known (node, path) (Memᴰ.head refl) in
      let next = outside (link_ends row) path in
      let less =
        pushed-rounds_of d (link_ends links) dst node path (link_ends row) stack (degree node row h)
          (λ n m. let (r', k) = closed node n row h m in lookup-link_ends n r' links k) in
      let (found, e, spec) =
        search-Finds is_dst interned small rounds (pushed (equals dst) path next stack)
          (arrived (equals dst) path next paths) (pushed-AreKnown node path row stack h known)
          (omega (arith, less, enough)) in
      let same : (n : ℕ) → Memᴰ n next → is_dst node n ≡ equals dst n = λ n m.
        let (t, _) = Memᴰ-outside n (link_ends row) path m in
        interned node n (small n (closed node n row h t)) in
      (
        found,
        rw
            (
              search,
              h,
              pushed_same (is_dst node) dst path next stack same,
              arrived_same (is_dst node) dst path next paths same,
            )
            e,
        round-Finds node path row stack paths found h spec,
      )

  -- If each end of a link is a known switch, no switch has more than `d` links, the ids of the switches are at most
  -- 256, and equal numbers up to 256 are one object, then between two switches `get_paths` comes to an end in the given number of rounds, and it finds exactly the simple paths from the one to the other.
  pub get_paths-IsRoute :
      (is_dst : ℕ → ℕ → Bool) (rounds src : ℕ)
      → AreInterned is_dst
      → HasSmallKeys links
      → IsKnown links src
      → src ≢ dst
      → rounds_for d (left (src ∷ []) (link_ends links)) ≤ rounds
      → (found : List Hops) × (get_paths links is_dst dst rounds src ≡ some (done found))
        × ((p : Hops) → Memᴰ p found ↔ IsRoute links dst src (src ∷ []) p)
  unfolding get_paths
  get_paths-IsRoute is_dst rounds src interned small known apart enough =
      let (found, e, spec) =
        search-Finds is_dst interned small rounds ((src, src ∷ []) ∷ []) []
          (λ item m. rw (Memᴰ.eq_of_singleton m) known) (omega (arith, enough)) in
      let differ : (src == dst) ≡ false = beq_ne src dst apart in
      (
        found,
        rw (get_paths, differ) e,
        λ p. (
          λ m. elim ((spec p).0 m) [
            | inl k ↦ absurd (Memᴰ.not-nil k)
            | inr (item, k, route) ↦
                subst (λ (x : ℕ × Hops). IsRoute links dst x.0 x.1 p) (Memᴰ.eq_of_singleton k) route
          ],
          λ route. (spec p).1 (inr ((src, src ∷ []), Memᴰ.head refl, route)),
        ),
      )
