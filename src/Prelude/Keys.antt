-- ===== src/Prelude/Keys.antt =====
-- A dict has no key twice.
use mathlib.Core.Path.{◌≡◌, refl, ap}
use mathlib.Core.Option.{none, some}
use mathlib.Core.List.{[], ◌∷◌}
use mathlib.Core.List.Memᴰ
use native.Mathlib.Omega.{arith}
use mathlib.Core.Logic.{inl, inr}
use comnetsemu.Prelude.Tests.{Eq, ◌==◌, Bool-cases, beq_refl}
use comnetsemu.Prelude.Dict.{Dict, lookup, insert, lookup-insert}
use comnetsemu.Prelude.Members.{Memᴰ}

module _ {ℓ κ} {K : Type ℓ} {V : Type κ} ⦃e : Eq K⦄ where
  abbrev pub HasDistinctKeys : Dict K V → Type κ
  HasDistinctKeys [] = Unit
  HasDistinctKeys ((k, v) ∷ d) = (lookup k d ≡ none) × HasDistinctKeys d

  pub HasDistinctKeys-insert :
      (k : K) (v : V) (d : Dict K V) → HasDistinctKeys d → HasDistinctKeys (insert k v d)
  unfolding lookup insert
  HasDistinctKeys-insert k v [] h = (refl, tt)
  HasDistinctKeys-insert k v ((j, w) ∷ d) h = elim (Bool-cases (j == k)) [
    | inl same ↦ rw same h
    | inr other ↦
        let apart : lookup j (insert k v d) ≡ none =
          ground (arith, lookup-insert k j v d, e.same_iff k j, e.same_iff j k, h.0) in
        rw other (apart, HasDistinctKeys-insert k v d h.1)
  ]

  pub lookup-Memᴰ : (k : K) (v : V) (d : Dict K V) → lookup k d ≡ some v → Memᴰ (k, v) d
  unfolding lookup
  lookup-Memᴰ k v [] h = absurd (cc)
  lookup-Memᴰ k v ((j, w) ∷ d) h = elim (Bool-cases (j == k)) [
    | inl same ↦
        let ej : j ≡ k = (e.same_iff j k).0 same in
        let ew : w ≡ v = ground arith in Memᴰ.head (rw (ej, ew) refl)
    | inr other ↦ Memᴰ.tail (lookup-Memᴰ k v d (ground arith))
  ]

  pub Memᴰ-lookup :
      (k : K) (v : V) (d : Dict K V) → HasDistinctKeys d → Memᴰ (k, v) d → lookup k d ≡ some v
  unfolding lookup
  Memᴰ-lookup k v [] h m = absurd (Memᴰ.not-nil m)
  Memᴰ-lookup k v ((j, w) ∷ d) h m = elim (Memᴰ.cases_cons m) [
    | inl q ↦
        let ej : k ≡ j = ap (λ (x : K × V). x.0) q in
        let ew : v ≡ w = ap (λ (x : K × V). x.1) q in rw (ej, ew, lookup, beq_refl j) refl
    | inr t ↦ elim (Bool-cases (j == k)) [
      | inl same ↦
          let ej : j ≡ k = (e.same_iff j k).0 same in
          let there : lookup k d ≡ some v = Memᴰ-lookup k v d h.1 t in
          let gone : lookup k d ≡ none = rw (← ej) h.0 in absurd (cc)
      | inr other ↦ rw (lookup, other) (Memᴰ-lookup k v d h.1 t)
    ]
  ]
