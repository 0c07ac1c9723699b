-- ===== src/Prelude/Members.antt =====
-- Membership of a list, in the form that the proofs use.
use mathlib.Core.Path.{◌≡◌, refl}
use mathlib.Core.Logic.{◌⊎◌, inl, inr, ◌↔◌, ⊎_elim, ◌≢◌}
use mathlib.Core.List.{List, [], ◌∷◌, ◌++◌}
pub use mathlib.Core.List.{Memᴰ}
use mathlib.Core.List.Memᴰ
use native.Mathlib.Omega.{arith}
use comnetsemu.Prelude.Tests.{Eq, ◌==◌, if◌then◌else◌}
use comnetsemu.Prelude.Lists.{All}

module _ {ℓ} {A : Type ℓ} where
  pub Memᴰ-cons : (a x : A) (xs : List A) → Memᴰ a (x ∷ xs) ↔ ((a ≡ x) ⊎ Memᴰ a xs)
  Memᴰ-cons a x xs = (Memᴰ.cases_cons, ⊎_elim Memᴰ.head Memᴰ.tail)

  pub Memᴰ-append : (a : A) (xs ys : List A) → Memᴰ a (xs ++ ys) ↔ (Memᴰ a xs ⊎ Memᴰ a ys)
  Memᴰ-append a xs ys = (Memᴰ.append_cases xs, ⊎_elim (Memᴰ.append_left ys) (Memᴰ.append_right xs))

  pub All-at {κ} : (P : A → Type κ) (xs : List A) {a : A} → All P xs → Memᴰ a xs → P a
  All-at P [] h m = absurd (Memᴰ.not-nil m)
  All-at P (x ∷ xs) h m = elim (Memᴰ.cases_cons m) [ inl e ↦ rw e h.0 | inr t ↦ All-at P xs h.1 t ]

  pub All-each {κ} : (P : A → Type κ) (xs : List A) → ((a : A) → Memᴰ a xs → P a) → All P xs
  All-each P [] h = tt
  All-each P (x ∷ xs) h = (h x (Memᴰ.head refl), All-each P xs (λ a m. h a (Memᴰ.tail m)))

module _ {ℓ} {A : Type ℓ} ⦃e : Eq A⦄ where
  -- `[y for y in xs if y != a]`
  abbrev pub without : A → List A → List A
  without a [] = []
  without a (x ∷ xs) = if x == a then without a xs else x ∷ without a xs

  pub Memᴰ-without : (b a : A) (xs : List A) → Memᴰ b (without a xs) ↔ (Memᴰ b xs × (b ≢ a))
  Memᴰ-without b a [] = (λ m. absurd (Memᴰ.not-nil m), λ m. absurd (Memᴰ.not-nil m.0))
  Memᴰ-without b a (x ∷ xs) =
      ground
        (arith, e.same_iff x a, Memᴰ-cons b x xs, Memᴰ-cons b x (without a xs), Memᴰ-without b a xs)
