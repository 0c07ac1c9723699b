-- ===== src/Learning/KickOut.antt =====
-- The loop of `get_actions_for_states` (learning_module.py) that takes the chosen path out of a list while it runs
-- over that list.
use comnetsemu.Prelude.{
  ℕ, zero, suc, ◌+◌, ◌≤◌, true, false, ◌==◌, nat_eq, list_eq, List, [], ◌∷◌, ◌++◌, length,
  get_elem?, ◌≡◌, ◌≢◌, inl, inr, refl, sym, ap, ◌∙◌, arith, without, All, All-append, IsNodup,
  length-append, Bool-cases, Option-cases, get_elem?-at, All-get_elem?, list_beq_iff,
}
use mathlib.Core.List.{append_assoc}
use comnetsemu.Learning.Data.{Hops}
use comnetsemu.Learning.Spaces.{remove_first, kick_out}

module _ (chosen : Hops) where
  -- The chosen path is not in the list.
  abbrev IsAbsent : List Hops → Type 0
  IsAbsent = All (λ p. (p == chosen) ≡ false)

  without_absent : (l : List Hops) → IsAbsent l → without chosen l ≡ l
  without_absent [] h = refl
  without_absent (x ∷ l) h = rw h.0 (ap (λ t. x ∷ t) (without_absent l h.1))

  remove_first-append :
      (pre l : List Hops) (x : Hops)
      → IsAbsent pre
      → (x == chosen) ≡ true
      → remove_first (λ p. p == chosen) (pre ++ x ∷ l) ≡ pre ++ l
  unfolding remove_first
  remove_first-append [] l x h e = rw e refl
  remove_first-append (y ∷ pre) l x h e =
      rw h.0 (ap (λ t. y ∷ t) (remove_first-append pre l x h.1 e))

  kick_out_absent : (rounds at : ℕ) (l : List Hops) → IsAbsent l → kick_out rounds chosen at l ≡ l
  unfolding kick_out
  kick_out_absent zero at l h = refl
  kick_out_absent (suc rounds) at l h = elim (Option-cases (get_elem? l at)) [
    | inl out ↦ rw (kick_out, out) refl
    | inr (x, e) ↦
        let other : (x == chosen) ≡ false = All-get_elem? (λ p. (p == chosen) ≡ false) l at h e in
        rw (kick_out, e, other) (kick_out_absent rounds (at + 1) l h)
  ]

  Nodup-IsAbsent :
      (x : Hops) (l : List Hops) → (x == chosen) ≡ true → All (λ y. x ≢ y) l → IsAbsent l
  Nodup-IsAbsent x [] e h = tt
  Nodup-IsAbsent x (y ∷ l) e h =
      (ground (arith, list_beq_iff x chosen, list_beq_iff y chosen, h.0), Nodup-IsAbsent x l e h.1)

  kick_out-without_from :
      (l pre : List Hops) (rounds : ℕ)
      → IsAbsent pre
      → IsNodup l
      → length l ≤ rounds
      → kick_out rounds chosen (length pre) (pre ++ l) ≡ pre ++ without chosen l
  unfolding kick_out
  kick_out-without_from [] pre zero h d le = refl
  kick_out-without_from [] pre (suc rounds) h d le = rw (kick_out, get_elem?-at pre []) refl
  kick_out-without_from (x ∷ l) pre zero h d le = absurd (omega arith)
  kick_out-without_from (x ∷ l) pre (suc rounds) h d le = elim (Bool-cases (x == chosen)) [
    | inl same ↦
        let absent : IsAbsent l = Nodup-IsAbsent x l same d.0 in
        rw
          (
            kick_out,
            get_elem?-at pre (x ∷ l),
            same,
            remove_first-append pre l x h same,
            without_absent l absent,
          )
          (kick_out_absent rounds (length pre + 1) (pre ++ l)
            (All-append (λ p. (p == chosen) ≡ false) pre l h absent))
    | inr other ↦
        let more : length (pre ++ x ∷ []) ≡ length pre + 1 = length-append pre (x ∷ []) in
        rw (kick_out, get_elem?-at pre (x ∷ l), other, ← more)
          (ap (kick_out rounds chosen (length (pre ++ x ∷ []))) (sym (append_assoc pre (x ∷ []) l))
            ∙ kick_out-without_from l (pre ++ x ∷ []) rounds
                (All-append (λ p. (p == chosen) ≡ false) pre (x ∷ []) h (other, tt)) d.1
                (omega arith)
            ∙ append_assoc pre (x ∷ []) (without chosen l))
  ]

  -- On a list without repetition the loop leaves exactly the other paths.
  pub kick_out-without :
      (l : List Hops) → IsNodup l → kick_out (length l) chosen 0 l ≡ without chosen l
  kick_out-without l d = kick_out-without_from l [] (length l) tt d (omega arith)
