-- ===== src/Routing/Noted.antt =====
-- The lists that the first loop of `retrieve_operations` (app/machine_learning_for_routing/controller/functions.py) notes.
use comnetsemu.Prelude.{
  ℕ, ◌<◌, List, [], ◌∷◌, ◌++◌, nat_eq, All, All-append, ◌≡◌, inl, inr, refl, sym, ◌⊎◌, ◌↔◌, subst,
  Memᴰ, Memᴰ-append,
}
use mathlib.Core.List.Memᴰ
use comnetsemu.Routing.Reroute.{Operation, no_change, substitution, insertion, deletion, Change}
use comnetsemu.Routing.Operations.{Lists, note_change, note_changes}

-- Of the operations, two take a switch out of the old path, at a column that has to be below `n`.
abbrev pub Reaches : ℕ → Operation → ℕ → Type 0
Reaches n no_change col = Unit
Reaches n substitution col = col < n
Reaches n insertion col = Unit
Reaches n deletion col = col < n

-- The operations that put a switch into the new path, those that take one out of the old path, and the one that does
-- neither.
abbrev pub Inserts : Operation → Type 0
Inserts no_change = ⊥
Inserts substitution = Unit
Inserts insertion = Unit
Inserts deletion = ⊥

abbrev pub Deletes : Operation → Type 0
Deletes no_change = ⊥
Deletes substitution = Unit
Deletes insertion = ⊥
Deletes deletion = Unit

abbrev pub Keeps : Operation → Type 0
Keeps no_change = Unit
Keeps substitution = ⊥
Keeps insertion = ⊥
Keeps deletion = ⊥

-- There is a change of such an operation at the row, or at the column.
abbrev pub HasRow : (Operation → Type 0) → ℕ → List Change → Type 0
HasRow P i changes = (c : Change) × Memᴰ c changes × P c.operation × (c.row ≡ i)

abbrev pub HasCol : (Operation → Type 0) → ℕ → List Change → Type 0
HasCol P i changes = (c : Change) × Memᴰ c changes × P c.operation × (c.col ≡ i)

abbrev added : (x y : ℕ) (l : List ℕ) → Memᴰ x (l ++ y ∷ []) ↔ (Memᴰ x l ⊎ (Unit {0} × (y ≡ x)))
added x y l = (
  λ m. elim ((Memᴰ-append x l (y ∷ [])).0 m) [
    | inl k ↦ inl k
    | inr k ↦ inr (tt, sym (Memᴰ.eq_of_singleton k))
  ],
  λ h. elim h [
    | inl k ↦ (Memᴰ-append x l (y ∷ [])).1 (inl k)
    | inr (u, e) ↦ (Memᴰ-append x l (y ∷ [])).1 (inr (Memᴰ.head (sym e)))
  ],
)

abbrev kept : {P : Type 0} (x : ℕ) (l : List ℕ) → Memᴰ x l ↔ (Memᴰ x l ⊎ (⊥ × P))
kept x l = (λ m. inl m, λ h. elim h [ inl k ↦ k | inr k ↦ absurd k.0 ])

note_change-insert_list :
    (x : ℕ) (change : Change) (l : Lists) (op : Operation)
    → change.operation ≡ op
    → Memᴰ x (note_change change l).insert_list
      ↔ (Memᴰ x l.insert_list ⊎ (Inserts op × (change.row ≡ x)))
unfolding note_change
note_change-insert_list x change l no_change e = rw e (kept x l.insert_list)
note_change-insert_list x change l substitution e = rw e (added x change.row l.insert_list)
note_change-insert_list x change l insertion e = rw e (added x change.row l.insert_list)
note_change-insert_list x change l deletion e = rw e (kept x l.insert_list)

note_change-removals :
    (x : ℕ) (change : Change) (l : Lists) (op : Operation)
    → change.operation ≡ op
    → Memᴰ x (note_change change l).delete_list
      ↔ (Memᴰ x l.delete_list ⊎ (Deletes op × (change.col ≡ x)))
unfolding note_change
note_change-removals x change l no_change e = rw e (kept x l.delete_list)
note_change-removals x change l substitution e = rw e (added x change.col l.delete_list)
note_change-removals x change l insertion e = rw e (kept x l.delete_list)
note_change-removals x change l deletion e = rw e (added x change.col l.delete_list)

note_change-mod_list :
    (x : ℕ) (change : Change) (l : Lists) (op : Operation)
    → change.operation ≡ op
    → Memᴰ x (note_change change l).mod_list ↔ (Memᴰ x l.mod_list ⊎ (Keeps op × (change.row ≡ x)))
unfolding note_change
note_change-mod_list x change l no_change e = rw e (added x change.row l.mod_list)
note_change-mod_list x change l substitution e = rw e (kept x l.mod_list)
note_change-mod_list x change l insertion e = rw e (kept x l.mod_list)
note_change-mod_list x change l deletion e = rw e (kept x l.mod_list)

-- One of the three lists, where a round appends the number of a change of such an operation.
note_changes-Memᴰ :
    (list : Lists → List ℕ) (P : Operation → Type 0) (number : Change → ℕ) (x : ℕ)
    → ((change : Change) (l : Lists)
        → Memᴰ x (list (note_change change l))
          ↔ (Memᴰ x (list l) ⊎ (P change.operation × (number change ≡ x))))
    → (changes : List Change) (l : Lists)
    → Memᴰ x (list (note_changes changes l))
      ↔ (Memᴰ x (list l) ⊎ ((c : Change) × Memᴰ c changes × P c.operation × (number c ≡ x)))
unfolding note_changes
note_changes-Memᴰ list P number x step [] l =
    (λ m. inl m, λ h. elim h [ inl k ↦ k | inr k ↦ absurd (Memᴰ.not-nil k.1) ])
note_changes-Memᴰ list P number x step (change ∷ changes) l =
    let (into, out) = note_changes-Memᴰ list P number x step changes (note_change change l) in
    (
      λ m. elim (into m) [
        | inl k ↦ elim ((step change l).0 k) [
          | inl old ↦ inl old
          | inr (p, e) ↦ inr (change, Memᴰ.head refl, p, e)
        ]
        | inr (c, k, p, e) ↦ inr (c, Memᴰ.tail k, p, e)
      ],
      λ h. elim h [
        | inl old ↦ out (inl ((step change l).1 (inl old)))
        | inr (c, k, p, e) ↦ elim (Memᴰ.cases_cons k) [
          | inl same ↦
              let here : P change.operation × (number change ≡ x) =
                subst (λ (d : Change). P d.operation × (number d ≡ x)) same (p, e) in
              out (inl ((step change l).1 (inr here)))
          | inr t ↦ out (inr (c, t, p, e))
        ]
      ],
    )

note_change-delete_list :
    (n : ℕ) (change : Change) (l : Lists) (op : Operation)
    → change.operation ≡ op
    → Reaches n op change.col
    → All (λ c. c < n) l.delete_list
    → All (λ c. c < n) (note_change change l).delete_list
unfolding note_change
note_change-delete_list n change l no_change e h k = rw e k
note_change-delete_list n change l substitution e h k =
    rw e (All-append (λ c. c < n) l.delete_list (change.col ∷ []) k (h, tt))
note_change-delete_list n change l insertion e h k = rw e k
note_change-delete_list n change l deletion e h k =
    rw e (All-append (λ c. c < n) l.delete_list (change.col ∷ []) k (h, tt))

pub note_changes-delete_list :
    (n : ℕ) (changes : List Change) (l : Lists)
    → All (λ c. Reaches n c.operation c.col) changes
    → All (λ c. c < n) l.delete_list
    → All (λ c. c < n) (note_changes changes l).delete_list
unfolding note_changes
note_changes-delete_list n [] l h k = k
note_changes-delete_list n (change ∷ changes) l h k =
    note_changes-delete_list n changes (note_change change l) h.1
      (note_change-delete_list n change l change.operation refl h.0 k)

abbrev nothing : Lists
nothing = record { mod_list = []; insert_list = []; delete_list = [] }

only_new : {P : Type 0} (x : ℕ) → (Memᴰ x [] ⊎ P) ↔ P
only_new x = (λ h. elim h [ inl m ↦ absurd (Memᴰ.not-nil m) | inr p ↦ p ], λ p. inr p)

pub inserted :
    (changes : List Change) (i : ℕ)
    → Memᴰ i (note_changes changes nothing).insert_list ↔ HasRow Inserts i changes
inserted changes i =
    let h =
      note_changes-Memᴰ (λ l. l.insert_list) Inserts (λ c. c.row) i
        (λ c l. note_change-insert_list i c l c.operation refl) changes nothing in
    (λ m. (only_new i).0 (h.0 m), λ k. h.1 ((only_new i).1 k))

pub kept_at :
    (changes : List Change) (i : ℕ)
    → Memᴰ i (note_changes changes nothing).mod_list ↔ HasRow Keeps i changes
kept_at changes i =
    let h =
      note_changes-Memᴰ (λ l. l.mod_list) Keeps (λ c. c.row) i
        (λ c l. note_change-mod_list i c l c.operation refl) changes nothing in
    (λ m. (only_new i).0 (h.0 m), λ k. h.1 ((only_new i).1 k))

pub removed :
    (changes : List Change) (i : ℕ)
    → Memᴰ i (note_changes changes nothing).delete_list ↔ HasCol Deletes i changes
removed changes i =
    let h =
      note_changes-Memᴰ (λ l. l.delete_list) Deletes (λ c. c.col) i
        (λ c l. note_change-removals i c l c.operation refl) changes nothing in
    (λ m. (only_new i).0 (h.0 m), λ k. h.1 ((only_new i).1 k))
