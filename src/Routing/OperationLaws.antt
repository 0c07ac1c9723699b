-- ===== src/Routing/OperationLaws.antt =====
-- What `retrieve_operations` of app/machine_learning_for_routing/controller/functions.py makes of the changes.
use comnetsemu.Prelude.{
  ℕ, ◌<◌, Bool, true, none, some, List, [], ◌∷◌, if◌then◌else◌, ◌==◌, nat_eq, nat_beq_iff, ltb,
  length, get_elem?, any, All, ◌≡◌, inl, inr, refl, sym, ap, ◌↔◌, arith, Option-cases, Bool-cases,
  get_elem?-some, Memᴰ,
}
use mathlib.Core.List.Memᴰ
use comnetsemu.Routing.Reroute.{Change}
use comnetsemu.Routing.Operations.{
  Lists, note_changes, add_operations, mod_operations, delete_switches, retrieve_operations,
}
use comnetsemu.Routing.Noted.{
  Reaches, HasRow, HasCol, Inserts, Deletes, Keeps, inserted, kept_at, removed,
  note_changes-delete_list,
}

-- The loops over `insert_list` and `mod_list` with their last test as a function.
abbrev emitted : List ℕ → (ℕ → Bool) → List ℕ → List (ℕ × ℕ)
emitted new_path test [] = []
emitted new_path test (e ∷ es) =
    let rest = emitted new_path test es in
    elim (get_elem? new_path e) [
      | none ↦ rest
      | some following ↦ if test e then (e, following) ∷ rest else rest
    ]

add_operations-emitted :
    (new_path es : List ℕ) → add_operations new_path es ≡ emitted new_path (λ e. ltb 1 e) es
unfolding add_operations
add_operations-emitted new_path [] = refl
add_operations-emitted new_path (e ∷ es) =
    ap
      (λ (rest : List (ℕ × ℕ)). elim (get_elem? new_path e) [
        | none ↦ rest
        | some following ↦ if ltb 1 e then (e, following) ∷ rest else rest
      ])
      (add_operations-emitted new_path es)

mod_operations-emitted :
    (new_path inserts es : List ℕ)
    → mod_operations new_path inserts es ≡ emitted new_path (λ e. any (λ i. i == e) inserts) es
unfolding mod_operations
mod_operations-emitted new_path inserts [] = refl
mod_operations-emitted new_path inserts (e ∷ es) =
    ap
      (λ (rest : List (ℕ × ℕ)). elim (get_elem? new_path e) [
        | none ↦ rest
        | some following ↦ if any (λ i. i == e) inserts then (e, following) ∷ rest else rest
      ])
      (mod_operations-emitted new_path inserts es)

any-Memᴰ : (x : ℕ) (l : List ℕ) → (any (λ i. i == x) l ≡ true) ↔ Memᴰ x l
any-Memᴰ x [] = (λ h. cc, λ m. absurd (Memᴰ.not-nil m))
any-Memᴰ x (y ∷ l) = elim (Bool-cases (y == x)) [
  | inl hit ↦ (λ h. Memᴰ.head (sym ((nat_beq_iff y x).0 hit)), λ m. rw hit refl)
  | inr miss ↦
      let (into, out) = any-Memᴰ x l in
      (
        λ h. Memᴰ.tail (into (rw miss at h)),
        λ m. elim (Memᴰ.cases_cons m) [
          | inl e ↦ let hit = (nat_beq_iff y x).1 (sym e) in absurd (cc)
          | inr t ↦ rw miss (out t)
        ],
      )
]

emitted-Memᴰ :
    (new_path : List ℕ) (test : ℕ → Bool) (i v : ℕ) (es : List ℕ)
    → Memᴰ (i, v) (emitted new_path test es)
      ↔ (Memᴰ i es × (test i ≡ true) × (get_elem? new_path i ≡ some v))
emitted-Memᴰ new_path test i v [] = (λ m. absurd (Memᴰ.not-nil m), λ h. absurd (Memᴰ.not-nil h.0))
emitted-Memᴰ new_path test i v (e ∷ es) =
    let (into, out) = emitted-Memᴰ new_path test i v es in
    elim (Option-cases (get_elem? new_path e)) [
      | inl gone ↦
          rw (emitted, gone)
            (
              λ m. let (k, t, g) = into m in (Memᴰ.tail k, t, g),
              λ h. elim (Memᴰ.cases_cons h.0) [
                | inl same ↦ let there = h.2 in let none_there = rw (← same) at gone in absurd (cc)
                | inr k ↦ out (k, h.1, h.2)
              ],
            )
      | inr (f, at) ↦ elim (Bool-cases (test e)) [
        | inl passed ↦
            rw (emitted, at, passed)
              (
                λ m. elim (Memᴰ.cases_cons m) [
                  | inl same ↦
                      let ei : i ≡ e = ap (λ (x : ℕ × ℕ). x.0) same in
                      let ev : v ≡ f = ap (λ (x : ℕ × ℕ). x.1) same in
                      (Memᴰ.head ei, rw ei passed, rw (ei, ev) at)
                  | inr k ↦ let (k', t, g) = into k in (Memᴰ.tail k', t, g)
                ],
                λ h. elim (Memᴰ.cases_cons h.0) [
                  | inl same ↦
                      let ev : v ≡ f = follows same h.2 at in Memᴰ.head (rw (same, ev) refl)
                  | inr k ↦ Memᴰ.tail (out (k, h.1, h.2))
                ],
              )
        | inr failed ↦
            rw (emitted, at, failed)
              (
                λ m. let (k, t, g) = into m in (Memᴰ.tail k, t, g),
                λ h. elim (Memᴰ.cases_cons h.0) [
                  | inl same ↦ let yes = h.1 in let not_yes = rw (← same) at failed in absurd (cc)
                  | inr k ↦ out (k, h.1, h.2)
                ],
              )
      ]
    ]
  where
    follows :
        {f : ℕ} → i ≡ e → get_elem? new_path i ≡ some v → get_elem? new_path e ≡ some f → v ≡ f
    follows same g at = let h = rw same at g in ground (arith, h, at)

delete_switches-Memᴰ :
    (old_path delete_list : List ℕ)
    → All (λ c. c < length old_path) delete_list
    → (s : List ℕ) × (delete_switches old_path delete_list ≡ some s)
      × ((w : ℕ) → Memᴰ w s ↔ ((c : ℕ) × Memᴰ c delete_list × (get_elem? old_path c ≡ some w)))
unfolding delete_switches
delete_switches-Memᴰ old_path [] h =
    ([], refl, λ w. (λ m. absurd (Memᴰ.not-nil m), λ k. absurd (Memᴰ.not-nil k.1)))
delete_switches-Memᴰ old_path (c ∷ cs) h =
    let (x, e) = get_elem?-some old_path c h.0 in
    let (s, f, spec) = delete_switches-Memᴰ old_path cs h.1 in
    (
      x ∷ s,
      rw (e, f) refl,
      λ w. (
        λ m. elim (Memᴰ.cases_cons m) [
          | inl same ↦ (c, Memᴰ.head refl, rw same e)
          | inr t ↦ let (d, k, g) = (spec w).0 t in (d, Memᴰ.tail k, g)
        ],
        λ (d, k, g). elim (Memᴰ.cases_cons k) [
          | inl same ↦ let g' = rw same at g in Memᴰ.head (ground (arith, g', e))
          | inr t ↦ Memᴰ.tail ((spec w).1 (d, t, g))
        ],
      ),
    )

-- If each change that takes a switch out of the old path has a column below the path's length, then
-- `retrieve_operations` comes to its end. It adds a flow from a row exactly if the row is above 1, a change puts a
-- switch in there and the new path has one at the row, which the flow leads to. It changes a flow at a row exactly if
-- there are both a change that keeps the switch and one that puts one in at it, toward the switch of the new path
-- there. It lists exactly the switches of the old path at the columns of the changes that take one out.
pub retrieve_operations-IsNext :
    (changes : List Change) (new_path old_path : List ℕ)
    → All (λ c. Reaches (length old_path) c.operation c.col) changes
    → (adds mods : List (ℕ × ℕ)) × (switches : List ℕ) × (retrieve_operations changes new_path
          old_path
        ≡ some (adds, mods, switches))
      × ((i v : ℕ)
          → Memᴰ (i, v) adds
            ↔ (HasRow Inserts i changes × (1 < i) × (get_elem? new_path i ≡ some v)))
      × ((i v : ℕ)
          → Memᴰ (i, v) mods
            ↔ (HasRow Keeps i changes × HasRow Inserts i changes × (get_elem? new_path i ≡ some v)))
      × ((w : ℕ)
          → Memᴰ w switches
            ↔ ((c : ℕ) × HasCol Deletes c changes × (get_elem? old_path c ≡ some w)))
unfolding retrieve_operations
retrieve_operations-IsNext changes new_path old_path h =
    let start : Lists = record { mod_list = []; insert_list = []; delete_list = [] } in
    let l = note_changes changes start in
    let (s, e, spec) =
      delete_switches-Memᴰ old_path l.delete_list
        (note_changes-delete_list (length old_path) changes start h tt) in
    (
      add_operations new_path l.insert_list,
      mod_operations new_path l.insert_list l.mod_list,
      s,
      rw e refl,
      λ i v. rw (add_operations-emitted new_path l.insert_list) (
          ground
            (arith, emitted-Memᴰ new_path (λ x. ltb 1 x) i v l.insert_list, inserted changes i)),
      λ i v. rw (mod_operations-emitted new_path l.insert_list l.mod_list) (
          ground (
            arith,
            emitted-Memᴰ new_path (λ x. any (λ j. j == x) l.insert_list) i v l.mod_list,
            any-Memᴰ i l.insert_list,
            inserted changes i,
            kept_at changes i,
          )),
      λ w. (
        λ m. let (c, k, g) = (spec w).0 m in (c, (removed changes c).0 k, g),
        λ (c, k, g). (spec w).1 (c, (removed changes c).1 k, g),
      ),
    )
