-- ===== src/Manager/Synced.antt =====
-- The invariant of the manager's three registers (comnetsemu/net.py: `_container_queue`,
-- `_name_container_map`, `net._appcontainers`).
use comnetsemu.Prelude.{ℕ, ◌+◌, ◌≤◌, ◌<◌, String, none, some}
use comnetsemu.Prelude.{
  List, [], ◌∷◌, ◌++◌, if◌then◌else◌, ◌==◌, string_eq, nat_eq, ◌≡◌, refl, sym, ◌∙◌, ap, arith, ◌≢◌,
}
use comnetsemu.Prelude.{Bool-cases, inl, inr, All}
use comnetsemu.Prelude.Dict.{lookup, erase, lookup-insert, lookup-erase}
use comnetsemu.Manager.Data.{AppContainer, ok}
use comnetsemu.Manager.State.{Manager, find_name, remove_object, names, remove_name}
use comnetsemu.Manager.Container.{register, unregister, remove_from_queue, remove_from_net}
use text.Mathlib.TextEquality.{eq_iff}

module _ {I : Type 0} where
  -- No two entries share a name or are one object.
  abbrev pub IsDistinct : List (AppContainer I) → Type 0
  IsDistinct [] = Unit
  IsDistinct (c ∷ cs) =
      (find_name c.name cs ≡ none) × (remove_object c.oid cs ≡ none) × IsDistinct cs

  abbrev pub OldObjects : ℕ → List (AppContainer I) → Type 0
  OldObjects next q = All (λ c. c.oid < next) q

  pub find_name-append :
      (n : String) (q : List (AppContainer I)) (c : AppContainer I)
      → find_name c.name q ≡ none
      → find_name n (q ++ c ∷ []) ≡ (if c.name == n then some c else find_name n q)
  unfolding find_name
  find_name-append n [] c h = refl
  find_name-append n (x ∷ q) c h =
      ground (arith, eq_iff c.name n, eq_iff x.name n, eq_iff x.name c.name, find_name-append n q c)

  pub names-append :
      (q : List (AppContainer I)) (c : AppContainer I)
      → names (q ++ c ∷ []) ≡ names q ++ c.name ∷ []
  unfolding names
  names-append [] c = refl
  names-append (x ∷ q) c = ap (λ t. x.name ∷ t) (names-append q c)

  remove_object-append :
      (i : ℕ) (q : List (AppContainer I)) (c : AppContainer I)
      → remove_object i q ≡ none
      → i ≢ c.oid
      → remove_object i (q ++ c ∷ []) ≡ none
  unfolding remove_object
  remove_object-append i [] c h ne = ground arith
  remove_object-append i (x ∷ q) c h ne = ground (arith, remove_object-append i q c)

  -- The queue without the first entry of that name.
  pub drop_name : String → List (AppContainer I) → List (AppContainer I)
  drop_name n [] = []
  drop_name n (c ∷ q) = if c.name == n then q else c ∷ drop_name n q

  pub name-find_name :
      (n : String) (q : List (AppContainer I)) (c : AppContainer I)
      → find_name n q ≡ some c
      → c.name ≡ n
  unfolding find_name
  name-find_name n [] c e = cc
  name-find_name n (x ∷ q) c e = ground (arith, eq_iff x.name n, name-find_name n q c)

  pub remove_object-drop_name :
      (n : String) (q : List (AppContainer I)) (c : AppContainer I)
      → IsDistinct q
      → find_name n q ≡ some c
      → remove_object c.oid q ≡ some (drop_name n q)
  unfolding find_name remove_object drop_name
  remove_object-drop_name n [] c h e = cc
  remove_object-drop_name n (x ∷ q) c h e = elim (Bool-cases (x.name == n)) [
    | inl same ↦ ground arith
    | inr other ↦
        let rest : remove_object c.oid q ≡ some (drop_name n q) =
          remove_object-drop_name n q c h.2 (ground arith) in
        ground arith
  ]

  pub remove_name-drop_name :
      (n : String) (q : List (AppContainer I)) (c : AppContainer I)
      → find_name n q ≡ some c
      → remove_name n (names q) ≡ some (names (drop_name n q))
  unfolding find_name remove_name drop_name names
  remove_name-drop_name n [] c e = cc
  remove_name-drop_name n (x ∷ q) c e = ground (arith, remove_name-drop_name n q c)

  pub find_name-drop_name :
      (n m : String) (q : List (AppContainer I))
      → IsDistinct q
      → find_name m (drop_name n q) ≡ (if n == m then none else find_name m q)
  unfolding find_name drop_name
  find_name-drop_name n m [] h = ground arith
  find_name-drop_name n m (x ∷ q) h =
      ground (arith, eq_iff x.name n, eq_iff x.name m, eq_iff n m, find_name-drop_name n m q h.2)

  find_name-drop_name-none :
      (n m : String) (q : List (AppContainer I))
      → find_name m q ≡ none
      → find_name m (drop_name n q) ≡ none
  unfolding find_name drop_name
  find_name-drop_name-none n m [] h = refl
  find_name-drop_name-none n m (x ∷ q) h = ground (arith, find_name-drop_name-none n m q)

  remove_object-drop_name-none :
      (n : String) (i : ℕ) (q : List (AppContainer I))
      → remove_object i q ≡ none
      → remove_object i (drop_name n q) ≡ none
  unfolding remove_object drop_name
  remove_object-drop_name-none n i [] h = refl
  remove_object-drop_name-none n i (x ∷ q) h = ground (arith, remove_object-drop_name-none n i q)

  pub drop_name-IsDistinct :
      (n : String) (q : List (AppContainer I)) → IsDistinct q → IsDistinct (drop_name n q)
  unfolding drop_name
  drop_name-IsDistinct n [] h = tt
  drop_name-IsDistinct n (x ∷ q) h = elim (Bool-cases (x.name == n)) [
    | inl same ↦ rw same h.2
    | inr other ↦ rw other (
      find_name-drop_name-none n x.name q h.0,
      remove_object-drop_name-none n x.oid q h.1,
      drop_name-IsDistinct n q h.2,
    )
  ]

  pub drop_name-OldObjects :
      (n : String) (k : ℕ) (q : List (AppContainer I))
      → OldObjects k q
      → OldObjects k (drop_name n q)
  unfolding drop_name
  drop_name-OldObjects n k [] h = tt
  drop_name-OldObjects n k (x ∷ q) h = elim (Bool-cases (x.name == n)) [
    | inl same ↦ rw same h.1
    | inr other ↦ rw other (h.0, drop_name-OldObjects n k q h.1)
  ]

  find_name-append_ne_none :
      (n : String) (q : List (AppContainer I)) (c : AppContainer I)
      → c.name ≡ n
      → find_name n (q ++ c ∷ []) ≢ none
  unfolding find_name
  find_name-append_ne_none n [] c e = ground (arith, eq_iff c.name n)
  find_name-append_ne_none n (x ∷ q) c e = ground (arith, find_name-append_ne_none n q c e)

  pub append-IsDistinct :
      (q : List (AppContainer I)) (c : AppContainer I)
      → IsDistinct q
      → find_name c.name q ≡ none
      → OldObjects c.oid q
      → IsDistinct (q ++ c ∷ [])
  unfolding find_name remove_object
  append-IsDistinct [] c h f o = (refl, refl, tt)
  append-IsDistinct (x ∷ q) c h f o = (
    ground (arith, eq_iff x.name c.name, eq_iff c.name x.name, find_name-append x.name q c),
    remove_object-append x.oid q c h.1 (ground arith),
    append-IsDistinct q c h.2 (ground arith) o.1,
  )

  pub IsDistinct-append_used :
      (q : List (AppContainer I)) (c : AppContainer I) {b : AppContainer I}
      → IsDistinct (q ++ c ∷ [])
      → find_name c.name q ≡ some b
      → ⊥
  unfolding find_name
  IsDistinct-append_used [] c h e = cc
  IsDistinct-append_used (x ∷ q) c {b} h e = elim (Bool-cases (x.name == c.name)) [
    | inl same ↦ find_name-append_ne_none x.name q c (sym ((eq_iff x.name c.name).0 same)) h.0
    | inr other ↦ IsDistinct-append_used q c {b = b} h.2 (ground arith)
  ]

  OldObjects-append :
      (k : ℕ) (q : List (AppContainer I)) (c : AppContainer I)
      → OldObjects k q
      → k ≤ c.oid
      → OldObjects (c.oid + 1) (q ++ c ∷ [])
  OldObjects-append k [] c h le = (omega arith, tt)
  OldObjects-append k (x ∷ q) c h le = (omega arith, OldObjects-append k q c h.1 le)

module _ {I W : Type 0} where
  pub record IsSynced (s : Manager I W) : Type 0 where
    pub listed : s.appcontainers ≡ names s.queue
    pub indexed : (n : String) → lookup n s.by_name ≡ find_name n s.queue
    pub distinct : IsDistinct s.queue
    pub old : OldObjects s.next_oid s.queue

  -- Registering a container with an unused name and a new identity.
  pub register-IsSynced :
      (c : AppContainer I) (s : Manager I W)
      → IsSynced s
      → find_name c.name s.queue ≡ none
      → c.oid ≡ s.next_oid
      → IsSynced (register c (record s { next_oid = s.next_oid + 1 }))
  unfolding register
  register-IsSynced c s h unused new = record {
    listed = rw (h.listed, names-append s.queue c);
    indexed = λ n.
        rw (lookup-insert c.name n c s.by_name, find_name-append n s.queue c unused, h.indexed n);
    distinct = append-IsDistinct s.queue c h.distinct unused (rw new h.old);
    old = rw (← new) (OldObjects-append s.next_oid s.queue c h.old (omega arith));
  }

  -- Unregistering a container that the map has removes it from all three, and cannot fail.
  pub unregister_lem :
      (n : String) (c : AppContainer I) (s : Manager I W)
      → IsSynced s
      → lookup n s.by_name ≡ some c
      → unregister c n s ≡ (
        ok tt,
        record s {
          queue = drop_name n s.queue;
          appcontainers = names (drop_name n s.queue);
          by_name = erase n s.by_name;
        },
      )
  unfolding unregister remove_from_queue remove_from_net
  unregister_lem n c s h e =
      let found : find_name n s.queue ≡ some c = sym (h.indexed n) ∙ e in
      let a : remove_object c.oid s.queue ≡ some (drop_name n s.queue) =
        remove_object-drop_name n s.queue c h.distinct found in
      let b : remove_name n s.appcontainers ≡ some (names (drop_name n s.queue)) =
        rw h.listed (remove_name-drop_name n s.queue c found) in
      ground arith

  pub dropped-IsSynced :
      (n : String) (s : Manager I W)
      → IsSynced s
      → IsSynced (record s {
        queue = drop_name n s.queue;
        appcontainers = names (drop_name n s.queue);
        by_name = erase n s.by_name;
      })
  dropped-IsSynced n s h = record {
    listed = refl;
    indexed = λ m.
        rw (lookup-erase n m s.by_name, find_name-drop_name n m s.queue h.distinct, h.indexed m);
    distinct = drop_name-IsDistinct n s.queue h.distinct;
    old = drop_name-OldObjects n s.next_oid s.queue h.old;
  }
