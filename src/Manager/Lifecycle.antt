-- ===== src/Manager/Lifecycle.antt =====
-- `addContainer` and `removeContainer` of comnetsemu/net.py against the map from names to containers
-- that the manager stands for.
use comnetsemu.Prelude.{
  ℕ, String, Bool, true, false, Option, none, some, [], ◌∷◌, ◌++◌, if◌then◌else◌, ◌==◌, string_eq,
  ◌≡◌, refl, subst, sym, ◌∙◌, arith,
}
use comnetsemu.Prelude.Dict.{lookup, lookup-insert, lookup-erase}
use comnetsemu.Manager.Data.{AppContainer, Result, ok, raised, waiting, Error}
use comnetsemu.Manager.Docker.{Docker}
use comnetsemu.Manager.State.{Manager, find_name, ◌>>=◌, or_raise, call, gets, pure}
use comnetsemu.Manager.Create.{create_container}
use comnetsemu.Manager.Container.{
  register, unregister, add_container, remove_container, choose_args, register_new,
  wait_container_start, wait_container_removed,
}
use comnetsemu.Manager.Rules.{Keeps, Ensures, >>=-Ensures}
use comnetsemu.Manager.Synced.{
  IsSynced, IsDistinct-append_used, register-IsSynced, unregister_lem, dropped-IsSynced,
}

module _ {I W : Type 0} where
  -- The registers are those of `s`.
  pub record Unchanged (s s' : Manager I W) : Type 0 where
    pub queue : s'.queue ≡ s.queue
    pub by_name : s'.by_name ≡ s.by_name
    pub appcontainers : s'.appcontainers ≡ s.appcontainers
    pub next_oid : s'.next_oid ≡ s.next_oid

  pub Unchanged-IsSynced : (s s' : Manager I W) → IsSynced s → Unchanged s s' → IsSynced s'
  Unchanged-IsSynced s s' h u = record {
    listed = rw (u.appcontainers, u.queue) h.listed;
    indexed = λ n. rw (u.by_name, u.queue) (h.indexed n);
    distinct = rw u.queue h.distinct;
    old = rw (u.queue, u.next_oid) h.old;
  }

  Unchanged-refl : (s : Manager I W) → Unchanged s s
  Unchanged-refl s = record { queue = refl; by_name = refl; appcontainers = refl; next_oid = refl }

  call-Unchanged :
      {A : Type 0} (s : Manager I W) (f : W → Result A × W) → Keeps (Unchanged s) (call f)
  call-Unchanged s f s' u = record {
    queue = u.queue;
    by_name = u.by_name;
    appcontainers = u.appcontainers;
    next_oid = u.next_oid;
  }

  or_raise-Unchanged :
      {A : Type 0} (s : Manager I W) (o : Option A) (e : Error) → Keeps (Unchanged s) (or_raise o e)
  or_raise-Unchanged s none e s' u = u
  or_raise-Unchanged s (some a) e s' u = u

  choose_args-Unchanged : (s : Manager I W) (ref : Option ℕ) → Keeps (Unchanged s) (choose_args ref)
  unfolding choose_args
  choose_args-Unchanged s none s' u = ground arith
  choose_args-Unchanged s (some ref) s' u = ground arith

  wait_if-Unchanged :
      (s : Manager I W) (b : Bool) (f : W → Result (Unit {0}) × W)
      → Keeps (Unchanged s) (if b then call f else pure tt)
  wait_if-Unchanged s true f s' u = call-Unchanged s f s' u
  wait_if-Unchanged s false f s' u = u

  -- What `removeContainer(name)` has done, by how it ended.
  abbrev pub Removes : String → Manager I W → Result (Unit {0}) → Manager I W → Type 0
  Removes n s (ok _) s' =
      IsSynced s'
      × ((m : String) → lookup m s'.by_name ≡ (if n == m then none else lookup m s.by_name))
  Removes n s (raised _) s' = Unchanged s s'
  Removes n s waiting s' = Unchanged s s'

  unregister-Removes :
      (n : String) (c : AppContainer I) (s : Manager I W)
      → IsSynced s
      → lookup n s.by_name ≡ some c
      → Ensures (Unchanged s) (Removes n s) (unregister c n)
  unregister-Removes n c s h e s' u =
      let h' : IsSynced s' = Unchanged-IsSynced s s' h u in
      rw (unregister_lem n c s' h' (rw u.by_name e))
        (dropped-IsSynced n s' h', λ m. rw (lookup-erase n m s'.by_name, u.by_name) refl)

  abbrev new_of : String → String → String → I → Manager I W → AppContainer I
  new_of name dhost dimage i s' = record {
    oid = s'.next_oid;
    name = name;
    dhost = dhost;
    dimage = dimage;
    dcmd = "/usr/bin/env sh";
    dins = i;
  }

  -- What `addContainer(name, dhost, dimage, ...)` has done, by how it ended.
  abbrev pub Adds :
      String → String → String → Manager I W → Result (AppContainer I) → Manager I W → Type 0
  Adds name dhost dimage s (ok c) s' =
      IsSynced s'
      × ((m : String) → lookup m s'.by_name ≡ (if name == m then some c else lookup m s.by_name))
      × (s'.appcontainers ≡ s.appcontainers ++ name ∷ [])
      × (c.name ≡ name)
      × (c.dhost ≡ dhost)
      × (c.dimage ≡ dimage)
  Adds name dhost dimage s (raised _) s' = Unchanged s s'
  Adds name dhost dimage s waiting s' = Unchanged s s'

  -- What a completed call leaves, where the name was there already.
  abbrev IsUnsynced : Result (AppContainer I) → Manager I W → Type 0
  IsUnsynced (ok _) s' = ¬ IsSynced s'
  IsUnsynced (raised _) s' = Unit
  IsUnsynced waiting s' = Unit

  -- The end of `addContainer`, from the constructor on.
  register_new-Adds :
      (name dhost dimage : String) (i : I) (s : Manager I W)
      → IsSynced s
      → lookup name s.by_name ≡ none
      → Ensures (Unchanged s) (Adds name dhost dimage s) (register_new name dhost dimage i)
  unfolding register_new
  register_new-Adds name dhost dimage i s h unused s' u =
      let h' : IsSynced s' = Unchanged-IsSynced s s' h u in
      let c : AppContainer I = new_of name dhost dimage i s' in
      let free : find_name name s'.queue ≡ none = sym (h'.indexed name) ∙ rw u.by_name unused in
      (
        register-IsSynced c s' h' free refl,
        λ m. unfold register in rw (lookup-insert name m c s'.by_name, u.by_name) refl,
        unfold register in rw u.appcontainers refl,
        refl,
        refl,
        refl,
      )

module _ {I W : Type 0} (d : Docker I W) where
  -- If the name is in the map, `removeContainer` ends with all three registers without it and otherwise
  -- the same, or it stops at a Docker error and the registers are as before.
  pub remove_container-Removes :
      (fuel : ℕ) (n : String) (wait : Bool) (s : Manager I W) (c : AppContainer I)
      → IsSynced s
      → lookup n s.by_name ≡ some c
      → Removes n s (remove_container d fuel n wait s).0 (remove_container d fuel n wait s).1
  unfolding remove_container
  remove_container-Removes fuel n wait s c h e = rw e (
      early (call (d.remove c.dins)) _ (call-Unchanged s (d.remove c.dins))
        (λ _.
          early (if wait then call (wait_container_removed d fuel c.name) else pure tt) _
            (wait_if-Unchanged s wait _) (λ _. unregister-Removes n c s h e))
        s (Unchanged-refl s))
    where
      early :
          (m : Manager I W → Result (Unit {0}) × Manager I W)
          (f : Unit {0} → Manager I W → Result (Unit {0}) × Manager I W)
          → Keeps (Unchanged s) m
          → ((a : Unit {0}) → Ensures (Unchanged s) (Removes n s) (f a))
          → Ensures (Unchanged s) (Removes n s) (m >>= f)
      early = >>=-Ensures (Unchanged s) (Removes n s) (λ e s' u. u) (λ s' u. u)

  create_container-Unchanged :
      (s : Manager I W) (name : String) (dhost_id : Option String) (dimage dcmd : String) (ref : ℕ)
      → Keeps (Unchanged s) (create_container d name dhost_id dimage dcmd ref)
  unfolding create_container
  create_container-Unchanged s name dhost_id dimage dcmd ref s' u = ground arith

  -- Before the constructor `addContainer` leaves the registers alone, so that what its end ensures
  -- holds of the whole.
  add_container-ends :
      (Q : Result (AppContainer I) → Manager I W → Type 0) (fuel : ℕ)
      (name dhost dimage dcmd : String) (docker_args : Option ℕ) (wait : Bool) (s : Manager I W)
      → ((e : Error) (s' : Manager I W) → Unchanged s s' → Q (raised e) s')
      → ((s' : Manager I W) → Unchanged s s' → Q waiting s')
      → ((i : I) → Ensures (Unchanged s) Q (register_new name dhost dimage i))
      → Q
          (add_container d fuel name dhost dimage dcmd docker_args wait s).0
          (add_container d fuel name dhost dimage dcmd docker_args wait s).1
  unfolding add_container
  add_container-ends Q fuel name dhost dimage dcmd docker_args wait s at_raise at_wait end =
      early (choose_args docker_args) _ (choose_args-Unchanged s docker_args)
        (λ ref.
          early (gets (λ t. lookup dhost t.nodes)) _ (λ t u. u)
            (λ node.
              early (or_raise node Error.key_error) _ (or_raise-Unchanged s node Error.key_error)
                (λ dhost_id.
                  early (create_container d name dhost_id dimage dcmd ref) _
                    (create_container-Unchanged s name dhost_id dimage dcmd ref)
                    (λ i. early (call (d.start i)) _ (call-Unchanged s (d.start i)) (λ _.
                      early (if wait then call (wait_container_start d fuel name) else pure tt)
                        (λ _. register_new name dhost dimage i)
                        (wait_if-Unchanged s wait (wait_container_start d fuel name))
                        (λ _. end i))))))
        s (Unchanged-refl s)
    where
      early :
          {A : Type 0} (m : Manager I W → Result A × Manager I W)
          (f : A → Manager I W → Result (AppContainer I) × Manager I W)
          → Keeps (Unchanged s) m
          → ((a : A) → Ensures (Unchanged s) Q (f a))
          → Ensures (Unchanged s) Q (m >>= f)
      early = >>=-Ensures (Unchanged s) Q at_raise at_wait

  -- With a name that the map does not have, `addContainer` ends with the new container in all three
  -- registers and nothing else changed there, or it stops early and the registers are as before.
  pub add_container-Adds :
      (fuel : ℕ) (name dhost dimage dcmd : String) (docker_args : Option ℕ) (wait : Bool)
      (s : Manager I W)
      → IsSynced s
      → lookup name s.by_name ≡ none
      → Adds name dhost dimage s
          (add_container d fuel name dhost dimage dcmd docker_args wait s).0
          (add_container d fuel name dhost dimage dcmd docker_args wait s).1
  add_container-Adds fuel name dhost dimage dcmd docker_args wait s h unused =
      add_container-ends (Adds name dhost dimage s) fuel name dhost dimage dcmd docker_args wait s
        (λ e s' u. u) (λ s' u. u) (λ i. register_new-Adds name dhost dimage i s h unused)

  register_new-IsUnsynced :
      (name dhost dimage : String) (i : I) (s : Manager I W) (c : AppContainer I)
      → IsSynced s
      → lookup name s.by_name ≡ some c
      → Ensures (Unchanged s) IsUnsynced (register_new name dhost dimage i)
  unfolding register_new register
  register_new-IsUnsynced name dhost dimage i s c h e s' u after =
      IsDistinct-append_used s'.queue (new_of name dhost dimage i s') {b = c} after.distinct
        (sym (h'.indexed name) ∙ rw u.by_name e)
    where
      h' : IsSynced s'
      h' = Unchanged-IsSynced s s' h u

  -- If Docker accepts a name that the map still has, as it does when the container was removed behind
  -- the manager's back, then the registers no longer agree after `addContainer`.
  pub add_container_stale :
      (fuel : ℕ) (name dhost dimage dcmd : String) (docker_args : Option ℕ) (wait : Bool)
      (s : Manager I W) (c c' : AppContainer I)
      → IsSynced s
      → lookup name s.by_name ≡ some c
      → (add_container d fuel name dhost dimage dcmd docker_args wait s).0 ≡ ok c'
      → ¬ IsSynced (add_container d fuel name dhost dimage dcmd docker_args wait s).1
  add_container_stale fuel name dhost dimage dcmd docker_args wait s c c' h e done =
      subst (λ r. IsUnsynced r (add_container d fuel name dhost dimage dcmd docker_args wait s).1)
        done
        (add_container-ends IsUnsynced fuel name dhost dimage dcmd docker_args wait s (λ e s' u. tt)
          (λ s' u. tt) (λ i. register_new-IsUnsynced name dhost dimage i s c h e))
