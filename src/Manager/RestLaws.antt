-- ===== src/Manager/RestLaws.antt =====
-- The request handler (comnetsemu/net.py) on a manager whose registers agree.
use Prim.Native.String.{◌++◌}
use text.Mathlib.TextLemmas.{cons-append, nil-append}
use comnetsemu.Prelude.{
  ℕ, ◌<◌, [], String, Bool, true, false, Option, none, some, string_eq, ◌≡◌, refl, sym, ap, subst,
  ◌∙◌, beq_refl, nat_eq,
}
use comnetsemu.Prelude.Dict.{lookup}
use comnetsemu.Manager.Data.{AppContainer, Result, ok, raised, waiting, Error}
use comnetsemu.Manager.Docker.{Docker}
use comnetsemu.Manager.State.{Manager, ◌>>◌, resume, pure, find_name, get_container_instance}
use comnetsemu.Manager.Container.{remove_container}
use comnetsemu.Manager.Rest.{
  ok_response, bad_request, container_resource_path, Response, has_slash, split_last, all_slashes,
  strip_slashes, path_split, delete_sanity_check, do_delete,
}
use comnetsemu.Manager.Synced.{IsSynced}
use comnetsemu.Manager.Lifecycle.{Unchanged, Removes, remove_container-Removes}
use comnetsemu.Manager.Waiting.{IsGoneAfter, remove_container_done}

resource_append :
    (n : String)
    → "/containers/" ++ n
      ≡ String.◌∷◌ "/" (
          String.◌∷◌ "c" (
            String.◌∷◌ "o" (
              String.◌∷◌ "n" (
                String.◌∷◌ "t" (
                  String.◌∷◌ "a" (
                    String.◌∷◌ "i" (
                      String.◌∷◌ "n"
                        (String.◌∷◌ "e" (String.◌∷◌ "r" (String.◌∷◌ "s" (String.◌∷◌ "/" n)))))))))))
resource_append n =
    rw
      (
        cons-append, cons-append, cons-append, cons-append, cons-append, cons-append, cons-append,
        cons-append, cons-append, cons-append, cons-append, cons-append, nil-append,
      )
      refl

-- The path of a container whose name has no slash is taken apart into the resource and the name.
path_split-name :
    (n : String) → has_slash n ≡ false → path_split ("/containers/" ++ n) ≡ ("/containers", n)
unfolding path_split has_slash split_last all_slashes strip_slashes
path_split-name n h = rw (resource_append, h)

module _ {I W : Type 0} (d : Docker I W) (fuel : ℕ) where
  -- What a DELETE comes to, by what the map has under the name.
  abbrev pub delete_by_map :
      Option (AppContainer I) → String → Manager I W → Result Response × Manager I W
  delete_by_map none n = pure bad_request
  delete_by_map (some c) n = remove_container d fuel n true >> pure ok_response

  do_delete-find_name :
      (path : String) (s : Manager I W) (o : Option (AppContainer I))
      → (path_split path).0 ≡ container_resource_path
      → find_name (path_split path).1 s.queue ≡ o
      → do_delete d fuel path s ≡ delete_by_map o (path_split path).1 s
  unfolding do_delete delete_sanity_check get_container_instance
  do_delete-find_name path s none e found = rw (e, found) refl
  do_delete-find_name path s (some c) e found = rw (e, found) refl

  do_delete-delete_by_map :
      (n : String) (s : Manager I W)
      → IsSynced s
      → has_slash n ≡ false
      → do_delete d fuel ("/containers/" ++ n) s ≡ delete_by_map (lookup n s.by_name) n s
  do_delete-delete_by_map n s h plain =
      let path = "/containers/" ++ n in
      let split : path_split path ≡ (container_resource_path, n) = path_split-name n plain in
      let name : (path_split path).1 ≡ n = ap (λ (p : String × String). p.1) split in
      let head : (path_split path).0 ≡ container_resource_path =
        ap (λ (p : String × String). p.0) split in
      subst (λ m. do_delete d fuel path s ≡ delete_by_map (lookup n s.by_name) m s) name
        (do_delete-find_name path s (lookup n s.by_name) head
          (subst (λ m. find_name m s.queue ≡ lookup n s.by_name) (sym name) (sym (h.indexed n))))

  -- The answer to the DELETE of a name that the map has: 200 and the name is gone from all registers, or an
  -- exception or no end and the registers are as before.
  abbrev pub Deleted : String → Manager I W → Result Response × Manager I W → Type 0
  Deleted n s (ok a, s') = (a ≡ record { status = 200; body = [] }) × Removes n s (ok tt) s'
  Deleted n s (raised e, s') = Unchanged s s'
  Deleted n s (waiting, s') = Unchanged s s'

  -- The answer by what the map has under the name.
  abbrev pub Answers :
      String → Manager I W → Option (AppContainer I) → Result Response × Manager I W → Type 0
  Answers n s none result =
      ◌≡◌ {A = Result Response × Manager I W} result (ok (record { status = 400; body = [] }), s)
  Answers n s (some c) result = Deleted n s result

  -- On agreeing registers, the DELETE of the path of a name without a slash is answered with 400 and changes nothing
  -- if no container has the name; else it is answered with 200 only if the name, and no other, is gone from
  -- all three registers, which still agree, and where it ends by an exception or does not end they are as before.
  pub do_delete-Answers :
      (n : String) (s : Manager I W)
      → IsSynced s
      → has_slash n ≡ false
      → Answers n s (lookup n s.by_name) (do_delete d fuel ("/containers/" ++ n) s)
  do_delete-Answers n s h plain =
      rw (do_delete-delete_by_map n s h plain) (answers (lookup n s.by_name) refl)
    where
      deleted :
          (p : Result (Unit {0}) × Manager I W)
          → Removes n s p.0 p.1
          → Deleted n s (resume (λ _. pure ok_response) p)
      deleted (ok u, s') h = (refl, h)
      deleted (raised e, s') h = h
      deleted (waiting, s') h = h

      answers :
          (o : Option (AppContainer I))
          → lookup n s.by_name ≡ o
          → Answers n s o (delete_by_map o n s)
      answers none e = refl
      answers (some c) e =
          deleted (remove_container d fuel n true s)
            (remove_container-Removes d fuel n true s c h e)

  -- On agreeing registers, the DELETE of the path of a container whose name has no slash is answered with 200 if Docker accepts
  -- the removal and the container is then gone after `m` rounds, with any fuel above `m`.
  pub do_delete_done :
      (m : ℕ) (n : String) (s : Manager I W) (c : AppContainer I)
      → IsSynced s
      → has_slash n ≡ false
      → lookup n s.by_name ≡ some c
      → (d.remove c.dins s.world).0 ≡ ok tt
      → IsGoneAfter d m c.name (d.remove c.dins s.world).1
      → m < fuel
      → (do_delete d fuel ("/containers/" ++ n) s).0 ≡ ok (record { status = 200; body = [] })
  do_delete_done m n s c h plain e removed gone more =
      let all_done = remove_container_done d m fuel n true s c h e removed gone more in
      rw (do_delete-delete_by_map n s h plain, e, all_done) refl

  -- After a removal that has gone through, a second removal of the name, as of a request that has passed its
  -- check before, raises ValueError and changes nothing.
  pub remove_container_twice :
      (n : String) (wait wait' : Bool) (s : Manager I W) (c : AppContainer I)
      → IsSynced s
      → lookup n s.by_name ≡ some c
      → (remove_container d fuel n wait s).0 ≡ ok tt
      → remove_container d fuel n wait' (remove_container d fuel n wait s).1
        ≡ (raised Error.value_error, (remove_container d fuel n wait s).1)
  remove_container_twice n wait wait' s c h e done =
      let gone : lookup n (remove_container d fuel n wait s).1.by_name ≡ none =
        (subst (λ r. Removes n s r (remove_container d fuel n wait s).1) done
            (remove_container-Removes d fuel n wait s c h e)).1
          n
        ∙ rw (beq_refl n) refl in
      unfold remove_container in rw gone refl
