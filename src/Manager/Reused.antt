-- ===== src/Manager/Reused.antt =====
-- What `_createContainer` (comnetsemu/net.py) says to a dict of Docker arguments that it has filled.
use comnetsemu.Prelude.{
  ℕ, String, Bool, true, Option, none, some, [], ◌∷◌, string_eq, ◌≡◌, refl, sym, ◌∙◌, ap, ◌<◌,
  length, get_or, subst, arith,
}
use comnetsemu.Prelude.Dict.{lookup, contains, insert, update, lookup-insert}
use comnetsemu.Manager.Data.{Arg, DockerArgs, Result, ok, raised, waiting, Error}
use comnetsemu.Manager.Create.{
  docker_volumes_default, any_reserved, check_args, prepare_volumes, prepare_args, create_container,
}
use comnetsemu.Manager.Docker.{Docker}
use comnetsemu.Manager.State.{Manager}
use comnetsemu.Manager.Container.{choose_args, add_container}
use comnetsemu.Routing.Table.{get_or-set_self}
use comnetsemu.Manager.Prepared.{IsFilled, Prepares}
use comnetsemu.Manager.Args.{prepare_args-Prepares}

check_args_reserved :
    (name : String) (dhost_id : Option String) (dimage dcmd : String) (args : DockerArgs)
    → lookup "init" args ≡ some (Arg.flag true)
    → (check_args name dhost_id dimage dcmd args).0 ≡ raised Error.invalid_docker_args
unfolding check_args any_reserved contains
check_args_reserved name dhost_id dimage dcmd args h = rw h refl

-- The volumes of a dict that has passed are a dict.
IsTable : Option Arg → Type 0
IsTable none = Unit
IsTable (some (Arg.table t)) = Unit
IsTable (some _) = ⊥

volumes-IsTable :
    (o : Option Arg) (name : String) (dhost_id : Option String) (dimage dcmd : String)
    (given out : DockerArgs)
    → lookup "volumes" given ≡ o
    → prepare_volumes o name dhost_id dimage dcmd given ≡ (ok tt, out)
    → (i : String) → IsFilled name i dimage dcmd given out
    → IsTable (lookup "volumes" out)
unfolding IsTable prepare_volumes
volumes-IsTable none name dhost_id dimage dcmd given out e h i f = rw (f.begun.no_volumes e) tt
volumes-IsTable (some (Arg.table t)) name dhost_id dimage dcmd given out e h i f =
    rw (f.begun.volumes t e) tt
volumes-IsTable (some _) name dhost_id dimage dcmd given out e h i f = cc

prepare_volumes_again :
    (o : Option Arg) (name : String) (dhost_id : Option String) (dimage dcmd : String)
    (out : DockerArgs)
    → IsTable o
    → lookup "init" out ≡ some (Arg.flag true)
    → (prepare_volumes o name dhost_id dimage dcmd out).0 ≡ raised Error.invalid_docker_args
unfolding prepare_volumes IsTable
prepare_volumes_again none name dhost_id dimage dcmd out t h =
    check_args_reserved name dhost_id dimage dcmd out h
prepare_volumes_again (some (Arg.table v)) name dhost_id dimage dcmd out t h =
    check_args_reserved name dhost_id dimage dcmd
      (insert "volumes" (Arg.table (update v docker_volumes_default)) out) (simp lookup-insert h)
prepare_volumes_again (some _) name dhost_id dimage dcmd out t h = absurd t

-- A dict that the method has filled is refused when a caller passes it again.
prepare_args_twice :
    (name : String) (dhost_id : Option String) (dimage dcmd : String) (name' : String)
    (dhost_id' : Option String) (dimage' dcmd' : String) (given out : DockerArgs)
    → prepare_args name dhost_id dimage dcmd given ≡ (ok tt, out)
    → (prepare_args name' dhost_id' dimage' dcmd' out).0 ≡ raised Error.invalid_docker_args
unfolding prepare_args
prepare_args_twice name dhost_id dimage dcmd name' dhost_id' dimage' dcmd' given out h =
    let passed : Prepares name dhost_id dimage dcmd given (ok tt, out) =
      subst (Prepares name dhost_id dimage dcmd given) h
        (prepare_args-Prepares name dhost_id dimage dcmd given) in
    let (i, e, unreserved, filled) = passed in
    prepare_volumes_again (lookup "volumes" out) name' dhost_id' dimage' dcmd' out
      (volumes-IsTable (lookup "volumes" given) name dhost_id dimage dcmd given out refl h i filled)
      filled.begun.init

-- A dict that has passed is not empty, so that `addContainer` does not replace it.
choose_args_filled :
    {I W : Type 0} (ref : ℕ) (s : Manager I W) (out : DockerArgs)
    → get_or s.dicts ref [] ≡ out
    → lookup "init" out ≡ some (Arg.flag true)
    → choose_args (some ref) s ≡ (ok ref, s)
unfolding choose_args lookup
choose_args_filled ref s [] e h = absurd (cc)
choose_args_filled ref s (x ∷ out) e h = rw (choose_args, e) refl

-- A container is created only from a dict that has passed, and the dict in the store is then the filled one.
create_container_ok :
    {I W : Type 0} (d : Docker I W) (name : String) (dhost_id : Option String)
    (dimage dcmd : String) (ref : ℕ) (i : I) (s : Manager I W)
    → ref < length s.dicts
    → (create_container d name dhost_id dimage dcmd ref s).0 ≡ ok i
    → (prepare_args name dhost_id dimage dcmd (get_or s.dicts ref [])
        ≡ (ok tt, get_or (create_container d name dhost_id dimage dcmd ref s).1.dicts ref []))
unfolding create_container
create_container_ok d name dhost_id dimage dcmd ref i s inside h =
    go (prepare_args name dhost_id dimage dcmd (get_or s.dicts ref [])) refl
  where
    go :
        (p : Result (Unit {0}) × DockerArgs)
        → prepare_args name dhost_id dimage dcmd (get_or s.dicts ref []) ≡ p
        → (p ≡ (ok tt, get_or (create_container d name dhost_id dimage dcmd ref s).1.dicts ref []))
    go (ok u, out) e =
        rw (create_container, e)
          (ap (λ x. (ok u, x))
            (sym (
              get_or-set_self s.dicts ref
                (prepare_args name dhost_id dimage dcmd (get_or s.dicts ref [])).1 [] inside
              ∙ ap (λ p. p.1) e)))
    go (raised x, out) e = absurd (ground (arith, rw (create_container, e) at h))
    go (waiting, out) e = absurd (ground (arith, rw (create_container, e) at h))

create_container_refused :
    {I W : Type 0} (d : Docker I W) (name : String) (dhost_id : Option String)
    (dimage dcmd : String) (ref : ℕ) (s : Manager I W)
    → (prepare_args name dhost_id dimage dcmd (get_or s.dicts ref [])).0
      ≡ raised Error.invalid_docker_args
    → (create_container d name dhost_id dimage dcmd ref s).0 ≡ raised Error.invalid_docker_args
unfolding create_container
create_container_refused d name dhost_id dimage dcmd ref s h = rw (create_container, h) refl

-- After `_createContainer` has made a container from a dict of the caller's, and as long as nobody else changes that dict,
-- `addContainer` of any name on any known host raises InvalidDockerArgs when the caller passes the dict again.
pub add_container_reused :
    {I W : Type 0} (d : Docker I W) (fuel : ℕ) (name : String) (dhost_id : Option String)
    (dimage dcmd : String) (ref : ℕ) (i : I) (s : Manager I W) (name' dhost' dimage' dcmd' : String)
    (node : Option String) (wait : Bool) (s' : Manager I W)
    → ref < length s.dicts
    → (create_container d name dhost_id dimage dcmd ref s).0 ≡ ok i
    → get_or s'.dicts ref []
      ≡ get_or (create_container d name dhost_id dimage dcmd ref s).1.dicts ref []
    → lookup dhost' s'.nodes ≡ some node
    → (add_container d fuel name' dhost' dimage' dcmd' (some ref) wait s').0
      ≡ raised Error.invalid_docker_args
unfolding add_container
add_container_reused d fuel name dhost_id dimage dcmd ref i s name' dhost' dimage' dcmd' node wait
      s' inside made same known =
    let out = get_or (create_container d name dhost_id dimage dcmd ref s).1.dicts ref [] in
    let passed = create_container_ok d name dhost_id dimage dcmd ref i s inside made in
    let again =
      prepare_args_twice name dhost_id dimage dcmd name' node dimage' dcmd' (get_or s.dicts ref [])
        out passed in
    let (j, e, unreserved, filled) : Prepares name dhost_id dimage dcmd (get_or s.dicts ref [])
        (ok tt, out) =
      subst (Prepares name dhost_id dimage dcmd (get_or s.dicts ref [])) passed
        (prepare_args-Prepares name dhost_id dimage dcmd (get_or s.dicts ref [])) in
    let chosen = choose_args_filled ref s' out same filled.begun.init in
    let again' = create_container_refused d name' node dimage' dcmd' ref s' (
      subst (λ l. (prepare_args name' node dimage' dcmd' l).0 ≡ raised Error.invalid_docker_args)
        (sym same) again) in
    rw (add_container, chosen, known, again') refl
