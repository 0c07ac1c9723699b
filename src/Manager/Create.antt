-- ===== src/Manager/Create.antt =====
-- `_createContainer` of comnetsemu/net.py: the checks on the caller's Docker arguments, and what is
-- put into them before Docker is called. The caller's dict itself is changed.
use Prim.Native.String.{◌++◌}
use comnetsemu.Prelude.{ℕ, String, Bool, true, false, Option, none, some, List, [], ◌∷◌, ◌||◌}
use comnetsemu.Prelude.{if◌then◌else◌, string_eq, get_or, set}
use comnetsemu.Prelude.Dict.{Dict, lookup, contains, insert, update}
use comnetsemu.Manager.Data.{Arg, Leaf, DockerArgs, Result, ok, raised, waiting, Error}
use comnetsemu.Manager.Docker.{Docker}
use comnetsemu.Manager.State.{Manager}

abbrev pub appcontainermanger_mounted_dir : String
appcontainermanger_mounted_dir = "/tmp/comnetsemu/appcontainermanger"

abbrev pub reserved_docker_args : List String
reserved_docker_args =
    "init" ∷ "tty" ∷ "detach" ∷ "labels" ∷ "security_opt" ∷ "cgroup_parent" ∷ "network_mode" ∷ []

abbrev pub docker_args_default : DockerArgs
docker_args_default =
    ("init", Arg.flag true)
    ∷ ("tty", Arg.flag true)
    ∷ ("detach", Arg.flag true)
    ∷ ("labels", Arg.table (("comnetsemu", Leaf.label "dockercontainer") ∷ []))
    ∷ ("security_opt", Arg.texts ("seccomp:unconfined" ∷ []))
    ∷ []

abbrev pub docker_volumes_default : Dict String Leaf
docker_volumes_default =
    (appcontainermanger_mounted_dir, Leaf.mount appcontainermanger_mounted_dir "rw") ∷ []

-- `for key in reserved_docker_args: if key in docker_args`
unfoldable pub any_reserved : List String → DockerArgs → Bool
any_reserved [] args = false
any_reserved (k ∷ ks) args = contains k args || any_reserved ks args

-- What stands in the dict after the checks have passed.
unfoldable pub fill_args : String → String → String → String → DockerArgs → DockerArgs
fill_args name dhost_id dimage dcmd args =
    insert "network_mode" (Arg.text ("container:" ++ dhost_id)) (
      insert "command" (Arg.text dcmd) (
        insert "cgroup_parent" (Arg.text ("/docker/" ++ dhost_id)) (
          insert "image" (Arg.text dimage)
            (insert "name" (Arg.text name) (update args docker_args_default)))))

-- The test for reserved keys and the rest of the method up to the call of Docker. A node that is no
-- DockerHost has no `dins`, which shows when half of the dict is filled.
unfoldable pub check_args :
    String → Option String → String → String → DockerArgs → Result (Unit {0}) × DockerArgs
unfolding any_reserved fill_args update insert
check_args name dhost_id dimage dcmd args =
    if any_reserved reserved_docker_args args
    then (raised Error.invalid_docker_args, args)
    else elim dhost_id [
      | none ↦ (
        raised Error.attribute_error,
        insert "image" (Arg.text dimage)
            (insert "name" (Arg.text name) (update args docker_args_default)),
      )
      | some i ↦ (ok tt, fill_args name i dimage dcmd args)
    ]

-- `docker_args["volumes"].update(...)`, of which only a dict is capable, and then the checks. The
-- first argument is the value under "volumes".
unfoldable pub prepare_volumes :
    Option Arg
    → String
    → Option String
    → String
    → String
    → DockerArgs
    → Result (Unit {0}) × DockerArgs
unfolding check_args update insert
prepare_volumes none name dhost_id dimage dcmd args = check_args name dhost_id dimage dcmd args
prepare_volumes (some (Arg.table t)) name dhost_id dimage dcmd args =
    check_args name dhost_id dimage dcmd
      (insert "volumes" (Arg.table (update t docker_volumes_default)) args)
prepare_volumes (some _) name dhost_id dimage dcmd args = (raised Error.attribute_error, args)

-- The dict after the method's part before the call of Docker, and how that part ended.
unfoldable pub prepare_args :
    String → Option String → String → String → DockerArgs → Result (Unit {0}) × DockerArgs
unfolding prepare_volumes lookup
prepare_args name dhost_id dimage dcmd args =
    prepare_volumes (lookup "volumes" args) name dhost_id dimage dcmd args

module _ {I W : Type 0} (d : Docker I W) where
  -- `_createContainer`, on the dict at reference `ref`.
  unfoldable pub create_container :
      String → Option String → String → String → ℕ → Manager I W → Result I × Manager I W
  unfolding prepare_args
  create_container name dhost_id dimage dcmd ref s =
      let (r, args) = prepare_args name dhost_id dimage dcmd (get_or s.dicts ref []) in
      let s' : Manager I W = record s { dicts = set s.dicts ref args } in
      elim r [
        | ok _ ↦ let (i, w) = d.create args s.world in (i, record s' { world = w })
        | raised e ↦ (raised e, s')
        | waiting ↦ (waiting, s')
      ]
