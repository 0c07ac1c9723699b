-- ===== src/Manager/Tests.antt =====
-- Concrete runs of the manager of comnetsemu/net.py, on a Docker whose world is the list of the containers' names.
use Prim.Native.String.{◌++◌ as str_append}
use comnetsemu.Prelude.{
  ℕ, ◌-◌, String, Bool, true, false, Option, none, some, List, [], ◌∷◌, ◌++◌, if◌then◌else◌, ◌==◌,
  string_eq, nat_eq, ◌≡◌, refl, arith,
}
use comnetsemu.Prelude.Dict.{lookup, contains}
use comnetsemu.Manager.Data.{AppContainer, Arg, Leaf, DockerArgs, Result, ok, raised, Error}
use comnetsemu.Manager.Docker.{Docker}
use comnetsemu.Manager.State.{Manager, find_name, names, remove_object}
use comnetsemu.Manager.Synced.{IsSynced}
use comnetsemu.Manager.Lifecycle.{
  Adds, Removes, add_container-Adds, add_container_stale, remove_container-Removes,
}
use comnetsemu.Manager.Create.{create_container}
use comnetsemu.Manager.Container.{add_container, remove_container}
use comnetsemu.Manager.Waiting.{remove_container_done}
use comnetsemu.Manager.Reused.{add_container_reused}
use comnetsemu.Manager.Rest.{do_delete, has_slash}
use comnetsemu.Manager.RestLaws.{Answers, do_delete-Answers, do_delete_done, remove_container_twice}

abbrev mem : String → List String → Bool
mem n [] = false
mem n (m ∷ ms) = if m == n then true else mem n ms

abbrev create_named : Option Arg → List String → Result String × List String
create_named (some (Arg.text n)) w =
    if mem n w then (raised Error.api_error, w) else (ok n, w ++ n ∷ [])
create_named _ w = (raised Error.api_error, w)

abbrev without : String → List String → List String
without n [] = []
without n (m ∷ ms) = if m == n then ms else m ∷ without n ms

abbrev toy : Docker String (List String)
toy = record {
  create = λ args w. create_named (lookup "name" args) w;
  start = λ i w. (ok tt, w);
  get = λ n w. (if mem n w then some n else none, w);
  running = λ i w. true;
  reload = λ i w. w;
  remove = λ i w. (ok tt, without i w);
  stats = λ i w. (
    record {
      percpu_count = 2;
      total_usage = 30;
      precpu_total_usage = 10;
      system_cpu_usage = 200;
      precpu_system_cpu_usage = 100;
      memory_usage = 4096;
    },
    w,
  );
  pause = λ w. w;
  close = λ w. w;
}

abbrev server : AppContainer String
server = record {
  oid = 0;
  name = "srv";
  dhost = "h1";
  dimage = "img";
  dcmd = "/usr/bin/env sh";
  dins = "srv";
}

-- A manager with one container, over the given world.
abbrev one : {W : Type 0} → W → Manager String W
one w = record {
  queue = server ∷ [];
  by_name = ("srv", server) ∷ [];
  appcontainers = "srv" ∷ [];
  nodes = ("h1", some "id1") ∷ ("s1", none) ∷ [];
  dicts = [];
  next_oid = 1;
  http_server_started = false;
  mounted_dir = true;
  world = w;
}

one-IsSynced : {W : Type 0} (w : W) → IsSynced (one w)
unfolding names find_name lookup remove_object
one-IsSynced w = record {
  listed = refl;
  indexed = λ n. refl;
  distinct = (refl, refl, tt);
  old = (omega arith, tt);
}

add_container-Adds_example :
    Adds "web" "h1" "img"
      (one ("srv" ∷ []))
      (add_container toy 3 "web" "h1" "img" "sh" none true (one ("srv" ∷ []))).0
      (add_container toy 3 "web" "h1" "img" "sh" none true (one ("srv" ∷ []))).1
unfolding lookup
add_container-Adds_example =
    add_container-Adds toy 3 "web" "h1" "img" "sh" none true (one ("srv" ∷ []))
      (one-IsSynced ("srv" ∷ [])) refl

remove_container-Removes_example :
    Removes "srv"
      (one ("srv" ∷ []))
      (remove_container toy 3 "srv" true (one ("srv" ∷ []))).0
      (remove_container toy 3 "srv" true (one ("srv" ∷ []))).1
unfolding lookup
remove_container-Removes_example =
    remove_container-Removes toy 3 "srv" true (one ("srv" ∷ [])) server (one-IsSynced ("srv" ∷ []))
      refl

-- The container was removed by other means, and the name is given to a new one.
second : AppContainer String
second = record {
  oid = 1;
  name = "srv";
  dhost = "h1";
  dimage = "img";
  dcmd = "/usr/bin/env sh";
  dins = "srv";
}

add_container_stale_example :
    ¬ IsSynced (add_container toy 3 "srv" "h1" "img" "sh" none true (one [])).1
unfolding lookup add_container second contains
add_container_stale_example =
    add_container_stale toy 3 "srv" "h1" "img" "sh" none true (one []) server second
      (one-IsSynced []) refl refl

remove_container_twice_example :
    remove_container toy 3 "srv" false (remove_container toy 3 "srv" true (one ("srv" ∷ []))).1
    ≡ (raised Error.value_error, (remove_container toy 3 "srv" true (one ("srv" ∷ []))).1)
unfolding lookup remove_container
remove_container_twice_example =
    remove_container_twice toy 3 "srv" true false (one ("srv" ∷ [])) server
      (one-IsSynced ("srv" ∷ [])) refl refl

do_delete-Answers_example :
    Answers toy 3 "srv"
      (one ("srv" ∷ []))
      (some server)
      (do_delete toy 3 (str_append "/containers/" "srv") (one ("srv" ∷ [])))
unfolding lookup has_slash
do_delete-Answers_example =
    do_delete-Answers toy 3 "srv" (one ("srv" ∷ [])) (one-IsSynced ("srv" ∷ [])) refl

abbrev some_args : DockerArgs
some_args =
    ("volumes", Arg.table (("/data", Leaf.mount "/data" "ro") ∷ []))
    ∷ ("cpuset_cpus", Arg.text "0")
    ∷ []

abbrev with_dict : Manager String (List String)
with_dict = record (one []) { dicts = some_args ∷ [] }

add_container_reused_example :
    (add_container toy 3 "db" "h1" "img" "sh"
      (some 0)
      true
      (create_container toy "web" (some "id1") "img" "sh" 0 with_dict).1).0
    ≡ raised Error.invalid_docker_args
unfolding create_container lookup contains
add_container_reused_example =
    add_container_reused toy 3 "web" (some "id1") "img" "sh" 0 "web" with_dict "db" "h1" "img" "sh"
      (some "id1") true (create_container toy "web" (some "id1") "img" "sh" 0 with_dict).1
      (omega arith) refl refl refl

-- A Docker that shows a container for as many more rounds as its world says.
abbrev slow : Docker String ℕ
slow = record {
  create = λ args w. (ok "srv", w);
  start = λ i w. (ok tt, w);
  get = λ n w. (if w == 0 then none else some n, w);
  running = λ i w. true;
  reload = λ i w. w;
  remove = λ i w. (ok tt, w);
  stats = λ i w. (
    record {
      percpu_count = 1;
      total_usage = 3;
      precpu_total_usage = 1;
      system_cpu_usage = 20;
      precpu_system_cpu_usage = 10;
      memory_usage = 4096;
    },
    w,
  );
  pause = λ w. w - 1;
  close = λ w. w;
}

remove_container_done_example : (remove_container slow 4 "srv" true (one 3)).0 ≡ ok tt
unfolding lookup
remove_container_done_example =
    remove_container_done slow 3 4 "srv" true (one 3) server (one-IsSynced 3) refl refl refl
      (omega arith)

do_delete_done_example :
    (do_delete slow 4 (str_append "/containers/" "srv") (one 3)).0
    ≡ ok (record { status = 200; body = [] })
unfolding lookup has_slash
do_delete_done_example =
    do_delete_done slow 4 3 "srv" (one 3) server (one-IsSynced 3) refl refl refl refl (omega arith)
