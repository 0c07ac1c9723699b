-- ===== src/Manager/State.antt =====
-- The state of `APPContainerManager` together with the `net` that it manages, and the actions on
-- it. A method that takes the lock for its whole body is one action, since the other thread waits.
use comnetsemu.Prelude.{ℕ, String, Bool, Option, none, some, List, [], ◌∷◌, if◌then◌else◌, ◌==◌}
use comnetsemu.Prelude.{nat_eq, string_eq}
use comnetsemu.Prelude.Dict.{Dict}
use comnetsemu.Manager.Data.{AppContainer, DockerArgs, Error, Result, ok, raised, waiting}

pub record Manager (I W : Type 0) : Type 0 where
  -- `_container_queue`
  pub queue : List (AppContainer I)
  -- `_name_container_map`
  pub by_name : Dict String (AppContainer I)
  -- `net._appcontainers`
  pub appcontainers : List String
  -- `net`: the Docker id of each node, `none` for a node that is not a DockerHost
  pub nodes : Dict String (Option String)
  -- the argument dicts that callers hold, by reference
  pub dicts : List DockerArgs
  -- the identity of the next object
  pub next_oid : ℕ
  pub http_server_started : Bool
  -- the directory /tmp/comnetsemu/appcontainermanger exists
  pub mounted_dir : Bool
  pub world : W

module _ {I W : Type 0} {A : Type 0} where
  abbrev pub pure : A → Manager I W → Result A × Manager I W
  pure a s = (ok a, s)

  abbrev pub raise : Error → Manager I W → Result A × Manager I W
  raise e s = (raised e, s)

  abbrev pub gets : (Manager I W → A) → Manager I W → Result A × Manager I W
  gets f s = (ok (f s), s)

  abbrev pub or_raise : Option A → Error → Manager I W → Result A × Manager I W
  or_raise none e = raise e
  or_raise (some a) e = pure a

  -- A call of the Docker client.
  abbrev pub call : (W → Result A × W) → Manager I W → Result A × Manager I W
  call f s = let (r, w) = f s.world in (r, record s { world = w })

-- What follows a call, by how it ended.
abbrev pub resume :
    {I W A B : Type 0}
    → (A → Manager I W → Result B × Manager I W)
    → Result A × Manager I W
    → Result B × Manager I W
resume f (ok a, s) = f a s
resume f (raised e, s) = (raised e, s)
resume f (waiting, s) = (waiting, s)

infixl 5 ◌>>=◌ ◌>>◌
abbrev pub ◌>>=◌ :
    {I W A B : Type 0}
    → (Manager I W → Result A × Manager I W)
    → (A → Manager I W → Result B × Manager I W)
    → Manager I W
    → Result B × Manager I W
◌>>=◌ m f s = resume f (m s)

abbrev pub ◌>>◌ :
    {I W A B : Type 0}
    → (Manager I W → Result A × Manager I W)
    → (Manager I W → Result B × Manager I W)
    → Manager I W
    → Result B × Manager I W
m >> k = m >>= λ _. k

abbrev pub modify :
    {I W : Type 0} → (Manager I W → Manager I W) → Manager I W → Result (Unit {0}) × Manager I W
modify f s = (ok tt, f s)

module _ {I : Type 0} where
  -- The first container of that name.
  unfoldable pub find_name : String → List (AppContainer I) → Option (AppContainer I)
  find_name n [] = none
  find_name n (c ∷ cs) = if c.name == n then some c else find_name n cs

  -- `list.remove(container)`: the first that is the same object, or `none` (ValueError).
  unfoldable pub remove_object : ℕ → List (AppContainer I) → Option (List (AppContainer I))
  remove_object i [] = none
  remove_object i (c ∷ cs) =
      if c.oid == i
      then some cs
      else elim (remove_object i cs) [ none ↦ none | some r ↦ some (c ∷ r) ]

  -- `[c.name for c in ...]`
  unfoldable pub names : List (AppContainer I) → List String
  names [] = []
  names (c ∷ cs) = c.name ∷ names cs

  -- `[c.name for c in ... if c.dhost == dhost]`
  unfoldable pub names_on : String → List (AppContainer I) → List String
  names_on h [] = []
  names_on h (c ∷ cs) = if c.dhost == h then c.name ∷ names_on h cs else names_on h cs

-- `list.remove(name)`
unfoldable pub remove_name : String → List String → Option (List String)
remove_name n [] = none
remove_name n (m ∷ ms) =
    if m == n then some ms else elim (remove_name n ms) [ none ↦ none | some r ↦ some (m ∷ r) ]

module _ {I W : Type 0} where
  -- `getContainerInstance(name, default)`
  unfoldable pub get_container_instance :
      String
      → Option (AppContainer I)
      → Manager I W
      → Result (Option (AppContainer I)) × Manager I W
  unfolding find_name
  get_container_instance name default s =
      (elim (find_name name s.queue) [ none ↦ ok default | some c ↦ ok (some c) ], s)

  -- `getContainersDhost(dhost)`
  unfoldable pub get_containers_dhost : String → Manager I W → Result (List String) × Manager I W
  unfolding names_on
  get_containers_dhost dhost = gets (λ s. names_on dhost s.queue)

  -- `getAllContainers()`
  unfoldable pub get_all_containers : Manager I W → Result (List String) × Manager I W
  unfolding names
  get_all_containers = gets (λ s. names s.queue)
