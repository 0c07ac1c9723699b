-- ===== src/Manager/Prepared.antt =====
-- The ways in which the part of `_createContainer` (comnetsemu/net.py) before the call of Docker ends, with what it makes of the caller's Docker arguments.
use Prim.Native.String.{◌++◌}
use comnetsemu.Prelude.{
  String, true, Option, none, some, List, [], ◌∷◌, string_eq, ◌≡◌, ◌≢◌, All, Memᴰ, ◌⊎◌,
}
use comnetsemu.Prelude.Dict.{Dict, lookup, update}
use comnetsemu.Manager.Data.{Arg, Leaf, DockerArgs, Result, ok, raised, waiting, Error}

-- The keys that the manager sets itself: first those that it sets before it looks for the host's container.
abbrev pub begun_keys : List String
begun_keys = "init" ∷ "tty" ∷ "detach" ∷ "labels" ∷ "security_opt" ∷ "name" ∷ "image" ∷ []

abbrev pub managed_keys : List String
managed_keys =
    "init" ∷ "tty" ∷ "detach" ∷ "labels" ∷ "security_opt" ∷ "name" ∷ "image" ∷ "cgroup_parent"
    ∷ "command" ∷ "network_mode" ∷ []

-- The keys that a caller may not set.
abbrev pub forbidden_keys : List String
forbidden_keys =
    "init" ∷ "tty" ∷ "detach" ∷ "labels" ∷ "security_opt" ∷ "cgroup_parent" ∷ "network_mode" ∷ []

abbrev pub shared_directory : Dict String Leaf
shared_directory =
    ("/tmp/comnetsemu/appcontainermanger", Leaf.mount "/tmp/comnetsemu/appcontainermanger" "rw")
    ∷ []

abbrev pub IsNone : String → List String → Type 0
IsNone k [] = Unit
IsNone k (j ∷ js) = (j ≢ k) × IsNone k js

-- A caller's table of volumes has got the shared directory, and nothing else has changed.
pub record HasShared (given out : DockerArgs) : Type 0 where
  pub no_volumes : lookup "volumes" given ≡ none → lookup "volumes" out ≡ none
  pub volumes :
      (t : Dict String Leaf)
      → lookup "volumes" given ≡ some (Arg.table t)
      → lookup "volumes" out ≡ some (Arg.table (update t shared_directory))
  pub others : (k : String) → k ≢ "volumes" → lookup k out ≡ lookup k given

-- What is set before the method looks for the host's container.
pub record IsBegun (name dimage : String) (given out : DockerArgs) : Type 0 where
  pub init : lookup "init" out ≡ some (Arg.flag true)
  pub tty : lookup "tty" out ≡ some (Arg.flag true)
  pub detach : lookup "detach" out ≡ some (Arg.flag true)
  pub labels :
      lookup "labels" out ≡ some (Arg.table (("comnetsemu", Leaf.label "dockercontainer") ∷ []))
  pub security_opt : lookup "security_opt" out ≡ some (Arg.texts ("seccomp:unconfined" ∷ []))
  pub named : lookup "name" out ≡ some (Arg.text name)
  pub image : lookup "image" out ≡ some (Arg.text dimage)
  pub no_volumes : lookup "volumes" given ≡ none → lookup "volumes" out ≡ none
  pub volumes :
      (t : Dict String Leaf)
      → lookup "volumes" given ≡ some (Arg.table t)
      → lookup "volumes" out ≡ some (Arg.table (update t shared_directory))

-- The dict where the method stops for want of the host's container.
pub record IsHalf (name dimage : String) (given out : DockerArgs) : Type 0 where
  pub begun : IsBegun name dimage given out
  pub others : (k : String) → IsNone k begun_keys → k ≢ "volumes" → lookup k out ≡ lookup k given

-- The arguments with which Docker is called for a container on the host with that Docker id.
pub record IsFilled (name dhost_id dimage dcmd : String) (given out : DockerArgs) : Type 0 where
  pub begun : IsBegun name dimage given out
  pub cgroup_parent : lookup "cgroup_parent" out ≡ some (Arg.text ("/docker/" ++ dhost_id))
  pub command : lookup "command" out ≡ some (Arg.text dcmd)
  pub network_mode : lookup "network_mode" out ≡ some (Arg.text ("container:" ++ dhost_id))
  pub others : (k : String) → IsNone k managed_keys → k ≢ "volumes" → lookup k out ≡ lookup k given

abbrev pub NoReserved : DockerArgs → Type 0
NoReserved args = All (λ k. lookup k args ≡ none) forbidden_keys

abbrev pub HasReserved : DockerArgs → Type 0
HasReserved args = (k : String) × (v : Arg) × Memᴰ k forbidden_keys × (lookup k args ≡ some v)

abbrev pub IsNoTable : Arg → Type 0
IsNoTable (Arg.table t) = ⊥
IsNoTable _ = Unit

-- How the part of `_createContainer` before the call of Docker ends.
abbrev pub Prepares :
    String → Option String → String → String → DockerArgs → Result (Unit {0}) × DockerArgs → Type 0
Prepares name dhost_id dimage dcmd given (ok _, out) =
    (i : String) × (dhost_id ≡ some i) × NoReserved given × IsFilled name i dimage dcmd given out
Prepares name dhost_id dimage dcmd given (raised e, out) =
    ((v : Arg) × (lookup "volumes" given ≡ some v)
      × IsNoTable v
      × (e ≡ Error.attribute_error)
      × (out ≡ given))
    ⊎ (HasReserved given × (e ≡ Error.invalid_docker_args) × HasShared given out)
    ⊎ (NoReserved given
        × (dhost_id ≡ none)
        × (e ≡ Error.attribute_error)
        × IsHalf name dimage given out)
Prepares name dhost_id dimage dcmd given (waiting, out) = ⊥
