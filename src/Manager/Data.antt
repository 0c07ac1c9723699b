-- ===== src/Manager/Data.antt =====
-- Python values that the manager handles: the keyword arguments for Docker, application
-- containers (comnetsemu/node.py) and the exceptions that the code raises or lets through.
use comnetsemu.Prelude.{ℕ, String, Bool, List}
use comnetsemu.Prelude.Dict.{Dict}

-- A value inside a dict that is itself an argument: a label, or a volume's bind and mode.
pub data Leaf : Type 0 where
  label : String → Leaf
  mount : String → String → Leaf

pub data Arg : Type 0 where
  text : String → Arg
  flag : Bool → Arg
  number : ℕ → Arg
  texts : List String → Arg
  table : Dict String Leaf → Arg

abbrev pub DockerArgs : Type 0
DockerArgs = Dict String Arg

-- `oid` is the object's identity, by which `list.remove` compares.
pub record AppContainer (I : Type 0) : Type 0 where
  pub oid : ℕ
  pub name : String
  pub dhost : String
  pub dimage : String
  pub dcmd : String
  pub dins : I

pub data Error : Type 0 where
  invalid_docker_args value_error key_error attribute_error type_error api_error os_error : Error

-- `waiting` is a loop whose rounds have run out.
pub data Result {ℓ} (A : Type ℓ) : Type ℓ where
  ok : A → Result A
  raised : Error → Result A
  waiting : Result A
