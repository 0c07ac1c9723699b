-- ===== src/Manager/Docker.antt =====
-- The Docker client (docker-py), which is not part of the repository: its calls as functions on a
-- world `W` that they change, with container handles of type `I`.
use comnetsemu.Prelude.{ℕ, String, Bool, Option}
use comnetsemu.Manager.Data.{DockerArgs, Result}

-- The fields of a stats document that `_calculate_cpu_percent` and `monResourceStats` read.
pub record Stats : Type 0 where
  pub percpu_count : ℕ
  pub total_usage : ℕ
  pub precpu_total_usage : ℕ
  pub system_cpu_usage : ℕ
  pub precpu_system_cpu_usage : ℕ
  pub memory_usage : ℕ

pub record Docker (I W : Type 0) : Type 0 where
  -- `containers.create(**docker_args)`
  pub create : DockerArgs → W → Result I × W
  -- `container.start()`
  pub start : I → W → Result (Unit {0}) × W
  -- `containers.get(name)`; `none` is the `NotFound` error
  pub get : String → W → Option I × W
  -- `container.attrs["State"]["Running"]`, as last loaded
  pub running : I → W → Bool
  -- `container.reload()`
  pub reload : I → W → W
  -- `container.remove(force=True)`
  pub remove : I → W → Result (Unit {0}) × W
  -- `container.stats(decode=False, stream=False)`
  pub stats : I → W → Stats × W
  -- `time.sleep`
  pub pause : W → W
  -- `client.close()`
  pub close : W → W
