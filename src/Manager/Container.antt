-- ===== src/Manager/Container.antt =====
-- The methods of `APPContainerManager` (comnetsemu/net.py) that call Docker. A waiting loop makes at
-- most `fuel` rounds.
use comnetsemu.Prelude.{ℕ, zero, suc, ◌+◌, ◌*◌, ◌-◌, String, Bool, true, false, Option, none, some}
use comnetsemu.Prelude.{List, [], ◌∷◌, ◌++◌, if◌then◌else◌, length, string_eq, get_or}
use comnetsemu.Prelude.Dict.{lookup, insert, erase}
use comnetsemu.Prelude.Int.{ℤ, pos, negsuc, ltb_ℤ, sub_ℕ}
use comnetsemu.Manager.Data.{AppContainer, Result, ok, raised, waiting, Error}
use comnetsemu.Manager.Docker.{Docker, Stats}
use comnetsemu.Manager.State.{
  Manager, ◌>>=◌, ◌>>◌, pure, gets, or_raise, call, modify, remove_object, remove_name,
}
use comnetsemu.Manager.Create.{create_container}

-- `if not docker_args: docker_args = dict()`: the reference of the dict that is used.
unfoldable pub choose_args : {I W : Type 0} → Option ℕ → Manager I W → Result ℕ × Manager I W
choose_args none s = (ok (length s.dicts), record s { dicts = s.dicts ++ [] ∷ [] })
choose_args (some ref) s = elim (get_or s.dicts ref []) [
  | [] ↦ (ok (length s.dicts), record s { dicts = s.dicts ++ [] ∷ [] })
  | e ∷ args ↦ (ok ref, s)
]

-- `APPContainer(name, dhost.name, dimage, dins)`: the command is the constructor's default.
unfoldable pub new_container :
    {I W : Type 0}
    → String
    → String
    → String
    → I
    → Manager I W
    → Result (AppContainer I) × Manager I W
new_container name dhost dimage dins s = (
  ok (record {
    oid = s.next_oid;
    name = name;
    dhost = dhost;
    dimage = dimage;
    dcmd = "/usr/bin/env sh";
    dins = dins;
  }),
  record s { next_oid = s.next_oid + 1 },
)

-- The three registrations at the end of `addContainer`.
unfoldable pub register : {I W : Type 0} → AppContainer I → Manager I W → Manager I W
unfolding insert
register c s = record s {
  queue = s.queue ++ c ∷ [];
  by_name = insert c.name c s.by_name;
  appcontainers = s.appcontainers ++ c.name ∷ [];
}

-- The end of `addContainer`, from the constructor on.
unfoldable pub register_new :
    {I W : Type 0}
    → String
    → String
    → String
    → I
    → Manager I W
    → Result (AppContainer I) × Manager I W
unfolding new_container register
register_new name dhost dimage dins = do
  container ← new_container name dhost dimage dins
  modify (register container)
  pure container

-- `self._container_queue.remove(container)`
unfoldable pub remove_from_queue :
    {I W : Type 0} → AppContainer I → Manager I W → Result (Unit {0}) × Manager I W
unfolding remove_object
remove_from_queue c s = elim (remove_object c.oid s.queue) [
  | none ↦ (raised Error.value_error, s)
  | some q ↦ (ok tt, record s { queue = q })
]

-- `self.net._appcontainers.remove(name)`
unfoldable pub remove_from_net :
    {I W : Type 0} → String → Manager I W → Result (Unit {0}) × Manager I W
unfolding remove_name
remove_from_net name s = elim (remove_name name s.appcontainers) [
  | none ↦ (raised Error.value_error, s)
  | some l ↦ (ok tt, record s { appcontainers = l })
]

-- The last three lines of `removeContainer`.
unfoldable pub unregister :
    {I W : Type 0} → AppContainer I → String → Manager I W → Result (Unit {0}) × Manager I W
unfolding remove_from_queue remove_from_net erase
unregister c name = do
  remove_from_queue c
  remove_from_net name
  modify (λ s. record s { by_name = erase name s.by_name })

-- A percentage as the fraction `num / den`.
pub record Percent : Type 0 where
  pub num : ℤ
  pub den : ℕ

-- `x * k` for a natural `k`.
abbrev scale : ℤ → ℕ → ℤ
scale (pos n) k = pos (n * k)
scale (negsuc n) k = sub_ℕ 0 (suc n * k)

-- `_calculate_cpu_percent`, on exact fractions where the code has floats.
unfoldable pub calculate_cpu_percent : Stats → Percent
calculate_cpu_percent st =
    let cpu_delta = sub_ℕ st.total_usage st.precpu_total_usage in
    let system_delta = sub_ℕ st.system_cpu_usage st.precpu_system_cpu_usage in
    let cpu_percent : Percent =
      if ltb_ℤ (pos 0) system_delta
      then record {
        num = scale cpu_delta (100 * st.percpu_count);
        den = st.system_cpu_usage - st.precpu_system_cpu_usage;
      }
      else record { num = pos 0; den = 1 } in
    if ltb_ℤ (pos (100 * cpu_percent.den)) cpu_percent.num
    then record { num = pos 100; den = 1 }
    else cpu_percent

module _ {I W : Type 0} (d : Docker I W) where
  -- `while not self._getDockerIns(name): sleep`
  unfoldable pub wait_listed : ℕ → String → W → Result (Unit {0}) × W
  wait_listed zero name w = (waiting, w)
  wait_listed (suc fuel) name w =
      let (found, w') = d.get name w in
      elim found [ none ↦ wait_listed fuel name (d.pause w') | some i ↦ (ok tt, w') ]

  -- `while not dins.attrs["State"]["Running"]: sleep; dins.reload()`
  unfoldable pub wait_running : ℕ → I → W → Result (Unit {0}) × W
  wait_running zero i w = (waiting, w)
  wait_running (suc fuel) i w = elim (d.running i w) [
    | true ↦ (ok tt, w)
    | false ↦ wait_running fuel i (d.reload i (d.pause w))
  ]

  -- `_waitContainerStart`; a container that is gone at the second look has no `attrs`.
  unfoldable pub wait_container_start : ℕ → String → W → Result (Unit {0}) × W
  unfolding wait_listed wait_running
  wait_container_start fuel name w =
      let (r, w1) = wait_listed fuel name w in
      elim r [
        | ok _ ↦
            let (found, w2) = d.get name w1 in
            elim found [
              | none ↦ (raised Error.attribute_error, w2)
              | some i ↦ wait_running fuel i w2
            ]
        | raised e ↦ (raised e, w1)
        | waiting ↦ (waiting, w1)
      ]

  -- `_waitContainerRemoved`
  unfoldable pub wait_container_removed : ℕ → String → W → Result (Unit {0}) × W
  wait_container_removed zero name w = (waiting, w)
  wait_container_removed (suc fuel) name w =
      let (found, w') = d.get name w in
      elim found [ none ↦ (ok tt, w') | some i ↦ wait_container_removed fuel name (d.pause w') ]

  -- `addContainer`
  unfoldable pub add_container :
      ℕ
      → String
      → String
      → String
      → String
      → Option ℕ
      → Bool
      → Manager I W
      → Result (AppContainer I) × Manager I W
  unfolding choose_args lookup create_container wait_container_start register_new
  add_container fuel name dhost dimage dcmd docker_args wait = do
    ref ← choose_args docker_args
    node ← gets (λ s. lookup dhost s.nodes)
    dhost_id ← or_raise node Error.key_error
    dins ← create_container d name dhost_id dimage dcmd ref
    call (d.start dins)
    (if wait then call (wait_container_start fuel name) else pure tt)
    register_new name dhost dimage dins

  -- `removeContainer`
  unfoldable pub remove_container :
      ℕ → String → Bool → Manager I W → Result (Unit {0}) × Manager I W
  unfolding lookup wait_container_removed unregister
  remove_container fuel name wait = do
    found ← gets (λ s. lookup name s.by_name)
    container ← or_raise found Error.value_error
    call (d.remove container.dins)
    (if wait then call (wait_container_removed fuel container.name) else pure tt)
    unregister container name

  -- The loop of `monResourceStats`, with `left` samples to take.
  unfoldable pub sample_stats : ℕ → I → W → List (Percent × ℕ) × W
  unfolding calculate_cpu_percent
  sample_stats zero i w = ([], w)
  sample_stats (suc left) i w =
      let (st, w1) = d.stats i w in
      let (rest, w2) = sample_stats left i (d.pause w1) in
      ((calculate_cpu_percent st, st.memory_usage) ∷ rest, w2)

  -- `monResourceStats`; the memory usage is in bytes, where the code divides by 1024 ** 2.
  unfoldable pub mon_resource_stats :
      String → ℕ → Manager I W → Result (List (Percent × ℕ)) × Manager I W
  unfolding lookup sample_stats
  mon_resource_stats name sample_num = do
    found ← gets (λ s. lookup name s.by_name)
    container ← or_raise found Error.value_error
    call (λ w. let (usages, w') = sample_stats sample_num container.dins w in (ok usages, w'))

  -- The loop of `stop` over the queue.
  unfoldable pub remove_all : List (AppContainer I) → W → Result (Unit {0}) × W
  remove_all [] w = (ok tt, w)
  remove_all (c ∷ cs) w =
      let (r, w') = d.remove c.dins w in
      elim r [ ok _ ↦ remove_all cs w' | raised e ↦ (raised e, w') | waiting ↦ (waiting, w') ]

  -- `shutil.rmtree(APPCONTAINERMANGER_MOUNTED_DIR)`
  abbrev rmtree : Manager I W → Result (Unit {0}) × Manager I W
  rmtree s =
      if s.mounted_dir
      then (ok tt, record s { mounted_dir = false })
      else (raised Error.os_error, s)

  -- `stop`; the test for an empty queue skips a loop of no rounds.
  unfoldable pub stop : Manager I W → Result (Unit {0}) × Manager I W
  unfolding remove_all
  stop = do
    containers ← gets (λ s. s.queue)
    call (remove_all containers)
    modify (λ s. record s { world = d.close s.world })
    rmtree

-- `runRESTServerThread`: what it notes of the thread that it starts.
unfoldable pub run_rest_server_thread :
    {I W : Type 0} → Manager I W → Result (Unit {0}) × Manager I W
run_rest_server_thread = modify (λ s. record s { http_server_started = true })
