-- ===== src/Devices/Rates.antt =====
-- `class xPU` (src/devices.py): what the time and the energy of a layer are, given its tiles. Energies are whole,
-- in the units of Config.Energy, in which every `alu` is even.
use attacc_simulator_vlm.Prelude.{
  ℕ, ◌+◌, ◌-◌, ◌*◌, ◌/◌, ◌^◌, ◌==◌, if◌then◌else◌, List, [], ◌∷◌, map, Result, ok, raise, ◌>>=◌,
  zero_division,
}
use attacc_simulator_vlm.Model.Types.{LayerType, fc, act, norm, x2g, DeviceType, gpu, cpu}
use attacc_simulator_vlm.Model.Layer.{Layer, get_flops, get_size}
use attacc_simulator_vlm.Config.Energy.{XpuEnergy}
use attacc_simulator_vlm.Ramulator.Machine.{Clock}
use attacc_simulator_vlm.Devices.Arithmetic.{Arithmetic, over, larger, zero_time}
use attacc_simulator_vlm.Devices.{Costs, Xpu, Tiles, ceil_of, get_traffic_for_tile}

-- The fields of an `xPU`.
pub record XpuDevice (ck : Clock) : Type 1 where
  pub name : DeviceType
  pub num_xpu : ℕ
  pub cores : Xpu
  pub costs : Costs
  pub peak_flops : ck.Time
  pub peak_memory_bandwidth : ck.Time
  pub peak_l2_bandwidth : ck.Time
  pub max_interface_bandwidth : ck.Time
  pub max_compute_util : ck.Time
  pub max_memory_util : ck.Time
  pub energy_table : XpuEnergy
  pub aggregate_memory_capacity : ℕ

-- The four lists of `_get_traffic`.
pub record Traffic : Type 0 where
  pub off_data : ℕ × ℕ × ℕ
  pub l2_data : ℕ × ℕ × ℕ
  pub l1_data : ℕ × ℕ × ℕ
  pub reg_data : ℕ × ℕ × ℕ

abbrev pub total : ℕ × ℕ × ℕ → ℕ
total (a, b, c) = a + b + c

-- `_get_traffic` for a product, and for any other layer.
unfoldable pub product_traffic : Layer → Tiles → Result Traffic
product_traffic layer tiles = do
  off ← get_traffic_for_tile tiles.l2.0 tiles.l2.1 layer
  l2 ← get_traffic_for_tile tiles.l1.0 tiles.l1.1 layer
  l1 ← get_traffic_for_tile 16 16 layer
  let elements = layer.m * layer.n * layer.k
  ok (record {
    off_data = off;
    l2_data = l2;
    l1_data = l1;
    reg_data = (elements, elements, elements);
  })

abbrev pub plain_traffic : Layer → Traffic
plain_traffic layer =
    let sizes = get_size layer in
    record { off_data = sizes; l2_data = sizes; l1_data = sizes; reg_data = sizes }

-- `num_threadblock` of `_compute_time` and `_mem_time`.
abbrev pub threadblocks : LayerType → Layer → ℕ × ℕ → Result ℕ
threadblocks fc layer (tm, tn) = do
  rows ← ceil_of layer.m tm
  columns ← ceil_of layer.n tn
  ok (rows * columns * layer.num_op)
threadblocks _ layer tile = ok layer.num_op

-- `'compute'` and `'memory'`, the values of `layer.bound`.
pub data Bound : Type 0 where
  compute memory : Bound

module _ {ck : Clock} (ar : Arithmetic ck) (xpu : XpuDevice ck) where
  open ar use {of_nat, decimal, plus, times, divide, less, is_zero}

  unfoldable pub core_utilization : Layer → ℕ × ℕ → Result (ck.Time)
  core_utilization layer tile = do
    num_threadblock ← threadblocks layer.type layer tile
    rounds ← ceil_of num_threadblock xpu.cores.num_core
    over ar (of_nat num_threadblock) (of_nat (rounds * xpu.cores.num_core))

  -- A rate on the cores that the thread blocks of a GPU keep busy; a CPU's rate is not scaled.
  abbrev pub on_cores : DeviceType → ck.Time → Layer → ℕ × ℕ → Result (ck.Time)
  on_cores gpu rate layer tile = do
    utilization ← core_utilization layer tile
    ok (times rate utilization)
  on_cores _ rate layer tile = ok rate

  -- `int(2 / dbyte)`
  abbrev pub per_word : ℕ → Result ℕ
  per_word dbyte = if dbyte == 0 then raise zero_division else ok (2 / dbyte)

  -- `_compute_time`, behind the tiles.
  unfoldable pub compute_time_for : Layer → Tiles → Result (ck.Time)
  compute_time_for layer tiles = do
    flops ← on_cores xpu.name (times xpu.peak_flops xpu.max_compute_util) layer tiles.l1
    words ← per_word layer.dbyte
    over ar (of_nat (get_flops layer)) (times flops (of_nat words))

  -- The measured times of the activations and of the norms, from a slope and an offset.
  abbrev pub fitted_time : (slope offset : ck.Time) → ℕ → Result (ck.Time)
  fitted_time slope offset bytes = do
    scale ← over ar (of_nat (1555 * 10 ^ 9)) xpu.peak_memory_bandwidth
    ok (
        divide (divide (plus (times (times slope scale) (of_nat bytes)) offset) (of_nat 1000))
          (of_nat 1000))

  -- The larger of the times of the memory and of the second-level cache.
  unfoldable pub streaming_time : Layer → Tiles → Traffic → Result (ck.Time)
  streaming_time layer tiles traffic = do
    mem_bw ← on_cores xpu.name (times xpu.peak_memory_bandwidth xpu.max_memory_util) layer tiles.l1
    off ← over ar (of_nat (total traffic.off_data)) mem_bw
    l2 ← over ar (of_nat (total traffic.l2_data)) xpu.peak_l2_bandwidth
    ok (larger ar (larger ar (larger ar off l2) (zero_time ar)) (zero_time ar))

  abbrev pub positive_part : ck.Time → ck.Time
  positive_part t = larger ar (larger ar (larger ar t (zero_time ar)) (zero_time ar)) (zero_time ar)

  -- `max(*self._mem_time(layer))`, behind the tiles and the traffic.
  abbrev pub mem_time_for : DeviceType → LayerType → Layer → Tiles → Traffic → Result (ck.Time)
  mem_time_for gpu act layer tiles traffic = do
    t ← fitted_time (decimal 447 9) (decimal 829 2) (total traffic.off_data)
    ok (positive_part t)
  mem_time_for gpu norm layer tiles traffic = do
    t ← fitted_time (decimal 16 7) (decimal 687 2) (total traffic.off_data)
    ok (positive_part t)
  mem_time_for _ _ layer tiles traffic = streaming_time layer tiles traffic

  -- `_exec_time`, behind both times: the time and `layer.bound`.
  abbrev pub bounded_time : (compute_time mem_time : ck.Time) → ck.Time × Bound
  bounded_time compute_time mem_time =
      if less mem_time compute_time then (compute_time, compute) else (mem_time, memory)

  -- `_get_energy`, behind the traffic.
  abbrev pub energies_of : DeviceType → Layer → Traffic → List ℕ
  energies_of cpu layer traffic =
      total traffic.off_data * xpu.energy_table.mem
      ∷ 0
      ∷ 0
      ∷ 0
      ∷ get_flops layer * xpu.energy_table.alu / 2
      ∷ 0
      ∷ []
  energies_of _ layer traffic =
      total traffic.off_data * xpu.energy_table.mem
      ∷ total traffic.l2_data * xpu.energy_table.l2
      ∷ total traffic.l1_data * xpu.energy_table.l1
      ∷ total traffic.reg_data * xpu.energy_table.reg
      ∷ get_flops layer * xpu.energy_table.alu / 2
      ∷ 0
      ∷ []

  abbrev pub device_energies : Layer → Traffic → List ℕ
  device_energies layer traffic = map (λ i. i * xpu.num_xpu) (energies_of xpu.name layer traffic)

  -- `get_nvlink_time`
  unfoldable pub get_nvlink_time : ck.Time → Result (ck.Time)
  get_nvlink_time size = if is_zero size then ok (of_nat 1) else (do
    scale ← over ar (of_nat (600 * 10 ^ 9)) xpu.max_interface_bandwidth
    let ns = plus (of_nat 6060) (times (times (decimal 9 3) size) scale)
    direct ← over ar size (divide xpu.max_interface_bandwidth (of_nat 2))
    ok (larger ar (divide (divide (divide ns (of_nat 1000)) (of_nat 1000)) (of_nat 1000)) direct))

  -- The bytes of a transfer, and its time over half the interface.
  abbrev pub transferred : Layer → ℕ
  transferred layer = layer.m * layer.n * layer.num_op * layer.dbyte

  abbrev pub one_way_time : Layer → Result (ck.Time)
  one_way_time layer =
      over ar (of_nat (transferred layer)) (divide xpu.max_interface_bandwidth (of_nat 2))

  -- An allreduce.
  abbrev pub allreduce_time : Layer → Result (ck.Time)
  allreduce_time layer = do
    share ← over ar (of_nat (transferred layer)) (of_nat xpu.num_xpu)
    hop ← get_nvlink_time share
    ok (times hop (of_nat (xpu.num_xpu - 1)))

  abbrev pub gpu_io_time : LayerType → Layer → Result (ck.Time)
  gpu_io_time x2g layer = one_way_time layer
  gpu_io_time _ layer = allreduce_time layer

  abbrev pub comm_energies : ℕ → List ℕ
  comm_energies energy = 0 ∷ 0 ∷ 0 ∷ 0 ∷ 0 ∷ energy ∷ []

  -- `_io_time_energy`
  abbrev pub io_time_energy : DeviceType → Layer → Result (ck.Time × List ℕ)
  io_time_energy cpu layer = do time ← one_way_time layer; ok (time, comm_energies 0)
  io_time_energy _ layer = do
    time ← gpu_io_time layer.type layer
    ok (time, comm_energies (xpu.num_xpu * transferred layer * xpu.energy_table.comm))
