-- ===== src/Devices/Pricing.antt =====
-- `class xPU` (src/devices.py): the traffic, the time and the energy of a layer on a GPU or a CPU. The statements
-- change the table of tiles, which each of `_compute_time`, `_mem_time` and `_get_traffic` asks.
pub mod Price
pub mod Energy
use attacc_simulator_vlm.Prelude.{ℕ, List, Result, ok}
use attacc_simulator_vlm.Model.Types.{LayerType, fc, matmul, x2g, g2g}
use attacc_simulator_vlm.Model.Layer.{Layer}
use attacc_simulator_vlm.Ramulator.Machine.{Clock}
use attacc_simulator_vlm.Ramulator.Statements.{Action, continue_with, pure, ◌>>=◌}
use attacc_simulator_vlm.Devices.Arithmetic.{Arithmetic}
use attacc_simulator_vlm.Devices.Rates.{
  XpuDevice, Traffic, Bound, product_traffic, plain_traffic, compute_time_for, mem_time_for,
  bounded_time, device_energies, io_time_energy,
}
use attacc_simulator_vlm.Devices.{Tiles, TileKey, get_optimal_tile}

-- `table_tiles`
abbrev pub TileTable : Type 0
TileTable = List (TileKey × Tiles)

module _ {ck : Clock} (ar : Arithmetic ck) (xpu : XpuDevice ck) where
  abbrev pub tiles_of : Layer → Action TileTable Tiles
  tiles_of = get_optimal_tile xpu.costs xpu.cores

  abbrev pub searched_traffic : Layer → Action TileTable Traffic
  searched_traffic layer = tiles_of layer >>= λ tiles. pure (product_traffic layer tiles)

  -- `_get_traffic`
  abbrev pub typed_traffic : LayerType → Layer → Action TileTable Traffic
  typed_traffic fc layer = searched_traffic layer
  typed_traffic matmul layer = searched_traffic layer
  typed_traffic _ layer = pure (ok (plain_traffic layer))

  unfoldable pub get_traffic : Layer → Action TileTable Traffic
  get_traffic layer = typed_traffic layer.type layer

  unfoldable pub compute_time : Layer → Action TileTable (ck.Time)
  compute_time layer = tiles_of layer >>= λ tiles. pure (compute_time_for ar xpu layer tiles)

  unfoldable pub mem_time : Layer → Action TileTable (ck.Time)
  unfolding get_traffic
  mem_time layer = do
    tiles ← tiles_of layer
    traffic ← get_traffic layer
    pure (mem_time_for ar xpu xpu.name layer.type layer tiles traffic)

  -- `_exec_time`, with the `layer.bound` that it assigns.
  unfoldable pub exec_time : Layer → Action TileTable (ck.Time × Bound)
  unfolding compute_time mem_time
  exec_time layer = do
    compute ← compute_time layer
    mem ← mem_time layer
    pure (ok (bounded_time ar xpu compute mem))

  unfoldable pub get_energy : Layer → Action TileTable (List ℕ)
  unfolding get_traffic
  get_energy layer =
      get_traffic layer >>= λ traffic. pure (ok (device_energies ar xpu layer traffic))

  abbrev pub computed : Layer → Action TileTable (ck.Time × List ℕ)
  computed layer = do
    (time, bound) ← exec_time layer
    energies ← get_energy layer
    pure (ok (time, energies))

  abbrev pub typed_cost : LayerType → Layer → Action TileTable (ck.Time × List ℕ)
  typed_cost x2g layer = pure (io_time_energy ar xpu xpu.name layer)
  typed_cost g2g layer = pure (io_time_energy ar xpu xpu.name layer)
  typed_cost _ layer = computed layer

  -- `get_time_and_energy`
  unfoldable pub get_time_and_energy : Layer → Action TileTable (ck.Time × List ℕ)
  unfolding exec_time get_energy
  get_time_and_energy layer = typed_cost layer.type layer
