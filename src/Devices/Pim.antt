-- ===== src/Devices/Pim.antt =====
-- `class PIM` (src/devices.py): which layers it takes, and what it charges for them. A score layer stands for
-- the whole attention and goes to the wrapper of the simulator.
use attacc_simulator_vlm.Prelude.{
  ℕ, ◌+◌, ◌*◌, ◌/◌, Bool, true, false, List, [], ◌∷◌, map, Result, ok, raise, ◌>>=◌, index_error,
  assertion_error,
}
use attacc_simulator_vlm.Model.Types.{LayerType, matmul, x2g, LayerName, score, vit_score}
use attacc_simulator_vlm.Model.Layer.{Layer, get_flops}
use attacc_simulator_vlm.Config.Energy.{PimType, PimEnergy}
use attacc_simulator_vlm.Ramulator.Machine.{Pandas, Clock, Host}
use attacc_simulator_vlm.Ramulator.Statements.{Store, Action, continue_with, pure}
use attacc_simulator_vlm.Ramulator.{Setup, output}

-- The fields of a `PIM` that the layers' costs are computed from; `transfer_time` is the float of bytes over
-- half the bandwidth of the interface, and `no_time` is 0.
pub record Pim (ck : Clock) : Type 0 where
  pub pim_type : PimType
  pub num_attacc : ℕ
  pub energy_table : PimEnergy
  pub power_constraint : Bool
  pub transfer_time : ℕ → ck.Time
  pub no_time : ck.Time

-- `'score' in layer.name`
abbrev pub has_score : LayerName → Bool
has_score score = true
has_score vit_score = true
has_score _ = false

-- The loop over `io_energy_table`.
unfoldable pub io_energy : (io_energy_table traffic : List ℕ) → Result ℕ
io_energy [] traffic = ok 0
io_energy (e ∷ table) [] = raise index_error
io_energy (e ∷ table) (x ∷ traffic) = do rest ← io_energy table traffic; ok (x * e + rest)

-- `traffic[-1]`
abbrev pub last_traffic : List ℕ → Result ℕ
last_traffic [] = raise index_error
last_traffic (x ∷ []) = ok x
last_traffic (x ∷ y ∷ rest) = last_traffic (y ∷ rest)

abbrev pub no_energies : List ℕ
no_energies = 0 ∷ 0 ∷ 0 ∷ 0 ∷ 0 ∷ 0 ∷ []

module _ {ck : Clock} where
  -- `_io_time_energy`
  unfoldable pub io_time_energy : Pim ck → Layer → ck.Time × List ℕ
  io_time_energy pim layer =
      let traffic = layer.m * layer.n * layer.num_op * layer.dbyte in
      (
        pim.transfer_time traffic,
        0 ∷ 0 ∷ 0 ∷ 0 ∷ 0 ∷ traffic * pim.energy_table.comm * pim.num_attacc ∷ [],
      )

  -- The time and the energies of a score layer, from the energies of a unit for the cells, the transfers and
  -- the operations.
  abbrev pub charged : Pim ck → ck.Time → (cell io cal : ℕ) → ck.Time × List ℕ
  charged pim time cell io cal =
      (time, map (λ i. i * pim.num_attacc) ((cell + io) ∷ 0 ∷ 0 ∷ 0 ∷ cal ∷ 0 ∷ []))

  -- What is charged for the time and the traffic of `ramulator.output`.
  unfoldable pub charge : Pim ck → Layer → ck.Time × List ℕ → Result (ck.Time × List ℕ)
  charge pim layer (time, traffic) = do
    io ← io_energy pim.energy_table.io traffic
    accesses ← last_traffic traffic
    ok (
        charged pim time (accesses * pim.energy_table.mem) io
          (get_flops layer / 2 * pim.energy_table.alu))

module _ {pd : Pandas} {ck : Clock} where
  -- The branch on the type of a layer, and for a product on its name.
  abbrev pub product_cost :
      Bool
      → Pim ck
      → Layer
      → Action (Store pd) (ck.Time × List ℕ)
      → Action (Store pd) (ck.Time × List ℕ)
  product_cost true pim layer simulated s =
      let (r, after) = simulated s in continue_with (λ found. pure (charge pim layer found)) r after
  product_cost false pim layer simulated s = (ok (pim.no_time, no_energies), s)

  abbrev pub typed_cost :
      LayerType
      → Pim ck
      → Layer
      → Action (Store pd) (ck.Time × List ℕ)
      → Action (Store pd) (ck.Time × List ℕ)
  typed_cost x2g pim layer simulated s = (ok (io_time_energy pim layer), s)
  typed_cost matmul pim layer simulated s =
      product_cost (has_score layer.name) pim layer simulated s
  typed_cost LayerType.softmax pim layer simulated s = (ok (pim.no_time, no_energies), s)
  typed_cost _ pim layer simulated s = (raise assertion_error, s)

module _ (pd : Pandas) (ck : Clock) (host : Host) (su : Setup) where
  -- `get_time_and_energy`
  unfoldable pub get_time_and_energy : Pim ck → Layer → Action (Store pd) (ck.Time × List ℕ)
  get_time_and_energy pim layer =
      typed_cost layer.type pim layer (output pd ck host su pim.pim_type layer pim.power_constraint)
