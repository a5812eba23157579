-- ===== src/Tests/PricingRuns.antt =====
-- Runs of the xPU (src/devices.py), with whole numbers of a femtosecond for floats.
use attacc_simulator_vlm.Prelude.{
  ℕ, ◌+◌, ◌-◌, ◌*◌, ◌/◌, ◌^◌, ◌≡◌, ◌⊎◌, ◌==◌, refl, arith, List, [], ◌∷◌, All, none, ltb, ok, raise,
  zero_division,
}
use attacc_simulator_vlm.Model.Types.{gpu, x2g}
use attacc_simulator_vlm.Config.Energy.{gpu_energy}
use attacc_simulator_vlm.Devices.Arithmetic.{Arithmetic, IsExact}
use attacc_simulator_vlm.Devices.Rates.{XpuDevice}
use attacc_simulator_vlm.Devices.Pricing.{get_energy, get_time_and_energy}
use attacc_simulator_vlm.Devices.Pricing.Price.{Agrees, price, get_time_and_energy-price}
use attacc_simulator_vlm.Devices.Pricing.Energy.{Pays, get_energy-Pays}
use attacc_simulator_vlm.Devices.Minimum.{NoBetter}
use attacc_simulator_vlm.Devices.Search.{ltb-IsStrict}
use attacc_simulator_vlm.Devices.{trange, clipped, fits_l1, cost_at}
use attacc_simulator_vlm.Tests.RamulatorRuns.{femtoseconds}
use attacc_simulator_vlm.Tests.DeviceRuns.{costs, a100, dense, product}

abbrev pub whole : Arithmetic femtoseconds
whole = record {
  of_nat = λ n. n;
  decimal = λ digits places. digits / 10 ^ places;
  plus = λ a b. a + b;
  minus = λ a b. a - b;
  times = λ a b. a * b;
  divide = λ a b. a / b;
  less = ltb;
  is_zero = λ a. a == 0;
}

abbrev pub whole-IsExact : IsExact whole
whole-IsExact = record { value = λ a. a; value_zero = refl; value_plus = λ a b. refl }

abbrev pub xpu : XpuDevice femtoseconds
xpu = record {
  name = gpu;
  num_xpu = 8;
  cores = a100;
  costs = costs;
  peak_flops = 312;
  peak_memory_bandwidth = 1935;
  peak_l2_bandwidth = 4000;
  max_interface_bandwidth = 600;
  max_compute_util = 1;
  max_memory_util = 1;
  energy_table = gpu_energy;
  aggregate_memory_capacity = 80 * 1048576;
}

get_time_and_energy-price_example :
    Agrees whole xpu dense (price whole xpu dense) (get_time_and_energy whole xpu dense [])
get_time_and_energy-price_example =
    get_time_and_energy-price whole xpu dense [] (λ layer of_type. tt)

-- A transfer over half the interface.
some_transfer :
    (get_time_and_energy whole xpu (record dense { type = x2g }) []).0
    ≡ ok (54, 0 ∷ 0 ∷ 0 ∷ 0 ∷ 0 ∷ 8 * 16384 * gpu_energy.comm ∷ [])
unfolding get_time_and_energy
some_transfer = refl

get_energy-Pays_example :
    (((get_energy whole xpu product []).0 ≡ raise zero_division)
      × All
          (NoBetter ltb (fits_l1 a100 product) (cost_at costs a100 product) none)
          (clipped product trange trange))
    ⊎ ((energies : List ℕ) × ((get_energy whole xpu product []).0 ≡ ok energies)
        × Pays xpu product energies)
get_energy-Pays_example =
    get_energy-Pays whole xpu refl ltb-IsStrict product [] tt (omega arith) (omega arith)
      (omega arith) (omega arith) (λ layer of_type. tt)
