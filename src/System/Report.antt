-- ===== src/System/Report.antt =====
-- The end of `System.simulate` (src/system.py): the row of results, and the line that is printed of it.
use attacc_simulator_vlm.Prelude.{
  ℕ, zero, suc, ◌+◌, ◌*◌, ◌/◌, Bool, false, if◌then◌else◌, List, [], ◌∷◌, Option, none, some,
  or_raise, Result, ok, ◌>>=◌, index_error,
}
use attacc_simulator_vlm.Model.Types.{DataType, w8a8, DeviceType, pim}
use attacc_simulator_vlm.Model.Vision.{ImageSize}
use attacc_simulator_vlm.Config.Energy.{PimType}
use attacc_simulator_vlm.Ramulator.Machine.{Clock}
use attacc_simulator_vlm.Ramulator.Statements.{Action, continue_with, pure}
use attacc_simulator_vlm.Devices.Arithmetic.{Arithmetic, over}
use attacc_simulator_vlm.System.{System, Quotient, is_hetero}
use attacc_simulator_vlm.System.Simulate.{Deployment}
use attacc_simulator_vlm.System.Batches.{BatchResult, simulate}

-- What the row tells of the devices and of the model besides.
pub record Labels (ck : Clock) : Type 0 where
  pub model_name : List ℕ
  pub gpu_name : DeviceType
  pub gpu_capacity : ℕ
  pub acc_capacity : ℕ
  pub gpu_bandwidth : ck.Time
  pub acc_bandwidth : ck.Time
  pub gpu_flops : ck.Time
  pub acc_pim_type : PimType

-- A value of the row.
pub data Cell (T : Type 0) : Type 0 where
  text : List ℕ → Cell T
  dtype_name : DataType → Cell T
  device_name : DeviceType → Cell T
  pim_type_name : PimType → Cell T
  flag : Bool → Cell T
  integer : ℕ → Cell T
  float : T → Cell T
  quotient : Quotient → Cell T

-- `output`: tag, config, perf_all and energy_all.
pub record Output (T : Type 0) : Type 0 where
  pub tag : List (Cell T)
  pub config : List (Cell T)
  pub perf_all : List T
  pub energy_all : List T

-- `xs[i]`
unfoldable pub at_index : {A : Type 0} → ℕ → List A → Option A
at_index i [] = none
at_index zero (x ∷ xs) = some x
at_index (suc i) (x ∷ xs) = at_index i xs

module _ {ck : Clock} (ar : Arithmetic ck) (labels : Labels ck) (num_xpu : ℕ) (sys : System) where
  -- `int(cap / (1024 * 1024 * 1024))`
  abbrev pub total_gigabytes : ℕ
  total_gigabytes =
      (if is_hetero sys.hetero_name
        then labels.gpu_capacity + labels.acc_capacity
        else labels.gpu_capacity)
      / (1024 * 1024 * 1024)

  abbrev pub scaled_opb : DataType → ck.Time → ck.Time
  scaled_opb w8a8 opb = ar.times opb (ar.of_nat 2)
  scaled_opb _ opb = opb

  abbrev pub hardware_name : DeviceType → Cell ck.Time
  hardware_name pim = pim_type_name labels.acc_pim_type
  hardware_name name = device_name name

  -- The throughput that is printed: `batch_size / (perf_all[len(s_perf_keys)] / 1000)`.
  abbrev pub throughput : (batch_size : ℕ) → List (ck.Time) → Result (ck.Time)
  throughput batch_size perf_all = do
    latency ← or_raise (at_index 8 perf_all) index_error
    over ar (ar.of_nat batch_size) (ar.divide latency (ar.of_nat 1000))

  unfoldable pub report :
      (batch_size lin lout : ℕ)
      → (pipe power_constraint : Bool) → BatchResult ck.Time
      → Result (Output ck.Time)
  unfolding at_index
  report batch_size lin lout pipe power_constraint r = do
    bw_scale ← over ar labels.acc_bandwidth labels.gpu_bandwidth
    opb ← over ar labels.gpu_flops labels.gpu_bandwidth
    printed ← throughput batch_size r.perf
    ok (record {
      tag =
          text labels.model_name
          ∷ dtype_name sys.model.dtype
          ∷ device_name labels.gpu_name
          ∷ integer total_gigabytes
          ∷ float bw_scale
          ∷ float (scaled_opb sys.model.dtype opb)
          ∷ [];
      config =
          hardware_name sys.hetero_name
          ∷ integer num_xpu
          ∷ flag pipe
          ∷ flag false
          ∷ flag power_constraint
          ∷ integer sys.model.gqa_size
          ∷ integer lin
          ∷ integer lout
          ∷ integer batch_size
          ∷ float r.cap_usage
          ∷ quotient r.s_flops
          ∷ quotient r.g_flops
          ∷ [];
      perf_all = r.perf;
      energy_all = r.energies;
    })

-- `simulate`, with the row that it appends to `perfs`.
module _ {ck : Clock} {G : Type 0} (ar : Arithmetic ck) (dep : Deployment ck G) (labels : Labels ck)
    (sys : System) where
  unfoldable pub simulate_output :
      (batch_size lin lout num_reqs : ℕ)
      → (pipe power_constraint : Bool) → ImageSize
      → Action G (Output ck.Time)
  unfolding simulate report
  simulate_output batch_size lin lout num_reqs pipe power_constraint image_size g =
      let (simulated, after) = simulate ar dep sys batch_size lin lout num_reqs pipe image_size g in
      continue_with
        (λ r. pure (report ar labels dep.num_xpu sys batch_size lin lout pipe power_constraint r))
        simulated after
