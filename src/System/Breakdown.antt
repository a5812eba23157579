-- ===== src/System/Breakdown.antt =====
-- `System.get_capacity_breakdown` (src/system.py): the bytes of each device, and how many requests fit.
use attacc_simulator_vlm.Prelude.{ℕ, max, if◌then◌else◌, Option, none, some, Result, ok, ◌>>=◌}
use attacc_simulator_vlm.Ramulator.Machine.{Clock}
use attacc_simulator_vlm.Devices.Arithmetic.{Arithmetic, zero_time}
use attacc_simulator_vlm.System.{
  System, Quotient, MemComponents, get_required_mem_capacity, get_attacc_kv_capacity, kv_on_attacc,
}

-- The keys that are there where the keys and values of the attention are on the accelerator.
pub record AttaccPart (T I : Type 0) : Type 0 where
  pub kv_per_attacc : T
  pub available_kv_attacc : T
  pub attacc_capacity_total : T
  pub max_batch_at_default_l_attacc : I

pub record Breakdown (T I : Type 0) : Type 0 where
  pub weight_per_gpu : T
  pub kv_per_gpu : T
  pub temp_per_gpu : T
  pub available_kv : T
  pub max_batch_at_default_l : I
  pub attacc : Option (AttaccPart T I)

-- `int_of` is Python's `int` of a float, and `no_batch` its 0; the capacities are `aggregate_memory_capacity`.
module _ {ck : Clock} {I : Type 0} (ar : Arithmetic ck) (int_of : ck.Time → I) (no_batch : I)
    (gpu_capacity num_xpu acc_capacity : ℕ) (sys : System) where
  abbrev pub as_float : Quotient → ck.Time
  as_float q = ar.divide (ar.of_nat q.over) (ar.of_nat q.by)

  -- `kv_per_req_gpu` and `kv_per_req_attacc`
  abbrev pub per_request : (batch_size : ℕ) → ck.Time → ck.Time
  per_request batch_size kv =
      if ar.less (zero_time ar) kv
      then ar.divide kv (ar.of_nat (max 1 batch_size))
      else zero_time ar

  -- `int(capacity / kv_per_req) if kv_per_req > 0 else 0`
  abbrev pub max_batch : (capacity kv_per_req : ck.Time) → I
  max_batch capacity kv_per_req =
      if ar.less (zero_time ar) kv_per_req then int_of (ar.divide capacity kv_per_req) else no_batch

  abbrev pub gpu_part : (batch_size : ℕ) → MemComponents → Breakdown ck.Time I
  gpu_part batch_size required =
      let weight_memory = as_float required.weight_memory in
      let temp_memory = ar.of_nat required.temp_memory in
      let kv = as_float required.kv_memory in
      let gpu_cap_per_device = ar.divide (ar.of_nat gpu_capacity) (ar.of_nat (max 1 num_xpu)) in
      let available_kv_gpu = ar.minus (ar.minus gpu_cap_per_device weight_memory) temp_memory in
      record {
        weight_per_gpu = weight_memory;
        kv_per_gpu = kv;
        temp_per_gpu = temp_memory;
        available_kv = available_kv_gpu;
        max_batch_at_default_l = max_batch available_kv_gpu (per_request batch_size kv);
        attacc = none;
      }

  -- `result.update(…)`
  abbrev pub with_attacc : (batch_size : ℕ) → Quotient → Breakdown ck.Time I → Breakdown ck.Time I
  with_attacc batch_size held result =
      let kv = as_float held in
      let acc_cap = ar.of_nat acc_capacity in
      let attacc_max_batch = max_batch acc_cap (per_request batch_size kv) in
      record result {
        max_batch_at_default_l = attacc_max_batch;
        attacc = some (record {
          kv_per_attacc = kv;
          available_kv_attacc = ar.minus acc_cap kv;
          attacc_capacity_total = acc_cap;
          max_batch_at_default_l_attacc = attacc_max_batch;
        });
      }

  unfoldable pub get_capacity_breakdown : (batch_size lin lout : ℕ) → Result (Breakdown ck.Time I)
  get_capacity_breakdown batch_size lin lout = do
    required ← get_required_mem_capacity sys batch_size lin lout
    held ← get_attacc_kv_capacity sys batch_size lin lout
    let result = gpu_part batch_size required
    ok (if kv_on_attacc sys.hetero_name then with_attacc batch_size held result else result)
