-- ===== src/Config/Hardware.antt =====
-- `make_xpu_config` and `make_pim_config` (src/config.py), their enumerations (src/type.py) and `BW_SCALE`.
-- The floats of the tables are whole numbers, given exactly.
use attacc_simulator_vlm.Prelude.{
  ℕ, ◌*◌, ◌^◌, ◌≤◌, ◌≡◌, refl, arith, Bool, true, false, Option, none, some, or_else,
}
use attacc_simulator_vlm.Config.Energy.{
  XpuEnergy, PimEnergy, gpu_energy, cpu_energy, pim_energy, PimType, ba, bg, buffer,
}

pub data GpuType : Type 0 where
  a100a h100 a6000 : GpuType

pub data InterfaceType : Type 0 where
  nvlink4 nvlink3 pcie4 pcie5 nvlink_bridge : InterfaceType

-- A bandwidth in bytes per second, or `float('inf')`.
pub data Bandwidth : Type 0 where
  unlimited : Bandwidth
  per_second : ℕ → Bandwidth

-- `config['GPU']` and `config['CPU']`
pub record DeviceConfig : Type 0 where
  pub num_device : ℕ
  pub num_core : ℕ
  pub flops_per_device : ℕ
  pub mem_capacity_per_device : ℕ
  pub off_mem_bw_per_device : ℕ
  pub l2_mem_bw_per_device : Bandwidth
  pub l1_cap_per_core : ℕ
  pub l2_cap_per_device : ℕ
  pub interface_bw : ℕ
  pub energy_table : XpuEnergy

pub record XpuConfig : Type 0 where
  pub gpu_type : GpuType
  pub gpu : DeviceConfig
  pub cpu : DeviceConfig

-- The arguments that replace a number of the table.
pub record XpuArguments : Type 0 where
  pub num_gpu : Option ℕ
  pub flops : Option ℕ
  pub mem_cap : Option ℕ
  pub mem_bw : Option ℕ

unfoldable pub gpu_config : GpuType → XpuArguments → DeviceConfig
gpu_config a100a args = record {
  num_device = or_else args.num_gpu 8;
  num_core = 108;
  flops_per_device = or_else args.flops (312 * 10 ^ 12);
  mem_capacity_per_device = or_else args.mem_cap (80 * 2 ^ 30);
  off_mem_bw_per_device = or_else args.mem_bw (3352 * 10 ^ 9);
  l2_mem_bw_per_device = unlimited;
  l1_cap_per_core = 192 * 1024;
  l2_cap_per_device = 40 * 2 ^ 20;
  interface_bw = 600 * 10 ^ 9;
  energy_table = gpu_energy;
}
gpu_config h100 args = record {
  num_device = or_else args.num_gpu 8;
  num_core = 132;
  flops_per_device = or_else args.flops (9894 * 10 ^ 11);
  mem_capacity_per_device = or_else args.mem_cap (80 * 2 ^ 30);
  off_mem_bw_per_device = or_else args.mem_bw (3352 * 10 ^ 9);
  l2_mem_bw_per_device = unlimited;
  l1_cap_per_core = 256 * 1024;
  l2_cap_per_device = 50 * 2 ^ 20;
  interface_bw = 900 * 10 ^ 9;
  energy_table = gpu_energy;
}
gpu_config a6000 args = record {
  num_device = or_else args.num_gpu 8;
  num_core = 84;
  flops_per_device = or_else args.flops (3097 * 10 ^ 11);
  mem_capacity_per_device = or_else args.mem_cap (48 * 2 ^ 30);
  off_mem_bw_per_device = or_else args.mem_bw (768 * 10 ^ 9);
  l2_mem_bw_per_device = unlimited;
  l1_cap_per_core = 128 * 1024;
  l2_cap_per_device = 6 * 2 ^ 20;
  interface_bw = 112 * 10 ^ 9;
  energy_table = gpu_energy;
}

unfoldable pub cpu_config : GpuType → DeviceConfig
cpu_config a100a = record {
  num_device = 2;
  num_core = 64;
  flops_per_device = 4 * 10 ^ 12;
  mem_capacity_per_device = 2 ^ 40;
  off_mem_bw_per_device = 200 * 10 ^ 9;
  l2_mem_bw_per_device = unlimited;
  l1_cap_per_core = 96 * 1024;
  l2_cap_per_device = 256 * 2 ^ 20;
  interface_bw = 4 * 64 * 10 ^ 9;
  energy_table = cpu_energy;
}
cpu_config h100 = record {
  num_device = 2;
  num_core = 56;
  flops_per_device = 4 * 10 ^ 12;
  mem_capacity_per_device = 2 ^ 40;
  off_mem_bw_per_device = 8 * 2 * 4400 * 8 * 10 ^ 6;
  l2_mem_bw_per_device = per_second (55 * 10 ^ 11);
  l1_cap_per_core = 48 * 1024;
  l2_cap_per_device = 2 * 2 ^ 20;
  interface_bw = 4 * 128 * 10 ^ 9;
  energy_table = cpu_energy;
}
cpu_config a6000 = record {
  num_device = 2;
  num_core = 32;
  flops_per_device = 4 * 10 ^ 12;
  mem_capacity_per_device = 512 * 2 ^ 30;
  off_mem_bw_per_device = 200 * 10 ^ 9;
  l2_mem_bw_per_device = unlimited;
  l1_cap_per_core = 64 * 1024;
  l2_cap_per_device = 64 * 2 ^ 20;
  interface_bw = 4 * 64 * 10 ^ 9;
  energy_table = cpu_energy;
}

unfoldable pub make_xpu_config : GpuType → XpuArguments → XpuConfig
unfolding gpu_config cpu_config
make_xpu_config gpu_type args = record {
  gpu_type = gpu_type;
  gpu = gpu_config gpu_type args;
  cpu = cpu_config gpu_type;
}

-- `BW_SCALE[power_constraint][pim_type]`
abbrev pub bw_scale : Bool → PimType → ℕ
bw_scale false ba = 16
bw_scale false bg = 8
bw_scale true ba = 9
bw_scale true bg = 3
bw_scale _ buffer = 1

abbrev pub interface_bandwidth : InterfaceType → ℕ
interface_bandwidth nvlink3 = 600 * 10 ^ 9
interface_bandwidth nvlink4 = 900 * 10 ^ 9
interface_bandwidth pcie4 = 64 * 10 ^ 9
interface_bandwidth pcie5 = 128 * 10 ^ 9
interface_bandwidth nvlink_bridge = 112 * 10 ^ 9

-- The dict that `make_pim_config` returns.
pub record PimConfig : Type 0 where
  pub pim_type : PimType
  pub power_constraint : Bool
  pub energy_table : PimEnergy
  pub num_attacc : ℕ
  pub num_hbm : ℕ
  pub mem_capacity_per_hbm : ℕ
  pub mem_bw_per_hbm : ℕ
  pub flops_per_hbm : ℕ
  pub softmax_mem_bw : ℕ
  pub softmax_flops : ℕ
  pub interface_bw : ℕ

unfoldable pub make_pim_config :
    PimType → InterfaceType → (opb num_attacc num_hbm : ℕ) → Option ℕ → Bool → PimConfig
make_pim_config pim_type interface_type opb num_attacc num_hbm scale power_constraint =
    let mem_bw_per_hbm = 6704 * 10 ^ 8 * or_else scale (bw_scale power_constraint pim_type) in
    record {
      pim_type = pim_type;
      power_constraint = power_constraint;
      energy_table = pim_energy pim_type;
      num_attacc = num_attacc;
      num_hbm = num_hbm;
      mem_capacity_per_hbm = 16 * 2 ^ 30;
      mem_bw_per_hbm = mem_bw_per_hbm;
      flops_per_hbm = mem_bw_per_hbm * opb;
      softmax_mem_bw = 6704 * 10 ^ 8 * num_hbm;
      softmax_flops = 6704 * 10 ^ 8 * num_hbm;
      interface_bw = interface_bandwidth interface_type;
    }

-- The power constraint never adds to the bandwidth of a unit or
-- to its operations, and what the softmax unit has does not depend on it.
pub make_pim_config-le :
    (pim_type : PimType) (interface_type : InterfaceType) (opb num_attacc num_hbm : ℕ)
    (scale : Option ℕ)
    → let constrained = make_pim_config pim_type interface_type opb num_attacc num_hbm scale true in
      let free = make_pim_config pim_type interface_type opb num_attacc num_hbm scale false in
      (constrained.mem_bw_per_hbm ≤ free.mem_bw_per_hbm)
      × (constrained.flops_per_hbm ≤ free.flops_per_hbm)
      × (constrained.softmax_flops ≡ free.softmax_flops)
unfolding make_pim_config
make_pim_config-le pim_type interface_type opb num_attacc num_hbm (some scale) =
    (omega arith, omega arith, refl)
make_pim_config-le ba interface_type opb num_attacc num_hbm none = (omega arith, omega arith, refl)
make_pim_config-le bg interface_type opb num_attacc num_hbm none = (omega arith, omega arith, refl)
make_pim_config-le buffer interface_type opb num_attacc num_hbm none =
    (omega arith, omega arith, refl)
