-- ===== src/Config/Energy.antt =====
-- `ENERGY_TABLE` (src/config.py): energies in units of a ten-thousandth of a picojoule per byte, in which
-- every number of the table is whole.
use attacc_simulator_vlm.Prelude.{ℕ, ◌+◌, ◌*◌, List, [], ◌∷◌}

pub data PimType : Type 0 where
  ba bg buffer : PimType

-- `ENERGY_TABLE['GPU']` and `ENERGY_TABLE['CPU']`
pub record XpuEnergy : Type 0 where
  pub reg : ℕ
  pub l1 : ℕ
  pub l2 : ℕ
  pub alu : ℕ
  pub mem : ℕ
  pub comm : ℕ

abbrev pub gpu_energy : XpuEnergy
gpu_energy = record {
  reg = 675;
  l1 = 1600 * 8;
  l2 = 3000 * 8;
  alu = 3200;
  mem = (1100 + 4400 + 10100 + 12300 + 5000 + 3000) * 8;
  comm = 13000 * 8;
}

abbrev pub cpu_energy : XpuEnergy
cpu_energy = record { reg = 0; l1 = 0; l2 = 0; alu = 0; mem = 0; comm = 0 }

-- `ENERGY_TABLE['PIM'][pim_type]`
pub record PimEnergy : Type 0 where
  pub mem : ℕ
  pub sram : ℕ
  pub alu : ℕ
  pub io : List ℕ
  pub comm : ℕ

abbrev pub pim_mem_energy : PimType → ℕ
pim_mem_energy ba = (1100 + 4400) * 8
pim_mem_energy bg = (1100 + 4400 + 10100) * 8
pim_mem_energy buffer = (1100 + 4400 + 10100 + 12300 + 5000) * 8

abbrev pub pim_energy : PimType → PimEnergy
pim_energy pim_type = record {
  mem = pim_mem_energy pim_type;
  sram = 34;
  alu = 3200;
  io = 3000 ∷ 5000 ∷ 12300 ∷ 10100 ∷ [];
  comm = 104000;
}
