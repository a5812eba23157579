-- ===== src/Main/Output.antt =====
-- `run` and `write_csv` (src/main.py): the file of results, as a list of rows.
pub mod Appends
use attacc_simulator_vlm.Prelude.{
  ℕ, Bool, true, false, List, [], ◌∷◌, ◌++◌, map, Option, none, some, ok,
}
use attacc_simulator_vlm.Model.Vision.{ImageSize}
use attacc_simulator_vlm.Ramulator.Machine.{Clock}
use attacc_simulator_vlm.Ramulator.Statements.{Action, continue_with}
use attacc_simulator_vlm.Devices.Arithmetic.{Arithmetic}
use attacc_simulator_vlm.System.{System}
use attacc_simulator_vlm.System.Simulate.{Deployment}
use attacc_simulator_vlm.System.Report.{Labels, Cell, Output, float, simulate_output}

-- `col_name`
pub data Column : Type 0 where
  model dtype xpu cap bw sys_opb hw cores pipe_level is_parallel has_power_constraint : Column
  gqa_size l_in l_out bs required_cap_per_gpu s_flops g_flops s_time s_matmul s_fc : Column
  s_comm s_x2g s_softmax s_act s_lnorm g_time g_matmul g_fc g_comm g_etc g_qkv_time : Column
  g_prj_time g_ff_time g2g_comm c2g_comm g_softmax g_act g_lnorm g_energy : Column
  g_dram_energy g_l2_energy g_l1_energy g_reg_energy g_alu_energy g_fc_mem_energy : Column
  g_fc_comp_energy g_attn_mem_energy g_attn_comp_energy g_etc_mem_energy : Column
  g_etc_comp_energy g_comm_energy : Column

pub data CsvCell (T : Type 0) : Type 0 where
  heading : Column → CsvCell T
  value : Cell T → CsvCell T

abbrev pub Rows : Type 0 → Type 0
Rows T = List (List (CsvCell T))

abbrev pub col_name : List Column
col_name =
    Column.model ∷ Column.dtype ∷ Column.xpu ∷ Column.cap ∷ Column.bw ∷ Column.sys_opb ∷ Column.hw
    ∷ Column.cores ∷ Column.pipe_level ∷ Column.is_parallel ∷ Column.has_power_constraint
    ∷ Column.gqa_size ∷ Column.l_in ∷ Column.l_out ∷ Column.bs ∷ Column.required_cap_per_gpu
    ∷ Column.s_flops ∷ Column.g_flops ∷ Column.s_time ∷ Column.s_matmul ∷ Column.s_fc
    ∷ Column.s_comm ∷ Column.s_x2g ∷ Column.s_softmax ∷ Column.s_act ∷ Column.s_lnorm
    ∷ Column.g_time ∷ Column.g_matmul ∷ Column.g_fc ∷ Column.g_comm ∷ Column.g_etc
    ∷ Column.g_qkv_time ∷ Column.g_prj_time ∷ Column.g_ff_time ∷ Column.g2g_comm ∷ Column.c2g_comm
    ∷ Column.g_softmax ∷ Column.g_act ∷ Column.g_lnorm ∷ Column.g_energy ∷ Column.g_dram_energy
    ∷ Column.g_l2_energy ∷ Column.g_l1_energy ∷ Column.g_reg_energy ∷ Column.g_alu_energy
    ∷ Column.g_fc_mem_energy ∷ Column.g_fc_comp_energy ∷ Column.g_attn_mem_energy
    ∷ Column.g_attn_comp_energy ∷ Column.g_etc_mem_energy ∷ Column.g_etc_comp_energy
    ∷ Column.g_comm_energy ∷ []

abbrev pub header : {T : Type 0} → List (CsvCell T)
header = map heading col_name

-- `tag + config + time + energy`
abbrev pub info : {T : Type 0} → Output T → List (CsvCell T)
info perf =
    map value (perf.tag ++ perf.config ++ map float perf.perf_all ++ map float perf.energy_all)

-- The rows that `write_csv` appends to: a file that is missing gets its first row.
abbrev pub begun : {T : Type 0} → Option (Rows T) → Rows T
begun none = header ∷ []
begun (some rows) = rows

-- `write_csv` on a file that may be missing; without a name it does nothing.
unfoldable pub write_csv :
    {T : Type 0} → (named : Bool) → List (Output T) → Option (Rows T) → Option (Rows T)
write_csv false perfs file = file
write_csv true perfs file = some (begun file ++ map info perfs)

module _ {ck : Clock} {G : Type 0} (ar : Arithmetic ck) (dep : Deployment ck G) (labels : Labels ck)
    (sys : System) where
  abbrev pub written :
      (named : Bool) → Output ck.Time → Option (Rows ck.Time) × G → Option (Rows ck.Time) × G
  written named output (file, g) = (write_csv named (output ∷ []) file, g)

  -- `run`, on the file and the state of the devices; no requests are given to `simulate`.
  unfoldable pub run :
      (batch lin lout : ℕ)
      → (power_constraint pipe named : Bool) → ImageSize
      → Action (Option (Rows ck.Time) × G) (Unit {0})
  unfolding simulate_output write_csv
  run batch lin lout power_constraint pipe named image_size (file, g) =
      let (output, after) =
        simulate_output ar dep labels sys batch lin lout 0 pipe power_constraint image_size g in
      continue_with (λ output s. (ok tt, written named output s)) output (file, after)
