-- ===== src/Trace/Command.antt =====
-- The HBM geometry and the PIM commands of the trace generators (lines 5-51 of each file).
use attacc_simulator_vlm.Prelude.{ℕ, ◌^◌}

abbrev pub max_n_hbm : ℕ
max_n_hbm = 8

abbrev pub n_channel : ℕ
n_channel = 16

abbrev pub n_pch : ℕ
n_pch = 2

abbrev pub n_rank : ℕ
n_rank = 2

abbrev pub n_bank : ℕ
n_bank = 4

abbrev pub n_bg : ℕ
n_bg = 4

abbrev pub n_row : ℕ
n_row = 2 ^ 14

abbrev pub n_col : ℕ
n_col = 2 ^ 5

abbrev pub prefetch_size : ℕ
prefetch_size = 32

-- The command names of a trace line.
pub data Opcode : Type 0 where
  pim_wr_gb pim_mac_ab pim_mac_sb pim_mac_pb pim_mv_sb pim_mv_gb pim_sfm pim_barrier : Opcode

-- One line of a trace.
pub record Command : Type 0 where
  pub op : Opcode
  pub addr : ℕ

-- The globals that `main` sets from the command line.
pub record Settings : Type 0 where
  pub dhead : ℕ
  pub max_L : ℕ
  pub n_mac : ℕ

abbrev pub settings_of : ℕ → ℕ → ℕ → Settings
settings_of dhead max_L n_mac = record { dhead = dhead; max_L = max_L; n_mac = n_mac }
