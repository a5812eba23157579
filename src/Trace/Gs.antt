-- ===== src/Trace/Gs.antt =====
-- `HBM_GS` of the trace generators (lines 24-34 of each file): the bytes under one unit of each
-- level of the HBM address space.
use attacc_simulator_vlm.Prelude.{ℕ, ◌*◌}
use attacc_simulator_vlm.Trace.Command.{
  max_n_hbm, n_channel, n_pch, n_rank, n_bank, n_bg, n_row, n_col, prefetch_size,
}

abbrev pub col : ℕ
col = prefetch_size

abbrev pub row : ℕ
row = n_col * col

abbrev pub ba : ℕ
ba = n_row * row

abbrev pub bg : ℕ
bg = n_bank * ba

abbrev pub rank : ℕ
rank = n_bg * bg

abbrev pub pch : ℕ
pch = n_rank * rank

abbrev pub ch : ℕ
ch = n_pch * pch

abbrev pub hbm : ℕ
hbm = n_channel * ch

abbrev pub attacc : ℕ
attacc = max_n_hbm * hbm
