-- ===== src/Trace/Buffer/Placement.antt =====
-- Where the buffer-level generator puts a MAC's column: inside the pseudo channel, and no two columns at
-- one place.
use attacc_simulator_vlm.Prelude.{ℕ, ◌+◌, ◌*◌, ◌/◌, ◌%◌, ◌<◌, ◌≡◌, arith}
use attacc_simulator_vlm.Trace.Command.{n_rank, n_bg, n_bank, n_row, n_col}
use attacc_simulator_vlm.Trace.Gs
use attacc_simulator_vlm.Trace.Buffer.{place}

-- The column that an address of a pseudo channel holds.
abbrev pub column_at : ℕ → ℕ
column_at addr =
    ((addr % Gs.ba / Gs.row * n_col + addr % Gs.row / Gs.col) * n_bank + addr % Gs.bg / Gs.ba)
      * (n_bg * n_rank)
    + addr / Gs.bg

-- Every column of a pseudo channel lies inside it, at the start of a column, and is found again there.
pub place-column_at :
    (idx : ℕ)
    → idx < n_bg * n_rank * n_bank * n_row * n_col
    → (column_at (place idx) ≡ idx) × (place idx < Gs.pch) × (place idx % Gs.col ≡ 0)
unfolding place
place-column_at idx h = (omega arith, omega arith, omega arith)
