-- ===== src/Trace/Bg/Placement.antt =====
-- Where the bank-group-level generator puts a MAC's column: inside the bank group, and no two columns
-- at one place.
use attacc_simulator_vlm.Prelude.{ℕ, ◌+◌, ◌*◌, ◌/◌, ◌%◌, ◌<◌, ◌≡◌, arith}
use attacc_simulator_vlm.Trace.Command.{n_bank, n_row, n_col}
use attacc_simulator_vlm.Trace.Gs
use attacc_simulator_vlm.Trace.Bg.{place}

-- The column that an address of a bank group holds.
abbrev pub column_at : ℕ → ℕ
column_at addr = (addr % Gs.ba / Gs.row * n_bank + addr / Gs.ba) * n_col + addr % Gs.row / Gs.col

-- Every column of a bank group lies inside it, at the start of a column, and is found again there.
pub column_at-place :
    (idx : ℕ)
    → idx < n_bank * n_row * n_col
    → (column_at (place idx) ≡ idx) × (place idx < Gs.bg) × (place idx % Gs.col ≡ 0)
unfolding place
column_at-place idx h = (omega arith, omega arith, omega arith)
