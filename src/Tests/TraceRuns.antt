-- ===== src/Tests/TraceRuns.antt =====
-- Runs of the trace generators (pim_ramulator_src/trace_gen/).
use attacc_simulator_vlm.Prelude.{◌<◌, ◌%◌, ◌≡◌, refl, arith, raise, zero_division}
use attacc_simulator_vlm.Trace.Command.{Command, Settings, settings_of}
use attacc_simulator_vlm.Trace.Bank
use attacc_simulator_vlm.Trace.Bank.Totals as BankTotals
use attacc_simulator_vlm.Trace.Gs
use attacc_simulator_vlm.Trace.Bg.Placement as BgPlacement
use attacc_simulator_vlm.Trace.Buffer.Placement as BufferPlacement
use attacc_simulator_vlm.Trace.Bg
use attacc_simulator_vlm.Trace.Bg.Totals as BgTotals
use attacc_simulator_vlm.Trace.Buffer
use attacc_simulator_vlm.Trace.Buffer.Totals as BufferTotals

-- `--dhead 64 --maxlen 32 --dbyte 2`
abbrev settings : Settings
settings = settings_of 64 32 16

-- A column of 32 bytes has no number of 64 bytes, so no MAC either: where there is a head, each generator
-- divides by 0.
wide_numbers :
    (Bank.main 64 17 16 32 64 ≡ raise zero_division)
    × (Bg.main 64 17 16 32 64 ≡ raise zero_division)
    × (Buffer.main 64 17 16 32 64 ≡ raise zero_division)
unfolding Bank.main Bg.main Buffer.main
wide_numbers = (refl, refl, refl)

column_at-place_example :
    (BgPlacement.column_at (Bg.place 70000) ≡ 70000)
    × (Bg.place 70000 < Gs.bg)
    × (Bg.place 70000 % Gs.col ≡ 0)
column_at-place_example = BgPlacement.column_at-place 70000 (omega arith)

place-column_at_example :
    (BufferPlacement.column_at (Buffer.place 70000) ≡ 70000)
    × (Buffer.place 70000 < Gs.pch)
    × (Buffer.place 70000 % Gs.col ≡ 0)
place-column_at_example = BufferPlacement.place-column_at 70000 (omega arith)
