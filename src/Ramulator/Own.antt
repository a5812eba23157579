-- ===== src/Ramulator/Own.antt =====
-- The wrapper with the repository's own trace generators.
use attacc_simulator_vlm.Trace.Command.{Command}
