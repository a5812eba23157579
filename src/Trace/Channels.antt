-- ===== src/Trace/Channels.antt =====
-- A command repeated over the legacy channels: how many there are, and of what kind.
use attacc_simulator_vlm.Prelude.{
  ℕ, ◌+◌, ◌*◌, ◌≡◌, refl, ◌∙◌, range, length, length-map, length-range, All-map,
}
use attacc_simulator_vlm.Trace.Command.{Opcode, Command}
use attacc_simulator_vlm.Trace.Gs
use attacc_simulator_vlm.Trace.Head.{over_channels}
use attacc_simulator_vlm.Trace.Select.{kind_of, AllOf}

module _ (vc : ℕ) (op : Opcode) (addr_offset rest : ℕ) where
  pub length-over_channels : length (over_channels vc op addr_offset rest) ≡ vc
  length-over_channels = length-map _ (range vc) ∙ length-range vc

  pub over_channels-AllOf : AllOf (kind_of op) (over_channels vc op addr_offset rest)
  over_channels-AllOf =
      All-map (λ (c : Command). kind_of c.op ≡ kind_of op)
        (λ lch. record { op = op; addr = addr_offset + lch * Gs.ch + rest }) (range vc) (λ _. refl)
