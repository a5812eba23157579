-- ===== src/System/Group.antt =====
-- The loop of `_simulate_gen_group` (src/system.py) over a block: each layer on its device.
use attacc_simulator_vlm.Prelude.{ℕ, Bool, true, false, List, [], ◌∷◌, ok}
use attacc_simulator_vlm.Model.Layer.{Layer}
use attacc_simulator_vlm.Model.Routing.{Place}
use attacc_simulator_vlm.Ramulator.Machine.{Pandas, Clock, Host}
use attacc_simulator_vlm.Ramulator.Statements.{Store, Action, pure, ◌>>=◌}
use attacc_simulator_vlm.Ramulator.{Setup}
use attacc_simulator_vlm.Devices.Pim.{Pim, get_time_and_energy}
use attacc_simulator_vlm.System.{select_acc_device}
use attacc_simulator_vlm.System.Perf.{Timed}

-- `devices`: the GPU and the accelerator, on a state of both.
abbrev pub Device : Clock → Type 0 → Type 0
Device ck G = (on_acc : Bool) → Layer → Action G (ck.Time × List ℕ)

-- `gpu` is `devices['GPU'].get_time_and_energy`, on a state of its own; `devices['Acc']` is a `PIM`.
module _ {G : Type 0} (pd : Pandas) (ck : Clock) (host : Host) (su : Setup) (pim : Pim ck)
    (gpu : Layer → Action G (ck.Time × List ℕ)) where
  abbrev pub device_cost : Device ck (G × Store pd)
  device_cost true layer (g, s) =
      let (cost, after) = get_time_and_energy pd ck host su pim layer s in (cost, (g, after))
  device_cost false layer (g, s) = let (cost, after) = gpu layer g in (cost, (after, s))

module _ {ck : Clock} {G : Type 0} (device : Device ck G) where
  abbrev pub timed : Layer → ck.Time × List ℕ → Timed ck
  timed layer (time, energy) = record { layer = layer; exec_time = time; energy = energy }

  -- The times and energies of the layers of a block, in order.
  unfoldable pub simulate_block : (group_device : Place) → List Layer → Action G (List (Timed ck))
  simulate_block group_device [] = pure (ok [])
  simulate_block group_device (layer ∷ rest) =
      device (select_acc_device group_device layer.type) layer >>= λ cost.
      simulate_block group_device rest >>= λ costs. pure (ok (timed layer cost ∷ costs))
