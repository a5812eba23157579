-- ===== src/Tests/GroupRuns.antt =====
-- A generation block on a PIM device (src/system.py, src/devices.py).
use attacc_simulator_vlm.Prelude.{ℕ, ◌*◌, ◌+◌, ◌≡◌, refl, true, List, [], ◌∷◌, ok}
use attacc_simulator_vlm.Model.Layer.{Layer}
use attacc_simulator_vlm.Model.Routing.{Place}
use attacc_simulator_vlm.Model.Decoder.{build_gen_stage}
use attacc_simulator_vlm.Config.Energy.{bg, pim_energy}
use attacc_simulator_vlm.Ramulator.Statements.{Action}
use attacc_simulator_vlm.Devices.Pim.{Pim, no_energies, charge, io_energy, get_time_and_energy}
use attacc_simulator_vlm.Model.Layer.{get_flops}
use attacc_simulator_vlm.Ramulator.Reading.{parse}
use attacc_simulator_vlm.Ramulator.{
  heads_of, make_yaml_file, generate_trace, simulate, update_log_file, look_up, logged, run,
  run_ramulator, output,
}
use attacc_simulator_vlm.System.Group.{device_cost, simulate_block}
use attacc_simulator_vlm.System.Offload.{
  AsksOnce, outcome, score_of, simulate_block-build_gen_stage,
}
use attacc_simulator_vlm.Tests.PandasSample.{tables}
use attacc_simulator_vlm.Tests.RamulatorRuns.{femtoseconds, host, setup, start}
use attacc_simulator_vlm.Tests.Samples.{model, model-IsSharded}

abbrev pub device : Pim femtoseconds
device = record {
  pim_type = bg;
  num_attacc = 8;
  energy_table = pim_energy bg;
  power_constraint = true;
  transfer_time = λ traffic. traffic * 100;
  no_time = 0;
}

-- A GPU that counts its layers.
abbrev counting_gpu : Layer → Action ℕ (ℕ × List ℕ)
counting_gpu layer n = (ok (1, no_energies), n + 1)

simulate_block-build_gen_stage_example :
    (decoder : List Layer) × (build_gen_stage model 2 16 3 true ≡ ok decoder)
    × AsksOnce tables femtoseconds host setup device (score_of model 2 2 19) start (
        simulate_block {ck = femtoseconds}
          (device_cost tables femtoseconds host setup device counting_gpu)
          Place.pim
          decoder
          (0, start))
simulate_block-build_gen_stage_example =
    simulate_block-build_gen_stage tables femtoseconds host setup device counting_gpu
      (λ layer n. ((1, no_energies), n + 1, refl)) model 2 model-IsSharded 2 16 3 0 start

some_charge :
    charge device (score_of model 2 2 19) (7, 1 ∷ 1 ∷ 1 ∷ 1 ∷ 10 ∷ [])
    ≡ ok (7, 10227200 ∷ 0 ∷ 0 ∷ 0 ∷ 31129600 ∷ 0 ∷ [])
unfolding charge io_energy get_flops
some_charge = refl

some_block :
    outcome
      (simulate_block {ck = femtoseconds}
        (device_cost tables femtoseconds host setup device counting_gpu)
        Place.pim
        (score_of model 2 2 19 ∷ [])
        (0, start)).0
    ≡ ok tt
unfolding simulate_block get_time_and_energy charge io_energy output look_up heads_of run
    make_yaml_file run_ramulator generate_trace simulate parse update_log_file logged
some_block = refl
