-- ===== src/Tests/SimulateRuns.antt =====
-- Runs of the simulation (src/system.py), with whole numbers of a femtosecond for floats.
use attacc_simulator_vlm.Prelude.{
  ◌*◌, ◌/◌, ◌≡◌, refl, arith, true, List, [], ◌∷◌, none, ok, EndsWith, ◌^◌, Raises, false, raise,
  zero_division,
}
use attacc_simulator_vlm.Model.Types.{score, gpu}
use attacc_simulator_vlm.Model.Layer.{get_flops}
use attacc_simulator_vlm.Model.Routing.{Place, to_groups, new_routing}
use attacc_simulator_vlm.Model.Vision.{no_size}
use attacc_simulator_vlm.Ramulator.Statements.{Store}
use attacc_simulator_vlm.Devices.Pricing.{TileTable, get_time_and_energy}
use attacc_simulator_vlm.System.Perf.{Timed, collect_s_perf, collect_g_perf}
use attacc_simulator_vlm.System.Perf.Sums.{collect_s_perf-collect_g_perf}
use attacc_simulator_vlm.System.Perf.Adds.{AddsUp, GenAddsUp, collect_g_perf-GenAddsUp}
use attacc_simulator_vlm.System.Group.{Device, simulate_block, device_cost}
use attacc_simulator_vlm.System.Simulate.{Deployment, add_vision, add_groups, simulate_gen_group}
use attacc_simulator_vlm.Model.Build.{build}
use attacc_simulator_vlm.System.{
  chosen_routing, sample_indices, get_required_mem_capacity, compute_mem_components,
}
use attacc_simulator_vlm.System.Prefill.{simulate_pim_prefill_score}
use attacc_simulator_vlm.System.Latency.{apply_eff_lat, get_pipelining_efficiency_latency, pipeline}
use attacc_simulator_vlm.System.Energy.{group_energies, collect_energies}
use attacc_simulator_vlm.System.Report.{Labels, at_index, simulate_output}
use attacc_simulator_vlm.System.OneToken.{KeepsZero, simulate_output-Raises}
use attacc_simulator_vlm.Config.Energy.{bg}
use attacc_simulator_vlm.System.Batches.{simulate, simulate-mod}
use attacc_simulator_vlm.System.GroupBalance.{Collects, simulate_gen_group-Collects}
use attacc_simulator_vlm.Tests.PandasSample.{tables}
use attacc_simulator_vlm.Tests.RamulatorRuns.{femtoseconds, host, setup, start}
use attacc_simulator_vlm.Tests.Samples.{fractions}
use attacc_simulator_vlm.Tests.GroupRuns.{device}
use attacc_simulator_vlm.Tests.PricingRuns.{whole, whole-IsExact, xpu}
use attacc_simulator_vlm.Tests.DeviceRuns.{dense, product}
use attacc_simulator_vlm.Tests.SystemRuns.{system}

abbrev layers : List (Timed femtoseconds)
layers =
    record { layer = dense; exec_time = 5; energy = [] }
    ∷ record { layer = record product { name = score }; exec_time = 7; energy = [] }
    ∷ []

collect_s_perf-collect_g_perf_example :
    (collect_s_perf whole layers
      ≡ record { all = 12; matmul = 7; fc = 5; comm = 0; x2g = 0; softmax = 0; act = 0; norm = 0 })
    × (collect_g_perf whole (layers ∷ layers ∷ []) ≡ record {
      all = 24;
      matmul = 14;
      fc = 10;
      comm = 0;
      etc = 0;
      qkv = 10;
      prj = 0;
      ff = 0;
      g2g = 0;
      x2g = 0;
      softmax = 0;
      act = 0;
      norm = 0;
    })
collect_s_perf-collect_g_perf_example =
    collect_s_perf-collect_g_perf whole layers (layers ∷ layers ∷ [])

collect_g_perf-GenAddsUp_example :
    AddsUp whole whole-IsExact (collect_s_perf whole layers)
    × GenAddsUp whole whole-IsExact (collect_g_perf whole (layers ∷ layers ∷ []))
collect_g_perf-GenAddsUp_example =
    collect_g_perf-GenAddsUp whole whole-IsExact layers (layers ∷ layers ∷ [])
      ((refl, (tt, tt)), ((refl, (tt, tt)), tt))

abbrev deployment : Deployment femtoseconds (TileTable × Store tables)
deployment = record {
  device = device_cost tables femtoseconds host setup device (get_time_and_energy whole xpu);
  num_xpu = 2;
  num_hbm = 5;
  rounded = λ a b c. a * b / c;
  floor = none;
  floats = fractions;
}

simulate_gen_group-Collects_example :
    EndsWith Collects
      (simulate_gen_group whole deployment system 1 true Place.pim
        ((dense ∷ record product { name = score } ∷ []) ∷ [])
        ([], start)).0
simulate_gen_group-Collects_example =
    simulate_gen_group-Collects tables femtoseconds host setup device whole xpu deployment system
      refl 1 true Place.pim ((dense ∷ record product { name = score } ∷ []) ∷ []) ([], start)

-- Two whole batches and a request.
simulate-mod_example :
    simulate whole deployment system 2 16 3 5 true no_size ([], start)
    ≡ simulate whole deployment system 2 16 3 1 true no_size ([], start)
simulate-mod_example =
    simulate-mod whole deployment system 2 16 3 5 true no_size ([], start) (omega arith)

-- A device that takes a time unit for a layer, and one energy unit for what is no transfer.
abbrev steady : Device femtoseconds Unit
steady on_acc layer g = (ok (1000, 1000 ∷ 0 ∷ 0 ∷ 0 ∷ 0 ∷ 0 ∷ []), g)

abbrev pub steady_deployment : Deployment femtoseconds Unit
steady_deployment = record {
  device = steady;
  num_xpu = 2;
  num_hbm = 5;
  rounded = λ a b c. a * b / c;
  floor = none;
  floats = fractions;
}

some_simulation :
    (simulate whole steady_deployment system 2 16 3 4 true no_size tt).0
    ≡ ok (record {
      perf =
          44000000 ∷ 19000000 ∷ 10000000 ∷ 7000000 ∷ 3000000 ∷ 2000000 ∷ 2000000 ∷ 4000000
          ∷ 23000000 ∷ 4000000 ∷ 8000000 ∷ 4000000 ∷ 6000000 ∷ 1000000 ∷ 1000000 ∷ 6000000 ∷ 4000000
          ∷ 0 ∷ 1000000 ∷ 2000000 ∷ 4000000 ∷ [];
      energies = 28 ∷ 28 ∷ 0 ∷ 0 ∷ 0 ∷ 0 ∷ 10 ∷ 0 ∷ 6 ∷ 0 ∷ 6 ∷ 0 ∷ 0 ∷ [];
      cap_usage = 124736;
      s_flops = record { over = 8396800; by = 2 };
      g_flops = record { over = 1053152; by = 2 };
    })
unfolding simulate collect_s_perf collect_g_perf build chosen_routing sample_indices
    get_required_mem_capacity compute_mem_components to_groups new_routing add_vision add_groups
    simulate_pim_prefill_score apply_eff_lat get_pipelining_efficiency_latency pipeline
    simulate_block group_energies collect_energies get_flops
some_simulation = refl

whole-KeepsZero : KeepsZero whole
whole-KeepsZero = record {
  plus_zero = refl;
  times_zero = λ n. omega arith;
  divide_zero = λ n h. grind arith;
  zero_is_zero = refl;
}

abbrev pub labels : Labels femtoseconds
labels = record {
  model_name = [];
  gpu_name = gpu;
  gpu_capacity = 8 * 80 * 1024 ^ 3;
  acc_capacity = 8 * 80 * 1024 ^ 3;
  gpu_bandwidth = 2000;
  acc_bandwidth = 8000;
  gpu_flops = 312000;
  acc_pim_type = bg;
}

simulate_output-Raises_example :
    Raises (simulate_output whole steady_deployment labels system 2 16 1 0 true false no_size tt).0
simulate_output-Raises_example =
    simulate_output-Raises whole whole-KeepsZero steady_deployment system labels 2 16 1 0 true false
      no_size tt (omega arith)

-- The exception of a request for one token.
one_token :
    (simulate_output whole steady_deployment labels system 2 16 1 0 true false no_size tt).0
    ≡ raise zero_division
unfolding simulate_output simulate at_index collect_s_perf collect_g_perf build chosen_routing
    sample_indices get_required_mem_capacity compute_mem_components to_groups new_routing add_vision
    add_groups simulate_pim_prefill_score apply_eff_lat get_pipelining_efficiency_latency pipeline
    simulate_block group_energies collect_energies get_flops
one_token = refl
