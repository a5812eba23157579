-- ===== src/Tests/SystemRuns.antt =====
-- Runs of the system (src/system.py).
use attacc_simulator_vlm.Prelude.{
  ℕ, ◌+◌, ◌*◌, ◌/◌, ◌≤◌, ◌≡◌, refl, arith, true, false, List, [], ◌∷◌, some, none, ok, ◌-◌,
}
use attacc_simulator_vlm.Model.Types.{pim}
use attacc_simulator_vlm.Model.Layer.{Layer}
use attacc_simulator_vlm.Model.Routing.{Mode, Place}
use attacc_simulator_vlm.Model.Decoder.{build_sum}
use attacc_simulator_vlm.System.{
  System, MemComponents, mem_components, compute_mem_components, sample_indices, add_positions,
  get_required_mem_capacity, get_attacc_kv_capacity,
}
use attacc_simulator_vlm.System.Weights.{weight_bytes, compute_mem_components-build_sum}
use attacc_simulator_vlm.System.Breakdown.{get_capacity_breakdown}
use attacc_simulator_vlm.Tests.PricingRuns.{whole}
use attacc_simulator_vlm.System.Sampling.{IsSample, sample_indices-IsSample}
use attacc_simulator_vlm.Model.Routing.Asks.{asks, wanted}
use attacc_simulator_vlm.Model.Routing.Covers.{Covers}
use attacc_simulator_vlm.System.Choice.{routing_in_use, chosen_routing-Covers}
use attacc_simulator_vlm.Tests.Samples.{model, model-IsSharded}

abbrev pub system : System
system = record {
  hetero_name = pim;
  model = model;
  routing_mode = some Mode.optimistic;
  routing_layer_list = none;
  prefill_chunk_size = 512;
  prefill_sample_count = 8;
}

compute_mem_components-build_sum_example :
    (c : MemComponents) × (decoder : List Layer) × (compute_mem_components model 2 16 4 ≡ ok c)
    × (build_sum model 2 16 true none ≡ ok decoder)
    × (c.weight_memory.by ≡ 2)
    × (c.weight_memory.over + 2 * (64 * 64) * 2
        ≡ 2 * (weight_bytes decoder * 2) + 2 * (64 * 64) * 2)
compute_mem_components-build_sum_example =
    compute_mem_components-build_sum model 2 model-IsSharded 2 16 4 true none

system_components : compute_mem_components model 2 16 4 ≡ ok (mem_components model 2 19)
unfolding compute_mem_components
system_components = refl

-- A quotient, rounded down.
abbrev quotient_of : ℕ → ℕ → ℕ → ℕ
quotient_of a b c = a * b / c

quotient_of-le : (a b c : ℕ) → b ≤ c → quotient_of a b c ≤ a
quotient_of-le a b c h = grind arith

sample_indices-IsSample_example : IsSample 20 (sample_indices quotient_of 20 4)
sample_indices-IsSample_example =
    sample_indices-IsSample quotient_of quotient_of-le 20 4 (omega arith)

some_indices : sample_indices quotient_of 20 4 ≡ 0 ∷ 2 ∷ 8 ∷ 19 ∷ []
unfolding sample_indices add_positions
some_indices = refl

chosen_routing-Covers_example :
    Covers Place.pim false 2
      (wanted true (asks (some Mode.optimistic) false none) 2)
      (routing_in_use system)
chosen_routing-Covers_example = chosen_routing-Covers system

-- Two accelerators of 24320 bytes each, where a request needs 2432 on each.
some_ceiling :
    get_capacity_breakdown whole (λ t. t) 0 400000 2 (2 * 24320) system 1 16 4
    ≡ ok (record {
      weight_per_gpu = 122880;
      kv_per_gpu = 0;
      temp_per_gpu = 944;
      available_kv = 76176;
      max_batch_at_default_l = 20;
      attacc = some (record {
        kv_per_attacc = 2432;
        available_kv_attacc = 48640 - 2432;
        attacc_capacity_total = 48640;
        max_batch_at_default_l_attacc = 20;
      });
    })
unfolding get_capacity_breakdown get_required_mem_capacity get_attacc_kv_capacity
    compute_mem_components
some_ceiling = refl
