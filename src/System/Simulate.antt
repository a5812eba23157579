-- ===== src/System/Simulate.antt =====
-- `System.simulate` (src/system.py), with `parallel_ff` False: the groups of layers, and the batches.
use attacc_simulator_vlm.Prelude.{
  ℕ, zero, suc, ◌+◌, ◌-◌, ◌*◌, ◌/◌, ◌%◌, max, Bool, true, false, ◌&&◌, ◌==◌, if◌then◌else◌, List,
  [], ◌∷◌, ◌++◌, map, Option, none, some, Result, ok, raise, zero_division,
}
use attacc_simulator_vlm.Prelude as Checked
use attacc_simulator_vlm.Model.Types.{LayerType, x2g}
use attacc_simulator_vlm.Model.Layer.{Layer, get_flops}
use attacc_simulator_vlm.Model.Routing.{Place, GroupName}
use attacc_simulator_vlm.Model.Vision.{Floats}
use attacc_simulator_vlm.Model.Build.{Group}
use attacc_simulator_vlm.Ramulator.Machine.{Clock}
use attacc_simulator_vlm.Ramulator.Statements.{Action, pure, ◌>>=◌}
use attacc_simulator_vlm.Devices.Arithmetic.{Arithmetic, larger, zero_time}
use attacc_simulator_vlm.System.{System, select_acc_device}
use attacc_simulator_vlm.System.Perf.{Timed, SumPerf, GenPerf, collect_s_perf, collect_g_perf}
use attacc_simulator_vlm.System.Energy.{
  no_gen_energies, zero_unit_energy, group_energies, collect_energies, energy_list,
}
use attacc_simulator_vlm.System.Latency.{is_score_name, apply_eff_lat, pipeline}
use attacc_simulator_vlm.System.Group.{Device, simulate_block}
use attacc_simulator_vlm.System.Prefill.{simulate_pim_prefill_score}

-- The devices with the numbers that `simulate` reads of them: `devices['GPU'].num_xpu`, and `num_hbm` of the
-- accelerator, or 5. `rounded` is that of the samples of a prefill, and `floor` the overhead of a model with
-- a vision graph in seconds, if it is positive.
pub record Deployment (ck : Clock) (G : Type 0) : Type 1 where
  pub device : Device ck G
  pub num_xpu : ℕ
  pub num_hbm : ℕ
  pub rounded : ℕ → ℕ → ℕ → ℕ
  pub floor : Option ck.Time
  pub floats : Floats

-- The values of both dicts in the order of their keys.
abbrev pub s_perf_list : {T : Type 0} → SumPerf T → List T
s_perf_list p = p.all ∷ p.matmul ∷ p.fc ∷ p.comm ∷ p.x2g ∷ p.softmax ∷ p.act ∷ p.norm ∷ []

abbrev pub g_perf_list : {T : Type 0} → GenPerf T → List T
g_perf_list p =
    p.all ∷ p.matmul ∷ p.fc ∷ p.comm ∷ p.etc ∷ p.qkv ∷ p.prj ∷ p.ff ∷ p.g2g ∷ p.x2g ∷ p.softmax
    ∷ p.act ∷ p.norm ∷ []

-- What a batch leaves: the totals of a summarisation, of a generation, and of the energies, and the two sums of
-- FLOPs.
pub record Totals (T : Type 0) : Type 0 where
  pub s_perf : List T
  pub g_perf : List T
  pub energy : List T
  pub s_flops : ℕ
  pub g_flops : ℕ

module _ {ck : Clock} (ar : Arithmetic ck) where
  abbrev pub zeros : ℕ → List (ck.Time)
  zeros zero = []
  zeros (suc n) = zero_time ar ∷ zeros n

  abbrev pub no_totals : Totals ck.Time
  no_totals = record {
    s_perf = zeros 8;
    g_perf = zeros 13;
    energy = zeros 13;
    s_flops = 0;
    g_flops = 0;
  }

  -- `dst[key] += value * scale`, key by key.
  abbrev pub accumulate : List (ck.Time) → List (ck.Time) → ℕ → List (ck.Time)
  accumulate [] src scale = []
  accumulate (x ∷ dst) [] scale = x ∷ dst
  accumulate (x ∷ dst) (y ∷ src) scale =
      ar.plus x (ar.times y (ar.of_nat scale)) ∷ accumulate dst src scale

  -- `value + v`, value by value.
  abbrev pub add_all : List (ck.Time) → List (ck.Time) → List (ck.Time)
  add_all [] src = []
  add_all (x ∷ dst) [] = x ∷ dst
  add_all (x ∷ dst) (y ∷ src) = ar.plus x y ∷ add_all dst src

module _ {ck : Clock} {G : Type 0} (ar : Arithmetic ck) (dep : Deployment ck G) (sys : System) where
  -- A layer of a summarisation on its device; a score on a PIM device is sampled.
  abbrev pub is_prefilled : Place → Layer → Bool
  is_prefilled Place.pim layer = is_score_name layer.name
  is_prefilled _ layer = false

  abbrev pub sum_cost : Bool → Place → Layer → Action G (ck.Time × List ℕ)
  sum_cost true group_device layer = do
    time ←
        simulate_pim_prefill_score ar dep.device dep.rounded sys.prefill_chunk_size
          sys.prefill_sample_count layer
    pure (ok (time, []))
  sum_cost false group_device layer = dep.device (select_acc_device group_device layer.type) layer

  -- The time of a transfer behind the one before it, and `wrt_io_busy` behind a layer.
  abbrev pub queued : LayerType → (time wrt_io_busy exec_time : ck.Time) → ck.Time
  queued x2g time wrt_io_busy exec_time =
      ar.plus exec_time (larger ar (ar.minus wrt_io_busy time) (zero_time ar))
  queued _ time wrt_io_busy exec_time = exec_time

  abbrev pub busy_until : LayerType → (time wrt_io_busy exec_time : ck.Time) → ck.Time
  busy_until x2g time wrt_io_busy exec_time = ar.plus time exec_time
  busy_until _ time wrt_io_busy exec_time = wrt_io_busy

  -- The loop of `_simulate_sum_group`.
  unfoldable pub sum_layers :
      Place → List Layer → (time wrt_io_busy : ck.Time) → Action G (List (Timed ck))
  sum_layers group_device [] time wrt_io_busy = pure (ok [])
  sum_layers group_device (layer ∷ rest) time wrt_io_busy = do
    (cost, energy) ← sum_cost (is_prefilled group_device layer) group_device layer
    let exec_time = queued layer.type time wrt_io_busy cost
    costs ←
        sum_layers group_device rest (ar.plus time exec_time)
          (busy_until layer.type time wrt_io_busy exec_time)
    pure (ok (record { layer = layer; exec_time = exec_time; energy = energy } ∷ costs))

  -- `_simulate_sum_group`: the layers, with the times that `_apply_eff_lat` corrects.
  unfoldable pub simulate_sum_group :
      (batch_size : ℕ) → Place → List Layer → Action G (List (Timed ck))
  unfolding sum_layers
  simulate_sum_group batch_size group_device s_decoder = do
    layers ← sum_layers group_device s_decoder (zero_time ar) (zero_time ar)
    pure (apply_eff_lat ar group_device dep.num_hbm batch_size layers)

  -- The corrections of a block, for a PIM device.
  abbrev pub corrected_block :
      (batch_size : ℕ) → (pipe : Bool) → Place → List (Timed ck) → Result (List (Timed ck))
  corrected_block batch_size pipe Place.pim block =
      Checked.◌>>=◌ (apply_eff_lat ar Place.pim dep.num_hbm batch_size block)
        (λ layers. pipeline ar sys.model.num_kv_heads dep.num_xpu pipe layers)
  corrected_block batch_size pipe _ block = ok block

  -- `_simulate_gen_group`: the blocks of the stages.
  unfoldable pub simulate_gen_group :
      (batch_size : ℕ)
      → (pipe : Bool) → Place
      → List (List Layer)
      → Action G (List (List (Timed ck)))
  simulate_gen_group batch_size pipe group_device [] = pure (ok [])
  simulate_gen_group batch_size pipe group_device (decoder_block ∷ rest) = do
    block ← simulate_block dep.device group_device decoder_block
    layers ← pure (corrected_block batch_size pipe group_device block)
    blocks ← simulate_gen_group batch_size pipe group_device rest
    pure (ok (layers ∷ blocks))

  -- `group_s_flops` and `group_g_flops`
  unfoldable pub group_flops : List Layer → ℕ
  group_flops [] = 0
  group_flops (layer ∷ rest) = get_flops layer * dep.num_xpu + group_flops rest

  unfoldable pub stage_flops : List (List Layer) → ℕ
  unfolding group_flops
  stage_flops [] = 0
  stage_flops (block ∷ rest) = group_flops block + stage_flops rest

  -- The vision graph of a batch.
  unfoldable pub add_vision :
      (batch_size : ℕ) → List Layer → Totals ck.Time → Action G (Totals ck.Time)
  unfolding simulate_sum_group group_flops
  add_vision batch_size [] totals = pure (ok totals)
  add_vision batch_size (layer ∷ rest) totals = do
    layers ← simulate_sum_group batch_size Place.gpu (layer ∷ rest)
    let times = accumulate ar totals.s_perf (s_perf_list (collect_s_perf ar layers)) 1
    pure (
        ok (record totals {
          s_perf = elim dep.floor [ none ↦ times | some seconds ↦ add_all ar times (seconds ∷ []) ];
          s_flops = totals.s_flops + group_flops (layer ∷ rest);
        }))

  -- A group of a batch.
  unfoldable pub add_group :
      (batch_size gen_steps : ℕ)
      → (pipe : Bool) → Group
      → Totals ck.Time
      → Action G (Totals ck.Time)
  unfolding simulate_sum_group simulate_gen_group group_flops stage_flops
  add_group batch_size gen_steps pipe group totals = do
    let place = group.entry.device
    let count = group.entry.count
    let per_step = λ (t : ck.Time). ar.divide t (ar.of_nat gen_steps)
    s_layers ← simulate_sum_group batch_size place group.sum_decoder
    g_blocks ← simulate_gen_group batch_size pipe place group.gen_decoder
    (gen_energies, unit_energy) ← pure (group_energies g_blocks (no_gen_energies, zero_unit_energy))
    let energies =
        map (λ e. per_step (ar.of_nat e)) (energy_list (collect_energies gen_energies unit_energy))
    pure (
        ok (record {
          s_perf = accumulate ar totals.s_perf (s_perf_list (collect_s_perf ar s_layers)) count;
          g_perf =
              accumulate ar totals.g_perf (map per_step (g_perf_list (collect_g_perf ar g_blocks)))
                count;
          energy = accumulate ar totals.energy energies count;
          s_flops = totals.s_flops + group_flops group.sum_decoder * count;
          g_flops = totals.g_flops + stage_flops group.gen_decoder * count;
        }))

  unfoldable pub add_groups :
      (batch_size gen_steps : ℕ)
      → (pipe : Bool) → List (GroupName × Group)
      → Totals ck.Time
      → Action G (Totals ck.Time)
  unfolding add_group
  add_groups batch_size gen_steps pipe [] totals = pure (ok totals)
  add_groups batch_size gen_steps pipe ((name, group) ∷ rest) totals =
      add_group batch_size gen_steps pipe group totals >>= add_groups batch_size gen_steps pipe rest
