-- ===== src/System.antt =====
-- `class System` (src/system.py): the memory that a request takes, the routing that `simulate` chooses, and
-- the chunks of a prefill on the accelerator.
pub mod Weights
pub mod Chunks
pub mod Sampling
pub mod Choice
pub mod Perf
pub mod Energy
pub mod Latency
pub mod Prefill
pub mod Simulate
pub mod Batches
pub mod Report
pub mod Idle
pub mod OneToken
pub mod GroupBalance
pub mod Shape
pub mod Breakdown
pub mod Group
pub mod Offload
pub mod Charges
use attacc_simulator_vlm.Prelude.{
  ℕ, ◌+◌, ◌-◌, ◌*◌, ◌/◌, min, max, Bool, true, false, ◌||◌, ◌==◌, if◌then◌else◌, List, [], ◌∷◌,
  range, map, Option, none, some, or_else, ceil_div, leb, ltb, ◌^◌, Result, ok, raise,
  zero_division, ◌>>=◌,
}
use attacc_simulator_vlm.Model.Types.{
  DataType, w16a16, LayerType, DeviceType, gpu, cpu, pim, FfnType, gated, standard,
}
use attacc_simulator_vlm.Model.Routing.{Mode, Place, Entry, all, new_routing, to_groups}
use attacc_simulator_vlm.Model.Transformer.{Transformer}

-- The fields of a `System` that are modelled.
pub record System : Type 0 where
  pub hetero_name : DeviceType
  pub model : Transformer
  pub routing_mode : Option Mode
  pub routing_layer_list : Option (List ℕ)
  pub prefill_chunk_size : ℕ
  pub prefill_sample_count : ℕ

-- `set_routing`, `set_prefill_config`
unfoldable pub set_routing : Option Mode → Option (List ℕ) → System → System
set_routing mode layer_list s = record s { routing_mode = mode; routing_layer_list = layer_list }

unfoldable pub set_prefill_config : (chunk_size sample_count : ℕ) → System → System
set_prefill_config chunk_size sample_count s = record s {
  prefill_chunk_size = chunk_size;
  prefill_sample_count = sample_count;
}

-- `a / b` of integers, before it is rounded to a float.
pub record Quotient : Type 0 where
  pub over : ℕ
  pub by : ℕ

-- `w_byte` and `a_byte`
abbrev pub weight_byte : DataType → ℕ
weight_byte w16a16 = 2
weight_byte DataType.w16a8 = 2
weight_byte _ = 1

abbrev pub activation_byte : DataType → ℕ
activation_byte w16a16 = 2
activation_byte DataType.w8a16 = 2
activation_byte _ = 1

abbrev pub ff_weight : FfnType → (hdim ff_intermediate : ℕ) → ℕ
ff_weight gated hdim ff_intermediate = hdim * ff_intermediate * 3
ff_weight standard hdim ff_intermediate = hdim * ff_intermediate * 2

-- What `_compute_mem_components` returns: bytes for each shard.
pub record MemComponents : Type 0 where
  pub weight_memory : Quotient
  pub kv_memory : Quotient
  pub temp_memory : ℕ

-- `temp_memory` of one request, for `l` tokens.
abbrev pub temp_of : Transformer → ℕ → ℕ
temp_of t l =
    let a_byte = activation_byte t.dtype in
    max
      (max (max ((t.hdim + l * t.num_q_heads) * a_byte) (t.hdim * 2 * a_byte))
        (l * t.num_q_heads * 2 * a_byte))
      ((t.ff_intermediate + t.hdim) * a_byte)
    + l * t.num_q_heads * a_byte

abbrev pub mem_components : Transformer → (batch_size l : ℕ) → MemComponents
mem_components t batch_size l = record {
  weight_memory = record {
    over =
        t.ndec
        * (t.hdim * t.qkv_proj_out_total
            + t.q_proj_out * t.hdim
            + ff_weight t.ffn_type t.hdim t.ff_intermediate)
        * weight_byte t.dtype;
    by = t.fc_tp;
  };
  kv_memory = record {
    over = t.ndec * 2 * l * t.num_kv_heads * t.dhead * activation_byte t.dtype * batch_size;
    by = t.attn_tp;
  };
  temp_memory = temp_of t l * batch_size;
}

-- `_compute_mem_components`, for a request with a token (`l` is `lin + lout - 1`).
unfoldable pub compute_mem_components :
    Transformer → (batch_size lin lout : ℕ) → Result MemComponents
compute_mem_components t batch_size lin lout =
    if (t.fc_tp == 0) || (t.attn_tp == 0)
    then raise zero_division
    else ok (mem_components t batch_size (lin + lout - 1))

-- `kv_on_attacc`
abbrev pub kv_on_attacc : DeviceType → Bool
kv_on_attacc pim = true
kv_on_attacc _ = false

abbrev pub no_bytes : Quotient
no_bytes = record { over = 0; by = 1 }

unfoldable pub get_required_mem_capacity : System → (batch_size lin lout : ℕ) → Result MemComponents
get_required_mem_capacity s batch_size lin lout = do
  c ← compute_mem_components s.model batch_size lin lout
  ok (if kv_on_attacc s.hetero_name then record c { kv_memory = no_bytes } else c)

unfoldable pub get_attacc_kv_capacity : System → (batch_size lin lout : ℕ) → Result Quotient
get_attacc_kv_capacity s batch_size lin lout =
    if kv_on_attacc s.hetero_name
    then (do c ← compute_mem_components s.model batch_size lin lout; ok c.kv_memory)
    else ok no_bytes

-- `_accelerator_routing_name`
abbrev pub accelerator_routing_name : DeviceType → Place
accelerator_routing_name pim = Place.pim
accelerator_routing_name cpu = Place.cpu
accelerator_routing_name _ = Place.gpu

-- `self.hetero_name in [DeviceType.CPU, DeviceType.PIM]`
abbrev pub is_hetero : DeviceType → Bool
is_hetero pim = true
is_hetero cpu = true
is_hetero _ = false

-- `self.routing_layer_list or list(range(ndec))`
abbrev pub listed_or_all : Option (List ℕ) → ℕ → List ℕ
listed_or_all none ndec = range ndec
listed_or_all (some []) ndec = range ndec
listed_or_all (some (idx ∷ rest)) ndec = idx ∷ rest

-- The routing for an accelerator where no mode is set.
abbrev pub unset_routing : (has_deepstack : Bool) → Option (List ℕ) → Place → ℕ → List Entry
unset_routing true layer_list place ndec =
    to_groups (new_routing true Mode.list (some (listed_or_all layer_list ndec)) place) ndec
unset_routing false layer_list place ndec =
    record { group_name = all; device = place; count = ndec; indices = none } ∷ []

abbrev pub routing_for :
    Option Mode → (hetero has_deepstack : Bool) → Option (List ℕ) → Place → ℕ → Option (List Entry)
routing_for (some mode) hetero has_deepstack layer_list place ndec =
    some (to_groups (new_routing has_deepstack mode layer_list place) ndec)
routing_for none true has_deepstack layer_list place ndec =
    some (unset_routing has_deepstack layer_list place ndec)
routing_for none false has_deepstack layer_list place ndec = none

-- The routing that `simulate` passes to `build`.
unfoldable pub chosen_routing : System → Option (List Entry)
chosen_routing s =
    routing_for s.routing_mode (is_hetero s.hetero_name) s.model.has_deepstack s.routing_layer_list
      (accelerator_routing_name s.hetero_name) s.model.ndec

-- `_select_acc_device`: whether a layer of a group runs on the accelerator.
abbrev pub is_offloaded : LayerType → Bool
is_offloaded LayerType.matmul = true
is_offloaded LayerType.softmax = true
is_offloaded LayerType.x2g = true
is_offloaded _ = false

abbrev pub select_acc_device : Place → LayerType → Bool
select_acc_device Place.gpu type = false
select_acc_device _ type = is_offloaded type

-- The chunks of `_simulate_pim_prefill_score`.
abbrev pub chunk_size_of : (prefill_chunk_size total_l : ℕ) → ℕ
chunk_size_of prefill_chunk_size total_l = max 1 (min prefill_chunk_size total_l)

abbrev pub n_chunks_of : (chunk_size total_l : ℕ) → ℕ
n_chunks_of chunk_size total_l = ceil_div total_l chunk_size

-- `chunk_tokens` and `accumulated_l`
abbrev pub chunk_tokens : (chunk_size total_l chunk_idx : ℕ) → ℕ
chunk_tokens chunk_size total_l chunk_idx = min chunk_size (total_l - chunk_idx * chunk_size)

abbrev pub accumulated_l : (chunk_size total_l chunk_idx : ℕ) → ℕ
accumulated_l chunk_size total_l chunk_idx = min total_l ((chunk_idx + 1) * chunk_size)

-- `sorted` of a set that an index is added to: ascending, no index twice.
abbrev pub insert_index : ℕ → List ℕ → List ℕ
insert_index x [] = x ∷ []
insert_index x (y ∷ ys) =
    let later = insert_index x ys in
    if ltb x y then x ∷ y ∷ ys else (if x == y then y ∷ ys else y ∷ later)

-- `_sample_indices`; `rounded a b c` is `int(round(a * (b / c)))`.
module _ (rounded : ℕ → ℕ → ℕ → ℕ) where
  -- `denom`, and the index of a position.
  abbrev pub sample_index : (n_items sample_count pos : ℕ) → ℕ
  sample_index n_items sample_count pos =
      rounded (n_items - 1) (2 ^ pos - 1) (max 1 (2 ^ (sample_count - 1) - 1))

  unfoldable pub add_positions : (n_items sample_count : ℕ) → List ℕ → List ℕ → List ℕ
  add_positions n_items sample_count [] indices = indices
  add_positions n_items sample_count (pos ∷ rest) indices =
      add_positions n_items sample_count rest
        (insert_index (sample_index n_items sample_count pos) indices)

  unfoldable pub sample_indices : (n_items sample_count : ℕ) → List ℕ
  sample_indices n_items sample_count =
      if leb n_items sample_count
      then range n_items
      else add_positions n_items sample_count (range sample_count)
          (insert_index (n_items - 1) (0 ∷ []))
