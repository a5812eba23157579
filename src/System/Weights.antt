-- ===== src/System/Weights.antt =====
-- The memory of a system against the graph of its model, and where the keys and values are.
use attacc_simulator_vlm.Prelude.{
  ℕ, ◌+◌, ◌-◌, ◌*◌, ◌/◌, ◌≡◌, refl, Bool-cases, inl, inr, Bool, true, false, ◌==◌, if◌then◌else◌,
  List, [], ◌∷◌, Option, arith, ok,
}
use attacc_simulator_vlm.Model.Types.{
  DataType, w16a16, w8a8, FfnType, gated, standard, Stage, sum, g2g, norm, comm_g2g, norm2,
}
use attacc_simulator_vlm.Model.Layer.{Layer, get_size, dbyte_of}
use attacc_simulator_vlm.Model.Work.{sum_over, sum_over-append}
use attacc_simulator_vlm.Model.Transformer.{Transformer}
use attacc_simulator_vlm.Model.Decoder.{build_sum, is_deepstack}
use attacc_simulator_vlm.Model.Decoder.Splits.{
  IsSharded, split-mul, split-mul_same, plain, ffn_items, after_items,
}
use attacc_simulator_vlm.Model.Decoder.SumWork.{sum_items, build_sum-items}
use attacc_simulator_vlm.System.{
  System, Quotient, no_bytes, MemComponents, weight_byte, ff_weight, mem_components,
  compute_mem_components, get_required_mem_capacity, get_attacc_kv_capacity, kv_on_attacc,
}

abbrev has_weights : Layer → Bool
has_weights l = l.has_weight

abbrev weight_of : Layer → ℕ
weight_of l = (get_size l).1

-- The bytes of the weights of a list of layers, on one device.
abbrev pub weight_bytes : List Layer → ℕ
weight_bytes = sum_over has_weights weight_of

weight_byte-dbyte :
    (dtype : DataType) (dbyte : ℕ) → dbyte_of dtype ≡ ok dbyte → weight_byte dtype ≡ dbyte
weight_byte-dbyte w16a16 dbyte h = cc
weight_byte-dbyte w8a8 dbyte h = cc
weight_byte-dbyte DataType.w16a8 dbyte h = cc
weight_byte-dbyte DataType.w8a16 dbyte h = cc

module _ (t : Transformer) (dbyte : ℕ) (v : IsSharded t dbyte) where
  ffn_weights :
      (f : FfnType) (stage : Stage) (tokens : ℕ)
      → weight_bytes (ffn_items t dbyte f stage tokens (t.ff_intermediate / t.ff_tp)) * t.fc_tp
        ≡ ff_weight f t.hdim t.ff_intermediate * dbyte
  unfolding get_size
  ffn_weights gated stage tokens =
      omega (arith, split-mul_same v.intermediate v.one_size (t.hdim * dbyte))
  ffn_weights standard stage tokens =
      omega (arith, split-mul_same v.intermediate v.one_size (t.hdim * dbyte))

  after_weights :
      (stage : Stage) (tokens : ℕ)
      → weight_bytes (after_items t dbyte stage tokens) * t.fc_tp
        ≡ (t.hdim * t.hdim + ff_weight t.ffn_type t.hdim t.ff_intermediate) * dbyte
  unfolding get_size
  after_weights stage tokens =
      rw
        (sum_over-append has_weights weight_of
          (ffn_items t dbyte t.ffn_type stage tokens (t.ff_intermediate / t.ff_tp))
          (plain t dbyte stage comm_g2g g2g false tokens t.hdim 1
            ∷ plain t dbyte stage norm2 norm false tokens t.hdim 1
            ∷ []))
        (omega (arith, ffn_weights t.ffn_type stage tokens, split-mul v.hidden (t.hdim * dbyte)))

  sum_parts :
      (batch lin : ℕ) (hetero deep : Bool)
      → weight_bytes (sum_items t dbyte batch lin hetero deep)
        ≡ t.hdim * dbyte * (t.qkv_proj_out_total / t.fc_tp)
          + weight_bytes (after_items t dbyte sum (batch * lin))
  unfolding get_size
  sum_parts batch lin true true = omega arith
  sum_parts batch lin true false = omega arith
  sum_parts batch lin false true = omega arith
  sum_parts batch lin false false = omega arith

  sum_weights :
      (batch lin : ℕ) (hetero deep : Bool)
      → weight_bytes (sum_items t dbyte batch lin hetero deep) * t.fc_tp
        ≡ (t.hdim * t.qkv_proj_out_total
            + t.hdim * t.hdim
            + ff_weight t.ffn_type t.hdim t.ff_intermediate)
          * dbyte
  sum_weights batch lin hetero deep =
      rw (sum_parts batch lin hetero deep)
        (omega (arith, after_weights sum (batch * lin), split-mul v.qkv (t.hdim * dbyte)))

  -- For a model whose shards are even, the accounting of the weights is that of the graph on all devices,
  -- but for the projection behind the attention, which the accounting takes as q_proj_out by hdim and the
  -- graph as hdim by hdim.
  pub compute_mem_components-build_sum :
      (batch lin lout : ℕ) (hetero : Bool) (layer_idx : Option ℕ)
      → (c : MemComponents) × (decoder : List Layer) × (compute_mem_components t batch lin lout
          ≡ ok c)
        × (build_sum t batch lin hetero layer_idx ≡ ok decoder)
        × (c.weight_memory.by ≡ t.fc_tp)
        × (c.weight_memory.over + t.ndec * (t.hdim * t.hdim) * dbyte
            ≡ t.ndec * (weight_bytes decoder * t.fc_tp) + t.ndec * (t.q_proj_out * t.hdim) * dbyte)
  unfolding compute_mem_components
  compute_mem_components-build_sum batch lin lout hetero layer_idx =
      let some_fc : (t.fc_tp == 0) ≡ false = ground (arith, v.qkv.some_parts) in
      let some_attn : (t.attn_tp == 0) ≡ false = ground (arith, v.q_heads.some_parts) in
      (
        mem_components t batch (lin + lout - 1),
        sum_items t dbyte batch lin hetero (is_deepstack t layer_idx),
        rw some_fc (rw some_attn refl),
        build_sum-items t dbyte v batch lin hetero layer_idx,
        refl,
        rw (sum_weights batch lin hetero (is_deepstack t layer_idx))
            (rw (weight_byte-dbyte t.dtype dbyte v.supported) (omega arith)),
      )

-- Where the memory components can be computed, the share of the keys and values on the GPU and that on the
-- accelerator make up the whole: one of them is 0, and weights and temporaries do not depend on it.
pub get_required_mem_capacity-get_attacc_kv_capacity :
    (s : System) (batch_size lin lout : ℕ) (c : MemComponents)
    → compute_mem_components s.model batch_size lin lout ≡ ok c
    → (required : MemComponents) × (attacc : Quotient) × (get_required_mem_capacity s batch_size lin
          lout
        ≡ ok required)
      × (get_attacc_kv_capacity s batch_size lin lout ≡ ok attacc)
      × (required.weight_memory ≡ c.weight_memory)
      × (required.temp_memory ≡ c.temp_memory)
      × (required.kv_memory.over + attacc.over ≡ c.kv_memory.over)
      × (if kv_on_attacc s.hetero_name then required.kv_memory.over else attacc.over) ≡ 0
unfolding get_required_mem_capacity get_attacc_kv_capacity
get_required_mem_capacity-get_attacc_kv_capacity s batch_size lin lout c h =
    elim (Bool-cases (kv_on_attacc s.hetero_name)) [
      | inl on ↦ (
        record c { kv_memory = no_bytes },
        c.kv_memory,
        simp h (rw on refl),
        simp h (rw on refl),
        refl,
        refl,
        omega arith,
        rw on refl,
      )
      | inr off ↦
          (c, no_bytes, simp h (rw off refl), rw off refl, refl, refl, omega arith, rw off refl)
    ]
