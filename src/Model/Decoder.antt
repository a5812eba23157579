-- ===== src/Model/Decoder.antt =====
-- The decoder graphs of `class Transformer`: `_heads_per_attn_shard`, `_append_ffn`, `_build_sum` and
-- `_build_gen_stage`.
pub mod Splits
pub mod FfnWork
pub mod SumWork
pub mod GenWork
use attacc_simulator_vlm.Prelude.{
  ℕ, ◌+◌, ◌*◌, Bool, true, false, List, [], ◌∷◌, Option, none, some, Result, ok, ◌>>=◌, ◌⊕◌,
}
use attacc_simulator_vlm.Model.Types.{
  LayerType, fc, matmul, act, norm, g2g, x2g, Stage, sum, gen, LayerName, Activation, FfnType,
  gated, standard, score, context, qkv, proj, norm1, norm2, ff1, ff2, ff3, glu, deepstack_add,
  comm_x2g_kv, comm_x2g_q, comm_x2g_qkv, comm_x2g_return, comm_g2g,
}
use attacc_simulator_vlm.Model.Arith.{split}
use attacc_simulator_vlm.Model.Layer.{Layer, new_layer}
use attacc_simulator_vlm.Model.Routing.{contains}
use attacc_simulator_vlm.Model.Transformer.{Transformer}

-- `decoder.append(layer)`
abbrev pub append : Result Layer → Result (List Layer)
append r = do layer ← r; ok (layer ∷ [])

abbrev pub append_if : Bool → Result (List Layer) → Result (List Layer)
append_if true r = r
append_if false r = ok []

module _ (t : Transformer) where
  -- `Layer(stage, name, type, has_weight, self.dtype, m, n, k, numOp)`
  unfoldable pub layer :
      Stage → LayerName → LayerType → Bool → (m n k num_op : ℕ) → Result (List Layer)
  unfolding new_layer
  layer stage name type has_weight m n k num_op =
      append (new_layer stage name type has_weight t.dtype m n k num_op none)

  -- The same with `pim_numOp`.
  unfoldable pub attn_layer :
      Stage → LayerName → LayerType → (m n k num_op pim_num_op : ℕ) → Result (List Layer)
  unfolding new_layer
  attn_layer stage name type m n k num_op pim_num_op =
      append (new_layer stage name type false t.dtype m n k num_op (some pim_num_op))

  unfoldable pub heads_per_attn_shard : ℕ → Result (ℕ × ℕ)
  heads_per_attn_shard batch = do
    q_heads ← split t.num_q_heads t.attn_tp
    kv_heads ← split t.num_kv_heads t.attn_tp
    ok (q_heads * batch, kv_heads * batch)

  abbrev pub activation_name : LayerName
  activation_name = elim t.activation [
    | Activation.relu ↦ LayerName.relu
    | Activation.gelu ↦ LayerName.gelu
    | _ ↦ glu
  ]

  ffn_layers : FfnType → Stage → ℕ → ℕ → Result (List Layer)
  unfolding layer
  ffn_layers gated stage tokens ff_per_tp =
      layer stage ff1 fc true tokens ff_per_tp t.hdim 1
      ⊕ layer stage ff2 fc true tokens ff_per_tp t.hdim 1
      ⊕ layer stage glu act false tokens ff_per_tp 1 1
      ⊕ layer stage ff3 fc true tokens t.hdim ff_per_tp 1
  ffn_layers standard stage tokens ff_per_tp =
      layer stage ff1 fc true tokens ff_per_tp t.hdim 1
      ⊕ layer stage activation_name act false tokens ff_per_tp 1 1
      ⊕ layer stage ff2 fc true tokens t.hdim ff_per_tp 1

  unfoldable pub append_ffn : Stage → ℕ → Result (List Layer)
  unfolding ffn_layers
  append_ffn stage tokens = do
    ff_per_tp ← split t.ff_intermediate t.ff_tp
    ffn_layers t.ffn_type stage tokens ff_per_tp

  -- The layers behind the attention: `proj` to `norm2`.
  unfoldable pub after_attention : Stage → ℕ → Result (List Layer)
  unfolding layer append_ffn
  after_attention stage tokens =
      (do hdim_per_tp ← split t.hdim t.fc_tp; layer stage proj fc true tokens t.hdim hdim_per_tp 1)
      ⊕ layer stage comm_g2g g2g false tokens t.hdim 1 1
      ⊕ layer stage norm1 norm false tokens t.hdim 1 1
      ⊕ append_ffn stage tokens
      ⊕ layer stage comm_g2g g2g false tokens t.hdim 1 1
      ⊕ layer stage norm2 norm false tokens t.hdim 1 1

  -- `layer_idx in self.deepstack_layers`
  abbrev pub is_deepstack : Option ℕ → Bool
  is_deepstack none = false
  is_deepstack (some idx) = contains idx t.deepstack_layers

  unfoldable pub build_sum : ℕ → ℕ → Bool → Option ℕ → Result (List Layer)
  unfolding heads_per_attn_shard layer attn_layer after_attention
  build_sum batch lin attn_on_hetero layer_idx = do
    (q_heads, kv_heads) ← heads_per_attn_shard batch
    qkv_per_tp ← split t.qkv_proj_out_total t.fc_tp
    q_per_fc_tp ← split t.q_proj_out t.fc_tp
    kv_per_fc_tp ← split t.kv_proj_out t.fc_tp
    q_per_attn_tp ← split t.q_proj_out t.attn_tp
    layer sum qkv fc true (batch * lin) qkv_per_tp t.hdim 1
        ⊕ append_if attn_on_hetero (
            layer sum comm_x2g_kv x2g false (batch * lin) (2 * kv_per_fc_tp) 1 1
            ⊕ layer sum comm_x2g_q x2g false (batch * lin) q_per_fc_tp 1 1)
        ⊕ attn_layer sum score matmul lin lin t.dhead q_heads kv_heads
        ⊕ attn_layer sum LayerName.softmax LayerType.softmax lin lin 1 q_heads kv_heads
        ⊕ attn_layer sum context matmul lin t.dhead lin q_heads kv_heads
        ⊕ append_if (is_deepstack layer_idx)
            (layer sum deepstack_add act false (batch * lin) t.hdim 1 1)
        ⊕ append_if attn_on_hetero
            (layer sum comm_x2g_return x2g false (batch * lin) q_per_attn_tp 1 1)
        ⊕ after_attention sum (batch * lin)

  unfoldable pub build_gen_stage : ℕ → ℕ → ℕ → Bool → Result (List Layer)
  unfolding heads_per_attn_shard layer attn_layer after_attention
  build_gen_stage batch lin stage attn_on_hetero = do
    (q_heads, kv_heads) ← heads_per_attn_shard batch
    qkv_per_tp ← split t.qkv_proj_out_total t.fc_tp
    q_per_attn_tp ← split t.q_proj_out t.attn_tp
    let kv_len = lin + stage
    layer gen qkv fc true batch qkv_per_tp t.hdim 1
        ⊕ append_if attn_on_hetero (layer gen comm_x2g_qkv x2g false batch qkv_per_tp 1 1)
        ⊕ attn_layer gen score matmul 1 kv_len t.dhead q_heads kv_heads
        ⊕ attn_layer gen LayerName.softmax LayerType.softmax 1 kv_len 1 q_heads kv_heads
        ⊕ attn_layer gen context matmul 1 t.dhead kv_len q_heads kv_heads
        ⊕ append_if attn_on_hetero (layer gen comm_x2g_return x2g false batch q_per_attn_tp 1 1)
        ⊕ after_attention gen batch
