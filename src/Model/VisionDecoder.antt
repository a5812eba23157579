-- ===== src/Model/VisionDecoder.antt =====
-- The vision graph of `class Transformer`: `_build_vit`, `_build_projector` and `_build_vision`.
pub mod VitWork
use attacc_simulator_vlm.Prelude.{
  ℕ, ◌*◌, max, true, false, List, [], none, some, ◌==◌, ltb, if◌then◌else◌, Result, ok, ◌>>=◌, ◌⊕◌,
  ◌||◌,
}
use attacc_simulator_vlm.Model.Types.{
  LayerType, fc, matmul, act, norm, g2g, vit, projector, LayerName, Activation, ProjectorType,
  mlp_with_merger, pixel_shuffle_mlp, mlp, vit_qkv, vit_score, vit_softmax, vit_context, vit_proj,
  vit_norm1, vit_norm2, vit_ff1, vit_ff2, vit_relu, vit_gelu, vit_silu, vit_broadcast,
  proj_merger_fc1, proj_merger_act, proj_merger_fc2, proj_pixel_fc1, proj_pixel_act, proj_pixel_fc2,
  proj_mlp_fc1, proj_mlp_act, proj_mlp_fc2,
}
use attacc_simulator_vlm.Model.Arith.{int_div}
use attacc_simulator_vlm.Model.Layer.{Layer}
use attacc_simulator_vlm.Model.Transformer.{Transformer}
use attacc_simulator_vlm.Model.Vision.{
  Floats, ImageSize, compute_visual_tokens, compute_vit_tokens, compute_vit_attention_tokens,
  compute_vit_num_images,
}
use attacc_simulator_vlm.Model.Decoder.{append_if, layer}

module _ (fl : Floats) (t : Transformer) where
  abbrev pub vit_activation_name : LayerName
  vit_activation_name = elim t.vit_activation [
    | Activation.relu ↦ vit_relu
    | Activation.silu ↦ vit_silu
    | _ ↦ vit_gelu
  ]

  -- The ten layers of `_build_vit`.
  unfoldable pub vit_layers_for :
      (batch tokens attn_tokens block_ops attn_ops vit_dhead : ℕ) → Result (List Layer)
  unfolding layer
  vit_layers_for batch tokens attn_tokens block_ops attn_ops vit_dhead =
      layer t vit vit_qkv fc true (batch * tokens) (3 * t.vit_hidden) t.vit_hidden block_ops
      ⊕ layer t vit vit_score matmul false attn_tokens attn_tokens vit_dhead attn_ops
      ⊕ layer t vit vit_softmax LayerType.softmax false attn_tokens attn_tokens 1 attn_ops
      ⊕ layer t vit vit_context matmul false attn_tokens vit_dhead attn_tokens attn_ops
      ⊕ layer t vit vit_proj fc true (batch * tokens) t.vit_hidden t.vit_hidden block_ops
      ⊕ layer t vit vit_norm1 norm false (batch * tokens) t.vit_hidden 1 block_ops
      ⊕ layer t vit vit_ff1 fc true (batch * tokens) t.vit_intermediate t.vit_hidden block_ops
      ⊕ layer t vit vit_activation_name act false (batch * tokens) t.vit_intermediate 1 block_ops
      ⊕ layer t vit vit_ff2 fc true (batch * tokens) t.vit_hidden t.vit_intermediate block_ops
      ⊕ layer t vit vit_norm2 norm false (batch * tokens) t.vit_hidden 1 block_ops

  unfoldable pub build_vit : ℕ → ImageSize → Result (List Layer)
  unfolding compute_vit_tokens compute_vit_attention_tokens compute_vit_num_images vit_layers_for
  build_vit batch image_size = do
    tokens ← compute_vit_tokens fl t image_size
    if tokens == 0 || t.vit_layers == 0 then ok [] else (do
      attn_tokens ← compute_vit_attention_tokens fl t image_size
      num_images ← compute_vit_num_images fl t image_size
      let block_ops = t.vit_layers * max 1 num_images
      let attn_ops = t.vit_num_heads * batch * block_ops
      vit_dhead ← int_div t.vit_hidden t.vit_num_heads
      vit_layers_for batch tokens attn_tokens block_ops attn_ops vit_dhead)

  -- The three layers of a projector.
  projector_layers : LayerName → LayerName → LayerName → (rows in_dim : ℕ) → Result (List Layer)
  unfolding layer
  projector_layers fc1 activation fc2 rows in_dim =
      layer t projector fc1 fc true rows t.hdim in_dim 1
      ⊕ layer t projector activation act false rows t.hdim 1 1
      ⊕ layer t projector fc2 fc true rows t.hdim t.hdim 1

  projector_for : ProjectorType → ℕ → Result (List Layer)
  unfolding projector_layers
  projector_for mlp_with_merger rows =
      projector_layers proj_merger_fc1 proj_merger_act proj_merger_fc2 rows
        (t.vit_hidden * t.spatial_merge_size * t.spatial_merge_size)
  projector_for pixel_shuffle_mlp rows =
      projector_layers proj_pixel_fc1 proj_pixel_act proj_pixel_fc2 rows
        (t.vit_hidden * t.spatial_merge_size * t.spatial_merge_size)
  projector_for mlp rows = projector_layers proj_mlp_fc1 proj_mlp_act proj_mlp_fc2 rows t.vit_hidden

  unfoldable pub build_projector : ℕ → ImageSize → Result (List Layer)
  unfolding compute_visual_tokens projector_for layer
  build_projector batch image_size = do
    tokens ← compute_visual_tokens fl t image_size
    if tokens == 0 then ok [] else elim t.projector_type [
      | none ↦ ok []
      | some p ↦
          projector_for p (batch * tokens)
          ⊕ append_if (ltb 1 t.fc_tp)
              (layer t projector vit_broadcast g2g false (batch * tokens) t.hdim 1 1)
    ]

  unfoldable pub build_vision : ℕ → ImageSize → Result (List Layer)
  unfolding build_vit build_projector
  build_vision batch image_size = build_vit batch image_size ⊕ build_projector batch image_size
