-- ===== src/Model/VisionDecoder/VitWork.antt =====
-- The graph of `_build_vit`: it is built, and its layers do the work of every block on every tile.
use attacc_simulator_vlm.Prelude.{
  ℕ, ◌+◌, ◌*◌, ◌/◌, ◌<◌, ◌≡◌, max, true, false, List, [], ◌∷◌, ◌==◌, arith, ok,
}
use attacc_simulator_vlm.Model.Types.{
  LayerType, fc, matmul, act, norm, vit, vit_qkv, vit_score, vit_softmax, vit_context, vit_proj,
  vit_norm1, vit_norm2, vit_ff1, vit_ff2,
}
use attacc_simulator_vlm.Model.Layer.{Layer, get_flops}
use attacc_simulator_vlm.Model.Work.{is_fc, is_matmul, flops}
use attacc_simulator_vlm.Model.Transformer.{Transformer}
use attacc_simulator_vlm.Model.Vision.{
  Floats, ImageSize, compute_vit_tokens, compute_vit_attention_tokens, compute_vit_num_images,
}
use attacc_simulator_vlm.Model.Decoder.Splits.{IsSharded, IsSplit, split-mul, item, layer-ok}
use attacc_simulator_vlm.Model.VisionDecoder.{build_vit, vit_layers_for, vit_activation_name}

-- The work of a vision graph: `blocks` is the number of blocks over all tiles.
pub record VitWork (t : Transformer) (batch tokens blocks : ℕ) (decoder : List Layer) : Type 0 where
  -- the weights' FLOPs: four square matrices and two of the feed-forward block
  pub weights :
      flops is_fc decoder
      ≡ 2 * (batch * tokens) * t.vit_hidden * (4 * t.vit_hidden + 2 * t.vit_intermediate) * blocks
  -- the attention's FLOPs: two products of all heads
  pub attention : flops is_matmul decoder ≡ 4 * tokens * tokens * t.vit_hidden * (batch * blocks)

module _ (fl : Floats) (t : Transformer) (dbyte : ℕ) where
  abbrev vit_items : (batch tokens blocks ops vit_dhead : ℕ) → List Layer
  vit_items batch tokens blocks ops vit_dhead =
      item t dbyte vit vit_qkv fc true (batch * tokens) (3 * t.vit_hidden) t.vit_hidden blocks
        blocks
      ∷ item t dbyte vit vit_score matmul false tokens tokens vit_dhead ops ops
      ∷ item t dbyte vit vit_softmax LayerType.softmax false tokens tokens 1 ops ops
      ∷ item t dbyte vit vit_context matmul false tokens vit_dhead tokens ops ops
      ∷ item t dbyte vit vit_proj fc true (batch * tokens) t.vit_hidden t.vit_hidden blocks blocks
      ∷ item t dbyte vit vit_norm1 norm false (batch * tokens) t.vit_hidden 1 blocks blocks
      ∷ item t dbyte vit vit_ff1 fc true (batch * tokens) t.vit_intermediate t.vit_hidden blocks
          blocks
      ∷ item t dbyte vit (vit_activation_name fl t) act false (batch * tokens) t.vit_intermediate 1
          blocks blocks
      ∷ item t dbyte vit vit_ff2 fc true (batch * tokens) t.vit_hidden t.vit_intermediate blocks
          blocks
      ∷ item t dbyte vit vit_norm2 norm false (batch * tokens) t.vit_hidden 1 blocks blocks
      ∷ []

  vit_layers_for-items :
      IsSharded t dbyte
      → (batch tokens blocks ops vit_dhead : ℕ)
      → vit_layers_for fl t batch tokens tokens blocks ops vit_dhead
        ≡ ok (vit_items batch tokens blocks ops vit_dhead)
  unfolding vit_layers_for
  vit_layers_for-items v batch tokens blocks ops vit_dhead = simp (layer-ok t dbyte v)

  vit_items-VitWork :
      IsSplit t.vit_hidden t.vit_num_heads
      → (batch tokens blocks : ℕ)
      → VitWork t batch tokens blocks (
          vit_items batch tokens blocks
            (t.vit_num_heads * batch * blocks)
            (t.vit_hidden / t.vit_num_heads))
  unfolding get_flops
  vit_items-VitWork heads batch tokens blocks = record {
    weights = omega arith;
    attention = omega (arith, split-mul heads (tokens * tokens * batch * blocks));
  }

  -- For a model whose shards are even and whose vision heads divide its vision width, with layers,
  -- tokens and tiles, the graph is built, and it does the work of every block on every tile.
  pub build_vit-VitWork :
      IsSharded t dbyte
      → IsSplit t.vit_hidden t.vit_num_heads
      → (batch tokens images : ℕ) (image_size : ImageSize)
      → compute_vit_tokens fl t image_size ≡ ok tokens
      → compute_vit_num_images fl t image_size ≡ ok images
      → 0 < tokens
      → 0 < t.vit_layers
      → 0 < images
      → (decoder : List Layer) × (build_vit fl t batch image_size ≡ ok decoder)
        × VitWork t batch tokens (t.vit_layers * images) decoder
  unfolding build_vit compute_vit_attention_tokens
  build_vit-VitWork v heads batch tokens images image_size counted tiled some_tokens some_layers
        some_images =
      let has_tokens : (tokens == 0) ≡ false = ground arith in
      let has_layers : (t.vit_layers == 0) ≡ false = ground arith in
      let has_heads : (t.vit_num_heads == 0) ≡ false = ground (arith, heads.some_parts) in
      let tiles : max 1 images ≡ images = omega arith in
      let blocks = t.vit_layers * images in
      (
        vit_items batch tokens blocks (t.vit_num_heads * batch * blocks)
            (t.vit_hidden / t.vit_num_heads),
        rw (counted, has_tokens, has_layers, tiled, has_heads, tiles)
            (vit_layers_for-items v batch tokens blocks (t.vit_num_heads * batch * blocks) _),
        vit_items-VitWork heads batch tokens blocks,
      )
