-- ===== src/Model/Decoder/GenWork.antt =====
-- The graph of `_build_gen_stage` for a model whose shards are even: it is built, and the FLOPs of
-- its FC, MATMUL and softmax layers over all devices, and the bytes of its X2G layers, are stated.
use attacc_simulator_vlm.Prelude.{
  ℕ, ◌+◌, ◌*◌, ◌/◌, ◌≡◌, Bool, true, false, List, [], ◌∷◌, ◌++◌, arith, ok, if◌then◌else◌, ap, sym,
  ◌∙◌,
}
use attacc_simulator_vlm.Model.Types.{
  LayerType, fc, matmul, x2g, LayerName, gen, qkv, score, context, comm_x2g_qkv, comm_x2g_return,
}
use attacc_simulator_vlm.Model.Layer.{Layer, get_flops, get_size}
use attacc_simulator_vlm.Model.Work.{
  is_fc, is_matmul, is_softmax, flops, x2g_bytes, ffn_matrices, items_if, sum_over-items_if,
  without_x2g,
}
use attacc_simulator_vlm.Model.Decoder.FfnWork.{
  after_flops, after_matmul, after_softmax, after_x2g, after_without_x2g,
}
use attacc_simulator_vlm.Model.Transformer.{Transformer}
use attacc_simulator_vlm.Model.Decoder.{build_gen_stage, heads_per_attn_shard}
use attacc_simulator_vlm.Model.Decoder.Splits.{
  IsSharded, split-ok, split-mul, append_if-ok, item, plain, after_items, layer-ok, attn_layer-ok,
  append_ffn-ok,
}

module _ (t : Transformer) (dbyte : ℕ) where
  -- The layers of one decoder block.
  abbrev pub gen_items : (batch kv_len : ℕ) (hetero : Bool) → List Layer
  gen_items batch kv_len hetero =
      let q = t.num_q_heads / t.attn_tp * batch in
      let kv = t.num_kv_heads / t.attn_tp * batch in
      let qkv_per_tp = t.qkv_proj_out_total / t.fc_tp in
      plain t dbyte gen qkv fc true batch qkv_per_tp t.hdim
      ∷ (items_if hetero (plain t dbyte gen comm_x2g_qkv x2g false batch qkv_per_tp 1 ∷ [])
          ++ (item t dbyte gen score matmul false 1 kv_len t.dhead q kv
              ∷ item t dbyte gen LayerName.softmax LayerType.softmax false 1 kv_len 1 q kv
              ∷ item t dbyte gen context matmul false 1 t.dhead kv_len q kv
              ∷ (items_if hetero (
                    plain t dbyte gen comm_x2g_return x2g false batch (t.q_proj_out / t.attn_tp) 1
                    ∷ [])
                  ++ after_items t dbyte gen batch)))

  pub build_gen_stage-items :
      IsSharded t dbyte
      → (batch lin stage : ℕ) (hetero : Bool)
      → build_gen_stage t batch lin stage hetero ≡ ok (gen_items batch (lin + stage) hetero)
  unfolding build_gen_stage heads_per_attn_shard
  build_gen_stage-items v batch lin stage hetero =
      rw
        (
          split-ok v.q_heads,
          split-ok v.kv_heads,
          split-ok v.qkv,
          split-ok v.q_returned,
          split-ok v.hidden,
        )
        (simp (layer-ok t dbyte v, attn_layer-ok t dbyte v, append_ffn-ok t dbyte v, append_if-ok))

-- The FLOPs of FC, MATMUL and softmax layers, and the bytes of X2G layers, of a generation graph of one device.
pub record GenWork (t : Transformer) (dbyte batch kv_len : ℕ) (hetero : Bool) (decoder : List Layer)
    : Type 0 where
  -- the FLOPs of the FC layers over all devices, for one token of each request, with `proj` as hdim by hdim
  pub weights :
      flops is_fc decoder * t.fc_tp
      ≡ 2
        * batch
        * t.hdim
        * (t.qkv_proj_out_total + t.hdim + ffn_matrices t.ffn_type * t.ff_intermediate)
  -- the FLOPs of the MATMUL layers over the devices of the attention, one row of `kv_len` scores for each query head
  pub attention :
      flops is_matmul decoder * t.attn_tp ≡ 4 * kv_len * t.dhead * (t.num_q_heads * batch)
  -- the FLOPs of the softmax over the devices of the attention: five for each score
  pub softmaxes : flops is_softmax decoder * t.attn_tp ≡ 5 * kv_len * (t.num_q_heads * batch)
  -- the bytes between the GPU and the accelerator
  pub transfers : x2g_bytes decoder ≡ (
      if hetero
      then dbyte * batch * (t.qkv_proj_out_total / t.fc_tp + t.q_proj_out / t.attn_tp)
      else 0)

module _ (t : Transformer) (dbyte : ℕ) (v : IsSharded t dbyte) (batch kv_len : ℕ) where
  weights_of :
      (hetero : Bool)
      → flops is_fc (gen_items t dbyte batch kv_len hetero) * t.fc_tp
        ≡ 2
          * batch
          * t.hdim
          * (t.qkv_proj_out_total + t.hdim + ffn_matrices t.ffn_type * t.ff_intermediate)
  unfolding get_flops
  weights_of hetero =
      simp sum_over-items_if
        (ground (arith, after_flops t dbyte v gen batch, split-mul v.qkv (batch * t.hdim)))

  attention_of :
      (hetero : Bool)
      → flops is_matmul (gen_items t dbyte batch kv_len hetero) * t.attn_tp
        ≡ 4 * kv_len * t.dhead * (t.num_q_heads * batch)
  unfolding get_flops
  attention_of hetero = simp sum_over-items_if (
      ground
        (arith, after_matmul t dbyte v gen batch, split-mul v.q_heads (kv_len * t.dhead * batch)))

  softmaxes_of :
      (hetero : Bool)
      → flops is_softmax (gen_items t dbyte batch kv_len hetero) * t.attn_tp
        ≡ 5 * kv_len * (t.num_q_heads * batch)
  unfolding get_flops
  softmaxes_of hetero =
      simp sum_over-items_if
        (ground (arith, after_softmax t dbyte v gen batch, split-mul v.q_heads (kv_len * batch)))

  transfers_of :
      (hetero : Bool)
      → x2g_bytes (gen_items t dbyte batch kv_len hetero) ≡ (
          if hetero
          then dbyte * batch * (t.qkv_proj_out_total / t.fc_tp + t.q_proj_out / t.attn_tp)
          else 0)
  unfolding get_size
  transfers_of hetero = simp sum_over-items_if (ground (arith, after_x2g t dbyte v gen batch))

  pub gen_items-GenWork :
      (hetero : Bool) → GenWork t dbyte batch kv_len hetero (gen_items t dbyte batch kv_len hetero)
  gen_items-GenWork hetero = record {
    weights = weights_of hetero;
    attention = attention_of hetero;
    softmaxes = softmaxes_of hetero;
    transfers = transfers_of hetero;
  }

module _ (t : Transformer) (dbyte : ℕ) (v : IsSharded t dbyte) (batch lin stage : ℕ) where
  -- For a model whose shards are even, the graph of a stage is built, wherever the attention runs.
  -- The FLOPs of its FC layers over all devices are those of products of one token of each request
  -- with matrices of hdim by qkv_proj_out_total, of hdim by hdim, as which the graph takes the
  -- projection behind the attention, and with two, or gated three, of hdim by ff_intermediate. Over
  -- the devices of the attention, the FLOPs of its MATMUL layers are those of two products of a row
  -- with dhead by lin + stage numbers for each query head of each request, with five FLOPs for each
  -- score in the softmax between them. The bytes of its X2G layers are those of a device's share of
  -- the queries, keys and values together and of the results where the attention runs on an
  -- accelerator, and 0 where it does not.
  pub build_gen_stage-GenWork :
      (hetero : Bool)
      → (decoder : List Layer) × (build_gen_stage t batch lin stage hetero ≡ ok decoder)
        × GenWork t dbyte batch (lin + stage) hetero decoder
  build_gen_stage-GenWork hetero = (
    gen_items t dbyte batch (lin + stage) hetero,
    build_gen_stage-items t dbyte v batch lin stage hetero,
    gen_items-GenWork t dbyte v batch (lin + stage) hetero,
  )

  -- The graph of a stage for the GPU alone is the one for an accelerator without its transfers.
  pub build_gen_stage-without_x2g :
      (decoder : List Layer) × (build_gen_stage t batch lin stage true ≡ ok decoder)
      × (build_gen_stage t batch lin stage false ≡ ok (without_x2g decoder))
  build_gen_stage-without_x2g = (
    gen_items t dbyte batch (lin + stage) true,
    build_gen_stage-items t dbyte v batch lin stage true,
    build_gen_stage-items t dbyte v batch lin stage false
        ∙ ap ok (sym (simp (after_without_x2g t dbyte gen batch))),
  )
