-- ===== src/Model/Decoder/SumWork.antt =====
-- The summarisation graph of `_build_sum` for a model whose shards are even: it is built, and the
-- FLOPs of its FC, MATMUL and softmax layers over all devices, and the bytes of its X2G layers, are stated.
use attacc_simulator_vlm.Prelude.{
  ℕ, ◌+◌, ◌*◌, ◌/◌, ◌≡◌, Bool, true, false, List, [], ◌∷◌, ◌++◌, Option, arith, ok, if◌then◌else◌,
  ap, sym, ◌∙◌,
}
use attacc_simulator_vlm.Model.Types.{
  LayerType, fc, matmul, act, x2g, LayerName, sum, qkv, score, context, deepstack_add, comm_x2g_kv,
  comm_x2g_q, comm_x2g_return,
}
use attacc_simulator_vlm.Model.Layer.{Layer, get_flops, get_size}
use attacc_simulator_vlm.Model.Work.{
  is_fc, is_matmul, is_softmax, flops, x2g_bytes, ffn_matrices, items_if, sum_over-items_if,
  without_x2g,
}
use attacc_simulator_vlm.Model.Decoder.FfnWork.{
  after_flops, after_matmul, after_softmax, after_x2g, after_without_x2g,
}
use attacc_simulator_vlm.Model.Transformer.{Transformer}
use attacc_simulator_vlm.Model.Decoder.{build_sum, heads_per_attn_shard, is_deepstack}
use attacc_simulator_vlm.Model.Decoder.Splits.{
  IsSharded, split-ok, split-mul, append_if-ok, item, plain, after_items, layer-ok, attn_layer-ok,
  append_ffn-ok,
}

module _ (t : Transformer) (dbyte : ℕ) where
  -- The layers of one decoder block.
  abbrev pub sum_items : (batch lin : ℕ) (hetero deep : Bool) → List Layer
  sum_items batch lin hetero deep =
      let tokens = batch * lin in
      let q = t.num_q_heads / t.attn_tp * batch in
      let kv = t.num_kv_heads / t.attn_tp * batch in
      plain t dbyte sum qkv fc true tokens (t.qkv_proj_out_total / t.fc_tp) t.hdim
      ∷ (items_if hetero (
            plain t dbyte sum comm_x2g_kv x2g false tokens (2 * (t.kv_proj_out / t.fc_tp)) 1
            ∷ plain t dbyte sum comm_x2g_q x2g false tokens (t.q_proj_out / t.fc_tp) 1
            ∷ [])
          ++ (item t dbyte sum score matmul false lin lin t.dhead q kv
              ∷ item t dbyte sum LayerName.softmax LayerType.softmax false lin lin 1 q kv
              ∷ item t dbyte sum context matmul false lin t.dhead lin q kv
              ∷ (items_if deep (plain t dbyte sum deepstack_add act false tokens t.hdim 1 ∷ [])
                  ++ (items_if hetero (
                        plain t dbyte sum comm_x2g_return x2g false tokens
                          (t.q_proj_out / t.attn_tp) 1
                        ∷ [])
                      ++ after_items t dbyte sum tokens))))

  pub build_sum-items :
      IsSharded t dbyte
      → (batch lin : ℕ) (hetero : Bool) (layer_idx : Option ℕ)
      → build_sum t batch lin hetero layer_idx
        ≡ ok (sum_items batch lin hetero (is_deepstack t layer_idx))
  unfolding build_sum heads_per_attn_shard
  build_sum-items v batch lin hetero layer_idx =
      rw
        (
          split-ok v.q_heads,
          split-ok v.kv_heads,
          split-ok v.qkv,
          split-ok v.q_out,
          split-ok v.kv_out,
          split-ok v.q_returned,
          split-ok v.hidden,
        )
        (simp (layer-ok t dbyte v, attn_layer-ok t dbyte v, append_ffn-ok t dbyte v, append_if-ok))

-- The FLOPs of FC, MATMUL and softmax layers, and the bytes of X2G layers, of a summarisation graph of one device.
pub record SumWork (t : Transformer) (dbyte batch lin : ℕ) (hetero : Bool) (decoder : List Layer)
    : Type 0 where
  -- the FLOPs of the FC layers over all devices: `qkv`, `proj` as hdim by hdim, and the feed-forward block
  pub weights :
      flops is_fc decoder * t.fc_tp
      ≡ 2
        * (batch * lin)
        * t.hdim
        * (t.qkv_proj_out_total + t.hdim + ffn_matrices t.ffn_type * t.ff_intermediate)
  -- the FLOPs of the MATMUL layers over the devices of the attention: two products for each query head
  pub attention :
      flops is_matmul decoder * t.attn_tp ≡ 4 * lin * lin * t.dhead * (t.num_q_heads * batch)
  -- the FLOPs of the softmax over the devices of the attention: five for each score
  pub softmaxes : flops is_softmax decoder * t.attn_tp ≡ 5 * lin * lin * (t.num_q_heads * batch)
  -- the bytes between the GPU and the accelerator
  pub transfers : x2g_bytes decoder ≡ (
      if hetero
      then dbyte
        * (batch * lin)
        * (2 * (t.kv_proj_out / t.fc_tp) + t.q_proj_out / t.fc_tp + t.q_proj_out / t.attn_tp)
      else 0)

module _ (t : Transformer) (dbyte : ℕ) (v : IsSharded t dbyte) (batch lin : ℕ) where
  weights_of :
      (hetero deep : Bool)
      → flops is_fc (sum_items t dbyte batch lin hetero deep) * t.fc_tp
        ≡ 2
          * (batch * lin)
          * t.hdim
          * (t.qkv_proj_out_total + t.hdim + ffn_matrices t.ffn_type * t.ff_intermediate)
  unfolding get_flops
  weights_of hetero deep = simp sum_over-items_if (
      ground
        (arith, after_flops t dbyte v sum (batch * lin), split-mul v.qkv (batch * lin * t.hdim)))

  attention_of :
      (hetero deep : Bool)
      → flops is_matmul (sum_items t dbyte batch lin hetero deep) * t.attn_tp
        ≡ 4 * lin * lin * t.dhead * (t.num_q_heads * batch)
  unfolding get_flops
  attention_of hetero deep = simp sum_over-items_if (
      ground (
        arith,
        after_matmul t dbyte v sum (batch * lin),
        split-mul v.q_heads (lin * lin * t.dhead * batch),
      ))

  softmaxes_of :
      (hetero deep : Bool)
      → flops is_softmax (sum_items t dbyte batch lin hetero deep) * t.attn_tp
        ≡ 5 * lin * lin * (t.num_q_heads * batch)
  unfolding get_flops
  softmaxes_of hetero deep = simp sum_over-items_if (
      ground
        (arith, after_softmax t dbyte v sum (batch * lin), split-mul v.q_heads (lin * lin * batch)))

  transfers_of :
      (hetero deep : Bool)
      → x2g_bytes (sum_items t dbyte batch lin hetero deep) ≡ (
          if hetero
          then dbyte
            * (batch * lin)
            * (2 * (t.kv_proj_out / t.fc_tp) + t.q_proj_out / t.fc_tp + t.q_proj_out / t.attn_tp)
          else 0)
  unfolding get_size
  transfers_of hetero deep =
      simp sum_over-items_if (ground (arith, after_x2g t dbyte v sum (batch * lin)))

  without_x2g_of :
      (deep : Bool)
      → without_x2g (sum_items t dbyte batch lin true deep) ≡ sum_items t dbyte batch lin false deep
  without_x2g_of true = simp (after_without_x2g t dbyte sum (batch * lin))
  without_x2g_of false = simp (after_without_x2g t dbyte sum (batch * lin))

  -- For a model whose shards are even, the graph is built, wherever the attention runs. The FLOPs
  -- of its FC layers over all devices are those of products of all tokens with matrices of hdim by
  -- qkv_proj_out_total, of hdim by hdim, as which the graph takes the projection behind the
  -- attention, and with two, or gated three, of hdim by ff_intermediate. Over the devices of the
  -- attention, the FLOPs of its MATMUL layers are those of two products of lin by dhead by lin for
  -- each query head of each request, with five FLOPs for each score in the softmax between them.
  -- The bytes of its X2G layers are those of a device's share of the keys and values, the queries
  -- and the results where the attention runs on an accelerator, and 0 where it does not.
  pub build_sum-SumWork :
      (hetero : Bool) (layer_idx : Option ℕ)
      → (decoder : List Layer) × (build_sum t batch lin hetero layer_idx ≡ ok decoder)
        × SumWork t dbyte batch lin hetero decoder
  build_sum-SumWork hetero layer_idx = (
    sum_items t dbyte batch lin hetero (is_deepstack t layer_idx),
    build_sum-items t dbyte v batch lin hetero layer_idx,
    record {
      weights = weights_of hetero (is_deepstack t layer_idx);
      attention = attention_of hetero (is_deepstack t layer_idx);
      softmaxes = softmaxes_of hetero (is_deepstack t layer_idx);
      transfers = transfers_of hetero (is_deepstack t layer_idx);
    },
  )

  -- The graph for the GPU alone is the graph for an accelerator without its transfers.
  pub build_sum-without_x2g :
      (layer_idx : Option ℕ)
      → (decoder : List Layer) × (build_sum t batch lin true layer_idx ≡ ok decoder)
        × (build_sum t batch lin false layer_idx ≡ ok (without_x2g decoder))
  build_sum-without_x2g layer_idx = (
    sum_items t dbyte batch lin true (is_deepstack t layer_idx),
    build_sum-items t dbyte v batch lin true layer_idx,
    build_sum-items t dbyte v batch lin false layer_idx
        ∙ ap ok (sym (without_x2g_of (is_deepstack t layer_idx))),
  )
