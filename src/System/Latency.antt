-- ===== src/System/Latency.antt =====
-- `get_pipelining_efficiency_latency`, `_apply_eff_lat` and `_pipeline` (src/system.py): the times of a block for
-- a PIM device, corrected.
use attacc_simulator_vlm.Prelude.{
  ℕ, ◌+◌, ◌*◌, Bool, true, false, ◌||◌, ◌==◌, leb, if◌then◌else◌, List, [], ◌∷◌, Option, none, some,
  map, Result, ok, ◌>>=◌,
}
use attacc_simulator_vlm.Model.Types.{LayerName, score, context, qkv, proj}
use attacc_simulator_vlm.Model.Layer.{Layer}
use attacc_simulator_vlm.Model.Routing.{Place}
use attacc_simulator_vlm.Ramulator.Machine.{Clock}
use attacc_simulator_vlm.Devices.Arithmetic.{Arithmetic, over, larger, smaller, zero_time}
use attacc_simulator_vlm.Devices.{ceil_of}
use attacc_simulator_vlm.System.Perf.{Timed, has_x2g}

abbrev pub is_score_name : LayerName → Bool
is_score_name score = true
is_score_name _ = false

abbrev pub is_context_name : LayerName → Bool
is_context_name context = true
is_context_name _ = false

abbrev pub is_softmax_name : LayerName → Bool
is_softmax_name LayerName.softmax = true
is_softmax_name _ = false

abbrev pub is_qkv_name : LayerName → Bool
is_qkv_name qkv = true
is_qkv_name _ = false

abbrev pub is_proj_name : LayerName → Bool
is_proj_name proj = true
is_proj_name _ = false

-- `layer.name in ['score', 'softmax', 'context']`
abbrev pub is_attention_name : LayerName → Bool
is_attention_name name = is_score_name name || is_softmax_name name || is_context_name name

module _ {ck : Clock} (ar : Arithmetic ck) where
  -- `get_pipelining_efficiency_latency`, with `softmax_to_gemv` 0.4.
  unfoldable pub get_pipelining_efficiency_latency :
      (n_kv_per_gpu num_hbm batch_size : ℕ) → Result (ck.Time)
  get_pipelining_efficiency_latency n_kv_per_gpu num_hbm batch_size =
      if leb 2 batch_size || (n_kv_per_gpu == 0) then ok (ar.of_nat 1) else (do
        max_heads_per_hbm ← ceil_of n_kv_per_gpu num_hbm
        let denom =
            (if leb max_heads_per_hbm 1
              then ar.times (ar.of_nat num_hbm) (ar.plus (ar.of_nat 1) (ar.decimal 4 1))
              else ar.of_nat (num_hbm * max_heads_per_hbm))
        share ← over ar (ar.of_nat n_kv_per_gpu) denom
        ok (smaller ar (ar.of_nat 1) share))

  -- `next((layer for layer in decoder_block if layer.name == 'score'), None)`
  unfoldable pub first_score : List (Timed ck) → Option Layer
  first_score [] = none
  first_score (x ∷ xs) =
      let later = first_score xs in if is_score_name x.layer.name then some x.layer else later

  abbrev pub corrected : ck.Time → Timed ck → Result (Timed ck)
  corrected eff_lat x =
      if is_attention_name x.layer.name
      then (do time ← over ar x.exec_time eff_lat; ok (record x { exec_time = time }))
      else ok x

  unfoldable pub correct_all : ck.Time → List (Timed ck) → Result (List (Timed ck))
  correct_all eff_lat [] = ok []
  correct_all eff_lat (x ∷ xs) = do
    y ← corrected eff_lat x
    ys ← correct_all eff_lat xs
    ok (y ∷ ys)

  abbrev pub apply_to :
      (num_hbm batch_size : ℕ) → Option Layer → List (Timed ck) → Result (List (Timed ck))
  apply_to num_hbm batch_size none block = ok block
  apply_to num_hbm batch_size (some score_layer) block = do
    eff_lat ← get_pipelining_efficiency_latency score_layer.pim_num_op num_hbm batch_size
    correct_all eff_lat block

  -- `_apply_eff_lat`; `num_hbm` is that of the accelerator.
  unfoldable pub apply_eff_lat :
      Place → (num_hbm batch_size : ℕ) → List (Timed ck) → Result (List (Timed ck))
  unfolding first_score correct_all
  apply_eff_lat Place.pim num_hbm batch_size block =
      apply_to num_hbm batch_size (first_score block) block
  apply_eff_lat _ num_hbm batch_size block = ok block

  -- The first loop of `_pipeline`: the time of the layers whose name passes a test.
  unfoldable pub named_time : (LayerName → Bool) → ck.Time → List (Timed ck) → ck.Time
  named_time test acc [] = acc
  named_time test acc (x ∷ xs) =
      named_time test (if test x.layer.name then ar.plus acc x.exec_time else acc) xs

  -- The times that `_pipeline` changes.
  pub record Stages : Type 0 where
    pub qkv_time : ck.Time
    pub prj_time : ck.Time
    pub x2g_time : ck.Time

  -- `x2g_time` behind the test against the time of the attention, and `t - attn_time * (1 - minimum_ratio)`.
  abbrev pub overlapped_x2g : (minimum_ratio attn_time x2g_time : ck.Time) → ck.Time
  overlapped_x2g minimum_ratio attn_time x2g_time =
      if ar.less x2g_time attn_time
      then ar.times x2g_time minimum_ratio
      else ar.minus x2g_time (ar.times attn_time (ar.minus (ar.of_nat 1) minimum_ratio))

  abbrev pub hidden_part : (minimum_ratio attn_time : ck.Time) → (quarters : ℕ) → ck.Time
  hidden_part minimum_ratio attn_time quarters =
      ar.times (ar.times attn_time (ar.minus (ar.of_nat 1) minimum_ratio))
        (ar.divide (ar.of_nat quarters) (ar.of_nat 4))

  -- The branches of `_pipeline` on `level`.
  unfoldable pub overlapped : (level : Bool) → (minimum_ratio attn_time : ck.Time) → Stages → Stages
  overlapped false r attn_time s = record s { x2g_time = overlapped_x2g r attn_time s.x2g_time }
  overlapped true r attn_time s =
      let fc_time = ar.plus s.qkv_time s.prj_time in
      if ar.less fc_time attn_time
      then record {
        qkv_time = ar.times s.qkv_time r;
        prj_time = ar.times s.prj_time r;
        x2g_time = overlapped_x2g r attn_time s.x2g_time;
      }
      else (if ar.less s.x2g_time fc_time
          then record {
            qkv_time = ar.minus s.qkv_time (hidden_part r attn_time 3);
            prj_time = ar.minus s.prj_time (hidden_part r attn_time 1);
            x2g_time = ar.times s.x2g_time r;
          }
          else record {
            qkv_time = ar.times s.qkv_time r;
            prj_time = ar.times s.prj_time r;
            x2g_time = ar.minus s.x2g_time (ar.times attn_time (ar.minus (ar.of_nat 1) r));
          })

  unfoldable pub count_x2g : List (Timed ck) → ℕ
  count_x2g [] = 0
  count_x2g (x ∷ xs) = (if has_x2g x.layer.name then 1 else 0) + count_x2g xs

  -- The last loop of `_pipeline`, which sets the softmax to 0 and shares the transfers' time.
  abbrev pub restaged : Stages → (x2g_layers : ℕ) → Timed ck → Timed ck
  restaged s x2g_layers x =
      let name = x.layer.name in
      if is_qkv_name name
      then record x { exec_time = s.qkv_time }
      else (if is_proj_name name
          then record x { exec_time = s.prj_time }
          else (if has_x2g name
              then record x { exec_time = ar.divide s.x2g_time (ar.of_nat x2g_layers) }
              else (if is_softmax_name name then record x { exec_time = zero_time ar } else x)))

  -- `_pipeline`
  unfoldable pub pipeline :
      (num_kv_heads num_xpu : ℕ) → Bool → List (Timed ck) → Result (List (Timed ck))
  unfolding named_time overlapped count_x2g
  pipeline num_kv_heads num_xpu level layers = do
    heads ← over ar (ar.of_nat num_kv_heads) (ar.of_nat num_xpu)
    minimum_ratio ← over ar (ar.of_nat 1) (larger ar (ar.of_nat 1) heads)
    let sum_of = λ (test : LayerName → Bool). named_time test (zero_time ar) layers
    let attn_time =
        ar.plus (ar.plus (sum_of is_score_name) (sum_of is_context_name)) (sum_of is_softmax_name)
    ok (
        map
          (restaged
            (overlapped level minimum_ratio attn_time (record {
              qkv_time = sum_of is_qkv_name;
              prj_time = sum_of is_proj_name;
              x2g_time = sum_of has_x2g;
            }))
            (count_x2g layers))
          layers)
